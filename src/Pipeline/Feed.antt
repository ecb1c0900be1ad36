-- ===== src/Pipeline/Feed.antt =====
-- Runs of the pipeline that fill the queue of the saga and a partition of the bus.
use eventledger.Prelude.{
  ℕ, zero, suc, ◌+◌, inr, ◌<◌, ◌≤◌, ◌≡◌, refl, sym, ap, ◌∙◌, String, [], ◌∷◌, ◌++◌, length,
  length-append, arith, inl, subst,
}
use native.Mathlib.Decide.{ℕ_discrete}
use eventledger.Domain.Events.{Event}
use eventledger.Bus.Backlog.{replace_self, replace_ne}
use eventledger.Pipeline.{
  Pipeline, selecting, handling, receiving, processing, publishing, idle_pipeline, place, note, put,
  take, forward, receive, turn, appends, publishes, takes, forwards, receives, records, Reaches,
  done, next,
}
use eventledger.Pipeline.Flood.{
  Flood, AreBelow, AreBelow-mono, debit-AfterAll, debit-IsCommanded, reversal-AfterAll,
  reversal-IsOutcome,
}

module _ (hash : String → ℕ) (partitions buffer capacity workers : ℕ)
    (flood : Flood (workers + capacity + 1 + buffer)) (some_buffer : 0 < buffer)
    (some_room : 0 < capacity) where
  abbrev Run : Pipeline → Type 0
  Run s = Reaches hash partitions buffer capacity workers idle_pipeline s

  abbrev place_of : Event → ℕ
  place_of e = place hash partitions buffer capacity workers e

  abbrev pub i : ℕ
  i = place_of (flood.debit 0)

  place-debit : (k : ℕ) → place_of (flood.debit k) ≡ i
  place-debit k =
      ap (λ id. place_of (record (flood.debit 0) { aggregate_id = id }))
        (flood.on_account k ∙ sym (flood.on_account 0))

  -- The worker of the partition waits for an event, and there is none.
  abbrev IsReady : Pipeline → Type 0
  IsReady s = (s.bus_workers i ≡ selecting) × (s.partitions i ≡ [])

  -- What is recorded after so many debits.
  abbrev Fed : ℕ → Pipeline → Type 0
  Fed n s = AreBelow flood n 0 s.recorded

  Fed-mono : (m n : ℕ) (s : Pipeline) → m ≤ n → Fed m s → Fed n s
  Fed-mono m n s more = AreBelow-mono flood m 0 n 0 s.recorded more (omega arith)

  -- The state after the publication of a debit.
  abbrev fed : ℕ → Pipeline → Pipeline
  fed n s =
      put hash partitions buffer capacity workers (flood.debit n)
        (note hash partitions buffer capacity workers (flood.debit n) s)

  fed-Run :
      (n : ℕ) (s : Pipeline)
      → Run s
      → Fed n s
      → length (s.partitions i) < buffer
      → Run (fed n s)
        × Fed (suc n) (fed n s)
        × ((fed n s).partitions i ≡ s.partitions i ++ flood.debit n ∷ [])
  fed-Run n s run below room =
      let here = place-debit n in
      (
        next
            (next run (
              appends (flood.debit n) (debit-AfterAll flood n s.recorded below)
                (debit-IsCommanded flood n s.recorded below)))
            (publishes [] (flood.debit n) s.waiting refl
              (subst (λ k. length (s.partitions k) < buffer) (sym here) room)),
        (inl (n, omega arith, refl), Fed-mono n (suc n) s (omega arith) below),
        replace_self s.partitions (place_of (flood.debit n)) i _ here
            ∙ ap (λ k. s.partitions k ++ flood.debit n ∷ []) here,
      )

  -- A debit is published and reaches the queue of the saga.
  feed :
      (n : ℕ) (s : Pipeline)
      → Run s
      → IsReady s
      → Fed n s
      → length s.queue < capacity
      → (t : Pipeline) × Run t
        × IsReady t
        × Fed (suc n) t
        × (t.queue ≡ s.queue ++ flood.debit n ∷ [])
        × (t.saga_workers ≡ s.saga_workers)
  feed n s run (waits, empty) below room =
      let d = flood.debit n in
      let s1 = fed n s in
      let s2 = take hash partitions buffer capacity workers i d [] s1 in
      let s3 = forward hash partitions buffer capacity workers i d s2 in
      let (run', below', more) =
        fed-Run n s run below (subst (λ xs. length xs < buffer) (sym empty) some_buffer) in
      (
        s3,
        next (next run' (takes i d [] waits (more ∙ ap (λ xs. xs ++ d ∷ []) empty))) (
            forwards i d (replace_self s1.bus_workers i i (handling d) refl) (flood.is_debits n)
              room),
        (replace_self s2.bus_workers i i selecting refl, replace_self s1.partitions i i [] refl),
        below',
        refl,
        refl,
      )

  -- So many workers of the saga have taken a debit, and the others wait.
  occupy :
      (k : ℕ)
      → k ≤ workers
      → (s : Pipeline) × Run s
        × IsReady s
        × Fed k s
        × (s.queue ≡ [])
        × ((j : ℕ) → j < k → s.saga_workers j ≡ processing (flood.debit j))
        × ((j : ℕ) → k ≤ j → s.saga_workers j ≡ receiving)
  occupy zero small =
      (idle_pipeline, done, (refl, refl), tt, refl, (λ j h. absurd (omega arith)), (λ j h. refl))
  occupy (suc k) small =
      let d = flood.debit k in
      let (s, run, is_ready, below, empty, busy, free) = occupy k (omega arith) in
      let (t, run', is_ready', below', queued, same) =
        feed k s run is_ready below (subst (λ xs. length xs < capacity) (sym empty) some_room) in
      (
        receive hash partitions buffer capacity workers k d [] t,
        next run' (
            receives k d [] (omega arith) (ap (λ m. m k) same ∙ free k (omega arith))
              (queued ∙ ap (λ xs. xs ++ d ∷ []) empty)),
        is_ready',
        below',
        refl,
        (λ j h. elim (ℕ_discrete k j) [
          | yes here ↦
              replace_self t.saga_workers k j (processing d) here
              ∙ ap (λ n. processing (flood.debit n)) here
          | no other ↦
              replace_ne t.saga_workers k j (processing d) other
              ∙ ap (λ m. m j) same
              ∙ busy j (omega arith)
        ]),
        (λ j h.
            replace_ne t.saga_workers k j (processing d) (λ here. absurd (omega (arith, here)))
            ∙ ap (λ m. m j) same
            ∙ free j (omega arith)),
      )

  abbrev AreBusy : Pipeline → Type 0
  AreBusy s = (j : ℕ) → j < workers → s.saga_workers j ≡ processing (flood.debit j)

  -- The queue of the saga holds so many debits.
  fill :
      (n : ℕ)
      → n ≤ capacity
      → (s : Pipeline) × Run s × IsReady s × Fed (workers + n) s × (length s.queue ≡ n) × AreBusy s
  fill zero small =
      let (s, run, is_ready, below, empty, busy, free) = occupy workers (omega arith) in
      (
        s,
        run,
        is_ready,
        Fed-mono workers (workers + 0) s (omega arith) below,
        ap length empty,
        busy,
      )
  fill (suc n) small =
      let (s, run, is_ready, below, filled, busy) = fill n (omega arith) in
      let (t, run', is_ready', below', queued, same) =
        feed (workers + n) s run is_ready below (omega (arith, filled)) in
      (
        t,
        run',
        is_ready',
        Fed-mono (suc (workers + n)) (workers + suc n) t (omega arith) below',
        omega (
          arith,
          ap length queued,
          length-append s.queue (flood.debit (workers + n) ∷ []),
          filled,
        ),
        λ j h. ap (λ m. m j) same ∙ busy j h,
      )

  -- The last debit that a worker of the bus takes.
  abbrev pub held : Event
  held = flood.debit (workers + capacity)

  -- The worker of the partition holds a debit, behind which so many events wait.
  clog :
      (n : ℕ)
      → n ≤ buffer
      → (s : Pipeline) × Run s
        × (s.bus_workers i ≡ handling held)
        × (length (s.partitions i) ≡ n)
        × (length s.queue ≡ capacity)
        × Fed (workers + capacity + 1 + n) s
        × AreBusy s
  clog zero small =
      let (s, run, (waits, empty), below, filled, busy) = fill capacity (omega arith) in
      let s1 = fed (workers + capacity) s in
      let (run', below', more) =
        fed-Run (workers + capacity) s run below
          (subst (λ xs. length xs < buffer) (sym empty) some_buffer) in
      (
        take hash partitions buffer capacity workers i held [] s1,
        next run' (takes i held [] waits (more ∙ ap (λ xs. xs ++ held ∷ []) empty)),
        replace_self s1.bus_workers i i (handling held) refl,
        ap length (replace_self s1.partitions i i [] refl),
        filled,
        Fed-mono (suc (workers + capacity)) (workers + capacity + 1 + 0) s1 (omega arith) below',
        busy,
      )
  clog (suc n) small =
      let (s, run, holds, waiting, filled, below, busy) = clog n (omega arith) in
      let k = workers + capacity + 1 + n in
      let (run', below', more) = fed-Run k s run below (omega (arith, waiting)) in
      (
        fed k s,
        run',
        holds,
        omega (arith, ap length more, length-append (s.partitions i) (flood.debit k ∷ []), waiting),
        filled,
        Fed-mono (suc k) (workers + capacity + 1 + suc n) (fed k s) (omega arith) below',
        busy,
      )

  -- So many workers of the saga have recorded a reversal.
  pub clog_all :
      (k : ℕ)
      → k ≤ workers
      → (s : Pipeline) × Run s
        × (s.bus_workers i ≡ handling held)
        × (length (s.partitions i) ≡ buffer)
        × (length s.queue ≡ capacity)
        × ((j : ℕ) → j < k → s.saga_workers j ≡ publishing (flood.reversal j))
        × AreBelow flood (workers + capacity + 1 + buffer) k s.recorded
        × ((j : ℕ) → k ≤ j → j < workers → s.saga_workers j ≡ processing (flood.debit j))
  clog_all zero small =
      let (s, run, holds, waiting, filled, below, busy) = clog buffer (omega arith) in
      (s, run, holds, waiting, filled, (λ j h. absurd (omega arith)), below, (λ j low h. busy j h))
  clog_all (suc k) small =
      let f = flood.reversal k in
      let (s, run, holds, waiting, filled, publishes_all, below, busy) = clog_all k (omega arith) in
      (
        turn hash partitions buffer capacity workers k (publishing f)
            (note hash partitions buffer capacity workers f s),
        next run (
            records k (flood.debit k) f (busy k (omega arith) (omega arith))
              (reversal-AfterAll flood k s.recorded below)
              (reversal-IsOutcome flood k s.recorded below)),
        holds,
        waiting,
        filled,
        (λ j h. elim (ℕ_discrete k j) [
          | yes here ↦
              replace_self s.saga_workers k j (publishing f) here
              ∙ ap (λ n. publishing (flood.reversal n)) here
          | no other ↦
              replace_ne s.saga_workers k j (publishing f) other ∙ publishes_all j (omega arith)
        ]),
        (
          inr (k, omega arith, refl),
          AreBelow-mono flood _ k _ (suc k) s.recorded (omega arith) (omega arith) below,
        ),
        (λ j low h.
            replace_ne s.saga_workers k j (publishing f) (λ here. absurd (omega (arith, here)))
            ∙ busy j (omega arith) h),
      )
