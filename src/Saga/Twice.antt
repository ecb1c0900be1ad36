-- ===== src/Saga/Twice.antt =====
-- `process` of internal/saga/transfer.go by two workers that hold the same debit, one from the bus and
-- one from CatchUp, say.
use eventledger.Prelude.{
  ◌+◌, ℕ, suc, ◌≡◌, refl, sym, ap, ◌∙◌, subst, Bool, String, List, [], ◌∷◌, ◌++◌, inl, inr, Option,
  arith, str_eq_refl,
}
use eventledger.Prelude.Int.{ℤ, IsInt64, one_part}
use eventledger.Domain.Errors.{Error, Result, ok}
use eventledger.Domain.Events.{Event, EventType, Stamp, TransferDebited, unmarshal_transfer_debited}
use eventledger.Domain.Account.{Account, blank, replay}
use eventledger.Domain.Replay.{replay-snoc, apply-seq}
use eventledger.Domain.Decide.{Command, credits, decide, event_of, after, amount_of, decide-apply}
use eventledger.Domain.Rules.{IsAllowed, decide_iff}
use eventledger.Domain.Sound.{IsLimited}
use eventledger.Eventstore.Memory.{memory_store, has_transfer_event, load, load_stream}
use eventledger.Eventstore.Memory.Contract.{memory_IsEventStore}
use eventledger.App
use eventledger.App.{World, Turn, mutate}
use eventledger.App.Extends.{IsLedger, Fits, quiet-IsTraffic}
use eventledger.App.Loop.{IsTurn}
use eventledger.App.Ledger.{mutate-IsLedger}
use eventledger.App.Undisturbed.{still, commit, mutate_undisturbed, load-Replays}
use eventledger.Saga.{Attempt, completed, process}
use eventledger.Saga.Tally.{credits_of, undisturbed, mentions_of_count, Added}
use eventledger.Saga.Attempts.{alone, mutate_credit-Added}
use eventledger.Saga.Redelivery.{process_credited}

still-IsTurn :
    (stamps : ℕ → Stamp) (cancelled : ℕ → Option Error) (k : ℕ)
    → IsTurn memory_IsEventStore (still (stamps k) (cancelled k))
still-IsTurn stamps cancelled k = record {
  appending = quiet-IsTraffic memory_IsEventStore;
  publishing = quiet-IsTraffic memory_IsEventStore;
  waiting = quiet-IsTraffic memory_IsEventStore;
}

load_stream-snoc :
    (xs : List Event) (e : Event) → load_stream (xs ++ e ∷ []) ≡ replay blank (xs ++ e ∷ [])
load_stream-snoc [] e = refl
load_stream-snoc (x ∷ xs) e = refl

amount-IsInt64 :
    (t from : String) (x : ℤ) (a : Account) → IsAllowed (credits t from x) a → IsInt64 x
amount-IsInt64 t from x a allowed =
    let positive = allowed.1 in
    let limited = allowed.2.1 in
    record { above = omega (arith, one_part x); below = omega (arith, one_part x) }

-- The attempts of a worker whose calls of CreditTransfer each let `others` run between the question
-- for an earlier credit and the load of the destination.
abbrev pub beside :
    (World memory_store → World memory_store)
    → (ℕ → ℕ → Stamp)
    → (ℕ → ℕ → Option Error)
    → (ℕ → Bool)
    → ℕ
    → Attempt (World memory_store)
beside others stamps cancelled done k = record {
  commands = record (undisturbed (stamps k) (cancelled k)) {
    credit_transfer =
        App.credit_transfer memory_store others (λ j. still (stamps k j) (cancelled k j));
  };
  during_backoff = λ w. w;
  done = done k;
}

module _ (c : Command) (stamps : ℕ → Stamp) (cancelled : ℕ → Option Error) (id : String)
    (w : World memory_store) (a : Account) (h : IsLedger memory_IsEventStore w)
    (loaded : load id w.store ≡ ok a) (allowed : IsAllowed c a) where
  abbrev run : Result (Unit {0}) × World memory_store
  run = mutate memory_store (λ k. still (stamps k) (cancelled k)) id (λ s b. decide c s b) w

  run-ok : run ≡ (ok tt, commit id (event_of c (stamps 0) a) w)
  run-ok =
      mutate_undisturbed stamps cancelled id c w h
      ∙ (rw loaded (rw ((decide_iff c (stamps 0) a).1 allowed) refl))

  run-load :
      IsInt64 (amount_of c) → load id (commit id (event_of c (stamps 0) a) w).store ≡ ok (after c a)
  unfolding load
  run-load small =
      let e = event_of c (stamps 0) a in
      let e' : Event = record e { seq = suc w.store.seq } in
      let xs = w.store.streams id in
      let r = load-Replays w id a h loaded in
      rw (str_eq_refl id) (
        load_stream-snoc xs e'
        ∙ replay-snoc blank a xs e' r.replayed
        ∙ apply-seq e (suc w.store.seq) a
        ∙ decide-apply c (stamps 0) a small ((decide_iff c (stamps 0) a).1 allowed))

  run-IsLedger :
      IsLimited c
      → Fits memory_IsEventStore (commit id (event_of c (stamps 0) a) w)
      → IsLedger memory_IsEventStore (commit id (event_of c (stamps 0) a) w)
  run-IsLedger limited fits =
      subst (λ r. IsLedger memory_IsEventStore r.1) run-ok
        (mutate-IsLedger memory_IsEventStore (λ k. still (stamps k) (cancelled k)) id c w
          (still-IsTurn stamps cancelled) limited h
          (subst (λ r. Fits memory_IsEventStore r.1) (sym run-ok) fits)).0

  run-credits :
      (t : String) (n : ℕ)
      → Added t n 0 w run
      → credits_of t (commit id (event_of c (stamps 0) a) w) ≡ credits_of t w + n
  run-credits t n (inl (x, q)) = absurd (cc (ap (λ r. r.0) (sym run-ok ∙ q)))
  run-credits t n (inr (q, counted, reversed)) = ap (λ r. credits_of t r.1) (sym run-ok) ∙ counted

-- One call of CreditTransfer that finds no credit yet.
module _ (t from : String) (x : ℤ) (to : String) (others : World memory_store → World memory_store)
    (stamps : ℕ → Stamp) (cancelled : ℕ → Option Error) (w : World memory_store)
    (none_yet : credits_of t w ≡ 0) where
  credit-mutate :
      App.credit_transfer memory_store others (λ k. still (stamps k) (cancelled k)) to t from x w
      ≡ mutate memory_store
          (λ k. still (stamps k) (cancelled k))
          to
          (λ s a. decide (credits t from x) s a)
          (others w)
  unfolding App.credit_transfer has_transfer_event decide
  credit-mutate = rw (mentions_of_count EventType.transfer_credited t w.store.log none_yet) refl

module _ (stamps later : ℕ → ℕ → Stamp) (cancelled calm : ℕ → ℕ → Option Error)
    (done stop : ℕ → Bool) (last : ℕ → Stamp) (last_cancelled : ℕ → Option Error) (e : Event)
    (p : TransferDebited) (w : World memory_store) (a : Account) where
  -- The other worker's whole work on the debit.
  abbrev other : World memory_store → World memory_store
  other v = (process (alone stamps cancelled done) (undisturbed last last_cancelled) e v).1

  abbrev command : Command
  command = credits p.transfer_id e.aggregate_id p.amount

  -- The worlds after the first credit and after the second one.
  abbrev first : World memory_store
  first = commit p.to (event_of command (stamps 0 0) a) w

  abbrev second : World memory_store
  second = commit p.to (event_of command (later 0 0) (after command a)) first

  -- Two workers that hold the same debit can both credit it: on a ledger in order, with a debit of a
  -- readable payload whose transfer has no credit, and a destination that can be loaded and takes the
  -- amount, a worker whose first question for an earlier credit is answered before the other worker
  -- does all of its work, which nobody else disturbs, completes the transfer a second time: it has
  -- two credits. No stream outgrows the bound on versions.
  pub process_twice :
      IsLedger memory_IsEventStore w
      → unmarshal_transfer_debited e.payload ≡ ok p
      → credits_of p.transfer_id w ≡ 0
      → load p.to w.store ≡ ok a
      → IsAllowed (credits p.transfer_id e.aggregate_id p.amount) a
      → Fits memory_IsEventStore
          (process (alone stamps cancelled done) (undisturbed last last_cancelled) e w).1
      → let (r, v) =
          process
            (beside
              (λ v. (process (alone stamps cancelled done) (undisturbed last last_cancelled) e v).1)
              later
              calm
              stop)
            (undisturbed last last_cancelled)
            e
            w in
        (r ≡ completed) × (credits_of p.transfer_id v ≡ 2)
  process_twice h decoded none_yet loaded allowed fits =
      let id = p.transfer_id in
      let alone_first =
        credit-mutate id e.aggregate_id p.amount p.to (λ v. v) (stamps 0) (cancelled 0) w none_yet
        ∙ run-ok command (stamps 0) (cancelled 0) p.to w a h loaded allowed in
      let earlier : other w ≡ first =
        ap (λ r. r.1)
          (process_credited (alone stamps cancelled done) (undisturbed last last_cancelled) e p w _
            decoded alone_first refl) in
      let small : IsInt64 p.amount = amount-IsInt64 id e.aggregate_id p.amount a allowed in
      let fits' = subst (Fits memory_IsEventStore) earlier fits in
      let ledger =
        run-IsLedger command (stamps 0) (cancelled 0) p.to w a h loaded allowed tt fits' in
      let reloaded = run-load command (stamps 0) (cancelled 0) p.to w a h loaded allowed small in
      let call =
        credit-mutate id e.aggregate_id p.amount p.to other (later 0) (calm 0) w none_yet
        ∙ ap
            (mutate memory_store (λ k. still (later 0 k) (calm 0 k)) p.to
              (λ s b. decide command s b))
            earlier
        ∙ run-ok command (later 0) (calm 0) p.to first (after command a) ledger reloaded allowed in
      let once =
        run-credits command (stamps 0) (cancelled 0) p.to w a h loaded allowed id 1
          (mutate_credit-Added (stamps 0) (cancelled 0) w h p.to id e.aggregate_id p.amount) in
      let twice =
        run-credits command (later 0) (calm 0) p.to first (after command a) ledger reloaded allowed
          id 1
          (mutate_credit-Added (later 0) (calm 0) first ledger p.to id e.aggregate_id p.amount) in
      rw
        (process_credited (beside other later calm stop) (undisturbed last last_cancelled) e p w _
          decoded call refl)
        (refl, omega (arith, once, twice))
