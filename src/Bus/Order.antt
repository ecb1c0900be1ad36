-- ===== src/Bus/Order.antt =====
-- internal/bus/bus.go: the order in which each handler is called with the events of one aggregate.
use eventledger.Prelude.{
  ℕ, suc, ◌<◌, ◌≡◌, ◌≢◌, refl, sym, ap, ◌∙◌, false, String, List, [], ◌∷◌, ◌++◌, Bool-cases, inl,
  inr, arith, ltb, if◌then◌else◌, subst,
}
use native.Mathlib.Decide.{ℕ_discrete}
use mathlib.Core.List.{append_assoc, append-nil}
use eventledger.Domain.Events.{Event}
use eventledger.Eventstore.Memory.{select}
use eventledger.Bus.{
  Loop, serving, draining, Worker, absent, exited, selecting, delivering, Bus, new_in_memory, send,
  start, move, take, hand, Step, subscribes, starts, publishes, drops, takes, hands, returns,
  notices, exits, closes, Reaches, done, next,
}
use eventledger.Bus.Backlog.{
  of, of-append, of_others_tail, replace_self, replace_ne, leb_zero, leb_self, leb_next, leb_other,
  leb_above, flight, flight_to, backlog, at, IsLocal, IsOrdered, running, elsewhere,
  local-IsOrdered,
}

module _ (hash : String → ℕ) (partitions buffer : ℕ) where
  move-IsLocal : (i : ℕ) (w : Worker) (b : Bus) → IsLocal i b (move hash partitions buffer i w b)
  move-IsLocal i w b = record {
    accepted = refl;
    handlers = refl;
    started = refl;
    workers = λ j other. replace_ne b.workers i j w other;
    partitions = λ j other. refl;
  }

  -- A worker that goes on with nothing in flight for the handler, before and after.
  move-IsOrdered :
      (h : ℕ) (id : String) (i : ℕ) (v w : Worker) (b : Bus)
      → b.workers i ≡ v
      → v ≢ absent
      → (h < b.handlers → flight_to h v ≡ [])
      → flight_to h w ≡ []
      → flight w ≡ []
      → IsOrdered hash partitions buffer h id b
      → IsOrdered hash partitions buffer h id (move hash partitions buffer i w b)
  move-IsOrdered h id i v w b q ne before after empty o =
      let here = replace_self b.workers i i w refl in
      local-IsOrdered hash partitions buffer h id i b (move hash partitions buffer i w b)
        (running hash partitions buffer h id b i v o q ne) o (move-IsLocal i w b)
        (λ below. rw (here, after, q, before below) refl)
        (λ none. (
          rw (here, empty) (tail v (subst (λ u. of id (flight u ++ b.partitions i) ≡ []) q none)),
          refl,
        ))
    where
      tail : (u : Worker) → of id (flight u ++ b.partitions i) ≡ [] → of id (b.partitions i) ≡ []
      tail absent p = p
      tail exited p = p
      tail (selecting loop) p = p
      tail (delivering loop k e) p = (of_others_tail id e (b.partitions i) p).1

  take-IsOrdered :
      (h : ℕ) (id : String) (i : ℕ) (loop : Loop) (e : Event) (rest : List Event) (b : Bus)
      → b.workers i ≡ selecting loop
      → b.partitions i ≡ e ∷ rest
      → IsOrdered hash partitions buffer h id b
      → IsOrdered hash partitions buffer h id (take hash partitions buffer i loop e rest b)
  take-IsOrdered h id i loop e rest b q p o =
      let w = replace_self b.workers i i (delivering loop 0 e) refl in
      let r = replace_self b.partitions i i rest refl in
      local-IsOrdered hash partitions buffer h id i b (take hash partitions buffer i loop e rest b)
        (running hash partitions buffer h id b i (selecting loop) o q (λ n. cc)) o
        (record {
          accepted = refl;
          handlers = refl;
          started = refl;
          workers = λ j other. replace_ne b.workers i j _ other;
          partitions = λ j other. replace_ne b.partitions i j _ other;
        })
        (λ below. rw (w, r, q, p, leb_zero h) refl) (λ none. (rw (w, r) (rw (q, p) at none), refl))

  hand-IsOrdered :
      (h : ℕ) (id : String) (i : ℕ) (loop : Loop) (k : ℕ) (e : Event) (b : Bus)
      → b.workers i ≡ delivering loop k e
      → IsOrdered hash partitions buffer h id b
      → IsOrdered hash partitions buffer h id (hand hash partitions buffer i loop k e b)
  hand-IsOrdered h id i loop k e b q o =
      let w = replace_self b.workers i i (delivering loop (suc k) e) refl in
      local-IsOrdered hash partitions buffer h id i b (hand hash partitions buffer i loop k e b)
        (running hash partitions buffer h id b i (delivering loop k e) o q (λ n. cc)) o
        (record {
          accepted = refl;
          handlers = refl;
          started = refl;
          workers = λ j other. replace_ne b.workers i j _ other;
          partitions = λ j other. refl;
        })
        (λ below. elim (ℕ_discrete k h) [
          | yes same ↦
              rw (w, q, replace_self b.received k h (b.received k ++ e ∷ []) same)
                (rw (same, leb_self h, leb_next h)
                  (ap (λ xs. of id (b.received h) ++ xs) (of-append id (e ∷ []) (b.partitions i))
                    ∙ sym (
                        append_assoc (of id (b.received h)) (of id (e ∷ []))
                          (of id (b.partitions i)))
                    ∙ ap (λ xs. xs ++ of id (b.partitions i))
                        (sym (of-append id (b.received h) (e ∷ [])))))
          | no other ↦
              rw
                (
                  w,
                  q,
                  replace_ne b.received k h (b.received k ++ e ∷ []) other,
                  leb_other k h other,
                )
                refl
        ])
        (λ none.
          let flying = subst (λ u. of id (flight u ++ b.partitions i) ≡ []) q none in
          (
            rw w flying,
            elim (ℕ_discrete k h) [
              | yes same ↦ rw (replace_self b.received k h (b.received k ++ e ∷ []) same) (
                  rw same (
                    of-append id (b.received h) (e ∷ [])
                    ∙ ap (λ xs. of id (b.received h) ++ xs)
                        (of_others_tail id e (b.partitions i) flying).0
                    ∙ append-nil (of id (b.received h))))
              | no other ↦ ap (of id) (replace_ne b.received k h (b.received k ++ e ∷ []) other)
            ],
          ))

  send-IsOrdered :
      (h : ℕ) (id : String) (e : Event) (b : Bus)
      → IsOrdered hash partitions buffer h id b
      → IsOrdered hash partitions buffer h id (send hash partitions buffer e b)
  send-IsOrdered h id e b o =
      let i = at hash partitions buffer e.aggregate_id in
      let q = b.partitions i ++ e ∷ [] in
      record {
        order = λ c.
            of-append id b.accepted (e ∷ []) ∙ elim (ℕ_discrete i (at hash partitions buffer id)) [
              | yes same ↦ rw (replace_self b.partitions i (at hash partitions buffer id) q same) (
                  ap (λ xs. xs ++ of id (e ∷ [])) (o.order c)
                  ∙ append_assoc (of id (b.received h))
                      (of id (backlog h b (at hash partitions buffer id))) (of id (e ∷ []))
                  ∙ ap (λ xs. of id (b.received h) ++ xs)
                      (sym (of-append id (backlog h b (at hash partitions buffer id)) (e ∷ [])))
                  ∙ ap (λ xs. of id (b.received h) ++ of id xs)
                      (append_assoc (flight_to h (b.workers (at hash partitions buffer id)))
                        (b.partitions (at hash partitions buffer id)) (e ∷ []))
                  ∙ ap
                      (λ j.
                        of id (b.received h)
                        ++ of id (
                            flight_to h (b.workers (at hash partitions buffer id))
                            ++ (b.partitions j ++ e ∷ [])))
                      (sym same))
              | no other ↦ rw (replace_ne b.partitions i (at hash partitions buffer id) q other) (
                  ap (λ xs. of id b.accepted ++ xs) (elsewhere hash partitions buffer id e other)
                  ∙ append-nil (of id b.accepted)
                  ∙ o.order c)
            ];
        routed = λ j apart. elim (ℕ_discrete i j) [
          | yes same ↦ rw (replace_self b.partitions i j q same) (
              ap (λ n. of id (flight (b.workers j) ++ (b.partitions n ++ e ∷ []))) same
              ∙ ap (of id) (sym (append_assoc (flight (b.workers j)) (b.partitions j) (e ∷ [])))
              ∙ of-append id (flight (b.workers j) ++ b.partitions j) (e ∷ [])
              ∙ (rw (o.routed j apart)
                  (elsewhere hash partitions buffer id e (λ p. apart (sym same ∙ p)))))
          | no other ↦ rw (replace_ne b.partitions i j q other) (o.routed j apart)
        ];
        idle = o.idle;
      }

  started-flight :
      (h i : ℕ) → flight_to h (if ltb i partitions then selecting serving else absent) ≡ []
  started-flight h i = ground arith

  start-IsOrdered :
      (h : ℕ) (id : String) (b : Bus)
      → b.is_started ≡ false
      → IsOrdered hash partitions buffer h id b
      → IsOrdered hash partitions buffer h id (start hash partitions buffer b)
  start-IsOrdered h id b off o = record {
    order = λ c.
        o.order (inr off)
        ∙ (rw
            (
              o.idle off (at hash partitions buffer id),
              started-flight h (at hash partitions buffer id),
            )
            refl);
    routed = λ i apart.
        let none = o.routed i apart in
        elim (Bool-cases (ltb i partitions)) [
          | inl p ↦ rw p (rw (o.idle off i) at none)
          | inr p ↦ rw p (rw (o.idle off i) at none)
        ];
    idle = λ on. absurd (cc);
  }

  Step-IsOrdered :
      {a b : Bus} (h : ℕ) (id : String)
      → Step hash partitions buffer a b
      → IsOrdered hash partitions buffer h id a
      → IsOrdered hash partitions buffer h id b
  Step-IsOrdered h id (subscribes off) o = record {
    order = λ c. o.order (inr off);
    routed = o.routed;
    idle = o.idle;
  }
  Step-IsOrdered {a} h id (starts off) o = start-IsOrdered h id a off o
  Step-IsOrdered {a} h id (publishes e room) o = send-IsOrdered h id e a o
  Step-IsOrdered h id (drops e closed) o = o
  Step-IsOrdered {a} h id (takes i loop e rest q p) o = take-IsOrdered h id i loop e rest a q p o
  Step-IsOrdered {a} h id (hands i loop k e q below) o = hand-IsOrdered h id i loop k e a q o
  Step-IsOrdered {a} h id (returns i loop k e q all) o =
      move-IsOrdered h id i (delivering loop k e) (selecting loop) a q (λ n. cc)
        (λ below. rw (leb_above k h (omega (arith, all))) refl) refl refl o
  Step-IsOrdered {a} h id (notices i q closed) o =
      move-IsOrdered h id i (selecting serving) (selecting draining) a q (λ n. cc) (λ below. refl)
        refl refl o
  Step-IsOrdered {a} h id (exits i q empty) o =
      move-IsOrdered h id i (selecting draining) exited a q (λ n. cc) (λ below. refl) refl refl o
  Step-IsOrdered h id closes o = record { order = o.order; routed = o.routed; idle = o.idle }

  -- In any run of the bus from its start, each handler is called with the events of one aggregate in
  -- the order in which they were accepted, each once: what was accepted of an aggregate is what the
  -- handler was called with, then the event that the worker of the aggregate's partition has still to
  -- hand to it, then what waits in that partition; no other worker and partition has events of it.
  pub Reaches-IsOrdered :
      {b : Bus} (h : ℕ) (id : String)
      → Reaches hash partitions buffer new_in_memory b
      → IsOrdered hash partitions buffer h id b
  unfolding select
  Reaches-IsOrdered h id done = record {
    order = λ c. refl;
    routed = λ i apart. refl;
    idle = λ off i. refl;
  }
  Reaches-IsOrdered h id (next before step) =
      Step-IsOrdered h id step (Reaches-IsOrdered h id before)
