-- ===== src/Bus/Drain.antt =====
-- internal/bus/bus.go: what a worker has delivered when it returns.
use eventledger.Prelude.{
  ℕ, ◌<◌, ◌≡◌, ◌≢◌, refl, sym, ap, ◌∙◌, Bool, true, false, String, List, [], ◌∷◌, ◌++◌, Bool-cases,
  inl, inr,
}
use native.Mathlib.Decide.{ℕ_discrete}
use mathlib.Core.List.{append_assoc, append-nil}
use eventledger.Domain.Events.{Event}
use eventledger.Eventstore.Memory.{select}
use eventledger.Bus.{
  Loop, serving, draining, Worker, absent, exited, selecting, delivering, Bus, replace, send, move,
  hand,
}
use eventledger.Bus.Backlog.{of, of-append, replace_self, replace_ne, flight_to, at, IsOrdered}

-- Whether a worker has seen `done` closed.
abbrev pub is_leaving : Worker → Bool
is_leaving absent = false
is_leaving exited = true
is_leaving (selecting serving) = false
is_leaving (selecting draining) = true
is_leaving (delivering serving k e) = false
is_leaving (delivering draining k e) = true

pub deliver-is_leaving :
    (loop : Loop) (k : ℕ) (e : Event)
    → is_leaving (delivering loop k e) ≡ is_leaving (selecting loop)
deliver-is_leaving serving k e = refl
deliver-is_leaving draining k e = refl

-- A list starts with another one.
abbrev pub StartsWith : List Event → List Event → Type 0
StartsWith xs ys = (rest : List Event) × (ys ≡ xs ++ rest)

StartsWith-append : (xs ys zs : List Event) → StartsWith xs ys → StartsWith xs (ys ++ zs)
StartsWith-append xs ys zs (rest, p) = (rest ++ zs, ap (λ l. l ++ zs) p ∙ append_assoc xs rest zs)

module _ (hash : String → ℕ) (partitions buffer : ℕ) where
  abbrev pub home : String → ℕ
  home id = at hash partitions buffer id

  -- What was accepted starts with what was accepted while `done` was open; a worker leaves only after
  -- `done` was closed, and the one of an aggregate only with all of the early events delivered.
  pub record IsDrained (h : ℕ) (id : String) (b : Bus) : Type 0 where
    pub splits : StartsWith b.early b.accepted
    pub open_yet : b.is_done ≡ false → b.accepted ≡ b.early
    pub leaving : (i : ℕ) → is_leaving (b.workers i) ≡ true → b.is_done ≡ true
    pub drained :
        b.workers (home id) ≡ exited
        → h < b.handlers
        → StartsWith (of id b.early) (of id (b.received h))

  -- A step of a worker that does not end it.
  pub work-IsDrained :
      (h : ℕ) (id : String) (i : ℕ) (w : Worker) (a b : Bus)
      → IsDrained h id a
      → b.accepted ≡ a.accepted
      → b.early ≡ a.early
      → b.is_done ≡ a.is_done
      → b.handlers ≡ a.handlers
      → b.workers ≡ replace a.workers i w
      → w ≢ exited
      → (is_leaving w ≡ true → a.is_done ≡ true)
      → ((zs : List Event) × (of id (b.received h) ≡ of id (a.received h) ++ zs))
      → IsDrained h id b
  work-IsDrained h id i w a b d accepted early closed handlers workers ne leaves (zs, grown) =
      record {
        splits = rw (accepted, early) d.splits;
        open_yet = λ off. accepted ∙ d.open_yet (sym closed ∙ off) ∙ sym early;
        leaving = λ j l. closed ∙ elim (ℕ_discrete i j) [
          | yes same ↦
              leaves (
                ap is_leaving (sym (ap (λ m. m j) workers ∙ replace_self a.workers i j w same)) ∙ l)
          | no other ↦
              d.leaving j
                (ap is_leaving (sym (ap (λ m. m j) workers ∙ replace_ne a.workers i j w other)) ∙ l)
        ];
        drained = λ ended below. elim (ℕ_discrete i (home id)) [
          | yes same ↦ absurd (
              ne (
                sym (ap (λ m. m (home id)) workers ∙ replace_self a.workers i (home id) w same)
                ∙ ended))
          | no other ↦
              rw (early, grown)
                (StartsWith-append (of id a.early) (of id (a.received h)) zs (
                  d.drained
                    (sym (ap (λ m. m (home id)) workers ∙ replace_ne a.workers i (home id) w other)
                      ∙ ended)
                    (rw handlers at below)))
        ];
      }

  pub same_received :
      (h : ℕ) (id : String) (b : Bus)
      → (zs : List Event) × (of id (b.received h) ≡ of id (b.received h) ++ zs)
  same_received h id b = ([], sym (append-nil (of id (b.received h))))

  pub hand-received :
      (h : ℕ) (id : String) (i : ℕ) (loop : Loop) (k : ℕ) (e : Event) (b : Bus)
      → (zs : List Event) × (of id ((hand hash partitions buffer i loop k e b).received h)
          ≡ of id (b.received h) ++ zs)
  hand-received h id i loop k e b = elim (ℕ_discrete k h) [
    | yes same ↦ (
      of id (e ∷ []),
      ap (of id) (replace_self b.received k h (b.received k ++ e ∷ []) same)
          ∙ ap (λ n. of id (b.received n ++ e ∷ [])) same
          ∙ of-append id (b.received h) (e ∷ []),
    )
    | no other ↦ (
      [],
      ap (of id) (replace_ne b.received k h (b.received k ++ e ∷ []) other)
          ∙ sym (append-nil (of id (b.received h))),
    )
  ]

  pub send-IsDrained :
      (h : ℕ) (id : String) (e : Event) (b : Bus)
      → IsDrained h id b
      → IsDrained h id (send hash partitions buffer e b)
  send-IsDrained h id e b d = elim (Bool-cases b.is_done) [
    | inl closed ↦ record {
      splits = rw closed (StartsWith-append b.early b.accepted (e ∷ []) d.splits);
      open_yet = λ off. absurd (cc);
      leaving = d.leaving;
      drained = rw closed d.drained;
    }
    | inr opened ↦ record {
      splits =
          rw opened (
            [],
            ap (λ xs. xs ++ e ∷ []) (d.open_yet opened) ∙ sym (append-nil (b.early ++ e ∷ [])),
          );
      open_yet = λ off. rw opened (ap (λ xs. xs ++ e ∷ []) (d.open_yet opened));
      leaving = d.leaving;
      drained = λ ended below. absurd (cc (d.leaving (home id) (ap is_leaving ended), opened));
    }
  ]

  -- A worker that finds its partition empty has delivered all that was accepted of its aggregates.
  pub exit-IsDrained :
      (h : ℕ) (id : String) (i : ℕ) (b : Bus)
      → b.workers i ≡ selecting draining
      → b.partitions i ≡ []
      → IsOrdered hash partitions buffer h id b
      → IsDrained h id b
      → IsDrained h id (move hash partitions buffer i exited b)
  unfolding select
  exit-IsDrained h id i b q empty o d = record {
    splits = d.splits;
    open_yet = d.open_yet;
    leaving = λ j l. elim (ℕ_discrete i j) [
      | yes same ↦ d.leaving i (ap is_leaving q)
      | no other ↦ d.leaving j (ap is_leaving (sym (replace_ne b.workers i j exited other)) ∙ l)
    ];
    drained = λ ended below. elim (ℕ_discrete i (home id)) [
      | yes same ↦
          let (late, parts) = d.splits in
          (
            of id late,
            sym (
                  o.order (inl below)
                  ∙ ap
                      (λ j.
                        of id (b.received h) ++ of id (flight_to h (b.workers j) ++ b.partitions j))
                      (sym same)
                  ∙ (rw (q, empty) (append-nil (of id (b.received h)))))
                ∙ ap (of id) parts
                ∙ of-append id b.early late,
          )
      | no other ↦ d.drained (sym (replace_ne b.workers i (home id) exited other) ∙ ended) below
    ];
  }
