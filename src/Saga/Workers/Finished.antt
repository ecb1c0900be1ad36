-- ===== src/Saga/Workers/Finished.antt =====
-- internal/saga/transfer.go: what the workers have done with the queue when Close returns.
use eventledger.Prelude.{
  ℕ, ◌≡◌, ◌≢◌, refl, sym, ap, ◌∙◌, true, false, List, [], ◌∷◌, ◌++◌, ◌⊎◌, inl, inr, arith, subst,
}
use native.Mathlib.Decide.{ℕ_discrete}
use mathlib.Core.List.{append_assoc, append-nil}
use eventledger.Domain.Events.{Event}
use eventledger.Saga.Workers.{
  Worker, absent, receiving, exited, processing, Pool, new_pool, put_worker, enqueue, start_workers,
  receive, finish_process, exit_worker, Step, starts, handles, resumes, receives, finishes, closes,
  exits, Reaches, done, next,
}

-- Whether an event is in a list.
abbrev pub IsIn : Event → List Event → Type 0
IsIn e [] = ⊥
IsIn e (x ∷ xs) = (x ≡ e) ⊎ IsIn e xs

IsIn-append : (e : Event) (xs ys : List Event) → IsIn e xs → IsIn e (xs ++ ys)
IsIn-append e [] ys h = absurd h
IsIn-append e (x ∷ xs) ys (inl p) = inl p
IsIn-append e (x ∷ xs) ys (inr h) = inr (IsIn-append e xs ys h)

IsIn-last : (e : Event) (xs : List Event) → IsIn e (xs ++ e ∷ [])
IsIn-last e [] = inl refl
IsIn-last e (x ∷ xs) = inr (IsIn-last e xs)

IsIn-snoc : (e y : Event) (xs : List Event) → IsIn e (xs ++ y ∷ []) → IsIn e xs ⊎ (y ≡ e)
IsIn-snoc e y [] (inl p) = inr p
IsIn-snoc e y [] (inr h) = absurd h
IsIn-snoc e y (x ∷ xs) (inl p) = inl (inl p)
IsIn-snoc e y (x ∷ xs) (inr h) = elim (IsIn-snoc e y xs h) [ inl k ↦ inl (inr k) | inr p ↦ inr p ]

-- What was queued is what was taken and what waits, in order; what was taken has been processed or is
-- in the hands of a worker; a worker that has returned leaves a closed, empty queue.
pub record IsConsumed (p : Pool) : Type 0 where
  pub in_order : p.queued ≡ p.taken ++ p.queue
  pub held :
      (e : Event) → IsIn e p.taken → IsIn e p.finished ⊎ ((i : ℕ) × (p.workers i ≡ processing e))
  pub emptied : (i : ℕ) → p.workers i ≡ exited → (p.is_closed ≡ true) × (p.queue ≡ [])

put_worker_self : (p : Pool) (i j : ℕ) (w : Worker) → i ≡ j → put_worker p i w j ≡ w
put_worker_self p i j w same = ground arith

put_worker_ne : (p : Pool) (i j : ℕ) (w : Worker) → i ≢ j → put_worker p i w j ≡ p.workers j
put_worker_ne p i j w other = ground arith

enqueue-IsConsumed :
    (e : Event) (p : Pool) → p.is_closed ≡ false → IsConsumed p → IsConsumed (enqueue e p)
enqueue-IsConsumed e p opened c = record {
  in_order = ap (λ xs. xs ++ e ∷ []) c.in_order ∙ append_assoc p.taken p.queue (e ∷ []);
  held = c.held;
  emptied = λ i q. absurd (cc ((c.emptied i q).0, opened));
}

-- A worker that another event or none occupies is not the one that holds `e`.
kept :
    (p : Pool) (i : ℕ) (v w : Worker) (e : Event)
    → p.workers i ≡ v
    → v ≢ processing e
    → (j : ℕ) × (p.workers j ≡ processing e)
    → (j : ℕ) × (put_worker p i w j ≡ processing e)
kept p i v w e q ne (j, holds) =
    (j, put_worker_ne p i j w (λ same. ne (sym q ∙ ap p.workers same ∙ holds)) ∙ holds)

receive-IsConsumed :
    (i : ℕ) (e : Event) (rest : List Event) (p : Pool)
    → p.workers i ≡ receiving
    → p.queue ≡ e ∷ rest
    → IsConsumed p
    → IsConsumed (receive i e rest p)
receive-IsConsumed i e rest p q waits c = record {
  in_order = c.in_order ∙ ap (λ xs. p.taken ++ xs) waits ∙ sym (append_assoc p.taken (e ∷ []) rest);
  held = λ f taken. elim (IsIn-snoc f e p.taken taken) [
    | inr same ↦ inr (i, put_worker_self p i i (processing e) refl ∙ ap processing same)
    | inl before ↦ elim (c.held f before) [
      | inl over ↦ inl over
      | inr holds ↦ inr (kept p i receiving (processing e) f q (λ n. cc) holds)
    ]
  ];
  emptied = λ j ended. elim (ℕ_discrete i j) [
    | yes same ↦ absurd (cc (put_worker_self p i j (processing e) same))
    | no other ↦
        absurd
          (cc (waits, (c.emptied j (sym (put_worker_ne p i j (processing e) other) ∙ ended)).1))
  ];
}

finish-IsConsumed :
    (i : ℕ) (e : Event) (p : Pool)
    → p.workers i ≡ processing e
    → IsConsumed p
    → IsConsumed (finish_process i e p)
finish-IsConsumed i e p q c = record {
  in_order = c.in_order;
  held = λ f taken. elim (c.held f taken) [
    | inl over ↦ inl (IsIn-append f p.finished (e ∷ []) over)
    | inr (j, holds) ↦ elim (ℕ_discrete i j) [
      | yes same ↦
          let here : e ≡ f = cc (q, ap p.workers same, holds) in
          inl (subst (λ g. IsIn g (p.finished ++ e ∷ [])) here (IsIn-last e p.finished))
      | no other ↦ inr (j, put_worker_ne p i j receiving other ∙ holds)
    ]
  ];
  emptied = λ j ended. elim (ℕ_discrete i j) [
    | yes same ↦ absurd (cc (put_worker_self p i j receiving same))
    | no other ↦ c.emptied j (sym (put_worker_ne p i j receiving other) ∙ ended)
  ];
}

exit-IsConsumed :
    (i : ℕ) (p : Pool)
    → p.workers i ≡ receiving
    → p.is_closed ≡ true
    → p.queue ≡ []
    → IsConsumed p
    → IsConsumed (exit_worker i p)
exit-IsConsumed i p q closed empty c = record {
  in_order = c.in_order;
  held = λ f taken. elim (c.held f taken) [
    | inl over ↦ inl over
    | inr holds ↦ inr (kept p i receiving exited f q (λ n. cc) holds)
  ];
  emptied = λ j ended. elim (ℕ_discrete i j) [
    | yes same ↦ (closed, empty)
    | no other ↦ c.emptied j (sym (put_worker_ne p i j exited other) ∙ ended)
  ];
}

start-IsConsumed :
    (workers : ℕ) (p : Pool)
    → ((i : ℕ) → p.workers i ≡ absent)
    → IsConsumed p
    → IsConsumed (start_workers workers p)
start-IsConsumed workers p off c = record {
  in_order = c.in_order;
  held = λ f taken. elim (c.held f taken) [
    | inl over ↦ inl over
    | inr (i, holds) ↦ absurd (cc (off i))
  ];
  emptied = λ i ended. absurd (ground arith);
}

Step-IsConsumed :
    (workers capacity : ℕ) {p q : Pool} → Step workers capacity p q → IsConsumed p → IsConsumed q
Step-IsConsumed workers capacity {p} (starts off) c = start-IsConsumed workers p off c
Step-IsConsumed workers capacity {p} (handles e debit opened room) c =
    enqueue-IsConsumed e p opened c
Step-IsConsumed workers capacity {p} (resumes e opened room) c = enqueue-IsConsumed e p opened c
Step-IsConsumed workers capacity {p} (receives i e rest q waits) c =
    receive-IsConsumed i e rest p q waits c
Step-IsConsumed workers capacity {p} (finishes i e q) c = finish-IsConsumed i e p q c
Step-IsConsumed workers capacity closes c = record {
  in_order = c.in_order;
  held = c.held;
  emptied = λ i q. (refl, (c.emptied i q).1);
}
Step-IsConsumed workers capacity {p} (exits i q closed empty) c =
    exit-IsConsumed i p q closed empty c

pub Reaches-IsConsumed :
    (workers capacity : ℕ) {p : Pool} → Reaches workers capacity new_pool p → IsConsumed p
Reaches-IsConsumed workers capacity done = record {
  in_order = refl;
  held = λ e h. absurd h;
  emptied = λ i q. absurd (cc);
}
Reaches-IsConsumed workers capacity (next before step) =
    Step-IsConsumed workers capacity step (Reaches-IsConsumed workers capacity before)

-- In any run of a saga that ends with every worker returned, as Close waits for, and at least one of
-- them started, the debits have been taken in the order in which they were put into the queue, none is
-- left there, and each of them has been processed to its end.
pub Reaches_finished :
    (workers capacity : ℕ) {p : Pool}
    → Reaches workers capacity new_pool p
    → ((i : ℕ) → (p.workers i ≡ exited) ⊎ (p.workers i ≡ absent))
    → p.workers 0 ≡ exited
    → (p.queued ≡ p.taken) × ((e : Event) → IsIn e p.queued → IsIn e p.finished)
Reaches_finished workers capacity {p} run over first =
    let c = Reaches-IsConsumed workers capacity run in
    let empty = (c.emptied 0 first).1 in
    let all : p.queued ≡ p.taken =
      c.in_order ∙ ap (λ xs. p.taken ++ xs) empty ∙ append-nil p.taken in
    (
      all,
      λ e h. elim (c.held e (subst (IsIn e) all h)) [
        | inl finished ↦ finished
        | inr (i, holds) ↦ elim (over i) [ inl ended ↦ absurd (cc) | inr never ↦ absurd (cc) ]
      ],
    )
