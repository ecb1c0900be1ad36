-- ===== src/Eventstore/Postgres/Fresh.antt =====
-- Append of internal/eventstore/postgres.go on batches that the columns take: the loop.
use eventledger.Prelude.{
  ℕ, ◌+◌, ◌≤◌, ◌<◌, ◌≡◌, refl, sym, ap, ◌∙◌, Bool, true, false, String, List, [], ◌∷◌, ◌++◌, length,
  arith, subst, eq_iff, str_eq, length-append, Bool-cases, inl, inr, ◌==◌,
}
use eventledger.Prelude.Int.{half_range}
use eventledger.Domain.Errors.{Sentinel, ok, fail}
use eventledger.Domain.Events.{Event}
use eventledger.Database.{exec}
use eventledger.Eventstore.Port.{IsNumbered}
use eventledger.Eventstore.Streams.{IsNumbered-append}
use eventledger.Eventstore.Memory.{select}
use eventledger.Eventstore.Memory.Coherent.{belongs, select-append, select_own}
use eventledger.Eventstore.Postgres.{insert_all}
use eventledger.Eventstore.Postgres.Rows.{
  EventTables, any_event, clashes, is_json, add_event, insert_event, refused,
}
use eventledger.Eventstore.Postgres.Stored.{stream}
use eventledger.Eventstore.Postgres.Queries.{database}

-- No row clashes with a new id and a version above those of its stream.
pub no_clash :
    (id : String) (w : ℕ) (xs : List Event) (e : Event)
    → IsNumbered id w (select (belongs id) xs)
    → w + length (select (belongs id) xs) ≤ e.version
    → e.aggregate_id ≡ id
    → any_event (λ f. str_eq f.id e.id) xs ≡ false
    → any_event (clashes e) xs ≡ false
unfolding any_event select
no_clash id w [] e n l here fresh = refl
no_clash id w (x ∷ xs) e n l here fresh = elim (Bool-cases (str_eq x.aggregate_id id)) [
  | inl p ↦
      let m : IsNumbered id w (x ∷ select (belongs id) xs) = rw p at n in
      let k : w + length (x ∷ select (belongs id) xs) ≤ e.version = rw p at l in
      ground (arith, m.1, k, no_clash id (w + 1) xs e m.2 (omega (arith, k)) here)
  | inr p ↦
      let other : str_eq x.aggregate_id e.aggregate_id ≡ false = cc (p, here) in
      ground (arith, other, no_clash id w xs e (rw p at n) (rw p at l) here)
]

stream-add_event :
    (id : String) (e : Event) (t : EventTables)
    → e.aggregate_id ≡ id
    → stream (add_event e t) id ≡ stream t id ++ record e { seq = t.next_seq } ∷ []
stream-add_event id e t here =
    select-append (belongs id) t.events (record e { seq = t.next_seq } ∷ [])
    ∙ ap (λ l. stream t id ++ l)
        (select_own id e.version (record e { seq = t.next_seq } ∷ []) (here, refl, tt))

module _ (is_uuid : String → Bool) where
  -- The ids and payloads of a batch that the columns take, where no id is in the table when its turn
  -- comes.
  abbrev pub IsInsertable : List Event → EventTables → Type 0
  IsInsertable [] t = Unit
  IsInsertable (e ∷ es) t =
      (is_uuid e.id ≡ true)
      × (is_json e.payload ≡ true)
      × (any_event (λ f. str_eq f.id e.id) t.events ≡ false)
      × IsInsertable es (add_event e t)

  pub insert_event_fresh :
      (id : String) (v : ℕ) (e : Event) (t : EventTables)
      → is_uuid id ≡ true
      → e.aggregate_id ≡ id
      → e.version ≡ v + 1
      → v + 1 < half_range
      → is_uuid e.id ≡ true
      → is_json e.payload ≡ true
      → any_event (clashes e) t.events ≡ false
      → insert_event is_uuid e t ≡ (ok 1, add_event e t)
  unfolding insert_event
  insert_event_fresh id v e t valid here next small own json fresh =
      ground (arith, valid, own, json, fresh, here, next)

  insert_event_clashing :
      (id : String) (v : ℕ) (e : Event) (t : EventTables)
      → is_uuid id ≡ true
      → e.aggregate_id ≡ id
      → e.version ≡ v + 1
      → v + 1 < half_range
      → is_uuid e.id ≡ true
      → is_json e.payload ≡ true
      → any_event (clashes e) t.events ≡ true
      → insert_event is_uuid e t
        ≡ refused "23505" "duplicate key value violates unique constraint" t
  unfolding insert_event
  insert_event_clashing id v e t valid here next small own json clash =
      ground (arith, valid, own, json, clash, here, next)

  pub insert_all_accepts :
      (id : String) (v : ℕ) (es : List Event) (t : EventTables)
      → is_uuid id ≡ true
      → IsNumbered id (v + 1) es
      → v + length es < half_range
      → IsInsertable es t
      → IsNumbered id 1 (stream t id)
      → length (stream t id) ≡ v
      → (u : EventTables) × (insert_all is_uuid id (v + 1) es (database t) ≡ (ok tt, database u))
  unfolding insert_all exec
  insert_all_accepts id v [] t valid n small h indexed start = (t, refl)
  insert_all_accepts id v (e ∷ es) t valid n small h indexed start =
      let fresh = no_clash id 1 t.events e indexed (omega (arith, start, n.1)) n.0 h.2 in
      let added = insert_event_fresh id v e t valid n.0 n.1 (omega (arith, small)) h.0 h.1 fresh in
      let grown = stream-add_event id e t n.0 in
      let (u, rest) =
        insert_all_accepts id (v + 1) es (add_event e t) valid n.2 (omega (arith, small)) h.3
          (subst (IsNumbered id 1) (sym grown)
            (IsNumbered-append id 1 (stream t id) _ indexed (n.0, omega (arith, n.1, start), tt)))
          (ap length grown
            ∙ omega
                (arith, length-append (stream t id) (record e { seq = t.next_seq } ∷ []), start)) in
      let own : str_eq e.aggregate_id id ≡ true = (eq_iff e.aggregate_id id).1 n.0 in
      let next : (e.version == v + 1) ≡ true = ground (arith, n.1) in
      (u, rw (own, next, added) rest)

  pub insert_all_refuses :
      (id : String) (v : ℕ) (e : Event) (es : List Event) (t : EventTables)
      → is_uuid id ≡ true
      → e.aggregate_id ≡ id
      → e.version ≡ v + 1
      → v + 1 < half_range
      → is_uuid e.id ≡ true
      → is_json e.payload ≡ true
      → any_event (clashes e) t.events ≡ true
      → insert_all is_uuid id (v + 1) (e ∷ es) (database t) ≡ (
        fail Sentinel.concurrency,
        database (refused "23505" "duplicate key value violates unique constraint" t).1,
      )
  unfolding insert_all exec
  insert_all_refuses id v e es t valid here next small own json clash =
      let stopped : insert_event is_uuid e t
          ≡ refused "23505" "duplicate key value violates unique constraint" t =
        insert_event_clashing id v e t valid here next small own json clash in
      let same : str_eq e.aggregate_id id ≡ true = (eq_iff e.aggregate_id id).1 here in
      let numbered : (e.version == v + 1) ≡ true = ground (arith, next) in
      rw (same, numbered, stopped) refl
