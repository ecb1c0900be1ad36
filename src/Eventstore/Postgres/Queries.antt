-- ===== src/Eventstore/Postgres/Queries.antt =====
-- The reads that the catch-ups of the boot make of internal/eventstore/postgres.go, against those of the
-- store in memory.
use eventledger.Prelude.{
  ◌≡◌, refl, sym, ap, ◌∙◌, Bool, true, false, ◌&&◌, ◌||◌, not, String, List, [], ◌∷◌, some, str_eq,
  arith, ◌⊎◌, inl, inr,
}
use eventledger.Domain.Errors.{ok}
use eventledger.Domain.Json.{Value}
use eventledger.Domain.Events.{Event, EventType, type_eq}
use eventledger.Database.{Db, exec, query, call}
use eventledger.Eventstore.Memory
use eventledger.Eventstore.Memory.{select, mentions, settle, transfer_id_of}
use eventledger.Eventstore.Memory.Transfers.{is_settled, settle-is_settled}
use eventledger.Eventstore.Postgres.{
  load_unprocessed, pending_transfer_debits, has_transfer_event, scan_events,
}
use eventledger.Eventstore.Postgres.Rows.{
  EventTables, any_event, order_by, unprocessed, pending_debits, exists_transfer, transfer_of,
  settles, sql_eq,
}
use eventledger.Eventstore.Postgres.Order.{IsRising, order_by-IsRising, select-IsRising}
use eventledger.Eventstore.Postgres.Load.{memory_of}

-- The types that a transfer id is looked up in.
abbrev pub is_of_transfer : Event → Bool
is_of_transfer e =
    type_eq e.type EventType.transfer_debited
    || type_eq e.type EventType.transfer_credited
    || type_eq e.type EventType.transfer_reversed

abbrev pub database : EventTables → Db EventTables
database t = record { faults = []; tables = t }

module _ (shown : Value → String) where
  -- Every event of a transfer has its transfer id as text.
  abbrev pub IsNamed : List Event → Type 0
  IsNamed [] = Unit
  IsNamed (e ∷ es) =
      (is_of_transfer e ≡ true → transfer_of shown e ≡ some (transfer_id_of e)) × IsNamed es

  select-ext :
      (p q : Event → Bool) (xs : List Event)
      → IsNamed xs
      → ((e : Event)
          → (is_of_transfer e ≡ true → transfer_of shown e ≡ some (transfer_id_of e))
          → p e ≡ q e)
      → select p xs ≡ select q xs
  unfolding select
  select-ext p q [] n h = refl
  select-ext p q (x ∷ xs) n h = rw (h x n.0, select-ext p q xs n.1 h) refl

  any_event-mentions :
      (type : EventType) (transfer_id : String) (xs : List Event)
      → IsNamed xs
      → ((e : Event) → type_eq e.type type ≡ true → is_of_transfer e ≡ true)
      → any_event (λ e. type_eq e.type type && sql_eq (transfer_of shown e) (some transfer_id)) xs
        ≡ mentions type transfer_id xs
  unfolding any_event mentions
  any_event-mentions type transfer_id [] n h = refl
  any_event-mentions type transfer_id (x ∷ xs) n h =
      rw (any_event-mentions type transfer_id xs n.1 h)
        (ap (λ b. b || mentions type transfer_id xs) (here (type_eq x.type type) refl))
    where
      here :
          (b : Bool)
          → type_eq x.type type ≡ b
          → (b && sql_eq (transfer_of shown x) (some transfer_id))
            ≡ (b && str_eq (transfer_id_of x) transfer_id)
      here false q = refl
      here true q = rw (n.0 (h x q)) refl

  any_event-settles :
      (e : Event) (xs : List Event)
      → transfer_of shown e ≡ some (transfer_id_of e)
      → IsNamed xs
      → any_event (settles shown e) xs ≡ is_settled xs (transfer_id_of e)
  unfolding any_event mentions
  any_event-settles e [] own n = refl
  any_event-settles e (x ∷ xs) own n = rw (any_event-settles e xs own n.1) (
      here (type_eq x.type EventType.transfer_credited) (type_eq x.type EventType.transfer_reversed)
        refl refl)
    where
      here :
          (b c : Bool)
          → type_eq x.type EventType.transfer_credited ≡ b
          → type_eq x.type EventType.transfer_reversed ≡ c
          → (((b || c) && sql_eq (transfer_of shown x) (transfer_of shown e))
              || is_settled xs (transfer_id_of e))
            ≡ (((b && str_eq (transfer_id_of x) (transfer_id_of e))
                  || mentions EventType.transfer_credited (transfer_id_of e) xs)
                || ((c && str_eq (transfer_id_of x) (transfer_id_of e))
                    || mentions EventType.transfer_reversed (transfer_id_of e) xs))
      here false false p q = refl
      here true c p q = rw (n.0 (ground (arith, p)), own) (ground arith)
      here false true p q = rw (n.0 (ground (arith, q)), own) (ground arith)

  -- On tables whose rows stand in the order of their sequence, and whose transfer events have their
  -- transfer id as a text, and where the database answers all calls, LoadUnprocessed,
  -- PendingTransferDebits and HasTransferEvent (for a credit or a reversal) give what the store in
  -- memory gives that holds the same events.
  pub queries-memory_of :
      (t : EventTables)
      → IsRising (λ e. e.seq) 0 t.events t.next_seq
      → IsNamed t.events
      → (load_unprocessed (database t) ≡ Memory.load_unprocessed (memory_of t))
        × (pending_transfer_debits shown (database t)
            ≡ Memory.pending_transfer_debits (memory_of t))
        × ((type : EventType) (transfer_id : String)
            → (type ≡ EventType.transfer_credited) ⊎ (type ≡ EventType.transfer_reversed)
            → has_transfer_event shown type transfer_id (database t)
              ≡ Memory.has_transfer_event type transfer_id (memory_of t))
  unfolding load_unprocessed pending_transfer_debits has_transfer_event query exec call scan_events
      unprocessed pending_debits exists_transfer Memory.load_unprocessed
      Memory.pending_transfer_debits Memory.has_transfer_event
  queries-memory_of t h n = (
    ap ok (in_order (λ e. not (t.processed e.id))),
    ap ok (
        in_order (λ e.
          type_eq e.type EventType.transfer_debited && not (any_event (settles shown e) t.events))
        ∙ select-ext _ _ t.events n
            (λ e own. pending e (type_eq e.type EventType.transfer_debited) refl own)),
    λ type transfer_id which.
        ap ok (any_event-mentions type transfer_id t.events n (λ e q. of_transfer e type q which)),
  )
    where
      in_order :
          (test : Event → Bool)
          → order_by (λ e. e.seq) (select test t.events) ≡ select test t.events
      in_order test =
          order_by-IsRising (λ e. e.seq) 0 (select test t.events) t.next_seq
            (select-IsRising (λ e. e.seq) test 0 t.events t.next_seq h)

      of_transfer :
          (e : Event) (type : EventType)
          → type_eq e.type type ≡ true
          → (type ≡ EventType.transfer_credited) ⊎ (type ≡ EventType.transfer_reversed)
          → is_of_transfer e ≡ true
      of_transfer e type q (inl p) =
          let found : type_eq e.type EventType.transfer_credited ≡ true = cc in
          ground (arith, found)
      of_transfer e type q (inr p) =
          let found : type_eq e.type EventType.transfer_reversed ≡ true = cc in
          ground (arith, found)

      pending :
          (e : Event) (b : Bool)
          → type_eq e.type EventType.transfer_debited ≡ b
          → (is_of_transfer e ≡ true → transfer_of shown e ≡ some (transfer_id_of e))
          → (b && not (any_event (settles shown e) t.events))
            ≡ (b && not (settle (λ id. false) t.events (transfer_id_of e)))
      pending e false q own = refl
      pending e true q own = ap not (
          any_event-settles e t.events (own (ground (arith, q))) n
          ∙ sym (settle-is_settled (λ id. false) t.events (transfer_id_of e)))
