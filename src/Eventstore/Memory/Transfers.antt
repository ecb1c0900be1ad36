-- ===== src/Eventstore/Memory/Transfers.antt =====
-- The queries that the catch-ups of the boot make of Memory.
use eventledger.Prelude.{
  ◌≡◌, refl, sym, ap, ◌∙◌, true, false, Bool, ◌&&◌, ◌||◌, not, String, List, [], ◌∷◌, str_eq,
  fun_ext, if◌then◌else◌, arith,
}
use eventledger.Domain.Errors.{ok, err, Result}
use eventledger.Domain.Events.{Event, EventType, type_eq}
use eventledger.Eventstore.Memory.{
  Memory, put, select, settle, mentions, transfer_id_of, pending_transfer_debits,
  has_transfer_event, load_unprocessed, mark_processed,
}

-- Whether a log has a credit or a reversal of a transfer.
abbrev pub is_settled : List Event → String → Bool
is_settled log t =
    mentions EventType.transfer_credited t log || mentions EventType.transfer_reversed t log

pub settle-is_settled :
    (m : String → Bool) (log : List Event) (t : String) → settle m log t ≡ (m t || is_settled log t)
unfolding settle mentions
settle-is_settled m [] t = ground arith
settle-is_settled m (e ∷ log) t = ground (
  arith,
  settle-is_settled
      (if type_eq e.type EventType.transfer_credited || type_eq e.type EventType.transfer_reversed
        then put m (transfer_id_of e) true
        else m)
      log t,
)

abbrev pub found : Result Bool → Bool
found (ok b) = b
found (err e) = false

-- The debits for whose transfer HasTransferEvent finds neither a credit nor a reversal.
abbrev pub is_pending : Memory → Event → Bool
is_pending s e =
    type_eq e.type EventType.transfer_debited
    && not (
        found (has_transfer_event EventType.transfer_credited (transfer_id_of e) s)
        || found (has_transfer_event EventType.transfer_reversed (transfer_id_of e) s))

-- PendingTransferDebits agrees with HasTransferEvent: it gives, in the order of the log, exactly the
-- debits for whose transfer the latter finds neither a credit nor a reversal.
pub pending_transfer_debits-has_transfer_event :
    (s : Memory) → pending_transfer_debits s ≡ ok (select (is_pending s) s.log)
unfolding pending_transfer_debits has_transfer_event
pending_transfer_debits-has_transfer_event s =
    ap (λ p. ok (select p s.log))
      (fun_ext (λ e.
        ap (λ b. type_eq e.type EventType.transfer_debited && not b)
          (settle-is_settled (λ id. false) s.log (transfer_id_of e))))

select-and :
    (p q : Event → Bool) (xs : List Event) → select q (select p xs) ≡ select (λ e. p e && q e) xs
unfolding select
select-and p q [] = refl
select-and p q (x ∷ xs) = ground (arith, select-and p q xs)

-- What the projector has marked is no longer handed to its catch-up, and all else still is, in the
-- order of the log.
pub load_unprocessed-mark_processed :
    (id : String) (s : Memory) {es : List Event}
    → load_unprocessed s ≡ ok es
    → load_unprocessed (mark_processed id s) ≡ ok (select (λ e. not (str_eq id e.id)) es)
unfolding load_unprocessed mark_processed
load_unprocessed-mark_processed id s {es} h =
    let listed : select (λ e. not (s.marks e.id)) s.log ≡ es = cc in
    ap ok (
      ap (λ p. select p s.log) (fun_ext (λ e. test (str_eq id e.id) (s.marks e.id)))
      ∙ sym (select-and (λ e. not (s.marks e.id)) (λ e. not (str_eq id e.id)) s.log)
      ∙ ap (select (λ e. not (str_eq id e.id))) listed)
  where
    test : (b m : Bool) → not (if b then true else m) ≡ (not m && not b)
    test b m = ground arith
