-- ===== src/Pipeline/Flood.antt =====
-- Debits of one account and their reversals, as the commands of internal/app/app.go record them for the
-- pipeline.
use eventledger.Prelude.{
  ℕ, ◌<◌, ◌≤◌, ◌≡◌, refl, sym, ap, ◌∙◌, ◌⊎◌, inl, inr, true, false, String, List, [], ◌∷◌, str_eq,
  eq_iff, arith, subst,
}
use eventledger.Domain.Events.{Event, EventType, type_eq, type_name, new_event}
use eventledger.Eventstore.Memory.{transfer_id_of, mentions}
use eventledger.Pipeline.{is_debit, After, AfterAll, IsCommanded, IsReversal, IsOutcome}

-- The debits are recorded one after the other, and the reversals after the first `total` of them.
pub record Flood (total : ℕ) : Type 0 where
  pub account : String
  pub debit : ℕ → Event
  pub reversal : ℕ → Event
  pub is_debits : (k : ℕ) → is_debit (debit k) ≡ true
  pub on_account : (k : ℕ) → (debit k).aggregate_id ≡ account
  pub are_reversals : (k : ℕ) → IsReversal (debit k) (reversal k)
  pub debits_After : (i k : ℕ) → i < k → After (debit k) (debit i)
  pub reversals_after_debits : (i k : ℕ) → i < total → After (reversal k) (debit i)
  pub reversals_After : (i k : ℕ) → i < k → After (reversal k) (reversal i)
  pub transfers :
      (i k : ℕ) → i < k → str_eq (transfer_id_of (debit i)) (transfer_id_of (debit k)) ≡ false
  pub reversed_transfers :
      (i k : ℕ) → i < k → str_eq (transfer_id_of (reversal i)) (transfer_id_of (debit k)) ≡ false

type_reversed :
    (t : EventType)
    → type_eq t EventType.transfer_debited ≡ true
    → (type_eq t EventType.transfer_reversed ≡ false)
      × (type_eq t EventType.transfer_credited ≡ false)
unfolding type_eq
type_reversed t h =
    let same : type_name t ≡ type_name EventType.transfer_debited = (eq_iff _ _).0 h in
    (rw same refl, rw same refl)

module _ {total : ℕ} (flood : Flood total) where
  pub reversal-account : (k : ℕ) → (flood.reversal k).aggregate_id ≡ flood.account
  unfolding new_event
  reversal-account k =
      let (p, stamp, version, reason, decoded, q) = flood.are_reversals k in
      ap (λ e. e.aggregate_id) q ∙ flood.on_account k

  reversal-type : (k : ℕ) → (flood.reversal k).type ≡ EventType.transfer_reversed
  unfolding new_event
  reversal-type k =
      let (p, stamp, version, reason, decoded, q) = flood.are_reversals k in ap (λ e. e.type) q

  -- One of the first `n` debits.
  abbrev IsEarly : ℕ → Event → Type 0
  IsEarly n e = (i : ℕ) × (i < n) × (e ≡ flood.debit i)

  -- One of the first `m` reversals.
  abbrev IsUndone : ℕ → Event → Type 0
  IsUndone m e = (i : ℕ) × (i < m) × (e ≡ flood.reversal i)

  abbrev pub AreBelow : ℕ → ℕ → List Event → Type 0
  AreBelow n m [] = Unit
  AreBelow n m (e ∷ recorded) = (IsEarly n e ⊎ IsUndone m e) × AreBelow n m recorded

  pub AreBelow-mono :
      (n m n' m' : ℕ) (recorded : List Event)
      → n ≤ n'
      → m ≤ m'
      → AreBelow n m recorded
      → AreBelow n' m' recorded
  AreBelow-mono n m n' m' [] p q h = tt
  AreBelow-mono n m n' m' (e ∷ recorded) p q (inl (i, small, same), rest) =
      (inl (i, omega arith, same), AreBelow-mono n m n' m' recorded p q rest)
  AreBelow-mono n m n' m' (e ∷ recorded) p q (inr (i, small, same), rest) =
      (inr (i, omega arith, same), AreBelow-mono n m n' m' recorded p q rest)

  pub debit-AfterAll :
      (n : ℕ) (recorded : List Event) → AreBelow n 0 recorded → AfterAll (flood.debit n) recorded
  debit-AfterAll n [] h = tt
  debit-AfterAll n (e ∷ recorded) (inl (i, small, same), rest) = (
    subst (After (flood.debit n)) (sym same) (flood.debits_After i n small),
    debit-AfterAll n recorded rest,
  )
  debit-AfterAll n (e ∷ recorded) (inr (i, small, same), rest) = absurd (omega arith)

  debit-unmentioned :
      (n : ℕ) (recorded : List Event)
      → AreBelow n 0 recorded
      → mentions EventType.transfer_debited (transfer_id_of (flood.debit n)) recorded ≡ false
  unfolding mentions
  debit-unmentioned n [] h = refl
  debit-unmentioned n (e ∷ recorded) (inl (i, small, same), rest) =
      rw same (
        rw (flood.is_debits i) (rw (flood.transfers i n small) (debit-unmentioned n recorded rest)))
  debit-unmentioned n (e ∷ recorded) (inr (i, small, same), rest) = absurd (omega arith)

  pub debit-IsCommanded :
      (n : ℕ) (recorded : List Event) → AreBelow n 0 recorded → IsCommanded (flood.debit n) recorded
  debit-IsCommanded n recorded h =
      let (reversed, credited) = type_reversed (flood.debit n).type (flood.is_debits n) in
      (credited, reversed, λ p. debit-unmentioned n recorded h)

  pub reversal-AfterAll :
      (m : ℕ) (recorded : List Event)
      → AreBelow total m recorded
      → AfterAll (flood.reversal m) recorded
  reversal-AfterAll m [] h = tt
  reversal-AfterAll m (e ∷ recorded) (inl (i, small, same), rest) = (
    subst (After (flood.reversal m)) (sym same) (flood.reversals_after_debits i m small),
    reversal-AfterAll m recorded rest,
  )
  reversal-AfterAll m (e ∷ recorded) (inr (i, small, same), rest) = (
    subst (After (flood.reversal m)) (sym same) (flood.reversals_After i m small),
    reversal-AfterAll m recorded rest,
  )

  reversal-unmentioned :
      (m : ℕ) (recorded : List Event)
      → AreBelow total m recorded
      → mentions EventType.transfer_reversed (transfer_id_of (flood.debit m)) recorded ≡ false
  unfolding mentions type_eq transfer_id_of
  reversal-unmentioned m [] h = refl
  reversal-unmentioned m (e ∷ recorded) (inl (i, small, same), rest) = rw same (
      rw ((type_reversed (flood.debit i).type (flood.is_debits i)).0)
        (reversal-unmentioned m recorded rest))
  reversal-unmentioned m (e ∷ recorded) (inr (i, small, same), rest) = rw same (
      rw (reversal-type i)
        (rw (flood.reversed_transfers i m small) (reversal-unmentioned m recorded rest)))

  pub reversal-IsOutcome :
      (m : ℕ) (recorded : List Event)
      → AreBelow total m recorded
      → IsOutcome (flood.debit m) (flood.reversal m) recorded
  reversal-IsOutcome m recorded h =
      (inl (flood.are_reversals m), rw (reversal-type m) (reversal-unmentioned m recorded h))
