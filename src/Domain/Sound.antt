-- ===== src/Domain/Sound.antt =====
-- The invariant of an account: the balance is not negative, and stays far enough below the bounds of
-- an int64 that no sum wraps before some 92 thousand million events.
use eventledger.Prelude.{
  ℕ, ◌+◌, ◌*◌, ◌≤◌, ◌<◌, ◌≡◌, refl, sym, subst, arith, Bool, true, false, if◌then◌else◌,
}
use eventledger.Prelude.Int.{
  ℤ, pos, pos_part, ◌≤ℤ◌, ◌+ℤ◌, ◌-ℤ◌, add64, sub64, add64_exact, sub64_exact, int_laws, one_part,
}
use eventledger.Domain.Errors.{ok}
use eventledger.Domain.Events.{Event, Stamp}
use eventledger.Domain.Account.{Account, max_operation_amount, apply}
use eventledger.Domain.Decide.{
  Command, decide, decide-apply, amount_of, takes_out, after, deposits, withdraws, debits, credits,
  reverses,
}
use eventledger.Domain.Rules.{Rules, decide-IsAllowed}

pub record IsSound (a : Account) : Type 0 where
  pub nonneg : pos 0 ≤ℤ a.balance
  pub bounded : pos_part a.balance ≤ a.version * 100_000_000

-- The greatest version up to which a balance cannot leave the range of an int64.
abbrev pub max_version : ℕ
max_version = 92_233_720_368

-- The balance that a command leaves, in exact arithmetic.
abbrev pub exact : Command → ℤ → ℤ
exact c balance = if takes_out c then balance -ℤ amount_of c else balance +ℤ amount_of c

-- A sum, or a difference that is covered, is exact and keeps the bounds.
move_exact :
    (out : Bool) (b x : ℤ) (v : ℕ)
    → pos 0 ≤ℤ b
    → pos_part b ≤ v * 100_000_000
    → pos 1 ≤ℤ x
    → x ≤ℤ max_operation_amount
    → (out ≡ true → x ≤ℤ b)
    → v < max_version
    → ((if out then sub64 b x else add64 b x) ≡ (if out then b -ℤ x else b +ℤ x))
      × (pos 0 ≤ℤ (if out then b -ℤ x else b +ℤ x))
      × (pos_part (if out then b -ℤ x else b +ℤ x) ≤ (v + 1) * 100_000_000)
move_exact true b x v n k p l cover m =
    let covered = cover refl in
    (
      sub64_exact b x (omega (int_laws, one_part (b -ℤ x))),
      omega int_laws,
      omega (int_laws, one_part (b -ℤ x)),
    )
move_exact false b x v n k p l cover m = (
  add64_exact b x (omega (int_laws, one_part (b +ℤ x))),
  omega int_laws,
  omega (int_laws, one_part (b +ℤ x)),
)

Rules-covered :
    (c : Command) (a : Account) → Rules c a → takes_out c ≡ true → amount_of c ≤ℤ a.balance
Rules-covered (deposits x d) a r h = cc
Rules-covered (withdraws x d) a r h = r.2
Rules-covered (debits t to x) a r h = r.2
Rules-covered (credits t from x) a r h = cc
Rules-covered (reverses t x reason) a r h = cc

-- The amount of a reversal is not tested against the limit by the account: it is that of an earlier
-- debit, which was.
abbrev pub IsLimited : Command → Type 0
IsLimited (reverses t amount reason) = amount ≤ℤ max_operation_amount
IsLimited c = Unit {0}

Rules-limited :
    (c : Command) (a : Account) → Rules c a → IsLimited c → amount_of c ≤ℤ max_operation_amount
Rules-limited (deposits x d) a r h = r.1
Rules-limited (withdraws x d) a r h = r.1
Rules-limited (debits t to x) a r h = r.1
Rules-limited (credits t from x) a r h = r.1
Rules-limited (reverses t x reason) a r h = h

-- A command that is accepted on a sound account leads to a sound account, whose balance is the exact
-- sum or difference: no overdraft and no overflow, if the amount of a reversal is up to the limit and
-- the version is below the bound.
pub decide-IsSound :
    (c : Command) (s : Stamp) (a : Account) {e : Event}
    → IsSound a
    → IsLimited c
    → a.version < max_version
    → decide c s a ≡ ok e
    → (apply e a ≡ ok (after c a)) × IsSound (after c a) × ((after c a).balance ≡ exact c a.balance)
decide-IsSound c s a h l m d =
    let allowed = decide-IsAllowed c s a d in
    let positive = allowed.1 in
    let limited = Rules-limited c a allowed.2 l in
    let (same, nonneg, bounded) =
      move_exact (takes_out c) a.balance (amount_of c) a.version h.nonneg h.bounded positive limited
        (Rules-covered c a allowed.2) m in
    (
      decide-apply c s a (omega (arith, one_part (amount_of c))) d,
      record {
        nonneg = subst (λ y. pos 0 ≤ℤ y) (sym same) nonneg;
        bounded = subst (λ y. pos_part y ≤ (a.version + 1) * 100_000_000) (sym same) bounded;
      },
      same,
    )
