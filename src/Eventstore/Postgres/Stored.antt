-- ===== src/Eventstore/Postgres/Stored.antt =====
-- The invariant of the tables behind internal/eventstore/postgres.go, and the streams that they hold.
use eventledger.Prelude.{
  ℕ, ◌+◌, ◌<◌, ◌≡◌, refl, sym, ap, ◌∙◌, Bool, ◌&&◌, String, List, [], ◌∷◌, ◌++◌, Option, none, some,
  length, arith, subst, ltb,
}
use mathlib.Core.List.{append_assoc}
use eventledger.Prelude.Int.{half_range}
use eventledger.Domain.Errors.{ok, within}
use eventledger.Domain.Events.{Event}
use eventledger.Domain.Account.{Account, blank, replay}
use eventledger.Domain.Account.State.{unmarshal_account}
use eventledger.Eventstore.Port.{IsNumbered}
use eventledger.Eventstore.Memory.{select}
use eventledger.Eventstore.Memory.Coherent.{belongs}
use eventledger.Eventstore.Postgres.{base_of}
use eventledger.Eventstore.Postgres.Rows.{EventTables, Snapshot}
use eventledger.Eventstore.Postgres.Order.{IsRising}

-- The events of an aggregate, in the order in which they were inserted.
abbrev pub stream : EventTables → String → List Event
stream t id = select (belongs id) t.events

-- The account that a beginning of the stream stands for.
pub record IsBase (xs : List Event) (base : Account) : Type 0 where
  pub ys : List Event
  pub zs : List Event
  pub parts : xs ≡ ys ++ zs
  pub replayed : replay blank ys ≡ ok base
  pub version : base.version ≡ length ys

abbrev pub IsSnapshot : List Event → Option Snapshot → Type 0
IsSnapshot xs none = Unit {0}
IsSnapshot xs (some s) = (a : Account) × (unmarshal_account s.state ≡ ok a) × IsBase xs a

-- Streams are numbered from 1 without a gap, versions are int64 values, snapshots stand for
-- beginnings of their streams, and the sequence is ahead of the rows.
pub record IsStored (t : EventTables) : Type 0 where
  pub indexed : (id : String) → IsNumbered id 1 (stream t id)
  pub short : (id : String) → length (stream t id) < half_range
  pub snapshots : (id : String) → IsSnapshot (stream t id) (t.snapshots id)
  pub ordered : IsRising (λ e. e.seq) 0 t.events t.next_seq

pub IsBase-append : (xs fs : List Event) (base : Account) → IsBase xs base → IsBase (xs ++ fs) base
IsBase-append xs fs base h = record {
  ys = h.ys;
  zs = h.zs ++ fs;
  parts = ap (λ l. l ++ fs) h.parts ∙ append_assoc h.ys h.zs fs;
  replayed = h.replayed;
  version = h.version;
}

pub IsSnapshot-append :
    (xs fs : List Event) (o : Option Snapshot) → IsSnapshot xs o → IsSnapshot (xs ++ fs) o
IsSnapshot-append xs fs none h = tt
IsSnapshot-append xs fs (some s) h = (h.0, h.1, IsBase-append xs fs h.0 h.2)

-- What the load starts from.
pub base_of-IsBase :
    (xs : List Event) (o : Option Snapshot) {base : Account}
    → IsSnapshot xs o
    → base_of o ≡ ok base
    → IsBase xs base
unfolding replay
base_of-IsBase xs none {base} h q =
    let same : blank ≡ base = cc in
    subst (IsBase xs) same
      (record { ys = []; zs = xs; parts = refl; replayed = refl; version = refl })
base_of-IsBase xs (some s) {base} (a, read, h) q =
    let same : a ≡ base = cc (ap (within "unmarshal snapshot") (sym read) ∙ q) in
    subst (IsBase xs) same h

select-and :
    (p q : Event → Bool) (xs : List Event) → select (λ e. p e && q e) xs ≡ select q (select p xs)
unfolding select
select-and p q [] = refl
select-and p q (x ∷ xs) = ground (arith, select-and p q xs)

select_above_all :
    (id : String) (v w : ℕ) (xs : List Event)
    → v < w
    → IsNumbered id w xs
    → select (λ e. ltb v e.version) xs ≡ xs
unfolding select
select_above_all id v w [] l h = refl
select_above_all id v w (x ∷ xs) l h =
    ground (arith, h.1, select_above_all id v (w + 1) xs (omega arith) h.2)

select_above :
    (id : String) (v w : ℕ) (ys zs : List Event)
    → v + 1 ≡ w + length ys
    → IsNumbered id w (ys ++ zs)
    → (select (λ e. ltb v e.version) (ys ++ zs) ≡ zs) × IsNumbered id (v + 1) zs
unfolding select
select_above id v w [] zs e h =
    (select_above_all id v w zs (omega arith) h, subst (λ k. IsNumbered id k zs) (omega arith) h)
select_above id v w (y ∷ ys) zs e h =
    let (rest, numbered) = select_above id v (w + 1) ys zs (omega arith) h.2 in
    (ground (arith, h.1, rest), numbered)

-- The rows above the version of a base are those that follow its beginning.
pub select-IsBase :
    (t : EventTables) (id : String) (base : Account)
    → IsStored t
    → (b : IsBase (stream t id) base)
    → (select (λ e. belongs id e && ltb base.version e.version) t.events ≡ b.zs)
      × IsNumbered id (base.version + 1) b.zs
select-IsBase t id base h b =
    let (rest, numbered) =
      select_above id base.version 1 b.ys b.zs (omega (arith, b.version))
        (subst (IsNumbered id 1) b.parts (h.indexed id)) in
    (
      select-and (belongs id) (λ e. ltb base.version e.version) t.events
          ∙ ap (select (λ e. ltb base.version e.version)) b.parts
          ∙ rest,
      numbered,
    )
