-- ===== src/App/Extends.antt =====
-- What a call relies on of the steps that others take while it waits, and what it guarantees in turn.
use eventledger.Prelude.{
  ◌≤◌, ◌≡◌, sym, ap, ◌∙◌, ◌⊎◌, String, List, [], ◌++◌, length, length-append, arith, true,
}
use mathlib.Core.List.{append-nil, append_assoc}
use eventledger.Domain.Errors.{ok}
use eventledger.Domain.Events.{Event}
use eventledger.Domain.Account.{Account, blank, replay}
use eventledger.Domain.Sound.{IsSound, max_version}
use eventledger.Eventstore.Port.{Store, IsEventStore, IsPrefix}
use eventledger.App.{World}

-- The stream of an account: no event yet, or a stream that replays to the open account, sound and
-- up to date.
pub record Replays (id : String) (xs : List Event) (a : Account) : Type 0 where
  pub replayed : replay blank xs ≡ ok a
  pub sound : IsSound a
  pub version : a.version ≡ length xs
  pub own : a.id ≡ id
  pub is_open : a.is_open ≡ true

abbrev pub IsAccountStream : String → List Event → Type 0
IsAccountStream id xs = (xs ≡ []) ⊎ ((a : Account) × Replays id xs a)

module _ {st : Store} (es : IsEventStore st) where
  -- Streams only grow.
  abbrev pub Extends : World st → World st → Type 0
  Extends v w = (id : String) → IsPrefix (es.stream v.store id) (es.stream w.store id)

  -- No stream has more events than the bound on versions.
  abbrev pub Fits : World st → Type 0
  Fits w = (id : String) → length (es.stream w.store id) ≤ max_version

  -- The invariant: every stream is that of an account in order.
  pub record IsLedger (w : World st) : Type 0 where
    pub valid : es.Valid w.store
    pub accounts : (id : String) → IsAccountStream id (es.stream w.store id)

  -- The steps that others may take: they keep the invariant, and only add to the streams.
  pub record IsTraffic (f : World st → World st) : Type 0 where
    pub extends : (w : World st) → Extends w (f w)
    pub keeps : (w : World st) → IsLedger w → Fits (f w) → IsLedger (f w)

  pub Extends-refl : (w : World st) → Extends w w
  Extends-refl w id = ([], sym (append-nil (es.stream w.store id)))

  pub Extends-trans : (u v w : World st) → Extends u v → Extends v w → Extends u w
  Extends-trans u v w h k id =
      let (xs, p) = h id in
      let (ys, q) = k id in
      (xs ++ ys, q ∙ ap (λ zs. zs ++ ys) p ∙ append_assoc (es.stream u.store id) xs ys)

  pub Fits-Extends : (v w : World st) → Extends v w → Fits w → Fits v
  Fits-Extends v w h fits id =
      let (xs, p) = h id in
      omega (arith, ap length p, length-append (es.stream v.store id) xs, fits id)

  -- Nobody else does anything.
  pub quiet-IsTraffic : IsTraffic (λ w. w)
  quiet-IsTraffic = record { extends = Extends-refl; keeps = λ w h fits. h }
