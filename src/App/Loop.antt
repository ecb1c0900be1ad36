-- ===== src/App/Loop.antt =====
-- The loop of `mutate` in internal/app/app.go among the steps of others.
use eventledger.Prelude.{
  ℕ, zero, suc, ◌≡◌, refl, sym, subst, String, List, [], ◌∷◌, ◌++◌, ◌⊎◌, inl, inr,
}
use eventledger.Domain.Errors.{Result}
use eventledger.Domain.Events.{Event, Stamp}
use eventledger.Domain.Account.{Account}
use eventledger.Domain.Decide.{Command, decide}
use eventledger.Domain.Sound.{IsLimited}
use eventledger.Eventstore.Port.{Store, IsEventStore}
use eventledger.App.{World, Turn, Round, returns, retries, publish, once, mutate_from}
use eventledger.App.Extends.{
  IsAccountStream, Extends, Fits, IsLedger, IsTraffic, Extends-refl, Extends-trans, Fits-Extends,
}
use eventledger.App.Append.{publish-store, append_to-Extends, append_to-IsLedger}
use eventledger.App.Mutate.{
  Ending, refused, committed, failed, conflicted, Attempt, appended, once-Ending,
}

pub Round-cases : (r : Round) → ((x : Result (Unit {0})) × (r ≡ returns x)) ⊎ (r ≡ retries)
Round-cases (returns x) = inl (x, refl)
Round-cases retries = inr refl

module _ {st : Store} (es : IsEventStore st) where
  -- Whatever others do in a turn is traffic.
  pub record IsTurn (t : Turn st) : Type 0 where
    pub appending : IsTraffic es t.before_append
    pub publishing : IsTraffic es t.before_publish
    pub waiting : IsTraffic es t.during_backoff

  pub Extends-publish :
      (events : List Event) (v w : World st) → Extends es v w → Extends es v (publish st events w)
  Extends-publish events v w h id =
      subst (λ s. (zs : List Event) × (es.stream s id ≡ es.stream v.store id ++ zs))
        (sym (publish-store st events w)) (h id)

  pub IsLedger-publish :
      (events : List Event) (w : World st) → IsLedger es w → IsLedger es (publish st events w)
  IsLedger-publish events w h = record {
    valid = subst es.Valid (sym (publish-store st events w)) h.valid;
    accounts = λ id.
        subst (λ s. IsAccountStream id (es.stream s id)) (sym (publish-store st events w))
          (h.accounts id);
  }

  pub Fits-publish :
      (events : List Event) (w : World st) → Fits es (publish st events w) → Fits es w
  Fits-publish events w h =
      Fits-Extends es w (publish st events w) (Extends-publish events w w (Extends-refl es w)) h

  module _ (t : Turn st) (others : IsTurn t) (id : String) (w : World st) where
    module _ (d : Stamp → Account → Result Event) where
      pub appended-Extends : (a : Account) (e : Event) → Extends es w (appended t id d w a e)
      appended-Extends a e =
          Extends-trans es w (t.before_append w) (appended t id d w a e)
            (others.appending.extends w)
            (append_to-Extends es id a.version (e ∷ []) (t.before_append w))

      pub Ending-Extends : {p : Round × World st} → Ending t id d w p → Extends es w p.1
      Ending-Extends (refused x) = Extends-refl es w
      Ending-Extends (committed a e h) =
          let v = appended t id d w a e in
          Extends-publish (e ∷ []) w (t.before_publish v) (
            Extends-trans es w v (t.before_publish v) (appended-Extends a e)
              (others.publishing.extends v))
      Ending-Extends (failed a e x h) = appended-Extends a e
      Ending-Extends (conflicted a e x r h ne) =
          let v = appended t id d w a e in
          Extends-trans es w v (t.during_backoff v) (appended-Extends a e)
            (others.waiting.extends v)

    module _ (c : Command) (limited : IsLimited c) (ledger : IsLedger es w) where
      appended-IsLedger :
          (a : Account) (e : Event) {r : Result (Unit {0})}
          → Attempt t id (λ s b. decide c s b) w a e r
          → Fits es (appended t id (λ s b. decide c s b) w a e)
          → IsLedger es (appended t id (λ s b. decide c s b) w a e)
      appended-IsLedger a e h fits =
          let extends = append_to-Extends es id a.version (e ∷ []) (t.before_append w) in
          append_to-IsLedger es c t.stamp w (t.before_append w) id a e limited ledger
            (others.appending.keeps w ledger (
              Fits-Extends es (t.before_append w) (appended t id (λ s b. decide c s b) w a e)
                extends fits))
            (others.appending.extends w) h.loaded h.decided fits

      pub Ending-IsLedger :
          {p : Round × World st}
          → Ending t id (λ s b. decide c s b) w p
          → Fits es p.1
          → IsLedger es p.1
      Ending-IsLedger (refused x) fits = ledger
      Ending-IsLedger (committed a e h) fits =
          let v = appended t id (λ s b. decide c s b) w a e in
          let fits' = Fits-publish (e ∷ []) (t.before_publish v) fits in
          IsLedger-publish (e ∷ []) (t.before_publish v) (
            others.publishing.keeps v
              (appended-IsLedger a e h
                (Fits-Extends es v (t.before_publish v) (others.publishing.extends v) fits'))
              fits')
      Ending-IsLedger (failed a e x h) fits = appended-IsLedger a e h fits
      Ending-IsLedger (conflicted a e x r h ne) fits =
          let v = appended t id (λ s b. decide c s b) w a e in
          others.waiting.keeps v
            (appended-IsLedger a e h
              (Fits-Extends es v (t.during_backoff v) (others.waiting.extends v) fits))
            fits

  -- Streams only grow under a call of `mutate`.
  pub mutate_from-Extends :
      (left : ℕ) (turns : ℕ → Turn st) (id : String) (d : Stamp → Account → Result Event)
      (w : World st)
      → ((k : ℕ) → IsTurn (turns k))
      → Extends es w (mutate_from st left turns id d w).1
  unfolding mutate_from
  mutate_from-Extends zero turns id d w others = Extends-refl es w
  mutate_from-Extends (suc left) turns id d w others =
      let v = (once st (turns 0) id d w).1 in
      let first = Ending-Extends (turns 0) (others 0) id w d (once-Ending (turns 0) id d w) in
      elim (Round-cases (once st (turns 0) id d w).0) [
        | inl (x, p) ↦ rw (p, mutate_from) first
        | inr p ↦
            rw (p, mutate_from)
              (Extends-trans es w v (mutate_from st left (λ k. turns (suc k)) id d v).1 first
                (mutate_from-Extends left (λ k. turns (suc k)) id d v (λ k. others (suc k))))
      ]

  -- Under a call of `mutate` with a command the ledger stays in order.
  pub mutate_from-IsLedger :
      (left : ℕ) (turns : ℕ → Turn st) (id : String) (c : Command) (w : World st)
      → ((k : ℕ) → IsTurn (turns k))
      → IsLimited c
      → IsLedger es w
      → Fits es (mutate_from st left turns id (λ s a. decide c s a) w).1
      → IsLedger es (mutate_from st left turns id (λ s a. decide c s a) w).1
  unfolding mutate_from
  mutate_from-IsLedger zero turns id c w others l h fits = h
  mutate_from-IsLedger (suc left) turns id c w others l h fits =
      let d : Stamp → Account → Result Event = λ s a. decide c s a in
      let v = (once st (turns 0) id d w).1 in
      let first = Ending-IsLedger (turns 0) (others 0) id w c l h (once-Ending (turns 0) id d w) in
      elim (Round-cases (once st (turns 0) id d w).0) [
        | inl (x, p) ↦ rw (p, mutate_from) (first (rw (p, mutate_from) at fits))
        | inr p ↦
            let fits' : Fits es (mutate_from st left (λ k. turns (suc k)) id d v).1 =
              rw (p, mutate_from) at fits in
            rw (p, mutate_from)
              (mutate_from-IsLedger left (λ k. turns (suc k)) id c v (λ k. others (suc k)) l
                (first (
                  Fits-Extends es v (mutate_from st left (λ k. turns (suc k)) id d v).1
                    (mutate_from-Extends left (λ k. turns (suc k)) id d v (λ k. others (suc k)))
                    fits'))
                fits')
      ]
