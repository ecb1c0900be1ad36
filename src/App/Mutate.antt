-- ===== src/App/Mutate.antt =====
-- One round of the loop of `mutate`: how it can end, and what it has then done.
use eventledger.Prelude.{◌≡◌, refl, ◌≢◌, inl, inr, String, [], ◌∷◌, Option, none, some, Bool-cases}
use eventledger.Domain.Errors.{Sentinel, Error, Result, ok, err, is, Result-cases}
use eventledger.Domain.Events.{Event, Stamp}
use eventledger.Domain.Account.{Account}
use eventledger.Eventstore.Port.{Store}
use eventledger.App.{
  World, Turn, Round, returns, retries, append_to, publish, once, waited, after_append,
}

module _ {st : Store} (t : Turn st) (id : String) (decide : Stamp → Account → Result Event)
    (w : World st) where
  -- The world after the append of `e`, decided for the account `a`.
  abbrev pub appended : Account → Event → World st
  appended a e = (append_to st id a.version (e ∷ []) (t.before_append w)).1

  -- The event `e` was decided for the loaded account `a`, and its append gave `r`.
  pub record Attempt (a : Account) (e : Event) (r : Result (Unit {0})) : Type 0 where
    pub loaded : st.load id w.store ≡ ok a
    pub decided : decide t.stamp a ≡ ok e
    pub answer : (append_to st id a.version (e ∷ []) (t.before_append w)).0 ≡ r

  -- The ways in which a round ends.
  pub data Ending : Round × World st → Type 0 where
    refused : (x : Error) → Ending (returns (err x), w)
    committed :
        (a : Account) (e : Event)
        → Attempt a e (ok tt)
        → Ending (returns (ok tt), publish st (e ∷ []) (t.before_publish (appended a e)))
    failed :
        (a : Account) (e : Event) (x : Error)
        → Attempt a e (err x)
        → Ending (returns (err x), appended a e)
    conflicted :
        (a : Account) (e : Event) (x : Error) (r : Round)
        → Attempt a e (err x)
        → r ≢ returns (ok tt)
        → Ending (r, t.during_backoff (appended a e))

  after_append-Ending :
      (a : Account) (e : Event) (r : Result (Unit {0}))
      → Attempt a e r
      → Ending (after_append st t e (r, appended a e))
  after_append-Ending a e (ok x) h = committed a e h
  after_append-Ending a e (err x) h = elim (Bool-cases (is x Sentinel.concurrency)) [
    | inl conflict ↦ rw conflict (backed_off t.cancelled)
    | inr other ↦ rw other (failed a e x h)
  ]
    where
      backed_off : (c : Option Error) → Ending (waited st c (t.during_backoff (appended a e)))
      backed_off none = conflicted a e x retries h (λ q. cc)
      backed_off (some y) = conflicted a e x (returns (err y)) h (λ q. cc)

  pub once-Ending : Ending (once st t id decide w)
  unfolding once
  once-Ending = elim (Result-cases (st.load id w.store)) [
    | inl (x, p) ↦ rw (p, once) (refused x)
    | inr (a, p) ↦ elim (Result-cases (decide t.stamp a)) [
      | inl (x, q) ↦ rw (p, q, once) (refused x)
      | inr (e, q) ↦
          rw (p, q, once)
            (after_append-Ending a e _ (record { loaded = p; decided = q; answer = refl }))
    ]
  ]
