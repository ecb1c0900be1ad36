-- ===== src/App/Ledger.antt =====
-- The guarantees of `mutate` for its callers, over any store that keeps the promise of the port.
use eventledger.Prelude.{ℕ, ◌≡◌, subst, ◌≢◌, String, List, [], inl, inr}
use eventledger.Prelude.Int.{pos, ◌≤ℤ◌}
use eventledger.Domain.Errors.{ok}
use eventledger.Domain.Events.{Event}
use eventledger.Domain.Account.{Account, blank, replay}
use eventledger.Domain.Decide.{Command, decide}
use eventledger.Domain.Sound.{IsLimited, IsSound}
use eventledger.Eventstore.Port.{Store, IsEventStore}
use eventledger.App.{World, Turn, mutate, max_retries}
use eventledger.App.Extends.{IsAccountStream, Extends, Fits, IsLedger, IsTraffic}
use eventledger.App.Loop.{IsTurn, mutate_from-Extends, mutate_from-IsLedger}

module _ {st : Store} (es : IsEventStore st) where
  -- The balance of an account of a ledger in order is not negative.
  load-IsSound :
      (w : World st) (id : String) (a : Account)
      → IsLedger es w
      → st.load id w.store ≡ ok a
      → IsSound a
  load-IsSound w id a h loaded =
      let (some_event, replayed, version) = es.load_ok w.store id a h.valid loaded in
      known (h.accounts id) some_event replayed
    where
      known :
          {xs : List Event} → IsAccountStream id xs → xs ≢ [] → replay blank xs ≡ ok a → IsSound a
      known (inl empty) ne q = absurd (ne empty)
      known (inr (b, r)) ne q = subst IsSound (cc (q, r.replayed)) r.sound

  module _ (turns : ℕ → Turn st) (id : String) (c : Command) (w : World st)
      (others : (k : ℕ) → IsTurn es (turns k)) (limited : IsLimited c) (ledger : IsLedger es w)
      (fits : Fits es (mutate st turns id (λ s a. decide c s a) w).1) where
    -- A command on one account, run among any steps of others that keep the ledger in order, keeps it
    -- in order and only adds to the streams, whether it succeeds or not: so such commands may be
    -- interleaved at will. A reversal is up to the limit, and no stream outgrows the bound on versions.
    pub mutate-IsLedger :
        IsLedger es (mutate st turns id (λ s a. decide c s a) w).1
        × Extends es w (mutate st turns id (λ s a. decide c s a) w).1
    unfolding mutate
    mutate-IsLedger = (
      mutate_from-IsLedger es max_retries turns id c w others limited ledger fits,
      mutate_from-Extends es max_retries turns id (λ s a. decide c s a) w others,
    )

    -- After a command on one account of a ledger in order, run among any steps of others that keep
    -- it in order, no account that can be loaded has a negative balance. A reversal is up to the
    -- limit, and no stream outgrows the bound on versions.
    pub mutate_never_overdraws :
        (j : String) (b : Account)
        → st.load j (mutate st turns id (λ s a. decide c s a) w).1.store ≡ ok b
        → pos 0 ≤ℤ b.balance
    mutate_never_overdraws j b loaded = (load-IsSound _ j b mutate-IsLedger.0 loaded).nonneg

  -- So a command is itself traffic for others.
  pub mutate-IsTraffic :
      (turns : ℕ → Turn st) (id : String) (c : Command)
      → ((k : ℕ) → IsTurn es (turns k))
      → IsLimited c
      → IsTraffic es (λ w. (mutate st turns id (λ s a. decide c s a) w).1)
  unfolding mutate
  mutate-IsTraffic turns id c others limited = record {
    extends = λ w. mutate_from-Extends es max_retries turns id (λ s a. decide c s a) w others;
    keeps = λ w h fits. (mutate-IsLedger turns id c w others limited h fits).0;
  }
