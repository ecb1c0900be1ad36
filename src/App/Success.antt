-- ===== src/App/Success.antt =====
-- What a call of `mutate` that returns no error has done.
use eventledger.Prelude.{ℕ, zero, suc, ◌≡◌, refl, ap, ◌∙◌, String, List, [], ◌∷◌, ◌++◌, inl, inr}
use eventledger.Domain.Errors.{Result, ok}
use eventledger.Domain.Events.{Event, Stamp}
use eventledger.Domain.Account.{Account}
use eventledger.Domain.Decide.{Command, decide, after}
use eventledger.Domain.Sound.{IsLimited}
use eventledger.Eventstore.Port.{Store, IsEventStore, IsRecorded}
use eventledger.App.{World, Turn, Round, returns, publish, once, mutate_from, mutate, max_retries}
use eventledger.App.Extends.{Replays, Fits, IsLedger, Fits-Extends}
use eventledger.App.Append.{append_to-Extends, confirmed}
use eventledger.App.Mutate.{
  Ending, refused, committed, failed, conflicted, Attempt, appended, once-Ending,
}
use eventledger.App.Loop.{IsTurn, Round-cases, Ending-IsLedger, mutate_from-Extends}

module _ {st : Store} (es : IsEventStore st) where
  -- One event was decided for the account that the stream then stood for; it was recorded as the next
  -- event of the stream, which so came to stand for the account that the command aims at; and it was
  -- published last.
  pub record Success (turns : ℕ → Turn st) (id : String) (c : Command) (v : World st) : Type 0 where
    pub round : ℕ
    pub account : Account
    pub event : Event
    pub earlier : List Event
    pub recorded : List Event
    pub later : List Event
    pub stood_for : Replays id earlier account
    pub decided : decide c (turns round).stamp account ≡ ok event
    pub same : IsRecorded (event ∷ []) recorded
    pub stream : es.stream v.store id ≡ (earlier ++ recorded) ++ later
    pub stands_for : Replays id (earlier ++ recorded) (after c account)
    pub published : (ps : List Event) × (v.published ≡ ps ++ event ∷ [])

  Success-later :
      (turns : ℕ → Turn st) (id : String) (c : Command) (v : World st)
      → Success (λ k. turns (suc k)) id c v
      → Success turns id c v
  Success-later turns id c v s = record {
    round = suc s.round;
    account = s.account;
    event = s.event;
    earlier = s.earlier;
    recorded = s.recorded;
    later = s.later;
    stood_for = s.stood_for;
    decided = s.decided;
    same = s.same;
    stream = s.stream;
    stands_for = s.stands_for;
    published = s.published;
  }

  module _ (turns : ℕ → Turn st) (others : (k : ℕ) → IsTurn es (turns k)) (id : String)
      (c : Command) (limited : IsLimited c) (w : World st) (ledger : IsLedger es w) where
    committed-Success :
        (a : Account) (e : Event)
        → Attempt (turns 0) id (λ s b. decide c s b) w a e (ok tt)
        → Fits es (
            publish st
              (e ∷ [])
              ((turns 0).before_publish (appended (turns 0) id (λ s b. decide c s b) w a e)))
        → Success turns id c (
            publish st
              (e ∷ [])
              ((turns 0).before_publish (appended (turns 0) id (λ s b. decide c s b) w a e)))
    unfolding publish
    committed-Success a e h fits =
        let v = appended (turns 0) id (λ s b. decide c s b) w a e in
        let u = (turns 0).before_append w in
        let (later, grown) = (others 0).publishing.extends v id in
        let room : Fits es v =
          Fits-Extends es v ((turns 0).before_publish v) ((others 0).publishing.extends v) fits in
        let before : Fits es u =
          Fits-Extends es u v (append_to-Extends es id a.version (e ∷ []) u) room in
        let (fs, recorded, same, r, r') =
          confirmed es c (turns 0).stamp w u id a e limited ledger
            ((others 0).appending.keeps w ledger before) ((others 0).appending.extends w) h.loaded
            h.decided room h.answer in
        record {
          round = 0;
          account = a;
          event = e;
          earlier = es.stream u.store id;
          recorded = fs;
          later = later;
          stood_for = r;
          decided = h.decided;
          same = same;
          stream = grown ∙ ap (λ xs. xs ++ later) recorded;
          stands_for = r';
          published = (((turns 0).before_publish v).published, refl);
        }

    Ending-Success :
        {p : Round × World st}
        → Ending (turns 0) id (λ s b. decide c s b) w p
        → p.0 ≡ returns (ok tt)
        → Fits es p.1
        → Success turns id c p.1
    Ending-Success (refused x) q fits = absurd (cc)
    Ending-Success (committed a e h) q fits = committed-Success a e h fits
    Ending-Success (failed a e x h) q fits = absurd (cc)
    Ending-Success (conflicted a e x r h ne) q fits = absurd (ne q)

  mutate_from-Success :
      (left : ℕ) (turns : ℕ → Turn st) (id : String) (c : Command) (w : World st)
      → ((k : ℕ) → IsTurn es (turns k))
      → IsLimited c
      → IsLedger es w
      → Fits es (mutate_from st left turns id (λ s a. decide c s a) w).1
      → (mutate_from st left turns id (λ s a. decide c s a) w).0 ≡ ok tt
      → Success turns id c (mutate_from st left turns id (λ s a. decide c s a) w).1
  unfolding mutate_from
  mutate_from-Success zero turns id c w others l h fits done = absurd (cc)
  mutate_from-Success (suc left) turns id c w others l h fits done =
      let d : Stamp → Account → Result Event = λ s a. decide c s a in
      let v = (once st (turns 0) id d w).1 in
      let ending = once-Ending (turns 0) id d w in
      elim (Round-cases (once st (turns 0) id d w).0) [
        | inl (x, p) ↦
            let done' : x ≡ ok tt = rw (p, mutate_from) at done in
            rw (p, mutate_from)
              (Ending-Success turns others id c l w h ending (p ∙ ap returns done')
                (rw (p, mutate_from) at fits))
        | inr p ↦
            let rest = λ (k : ℕ). turns (suc k) in
            let fits' : Fits es (mutate_from st left (λ k. turns (suc k)) id d v).1 =
              rw (p, mutate_from) at fits in
            rw (p, mutate_from)
              (Success-later turns id c (mutate_from st left (λ k. turns (suc k)) id d v).1 (
                mutate_from-Success left (λ k. turns (suc k)) id c v (λ k. others (suc k)) l
                  (Ending-IsLedger es (turns 0) (others 0) id w c l h ending (
                    Fits-Extends es v (mutate_from st left (λ k. turns (suc k)) id d v).1
                      (mutate_from-Extends es left (λ k. turns (suc k)) id d v
                        (λ k. others (suc k)))
                      fits'))
                  fits' (rw (p, mutate_from) at done)))
      ]

  -- On a ledger in order, and among steps of others that keep it so, a call of `mutate` that
  -- returns no error has recorded and published exactly the event that it decided on in its last
  -- round, for the account as its stream stood at that moment, whatever others did meanwhile. A
  -- reversal is up to the limit, and no stream outgrows the bound on versions.
  pub mutate-Success :
      (turns : ℕ → Turn st) (id : String) (c : Command) (w : World st)
      → ((k : ℕ) → IsTurn es (turns k))
      → IsLimited c
      → IsLedger es w
      → Fits es (mutate st turns id (λ s a. decide c s a) w).1
      → (mutate st turns id (λ s a. decide c s a) w).0 ≡ ok tt
      → Success turns id c (mutate st turns id (λ s a. decide c s a) w).1
  unfolding mutate
  mutate-Success = mutate_from-Success max_retries
