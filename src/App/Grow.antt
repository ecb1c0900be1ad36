-- ===== src/App/Grow.antt =====
-- An account whose stream takes in the event of one more command, and a new account.
use eventledger.Prelude.{
  ◌<◌, ◌≡◌, ap, ◌∙◌, String, List, [], ◌∷◌, ◌++◌, length, length-append, arith,
}
use eventledger.Domain.Errors.{ok, ◌>>=◌}
use eventledger.Domain.Events.{Event, Stamp}
use eventledger.Domain.Account.{Account, blank, replay}
use eventledger.Domain.Replay.{replay-append}
use eventledger.Domain.Decide.{Command, decide, after}
use eventledger.Domain.Sound.{IsLimited, max_version, decide-IsSound}
use eventledger.Eventstore.Port.{IsRecorded}
use eventledger.Eventstore.Streams.{replay-IsRecorded, length-IsRecorded}
use eventledger.App.Extends.{Replays}

pub Replays-decide :
    (c : Command) (s : Stamp) (id : String) (xs fs : List Event) (a : Account) (e : Event)
    → Replays id xs a
    → IsLimited c
    → length xs < max_version
    → decide c s a ≡ ok e
    → IsRecorded (e ∷ []) fs
    → Replays id (xs ++ fs) (after c a)
unfolding replay
Replays-decide c s id xs fs a e r l m d f =
    let (applied, sound, exact) = decide-IsSound c s a r.sound l (omega (arith, r.version)) d in
    record {
      replayed =
          replay-append blank xs fs
          ∙ ap (λ m. m >>= λ b. replay b fs) r.replayed
          ∙ replay-IsRecorded a (e ∷ []) fs f
          ∙ ap (λ m. m >>= λ b. ok b) applied;
      sound = sound;
      version = omega (arith, r.version, length-append xs fs, length-IsRecorded (e ∷ []) fs f);
      own = r.own;
      is_open = r.is_open;
    }
