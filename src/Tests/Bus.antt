-- ===== src/Tests/Bus.antt =====
-- The bus with 8 partitions of 1024 events and one handler, on the two events of alice: its theorems at
-- a run in which one event is delivered, and at one that is shut down then.
use eventledger.Prelude.{ℕ, ◌≡◌, ◌<◌, refl, String, [], ◌∷◌, arith}
use eventledger.Bus.{
  Bus, exited, selecting, serving, draining, new_in_memory, send, subscribe, start, take, hand,
  move, signal_done, Reaches, done, next, subscribes, starts, publishes, takes, hands, returns,
  closes, notices, exits,
}
use eventledger.Bus.Backlog.{of, IsOrdered}
use eventledger.Bus.Order.{Reaches-IsOrdered}
use eventledger.Bus.Drain.{StartsWith}
use eventledger.Bus.Shutdown.{Reaches_drained}
use eventledger.Tests.Data.{alice_opened, alice_deposit}

abbrev hash : String → ℕ
hash id = 13

abbrev ready : Bus
ready = start hash 8 1024 (subscribe hash 8 1024 new_in_memory)

abbrev both_sent : Bus
both_sent = send hash 8 1024 alice_deposit (send hash 8 1024 alice_opened ready)

abbrev taken : Bus
taken = take hash 8 1024 5 serving alice_opened (alice_deposit ∷ []) both_sent

abbrev handed : Bus
handed = hand hash 8 1024 5 serving 0 alice_opened taken

to_handed : Reaches hash 8 1024 new_in_memory handed
to_handed =
    next
      (next
        (next
          (next (next (next done (subscribes refl)) (starts refl))
            (publishes alice_opened (omega arith)))
          (publishes alice_deposit (omega arith)))
        (takes 5 serving alice_opened (alice_deposit ∷ []) refl refl))
      (hands 5 serving 0 alice_opened refl (omega arith))

Reaches-IsOrdered_example : IsOrdered hash 8 1024 0 "alice" handed
Reaches-IsOrdered_example = Reaches-IsOrdered hash 8 1024 0 "alice" to_handed

-- One partition.
abbrev only : Bus
only = send hash 1 4 alice_opened (start hash 1 4 (subscribe hash 1 4 new_in_memory))

abbrev closing : Bus
closing = signal_done hash 1 4 only

abbrev left : Bus
left = move hash 1 4 0 (selecting draining) closing

abbrev drained : Bus
drained =
    move hash 1 4 0 (selecting draining)
      (hand hash 1 4 0 draining 0 alice_opened (take hash 1 4 0 draining alice_opened [] left))

abbrev stopped : Bus
stopped = move hash 1 4 0 exited drained

to_stopped : Reaches hash 1 4 new_in_memory stopped
to_stopped =
    next
      (next
        (next
          (next
            (next
              (next
                (next (next (next done (subscribes refl)) (starts refl))
                  (publishes alice_opened (omega arith)))
                closes)
              (notices 0 refl refl))
            (takes 0 draining alice_opened [] refl refl))
          (hands 0 draining 0 alice_opened refl (omega arith)))
        (returns 0 draining 1 alice_opened refl refl))
      (exits 0 refl refl)

all_exited : (i : ℕ) → i < 1 → stopped.workers i ≡ exited
all_exited i h = ground arith

Reaches_drained_example :
    StartsWith (of "alice" stopped.early) (of "alice" (stopped.received 0))
    × StartsWith stopped.early stopped.accepted
Reaches_drained_example =
    Reaches_drained hash 1 4 0 "alice" to_stopped (omega arith) all_exited (omega arith)
