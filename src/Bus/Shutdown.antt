-- ===== src/Bus/Shutdown.antt =====
-- internal/bus/bus.go: what the workers have delivered when Close returns.
use eventledger.Prelude.{ℕ, suc, ◌<◌, ◌≡◌, refl, sym, ap, ◌∙◌, String, [], arith}
use native.Mathlib.Nat.{mod-lt}
use eventledger.Bus.{
  draining, exited, selecting, delivering, Bus, new_in_memory, start, move, take, hand, Step,
  subscribes, starts, publishes, drops, takes, hands, returns, notices, exits, closes, Reaches,
  done, next,
}
use eventledger.Bus.Backlog.{of, IsOrdered}
use eventledger.Bus.Order.{Reaches-IsOrdered}
use eventledger.Bus.Drain.{
  is_leaving, deliver-is_leaving, StartsWith, home, IsDrained, work-IsDrained, same_received,
  hand-received, send-IsDrained, exit-IsDrained,
}

module _ (hash : String → ℕ) (partitions buffer : ℕ) where
  start-IsDrained :
      (h : ℕ) (id : String) (b : Bus)
      → IsDrained hash partitions buffer h id b
      → IsDrained hash partitions buffer h id (start hash partitions buffer b)
  start-IsDrained h id b d = record {
    splits = d.splits;
    open_yet = d.open_yet;
    leaving = λ i l. absurd (ground arith);
    drained = λ ended below. absurd (ground arith);
  }

  Step-IsDrained :
      {a b : Bus} (h : ℕ) (id : String)
      → Step hash partitions buffer a b
      → IsOrdered hash partitions buffer h id a
      → IsDrained hash partitions buffer h id a
      → IsDrained hash partitions buffer h id b
  Step-IsDrained h id (subscribes off) o d = record {
    splits = d.splits;
    open_yet = d.open_yet;
    leaving = d.leaving;
    drained = λ ended below. absurd (cc (o.idle off (home hash partitions buffer id)));
  }
  Step-IsDrained {a} h id (starts off) o d = start-IsDrained h id a d
  Step-IsDrained {a} h id (publishes e room) o d = send-IsDrained hash partitions buffer h id e a d
  Step-IsDrained h id (drops e closed) o d = d
  Step-IsDrained {a} h id (takes i loop e rest q p) o d =
      work-IsDrained hash partitions buffer h id i (delivering loop 0 e) a
        (take hash partitions buffer i loop e rest a) d refl refl refl refl refl (λ n. cc)
        (λ l. d.leaving i (ap is_leaving q ∙ sym (deliver-is_leaving loop 0 e) ∙ l))
        (same_received hash partitions buffer h id a)
  Step-IsDrained {a} h id (hands i loop k e q below) o d =
      work-IsDrained hash partitions buffer h id i (delivering loop (suc k) e) a
        (hand hash partitions buffer i loop k e a) d refl refl refl refl refl (λ n. cc)
        (λ l. d.leaving i (
          ap is_leaving q
          ∙ deliver-is_leaving loop k e
          ∙ sym (deliver-is_leaving loop (suc k) e)
          ∙ l))
        (hand-received hash partitions buffer h id i loop k e a)
  Step-IsDrained {a} h id (returns i loop k e q all) o d =
      work-IsDrained hash partitions buffer h id i (selecting loop) a
        (move hash partitions buffer i (selecting loop) a) d refl refl refl refl refl (λ n. cc)
        (λ l. d.leaving i (ap is_leaving q ∙ deliver-is_leaving loop k e ∙ l))
        (same_received hash partitions buffer h id a)
  Step-IsDrained {a} h id (notices i q closed) o d =
      work-IsDrained hash partitions buffer h id i (selecting draining) a
        (move hash partitions buffer i (selecting draining) a) d refl refl refl refl refl (λ n. cc)
        (λ l. closed) (same_received hash partitions buffer h id a)
  Step-IsDrained {a} h id (exits i q empty) o d =
      exit-IsDrained hash partitions buffer h id i a q empty o d
  Step-IsDrained h id closes o d = record {
    splits = d.splits;
    open_yet = λ off. absurd (cc);
    leaving = λ i l. refl;
    drained = d.drained;
  }

  Reaches-IsDrained :
      {b : Bus} (h : ℕ) (id : String)
      → Reaches hash partitions buffer new_in_memory b
      → IsDrained hash partitions buffer h id b
  Reaches-IsDrained h id done = record {
    splits = ([], refl);
    open_yet = λ off. refl;
    leaving = λ i l. absurd (cc);
    drained = λ ended below. absurd (cc);
  }
  Reaches-IsDrained h id (next before step) =
      Step-IsDrained h id step (Reaches-IsOrdered hash partitions buffer h id before)
        (Reaches-IsDrained h id before)

  -- In any run of a bus with at least one partition that ends with every worker returned, as Close
  -- waits for, each subscribed handler was called with every event that was accepted before `done`
  -- was closed: what it received of an aggregate starts with the aggregate's events among those, which
  -- in turn are the first ones that were accepted.
  pub Reaches_drained :
      {b : Bus} (h : ℕ) (id : String)
      → Reaches hash partitions buffer new_in_memory b
      → 0 < partitions
      → ((i : ℕ) → i < partitions → b.workers i ≡ exited)
      → h < b.handlers
      → StartsWith (of id b.early) (of id (b.received h)) × StartsWith b.early b.accepted
  Reaches_drained h id run some_partition ended below =
      let d = Reaches-IsDrained h id run in
      (
        d.drained (ended (home hash partitions buffer id) (mod-lt (hash id) some_partition)) below,
        d.splits,
      )
