-- ===== src/Pipeline/Deadlock.antt =====
-- The bus and the saga waiting for one another.
use eventledger.Prelude.{ℕ, ◌<◌, ◌≤◌, ◌≡◌, true, String, length}
use eventledger.Domain.Events.{Event}
use eventledger.Pipeline.{Pipeline, handling, publishing, is_debit, place}
use eventledger.Pipeline.Flood.{Flood}

module _ (hash : String → ℕ) (partitions buffer capacity workers : ℕ) where
  abbrev place_of : Event → ℕ
  place_of e = place hash partitions buffer capacity workers e

  -- The queue of the saga is full, and each of its workers publishes into a partition that is full and
  -- whose worker holds a debit.
  pub record IsJammed (s : Pipeline) : Type 0 where
    pub full : capacity ≤ length s.queue
    pub stuck :
        (j : ℕ)
        → j < workers
        → (f : Event) × (s.saga_workers j ≡ publishing f)
          × (buffer ≤ length (s.partitions (place_of f)))
          × ((e : Event) × (s.bus_workers (place_of f) ≡ handling e) × (is_debit e ≡ true))

  -- The workers of the saga and its queue have not moved.
  abbrev pub Stays : Pipeline → Pipeline → Type 0
  Stays s t = (t.queue ≡ s.queue) × ((j : ℕ) → j < workers → t.saga_workers j ≡ s.saga_workers j)
