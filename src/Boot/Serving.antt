-- ===== src/Boot/Serving.antt =====
-- cmd/api/main.go: what holds when the API is reached.
use eventledger.Prelude.{ℕ, suc, Bool, ◌≡◌, String, List, [], ◌∷◌, ◌++◌}
use eventledger.Domain.Errors.{ok}
use eventledger.Domain.Events.{Event}
use eventledger.Eventstore.Port.{Store}
use eventledger.Projection.Rebuild.{IsMirror}
use eventledger.Saga
use eventledger.Bus.{start, subscribe}
use eventledger.Boot.{Node, shared_store}

module _ {st : Store} where
  -- The steps leave what was put into the queue of the saga, and add what `added` tells.
  abbrev pub OnlyAdd : (ℕ → Node st → Node st) → (ℕ → Node st → List Event) → Type 0
  OnlyAdd steps added = (k : ℕ) (n : Node st) → (steps k n).queued ≡ n.queued ++ added k n

  -- What is put into the queue while the events are sent: each of them once and in their order, and
  -- behind each what the workers add at some node.
  unfoldable pub AreSent : (ℕ → Node st → List Event) → List Event → List Event → Type 0
  AreSent added [] sent = sent ≡ []
  AreSent added (e ∷ es) sent =
      (w : Node st) × (rest : List Event) × (sent ≡ e ∷ added 0 w ++ rest)
      × AreSent (λ k. added (suc k)) es rest

  -- How the API is reached, with the history `log`: `started` is the node when the workers start to run.
  pub record IsServing (hash : String → ℕ) (share : (String → Bool) → st.State → st.State)
      (workers : ℕ → Node st → Node st) (added : ℕ → Node st → List Event) (log : List Event)
      (n v : Node st) : Type 0 where
    pub started : Node st
    pub store : started.store ≡ n.store
    pub mirror : IsMirror log started.tables
    pub bus : started.bus ≡ start hash 8 1024 (subscribe hash 8 1024 (subscribe hash 8 1024 n.bus))
    pub saga_workers : started.saga_workers ≡ 4
    pub unsent : started.queued ≡ n.queued
    pub debits : List Event
    pub pending :
        st.pending_transfer_debits (shared_store st hash share workers (workers 0 started))
        ≡ ok debits
    pub sent : List Event
    pub queued : v.queued ≡ (workers 0 started).queued ++ sent
    pub all_sent : AreSent (λ k. added (suc k)) debits sent
