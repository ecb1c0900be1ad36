-- ===== src/Bus/Backlog.antt =====
-- internal/bus/bus.go: what a handler is still to be called with, and the steps of one worker.
use eventledger.Prelude.{
  ℕ, suc, ◌<◌, ◌≡◌, ◌≢◌, refl, sym, ap, ◌∙◌, true, false, String, List, [], ◌∷◌, ◌++◌, ◌⊎◌,
  Bool-cases, inl, inr, arith, str_eq_ne, leb, if◌then◌else◌, subst,
}
use native.Mathlib.Decide.{ℕ_discrete}
use eventledger.Domain.Events.{Event}
use eventledger.Eventstore.Memory.{select}
use eventledger.Eventstore.Memory.Coherent.{belongs, select-append}
use eventledger.Bus.{Worker, absent, exited, selecting, delivering, Bus, replace, index}

-- The events of one aggregate.
abbrev pub of : String → List Event → List Event
of id es = select (belongs id) es

pub of-append : (id : String) (xs ys : List Event) → of id (xs ++ ys) ≡ of id xs ++ of id ys
of-append id xs ys = select-append (belongs id) xs ys

of_others : (id : String) (e : Event) → e.aggregate_id ≢ id → of id (e ∷ []) ≡ []
unfolding select
of_others id e ne = rw (str_eq_ne e.aggregate_id id ne) refl

pub of_others_tail :
    (id : String) (e : Event) (es : List Event)
    → of id (e ∷ es) ≡ []
    → (of id (e ∷ []) ≡ []) × (of id es ≡ [])
unfolding select
of_others_tail id e es h = elim (Bool-cases (belongs id e)) [
  | inl p ↦ absurd (ground arith)
  | inr p ↦ (ground arith, ground arith)
]

pub replace_self : {A : Type 0} (m : ℕ → A) (i j : ℕ) (a : A) → i ≡ j → replace m i a j ≡ a
replace_self m i j a same = ground arith

pub replace_ne : {A : Type 0} (m : ℕ → A) (i j : ℕ) (a : A) → i ≢ j → replace m i a j ≡ m j
replace_ne m i j a other = ground arith

-- The event that a worker is delivering, and the same while a handler has not been called with it.
abbrev pub flight : Worker → List Event
flight absent = []
flight exited = []
flight (selecting loop) = []
flight (delivering loop k e) = e ∷ []

abbrev pub flight_to : ℕ → Worker → List Event
flight_to h absent = []
flight_to h exited = []
flight_to h (selecting loop) = []
flight_to h (delivering loop k e) = if leb k h then e ∷ [] else []

-- What a handler is still to be called with by the worker of a partition.
abbrev pub backlog : ℕ → Bus → ℕ → List Event
backlog h b i = flight_to h (b.workers i) ++ b.partitions i

pub leb_zero : (h : ℕ) → leb 0 h ≡ true
leb_zero h = ground arith

pub leb_self : (h : ℕ) → leb h h ≡ true
leb_self h = ground arith

pub leb_next : (h : ℕ) → leb (suc h) h ≡ false
leb_next h = ground arith

pub leb_other : (k h : ℕ) → k ≢ h → leb (suc k) h ≡ leb k h
leb_other k h ne = ground arith

pub leb_above : (k h : ℕ) → h < k → leb k h ≡ false
leb_above k h above = ground arith

-- A step of one worker: it leaves the other ones and their partitions.
pub record IsLocal (i : ℕ) (a b : Bus) : Type 0 where
  pub accepted : b.accepted ≡ a.accepted
  pub handlers : b.handlers ≡ a.handlers
  pub started : b.is_started ≡ a.is_started
  pub workers : (j : ℕ) → i ≢ j → b.workers j ≡ a.workers j
  pub partitions : (j : ℕ) → i ≢ j → b.partitions j ≡ a.partitions j

module _ (hash : String → ℕ) (partitions buffer : ℕ) where
  abbrev pub at : String → ℕ
  at id = index hash partitions buffer id

  -- What was accepted of an aggregate is what a handler was called with, and then its backlog in the
  -- partition of the aggregate; no other worker or partition has events of it.
  pub record IsOrdered (h : ℕ) (id : String) (b : Bus) : Type 0 where
    pub order :
        (h < b.handlers) ⊎ (b.is_started ≡ false)
        → of id b.accepted ≡ of id (b.received h) ++ of id (backlog h b (at id))
    pub routed : (i : ℕ) → i ≢ at id → of id (flight (b.workers i) ++ b.partitions i) ≡ []
    pub idle : b.is_started ≡ false → (i : ℕ) → b.workers i ≡ absent

  -- A worker that is not absent runs on a bus that was started.
  pub running :
      (h : ℕ) (id : String) (b : Bus) (i : ℕ) (w : Worker)
      → IsOrdered h id b
      → b.workers i ≡ w
      → w ≢ absent
      → b.is_started ≢ false
  running h id b i w o q ne off = ne (sym q ∙ o.idle off i)

  pub elsewhere : (id : String) (e : Event) → at e.aggregate_id ≢ at id → of id (e ∷ []) ≡ []
  elsewhere id e other = of_others id e (λ same. other (ap at same))

  pub local-IsOrdered :
      (h : ℕ) (id : String) (i : ℕ) (a b : Bus)
      → a.is_started ≢ false
      → IsOrdered h id a
      → IsLocal i a b
      → (h < a.handlers
          → of id (a.received h) ++ of id (backlog h a i)
            ≡ of id (b.received h) ++ of id (backlog h b i))
      → (of id (flight (a.workers i) ++ a.partitions i) ≡ []
          → (of id (flight (b.workers i) ++ b.partitions i) ≡ [])
            × (of id (b.received h) ≡ of id (a.received h)))
      → IsOrdered h id b
  local-IsOrdered h id i a b on o l own away = record {
    order = λ c. elim c [
      | inr off ↦ absurd (on (sym l.started ∙ off))
      | inl below' ↦
          let below = subst (λ n. h < n) l.handlers below' in
          ap (of id) l.accepted ∙ o.order (inl below) ∙ elim (ℕ_discrete i (at id)) [
            | yes same ↦
                ap (λ j. of id (a.received h) ++ of id (backlog h a j)) (sym same)
                ∙ own below
                ∙ ap (λ j. of id (b.received h) ++ of id (backlog h b j)) same
            | no other ↦
                rw
                  ((away (o.routed i other)).1, l.workers (at id) other, l.partitions (at id) other)
                  refl
          ]
    ];
    routed = λ j apart. elim (ℕ_discrete i j) [
      | yes same ↦
          subst (λ n. of id (flight (b.workers n) ++ b.partitions n) ≡ []) same
            (away (o.routed i (λ p. apart (sym same ∙ p)))).0
      | no other ↦ rw (l.workers j other, l.partitions j other) (o.routed j apart)
    ];
    idle = λ off. absurd (on (sym l.started ∙ off));
  }
