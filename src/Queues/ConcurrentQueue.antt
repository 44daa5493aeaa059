-- ===== src/Queues/ConcurrentQueue.antt =====
-- exercise4/implementation/concurrent_queue.hpp: a ring that any number of threads push to and pop
-- from. A thread makes one access to a shared atomic at a time, and the accesses of the threads are
-- interleaved in any order. The counters do not overflow, as the source assumes.
pub mod Invariant
pub mod Reachable
use wt_lab_efficient_paral.Common.{
  ℕ, ◌+◌, ◌%◌, ◌≤◌, ◌<◌, ◌≡◌, Bool, List, [], ◌∷◌, ◌++◌, Option, none, some, ◌==◌, get_elem?, set,
  replicate, update, ◌-◌,
}

pub record Memory (T : Type 0) : Type 0 where
  pub m_elements : List T
  pub m_capacity : ℕ
  pub m_producer_head : ℕ
  pub m_producer_tail : ℕ
  pub m_consumer_head : ℕ
  pub m_consumer_tail : ℕ

-- Where a thread stands in `try_push` or `try_pop`, with the local variables that are live there.
-- `old` is `old_producer_head` or `old_consumer_tail`.
pub data Pc (T : Type 0) : Type 0 where
  idle : Pc T
  push_load : (e : T) → Pc T
  push_check : (e : T) (old : ℕ) → Pc T
  push_cas : (e : T) (old : ℕ) → Pc T
  push_store : (e : T) (old : ℕ) → Pc T
  push_wait : (e : T) (old : ℕ) → Pc T
  pop_load : Pc T
  pop_check : (old : ℕ) → Pc T
  pop_cas : (old : ℕ) → Pc T
  pop_read : (old : ℕ) → Pc T
  pop_wait : (e : T) (old : ℕ) → Pc T

-- What a call returned.
pub data Event (T : Type 0) : Type 0 where
  pushed : T → Event T
  push_failed : T → Event T
  popped : T → Event T
  pop_failed : Event T

-- One step of one thread. `push` and `pop` call `try_push` and `try_pop` until these return true, so
-- a thread that is idle may start either at any time. A weak compare-exchange may fail at any time,
-- and then loads the current value.
pub data Move {T : Type 0} (m : Memory T) : Pc T → Memory T → Pc T → List (Event T) → Type 0 where
  start_push : (e : T) → Move m idle m (push_load e) []
  load_head : {e : T} → Move m (push_load e) m (push_check e m.m_producer_head) []
  full :
      {e : T} {old : ℕ}
      → m.m_producer_tail + m.m_capacity < old + 1
      → Move m (push_check e old) m idle (push_failed e ∷ [])
  room :
      {e : T} {old : ℕ}
      → old + 1 ≤ m.m_producer_tail + m.m_capacity
      → Move m (push_check e old) m (push_cas e old) []
  claim_slot :
      {e : T} {old : ℕ}
      → m.m_producer_head ≡ old
      → Move m (push_cas e old) (record m { m_producer_head = old + 1 }) (push_store e old) []
  claim_slot_fails :
      {e : T} {old : ℕ} → Move m (push_cas e old) m (push_check e m.m_producer_head) []
  store :
      {e : T} {old : ℕ}
      → Move m
          (push_store e old)
          (record m { m_elements = set m.m_elements (old % m.m_capacity) e })
          (push_wait e old)
          []
  publish :
      {e : T} {old : ℕ}
      → m.m_consumer_head ≡ old
      → Move m (push_wait e old) (record m { m_consumer_head = old + 1 }) idle (pushed e ∷ [])
  publish_fails : {e : T} {old : ℕ} → Move m (push_wait e old) m (push_wait e old) []
  start_pop : Move m idle m pop_load []
  load_tail : Move m pop_load m (pop_check m.m_consumer_tail) []
  nothing :
      {old : ℕ} → m.m_consumer_head < old + 1 → Move m (pop_check old) m idle (pop_failed ∷ [])
  something : {old : ℕ} → old + 1 ≤ m.m_consumer_head → Move m (pop_check old) m (pop_cas old) []
  claim_element :
      {old : ℕ}
      → m.m_consumer_tail ≡ old
      → Move m (pop_cas old) (record m { m_consumer_tail = old + 1 }) (pop_read old) []
  claim_element_fails : {old : ℕ} → Move m (pop_cas old) m (pop_check m.m_consumer_tail) []
  read :
      {e : T} {old : ℕ}
      → get_elem? m.m_elements ((old + 1) % m.m_capacity) ≡ some e
      → Move m (pop_read old) m (pop_wait e old) []
  release :
      {e : T} {old : ℕ}
      → m.m_producer_tail ≡ old
      → Move m (pop_wait e old) (record m { m_producer_tail = old + 1 }) idle (popped e ∷ [])
  release_fails : {e : T} {old : ℕ} → Move m (pop_wait e old) m (pop_wait e old) []

-- The memory, where the threads stand, and what calls returned, the last first.
pub record System (T : Type 0) : Type 0 where
  pub mem : Memory T
  pub pc : ℕ → Pc T
  pub log : List (Event T)

pub data Step {T : Type 0} (s : System T) : System T → Type 0 where
  pick :
      (i : ℕ) {m : Memory T} {p : Pc T} {events : List (Event T)}
      → Move s.mem (s.pc i) m p events
      → Step s (record { mem = m; pc = update s.pc i p; log = events ++ s.log })

module _ {T : Type 0} (blank : T) where
  -- The constructor; `blank` is `T{}`.
  unfoldable pub init : ℕ → Memory T
  init capacity = record {
    m_elements = replicate capacity blank;
    m_capacity = capacity;
    m_producer_head = 0;
    m_producer_tail = 0;
    m_consumer_head = 0;
    m_consumer_tail = 0;
  }

  unfoldable pub reset : Memory T → Memory T
  unfolding init
  reset m = init m.m_capacity

  abbrev pub start : ℕ → System T
  start capacity = record { mem = init capacity; pc = λ i. idle; log = [] }

  pub data Reach (capacity : ℕ) : System T → Type 0 where
    here : Reach capacity (start capacity)
    next : {s t : System T} → Reach capacity s → Step s t → Reach capacity t

  -- The states that thread `i` reaches alone.
  pub data Run (capacity i : ℕ) : System T → Type 0 where
    begin : Run capacity i (start capacity)
    goes :
        {s : System T} {m : Memory T} {p : Pc T} {events : List (Event T)}
        → Run capacity i s
        → Move s.mem (s.pc i) m p events
        → Run capacity i (record { mem = m; pc = update s.pc i p; log = events ++ s.log })

module _ {T : Type 0} where
  unfoldable pub size : Memory T → ℕ
  size m = m.m_consumer_head - m.m_consumer_tail

  unfoldable pub empty : Memory T → Bool
  unfolding size
  empty m = size m == 0
