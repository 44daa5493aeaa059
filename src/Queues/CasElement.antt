-- ===== src/Queues/CasElement.antt =====
-- exercise4/implementation/concurrent_queue_cas_element.hpp: a ring whose elements are claimed by
-- compare-exchange. A thread makes one access to an atomic at a time, and the accesses of the threads
-- are interleaved in any order. The loads within asserts are left out.
pub mod Overwrites
use wt_lab_efficient_paral.Common.{
  ℕ, ◌+◌, ◌%◌, ◌≤◌, ◌<◌, ◌≡◌, Bool, true, false, List, [], ◌∷◌, ◌++◌, Option, some, get_elem?, set,
  replicate, update, ◌==◌,
}
use wt_lab_efficient_paral.Queues.ConcurrentContainer.{
  Elements, Event, pushed, push_failed, popped, pop_failed,
}

pub record Memory (T : Type 0) : Type 0 where
  pub m_elements : List T
  pub m_capacity : ℕ
  pub m_head : ℕ
  pub m_tail : ℕ

-- Where a thread stands in `try_push` or `try_pop`, with the local variables that are live there.
pub data Pc (T : Type 0) : Type 0 where
  idle : Pc T
  push_head : (e : T) → Pc T
  push_tail : (e : T) (old_head : ℕ) → Pc T
  push_at : (e : T) (old_tail idx : ℕ) (expected : T) → Pc T
  push_count : (e : T) → Pc T
  pop_tail : Pc T
  pop_head : (old_tail : ℕ) → Pc T
  pop_at : (old_head idx : ℕ) → Pc T
  pop_cas : (e : T) (old_head idx : ℕ) → Pc T
  pop_count : (e : T) → Pc T

module _ {T : Type 0} (elements : Elements T) where
  open elements use {same, blank}

  -- A compare-exchange that fails writes the value it has found to `expected`, or to `e` in `try_pop`.
  pub data Move (m : Memory T) : Pc T → Memory T → Pc T → List (Event T) → Type 0 where
    start_push : (e : T) → Move m idle m (push_head e) []
    load_head : {e : T} → Move m (push_head e) m (push_tail e m.m_head) []
    load_tail :
        {e : T} {old_head : ℕ}
        → Move m (push_tail e old_head) m (push_at e m.m_tail old_head blank) []
    full :
        {e expected : T} {old_tail idx : ℕ}
        → old_tail + m.m_capacity ≤ idx
        → Move m (push_at e old_tail idx expected) m idle (push_failed e ∷ [])
    store :
        {e expected x : T} {old_tail idx : ℕ}
        → idx < old_tail + m.m_capacity
        → get_elem? m.m_elements (idx % m.m_capacity) ≡ some x
        → same x expected ≡ true
        → Move m
            (push_at e old_tail idx expected)
            (record m { m_elements = set m.m_elements (idx % m.m_capacity) e })
            (push_count e)
            []
    occupied :
        {e expected x : T} {old_tail idx : ℕ}
        → idx < old_tail + m.m_capacity
        → get_elem? m.m_elements (idx % m.m_capacity) ≡ some x
        → same x expected ≡ false
        → Move m (push_at e old_tail idx expected) m (push_at e old_tail (idx + 1) x) []
    count_push :
        {e : T} → Move m (push_count e) (record m { m_head = m.m_head + 1 }) idle (pushed e ∷ [])
    start_pop : Move m idle m pop_tail []
    load_old_tail : Move m pop_tail m (pop_head m.m_tail) []
    load_old_head : {old_tail : ℕ} → Move m (pop_head old_tail) m (pop_at m.m_head old_tail) []
    nothing :
        {old_head idx : ℕ} → old_head ≤ idx → Move m (pop_at old_head idx) m idle (pop_failed ∷ [])
    skip :
        {x : T} {old_head idx : ℕ}
        → idx < old_head
        → get_elem? m.m_elements (idx % m.m_capacity) ≡ some x
        → same x blank ≡ true
        → Move m (pop_at old_head idx) m (pop_at old_head (idx + 1)) []
    read :
        {e : T} {old_head idx : ℕ}
        → idx < old_head
        → get_elem? m.m_elements (idx % m.m_capacity) ≡ some e
        → same e blank ≡ false
        → Move m (pop_at old_head idx) m (pop_cas e old_head idx) []
    take :
        {e x : T} {old_head idx : ℕ}
        → get_elem? m.m_elements (idx % m.m_capacity) ≡ some x
        → same x e ≡ true
        → Move m
            (pop_cas e old_head idx)
            (record m { m_elements = set m.m_elements (idx % m.m_capacity) blank })
            (pop_count e)
            []
    taken :
        {e x : T} {old_head idx : ℕ}
        → get_elem? m.m_elements (idx % m.m_capacity) ≡ some x
        → same x e ≡ false
        → Move m (pop_cas e old_head idx) m (pop_at old_head (idx + 1)) []
    count_pop :
        {e : T} → Move m (pop_count e) (record m { m_tail = m.m_tail + 1 }) idle (popped e ∷ [])

  -- The memory, where the threads stand, and what calls returned, the last first.
  pub record System : Type 0 where
    pub mem : Memory T
    pub pc : ℕ → Pc T
    pub log : List (Event T)

  pub data Step (s : System) : System → Type 0 where
    pick :
        (i : ℕ) {m : Memory T} {p : Pc T} {events : List (Event T)}
        → Move s.mem (s.pc i) m p events
        → Step s (record { mem = m; pc = update s.pc i p; log = events ++ s.log })

  unfoldable pub init : ℕ → Memory T
  init capacity = record {
    m_elements = replicate capacity blank;
    m_capacity = capacity;
    m_head = 0;
    m_tail = 0;
  }

  unfoldable pub reset : Memory T → Memory T
  unfolding init
  reset m = init m.m_capacity

  abbrev pub start : ℕ → System
  start capacity = record { mem = init capacity; pc = λ i. idle; log = [] }

  pub data Reach (capacity : ℕ) : System → Type 0 where
    here : Reach capacity (start capacity)
    next : {s t : System} → Reach capacity s → Step s t → Reach capacity t

unfoldable pub empty : {T : Type 0} → Memory T → Bool
empty m = m.m_tail == m.m_head
