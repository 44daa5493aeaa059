-- ===== src/Queues/ConcurrentContainer.antt =====
-- exercise4/implementation/concurrent_container.hpp: an array in which producers look for a place that
-- holds `T{}` and consumers for one that does not. The accesses of the threads to the atomic elements
-- are interleaved in any order. Where a search starts comes from a random number or the last search
-- of the thread, so it is any number.
pub mod Conserves
use wt_lab_efficient_paral.Common.{
  ℕ, zero, suc, ◌+◌, ◌%◌, ◌≡◌, ◌↔◌, Bool, true, false, List, [], ◌∷◌, ◌++◌, Option, some, get_elem?,
  set, replicate, update,
}

-- What a client gives: the comparison of its element type, and `T{}`.
pub record Elements (T : Type 0) : Type 0 where
  pub same : T → T → Bool
  pub same_iff : (a b : T) → (same a b ≡ true) ↔ (a ≡ b)
  pub blank : T

pub record Memory (T : Type 0) : Type 0 where
  pub m_elements : List T
  pub m_capacity : ℕ

-- Where a thread stands: `rounds` of the search are left, and `i` is its next position.
pub data Pc (T : Type 0) : Type 0 where
  idle : Pc T
  push_at : (e : T) (rounds i : ℕ) → Pc T
  pop_at : (rounds i : ℕ) → Pc T
  pop_cas : (e : T) (rounds i : ℕ) → Pc T

-- What a call returned.
pub data Event (T : Type 0) : Type 0 where
  pushed : T → Event T
  push_failed : T → Event T
  popped : T → Event T
  pop_failed : Event T

module _ {T : Type 0} (elements : Elements T) where
  open elements use {same, blank}

  pub data Move (m : Memory T) : Pc T → Memory T → Pc T → List (Event T) → Type 0 where
    start_push : (e : T) (search_start : ℕ) → Move m idle m (push_at e m.m_capacity search_start) []
    full : {e : T} {i : ℕ} → Move m (push_at e 0 i) m idle (push_failed e ∷ [])
    store :
        {e x : T} {rounds i : ℕ}
        → get_elem? m.m_elements (i % m.m_capacity) ≡ some x
        → same x blank ≡ true
        → Move m
            (push_at e (suc rounds) i)
            (record m { m_elements = set m.m_elements (i % m.m_capacity) e })
            idle
            (pushed e ∷ [])
    occupied :
        {e x : T} {rounds i : ℕ}
        → get_elem? m.m_elements (i % m.m_capacity) ≡ some x
        → same x blank ≡ false
        → Move m (push_at e (suc rounds) i) m (push_at e rounds (i + 1)) []
    start_pop : (search_start : ℕ) → Move m idle m (pop_at m.m_capacity search_start) []
    nothing : {i : ℕ} → Move m (pop_at 0 i) m idle (pop_failed ∷ [])
    skip :
        {x : T} {rounds i : ℕ}
        → get_elem? m.m_elements (i % m.m_capacity) ≡ some x
        → same x blank ≡ true
        → Move m (pop_at (suc rounds) i) m (pop_at rounds (i + 1)) []
    load :
        {e : T} {rounds i : ℕ}
        → get_elem? m.m_elements (i % m.m_capacity) ≡ some e
        → same e blank ≡ false
        → Move m (pop_at (suc rounds) i) m (pop_cas e rounds i) []
    take :
        {e x : T} {rounds i : ℕ}
        → get_elem? m.m_elements (i % m.m_capacity) ≡ some x
        → same x e ≡ true
        → Move m
            (pop_cas e rounds i)
            (record m { m_elements = set m.m_elements (i % m.m_capacity) blank })
            idle
            (popped e ∷ [])
    taken :
        {e x : T} {rounds i : ℕ}
        → get_elem? m.m_elements (i % m.m_capacity) ≡ some x
        → same x e ≡ false
        → Move m (pop_cas e rounds i) m (pop_at rounds (i + 1)) []

  -- The memory, where the threads stand, and what calls returned, the last first.
  pub record System : Type 0 where
    pub mem : Memory T
    pub pc : ℕ → Pc T
    pub log : List (Event T)

  pub data Step (s : System) : System → Type 0 where
    pick :
        (i : ℕ) {m : Memory T} {p : Pc T} {events : List (Event T)}
        → Move s.mem (s.pc i) m p events
        → Step s (record { mem = m; pc = update s.pc i p; log = events ++ s.log })

  unfoldable pub init : ℕ → Memory T
  init capacity = record { m_elements = replicate capacity blank; m_capacity = capacity }

  -- `reset` stores `T{}` in each element.
  unfoldable pub reset : Memory T → Memory T
  reset m = record m { m_elements = replicate m.m_capacity blank }

  unfoldable pub empty_loop : List T → Bool
  empty_loop [] = true
  empty_loop (x ∷ xs) =
      let rest = empty_loop xs in elim (same x blank) [ true ↦ rest | false ↦ false ]

  -- `empty` without `keep_stats`.
  unfoldable pub empty : Memory T → Bool
  unfolding empty_loop
  empty m = empty_loop m.m_elements

  abbrev pub start : ℕ → System
  start capacity = record { mem = init capacity; pc = λ i. idle; log = [] }

  pub data Reach (capacity : ℕ) : System → Type 0 where
    here : Reach capacity (start capacity)
    next : {s t : System} → Reach capacity s → Step s t → Reach capacity t
