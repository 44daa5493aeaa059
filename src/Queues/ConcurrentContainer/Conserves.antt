-- ===== src/Queues/ConcurrentContainer/Conserves.antt =====
-- No element of a `ConcurrentContainer` is lost, and none is popped twice.
use wt_lab_efficient_paral.Common.{
  ℕ, zero, suc, ◌+◌, ◌%◌, ◌≡◌, refl, true, false, List, [], ◌∷◌, ◌++◌, some, get_elem?, set,
  replicate, if◌then◌else◌, arith,
}
use wt_lab_efficient_paral.Queues.ConcurrentContainer.{
  Elements, Memory, Pc, Event, pushed, push_failed, popped, pop_failed, Move, start_push, full,
  store, occupied, start_pop, nothing, skip, load, take, taken, System, pick, init, Reach, here,
  next,
}

module _ {T : Type 0} (elements : Elements T) (a : T) where
  open elements use {same, same_iff, blank}

  abbrev one : T → ℕ
  one x = if same x a then 1 else 0

  -- How often `a` stands in the array, was pushed, and was popped.
  abbrev pub count : List T → ℕ
  count [] = 0
  count (x ∷ xs) = one x + count xs

  abbrev pub count_pushed : List (Event T) → ℕ
  count_pushed [] = 0
  count_pushed (pushed x ∷ log) = one x + count_pushed log
  count_pushed (push_failed x ∷ log) = count_pushed log
  count_pushed (popped x ∷ log) = count_pushed log
  count_pushed (pop_failed ∷ log) = count_pushed log

  abbrev pub count_popped : List (Event T) → ℕ
  count_popped [] = 0
  count_popped (pushed x ∷ log) = count_popped log
  count_popped (push_failed x ∷ log) = count_popped log
  count_popped (popped x ∷ log) = one x + count_popped log
  count_popped (pop_failed ∷ log) = count_popped log

  count-set :
      (xs : List T) (i : ℕ) (v x : T)
      → get_elem? xs i ≡ some x
      → count (set xs i v) + one x ≡ count xs + one v
  count-set [] i v x h = cc
  count-set (y ∷ xs) zero v x h = ground arith
  count-set (y ∷ xs) (suc i) v x h = omega (arith, count-set xs i v x h)

  module _ (real : same blank a ≡ false) where
    count-replicate : (n : ℕ) → count (replicate n blank) ≡ 0
    count-replicate zero = refl
    count-replicate (suc n) = rw real (omega (arith, count-replicate n))

    blank-one : (x : T) → same x blank ≡ true → one x ≡ 0
    blank-one x h = rw ((same_iff x blank).0 h, real) refl

    same-one : (x e : T) → same x e ≡ true → one x ≡ one e
    same-one x e h = rw ((same_iff x e).0 h) refl

    abbrev Balanced : List T → List (Event T) → Type 0
    Balanced xs log = count xs + count_popped log ≡ count_pushed log

    Move-Balanced :
        {m m' : Memory T} {p p' : Pc T} {events : List (Event T)} (log : List (Event T))
        → Move elements m p m' p' events
        → Balanced m.m_elements log
        → Balanced m'.m_elements (events ++ log)
    Move-Balanced log (start_push e i) b = b
    Move-Balanced log full b = b
    Move-Balanced {m} log (store {e} {x} {rounds} {i} at_i free) b =
        omega (arith, b, count-set m.m_elements (i % m.m_capacity) e x at_i, blank-one x free)
    Move-Balanced log (occupied h f) b = b
    Move-Balanced log (start_pop i) b = b
    Move-Balanced log nothing b = b
    Move-Balanced log (skip h f) b = b
    Move-Balanced log (load h f) b = b
    Move-Balanced {m} log (take {e} {x} {rounds} {i} at_i eq) b = omega (
      arith,
      b,
      count-set m.m_elements (i % m.m_capacity) blank x at_i,
      same-one x e eq,
      blank-one blank ((same_iff blank blank).1 refl),
    )
    Move-Balanced log (taken h f) b = b

    -- In every reachable state, an element other than `T{}` stands in the array as often as it was
    -- pushed and not popped.
    pub container_conserves :
        (capacity : ℕ) (s : System elements)
        → Reach elements capacity s
        → count s.mem.m_elements + count_popped s.log ≡ count_pushed s.log
    unfolding init
    container_conserves capacity s here = omega (arith, count-replicate capacity)
    container_conserves capacity t (next {s} r (pick i mv)) =
        Move-Balanced s.log mv (container_conserves capacity s r)
