-- ===== src/Pq/PriQueueB.antt =====
-- exercise1/pq/implementation/pq_b.h: the heap of `PriQueueA` with the degree fixed at compile time
-- and a loop over full rows of children, the last row being left to `std::max_element`.
-- Pointers into the vector are indices.
mod Down
pub mod Correct
use wt_lab_efficient_paral.Common.{
  ℕ, zero, suc, ◌+◌, ◌-◌, Bool, not, List, [], ◌∷◌, ◌++◌, Option, none, some, ltb, leb, ◌==◌, min,
  if◌then◌else◌, length, get_elem?, set, take, swap, assert, ◌>>=◌, ◌>>◌,
}
use wt_lab_efficient_paral.Pq.AlignedVector.{construct, push_back}
use wt_lab_efficient_paral.Pq.Tree.{child}
use wt_lab_efficient_paral.Pq.PriQueueA
use wt_lab_efficient_paral.Pq.PriQueueA.{scan_children}

-- The template argument `degree` stays an argument. `m_capacity` is that of the AlignedVector
-- `m_elements`.
pub record PriQueueB (A : Type 0) : Type 0 where
  pub m_elements : List A
  pub m_capacity : ℕ

module _ {A : Type 0} where
  -- The constructor; `size_of` and `align_of` are those of `A`.
  unfoldable pub init : (degree size_of align_of capacity : ℕ) → Option (PriQueueB A)
  unfolding construct
  init degree size_of align_of capacity = do
    m_capacity ← construct size_of align_of capacity degree (degree - 1)
    some (record { m_elements = []; m_capacity = m_capacity })

  unfoldable pub empty : PriQueueB A → Bool
  empty q = length q.m_elements == 0

  unfoldable pub top : PriQueueB A → Option A
  unfolding empty
  top q = assert (not (empty q)) >> get_elem? q.m_elements 0

module _ {A : Type 0} (comp : A → A → Bool) (degree : ℕ) where
  -- The text of `fix_upwards` is that of `PriQueueA`.
  unfoldable pub fix_upwards : List A → ℕ → Option (List A)
  fix_upwards a i = PriQueueA.fix_upwards comp degree a i

  unfoldable pub push : PriQueueB A → A → Option (PriQueueB A)
  unfolding push_back
  push q value = do
    a ← push_back q.m_capacity q.m_elements value
    b ← fix_upwards a (length a - 1)
    some (record q { m_elements = b })

  -- `std::max_element(begin, end, m_comp)` for `begin < end`: the first of the greatest.
  unfoldable pub max_element : List A → ℕ → ℕ → Option ℕ
  max_element a begin end = scan_children comp (end - begin - 1) a (begin + 1) begin

  -- What follows the loop: the row of children that is not full.
  unfoldable pub fix_last_row : List A → ℕ → Option (List A)
  fix_last_row a i =
      let begin = child degree i 0 in
      let end = min (begin + degree) (length a) in
      let row : Option (List A) = do
        max_idx ← max_element a begin end
        x ← get_elem? a i
        y ← get_elem? a max_idx
        if comp x y then swap a i max_idx else some a
      in if ltb begin end then row else some a

  unfoldable pub fix_downwards_loop : ℕ → List A → ℕ → Option (List A)
  fix_downwards_loop zero a i = none
  fix_downwards_loop (suc fuel) a i =
      let begin = child degree i 0 in
      let sink = λ (max_idx : ℕ). swap a i max_idx >>= λ b. fix_downwards_loop fuel b max_idx in
      let row : Option (List A) = do
        max_idx ← scan_children comp degree a begin i
        if i == max_idx then some a else sink max_idx
      in do
        assert (ltb i (length a))
        if leb (begin + degree) (length a) then row else fix_last_row a i

  unfoldable pub fix_downwards : List A → ℕ → Option (List A)
  fix_downwards a i = assert (ltb i (length a)) >> fix_downwards_loop (suc (length a)) a i

  unfoldable pub pop : PriQueueB A → Option (PriQueueB A)
  unfolding empty
  pop q = do
    assert (not (empty q))
    back ← get_elem? q.m_elements (length q.m_elements - 1)
    let a = take (length q.m_elements - 1) (set q.m_elements 0 back)
    b ← if length a == 0 then some a else fix_downwards a 0
    some (record q { m_elements = b })
