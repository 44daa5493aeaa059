-- ===== src/Pq/PriQueueA.antt =====
-- exercise1/pq/implementation/pq_a.h: a max-heap of a degree chosen at run time, in the
-- AlignedVector of the default build. A read out of bounds and a failed `assert` are faults. The
-- loops carry fuel; `Up` and `Down` show that it is enough. Indices stay below `size() * degree + degree`, which is taken to fit `size_t`.
pub mod Correct
pub mod Check
use wt_lab_efficient_paral.Common.{
  ℕ, zero, suc, ◌+◌, ◌-◌, Bool, not, List, [], ◌∷◌, ◌++◌, Option, none, some, ltb, ◌==◌, min,
  if◌then◌else◌, length, get_elem?, set, take, swap, assert, ◌>>=◌, ◌>>◌,
}
use wt_lab_efficient_paral.Pq.AlignedVector.{construct, push_back}
use wt_lab_efficient_paral.Pq.Tree.{child, parent}

-- `m_capacity` is that of the AlignedVector `m_elements`.
pub record PriQueueA (A : Type 0) : Type 0 where
  pub m_elements : List A
  pub m_capacity : ℕ
  pub m_degree : ℕ

module _ {A : Type 0} where
  -- The constructor; `size_of` and `align_of` are those of `A`.
  unfoldable pub init : (size_of align_of capacity degree : ℕ) → Option (PriQueueA A)
  unfolding construct
  init size_of align_of capacity degree = do
    m_capacity ← construct size_of align_of capacity degree (degree - 1)
    some (record { m_elements = []; m_capacity = m_capacity; m_degree = degree })

  unfoldable pub size : PriQueueA A → ℕ
  size q = length q.m_elements

  unfoldable pub empty : PriQueueA A → Bool
  empty q = length q.m_elements == 0

  -- `assert(!empty()); return m_elements.front();`
  unfoldable pub top : PriQueueA A → Option A
  unfolding empty
  top q = assert (not (empty q)) >> get_elem? q.m_elements 0

module _ {A : Type 0} (comp : A → A → Bool) where
  unfoldable pub fix_upwards_loop : ℕ → ℕ → List A → ℕ → Option (List A)
  fix_upwards_loop degree zero a i = none
  fix_upwards_loop degree (suc fuel) a i =
      let p = parent degree i in
      let rise : Option (List A) = do
        b ← swap a p i
        x ← get_elem? b p
        y ← get_elem? b i
        assert (not (comp x y))
        fix_upwards_loop degree fuel b p
      in let round : Option (List A) = do
        x ← get_elem? a p
        y ← get_elem? a i
        if comp x y then rise else some a
        in if ltb 0 i then round else some a

  unfoldable pub fix_upwards : ℕ → List A → ℕ → Option (List A)
  fix_upwards degree a i = assert (ltb i (length a)) >> fix_upwards_loop degree (suc i) a i

  unfoldable pub push : PriQueueA A → A → Option (PriQueueA A)
  unfolding push_back
  push q value = do
    a ← push_back q.m_capacity q.m_elements value
    b ← fix_upwards q.m_degree a (length a - 1)
    some (record q { m_elements = b })

  -- The `for` over the children: `rounds` are left, `k` is the next child.
  unfoldable pub scan_children : ℕ → List A → ℕ → ℕ → Option ℕ
  scan_children zero a k max_idx = some max_idx
  scan_children (suc rounds) a k max_idx = do
    x ← get_elem? a max_idx
    y ← get_elem? a k
    scan_children rounds a (k + 1) (if comp x y then k else max_idx)

  unfoldable pub max_child : ℕ → List A → ℕ → Option ℕ
  max_child degree a i =
      let first = child degree i 0 in
      scan_children (min (child degree i (degree - 1) + 1) (length a) - first) a first i

  unfoldable pub fix_downwards_loop : ℕ → ℕ → List A → ℕ → Option (List A)
  fix_downwards_loop degree zero a i = none
  fix_downwards_loop degree (suc fuel) a i =
      let sink =
        λ (max_idx : ℕ). swap a i max_idx >>= λ b. fix_downwards_loop degree fuel b max_idx in
      do
        assert (ltb i (length a))
        max_idx ← max_child degree a i
        if i == max_idx then some a else sink max_idx

  unfoldable pub fix_downwards : ℕ → List A → ℕ → Option (List A)
  fix_downwards degree a i =
      assert (ltb i (length a)) >> fix_downwards_loop degree (suc (length a)) a i

  unfoldable pub pop : PriQueueA A → Option (PriQueueA A)
  unfolding empty
  pop q = do
    assert (not (empty q))
    back ← get_elem? q.m_elements (length q.m_elements - 1)
    let a = take (length q.m_elements - 1) (set q.m_elements 0 back)
    b ← if length a == 0 then some a else fix_downwards q.m_degree a 0
    some (record q { m_elements = b })

  -- The `for` of `is_valid`, from index `i` on.
  unfoldable pub is_valid_loop : ℕ → ℕ → List A → ℕ → Option Bool
  is_valid_loop zero degree a i = some Bool.true
  is_valid_loop (suc rounds) degree a i = do
    x ← get_elem? a (parent degree i)
    y ← get_elem? a i
    if comp x y then some Bool.false else is_valid_loop rounds degree a (i + 1)

  unfoldable pub is_valid : PriQueueA A → Option Bool
  unfolding is_valid_loop
  is_valid q = is_valid_loop (length q.m_elements - 1) q.m_degree q.m_elements 1
