-- ===== src/Pq/PriQueueC.antt =====
-- exercise1/pq/implementation/pq_c.h: the heap of `PriQueueA` with a degree that is a power of two,
-- so that `parent` is a shift. The code is written out again, as in the source. A shift by 64 places or
-- more is undefined in C++, and a fault.
pub mod Refines
use wt_lab_efficient_paral.Common.{
  ℕ, zero, suc, ◌+◌, ◌-◌, ◌*◌, ◌/◌, ◌^◌, Bool, not, List, [], ◌∷◌, ◌++◌, Option, none, some, ltb,
  ◌==◌, min, if◌then◌else◌, length, get_elem?, set, take, swap, assert, ◌>>=◌, ◌>>◌,
}
use wt_lab_efficient_paral.Pq.AlignedVector.{construct, push_back}

-- `m_capacity` is that of the AlignedVector `m_elements`.
pub record PriQueueC (A : Type 0) : Type 0 where
  pub m_elements : List A
  pub m_capacity : ℕ
  pub m_log_degree : ℕ

-- `static_cast<size_t>(1) << m_log_degree`
abbrev pub degree_of : ℕ → Option ℕ
degree_of log_degree = assert (ltb log_degree 64) >> some (2 ^ log_degree)

abbrev pub child : ℕ → ℕ → ℕ → Option ℕ
child log_degree i j = degree_of log_degree >>= λ degree. some (i * degree + j + 1)

-- `(i - 1) >> m_log_degree`
abbrev pub parent : ℕ → ℕ → Option ℕ
parent log_degree i = assert (ltb log_degree 64) >> some ((i - 1) / 2 ^ log_degree)

module _ {A : Type 0} where
  -- The constructor; `size_of` and `align_of` are those of `A`.
  unfoldable pub init : (size_of align_of capacity log_degree : ℕ) → Option (PriQueueC A)
  unfolding construct
  init size_of align_of capacity log_degree = do
    degree ← degree_of log_degree
    m_capacity ← construct size_of align_of capacity degree (degree - 1)
    some (record { m_elements = []; m_capacity = m_capacity; m_log_degree = log_degree })

  unfoldable pub empty : PriQueueC A → Bool
  empty q = length q.m_elements == 0

  unfoldable pub top : PriQueueC A → Option A
  unfolding empty
  top q = assert (not (empty q)) >> get_elem? q.m_elements 0

module _ {A : Type 0} (comp : A → A → Bool) where
  unfoldable pub fix_upwards_loop : ℕ → ℕ → List A → ℕ → Option (List A)
  fix_upwards_loop log_degree zero a i = none
  fix_upwards_loop log_degree (suc fuel) a i =
      let rise : ℕ → Option (List A) = λ p. (do
        b ← swap a p i
        x ← get_elem? b p
        y ← get_elem? b i
        assert (not (comp x y))
        fix_upwards_loop log_degree fuel b p) in
      let round : Option (List A) = do
        p ← parent log_degree i
        x ← get_elem? a p
        y ← get_elem? a i
        if comp x y then rise p else some a
      in if ltb 0 i then round else some a

  unfoldable pub fix_upwards : ℕ → List A → ℕ → Option (List A)
  fix_upwards log_degree a i = assert (ltb i (length a)) >> fix_upwards_loop log_degree (suc i) a i

  unfoldable pub push : PriQueueC A → A → Option (PriQueueC A)
  unfolding push_back
  push q value = do
    a ← push_back q.m_capacity q.m_elements value
    b ← fix_upwards q.m_log_degree a (length a - 1)
    some (record q { m_elements = b })

  -- The `for` over the children: `rounds` are left, `k` is the next child.
  unfoldable pub scan_children : ℕ → List A → ℕ → ℕ → Option ℕ
  scan_children zero a k max_idx = some max_idx
  scan_children (suc rounds) a k max_idx = do
    x ← get_elem? a max_idx
    y ← get_elem? a k
    scan_children rounds a (k + 1) (if comp x y then k else max_idx)

  unfoldable pub fix_downwards_loop : ℕ → ℕ → ℕ → List A → ℕ → Option (List A)
  fix_downwards_loop log_degree degree zero a i = none
  fix_downwards_loop log_degree degree (suc fuel) a i =
      let sink = λ (max_idx : ℕ).
        swap a i max_idx >>= λ b. fix_downwards_loop log_degree degree fuel b max_idx in
      do
        assert (ltb i (length a))
        first ← child log_degree i 0
        last ← child log_degree i (degree - 1)
        max_idx ← scan_children (min (last + 1) (length a) - first) a first i
        if i == max_idx then some a else sink max_idx

  unfoldable pub fix_downwards : ℕ → List A → ℕ → Option (List A)
  fix_downwards log_degree a i = do
    assert (ltb i (length a))
    degree ← degree_of log_degree
    fix_downwards_loop log_degree degree (suc (length a)) a i

  unfoldable pub pop : PriQueueC A → Option (PriQueueC A)
  unfolding empty
  pop q = do
    assert (not (empty q))
    back ← get_elem? q.m_elements (length q.m_elements - 1)
    let a = take (length q.m_elements - 1) (set q.m_elements 0 back)
    b ← if length a == 0 then some a else fix_downwards q.m_log_degree a 0
    some (record q { m_elements = b })
