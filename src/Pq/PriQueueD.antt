-- ===== src/Pq/PriQueueD.antt =====
-- exercise1/pq/implementation/pq_d.h: the heap of `PriQueueC` with handles. Each element carries its
-- handle, and `m_positions` maps a handle to the position of its element.
pub mod Simulate
pub mod Methods
pub mod ChangeKey
use wt_lab_efficient_paral.Common.{
  ℕ, zero, suc, ◌+◌, ◌-◌, ◌*◌, ◌/◌, ◌^◌, Bool, not, List, [], ◌∷◌, ◌++◌, Option, none, some, ltb,
  ◌==◌, min, if◌then◌else◌, length, get_elem?, set, take, swap, assert, ◌>>=◌, ◌>>◌,
}
use wt_lab_efficient_paral.Pq.AlignedVector.{construct, push_back}
use wt_lab_efficient_paral.Pq.PriQueueC.{degree_of, child, parent}

pub record Element (T : Type 0) : Type 0 where
  pub e : T
  pub h : ℕ

-- `m_capacity` is that of the AlignedVector `m_elements`; `m_positions` is a std::vector, which grows.
pub record PriQueueD (T : Type 0) : Type 0 where
  pub m_elements : List (Element T)
  pub m_capacity : ℕ
  pub m_positions : List ℕ
  pub m_log_degree : ℕ

-- The two vectors that the sifting loops write.
abbrev pub Vectors : Type 0 → Type 0
Vectors T = List (Element T) × List ℕ

-- `std::numeric_limits<std::size_t>::max()`
abbrev pub no_position : ℕ
no_position = 2 ^ 64 - 1

-- `pos(h)` as a value and as the target of an assignment.
unfoldable pub pos : List ℕ → ℕ → Option ℕ
pos positions h = get_elem? positions h

unfoldable pub set_pos : List ℕ → ℕ → ℕ → Option (List ℕ)
set_pos positions h v = get_elem? positions h >>= λ _. some (set positions h v)

module _ {T : Type 0} where
  -- The constructor; `size_of` and `align_of` are those of `Element T`.
  unfoldable pub init : (size_of align_of capacity log_degree : ℕ) → Option (PriQueueD T)
  unfolding construct
  init size_of align_of capacity log_degree = do
    degree ← degree_of log_degree
    m_capacity ← construct size_of align_of capacity degree (degree - 1)
    some (record {
      m_elements = [];
      m_capacity = m_capacity;
      m_positions = [];
      m_log_degree = log_degree;
    })

  unfoldable pub empty : PriQueueD T → Bool
  empty q = length q.m_elements == 0

  unfoldable pub top : PriQueueD T → Option T
  unfolding empty
  top q = assert (not (empty q)) >> get_elem? q.m_elements 0 >>= λ x. some x.e

  -- The two exchanges of a round, `i` being moved to `p`, and the `assert`s on the positions.
  unfoldable pub swap_elements : Vectors T → ℕ → ℕ → Option (Vectors T)
  unfolding pos
  swap_elements (a, positions) p i = do
    x ← get_elem? a p
    y ← get_elem? a i
    positions' ← swap positions x.h y.h
    b ← swap a p i
    u ← get_elem? b p
    v ← get_elem? b i
    at_p ← pos positions' u.h
    at_i ← pos positions' v.h
    assert (at_p == p)
    assert (at_i == i)
    some (b, positions')

  unfoldable pub get_key : PriQueueD T → ℕ → Option T
  unfolding pos
  get_key q h = do i ← pos q.m_positions h; x ← get_elem? q.m_elements i; some x.e

module _ {T : Type 0} (comp : T → T → Bool) where
  unfoldable pub fix_upwards_loop : ℕ → ℕ → Vectors T → ℕ → Option (Vectors T)
  fix_upwards_loop log_degree zero v i = none
  fix_upwards_loop log_degree (suc fuel) v i =
      let rise : ℕ → Option (Vectors T) = λ p. (do
        w ← swap_elements v p i
        x ← get_elem? w.0 p
        y ← get_elem? w.0 i
        assert (not (comp x.e y.e))
        fix_upwards_loop log_degree fuel w p) in
      let round : Option (Vectors T) = do
        p ← parent log_degree i
        x ← get_elem? v.0 p
        y ← get_elem? v.0 i
        if comp x.e y.e then rise p else some v
      in if ltb 0 i then round else some v

  unfoldable pub fix_upwards : ℕ → Vectors T → ℕ → Option (Vectors T)
  fix_upwards log_degree v i =
      assert (ltb i (length v.0)) >> fix_upwards_loop log_degree (suc i) v i

  -- The queue and the handle of the new element.
  unfoldable pub push : PriQueueD T → T → Option (PriQueueD T × ℕ)
  unfolding pos push_back
  push q value = do
    let positions = q.m_positions ++ length q.m_elements ∷ []
    let h = length positions - 1
    a ← push_back q.m_capacity q.m_elements (record { e = value; h = h })
    last ← get_elem? a (length a - 1)
    at_last ← pos positions last.h
    assert (at_last == (length a - 1))
    w ← fix_upwards q.m_log_degree (a, positions) (length a - 1)
    some (record q { m_elements = w.0; m_positions = w.1 }, h)

  -- The `for` over the children: `rounds` are left, `k` is the next child.
  unfoldable pub scan_children : ℕ → List (Element T) → ℕ → ℕ → Option ℕ
  scan_children zero a k max_idx = some max_idx
  scan_children (suc rounds) a k max_idx = do
    x ← get_elem? a max_idx
    y ← get_elem? a k
    scan_children rounds a (k + 1) (if comp x.e y.e then k else max_idx)

  unfoldable pub fix_downwards_loop : ℕ → ℕ → ℕ → Vectors T → ℕ → Option (Vectors T)
  fix_downwards_loop log_degree degree zero v i = none
  fix_downwards_loop log_degree degree (suc fuel) v i =
      let sink = λ (max_idx : ℕ).
        swap_elements v i max_idx >>= λ w. fix_downwards_loop log_degree degree fuel w max_idx in
      do
        assert (ltb i (length v.0))
        first ← child log_degree i 0
        last ← child log_degree i (degree - 1)
        max_idx ← scan_children (min (last + 1) (length v.0) - first) v.0 first i
        if i == max_idx then some v else sink max_idx

  unfoldable pub fix_downwards : ℕ → Vectors T → ℕ → Option (Vectors T)
  fix_downwards log_degree v i = do
    assert (ltb i (length v.0))
    degree ← degree_of log_degree
    fix_downwards_loop log_degree degree (suc (length v.0)) v i

  unfoldable pub pop : PriQueueD T → Option (PriQueueD T)
  unfolding empty pos set_pos
  pop q = do
    assert (not (empty q))
    front ← get_elem? q.m_elements 0
    marked ← set_pos q.m_positions front.h no_position
    back ← get_elem? q.m_elements (length q.m_elements - 1)
    let moved = set q.m_elements 0 back
    new_front ← get_elem? moved 0
    positions ← set_pos marked new_front.h 0
    at_front ← pos positions new_front.h
    assert (at_front == 0)
    let a = take (length moved - 1) moved
    w ← if length a == 0 then some (a, positions) else fix_downwards q.m_log_degree (a, positions) 0
    some (record q { m_elements = w.0; m_positions = w.1 })

  unfoldable pub change_key : PriQueueD T → ℕ → T → Option (PriQueueD T)
  unfolding pos
  change_key q h newvalue = do
    i ← pos q.m_positions h
    x ← get_elem? q.m_elements i
    let a = set q.m_elements i (record x { e = newvalue })
    w ←
        if comp x.e newvalue
        then fix_upwards q.m_log_degree (a, q.m_positions) i
        else fix_downwards q.m_log_degree (a, q.m_positions) i
    some (record q { m_elements = w.0; m_positions = w.1 })
