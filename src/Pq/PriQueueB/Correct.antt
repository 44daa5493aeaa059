-- ===== src/Pq/PriQueueB/Correct.antt =====
-- `PriQueueB` keeps the heap and its entries.
use mathlib.Core.List.Perm
use native.Mathlib.Decide.{dec_lt}
use wt_lab_efficient_paral.Common.{
  ℕ, suc, ◌-◌, ◌≤◌, ◌<◌, ◌≡◌, Bool, true, false, [], ◌∷◌, ◌++◌, some, Perm, length, get_elem?,
  length-append, get_elem?-some, get_elem?-lt, append-perm, ◌==◌, Ends, ends, Ends->>=, ◌⊎◌, inl,
  inr, Bool-cases, none, refl, arith, ltb,
}
use wt_lab_efficient_paral.Pq.Order.{StrictWeak}
use wt_lab_efficient_paral.Pq.AlignedVector.{push_back}
use wt_lab_efficient_paral.Pq.PriQueueB.{
  PriQueueB, fix_upwards, top, empty, push, pop, fix_downwards,
}
use wt_lab_efficient_paral.Pq.PriQueueB.Down.{fix_downwards_restores}
use wt_lab_efficient_paral.Pq.Heap.{IsHeap}
use wt_lab_efficient_paral.Pq.Heap.Up.{fix_upwards_restores}
use wt_lab_efficient_paral.Pq.PriQueueA.Correct.{push-UpInv, rest-perm, rest-Ends}

module _ {A : Type 0} (comp : A → A → Bool) (degree : ℕ) where
  -- What `push` and `pop` leave of `q`.
  abbrev pub Grown : PriQueueB A → A → PriQueueB A → Type 0
  Grown q value r =
      IsHeap comp degree r.m_elements
      × Perm r.m_elements (value ∷ q.m_elements)
      × (r.m_capacity ≡ q.m_capacity)

  abbrev pub Shrunk : PriQueueB A → A → PriQueueB A → Type 0
  Shrunk q t r =
      IsHeap comp degree r.m_elements
      × Perm (t ∷ r.m_elements) q.m_elements
      × (r.m_capacity ≡ q.m_capacity)

  push-full :
      (q : PriQueueB A) (value : A)
      → q.m_capacity ≤ length q.m_elements
      → push comp degree q value ≡ none
  unfolding push push_back
  push-full q value full =
      let test : ltb (length q.m_elements) q.m_capacity ≡ false = ground arith in rw test refl

  top_cases :
      (q : PriQueueB A)
      → ((t : A) × (top q ≡ some t) × (get_elem? q.m_elements 0 ≡ some t))
        ⊎ ((top q ≡ none) × (pop comp degree q ≡ none))
  unfolding top pop empty
  top_cases q = elim (Bool-cases (length q.m_elements == 0)) [
    | inl none_left ↦ inr (rw none_left refl, rw none_left refl)
    | inr some_left ↦
        let (t, at_t) = get_elem?-some q.m_elements 0 (ground arith) in
        inl (t, rw (some_left, at_t) refl, at_t)
  ]

module _ {A : Type 0} {comp : A → A → Bool} (order : StrictWeak comp) (degree : ℕ)
    (pos : 0 < degree) where
  push-Ends :
      (q : PriQueueB A) (value : A)
      → IsHeap comp degree q.m_elements
      → length q.m_elements < q.m_capacity
      → Ends (Grown comp degree q value) (push comp degree q value)
  unfolding push push_back fix_upwards
  push-Ends q value heap room =
      let a = q.m_elements in
      let grown : length (a ++ value ∷ []) - 1 ≡ length a =
        omega (arith, length-append a (value ∷ [])) in
      let test : ltb (length a) q.m_capacity ≡ true = ground arith in
      rw (test, grown)
        (Ends->>=
          (fix_upwards_restores order degree pos _ _ (push-UpInv order degree a value pos heap))
          λ b s. ends (s.0, Perm.trans s.1 (append-perm a value), refl))

  pop-Ends :
      (q : PriQueueB A) (t : A)
      → IsHeap comp degree q.m_elements
      → get_elem? q.m_elements 0 ≡ some t
      → Ends (Shrunk comp degree q t) (pop comp degree q)
  unfolding pop empty
  pop-Ends q t heap at_t =
      let a = q.m_elements in
      let some_left = get_elem?-lt a 0 at_t in
      let n = length a - 1 in
      let n_last : length a ≡ suc n = omega arith in
      let full : (length a == 0) ≡ false = ground arith in
      let (back, at_back) = get_elem?-some a n (omega arith) in
      let removed = rest-perm order degree a t back n n_last at_t at_back in
      rw (full, at_back)
        (Ends->>=
          (rest-Ends order degree a t back n n_last at_t at_back
            (λ b. fix_downwards comp degree b 0) (fix_downwards_restores order degree pos _ 0) heap)
          λ b s. ends (s.0, Perm.trans (Perm.cons t s.1) removed, refl))

  -- On a queue in heap order, `push` ends where there is room, with no `assert` failing and no access
  -- out of bounds, in heap order with exactly the value added, and fails its `assert` where the queue
  -- is full. `pop` of a queue that has a `top` likewise ends in heap order with exactly the `top`
  -- removed; without a `top` it fails its `assert`. The capacity stays.
  pub PriQueueB_correct :
      (q : PriQueueB A) (value : A)
      → IsHeap comp degree q.m_elements
      → (((length q.m_elements < q.m_capacity)
            × Ends (Grown comp degree q value) (push comp degree q value))
          ⊎ ((q.m_capacity ≤ length q.m_elements) × (push comp degree q value ≡ none)))
        × (((t : A) × (top q ≡ some t) × Ends (Shrunk comp degree q t) (pop comp degree q))
            ⊎ ((top q ≡ none) × (pop comp degree q ≡ none)))
  PriQueueB_correct q value heap = (
    elim (dec_lt (length q.m_elements) q.m_capacity) [
      | yes room ↦ inl (room, push-Ends q value heap room)
      | no full ↦ inr (omega arith, push-full comp degree q value (omega arith))
    ],
    elim (top_cases comp degree q) [
      | inl (t, at_top, at_t) ↦ inl (t, at_top, pop-Ends q t heap at_t)
      | inr neither ↦ inr neither
    ],
  )
