-- ===== src/Pq/PriQueueA/Check.antt =====
-- `is_valid` of `PriQueueA` decides the heap order.
use wt_lab_efficient_paral.Common.{
  ℕ, zero, suc, ◌+◌, ◌-◌, ◌≤◌, ◌<◌, ◌≡◌, refl, ◌↔◌, Bool, true, false, List, some, length,
  get_elem?, get_elem?-lt, get_elem?-some, Ends, ends, Ends-weaken, Ends-split, arith,
}
use wt_lab_efficient_paral.Pq.Tree.{parent, parent-lt}
use wt_lab_efficient_paral.Pq.PriQueueA.{PriQueueA, is_valid, is_valid_loop}
use wt_lab_efficient_paral.Pq.Heap.{IsHeap}

module _ {A : Type 0} (comp : A → A → Bool) where
  -- The entries from `i` on, `rounds` of them, do not come before their parents.
  abbrev OrderedFrom : ℕ → List A → ℕ → ℕ → Type 0
  OrderedFrom degree a i rounds =
      (c : ℕ) (x y : A)
      → i ≤ c
      → c < i + rounds
      → get_elem? a (parent degree c) ≡ some x
      → get_elem? a c ≡ some y
      → comp x y ≡ false

  is_valid_loop_decides :
      (rounds degree : ℕ) (a : List A) (i : ℕ)
      → 0 < degree
      → 0 < i
      → (0 < rounds → i + rounds ≤ length a)
      → Ends
          (λ b. (b ≡ true) ↔ OrderedFrom degree a i rounds)
          (is_valid_loop comp rounds degree a i)
  unfolding is_valid_loop
  is_valid_loop_decides zero degree a i pos i_pos fits =
      ends ((λ e c x y lo hi at_x at_y. absurd (omega arith)), (λ h. refl))
  is_valid_loop_decides (suc rounds) degree a i pos i_pos fits =
      let inside : i + suc rounds ≤ length a = fits (omega arith) in
      let lower = parent-lt degree pos i i_pos in
      let (x, at_x) = get_elem?-some a (parent degree i) (omega arith) in
      let (y, at_y) = get_elem?-some a i (omega arith) in
      rw (at_x, at_y)
        (Ends-split (comp x y) (λ out. ends ((λ e. cc), (λ h. absurd (ground (arith, h i x y)))))
          (λ fine.
            Ends-weaken
              (is_valid_loop_decides rounds degree a (i + 1) pos (omega arith) (omega arith))
              λ b s. (
                (λ e c u v lo hi at_u at_v. ground (arith, s.0 e c u v)),
                (λ h. s.1 (λ c u v lo hi at_u at_v. h c u v (omega arith) (omega arith) at_u at_v)),
              )))

  -- `is_valid` ends, and decides the heap order.
  pub is_valid_decides :
      (q : PriQueueA A)
      → 0 < q.m_degree
      → Ends (λ b. (b ≡ true) ↔ IsHeap comp q.m_degree q.m_elements) (is_valid comp q)
  unfolding is_valid
  is_valid_decides q pos =
      let a = q.m_elements in
      Ends-weaken
        (is_valid_loop_decides (length a - 1) q.m_degree a 1 pos (omega arith) (omega arith))
        λ b s. (
          (λ e c x y c_pos at_x at_y.
              s.0 e c x y c_pos (omega (arith, get_elem?-lt a c at_y)) at_x at_y),
          (λ h. s.1 (λ c x y lo hi. h c x y lo)),
        )
