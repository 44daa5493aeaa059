-- ===== src/Connectivity/Sequential/View.antt =====
-- The two arrays of the sequential union-find as one forest, and the search for a representative.
use native.Mathlib.Decide.{ℕ_discrete}
use wt_lab_efficient_paral.Common.{
  ℕ, zero, suc, ◌+◌, ◌≤◌, ◌<◌, ◌≡◌, ◌≢◌, ap, ◌∙◌, ◌⊎◌, inl, inr, Bool, true, false, List, some,
  get_elem?, length, ◌==◌, ltb, ◌||◌, ◌&&◌, Ends, ends, Ends-weaken, arith, if◌then◌else◌,
  get_elem?-some, get_elem?-lt,
}
use wt_lab_efficient_paral.Connectivity.Joined.{Less}
use wt_lab_efficient_paral.Connectivity.Concurrent.{ℤ, pos, negsuc}
use wt_lab_efficient_paral.Connectivity.Concurrent.Forest.{IsForest}
use wt_lab_efficient_paral.Connectivity.Concurrent.Roots.{Root, stop, go}
use wt_lab_efficient_paral.Connectivity.Sequential.{find_loop, find_representative}

-- A node that is its own parent is a root with its rank, and any other has its parent.
pub record View (parents ranks : List ℕ) (m : List ℤ) : Type 0 where
  pub size : length parents ≡ length m
  pub size_ranks : length ranks ≡ length m
  pub child : (x p : ℕ) → get_elem? parents x ≡ some p → p ≢ x → get_elem? m x ≡ some (pos p)
  pub root :
      (x r : ℕ)
      → get_elem? parents x ≡ some x
      → get_elem? ranks x ≡ some r
      → get_elem? m x ≡ some (negsuc r)

module _ (rank : ℕ → ℕ) where
  abbrev less_test : ℕ → ℕ → Bool
  less_test x y = ltb (rank x) (rank y) || (rank x == rank y && ltb x y)

  -- How many of the first `k` nodes are above `x`.
  abbrev pub above_count : ℕ → ℕ → ℕ
  above_count x zero = 0
  above_count x (suc k) = (if less_test x k then 1 else 0) + above_count x k

  above_count-bound : (x k : ℕ) → above_count x k ≤ k
  above_count-bound x zero = omega arith
  above_count-bound x (suc k) = ground (arith, above_count-bound x k)

  pub above_count-lt : (x k : ℕ) → x < k → above_count x k < k
  above_count-lt x zero h = absurd (omega arith)
  above_count-lt x (suc k) h = elim (ℕ_discrete x k) [
    | yes e ↦
        let not_above : less_test x k ≡ false = rw e (ground arith) in
        rw not_above (omega (arith, above_count-bound x k))
    | no ne ↦ ground (arith, above_count-lt x k (omega arith))
  ]

  above_count-le : (x p k : ℕ) → Less rank x p → above_count p k ≤ above_count x k
  above_count-le x p zero less = omega arith
  above_count-le x p (suc k) less = ground (arith, above_count-le x p k less)

  pub above_count-Less : (x p k : ℕ) → Less rank x p → p < k → above_count p k < above_count x k
  above_count-Less x p zero less h = absurd (omega arith)
  above_count-Less x p (suc k) less h = elim (ℕ_discrete p k) [
    | yes e ↦
        let not_above : less_test p k ≡ false = rw e (ground arith) in
        let is_above : less_test x k ≡ true = rw (← e) (ground arith) in
        rw (not_above, is_above) (omega (arith, above_count-le x p k less))
    | no ne ↦ ground (arith, above_count-Less x p k less (omega arith))
  ]

module _ (parents : List ℕ) (fuel x p : ℕ) (at_x : get_elem? parents x ≡ some p) where
  find_loop-stop : p ≡ x → find_loop (suc fuel) parents x ≡ some x
  unfolding find_loop
  find_loop-stop e =
      let test : (p == x) ≡ true = ground arith in
      rw at_x (ap (λ t. elim t [ true ↦ some x | false ↦ find_loop fuel parents p ]) test)

  find_loop-go : p ≢ x → find_loop (suc fuel) parents x ≡ find_loop fuel parents p
  unfolding find_loop
  find_loop-go ne =
      let test : (p == x) ≡ false = ground arith in
      rw at_x (ap (λ t. elim t [ true ↦ some x | false ↦ find_loop fuel parents p ]) test)

module _ (parents ranks : List ℕ) (m : List ℤ) (rank : ℕ → ℕ) (view : View parents ranks m)
    (forest : IsForest m rank) where
  -- A node is a root of the forest, or has a parent above it.
  pub node_cases :
      (x p : ℕ)
      → get_elem? parents x ≡ some p
      → ((p ≡ x) × ((r : ℕ) × (get_elem? m x ≡ some (negsuc r))))
        ⊎ ((p ≢ x) × (get_elem? m x ≡ some (pos p)))
  node_cases x p at_x = elim (ℕ_discrete p x) [
    | yes e ↦
        let inside = get_elem?-lt parents x at_x in
        let (r, at_r) = get_elem?-some ranks x (omega (arith, view.size, view.size_ranks)) in
        inl (e, (r, view.root x r (at_x ∙ ap some e) at_r))
    | no ne ↦ inr (ne, view.child x p at_x ne)
  ]

  find_loop-Root :
      (fuel x : ℕ)
      → x < length m
      → above_count rank x (length m) < fuel
      → Ends (λ y. Root m x y) (find_loop fuel parents x)
  unfolding find_loop
  find_loop-Root zero x inside room = absurd (omega arith)
  find_loop-Root (suc fuel) x inside room =
      let (p, at_x) = get_elem?-some parents x (omega (arith, view.size)) in
      elim (node_cases x p at_x) [
        | inl (e, (r, is_root)) ↦ rw (find_loop-stop parents fuel x p at_x e) (ends (stop is_root))
        | inr (ne, is_child) ↦
            let (less, p_in) = forest.up x p is_child in
            rw (find_loop-go parents fuel x p at_x ne) (
              Ends-weaken
                (find_loop-Root fuel p p_in
                  (omega (arith, above_count-Less rank x p (length m) less p_in)))
                λ y r. go is_child r)
      ]

  pub find_representative-Root :
      (x : ℕ) → x < length m → Ends (λ y. Root m x y) (find_representative parents x)
  unfolding find_representative
  find_representative-Root x inside =
      find_loop-Root (length parents) x inside
        (omega (arith, view.size, above_count-lt rank x (length m) inside))
