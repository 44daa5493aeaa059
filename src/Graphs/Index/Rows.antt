-- ===== src/Graphs/Index/Rows.antt =====
-- What a client reads of a graph with an index: for each node its edges, in the order of the list.
use wt_lab_efficient_paral.Common.{
  ℕ, suc, ◌+◌, ◌-◌, ◌≤◌, ◌<◌, ◌≡◌, refl, List, [], ◌∷◌, Option, some, get_elem?, length, Ends,
  arith, ap, Ends-weaken, map,
}
use wt_lab_efficient_paral.Graphs.EdgeList.{
  Edge, before, before-suc, InRange, leaving, length-leaving,
}
use wt_lab_efficient_paral.Graphs.Index.{build_index, fill_loop, edges_loop, for_edges}
use wt_lab_efficient_paral.Graphs.Index.Counts.{Lists, build_index-Lists}
use wt_lab_efficient_paral.Graphs.Index.Fill.{IsFilled, before-IsPlan, fill_loop-IsFilled}

module _ {A B : Type 0} (read : ℕ → Option B) (view : A → B) where
  edges_loop-reads :
      (xs : List A) (it : ℕ)
      → ((i : ℕ) (x : A) → get_elem? xs i ≡ some x → read (it + i) ≡ some (view x))
      → edges_loop read (length xs) it ≡ some (map view xs)
  unfolding edges_loop
  edges_loop-reads [] it reads = refl
  edges_loop-reads (x ∷ xs) it reads =
      let here : it + 0 ≡ it = omega arith in
      let first = rw here at (reads 0 x refl) in
      let rest = edges_loop-reads xs (it + 1) λ i y h.
        let there : it + 1 + i ≡ it + suc i = omega arith in rw there (reads (suc i) y h) in
      rw (first, rest) refl

module _ {W : Type 0} where
  -- What the index has to be for a list of edges.
  pub record IsIndex (n : ℕ) (es : List (Edge W)) (c : List ℕ) : Type 0 where
    pub size : length c ≡ n + 1
    pub starts : Lists c (λ v. before v es)

  pub build_index-IsIndex :
      (wrap : ℕ → ℕ) (n : ℕ) (es : List (Edge W))
      → ((k : ℕ) → k ≤ length es → wrap k ≡ k)
      → InRange n es
      → Ends (IsIndex n es) (build_index wrap n es)
  build_index-IsIndex wrap n es exact ok =
      Ends-weaken (build_index-Lists wrap n es exact ok) λ c h. record { size = h.0; starts = h.1 }

  module _ (n : ℕ) (es : List (Edge W)) (ok : InRange n es) (c : List ℕ)
      (index : IsIndex n es c) where
    -- The fill loop ends, and leaves the value of the k-th edge of `v` in the k-th place of `v`.
    pub fill_loop-rows :
        {A : Type 0} (wrap : ℕ → ℕ)
        → ((k : ℕ) → k ≤ length es → wrap k ≡ k)
        → (value : Edge W → A) (arr : List A) → length arr ≡ length es
        → Ends (IsFilled value es (λ v. before v es) arr) (fill_loop wrap value es c arr)
    fill_loop-rows wrap exact value arr size =
        fill_loop-IsFilled value wrap (length es) exact n es (λ v. before v es) c arr ok
          (omega (arith, index.size)) index.starts (rw size (before-IsPlan es)) (omega arith)

    -- With such places a client reads the edges of each node.
    pub for_edges-rows :
        {A B : Type 0} (value : Edge W → A) (read : ℕ → Option B) (view : Edge W → B)
        → (arr arr' : List A) → IsFilled value es (λ v. before v es) arr arr'
        → ((it : ℕ) (e : Edge W) → get_elem? arr' it ≡ some (value e) → read it ≡ some (view e))
        → (v : ℕ) → v < n
        → for_edges read c v ≡ some (map view (leaving v es))
    unfolding for_edges
    for_edges-rows value read view arr arr' filled reads v inside =
        let first = index.starts v (omega (arith, index.size)) in
        let last = index.starts (v + 1) (omega (arith, index.size)) in
        let next : v + 1 ≡ suc v = omega arith in
        let rounds : before (v + 1) es - before v es ≡ length (leaving v es) =
          omega (arith, ap (λ t. before t es) next, before-suc v es, length-leaving v es) in
        rw (first, last, rounds)
          (edges_loop-reads read view (leaving v es) (before v es)
            λ i e h. reads (before v es + i) e (filled.placed v i e h))
