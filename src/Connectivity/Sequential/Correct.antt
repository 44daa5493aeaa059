-- ===== src/Connectivity/Sequential/Correct.antt =====
-- The sequential union-find after any edges: `connected` tells what they join.
use wt_lab_efficient_paral.Common.{
  ℕ, ◌<◌, ◌≡◌, ◌≢◌, ◌↔◌, refl, ◌∙◌, ◌++◌, ◌⊎◌, inl, inr, Bool, true, false, List, [], ◌∷◌, some,
  get_elem?, ◌==◌, leb, ◌>>=◌, Ends, ends, Ends-weaken, Ends-split, arith, if◌then◌else◌, Ends->>=,
}
use wt_lab_efficient_paral.Connectivity.Joined.{Joined, edge, flip, chain, Joined-map, Edge}
use wt_lab_efficient_paral.Connectivity.Concurrent.{ℤ, negsuc}
use wt_lab_efficient_paral.Connectivity.Concurrent.Forest.{parent, pos-parent}
use wt_lab_efficient_paral.Connectivity.Concurrent.Roots.{
  Root, Root-rank, Root-Joined, Root-unique, Joined-Root,
}
use wt_lab_efficient_paral.Connectivity.Sequential.{
  DynamicConnectivity, init, connected, join_roots, unite, unite_loop,
}
use wt_lab_efficient_paral.Connectivity.Sequential.View.{find_representative-Root}
use wt_lab_efficient_paral.Connectivity.Sequential.Compress.{
  Compressed, Compressed-then, find_representative_and_compress-Compressed,
}
use wt_lab_efficient_paral.Connectivity.Sequential.Link.{join_roots-Hung}
use wt_lab_efficient_paral.Graphs.EdgeList
use wt_lab_efficient_paral.Graphs.EdgeList.{InRange}
use wt_lab_efficient_paral.Connectivity.Sequential.State.{
  And, IsValid, IsValid-same, start-IsValid, ==_equal, equal_==,
}

module _ {W : Type 0} where
  -- What a list of edges asks for.
  abbrev pub Listed : List (EdgeList.Edge W) → ℕ → ℕ → Type 0
  Listed [] a b = ⊥
  Listed (e ∷ edges) a b = ((a ≡ e.from) × (b ≡ e.to)) ⊎ Listed edges a b

  abbrev Valid : ℕ → (ℕ → ℕ → Type 0) → DynamicConnectivity W → Type 0
  Valid n R d = IsValid n R d.union_find_parents d.union_find_ranks

  module _ (n : ℕ) (R : ℕ → ℕ → Type 0) (d : DynamicConnectivity W) (v : Valid n R d) where
    decides : {x y a b : ℕ} → Root v.m x a → Root v.m y b → (a ≡ b) ↔ Joined R x y
    decides at_x at_y = (
      λ e.
          Joined-map (λ u w r. v.sound u w (pos-parent (get_elem? v.m u) r))
            (chain (Root-Joined v.m at_x) (flip (Root-Joined v.m (rw (← e) at at_y)))),
      λ j. Root-unique v.m ((Joined-Root v.m (Joined-map (λ u w r. v.holds u w r) j)).0 at_x) at_y,
    )

    connected-decides :
        (x y : ℕ)
        → x < n
        → y < n
        → Ends (λ answer. (answer ≡ true) ↔ Joined R x y) (connected d x y)
    unfolding connected
    connected-decides x y in_x in_y =
        let find =
          find_representative-Root d.union_find_parents d.union_find_ranks v.m v.rank v.view
            v.forest in
        Ends->>= (find x (omega (arith, v.size))) λ a at_x.
          Ends->>= (find y (omega (arith, v.size))) λ b at_y.
            let (to, from) = decides at_x at_y in
            ends (λ t. to (==_equal a b t), λ j. equal_== a b (from j))

    module _ (from to : ℕ) where
      -- The state after both searches, where the roots are `rf` and `rt`.
      module _ (parents : List ℕ) (m' : List ℤ)
          (c : Compressed R v.m v.rank d.union_find_ranks parents m') (rf rt : ℕ)
          (at_f : Joined (Edge (parent m')) from rf) (at_t : Joined (Edge (parent m')) to rt) where
        still_holds : (a b : ℕ) → R a b → Joined (Edge (parent m')) a b
        still_holds a b r = c.joined (v.holds a b r)

        wider : {a b : ℕ} → Joined (Edge (parent m')) a b → Joined (And from to R) a b
        wider j =
            Joined-map
              (λ a b e.
                Joined-map (λ u w r. edge (inr r)) (c.sound a b (pos-parent (get_elem? m' a) e)))
              j

        one_tree : rf ≡ rt → IsValid n (And from to R) parents d.union_find_ranks
        one_tree e = record {
          m = m';
          rank = v.rank;
          view = c.view;
          forest = c.forest;
          sound = λ x p h. Joined-map (λ u w r. edge (inr r)) (c.sound x p h);
          holds = λ a b s. elim s [
            | inl (at_a, at_b) ↦ rw (at_a, at_b) (chain at_f (flip (rw e at_t)))
            | inr r ↦ still_holds a b r
          ];
          size = c.size ∙ v.size;
        }

        two_trees :
            {ra rb : ℕ}
            → get_elem? m' rf ≡ some (negsuc ra)
            → get_elem? m' rt ≡ some (negsuc rb)
            → rf ≢ rt
            → Ends (Valid n (And from to R)) (join_roots rf rt parents d)
        two_trees {ra} {rb} is_f is_t ne =
            let asked : Joined (And from to R) rt rf =
              chain (flip (wider at_t)) (chain (flip (edge (inl (refl, refl)))) (wider at_f)) in
            Ends-weaken
              (join_roots-Hung (And from to R) parents d m' v.rank c.view c.forest
                (λ x p h. Joined-map (λ u w r. edge (inr r)) (c.sound x p h)) rf rt ra rb is_f is_t
                ne asked)
              λ d' h. record {
                m = h.m';
                rank = h.rank';
                view = h.view;
                forest = h.forest;
                sound = h.sound;
                holds = λ a b s. elim s [
                  | inl (at_a, at_b) ↦
                      rw (at_a, at_b)
                        (chain (h.joined at_f) (chain (flip h.here) (flip (h.joined at_t))))
                  | inr r ↦ h.joined (still_holds a b r)
                ];
                size = h.size ∙ c.size ∙ v.size;
              }

      unite-Valid :
          from < n → to < n → Ends (λ result. Valid n (And from to R) result.0) (unite from to d)
      unfolding unite
      unite-Valid in_f in_t =
          Ends->>=
            (find_representative_and_compress-Compressed R v.rank d.union_find_ranks from
              d.union_find_parents v.m v.view v.forest v.sound (omega (arith, v.size)))
            λ found_f (at_f, (m1, c1)).
              Ends->>=
                (find_representative_and_compress-Compressed R v.rank d.union_find_ranks to
                  found_f.1 m1 c1.view c1.forest c1.sound (omega (arith, c1.size, v.size)))
                λ found_t (at_t, (m2, c2)).
                  let c = Compressed-then R v.rank d.union_find_ranks c1 c2 in
                  let (ra, is_f) = Root-rank v.m at_f in
                  let (rb, is_t) = Root-rank m1 at_t in
                  let join_f = c.joined (Root-Joined v.m at_f) in
                  let join_t = c2.joined (Root-Joined m1 at_t) in
                  Ends-split (found_f.0 == found_t.0)
                    (λ same.
                      ends
                        (one_tree found_t.1 m2 c found_f.0 found_t.0 join_f join_t (ground arith)))
                    λ apart.
                      Ends->>=
                        (two_trees found_t.1 m2 c found_f.0 found_t.0 join_f join_t
                          (c.roots found_f.0 ra is_f) (c2.roots found_t.0 rb is_t) (ground arith))
                        λ d' h. ends h

  unite_loop-Valid :
      (n : ℕ) (edges : List (EdgeList.Edge W)) (R : ℕ → ℕ → Type 0) (d : DynamicConnectivity W)
      → Valid n R d
      → InRange n edges
      → Ends (Valid n (λ a b. Listed edges a b ⊎ R a b)) (unite_loop edges d)
  unfolding unite_loop
  unite_loop-Valid n [] R d v ok = ends (
      IsValid-same n R (λ a b. ⊥ ⊎ R a b) d.union_find_parents d.union_find_ranks (λ a b r. inr r)
        (λ a b s. elim s [ inl f ↦ absurd f | inr r ↦ r ]) v)
  unite_loop-Valid n (e ∷ edges) R d v (in_f, in_t, ok) =
      Ends->>= (unite-Valid n R d v e.from e.to in_f in_t) λ result v'.
        Ends-weaken (unite_loop-Valid n edges (And e.from e.to R) _ (kept result.0 result.1 v') ok)
          λ d'' v''.
            IsValid-same n _ _ d''.union_find_parents d''.union_find_ranks
              (λ a b s. elim s [
                | inl l ↦ inl (inr l)
                | inr t ↦ elim t [ inl f ↦ inl (inl f) | inr r ↦ inr r ]
              ])
              (λ a b s. elim s [
                | inl l ↦ elim l [ inl f ↦ inr (inl f) | inr l' ↦ inl l' ]
                | inr r ↦ inr (inr r)
              ])
              v''
    where
      kept :
          (d' : DynamicConnectivity W) (united : Bool)
          → Valid n (And e.from e.to R) d'
          → Valid n (And e.from e.to R) (
              if united
              then record d' {
                filtered_edges =
                    d'.filtered_edges
                    ++ e ∷ record { from = e.to; to = e.from; length = e.length } ∷ [];
              }
              else d')
      kept d' true w = w
      kept d' false w = w

  -- On a new `DynamicConnectivity` of the sequential build, with fewer nodes than the limit, the loop of
  -- `addEdges` over edges between nodes ends with no access out of bounds, and then `connected` ends
  -- for any two nodes, and answers true exactly when the edges join them.
  pub sequential_correct :
      (limit n : ℕ) (edges : List (EdgeList.Edge W))
      → n < limit
      → InRange n edges
      → Ends
          (λ d.
            (x y : ℕ)
            → x < n
            → y < n
            → Ends (λ answer. (answer ≡ true) ↔ Joined (Listed edges) x y) (connected d x y))
          (init limit n >>= λ d. unite_loop edges d)
  unfolding init
  sequential_correct limit n edges fits ok =
      let small : leb limit n ≡ false = ground arith in
      rw small (
        Ends-weaken (unite_loop-Valid n edges (λ a b. ⊥) _ (start-IsValid n) ok) λ d w.
          connected-decides n (Listed edges) d (
            IsValid-same n _ (Listed edges) d.union_find_parents d.union_find_ranks
              (λ a b s. elim s [ inl l ↦ l | inr f ↦ absurd f ]) (λ a b l. inl l) w))
