-- ===== src/Connectivity/Components/Correct.antt =====
-- The counter after any calls of `addEdges`: representatives tell what the edges join, and the number
-- of components is the number of representatives.
use wt_lab_efficient_paral.Common.{
  ℕ, zero, suc, ◌<◌, ◌≡◌, ◌≢◌, ◌↔◌, refl, ap, ◌⊎◌, inl, inr, List, [], ◌∷◌, length, replicate, ◌==◌,
  ltb, Ends, ends, Ends-value, Ends-weaken, Ends->>=, arith, Bool-cases, if◌then◌else◌,
  length-replicate, replicate-entry,
}
use wt_lab_efficient_paral.Connectivity.Joined.{Joined, edge, flip, chain, Joined-map, Edge}
use wt_lab_efficient_paral.Connectivity.Concurrent.{negsuc}
use wt_lab_efficient_paral.Connectivity.Concurrent.Forest.{parent}
use wt_lab_efficient_paral.Connectivity.Concurrent.Roots.{
  Root, Root-unique, Root-rank, Root-Joined, Joined-Root,
}
use wt_lab_efficient_paral.Connectivity.Components.{
  ComponentsCounter, init, find_representative, link, add_edge, add_edges, roots, IsValid,
}
use wt_lab_efficient_paral.Connectivity.Components.Link.{
  find_representative-Root, asked, link-IsValid,
}

-- The relation with one more edge.
abbrev And : ℕ → ℕ → (ℕ → ℕ → Type 0) → ℕ → ℕ → Type 0
And from to R a b = ((a ≡ from) × (b ≡ to)) ⊎ R a b

-- What a list of edges asks for.
abbrev pub Listed : List (ℕ × ℕ) → ℕ → ℕ → Type 0
Listed [] a b = ⊥
Listed ((from, to) ∷ edges) a b = ((a ≡ from) × (b ≡ to)) ⊎ Listed edges a b

abbrev pub InRange : ℕ → List (ℕ × ℕ) → Type 0
InRange n [] = Unit
InRange n ((from, to) ∷ edges) = (from < n) × (to < n) × InRange n edges

module _ (n : ℕ) where
  IsValid-same :
      (R S : ℕ → ℕ → Type 0) (c : ComponentsCounter)
      → ((a b : ℕ) → R a b → S a b)
      → ((a b : ℕ) → S a b → R a b)
      → IsValid n R c
      → IsValid n S c
  IsValid-same R S c to from v = record {
    rank = v.rank;
    forest = v.forest;
    sound = λ x p h. Joined-map (λ a b e. edge (to a b e)) (v.sound x p h);
    holds = λ a b s. v.holds a b (from a b s);
    ups = v.ups;
    ones = v.ones;
    size = v.size;
    counted = v.counted;
  }

  module _ (R : ℕ → ℕ → Type 0) (c : ComponentsCounter) (v : IsValid n R c) (from to : ℕ) where
    abbrev Links : (lo hi : ℕ) → ℕ → ℕ → Type 0
    Links lo hi u w = Edge (parent c.union_find) u w ⊎ ((u ≡ lo) × (w ≡ hi))

    wider : {a b : ℕ} → Joined (Edge (parent c.union_find)) a b → Joined (And from to R) a b
    wider j = Joined-map (λ a b e. edge (inr e)) (asked n R c v j)

    module _ (rf rt : ℕ) (at_f : Root c.union_find from rf) (at_t : Root c.union_find to rt) where
      joins_roots : Joined (And from to R) rf rt
      joins_roots =
          chain (flip (wider (Root-Joined c.union_find at_f)))
            (chain (edge (inl (refl, refl))) (wider (Root-Joined c.union_find at_t)))

      -- A path from root to root connects the two nodes.
      connects :
          (lo hi : ℕ)
          → Joined (Links lo hi) rf rt
          → (a b : ℕ) → And from to R a b
          → Joined (Links lo hi) a b
      connects lo hi j a b (inr r) = Joined-map (λ u w e. edge (inl e)) (v.holds a b r)
      connects lo hi j a b (inl (e, e')) =
          let up : Joined (Links lo hi) from rf =
            Joined-map (λ u w e. edge (inl e)) (Root-Joined c.union_find at_f) in
          let down : Joined (Links lo hi) to rt =
            Joined-map (λ u w e. edge (inl e)) (Root-Joined c.union_find at_t) in
          rw (e, e') (chain up (chain j (flip down)))

      same_root : rf ≡ rt → IsValid n (And from to R) c
      same_root e = record {
        rank = v.rank;
        forest = v.forest;
        sound = λ x p h. Joined-map (λ a b r. edge (inr r)) (v.sound x p h);
        holds = λ a b s. elim s [
          | inl (at_a, at_b) ↦
              rw (at_a, at_b)
                (chain (Root-Joined c.union_find at_f)
                  (flip (rw e (Root-Joined c.union_find at_t))))
          | inr r ↦ v.holds a b r
        ];
        ups = v.ups;
        ones = v.ones;
        size = v.size;
        counted = v.counted;
      }

      link_roots :
          rf ≢ rt → IsValid n (And from to R) (if ltb rt rf then link rt rf c else link rf rt c)
      link_roots ne =
          let (r, is_f) = Root-rank c.union_find at_f in
          let (r', is_t) = Root-rank c.union_find at_t in
          elim (Bool-cases (ltb rt rf)) [
            | inl below ↦ rw below (
                link-IsValid n R c v (And from to R) (λ a b e. inr e) rt rf is_t is_f (ground arith)
                  (flip joins_roots) (connects rt rf (flip (edge (inr (refl, refl))))))
            | inr above ↦ rw above (
                link-IsValid n R c v (And from to R) (λ a b e. inr e) rf rt is_f is_t (ground arith)
                  joins_roots (connects rf rt (edge (inr (refl, refl)))))
          ]

    add_edge-IsValid : from < n → to < n → Ends (IsValid n (And from to R)) (add_edge from to c)
    unfolding add_edge
    add_edge-IsValid in_f in_t =
        let (rf, is_f, at_f) = Ends-value (find_representative-Root n R c v from in_f) in
        let (rt, is_t, at_t) = Ends-value (find_representative-Root n R c v to in_t) in
        rw (is_f, is_t)
          (ends (elim (Bool-cases (rf == rt)) [
            | inl same ↦ rw same (same_root rf rt at_f at_t (ground arith))
            | inr apart ↦ rw apart (link_roots rf rt at_f at_t (ground arith))
          ]))

  add_edges-IsValid :
      (edges : List (ℕ × ℕ)) (R : ℕ → ℕ → Type 0) (c : ComponentsCounter)
      → IsValid n R c
      → InRange n edges
      → Ends (IsValid n (λ a b. Listed edges a b ⊎ R a b)) (add_edges edges c)
  unfolding add_edges
  add_edges-IsValid [] R c v ok = ends (
      IsValid-same R (λ a b. ⊥ ⊎ R a b) c (λ a b r. inr r)
        (λ a b s. elim s [ inl f ↦ absurd f | inr r ↦ r ]) v)
  add_edges-IsValid ((from, to) ∷ edges) R c v (in_f, in_t, ok) =
      Ends->>= (add_edge-IsValid R c v from to in_f in_t) λ c' v'.
        Ends-weaken (add_edges-IsValid edges (And from to R) c' v' ok) λ c'' v''.
          IsValid-same _ _ c''
            (λ a b s. elim s [
              | inl l ↦ inl (inr l)
              | inr t ↦ elim t [ inl e ↦ inl (inl e) | inr r ↦ inr r ]
            ])
            (λ a b s. elim s [
              | inl l ↦ elim l [ inl e ↦ inr (inl e) | inr l' ↦ inl l' ]
              | inr r ↦ inr (inr r)
            ])
            v''

  init-IsValid : IsValid n (λ a b. ⊥) (init n)
  unfolding init
  init-IsValid = record {
    rank = λ x. 1;
    forest = record {
      root = λ x r h. let e = replicate-entry n x (negsuc 0) h in cc;
      up = λ x q h. let e = replicate-entry n x (negsuc 0) h in cc;
    };
    sound = λ x q h. let e = replicate-entry n x (negsuc 0) h in cc;
    holds = λ a b f. absurd f;
    ups = λ x q h. let e = replicate-entry n x (negsuc 0) h in cc;
    ones = λ x r h. let e = replicate-entry n x (negsuc 0) h in cc;
    size = length-replicate n (negsuc 0);
    counted = fresh_roots n;
  }
    where
      fresh_roots : (k : ℕ) → k ≡ roots (replicate k (negsuc 0))
      fresh_roots zero = refl
      fresh_roots (suc k) = ap suc (fresh_roots k)

  decides :
      (R : ℕ → ℕ → Type 0) (c : ComponentsCounter) (v : IsValid n R c)
      → {x y r r' : ℕ} → Root c.union_find x r
      → Root c.union_find y r'
      → (r ≡ r') ↔ Joined R x y
  decides R c v at_x at_y = (
    λ e.
        asked n R c v
          (chain (Root-Joined c.union_find at_x) (flip (rw e (Root-Joined c.union_find at_y)))),
    λ j.
        let joins = Joined-map (λ a b e. v.holds a b e) j in
        Root-unique c.union_find ((Joined-Root c.union_find joins).0 at_x) at_y,
  )

  -- On a new counter with `n` nodes, `addEdges` of edges between nodes ends. Then the search for a
  -- representative ends from every node, two nodes have the same representative exactly when the edges
  -- join them, and `num_components` is the number of nodes that are no child of another.
  pub components_correct :
      (edges : List (ℕ × ℕ))
      → InRange n edges
      → Ends
          (λ c.
            (c.num_components ≡ roots c.union_find)
            × (length c.union_find ≡ n)
            × ((x y : ℕ)
                → x < n
                → y < n
                → Ends
                    (λ r.
                      Ends
                        (λ r'. (r ≡ r') ↔ Joined (Listed edges) x y)
                        (find_representative c.union_find y))
                    (find_representative c.union_find x)))
          (add_edges edges (init n))
  components_correct edges ok =
      Ends-weaken (add_edges-IsValid edges (λ a b. ⊥) (init n) init-IsValid ok) λ c w.
        let v : IsValid n (Listed edges) c =
          IsValid-same _ (Listed edges) c (λ a b s. elim s [ inl l ↦ l | inr f ↦ absurd f ])
            (λ a b l. inl l) w in
        (
          v.counted,
          v.size,
          λ x y in_x in_y.
              Ends-weaken (find_representative-Root n (Listed edges) c v x in_x) λ r at_x.
                Ends-weaken (find_representative-Root n (Listed edges) c v y in_y)
                  λ r' at_y. decides (Listed edges) c v at_x at_y,
        )
