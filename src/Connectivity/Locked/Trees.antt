-- ===== src/Connectivity/Locked/Trees.antt =====
-- dynamic_connectivity_b.cpp: the parents as trees whose parents come first, and searches in them.
use native.Mathlib.Decide.{ℕ_discrete}
use wt_lab_efficient_paral.Common.{
  ℕ, zero, suc, ◌≤◌, ◌<◌, ◌≡◌, ◌≢◌, ◌↔◌, refl, sym, ◌∙◌, List, some, get_elem?, set, length, ◌==◌,
  arith, get_elem?-set, get_elem?-set_other, get_elem?-lt, get_elem?-some, Ends, ends, Ends-weaken,
  Ends-split, Ends->>=, Ends-of,
}
use wt_lab_efficient_paral.Connectivity.Joined.{Joined, self, edge, flip, chain, Joined-map}
use wt_lab_efficient_paral.Connectivity.Locked.{search, find_representative}

-- The parent of a node; a root is its own.
abbrev pub Up : List ℕ → ℕ → ℕ → Type 0
Up parents x p = get_elem? parents x ≡ some p

-- The trees join two nodes.
abbrev pub Joins : List ℕ → ℕ → ℕ → Type 0
Joins parents = Joined (Up parents)

pub data Root (parents : List ℕ) : ℕ → ℕ → Type 0 where
  is_root : {x : ℕ} → Up parents x x → Root parents x x
  above : {x p r : ℕ} → Up parents x p → p ≢ x → Root parents p r → Root parents x r

module _ (parents : List ℕ) where
  pub Root-unique : {x r r' : ℕ} → Root parents x r → Root parents x r' → r ≡ r'
  Root-unique (is_root h) (is_root h') = refl
  Root-unique (is_root h) (above h' ne k) = absurd (ne (ground arith))
  Root-unique (above h ne k) (is_root h') = absurd (ne (ground arith))
  Root-unique (above {p = p} h ne k) (above {p = q} h' ne' k') =
      let same : q ≡ p = ground arith in Root-unique k (rw same at k')

  pub Root-Joins : {x r : ℕ} → Root parents x r → Joins parents x r
  Root-Joins (is_root h) = self
  Root-Joins (above h ne k) = chain (edge h) (Root-Joins k)

  Root-up : {x p r : ℕ} → Root parents x r → Up parents x p → Root parents p r
  Root-up {x} {p} (is_root k) h = let same : p ≡ x = ground arith in rw same (is_root k)
  Root-up {x} {p} (above {p = q} k ne rest) h = let same : p ≡ q = ground arith in rw same rest

  Up-Root : {x p r : ℕ} → Up parents x p → Root parents x r ↔ Root parents p r
  Up-Root {x} {p} {r} h =
      (λ k. Root-up k h, λ k. elim (ℕ_discrete p x) [ yes e ↦ rw e at k | no ne ↦ above h ne k ])

  pub Joins-Root : {x y r : ℕ} → Joins parents x y → Root parents x r ↔ Root parents y r
  Joins-Root self = (λ k. k, λ k. k)
  Joins-Root (edge h) = Up-Root h
  Joins-Root (flip j) = let (to, from) = Joins-Root j in (from, to)
  Joins-Root (chain j k) =
      let (to, from) = Joins-Root j in
      let (to', from') = Joins-Root k in (λ r. to' (to r), λ r. from (from' r))

-- A parent does not come after its child.
abbrev pub IsOrdered : List ℕ → Type 0
IsOrdered parents = (x p : ℕ) → Up parents x p → p ≤ x

module _ (parents : List ℕ) (ordered : IsOrdered parents) where
  search-Root :
      (fuel node root : ℕ)
      → node < fuel
      → Up parents node root
      → Ends (Root parents node) (search fuel parents node root)
  unfolding search
  search-Root zero node root h up = absurd (omega arith)
  search-Root (suc fuel) node root h up =
      Ends-split (root == node)
        (λ same. let e : root ≡ node = ground arith in ends (rw e (is_root (rw e at up))))
        λ apart.
          let below = ordered node root up in
          let (next, up') =
            get_elem?-some parents root (omega (arith, below, get_elem?-lt parents node up)) in
          let ne : root ≢ node = λ e. ground arith in
          Ends->>= (Ends-of next up' up') λ p at_root.
            Ends-weaken (search-Root fuel root p (omega (arith, below, ne)) at_root)
              λ r k. above up ne k

  pub find_representative-Root :
      (fuel node : ℕ)
      → node < fuel
      → node < length parents
      → Ends (Root parents node) (find_representative fuel parents node)
  unfolding find_representative
  find_representative-Root fuel node h inside =
      let (root, up) = get_elem?-some parents node inside in
      Ends->>= (Ends-of root up up) λ p at_node. search-Root fuel node p h at_node

-- `union_find_parents[b] = a`, for a root `b`.
module _ (parents : List ℕ) (a b : ℕ) (root_b : Up parents b b) where
  pub Up-link : Up (set parents b a) b a
  Up-link = ground (arith, get_elem?-set parents b b a (get_elem?-lt parents b root_b))

  pub Joins-link : {u v : ℕ} → Joins parents u v → Joins (set parents b a) u v
  Joins-link j =
      Joined-map
        (λ x p up. elim (ℕ_discrete b x) [
          | yes e ↦ let same : p ≡ x = ground arith in rw same self
          | no ne ↦ edge (get_elem?-set_other parents b x a ne ∙ up)
        ])
        j

  -- The parents after it are the old ones, and `a` for `b`.
  pub link_cases :
      (P : ℕ → ℕ → Type 0)
      → ((x p : ℕ) → Up parents x p → P x p)
      → P b a
      → (x p : ℕ) → Up (set parents b a) x p
      → P x p
  link_cases P old new x p up = elim (ℕ_discrete b x) [
    | yes e ↦
        let written = get_elem?-set parents b b a (get_elem?-lt parents b root_b) in
        let same : p ≡ a = ground arith in rw (← e, same) new
    | no ne ↦ old x p (sym (get_elem?-set_other parents b x a ne) ∙ up)
  ]
