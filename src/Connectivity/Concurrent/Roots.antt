-- ===== src/Connectivity/Concurrent/Roots.antt =====
-- The root of a node in a forest: it is unique, `find_representative` ends in it, and joined nodes
-- have the same.
use native.Mathlib.Decide.{ℕ_discrete}
use wt_lab_efficient_paral.Common.{
  ℕ, zero, suc, ◌+◌, ◌-◌, ◌*◌, ◌≤◌, ◌<◌, ◌≡◌, ◌↔◌, refl, sym, ap, ◌∙◌, ◌⊎◌, inl, inr, List, Option,
  none, some, get_elem?, length, arith, get_elem?-some, Ends, ends, Ends-weaken,
}
use wt_lab_efficient_paral.Connectivity.Joined.{Joined, self, edge, flip, chain, Less, Edge}
use wt_lab_efficient_paral.Connectivity.Concurrent.{ℤ, pos, negsuc, find_representative}
use wt_lab_efficient_paral.Connectivity.Concurrent.Forest.{parent, pos-parent, parent-pos, IsForest}

pub data Root (m : List ℤ) : ℕ → ℕ → Type 0 where
  stop : {x r : ℕ} → get_elem? m x ≡ some (negsuc r) → Root m x x
  go : {x p y : ℕ} → get_elem? m x ≡ some (pos p) → Root m p y → Root m x y

module _ (m : List ℤ) where
  pub Root-unique : {x y z : ℕ} → Root m x y → Root m x z → y ≡ z
  Root-unique (stop h) (stop k) = refl
  Root-unique (stop h) (go k r) = cc
  Root-unique (go h r) (stop k) = cc
  Root-unique (go {x} {p} h r) (go {p = q} k s) = let same : p ≡ q = cc in Root-unique r (rw same s)

  pub Root-above : {x p z : ℕ} → get_elem? m x ≡ some (pos p) → Root m x z → Root m p z
  Root-above h (stop k) = cc
  Root-above {x} {p} {z} h (go {p = q} k r) = let same : p ≡ q = cc in rw same r

  Edge-Root : {x y z : ℕ} → parent m x ≡ some y → Root m x z ↔ Root m y z
  Edge-Root {x} {y} {z} e = let at_x = pos-parent (get_elem? m x) e in (Root-above at_x, go at_x)

  pub Root-rank : {x y : ℕ} → Root m x y → (r : ℕ) × (get_elem? m y ≡ some (negsuc r))
  Root-rank (stop {r} h) = (r, h)
  Root-rank (go h r) = Root-rank r

  pub Joined-Root : {x y z : ℕ} → Joined (Edge (parent m)) x y → Root m x z ↔ Root m y z
  Joined-Root self = (λ r. r, λ r. r)
  Joined-Root (edge e) = Edge-Root e
  Joined-Root (flip j) = let (to, from) = Joined-Root j in (from, to)
  Joined-Root (chain j k) =
      let (to, from) = Joined-Root j in
      let (to', from') = Joined-Root k in (λ r. to' (to r), λ r. from (from' r))

  pub Root-Joined : {x y : ℕ} → Root m x y → Joined (Edge (parent m)) x y
  Root-Joined (stop h) = self
  Root-Joined (go {x} h r) = chain (edge (parent-pos m x h)) (Root-Joined r)

  pub find-pos :
      (fuel x p : ℕ)
      → get_elem? m x ≡ some (pos p)
      → find_representative (suc fuel) m x ≡ find_representative fuel m p
  unfolding find_representative
  find-pos fuel x p h = rw (h, find_representative) refl

  pub find-negsuc :
      (fuel x r : ℕ) → get_elem? m x ≡ some (negsuc r) → find_representative (suc fuel) m x ≡ some x
  unfolding find_representative
  find-negsuc fuel x r h = rw (h, find_representative) refl

  find-none : (fuel x : ℕ) → get_elem? m x ≡ none → find_representative (suc fuel) m x ≡ none
  unfolding find_representative
  find-none fuel x h = rw (h, find_representative) refl

  pub entry_cases :
      (o : Option ℤ)
      → (o ≡ none) ⊎ (((p : ℕ) × (o ≡ some (pos p))) ⊎ ((r : ℕ) × (o ≡ some (negsuc r))))
  entry_cases none = inl refl
  entry_cases (some (pos p)) = inr (inl (p, refl))
  entry_cases (some (negsuc r)) = inr (inr (r, refl))

  pub find_representative-Root : (fuel x y : ℕ) → find_representative fuel m x ≡ some y → Root m x y
  unfolding find_representative
  find_representative-Root zero x y h = cc
  find_representative-Root (suc fuel) x y h = elim (entry_cases (get_elem? m x)) [
    | inl e ↦ cc (find-none fuel x e)
    | inr (inl (p, e)) ↦ go e (find_representative-Root fuel p y (sym (find-pos fuel x p e) ∙ h))
    | inr (inr (r, e)) ↦ let same : x ≡ y = cc (find-negsuc fuel x r e) in rw (← same) (stop e)
  ]

  -- A number above all ranks.
  bound_of : (rank : ℕ → ℕ) → ℕ → ℕ
  bound_of rank zero = 0
  bound_of rank (suc n) = bound_of rank n + rank n

  bound_of-le : (rank : ℕ → ℕ) (n x : ℕ) → x < n → rank x ≤ bound_of rank n
  unfolding bound_of
  bound_of-le rank zero x h = absurd (omega arith)
  bound_of-le rank (suc n) x h = elim (ℕ_discrete x n) [
    | yes e ↦ omega (arith, ap rank e)
    | no ne ↦ omega (arith, bound_of-le rank n x (omega arith))
  ]

  module _ (rank : ℕ → ℕ) (forest : IsForest m rank) where
    -- The place of a node in the order, as a number.
    place : ℕ → ℕ
    place x = rank x * length m + x

    Less-place : (x y : ℕ) → x < length m → Less rank x y → place x < place y
    unfolding place
    Less-place x y inside (inl h) =
        let more : rank y ≡ rank x + 1 + (rank y - rank x - 1) = omega arith in
        omega (arith, ap (λ (t : ℕ). t * length m) more)
    Less-place x y inside (inr (e, lt)) = omega (arith, ap (λ (t : ℕ). t * length m) e)

    top : ℕ
    top = bound_of rank (length m) * length m + length m

    place-lt : (x : ℕ) → x < length m → place x < top
    unfolding place top
    place-lt x inside =
        let low = bound_of-le rank (length m) x inside in
        let more : bound_of rank (length m) ≡ rank x + (bound_of rank (length m) - rank x) =
          omega arith in
        omega (arith, ap (λ (t : ℕ). t * length m) more)

    -- Fuel for as many places as there are above a node is enough.
    find_from :
        (fuel x : ℕ)
        → x < length m
        → top < place x + fuel
        → Ends (λ y. Root m x y) (find_representative fuel m x)
    find_from zero x inside room = absurd (omega (arith, place-lt x inside))
    find_from (suc fuel) x inside room = elim (entry_cases (get_elem? m x)) [
      | inl e ↦ let (v, f) = get_elem?-some m x inside in cc
      | inr (inl (p, e)) ↦
          let (less, p_in) = forest.up x p e in
          rw (find-pos fuel x p e) (
            Ends-weaken (find_from fuel p p_in (omega (arith, Less-place x p inside less)))
              λ y r. go e r)
      | inr (inr (r, e)) ↦ rw (find-negsuc fuel x r e) (ends (stop e))
    ]

    -- One amount of fuel is enough for all nodes.
    pub find_representative-ends :
        (fuel : ℕ) × ((x : ℕ)
          → x < length m
          → Ends (λ y. Root m x y) (find_representative fuel m x))
    find_representative-ends = (suc top, λ x inside. find_from (suc top) x inside (omega arith))
