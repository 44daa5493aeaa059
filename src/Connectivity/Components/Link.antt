-- ===== src/Connectivity/Components/Link.antt =====
-- One step of the counter: the search for a representative, and a link of two roots.
use wt_lab_efficient_paral.Common.{
  ℕ, zero, suc, ◌+◌, ◌≤◌, ◌<◌, ◌≡◌, refl, ◌∙◌, ◌⊎◌, inl, inr, List, some, get_elem?, set, length,
  ◌==◌, Ends, ends, Ends-weaken, arith, Bool-cases, get_elem?-set, get_elem?-some, get_elem?-lt,
  length-set,
}
use wt_lab_efficient_paral.Connectivity.Joined.{Joined, edge, Joined-map, Less, Edge}
use wt_lab_efficient_paral.Connectivity.Concurrent
use wt_lab_efficient_paral.Connectivity.Concurrent.{ℤ, pos, negsuc}
use wt_lab_efficient_paral.Connectivity.Concurrent.Forest.{
  parent, pos-parent, IsSound, linked, Change-Later,
}
use wt_lab_efficient_paral.Connectivity.Concurrent.Roots.{
  Root, stop, go, find-pos, find-negsuc, entry_cases,
}
use wt_lab_efficient_paral.Connectivity.Components.{
  ComponentsCounter, find_representative, decrement, link, roots, roots-set, IsValid,
}

module _ (n : ℕ) (R : ℕ → ℕ → Type 0) (c : ComponentsCounter) (v : IsValid n R c) where
  abbrev m : List ℤ
  m = c.union_find

  find_up :
      (fuel x : ℕ)
      → x < n
      → n ≤ x + fuel
      → Ends (λ r. Root m x r) (Concurrent.find_representative fuel m x)
  find_up zero x inside room = absurd (omega arith)
  find_up (suc fuel) x inside room = elim (entry_cases m (get_elem? m x)) [
    | inl e ↦ let (w, f) = get_elem?-some m x (omega (arith, v.size)) in cc
    | inr (inl (p, e)) ↦
        let p_in = (v.forest.up x p e).1 in
        rw (find-pos m fuel x p e) (
          Ends-weaken (find_up fuel p (omega (arith, v.size, p_in)) (omega (arith, v.ups x p e)))
            λ r h. go e h)
    | inr (inr (r, e)) ↦ rw (find-negsuc m fuel x r e) (ends (stop e))
  ]

  pub find_representative-Root : (x : ℕ) → x < n → Ends (λ r. Root m x r) (find_representative m x)
  unfolding find_representative
  find_representative-Root x inside = find_up (length m) x inside (omega (arith, v.size))

  pub asked : {a b : ℕ} → Joined (Edge (parent m)) a b → Joined R a b
  asked j = Joined-map (λ a b e. v.sound a b (pos-parent (get_elem? m a) e)) j

  -- One link of a root below another one joins what `S` asks for.
  module _ (S : ℕ → ℕ → Type 0) (more : (a b : ℕ) → R a b → S a b) (lo hi : ℕ) where
    pub link-IsValid :
        {r r' : ℕ}
        → get_elem? m lo ≡ some (negsuc r)
        → get_elem? m hi ≡ some (negsuc r')
        → lo < hi
        → Joined S lo hi
        → ((a b : ℕ) → S a b → Joined (λ u w. Edge (parent m) u w ⊎ ((u ≡ lo) × (w ≡ hi))) a b)
        → IsValid n S (link lo hi c)
    unfolding link decrement
    link-IsValid {r} {r'} at_lo at_hi lt joins connects =
        let in_lo = get_elem?-lt m lo at_lo in
        let in_hi = get_elem?-lt m hi at_hi in
        let r_zero = v.ones lo r at_lo in
        let r'_zero = v.ones hi r' at_hi in
        let less : Less v.rank lo hi =
          inr (omega (arith, v.forest.root lo r at_lo, v.forest.root hi r' at_hi), lt) in
        let sound : IsSound S m =
          λ x p h. Joined-map (λ a b e. edge (more a b e)) (v.sound x p h) in
        let later =
          Change-Later S m v.rank v.forest sound (set m lo (pos hi))
            (linked lo hi r at_lo less in_hi joins refl) in
        let written = λ (x : ℕ). get_elem?-set m lo x (pos hi) in_lo in
        let here : parent (set m lo (pos hi)) lo ≡ some hi = ground (arith, written lo) in
        record {
          rank = later.rank';
          forest = later.forest;
          sound = later.sound;
          holds = λ a b s.
              Joined-map
                (λ u w e. elim e [
                  | inl old ↦ later.extends.joined u w (edge old)
                  | inr (at_u, at_w) ↦ rw (at_u, at_w) (edge here)
                ])
                (connects a b s);
          ups = λ x p h. elim (Bool-cases (lo == x)) [
            | inl same ↦ ground (arith, written x)
            | inr apart ↦ v.ups x p (ground (arith, written x))
          ];
          ones = λ x q h. v.ones x q (ground (arith, written x));
          size = length-set m lo (pos hi) ∙ v.size;
          counted =
              one_less c.num_components (roots m) (roots (set m lo (pos hi))) v.counted
                (roots-set m lo hi r at_lo);
        }
      where
        one_less : (k old new : ℕ) → k ≡ old → new + 1 ≡ old → decrement k ≡ new
        one_less zero old new e f = absurd (omega arith)
        one_less (suc k) old new e f = omega arith
