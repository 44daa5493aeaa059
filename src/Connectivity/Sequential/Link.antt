-- ===== src/Connectivity/Sequential/Link.antt =====
-- Union by rank in the sequential union-find: one root is hung below another one.
use native.Mathlib.Decide.{ℕ_discrete}
use wt_lab_efficient_paral.Common.{
  ℕ, suc, ◌+◌, ◌≤◌, ◌<◌, ◌≡◌, ◌≢◌, refl, sym, ap, ◌∙◌, inl, inr, List, some, get_elem?, set, length,
  ◌==◌, ltb, Ends, ends, Ends-weaken, Ends-split, arith, Bool-cases, get_elem?-set, get_elem?-some,
  get_elem?-lt, length-set,
}
use wt_lab_efficient_paral.Connectivity.Joined.{Joined, edge, flip, Less, Edge}
use wt_lab_efficient_paral.Connectivity.Concurrent.{ℤ, pos, negsuc}
use wt_lab_efficient_paral.Connectivity.Concurrent.Forest.{
  parent, parent-pos, IsForest, IsSound, linked, raised, Change-Later,
}
use wt_lab_efficient_paral.Connectivity.Sequential.{DynamicConnectivity, link, join_roots}
use wt_lab_efficient_paral.Connectivity.Sequential.View.{View}

-- A forest for the arrays, whose edges `S` asks for, with an edge from `b` to `a` or back, and in which
-- all that `m` joins is joined.
pub record Hung (S : ℕ → ℕ → Type 0) (m : List ℤ) (a b : ℕ) (parents ranks : List ℕ) : Type 0 where
  pub m' : List ℤ
  pub rank' : ℕ → ℕ
  pub view : View parents ranks m'
  pub forest : IsForest m' rank'
  pub sound : IsSound S m'
  pub joined : {u w : ℕ} → Joined (Edge (parent m)) u w → Joined (Edge (parent m')) u w
  pub here : Joined (Edge (parent m')) b a
  pub size : length m' ≡ length m

module _ (S : ℕ → ℕ → Type 0) (parents : List ℕ) where
  -- A root has itself as parent and its rank in the ranks.
  root_entries :
      (ranks : List ℕ) (m : List ℤ)
      → View parents ranks m
      → {x k : ℕ} → get_elem? m x ≡ some (negsuc k)
      → (get_elem? parents x ≡ some x) × (get_elem? ranks x ≡ some k)
  root_entries ranks m view {x} {k} is_root =
      let inside = get_elem?-lt m x is_root in
      let (p, at_x) = get_elem?-some parents x (omega (arith, view.size)) in
      let (r, at_r) = get_elem?-some ranks x (omega (arith, view.size_ranks)) in
      elim (ℕ_discrete p x) [
        | yes e ↦
            let own : get_elem? parents x ≡ some x = at_x ∙ ap some e in
            let entry = view.root x r own at_r in
            let same : r ≡ k = cc in (own, at_r ∙ ap some same)
        | no ne ↦ let entry = view.child x p at_x ne in cc
      ]

  module _ (ranks : List ℕ) (m : List ℤ) (rank : ℕ → ℕ) (view : View parents ranks m)
      (forest : IsForest m rank) (sound : IsSound S m) where
    hang :
        (a b k : ℕ)
        → get_elem? m b ≡ some (negsuc k)
        → Less rank b a
        → a < length m
        → a ≢ b
        → Joined S b a
        → Hung S m a b (set parents b a) ranks
    hang a b k is_root less a_in apart asked =
        let in_m = get_elem?-lt m b is_root in
        let in_p : b < length parents = omega (arith, view.size) in
        let later =
          Change-Later S m rank forest sound (set m b (pos a))
            (linked b a k is_root less a_in asked refl) in
        let written = λ (c : ℕ). get_elem?-set parents b c a in_p in
        let written_m = λ (c : ℕ). get_elem?-set m b c (pos a) in_m in
        let at_b : get_elem? (set m b (pos a)) b ≡ some (pos a) = ground (arith, written_m b) in
        record {
          m' = set m b (pos a);
          rank' = later.rank';
          view = record {
            size = length-set parents b a ∙ view.size ∙ sym (length-set m b (pos a));
            size_ranks = view.size_ranks ∙ sym (length-set m b (pos a));
            child = λ c q h ne. elim (Bool-cases (b == c)) [
              | inl same ↦
                  let there : some a ≡ some q = sym (written c ∙ rw same refl) ∙ h in
                  let e : a ≡ q = cc in written_m c ∙ rw same (ap (λ t. some (pos t)) e)
              | inr different ↦
                  written_m c
                  ∙ rw different (view.child c q (sym (written c ∙ rw different refl) ∙ h) ne)
            ];
            root = λ c r h at_r. elim (Bool-cases (b == c)) [
              | inl same ↦
                  let there : some a ≡ some c = sym (written c ∙ rw same refl) ∙ h in
                  let e : a ≡ c = cc in let e' : b ≡ c = ground arith in absurd (apart (e ∙ sym e'))
              | inr different ↦
                  written_m c
                  ∙ rw different (view.root c r (sym (written c ∙ rw different refl) ∙ h) at_r)
            ];
          };
          forest = later.forest;
          sound = later.sound;
          joined = λ j. later.extends.joined _ _ j;
          here = edge (parent-pos (set m b (pos a)) b at_b);
          size = length-set m b (pos a);
        }

    raise-View :
        (a k : ℕ)
        → get_elem? m a ≡ some (negsuc k)
        → View parents (set ranks a (k + 1)) (set m a (negsuc (suc k)))
    raise-View a k is_root =
        let in_m = get_elem?-lt m a is_root in
        let in_r : a < length ranks = omega (arith, view.size_ranks) in
        let own = (root_entries ranks m view is_root).0 in
        let written = λ (c : ℕ). get_elem?-set ranks a c (k + 1) in_r in
        let written_m = λ (c : ℕ). get_elem?-set m a c (negsuc (suc k)) in_m in
        record {
          size = view.size ∙ sym (length-set m a (negsuc (suc k)));
          size_ranks =
              length-set ranks a (k + 1) ∙ view.size_ranks ∙ sym (length-set m a (negsuc (suc k)));
          child = λ c q h ne. elim (Bool-cases (a == c)) [
            | inl same ↦
                let e : a ≡ c = ground arith in
                let there : get_elem? parents c ≡ some a = ap (get_elem? parents) (sym e) ∙ own in
                let q_a : q ≡ a = cc in absurd (ne (q_a ∙ e))
            | inr different ↦ written_m c ∙ rw different (view.child c q h ne)
          ];
          root = λ c r h at_r. elim (Bool-cases (a == c)) [
            | inl same ↦
                let there : some (k + 1) ≡ some r = sym (written c ∙ rw same refl) ∙ at_r in
                let e : k + 1 ≡ r = cc in
                written_m c ∙ rw same (ap (λ t. some (negsuc t)) (omega arith))
            | inr different ↦
                written_m c
                ∙ rw different (view.root c r h (sym (written c ∙ rw different refl) ∙ at_r))
          ];
        }

  module _ (ranks : List ℕ) (m : List ℤ) (rank : ℕ → ℕ) (view : View parents ranks m)
      (forest : IsForest m rank) (sound : IsSound S m) where
    -- Of two roots with the same rank, the one that stays is raised first.
    hang_equal :
        (a b k : ℕ)
        → get_elem? m a ≡ some (negsuc k)
        → get_elem? m b ≡ some (negsuc k)
        → a ≢ b
        → Joined S b a
        → Hung S m a b (set parents b a) (set ranks a (k + 1))
    hang_equal a b k root_a root_b apart asked =
        let in_m = get_elem?-lt m a root_a in
        let m1 : List ℤ = set m a (negsuc (suc k)) in
        let later = Change-Later S m rank forest sound m1 (raised a k root_a refl) in
        let written = λ (c : ℕ). get_elem?-set m a c (negsuc (suc k)) in_m in
        let at_a : get_elem? m1 a ≡ some (negsuc (suc k)) = ground (arith, written a) in
        let at_b : get_elem? m1 b ≡ some (negsuc k) = ground (arith, written b) in
        let less : Less later.rank' b a =
          inl (omega (arith, later.forest.root a (suc k) at_a, later.forest.root b k at_b)) in
        let h =
          hang (set ranks a (k + 1)) m1 later.rank'
            (raise-View ranks m rank view forest sound a k root_a) later.forest later.sound a b k
            at_b less (omega (arith, length-set m a (negsuc (suc k)), in_m)) apart asked in
        record {
          m' = h.m';
          rank' = h.rank';
          view = h.view;
          forest = h.forest;
          sound = h.sound;
          joined = λ j. h.joined (later.extends.joined _ _ j);
          here = h.here;
          size = h.size ∙ length-set m a (negsuc (suc k));
        }

  module _ {W : Type 0} (d : DynamicConnectivity W) (m : List ℤ) (rank : ℕ → ℕ)
      (view : View parents d.union_find_ranks m) (forest : IsForest m rank)
      (sound : IsSound S m) where
    link-Hung :
        (a b ka kb : ℕ)
        → get_elem? m a ≡ some (negsuc ka)
        → get_elem? m b ≡ some (negsuc kb)
        → kb ≤ ka
        → a ≢ b
        → Joined S b a
        → Ends (λ d'. Hung S m a b d'.union_find_parents d'.union_find_ranks) (link a b parents d)
    unfolding link
    link-Hung a b ka kb root_a root_b order apart asked =
        let rank_a = (root_entries d.union_find_ranks m view root_a).1 in
        let rank_b = (root_entries d.union_find_ranks m view root_b).1 in
        rw (rank_a, rank_b)
          (ends (elim (Bool-cases (ka == kb)) [
            | inl same ↦
                let e : kb ≡ ka = ground arith in
                rw same (
                  hang_equal d.union_find_ranks m rank view forest sound a b ka root_a
                    (root_b ∙ ap (λ t. some (negsuc t)) e) apart asked)
            | inr different ↦
                let lower : kb < ka = ground arith in
                let less : Less rank b a =
                  inl (omega (arith, forest.root a ka root_a, forest.root b kb root_b)) in
                rw different (
                  hang d.union_find_ranks m rank view forest sound a b kb root_b less
                    (get_elem?-lt m a root_a) apart asked)
          ]))

    pub join_roots-Hung :
        (a b ka kb : ℕ)
        → get_elem? m a ≡ some (negsuc ka)
        → get_elem? m b ≡ some (negsuc kb)
        → a ≢ b
        → Joined S b a
        → Ends
            (λ d'. Hung S m a b d'.union_find_parents d'.union_find_ranks)
            (join_roots a b parents d)
    unfolding join_roots
    join_roots-Hung a b ka kb root_a root_b apart asked =
        let rank_a = (root_entries d.union_find_ranks m view root_a).1 in
        let rank_b = (root_entries d.union_find_ranks m view root_b).1 in
        rw (rank_a, rank_b)
          (Ends-split (ltb ka kb)
            (λ lower.
              Ends-weaken
                (link-Hung b a kb ka root_b root_a (ground arith) (λ e. apart (sym e)) (flip asked))
                λ d' h. record {
                  m' = h.m';
                  rank' = h.rank';
                  view = h.view;
                  forest = h.forest;
                  sound = h.sound;
                  joined = h.joined;
                  here = flip h.here;
                  size = h.size;
                })
            λ higher. link-Hung a b ka kb root_a root_b (ground arith) apart asked)
