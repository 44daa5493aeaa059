-- ===== src/Connectivity/Sequential/Compress.antt =====
-- Path compression in the sequential union-find keeps what the forest joins.
use native.Mathlib.Decide.{ℕ_discrete}
use wt_lab_efficient_paral.Common.{
  ℕ, zero, suc, ◌<◌, ◌≡◌, ◌≢◌, refl, sym, ap, ◌∙◌, inl, inr, true, false, List, some, get_elem?,
  set, length, ◌==◌, Ends, ends, Ends-weaken, arith, Bool-cases, get_elem?-set, get_elem?-some,
  get_elem?-lt, length-set, Ends->>=,
}
use wt_lab_efficient_paral.Connectivity.Joined.{
  Joined, edge, chain, self, Joined-map, Less, Less-trans, Edge, EdgeAbove, compress-Joined,
}
use wt_lab_efficient_paral.Connectivity.Concurrent.{ℤ, pos, negsuc}
use wt_lab_efficient_paral.Connectivity.Concurrent.Forest.{
  parent, parent-pos, pos-parent, parent-set, IsForest, IsSound, set-IsForest, set-IsSound,
}
use wt_lab_efficient_paral.Connectivity.Concurrent.Roots.{
  Root, stop, go, Root-rank, Root-Joined, Root-unique, Root-above, Joined-Root,
}
use wt_lab_efficient_paral.Connectivity.Sequential.{compress_loop, find_representative_and_compress}
use wt_lab_efficient_paral.Connectivity.Sequential.View.{
  View, node_cases, above_count, above_count-lt, above_count-Less, find_representative-Root,
}

-- A path to the root leads up, over edges that start above any node below it.
path-above :
    (m : List ℤ) (rank : ℕ → ℕ) (forest : IsForest m rank) (k : ℕ) {x y : ℕ}
    → Less rank k x
    → Root m x y
    → Joined (EdgeAbove rank (parent m) k) x y × Less rank k y
path-above m rank forest k less (stop h) = (self, less)
path-above m rank forest k {x} less (go {p} h r) =
    let up = (forest.up x p h).0 in
    let (rest, less') = path-above m rank forest k (Less-trans rank k x p less up) r in
    (chain (edge (parent-pos m x h, less)) rest, less')

-- The forest `m'` has the roots of `m`, and joins what `m` joins.
pub record Compressed (R : ℕ → ℕ → Type 0) (m : List ℤ) (rank : ℕ → ℕ) (ranks : List ℕ)
    (parents' : List ℕ) (m' : List ℤ) : Type 0 where
  pub view : View parents' ranks m'
  pub forest : IsForest m' rank
  pub sound : IsSound R m'
  pub joined : {u w : ℕ} → Joined (Edge (parent m)) u w → Joined (Edge (parent m')) u w
  pub roots : (x r : ℕ) → get_elem? m x ≡ some (negsuc r) → get_elem? m' x ≡ some (negsuc r)
  pub size : length m' ≡ length m

module _ (R : ℕ → ℕ → Type 0) (rank : ℕ → ℕ) (ranks : List ℕ) where
  module _ (parents : List ℕ) (m : List ℤ) (view : View parents ranks m) (forest : IsForest m rank)
      (sound : IsSound R m) where
    unchanged : Compressed R m rank ranks parents m
    unchanged = record {
      view = view;
      forest = forest;
      sound = sound;
      joined = λ j. j;
      roots = λ x r h. h;
      size = refl;
    }

    redirected :
        (x p y : ℕ)
        → get_elem? parents x ≡ some p
        → p ≢ x
        → x ≢ y
        → get_elem? m x ≡ some (pos p)
        → y < length m
        → Root m p y
        → Compressed R m rank ranks (set parents x y) (set m x (pos y))
    redirected x p y at_x ne apart at_m y_in r =
        let inside = get_elem?-lt parents x at_x in
        let inside_m = get_elem?-lt m x at_m in
        let (less_p, p_in) = forest.up x p at_m in
        let (above, less) = path-above m rank forest x less_p r in
        let asked : Joined R x y =
          chain (sound x p at_m)
            (Joined-map (λ a b e. sound a b (pos-parent (get_elem? m a) e.0)) above) in
        let written = λ (c : ℕ). get_elem?-set parents x c y inside in
        let written_m = λ (c : ℕ). get_elem?-set m x c (pos y) inside_m in
        record {
          view = record {
            size = length-set parents x y ∙ view.size ∙ sym (length-set m x (pos y));
            size_ranks = view.size_ranks ∙ sym (length-set m x (pos y));
            child = λ c q h ne'. elim (Bool-cases (x == c)) [
              | inl same ↦
                  let there : some y ≡ some q = sym (written c ∙ rw same refl) ∙ h in
                  let e : y ≡ q = cc in written_m c ∙ rw same (ap (λ t. some (pos t)) e)
              | inr different ↦
                  written_m c
                  ∙ rw different (view.child c q (sym (written c ∙ rw different refl) ∙ h) ne')
            ];
            root = λ c k h at_k. elim (Bool-cases (x == c)) [
              | inl same ↦
                  let there : some y ≡ some c = sym (written c ∙ rw same refl) ∙ h in
                  let e : y ≡ c = cc in let e' : x ≡ c = ground arith in absurd (apart (e' ∙ sym e))
              | inr different ↦
                  written_m c
                  ∙ rw different (view.root c k (sym (written c ∙ rw different refl) ∙ h) at_k)
            ];
          };
          forest = set-IsForest R m rank forest sound x y inside_m less y_in asked;
          sound = set-IsSound R m rank forest sound x y inside_m less y_in asked;
          joined = λ j.
              compress-Joined rank (parent m) _ x y (parent-set R m rank forest sound x y inside_m)
                p (parent-pos m x at_m) above j;
          roots = λ c k h. elim (Bool-cases (x == c)) [
            | inl same ↦ let e : x ≡ c = ground arith in absurd (not_root c k p at_m e h)
            | inr different ↦ written_m c ∙ rw different h
          ];
          size = length-set m x (pos y);
        }
      where
        not_root :
            (c k q : ℕ) → get_elem? m x ≡ some (pos q) → x ≡ c → get_elem? m c ≡ some (negsuc k) → ⊥
        not_root c k q at_x e h = cc (ap (get_elem? m) e)

  pub Compressed-then :
      {m m' m'' : List ℤ} {parents' parents'' : List ℕ}
      → Compressed R m rank ranks parents' m'
      → Compressed R m' rank ranks parents'' m''
      → Compressed R m rank ranks parents'' m''
  Compressed-then c k = record {
    view = k.view;
    forest = k.forest;
    sound = k.sound;
    joined = λ j. k.joined (c.joined j);
    roots = λ x r h. k.roots x r (c.roots x r h);
    size = k.size ∙ c.size;
  }

  Result : List ℤ → List ℕ → Type 0
  Result m parents' = (m' : List ℤ) × Compressed R m rank ranks parents' m'

  compress_loop-stop :
      (fuel root node p : ℕ) (parents : List ℕ)
      → get_elem? parents node ≡ some p
      → p ≡ root
      → compress_loop (suc fuel) root parents node ≡ some parents
  unfolding compress_loop
  compress_loop-stop fuel root node p parents at_node e =
      let test : (p == root) ≡ true = ground arith in
      rw at_node (
        ap
          (λ t. elim t [
            | true ↦ some parents
            | false ↦ compress_loop fuel root (set parents node root) p
          ])
          test)

  compress_loop-go :
      (fuel root node p : ℕ) (parents : List ℕ)
      → get_elem? parents node ≡ some p
      → p ≢ root
      → compress_loop (suc fuel) root parents node
        ≡ compress_loop fuel root (set parents node root) p
  unfolding compress_loop
  compress_loop-go fuel root node p parents at_node ne =
      let test : (p == root) ≡ false = ground arith in
      rw at_node (
        ap
          (λ t. elim t [
            | true ↦ some parents
            | false ↦ compress_loop fuel root (set parents node root) p
          ])
          test)

  compress_loop-Compressed :
      (fuel root node : ℕ) (parents : List ℕ) (m : List ℤ)
      → View parents ranks m
      → IsForest m rank
      → IsSound R m
      → Root m node root
      → node < length m
      → above_count rank node (length m) < fuel
      → Ends (Result m) (compress_loop fuel root parents node)
  unfolding Result
  compress_loop-Compressed zero root node parents m view forest sound r inside room =
      absurd (omega arith)
  compress_loop-Compressed (suc fuel) root node parents m view forest sound r inside room =
      let (p, at_node) = get_elem?-some parents node (omega (arith, view.size)) in
      let (k, is_root) = Root-rank m r in
      elim (ℕ_discrete p root) [
        | yes e ↦
            rw (compress_loop-stop fuel root node p parents at_node e)
              (ends (m, unchanged parents m view forest sound))
        | no ne ↦ elim (node_cases parents ranks m rank view forest node p at_node) [
          | inl (e, (k', at_root)) ↦ absurd (ne (e ∙ Root-unique m (stop at_root) r))
          | inr (ne', is_child) ↦
              let apart : node ≢ root = λ e. cc (ap (get_elem? m) e) in
              let root_in = get_elem?-lt m root is_root in
              let (less, p_in) = forest.up node p is_child in
              let rest = Root-above m is_child r in
              let c =
                redirected parents m view forest sound node p root at_node ne' apart is_child
                  root_in rest in
              let m' : List ℤ = set m node (pos root) in
              let root' : Root m' root root = stop (c.roots root k is_root) in
              let r' : Root m' p root = (Joined-Root m' (c.joined (Root-Joined m rest))).1 root' in
              let fewer = above_count-Less rank node p (length m) less p_in in
              let room' : above_count rank p (length m') < fuel =
                rw c.size (omega (arith, fewer, room)) in
              rw (compress_loop-go fuel root node p parents at_node ne) (
                Ends-weaken
                  (compress_loop-Compressed fuel root p (set parents node root) m' c.view c.forest
                    c.sound r' (omega (arith, c.size, p_in)) room')
                  λ parents' (m'', k''). (m'', Compressed-then c k''))
        ]
      ]

  pub find_representative_and_compress-Compressed :
      (node : ℕ) (parents : List ℕ) (m : List ℤ)
      → View parents ranks m
      → IsForest m rank
      → IsSound R m
      → node < length m
      → Ends
          (λ found. Root m node found.0 × ((m' : List ℤ) × Compressed R m rank ranks found.1 m'))
          (find_representative_and_compress parents node)
  unfolding find_representative_and_compress Result
  find_representative_and_compress-Compressed node parents m view forest sound inside =
      Ends->>= (find_representative-Root parents ranks m rank view forest node inside) λ root r.
        Ends->>=
          (compress_loop-Compressed (length parents) root node parents m view forest sound r inside
            (omega (arith, view.size, above_count-lt rank node (length m) inside)))
          λ parents' h. ends (r, h)
