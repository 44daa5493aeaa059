-- ===== src/Connectivity/Concurrent/Forest.antt =====
-- The memory of the concurrent union-find as a forest, and what a change of it keeps.
use native.Mathlib.Decide.{ℕ_discrete}
use wt_lab_efficient_paral.Common.{
  ℕ, suc, ◌≤◌, ◌<◌, ◌≡◌, ◌≢◌, refl, ap, ◌∙◌, List, Option, none, some, get_elem?, set, length,
  update, ◌==◌, if◌then◌else◌, arith, get_elem?-set, get_elem?-lt, length-set,
}
use wt_lab_efficient_paral.Connectivity.Joined.{
  Joined, edge, chain, Joined-map, Less, Edge, EdgeAbove, link-Joined, link-above, compress-above,
  compress-Joined,
}
use wt_lab_efficient_paral.Connectivity.Concurrent.{ℤ, pos, negsuc}

-- The parent that an entry stands for.
abbrev pub as_parent : Option ℤ → Option ℕ
as_parent none = none
as_parent (some (pos p)) = some p
as_parent (some (negsuc r)) = none

abbrev pub parent : List ℤ → ℕ → Option ℕ
parent m x = as_parent (get_elem? m x)

pub parent-pos : (m : List ℤ) (x : ℕ) {p : ℕ} → get_elem? m x ≡ some (pos p) → parent m x ≡ some p
parent-pos m x h = rw h

pub pos-parent : (o : Option ℤ) {p : ℕ} → as_parent o ≡ some p → o ≡ some (pos p)
pos-parent none h = cc
pos-parent (some (pos q)) h = cc
pos-parent (some (negsuc r)) h = cc

parent-negsuc : (m : List ℤ) (x : ℕ) {r : ℕ} → get_elem? m x ≡ some (negsuc r) → parent m x ≡ none
parent-negsuc m x h = rw h

-- The rank of a root is what its entry says, and an edge goes up.
pub record IsForest (m : List ℤ) (rank : ℕ → ℕ) : Type 0 where
  pub root : (x r : ℕ) → get_elem? m x ≡ some (negsuc r) → rank x ≡ suc r
  pub up : (x p : ℕ) → get_elem? m x ≡ some (pos p) → Less rank x p × (p < length m)

-- What stays true from one state to a later one.
pub record Extends (m : List ℤ) (rank : ℕ → ℕ) (m' : List ℤ) (rank' : ℕ → ℕ) : Type 0 where
  pub size : length m' ≡ length m
  pub child : (x p : ℕ) → parent m x ≡ some p → (p' : ℕ) × (parent m' x ≡ some p')
  pub grows : (x : ℕ) → rank x ≤ rank' x
  pub fixed : (x p : ℕ) → parent m x ≡ some p → rank' x ≡ rank x
  pub joined : (u v : ℕ) → Joined (Edge (parent m)) u v → Joined (Edge (parent m')) u v
  pub above :
      (k p u v : ℕ)
      → parent m k ≡ some p
      → Joined (EdgeAbove rank (parent m) k) u v
      → Joined (EdgeAbove rank' (parent m') k) u v

-- The changes of the memory. `R` joins what the calls were asked to join.
pub data Change (R : ℕ → ℕ → Type 0) (m : List ℤ) (rank : ℕ → ℕ) (m' : List ℤ) : Type 0 where
  none_made : m' ≡ m → Change R m rank m'
  redirected :
      (x p y : ℕ)
      → get_elem? m x ≡ some (pos p)
      → Less rank x y
      → y < length m
      → Joined (EdgeAbove rank (parent m) x) p y
      → m' ≡ set m x (pos y)
      → Change R m rank m'
  linked :
      (x y r : ℕ)
      → get_elem? m x ≡ some (negsuc r)
      → Less rank x y
      → y < length m
      → Joined R x y
      → m' ≡ set m x (pos y)
      → Change R m rank m'
  raised :
      (x r : ℕ)
      → get_elem? m x ≡ some (negsuc r)
      → m' ≡ set m x (negsuc (suc r))
      → Change R m rank m'

abbrev pub IsSound : (ℕ → ℕ → Type 0) → List ℤ → Type 0
IsSound R m = (x p : ℕ) → get_elem? m x ≡ some (pos p) → Joined R x p

-- A later state, with a rank for it, is a forest whose edges are asked for.
pub record Later (R : ℕ → ℕ → Type 0) (m : List ℤ) (rank : ℕ → ℕ) (m' : List ℤ) : Type 0 where
  pub rank' : ℕ → ℕ
  pub extends : Extends m rank m' rank'
  pub forest : IsForest m' rank'
  pub sound : IsSound R m'

module _ (R : ℕ → ℕ → Type 0) (m : List ℤ) (rank : ℕ → ℕ) (forest : IsForest m rank)
    (sound : IsSound R m) where
  unchanged : Later R m rank m
  unchanged = record {
    rank' = rank;
    extends = record {
      size = refl;
      child = λ x p h. (p, h);
      grows = λ x. omega arith;
      fixed = λ x p h. refl;
      joined = λ u v j. j;
      above = λ k p u v h j. j;
    };
    forest = forest;
    sound = sound;
  }

  module _ (x y : ℕ) (bound : x < length m) where
    pub parent-set : (c : ℕ) → parent (set m x (pos y)) c ≡ (if x == c then some y else parent m c)
    parent-set c = ground (arith, get_elem?-set m x c (pos y) bound)

    module _ (less : Less rank x y) (room : y < length m) (asked : Joined R x y) where
      pub set-IsForest : IsForest (set m x (pos y)) rank
      set-IsForest = record {
        root = λ c r h. ground (arith, get_elem?-set m x c (pos y) bound, forest.root c r);
        up = λ c p h.
            ground
              (arith, get_elem?-set m x c (pos y) bound, forest.up c p, length-set m x (pos y));
      }

      pub set-IsSound : IsSound R (set m x (pos y))
      set-IsSound c p h = elim (ℕ_discrete x c) [
        | yes e ↦
            let there : y ≡ p = ground (arith, get_elem?-set m x c (pos y) bound) in
            rw (← e, ← there) asked
        | no ne ↦ sound c p (ground (arith, get_elem?-set m x c (pos y) bound))
      ]

  linked-Later :
      (x y r : ℕ)
      → get_elem? m x ≡ some (negsuc r)
      → Less rank x y
      → y < length m
      → Joined R x y
      → Later R m rank (set m x (pos y))
  linked-Later x y r at_x less room asked =
      let bound = get_elem?-lt m x at_x in
      let root = parent-negsuc m x at_x in
      let written = parent-set x y bound in
      record {
        rank' = rank;
        extends = record {
          size = length-set m x (pos y);
          child = λ c p h. (p, ground (arith, written c));
          grows = λ c. omega arith;
          fixed = λ c p h. refl;
          joined = λ u v j. link-Joined rank (parent m) _ x y written root j;
          above = λ k p u v h j. link-above rank (parent m) _ x y written root j;
        };
        forest = set-IsForest x y bound less room asked;
        sound = set-IsSound x y bound less room asked;
      }

  redirected-Later :
      (x p y : ℕ)
      → get_elem? m x ≡ some (pos p)
      → Less rank x y
      → y < length m
      → Joined (EdgeAbove rank (parent m) x) p y
      → Later R m rank (set m x (pos y))
  redirected-Later x p y at_x less room above =
      let bound = get_elem?-lt m x at_x in
      let old = parent-pos m x at_x in
      let written = parent-set x y bound in
      let asked : Joined R x y =
        chain (sound x p at_x)
          (Joined-map (λ a b r. sound a b (pos-parent (get_elem? m a) r.0)) above) in
      record {
        rank' = rank;
        extends = record {
          size = length-set m x (pos y);
          child = λ c q h. elim (ℕ_discrete x c) [
            | yes e ↦ (y, ground (arith, written c))
            | no ne ↦ (q, ground (arith, written c))
          ];
          grows = λ c. omega arith;
          fixed = λ c q h. refl;
          joined = λ u v j. compress-Joined rank (parent m) _ x y written p old above j;
          above = λ k q u v h j. compress-above rank (parent m) _ x y written p old above j;
        };
        forest = set-IsForest x y bound less room asked;
        sound = set-IsSound x y bound less room asked;
      }

  module _ (x r : ℕ) (at_x : get_elem? m x ≡ some (negsuc r)) where
    raised_entry :
        (c : ℕ)
        → get_elem? (set m x (negsuc (suc r))) c
          ≡ (if x == c then some (negsuc (suc r)) else get_elem? m c)
    raised_entry c = get_elem?-set m x c (negsuc (suc r)) (get_elem?-lt m x at_x)

    raised_parent : (c : ℕ) → parent (set m x (negsuc (suc r))) c ≡ parent m c
    raised_parent c = ground (arith, raised_entry c)

    raised_rank : (c p : ℕ) → parent m c ≡ some p → update rank x (suc (suc r)) c ≡ rank c
    raised_rank c p h = ground (arith, parent-negsuc m x at_x)

    raised-Less : (c p : ℕ) → x ≢ c → Less rank c p → Less (update rank x (suc (suc r))) c p
    raised-Less c p ne less = ground (arith, forest.root x r at_x)

    raised-Later : Later R m rank (set m x (negsuc (suc r)))
    raised-Later =
        let root = parent-negsuc m x at_x in
        record {
          rank' = update rank x (suc (suc r));
          extends = record {
            size = length-set m x (negsuc (suc r));
            child = λ c p h. (p, raised_parent c ∙ h);
            grows = λ c. ground (arith, forest.root x r at_x);
            fixed = raised_rank;
            joined = λ u v j. Joined-map (λ a b e. edge (raised_parent a ∙ e)) j;
            above = λ k p u v h j.
                Joined-map
                  (λ a b e. edge (
                    raised_parent a ∙ e.0,
                    ground (arith, raised_rank k p h, raised_rank a b e.0, e.1),
                  ))
                  j;
          };
          forest = record {
            root = λ c q h. ground (arith, raised_entry c, forest.root c q);
            up = λ c p h.
                let kept : get_elem? m c ≡ some (pos p) = ground (arith, raised_entry c) in
                let ne : x ≢ c = λ e. cc (ap (get_elem? m) e) in
                let (less, room) = forest.up c p kept in
                (raised-Less c p ne less, omega (arith, room, length-set m x (negsuc (suc r))));
          };
          sound = λ c p h. sound c p (ground (arith, raised_entry c));
        }

  pub Change-Later : (m' : List ℤ) → Change R m rank m' → Later R m rank m'
  Change-Later m' (none_made e) = rw e unchanged
  Change-Later m' (redirected x p y at_x less room above e) =
      rw e (redirected-Later x p y at_x less room above)
  Change-Later m' (linked x y r at_x less room asked e) =
      rw e (linked-Later x y r at_x less room asked)
  Change-Later m' (raised x r at_x e) = rw e (raised-Later x r at_x)
