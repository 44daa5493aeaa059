-- ===== src/Connectivity/Components.antt =====
-- exercise3/implementation/num_components.hpp: the number of components by a union-find without ranks.
mod Link
pub mod Correct
use native.Mathlib.Decide.{dec_lt}
use wt_lab_efficient_paral.Common.{
  ℕ, zero, suc, ◌+◌, ◌-◌, ◌^◌, ◌≤◌, ◌<◌, ◌≡◌, ◌≢◌, ◌↔◌, refl, sym, ap, ◌∙◌, ◌⊎◌, inl, inr, Bool,
  true, false, List, [], ◌∷◌, Option, none, some, get_elem?, set, length, replicate, ◌==◌, ltb,
  ◌>>=◌, Ends, ends, Ends-value, Ends-of, Ends-weaken, Ends->>=, arith, Bool-cases, if◌then◌else◌,
  get_elem?-set, get_elem?-some, get_elem?-lt, length-set, length-replicate, replicate-entry,
}
use wt_lab_efficient_paral.Connectivity.Joined.{
  Joined, edge, flip, chain, self, Joined-map, Less, Edge,
}
use wt_lab_efficient_paral.Connectivity.Concurrent
use wt_lab_efficient_paral.Connectivity.Concurrent.{ℤ, pos, negsuc}
use wt_lab_efficient_paral.Connectivity.Concurrent.Forest.{
  parent, parent-pos, pos-parent, IsForest, IsSound, Later, linked, Change-Later,
}
use wt_lab_efficient_paral.Connectivity.Concurrent.Roots.{
  Root, Root-unique, Root-rank, Root-Joined, Joined-Root, find_representative-Root,
}

pub record ComponentsCounter : Type 0 where
  pub union_find : List ℤ
  pub num_components : ℕ

-- A root has the entry -1.
unfoldable pub init : ℕ → ComponentsCounter
init n = record { union_find = replicate n (negsuc 0); num_components = n }

-- The loop goes up as that of the concurrent union-find, run alone; no node comes twice, so a round for
-- each node is enough.
unfoldable pub find_representative : List ℤ → ℕ → Option ℕ
find_representative m a = Concurrent.find_representative (length m) m a

-- `num_components--` on a `std::size_t`
unfoldable pub decrement : ℕ → ℕ
decrement zero = 2 ^ 64 - 1
decrement (suc n) = n

unfoldable pub link : ℕ → ℕ → ComponentsCounter → ComponentsCounter
unfolding decrement
link rep_from rep_to c = record {
  union_find = set c.union_find rep_from (pos rep_to);
  num_components = decrement c.num_components;
}

-- The body of the loop in `addEdges`.
unfoldable pub add_edge : ℕ → ℕ → ComponentsCounter → Option ComponentsCounter
unfolding find_representative link
add_edge from to c = do
  rep_from ← find_representative c.union_find from
  rep_to ← find_representative c.union_find to
  some (
      if rep_from == rep_to
      then c
      else if ltb rep_to rep_from
      then link rep_to rep_from c
      else link rep_from rep_to c)

unfoldable pub add_edges : List (ℕ × ℕ) → ComponentsCounter → Option ComponentsCounter
unfolding add_edge
add_edges [] c = some c
add_edges ((from, to) ∷ edges) c = do c' ← add_edge from to c; add_edges edges c'

-- The number of roots.
abbrev pub roots : List ℤ → ℕ
roots [] = 0
roots (pos p ∷ m) = roots m
roots (negsuc r ∷ m) = suc (roots m)

roots-set :
    (m : List ℤ) (x y r : ℕ)
    → get_elem? m x ≡ some (negsuc r)
    → roots (set m x (pos y)) + 1 ≡ roots m
roots-set [] x y r h = cc
roots-set (pos p ∷ m) zero y r h = cc
roots-set (negsuc q ∷ m) zero y r h = omega arith
roots-set (pos p ∷ m) (suc x) y r h = roots-set m x y r h
roots-set (negsuc q ∷ m) (suc x) y r h = omega (arith, roots-set m x y r h)

-- A state in which the edges of `R` have been added.
pub record IsValid (n : ℕ) (R : ℕ → ℕ → Type 0) (c : ComponentsCounter) : Type 0 where
  pub rank : ℕ → ℕ
  pub forest : IsForest c.union_find rank
  pub sound : IsSound R c.union_find
  pub holds : (a b : ℕ) → R a b → Joined (Edge (parent c.union_find)) a b
  pub ups : (x p : ℕ) → get_elem? c.union_find x ≡ some (pos p) → x < p
  pub ones : (x r : ℕ) → get_elem? c.union_find x ≡ some (negsuc r) → r ≡ 0
  pub size : length c.union_find ≡ n
  pub counted : c.num_components ≡ roots c.union_find
