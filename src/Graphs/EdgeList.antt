-- ===== src/Graphs/EdgeList.antt =====
-- exercise2/implementation/edge_list.hpp: a list of edges, and what a graph that is built from it has
-- to give.
use wt_lab_efficient_paral.Common.{
  ℕ, suc, ◌+◌, ◌≤◌, ◌<◌, ◌≡◌, refl, List, [], ◌∷◌, length, ◌==◌, ltb, ◌≢◌, Bool-cases, inl, inr,
  true, false, if◌then◌else◌, arith,
}

-- The type `W` of a length is `double` in the source; a length is only stored and copied.
pub record Edge (W : Type 0) : Type 0 where
  pub from : ℕ
  pub to : ℕ
  pub length : W

module _ {W : Type 0} where
  -- The edges that leave a node, in the order of the list.
  abbrev pub leaving : ℕ → List (Edge W) → List (Edge W)
  leaving v [] = []
  leaving v (e ∷ es) = let rest = leaving v es in if v == e.from then e ∷ rest else rest

  abbrev pub out_degree : ℕ → List (Edge W) → ℕ
  out_degree v [] = 0
  out_degree v (e ∷ es) = (if v == e.from then 1 else 0) + out_degree v es

  -- How many edges leave nodes before `v`.
  abbrev pub before : ℕ → List (Edge W) → ℕ
  before v [] = 0
  before v (e ∷ es) = (if ltb e.from v then 1 else 0) + before v es

  -- Both ends of every edge are nodes of a graph with `n` nodes.
  abbrev pub InRange : ℕ → List (Edge W) → Type 0
  InRange n [] = Unit
  InRange n (e ∷ es) = (e.from < n) × (e.to < n) × InRange n es

  pub leaving_self :
      (v : ℕ) (e : Edge W) (es : List (Edge W)) → v ≡ e.from → leaving v (e ∷ es) ≡ e ∷ leaving v es
  leaving_self v e es same = let equal : (v == e.from) ≡ true = ground arith in rw equal refl

  pub leaving_other :
      (v : ℕ) (e : Edge W) (es : List (Edge W)) → v ≢ e.from → leaving v (e ∷ es) ≡ leaving v es
  leaving_other v e es ne = let apart : (v == e.from) ≡ false = ground arith in rw apart refl

  pub leaving-InRange : (n v : ℕ) (es : List (Edge W)) → InRange n es → InRange n (leaving v es)
  leaving-InRange n v [] ok = ok
  leaving-InRange n v (e ∷ es) (at_from, at_to, ok) = elim (Bool-cases (v == e.from)) [
    | inl same ↦ rw same (at_from, at_to, leaving-InRange n v es ok)
    | inr apart ↦ rw apart (leaving-InRange n v es ok)
  ]

  pub length-leaving : (v : ℕ) (es : List (Edge W)) → length (leaving v es) ≡ out_degree v es
  length-leaving v [] = refl
  length-leaving v (e ∷ es) = ground (arith, length-leaving v es)

  pub before_zero : (es : List (Edge W)) → before 0 es ≡ 0
  before_zero [] = refl
  before_zero (e ∷ es) = ground (arith, before_zero es)

  pub before-suc : (v : ℕ) (es : List (Edge W)) → before (suc v) es ≡ before v es + out_degree v es
  before-suc v [] = refl
  before-suc v (e ∷ es) = ground (arith, before-suc v es)

  pub before_mono :
      (v w : ℕ) (es : List (Edge W)) → v < w → before v es + out_degree v es ≤ before w es
  before_mono v w [] h = omega arith
  before_mono v w (e ∷ es) h = ground (arith, before_mono v w es h)

  pub before_all : (n : ℕ) (es : List (Edge W)) → InRange n es → before n es ≡ length es
  before_all n [] h = refl
  before_all n (e ∷ es) (at_from, at_to, h) = ground (arith, before_all n es h)

  pub before_length : (v : ℕ) (es : List (Edge W)) → before v es + out_degree v es ≤ length es
  before_length v [] = omega arith
  before_length v (e ∷ es) = ground (arith, before_length v es)
