-- ===== src/Graphs/Append.antt =====
-- Loops over edges that append the target of each edge to the entry of its source node.
use native.Mathlib.Decide.{ℕ_discrete}
use mathlib.Core.List.{append_assoc, append-nil}
use wt_lab_efficient_paral.Common.{
  ℕ, ◌≡◌, refl, sym, ◌∙◌, List, [], ◌∷◌, ◌++◌, some, get_elem?, set, map, ◌==◌, true, false, arith,
  get_elem?-set, get_elem?-lt,
}
use wt_lab_efficient_paral.Graphs.EdgeList.{Edge, leaving, leaving_self, leaving_other}

module _ {W X : Type 0} (push : X → ℕ → X) where
  abbrev pub pushed : X → List (Edge W) → X
  pushed x [] = x
  pushed x (e ∷ es) = pushed (push x e.to) es

  -- One round: what the entry of `v` is then, and that the edges of the round and of the rest make of
  -- the old entry what the rest makes of the new one.
  pub push_step :
      (rows : List X) (e : Edge W) (es : List (Edge W)) (v : ℕ) {row x : X}
      → get_elem? rows e.from ≡ some row
      → get_elem? rows v ≡ some x
      → (x' : X) × (get_elem? (set rows e.from (push row e.to)) v ≡ some x')
        × (pushed x' (leaving v es) ≡ pushed x (leaving v (e ∷ es)))
  push_step rows e es v {row} {x} at_from at_v =
      let written =
        get_elem?-set rows e.from v (push row e.to) (get_elem?-lt rows e.from at_from) in
      elim (ℕ_discrete v e.from) [
        | yes same ↦
            let equal : (e.from == v) ≡ true = ground arith in
            let row_x : row ≡ x = cc in
            (push row e.to, written ∙ rw equal refl, rw (leaving_self v e es same, row_x) refl)
        | no ne ↦
            let apart : (e.from == v) ≡ false = ground arith in
            (x, written ∙ rw apart at_v, rw (leaving_other v e es ne) refl)
      ]

module _ {W : Type 0} where
  pub pushed-append :
      (row : List ℕ) (es : List (Edge W))
      → pushed (λ r t. r ++ t ∷ []) row es ≡ row ++ map (λ e. e.to) es
  pushed-append row [] = sym (append-nil row)
  pushed-append row (e ∷ es) =
      pushed-append (row ++ e.to ∷ []) es ∙ append_assoc row (e.to ∷ []) (map (λ e. e.to) es)
