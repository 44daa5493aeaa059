-- ===== src/Graphs/Index/Fill.antt =====
-- The second loop of the constructors: each edge goes to the first free place of its source node.
use native.Mathlib.Decide.{ℕ_discrete, dec_lt}
use wt_lab_efficient_paral.Common.{
  ℕ, zero, suc, ◌+◌, ◌≤◌, ◌<◌, ◌≡◌, ◌≢◌, refl, List, [], ◌∷◌, some, get_elem?, set, length, ◌==◌,
  Ends, ends, arith, false, get_elem?-set, get_elem?-some, length-set, ==_self, ap, ◌∙◌, sym,
  Ends-weaken, update, update_self, update_other,
}
use wt_lab_efficient_paral.Graphs.EdgeList.{
  Edge, out_degree, before, before_mono, before_length, InRange, leaving, leaving_self,
  leaving_other,
}
use wt_lab_efficient_paral.Graphs.Index.{fill_loop}
use wt_lab_efficient_paral.Graphs.Index.Counts.{Lists, set-Lists}

module _ {W : Type 0} where
  -- The places that are still to be filled with the edges of `v`, where `pos` has the first of them.
  abbrev pub Owns : List (Edge W) → (ℕ → ℕ) → ℕ → ℕ → Type 0
  Owns es pos v p = (pos v ≤ p) × (p < pos v + out_degree v es)

  -- Those places lie in the array, and no two nodes share one.
  pub record IsPlan (es : List (Edge W)) (pos : ℕ → ℕ) (size : ℕ) : Type 0 where
    pub inside : (v p : ℕ) → Owns es pos v p → p < size
    pub apart : (v w p : ℕ) → v ≢ w → Owns es pos v p → ¬ Owns es pos w p

  -- The places after the first edge has been written.
  abbrev pub after : Edge W → (ℕ → ℕ) → ℕ → ℕ
  after e pos = update pos e.from (pos e.from + 1)

  module _ (e : Edge W) (es : List (Edge W)) (pos : ℕ → ℕ) where
    pub Owns-after : (v p : ℕ) → Owns es (after e pos) v p → Owns (e ∷ es) pos v p
    Owns-after v p o = ground (arith, o)

    pub Owns-first : Owns (e ∷ es) pos e.from (pos e.from)
    Owns-first = ground arith

    Owns-not_first :
        (size : ℕ) → IsPlan (e ∷ es) pos size → (v : ℕ) → ¬ Owns es (after e pos) v (pos e.from)
    Owns-not_first size plan v o = elim (ℕ_discrete e.from v) [
      | yes same ↦
          let at_v = rw (← same, update_self pos e.from (pos e.from + 1)) at (o.0) in
          omega (arith, at_v)
      | no ne ↦ plan.apart e.from v (pos e.from) ne Owns-first (Owns-after v (pos e.from) o)
    ]

    pub IsPlan-after : (size : ℕ) → IsPlan (e ∷ es) pos size → IsPlan es (after e pos) size
    IsPlan-after size plan = record {
      inside = λ v p o. plan.inside v p (Owns-after v p o);
      apart = λ v w p ne o o'. plan.apart v w p ne (Owns-after v p o) (Owns-after w p o');
    }

  pub before-IsPlan : (es : List (Edge W)) → IsPlan es (λ v. before v es) (length es)
  before-IsPlan es = record {
    inside = λ v p o. omega (arith, o.1, before_length v es);
    apart = λ v w p ne o o'. elim (dec_lt v w) [
      | yes lt ↦ omega (arith, o.0, o.1, o'.0, o'.1, before_mono v w es lt)
      | no ge ↦ omega (arith, o.0, o.1, o'.0, o'.1, before_mono w v es (omega arith))
    ];
  }

  module _ {A : Type 0} (value : Edge W → A) where
    -- What the loop leaves in the array: the edges of every node at its places, and nothing else new.
    pub record IsFilled (es : List (Edge W)) (pos : ℕ → ℕ) (arr arr' : List A) : Type 0 where
      pub same_length : length arr' ≡ length arr
      pub placed :
          (v k : ℕ) (e : Edge W)
          → get_elem? (leaving v es) k ≡ some e
          → get_elem? arr' (pos v + k) ≡ some (value e)
      pub kept : (p : ℕ) → ((v : ℕ) → ¬ Owns es pos v p) → get_elem? arr' p ≡ get_elem? arr p

    module _ (e : Edge W) (es : List (Edge W)) (pos : ℕ → ℕ) (arr : List A) where
      IsFilled-step :
          (arr' : List A)
          → IsPlan (e ∷ es) pos (length arr)
          → IsFilled es (after e pos) (set arr (pos e.from) (value e)) arr'
          → IsFilled (e ∷ es) pos arr arr'
      IsFilled-step arr' plan f =
          let p = pos e.from in
          let v = value e in
          let inside = plan.inside e.from p (Owns-first e es pos) in
          let first =
            f.kept p (Owns-not_first e es pos (length arr) plan)
            ∙ get_elem?-set arr p p v inside
            ∙ rw (==_self p) refl in
          record {
            same_length = f.same_length ∙ length-set arr p v;
            placed = λ w k x h. elim (ℕ_discrete w e.from) [
              | yes same ↦
                  rw same
                    (placed_own arr' f.placed first k x (rw (leaving_self w e es same, same) at h))
              | no ne ↦ placed_other arr' f.placed w k x ne (rw (leaving_other w e es ne) at h)
            ];
            kept = λ q not.
                let ne : p ≢ q = λ eq. not e.from (rw (← eq) (Owns-first e es pos)) in
                f.kept q (λ w o. not w (Owns-after e es pos w q o))
                ∙ get_elem?-set arr p q v inside
                ∙ (let apart : (p == q) ≡ false = ground arith in rw apart refl);
          }
        where
          Placed : List A → Type 0
          Placed arr' =
              (w k : ℕ) (x : Edge W)
              → get_elem? (leaving w es) k ≡ some x
              → get_elem? arr' (after e pos w + k) ≡ some (value x)

          placed_own :
              (arr' : List A)
              → Placed arr'
              → get_elem? arr' (pos e.from) ≡ some (value e)
              → (k : ℕ) (x : Edge W) → get_elem? (e ∷ leaving e.from es) k ≡ some x
              → get_elem? arr' (pos e.from + k) ≡ some (value x)
          placed_own arr' is first zero x h =
              let here : pos e.from + 0 ≡ pos e.from = omega arith in
              let same : e ≡ x = cc in rw here (first ∙ ap (λ t. some (value t)) same)
          placed_own arr' is first (suc k) x h =
              let there : pos e.from + suc k ≡ after e pos e.from + k =
                omega (arith, update_self pos e.from (pos e.from + 1)) in
              rw there (is e.from k x h)

          placed_other :
              (arr' : List A)
              → Placed arr'
              → (w k : ℕ) (x : Edge W) → w ≢ e.from
              → get_elem? (leaving w es) k ≡ some x
              → get_elem? arr' (pos w + k) ≡ some (value x)
          placed_other arr' is w k x ne h =
              let there : pos w + k ≡ after e pos w + k =
                omega (arith, update_other pos e.from w (pos e.from + 1) (λ eq. ne (sym eq))) in
              rw there (is w k x h)

    pub fill_loop-IsFilled :
        (wrap : ℕ → ℕ) (bound : ℕ)
        → ((k : ℕ) → k ≤ bound → wrap k ≡ k)
        → (n : ℕ) (es : List (Edge W)) (pos : ℕ → ℕ) (c : List ℕ) (arr : List A) → InRange n es
        → n < length c
        → Lists c pos
        → IsPlan es pos (length arr)
        → length arr ≤ bound
        → Ends (IsFilled es pos arr) (fill_loop wrap value es c arr)
    unfolding fill_loop
    fill_loop-IsFilled wrap bound exact n [] pos c arr ok size is plan fits =
        ends (record { same_length = refl; placed = λ v k e h. cc; kept = λ p not. refl })
    fill_loop-IsFilled wrap bound exact n (e ∷ es) pos c arr (at_from, at_to, ok) size is plan
          fits =
        let k = pos e.from in
        let at_k = is e.from (omega arith) in
        let inside = plan.inside e.from k (Owns-first e es pos) in
        let (old, at_old) = get_elem?-some arr k inside in
        let next_size = length-set c e.from (k + 1) in
        let arr_size = length-set arr k (value e) in
        let next_plan : IsPlan es (after e pos) (length (set arr k (value e))) =
          rw arr_size (IsPlan-after e es pos (length arr) plan) in
        rw (at_k, at_old, exact (k + 1) (omega arith))
          (Ends-weaken
            (fill_loop-IsFilled wrap bound exact n es (after e pos) (set c e.from (k + 1))
              (set arr k (value e)) ok (omega (arith, next_size))
              (set-Lists c pos e.from (k + 1) (omega arith) is) next_plan (omega (arith, arr_size)))
            λ arr' f. IsFilled-step e es pos arr arr' plan f)
