-- ===== src/Graphs/Index/Counts.antt =====
-- The index that the constructors build: entry `v` is the number of edges that leave nodes before `v`.
use native.Mathlib.Decide.{ℕ_discrete}
use wt_lab_efficient_paral.Common.{
  ℕ, zero, suc, ◌+◌, ◌≤◌, ◌<◌, ◌≡◌, refl, List, [], ◌∷◌, some, get_elem?, set, replicate, length,
  ◌==◌, Ends, ends, arith, if◌then◌else◌, get_elem?-set, get_elem?-replicate, length-set,
  length-replicate, ap, ◌∙◌, Ends-value, Ends-weaken, update, Bool-cases, inl, inr, true, false,
  ==_self,
}
use wt_lab_efficient_paral.Graphs.EdgeList.{
  Edge, out_degree, before, before_zero, before-suc, before_all, before_length, InRange,
}
use wt_lab_efficient_paral.Graphs.Index.{inclusive_scan, count_loop, build_index}

-- The entries of a list are the values of a function.
abbrev pub Lists : List ℕ → (ℕ → ℕ) → Type 0
Lists c f = (i : ℕ) → i < length c → get_elem? c i ≡ some (f i)

pub set-Lists :
    (c : List ℕ) (f : ℕ → ℕ) (i x : ℕ) → i < length c → Lists c f → Lists (set c i x) (update f i x)
set-Lists c f i x inside is j h =
    let at_j = is j (omega (arith, length-set c i x)) in
    get_elem?-set c i j x inside
    ∙ elim (Bool-cases (i == j)) [ inl same ↦ rw same refl | inr apart ↦ rw apart at_j ]

abbrev sum_to : (ℕ → ℕ) → ℕ → ℕ
sum_to f zero = f 0
sum_to f (suc i) = f 0 + sum_to (λ j. f (suc j)) i

sum_to-suc : (f : ℕ → ℕ) (i : ℕ) → sum_to f (suc i) ≡ sum_to f i + f (suc i)
sum_to-suc f zero = refl
sum_to-suc f (suc i) = omega (arith, sum_to-suc (λ j. f (suc j)) i)

-- Numbers up to `bound` are stored in the index type as they are.
module _ (wrap : ℕ → ℕ) (bound : ℕ) (exact : (k : ℕ) → k ≤ bound → wrap k ≡ k) where
  inclusive_scan-length : (acc : ℕ) (c : List ℕ) → length (inclusive_scan wrap acc c) ≡ length c
  unfolding inclusive_scan
  inclusive_scan-length acc [] = refl
  inclusive_scan-length acc (x ∷ c) = ap suc (inclusive_scan-length (wrap (acc + x)) c)

  inclusive_scan-Lists :
      (acc : ℕ) (c : List ℕ) (f : ℕ → ℕ) (i : ℕ)
      → Lists c f
      → ((j : ℕ) → acc + sum_to f j ≤ bound)
      → i < length c
      → get_elem? (inclusive_scan wrap acc c) i ≡ some (acc + sum_to f i)
  unfolding inclusive_scan
  inclusive_scan-Lists acc [] f i is low inside = absurd (omega arith)
  inclusive_scan-Lists acc (x ∷ c) f zero is low inside =
      let e : some x ≡ some (f 0) = is 0 (omega arith) in
      let same : x ≡ f 0 = cc in
      ap some (exact (acc + x) (omega (arith, low 0, same)) ∙ ap (◌+◌ acc) same)
  inclusive_scan-Lists acc (x ∷ c) f (suc i) is low inside =
      let e : some x ≡ some (f 0) = is 0 (omega arith) in
      let same : x ≡ f 0 = cc in
      let kept = exact (acc + x) (omega (arith, low 0, same)) in
      let rest =
        inclusive_scan-Lists (acc + x) c (λ j. f (suc j)) i (λ j h. is (suc j) (omega arith))
          (λ j. omega (arith, low (suc j), same)) (omega arith) in
      rw kept (rest ∙ ap some (omega (arith, same)))

module _ {W : Type 0} where
  -- The counts, shifted by one place.
  abbrev counts : List (Edge W) → ℕ → ℕ
  counts es zero = 0
  counts es (suc v) = out_degree v es

  counts-step :
      (e : Edge W) (es : List (Edge W)) (i : ℕ)
      → counts (e ∷ es) i ≡ (if e.from + 1 == i then 1 else 0) + counts es i
  counts-step e es zero = ground arith
  counts-step e es (suc i) = ground arith

  count-Lists :
      (e : Edge W) (c : List ℕ) (f : ℕ → ℕ)
      → e.from + 1 < length c
      → Lists c f
      → Lists
          (set c (e.from + 1) (f (e.from + 1) + 1))
          (λ i. f i + (if e.from + 1 == i then 1 else 0))
  count-Lists e c f inside is i h =
      let k = e.from + 1 in
      let v = f k + 1 in
      let at_i = is i (omega (arith, length-set c k v)) in
      get_elem?-set c k i v inside ∙ elim (ℕ_discrete k i) [
        | yes same ↦
            let test : (k == i) ≡ true = ground arith in
            rw test (ap some (omega (arith, ap f same)))
        | no ne ↦
            let test : (k == i) ≡ false = ground arith in rw test (at_i ∙ ap some (omega arith))
      ]

  counts-nil : (es : List (Edge W)) → es ≡ [] → (i : ℕ) → counts es i ≡ 0
  counts-nil [] e zero = refl
  counts-nil [] e (suc i) = refl
  counts-nil (x ∷ es) e i = cc

  counts-le : (es : List (Edge W)) (i : ℕ) → counts es i ≤ length es
  counts-le es zero = omega arith
  counts-le es (suc v) = omega (arith, before_length v es)

  count_loop-Lists :
      (wrap : ℕ → ℕ) (bound : ℕ)
      → ((k : ℕ) → k ≤ bound → wrap k ≡ k)
      → (n : ℕ) (es : List (Edge W)) (c : List ℕ) (f : ℕ → ℕ) → InRange n es
      → length c ≡ n + 1
      → Lists c f
      → ((i : ℕ) → f i + counts es i ≤ bound)
      → Ends (λ c'. (length c' ≡ n + 1) × Lists c' (λ i. f i + counts es i)) (count_loop wrap es c)
  unfolding count_loop
  count_loop-Lists wrap bound exact n [] c f ok size is low =
      ends (size, λ i h. is i h ∙ ap some (omega (arith, counts-nil [] refl i)))
  count_loop-Lists wrap bound exact n (e ∷ es) c f (at_from, at_to, ok) size is low =
      let k = e.from + 1 in
      let at_k = is k (omega arith) in
      let fits : f k + 1 ≤ bound = ground (arith, low k, counts-step e es k) in
      let kept = exact (f k + 1) fits in
      let rest =
        count_loop-Lists wrap bound exact n es (set c k (f k + 1)) _ ok
          (length-set c k (f k + 1) ∙ size) (count-Lists e c f (omega arith) is)
          (λ i. omega (arith, low i, counts-step e es i)) in
      rw (at_k, kept)
        (Ends-weaken rest
          λ c' (size', is'). (size', λ i h. is' i h ∙ ap some (omega (arith, counts-step e es i))))

  sum_to-counts : (es : List (Edge W)) (v : ℕ) → sum_to (counts es) v ≡ before v es
  sum_to-counts es zero = omega (arith, before_zero es)
  sum_to-counts es (suc v) =
      omega (arith, sum_to-suc (counts es) v, sum_to-counts es v, before-suc v es)

  -- The asserts hold, and the entries are where the edges of each node begin.
  pub build_index-Lists :
      (wrap : ℕ → ℕ) (n : ℕ) (es : List (Edge W))
      → ((k : ℕ) → k ≤ length es → wrap k ≡ k)
      → InRange n es
      → Ends (λ c. (length c ≡ n + 1) × Lists c (λ v. before v es)) (build_index wrap n es)
  unfolding build_index
  build_index-Lists wrap n es exact ok =
      let m = length es in
      let zeros : List ℕ = replicate (n + 1) 0 in
      let all : length zeros ≡ n + 1 = length-replicate {A = ℕ} (n + 1) 0 in
      let (cs, is_cs, (size, is)) = Ends-value (
        count_loop-Lists wrap m exact n es (replicate (n + 1) 0) (λ i. 0) ok all
          (λ i h. get_elem?-replicate (n + 1) i 0 (omega (arith, all)))
          (λ i. omega (arith, counts-le es i))) in
      let c = inclusive_scan wrap 0 cs in
      let size_c = inclusive_scan-length wrap m exact 0 cs ∙ size in
      let is_c : Lists c (λ v. before v es) = λ v h.
        inclusive_scan-Lists wrap m exact 0 cs (counts es) v (λ i k. is i k ∙ ap some (omega arith))
          (λ j. omega (arith, sum_to-counts es j, before_length j es)) (omega (arith, size_c))
        ∙ ap some (omega (arith, sum_to-counts es v)) in
      let first = is_c 0 (omega (arith, size_c)) ∙ ap some (before_zero es) in
      let last = is_c n (omega (arith, size_c)) ∙ ap some (before_all n es ok) in
      rw (is_cs, first, last, ==_self (length es)) (ends (size_c, is_c))
