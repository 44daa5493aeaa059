-- ===== src/Pq/PriQueueD/Simulate.antt =====
-- The sifting loops of `PriQueueD` restore the heap and keep the positions of the handles.
use mathlib.Core.List.Perm
use native.Mathlib.Nat.{one-le-pow}
use wt_lab_efficient_paral.Common.{
  ==_self, ◌∙◌, min, ℕ, zero, suc, ◌+◌, ◌-◌, ◌^◌, ◌<◌, ◌≡◌, refl, ◌≢◌, Bool, true, List, some,
  length, get_elem?, set, get_elem?-some, get_elem?-exchange, exchange-perm, length-exchange, ◌==◌,
  if◌then◌else◌, Ends, ends, Ends->>=, Ends-weaken, Ends-split, arith, ltb,
}
use wt_lab_efficient_paral.Pq.Tree.{child, parent, parent-lt}
use wt_lab_efficient_paral.Pq.Order.{StrictWeak}
use wt_lab_efficient_paral.Pq.PriQueueA
use wt_lab_efficient_paral.Pq.PriQueueD.{
  Element, Vectors, pos, swap_elements, fix_upwards_loop, fix_upwards, scan_children,
  fix_downwards_loop, fix_downwards,
}
use wt_lab_efficient_paral.Pq.Heap.{UpInv, DownInv, Sifted}
use wt_lab_efficient_paral.Pq.Heap.Up.{raised-UpInv, raised-entries}
use wt_lab_efficient_paral.Pq.Heap.Down.{max_child-IsMaxChild, IsMaxChild, sunk-DownInv, below_i}

module _ {T : Type 0} where
  -- The handle of each element maps to the element's position.
  abbrev pub IsPlaced : List (Element T) → List ℕ → Type 0
  IsPlaced a positions =
      (c : ℕ) (x : Element T) → get_elem? a c ≡ some x → get_elem? positions x.h ≡ some c

  abbrev pub by_key : (T → T → Bool) → Element T → Element T → Bool
  by_key comp x y = comp x.e y.e

  pub by_key-StrictWeak : {comp : T → T → Bool} → StrictWeak comp → StrictWeak (by_key comp)
  by_key-StrictWeak order = record {
    asym = λ x y. order.asym x.e y.e;
    neg_trans = λ x y z. order.neg_trans x.e y.e z.e;
  }

  module _ (a : List (Element T)) (positions : List ℕ) (p i : ℕ) (x y : Element T)
      (placed : IsPlaced a positions) (ne : p ≢ i) (at_p : get_elem? a p ≡ some x)
      (at_i : get_elem? a i ≡ some y) where
    abbrev traded : List ℕ
    traded = set (set positions x.h i) y.h p

    read :
        (c : ℕ)
        → get_elem? (set (set a p y) i x) c
          ≡ (if i == c then some x else if p == c then some y else get_elem? a c)
    read c = get_elem?-exchange a p i x y at_p at_i c

    read_pos :
        (h : ℕ)
        → get_elem? traded h
          ≡ (if y.h == h then some p else if x.h == h then some i else get_elem? positions h)
    read_pos h = get_elem?-exchange positions x.h y.h p i (placed p x at_p) (placed i y at_i) h

    pub traded-IsPlaced : IsPlaced (set (set a p y) i x) traded
    traded-IsPlaced c z at_z =
        ground (arith, read c, read_pos z.h, placed c z, placed p x, placed i y)

    -- Both `assert`s of a round hold.
    pub swap_elements_lem : swap_elements (a, positions) p i ≡ some (set (set a p y) i x, traded)
    unfolding swap_elements pos
    swap_elements_lem =
        let top : get_elem? (set (set a p y) i x) p ≡ some y = ground (arith, read p) in
        let foot : get_elem? (set (set a p y) i x) i ≡ some x = ground (arith, read i) in
        let place = traded-IsPlaced in
        rw (
          at_p,
          at_i,
          placed p x at_p,
          placed i y at_i,
          top,
          foot,
          place p y top,
          place i x foot,
          ==_self p,
          ==_self i,
        )

module _ {T : Type 0} {comp : T → T → Bool} (order : StrictWeak comp) (log_degree : ℕ)
    (small : log_degree < 64) where
  abbrev degree : ℕ
  degree = 2 ^ log_degree

  shifts : ltb log_degree 64 ≡ true
  shifts = ground arith

  key_order : StrictWeak (by_key comp)
  key_order = by_key-StrictWeak order

  degree_pos : 0 < degree
  degree_pos = one-le-pow log_degree 2 (omega arith)

  -- `w` is a heap of the elements of `a`, each at its handle's position, with no position added.
  abbrev pub Placed : List (Element T) → List ℕ → Vectors T → Type 0
  Placed a positions w =
      Sifted (by_key comp) degree a w.0 × IsPlaced w.0 w.1 × (length w.1 ≡ length positions)

  fix_upwards_loop_restores :
      (fuel : ℕ) (a : List (Element T)) (positions : List ℕ) (i : ℕ)
      → i < fuel
      → UpInv (by_key comp) degree a i
      → IsPlaced a positions
      → Ends (Placed a positions) (fix_upwards_loop comp log_degree fuel (a, positions) i)
  unfolding fix_upwards_loop
  fix_upwards_loop_restores zero a positions i enough inv placed = absurd (omega arith)
  fix_upwards_loop_restores (suc fuel) a positions i enough inv placed =
      Ends-split (ltb 0 i)
        (λ test.
          let up : 0 < i = ground arith in
          let lower = parent-lt degree degree_pos i up in
          let (y, at_i) = get_elem?-some a i inv.inside in
          let (x, at_p) = get_elem?-some a (parent degree i) (omega arith) in
          let ne : parent degree i ≢ i = omega arith in
          rw (shifts, at_p, at_i)
            (Ends-split (comp x.e y.e)
              (λ high.
                let next = raised-UpInv key_order degree degree_pos a i x y inv up at_p at_i high in
                let there =
                  raised-entries key_order degree degree_pos a i x y inv up at_p at_i high in
                let kept =
                  traded-IsPlaced a positions (parent degree i) i x y placed ne at_p at_i in
                rw
                  (
                    swap_elements_lem a positions (parent degree i) i x y placed ne at_p at_i,
                    there.0,
                    there.1,
                    order.asym x.e y.e high,
                  )
                  (Ends-weaken
                    (fix_upwards_loop_restores fuel _ _ (parent degree i) (omega arith) next kept)
                    λ w s. (
                      (s.0.0, Perm.trans s.0.1 (exchange-perm a (parent degree i) i x y at_p at_i)),
                      s.1,
                      s.2
                          ∙ length-exchange positions x.h y.h (parent degree i) i
                              (placed (parent degree i) x at_p) (placed i y at_i),
                    )))
              (λ low. ends (
                ((λ c u v c_pos at_u at_v. ground (arith, inv.edges c u v)), Perm.rfl),
                placed,
                refl,
              ))))
        (λ root. ends (
          ((λ c u v c_pos at_u at_v. inv.edges c u v c_pos (ground arith) at_u at_v), Perm.rfl),
          placed,
          refl,
        ))

  pub fix_upwards-Placed :
      (a : List (Element T)) (positions : List ℕ) (i : ℕ)
      → UpInv (by_key comp) degree a i
      → IsPlaced a positions
      → Ends (Placed a positions) (fix_upwards comp log_degree (a, positions) i)
  unfolding fix_upwards
  fix_upwards-Placed a positions i inv placed =
      let test : ltb i (length a) ≡ true = (let h = inv.inside in ground arith) in
      rw test (fix_upwards_loop_restores (suc i) a positions i (omega arith) inv placed)

  scan-eq :
      (rounds : ℕ) (a : List (Element T)) (k m : ℕ)
      → scan_children comp rounds a k m ≡ PriQueueA.scan_children (by_key comp) rounds a k m
  unfolding scan_children PriQueueA.scan_children
  scan-eq zero a k m = refl
  scan-eq (suc rounds) a k m = simp (scan-eq rounds)

  row-IsMaxChild :
      (a : List (Element T)) (i : ℕ)
      → i < length a
      → Ends (IsMaxChild key_order degree degree_pos a i) (
          scan_children comp
            (min (child degree i (degree - 1) + 1) (length a) - child degree i 0)
            a
            (child degree i 0)
            i)
  unfolding PriQueueA.max_child
  row-IsMaxChild a i hi = rw (scan-eq) (max_child-IsMaxChild key_order degree degree_pos a i hi)

  fix_downwards_loop_restores :
      (fuel : ℕ) (a : List (Element T)) (positions : List ℕ) (i : ℕ)
      → length a < fuel + i
      → DownInv (by_key comp) degree a i
      → IsPlaced a positions
      → Ends (Placed a positions) (fix_downwards_loop comp log_degree degree fuel (a, positions) i)
  unfolding fix_downwards_loop
  fix_downwards_loop_restores zero a positions i enough inv placed =
      absurd (omega (arith, inv.inside))
  fix_downwards_loop_restores (suc fuel) a positions i enough inv placed =
      let hi = inv.inside in
      let test : ltb i (length a) ≡ true = ground arith in
      let (x, at_i) = get_elem?-some a i hi in
      rw (test, shifts)
        (Ends->>= (row-IsMaxChild a i hi) λ m s.
          Ends-split (i == m)
            (λ stay. ends (
              ((λ c u v c_pos at_u at_v. ground (arith, inv.edges c u v, s.least c v)), Perm.rfl),
              placed,
              refl,
            ))
            (λ go.
              let moved : m ≢ i = ground arith in
              let ne : i ≢ m = ground arith in
              let deeper = below_i key_order degree degree_pos a i m x inv s moved at_i in
              let next = sunk-DownInv key_order degree degree_pos a i m x inv s moved at_i in
              let size = length-exchange a i m x s.best at_i s.value in
              let kept = traded-IsPlaced a positions i m x s.best placed ne at_i s.value in
              rw (swap_elements_lem a positions i m x s.best placed ne at_i s.value) (
                Ends-weaken (fix_downwards_loop_restores fuel _ _ m (omega arith) next kept) λ w t.
                  (
                    (t.0.0, Perm.trans t.0.1 (exchange-perm a i m x s.best at_i s.value)),
                    t.1,
                    t.2
                        ∙ length-exchange positions x.h s.best.h i m (placed i x at_i)
                            (placed m s.best s.value),
                  ))))

  pub fix_downwards-Placed :
      (a : List (Element T)) (positions : List ℕ) (i : ℕ)
      → DownInv (by_key comp) degree a i
      → IsPlaced a positions
      → Ends (Placed a positions) (fix_downwards comp log_degree (a, positions) i)
  unfolding fix_downwards
  fix_downwards-Placed a positions i inv placed =
      let test : ltb i (length a) ≡ true = (let h = inv.inside in ground arith) in
      rw (test, shifts)
        (fix_downwards_loop_restores (suc (length a)) a positions i (omega arith) inv placed)
