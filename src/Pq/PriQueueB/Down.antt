-- ===== src/Pq/PriQueueB/Down.antt =====
-- `PriQueueB`: the loop over full rows of children, and the last row after it, restore the heap.
use mathlib.Core.List.Perm
use native.Mathlib.Nat.{mul-le-mul_right, mul-le-mul_left}
use wt_lab_efficient_paral.Common.{
  ℕ, zero, suc, ◌+◌, ◌-◌, ◌*◌, ◌≤◌, ◌<◌, ◌≡◌, ◌≢◌, Bool, true, false, List, some, length, get_elem?,
  swap, get_elem?-some, get_elem?-lt, length-exchange, exchange-perm, ◌==◌, Ends, ends, Ends->>=,
  Ends-split, inr, arith, ltb, leb, min,
}
use wt_lab_efficient_paral.Pq.Tree.{child, parent, parent-eq, parent-bounds}
use wt_lab_efficient_paral.Pq.Order.{StrictWeak}
use wt_lab_efficient_paral.Pq.PriQueueB.{
  max_element, fix_last_row, fix_downwards_loop, fix_downwards,
}
use wt_lab_efficient_paral.Pq.Heap.{DownInv, Sifted}
use wt_lab_efficient_paral.Pq.Heap.Down.{
  IsMax, scan_children-IsMax, IsMaxChild, sunk, sunk-DownInv, sunk-Ends, below_i,
}

-- The first child of `m` lies beyond a row of children that is not full.
child-beyond :
    (degree i m size : ℕ)
    → 0 < degree
    → i * degree + 1 ≤ m
    → size < i * degree + 1 + degree
    → size ≤ m * degree
child-beyond degree i m size pos lo short =
    let rows : (i * degree + 1) * degree ≤ m * degree = mul-le-mul_right degree lo in
    let wide : i * degree * 1 ≤ i * degree * degree = mul-le-mul_left (i * degree) pos in
    omega arith

beyond-absurd : (m c degree size : ℕ) → size ≤ m * degree → m * degree + 1 ≤ c → c < size → ⊥
beyond-absurd m c degree size past near here = omega arith

module _ {A : Type 0} {comp : A → A → Bool} (order : StrictWeak comp) (degree : ℕ)
    (pos : 0 < degree) where
  module _ (a : List A) (i m : ℕ) (x : A) (inv : DownInv comp degree a i)
      (at_i : get_elem? a i ≡ some x) (short : length a < child degree i 0 + degree)
      (left : child degree i 0 < length a)
      (s : IsMax order a
        (child degree i 0)
        (child degree i 0 + 1)
        (min (child degree i 0 + degree) (length a) - child degree i 0 - 1)
        m) where
    row-least :
        (c : ℕ) (z : A)
        → 0 < c
        → parent degree c ≡ i
        → get_elem? a c ≡ some z
        → comp s.best z ≡ false
    row-least c z c_pos below at_z =
        let near = rw below at (parent-bounds degree pos c c_pos) in
        let here = get_elem?-lt a c at_z in ground (arith, near, s.old z, s.scanned c z)

    row-IsMaxChild : comp x s.best ≡ true → IsMaxChild order degree pos a i m
    row-IsMaxChild high = record {
      place = inr (
        ground (arith, s.place),
        parent-eq degree pos m i (ground (arith, s.place)) (ground (arith, s.place)),
      );
      best = s.best;
      value = s.value;
      old = λ y at_y. ground (arith, order.asym x s.best);
      least = row-least;
    }

    -- After the exchange with the last row no edge is left below.
    row-Ends : comp x s.best ≡ true → Ends (Sifted comp degree a) (swap a i m)
    unfolding row-IsMaxChild
    row-Ends high =
        let child_of = row-IsMaxChild high in
        let moved : m ≢ i = ground (arith, s.place, mul-le-mul_left i pos) in
        let size = length-exchange a i m x s.best at_i s.value in
        let b = sunk order degree pos a i m x inv child_of moved at_i in
        let after = sunk-DownInv order degree pos a i m x inv child_of moved at_i in
        let past = child-beyond degree i m (length a) pos (ground (arith, s.place)) (omega arith) in
        let beyond =
          λ (c : ℕ) (near : (m * degree + 1 ≤ c) × (c ≤ m * degree + degree)) (here : c < length b).
            beyond-absurd m c degree (length a) past near.0 (rw size at here) in
        rw (at_i, s.value)
          (ends (
            (λ c u w c_pos at_u at_w.
                let near = parent-bounds degree pos c c_pos in
                let here = get_elem?-lt b c at_w in
                after.edges c u w c_pos (λ e. absurd (beyond c (rw e at near) here)) at_u at_w),
            exchange-perm a i m x s.best at_i s.value,
          ))

  row-IsMaxChild_full :
      (a : List A) (i m : ℕ)
      → IsMax order a i (child degree i 0) degree m
      → IsMaxChild order degree pos a i m
  row-IsMaxChild_full a i m s = record {
    place = ground (arith, s.place, parent-eq degree pos m i);
    best = s.best;
    value = s.value;
    old = s.old;
    least = λ c x c_pos below at_x.
        let near = rw below at (parent-bounds degree pos c c_pos) in
        s.scanned c x (omega arith) (omega arith) at_x;
  }

  fix_last_row_restores :
      (a : List A) (i : ℕ)
      → length a < child degree i 0 + degree
      → DownInv comp degree a i
      → Ends (Sifted comp degree a) (fix_last_row comp degree a i)
  unfolding fix_last_row max_element
  fix_last_row_restores a i short inv =
      let first = child degree i 0 in
      Ends-split (ltb first (min (first + degree) (length a)))
        (λ row.
          let (x, at_i) = get_elem?-some a i inv.inside in
          let left : first < length a = ground arith in
          Ends->>=
            (scan_children-IsMax order _ a (first + 1) first (ground arith) (λ _. ground arith))
            λ m s.
              rw (at_i, s.value)
                (Ends-split (comp x s.best)
                  (λ high. rw (at_i, s.value) at (row-Ends a i m x inv at_i short left s high))
                  (λ low. ends (
                    (λ c u v c_pos at_u at_v. ground (
                      arith,
                      inv.edges c u v,
                      row-least a i m x inv at_i short left s c v,
                      order.neg_trans x s.best v,
                    )),
                    Perm.rfl,
                  ))))
        (λ none_left. ends (
          (λ c u v c_pos at_u at_v.
              ground
                (arith, inv.edges c u v, parent-bounds degree pos c c_pos, get_elem?-lt a c at_v)),
          Perm.rfl,
        ))

  fix_downwards_loop_restores :
      (fuel : ℕ) (a : List A) (i : ℕ)
      → length a < fuel + i
      → DownInv comp degree a i
      → Ends (Sifted comp degree a) (fix_downwards_loop comp degree fuel a i)
  unfolding fix_downwards_loop row-IsMaxChild_full
  fix_downwards_loop_restores zero a i enough inv = absurd (omega (arith, inv.inside))
  fix_downwards_loop_restores (suc fuel) a i enough inv =
      let hi = inv.inside in
      let first = child degree i 0 in
      let test : ltb i (length a) ≡ true = ground arith in
      let (x, at_i) = get_elem?-some a i hi in
      rw test (
        Ends-split (leb (first + degree) (length a))
          (λ full.
            Ends->>= (scan_children-IsMax order degree a first i hi (λ _. ground arith)) λ m s.
              let child_of = row-IsMaxChild_full a i m s in
              Ends-split (i == m)
                (λ stay. ends (
                  (λ c u v c_pos at_u at_v. ground (arith, inv.edges c u v, child_of.least c v)),
                  Perm.rfl,
                ))
                (λ go.
                  let moved : m ≢ i = ground arith in
                  let deeper = below_i order degree pos a i m x inv child_of moved at_i in
                  let size = length-exchange a i m x s.best at_i s.value in
                  sunk-Ends order degree pos a i m x inv child_of moved at_i
                    (λ b. fix_downwards_loop comp degree fuel b m)
                    (fix_downwards_loop_restores fuel _ m (omega arith))))
          (λ short. fix_last_row_restores a i (ground arith) inv))

  pub fix_downwards_restores :
      (a : List A) (i : ℕ)
      → DownInv comp degree a i
      → Ends (Sifted comp degree a) (fix_downwards comp degree a i)
  unfolding fix_downwards
  fix_downwards_restores a i inv =
      let test : ltb i (length a) ≡ true = (let h = inv.inside in ground arith) in
      rw test (fix_downwards_loop_restores (suc (length a)) a i (omega arith) inv)
