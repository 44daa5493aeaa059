-- ===== src/Pq/Heap/Down.antt =====
-- `fix_downwards` restores a heap in which one entry may be too low for its place.
use mathlib.Core.List.Perm
use wt_lab_efficient_paral.Common.{
  ℕ, zero, suc, ◌+◌, ◌≤◌, ◌<◌, ◌≡◌, refl, ◌≢◌, Bool, true, false, List, Option, some, ◌>>=◌, length,
  get_elem?, set, swap, get_elem?-some, get_elem?-exchange, exchange-perm, length-exchange,
  get_elem?-lt, ◌==◌, if◌then◌else◌, ends, Ends, Ends-weaken, Ends->>=, Ends-split, Bool-cases, inl,
  inr, ◌⊎◌, arith, ltb,
}
use wt_lab_efficient_paral.Pq.Tree.{child, parent, parent-lt, parent-eq, parent-bounds}
use wt_lab_efficient_paral.Pq.Order.{StrictWeak, irrefl}
use wt_lab_efficient_paral.Pq.PriQueueA.{
  scan_children, max_child, fix_downwards_loop, fix_downwards,
}
use wt_lab_efficient_paral.Pq.Heap.{DownInv, Sifted}

module _ {A : Type 0} {comp : A → A → Bool} (order : StrictWeak comp) where
  -- `m` is `i` or in the range from `k` on, and nothing there comes after it.
  pub record IsMax (a : List A) (i k rounds m : ℕ) : Type 0 where
    pub place : (m ≡ i) ⊎ ((k ≤ m) × (m < k + rounds))
    pub best : A
    pub value : get_elem? a m ≡ some best
    pub old : (x : A) → get_elem? a i ≡ some x → comp best x ≡ false
    pub scanned :
        (c : ℕ) (x : A) → k ≤ c → c < k + rounds → get_elem? a c ≡ some x → comp best x ≡ false

  pub scan_children-IsMax :
      (rounds : ℕ) (a : List A) (k i : ℕ)
      → i < length a
      → (0 < rounds → k + rounds ≤ length a)
      → Ends (IsMax a i k rounds) (scan_children comp rounds a k i)
  unfolding scan_children
  scan_children-IsMax zero a k i hi hk =
      let (x, at_i) = get_elem?-some a i hi in
      ends (record {
        place = inl refl;
        best = x;
        value = at_i;
        old = λ y at_y. ground (arith, irrefl order x);
        scanned = λ c y lo up at_y. absurd (omega arith);
      })
  scan_children-IsMax (suc rounds) a k i hi hk =
      let fits : k + suc rounds ≤ length a = hk (omega arith) in
      let (x, at_i) = get_elem?-some a i hi in
      let (y, at_k) = get_elem?-some a k (omega arith) in
      rw (at_i, at_k)
        (elim (Bool-cases (comp x y)) [
          | inl after ↦ rw after (
              Ends-weaken (scan_children-IsMax rounds a (k + 1) k (omega arith) (omega arith))
                λ m s. record {
                  place = ground (arith, s.place);
                  best = s.best;
                  value = s.value;
                  old =
                      λ z at_z. ground (arith, s.old y, order.asym x y, order.neg_trans s.best y x);
                  scanned = λ c z lo up at_z. ground (arith, s.scanned c z, s.old z);
                })
          | inr before ↦ rw before (
              Ends-weaken (scan_children-IsMax rounds a (k + 1) i hi (omega arith)) λ m s. record {
                place = ground (arith, s.place);
                best = s.best;
                value = s.value;
                old = s.old;
                scanned = λ c z lo up at_z.
                    ground (arith, s.scanned c z, s.old x, order.neg_trans s.best x y);
              })
        ])

module _ {A : Type 0} {comp : A → A → Bool} (order : StrictWeak comp) (degree : ℕ)
    (pos : 0 < degree) where
  -- `m` is `i` or the child of `i` that the loop picks.
  pub record IsMaxChild (a : List A) (i m : ℕ) : Type 0 where
    pub place : (m ≡ i) ⊎ ((0 < m) × (parent degree m ≡ i))
    pub best : A
    pub value : get_elem? a m ≡ some best
    pub old : (x : A) → get_elem? a i ≡ some x → comp best x ≡ false
    pub least :
        (c : ℕ) (x : A) → 0 < c → parent degree c ≡ i → get_elem? a c ≡ some x → comp best x ≡ false

  pub max_child-IsMaxChild :
      (a : List A) (i : ℕ) → i < length a → Ends (IsMaxChild a i) (max_child comp degree a i)
  unfolding max_child
  max_child-IsMaxChild a i hi =
      Ends-weaken (scan_children-IsMax order _ a (child degree i 0) i hi (omega arith)) λ m s.
        record {
          place = ground (arith, s.place, parent-eq degree pos m i);
          best = s.best;
          value = s.value;
          old = s.old;
          least = λ c x c_pos below at_x.
              let near = rw below at (parent-bounds degree pos c c_pos) in
              s.scanned c x (omega arith) (omega (arith, get_elem?-lt a c at_x)) at_x;
        }

  module _ (a : List A) (i m : ℕ) (x : A) (inv : DownInv comp degree a i) (s : IsMaxChild a i m)
      (moved : m ≢ i) (at_i : get_elem? a i ≡ some x) where
    -- The vector after the exchange.
    abbrev pub sunk : List A
    sunk = set (set a i s.best) m x

    read :
        (c : ℕ)
        → get_elem? sunk c
          ≡ (if m == c then some x else if i == c then some s.best else get_elem? a c)
    read c = get_elem?-exchange a i m x s.best at_i s.value c

    pub below_i : (0 < m) × (parent degree m ≡ i) × (i < m)
    below_i = ground (arith, s.place, parent-lt degree pos m)

    pub sunk-DownInv : DownInv comp degree sunk m
    sunk-DownInv = record {
      inside = omega (arith, get_elem?-lt a m s.value, length-exchange a i m x s.best at_i s.value);
      edges = λ c u v c_pos ne at_u at_v. ground (
        arith,
        read c,
        read (parent degree c),
        below_i,
        s.old x,
        s.least c v,
        inv.edges c u v,
        inv.bridged m u s.best,
        parent-lt degree pos c,
      );
      bridged = λ c u v c_pos below m_pos at_u at_v. ground (
        arith,
        read c,
        read (parent degree m),
        below_i,
        parent-lt degree pos c,
        inv.edges c s.best v,
      );
    }

    pub sunk-Ends :
        (o : List A → Option (List A))
        → (DownInv comp degree sunk m → Ends (Sifted comp degree sunk) (o sunk))
        → Ends (Sifted comp degree a) (swap a i m >>= o)
    sunk-Ends o go_on =
        rw (at_i, s.value)
          (Ends-weaken (go_on sunk-DownInv)
            λ b t. (t.0, Perm.trans t.1 (exchange-perm a i m x s.best at_i s.value)))

  fix_downwards_loop_restores :
      (fuel : ℕ) (a : List A) (i : ℕ)
      → length a < fuel + i
      → DownInv comp degree a i
      → Ends (Sifted comp degree a) (fix_downwards_loop comp degree fuel a i)
  unfolding fix_downwards_loop
  fix_downwards_loop_restores zero a i enough inv = absurd (omega (arith, inv.inside))
  fix_downwards_loop_restores (suc fuel) a i enough inv =
      let hi = inv.inside in
      let test : ltb i (length a) ≡ true = ground arith in
      let (x, at_i) = get_elem?-some a i hi in
      rw test (
        Ends->>= (max_child-IsMaxChild a i hi) λ m s.
          Ends-split (i == m)
            (λ stay.
              ends
                ((λ c u v c_pos at_u at_v. ground (arith, inv.edges c u v, s.least c v)), Perm.rfl))
            (λ go.
              let moved : m ≢ i = ground arith in
              let deeper = below_i a i m x inv s moved at_i in
              let size = length-exchange a i m x s.best at_i s.value in
              sunk-Ends a i m x inv s moved at_i (λ b. fix_downwards_loop comp degree fuel b m)
                (fix_downwards_loop_restores fuel _ m (omega arith))))

  -- `fix_downwards` ends, and turns a vector with one entry too high in the tree into a heap of the
  -- same entries.
  pub fix_downwards_restores :
      (a : List A) (i : ℕ)
      → DownInv comp degree a i
      → Ends (Sifted comp degree a) (fix_downwards comp degree a i)
  unfolding fix_downwards
  fix_downwards_restores a i inv =
      let test : ltb i (length a) ≡ true = (let h = inv.inside in ground arith) in
      rw test (fix_downwards_loop_restores (suc (length a)) a i (omega arith) inv)
