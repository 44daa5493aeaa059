-- ===== src/Pq/Heap/Up.antt =====
-- `fix_upwards` restores a heap in which one entry may be too high for its place.
use mathlib.Core.List.Perm
use wt_lab_efficient_paral.Common.{
  ℕ, zero, suc, ◌<◌, ◌≡◌, Bool, true, List, Option, some, not, ◌>>=◌, ◌>>◌, length, get_elem?, set,
  get_elem?-some, get_elem?-exchange, exchange-perm, length-exchange, get_elem?-lt, ◌==◌,
  if◌then◌else◌, ends, Ends, Ends-weaken, Ends-split, arith, ltb, assert,
}
use wt_lab_efficient_paral.Pq.Tree.{parent, parent-lt}
use wt_lab_efficient_paral.Pq.Order.{StrictWeak}
use wt_lab_efficient_paral.Pq.PriQueueA.{fix_upwards_loop, fix_upwards}
use wt_lab_efficient_paral.Pq.Heap.{UpInv, Sifted}

module _ {A : Type 0} {comp : A → A → Bool} (order : StrictWeak comp) (degree : ℕ)
    (pos : 0 < degree) where
  module _ (a : List A) (i : ℕ) (x y : A) (inv : UpInv comp degree a i) (up : 0 < i)
      (at_p : get_elem? a (parent degree i) ≡ some x) (at_i : get_elem? a i ≡ some y)
      (high : comp x y ≡ true) where
    abbrev p : ℕ
    p = parent degree i

    -- The vector after the exchange.
    abbrev pub raised : List A
    raised = set (set a p y) i x

    read :
        (c : ℕ)
        → get_elem? raised c ≡ (if i == c then some x else if p == c then some y else get_elem? a c)
    read c = get_elem?-exchange a p i x y at_p at_i c

    pub raised-UpInv : UpInv comp degree raised p
    raised-UpInv = record {
      inside = omega (arith, get_elem?-lt a p at_p, length-exchange a p i x y at_p at_i);
      edges = λ c u v c_pos ne at_u at_v. ground (
        arith,
        read c,
        read (parent degree c),
        order.asym x y,
        order.neg_trans y x v,
        inv.edges c u v,
        inv.edges c x v,
        inv.bridged c x v,
      );
      bridged = λ c u v c_pos below p_pos at_u at_v. ground (
        arith,
        read c,
        read (parent degree p),
        parent-lt degree pos p,
        parent-lt degree pos i,
        inv.edges p u x,
        inv.edges c x v,
        order.neg_trans u x v,
      );
    }

    -- The `assert` after the exchange holds.
    pub raised-entries : (get_elem? raised p ≡ some y) × (get_elem? raised i ≡ some x)
    raised-entries =
        let lower = parent-lt degree pos i up in (ground (arith, read p), ground (arith, read i))

    raised-Ends :
        (o : List A → Option (List A))
        → (UpInv comp degree raised p → Ends (Sifted comp degree raised) (o raised))
        → Ends
            (Sifted comp degree a)
            (do u ← get_elem? raised p; v ← get_elem? raised i; assert (not (comp u v)); o raised)
    raised-Ends o go_on =
        rw (raised-entries.0, raised-entries.1, order.asym x y high)
          (Ends-weaken (go_on raised-UpInv)
            λ b s. (s.0, Perm.trans s.1 (exchange-perm a p i x y at_p at_i)))

  fix_upwards_loop_restores :
      (fuel : ℕ) (a : List A) (i : ℕ)
      → i < fuel
      → UpInv comp degree a i
      → Ends (Sifted comp degree a) (fix_upwards_loop comp degree fuel a i)
  unfolding fix_upwards_loop
  fix_upwards_loop_restores zero a i enough inv = absurd (omega arith)
  fix_upwards_loop_restores (suc fuel) a i enough inv =
      Ends-split (ltb 0 i)
        (λ test.
          let up : 0 < i = ground arith in
          let lower = parent-lt degree pos i up in
          let (y, at_i) = get_elem?-some a i inv.inside in
          let (x, at_p) = get_elem?-some a (parent degree i) (omega arith) in
          rw (at_p, at_i)
            (Ends-split (comp x y)
              (λ high.
                raised-Ends a i x y inv up at_p at_i high
                  (λ b. fix_upwards_loop comp degree fuel b (parent degree i))
                  (fix_upwards_loop_restores fuel _ (parent degree i) (omega arith)))
              (λ low. ends ((λ c u v c_pos at_u at_v. ground (arith, inv.edges c u v)), Perm.rfl))))
        (λ root.
          ends
            ((λ c u v c_pos at_u at_v. inv.edges c u v c_pos (ground arith) at_u at_v), Perm.rfl))

  -- `fix_upwards` ends, and turns a vector with one entry too low in the tree into a heap of the
  -- same entries.
  pub fix_upwards_restores :
      (a : List A) (i : ℕ)
      → UpInv comp degree a i
      → Ends (Sifted comp degree a) (fix_upwards comp degree a i)
  unfolding fix_upwards
  fix_upwards_restores a i inv =
      let test : ltb i (length a) ≡ true = (let h = inv.inside in ground arith) in
      rw test (fix_upwards_loop_restores (suc i) a i (omega arith) inv)
