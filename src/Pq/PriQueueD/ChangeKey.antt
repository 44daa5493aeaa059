-- ===== src/Pq/PriQueueD/ChangeKey.antt =====
-- `change_key` of `PriQueueD`, and reading a key through a handle.
use native.Mathlib.Nat.{one-le-pow}
use wt_lab_efficient_paral.Common.{
  ℕ, ◌^◌, ◌<◌, ◌≡◌, Bool, true, false, List, some, Perm, length, get_elem?, set, get_elem?-lt,
  get_elem?-set, length-set, ◌==◌, if◌then◌else◌, Ends, ends, Ends->>=, Ends-split, arith,
}
use wt_lab_efficient_paral.Pq.Tree.{parent, parent-lt}
use wt_lab_efficient_paral.Pq.Order.{StrictWeak}
use wt_lab_efficient_paral.Pq.PriQueueD.{Element, PriQueueD, pos, change_key, get_key}
use wt_lab_efficient_paral.Pq.PriQueueD.Simulate.{
  IsPlaced, by_key, fix_upwards-Placed, fix_downwards-Placed,
}
use wt_lab_efficient_paral.Pq.PriQueueD.Methods.{IsValid}
use wt_lab_efficient_paral.Pq.Heap.{UpInv, DownInv}

module _ {T : Type 0} {comp : T → T → Bool} (order : StrictWeak comp) (q : PriQueueD T) (i : ℕ)
    (x : Element T) (newvalue : T) (v : IsValid comp q)
    (at_x : get_elem? q.m_elements i ≡ some x) where
  abbrev degree : ℕ
  degree = 2 ^ q.m_log_degree

  degree_pos : 0 < degree
  degree_pos = one-le-pow q.m_log_degree 2 (omega arith)

  abbrev pub changed : Element T
  changed = record x { e = newvalue }

  -- The elements before the sift.
  abbrev pub rewritten : List (Element T)
  rewritten = set q.m_elements i changed

  read :
      (c : ℕ) → get_elem? rewritten c ≡ (if i == c then some changed else get_elem? q.m_elements c)
  read c = get_elem?-set q.m_elements i c changed (get_elem?-lt q.m_elements i at_x)

  inside : i < length rewritten
  inside = omega (arith, get_elem?-lt q.m_elements i at_x, length-set q.m_elements i changed)

  rewritten-IsPlaced : IsPlaced rewritten q.m_positions
  rewritten-IsPlaced c y at_y = ground (arith, read c, v.placed c y, v.placed i x)

  raised-UpInv : comp x.e newvalue ≡ true → UpInv (by_key comp) degree rewritten i
  raised-UpInv high = record {
    inside = inside;
    edges = λ c y z c_pos ne at_y at_z. ground (
      arith,
      read c,
      read (parent degree c),
      v.heap c y z,
      v.heap c x z,
      order.asym x.e newvalue,
      order.neg_trans newvalue x.e z.e,
    );
    bridged = λ c y z c_pos below i_pos at_y at_z. ground (
      arith,
      read c,
      read (parent degree i),
      parent-lt degree degree_pos i,
      parent-lt degree degree_pos c,
      v.heap i y x,
      v.heap c x z,
      order.neg_trans y.e x.e z.e,
    );
  }

  lowered-DownInv : comp x.e newvalue ≡ false → DownInv (by_key comp) degree rewritten i
  lowered-DownInv low = record {
    inside = inside;
    edges = λ c y z c_pos ne at_y at_z. ground (
      arith,
      read c,
      read (parent degree c),
      v.heap c y z,
      v.heap c y x,
      order.neg_trans y.e x.e newvalue,
    );
    bridged = λ c y z c_pos below i_pos at_y at_z. ground (
      arith,
      read c,
      read (parent degree i),
      parent-lt degree degree_pos i,
      parent-lt degree degree_pos c,
      v.heap i y x,
      v.heap c x z,
      order.neg_trans y.e x.e z.e,
    );
  }

  -- On a valid queue `get_key` reads an element's key through its handle, and `change_key` ends, with
  -- every `assert` holding, in a valid queue in which the key of that element alone is replaced.
  pub change_key_correct :
      (get_key q x.h ≡ some x.e)
      × Ends (λ r. IsValid comp r × Perm r.m_elements rewritten) (change_key comp q x.h newvalue)
  unfolding change_key get_key pos
  change_key_correct = (
    rw (v.placed i x at_x, at_x),
    rw (v.placed i x at_x, at_x)
        (Ends->>=
          (Ends-split (comp x.e newvalue)
            (λ high.
              fix_upwards-Placed order q.m_log_degree v.shift rewritten q.m_positions i
                (raised-UpInv high) rewritten-IsPlaced)
            (λ low.
              fix_downwards-Placed order q.m_log_degree v.shift rewritten q.m_positions i
                (lowered-DownInv low) rewritten-IsPlaced))
          λ w s. ends (record { shift = v.shift; heap = s.0.0; placed = s.1 }, s.0.1)),
  )
