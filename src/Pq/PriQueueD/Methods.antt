-- ===== src/Pq/PriQueueD/Methods.antt =====
-- `push` and `pop` of `PriQueueD` keep the heap, its elements and the handles.
use mathlib.Core.List.Perm
use native.Mathlib.Nat.{one-le-pow}
use wt_lab_efficient_paral.Common.{
  ==_self, ℕ, suc, ◌-◌, ◌^◌, ◌<◌, ◌≡◌, refl, Bool, false, List, [], ◌∷◌, ◌++◌, some, Perm, length,
  get_elem?, set, get_elem?-some, get_elem?-lt, get_elem?-set, get_elem?-append, get_elem?-take,
  length-append, length-set, append-perm, ◌==◌, if◌then◌else◌, Ends, ends, Ends->>=, Ends-split,
  arith, ltb, true,
}
use wt_lab_efficient_paral.Pq.Order.{StrictWeak}
use wt_lab_efficient_paral.Pq.AlignedVector.{push_back}
use wt_lab_efficient_paral.Pq.PriQueueD.{
  Element, no_position, PriQueueD, pos, set_pos, empty, push, pop, fix_downwards,
}
use wt_lab_efficient_paral.Pq.PriQueueD.Simulate.{
  IsPlaced, by_key, by_key-StrictWeak, fix_upwards-Placed, fix_downwards-Placed, Placed,
}
use wt_lab_efficient_paral.Pq.Heap.{IsHeap}
use wt_lab_efficient_paral.Pq.PriQueueA.Correct.{
  push-UpInv, rest, rest-perm, rest-length, rest-DownInv,
}

module _ {T : Type 0} (comp : T → T → Bool) where
  -- The shifts by `m_log_degree` are defined, as the constructor asks.
  pub record IsValid (q : PriQueueD T) : Type 0 where
    pub shift : q.m_log_degree < 64
    pub heap : IsHeap (by_key comp) (2 ^ q.m_log_degree) q.m_elements
    pub placed : IsPlaced q.m_elements q.m_positions

module _ {T : Type 0} {comp : T → T → Bool} (order : StrictWeak comp) where
  degree_pos : (log_degree : ℕ) → 0 < 2 ^ log_degree
  degree_pos log_degree = one-le-pow log_degree 2 (omega arith)

  push-IsPlaced :
      (a : List (Element T)) (positions : List ℕ) (value : T)
      → IsPlaced a positions
      → IsPlaced (a ++ record { e = value; h = length positions } ∷ []) (positions ++ length a ∷ [])
  push-IsPlaced a positions value placed c x at_x =
      let new : Element T = record { e = value; h = length positions } in
      ground (
        arith,
        get_elem?-append a new c,
        get_elem?-append positions (length a) x.h,
        placed c x,
        λ (e : get_elem? positions x.h ≡ some c). get_elem?-lt positions x.h e,
      )

  -- `push` on a valid queue with room for an element ends, with every `assert` holding, in a valid queue that holds one more
  -- element: the value, under the handle that is returned, which is new.
  pub PriQueueD_push_correct :
      (q : PriQueueD T) (value : T)
      → IsValid comp q
      → length q.m_elements < q.m_capacity
      → Ends
          (λ (r, h).
            IsValid comp r
            × Perm r.m_elements (record { e = value; h = h } ∷ q.m_elements)
            × (h ≡ length q.m_positions))
          (push comp q value)
  unfolding push pos push_back
  PriQueueD_push_correct q value v room =
      let a = q.m_elements in
      let positions = q.m_positions in
      let new : Element T = record { e = value; h = length positions } in
      let handles : length (positions ++ length a ∷ []) - 1 ≡ length positions =
        omega (arith, length-append positions (length a ∷ [])) in
      let size : length (a ++ new ∷ []) - 1 ≡ length a =
        omega (arith, length-append a (new ∷ [])) in
      let test : ltb (length a) q.m_capacity ≡ true = ground arith in
      let placed = push-IsPlaced a positions value v.placed in
      let at_last : get_elem? (a ++ new ∷ []) (length a) ≡ some new =
        ground (arith, get_elem?-append a new (length a)) in
      rw (handles, test, size, at_last, placed (length a) new at_last, ==_self (length a))
        (Ends->>=
          (fix_upwards-Placed order q.m_log_degree v.shift _ _ (length a)
            (push-UpInv (by_key-StrictWeak order) (2 ^ q.m_log_degree) a new
              (degree_pos q.m_log_degree) v.heap)
            placed)
          λ w s. ends (
            record { shift = v.shift; heap = s.0.0; placed = s.1 },
            Perm.trans s.0.1 (append-perm a new),
            refl,
          ))

  module _ (q : PriQueueD T) (x back : Element T) (n : ℕ) (v : IsValid comp q)
      (n_last : length q.m_elements ≡ suc n) (at_x : get_elem? q.m_elements 0 ≡ some x)
      (at_back : get_elem? q.m_elements n ≡ some back) where
    abbrev degree : ℕ
    degree = 2 ^ q.m_log_degree

    -- The vectors before the sift.
    abbrev left : List (Element T)
    left = rest (by_key-StrictWeak order) degree q.m_elements x back n n_last at_x at_back

    abbrev marked : List ℕ
    marked = set q.m_positions x.h no_position

    abbrev moved : List ℕ
    moved = set marked back.h 0

    read_pos :
        (h : ℕ)
        → get_elem? moved h ≡ (
            if back.h == h
            then some 0
            else if x.h == h
            then some no_position
            else get_elem? q.m_positions h)
    read_pos h =
        let known = get_elem?-lt q.m_positions x.h (v.placed 0 x at_x) in
        let known_back = get_elem?-lt q.m_positions back.h (v.placed n back at_back) in
        rw (
          get_elem?-set marked back.h h 0 (omega (arith, length-set q.m_positions x.h no_position)),
          get_elem?-set q.m_positions x.h h no_position known,
        )

    left-IsPlaced : IsPlaced left moved
    left-IsPlaced c y at_y =
        let (lt, kept) = get_elem?-take n (set q.m_elements 0 back) c at_y in
        ground (
          arith,
          read_pos y.h,
          get_elem?-set q.m_elements 0 c back,
          v.placed c y,
          v.placed n back,
          v.placed 0 x,
        )

    left-Ends : Ends (Placed order q.m_log_degree v.shift left moved) (
        if length left == 0
        then some (left, moved)
        else fix_downwards comp q.m_log_degree (left, moved) 0)
    left-Ends =
        let size =
          rest-length (by_key-StrictWeak order) degree q.m_elements x back n n_last at_x at_back in
        Ends-split (length left == 0)
          (λ none_left. ends (
            (
              (λ c y z c_pos at_y at_z. absurd (ground (arith, get_elem?-lt left c at_z))),
              Perm.rfl,
            ),
            left-IsPlaced,
            refl,
          ))
          (λ some_left.
            fix_downwards-Placed order q.m_log_degree v.shift left moved 0
              (rest-DownInv (by_key-StrictWeak order) degree q.m_elements x back n n_last at_x
                at_back v.heap (ground (arith, size)))
              left-IsPlaced)

    pop_steps :
        (length q.m_elements == 0) ≡ false
        → Ends (λ r. IsValid comp r × Perm (x ∷ r.m_elements) q.m_elements) (pop comp q)
    unfolding pop empty pos set_pos
    pop_steps full =
        let last : length q.m_elements - 1 ≡ n = omega arith in
        let size : length (set q.m_elements 0 back) - 1 ≡ n =
          omega (arith, length-set q.m_elements 0 back) in
        let front : get_elem? (set q.m_elements 0 back) 0 ≡ some back =
          ground (arith, get_elem?-set q.m_elements 0 0 back) in
        let known : get_elem? marked back.h ≡ some (if x.h == back.h then no_position else n) =
          ground (
            arith,
            get_elem?-set q.m_positions x.h back.h no_position,
            v.placed n back at_back,
            v.placed 0 x at_x,
            get_elem?-lt q.m_positions x.h (v.placed 0 x at_x),
          ) in
        let zero_at : get_elem? moved back.h ≡ some 0 = ground (arith, read_pos back.h) in
        let removed =
          rest-perm (by_key-StrictWeak order) degree q.m_elements x back n n_last at_x at_back in
        rw (full, at_x, v.placed 0 x at_x, last, at_back, front, known, zero_at, size)
          (Ends->>= left-Ends λ w s. ends (
            record { shift = v.shift; heap = s.0.0; placed = s.1 },
            Perm.trans (Perm.cons x s.0.1) removed,
          ))

  -- `pop` on a valid queue whose front is `x` ends, with every `assert` holding, in a valid queue
  -- that has lost exactly `x`.
  pub pop-front :
      (q : PriQueueD T) (x : Element T)
      → IsValid comp q
      → get_elem? q.m_elements 0 ≡ some x
      → Ends (λ r. IsValid comp r × Perm (x ∷ r.m_elements) q.m_elements) (pop comp q)
  pop-front q x v at_x =
      let some_left = get_elem?-lt q.m_elements 0 at_x in
      let n = length q.m_elements - 1 in
      let (back, at_back) = get_elem?-some q.m_elements n (omega arith) in
      pop_steps q x back n v (omega arith) at_x at_back (ground arith)
