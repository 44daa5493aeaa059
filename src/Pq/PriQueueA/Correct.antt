-- ===== src/Pq/PriQueueA/Correct.antt =====
-- The methods of `PriQueueA` keep the heap and hold exactly the entries that a client put in.
use mathlib.Core.List.Perm
use native.Mathlib.Decide.{dec_lt}
use wt_lab_efficient_paral.Common.{
  ℕ, zero, suc, ◌-◌, ◌≤◌, ◌<◌, ◌≡◌, refl, ◌∙◌, ◌⊎◌, inl, inr, ltb, Bool, true, false, List, [], ◌∷◌,
  ◌++◌, Option, none, some, Perm, length, get_elem?, set, take, length-append, length-set,
  length-take, get_elem?-lt, get_elem?-some, get_elem?-set, get_elem?-append, get_elem?-take,
  append-perm, take-append-last, set-perm, ◌==◌, if◌then◌else◌, Ends, ends, Ends->>=, Ends-split,
  arith,
}
use wt_lab_efficient_paral.Pq.Tree.{parent, parent-lt}
use wt_lab_efficient_paral.Pq.Order.{StrictWeak, irrefl}
use wt_lab_efficient_paral.Pq.AlignedVector.{construct, construct-le, push_back}
use wt_lab_efficient_paral.Pq.PriQueueA.{PriQueueA, init, empty, top, fix_downwards, push, pop}
use wt_lab_efficient_paral.Pq.Heap.{IsHeap, UpInv, DownInv, Sifted}
use wt_lab_efficient_paral.Pq.Heap.Up.{fix_upwards_restores}
use wt_lab_efficient_paral.Pq.Heap.Down.{fix_downwards_restores}

module _ {A : Type 0} (comp : A → A → Bool) where
  pub record IsValid (q : PriQueueA A) : Type 0 where
    pub degree_pos : 0 < q.m_degree
    pub heap : IsHeap comp q.m_degree q.m_elements

  -- `r` is a valid queue of the entries `xs`, of the same degree and capacity as `q`.
  abbrev pub Holds : PriQueueA A → List A → PriQueueA A → Type 0
  Holds q xs r =
      IsValid r × Perm r.m_elements xs × (r.m_degree ≡ q.m_degree) × (r.m_capacity ≡ q.m_capacity)

  -- Where the constructor can make its vector, it makes a valid queue without entries, with room for
  -- at least as many as were asked for.
  pub init-IsValid :
      (size_of align_of capacity degree : ℕ) {c : ℕ}
      → 0 < degree
      → construct size_of align_of capacity degree (degree - 1) ≡ some c
      → Ends
          (λ q. IsValid q × (q.m_elements ≡ []) × (capacity ≤ q.m_capacity))
          (init size_of align_of capacity degree)
  unfolding init
  init-IsValid size_of align_of capacity degree pos made = rw made (
      ends (
        record { degree_pos = pos; heap = λ i x y i_pos at_x at_y. cc },
        refl,
        construct-le size_of align_of capacity degree (degree - 1) made,
      ))

module _ {A : Type 0} {comp : A → A → Bool} (order : StrictWeak comp) where
  pub push-UpInv :
      (degree : ℕ) (a : List A) (value : A)
      → 0 < degree
      → IsHeap comp degree a
      → UpInv comp degree (a ++ value ∷ []) (length a)
  push-UpInv degree a value pos heap = record {
    inside = omega (arith, length-append a (value ∷ []));
    edges = λ c x y c_pos ne at_x at_y. ground (
      arith,
      get_elem?-append a value c,
      get_elem?-append a value (parent degree c),
      heap c x y,
      parent-lt degree pos c,
      get_elem?-lt (a ++ value ∷ []) c at_y,
      length-append a (value ∷ []),
    );
    bridged = λ c x y c_pos below a_pos at_x at_y. absurd (
        omega (
          arith,
          parent-lt degree pos c c_pos,
          get_elem?-lt (a ++ value ∷ []) c at_y,
          length-append a (value ∷ []),
        ));
  }

  -- `push` on a valid queue ends where there is room for an entry, with no `assert` failing, in a
  -- valid queue of the same degree and capacity that holds one more entry, the value. Where the
  -- queue is full, its `assert` fails.
  pub push_correct :
      (q : PriQueueA A) (value : A)
      → IsValid comp q
      → ((length q.m_elements < q.m_capacity)
          × Ends (Holds comp q (value ∷ q.m_elements)) (push comp q value))
        ⊎ ((q.m_capacity ≤ length q.m_elements) × (push comp q value ≡ none))
  unfolding push push_back
  push_correct q value v =
      let size : length (q.m_elements ++ value ∷ []) - 1 ≡ length q.m_elements =
        omega (arith, length-append q.m_elements (value ∷ [])) in
      elim (dec_lt (length q.m_elements) q.m_capacity) [
        | yes room ↦
            let test : ltb (length q.m_elements) q.m_capacity ≡ true = ground arith in
            inl (
              room,
              rw (test, size)
                  (Ends->>=
                    (fix_upwards_restores order q.m_degree v.degree_pos _ _
                      (push-UpInv q.m_degree q.m_elements value v.degree_pos v.heap))
                    λ b s. ends (
                      record { degree_pos = v.degree_pos; heap = s.0 },
                      Perm.trans s.1 (append-perm q.m_elements value),
                      refl,
                      refl,
                    )),
            )
        | no full ↦
            let test : ltb (length q.m_elements) q.m_capacity ≡ false = ground arith in
            inr (omega arith, rw test refl)
      ]

  root_greatest_below :
      (fuel degree : ℕ) (a : List A) (t : A) (i : ℕ) (x : A)
      → 0 < degree
      → IsHeap comp degree a
      → i < fuel
      → get_elem? a 0 ≡ some t
      → get_elem? a i ≡ some x
      → comp t x ≡ false
  root_greatest_below zero degree a t i x pos heap small at_t at_x = absurd (omega arith)
  root_greatest_below (suc fuel) degree a t zero x pos heap small at_t at_x =
      ground (arith, irrefl order x)
  root_greatest_below (suc fuel) degree a t (suc i) x pos heap small at_t at_x =
      let p = parent degree (suc i) in
      let lower = parent-lt degree pos (suc i) (omega arith) in
      let here = get_elem?-lt a (suc i) at_x in
      let (y, at_y) = get_elem?-some a p (omega arith) in
      order.neg_trans t y x
        (root_greatest_below fuel degree a t p y pos heap (omega arith) at_t at_y)
        (heap (suc i) y x (omega arith) at_y at_x)

  -- `top` of a valid queue comes before no entry.
  pub top_greatest :
      (q : PriQueueA A) (t x : A) (i : ℕ)
      → IsValid comp q
      → top q ≡ some t
      → get_elem? q.m_elements i ≡ some x
      → comp t x ≡ false
  unfolding top
  top_greatest q t x i v at_top at_x =
      root_greatest_below (suc i) q.m_degree q.m_elements t i x v.degree_pos v.heap (omega arith)
        (ground arith) at_x

  module _ (degree : ℕ) (a : List A) (t back : A) (n : ℕ) (n_last : length a ≡ suc n)
      (at_t : get_elem? a 0 ≡ some t) (at_back : get_elem? a n ≡ some back) where
    -- What is left when the last entry has replaced the first.
    abbrev pub rest : List A
    rest = take n (set a 0 back)

    pub rest-length : length rest ≡ n
    rest-length = length-take n (set a 0 back) (omega (arith, length-set a 0 back))

    pub rest-perm : Perm (t ∷ rest) a
    rest-perm =
        let kept : get_elem? (set a 0 back) n ≡ some back =
          ground (arith, get_elem?-set a 0 n back) in
        let whole = take-append-last n (set a 0 back) back (length-set a 0 back ∙ n_last) kept in
        let last_first : Perm (back ∷ rest) (set a 0 back) =
          rw whole at (Perm.symm (append-perm rest back)) in
        let traded = Perm.trans (Perm.cons t last_first) (set-perm a 0 back at_t) in
        Perm.cons_inv (Perm.trans (Perm.swap t back rest) traded)

    rest-read : (c : ℕ) (x : A) → get_elem? rest c ≡ some x → 0 < c → get_elem? a c ≡ some x
    rest-read c x at_x c_pos =
        let (lt, e) = get_elem?-take n (set a 0 back) c at_x in
        ground (arith, get_elem?-set a 0 c back)

    pub rest-DownInv : IsHeap comp degree a → 0 < n → DownInv comp degree rest 0
    rest-DownInv heap left = record {
      inside = omega (arith, rest-length);
      edges = λ c x y c_pos ne at_x at_y.
          heap c x y c_pos (rest-read (parent degree c) x at_x (omega arith))
            (rest-read c y at_y c_pos);
      bridged = λ c x y c_pos below never. absurd (omega arith);
    }

    -- What `pop` does with it, for any way to sift down.
    pub rest-Ends :
        (sift : List A → Option (List A))
        → (DownInv comp degree rest 0 → Ends (Sifted comp degree rest) (sift rest))
        → IsHeap comp degree a
        → Ends (Sifted comp degree rest) (if length rest == 0 then some rest else sift rest)
    rest-Ends sift restores heap =
        Ends-split (length rest == 0)
          (λ none_left. ends (
            (λ c x y c_pos at_x at_y. absurd (ground (arith, get_elem?-lt rest c at_y))),
            Perm.rfl,
          ))
          (λ left. restores (rest-DownInv heap (ground (arith, rest-length))))

  -- `pop` on a valid queue that is not empty ends, with no `assert` failing, in a valid queue that
  -- has lost exactly its `top`.
  pub pop_correct :
      (q : PriQueueA A) (t : A)
      → IsValid comp q
      → top q ≡ some t
      → Ends (λ r. Holds comp q r.m_elements r × Perm (t ∷ r.m_elements) q.m_elements) (pop comp q)
  unfolding top pop empty
  pop_correct q t v at_top =
      let a = q.m_elements in
      let at_t : get_elem? a 0 ≡ some t = ground arith in
      let some_left = get_elem?-lt a 0 at_t in
      let n = length a - 1 in
      let n_last : length a ≡ suc n = omega arith in
      let full : (length a == 0) ≡ false = ground arith in
      let (back, at_back) = get_elem?-some a n (omega arith) in
      let removed = rest-perm q.m_degree a t back n n_last at_t at_back in
      rw (full, at_back)
        (Ends->>=
          (rest-Ends q.m_degree a t back n n_last at_t at_back
            (λ b. fix_downwards comp q.m_degree b 0)
            (fix_downwards_restores order q.m_degree v.degree_pos _ 0) v.heap)
          λ c s. ends (
            (record { degree_pos = v.degree_pos; heap = s.0 }, Perm.rfl, refl, refl),
            Perm.trans (Perm.cons t s.1) removed,
          ))

  -- An empty queue has no `top`, and `pop` fails its `assert`.
  pub pop-empty : (q : PriQueueA A) → empty q ≡ true → (top q ≡ none) × (pop comp q ≡ none)
  unfolding top pop empty
  pop-empty q e = (rw e, rw e)
