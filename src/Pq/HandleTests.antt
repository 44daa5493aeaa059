-- ===== src/Pq/HandleTests.antt =====
-- Runs of the queue with handles, and its theorems at a concrete queue.
use wt_lab_efficient_paral.Common.{
  ℕ, zero, suc, ◌≡◌, refl, [], ◌∷◌, some, Perm, Ends, ltb, arith, ◌>>=◌,
}
use wt_lab_efficient_paral.Pq.IndexedPriorityQueue
use wt_lab_efficient_paral.Pq.IndexedPriorityQueue.LastChild.{change_priority_last_child}
use wt_lab_efficient_paral.Pq.Order.{StrictWeak}
use wt_lab_efficient_paral.Pq.PriQueueD
use wt_lab_efficient_paral.Pq.PriQueueD.{Element, PriQueueD}
use wt_lab_efficient_paral.Pq.Heap.{IsHeap}
use wt_lab_efficient_paral.Pq.PriQueueD.Simulate.{IsPlaced, by_key}
use wt_lab_efficient_paral.Pq.PriQueueD.Methods.{IsValid, pop-front}
use wt_lab_efficient_paral.Pq.PriQueueD.ChangeKey.{change_key_correct}

-- `std::greater`: the least key comes first.
greater-StrictWeak : StrictWeak (λ x y. ltb y x)
greater-StrictWeak = record { asym = λ x y h. ground arith; neg_trans = λ x y z h k. ground arith }

abbrev first_two : PriQueueD ℕ
first_two = record {
  m_elements = record { e = 3; h = 1 } ∷ record { e = 5; h = 0 } ∷ [];
  m_capacity = 5;
  m_positions = 1 ∷ 0 ∷ [];
  m_log_degree = 1;
}

-- Two pushes, then a change of the first key; the handles follow.
handle_run :
    (PriQueueD.init 16 8 5 1 >>= λ q. PriQueueD.push (λ x y. ltb y x) q 5 >>= λ r.
    PriQueueD.push (λ x y. ltb y x) r.0 3 >>= λ s. some s.0)
    ≡ some first_two
unfolding PriQueueD.push PriQueueD.init PriQueueD.fix_upwards PriQueueD.fix_upwards_loop
    PriQueueD.swap_elements
handle_run = refl

first_two-IsPlaced : IsPlaced first_two.m_elements first_two.m_positions
first_two-IsPlaced zero x at_x = ground arith
first_two-IsPlaced (suc zero) x at_x = ground arith
first_two-IsPlaced (suc (suc c)) x at_x = cc

first_two-IsHeap : IsHeap (by_key (λ x y. ltb y x)) 2 first_two.m_elements
first_two-IsHeap zero x y c_pos at_x at_y = elim c_pos [ ]
first_two-IsHeap (suc zero) x y c_pos at_x at_y = ground arith
first_two-IsHeap (suc (suc c)) x y c_pos at_x at_y = cc

first_two-IsValid : IsValid (λ x y. ltb y x) first_two
first_two-IsValid = record {
  shift = omega arith;
  heap = first_two-IsHeap;
  placed = first_two-IsPlaced;
}

pop-front_example :
    Ends
      (λ r.
        IsValid (λ x y. ltb y x) r
        × Perm (record { e = 3; h = 1 } ∷ r.m_elements) first_two.m_elements)
      (PriQueueD.pop (λ x y. ltb y x) first_two)
pop-front_example =
    pop-front greater-StrictWeak first_two (record { e = 3; h = 1 }) first_two-IsValid refl

change_key_correct_example :
    (PriQueueD.get_key first_two 0 ≡ some 5)
    × Ends
        (λ r.
          IsValid (λ x y. ltb y x) r
          × Perm r.m_elements (record { e = 3; h = 1 } ∷ record { e = 2; h = 0 } ∷ []))
        (PriQueueD.change_key (λ x y. ltb y x) first_two 0 2)
change_key_correct_example =
    change_key_correct greater-StrictWeak first_two 1 (record { e = 5; h = 0 }) 2 first_two-IsValid
      refl

-- Numbers, the greatest first: key 0 with 9, key 1 with 5, then key 0 is lowered to 3.
change_priority_last_child_example :
    Ends
      (λ s.
        (IndexedPriorityQueue.top s ≡ some (0, 3)) × (IndexedPriorityQueue.priority 1 s ≡ some 5))
      (IndexedPriorityQueue.push ltb (0, 0) 0 9 (IndexedPriorityQueue.init (0, 0) 2) >>= λ q.
        IndexedPriorityQueue.push ltb (0, 0) 1 5 q >>= λ r.
        IndexedPriorityQueue.change_priority ltb 0 3 r)
change_priority_last_child_example = change_priority_last_child ltb (0, 0) 9 5 3 refl refl refl
