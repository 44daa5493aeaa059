-- ===== src/Pq/Tests.antt =====
-- Runs of the priority queues, and their theorems at concrete queues.
use wt_lab_efficient_paral.Common.{
  ℕ, ◌≡◌, refl, true, false, [], ◌∷◌, none, some, length, ◌⊎◌, ◌≤◌, ◌<◌, Perm, Ends, Ends-value,
  ltb, arith, ◌>>=◌,
}
use wt_lab_efficient_paral.Pq.Order.{StrictWeak}
use wt_lab_efficient_paral.Pq.Heap.{IsHeap}
use wt_lab_efficient_paral.Pq.PriQueueA
use wt_lab_efficient_paral.Pq.PriQueueA.{PriQueueA}
use wt_lab_efficient_paral.Pq.PriQueueA.Correct.{
  IsValid, Holds, push_correct, pop_correct, top_greatest,
}
use wt_lab_efficient_paral.Pq.PriQueueA.Check.{is_valid_decides}
use wt_lab_efficient_paral.Pq.PriQueueB
use wt_lab_efficient_paral.Pq.PriQueueB.{PriQueueB}
use wt_lab_efficient_paral.Pq.PriQueueB.Correct.{Grown, Shrunk, PriQueueB_correct}
use wt_lab_efficient_paral.Pq.PriQueueC
use wt_lab_efficient_paral.Pq.PriQueueC.{PriQueueC}
use wt_lab_efficient_paral.Pq.PriQueueC.Refines.{as_a, PriQueueC-refines}
use mathlib.Core.Option

-- `std::less` on numbers.
less-StrictWeak : StrictWeak ltb
less-StrictWeak = record { asym = λ x y h. ground arith; neg_trans = λ x y z h k. ground arith }

abbrev sample : PriQueueA ℕ
sample = record { m_elements = 9 ∷ 7 ∷ 8 ∷ 1 ∷ 6 ∷ []; m_capacity = 6; m_degree = 3 }

sample_run :
    (PriQueueA.push ltb sample 10 >>= λ q. PriQueueA.pop ltb q >>= PriQueueA.pop ltb)
    ≡ some (record { m_elements = 8 ∷ 7 ∷ 6 ∷ 1 ∷ []; m_capacity = 6; m_degree = 3 })
unfolding PriQueueA.push PriQueueA.fix_upwards PriQueueA.fix_upwards_loop PriQueueA.pop
    PriQueueA.fix_downwards PriQueueA.fix_downwards_loop PriQueueA.max_child PriQueueA.scan_children
sample_run = refl

sample-check : PriQueueA.is_valid ltb sample ≡ some true
unfolding PriQueueA.is_valid
sample-check = refl

sample-IsHeap : IsHeap ltb 3 sample.m_elements
sample-IsHeap =
    let (b, e, decided) = Ends-value (is_valid_decides ltb sample (omega arith)) in
    decided.0 (cc (sample-check))

sample-IsValid : IsValid ltb sample
sample-IsValid = record { degree_pos = omega arith; heap = sample-IsHeap }

push_correct_example :
    ((length sample.m_elements < sample.m_capacity)
      × Ends (Holds ltb sample (10 ∷ sample.m_elements)) (PriQueueA.push ltb sample 10))
    ⊎ ((sample.m_capacity ≤ length sample.m_elements) × (PriQueueA.push ltb sample 10 ≡ none))
push_correct_example = push_correct less-StrictWeak sample 10 sample-IsValid

pop_correct_example :
    Ends
      (λ r. Holds ltb sample r.m_elements r × Perm (9 ∷ r.m_elements) sample.m_elements)
      (PriQueueA.pop ltb sample)
unfolding PriQueueA.top
pop_correct_example = pop_correct less-StrictWeak sample 9 sample-IsValid refl

top_greatest_example : ltb 9 6 ≡ false
unfolding PriQueueA.top
top_greatest_example = top_greatest less-StrictWeak sample 9 6 4 sample-IsValid refl refl

abbrev sample_b : PriQueueB ℕ
sample_b = record { m_elements = sample.m_elements; m_capacity = 6 }

sample_b_run :
    (PriQueueB.push ltb 3 sample_b 10 >>= λ q. PriQueueB.pop ltb 3 q >>= PriQueueB.pop ltb 3)
    ≡ some (record { m_elements = 8 ∷ 7 ∷ 6 ∷ 1 ∷ []; m_capacity = 6 })
unfolding PriQueueB.push PriQueueB.fix_upwards PriQueueA.fix_upwards PriQueueA.fix_upwards_loop
    PriQueueB.pop PriQueueB.fix_downwards PriQueueB.fix_downwards_loop PriQueueB.fix_last_row
    PriQueueB.max_element PriQueueA.scan_children
sample_b_run = refl

PriQueueB_correct_example :
    (((length sample_b.m_elements < sample_b.m_capacity)
        × Ends (Grown ltb 3 sample_b 10) (PriQueueB.push ltb 3 sample_b 10))
      ⊎ ((sample_b.m_capacity ≤ length sample_b.m_elements)
          × (PriQueueB.push ltb 3 sample_b 10 ≡ none)))
    × (((t : ℕ) × (PriQueueB.top sample_b ≡ some t)
          × Ends (Shrunk ltb 3 sample_b t) (PriQueueB.pop ltb 3 sample_b))
        ⊎ ((PriQueueB.top sample_b ≡ none) × (PriQueueB.pop ltb 3 sample_b ≡ none)))
PriQueueB_correct_example =
    PriQueueB_correct less-StrictWeak 3 (omega arith) sample_b 10 sample-IsHeap

-- The alignment of 3 elements of 8 bytes is 32, and 7 places and the 2 of the offset take 96 bytes.
sample_init :
    (PriQueueA.init {A = ℕ} 8 8 7 3
      ≡ some (record { m_elements = []; m_capacity = 10; m_degree = 3 }))
    × (PriQueueB.init {A = ℕ} 3 8 8 7 ≡ some (record { m_elements = []; m_capacity = 10 }))
    × (PriQueueC.init {A = ℕ} 8 8 7 64 ≡ none)
unfolding PriQueueA.init PriQueueB.init PriQueueC.init
sample_init = (refl, refl, refl)

abbrev sample_c : PriQueueC ℕ
sample_c = record { m_elements = 5 ∷ 3 ∷ []; m_capacity = 4; m_log_degree = 1 }

PriQueueC-refines_example :
    (PriQueueC.top sample_c ≡ PriQueueA.top (as_a ltb sample_c))
    × (Option.map (as_a ltb) (PriQueueC.push ltb sample_c 4)
        ≡ PriQueueA.push ltb (as_a ltb sample_c) 4)
    × (Option.map (as_a ltb) (PriQueueC.pop ltb sample_c) ≡ PriQueueA.pop ltb (as_a ltb sample_c))
PriQueueC-refines_example = PriQueueC-refines ltb sample_c 4 (omega arith)
