-- ===== src/Queues/Tests.antt =====
-- Runs of the queues of exercise 4.
use wt_lab_efficient_paral.Common.{
  ℕ, ◌%◌, ◌+◌, ◌≤◌, ◌≡◌, ◌≢◌, refl, true, [], ◌∷◌, ◌↔◌, ◌==◌, arith, some, get_elem?,
}
use wt_lab_efficient_paral.Queues.ConcurrentQueue
use wt_lab_efficient_paral.Queues.ConcurrentQueue.{
  push_store, start_push, load_head, room, claim_slot, store, publish, pick, init, here, next,
  popped, pushed,
}
use wt_lab_efficient_paral.Queues.ConcurrentQueue.Reachable.{
  queue_invariant, slots_exclusive, pop_misses,
}
use wt_lab_efficient_paral.Queues.ConcurrentContainer
use wt_lab_efficient_paral.Queues.ConcurrentContainer.{Elements}
use wt_lab_efficient_paral.Queues.ConcurrentContainer.Conserves.{
  count, count_popped, count_pushed, container_conserves,
}
use wt_lab_efficient_paral.Queues.MutexStdQueue
use wt_lab_efficient_paral.Queues.CasElement
use wt_lab_efficient_paral.Queues.CasElement.Overwrites.{push_overwrites}
use wt_lab_efficient_paral.Queues.MutexStdQueue.{queue_fifo}

-- Two threads push 7 and 8 to a ring with two places; both have claimed a slot.
claimed :
    (s : ConcurrentQueue.System ℕ) × ConcurrentQueue.Reach 0 2 s
    × (s.pc 0 ≡ push_store 7 0)
    × (s.pc 1 ≡ push_store 8 1)
unfolding init
claimed = (
  _,
  next
      (next
        (next
          (next
            (next
              (next (next (next here (pick 0 (start_push 7))) (pick 1 (start_push 8)))
                (pick 0 load_head))
              (pick 0 (room (omega arith))))
            (pick 0 (claim_slot refl)))
          (pick 1 load_head))
        (pick 1 (room (omega arith))))
      (pick 1 (claim_slot refl)),
  refl,
  refl,
)

queue_invariant_example :
    let m = claimed.0.mem in
    (m.m_producer_tail ≤ m.m_consumer_tail)
    × (m.m_consumer_tail ≤ m.m_consumer_head)
    × (m.m_consumer_head ≤ m.m_producer_head)
    × (m.m_producer_head ≤ m.m_producer_tail + 2)
queue_invariant_example = queue_invariant 0 2 claimed.0 claimed.1

slots_exclusive_example : 0 % 2 ≢ 1 % 2
unfolding claimed
slots_exclusive_example = slots_exclusive 0 2 claimed.0 0 1 0 1 claimed.1 (omega arith) refl refl

pop_misses_example :
    (s : ConcurrentQueue.System ℕ) × ConcurrentQueue.Run 0 4 0 s
    × (s.log ≡ popped 0 ∷ pushed 9 ∷ [])
    × (get_elem? s.mem.m_elements 0 ≡ some 9)
pop_misses_example = pop_misses 0 9 2

number_same : (a b : ℕ) → ((a == b) ≡ true) ↔ (a ≡ b)
number_same a b = ground arith

abbrev numbers : Elements ℕ
numbers = record { same = λ a b. a == b; same_iff = number_same; blank = 0 }

-- A thread pushes 5 to a container of two places, from place 1, and another has found it.
container_run : (s : ConcurrentContainer.System numbers) × ConcurrentContainer.Reach numbers 2 s
unfolding ConcurrentContainer.init
container_run = (
  _,
  ConcurrentContainer.next
      (ConcurrentContainer.next
        (ConcurrentContainer.next
          (ConcurrentContainer.next ConcurrentContainer.here
            (ConcurrentContainer.pick 0 (ConcurrentContainer.start_push 5 1)))
          (ConcurrentContainer.pick 0 (ConcurrentContainer.store refl refl)))
        (ConcurrentContainer.pick 1 (ConcurrentContainer.start_pop 3)))
      (ConcurrentContainer.pick 1 (ConcurrentContainer.load refl refl)),
)

container_conserves_example :
    count numbers 5 container_run.0.mem.m_elements + count_popped numbers 5 container_run.0.log
    ≡ count_pushed numbers 5 container_run.0.log
container_conserves_example = container_conserves numbers 5 refl 2 container_run.0 container_run.1

queue_run : (s : MutexStdQueue.System ℕ) × MutexStdQueue.Reach s
unfolding MutexStdQueue.push
queue_run = (
  _,
  MutexStdQueue.next
      (MutexStdQueue.next (MutexStdQueue.next MutexStdQueue.here (MutexStdQueue.call_push 3))
        (MutexStdQueue.call_push 4))
      (MutexStdQueue.call_pop refl),
)

push_overwrites_example :
    (s : CasElement.System numbers) × CasElement.Reach numbers 3 s
    × (s.log
        ≡ ConcurrentContainer.pushed 9
          ∷ ConcurrentContainer.pushed 7
          ∷ ConcurrentContainer.pushed 7
          ∷ [])
    × (s.mem.m_elements ≡ 7 ∷ 9 ∷ 0 ∷ [])
push_overwrites_example = push_overwrites numbers 7 9 1 refl
