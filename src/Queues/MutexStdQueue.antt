-- ===== src/Queues/MutexStdQueue.antt =====
-- exercise4/implementation/mutex_std_queue.hpp: a `std::queue` behind a mutex. A method holds the mutex
-- from its first to its last access to the queue, so it is one step; `pop` waits until its condition
-- holds. `notify_one` only wakes a waiting thread.
use mathlib.Core.List.{append_assoc}
use wt_lab_efficient_paral.Common.{
  ℕ, ◌≡◌, refl, ap, sym, ◌∙◌, Bool, true, false, List, [], ◌∷◌, ◌++◌, length,
}

module _ {T : Type 0} where
  unfoldable pub push : T → List T → List T
  push e queue = queue ++ e ∷ []

  unfoldable pub reset : List T → List T
  reset queue = []

  unfoldable pub empty : List T → Bool
  empty [] = true
  empty (e ∷ queue) = false

  unfoldable pub size : List T → ℕ
  size queue = length queue

pub record System (T : Type 0) : Type 0 where
  pub m_queue : List T
  pub all_pushed : List T
  pub all_popped : List T

module _ {T : Type 0} where
  -- The methods, called in any order by any threads.
  pub data Step (s : System T) : System T → Type 0 where
    call_push :
        (e : T)
        → Step s (record s { m_queue = push e s.m_queue; all_pushed = s.all_pushed ++ e ∷ [] })
    call_pop :
        {e : T} {rest : List T}
        → s.m_queue ≡ e ∷ rest
        → Step s (record s { m_queue = rest; all_popped = s.all_popped ++ e ∷ [] })

  pub data Reach : System T → Type 0 where
    here : Reach (record { m_queue = []; all_pushed = []; all_popped = [] })
    next : {s t : System T} → Reach s → Step s t → Reach t

  -- In every reachable state, what was popped, in order, and then what is in the queue is what was
  -- pushed, in order.
  pub queue_fifo : (s : System T) → Reach s → s.all_pushed ≡ s.all_popped ++ s.m_queue
  unfolding push
  queue_fifo s here = refl
  queue_fifo t (next {s} r (call_push e)) =
      rw (queue_fifo s r) (append_assoc s.all_popped s.m_queue (e ∷ []))
  queue_fifo t (next {s} r (call_pop {e} {rest} front)) =
      queue_fifo s r
      ∙ ap (λ (q : List T). s.all_popped ++ q) front
      ∙ sym (append_assoc s.all_popped (e ∷ []) rest)
