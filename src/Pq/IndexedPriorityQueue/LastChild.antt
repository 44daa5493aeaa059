-- ===== src/Pq/IndexedPriorityQueue/LastChild.antt =====
-- `siftDown` of `IndexedPriorityQueue` at the parent of a last element that is an only child.
use wt_lab_efficient_paral.Common.{
  ℕ, ◌≡◌, refl, Bool, true, false, [], ◌∷◌, some, ◌>>=◌, Ends, ends,
}
use wt_lab_efficient_paral.Pq.IndexedPriorityQueue.{
  IndexedPriorityQueue, init, push, change_priority, top, priority, sift_up, sift_down, place,
}

module _ {V : Type 0} (comp : V → V → Bool) (blank : ℕ × V) where
  abbrev two_keys : V → V → IndexedPriorityQueue V
  two_keys a b = record { heap = blank ∷ (0, a) ∷ (1, b) ∷ []; index = 1 ∷ 2 ∷ [] }

  abbrev one_key : V → IndexedPriorityQueue V
  one_key a = record { heap = blank ∷ (0, a) ∷ []; index = 1 ∷ 0 ∷ [] }

  first_push : (a : V) → push comp blank 0 a (init blank 2) ≡ some (one_key a)
  unfolding push init sift_up place
  first_push a = refl

  second_push : (a b : V) → comp a b ≡ false → push comp blank 1 b (one_key a) ≡ some (two_keys a b)
  unfolding push sift_up place
  second_push a b behind = rw behind refl

  lowered :
      (a b w : V) → comp w a ≡ true → change_priority comp 0 w (two_keys a b) ≡ some (two_keys w b)
  unfolding change_priority priority sift_down place
  lowered a b w lower = rw lower refl

  -- After pushes of key 0 with `a` and of key 1 with `b` into a new queue, where `a` is not less than
  -- `b`, `changePriority` of key 0 to a `w` that is less than both ends with key 0 and `w` at the top,
  -- although key 1 still has the greater `b`.
  pub change_priority_last_child :
      (a b w : V)
      → comp a b ≡ false
      → comp w a ≡ true
      → comp w b ≡ true
      → Ends
          (λ s. (top s ≡ some (0, w)) × (priority 1 s ≡ some b))
          (push comp blank 0 a (init blank 2) >>= λ q.
            push comp blank 1 b q >>= λ r. change_priority comp 0 w r)
  unfolding top priority
  change_priority_last_child a b w behind lower below =
      rw (first_push a, second_push a b behind, lowered a b w lower) (ends (refl, refl))
