-- ===== src/Queues/CasElement/Overwrites.antt =====
-- How an element is lost in the ring of concurrent_queue_cas_element.hpp.
use native.Mathlib.Nat.{mod-eq_of_lt}
use wt_lab_efficient_paral.Common.{ℕ, suc, ◌%◌, ◌≡◌, refl, true, false, [], ◌∷◌, replicate, arith}
use wt_lab_efficient_paral.Queues.ConcurrentContainer.{Elements, pushed}
use wt_lab_efficient_paral.Queues.CasElement.{
  start_push, load_head, load_tail, store, occupied, count_push, System, pick, init, Reach, here,
  next,
}

module _ {T : Type 0} (elements : Elements T) (x e : T) (n : ℕ) where
  open elements use {same, same_iff, blank}

  abbrev ring : ℕ
  ring = suc (suc n)

  zeroth : 0 % ring ≡ 0
  zeroth = mod-eq_of_lt (omega arith)

  first : 1 % ring ≡ 1
  first = mod-eq_of_lt (omega arith)

  itself : (a : T) → same a a ≡ true
  itself a = (same_iff a a).1 refl

  -- On a new ring with two places or more, and `x` other than `T{}`: one thread starts to push `e`,
  -- another pushes `x` twice, and the first finishes. Then three pushes and no pop have returned, but
  -- the array holds `x` once and `e` once: the second `x` is overwritten.
  pub push_overwrites :
      same x blank ≡ false
      → (s : System elements) × Reach elements ring s
        × (s.log ≡ pushed e ∷ pushed x ∷ pushed x ∷ [])
        × (s.mem.m_elements ≡ x ∷ e ∷ replicate n blank)
  unfolding init
  push_overwrites real = (
    _,
    next
        (next
          (next
            (next
              (next
                (next
                  (next
                    (next
                      (next
                        (next
                          (next
                            (next
                              (next
                                (next (next (next here (pick 0 (start_push e))) (pick 0 load_head))
                                  (pick 0 load_tail))
                                (pick 1 (start_push x)))
                              (pick 1 load_head))
                            (pick 1 load_tail))
                          (pick 1 (store (omega arith) (rw zeroth refl) (itself blank))))
                        (pick 1 count_push))
                      (pick 1 (start_push x)))
                    (pick 1 load_head))
                  (pick 1 load_tail))
                (pick 1 (store (omega arith) (rw (zeroth, first) refl) (itself blank))))
              (pick 1 count_push))
            (pick 0 (occupied (omega arith) (rw (zeroth, first) refl) real)))
          (pick 0 (store (omega arith) (rw (zeroth, first) refl) (itself x))))
        (pick 0 count_push),
    refl,
    rw (zeroth, first) refl,
  )
