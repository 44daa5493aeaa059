-- ===== src/Pq/PriQueueC/Refines.antt =====
-- `PriQueueC` computes what `PriQueueA` computes with the degree `2 ^ m_log_degree`.
use mathlib.Core.Option
use wt_lab_efficient_paral.Common.{ℕ, zero, suc, ◌≡◌, ◌<◌, refl, Bool, true, ltb, List, ◌^◌, arith}
use wt_lab_efficient_paral.Pq.PriQueueA
use wt_lab_efficient_paral.Pq.PriQueueA.{PriQueueA}
use wt_lab_efficient_paral.Pq.PriQueueC
use wt_lab_efficient_paral.Pq.PriQueueC.{PriQueueC}

module _ {A : Type 0} (comp : A → A → Bool) where
  -- The same queue with its degree written as a number.
  pub as_a : PriQueueC A → PriQueueA A
  as_a q = record {
    m_elements = q.m_elements;
    m_capacity = q.m_capacity;
    m_degree = 2 ^ q.m_log_degree;
  }

  up_loop-eq :
      (log_degree : ℕ)
      → ltb log_degree 64 ≡ true
      → (fuel : ℕ) (a : List A) (i : ℕ)
      → PriQueueC.fix_upwards_loop comp log_degree fuel a i
        ≡ PriQueueA.fix_upwards_loop comp (2 ^ log_degree) fuel a i
  unfolding PriQueueC.fix_upwards_loop PriQueueA.fix_upwards_loop
  up_loop-eq log_degree shifts zero a i = refl
  up_loop-eq log_degree shifts (suc fuel) a i = rw shifts (simp (up_loop-eq log_degree shifts fuel))

  scan-eq :
      (rounds : ℕ) (a : List A) (k m : ℕ)
      → PriQueueC.scan_children comp rounds a k m ≡ PriQueueA.scan_children comp rounds a k m
  unfolding PriQueueC.scan_children PriQueueA.scan_children
  scan-eq zero a k m = refl
  scan-eq (suc rounds) a k m = simp (scan-eq rounds)

  down_loop-eq :
      (log_degree : ℕ)
      → ltb log_degree 64 ≡ true
      → (fuel : ℕ) (a : List A) (i : ℕ)
      → PriQueueC.fix_downwards_loop comp log_degree (2 ^ log_degree) fuel a i
        ≡ PriQueueA.fix_downwards_loop comp (2 ^ log_degree) fuel a i
  unfolding PriQueueC.fix_downwards_loop PriQueueA.fix_downwards_loop PriQueueA.max_child
  down_loop-eq log_degree shifts zero a i = refl
  down_loop-eq log_degree shifts (suc fuel) a i =
      rw shifts (simp (down_loop-eq log_degree shifts fuel, scan-eq))

  -- Where `m_log_degree` is below 64, `top`, `push` and `pop` of `PriQueueC` are those of `PriQueueA`
  -- with the degree `2 ^ m_log_degree` and the same capacity, faults included.
  pub PriQueueC-refines :
      (q : PriQueueC A) (value : A)
      → q.m_log_degree < 64
      → (PriQueueC.top q ≡ PriQueueA.top (as_a q))
        × (Option.map as_a (PriQueueC.push comp q value) ≡ PriQueueA.push comp (as_a q) value)
        × (Option.map as_a (PriQueueC.pop comp q) ≡ PriQueueA.pop comp (as_a q))
  unfolding as_a PriQueueC.top PriQueueA.top PriQueueC.push PriQueueA.push PriQueueC.pop
      PriQueueA.pop PriQueueC.fix_upwards PriQueueA.fix_upwards PriQueueC.fix_downwards
      PriQueueA.fix_downwards
  PriQueueC-refines q value small =
      let shifts : ltb q.m_log_degree 64 ≡ true = ground arith in
      (
        refl,
        simp (up_loop-eq q.m_log_degree shifts) (ground arith),
        rw shifts (simp (down_loop-eq q.m_log_degree shifts) (ground arith)),
      )
