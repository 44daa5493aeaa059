-- ===== src/Connectivity/Locked/Asserts.antt =====
-- dynamic_connectivity_b.cpp to _e.cpp: what `unite` asserts, and that a parent is only written under
-- the mutex of its node.
use native.Mathlib.Decide.{ℕ_discrete}
use wt_lab_efficient_paral.Common.{
  ℕ, inl, inr, ◌≡◌, ◌≢◌, List, some, get_elem?, update_self, update_other,
}
use wt_lab_efficient_paral.Connectivity.Concurrent.{Job, Event}
use wt_lab_efficient_paral.Connectivity.Locked.{
  Build, Memory, Pc, System, Move, Reach, here, later, pick, link,
}
use wt_lab_efficient_paral.Connectivity.Locked.Locks.{
  Both, Local, Move-Frame, Move-Local, Local-kept,
}

module _ (build : Build) (n : ℕ) where
  Reach-Local : {s : System} → Reach build n s → (i : ℕ) → Local s.mem i (s.pc i)
  Reach-Local here i = tt
  Reach-Local (later {s} r (pick i {m} {p} {events} mv)) j =
      let l = Reach-Local r i in
      elim (ℕ_discrete i j) [
        | yes e ↦ rw (← e, update_self s.pc i p) (Move-Local build i mv l)
        | no ne ↦
            rw (update_other s.pc i j p ne)
              (Local-kept i j s.mem m (Move-Frame build i mv l) ne (s.pc j) (Reach-Local r j))
      ]

  module _ (s : System) (reach : Reach build n s) where
    -- In every reachable state, a thread that is about to link `a` and `b` in `unite` has them in
    -- order, holds both mutexes, and finds both nodes to be roots, as the source asserts.
    pub link_asserts :
        (i a b : ℕ) (job : Job)
        → s.pc i ≡ link job a b
        → Both s.mem i a b
          × (get_elem? s.mem.union_find_parents a ≡ some a)
          × (get_elem? s.mem.union_find_parents b ≡ some b)
    link_asserts i a b job at_link = rw at_link at (Reach-Local reach i)

    -- In every reachable state, a step of a thread that changes the parent of a node is made while
    -- that thread holds the mutex of the node.
    pub write_locked :
        (i x : ℕ) {m : Memory} {p : Pc} {events : List Event}
        → Move build i s.mem (s.pc i) m p events
        → get_elem? m.union_find_parents x ≢ get_elem? s.mem.union_find_parents x
        → s.mem.holder x ≡ some i
    write_locked i x {m} mv changed =
        elim ((Move-Frame build i mv (Reach-Local reach i)).written x) [
          | inl e ↦ absurd (changed e)
          | inr held ↦ held
        ]
