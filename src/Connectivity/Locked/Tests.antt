-- ===== src/Connectivity/Locked/Tests.antt =====
-- Runs of the union-finds with mutexes, and their theorems at concrete runs.
use wt_lab_efficient_paral.Common.{
  ℕ, ◌≡◌, ◌≢◌, ◌↔◌, refl, inl, inr, [], ◌∷◌, some, none, get_elem?, set, Ends, true, arith, suc,
}
use wt_lab_efficient_paral.Connectivity.Joined.{Joined}
use wt_lab_efficient_paral.Connectivity.Concurrent.Local.{Asked}
use wt_lab_efficient_paral.Connectivity.Concurrent.Correct.{IsSettled}
use wt_lab_efficient_paral.Connectivity.Locked.{
  dc_b, dc_c, Pc, System, Move, Reach, here, init, start_unite, at_root, start_locking, ordered,
  lock_a_ok, a_root, lock_b_ok, b_root, links, unlocks_b, unlocks_a, link, connected,
  find_representative,
}
use wt_lab_efficient_paral.Connectivity.Locked.Locks.{Both}
use wt_lab_efficient_paral.Connectivity.Locked.Runs.{move}
use wt_lab_efficient_paral.Connectivity.Locked.Asserts.{link_asserts, write_locked}
use wt_lab_efficient_paral.Connectivity.Locked.Correct.{locked_correct}
use wt_lab_efficient_paral.Connectivity.Locked.Cycle.{compress_cycle}

-- Thread 0 is about to link nodes 0 and 1 of three.
locked_run : (s : System) × Reach dc_b 3 s
unfolding init
locked_run =
    let r1 = move 0 refl (start_unite {a = 0} {b = 1} (omega arith) (omega arith)) here in
    let r2 = move 0 refl (at_root refl refl) (move 0 refl (at_root refl refl) r1) in
    let r3 = move 0 refl (start_locking (omega arith)) r2 in
    let r4 = move 0 refl (at_root refl refl) (move 0 refl (at_root refl refl) r3) in
    let r5 = move 0 refl (lock_a_ok refl) (move 0 refl (ordered (omega arith)) r4) in
    let r6 = move 0 refl (lock_b_ok refl) (move 0 refl (a_root refl) r5) in
    (_, move 0 refl (b_root refl) r6)

abbrev locked_state : System
locked_state = locked_run.0

locked_at_link : locked_state.pc 0 ≡ link (0, 1) 0 1
unfolding locked_run
locked_at_link = refl

link_asserts_example :
    Both locked_state.mem 0 0 1
    × (get_elem? locked_state.mem.union_find_parents 0 ≡ some 0)
    × (get_elem? locked_state.mem.union_find_parents 1 ≡ some 1)
link_asserts_example = link_asserts dc_b 3 locked_state locked_run.1 0 0 1 (0, 1) locked_at_link

locked_parents : locked_state.mem.union_find_parents ≡ 0 ∷ 1 ∷ 2 ∷ []
unfolding locked_run init
locked_parents = refl

links_move :
    Move dc_b 0 locked_state.mem
      (locked_state.pc 0)
      (record locked_state.mem { union_find_parents = set locked_state.mem.union_find_parents 1 0 })
      (Pc.unlock_b (0, 1) 0 1)
      []
unfolding locked_run
links_move = links refl

links_changes :
    get_elem? (set locked_state.mem.union_find_parents 1 0) 1
    ≢ get_elem? locked_state.mem.union_find_parents 1
links_changes = rw locked_parents (λ e. cc)

write_locked_example : locked_state.mem.holder 1 ≡ some 0
write_locked_example = write_locked dc_b 3 locked_state locked_run.1 0 1 links_move links_changes

-- Thread 0 has united them.
united_run : (s : System) × Reach dc_b 3 s
unfolding locked_run init
united_run =
    (_, move 0 refl unlocks_a (move 0 refl unlocks_b (move 0 refl (links refl) locked_run.1)))

united-IsSettled : IsSettled united_run.0.log
unfolding united_run locked_run
united-IsSettled x y (inl e) = inl e
united-IsSettled x y (inr e) = absurd e

locked_correct_example :
    Ends
      (λ answer. (answer ≡ true) ↔ Joined (Asked united_run.0.log) 0 2)
      (connected 3 united_run.0.mem.union_find_parents 0 2)
locked_correct_example =
    locked_correct 3 united_run.0 united_run.1 0 2 3 united-IsSettled (omega arith) (omega arith)
      (omega arith)

compress_cycle_example :
    (s : System) × Reach dc_c (suc (suc 1)) s
    × (get_elem? s.mem.union_find_parents 0 ≡ some 1)
    × (get_elem? s.mem.union_find_parents 1 ≡ some 0)
    × ((fuel : ℕ) → find_representative fuel s.mem.union_find_parents 0 ≡ none)
compress_cycle_example = compress_cycle 1
