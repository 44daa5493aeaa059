-- ===== src/Tasks/SolverTests.antt =====
-- A run of `solve` on a tree of four tasks, after which the loop that is to finish the work throws.
use wt_lab_efficient_paral.Common.{
  ℕ, zero, suc, ◌≤◌, ◌<◌, ◌≡◌, ◌≢◌, refl, [], ◌∷◌, none, some, arith, update,
}
use wt_lab_efficient_paral.Queues.MutexStdQueue.{push}
use wt_lab_efficient_paral.Tasks.Tree.{TreeTask, children, work}
use wt_lab_efficient_paral.Tasks.Solver.{
  done_task, Memory, Thread, System, Move, Reach, here, later, pick, claims, pops_global, starts,
  not_done, parent_done, none_left, sends_done, sent_done, leaves, stores, loads_elements,
  adds_elements, keeps, is_full, shares, none_to_share, is_balanced, pops_local, none_to_keep,
  returned, final_loop,
}

-- Nodes 1 and 2 are the children of the root 0, and node 3 is that of node 2.
abbrev four_tasks : TreeTask
four_tasks = record {
  n = 4;
  nodes = 0 ∷ 2 ∷ 2 ∷ 3 ∷ 3 ∷ [];
  work_amount = 1 ∷ 1 ∷ 1 ∷ 1 ∷ [];
  edges = 1 ∷ 2 ∷ 3 ∷ 0 ∷ [];
  parent = 4 ∷ 0 ∷ 0 ∷ 2 ∷ [];
}

go :
    (i : ℕ) {s : System} {m : Memory} {th : Thread}
    → i < 5
    → Move four_tasks 5 s.mem (s.thread i) m th
    → Reach four_tasks 5 s
    → Reach four_tasks 5 (record { mem = m; thread = update s.thread i th })
go i lt mv r = later r (pick i lt mv)

at_0 : 0 < 5
at_0 = omega arith

at_1 : 1 < 5
at_1 = omega arith

at_2 : 2 < 5
at_2 = omega arith

at_3 : 3 < 5
at_3 = omega arith

at_4 : 4 < 5
at_4 = omega arith

first_node : suc 0 ≢ done_task
first_node e = omega arith

second_node : suc 1 ≢ done_task
second_node e = omega arith

no_entry : 0 < 1
no_entry = omega arith

one_entry : 1 ≤ 1
one_entry = omega arith

balanced : 0 ≤ 1
balanced = omega arith

-- Thread 4 finds nothing to claim before thread 0 has worked on the root, and its messages end all
-- threads while node 2 stands in the shared queue.
early_end : (s : System) × Reach four_tasks 5 s
unfolding push children
early_end =
    let r0 = go 0 at_0 (claims tt) here in
    let r1 = go 0 at_0 (pops_global refl) r0 in
    let r2 = go 0 at_0 (starts first_node) r1 in
    let r3 = go 0 at_0 (not_done refl) r2 in
    let r4 = go 0 at_0 (parent_done refl refl) r3 in
    let r5 = go 1 at_1 (claims tt) r4 in
    let r6 = go 2 at_2 (claims tt) r5 in
    let r7 = go 3 at_3 (claims tt) r6 in
    let r8 = go 4 at_4 (none_left (λ h. h)) r7 in
    let r9 = go 4 at_4 sends_done r8 in
    let r10 = go 4 at_4 sends_done r9 in
    let r11 = go 4 at_4 sends_done r10 in
    let r12 = go 4 at_4 sends_done r11 in
    let r13 = go 4 at_4 sends_done r12 in
    let r14 = go 4 at_4 sent_done r13 in
    let r15 = go 4 at_4 (pops_global refl) r14 in
    let r16 = go 4 at_4 (leaves refl) r15 in
    let r17 = go 1 at_1 (pops_global refl) r16 in
    let r18 = go 1 at_1 (leaves refl) r17 in
    let r19 = go 2 at_2 (pops_global refl) r18 in
    let r20 = go 2 at_2 (leaves refl) r19 in
    let r21 = go 3 at_3 (pops_global refl) r20 in
    let r22 = go 3 at_3 (leaves refl) r21 in
    let r23 = go 0 at_0 (stores refl) r22 in
    let r24 = go 0 at_0 loads_elements r23 in
    let r25 = go 0 at_0 adds_elements r24 in
    let r26 = go 0 at_0 (keeps no_entry) r25 in
    let r27 = go 0 at_0 (is_full one_entry) r26 in
    let r28 = go 0 at_0 shares r27 in
    let r29 = go 0 at_0 none_to_share r28 in
    let r30 = go 0 at_0 (is_balanced one_entry) r29 in
    let r31 = go 0 at_0 pops_local r30 in
    let r32 = go 0 at_0 (starts second_node) r31 in
    let r33 = go 0 at_0 (not_done refl) r32 in
    let r34 = go 0 at_0 (parent_done refl refl) r33 in
    let r35 = go 0 at_0 (stores refl) r34 in
    let r36 = go 0 at_0 loads_elements r35 in
    let r37 = go 0 at_0 adds_elements r36 in
    let r38 = go 0 at_0 none_to_keep r37 in
    let r39 = go 0 at_0 none_to_share r38 in
    let r40 = go 0 at_0 (is_balanced balanced) r39 in
    let r41 = go 0 at_0 (none_left (λ h. h)) r40 in
    let r42 = go 0 at_0 sends_done r41 in
    let r43 = go 0 at_0 sends_done r42 in
    let r44 = go 0 at_0 sends_done r43 in
    let r45 = go 0 at_0 sends_done r44 in
    let r46 = go 0 at_0 sends_done r45 in
    let r47 = go 0 at_0 sent_done r46 in
    let r48 = go 0 at_0 (pops_global refl) r47 in let r49 = go 0 at_0 (leaves refl) r48 in (_, r49)

early_end_returned : (i : ℕ) → i < 5 → (early_end.0.thread i).pc ≡ returned
unfolding early_end
early_end_returned zero h = refl
early_end_returned (suc zero) h = refl
early_end_returned (suc (suc zero)) h = refl
early_end_returned (suc (suc (suc zero))) h = refl
early_end_returned (suc (suc (suc (suc zero)))) h = refl
early_end_returned (suc (suc (suc (suc (suc i))))) h = absurd (omega arith)

-- The last loop works on node 2, and then on it again in place of node 3.
final_loop_throws :
    final_loop 9 four_tasks early_end.0.mem.m_global_queue early_end.0.mem.done ≡ some none
unfolding early_end push children final_loop work
final_loop_throws = refl
