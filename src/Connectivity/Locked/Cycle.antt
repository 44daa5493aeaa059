-- ===== src/Connectivity/Locked/Cycle.antt =====
-- dynamic_connectivity_c.cpp: `find_representative_and_compress` against a `unite` of another thread.
use wt_lab_efficient_paral.Common.{
  ℕ, zero, suc, ◌≡◌, refl, List, ◌∷◌, Option, none, some, get_elem?, arith,
}
use wt_lab_efficient_paral.Connectivity.Concurrent.{Event}
use wt_lab_efficient_paral.Connectivity.Sequential.{count_up}
use wt_lab_efficient_paral.Connectivity.Locked.{
  dc_c, Memory, Pc, idle, System, Reach, here, init, search, find_representative, start_unite,
  at_root_compress, compressed, not_compressed, read_parent, lock_node_ok, redirects, unlocks_node,
  start_locking, ordered, lock_a_ok, a_root, lock_b_ok, b_root, links, unlocks_b, unlocks_a,
}
use wt_lab_efficient_paral.Connectivity.Locked.Runs.{move}

module _ (n : ℕ) where
  -- Nodes 0 and 1 are roots, and thread 0 unites them.
  united_once :
      {parents ranks : List ℕ} {holder : ℕ → Option ℕ} {pc : ℕ → Pc} {log : List Event}
      → pc 0 ≡ idle
      → holder 0 ≡ none
      → holder 1 ≡ none
      → Reach dc_c n (record {
        mem = record {
          union_find_parents = 0 ∷ 1 ∷ parents;
          union_find_ranks = ranks;
          holder = holder;
        };
        pc = pc;
        log = log;
      })
      → (holder' : ℕ → Option ℕ) × (pc' : ℕ → Pc) × (log' : List Event) × (pc' 0 ≡ idle)
        × (pc' 1 ≡ pc 1)
        × (holder' 0 ≡ none)
        × (holder' 1 ≡ none)
        × Reach dc_c n (record {
          mem = record {
            union_find_parents = 0 ∷ 0 ∷ parents;
            union_find_ranks = ranks;
            holder = holder';
          };
          pc = pc';
          log = log';
        })
  united_once is_idle free_0 free_1 r =
      let r1 = move 0 is_idle (start_unite {a = 0} {b = 1} (omega arith) (omega arith)) r in
      let r2 = move 0 refl (compressed refl) (move 0 refl (at_root_compress refl refl) r1) in
      let r3 = move 0 refl (compressed refl) (move 0 refl (at_root_compress refl refl) r2) in
      let r4 = move 0 refl (start_locking (omega arith)) r3 in
      let r5 = move 0 refl (compressed refl) (move 0 refl (at_root_compress refl refl) r4) in
      let r6 = move 0 refl (compressed refl) (move 0 refl (at_root_compress refl refl) r5) in
      let r7 = move 0 refl (lock_a_ok free_0) (move 0 refl (ordered (omega arith)) r6) in
      let r8 = move 0 refl (lock_b_ok free_1) (move 0 refl (a_root refl) r7) in
      let r9 = move 0 refl (links refl) (move 0 refl (b_root refl) r8) in
      let r10 = move 0 refl unlocks_a (move 0 refl unlocks_b r9) in
      (_, _, _, refl, refl, refl, refl, r10)

-- The parents of nodes 0 and 1 are each other.
search-cycle :
    (parents : List ℕ) (fuel : ℕ)
    → (search fuel (1 ∷ 0 ∷ parents) 0 1 ≡ none) × (search fuel (1 ∷ 0 ∷ parents) 1 0 ≡ none)
unfolding search
search-cycle parents zero = (refl, refl)
search-cycle parents (suc fuel) = let (at_0, at_1) = search-cycle parents fuel in (at_1, at_0)

find_representative-cycle :
    (parents : List ℕ) (fuel : ℕ) → find_representative fuel (1 ∷ 0 ∷ parents) 0 ≡ none
unfolding find_representative
find_representative-cycle parents fuel = (search-cycle parents fuel).0

-- Thread 1 looks for the representative of node 1, which is a root, while thread 0 twice unites nodes
-- 0 and 1. The compression of thread 1 undoes the first link, and makes node 0 a child after the
-- second.
cycle_run :
    (k : ℕ)
    → (m : Memory) × (pc : ℕ → Pc) × (log : List Event) × (m.union_find_parents
        ≡ 1 ∷ 0 ∷ count_up k 2)
      × Reach dc_c (suc (suc k)) (record { mem = m; pc = pc; log = log })
unfolding init
cycle_run k =
    let n = suc (suc k) in
    let r1 = move 1 refl (start_unite {a = 1} {b = 0} (omega arith) (omega arith)) here in
    let r2 = move 1 refl (at_root_compress refl refl) r1 in
    let (_, _, _, idle_0, at_1, free_0, free_1, r3) = united_once n refl refl refl r2 in
    let r4 = move 1 at_1 (not_compressed refl (omega arith)) r3 in
    let r5 = move 1 refl (lock_node_ok free_1) (move 1 refl (read_parent refl) r4) in
    let r6 = move 1 refl unlocks_node (move 1 refl redirects r5) in
    let (_, _, _, idle_0', at_1', free_0', free_1', r7) = united_once n idle_0 free_0 refl r6 in
    let r8 = move 1 at_1' (not_compressed refl (omega arith)) r7 in
    let r9 = move 1 refl (lock_node_ok free_0') (move 1 refl (read_parent refl) r8) in
    (_, _, _, refl, move 1 refl redirects r9)

-- In the build DC_C, on two nodes or more, there is a reachable state in which nodes 0 and 1 are each
-- other's parents, and `find_representative` of node 0 returns nothing on any fuel: it never ends.
pub compress_cycle :
    (k : ℕ)
    → (s : System) × Reach dc_c (suc (suc k)) s
      × (get_elem? s.mem.union_find_parents 0 ≡ some 1)
      × (get_elem? s.mem.union_find_parents 1 ≡ some 0)
      × ((fuel : ℕ) → find_representative fuel s.mem.union_find_parents 0 ≡ none)
compress_cycle k =
    let (m, pc, log, is_cycle, reach) = cycle_run k in
    (
      record { mem = m; pc = pc; log = log },
      reach,
      rw is_cycle refl,
      rw is_cycle refl,
      λ fuel. rw is_cycle (find_representative-cycle (count_up k 2) fuel),
    )
