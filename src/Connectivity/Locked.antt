-- ===== src/Connectivity/Locked.antt =====
-- exercise3/implementation/dynamic_connectivity_mt.hpp with dynamic_connectivity_b.cpp to _e.cpp: the
-- union-finds of the builds DC_B to DC_E, which take the mutexes of both roots. A thread makes one
-- access to the shared arrays or to a mutex at a time, in any order with those of other threads; the
-- arrays are plain memory in the source, and the model takes each access as atomic.
pub mod Cycle
pub mod Asserts
mod Locks
mod Runs
mod Trees
mod Local
mod Keeps
mod Tests
pub mod Correct
use wt_lab_efficient_paral.Common.{
  ℕ, zero, suc, ◌==◌, if◌then◌else◌, ◌>>=◌, ◌+◌, ◌<◌, ◌≡◌, ◌≢◌, Bool, true, false, List, [], ◌∷◌,
  ◌++◌, Option, none, some, get_elem?, set, length, replicate, update,
}
use wt_lab_efficient_paral.Connectivity.Concurrent.{Job, Event, requested, united}
use wt_lab_efficient_paral.Connectivity.Sequential.{count_up}

-- The macros USE_COMPRESSION and USE_RANKS.
pub record Build : Type 0 where
  pub compression : Bool
  pub ranks : Bool

abbrev pub dc_b : Build
dc_b = record { compression = false; ranks = false }

abbrev pub dc_c : Build
dc_c = record { compression = true; ranks = false }

-- `holder` has for each mutex the thread that holds it.
pub record Memory : Type 0 where
  pub union_find_parents : List ℕ
  pub union_find_ranks : List ℕ
  pub holder : ℕ → Option ℕ

-- Whether a search is one of the two at the start of `unite`, or one in `try_lock_trees`.
pub data Stage : Type 0 where
  in_unite : Stage
  in_lock : Stage

-- What follows when a search has returned.
pub data Next : Type 0 where
  then_b : (stage : Stage) (b : ℕ) → Next
  then_pair : (stage : Stage) (a : ℕ) → Next

-- Where a thread stands. A search for the representative of `start` is at `node`; `condition` to
-- `unlock_node` are the loop of the compression; the rest is `try_lock_trees` and `unite`.
pub data Pc : Type 0 where
  idle : Pc
  walk : (job : Job) (start node : ℕ) (next : Next) → Pc
  condition : (job : Job) (node root : ℕ) (next : Next) → Pc
  reread : (job : Job) (node root : ℕ) (next : Next) → Pc
  lock_node : (job : Job) (node parent root : ℕ) (next : Next) → Pc
  redirect : (job : Job) (node parent root : ℕ) (next : Next) → Pc
  unlock_node : (job : Job) (node parent root : ℕ) (next : Next) → Pc
  pair : (job : Job) (stage : Stage) (a b : ℕ) → Pc
  lock_a : (job : Job) (a b : ℕ) → Pc
  check_a : (job : Job) (a b : ℕ) → Pc
  lock_b : (job : Job) (a b : ℕ) → Pc
  check_b : (job : Job) (a b : ℕ) → Pc
  release_b : (job : Job) (a b : ℕ) → Pc
  release_a : (job : Job) (a b : ℕ) → Pc
  link : (job : Job) (a b : ℕ) → Pc
  ranked_a : (job : Job) (a b rank_a : ℕ) → Pc
  ranked : (job : Job) (a b rank_a rank_b : ℕ) → Pc
  raise : (job : Job) (a b : ℕ) → Pc
  unlock_b : (job : Job) (a b : ℕ) → Pc
  unlock_a : (job : Job) (a b : ℕ) → Pc

-- Where the caller goes on with the root that was found.
abbrev pub resume : Job → ℕ → Next → Pc
resume job root (then_b stage b) = walk job b b (then_pair stage root)
resume job root (then_pair stage a) = pair job stage a root

-- `try_lock_trees` begins a round with both searches.
abbrev pub again : Job → ℕ → ℕ → Pc
again job a b = walk job a a (then_b in_lock b)

abbrev pub take : ℕ → ℕ → Memory → Memory
take i x m = record m { holder = update m.holder x (some i) }

abbrev pub free : ℕ → Memory → Memory
free x m = record m { holder = update m.holder x none }

-- `union_find_parents[x] = p`
abbrev pub write_parent : ℕ → ℕ → Memory → Memory
write_parent x p m = record m { union_find_parents = set m.union_find_parents x p }

-- One step of thread `i`. `try_lock` may fail at any time.
pub data Move (build : Build) (i : ℕ) (m : Memory) : Pc → Memory → Pc → List Event → Type 0 where
  start_unite :
      {a b : ℕ}
      → a < length m.union_find_parents
      → b < length m.union_find_parents
      → Move build i m idle m (walk (a, b) a a (then_b in_unite b)) (requested (a, b) ∷ [])
  step_up :
      {job : Job} {start node p : ℕ} {next : Next}
      → get_elem? m.union_find_parents node ≡ some p
      → p ≢ node
      → Move build i m (walk job start node next) m (walk job start p next) []
  at_root :
      {job : Job} {start node : ℕ} {next : Next}
      → build.compression ≡ false
      → get_elem? m.union_find_parents node ≡ some node
      → Move build i m (walk job start node next) m (resume job node next) []
  at_root_compress :
      {job : Job} {start node : ℕ} {next : Next}
      → build.compression ≡ true
      → get_elem? m.union_find_parents node ≡ some node
      → Move build i m (walk job start node next) m (condition job start node next) []
  compressed :
      {job : Job} {node root : ℕ} {next : Next}
      → get_elem? m.union_find_parents node ≡ some root
      → Move build i m (condition job node root next) m (resume job root next) []
  not_compressed :
      {job : Job} {node root p : ℕ} {next : Next}
      → get_elem? m.union_find_parents node ≡ some p
      → p ≢ root
      → Move build i m (condition job node root next) m (reread job node root next) []
  read_parent :
      {job : Job} {node root p : ℕ} {next : Next}
      → get_elem? m.union_find_parents node ≡ some p
      → Move build i m (reread job node root next) m (lock_node job node p root next) []
  lock_node_ok :
      {job : Job} {node parent root : ℕ} {next : Next}
      → m.holder node ≡ none
      → Move build i m
          (lock_node job node parent root next)
          (take i node m)
          (redirect job node parent root next)
          []
  lock_node_fails :
      {job : Job} {node parent root : ℕ} {next : Next}
      → Move build i m (lock_node job node parent root next) m (condition job parent root next) []
  redirects :
      {job : Job} {node parent root : ℕ} {next : Next}
      → Move build i m
          (redirect job node parent root next)
          (write_parent node root m)
          (unlock_node job node parent root next)
          []
  unlocks_node :
      {job : Job} {node parent root : ℕ} {next : Next}
      → Move build i m
          (unlock_node job node parent root next)
          (free node m)
          (condition job parent root next)
          []
  same_root :
      {job : Job} {stage : Stage} {a b : ℕ}
      → a ≡ b
      → Move build i m (pair job stage a b) m idle (united job false ∷ [])
  start_locking :
      {job : Job} {a b : ℕ} → a ≢ b → Move build i m (pair job in_unite a b) m (again job a b) []
  ordered :
      {job : Job} {a b : ℕ} → a < b → Move build i m (pair job in_lock a b) m (lock_a job a b) []
  swapped :
      {job : Job} {a b : ℕ} → b < a → Move build i m (pair job in_lock a b) m (lock_a job b a) []
  lock_a_ok :
      {job : Job} {a b : ℕ}
      → m.holder a ≡ none
      → Move build i m (lock_a job a b) (take i a m) (check_a job a b) []
  lock_a_fails : {job : Job} {a b : ℕ} → Move build i m (lock_a job a b) m (again job a b) []
  a_linked :
      {job : Job} {a b p : ℕ}
      → get_elem? m.union_find_parents a ≡ some p
      → p ≢ a
      → Move build i m (check_a job a b) m (release_a job a b) []
  a_root :
      {job : Job} {a b : ℕ}
      → get_elem? m.union_find_parents a ≡ some a
      → Move build i m (check_a job a b) m (lock_b job a b) []
  lock_b_ok :
      {job : Job} {a b : ℕ}
      → m.holder b ≡ none
      → Move build i m (lock_b job a b) (take i b m) (check_b job a b) []
  lock_b_fails : {job : Job} {a b : ℕ} → Move build i m (lock_b job a b) m (release_a job a b) []
  b_linked :
      {job : Job} {a b p : ℕ}
      → get_elem? m.union_find_parents b ≡ some p
      → p ≢ b
      → Move build i m (check_b job a b) m (release_b job a b) []
  b_root :
      {job : Job} {a b : ℕ}
      → get_elem? m.union_find_parents b ≡ some b
      → Move build i m (check_b job a b) m (link job a b) []
  releases_b :
      {job : Job} {a b : ℕ} → Move build i m (release_b job a b) (free b m) (release_a job a b) []
  releases_a :
      {job : Job} {a b : ℕ} → Move build i m (release_a job a b) (free a m) (again job a b) []
  links :
      {job : Job} {a b : ℕ}
      → build.ranks ≡ false
      → Move build i m (link job a b) (write_parent b a m) (unlock_b job a b) []
  reads_rank_a :
      {job : Job} {a b rank_a : ℕ}
      → build.ranks ≡ true
      → get_elem? m.union_find_ranks a ≡ some rank_a
      → Move build i m (link job a b) m (ranked_a job a b rank_a) []
  reads_rank_b :
      {job : Job} {a b rank_a rank_b : ℕ}
      → get_elem? m.union_find_ranks b ≡ some rank_b
      → Move build i m (ranked_a job a b rank_a) m (ranked job a b rank_a rank_b) []
  links_a :
      {job : Job} {a b rank_a rank_b : ℕ}
      → rank_a < rank_b
      → Move build i m (ranked job a b rank_a rank_b) (write_parent a b m) (unlock_b job a b) []
  links_b :
      {job : Job} {a b rank_a rank_b : ℕ}
      → rank_b < rank_a
      → Move build i m (ranked job a b rank_a rank_b) (write_parent b a m) (unlock_b job a b) []
  links_tie :
      {job : Job} {a b rank_a rank_b : ℕ}
      → rank_a ≡ rank_b
      → Move build i m (ranked job a b rank_a rank_b) (write_parent b a m) (raise job a b) []
  raises :
      {job : Job} {a b k : ℕ}
      → get_elem? m.union_find_ranks a ≡ some k
      → Move build i m
          (raise job a b)
          (record m { union_find_ranks = set m.union_find_ranks a (k + 1) })
          (unlock_b job a b)
          []
  unlocks_b :
      {job : Job} {a b : ℕ} → Move build i m (unlock_b job a b) (free b m) (unlock_a job a b) []
  unlocks_a :
      {job : Job} {a b : ℕ}
      → Move build i m (unlock_a job a b) (free a m) idle (united job true ∷ [])

-- `find_representative`, run alone: `none` stands for a node out of range, or for fuel that is used up.
unfoldable pub search : ℕ → List ℕ → ℕ → ℕ → Option ℕ
search zero parents node root = none
search (suc fuel) parents node root =
    if root == node
    then some root
    else (do next ← get_elem? parents root; search fuel parents root next)

unfoldable pub find_representative : ℕ → List ℕ → ℕ → Option ℕ
unfolding search
find_representative fuel parents node = do
  root ← get_elem? parents node
  search fuel parents node root

unfoldable pub connected : ℕ → List ℕ → ℕ → ℕ → Option Bool
unfolding find_representative
connected fuel parents a b = do
  root_a ← find_representative fuel parents a
  root_b ← find_representative fuel parents b
  some (root_a == root_b)

-- The memory, where the threads stand, and the events, the last first.
pub record System : Type 0 where
  pub mem : Memory
  pub pc : ℕ → Pc
  pub log : List Event

module _ (build : Build) where
  pub data Step (s : System) : System → Type 0 where
    pick :
        (i : ℕ) {m : Memory} {p : Pc} {events : List Event}
        → Move build i s.mem (s.pc i) m p events
        → Step s (record { mem = m; pc = update s.pc i p; log = events ++ s.log })

-- The constructor: every node is its own parent, of rank 0, and no mutex is held.
unfoldable pub init : ℕ → Memory
init n = record {
  union_find_parents = count_up n 0;
  union_find_ranks = replicate n 0;
  holder = λ x. none;
}

abbrev pub start : ℕ → System
start n = record { mem = init n; pc = λ i. idle; log = [] }

pub data Reach (build : Build) (n : ℕ) : System → Type 0 where
  here : Reach build n (start n)
  later : {s t : System} → Reach build n s → Step build s t → Reach build n t
