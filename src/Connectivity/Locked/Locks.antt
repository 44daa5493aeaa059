-- ===== src/Connectivity/Locked/Locks.antt =====
-- dynamic_connectivity_b.cpp to _e.cpp: what the mutexes give a thread, and what its steps leave to the
-- others.
use native.Mathlib.Decide.{ℕ_discrete}
use wt_lab_efficient_paral.Common.{
  ℕ, inl, inr, ◌⊎◌, ◌<◌, ◌≡◌, ◌≢◌, refl, ◌∙◌, List, none, some, get_elem?, update_self, arith,
  get_elem?-set_other,
}
use wt_lab_efficient_paral.Connectivity.Concurrent.{Event}
use wt_lab_efficient_paral.Connectivity.Locked.{
  Build, Memory, Pc, Move, take, free, write_parent, then_b, then_pair, idle, walk, condition,
  reread, lock_node, redirect, unlock_node, pair, lock_a, check_a, lock_b, check_b, release_b,
  release_a, link, ranked_a, ranked, raise, unlock_b, unlock_a, start_unite, step_up, at_root,
  at_root_compress, compressed, not_compressed, read_parent, lock_node_ok, lock_node_fails,
  redirects, unlocks_node, same_root, start_locking, ordered, swapped, lock_a_ok, lock_a_fails,
  a_linked, a_root, lock_b_ok, lock_b_fails, b_linked, b_root, releases_b, releases_a, links,
  reads_rank_a, reads_rank_b, links_a, links_b, links_tie, raises, unlocks_b, unlocks_a,
}

abbrev pub IsRoot : Memory → ℕ → Type 0
IsRoot m x = get_elem? m.union_find_parents x ≡ some x

-- Thread `i` holds the mutexes of both nodes, of which the first is the smaller.
abbrev pub Both : Memory → ℕ → ℕ → ℕ → Type 0
Both m i a b = (a < b) × (m.holder a ≡ some i) × (m.holder b ≡ some i)

-- What the locks give a thread at each place.
abbrev pub Local : Memory → ℕ → Pc → Type 0
Local m i idle = Unit
Local m i (walk job x node next) = Unit
Local m i (condition job node root next) = Unit
Local m i (reread job node root next) = Unit
Local m i (lock_node job node p root next) = Unit
Local m i (redirect job node p root next) = m.holder node ≡ some i
Local m i (unlock_node job node p root next) = m.holder node ≡ some i
Local m i (pair job stage a b) = Unit
Local m i (lock_a job a b) = a < b
Local m i (check_a job a b) = (a < b) × (m.holder a ≡ some i)
Local m i (lock_b job a b) = (a < b) × (m.holder a ≡ some i) × IsRoot m a
Local m i (check_b job a b) = Both m i a b × IsRoot m a
Local m i (release_b job a b) = Both m i a b
Local m i (release_a job a b) = m.holder a ≡ some i
Local m i (link job a b) = Both m i a b × IsRoot m a × IsRoot m b
Local m i (ranked_a job a b rank_a) = Both m i a b × IsRoot m a × IsRoot m b
Local m i (ranked job a b rank_a rank_b) = Both m i a b × IsRoot m a × IsRoot m b
Local m i (raise job a b) = Both m i a b
Local m i (unlock_b job a b) = Both m i a b
Local m i (unlock_a job a b) = m.holder a ≡ some i

-- A step of thread `i` leaves what the others hold, and writes only parents whose mutex it holds.
pub record Frame (i : ℕ) (m m' : Memory) : Type 0 where
  pub held : (j x : ℕ) → i ≢ j → m.holder x ≡ some j → m'.holder x ≡ some j
  pub written :
      (x : ℕ)
      → (get_elem? m'.union_find_parents x ≡ get_elem? m.union_find_parents x)
        ⊎ (m.holder x ≡ some i)

module _ (i : ℕ) (m : Memory) where
  unchanged : Frame i m m
  unchanged = record { held = λ j x ne h. h; written = λ x. inl refl }

  take-Frame : (x : ℕ) → m.holder x ≡ none → Frame i m (take i x m)
  take-Frame x is_free = record { held = λ j y ne h. ground arith; written = λ y. inl refl }

  free-Frame : (x : ℕ) → m.holder x ≡ some i → Frame i m (free x m)
  free-Frame x held = record { held = λ j y ne h. ground arith; written = λ y. inl refl }

  write-Frame : (x p : ℕ) → m.holder x ≡ some i → Frame i m (write_parent x p m)
  write-Frame x p held = record {
    held = λ j y ne h. h;
    written = λ y. elim (ℕ_discrete x y) [
      | yes e ↦ inr (rw (← e) held)
      | no ne ↦ inl (get_elem?-set_other m.union_find_parents x y p ne)
    ];
  }

  raise-Frame : (ranks : List ℕ) → Frame i m (record m { union_find_ranks = ranks })
  raise-Frame ranks = record { held = λ j x ne h. h; written = λ x. inl refl }

module _ (build : Build) (i : ℕ) where
  pub Move-Frame :
      {m m' : Memory} {p p' : Pc} {events : List Event}
      → Move build i m p m' p' events
      → Local m i p
      → Frame i m m'
  Move-Frame {m} (start_unite _ _) l = unchanged i m
  Move-Frame {m} (step_up _ _) l = unchanged i m
  Move-Frame {m} (at_root _ _) l = unchanged i m
  Move-Frame {m} (at_root_compress _ _) l = unchanged i m
  Move-Frame {m} (compressed _) l = unchanged i m
  Move-Frame {m} (not_compressed _ _) l = unchanged i m
  Move-Frame {m} (read_parent _) l = unchanged i m
  Move-Frame {m} (lock_node_ok {node = x} h) l = take-Frame i m x h
  Move-Frame {m} lock_node_fails l = unchanged i m
  Move-Frame {m} (redirects {node = x} {root = r}) l = write-Frame i m x r l
  Move-Frame {m} (unlocks_node {node = x}) l = free-Frame i m x l
  Move-Frame {m} (same_root _) l = unchanged i m
  Move-Frame {m} (start_locking _) l = unchanged i m
  Move-Frame {m} (ordered _) l = unchanged i m
  Move-Frame {m} (swapped _) l = unchanged i m
  Move-Frame {m} (lock_a_ok {a = a} h) l = take-Frame i m a h
  Move-Frame {m} lock_a_fails l = unchanged i m
  Move-Frame {m} (a_linked _ _) l = unchanged i m
  Move-Frame {m} (a_root _) l = unchanged i m
  Move-Frame {m} (lock_b_ok {b = b} h) l = take-Frame i m b h
  Move-Frame {m} lock_b_fails l = unchanged i m
  Move-Frame {m} (b_linked _ _) l = unchanged i m
  Move-Frame {m} (b_root _) l = unchanged i m
  Move-Frame {m} (releases_b {b = b}) (_, _, at_b) = free-Frame i m b at_b
  Move-Frame {m} (releases_a {a = a}) l = free-Frame i m a l
  Move-Frame {m} (links {a = a} {b = b} _) ((_, _, at_b), _, _) = write-Frame i m b a at_b
  Move-Frame {m} (reads_rank_a _ _) l = unchanged i m
  Move-Frame {m} (reads_rank_b _) l = unchanged i m
  Move-Frame {m} (links_a {a = a} {b = b} _) ((_, at_a, _), _, _) = write-Frame i m a b at_a
  Move-Frame {m} (links_b {a = a} {b = b} _) ((_, _, at_b), _, _) = write-Frame i m b a at_b
  Move-Frame {m} (links_tie {a = a} {b = b} _) ((_, _, at_b), _, _) = write-Frame i m b a at_b
  Move-Frame {m} (raises _) l = raise-Frame i m _
  Move-Frame {m} (unlocks_b {b = b}) (_, _, at_b) = free-Frame i m b at_b
  Move-Frame {m} (unlocks_a {a = a}) l = free-Frame i m a l

  pub Move-Local :
      {m m' : Memory} {p p' : Pc} {events : List Event}
      → Move build i m p m' p' events
      → Local m i p
      → Local m' i p'
  Move-Local (start_unite _ _) l = tt
  Move-Local (step_up _ _) l = tt
  Move-Local (at_root {next = then_b stage b} _ _) l = tt
  Move-Local (at_root {next = then_pair stage a} _ _) l = tt
  Move-Local (at_root_compress _ _) l = tt
  Move-Local (compressed {next = then_b stage b} _) l = tt
  Move-Local (compressed {next = then_pair stage a} _) l = tt
  Move-Local (not_compressed _ _) l = tt
  Move-Local (read_parent _) l = tt
  Move-Local {m} (lock_node_ok {node = x} h) l = update_self m.holder x (some i)
  Move-Local lock_node_fails l = tt
  Move-Local redirects l = l
  Move-Local unlocks_node l = tt
  Move-Local (same_root _) l = tt
  Move-Local (start_locking _) l = tt
  Move-Local (ordered h) l = h
  Move-Local (swapped h) l = h
  Move-Local {m} (lock_a_ok {a = a} h) l = (l, update_self m.holder a (some i))
  Move-Local lock_a_fails l = tt
  Move-Local (a_linked _ _) (less, at_a) = at_a
  Move-Local (a_root h) (less, at_a) = (less, at_a, h)
  Move-Local {m} (lock_b_ok {a = a} {b = b} h) (less, at_a, root_a) =
      ((less, ground arith, update_self m.holder b (some i)), root_a)
  Move-Local lock_b_fails (less, at_a, root_a) = at_a
  Move-Local (b_linked _ _) (both, root_a) = both
  Move-Local (b_root h) (both, root_a) = (both, root_a, h)
  Move-Local (releases_b {a = a} {b = b}) (less, at_a, at_b) = ground arith
  Move-Local releases_a l = tt
  Move-Local (links _) (both, _, _) = both
  Move-Local (reads_rank_a _ _) l = l
  Move-Local (reads_rank_b _) l = l
  Move-Local (links_a _) (both, _, _) = both
  Move-Local (links_b _) (both, _, _) = both
  Move-Local (links_tie _) (both, _, _) = both
  Move-Local (raises _) l = l
  Move-Local (unlocks_b {a = a} {b = b}) (less, at_a, at_b) = ground arith
  Move-Local unlocks_a l = tt

-- What a thread has it keeps when another moves.
module _ (i j : ℕ) (m m' : Memory) (f : Frame i m m') (ne : i ≢ j) where
  Root-kept : (x : ℕ) → m.holder x ≡ some j → IsRoot m x → IsRoot m' x
  Root-kept x h root = elim (f.written x) [ inl e ↦ e ∙ root | inr held ↦ absurd (ground arith) ]

  Both-kept : (a b : ℕ) → Both m j a b → Both m' j a b
  Both-kept a b (less, h, k) = (less, f.held j a ne h, f.held j b ne k)

  Roots-kept :
      (a b : ℕ) → Both m j a b × IsRoot m a × IsRoot m b → Both m' j a b × IsRoot m' a × IsRoot m' b
  Roots-kept a b ((less, h, k), root_a, root_b) =
      (Both-kept a b (less, h, k), Root-kept a h root_a, Root-kept b k root_b)

  pub Local-kept : (p : Pc) → Local m j p → Local m' j p
  Local-kept idle l = tt
  Local-kept (walk job x node next) l = tt
  Local-kept (condition job node root next) l = tt
  Local-kept (reread job node root next) l = tt
  Local-kept (lock_node job node p root next) l = tt
  Local-kept (redirect job node p root next) l = f.held j node ne l
  Local-kept (unlock_node job node p root next) l = f.held j node ne l
  Local-kept (pair job stage a b) l = tt
  Local-kept (lock_a job a b) l = l
  Local-kept (check_a job a b) (less, h) = (less, f.held j a ne h)
  Local-kept (lock_b job a b) (less, h, root) = (less, f.held j a ne h, Root-kept a h root)
  Local-kept (check_b job a b) ((less, h, k), root) =
      (Both-kept a b (less, h, k), Root-kept a h root)
  Local-kept (release_b job a b) l = Both-kept a b l
  Local-kept (release_a job a b) l = f.held j a ne l
  Local-kept (link job a b) l = Roots-kept a b l
  Local-kept (ranked_a job a b rank_a) l = Roots-kept a b l
  Local-kept (ranked job a b rank_a rank_b) l = Roots-kept a b l
  Local-kept (raise job a b) l = Both-kept a b l
  Local-kept (unlock_b job a b) l = Both-kept a b l
  Local-kept (unlock_a job a b) l = f.held j a ne l
