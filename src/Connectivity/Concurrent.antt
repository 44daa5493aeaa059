-- ===== src/Connectivity/Concurrent.antt =====
-- exercise3/implementation/dynamic_connectivity.hpp and .cpp: the lock-free union-find of the default
-- build. A thread makes one access to a shared atomic at a time, and the accesses of the threads are
-- interleaved in any order.
pub mod Forest
pub mod Local
pub mod Moves
pub mod Keeps
pub mod Correct
pub mod Roots
use wt_lab_efficient_paral.Common.{
  ℕ, zero, suc, ◌+◌, ◌<◌, ◌≡◌, ◌≢◌, Bool, true, false, List, [], ◌∷◌, ◌++◌, Option, none, some,
  get_elem?, set, replicate, length, update, ◌>>=◌, ◌==◌,
}

-- An `int`; `negsuc n` is -(n + 1).
pub data ℤ : Type 0 where
  pos : ℕ → ℤ
  negsuc : ℕ → ℤ

-- An entry of `union_find` that is not negative is the parent, and a negative one is the rank of a
-- root.
abbrev pub to_rank_repr : ℕ → ℤ
to_rank_repr zero = pos 0
to_rank_repr (suc n) = negsuc n

abbrev pub from_rank_repr : ℤ → ℕ
from_rank_repr (pos n) = 0
from_rank_repr (negsuc n) = suc n

-- The edge, or the pair of nodes, that a call is about.
abbrev pub Job : Type 0
Job = ℕ × ℕ

-- What follows when `find_representative_and_compress` has returned in `unite`: the call for `b`, or,
-- with the root and the rank for `a`, the rest of the round.
pub data Next : Type 0 where
  then_b : (b : ℕ) → Next
  then_link : (a rank_a : ℕ) → Next

-- What follows when `find_representative` has returned in `connected`.
pub data Query : Type 0 where
  then_b : (b : ℕ) → Query
  then_check : (a : ℕ) → Query

-- Where a thread stands. `stack` has, for each call of `find_representative_and_compress` that waits
-- for its inner call, its node and the parent `p` that it has read.
pub data Pc : Type 0 where
  idle : Pc
  find : (job : Job) (node : ℕ) (stack : List (ℕ × ℕ)) (next : Next) → Pc
  compress : (job : Job) (root rank : ℕ) (stack : List (ℕ × ℕ)) (next : Next) → Pc
  link : (job : Job) (a rank_a b rank_b : ℕ) → Pc
  raise : (job : Job) (root rank : ℕ) → Pc
  look : (job : Job) (node : ℕ) (query : Query) → Pc
  check : (job : Job) (a b : ℕ) → Pc

-- The start of a call of `unite`, and what calls of `unite` and `connected` returned.
pub data Event : Type 0 where
  requested : Job → Event
  united : Job → Bool → Event
  answered : Job → Bool → Event

-- One step of one thread on `union_find`. A strong compare-exchange fails only where the value
-- differs from the one expected.
pub data Move (m : List ℤ) : Pc → List ℤ → Pc → List Event → Type 0 where
  start_unite :
      {a b : ℕ}
      → a < length m
      → b < length m
      → Move m idle m (find (a, b) a [] (then_b b)) (requested (a, b) ∷ [])
  read_parent :
      {job : Job} {node p : ℕ} {stack : List (ℕ × ℕ)} {next : Next}
      → get_elem? m node ≡ some (pos p)
      → Move m (find job node stack next) m (find job p ((node, p) ∷ stack) next) []
  read_rank :
      {job : Job} {node r : ℕ} {stack : List (ℕ × ℕ)} {next : Next}
      → get_elem? m node ≡ some (negsuc r)
      → Move m
          (find job node stack next)
          m
          (compress job node (from_rank_repr (negsuc r)) stack next)
          []
  is_short :
      {job : Job} {root rank node p : ℕ} {stack : List (ℕ × ℕ)} {next : Next}
      → p ≡ root
      → Move m
          (compress job root rank ((node, p) ∷ stack) next)
          m
          (compress job root rank stack next)
          []
  redirect :
      {job : Job} {root rank node p : ℕ} {stack : List (ℕ × ℕ)} {next : Next}
      → p ≢ root
      → get_elem? m node ≡ some (pos p)
      → Move m
          (compress job root rank ((node, p) ∷ stack) next)
          (set m node (pos root))
          (compress job root rank stack next)
          []
  redirect_fails :
      {job : Job} {root rank node p : ℕ} {stack : List (ℕ × ℕ)} {next : Next}
      → p ≢ root
      → get_elem? m node ≢ some (pos p)
      → Move m
          (compress job root rank ((node, p) ∷ stack) next)
          m
          (compress job root rank stack next)
          []
  found_a :
      {job : Job} {root rank b : ℕ}
      → Move m (compress job root rank [] (then_b b)) m (find job b [] (then_link root rank)) []
  found_b :
      {job : Job} {root rank a rank_a : ℕ}
      → Move m (compress job root rank [] (then_link a rank_a)) m (link job a rank_a root rank) []
  same_root :
      {job : Job} {a rank_a b rank_b : ℕ}
      → a ≡ b
      → Move m (link job a rank_a b rank_b) m idle (united job false ∷ [])
  link_lower :
      {job : Job} {a rank_a b rank_b : ℕ}
      → a ≢ b
      → rank_a < rank_b
      → get_elem? m a ≡ some (to_rank_repr rank_a)
      → Move m (link job a rank_a b rank_b) (set m a (pos b)) idle (united job true ∷ [])
  link_lower_fails :
      {job : Job} {a rank_a b rank_b : ℕ}
      → a ≢ b
      → rank_a < rank_b
      → get_elem? m a ≢ some (to_rank_repr rank_a)
      → Move m (link job a rank_a b rank_b) m (find job a [] (then_b b)) []
  link_higher :
      {job : Job} {a rank_a b rank_b : ℕ}
      → a ≢ b
      → rank_b < rank_a
      → get_elem? m b ≡ some (to_rank_repr rank_b)
      → Move m (link job a rank_a b rank_b) (set m b (pos a)) idle (united job true ∷ [])
  link_higher_fails :
      {job : Job} {a rank_a b rank_b : ℕ}
      → a ≢ b
      → rank_b < rank_a
      → get_elem? m b ≢ some (to_rank_repr rank_b)
      → Move m (link job a rank_a b rank_b) m (find job a [] (then_b b)) []
  link_tie_a :
      {job : Job} {a rank_a b rank_b : ℕ}
      → rank_a ≡ rank_b
      → a < b
      → get_elem? m a ≡ some (to_rank_repr rank_a)
      → Move m (link job a rank_a b rank_b) (set m a (pos b)) (raise job b rank_b) []
  link_tie_a_fails :
      {job : Job} {a rank_a b rank_b : ℕ}
      → rank_a ≡ rank_b
      → a < b
      → get_elem? m a ≢ some (to_rank_repr rank_a)
      → Move m (link job a rank_a b rank_b) m (find job a [] (then_b b)) []
  link_tie_b :
      {job : Job} {a rank_a b rank_b : ℕ}
      → rank_a ≡ rank_b
      → b < a
      → get_elem? m b ≡ some (to_rank_repr rank_b)
      → Move m (link job a rank_a b rank_b) (set m b (pos a)) (raise job a rank_a) []
  link_tie_b_fails :
      {job : Job} {a rank_a b rank_b : ℕ}
      → rank_a ≡ rank_b
      → b < a
      → get_elem? m b ≢ some (to_rank_repr rank_b)
      → Move m (link job a rank_a b rank_b) m (find job a [] (then_b b)) []
  raise_rank :
      {job : Job} {root rank : ℕ}
      → get_elem? m root ≡ some (to_rank_repr rank)
      → Move m
          (raise job root rank)
          (set m root (to_rank_repr (suc rank)))
          idle
          (united job true ∷ [])
  raise_rank_fails :
      {job : Job} {root rank : ℕ}
      → get_elem? m root ≢ some (to_rank_repr rank)
      → Move m (raise job root rank) m idle (united job true ∷ [])
  start_connected :
      {a b : ℕ} → a < length m → b < length m → Move m idle m (look (a, b) a (Query.then_b b)) []
  look_up :
      {job : Job} {node p : ℕ} {query : Query}
      → get_elem? m node ≡ some (pos p)
      → Move m (look job node query) m (look job p query) []
  look_a :
      {job : Job} {node r b : ℕ}
      → get_elem? m node ≡ some (negsuc r)
      → Move m (look job node (Query.then_b b)) m (look job b (then_check node)) []
  look_b :
      {job : Job} {node r a : ℕ}
      → get_elem? m node ≡ some (negsuc r)
      → Move m (look job node (then_check a)) m (check job a node) []
  is_same : {job : Job} {a b : ℕ} → a ≡ b → Move m (check job a b) m idle (answered job true ∷ [])
  still_root :
      {job : Job} {a b r : ℕ}
      → a ≢ b
      → get_elem? m a ≡ some (negsuc r)
      → Move m (check job a b) m idle (answered job false ∷ [])
  was_linked :
      {job : Job} {a b p : ℕ}
      → a ≢ b
      → get_elem? m a ≡ some (pos p)
      → Move m (check job a b) m (look job a (Query.then_b b)) []

-- `union_find`, where the threads stand, and the events, the last first.
pub record System : Type 0 where
  pub union_find : List ℤ
  pub pc : ℕ → Pc
  pub log : List Event

pub data Step (s : System) : System → Type 0 where
  pick :
      (i : ℕ) {m : List ℤ} {p : Pc} {events : List Event}
      → Move s.union_find (s.pc i) m p events
      → Step s (record { union_find = m; pc = update s.pc i p; log = events ++ s.log })

-- The constructor gives every node rank 1.
unfoldable pub init : ℕ → List ℤ
init n = replicate n (to_rank_repr 1)

abbrev pub start : ℕ → System
start n = record { union_find = init n; pc = λ i. idle; log = [] }

pub data Reach (n : ℕ) : System → Type 0 where
  here : Reach n (start n)
  later : {s t : System} → Reach n s → Step s t → Reach n t

-- `find_representative`, run alone: `none` stands for a node out of range, or for fuel that is used up.
unfoldable pub find_representative : ℕ → List ℤ → ℕ → Option ℕ
find_representative zero m node = none
find_representative (suc fuel) m node = elim (get_elem? m node) [
  | none ↦ none
  | some v ↦ elim v [ pos p ↦ find_representative fuel m p | negsuc r ↦ some node ]
]

-- The tests of a round of `connected`: whether the roots are the same, and what the entry of the
-- first is now.
unfoldable pub check_roots : Bool → Option ℤ → Option Bool → Option Bool
check_roots true entry again = some true
check_roots false none again = none
check_roots false (some (pos p)) again = again
check_roots false (some (negsuc r)) again = some false

-- `connected`, run alone: the loop has `rounds` rounds and each search `fuel` steps.
unfoldable pub connected : ℕ → ℕ → List ℤ → ℕ → ℕ → Option Bool
connected zero fuel m a b = none
connected (suc rounds) fuel m a b = do
  root_a ← find_representative fuel m a
  root_b ← find_representative fuel m b
  check_roots (root_a == root_b) (get_elem? m root_a) (connected rounds fuel m root_a root_b)
