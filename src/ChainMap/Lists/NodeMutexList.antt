-- ===== src/ChainMap/Lists/NodeMutexList.antt =====
-- exercise5/src/lists/node_mutex_list.h: a mutex for `m_head` and one in each node for its `next`.
-- Besides its result a method gives the locks that it takes and releases, in their order: lock 0 is
-- `m_head_mutex`, and lock `i + 1` is `next_mutex` of the node at position `i`. Shared locks are
-- not told from exclusive ones.
pub mod Locking
pub mod Agrees
use wt_lab_efficient_paral.Common.{
  ℕ, zero, suc, ◌+◌, Bool, true, false, List, [], ◌∷◌, ◌++◌, Option, none, some, if◌then◌else◌,
}

pub data Event : Type 0 where
  lock : ℕ → Event
  unlock : ℕ → Event

module _ {T : Type 0} (compare : T → T → Bool) where
  -- The `while` of `insert` and what follows it: lock `i` is held, and guards the chain.
  unfoldable pub insert_from : ℕ → T → List T → List T × Option T × Bool × List Event
  insert_from i value [] = (value ∷ [], some value, true, unlock i ∷ [])
  insert_from i value (node ∷ rest) =
      let (chain, it, flag, events) = insert_from (suc i) value rest in
      if compare node value
      then (node ∷ rest, some node, false, unlock i ∷ [])
      else (node ∷ chain, it, flag, lock (suc i) ∷ unlock i ∷ events)

  unfoldable pub insert : T → List T → List T × Option T × Bool × List Event
  insert value [] = (value ∷ [], some value, true, lock 0 ∷ unlock 0 ∷ [])
  insert value (node ∷ rest) =
      let (chain, it, flag, events) = insert_from 1 value rest in
      if compare node value
      then (node ∷ rest, some node, false, lock 0 ∷ unlock 0 ∷ [])
      else (node ∷ chain, it, flag, lock 0 ∷ lock 1 ∷ unlock 0 ∷ events)

module _ {T V : Type 0} (compare : T → V → Bool) where
  -- The `while` of `find` and what follows it.
  unfoldable pub find_from : ℕ → V → List T → Option T × List Event
  find_from i value [] = (none, unlock i ∷ [])
  find_from i value (node ∷ rest) =
      let (it, events) = find_from (suc i) value rest in
      if compare node value
      then (some node, unlock i ∷ [])
      else (it, lock (suc i) ∷ unlock i ∷ events)

  unfoldable pub find : V → List T → Option T × List Event
  find value [] = (none, lock 0 ∷ unlock 0 ∷ [])
  find value (node ∷ rest) =
      let (it, events) = find_from 1 value rest in
      if compare node value
      then (some node, lock 0 ∷ unlock 0 ∷ [])
      else (it, lock 0 ∷ lock 1 ∷ unlock 0 ∷ events)

  -- The `while` of `erase` and what follows it: the node that goes is locked before its predecessor
  -- is written.
  unfoldable pub erase_from : ℕ → V → List T → List T × Bool × List Event
  erase_from i value [] = ([], false, unlock i ∷ [])
  erase_from i value (node ∷ rest) =
      let (chain, flag, events) = erase_from (suc i) value rest in
      if compare node value
      then (rest, true, lock (suc i) ∷ unlock i ∷ unlock (suc i) ∷ [])
      else (node ∷ chain, flag, lock (suc i) ∷ unlock i ∷ events)

  unfoldable pub erase : V → List T → List T × Bool × List Event
  erase value [] = ([], false, lock 0 ∷ unlock 0 ∷ [])
  erase value (node ∷ rest) =
      let (chain, flag, events) = erase_from 1 value rest in
      if compare node value
      then (rest, true, lock 0 ∷ lock 1 ∷ unlock 0 ∷ unlock 1 ∷ [])
      else (node ∷ chain, flag, lock 0 ∷ lock 1 ∷ unlock 0 ∷ events)

module _ {T : Type 0} where
  -- The `while` of `size` with its counter, and the last `unlock_shared`.
  unfoldable pub size_from : ℕ → ℕ → List T → ℕ × List Event
  size_from i n [] = (n, unlock i ∷ [])
  size_from i n (node ∷ rest) =
      let (m, events) = size_from (suc i) (suc n) rest in (m, lock (suc i) ∷ unlock i ∷ events)

  unfoldable pub size : List T → ℕ × List Event
  size [] = (0, lock 0 ∷ unlock 0 ∷ [])
  size (node ∷ rest) =
      let (m, events) = size_from 1 1 rest in (m, lock 0 ∷ lock 1 ∷ unlock 0 ∷ events)

  -- `std::shared_lock lock(m_head_mutex)`, which is released on return.
  unfoldable pub empty : List T → Bool × List Event
  empty [] = (true, lock 0 ∷ unlock 0 ∷ [])
  empty (node ∷ rest) = (false, lock 0 ∷ unlock 0 ∷ [])

  -- `std::unique_lock lock(m_head_mutex)`, likewise.
  unfoldable pub clear : List T → List T × List Event
  clear chain = ([], lock 0 ∷ unlock 0 ∷ [])
