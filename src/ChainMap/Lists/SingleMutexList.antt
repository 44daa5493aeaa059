-- ===== src/ChainMap/Lists/SingleMutexList.antt =====
-- exercise5/src/lists/single_mutex_list.h. `std::equal_to<>` compares a value with a value in
-- `insert`, and with whatever a client searches for in `find` and `erase`.
use wt_lab_efficient_paral.Common.{
  ℕ, suc, Bool, true, false, List, [], ◌∷◌, Option, none, some, if◌then◌else◌,
}

module _ {T : Type 0} (compare : T → T → Bool) where
  -- The `while` of `insert` from `node` on, with the comparison that follows it.
  unfoldable pub insert_from : T → T → List T → List T × Option T × Bool
  insert_from value node [] =
      if compare node value
      then (node ∷ [], some node, false)
      else (node ∷ value ∷ [], some value, true)
  insert_from value node (next ∷ rest) =
      let (chain, it, flag) = insert_from value next rest in
      if compare node value
      then (node ∷ next ∷ rest, some node, false)
      else (node ∷ chain, it, flag)

  unfoldable pub insert : T → List T → List T × Option T × Bool
  unfolding insert_from
  insert value [] = (value ∷ [], some value, true)
  insert value (head ∷ rest) = insert_from value head rest

module _ {T V : Type 0} (compare : T → V → Bool) where
  unfoldable pub find : V → List T → Option T
  find value [] = none
  find value (node ∷ rest) = if compare node value then some node else find value rest

  unfoldable pub erase : V → List T → List T × Bool
  erase value [] = ([], false)
  erase value (node ∷ rest) =
      let (chain, flag) = erase value rest in
      if compare node value then (rest, true) else (node ∷ chain, flag)

module _ {T : Type 0} where
  unfoldable pub empty : List T → Bool
  empty [] = true
  empty (node ∷ rest) = false

  -- The `for` of `size`, with its counter.
  unfoldable pub size_from : ℕ → List T → ℕ
  size_from n [] = n
  size_from n (node ∷ rest) = size_from (suc n) rest

  unfoldable pub size : List T → ℕ
  unfolding size_from
  size chain = size_from 0 chain

  unfoldable pub clear : List T → List T
  clear chain = []
