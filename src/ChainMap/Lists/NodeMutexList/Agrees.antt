-- ===== src/ChainMap/Lists/NodeMutexList/Agrees.antt =====
-- Run alone, the methods of `node_mutex_list` compute what those of `single_mutex_list` compute.
use wt_lab_efficient_paral.Common.{
  ℕ, suc, ◌≡◌, refl, Bool-cases, inl, inr, Bool, true, false, List, [], ◌∷◌, some, arith,
}
use wt_lab_efficient_paral.ChainMap.Lists.SingleMutexList
use wt_lab_efficient_paral.ChainMap.Lists.NodeMutexList

module _ {T : Type 0} (compare : T → T → Bool) where
  insert_from_same :
      (value node : T) (rest : List T)
      → compare node value ≡ true
      → SingleMutexList.insert_from compare value node rest ≡ (node ∷ rest, some node, false)
  unfolding SingleMutexList.insert_from
  insert_from_same value node [] eq = rw eq
  insert_from_same value node (next ∷ rest) eq = rw eq

  insert_from-agrees :
      (i : ℕ) (value node : T) (rest : List T)
      → compare node value ≡ false
      → (let r = NodeMutexList.insert_from compare i value rest in
          SingleMutexList.insert_from compare value node rest ≡ (node ∷ r.0, r.1, r.2))
  unfolding NodeMutexList.insert_from SingleMutexList.insert_from
  insert_from-agrees i value node [] ne = ground arith
  insert_from-agrees i value node (next ∷ rest) ne = elim (Bool-cases (compare next value)) [
    | inl eq ↦ rw (ne, eq, insert_from_same value next rest eq)
    | inr other ↦ rw (ne, other, insert_from-agrees (suc i) value next rest other)
  ]

  insert-agrees :
      (value : T) (chain : List T)
      → (let r = NodeMutexList.insert compare value chain in
          SingleMutexList.insert compare value chain ≡ (r.0, r.1, r.2))
  unfolding NodeMutexList.insert SingleMutexList.insert
  insert-agrees value [] = refl
  insert-agrees value (node ∷ rest) = elim (Bool-cases (compare node value)) [
    | inl eq ↦ rw eq (insert_from_same value node rest eq)
    | inr ne ↦ rw ne (insert_from-agrees 1 value node rest ne)
  ]

module _ {T V : Type 0} (compare : T → V → Bool) where
  find_from-agrees :
      (i : ℕ) (value : V) (rest : List T)
      → (NodeMutexList.find_from compare i value rest).0 ≡ SingleMutexList.find compare value rest
  unfolding NodeMutexList.find_from SingleMutexList.find
  find_from-agrees i value [] = refl
  find_from-agrees i value (node ∷ rest) = ground (arith, find_from-agrees (suc i) value rest)

  erase_from-agrees :
      (i : ℕ) (value : V) (rest : List T)
      → (let r = NodeMutexList.erase_from compare i value rest in
          (SingleMutexList.erase compare value rest ≡ (r.0, r.1)))
  unfolding NodeMutexList.erase_from SingleMutexList.erase
  erase_from-agrees i value [] = refl
  erase_from-agrees i value (node ∷ rest) = ground (arith, erase_from-agrees (suc i) value rest)

  find-agrees :
      (value : V) (chain : List T)
      → (NodeMutexList.find compare value chain).0 ≡ SingleMutexList.find compare value chain
  unfolding NodeMutexList.find SingleMutexList.find
  find-agrees value [] = refl
  find-agrees value (node ∷ rest) = ground (arith, find_from-agrees 1 value rest)

  erase-agrees :
      (value : V) (chain : List T)
      → (let r = NodeMutexList.erase compare value chain in
          SingleMutexList.erase compare value chain ≡ (r.0, r.1))
  unfolding NodeMutexList.erase SingleMutexList.erase
  erase-agrees value [] = refl
  erase-agrees value (node ∷ rest) = ground (arith, erase_from-agrees 1 value rest)

module _ {T : Type 0} where
  size_from-agrees :
      (i n : ℕ) (rest : List T)
      → (NodeMutexList.size_from i n rest).0 ≡ SingleMutexList.size_from n rest
  unfolding NodeMutexList.size_from SingleMutexList.size_from
  size_from-agrees i n [] = refl
  size_from-agrees i n (node ∷ rest) = size_from-agrees (suc i) (suc n) rest

  size-agrees : (chain : List T) → (NodeMutexList.size chain).0 ≡ SingleMutexList.size chain
  unfolding NodeMutexList.size SingleMutexList.size
  size-agrees [] = refl
  size-agrees (node ∷ rest) = size_from-agrees 1 1 rest

-- On every chain the four methods of the two lists have the same results and leave the same chain.
pub node_mutex-agrees :
    {T V : Type 0} (compare : T → T → Bool) (matches : T → V → Bool) (chain : List T) (value : T)
    (key : V)
    → (let r = NodeMutexList.insert compare value chain in
        SingleMutexList.insert compare value chain ≡ (r.0, r.1, r.2))
      × ((NodeMutexList.find matches key chain).0 ≡ SingleMutexList.find matches key chain)
      × (let r = NodeMutexList.erase matches key chain in
          SingleMutexList.erase matches key chain ≡ (r.0, r.1))
      × ((NodeMutexList.size chain).0 ≡ SingleMutexList.size chain)
node_mutex-agrees compare matches chain value key = (
  insert-agrees compare value chain,
  find-agrees matches key chain,
  erase-agrees matches key chain,
  size-agrees chain,
)
