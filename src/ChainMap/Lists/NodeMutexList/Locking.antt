-- ===== src/ChainMap/Lists/NodeMutexList/Locking.antt =====
-- The hand-over-hand locking of `node_mutex_list`.
use wt_lab_efficient_paral.Common.{
  Bool-cases, inl, inr, ℕ, suc, ◌≡◌, refl, Bool, true, false, List, [], ◌∷◌, Option, none, some,
  ltb, ◌==◌, ◌&&◌, if◌then◌else◌, length, arith,
}
use wt_lab_efficient_paral.ChainMap.Lists.NodeMutexList.{
  Event, lock, unlock, insert_from, insert, find_from, find, erase_from, erase, size_from, size,
  empty, clear,
}

abbrev all_below : ℕ → List ℕ → Bool
all_below i [] = true
all_below i (j ∷ held) = ltb j i && all_below i held

abbrev contains : ℕ → List ℕ → Bool
contains i [] = false
contains i (j ∷ held) = if i == j then true else contains i held

abbrev remove : ℕ → List ℕ → List ℕ
remove i [] = []
remove i (j ∷ held) = let rest = remove i held in if i == j then held else j ∷ rest

-- The locks that are held after the events, or `none` when the discipline is broken: a lock is taken
-- only above the ones that are held and as the second at most, and only a held lock is released.
abbrev pub follow : List Event → List ℕ → Option (List ℕ)
follow [] held = some held
follow (lock i ∷ events) held =
    let next = follow events (i ∷ held) in
    if all_below i held && ltb (length held) 2 then next else none
follow (unlock i ∷ events) held =
    let next = follow events (remove i held) in if contains i held then next else none

-- One step of a walk: the lock of the next node is taken before the one that is held is released.
hand_over :
    (i : ℕ) (events : List Event)
    → follow events (suc i ∷ []) ≡ some []
    → follow (lock (suc i) ∷ unlock i ∷ events) (i ∷ []) ≡ some []
hand_over i events h = ground arith

release : (i : ℕ) → follow (unlock i ∷ []) (i ∷ []) ≡ some []
release i = ground arith

release_both : (i : ℕ) → follow (lock (suc i) ∷ unlock i ∷ unlock (suc i) ∷ []) (i ∷ []) ≡ some []
release_both i = ground arith

module _ {T : Type 0} (compare : T → T → Bool) where
  insert_from-follow :
      (i : ℕ) (value : T) (chain : List T)
      → follow (insert_from compare i value chain).3 (i ∷ []) ≡ some []
  unfolding insert_from
  insert_from-follow i value [] = release i
  insert_from-follow i value (node ∷ rest) = elim (Bool-cases (compare node value)) [
    | inl eq ↦ rw eq (release i)
    | inr ne ↦ rw ne (
        hand_over i (insert_from compare (suc i) value rest).3
          (insert_from-follow (suc i) value rest))
  ]

  insert-follow : (value : T) (chain : List T) → follow (insert compare value chain).3 [] ≡ some []
  unfolding insert
  insert-follow value [] = refl
  insert-follow value (node ∷ rest) = elim (Bool-cases (compare node value)) [
    | inl eq ↦ rw eq
    | inr ne ↦
        rw ne (hand_over 0 (insert_from compare 1 value rest).3 (insert_from-follow 1 value rest))
  ]

module _ {T V : Type 0} (compare : T → V → Bool) where
  find_from-follow :
      (i : ℕ) (value : V) (chain : List T)
      → follow (find_from compare i value chain).1 (i ∷ []) ≡ some []
  unfolding find_from
  find_from-follow i value [] = release i
  find_from-follow i value (node ∷ rest) = elim (Bool-cases (compare node value)) [
    | inl eq ↦ rw eq (release i)
    | inr ne ↦
        rw ne (
          hand_over i (find_from compare (suc i) value rest).1
            (find_from-follow (suc i) value rest))
  ]

  find-follow : (value : V) (chain : List T) → follow (find compare value chain).1 [] ≡ some []
  unfolding find
  find-follow value [] = refl
  find-follow value (node ∷ rest) = elim (Bool-cases (compare node value)) [
    | inl eq ↦ rw eq
    | inr ne ↦
        rw ne (hand_over 0 (find_from compare 1 value rest).1 (find_from-follow 1 value rest))
  ]

  erase_from-follow :
      (i : ℕ) (value : V) (chain : List T)
      → follow (erase_from compare i value chain).2 (i ∷ []) ≡ some []
  unfolding erase_from
  erase_from-follow i value [] = release i
  erase_from-follow i value (node ∷ rest) = elim (Bool-cases (compare node value)) [
    | inl eq ↦ rw eq (release_both i)
    | inr ne ↦ rw ne (
        hand_over i (erase_from compare (suc i) value rest).2
          (erase_from-follow (suc i) value rest))
  ]

  erase-follow : (value : V) (chain : List T) → follow (erase compare value chain).2 [] ≡ some []
  unfolding erase
  erase-follow value [] = refl
  erase-follow value (node ∷ rest) = elim (Bool-cases (compare node value)) [
    | inl eq ↦ rw eq
    | inr ne ↦
        rw ne (hand_over 0 (erase_from compare 1 value rest).2 (erase_from-follow 1 value rest))
  ]

module _ {T : Type 0} where
  size_from-follow : (i n : ℕ) (chain : List T) → follow (size_from i n chain).1 (i ∷ []) ≡ some []
  unfolding size_from
  size_from-follow i n [] = release i
  size_from-follow i n (node ∷ rest) =
      hand_over i (size_from (suc i) (suc n) rest).1 (size_from-follow (suc i) (suc n) rest)

  size-follow : (chain : List T) → follow (size chain).1 [] ≡ some []
  unfolding size
  size-follow [] = refl
  size-follow (node ∷ rest) = hand_over 0 (size_from 1 1 rest).1 (size_from-follow 1 1 rest)

  empty-follow : (chain : List T) → follow (empty chain).1 [] ≡ some []
  unfolding empty
  empty-follow [] = refl
  empty-follow (node ∷ rest) = refl

  clear-follow : (chain : List T) → follow (clear chain).1 [] ≡ some []
  unfolding clear
  clear-follow chain = refl

-- insert, find, erase, size, empty and clear each start and end with no lock held, take a lock only
-- above those that they hold, never hold more than two, and release only what they hold.
pub node_mutex_discipline :
    {T V : Type 0} (compare : T → T → Bool) (matches : T → V → Bool) (chain : List T) (value : T)
    (key : V)
    → (follow (insert compare value chain).3 [] ≡ some [])
      × (follow (find matches key chain).1 [] ≡ some [])
      × (follow (erase matches key chain).2 [] ≡ some [])
      × (follow (size chain).1 [] ≡ some [])
      × (follow (empty chain).1 [] ≡ some [])
      × (follow (clear chain).1 [] ≡ some [])
node_mutex_discipline compare matches chain value key = (
  insert-follow compare value chain,
  find-follow matches key chain,
  erase-follow matches key chain,
  size-follow chain,
  empty-follow chain,
  clear-follow chain,
)
