-- ===== src/ChainMap/ListBucket/Chain.antt =====
-- The chains of a `ListBucket`, in which the stored hashes are right and no key stands twice.
use mathlib.Core.Path.{subst}
use wt_lab_efficient_paral.Common.{
  ◌≡◌, refl, Bool, true, false, List, [], ◌∷◌, ◌++◌, Option, none, some, ap, ◌∙◌, sym,
  if◌then◌else◌, Bool-cases, inl, inr, arith, ==_self,
}
use wt_lab_efficient_paral.ChainMap.Lists.SingleMutexList
use wt_lab_efficient_paral.ChainMap.Bucket.{KeyTraits, key_left, key_swap, is_some}
use wt_lab_efficient_paral.ChainMap.ListBucket.{Data, data_equal, key_matches}

module _ {T : Type 0} where
  -- `insert` of the list appends where `find` finds nothing.
  abbrev pub insert_outcome : T → List T → Option T → List T × Option T × Bool
  insert_outcome value chain none = (chain ++ value ∷ [], some value, true)
  insert_outcome value chain (some node) = (chain, some node, false)

  outcome_cons :
      (value node : T) (chain : List T) (o : Option T)
      → (let (rest, it, flag) = insert_outcome value chain o in (node ∷ rest, it, flag))
        ≡ insert_outcome value (node ∷ chain) o
  outcome_cons value node chain none = refl
  outcome_cons value node chain (some e) = refl

  insert_from-find :
      (compare : T → T → Bool) (value node : T) (rest : List T)
      → SingleMutexList.insert_from compare value node rest
        ≡ insert_outcome value (node ∷ rest) (SingleMutexList.find compare value (node ∷ rest))
  unfolding SingleMutexList.insert_from SingleMutexList.find
  insert_from-find compare value node [] = ground arith
  insert_from-find compare value node (next ∷ rest) = elim (Bool-cases (compare node value)) [
    | inl eq ↦ rw eq
    | inr ne ↦
        rw (ne, insert_from-find compare value next rest)
          (outcome_cons value node (next ∷ rest) (SingleMutexList.find compare value (next ∷ rest)))
  ]

  pub insert-find :
      (compare : T → T → Bool) (value : T) (chain : List T)
      → SingleMutexList.insert compare value chain
        ≡ insert_outcome value chain (SingleMutexList.find compare value chain)
  unfolding SingleMutexList.insert SingleMutexList.find
  insert-find compare value [] = refl
  insert-find compare value (node ∷ rest) = insert_from-find compare value node rest

module _ {K V : Type 0} (traits : KeyTraits K) (with_hash : Bool) where
  open traits use {key_equal, key_equal_iff}

  abbrev pub lookup : K → List (Data K V) → Option (Data K V)
  lookup k chain = SingleMutexList.find (key_matches traits with_hash) k chain

  abbrev pub IsChain : List (Data K V) → Type 0
  IsChain [] = Unit
  IsChain (x ∷ chain) = (x.hash ≡ traits.hash x.key) × (lookup x.key chain ≡ none) × IsChain chain

  -- Among right hashes the comparison of the hash changes nothing.
  data_equal-key :
      (x y : Data K V)
      → x.hash ≡ traits.hash x.key
      → y.hash ≡ traits.hash y.key
      → data_equal traits with_hash x y ≡ key_matches traits with_hash x y.key
  unfolding data_equal key_matches
  data_equal-key x y hx hy = elim (Bool-cases (key_equal x.key y.key)) [
    | inl e ↦
        let same : x.hash ≡ y.hash =
          hx ∙ ap traits.hash ((key_equal_iff x.key y.key).0 e) ∙ sym hy in
        ground (arith, same, ==_self y.hash)
    | inr e ↦ ground arith
  ]

  pub lookup-data :
      (y : Data K V) (chain : List (Data K V))
      → y.hash ≡ traits.hash y.key
      → IsChain chain
      → SingleMutexList.find (data_equal traits with_hash) y chain ≡ lookup y.key chain
  unfolding SingleMutexList.find
  lookup-data y [] hy v = refl
  lookup-data y (x ∷ chain) hy (hx, absent, v) =
      rw (data_equal-key x y hx hy, lookup-data y chain hy v) refl

  pub lookup-append :
      (j : K) (chain : List (Data K V)) (y : Data K V)
      → lookup y.key chain ≡ none
      → lookup j (chain ++ y ∷ []) ≡ (if key_equal y.key j then some y else lookup j chain)
  unfolding SingleMutexList.find key_matches
  lookup-append j [] y absent = refl
  lookup-append j (x ∷ chain) y absent =
      let swap = key_swap traits y.key x.key in
      let left = key_left traits y.key j x.key in
      let swap' = key_swap traits x.key j in ground (arith, lookup-append j chain y)

  pub append-IsChain :
      (chain : List (Data K V)) (y : Data K V)
      → y.hash ≡ traits.hash y.key
      → lookup y.key chain ≡ none
      → IsChain chain
      → IsChain (chain ++ y ∷ [])
  unfolding SingleMutexList.find key_matches
  append-IsChain [] y hy absent v = (hy, refl, tt)
  append-IsChain (x ∷ chain) y hy absent (hx, once, v) =
      let swap = key_swap traits y.key x.key in
      let rest : lookup y.key chain ≡ none = ground arith in
      let apart : key_equal x.key y.key ≡ false = ground arith in
      (
        hx,
        rw (lookup-append x.key chain y rest, swap, apart) once,
        append-IsChain chain y hy rest v,
      )

  abbrev pub without : K → List (Data K V) → List (Data K V) × Bool
  without k chain = SingleMutexList.erase (key_matches traits with_hash) k chain

  pub lookup-erase :
      (j k : K) (chain : List (Data K V))
      → IsChain chain
      → lookup j (without k chain).0 ≡ (if key_equal k j then none else lookup j chain)
  unfolding SingleMutexList.find SingleMutexList.erase key_matches
  lookup-erase j k [] v = ground arith
  lookup-erase j k (x ∷ chain) (hx, once, v) = elim (Bool-cases (key_equal x.key k)) [
    | inl e ↦
        let gone : lookup k chain ≡ none =
          subst (λ (i : K). lookup i chain ≡ none) ((key_equal_iff x.key k).0 e) once in
        let alike = key_left traits x.key k j e in
        rw (e, alike)
          (elim (Bool-cases (key_equal k j)) [
            | inl h ↦ rw h (subst (λ (i : K). lookup i chain ≡ none) ((key_equal_iff k j).0 h) gone)
            | inr h ↦ rw h refl
          ])
    | inr e ↦
        let swap = key_swap traits k j in
        let left = key_left traits x.key j k in ground (arith, lookup-erase j k chain v)
  ]

  pub erase-flag :
      (k : K) (chain : List (Data K V)) → (without k chain).1 ≡ is_some (lookup k chain)
  unfolding SingleMutexList.find SingleMutexList.erase key_matches
  erase-flag k [] = refl
  erase-flag k (x ∷ chain) = ground (arith, erase-flag k chain)

  pub erase-IsChain :
      (k : K) (chain : List (Data K V)) → IsChain chain → IsChain (without k chain).0
  unfolding SingleMutexList.find SingleMutexList.erase key_matches
  erase-IsChain k [] v = tt
  erase-IsChain k (x ∷ chain) (hx, once, v) = elim (Bool-cases (key_equal x.key k)) [
    | inl e ↦ rw e v
    | inr e ↦ rw e (hx, ground (arith, lookup-erase x.key k chain v), erase-IsChain k chain v)
  ]
