-- ===== src/ChainMap/ListBucket/Laws.antt =====
-- `ListBucket` keeps the promises of a bucket.
use wt_lab_efficient_paral.Common.{
  ◌≡◌, refl, ap, Bool, true, false, List, [], ◌∷◌, ◌++◌, Option, none, some, if◌then◌else◌,
  Bool-cases, Option-cases, inl, inr, arith,
}
use wt_lab_efficient_paral.ChainMap.Lists.SingleMutexList
use wt_lab_efficient_paral.ChainMap.Bucket.{KeyTraits, Bucket, or_new, is_some, is_none}
use wt_lab_efficient_paral.ChainMap.ListBucket
use wt_lab_efficient_paral.ChainMap.ListBucket.{Data, pair}
use wt_lab_efficient_paral.ChainMap.ListBucket.Chain.{
  IsChain, lookup, lookup-data, lookup-append, append-IsChain, lookup-erase, erase-flag,
  erase-IsChain, insert-find,
}

module _ {K V : Type 0} (traits : KeyTraits K) (with_hash : Bool) where
  -- The three results of `insert` by whether the key is there.
  abbrev outcome :
      Data K V → List (Data K V) → Option (Data K V) → List (Data K V) × Option (K × V) × Bool
  outcome x chain none = (chain ++ x ∷ [], some (pair traits with_hash x), true)
  outcome x chain (some e) = (chain, some (pair traits with_hash e), false)

  insert-outcome :
      (k : K) (v : V) (chain : List (Data K V))
      → IsChain traits with_hash chain
      → ListBucket.insert traits with_hash k v (traits.hash k) chain
        ≡ outcome
            (record { hash = traits.hash k; key = k; value = v })
            chain
            (lookup traits with_hash k chain)
  unfolding ListBucket.insert
  insert-outcome k v chain valid =
      let x : Data K V = record { hash = traits.hash k; key = k; value = v } in
      rw
        (
          insert-find (ListBucket.data_equal traits with_hash) x chain,
          lookup-data traits with_hash x chain refl valid,
        )
        (elim (Option-cases (lookup traits with_hash k chain)) [
          | inl e ↦ rw e refl
          | inr (a, e) ↦ rw e refl
        ])

  insert-IsChain :
      (k : K) (v : V) (chain : List (Data K V))
      → IsChain traits with_hash chain
      → IsChain traits with_hash (ListBucket.insert traits with_hash k v (traits.hash k) chain).0
  insert-IsChain k v chain valid = elim (Option-cases (lookup traits with_hash k chain)) [
    | inl e ↦
        rw (insert-outcome k v chain valid, e)
          (append-IsChain traits with_hash chain _ refl e valid)
    | inr (a, e) ↦ rw (insert-outcome k v chain valid, e) valid
  ]

  -- A pair that is found has the key that was searched for.
  lookup-key :
      (k : K) (chain : List (Data K V)) (x : Data K V)
      → lookup traits with_hash k chain ≡ some x
      → traits.key_equal x.key k ≡ true
  unfolding SingleMutexList.find ListBucket.key_matches
  lookup-key k [] x e = cc
  lookup-key k (y ∷ chain) x e = elim (Bool-cases (traits.key_equal y.key k)) [
    | inl h ↦ ground arith
    | inr h ↦ lookup-key k chain x (ground arith)
  ]

  find-insert :
      (k j : K) (v : V) (chain : List (Data K V))
      → IsChain traits with_hash chain
      → ListBucket.find traits with_hash j
          (traits.hash j)
          (ListBucket.insert traits with_hash k v (traits.hash k) chain).0
        ≡ (if traits.key_equal k j
            then some (or_new (ListBucket.find traits with_hash k (traits.hash k) chain) (k, v))
            else ListBucket.find traits with_hash j (traits.hash j) chain)
  unfolding ListBucket.find
  find-insert k j v chain valid = elim (Option-cases (lookup traits with_hash k chain)) [
    | inl e ↦
        let x : Data K V = record { hash = traits.hash k; key = k; value = v } in
        rw (insert-outcome k v chain valid, e, lookup-append traits with_hash j chain x e)
          (elim (Bool-cases (traits.key_equal k j)) [ inl h ↦ rw h refl | inr h ↦ rw h refl ])
    | inr (a, e) ↦
        rw (insert-outcome k v chain valid, e)
          (elim (Bool-cases (traits.key_equal k j)) [
            | inl h ↦
                let same = (traits.key_equal_iff k j).0 h in
                rw (h, ← ap (λ (i : K). lookup traits with_hash i chain) same, e) refl
            | inr h ↦ rw h refl
          ])
  ]

  insert_result :
      (k : K) (v : V) (chain : List (Data K V))
      → IsChain traits with_hash chain
      → (let before = ListBucket.find traits with_hash k (traits.hash k) chain in
          let after = ListBucket.insert traits with_hash k v (traits.hash k) chain in
          (after.1 ≡ some (or_new before (k, v))) × (after.2 ≡ is_none before))
  unfolding ListBucket.find
  insert_result k v chain valid = elim (Option-cases (lookup traits with_hash k chain)) [
    | inl e ↦ rw (insert-outcome k v chain valid, e) (refl, refl)
    | inr (a, e) ↦ rw (insert-outcome k v chain valid, e) (refl, refl)
  ]

  find-erase :
      (k j : K) (chain : List (Data K V))
      → IsChain traits with_hash chain
      → ListBucket.find traits with_hash j
          (traits.hash j)
          (ListBucket.erase traits with_hash k (traits.hash k) chain).0
        ≡ (if traits.key_equal k j
            then none
            else ListBucket.find traits with_hash j (traits.hash j) chain)
  unfolding ListBucket.find ListBucket.erase
  find-erase k j chain valid =
      rw (lookup-erase traits with_hash j k chain valid)
        (elim (Bool-cases (traits.key_equal k j)) [ inl h ↦ rw h refl | inr h ↦ rw h refl ])

  erase_result :
      (k : K) (chain : List (Data K V))
      → (ListBucket.erase traits with_hash k (traits.hash k) chain).1
        ≡ is_some (ListBucket.find traits with_hash k (traits.hash k) chain)
  unfolding ListBucket.find ListBucket.erase
  erase_result k chain =
      rw (erase-flag traits with_hash k chain)
        (elim (Option-cases (lookup traits with_hash k chain)) [
          | inl e ↦ rw e refl
          | inr (a, e) ↦ rw e refl
        ])

  -- On a valid chain, after `insert` of a key `find` gives the pair that was there, or else the new
  -- one, and for every other key what it gave; the handle is that pair and the flag says whether it
  -- is new. After `erase` it gives nothing for the key and for every other key what it gave; the flag
  -- says whether there was a pair. Both leave a valid chain.
  pub ListBucket_correct :
      (k j : K) (v : V) (chain : List (Data K V))
      → IsChain traits with_hash chain
      → (let look =
            λ (i : K) (c : List (Data K V)). ListBucket.find traits with_hash i (traits.hash i) c in
          let added = ListBucket.insert traits with_hash k v (traits.hash k) chain in
          let erased = ListBucket.erase traits with_hash k (traits.hash k) chain in
          IsChain traits with_hash added.0
          × (look j added.0 ≡ (
              if traits.key_equal k j then some (or_new (look k chain) (k, v)) else look j chain))
          × (added.1 ≡ some (or_new (look k chain) (k, v)))
          × (added.2 ≡ is_none (look k chain))
          × IsChain traits with_hash erased.0
          × (look j erased.0 ≡ (if traits.key_equal k j then none else look j chain))
          × (erased.1 ≡ is_some (look k chain)))
  ListBucket_correct k j v chain valid =
      let (handle, flag) = insert_result k v chain valid in
      (
        insert-IsChain k v chain valid,
        find-insert k j v chain valid,
        handle,
        flag,
        unfold ListBucket.erase in erase-IsChain traits with_hash k chain valid,
        find-erase k j chain valid,
        erase_result k chain,
      )

  -- `ListBucket` as a bucket.
  pub list_bucket : Bucket K V traits
  unfolding ListBucket.find ListBucket.clear SingleMutexList.find SingleMutexList.clear
  list_bucket = record {
    State = List (Data K V);
    create = [];
    insert = ListBucket.insert traits with_hash;
    find = ListBucket.find traits with_hash;
    erase = ListBucket.erase traits with_hash;
    clear = ListBucket.clear traits with_hash;
    IsValid = IsChain traits with_hash;
    create-IsValid = tt;
    insert-IsValid = insert-IsChain;
    erase-IsValid =
        λ k chain valid. unfold ListBucket.erase in erase-IsChain traits with_hash k chain valid;
    clear-IsValid = λ chain valid. tt;
    find-create = λ j. refl;
    find-insert = find-insert;
    insert_result = insert_result;
    find-erase = find-erase;
    erase_result = λ k chain valid. erase_result k chain;
    find-clear = λ j chain valid. refl;
  }
