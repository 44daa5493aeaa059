-- ===== src/ChainMap/BloomFilter/Laws.antt =====
-- The filter changes no result: `BloomFilterAdapter` keeps the promises of a bucket.
use mathlib.Core.Path.{subst}
use wt_lab_efficient_paral.Common.{
  ℕ, ◌≡◌, refl, sym, ◌∙◌, ap, true, false, none, some, ◌==◌, if◌then◌else◌, Bool-cases, inl, inr,
  arith, ==_self,
}
use wt_lab_efficient_paral.Common.Bits.{bit_or-includes, bit_or-keeps}
use wt_lab_efficient_paral.ChainMap.Bucket.{KeyTraits, Bucket, is_some, is_none, or_new}
use wt_lab_efficient_paral.ChainMap.BloomFilter
use wt_lab_efficient_paral.ChainMap.BloomFilter.{
  BloomFilterAdapter, filter_index, get_filter_mask, bloom_filter_contains, bloom_filter_insert,
}
use Prim.Native.Nat.{bit_and}

module _ {K V : Type 0} {traits : KeyTraits K} (base : Bucket K V traits) (n : ℕ) where
  open traits use {hash, key_equal, key_equal_iff}

  -- Where the filter says no, the bucket has nothing.
  pub record IsValid (b : BloomFilterAdapter base.State) : Type 0 where
    pub bucket : base.IsValid b.m_bucket
    pub filter :
        (k : K)
        → bloom_filter_contains base n (hash k) b ≡ false
        → base.find k (hash k) b.m_bucket ≡ none

  module _ (b : BloomFilterAdapter base.State) (valid : IsValid b) where
    -- On a valid adapter `find` is that of the bucket.
    pub find-base : (k : K) → BloomFilter.find base n k (hash k) b ≡ base.find k (hash k) b.m_bucket
    unfolding BloomFilter.find
    find-base k = elim (Bool-cases (bloom_filter_contains base n (hash k) b)) [
      | inl e ↦ rw e refl
      | inr e ↦ rw e (sym (valid.filter k e))
    ]

    insert-contains :
        (k : K)
        → bloom_filter_contains base n (hash k) (bloom_filter_insert base n (hash k) b) ≡ true
    unfolding bloom_filter_contains bloom_filter_insert
    insert-contains k =
        let mask = get_filter_mask n (hash k) in
        rw (bit_or-includes b.m_bloom_filter mask) (==_self mask)

    insert-contains_other :
        (k j : K)
        → bloom_filter_contains base n (hash j) (bloom_filter_insert base n (hash k) b) ≡ false
        → bloom_filter_contains base n (hash j) b ≡ false
    unfolding bloom_filter_contains bloom_filter_insert
    insert-contains_other k j e =
        let mask = get_filter_mask n (hash j) in
        let added = get_filter_mask n (hash k) in
        elim (Bool-cases (bit_and b.m_bloom_filter mask == mask)) [
          | inl h ↦ absurd (ground (arith, bit_or-keeps b.m_bloom_filter added mask (ground arith)))
          | inr h ↦ h
        ]

    insert-IsValid : (k : K) (v : V) → IsValid (BloomFilter.insert base n k v (hash k) b).0
    unfolding BloomFilter.insert bloom_filter_insert bloom_filter_contains
    insert-IsValid k v = record {
      bucket = base.insert-IsValid k v b.m_bucket valid.bucket;
      filter = λ j e. elim (Bool-cases (key_equal k j)) [
        | inl h ↦
            let told : bloom_filter_contains base n (hash j) (bloom_filter_insert base n (hash k) b)
                ≡ true =
              (subst
                (λ (i : K).
                  bloom_filter_contains base n (hash i) (bloom_filter_insert base n (hash k) b)
                  ≡ true)
                ((key_equal_iff k j).0 h) (insert-contains k)) in
            cc
        | inr h ↦
            rw (base.find-insert k j v b.m_bucket valid.bucket, h)
              (valid.filter j (insert-contains_other k j e))
      ];
    }

    erase-IsValid : (k : K) → IsValid (BloomFilter.erase base n k (hash k) b).0
    unfolding BloomFilter.erase bloom_filter_contains
    erase-IsValid k = elim (Bool-cases (bloom_filter_contains base n (hash k) b)) [
      | inl e ↦ rw e (record {
        bucket = base.erase-IsValid k b.m_bucket valid.bucket;
        filter = λ j f.
            rw (base.find-erase k j b.m_bucket valid.bucket, valid.filter j f)
              (elim (Bool-cases (key_equal k j)) [ inl h ↦ rw h refl | inr h ↦ rw h refl ]);
      })
      | inr e ↦ rw e valid
    ]

  module _ (b : BloomFilterAdapter base.State) (valid : IsValid b) where
    find-insert :
        (k j : K) (v : V)
        → BloomFilter.find base n j (hash j) (BloomFilter.insert base n k v (hash k) b).0 ≡ (
            if key_equal k j
            then some (or_new (BloomFilter.find base n k (hash k) b) (k, v))
            else BloomFilter.find base n j (hash j) b)
    find-insert k j v =
        rw (find-base _ (insert-IsValid b valid k v) j, find-base b valid j, find-base b valid k)
          (unfold BloomFilter.insert bloom_filter_insert in
            base.find-insert k j v b.m_bucket valid.bucket)

    insert_result :
        (k : K) (v : V)
        → (let before = BloomFilter.find base n k (hash k) b in
            let after = BloomFilter.insert base n k v (hash k) b in
            (after.1 ≡ some (or_new before (k, v))) × (after.2 ≡ is_none before))
    insert_result k v = rw (find-base b valid k) (
        unfold BloomFilter.insert bloom_filter_insert in
        base.insert_result k v b.m_bucket valid.bucket)

    erased :
        (k j : K)
        → base.find j (hash j) (BloomFilter.erase base n k (hash k) b).0.m_bucket
          ≡ (if key_equal k j then none else base.find j (hash j) b.m_bucket)
    unfolding BloomFilter.erase
    erased k j = elim (Bool-cases (bloom_filter_contains base n (hash k) b)) [
      | inl e ↦ rw e (base.find-erase k j b.m_bucket valid.bucket)
      | inr e ↦ rw e (elim (Bool-cases (key_equal k j)) [
        | inl h ↦ rw h (
            subst (λ (i : K). base.find i (hash i) b.m_bucket ≡ none) ((key_equal_iff k j).0 h)
              (valid.filter k e))
        | inr h ↦ rw h refl
      ])
    ]

    find-erase :
        (k j : K)
        → BloomFilter.find base n j (hash j) (BloomFilter.erase base n k (hash k) b).0
          ≡ (if key_equal k j then none else BloomFilter.find base n j (hash j) b)
    find-erase k j = rw (find-base _ (erase-IsValid b valid k) j, find-base b valid j) (erased k j)

    erase_result :
        (k : K)
        → (BloomFilter.erase base n k (hash k) b).1 ≡ is_some (BloomFilter.find base n k (hash k) b)
    unfolding BloomFilter.erase BloomFilter.find
    erase_result k = elim (Bool-cases (bloom_filter_contains base n (hash k) b)) [
      | inl e ↦ rw e (base.erase_result k b.m_bucket valid.bucket)
      | inr e ↦ rw e refl
    ]

  clear-IsValid :
      (b : BloomFilterAdapter base.State) → IsValid b → IsValid (BloomFilter.clear base n b)
  unfolding BloomFilter.clear
  clear-IsValid b valid = record {
    bucket = base.clear-IsValid b.m_bucket valid.bucket;
    filter = λ j e. base.find-clear j b.m_bucket valid.bucket;
  }

  pub init-IsValid : IsValid (BloomFilter.init base n)
  unfolding BloomFilter.init
  init-IsValid = record { bucket = base.create-IsValid; filter = λ j e. base.find-create j }

  -- On a valid adapter `find` gives what the bucket's gives; `insert` has the results of the
  -- bucket's and leaves its state; `erase` has its result, and `find` of every key after it is that
  -- of the bucket after its `erase`. Both leave a valid adapter.
  pub bloom_filter_transparent :
      (b : BloomFilterAdapter base.State) (k : K) (v : V)
      → IsValid b
      → (let added = BloomFilter.insert base n k v (hash k) b in
          let erased = BloomFilter.erase base n k (hash k) b in
          (BloomFilter.find base n k (hash k) b ≡ base.find k (hash k) b.m_bucket)
          × IsValid added.0
          × ((added.0.m_bucket, added.1, added.2) ≡ base.insert k v (hash k) b.m_bucket)
          × IsValid erased.0
          × (erased.1 ≡ (base.erase k (hash k) b.m_bucket).1)
          × ((j : K)
              → BloomFilter.find base n j (hash j) erased.0
                ≡ base.find j (hash j) (base.erase k (hash k) b.m_bucket).0))
  bloom_filter_transparent b k v valid = (
    find-base b valid k,
    insert-IsValid b valid k v,
    unfold BloomFilter.insert bloom_filter_insert in refl,
    erase-IsValid b valid k,
    erase_result b valid k
        ∙ ap is_some (find-base b valid k)
        ∙ sym (base.erase_result k b.m_bucket valid.bucket),
    λ j.
        find-erase b valid k j
        ∙ ap (λ o. if key_equal k j then none else o) (find-base b valid j)
        ∙ sym (base.find-erase k j b.m_bucket valid.bucket),
  )

  -- A bucket behind a filter is a bucket.
  pub bloom_filter_bucket : Bucket K V traits
  bloom_filter_bucket = record {
    State = BloomFilterAdapter base.State;
    create = BloomFilter.init base n;
    insert = BloomFilter.insert base n;
    find = BloomFilter.find base n;
    erase = BloomFilter.erase base n;
    clear = BloomFilter.clear base n;
    IsValid = IsValid;
    create-IsValid = init-IsValid;
    insert-IsValid = λ k v b valid. insert-IsValid b valid k v;
    erase-IsValid = λ k b valid. erase-IsValid b valid k;
    clear-IsValid = clear-IsValid;
    find-create = λ j. find-base _ init-IsValid j ∙ unfold BloomFilter.init in base.find-create j;
    find-insert = λ k j v b valid. find-insert b valid k j v;
    insert_result = λ k v b valid. insert_result b valid k v;
    find-erase = λ k j b valid. find-erase b valid k j;
    erase_result = λ k b valid. erase_result b valid k;
    find-clear = λ j b valid.
        find-base _ (clear-IsValid b valid) j
        ∙ unfold BloomFilter.clear in base.find-clear j b.m_bucket valid.bucket;
  }
