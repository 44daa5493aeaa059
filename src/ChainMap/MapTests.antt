-- ===== src/ChainMap/MapTests.antt =====
-- Runs of the hash map over buckets with and without a filter, and its theorems at a concrete map.
use wt_lab_efficient_paral.Common.{
  ℕ, ◌≡◌, ◌≤◌, ◌*◌, ◌/◌, ◌%◌, ◌^◌, ◌-◌, ◌↔◌, refl, true, List, [], ◌∷◌, some, none, Ends, ◌==◌,
  arith, if◌then◌else◌,
}
use wt_lab_efficient_paral.ChainMap.Bucket.{KeyTraits, Bucket, or_new, is_some, is_none}
use wt_lab_efficient_paral.ChainMap.ListBucket.Laws.{list_bucket, ListBucket_correct}
use wt_lab_efficient_paral.ChainMap.ListBucket.Chain.{IsChain}
use wt_lab_efficient_paral.ChainMap.ListBucket
use wt_lab_efficient_paral.ChainMap.ListBucket.{Data}
use wt_lab_efficient_paral.ChainMap.Lists.SingleMutexList
use wt_lab_efficient_paral.ChainMap.BloomFilter
use wt_lab_efficient_paral.ChainMap.BloomFilter.{BloomFilterAdapter, filter_index, get_filter_mask}
use wt_lab_efficient_paral.ChainMap.BloomFilter.Mask.{get_filter_mask_bits}
use wt_lab_efficient_paral.ChainMap.BloomFilter.Laws.{
  bloom_filter_bucket, bloom_filter_transparent, init-IsValid, IsValid as FilterIsValid,
}
use wt_lab_efficient_paral.ChainMap.HashMap
use wt_lab_efficient_paral.ChainMap.HashMap.{HashMap}
use wt_lab_efficient_paral.ChainMap.HashMap.Laws.{
  IsValid, HashMap_insert_correct, HashMap_erase_correct,
}
use wt_lab_efficient_paral.ChainMap.HashMap.Fresh.{fresh-IsValid}
use Prim.Native.Nat.{bit_and}

number_keys : (a b : ℕ) → ((a == b) ≡ true) ↔ (a ≡ b)
number_keys a b = ground arith

-- Numbers with a hash that spreads over the top bits and collides in the low ones.
abbrev number_traits : KeyTraits ℕ
number_traits = record {
  key_equal = λ a b. a == b;
  key_equal_iff = number_keys;
  hash = λ k. k * 2 ^ 58 % 2 ^ 64;
}

abbrev filtered : Bucket ℕ ℕ number_traits
filtered = bloom_filter_bucket (list_bucket number_traits true) 1

abbrev two_buckets : HashMap (Bucket.State filtered)
two_buckets = record {
  m_capacity = 2;
  m_mask = 1;
  m_buckets = Bucket.create filtered ∷ Bucket.create filtered ∷ [];
}

-- The chain of one bucket.
abbrev two_data : List (Data ℕ ℕ)
two_data =
    record { hash = 2 ^ 58; key = 1; value = 10 }
    ∷ record { hash = 5 * 2 ^ 58; key = 5; value = 50 }
    ∷ []

two_data-IsChain : IsChain number_traits true two_data
unfolding SingleMutexList.find ListBucket.key_matches
two_data-IsChain = (refl, refl, (refl, refl, tt))

ListBucket_correct_example :
    (let look = λ (i : ℕ) (c : List (Data ℕ ℕ)).
        ListBucket.find number_traits true i (number_traits.hash i) c in
      let added = ListBucket.insert number_traits true 5 7 (number_traits.hash 5) two_data in
      let erased = ListBucket.erase number_traits true 5 (number_traits.hash 5) two_data in
      IsChain number_traits true added.0
      × (look 1 added.0
          ≡ (if 5 == 1 then some (or_new (look 5 two_data) (5, 7)) else look 1 two_data))
      × (added.1 ≡ some (or_new (look 5 two_data) (5, 7)))
      × (added.2 ≡ is_none (look 5 two_data))
      × IsChain number_traits true erased.0
      × (look 1 erased.0 ≡ (if 5 == 1 then none else look 1 two_data))
      × (erased.1 ≡ is_some (look 5 two_data)))
ListBucket_correct_example = ListBucket_correct number_traits true 5 1 7 two_data two_data-IsChain

get_filter_mask_bits_example :
    (filter_index (3 * 2 ^ 58) 1 ≡ 3 * 2 ^ 58 / 2 ^ (64 - 1 * 6) % 64)
    × (filter_index (3 * 2 ^ 58) 1 ≤ 63)
    × (bit_and (get_filter_mask 2 (3 * 2 ^ 58)) (2 ^ filter_index (3 * 2 ^ 58) 1)
        ≡ 2 ^ filter_index (3 * 2 ^ 58) 1)
get_filter_mask_bits_example =
    get_filter_mask_bits 2 (3 * 2 ^ 58) 1 (omega arith) (omega arith) (omega arith)

abbrev base : Bucket ℕ ℕ number_traits
base = list_bucket number_traits true

abbrev no_bits : BloomFilterAdapter (Bucket.State base)
no_bits = BloomFilter.init base 1

bloom_filter_transparent_example :
    (let added = BloomFilter.insert base 1 5 7 (number_traits.hash 5) no_bits in
      let erased = BloomFilter.erase base 1 5 (number_traits.hash 5) no_bits in
      (BloomFilter.find base 1 5 (number_traits.hash 5) no_bits
        ≡ base.find 5 (number_traits.hash 5) no_bits.m_bucket)
      × FilterIsValid base 1 added.0
      × ((added.0.m_bucket, added.1, added.2)
          ≡ base.insert 5 7 (number_traits.hash 5) no_bits.m_bucket)
      × FilterIsValid base 1 erased.0
      × (erased.1 ≡ (base.erase 5 (number_traits.hash 5) no_bits.m_bucket).1)
      × ((j : ℕ)
          → BloomFilter.find base 1 j (number_traits.hash j) erased.0
            ≡ base.find j
                (number_traits.hash j)
                (base.erase 5 (number_traits.hash 5) no_bits.m_bucket).0))
bloom_filter_transparent_example = bloom_filter_transparent base 1 no_bits 5 7 (init-IsValid base 1)

two_buckets-IsValid : IsValid filtered two_buckets
two_buckets-IsValid = fresh-IsValid filtered two_buckets 1 refl refl refl

HashMap_insert_correct_example :
    Ends
      (λ before.
        Ends
          (λ r.
            IsValid filtered r.0
            × (r.1 ≡ some (or_new before (5, 7)))
            × (r.2 ≡ is_none before)
            × ((j : ℕ)
                → HashMap.find filtered j r.0 ≡ (
                    if 5 == j
                    then some (some (or_new before (5, 7)))
                    else HashMap.find filtered j two_buckets)))
          (HashMap.insert filtered 5 7 two_buckets))
      (HashMap.find filtered 5 two_buckets)
HashMap_insert_correct_example = HashMap_insert_correct filtered two_buckets two_buckets-IsValid 5 7

HashMap_erase_correct_example :
    Ends
      (λ before.
        Ends
          (λ r.
            IsValid filtered r.0
            × (r.1 ≡ is_some before)
            × ((j : ℕ)
                → HashMap.find filtered j r.0
                  ≡ (if 5 == j then some none else HashMap.find filtered j two_buckets)))
          (HashMap.erase filtered 5 two_buckets))
      (HashMap.find filtered 5 two_buckets)
HashMap_erase_correct_example = HashMap_erase_correct filtered two_buckets two_buckets-IsValid 5
