-- ===== src/ChainMap/BloomFilter.antt =====
-- exercise5/src/bloom_filter.h: `BloomFilterAdapter` puts a filter of 64 bits before a bucket.
pub mod Mask
pub mod Laws
use wt_lab_efficient_paral.Common.{
  ℕ, zero, suc, ◌+◌, ◌-◌, ◌*◌, ◌/◌, ◌%◌, ◌^◌, Bool, true, false, Option, none, some, ◌==◌,
  if◌then◌else◌,
}
use wt_lab_efficient_paral.ChainMap.Bucket.{KeyTraits, Bucket}
use Prim.Native.Nat.{bit_and, bit_or}

-- The value `f` of round `i`: the `i`-th block of 6 bits of the hash from the top.
unfoldable pub filter_index : ℕ → ℕ → ℕ
filter_index hash i = let shift = 64 - i * 6 in bit_and hash (63 * 2 ^ shift % 2 ^ 64) / 2 ^ shift

-- The `for` with `rounds` left, from `i` on.
unfoldable pub get_filter_mask_loop : ℕ → ℕ → ℕ → ℕ → ℕ
get_filter_mask_loop zero i hash filter_mask = filter_mask
get_filter_mask_loop (suc rounds) i hash filter_mask =
    get_filter_mask_loop rounds (suc i) hash (bit_or filter_mask (2 ^ filter_index hash i % 2 ^ 64))

unfoldable pub get_filter_mask : ℕ → ℕ → ℕ
get_filter_mask num_filters hash = get_filter_mask_loop num_filters 1 hash 0

pub record BloomFilterAdapter (S : Type 0) : Type 0 where
  pub m_bloom_filter : ℕ
  pub m_bucket : S

module _ {K V : Type 0} {traits : KeyTraits K} (base : Bucket K V traits) (num_filters : ℕ) where
  open base use {State}

  unfoldable pub init : BloomFilterAdapter State
  init = record { m_bloom_filter = 0; m_bucket = base.create }

  unfoldable pub bloom_filter_insert : ℕ → BloomFilterAdapter State → BloomFilterAdapter State
  bloom_filter_insert hash b = record b {
    m_bloom_filter = bit_or b.m_bloom_filter (get_filter_mask num_filters hash);
  }

  unfoldable pub bloom_filter_contains : ℕ → BloomFilterAdapter State → Bool
  bloom_filter_contains hash b =
      let mask = get_filter_mask num_filters hash in bit_and b.m_bloom_filter mask == mask

  unfoldable pub insert :
      K → V → ℕ → BloomFilterAdapter State → BloomFilterAdapter State × Option (K × V) × Bool
  insert k v hash b =
      let marked = bloom_filter_insert hash b in
      let (bucket, it, flag) = base.insert k v hash marked.m_bucket in
      (record marked { m_bucket = bucket }, it, flag)

  unfoldable pub find : K → ℕ → BloomFilterAdapter State → Option (K × V)
  find k hash b = if bloom_filter_contains hash b then base.find k hash b.m_bucket else none

  unfoldable pub erase : K → ℕ → BloomFilterAdapter State → BloomFilterAdapter State × Bool
  erase k hash b =
      let (bucket, flag) = base.erase k hash b.m_bucket in
      if bloom_filter_contains hash b then (record b { m_bucket = bucket }, flag) else (b, false)

  -- The filter keeps its bits.
  unfoldable pub clear : BloomFilterAdapter State → BloomFilterAdapter State
  clear b = record b { m_bucket = base.clear b.m_bucket }
