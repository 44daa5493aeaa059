-- ===== src/ChainMap/HashMap.antt =====
-- exercise5/src/hash_map.h: `HashMap`, a table of buckets, each found by the low bits of the hash.
pub mod Laws
pub mod Fresh
use wt_lab_efficient_paral.Common.{
  ℕ, zero, suc, ◌-◌, Bool, List, [], ◌∷◌, Option, none, some, get_elem?, set, replicate, assert,
  ◌>>=◌, ◌>>◌,
}
use wt_lab_efficient_paral.ChainMap.Utils.{next_power_of_two, is_power_of_two}
use wt_lab_efficient_paral.ChainMap.Bucket.{KeyTraits, Bucket}
use Prim.Native.Nat.{bit_and}

pub record HashMap (S : Type 0) : Type 0 where
  pub m_capacity : ℕ
  pub m_mask : ℕ
  pub m_buckets : List S

module _ {S : Type 0} where
  unfoldable pub index : ℕ → HashMap S → ℕ
  index hash m = bit_and hash m.m_mask

module _ {K V : Type 0} {traits : KeyTraits K} (bucket : Bucket K V traits) where
  open bucket use {State}

  -- `scaled` is `capacity * 1.2`, as a number of type `std::size_t`.
  unfoldable pub init : ℕ → Option (HashMap State)
  init scaled = do
    m_capacity ← next_power_of_two scaled
    let m_buckets = replicate m_capacity bucket.create
    assert (is_power_of_two m_capacity)
    some (record { m_capacity = m_capacity; m_mask = m_capacity - 1; m_buckets = m_buckets })

  unfoldable pub insert : K → V → HashMap State → Option (HashMap State × Option (K × V) × Bool)
  insert k v m = do
    let hash = traits.hash k
    b ← get_elem? m.m_buckets (index hash m)
    let (b', it, flag) = bucket.insert k v hash b
    some (record m { m_buckets = set m.m_buckets (index hash m) b' }, it, flag)

  unfoldable pub find : K → HashMap State → Option (Option (K × V))
  find k m = do
    let hash = traits.hash k
    b ← get_elem? m.m_buckets (index hash m)
    some (bucket.find k hash b)

  unfoldable pub erase : K → HashMap State → Option (HashMap State × Bool)
  erase k m = do
    let hash = traits.hash k
    b ← get_elem? m.m_buckets (index hash m)
    let (b', flag) = bucket.erase k hash b
    some (record m { m_buckets = set m.m_buckets (index hash m) b' }, flag)

  -- The `for` loops of `clear` over the first buckets: the one that clears them, and the ones that
  -- destroy and construct them.
  unfoldable pub clear_loop : ℕ → List State → Option (List State)
  clear_loop zero buckets = some buckets
  clear_loop (suc n) [] = none
  clear_loop (suc n) (b ∷ buckets) = do rest ← clear_loop n buckets; some (bucket.clear b ∷ rest)

  unfoldable pub construct_loop : ℕ → List State → Option (List State)
  construct_loop zero buckets = some buckets
  construct_loop (suc n) [] = none
  construct_loop (suc n) (b ∷ buckets) = do
    rest ← construct_loop n buckets
    some (bucket.create ∷ rest)

  unfoldable pub clear : HashMap State → Option (HashMap State)
  clear m = do
    cleared ← clear_loop m.m_capacity m.m_buckets
    constructed ← construct_loop m.m_capacity cleared
    some (record m { m_buckets = constructed })
