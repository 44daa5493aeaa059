-- ===== src/ChainMap/ListBucket.antt =====
-- exercise5/src/bucket.h, class `ListBucket`, over `single_mutex_list`; `node_mutex_list` has the same
-- results. `EnableDataWithHash` is an argument: without it the field `hash` is not compared.
pub mod Chain
pub mod Laws
use mathlib.Core.Option
use wt_lab_efficient_paral.Common.{
  ℕ, Bool, true, false, List, [], ◌∷◌, Option, none, some, ◌==◌, ◌&&◌, if◌then◌else◌,
}
use wt_lab_efficient_paral.ChainMap.Lists.SingleMutexList
use wt_lab_efficient_paral.ChainMap.Bucket.{KeyTraits}

-- `DataWithHash`, and `DataWithoutHash` with a hash that nothing reads.
pub record Data (K V : Type 0) : Type 0 where
  pub hash : ℕ
  pub key : K
  pub value : V

module _ {K V : Type 0} (traits : KeyTraits K) (with_hash : Bool) where
  -- `operator==` of two `Data`, and of a `Data` and a key.
  unfoldable pub data_equal : Data K V → Data K V → Bool
  data_equal x y =
      let keys = traits.key_equal x.key y.key in
      if with_hash then x.hash == y.hash && keys else keys

  unfoldable pub key_matches : Data K V → K → Bool
  key_matches x k = traits.key_equal x.key k

  -- Dereferencing a handle of the list.
  abbrev pub pair : Data K V → K × V
  pair x = (x.key, x.value)

  unfoldable pub insert : K → V → ℕ → List (Data K V) → List (Data K V) × Option (K × V) × Bool
  insert k v hash chain =
      let (chain', it, flag) =
        SingleMutexList.insert data_equal (record { hash = hash; key = k; value = v }) chain in
      (chain', Option.map pair it, flag)

  unfoldable pub find : K → ℕ → List (Data K V) → Option (K × V)
  find k hash chain = Option.map pair (SingleMutexList.find key_matches k chain)

  unfoldable pub erase : K → ℕ → List (Data K V) → List (Data K V) × Bool
  erase k hash chain = SingleMutexList.erase key_matches k chain

  unfoldable pub clear : List (Data K V) → List (Data K V)
  clear chain = SingleMutexList.clear chain
