-- ===== src/ChainMap/HashMap/Fresh.antt =====
-- A `HashMap` that is new, and one that is cleared.
use wt_lab_efficient_paral.Common.{
  ℕ, suc, ◌-◌, ◌^◌, ◌≤◌, ◌≡◌, refl, ◌∙◌, ap, List, [], ◌∷◌, none, some, replicate, length,
  length-replicate, replicate-entry, Ends, ends, Ends->>=,
}
use wt_lab_efficient_paral.ChainMap.Utils.{next_power_of_two_correct}
use wt_lab_efficient_paral.ChainMap.Bucket.{KeyTraits, Bucket}
use wt_lab_efficient_paral.ChainMap.HashMap
use wt_lab_efficient_paral.ChainMap.HashMap.Laws.{IsValid, read_bucket}
use wt_lab_efficient_paral.ChainMap.HashMap.{HashMap, index}

module _ {K V : Type 0} {traits : KeyTraits K} (bucket : Bucket K V traits) where
  open traits use {hash, key_equal, key_equal_iff}
  open bucket use {State}

  clear_loop-length :
      (buckets : List State)
      → Ends
          (λ cleared. length cleared ≡ length buckets)
          (HashMap.clear_loop bucket (length buckets) buckets)
  unfolding HashMap.clear_loop
  clear_loop-length [] = ends refl
  clear_loop-length (b ∷ buckets) = Ends->>= (clear_loop-length buckets) λ rest e. ends (ap suc e)

  construct_loop-replicate :
      (buckets : List State)
      → HashMap.construct_loop bucket (length buckets) buckets
        ≡ some (replicate (length buckets) bucket.create)
  unfolding HashMap.construct_loop
  construct_loop-replicate [] = refl
  construct_loop-replicate (b ∷ buckets) = rw (construct_loop-replicate buckets) refl

  pub fresh-IsValid :
      (m : HashMap State) (exponent : ℕ)
      → m.m_capacity ≡ 2 ^ exponent
      → m.m_mask ≡ 2 ^ exponent - 1
      → m.m_buckets ≡ replicate m.m_capacity bucket.create
      → IsValid bucket m
  fresh-IsValid m exponent capacity mask fresh = record {
    exponent = exponent;
    capacity = capacity;
    mask = mask;
    full = rw fresh (length-replicate m.m_capacity bucket.create);
    buckets = λ i b at_i.
        let same = replicate-entry m.m_capacity i bucket.create (rw fresh at at_i) in
        rw same bucket.create-IsValid;
  }

  fresh-find :
      (m : HashMap State)
      → IsValid bucket m
      → m.m_buckets ≡ replicate m.m_capacity bucket.create
      → (j : K) → HashMap.find bucket j m ≡ some none
  unfolding HashMap.find
  fresh-find m v fresh j =
      let (b, at_j) = read_bucket bucket m v (hash j) in
      let same = replicate-entry m.m_capacity _ bucket.create (rw fresh at at_j) in
      rw (at_j, same, bucket.find-create j) refl

  -- For a scaled capacity of at most 2 ^ 63, the constructor ends, with its assert holding, in a
  -- valid map of at least that many buckets, in which `find` finds nothing.
  pub init_correct :
      (scaled : ℕ)
      → scaled ≤ 2 ^ 63
      → Ends
          (λ m.
            IsValid bucket m
            × (scaled ≤ m.m_capacity)
            × ((j : K) → HashMap.find bucket j m ≡ some none))
          (HashMap.init bucket scaled)
  unfolding HashMap.init
  init_correct scaled small = Ends->>= (next_power_of_two_correct scaled small) λ p (s, ok).
      let m : HashMap State = record {
        m_capacity = p;
        m_mask = p - 1;
        m_buckets = replicate p bucket.create;
      } in
      let mask : p - 1 ≡ 2 ^ s.exponent - 1 = ap (λ (t : ℕ). t - 1) s.power in
      let valid = fresh-IsValid m s.exponent s.power mask refl in
      rw ok (ends (valid, s.above, fresh-find m valid refl))

  -- On a valid map `clear` ends in a valid map of the same capacity in which `find` finds nothing.
  pub clear_correct :
      (m : HashMap State)
      → IsValid bucket m
      → Ends
          (λ r.
            IsValid bucket r
            × (r.m_capacity ≡ m.m_capacity)
            × ((j : K) → HashMap.find bucket j r ≡ some none))
          (HashMap.clear bucket m)
  unfolding HashMap.clear
  clear_correct m v = rw (← v.full) (
      Ends->>= (clear_loop-length m.m_buckets) λ cleared same.
        let r : HashMap State = record {
          m_capacity = length cleared;
          m_mask = m.m_mask;
          m_buckets = replicate (length cleared) bucket.create;
        } in
        let valid = fresh-IsValid r v.exponent (same ∙ v.full ∙ v.capacity) v.mask refl in
        rw (← same, construct_loop-replicate cleared) (ends (valid, refl, fresh-find r valid refl)))
