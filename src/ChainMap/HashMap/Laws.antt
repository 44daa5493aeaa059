-- ===== src/ChainMap/HashMap/Laws.antt =====
-- `HashMap` over any bucket is a finite map, and its accesses stay in bounds.
use mathlib.Core.Path.{subst}
use native.Mathlib.Nat.{mod-lt, one-le-pow}
use wt_lab_efficient_paral.Common.{
  ℕ, ◌-◌, ◌^◌, ◌%◌, ◌≡◌, refl, ◌∙◌, ap, true, Option, none, some, get_elem?, set, length, ◌==◌,
  if◌then◌else◌, Bool-cases, inl, inr, arith, get_elem?-some, get_elem?-set, get_elem?-lt,
  length-set, Ends, Ends-of,
}
use wt_lab_efficient_paral.Common.Bits.{bit_and-mask}
use wt_lab_efficient_paral.ChainMap.Bucket.{KeyTraits, Bucket, or_new, is_some, is_none}
use wt_lab_efficient_paral.ChainMap.HashMap
use wt_lab_efficient_paral.ChainMap.HashMap.{HashMap, index}

module _ {K V : Type 0} {traits : KeyTraits K} (bucket : Bucket K V traits) where
  open traits use {hash, key_equal, key_equal_iff}
  open bucket use {State}

  -- The capacity is a power of two with its mask and that many valid buckets.
  pub record IsValid (m : HashMap State) : Type 0 where
    pub exponent : ℕ
    pub capacity : m.m_capacity ≡ 2 ^ exponent
    pub mask : m.m_mask ≡ 2 ^ exponent - 1
    pub full : length m.m_buckets ≡ m.m_capacity
    pub buckets : (i : ℕ) (b : State) → get_elem? m.m_buckets i ≡ some b → bucket.IsValid b

  pub read_bucket :
      (m : HashMap State)
      → IsValid m
      → (h : ℕ) → (b : State) × (get_elem? m.m_buckets (index h m) ≡ some b)
  unfolding index
  read_bucket m v h =
      let low : index h m ≡ h % 2 ^ v.exponent = rw v.mask (bit_and-mask v.exponent h) in
      let pos = one-le-pow v.exponent 2 (omega arith) in
      let small = mod-lt h {m = 2 ^ v.exponent} (omega (arith, pos)) in
      get_elem?-some m.m_buckets (index h m) (omega (arith, low, small, v.full, v.capacity))

  module _ (m : HashMap State) (v : IsValid m) (k : K) (b b' : State) where
    module _ (at_k : get_elem? m.m_buckets (index (hash k) m) ≡ some b) where
      -- The map with the bucket of `k` written.
      abbrev written : HashMap State
      written = record m { m_buckets = set m.m_buckets (index (hash k) m) b' }

      written-IsValid : bucket.IsValid b' → IsValid written
      written-IsValid valid = record {
        exponent = v.exponent;
        capacity = v.capacity;
        mask = v.mask;
        full = length-set m.m_buckets (index (hash k) m) b' ∙ v.full;
        buckets = λ i c at_i.
            let read = get_elem?-set m.m_buckets (index (hash k) m) i b' (get_elem?-lt _ _ at_k) in
            elim (Bool-cases (index (hash k) m == i)) [
              | inl e ↦
                  let same : b' ≡ c = ground arith in
                  subst (λ (s : State). bucket.IsValid s) same valid
              | inr e ↦ v.buckets i c (ground arith)
            ];
      }

      -- What was found for a key that is not `k` and may share its bucket, or is `k`.
      find-written :
          (after : K → Option (K × V))
          → ((j : K)
              → bucket.find j (hash j) b'
                ≡ (if key_equal k j then after j else bucket.find j (hash j) b))
          → (j : K)
          → HashMap.find bucket j written
            ≡ (if key_equal k j then some (after j) else HashMap.find bucket j m)
      unfolding HashMap.find index
      find-written after law j =
          let read =
            get_elem?-set m.m_buckets (index (hash k) m) (index (hash j) m) b'
              (get_elem?-lt _ _ at_k) in
          let here : (key_equal k j ≡ true) → index (hash k) m ≡ index (hash j) m =
            λ e. ap (λ (i : K). index (hash i) m) ((key_equal_iff k j).0 e) in
          elim (Bool-cases (index (hash k) m == index (hash j) m)) [
            | inl e ↦
                let same : index (hash k) m ≡ index (hash j) m = ground arith in
                let at_j : get_elem? m.m_buckets (index (hash j) m) ≡ some b = rw same at at_k in
                rw (read, e, at_j, law j)
                  (elim (Bool-cases (key_equal k j)) [ inl h ↦ rw h refl | inr h ↦ rw h refl ])
            | inr e ↦ elim (Bool-cases (key_equal k j)) [
              | inl h ↦ absurd (ground (arith, here h))
              | inr h ↦ rw (read, e, h) refl
            ]
          ]

  module _ (m : HashMap State) (v : IsValid m) (k : K) where
    -- On a valid map `find` ends, and `insert` ends in a valid map in which the key has the pair that
    -- was there, or else the new one, and every other key what it had; the handle points to that
    -- pair, and the flag says whether it is new.
    pub HashMap_insert_correct :
        (value : V)
        → Ends
            (λ before.
              Ends
                (λ r.
                  IsValid r.0
                  × (r.1 ≡ some (or_new before (k, value)))
                  × (r.2 ≡ is_none before)
                  × ((j : K)
                      → HashMap.find bucket j r.0 ≡ (
                          if key_equal k j
                          then some (some (or_new before (k, value)))
                          else HashMap.find bucket j m)))
                (HashMap.insert bucket k value m))
            (HashMap.find bucket k m)
    HashMap_insert_correct value =
        let (b, at_k) = read_bucket m v (hash k) in
        let valid = v.buckets _ b at_k in
        let b' = (bucket.insert k value (hash k) b).0 in
        let (handle, flag) = bucket.insert_result k value b valid in
        Ends-of (bucket.find k (hash k) b) (unfold HashMap.find in rw at_k refl) (
          Ends-of
            (
              written m v k b b' at_k,
              (bucket.insert k value (hash k) b).1,
              (bucket.insert k value (hash k) b).2,
            )
            (unfold HashMap.insert in rw at_k refl)
            (
              written-IsValid m v k b b' at_k (bucket.insert-IsValid k value b valid),
              handle,
              flag,
              find-written m v k b b' at_k
                  (λ j. some (or_new (bucket.find k (hash k) b) (k, value)))
                  (λ j. bucket.find-insert k j value b valid),
            ))

    -- On a valid map `erase` ends in a valid map in which the key has no pair and every other key what
    -- it had; the flag says whether there was one.
    pub HashMap_erase_correct :
        Ends
          (λ before.
            Ends
              (λ r.
                IsValid r.0
                × (r.1 ≡ is_some before)
                × ((j : K)
                    → HashMap.find bucket j r.0
                      ≡ (if key_equal k j then some none else HashMap.find bucket j m)))
              (HashMap.erase bucket k m))
          (HashMap.find bucket k m)
    HashMap_erase_correct =
        let (b, at_k) = read_bucket m v (hash k) in
        let valid = v.buckets _ b at_k in
        let b' = (bucket.erase k (hash k) b).0 in
        Ends-of (bucket.find k (hash k) b) (unfold HashMap.find in rw at_k refl) (
          Ends-of (written m v k b b' at_k, (bucket.erase k (hash k) b).1)
            (unfold HashMap.erase in rw at_k refl)
            (
              written-IsValid m v k b b' at_k (bucket.erase-IsValid k b valid),
              bucket.erase_result k b valid,
              find-written m v k b b' at_k (λ j. none) (λ j. bucket.find-erase k j b valid),
            ))
