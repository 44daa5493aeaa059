-- ===== src/ChainMap/Bucket.antt =====
-- exercise5/src/bucket.h, concept `Bucket`: what `HashMap` and `BloomFilterAdapter` ask of a bucket,
-- and what a bucket promises them. Every operation is handed the hash of its key. A handle is the
-- pair that it points to, and `end()` is `none`.
use wt_lab_efficient_paral.Common.{
  ℕ, ◌≡◌, ◌↔◌, Bool, true, false, Option, none, some, if◌then◌else◌, refl, sym, ap, ◌∙◌, Bool-cases,
  inl, inr,
}

-- What a client gives: `KeyEqual` and `Hash`.
pub record KeyTraits (K : Type 0) : Type 0 where
  pub key_equal : K → K → Bool
  pub key_equal_iff : (a b : K) → (key_equal a b ≡ true) ↔ (a ≡ b)
  pub hash : K → ℕ

module _ {K : Type 0} (traits : KeyTraits K) where
  open traits use {key_equal, key_equal_iff}

  pub key_refl : (a : K) → key_equal a a ≡ true
  key_refl a = (key_equal_iff a a).1 refl

  -- Equal keys compare alike.
  pub key_left : (a b j : K) → key_equal a b ≡ true → key_equal a j ≡ key_equal b j
  key_left a b j e = ap (λ k. key_equal k j) ((key_equal_iff a b).0 e)

  pub key_swap : (a b : K) → key_equal a b ≡ key_equal b a
  key_swap a b = elim (Bool-cases (key_equal a b)) [
    | inl e ↦ e ∙ sym ((key_equal_iff b a).1 (sym ((key_equal_iff a b).0 e)))
    | inr e ↦ elim (Bool-cases (key_equal b a)) [
      | inl e' ↦ cc ((key_equal_iff a b).1 (sym ((key_equal_iff b a).0 e')))
      | inr e' ↦ e ∙ sym e'
    ]
  ]

module _ {ℓ} {A : Type ℓ} where
  -- The entry that is there, or a new one.
  abbrev pub or_new : Option A → A → A
  or_new none a = a
  or_new (some e) a = e

  abbrev pub is_some : Option A → Bool
  is_some none = false
  is_some (some e) = true

  abbrev pub is_none : Option A → Bool
  is_none none = true
  is_none (some e) = false

pub record Bucket (K V : Type 0) (traits : KeyTraits K) : Type 1 where
  pub State : Type 0
  pub create : State
  pub insert : K → V → ℕ → State → State × Option (K × V) × Bool
  pub find : K → ℕ → State → Option (K × V)
  pub erase : K → ℕ → State → State × Bool
  pub clear : State → State
  pub IsValid : State → Type 0
  pub create-IsValid : IsValid create
  pub insert-IsValid :
      (k : K) (v : V) (s : State) → IsValid s → IsValid (insert k v (traits.hash k) s).0
  pub erase-IsValid : (k : K) (s : State) → IsValid s → IsValid (erase k (traits.hash k) s).0
  pub clear-IsValid : (s : State) → IsValid s → IsValid (clear s)
  pub find-create : (j : K) → find j (traits.hash j) create ≡ none
  pub find-insert :
      (k j : K) (v : V) (s : State)
      → IsValid s
      → find j (traits.hash j) (insert k v (traits.hash k) s).0 ≡ (
          if traits.key_equal k j
          then some (or_new (find k (traits.hash k) s) (k, v))
          else find j (traits.hash j) s)
  pub insert_result :
      (k : K) (v : V) (s : State)
      → IsValid s
      → ((insert k v (traits.hash k) s).1 ≡ some (or_new (find k (traits.hash k) s) (k, v)))
        × ((insert k v (traits.hash k) s).2 ≡ is_none (find k (traits.hash k) s))
  pub find-erase :
      (k j : K) (s : State)
      → IsValid s
      → find j (traits.hash j) (erase k (traits.hash k) s).0
        ≡ (if traits.key_equal k j then none else find j (traits.hash j) s)
  pub erase_result :
      (k : K) (s : State)
      → IsValid s
      → (erase k (traits.hash k) s).1 ≡ is_some (find k (traits.hash k) s)
  pub find-clear : (j : K) (s : State) → IsValid s → find j (traits.hash j) (clear s) ≡ none
