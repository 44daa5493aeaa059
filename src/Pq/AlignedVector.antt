-- ===== src/Pq/AlignedVector.antt =====
-- exercise1/pq/implementation/AlignedVector.h with `throw_exceptions` false: a vector of a fixed
-- capacity. Its elements are a list, and its capacity is a number that the queues keep beside it.
-- `none` is a failed `assert` or a division by 0; that std::aligned_alloc gives the memory is assumed.
use Prim.Native.Nat.{bit_and}
use wt_lab_efficient_paral.Common.{
  ℕ, zero, suc, ◌+◌, ◌-◌, ◌*◌, ◌/◌, ◌%◌, ◌^◌, Bool, not, List, [], ◌∷◌, ◌++◌, Option, none, some,
  ltb, leb, ◌==◌, ◌≡◌, ◌≤◌, true, false, Bool-cases, inl, inr, if◌then◌else◌, length, assert, ◌>>=◌,
  ◌>>◌, arith,
}

-- `while (value >>= 1) k <<= 1;`
unfoldable pub next_power_loop : ℕ → ℕ → ℕ → Option ℕ
next_power_loop zero value k = none
next_power_loop (suc fuel) value k =
    let rest = next_power_loop fuel (value / 2) (k * 2 % 2 ^ 64) in
    if value / 2 == 0 then some k else rest

-- A value has 64 bits to shift out.
unfoldable pub next_power_of_two : ℕ → Option ℕ
unfolding next_power_loop
next_power_of_two value = if leb value 1 then some 1 else next_power_loop 64 (value - 1) 2

unfoldable pub is_power_of_two : ℕ → Bool
is_power_of_two value = bit_and value ((value + 2 ^ 64 - 1) % 2 ^ 64) == 0

unfoldable pub is_multiple_of : ℕ → ℕ → Bool
is_multiple_of value multiple = value == (value / multiple * multiple)

unfoldable pub block_alignment : ℕ → ℕ → ℕ
block_alignment align_of block_size = align_of * block_size % 2 ^ 64

-- The allocation in `reserve`, and the capacity that it gives.
unfoldable pub allocate : (size_of offset new_cap alignment : ℕ) → Option ℕ
unfolding is_power_of_two is_multiple_of
allocate size_of offset new_cap alignment = do
  assert (ltb 0 alignment)
  let bytes = (size_of * (new_cap + offset) + alignment - 1) % 2 ^ 64
  let size = bytes / alignment * alignment
  assert (is_power_of_two alignment)
  assert (is_multiple_of size alignment)
  let capacity = (size / size_of + 2 ^ 64 - offset) % 2 ^ 64
  assert (leb new_cap capacity)
  some capacity

-- `reserve` on the vector without memory that the constructor makes: the capacity that it has then.
-- `size_of` and `align_of` are those of the element type. No memory for `new_cap` 0 fails an assert.
unfoldable pub reserve : (size_of align_of block_size offset new_cap : ℕ) → Option ℕ
unfolding next_power_of_two block_alignment allocate
reserve size_of align_of block_size offset new_cap =
    if ltb 0 new_cap
    then next_power_of_two (block_alignment align_of block_size) >>= allocate size_of offset new_cap
    else none

-- The constructor.
unfoldable pub construct : (size_of align_of capacity block_size offset : ℕ) → Option ℕ
unfolding reserve
construct size_of align_of capacity block_size offset = do
  assert (not (block_size == 0))
  assert (ltb offset block_size)
  reserve size_of align_of block_size offset capacity

-- `push_back`, both overloads.
unfoldable pub push_back {ℓ} : {A : Type ℓ} → ℕ → List A → A → Option (List A)
push_back capacity elements value =
    assert (ltb (length elements) capacity) >> some (elements ++ value ∷ [])

module _ {ℓ} {A : Type ℓ} {c : A} where
  assert-holds : (test : Bool) (o : Option A) → (assert test >> o) ≡ some c → o ≡ some c
  assert-holds true o h = h
  assert-holds false o h = cc

  bind-some :
      {B : Type 0} (o : Option B) (f : B → Option A) → (o >>= f) ≡ some c → (b : B) × (f b ≡ some c)
  bind-some none f h = cc
  bind-some (some b) f h = (b, h)

last_assert :
    (new_cap capacity c : ℕ)
    → (assert (leb new_cap capacity) >> some capacity) ≡ some c
    → new_cap ≤ c
last_assert new_cap capacity c h = ground arith

allocate-le :
    (size_of offset new_cap alignment : ℕ) {c : ℕ}
    → allocate size_of offset new_cap alignment ≡ some c
    → new_cap ≤ c
unfolding allocate
allocate-le size_of offset new_cap alignment {c} h =
    let size = (size_of * (new_cap + offset) + alignment - 1) % 2 ^ 64 / alignment * alignment in
    let h1 = assert-holds (ltb 0 alignment) _ h in
    let h2 = assert-holds (is_power_of_two alignment) _ h1 in
    let h3 = assert-holds (is_multiple_of size alignment) _ h2 in
    last_assert new_cap ((size / size_of + 2 ^ 64 - offset) % 2 ^ 64) c h3

reserve-le :
    (size_of align_of block_size offset new_cap : ℕ) {c : ℕ}
    → reserve size_of align_of block_size offset new_cap ≡ some c
    → new_cap ≤ c
unfolding reserve
reserve-le size_of align_of block_size offset new_cap h = elim (Bool-cases (ltb 0 new_cap)) [
  | inl more ↦
      let (alignment, allocated) =
        bind-some (next_power_of_two (block_alignment align_of block_size))
          (allocate size_of offset new_cap) (rw more at h) in
      allocate-le size_of offset new_cap alignment allocated
  | inr none_asked ↦ ground arith
]

-- A vector that the constructor makes has at least the capacity that was asked for.
pub construct-le :
    (size_of align_of capacity block_size offset : ℕ) {c : ℕ}
    → construct size_of align_of capacity block_size offset ≡ some c
    → capacity ≤ c
unfolding construct
construct-le size_of align_of capacity block_size offset h =
    let h1 = assert-holds (not (block_size == 0)) _ h in
    let h2 = assert-holds (ltb offset block_size) _ h1 in
    reserve-le size_of align_of block_size offset capacity h2
