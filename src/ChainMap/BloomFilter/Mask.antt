-- ===== src/ChainMap/BloomFilter/Mask.antt =====
-- The mask that `BloomFilterAdapter` derives from a hash.
use native.Mathlib.Nat.{
  two-pow-succ, eq-or-lt_of_le, mod-eq_of_lt, mod-lt, div-div-eq-div-mul, div-one, pow-le-pow_right,
}
use wt_lab_efficient_paral.Common.{
  ℕ, zero, suc, ◌+◌, ◌-◌, ◌*◌, ◌/◌, ◌%◌, ◌^◌, ◌≤◌, ◌<◌, ◌≡◌, refl, ap, inl, inr, arith,
}
use wt_lab_efficient_paral.Common.Bits.{bit_and-mask, bit_and-halves, bit_or-includes, bit_or-keeps}
use wt_lab_efficient_paral.ChainMap.BloomFilter.{
  filter_index, get_filter_mask, get_filter_mask_loop,
}
use Prim.Native.Nat.{bit_and}

bit_and-double : (h m : ℕ) → bit_and h (m * 2) / 2 ≡ bit_and (h / 2) m
bit_and-double h m =
    let half : m * 2 / 2 ≡ m = omega arith in omega (arith, rw half at (bit_and-halves h (m * 2)))

-- A mask that is shifted up picks from a number that is shifted down.
bit_and-shift : (s h m : ℕ) → bit_and h (m * 2 ^ s) / 2 ^ s ≡ bit_and (h / 2 ^ s) m
bit_and-shift zero h m =
    let same : m * 1 ≡ m = omega arith in rw (same, div-one (bit_and h m), div-one h) refl
bit_and-shift (suc s) h m =
    let twice : 2 ^ suc s ≡ 2 * 2 ^ s = omega (arith, two-pow-succ s) in
    let shifted : m * 2 ^ suc s ≡ m * 2 ^ s * 2 = omega (arith, ap (λ (t : ℕ). m * t) twice) in
    let split = div-div-eq-div-mul (bit_and h (m * 2 ^ s * 2)) 2 (2 ^ s) in
    rw (shifted, twice, ← split, bit_and-double h (m * 2 ^ s), ← div-div-eq-div-mul h 2 (2 ^ s))
      (bit_and-shift s (h / 2) m)

block : (hash i : ℕ) → 1 ≤ i → i * 6 ≤ 64 → filter_index hash i ≡ hash / 2 ^ (64 - i * 6) % 64
unfolding filter_index
block hash i low high =
    let s = 64 - i * 6 in
    let room : 2 ^ s ≤ 2 ^ 58 =
      pow-le-pow_right {n = 2} (omega arith) {i = s} {j = 58} (omega arith) in
    let whole : 63 * 2 ^ s % 2 ^ 64 ≡ 63 * 2 ^ s = omega (arith, room) in
    rw (whole, bit_and-shift s hash 63) (bit_and-mask 6 (hash / 2 ^ s))

get_filter_mask_loop-keeps :
    (rounds i hash a m : ℕ) → bit_and a m ≡ m → bit_and (get_filter_mask_loop rounds i hash a) m ≡ m
unfolding get_filter_mask_loop
get_filter_mask_loop-keeps zero i hash a m e = e
get_filter_mask_loop-keeps (suc rounds) i hash a m e =
    get_filter_mask_loop-keeps rounds (suc i) hash _ m
      (bit_or-keeps a (2 ^ filter_index hash i % 2 ^ 64) m e)

get_filter_mask_loop-includes :
    (rounds i hash a c : ℕ)
    → i ≤ c
    → c < i + rounds
    → 2 ^ filter_index hash c < 2 ^ 64
    → bit_and (get_filter_mask_loop rounds i hash a) (2 ^ filter_index hash c)
      ≡ 2 ^ filter_index hash c
unfolding get_filter_mask_loop
get_filter_mask_loop-includes zero i hash a c low high fits = absurd (omega arith)
get_filter_mask_loop-includes (suc rounds) i hash a c low high fits = elim (eq-or-lt_of_le low) [
  | inl e ↦
      let same : 2 ^ filter_index hash i % 2 ^ 64 ≡ 2 ^ filter_index hash c =
        rw e (mod-eq_of_lt fits) in
      rw same (
        get_filter_mask_loop-keeps rounds (suc i) hash _ (2 ^ filter_index hash c)
          (bit_or-includes a (2 ^ filter_index hash c)))
  | inr lt ↦ get_filter_mask_loop-includes rounds (suc i) hash _ c (omega arith) (omega arith) fits
]

-- With at most 10 filters, `f` of each round `i` is the `i`-th block of 6 bits of the hash from the
-- top, so the `assert` on it holds, and bit `f` is set in the mask.
pub get_filter_mask_bits :
    (num_filters hash i : ℕ)
    → num_filters * 6 < 64
    → 1 ≤ i
    → i ≤ num_filters
    → (filter_index hash i ≡ hash / 2 ^ (64 - i * 6) % 64)
      × (filter_index hash i ≤ 63)
      × (bit_and (get_filter_mask num_filters hash) (2 ^ filter_index hash i)
          ≡ 2 ^ filter_index hash i)
unfolding get_filter_mask
get_filter_mask_bits num_filters hash i room low high =
    let f = block hash i low (omega arith) in
    let small : filter_index hash i ≤ 63 =
      omega (arith, f, mod-lt (hash / 2 ^ (64 - i * 6)) {m = 64} (omega arith)) in
    let fits : 2 ^ filter_index hash i < 2 ^ 64 =
      omega
        (arith, pow-le-pow_right {n = 2} (omega arith) {i = filter_index hash i} {j = 63} small) in
    (f, small, get_filter_mask_loop-includes num_filters 1 hash 0 i low (omega arith) fits)
