-- ===== src/ChainMap/MarkedPtr.antt =====
-- exercise5/src/marked_ptr.h: a pointer whose top bit is a mark. A pointer is its address, a number
-- below 2 ^ 64.
use native.Mathlib.Nat.{two-pow-succ}
use wt_lab_efficient_paral.Common.{
  ℕ, zero, suc, ◌+◌, ◌-◌, ◌*◌, ◌/◌, ◌%◌, ◌^◌, ◌<◌, ◌≡◌, refl, Bool, true, not, Option, some, ◌==◌,
  assert, ◌>>◌, Ends, ends, arith,
}
use wt_lab_efficient_paral.Common.Bits.{
  bit_and-mask, bit_or-halves, bit_and-halves, bit_or-includes,
}
use Prim.Native.Nat.{bit_and, bit_or}

abbrev pub mask : ℕ
mask = 2 ^ 63

unfoldable pub is_marked : ℕ → Bool
is_marked m_ptr = not (bit_and m_ptr mask == 0)

-- The constructor from a pointer.
unfoldable pub make : ℕ → Option ℕ
make ptr = assert (not (is_marked ptr)) >> some ptr

unfoldable pub get_unmarked : ℕ → ℕ
get_unmarked m_ptr = bit_and m_ptr (2 ^ 64 - 1 - mask)

unfoldable pub as_marked : ℕ → Option ℕ
as_marked m_ptr = assert (not (is_marked m_ptr)) >> some (bit_or m_ptr mask)

unfoldable pub as_unmarked : ℕ → Option ℕ
unfolding make
as_unmarked m_ptr = make (get_unmarked m_ptr)

unfoldable pub get : ℕ → Option ℕ
get m_ptr = assert (not (is_marked m_ptr)) >> some m_ptr

-- A bit above a number is added to it, and the number lacks it.
bit_or-above : (n a : ℕ) → a < 2 ^ n → bit_or a (2 ^ n) ≡ a + 2 ^ n
bit_or-above zero a low = let none_left : a ≡ 0 = omega arith in rw none_left refl
bit_or-above (suc n) a low =
    let twice : 2 ^ suc n ≡ 2 * 2 ^ n = omega (arith, two-pow-succ n) in
    let half : 2 ^ suc n / 2 ≡ 2 ^ n = omega (arith, twice) in
    let even : 2 ^ suc n % 2 ≡ 0 = omega (arith, twice) in
    let split = rw (half, even) at (bit_or-halves a (2 ^ suc n)) in
    omega (arith, twice, split, bit_or-above n (a / 2) (omega (arith, twice)))

bit_and-above : (n a : ℕ) → a < 2 ^ n → bit_and a (2 ^ n) ≡ 0
bit_and-above zero a low = let none_left : a ≡ 0 = omega arith in rw none_left refl
bit_and-above (suc n) a low =
    let twice : 2 ^ suc n ≡ 2 * 2 ^ n = omega (arith, two-pow-succ n) in
    let half : 2 ^ suc n / 2 ≡ 2 ^ n = omega (arith, twice) in
    let even : 2 ^ suc n % 2 ≡ 0 = omega (arith, twice) in
    let split = rw (half, even) at (bit_and-halves a (2 ^ suc n)) in
    omega (arith, twice, split, bit_and-above n (a / 2) (omega (arith, twice)))

-- From an address below 2 ^ 63 a pointer is made without a mark; get gives the address back;
-- as_marked ends in a pointer below 2 ^ 64 with the mark, from which get_unmarked, and as_unmarked
-- with its assert holding, give the address back.
pub marked_ptr_roundtrip :
    (address : ℕ)
    → address < mask
    → (make address ≡ some address)
      × (get address ≡ some address)
      × Ends
          (λ p.
            (p < 2 ^ 64)
            × (is_marked p ≡ true)
            × (get_unmarked p ≡ address)
            × (as_unmarked p ≡ some address))
          (as_marked address)
unfolding is_marked make get as_marked get_unmarked as_unmarked
marked_ptr_roundtrip address low =
    let sum = bit_or-above 63 address low in
    let clear = bit_and-above 63 address low in
    let marked = bit_or-includes address mask in
    let rest : bit_and (bit_or address mask) (2 ^ 64 - 1 - mask) ≡ address =
      omega (arith, bit_and-mask 63 (bit_or address mask), sum) in
    (
      rw clear refl,
      rw clear refl,
      rw clear (ends (omega (arith, sum), rw marked refl, rest, rw (rest, clear) refl)),
    )
