-- ===== src/Common/Bits.antt =====
-- `&` and `|` on numbers, digit by digit, for masks and filters.
use Prim.Native.Nat.{
  ℕ, zero, suc, ◌+◌, ◌-◌, ◌*◌, ◌/◌, ◌%◌, ◌^◌, ◌≤◌, ◌<◌, min, max, bit_and, bit_or, digits,
  bit_and-bitwise, bit_or-bitwise,
}
use mathlib.Core.Path.{◌≡◌, refl, ap, ◌∙◌}
use native.Mathlib.Omega.{arith}
use native.Mathlib.Nat.{
  two-pow-succ, one-le-pow, div-add-mod, mod-lt, mod-eq_of_lt, add-mul-mod_self_left,
  pow-le-pow_right, mod_self,
}

-- Fuel beyond the first operand changes nothing, whatever the operation on digits.
module _ (rest : ℕ → ℕ) (digit : ℕ → ℕ → ℕ) where
  digits-fuel :
      (more less a b : ℕ)
      → a ≤ less
      → less ≤ more
      → digits rest digit more a b ≡ digits rest digit less a b
  digits-fuel zero zero zero b h k = refl
  digits-fuel (suc more) zero zero b h k = refl
  digits-fuel more zero (suc a) b h k = absurd (omega arith)
  digits-fuel zero (suc less) a b h k = absurd (omega arith)
  digits-fuel (suc more) (suc less) zero b h k = refl
  digits-fuel (suc more) (suc less) (suc a) b h k =
      omega (arith, digits-fuel more less (suc a / 2) (b / 2) (omega arith) (omega arith))

pub bit_and-halves : (a b : ℕ) → bit_and a b ≡ min (a % 2) (b % 2) + 2 * bit_and (a / 2) (b / 2)
bit_and-halves zero b = omega (arith, bit_and-bitwise zero b, bit_and-bitwise zero (b / 2))
bit_and-halves (suc a) b =
    let half = suc a / 2 in
    let enough = digits-fuel (λ _. zero) min a half half (b / 2) (omega arith) (omega arith) in
    omega (arith, enough, bit_and-bitwise half (b / 2), bit_and-bitwise (suc a) b)

pub bit_or-halves : (a b : ℕ) → bit_or a b ≡ max (a % 2) (b % 2) + 2 * bit_or (a / 2) (b / 2)
bit_or-halves zero b = omega (arith, bit_or-bitwise zero b, bit_or-bitwise zero (b / 2))
bit_or-halves (suc a) b =
    let half = suc a / 2 in
    let enough = digits-fuel (λ d. d) max a half half (b / 2) (omega arith) (omega arith) in
    omega (arith, enough, bit_or-bitwise half (b / 2), bit_or-bitwise (suc a) b)

bit_and-le_fuel : (n a b : ℕ) → a ≤ n → bit_and a b ≤ b
bit_and-le_fuel n zero b h = omega (arith, bit_and-bitwise 0 b)
bit_and-le_fuel zero (suc a) b h = absurd (omega arith)
bit_and-le_fuel (suc n) (suc a) b h =
    omega (arith, bit_and-halves (suc a) b, bit_and-le_fuel n (suc a / 2) (b / 2) (omega arith))

pub bit_and-le : (a b : ℕ) → bit_and a b ≤ b
bit_and-le a b = bit_and-le_fuel a a b (omega arith)

-- Setting the digits of `m` in `a` makes `a` include `m`.
bit_or-includes_fuel : (n a m : ℕ) → m ≤ n → bit_and (bit_or a m) m ≡ m
bit_or-includes_fuel n a zero h = omega (arith, bit_and-le (bit_or a 0) 0)
bit_or-includes_fuel zero a (suc m) h = absurd (omega arith)
bit_or-includes_fuel (suc n) a (suc m) h =
    let low = bit_or-halves a (suc m) in
    let half : bit_or a (suc m) / 2 ≡ bit_or (a / 2) (suc m / 2) = omega (arith, low) in
    let split = bit_and-halves (bit_or a (suc m)) (suc m) in
    let rest = bit_or-includes_fuel n (a / 2) (suc m / 2) (omega arith) in
    omega (arith, low, rw half at split, rest)

pub bit_or-includes : (a m : ℕ) → bit_and (bit_or a m) m ≡ m
bit_or-includes a m = bit_or-includes_fuel m a m (omega arith)

-- Setting more digits keeps those that are included.
bit_or-keeps_fuel : (n a b m : ℕ) → m ≤ n → bit_and a m ≡ m → bit_and (bit_or a b) m ≡ m
bit_or-keeps_fuel n a b zero h e = omega (arith, bit_and-le (bit_or a b) 0)
bit_or-keeps_fuel zero a b (suc m) h e = absurd (omega arith)
bit_or-keeps_fuel (suc n) a b (suc m) h e =
    let low = bit_or-halves a b in
    let half : bit_or a b / 2 ≡ bit_or (a / 2) (b / 2) = omega (arith, low) in
    let split = bit_and-halves (bit_or a b) (suc m) in
    let before = bit_and-halves a (suc m) in
    let kept : bit_and (a / 2) (suc m / 2) ≡ suc m / 2 = omega (arith, before) in
    let rest = bit_or-keeps_fuel n (a / 2) (b / 2) (suc m / 2) (omega arith) kept in
    omega (arith, low, rw half at split, rest, before, kept)

pub bit_or-keeps : (a b m : ℕ) → bit_and a m ≡ m → bit_and (bit_or a b) m ≡ m
bit_or-keeps a b m e = bit_or-keeps_fuel m a b m (omega arith) e

mod-double : (n a : ℕ) → a % 2 ^ suc n ≡ (a / 2 % 2 ^ n) * 2 + a % 2
mod-double n a =
    let twice = two-pow-succ n in
    let pos = one-le-pow n 2 (omega arith) in
    let x = (a / 2 % 2 ^ n) * 2 + a % 2 in
    let q = a / 2 / 2 ^ n in
    let parts = div-add-mod (a / 2) (2 ^ n) in
    let small = mod-lt (a / 2) pos in
    let whole : a ≡ x + 2 ^ suc n * q = omega (arith, parts, ap (λ (t : ℕ). t * q) twice) in
    let below : x < 2 ^ suc n = omega (arith, small, twice) in
    ap (λ (t : ℕ). t % 2 ^ suc n) whole ∙ add-mul-mod_self_left x (2 ^ suc n) q ∙ mod-eq_of_lt below

-- A mask of `n` ones is the remainder by `2 ^ n`.
pub bit_and-mask : (n a : ℕ) → bit_and a (2 ^ n - 1) ≡ a % 2 ^ n
bit_and-mask zero a = omega (arith, bit_and-le a 0)
bit_and-mask (suc n) a =
    let twice = two-pow-succ n in
    let pos = one-le-pow n 2 (omega arith) in
    let split = bit_and-halves a (2 ^ suc n - 1) in
    let half : (2 ^ suc n - 1) / 2 ≡ 2 ^ n - 1 = omega (arith, twice, pos) in
    let low : (2 ^ suc n - 1) % 2 ≡ 1 = omega (arith, twice, pos) in
    let split' = rw (half, low) at split in
    omega (arith, split', bit_and-mask n (a / 2), mod-double n a)

-- A power of two shares no digit with its predecessor in 64 bits.
pub bit_and-power : (e : ℕ) → e < 64 → bit_and (2 ^ e) ((2 ^ e + 2 ^ 64 - 1) % 2 ^ 64) ≡ 0
bit_and-power e small =
    let pos = one-le-pow e 2 (omega arith) in
    let top = pow-le-pow_right {n = 2} (omega arith) {i = e} {j = 63} (omega arith) in
    let wrap : (2 ^ e + 2 ^ 64 - 1) % 2 ^ 64 ≡ 2 ^ e - 1 = omega (arith, pos, top) in
    rw (wrap, bit_and-mask e (2 ^ e)) (mod_self (2 ^ e))
