-- ===== src/ChainMap/Utils.antt =====
-- exercise5/src/utils.h: `next_power_of_two` and `is_power_of_two` on 64-bit numbers.
use native.Mathlib.Nat.{two-pow-succ, pow-le-pow_right}
use native.Mathlib.Decide.{dec_lt}
use wt_lab_efficient_paral.Common.{
  ℕ, zero, suc, ◌+◌, ◌-◌, ◌*◌, ◌%◌, ◌^◌, ◌≤◌, ◌<◌, ◌≡◌, refl, Bool, true, Option, none, some, ltb,
  ◌==◌, if◌then◌else◌, Ends, ends, Ends-split, Ends-weaken, inl, inr, ◌⊎◌, arith,
}
use wt_lab_efficient_paral.Common.Bits.{bit_and-power}
use Prim.Native.Nat.{bit_and}

-- `power <<= 1` drops the bit that leaves the 64-bit word.
unfoldable pub next_power_of_two_loop : ℕ → ℕ → ℕ → Option ℕ
next_power_of_two_loop zero power n = none
next_power_of_two_loop (suc fuel) power n =
    let next = next_power_of_two_loop fuel (power * 2 % 2 ^ 64) n in
    if ltb power n then next else some power

unfoldable pub next_power_of_two : ℕ → Option ℕ
next_power_of_two n = next_power_of_two_loop 64 1 n

-- `n - 1` wraps around at 0.
unfoldable pub is_power_of_two : ℕ → Bool
is_power_of_two n = bit_and n ((n + 2 ^ 64 - 1) % 2 ^ 64) == 0

-- The least power of two that is not below `n`, for the exponent that is returned.
pub record IsLeastPower (n p : ℕ) : Type 0 where
  pub exponent : ℕ
  pub power : p ≡ 2 ^ exponent
  pub small : exponent < 64
  pub above : n ≤ p
  pub least : (n ≤ 1) ⊎ (p < 2 * n)

next_power_of_two_loop-IsLeastPower :
    (fuel e n : ℕ)
    → fuel + e ≡ 64
    → 0 < fuel
    → n ≤ 2 ^ 63
    → ((e ≡ 0) ⊎ (2 ^ e < 2 * n))
    → Ends (IsLeastPower n) (next_power_of_two_loop fuel (2 ^ e) n)
unfolding next_power_of_two_loop
next_power_of_two_loop-IsLeastPower zero e n count pos small reached = absurd (omega arith)
next_power_of_two_loop-IsLeastPower (suc fuel) e n count pos small reached =
    Ends-split (ltb (2 ^ e) n)
      (λ more.
        let lower : 2 ^ e < n = ground arith in
        let room : e < 63 = elim (dec_lt e 63) [
          | yes h ↦ h
          | no h ↦
              absurd (
                omega
                  (arith, pow-le-pow_right {n = 2} (omega arith) {i = 63} {j = e} (omega arith)))
        ] in
        let twice = two-pow-succ e in
        let fits : 2 ^ e * 2 % 2 ^ 64 ≡ 2 ^ suc e = omega (arith, twice) in
        rw fits (
          next_power_of_two_loop-IsLeastPower fuel (suc e) n (omega arith) (omega arith) small
            (inr (omega (arith, twice)))))
      (λ done. ends (record {
        exponent = e;
        power = refl;
        small = omega arith;
        above = ground arith;
        least = ground (arith, reached);
      }))

-- Up to 2 ^ 63, `next_power_of_two` ends in the least power of two that is not below `n`, and that
-- passes `is_power_of_two`.
pub next_power_of_two_correct :
    (n : ℕ)
    → n ≤ 2 ^ 63
    → Ends (λ p. IsLeastPower n p × (is_power_of_two p ≡ true)) (next_power_of_two n)
unfolding next_power_of_two is_power_of_two
next_power_of_two_correct n small =
    Ends-weaken (next_power_of_two_loop-IsLeastPower 64 0 n refl (omega arith) small (inl refl))
      λ p s. (s, rw (s.power, bit_and-power s.exponent s.small) refl)
