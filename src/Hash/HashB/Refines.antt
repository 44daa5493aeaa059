-- ===== src/Hash/HashB/Refines.antt =====
-- `HashB` computes what `HashA` computes at a capacity that is a power of two.
use native.Mathlib.Nat.{pow-le-pow_right, mod-eq_of_lt}
use wt_lab_efficient_paral.Common.{
  ℕ, zero, suc, ◌+◌, ◌-◌, ◌%◌, ◌^◌, ◌<◌, ◌≡◌, refl, List, some, length, arith,
}
use wt_lab_efficient_paral.Common.Bits.{bit_and-mask, bit_and-power}
use wt_lab_efficient_paral.Hash.HashA
use wt_lab_efficient_paral.Hash.HashA.{Cell, Keys}
use wt_lab_efficient_paral.Hash.HashB
use Prim.Native.Nat.{bit_and}

module _ {K D : Type 0} (keys : Keys K) (table : List (Cell K D)) (n : ℕ) where
  module _ (power : length table ≡ 2 ^ n) where
    masked : (i : ℕ) → bit_and i (length table - 1) ≡ i % length table
    masked i = rw power (bit_and-mask n i)

    insert_loop-eq :
        (rounds i : ℕ) (k : K) (d : D)
        → HashB.insert_loop keys rounds i k d table ≡ HashA.insert_loop keys rounds i k d table
    unfolding HashB.insert_loop HashA.insert_loop
    insert_loop-eq zero i k d = refl
    insert_loop-eq (suc rounds) i k d = rw (masked i, insert_loop-eq rounds (i + 1) k d) refl

    find_pos_loop-eq :
        (rounds i : ℕ) (k : K)
        → HashB.find_pos_loop keys rounds i k table ≡ HashA.find_pos_loop keys rounds i k table
    unfolding HashB.find_pos_loop HashA.find_pos_loop
    find_pos_loop-eq zero i k = refl
    find_pos_loop-eq (suc rounds) i k = rw (masked i, find_pos_loop-eq rounds (i + 1) k) refl

    find_pos-eq : (k : K) → HashB.find_pos keys k table ≡ HashA.find_pos keys k table
    unfolding HashB.find_pos HashA.find_pos HashB.map_key HashA.map_key
    find_pos-eq k = rw (masked (keys.hash_function k)) (find_pos_loop-eq 400 _ k)

    insert-eq : (k : K) (d : D) → HashB.insert keys k d table ≡ HashA.insert keys k d table
    unfolding HashB.insert HashA.insert HashB.map_key HashA.map_key
    insert-eq k d = rw (masked (keys.hash_function k)) (insert_loop-eq 400 _ k d)

-- At a capacity of 2 ^ n, with n below 64, the constructor ends with its assert holding in the table
-- that `HashA` starts with; and on a table of 2 ^ n cells insert, find, count and at compute what those
-- of `HashA` compute, faults included.
pub HashB-refines :
    {K D : Type 0} (keys : Keys K) (n : ℕ) (k : K) (d : D) (table : List (Cell K D))
    → n < 64
    → length table ≡ 2 ^ n
    → (HashB.init keys n d ≡ some (HashA.init keys (2 ^ n) d))
      × (HashB.insert keys k d table ≡ HashA.insert keys k d table)
      × (HashB.find keys k table ≡ HashA.find keys k table)
      × (HashB.count keys k table ≡ HashA.count keys k table)
      × (HashB.at keys k table ≡ HashA.at keys k table)
unfolding HashB.init HashA.init HashB.find HashA.find HashB.count HashA.count HashB.at HashA.at
    HashB.is_power_of_two
HashB-refines keys n k d table small power =
    let same = find_pos-eq keys table n power k in
    let top = pow-le-pow_right {n = 2} (omega arith) {i = n} {j = 63} (omega arith) in
    let fits : 2 ^ n % 2 ^ 64 ≡ 2 ^ n = mod-eq_of_lt (omega (arith, top)) in
    (
      rw (fits, bit_and-power n small) refl,
      insert-eq keys table n power k d,
      rw same refl,
      rw same refl,
      rw same refl,
    )
