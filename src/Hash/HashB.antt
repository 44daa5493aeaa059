-- ===== src/Hash/HashB.antt =====
-- exercise1/hash/implementation/hash_b.h: the table of `HashA` with a capacity that is a power of two
-- and a mask for the remainder.
pub mod Refines
use wt_lab_efficient_paral.Common.{
  ℕ, zero, suc, ◌+◌, ◌-◌, ◌%◌, ◌^◌, Bool, true, false, List, Option, none, some, ltb, ◌==◌, length,
  get_elem?, set, replicate, assert, if◌then◌else◌, ◌>>=◌, ◌>>◌,
}
use wt_lab_efficient_paral.Hash.HashA.{Cell, Keys, is_empty, compare_key}
use Prim.Native.Nat.{bit_and}

unfoldable pub is_power_of_two : ℕ → Bool
is_power_of_two value = bit_and value ((value + 2 ^ 64 - 1) % 2 ^ 64) == 0

-- The bound of the probing loops.
abbrev pub max_search_length : ℕ
max_search_length = 400

module _ {K D : Type 0} (keys : Keys K) where
  open keys use {blank, hash_function}

  -- `log_capacity` is `ceil(log2(size * 1.3))`.
  unfoldable pub init : ℕ → D → Option (List (Cell K D))
  unfolding is_power_of_two
  init log_capacity d =
      let capacity = 2 ^ log_capacity % 2 ^ 64 in
      assert (is_power_of_two capacity)
      >> some (replicate capacity (record { key = blank; datum = d }))

  -- `map`
  unfoldable pub map_key : List (Cell K D) → K → ℕ
  map_key table k = bit_and (hash_function k) (length table - 1)

  -- The loop of `insert`: `rounds` are left, `i` is the next probe. The result is the table, the
  -- iterator and the flag.
  unfoldable pub insert_loop :
      ℕ → ℕ → K → D → List (Cell K D) → Option (List (Cell K D) × Option ℕ × Bool)
  insert_loop zero i k d table = some (table, none, false)
  insert_loop (suc rounds) i k d table =
      let cur_pos = bit_and i (length table - 1) in
      let next = insert_loop rounds (i + 1) k d table in
      get_elem? table cur_pos >>= λ cur_element.
      if compare_key keys cur_element k
      then some (table, some cur_pos, false)
      else (if is_empty keys cur_element
          then some (set table cur_pos (record { key = k; datum = d }), some cur_pos, true)
          else next)

  unfoldable pub insert : K → D → List (Cell K D) → Option (List (Cell K D) × Option ℕ × Bool)
  insert k d table = insert_loop max_search_length (map_key table k) k d table

  unfoldable pub find_pos_loop : ℕ → ℕ → K → List (Cell K D) → Option ℕ
  find_pos_loop zero i k table = some (length table)
  find_pos_loop (suc rounds) i k table =
      let cur_pos = bit_and i (length table - 1) in
      let next = find_pos_loop rounds (i + 1) k table in
      get_elem? table cur_pos >>= λ cur_element.
      if compare_key keys cur_element k
      then some cur_pos
      else (if is_empty keys cur_element then some (length table) else next)

  -- `findPos`: the capacity stands for "not there".
  unfoldable pub find_pos : K → List (Cell K D) → Option ℕ
  find_pos k table = find_pos_loop max_search_length (map_key table k) k table

  -- `find`
  unfoldable pub find : K → List (Cell K D) → Option (Option ℕ)
  find k table =
      find_pos k table >>= λ pos. some (if ltb pos (length table) then some pos else none)

  -- `count`
  unfoldable pub count : K → List (Cell K D) → Option ℕ
  count k table = find k table >>= λ it. some (elim it [ none ↦ 0 | some _ ↦ 1 ])

  -- `at`: the inner `none` is the exception `std::out_of_range`.
  unfoldable pub at : K → List (Cell K D) → Option (Option D)
  at k table = find k table >>= λ it. elim it [
    | none ↦ some none
    | some pos ↦ get_elem? table pos >>= λ c. some (some c.datum)
  ]
