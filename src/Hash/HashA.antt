-- ===== src/Hash/HashA.antt =====
-- exercise1/hash/implementation/cell.h and hash_a.h: a hash table with linear probing that gives up
-- after 400 cells. The key type with its `==` and its value `K()`, which marks an empty cell, and
-- the hash function are the client's. An iterator is the position that it points to, and `end()` is
-- `none`. A probe position stays below `capacity() + 400`, which is taken to fit `size_t`.
pub mod Probe
pub mod Reach
pub mod Correct
use wt_lab_efficient_paral.Common.{
  ℕ, zero, suc, ◌+◌, ◌%◌, ◌≡◌, ◌↔◌, Bool, true, false, List, Option, none, some, ltb, length,
  get_elem?, set, replicate, if◌then◌else◌, ◌>>=◌,
}

pub record Cell (K D : Type 0) : Type 0 where
  pub key : K
  pub datum : D

-- What a client gives: `operator==` and the default value of its key type, and its hash function.
pub record Keys (K : Type 0) : Type 0 where
  pub same : K → K → Bool
  pub same_iff : (a b : K) → (same a b ≡ true) ↔ (a ≡ b)
  pub blank : K
  pub hash_function : K → ℕ

-- The bound of the probing loops.
abbrev pub max_probes : ℕ
max_probes = 400

module _ {K D : Type 0} (keys : Keys K) where
  open keys use {same, blank, hash_function}

  unfoldable pub is_empty : Cell K D → Bool
  is_empty c = same c.key blank

  unfoldable pub compare_key : Cell K D → K → Bool
  compare_key c k = same c.key k

  -- `table(size * 1.3)`: the capacity is the truncated product.
  unfoldable pub init : ℕ → D → List (Cell K D)
  init capacity d = replicate capacity (record { key = blank; datum = d })

  -- `map`
  unfoldable pub map_key : List (Cell K D) → K → ℕ
  map_key table k = hash_function k % length table

  -- The loop of `insert`: `rounds` are left, `i` is the next probe. The result is the table, the
  -- iterator and the flag.
  unfoldable pub insert_loop :
      ℕ → ℕ → K → D → List (Cell K D) → Option (List (Cell K D) × Option ℕ × Bool)
  insert_loop zero i k d table = some (table, none, false)
  insert_loop (suc rounds) i k d table =
      let cur_pos = i % length table in
      let next = insert_loop rounds (i + 1) k d table in
      get_elem? table cur_pos >>= λ cur_element.
      if compare_key cur_element k
      then some (table, some cur_pos, false)
      else (if is_empty cur_element
          then some (set table cur_pos (record { key = k; datum = d }), some cur_pos, true)
          else next)

  unfoldable pub insert : K → D → List (Cell K D) → Option (List (Cell K D) × Option ℕ × Bool)
  insert k d table = insert_loop max_probes (map_key table k) k d table

  unfoldable pub find_pos_loop : ℕ → ℕ → K → List (Cell K D) → Option ℕ
  find_pos_loop zero i k table = some (length table)
  find_pos_loop (suc rounds) i k table =
      let cur_pos = i % length table in
      let next = find_pos_loop rounds (i + 1) k table in
      get_elem? table cur_pos >>= λ cur_element.
      if compare_key cur_element k
      then some cur_pos
      else (if is_empty cur_element then some (length table) else next)

  -- `findPos`: the capacity stands for "not there".
  unfoldable pub find_pos : K → List (Cell K D) → Option ℕ
  find_pos k table = find_pos_loop max_probes (map_key table k) k table

  -- `find`
  unfoldable pub find : K → List (Cell K D) → Option (Option ℕ)
  find k table =
      find_pos k table >>= λ pos. some (if ltb pos (length table) then some pos else none)

  -- `count`
  unfoldable pub count : K → List (Cell K D) → Option ℕ
  count k table = find k table >>= λ it. some (elim it [ none ↦ 0 | some _ ↦ 1 ])

  -- `at`: the inner `none` is the exception `std::out_of_range`.
  unfoldable pub at : K → List (Cell K D) → Option (Option D)
  at k table = find k table >>= λ it. elim it [
    | none ↦ some none
    | some pos ↦ get_elem? table pos >>= λ c. some (some c.datum)
  ]
