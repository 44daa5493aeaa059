-- ===== src/Hash/Tests.antt =====
-- Runs of the hash tables, and their theorems at concrete tables.
use mathlib.Core.Option
use wt_lab_efficient_paral.Common.{
  Bool, Option, true, ℕ, ◌≡◌, refl, ◌↔◌, false, List, some, Ends, arith, ◌>>=◌, ◌==◌, ◌*◌, ◌^◌,
}
use wt_lab_efficient_paral.Hash.HashA
use wt_lab_efficient_paral.Hash.HashB
use wt_lab_efficient_paral.Hash.HashB.Refines.{HashB-refines}
use wt_lab_efficient_paral.Hash.HashA.{Cell, Keys}
use wt_lab_efficient_paral.Hash.HashA.Reach.{IsValid}
use wt_lab_efficient_paral.Hash.HashA.Correct.{InsertSpec, insert_correct, init-IsValid}

number_keys : (a b : ℕ) → ((a == b) ≡ true) ↔ (a ≡ b)
number_keys a b = ground arith

-- Numbers as keys, 0 marking an empty cell, with a hash function that collides.
abbrev numbers : Keys ℕ
numbers = record {
  same = λ a b. a == b;
  same_iff = number_keys;
  blank = 0;
  hash_function = λ k. k * 4;
}

abbrev table : List (Cell ℕ ℕ)
table = HashA.init numbers 8 0

-- 3 and 5 collide; the second insertion of 3 finds the first.
three_insertions : Option (List (Cell ℕ ℕ) × Option ℕ × Bool)
three_insertions = HashA.insert numbers 3 30 table >>= λ r.
    HashA.insert numbers 5 50 r.0 >>= λ s. HashA.insert numbers 3 31 s.0

table_run :
    Option.map {B = Option ℕ × Bool} (λ r. (r.1, r.2)) three_insertions ≡ some (some 4, false)
unfolding three_insertions HashA.insert HashA.insert_loop HashA.map_key HashA.compare_key
    HashA.is_empty HashA.init
table_run = refl

table-IsValid : IsValid numbers table
table-IsValid = (init-IsValid numbers 8 0 (omega arith)).0

insert_correct_example : Ends (InsertSpec numbers 3 30 table) (HashA.insert numbers 3 30 table)
insert_correct_example = insert_correct numbers table 3 30 table-IsValid refl

HashB-refines_example :
    (HashB.init {D = ℕ} numbers 3 0 ≡ some (HashA.init {D = ℕ} numbers (2 ^ 3) 0))
    × (HashB.insert numbers 3 0 table ≡ HashA.insert numbers 3 0 table)
    × (HashB.find numbers 3 table ≡ HashA.find numbers 3 table)
    × (HashB.count numbers 3 table ≡ HashA.count numbers 3 table)
    × (HashB.at numbers 3 table ≡ HashA.at numbers 3 table)
HashB-refines_example = HashB-refines numbers 3 3 0 table (omega arith) (unfold HashA.init in refl)
