-- ===== src/Pq/Tree.antt =====
-- The implicit tree of a `degree`-ary heap: `child` and `parent` of the priority queues, and the
-- order of its nodes.
use native.Mathlib.Nat.{div-mul-le_self, lt-div-mul-add, le-div_iff_mul-le, div-lt_iff_lt-mul}
use wt_lab_efficient_paral.Common.{ℕ, ◌+◌, ◌-◌, ◌*◌, ◌/◌, ◌≤◌, ◌<◌, ◌≡◌, arith}

abbrev pub child : ℕ → ℕ → ℕ → ℕ
child degree i j = i * degree + j + 1

abbrev pub parent : ℕ → ℕ → ℕ
parent degree i = (i - 1) / degree

module _ (degree : ℕ) (pos : 0 < degree) where
  pub parent-bounds :
      (c : ℕ) → 0 < c → (parent degree c * degree + 1 ≤ c) × (c ≤ parent degree c * degree + degree)
  parent-bounds c h =
      let below = div-mul-le_self (c - 1) degree in
      let above = lt-div-mul-add {a = c - 1} pos in (omega (arith, below), omega (arith, above))

  pub parent-lt : (c : ℕ) → 0 < c → parent degree c < c
  parent-lt c h = (div-lt_iff_lt-mul pos).1 (grind arith)

  pub parent-eq : (c i : ℕ) → i * degree + 1 ≤ c → c ≤ i * degree + degree → parent degree c ≡ i
  parent-eq c i lo hi =
      let above : i ≤ parent degree c = (le-div_iff_mul-le pos).1 (omega arith) in
      let below : parent degree c < i + 1 = (div-lt_iff_lt-mul pos).1 (omega arith) in omega arith
