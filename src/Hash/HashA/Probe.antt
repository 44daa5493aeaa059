-- ===== src/Hash/HashA/Probe.antt =====
-- What the probing loops of `HashA` do, from one probe to the next.
use native.Mathlib.Nat.{mod-lt}
use native.Mathlib.Decide.{ℕ_discrete}
use wt_lab_efficient_paral.Common.{
  ℕ, zero, suc, ◌+◌, ◌%◌, ◌≤◌, ◌<◌, ◌≡◌, refl, ◌⊎◌, inl, inr, Bool, true, false, List, Option, none,
  some, length, get_elem?, set, get_elem?-some, Ends, ends, Ends-split, arith,
}
use wt_lab_efficient_paral.Hash.HashA.{
  Cell, Keys, is_empty, compare_key, insert_loop, find_pos_loop,
}

module _ {K D : Type 0} (keys : Keys K) where
  open keys use {same, blank}

  -- In a table of `size` cells the probes from `i` up to `j` meet cells that are taken by keys other than `k`.
  abbrev pub Passes : List (Cell K D) → ℕ → K → ℕ → ℕ → Type 0
  Passes t size k i j =
      (p : ℕ) (c : Cell K D)
      → i ≤ p
      → p < j
      → get_elem? t (p % size) ≡ some c
      → (same c.key k ≡ false) × (same c.key blank ≡ false)

  -- How `insert` can end: the key is there, it takes an empty cell, or the bound is reached.
  pub data Inserted (t : List (Cell K D)) (k : K) (d : D) (i j : ℕ)
      (r : List (Cell K D) × Option ℕ × Bool) : Type 0 where
    found :
        (q : ℕ) (c : Cell K D)
        → get_elem? t q ≡ some c
        → same c.key k ≡ true
        → r ≡ (t, some q, false)
        → Inserted t k d i j r
    placed :
        (p : ℕ) (c : Cell K D)
        → i ≤ p
        → p < j
        → Passes t (length t) k i p
        → get_elem? t (p % length t) ≡ some c
        → same c.key blank ≡ true
        → r ≡ (set t (p % length t) (record { key = k; datum = d }), some (p % length t), true)
        → Inserted t k d i j r
    full : Passes t (length t) k i j → r ≡ (t, none, false) → Inserted t k d i j r

  module _ (t : List (Cell K D)) (k : K) (pos : 0 < length t) where
    probe : (i : ℕ) → (c : Cell K D) × (get_elem? t (i % length t) ≡ some c)
    probe i = get_elem?-some t (i % length t) (mod-lt i pos)

    pub find_pos_loop_found :
        (rounds i p : ℕ) (c : Cell K D)
        → i ≤ p
        → p < i + rounds
        → Passes t (length t) k i p
        → get_elem? t (p % length t) ≡ some c
        → same c.key k ≡ true
        → find_pos_loop keys rounds i k t ≡ some (p % length t)
    unfolding find_pos_loop compare_key is_empty
    find_pos_loop_found zero i p c lo hi pass at_c eq = absurd (omega arith)
    find_pos_loop_found (suc rounds) i p c lo hi pass at_c eq = elim (ℕ_discrete i p) [
      | yes e ↦ rw (e, at_c, eq)
      | no ne ↦
          let (c', at_i) = probe i in
          let skip = pass i c' (omega arith) (omega arith) at_i in
          rw (at_i, skip.0, skip.1)
            (find_pos_loop_found rounds (i + 1) p c (omega arith) (omega arith)
              (λ p' u lo' hi'. pass p' u (omega arith) hi') at_c eq)
    ]

    -- `findPos` ends in the capacity or at a cell with the key.
    pub find_pos_loop_sound :
        (rounds i : ℕ)
        → Ends
            (λ q.
              (q ≡ length t) ⊎ ((c : Cell K D) × (get_elem? t q ≡ some c) × (same c.key k ≡ true)))
            (find_pos_loop keys rounds i k t)
    unfolding find_pos_loop compare_key is_empty
    find_pos_loop_sound zero i = ends (inl refl)
    find_pos_loop_sound (suc rounds) i =
        let (c, at_i) = probe i in
        rw at_i (
          Ends-split (same c.key k) (λ eq. ends (inr (c, at_i, eq)))
            (λ ne.
              Ends-split (same c.key blank) (λ e. ends (inl refl))
                (λ taken. find_pos_loop_sound rounds (i + 1))))

    pub insert_loop-Inserted :
        (rounds first i : ℕ) (d : D)
        → first ≤ i
        → Passes t (length t) k first i
        → Ends (Inserted t k d first (i + rounds)) (insert_loop keys rounds i k d t)
    unfolding insert_loop compare_key is_empty
    insert_loop-Inserted zero first i d lo pass =
        ends (full (λ p c l h. pass p c l (omega arith)) refl)
    insert_loop-Inserted (suc rounds) first i d lo pass =
        let (c, at_i) = probe i in
        rw at_i (
          Ends-split (same c.key k) (λ eq. ends (found (i % length t) c at_i eq refl))
            (λ ne.
              Ends-split (same c.key blank)
                (λ e. ends (placed i c lo (omega arith) pass at_i e refl))
                (λ taken.
                  let on : i + 1 + rounds ≡ i + suc rounds = omega arith in
                  rw on at (
                    insert_loop-Inserted rounds first (i + 1) d (omega arith)
                      (λ p u l h at_u. ground (arith, pass p u))))))
