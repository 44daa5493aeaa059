-- ===== src/Hash/HashA/Correct.antt =====
-- `HashA` is a finite map: `find` finds exactly the keys that are stored, and `insert` adds one.
use mathlib.Core.Path.{subst}
use wt_lab_efficient_paral.Common.{
  ℕ, ◌+◌, ◌%◌, ◌≤◌, ◌<◌, ◌≡◌, refl, ◌⊎◌, inl, inr, Bool, true, false, List, Option, none, some,
  length, get_elem?, set, get_elem?-lt, replicate-entry, length-replicate, ap, Ends, ends,
  Ends-weaken, Bool-cases, arith, sym, ◌∙◌,
}
use wt_lab_efficient_paral.Hash.HashA.{
  Cell, Keys, max_probes, init, map_key, insert, find, at, count,
}
use wt_lab_efficient_paral.Hash.HashA.Probe.{Passes, found, placed, full, insert_loop-Inserted}
use wt_lab_efficient_paral.Hash.HashA.Reach.{
  IsValid, IsAbsent, start, taken, find_pos_complete, find_pos_absent, stored_or_IsAbsent,
  placed-IsAbsent, grown, read, grown-IsValid,
}

module _ {K D : Type 0} (keys : Keys K) where
  open keys use {same, same_iff, blank, hash_function}

  -- What `find`, `count` and `at` give for a stored key, and for one that is not stored.
  module _ (t : List (Cell K D)) (j : K) (v : IsValid keys t) where
    module _ (q : ℕ) (c : Cell K D) where
      find-stored :
          get_elem? t q ≡ some c
          → same c.key j ≡ true
          → same j blank ≡ false
          → (find keys j t ≡ some (some q))
            × (count keys j t ≡ some 1)
            × (at keys j t ≡ some (some c.datum))
      unfolding find count at
      find-stored at_c eq real =
          let pos = find_pos_complete keys t q c j v at_c eq real in
          let inside = get_elem?-lt t q at_c in ground arith

    find-absent :
        IsAbsent keys t j
        → (find keys j t ≡ some none) × (count keys j t ≡ some 0) × (at keys j t ≡ some none)
    unfolding find count at
    find-absent absent = let pos = find_pos_absent keys t j v.room absent in ground arith

  -- What `insert` returns. With the flag `true` the key was not there; now it has the datum and
  -- the iterator points to it, and every other key has what it had. With the flag `false` nothing has
  -- changed, and the iterator is what `find` gives: the entry that was there, or `end()`.
  abbrev pub InsertSpec : K → D → List (Cell K D) → (List (Cell K D) × Option ℕ × Bool) → Type 0
  InsertSpec k d t r =
      IsValid keys r.0
      × (((r.2 ≡ true)
            × (at keys k t ≡ some none)
            × (at keys k r.0 ≡ some (some d))
            × (find keys k r.0 ≡ some r.1)
            × ((j : K) → same k j ≡ false → same j blank ≡ false → at keys j r.0 ≡ at keys j t))
          ⊎ ((r.2 ≡ false) × (r.0 ≡ t) × (find keys k t ≡ some r.1)))

  -- A key other than `k` keeps what it had.
  insert_other :
      (t : List (Cell K D)) (k : K) (d : D) (p : ℕ) (c : Cell K D)
      → IsValid keys t
      → same k blank ≡ false
      → start keys (length t) k ≤ p
      → p < start keys (length t) k + max_probes
      → Passes keys t (length t) k (start keys (length t) k) p
      → get_elem? t (p % length t) ≡ some c
      → same c.key blank ≡ true
      → (j : K) → same k j ≡ false
      → same j blank ≡ false
      → at keys j (set t (p % length t) (record { key = k; datum = d })) ≡ at keys j t
  insert_other t k d p c v real lo hi pass at_c free j apart real_j =
      let v' = grown-IsValid keys t k d p c v real lo hi pass at_c free in
      let at_new = read keys t k d p c v real lo hi pass at_c free in
      let t' = grown keys t k d p c v real lo hi pass at_c free in
      elim (stored_or_IsAbsent keys t j v real_j) [
        | inl absent ↦
            let still : IsAbsent keys t' j = λ q u at_u. ground (arith, at_new q, absent q u) in
            (find-absent t' j v' still).2 ∙ sym (find-absent t j v absent).2
        | inr (q, u, at_u, eq) ↦
            let full_cell = taken keys u.key j eq real_j in
            let kept : get_elem? t' q ≡ some u = ground (arith, at_new q) in
            (find-stored t' j v' q u kept eq real_j).2
            ∙ sym (find-stored t j v q u at_u eq real_j).2
      ]

  full-IsAbsent :
      (t : List (Cell K D)) (k : K)
      → IsValid keys t
      → same k blank ≡ false
      → Passes keys t (length t) k (start keys (length t) k) (start keys (length t) k + max_probes)
      → IsAbsent keys t k
  full-IsAbsent t k v real pass q c at_c = elim (Bool-cases (same c.key k)) [
    | inl eq ↦
        let (p, (lo, hi, here, _)) = v.reach q c k at_c eq real in (pass p c lo hi (rw here at_c)).0
    | inr ne ↦ ne
  ]

  insert_new :
      (t : List (Cell K D)) (k : K) (d : D) (p : ℕ) (c : Cell K D)
      → IsValid keys t
      → same k blank ≡ false
      → start keys (length t) k ≤ p
      → p < start keys (length t) k + max_probes
      → Passes keys t (length t) k (start keys (length t) k) p
      → get_elem? t (p % length t) ≡ some c
      → same c.key blank ≡ true
      → InsertSpec k d t
          (set t (p % length t) (record { key = k; datum = d }), some (p % length t), true)
  insert_new t k d p c v real lo hi pass at_c free =
      let absent = placed-IsAbsent keys t k p c v real lo pass at_c free in
      let v' = grown-IsValid keys t k d p c v real lo hi pass at_c free in
      let at_new = read keys t k d p c v real lo hi pass at_c free in
      let here =
        find-stored (set t (p % length t) (record { key = k; datum = d })) k v' (p % length t)
          (record { key = k; datum = d }) (ground (arith, at_new (p % length t)))
          ((same_iff k k).1 refl) real in
      (
        v',
        inl (
          refl,
          (find-absent t k v absent).2,
          here.2,
          here.0,
          λ j apart real_j. insert_other t k d p c v real lo hi pass at_c free j apart real_j,
        ),
      )

  -- `insert` of a key other than `K()` into a valid table ends, keeps the table valid, and adds the
  -- pair or leaves the table alone.
  pub insert_correct :
      (t : List (Cell K D)) (k : K) (d : D)
      → IsValid keys t
      → same k blank ≡ false
      → Ends (InsertSpec k d t) (insert keys k d t)
  unfolding insert map_key
  insert_correct t k d v real =
      Ends-weaken
        (insert_loop-Inserted keys t k v.room max_probes (start keys (length t) k)
          (start keys (length t) k) d (omega arith) (λ p c lo hi. absurd (omega arith)))
        λ r s. elim s [
          | found q c at_c eq e ↦
              subst (λ r'. InsertSpec k d t r') (sym e)
                (v, inr (refl, refl, (find-stored t k v q c at_c eq real).0))
          | placed p c lo hi pass at_c free e ↦
              subst (λ r'. InsertSpec k d t r') (sym e)
                (insert_new t k d p c v real lo hi pass at_c free)
          | full pass e ↦
              subst (λ r'. InsertSpec k d t r') (sym e)
                (v, inr (refl, refl, (find-absent t k v (full-IsAbsent t k v real pass)).0))
        ]

  -- `find` ends on a valid table for a key other than `K()`: at a cell with the key, or in `end()`
  -- where no cell has it.
  pub find_decides :
      (t : List (Cell K D)) (j : K)
      → IsValid keys t
      → same j blank ≡ false
      → Ends
          (λ it.
            ((q : ℕ) × (c : Cell K D) × (it ≡ some q) × (get_elem? t q ≡ some c) × (c.key ≡ j))
            ⊎ ((it ≡ none) × IsAbsent keys t j))
          (find keys j t)
  find_decides t j v real = elim (stored_or_IsAbsent keys t j v real) [
    | inl absent ↦ rw (find-absent t j v absent).0 (ends (inr (refl, absent)))
    | inr (q, c, at_c, eq) ↦
        rw (find-stored t j v q c at_c eq real).0
          (ends (inl (q, c, refl, at_c, (same_iff c.key j).0 eq)))
  ]

  init-IsAbsent :
      (capacity : ℕ) (d : D) (j : K) → same j blank ≡ false → IsAbsent keys (init keys capacity d) j
  unfolding init
  init-IsAbsent capacity d j real q c at_c =
      let empty = replicate-entry capacity q (record { key = blank; datum = d }) at_c in
      let key : c.key ≡ blank = ap (λ (e : Cell K D). e.key) empty in
      elim (Bool-cases (same c.key j)) [
        | inl eq ↦ cc ((same_iff j blank).1 (sym ((same_iff c.key j).0 eq) ∙ key))
        | inr ne ↦ ne
      ]

  -- A new table with room is valid and holds no key.
  pub init-IsValid :
      (capacity : ℕ) (d : D)
      → 0 < capacity
      → IsValid keys (init keys capacity d)
        × ((j : K) → same j blank ≡ false → at keys j (init keys capacity d) ≡ some none)
  init-IsValid capacity d pos =
      let v : IsValid keys (init keys capacity d) = record {
        room = unfold init in rw (length-replicate {A = Cell K D}) pos;
        reach = λ q c j at_c eq real. cc (init-IsAbsent capacity d j real q c at_c);
      } in
      (v, λ j real. (find-absent _ j v (init-IsAbsent capacity d j real)).2)
