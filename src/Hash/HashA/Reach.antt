-- ===== src/Hash/HashA/Reach.antt =====
-- The invariant of `HashA`: what `findPos` finds in a valid table, and why `insert` keeps it valid.
use mathlib.Core.Path.{subst}
use native.Mathlib.Decide.{ℕ_discrete}
use wt_lab_efficient_paral.Common.{
  ℕ, ◌+◌, ◌%◌, ◌≤◌, ◌<◌, ◌≡◌, ◌⊎◌, inl, inr, true, false, List, some, length, get_elem?, set,
  get_elem?-lt, get_elem?-set, length-set, ◌==◌, if◌then◌else◌, Ends-value, Bool-cases, arith, sym,
  ◌∙◌,
}
use wt_lab_efficient_paral.Hash.HashA.{Cell, Keys, max_probes, map_key, find_pos}
use wt_lab_efficient_paral.Hash.HashA.Probe.{Passes, find_pos_loop_found, find_pos_loop_sound}

module _ {K : Type 0} (keys : Keys K) where
  open keys use {same, same_iff, blank, hash_function}

  abbrev pub start : ℕ → K → ℕ
  start size j = hash_function j % size

  -- A stored key that is not blank does not mark its cell as empty.
  pub taken : (a k : K) → same a k ≡ true → same k blank ≡ false → same a blank ≡ false
  taken a k eq real = elim (Bool-cases (same a blank)) [
    | inl e ↦ cc ((same_iff k blank).1 (sym ((same_iff a k).0 eq) ∙ (same_iff a blank).0 e))
    | inr ne ↦ ne
  ]

module _ {K D : Type 0} (keys : Keys K) where
  open keys use {same, same_iff, blank, hash_function}

  -- The probes of `j` pass up to `p`, which is position `q`.
  abbrev pub ReachesAt : List (Cell K D) → ℕ → K → ℕ → ℕ → Type 0
  ReachesAt t size j q p =
      (start keys size j ≤ p)
      × (p < start keys size j + max_probes)
      × (p % size ≡ q)
      × Passes keys t size j (start keys size j) p

  -- A stored key is met by its own probes before an empty cell and before the bound.
  abbrev pub Reaches : List (Cell K D) → ℕ → Type 0
  Reaches t size =
      (q : ℕ) (c : Cell K D) (j : K)
      → get_elem? t q ≡ some c
      → same c.key j ≡ true
      → same j blank ≡ false
      → (p : ℕ) × ReachesAt t size j q p

  pub record IsValid (t : List (Cell K D)) : Type 0 where
    pub room : 0 < length t
    pub reach : Reaches t (length t)

  abbrev pub IsAbsent : List (Cell K D) → K → Type 0
  IsAbsent t j = (q : ℕ) (c : Cell K D) → get_elem? t q ≡ some c → same c.key j ≡ false

  -- `findPos` of a stored key is its position.
  pub find_pos_complete :
      (t : List (Cell K D)) (q : ℕ) (c : Cell K D) (j : K)
      → IsValid t
      → get_elem? t q ≡ some c
      → same c.key j ≡ true
      → same j blank ≡ false
      → find_pos keys j t ≡ some q
  unfolding find_pos map_key
  find_pos_complete t q c j v at_c eq real =
      let (p, (lo, hi, here, pass)) = v.reach q c j at_c eq real in
      rw here at (
        find_pos_loop_found keys t j v.room max_probes (start keys (length t) j) p c lo hi pass
          (rw here at_c) eq)

  -- `findPos` of a key that is not stored is the capacity.
  pub find_pos_absent :
      (t : List (Cell K D)) (j : K)
      → 0 < length t
      → IsAbsent t j
      → find_pos keys j t ≡ some (length t)
  unfolding find_pos map_key
  find_pos_absent t j pos absent =
      let (q, e, s) =
        Ends-value (find_pos_loop_sound keys t j pos max_probes (start keys (length t) j)) in
      elim s [ inl cap ↦ rw cap at e | inr (c, at_c, eq) ↦ cc (absent q c at_c) ]

  -- Whether a key is stored is decided by `findPos`.
  pub stored_or_IsAbsent :
      (t : List (Cell K D)) (j : K)
      → IsValid t
      → same j blank ≡ false
      → IsAbsent t j ⊎ ((q : ℕ) × (c : Cell K D) × (get_elem? t q ≡ some c) × (same c.key j ≡ true))
  unfolding find_pos map_key
  stored_or_IsAbsent t j v real =
      let (q, e, s) =
        Ends-value (find_pos_loop_sound keys t j v.room max_probes (start keys (length t) j)) in
      elim s [
        | inl cap ↦ inl (λ q' c at_c. elim (Bool-cases (same c.key j)) [
          | inl eq ↦
              absurd
                (ground (arith, find_pos_complete t q' c j v at_c eq real, get_elem?-lt t q' at_c))
          | inr ne ↦ ne
        ])
        | inr (c, at_c, eq) ↦ inr (q, c, at_c, eq)
      ]

  -- The cell that `insert` takes shows that the key was not stored.
  pub placed-IsAbsent :
      (t : List (Cell K D)) (k : K) (p : ℕ) (c : Cell K D)
      → IsValid t
      → same k blank ≡ false
      → start keys (length t) k ≤ p
      → Passes keys t (length t) k (start keys (length t) k) p
      → get_elem? t (p % length t) ≡ some c
      → same c.key blank ≡ true
      → IsAbsent t k
  placed-IsAbsent t k p c v real lo pass at_c free q u at_u = elim (Bool-cases (same u.key k)) [
    | inl eq ↦
        let (p', (lo', hi', here', pass')) = v.reach q u k at_u eq real in
        let at_u' : get_elem? t (p' % length t) ≡ some u = rw here' at_u in
        let full = taken keys u.key k eq real in ground (arith, pass p' u, pass' p c)
    | inr ne ↦ ne
  ]

  module _ (t : List (Cell K D)) (k : K) (d : D) (p : ℕ) (c : Cell K D) (v : IsValid t)
      (real : same k blank ≡ false) (lo : start keys (length t) k ≤ p)
      (hi : p < start keys (length t) k + max_probes)
      (pass : Passes keys t (length t) k (start keys (length t) k) p)
      (at_c : get_elem? t (p % length t) ≡ some c) (free : same c.key blank ≡ true) where
    abbrev pub added : Cell K D
    added = record { key = k; datum = d }

    abbrev pub grown : List (Cell K D)
    grown = set t (p % length t) added

    pub grown-length : length grown ≡ length t
    grown-length = length-set t (p % length t) added

    pub read :
        (q : ℕ) → get_elem? grown q ≡ (if (p % length t) == q then some added else get_elem? t q)
    read q = get_elem?-set t (p % length t) q added (get_elem?-lt t (p % length t) at_c)

    -- The cell that is taken was empty, so no probe that passes in `t` meets it.
    grown-Passes :
        (j : K) (i n : ℕ) → Passes keys t (length t) j i n → Passes keys grown (length t) j i n
    grown-Passes j i n pass_j r u lo_r hi_r at_u =
        ground (arith, read (r % length t), pass_j r u, pass_j r c)

    grown-Reaches : Reaches grown (length t)
    grown-Reaches q u j at_u eq real_j = elim (ℕ_discrete (p % length t) q) [
      | yes e ↦
          let here : same k j ≡ true = ground (arith, read q) in
          subst (λ (i : K). (r : ℕ) × ReachesAt grown (length t) i q r) ((same_iff k j).0 here)
            (p, (lo, hi, e, grown-Passes k (start keys (length t) k) p pass))
      | no ne ↦
          let old : get_elem? t q ≡ some u = ground (arith, read q) in
          let (r, (lo_r, hi_r, here, pass_r)) = v.reach q u j old eq real_j in
          (r, (lo_r, hi_r, here, grown-Passes j (start keys (length t) j) r pass_r))
    ]

    pub grown-IsValid : IsValid grown
    grown-IsValid = record {
      room = rw grown-length v.room;
      reach = subst (λ (n : ℕ). Reaches grown n) (sym grown-length) grown-Reaches;
    }
