-- ===== src/Graphs/Bfs/Grown.antt =====
-- What the loops of a level do to `visited` and `next_frontier`.
use mathlib.Core.List.{Memᴰ}
use wt_lab_efficient_paral.Common.{
  ℕ, zero, suc, ◌+◌, ◌≡◌, ◌≢◌, refl, sym, ◌∙◌, ◌⊎◌, inl, inr, Bool, true, false, List, [], ◌∷◌,
  some, get_elem?, set, length, ◌==◌, arith, Bool-cases, get_elem?-set, get_elem?-lt, length-set,
}
use wt_lab_efficient_paral.Graphs.Bfs.{Outcome, found, continues}

abbrev pub Marked : List Bool → ℕ → Type 0
Marked visited v = get_elem? visited v ≡ some true

abbrev pub unmarked : List Bool → ℕ
unmarked [] = 0
unmarked (true ∷ visited) = unmarked visited
unmarked (false ∷ visited) = suc (unmarked visited)

unmarked-set :
    (visited : List Bool) (v : ℕ)
    → get_elem? visited v ≡ some false
    → unmarked (set visited v true) + 1 ≡ unmarked visited
unmarked-set [] v h = cc
unmarked-set (true ∷ visited) zero h = cc
unmarked-set (false ∷ visited) zero h = omega arith
unmarked-set (true ∷ visited) (suc v) h = unmarked-set visited v h
unmarked-set (false ∷ visited) (suc v) h = omega (arith, unmarked-set visited v h)

-- The nodes of `P`, of which `end` is none, are marked, and those that were not before are put in the
-- next frontier.
pub record Grown (end : ℕ) (P : ℕ → Type 0) (vis : List Bool) (nx : List ℕ) (vis' : List Bool)
    (nx' : List ℕ) : Type 0 where
  pub size : length vis' ≡ length vis
  pub keeps : (v : ℕ) → Marked vis v → Marked vis' v
  pub covers : (v : ℕ) → P v → Marked vis' v
  pub new : (v : ℕ) → Marked vis' v → Marked vis v ⊎ Memᴰ v nx'
  pub queued : (v : ℕ) → Memᴰ v nx → Memᴰ v nx'
  pub next : (v : ℕ) → Memᴰ v nx' → Memᴰ v nx ⊎ P v
  pub count : unmarked vis' + length nx' ≡ unmarked vis + length nx
  pub not_end : P end → ⊥

abbrev pub Ok : ℕ → (ℕ → Type 0) → List Bool → List ℕ → Outcome → Type 0
Ok end P vis nx found = P end
Ok end P vis nx (continues vis' nx') = Grown end P vis nx vis' nx'

module _ (end : ℕ) where
  pub Grown-nothing :
      (P : ℕ → Type 0) (vis : List Bool) (nx : List ℕ)
      → ((v : ℕ) → P v → ⊥)
      → Grown end P vis nx vis nx
  Grown-nothing P vis nx nothing = record {
    size = refl;
    keeps = λ v h. h;
    covers = λ v h. absurd (nothing v h);
    new = λ v h. inl h;
    queued = λ v h. h;
    next = λ v h. inl h;
    count = refl;
    not_end = nothing end;
  }

  pub Grown-seen :
      (h : ℕ) (vis : List Bool) (nx : List ℕ)
      → h ≢ end
      → Marked vis h
      → Grown end (λ v. v ≡ h) vis nx vis nx
  Grown-seen h vis nx ne seen = record {
    size = refl;
    keeps = λ v m. m;
    covers = λ v e. rw e seen;
    new = λ v m. inl m;
    queued = λ v m. m;
    next = λ v m. inl m;
    count = refl;
    not_end = λ e. ne (sym e);
  }

  pub Grown-mark :
      (h : ℕ) (vis : List Bool) (nx : List ℕ)
      → h ≢ end
      → get_elem? vis h ≡ some false
      → Grown end (λ v. v ≡ h) vis nx (set vis h true) (h ∷ nx)
  Grown-mark h vis nx ne fresh =
      let written = λ (v : ℕ). get_elem?-set vis h v true (get_elem?-lt vis h fresh) in
      record {
        size = length-set vis h true;
        keeps = λ v m.
            written v
            ∙ elim (Bool-cases (h == v)) [ inl same ↦ rw same refl | inr apart ↦ rw apart m ];
        covers = λ v e. written v ∙ (let same : (h == v) ≡ true = ground arith in rw same refl);
        new = λ v m. elim (Bool-cases (h == v)) [
          | inl same ↦ inr (Memᴰ.head (ground arith))
          | inr apart ↦ inl (sym (written v ∙ rw apart refl) ∙ m)
        ];
        queued = λ v m. Memᴰ.tail m;
        next = λ v m. elim m [ Memᴰ.head e ↦ inr e | Memᴰ.tail t ↦ inl t ];
        count = omega (arith, unmarked-set vis h fresh);
        not_end = λ e. ne (sym e);
      }

  Grown-then :
      {P Q : ℕ → Type 0} {vis vis' vis'' : List Bool} {nx nx' nx'' : List ℕ}
      → Grown end P vis nx vis' nx'
      → Grown end Q vis' nx' vis'' nx''
      → Grown end (λ v. P v ⊎ Q v) vis nx vis'' nx''
  Grown-then g k = record {
    size = k.size ∙ g.size;
    keeps = λ v m. k.keeps v (g.keeps v m);
    covers = λ v c. elim c [ inl p ↦ k.keeps v (g.covers v p) | inr q ↦ k.covers v q ];
    new = λ v m. elim (k.new v m) [
      | inl old ↦ elim (g.new v old) [ inl older ↦ inl older | inr q ↦ inr (k.queued v q) ]
      | inr q ↦ inr q
    ];
    queued = λ v m. k.queued v (g.queued v m);
    next = λ v m. elim (k.next v m) [
      | inl q ↦ elim (g.next v q) [ inl old ↦ inl old | inr p ↦ inr (inl p) ]
      | inr q ↦ inr (inr q)
    ];
    count = k.count ∙ g.count;
    not_end = λ c. elim c [ inl p ↦ g.not_end p | inr q ↦ k.not_end q ];
  }

  Grown-same :
      {P Q : ℕ → Type 0} {vis vis' : List Bool} {nx nx' : List ℕ}
      → ((v : ℕ) → P v → Q v)
      → ((v : ℕ) → Q v → P v)
      → Grown end P vis nx vis' nx'
      → Grown end Q vis nx vis' nx'
  Grown-same to from g = record {
    size = g.size;
    keeps = g.keeps;
    covers = λ v q. g.covers v (from v q);
    new = g.new;
    queued = g.queued;
    next = λ v m. elim (g.next v m) [ inl old ↦ inl old | inr p ↦ inr (to v p) ];
    count = g.count;
    not_end = λ q. g.not_end (from end q);
  }

  pub Ok-then :
      {P : ℕ → Type 0} (Q : ℕ → Type 0) {vis vis' : List Bool} {nx nx' : List ℕ} (o : Outcome)
      → Grown end P vis nx vis' nx'
      → Ok end Q vis' nx' o
      → Ok end (λ v. P v ⊎ Q v) vis nx o
  Ok-then Q found g q = inr q
  Ok-then Q (continues vis'' nx'') g k = Grown-then g k

  pub Ok-same :
      (P Q : ℕ → Type 0) (vis : List Bool) (nx : List ℕ) (o : Outcome)
      → ((v : ℕ) → P v → Q v)
      → ((v : ℕ) → Q v → P v)
      → Ok end P vis nx o
      → Ok end Q vis nx o
  Ok-same P Q vis nx found to from p = to end p
  Ok-same P Q vis nx (continues vis' nx') to from g = Grown-same to from g
