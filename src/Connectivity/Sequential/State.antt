-- ===== src/Connectivity/Sequential/State.antt =====
-- What the arrays of the sequential union-find have to be, and that the new ones are.
use wt_lab_efficient_paral.Common.{
  ℕ, zero, suc, ◌+◌, ◌≡◌, refl, sym, ap, ◌∙◌, ◌⊎◌, true, List, some, get_elem?, replicate, length,
  ◌==◌, arith, get_elem?-lt, get_elem?-replicate, replicate-entry, length-replicate,
}
use wt_lab_efficient_paral.Connectivity.Joined.{Joined, edge, Joined-map, Edge}
use wt_lab_efficient_paral.Connectivity.Concurrent.{ℤ, negsuc}
use wt_lab_efficient_paral.Connectivity.Concurrent.Forest.{parent, IsForest, IsSound}
use wt_lab_efficient_paral.Connectivity.Sequential.{count_up}
use wt_lab_efficient_paral.Connectivity.Sequential.View.{View}

-- The relation with one more edge.
abbrev pub And : ℕ → ℕ → (ℕ → ℕ → Type 0) → ℕ → ℕ → Type 0
And from to R a b = ((a ≡ from) × (b ≡ to)) ⊎ R a b

-- The arrays are a forest of `n` nodes that joins what `R` asks for, and nothing else.
pub record IsValid (n : ℕ) (R : ℕ → ℕ → Type 0) (parents ranks : List ℕ) : Type 0 where
  pub m : List ℤ
  pub rank : ℕ → ℕ
  pub view : View parents ranks m
  pub forest : IsForest m rank
  pub sound : IsSound R m
  pub holds : (a b : ℕ) → R a b → Joined (Edge (parent m)) a b
  pub size : length m ≡ n

pub IsValid-same :
    (n : ℕ) (R S : ℕ → ℕ → Type 0) (parents ranks : List ℕ)
    → ((a b : ℕ) → R a b → S a b)
    → ((a b : ℕ) → S a b → R a b)
    → IsValid n R parents ranks
    → IsValid n S parents ranks
IsValid-same n R S parents ranks to from v = record {
  m = v.m;
  rank = v.rank;
  view = v.view;
  forest = v.forest;
  sound = λ x p h. Joined-map (λ a b e. edge (to a b e)) (v.sound x p h);
  holds = λ a b s. v.holds a b (from a b s);
  size = v.size;
}

pub count_up-entry :
    (rounds first x p : ℕ) → get_elem? (count_up rounds first) x ≡ some p → p ≡ first + x
count_up-entry zero first x p h = cc
count_up-entry (suc rounds) first zero p h = let e : first ≡ p = cc in omega arith
count_up-entry (suc rounds) first (suc x) p h =
    omega (arith, count_up-entry rounds (first + 1) x p h)

pub length-count_up : (rounds first : ℕ) → length (count_up rounds first) ≡ rounds
length-count_up zero first = refl
length-count_up (suc rounds) first = ap suc (length-count_up rounds (first + 1))

pub start-IsValid : (n : ℕ) → IsValid n (λ a b. ⊥) (count_up n 0) (replicate n 0)
start-IsValid n =
    let len_m = length-replicate n (negsuc 0) in
    record {
      m = replicate n (negsuc 0);
      rank = λ x. 1;
      view = record {
        size = length-count_up n 0 ∙ sym len_m;
        size_ranks = length-replicate {A = ℕ} n 0 ∙ sym len_m;
        child = λ x p h ne. absurd (ne (count_up-entry n 0 x p h ∙ omega arith));
        root = λ x r h at_r.
            let inside = get_elem?-lt (count_up n 0) x h in
            let zero_rank = replicate-entry n x 0 at_r in
            rw zero_rank (get_elem?-replicate n x (negsuc 0) (omega (arith, length-count_up n 0)));
      };
      forest = record {
        root = λ x r h. let e = replicate-entry n x (negsuc 0) h in cc;
        up = λ x q h. let e = replicate-entry n x (negsuc 0) h in cc;
      };
      sound = λ x q h. let e = replicate-entry n x (negsuc 0) h in cc;
      holds = λ a b f. absurd f;
      size = len_m;
    }

pub ==_equal : (a b : ℕ) → (a == b) ≡ true → a ≡ b
==_equal a b t = ground arith

pub equal_== : (a b : ℕ) → a ≡ b → (a == b) ≡ true
equal_== a b e = ground arith
