-- ===== src/Common/Lists.antt =====
-- Vectors as lists under native indices: reads, writes and exchanges, with `none` for a read that
-- C++ leaves undefined.
use mathlib.Core.Logic.{◌≢◌, ∥∥₁_elim}
use native.Mathlib.Nat.{ℕ_set}
use Prim.Native.Nat.{ℕ, zero, suc, ◌+◌, ◌<◌}
use mathlib.Core.Path.{◌≡◌, refl, ap, ◌∙◌}
use mathlib.Core.Option.{Option, none, some}
use mathlib.Core.List.{List, [], ◌∷◌, ◌++◌, Perm, Permᴰ, perm_middle, append-nil}
use mathlib.Core.List.Perm
use native.Mathlib.Omega.{arith}
use wt_lab_efficient_paral.Common.Tests.{◌==◌, if◌then◌else◌}

module _ {ℓ} {A : Type ℓ} where
  abbrev pub length : List A → ℕ
  length [] = 0
  length (x ∷ xs) = suc (length xs)

  abbrev pub get_elem? : List A → ℕ → Option A
  get_elem? [] i = none
  get_elem? (x ∷ xs) zero = some x
  get_elem? (x ∷ xs) (suc i) = get_elem? xs i

  -- A write out of bounds changes nothing.
  abbrev pub set : List A → ℕ → A → List A
  set [] i v = []
  set (x ∷ xs) zero v = v ∷ xs
  set (x ∷ xs) (suc i) v = x ∷ set xs i v

  abbrev pub take : ℕ → List A → List A
  take zero xs = []
  take (suc n) [] = []
  take (suc n) (x ∷ xs) = x ∷ take n xs

  abbrev pub replicate : ℕ → A → List A
  replicate zero a = []
  replicate (suc n) a = a ∷ replicate n a

  pub length-append : (xs ys : List A) → length (xs ++ ys) ≡ length xs + length ys
  length-append [] ys = omega arith
  length-append (x ∷ xs) ys = omega (arith, length-append xs ys)

  pub length-set : (xs : List A) (i : ℕ) (v : A) → length (set xs i v) ≡ length xs
  length-set [] i v = refl
  length-set (x ∷ xs) zero v = refl
  length-set (x ∷ xs) (suc i) v = ap suc (length-set xs i v)

  pub length-replicate : (n : ℕ) (a : A) → length (replicate n a) ≡ n
  length-replicate zero a = refl
  length-replicate (suc n) a = ap suc (length-replicate n a)

  pub length-take : (n : ℕ) (xs : List A) → n < suc (length xs) → length (take n xs) ≡ n
  length-take zero xs h = refl
  length-take (suc n) [] h = absurd (omega arith)
  length-take (suc n) (x ∷ xs) h = ap suc (length-take n xs (omega arith))

  pub get_elem?-lt : (xs : List A) (i : ℕ) {x : A} → get_elem? xs i ≡ some x → i < length xs
  get_elem?-lt [] i h = cc
  get_elem?-lt (x ∷ xs) zero h = omega arith
  get_elem?-lt (x ∷ xs) (suc i) h = omega (arith, get_elem?-lt xs i h)

  pub get_elem?-some : (xs : List A) (i : ℕ) → i < length xs → (x : A) × (get_elem? xs i ≡ some x)
  get_elem?-some [] i h = absurd (omega arith)
  get_elem?-some (x ∷ xs) zero h = (x, refl)
  get_elem?-some (x ∷ xs) (suc i) h = get_elem?-some xs i (omega arith)

  pub get_elem?-set :
      (xs : List A) (i j : ℕ) (v : A)
      → i < length xs
      → get_elem? (set xs i v) j ≡ (if i == j then some v else get_elem? xs j)
  get_elem?-set [] i j v h = absurd (omega arith)
  get_elem?-set (x ∷ xs) zero zero v h = refl
  get_elem?-set (x ∷ xs) (suc i) (suc j) v h = ground (arith, get_elem?-set xs i j v)
  get_elem?-set (x ∷ xs) i j v h = ground arith

  pub get_elem?-set_other :
      (xs : List A) (i j : ℕ) (v : A) → i ≢ j → get_elem? (set xs i v) j ≡ get_elem? xs j
  get_elem?-set_other [] i j v ne = refl
  get_elem?-set_other (x ∷ xs) zero zero v ne = absurd (ne refl)
  get_elem?-set_other (x ∷ xs) zero (suc j) v ne = refl
  get_elem?-set_other (x ∷ xs) (suc i) zero v ne = refl
  get_elem?-set_other (x ∷ xs) (suc i) (suc j) v ne =
      get_elem?-set_other xs i j v (λ e. ne (ap suc e))

  pub get_elem?-append :
      (xs : List A) (x : A) (j : ℕ)
      → get_elem? (xs ++ x ∷ []) j ≡ (if j == length xs then some x else get_elem? xs j)
  get_elem?-append [] x zero = refl
  get_elem?-append [] x (suc j) = ground arith
  get_elem?-append (y ∷ xs) x zero = ground arith
  get_elem?-append (y ∷ xs) x (suc j) = ground (arith, get_elem?-append xs x j)

  pub get_elem?-take :
      (n : ℕ) (xs : List A) (i : ℕ) {x : A}
      → get_elem? (take n xs) i ≡ some x
      → (i < n) × (get_elem? xs i ≡ some x)
  get_elem?-take zero xs i h = cc
  get_elem?-take (suc n) [] i h = cc
  get_elem?-take (suc n) (y ∷ xs) zero h = (omega arith, h)
  get_elem?-take (suc n) (y ∷ xs) (suc i) h =
      let (lt, e) = get_elem?-take n xs i h in (omega arith, e)

  pub get_elem?-replicate : (n i : ℕ) (a : A) → i < n → get_elem? (replicate n a) i ≡ some a
  get_elem?-replicate zero i a h = absurd (omega arith)
  get_elem?-replicate (suc n) zero a h = refl
  get_elem?-replicate (suc n) (suc i) a h = get_elem?-replicate n i a (omega arith)

  pub replicate-entry : (n i : ℕ) (a : A) {x : A} → get_elem? (replicate n a) i ≡ some x → x ≡ a
  replicate-entry zero i a h = cc
  replicate-entry (suc n) zero a h = cc
  replicate-entry (suc n) (suc i) a h = replicate-entry n i a h

module _ {ℓ} {A : Type ℓ} where
  same_length : {xs ys : List A} → Permᴰ xs ys → length xs ≡ length ys
  same_length (Permᴰ.trans left right) = omega (arith, same_length left, same_length right)
  same_length (Permᴰ.swap x y) = omega arith
  same_length (Permᴰ.cons x rest) = omega (arith, same_length rest)
  same_length Permᴰ.nil = omega arith

  pub length-perm : {xs ys : List A} → Perm xs ys → length xs ≡ length ys
  length-perm perm = ∥∥₁_elim perm (ℕ_set _ _) same_length

  pub append-perm : (a : List A) (x : A) → Perm (a ++ x ∷ []) (x ∷ a)
  append-perm a x = rw (append-nil a) at (perm_middle {a = x} a [])

  pub take-append-last :
      (n : ℕ) (a : List A) (x : A)
      → length a ≡ suc n
      → get_elem? a n ≡ some x
      → take n a ++ x ∷ [] ≡ a
  take-append-last zero (y ∷ []) x h e = cc
  take-append-last zero (y ∷ z ∷ a) x h e = absurd (omega arith)
  take-append-last zero [] x h e = absurd (omega arith)
  take-append-last (suc n) [] x h e = absurd (omega arith)
  take-append-last (suc n) (y ∷ a) x h e = ap (◌∷◌ y) (take-append-last n a x (omega arith) e)

  -- A write trades the old entry for the new one.
  pub set-perm :
      (a : List A) (i : ℕ) (v : A) {x : A} → get_elem? a i ≡ some x → Perm (x ∷ set a i v) (v ∷ a)
  set-perm [] i v e = cc
  set-perm (y ∷ a) zero v {x} e = let same : y ≡ x = cc in rw (← same) (Perm.swap v y a)
  set-perm (y ∷ a) (suc i) v {x} e =
      let rest = Perm.cons y (set-perm a i v e) in
      Perm.trans (Perm.swap y x _) (Perm.trans rest (Perm.swap v y a))

  -- `std::swap(a[i], a[j])`, with the two values read.
  module _ (a : List A) (i j : ℕ) (x y : A) where
    module _ (at_i : get_elem? a i ≡ some x) (at_j : get_elem? a j ≡ some y) where
      pub get_elem?-exchange :
          (c : ℕ)
          → get_elem? (set (set a i y) j x) c
            ≡ (if j == c then some x else if i == c then some y else get_elem? a c)
      get_elem?-exchange c =
          let hi = get_elem?-lt a i at_i in
          let hj = get_elem?-lt a j at_j in
          rw (
            get_elem?-set (set a i y) j c x (omega (arith, length-set a i y)),
            get_elem?-set a i c y hi,
          )

      pub exchange-perm : Perm (set (set a i y) j x) a
      exchange-perm =
          let hi = get_elem?-lt a i at_i in
          let kept : get_elem? (set a i y) j ≡ some y = ground (arith, get_elem?-set a i j y) in
          Perm.cons_inv (Perm.trans (set-perm (set a i y) j x kept) (set-perm a i y at_i))

      pub length-exchange : length (set (set a i y) j x) ≡ length a
      length-exchange = length-set (set a i y) j x ∙ length-set a i y
