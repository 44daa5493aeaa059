-- ===== src/Common/Family.antt =====
-- Families `ℕ → A` indexed by thread, the update at one index, and sums over the first threads.
use mathlib.Core.Path.{◌≡◌, refl, ap}
use Prim.Native.Nat.{ℕ, zero, suc, ◌+◌, ◌<◌, ◌≤◌}
use mathlib.Core.Logic.{◌≢◌}
use native.Mathlib.Decide.{ℕ_discrete}
use native.Mathlib.Omega.{arith}
use wt_lab_efficient_paral.Common.Tests.{◌==◌, if◌then◌else◌}

module _ {ℓ} {A : Type ℓ} where
  abbrev pub update : (ℕ → A) → ℕ → A → ℕ → A
  update f i a j = if i == j then a else f j

  pub update_self : (f : ℕ → A) (i : ℕ) (a : A) → update f i a i ≡ a
  update_self f i a = ground arith

  pub update_other : (f : ℕ → A) (i j : ℕ) (a : A) → i ≢ j → update f i a j ≡ f j
  update_other f i j a apart = ground arith

abbrev pub sum : (ℕ → ℕ) → ℕ → ℕ
sum f zero = 0
sum f (suc n) = f n + sum f n

pub sum-at : (f : ℕ → ℕ) (n i : ℕ) → i < n → f i ≤ sum f n
sum-at f zero i h = absurd (omega arith)
sum-at f (suc n) i h = elim (ℕ_discrete i n) [
  | yes e ↦ rw e (omega arith)
  | no ne ↦ omega (arith, sum-at f n i (omega arith))
]

pub sum_zero : (f : ℕ → ℕ) (n : ℕ) → ((i : ℕ) → i < n → f i ≡ 0) → sum f n ≡ 0
sum_zero f zero h = refl
sum_zero f (suc n) h = omega (arith, h n (omega arith), sum_zero f n (λ i lt. h i (omega arith)))

pub sum-le : (f g : ℕ → ℕ) (n : ℕ) → ((i : ℕ) → f i ≤ g i) → sum f n ≤ sum g n
sum-le f g zero h = omega arith
sum-le f g (suc n) h = omega (arith, h n, sum-le f g n h)

pub sum_ones : (n : ℕ) → sum (λ i. 1) n ≡ n
sum_ones zero = refl
sum_ones (suc n) = omega (arith, sum_ones n)

module _ (f g : ℕ → ℕ) (i : ℕ) (same : (j : ℕ) → i ≢ j → g j ≡ f j) where
  sum-change_above : (n : ℕ) → n ≤ i → sum g n ≡ sum f n
  sum-change_above zero h = refl
  sum-change_above (suc n) h =
      omega (arith, same n (λ e. omega arith), sum-change_above n (omega arith))

  -- A change of one summand changes the sum by the difference.
  pub sum-change : (n : ℕ) → i < n → sum g n + f i ≡ sum f n + g i
  sum-change zero h = absurd (omega arith)
  sum-change (suc n) h = elim (ℕ_discrete i n) [
    | yes e ↦ rw (← e) (omega (arith, sum-change_above i (omega arith)))
    | no ne ↦ omega (arith, same n ne, sum-change n (omega arith))
  ]

pub sum-update {ℓ} :
    {A : Type ℓ} (weight : A → ℕ) (f : ℕ → A) (i : ℕ) (a : A) (n : ℕ)
    → i < n
    → sum (λ j. weight (update f i a j)) n + weight (f i) ≡ sum (λ j. weight (f j)) n + weight a
sum-update weight f i a n h = rw (ap weight (update_self f i a)) at (
    sum-change (λ j. weight (f j)) (λ j. weight (update f i a j)) i
      (λ j ne. ap weight (update_other f i j a ne)) n h)
