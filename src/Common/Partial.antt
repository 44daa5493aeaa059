-- ===== src/Common/Partial.antt =====
-- Code that may fault: `none` stands for a failed `assert`, an access that C++ leaves undefined, or
-- a loop that has used up the model's fuel.
use Prim.Native.Nat.{ℕ}
use mathlib.Core.Path.{◌≡◌, refl}
use mathlib.Core.Bool.{Bool, true, false}
use mathlib.Core.Option.{Option, none, some}
use mathlib.Core.List.{List}
use wt_lab_efficient_paral.Common.Tests.{if◌then◌else◌}
use wt_lab_efficient_paral.Common.Lists.{get_elem?, set}

infixl 5 ◌>>=◌ ◌>>◌
abbrev pub ◌>>=◌ {ℓ κ} : {A : Type ℓ} {B : Type κ} → Option A → (A → Option B) → Option B
none >>= f = none
some a >>= f = f a

abbrev pub ◌>>◌ {κ} : {B : Type κ} → Option (Unit {0}) → Option B → Option B
m >> k = m >>= λ _. k

abbrev pub assert : Bool → Option (Unit {0})
assert true = some tt
assert false = none

-- `std::swap(a[i], a[j])`
abbrev pub swap {ℓ} : {A : Type ℓ} → List A → ℕ → ℕ → Option (List A)
swap a i j = do x ← get_elem? a i; y ← get_elem? a j; some (set (set a i y) j x)

-- The code ends without a fault, in a value for which `P` holds.
pub data Ends {ℓ κ} {A : Type ℓ} (P : A → Type κ) : Option A → Type (ℓ ⊔ κ) where
  ends : {a : A} → P a → Ends P (some a)

module _ {ℓ κ} {A : Type ℓ} {P : A → Type κ} where
  pub Ends-weaken {κ'} :
      {Q : A → Type κ'} {o : Option A} → Ends P o → ((a : A) → P a → Q a) → Ends Q o
  Ends-weaken (ends p) imp = ends (imp _ p)

  pub Ends->>= {ℓ' κ'} :
      {B : Type ℓ'} {Q : B → Type κ'} {o : Option A} {f : A → Option B}
      → Ends P o
      → ((a : A) → P a → Ends Q (f a))
      → Ends Q (o >>= f)
  Ends->>= (ends p) go_on = go_on _ p

  pub Ends-split :
      {o o' : Option A} (test : Bool)
      → (test ≡ true → Ends P o)
      → (test ≡ false → Ends P o')
      → Ends P (if test then o else o')
  Ends-split true left right = left refl
  Ends-split false left right = right refl

  pub Ends-value : {o : Option A} → Ends P o → (a : A) × (o ≡ some a) × P a
  Ends-value (ends p) = (_, refl, p)

  pub Ends-of : {o : Option A} (a : A) → o ≡ some a → P a → Ends P o
  Ends-of a e p = rw e (ends p)

  -- Code that ends has a first step that ends.
  pub Ends-bind {ℓ'} :
      {B : Type ℓ'} {o : Option B} {f : B → Option A}
      → Ends P (o >>= f)
      → (b : B) × (o ≡ some b) × Ends P (f b)
  Ends-bind {o = none} h = elim h [ ]
  Ends-bind {o = some b} h = (b, refl, h)
