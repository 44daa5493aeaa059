-- ===== src/Pq/Order.antt =====
-- What a priority queue asks of its comparator, `std::less` unless the client gives another: the
-- C++ requirement of a strict weak ordering. `comp x y` says that `x` comes after `y` in the queue.
use wt_lab_efficient_paral.Common.{◌≡◌, Bool, true, false, Bool-cases, inl, inr}

pub record StrictWeak {ℓ} {A : Type ℓ} (comp : A → A → Bool) : Type ℓ where
  pub asym : (x y : A) → comp x y ≡ true → comp y x ≡ false
  pub neg_trans : (x y z : A) → comp x y ≡ false → comp y z ≡ false → comp x z ≡ false

module _ {ℓ} {A : Type ℓ} {comp : A → A → Bool} (order : StrictWeak comp) where
  pub irrefl : (x : A) → comp x x ≡ false
  irrefl x = elim (Bool-cases (comp x x)) [ inl e ↦ order.asym x x e | inr e ↦ e ]
