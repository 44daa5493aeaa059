-- ===== src/Pq/Heap.antt =====
-- Heap order in a vector, for a comparator and a degree. `Up` and `Down` show that the two sifting
-- loops restore it.
pub mod Up
pub mod Down
use wt_lab_efficient_paral.Common.{
  ℕ, ◌<◌, ◌≡◌, ◌≢◌, Bool, false, List, some, Perm, length, get_elem?,
}
use wt_lab_efficient_paral.Pq.Tree.{parent}

module _ {A : Type 0} (comp : A → A → Bool) (degree : ℕ) where
  -- No entry comes before its parent.
  abbrev pub IsHeap : List A → Type 0
  IsHeap a =
      (c : ℕ) (x y : A)
      → 0 < c
      → get_elem? a (parent degree c) ≡ some x
      → get_elem? a c ≡ some y
      → comp x y ≡ false

  -- The children of `i` and the parent of `i` are in order.
  abbrev pub IsBridged : List A → ℕ → Type 0
  IsBridged a i =
      (c : ℕ) (x y : A)
      → 0 < c
      → parent degree c ≡ i
      → 0 < i
      → get_elem? a (parent degree i) ≡ some x
      → get_elem? a c ≡ some y
      → comp x y ≡ false

  -- Only the edge above `i` may be out of order.
  pub record UpInv (a : List A) (i : ℕ) : Type 0 where
    pub inside : i < length a
    pub edges :
        (c : ℕ) (x y : A)
        → 0 < c
        → c ≢ i
        → get_elem? a (parent degree c) ≡ some x
        → get_elem? a c ≡ some y
        → comp x y ≡ false
    pub bridged : IsBridged a i

  -- Only the edges below `i` may be out of order.
  pub record DownInv (a : List A) (i : ℕ) : Type 0 where
    pub inside : i < length a
    pub edges :
        (c : ℕ) (x y : A)
        → 0 < c
        → parent degree c ≢ i
        → get_elem? a (parent degree c) ≡ some x
        → get_elem? a c ≡ some y
        → comp x y ≡ false
    pub bridged : IsBridged a i

  -- `b` is a heap of the entries of `a`.
  abbrev pub Sifted : List A → List A → Type 0
  Sifted a b = IsHeap b × Perm b a
