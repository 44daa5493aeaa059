-- ===== src/Tasks/Tree/Trees.antt =====
-- exercise4/implementation/tree.hpp: what the arrays of a rooted tree satisfy, and a state in which
-- every node whose parent is done is done itself.
use native.Mathlib.Decide.{ℕ_discrete}
use wt_lab_efficient_paral.Common.{
  ℕ, zero, suc, ◌+◌, ◌≤◌, ◌<◌, ◌≡◌, ◌≢◌, refl, ap, ◌∙◌, Bool, true, false, List, [], ◌∷◌, ◌++◌,
  Option, none, some, get_elem?, set, length, arith, ◌==◌, if◌then◌else◌, get_elem?-set,
  get_elem?-lt, replicate,
}
use wt_lab_efficient_paral.Tasks.Tree.{TreeTask, children, evaluate_loop, evaluate, fresh}

-- How often `x` stands in a list.
abbrev pub count : ℕ → List ℕ → ℕ
count x [] = 0
count x (y ∷ ys) = (if x == y then 1 else 0) + count x ys

-- Parents lead from a node to the dummy.
pub data Under (t : TreeTask) : ℕ → Type 0 where
  root : {x : ℕ} → get_elem? t.parent x ≡ some t.n → Under t x
  below : {x p : ℕ} → get_elem? t.parent x ≡ some p → Under t p → Under t x

-- The arrays are those of a tree with root 0.
pub record IsTree (t : TreeTask) : Type 0 where
  pub root_parent : get_elem? t.parent 0 ≡ some t.n
  pub only_root : (x : ℕ) → get_elem? t.parent x ≡ some t.n → x ≡ 0
  pub parents : (x p : ℕ) → get_elem? t.parent x ≡ some p → p ≤ t.n
  pub size : length t.parent ≡ t.n
  pub under : (x : ℕ) → x < t.n → Under t x
  pub rows : (p : ℕ) → p < t.n → (cs : List ℕ) × (children t p ≡ some cs)
  pub once :
      (p x q : ℕ) (cs : List ℕ)
      → children t p ≡ some cs
      → p < t.n
      → get_elem? t.parent x ≡ some q
      → count x cs ≡ (if q == p then 1 else 0)
  pub inside : (p x : ℕ) (cs : List ℕ) → children t p ≡ some cs → p < t.n → t.n ≤ x → count x cs ≡ 0

-- 1 for an entry that is true.
abbrev pub bit : Option Bool → ℕ
bit none = 0
bit (some true) = 1
bit (some false) = 0

abbrev pub bit_at : List Bool → ℕ → ℕ
bit_at done x = bit (get_elem? done x)

pub bit-true : (done : List Bool) (x : ℕ) → bit_at done x ≡ 1 → get_elem? done x ≡ some true
bit-true done x h = ground arith

pub bit_at-set :
    (done : List Bool) (i x : ℕ)
    → i < length done
    → bit_at (set done i true) x ≡ (if i == x then 1 else bit_at done x)
bit_at-set done i x h = ground (arith, get_elem?-set done i x true h)

abbrev pub total : List Bool → ℕ
total [] = 0
total (b ∷ bs) = bit (some b) + total bs

pub total-set :
    (done : List Bool) (i : ℕ)
    → get_elem? done i ≡ some false
    → total (set done i true) ≡ total done + 1
total-set [] i h = cc
total-set (b ∷ bs) zero h = ground arith
total-set (b ∷ bs) (suc i) h = omega (arith, total-set bs i h)

module _ (t : TreeTask) (v : IsTree t) (done : List Bool) where
  -- All nodes are done once each whose parent is done is done.
  pub all_done :
      get_elem? done t.n ≡ some true
      → ((x p : ℕ) → get_elem? t.parent x ≡ some p → bit_at done x ≡ bit_at done p)
      → (x : ℕ) → x < t.n
      → get_elem? done x ≡ some true
  all_done dummy closed x h = go (v.under x h)
    where
      go : {x : ℕ} → Under t x → get_elem? done x ≡ some true
      go (root {x = x} e) = bit-true done x (ground (arith, closed x t.n e))
      go (below {x = x} {p = p} e u) =
          let up = go u in bit-true done x (ground (arith, closed x p e))

  -- A node that had to be worked on is done now, and its children have to be.
  pub issue :
      {p : ℕ} {cs : List ℕ}
      → p < t.n
      → get_elem? done p ≡ some false
      → children t p ≡ some cs
      → (x q before after : ℕ) → get_elem? t.parent x ≡ some q
      → before + bit_at done x ≡ bit_at done q
      → after + (if x == p then 1 else 0) ≡ before + count x cs
      → after + bit_at (set done p true) x ≡ bit_at (set done p true) q
  issue {p} {cs} p_in not_done at_p x q before after at_x balance change =
      let inside = get_elem?-lt done p not_done in
      ground (
        arith,
        bit_at-set done p x inside,
        bit_at-set done p q inside,
        v.once p x q cs at_p p_in at_x,
      )

pub evaluate_loop-true :
    (done : List Bool) (rounds i : ℕ)
    → ((x : ℕ) → x < i + rounds → get_elem? done x ≡ some true)
    → evaluate_loop rounds i done ≡ some true
unfolding evaluate_loop
evaluate_loop-true done zero i h = refl
evaluate_loop-true done (suc rounds) i h =
    rw (h i (omega arith)) (evaluate_loop-true done rounds (i + 1) (λ x lt. h x (omega arith)))

module _ (t : TreeTask) where
  -- `evaluate` returns true once all nodes are done.
  pub evaluate-true :
      (done : List Bool)
      → ((x : ℕ) → x < t.n → get_elem? done x ≡ some true)
      → evaluate t done ≡ some true
  unfolding evaluate
  evaluate-true done h = evaluate_loop-true done t.n 0 (λ x lt. h x (omega arith))

-- The start, where only the dummy is done.
pub fresh-false : (n x : ℕ) → x < n → get_elem? (replicate n false ++ true ∷ []) x ≡ some false
fresh-false zero x h = absurd (omega arith)
fresh-false (suc n) zero h = refl
fresh-false (suc n) (suc x) h = fresh-false n x (omega arith)

pub fresh-dummy : (n : ℕ) → get_elem? (replicate n false ++ true ∷ []) n ≡ some true
fresh-dummy zero = refl
fresh-dummy (suc n) = fresh-dummy n

pub length-fresh : (n : ℕ) → length (replicate n false ++ true ∷ []) ≡ n + 1
length-fresh zero = refl
length-fresh (suc n) = omega (arith, length-fresh n)

pub total-fresh : (n : ℕ) → total (replicate n false ++ true ∷ []) ≡ 1
total-fresh zero = refl
total-fresh (suc n) = omega (arith, total-fresh n)

pub total-bound : (done : List Bool) → total done ≤ length done
total-bound [] = omega arith
total-bound (true ∷ bs) = omega (arith, total-bound bs)
total-bound (false ∷ bs) = omega (arith, total-bound bs)

pub total-all :
    (done : List Bool)
    → ((x : ℕ) → x < length done → get_elem? done x ≡ some true)
    → total done ≡ length done
total-all [] h = refl
total-all (b ∷ bs) h =
    let first = h 0 (omega arith) in
    let rest = total-all bs (λ x lt. h (suc x) (omega arith)) in ground arith

-- A list that has an element has it once more than what stands after it.
pub count_self : (x : ℕ) (xs : List ℕ) → count x (x ∷ xs) ≡ count x xs + 1
count_self x xs = ground arith

module _ (t : TreeTask) (v : IsTree t) where
  pub root_inside : 0 < t.n
  root_inside = omega (arith, get_elem?-lt t.parent 0 v.root_parent, v.size)

  -- At the start only the root has to be worked on.
  pub fresh_balance :
      (x q : ℕ)
      → get_elem? t.parent x ≡ some q
      → (if x == 0 then 1 else 0) + bit_at (fresh t) x ≡ bit_at (fresh t) q
  fresh_balance x q at_x =
      let x_in = get_elem?-lt t.parent x at_x in
      let at_fresh = fresh-false t.n x (omega (arith, v.size)) in
      elim (ℕ_discrete x 0) [
        | yes e ↦
            let same : q ≡ t.n = ground (arith, v.root_parent) in
            rw (at_fresh, same, fresh-dummy t.n) (ground arith)
        | no ne ↦
            let apart : q ≢ t.n = λ e. ne (v.only_root x (at_x ∙ ap some e)) in
            let below_n = v.parents x q at_x in
            let at_q = fresh-false t.n q (omega (arith, below_n, apart)) in
            rw (at_fresh, at_q) (ground arith)
      ]

pub total_full :
    (done : List Bool)
    → total done ≡ length done
    → (x : ℕ) → x < length done
    → get_elem? done x ≡ some true
total_full [] e x h = absurd (omega arith)
total_full (true ∷ bs) e zero h = refl
total_full (true ∷ bs) e (suc x) h = total_full bs (omega arith) x (omega arith)
total_full (false ∷ bs) e x h = absurd (omega (arith, total-bound bs))
