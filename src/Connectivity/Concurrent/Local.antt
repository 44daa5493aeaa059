-- ===== src/Connectivity/Concurrent/Local.antt =====
-- What a thread of the concurrent union-find may rely on, whatever the others do.
use wt_lab_efficient_paral.Common.{
  ℕ, ◌≤◌, ◌<◌, ◌≡◌, ◌⊎◌, inr, true, false, List, [], ◌∷◌, ◌++◌, some, length, arith,
}
use wt_lab_efficient_paral.Connectivity.Joined.{Joined, Less, Edge, EdgeAbove}
use wt_lab_efficient_paral.Connectivity.Concurrent.{
  ℤ, Job, Next, then_link, Query, then_check, Pc, idle, find, compress, link, raise, look, check,
  Event, requested, united, answered,
}
use wt_lab_efficient_paral.Connectivity.Concurrent.Forest.{parent, Extends}

-- The edges that a call of `unite` was started with.
abbrev pub Asked : List Event → ℕ → ℕ → Type 0
Asked [] x y = ⊥
Asked (requested (a, b) ∷ log) x y = ((x ≡ a) × (y ≡ b)) ⊎ Asked log x y
Asked (united job flag ∷ log) x y = Asked log x y
Asked (answered job flag ∷ log) x y = Asked log x y

pub Asked-append : (events log : List Event) (x y : ℕ) → Asked log x y → Asked (events ++ log) x y
Asked-append [] log x y h = h
Asked-append (requested job ∷ events) log x y h = inr (Asked-append events log x y h)
Asked-append (united job flag ∷ events) log x y h = Asked-append events log x y h
Asked-append (answered job flag ∷ events) log x y h = Asked-append events log x y h

-- The forest joins two nodes.
abbrev pub Joins : List ℤ → ℕ → ℕ → Type 0
Joins m u v = Joined (Edge (parent m)) u v

-- What calls returned holds of the forest.
abbrev pub Holds : List ℤ → List Event → Type 0
Holds m [] = Unit
Holds m (requested job ∷ log) = Holds m log
Holds m (united job flag ∷ log) = Joins m job.0 job.1 × Holds m log
Holds m (answered job true ∷ log) = Joins m job.0 job.1 × Holds m log
Holds m (answered job false ∷ log) = Holds m log

module _ (m : List ℤ) (rank : ℕ → ℕ) where
  -- A node that waits with its old parent `p` lies below `top`, to which edges above it lead from `p`.
  pub record Entry (top x p : ℕ) : Type 0 where
    pub q : ℕ
    pub child : parent m x ≡ some q
    pub less : Less rank x top
    pub above : Joined (EdgeAbove rank (parent m) x) p top

  abbrev pub Stack : ℕ → List (ℕ × ℕ) → Type 0
  Stack top [] = Unit
  Stack top ((x, p) ∷ stack) = Entry top x p × Stack top stack

  -- A rank that was read, as the source asserts.
  abbrev pub IsRank : ℕ → ℕ → Type 0
  IsRank r x = (1 ≤ r) × (r ≤ rank x)

  abbrev pub OfNext : Job → ℕ → Next → Type 0
  OfNext job top (Next.then_b b) = Joins m job.0 top × Joins m job.1 b × (b < length m)
  OfNext job top (then_link a rank_a) =
      Joins m job.0 a × Joins m job.1 top × (a < length m) × IsRank rank_a a

  abbrev pub Local : List Event → Pc → Type 0
  Local log idle = Unit
  Local log (find job node stack next) =
      Asked log job.0 job.1 × (node < length m) × Stack node stack × OfNext job node next
  Local log (compress job root r stack next) =
      Asked log job.0 job.1
      × (root < length m)
      × IsRank r root
      × Stack root stack
      × OfNext job root next
  Local log (link job a rank_a b rank_b) =
      Asked log job.0 job.1
      × Joins m job.0 a
      × Joins m job.1 b
      × (a < length m)
      × (b < length m)
      × IsRank rank_a a
      × IsRank rank_b b
  Local log (raise job root r) = (1 ≤ r) × Joins m job.0 job.1
  Local log (look job node (Query.then_b b)) = Joins m job.0 node × Joins m job.1 b
  Local log (look job node (then_check a)) = Joins m job.0 a × Joins m job.1 node
  Local log (check job a b) = Joins m job.0 a × Joins m job.1 b

-- All of it is stable.
module _ (m : List ℤ) (rank : ℕ → ℕ) (m' : List ℤ) (rank' : ℕ → ℕ)
    (e : Extends m rank m' rank') where
  Less-extends : (x q y : ℕ) → parent m x ≡ some q → Less rank x y → Less rank' x y
  Less-extends x q y h less = ground (arith, e.fixed x q h, e.grows y)

  Stack-extends :
      (top : ℕ) (stack : List (ℕ × ℕ)) → Stack m rank top stack → Stack m' rank' top stack
  Stack-extends top [] s = tt
  Stack-extends top ((x, p) ∷ stack) (n, s) =
      let (q', child) = e.child x n.q n.child in
      (
        record {
          q = q';
          child = child;
          less = Less-extends x n.q top n.child n.less;
          above = e.above x n.q p top n.child n.above;
        },
        Stack-extends top stack s,
      )

  IsRank-extends : (r x : ℕ) → IsRank m rank r x → IsRank m' rank' r x
  IsRank-extends r x (low, high) = (low, omega (arith, e.grows x))

  OfNext-extends :
      (job : Job) (top : ℕ) (next : Next)
      → OfNext m rank job top next
      → OfNext m' rank' job top next
  OfNext-extends job top (Next.then_b b) (j, k, b_in) =
      (e.joined _ _ j, e.joined _ _ k, omega (arith, e.size))
  OfNext-extends job top (then_link a rank_a) (j, k, a_in, r) =
      (e.joined _ _ j, e.joined _ _ k, omega (arith, e.size), IsRank-extends rank_a a r)

  pub Holds-extends : (log : List Event) → Holds m log → Holds m' log
  Holds-extends [] h = tt
  Holds-extends (requested job ∷ log) h = Holds-extends log h
  Holds-extends (united job flag ∷ log) (j, h) = (e.joined _ _ j, Holds-extends log h)
  Holds-extends (answered job true ∷ log) (j, h) = (e.joined _ _ j, Holds-extends log h)
  Holds-extends (answered job false ∷ log) h = Holds-extends log h

  pub Local-extends :
      (events log : List Event) (p : Pc) → Local m rank log p → Local m' rank' (events ++ log) p
  Local-extends events log idle l = tt
  Local-extends events log (find job node stack next) (asked, inside, s, o) = (
    Asked-append events log _ _ asked,
    omega (arith, e.size),
    Stack-extends node stack s,
    OfNext-extends job node next o,
  )
  Local-extends events log (compress job root r stack next) (asked, inside, up, s, o) = (
    Asked-append events log _ _ asked,
    omega (arith, e.size),
    IsRank-extends r root up,
    Stack-extends root stack s,
    OfNext-extends job root next o,
  )
  Local-extends events log (link job a rank_a b rank_b) (asked, j, k, a_in, b_in, ra, rb) = (
    Asked-append events log _ _ asked,
    e.joined _ _ j,
    e.joined _ _ k,
    omega (arith, e.size),
    omega (arith, e.size),
    IsRank-extends rank_a a ra,
    IsRank-extends rank_b b rb,
  )
  Local-extends events log (raise job root r) (low, j) = (low, e.joined _ _ j)
  Local-extends events log (look job node (Query.then_b b)) (j, k) =
      (e.joined _ _ j, e.joined _ _ k)
  Local-extends events log (look job node (then_check a)) (j, k) = (e.joined _ _ j, e.joined _ _ k)
  Local-extends events log (check job a b) (j, k) = (e.joined _ _ j, e.joined _ _ k)
