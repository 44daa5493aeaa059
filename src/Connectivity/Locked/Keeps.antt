-- ===== src/Connectivity/Locked/Keeps.antt =====
-- dynamic_connectivity_b.cpp: how a step changes the trees, and what the thread that has made it may
-- rely on.
use mathlib.Core.Bool.{false≢true}
use wt_lab_efficient_paral.Common.{ℕ, ◌<◌, ◌≡◌, inl, refl, List, ◌++◌, set, length-set, arith}
use wt_lab_efficient_paral.Connectivity.Joined.{Joined, self, edge, flip}
use wt_lab_efficient_paral.Connectivity.Concurrent.{Job, Event}
use wt_lab_efficient_paral.Connectivity.Concurrent.Local.{Asked}
use wt_lab_efficient_paral.Connectivity.Locked.{
  Memory, Pc, Move, dc_b, then_b, then_pair, link, start_unite, step_up, at_root, at_root_compress,
  compressed, not_compressed, read_parent, lock_node_ok, lock_node_fails, redirects, unlocks_node,
  same_root, start_locking, ordered, swapped, lock_a_ok, lock_a_fails, a_linked, a_root, lock_b_ok,
  lock_b_fails, b_linked, b_root, releases_b, releases_a, links, reads_rank_a, reads_rank_b,
  links_a, links_b, links_tie, raises, unlocks_b, unlocks_a,
}
use wt_lab_efficient_paral.Connectivity.Locked.Locks.{IsRoot}
use wt_lab_efficient_paral.Connectivity.Locked.Trees.{
  Up, IsOrdered, Up-link, Joins-link, link_cases,
}
use wt_lab_efficient_paral.Connectivity.Locked.Local.{
  Holds, Extends, Paired-joined, Paired-flip, Paired-go, Paired-Asked, Local,
}

-- The parents stay, or a root is linked to a smaller node that a call asked to join with it.
pub data Change (R : ℕ → ℕ → Type 0) (parents parents' : List ℕ) : Type 0 where
  none_made : parents' ≡ parents → Change R parents parents'
  linked :
      (a b : ℕ)
      → a < b
      → Up parents b b
      → Joined R b a
      → parents' ≡ set parents b a
      → Change R parents parents'

pub Change-Extends : {R : ℕ → ℕ → Type 0} {ps ps' : List ℕ} → Change R ps ps' → Extends ps ps'
Change-Extends (none_made e) = rw e (record { size = refl; joined = λ j. j })
Change-Extends {ps = ps} (linked a b less root_b j e) =
    rw e (record { size = length-set ps b a; joined = Joins-link ps a b root_b })

pub Change-Up :
    {R : ℕ → ℕ → Type 0} {ps ps' : List ℕ} (P : ℕ → ℕ → Type 0)
    → Change R ps ps'
    → ((a b : ℕ) → a < b → Joined R b a → P b a)
    → ((x p : ℕ) → Up ps x p → P x p)
    → (x p : ℕ) → Up ps' x p
    → P x p
Change-Up P (none_made e) new old x p up = old x p (rw e at up)
Change-Up {ps = ps} P (linked a b less root_b j e) new old x p up =
    link_cases ps a b root_b P old (new a b less j) x p (rw e at up)

module _ (i : ℕ) (log : List Event) where
  pub Move-Change :
      {m m' : Memory} {p p' : Pc} {events : List Event}
      → Move dc_b i m p m' p' events
      → ((x p : ℕ) → Up m.union_find_parents x p → Joined (Asked log) x p)
      → ((job : Job) (a b : ℕ) → p ≡ link job a b → (a < b) × IsRoot m b)
      → Local m.union_find_parents log p
      → Change (Asked log) m.union_find_parents m'.union_find_parents
  Move-Change (start_unite _ _) sound asserts l = none_made refl
  Move-Change (step_up _ _) sound asserts l = none_made refl
  Move-Change (at_root _ _) sound asserts l = none_made refl
  Move-Change (at_root_compress _ _) sound asserts l = none_made refl
  Move-Change (compressed _) sound asserts l = none_made refl
  Move-Change (not_compressed _ _) sound asserts l = none_made refl
  Move-Change (read_parent _) sound asserts l = none_made refl
  Move-Change (lock_node_ok _) sound asserts l = none_made refl
  Move-Change lock_node_fails sound asserts l = none_made refl
  Move-Change redirects sound asserts l = absurd l
  Move-Change unlocks_node sound asserts l = none_made refl
  Move-Change (same_root _) sound asserts l = none_made refl
  Move-Change (start_locking _) sound asserts l = none_made refl
  Move-Change (ordered _) sound asserts l = none_made refl
  Move-Change (swapped _) sound asserts l = none_made refl
  Move-Change (lock_a_ok _) sound asserts l = none_made refl
  Move-Change lock_a_fails sound asserts l = none_made refl
  Move-Change (a_linked _ _) sound asserts l = none_made refl
  Move-Change (a_root _) sound asserts l = none_made refl
  Move-Change (lock_b_ok _) sound asserts l = none_made refl
  Move-Change lock_b_fails sound asserts l = none_made refl
  Move-Change (b_linked _ _) sound asserts l = none_made refl
  Move-Change (b_root _) sound asserts l = none_made refl
  Move-Change releases_b sound asserts l = none_made refl
  Move-Change releases_a sound asserts l = none_made refl
  Move-Change (links {job = job} {a = a} {b = b} _) sound asserts (asked, p) =
      let (less, root_b) = asserts job a b refl in
      linked a b less root_b (flip (Paired-Asked sound asked p)) refl
  Move-Change (reads_rank_a _ _) sound asserts l = none_made refl
  Move-Change (reads_rank_b _) sound asserts l = none_made refl
  Move-Change (links_a _) sound asserts l = absurd l
  Move-Change (links_b _) sound asserts l = absurd l
  Move-Change (links_tie _) sound asserts l = absurd l
  Move-Change (raises _) sound asserts l = none_made refl
  Move-Change unlocks_b sound asserts l = none_made refl
  Move-Change unlocks_a sound asserts l = none_made refl

module _ (i : ℕ) (log : List Event) where
  pub Move-Keeps :
      {m m' : Memory} {p p' : Pc} {events : List Event}
      → Move dc_b i m p m' p' events
      → IsOrdered m.union_find_parents
      → ((job : Job) (a b : ℕ) → p ≡ link job a b → (a < b) × IsRoot m b)
      → Local m'.union_find_parents (events ++ log) p
      → Holds m'.union_find_parents log
      → Local m'.union_find_parents (events ++ log) p' × Holds m'.union_find_parents (events ++ log)
  Move-Keeps (start_unite in_a in_b) is_ordered root_b l h =
      ((inl (refl, refl), record { nodes = inl (self, self); in_a = in_a; in_b = in_b }), h)
  Move-Keeps {m} (step_up {node = x} {p = p} {next = then_b stage b} up ne) is_ordered root_b
        (asked, q) h =
      ((asked, Paired-go (edge up) (omega (arith, is_ordered x p up, q.in_a)) q), h)
  Move-Keeps {m} (step_up {node = x} {p = p} {next = then_pair stage a} up ne) is_ordered root_b
        (asked, q) h =
      (
        (
          asked,
          Paired-flip
              (Paired-go (edge up) (omega (arith, is_ordered x p up, q.in_b)) (Paired-flip q)),
        ),
        h,
      )
  Move-Keeps (at_root {next = then_b stage b} _ _) is_ordered root_b l h = (l, h)
  Move-Keeps (at_root {next = then_pair stage a} _ _) is_ordered root_b l h = (l, h)
  Move-Keeps (at_root_compress on _) is_ordered root_b l h = absurd (false≢true on)
  Move-Keeps (compressed _) is_ordered root_b l h = absurd l
  Move-Keeps (not_compressed _ _) is_ordered root_b l h = absurd l
  Move-Keeps (read_parent _) is_ordered root_b l h = absurd l
  Move-Keeps (lock_node_ok _) is_ordered root_b l h = absurd l
  Move-Keeps lock_node_fails is_ordered root_b l h = absurd l
  Move-Keeps redirects is_ordered root_b l h = absurd l
  Move-Keeps unlocks_node is_ordered root_b l h = absurd l
  Move-Keeps (same_root e) is_ordered root_b (asked, q) h = (tt, (Paired-joined q (rw e self), h))
  Move-Keeps (start_locking _) is_ordered root_b l h = (l, h)
  Move-Keeps (ordered _) is_ordered root_b l h = (l, h)
  Move-Keeps (swapped _) is_ordered root_b (asked, q) h = ((asked, Paired-flip q), h)
  Move-Keeps (lock_a_ok _) is_ordered root_b l h = (l, h)
  Move-Keeps lock_a_fails is_ordered root_b l h = (l, h)
  Move-Keeps (a_linked _ _) is_ordered root_b l h = (l, h)
  Move-Keeps (a_root _) is_ordered root_b l h = (l, h)
  Move-Keeps (lock_b_ok _) is_ordered root_b l h = (l, h)
  Move-Keeps lock_b_fails is_ordered root_b l h = (l, h)
  Move-Keeps (b_linked _ _) is_ordered root_b l h = (l, h)
  Move-Keeps (b_root _) is_ordered root_b l h = (l, h)
  Move-Keeps releases_b is_ordered root_b l h = (l, h)
  Move-Keeps releases_a is_ordered root_b l h = (l, h)
  Move-Keeps {m} (links {job = job} {a = a} {b = b} _) is_ordered asserts (asked, q) h =
      let (less, root_b) = asserts job a b refl in
      (Paired-joined q (flip (edge (Up-link m.union_find_parents a b root_b))), h)
  Move-Keeps (reads_rank_a on _) is_ordered root_b l h = absurd (false≢true on)
  Move-Keeps (reads_rank_b _) is_ordered root_b l h = absurd l
  Move-Keeps (links_a _) is_ordered root_b l h = absurd l
  Move-Keeps (links_b _) is_ordered root_b l h = absurd l
  Move-Keeps (links_tie _) is_ordered root_b l h = absurd l
  Move-Keeps (raises _) is_ordered root_b l h = absurd l
  Move-Keeps unlocks_b is_ordered root_b l h = (l, h)
  Move-Keeps unlocks_a is_ordered root_b l h = (tt, (l, h))
