-- ===== src/Connectivity/Concurrent/Keeps.antt =====
-- A thread that has moved may rely on what its place asks for, and what a call returned holds.
use wt_lab_efficient_paral.Common.{
  ℕ, ◌≡◌, refl, inl, List, ◌++◌, some, get_elem?, set, arith, get_elem?-set, get_elem?-lt,
}
use wt_lab_efficient_paral.Connectivity.Joined.{self, edge, flip, chain}
use wt_lab_efficient_paral.Connectivity.Concurrent.{
  ℤ, pos, Query, then_check, Pc, Event, Move, start_unite, read_parent, read_rank, is_short,
  redirect, redirect_fails, found_a, found_b, same_root, link_lower, link_lower_fails, link_higher,
  link_higher_fails, link_tie_a, link_tie_a_fails, link_tie_b, link_tie_b_fails, raise_rank,
  raise_rank_fails, start_connected, look_up, look_a, look_b, is_same, still_root, was_linked,
}
use wt_lab_efficient_paral.Connectivity.Concurrent.Forest.{parent, parent-pos, IsForest}
use wt_lab_efficient_paral.Connectivity.Concurrent.Local.{Holds, Local}
use wt_lab_efficient_paral.Connectivity.Concurrent.Moves.{Stack-push, OfNext-push}

-- The edge that a successful compare-exchange has made.
linked_edge :
    (m : List ℤ) (x y : ℕ) {v : ℤ} → get_elem? m x ≡ some v → parent (set m x (pos y)) x ≡ some y
linked_edge m x y h = ground (arith, get_elem?-set m x x (pos y) (get_elem?-lt m x h))

pub Move-Local :
    {m m' : List ℤ} {p p' : Pc} {events : List Event} (rank : ℕ → ℕ) (log : List Event)
    → Move m p m' p' events
    → IsForest m' rank
    → Local m' rank (events ++ log) p
    → Local m' rank (events ++ log) p'
Move-Local rank log (start_unite h k) forest l = (inl (refl, refl), h, tt, (self, self, k))
Move-Local {m} rank log (read_parent {job} {node} {p} {stack} {next} h) forest
      (asked, inside, s, o) =
    let (less, room) = forest.up node p h in
    (
      asked,
      room,
      (
        record { q = p; child = parent-pos m node h; less = less; above = self },
        Stack-push m rank forest node p stack h s,
      ),
      OfNext-push m rank forest job node p next h o,
    )
Move-Local rank log (read_rank {job} {node} {r} h) forest (asked, inside, s, o) =
    (asked, inside, (omega arith, omega (arith, forest.root node r h)), s, o)
Move-Local rank log (is_short e) forest (asked, inside, up, (n, s), o) = (asked, inside, up, s, o)
Move-Local rank log (redirect ne h) forest (asked, inside, up, (n, s), o) =
    (asked, inside, up, s, o)
Move-Local rank log (redirect_fails ne h) forest (asked, inside, up, (n, s), o) =
    (asked, inside, up, s, o)
Move-Local rank log found_a forest (asked, inside, up, s, (j, k, b_in)) =
    (asked, b_in, tt, (j, k, inside, up))
Move-Local rank log found_b forest (asked, inside, up, s, (j, k, a_in, ra)) =
    (asked, j, k, a_in, inside, ra, up)
Move-Local rank log (same_root e) forest l = tt
Move-Local rank log (link_lower ne lt h) forest l = tt
Move-Local rank log (link_lower_fails {job} {a} {rank_a} {b} {rank_b} ne lt h) forest
      (asked, j, k, a_in, b_in, ra, rb) =
    (asked, a_in, tt, (j, k, b_in))
Move-Local rank log (link_higher ne lt h) forest l = tt
Move-Local rank log (link_higher_fails {job} {a} {rank_a} {b} {rank_b} ne lt h) forest
      (asked, j, k, a_in, b_in, ra, rb) =
    (asked, a_in, tt, (j, k, b_in))
Move-Local {m} rank log (link_tie_a {job} {a} {rank_a} {b} {rank_b} e lt h) forest
      (asked, j, k, a_in, b_in, ra, rb) =
    (rb.0, chain j (chain (edge (linked_edge m a b h)) (flip k)))
Move-Local rank log (link_tie_a_fails {job} {a} {rank_a} {b} {rank_b} e lt h) forest
      (asked, j, k, a_in, b_in, ra, rb) =
    (asked, a_in, tt, (j, k, b_in))
Move-Local {m} rank log (link_tie_b {job} {a} {rank_a} {b} {rank_b} e lt h) forest
      (asked, j, k, a_in, b_in, ra, rb) =
    (ra.0, chain j (chain (flip (edge (linked_edge m b a h))) (flip k)))
Move-Local rank log (link_tie_b_fails {job} {a} {rank_a} {b} {rank_b} e lt h) forest
      (asked, j, k, a_in, b_in, ra, rb) =
    (asked, a_in, tt, (j, k, b_in))
Move-Local rank log (raise_rank h) forest l = tt
Move-Local rank log (raise_rank_fails h) forest l = tt
Move-Local rank log (start_connected h k) forest l = (self, self)
Move-Local {m} rank log (look_up {job} {node} {p} {query = Query.then_b b} h) forest (j, k) =
    (chain j (edge (parent-pos m node h)), k)
Move-Local {m} rank log (look_up {job} {node} {p} {query = then_check a} h) forest (j, k) =
    (j, chain k (edge (parent-pos m node h)))
Move-Local rank log (look_a h) forest (j, k) = (j, k)
Move-Local rank log (look_b h) forest (j, k) = (j, k)
Move-Local rank log (is_same e) forest l = tt
Move-Local rank log (still_root ne h) forest l = tt
Move-Local rank log (was_linked ne h) forest (j, k) = (j, k)

pub Move-Holds :
    {m m' : List ℤ} {p p' : Pc} {events : List Event} (rank : ℕ → ℕ) (log : List Event)
    → Move m p m' p' events
    → Local m' rank (events ++ log) p
    → Holds m' events
Move-Holds rank log (start_unite h k) l = tt
Move-Holds rank log (read_parent h) l = tt
Move-Holds rank log (read_rank h) l = tt
Move-Holds rank log (is_short e) l = tt
Move-Holds rank log (redirect ne h) l = tt
Move-Holds rank log (redirect_fails ne h) l = tt
Move-Holds rank log found_a l = tt
Move-Holds rank log found_b l = tt
Move-Holds rank log (same_root {job} {a} {rank_a} {b} {rank_b} e)
      (asked, j, k, a_in, b_in, ra, rb) =
    (chain j (rw e (flip k)), tt)
Move-Holds {m} rank log (link_lower {job} {a} {rank_a} {b} {rank_b} ne lt h)
      (asked, j, k, a_in, b_in, ra, rb) =
    (chain j (chain (edge (linked_edge m a b h)) (flip k)), tt)
Move-Holds rank log (link_lower_fails ne lt h) l = tt
Move-Holds {m} rank log (link_higher {job} {a} {rank_a} {b} {rank_b} ne lt h)
      (asked, j, k, a_in, b_in, ra, rb) =
    (chain j (chain (flip (edge (linked_edge m b a h))) (flip k)), tt)
Move-Holds rank log (link_higher_fails ne lt h) l = tt
Move-Holds rank log (link_tie_a e lt h) l = tt
Move-Holds rank log (link_tie_a_fails e lt h) l = tt
Move-Holds rank log (link_tie_b e lt h) l = tt
Move-Holds rank log (link_tie_b_fails e lt h) l = tt
Move-Holds rank log (raise_rank h) (low, j) = (j, tt)
Move-Holds rank log (raise_rank_fails h) (low, j) = (j, tt)
Move-Holds rank log (start_connected h k) l = tt
Move-Holds rank log (look_up h) l = tt
Move-Holds rank log (look_a h) l = tt
Move-Holds rank log (look_b h) l = tt
Move-Holds rank log (is_same {job} {a} {b} e) (j, k) = (chain j (rw e (flip k)), tt)
Move-Holds rank log (still_root ne h) l = tt
Move-Holds rank log (was_linked ne h) l = tt
