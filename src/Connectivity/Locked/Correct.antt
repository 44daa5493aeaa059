-- ===== src/Connectivity/Locked/Correct.antt =====
-- dynamic_connectivity_b.cpp in every reachable state: `connected` tells what the finished calls of
-- `unite` were asked to join.
use native.Mathlib.Decide.{ℕ_discrete}
use wt_lab_efficient_paral.Common.{
  ℕ, ◌≤◌, ◌<◌, ◌≡◌, ◌↔◌, inl, inr, ◌∙◌, List, [], ◌∷◌, length, arith, Ends, ends, Ends->>=, true,
  update_self, update_other,
}
use wt_lab_efficient_paral.Connectivity.Joined.{Joined, self, edge, flip, chain, Joined-map}
use wt_lab_efficient_paral.Connectivity.Concurrent.{Job, Event, requested, united, answered}
use wt_lab_efficient_paral.Connectivity.Concurrent.Local.{Asked, Asked-append}
use wt_lab_efficient_paral.Connectivity.Locked.{
  System, Step, Reach, here, later, pick, start, init, dc_b, link, connected,
}
use wt_lab_efficient_paral.Connectivity.Sequential.State.{
  count_up-entry, length-count_up, ==_equal, equal_==,
}
use wt_lab_efficient_paral.Connectivity.Concurrent.Correct.{Finished, IsSettled}
use wt_lab_efficient_paral.Connectivity.Locked.Asserts.{link_asserts}
use wt_lab_efficient_paral.Connectivity.Locked.Locks.{IsRoot}
use wt_lab_efficient_paral.Connectivity.Locked.Trees.{
  Up, Joins, Root-unique, Root-Joins, Joins-Root, IsOrdered, find_representative-Root,
}
use wt_lab_efficient_paral.Connectivity.Locked.Local.{Holds, Local, Holds-extends, Local-extends}
use wt_lab_efficient_paral.Connectivity.Locked.Keeps.{
  Change-Extends, Change-Up, Move-Change, Move-Keeps,
}

record Invariant (n : ℕ) (s : System) : Type 0 where
  size : length s.mem.union_find_parents ≡ n
  is_ordered : IsOrdered s.mem.union_find_parents
  sound : (x p : ℕ) → Up s.mem.union_find_parents x p → Joined (Asked s.log) x p
  local : (i : ℕ) → Local s.mem.union_find_parents s.log (s.pc i)
  holds : Holds s.mem.union_find_parents s.log

module _ (n : ℕ) where
  link-IsRoot :
      (s : System) (reach : Reach dc_b n s) (i : ℕ) (job : Job) (a b : ℕ)
      → s.pc i ≡ link job a b
      → (a < b) × IsRoot s.mem b
  link-IsRoot s reach i job a b e =
      let ((less, _, _), _, root_b) = link_asserts dc_b n s reach i a b job e in (less, root_b)

  Step-Invariant : {s t : System} → Reach dc_b n s → Step dc_b s t → Invariant n s → Invariant n t
  Step-Invariant {s} reach (pick i {m} {p} {events} mv) v =
      let asserts = link-IsRoot s reach i in
      let change = Move-Change i s.log mv v.sound asserts (v.local i) in
      let e = Change-Extends change in
      let kept = λ (j : ℕ).
        Local-extends s.mem.union_find_parents m.union_find_parents e events s.log (s.pc j)
          (v.local j) in
      let (now, holds') =
        Move-Keeps i s.log mv v.is_ordered asserts (kept i)
          (Holds-extends s.mem.union_find_parents m.union_find_parents e s.log v.holds) in
      record {
        size = e.size ∙ v.size;
        is_ordered = Change-Up (λ x q. q ≤ x) change (λ a b less j. omega arith) v.is_ordered;
        sound = λ x q up.
            Joined-map (λ a b r. edge (Asked-append events s.log a b r))
              (Change-Up (Joined (Asked s.log)) change (λ a b less j. j) v.sound x q up);
        local = λ j. elim (ℕ_discrete i j) [
          | yes same ↦ rw (← same, update_self s.pc i p) now
          | no ne ↦ rw (update_other s.pc i j p ne) (kept j)
        ];
        holds = holds';
      }

  start-Invariant : Invariant n (start n)
  unfolding init
  start-Invariant = record {
    size = length-count_up n 0;
    is_ordered = λ x p up. let e = count_up-entry n 0 x p up in omega (arith, e);
    sound = λ x p up. let e : p ≡ x = omega (arith, count_up-entry n 0 x p up) in rw e self;
    local = λ i. tt;
    holds = tt;
  }

  Reach-Invariant : {s : System} → Reach dc_b n s → Invariant n s
  Reach-Invariant here = start-Invariant
  Reach-Invariant (later r st) = Step-Invariant r st (Reach-Invariant r)

Finished-Joins :
    (parents : List ℕ) (log : List Event) (x y : ℕ)
    → Holds parents log
    → Finished log x y
    → Joins parents x y
Finished-Joins parents [] x y h f = absurd f
Finished-Joins parents (requested job ∷ log) x y h f = Finished-Joins parents log x y h f
Finished-Joins parents (united (a, b) flag ∷ log) x y (j, h) (inl (e, e')) = rw (e, e') j
Finished-Joins parents (united (a, b) flag ∷ log) x y (j, h) (inr f) =
    Finished-Joins parents log x y h f
Finished-Joins parents (answered job flag ∷ log) x y h f = Finished-Joins parents log x y h f

module _ (n : ℕ) (s : System) (reach : Reach dc_b n s) where
  -- In every reachable state of the build DC_B in which every `unite` that was started has returned,
  -- `connected`, run alone on two nodes in range, ends, and answers true exactly when the edges of
  -- those calls join the nodes.
  pub locked_correct :
      (x y fuel : ℕ)
      → IsSettled s.log
      → n ≤ fuel
      → x < n
      → y < n
      → Ends
          (λ answer. (answer ≡ true) ↔ Joined (Asked s.log) x y)
          (connected fuel s.mem.union_find_parents x y)
  unfolding connected
  locked_correct x y fuel settled enough in_x in_y =
      let v = Reach-Invariant n reach in
      let ps = s.mem.union_find_parents in
      let find = find_representative-Root ps v.is_ordered in
      Ends->>= (find fuel x (omega arith) (omega (arith, v.size))) λ a at_x.
        Ends->>= (find fuel y (omega arith) (omega (arith, v.size))) λ b at_y. ends (
          λ t.
              Joined-map v.sound
                (chain (Root-Joins ps at_x) (flip (Root-Joins ps (rw (← ==_equal a b t) at at_y)))),
          λ j.
              let joins : Joins ps x y =
                Joined-map (λ u w e. Finished-Joins ps s.log u w v.holds (settled u w e)) j in
              equal_== a b (Root-unique ps ((Joins-Root ps joins).0 at_x) at_y),
        )
