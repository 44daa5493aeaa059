-- ===== src/Connectivity/Concurrent/Moves.antt =====
-- Each step of a thread changes the forest as allowed, and keeps what the thread relies on.
use wt_lab_efficient_paral.Common.{
  ℕ, zero, suc, ◌≤◌, ◌<◌, ◌≡◌, refl, inl, List, [], ◌∷◌, some, get_elem?, set, length, arith,
}
use wt_lab_efficient_paral.Connectivity.Joined.{
  Joined, Joined-map, edge, flip, chain, Less, Less-trans,
}
use wt_lab_efficient_paral.Connectivity.Concurrent.{
  ℤ, pos, to_rank_repr, Job, Next, then_link, Pc, Event, Move, start_unite, read_parent, read_rank,
  is_short, redirect, redirect_fails, found_a, found_b, same_root, link_lower, link_lower_fails,
  link_higher, link_higher_fails, link_tie_a, link_tie_a_fails, link_tie_b, link_tie_b_fails,
  raise_rank, raise_rank_fails, start_connected, look_up, look_a, look_b, is_same, still_root,
  was_linked,
}
use wt_lab_efficient_paral.Connectivity.Concurrent.Forest.{
  IsSound, pos-parent, parent-pos, IsForest, Change, none_made, redirected, linked, raised,
}
use wt_lab_efficient_paral.Connectivity.Concurrent.Local.{Asked, Joins, Stack, OfNext, Local}

module _ (m : List ℤ) (rank : ℕ → ℕ) (forest : IsForest m rank) where
  pub Stack-push :
      (node p : ℕ) (stack : List (ℕ × ℕ))
      → get_elem? m node ≡ some (pos p)
      → Stack m rank node stack
      → Stack m rank p stack
  Stack-push node p [] at_node s = tt
  Stack-push node p ((x, y) ∷ stack) at_node (n, s) =
      let (less, inside) = forest.up node p at_node in
      (
        record {
          q = n.q;
          child = n.child;
          less = Less-trans rank x node p n.less less;
          above = chain n.above (edge (parent-pos m node at_node, n.less));
        },
        Stack-push node p stack at_node s,
      )

  pub OfNext-push :
      (job : Job) (node p : ℕ) (next : Next)
      → get_elem? m node ≡ some (pos p)
      → OfNext m rank job node next
      → OfNext m rank job p next
  OfNext-push job node p (Next.then_b b) at_node (j, k, b_in) =
      (chain j (edge (parent-pos m node at_node)), k, b_in)
  OfNext-push job node p (then_link a rank_a) at_node (j, k, inside, r) =
      (j, chain k (edge (parent-pos m node at_node)), inside, r)

  module _ (log : List Event) (sound : IsSound (Asked log) m) where
    Joins-Asked : {u v : ℕ} → Joins m u v → Joined (Asked log) u v
    Joins-Asked j = Joined-map (λ a b e. sound a b (pos-parent (get_elem? m a) e)) j

    Asked-join :
        (job : Job) (a b : ℕ)
        → Asked log job.0 job.1
        → Joins m job.0 a
        → Joins m job.1 b
        → Joined (Asked log) a b
    Asked-join job a b asked j k = chain (flip (Joins-Asked j)) (chain (edge asked) (Joins-Asked k))

    -- A successful compare-exchange of a root's rank for the parent `y`.
    cas_links :
        (x y r : ℕ)
        → 1 ≤ r
        → get_elem? m x ≡ some (to_rank_repr r)
        → (rank x ≡ r → Less rank x y)
        → y < length m
        → Joined (Asked log) x y
        → Change (Asked log) m rank (set m x (pos y))
    cas_links x y zero low at_x less inside asked = absurd (omega arith)
    cas_links x y (suc r) low at_x less inside asked =
        linked x y r at_x (less (forest.root x r at_x)) inside asked refl

    cas_raises :
        (x r : ℕ)
        → 1 ≤ r
        → get_elem? m x ≡ some (to_rank_repr r)
        → Change (Asked log) m rank (set m x (to_rank_repr (suc r)))
    cas_raises x zero low at_x = absurd (omega arith)
    cas_raises x (suc r) low at_x = raised x r at_x refl

    pub Move-Change :
        {m' : List ℤ} {p p' : Pc} {events : List Event}
        → Move m p m' p' events
        → Local m rank log p
        → Change (Asked log) m rank m'
    Move-Change (start_unite h k) l = none_made refl
    Move-Change (read_parent h) l = none_made refl
    Move-Change (read_rank h) l = none_made refl
    Move-Change (is_short e) l = none_made refl
    Move-Change (redirect {job} {root} {rank = r} {node} {p} ne h) (asked, inside, up, (n, s), o) =
        let same : n.q ≡ p = cc (n.child, parent-pos m node h) in
        redirected node p root h n.less inside n.above refl
    Move-Change (redirect_fails ne h) l = none_made refl
    Move-Change found_a l = none_made refl
    Move-Change found_b l = none_made refl
    Move-Change (same_root e) l = none_made refl
    Move-Change (link_lower {job} {a} {rank_a} {b} {rank_b} ne lt h)
          (asked, j, k, a_in, b_in, ra, rb) =
        cas_links a b rank_a ra.0 h (λ e. inl (omega (arith, rb))) b_in
          (Asked-join job a b asked j k)
    Move-Change (link_lower_fails ne lt h) l = none_made refl
    Move-Change (link_higher {job} {a} {rank_a} {b} {rank_b} ne lt h)
          (asked, j, k, a_in, b_in, ra, rb) =
        cas_links b a rank_b rb.0 h (λ e. inl (omega (arith, ra))) a_in
          (flip (Asked-join job a b asked j k))
    Move-Change (link_higher_fails ne lt h) l = none_made refl
    Move-Change (link_tie_a {job} {a} {rank_a} {b} {rank_b} e lt h)
          (asked, j, k, a_in, b_in, ra, rb) =
        cas_links a b rank_a ra.0 h (λ f. ground (arith, rb)) b_in (Asked-join job a b asked j k)
    Move-Change (link_tie_a_fails e lt h) l = none_made refl
    Move-Change (link_tie_b {job} {a} {rank_a} {b} {rank_b} e lt h)
          (asked, j, k, a_in, b_in, ra, rb) =
        cas_links b a rank_b rb.0 h (λ f. ground (arith, ra)) a_in
          (flip (Asked-join job a b asked j k))
    Move-Change (link_tie_b_fails e lt h) l = none_made refl
    Move-Change (raise_rank {job} {root} {rank = r} h) (low, j) = cas_raises root r low h
    Move-Change (raise_rank_fails h) l = none_made refl
    Move-Change (start_connected h k) l = none_made refl
    Move-Change (look_up h) l = none_made refl
    Move-Change (look_a h) l = none_made refl
    Move-Change (look_b h) l = none_made refl
    Move-Change (is_same e) l = none_made refl
    Move-Change (still_root ne h) l = none_made refl
    Move-Change (was_linked ne h) l = none_made refl
