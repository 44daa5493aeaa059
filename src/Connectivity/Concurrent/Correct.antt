-- ===== src/Connectivity/Concurrent/Correct.antt =====
-- The concurrent union-find in every reachable state: an acyclic forest that joins what the finished
-- calls were asked to join, and nothing else.
use native.Mathlib.Decide.{ℕ_discrete}
use wt_lab_efficient_paral.Common.{
  ℕ, ◌<◌, ◌≡◌, ◌↔◌, refl, sym, ap, ◌∙◌, ◌⊎◌, inl, inr, Bool, true, false, List, [], ◌∷◌, ◌++◌, none,
  some, get_elem?, length, update_self, update_other, arith, replicate-entry, Ends, Ends-weaken,
  Ends-value, Ends-of, ◌==◌,
}
use wt_lab_efficient_paral.Connectivity.Joined.{Joined, edge, flip, chain, Joined-map}
use wt_lab_efficient_paral.Connectivity.Concurrent.{
  ℤ, negsuc, Event, requested, united, answered, System, Step, pick, init, start, Reach, here,
  later, find_representative, connected, check_roots,
}
use wt_lab_efficient_paral.Connectivity.Concurrent.Forest.{
  pos-parent, IsForest, IsSound, Change-Later,
}
use wt_lab_efficient_paral.Connectivity.Concurrent.Local.{
  Asked, Asked-append, Joins, Holds, Holds-extends, Local, Local-extends,
}
use wt_lab_efficient_paral.Connectivity.Concurrent.Moves.{Move-Change}
use wt_lab_efficient_paral.Connectivity.Concurrent.Roots.{
  Root, Root-rank, Root-unique, Joined-Root, Root-Joined, find_representative-Root,
  find_representative-ends,
}
use wt_lab_efficient_paral.Connectivity.Concurrent.Keeps.{Move-Local, Move-Holds}

record Invariant (s : System) : Type 0 where
  rank : ℕ → ℕ
  forest : IsForest s.union_find rank
  sound : IsSound (Asked s.log) s.union_find
  local : (i : ℕ) → Local s.union_find rank s.log (s.pc i)
  holds : Holds s.union_find s.log

Holds-append :
    (m : List ℤ) (events log : List Event) → Holds m events → Holds m log → Holds m (events ++ log)
Holds-append m [] log h k = k
Holds-append m (requested job ∷ events) log h k = Holds-append m events log h k
Holds-append m (united job flag ∷ events) log (j, h) k = (j, Holds-append m events log h k)
Holds-append m (answered job true ∷ events) log (j, h) k = (j, Holds-append m events log h k)
Holds-append m (answered job false ∷ events) log h k = Holds-append m events log h k

Step-Invariant : {s t : System} → Step s t → Invariant s → Invariant t
Step-Invariant {s} (pick i {m} {p} {events} mv) v =
    let change = Move-Change s.union_find v.rank v.forest s.log v.sound mv (v.local i) in
    let next = Change-Later (Asked s.log) s.union_find v.rank v.forest v.sound m change in
    let kept = λ (j : ℕ).
      Local-extends s.union_find v.rank m next.rank' next.extends events s.log (s.pc j)
        (v.local j) in
    record {
      rank = next.rank';
      forest = next.forest;
      sound =
          λ x q h. Joined-map (λ a b r. edge (Asked-append events s.log a b r)) (next.sound x q h);
      local = λ j. elim (ℕ_discrete i j) [
        | yes e ↦
            rw (← e, update_self s.pc i p) (Move-Local next.rank' s.log mv next.forest (kept i))
        | no ne ↦ rw (update_other s.pc i j p ne) (kept j)
      ];
      holds =
          Holds-append m events s.log (Move-Holds next.rank' s.log mv (kept i))
            (Holds-extends s.union_find v.rank m next.rank' next.extends s.log v.holds);
    }

start-Invariant : (n : ℕ) → Invariant (start n)
unfolding init
start-Invariant n = record {
  rank = λ x. 1;
  forest = record {
    root = λ x r h. let e = replicate-entry n x (negsuc 0) h in cc;
    up = λ x q h. let e = replicate-entry n x (negsuc 0) h in cc;
  };
  sound = λ x q h. let e = replicate-entry n x (negsuc 0) h in cc;
  local = λ i. tt;
  holds = tt;
}

Reach-Invariant : (n : ℕ) {s : System} → Reach n s → Invariant s
Reach-Invariant n here = start-Invariant n
Reach-Invariant n (later r st) = Step-Invariant st (Reach-Invariant n r)

connected_answer :
    (m : List ℤ) (fuel x y a b r : ℕ)
    → find_representative fuel m x ≡ some a
    → find_representative fuel m y ≡ some b
    → get_elem? m a ≡ some (negsuc r)
    → (answer : Bool) × (connected 1 fuel m x y ≡ some answer) × ((answer ≡ true) ↔ (a ≡ b))
unfolding connected check_roots
connected_answer m fuel x y a b r at_x at_y still =
    rw (at_x, at_y)
      (elim (ℕ_discrete a b) [
        | yes e ↦
            let same : (a == b) ≡ true = ground arith in
            (true, ap (λ t. check_roots t (get_elem? m a) none) same, (λ t. e, λ e'. refl))
        | no ne ↦
            let apart : (a == b) ≡ false = ground arith in
            (
              false,
              ap (λ t. check_roots t (get_elem? m a) none) apart
                  ∙ ap (λ t. check_roots false t none) still,
              (λ f. cc, λ e'. absurd (ne e')),
            )
      ])

-- The edges whose `unite` has returned.
abbrev pub Finished : List Event → ℕ → ℕ → Type 0
Finished [] x y = ⊥
Finished (requested job ∷ log) x y = Finished log x y
Finished (united (a, b) flag ∷ log) x y = ((x ≡ a) × (y ≡ b)) ⊎ Finished log x y
Finished (answered job flag ∷ log) x y = Finished log x y

-- Every `unite` that was started has returned.
abbrev pub IsSettled : List Event → Type 0
IsSettled log = (x y : ℕ) → Asked log x y → Finished log x y

Finished-Joins :
    (m : List ℤ) (log : List Event) (x y : ℕ) → Holds m log → Finished log x y → Joins m x y
Finished-Joins m [] x y h f = absurd f
Finished-Joins m (requested job ∷ log) x y h f = Finished-Joins m log x y h f
Finished-Joins m (united (a, b) flag ∷ log) x y (j, h) (inl (e, e')) = rw (e, e') j
Finished-Joins m (united (a, b) flag ∷ log) x y (j, h) (inr f) = Finished-Joins m log x y h f
Finished-Joins m (answered job true ∷ log) x y (j, h) f = Finished-Joins m log x y h f
Finished-Joins m (answered job false ∷ log) x y h f = Finished-Joins m log x y h f

module _ (n : ℕ) (s : System) (reach : Reach n s) where
  -- In every reachable state `find_representative`, run alone from a node in range, ends, in a root
  -- that the forest joins with the node.
  pub find_representative_ends :
      (x : ℕ)
      → x < length s.union_find
      → (fuel : ℕ) × Ends
          (λ y. Root s.union_find x y × Joins s.union_find x y)
          (find_representative fuel s.union_find x)
  find_representative_ends x inside =
      let v = Reach-Invariant n reach in
      let (fuel, found) = find_representative-ends s.union_find v.rank v.forest in
      (fuel, Ends-weaken (found x inside) λ y r. (r, Root-Joined s.union_find r))

  -- In every reachable state, two nodes with the same representative are joined by edges that calls of
  -- `unite` were started with.
  pub union_find_sound :
      (fuel fuel' x y r : ℕ)
      → find_representative fuel s.union_find x ≡ some r
      → find_representative fuel' s.union_find y ≡ some r
      → Joined (Asked s.log) x y
  union_find_sound fuel fuel' x y r h k =
      let v = Reach-Invariant n reach in
      let m = s.union_find in
      Joined-map (λ a b e. v.sound a b (pos-parent (get_elem? m a) e))
        (chain (Root-Joined m (find_representative-Root m fuel x r h))
          (flip (Root-Joined m (find_representative-Root m fuel' y r k))))

  -- In every reachable state in which every `unite` that was started has returned, two nodes have the
  -- same representative exactly when the edges of those calls join them.
  pub union_find_correct :
      (fuel fuel' x y r r' : ℕ)
      → IsSettled s.log
      → find_representative fuel s.union_find x ≡ some r
      → find_representative fuel' s.union_find y ≡ some r'
      → (r ≡ r') ↔ Joined (Asked s.log) x y
  union_find_correct fuel fuel' x y r r' settled h k =
      let v = Reach-Invariant n reach in
      let m = s.union_find in
      let at_x = find_representative-Root m fuel x r h in
      let at_y = find_representative-Root m fuel' y r' k in
      (
        λ same. union_find_sound fuel fuel' x y r h (k ∙ ap some (sym same)),
        λ j.
            let joins : Joins m x y =
              Joined-map (λ a b e. Finished-Joins m s.log a b v.holds (settled a b e)) j in
            Root-unique m ((Joined-Root m joins).0 at_x) at_y,
      )

  -- In every reachable state in which every `unite` that was started has returned, `connected`, run
  -- alone on two nodes in range, ends in its first round, and answers true exactly when the edges of
  -- those calls join the nodes.
  pub connected_correct :
      (x y : ℕ)
      → IsSettled s.log
      → x < length s.union_find
      → y < length s.union_find
      → (fuel : ℕ) × Ends
          (λ answer. (answer ≡ true) ↔ Joined (Asked s.log) x y)
          (connected 1 fuel s.union_find x y)
  connected_correct x y settled in_x in_y =
      let v = Reach-Invariant n reach in
      let m = s.union_find in
      let (fuel, found) = find_representative-ends m v.rank v.forest in
      let (a, at_x, root_a) = Ends-value (found x in_x) in
      let (b, at_y, root_b) = Ends-value (found y in_y) in
      let (r, still) = Root-rank m root_a in
      let (to, from) = union_find_correct fuel fuel x y a b settled at_x at_y in
      let (answer, is_answer, decides) = connected_answer m fuel x y a b r at_x at_y still in
      (fuel, Ends-of answer is_answer (λ t. to (decides.0 t), λ j. decides.1 (from j)))
