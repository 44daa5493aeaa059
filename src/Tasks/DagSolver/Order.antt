-- ===== src/Tasks/DagSolver/Order.antt =====
-- exercise4/implementation/dag_solver.hpp: the order of the work, the count of the nodes that are left, and
-- what a thread that has moved may rely on.
use native.Mathlib.Decide.{ℕ_discrete}
use wt_lab_efficient_paral.Common.{
  ℕ, zero, suc, inl, inr, ◌+◌, ◌≤◌, ◌<◌, ◌≡◌, refl, sym, ap, ◌∙◌, Bool, true, false, List, some,
  get_elem?, set, length, arith, get_elem?-set, get_elem?-lt, get_elem?-set_other,
}
use wt_lab_efficient_paral.Connectivity.Concurrent.{ℤ, pos, negsuc}
use wt_lab_efficient_paral.Tasks.Tree.Trees.{count, total, total-set}
use wt_lab_efficient_paral.Tasks.Naive.{pred}
use wt_lab_efficient_paral.Tasks.Naive.Balance.{left}
use wt_lab_efficient_paral.Tasks.Solver.{done_task}
use wt_lab_efficient_paral.Tasks.Solver.Balance.{count-push}
use wt_lab_efficient_paral.Tasks.Dag.{DagTask, incoming}
use wt_lab_efficient_paral.Tasks.DagSolver.{
  finished, Memory, is_last, Pc, count_down, Move, leaves, pops, parent_finished,
  parent_not_finished, puts_back, starts_work, is_done, not_done, parent_done, parent_not_done,
  stores, finishes, counts_last, counts, sends_done, sent_done, takes_child, leaves_child,
  pushes_child, handed_out,
}
use wt_lab_efficient_paral.Tasks.DagSolver.Balance.{uncounted, AllDone, ParentsDone, Fine, Active}
use wt_lab_efficient_paral.Tasks.DagSolver.Keeps.{Move-Grows}

-- The work on a node comes after that on its parents.
abbrev pub IsOrdered : DagTask → List Bool → Type 0
IsOrdered t done =
    (x p : ℕ) (ps : List ℕ)
    → get_elem? done x ≡ some true
    → incoming t x ≡ some ps
    → 0 < count p ps
    → get_elem? done p ≡ some true

left-pred : (z : ℤ) → 0 < left z → left (pred z) + 1 ≡ left z
left-pred (pos zero) h = absurd (omega arith)
left-pred (pos (suc k)) h = omega arith
left-pred (negsuc k) h = absurd (omega arith)

pub left-is_last : (z : ℤ) → is_last z ≡ true → left z ≤ 1
left-is_last (pos zero) h = omega arith
left-is_last (pos (suc zero)) h = omega arith
left-is_last (pos (suc (suc k))) h = cc
left-is_last (negsuc k) h = omega arith

parents_same :
    (t : DagTask) (c q : ℕ) {ps ps' : List ℕ}
    → incoming t c ≡ some ps
    → incoming t c ≡ some ps'
    → 0 < count q ps'
    → 0 < count q ps
parents_same t c q {ps = ps} {ps' = ps'} e e' h = let same : ps' ≡ ps = cc in rw same at h

module _ (t : DagTask) (num_threads : ℕ) where
  stores-IsOrdered :
      (done : List Bool) (c : ℕ)
      → get_elem? done c ≡ some false
      → ParentsDone t done c
      → IsOrdered t done
      → IsOrdered t (set done c true)
  stores-IsOrdered done c is_open (qs, at_c, parents) o x p ps h at_x has =
      let inside = get_elem?-lt done c is_open in
      let now : get_elem? done p ≡ some true = elim (ℕ_discrete c x) [
        | yes e ↦ let same : qs ≡ ps = cc (ap (incoming t) e) in parents p (rw same has)
        | no ne ↦ o x p ps (sym (get_elem?-set_other done c x true ne) ∙ h) at_x has
      ] in
      ground (arith, get_elem?-set done c p true inside)

  pub Move-IsOrdered :
      {m m' : Memory} {p p' : Pc}
      → Move t num_threads m p m' p'
      → Active t m p
      → Fine t m.done p
      → IsOrdered t m.done
      → IsOrdered t m'.done
  Move-IsOrdered (leaves {rest = r} at_front) a f o = o
  Move-IsOrdered (pops {current = c} {rest = r} at_front ne at_c) a f o = o
  Move-IsOrdered (parent_finished {p = p} at_p) a f o = o
  Move-IsOrdered (parent_not_finished _ _) a f o = o
  Move-IsOrdered (puts_back {current = c}) a f o = o
  Move-IsOrdered (starts_work {current = c}) a f o = o
  Move-IsOrdered (is_done at_c) a f o = o
  Move-IsOrdered (not_done _ at_c) a f o = o
  Move-IsOrdered (parent_done _) a f o = o
  Move-IsOrdered (parent_not_done {p = p} at_p) a f o = o
  Move-IsOrdered {m} (stores {current = c}) a f o = stores-IsOrdered m.done c a.is_open f.1 o
  Move-IsOrdered (finishes {current = c}) a f o = o
  Move-IsOrdered (counts_last {current = c} last) a f o = o
  Move-IsOrdered (counts _ _) a f o = o
  Move-IsOrdered sends_done a f o = o
  Move-IsOrdered (sent_done _) a f o = o
  Move-IsOrdered (takes_child {c = c} at_c) a f o = o
  Move-IsOrdered (leaves_child _ _) a f o = o
  Move-IsOrdered (pushes_child {c = c}) a f o = o
  Move-IsOrdered handed_out a f o = o

  pub Move-left :
      {m m' : Memory} {p p' : Pc}
      → Move t num_threads m p m' p'
      → Active t m p
      → (s s' : ℕ) → s' + uncounted p ≡ s + uncounted p'
      → uncounted p ≤ s
      → total m.done ≤ t.n
      → left m.num_work_left + total m.done ≡ t.n + s
      → left m'.num_work_left + total m'.done ≡ t.n + s'
  Move-left (leaves {rest = r} at_front) a s s' e le bound h = omega arith
  Move-left (pops {current = c} {rest = r} at_front ne at_c) a s s' e le bound h = omega arith
  Move-left (parent_finished {p = p} at_p) a s s' e le bound h = omega arith
  Move-left (parent_not_finished _ _) a s s' e le bound h = omega arith
  Move-left (puts_back {current = c}) a s s' e le bound h = omega arith
  Move-left (starts_work {current = c}) a s s' e le bound h = omega arith
  Move-left (is_done at_c) a s s' e le bound h = omega arith
  Move-left (not_done _ at_c) a s s' e le bound h = omega arith
  Move-left (parent_done _) a s s' e le bound h = omega arith
  Move-left (parent_not_done {p = p} at_p) a s s' e le bound h = omega arith
  Move-left {m} (stores {current = c}) a s s' e le bound h =
      omega (arith, total-set m.done c a.is_open)
  Move-left (finishes {current = c}) a s s' e le bound h = omega arith
  Move-left {m} (counts_last {current = c} last) a s s' e le bound h =
      omega (arith, left-pred m.num_work_left)
  Move-left {m} (counts _ _) a s s' e le bound h = omega (arith, left-pred m.num_work_left)
  Move-left sends_done a s s' e le bound h = omega arith
  Move-left (sent_done _) a s s' e le bound h = omega arith
  Move-left (takes_child {c = c} at_c) a s s' e le bound h = omega arith
  Move-left (leaves_child _ _) a s s' e le bound h = omega arith
  Move-left (pushes_child {c = c}) a s s' e le bound h = omega arith
  Move-left handed_out a s s' e le bound h = omega arith

  -- The messages that end the threads are sent when all nodes are done.
  pub Move-messages :
      {m m' : Memory} {p p' : Pc}
      → Move t num_threads m p m' p'
      → Active t m p
      → Fine t m.done p
      → (0 < count done_task m.m_task_queue → AllDone t.n m.done)
      → 0 < count done_task m'.m_task_queue
      → AllDone t.n m'.done
  Move-messages (leaves {rest = r} at_front) a f all h = all (rw at_front (omega arith))
  Move-messages (pops {current = c} {rest = r} at_front ne at_c) a f all h =
      all (rw at_front (omega arith))
  Move-messages (parent_finished {p = p} at_p) a f all h = all h
  Move-messages (parent_not_finished _ _) a f all h = all h
  Move-messages {m} (puts_back {current = c}) a f all h =
      all (ground (arith, count-push done_task (c + 1) m.m_task_queue))
  Move-messages (starts_work {current = c}) a f all h = all h
  Move-messages (is_done at_c) a f all h = all h
  Move-messages (not_done _ at_c) a f all h = all h
  Move-messages (parent_done _) a f all h = all h
  Move-messages (parent_not_done {p = p} at_p) a f all h = all h
  Move-messages {m} (stores {current = c}) a f all h =
      λ x lt. Move-Grows t num_threads {m = m} stores a x (all h x lt)
  Move-messages (finishes {current = c}) a f all h = all h
  Move-messages (counts_last {current = c} last) a f all h = all h
  Move-messages (counts _ _) a f all h = all h
  Move-messages sends_done a f all h = f
  Move-messages (sent_done _) a f all h = all h
  Move-messages (takes_child {c = c} at_c) a f all h = all h
  Move-messages (leaves_child _ _) a f all h = all h
  Move-messages {m} (pushes_child {c = c}) a f all h =
      all (ground (arith, count-push done_task (c + 1) m.m_task_queue))
  Move-messages handed_out a f all h = all h

  pub Move-Fine :
      {m m' : Memory} {p p' : Pc}
      → Move t num_threads m p m' p'
      → Active t m p
      → t.n < done_task
      → length m.m_state ≡ t.n
      → ((x : ℕ) → get_elem? m.m_state x ≡ some finished → get_elem? m.done x ≡ some true)
      → (0 < count done_task m.m_task_queue → AllDone t.n m.done)
      → ((c : ℕ) → p ≡ count_down c → is_last m.num_work_left ≡ true → AllDone t.n m.done)
      → Fine t m.done p
      → Fine t m'.done p'
  Move-Fine (leaves {rest = r} at_front) a fits size fin all end f =
      all (rw at_front (ground arith))
  Move-Fine (pops {current = c} {rest = r} at_front ne at_c) a fits size fin all end f =
      ((λ e. ne (omega arith)), _, at_c, λ p k. inl k)
  Move-Fine (parent_finished {p = p} at_p) a fits size fin all end f =
      let (ne, ps, at_c, h) = f in
      (
        ne,
        ps,
        at_c,
        λ q k. elim (h q k) [
          | inl some_left ↦ elim (ℕ_discrete q p) [
            | yes e ↦ inr (rw e (fin p at_p))
            | no apart ↦ inl (ground arith)
          ]
          | inr now ↦ inr now
        ],
      )
  Move-Fine (parent_not_finished _ _) a fits size fin all end f = f.0
  Move-Fine (puts_back {current = c}) a fits size fin all end f = tt
  Move-Fine (starts_work {current = c}) a fits size fin all end f =
      let (ne, ps, at_c, h) = f in
      (ne, (ps, at_c, λ q k. elim (h q k) [ inl none_left ↦ absurd (omega arith) | inr now ↦ now ]))
  Move-Fine (is_done at_c) a fits size fin all end f = absurd (ground (arith, a.is_open))
  Move-Fine (not_done _ at_c) a fits size fin all end f =
      let (ne, (ps, at_ps, h)) = f in
      (ne, (ps, at_ps, h), λ q k. h q (parents_same t _ q at_ps at_c k))
  Move-Fine (parent_done _) a fits size fin all end f =
      let (ne, parents, h) = f in (ne, parents, λ q k. h q (ground arith))
  Move-Fine (parent_not_done {p = p} at_p) a fits size fin all end f =
      let (ne, parents, h) = f in absurd (ground (arith, h p))
  Move-Fine {m} (stores {current = c}) a fits size fin all end f =
      (a.inside, ground (arith, get_elem?-set m.done c c true, get_elem?-lt m.done c a.is_open))
  Move-Fine (finishes {current = c}) a fits size fin all end f = tt
  Move-Fine (counts_last {current = c} last) a fits size fin all end f = end c refl last
  Move-Fine (counts _ _) a fits size fin all end f = tt
  Move-Fine sends_done a fits size fin all end f = f
  Move-Fine (sent_done _) a fits size fin all end f = tt
  Move-Fine {m} (takes_child {c = c} at_c) a fits size fin all end f =
      λ e. omega (arith, get_elem?-lt m.m_state c at_c)
  Move-Fine (leaves_child _ _) a fits size fin all end f = tt
  Move-Fine (pushes_child {c = c}) a fits size fin all end f = tt
  Move-Fine handed_out a fits size fin all end f = tt
