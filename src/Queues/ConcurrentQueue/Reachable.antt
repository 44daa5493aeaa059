-- ===== src/Queues/ConcurrentQueue/Reachable.antt =====
-- The reachable states of a `ConcurrentQueue` under any interleaving.
use mathlib.Core.Path.{ap}
use native.Mathlib.Decide.{ℕ_discrete, dec_lt}
use wt_lab_efficient_paral.Common.{
  ℕ, suc, ◌+◌, ◌%◌, ◌≤◌, ◌<◌, ◌≡◌, ◌≢◌, refl, sym, ◌∙◌, [], ◌∷◌, Option, some, update, update_self,
  update_other, arith,
}
use wt_lab_efficient_paral.Queues.ConcurrentQueue.{
  Pc, pushed, popped, start_push, load_head, room, claim_slot, store, publish, start_pop, load_tail,
  something, claim_element, read, release, System, Step, pick, init, start, Reach, Run, begin, goes,
  here, next,
}
use native.Mathlib.Nat.{div-add-mod, mod-eq_of_lt}
use wt_lab_efficient_paral.Common.{get_elem?, set, replicate, ◌*◌, ◌/◌, ◌-◌}
use wt_lab_efficient_paral.Queues.ConcurrentQueue.Invariant.{
  Apart, Apart-sym, IsOrdered, Local, Local-slot, slot_of, element_of, Move-IsOrdered, Move-Local,
  Move-others, Move-Apart, Move-capacity,
}

-- Fewer than `c` steps round a ring of `c` places do not come back.
mod_apart : (c a b : ℕ) → a < b → b < a + c → a % c ≢ b % c
mod_apart c a b lt near same =
    let da = div-add-mod a c in
    let db = div-add-mod b c in
    elim (dec_lt (a / c) (b / c)) [
      | yes up ↦
          let next : b / c ≡ a / c + 1 + (b / c - a / c - 1) = omega arith in
          omega (arith, da, db, ap (λ (t : ℕ). c * t) next)
      | no down ↦
          let next : a / c ≡ b / c + (a / c - b / c) = omega arith in
          omega (arith, da, db, ap (λ (t : ℕ). c * t) next)
    ]

module _ {T : Type 0} where
  pub record Invariant (s : System T) : Type 0 where
    pub ordered : IsOrdered s.mem
    pub local : (i : ℕ) → Local s.mem (s.pc i)
    pub slots : (i j : ℕ) → i ≢ j → Apart (slot_of (s.pc i)) (slot_of (s.pc j))
    pub elements : (i j : ℕ) → i ≢ j → Apart (element_of (s.pc i)) (element_of (s.pc j))

  -- A relation between the threads holds after one has moved, if it holds of that one and the others.
  pairwise :
      (pc : ℕ → Pc T) (i : ℕ) (p : Pc T) (claim : Pc T → Option ℕ)
      → ((j k : ℕ) → j ≢ k → Apart (claim (pc j)) (claim (pc k)))
      → ((j : ℕ) → i ≢ j → Apart (claim p) (claim (pc j)))
      → (j k : ℕ) → j ≢ k
      → Apart (claim (update pc i p j)) (claim (update pc i p k))
  pairwise pc i p claim before moved j k apart = elim (ℕ_discrete i j) [
    | yes e ↦
        let ne : i ≢ k = λ f. apart (sym e ∙ f) in
        rw (update_other pc i k p ne, ← e, update_self pc i p) (moved k ne)
    | no ne ↦ rw (update_other pc i j p ne) (elim (ℕ_discrete i k) [
      | yes f ↦ rw (← f, update_self pc i p) (Apart-sym (moved j ne))
      | no ne' ↦ rw (update_other pc i k p ne') (before j k apart)
    ])
  ]

  Step-Invariant : {s t : System T} → Step s t → Invariant s → Invariant t
  Step-Invariant {s} (pick i {m} {p} mv) v =
      let own = v.local i in
      let others = λ (j : ℕ) (ne : i ≢ j).
        Move-Apart mv (s.pc j) (v.slots i j ne) (v.elements i j ne) (v.local j) in
      record {
        ordered = Move-IsOrdered mv v.ordered own;
        local = λ j. elim (ℕ_discrete i j) [
          | yes e ↦ rw (← e, update_self s.pc i p) (Move-Local mv v.ordered own)
          | no ne ↦
              rw (update_other s.pc i j p ne)
                (Move-others mv (s.pc j) (v.slots i j ne) (v.elements i j ne) (v.local j))
        ];
        slots = pairwise s.pc i p slot_of v.slots (λ j ne. (others j ne).0);
        elements = pairwise s.pc i p element_of v.elements (λ j ne. (others j ne).1);
      }

  start-Invariant : (blank : T) (capacity : ℕ) → Invariant (start blank capacity)
  unfolding init
  start-Invariant blank capacity = record {
    ordered = omega arith;
    local = λ i. tt;
    slots = λ i j ne a b e f. cc;
    elements = λ i j ne a b e f. cc;
  }

  pub Reach-Invariant :
      (blank : T) (capacity : ℕ) {s : System T} → Reach blank capacity s → Invariant s
  Reach-Invariant blank capacity here = start-Invariant blank capacity
  Reach-Invariant blank capacity (next r st) = Step-Invariant st (Reach-Invariant blank capacity r)

  Reach-capacity :
      (blank : T) (capacity : ℕ) {s : System T}
      → Reach blank capacity s
      → s.mem.m_capacity ≡ capacity
  unfolding init
  Reach-capacity blank capacity here = refl
  Reach-capacity blank capacity (next r (pick i mv)) =
      Move-capacity mv ∙ Reach-capacity blank capacity r

  -- In every reachable state producer_tail <= consumer_tail <= consumer_head <= producer_head, and
  -- producer_head is at most capacity ahead of producer_tail.
  pub queue_invariant :
      (blank : T) (capacity : ℕ) (s : System T)
      → Reach blank capacity s
      → (s.mem.m_producer_tail ≤ s.mem.m_consumer_tail)
        × (s.mem.m_consumer_tail ≤ s.mem.m_consumer_head)
        × (s.mem.m_consumer_head ≤ s.mem.m_producer_head)
        × (s.mem.m_producer_head ≤ s.mem.m_producer_tail + capacity)
  queue_invariant blank capacity s r =
      let v = Reach-Invariant blank capacity r in
      let o = v.ordered in
      (o.released, o.taken, o.published, omega (arith, o.bounded, Reach-capacity blank capacity r))

  -- In every reachable state, two threads that have claimed a slot and not yet published it write to
  -- different places of the ring.
  pub slots_exclusive :
      (blank : T) (capacity : ℕ) (s : System T) (i j a b : ℕ)
      → Reach blank capacity s
      → i ≢ j
      → slot_of (s.pc i) ≡ some a
      → slot_of (s.pc j) ≡ some b
      → a % capacity ≢ b % capacity
  slots_exclusive blank capacity s i j a b r apart at_i at_j =
      let v = Reach-Invariant blank capacity r in
      let same = Reach-capacity blank capacity r in
      let ne = v.slots i j apart a b at_i at_j in
      let in_i = Local-slot s.mem (s.pc i) (v.local i) at_i in
      let in_j = Local-slot s.mem (s.pc j) (v.local j) at_j in
      let o = v.ordered in
      elim (dec_lt a b) [
        | yes lt ↦ mod_apart capacity a b lt (omega (arith, o.taken, o.released, o.bounded))
        | no ge ↦ λ e.
            mod_apart capacity b a (omega arith) (omega (arith, o.taken, o.released, o.bounded))
              (sym e)
      ]

-- A push of `e`, and then a pop, by one thread on a new ring with room for two or more.
module _ {T : Type 0} (blank e : T) (n : ℕ) where
  abbrev ring : ℕ
  ring = suc (suc n)

  second : get_elem? (set (replicate ring blank) (0 % ring) e) (1 % ring) ≡ some blank
  second =
      let zeroth : 0 % ring ≡ 0 = mod-eq_of_lt (omega arith) in
      let first : 1 % ring ≡ 1 = mod-eq_of_lt (omega arith) in rw (zeroth, first) refl

  first-kept : get_elem? (set (replicate ring blank) (0 % ring) e) 0 ≡ some e
  first-kept = let zeroth : 0 % ring ≡ 0 = mod-eq_of_lt (omega arith) in rw zeroth refl

  -- On a new ring with two places or more, a thread that runs alone reaches a state in which it has
  -- pushed `e` and then popped `T{}`, whatever `e` is, and `e` stands in place 0 of the array.
  pub pop_misses :
      (s : System T) × Run blank ring 0 s
      × (s.log ≡ popped blank ∷ pushed e ∷ [])
      × (get_elem? s.mem.m_elements 0 ≡ some e)
  unfolding init
  pop_misses =
      let r1 = goes (goes begin (start_push e)) load_head in
      let r2 = goes (goes r1 (room (omega arith))) (claim_slot refl) in
      let r3 = goes (goes r2 store) (publish refl) in
      let r4 = goes (goes r3 start_pop) load_tail in
      let r5 = goes (goes r4 (something (omega arith))) (claim_element refl) in
      let r6 = goes (goes r5 (read second)) (release refl) in (_, r6, refl, first-kept)
