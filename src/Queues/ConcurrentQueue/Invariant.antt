-- ===== src/Queues/ConcurrentQueue/Invariant.antt =====
-- The invariant of the counters, and of the slots and elements that the threads have claimed.
use wt_lab_efficient_paral.Common.{
  ℕ, ◌+◌, ◌≤◌, ◌<◌, ◌≡◌, ◌≢◌, refl, sym, List, Option, none, some, arith,
}
use wt_lab_efficient_paral.Queues.ConcurrentQueue.{
  Memory, Pc, idle, push_load, push_check, push_cas, push_store, push_wait, pop_load, pop_check,
  pop_cas, pop_read, pop_wait, Event, Move, start_push, load_head, full, room, claim_slot,
  claim_slot_fails, store, publish, publish_fails, start_pop, load_tail, nothing, something,
  claim_element, claim_element_fails, read, release, release_fails,
}

abbrev pub Apart : Option ℕ → Option ℕ → Type 0
Apart o o' = (a b : ℕ) → o ≡ some a → o' ≡ some b → a ≢ b

pub Apart-sym : {o o' : Option ℕ} → Apart o o' → Apart o' o
Apart-sym apart a b e f same = apart b a f e (sym same)

module _ {T : Type 0} where
  -- The invariant that the source states, and the bound on the elements.
  pub record IsOrdered (m : Memory T) : Type 0 where
    pub released : m.m_producer_tail ≤ m.m_consumer_tail
    pub taken : m.m_consumer_tail ≤ m.m_consumer_head
    pub published : m.m_consumer_head ≤ m.m_producer_head
    pub bounded : m.m_producer_head ≤ m.m_producer_tail + m.m_capacity

  -- The slot that a thread has claimed and not published, and the element that it has claimed and not
  -- released.
  abbrev pub slot_of : Pc T → Option ℕ
  slot_of (push_store e old) = some old
  slot_of (push_wait e old) = some old
  slot_of p = none

  abbrev pub element_of : Pc T → Option ℕ
  element_of (pop_read old) = some old
  element_of (pop_wait e old) = some old
  element_of p = none

  -- What a thread may rely on.
  abbrev pub Local : Memory T → Pc T → Type 0
  Local m idle = Unit
  Local m (push_load e) = Unit
  Local m (push_check e old) = old ≤ m.m_producer_head
  Local m (push_cas e old) =
      (old ≤ m.m_producer_head) × (old + 1 ≤ m.m_producer_tail + m.m_capacity)
  Local m (push_store e old) = (m.m_consumer_head ≤ old) × (old < m.m_producer_head)
  Local m (push_wait e old) = (m.m_consumer_head ≤ old) × (old < m.m_producer_head)
  Local m pop_load = Unit
  Local m (pop_check old) = old ≤ m.m_consumer_tail
  Local m (pop_cas old) = old + 1 ≤ m.m_consumer_head
  Local m (pop_read old) = (m.m_producer_tail ≤ old) × (old < m.m_consumer_tail)
  Local m (pop_wait e old) = (m.m_producer_tail ≤ old) × (old < m.m_consumer_tail)

  pub Move-IsOrdered :
      {m m' : Memory T} {p p' : Pc T} {events : List (Event T)}
      → Move m p m' p' events
      → IsOrdered m
      → Local m p
      → IsOrdered m'
  Move-IsOrdered (start_push e) v l = v
  Move-IsOrdered load_head v l = v
  Move-IsOrdered (full h) v l = v
  Move-IsOrdered (room h) v l = v
  Move-IsOrdered (claim_slot h) v l = ground arith
  Move-IsOrdered claim_slot_fails v l = v
  Move-IsOrdered store v l = ground arith
  Move-IsOrdered (publish h) v l = ground arith
  Move-IsOrdered publish_fails v l = v
  Move-IsOrdered start_pop v l = v
  Move-IsOrdered load_tail v l = v
  Move-IsOrdered (nothing h) v l = v
  Move-IsOrdered (something h) v l = v
  Move-IsOrdered (claim_element h) v l = ground arith
  Move-IsOrdered claim_element_fails v l = v
  Move-IsOrdered (read h) v l = v
  Move-IsOrdered (release h) v l = ground arith
  Move-IsOrdered release_fails v l = v

  pub Move-Local :
      {m m' : Memory T} {p p' : Pc T} {events : List (Event T)}
      → Move m p m' p' events
      → IsOrdered m
      → Local m p
      → Local m' p'
  Move-Local (start_push e) v l = ground arith
  Move-Local load_head v l = ground arith
  Move-Local (full h) v l = ground arith
  Move-Local (room h) v l = ground arith
  Move-Local (claim_slot h) v l = ground arith
  Move-Local claim_slot_fails v l = ground arith
  Move-Local store v l = ground arith
  Move-Local (publish h) v l = ground arith
  Move-Local publish_fails v l = ground arith
  Move-Local start_pop v l = ground arith
  Move-Local load_tail v l = ground arith
  Move-Local (nothing h) v l = ground arith
  Move-Local (something h) v l = ground arith
  Move-Local (claim_element h) v l = ground arith
  Move-Local claim_element_fails v l = ground arith
  Move-Local (read h) v l = ground arith
  Move-Local (release h) v l = ground arith
  Move-Local release_fails v l = ground arith

  pub Local-slot :
      (m : Memory T) (q : Pc T) {b : ℕ}
      → Local m q
      → slot_of q ≡ some b
      → (m.m_consumer_head ≤ b) × (b < m.m_producer_head)
  Local-slot m (push_store e old) l h = ground arith
  Local-slot m (push_wait e old) l h = ground arith
  Local-slot m q l h = cc

  Local-element :
      (m : Memory T) (q : Pc T) {b : ℕ}
      → Local m q
      → element_of q ≡ some b
      → (m.m_producer_tail ≤ b) × (b < m.m_consumer_tail)
  Local-element m (pop_read old) l h = ground arith
  Local-element m (pop_wait e old) l h = ground arith
  Local-element m q l h = cc

  -- The counters only grow, and pass neither a claimed slot nor a claimed element.
  record Grows (m m' : Memory T) (q : Pc T) : Type 0 where
    same : m'.m_capacity ≡ m.m_capacity
    producer_head : m.m_producer_head ≤ m'.m_producer_head
    producer_tail : m.m_producer_tail ≤ m'.m_producer_tail
    consumer_head : m.m_consumer_head ≤ m'.m_consumer_head
    consumer_tail : m.m_consumer_tail ≤ m'.m_consumer_tail
    slot : (b : ℕ) → slot_of q ≡ some b → m'.m_consumer_head ≤ b
    element : (b : ℕ) → element_of q ≡ some b → m'.m_producer_tail ≤ b

  Grows-Local : (m m' : Memory T) (q : Pc T) → Grows m m' q → Local m q → Local m' q
  Grows-Local m m' (push_store e old) g l = ground (arith, g.slot old)
  Grows-Local m m' (push_wait e old) g l = ground (arith, g.slot old)
  Grows-Local m m' (pop_read old) g l = ground (arith, g.element old)
  Grows-Local m m' (pop_wait e old) g l = ground (arith, g.element old)
  Grows-Local m m' q g l = ground arith

  -- What another thread relies on stays true.
  pub Move-others :
      {m m' : Memory T} {p p' : Pc T} {events : List (Event T)}
      → Move m p m' p' events
      → (q : Pc T) → Apart (slot_of p) (slot_of q)
      → Apart (element_of p) (element_of q)
      → Local m q
      → Local m' q
  Move-others (start_push e) q slots elements o = o
  Move-others load_head q slots elements o = o
  Move-others (full h) q slots elements o = o
  Move-others (room h) q slots elements o = o
  Move-others {m} {m'} (claim_slot {old} h) q slots elements o =
      Grows-Local m m' q
        (record {
          same = refl;
          producer_head = omega arith;
          producer_tail = omega arith;
          consumer_head = omega arith;
          consumer_tail = omega arith;
          slot = λ b e. (Local-slot m q o e).0;
          element = λ b e. (Local-element m q o e).0;
        })
        o
  Move-others claim_slot_fails q slots elements o = o
  Move-others {m} {m'} (store {old}) q slots elements o =
      Grows-Local m m' q
        (record {
          same = refl;
          producer_head = omega arith;
          producer_tail = omega arith;
          consumer_head = omega arith;
          consumer_tail = omega arith;
          slot = λ b e. (Local-slot m q o e).0;
          element = λ b e. (Local-element m q o e).0;
        })
        o
  Move-others {m} {m'} (publish {old} h) q slots elements o =
      Grows-Local m m' q
        (record {
          same = refl;
          producer_head = omega arith;
          producer_tail = omega arith;
          consumer_head = omega arith;
          consumer_tail = omega arith;
          slot = λ b e. omega (arith, Local-slot m q o e, slots old b refl e);
          element = λ b e. (Local-element m q o e).0;
        })
        o
  Move-others publish_fails q slots elements o = o
  Move-others start_pop q slots elements o = o
  Move-others load_tail q slots elements o = o
  Move-others (nothing h) q slots elements o = o
  Move-others (something h) q slots elements o = o
  Move-others {m} {m'} (claim_element {old} h) q slots elements o =
      Grows-Local m m' q
        (record {
          same = refl;
          producer_head = omega arith;
          producer_tail = omega arith;
          consumer_head = omega arith;
          consumer_tail = omega arith;
          slot = λ b e. (Local-slot m q o e).0;
          element = λ b e. (Local-element m q o e).0;
        })
        o
  Move-others claim_element_fails q slots elements o = o
  Move-others (read h) q slots elements o = o
  Move-others {m} {m'} (release {old} h) q slots elements o =
      Grows-Local m m' q
        (record {
          same = refl;
          producer_head = omega arith;
          producer_tail = omega arith;
          consumer_head = omega arith;
          consumer_tail = omega arith;
          slot = λ b e. (Local-slot m q o e).0;
          element = λ b e. omega (arith, Local-element m q o e, elements old b refl e);
        })
        o
  Move-others release_fails q slots elements o = o

  -- What a thread claims is claimed by no other.
  pub Move-Apart :
      {m m' : Memory T} {p p' : Pc T} {events : List (Event T)}
      → Move m p m' p' events
      → (q : Pc T) → Apart (slot_of p) (slot_of q)
      → Apart (element_of p) (element_of q)
      → Local m q
      → Apart (slot_of p') (slot_of q) × Apart (element_of p') (element_of q)
  Move-Apart (start_push e) q slots elements o = (λ a b e f. cc, λ a b e f. cc)
  Move-Apart load_head q slots elements o = (λ a b e f. cc, λ a b e f. cc)
  Move-Apart (full h) q slots elements o = (λ a b e f. cc, λ a b e f. cc)
  Move-Apart (room h) q slots elements o = (λ a b e f. cc, λ a b e f. cc)
  Move-Apart {m} (claim_slot {old} h) q slots elements o =
      (λ a b e f. ground (arith, Local-slot m q {b = b} o f), λ a b e f. cc)
  Move-Apart claim_slot_fails q slots elements o = (λ a b e f. cc, λ a b e f. cc)
  Move-Apart store q slots elements o = (slots, elements)
  Move-Apart (publish h) q slots elements o = (λ a b e f. cc, λ a b e f. cc)
  Move-Apart publish_fails q slots elements o = (slots, elements)
  Move-Apart start_pop q slots elements o = (λ a b e f. cc, λ a b e f. cc)
  Move-Apart load_tail q slots elements o = (λ a b e f. cc, λ a b e f. cc)
  Move-Apart (nothing h) q slots elements o = (λ a b e f. cc, λ a b e f. cc)
  Move-Apart (something h) q slots elements o = (λ a b e f. cc, λ a b e f. cc)
  Move-Apart {m} (claim_element {old} h) q slots elements o =
      (λ a b e f. cc, λ a b e f. ground (arith, Local-element m q {b = b} o f))
  Move-Apart claim_element_fails q slots elements o = (λ a b e f. cc, λ a b e f. cc)
  Move-Apart (read h) q slots elements o = (slots, elements)
  Move-Apart (release h) q slots elements o = (λ a b e f. cc, λ a b e f. cc)
  Move-Apart release_fails q slots elements o = (slots, elements)

  pub Move-capacity :
      {m m' : Memory T} {p p' : Pc T} {events : List (Event T)}
      → Move m p m' p' events
      → m'.m_capacity ≡ m.m_capacity
  Move-capacity (start_push e) = refl
  Move-capacity load_head = refl
  Move-capacity (full h) = refl
  Move-capacity (room h) = refl
  Move-capacity (claim_slot h) = refl
  Move-capacity claim_slot_fails = refl
  Move-capacity store = refl
  Move-capacity (publish h) = refl
  Move-capacity publish_fails = refl
  Move-capacity start_pop = refl
  Move-capacity load_tail = refl
  Move-capacity (nothing h) = refl
  Move-capacity (something h) = refl
  Move-capacity (claim_element h) = refl
  Move-capacity claim_element_fails = refl
  Move-capacity (read h) = refl
  Move-capacity (release h) = refl
  Move-capacity release_fails = refl
