-- ===== src/Pq/IndexedPriorityQueue.antt =====
-- exercise2/implementation/indexed_priority_queue.hpp: a binary heap addressed by keys, which are
-- numbers. The heap starts at index 1, and index 0 of `index_` stands for "not there".
pub mod LastChild
use wt_lab_efficient_paral.Common.{
  ℕ, zero, suc, ◌+◌, ◌-◌, ◌*◌, ◌/◌, Bool, true, false, not, List, [], ◌∷◌, ◌++◌, Option, none, some,
  ltb, ◌==◌, ◌&&◌, if◌then◌else◌, length, get_elem?, set, take, replicate, ◌>>=◌,
}

pub record IndexedPriorityQueue (V : Type 0) : Type 0 where
  pub heap : List (ℕ × V)
  pub index : List ℕ

-- The vectors that the sifting loops write.
abbrev pub Vectors : Type 0 → Type 0
Vectors V = List (ℕ × V) × List ℕ

-- `a[i] = x`, within bounds.
abbrev write : {A : Type 0} → List A → ℕ → A → Option (List A)
write a i x = if ltb i (length a) then some (set a i x) else none

module _ {V : Type 0} where
  -- `blank` is the value-initialised pair at index 0.
  unfoldable pub init : ℕ × V → ℕ → IndexedPriorityQueue V
  init blank capacity = record { heap = blank ∷ []; index = replicate capacity 0 }

  unfoldable pub reserve : ℕ → IndexedPriorityQueue V → IndexedPriorityQueue V
  reserve capacity q =
      if ltb (length q.index) capacity
      then record q { index = q.index ++ replicate (capacity - length q.index) 0 }
      else q

  unfoldable pub empty : IndexedPriorityQueue V → Bool
  empty q = length q.heap == 1

  unfoldable pub top : IndexedPriorityQueue V → Option (ℕ × V)
  top q = get_elem? q.heap 1

  unfoldable pub has_key : ℕ → IndexedPriorityQueue V → Option Bool
  has_key key q = do i ← get_elem? q.index key; some (not (i == 0))

  unfoldable pub priority : ℕ → IndexedPriorityQueue V → Option V
  priority key q = do i ← get_elem? q.index key; x ← get_elem? q.heap i; some x.1

  unfoldable pub clear : IndexedPriorityQueue V → IndexedPriorityQueue V
  clear q = record { heap = take 1 q.heap; index = replicate (length q.index) 0 }

  -- `heap_[i] = x; index_[x.first] = i;`
  unfoldable pub place : Vectors V → ℕ → ℕ × V → Option (Vectors V)
  place (heap, index) i x = do
    heap' ← write heap i x
    index' ← write index x.0 i
    some (heap', index')

module _ {V : Type 0} (comp : V → V → Bool) where
  unfoldable pub sift_up : ℕ → Vectors V → ℕ → ℕ → V → Option (Vectors V)
  unfolding place
  sift_up zero v i key value = none
  sift_up (suc fuel) v i key value =
      let parent = i / 2 in
      let rise = λ (x : ℕ × V). place v i x >>= λ w. sift_up fuel w parent key value in
      let round : Option (Vectors V) =
        get_elem? v.0 parent >>= λ x. if comp x.1 value then rise x else place v i (key, value) in
      if ltb 0 parent then round else place v i (key, value)

  unfoldable pub sift_down : ℕ → Vectors V → ℕ → ℕ → V → Option (Vectors V)
  unfolding place
  sift_down zero v i key value = none
  sift_down (suc fuel) v i key value =
      let child = i * 2 in
      let sink = λ (c : ℕ) (x : ℕ × V). place v i x >>= λ w. sift_down fuel w c key value in
      let round : Option (Vectors V) = do
        left ← get_elem? v.0 child
        right ← get_elem? v.0 (child + 1)
        let larger = if comp left.1 right.1 then child + 1 else child
        x ← get_elem? v.0 larger
        if not (comp value x.1) then place v i (key, value) else sink larger x
      in if ltb child (length v.0 - 1) then round else place v i (key, value)

  -- `emplace_back` adds a value-initialised pair, `blank`.
  unfoldable pub push : ℕ × V → ℕ → V → IndexedPriorityQueue V → Option (IndexedPriorityQueue V)
  push blank key value q = do
    let heap = q.heap ++ blank ∷ []
    w ← sift_up (length heap) (heap, q.index) (length heap - 1) key value
    some (record { heap = w.0; index = w.1 })

  unfoldable pub change_priority : ℕ → V → IndexedPriorityQueue V → Option (IndexedPriorityQueue V)
  unfolding priority
  change_priority key new_value q = do
    old ← priority key q
    i ← get_elem? q.index key
    w ←
        if comp new_value old
        then sift_down (length q.heap) (q.heap, q.index) i key new_value
        else sift_up (suc i) (q.heap, q.index) i key new_value
    some (record { heap = w.0; index = w.1 })

  unfoldable pub push_or_change_priority :
      ℕ × V → ℕ → V → IndexedPriorityQueue V → Option (IndexedPriorityQueue V)
  unfolding has_key
  push_or_change_priority blank key new_value q = do
    there ← has_key key q
    if there then change_priority key new_value q else push blank key new_value q

  unfoldable pub pop : IndexedPriorityQueue V → Option ((ℕ × V) × IndexedPriorityQueue V)
  pop q = do
    r ← get_elem? q.heap 1
    back ← get_elem? q.heap (length q.heap - 1)
    w ← sift_down (length q.heap) (q.heap, q.index) 1 back.0 back.1
    index ← write w.1 r.0 0
    some (r, record { heap = take (length w.0 - 1) w.0; index = index })
