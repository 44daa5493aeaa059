-- ===== src/ChainMap/Tests.antt =====
-- Runs of the lists and the theorems of the hash maps' parts at concrete inputs.
use wt_lab_efficient_paral.Common.{
  ◌<◌, ◌^◌, ℕ, ◌≡◌, refl, true, List, [], ◌∷◌, some, Ends, ◌==◌, arith,
}
use wt_lab_efficient_paral.ChainMap.MarkedPtr
use wt_lab_efficient_paral.ChainMap.Lists.SingleMutexList
use wt_lab_efficient_paral.ChainMap.Lists.NodeMutexList
use wt_lab_efficient_paral.ChainMap.Lists.NodeMutexList.Locking.{follow, node_mutex_discipline}
use wt_lab_efficient_paral.ChainMap.Lists.NodeMutexList.Agrees.{node_mutex-agrees}

abbrev three_nodes : List ℕ
three_nodes = 4 ∷ 7 ∷ 9 ∷ []

insert_run : SingleMutexList.insert ◌==◌ 5 three_nodes ≡ (4 ∷ 7 ∷ 9 ∷ 5 ∷ [], some 5, true)
unfolding SingleMutexList.insert SingleMutexList.insert_from
insert_run = refl

erase_run : SingleMutexList.erase ◌==◌ 7 three_nodes ≡ (4 ∷ 9 ∷ [], true)
unfolding SingleMutexList.erase
erase_run = refl

node_mutex-agrees_example :
    (let r = NodeMutexList.insert ◌==◌ 5 three_nodes in
      SingleMutexList.insert ◌==◌ 5 three_nodes ≡ (r.0, r.1, r.2))
    × ((NodeMutexList.find ◌==◌ 7 three_nodes).0 ≡ SingleMutexList.find ◌==◌ 7 three_nodes)
    × (let r = NodeMutexList.erase ◌==◌ 7 three_nodes in
        SingleMutexList.erase ◌==◌ 7 three_nodes ≡ (r.0, r.1))
    × ((NodeMutexList.size three_nodes).0 ≡ SingleMutexList.size three_nodes)
node_mutex-agrees_example = node_mutex-agrees ◌==◌ ◌==◌ three_nodes 5 7

node_mutex_discipline_example :
    (follow (NodeMutexList.insert ◌==◌ 5 three_nodes).3 [] ≡ some [])
    × (follow (NodeMutexList.find ◌==◌ 7 three_nodes).1 [] ≡ some [])
    × (follow (NodeMutexList.erase ◌==◌ 7 three_nodes).2 [] ≡ some [])
    × (follow (NodeMutexList.size three_nodes).1 [] ≡ some [])
    × (follow (NodeMutexList.empty three_nodes).1 [] ≡ some [])
    × (follow (NodeMutexList.clear three_nodes).1 [] ≡ some [])
node_mutex_discipline_example = node_mutex_discipline ◌==◌ ◌==◌ three_nodes 5 7

marked_ptr_roundtrip_example :
    (MarkedPtr.make 4096 ≡ some 4096)
    × (MarkedPtr.get 4096 ≡ some 4096)
    × Ends
        (λ p.
          (p < 2 ^ 64)
          × (MarkedPtr.is_marked p ≡ true)
          × (MarkedPtr.get_unmarked p ≡ 4096)
          × (MarkedPtr.as_unmarked p ≡ some 4096))
        (MarkedPtr.as_marked 4096)
marked_ptr_roundtrip_example = MarkedPtr.marked_ptr_roundtrip 4096 (omega arith)
