-- ===== src/Lib.antt =====
-- Verification library for the exercises of the lab course on efficient parallel C++.
--
-- The repository holds five independent exercises. Modelled are the priority queues and the hash
-- tables of exercise 1, the addressable queue, the graphs and the BFS of exercise 2, the
-- union-finds of exercise 3, the queues between threads and the solvers of exercise 4, and the
-- sequential parts of the hash maps of exercise 5.
--
-- Common: lists under native indices (vectors), the Option monad for code that may fault with the
-- predicate `Ends` (the code ends without a fault, in a value with a property), and masks bit by
-- bit.
--
-- Pq: exercise1/pq/implementation. Tree holds the index arithmetic of child and parent that the
-- queues share, Order what a comparator must be (a strict weak ordering, as std::priority_queue
-- asks).
-- - Pq/AlignedVector models AlignedVector.h, the storage of the default build: its capacity is fixed
--   by the constructor, and push_back on a full one fails its assert.
-- - Pq/PriQueueA models pq_a.h, whose degree is given at run time; Heap proves the two sifting
--   loops on any vector (Heap/Up, Heap/Down), and PriQueueA/Correct concludes for the methods,
--   and PriQueueA/Check for is_valid.
-- - Pq/PriQueueB models pq_b.h, which walks full rows of children and then a last row that is not
--   full (PriQueueB/Down).
-- - Pq/PriQueueC models pq_c.h, which shifts by m_log_degree; PriQueueC/Refines carries it to
--   PriQueueA.
-- - Pq/PriQueueD models pq_d.h, the queue with handles. PriQueueD/Simulate shows that its loops do
--   to the elements what those of PriQueueA do and keep the positions, Methods and ChangeKey
--   conclude.
-- - Pq/IndexedPriorityQueue models exercise2/implementation/indexed_priority_queue.hpp, a binary
--   heap from index 1 that is addressed by keys. A sift has as many rounds as the heap has
--   entries.
--
-- Hash: exercise1/hash/implementation. HashA models hash_a.h and cell.h. HashA/Probe treats the
-- probing loops, Reach the invariant that a key stands before the first empty cell of its probes.
-- HashB models hash_b.h, the same table with masks, and HashB/Refines carries it to HashA.
--
-- ChainMap: exercise5/src. Utils models the powers of two of utils.h, and MarkedPtr the tagged
-- pointer of marked_ptr.h. Lists/SingleMutexList models lists/single_mutex_list.h, a chain behind
-- one mutex. Lists/NodeMutexList models lists/node_mutex_list.h, whose methods also give the
-- sequence of their lock and unlock calls. Bucket is the interface that the concept of bucket.h
-- stands for, with the laws that its clients rely on; ListBucket models the class of that name and
-- fills it, and BloomFilter models bloom_filter.h, which makes a bucket from a bucket. HashMap
-- models hash_map.h over any bucket; its theorems use nothing of a bucket but the interface.
--
-- Graphs: exercise2/implementation. EdgeList has the edges and the specification, the edges that
-- leave a node. Index is the counting sort that adj_array.hpp and both weighted graphs use:
-- Index/Counts proves where the edges of each node begin, Index/Fill that each edge goes to its
-- place, Index/Rows what a client reads. AdjArray, WeightedPaired and WeightedSeparated model those
-- classes; AdjList and NodeGraph model adj_list.hpp and node_graph.hpp, with Append for their
-- loops. A client reads a graph by iterating from beginEdges to endEdges, which is a function to
-- the list of what it reads. Bfs models bfs.hpp over an interface of graphs that the adjacency
-- array fills (Bfs/OnArray): Bfs/Grown and Bfs/Loops treat the two inner loops, Bfs/Correct the
-- levels; num_nodes + 2 rounds of the outer loop are enough, since a level that is not empty marks
-- nodes. The counters of adj_array.hpp wrap around in its index type; the index types of the weighted
-- graphs and of adj_list.hpp are left aside, but for the check that the constructors make.
--
-- Connectivity: exercise3/implementation. Joined is the specification: the closure of a relation of
-- edges to an equivalence. Concurrent models the union-find of dynamic_connectivity.hpp and .cpp in
-- the default build: Forest and Local hold the invariant of the shared array and what a thread may
-- rely on, Moves and Keeps show that a move keeps them, Roots treats representatives, and Correct
-- concludes. Components models num_components.hpp on the same forests; its search goes to greater
-- numbers, so a round for each node is enough. Sequential models the union-find of
-- dynamic_connectivity_sequential.cpp; its children View, Compress and Link treat the search, the
-- compression and the union, State and Correct the loop over the edges. Locked models
-- dynamic_connectivity_mt.hpp with dynamic_connectivity_b.cpp to _e.cpp, which lock both roots:
-- Locks and Asserts hold what the mutexes give a thread, Trees, Local, Keeps and Correct treat the
-- build without compression, and Cycle the compression of the others.
--
-- Queues: exercise4/implementation. ConcurrentQueue models concurrent_queue.hpp, a ring with four
-- counters; ConcurrentContainer models concurrent_container.hpp, an array that threads search;
-- CasElement models concurrent_queue_cas_element.hpp, and MutexStdQueue models mutex_std_queue.hpp.
--
-- Tasks: exercise4/implementation. Tree models tree.hpp, whose `done` the solvers share; Tree/Trees
-- says what the arrays of a tree satisfy. Sequential models tree_solver_sequential.hpp, Naive
-- tree_solver_naive.hpp and Solver tree_solver.hpp. Their proofs rest on one balance: a node whose
-- parent is done stands in exactly one queue, thread or place of `done` (Sequential/Correct,
-- Naive/Balance and Invariant, Solver/Balance and Safety). Naive/Progress treats
-- threads that cannot go on, and Naive/Ends the number of steps. Dag models dag.hpp and DagSolver
-- dag_solver.hpp, with the same balance in DagSolver/Balance, the order of the work in
-- DagSolver/Order, and all of it together in DagSolver/Safety.
--
-- Conventions. A method is a function from the state before to the state after and its result. In
-- Option, `none` is a failed assert, an access that C++ leaves undefined, or a loop that has used
-- up its fuel; a theorem that says that the code ends excludes all of them. The exception of
-- HashA::at and HashB::at is a result: an inner `none`; the error that a constructor throws for too
-- many nodes is the outer one. Fuel: a sifting loop upwards from i has i + 1 rounds, since a parent
-- is below its child; downwards it has size + 1, since the index grows; next_power_of_two has 64,
-- the number of shifts; the search of the locking union-find has one round for each node, since a
-- parent is not above its child; TreeSolverSequential has one for each task and one for the end.
-- The bounded probing loop counts its rounds by itself. The element and key types, comparators,
-- hash functions and equality tests of the templates are parameters, with the laws that the
-- standard asks of them as hypotheses. Indices are natural numbers: the wrap-around of std::size_t
-- is written out where code relies on it (utils.h, AlignedVector.h) and left aside in index arithmetic, where it
-- would take a vector of 2 ^ 64 / degree elements. A shift by 64 places or more is a fault. The
-- counter num_work_left of the solvers keeps the 32 bits of its int.
--
-- Concurrent code is a step relation. A state holds the shared memory, for each thread where it
-- stands (`Pc`, with the local variables that are live there), and a log of what calls returned.
-- `Move` has one constructor for each access to an atomic and the branch taken after it; `Step`
-- picks a thread, and `Reach` is what steps reach from the start; `Run` of ConcurrentQueue is what
-- one thread reaches alone. Accesses are sequentially
-- consistent, which is the default order of std::atomic that the code uses, but for the estimate
-- num_elements_in_queues of tree_solver.hpp, on which no theorem depends. Threads are numbered by
-- ℕ, so any number of them may run.
--
-- Not modelled: the lock-free lists and the shared pointers of exercise 5, interleavings of the
-- methods of node_mutex_list, dijkstra.hpp of exercise 2, the search for a spanning forest around
-- the union-finds of exercise 3, the constructors of the tasks of exercise 4, which read files, the
-- statistics of tree_solver.hpp, and the programs around the data structures (tests, benchmarks,
-- generators, readers of files and of command lines), which are input and output. Moves are copies:
-- the code modelled reads no value of a template's type after it was moved from, but for the pop of
-- an IndexedPriorityQueue with one entry, which writes the value back to the place that is then
-- removed.
pub mod ChainMap
pub mod Common
pub mod Connectivity
pub mod Graphs
pub mod Hash
pub mod Pq
pub mod Queues
pub mod Tasks
