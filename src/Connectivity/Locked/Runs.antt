-- ===== src/Connectivity/Locked/Runs.antt =====
-- Runs of the union-finds with mutexes, one step of a thread after another.
use wt_lab_efficient_paral.Common.{ℕ, ◌≡◌, List, ◌++◌, update}
use wt_lab_efficient_paral.Connectivity.Concurrent.{Event}
use wt_lab_efficient_paral.Connectivity.Locked.{Build, Memory, Pc, System, Move, Reach, later, pick}

-- A thread whose place is known makes its step.
pub move :
    {build : Build} {n : ℕ} (i : ℕ) {s : System} {p p' : Pc} {m : Memory} {events : List Event}
    → s.pc i ≡ p
    → Move build i s.mem p m p' events
    → Reach build n s
    → Reach build n (record { mem = m; pc = update s.pc i p'; log = events ++ s.log })
move i place mv r = later r (pick i (rw place mv))
