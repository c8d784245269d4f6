-- ===== src/Process/Settles.antt =====
-- What SIGCHLD does with one child among all the processes that ended.
use php_ion.Base.{ℕ, ◌≡◌, ◌≢◌, ◌+◌, Option, some, List, [], ◌∷◌, Bytes, get_elem?}
use php_ion.Process.Table.{find}
use php_ion.Process.Objects.{ChildProcess, Processes, Status}
use php_ion.Process.Reap.{end_child}
use php_ion.Process.Tracked.Times.{times, once}

-- A number is not among those of a list.
abbrev pub Absent : ℕ → List (ℕ × Status) → Type 0
Absent pid [] = Unit {0}
Absent pid ((q, status) ∷ rest) = (q ≢ pid) × Absent pid rest

-- The child has ended, its promise of whenExit() was kept once more, and no other promise got it.
pub record Settled (id : ℕ) (c : ChildProcess) (status : Status) (s s' : Processes) : Type 0 where
  pub object_eq : get_elem? s'.objects id ≡ some (end_child status c)
  pub times_eq : (q : ℕ) → times q id s'.effects ≡ times q id s.effects + once q c.prom_exit

module _ (read_all : Bytes → Option Bytes × Bytes) where
  -- No entry leads to the object.
  abbrev Unlisted : ℕ → Processes → Type 0
  Unlisted id s = (i j : ℕ) → find i s.proc_childs ≡ some j → j ≢ id
