-- ===== src/Process/Ops.antt =====
-- What PHP code, the deferred queue and SIGCHLD do with processes, as steps of one program.
use php_ion.Base.{ℕ, Option, none, some, List, [], ◌∷◌, Bytes, get_elem?, set, ◌>>=◌}
use php_ion.Process.Objects.{ChildProcess, Processes, Status, Outcome, next, thrown, crashed}
use php_ion.Process.Child.{construct, start, when_exit, when_started}
use php_ion.Process.Spawn.{Fork, spawn}
use php_ion.Process.Reap.{sigchld}
use php_ion.Process.Exec.{System, Options, Result, parent, refused, child, exec}

-- A place of an object is a PHP variable that holds it.
pub data Op : Type 0 where
  new : Option (ℕ × ℕ) → Op
  start_child : ℕ → ℕ → Op
  spawn_child : ℕ → Fork → Op
  ask_exit ask_started : ℕ → ℕ → Op
  run : System → Bytes → Options → Op
  ended : List (ℕ × Status) → Op

-- PHP code catches the exception; `none` is a use of NULL.
unfoldable pub caught : Outcome → Option Processes
caught (next s) = some s
caught (thrown f s) = some s
caught crashed = none

-- The child of exec() is another program, or ends.
unfoldable pub here : Processes → Result → Option Processes
here s (parent s' p) = some s'
here s (refused f) = some s
here s (child calls) = none

abbrev pub put_child : ℕ → ChildProcess → Processes → Processes
put_child id c s = record s { objects = set s.objects id c }

unfoldable pub step : (Bytes → Option Bytes × Bytes) → Op → Processes → Option Processes
unfolding caught construct start spawn when_exit when_started sigchld exec here
step read_all (new ends) s = caught (construct ends s)
step read_all (start_child id callback) s = do
  c ← get_elem? s.objects id
  some (start id callback c s)
step read_all (spawn_child id fork) s = do c ← get_elem? s.objects id; caught (spawn id c fork s)
step read_all (ask_exit id fresh) s = do
  c ← get_elem? s.objects id
  some (put_child id (when_exit fresh c).0 s)
step read_all (ask_started id fresh) s = do
  c ← get_elem? s.objects id
  some (put_child id (when_started fresh c).0 s)
step read_all (run os command options) s = here s (exec os command options s)
step read_all (ended processes) s = sigchld read_all processes s

unfoldable pub steps : (Bytes → Option Bytes × Bytes) → List Op → Processes → Option Processes
unfolding step
steps read_all [] s = some s
steps read_all (op ∷ rest) s = step read_all op s >>= steps read_all rest

-- A process that has started none.
abbrev pub empty : ℕ → Processes
empty self = record {
  self = self;
  proc_childs = [];
  proc_execs = [];
  objects = [];
  exec_objects = [];
  parent_ipc = none;
  effects = [];
}
