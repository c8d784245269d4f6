-- ===== src/Process/Exec.antt =====
-- exec() of src/classes/ION/Process.c. The results of the calls of the system are arguments. The closed ends of
-- the pipes, the line in the environment and the reference that takes the pid are not modelled.
use php_ion.Base.{
  ℕ, Option, none, some, List, [], ◌∷◌, ◌++◌, Bool, true, false, not, if◌then◌else◌, Bytes, length,
}
use php_ion.Process.Table.{add}
use php_ion.Process.Objects.{
  Exec, Processes, Fault, no_user_info, no_stdout, no_stderr, exec_fork_fail,
}

-- The user that ion_get_pw_by_zval looks for: its uid and gid, or NULL with errno set or not.
pub data Lookup : Type 0 where
  found : ℕ → ℕ → Lookup
  missing failed : Lookup

pub record Options : Type 0 where
  pub user : Option Lookup
  pub set_group : Option Bool
  pub cwd : Option Bytes

-- What the system answers: pipes and calls of the child that succeed, and the number of the child
-- (`none` after fork() gave -1; `some none` is the child itself).
pub record System : Type 0 where
  pub out_pipe : Bool
  pub err_pipe : Bool
  pub fork : Option (Option ℕ)
  pub dup_out : Bool
  pub dup_err : Bool
  pub set_gid : Bool
  pub set_uid : Bool
  pub chdir : Bool
  pub exec : Bool
  -- the new deferred
  pub fresh : ℕ

-- What the child calls.
pub data Call : Type 0 where
  dup_out dup_err : Call
  perror : Call
  set_gid set_uid : ℕ → Call
  print_gid print_uid print_chdir : Call
  chdir : Bytes → Call
  exec_shell : Bytes → Call
  exit_failed : Call

-- The parent or the child goes on.
pub data Result : Type 0 where
  parent : Processes → ℕ → Result
  refused : Fault → Result
  child : List Call → Result

-- `pw` and `set_group`
unfoldable pub user_of : Options → Option (ℕ × ℕ)
user_of o = elim o.user [
  | none ↦ none
  | some (found uid gid) ↦ some (uid, gid)
  | some missing ↦ none
  | some failed ↦ none
]

unfoldable pub wants_group : Options → Bool
wants_group o = elim o.user [
  | none ↦ false
  | some l ↦ elim o.set_group [ none ↦ false | some b ↦ b ]
]

unfoldable pub lookup_failed : Options → Bool
lookup_failed o = elim o.user [
  | none ↦ false
  | some (found uid gid) ↦ false
  | some missing ↦ false
  | some failed ↦ true
]

abbrev pub unless : Bool → Call → List Call
unless true c = []
unless false c = c ∷ []

unfoldable pub switch_user : System → Option (ℕ × ℕ) → Bool → List Call
switch_user os none group = []
switch_user os (some (uid, gid)) group =
    (if group then set_gid gid ∷ unless os.set_gid print_gid else [])
    ++ (set_uid uid ∷ unless os.set_uid print_uid)

unfoldable pub change_directory : System → Option Bytes → List Call
change_directory os none = []
change_directory os (some dir) = chdir dir ∷ unless os.chdir print_chdir

-- Where execle succeeds it does not return.
unfoldable pub run_shell : System → Bytes → List Call
run_shell os command =
    if os.exec then exec_shell command ∷ [] else exec_shell command ∷ perror ∷ exit_failed ∷ []

-- The branch of the child.
unfoldable pub child_calls : System → Options → Bytes → List Call
unfolding user_of wants_group switch_user change_directory run_shell
child_calls os o command =
    if not os.dup_out
    then dup_out ∷ perror ∷ exit_failed ∷ []
    else if not os.dup_err
    then dup_out ∷ dup_err ∷ perror ∷ exit_failed ∷ []
    else dup_out
      ∷ dup_err
      ∷ (switch_user os (user_of o) (wants_group o)
          ++ (change_directory os o.cwd ++ run_shell os command))

unfoldable pub new_exec : Bytes → ℕ → ℕ → Exec
new_exec command pid fresh = record {
  pid = pid;
  out = [];
  err = [];
  deferred = some fresh;
  command = command;
  pid_property = 0;
  signaled = false;
  signal = 0;
  status = 0;
  stdout = [];
  stderr = [];
}

-- The branch of the parent.
unfoldable pub exec_parent : Bytes → ℕ → ℕ → Processes → Processes
unfolding add new_exec
exec_parent command pid fresh s = record s {
  proc_execs = add pid (length s.exec_objects) s.proc_execs;
  exec_objects = s.exec_objects ++ new_exec command pid fresh ∷ [];
}

-- The new promise comes with the state.
unfoldable pub exec : System → Bytes → Options → Processes → Result
unfolding lookup_failed exec_parent child_calls
exec os command o s =
    if lookup_failed o
    then refused no_user_info
    else if not os.out_pipe
    then refused no_stdout
    else if not os.err_pipe
    then refused no_stderr
    else elim os.fork [
      | none ↦ refused exec_fork_fail
      | some none ↦ child (child_calls os o command)
      | some (some pid) ↦ parent (exec_parent command pid os.fresh s) os.fresh
    ]
