-- ===== src/Process/Reap.antt =====
-- src/ion/ion_process.c: ion_process_sigchld and ion_process_exec_exit, with ion_process_child_exit of
-- src/classes/ION/Process/ChildProcess.c. The calls of waitpid give a list of processes; that the pointers of
-- the tables lead to objects is what Process/Tracked.antt shows for children.
use php_ion.Base.{
  ℕ, Option, none, some, List, [], ◌∷◌, true, ◌==◌, not, if◌then◌else◌, Bytes, get_elem?, set,
  ◌>>=◌,
}
use php_ion.Process.Table.{find, delete}
use php_ion.Process.Objects.{
  ChildProcess, Exec, Processes, Status, killed, stopped, exited, emit, fulfil, fulfilled_exec,
}

-- What a status leaves in a child.
unfoldable pub end_child : Status → ChildProcess → ChildProcess
end_child (killed sig raw) c = record c { signal = sig; exit_status = some raw; signaled = true }
end_child (stopped sig) c = c
end_child (exited code) c =
    if code == 0
    then record c { exit_status = some code; done = true }
    else record c { exit_status = some code; failed = true }

-- ion_process_child_exit
unfoldable pub child_exit : ℕ → ChildProcess → Status → Processes → Processes
unfolding end_child
child_exit id c status s =
    if not (c.ppid == s.self)
    then s
    else fulfil c.prom_exit id (record s { objects = set s.objects id (end_child status c) })

-- The properties that a status leaves in an exec.
unfoldable pub end_exec : Status → Exec → Exec
end_exec (killed sig raw) e = record e {
  pid_property = e.pid;
  signaled = true;
  signal = sig;
  status = raw;
}
end_exec (stopped sig) e = record e { pid_property = e.pid; status = sig }
end_exec (exited code) e = record e { pid_property = e.pid; status = code }

abbrev pub or_kept : Bytes → Option Bytes → Bytes
or_kept old none = old
or_kept old (some b) = b

-- `read_all` is ion_buffer_read_all: the string, where it is not NULL, and what stays.
module _ (read_all : Bytes → Option Bytes × Bytes) where
  -- The exec behind ion_process_exec_exit.
  unfoldable pub finish_exec : Exec → Status → Exec
  unfolding end_exec
  finish_exec e status =
      let (out, out_rest) = read_all e.out in
      let (err, err_rest) = read_all e.err in
      let e' = end_exec status e in
      record e' {
        stdout = or_kept e'.stdout out;
        stderr = or_kept e'.stderr err;
        out = out_rest;
        err = err_rest;
        deferred = none;
      }

  -- ion_process_exec_exit; `none` is a use of NULL, here and below.
  unfoldable pub exec_exit : ℕ → Exec → Status → Processes → Option Processes
  unfolding finish_exec
  exec_exit id e status s = do
    promise ← e.deferred
    some (
        emit (fulfilled_exec promise id)
          (record s { exec_objects = set s.exec_objects id (finish_exec e status) }))

  unfoldable pub reap_exec : ℕ → Status → Processes → Option Processes
  unfolding find delete exec_exit
  reap_exec pid status s = elim (find pid s.proc_execs) [
    | none ↦ some s
    | some id ↦ do
      e ← get_elem? s.exec_objects id
      exec_exit id e status (record s { proc_execs = delete pid s.proc_execs })
  ]

  -- One round of the loop of ion_process_sigchld.
  unfoldable pub reap : ℕ → Status → Processes → Option Processes
  unfolding find delete child_exit reap_exec
  reap pid status s = elim (find pid s.proc_childs) [
    | none ↦ reap_exec pid status s
    | some id ↦ do
      c ← get_elem? s.objects id
      some (child_exit id c status (record s { proc_childs = delete pid s.proc_childs }))
  ]

  unfoldable pub sigchld : List (ℕ × Status) → Processes → Option Processes
  unfolding reap
  sigchld [] s = some s
  sigchld ((pid, status) ∷ rest) s = reap pid status s >>= sigchld rest
