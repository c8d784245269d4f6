-- ===== src/Process/Objects.antt =====
-- `struct _ion_process_child` and `struct _ion_process_exec` of src/ion/ion_process.h, and what of the
-- globals the processes use. Flags are single fields; no code here sets ABORT.
use php_ion.Base.{ℕ, Option, none, some, List, [], ◌∷◌, ◌++◌, Bool, Bytes}

-- An exit status of -1 is `none`.
pub record ChildProcess : Type 0 where
  pub done : Bool
  pub failed : Bool
  pub signaled : Bool
  pub abort : Bool
  pub started : Bool
  pub pid : ℕ
  pub ppid : ℕ
  pub exit_status : Option ℕ
  pub signal : ℕ
  pub ipc_parent : Option ℕ
  pub ipc_child : Option ℕ
  pub on_start : Option ℕ
  pub prom_exit : Option ℕ
  pub prom_started : Option ℕ

-- Both pipes with what waits in them, and the properties of the PHP object.
pub record Exec : Type 0 where
  pub pid : ℕ
  pub out : Bytes
  pub err : Bytes
  pub deferred : Option ℕ
  pub command : Bytes
  pub pid_property : ℕ
  pub signaled : Bool
  pub signal : ℕ
  pub status : ℕ
  pub stdout : Bytes
  pub stderr : Bytes

-- The status of waitpid, as WIFSIGNALED, WTERMSIG, WIFSTOPPED and WEXITSTATUS read it; a signal comes
-- with the whole number.
pub data Status : Type 0 where
  killed : ℕ → ℕ → Status
  stopped : ℕ → Status
  exited : ℕ → Status

-- Promises, callbacks, IPC objects, sequences and events are numbers.
pub data Effect : Type 0 where
  -- ion_promisor_done with a child, or with an exec
  fulfilled_child fulfilled_exec : ℕ → ℕ → Effect
  -- ion_promisor_done_long
  fulfilled_long : ℕ → ℕ → Effect
  -- pion_cb_call_with_1_arg
  called : ℕ → ℕ → Effect
  -- ion_object_release of an IPC object, and bufferevent_enable of its buffer
  released enabled disabled : ℕ → Effect
  -- ion_deferred_queue_push of _spawn
  queued_spawn : ℕ → Effect
  released_callback : ℕ → Effect
  warned : Effect

pub record Processes : Type 0 where
  -- getpid()
  pub self : ℕ
  pub proc_childs : List (ℕ × ℕ)
  pub proc_execs : List (ℕ × ℕ)
  pub objects : List ChildProcess
  pub exec_objects : List Exec
  pub parent_ipc : Option ℕ
  pub effects : List Effect

pub data Fault : Type 0 where
  ipc_fail spawn_fail : Fault
  no_user_info no_stdout no_stderr exec_fork_fail : Fault

-- A state, an exception with the state behind it, or a use of NULL.
pub data Outcome : Type 0 where
  next : Processes → Outcome
  thrown : Fault → Processes → Outcome
  crashed : Outcome

abbrev pub emit : Effect → Processes → Processes
emit e s = record s { effects = s.effects ++ e ∷ [] }

-- `if(promise) { ion_promisor_done(promise, &chld); }`
abbrev pub fulfil : Option ℕ → ℕ → Processes → Processes
fulfil none id s = s
fulfil (some p) id s = emit (fulfilled_child p id) s
