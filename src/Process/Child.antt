-- ===== src/Process/Child.antt =====
-- src/classes/ION/Process/ChildProcess.c: the methods of a child process, but for _spawn.
use php_ion.Base.{
  ℕ, Option, none, some, [], ◌∷◌, ◌++◌, Bool, true, false, ◌||◌, not, if◌then◌else◌, set,
}
use php_ion.Process.Objects.{
  ChildProcess, Processes, Outcome, next, thrown, ipc_fail, emit, disabled, queued_spawn,
  released_callback,
}

-- ion_process_child_init
unfoldable pub new_child : ℕ → ChildProcess
new_child self = record {
  done = false;
  failed = false;
  signaled = false;
  abort = false;
  started = false;
  pid = 0;
  ppid = self;
  exit_status = none;
  signal = 0;
  ipc_parent = none;
  ipc_child = none;
  on_start = none;
  prom_exit = none;
  prom_started = none;
}

-- __construct; `ends` are the two objects of ion_ipc_create, `none` is FAILURE.
unfoldable pub construct : Option (ℕ × ℕ) → Processes → Outcome
unfolding new_child
construct none s = thrown ipc_fail (record s { objects = s.objects ++ new_child s.self ∷ [] })
construct (some (one, two)) s = next (
    emit (disabled two) (
      emit (disabled one) (record s {
        objects =
            s.objects
            ++ record (new_child s.self) { ipc_parent = some one; ipc_child = some two } ∷ [];
      })))

-- flags & ION_PROCESS_FINISHED
unfoldable pub is_finished : ChildProcess → Bool
is_finished c = c.done || c.failed || c.signaled || c.abort

unfoldable pub is_alive : ChildProcess → Bool
unfolding is_finished
is_alive c = if is_finished c || not c.started then false else true

unfoldable pub is_signaled : ChildProcess → Bool
is_signaled c = c.signaled

unfoldable pub is_started : ChildProcess → Bool
is_started c = c.started

unfoldable pub get_pid : ChildProcess → ℕ
get_pid c = c.pid

unfoldable pub get_signal : ChildProcess → ℕ
get_signal c = c.signal

unfoldable pub get_exit_status : ChildProcess → Option ℕ
get_exit_status c = c.exit_status

unfoldable pub get_ipc : ChildProcess → Option ℕ
get_ipc c = c.ipc_parent

-- `fresh` is the promise that ion_promisor_promise_new makes.
unfoldable pub when_exit : ℕ → ChildProcess → ChildProcess × ℕ
when_exit fresh c = elim c.prom_exit [
  | none ↦ (record c { prom_exit = some fresh }, fresh)
  | some p ↦ (c, p)
]

unfoldable pub when_started : ℕ → ChildProcess → ChildProcess × ℕ
when_started fresh c = elim c.prom_started [
  | none ↦ (record c { prom_started = some fresh }, fresh)
  | some p ↦ (c, p)
]

-- start()
unfoldable pub start : ℕ → ℕ → ChildProcess → Processes → Processes
start id callback c s =
    let freed : Processes = elim c.on_start [
      | none ↦ s
      | some old ↦ emit (released_callback old) s
    ] in
    emit (queued_spawn id)
      (record freed { objects = set s.objects id (record c { on_start = some callback }) })
