-- ===== src/Process/Spawn.antt =====
-- ion_process_child_spawn of src/classes/ION/Process/ChildProcess.c, and fork() of src/classes/ION/Process.c.
use php_ion.Base.{ℕ, Option, none, some, Bool, true, false, ◌==◌, not, if◌then◌else◌, set}
use php_ion.Process.Table.{add}
use php_ion.Process.Objects.{
  ChildProcess, Processes, Outcome, next, thrown, crashed, spawn_fail, emit, fulfil, enabled,
  released, called, warned,
}

-- The result of fork(): the number of the child, or in the child its own number and whether
-- event_reinit succeeds.
pub data Fork : Type 0 where
  no_fork : Fork
  in_parent : ℕ → Fork
  in_child : ℕ → Bool → Fork

unfoldable pub warn_unless : Bool → Processes → Processes
warn_unless true s = s
warn_unless false s = emit warned s

unfoldable pub call_start : Option ℕ → ℕ → Processes → Processes
call_start none ipc s = s
call_start (some cb) ipc s = emit (called cb ipc) s

-- GION(parent_ipc)
unfoldable pub move_parent_ipc : Option ℕ → Option ℕ → Processes → Processes
move_parent_ipc none ipc_parent s = s
move_parent_ipc (some old) ipc_parent s = emit (released old) (record s { parent_ipc = ipc_parent })

-- The two branches, for an object that holds both ends.
unfoldable pub spawn_parent : ℕ → ChildProcess → ℕ → ℕ → ℕ → Processes → Processes
unfolding add
spawn_parent id c one two pid s =
    fulfil c.prom_started id (record (emit (enabled one) (emit (released two) s)) {
      objects = set s.objects id (record c { started = true; pid = pid; ipc_child = none });
      proc_childs = add pid id s.proc_childs;
    })

-- The buffer of `ipc_child` is enabled after its release.
unfoldable pub spawn_child : ℕ → ChildProcess → ℕ → ℕ → ℕ → Bool → Processes → Processes
unfolding warn_unless call_start move_parent_ipc
spawn_child id c one two pid reinit s =
    let ready = warn_unless reinit (record s { self = pid }) in
    let ran = emit (released two) (call_start c.on_start two ready) in
    let moved = emit (enabled two) (move_parent_ipc s.parent_ipc (some one) ran) in
    record moved { objects = set s.objects id (record c { ipc_child = none }) }

-- Without one of the two ends a NULL pointer is used.
unfoldable pub spawn_ends : ℕ → ChildProcess → Option ℕ → Option ℕ → Fork → Processes → Outcome
unfolding spawn_parent spawn_child
spawn_ends id c one two no_fork s = thrown spawn_fail s
spawn_ends id c (some one) (some two) (in_parent pid) s = next (spawn_parent id c one two pid s)
spawn_ends id c (some one) (some two) (in_child pid reinit) s =
    next (spawn_child id c one two pid reinit s)
spawn_ends id c none two (in_parent pid) s = crashed
spawn_ends id c none two (in_child pid reinit) s = crashed
spawn_ends id c (some one) none (in_parent pid) s = crashed
spawn_ends id c (some one) none (in_child pid reinit) s = crashed

unfoldable pub spawn : ℕ → ChildProcess → Fork → Processes → Outcome
unfolding spawn_ends
spawn id c fork s =
    if not (c.ppid == s.self) then next s else spawn_ends id c c.ipc_parent c.ipc_child fork s
