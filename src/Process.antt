-- ===== src/Process.antt =====
-- src/classes/ION/Process.c, src/classes/ION/Process/ChildProcess.c and src/ion/ion_process.c: the processes that
-- were started here, the tables proc_childs and proc_execs, and what SIGCHLD does with both.
--
-- Objects live in two lists of this record, and the tables and effects name them by their places
-- there. Calls that leave the model (promises that are fulfilled, callbacks, releases) are effects,
-- in their order. Reference counts are not modelled; an object that was released stays in its list.
pub mod Table
pub mod Objects
pub mod Child
pub mod Spawn
pub mod Reap
pub mod Tracked
pub mod Settles
pub mod Exec
pub mod Ops
pub mod Signals
pub mod Calls
pub mod Ipc
