-- ===== src/Promisor.antt =====
-- src/ion/ion_promisor.c and src/ion/ion_promisor.h, and the classes of src/classes/ION that are made of it:
-- Promise, ResolvablePromise, Deferred and Sequence.
pub mod State
pub mod Exec
pub mod Keeps
pub mod Handlers
pub mod Clone
pub mod Resolve
pub mod Outcome
pub mod Create
pub mod Methods
