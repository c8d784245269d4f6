-- ===== src/Process/Tracked/Times.antt =====
-- What the end of a child leaves of the other entries, and how often a child was handed to a promise.
use php_ion.Base.{
  ℕ, ◌≡◌, ◌≢◌, refl, ◌∙◌, Option, none, some, List, [], ◌∷◌, ◌==◌, ◌+◌, ◌++◌, if◌then◌else◌, arith,
  get_elem?, set,
}
use php_ion.Process.Table.{get_elem?-set_self}
use php_ion.Process.Objects.{ChildProcess, Processes, Status, Effect, fulfil, fulfilled_child}
use php_ion.Process.Reap.{end_child, child_exit}
use php_ion.Process.Tracked.{ChildEntry, ExecEntry}

-- An entry stands on its object and nothing else.
pub ChildEntry-moved :
    (s t : Processes) (pid id : ℕ)
    → get_elem? t.objects id ≡ get_elem? s.objects id
    → ChildEntry s pid id
    → ChildEntry t pid id
ChildEntry-moved s t pid id h k = record {
  child = k.child;
  at = h ∙ k.at;
  pid_eq = k.pid_eq;
  alive = k.alive;
  no_end = k.no_end;
}

pub ExecEntry-moved :
    (s t : Processes) (pid id : ℕ)
    → get_elem? t.exec_objects id ≡ get_elem? s.exec_objects id
    → ExecEntry s pid id
    → ExecEntry t pid id
ExecEntry-moved s t pid id h k = record {
  exec = k.exec;
  at = h ∙ k.at;
  pid_eq = k.pid_eq;
  promise = k.promise;
  promise_eq = k.promise_eq;
}

-- How often a child was handed to a promise `q`.
abbrev pub times : ℕ → ℕ → List Effect → ℕ
times q id [] = 0
times q id (fulfilled_child p j ∷ rest) =
    (if p == q then if j == id then 1 else 0 else 0) + times q id rest
times q id (_ ∷ rest) = times q id rest

pub times-append :
    (q id : ℕ) (es : List Effect) (e : Effect)
    → times q id (es ++ e ∷ []) ≡ times q id es + times q id (e ∷ [])
times-append q id [] e = omega arith
times-append q id (Effect.fulfilled_child p j ∷ rest) e = ground (arith, times-append q id rest e)
times-append q id (Effect.fulfilled_exec p j ∷ rest) e = times-append q id rest e
times-append q id (Effect.fulfilled_long p j ∷ rest) e = times-append q id rest e
times-append q id (Effect.called p j ∷ rest) e = times-append q id rest e
times-append q id (Effect.released j ∷ rest) e = times-append q id rest e
times-append q id (Effect.enabled j ∷ rest) e = times-append q id rest e
times-append q id (Effect.disabled j ∷ rest) e = times-append q id rest e
times-append q id (Effect.queued_spawn j ∷ rest) e = times-append q id rest e
times-append q id (Effect.released_callback j ∷ rest) e = times-append q id rest e
times-append q id (Effect.warned ∷ rest) e = times-append q id rest e

-- 1 for the promise `q`, and 0 for another one and for NULL.
abbrev pub once : ℕ → Option ℕ → ℕ
once q none = 0
once q (some p) = if p == q then 1 else 0

times-fulfil :
    (q : ℕ) (o : Option ℕ) (id j : ℕ) (s : Processes)
    → times q j (fulfil o id s).effects ≡ times q j s.effects + (if id == j then once q o else 0)
times-fulfil q none id j s = ground arith
times-fulfil q (some p) id j s = ground (arith, times-append q j s.effects (fulfilled_child p id))

module _ (id : ℕ) (c : ChildProcess) (status : Status) (s : Processes) where
  pub child_exit_self_eq : (child_exit id c status s).self ≡ s.self
  unfolding child_exit
  child_exit_self_eq = ground arith

  pub times-child_exit_ne :
      (q j : ℕ) → id ≢ j → times q j (child_exit id c status s).effects ≡ times q j s.effects
  unfolding child_exit
  times-child_exit_ne q j h = ground (
    arith,
    times-fulfil q c.prom_exit id j (record s { objects = set s.objects id (end_child status c) }),
    h,
  )

  pub times-child_exit_self :
      (q : ℕ)
      → c.ppid ≡ s.self
      → times q id (child_exit id c status s).effects ≡ times q id s.effects + once q c.prom_exit
  unfolding child_exit
  times-child_exit_self q h = ground (
    arith,
    times-fulfil q c.prom_exit id id (record s { objects = set s.objects id (end_child status c) }),
  )

pub ipc_child-end_child :
    (status : Status) (c : ChildProcess) → (end_child status c).ipc_child ≡ c.ipc_child
unfolding end_child
ipc_child-end_child (Status.killed sig raw) c = refl
ipc_child-end_child (Status.stopped sig) c = refl
ipc_child-end_child (Status.exited code) c = ground arith

-- The end of a child gives no IPC object back to it.
pub child_exit_ends :
    (id : ℕ) (c d : ChildProcess) (status : Status) (s : Processes)
    → get_elem? s.objects id ≡ some c
    → get_elem? (child_exit id c status s).objects id ≡ some d
    → d.ipc_child ≡ c.ipc_child
unfolding child_exit
child_exit_ends id c d status s at h =
    let e = get_elem?-set_self s.objects id (end_child status c) at in
    ground (arith, e, ipc_child-end_child status c)
