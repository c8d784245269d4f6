-- ===== src/Process/Tracked/Program.antt =====
-- Every program of steps keeps the tables tracked.
use php_ion.Base.{
  ℕ, ◌≡◌, refl, Option, none, some, List, [], ◌∷◌, not, Bytes, inl, inr, arith, get_elem?,
  Option-cases, Bool-cases, ◌||◌,
}
use php_ion.Process.Objects.{ChildProcess, Processes, Status}
use php_ion.Process.Child.{is_alive, is_finished, start, when_exit, when_started}
use php_ion.Process.Exec.{System, Options, exec, exec_parent, lookup_failed}
use php_ion.Process.Ops.{Op, step, steps, here}
use php_ion.Process.Reap.{sigchld}
use php_ion.Process.Tracked.{IsTracked}
use php_ion.Process.Tracked.Reaping.{reap-Reaped}
use php_ion.Process.Tracked.Kept.{SameChild, SameChild-IsTracked}
use php_ion.Process.Tracked.Grows.{exec_parent-IsTracked}
use php_ion.Process.Tracked.Spawning.{construct-IsTracked, spawn-IsTracked, same_state}
use php_ion.Process.Ops.{put_child}

-- The methods change what the tables do not look at.
when_exit-SameChild : (fresh : ℕ) (c : ChildProcess) → SameChild c (when_exit fresh c).0
unfolding when_exit is_alive is_finished
when_exit-SameChild fresh c = record {
  pid_eq = ground arith;
  alive_eq = ground arith;
  finished_eq = ground arith;
  end_eq = ground arith;
}

when_started-SameChild : (fresh : ℕ) (c : ChildProcess) → SameChild c (when_started fresh c).0
unfolding when_started is_alive is_finished
when_started-SameChild fresh c = record {
  pid_eq = ground arith;
  alive_eq = ground arith;
  finished_eq = ground arith;
  end_eq = ground arith;
}

start-SameChild :
    (callback : ℕ) (c : ChildProcess) → SameChild c (record c { on_start = some callback })
unfolding is_alive is_finished
start-SameChild callback c = record {
  pid_eq = refl;
  alive_eq = refl;
  finished_eq = refl;
  end_eq = refl;
}

start-IsTracked :
    (id callback : ℕ) (c : ChildProcess) (s : Processes)
    → get_elem? s.objects id ≡ some c
    → IsTracked s
    → IsTracked (start id callback c s)
unfolding start
start-IsTracked id callback c s at k =
    SameChild-IsTracked id c (record c { on_start = some callback }) s (start id callback c s) at
      (start-SameChild callback c) refl (ground arith) (ground arith) (ground arith) k

put_child-IsTracked :
    (id : ℕ) (c d : ChildProcess) (s : Processes)
    → get_elem? s.objects id ≡ some c
    → SameChild c d
    → IsTracked s
    → IsTracked (put_child id d s)
put_child-IsTracked id c d s at same k =
    SameChild-IsTracked id c d s (put_child id d s) at same refl refl refl refl k

exec-IsTracked :
    (os : System) (command : Bytes) (o : Options) (s s' : Processes)
    → IsTracked s
    → here s (exec os command o s) ≡ some s'
    → IsTracked s'
unfolding exec here
exec-IsTracked os command o s s' k h = elim (Option-cases os.fork) [
  | inl failed ↦ same_state s s' (ground (arith, h, failed)) k
  | inr (none, forked) ↦ same_state s s' (ground (arith, h, forked)) k
  | inr (some pid, forked) ↦
      elim (Bool-cases (lookup_failed o || not os.out_pipe || not os.err_pipe)) [
        | inl rejected ↦ same_state s s' (ground (arith, h, rejected, forked)) k
        | inr allowed ↦
            same_state (exec_parent command pid os.fresh s) s' (ground (arith, h, allowed, forked))
              (exec_parent-IsTracked command pid os.fresh s k)
      ]
]

module _ (read_all : Bytes → Option Bytes × Bytes) where
  sigchld-IsTracked :
      (processes : List (ℕ × Status)) (s s' : Processes)
      → IsTracked s
      → sigchld read_all processes s ≡ some s'
      → IsTracked s'
  unfolding sigchld
  sigchld-IsTracked [] s s' k h = same_state s s' h k
  sigchld-IsTracked ((pid, status) ∷ rest) s s' k h =
      let (t, e, r) = reap-Reaped read_all pid status s k in
      sigchld-IsTracked rest t s' r.tracked (rw e at h)

  -- A step on an object that is there.
  step-IsTracked :
      (op : Op) (s s' : Processes) → IsTracked s → step read_all op s ≡ some s' → IsTracked s'
  unfolding step
  step-IsTracked (Op.new ends) s s' k h = construct-IsTracked ends s s' k h
  step-IsTracked (Op.start_child id callback) s s' k h =
      elim (Option-cases (get_elem? s.objects id)) [
        | inl absent ↦ cc (rw absent at h)
        | inr (c, at) ↦
            same_state (start id callback c s) s' (rw at at h)
              (start-IsTracked id callback c s at k)
      ]
  step-IsTracked (Op.spawn_child id fork) s s' k h = elim (Option-cases (get_elem? s.objects id)) [
    | inl absent ↦ cc (rw absent at h)
    | inr (c, at) ↦ spawn-IsTracked id c fork s s' at k (rw at at h)
  ]
  step-IsTracked (Op.ask_exit id fresh) s s' k h = elim (Option-cases (get_elem? s.objects id)) [
    | inl absent ↦ cc (rw absent at h)
    | inr (c, at) ↦
        same_state (put_child id (when_exit fresh c).0 s) s' (rw at at h)
          (put_child-IsTracked id c (when_exit fresh c).0 s at (when_exit-SameChild fresh c) k)
  ]
  step-IsTracked (Op.ask_started id fresh) s s' k h = elim (Option-cases (get_elem? s.objects id)) [
    | inl absent ↦ cc (rw absent at h)
    | inr (c, at) ↦
        same_state (put_child id (when_started fresh c).0 s) s' (rw at at h) (
          put_child-IsTracked id c (when_started fresh c).0 s at (when_started-SameChild fresh c) k)
  ]
  step-IsTracked (Op.run os command o) s s' k h = exec-IsTracked os command o s s' k h
  step-IsTracked (Op.ended processes) s s' k h = sigchld-IsTracked processes s s' k h

  -- Whatever a process that has started none does with its children and commands, every entry of
  -- both tables leads to an object with that number; a child in its table is alive, and a command
  -- in its table still has its promise.
  pub steps-IsTracked :
      (ops : List Op) (s s' : Processes)
      → IsTracked s
      → steps read_all ops s ≡ some s'
      → IsTracked s'
  unfolding steps
  steps-IsTracked [] s s' k h = same_state s s' h k
  steps-IsTracked (op ∷ rest) s s' k h = elim (Option-cases (step read_all op s)) [
    | inl stuck ↦ cc (rw stuck at h)
    | inr (t, e) ↦ steps-IsTracked rest t s' (step-IsTracked op s t k e) (rw e at h)
  ]
