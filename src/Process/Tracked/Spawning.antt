-- ===== src/Process/Tracked/Spawning.antt =====
-- Construction and spawns keep the tables tracked.
use php_ion.Base.{
  ℕ, ◌≡◌, refl, subst, Option, none, some, Bool, true, false, ◌==◌, inl, inr, arith, get_elem?,
  Bool-cases,
}
use php_ion.Process.Objects.{ChildProcess, Processes, next}
use php_ion.Process.Child.{is_alive, is_finished, new_child, construct}
use php_ion.Process.Spawn.{
  Fork, no_fork, in_parent, in_child, spawn, spawn_ends, spawn_parent, spawn_child, warn_unless,
  call_start, move_parent_ipc,
}
use php_ion.Process.Ops.{caught}
use php_ion.Process.Tracked.{IsTracked}
use php_ion.Process.Tracked.Grows.{append-IsTracked, handed-IsTracked, find-add_inv}

new_child-unfinished : (self : ℕ) → is_finished (new_child self) ≡ false
unfolding is_finished new_child
new_child-unfinished self = refl

with_ends :
    (self one two : ℕ)
    → is_finished (record (new_child self) { ipc_parent = some one; ipc_child = some two }) ≡ false
unfolding is_finished new_child
with_ends self one two = refl

pub construct-IsTracked :
    (ends : Option (ℕ × ℕ)) (s s' : Processes)
    → IsTracked s
    → caught (construct ends s) ≡ some s'
    → IsTracked s'
unfolding construct caught
construct-IsTracked none s s' k h =
    append-IsTracked (new_child s.self) s s' (new_child-unfinished s.self) (ground arith)
      (ground arith) (ground arith) (ground arith) k
construct-IsTracked (some (one, two)) s s' k h =
    append-IsTracked (record (new_child s.self) { ipc_parent = some one; ipc_child = some two }) s
      s' (with_ends s.self one two) (ground arith) (ground arith) (ground arith) (ground arith) k

started_alive :
    (c : ChildProcess) (pid : ℕ)
    → is_finished c ≡ false
    → is_alive (record c { started = true; pid = pid; ipc_child = none }) ≡ true
unfolding is_alive is_finished
started_alive c pid h = ground arith

spawn_parent-IsTracked :
    (id : ℕ) (c : ChildProcess) (one two pid : ℕ) (s : Processes)
    → get_elem? s.objects id ≡ some c
    → c.ipc_child ≡ some two
    → IsTracked s
    → IsTracked (spawn_parent id c one two pid s)
unfolding spawn_parent
spawn_parent-IsTracked id c one two pid s at ends k =
    let d : ChildProcess = record c { started = true; pid = pid; ipc_child = none } in
    handed-IsTracked id two c d s (spawn_parent id c one two pid s) at ends refl (ground arith)
      (λ i j h. elim (find-add_inv i pid id s.proc_childs j (ground (arith, h))) [
        | inl old ↦ inl old
        | inr (same, at_id) ↦ inr (at_id, same, started_alive c pid (k.fresh id c two at ends))
      ])
      (ground arith) (ground arith) k

spawn_child-IsTracked :
    (id : ℕ) (c : ChildProcess) (one two pid : ℕ) (reinit : Bool) (s : Processes)
    → get_elem? s.objects id ≡ some c
    → c.ipc_child ≡ some two
    → IsTracked s
    → IsTracked (spawn_child id c one two pid reinit s)
unfolding spawn_child warn_unless call_start move_parent_ipc
spawn_child-IsTracked id c one two pid reinit s at ends k =
    handed-IsTracked id two c (record c { ipc_child = none }) s
      (spawn_child id c one two pid reinit s) at ends refl (ground arith)
      (λ i j h. inl (ground (arith, h))) (ground arith) (ground arith) k

caught_next : (s s' : Processes) → caught (next s) ≡ some s' → some s ≡ some s'
unfolding caught
caught_next s s' h = h

pub same_state : (s s' : Processes) → some s ≡ some s' → IsTracked s → IsTracked s'
same_state s s' h k = subst IsTracked (cc) k

spawn_ends-IsTracked :
    (id : ℕ) (c : ChildProcess) (one two : Option ℕ) (fork : Fork) (s s' : Processes)
    → get_elem? s.objects id ≡ some c
    → c.ipc_child ≡ two
    → IsTracked s
    → caught (spawn_ends id c one two fork s) ≡ some s'
    → IsTracked s'
unfolding spawn_ends caught
spawn_ends-IsTracked id c one two no_fork s s' at e k h = same_state s s' h k
spawn_ends-IsTracked id c (some one) (some two) (in_parent pid) s s' at e k h =
    same_state (spawn_parent id c one two pid s) s' h
      (spawn_parent-IsTracked id c one two pid s at e k)
spawn_ends-IsTracked id c (some one) (some two) (in_child pid reinit) s s' at e k h =
    same_state (spawn_child id c one two pid reinit s) s' h
      (spawn_child-IsTracked id c one two pid reinit s at e k)
spawn_ends-IsTracked id c none two (in_parent pid) s s' at e k h = cc
spawn_ends-IsTracked id c none two (in_child pid reinit) s s' at e k h = cc
spawn_ends-IsTracked id c (some one) none (in_parent pid) s s' at e k h = cc
spawn_ends-IsTracked id c (some one) none (in_child pid reinit) s s' at e k h = cc

-- The guard of ion_process_child_spawn.
pub spawn-IsTracked :
    (id : ℕ) (c : ChildProcess) (fork : Fork) (s s' : Processes)
    → get_elem? s.objects id ≡ some c
    → IsTracked s
    → caught (spawn id c fork s) ≡ some s'
    → IsTracked s'
unfolding spawn
spawn-IsTracked id c fork s s' at k h = elim (Bool-cases (c.ppid == s.self)) [
  | inl own ↦ spawn_ends-IsTracked id c c.ipc_parent c.ipc_child fork s s' at refl k (rw own at h)
  | inr other ↦ same_state s s' (caught_next s s' (rw other at h)) k
]
