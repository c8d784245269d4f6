-- ===== src/Process/Tracked.antt =====
-- The invariant of both tables: every entry leads to an object with that process number, a child is
-- alive and has given its end away, and an exec has its promise.
pub mod Times
pub mod Reaping
pub mod Kept
pub mod Grows
pub mod Spawning
pub mod Program
use php_ion.Base.{ℕ, ◌≡◌, ◌≢◌, sym, ap, ◌∙◌, none, some, List, true, false, arith, get_elem?}
use php_ion.Process.Table.{find, delete, find-delete, get_elem?-set_self, get_elem?-set_ne}
use php_ion.Process.Objects.{ChildProcess, Exec, Processes, Status}
use php_ion.Process.Child.{is_alive, is_finished}
use php_ion.Process.Reap.{child_exit, end_child}

pub record ChildEntry (s : Processes) (pid id : ℕ) : Type 0 where
  pub child : ChildProcess
  pub at : get_elem? s.objects id ≡ some child
  pub pid_eq : child.pid ≡ pid
  pub alive : is_alive child ≡ true
  pub no_end : child.ipc_child ≡ none

pub record ExecEntry (s : Processes) (pid id : ℕ) : Type 0 where
  pub exec : Exec
  pub at : get_elem? s.exec_objects id ≡ some exec
  pub pid_eq : exec.pid ≡ pid
  pub promise : ℕ
  pub promise_eq : exec.deferred ≡ some promise

pub record IsTracked (s : Processes) : Type 0 where
  pub childs : (pid id : ℕ) → find pid s.proc_childs ≡ some id → ChildEntry s pid id
  pub execs : (pid id : ℕ) → find pid s.proc_execs ≡ some id → ExecEntry s pid id
  -- a child that holds both ends has not ended
  pub fresh :
      (id : ℕ) (c : ChildProcess) (two : ℕ)
      → get_elem? s.objects id ≡ some c
      → c.ipc_child ≡ some two
      → is_finished c ≡ false

some_eq {ℓ} : {A : Type ℓ} {x y : A} → some x ≡ some y → x ≡ y
some_eq h = cc

-- Two numbers that lead to one child are equal.
pub child_unique :
    (s : Processes) (pid pid' id : ℕ) → ChildEntry s pid id → ChildEntry s pid' id → pid ≡ pid'
child_unique s pid pid' id a b =
    sym a.pid_eq ∙ ap (λ c. c.pid) (some_eq (sym a.at ∙ b.at)) ∙ b.pid_eq

pub exec_unique :
    (s : Processes) (pid pid' id : ℕ) → ExecEntry s pid id → ExecEntry s pid' id → pid ≡ pid'
exec_unique s pid pid' id a b =
    sym a.pid_eq ∙ ap (λ c. c.pid) (some_eq (sym a.at ∙ b.at)) ∙ b.pid_eq

-- An entry that is left after a deletion was there before, under another number.
pub find-delete_inv :
    (i k : ℕ) (t : List (ℕ × ℕ)) (id : ℕ)
    → find i (delete k t) ≡ some id
    → (i ≢ k) × (find i t ≡ some id)
find-delete_inv i k t id h =
    let e = find-delete i k t in ((λ same. ground (arith, e, h, same)), ground (arith, e, h))

module _ (id : ℕ) (c : ChildProcess) (status : Status) (s : Processes) where
  pub child_exit-childs : (child_exit id c status s).proc_childs ≡ s.proc_childs
  unfolding child_exit
  child_exit-childs = ground arith

  pub child_exit-execs : (child_exit id c status s).proc_execs ≡ s.proc_execs
  unfolding child_exit
  child_exit-execs = ground arith

  pub child_exit-exec_objects : (child_exit id c status s).exec_objects ≡ s.exec_objects
  unfolding child_exit
  child_exit-exec_objects = ground arith

  pub child_exit-ne :
      (j : ℕ) → id ≢ j → get_elem? (child_exit id c status s).objects j ≡ get_elem? s.objects j
  unfolding child_exit
  child_exit-ne j h =
      let e = get_elem?-set_ne s.objects id j (end_child status c) h in ground (arith, e)

  pub child_exit-self :
      {old : ChildProcess}
      → c.ppid ≡ s.self
      → get_elem? s.objects id ≡ some old
      → get_elem? (child_exit id c status s).objects id ≡ some (end_child status c)
  unfolding child_exit
  child_exit-self p h =
      let e = get_elem?-set_self s.objects id (end_child status c) h in ground (arith, e)
