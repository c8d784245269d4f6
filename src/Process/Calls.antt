-- ===== src/Process/Calls.antt =====
-- The methods of src/classes/ION/Process.c that ask or change the process itself. The results of the calls of
-- the system are parameters.
use php_ion.Base.{
  ℕ, Option, none, some, List, Bool, true, false, ◌==◌, ◌&&◌, not, ltb, if◌then◌else◌, Bytes,
}
use php_ion.Process.Table.{find}
use php_ion.Process.Objects.{Processes}
use php_ion.Process.Exec.{Lookup, found, missing, failed}
use php_ion.Process.Spawn.{Fork, no_fork, in_parent, in_child}

pub data ℤ : Type 0 where
  pos negsuc : ℕ → ℤ

-- An argument: a string, a number, or another value.
pub data Zval : Type 0 where
  name : Bytes → Zval
  number : ℕ → Zval
  other : Zval

pub record Passwd : Type 0 where
  pub uid : ℕ
  pub name : Bytes
  pub gecos : Bytes
  pub gid : ℕ
  pub dir : Bytes
  pub shell : Bytes

pub record Group : Type 0 where
  pub gid : ℕ
  pub name : Bytes
  pub members : List Bytes

pub data Fault : Type 0 where
  no_user_info_named no_user_info_uid invalid_uid get_gid get_uid : Fault
  invalid_gid get_priority_failed invalid_priority set_priority_failed fork_failed : Fault

pub data Result (A : Type 0) : Type 0 where
  returns : A → Result A
  thrown : Fault → Result A

-- The databases of users and groups: an entry or NULL, and errno (0 for none).
module _ (getpwnam : Bytes → Option Passwd × ℕ) (getpwuid : ℕ → Option Passwd × ℕ) where
  -- ion_get_pw_by_zval
  unfoldable pub get_pw_by_zval : Zval → Option Passwd × ℕ
  get_pw_by_zval (name n) = getpwnam n
  get_pw_by_zval (number n) = getpwuid n
  get_pw_by_zval other = (none, 0)

  -- What exec() makes of it.
  unfoldable pub exec_lookup : Zval → Lookup
  unfolding get_pw_by_zval
  exec_lookup z = elim (get_pw_by_zval z).0 [
    | some pw ↦ found pw.uid pw.gid
    | none ↦ if (get_pw_by_zval z).1 == 0 then missing else failed
  ]

  -- getUser(); `none` of the result is false, `none` of the argument getuid().
  unfoldable pub get_user : ℕ → Option Zval → Option Passwd
  unfolding get_pw_by_zval
  get_user me none = (get_pw_by_zval (number me)).0
  get_user me (some z) = (get_pw_by_zval z).0

  unfoldable pub no_user : Zval → ℕ → Fault
  no_user z errno = if errno == 0 then invalid_uid else elim z [
    | name n ↦ no_user_info_named
    | number n ↦ no_user_info_uid
    | other ↦ no_user_info_uid
  ]

  -- setUser(); `set_gid` and `set_uid` say that setgid and setuid succeed.
  unfoldable pub set_user : Bool → Bool → Zval → Bool → Result Passwd
  unfolding get_pw_by_zval no_user
  set_user set_gid set_uid z set_group = elim (get_pw_by_zval z).0 [
    | none ↦ thrown (no_user z (get_pw_by_zval z).1)
    | some pw ↦
        if set_group && not set_gid
        then thrown get_gid
        else if not set_uid
        then thrown get_uid
        else returns pw
  ]

module _ (getgrnam : Bytes → Option Group) (getgrgid : ℕ → Option Group) where
  -- getGroup(); `none` of the result is false, `none` of the argument getgid().
  unfoldable pub get_group : ℕ → Option Zval → Result (Option Group)
  get_group me none = returns (getgrgid me)
  get_group me (some (name n)) = returns (getgrnam n)
  get_group me (some (number n)) = returns (getgrgid n)
  get_group me (some other) = thrown invalid_gid

-- getPriority(): the number that getpriority gives, and errno
unfoldable pub get_priority : (ℕ → ℤ × ℕ) → ℕ → Option ℕ → Result ℤ
get_priority getpriority self pid =
    let (priority, errno) = getpriority (elim pid [ none ↦ self | some p ↦ p ]) in
    if errno == 0 then returns priority else thrown get_priority_failed

-- priority < -20 || priority > 20
unfoldable pub out_of_range : ℤ → Bool
out_of_range (pos n) = ltb 20 n
out_of_range (negsuc n) = ltb 19 n

-- setPriority(): the priority before; `set` says that setpriority succeeds.
unfoldable pub set_priority : (ℕ → ℤ × ℕ) → (ℕ → ℤ → Bool) → ℕ → ℤ → Option ℕ → Result ℤ
unfolding out_of_range
set_priority getpriority set self priority pid =
    let p : ℕ = elim pid [ none ↦ self | some p ↦ p ] in
    if out_of_range priority
    then thrown invalid_priority
    else if not (set p priority)
    then thrown set_priority_failed
    else returns (getpriority p).0

-- kill(): true where the call of the system fails
unfoldable pub kill : (ℕ → ℕ → Bool) → (ℕ → ℕ → Bool) → ℕ → ℕ → Bool → Bool
kill kill_fails killpg_fails signo pid to_group =
    if to_group then killpg_fails pid signo else kill_fails pid signo

-- fork()
unfoldable pub fork : Fork → Result ℕ
fork no_fork = thrown fork_failed
fork (in_parent pid) = returns pid
fork (in_child pid reinit) = returns 0

unfoldable pub get_pid : Processes → ℕ
get_pid s = s.self

unfoldable pub has_child_process : ℕ → Processes → Bool
unfolding find
has_child_process pid s = elim (find pid s.proc_childs) [ none ↦ false | some id ↦ true ]

unfoldable pub get_child_process : ℕ → Processes → Option ℕ
unfolding find
get_child_process pid s = find pid s.proc_childs

unfoldable pub get_child_processes : Processes → List (ℕ × ℕ)
get_child_processes s = s.proc_childs

unfoldable pub has_parent_ipc : Processes → Bool
has_parent_ipc s = elim s.parent_ipc [ none ↦ false | some ipc ↦ true ]

unfoldable pub get_parent_ipc : Processes → Option ℕ
get_parent_ipc s = s.parent_ipc
