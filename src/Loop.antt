-- ===== src/Loop.antt =====
-- src/classes/ION.c: the loop of events and its timers. Intervals live in a list and are named by their
-- places; one that was released stays there, marked `freed`. `none` is a failed assertion or a use of
-- NULL or of a released interval. What libevent answers is an argument; a time comes as its seconds
-- and microseconds.
pub mod Timers
use php_ion.Base.{
  ℕ, Option, none, some, List, [], ◌∷◌, ◌++◌, Bool, true, false, ◌==◌, not, if◌then◌else◌, Bytes,
  ◌>>=◌, length, get_elem?, set,
}
use php_ion.Promisor.Handlers.{same_bytes}

-- `struct _ion_interval`; `timer` says that its event is there.
pub record Interval : Type 0 where
  pub timer : Bool
  pub repeat : Bool
  pub name : Option Bytes
  pub promisor : ℕ
  pub seconds : ℕ
  pub microseconds : ℕ
  pub freed : Bool

pub data Effect : Type 0 where
  -- ion_promisor_done_string, ion_promisor_done_true, ion_promisor_throw
  done_string : ℕ → Bytes → Effect
  done_true thrown_to : ℕ → Effect
  -- event_add, and event_del with event_free, of an interval
  watched unwatched : ℕ → Effect
  -- ion_object_release and ion_promisor_remove_object of a promisor
  released removed : ℕ → Effect

pub record Loop : Type 0 where
  pub started : Bool
  pub timers : List (Bytes × ℕ)
  pub intervals : List Interval
  pub effects : List Effect

abbrev pub emit : List Effect → Loop → Loop
emit es s = record s { effects = s.effects ++ es }

-- The table GION(timers), whose keys are strings
unfoldable pub find : Bytes → List (Bytes × ℕ) → Option ℕ
find name [] = none
find name ((k, v) ∷ rest) = if same_bytes k name then some v else find name rest

unfoldable pub delete : Bytes → List (Bytes × ℕ) → List (Bytes × ℕ)
delete name [] = []
delete name ((k, v) ∷ rest) =
    let others = delete name rest in if same_bytes k name then rest else (k, v) ∷ others

unfoldable pub add : Bytes → ℕ → List (Bytes × ℕ) → List (Bytes × ℕ)
unfolding find
add name id t = elim (find name t) [ none ↦ t ++ (name, id) ∷ [] | some j ↦ t ]

-- dispatch(): the answer of event_base_loop (`none` is -1, `some true` is 1), or an error.
pub data Dispatched : Type 0 where
  in_loop failed : Dispatched
  returned : Bool → Dispatched

unfoldable pub dispatch : (Loop → Loop × Option Bool) → Loop → Loop × Dispatched
dispatch event_base_loop s =
    if s.started
    then (s, in_loop)
    else let (s', ret) = event_base_loop (record s { started = true }) in
      (record s' { started = false }, elim ret [ none ↦ failed | some b ↦ returned (not b) ])

-- `numeric` says that a key is a number to zend_symtable_del, which then does not find the string.
module _ (numeric : Bytes → Bool) where
  -- The promisor and the interval itself.
  unfoldable pub release : ℕ → Interval → Loop → Loop
  release id i s =
      emit (released i.promisor ∷ removed i.promisor ∷ [])
        (record s { intervals = set s.intervals id (record i { timer = false; freed = true }) })

  -- The entry of the name, whichever interval it leads to; without one an assertion fails.
  unfoldable pub drop_name : Bytes → Loop → Option Loop
  unfolding find delete
  drop_name name s = if numeric name then none else elim (find name s.timers) [
    | none ↦ none
    | some j ↦ some (record s { timers = delete name s.timers })
  ]

  -- _ion_interval_free
  unfoldable pub free_interval : ℕ → Loop → Option Loop
  unfolding release drop_name
  free_interval id s = do
    i ← get_elem? s.intervals id
    if i.freed then none else if not i.timer then some s else elim i.name [
      | none ↦ some (release id i (emit (unwatched id ∷ []) s))
      | some name ↦ do s' ← drop_name name (emit (unwatched id ∷ []) s); some (release id i s')
    ]

  abbrev pub announce : Interval → Effect
  announce i = elim i.name [ none ↦ done_true i.promisor | some n ↦ done_string i.promisor n ]

  -- _ion_interval_invoke; `react` is what the handlers of the promisor do, `again` that event_add
  -- succeeds.
  unfoldable pub invoke : (Loop → Option Loop) → Bool → ℕ → Loop → Option Loop
  unfolding free_interval
  invoke react again id s = do
    i ← get_elem? s.intervals id
    s' ← react (emit (announce i ∷ []) s)
    i' ← get_elem? s'.intervals id
    if i'.freed
        then none
        else if i'.repeat
        then if again
          then some (emit (watched id ∷ []) s')
          else free_interval id (emit (thrown_to i'.promisor ∷ []) s')
        else free_interval id s'

  -- _ion_timer_cancel
  unfoldable pub cancel : ℕ → Loop → Option Loop
  unfolding free_interval
  cancel id s = free_interval id s

  abbrev pub new_interval : Bool → Option Bytes → ℕ → ℕ → ℕ → Interval
  new_interval repeat name promisor seconds microseconds = record {
    timer = true;
    repeat = repeat;
    name = name;
    promisor = promisor;
    seconds = seconds;
    microseconds = microseconds;
    freed = false;
  }

  abbrev pub add_name : Option Bytes → ℕ → List (Bytes × ℕ) → List (Bytes × ℕ)
  add_name none id t = t
  add_name (some name) id t = add name id t

  -- _ion_timer_ctor: the new promisor, or NULL after an exception; `watches` says that event_add
  -- succeeds.
  unfoldable pub new_timer : Interval → Bool → Loop → Option (Option ℕ × Loop)
  unfolding free_interval
  new_timer i watches s =
      let id = length s.intervals in
      let stored : Loop = record s {
        intervals = s.intervals ++ i ∷ [];
        timers = add_name i.name id s.timers;
      } in
      if watches
      then some (some i.promisor, emit (watched id ∷ []) stored)
      else (free_interval id stored >>= λ s'. some (none, s'))

  -- await(); `fresh` is the new promisor. A negative time is an exception, as is a timer that fails.
  unfoldable pub await : Option (ℕ × ℕ) → ℕ → Bool → Loop → Option (Option ℕ × Loop)
  unfolding new_timer
  await none fresh watches s = some (none, s)
  await (some (sec, usec)) fresh watches s =
      new_timer (new_interval false none fresh sec usec) watches s

  -- interval(); the length of a name that is left out is a read of NULL.
  unfoldable pub interval :
      Option (ℕ × ℕ) → Option Bytes → ℕ → Bool → Loop → Option (Option ℕ × Loop)
  unfolding new_timer
  interval none name fresh watches s = some (none, s)
  interval (some (sec, usec)) none fresh watches s = none
  interval (some (sec, usec)) (some name) fresh watches s =
      new_timer (new_interval true (if length name == 0 then none else some name) fresh sec usec)
        watches s

  -- cancelInterval()
  unfoldable pub cancel_interval : Bytes → Loop → Option (Bool × Loop)
  unfolding find free_interval
  cancel_interval name s = elim (find name s.timers) [
    | none ↦ some (false, s)
    | some id ↦ do s' ← free_interval id s; some (true, s')
  ]
