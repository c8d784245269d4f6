-- ===== src/Promisor/State.antt =====
-- `struct _ion_promisor` of src/ion/ion_promisor.h, and the memory that holds the promisors. A promisor
-- is known by its number. Reference counts are not modelled: no promisor is ever freed.
use php_ion.Base.{ℕ, Option, none, List, [], Bool, true, false, ◌||◌, Bytes}

-- A PHP value. Objects are known by their numbers; generators and promisors are told from the rest.
pub data Zval : Type 0 where
  undef null : Zval
  bool : Bool → Zval
  long : ℕ → Zval
  string : Bytes → Zval
  generator promise object : ℕ → Zval

-- `uint32_t flags`: a field for each bit that the code reads or writes.
pub record Flags : Type 0 where
  pub processing : Bool
  pub done : Bool
  pub failed : Bool
  pub canceled : Bool
  pub type_promise : Bool
  pub type_sequence : Bool
  pub type_deferred : Bool
  pub internal : Bool
  pub prototype : Bool
  pub has_done : Bool
  pub has_fail : Bool
  pub autoclean : Bool

abbrev pub no_flags : Flags
no_flags = record {
  processing = false;
  done = false;
  failed = false;
  canceled = false;
  type_promise = false;
  type_sequence = false;
  type_deferred = false;
  internal = false;
  prototype = false;
  has_done = false;
  has_fail = false;
  autoclean = false;
}

-- `flags & ION_PROMISOR_FINISHED`, as a condition.
abbrev pub finished : Flags → Bool
finished f = f.done || f.failed

-- The argument `type` of `ion_promisor_resolve`; `ION_PROMISOR_MULTI_ARGS` and the count above it
-- are not read there.
pub record Kind : Type 0 where
  pub done : Bool
  pub failed : Bool
  pub canceled : Bool

abbrev pub kind_done : Kind
kind_done = record { done = true; failed = false; canceled = false }

abbrev pub kind_failed : Kind
kind_failed = record { done = false; failed = true; canceled = false }

abbrev pub kind_canceled : Kind
kind_canceled = record { done = false; failed = true; canceled = true }

-- `pion_cb`: what it calls, and what `common` of its function says.
pub record Callback : Type 0 where
  pub function : ℕ
  pub required_num_args : ℕ
  pub num_args : ℕ
  pub is_generator : Bool

-- `ion_promisor_action_cb`: the type with its union. An internal callback is a C function.
pub data Action : Type 0 where
  unset : Action
  php : Callback → Action
  internal : ℕ → Action

-- An entry of the array `handlers`. `wild` is an entry of allocated memory that was never written.
pub data Slot : Type 0 where
  ref : ℕ → Slot
  null wild : Slot

-- The field `object`: undefined, a PHP value, or a pointer that the destructor gets.
pub data Owned : Type 0 where
  nothing : Owned
  value : Zval → Owned
  ptr : ℕ → Owned

pub record Promisor : Type 0 where
  pub flags : Flags
  pub done : Action
  pub fail : Action
  pub canceler : Action
  pub await : Option ℕ
  pub result : Zval
  pub generator : Option ℕ
  -- as many as `handler_count`
  pub handlers : List Slot
  pub object : Owned
  pub dtor : Option ℕ
  pub name : Option Bytes

-- `ion_alloc_object`: zeroed, with the values undefined.
abbrev pub blank : Promisor
blank = record {
  flags = no_flags;
  done = unset;
  fail = unset;
  canceler = unset;
  await = none;
  result = undef;
  generator = none;
  handlers = [];
  object = nothing;
  dtor = none;
  name = none;
}

-- The promisors below `next` are allocated. `exception` is `EG(exception)`.
pub record World : Type 0 where
  pub promisors : ℕ → Promisor
  pub next : ℕ
  pub exception : Option Zval

-- What the extension calls and does not define: PHP functions and methods, the C functions that
-- other modules register, and exception objects. Calls run any code, so they return a new world.
pub record Php : Type 0 where
  -- `pion_verify_arg_type`
  pub verify_arg : Callback → ℕ → Zval → Bool
  pub call : Callback → Zval → World → Zval × World
  pub call_void : Callback → World → World
  pub call_internal : ℕ → ℕ → Zval → World → Zval × World
  pub run_dtor : ℕ → ℕ → World → World
  -- methods of Generator
  pub current : ℕ → World → Zval × World
  pub send : ℕ → Zval → World → Zval × World
  pub throw : ℕ → Zval → World → Zval × World
  pub valid : ℕ → World → Zval × World
  pub retval : ℕ → World → Zval
  -- the exception that an error code stands for
  pub exception_new : ℕ → Zval
  -- `pion_exception_new`: a class, a message and a code
  pub new_exception : ℕ → Bytes → ℕ → Zval
  -- `pion_cb_create_from_zval`; `none` is NULL
  pub callable : Zval → Option Callback
