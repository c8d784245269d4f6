-- ===== src/Promisor/Methods.antt =====
-- The PHP methods of src/classes/ION/Promise.c, ResolvablePromise.c, Deferred.c and Sequence.c. The
-- arguments have their declared types, and an absent or null one is `none`. `none` as an answer is a
-- return without a value, after an exception was thrown.
pub mod Calls
pub mod Lasting
pub mod Then
pub mod Settling
use php_ion.Base.{
  ℕ, Option, none, some, List, [], ◌∷◌, Bool, true, false, ◌==◌, ◌||◌, if◌then◌else◌, Bytes,
}
use php_ion.Promisor.State.{Promisor, World, Php, Flags, finished, Zval, promise, string}
use php_ion.Promisor.Exec.{M, ◌>>=◌, ◌>>◌, pure, crash, load, modify, throw_exception, native}
use php_ion.Promisor.Handlers.{append, remove, remove_named}
use php_ion.Promisor.Clone.{is_some, err_yielded}
use php_ion.Promisor.Create.{set_callbacks, set_initial_callback, set_php_cb, push_callbacks}
use php_ion.Promisor.Outcome.{done, done_ex, done_null_ex, fail, cancel}

-- ERR_ION_PROMISE_ITSELF, ERR_ION_PROMISE_CANT, ERR_ION_PROMISE_ONLY_PROMISES,
-- ERR_ION_PROMISE_ALREADY_FINISHED, ERR_ION_PROMISE_FINISH_INTERNAL, and the two messages that
-- Sequence.c writes out.
abbrev pub err_itself : ℕ
err_itself = 4

abbrev pub err_cant : ℕ
err_cant = 5

abbrev pub err_only_promises : ℕ
err_only_promises = 6

abbrev pub err_already_finished : ℕ
err_already_finished = 7

abbrev pub err_finish_internal : ℕ
err_finish_internal = 8

abbrev pub err_invalid_callback : ℕ
err_invalid_callback = 9

abbrev pub err_empty : ℕ
err_empty = 10

-- The strings of getState
pub data State : Type 0 where
  state_done state_canceled state_failed state_in_progress state_pending : State

-- Promise::getState
unfoldable pub get_state : Flags → State
get_state f =
    if f.done
    then state_done
    else if f.canceled
    then state_canceled
    else if f.failed
    then state_failed
    else if f.processing
    then state_in_progress
    else state_pending

-- `done && Z_ISPROMISE_P(done)`
abbrev pub promise_of : Option Zval → Option ℕ
promise_of (some (promise h)) = some h
promise_of _ = none

unfoldable pub set_name : ℕ → Bytes → M (Unit {0})
set_name this name = modify this (λ r. record r { name = some name })

module _ (env : Php) where
  abbrev refuse : {A : Type 0} → ℕ → M (Option A)
  refuse e = do throw_exception (env.exception_new e); pure none

  -- Promise::__construct
  unfoldable pub promise_construct : ℕ → Option Zval → Option Zval → M (Unit {0})
  unfolding set_callbacks
  promise_construct this callback errback = do ok ← set_callbacks env this callback errback; pure tt

  -- Promise::then
  unfoldable pub promise_then : ℕ → ℕ → Option Zval → Option Zval → M (Option ℕ)
  unfolding append push_callbacks
  promise_then n this callback errback = elim (promise_of callback) [
    | some h ↦ if h == this then refuse err_itself else (do append this h; pure (some h))
    | none ↦ do
      handler ← push_callbacks env n this callback errback
      elim handler [
        | some h ↦ pure (some h)
        | none ↦ do
          pending ← native (λ w. (w.exception, w))
          if is_some pending then pure none else refuse err_cant
      ]
  ]

  -- Promise::forget
  unfoldable pub forget : ℕ → Zval → M (Unit {0})
  unfolding remove remove_named
  forget this (promise h) = remove env this h
  forget this (string name) = remove_named env this name
  forget this _ = throw_exception (env.exception_new err_only_promises)

  -- Promise::onDone
  unfoldable pub on_done : ℕ → ℕ → Zval → M (Option ℕ)
  unfolding push_callbacks
  on_done n this callback = do
    handler ← push_callbacks env n this (some callback) none
    elim handler [ none ↦ refuse err_cant | some h ↦ pure (some h) ]

  -- Promise::onFail
  unfoldable pub on_fail : ℕ → ℕ → Zval → M (Option ℕ)
  unfolding push_callbacks
  on_fail n this callback = do
    handler ← push_callbacks env n this none (some callback)
    elim handler [ none ↦ refuse err_cant | some h ↦ pure (some h) ]

  -- ResolvablePromise::done
  unfoldable pub resolvable_done : ℕ → ℕ → Zval → M (Option ℕ)
  unfolding done
  resolvable_done n this v = do
    me ← load this
    if finished me.flags
        then refuse err_already_finished
        else if me.flags.internal
        then refuse err_finish_internal
        else if is_some me.await || is_some me.generator
        then refuse err_yielded
        else (do done env n this v; pure (some this))

  -- ResolvablePromise::fail
  unfoldable pub resolvable_fail : ℕ → ℕ → Zval → M (Option ℕ)
  unfolding fail
  resolvable_fail n this v = do
    me ← load this
    if finished me.flags
        then refuse err_already_finished
        else if me.flags.internal
        then refuse err_finish_internal
        else if is_some me.await || is_some me.generator
        then refuse err_yielded
        else (do fail env n this v; pure (some this))

  -- Deferred::__construct
  unfoldable pub deferred_construct : ℕ → Option Zval → M (Unit {0})
  deferred_construct this none = pure tt
  deferred_construct this (some v) =
      modify this (λ r. record r { canceler = set_php_cb (env.callable v) })

  -- Deferred::cancel
  unfoldable pub deferred_cancel : ℕ → ℕ → Bytes → M (Option ℕ)
  unfolding cancel
  deferred_cancel n this message = do
    me ← load this
    if finished me.flags
        then refuse err_already_finished
        else (do cancel env n this message; pure (some this))

  -- Sequence::__construct
  unfoldable pub sequence_construct : ℕ → Option Zval → Option Zval → M (Unit {0})
  unfolding set_initial_callback
  sequence_construct this starter release = do
    ok ← set_initial_callback env this starter
    if ok then pure tt else throw_exception (env.exception_new err_invalid_callback)
    elim release [
      | none ↦ pure tt
      | some v ↦ modify this (λ r. record r {
        canceler = set_php_cb (env.callable v);
        flags = record r.flags { autoclean = true };
      })
    ]

  -- Sequence::__invoke. With two arguments or more it calls `ion_promisor_done_args`, which is
  -- declared and nowhere defined.
  unfoldable pub sequence_invoke : ℕ → ℕ → List Zval → M (Option ℕ)
  unfolding done_ex done_null_ex
  sequence_invoke n this args = do
    settled ← elim args [
      | [] ↦ done_null_ex env n this
      | v ∷ rest ↦ elim rest [ [] ↦ done_ex env n this v | u ∷ more ↦ crash ]
    ]
    elim settled [ none ↦ refuse err_empty | some c ↦ pure (some c) ]
