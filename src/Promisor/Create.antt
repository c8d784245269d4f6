-- ===== src/Promisor/Create.antt =====
-- The functions of src/ion/ion_promisor.c and src/ion/ion_promisor.h that make promisors and give them
-- callbacks and objects. An absent argument is `none`.
use php_ion.Base.{ℕ, Option, none, some, Bool, true, false, ◌||◌, ltb, not, if◌then◌else◌}
use php_ion.Promisor.State.{
  Promisor, Php, ref, no_flags, finished, blank, Zval, Action, unset, php, internal, Callback,
  nothing, value, ptr,
}
use php_ion.Promisor.Exec.{M, ◌>>=◌, ◌>>◌, pure, crash, load, modify, alloc, throw_exception}
use php_ion.Promisor.Handlers.{push, or_crash}
use php_ion.Promisor.Resolve.{resolve}

-- ERR_ION_PROMISE_INVALID_CONSEQ
abbrev pub err_invalid_consequence : ℕ
err_invalid_consequence = 3

-- ion_promise_zend_init, ion_deferred_zend_init, ion_sequence_zend_init
abbrev pub promise_init : Promisor
promise_init = record blank { flags = record no_flags { type_promise = true } }

abbrev pub deferred_init : Promisor
deferred_init = record blank { flags = record no_flags { type_deferred = true } }

abbrev pub sequence_init : Promisor
sequence_init = record blank {
  flags = record no_flags { type_promise = true; type_sequence = true; prototype = true };
}

-- ion_promisor_set_php_cb; a callback that was there is freed.
abbrev pub set_php_cb : Option Callback → Action
set_php_cb none = unset
set_php_cb (some cb) = php cb

-- ion_promisor_set_object, ion_promisor_set_object_zobj
unfoldable pub set_object : ℕ → Zval → M (Unit {0})
set_object p v = modify p (λ r. record r { object = value v; dtor = none })

unfoldable pub set_object_ptr : ℕ → ℕ → ℕ → M (Unit {0})
set_object_ptr p o d = modify p (λ r. record r { object = ptr o; dtor = some d })

unfoldable pub remove_object : ℕ → M (Unit {0})
remove_object p = modify p (λ r. record r { object = nothing })

-- ion_promisor_deferred_new_ex
unfoldable pub deferred_new_ex : Option ℕ → M ℕ
deferred_new_ex canceler = do
  p ← alloc (record deferred_init { flags = record deferred_init.flags { internal = true } })
  elim canceler [ none ↦ pure tt | some f ↦ modify p (λ r. record r { canceler = internal f }) ]
  pure p

-- `handler->flags |= promisor->flags & ION_PROMISOR_NESTED_FLAGS`
unfoldable pub nest : ℕ → ℕ → M (Option ℕ)
nest handler p = do
  me ← load p
  modify handler (λ r. record r {
    flags = record r.flags { prototype = r.flags.prototype || me.flags.prototype };
  })
  pure (some handler)

module _ (env : Php) where
  -- The block `if(done)` of ion_promisor_set_callbacks
  unfoldable pub set_done : ℕ → Option Zval → M Bool
  set_done p none = pure true
  set_done p (some v) = do
    modify p (λ r. record r { done = set_php_cb (env.callable v) })
    elim (env.callable v) [
      | none ↦ pure false
      | some cb ↦ do
        modify p (λ r. record r { flags = record r.flags { has_done = true } })
        pure (not (ltb 1 cb.required_num_args))
    ]

  -- The block `if(fail)`
  unfoldable pub set_fail : ℕ → Option Zval → M Bool
  set_fail p none = pure true
  set_fail p (some v) = do
    modify p (λ r. record r { fail = set_php_cb (env.callable v) })
    elim (env.callable v) [
      | none ↦ pure false
      | some cb ↦ do
        modify p (λ r. record r { flags = record r.flags { has_fail = true } })
        pure (not (ltb 1 cb.required_num_args))
    ]

  -- ion_promisor_set_callbacks; `true` is SUCCESS.
  unfoldable pub set_callbacks : ℕ → Option Zval → Option Zval → M Bool
  unfolding set_done set_fail
  set_callbacks p done fail = do ok ← set_done p done; if ok then set_fail p fail else pure false

  -- ion_promisor_set_initial_callback has the same block as ion_promisor_set_callbacks.
  unfoldable pub set_initial_callback : ℕ → Option Zval → M Bool
  unfolding set_done
  set_initial_callback p initial = set_done p initial

  -- ion_promisor_promise_new; `none` is NULL.
  unfoldable pub promise_new : Option Zval → Option Zval → M (Option ℕ)
  unfolding set_callbacks
  promise_new done fail = do
    p ← alloc promise_init
    ok ← set_callbacks p done fail
    if ok
        then pure (some p)
        else (do throw_exception (env.exception_new err_invalid_consequence); pure none)

  unfoldable pub sequence_new : Option Zval → M ℕ
  unfolding set_callbacks
  sequence_new initial = do
    p ← alloc sequence_init
    ok ← set_callbacks p initial none
    if ok then pure tt else throw_exception (env.exception_new err_invalid_consequence)
    pure p

  unfoldable pub deferred_new : Option Zval → M ℕ
  deferred_new canceler = do
    p ← alloc deferred_init
    elim canceler [
      | none ↦ pure tt
      | some v ↦ modify p (λ r. record r { canceler = set_php_cb (env.callable v) })
    ]
    pure p

  -- ion_promisor_push_callbacks. A finished promisor settles the handler at once, without the test
  -- for NULL that the other branch has.
  unfoldable pub push_callbacks : ℕ → ℕ → Option Zval → Option Zval → M (Option ℕ)
  unfolding promise_new resolve push nest
  push_callbacks n p on_done on_fail = do
    me ← load p
    handler ← promise_new on_done on_fail
    if finished me.flags
        then elim handler [
          | none ↦ crash
          | some h ↦ do
            resolve env n h me.result
                (record { done = me.flags.done; failed = me.flags.failed; canceled = false })
            nest h p
        ]
        else elim handler [
          | none ↦ pure none
          | some h ↦ do
            me ← load p
            slots ← or_crash (push (ref h) me.handlers)
            modify p (λ r. record r { handlers = slots })
            nest h p
        ]
