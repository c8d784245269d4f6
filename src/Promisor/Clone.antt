-- ===== src/Promisor/Clone.antt =====
-- ion_promisor_clone of src/ion/ion_promisor.c, the copy of a promisor with its chain of handlers. A
-- subclass's `__clone`, which `zend_objects_clone_members` would call, is not modelled.
use php_ion.Base.{
  ℕ, zero, suc, ◌+◌, Option, none, some, [], ◌∷◌, ◌++◌, Bool, true, false, ◌==◌, ◌&&◌, ◌||◌, not,
  if◌then◌else◌, get_elem?, set,
}
use php_ion.Promisor.State.{Php, ref, null, wild, blank}
use php_ion.Promisor.Exec.{
  M, ◌>>=◌, ◌>>◌, pure, crash, exhausted, load, modify, alloc, throw_exception,
}
use php_ion.Promisor.Handlers.{cleanup, try_clean}

-- ERR_ION_PROMISE_CLONE_INTERNAL
abbrev pub err_clone_internal : ℕ
err_clone_internal = 1

-- ERR_ION_PROMISE_YIELDED
abbrev pub err_yielded : ℕ
err_yielded = 2

abbrev pub is_some : {A : Type 0} → Option A → Bool
is_some none = false
is_some (some a) = true

abbrev pub points_to : Option ℕ → ℕ → Bool
points_to none p = false
points_to (some q) p = q == p

module _ (env : Php) where
  -- The loop over the handlers, from index `i`; it returns the number of handlers that moved to the
  -- clone.
  unfoldable pub clone_handlers : (ℕ → M ℕ) → ℕ → ℕ → ℕ → ℕ → ℕ → M ℕ
  clone_handlers copy zero proto clone i moved = exhausted
  clone_handlers copy (suc n) proto clone i moved = do
    me ← load proto
    elim (get_elem? me.handlers i) [
      | none ↦ pure moved
      | some null ↦ crash
      | some wild ↦ crash
      | some (ref h) ↦ do
        handler ← load h
        if me.flags.prototype && not handler.flags.prototype
            then (do
              modify clone (λ r. record r { handlers = r.handlers ++ ref h ∷ [] })
              if points_to handler.await proto
                  then modify h (λ r. record r { await = some clone })
                  else pure tt
              modify proto (λ r. record r { handlers = set r.handlers i null })
              clone_handlers copy n proto clone (i + 1) (moved + 1))
            else if points_to handler.await proto
            then clone_handlers copy n proto clone (i + 1) moved
            else (do
              c ← copy h
              modify clone (λ r. record r { handlers = r.handlers ++ ref c ∷ [] })
              clone_handlers copy n proto clone (i + 1) moved)
    ]

  -- The part behind the two refusals.
  unfoldable pub clone_members : (ℕ → M ℕ) → ℕ → ℕ → ℕ → M (Unit {0})
  unfolding clone_handlers
  clone_members copy n proto clone = do
    me ← load proto
    modify clone (λ r. record r { dtor = me.dtor; done = me.done; fail = me.fail })
    elim me.handlers [
      | [] ↦ pure tt
      | s ∷ rest ↦ do
        moved ← clone_handlers copy n proto clone 0 0
        modify proto (λ r. record r { handlers = cleanup moved r.handlers })
        try_clean env proto
    ]
    me ← load proto
    modify clone (λ r. record r { result = me.result })

  unfoldable pub clone : ℕ → ℕ → M ℕ
  unfolding clone_members
  clone zero proto = exhausted
  clone (suc n) proto = do
    me ← load proto
    c ← alloc (record blank { flags = record me.flags { prototype = false } })
    if me.flags.internal
        then (do throw_exception (env.exception_new err_clone_internal); pure c)
        else if is_some me.await || is_some me.generator
        then (do throw_exception (env.exception_new err_yielded); pure c)
        else (do clone_members (clone n) n proto c; pure c)
