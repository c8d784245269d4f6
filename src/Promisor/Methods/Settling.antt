-- ===== src/Promisor/Methods/Settling.antt =====
-- ResolvablePromise::done and fail, and Deferred::cancel, on a row of promisors without callbacks.
use php_ion.Base.{
  ℕ, suc, ◌≤◌, ◌≡◌, refl, ap, ◌∙◌, none, some, List, ◌∷◌, true, false, length, Bytes,
}
use php_ion.Promisor.State.{Promisor, World, Php, Zval, kind_done, kind_failed, kind_canceled, Slot}
use php_ion.Promisor.Exec.{returned, continue, ◌>>=◌, pure}
use php_ion.Promisor.Resolve.{resolve}
use php_ion.Promisor.Resolve.Chain.{Idle, Chained, Chained-touch, touch, eq_self}
use php_ion.Promisor.Resolve.Chain.Delivery.{Delivered, resolve-Delivered}
use php_ion.Promisor.Outcome.{done, cancel, cancel_exception}
use php_ion.Promisor.Methods.{
  resolvable_done, resolvable_fail, deferred_cancel, err_already_finished,
}

abbrev pub mark_canceled : Promisor → Promisor
mark_canceled r = record r { flags = record r.flags { canceled = true } }

marked-Idle : (r : Promisor) (hs : List Slot) → Idle r hs → Idle (mark_canceled r) hs
marked-Idle r hs i = record {
  not_done = i.not_done;
  not_failed = i.not_failed;
  not_prototype = i.not_prototype;
  no_done = i.no_done;
  no_fail = i.no_fail;
  no_canceler = i.no_canceler;
  no_await = i.no_await;
  no_generator = i.no_generator;
  no_dtor = i.no_dtor;
  handlers_eq = i.handlers_eq;
}

module _ (env : Php) where
  cancel_start :
      (n p : ℕ) (message : Bytes) (w : World)
      → (w.promisors p).flags.done ≡ false
      → (w.promisors p).flags.failed ≡ false
      → deferred_cancel env n p message w
        ≡ (resolve env n p (env.new_exception cancel_exception message 0) kind_canceled >>= λ _.
              pure (some p))
            (touch p mark_canceled w)
  unfolding deferred_cancel cancel ◌>>=◌
  cancel_start n p message w nd nf = simp (nd, nf) refl

  done_start :
      (n p : ℕ) (v : Zval) (w : World) (hs : List Slot)
      → Idle (w.promisors p) hs
      → (w.promisors p).flags.internal ≡ false
      → resolvable_done env n p v w ≡ (resolve env n p v kind_done >>= λ _. pure (some p)) w
  unfolding resolvable_done done ◌>>=◌
  done_start n p v w hs i ni =
      simp (i.not_done, i.not_failed, ni, i.no_await, i.no_generator, i.not_prototype) refl

  -- Deferred::cancel on the first of a row of promisors (each pending, without callbacks, and with
  -- the next one as its only handler) marks it as canceled, and then fails the whole row with a new
  -- CancelException of the message; it returns the deferred. Fuel of two more than the handlers in
  -- the row is enough.
  pub cancel-Delivered :
      (ps : List ℕ) (n p : ℕ) (message : Bytes) (w : World)
      → Chained w (p ∷ ps)
      → length ps ≤ n
      → (w' : World) × (deferred_cancel env (suc (suc n)) p message w ≡ returned (some p) w')
        × Delivered
            (env.new_exception cancel_exception message 0)
            kind_failed
            (p ∷ ps)
            (touch p mark_canceled w)
            w'
  unfolding ◌>>=◌
  cancel-Delivered ps n p message w c le =
      let (w', e, d) =
        resolve-Delivered env ps n p (env.new_exception cancel_exception message 0) kind_canceled
          (touch p mark_canceled w)
          (rw (eq_self p) (marked-Idle _ _ c.0), c.1, Chained-touch p mark_canceled w ps c.1 c.2)
          le in
      (
        w',
        cancel_start (suc (suc n)) p message w c.0.not_done c.0.not_failed
            ∙ ap (λ r. continue r (λ _. pure (some p))) e,
        d,
      )

  -- The world after a refusal.
  abbrev pub refused : World → World
  refused w = record w { exception = some (env.exception_new err_already_finished) }

  done_again :
      (n p : ℕ) (v : Zval) (w : World)
      → (w.promisors p).flags.done ≡ true
      → resolvable_done env n p v w ≡ returned none (refused w)
  unfolding resolvable_done ◌>>=◌
  done_again n p v w e = simp e refl

  fail_after :
      (n p : ℕ) (v : Zval) (w : World)
      → (w.promisors p).flags.done ≡ true
      → resolvable_fail env n p v w ≡ returned none (refused w)
  unfolding resolvable_fail ◌>>=◌
  fail_after n p v w e = simp e refl

  -- ResolvablePromise::done on the first of a row of promisors (each pending, without callbacks, and
  -- with the next one as its only handler) that is no internal one returns it, and settles the row
  -- as done with the value; fuel of two more than the handlers in the row is enough. After that,
  -- done and fail with any value refuse: they throw ERR_ION_PROMISE_ALREADY_FINISHED and change
  -- nothing else.
  pub resolvable_done-Delivered :
      (ps : List ℕ) (n p m : ℕ) (v u : Zval) (w : World)
      → Chained w (p ∷ ps)
      → (w.promisors p).flags.internal ≡ false
      → length ps ≤ n
      → (w' : World) × (resolvable_done env (suc (suc n)) p v w ≡ returned (some p) w')
        × Delivered v kind_done (p ∷ ps) w w'
        × (resolvable_done env m p u w' ≡ returned none (refused w'))
        × (resolvable_fail env m p u w' ≡ returned none (refused w'))
  unfolding ◌>>=◌
  resolvable_done-Delivered ps n p m v u w c ni le =
      let (w', e, d) = resolve-Delivered env ps n p v kind_done w c le in
      (
        w',
        done_start (suc (suc n)) p v w _ c.0 ni ∙ ap (λ r. continue r (λ _. pure (some p))) e,
        d,
        done_again m p u w' d.got.0.is_done,
        fail_after m p u w' d.got.0.is_done,
      )
