-- ===== src/Promisor/Methods/Then.antt =====
-- Promise::then of src/classes/ION/Promise.c, followed by the settling of the promise.
use php_ion.Base.{
  ℕ, suc, ◌<◌, ◌≡◌, refl, ap, ◌∙◌, none, some, [], ◌∷◌, false, ◌==◌, length, ltb, arith,
}
use php_ion.Promisor.State.{World, Php, Zval, Kind, ref}
use php_ion.Promisor.Exec.{returned, continue, ◌>>=◌, ◌>>◌, pure, update}
use php_ion.Promisor.Resolve.{resolve}
use php_ion.Promisor.Resolve.Chain.{Idle, Chained, eq_self}
use php_ion.Promisor.Resolve.{finish_kind}
use php_ion.Promisor.Resolve.Chain.Delivery.{Delivered, resolve-Delivered}
use php_ion.Promisor.Handlers.{push}
use php_ion.Promisor.Create.{
  promise_init, promise_new, push_callbacks, nest, set_callbacks, set_done, set_fail,
}
use php_ion.Promisor.Methods.{promise_then}

-- The world after `then()` on the pending promise `p`.
abbrev pub joined : ℕ → World → World
joined p w = record w {
  promisors =
      update
        (update (update w.promisors w.next promise_init) p
          (record (w.promisors p) { handlers = ref w.next ∷ [] }))
        w.next promise_init;
  next = suc w.next;
}

module _ (env : Php) where
  push_joined :
      (n p : ℕ) (w : World)
      → Idle (w.promisors p) []
      → (p == w.next) ≡ false
      → (w.next == p) ≡ false
      → push_callbacks env n p none none w ≡ returned (some w.next) (joined p w)
  unfolding push_callbacks promise_new nest set_callbacks set_done set_fail push ◌>>=◌
  push_joined n p w i ne ne' =
      simp (i.not_done, i.not_failed, ne, i.handlers_eq, length, ltb)
        (rw (ne', i.not_prototype, eq_self p, eq_self w.next) refl)

  then_joined :
      (n p : ℕ) (w : World)
      → Idle (w.promisors p) []
      → p < w.next
      → promise_then env n p none none w ≡ returned (some w.next) (joined p w)
  unfolding promise_then ◌>>=◌
  then_joined n p w i lt = rw (push_joined n p w i (ground arith) (ground arith)) refl

  joined-Chained :
      (p : ℕ) (w : World)
      → Idle (w.promisors p) []
      → p < w.next
      → Chained (joined p w) (p ∷ w.next ∷ [])
  joined-Chained p w i lt = (
    rw (differ, eq_self p)
        (record {
          not_done = i.not_done;
          not_failed = i.not_failed;
          not_prototype = i.not_prototype;
          no_done = i.no_done;
          no_fail = i.no_fail;
          no_canceler = i.no_canceler;
          no_await = i.no_await;
          no_generator = i.no_generator;
          no_dtor = i.no_dtor;
          handlers_eq = refl;
        }),
    (λ e. omega (arith, e), tt),
    (
      rw (eq_self w.next) (record {
        not_done = refl;
        not_failed = refl;
        not_prototype = refl;
        no_done = refl;
        no_fail = refl;
        no_canceler = refl;
        no_await = refl;
        no_generator = refl;
        no_dtor = refl;
        handlers_eq = refl;
      }),
      tt,
      tt,
    ),
  )
    where
      differ : (p == w.next) ≡ false
      differ = ground arith

  -- Let a promise be pending, without callbacks and handlers. `then()` without arguments returns a new
  -- promise; settling the first one after that (with fuel for three promisors or more) returns, and
  -- gives both promises the value and the kind (done or failed), leaves no handlers at them, and
  -- changes no other promisor.
  pub then-Delivered :
      (n p : ℕ) (v : Zval) (k : Kind) (w : World)
      → Idle (w.promisors p) []
      → p < w.next
      → (w' : World) × ((do
        handler ← promise_then env n p none none
        resolve env (suc (suc (suc n))) p v k
        pure handler)
            w
          ≡ returned (some w.next) w')
        × Delivered v (finish_kind k) (p ∷ w.next ∷ []) (joined p w) w'
  unfolding ◌>>=◌
  then-Delivered n p v k w i lt =
      let (w', e, d) =
        resolve-Delivered env (w.next ∷ []) (suc n) p v k (joined p w) (joined-Chained p w i lt)
          (omega arith) in
      (
        w',
        ap (λ r. continue r (λ handler. resolve env (suc (suc (suc n))) p v k >> pure handler))
              (then_joined n p w i lt)
            ∙ ap (λ r. continue r (λ _. pure (some w.next))) e,
        d,
      )
