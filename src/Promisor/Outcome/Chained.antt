-- ===== src/Promisor/Outcome/Chained.antt =====
-- ion_promisor_done, ion_promisor_throw and ion_promisor_rethrow of src/ion/ion_promisor.c on a chain of
-- promisors without callbacks.
use php_ion.Base.{
  ℕ, suc, ◌≤◌, ◌≡◌, refl, ap, ◌∙◌, Option, none, some, List, [], ◌∷◌, false, length, Bytes,
}
use php_ion.Promisor.State.{World, Php, Zval, kind_done, kind_failed}
use php_ion.Promisor.Exec.{returned, continue, ◌>>=◌, ◌>>◌, pure}
use php_ion.Promisor.Resolve.{resolve}
use php_ion.Promisor.Resolve.Chain.{Chained}
use php_ion.Promisor.Resolve.Chain.Delivery.{Delivered, resolve-Delivered}
use php_ion.Promisor.Outcome.{done_ex, fail_ex, throw_ex, throw_void, rethrow_ex, rethrow}

Chained-calm : (w : World) (ps : List ℕ) → Chained w ps → Chained (record w { exception = none }) ps
Chained-calm w [] c = tt
Chained-calm w (p ∷ rest) c = (c.0, c.1, Chained-calm w rest c.2)

module _ (env : Php) where
  done_plain :
      (n p : ℕ) (v : Zval) (w : World)
      → (w.promisors p).flags.prototype ≡ false
      → done_ex env n p v w ≡ (resolve env n p v kind_done >> pure none) w
  unfolding done_ex ◌>>=◌
  done_plain n p v w e = rw e refl

  fail_plain :
      (n p : ℕ) (v : Zval) (w : World)
      → (w.promisors p).flags.prototype ≡ false
      → fail_ex env n p v w ≡ (resolve env n p v kind_failed >> pure none) w
  unfolding fail_ex ◌>>=◌
  fail_plain n p v w e = rw e refl

  rethrow_start :
      (n p : ℕ) (ce : Option ℕ) (message : Bytes) (code : ℕ) (x : Zval) (w : World)
      → w.exception ≡ some x
      → rethrow env n p ce message code w
        ≡ (fail_ex env n p x >>= λ _. pure tt) (record w { exception = none })
  unfolding rethrow rethrow_ex ◌>>=◌
  rethrow_start n p ce message code x w thrown = rw thrown refl

  -- ion_promisor_throw settles a row of promisors (each pending, without callbacks, and with the next
  -- one as its only handler) as done, not as failed: with fuel of two more than the handlers in the
  -- row it returns, and all of them have the new exception as the value that they were done with.
  pub throw-Delivered :
      (ps : List ℕ) (n p ce : ℕ) (message : Bytes) (code : ℕ) (w : World)
      → Chained w (p ∷ ps)
      → length ps ≤ n
      → (w' : World) × (throw_void env (suc (suc n)) p ce message code w ≡ returned tt w')
        × Delivered (env.new_exception ce message code) kind_done (p ∷ ps) w w'
  unfolding throw_void throw_ex ◌>>=◌
  throw-Delivered ps n p ce message code w c le =
      let (w', e, d) =
        resolve-Delivered env ps n p (env.new_exception ce message code) kind_done w c le in
      (
        w',
        ap (λ r. continue r (λ _. pure tt))
            (done_plain (suc (suc n)) p (env.new_exception ce message code) w c.0.not_prototype
              ∙ ap (λ r. continue r (λ _. pure none)) e),
        d,
      )

  -- ion_promisor_rethrow with a pending exception, whatever class it is given: it takes the
  -- exception away, and settles a row of promisors (each pending, without callbacks, and with the
  -- next one as its only handler) as failed with that exception. Fuel of two more than the handlers
  -- in the row is enough.
  pub rethrow-Delivered :
      (ps : List ℕ) (n p : ℕ) (ce : Option ℕ) (message : Bytes) (code : ℕ) (x : Zval) (w : World)
      → w.exception ≡ some x
      → Chained w (p ∷ ps)
      → length ps ≤ n
      → (w' : World) × (rethrow env (suc (suc n)) p ce message code w ≡ returned tt w')
        × Delivered x kind_failed (p ∷ ps) (record w { exception = none }) w'
  unfolding ◌>>=◌
  rethrow-Delivered ps n p ce message code x w thrown c le =
      let (w', e, d) =
        resolve-Delivered env ps n p x kind_failed (record w { exception = none })
          (Chained-calm w (p ∷ ps) c) le in
      (
        w',
        rethrow_start (suc (suc n)) p ce message code x w thrown
            ∙ ap (λ r. continue r (λ _. pure tt))
                (fail_plain (suc (suc n)) p x (record w { exception = none }) c.0.not_prototype
                  ∙ ap (λ r. continue r (λ _. pure none)) e),
        d,
      )
