-- ===== src/Promisor/Methods/Calls.antt =====
-- The C functions of src/ion/ion_promisor.c that create, settle and cancel promisors keep what is
-- settled.
use php_ion.Base.{ℕ, ◌≡◌, refl, Option, none, some, false, Bytes}
use php_ion.Promisor.State.{Promisor, Php, Zval, finished}
use php_ion.Promisor.Exec.{modify}
use php_ion.Promisor.Keeps.{
  Keeps, Nobody, PhpKeeps, Keeps-pure, Keeps-load, Keeps-if, Keeps-bind, Keeps-bind_alloc,
  Keeps-modify, Keeps-take_exception, Keeps-crash,
}
use php_ion.Promisor.Keeps.Branches.{rules, Keeps-option, Keeps-or_crash, Keeps-modify_other}
use php_ion.Promisor.Resolve.Settles.{append-Keeps, try_clean-Keeps, clone-Keeps, resolve-Keeps}
use php_ion.Promisor.Create.{promise_new, set_callbacks, set_done, set_fail, push_callbacks, nest}
use php_ion.Promisor.Outcome.{done, done_ex, fail, fail_ex, rethrow_ex, cancel}

pub Keeps-modify_flags :
    {E : ℕ → Type 0} (p : ℕ) (f : Promisor → Promisor)
    → ((r : Promisor) → (f r).flags.done ≡ r.flags.done)
    → ((r : Promisor) → (f r).flags.failed ≡ r.flags.failed)
    → ((r : Promisor) → (f r).result ≡ r.result)
    → Keeps E (modify p f)
Keeps-modify_flags p f d e v =
    Keeps-modify p f λ r. record { done = d r; failed = e r; result = v r }

pub ruleset calls = (rules, Keeps-modify_flags, append-Keeps)

module _ (env : Php) (keep : PhpKeeps env) where
  pub done-Keeps : (n p : ℕ) (v : Zval) → Keeps Nobody (done env n p v)
  unfolding done
  done-Keeps n p v = search (calls, clone-Keeps env keep, resolve-Keeps env keep) depth 9

  pub done_ex-Keeps : (n p : ℕ) (v : Zval) → Keeps Nobody (done_ex env n p v)
  unfolding done_ex
  done_ex-Keeps n p v = search (calls, clone-Keeps env keep, resolve-Keeps env keep) depth 9

  pub fail-Keeps : (n p : ℕ) (v : Zval) → Keeps Nobody (fail env n p v)
  unfolding fail
  fail-Keeps n p v = search (calls, clone-Keeps env keep, resolve-Keeps env keep) depth 9

  pub fail_ex-Keeps : (n p : ℕ) (v : Zval) → Keeps Nobody (fail_ex env n p v)
  unfolding fail_ex
  fail_ex-Keeps n p v = search (calls, clone-Keeps env keep, resolve-Keeps env keep) depth 9

  pub rethrow_ex-Keeps :
      (n p : ℕ) (ce : Option ℕ) (m : Bytes) (c : ℕ) → Keeps Nobody (rethrow_ex env n p ce m c)
  unfolding rethrow_ex
  rethrow_ex-Keeps n p ce m c = Keeps-bind _ _ Keeps-take_exception λ pending.
      Keeps-option pending _ _ (Keeps-option ce _ _ Keeps-crash (λ x. fail_ex-Keeps n p _))
        (λ e. fail_ex-Keeps n p e)

  pub cancel-Keeps : (n p : ℕ) (m : Bytes) → Keeps Nobody (cancel env n p m)
  unfolding cancel
  cancel-Keeps n p m = search (calls, resolve-Keeps env keep) depth 9

  module _ {E : ℕ → Type 0} where
    pub set_done-Keeps : (p : ℕ) (v : Option Zval) → Keeps E (set_done env p v)
    unfolding set_done
    set_done-Keeps p none = search calls
    set_done-Keeps p (some v) =
        Keeps-bind _ _ (Keeps-modify_other p _ (λ r. refl) (λ r. refl))
          λ _. Keeps-option (env.callable v) _ _ (Keeps-pure false) (λ cb. search calls depth 9)

    pub set_fail-Keeps : (p : ℕ) (v : Option Zval) → Keeps E (set_fail env p v)
    unfolding set_fail
    set_fail-Keeps p none = search calls
    set_fail-Keeps p (some v) =
        Keeps-bind _ _ (Keeps-modify_other p _ (λ r. refl) (λ r. refl))
          λ _. Keeps-option (env.callable v) _ _ (Keeps-pure false) (λ cb. search calls depth 9)

    pub set_callbacks-Keeps : (p : ℕ) (d f : Option Zval) → Keeps E (set_callbacks env p d f)
    unfolding set_callbacks
    set_callbacks-Keeps p d f = search (calls, set_done-Keeps, set_fail-Keeps) depth 9

  pub promise_new-Keeps : (d f : Option Zval) → Keeps Nobody (promise_new env d f)
  unfolding promise_new
  promise_new-Keeps d f = Keeps-bind_alloc _ _ λ c. search (calls, set_callbacks-Keeps) depth 9

  pub nest-Keeps : (h p : ℕ) → Keeps Nobody (nest h p)
  unfolding nest
  nest-Keeps h p = search calls depth 9

  pub push_callbacks-Keeps :
      (n p : ℕ) (d f : Option Zval) → Keeps Nobody (push_callbacks env n p d f)
  unfolding push_callbacks
  push_callbacks-Keeps n p d f = Keeps-bind _ _ (Keeps-load p) λ me.
      Keeps-bind _ _ (promise_new-Keeps d f) λ handler.
        Keeps-if (finished me.flags) _ _
          (Keeps-option handler _ _ Keeps-crash
            (λ h. search (calls, nest-Keeps, resolve-Keeps env keep) depth 9))
          (Keeps-option handler _ _ (Keeps-pure none) (λ h. search (calls, nest-Keeps) depth 9))
