-- ===== src/Promisor/Methods/Lasting.antt =====
-- What was settled stays settled: the PHP methods and the functions by which the extension creates,
-- settles and cancels promisors, in any order.
use php_ion.Base.{ℕ, ◌≡◌, Option, none, some, List, [], ◌∷◌, Bool, subst, Bytes}
use php_ion.Promisor.State.{World, Php, Slot, Zval, promise, string}
use php_ion.Promisor.Exec.{crash, M, returned, ◌>>=◌, ◌>>◌, pure}
use php_ion.Promisor.Keeps.{
  Stable, Stable-refl, Keeps, Nobody, After, PhpKeeps, Keeps-pure, Keeps-bind, Keeps-bind_alloc,
  Keeps-native, Keeps-throw_exception, Keeps-crash,
}
use php_ion.Promisor.Handlers.{remove, remove_named, sweep_out, is_named}
use php_ion.Promisor.Keeps.Branches.{Keeps-option}
use php_ion.Promisor.Resolve.Settles.{try_clean-Keeps}
use php_ion.Promisor.Create.{promise_new, deferred_new, set_initial_callback}
use php_ion.Promisor.Outcome.{throw_ex, throw_void, rethrow, done_ex, done_null_ex}
use php_ion.Promisor.Methods.{
  promise_construct, promise_then, promise_of, forget, on_done, on_fail, set_name, resolvable_done,
  resolvable_fail, deferred_construct, deferred_cancel, sequence_construct, sequence_invoke,
}
use php_ion.Promisor.Methods.Calls.{
  calls, done-Keeps, done_ex-Keeps, fail-Keeps, rethrow_ex-Keeps, cancel-Keeps, set_done-Keeps,
  set_callbacks-Keeps, promise_new-Keeps, push_callbacks-Keeps,
}

sweep_out-Keeps : (c : ℕ) (f : Slot → Option Bool) → Keeps Nobody (sweep_out c f)
unfolding sweep_out
sweep_out-Keeps c f = search calls depth 9

module _ (env : Php) (keep : PhpKeeps env) where
  remove-Keeps : (c h : ℕ) → Keeps Nobody (remove env c h)
  unfolding remove
  remove-Keeps c h = search (calls, sweep_out-Keeps, try_clean-Keeps env keep) depth 9

  remove_named-Keeps : (c : ℕ) (name : Bytes) → Keeps Nobody (remove_named env c name)
  unfolding remove_named
  remove_named-Keeps c name = record {
    at = λ w.
        (Keeps-bind _ _ (sweep_out-Keeps c (is_named w.promisors name))
            λ _. try_clean-Keeps env keep c).at
          w;
  }

  construct-Keeps : (p : ℕ) (d f : Option Zval) → Keeps Nobody (promise_construct env p d f)
  unfolding promise_construct
  construct-Keeps p d f = search (calls, set_callbacks-Keeps env keep) depth 9

  then-Keeps : (n p : ℕ) (d f : Option Zval) → Keeps Nobody (promise_then env n p d f)
  unfolding promise_then
  then-Keeps n p d f =
      Keeps-option (promise_of d) _ _
        (Keeps-bind _ _ (push_callbacks-Keeps env keep n p d f) λ handler.
          Keeps-option handler _ _
            (Keeps-bind _ _ (Keeps-native _ (λ w. Stable-refl w)) λ pending. search calls depth 9)
            (λ h. Keeps-pure (some h)))
        (λ h. search calls depth 9)

  forget-Keeps : (p : ℕ) (v : Zval) → Keeps Nobody (forget env p v)
  unfolding forget
  forget-Keeps p (promise h) = remove-Keeps p h
  forget-Keeps p (string name) = remove_named-Keeps p name
  forget-Keeps p _ = Keeps-throw_exception _

  on_done-Keeps : (n p : ℕ) (v : Zval) → Keeps Nobody (on_done env n p v)
  unfolding on_done
  on_done-Keeps n p v =
      Keeps-bind _ _ (push_callbacks-Keeps env keep n p (some v) none)
        λ handler. Keeps-option handler _ _ (search calls depth 9) (λ h. Keeps-pure (some h))

  on_fail-Keeps : (n p : ℕ) (v : Zval) → Keeps Nobody (on_fail env n p v)
  unfolding on_fail
  on_fail-Keeps n p v =
      Keeps-bind _ _ (push_callbacks-Keeps env keep n p none (some v))
        λ handler. Keeps-option handler _ _ (search calls depth 9) (λ h. Keeps-pure (some h))

  resolvable_done-Keeps : (n p : ℕ) (v : Zval) → Keeps Nobody (resolvable_done env n p v)
  unfolding resolvable_done
  resolvable_done-Keeps n p v = search (calls, done-Keeps env keep) depth 12

  resolvable_fail-Keeps : (n p : ℕ) (v : Zval) → Keeps Nobody (resolvable_fail env n p v)
  unfolding resolvable_fail
  resolvable_fail-Keeps n p v = search (calls, fail-Keeps env keep) depth 12

  deferred_cancel-Keeps : (n p : ℕ) (m : Bytes) → Keeps Nobody (deferred_cancel env n p m)
  unfolding deferred_cancel
  deferred_cancel-Keeps n p m = search (calls, cancel-Keeps env keep) depth 12

  sequence_invoke-Keeps : (n p : ℕ) (vs : List Zval) → Keeps Nobody (sequence_invoke env n p vs)
  unfolding sequence_invoke done_null_ex
  sequence_invoke-Keeps n p vs =
      Keeps-bind _ _ (settled vs)
        λ c. Keeps-option c _ _ (search calls depth 9) (λ h. Keeps-pure (some h))
    where
      settled :
          (vs : List Zval)
          → Keeps Nobody (elim vs as (λ x. M (Option ℕ)) [
            | [] ↦ done_null_ex env n p
            | v ∷ rest ↦ elim rest as (λ x. M (Option ℕ)) [
              | [] ↦ done_ex env n p v
              | u ∷ more ↦ crash
            ]
          ])
      settled [] = done_ex-Keeps env keep n p _
      settled (v ∷ []) = done_ex-Keeps env keep n p v
      settled (v ∷ u ∷ more) = Keeps-crash

  deferred_construct-Keeps : (p : ℕ) (v : Option Zval) → Keeps Nobody (deferred_construct env p v)
  unfolding deferred_construct
  deferred_construct-Keeps p none = search calls
  deferred_construct-Keeps p (some v) = search calls

  sequence_construct-Keeps :
      (p : ℕ) (s r : Option Zval) → Keeps Nobody (sequence_construct env p s r)
  unfolding sequence_construct set_initial_callback
  sequence_construct-Keeps p s r = Keeps-bind _ _ (set_done-Keeps env keep p s) λ ok.
      Keeps-bind _ _ (search calls depth 9)
        λ _. Keeps-option r _ _ (Keeps-pure tt) (λ v. search calls)

  throw-Keeps : (n p ce : ℕ) (m : Bytes) (c : ℕ) → Keeps Nobody (throw_void env n p ce m c)
  unfolding throw_void throw_ex
  throw-Keeps n p ce m c = search (calls, done_ex-Keeps env keep) depth 9

  rethrow-Keeps :
      (n p : ℕ) (ce : Option ℕ) (m : Bytes) (c : ℕ) → Keeps Nobody (rethrow env n p ce m c)
  unfolding rethrow
  rethrow-Keeps n p ce m c = search (calls, rethrow_ex-Keeps env keep) depth 9

  deferred_new-Keeps : (v : Option Zval) → Keeps Nobody (deferred_new env v)
  unfolding deferred_new
  deferred_new-Keeps v =
      Keeps-bind_alloc _ _ λ p.
        Keeps-bind _ _ (Keeps-option v _ _ (Keeps-pure tt) (λ x. search calls)) λ _. Keeps-pure p

-- A call from PHP code or from another module of the extension, with the promisor it is made on.
pub data Call : Type 0 where
  construct then_call : ℕ → Option Zval → Option Zval → Call
  forget_call on_done_call on_fail_call done_call fail_call : ℕ → Zval → Call
  name_call cancel_call : ℕ → Bytes → Call
  new_deferred : Option Zval → Call
  new_promise : Option Zval → Option Zval → Call
  construct_deferred : ℕ → Option Zval → Call
  construct_sequence : ℕ → Option Zval → Option Zval → Call
  invoke_sequence : ℕ → List Zval → Call
  throw_call : ℕ → ℕ → Bytes → ℕ → Call
  rethrow_call : ℕ → Option ℕ → Bytes → ℕ → Call

abbrev discard : {A : Type 0} → M A → M (Unit {0})
discard m = m >>= λ _. pure tt

module _ (env : Php) where
  abbrev perform : ℕ → Call → M (Unit {0})
  perform n (construct p d f) = promise_construct env p d f
  perform n (then_call p d f) = discard (promise_then env n p d f)
  perform n (forget_call p v) = forget env p v
  perform n (on_done_call p v) = discard (on_done env n p v)
  perform n (on_fail_call p v) = discard (on_fail env n p v)
  perform n (done_call p v) = discard (resolvable_done env n p v)
  perform n (fail_call p v) = discard (resolvable_fail env n p v)
  perform n (name_call p name) = set_name p name
  perform n (cancel_call p m) = discard (deferred_cancel env n p m)
  perform n (new_deferred v) = discard (deferred_new env v)
  perform n (new_promise d f) = discard (promise_new env d f)
  perform n (construct_deferred p v) = deferred_construct env p v
  perform n (construct_sequence p s r) = sequence_construct env p s r
  perform n (invoke_sequence p vs) = discard (sequence_invoke env n p vs)
  perform n (throw_call p ce m c) = throw_void env n p ce m c
  perform n (rethrow_call p ce m c) = rethrow env n p ce m c

  -- A history is a list of calls that are made one after the other.
  abbrev pub perform_all : ℕ → List Call → M (Unit {0})
  perform_all n [] = pure tt
  perform_all n (c ∷ rest) = perform n c >> perform_all n rest

set_name-Keeps : (p : ℕ) (name : Bytes) → Keeps Nobody (set_name p name)
unfolding set_name
set_name-Keeps p name = search calls

discard-Keeps : {A : Type 0} (m : M A) → Keeps Nobody m → Keeps Nobody (discard m)
discard-Keeps m k = Keeps-bind _ _ k λ _. Keeps-pure tt

module _ (env : Php) (keep : PhpKeeps env) where
  perform-Keeps : (n : ℕ) (c : Call) → Keeps Nobody (perform env n c)
  perform-Keeps n (construct p d f) = construct-Keeps env keep p d f
  perform-Keeps n (then_call p d f) = discard-Keeps _ (then-Keeps env keep n p d f)
  perform-Keeps n (forget_call p v) = forget-Keeps env keep p v
  perform-Keeps n (on_done_call p v) = discard-Keeps _ (on_done-Keeps env keep n p v)
  perform-Keeps n (on_fail_call p v) = discard-Keeps _ (on_fail-Keeps env keep n p v)
  perform-Keeps n (done_call p v) = discard-Keeps _ (resolvable_done-Keeps env keep n p v)
  perform-Keeps n (fail_call p v) = discard-Keeps _ (resolvable_fail-Keeps env keep n p v)
  perform-Keeps n (name_call p name) = set_name-Keeps p name
  perform-Keeps n (cancel_call p m) = discard-Keeps _ (deferred_cancel-Keeps env keep n p m)
  perform-Keeps n (new_deferred v) = discard-Keeps _ (deferred_new-Keeps env keep v)
  perform-Keeps n (new_promise d f) = discard-Keeps _ (promise_new-Keeps env keep d f)
  perform-Keeps n (construct_deferred p v) = deferred_construct-Keeps env keep p v
  perform-Keeps n (construct_sequence p s r) = sequence_construct-Keeps env keep p s r
  perform-Keeps n (invoke_sequence p vs) = discard-Keeps _ (sequence_invoke-Keeps env keep n p vs)
  perform-Keeps n (throw_call p ce m c) = throw-Keeps env keep n p ce m c
  perform-Keeps n (rethrow_call p ce m c) = rethrow-Keeps env keep n p ce m c

  perform_all-Keeps : (n : ℕ) (cs : List Call) → Keeps Nobody (perform_all env n cs)
  perform_all-Keeps n [] = Keeps-pure tt
  perform_all-Keeps n (c ∷ rest) = Keeps-bind _ _ (perform-Keeps n c) λ _. perform_all-Keeps n rest

  -- Take any history of calls of the methods of Promise, ResolvablePromise, Deferred and Sequence, of
  -- ion_promisor_throw and ion_promisor_rethrow, and of the constructors of promisors, over PHP code
  -- that itself keeps what is settled. If it runs to its end, no promisor that was finished before it
  -- changes its state (done, failed) or its result, and none is lost.
  pub settled_forever :
      (n : ℕ) (cs : List Call) (w w' : World)
      → perform_all env n cs w ≡ returned tt w'
      → Stable Nobody w w'
  settled_forever n cs w w' e = subst (After Nobody w) e ((perform_all-Keeps n cs).at w)
