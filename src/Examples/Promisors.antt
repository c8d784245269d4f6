-- ===== src/Examples/Promisors.antt =====
-- Promisors of src/ion/ion_promisor.c on concrete worlds.
use php_ion.Base.{◌≡◌, refl, none, some, List, [], ◌∷◌, true, false, ◌==◌, if◌then◌else◌, arith}
use php_ion.Promisor.State.{
  Promisor, World, Php, Zval, undef, null, long, object, string, kind_done, kind_failed, ref,
}
use php_ion.Promisor.Exec.{Run, returned, fault, no_fuel, modify, ◌>>◌, ◌>>=◌, pure}
use php_ion.Promisor.Keeps.{Stable, Stable-refl, Nobody, PhpKeeps}
use php_ion.Promisor.Handlers.{remove, try_clean}
use php_ion.Promisor.Handlers.Removal.{refs, without, remove-without}
use php_ion.Promisor.Create.{promise_init, deferred_new}
use php_ion.Promisor.Resolve.{resolve}
use php_ion.Promisor.Resolve.Settles.{resolve_settled}
use php_ion.Promisor.Resolve.Chain.{Chained, Idle}
use php_ion.Promisor.Resolve.Chain.Delivery.{Delivered, resolve-Delivered}
use php_ion.Promisor.Outcome.{throw_void, rethrow}
use php_ion.Promisor.Outcome.Chained.{throw-Delivered, rethrow-Delivered}
use php_ion.Promisor.Methods.{promise_then, resolvable_done, resolvable_fail}
use php_ion.Promisor.Methods.Lasting.{
  Call, done_call, fail_call, throw_call, then_call, new_deferred, perform_all, settled_forever,
}
use php_ion.Promisor.Methods.{deferred_cancel}
use php_ion.Promisor.Methods.Settling.{
  mark_canceled, refused, cancel-Delivered, resolvable_done-Delivered,
}
use php_ion.Promisor.Resolve.Chain.{touch}
use php_ion.Promisor.Methods.Then.{then-Delivered, joined}

-- Callbacks give their argument back.
abbrev echo : Php
echo = record {
  verify_arg = λ cb i v. true;
  call = λ cb v w. (v, w);
  call_void = λ cb w. w;
  call_internal = λ f p v w. (v, w);
  run_dtor = λ d o w. w;
  current = λ g w. (undef, w);
  send = λ g v w. (v, w);
  throw = λ g v w. (v, w);
  valid = λ g w. (Zval.bool false, w);
  retval = λ g w. null;
  exception_new = λ e. object e;
  new_exception = λ ce message code. object code;
  callable = λ v.
      some (record { function = 7; required_num_args = 1; num_args = 1; is_generator = false });
}

echo_keeps : PhpKeeps echo
echo_keeps = record {
  call = λ cb v w. Stable-refl w;
  call_void = λ cb w. Stable-refl w;
  call_internal = λ f p v w. Stable-refl w;
  run_dtor = λ d o w. Stable-refl w;
  current = λ g w. Stable-refl w;
  send = λ g v w. Stable-refl w;
  throw = λ g v w. Stable-refl w;
  valid = λ g w. Stable-refl w;
}

-- Promise 0 has the handler 1, which has the handler 2; promise 3 is done.
abbrev row : World
row = record {
  promisors = λ p.
      if p == 0
      then record promise_init { handlers = ref 1 ∷ [] }
      else if p == 1
      then record promise_init { handlers = ref 2 ∷ [] }
      else if p == 3
      then record promise_init {
        flags = record promise_init.flags { done = true };
        result = long 1;
      }
      else promise_init;
  next = 4;
  exception = some (object 9);
}

idle : (r : Promisor) → r ≡ record promise_init { handlers = r.handlers } → Idle r r.handlers
idle r e = record {
  not_done = rw e refl;
  not_failed = rw e refl;
  not_prototype = rw e refl;
  no_done = rw e refl;
  no_fail = rw e refl;
  no_canceler = rw e refl;
  no_await = rw e refl;
  no_generator = rw e refl;
  no_dtor = rw e refl;
  handlers_eq = refl;
}

row-Chained : Chained row (0 ∷ 1 ∷ 2 ∷ [])
row-Chained = (
  idle (row.promisors 0) refl,
  ((λ e. omega (arith, e)), ((λ e. omega (arith, e)), tt)),
  (
    idle (row.promisors 1) refl,
    ((λ e. omega (arith, e)), tt),
    (idle (row.promisors 2) refl, tt, tt),
  ),
)

abbrev after : Run (Unit {0}) → World
after (returned u w) = w
after fault = row
after no_fuel = row

abbrev resolved : World
resolved = after (resolve echo 4 0 (long 5) kind_done row)

resolved_runs : resolve echo 4 0 (long 5) kind_done row ≡ returned tt resolved
unfolding resolve ◌>>=◌
resolved_runs = refl

resolve_settled_example : Stable Nobody row resolved
resolve_settled_example =
    resolve_settled echo echo_keeps 4 0 (long 5) kind_done row resolved resolved_runs

resolve-Delivered_example :
    (w' : World) × (resolve echo 4 0 (long 5) kind_done row ≡ returned tt w')
    × Delivered (long 5) kind_done (0 ∷ 1 ∷ 2 ∷ []) row w'
resolve-Delivered_example =
    resolve-Delivered echo (1 ∷ 2 ∷ []) 2 0 (long 5) kind_done row row-Chained (omega arith)

throw-Delivered_example :
    (w' : World) × (throw_void echo 4 0 1 (98 ∷ []) 6 row ≡ returned tt w')
    × Delivered (object 6) kind_done (0 ∷ 1 ∷ 2 ∷ []) row w'
throw-Delivered_example =
    throw-Delivered echo (1 ∷ 2 ∷ []) 2 0 1 (98 ∷ []) 6 row row-Chained (omega arith)

rethrow-Delivered_example :
    (w' : World) × (rethrow echo 4 0 none [] 0 row ≡ returned tt w')
    × Delivered (object 9) kind_failed (0 ∷ 1 ∷ 2 ∷ []) (record row { exception = none }) w'
rethrow-Delivered_example =
    rethrow-Delivered echo (1 ∷ 2 ∷ []) 2 0 none [] 0 (object 9) row refl row-Chained (omega arith)

then-Delivered_example :
    (w' : World) × ((do
      handler ← promise_then echo 0 2 none none
      resolve echo 3 2 (long 5) kind_failed
      pure handler)
        row
      ≡ returned (some 4) w')
    × Delivered (long 5) kind_failed (2 ∷ 4 ∷ []) (joined 2 row) w'
then-Delivered_example =
    then-Delivered echo 0 2 (long 5) kind_failed row (idle (row.promisors 2) refl) (omega arith)

-- Promise 2 gets a callback and is done; it refuses to fail after that; promise 0 is thrown at.
abbrev history : List Call
history =
    then_call 2 (some (string [])) none
    ∷ done_call 2 (long 5)
    ∷ fail_call 2 (object 1)
    ∷ throw_call 0 1 [] 6
    ∷ new_deferred none
    ∷ []

abbrev calm : World
calm = record row { exception = none }

abbrev finished_history : World
finished_history = after (perform_all echo 6 history calm)

history_runs : perform_all echo 6 history calm ≡ returned tt finished_history
unfolding ◌>>=◌ promise_then resolvable_done resolvable_fail throw_void deferred_new
history_runs = refl

settled_forever_example : Stable Nobody calm finished_history
settled_forever_example =
    settled_forever echo echo_keeps 6 history calm finished_history history_runs

-- Promise 0 with the handlers 1, 2, 1.
abbrev crowd : World
crowd = record row {
  promisors = λ p.
      if p == 0
      then record promise_init { handlers = refs (1 ∷ 2 ∷ 1 ∷ []) }
      else record promise_init { name = if p == 2 then some (97 ∷ []) else none };
}

remove-without_example :
    remove echo 0 1 crowd
    ≡ (modify 0 (λ r. record r { handlers = refs (without (λ g. g == 1) (1 ∷ 2 ∷ 1 ∷ [])) })
          >> try_clean echo 0)
        crowd
remove-without_example = remove-without echo 0 1 (1 ∷ 2 ∷ 1 ∷ []) crowd refl

cancel-Delivered_example :
    (w' : World) × (deferred_cancel echo 4 0 (98 ∷ []) row ≡ returned (some 0) w')
    × Delivered (object 0) kind_failed (0 ∷ 1 ∷ 2 ∷ []) (touch 0 mark_canceled row) w'
cancel-Delivered_example =
    cancel-Delivered echo (1 ∷ 2 ∷ []) 2 0 (98 ∷ []) row row-Chained (omega arith)

resolvable_done-Delivered_example :
    (w' : World) × (resolvable_done echo 4 0 (long 5) row ≡ returned (some 0) w')
    × Delivered (long 5) kind_done (0 ∷ 1 ∷ 2 ∷ []) row w'
    × (resolvable_done echo 1 0 null w' ≡ returned none (refused echo w'))
    × (resolvable_fail echo 1 0 null w' ≡ returned none (refused echo w'))
resolvable_done-Delivered_example =
    resolvable_done-Delivered echo (1 ∷ 2 ∷ []) 2 0 1 (long 5) null row row-Chained refl
      (omega arith)
