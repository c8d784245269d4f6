-- ===== src/Promisor/Resolve.antt =====
-- ion_promisor_resolve of src/ion/ion_promisor.c: a promisor takes a value or an error, runs its
-- callback, follows promises and generators, and settles itself and then its handlers. The loops
-- (`goto watch_result`, `goto resume_generator`, the handlers) and the recursion run on fuel.
pub mod Settles
pub mod Chain
use php_ion.Base.{
  ℕ, zero, suc, ◌+◌, ◌<◌, Option, none, some, List, [], ◌∷◌, Bool, true, false, ◌==◌, ◌&&◌, ◌||◌,
  not, ltb, if◌then◌else◌, get_elem?, set, length,
}
use php_ion.Promisor.State.{
  Promisor, World, Php, Slot, ref, null, wild, Zval, undef, bool, generator, promise, Flags,
  finished, Kind, kind_done, kind_failed, Callback, Action, unset, php, internal, Owned, nothing,
  ptr,
}
use php_ion.Promisor.Exec.{
  M, ◌>>=◌, ◌>>◌, pure, crash, exhausted, load, modify, invoke, invoke_void, native, take_exception,
  returned,
}
use php_ion.Promisor.Handlers.{append, push, or_crash}
use php_ion.Promisor.Clone.{clone, is_some}

-- The local variables `result`, `result_type`, `resolved` and `skip_generator`.
pub record Local : Type 0 where
  pub result : Zval
  pub kind : Kind
  pub resolved : Bool
  pub skip_generator : Bool

-- `type & ION_PROMISOR_FINISHED`
abbrev pub finish_kind : Kind → Kind
finish_kind k = record k { canceled = false }

abbrev no_kind : Kind
no_kind = record { done = false; failed = false; canceled = false }

abbrev is_undef : Zval → Bool
is_undef undef = true
is_undef _ = false

abbrev is_false : Zval → Bool
is_false (bool false) = true
is_false _ = false

-- Z_ISGENERATOR
abbrev is_generator : Zval → Bool
is_generator (generator g) = true
is_generator _ = false

-- The callback that the kind asks for.
unfoldable pub choose : Promisor → Kind → Action
choose me k =
    if k.done
    then me.done
    else if k.canceled
    then me.canceler
    else if k.failed
    then me.fail
    else unset

-- A PHP callback is freed.
abbrev pub dropped : Action → Action
dropped (php cb) = unset
dropped a = a

module _ (env : Php) where
  -- A PHP callback is passed over if it requires several arguments or refuses the value's type.
  unfoldable pub accept : Action → Zval → Action
  accept unset v = unset
  accept (internal f) v = internal f
  accept (php cb) v =
      if ltb 1 cb.required_num_args
      then unset
      else if not (cb.num_args == 0) && not (env.verify_arg cb 0 v)
      then unset
      else php cb

  -- The code after the callback's call, with its return value.
  unfoldable pub called : ℕ → Kind → Zval → M Local
  unfolding choose
  called p k v = do
    thrown ← take_exception
    elim thrown [
      | some e ↦
          if is_undef v
          then pure
              (record { result = e; kind = kind_failed; resolved = true; skip_generator = false })
          else crash
      | none ↦
          if is_undef v
          then pure
              (record { result = v; kind = no_kind; resolved = false; skip_generator = false })
          else (do
            me ← load p
            let returned_generator : Bool = elim (choose me k) [
              | php cb ↦ is_generator v && not cb.is_generator
              | _ ↦ false
            ]
            pure (record {
              result = v;
              kind = kind_done;
              resolved = false;
              skip_generator = returned_generator;
            }))
    ]

  unfoldable pub run_action : ℕ → Kind → Zval → Action → M Local
  unfolding called
  run_action p k v unset =
      pure (record { result = v; kind = finish_kind k; resolved = true; skip_generator = false })
  run_action p k v (php cb) = do r ← invoke (env.call cb v); called p k r
  run_action p k v (internal f) = do r ← native (env.call_internal f p v); called p k r

  -- The first half, up to the label `watch_result`.
  unfoldable pub begin : ℕ → Zval → Kind → M Local
  unfolding choose accept run_action
  begin p v k = do
    me ← load p
    elim me.await [
      | some a ↦ do
        modify p (λ r. record r { await = none })
        pure (record {
          result = v;
          kind = finish_kind k;
          resolved = not (is_some me.generator);
          skip_generator = false;
        })
      | none ↦ do
        modify p (λ r. record r { flags = record r.flags { processing = true } })
        run_action p k v (accept (choose me k) v)
    ]

  -- The block at the label `watch_result`.
  unfoldable pub watch : ℕ → ℕ → Local → M Local
  watch zero p s = exhausted
  watch (suc n) p s = elim s.result [
    | generator g ↦ do
      me ← load p
      if s.skip_generator || is_some me.generator then pure (record s { resolved = true }) else (do
        modify p (λ r. record r { generator = some g })
        v ← invoke (env.current g)
        watch n p (record s { result = v; resolved = true }))
    | promise a ↦ do
      awaited ← load a
      if finished awaited.flags
          then watch n p (record s {
            result = awaited.result;
            kind = record {
              done = awaited.flags.done;
              failed = awaited.flags.failed;
              canceled = false;
            };
            resolved = true;
          })
          else (do
            modify p (λ r. record r { await = some a })
            append a p
            pure (record s { resolved = false }))
    | other ↦ pure (record s { resolved = true })
  ]

  -- The block at the label `resume_generator`, which reads the generator of the promisor again after it has
  -- run; the flag is `is_valid_generator`.
  unfoldable pub resume : ℕ → ℕ → Local → M (Local × Bool)
  resume zero p s = exhausted
  resume (suc n) p s = do
    me ← load p
    elim me.generator [
      | none ↦ crash
      | some g ↦ do
        next ←
            invoke (
              if s.kind.done && not s.kind.failed
              then env.send g s.result
              else env.throw g s.result)
        thrown ← take_exception
        elim thrown [
          | some e ↦
              if is_undef next
              then pure (record s { result = e; kind = kind_failed }, false)
              else crash
          | none ↦ do
            me' ← load p
            elim me'.generator [
              | none ↦ crash
              | some g' ↦ do
                valid ← invoke (env.valid g')
                if is_false valid
                    then (do
                      last ← native (λ w. (env.retval g w, w))
                      pure (
                        record s {
                          result = if is_undef last then Zval.null else last;
                          kind = kind_done;
                          skip_generator = true;
                        },
                        false,
                      ))
                    else if is_generator next
                    then resume n p (record s { result = next })
                    else pure (record s { result = next }, true)
            ]
        ]
    ]

  -- The generator is fed until it ends or waits for a promise.
  unfoldable pub drive : ℕ → ℕ → Local → M Local
  unfolding resume watch
  drive zero p s = exhausted
  drive (suc n) p s = do
    me ← load p
    if is_some me.generator && s.resolved
        then (do
          (s', is_valid) ← resume n p s
          if is_valid then pure tt else modify p (λ r. record r { generator = none })
          s'' ← watch n p s'
          drive n p s'')
        else pure s

  -- ion_promisor_release
  unfoldable pub release : ℕ → M (Unit {0})
  release p = do
    me ← load p
    elim me.dtor [
      | none ↦ pure tt
      | some d ↦ elim me.object [
        | ptr o ↦ do
          native (λ w. (tt, env.run_dtor d o w))
          modify p (λ r. record r { dtor = none; object = nothing })
        | _ ↦ pure tt
      ]
    ]
    modify p (λ r. record r {
      done = dropped r.done;
      fail = dropped r.fail;
      canceler = dropped r.canceler;
    })

  -- The loop over the handlers, from index `i`.
  unfoldable pub dispatch :
      (ℕ → Zval → Kind → M (Unit {0})) → (ℕ → M ℕ) → ℕ → ℕ → Zval → Kind → ℕ → M (Unit {0})
  dispatch settle copy zero p v k i = exhausted
  dispatch settle copy (suc n) p v k i = do
    me ← load p
    elim (get_elem? me.handlers i) [
      | none ↦ pure tt
      | some null ↦ crash
      | some wild ↦ crash
      | some (ref h) ↦ do
        handler ← load h
        target ← if handler.flags.prototype then copy h else pure h
        settle target v k
        me ← load p
        if ltb i (length me.handlers)
            then modify p (λ r. record r { handlers = set r.handlers i null })
            else crash
        dispatch settle copy n p v k (i + 1)
    ]

  -- The last part, under `if(resolved)`.
  unfoldable pub finish :
      (ℕ → Zval → Kind → M (Unit {0})) → (ℕ → M ℕ) → ℕ → ℕ → Local → M (Unit {0})
  unfolding release dispatch
  finish settle copy n p s = if not s.resolved then pure tt else (do
    modify p (λ r. record r {
      result = s.result;
      flags = record r.flags {
        done = r.flags.done || s.kind.done;
        failed = r.flags.failed || s.kind.failed;
        processing = false;
      };
    })
    release p
    me ← load p
    elim me.handlers [
      | [] ↦ pure tt
      | h ∷ rest ↦ do
        dispatch settle copy n p s.result s.kind 0
        modify p (λ r. record r { handlers = [] })
    ])

  unfoldable pub resolve : ℕ → ℕ → Zval → Kind → M (Unit {0})
  unfolding begin watch drive finish
  resolve zero p v k = exhausted
  resolve (suc n) p v k = do
    me ← load p
    if finished me.flags then pure tt else if me.flags.prototype then crash else (do
      s ← begin p v k
      s' ← if s.resolved then pure s else watch n p s
      s'' ← drive n p s'
      finish (resolve n) (clone env n) n p s'')
