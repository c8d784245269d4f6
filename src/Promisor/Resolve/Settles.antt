-- ===== src/Promisor/Resolve/Settles.antt =====
-- A promisor settles once: the functions of src/ion/ion_promisor.c never change a promisor that was
-- finished when they were called.
use php_ion.Base.{
  ℕ, zero, suc, ◌≡◌, refl, Bool, true, false, not, if◌then◌else◌, Bool-cases, inl, inr, subst,
  get_elem?,
}
use php_ion.Promisor.State.{World, Php, Zval, undef, Kind, finished, Action, unset, php, internal}
use php_ion.Promisor.Exec.{M, returned, crash, ◌>>=◌, pure, load, native, invoke}
use php_ion.Promisor.Keeps.Branches.{
  Keeps-modify_other, Keeps-option, Keeps-slot, Keeps-owned, Keeps-zval, Keeps-list, rules,
}
use php_ion.Promisor.Keeps.{
  Stable, Keeps, Nobody, After, PhpKeeps, Keeps-take_exception, Keeps-pure, Keeps-crash, Keeps-load,
  Keeps-if, Keeps-bind, Keeps-bind_alloc, Keeps-modify, Keeps-modify_own, Keeps-invoke,
  Keeps-invoke_void, Keeps-native, Keeps-weaken, Stable_unless, Stable-refl,
}
use php_ion.Promisor.Handlers.{append, clean, try_clean}
use php_ion.Promisor.Clone.{clone, clone_handlers, clone_members}
use php_ion.Promisor.Resolve.{
  Local, choose, accept, called, run_action, begin, watch, resume, drive, release, dispatch, finish,
  resolve,
}

module _ {E : ℕ → Type 0} where
  pub append-Keeps : (c h : ℕ) → Keeps E (append c h)
  unfolding append
  append-Keeps c h = search rules

module _ (env : Php) (keep : PhpKeeps env) where
  clean-Keeps : (p : ℕ) (a : Action) → Keeps Nobody (clean env p a)
  unfolding clean
  clean-Keeps p unset = search rules
  clean-Keeps p (php cb) = Keeps-invoke_void _ (keep.call_void cb)
  clean-Keeps p (internal f) =
      Keeps-bind _ _ (Keeps-native _ (keep.call_internal f p undef)) λ v. Keeps-pure tt

  pub try_clean-Keeps : (p : ℕ) → Keeps Nobody (try_clean env p)
  unfolding try_clean
  try_clean-Keeps p = search (rules, clean-Keeps)

module _ (env : Php) (keep : PhpKeeps env) where
  clone_handlers-Keeps :
      (copy : ℕ → M ℕ)
      → ((h : ℕ) → Keeps Nobody (copy h))
      → (n p c i k : ℕ) → Keeps Nobody (clone_handlers env copy n p c i k)
  unfolding clone_handlers
  clone_handlers-Keeps copy kc zero p c i k = search rules
  clone_handlers-Keeps copy kc (suc n) p c i k =
      let again = clone_handlers-Keeps copy kc n p c in
      Keeps-bind _ _ (Keeps-load p) λ me.
        Keeps-option (get_elem? me.handlers i) _ _ (search rules) λ s.
          Keeps-slot s _ _ _ (λ h. search (rules, again, kc) depth 9) (search rules) (search rules)

  -- The clone is new, so its own fields may change.
  clone_members-Keeps :
      (copy : ℕ → M ℕ)
      → ((h : ℕ) → Keeps Nobody (copy h))
      → (n p c : ℕ) → Keeps (λ q. q ≡ c) (clone_members env copy n p c)
  unfolding clone_members
  clone_members-Keeps copy kc n p c = Keeps-bind _ _ (Keeps-load p) λ me.
      Keeps-bind _ _ (Keeps-modify_other c _ (λ r. refl) (λ r. refl)) λ _.
        Keeps-bind _ _
          (Keeps-list me.handlers _ _ (Keeps-pure tt) (
            Keeps-bind _ _ (Keeps-weaken _ (clone_handlers-Keeps copy kc n p c 0 0)) λ moved.
              Keeps-bind _ _ (Keeps-modify_other p _ (λ r. refl) (λ r. refl))
                λ _. Keeps-weaken _ (try_clean-Keeps env keep p)))
          λ _. Keeps-bind _ _ (Keeps-load p) λ me'. Keeps-modify_own c _ refl

  pub clone-Keeps : (n p : ℕ) → Keeps Nobody (clone env n p)
  unfolding clone
  clone-Keeps zero p = search rules
  clone-Keeps (suc n) p =
      let members = clone_members-Keeps (clone env n) (clone-Keeps n) n p in
      Keeps-bind _ _ (Keeps-load p) λ me. Keeps-bind_alloc _ _ λ c. search (rules, members) depth 9

  called-Keeps : (p : ℕ) (k : Kind) (v : Zval) → Keeps Nobody (called env p k v)
  unfolding called
  called-Keeps p k v =
      Keeps-bind _ _ Keeps-take_exception
        λ thrown. Keeps-option thrown _ _ (search rules depth 9) (λ e. search rules depth 9)

  run_action-Keeps :
      (p : ℕ) (k : Kind) (v : Zval) (a : Action) → Keeps Nobody (run_action env p k v a)
  unfolding run_action
  run_action-Keeps p k v unset = search rules
  run_action-Keeps p k v (php cb) =
      Keeps-bind _ _ (Keeps-invoke _ (keep.call cb v)) (called-Keeps p k)
  run_action-Keeps p k v (internal f) =
      Keeps-bind _ _ (Keeps-native _ (keep.call_internal f p v)) (called-Keeps p k)

  begin-Keeps : (p : ℕ) (v : Zval) (k : Kind) → Keeps Nobody (begin env p v k)
  unfolding begin
  begin-Keeps p v k = Keeps-bind _ _ (Keeps-load p) λ me.
      Keeps-option me.await _ _
        (Keeps-bind _ _
          (Keeps-modify p _ (λ r. record { done = refl; failed = refl; result = refl }))
          λ _. run_action-Keeps p k v (accept env (choose me k) v))
        (λ a. search rules depth 9)

  release-Keeps : (p : ℕ) → Keeps Nobody (release env p)
  unfolding release
  release-Keeps p = Keeps-bind _ _ (Keeps-load p) λ me.
      Keeps-bind _ _
        (Keeps-option me.dtor _ _ (Keeps-pure tt) λ d.
          Keeps-owned me.object _ _ (Keeps-pure tt)
            λ o. Keeps-bind _ _ (Keeps-native _ (keep.run_dtor d o)) λ _. search rules)
        λ _. search rules

  current-Keeps : (g : ℕ) → Keeps Nobody (invoke (env.current g))
  current-Keeps g = Keeps-invoke _ (keep.current g)

  valid-Keeps : (g : ℕ) → Keeps Nobody (invoke (env.valid g))
  valid-Keeps g = Keeps-invoke _ (keep.valid g)

  retval-Keeps : (g : ℕ) → Keeps Nobody (native (λ w. (env.retval g w, w)))
  retval-Keeps g = Keeps-native _ (λ w. Stable-refl w)

  feed-Keeps :
      (b : Bool) (g : ℕ) (v : Zval)
      → Keeps Nobody (invoke (if b then env.send g v else env.throw g v))
  feed-Keeps true g v = Keeps-invoke _ (keep.send g v)
  feed-Keeps false g v = Keeps-invoke _ (keep.throw g v)

  watch-Keeps : (n p : ℕ) (s : Local) → Keeps Nobody (watch env n p s)
  unfolding watch
  watch-Keeps zero p s = search rules
  watch-Keeps (suc n) p s =
      let again = watch-Keeps n p in
      Keeps-zval s.result _ _ _ (search rules) (λ g. search (rules, current-Keeps, again) depth 9)
        (λ a. search (rules, append-Keeps, again) depth 9)

  resume-Keeps : (n p : ℕ) (s : Local) → Keeps Nobody (resume env n p s)
  unfolding resume
  resume-Keeps zero p s = search rules
  resume-Keeps (suc n) p s =
      let again = resume-Keeps n p in
      Keeps-bind _ _ (Keeps-load p) λ me. Keeps-option me.generator _ _ (search rules) λ g.
        Keeps-bind _ _ (feed-Keeps _ g s.result) λ next.
          Keeps-bind _ _ Keeps-take_exception λ thrown.
            Keeps-option thrown _ _
              (Keeps-bind _ _ (Keeps-load p) λ me'.
                Keeps-option me'.generator _ _ (search rules)
                  λ g'. search (rules, valid-Keeps, retval-Keeps, again) depth 9)
              (λ e. search rules)

  drive-Keeps : (n p : ℕ) (s : Local) → Keeps Nobody (drive env n p s)
  unfolding drive
  drive-Keeps zero p s = search rules
  drive-Keeps (suc n) p s = search (rules, resume-Keeps, watch-Keeps, drive-Keeps n p) depth 9

  module _ (settle : ℕ → Zval → Kind → M (Unit {0})) (copy : ℕ → M ℕ)
      (ks : (p : ℕ) (v : Zval) (k : Kind) → Keeps Nobody (settle p v k))
      (kc : (p : ℕ) → Keeps Nobody (copy p)) where
    dispatch-Keeps :
        (n p : ℕ) (v : Zval) (k : Kind) (i : ℕ) → Keeps Nobody (dispatch env settle copy n p v k i)
    unfolding dispatch
    dispatch-Keeps zero p v k i = search rules
    dispatch-Keeps (suc n) p v k i =
        let again = dispatch-Keeps n p v k in
        Keeps-bind _ _ (Keeps-load p) λ me.
          Keeps-option (get_elem? me.handlers i) _ _ (search rules) λ s.
            Keeps-slot s _ _ _ (λ h. search (rules, again, ks, kc) depth 12) (search rules)
              (search rules)

    finish-Keeps : (n p : ℕ) (s : Local) → Keeps (λ q. q ≡ p) (finish env settle copy n p s)
    unfolding finish
    finish-Keeps n p s = Keeps-if (not s.resolved) (pure tt) _ (Keeps-pure tt) (
        Keeps-bind _ _ (Keeps-modify_own p _ refl) λ _.
          Keeps-bind _ _ (Keeps-weaken _ (release-Keeps p)) λ _. Keeps-bind _ _ (Keeps-load p) λ me.
            Keeps-list me.handlers _ _ (Keeps-pure tt) (
              Keeps-bind _ _ (Keeps-weaken _ (dispatch-Keeps n p s.result s.kind 0))
                λ _. Keeps-modify_other p _ (λ r. refl) (λ r. refl)))

  settling :
      (n p : ℕ) (v : Zval) (k : Kind)
      → ((p : ℕ) (v : Zval) (k : Kind) → Keeps Nobody (resolve env n p v k))
      → Keeps
          (λ q. q ≡ p)
          (do
            s ← begin env p v k
            s' ← if s.resolved then pure s else watch env n p s
            s'' ← drive env n p s'
            finish env (resolve env n) (clone env n) n p s'')
  settling n p v k ih = Keeps-bind _ _ (Keeps-weaken _ (begin-Keeps p v k)) λ s.
      Keeps-bind _ _
        (Keeps-if s.resolved (pure s) _ (Keeps-pure s) (Keeps-weaken _ (watch-Keeps n p s)))
        λ s'.
          Keeps-bind _ _ (Keeps-weaken _ (drive-Keeps n p s'))
            λ s''. finish-Keeps (resolve env n) (clone env n) ih (clone-Keeps n) n p s''

  resolve_but :
      (n p : ℕ) (v : Zval) (k : Kind)
      → ((p : ℕ) (v : Zval) (k : Kind) → Keeps Nobody (resolve env n p v k))
      → Keeps (λ q. q ≡ p) (resolve env (suc n) p v k)
  unfolding resolve
  resolve_but n p v k ih = Keeps-bind _ _ (Keeps-load p) λ me.
      Keeps-if (finished me.flags) (pure tt) _ (Keeps-pure tt)
        (Keeps-if me.flags.prototype crash _ Keeps-crash (settling n p v k ih))

  pub resolve-Keeps : (n p : ℕ) (v : Zval) (k : Kind) → Keeps Nobody (resolve env n p v k)
  unfolding resolve
  resolve-Keeps zero p v k = search rules
  resolve-Keeps (suc n) p v k = record {
    at = λ w. elim (Bool-cases (finished (w.promisors p).flags)) [
      | inl e ↦ unfold load pure ◌>>=◌ in rw e (Stable-refl w)
      | inr e ↦ Stable_unless p w _ e ((resolve_but n p v k (resolve-Keeps n)).at w)
    ];
  }

  -- Let the PHP code, the C callbacks and the destructors keep what is settled. If
  -- `ion_promisor_resolve` returns, with all the callbacks, generators and handlers that it reached,
  -- then no promisor that was finished before the call has changed its state (done, failed) or its
  -- result, and none is lost.
  pub resolve_settled :
      (n p : ℕ) (v : Zval) (k : Kind) (w w' : World)
      → resolve env n p v k w ≡ returned tt w'
      → Stable Nobody w w'
  resolve_settled n p v k w w' e = subst (After Nobody w) e ((resolve-Keeps n p v k).at w)
