-- ===== src/Promisor/Keeps.antt =====
-- What an action may do to the promisors that are settled: one rule for each way to build an action
-- of src/ion/ion_promisor.c.
pub mod Branches
use php_ion.Base.{
  ℕ, suc, ◌≤◌, ◌<◌, ◌≡◌, refl, ◌∙◌, Bool, true, false, if◌then◌else◌, arith, ◌==◌, ap, Bool-cases,
  Option-cases, inl, inr, ==_iff,
}
use php_ion.Promisor.State.{Promisor, World, Zval, Php, Callback, finished}
use php_ion.Promisor.Exec.{
  M, Run, returned, fault, no_fuel, continue, ◌>>=◌, pure, crash, exhausted, load, modify, update,
  alloc, invoke, invoke_void, native, throw_exception, take_exception,
}

-- Being done or failed, and the result, are what handlers and callers get to see.
pub record Same (a b : Promisor) : Type 0 where
  pub done : b.flags.done ≡ a.flags.done
  pub failed : b.flags.failed ≡ a.flags.failed
  pub result : b.result ≡ a.result

-- From `w` to `w'` no promisor is lost, and those that are finished in `w` stay as they are; the
-- promisors in `E` are excepted.
pub record Stable (E : ℕ → Type 0) (w w' : World) : Type 0 where
  pub grows : w.next ≤ w'.next
  pub stays :
      (q : ℕ)
      → q < w.next
      → ¬ E q
      → finished (w.promisors q).flags ≡ true
      → Same (w.promisors q) (w'.promisors q)

abbrev pub Nobody : ℕ → Type 0
Nobody q = ⊥

abbrev pub After : {A : Type 0} → (ℕ → Type 0) → World → Run A → Type 0
After E w (returned a w') = Stable E w w'
After E w fault = Unit
After E w no_fuel = Unit

-- The action keeps what is settled, whenever it returns.
pub record Keeps (E : ℕ → Type 0) {A : Type 0} (m : M A) : Type 0 where
  pub at : (w : World) → After E w (m w)

pub Same-refl : (a : Promisor) → Same a a
Same-refl a = record { done = refl; failed = refl; result = refl }

Same-trans : {a b c : Promisor} → Same a b → Same b c → Same a c
Same-trans s t = record {
  done = t.done ∙ s.done;
  failed = t.failed ∙ s.failed;
  result = t.result ∙ s.result;
}

Same-finished : {a b : Promisor} → Same a b → finished a.flags ≡ true → finished b.flags ≡ true
Same-finished s e = ground arith

module _ {E : ℕ → Type 0} where
  pub Stable-refl : (w : World) → Stable E w w
  Stable-refl w = record { grows = omega arith; stays = λ q lt ne e. Same-refl _ }

  pub Stable-trans : {u v w : World} → Stable E u v → Stable E v w → Stable E u w
  Stable-trans s t = record {
    grows = omega (arith, s.grows, t.grows);
    stays = λ q lt ne e.
        let first = s.stays q lt ne e in
        Same-trans first (t.stays q (omega (arith, s.grows)) ne (Same-finished first e));
  }

Same-update :
    (m : ℕ → Promisor) (p : ℕ) (r : Promisor) (q : ℕ)
    → (q ≡ p → Same (m q) r)
    → Same (m q) (update m p r q)
Same-update m p r q same = elim (Bool-cases (q == p)) [
  | inl e ↦ rw e (same ((==_iff q p).0 e))
  | inr e ↦ rw e (Same-refl (m q))
]

module _ {E : ℕ → Type 0} where
  pub Keeps-pure : {A : Type 0} (a : A) → Keeps E (pure a)
  unfolding pure
  Keeps-pure a = record { at = λ w. Stable-refl w }

  pub Keeps-crash : {A : Type 0} → Keeps E (crash {A = A})
  unfolding crash
  Keeps-crash = record { at = λ w. tt }

  pub Keeps-exhausted : {A : Type 0} → Keeps E (exhausted {A = A})
  unfolding exhausted
  Keeps-exhausted = record { at = λ w. tt }

  pub Keeps-load : (p : ℕ) → Keeps E (load p)
  unfolding load
  Keeps-load p = record { at = λ w. Stable-refl w }

  pub Keeps-if :
      {A : Type 0} (b : Bool) (m n : M A) → Keeps E m → Keeps E n → Keeps E (if b then m else n)
  Keeps-if true m n km kn = km
  Keeps-if false m n km kn = kn

  bind-After :
      {A B : Type 0} (u : World) (r : Run A) (f : A → M B)
      → After E u r
      → ((a : A) → Keeps E (f a))
      → After E u (continue r f)
  bind-After u (returned a w) f s kf = after_trans (f a w) s ((kf a).at w)
    where
      after_trans : {B : Type 0} {w : World} (r : Run B) → Stable E u w → After E w r → After E u r
      after_trans (returned b v) s t = Stable-trans s t
      after_trans fault s t = tt
      after_trans no_fuel s t = tt
  bind-After u fault f s kf = tt
  bind-After u no_fuel f s kf = tt

  pub Keeps-bind :
      {A B : Type 0} (m : M A) (f : A → M B)
      → Keeps E m
      → ((a : A) → Keeps E (f a))
      → Keeps E (m >>= f)
  unfolding ◌>>=◌
  Keeps-bind m f km kf = record { at = λ w. bind-After w (m w) f (km.at w) kf }

  pub Keeps-modify_own : (p : ℕ) (f : Promisor → Promisor) → E p → Keeps E (modify p f)
  unfolding modify
  Keeps-modify_own p f e = record {
    at = λ w. record {
      grows = omega arith;
      stays = λ q lt ne fin. Same-update w.promisors p _ q (λ eq. absurd (ne (rw eq e)));
    };
  }

  -- A change of other fields than the flags and the result.
  pub Keeps-modify :
      (p : ℕ) (f : Promisor → Promisor) → ((r : Promisor) → Same r (f r)) → Keeps E (modify p f)
  unfolding modify
  Keeps-modify p f same = record {
    at = λ w. record {
      grows = omega arith;
      stays = λ q lt ne fin. Same-update w.promisors p _ q (λ eq. rw eq (same (w.promisors p)));
    };
  }

  pub Keeps-alloc : (r : Promisor) → Keeps E (alloc r)
  unfolding alloc
  Keeps-alloc r = record {
    at = λ w. record {
      grows = omega arith;
      stays = λ q lt ne fin. Same-update w.promisors w.next r q (λ eq. absurd (omega arith));
    };
  }

  pub Keeps-throw_exception : (e : Zval) → Keeps E (throw_exception e)
  unfolding throw_exception
  Keeps-throw_exception e = record {
    at = λ w. record { grows = omega arith; stays = λ q lt ne fin. Same-refl _ };
  }

  pub Keeps-take_exception : Keeps E take_exception
  unfolding take_exception
  Keeps-take_exception = record {
    at = λ w. record { grows = omega arith; stays = λ q lt ne fin. Same-refl _ };
  }

  pub Keeps-invoke :
      (f : World → Zval × World) → ((w : World) → Stable E w (f w).1) → Keeps E (invoke f)
  unfolding invoke
  Keeps-invoke f h = record {
    at = λ w. elim (Option-cases w.exception) [
      | inl e ↦ simp (e, invoke) (h w)
      | inr (x, e) ↦ simp (e, invoke) (Stable-refl w)
    ];
  }

  pub Keeps-invoke_void :
      (f : World → World) → ((w : World) → Stable E w (f w)) → Keeps E (invoke_void f)
  unfolding invoke_void
  Keeps-invoke_void f h = record {
    at = λ w. elim (Option-cases w.exception) [
      | inl e ↦ simp (e, invoke_void) (h w)
      | inr (x, e) ↦ simp (e, invoke_void) (Stable-refl w)
    ];
  }

  pub Keeps-native :
      {A : Type 0} (f : World → A × World) → ((w : World) → Stable E w (f w).1) → Keeps E (native f)
  unfolding native
  Keeps-native f h = record { at = λ w. h w }

  Stable-weaken : {w w' : World} → Stable Nobody w w' → Stable E w w'
  Stable-weaken s = record { grows = s.grows; stays = λ q lt ne fin. s.stays q lt (λ e. e) fin }

  pub Keeps-weaken : {A : Type 0} (m : M A) → Keeps Nobody m → Keeps E m
  Keeps-weaken m k = record { at = λ w. after w (m w) (k.at w) }
    where
      after : {A : Type 0} (w : World) (r : Run A) → After Nobody w r → After E w r
      after w (returned a v) s = Stable-weaken s
      after w fault s = tt
      after w no_fuel s = tt

-- A new promisor may be changed at will.
pub Keeps-bind_alloc :
    {E : ℕ → Type 0} {B : Type 0} (r : Promisor) (f : ℕ → M B)
    → ((c : ℕ) → Keeps (λ q. q ≡ c) (f c))
    → Keeps E (alloc r >>= f)
unfolding ◌>>=◌
Keeps-bind_alloc {E} r f kf = record { at = λ w. after w (f w.next _) ((kf w.next).at _) }
  where
    after :
        {B : Type 0} (w : World) (x : Run B)
        → After
            (λ q. q ≡ w.next)
            (record w { promisors = update w.promisors w.next r; next = suc w.next })
            x
        → After E w x
    after w (returned b v) s = record {
      grows = omega (arith, s.grows);
      stays = λ q lt ne fin.
          let first = Same-update w.promisors w.next r q (λ e. absurd (omega arith)) in
          Same-trans first
            (s.stays q (omega arith) (λ e. absurd (omega arith)) (Same-finished first fin));
    }
    after w fault s = tt
    after w no_fuel s = tt

pub Stable_unless :
    {A : Type 0} (p : ℕ) (w : World) (r : Run A)
    → finished (w.promisors p).flags ≡ false
    → After (λ q. q ≡ p) w r
    → After Nobody w r
Stable_unless p w (returned a v) pending s = record {
  grows = s.grows;
  stays = λ q lt ne fin. s.stays q lt (λ e. unfinished q e fin) fin;
}
  where
    unfinished : (q : ℕ) → q ≡ p → finished (w.promisors q).flags ≡ true → ⊥
    unfinished q e fin = cc (fin, pending, ap (λ n. finished (w.promisors n).flags) e)
Stable_unless p w fault pending s = tt
Stable_unless p w no_fuel pending s = tt

pub ruleset keeps_rules = (
  Keeps-pure, Keeps-crash, Keeps-exhausted, Keeps-load, Keeps-if, Keeps-bind, Keeps-alloc,
  Keeps-throw_exception, Keeps-take_exception,
)

-- The code that the extension calls keeps what is settled. Such code acts on promisors through the
-- extension's own functions, which do so too.
pub record PhpKeeps (env : Php) : Type 0 where
  pub call : (cb : Callback) (v : Zval) (w : World) → Stable Nobody w (env.call cb v w).1
  pub call_void : (cb : Callback) (w : World) → Stable Nobody w (env.call_void cb w)
  pub call_internal :
      (f p : ℕ) (v : Zval) (w : World) → Stable Nobody w (env.call_internal f p v w).1
  pub run_dtor : (d o : ℕ) (w : World) → Stable Nobody w (env.run_dtor d o w)
  pub current : (g : ℕ) (w : World) → Stable Nobody w (env.current g w).1
  pub send : (g : ℕ) (v : Zval) (w : World) → Stable Nobody w (env.send g v w).1
  pub throw : (g : ℕ) (v : Zval) (w : World) → Stable Nobody w (env.throw g v w).1
  pub valid : (g : ℕ) (w : World) → Stable Nobody w (env.valid g w).1
