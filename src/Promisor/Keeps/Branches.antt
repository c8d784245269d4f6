-- ===== src/Promisor/Keeps/Branches.antt =====
-- The rules for the branches of the actions, and for changes of other fields than the flags.
use php_ion.Base.{
  ℕ, zero, suc, ◌+◌, ◌≡◌, refl, Option, none, some, List, [], ◌∷◌, Bool, true, false, ◌==◌, ◌&&◌,
  ◌||◌, not, if◌then◌else◌, arith, Bool-cases, inl, inr, ap, subst, get_elem?,
}
use php_ion.Promisor.State.{
  Promisor, Slot, ref, null, wild, Zval, undef, generator, promise, Flags, Owned, nothing, value,
  ptr,
}
use php_ion.Promisor.Exec.{M, modify}
use php_ion.Promisor.Keeps.{
  Same, Same-refl, Stable, Keeps, Nobody, After, PhpKeeps, Keeps-take_exception, Keeps-pure,
  Keeps-crash, Keeps-load, Keeps-if, Keeps-bind, Keeps-bind_alloc, Keeps-modify, Keeps-modify_own,
  Keeps-invoke, Keeps-invoke_void, Keeps-native, Keeps-weaken, Stable_unless, keeps_rules,
  Stable-refl,
}
use php_ion.Promisor.Handlers.{or_crash}

module _ {E : ℕ → Type 0} where
  -- A change of other fields than the flags and the result.
  pub Keeps-modify_other :
      (p : ℕ) (f : Promisor → Promisor)
      → ((r : Promisor) → (f r).flags ≡ r.flags)
      → ((r : Promisor) → (f r).result ≡ r.result)
      → Keeps E (modify p f)
  Keeps-modify_other p f flags result = Keeps-modify p f λ r. record {
    done = ap (λ (x : Flags). x.done) (flags r);
    failed = ap (λ (x : Flags). x.failed) (flags r);
    result = result r;
  }

  pub Keeps-or_crash : {A : Type 0} (o : Option A) → Keeps E (or_crash o)
  Keeps-or_crash none = search keeps_rules
  Keeps-or_crash (some a) = search keeps_rules

pub ruleset rules = (keeps_rules, Keeps-modify_other, Keeps-or_crash, refl)

module _ {E : ℕ → Type 0} {B : Type 0} where
  pub Keeps-option :
      {A : Type 0} (o : Option A) (n : M B) (f : A → M B)
      → Keeps E n
      → ((a : A) → Keeps E (f a))
      → Keeps E (elim o as (λ x. M B) [ none ↦ n | some a ↦ f a ])
  Keeps-option none n f kn kf = kn
  Keeps-option (some a) n f kn kf = kf a

  pub Keeps-slot :
      (o : Slot) (f : ℕ → M B) (m n : M B)
      → ((h : ℕ) → Keeps E (f h))
      → Keeps E m
      → Keeps E n
      → Keeps E (elim o as (λ x. M B) [ ref h ↦ f h | null ↦ m | wild ↦ n ])
  Keeps-slot (ref h) f m n kf km kn = kf h
  Keeps-slot null f m n kf km kn = km
  Keeps-slot wild f m n kf km kn = kn

pub Keeps-owned :
    {E : ℕ → Type 0} {B : Type 0} (o : Owned) (n : M B) (f : ℕ → M B)
    → Keeps E n
    → ((a : ℕ) → Keeps E (f a))
    → Keeps E (elim o as (λ x. M B) [ nothing ↦ n | value v ↦ n | ptr a ↦ f a ])
Keeps-owned nothing n f kn kf = kn
Keeps-owned (value v) n f kn kf = kn
Keeps-owned (ptr a) n f kn kf = kf a

pub Keeps-zval :
    {E : ℕ → Type 0} {B : Type 0} (v : Zval) (n : M B) (f g : ℕ → M B)
    → Keeps E n
    → ((a : ℕ) → Keeps E (f a))
    → ((a : ℕ) → Keeps E (g a))
    → Keeps E (elim v as (λ x. M B) [
      | undef ↦ n
      | Zval.null ↦ n
      | Zval.bool b ↦ n
      | Zval.long x ↦ n
      | Zval.string x ↦ n
      | generator a ↦ f a
      | promise a ↦ g a
      | Zval.object x ↦ n
    ])
Keeps-zval undef n f g kn kf kg = kn
Keeps-zval Zval.null n f g kn kf kg = kn
Keeps-zval (Zval.bool b) n f g kn kf kg = kn
Keeps-zval (Zval.long x) n f g kn kf kg = kn
Keeps-zval (Zval.string x) n f g kn kf kg = kn
Keeps-zval (generator a) n f g kn kf kg = kf a
Keeps-zval (promise a) n f g kn kf kg = kg a
Keeps-zval (Zval.object x) n f g kn kf kg = kn

pub Keeps-list :
    {E : ℕ → Type 0} {B : Type 0} (l : List Slot) (n m : M B)
    → Keeps E n
    → Keeps E m
    → Keeps E (elim l as (λ x. M B) [ [] ↦ n | s ∷ rest ↦ m ])
Keeps-list [] n m kn km = kn
Keeps-list (s ∷ rest) n m kn km = km
