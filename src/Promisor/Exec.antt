-- ===== src/Promisor/Exec.antt =====
-- The actions of src/ion/ion_promisor.c: they read and change the world, may hit a fault (a failed
-- assertion, a wild or NULL pointer, a write outside an array), and run on fuel.
use php_ion.Base.{ℕ, suc, Option, none, some, ◌==◌, if◌then◌else◌}
use php_ion.Promisor.State.{Promisor, World, Zval, undef}

pub data Run (A : Type 0) : Type 0 where
  returned : A → World → Run A
  fault no_fuel : Run A

abbrev pub M : Type 0 → Type 0
M A = World → Run A

abbrev pub continue : {A B : Type 0} → Run A → (A → M B) → Run B
continue (returned a w) f = f a w
continue fault f = fault
continue no_fuel f = no_fuel

unfoldable pub pure : {A : Type 0} → A → M A
pure a w = returned a w

unfoldable pub crash : {A : Type 0} → M A
crash w = fault

unfoldable pub exhausted : {A : Type 0} → M A
exhausted w = no_fuel

unfoldable pub load : ℕ → M Promisor
load p w = returned (w.promisors p) w

abbrev pub update : (ℕ → Promisor) → ℕ → Promisor → ℕ → Promisor
update m p r q = if q == p then r else m q

unfoldable pub modify : ℕ → (Promisor → Promisor) → M (Unit {0})
modify p f w = returned tt (record w { promisors = update w.promisors p (f (w.promisors p)) })

-- A new object.
unfoldable pub alloc : Promisor → M ℕ
alloc r w =
    returned w.next (record w { promisors = update w.promisors w.next r; next = suc w.next })

-- `zend_call_function` does nothing while an exception is pending; otherwise the code runs.
unfoldable pub invoke : (World → Zval × World) → M Zval
invoke f w = elim w.exception [
  | none ↦ (let (v, w') = f w in returned v w')
  | some e ↦ returned undef w
]

unfoldable pub invoke_void : (World → World) → M (Unit {0})
invoke_void f w = elim w.exception [ none ↦ returned tt (f w) | some e ↦ returned tt w ]

-- A C function, which runs also while an exception is pending.
unfoldable pub native : {A : Type 0} → (World → A × World) → M A
native f w = let (v, w') = f w in returned v w'

-- `zend_throw_exception`, and `EG(exception)` taken with `zend_clear_exception`.
unfoldable pub throw_exception : Zval → M (Unit {0})
throw_exception e w = returned tt (record w { exception = some e })

unfoldable pub take_exception : M (Option Zval)
take_exception w = returned w.exception (record w { exception = none })

infixl 5 ◌>>=◌ ◌>>◌
-- Opening this opens the actions above.
unfoldable pub ◌>>=◌ : {A B : Type 0} → M A → (A → M B) → M B
unfolding pure crash exhausted load modify alloc invoke invoke_void native throw_exception
    take_exception
◌>>=◌ m f w = continue (m w) f

abbrev pub ◌>>◌ : {B : Type 0} → M (Unit {0}) → M B → M B
m >> k = m >>= λ _. k
