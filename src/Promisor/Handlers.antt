-- ===== src/Promisor/Handlers.antt =====
-- The array `handlers` of src/ion/ion_promisor.c: PION_ARRAY_PUSH, ion_promisor_append,
-- ion_promisor_cleanup, ion_promisor_remove and ion_promisor_remove_named, and
-- ion_promisor_try_clean of src/ion/ion_promisor.h.
pub mod Removal
use php_ion.Base.{
  ℕ, zero, suc, ◌+◌, ◌-◌, Option, none, some, List, [], ◌∷◌, ◌++◌, Bool, true, false, ◌==◌, ◌&&◌,
  ltb, if◌then◌else◌, length, replicate, Bytes,
}
use php_ion.Promisor.State.{
  Promisor, World, Php, Slot, ref, null, wild, Action, unset, php, internal, Zval, undef,
}
use php_ion.Promisor.Exec.{M, ◌>>=◌, ◌>>◌, pure, crash, load, modify, native, invoke_void}

-- PION_ARRAY_PUSH. The counter is a `ushort`: at 65535 it wraps to 0, and the write goes to index -1.
unfoldable pub push : Slot → List Slot → Option (List Slot)
push s slots = if ltb (length slots) 65535 then some (slots ++ s ∷ []) else none

abbrev pub or_crash : {A : Type 0} → Option A → M A
or_crash none = crash
or_crash (some a) = pure a

-- The loop over the array that sets the matching entries to NULL and counts them. `none` is a read
-- through a pointer that is no promisor.
unfoldable pub sweep : (Slot → Option Bool) → List Slot → Option (List Slot × ℕ)
sweep matches [] = some ([], 0)
sweep matches (s ∷ rest) = elim (matches s) [
  | none ↦ none
  | some hit ↦ elim (sweep matches rest) [
    | none ↦ none
    | some (slots, removed) ↦
        if hit then some (null ∷ slots, removed + 1) else some (s ∷ slots, removed)
  ]
]

unfoldable pub kept : List Slot → List Slot
kept [] = []
kept (null ∷ rest) = kept rest
kept (ref h ∷ rest) = ref h ∷ kept rest
kept (wild ∷ rest) = wild ∷ kept rest

-- ion_promisor_cleanup: a new array of `handler_count - removed` entries takes those that are not
-- NULL. What they do not fill stays as it was allocated.
unfoldable pub cleanup : ℕ → List Slot → List Slot
unfolding kept
cleanup removed slots =
    if removed == 0
    then slots
    else if length slots - removed == 0
    then []
    else kept slots ++ replicate (length slots - removed - length (kept slots)) wild

-- `handlers[i] == handler`
unfoldable pub is_handler : ℕ → Slot → Option Bool
is_handler h (ref g) = some (g == h)
is_handler h null = some false
is_handler h wild = none

unfoldable pub same_bytes : Bytes → Bytes → Bool
same_bytes [] [] = true
same_bytes [] (c ∷ b) = false
same_bytes (c ∷ a) [] = false
same_bytes (c ∷ a) (d ∷ b) = (c == d) && same_bytes a b

-- `handler->name && zend_string_equals(handler->name, name)`
unfoldable pub is_named : (ℕ → Promisor) → Bytes → Slot → Option Bool
unfolding same_bytes
is_named promisors name (ref g) = elim (promisors g).name [
  | none ↦ some false
  | some own ↦ some (same_bytes own name)
]
is_named promisors name null = none
is_named promisors name wild = none

-- ion_promisor_append
unfoldable pub append : ℕ → ℕ → M (Unit {0})
unfolding push
append container handler = do
  me ← load container
  slots ← or_crash (push (ref handler) me.handlers)
  modify container (λ r. record r { handlers = slots })

-- The loop and the compaction that both removals share.
unfoldable pub sweep_out : ℕ → (Slot → Option Bool) → M (Unit {0})
unfolding sweep cleanup
sweep_out container matches = do
  me ← load container
  swept ← or_crash (sweep matches me.handlers)
  modify container (λ r. record r { handlers = cleanup swept.1 swept.0 })

module _ (env : Php) where
  unfoldable pub clean : ℕ → Action → M (Unit {0})
  clean p unset = pure tt
  clean p (php cb) = invoke_void (env.call_void cb)
  clean p (internal f) = native (env.call_internal f p undef) >>= λ _. pure tt

  -- ion_promisor_try_clean, under its other name ion_promisor_autoclean
  unfoldable pub try_clean : ℕ → M (Unit {0})
  unfolding clean
  try_clean p = do
    me ← load p
    if me.flags.autoclean && (length me.handlers == 0) then clean p me.canceler else pure tt

  -- ion_promisor_remove
  unfoldable pub remove : ℕ → ℕ → M (Unit {0})
  unfolding sweep_out is_handler
  remove container handler = do sweep_out container (is_handler handler); try_clean container

  -- ion_promisor_remove_named
  unfoldable pub remove_named : ℕ → Bytes → M (Unit {0})
  unfolding sweep_out is_named
  remove_named container name w =
      (do sweep_out container (is_named w.promisors name); try_clean container) w
