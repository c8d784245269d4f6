-- ===== src/Promisor/Outcome.antt =====
-- The functions of src/ion/ion_promisor.c by which the rest of the extension settles a promisor. A
-- prototype is not settled itself: a clone of it is. A function whose name ends in `_ex` returns that
-- clone, the others drop it.
pub mod Chained
use php_ion.Base.{ℕ, Option, none, some, List, [], Bool, true, false, if◌then◌else◌, Bytes}
use php_ion.Promisor.State.{
  Promisor, World, Php, Flags, Zval, null, bool, long, string, object, kind_done, kind_failed,
  kind_canceled, Kind,
}
use php_ion.Promisor.Exec.{M, ◌>>=◌, ◌>>◌, pure, crash, load, modify, take_exception, native}
use php_ion.Promisor.Clone.{clone}
use php_ion.Promisor.Resolve.{resolve}

-- `ion_ce_ION_Promise_CancelException`
abbrev pub cancel_exception : ℕ
cancel_exception = 1

module _ (env : Php) where
  -- ion_promisor_done_ex
  unfoldable pub done_ex : ℕ → ℕ → Zval → M (Option ℕ)
  unfolding clone resolve
  done_ex n p v = do
    me ← load p
    if me.flags.prototype
        then (do c ← clone env n p; resolve env n c v kind_done; pure (some c))
        else (do resolve env n p v kind_done; pure none)

  unfoldable pub done : ℕ → ℕ → Zval → M (Unit {0})
  unfolding clone resolve
  done n p v = do
    me ← load p
    if me.flags.prototype
        then (do c ← clone env n p; resolve env n c v kind_done)
        else resolve env n p v kind_done

  -- ion_promisor_fail_ex
  unfoldable pub fail_ex : ℕ → ℕ → Zval → M (Option ℕ)
  unfolding clone resolve
  fail_ex n p v = do
    me ← load p
    if me.flags.prototype
        then (do c ← clone env n p; resolve env n c v kind_failed; pure (some c))
        else (do resolve env n p v kind_failed; pure none)

  unfoldable pub fail : ℕ → ℕ → Zval → M (Unit {0})
  unfolding clone resolve
  fail n p v = do
    me ← load p
    if me.flags.prototype
        then (do c ← clone env n p; resolve env n c v kind_failed)
        else resolve env n p v kind_failed

  unfoldable pub done_long_ex : ℕ → ℕ → ℕ → M (Option ℕ)
  unfolding done_ex
  done_long_ex n p l = done_ex n p (long l)

  unfoldable pub done_long : ℕ → ℕ → ℕ → M (Unit {0})
  unfolding done_long_ex
  done_long n p l = do c ← done_long_ex n p l; pure tt

  unfoldable pub done_true_ex : ℕ → ℕ → M (Option ℕ)
  unfolding done_ex
  done_true_ex n p = done_ex n p (bool true)

  unfoldable pub done_true : ℕ → ℕ → M (Unit {0})
  unfolding done_true_ex
  done_true n p = do c ← done_true_ex n p; pure tt

  unfoldable pub done_false_ex : ℕ → ℕ → M (Option ℕ)
  unfolding done_ex
  done_false_ex n p = done_ex n p (bool false)

  unfoldable pub done_false : ℕ → ℕ → M (Unit {0})
  unfolding done_false_ex
  done_false n p = do c ← done_false_ex n p; pure tt

  unfoldable pub done_null_ex : ℕ → ℕ → M (Option ℕ)
  unfolding done_ex
  done_null_ex n p = done_ex n p null

  unfoldable pub done_null : ℕ → ℕ → M (Unit {0})
  unfolding done_null_ex
  done_null n p = do c ← done_null_ex n p; pure tt

  unfoldable pub done_object_ex : ℕ → ℕ → ℕ → M (Option ℕ)
  unfolding done_ex
  done_object_ex n p o = done_ex n p (object o)

  unfoldable pub done_object : ℕ → ℕ → ℕ → M (Unit {0})
  unfolding done_object_ex
  done_object n p o = do c ← done_object_ex n p o; pure tt

  -- `dup` only says whose the string is.
  unfoldable pub done_string_ex : ℕ → ℕ → Bytes → M (Option ℕ)
  unfolding done_ex
  done_string_ex n p s = done_ex n p (string s)

  unfoldable pub done_string : ℕ → ℕ → Bytes → M (Unit {0})
  unfolding done_string_ex
  done_string n p s = do c ← done_string_ex n p s; pure tt

  unfoldable pub done_empty_string_ex : ℕ → ℕ → M (Option ℕ)
  unfolding done_ex
  done_empty_string_ex n p = done_ex n p (string [])

  unfoldable pub done_empty_string : ℕ → ℕ → M (Unit {0})
  unfolding done_empty_string_ex
  done_empty_string n p = do c ← done_empty_string_ex n p; pure tt

  -- ion_promisor_throw_ex
  unfoldable pub throw_ex : ℕ → ℕ → ℕ → Bytes → ℕ → M (Option ℕ)
  unfolding done_ex
  throw_ex n p ce message code = done_ex n p (env.new_exception ce message code)

  -- ion_promisor_throw
  unfoldable pub throw_void : ℕ → ℕ → ℕ → Bytes → ℕ → M (Unit {0})
  unfolding throw_ex
  throw_void n p ce message code = do c ← throw_ex n p ce message code; pure tt

  -- ion_promisor_rethrow_ex. The pending exception gets the new one as its previous one, which
  -- changes only the exception object.
  unfoldable pub rethrow_ex : ℕ → ℕ → Option ℕ → Bytes → ℕ → M (Option ℕ)
  unfolding fail_ex
  rethrow_ex n p ce message code = do
    pending ← take_exception
    elim pending [
      | some e ↦ fail_ex n p e
      | none ↦ elim ce [ none ↦ crash | some c ↦ fail_ex n p (env.new_exception c message code) ]
    ]

  unfoldable pub rethrow : ℕ → ℕ → Option ℕ → Bytes → ℕ → M (Unit {0})
  unfolding rethrow_ex
  rethrow n p ce message code = do c ← rethrow_ex n p ce message code; pure tt

  -- ion_promisor_cancel
  unfoldable pub cancel : ℕ → ℕ → Bytes → M (Unit {0})
  unfolding resolve
  cancel n p message = do
    modify p (λ r. record r { flags = record r.flags { canceled = true } })
    resolve env n p (env.new_exception cancel_exception message 0) kind_canceled
