-- ===== src/Process/Signals.antt =====
-- Sequences of signals of src/classes/ION/Process.c: signal(), clearSignal(), the callback of the event, and
-- the destructor of the table. `none` for a number is a negative one.
use php_ion.Base.{ℕ, Option, none, some, List, [], ◌∷◌, ◌++◌, Bool, if◌then◌else◌}
use php_ion.Process.Table.{find, add, delete}

pub data Effect : Type 0 where
  -- ion_promisor_done_long
  fulfilled : ℕ → ℕ → Effect
  -- ion_object_release and ion_promisor_remove_object of a sequence
  released removed : ℕ → Effect
  -- event_del and event_free of the event of a signal
  unwatched : ℕ → Effect

-- The table: the sequence of each signal.
pub record Signals : Type 0 where
  pub table : List (ℕ × ℕ)
  pub effects : List Effect

pub data Result : Type 0 where
  sequence : ℕ → Result
  thrown : Result

-- _ion_process_signal_free
unfoldable pub free_signal : ℕ → ℕ → List Effect
free_signal signo p = removed p ∷ released p ∷ unwatched signo ∷ []

-- signal(); `fresh` is the new sequence, and `watched` says that evsignal_add succeeds.
unfoldable pub signal : ℕ → ℕ → Bool → Signals → Signals × Result
unfolding find add free_signal
signal signo fresh watched s = elim (find signo s.table) [
  | some p ↦ (s, sequence p)
  | none ↦
      if watched
      then (record s { table = add signo fresh s.table }, sequence fresh)
      else (record s { effects = s.effects ++ released fresh ∷ free_signal signo fresh }, thrown)
]

-- _ion_process_signal
unfoldable pub on_signal : ℕ → Signals → Signals
unfolding find
on_signal signo s = elim (find signo s.table) [
  | none ↦ s
  | some p ↦ record s { effects = s.effects ++ fulfilled p signo ∷ [] }
]

-- zend_hash_clean
unfoldable pub free_all : List (ℕ × ℕ) → List Effect
unfolding free_signal
free_all [] = []
free_all ((signo, p) ∷ rest) = free_signal signo p ++ free_all rest

-- clearSignal()
unfoldable pub clear_signal : Option ℕ → Signals → Signals
unfolding find delete free_signal free_all
clear_signal none s = record { table = []; effects = s.effects ++ free_all s.table }
clear_signal (some signo) s = elim (find signo s.table) [
  | none ↦ s
  | some p ↦ record { table = delete signo s.table; effects = s.effects ++ free_signal signo p }
]
