-- ===== src/Http/Message/Headers.antt =====
-- The headers of a message as a map from names to lists of strings.
use php_ion.Base.{
  none, some, List, [], ◌∷◌, ◌++◌, true, false, Bytes, ◌≡◌, refl, arith, Bool-cases, inl, inr,
}
use php_ion.Promisor.Handlers.{same_bytes}
use php_ion.Promisor.Handlers.Removal.{eq_of_same_bytes, same_bytes_self}
use php_ion.Http.Message.{find, delete, replace}

abbrev pub Headers : Type 0
Headers = List (Bytes × List Bytes)

-- No two headers have the same name.
abbrev Fresh : Bytes → Headers → Type 0
Fresh name [] = Unit {0}
Fresh name (h ∷ rest) = (same_bytes h.0 name ≡ false) × Fresh name rest

abbrev pub Distinct : Headers → Type 0
Distinct [] = Unit {0}
Distinct (h ∷ rest) = Fresh h.0 rest × Distinct rest

same_bytes_sym : (a b : Bytes) → same_bytes a b ≡ false → same_bytes b a ≡ false
same_bytes_sym a b e = elim (Bool-cases (same_bytes b a)) [
  | inl t ↦ absurd (ground (arith, e, eq_of_same_bytes b a t, same_bytes_self a))
  | inr f ↦ f
]

pub find-Fresh : (name : Bytes) (hs : Headers) → Fresh name hs → find name hs ≡ none
unfolding find
find-Fresh name [] f = refl
find-Fresh name (h ∷ rest) f = rw f.0 (find-Fresh name rest f.1)

pub Fresh-same : (a b : Bytes) (hs : Headers) → same_bytes a b ≡ true → Fresh a hs → Fresh b hs
Fresh-same a b hs e f = rw⁻¹ (eq_of_same_bytes a b e) f

pub find-delete : (name : Bytes) (hs : Headers) → Distinct hs → find name (delete name hs) ≡ none
unfolding find delete
find-delete name [] d = refl
find-delete name (h ∷ rest) d = elim (Bool-cases (same_bytes h.0 name)) [
  | inl e ↦ rw e (find-Fresh name rest (Fresh-same h.0 name rest e d.0))
  | inr e ↦ rw (e, find) (rw e (find-delete name rest d.1))
]

pub find-delete_other :
    (name other : Bytes) (hs : Headers)
    → same_bytes name other ≡ false
    → find other (delete name hs) ≡ find other hs
unfolding find delete
find-delete_other name other [] ne = refl
find-delete_other name other (h ∷ rest) ne = elim (Bool-cases (same_bytes h.0 name)) [
  | inl e ↦ rw e (rw (eq_of_same_bytes h.0 name e, ne) refl)
  | inr e ↦ rw (e, find) (rw (find-delete_other name other rest ne) refl)
]

pub find-append_new :
    (name : Bytes) (v : List Bytes) (hs : Headers)
    → find name hs ≡ none
    → find name (hs ++ (name, v) ∷ []) ≡ some v
unfolding find
find-append_new name v [] e = rw (same_bytes_self name) refl
find-append_new name v (h ∷ rest) e = elim (Bool-cases (same_bytes h.0 name)) [
  | inl t ↦ absurd (ground arith)
  | inr f ↦ rw f (find-append_new name v rest (ground arith))
]

pub find-append_other :
    (name other : Bytes) (v : List Bytes) (hs : Headers)
    → same_bytes name other ≡ false
    → find other (hs ++ (name, v) ∷ []) ≡ find other hs
unfolding find
find-append_other name other v [] ne = rw ne refl
find-append_other name other v (h ∷ rest) ne = rw (find-append_other name other v rest ne) refl

pub find-replace :
    (name : Bytes) (old new : List Bytes) (hs : Headers)
    → find name hs ≡ some old
    → find name (replace name new hs) ≡ some new
unfolding find replace
find-replace name old new [] e = absurd (ground arith)
find-replace name old new (h ∷ rest) e = elim (Bool-cases (same_bytes h.0 name)) [
  | inl t ↦ rw (t, find) (rw t refl)
  | inr f ↦ rw (f, find) (rw f (find-replace name old new rest (ground arith)))
]

pub find-replace_other :
    (name other : Bytes) (new : List Bytes) (hs : Headers)
    → same_bytes name other ≡ false
    → find other (replace name new hs) ≡ find other hs
unfolding find replace
find-replace_other name other new [] ne = refl
find-replace_other name other new (h ∷ rest) ne = elim (Bool-cases (same_bytes h.0 name)) [
  | inl e ↦ rw (e, find) (rw (eq_of_same_bytes h.0 name e, ne) refl)
  | inr e ↦ rw (e, find) (rw (find-replace_other name other new rest ne) refl)
]

-- The operations keep the names apart.
pub Fresh-append :
    (name k : Bytes) (v : List Bytes) (hs : Headers)
    → same_bytes k name ≡ false
    → Fresh name hs
    → Fresh name (hs ++ (k, v) ∷ [])
Fresh-append name k v [] ne f = (ne, tt)
Fresh-append name k v (h ∷ rest) ne f = (f.0, Fresh-append name k v rest ne f.1)

pub Fresh-delete : (name k : Bytes) (hs : Headers) → Fresh name hs → Fresh name (delete k hs)
unfolding delete
Fresh-delete name k [] f = tt
Fresh-delete name k (h ∷ rest) f = elim (Bool-cases (same_bytes h.0 k)) [
  | inl e ↦ rw e f.1
  | inr e ↦ rw e (f.0, Fresh-delete name k rest f.1)
]

pub Fresh-replace :
    (name k : Bytes) (v : List Bytes) (hs : Headers) → Fresh name hs → Fresh name (replace k v hs)
unfolding replace
Fresh-replace name k v [] f = tt
Fresh-replace name k v (h ∷ rest) f = elim (Bool-cases (same_bytes h.0 k)) [
  | inl e ↦ rw e f
  | inr e ↦ rw e (f.0, Fresh-replace name k v rest f.1)
]

pub Distinct-append :
    (name : Bytes) (v : List Bytes) (hs : Headers)
    → find name hs ≡ none
    → Distinct hs
    → Distinct (hs ++ (name, v) ∷ [])
unfolding find
Distinct-append name v [] e d = (tt, tt)
Distinct-append name v (h ∷ rest) e d = elim (Bool-cases (same_bytes h.0 name)) [
  | inl t ↦ absurd (ground arith)
  | inr f ↦ (
    Fresh-append h.0 name v rest (same_bytes_sym h.0 name f) d.0,
    Distinct-append name v rest (ground arith) d.1,
  )
]

pub Distinct-delete : (name : Bytes) (hs : Headers) → Distinct hs → Distinct (delete name hs)
unfolding delete
Distinct-delete name [] d = tt
Distinct-delete name (h ∷ rest) d = elim (Bool-cases (same_bytes h.0 name)) [
  | inl e ↦ rw e d.1
  | inr e ↦ rw e (Fresh-delete h.0 name rest d.0, Distinct-delete name rest d.1)
]

pub Distinct-replace :
    (name : Bytes) (v : List Bytes) (hs : Headers) → Distinct hs → Distinct (replace name v hs)
unfolding replace
Distinct-replace name v [] d = tt
Distinct-replace name v (h ∷ rest) d = elim (Bool-cases (same_bytes h.0 name)) [
  | inl e ↦ rw e d
  | inr e ↦ rw e (Fresh-replace h.0 name v rest d.0, Distinct-replace name v rest d.1)
]
