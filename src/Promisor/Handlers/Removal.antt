-- ===== src/Promisor/Handlers/Removal.antt =====
-- Removing handlers, ion_promisor_remove and ion_promisor_remove_named of src/ion/ion_promisor.c,
-- against a filter on the list of handlers.
use php_ion.Base.{
  ℕ, suc, ◌+◌, ◌-◌, ◌≡◌, refl, ap, Option, none, some, List, [], ◌∷◌, Bool, true, false, ◌==◌,
  if◌then◌else◌, length, replicate, Bytes, arith, map, append-nil, inl, inr, Bool-cases, ==_iff,
  sym, ◌↔◌,
}
use php_ion.Promisor.State.{Promisor, World, Php, Slot, ref, null, wild}
use php_ion.Promisor.Exec.{◌>>=◌, ◌>>◌, modify, continue}
use php_ion.Promisor.Handlers.{
  sweep, kept, cleanup, is_handler, same_bytes, is_named, try_clean, sweep_out, remove,
  remove_named,
}

-- The handlers for which the test fails, in their order.
abbrev pub without : (ℕ → Bool) → List ℕ → List ℕ
without test [] = []
without test (h ∷ hs) = let rest = without test hs in if test h then rest else h ∷ rest

abbrev pub refs : List ℕ → List Slot
refs = map ref

marked : (ℕ → Bool) → List ℕ → List Slot
marked test [] = []
marked test (h ∷ hs) = (if test h then null else ref h) ∷ marked test hs

hits : (ℕ → Bool) → List ℕ → ℕ
hits test [] = 0
hits test (h ∷ hs) = (if test h then 1 else 0) + hits test hs

sweep-refs :
    (matches : Slot → Option Bool) (test : ℕ → Bool)
    → ((h : ℕ) → matches (ref h) ≡ some (test h))
    → (hs : List ℕ) → sweep matches (refs hs) ≡ some (marked test hs, hits test hs)
unfolding sweep marked hits
sweep-refs matches test e [] = refl
sweep-refs matches test e (h ∷ hs) = rw (e h, sweep-refs matches test e hs) (ground arith)

kept-marked : (test : ℕ → Bool) (hs : List ℕ) → kept (marked test hs) ≡ refs (without test hs)
unfolding kept marked
kept-marked test [] = refl
kept-marked test (h ∷ hs) = ground (arith, kept-marked test hs)

length-marked : (test : ℕ → Bool) (hs : List ℕ) → length (marked test hs) ≡ length hs
unfolding marked
length-marked test [] = refl
length-marked test (h ∷ hs) = ap suc (length-marked test hs)

length-without :
    (test : ℕ → Bool) (hs : List ℕ) → length (without test hs) + hits test hs ≡ length hs
unfolding hits
length-without test [] = omega arith
length-without test (h ∷ hs) = ground (arith, length-without test hs)

length-refs : (hs : List ℕ) → length (refs hs) ≡ length hs
length-refs [] = refl
length-refs (h ∷ hs) = ap suc (length-refs hs)

no_hits :
    (test : ℕ → Bool) (hs : List ℕ) → hits test hs ≡ 0 → marked test hs ≡ refs (without test hs)
unfolding hits marked
no_hits test [] e = refl
no_hits test (h ∷ hs) e = ground (arith, no_hits test hs)

refs_empty : (hs : List ℕ) → length hs ≡ 0 → refs hs ≡ []
refs_empty [] e = refl
refs_empty (h ∷ hs) e = absurd (omega arith)

no_gap :
    (test : ℕ → Bool) (hs : List ℕ)
    → replicate (length (marked test hs) - hits test hs - length (refs (without test hs))) wild ≡ []
no_gap test hs = rw (zero_gap test hs)
  where
    zero_gap :
        (test : ℕ → Bool) (hs : List ℕ)
        → length (marked test hs) - hits test hs - length (refs (without test hs)) ≡ 0
    zero_gap test hs =
        omega (arith, length-marked test hs, length-without test hs, length-refs (without test hs))

cleanup-marked :
    (test : ℕ → Bool) (hs : List ℕ)
    → cleanup (hits test hs) (marked test hs) ≡ refs (without test hs)
unfolding cleanup
cleanup-marked test hs = elim (Bool-cases (hits test hs == 0)) [
  | inl e ↦ rw e (no_hits test hs ((==_iff _ _).0 e))
  | inr e ↦ elim (Bool-cases (length (marked test hs) - hits test hs == 0)) [
    | inl z ↦
        rw (e, z)
          (sym (
            refs_empty (without test hs)
              (omega (arith, (==_iff _ _).0 z, length-marked test hs, length-without test hs))))
    | inr z ↦
        rw (e, z, kept-marked test hs) (rw (no_gap test hs) (append-nil (refs (without test hs))))
  ]
]

-- Both removals take out exactly the handlers that match, and leave the others in their order, with
-- no hole in the array and a count that fits.
sweep_out-refs :
    (c : ℕ) (matches : Slot → Option Bool) (test : ℕ → Bool) (hs : List ℕ) (w : World)
    → ((h : ℕ) → matches (ref h) ≡ some (test h))
    → (w.promisors c).handlers ≡ refs hs
    → sweep_out c matches w ≡ modify c (λ r. record r { handlers = refs (without test hs) }) w
unfolding sweep_out ◌>>=◌
sweep_out-refs c matches test hs w e h =
    simp (h, sweep-refs matches test e hs, cleanup-marked test hs)

-- ion_promisor_remove on an array that holds promisors only: the removal leaves exactly the other
-- handlers, in their order, and then the autoclean callback runs as it would on that array.
pub remove-without :
    (env : Php) (c h : ℕ) (hs : List ℕ) (w : World)
    → (w.promisors c).handlers ≡ refs hs
    → remove env c h w
      ≡ (modify c (λ r. record r { handlers = refs (without (λ g. g == h) hs) }) >> try_clean env c)
          w
unfolding remove is_handler ◌>>=◌
remove-without env c h hs w e =
    ap (λ r. continue r (λ _. try_clean env c))
      (sweep_out-refs c (is_handler h) (λ g. g == h) hs w (λ g. refl) e)

pub named : (ℕ → Promisor) → Bytes → ℕ → Bool
named promisors name h = elim (promisors h).name [ none ↦ false | some own ↦ same_bytes own name ]

is_named-named :
    (promisors : ℕ → Promisor) (name : Bytes) (h : ℕ)
    → is_named promisors name (ref h) ≡ some (named promisors name h)
unfolding is_named named
is_named-named promisors name h = ground arith

pub eq_of_same_bytes : (a b : Bytes) → same_bytes a b ≡ true → a ≡ b
unfolding same_bytes
eq_of_same_bytes [] [] h = refl
eq_of_same_bytes [] (c ∷ b) h = cc
eq_of_same_bytes (c ∷ a) [] h = cc
eq_of_same_bytes (c ∷ a) (d ∷ b) h = ground (arith, eq_of_same_bytes a b)

pub same_bytes_self : (a : Bytes) → same_bytes a a ≡ true
unfolding same_bytes
same_bytes_self [] = refl
same_bytes_self (c ∷ a) = ground (arith, same_bytes_self a)

-- The test means that the handler bears the name.
pub named_iff :
    (promisors : ℕ → Promisor) (name : Bytes) (h : ℕ)
    → (named promisors name h ≡ true) ↔ ((promisors h).name ≡ some name)
unfolding named
named_iff promisors name h =
    (λ e. ground (arith, named_own (promisors h).name e), λ e. rw (e, named) (same_bytes_self name))
  where
    named_own :
        (o : Option Bytes)
        → elim o [ none ↦ false | some own ↦ same_bytes own name ] ≡ true
        → o ≡ some name
    named_own none e = cc
    named_own (some own) e = ap some (eq_of_same_bytes own name e)

-- ion_promisor_remove_named on an array that holds promisors only: the removal leaves exactly the
-- handlers that do not have the name, in their order, and then the autoclean callback runs as it
-- would on that array.
remove_named-without :
    (env : Php) (c : ℕ) (name : Bytes) (hs : List ℕ) (w : World)
    → (w.promisors c).handlers ≡ refs hs
    → remove_named env c name w
      ≡ (modify c (λ r. record r { handlers = refs (without (named w.promisors name) hs) })
            >> try_clean env c)
          w
unfolding remove_named ◌>>=◌
remove_named-without env c name hs w e =
    ap (λ r. continue r (λ _. try_clean env c))
      (sweep_out-refs c (is_named w.promisors name) (named w.promisors name) hs w
        (is_named-named w.promisors name) e)
