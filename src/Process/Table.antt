-- ===== src/Process/Table.antt =====
-- A hash table with numeric keys, as zend_hash_index_find, zend_hash_index_add and
-- zend_hash_index_del use it, and the lists of objects that such tables point into.
use php_ion.Base.{
  ℕ, zero, suc, ◌≡◌, ◌≢◌, refl, Option, none, some, List, [], ◌∷◌, ◌++◌, ◌==◌, if◌then◌else◌, arith,
  get_elem?, set,
}

unfoldable pub find {ℓ} : {A : Type ℓ} → ℕ → List (ℕ × A) → Option A
find k [] = none
find k ((j, v) ∷ rest) = if j == k then some v else find k rest

-- A key that is there keeps its value.
unfoldable pub add {ℓ} : {A : Type ℓ} → ℕ → A → List (ℕ × A) → List (ℕ × A)
add k v [] = (k, v) ∷ []
add k v ((j, w) ∷ rest) = (j, w) ∷ (if j == k then rest else add k v rest)

unfoldable pub delete {ℓ} : {A : Type ℓ} → ℕ → List (ℕ × A) → List (ℕ × A)
delete k [] = []
delete k ((j, v) ∷ rest) = let others = delete k rest in if j == k then others else (j, v) ∷ others

module _ {ℓ} {A : Type ℓ} where
  pub find-delete :
      (i k : ℕ) (t : List (ℕ × A)) → find i (delete k t) ≡ (if i == k then none else find i t)
  unfolding find delete
  find-delete i k [] = ground arith
  find-delete i k ((j, v) ∷ rest) = ground (arith, find-delete i k rest)

  pub find-add :
      (i k : ℕ) (v : A) (t : List (ℕ × A))
      → find i (add k v t)
        ≡ (if i == k then elim (find k t) [ none ↦ some v | some w ↦ some w ] else find i t)
  unfolding find add
  find-add i k v [] = ground arith
  find-add i k v ((j, w) ∷ rest) = ground (arith, find-add i k v rest)

  pub get_elem?-set_self :
      (xs : List A) (i : ℕ) {old : A} (v : A)
      → get_elem? xs i ≡ some old
      → get_elem? (set xs i v) i ≡ some v
  get_elem?-set_self [] i v h = ground arith
  get_elem?-set_self (x ∷ xs) zero v h = refl
  get_elem?-set_self (x ∷ xs) (suc i) v h = get_elem?-set_self xs i v h

  pub get_elem?-set_ne :
      (xs : List A) (i j : ℕ) (v : A) → i ≢ j → get_elem? (set xs i v) j ≡ get_elem? xs j
  get_elem?-set_ne [] i j v h = refl
  get_elem?-set_ne (x ∷ xs) zero zero v h = absurd (h refl)
  get_elem?-set_ne (x ∷ xs) zero (suc j) v h = refl
  get_elem?-set_ne (x ∷ xs) (suc i) zero v h = refl
  get_elem?-set_ne (x ∷ xs) (suc i) (suc j) v h = get_elem?-set_ne xs i j v (ground (arith, h))

  pub get_elem?-append :
      (xs ys : List A) (i : ℕ) {v : A} → get_elem? xs i ≡ some v → get_elem? (xs ++ ys) i ≡ some v
  get_elem?-append [] ys i h = ground arith
  get_elem?-append (x ∷ xs) ys zero h = h
  get_elem?-append (x ∷ xs) ys (suc i) h = get_elem?-append xs ys i h
