-- ===== src/Uri/Decimal.antt =====
-- `sprintf("%d", port)` for a number that is not negative, and the length that `ion_uri_stringify`
-- of src/classes/ION/URI.c expects of it.
use native.Mathlib.Nat.{pow-suc}
use php_ion.Base.{
  ℕ, zero, suc, ◌+◌, ◌-◌, ◌*◌, ◌/◌, ◌%◌, ◌^◌, ◌≤◌, ◌<◌, inl, inr, Bool-cases, leb→le, ◌≡◌, refl, [],
  ◌∷◌, ◌++◌, arith, ltb, leb, if◌then◌else◌, length, length-append, Bytes,
}

-- Decimal digits, with a bound on their number.
digits : ℕ → ℕ → Bytes
digits zero n = []
digits (suc fuel) n =
    let front = digits fuel (n / 10) in
    if ltb n 10 then (48 + n) ∷ [] else front ++ (48 + n % 10) ∷ []

-- Twenty digits are enough for 64 bits.
unfoldable pub decimal : ℕ → Bytes
unfolding digits
decimal n = digits 20 n

-- The ladder of the first pass.
unfoldable pub port_size : ℕ → ℕ
port_size port =
    if leb 10000 port
    then 5
    else if leb 1000 port
    then 4
    else if leb 100 port
    then 3
    else if leb 10 port
    then 2
    else 1

one_digit : (f n : ℕ) → n < 10 → length (digits (suc f) n) ≡ 1
unfolding digits
one_digit f n h = ground arith

one_more : (f n : ℕ) → 10 ≤ n → length (digits (suc f) n) ≡ length (digits f (n / 10)) + 1
unfolding digits
one_more f n h = ground (arith, length-append (digits f (n / 10)) ((48 + n % 10) ∷ []))

two_digits : (f n : ℕ) → 10 ≤ n → n < 100 → length (digits (suc (suc f)) n) ≡ 2
two_digits f n h k = omega (arith, one_more (suc f) n, one_digit f (n / 10))

three_digits : (f n : ℕ) → 100 ≤ n → n < 1000 → length (digits (suc (suc (suc f))) n) ≡ 3
three_digits f n h k = omega (arith, one_more (suc (suc f)) n, two_digits f (n / 10))

four_digits : (f n : ℕ) → 1000 ≤ n → n < 10000 → length (digits (suc (suc (suc (suc f)))) n) ≡ 4
four_digits f n h k = omega (arith, one_more (suc (suc (suc f))) n, three_digits f (n / 10))

five_digits : (n : ℕ) → 10000 ≤ n → n < 100000 → length (digits 20 n) ≡ 5
five_digits n h k = omega (arith, one_more 19 n, four_digits 15 (n / 10))

-- The first pass reserves as many bytes as the second one prints.
pub length-decimal : (port : ℕ) → port < 65536 → length (decimal port) ≡ port_size port
unfolding decimal port_size
length-decimal port h = elim (Bool-cases (leb 10000 port)) [
  | inl a ↦ rw a (five_digits port (leb→le _ _ a) (omega arith))
  | inr a ↦ rw a (elim (Bool-cases (leb 1000 port)) [
    | inl b ↦ rw b (four_digits 16 port (leb→le _ _ b) (ground arith))
    | inr b ↦ rw b (elim (Bool-cases (leb 100 port)) [
      | inl c ↦ rw c (three_digits 17 port (leb→le _ _ c) (ground arith))
      | inr c ↦ rw c (elim (Bool-cases (leb 10 port)) [
        | inl d ↦ rw d (two_digits 18 port (leb→le _ _ d) (ground arith))
        | inr d ↦ rw d (one_digit 19 port (ground arith))
      ])
    ])
  ])
]

-- Reading digits back, as `strtol` does.
pub undecimal : ℕ → Bytes → ℕ
undecimal acc [] = acc
undecimal acc (c ∷ cs) = undecimal (acc * 10 + (c - 48)) cs

undecimal-append :
    (acc : ℕ) (xs : Bytes) (c : ℕ) → undecimal acc (xs ++ c ∷ []) ≡ undecimal acc xs * 10 + (c - 48)
unfolding undecimal
undecimal-append acc [] c = refl
undecimal-append acc (x ∷ xs) c = undecimal-append (acc * 10 + (x - 48)) xs c

undecimal-digits : (f n : ℕ) → n < 10 ^ f → undecimal 0 (digits f n) ≡ n
unfolding digits undecimal
undecimal-digits zero n h = omega arith
undecimal-digits (suc f) n h = ground (
  arith,
  undecimal-append 0 (digits f (n / 10)) (48 + n % 10),
  undecimal-digits f (n / 10) (omega (arith, pow-suc 10 f)),
)

pub undecimal-decimal : (n : ℕ) → n < 65536 → undecimal 0 (decimal n) ≡ n
unfolding decimal
undecimal-decimal n h = undecimal-digits 20 n (omega arith)
