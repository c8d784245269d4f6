-- ===== src/Stream/Search/First.antt =====
-- The first place of a text in a buffer, and what is known of it after a part was searched.
use php_ion.Base.{
  ℕ, zero, suc, ◌+◌, ◌-◌, ◌≤◌, ◌<◌, ◌≡◌, ◌≢◌, refl, sym, ap, ◌∙◌, Option, none, some, [], ◌∷◌, ◌++◌,
  Bool, true, false, ◌==◌, ◌&&◌, if◌then◌else◌, Bytes, length, take, drop, arith, Bool-cases,
  Option-cases, le_or_lt, inl, inr, length-drop, length-append,
}

-- The text stands at the head of the bytes.
abbrev pub starts : Bytes → Bytes → Bool
starts [] b = true
starts (c ∷ w) [] = false
starts (c ∷ w) (d ∷ b) = (c == d) && starts w b

abbrev pub shift : ℕ → Option ℕ → Option ℕ
shift k none = none
shift k (some p) = some (k + p)

-- The first position of the text, which is not empty.
abbrev pub first : Bytes → Bytes → Option ℕ
first w [] = none
first w (c ∷ b) = let rest = first w b in if starts w (c ∷ b) then some 0 else shift 1 rest

-- The first position from `i` on.
abbrev pub first_from : Bytes → Bytes → ℕ → Option ℕ
first_from w b i = shift i (first w (drop i b))

-- The text stands at no position below `o`, whatever bytes follow.
pub record Scanned (w b : Bytes) (o : ℕ) : Type 0 where
  pub room : (q : ℕ) → q < o → q + length w ≤ length b
  pub missing : (q : ℕ) → q < o → starts w (drop q b) ≡ false

starts_append : (w b c : Bytes) → length w ≤ length b → starts w (b ++ c) ≡ starts w b
starts_append [] b c h = refl
starts_append (x ∷ w) [] c h = absurd (omega arith)
starts_append (x ∷ w) (y ∷ b) c h = ap (λ t. (x == y) && t) (starts_append w b c (omega arith))

drop_append : (q : ℕ) (b c : Bytes) → q ≤ length b → drop q (b ++ c) ≡ drop q b ++ c
drop_append zero b c h = refl
drop_append (suc q) [] c h = absurd (omega arith)
drop_append (suc q) (x ∷ b) c h = drop_append q b c (omega arith)

-- More bytes change nothing below `o`.
pub Scanned-append : (w b c : Bytes) (o : ℕ) → Scanned w b o → Scanned w (b ++ c) o
Scanned-append w b c o s = record {
  room = λ q lt. omega (arith, s.room q lt, length-append b c);
  missing = λ q lt.
      rw (drop_append q b c (omega (arith, s.room q lt)), starts_append w (drop q b) c (fits q lt))
        (s.missing q lt);
}
  where
    fits : (q : ℕ) → q < o → length w ≤ length (drop q b)
    fits q lt = omega (arith, s.room q lt, length-drop q b)

shift-zero : (o : Option ℕ) → shift 0 o ≡ o
shift-zero none = refl
shift-zero (some p) = ap some (omega arith)

shift-suc : (n : ℕ) (o : Option ℕ) → shift (suc n) o ≡ shift 1 (shift n o)
shift-suc n none = refl
shift-suc n (some p) = ap some (omega arith)

Scanned-tail : (w b : Bytes) (c o : ℕ) → Scanned w (c ∷ b) (suc o) → Scanned w b o
Scanned-tail w b c o s = record {
  room = λ q lt. omega (arith, s.room (suc q) (omega arith));
  missing = λ q lt. s.missing (suc q) (omega arith);
}

-- A search may skip what was scanned.
pub first-Scanned : (w b : Bytes) (o : ℕ) → Scanned w b o → first_from w b o ≡ first w b
first-Scanned w b zero s = shift-zero (first w b)
first-Scanned w [] (suc o) s = refl
first-Scanned w (c ∷ b) (suc o) s =
    shift-suc o (first w (drop o b))
    ∙ rw (s.missing 0 (omega arith)) (ap (shift 1) (first-Scanned w b o (Scanned-tail w b c o s)))

shift-none : (k : ℕ) (o : Option ℕ) → shift k o ≡ none → o ≡ none
shift-none k none e = refl
shift-none k (some p) e = cc

some≢none : (p : ℕ) → some p ≢ none
some≢none p h = cc

-- The head of the bytes decides, or the rest does.
data Head (w b : Bytes) (c : ℕ) : Type 0 where
  here : starts w (c ∷ b) ≡ true → first w (c ∷ b) ≡ some 0 → Head w b c
  later : starts w (c ∷ b) ≡ false → first w (c ∷ b) ≡ shift 1 (first w b) → Head w b c

start_or_rest : (w b : Bytes) (c : ℕ) → Head w b c
start_or_rest w b c = elim (Bool-cases (starts w (c ∷ b))) [
  | inl t ↦ here t (rw t refl)
  | inr f ↦ later f (rw f refl)
]

first-none : (w b : Bytes) → first w b ≡ none → (q : ℕ) → q < length b → starts w (drop q b) ≡ false
first-none w [] e q lt = absurd (omega arith)
first-none w (c ∷ b) e q lt = elim (start_or_rest w b c) [
  | here t h ↦ absurd (some≢none 0 (sym h ∙ e))
  | later f h ↦ extend f (first-none w b (shift-none 1 (first w b) (sym h ∙ e))) q lt
]
  where
    extend :
        starts w (c ∷ b) ≡ false
        → ((r : ℕ) → r < length b → starts w (drop r b) ≡ false)
        → (r : ℕ) → r < suc (length b)
        → starts w (drop r (c ∷ b)) ≡ false
    extend f tail zero l = f
    extend f tail (suc r) l = tail r (omega arith)

-- A search without result scans as far as the text fits.
pub Scanned-none :
    (w b : Bytes)
    → 0 < length w
    → length w ≤ length b
    → first w b ≡ none
    → Scanned w b (length b - length w + 1)
Scanned-none w b pos fits e = record {
  room = λ q lt. omega arith;
  missing = λ q lt. first-none w b e q (omega arith);
}

-- The text stands at the position that the search finds.
pub first-some : (w b : Bytes) (p : ℕ) → first w b ≡ some p → starts w (drop p b) ≡ true
first-some w [] p e = cc
first-some w (c ∷ b) p e = elim (start_or_rest w b c) [
  | here t h ↦ at_head t p (sym h ∙ e)
  | later f h ↦ behind (first w b) (first-some w b) p (sym h ∙ e)
]
  where
    at_head : starts w (c ∷ b) ≡ true → (r : ℕ) → some 0 ≡ some r → starts w (drop r (c ∷ b)) ≡ true
    at_head t zero l = t
    at_head t (suc r) l = cc

    behind :
        (o : Option ℕ)
        → ((r : ℕ) → o ≡ some r → starts w (drop r b) ≡ true)
        → (r : ℕ) → shift 1 o ≡ some r
        → starts w (drop r (c ∷ b)) ≡ true
    behind none tail r l = cc
    behind (some q) tail zero l = absurd (ground (arith, l))
    behind (some q) tail (suc r) l = tail r (ground (arith, l))

pub first-bound : (w b : Bytes) (p : ℕ) → first w b ≡ some p → p < length b
first-bound w [] p e = cc
first-bound w (c ∷ b) p e = elim (start_or_rest w b c) [
  | here t h ↦ at_head p (sym h ∙ e)
  | later f h ↦ behind (first w b) (first-bound w b) p (sym h ∙ e)
]
  where
    at_head : (r : ℕ) → some 0 ≡ some r → r < suc (length b)
    at_head zero l = omega arith
    at_head (suc r) l = cc

    behind :
        (o : Option ℕ)
        → ((r : ℕ) → o ≡ some r → r < length b)
        → (r : ℕ) → shift 1 o ≡ some r
        → r < suc (length b)
    behind none tail r l = cc
    behind (some q) tail r l = let h : q < length b = tail q refl in ground (arith, l, h)

both : (a b : Bool) → (a && b) ≡ true → (a ≡ true) × (b ≡ true)
both true b e = (refl, e)
both false b e = cc

same : (c d : ℕ) → (c == d) ≡ true → d ≡ c
same c d e = ground arith

starts-split : (w b : Bytes) → starts w b ≡ true → b ≡ w ++ drop (length w) b
starts-split [] b e = refl
starts-split (c ∷ w) [] e = cc
starts-split (c ∷ w) (d ∷ b) e =
    let (head, tail) = both (c == d) (starts w b) e in
    ap (◌∷ b) (same c d head) ∙ ap (c ∷◌) (starts-split w b tail)

pub take-drop : (p : ℕ) (b : Bytes) → b ≡ take p b ++ drop p b
take-drop zero b = refl
take-drop (suc p) [] = refl
take-drop (suc p) (x ∷ b) = ap (x ∷◌) (take-drop p b)

-- What a position that was found says: the bytes before it, the text, and what follows.
pub first-split :
    (w b : Bytes) (p : ℕ) → first w b ≡ some p → b ≡ take p b ++ (w ++ drop (length w) (drop p b))
first-split w b p e =
    take-drop p b ∙ ap (take p b ++◌) (starts-split w (drop p b) (first-some w b p e))

starts-short : (w b : Bytes) → length b < length w → starts w b ≡ false
starts-short [] b lt = absurd (omega arith)
starts-short (c ∷ w) [] lt = refl
starts-short (c ∷ w) (d ∷ b) lt = rw (starts-short w b (omega arith)) (and-false (c == d))
  where
    and-false : (x : Bool) → (x && false) ≡ false
    and-false true = refl
    and-false false = refl

-- Nothing is found in a buffer that is shorter than the text.
pub first-short : (w b : Bytes) → length b < length w → first w b ≡ none
first-short w [] lt = refl
first-short w (c ∷ b) lt = rw (starts-short w (c ∷ b) lt, first-short w b (omega arith)) refl

drop-past : (o : ℕ) (b : Bytes) → length b ≤ o → drop o b ≡ []
drop-past zero [] h = refl
drop-past zero (x ∷ b) h = absurd (omega arith)
drop-past (suc o) [] h = refl
drop-past (suc o) (x ∷ b) h = drop-past o b (omega arith)

-- Nothing is found when all of the buffer was scanned.
pub first-past : (w b : Bytes) (o : ℕ) → length b ≤ o → Scanned w b o → first w b ≡ none
first-past w b o h s = sym (first-Scanned w b o s) ∙ ap (λ x. shift o (first w x)) (drop-past o b h)

true≢false : true ≢ false
true≢false h = cc

starts-fits : (w b : Bytes) → starts w b ≡ true → length w ≤ length b
starts-fits w b t = elim (le_or_lt (length w) (length b)) [
  | inl h ↦ h
  | inr h ↦ absurd (true≢false (sym t ∙ starts-short w b h))
]

-- What is missing in all bytes is missing in the first ones.
pub first-prefix : (w b c : Bytes) → first w (b ++ c) ≡ none → first w b ≡ none
first-prefix w b c e = elim (Option-cases (first w b)) [
  | inl h ↦ h
  | inr (p, h) ↦
      let here : starts w (drop p b) ≡ true = first-some w b p h in
      let lt : p < length b = first-bound w b p h in
      let there : starts w (drop p (b ++ c)) ≡ true =
        rw
          (
            drop_append p b c (omega (arith, lt)),
            starts_append w (drop p b) c (starts-fits w (drop p b) here),
          )
          here in
      absurd
        (true≢false (sym there ∙ first-none w (b ++ c) e p (omega (arith, lt, length-append b c))))
]
