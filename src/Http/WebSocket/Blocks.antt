-- ===== src/Http/WebSocket/Blocks.antt =====
-- Blocks of bytes that end in NUL.
use php_ion.Base.{
  ℕ, zero, suc, ◌+◌, ◌≤◌, ◌≡◌, refl, sym, ap, ◌∙◌, some, [], ◌∷◌, ◌++◌, Bytes, length, drop,
  length-append, arith,
}
use php_ion.Memory.{memcpy, memcpy_next, memcpy_end}

drop-append : (n : ℕ) (xs ys : Bytes) → n ≤ length xs → drop n (xs ++ ys) ≡ drop n xs ++ ys
drop-append zero xs ys h = refl
drop-append (suc n) [] ys h = absurd (omega arith)
drop-append (suc n) (x ∷ xs) ys h = drop-append n xs ys (omega arith)

-- A piece in front of bytes that end in NUL.
pub memcpy_piece :
    (out rest b : Bytes) (n m : ℕ)
    → n ≡ length out
    → length b ≡ m
    → m ≤ length rest
    → memcpy (out ++ (rest ++ 0 ∷ [])) n b ≡ some ((out ++ b) ++ (drop m rest ++ 0 ∷ []))
memcpy_piece out rest b n m e l h =
    memcpy_next out (rest ++ 0 ∷ []) b n e (omega (arith, l, length-append rest (0 ∷ [])))
    ∙ rw (l, drop-append m rest (0 ∷ []) h)

-- The last byte of a block.
split_last :
    (buf : Bytes) (n : ℕ)
    → length buf ≡ n + 1
    → (out : Bytes) × (tail : Bytes) × (buf ≡ out ++ tail) × (length out ≡ n) × (length tail ≡ 1)
split_last buf zero h = ([], buf, refl, refl, omega arith)
split_last [] (suc n) h = absurd (omega arith)
split_last (x ∷ buf) (suc n) h =
    let (out, tail, e, l, t) = split_last buf n (omega arith) in
    (x ∷ out, tail, ap (◌∷◌ x) e, ap suc l, t)

split_nul :
    (buf out tail : Bytes) (n : ℕ)
    → buf ≡ out ++ tail
    → length out ≡ n
    → length tail ≡ 1
    → memcpy buf n (0 ∷ []) ≡ some (out ++ 0 ∷ [])
split_nul buf out tail n e l t = rw (e, sym l) (memcpy_end out tail out refl t)

pub last_byte :
    (buf : Bytes) (n : ℕ)
    → length buf ≡ n + 1
    → (out : Bytes) × (length out ≡ n) × (memcpy buf n (0 ∷ []) ≡ some (out ++ 0 ∷ []))
last_byte buf n h =
    let (out, tail, e, l, t) = split_last buf n h in (out, l, split_nul buf out tail n e l t)

pub no_bytes : (xs : Bytes) → length xs ≡ 0 → xs ≡ []
no_bytes [] h = refl
no_bytes (x ∷ xs) h = absurd (omega arith)
