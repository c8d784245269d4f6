-- ===== src/Memory.antt =====
-- Writes into a block of bytes, as `memcpy(&buf->val[pos], s, len)` makes them. A write that would
-- leave the block is a fault.
use php_ion.Base.{
  ℕ, suc, ◌+◌, ◌≤◌, ◌≡◌, refl, sym, ap, subst, Bool, true, false, Option, none, some, [], ◌∷◌, ◌++◌,
  append_assoc, append-nil, arith, leb, le→leb, if◌then◌else◌, length, take, drop, length-append,
  length-drop, Bytes, ◌>>=◌,
}

pub memcpy : Bytes → ℕ → Bytes → Option Bytes
memcpy buf pos s =
    if leb (pos + length s) (length buf)
    then some (take pos buf ++ (s ++ drop (pos + length s) buf))
    else none

-- The block and the position up to which it is filled.
pub record Writer : Type 0 where
  pub buf : Bytes
  pub pos : ℕ

pub put : Bytes → Writer → Option Writer
put s w = do buf ← memcpy w.buf w.pos s; some (record { buf = buf; pos = w.pos + length s })

-- `pos += sprintf(&buf->val[pos], ...)`: the terminating NUL is written and not counted.
pub put_c_string : Bytes → Writer → Option Writer
put_c_string s w = do
  buf ← memcpy w.buf w.pos (s ++ 0 ∷ [])
  some (record { buf = buf; pos = w.pos + length s })

pub record Wrote (out : Bytes) (room : ℕ) (w : Writer) : Type 0 where
  pub rest : Bytes
  pub buf_eq : w.buf ≡ out ++ rest
  pub pos_eq : w.pos ≡ length out
  pub room_eq : length rest ≡ room

pub take_prefix : (xs ys : Bytes) → take (length xs) (xs ++ ys) ≡ xs
take_prefix [] ys = refl
take_prefix (x ∷ xs) ys = ap (◌∷◌ x) (take_prefix xs ys)

pub drop_prefix : (n : ℕ) (xs ys : Bytes) → drop (length xs + n) (xs ++ ys) ≡ drop n ys
drop_prefix n [] ys = let e : length {A = ℕ} [] + n ≡ n = omega arith in rw e
drop_prefix n (x ∷ xs) ys =
    let e : suc (length xs) + n ≡ suc (length xs + n) = omega arith in rw e (drop_prefix n xs ys)

pub memcpy_prefix :
    (out rest s : Bytes)
    → length s ≤ length rest
    → memcpy (out ++ rest) (length out) s ≡ some (out ++ (s ++ drop (length s) rest))
unfolding memcpy
memcpy_prefix out rest s h = rw (
  le→leb (length out + length s) (length (out ++ rest)) (omega (arith, length-append out rest)),
  take_prefix out rest,
  drop_prefix (length s) out rest,
)

pub put_lem :
    (out rest s : Bytes)
    → length s ≤ length rest
    → put s (record { buf = out ++ rest; pos = length out })
      ≡ some (record { buf = out ++ (s ++ drop (length s) rest); pos = length out + length s })
unfolding put
put_lem out rest s h = rw (memcpy_prefix out rest s h)

-- `f` appends `text` wherever there is room for it and for one byte more.
pub record Writes (f : Writer → Option Writer) (text : Bytes) : Type 0 where
  pub run :
      (out : Bytes) (n : ℕ) (w : Writer)
      → Wrote out (length text + suc n) w
      → (w' : Writer) × (f w ≡ some w') × Wrote (out ++ text) (suc n) w'

advance-Wrote :
    (s out : Bytes) (n : ℕ) (w : Writer) (rest : Bytes)
    → w.pos ≡ length out
    → length rest ≡ suc n
    → Wrote (out ++ s) (suc n) (record { buf = out ++ (s ++ rest); pos = w.pos + length s })
advance-Wrote s out n w rest p r = record {
  rest = rest;
  buf_eq = sym (append_assoc out s rest);
  pos_eq = omega (arith, length-append out s);
  room_eq = r;
}

pub put-Writes : (s : Bytes) → Writes (put s) s
unfolding put
put-Writes s = record {
  run = λ out n w h. (
    record { buf = out ++ (s ++ drop (length s) h.rest); pos = w.pos + length s },
    rw (h.buf_eq, h.pos_eq, memcpy_prefix out h.rest s (omega (arith, h.room_eq))),
    advance-Wrote s out n w (drop (length s) h.rest) h.pos_eq
        (omega (arith, h.room_eq, length-drop (length s) h.rest)),
  );
}

-- The NUL falls on the reserved byte.
pub put_c_string-Writes : (s : Bytes) → Writes (put_c_string s) s
unfolding put_c_string
put_c_string-Writes s = record {
  run = λ out n w h.
      let m = drop (length (s ++ 0 ∷ [])) h.rest in
      let e = length-append s (0 ∷ []) in
      let d = length-drop (length (s ++ 0 ∷ [])) h.rest in
      (
        record { buf = out ++ (s ++ (0 ∷ m)); pos = w.pos + length s },
        rw (
          h.buf_eq,
          h.pos_eq,
          memcpy_prefix out h.rest (s ++ 0 ∷ []) (omega (arith, h.room_eq, e)),
          append_assoc s (0 ∷ []) m,
        ),
        advance-Wrote s out n w (0 ∷ m) h.pos_eq (omega (arith, h.room_eq, e, d)),
      );
}

pub none-Writes : Writes (λ w. some w) []
none-Writes = record {
  run = λ out n w h. (w, refl, rw (append-nil out) (subst (λ k. Wrote out k w) (omega arith) h));
}

pub seq-Writes :
    (f g : Writer → Option Writer) (s t : Bytes)
    → Writes f s
    → Writes g t
    → Writes (λ w. f w >>= g) (s ++ t)
seq-Writes f g s t wf wg = record {
  run = λ out n w h.
      let (w₁, e₁, h₁) =
        wf.run out (length t + n) w
          (subst (λ k. Wrote out k w) (omega (arith, length-append s t)) h) in
      let (w₂, e₂, h₂) =
        wg.run (out ++ s) n w₁ (subst (λ k. Wrote (out ++ s) k w₁) (omega arith) h₁) in
      (w₂, rw e₁ e₂, subst (λ z. Wrote z (suc n) w₂) (append_assoc out s t) h₂);
}

pub if-Writes :
    (b : Bool) (f : Writer → Option Writer) (s : Bytes)
    → Writes f s
    → Writes (λ w. if b then f w else some w) (if b then s else [])
if-Writes true f s h = h
if-Writes false f s h = none-Writes

drop_all_but : (xs : Bytes) → length xs ≡ 1 → drop 1 xs ≡ []
drop_all_but [] h = refl
drop_all_but (x ∷ []) h = refl
drop_all_but (x ∷ y ∷ r) h = absurd (omega arith)

-- The last byte of the block.
pub memcpy_last :
    (out : Bytes) (w : Writer)
    → Wrote out 1 w
    → memcpy w.buf (length out) (0 ∷ []) ≡ some (out ++ 0 ∷ [])
memcpy_last out w h = rw (
  h.buf_eq,
  memcpy_prefix out h.rest (0 ∷ []) (omega (arith, h.room_eq)),
  drop_all_but h.rest h.room_eq,
)

-- The last byte of a block.
pub memcpy_end :
    (out rest text : Bytes)
    → text ≡ out
    → length rest ≡ 1
    → memcpy (out ++ rest) (length text) (0 ∷ []) ≡ some (text ++ 0 ∷ [])
memcpy_end out rest text t r =
    rw (t, memcpy_prefix out rest (0 ∷ []) (omega (arith, r)), drop_all_but rest r)

-- A piece behind the ones that were written.
pub memcpy_next :
    (out rest c : Bytes) (n : ℕ)
    → n ≡ length out
    → length c ≤ length rest
    → memcpy (out ++ rest) n c ≡ some ((out ++ c) ++ drop (length c) rest)
memcpy_next out rest c n o r =
    rw (o, memcpy_prefix out rest c r, append_assoc out c (drop (length c) rest))
