-- ===== src/Stream/Search/Cut.antt =====
-- How ion_stream_read and ion_stream_read_token of src/classes/ION/Stream.c cut the input.
use php_ion.Base.{
  ℕ, zero, suc, ◌+◌, ◌≤◌, ◌≡◌, refl, sym, ap, subst, ◌∙◌, Option, none, some, [], ◌∷◌, ◌++◌, true,
  false, ◌==◌, if◌then◌else◌, Bytes, length, take, drop, arith, length-append, length-drop,
  append_assoc,
}
use php_ion.Stream.{Evbuffer, Token, TokenFlags}
use php_ion.Stream.Search.{drop_token, read_token}
use php_ion.Stream.Search.First.{first, first-bound, first-split}
use php_ion.Stream.Search.Laws.{EvbufferLaws}

-- The three documented modes.
pub data Mode : Type 0 where
  trim_token with_token without_token : Mode

abbrev pub mode_flags : Mode → TokenFlags
mode_flags trim_token = record {
  trim = true;
  with_token = false;
  without_token = false;
  limit = false;
}
mode_flags with_token = record {
  trim = false;
  with_token = true;
  without_token = false;
  limit = false;
}
mode_flags without_token = record {
  trim = false;
  with_token = false;
  without_token = true;
  limit = false;
}

-- The line, and what stays, when the token stands at a position.
abbrev pub line_at : Mode → Bytes → ℕ → Bytes → Bytes
line_at with_token w p b = take p b ++ w
line_at trim_token w p b = take p b
line_at without_token w p b = take p b

abbrev pub rest_at : Mode → Bytes → ℕ → Bytes → Bytes
rest_at without_token w p b = drop p b
rest_at with_token w p b = drop (length w) (drop p b)
rest_at trim_token w p b = drop (length w) (drop p b)

pub length-take : (n : ℕ) (b : Bytes) → n ≤ length b → length (take n b) ≡ n
length-take zero b h = refl
length-take (suc n) [] h = absurd (omega arith)
length-take (suc n) (x ∷ b) h = ap suc (length-take n b (omega arith))

-- A place that was found lies inside the buffer with all of the text.
pub first-inside : (w b : Bytes) (p : ℕ) → first w b ≡ some p → p + length w ≤ length b
first-inside w b p e = omega (
  arith,
  parts,
  length-append (take p b) tail,
  length-append w (drop (length w) (drop p b)),
  size,
)
  where
    tail : Bytes
    tail = w ++ drop (length w) (drop p b)

    parts : length b ≡ length (take p b ++ tail)
    parts = ap length (first-split w b p e)

    size : length (take p b) ≡ p
    size = length-take p b (omega (arith, first-bound w b p e))

take-append : (x r : Bytes) → take (length x) (x ++ r) ≡ x
take-append [] r = refl
take-append (c ∷ x) r = ap (c ∷◌) (take-append x r)

drop-append : (x r : Bytes) → drop (length x) (x ++ r) ≡ r
drop-append [] r = refl
drop-append (c ∷ x) r = drop-append x r

-- Bytes of two parts, cut at the end of the first.
pub cut : (x r b : Bytes) (n : ℕ) → b ≡ x ++ r → n ≡ length x → (take n b ≡ x) × (drop n b ≡ r)
cut x r b n e l = (rw (l, e) (take-append x r), rw (l, e) (drop-append x r))

-- The cut behind the token.
cut_behind :
    (w b : Bytes) (p : ℕ)
    → first w b ≡ some p
    → (take (p + length w) b ≡ take p b ++ w) × (drop (p + length w) b ≡ drop (length w) (drop p b))
cut_behind w b p e =
    cut (take p b ++ w) (drop (length w) (drop p b)) b (p + length w)
      (first-split w b p e ∙ sym (append_assoc (take p b) w (drop (length w) (drop p b))))
      (omega
        (arith, length-append (take p b) w, length-take p b (omega (arith, first-bound w b p e))))

nonzero : (p : ℕ) → (suc p == 0) ≡ false
nonzero p = ground arith

module _ (e : Evbuffer) (laws : EvbufferLaws e) where
  -- What is read before a token that is not at the head.
  read_behind :
      (t : Token) (p : ℕ) (b x r : Bytes)
      → e.read (suc p + (if t.flags.with_token then length t.token else 0)) b ≡ (x, r)
      → read_token e t (suc p) b ≡ elim (drop_token e t.flags.trim (length t.token) r) [
        | none ↦ (none, r)
        | some r' ↦ (some x, r')
      ]
  unfolding read_token
  read_behind t p b x r h = rw (nonzero p) (
      ap
        (λ (q : Bytes × Bytes).
          elim (drop_token e t.flags.trim (length t.token) q.1) as (λ _. Option Bytes × Bytes) [
            | none ↦ (none, q.1)
            | some r' ↦ (some q.0, r')
          ])
        h)

  plain_read : (p : ℕ) (b : Bytes) → p ≤ length b → e.read (p + 0) b ≡ (take p b, drop p b)
  plain_read p b h = let plain : p + 0 ≡ p = omega arith in rw plain (laws.read-law p b h)

  -- A token of a mode, by the mode and the position.
  read_mode :
      (m : Mode) (t : Token) (p : ℕ) (b : Bytes)
      → first t.token b ≡ some p
      → read_token e (record t { flags = mode_flags m }) p b
        ≡ (some (line_at m t.token p b), rest_at m t.token p b)
  unfolding read_token drop_token
  read_mode trim_token t zero b h =
      rw (laws.drain-law (length t.token) b (omega (arith, first-inside t.token b 0 h))) refl
  read_mode trim_token t (suc p) b h =
      let inside : suc p + length t.token ≤ length b = first-inside t.token b (suc p) h in
      read_behind (record t { flags = mode_flags trim_token }) p b (take (suc p) b) (drop (suc p) b)
        (plain_read (suc p) b (omega (arith, inside)))
      ∙ rw
          (laws.drain-law (length t.token) (drop (suc p) b)
            (omega (arith, inside, length-drop (suc p) b)))
          refl
  read_mode with_token t zero b h =
      rw (laws.drain-law (length t.token) b (omega (arith, first-inside t.token b 0 h))) refl
  read_mode with_token t (suc p) b h =
      let (head, tail) = cut_behind t.token b (suc p) h in
      read_behind (record t { flags = mode_flags with_token }) p b (take (suc p) b ++ t.token)
        (drop (length t.token) (drop (suc p) b))
        (laws.read-law (suc p + length t.token) b (first-inside t.token b (suc p) h)
          ∙ rw (head, tail) refl)
  read_mode without_token t zero b h = refl
  read_mode without_token t (suc p) b h =
      read_behind (record t { flags = mode_flags without_token }) p b (take (suc p) b)
        (drop (suc p) b) (plain_read (suc p) b (omega (arith, first-inside t.token b (suc p) h)))

  pub read_token_lem :
      (m : Mode) (t : Token) (p : ℕ) (b : Bytes)
      → t.flags ≡ mode_flags m
      → first t.token b ≡ some p
      → read_token e t p b ≡ (some (line_at m t.token p b), rest_at m t.token p b)
  read_token_lem m t p b f h =
      subst
        (λ x.
          read_token e (record t { flags = x }) p b
          ≡ (some (line_at m t.token p b), rest_at m t.token p b))
        (sym f) (read_mode m t p b h)
