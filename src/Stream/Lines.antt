-- ===== src/Stream/Lines.antt =====
-- ION\Stream::getLine and ION\Stream::readLine of src/classes/ION/Stream.c, against the first place of
-- the token in the input.
pub mod Split
use php_ion.Base.{
  ℕ, ◌+◌, ◌<◌, ◌≤◌, ◌≡◌, refl, sym, ap, ◌∙◌, Option, none, some, [], ◌++◌, Bool, true, false, ◌==◌,
  if◌then◌else◌, Bytes, length, take, drop, arith, length-append, length-drop, append_assoc,
  Option-cases, inl, inr,
}
use php_ion.Stream.{Evbuffer, Token, TokenFlags, Stream, World, update}
use php_ion.Stream.Search.{search_token, read_token}
use php_ion.Stream.Search.First.{first, first-split, take-drop}
use php_ion.Stream.Search.Laws.{EvbufferLaws, Seeking, Searched, search_token_lem}
use php_ion.Stream.Search.Cut.{
  Mode, mode_flags, trim_token, with_token, without_token, line_at, rest_at, read_token_lem,
  first-inside,
}
use php_ion.Stream.Methods.{
  Answer, check_buffer, text, boolean, deferred, threw, not_initialized, new_deferred,
}
use php_ion.Stream.Methods.Reading.{get_line, read_line, new_token, take_token}

-- The bytes that are neither in the line nor in the rest.
abbrev pub gone : Mode → Bytes → Bytes
gone trim_token w = w
gone with_token w = []
gone without_token w = []

-- A token of a call was not searched before.
pub new_token-Seeking :
    (w b : Bytes) (m : Mode) → 0 < length w → Seeking b (new_token w (mode_flags m) 0)
new_token-Seeking w b m pos = record {
  unlimited = refl;
  some_text = pos;
  scanned = record { room = λ q lt. absurd (omega arith); missing = λ q lt. absurd (omega arith) };
}

pub fresh_flags : (m : Mode) → record (mode_flags m) { limit = false } ≡ mode_flags m
fresh_flags trim_token = refl
fresh_flags with_token = refl
fresh_flags without_token = refl

-- The parts that the mode makes of the input.
pub line_at-rest_at :
    (m : Mode) (word b : Bytes) (p : ℕ)
    → first word b ≡ some p
    → b ≡ line_at m word p b ++ (gone m word ++ rest_at m word p b)
line_at-rest_at trim_token word b p h = first-split word b p h
line_at-rest_at with_token word b p h =
    first-split word b p h ∙ sym (append_assoc (take p b) word (drop (length word) (drop p b)))
line_at-rest_at without_token word b p h = take-drop p b

-- The answer of a call that reads at the position of the token, if there is one.
abbrev pub line_or :
    {S : Type 0} → Mode → Bytes → Answer × World S → World S → Option ℕ → Answer × World S
line_or m word otherwise w none = otherwise
line_or m word otherwise w (some p) = (
  text (line_at m word p w.stream.input),
  record w { stream = record w.stream { input = rest_at m word p w.stream.input } },
)

pub length-nonzero : {n : ℕ} → 0 < n → (n == 0) ≡ false
length-nonzero h = ground arith

pub check_buffer-ready :
    {S : Type 0} (w : World S) {k : Answer × World S}
    → w.stream.has_buffer ≡ true
    → check_buffer w k ≡ k
unfolding check_buffer
check_buffer-ready w {k} ready =
    ap (λ (b : Bool). if b then k else (threw not_initialized, w)) ready

abbrev text_of : Answer → Bytes
text_of (text b) = b
text_of _ = []

module _ (e : Evbuffer) (laws : EvbufferLaws e) {S : Type 0} where
  -- A token that a search of the input found is read.
  pub take_token_lem :
      (m : Mode) (word : Bytes) (t : Token) (p : ℕ) (w : World S)
      → t.token ≡ word
      → t.flags ≡ mode_flags m
      → first word w.stream.input ≡ some p
      → take_token e t p w ≡ line_or m word (boolean false, w) w (some p)
  unfolding take_token update
  take_token_lem m word t p w q f h =
      rw (read_token_lem e laws m t p w.stream.input f (ap (λ x. first x w.stream.input) q ∙ h), q)
        refl

  -- For a token that is not empty and without a limit, getLine() answers `false` and keeps the input
  -- when the token is not in the input. Otherwise it answers the bytes up to the first token, by the
  -- mode with or without it, and the rest stays.
  pub get_line_lem :
      (m : Mode) (word : Bytes) (w : World S)
      → w.stream.has_buffer ≡ true
      → 0 < length word
      → get_line e word (mode_flags m) 0 w
        ≡ line_or m word (boolean false, w) w (first word w.stream.input)
  unfolding get_line
  get_line_lem m word w ready pos =
      let (t, (found, s)) =
        search_token_lem e laws w.stream.input (new_token word (mode_flags m) 0)
          (new_token-Seeking word w.stream.input m pos) in
      check_buffer-ready w ready
      ∙ rw (length-nonzero pos, found, s.position)
          (elim (Option-cases (first word w.stream.input)) [
            | inl h ↦ rw h refl
            | inr (p, h) ↦ rw h (take_token_lem m word t p w s.token (s.flags ∙ fresh_flags m) h)
          ])

  -- A line that getLine() answers for a token that is not empty and without a limit, on a stream that
  -- has a buffer, is the front of the input: the line, the token where the mode trims it, and the
  -- bytes that stay make up the input.
  pub get_line-parts :
      (m : Mode) (word l : Bytes) (w w' : World S)
      → w.stream.has_buffer ≡ true
      → 0 < length word
      → get_line e word (mode_flags m) 0 w ≡ (text l, w')
      → w.stream.input ≡ l ++ (gone m word ++ w'.stream.input)
  get_line-parts m word l w w' ready pos ran = elim (Option-cases (first word w.stream.input)) [
    | inl h ↦ let refused : boolean false ≡ text l = ap (λ a. a.0) (answer none h) in cc
    | inr (p, h) ↦
        line_at-rest_at m word w.stream.input p h
        ∙ ap (λ a. text_of a.0 ++ (gone m word ++ a.1.stream.input)) (answer (some p) h)
  ]
    where
      answer :
          (o : Option ℕ)
          → first word w.stream.input ≡ o
          → line_or m word (boolean false, w) w o ≡ (text l, w')
      answer o h =
          ap (line_or m word (boolean false, w) w) (sym h)
          ∙ (sym (get_line_lem m word w ready pos) ∙ ran)
