-- ===== src/Stream/Lines/Split.antt =====
-- ION\Stream::getLine of src/classes/ION/Stream.c, called until it answers no line.
use php_ion.Base.{
  ℕ, zero, suc, ◌<◌, ◌≡◌, refl, sym, ap, ◌∙◌, Option, none, some, List, [], ◌∷◌, ◌++◌, Bool, true,
  false, Bytes, length, drop, arith, length-drop, append_assoc, Option-cases, inl, inr,
}
use php_ion.Stream.{Evbuffer, World}
use php_ion.Stream.Search.First.{first}
use php_ion.Stream.Search.Laws.{EvbufferLaws}
use php_ion.Stream.Search.Cut.{
  Mode, mode_flags, trim_token, with_token, without_token, line_at, rest_at, first-inside,
}
use php_ion.Stream.Methods.{Answer, text, boolean}
use php_ion.Stream.Methods.Reading.{get_line}
use php_ion.Stream.Lines.{line_or, gone, line_at-rest_at, get_line_lem}

-- The token leaves the input with the line.
abbrev pub takes : Mode → Bool
takes trim_token = true
takes with_token = true
takes without_token = false

-- The lines with the bytes that were trimmed.
abbrev pub whole : Mode → Bytes → List Bytes → Bytes
whole m word [] = []
whole m word (l ∷ ls) = l ++ (gone m word ++ whole m word ls)

rest_at-shorter :
    (m : Mode) (word b : Bytes) (p : ℕ)
    → takes m ≡ true
    → 0 < length word
    → first word b ≡ some p
    → length (rest_at m word p b) < length b
rest_at-shorter trim_token word b p t pos h =
    omega
      (arith, pos, first-inside word b p h, length-drop p b, length-drop (length word) (drop p b))
rest_at-shorter with_token word b p t pos h =
    omega
      (arith, pos, first-inside word b p h, length-drop p b, length-drop (length word) (drop p b))
rest_at-shorter without_token word b p t pos h = cc

abbrev add_line :
    {S : Type 0} → Bytes → Option (List Bytes × World S) → Option (List Bytes × World S)
add_line l none = none
add_line l (some (ls, w)) = some (l ∷ ls, w)

regroup : (a b c d : Bytes) → a ++ (b ++ (c ++ d)) ≡ a ++ (b ++ c) ++ d
regroup a b c d = ap (a ++◌) (sym (append_assoc b c d)) ∙ sym (append_assoc a (b ++ c) d)

-- A line in front of what the next calls answer.
abbrev pub line_then :
    {S : Type 0}
    → Answer × World S
    → (World S → Option (List Bytes × World S))
    → Option (List Bytes × World S)
line_then (text l, w) next = add_line l (next w)
line_then (_, w) next = some ([], w)

module _ (e : Evbuffer) {S : Type 0} (m : Mode) (word : Bytes) where
  -- The lines that getLine() answers, and the stream behind them; `none` is the end of the fuel.
  unfoldable pub lines : ℕ → World S → Option (List Bytes × World S)
  lines zero w = none
  lines (suc n) w = line_then (get_line e word (mode_flags m) 0 w) (lines n)

  module _ (laws : EvbufferLaws e) where
    -- For a mode that takes the token out of the input, a token that is not empty and a stream that
    -- has a buffer, getLine() without a limit answers no line after at most as many calls as the
    -- input has bytes, plus one. The lines, each with its trimmed token, and the input that stays
    -- make up the input, and the input that stays has no token.
    pub lines-split :
        (n : ℕ) (w : World S)
        → takes m ≡ true
        → 0 < length word
        → w.stream.has_buffer ≡ true
        → length w.stream.input < n
        → (ls : List Bytes) × ((w' : World S) × ((lines n w ≡ some (ls, w'))
              × ((first word w'.stream.input ≡ none)
                  × (w.stream.input ≡ whole m word ls ++ w'.stream.input))))
    unfolding lines
    lines-split zero w t pos ready fuel = absurd (omega arith)
    lines-split (suc n) w t pos ready fuel = elim (Option-cases (first word w.stream.input)) [
      | inl h ↦ (
        [],
        (
          w,
          (
            ap (λ a. line_then a (lines n))
                (get_line_lem e laws m word w ready pos
                  ∙ ap (line_or m word (boolean false, w) w) h),
            (h, refl),
          ),
        ),
      )
      | inr (p, h) ↦
          let b : Bytes = w.stream.input in
          let rest : Bytes = rest_at m word p b in
          let (ls, (w', (ran, (done, parts)))) =
            lines-split n (record w { stream = record w.stream { input = rest } }) t pos ready
              (omega (arith, rest_at-shorter m word b p t pos h)) in
          (
            line_at m word p b ∷ ls,
            (
              w',
              (
                ap (λ a. line_then a (lines n))
                      (get_line_lem e laws m word w ready pos
                        ∙ ap (line_or m word (boolean false, w) w) h)
                    ∙ ap (add_line (line_at m word p b)) ran,
                (
                  done,
                  line_at-rest_at m word b p h
                      ∙ ap (λ x. line_at m word p b ++ (gone m word ++ x)) parts
                      ∙ regroup (line_at m word p b) (gone m word) (whole m word ls)
                          w'.stream.input,
                ),
              ),
            ),
          )
    ]
