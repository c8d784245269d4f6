-- ===== src/Http/Build/Spelling.antt =====
-- The second pass of pion_http_message_build: the strings behind one another, every name of a header
-- in its usual case.
use php_ion.Base.{
  ℕ, zero, suc, ◌+◌, ◌≤◌, ◌≡◌, refl, ap, ◌∙◌, some, List, [], ◌∷◌, ◌++◌, append_assoc, append-nil,
  Bool, true, false, Bytes, length, drop, length-append, length-drop, arith,
}
use php_ion.Memory.{take_prefix, drop_prefix, put_lem}
use php_ion.Http.Build.Pieces.{Piece, crlf, text, bytes}
use php_ion.Http.Build.Written.{recase, recase_at, Writing, write_piece, write_pieces}
use php_ion.Http.Build.Items.{total}

-- The text of some strings, and what `is_header` and `to_up` say behind each.
abbrev pub next_header : Piece → Bool
next_header crlf = true
next_header (text b) = false

abbrev pub cased : Bool → Bool → Bytes → Bytes × Bool
cased true up b = recase up b
cased false up b = (b, up)

abbrev pub next_up : Bool → Bool → Piece → Bool
next_up header up crlf = true
next_up header up (text b) = (cased header up b).1

abbrev pub spelled : Bool → Bool → List Piece → Bytes
spelled header up [] = []
spelled header up (p ∷ rest) =
    (cased header up (bytes p)).0 ++ spelled (next_header p) (next_up header up p) rest

pub length-recase : (b : Bytes) (up : Bool) → length (recase up b).0 ≡ length b
unfolding recase
length-recase [] up = refl
length-recase (x ∷ b) up = ap suc (length-recase b _)

length-cased : (header up : Bool) (b : Bytes) → length (cased header up b).0 ≡ length b
length-cased true up b = length-recase b up
length-cased false up b = refl

pub length-spelled : (header up : Bool) (ps : List Piece) → length (spelled header up ps) ≡ total ps
length-spelled header up [] = refl
length-spelled header up (p ∷ rest) =
    let first = (cased header up (bytes p)).0 in
    let others = spelled (next_header p) (next_up header up p) rest in
    omega (
      arith,
      length-append first others,
      length-cased header up (bytes p),
      length-spelled (next_header p) (next_up header up p) rest,
    )

drop_out : (out rest : Bytes) → drop (length out) (out ++ rest) ≡ rest
drop_out [] rest = refl
drop_out (x ∷ out) rest = drop_out out rest

drop-drop : (n m : ℕ) (xs : Bytes) → drop m (drop n xs) ≡ drop (n + m) xs
drop-drop zero m xs = let e : 0 + m ≡ m = omega arith in rw e
drop-drop (suc n) zero [] = let e : suc n + 0 ≡ suc n = omega arith in rw e
drop-drop (suc n) (suc m) [] = let e : suc n + suc m ≡ suc (n + suc m) = omega arith in rw e
drop-drop (suc n) m (x ∷ xs) =
    let e : suc n + m ≡ suc (n + m) = omega arith in rw e (drop-drop n m xs)

abbrev pub behind : Bytes → Bytes → Bool → Bool → Writing
behind out rest header up = record {
  writer = record { buf = out ++ rest; pos = length out };
  is_header = header;
  to_up = up;
}

behind_eq :
    (out b rest : Bytes) (n : ℕ) (header up : Bool)
    → length b ≡ n
    → some (record {
      writer = record { buf = out ++ (b ++ rest); pos = length out + n };
      is_header = header;
      to_up = up;
    })
      ≡ some (behind (out ++ b) rest header up)
behind_eq out b rest n header up h = rw (append_assoc out b rest, length-append out b, h)

-- One string, where there is room for it.
write_piece_lem :
    (p : Piece) (out rest : Bytes) (header up : Bool)
    → length (bytes p) ≤ length rest
    → write_piece p (behind out rest header up)
      ≡ some (
          behind
            (out ++ (cased header up (bytes p)).0)
            (drop (length (bytes p)) rest)
            (next_header p)
            (next_up header up p))
unfolding write_piece recase_at
write_piece_lem crlf out rest false up h =
    rw (put_lem out rest (bytes crlf) h) (behind_eq out (bytes crlf) (drop 2 rest) 2 true true refl)
write_piece_lem (text b) out rest false up h =
    rw (put_lem out rest b h) (behind_eq out b (drop (length b) rest) (length b) false up refl)
write_piece_lem crlf out rest true up h =
    let both = 13 ∷ 10 ∷ drop 2 rest in
    rw
      (
        put_lem out rest (bytes crlf) h,
        take_prefix out both,
        drop_prefix 2 out both,
        drop_out out both,
      )
      (behind_eq out (bytes crlf) (drop 2 rest) 2 true true refl)
write_piece_lem (text b) out rest true up h =
    let left = drop (length b) rest in
    rw
      (
        put_lem out rest b h,
        take_prefix out (b ++ left),
        drop_prefix (length b) out (b ++ left),
        drop_out out (b ++ left),
        take_prefix b left,
        drop_out b left,
      )
      (behind_eq out (recase up b).0 (drop (length b) rest) (length b) false (recase up b).1
        (length-recase b up))

-- All strings of the array.
pub write_pieces_lem :
    (ps : List Piece) (out rest : Bytes) (header up : Bool)
    → total ps ≤ length rest
    → (header' : Bool) × (up' : Bool) × (write_pieces ps (behind out rest header up)
        ≡ some (behind (out ++ spelled header up ps) (drop (total ps) rest) header' up'))
unfolding write_pieces
write_pieces_lem [] out rest header up h = (header, up, rw (append-nil out))
write_pieces_lem (p ∷ ps) out rest header up h =
    let first = (cased header up (bytes p)).0 in
    let left = drop (length (bytes p)) rest in
    let others = spelled (next_header p) (next_up header up p) ps in
    let e = write_piece_lem p out rest header up (omega arith) in
    let (header', up', e') =
      write_pieces_lem ps (out ++ first) left (next_header p) (next_up header up p)
        (omega (arith, length-drop (length (bytes p)) rest)) in
    (
      header',
      up',
      rw e (e' ∙ rw (append_assoc out first others, drop-drop (length (bytes p)) (total ps) rest)),
    )
