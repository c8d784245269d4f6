-- ===== src/Http/Build/Written.antt =====
-- The second pass of pion_http_message_build, src/ion/ion_http.c, with its table transform_map.
use php_ion.Base.{
  ℕ, ◌+◌, ◌-◌, Option, none, some, List, [], ◌∷◌, ◌++◌, Bool, true, false, ◌==◌, ◌&&◌, ◌||◌, leb,
  if◌then◌else◌, Bytes, ◌>>=◌, length, take, drop,
}
use php_ion.Memory.{Writer, put, memcpy}
use php_ion.Uri.Text.{ZendString}
use php_ion.Http.Build.Pieces.{Piece, crlf, text, bytes, crlf_bytes}

-- transform_map
unfoldable pub transform : ℕ → ℕ
transform b =
    if leb 97 b && leb b 122
    then b - 32
    else if (leb 33 b && leb b 47) || (leb 58 b && leb b 64) || (leb 91 b && leb b 126)
    then 1
    else 0

-- One byte of a name, with `to_up`.
unfoldable pub recase_byte : Bool → ℕ → ℕ × Bool
unfolding transform
recase_byte up b =
    if transform b == 0
    then (b, up)
    else if transform b == 1
    then (b, true)
    else if up
    then (transform b, false)
    else (b, up)

-- The loop over the bytes of a name.
unfoldable pub recase : Bool → Bytes → Bytes × Bool
unfolding recase_byte
recase up [] = ([], up)
recase up (b ∷ rest) =
    let step = recase_byte up b in let others = recase step.1 rest in (step.0 ∷ others.0, others.1)

pub record Writing : Type 0 where
  pub writer : Writer
  pub is_header : Bool
  pub to_up : Bool

-- The bytes from `offset` on, in their place.
unfoldable pub recase_at : ℕ → ℕ → Bool → Bytes → Bytes × Bool
unfolding recase
recase_at offset n up buf =
    let done = recase up (take n (drop offset buf)) in
    (take offset buf ++ (done.0 ++ drop (offset + n) buf), done.1)

-- One round of the second pass.
unfoldable pub write_piece : Piece → Writing → Option Writing
unfolding recase_at
write_piece p w = do
  written ← put (bytes p) w.writer
  let cased : Bytes × Bool =
      if w.is_header
      then recase_at w.writer.pos (length (bytes p)) w.to_up written.buf
      else (written.buf, w.to_up)
  some (record {
    writer = record written { buf = cased.0 };
    is_header = elim p [ crlf ↦ true | text b ↦ false ];
    to_up = elim p [ crlf ↦ true | text b ↦ cased.1 ];
  })

unfoldable pub write_pieces : List Piece → Writing → Option Writing
unfolding write_piece
write_pieces [] w = some w
write_pieces (p ∷ rest) w = write_piece p w >>= write_pieces rest

-- The empty line, the body, and the NUL behind the string.
unfoldable pub finish : ℕ → Option Bytes → Writing → Option ZendString
finish size body w = do
  line ← memcpy w.writer.buf w.writer.pos crlf_bytes
  all ← elim body [ none ↦ some line | some b ↦ memcpy line (w.writer.pos + 2) b ]
  val ← memcpy all size (0 ∷ [])
  some (record { len = size; val = val })

abbrev pub body_size : Option Bytes → ℕ
body_size none = 2
body_size (some b) = length b + 2
