-- ===== src/Http/Build/Pieces.antt =====
-- The array of strings of pion_http_message_build, src/ion/ion_http.c.
use php_ion.Base.{
  ℕ, ◌+◌, ◌*◌, Option, none, some, List, [], ◌∷◌, ◌++◌, ltb, if◌then◌else◌, Bytes, ◌>>=◌, length,
}

-- An entry of the array: the string CRLF, which the code knows by its address, or another one.
pub data Piece : Type 0 where
  crlf : Piece
  text : Bytes → Piece

abbrev pub crlf_bytes : Bytes
crlf_bytes = 13 ∷ 10 ∷ []

abbrev pub bytes : Piece → Bytes
bytes crlf = crlf_bytes
bytes (text b) = b

-- The array `pipe` with `pipe_pos` entries and `pipe_size` places, and `message_size`.
pub record Pipe : Type 0 where
  pub items : List Piece
  pub size : ℕ
  pub message_size : ℕ

-- `pipe[pipe_pos++] = s`
unfoldable pub push : Piece → Pipe → Option Pipe
push p pipe =
    if ltb (length pipe.items) pipe.size
    then some (record pipe { items = pipe.items ++ p ∷ [] })
    else none

-- `erealloc` to twice the size where `n` more do not fit.
unfoldable pub reserve : ℕ → Pipe → Pipe
reserve n pipe =
    if ltb pipe.size (length pipe.items + n) then record pipe { size = pipe.size * 2 } else pipe

abbrev pub add_size : ℕ → Pipe → Pipe
add_size n pipe = record pipe { message_size = pipe.message_size + n }

-- The loop over the values of a header.
unfoldable pub push_values : List Bytes → Pipe → Option Pipe
unfolding push
push_values [] pipe = some pipe
push_values (v ∷ rest) pipe = do
  with_value ← push (text v) pipe
  with_coma ← push (text (b',' ∷ [])) with_value
  push_values rest (add_size (length v + 1) with_coma)

-- `pipe[pipe_pos-1] = CRLF`
unfoldable pub end_line : List Piece → List Piece
end_line [] = []
end_line (p ∷ []) = crlf ∷ []
end_line (p ∷ q ∷ rest) = p ∷ end_line (q ∷ rest)

abbrev pub colon_space : Bytes
colon_space = b':' ∷ b' ' ∷ []

unfoldable pub push_one : Bytes → Bytes → Pipe → Option Pipe
unfolding push reserve
push_one name v pipe = do
  p1 ← push (text name) (reserve 4 pipe)
  p2 ← push (text colon_space) p1
  p3 ← push (text v) p2
  push crlf (add_size (length name + 4 + length v) p3)

unfoldable pub push_many : Bytes → List Bytes → Pipe → Option Pipe
unfolding push reserve push_values end_line
push_many name values pipe = do
  p1 ← push (text name) (reserve (2 + length values * 2) pipe)
  p2 ← push (text colon_space) p1
  p3 ← push_values values (add_size (length name + 3) p2)
  some (record p3 { items = end_line p3.items })

unfoldable pub push_header : Bytes → List Bytes → Pipe → Option Pipe
unfolding push_one push_many
push_header name (v ∷ []) pipe = push_one name v pipe
push_header name [] pipe = push_many name [] pipe
push_header name (v ∷ w ∷ rest) pipe = push_many name (v ∷ w ∷ rest) pipe

unfoldable pub push_headers : List (Bytes × List Bytes) → Pipe → Option Pipe
unfolding push_header
push_headers [] pipe = some pipe
push_headers ((name, values) ∷ rest) pipe = push_header name values pipe >>= push_headers rest
