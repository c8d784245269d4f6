-- ===== src/Http/Build.antt =====
-- pion_http_message_build of src/ion/ion_http.c, which build() and __toString() of requests and responses call:
-- the strings of the message are gathered in an array, their sizes are added up, and a second pass
-- writes them into one string and puts the names of headers into their usual case.
--
-- `none` is a fault: a write that leaves the array or the string, or a read of NULL. What strpprintf
-- makes of the status and the strings of reasons are parameters.
pub mod Pieces
pub mod Written
pub mod Items
pub mod Lines
pub mod Spelling
pub mod Rendered
pub mod Texts
use php_ion.Base.{ℕ, ◌+◌, ◌%◌, ◌^◌, Option, none, some, [], ◌∷◌, false, Bytes, length, take, ◌>>=◌}
use php_ion.Uri.{uri_all}
use php_ion.Uri.Text.{ZendString, stringify}
use php_ion.Http.Message.{version_default}
use php_ion.Http.Parser.{Filling}
use php_ion.Http.Response.{http_reason}
use php_ion.Http.Build.Pieces.{crlf, text, Pipe, push_headers}
use php_ion.Http.Build.Written.{write_pieces, finish, body_size}

-- ion_http_type_response, ion_http_type_request, and the others.
pub data Kind : Type 0 where
  response request unknown : Kind

abbrev pub or_else : Bytes → Option Bytes → Bytes
or_else d none = d
or_else d (some b) = b

-- `alloc n` is `n` bytes of any content.
module _ (alloc : ℕ → Bytes) (print : ℕ → Bytes) (reason_text : ℕ → Bytes) where
  -- `message->reason ? message->reason : pion_http_reason(message->status)`
  unfoldable pub reason_of : Filling → Option Bytes
  unfolding http_reason
  reason_of m = elim m.reason [
    | some r ↦ some r
    | none ↦ do code ← http_reason (m.status % 2 ^ 16); some (reason_text code)
  ]

  unfoldable pub response_head : Filling → Option Pipe
  unfolding reason_of
  response_head m = do
    reason ← reason_of m
    let version = or_else version_default m.message.version
    let status = print m.status
    some (record {
      items =
          text (b'H' ∷ b'T' ∷ b'T' ∷ b'P' ∷ [])
          ∷ text (b'/' ∷ [])
          ∷ text version
          ∷ text (b' ' ∷ [])
          ∷ text status
          ∷ text (b' ' ∷ [])
          ∷ text reason
          ∷ crlf
          ∷ [];
      size = 32;
      message_size = length version + length status + length reason + 9;
    })

  -- `buffer`: the target, or the text of the URI.
  unfoldable pub target_of : Filling → Option (Option Bytes)
  target_of m = elim m.target [
    | some t ↦ some (some t)
    | none ↦ elim m.uri [
      | none ↦ some none
      | some u ↦ do z ← stringify alloc u uri_all; some (some (take z.len z.val))
    ]
  ]

  unfoldable pub request_head : Filling → Option Pipe
  unfolding target_of
  request_head m = do
    buffer ← target_of m
    let method = or_else (b'G' ∷ b'E' ∷ b'T' ∷ []) m.method
    let target = or_else (b'/' ∷ []) buffer
    let version = or_else version_default m.message.version
    some (record {
      items =
          text method
          ∷ text (b' ' ∷ [])
          ∷ text target
          ∷ text (b' ' ∷ [])
          ∷ text (b'H' ∷ b'T' ∷ b'T' ∷ b'P' ∷ [])
          ∷ text (b'/' ∷ [])
          ∷ text version
          ∷ crlf
          ∷ [];
      size = 32;
      message_size = length method + length target + length version + 9;
    })

  unfoldable pub head : Kind → Filling → Option Pipe
  unfolding response_head request_head
  head response m = response_head m
  head request m = request_head m
  head unknown m = some (record { items = []; size = 32; message_size = 0 })

  -- pion_http_message_build
  unfoldable pub build : Kind → Filling → Option ZendString
  unfolding head push_headers write_pieces finish
  build kind m = do
    begun ← head kind m
    pipe ← push_headers m.message.headers begun
    let size = pipe.message_size + body_size m.message.body
    written ← write_pieces pipe.items (record {
      writer = record { buf = alloc (size + 1); pos = 0 };
      is_header = false;
      to_up = false;
    })
    finish size m.message.body written
