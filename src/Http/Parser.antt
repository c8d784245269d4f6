-- ===== src/Http/Parser.antt =====
-- src/ion/ion_http.c: the callbacks that fill a message while http_parser reads a request or a
-- response, and pion_http_parse_request and pion_http_parse_response.
--
-- What http_parser makes of a text, the events and the version, is a parameter. Names of methods
-- (ION_HTTP_METHOD_STR) come with the event.
pub mod Fills
use php_ion.Base.{
  ℕ, Option, none, some, List, [], ◌∷◌, ◌++◌, Bool, true, false, ◌==◌, ◌&&◌, if◌then◌else◌, Bytes,
  ◌>>=◌,
}
use php_ion.Uri.{Uri}
use php_ion.Uri.Parse.{PhpUrl, parse, parsed, parse_failed, null_read}
use php_ion.Http.Message.{Message, new_message, find, replace}

-- `struct _ion_http_message` with the buffer of its parser; COMPLETE is a bit of `flags`. `thrown` says that
-- the exception ERR_ION_URI_PARSE_FAILED is pending.
pub record Filling : Type 0 where
  pub message : Message
  pub buffer : Option Bytes
  pub uri : Option Uri
  pub method : Option Bytes
  pub status : ℕ
  pub reason : Option Bytes
  pub target : Option Bytes
  pub complete : Bool
  pub thrown : Bool

abbrev pub start : Filling
start = record {
  message = new_message;
  buffer = none;
  uri = none;
  method = none;
  status = 0;
  reason = none;
  target = none;
  complete = false;
  thrown = false;
}

-- What http_parser calls: the URL for a request only, and the status for a response only.
pub data Event : Type 0 where
  url : Bytes → Bytes → Event
  status_line : ℕ → Bytes → Event
  header_name header_value body : Bytes → Event
  message_complete : Event

-- What a callback gives back: 0 and the message, 1, or a read of NULL.
pub data Step : Type 0 where
  next : Filling → Step
  stopped crashed : Step

-- pion_http_buffering
unfoldable pub buffering : Option Bytes → Bytes → Bytes
buffering none at = at
buffering (some b) at = b ++ at

-- The header of a name gets one value more, and is made where it is missing.
unfoldable pub add_value : Bytes → Bytes → List (Bytes × List Bytes) → List (Bytes × List Bytes)
unfolding find replace
add_value name value headers = elim (find name headers) [
  | none ↦ headers ++ (name, value ∷ []) ∷ []
  | some old ↦ replace name (old ++ value ∷ []) headers
]

-- The version of a request; the other ones are strpprintf of both numbers.
unfoldable pub version_of : (ℕ → ℕ → Bytes) → ℕ → ℕ → Bytes
version_of print major minor =
    if (major == 1) && (minor == 1)
    then b'1' ∷ b'.' ∷ b'1' ∷ []
    else if (major == 1) && (minor == 0)
    then b'1' ∷ b'.' ∷ b'0' ∷ []
    else if (major == 2) && (minor == 0)
    then b'2' ∷ b'.' ∷ b'0' ∷ []
    else if (major == 0) && (minor == 9)
    then b'0' ∷ b'.' ∷ b'9' ∷ []
    else print major minor

-- `lower` is zend_string_tolower, and `php_url_parse` php_url_parse_ex.
module _ (lower : Bytes → Bytes) (php_url_parse : Bytes → Option PhpUrl) where
  -- pion_http_url
  unfoldable pub on_url : Bytes → Bytes → Filling → Step
  on_url method at m = elim (parse php_url_parse (some at)) [
    | parsed u ↦ next (record m { uri = some u; method = some method })
    | parse_failed ↦ next (record m { uri = none; method = some method; thrown = true })
    | null_read ↦ crashed
  ]

  -- pion_http_message_status
  unfoldable pub on_status : ℕ → Bytes → Filling → Filling
  on_status code at m = record m { status = code; reason = some at }

  -- pion_http_header_name
  unfoldable pub on_header_name : Bytes → Filling → Filling
  on_header_name at m = record m { buffer = some at }

  -- pion_http_header_value
  unfoldable pub on_header_value : Bytes → Filling → Step
  unfolding add_value
  on_header_value at m = elim m.buffer [
    | none ↦ stopped
    | some name ↦ next (record m {
      message = record m.message { headers = add_value (lower name) at m.message.headers };
      buffer = none;
    })
  ]

  -- pion_http_message_body
  unfoldable pub on_body : Bytes → Filling → Filling
  unfolding buffering
  on_body at m = record m {
    message = record m.message { body = some (buffering m.message.body at) };
  }

  -- pion_http_message_complete
  unfoldable pub on_complete : Filling → Filling
  on_complete m = record m { complete = true }

  unfoldable pub handle : Event → Filling → Step
  unfolding on_url on_status on_header_name on_header_value on_body on_complete
  handle (url method at) m = on_url method at m
  handle (status_line code at) m = next (on_status code at m)
  handle (header_name at) m = next (on_header_name at m)
  handle (header_value at) m = on_header_value at m
  handle (body at) m = next (on_body at m)
  handle message_complete m = next (on_complete m)

  -- The calls of http_parser_execute; `none` is a crash.
  unfoldable pub execute : List Event → Filling → Option Filling
  unfolding handle
  execute [] m = some m
  execute (x ∷ xs) m = elim (handle x m) [
    | next m' ↦ execute xs m'
    | stopped ↦ some m
    | crashed ↦ none
  ]

  -- pion_http_parse_request, on the events and the version of a text
  unfoldable pub parse_request : (ℕ → ℕ → Bytes) → List Event → ℕ → ℕ → Option Filling
  unfolding execute version_of
  parse_request print events major minor = do
    m ← execute events start
    some (record m { message = record m.message { version = some (version_of print major minor) } })

  -- pion_http_parse_response
  unfoldable pub parse_response : List Event → Option Filling
  unfolding execute
  parse_response events = execute events start
