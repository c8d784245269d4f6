-- ===== src/Http/Response.antt =====
-- src/classes/ION/HTTP/Response.c, and pion_http_reason of src/ion/ion_http.c. The constant string
-- ION_STR_HTTP_c is the number c.
pub mod Status
use php_ion.Base.{
  ℕ, ◌%◌, ◌^◌, Option, none, some, List, [], ◌∷◌, Bool, false, ◌==◌, ◌||◌, if◌then◌else◌, Bytes,
  length,
}
use php_ion.Http.Message.{with_body, with_protocol_version}
use php_ion.Http.Parser.{Filling, start}
use php_ion.Http.Factory.{
  Made, made, refused, crashed, Setting, number, unknown_status, status_no_number, unknown_option,
  option_text, set_headers,
}

abbrev pub codes : List ℕ
codes =
    100 ∷ 101 ∷ 102 ∷ 200 ∷ 201 ∷ 202 ∷ 203 ∷ 204 ∷ 205 ∷ 206 ∷ 207 ∷ 226 ∷ 300 ∷ 301 ∷ 302 ∷ 303
    ∷ 304 ∷ 305 ∷ 307 ∷ 400 ∷ 401 ∷ 402 ∷ 403 ∷ 404 ∷ 405 ∷ 406 ∷ 407 ∷ 408 ∷ 409 ∷ 410 ∷ 411 ∷ 412
    ∷ 413 ∷ 414 ∷ 415 ∷ 416 ∷ 417 ∷ 418 ∷ 422 ∷ 423 ∷ 424 ∷ 425 ∷ 426 ∷ 428 ∷ 429 ∷ 431 ∷ 434 ∷ 449
    ∷ 451 ∷ 500 ∷ 501 ∷ 502 ∷ 503 ∷ 504 ∷ 505 ∷ 506 ∷ 507 ∷ 508 ∷ 509 ∷ 510 ∷ 511 ∷ []

abbrev pub mem : ℕ → List ℕ → Bool
mem c [] = false
mem c (x ∷ xs) = (c == x) || mem c xs

-- pion_http_reason; the code is 16 bits.
unfoldable pub http_reason : ℕ → Option ℕ
http_reason c = if mem c codes then some c else none

-- What getReasonPhrase() returns.
pub data Phrase : Type 0 where
  given : Bytes → Phrase
  standard : ℕ → Phrase
  empty_phrase : Phrase

-- The reason that withStatus() keeps: NULL and the empty string are none.
abbrev pub set_reason : Option Bytes → Option Bytes
set_reason none = none
set_reason (some r) = if length r == 0 then none else some r

-- withStatus(); the status is the 64 bits of an integer.
unfoldable pub with_status : ℕ → Option Bytes → Filling → Made
with_status status reason m = elim (http_reason (status % 2 ^ 16)) [
  | none ↦ refused unknown_status
  | some c ↦ made (record m { status = status % 2 ^ 8; reason = set_reason reason })
]

unfoldable pub get_status_code : Filling → ℕ
get_status_code m = m.status

-- getReasonPhrase()
unfoldable pub get_reason_phrase : Filling → Phrase
get_reason_phrase m = elim m.reason [
  | some r ↦ given r
  | none ↦ elim (http_reason (m.status % 2 ^ 8)) [ none ↦ empty_phrase | some c ↦ standard c ]
]

-- `lower` is zend_string_tolower, `to_text` is convert_to_string of a header (`none` is an
-- exception), and `convert` that of an option.
module _ (lower : Bytes → Bytes) (to_text : ℕ → Option Bytes) (convert : Setting → Bytes) where
  -- ION_HTTP_RESPONSE_STATUS
  unfoldable pub set_status : Setting → Filling → Made
  set_status (number n) m = elim (http_reason (n % 2 ^ 16)) [
    | none ↦ refused unknown_status
    | some c ↦ made (record m { status = n % 2 ^ 16; reason = none })
  ]
  set_status s m = refused status_no_number

  -- One case of the switch of factory().
  unfoldable pub set_option : ℕ → Setting → Filling → Made
  unfolding option_text set_headers set_status with_body with_protocol_version
  set_option opt s m =
      if opt == 2
      then set_status s m
      else if opt == 3
      then made (record m { reason = some (option_text lower to_text convert s) })
      else if opt == 1
      then made (record m {
        message = with_protocol_version m.message (option_text lower to_text convert s);
      })
      else if opt == 4
      then set_headers lower to_text convert s m
      else if opt == 5
      then made (record m { message = with_body m.message (option_text lower to_text convert s) })
      else refused unknown_option

  -- The loop of factory().
  unfoldable pub set_options : List (ℕ × Setting) → Filling → Made
  unfolding set_option
  set_options [] m = made m
  set_options ((opt, s) ∷ rest) m = elim (set_option opt s m) [
    | made m' ↦ set_options rest m'
    | refused f ↦ refused f
    | crashed ↦ crashed
  ]

  -- factory(), with options under numeric keys
  unfoldable pub factory : Option (List (ℕ × Setting)) → Made
  unfolding set_options
  factory none = made start
  factory (some options) = set_options options start
