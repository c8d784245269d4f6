-- ===== src/Http/Request.antt =====
-- src/classes/ION/HTTP/Request.c: the methods and the factory of a request.
pub mod Built
use php_ion.Base.{ℕ, Option, some, List, [], ◌∷◌, ◌==◌, if◌then◌else◌, Bytes}
use php_ion.Uri.{Uri}
use php_ion.Http.Message.{with_body, with_protocol_version, or_default}
use php_ion.Http.Parser.{Filling, start}
use php_ion.Http.Factory.{
  Made, made, refused, crashed, Setting, text, uri_object, uri_no_object, method_no_string,
  unknown_option, option_text, set_headers,
}

-- getURI(); `none` is a use of NULL.
unfoldable pub get_uri : Filling → Option Uri
get_uri m = m.uri

unfoldable pub get_method : Filling → Bytes
get_method m = or_default (b'G' ∷ b'E' ∷ b'T' ∷ []) m.method

unfoldable pub with_method : Filling → Bytes → Filling
with_method m method = record m { method = some method }

unfoldable pub get_request_target : Filling → Bytes
get_request_target m = or_default [] m.target

unfoldable pub with_request_target : Filling → Bytes → Filling
with_request_target m target = record m { target = some target }

-- ION_HTTP_REQUEST_URI
unfoldable pub set_uri : Setting → Filling → Made
set_uri (uri_object u) m = made (record m { uri = some u })
set_uri s m = refused uri_no_object

-- ION_HTTP_REQUEST_METHOD
unfoldable pub set_method : Setting → Filling → Made
unfolding with_method
set_method (text b) m = made (with_method m b)
set_method s m = refused method_no_string

module _ (lower : Bytes → Bytes) (to_text : ℕ → Option Bytes) (convert : Setting → Bytes) where
  -- One case of the switch of factory().
  unfoldable pub set_option : ℕ → Setting → Filling → Made
  unfolding set_uri set_method option_text set_headers with_body with_protocol_version
      with_request_target
  set_option opt s m =
      if opt == 1
      then set_uri s m
      else if opt == 2
      then made (with_request_target m (option_text lower to_text convert s))
      else if opt == 3
      then made (record m {
        message = with_protocol_version m.message (option_text lower to_text convert s);
      })
      else if opt == 4
      then set_method s m
      else if opt == 5
      then set_headers lower to_text convert s m
      else if opt == 6
      then made (record m { message = with_body m.message (option_text lower to_text convert s) })
      else refused unknown_option

  -- The loop of factory().
  unfoldable pub set_options : List (ℕ × Setting) → Filling → Made
  unfolding set_option
  set_options [] m = made m
  set_options ((opt, s) ∷ rest) m = elim (set_option opt s m) [
    | made m' ↦ set_options rest m'
    | refused f ↦ refused f
    | crashed ↦ crashed
  ]

  -- factory(), with options under numeric keys
  unfoldable pub factory : List (ℕ × Setting) → Made
  unfolding set_options
  factory options = set_options options start
