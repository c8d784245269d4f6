-- ===== src/Http/Factory.antt =====
-- What the factories of src/classes/ION/HTTP/Request.c and Response.c share: the values of their options,
-- their results, and the headers. URI objects are instances of ION\URI.
use php_ion.Base.{ℕ, Option, none, some, List, [], ◌∷◌, Bytes}
use php_ion.Uri.{Uri}
use php_ion.Http.Message.{Message, Value, with_added_header}
use php_ion.Http.Parser.{Filling}

pub data Fault : Type 0 where
  unknown_status status_no_number headers_no_array unknown_option : Fault
  uri_no_object method_no_string : Fault

-- The object of a method, an exception, or a read of NULL.
pub data Made : Type 0 where
  made : Filling → Made
  refused : Fault → Made
  crashed : Made

-- A value of the options of a factory.
pub data Setting : Type 0 where
  text : Bytes → Setting
  number : ℕ → Setting
  uri_object : Uri → Setting
  headers : List (Option Bytes × Value) → Setting
  other : ℕ → Setting

-- `lower` is zend_string_tolower, `to_text` is convert_to_string of a header (`none` is an
-- exception), and `convert` that of an option.
module _ (lower : Bytes → Bytes) (to_text : ℕ → Option Bytes) (convert : Setting → Bytes) where
  -- convert_to_string, unless it is a string.
  unfoldable pub option_text : Setting → Bytes
  option_text (text b) = b
  option_text s = convert s

  -- The loop over the headers; a header without a name is a read of NULL.
  unfoldable pub add_headers : List (Option Bytes × Value) → Message → Option Message
  unfolding with_added_header
  add_headers [] m = some m
  add_headers ((none, v) ∷ rest) m = none
  add_headers ((some name, v) ∷ rest) m =
      add_headers rest (with_added_header lower to_text m name v)

  -- ION_HTTP_RESPONSE_HEADERS and ION_HTTP_REQUEST_HEADERS
  unfoldable pub set_headers : Setting → Filling → Made
  unfolding add_headers
  set_headers (headers hs) m = elim (add_headers hs (record m.message { headers = [] })) [
    | none ↦ crashed
    | some message ↦ made (record m { message = message })
  ]
  set_headers s m = refused headers_no_array
