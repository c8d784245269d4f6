-- ===== src/Http/Message.antt =====
-- `struct _ion_http_message` of src/ion/ion_http.h, as far as src/classes/ION/HTTP/Message.c uses it, and the
-- methods of that file. The `with` methods change `$this` and return it, so that the result of each is
-- its receiver as well. The hash table of the
-- headers is a list in its order; the array of a header is the list of its strings. That PHP code
-- may hold one of these arrays at the same time is not modelled.
pub mod Headers
pub mod Lookup
pub mod Stored
use php_ion.Base.{
  ℕ, Option, none, some, List, [], ◌∷◌, ◌++◌, Bool, true, false, if◌then◌else◌, Bytes,
}
use php_ion.Promisor.Handlers.{same_bytes}

-- A PHP value in a header: a string, or one that `convert_to_string` is called on.
pub data Zval : Type 0 where
  string : Bytes → Zval
  other : ℕ → Zval

-- The argument `value`, by the test for IS_ARRAY.
pub data Value : Type 0 where
  array : List Zval → Value
  single : Zval → Value

pub record Message : Type 0 where
  pub headers : List (Bytes × List Bytes)
  pub version : Option Bytes
  pub body : Option Bytes

-- ion_http_message_init
abbrev pub new_message : Message
new_message = record { headers = []; version = none; body = none }

-- ION_HTTP_VERSION_DEFAULT
abbrev pub version_default : Bytes
version_default = 49 ∷ 46 ∷ 49 ∷ []

abbrev pub or_default : Bytes → Option Bytes → Bytes
or_default d none = d
or_default d (some b) = b

abbrev pub or_empty_array : Option (List Bytes) → List Bytes
or_empty_array none = []
or_empty_array (some v) = v

unfoldable pub get_protocol_version : Message → Bytes
get_protocol_version m = or_default version_default m.version

unfoldable pub with_protocol_version : Message → Bytes → Message
with_protocol_version m version = record m { version = some version }

unfoldable pub get_headers : Message → List (Bytes × List Bytes)
get_headers m = m.headers

unfoldable pub with_body : Message → Bytes → Message
with_body m body = record m { body = some body }

unfoldable pub get_body : Message → Bytes
get_body m = or_default [] m.body

-- zend_hash_find, zend_hash_del, and the store through the pointer that was found
unfoldable pub find : Bytes → List (Bytes × List Bytes) → Option (List Bytes)
find name [] = none
find name ((k, v) ∷ rest) = if same_bytes k name then some v else find name rest

unfoldable pub delete : Bytes → List (Bytes × List Bytes) → List (Bytes × List Bytes)
delete name [] = []
delete name ((k, v) ∷ rest) =
    let others = delete name rest in if same_bytes k name then rest else (k, v) ∷ others

unfoldable pub replace : Bytes → List Bytes → List (Bytes × List Bytes) → List (Bytes × List Bytes)
replace name new [] = []
replace name new ((k, v) ∷ rest) =
    let others = replace name new rest in
    if same_bytes k name then (k, new) ∷ rest else (k, v) ∷ others

-- `to_text` is convert_to_string, and `none` is an exception.
module _ (to_text : ℕ → Option Bytes) where
  -- The string that one value adds; `none` after an exception.
  unfoldable pub header_text : Zval → Option Bytes
  header_text (string s) = some s
  header_text (other z) = to_text z

  -- The loop over an array stops at the first exception.
  unfoldable pub header_texts : List Zval → List Bytes
  unfolding header_text
  header_texts [] = []
  header_texts (v ∷ rest) = elim (header_text v) [ none ↦ [] | some s ↦ s ∷ header_texts rest ]

  -- ion_http_message_store_header_value
  unfoldable pub store_header_value : List Bytes → Value → List Bytes
  unfolding header_texts
  store_header_value header (array values) = header ++ header_texts values
  store_header_value header (single v) = elim (header_text v) [
    | none ↦ header
    | some s ↦ header ++ s ∷ []
  ]

-- `lower` is zend_string_tolower.
module _ (lower : Bytes → Bytes) where
  unfoldable pub has_header : Message → Bytes → Bool
  unfolding find
  has_header m name = elim (find (lower name) m.headers) [ none ↦ false | some v ↦ true ]

  unfoldable pub get_header : Message → Bytes → List Bytes
  unfolding find
  get_header m name = or_empty_array (find (lower name) m.headers)

  -- `implode` is php_implode; the separator is ", ".
  unfoldable pub get_header_line : (Bytes → List Bytes → Bytes) → Message → Bytes → Bytes
  unfolding find
  get_header_line implode m name = elim (find (lower name) m.headers) [
    | none ↦ []
    | some v ↦ implode (44 ∷ 32 ∷ []) v
  ]

  unfoldable pub without_header : Message → Bytes → Message
  unfolding delete
  without_header m name = record m { headers = delete (lower name) m.headers }

  -- ion_http_message_with_header
  unfoldable pub with_header : (ℕ → Option Bytes) → Message → Bytes → Value → Message
  unfolding delete store_header_value
  with_header to_text m name value = record m {
    headers =
        delete (lower name) m.headers ++ (lower name, store_header_value to_text [] value) ∷ [];
  }

  -- ion_http_message_with_added_header
  unfoldable pub with_added_header : (ℕ → Option Bytes) → Message → Bytes → Value → Message
  unfolding find replace store_header_value
  with_added_header to_text m name value = elim (find (lower name) m.headers) [
    | none ↦ record m {
      headers = m.headers ++ (lower name, store_header_value to_text [] value) ∷ [];
    }
    | some old ↦ record m {
      headers = replace (lower name) (store_header_value to_text old value) m.headers;
    }
  ]
