-- ===== src/Examples/Messages.antt =====
-- A message of src/classes/ION/HTTP/Message.c.
use php_ion.Base.{ℕ, ◌≡◌, refl, Option, none, some, [], ◌∷◌, ◌++◌, ◌==◌, Bytes, if◌then◌else◌}
use php_ion.Promisor.Handlers.{same_bytes}
use php_ion.Http.Message.{
  Message, new_message, Value, array, string, other, get_header, with_header, with_added_header,
  without_header,
}
use php_ion.Http.Message.Headers.{Distinct}
use php_ion.Http.Message.Lookup.{
  get_header-with_header, get_header-with_added_header, get_header-without_header,
}
use php_ion.Http.Message.Stored.{Strings, as_is, converted, thrown, given}

-- Lower case for the one letter that the names here have.
abbrev lower : Bytes → Bytes
lower [] = []
lower (c ∷ rest) = (if c == 88 then 120 else c) ∷ rest

abbrev to_text : ℕ → Option Bytes
to_text z = if z == 0 then none else some (48 ∷ [])

abbrev hello : Message
hello = record new_message { headers = (120 ∷ [], (49 ∷ []) ∷ []) ∷ (121 ∷ [], []) ∷ [] }

hello-Distinct : Distinct hello.headers
unfolding same_bytes
hello-Distinct = ((refl, tt), (tt, tt))

-- A string, a value that becomes one, and a value whose conversion throws.
abbrev values : Value
values = array (string (50 ∷ []) ∷ other 1 ∷ other 0 ∷ string [] ∷ [])

values-Strings : Strings to_text (given values) ((50 ∷ []) ∷ (48 ∷ []) ∷ [])
values-Strings = as_is _ _ _ (converted 1 _ _ _ refl (thrown 0 _ refl))

get_header-with_header_example :
    get_header lower (with_header lower to_text hello (88 ∷ []) values) (120 ∷ []) ≡ (
      if same_bytes (lower (88 ∷ [])) (lower (120 ∷ []))
      then (50 ∷ []) ∷ (48 ∷ []) ∷ []
      else get_header lower hello (120 ∷ []))
get_header-with_header_example =
    get_header-with_header lower to_text hello (88 ∷ []) (120 ∷ []) values
      ((50 ∷ []) ∷ (48 ∷ []) ∷ []) hello-Distinct values-Strings

get_header-with_added_header_example :
    get_header lower (with_added_header lower to_text hello (88 ∷ []) values) (120 ∷ []) ≡ (
      if same_bytes (lower (88 ∷ [])) (lower (120 ∷ []))
      then get_header lower hello (120 ∷ []) ++ (50 ∷ []) ∷ (48 ∷ []) ∷ []
      else get_header lower hello (120 ∷ []))
get_header-with_added_header_example =
    get_header-with_added_header lower to_text hello (88 ∷ []) (120 ∷ []) values
      ((50 ∷ []) ∷ (48 ∷ []) ∷ []) values-Strings

get_header-without_header_example :
    get_header lower (without_header lower hello (88 ∷ [])) (121 ∷ []) ≡ (
      if same_bytes (lower (88 ∷ [])) (lower (121 ∷ []))
      then []
      else get_header lower hello (121 ∷ []))
get_header-without_header_example =
    get_header-without_header lower to_text hello (88 ∷ []) (121 ∷ []) hello-Distinct
