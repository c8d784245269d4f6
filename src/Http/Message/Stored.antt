-- ===== src/Http/Message/Stored.antt =====
-- What ion_http_message_store_header_value of src/classes/ION/HTTP/Message.c appends.
use php_ion.Base.{
  ℕ, Option, none, some, List, [], ◌∷◌, ◌++◌, Bytes, ◌≡◌, refl, ap, ◌∙◌, append-nil, Option-cases,
  inl, inr,
}
use php_ion.Http.Message.{
  Zval, string, other, Value, array, single, header_text, header_texts, store_header_value,
}

-- The values of an argument in their order.
abbrev pub given : Value → List Zval
given (array vs) = vs
given (single v) = v ∷ []

-- The strings that a list of values adds: a string as it is, another value by its conversion, and after
-- the first conversion that throws nothing more.
pub data Strings (to_text : ℕ → Option Bytes) : List Zval → List Bytes → Type 0 where
  none_left : Strings to_text [] []
  as_is :
      (s : Bytes) (vs : List Zval) (texts : List Bytes)
      → Strings to_text vs texts
      → Strings to_text (string s ∷ vs) (s ∷ texts)
  converted :
      (z : ℕ) (s : Bytes) (vs : List Zval) (texts : List Bytes)
      → to_text z ≡ some s
      → Strings to_text vs texts
      → Strings to_text (other z ∷ vs) (s ∷ texts)
  thrown : (z : ℕ) (vs : List Zval) → to_text z ≡ none → Strings to_text (other z ∷ vs) []

header_texts_lem :
    (to_text : ℕ → Option Bytes) (vs : List Zval) (texts : List Bytes)
    → Strings to_text vs texts
    → header_texts to_text vs ≡ texts
unfolding header_texts header_text
header_texts_lem to_text _ _ none_left = refl
header_texts_lem to_text _ _ (as_is s vs texts r) =
    ap (λ l. s ∷ l) (header_texts_lem to_text vs texts r)
header_texts_lem to_text _ _ (converted z s vs texts e r) =
    simp (header_texts, header_text, e, header_texts_lem to_text vs texts r)
header_texts_lem to_text _ _ (thrown z vs e) = simp (header_texts, header_text, e)

single_lem :
    (to_text : ℕ → Option Bytes) (header : List Bytes) (v : Zval)
    → store_header_value to_text header (single v) ≡ header ++ header_texts to_text (v ∷ [])
unfolding store_header_value header_texts header_text
single_lem to_text header (string s) = refl
single_lem to_text header (other z) = elim (Option-cases (to_text z)) [
  | inl e ↦ simp (store_header_value, header_texts, header_text, e, append-nil)
  | inr (s, e) ↦ simp (store_header_value, header_texts, header_text, e)
]

pub store_header_value_lem :
    (to_text : ℕ → Option Bytes) (header : List Bytes) (v : Value) (texts : List Bytes)
    → Strings to_text (given v) texts
    → store_header_value to_text header v ≡ header ++ texts
unfolding store_header_value
store_header_value_lem to_text header (array vs) texts r =
    ap (λ l. header ++ l) (header_texts_lem to_text vs texts r)
store_header_value_lem to_text header (single v) texts r =
    single_lem to_text header v ∙ ap (λ l. header ++ l) (header_texts_lem to_text (v ∷ []) texts r)
