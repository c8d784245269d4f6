-- ===== src/Http/Message/Lookup.antt =====
-- What Message::getHeader of src/classes/ION/HTTP/Message.c returns after the methods that change headers.
use php_ion.Base.{
  ℕ, Option, none, some, List, [], ◌∷◌, ◌++◌, if◌then◌else◌, Bytes, ◌≡◌, refl, ap, sym, ◌∙◌,
  Bool-cases, Option-cases, inl, inr,
}
use php_ion.Promisor.Handlers.{same_bytes}
use php_ion.Promisor.Handlers.Removal.{eq_of_same_bytes}
use php_ion.Http.Message.{
  Value, Message, find, delete, replace, store_header_value, or_empty_array, get_header,
  with_header, with_added_header, without_header,
}
use php_ion.Http.Message.Headers.{
  Distinct, find-delete, find-delete_other, find-append_new, find-append_other, find-replace,
  find-replace_other, Distinct-append, Distinct-delete, Distinct-replace,
}
use php_ion.Http.Message.Stored.{given, Strings, store_header_value_lem}

module _ (lower : Bytes → Bytes) (to_text : ℕ → Option Bytes) where
  get_header_lem :
      (m : Message) (name : Bytes)
      → get_header lower m name ≡ or_empty_array (find (lower name) m.headers)
  unfolding get_header
  get_header_lem m name = refl

  added_new :
      (m : Message) (name : Bytes) (v : Value)
      → find (lower name) m.headers ≡ none
      → (with_added_header lower to_text m name v).headers
        ≡ m.headers ++ (lower name, store_header_value to_text [] v) ∷ []
  unfolding with_added_header
  added_new m name v e = rw (e, with_added_header) refl

  added_to :
      (m : Message) (name : Bytes) (v : Value) (old : List Bytes)
      → find (lower name) m.headers ≡ some old
      → (with_added_header lower to_text m name v).headers
        ≡ replace (lower name) (store_header_value to_text old v) m.headers
  unfolding with_added_header
  added_to m name v old e = rw (e, with_added_header) refl

  with_header_stored :
      (m : Message) (name other : Bytes) (v : Value)
      → Distinct m.headers
      → get_header lower (with_header lower to_text m name v) other ≡ (
          if same_bytes (lower name) (lower other)
          then store_header_value to_text [] v
          else get_header lower m other)
  unfolding with_header
  with_header_stored m name other v d =
      get_header_lem (with_header lower to_text m name v) other
      ∙ elim (Bool-cases (same_bytes (lower name) (lower other))) [
        | inl e ↦ rw e (
            rw⁻¹ (eq_of_same_bytes (lower name) (lower other) e) (
              ap or_empty_array (
                find-append_new (lower name) (store_header_value to_text [] v)
                  (delete (lower name) m.headers) (find-delete (lower name) m.headers d))))
        | inr e ↦ rw e (
            ap or_empty_array (
              find-append_other (lower name) (lower other) (store_header_value to_text [] v)
                (delete (lower name) m.headers) e
              ∙ find-delete_other (lower name) (lower other) m.headers e)
            ∙ sym (get_header_lem m other))
      ]

  -- In a message whose headers have different names: let the values of the argument (an array, or one
  -- value) add the given strings. After withHeader of a name and that argument, getHeader of any name
  -- that has the same lower-case letters returns exactly these strings, and getHeader of any other
  -- name returns what it did before.
  pub get_header-with_header :
      (m : Message) (name other : Bytes) (v : Value) (texts : List Bytes)
      → Distinct m.headers
      → Strings to_text (given v) texts
      → get_header lower (with_header lower to_text m name v) other
        ≡ (if same_bytes (lower name) (lower other) then texts else get_header lower m other)
  get_header-with_header m name other v texts d r =
      with_header_stored m name other v d
      ∙ ap (λ l. if same_bytes (lower name) (lower other) then l else get_header lower m other)
          (store_header_value_lem to_text [] v texts r)

  with_added_header_stored :
      (m : Message) (name other : Bytes) (v : Value)
      → get_header lower (with_added_header lower to_text m name v) other ≡ (
          if same_bytes (lower name) (lower other)
          then store_header_value to_text (get_header lower m other) v
          else get_header lower m other)
  with_added_header_stored m name other v =
      get_header_lem (with_added_header lower to_text m name v) other
      ∙ elim (Option-cases (find (lower name) m.headers)) [
        | inl e ↦
            rw (added_new m name v e) (elim (Bool-cases (same_bytes (lower name) (lower other))) [
              | inl t ↦
                  rw (t, get_header_lem m other)
                    (rw⁻¹ (eq_of_same_bytes (lower name) (lower other) t) (
                      rw e (
                        ap or_empty_array (
                          find-append_new (lower name) (store_header_value to_text [] v) m.headers
                            e))))
              | inr f ↦ rw f (
                  ap or_empty_array (
                    find-append_other (lower name) (lower other) (store_header_value to_text [] v)
                      m.headers f)
                  ∙ sym (get_header_lem m other))
            ])
        | inr (old, e) ↦
            rw (added_to m name v old e)
              (elim (Bool-cases (same_bytes (lower name) (lower other))) [
                | inl t ↦
                    rw (t, get_header_lem m other)
                      (rw⁻¹ (eq_of_same_bytes (lower name) (lower other) t) (
                        rw e (
                          ap or_empty_array (
                            find-replace (lower name) old (store_header_value to_text old v)
                              m.headers e))))
                | inr f ↦ rw f (
                    ap or_empty_array (
                      find-replace_other (lower name) (lower other)
                        (store_header_value to_text old v) m.headers f)
                    ∙ sym (get_header_lem m other))
              ])
      ]

  -- Let the values of the argument (an array, or one value) add the given strings. After withAddedHeader
  -- of a name and that argument, getHeader of any name that has the same lower-case letters returns
  -- what it did before with these strings behind it, and getHeader of any other name returns what it
  -- did before.
  pub get_header-with_added_header :
      (m : Message) (name other : Bytes) (v : Value) (texts : List Bytes)
      → Strings to_text (given v) texts
      → get_header lower (with_added_header lower to_text m name v) other ≡ (
          if same_bytes (lower name) (lower other)
          then get_header lower m other ++ texts
          else get_header lower m other)
  get_header-with_added_header m name other v texts r =
      with_added_header_stored m name other v
      ∙ ap (λ l. if same_bytes (lower name) (lower other) then l else get_header lower m other)
          (store_header_value_lem to_text (get_header lower m other) v texts r)

  -- In a message whose headers have different names: after withoutHeader of a name, getHeader of any
  -- name that has the same lower-case letters returns the empty array, and getHeader of any other
  -- name returns what it did before.
  pub get_header-without_header :
      (m : Message) (name other : Bytes)
      → Distinct m.headers
      → get_header lower (without_header lower m name) other
        ≡ (if same_bytes (lower name) (lower other) then [] else get_header lower m other)
  unfolding without_header
  get_header-without_header m name other d =
      get_header_lem (without_header lower m name) other
      ∙ elim (Bool-cases (same_bytes (lower name) (lower other))) [
        | inl e ↦ rw e (
            rw⁻¹ (eq_of_same_bytes (lower name) (lower other) e)
              (ap or_empty_array (find-delete (lower name) m.headers d)))
        | inr e ↦ rw e (
            ap or_empty_array (find-delete_other (lower name) (lower other) m.headers e)
            ∙ sym (get_header_lem m other))
      ]

  -- The three methods keep the list one of a hash table.
  headers-Distinct :
      (m : Message) (name : Bytes) (v : Value)
      → Distinct m.headers
      → Distinct (with_header lower to_text m name v).headers
        × Distinct (with_added_header lower to_text m name v).headers
        × Distinct (without_header lower m name).headers
  unfolding with_header without_header
  headers-Distinct m name v d = (
    Distinct-append (lower name) (store_header_value to_text [] v) (delete (lower name) m.headers)
        (find-delete (lower name) m.headers d) (Distinct-delete (lower name) m.headers d),
    elim (Option-cases (find (lower name) m.headers)) [
      | inl e ↦
          rw (added_new m name v e)
            (Distinct-append (lower name) (store_header_value to_text [] v) m.headers e d)
      | inr (old, e) ↦
          rw (added_to m name v old e)
            (Distinct-replace (lower name) (store_header_value to_text old v) m.headers d)
    ],
    Distinct-delete (lower name) m.headers d,
  )
