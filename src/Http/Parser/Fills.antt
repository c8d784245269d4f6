-- ===== src/Http/Parser/Fills.antt =====
-- The message that the callbacks of src/ion/ion_http.c fill, against the methods of
-- src/classes/ION/HTTP/Message.c.
use php_ion.Base.{
  ℕ, ◌≡◌, refl, sym, ap, ◌∙◌, Option, none, some, List, [], ◌∷◌, ◌++◌, map, true, Bytes,
  append_assoc, append-nil, Option-cases, inl, inr,
}
use php_ion.Http.Message.{
  Message, new_message, with_body, Value, string, single, find, with_added_header,
  store_header_value,
}
use php_ion.Http.Parser.{
  Filling, Event, start, header_name, header_value, body, message_complete, buffering, add_value,
  on_header_value, on_header_name, on_body, on_complete, on_status, status_line, handle, execute,
  parse_response,
}
use php_ion.Uri.Parse.{PhpUrl}

-- The events of headers and of the pieces of a body.
abbrev pub header_events : List (Bytes × Bytes) → List Event
header_events [] = []
header_events ((name, value) ∷ rest) = header_name name ∷ header_value value ∷ header_events rest

abbrev pub join : List Bytes → Bytes
join [] = []
join (d ∷ ds) = d ++ join ds

module _ (lower : Bytes → Bytes) (php_url_parse : Bytes → Option PhpUrl)
    (to_text : ℕ → Option Bytes) where
  -- withAddedHeader() of the same names and values, one after the other.
  abbrev pub add_all : List (Bytes × Bytes) → Message → Message
  add_all [] m = m
  add_all ((name, value) ∷ rest) m =
      add_all rest (with_added_header lower to_text m name (single (string value)))

  add_value_lem :
      (m : Message) (name value : Bytes)
      → with_added_header lower to_text m name (single (string value))
        ≡ record m { headers = add_value (lower name) value m.headers }
  unfolding with_added_header add_value store_header_value
  add_value_lem m name value = elim (Option-cases (find (lower name) m.headers)) [
    | inl h ↦ simp (h, with_added_header, add_value) refl
    | inr (old, h) ↦ simp (h, with_added_header, add_value) refl
  ]

  headers-add_all :
      (hs : List (Bytes × Bytes)) (xs : List Event) (m : Filling)
      → m.buffer ≡ none
      → execute lower php_url_parse (header_events hs ++ xs) m
        ≡ execute lower php_url_parse xs
            (record m { message = add_all hs m.message; buffer = none })
  unfolding execute handle on_header_name on_header_value
  headers-add_all [] xs m h = ap (λ b. execute lower php_url_parse xs (record m { buffer = b })) h
  headers-add_all ((name, value) ∷ hs) xs m h =
      headers-add_all hs xs
        (record m {
          message = record m.message { headers = add_value (lower name) value m.message.headers };
          buffer = none;
        })
        refl
      ∙ ap
          (λ x. execute lower php_url_parse xs (record m { message = add_all hs x; buffer = none }))
          (sym (add_value_lem m.message name value))

  added-body :
      (m : Message) (name : Bytes) (v : Value)
      → (with_added_header lower to_text m name v).body ≡ m.body
  unfolding with_added_header
  added-body m name v = elim (Option-cases (find (lower name) m.headers)) [
    | inl h ↦ simp (h, with_added_header) refl
    | inr (old, h) ↦ simp (h, with_added_header) refl
  ]

  add_all-body : (hs : List (Bytes × Bytes)) (m : Message) → (add_all hs m).body ≡ m.body
  add_all-body [] m = refl
  add_all-body ((name, value) ∷ hs) m =
      add_all-body hs _ ∙ added-body m name (single (string value))

  body-pieces :
      (ps : List Bytes) (b : Bytes) (xs : List Event) (m : Filling)
      → m.message.body ≡ some b
      → execute lower php_url_parse (map body ps ++ xs) m
        ≡ execute lower php_url_parse xs
            (record m { message = record m.message { body = some (b ++ join ps) } })
  unfolding execute handle on_body buffering
  body-pieces [] b xs m h =
      ap
        (λ o. execute lower php_url_parse xs (record m { message = record m.message { body = o } }))
        (h ∙ ap some (sym (append-nil b)))
  body-pieces (p ∷ ps) b xs m h =
      ap
        (λ o.
          execute lower php_url_parse (map body ps ++ xs)
            (record m { message = record m.message { body = some (buffering o p) } }))
        h
      ∙ body-pieces ps (b ++ p) xs
          (record m { message = record m.message { body = some (b ++ p) } }) refl
      ∙ ap
          (λ x.
            execute lower php_url_parse xs
              (record m { message = record m.message { body = some x } }))
          (append_assoc b p (join ps))

  -- Headers, pieces of a body, and the end, from any message that has neither.
  pub message-filled :
      (hs : List (Bytes × Bytes)) (p : Bytes) (ps : List Bytes) (m : Filling)
      → m.message ≡ new_message
      → m.buffer ≡ none
      → execute lower php_url_parse
          (header_events hs ++ (map body (p ∷ ps) ++ message_complete ∷ []))
          m
        ≡ some (record m {
          message = record (add_all hs new_message) { body = some (join (p ∷ ps)) };
          buffer = none;
          complete = true;
        })
  unfolding execute handle on_complete on_body buffering
  message-filled hs p ps m fresh h =
      headers-add_all hs (map body (p ∷ ps) ++ message_complete ∷ []) m h
      ∙ ap
          (λ x.
            execute lower php_url_parse (map body (p ∷ ps) ++ message_complete ∷ [])
              (record m { message = add_all hs x; buffer = none }))
          fresh
      ∙ ap
          (λ o.
            execute lower php_url_parse (map body ps ++ message_complete ∷ [])
              (filled (some (buffering o p))))
          (add_all-body hs new_message)
      ∙ body-pieces ps p (message_complete ∷ []) (filled (some p)) refl
    where
      filled : Option Bytes → Filling
      filled o = record m { message = record (add_all hs new_message) { body = o }; buffer = none }

  -- A response whose text http_parser reads as a status, headers, a body in one or more pieces and the
  -- end, is the message that withAddedHeader() of each header in turn and withBody() of the whole body
  -- make, with the status and its reason, and is complete. The pieces of the body do not matter.
  pub response-built :
      (code : ℕ) (why : Bytes) (hs : List (Bytes × Bytes)) (p : Bytes) (ps : List Bytes)
      → parse_response lower php_url_parse (
          status_line code why ∷ (header_events hs ++ (map body (p ∷ ps) ++ message_complete ∷ [])))
        ≡ some (record start {
          message = with_body (add_all hs new_message) (join (p ∷ ps));
          status = code;
          reason = some why;
          complete = true;
        })
  unfolding parse_response execute handle on_status with_body
  response-built code why hs p ps =
      message-filled hs p ps (record start { status = code; reason = some why }) refl refl
