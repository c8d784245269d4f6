-- ===== src/Http/Request/Built.antt =====
-- Request::parse and Request::factory of src/classes/ION/HTTP/Request.c make the same request.
use php_ion.Base.{
  ℕ, ◌≡◌, refl, ap, ◌∙◌, Option, none, some, List, [], ◌∷◌, ◌++◌, map, Bool, true, false, Bytes,
  ◌>>=◌,
}
use php_ion.Uri.{Uri}
use php_ion.Uri.Parse.{PhpUrl, parse, parsed}
use php_ion.Http.Message.{
  Message, Value, new_message, string, single, with_body, with_protocol_version,
}
use php_ion.Http.Parser.{
  Filling, Step, Event, start, url, body, message_complete, next, stopped, on_url, handle, execute,
  version_of, parse_request,
}
use php_ion.Http.Parser.Fills.{header_events, join, add_all, message-filled}
use php_ion.Http.Factory.{
  Made, made, refused, crashed, Setting, text, uri_object, headers, add_headers, set_headers,
  option_text,
}
use php_ion.Http.Request.{with_method, set_uri, set_method, set_option, set_options, factory}

-- The array of headers that an option holds.
abbrev pub header_array : List (Bytes × Bytes) → List (Option Bytes × Value)
header_array [] = []
header_array ((name, value) ∷ rest) = (some name, single (string value)) ∷ header_array rest

module _ (lower : Bytes → Bytes) (php_url_parse : Bytes → Option PhpUrl)
    (to_text : ℕ → Option Bytes) (convert : Setting → Bytes) where
  add_headers-add_all :
      (hs : List (Bytes × Bytes)) (m : Message)
      → add_headers lower to_text convert (header_array hs) m
        ≡ some (add_all lower php_url_parse to_text hs m)
  unfolding add_headers
  add_headers-add_all [] m = refl
  add_headers-add_all ((name, value) ∷ hs) m = add_headers-add_all hs _

  -- The request of both.
  abbrev request : Uri → Bytes → List (Bytes × Bytes) → Bytes → Bytes → Bool → Filling
  request u method hs all version complete = record start {
    message = record (add_all lower php_url_parse to_text hs new_message) {
      body = some all;
      version = some version;
    };
    uri = some u;
    method = some method;
    complete = complete;
  }

  set_headers-add_all :
      (hs : List (Bytes × Bytes)) (m : Filling)
      → set_headers lower to_text convert (headers (header_array hs)) m
        ≡ made (record m {
          message = add_all lower php_url_parse to_text hs (record m.message { headers = [] });
        })
  unfolding set_headers
  set_headers-add_all hs m =
      simp (add_headers-add_all hs (record m.message { headers = [] }), set_headers) refl

  on_url-parsed :
      (method at : Bytes) (u : Uri)
      → parse php_url_parse (some at) ≡ parsed u
      → on_url lower php_url_parse method at start
        ≡ next (record start { uri = some u; method = some method })
  unfolding on_url
  on_url-parsed method at u h = simp (h, on_url) refl

  url-first :
      (method at : Bytes) (u : Uri) (xs : List Event)
      → parse php_url_parse (some at) ≡ parsed u
      → execute lower php_url_parse (url method at ∷ xs) start
        ≡ execute lower php_url_parse xs (record start { uri = some u; method = some method })
  unfolding execute handle
  url-first method at u xs h =
      ap
        (λ a. elim a as (λ _. Option Filling) [
          | next m ↦ execute lower php_url_parse xs m
          | stopped ↦ some start
          | Step.crashed ↦ none
        ])
        (on_url-parsed method at u h)

  -- A request whose text http_parser reads as a method and a URI that can be parsed, headers, a body in
  -- one or more pieces and the end, with a version, is the request that factory() makes of the same
  -- URI, method, headers, whole body and version, and it is complete, which the other is not.
  pub request-factory :
      (print : ℕ → ℕ → Bytes) (major minor : ℕ) (method at : Bytes) (u : Uri)
      (hs : List (Bytes × Bytes)) (p : Bytes) (ps : List Bytes)
      → parse php_url_parse (some at) ≡ parsed u
      → (m : Filling) × ((parse_request lower php_url_parse print
              (url method at ∷ (header_events hs ++ (map body (p ∷ ps) ++ message_complete ∷ [])))
              major
              minor
            ≡ some m)
          × (factory lower to_text convert (
                (1, uri_object u)
                ∷ (4, text method)
                ∷ (5, headers (header_array hs))
                ∷ (6, text (join (p ∷ ps)))
                ∷ (3, text (version_of print major minor))
                ∷ [])
              ≡ made (record m { complete = false }))
          × (m.complete ≡ true))
  unfolding parse_request factory set_options set_option set_uri set_method with_method option_text
      with_body with_protocol_version
  request-factory print major minor method at u hs p ps h = (
    request u method hs (join (p ∷ ps)) (version_of print major minor) true,
    (
      ap
          (λ (o : Option Filling). o >>= (λ (m : Filling). some (record m {
            message = record m.message { version = some (version_of print major minor) };
          })))
          (url-first method at u (header_events hs ++ (map body (p ∷ ps) ++ message_complete ∷ []))
              h
            ∙ message-filled lower php_url_parse to_text hs p ps
                (record start { uri = some u; method = some method }) refl refl),
      ap
          (λ a. elim a as (λ _. Made) [
            | made m ↦
                set_options lower to_text convert
                  ((6, text (join (p ∷ ps))) ∷ (3, text (version_of print major minor)) ∷ []) m
            | refused f ↦ refused f
            | crashed ↦ crashed
          ])
          (set_headers-add_all hs (record start { uri = some u; method = some method })),
      refl,
    ),
  )
