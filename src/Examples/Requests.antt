-- ===== src/Examples/Requests.antt =====
-- The models of the HTTP parser, requests and responses on concrete inputs.
use php_ion.Base.{
  ℕ, ◌<◌, ◌≤◌, ◌≡◌, ◌≢◌, refl, Option, none, some, [], ◌∷◌, ◌++◌, Bytes, map, false, true, arith,
}
use php_ion.Uri.{empty}
use php_ion.Uri.Parse.{PhpUrl, parse_without_user}
use php_ion.Http.Message.{new_message, with_body}
use php_ion.Http.Parser.{
  Filling, start, url, status_line, body, message_complete, parse_request, parse_response,
  version_of,
}
use php_ion.Http.Parser.Fills.{header_events, add_all, response-built}
use php_ion.Http.Factory.{Setting, text, number, uri_object, headers, made}
use php_ion.Http.Response.{factory, with_status, get_status_code}
use php_ion.Http.Response.Status.{response_status}
use php_ion.Http.Request
use php_ion.Http.Request.Built.{header_array, request-factory}

abbrev keep_case : Bytes → Bytes
keep_case b = b

abbrev no_text : ℕ → Option Bytes
no_text z = none

abbrev no_conversion : Setting → Bytes
no_conversion s = []

-- A path is all that this parser of URLs knows.
abbrev path_url : Bytes → PhpUrl
path_url b = record {
  scheme = none;
  user = none;
  pass = none;
  host = none;
  port = 0;
  path = some b;
  query = none;
  fragment = none;
}

abbrev path_only : Bytes → Option PhpUrl
path_only b = some (path_url b)

abbrev no_print : ℕ → ℕ → Bytes
no_print a b = []

response-built_example :
    parse_response keep_case path_only (
      status_line 200 (79 ∷ 75 ∷ [])
      ∷ (header_events ((97 ∷ [], 49 ∷ []) ∷ (97 ∷ [], 50 ∷ []) ∷ [])
          ++ (map body ((1 ∷ []) ∷ (2 ∷ []) ∷ []) ++ message_complete ∷ [])))
    ≡ some (record start {
      message =
          with_body
            (add_all keep_case path_only no_text
              ((97 ∷ [], 49 ∷ []) ∷ (97 ∷ [], 50 ∷ []) ∷ [])
              new_message)
            (1 ∷ 2 ∷ []);
      status = 200;
      reason = some (79 ∷ 75 ∷ []);
      complete = true;
    })
response-built_example =
    response-built keep_case path_only no_text 200 (79 ∷ 75 ∷ [])
      ((97 ∷ [], 49 ∷ []) ∷ (97 ∷ [], 50 ∷ []) ∷ []) (1 ∷ []) ((2 ∷ []) ∷ [])

response_status_example :
    (factory keep_case no_text no_conversion (some ((2, number 404) ∷ []))
      ≡ made (record start { status = 404 }))
    × ((m' : Filling) × ((with_status 404 none start ≡ made m')
          × ((404 < 256 → get_status_code m' ≡ 404) × (256 ≤ 404 → get_status_code m' ≢ 404))))
response_status_example =
    response_status keep_case no_text no_conversion 404 none start (omega arith) refl

abbrev root : Bytes
root = b'/' ∷ []

abbrev get : Bytes
get = b'G' ∷ b'E' ∷ b'T' ∷ []

request-factory_example :
    (m : Filling) × ((parse_request keep_case path_only no_print
          (url get root
            ∷ (header_events ((97 ∷ [], 49 ∷ []) ∷ [])
                ++ (map body ((1 ∷ []) ∷ (2 ∷ []) ∷ []) ++ message_complete ∷ [])))
          1
          1
        ≡ some m)
      × (Request.factory keep_case no_text no_conversion (
            (1, uri_object (record empty { path = some root }))
            ∷ (4, text get)
            ∷ (5, headers (header_array ((97 ∷ [], 49 ∷ []) ∷ [])))
            ∷ (6, text (1 ∷ 2 ∷ []))
            ∷ (3, text (b'1' ∷ b'.' ∷ b'1' ∷ []))
            ∷ [])
          ≡ made (record m { complete = false }))
      × (m.complete ≡ true))
unfolding version_of
request-factory_example =
    request-factory keep_case path_only no_text no_conversion no_print 1 1 get root
      (record empty { path = some root }) ((97 ∷ [], 49 ∷ []) ∷ []) (1 ∷ []) ((2 ∷ []) ∷ [])
      (parse_without_user path_only root (path_url root) refl refl)
