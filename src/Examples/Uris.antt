-- ===== src/Examples/Uris.antt =====
-- URIs of src/classes/ION/URI.c.
use php_ion.Base.{
  ℕ, ◌≡◌, ◌↔◌, ◌⊎◌, ◌≢◌, refl, Option, none, some, List, [], ◌∷◌, ◌++◌, Bytes, length, replicate,
  length-replicate, arith,
}
use php_ion.Uri.{Uri, uri_port, uri_host}
use php_ion.Uri.Text.{stringify, get_authority}
use php_ion.Uri.Text.Render.{render, authority}
use php_ion.Uri.Text.Layout.{stringify-render, get_authority-render}
use php_ion.Uri.Parse.{PhpUrl, parse, parsed, components, parse_exact}
use php_ion.Uri.Factory.{Zval, string, other}

-- a://u:p@h:8080/?q#f
abbrev sample : Uri
sample = record {
  scheme = some (b'a' ∷ []);
  user = some (b'u' ∷ []);
  pass = some (b'p' ∷ []);
  host = some (b'h' ∷ []);
  port = 8080;
  path = some (b'/' ∷ []);
  query = some (b'q' ∷ []);
  fragment = some (b'f' ∷ []);
}

-- Memory of sevens.
abbrev memory : ℕ → Bytes
memory n = replicate n 7

length-memory : (n : ℕ) → length (memory n) ≡ n
length-memory n = length-replicate n 7

stringify-render_example :
    stringify memory sample 255
    ≡ some (record { len = length (render sample 255); val = render sample 255 ++ 0 ∷ [] })
stringify-render_example = stringify-render memory sample 255 length-memory (omega arith)

get_authority-render_example :
    get_authority memory sample
    ≡ some (record { len = length (authority sample); val = authority sample ++ 0 ∷ [] })
get_authority-render_example = get_authority-render memory sample length-memory (omega arith)

abbrev url : PhpUrl
url = record {
  scheme = some (b'a' ∷ []);
  user = none;
  pass = none;
  host = some (b'h' ∷ []);
  port = 80;
  path = none;
  query = none;
  fragment = none;
}

abbrev php_parse : Bytes → Option PhpUrl
php_parse [] = none
php_parse (c ∷ rest) = some url

parse_exact_example :
    (parse php_parse (some (b'a' ∷ [])) ≡ parsed (components url))
    ↔ ((url.host ≡ none) × (url.user ≡ none) ⊎ (url.host ≢ none) × (url.user ≢ none))
parse_exact_example = parse_exact php_parse (b'a' ∷ []) url refl

-- The port comes twice, and 70000 is cut to 16 bits.
abbrev options : List (ℕ × Zval)
options = (uri_port, other 80) ∷ (uri_host, string (b'h' ∷ [])) ∷ (uri_port, other 70000) ∷ []

abbrev z_lval : Zval → ℕ
z_lval (string s) = 0
z_lval (other v) = v
