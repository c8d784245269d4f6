-- ===== src/Uri/Parse.antt =====
-- `ion_uri_parse` and `URI::parse` of src/classes/ION/URI.c, and `getUserInfo`. PHP's own
-- `php_url_parse_ex` and `strpprintf` are parameters.
use php_ion.Base.{ℕ, ◌≡◌, ◌≢◌, ◌↔◌, ◌⊎◌, Option, none, some, [], Bytes, arith}
use php_ion.Uri.{Uri, empty}

-- `struct php_url`: its strings end at a NUL, so `strlen` gives their length.
pub record PhpUrl : Type 0 where
  pub scheme : Option Bytes
  pub user : Option Bytes
  pub pass : Option Bytes
  pub host : Option Bytes
  pub port : ℕ
  pub path : Option Bytes
  pub query : Option Bytes
  pub fragment : Option Bytes

pub data Parsed : Type 0 where
  parsed : Uri → Parsed
  -- InvalidArgumentException, ERR_ION_URI_PARSE_FAILED
  parse_failed : Parsed
  -- `strlen(NULL)`
  null_read : Parsed

-- The block under `if(parsed_url->user)` that copies the host.
copy_host : Option Bytes → Option Bytes → Option (Option Bytes)
copy_host none host = some none
copy_host (some user) none = none
copy_host (some user) (some host) = some (some host)

copy_url : PhpUrl → Parsed
unfolding copy_host
copy_url p = elim (copy_host p.user p.host) [
  | none ↦ null_read
  | some host ↦ parsed (record empty {
    scheme = p.scheme;
    user = p.user;
    pass = p.pass;
    host = host;
    port = p.port;
    path = p.path;
    query = p.query;
    fragment = p.fragment;
  })
]

module _ (php_url_parse : Bytes → Option PhpUrl) where
  -- The argument may be NULL.
  pub parse : Option Bytes → Parsed
  unfolding copy_url
  parse none = parsed empty
  parse (some text) = elim (php_url_parse text) [ none ↦ parse_failed | some p ↦ copy_url p ]

-- The URI with the components of a parsed URL.
abbrev pub components : PhpUrl → Uri
components p = record {
  scheme = p.scheme;
  user = p.user;
  pass = p.pass;
  host = p.host;
  port = p.port;
  path = p.path;
  query = p.query;
  fragment = p.fragment;
}

module _ (php_url_parse : Bytes → Option PhpUrl) (text : Bytes) (p : PhpUrl)
    (found : php_url_parse text ≡ some p) where
  -- Of a text that PHP's parser accepts, `parse` makes the URI with all the components that were found
  -- exactly when the URL has both a user and a host, or neither of them.
  pub parse_exact :
      (parse php_url_parse (some text) ≡ parsed (components p))
      ↔ ((p.host ≡ none) × (p.user ≡ none) ⊎ (p.host ≢ none) × (p.user ≢ none))
  unfolding parse
  parse_exact = (λ e. ground (arith, found), λ e. ground (arith, found))

  -- Of a text that PHP's parser accepts and finds no user in, `parse` makes the URI of all the
  -- components that were found but the host, which it drops.
  pub parse_without_user :
      p.user ≡ none
      → parse php_url_parse (some text) ≡ parsed (record (components p) { host = none })
  unfolding parse
  parse_without_user h = ground (arith, found)

-- `strpprintf(1024, "%s:%s", user, pass)`, or NULL.
module _ (strpprintf : ℕ → Bytes → Bytes → Option Bytes) where
  -- `none` is the RuntimeException ERR_ION_URI_USER_INFO_FAILED.
  pub get_user_info : Uri → Option Bytes
  get_user_info u = elim u.user [
    | none ↦ some []
    | some user ↦ elim u.pass [ none ↦ some user | some pass ↦ strpprintf 1024 user pass ]
  ]
