-- ===== src/Uri/Factory.antt =====
-- `URI::factory` of src/classes/ION/URI.c: a URI from an array of options, keyed by the part constants.
-- Keys are integers; the value of an option is a string or another PHP value.
use php_ion.Base.{
  ℕ, ◌%◌, ◌≡◌, Option, none, some, List, [], ◌∷◌, Bool, ◌==◌, ◌||◌, if◌then◌else◌, Bytes, true,
}
use php_ion.Uri.{
  Uri, empty, uri_scheme, uri_user_name, uri_user_pass, uri_host, uri_port, uri_path, uri_query,
  uri_fragment,
}

-- A value that is not a string is known by a number.
pub data Zval : Type 0 where
  string : Bytes → Zval
  other : ℕ → Zval

pub data Made : Type 0 where
  made : Uri → Made
  -- InvalidArgumentException, ERR_ION_HTTP_URI_FACTORY_UNKNOWN with the key
  unknown_option : ℕ → Made

-- `convert_to_string` of a value that is no string, and `Z_LVAL_P`, which reads the value's 64 bits
-- as an integer whatever its type.
module _ (convert_to_string : ℕ → Bytes) (z_lval : Zval → ℕ) where
  -- ION_UPDATE_OPTION: the new value of the field.
  unfoldable pub option_text : Zval → Bytes
  option_text (string s) = s
  option_text (other v) = convert_to_string v

  -- The `switch` of the loop's body.
  unfoldable pub set_option : ℕ → Zval → Uri → Option Uri
  unfolding option_text
  set_option opt v u =
      if opt == uri_scheme
      then some (record u { scheme = some (option_text v) })
      else if opt == uri_user_name
      then some (record u { user = some (option_text v) })
      else if opt == uri_user_pass
      then some (record u { pass = some (option_text v) })
      else if opt == uri_host
      then some (record u { host = some (option_text v) })
      else if opt == uri_port
      then some (record u { port = z_lval v % 65536 })
      else if opt == uri_path
      then some (record u { path = some (option_text v) })
      else if opt == uri_query
      then some (record u { query = some (option_text v) })
      else if opt == uri_fragment
      then some (record u { fragment = some (option_text v) })
      else none

  pub set_options : Uri → List (ℕ × Zval) → Made
  set_options u [] = made u
  set_options u ((opt, v) ∷ rest) = elim (set_option opt v u) [
    | none ↦ unknown_option opt
    | some u' ↦ set_options u' rest
  ]

  pub factory : List (ℕ × Zval) → Made
  unfolding set_options set_option
  factory options = set_options empty options

-- The value that stands last under a key.
abbrev pub last : ℕ → List (ℕ × Zval) → Option Zval
last k [] = none
last k ((j, v) ∷ rest) = elim (last k rest) [
  | some w ↦ some w
  | none ↦ if j == k then some v else none
]

abbrev known : ℕ → Bool
known k =
    (k == uri_scheme)
    || ((k == uri_user_name)
        || ((k == uri_user_pass)
            || ((k == uri_host)
                || ((k == uri_port)
                    || ((k == uri_path) || ((k == uri_query) || (k == uri_fragment)))))))

abbrev pub first_unknown : List (ℕ × Zval) → Option ℕ
first_unknown [] = none
first_unknown ((j, v) ∷ rest) = let r = first_unknown rest in if known j then r else some j

module _ (convert_to_string : ℕ → Bytes) (z_lval : Zval → ℕ) where
  abbrev text_at : ℕ → List (ℕ × Zval) → Option Bytes → Option Bytes
  text_at k options old = elim (last k options) [
    | none ↦ old
    | some v ↦ some (option_text convert_to_string z_lval v)
  ]

  abbrev pub assembled : Uri → List (ℕ × Zval) → Uri
  assembled u options = record {
    scheme = text_at uri_scheme options u.scheme;
    user = text_at uri_user_name options u.user;
    pass = text_at uri_user_pass options u.pass;
    host = text_at uri_host options u.host;
    port = elim (last uri_port options) [ none ↦ u.port | some v ↦ z_lval v % 65536 ];
    path = text_at uri_path options u.path;
    query = text_at uri_query options u.query;
    fragment = text_at uri_fragment options u.fragment;
  }

  abbrev pub outcome : Uri → List (ℕ × Zval) → Made
  outcome u options = elim (first_unknown options) [
    | none ↦ made (assembled u options)
    | some k ↦ unknown_option k
  ]

  abbrev set_field : ℕ → ℕ → Zval → Option Bytes → Option Bytes
  set_field k j v old = if j == k then some (option_text convert_to_string z_lval v) else old

  -- What one round of the loop does to each field.
  record Sets (j : ℕ) (v : Zval) (u u' : Uri) : Type 0 where
    is_known : known j ≡ true
    scheme : u'.scheme ≡ set_field uri_scheme j v u.scheme
    user : u'.user ≡ set_field uri_user_name j v u.user
    pass : u'.pass ≡ set_field uri_user_pass j v u.pass
    host : u'.host ≡ set_field uri_host j v u.host
    port : u'.port ≡ (if j == uri_port then z_lval v % 65536 else u.port)
    path : u'.path ≡ set_field uri_path j v u.path
    query : u'.query ≡ set_field uri_query j v u.query
    fragment : u'.fragment ≡ set_field uri_fragment j v u.fragment
