-- ===== src/Uri/Text.antt =====
-- `ion_uri_stringify` of src/classes/ION/URI.c: a first pass adds up the length, the block is allocated,
-- and a second pass writes the parts into it. `getAuthority` and `__toString` are calls of it.
-- `none` is a fault: a write that leaves the block, or the failed assertion `length == pos`.
pub mod Render
pub mod Layout
use php_ion.Base.{
  ℕ, ◌+◌, Option, none, some, [], ◌∷◌, ◌++◌, Bool, ◌==◌, ◌&&◌, not, if◌then◌else◌, Bytes, ◌>>=◌,
  length,
}
use php_ion.Memory.{Writer, put, put_c_string, memcpy}
use php_ion.Uri.Decimal.{decimal, port_size}
use php_ion.Uri.{
  Uri, has_part, uri_scheme, uri_user_name, uri_user_pass, uri_host, uri_port, uri_path, uri_query,
  uri_fragment, uri_all,
}

-- `if(field && (parts & flag)) { ... }`
abbrev pub when_set {ℓ} : {A : Type ℓ} → Option Bytes → Bool → (Bytes → A) → A → A
when_set none wanted f otherwise = otherwise
when_set (some s) wanted f otherwise = if wanted then f s else otherwise

unfoldable pub user_size : Uri → ℕ → ℕ
user_size u parts =
    when_set u.user (has_part parts uri_user_name)
      (λ s. length s + 1 + when_set u.pass (has_part parts uri_user_pass) (λ p. length p + 1) 0) 0

-- The first pass.
unfoldable pub size : Uri → ℕ → ℕ
size u parts =
    when_set u.scheme (has_part parts uri_scheme) (λ s. length s + 3) 0
    + user_size u parts
    + when_set u.host (has_part parts uri_host) (λ s. length s) 0
    + (if not (u.port == 0) && has_part parts uri_port then 1 + port_size u.port else 0)
    + when_set u.path (has_part parts uri_path) (λ s. length s) 0
    + when_set u.query (has_part parts uri_query) (λ s. length s + 1) 0
    + when_set u.fragment (has_part parts uri_fragment) (λ s. length s + 1) 0

abbrev pub Write : Type 0
Write = Writer → Option Writer

infixr 6 ◌>>>◌
abbrev pub ◌>>>◌ : Write → Write → Write
◌>>>◌ f g w = f w >>= g

abbrev pub skip : Write
skip w = some w

unfoldable pub write_user : Uri → ℕ → Write
write_user u parts =
    when_set u.user (has_part parts uri_user_name)
      (λ s.
        put s
        >>> when_set u.pass (has_part parts uri_user_pass) (λ p. put (b':' ∷ []) >>> put p) skip
        >>> put (b'@' ∷ []))
      skip

-- The second pass.
unfoldable pub write_parts : Uri → ℕ → Write
unfolding write_user
write_parts u parts =
    when_set u.scheme (has_part parts uri_scheme) (λ s. put s >>> put (b':' ∷ b'/' ∷ b'/' ∷ []))
      skip
    >>> write_user u parts
    >>> when_set u.host (has_part parts uri_host) (λ s. put s) skip
    >>> (if not (u.port == 0) && has_part parts uri_port
        then put_c_string (b':' ∷ decimal u.port)
        else skip)
    >>> when_set u.path (has_part parts uri_path) (λ s. put s) skip
    >>> when_set u.query (has_part parts uri_query) (λ s. put (b'?' ∷ []) >>> put s) skip
    >>> when_set u.fragment (has_part parts uri_fragment) (λ s. put (b'#' ∷ []) >>> put s) skip

-- A `zend_string`: its length, and its bytes with the NUL behind them.
pub record ZendString : Type 0 where
  pub len : ℕ
  pub val : Bytes

finish : ℕ → Writer → Option ZendString
finish len w =
    if len == w.pos
    then (memcpy w.buf len (0 ∷ []) >>= λ buf. some (record { len = len; val = buf }))
    else none

-- `alloc n` is the memory that the allocator hands out, `n` bytes of any content;
-- `zend_string_alloc(len)` takes one for the NUL.
pub stringify : (ℕ → Bytes) → Uri → ℕ → Option ZendString
unfolding size user_size write_parts finish
stringify alloc u parts =
    let len = size u parts in
    write_parts u parts (record { buf = alloc (len + 1); pos = 0 }) >>= finish len

pub to_string : (ℕ → Bytes) → Uri → Option ZendString
to_string alloc u = stringify alloc u uri_all

-- `RETURN_EMPTY_STRING()` without a host.
pub get_authority : (ℕ → Bytes) → Uri → Option ZendString
get_authority alloc u = elim u.host [
  | none ↦ some (record { len = 0; val = 0 ∷ [] })
  | some host ↦ stringify alloc u 30
]
