-- ===== src/Uri.antt =====
-- src/classes/ION/URI.c and `struct _ion_uri` of src/ion/ion_http.h: the URI object, its accessors and its
-- copying modifiers. A `zend_string` is its bytes; sharing one (`zend_string_copy`) and releasing one
-- change only its reference count, which is not modelled. A modifier changes a clone and returns it, and
-- its receiver stays as it was.
mod Decimal
pub mod Text
pub mod Parse
pub mod Factory
pub mod Access
use Prim.Native.Nat.{bit_and}
use php_ion.Base.{
  ℕ, ◌%◌, Option, none, some, [], Bool, true, false, ◌==◌, not, if◌then◌else◌, Bytes,
}

pub record Uri : Type 0 where
  pub scheme : Option Bytes
  pub user : Option Bytes
  pub pass : Option Bytes
  pub host : Option Bytes
  -- `unsigned short`; 0 stands for no port
  pub port : ℕ
  pub path : Option Bytes
  pub query : Option Bytes
  pub fragment : Option Bytes

-- The object that `ion_uri_init` allocates, zeroed.
abbrev pub empty : Uri
empty = record {
  scheme = none;
  user = none;
  pass = none;
  host = none;
  port = 0;
  path = none;
  query = none;
  fragment = none;
}

abbrev pub uri_scheme : ℕ
uri_scheme = 1

abbrev pub uri_user_name : ℕ
uri_user_name = 2

abbrev pub uri_user_pass : ℕ
uri_user_pass = 4

abbrev pub uri_host : ℕ
uri_host = 8

abbrev pub uri_port : ℕ
uri_port = 16

abbrev pub uri_path : ℕ
uri_path = 32

abbrev pub uri_query : ℕ
uri_query = 64

abbrev pub uri_fragment : ℕ
uri_fragment = 128

-- The eight parts together.
abbrev pub uri_all : ℕ
uri_all = 255

-- `parts & flag`, as a condition.
unfoldable pub has_part : ℕ → ℕ → Bool
has_part parts flag = not (bit_and parts flag == 0)

abbrev is_set : Option Bytes → Bool
is_set none = false
is_set (some s) = true

abbrev or_empty : Option Bytes → Bytes
or_empty none = []
or_empty (some s) = s

-- `if(proto->scheme) clone->scheme = zend_string_copy(proto->scheme)` onto a zeroed object.
abbrev copied : Option Bytes → Option Bytes → Option Bytes
copied none old = old
copied (some s) old = some s

pub clone : Uri → Uri
clone proto = record {
  scheme = copied proto.scheme empty.scheme;
  user = copied proto.user empty.user;
  pass = copied proto.pass empty.pass;
  host = copied proto.host empty.host;
  port = if proto.port == 0 then empty.port else proto.port;
  path = copied proto.path empty.path;
  query = copied proto.query empty.query;
  fragment = copied proto.fragment empty.fragment;
}

pub has_scheme : Uri → Bool
has_scheme u = is_set u.scheme

pub get_scheme : Uri → Bytes
get_scheme u = or_empty u.scheme

pub with_scheme : Bytes → Uri → Uri
unfolding clone
with_scheme s u = record (clone u) { scheme = some s }

pub has_user_info : Uri → Bool
has_user_info u = is_set u.user

pub get_user_name : Uri → Bytes
get_user_name u = or_empty u.user

pub has_user_password : Uri → Bool
has_user_password u = is_set u.pass

pub get_user_password : Uri → Bytes
get_user_password u = or_empty u.pass

-- The password is optional, and without one the old password stays.
pub with_user_info : Bytes → Option Bytes → Uri → Uri
unfolding clone
with_user_info user none u = record (clone u) { user = some user }
with_user_info user (some password) u = record (clone u) { user = some user; pass = some password }

pub has_host : Uri → Bool
has_host u = is_set u.host

pub get_host : Uri → Bytes
get_host u = or_empty u.host

pub with_host : Bytes → Uri → Uri
unfolding clone
with_host s u = record (clone u) { host = some s }

pub has_port : Uri → Bool
has_port u = if u.port == 0 then false else true

-- NULL if there is no port
pub get_port : Uri → Option ℕ
get_port u = if u.port == 0 then none else some u.port

-- The argument is a `zend_long`, given by its bit pattern, and is cast to `unsigned short`.
pub with_port : ℕ → Uri → Uri
unfolding clone
with_port p u = record (clone u) { port = p % 65536 }

pub has_path : Uri → Bool
has_path u = is_set u.path

pub get_path : Uri → Bytes
get_path u = or_empty u.path

pub with_path : Bytes → Uri → Uri
unfolding clone
with_path s u = record (clone u) { path = some s }

pub has_query : Uri → Bool
has_query u = is_set u.query

pub get_query : Uri → Bytes
get_query u = or_empty u.query

pub with_query : Bytes → Uri → Uri
unfolding clone
with_query s u = record (clone u) { query = some s }

pub has_fragment : Uri → Bool
has_fragment u = is_set u.fragment

pub get_fragment : Uri → Bytes
get_fragment u = or_empty u.fragment

pub with_fragment : Bytes → Uri → Uri
unfolding clone
with_fragment s u = record (clone u) { fragment = some s }
