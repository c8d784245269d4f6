-- ===== src/Uri/Access.antt =====
-- The copying modifiers of src/classes/ION/URI.c against its accessors.
use php_ion.Base.{ℕ, ◌%◌, ◌≡◌, refl, Option, none, some, not, arith, Bytes, ◌==◌, if◌then◌else◌}
use php_ion.Uri.{
  Uri, clone, get_scheme, get_user_name, get_user_password, get_host, has_port, get_port, with_port,
  get_path, get_query, get_fragment,
}

-- What a caller can read of a URI.
pub record View : Type 0 where
  pub scheme : Bytes
  pub user : Bytes
  pub password : Bytes
  pub host : Bytes
  pub port : Option ℕ
  pub path : Bytes
  pub query : Bytes
  pub fragment : Bytes

abbrev pub view : Uri → View
view u = record {
  scheme = get_scheme u;
  user = get_user_name u;
  password = get_user_password u;
  host = get_host u;
  port = get_port u;
  path = get_path u;
  query = get_query u;
  fragment = get_fragment u;
}

-- The port is read modulo 65536: a port that fits is given back as it was, and a multiple of 65536
-- leaves the URI without a port.
get_port-with_port :
    (u : Uri) (p : ℕ)
    → (get_port (with_port p u) ≡ (if p % 65536 == 0 then none else some (p % 65536)))
      × (has_port (with_port p u) ≡ not (p % 65536 == 0))
unfolding get_port with_port has_port clone
get_port-with_port u p = (refl, ground arith)
