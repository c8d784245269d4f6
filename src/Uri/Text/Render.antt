-- ===== src/Uri/Text/Render.antt =====
-- The text of a URI as a grammar, without lengths or positions; `ion_uri_stringify` of
-- src/classes/ION/URI.c fills its block with exactly this text. It is RFC 3986 but for these: "//" comes
-- with the scheme and not with the authority, a path is not changed for what stands in front of it,
-- and a standard port is written like any other.
use php_ion.Base.{
  ℕ, ◌≡◌, refl, Option, none, some, [], ◌∷◌, ◌++◌, append-nil, Bool, true, false, ◌==◌, ◌&&◌, not,
  if◌then◌else◌, Bytes, length, arith,
}
use php_ion.Memory.{put_c_string, Writes, put-Writes, put_c_string-Writes, none-Writes, seq-Writes}
use php_ion.Uri.Decimal.{decimal}
use php_ion.Uri.{
  Uri, has_part, uri_scheme, uri_user_name, uri_user_pass, uri_host, uri_port, uri_path, uri_query,
  uri_fragment,
}
use php_ion.Uri.Text.{when_set, Write, skip, write_user, write_parts}

-- What a part adds, if it is set and asked for.
abbrev pub part : Option Bytes → Bool → (Bytes → Bytes) → Bytes
part none wanted f = []
part (some s) wanted f = if wanted then f s else []

-- user [":" password] "@"
abbrev pub user_text : Uri → ℕ → Bytes
user_text u parts =
    part u.user (has_part parts uri_user_name)
      (λ s. s ++ (part u.pass (has_part parts uri_user_pass) (λ p. b':' ∷ p) ++ b'@' ∷ []))

-- [scheme "://"] [user [":" password] "@"] [host] [":" port] [path] ["?" query] ["#" fragment]
abbrev pub render : Uri → ℕ → Bytes
render u parts =
    part u.scheme (has_part parts uri_scheme) (λ s. s ++ b':' ∷ b'/' ∷ b'/' ∷ [])
    ++ (user_text u parts
        ++ (part u.host (has_part parts uri_host) (λ s. s)
            ++ ((if not (u.port == 0) && has_part parts uri_port then b':' ∷ decimal u.port else [])
                ++ (part u.path (has_part parts uri_path) (λ s. s)
                    ++ (part u.query (has_part parts uri_query) (λ s. b'?' ∷ s)
                        ++ part u.fragment (has_part parts uri_fragment) (λ s. b'#' ∷ s))))))

part-Writes :
    (o : Option Bytes) (wanted : Bool) (f : Bytes → Write) (t : Bytes → Bytes)
    → ((s : Bytes) → Writes (f s) (t s))
    → Writes (when_set o wanted f skip) (part o wanted t)
part-Writes none wanted f t h = none-Writes
part-Writes (some s) true f t h = h s
part-Writes (some s) false f t h = none-Writes

pub length-part :
    (o : Option Bytes) (wanted : Bool) (f : Bytes → ℕ) (t : Bytes → Bytes)
    → ((s : Bytes) → f s ≡ length (t s))
    → when_set o wanted f 0 ≡ length (part o wanted t)
length-part none wanted f t h = refl
length-part (some s) true f t h = h s
length-part (some s) false f t h = refl

write_user-Writes : (u : Uri) (parts : ℕ) → Writes (write_user u parts) (user_text u parts)
unfolding write_user
write_user-Writes u parts = part-Writes u.user (has_part parts uri_user_name) _ _ λ s.
    seq-Writes _ _ _ _ (put-Writes s) (
      seq-Writes _ _ _ _
        (part-Writes u.pass (has_part parts uri_user_pass) _ (λ p. b':' ∷ p)
          (λ p. seq-Writes _ _ (b':' ∷ []) p (put-Writes _) (put-Writes p)))
        (put-Writes _))

port-Writes :
    (wanted : Bool) (port : ℕ)
    → Writes
        (if wanted then put_c_string (b':' ∷ decimal port) else skip)
        (if wanted then b':' ∷ decimal port else [])
port-Writes true port = put_c_string-Writes _
port-Writes false port = none-Writes

pub write_parts-Writes : (u : Uri) (parts : ℕ) → Writes (write_parts u parts) (render u parts)
unfolding write_parts
write_parts-Writes u parts =
    seq-Writes _ _ _ _
      (part-Writes u.scheme (has_part parts uri_scheme) _ _
        (λ s. seq-Writes _ _ _ _ (put-Writes s) (put-Writes _)))
      (seq-Writes _ _ _ _ (write_user-Writes u parts) (
        seq-Writes _ _ _ _ (part-Writes u.host (has_part parts uri_host) _ _ put-Writes) (
          seq-Writes _ _ _ _ (port-Writes _ u.port) (
            seq-Writes _ _ _ _ (part-Writes u.path (has_part parts uri_path) _ _ put-Writes) (
              seq-Writes _ _ _ _
                (part-Writes u.query (has_part parts uri_query) _ (λ s. b'?' ∷ s)
                  (λ s. seq-Writes _ _ (b'?' ∷ []) s (put-Writes _) (put-Writes s)))
                (part-Writes u.fragment (has_part parts uri_fragment) _ (λ s. b'#' ∷ s)
                  (λ s. seq-Writes _ _ (b'#' ∷ []) s (put-Writes _) (put-Writes s))))))))

-- [user [":" password] "@"] host [":" port], and nothing without a host.
abbrev pub authority : Uri → Bytes
authority u = elim u.host [
  | none ↦ []
  | some host ↦
      part u.user true (λ s. s ++ (part u.pass true (λ p. b':' ∷ p) ++ b'@' ∷ []))
      ++ (host ++ (if u.port == 0 then [] else b':' ∷ decimal u.port))
]

part_unwanted : (o : Option Bytes) (f : Bytes → Bytes) → part o false f ≡ []
part_unwanted none f = refl
part_unwanted (some s) f = refl

if_port :
    (port : ℕ)
    → (if not (port == 0) && true then b':' ∷ decimal port else [])
      ≡ (if port == 0 then [] else b':' ∷ decimal port)
if_port port = ground arith

pub render-authority : (u : Uri) (host : Bytes) → u.host ≡ some host → render u 30 ≡ authority u
unfolding has_part
render-authority u host e = simp (e, authority, part_unwanted, if_port, append-nil)
