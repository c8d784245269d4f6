-- ===== src/Uri/Text/Layout.antt =====
-- Correctness of `ion_uri_stringify` of src/classes/ION/URI.c: its two passes agree.
use php_ion.Base.{
  ℕ, ◌+◌, ◌<◌, ◌≡◌, refl, ap, ◌∙◌, Option, some, [], ◌∷◌, ◌++◌, Bool, true, false, ◌==◌, ◌&&◌, not,
  if◌then◌else◌, Bytes, ◌>>=◌, length, length-append, arith, ==_iff, Option-cases, inl, inr,
}
use php_ion.Memory.{Writer, Wrote, Writes, memcpy_last}
use php_ion.Uri.Decimal.{decimal, port_size, length-decimal}
use php_ion.Uri.{
  Uri, has_part, uri_scheme, uri_user_name, uri_user_pass, uri_host, uri_port, uri_path, uri_query,
  uri_fragment,
}
use php_ion.Uri.Text.{
  user_size, size, Write, write_parts, ZendString, finish, stringify, get_authority,
}
use php_ion.Uri.Text.Render.{
  part, user_text, render, authority, render-authority, length-part, write_parts-Writes,
}

length-user_text : (u : Uri) (parts : ℕ) → user_size u parts ≡ length (user_text u parts)
unfolding user_size
length-user_text u parts = length-part u.user (has_part parts uri_user_name) _ _ λ s. omega (
  arith,
  length-append s (part u.pass (has_part parts uri_user_pass) (λ p. b':' ∷ p) ++ b'@' ∷ []),
  length-append (part u.pass (has_part parts uri_user_pass) (λ p. b':' ∷ p)) (b'@' ∷ []),
  length-part u.pass (has_part parts uri_user_pass) (λ p. length p + 1) (λ p. b':' ∷ p)
      (λ p. omega arith),
)

length-port_text :
    (wanted : Bool) (port : ℕ)
    → port < 65536
    → (if wanted then 1 + port_size port else 0)
      ≡ length {A = ℕ} (if wanted then b':' ∷ decimal port else [])
length-port_text true port h = omega (arith, length-decimal port h)
length-port_text false port h = refl

length_seven :
    (a b c d e f g : Bytes)
    → length (a ++ (b ++ (c ++ (d ++ (e ++ (f ++ g))))))
      ≡ length a + length b + length c + length d + length e + length f + length g
length_seven a b c d e f g = omega (
  arith,
  length-append a (b ++ (c ++ (d ++ (e ++ (f ++ g))))),
  length-append b (c ++ (d ++ (e ++ (f ++ g)))),
  length-append c (d ++ (e ++ (f ++ g))),
  length-append d (e ++ (f ++ g)),
  length-append e (f ++ g),
  length-append f g,
)

size-render : (u : Uri) (parts : ℕ) → u.port < 65536 → size u parts ≡ length (render u parts)
unfolding size
size-render u parts h = omega (
  arith,
  length_seven (part u.scheme (has_part parts uri_scheme) (λ s. s ++ b':' ∷ b'/' ∷ b'/' ∷ []))
      (user_text u parts) (part u.host (has_part parts uri_host) (λ s. s))
      (if not (u.port == 0) && has_part parts uri_port then b':' ∷ decimal u.port else [])
      (part u.path (has_part parts uri_path) (λ s. s))
      (part u.query (has_part parts uri_query) (λ s. b'?' ∷ s))
      (part u.fragment (has_part parts uri_fragment) (λ s. b'#' ∷ s)),
  length-part u.scheme (has_part parts uri_scheme) (λ s. length s + 3)
      (λ s. s ++ b':' ∷ b'/' ∷ b'/' ∷ [])
      (λ s. omega (arith, length-append s (b':' ∷ b'/' ∷ b'/' ∷ []))),
  length-user_text u parts,
  length-part u.host (has_part parts uri_host) (λ s. length s) (λ s. s) (λ s. refl),
  length-port_text (not (u.port == 0) && has_part parts uri_port) u.port h,
  length-part u.path (has_part parts uri_path) (λ s. length s) (λ s. s) (λ s. refl),
  length-part u.query (has_part parts uri_query) (λ s. length s + 1) (λ s. b'?' ∷ s)
      (λ s. omega arith),
  length-part u.fragment (has_part parts uri_fragment) (λ s. length s + 1) (λ s. b'#' ∷ s)
      (λ s. omega arith),
)

-- The result for a text.
abbrev zend_string : Bytes → Option ZendString
zend_string text = some (record { len = length text; val = text ++ 0 ∷ [] })

finish-Wrote :
    (out : Bytes) (w : Writer)
    → Wrote out 1 w
    → finish (length out) w ≡ some (record { len = length out; val = out ++ 0 ∷ [] })
unfolding finish
finish-Wrote out w h = rw (h.pos_eq, (==_iff (length out) (length out)).1 refl, memcpy_last out w h)

write_and_finish :
    (f : Write) (text buf : Bytes) (len : ℕ)
    → Writes f text
    → len ≡ length text
    → length buf ≡ len + 1
    → (f (record { buf = buf; pos = 0 }) >>= finish len)
      ≡ some (record { len = length text; val = text ++ 0 ∷ [] })
write_and_finish f text buf len writes fits sized = rw e (rw fits (finish-Wrote text w out))
  where
    start : Wrote [] (length text + 1) (record { buf = buf; pos = 0 })
    start = record { rest = buf; buf_eq = refl; pos_eq = refl; room_eq = omega arith }

    done : (w : Writer) × (f (record { buf = buf; pos = 0 }) ≡ some w) × Wrote text 1 w
    done = writes.run [] 0 (record { buf = buf; pos = 0 }) start

    w : Writer
    w = done.0

    e : f (record { buf = buf; pos = 0 }) ≡ some w
    e = done.1

    out : Wrote text 1 w
    out = done.2

-- Let the allocator return blocks of the size that it is asked for, with any content, and let the
-- port be below 65536. Then `ion_uri_stringify` succeeds (a write outside of the block or a failed
-- assertion on the two lengths would be none), and its string is the rendered text of the wanted
-- parts with one NUL behind it. The text has "//" behind a scheme only, and the path as it stands.
pub stringify-render :
    (alloc : ℕ → Bytes) (u : Uri) (parts : ℕ)
    → ((n : ℕ) → length (alloc n) ≡ n)
    → u.port < 65536
    → stringify alloc u parts
      ≡ some (record { len = length (render u parts); val = render u parts ++ 0 ∷ [] })
unfolding stringify
stringify-render alloc u parts sized h =
    write_and_finish (write_parts u parts) (render u parts) (alloc (size u parts + 1))
      (size u parts) (write_parts-Writes u parts) (size-render u parts h) (sized (size u parts + 1))

authority_of_host :
    (alloc : ℕ → Bytes) (u : Uri) (host : Bytes)
    → u.host ≡ some host
    → get_authority alloc u ≡ stringify alloc u 30
unfolding get_authority
authority_of_host alloc u host e = simp (e, get_authority)

-- Let the allocator return blocks of the size that it is asked for, and let the port be below 65536.
-- Then `getAuthority` returns the empty string for a URI without a host, and else exactly the string
-- [user [":" password] "@"] host [":" port], with one NUL behind it; a standard port is written too.
pub get_authority-render :
    (alloc : ℕ → Bytes) (u : Uri)
    → ((n : ℕ) → length (alloc n) ≡ n)
    → u.port < 65536
    → get_authority alloc u
      ≡ some (record { len = length (authority u); val = authority u ++ 0 ∷ [] })
unfolding get_authority
get_authority-render alloc u sized h = elim (Option-cases u.host) [
  | inl e ↦ rw (e, get_authority, authority)
  | inr (host, e) ↦
      authority_of_host alloc u host e
      ∙ (stringify-render alloc u 30 sized h ∙ ap zend_string (render-authority u host e))
]
