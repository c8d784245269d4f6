-- ===== src/Http/Build/Rendered.antt =====
-- The text of a message, and that pion_http_message_build makes it.
use php_ion.Base.{
  ℕ, ◌+◌, ◌-◌, ◌&&◌, ◌||◌, leb, not, if◌then◌else◌, ◌≡◌, refl, ap, ◌∙◌, Option, none, some, List,
  [], ◌∷◌, ◌++◌, append_assoc, Bool, true, false, Bytes, ◌>>=◌, length, drop, length-append,
  length-drop, arith, Bool-cases, inl, inr,
}
use php_ion.Memory.{memcpy_next, memcpy_end}
use php_ion.Uri.Text.{ZendString}
use php_ion.Http.Message.{version_default}
use php_ion.Http.Parser.{Filling}
use php_ion.Http.Build.Pieces.{Piece, crlf_bytes, colon_space, Pipe, push_headers}
use php_ion.Http.Build.Written.{recase, finish, body_size, recase_byte, write_pieces}
use php_ion.Http.Build.{or_else}
use php_ion.Http.Build.Items.{value_items, headers_items, total, total-append, Small, Fits}
use php_ion.Http.Build.Lines.{push_headers_lem}
use php_ion.Http.Build.Spelling.{spelled, length-spelled, behind, write_pieces_lem}

-- The values of a header, with commas between them.
abbrev pub joined : List Bytes → Bytes
joined [] = []
joined (v ∷ []) = v
joined (v ∷ w ∷ rest) = v ++ ((b',' ∷ []) ++ joined (w ∷ rest))

abbrev pub is_lower : ℕ → Bool
is_lower b = leb 97 b && leb b 122

-- The printable bytes that are neither letters nor digits, but for the space.
abbrev pub is_separator : ℕ → Bool
is_separator b =
    (leb 33 b && leb b 47)
    || (leb 58 b && leb b 64)
    || (leb 91 b && leb b 96)
    || (leb 123 b && leb b 126)

-- The first small letter, and the first behind each separator, becomes a capital.
abbrev pub capital : Bool → Bytes → Bytes
capital up [] = []
capital up (b ∷ rest) =
    (if is_lower b && up then b - 32 else b)
    ∷ capital (not (is_lower b) && (up || is_separator b)) rest

lower_lem :
    (b : ℕ) (up : Bool) → is_lower b ≡ true → recase_byte up b ≡ (if up then b - 32 else b, false)
unfolding recase_byte
lower_lem b up h = ground (arith, h)

other_lem : (b : ℕ) (up : Bool) → is_lower b ≡ false → recase_byte up b ≡ (b, up || is_separator b)
unfolding recase_byte
other_lem b up h = ground (arith, h)

recase-capital : (b : Bytes) (up : Bool) → (recase up b).0 ≡ capital up b
unfolding recase
recase-capital [] up = refl
recase-capital (b ∷ rest) up = elim (Bool-cases (is_lower b)) [
  | inl small ↦ rw (lower_lem b up small, small, recase-capital rest false)
  | inr other ↦ rw (other_lem b up other, other, recase-capital rest (up || is_separator b))
]

-- The lines of the headers, and what follows them.
abbrev pub lines : List (Bytes × List Bytes) → Bytes → Bytes
lines [] rest = rest
lines ((name, values) ∷ others) rest =
    capital true name ++ (colon_space ++ (joined values ++ (crlf_bytes ++ lines others rest)))

abbrev pub body_text : Option Bytes → Bytes
body_text none = []
body_text (some b) = b

abbrev pub zend_string : Bytes → ZendString
zend_string b = record { len = length b; val = b ++ 0 ∷ [] }

-- The text of a response: the line of the status, the headers, an empty line, and the body.
abbrev pub response_text : Bytes → Bytes → Filling → Bytes
response_text status reason m =
    (b'H' ∷ b'T' ∷ b'T' ∷ b'P' ∷ b'/' ∷ [])
    ++ (or_else version_default m.message.version
        ++ ((b' ' ∷ [])
            ++ (status
                ++ ((b' ' ∷ [])
                    ++ (reason
                        ++ (crlf_bytes
                            ++ lines m.message.headers
                                (crlf_bytes ++ body_text m.message.body)))))))

-- The text of a request: the line of the request, and the same.
abbrev pub request_text : Bytes → Filling → Bytes
request_text target m =
    or_else (b'G' ∷ b'E' ∷ b'T' ∷ []) m.method
    ++ ((b' ' ∷ [])
        ++ (target
            ++ ((b' ' ∷ b'H' ∷ b'T' ∷ b'T' ∷ b'P' ∷ b'/' ∷ [])
                ++ (or_else version_default m.message.version
                    ++ (crlf_bytes
                        ++ lines m.message.headers (crlf_bytes ++ body_text m.message.body))))))

spelled-value_items :
    (v : Bytes) (rest : List Bytes) (up : Bool) (qs : List Piece)
    → spelled false up (value_items (v ∷ rest) ++ qs)
      ≡ joined (v ∷ rest) ++ (crlf_bytes ++ spelled true true qs)
spelled-value_items v [] up qs = refl
spelled-value_items v (w ∷ rest) up qs = rw (spelled-value_items w rest up qs) (simp append_assoc)

spelled-headers_items :
    (headers : List (Bytes × List Bytes)) (rest : Bytes)
    → Small headers
    → spelled true true (headers_items headers) ++ rest ≡ lines headers rest
spelled-headers_items [] rest small = refl
spelled-headers_items ((name, []) ∷ others) rest small = absurd (omega arith)
spelled-headers_items ((name, v ∷ values) ∷ others) rest small =
    rw
      (
        spelled-value_items v values (recase true name).1 (headers_items others),
        ← spelled-headers_items others rest small.2,
        recase-capital name true,
      )
      (simp append_assoc)

-- The empty line and the body.
finish_lem :
    (body : Option Bytes) (out rest : Bytes) (header up : Bool) (size : ℕ)
    → length rest ≡ body_size body + 1
    → size ≡ length out + body_size body
    → finish size body (behind out rest header up)
      ≡ some (zend_string (out ++ (crlf_bytes ++ body_text body)))
unfolding finish
finish_lem none out rest header up size r s =
    let all = out ++ crlf_bytes in
    let e1 = memcpy_next out rest crlf_bytes (length out) refl (omega (arith, r)) in
    let e2 = memcpy_end all (drop 2 rest) all refl (omega (arith, r, length-drop 2 rest)) in
    let z : size ≡ length all = omega (arith, s, length-append out crlf_bytes) in rw (e1, z, e2)
finish_lem (some b) out rest header up size r s =
    let line = out ++ crlf_bytes in
    let left = drop 2 rest in
    let l = length-append out crlf_bytes in
    let e1 = memcpy_next out rest crlf_bytes (length out) refl (omega (arith, r)) in
    let e2 =
      memcpy_next line left b (length out + 2) (omega (arith, l))
        (omega (arith, r, length-drop 2 rest)) in
    let e3 =
      memcpy_end (line ++ b) (drop (length b) left) (line ++ b) refl
        (omega (arith, r, length-drop 2 rest, length-drop (length b) left)) in
    let z : size ≡ length (line ++ b) = omega (arith, s, l, length-append line b) in
    rw (e1, e2, z, e3) (ap (λ t. some (zend_string t)) (append_assoc out crlf_bytes b))

-- An array that starts with the strings of a line makes that line, the headers and the body.
module _ (alloc : ℕ → Bytes) (alloc_size : (n : ℕ) → length (alloc n) ≡ n) where
  abbrev pub finishes : Pipe → Option Bytes → Option ZendString
  finishes pipe body =
      let size = pipe.message_size + body_size body in
      write_pieces pipe.items (record {
        writer = record { buf = alloc (size + 1); pos = 0 };
        is_header = false;
        to_up = false;
      })
      >>= finish size body

  finishes_lem :
      (pipe : Pipe) (body : Option Bytes) (out : Bytes)
      → pipe.message_size ≡ total pipe.items
      → spelled false false pipe.items ≡ out
      → finishes pipe body ≡ some (zend_string (out ++ (crlf_bytes ++ body_text body)))
  finishes_lem pipe body out n e =
      let size = pipe.message_size + body_size body in
      let rest = alloc (size + 1) in
      let (header, up, w) =
        write_pieces_lem pipe.items [] rest false false (omega (arith, alloc_size (size + 1), n)) in
      let l = length-spelled false false pipe.items in
      rw w (
        finish_lem body (spelled false false pipe.items) (drop (total pipe.items) rest) header up
          size (omega (arith, alloc_size (size + 1), length-drop (total pipe.items) rest, n))
          (omega (arith, n, l))
        ∙ ap (λ t. some (zend_string (t ++ (crlf_bytes ++ body_text body)))) e)

  -- The same with the headers of a message.
  pub built_lem :
      (begun : Pipe) (headers : List (Bytes × List Bytes)) (body : Option Bytes) (out : Bytes)
      → Small headers
      → Fits begun
      → begun.message_size ≡ total begun.items
      → spelled false false (begun.items ++ headers_items headers)
        ≡ out ++ spelled true true (headers_items headers)
      → (push_headers headers begun >>= λ pipe. finishes pipe body)
        ≡ some (zend_string (out ++ lines headers (crlf_bytes ++ body_text body)))
  built_lem begun headers body out small k n e =
      let (pipe, p, pushed) = push_headers_lem headers begun small k in
      let hs = spelled true true (headers_items headers) in
      rw p (
        finishes_lem pipe body (out ++ hs)
          (pushed.size_eq
            ∙ omega (
              arith,
              n,
              ap total pushed.items_eq,
              total-append begun.items (headers_items headers),
            ))
          (ap (spelled false false) pushed.items_eq ∙ e)
        ∙ ap (λ t. some (zend_string t))
            (append_assoc out hs (crlf_bytes ++ body_text body)
              ∙ ap (λ t. out ++ t)
                  (spelled-headers_items headers (crlf_bytes ++ body_text body) small)))
