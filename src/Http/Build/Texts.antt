-- ===== src/Http/Build/Texts.antt =====
-- pion_http_message_build against the text of a message.
use php_ion.Base.{
  ℕ, ◌<◌, ◌≡◌, ◌≢◌, refl, ap, subst, ◌∙◌, Option, none, some, [], ◌∷◌, ◌++◌, append_assoc, Bytes,
  ◌>>=◌, length, arith, Option-cases, inl, inr,
}
use php_ion.Memory.{take_prefix}
use php_ion.Uri.{Uri, uri_all}
use php_ion.Uri.Text.Render.{render}
use php_ion.Uri.Text.Layout.{stringify-render}
use php_ion.Http.Message.{version_default}
use php_ion.Http.Parser.{Filling}
use php_ion.Http.Build.Pieces.{crlf_bytes}
use php_ion.Http.Build.{
  Kind, response, request, unknown, or_else, build, response_head, request_head, reason_of,
  target_of,
}
use php_ion.Http.Build.Items.{Small}
use php_ion.Http.Build.Rendered.{
  lines, body_text, zend_string, response_text, request_text, built_lem,
}

-- The target of a request: its own, or the URI, or a slash.
abbrev pub uri_text : Option Uri → Bytes
uri_text none = b'/' ∷ []
uri_text (some u) = render u uri_all

abbrev pub target_text : Option Bytes → Option Uri → Bytes
target_text (some t) u = t
target_text none u = uri_text u

-- The URI has a port of 16 bits.
abbrev pub PortFits : Option Uri → Type 0
PortFits none = Unit {0}
PortFits (some u) = u.port < 65536

module _ (alloc : ℕ → Bytes) (print : ℕ → Bytes) (reason_text : ℕ → Bytes) where
  -- The text of a message; a response without a reason has none.
  abbrev pub message_text : Kind → Filling → Option Bytes
  message_text response m = do
    reason ← reason_of alloc print reason_text m
    some (response_text (print m.status) reason m)
  message_text request m = some (request_text (target_text m.target m.uri) m)
  message_text unknown m = none

  module _ (alloc_size : (n : ℕ) → length (alloc n) ≡ n) where
    target_of_lem :
        (m : Filling)
        → PortFits m.uri
        → (buffer : Option Bytes) × (target_of alloc print reason_text m ≡ some buffer)
          × (or_else (b'/' ∷ []) buffer ≡ target_text m.target m.uri)
    unfolding target_of
    target_of_lem m h = elim (Option-cases m.target) [
      | inr (t, e) ↦ (some t, simp (e, target_of), simp e)
      | inl e ↦ elim (Option-cases m.uri) [
        | inl f ↦ (none, simp (e, f, target_of), simp (e, f))
        | inr (u, f) ↦
            let r = render u uri_all in
            let z = stringify-render alloc u uri_all alloc_size (subst PortFits f h) in
            (some r, simp (e, f, z, take_prefix r (0 ∷ []), target_of), simp (e, f))
      ]
    ]

    response_lem :
        (m : Filling)
        → Small m.message.headers
        → build alloc print reason_text response m
          ≡ (message_text response m >>= λ t. some (zend_string t))
    unfolding build response_head
    response_lem m small = elim (Option-cases (reason_of alloc print reason_text m)) [
      | inl absent ↦ rw absent
      | inr (reason, e) ↦
          let version = or_else version_default m.message.version in
          let out =
            (b'H' ∷ b'T' ∷ b'T' ∷ b'P' ∷ [])
            ++ ((b'/' ∷ [])
                ++ (version
                    ++ ((b' ' ∷ [])
                        ++ (print m.status ++ ((b' ' ∷ []) ++ (reason ++ crlf_bytes)))))) in
          let whole : out ++ lines m.message.headers (crlf_bytes ++ body_text m.message.body)
              ≡ response_text (print m.status) reason m =
            simp append_assoc in
          rw e (
            built_lem alloc alloc_size _ m.message.headers m.message.body out small (omega arith)
              (omega arith) (simp append_assoc)
            ∙ ap (λ t. some (zend_string t)) whole)
    ]

    request_lem :
        (m : Filling)
        → Small m.message.headers
        → PortFits m.uri
        → build alloc print reason_text request m
          ≡ (message_text request m >>= λ t. some (zend_string t))
    unfolding build request_head
    request_lem m small port =
        let (buffer, e, target) = target_of_lem m port in
        let version = or_else version_default m.message.version in
        let method = or_else (b'G' ∷ b'E' ∷ b'T' ∷ []) m.method in
        let out =
          method
          ++ ((b' ' ∷ [])
              ++ (or_else (b'/' ∷ []) buffer
                  ++ ((b' ' ∷ [])
                      ++ ((b'H' ∷ b'T' ∷ b'T' ∷ b'P' ∷ [])
                          ++ ((b'/' ∷ []) ++ (version ++ crlf_bytes)))))) in
        rw e (
          built_lem alloc alloc_size _ m.message.headers m.message.body out small (omega arith)
            (omega arith) (simp append_assoc)
          ∙ ap (λ t. some (zend_string t)) (simp (append_assoc, target)))

    -- Let the allocator return blocks of the size that it is asked for, let every header have 1 to 15
    -- values, and let the port of the URI be below 65536. Then building a request, or a response
    -- whose reason is known, writes nothing outside of the array or of the string, and the string is
    -- exactly the text of the message with one NUL behind it; for a response without a reason NULL
    -- is read.
    pub build-message_text :
        (kind : Kind) (m : Filling)
        → kind ≢ unknown
        → Small m.message.headers
        → PortFits m.uri
        → build alloc print reason_text kind m ≡ (message_text kind m >>= λ t. some (zend_string t))
    build-message_text response m k small port = response_lem m small
    build-message_text request m k small port = request_lem m small port
    build-message_text unknown m k small port = absurd (k refl)
