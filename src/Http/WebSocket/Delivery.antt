-- ===== src/Http/WebSocket/Delivery.antt =====
-- The frames that a WebSocketParser makes, however their bodies are cut.
use php_ion.Base.{
  ℕ, ◌+◌, ◌≡◌, refl, sym, ap, ◌∙◌, none, some, List, [], ◌∷◌, ◌++◌, append_assoc, append-nil, true,
  false, if◌then◌else◌, Bytes, length, drop, join, length-append, length-drop, arith,
}
use php_ion.Http.WebSocket.Blocks.{memcpy_piece, last_byte, no_bytes}
use php_ion.Http.WebSocket.Frame.{
  Flags, Frame, Event, frame_header, frame_body, frame_end, new_body, unmasked,
}
use php_ion.Http.WebSocket.Parser.{
  WebSocketParser, message_begin, message_body, message_end, on_event, on_events,
}

-- A frame as it is sent: its flags, its mask, and the pieces of its body.
pub record Sent : Type 0 where
  pub flags : Flags
  pub mask : Bytes
  pub chunks : List Bytes

-- The calls of the parser for it.
abbrev pub body_events : ℕ → List Bytes → List Event
body_events offset [] = frame_end ∷ []
body_events offset (c ∷ rest) = frame_body offset c ∷ body_events (offset + length c) rest

abbrev pub sent_events : Sent → List Event
sent_events s = frame_header (length (join s.chunks)) s.flags s.mask ∷ body_events 0 s.chunks

abbrev pub all_events : List Sent → List Event
all_events [] = []
all_events (s ∷ rest) = sent_events s ++ all_events rest

-- websocket_parser_decode keeps the length, and goes on with the next byte of the mask.
pub record Decodes (decode : Bytes → ℕ → Bytes → Bytes) : Type 0 where
  pub length_eq : (m : Bytes) (n : ℕ) (b : Bytes) → length (decode m n b) ≡ length b
  pub append_eq :
      (m : Bytes) (n : ℕ) (a b : Bytes)
      → decode m n (a ++ b) ≡ decode m n a ++ decode m (n + length a) b
  pub nil_eq : (m : Bytes) (n : ℕ) → decode m n [] ≡ []

module _ (decode : Bytes → ℕ → Bytes → Bytes) where
  -- The text of a body.
  abbrev pub plain : Flags → Bytes → ℕ → Bytes → Bytes
  plain flags mask n b = if flags.masked then decode mask n b else b

  -- The frame as it is received: its whole body without the mask.
  abbrev pub received : Sent → Frame
  received s = record {
    flags = s.flags;
    mask = s.mask;
    body = some (record {
      len = length (join s.chunks);
      val = plain s.flags s.mask 0 (join s.chunks) ++ 0 ∷ [];
    });
  }

  module _ (d : Decodes decode) (flags : Flags) (mask : Bytes) where
    length-plain : (n : ℕ) (b : Bytes) → length (plain flags mask n b) ≡ length b
    length-plain n b =
        elim flags.masked as (λ m. length (if m then decode mask n b else b) ≡ length b) [
          | true ↦ d.length_eq mask n b
          | false ↦ refl
        ]

    plain-append :
        (n : ℕ) (a b : Bytes)
        → plain flags mask n (a ++ b) ≡ plain flags mask n a ++ plain flags mask (n + length a) b
    plain-append n a b =
        elim flags.masked
          as (λ m.
            (if m then decode mask n (a ++ b) else a ++ b)
            ≡ (if m then decode mask n a else a)
              ++ (if m then decode mask (n + length a) b else b)) [
                | true ↦ d.append_eq mask n a b
                | false ↦ refl
              ]

    plain-nil : (n : ℕ) → plain flags mask n [] ≡ []
    plain-nil n = elim flags.masked as (λ m. (if m then decode mask n [] else []) ≡ []) [
      | true ↦ d.nil_eq mask n
      | false ↦ refl
    ]

module _ (alloc : ℕ → Bytes) (decode : Bytes → ℕ → Bytes → Bytes) (d : Decodes decode) where
  abbrev holding : Flags → Bytes → ℕ → Bytes → WebSocketParser → WebSocketParser
  holding flags mask len val p = record p {
    frame =
        some (record { flags = flags; mask = mask; body = some (record { len = len; val = val }) });
  }

  abbrev pub ended : ℕ → Frame → WebSocketParser → WebSocketParser
  ended s f p = record p {
    frame = none;
    frames_num = p.frames_num + 1;
    delivered = p.delivered ++ (s, f) ∷ [];
  }

  body_lem :
      (chunks : List Bytes) (out rest : Bytes) (n len s : ℕ) (flags : Flags) (mask : Bytes)
      (p : WebSocketParser)
      → p.on_frame ≡ some s
      → n ≡ length out
      → length rest ≡ length (join chunks)
      → on_events alloc decode
          (body_events n chunks)
          (holding flags mask len (out ++ (rest ++ 0 ∷ [])) p)
        ≡ some (
            ended s
              (record {
                flags = flags;
                mask = mask;
                body = some (record {
                  len = len;
                  val = (out ++ plain decode flags mask n (join chunks)) ++ 0 ∷ [];
                });
              })
              p)
  unfolding on_events on_event message_end message_body unmasked
  body_lem [] out rest n len s flags mask p o e r =
      let last = out ++ (rest ++ 0 ∷ []) in
      let whole : last ≡ (out ++ plain decode flags mask n []) ++ 0 ∷ [] =
        rw (no_bytes rest r, plain-nil decode d flags mask n, append-nil out) in
      ground (arith, o, whole)
  body_lem (c ∷ chunks) out rest n len s flags mask p o e r =
      let here = plain decode flags mask n c in
      let left = drop (length c) rest in
      let l = length-plain decode d flags mask n c in
      let written =
        memcpy_piece out rest here n (length c) e l
          (omega (arith, r, length-append c (join chunks))) in
      let ih =
        body_lem chunks (out ++ here) left (n + length c) len s flags mask p o
          (omega (arith, e, l, length-append out here))
          (omega (arith, r, length-append c (join chunks), length-drop (length c) rest)) in
      let whole : (out ++ here) ++ plain decode flags mask (n + length c) (join chunks)
          ≡ out ++ plain decode flags mask n (c ++ join chunks) =
        append_assoc out here (plain decode flags mask (n + length c) (join chunks))
        ∙ ap (λ t. out ++ t) (sym (plain-append decode d flags mask n c (join chunks))) in
      rw written (
        ih
        ∙ ap
            (λ t. some (
              ended s
                (record {
                  flags = flags;
                  mask = mask;
                  body = some (record { len = len; val = t ++ 0 ∷ [] });
                })
                p))
            whole)

  -- A whole frame.
  pub sent_lem :
      (alloc_size : (n : ℕ) → length (alloc n) ≡ n) (f : Sent) (s : ℕ) (p : WebSocketParser)
      → p.on_frame ≡ some s
      → on_events alloc decode (sent_events f) p ≡ some (ended s (received decode f) p)
  unfolding on_events on_event message_begin new_body
  sent_lem alloc_size f s p o =
      let len = length (join f.chunks) in
      let (out, l, nul) = last_byte (alloc (len + 1)) len (alloc_size (len + 1)) in
      rw nul (body_lem f.chunks [] out 0 len s f.flags f.mask p o refl l)
