-- ===== src/Http/WebSocket/Parser.antt =====
-- src/classes/ION/HTTP/WebSocketParser.c: the callbacks that make frames of a text, and the methods.
use php_ion.Base.{
  ℕ, ◌+◌, Option, none, some, List, [], ◌∷◌, ◌++◌, Bool, true, false, ◌==◌, if◌then◌else◌, Bytes,
  ◌>>=◌, length,
}
use php_ion.Memory.{memcpy}
use php_ion.Http.WebSocket.Frame.{
  Flags, Frame, Event, frame_header, frame_body, frame_end, new_body, unmasked,
}

-- `struct _ion_websocket_parser`; the sequence is a number.
pub record WebSocketParser : Type 0 where
  pub frame : Option Frame
  pub frames_num : ℕ
  pub on_frame : Option ℕ
  -- ion_promisor_done_object of a frame
  pub delivered : List (ℕ × Frame)

-- ion_http_websocket_parser_init
abbrev pub new_parser : WebSocketParser
new_parser = record { frame = none; frames_num = 0; on_frame = none; delivered = [] }

-- frame(); `fresh` is the new sequence.
unfoldable pub frame_sequence : ℕ → WebSocketParser → WebSocketParser × ℕ
frame_sequence fresh p = elim p.on_frame [
  | none ↦ (record p { on_frame = some fresh }, fresh)
  | some s ↦ (p, s)
]

unfoldable pub get_parsed_count : WebSocketParser → ℕ
get_parsed_count p = p.frames_num

unfoldable pub has_unparsed_frame : WebSocketParser → Bool
has_unparsed_frame p = elim p.frame [ none ↦ false | some f ↦ true ]

-- `none` is a failed assertion or a write that leaves the string.
module _ (alloc : ℕ → Bytes) (decode : Bytes → ℕ → Bytes → Bytes) where
  -- ion_http_ws_message_begin
  unfoldable pub message_begin : ℕ → Flags → Bytes → WebSocketParser → Option WebSocketParser
  unfolding new_body
  message_begin len flags mask p = do
    body ← new_body alloc decode len
    some (record p { frame = some (record { flags = flags; mask = mask; body = some body }) })

  -- ion_http_ws_message_body; the flags of the parser are those of the frame.
  unfoldable pub message_body : ℕ → Bytes → WebSocketParser → Option WebSocketParser
  unfolding unmasked
  message_body offset at p = do
    f ← p.frame
    body ← f.body
    val ← memcpy body.val offset (unmasked alloc decode f.flags f.mask offset at)
    some (record p { frame = some (record f { body = some (record body { val = val }) }) })

  -- ion_http_ws_message_end
  unfoldable pub message_end : WebSocketParser → Option WebSocketParser
  message_end p = do
    f ← p.frame
    some (record p {
      frame = none;
      frames_num = p.frames_num + 1;
      delivered = elim p.on_frame [ none ↦ p.delivered | some s ↦ p.delivered ++ (s, f) ∷ [] ];
    })

  unfoldable pub on_event : Event → WebSocketParser → Option WebSocketParser
  unfolding message_begin message_body message_end
  on_event (frame_header len flags mask) p = message_begin len flags mask p
  on_event (frame_body offset at) p = message_body offset at p
  on_event frame_end p = message_end p

  -- websocket_parser_execute
  unfoldable pub on_events : List Event → WebSocketParser → Option WebSocketParser
  unfolding on_event
  on_events [] p = some p
  on_events (e ∷ rest) p = on_event e p >>= on_events rest

  -- __invoke, with the bytes that were parsed and what the parser requires; -1 is `none`.
  unfoldable pub invoke :
      Bytes → List Event → ℕ → ℕ → WebSocketParser → Option (WebSocketParser × Option ℕ)
  unfolding on_events
  invoke raw events nparsed require p = do
    p' ← on_events events p
    elim (nparsed == length raw) [
      | true ↦ some (p', if require == 0 then none else some require)
      | false ↦ none
    ]
