-- ===== src/Process/Ipc.antt =====
-- src/classes/ION/Process/IPC.c, and the callbacks of src/ion/ion_process.c that gather a message. The
-- websocket_parser is a parameter: its state, and the calls that it makes for a text.
pub mod Reassembly
pub mod Delivery
use php_ion.Base.{
  ℕ, ◌+◌, Option, none, some, List, [], ◌∷◌, ◌++◌, Bool, true, false, ◌==◌, ◌||◌, ltb,
  if◌then◌else◌, Bytes, ◌>>=◌,
}
use php_ion.Memory.{memcpy}
use php_ion.Uri.Text.{ZendString}

-- `frame_body`: NULL, a string, or a pointer to a string that was released.
pub data Body : Type 0 where
  null : Body
  live : ZendString → Body
  freed : Body

-- The promises and the context are numbers; the parser has a state of its own.
pub record Ipc (P : Type 0) : Type 0 where
  pub connected : Bool
  pub ctx : Option ℕ
  pub on_message : Option ℕ
  pub on_disconnect : Option ℕ
  pub parser : P
  pub frame_body : Body
  -- ion_promisor_done of a message, with the sequence, the text and the context
  pub delivered : List (ℕ × ZendString × Option ℕ)
  -- ion_promisor_done of `on_disconnect`
  pub disconnects : List ℕ
  -- bufferevent_write
  pub written : Bytes

-- What the parser calls: on_frame_header with `length`, on_frame_body with `offset`, on_frame_end.
pub data Event : Type 0 where
  frame_header : ℕ → Event
  frame_body : ℕ → Bytes → Event
  frame_end : Event

-- ion_process_ipc_init, with the flags, the buffer and the context of ion_ipc_create
unfoldable pub new_ipc : {P : Type 0} → P → Option ℕ → Ipc P
new_ipc parser ctx = record {
  connected = true;
  ctx = ctx;
  on_message = none;
  on_disconnect = none;
  parser = parser;
  frame_body = null;
  delivered = [];
  disconnects = [];
  written = [];
}

-- ion_ipc_create; `pair` says that ion_buffer_pair succeeds, and `none` is FAILURE.
unfoldable pub create : {P : Type 0} → Bool → P → Option ℕ → Option ℕ → Option (Ipc P × Ipc P)
unfolding new_ipc
create pair parser ctx1 ctx2 =
    if pair then some (new_ipc parser ctx1, new_ipc parser ctx2) else none

-- Both ends, an exception, or a use of NULL.
pub data Created (P : Type 0) : Type 0 where
  created : Ipc P → Ipc P → Created P
  refused crashed : Created P

-- create(); an argument that is left out is `none`, and its reference is taken all the same.
unfoldable pub new_pair : {P : Type 0} → Bool → P → Option ℕ → Option ℕ → Created P
unfolding create
new_pair pair parser ctx1 ctx2 = elim (create pair parser ctx1 ctx2) [
  | none ↦ refused
  | some (one, two) ↦ elim ctx1 [
    | none ↦ crashed
    | some c ↦ elim ctx2 [ none ↦ crashed | some d ↦ created one two ]
  ]
]

-- ion_process_ipc_notification; `eof` and `error` are bits of `what`.
unfoldable pub notification : {P : Type 0} → Bool → Bool → Ipc P → Ipc P
notification eof error i =
    if eof || error
    then record i {
      connected = false;
      disconnects = elim i.on_disconnect [
        | none ↦ i.disconnects
        | some p ↦ i.disconnects ++ p ∷ []
      ];
    }
    else i

unfoldable pub is_connected : {P : Type 0} → Ipc P → Bool
is_connected i = i.connected

unfoldable pub when_incoming : {P : Type 0} → ℕ → Ipc P → Ipc P × ℕ
when_incoming fresh i = elim i.on_message [
  | none ↦ (record i { on_message = some fresh }, fresh)
  | some p ↦ (i, p)
]

unfoldable pub when_disconnected : {P : Type 0} → ℕ → Ipc P → Ipc P × ℕ
when_disconnected fresh i = elim i.on_disconnect [
  | none ↦ (record i { on_disconnect = some fresh }, fresh)
  | some p ↦ (i, p)
]

-- `build` is websocket_build_frame of a last frame of data, of the size that is allocated for it.
unfoldable pub send : {P : Type 0} → (Bytes → Bytes) → Bytes → Ipc P → Ipc P
send build text i = record i { written = i.written ++ build text }

unfoldable pub get_context : {P : Type 0} → Ipc P → Option ℕ
get_context i = i.ctx

-- The NUL behind a text that is not empty.
unfoldable pub terminated : ZendString → Option Bytes
terminated b = if ltb 0 b.len then memcpy b.val b.len (0 ∷ []) else some b.val

-- `alloc n` is `n` bytes of any content. `none` is a use of NULL or of a released string, or a
-- write that leaves the string.
module _ {P : Type 0} (alloc : ℕ → Bytes) where
  -- ion_process_ipc_message_begin
  unfoldable pub message_begin : ℕ → Ipc P → Ipc P
  message_begin size i =
      if size == 0
      then i
      else record i { frame_body = live (record { len = size; val = alloc (size + 1) }) }

  -- ion_process_ipc_message_body
  unfoldable pub message_body : ℕ → Bytes → Ipc P → Option (Ipc P)
  message_body offset at i = elim i.frame_body [
    | null ↦ none
    | freed ↦ none
    | live b ↦ do
      val ← memcpy b.val offset at
      some (record i { frame_body = live (record b { val = val }) })
  ]

  unfoldable pub deliver : Option ℕ → ZendString → Ipc P → Option (Ipc P)
  unfolding terminated
  deliver none b i = some i
  deliver (some p) b i = do
    val ← terminated b
    some (record i { delivered = i.delivered ++ (p, record b { val = val }, i.ctx) ∷ [] })

  -- ion_process_ipc_message_end
  unfoldable pub message_end : Ipc P → Option (Ipc P)
  unfolding deliver
  message_end i = elim i.frame_body [
    | null ↦ none
    | freed ↦ none
    | live b ↦ do i' ← deliver i.on_message b i; some (record i' { frame_body = freed })
  ]

  unfoldable pub on_event : Event → Ipc P → Option (Ipc P)
  unfolding message_begin message_body message_end
  on_event (frame_header size) i = some (message_begin size i)
  on_event (frame_body offset at) i = message_body offset at i
  on_event frame_end i = message_end i

  unfoldable pub on_events : List Event → Ipc P → Option (Ipc P)
  unfolding on_event
  on_events [] i = some i
  on_events (e ∷ rest) i = on_event e i >>= on_events rest

  -- ion_process_ipc_incoming, on the string of ion_buffer_read_all; `execute` is
  -- websocket_parser_execute.
  unfoldable pub incoming : (P → Bytes → P × List Event) → Option Bytes → Ipc P → Option (Ipc P)
  unfolding on_events
  incoming execute none i = none
  incoming execute (some text) i =
      let (parser, events) = execute i.parser text in
      on_events events (record i { parser = parser })

  unfoldable pub incomings : (P → Bytes → P × List Event) → List Bytes → Ipc P → Option (Ipc P)
  unfolding incoming
  incomings execute [] i = some i
  incomings execute (text ∷ rest) i = incoming execute (some text) i >>= incomings execute rest
