-- ===== src/Http/WebSocket/Frame.antt =====
-- src/classes/ION/HTTP/WebSocket/Frame.c: a frame, its methods, and how it is parsed and built.
use php_ion.Base.{
  ℕ, ◌%◌, ◌+◌, Option, none, some, List, [], ◌∷◌, ◌++◌, Bool, true, false, ◌==◌, leb, if◌then◌else◌,
  Bytes, ◌>>=◌, length, take,
}
use php_ion.Memory.{memcpy}
use php_ion.Uri.Text.{ZendString}

-- The flags: the operation, WS_FIN and WS_HAS_MASK.
pub record Flags : Type 0 where
  pub opcode : ℕ
  pub fin : Bool
  pub masked : Bool

-- `struct _ion_http_websocket_frame`
pub record Frame : Type 0 where
  pub flags : Flags
  pub mask : Bytes
  pub body : Option ZendString

-- ion_http_websocket_frame_init
abbrev pub new_frame : Frame
new_frame = record {
  flags = record { opcode = 0; fin = false; masked = false };
  mask = 0 ∷ 0 ∷ 0 ∷ 0 ∷ [];
  body = none;
}

-- The flags become `opcode & WS_OP_MASK` alone.
unfoldable pub with_opcode : ℕ → Frame → Frame
with_opcode opcode f = record f {
  flags = record { opcode = opcode % 16; fin = false; masked = false };
}

unfoldable pub get_opcode : Frame → ℕ
get_opcode f = f.flags.opcode

unfoldable pub with_body : ZendString → Frame → Frame
with_body body f = record f { body = some body }

unfoldable pub get_body : Frame → ZendString
get_body f = elim f.body [ none ↦ record { len = 0; val = 0 ∷ [] } | some b ↦ b ]

unfoldable pub with_final_flag : Bool → Frame → Frame
with_final_flag flag f = record f { flags = record f.flags { fin = flag } }

unfoldable pub get_final_flag : Frame → Bool
get_final_flag f = f.flags.fin

unfoldable pub has_masking : Frame → Bool
has_masking f = f.flags.masked

unfoldable pub get_masking : Frame → Bytes
get_masking f = if f.flags.masked then take 4 f.mask else []

-- `address` is four bytes of the address of the object.
unfoldable pub with_masking : Bytes → Option Bytes → Frame → Frame
with_masking address none f = record f { mask = address }
with_masking address (some mask) f =
    if leb 4 (length mask)
    then record f { flags = record f.flags { masked = true }; mask = take 4 mask }
    else record f { mask = address }

unfoldable pub without_masking : Frame → Frame
without_masking f = record f { flags = record f.flags { masked = false } }

-- build(): `size` is websocket_calc_frame_size and `bytes` websocket_build_frame; `none` is a read
-- of NULL or the failed assertion on both sizes.
unfoldable pub build : (Flags → ℕ → ℕ) → (Flags → Bytes → Bytes → Bytes) → Frame → Option ZendString
build size bytes f = do
  b ← f.body
  let len = size f.flags b.len
  let raw = bytes f.flags f.mask (take b.len b.val)
  if length raw == len then some (record { len = len; val = raw ++ 0 ∷ [] }) else none

-- What the parser calls: on_frame_header with the length, the flags and the mask, on_frame_body
-- with `offset`, on_frame_end.
pub data Event : Type 0 where
  frame_header : ℕ → Flags → Bytes → Event
  frame_body : ℕ → Bytes → Event
  frame_end : Event

-- Goes on with the string, stops the parser, or is a use of NULL or a write that leaves the string.
pub data Step : Type 0 where
  next : Option ZendString → Step
  stopped : Step
  crashed : Step

-- `alloc n` is `n` bytes of any content; `decode` is websocket_parser_decode with a mask at an offset.
module _ (alloc : ℕ → Bytes) (decode : Bytes → ℕ → Bytes → Bytes) where
  -- zend_string_alloc(len) with a NUL behind it
  unfoldable pub new_body : ℕ → Option ZendString
  new_body len = do
    val ← memcpy (alloc (len + 1)) len (0 ∷ [])
    some (record { len = len; val = val })

  unfoldable pub unmasked : Flags → Bytes → ℕ → Bytes → Bytes
  unmasked flags mask offset at = if flags.masked then decode mask offset at else at

  -- ion_websocket_frame_header
  unfoldable pub on_header : ℕ → Option ZendString → Step
  unfolding new_body
  on_header len (some b) = stopped
  on_header len none = elim (new_body len) [ none ↦ crashed | some b ↦ next (some b) ]

  -- ion_websocket_frame_body: every piece goes to the start of the string.
  unfoldable pub on_body : Flags → Bytes → ℕ → Bytes → Option ZendString → Step
  unfolding unmasked
  on_body flags mask offset at none = crashed
  on_body flags mask offset at (some b) = elim (memcpy b.val 0 (unmasked flags mask offset at)) [
    | none ↦ crashed
    | some val ↦ next (some (record b { val = val }))
  ]

  -- The string that was gathered, with the flags and the mask of the last header.
  unfoldable pub gather :
      List Event → Flags → Bytes → Option ZendString → Option (Flags × Bytes × Option ZendString)
  unfolding on_header on_body
  gather [] flags mask body = some (flags, mask, body)
  gather (frame_header len new_flags new_mask ∷ rest) flags mask body = elim (on_header len body) [
    | next b ↦ gather rest new_flags new_mask b
    | stopped ↦ some (new_flags, new_mask, body)
    | crashed ↦ none
  ]
  gather (frame_body offset at ∷ rest) flags mask body = elim (on_body flags mask offset at body) [
    | next b ↦ gather rest flags mask b
    | stopped ↦ some (flags, mask, body)
    | crashed ↦ none
  ]
  gather (frame_end ∷ rest) flags mask body = gather rest flags mask body

  -- parse(); the mask is copied only with WS_HAS_MASK.
  unfoldable pub parse : List Event → Option Frame
  unfolding gather
  parse events = do
    (flags, mask, body) ← gather events new_frame.flags new_frame.mask none
    some (record {
      flags = flags;
      mask = if flags.masked then mask else new_frame.mask;
      body = body;
    })
