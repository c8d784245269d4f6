-- ===== src/Stream.antt =====
-- src/classes/ION/Stream.c, src/ion/ion_stream.c and src/ion/ion_stream.h: streams with an input and
-- an output buffer, and the promises that wait for them.
--
-- A stream is seen together with everything else that PHP code can change. The buffers are lists of
-- bytes; what libevent does with them is the parameter Evbuffer.
pub mod Search
pub mod Events
pub mod Methods
pub mod Lines
pub mod Coherent
pub mod Steps
pub mod Closing
pub mod Create
pub mod Pairs
pub mod Chunks
use php_ion.Base.{
  ℕ, Option, none, some, List, Bool, true, false, Bytes, length, take, drop, ◌≡◌, ◌≤◌, ◌<◌,
}

-- The functions of libevent on the bytes of a buffer.
pub record Evbuffer : Type 0 where
  -- bufferevent_read: the bytes that were read, and those that stay
  pub read : ℕ → Bytes → Bytes × Bytes
  -- evbuffer_drain; `none` is FAILURE
  pub drain : ℕ → Bytes → Option Bytes
  -- evbuffer_ptr_set of a position
  pub ptr_set : Bytes → ℕ → Bool
  -- evbuffer_search for a text from a position, and evbuffer_search_range up to another
  pub search : Bytes → Bytes → ℕ → Option ℕ
  pub search_range : Bytes → Bytes → ℕ → ℕ → Option ℕ
  -- bufferevent_write and evbuffer_add: a text behind the bytes of a buffer
  pub add : Bytes → Bytes → Option Bytes

-- `flags` of a token, with ION_STREAM_TOKEN_MODE_MASK and ION_STREAM_TOKEN_LIMIT.
pub record TokenFlags : Type 0 where
  pub trim : Bool
  pub with_token : Bool
  pub without_token : Bool
  pub limit : Bool

-- `struct _ion_stream_token`: `length` and `offset` are 64 bits; `position` -1 is `none`.
pub record Token : Type 0 where
  pub token : Bytes
  pub length : ℕ
  pub offset : ℕ
  pub flags : TokenFlags
  pub position : Option ℕ

-- The bits of `state` that the code reads.
pub record State : Type 0 where
  pub socket : Bool
  pub pair : Bool
  pub flushed : Bool
  pub has_data : Bool
  pub from_peer : Bool
  pub from_me : Bool
  pub close_on_flush : Bool
  pub enabled : Bool
  pub connected : Bool
  pub eof : Bool
  pub error : Bool
  pub shutdown : Bool
  pub suspended : Bool
  pub reserved : Bool

-- `struct _ion_stream`. The promises are numbers. `fd` is the descriptor of the buffer, and
-- `low` and `high` are its watermarks for reading. Whether libevent waits
-- for input or output of the buffer is not kept.
pub record Stream : Type 0 where
  pub state : State
  pub has_buffer : Bool
  pub input : Bytes
  pub output : Bytes
  pub fd : Option ℕ
  pub low : ℕ
  pub high : ℕ
  pub length : ℕ
  pub input_size : ℕ
  pub priority : ℕ
  pub token : Option Token
  pub read : Option ℕ
  pub flush : Option ℕ
  pub connect : Option ℕ
  pub shutdown : Option ℕ
  pub incoming : Option ℕ
  pub error : Option ℕ

-- What a promise of the stream is settled with.
pub data Outcome : Type 0 where
  done_string : Bytes → Outcome
  done_true done_false done_stream : Outcome
  -- ion_promisor_fail, and ion_promisor_rethrow with a new StreamException
  failed : ℕ → Outcome
  rethrown : Outcome

-- The stream, the number of the next object, and all else.
pub record World (S : Type 0) : Type 0 where
  pub stream : Stream
  pub next : ℕ
  pub rest : S

-- The handlers of a promise run; they may change everything. A descriptor is closed.
pub record Env (S : Type 0) : Type 0 where
  pub react : ℕ → Outcome → World S → World S
  pub close_socket : ℕ → S → S
  pub close_file : ℕ → S → S

unfoldable pub update : {S : Type 0} → (Stream → Stream) → World S → World S
update f w = record w { stream = f w.stream }

unfoldable pub set_state : {S : Type 0} → (State → State) → World S → World S
unfolding update
set_state f w = update (λ s. record s { state = f s.state }) w
