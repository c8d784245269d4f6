-- ===== src/Stream/Create.antt =====
-- ion_stream_new_ex and ion_stream_pair of src/classes/ION/Stream.c, ion_buffer_read_all of
-- src/ion/ion_stream.c, and the methods that ask for the state.
use php_ion.Base.{
  ℕ, Option, none, some, [], Bool, true, false, ◌==◌, ◌||◌, ◌&&◌, not, if◌then◌else◌, Bytes, length,
  ◌>>=◌,
}
use php_ion.Stream.{Evbuffer, State, Stream}
use php_ion.Stream.Events.{is_some, is_closed}
use php_ion.Stream.Steps.{new_stream}

abbrev pub no_state : State
no_state = record {
  socket = false;
  pair = false;
  flushed = false;
  has_data = false;
  from_peer = false;
  from_me = false;
  close_on_flush = false;
  enabled = false;
  connected = false;
  eof = false;
  error = false;
  shutdown = false;
  suspended = false;
  reserved = false;
}

-- The bits that ion_stream_new_ex adds for a buffer.
unfoldable pub new_state : State → Bytes → Bytes → State
new_state flags input output =
    if flags.from_peer then record flags { flushed = true } else record flags {
      flushed = flags.flushed || (length output == 0);
      has_data = flags.has_data || not (length input == 0);
    }

-- ion_stream_new_ex; `enables` is the result of bufferevent_enable, and `construct` a constructor of
-- PHP, where `none` is FAILURE.
unfoldable pub new_ex :
    (Stream → Option Stream) → Bool → State → Bytes → Bytes → Option ℕ → Option Stream
unfolding new_state
new_ex construct enables flags input output fd =
    if flags.enabled && not enables
    then none
    else construct (new_stream (new_state flags input output) input output fd)

-- The bits of both streams of ion_stream_pair.
abbrev pub pair_state : State
pair_state = record no_state { socket = true; pair = true; enabled = true; connected = true }

-- ion_stream_pair; the buffers have no descriptor. The flags are the results of bufferevent_pair_new,
-- of the two calls of bufferevent_enable here, and of the one in each ion_stream_new_ex.
unfoldable pub pair :
    (Stream → Option Stream) → Bool → Bool → Bool → Bool → Bool → Option (Stream × Stream)
unfolding new_ex
pair construct creates enables1 enables2 again1 again2 =
    if not creates then none else if not enables1 || not enables2 then none else do
      one ← new_ex construct again1 pair_state [] [] none
      two ← new_ex construct again2 pair_state [] [] none
      some (one, two)

-- ion_buffer_read_all; `none` is NULL.
unfoldable pub read_all_bytes : Evbuffer → Bytes → Option Bytes × Bytes
read_all_bytes e b =
    if length b == 0
    then (some [], b)
    else let (text, rest) = e.read (length b) b in
      (if length text == 0 then none else some text, rest)

-- ION\Stream::isClosed
unfoldable pub asks_closed : Stream → Bool
unfolding is_closed
asks_closed s = is_closed s.state

unfoldable pub is_enabled : Stream → Bool
is_enabled s = s.state.enabled

unfoldable pub has_reading : Stream → Bool
has_reading s = is_some s.read

unfoldable pub has_data : Stream → Bool
has_data s = s.state.has_data

unfoldable pub has_eof : Stream → Bool
has_eof s = s.state.eof

unfoldable pub was_shutdown : Stream → Bool
was_shutdown s = s.state.shutdown

unfoldable pub is_flushed : Stream → Bool
is_flushed s = s.state.flushed

unfoldable pub is_connected : Stream → Bool
is_connected s = s.state.connected

pub data Kind : Type 0 where
  pair_socket socket stream : Kind

-- ION\Stream::getType
unfoldable pub get_type : Stream → Kind
get_type s = if s.state.pair then pair_socket else if s.state.socket then socket else stream
