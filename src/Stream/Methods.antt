-- ===== src/Stream/Methods.antt =====
-- src/classes/ION/Stream.c: the methods of ION\Stream.
--
-- Arguments of type int are the 64 bits of a word. Results are values of Answer; an exception is
-- `threw`.
pub mod Reading
pub mod Control
use php_ion.Base.{
  ℕ, ◌+◌, Option, none, some, Bool, true, false, Bytes, if◌then◌else◌, ◌==◌, ◌&&◌, ◌||◌,
}
use php_ion.Stream.{State, Stream, World, TokenFlags, Token}
use php_ion.Stream.Events.{is_closed}

pub data Fault : Type 0 where
  not_initialized terminated corrupted was_shut_down : Fault
  locked empty_token search_failed read_failed drain_failed write_failed append_failed : Fault
  priority_invalid negative_size buffer_id_invalid enable_failed : Fault

pub data Answer : Type 0 where
  this nothing : Answer
  deferred sequence number : ℕ → Answer
  -- the position of a token; `none` is -1
  position : Option ℕ → Answer
  text : Bytes → Answer
  boolean : Bool → Answer
  threw : Fault → Answer

-- CHECK_STREAM_BUFFER
unfoldable pub check_buffer : {S : Type 0} → World S → Answer × World S → Answer × World S
check_buffer w k = if w.stream.has_buffer then k else (threw not_initialized, w)

-- CHECK_STREAM_STATE
unfoldable pub check_state : {S : Type 0} → World S → Answer × World S → Answer × World S
unfolding is_closed
check_state w k =
    if is_closed w.stream.state
    then if w.stream.state.eof
      then (threw terminated, w)
      else if w.stream.state.error
      then (threw corrupted, w)
      else if w.stream.state.shutdown
      then (threw was_shut_down, w)
      else (nothing, w)
    else k

-- CHECK_STREAM
unfoldable pub check_stream : {S : Type 0} → World S → Answer × World S → Answer × World S
unfolding check_buffer check_state
check_stream w k = check_buffer w (check_state w k)

-- ion_promisor_deferred_new_ex for one field of the stream.
unfoldable pub new_deferred : {S : Type 0} → (ℕ → Stream → Stream) → World S → Answer × World S
new_deferred f w = (deferred w.next, record w { stream = f w.next w.stream; next = w.next + 1 })
