-- ===== src/Stream/Coherent.antt =====
-- What the promises of a stream say of its state, kept by the methods of src/classes/ION/Stream.c.
pub mod Results
pub mod Events
use php_ion.Base.{
  ℕ, ◌+◌, ◌≡◌, refl, sym, ap, ◌∙◌, Option, none, some, Bool, true, false, if◌then◌else◌, ◌==◌, not,
  Bytes, length, arith, Bool-cases, Option-cases, inl, inr,
}
use php_ion.Stream.{
  Evbuffer, Token, TokenFlags, Stream, State, World, Env, Outcome, update, set_state,
}
use php_ion.Stream.Events.{is_some, is_closed}
use php_ion.Stream.Methods.{Answer, check_buffer, check_stream, check_state, new_deferred}
use php_ion.Stream.Methods.Reading.{
  get, get_all, search, get_line, read, read_line, read_all, take_bytes, take_token,
}
use php_ion.Stream.Methods.Control.{
  stream_write, write, append_to_input, enable, disable, connect, set_priority, set_input_max_size,
  flush, get_size, incoming, suspend, resume, closed,
}

-- A token belongs to a pending read; a pending flush() means that output is left, and a pending
-- connect() that the stream is not connected.
pub record Coherent (s : Stream) : Type 0 where
  pub of_read : is_some s.read ≡ false → is_some s.token ≡ false
  pub of_flush : is_some s.flush ≡ true → s.state.flushed ≡ false
  pub of_connect : is_some s.connect ≡ true → s.state.connected ≡ false

module _ (e : Evbuffer) {S : Type 0} where
  pub get-Coherent : (n : ℕ) (w : World S) → Coherent w.stream → Coherent (get e n w).1.stream
  unfolding get check_buffer take_bytes update set_state
  get-Coherent n w k = ground (arith, k)

  pub get_all-Coherent : (w : World S) → Coherent w.stream → Coherent (get_all e w).1.stream
  unfolding get_all check_buffer take_bytes update set_state
  get_all-Coherent w k = ground (arith, k)

  pub search-Coherent :
      (word : Bytes) (offset n : ℕ) (w : World S)
      → Coherent w.stream
      → Coherent (search e word offset n w).1.stream
  unfolding search check_buffer update set_state
  search-Coherent word offset n w k = ground (arith, k)

  pub get_line-Coherent :
      (word : Bytes) (mode : TokenFlags) (n : ℕ) (w : World S)
      → Coherent w.stream
      → Coherent (get_line e word mode n w).1.stream
  unfolding get_line check_buffer take_token update set_state
  get_line-Coherent word mode n w k = ground (arith, k)

  pub read-Coherent : (n : ℕ) (w : World S) → Coherent w.stream → Coherent (read e n w).1.stream
  unfolding read check_buffer take_bytes new_deferred update set_state
  read-Coherent n w k = ground (arith, k)

  pub read_line-Coherent :
      (word : Bytes) (mode : TokenFlags) (n : ℕ) (w : World S)
      → Coherent w.stream
      → Coherent (read_line e word mode n w).1.stream
  unfolding read_line check_buffer take_token new_deferred update set_state
  read_line-Coherent word mode n w k = ground (arith, k)

  pub read_all-Coherent : (w : World S) → Coherent w.stream → Coherent (read_all e w).1.stream
  unfolding read_all check_buffer take_bytes new_deferred update set_state
  read_all-Coherent w k = ground (arith, k)

  pub write-Coherent :
      (d : Bytes) (w : World S) → Coherent w.stream → Coherent (write e d w).1.stream
  unfolding write check_buffer check_stream check_state stream_write is_closed update set_state
  write-Coherent d w k = ground (arith, k)

  pub append_to_input-Coherent :
      (d : Bytes) (w : World S) → Coherent w.stream → Coherent (append_to_input e d w).1.stream
  unfolding append_to_input check_buffer check_stream check_state is_closed update set_state
  append_to_input-Coherent d w k = ground (arith, k)

module _ {S : Type 0} where
  pub enable-Coherent :
      (ok : Bool) (w : World S) → Coherent w.stream → Coherent (enable ok w).1.stream
  unfolding enable check_buffer update set_state
  enable-Coherent ok w k = ground (arith, k)

  pub disable-Coherent :
      (ok : Bool) (w : World S) → Coherent w.stream → Coherent (disable ok w).1.stream
  unfolding disable check_buffer update set_state
  disable-Coherent ok w k = ground (arith, k)

  pub connect-Coherent : (w : World S) → Coherent w.stream → Coherent (connect w).1.stream
  unfolding connect check_buffer new_deferred update set_state
  connect-Coherent w k = ground (arith, k)

  pub set_priority-Coherent :
      (n : ℕ) (w : World S) → Coherent w.stream → Coherent (set_priority n w).1.stream
  unfolding set_priority check_buffer update set_state
  set_priority-Coherent n w k = ground (arith, k)

  pub set_input_max_size-Coherent :
      (n : ℕ) (w : World S) → Coherent w.stream → Coherent (set_input_max_size n w).1.stream
  unfolding set_input_max_size check_buffer update set_state
  set_input_max_size-Coherent n w k = ground (arith, k)

  pub flush-Coherent : (w : World S) → Coherent w.stream → Coherent (flush w).1.stream
  unfolding flush check_buffer new_deferred update set_state
  flush-Coherent w k = ground (arith, k)

  pub get_size-Coherent :
      (n : ℕ) (w : World S) → Coherent w.stream → Coherent (get_size n w).1.stream
  unfolding get_size check_buffer update set_state
  get_size-Coherent n w k = ground (arith, k)

  pub incoming-Coherent : (w : World S) → Coherent w.stream → Coherent (incoming w).1.stream
  unfolding incoming check_buffer update set_state
  incoming-Coherent w k = ground (arith, k)

  pub suspend-Coherent : (w : World S) → Coherent w.stream → Coherent (suspend w).1.stream
  unfolding suspend update set_state
  suspend-Coherent w k = ground (arith, k)

  pub resume-Coherent : (w : World S) → Coherent w.stream → Coherent (resume w).1.stream
  unfolding resume update set_state
  resume-Coherent w k = ground (arith, k)

  pub closed-Coherent : (w : World S) → Coherent w.stream → Coherent (closed w).1.stream
  unfolding closed check_buffer new_deferred is_closed update set_state
  closed-Coherent w k = ground (arith, k)
