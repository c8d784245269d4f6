-- ===== src/Stream/Methods/Control.antt =====
-- src/classes/ION/Stream.c and ion_stream_write of src/ion/ion_stream.c: the methods of ION\Stream
-- that write, wait, close and ask.
use php_ion.Base.{
  ℕ, ◌+◌, ◌^◌, Option, none, some, Bool, true, false, ◌==◌, ◌&&◌, ◌||◌, ltb, leb, if◌then◌else◌,
  Bytes, length,
}
use php_ion.Stream.{Evbuffer, World, Env, update, set_state}
use php_ion.Stream.Events.{close_fd, is_closed}
use php_ion.Stream.Methods.{
  Answer, check_buffer, check_stream, new_deferred, this, nothing, deferred, sequence, number,
  boolean, threw, write_failed, append_failed, priority_invalid, negative_size, buffer_id_invalid,
  enable_failed,
}

module _ (e : Evbuffer) {S : Type 0} where
  -- ion_stream_write; `none` is `false`.
  unfoldable pub stream_write : Bytes → World S → Option (World S)
  unfolding update
  stream_write d w = elim (e.add w.stream.output d) [
    | none ↦ none
    | some output ↦ some (
        update
          (λ s. record s {
            output = output;
            state = record s.state { flushed = s.state.flushed && (length output == 0) };
          })
          w)
  ]

  -- ION\Stream::write
  unfoldable pub write : Bytes → World S → Answer × World S
  unfolding check_stream
  write d w = check_stream w (
      if length d == 0
      then (this, w)
      else elim (stream_write d w) [ none ↦ (threw write_failed, w) | some w' ↦ (this, w') ])

  -- ION\Stream::appendToInput
  unfoldable pub append_to_input : Bytes → World S → Answer × World S
  unfolding check_stream update
  append_to_input d w = check_stream w (
      if length d == 0 then (this, w) else elim (e.add w.stream.input d) [
        | none ↦ (threw append_failed, w)
        | some input ↦ (
          this,
          update (λ s. record s { input = input; state = record s.state { flushed = false } }) w,
        )
      ])

module _ {S : Type 0} where
  -- ION\Stream::enable; the flag says that libevent enables the buffer.
  unfoldable pub enable : Bool → World S → Answer × World S
  unfolding check_buffer set_state
  enable ok w = check_buffer w (
      if ok
      then (this, set_state (λ s. record s { enabled = true }) w)
      else (threw enable_failed, w))

  -- ION\Stream::disable
  unfoldable pub disable : Bool → World S → Answer × World S
  unfolding check_buffer set_state
  disable ok w =
      check_buffer w (this, if ok then set_state (λ s. record s { enabled = false }) w else w)

  -- ION\Stream::connect
  unfoldable pub connect : World S → Answer × World S
  unfolding check_buffer new_deferred
  connect w = check_buffer w (
      if w.stream.state.connected
      then (boolean true, w)
      else new_deferred (λ p s. record s { connect = some p }) w)

  -- ION\Stream::setPriority, up to ION_MAX_PRIORITY
  unfoldable pub set_priority : ℕ → World S → Answer × World S
  unfolding check_buffer update
  set_priority n w = check_buffer w (
      if ltb 6 n
      then (threw priority_invalid, w)
      else (this, update (λ s. record s { priority = n }) w))

  -- ION\Stream::setInputMaxSize
  unfoldable pub set_input_max_size : ℕ → World S → Answer × World S
  unfolding check_buffer update
  set_input_max_size n w = check_buffer w (
      if leb (2 ^ 63) n then (threw negative_size, w) else (
        this,
        update
            (λ s. record s {
              input_size = n;
              low = s.length;
              high = if leb s.length n then n else s.length;
            })
            w,
      ))

  -- ION\Stream::flush
  unfoldable pub flush : World S → Answer × World S
  unfolding check_buffer new_deferred
  flush w = elim w.stream.flush [
    | some p ↦ (deferred p, w)
    | none ↦ check_buffer w (
        if w.stream.state.flushed
        then (boolean true, w)
        else new_deferred (λ p s. record s { flush = some p }) w)
  ]

  -- ION\Stream::getSize; EV_READ is 2, and EV_WRITE is 4.
  unfoldable pub get_size : ℕ → World S → Answer × World S
  unfolding check_buffer
  get_size n w = check_buffer w (
      if n == 2
      then (number (length w.stream.input), w)
      else if n == 4
      then (number (length w.stream.output), w)
      else (threw buffer_id_invalid, w))

  -- ION\Stream::shutdown. After ion_stream_close_fd nothing is returned.
  unfoldable pub shutdown : Env S → Bool → World S → Answer × World S
  unfolding check_buffer set_state is_closed
  shutdown env force w = check_buffer w (
      if is_closed w.stream.state
      then (this, w)
      else if w.stream.state.flushed || force
      then (nothing, close_fd env w)
      else (this, set_state (λ s. record s { close_on_flush = true }) w))

  -- ION\Stream::incoming
  unfoldable pub incoming : World S → Answer × World S
  unfolding check_buffer
  incoming w = check_buffer w (elim w.stream.incoming [
    | some p ↦ (sequence p, w)
    | none ↦ (
      sequence w.next,
      record w { stream = record w.stream { incoming = some w.next }; next = w.next + 1 },
    )
  ])

  -- ION\Stream::suspend
  unfoldable pub suspend : World S → Answer × World S
  unfolding set_state
  suspend w = (this, set_state (λ s. record s { suspended = true }) w)

  -- ION\Stream::resume
  unfoldable pub resume : World S → Answer × World S
  unfolding set_state
  resume w = (this, set_state (λ s. record s { suspended = false }) w)

  -- ION\Stream::closed
  unfoldable pub closed : World S → Answer × World S
  unfolding check_buffer new_deferred is_closed
  closed w = check_buffer w (elim w.stream.shutdown [
    | some p ↦ (deferred p, w)
    | none ↦
        if is_closed w.stream.state
        then (this, w)
        else new_deferred (λ p s. record s { shutdown = some p }) w
  ])
