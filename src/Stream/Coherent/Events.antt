-- ===== src/Stream/Coherent/Events.antt =====
-- The callbacks of src/classes/ION/Stream.c, and its shutdown(), keep what the promises of a stream say
-- of its state.
use php_ion.Base.{
  ◌≡◌, none, Bool, true, false, ◌==◌, ◌&&◌, ◌||◌, leb, not, length, arith, Bool-cases, Option-cases,
  inl, inr,
}
use php_ion.Stream.{
  Evbuffer, Token, World, Env, Outcome, done_stream, done_true, done_string, done_false, failed,
  rethrown, update, set_state,
}
use php_ion.Stream.Search.{search_token, read_token, stream_read}
use php_ion.Stream.Events.{
  is_some, is_closed, What, settle_read, settle_flush, settle_connect, settle_shutdown, close_fd,
  output_flush, on_output, notify_incoming, input_token, input_length, input_read, on_input,
  notify_eof_read, on_notify,
}
use php_ion.Stream.Methods.{check_buffer}
use php_ion.Stream.Methods.Control.{shutdown}
use php_ion.Stream.Coherent.{Coherent}
use php_ion.Stream.Coherent.Results.{
  HandlersKeep, Kept, returned, if-Coherent, option-Coherent, if-Kept, option-Kept, after_call,
}

module _ {S : Type 0} (env : Env S) (keep : HandlersKeep env) where
  settle_read-Coherent :
      (o : Outcome) (w : World S) → Coherent w.stream → Coherent (settle_read env o w).stream
  unfolding settle_read update
  settle_read-Coherent o w k = elim (Option-cases w.stream.read) [
    | inl h ↦ simp (h, settle_read) k
    | inr (p, h) ↦
        simp (h, settle_read)
          (keep p o (record w { stream = record w.stream { token = none; read = none } })
            (ground (arith, k)))
  ]

  settle_flush-Coherent :
      (o : Outcome) (w : World S) → Coherent w.stream → Coherent (settle_flush env o w).stream
  unfolding settle_flush update
  settle_flush-Coherent o w k = elim (Option-cases w.stream.flush) [
    | inl h ↦ simp (h, settle_flush) k
    | inr (p, h) ↦
        simp (h, settle_flush)
          (keep p o (record w { stream = record w.stream { flush = none } }) (ground (arith, k)))
  ]

  settle_connect-Coherent :
      (o : Outcome) (w : World S) → Coherent w.stream → Coherent (settle_connect env o w).stream
  unfolding settle_connect update
  settle_connect-Coherent o w k = elim (Option-cases w.stream.connect) [
    | inl h ↦ simp (h, settle_connect) k
    | inr (p, h) ↦
        simp (h, settle_connect)
          (keep p o (record w { stream = record w.stream { connect = none } }) (ground (arith, k)))
  ]

  settle_shutdown-Coherent :
      (o : Outcome) (w : World S) → Coherent w.stream → Coherent (settle_shutdown env o w).stream
  unfolding settle_shutdown update
  settle_shutdown-Coherent o w k = elim (Option-cases w.stream.shutdown) [
    | inl h ↦ simp (h, settle_shutdown) k
    | inr (p, h) ↦
        simp (h, settle_shutdown)
          (keep p o (record w { stream = record w.stream { shutdown = none } }) (ground (arith, k)))
  ]

  close_fd-Coherent : (w : World S) → Coherent w.stream → Coherent (close_fd env w).stream
  unfolding close_fd update set_state
  close_fd-Coherent w k = elim (Option-cases w.stream.fd) [
    | inl h ↦ simp h (if-Coherent w.stream.state.reserved _ _ k (ground (arith, k)))
    | inr (d, h) ↦ simp h (
        if-Coherent w.stream.state.reserved _ _ k
          (settle_shutdown-Coherent done_stream _ (ground (arith, k))))
  ]

  notify_incoming-Coherent :
      (w : World S) → Coherent w.stream → Coherent (notify_incoming env w).stream
  unfolding notify_incoming
  notify_incoming-Coherent w k = elim (Option-cases w.stream.incoming) [
    | inl h ↦ simp (h, notify_incoming) k
    | inr (p, h) ↦
        simp (h, notify_incoming)
          (if-Coherent
            (not (is_some w.stream.read) && not w.stream.state.suspended && w.stream.state.has_data)
            _ _ (keep p done_stream w k) k)
  ]

  output_flush-Coherent : (w : World S) → Coherent w.stream → Coherent (output_flush env w).stream
  unfolding output_flush update
  output_flush-Coherent w k =
      if-Coherent (is_some w.stream.flush) _ _
        (let l : Coherent (settle_flush env done_true w).stream =
            settle_flush-Coherent done_true w k in
          ground (arith, l))
        k

  output_flush-none : (w : World S) → is_some (output_flush env w).stream.flush ≡ false
  unfolding output_flush update
  output_flush-none w = ground arith

  pub on_output-Coherent : (w : World S) → Coherent w.stream → Coherent (on_output env w).stream
  unfolding on_output set_state update
  on_output-Coherent w k =
      let l : Coherent (output_flush env w).stream = output_flush-Coherent w k in
      let none' : is_some (output_flush env w).stream.flush ≡ false = output_flush-none w in
      let flushed : Coherent
          (set_state (λ s. record s { flushed = true }) (output_flush env w)).stream =
        ground (arith, l, none') in
      if-Coherent (output_flush env w).stream.state.close_on_flush _ _ (close_fd-Coherent _ flushed)
        flushed

  -- The promise of connect() is gone before its handlers run.
  connected-Coherent :
      (w : World S)
      → Coherent w.stream
      → Coherent
          (settle_connect env done_stream (set_state (λ s. record s { connected = true }) w)).stream
  unfolding settle_connect set_state update
  connected-Coherent w k = elim (Option-cases w.stream.connect) [
    | inl h ↦ simp (h, settle_connect) (ground (arith, k, h))
    | inr (p, h) ↦ simp (h, settle_connect) (keep p done_stream _ (ground (arith, k)))
  ]

  module _ (e : Evbuffer) where
    input_token-Coherent :
        (t : Token) (w : World S)
        → Coherent w.stream
        → is_some w.stream.read ≡ true
        → Coherent (input_token env e t w).stream
    unfolding input_token update
    input_token-Coherent t w k r =
        option-Coherent (search_token e w.stream.input t) _ _ (settle_read-Coherent rethrown w k)
          (λ t'.
            option-Coherent t'.position _ _
              (if-Coherent t'.flags.limit _ _
                (settle_read-Coherent done_false _ (ground (arith, k, r))) (ground (arith, k, r)))
              (λ p.
                option-Coherent (read_token e t' p w.stream.input).0 _ _ (ground (arith, k, r))
                  (λ d. settle_read-Coherent (done_string d) _ (ground (arith, k, r)))))

    notify_eof_read-Coherent :
        (w : World S) → Coherent w.stream → Coherent (notify_eof_read env e w).stream
    unfolding notify_eof_read update
    notify_eof_read-Coherent w k =
        if-Coherent (is_some w.stream.read) _ _
          (if-Coherent (is_some w.stream.token || not (w.stream.length == 0)) _ _
            (settle_read-Coherent done_false w k)
            (option-Coherent (stream_read e (length w.stream.input) w.stream.input).0 _ _
              (settle_read-Coherent rethrown _ (ground (arith, k)))
              (λ d. settle_read-Coherent (done_string d) _ (ground (arith, k)))))
          k

    input_length-Kept : (w : World S) → Coherent w.stream → Kept (input_length env e w)
    unfolding input_length update
    input_length-Kept w k =
        if-Kept (leb w.stream.length (length w.stream.input)) _ _
          (option-Kept (stream_read e w.stream.length w.stream.input).0 _
            (λ d. returned _ (settle_read-Coherent (done_string d) _ (ground (arith, k)))))
          (returned w k)

    input_read-Kept :
        (w : World S) → Coherent w.stream → is_some w.stream.read ≡ true → Kept (input_read env e w)
    unfolding input_read
    input_read-Kept w k r = elim (Option-cases w.stream.token) [
      | inl h ↦
          simp (h, input_read)
            (if-Kept (w.stream.length == 0) _ _ (returned w k) (input_length-Kept w k))
      | inr (t, h) ↦ simp (h, input_read) (returned _ (input_token-Coherent t w k r))
    ]

    pub on_input-Kept : (w : World S) → Coherent w.stream → Kept (on_input env e w)
    unfolding on_input set_state update
    on_input-Kept w k = elim (Bool-cases (is_some w.stream.read)) [
      | inl r ↦ simp r (
          after_call (input_read-Kept w k r)
            (λ v l. returned _ (notify_incoming-Coherent _ (ground (arith, l)))))
      | inr r ↦ simp r (returned _ (notify_incoming-Coherent _ (ground (arith, k))))
    ]

    pub on_notify-Coherent :
        (what : What) (w : World S) → Coherent w.stream → Coherent (on_notify env e what w).stream
    unfolding on_notify set_state update
    on_notify-Coherent what w k =
        if-Coherent what.eof _ _
          (settle_shutdown-Coherent done_stream _ (notify_eof_read-Coherent _ (ground (arith, k))))
          (if-Coherent what.error _ _
            (settle_shutdown-Coherent done_stream _ (
              settle_flush-Coherent (failed w.next) _ (
                settle_read-Coherent (failed w.next) _
                  (settle_connect-Coherent (failed w.next) _ (ground (arith, k))))))
            (if-Coherent what.timeout _ _ k
              (if-Coherent what.connected _ _ (connected-Coherent w k) k)))

  -- shutdown() keeps it.
  pub shutdown-Coherent :
      (force : Bool) (w : World S) → Coherent w.stream → Coherent (shutdown env force w).1.stream
  unfolding shutdown check_buffer set_state is_closed update
  shutdown-Coherent force w k =
      let closed : Coherent (close_fd env w).stream = close_fd-Coherent w k in
      ground (arith, k, closed)
