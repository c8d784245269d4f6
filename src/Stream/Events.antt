-- ===== src/Stream/Events.antt =====
-- src/classes/ION/Stream.c: the callbacks of libevent _ion_stream_input, _ion_stream_output and
-- _ion_stream_notify, and ion_stream_close_fd.
--
-- A deferred of the stream runs its destructor first, which takes it out of the stream, and then its
-- handlers.
use php_ion.Base.{
  ℕ, ◌+◌, Option, none, some, Bool, true, false, ◌==◌, ◌||◌, ◌&&◌, not, leb, ltb, if◌then◌else◌,
  length,
}
use php_ion.Stream.{
  Evbuffer, Token, State, World, Env, Outcome, update, set_state, done_string, done_true,
  done_false, done_stream, failed, rethrown,
}
use php_ion.Stream.Search.{search_token, stream_read, read_token}

-- The bits of `what`.
pub record What : Type 0 where
  pub eof : Bool
  pub error : Bool
  pub timeout : Bool
  pub connected : Bool

abbrev pub is_some {ℓ} : {A : Type ℓ} → Option A → Bool
is_some none = false
is_some (some a) = true

-- ION_STREAM_STATE_CLOSED
unfoldable pub is_closed : State → Bool
is_closed s = s.eof || s.error || s.shutdown

module _ {S : Type 0} (env : Env S) where
  -- _ion_stream_read_dtor, and what the promise was waited for.
  unfoldable pub settle_read : Outcome → World S → World S
  unfolding update
  settle_read o w = elim w.stream.read [
    | none ↦ w
    | some p ↦ env.react p o (update (λ s. record s { token = none; read = none }) w)
  ]

  -- _ion_stream_flush_dtor
  unfoldable pub settle_flush : Outcome → World S → World S
  unfolding update
  settle_flush o w = elim w.stream.flush [
    | none ↦ w
    | some p ↦ env.react p o (update (λ s. record s { flush = none }) w)
  ]

  -- _ion_stream_connect_dtor
  unfoldable pub settle_connect : Outcome → World S → World S
  unfolding update
  settle_connect o w = elim w.stream.connect [
    | none ↦ w
    | some p ↦ env.react p o (update (λ s. record s { connect = none }) w)
  ]

  -- _deferred_stream_closing_dtor
  unfoldable pub settle_shutdown : Outcome → World S → World S
  unfolding update
  settle_shutdown o w = elim w.stream.shutdown [
    | none ↦ w
    | some p ↦ env.react p o (update (λ s. record s { shutdown = none }) w)
  ]

  -- ion_stream_close_fd
  unfoldable pub close_fd : World S → World S
  unfolding set_state
  close_fd w =
      if w.stream.state.reserved
      then w
      else let w1 : World S = set_state (λ s. record s { shutdown = true }) w in
        elim w1.stream.fd [
          | none ↦ w1
          | some fd ↦
              let w2 : World S =
                if w1.stream.state.socket
                then record w1 { rest = env.close_socket fd w1.rest }
                else if ltb 2 fd
                then record w1 { rest = env.close_file fd w1.rest }
                else w1 in
              settle_shutdown done_stream (update (λ s. record s { fd = none }) w2)
        ]

  -- The promise of _ion_stream_output.
  unfoldable pub output_flush : World S → World S
  unfolding update
  output_flush w =
      if is_some w.stream.flush
      then update (λ s. record s { flush = none }) (settle_flush done_true w)
      else w

  -- _ion_stream_output
  unfoldable pub on_output : World S → World S
  unfolding set_state
  on_output w =
      let w1 : World S = set_state (λ s. record s { flushed = true }) (output_flush w) in
      if w1.stream.state.close_on_flush then close_fd w1 else w1

  -- The end of _ion_stream_input: the handlers of incoming data.
  unfoldable pub notify_incoming : World S → World S
  notify_incoming w = elim w.stream.incoming [
    | none ↦ w
    | some p ↦
        if not (is_some w.stream.read) && not w.stream.state.suspended && w.stream.state.has_data
        then env.react p done_stream w
        else w
  ]

  module _ (e : Evbuffer) where
    -- readLine(): a token that was found is read at once. Where that throws, the promise goes on
    -- waiting, and the exception is reported at the end of the callback.
    unfoldable pub input_token : Token → World S → World S
    unfolding update
    input_token t w = elim (search_token e w.stream.input t) [
      | none ↦ settle_read rethrown w
      | some t' ↦
          let w1 : World S = update (λ s. record s { token = some t' }) w in
          elim t'.position [
            | none ↦ if t'.flags.limit then settle_read done_false w1 else w1
            | some p ↦
                let (text, input) = read_token e t' p w1.stream.input in
                let w2 : World S = update (λ s. record s { input = input }) w1 in
                elim text [ none ↦ w2 | some d ↦ settle_read (done_string d) w2 ]
          ]
    ]

    -- read(); `none` is the use of NULL.
    unfoldable pub input_length : World S → Option (World S)
    unfolding update
    input_length w =
        if leb w.stream.length (length w.stream.input)
        then (let (text, input) = stream_read e w.stream.length w.stream.input in
            let w1 : World S =
              update (λ s. record s { input = input; low = 0; high = s.input_size }) w in
            elim text [ none ↦ none | some d ↦ some (settle_read (done_string d) w1) ])
        else some w

    -- The promise of _ion_stream_input.
    unfoldable pub input_read : World S → Option (World S)
    input_read w = elim w.stream.token [
      | some t ↦ some (input_token t w)
      | none ↦ if w.stream.length == 0 then some w else input_length w
    ]

    -- _ion_stream_input
    unfoldable pub on_input : World S → Option (World S)
    unfolding set_state
    on_input w =
        if is_some w.stream.read
        then elim (input_read w) [
          | none ↦ none
          | some w1 ↦ some (
              notify_incoming
                (set_state (λ s. record s { has_data = not (length w1.stream.input == 0) }) w1))
        ]
        else some (notify_incoming (set_state (λ s. record s { has_data = true }) w))

    -- The end of the input answers the promise of a read.
    unfoldable pub notify_eof_read : World S → World S
    unfolding update
    notify_eof_read w =
        if is_some w.stream.read
        then if is_some w.stream.token || not (w.stream.length == 0)
          then settle_read done_false w
          else (let (text, input) = stream_read e (length w.stream.input) w.stream.input in
              let w1 : World S = update (λ s. record s { input = input }) w in
              elim text [
                | none ↦ settle_read rethrown w1
                | some d ↦ settle_read (done_string d) w1
              ])
        else w

    -- _ion_stream_notify. A new exception has the next number. An unknown event is a warning.
    unfoldable pub on_notify : What → World S → World S
    unfolding update set_state
    on_notify what w =
        if what.eof
        then settle_shutdown done_stream
            (notify_eof_read (set_state (λ s. record s { eof = true }) w))
        else if what.error
        then (let x : ℕ = w.next in
            let w1 : World S =
              update (λ s. record s { error = some x })
                (set_state (λ s. record s { error = true }) (record w { next = x + 1 })) in
            settle_shutdown done_stream
              (settle_flush (failed x) (settle_read (failed x) (settle_connect (failed x) w1))))
        else if what.timeout
        then w
        else if what.connected
        then settle_connect done_stream (set_state (λ s. record s { connected = true }) w)
        else w
