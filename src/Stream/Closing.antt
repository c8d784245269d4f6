-- ===== src/Stream/Closing.antt =====
-- closed() and shutdown() of src/classes/ION/Stream.c on a stream with output, and the callback that ends it.
use php_ion.Base.{
  ℕ, ◌≡◌, refl, ap, ◌∙◌, none, some, true, false, ◌||◌, if◌then◌else◌, ltb, Bool-cases, inl, inr,
}
use php_ion.Stream.{World, Env, done_stream, update, set_state}
use php_ion.Stream.Events.{is_closed, is_some, settle_shutdown, output_flush, close_fd, on_output}
use php_ion.Stream.Methods.{this, deferred, check_buffer}
use php_ion.Stream.Methods.Control.{shutdown, closed}
use php_ion.Stream.Pairs.{or-true, waiting, closed-waiting}

-- The stream after its descriptor was closed; nothing waits for that any more.
abbrev pub ended : {S : Type 0} → Env S → ℕ → World S → World S
ended env d w = record w {
  stream = record w.stream {
    state = record w.stream.state { close_on_flush = true; flushed = true; shutdown = true };
    fd = none;
    shutdown = none;
  };
  rest =
      if w.stream.state.socket
      then env.close_socket d w.rest
      else if ltb 2 d
      then env.close_file d w.rest
      else w.rest;
}

-- An open stream with output that no flush() waits for.
pub record Unflushed {S : Type 0} (d : ℕ) (w : World S) : Type 0 where
  pub ready : w.stream.has_buffer ≡ true
  pub opened : is_closed w.stream.state ≡ false
  pub output_left : w.stream.state.flushed ≡ false
  pub owned : w.stream.state.reserved ≡ false
  pub no_flush : w.stream.flush ≡ none
  pub descriptor : w.stream.fd ≡ some d

module _ {S : Type 0} (env : Env S) where
  shutdown-waits :
      (d : ℕ) (w : World S)
      → Unflushed d w
      → shutdown env false w ≡ (this, set_state (λ s. record s { close_on_flush = true }) w)
  unfolding shutdown check_buffer
  shutdown-waits d w k = simp (k.ready, k.opened, k.output_left) refl

  close_fd-owned :
      (d : ℕ) (w : World S)
      → w.stream.state.reserved ≡ false
      → w.stream.fd ≡ some d
      → close_fd env w
        ≡ settle_shutdown env done_stream (record w {
          stream = record w.stream { state = record w.stream.state { shutdown = true }; fd = none };
          rest =
              if w.stream.state.socket
              then env.close_socket d w.rest
              else if ltb 2 d
              then env.close_file d w.rest
              else w.rest;
        })
  unfolding close_fd set_state update
  close_fd-owned d w r h =
      simp (r, h)
        (elim (Bool-cases w.stream.state.socket) [
          | inl t ↦ simp t refl
          | inr f ↦ elim (Bool-cases (ltb 2 d)) [
            | inl t ↦ simp (f, t) refl
            | inr g ↦ simp (f, g) refl
          ]
        ])

  settle_shutdown-waiting :
      (p : ℕ) (w : World S)
      → w.stream.shutdown ≡ some p
      → settle_shutdown env done_stream w
        ≡ env.react p done_stream (record w { stream = record w.stream { shutdown = none } })
  unfolding settle_shutdown update
  settle_shutdown-waiting p w h = simp (h, settle_shutdown, update)

  output-closes :
      (d p : ℕ) (w : World S)
      → Unflushed d w
      → w.stream.shutdown ≡ some p
      → on_output env (set_state (λ s. record s { close_on_flush = true }) w)
        ≡ env.react p done_stream (ended env d w)
  unfolding on_output output_flush set_state update
  output-closes d p w k h =
      simp (ap is_some k.no_flush) (
        close_fd-owned d
          (record w {
            stream = record w.stream {
              state = record w.stream.state { close_on_flush = true; flushed = true };
            };
          })
          k.owned k.descriptor)
      ∙ settle_shutdown-waiting p _ h

  waiting-Unflushed : (d : ℕ) (w : World S) → Unflushed d w → Unflushed d (waiting w)
  waiting-Unflushed d w k = record {
    ready = k.ready;
    opened = k.opened;
    output_left = k.output_left;
    owned = k.owned;
    no_flush = k.no_flush;
    descriptor = k.descriptor;
  }

  -- On an open stream with output left, a descriptor of its own and no pending flush(), that nobody waits
  -- to be closed, closed() answers a new deferred. shutdown() without force answers the stream, which
  -- keeps its descriptor and is still open, and runs no handler. The callback for the last output
  -- then closes the descriptor, a socket always and another one only above 2, and on the closed stream
  -- without a descriptor it runs the handlers of exactly that deferred.
  pub shutdown-on_output :
      (d : ℕ) (w : World S)
      → Unflushed d w
      → w.stream.shutdown ≡ none
      → (v : World S) × ((closed w).0 ≡ deferred w.next)
        × (shutdown env false (closed w).1 ≡ (this, v))
        × (is_closed v.stream.state ≡ false)
        × (v.stream.fd ≡ some d)
        × (v.rest ≡ w.rest)
        × (on_output env v ≡ env.react w.next done_stream (ended env d (waiting w)))
        × (is_closed (ended env d (waiting w)).stream.state ≡ true)
  unfolding set_state update is_closed
  shutdown-on_output d w k h =
      let k' = waiting-Unflushed d w k in
      (
        set_state (λ s. record s { close_on_flush = true }) (waiting w),
        ap (λ a. a.0) (closed-waiting w k.ready k.opened h),
        ap (λ a. shutdown env false a.1) (closed-waiting w k.ready k.opened h)
            ∙ shutdown-waits d (waiting w) k',
        k.opened,
        k.descriptor,
        refl,
        output-closes d w.next (waiting w) k' refl,
        or-true (w.stream.state.eof || w.stream.state.error),
      )
