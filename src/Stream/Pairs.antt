-- ===== src/Stream/Pairs.antt =====
-- How a stream without a descriptor, as ion_stream_pair of src/classes/ION/Stream.c makes them, closes.
use php_ion.Base.{◌+◌, ◌≡◌, refl, ap, ◌∙◌, none, some, Bool, true, false, ◌||◌}
use php_ion.Stream.{World, Env, update, set_state}
use php_ion.Stream.Events.{is_closed, close_fd}
use php_ion.Stream.Methods.{deferred, nothing, new_deferred}
use php_ion.Stream.Methods.Control.{shutdown, closed}
use php_ion.Stream.Lines.{check_buffer-ready}
use php_ion.Stream.Create.{asks_closed}

pub or-true : (b : Bool) → (b || true) ≡ true
or-true true = refl
or-true false = refl

module _ {S : Type 0} where
  -- The stream that closed() was called on.
  abbrev pub waiting : World S → World S
  waiting w = record w { stream = record w.stream { shutdown = some w.next }; next = w.next + 1 }

  pub closed-waiting :
      (w : World S)
      → w.stream.has_buffer ≡ true
      → is_closed w.stream.state ≡ false
      → w.stream.shutdown ≡ none
      → closed w ≡ (deferred w.next, waiting w)
  unfolding closed new_deferred
  closed-waiting w ready opened waits = check_buffer-ready w ready ∙ simp (waits, opened) refl

module _ {S : Type 0} (env : Env S) where
  -- The one that shutdown() closed.
  abbrev stopped : World S → World S
  stopped w = set_state (λ s. record s { shutdown = true }) (waiting w)

  closed-again :
      (w : World S) → w.stream.has_buffer ≡ true → closed (stopped w) ≡ (deferred w.next, stopped w)
  unfolding closed set_state update
  closed-again w ready = check_buffer-ready (stopped w) ready

  close_fd-stopped :
      (w : World S)
      → w.stream.state.reserved ≡ false
      → w.stream.fd ≡ none
      → close_fd env (waiting w) ≡ stopped w
  unfolding close_fd set_state update
  close_fd-stopped w owned fd = simp (owned, fd) refl

  shutdown-stopped :
      (w : World S)
      → w.stream.has_buffer ≡ true
      → is_closed w.stream.state ≡ false
      → w.stream.state.reserved ≡ false
      → w.stream.fd ≡ none
      → shutdown env true (waiting w) ≡ (nothing, stopped w)
  unfolding shutdown
  shutdown-stopped w ready opened owned fd =
      check_buffer-ready (waiting w) ready
      ∙ simp (opened, or-true w.stream.state.flushed, close_fd-stopped w owned fd) refl

  asks-stopped : (w : World S) → asks_closed (stopped w).stream ≡ true
  unfolding asks_closed is_closed set_state update
  asks-stopped w = or-true (w.stream.state.eof || w.stream.state.error)

  -- On an open stream without a descriptor, as those of a pair are, which has a buffer, does not wait
  -- to be closed and is not reserved, closed() answers a new deferred. A forced shutdown() then closes
  -- the stream and does not answer that deferred: no handler runs, and closed() gives it back again.
  pub closed-shutdown :
      (w : World S)
      → w.stream.has_buffer ≡ true
      → is_closed w.stream.state ≡ false
      → w.stream.state.reserved ≡ false
      → w.stream.fd ≡ none
      → w.stream.shutdown ≡ none
      → (v : World S) × (((shutdown env true (closed w).1).1 ≡ v)
          × ((asks_closed v.stream ≡ true)
              × ((closed v ≡ (deferred w.next, v)) × (v.rest ≡ w.rest))))
  unfolding set_state update
  closed-shutdown w ready opened owned fd waits = (
    stopped w,
    (
      ap (λ a. (shutdown env true a.1).1) (closed-waiting w ready opened waits)
          ∙ ap (λ a. a.1) (shutdown-stopped w ready opened owned fd),
      (asks-stopped w, (closed-again w ready, refl)),
    ),
  )
