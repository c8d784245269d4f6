-- ===== src/Stream/Chunks/Whole.antt =====
-- readAll() of src/classes/ION/Stream.c, followed by the pieces of input that _ion_stream_input sees and
-- the end of the input in _ion_stream_notify.
use php_ion.Base.{
  ℕ, ◌+◌, ◌≡◌, refl, sym, ap, ◌∙◌, none, some, List, [], ◌∷◌, ◌++◌, ◌>>=◌, true, false, Bytes,
  length, take, drop_all, arith, append_assoc, append-nil,
}
use php_ion.Stream.{Evbuffer, World, Env, update, set_state, done_string, done_stream}
use php_ion.Stream.Search.{stream_read}
use php_ion.Stream.Search.Laws.{EvbufferLaws}
use php_ion.Stream.Events.{
  is_some, What, settle_shutdown, input_read, on_input, notify_eof_read, on_notify,
}
use php_ion.Stream.Methods.{deferred, new_deferred}
use php_ion.Stream.Methods.Reading.{read_all}
use php_ion.Stream.Lines.{check_buffer-ready}
use php_ion.Stream.Chunks.{
  join, arrive, marked, taken, on_input-reading, notify_incoming-reading, settle_read-reading,
}
use php_ion.Stream.Chunks.Delivery.{feed}
use php_ion.Stream.Chunks.Counted.{stream_read_lem}

-- The promise `p` waits for all of the input.
pub record WaitingAll {S : Type 0} (p : ℕ) (w : World S) : Type 0 where
  pub reading : w.stream.read ≡ some p
  pub no_token : w.stream.token ≡ none
  pub no_length : w.stream.length ≡ 0

-- The end of the input.
abbrev pub at_eof : What
at_eof = record { eof = true; error = false; timeout = false; connected = false }

take-all : (b : Bytes) → take (length b) b ≡ b
take-all [] = refl
take-all (x ∷ b) = ap (x ∷◌) (take-all b)

module _ (e : Evbuffer) (laws : EvbufferLaws e) where
  stream_read-all : (b : Bytes) → stream_read e (length b) b ≡ (some b, [])
  unfolding stream_read
  stream_read-all [] = refl
  stream_read-all (x ∷ b) =
      stream_read_lem e laws (length (x ∷ b)) (x ∷ b) (omega arith) (omega arith)
      ∙ rw (take-all (x ∷ b), drop_all (x ∷ b)) refl

  module _ {S : Type 0} (env : Env S) where
    all-WaitingAll :
        (p : ℕ) (d : Bytes) (w : World S)
        → WaitingAll p w
        → on_input env e (arrive d w) ≡ some (marked (arrive d w))
    unfolding input_read set_state update
    all-WaitingAll p d w k =
        on_input-reading env e laws p (arrive d w) (arrive d w) k.reading
          (simp (k.no_token, k.no_length, input_read) refl)
        ∙ ap some (notify_incoming-reading env e laws p (marked (arrive d w)) k.reading)

    -- The pieces leave the promise waiting.
    pub record Gathered (p : ℕ) (all : Bytes) (ds : List Bytes) (w : World S) : Type 0 where
      pub after : World S
      pub result : feed env e ds w ≡ some after
      pub waiting : WaitingAll p after
      pub input : after.stream.input ≡ all
      pub rest : after.rest ≡ w.rest

    WaitingAll-Gathered :
        (p : ℕ) (ds : List Bytes) (w : World S)
        → WaitingAll p w
        → Gathered p (w.stream.input ++ join ds) ds w
    unfolding feed set_state update
    WaitingAll-Gathered p [] w k = record {
      after = w;
      result = refl;
      waiting = k;
      input = sym (append-nil w.stream.input);
      rest = refl;
    }
    WaitingAll-Gathered p (d ∷ ds) w k =
        let later : Gathered p (w.stream.input ++ d ++ join ds) ds (marked (arrive d w)) =
          WaitingAll-Gathered p ds (marked (arrive d w))
            (record { reading = k.reading; no_token = k.no_token; no_length = k.no_length }) in
        record {
          after = later.after;
          result = ap (λ o. o >>= feed env e ds) (all-WaitingAll p d w k) ∙ later.result;
          waiting = later.waiting;
          input = later.input ∙ append_assoc w.stream.input d (join ds);
          rest = later.rest;
        }

    -- The stream before the handlers of the promise run.
    abbrev pub emptied : World S → World S
    emptied w = taken [] (set_state (λ s. record s { eof = true }) w)

    eof-read :
        (p : ℕ) (w : World S)
        → WaitingAll p w
        → notify_eof_read env e w ≡ env.react p (done_string w.stream.input) (taken [] w)
    unfolding notify_eof_read update
    eof-read p w k =
        simp (ap is_some k.reading, k.no_token, k.no_length, stream_read-all w.stream.input) refl
        ∙ settle_read-reading env e laws p (done_string w.stream.input)
            (record w { stream = record w.stream { input = [] } }) k.reading

    eof-notify :
        (p : ℕ) (w : World S)
        → WaitingAll p w
        → on_notify env e at_eof w
          ≡ settle_shutdown env done_stream (env.react p (done_string w.stream.input) (emptied w))
    unfolding on_notify set_state update
    eof-notify p w k = ap (settle_shutdown env done_stream) (
        eof-read p (set_state (λ s. record s { eof = true }) w)
          (record { reading = k.reading; no_token = k.no_token; no_length = k.no_length }))

    -- What the end of the input makes of the gathered pieces.
    pub record Ended (p : ℕ) (all : Bytes) (ds : List Bytes) (w : World S) : Type 0 where
      pub after : World S
      pub pieces : feed env e ds w ≡ some after
      pub before : World S
      pub input : before.stream.input ≡ []
      pub read : before.stream.read ≡ none
      pub rest : before.rest ≡ w.rest
      pub result :
          on_notify env e at_eof after
          ≡ settle_shutdown env done_stream (env.react p (done_string all) before)

    Gathered-Ended :
        (p : ℕ) (all : Bytes) (ds : List Bytes) (w : World S)
        → Gathered p all ds w
        → Ended p all ds w
    unfolding set_state update
    Gathered-Ended p all ds w g = record {
      after = g.after;
      pieces = g.result;
      before = emptied g.after;
      input = refl;
      read = refl;
      rest = g.rest;
      result =
          eof-notify p g.after g.waiting
          ∙ ap
              (λ b. settle_shutdown env done_stream (env.react p (done_string b) (emptied g.after)))
              g.input;
    }

    -- readAll() on a stream that has a buffer, neither a pending read nor a token, and neither the end
    -- of the input nor an error behind it, answers with a deferred. Whatever pieces of input arrive,
    -- the deferred waits, and at the end of the input it is answered with all of the input. Before its
    -- handlers run the buffer is empty, the promise is gone, and nothing outside the stream has changed.
    pub read_all-feed :
        (ds : List Bytes) (w : World S)
        → w.stream.has_buffer ≡ true
        → w.stream.read ≡ none
        → w.stream.token ≡ none
        → w.stream.state.eof ≡ false
        → w.stream.state.error ≡ false
        → (w' : World S) × ((read_all e w ≡ (deferred w.next, w'))
            × (Ended w.next (w.stream.input ++ join ds) ds w' × (w'.rest ≡ w.rest)))
    unfolding read_all new_deferred
    read_all-feed ds w ready r t no_eof no_error =
        let w' : World S = record w {
          stream = record w.stream { read = some w.next; length = 0 };
          next = w.next + 1;
        } in
        (
          w',
          (
            check_buffer-ready w ready ∙ simp (r, no_eof, no_error) refl,
            (
              Gathered-Ended w.next (w.stream.input ++ join ds) ds w' (
                  WaitingAll-Gathered w.next ds w'
                    (record { reading = refl; no_token = t; no_length = refl })),
              refl,
            ),
          ),
        )
