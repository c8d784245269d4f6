-- ===== src/Stream/Chunks/Counted.antt =====
-- read() of src/classes/ION/Stream.c, followed by the pieces of input that _ion_stream_input sees.
use php_ion.Base.{
  ℕ, ◌+◌, ◌<◌, ◌≤◌, ◌≡◌, refl, sym, ap, subst, ◌∙◌, none, some, List, [], ◌∷◌, ◌++◌, ◌>>=◌, true,
  false, ◌==◌, leb, ltb, le→leb, if◌then◌else◌, Bytes, length, take, drop, arith, length-append,
  append_assoc, append-nil,
}
use php_ion.Stream.{Evbuffer, World, Env, update, set_state, done_string}
use php_ion.Stream.Search.{stream_read}
use php_ion.Stream.Search.Laws.{EvbufferLaws}
use php_ion.Stream.Search.Cut.{length-take}
use php_ion.Stream.Events.{settle_read, input_length, input_read, on_input, notify_incoming}
use php_ion.Stream.Methods.{deferred, new_deferred}
use php_ion.Stream.Methods.Reading.{read}
use php_ion.Stream.Lines.{length-nonzero, check_buffer-ready}
use php_ion.Stream.Chunks.{
  join, arrive, marked, on_input-reading, notify_incoming-reading, settle_read-reading,
}
use php_ion.Stream.Chunks.Delivery.{feed}

-- The promise `p` waits for `n` bytes.
pub record WaitingBytes {S : Type 0} (n p : ℕ) (w : World S) : Type 0 where
  pub reading : w.stream.read ≡ some p
  pub no_token : w.stream.token ≡ none
  pub wanted : w.stream.length ≡ n
  pub too_few : length w.stream.input < n

module _ (e : Evbuffer) (laws : EvbufferLaws e) where
  -- ion_stream_read of no more than there is.
  pub stream_read_lem :
      (n : ℕ) (b : Bytes) → 0 < n → n ≤ length b → stream_read e n b ≡ (some (take n b), drop n b)
  unfolding stream_read
  stream_read_lem n b pos fits = simp (nonempty, exact, laws.read-law n b fits, full) refl
    where
      nonempty : (length b == 0) ≡ false
      nonempty = length-nonzero (omega (arith, pos, fits))

      exact : ltb (length b) n ≡ false
      exact = ground (arith, fits)

      full : (length (take n b) == 0) ≡ false
      full = length-nonzero (omega (arith, pos, length-take n b fits))

  module _ {S : Type 0} (env : Env S) where
    input_read-length :
        (w : World S)
        → w.stream.token ≡ none
        → 0 < w.stream.length
        → input_read env e w ≡ input_length env e w
    unfolding input_read
    input_read-length w h pos = simp (h, input_read, length-nonzero pos) refl

    input_length-few :
        (w : World S) → length w.stream.input < w.stream.length → input_length env e w ≡ some w
    unfolding input_length
    input_length-few w few =
        let no : leb w.stream.length (length w.stream.input) ≡ false = ground (arith, few) in
        simp no refl

    input_length-enough :
        (w : World S)
        → 0 < w.stream.length
        → w.stream.length ≤ length w.stream.input
        → input_length env e w
          ≡ some (
              settle_read env (done_string (take w.stream.length w.stream.input)) (record w {
                stream = record w.stream {
                  input = drop w.stream.length w.stream.input;
                  low = 0;
                  high = w.stream.input_size;
                };
              }))
    unfolding input_length update
    input_length-enough w pos enough =
        simp
          (
            le→leb w.stream.length (length w.stream.input) enough,
            stream_read_lem w.stream.length w.stream.input pos enough,
          )
          refl

    few-WaitingBytes :
        (n p : ℕ) (d : Bytes) (w : World S)
        → WaitingBytes n p w
        → length (w.stream.input ++ d) < n
        → on_input env e (arrive d w) ≡ some (marked (arrive d w))
    unfolding set_state update
    few-WaitingBytes n p d w k few =
        on_input-reading env e laws p (arrive d w) (arrive d w) k.reading (
          input_read-length (arrive d w) k.no_token (omega (arith, few, k.wanted))
          ∙ input_length-few (arrive d w) (omega (arith, few, k.wanted)))
        ∙ ap some (notify_incoming-reading env e laws p (marked (arrive d w)) k.reading)

    -- The stream that the bytes were taken from.
    abbrev pub counted : ℕ → Bytes → World S → World S
    counted n all w = record w {
      stream = record w.stream {
        input = drop n all;
        low = 0;
        high = w.stream.input_size;
        token = none;
        read = none;
      };
    }

    enough-WaitingBytes :
        (n p : ℕ) (d : Bytes) (w : World S)
        → WaitingBytes n p w
        → n ≤ length (w.stream.input ++ d)
        → on_input env e (arrive d w)
          ≡ some (
              notify_incoming env (
                marked (
                  env.react p
                    (done_string (take n (w.stream.input ++ d)))
                    (counted n (w.stream.input ++ d) w))))
    enough-WaitingBytes n p d w k enough = rw (sym k.wanted) (
        on_input-reading env e laws p (arrive d w)
          (env.react p (done_string (take w.stream.length (w.stream.input ++ d)))
            (counted w.stream.length (w.stream.input ++ d) w))
          k.reading
          (input_read-length (arrive d w) k.no_token (omega (arith, k.wanted, k.too_few))
            ∙ input_length-enough (arrive d w) (omega (arith, k.wanted, k.too_few))
                (omega (arith, k.wanted, enough))
            ∙ ap some (
                settle_read-reading env e laws p
                  (done_string (take w.stream.length (w.stream.input ++ d)))
                  (record w {
                    stream = record w.stream {
                      input = drop w.stream.length (w.stream.input ++ d);
                      low = 0;
                      high = w.stream.input_size;
                    };
                  })
                  k.reading)))

    -- The promise is answered with `n` bytes after the last piece, and nothing else happened before.
    pub record DeliveredBytes (n p : ℕ) (all : Bytes) (ds : List Bytes) (w : World S) : Type 0 where
      pub before : World S
      pub input : before.stream.input ≡ drop n all
      pub read : before.stream.read ≡ none
      pub low : before.stream.low ≡ 0
      pub rest : before.rest ≡ w.rest
      pub result :
          feed env e ds w
          ≡ some (notify_incoming env (marked (env.react p (done_string (take n all)) before)))

    Waiting-DeliveredBytes :
        (n p : ℕ) (ds : List Bytes) (d all : Bytes) (w : World S)
        → WaitingBytes n p w
        → length (w.stream.input ++ join ds) < n
        → w.stream.input ++ join ds ++ d ≡ all
        → n ≤ length all
        → DeliveredBytes n p all (ds ++ d ∷ []) w
    unfolding feed set_state update
    Waiting-DeliveredBytes n p [] d all w k few sum enough =
        let sum' : w.stream.input ++ d ≡ all =
          ap (λ x. x ++ d) (sym (append-nil w.stream.input)) ∙ sum in
        record {
          before = counted n all w;
          input = refl;
          read = refl;
          low = refl;
          rest = refl;
          result =
              ap (λ o. o >>= feed env e [])
                (subst
                  (λ x.
                    on_input env e (arrive d w)
                    ≡ some (
                        notify_incoming env
                          (marked (env.react p (done_string (take n x)) (counted n x w)))))
                  sum' (enough-WaitingBytes n p d w k (omega (arith, ap length sum', enough))));
        }
    Waiting-DeliveredBytes n p (c ∷ ds) d all w k few sum enough =
        let assoc : w.stream.input ++ c ++ join ds ≡ w.stream.input ++ (c ++ join ds) =
          append_assoc w.stream.input c (join ds) in
        let fewer : length (w.stream.input ++ c) < n =
          omega (arith, few, ap length assoc, length-append (w.stream.input ++ c) (join ds)) in
        let w' : World S = marked (arrive c w) in
        let k' : WaitingBytes n p w' = record {
          reading = k.reading;
          no_token = k.no_token;
          wanted = k.wanted;
          too_few = fewer;
        } in
        let later : DeliveredBytes n p all (ds ++ d ∷ []) w' =
          Waiting-DeliveredBytes n p ds d all w' k' (omega (arith, few, ap length assoc))
            (ap (λ x. x ++ d) assoc ∙ sum) enough in
        record {
          before = later.before;
          input = later.input;
          read = later.read;
          low = later.low;
          rest = later.rest;
          result =
              ap (λ o. o >>= feed env e (ds ++ d ∷ [])) (few-WaitingBytes n p c w k fewer)
              ∙ later.result;
        }

    -- read() of a number of bytes, on a stream that has a buffer and neither a pending read nor a
    -- token, answers with a deferred when the input is shorter. When pieces of input arrive that
    -- still are too few, and then one with which they are enough, the deferred is answered in the
    -- callback of the last piece with exactly that many bytes from the front of all of the input.
    -- Before the handlers run the rest is in the buffer, the promise is gone, the low watermark is 0,
    -- and nothing outside the stream has changed.
    pub read-feed :
        (n : ℕ) (ds : List Bytes) (d : Bytes) (w : World S)
        → w.stream.has_buffer ≡ true
        → w.stream.read ≡ none
        → w.stream.token ≡ none
        → length (w.stream.input ++ join ds) < n
        → n ≤ length (w.stream.input ++ join ds ++ d)
        → (w' : World S) × ((read e n w ≡ (deferred w.next, w'))
            × (DeliveredBytes n w.next (w.stream.input ++ join ds ++ d) (ds ++ d ∷ []) w'
                × (w'.rest ≡ w.rest)))
    unfolding read new_deferred
    read-feed n ds d w ready r t few enough =
        let fewer : length w.stream.input < n =
          omega (arith, few, length-append w.stream.input (join ds)) in
        let no : leb n (length w.stream.input) ≡ false = ground (arith, fewer) in
        let w' : World S = record w {
          stream = record w.stream {
            read = some w.next;
            length = n;
            low = n;
            high = if leb n w.stream.input_size then w.stream.input_size else n;
          };
          next = w.next + 1;
        } in
        (
          w',
          (
            check_buffer-ready w ready ∙ simp (r, no) refl,
            (
              Waiting-DeliveredBytes n w.next ds d (w.stream.input ++ join ds ++ d) w'
                  (record { reading = refl; no_token = t; wanted = refl; too_few = fewer }) few refl
                  enough,
              refl,
            ),
          ),
        )
