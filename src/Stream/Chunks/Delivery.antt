-- ===== src/Stream/Chunks/Delivery.antt =====
-- readLine() of src/classes/ION/Stream.c, followed by the pieces of input that _ion_stream_input sees.
use php_ion.Base.{
  ℕ, ◌+◌, ◌<◌, ◌≡◌, refl, sym, ap, subst, ◌∙◌, Option, none, some, List, [], ◌∷◌, ◌++◌, ◌>>=◌, true,
  Bytes, length, append_assoc, append-nil,
}
use php_ion.Stream.{Evbuffer, TokenFlags, World, Env, done_string}
use php_ion.Stream.Search.First.{first, first-prefix}
use php_ion.Stream.Search.Laws.{EvbufferLaws, search_token_lem}
use php_ion.Stream.Search.Cut.{Mode, mode_flags, line_at, rest_at}
use php_ion.Stream.Events.{on_input, notify_incoming}
use php_ion.Stream.Methods.{deferred, new_deferred}
use php_ion.Stream.Methods.Reading.{read_line, new_token}
use php_ion.Stream.Lines.{new_token-Seeking, fresh_flags, length-nonzero, check_buffer-ready}
use php_ion.Stream.Chunks.{
  join, arrive, marked, taken, Waiting, missing-Waiting, found-Waiting, mode-unlimited,
}

module _ {S : Type 0} (env : Env S) (e : Evbuffer) where
  -- The pieces arrive one after the other.
  unfoldable pub feed : List Bytes → World S → Option (World S)
  feed [] w = some w
  feed (d ∷ ds) w = on_input env e (arrive d w) >>= feed ds

module _ {S : Type 0} (env : Env S) (e : Evbuffer) (laws : EvbufferLaws e) where
  -- The promise is answered with a line after the last piece, and nothing else happened before.
  pub record Delivered (m : Mode) (word : Bytes) (q : ℕ) (p : ℕ) (all : Bytes) (ds : List Bytes)
      (w : World S) : Type 0 where
    pub before : World S
    pub input : before.stream.input ≡ rest_at m word q all
    pub read : before.stream.read ≡ none
    pub token : before.stream.token ≡ none
    pub rest : before.rest ≡ w.rest
    pub result :
        feed env e ds w
        ≡ some
            (notify_incoming env (marked (env.react p (done_string (line_at m word q all)) before)))

  Waiting-Delivered :
      (m : Mode) (word : Bytes) (ds : List Bytes) (d all : Bytes) (p q : ℕ) (w : World S)
      → Waiting m word p w
      → first word (w.stream.input ++ join ds) ≡ none
      → w.stream.input ++ join ds ++ d ≡ all
      → first word all ≡ some q
      → Delivered m word q p all (ds ++ d ∷ []) w
  unfolding feed
  Waiting-Delivered m word [] d all p q w k e1 sum e2 =
      let sum' : w.stream.input ++ d ≡ all =
        ap (λ x. x ++ d) (sym (append-nil w.stream.input)) ∙ sum in
      record {
        before = taken (rest_at m word q all) w;
        input = refl;
        read = refl;
        token = refl;
        rest = refl;
        result =
            ap (λ o. o >>= feed env e [])
              (subst
                (λ x.
                  on_input env e (arrive d w)
                  ≡ some (
                      notify_incoming env (
                        marked (
                          env.react p (done_string (line_at m word q x))
                            (taken (rest_at m word q x) w)))))
                sum' (found-Waiting env e laws m word d p q w k (ap (first word) sum' ∙ e2)));
      }
  Waiting-Delivered m word (c ∷ ds) d all p q w k e1 sum e2 =
      let e1' : first word (w.stream.input ++ c ++ join ds) ≡ none =
        ap (first word) (append_assoc w.stream.input c (join ds)) ∙ e1 in
      let (w', (ran, (k', (same, quiet)))) =
        missing-Waiting env e laws m word c p w k
          (first-prefix word (w.stream.input ++ c) (join ds) e1') in
      let later : Delivered m word q p all (ds ++ d ∷ []) w' =
        Waiting-Delivered m word ds d all p q w' k' (ap (λ x. first word (x ++ join ds)) same ∙ e1')
          (ap (λ x. x ++ join ds ++ d) same
            ∙ ap (λ x. x ++ d) (append_assoc w.stream.input c (join ds))
            ∙ sum)
          e2 in
      record {
        before = later.before;
        input = later.input;
        read = later.read;
        token = later.token;
        rest = later.rest ∙ quiet;
        result = ap (λ o. o >>= feed env e (ds ++ d ∷ [])) ran ∙ later.result;
      }

  -- readLine() of a token that is not in the input waits for it.
  read_line-Waiting :
      (m : Mode) (word : Bytes) (w : World S)
      → w.stream.has_buffer ≡ true
      → w.stream.read ≡ none
      → 0 < length word
      → first word w.stream.input ≡ none
      → (w' : World S) × ((read_line e word (mode_flags m) 0 w ≡ (deferred w.next, w'))
          × (Waiting m word w.next w' × ((w'.stream.input ≡ w.stream.input) × (w'.rest ≡ w.rest))))
  unfolding read_line new_deferred
  read_line-Waiting m word w ready r pos h =
      let (t, (found, s)) =
        search_token_lem e laws w.stream.input (new_token word (mode_flags m) 0)
          (new_token-Seeking word w.stream.input m pos) in
      let plain : t.flags ≡ mode_flags m = s.flags ∙ fresh_flags m in
      (
        record w {
          stream = record w.stream { read = some w.next; token = some t };
          next = w.next + 1;
        },
        (
          check_buffer-ready w ready
              ∙ simp
                  (
                    length-nonzero pos,
                    r,
                    found,
                    s.position ∙ h,
                    ap (λ (x : TokenFlags). x.limit) plain,
                    mode-unlimited m,
                  )
                  refl,
          (
            record {
              reading = refl;
              sought = t;
              token = refl;
              word_of = s.token;
              flags_of = plain;
              seeking = s.seeking h;
              missing = h;
            },
            (refl, refl),
          ),
        ),
      )

  -- readLine() with a token that is not empty and without a limit, on a stream that has a buffer and
  -- no pending read, answers with a deferred when the token is not in the input. When pieces of input
  -- arrive that still do not make up the token, and then one with which it is there, the deferred is
  -- answered in the callback of the last piece. Its value is the line that the mode cuts from all of
  -- the input at the first token, however the pieces were cut. Before the handlers run the rest is in
  -- the buffer, the promise and its token are gone, and nothing outside the stream has changed.
  pub read_line-feed :
      (m : Mode) (word : Bytes) (ds : List Bytes) (d : Bytes) (q : ℕ) (w : World S)
      → w.stream.has_buffer ≡ true
      → w.stream.read ≡ none
      → 0 < length word
      → first word (w.stream.input ++ join ds) ≡ none
      → first word (w.stream.input ++ join ds ++ d) ≡ some q
      → (w' : World S) × ((read_line e word (mode_flags m) 0 w ≡ (deferred w.next, w'))
          × (Delivered m word q w.next (w.stream.input ++ join ds ++ d) (ds ++ d ∷ []) w'
              × (w'.rest ≡ w.rest)))
  read_line-feed m word ds d q w ready r pos e1 e2 =
      let (w', (answer, (k, (same, quiet)))) =
        read_line-Waiting m word w ready r pos (first-prefix word w.stream.input (join ds) e1) in
      (
        w',
        (
          answer,
          (
            Waiting-Delivered m word ds d (w.stream.input ++ join ds ++ d) w.next q w' k
                (ap (λ x. first word (x ++ join ds)) same ∙ e1) (ap (λ x. x ++ join ds ++ d) same)
                e2,
            quiet,
          ),
        ),
      )
