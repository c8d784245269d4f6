-- ===== src/Stream/Chunks.antt =====
-- readLine() and read() of src/classes/ION/Stream.c when the input arrives in pieces: what
-- _ion_stream_input makes of each piece.
pub mod Delivery
pub mod Counted
pub mod Whole
use php_ion.Base.{
  ℕ, zero, suc, ◌+◌, ◌<◌, ◌≤◌, ◌≡◌, refl, sym, ap, subst, ◌∙◌, Option, none, some, List, [], ◌∷◌,
  ◌++◌, ◌>>=◌, Bool, true, false, ◌==◌, not, if◌then◌else◌, Bytes, length, take, drop, arith,
  length-append, length-drop, append_assoc, append-nil, Option-cases, inl, inr,
}
use php_ion.Stream.{
  Evbuffer, Token, TokenFlags, Stream, State, World, Env, update, set_state, Outcome, done_string,
}
use php_ion.Stream.Search.{search_token, read_token}
use php_ion.Stream.Search.First.{first, first-prefix, Scanned, Scanned-append}
use php_ion.Stream.Search.Laws.{EvbufferLaws, Seeking, Searched, search_token_lem}
use php_ion.Stream.Search.Cut.{
  Mode, trim_token, with_token, without_token, mode_flags, line_at, rest_at, read_token_lem,
}
use php_ion.Stream.Events.{is_some, settle_read, input_token, input_read, on_input, notify_incoming}
use php_ion.Stream.Methods.{Answer, text, boolean, deferred, new_deferred}
use php_ion.Stream.Methods.Reading.{read_line, new_token, take_token}
use php_ion.Stream.Lines.{
  new_token-Seeking, fresh_flags, length-nonzero, check_buffer-ready, line_or, take_token_lem,
}

abbrev pub join : List Bytes → Bytes
join [] = []
join (d ∷ ds) = d ++ join ds

-- A piece of input arrives.
abbrev pub arrive : {S : Type 0} → Bytes → World S → World S
arrive d w = record w { stream = record w.stream { input = w.stream.input ++ d } }

-- The stream after a callback, before the handlers of incoming data.
abbrev pub marked : {S : Type 0} → World S → World S
marked w = set_state (λ s. record s { has_data = not (length w.stream.input == 0) }) w

-- The stream that bytes were taken from, with no promise of a read.
abbrev pub taken : {S : Type 0} → Bytes → World S → World S
taken rest w = record w { stream = record w.stream { input = rest; token = none; read = none } }

-- The promise `p` waits for a line.
pub record Waiting {S : Type 0} (m : Mode) (word : Bytes) (p : ℕ) (w : World S) : Type 0 where
  pub reading : w.stream.read ≡ some p
  pub sought : Token
  pub token : w.stream.token ≡ some sought
  pub word_of : sought.token ≡ word
  pub flags_of : sought.flags ≡ mode_flags m
  pub seeking : Seeking w.stream.input sought
  pub missing : first word w.stream.input ≡ none

Seeking-append : (b d : Bytes) (t : Token) → Seeking b t → Seeking (b ++ d) t
Seeking-append b d t k = record {
  unlimited = k.unlimited;
  some_text = k.some_text;
  scanned = Scanned-append t.token b d t.offset k.scanned;
}

pub mode-unlimited : (m : Mode) → (mode_flags m).limit ≡ false
mode-unlimited trim_token = refl
mode-unlimited with_token = refl
mode-unlimited without_token = refl

module _ {S : Type 0} (env : Env S) (e : Evbuffer) (laws : EvbufferLaws e) where
  pub on_input-reading :
      (p : ℕ) (w w1 : World S)
      → w.stream.read ≡ some p
      → input_read env e w ≡ some w1
      → on_input env e w ≡ some (notify_incoming env (marked w1))
  unfolding on_input
  on_input-reading p w w1 r h = rw (ap is_some r, h) refl

  pub notify_incoming-reading :
      (p : ℕ) (w : World S) → w.stream.read ≡ some p → notify_incoming env w ≡ w
  unfolding notify_incoming
  notify_incoming-reading p w r = elim (Option-cases w.stream.incoming) [
    | inl h ↦ simp (h, notify_incoming) refl
    | inr (q, h) ↦ simp (h, notify_incoming, ap is_some r) refl
  ]

  input_read-token :
      (t : Token) (w : World S)
      → w.stream.token ≡ some t
      → input_read env e w ≡ some (input_token env e t w)
  unfolding input_read
  input_read-token t w h = simp (h, input_read) refl

  input_token-none :
      (m : Mode) (t t' : Token) (w : World S)
      → search_token e w.stream.input t ≡ some t'
      → t'.position ≡ none
      → t'.flags ≡ mode_flags m
      → input_token env e t w ≡ record w { stream = record w.stream { token = some t' } }
  unfolding input_token update
  input_token-none m t t' w found h f =
      simp (found, input_token, h, ap (λ (x : TokenFlags). x.limit) f, mode-unlimited m) refl

  -- A piece after which the token is still missing.
  pub missing-Waiting :
      (m : Mode) (word d : Bytes) (p : ℕ) (w : World S)
      → Waiting m word p w
      → first word (w.stream.input ++ d) ≡ none
      → (w' : World S) × ((on_input env e (arrive d w) ≡ some w')
          × (Waiting m word p w' × ((w'.stream.input ≡ w.stream.input ++ d) × (w'.rest ≡ w.rest))))
  unfolding set_state update
  missing-Waiting m word d p w k h =
      let t : Token = k.sought in
      let (t', (found, s)) =
        search_token_lem e laws (w.stream.input ++ d) t
          (Seeking-append w.stream.input d t k.seeking) in
      let gone : first t.token (w.stream.input ++ d) ≡ none =
        ap (λ x. first x (w.stream.input ++ d)) k.word_of ∙ h in
      let w1 : World S = record w {
        stream = record w.stream { input = w.stream.input ++ d; token = some t' };
      } in
      (
        marked w1,
        (
          on_input-reading p (arrive d w) w1 k.reading (
                input_read-token t (arrive d w) k.token
                ∙ ap some (
                    input_token-none m t t' (arrive d w) found (s.position ∙ gone)
                      (s.flags ∙ k.flags_of)))
              ∙ ap some (notify_incoming-reading p (marked w1) k.reading),
          (
            record {
              reading = k.reading;
              sought = t';
              token = refl;
              word_of = s.token ∙ k.word_of;
              flags_of = s.flags ∙ k.flags_of;
              seeking = s.seeking gone;
              missing = h;
            },
            (refl, refl),
          ),
        ),
      )

  pub settle_read-reading :
      (p : ℕ) (o : Outcome) (w : World S)
      → w.stream.read ≡ some p
      → settle_read env o w
        ≡ env.react p o (record w { stream = record w.stream { token = none; read = none } })
  unfolding settle_read update
  settle_read-reading p o w r = simp (r, settle_read) refl

  input_token-some :
      (m : Mode) (word : Bytes) (t t' : Token) (q : ℕ) (w : World S)
      → search_token e w.stream.input t ≡ some t'
      → t'.position ≡ some q
      → t'.token ≡ word
      → t'.flags ≡ mode_flags m
      → first word w.stream.input ≡ some q
      → input_token env e t w
        ≡ settle_read env (done_string (line_at m word q w.stream.input)) (record w {
          stream = record w.stream { token = some t'; input = rest_at m word q w.stream.input };
        })
  unfolding input_token update
  input_token-some m word t t' q w found h n f at =
      let cut : read_token e t' q w.stream.input
          ≡ (some (line_at m word q w.stream.input), rest_at m word q w.stream.input) =
        rw⁻¹ n (
          read_token_lem e laws m t' q w.stream.input f
            (ap (λ x. first x w.stream.input) n ∙ at)) in
      simp (found, input_token, h, cut) refl

  -- The piece with which the token is there.
  pub found-Waiting :
      (m : Mode) (word d : Bytes) (p q : ℕ) (w : World S)
      → Waiting m word p w
      → first word (w.stream.input ++ d) ≡ some q
      → on_input env e (arrive d w)
        ≡ some (
            notify_incoming env (
              marked (
                env.react p
                  (done_string (line_at m word q (w.stream.input ++ d)))
                  (taken (rest_at m word q (w.stream.input ++ d)) w))))
  found-Waiting m word d p q w k h =
      let t : Token = k.sought in
      let (t', (found, s)) =
        search_token_lem e laws (w.stream.input ++ d) t
          (Seeking-append w.stream.input d t k.seeking) in
      let there : first t.token (w.stream.input ++ d) ≡ some q =
        ap (λ x. first x (w.stream.input ++ d)) k.word_of ∙ h in
      on_input-reading p (arrive d w)
        (env.react p (done_string (line_at m word q (w.stream.input ++ d)))
          (taken (rest_at m word q (w.stream.input ++ d)) w))
        k.reading
        (input_read-token t (arrive d w) k.token
          ∙ ap some (
              input_token-some m word t t' q (arrive d w) found (s.position ∙ there)
                (s.token ∙ k.word_of) (s.flags ∙ k.flags_of) h
              ∙ settle_read-reading p (done_string (line_at m word q (w.stream.input ++ d)))
                  (record w {
                    stream = record w.stream {
                      token = some t';
                      input = rest_at m word q (w.stream.input ++ d);
                    };
                  })
                  k.reading))
