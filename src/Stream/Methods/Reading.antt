-- ===== src/Stream/Methods/Reading.antt =====
-- src/classes/ION/Stream.c: the methods of ION\Stream that take bytes out of the input.
use php_ion.Base.{
  ℕ, Option, none, some, [], Bool, true, false, ◌==◌, ◌&&◌, ◌||◌, not, leb, if◌then◌else◌, Bytes,
  length,
}
use php_ion.Promisor.Handlers.{same_bytes}
use php_ion.Stream.{Evbuffer, Token, TokenFlags, World, update}
use php_ion.Stream.Search.{search_token, stream_read, read_token}
use php_ion.Stream.Methods.{
  Answer, check_buffer, new_deferred, deferred, text, boolean, position, threw, locked, empty_token,
  search_failed, read_failed, drain_failed,
}

abbrev pub same_bool : Bool → Bool → Bool
same_bool true b = b
same_bool false b = not b

-- The flags of ION_STREAM_TOKEN_MODE_MASK.
abbrev pub same_mode : TokenFlags → TokenFlags → Bool
same_mode f g =
    same_bool f.trim g.trim
    && same_bool f.with_token g.with_token
    && same_bool f.without_token g.without_token

-- `flags &= ION_STREAM_TOKEN_MODE_MASK` on the token of a call.
abbrev pub new_token : Bytes → TokenFlags → ℕ → Token
new_token word mode n = record {
  token = word;
  length = n;
  offset = 0;
  flags = record mode { limit = false };
  position = none;
}

-- The promise of a line that is asked for again.
unfoldable pub same_line : Token → Option Token → Bool
same_line t none = false
same_line t (some u) =
    same_bytes u.token t.token && same_mode u.flags t.flags && (u.length == t.length)

module _ (e : Evbuffer) {S : Type 0} where
  -- The result of ion_stream_read, where NULL is an exception.
  unfoldable pub take_bytes : ℕ → World S → Answer × World S
  unfolding update
  take_bytes n w =
      let (bytes, input) = stream_read e n w.stream.input in
      (
        elim bytes [ none ↦ threw read_failed | some b ↦ text b ],
        update (λ s. record s { input = input }) w,
      )

  -- The result of ion_stream_read_token, where NULL is an exception.
  unfoldable pub take_token : Token → ℕ → World S → Answer × World S
  unfolding update
  take_token t p w =
      let (bytes, input) = read_token e t p w.stream.input in
      (
        elim bytes [ none ↦ threw drain_failed | some b ↦ text b ],
        update (λ s. record s { input = input }) w,
      )

  -- ION\Stream::get
  unfoldable pub get : ℕ → World S → Answer × World S
  unfolding check_buffer
  get n w = check_buffer w (if n == 0 then (text [], w) else take_bytes n w)

  -- ION\Stream::getAll
  unfoldable pub get_all : World S → Answer × World S
  unfolding check_buffer
  get_all w = check_buffer w (take_bytes (length w.stream.input) w)

  -- ION\Stream::search
  unfoldable pub search : Bytes → ℕ → ℕ → World S → Answer × World S
  unfolding check_buffer
  search word offset n w = check_buffer w (
      if length word == 0
      then (threw empty_token, w)
      else elim (search_token e w.stream.input (record {
        token = word;
        length = n;
        offset = offset;
        flags = record { trim = false; with_token = false; without_token = false; limit = false };
        position = none;
      })) [ none ↦ (threw search_failed, w) | some t ↦ (position t.position, w) ])

  -- ION\Stream::getLine
  unfoldable pub get_line : Bytes → TokenFlags → ℕ → World S → Answer × World S
  unfolding check_buffer
  get_line word mode n w = check_buffer w (
      if length word == 0
      then (boolean false, w)
      else elim (search_token e w.stream.input (new_token word mode n)) [
        | none ↦ (threw search_failed, w)
        | some t ↦ elim t.position [ none ↦ (boolean false, w) | some p ↦ take_token t p w ]
      ])

  -- ION\Stream::read
  unfoldable pub read : ℕ → World S → Answer × World S
  unfolding check_buffer new_deferred
  read n w = check_buffer w (elim w.stream.read [
    | some p ↦
        if (w.stream.length == n) && not (has_token w.stream.token)
        then (deferred p, w)
        else (threw locked, w)
    | none ↦
        if leb n (length w.stream.input)
        then take_bytes n w
        else new_deferred
            (λ p s. record s {
              read = some p;
              length = n;
              low = n;
              high = if leb n s.input_size then s.input_size else n;
            })
            w
  ])
    where
      has_token : Option Token → Bool
      has_token none = false
      has_token (some t) = true

  -- ION\Stream::readLine
  unfoldable pub read_line : Bytes → TokenFlags → ℕ → World S → Answer × World S
  unfolding check_buffer new_deferred same_line
  read_line word mode n w = check_buffer w (
      if length word == 0 then (threw empty_token, w) else elim w.stream.read [
        | some p ↦
            if same_line (new_token word mode n) w.stream.token
            then (deferred p, w)
            else (threw locked, w)
        | none ↦ elim (search_token e w.stream.input (new_token word mode n)) [
          | none ↦ (threw search_failed, w)
          | some t ↦ elim t.position [
            | none ↦
                if t.flags.limit
                then (boolean false, w)
                else new_deferred (λ p s. record s { read = some p; token = some t }) w
            | some p ↦ take_token t p w
          ]
        ]
      ])

  -- ION\Stream::readAll
  unfoldable pub read_all : World S → Answer × World S
  unfolding check_buffer new_deferred
  read_all w = check_buffer w (elim w.stream.read [
    | some p ↦ elim w.stream.token [
      | none ↦ if w.stream.length == 0 then (deferred p, w) else (threw locked, w)
      | some t ↦ (threw locked, w)
    ]
    | none ↦
        if w.stream.state.eof || w.stream.state.error
        then if length w.stream.input == 0
          then (text [], w)
          else take_bytes (length w.stream.input) w
        else new_deferred (λ p s. record s { read = some p; length = 0 }) w
  ])
