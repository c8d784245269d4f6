-- ===== src/Stream/Search.antt =====
-- ion_stream_search_token of src/ion/ion_stream.c, ion_stream_read and ion_stream_read_token of
-- src/classes/ION/Stream.c.
pub mod First
pub mod Laws
pub mod Cut
use php_ion.Base.{
  ℕ, ◌+◌, ◌-◌, ◌%◌, ◌^◌, Option, none, some, [], Bool, true, false, ◌==◌, ◌||◌, ◌&&◌, not, ltb, leb,
  if◌then◌else◌, Bytes, length,
}
use php_ion.Stream.{Evbuffer, Token, TokenFlags}

-- `token->length > 0`, where the bits stand for a signed number.
abbrev positive : ℕ → Bool
positive n = ltb 0 n && ltb n (2 ^ 63)

-- The search proper; `none` is FAILURE, and `some none` that nothing was found.
unfoldable pub look : Evbuffer → Bytes → Token → Option (Option ℕ)
look e b t =
    let end : ℕ = (t.offset + t.length + 2 ^ 64 - 1) % 2 ^ 64 in
    let whole : Bool = (t.length == 0) || leb (length b - 1) end in
    if not (e.ptr_set b t.offset)
    then none
    else if whole
    then some (e.search b t.token t.offset)
    else if not (e.ptr_set b end)
    then none
    else some (e.search_range b t.token t.offset end)

-- ion_stream_search_token; `none` is FAILURE.
unfoldable pub search_token : Evbuffer → Bytes → Token → Option Token
search_token e b t =
    if length b == 0
    then some (record t { position = none })
    else if leb (length b) t.offset || ltb (length b) (length t.token)
    then some (record t { position = none })
    else elim (look e b t) [
      | none ↦ none
      | some found ↦ some (record t {
        flags = record t.flags {
          limit = t.flags.limit || positive t.length && leb t.length (length b);
        };
        offset = length b - length t.token + 1;
        position = found;
      })
    ]

-- ion_stream_read: the data (`none` is NULL), and the input that stays.
unfoldable pub stream_read : Evbuffer → ℕ → Bytes → Option Bytes × Bytes
stream_read e size b =
    if length b == 0
    then (some [], b)
    else let (text, rest) = e.read (if ltb (length b) size then length b else size) b in
      (if length text == 0 then none else some text, rest)

-- evbuffer_drain of the token where the mode asks for it.
unfoldable pub drop_token : Evbuffer → Bool → ℕ → Bytes → Option Bytes
drop_token e wanted n b = if wanted then e.drain n b else some b

-- ion_stream_read_token of a token at a position: the data (`none` after an exception), and the
-- input that stays.
unfoldable pub read_token : Evbuffer → Token → ℕ → Bytes → Option Bytes × Bytes
unfolding drop_token
read_token e t p b =
    if p == 0
    then elim (drop_token e (t.flags.with_token || t.flags.trim) (length t.token) b) [
      | none ↦ (none, b)
      | some b' ↦ (some (if t.flags.with_token then t.token else []), b')
    ]
    else let (text, rest) = e.read (p + (if t.flags.with_token then length t.token else 0)) b in
      elim (drop_token e t.flags.trim (length t.token) rest) [
        | none ↦ (none, rest)
        | some rest' ↦ (some text, rest')
      ]
