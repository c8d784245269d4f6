-- ===== src/Stream/Search/Laws.antt =====
-- What libevent does with the bytes of a buffer (event2/buffer.h), and the searches of
-- src/ion/ion_stream.c on it.
use php_ion.Base.{
  ℕ, ◌+◌, ◌-◌, ◌≤◌, ◌<◌, ◌⊎◌, le_or_lt, ◌≡◌, refl, sym, ap, none, some, Bool, true, false, ◌||◌,
  Bytes, length, take, drop, arith, inl, inr,
}
use php_ion.Stream.{Evbuffer, Token}
use php_ion.Stream.Search.{look, search_token}
use php_ion.Stream.Search.First.{
  first, first_from, Scanned, Scanned-none, first-Scanned, first-short, first-past,
}

-- The documented behaviour: bytes are read and drained from the front, a position inside the buffer
-- can be set, and a search gives the first place from the start on.
pub record EvbufferLaws (e : Evbuffer) : Type 0 where
  pub read-law : (n : ℕ) (b : Bytes) → n ≤ length b → e.read n b ≡ (take n b, drop n b)
  pub drain-law : (n : ℕ) (b : Bytes) → n ≤ length b → e.drain n b ≡ some (drop n b)
  pub ptr_set-law : (b : Bytes) (i : ℕ) → i < length b → e.ptr_set b i ≡ true
  pub search-law :
      (b w : Bytes) (i : ℕ) → i < length b → 0 < length w → e.search b w i ≡ first_from w b i

-- A token without a limit that stands nowhere below its offset.
pub record Seeking (b : Bytes) (t : Token) : Type 0 where
  pub unlimited : t.length ≡ 0
  pub some_text : 0 < length t.token
  pub scanned : Scanned t.token b t.offset

-- What a search of the bytes makes of a token.
pub record Searched (b : Bytes) (t t' : Token) : Type 0 where
  pub position : t'.position ≡ first t.token b
  pub token : t'.token ≡ t.token
  pub flags : t'.flags ≡ t.flags
  pub seeking : first t.token b ≡ none → Seeking b t'

-- The token of a search that looked up to the end.
abbrev searched : Bytes → Token → Token
searched b t = record t { offset = length b - length t.token + 1; position = first t.token b }

unseen-Searched :
    (b : Bytes) (t : Token)
    → Seeking b t
    → first t.token b ≡ none
    → Searched b t (record t { position = none })
unseen-Searched b t k e = record {
  position = sym e;
  token = refl;
  flags = refl;
  seeking = λ _. record { unlimited = k.unlimited; some_text = k.some_text; scanned = k.scanned };
}

searched-Searched :
    (b : Bytes) (t : Token) → Seeking b t → length t.token ≤ length b → Searched b t (searched b t)
searched-Searched b t k fits = record {
  position = refl;
  token = refl;
  flags = refl;
  seeking = λ e. record {
    unlimited = k.unlimited;
    some_text = k.some_text;
    scanned = Scanned-none t.token b k.some_text fits e;
  };
}

or-false : (x : Bool) → (x || false) ≡ x
or-false true = refl
or-false false = refl

module _ (e : Evbuffer) (laws : EvbufferLaws e) where
  -- Without a limit the whole buffer is searched from the offset on.
  look_lem :
      (b : Bytes) (t : Token)
      → Seeking b t
      → t.offset < length b
      → look e b t ≡ some (first t.token b)
  unfolding look
  look_lem b t k inside =
      rw
        (
          laws.ptr_set-law b t.offset inside,
          k.unlimited,
          laws.search-law b t.token t.offset inside k.some_text,
        )
        (ap some (first-Scanned t.token b t.offset k.scanned))

  unseen_search :
      (b : Bytes) (t : Token)
      → length b ≤ t.offset ⊎ length b < length t.token
      → search_token e b t ≡ some (record t { position = none })
  unfolding search_token
  unseen_search b t (inl h) = ground arith
  unseen_search b t (inr h) = ground arith

  seen_search :
      (b : Bytes) (t : Token)
      → Seeking b t
      → t.offset < length b
      → length t.token ≤ length b
      → search_token e b t ≡ some (searched b t)
  unfolding search_token
  seen_search b t k inside fits =
      rw (look_lem b t k inside, k.unlimited, or-false t.flags.limit) (ground arith)

  pub search_token_lem :
      (b : Bytes) (t : Token)
      → Seeking b t
      → (t' : Token) × ((search_token e b t ≡ some t') × Searched b t t')
  search_token_lem b t k = elim (le_or_lt (length b) t.offset) [
    | inl past ↦ (
      record t { position = none },
      (
        unseen_search b t (inl past),
        unseen-Searched b t k (first-past t.token b t.offset past k.scanned),
      ),
    )
    | inr inside ↦ elim (le_or_lt (length t.token) (length b)) [
      | inl fits ↦ (searched b t, (seen_search b t k inside fits, searched-Searched b t k fits))
      | inr short ↦ (
        record t { position = none },
        (unseen_search b t (inr short), unseen-Searched b t k (first-short t.token b short)),
      )
    ]
  ]
