-- ===== src/Http/WebSocket/Frames.antt =====
-- All frames that a WebSocketParser is sent.
use php_ion.Base.{
  ℕ, ◌+◌, ◌≡◌, refl, sym, ◌∙◌, none, some, false, List, [], ◌∷◌, ◌++◌, map, append_assoc,
  append-nil, Bytes, ◌>>=◌, length, arith,
}
use php_ion.Http.WebSocket.Frame.{Event}
use php_ion.Http.WebSocket.Parser.{
  WebSocketParser, on_event, on_events, get_parsed_count, has_unparsed_frame,
}
use php_ion.Http.WebSocket.Delivery.{
  Sent, sent_events, all_events, Decodes, received, ended, sent_lem,
}

on_events-append :
    (alloc : ℕ → Bytes) (decode : Bytes → ℕ → Bytes → Bytes) (xs ys : List Event)
    (p : WebSocketParser)
    → on_events alloc decode (xs ++ ys) p
      ≡ (on_events alloc decode xs p >>= on_events alloc decode ys)
unfolding on_events
on_events-append alloc decode [] ys p = refl
on_events-append alloc decode (e ∷ xs) ys p =
    elim (on_event alloc decode e p)
      as (λ o.
        (o >>= on_events alloc decode (xs ++ ys))
        ≡ (o >>= on_events alloc decode xs >>= on_events alloc decode ys)) [
          | none ↦ refl
          | some p' ↦ on_events-append alloc decode xs ys p'
        ]

module _ (alloc : ℕ → Bytes) (decode : Bytes → ℕ → Bytes → Bytes)
    (alloc_size : (n : ℕ) → length (alloc n) ≡ n) (d : Decodes decode) where
  -- Let the allocator return blocks of the size that it is asked for, and let the masking work byte by
  -- byte. A parser between two frames on which frame() was called takes any frames, their bodies cut
  -- anyhow, without a failed assertion or a write outside of a string; the sequence gets one object
  -- for each, in order, with its flags, its mask and the whole body without the mask, each is counted
  -- by getParsedCount(), and hasUnparsedFrame() is false again.
  pub on_events-received :
      (frames : List Sent) (s : ℕ) (p : WebSocketParser)
      → p.on_frame ≡ some s
      → p.frame ≡ none
      → (p' : WebSocketParser) × (on_events alloc decode (all_events frames) p ≡ some p')
        × (p'.delivered ≡ p.delivered ++ map (λ f. (s, received decode f)) frames)
        × (get_parsed_count p' ≡ get_parsed_count p + length frames)
        × (has_unparsed_frame p' ≡ false)
  unfolding on_events get_parsed_count has_unparsed_frame
  on_events-received [] s p o u =
      (p, refl, sym (append-nil p.delivered), omega arith, ground (arith, u))
  on_events-received (f ∷ rest) s p o u =
      let t = ended alloc decode d s (received decode f) p in
      let (p', e, l, c, h) = on_events-received rest s t o refl in
      (
        p',
        on_events-append alloc decode (sent_events f) (all_events rest) p
            ∙ rw (sent_lem alloc decode d alloc_size f s p o) e,
        l
            ∙ append_assoc p.delivered ((s, received decode f) ∷ [])
                (map (λ g. (s, received decode g)) rest),
        omega (arith, c),
        h,
      )
