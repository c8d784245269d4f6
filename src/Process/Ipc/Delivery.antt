-- ===== src/Process/Ipc/Delivery.antt =====
-- The same for the texts that the buffer gives, as the parser cuts them into frames.
use php_ion.Base.{
  ℕ, ◌≡◌, refl, ◌∙◌, Option, none, some, List, [], ◌∷◌, ◌++◌, map, Bytes, length, arith,
  Option-cases, inl, inr,
}
use php_ion.Process.Ipc.{
  Ipc, Event, frame_header, frame_body, frame_end, message_begin, message_body, message_end,
  deliver, on_event, on_events, incoming, incomings,
}
use php_ion.Process.Ipc.Reassembly.{frames_events, Full, message, on_events-append, frames_lem}

-- All calls that the parser makes for some texts.
abbrev pub calls : {P : Type 0} → (P → Bytes → P × List Event) → P → List Bytes → List Event
calls execute p [] = []
calls execute p (t ∷ rest) = (execute p t).1 ++ calls execute (execute p t).0 rest

module _ {P : Type 0} (alloc : ℕ → Bytes) where
  abbrev with_parser : P → Option (Ipc P) → Option (Ipc P)
  with_parser q none = none
  with_parser q (some i) = some (record i { parser = q })

  with_parser_twice :
      (q r : P) (o : Option (Ipc P)) → with_parser r (with_parser q o) ≡ with_parser r o
  with_parser_twice q r none = refl
  with_parser_twice q r (some i) = refl

  -- The callbacks neither read nor change the state of the parser.
  on_event_parser :
      (q : P) (e : Event) (i : Ipc P)
      → on_event alloc e (record i { parser = q }) ≡ with_parser q (on_event alloc e i)
  unfolding on_event message_begin message_body message_end deliver
  on_event_parser q (frame_header size) i = ground arith
  on_event_parser q (frame_body offset at) i = ground arith
  on_event_parser q frame_end i = ground arith

  on_events_parser :
      (q : P) (es : List Event) (i : Ipc P)
      → on_events alloc es (record i { parser = q }) ≡ with_parser q (on_events alloc es i)
  unfolding on_events
  on_events_parser q [] i = refl
  on_events_parser q (e ∷ es) i = elim (Option-cases (on_event alloc e i)) [
    | inl n ↦ rw (on_event_parser q e i, n)
    | inr (j, s) ↦ rw (on_event_parser q e i, s) (on_events_parser q es j)
  ]

  module _ (execute : P → Bytes → P × List Event) where
    -- The state of the parser behind some texts.
    abbrev after : P → List Bytes → P
    after p [] = p
    after p (t ∷ rest) = after (execute p t).0 rest

    incomings-calls :
        (texts : List Bytes) (i : Ipc P)
        → incomings alloc execute texts i
          ≡ with_parser (after i.parser texts) (on_events alloc (calls execute i.parser texts) i)
    unfolding incomings on_events incoming
    incomings-calls [] i = refl
    incomings-calls (t ∷ rest) i =
        let q = (execute i.parser t).0 in
        let es = (execute i.parser t).1 in
        let r = after q rest in
        let both = on_events-append alloc es (calls execute q rest) i in
        let first = on_events_parser q es i in
        elim (Option-cases (on_events alloc es i)) [
          | inl n ↦ rw (first, both, n)
          | inr (j, s) ↦
              rw (first, both, s)
                (incomings-calls rest (record j { parser = q })
                  ∙ rw (on_events_parser q (calls execute q rest) j)
                      (with_parser_twice q r (on_events alloc (calls execute q rest) j)))
        ]

    -- Whatever texts arrive, if the parser makes of them frames that are not empty, their bodies cut
    -- anyhow, the sequence of whenIncoming() gets one message for each frame, in order, with the
    -- whole body in a string of that size, and nothing is written outside of a string.
    pub incomings-frames :
        (frames : List (List Bytes)) (texts : List Bytes) (p : ℕ) (i : Ipc P)
        → ((n : ℕ) → length (alloc n) ≡ n)
        → i.on_message ≡ some p
        → Full frames
        → calls execute i.parser texts ≡ frames_events frames
        → (i' : Ipc P) × (incomings alloc execute texts i ≡ some i')
          × (i'.delivered ≡ i.delivered ++ map (message p i.ctx) frames)
    incomings-frames frames texts p i alloc_size m full c =
        let (i', e, d) = frames_lem alloc alloc_size frames p i m full in
        (record i' { parser = after i.parser texts }, incomings-calls texts i ∙ rw (c, e), d)
