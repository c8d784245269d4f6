-- ===== src/Process/Ipc/Reassembly.antt =====
-- The messages that an IPC object makes of frames, however the bodies of the frames are cut.
use php_ion.Base.{
  ℕ, ◌+◌, ◌<◌, ◌≡◌, refl, sym, ◌∙◌, Option, none, some, List, [], ◌∷◌, ◌++◌, map, append_assoc,
  append-nil, false, ◌==◌, Bytes, ◌>>=◌, length, drop, length-append, length-drop, arith, join,
}
use php_ion.Memory.{memcpy, memcpy_next, memcpy_end}
use php_ion.Uri.Text.{ZendString}
use php_ion.Process.Ipc.{
  Ipc, live, freed, Event, frame_header, frame_body, frame_end, message_begin, message_body,
  message_end, terminated, deliver, on_event, on_events,
}

-- The calls of the parser for a frame whose body comes in pieces.
abbrev pub body_events : ℕ → List Bytes → List Event
body_events offset [] = frame_end ∷ []
body_events offset (c ∷ rest) = frame_body offset c ∷ body_events (offset + length c) rest

abbrev pub frame_events : List Bytes → List Event
frame_events chunks = frame_header (length (join chunks)) ∷ body_events 0 chunks

abbrev pub frames_events : List (List Bytes) → List Event
frames_events [] = []
frames_events (f ∷ rest) = frame_events f ++ frames_events rest

-- The string of a text.
abbrev pub zend_string : Bytes → ZendString
zend_string text = record { len = length text; val = text ++ 0 ∷ [] }

-- No frame is empty.
abbrev pub Full : List (List Bytes) → Type 0
Full [] = Unit {0}
Full (f ∷ rest) = (0 < length (join f)) × Full rest

-- The message of a frame: the pieces of its body in one string.
abbrev pub message : ℕ → Option ℕ → List Bytes → ℕ × ZendString × Option ℕ
message p ctx chunks = (p, zend_string (join chunks), ctx)

module _ {P : Type 0} (alloc : ℕ → Bytes) where
  pub on_events-append :
      (xs ys : List Event) (i : Ipc P)
      → on_events alloc (xs ++ ys) i ≡ (on_events alloc xs i >>= on_events alloc ys)
  unfolding on_events
  on_events-append [] ys i = refl
  on_events-append (e ∷ xs) ys i =
      elim (on_event alloc e i)
        as (λ o.
          (o >>= on_events alloc (xs ++ ys)) ≡ (o >>= on_events alloc xs >>= on_events alloc ys)) [
            | none ↦ refl
            | some i' ↦ on_events-append xs ys i'
          ]

  -- What is left after the last piece of a body.
  abbrev ended : ℕ → Bytes → Ipc P → Ipc P
  ended p text i = record i {
    delivered = i.delivered ++ (p, zend_string text, i.ctx) ∷ [];
    frame_body = freed;
  }

  body_lem :
      (chunks : List Bytes) (out rest : Bytes) (n : ℕ) (text : Bytes) (p : ℕ) (i : Ipc P)
      → i.on_message ≡ some p
      → n ≡ length out
      → text ≡ out ++ join chunks
      → 0 < length text
      → length rest ≡ length (join chunks) + 1
      → on_events alloc
          (body_events n chunks)
          (record i { frame_body = live (record { len = length text; val = out ++ rest }) })
        ≡ some (ended p text i)
  unfolding on_events on_event message_end message_body deliver terminated
  body_lem [] out rest n text p i m o t l r =
      let e : memcpy (out ++ rest) (length text) (0 ∷ []) ≡ some (text ++ 0 ∷ []) =
        memcpy_end out rest text (t ∙ append-nil out) r in
      ground (arith, m, e, l)
  body_lem (c ∷ chunks) out rest n text p i m o t l r =
      let e : memcpy (out ++ rest) n c ≡ some ((out ++ c) ++ drop (length c) rest) =
        memcpy_next out rest c n o (omega (arith, r, length-append c (join chunks))) in
      let ih =
        body_lem chunks (out ++ c) (drop (length c) rest) (n + length c) text p i m
          (omega (arith, o, length-append out c)) (t ∙ sym (append_assoc out c (join chunks))) l
          (omega (arith, r, length-append c (join chunks), length-drop (length c) rest)) in
      rw e ih

  module _ (alloc_size : (n : ℕ) → length (alloc n) ≡ n) where
    frame_lem :
        (chunks : List Bytes) (p : ℕ) (i : Ipc P)
        → i.on_message ≡ some p
        → 0 < length (join chunks)
        → on_events alloc (frame_events chunks) i ≡ some (ended p (join chunks) i)
    unfolding on_events on_event message_begin
    frame_lem chunks p i m l =
        let b =
          body_lem chunks [] (alloc (length (join chunks) + 1)) 0 (join chunks) p i m refl refl l
            (alloc_size (length (join chunks) + 1)) in
        let e : (length (join chunks) == 0) ≡ false = ground (arith, l) in rw e b

    pub frames_lem :
        (frames : List (List Bytes)) (p : ℕ) (i : Ipc P)
        → i.on_message ≡ some p
        → Full frames
        → (i' : Ipc P) × (on_events alloc (frames_events frames) i ≡ some i')
          × (i'.delivered ≡ i.delivered ++ map (message p i.ctx) frames)
    unfolding on_events
    frames_lem [] p i m full = (i, refl, sym (append-nil i.delivered))
    frames_lem (f ∷ rest) p i m full =
        let (i', e, d) = frames_lem rest p (ended p (join f) i) m full.1 in
        (
          i',
          on_events-append (frame_events f) (frames_events rest) i
              ∙ rw (frame_lem f p i m full.0) e,
          d ∙ append_assoc i.delivered (message p i.ctx f ∷ []) (map (message p i.ctx) rest),
        )
