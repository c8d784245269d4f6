-- ===== src/Examples/Sockets.antt =====
-- Tests and witnesses of Http/WebSocket.
use php_ion.Base.{
  ℕ, ◌+◌, ◌≡◌, refl, ap, none, some, List, [], ◌∷◌, ◌++◌, map, true, false, Bytes, length,
  replicate, length-replicate, arith,
}
use php_ion.Http.WebSocket.Frame.{with_opcode, with_final_flag, get_final_flag}
use php_ion.Http.WebSocket.Parser.{
  WebSocketParser, new_parser, on_events, get_parsed_count, has_unparsed_frame,
}
use php_ion.Http.WebSocket.Delivery.{Sent, all_events, Decodes, received}
use php_ion.Http.WebSocket.Frames.{on_events-received}

abbrev zeros : ℕ → Bytes
zeros n = replicate n 0

zeros_size : (n : ℕ) → length (zeros n) ≡ n
zeros_size n = length-replicate n 0

-- A masking that adds one to each byte.
abbrev decode : Bytes → ℕ → Bytes → Bytes
decode m n [] = []
decode m n (b ∷ rest) = (b + 1) ∷ decode m (n + 1) rest

decode_length : (m : Bytes) (n : ℕ) (b : Bytes) → length (decode m n b) ≡ length b
decode_length m n [] = refl
decode_length m n (b ∷ rest) = omega (arith, decode_length m (n + 1) rest)

decode_place : (m : Bytes) (n k : ℕ) (b : Bytes) → decode m n b ≡ decode m k b
decode_place m n k [] = refl
decode_place m n k (b ∷ rest) = ap (◌∷◌ (b + 1)) (decode_place m (n + 1) (k + 1) rest)

decode_append :
    (m : Bytes) (n : ℕ) (a b : Bytes)
    → decode m n (a ++ b) ≡ decode m n a ++ decode m (n + length a) b
decode_append m n [] b = decode_place m n (n + 0) b
decode_append m n (x ∷ a) b = rw (decode_append m (n + 1) a b) (
    ap (λ l. (x + 1) ∷ (decode m (n + 1) a ++ l))
      (decode_place m (n + 1 + length a) (n + length (x ∷ a)) b))

decode-Decodes : Decodes decode
decode-Decodes = record {
  length_eq = decode_length;
  append_eq = decode_append;
  nil_eq = λ m n. refl;
}

abbrev sent : List Sent
sent =
    record {
      flags = record { opcode = 1; fin = true; masked = true };
      mask = 1 ∷ 2 ∷ 3 ∷ 4 ∷ [];
      chunks = (97 ∷ []) ∷ (98 ∷ 99 ∷ []) ∷ [];
    }
    ∷ record {
      flags = record { opcode = 2; fin = true; masked = false };
      mask = 0 ∷ 0 ∷ 0 ∷ 0 ∷ [];
      chunks = [];
    }
    ∷ []

on_events-received_example :
    (p' : WebSocketParser) × (on_events zeros decode
        (all_events sent)
        (record new_parser { on_frame = some 6 })
      ≡ some p')
    × (p'.delivered ≡ [] ++ map (λ f. (6, received decode f)) sent)
    × (get_parsed_count p' ≡ get_parsed_count (record new_parser { on_frame = some 6 }) + 2)
    × (has_unparsed_frame p' ≡ false)
on_events-received_example =
    on_events-received zeros decode zeros_size decode-Decodes sent 6
      (record new_parser { on_frame = some 6 }) refl refl

-- withOpcode() clears the final flag that was set before.
opcode_clears_fin :
    get_final_flag (
      with_opcode 1 (
        with_final_flag true (record {
          flags = record { opcode = 0; fin = false; masked = false };
          mask = [];
          body = none;
        })))
    ≡ false
unfolding get_final_flag with_opcode with_final_flag
opcode_clears_fin = refl
