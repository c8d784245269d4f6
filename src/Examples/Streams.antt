-- ===== src/Examples/Streams.antt =====
-- The models of the streams on concrete inputs.
use php_ion.Base.{
  ℕ, ◌≡◌, refl, none, some, List, [], ◌∷◌, ◌++◌, true, false, Bytes, length, take, drop, ltb,
  lt→ltb, arith,
}
use php_ion.Stream.{Evbuffer, State, World, Env, Outcome}
use php_ion.Stream.Search.First.{first, first_from}
use php_ion.Stream.Search.Laws.{EvbufferLaws}
use php_ion.Stream.Search.Cut.{trim_token, mode_flags}
use php_ion.Stream.Events.{on_output, is_closed}
use php_ion.Stream.Methods.{this, boolean, deferred}
use php_ion.Stream.Methods.Reading.{get_line, read, read_line}
use php_ion.Stream.Methods.Control.{shutdown, flush, write}
use php_ion.Stream.Lines.{line_or, get_line_lem, get_line-parts}
use php_ion.Stream.Lines.Split.{lines, lines-split, whole}
use php_ion.Stream.Chunks.Delivery.{Delivered, read_line-feed}
use php_ion.Stream.Chunks.Counted.{DeliveredBytes, read-feed}
use php_ion.Stream.Methods.Reading.{read_all}
use php_ion.Stream.Chunks.Whole.{Ended, read_all-feed}
use php_ion.Stream.Coherent.{Coherent}
use php_ion.Stream.Coherent.Results.{HandlersKeep}
use php_ion.Stream.Steps.{
  start, more, flushes, writes, output, new_stream, new_stream-Coherent, Steps-Coherent,
}
use php_ion.Stream.Create.{pair_state, asks_closed}
use php_ion.Stream.Pairs.{waiting, closed-shutdown}
use php_ion.Stream.Methods.Control.{closed}
use php_ion.Stream.Closing.{ended, Unflushed, shutdown-on_output}

-- A buffer that does what libevent documents.
abbrev plain : Evbuffer
plain = record {
  read = λ n b. (take n b, drop n b);
  drain = λ n b. some (drop n b);
  ptr_set = λ b i. ltb i (length b);
  search = λ b w i. first_from w b i;
  search_range = λ b w i end. first_from w (take end b) i;
  add = λ b d. some (b ++ d);
}

abbrev plain_laws : EvbufferLaws plain
plain_laws = record {
  read-law = λ n b h. refl;
  drain-law = λ n b h. refl;
  ptr_set-law = λ b i h. lt→ltb i (length b) h;
  search-law = λ b w i h l. refl;
}

-- The promises whose handlers ran, and the descriptors that were closed.
abbrev recorder : Env (List ℕ)
recorder = record {
  react = λ p o w. record w { rest = p ∷ w.rest };
  close_socket = λ d l. d ∷ l;
  close_file = λ d l. 0 ∷ d ∷ l;
}

abbrev socket_state : State
socket_state = record {
  socket = true;
  pair = false;
  flushed = true;
  has_data = false;
  from_peer = false;
  from_me = true;
  close_on_flush = false;
  enabled = true;
  connected = true;
  eof = false;
  error = false;
  shutdown = false;
  suspended = false;
  reserved = false;
}

abbrev with_input : Bytes → World (List ℕ)
with_input b = record { stream = new_stream socket_state b [] (some 9); next = 5; rest = [] }

-- CR LF
abbrev crlf : Bytes
crlf = 13 ∷ 10 ∷ []

read_line-feed_example :
    (w' : World (List ℕ)) × ((read_line plain crlf (mode_flags trim_token) 0 (with_input (97 ∷ []))
        ≡ (deferred 5, w'))
      × (Delivered recorder plain plain_laws trim_token crlf 2 5
            (97 ∷ 98 ∷ 13 ∷ 10 ∷ 99 ∷ [])
            ((98 ∷ []) ∷ (13 ∷ []) ∷ (10 ∷ 99 ∷ []) ∷ [])
            w'
          × (w'.rest ≡ [])))
read_line-feed_example =
    read_line-feed recorder plain plain_laws trim_token crlf ((98 ∷ []) ∷ (13 ∷ []) ∷ [])
      (10 ∷ 99 ∷ []) 2 (with_input (97 ∷ [])) refl refl (omega arith) refl refl

read-feed_example :
    (w' : World (List ℕ)) × ((read plain 3 (with_input (97 ∷ [])) ≡ (deferred 5, w'))
      × (DeliveredBytes plain plain_laws recorder 3 5
            (97 ∷ 98 ∷ 99 ∷ 100 ∷ [])
            ((98 ∷ []) ∷ (99 ∷ 100 ∷ []) ∷ [])
            w'
          × (w'.rest ≡ [])))
read-feed_example =
    read-feed plain plain_laws recorder 3 ((98 ∷ []) ∷ []) (99 ∷ 100 ∷ []) (with_input (97 ∷ []))
      refl refl refl (omega arith) (omega arith)

abbrev two_lines : Bytes
two_lines = 97 ∷ 13 ∷ 10 ∷ 98 ∷ 13 ∷ 10 ∷ 99 ∷ []

get_line_lem_example :
    get_line plain crlf (mode_flags trim_token) 0 (with_input two_lines)
    ≡ line_or trim_token crlf (boolean false, with_input two_lines) (with_input two_lines) (some 1)
get_line_lem_example =
    get_line_lem plain plain_laws trim_token crlf (with_input two_lines) refl (omega arith)

get_line-parts_example : two_lines ≡ (97 ∷ []) ++ (crlf ++ (98 ∷ 13 ∷ 10 ∷ 99 ∷ []))
get_line-parts_example =
    get_line-parts plain plain_laws trim_token crlf (97 ∷ []) (with_input two_lines)
      (with_input (98 ∷ 13 ∷ 10 ∷ 99 ∷ [])) refl (omega arith)
      (get_line_lem plain plain_laws trim_token crlf (with_input two_lines) refl (omega arith))

lines-split_example :
    (ls : List Bytes) × ((w' : World (List ℕ)) × ((lines plain trim_token crlf 8
            (with_input two_lines)
          ≡ some (ls, w'))
        × ((first crlf w'.stream.input ≡ none)
            × (two_lines ≡ whole trim_token crlf ls ++ w'.stream.input))))
lines-split_example =
    lines-split plain trim_token crlf plain_laws 8 (with_input two_lines) refl (omega arith) refl
      (omega arith)

recorder-HandlersKeep : HandlersKeep recorder
recorder-HandlersKeep p o w k = record {
  of_read = k.of_read;
  of_flush = k.of_flush;
  of_connect = k.of_connect;
}

empty-Coherent : Coherent (with_input []).stream
empty-Coherent = new_stream-Coherent socket_state [] [] (some 9)

Steps-Coherent_example :
    Coherent (on_output recorder (flush (write plain (97 ∷ []) (with_input [])).1).1).stream
Steps-Coherent_example =
    Steps-Coherent plain recorder recorder-HandlersKeep (with_input [])
      (on_output recorder (flush (write plain (97 ∷ []) (with_input [])).1).1) empty-Coherent
      (more _ _ (more _ _ (more _ _ start (writes (97 ∷ []))) flushes) output)

-- A socket with output that is left.
abbrev busy : World (List ℕ)
busy = record {
  stream = new_stream (record socket_state { flushed = false }) [] (97 ∷ []) (some 9);
  next = 5;
  rest = [];
}

busy-Unflushed : Unflushed 9 busy
unfolding is_closed
busy-Unflushed = record {
  ready = refl;
  opened = refl;
  output_left = refl;
  owned = refl;
  no_flush = refl;
  descriptor = refl;
}

shutdown-on_output_example :
    (v : World (List ℕ)) × ((closed busy).0 ≡ deferred 5)
    × (shutdown recorder false (closed busy).1 ≡ (this, v))
    × (is_closed v.stream.state ≡ false)
    × (v.stream.fd ≡ some 9)
    × (v.rest ≡ [])
    × (on_output recorder v
        ≡ recorder.react 5 Outcome.done_stream (ended recorder 9 (waiting busy)))
    × (is_closed (ended recorder 9 (waiting busy)).stream.state ≡ true)
shutdown-on_output_example = shutdown-on_output recorder 9 busy busy-Unflushed refl

-- One stream of a pair.
abbrev paired : World (List ℕ)
paired = record {
  stream = new_stream (record pair_state { flushed = true }) [] [] none;
  next = 5;
  rest = [];
}

closed-shutdown_example :
    (v : World (List ℕ)) × (((shutdown recorder true (closed paired).1).1 ≡ v)
      × ((asks_closed v.stream ≡ true) × ((closed v ≡ (deferred 5, v)) × (v.rest ≡ []))))
unfolding is_closed
closed-shutdown_example = closed-shutdown recorder paired refl refl refl refl refl

read_all-feed_example :
    (w' : World (List ℕ)) × ((read_all plain (with_input (97 ∷ [])) ≡ (deferred 5, w'))
      × (Ended plain plain_laws recorder 5 (97 ∷ 98 ∷ 99 ∷ []) ((98 ∷ []) ∷ (99 ∷ []) ∷ []) w'
          × (w'.rest ≡ [])))
read_all-feed_example =
    read_all-feed plain plain_laws recorder ((98 ∷ []) ∷ (99 ∷ []) ∷ []) (with_input (97 ∷ [])) refl
      refl refl refl refl
