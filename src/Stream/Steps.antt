-- ===== src/Stream/Steps.antt =====
-- The life of a stream of src/classes/ION/Stream.c: the callbacks of libevent and the methods of
-- ION\Stream, in any order.
use php_ion.Base.{ℕ, ◌≡◌, refl, subst, Option, none, some, Bool, true, Bytes}
use php_ion.Stream.{Evbuffer, TokenFlags, Stream, State, World, Env}
use php_ion.Stream.Events.{What, on_input, on_output, on_notify}
use php_ion.Stream.Methods.Reading.{get, get_all, search, get_line, read, read_line, read_all}
use php_ion.Stream.Methods.Control.{
  write, append_to_input, enable, disable, connect, set_priority, set_input_max_size, flush,
  get_size, shutdown, incoming, suspend, resume, closed,
}
use php_ion.Stream.Coherent.{
  Coherent, get-Coherent, get_all-Coherent, search-Coherent, get_line-Coherent, read-Coherent,
  read_line-Coherent, read_all-Coherent, write-Coherent, append_to_input-Coherent, enable-Coherent,
  disable-Coherent, connect-Coherent, set_priority-Coherent, set_input_max_size-Coherent,
  flush-Coherent, get_size-Coherent, incoming-Coherent, suspend-Coherent, resume-Coherent,
  closed-Coherent,
}
use php_ion.Stream.Coherent.Results.{HandlersKeep, Kept, crashed, returned}
use php_ion.Stream.Coherent.Events.{
  on_input-Kept, on_output-Coherent, on_notify-Coherent, shutdown-Coherent,
}

-- A stream as it is created with the bits of its state.
abbrev pub new_stream : State → Bytes → Bytes → Option ℕ → Stream
new_stream s input output fd = record {
  state = s;
  has_buffer = true;
  input = input;
  output = output;
  fd = fd;
  low = 0;
  high = 0;
  length = 0;
  input_size = 0;
  priority = 0;
  token = none;
  read = none;
  flush = none;
  connect = none;
  shutdown = none;
  incoming = none;
  error = none;
}

pub new_stream-Coherent : (s : State) (i o : Bytes) (fd : Option ℕ) → Coherent (new_stream s i o fd)
new_stream-Coherent s i o fd = record {
  of_read = λ _. refl;
  of_flush = λ h. cc;
  of_connect = λ h. cc;
}

Kept-Coherent :
    {S : Type 0} (o : Option (World S)) (w : World S) → o ≡ some w → Kept o → Coherent w.stream
Kept-Coherent o w h crashed = cc
Kept-Coherent o w h (returned v k) = let same : v ≡ w = cc in subst (λ x. Coherent x.stream) same k

module _ (e : Evbuffer) {S : Type 0} (env : Env S) where
  pub data Step (w : World S) : World S → Type 0 where
    -- libevent moves bytes into the input and out of the output
    moved :
        (input output : Bytes)
        → Step w (record w { stream = record w.stream { input = input; output = output } })
    input : (w' : World S) → on_input env e w ≡ some w' → Step w w'
    output : Step w (on_output env w)
    notified : (what : What) → Step w (on_notify env e what w)
    got : (n : ℕ) → Step w (get e n w).1
    got_all : Step w (get_all e w).1
    searched : (word : Bytes) (offset n : ℕ) → Step w (search e word offset n w).1
    got_line : (word : Bytes) (mode : TokenFlags) (n : ℕ) → Step w (get_line e word mode n w).1
    reads : (n : ℕ) → Step w (read e n w).1
    reads_line : (word : Bytes) (mode : TokenFlags) (n : ℕ) → Step w (read_line e word mode n w).1
    reads_all : Step w (read_all e w).1
    writes : (d : Bytes) → Step w (write e d w).1
    appends : (d : Bytes) → Step w (append_to_input e d w).1
    enables : (ok : Bool) → Step w (enable ok w).1
    disables : (ok : Bool) → Step w (disable ok w).1
    connects : Step w (connect w).1
    sets_priority : (n : ℕ) → Step w (set_priority n w).1
    sets_size : (n : ℕ) → Step w (set_input_max_size n w).1
    flushes : Step w (flush w).1
    asks_size : (n : ℕ) → Step w (get_size n w).1
    shuts_down : (force : Bool) → Step w (shutdown env force w).1
    listens : Step w (incoming w).1
    suspends : Step w (suspend w).1
    resumes : Step w (resume w).1
    closes : Step w (closed w).1

  pub data Steps (w : World S) : World S → Type 0 where
    start : Steps w w
    more : (v v' : World S) → Steps w v → Step v v' → Steps w v'

  Step-Coherent :
      HandlersKeep env → (w w' : World S) → Step w w' → Coherent w.stream → Coherent w'.stream
  Step-Coherent keep w w' (moved i o) k = record {
    of_read = k.of_read;
    of_flush = k.of_flush;
    of_connect = k.of_connect;
  }
  Step-Coherent keep w w' (input v h) k =
      Kept-Coherent (on_input env e w) v h (on_input-Kept env keep e w k)
  Step-Coherent keep w w' output k = on_output-Coherent env keep w k
  Step-Coherent keep w w' (notified what) k = on_notify-Coherent env keep e what w k
  Step-Coherent keep w w' (got n) k = get-Coherent e n w k
  Step-Coherent keep w w' got_all k = get_all-Coherent e w k
  Step-Coherent keep w w' (searched word o n) k = search-Coherent e word o n w k
  Step-Coherent keep w w' (got_line word m n) k = get_line-Coherent e word m n w k
  Step-Coherent keep w w' (reads n) k = read-Coherent e n w k
  Step-Coherent keep w w' (reads_line word m n) k = read_line-Coherent e word m n w k
  Step-Coherent keep w w' reads_all k = read_all-Coherent e w k
  Step-Coherent keep w w' (writes d) k = write-Coherent e d w k
  Step-Coherent keep w w' (appends d) k = append_to_input-Coherent e d w k
  Step-Coherent keep w w' (enables ok) k = enable-Coherent ok w k
  Step-Coherent keep w w' (disables ok) k = disable-Coherent ok w k
  Step-Coherent keep w w' connects k = connect-Coherent w k
  Step-Coherent keep w w' (sets_priority n) k = set_priority-Coherent n w k
  Step-Coherent keep w w' (sets_size n) k = set_input_max_size-Coherent n w k
  Step-Coherent keep w w' flushes k = flush-Coherent w k
  Step-Coherent keep w w' (asks_size n) k = get_size-Coherent n w k
  Step-Coherent keep w w' (shuts_down f) k = shutdown-Coherent env keep f w k
  Step-Coherent keep w w' listens k = incoming-Coherent w k
  Step-Coherent keep w w' suspends k = suspend-Coherent w k
  Step-Coherent keep w w' resumes k = resume-Coherent w k
  Step-Coherent keep w w' closes k = closed-Coherent w k

  -- On a stream that starts coherent, as a new one does, and whose handlers keep a stream coherent,
  -- the callbacks of libevent and the methods in any order keep it coherent: there is a token only
  -- while a read is pending, flush() waits only while the stream is not flushed, and connect() only
  -- while it is not connected.
  pub Steps-Coherent :
      HandlersKeep env → (w w' : World S) → Coherent w.stream → Steps w w' → Coherent w'.stream
  Steps-Coherent keep w w' k start = k
  Steps-Coherent keep w w' k (more v v' before s) =
      Step-Coherent keep v v' s (Steps-Coherent keep w v k before)
