-- ===== src/Examples/Processes.antt =====
-- Tests and witnesses of Process.
use php_ion.Base.{
  ℕ, ◌≡◌, refl, Option, none, some, List, [], ◌∷◌, ◌++◌, map, true, false, Bytes, length, replicate,
  length-replicate, arith,
}
use php_ion.Process.Table.{find}
use php_ion.Process.Objects.{ChildProcess, Processes, disabled, queued_spawn, released, enabled}
use php_ion.Process.Spawn.{in_parent}
use php_ion.Process.Ops.{Op, new, start_child, spawn_child, ask_exit, steps, empty}
use php_ion.Process.Tracked.{IsTracked}
use php_ion.Process.Tracked.Program.{steps-IsTracked}
use php_ion.Process.Ipc.{Ipc, null, Event, frame_header, frame_body, frame_end, incomings}
use php_ion.Process.Ipc.Reassembly.{message}
use php_ion.Process.Ipc.Delivery.{incomings-frames}

abbrev read_all : Bytes → Option Bytes × Bytes
read_all b = (some b, [])

empty-IsTracked : (self : ℕ) → IsTracked (empty self)
unfolding find
empty-IsTracked self = record {
  childs = λ pid id h. cc;
  execs = λ pid id h. cc;
  fresh = λ id c two h n. cc;
}

abbrev ops : List Op
ops = new (some (10, 11)) ∷ start_child 0 5 ∷ ask_exit 0 9 ∷ spawn_child 0 (in_parent 42) ∷ []

abbrev worker : ChildProcess
worker = record {
  done = false;
  failed = false;
  signaled = false;
  abort = false;
  started = true;
  pid = 42;
  ppid = 7;
  exit_status = none;
  signal = 0;
  ipc_parent = some 10;
  ipc_child = none;
  on_start = some 5;
  prom_exit = some 9;
  prom_started = none;
}

abbrev running : Processes
running = record (empty 7) {
  proc_childs = (42, 0) ∷ [];
  objects = worker ∷ [];
  effects = disabled 10 ∷ disabled 11 ∷ queued_spawn 0 ∷ released 11 ∷ enabled 10 ∷ [];
}

running_lem : steps read_all ops (empty 7) ≡ some running
unfolding steps
running_lem = refl

steps-IsTracked_example : IsTracked running
steps-IsTracked_example =
    steps-IsTracked read_all ops (empty 7) running (empty-IsTracked 7) running_lem

-- A parser that makes of each text the next events of a list.
abbrev execute : List (List Event) → Bytes → List (List Event) × List Event
execute [] t = ([], [])
execute (es ∷ rest) t = (rest, es)

abbrev script : List (List Event)
script =
    (frame_header 3 ∷ frame_body 0 (97 ∷ []) ∷ [])
    ∷ (frame_body 1 (98 ∷ 99 ∷ []) ∷ frame_end ∷ [])
    ∷ []

abbrev end_of_pair : Ipc (List (List Event))
end_of_pair = record {
  connected = true;
  ctx = none;
  on_message = some 4;
  on_disconnect = none;
  parser = script;
  frame_body = null;
  delivered = [];
  disconnects = [];
  written = [];
}

abbrev zeros : ℕ → Bytes
zeros n = replicate n 0

zeros_size : (n : ℕ) → length (zeros n) ≡ n
zeros_size n = length-replicate n 0

-- "abc" in two pieces, over two calls of the buffer.
incomings-frames_example :
    (i' : Ipc (List (List Event))) × (incomings zeros execute ((1 ∷ []) ∷ (2 ∷ []) ∷ []) end_of_pair
      ≡ some i')
    × (i'.delivered ≡ [] ++ map (message 4 none) (((97 ∷ []) ∷ (98 ∷ 99 ∷ []) ∷ []) ∷ []))
incomings-frames_example =
    incomings-frames zeros execute (((97 ∷ []) ∷ (98 ∷ 99 ∷ []) ∷ []) ∷ [])
      ((1 ∷ []) ∷ (2 ∷ []) ∷ []) 4 end_of_pair zeros_size refl (omega arith) refl
