-- ===== src/Examples/Queues.antt =====
-- The deferred queue of src/ion/ion_deferred_queue.c with two callbacks, of which the first adds a third and the second throws.
use php_ion.Base.{
  ℕ, ◌≡◌, refl, some, List, [], ◌∷◌, ◌++◌, Bool, true, false, ◌==◌, if◌then◌else◌, map, arith,
}
use php_ion.DeferredQueue.{Queue, World, push, dequeue}
use php_ion.DeferredQueue.Order.{Fits, push-Fits, Runs, next, stop, entry, Adds, dequeue-Runs}

abbrev full : Queue
full = record { size = 1; items = entry (1, 7) ∷ []; delayed = true }

full-Fits : Fits full
full-Fits = record { room = omega arith }

push-Fits_example :
    (q' : Queue) × (push 2 8 full ≡ some q')
    × (q'.items ≡ full.items ++ record { cb = 2; object = some 8 } ∷ [])
    × (q'.delayed ≡ true)
    × Fits q'
push-Fits_example = push-Fits 2 8 full full-Fits (omega arith)

-- Callback 1 adds callback 3, and callback 2 throws.
abbrev added : ℕ → ℕ → List (ℕ × ℕ)
added cb o = if cb == 1 then (3, o) ∷ [] else []

abbrev throws : ℕ → ℕ → Bool
throws cb o = cb == 2

-- The calls that were made, and whether an exception is pending.
abbrev Notes : Type 0
Notes = List (ℕ × ℕ) × Bool

abbrev note_call : ℕ → ℕ → World Notes → World Notes
note_call cb o w = record {
  queue = record w.queue { items = w.queue.items ++ map entry (added cb o) };
  rest = (w.rest.0 ++ (cb, o) ∷ [], throws cb o);
}

note_call-Adds : Adds note_call (λ l. l.1) (λ l. l.0) added throws
note_call-Adds = record {
  items = λ cb o w p. refl;
  logged = λ cb o w p. refl;
  thrown = λ cb o w p. refl;
}

abbrev two : World Notes
two = record {
  queue = record { size = 16; items = map entry ((1, 7) ∷ (2, 8) ∷ []); delayed = false };
  rest = ([], false);
}

two-Runs : Runs added throws ((1, 7) ∷ (2, 8) ∷ []) ((1, 7) ∷ (2, 8) ∷ []) ((3, 7) ∷ [])
two-Runs = next 1 7 _ _ _ refl (stop 2 8 _ refl)

-- Callback 3 is lost.
dequeue-Runs_example :
    (w' : World Notes) × (dequeue note_call (λ l. l.1) 4 two ≡ some w')
    × (w'.rest.0 ≡ (1, 7) ∷ (2, 8) ∷ [])
    × (w'.queue.items ≡ [])
    × (w'.queue.size ≡ 0)
dequeue-Runs_example =
    dequeue-Runs note_call (λ l. l.1) (λ l. l.0) added throws note_call-Adds 4 two (1, 7)
      ((2, 8) ∷ []) ((1, 7) ∷ (2, 8) ∷ []) ((3, 7) ∷ []) two-Runs refl refl (omega arith)
