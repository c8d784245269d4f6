-- ===== src/Examples/Loops.antt =====
-- Tests and witnesses of Loop.
use php_ion.Base.{◌≡◌, refl, some, [], ◌∷◌, Bool, true, false, Bytes, arith}
use php_ion.Loop.{Loop, find, interval, cancel_interval, dispatch, in_loop}
use php_ion.Loop.Timers.{running, cancelled, cancel_interval-interval}

abbrev idle : Loop
idle = record { started = false; timers = []; intervals = []; effects = [] }

abbrev no_number : Bytes → Bool
no_number b = false

cancel_interval-interval_example :
    (interval no_number (some (1, 500)) (some (b'a' ∷ [])) 7 true idle
      ≡ some (some 7, running (b'a' ∷ []) 7 1 500 idle))
    × (cancel_interval no_number (b'a' ∷ []) (running (b'a' ∷ []) 7 1 500 idle)
        ≡ some (true, cancelled (b'a' ∷ []) 7 1 500 idle))
    × (cancel_interval no_number (b'a' ∷ []) (cancelled (b'a' ∷ []) 7 1 500 idle)
        ≡ some (false, cancelled (b'a' ∷ []) 7 1 500 idle))
unfolding find
cancel_interval-interval_example =
    cancel_interval-interval no_number (b'a' ∷ []) 7 1 500 idle (omega arith) refl refl

-- A dispatch() inside of a dispatch() is refused.
nested : (dispatch (λ s. (s, some false)) (record idle { started = true })).1 ≡ in_loop
unfolding dispatch
nested = refl
