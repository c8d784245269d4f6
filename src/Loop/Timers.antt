-- ===== src/Loop/Timers.antt =====
-- Intervals with a name: interval() and cancelInterval().
use php_ion.Base.{
  ℕ, ◌<◌, ◌≡◌, refl, ap, none, some, List, [], ◌∷◌, ◌++◌, Bool, true, false, ◌==◌, Bytes, length,
  get_elem?, set, arith, Bool-cases, inl, inr,
}
use php_ion.Promisor.Handlers.{same_bytes}
use php_ion.Promisor.Handlers.Removal.{same_bytes_self}
use php_ion.Loop.{
  Interval, Loop, find, delete, add, emit, watched, unwatched, released, removed, release,
  drop_name, free_interval, new_interval, new_timer, interval, cancel_interval,
}

module _ (name : Bytes) (id : ℕ) where
  add_lem : (t : List (Bytes × ℕ)) → find name t ≡ none → add name id t ≡ t ++ (name, id) ∷ []
  unfolding add
  add_lem t h = rw (add, h)

  find_new :
      (t : List (Bytes × ℕ)) → find name t ≡ none → find name (t ++ (name, id) ∷ []) ≡ some id
  unfolding find
  find_new [] h = rw (same_bytes_self name)
  find_new ((k, v) ∷ rest) h = elim (Bool-cases (same_bytes k name)) [
    | inl same ↦ cc (rw same at h)
    | inr other ↦ rw other (find_new rest (rw other at h))
  ]

  delete_new : (t : List (Bytes × ℕ)) → find name t ≡ none → delete name (t ++ (name, id) ∷ []) ≡ t
  unfolding find delete
  delete_new [] h = rw (same_bytes_self name)
  delete_new ((k, v) ∷ rest) h = elim (Bool-cases (same_bytes k name)) [
    | inl same ↦ cc (rw same at h)
    | inr other ↦ rw other (ap (◌∷◌ (k, v)) (delete_new rest (rw other at h)))
  ]

module _ {ℓ} {A : Type ℓ} where
  get_elem?_last : (xs : List A) (v : A) → get_elem? (xs ++ v ∷ []) (length xs) ≡ some v
  get_elem?_last [] v = refl
  get_elem?_last (x ∷ xs) v = get_elem?_last xs v

  set_last : (xs : List A) (v w : A) → set (xs ++ v ∷ []) (length xs) w ≡ xs ++ w ∷ []
  set_last [] v w = refl
  set_last (x ∷ xs) v w = ap (◌∷◌ x) (set_last xs v w)

-- The interval that interval() makes, and what cancelInterval() leaves of it.
module _ (name : Bytes) (fresh sec usec : ℕ) (s : Loop) where
  abbrev pub made : Interval
  made = new_interval (λ b. false) true (some name) fresh sec usec

  abbrev pub running : Loop
  running = emit (watched (length s.intervals) ∷ []) (record s {
    intervals = s.intervals ++ made ∷ [];
    timers = s.timers ++ (name, length s.intervals) ∷ [];
  })

  abbrev pub cancelled : Loop
  cancelled = record s {
    intervals = s.intervals ++ record made { timer = false; freed = true } ∷ [];
    effects =
        ((s.effects ++ watched (length s.intervals) ∷ []) ++ unwatched (length s.intervals) ∷ [])
        ++ released fresh ∷ removed fresh ∷ [];
  }

module _ (numeric : Bytes → Bool) (name : Bytes) (fresh sec usec : ℕ) (s : Loop) where
  -- A name that no timer has, that is not empty and not a number: interval() gives the new sequence,
  -- cancelInterval() of that name stops that interval, releases it and its sequence, and leaves the
  -- table of names as it was before; a second cancelInterval() answers false and changes nothing.
  pub cancel_interval-interval :
      0 < length name
      → numeric name ≡ false
      → find name s.timers ≡ none
      → (interval numeric (some (sec, usec)) (some name) fresh true s
          ≡ some (some fresh, running name fresh sec usec s))
        × (cancel_interval numeric name (running name fresh sec usec s)
            ≡ some (true, cancelled name fresh sec usec s))
        × (cancel_interval numeric name (cancelled name fresh sec usec s)
            ≡ some (false, cancelled name fresh sec usec s))
  unfolding interval new_timer cancel_interval free_interval release drop_name
  cancel_interval-interval l n h =
      let id = length s.intervals in
      let e0 : (length name == 0) ≡ false = ground (arith, l) in
      let e1 = find_new name id s.timers h in
      let e2 = get_elem?_last s.intervals (made name fresh sec usec s) in
      let e3 = delete_new name id s.timers h in
      let e4 =
        set_last s.intervals (made name fresh sec usec s)
          (record (made name fresh sec usec s) { timer = false; freed = true }) in
      (
        rw (e0, add_lem name id s.timers h),
        rw (cancel_interval, e1, e2, n, e1, e3, e4),
        rw (cancel_interval, h),
      )
