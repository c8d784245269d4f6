-- ===== src/DeferredQueue/Order.antt =====
-- The deferred queue keeps the order of its callbacks, and its array always has room.
use php_ion.Base.{
  ℕ, zero, suc, ◌+◌, ◌≤◌, ◌<◌, ◌≡◌, refl, sym, ap, ◌∙◌, subst, none, some, List, [], ◌∷◌, ◌++◌, map,
  append_assoc, append-nil, Bool, true, false, ◌==◌, ltb, length, length-append, lt→ltb, get_elem?,
  set, arith, Bool-cases, Option-cases, inl, inr, ==_iff,
}
use php_ion.DeferredQueue.{Item, Queue, World, grow, push, mark, call_callback, loop, dequeue}

-- The entries fit in the array, and an array that exists is not empty.
pub record Fits (q : Queue) : Type 0 where
  pub room : length q.items ≤ q.size

grow-items : (q : Queue) → (grow q).items ≡ q.items
unfolding grow
grow-items q = ground arith

positive : (n : ℕ) → (n == 0) ≡ false → 0 < n
positive n e = ground arith

differs : (m n : ℕ) → m ≤ n → (n == m) ≡ false → m < n
differs m n le e = ground arith

one_more : (l : List Item) (x : Item) (n : ℕ) → length l < n → length (l ++ x ∷ []) ≤ n
one_more l x n lt = omega (arith, length-append l (x ∷ []))

grow-room :
    (q : Queue) → Fits q → length q.items < 9223372036854775808 → length q.items < (grow q).size
unfolding grow
grow-room q f lt = elim (Bool-cases (q.size == 0)) [
  | inl z ↦ elim (Bool-cases (16 == length q.items)) [
    | inl t ↦ absurd (omega (arith, f.room, (==_iff _ _).0 z, (==_iff _ _).0 t))
    | inr e ↦ rw (z, e) (omega (arith, f.room, (==_iff _ _).0 z))
  ]
  | inr nz ↦ elim (Bool-cases (q.size == length q.items)) [
    | inl t ↦ rw (nz, t) (omega (arith, (==_iff _ _).0 t, positive q.size nz))
    | inr e ↦ rw (nz, e) (differs (length q.items) q.size f.room e)
  ]
]

-- Let the entries of the queue fit in its array, with fewer than 2 ^ 63 of them. A push succeeds,
-- adds its entry behind all others, has the event added, and the entries fit again.
pub push-Fits :
    (cb object : ℕ) (q : Queue)
    → Fits q
    → length q.items < 9223372036854775808
    → (q' : Queue) × (push cb object q ≡ some q')
      × (q'.items ≡ q.items ++ record { cb = cb; object = some object } ∷ [])
      × (q'.delayed ≡ true)
      × Fits q'
unfolding push
push-Fits cb object q f lt = (
  record (grow q) {
    items = (grow q).items ++ record { cb = cb; object = some object } ∷ [];
    delayed = true;
  },
  rw room refl,
  ap (λ l. l ++ record { cb = cb; object = some object } ∷ []) (grow-items q),
  refl,
  record {
    room = one_more (grow q).items (record { cb = cb; object = some object }) (grow q).size fits;
  },
)
  where
    fits : length (grow q).items < (grow q).size
    fits = subst (λ l. length l < (grow q).size) (sym (grow-items q)) (grow-room q f lt)

    room : ltb (length (grow q).items) (grow q).size ≡ true
    room = lt→ltb (length (grow q).items) (grow q).size fits

-- The callbacks in the order in which they run, and the entries that are left when one throws: those that
-- a callback adds wait behind the others.
pub data Runs (added : ℕ → ℕ → List (ℕ × ℕ)) (throws : ℕ → ℕ → Bool)
    : List (ℕ × ℕ) → List (ℕ × ℕ) → List (ℕ × ℕ) → Type 0 where
  end : Runs added throws [] [] []
  next :
      (cb o : ℕ) (waiting log lost : List (ℕ × ℕ))
      → throws cb o ≡ false
      → Runs added throws (waiting ++ added cb o) log lost
      → Runs added throws ((cb, o) ∷ waiting) ((cb, o) ∷ log) lost
  stop :
      (cb o : ℕ) (waiting : List (ℕ × ℕ))
      → throws cb o ≡ true
      → Runs added throws ((cb, o) ∷ waiting) ((cb, o) ∷ []) (waiting ++ added cb o)

abbrev pub entry : ℕ × ℕ → Item
entry x = record { cb = x.0; object = some x.1 }

at_end : (done rest : List Item) (x : Item) → get_elem? (done ++ x ∷ rest) (length done) ≡ some x
at_end [] rest x = refl
at_end (d ∷ done) rest x = at_end done rest x

past_end : (l : List Item) → get_elem? l (length l) ≡ none
past_end [] = refl
past_end (x ∷ l) = past_end l

set_end :
    (done rest : List Item) (x y : Item) → set (done ++ x ∷ rest) (length done) y ≡ done ++ y ∷ rest
set_end [] rest x y = refl
set_end (d ∷ done) rest x y = ap (λ l. d ∷ l) (set_end done rest x y)

map-entry : (xs ys : List (ℕ × ℕ)) → map entry (xs ++ ys) ≡ map entry xs ++ map entry ys
map-entry [] ys = refl
map-entry (x ∷ xs) ys = ap (λ l. entry x ∷ l) (map-entry xs ys)

-- What is asked of the callbacks: a call that PHP makes adds its own entries behind the queue, is noted
-- in the log, and leaves an exception behind if it is one of those that throw.
pub record Adds {S : Type 0} (call : ℕ → ℕ → World S → World S) (pending : S → Bool)
    (log : S → List (ℕ × ℕ)) (added : ℕ → ℕ → List (ℕ × ℕ)) (throws : ℕ → ℕ → Bool) : Type 0 where
  pub items :
      (cb o : ℕ) (w : World S)
      → pending w.rest ≡ false
      → (call cb o w).queue.items ≡ w.queue.items ++ map entry (added cb o)
  pub logged :
      (cb o : ℕ) (w : World S)
      → pending w.rest ≡ false
      → log (call cb o w).rest ≡ log w.rest ++ (cb, o) ∷ []
  pub thrown :
      (cb o : ℕ) (w : World S) → pending w.rest ≡ false → pending (call cb o w).rest ≡ throws cb o

module _ {S : Type 0} (pending : S → Bool) where
  mark_rest : (i : ℕ) (w : World S) → (mark pending i w).rest ≡ w.rest
  unfolding mark
  mark_rest i w = elim (Option-cases (get_elem? w.queue.items i)) [
    | inl e ↦ rw (e, mark) refl
    | inr (x, e) ↦ elim (Bool-cases (pending w.rest)) [
      | inl t ↦ rw (e, mark) (rw t refl)
      | inr f ↦ rw (e, mark) (rw f refl)
    ]
  ]

  mark_items :
      (done rest : List Item) (x : Item) (w : World S)
      → w.queue.items ≡ done ++ x ∷ rest
      → (y : Item) × ((mark pending (length done) w).queue.items ≡ done ++ y ∷ rest)
  unfolding mark
  mark_items done rest x w e = elim (Bool-cases (pending w.rest)) [
    | inl t ↦ (
      record x { object = none },
      rw (there, mark) (rw t (rw e (set_end done rest x (record x { object = none })))),
    )
    | inr f ↦ (x, rw (there, mark) (rw f e))
  ]
    where
      there : get_elem? w.queue.items (length done) ≡ some x
      there = rw e (at_end done rest x)

module _ {S : Type 0} (call : ℕ → ℕ → World S → World S) (pending : S → Bool) where
  not_called :
      (cb o : ℕ) (w : World S) → pending w.rest ≡ true → call_callback call pending cb o w ≡ w
  unfolding call_callback
  not_called cb o w p = rw p refl

  is_called :
      (cb o : ℕ) (w : World S)
      → pending w.rest ≡ false
      → call_callback call pending cb o w ≡ call cb o w
  unfolding call_callback
  is_called cb o w p = rw p refl

  -- One turn of the loop, for an entry that has its object.
  loop_turn :
      (n : ℕ) (w : World S) (done rest : List Item) (cb o : ℕ)
      → w.queue.items ≡ done ++ entry (cb, o) ∷ rest
      → loop call pending (suc n) (length done) w
        ≡ loop call pending n
            (length done + 1)
            (mark pending (length done) (call_callback call pending cb o w))
  unfolding loop
  loop_turn n w done rest cb o e = rw (found, loop) refl
    where
      found : get_elem? w.queue.items (length done) ≡ some (entry (cb, o))
      found = rw e (at_end done rest (entry (cb, o)))

  loop_end :
      (n : ℕ) (w : World S) (done : List Item)
      → w.queue.items ≡ done ++ []
      → loop call pending (suc n) (length done) w ≡ some w
  unfolding loop
  loop_end n w done e = rw (ended, loop) refl
    where
      ended : get_elem? w.queue.items (length done) ≡ none
      ended = rw (e, append-nil done) (past_end done)

  -- While an exception is pending, the loop calls nothing.
  loop_skips :
      (n : ℕ) (w : World S) (done : List Item) (todo : List (ℕ × ℕ))
      → pending w.rest ≡ true
      → w.queue.items ≡ done ++ map entry todo
      → length todo < n
      → (w' : World S) × (loop call pending n (length done) w ≡ some w') × (w'.rest ≡ w.rest)
  loop_skips zero w done todo p e lt = absurd (omega arith)
  loop_skips (suc n) w done [] p e lt = (w, loop_end n w done e, refl)
  loop_skips (suc n) w done ((cb, o) ∷ todo) p e lt =
      let (y, m) = mark_items pending done (map entry todo) (entry (cb, o)) w e in
      let (w', run, l) =
        loop_skips n (mark pending (length done) w) (done ++ y ∷ []) todo
          (ap pending (mark_rest pending (length done) w) ∙ p)
          (m ∙ sym (append_assoc done (y ∷ []) (map entry todo))) (omega arith) in
      (
        w',
        loop_turn n w done (map entry todo) cb o e
            ∙ ap (λ x. loop call pending n (length done + 1) (mark pending (length done) x))
                (not_called cb o w p)
            ∙ ap (λ i. loop call pending n i (mark pending (length done) w))
                (sym (length-append done (y ∷ [])))
            ∙ run,
        l ∙ mark_rest pending (length done) w,
      )

module _ {S : Type 0} (call : ℕ → ℕ → World S → World S) (pending : S → Bool)
    (log : S → List (ℕ × ℕ)) (added : ℕ → ℕ → List (ℕ × ℕ)) (throws : ℕ → ℕ → Bool)
    (adds : Adds call pending log added throws) where
  -- The world after the turn of an entry that is called.
  abbrev turned : ℕ → ℕ → List Item → World S → World S
  turned cb o done w = mark pending (length done) (call cb o w)

  record Turn (n : ℕ) (cb o : ℕ) (done : List Item) (waiting : List (ℕ × ℕ)) (w : World S)
      : Type 0 where
    item : Item
    items_eq :
        (turned cb o done w).queue.items ≡ (done ++ item ∷ []) ++ map entry (waiting ++ added cb o)
    run_eq :
        loop call pending (suc n) (length done) w
        ≡ loop call pending n (length (done ++ item ∷ [])) (turned cb o done w)
    log_eq : log (turned cb o done w).rest ≡ log w.rest ++ (cb, o) ∷ []
    thrown_eq : pending (turned cb o done w).rest ≡ throws cb o

  loop-Turn :
      (n : ℕ) (cb o : ℕ) (done : List Item) (waiting : List (ℕ × ℕ)) (w : World S)
      → pending w.rest ≡ false
      → w.queue.items ≡ done ++ map entry ((cb, o) ∷ waiting)
      → Turn n cb o done waiting w
  loop-Turn n cb o done waiting w p e =
      let (y, m) =
        mark_items pending done (map entry (waiting ++ added cb o)) (entry (cb, o)) (call cb o w)
          called in
      record {
        item = y;
        items_eq = m ∙ sym (append_assoc done (y ∷ []) (map entry (waiting ++ added cb o)));
        run_eq =
            loop_turn call pending n w done (map entry waiting) cb o e
            ∙ ap (λ x. loop call pending n (length done + 1) (mark pending (length done) x))
                (is_called call pending cb o w p)
            ∙ ap (λ i. loop call pending n i (turned cb o done w))
                (sym (length-append done (y ∷ [])));
        log_eq = ap log (mark_rest pending (length done) (call cb o w)) ∙ adds.logged cb o w p;
        thrown_eq =
            ap pending (mark_rest pending (length done) (call cb o w)) ∙ adds.thrown cb o w p;
      }
    where
      called : (call cb o w).queue.items ≡ done ++ entry (cb, o) ∷ map entry (waiting ++ added cb o)
      called =
          adds.items cb o w p
          ∙ rw e (
              append_assoc done (entry (cb, o) ∷ map entry waiting) (map entry (added cb o))
              ∙ ap (λ l. done ++ entry (cb, o) ∷ l) (sym (map-entry waiting (added cb o))))

  loop_log :
      (n : ℕ) (w : World S) (done : List Item) (todo trace lost : List (ℕ × ℕ))
      → Runs added throws todo trace lost
      → pending w.rest ≡ false
      → w.queue.items ≡ done ++ map entry todo
      → length trace + length lost < n
      → (w' : World S) × (loop call pending n (length done) w ≡ some w')
        × (log w'.rest ≡ log w.rest ++ trace)
  loop_log zero w done todo trace lost r p e lt = absurd (omega arith)
  loop_log (suc n) w done _ _ _ end p e lt =
      (w, loop_end call pending n w done e, sym (append-nil (log w.rest)))
  loop_log (suc n) w done _ _ _ (next cb o waiting trace lost t r) p e lt =
      let turn = loop-Turn n cb o done waiting w p e in
      let (w', run, l) =
        loop_log n (turned cb o done w) (done ++ turn.item ∷ []) (waiting ++ added cb o) trace lost
          r (turn.thrown_eq ∙ t) turn.items_eq (omega arith) in
      (
        w',
        turn.run_eq ∙ run,
        l ∙ ap (λ x. x ++ trace) turn.log_eq ∙ append_assoc (log w.rest) ((cb, o) ∷ []) trace,
      )
  loop_log (suc n) w done _ _ _ (stop cb o waiting t) p e lt =
      let turn = loop-Turn n cb o done waiting w p e in
      let (w', run, l) =
        loop_skips call pending n (turned cb o done w) (done ++ turn.item ∷ [])
          (waiting ++ added cb o) (turn.thrown_eq ∙ t) turn.items_eq (omega arith) in
      (w', turn.run_eq ∙ run, ap log l ∙ turn.log_eq)

  -- Let each callback that PHP calls add its own entries behind the queue (and no others), note its
  -- call, and throw or not as is given for it. Let no exception be pending, and let the queue have the
  -- given entries, none of which lost its object. With fuel for all entries and one more, dequeue
  -- returns. It has called first in, first out the entries and those that were added meanwhile, up to
  -- the first that throws; it drops the entries behind that one without a call, and leaves an empty
  -- queue without an array.
  pub dequeue-Runs :
      (n : ℕ) (w : World S) (x : ℕ × ℕ) (todo trace lost : List (ℕ × ℕ))
      → Runs added throws (x ∷ todo) trace lost
      → pending w.rest ≡ false
      → w.queue.items ≡ map entry (x ∷ todo)
      → length trace + length lost < n
      → (w' : World S) × (dequeue call pending n w ≡ some w')
        × (log w'.rest ≡ log w.rest ++ trace)
        × (w'.queue.items ≡ [])
        × (w'.queue.size ≡ 0)
  unfolding dequeue
  dequeue-Runs n w x todo trace lost r p e lt =
      let (w', run, l) = loop_log n w [] (x ∷ todo) trace lost r p e lt in
      (
        record w' { queue = record w'.queue { size = 0; items = [] } },
        rw (waits, dequeue) (rw run refl),
        l,
        refl,
        refl,
      )
    where
      one_at_least : (l : List Item) → (length (entry x ∷ l) == 0) ≡ false
      one_at_least l = ground arith

      waits : (length w.queue.items == 0) ≡ false
      waits = rw e (one_at_least (map entry todo))
