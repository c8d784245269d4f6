-- ===== src/DeferredQueue.antt =====
-- src/ion/ion_deferred_queue.c: the global queue of callbacks that run at the next turn of the event
-- loop. The array and its size grow by doubling. The event itself (libevent) is only known by the
-- flag `delayed`, which says that it was added.
pub mod Order
use php_ion.Base.{
  ℕ, zero, suc, ◌+◌, ◌*◌, ◌%◌, ◌^◌, Option, none, some, List, [], ◌∷◌, ◌++◌, Bool, true, false,
  ◌==◌, ltb, if◌then◌else◌, length, get_elem?, set,
}

-- `struct _ion_global_queue_item`; `none` is NULL.
pub record Item : Type 0 where
  pub cb : ℕ
  pub object : Option ℕ

-- `struct _ion_global_queue`: `length` entries of the `size` that the array has room for.
pub record Queue : Type 0 where
  pub size : ℕ
  pub items : List Item
  pub delayed : Bool

abbrev pub no_queue : Queue
no_queue = record { size = 0; items = []; delayed = false }

-- The first allocation, and the doubling of a full array; `size` is a `size_t`.
unfoldable pub grow : Queue → Queue
grow q =
    let q' : Queue = if q.size == 0 then record q { size = 16 } else q in
    if q'.size == length q'.items then record q' { size = q'.size * 2 % 2 ^ 64 } else q'

-- ion_deferred_queue_push; `none` is a write behind the array.
unfoldable pub push : ℕ → ℕ → Queue → Option Queue
unfolding grow
push cb object q =
    if ltb (length (grow q).items) (grow q).size
    then some (record (grow q) {
      items = (grow q).items ++ record { cb = cb; object = some object } ∷ [];
      delayed = true;
    })
    else none

-- The queue and all else that callbacks change. A callback may push to the queue.
pub record World (S : Type 0) : Type 0 where
  pub queue : Queue
  pub rest : S

-- ion_deferred_clean releases the entries and the array.
unfoldable pub clean : {S : Type 0} → World S → World S
clean w =
    if length w.queue.items == 0
    then w
    else record w { queue = record w.queue { size = 0; items = [] } }

module _ {S : Type 0} (pending : S → Bool) where
  -- The object of an entry is set to NULL while an exception is pending.
  unfoldable pub mark : ℕ → World S → World S
  mark i w = elim (get_elem? w.queue.items i) [
    | none ↦ w
    | some x ↦
        if pending w.rest
        then record w {
          queue = record w.queue { items = set w.queue.items i (record x { object = none }) };
        }
        else w
  ]

module _ {S : Type 0} (call : ℕ → ℕ → World S → World S) (pending : S → Bool) where
  -- pion_cb_obj_call_without_args: PHP does not call a function while an exception is pending.
  unfoldable pub call_callback : ℕ → ℕ → World S → World S
  call_callback cb o w = if pending w.rest then w else call cb o w

  -- The loop from index `i`; `none` is the end of the fuel.
  unfoldable pub loop : ℕ → ℕ → World S → Option (World S)
  unfolding mark call_callback
  loop zero i w = none
  loop (suc n) i w = elim (get_elem? w.queue.items i) [
    | none ↦ some w
    | some x ↦ elim x.object [
      | none ↦ loop n (i + 1) w
      | some o ↦ loop n (i + 1) (mark pending i (call_callback x.cb o w))
    ]
  ]

  -- ion_deferred_dequeue
  unfoldable pub dequeue : ℕ → World S → Option (World S)
  unfolding loop
  dequeue n w = if length w.queue.items == 0 then some w else elim (loop n 0 w) [
    | none ↦ none
    | some w' ↦ some (record w' { queue = record w'.queue { size = 0; items = [] } })
  ]

  -- ion_deferred_dequeue_event_wrapper
  unfoldable pub dequeue_event : ℕ → World S → Option (World S)
  unfolding dequeue
  dequeue_event n w = dequeue n (record w { queue = record w.queue { delayed = false } })
