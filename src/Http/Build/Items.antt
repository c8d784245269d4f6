-- ===== src/Http/Build/Items.antt =====
-- The first pass of pion_http_message_build against the list of strings that is meant.
use php_ion.Base.{
  ℕ, ◌+◌, ◌*◌, ◌≤◌, ◌<◌, ◌≡◌, refl, ap, ◌∙◌, some, List, [], ◌∷◌, ◌++◌, append_assoc, append-nil,
  ltb, lt→ltb, Bytes, length, length-append, arith, Bool-cases, inl, inr,
}
use php_ion.Http.Build.Pieces.{
  Piece, crlf, text, bytes, Pipe, push, reserve, push_values, end_line, colon_space, push_one,
}

abbrev pub value_items : List Bytes → List Piece
value_items [] = []
value_items (v ∷ []) = text v ∷ crlf ∷ []
value_items (v ∷ w ∷ rest) = text v ∷ text (b',' ∷ []) ∷ value_items (w ∷ rest)

abbrev pub header_items : Bytes → List Bytes → List Piece
header_items name values = text name ∷ text colon_space ∷ value_items values

abbrev pub headers_items : List (Bytes × List Bytes) → List Piece
headers_items [] = []
headers_items ((name, values) ∷ rest) = header_items name values ++ headers_items rest

abbrev pub total : List Piece → ℕ
total [] = 0
total (p ∷ rest) = length (bytes p) + total rest

pub total-append : (ps qs : List Piece) → total (ps ++ qs) ≡ total ps + total qs
total-append [] qs = omega arith
total-append (p ∷ ps) qs = omega (arith, total-append ps qs)

-- Every header has a value and no more than 15 of them.
abbrev pub Small : List (Bytes × List Bytes) → Type 0
Small [] = Unit {0}
Small ((name, values) ∷ rest) = (0 < length values) × (length values ≤ 15) × Small rest

-- The array holds its entries, and its first size.
pub record Fits (pipe : Pipe) : Type 0 where
  pub within : length pipe.items ≤ pipe.size
  pub first : 32 ≤ pipe.size

-- The array got some entries, and their sizes were added.
pub record Pushed (ps : List Piece) (pipe pipe' : Pipe) : Type 0 where
  pub items_eq : pipe'.items ≡ pipe.items ++ ps
  pub size_eq : pipe'.message_size ≡ pipe.message_size + total ps
  pub fits : Fits pipe'

pub push_lem :
    (p : Piece) (pipe : Pipe)
    → length pipe.items < pipe.size
    → push p pipe ≡ some (record pipe { items = pipe.items ++ p ∷ [] })
unfolding push
push_lem p pipe h = rw (lt→ltb (length pipe.items) pipe.size h)

abbrev pub loop_items : List Bytes → List Piece
loop_items [] = []
loop_items (v ∷ rest) = text v ∷ text (b',' ∷ []) ∷ loop_items rest

abbrev pub loop_size : List Bytes → ℕ
loop_size [] = 0
loop_size (v ∷ rest) = length v + 1 + loop_size rest

abbrev pub pipe_of : List Piece → ℕ → ℕ → Pipe
pipe_of items size n = record { items = items; size = size; message_size = n }

pipe_eq :
    (xs ys : List Piece) (size n m : ℕ) → xs ≡ ys → n ≡ m → pipe_of xs size n ≡ pipe_of ys size m
pipe_eq xs ys size n m e f = cc

pub push_values_lem :
    (vs : List Bytes) (items : List Piece) (size n : ℕ)
    → length items + length vs * 2 ≤ size
    → push_values vs (record { items = items; size = size; message_size = n })
      ≡ some
          (record { items = items ++ loop_items vs; size = size; message_size = n + loop_size vs })
unfolding push_values
push_values_lem [] items size n h = ground (arith, append-nil items)
push_values_lem (v ∷ rest) items size n h =
    let pipe : Pipe = record { items = items; size = size; message_size = n } in
    let e = push_lem (text v) pipe (omega arith) in
    let e' =
      push_lem (text (b',' ∷ [])) (record pipe { items = items ++ text v ∷ [] })
        (omega (arith, length-append items (text v ∷ []))) in
    let items' = (items ++ text v ∷ []) ++ text (b',' ∷ []) ∷ [] in
    let ih = push_values_lem rest items' size (n + (length v + 1)) (
      omega (
        arith,
        length-append items (text v ∷ []),
        length-append (items ++ text v ∷ []) (text (b',' ∷ []) ∷ []),
      )) in
    rw (e, e')
      (ih
        ∙ ap some (
            pipe_eq (items' ++ loop_items rest) (items ++ loop_items (v ∷ rest)) size
              (n + (length v + 1) + loop_size rest) (n + loop_size (v ∷ rest))
              (ap (λ l. l ++ loop_items rest)
                  (append_assoc items (text v ∷ []) (text (b',' ∷ []) ∷ []))
                ∙ append_assoc items (text v ∷ text (b',' ∷ []) ∷ []) (loop_items rest))
              (omega arith)))

pub end_line-append :
    (xs : List Piece) (y : Piece) (ys : List Piece)
    → end_line (xs ++ y ∷ ys) ≡ xs ++ end_line (y ∷ ys)
unfolding end_line
end_line-append [] y ys = refl
end_line-append (x ∷ []) y ys = refl
end_line-append (x ∷ x' ∷ xs) y ys = ap (◌∷◌ x) (end_line-append (x' ∷ xs) y ys)

pub end_line_loop :
    (v : Bytes) (rest : List Bytes) → end_line (loop_items (v ∷ rest)) ≡ value_items (v ∷ rest)
unfolding end_line
end_line_loop v [] = refl
end_line_loop v (w ∷ rest) = ap (λ l. text v ∷ text (b',' ∷ []) ∷ l) (end_line_loop w rest)

pub reserve_lem :
    (n : ℕ) (pipe : Pipe)
    → n ≤ 32
    → Fits pipe
    → (size : ℕ) × (reserve n pipe ≡ record pipe { size = size })
      × (length pipe.items + n ≤ size)
      × (32 ≤ size)
unfolding reserve
reserve_lem n pipe h k = elim (Bool-cases (ltb pipe.size (length pipe.items + n))) [
  | inl more ↦ (
    pipe.size * 2,
    ground (arith, more),
    omega (arith, k.within, k.first),
    omega (arith, k.first),
  )
  | inr enough ↦ (pipe.size, ground (arith, enough), ground (arith, enough), k.first)
]

-- The entries that push_one makes, and their size.
pub push_one_lem :
    (name v : Bytes) (pipe : Pipe)
    → Fits pipe
    → (pipe' : Pipe) × (push_one name v pipe ≡ some pipe')
      × Pushed (header_items name (v ∷ [])) pipe pipe'
unfolding push_one
push_one_lem name v pipe k =
    let (size, e, room, first) = reserve_lem 4 pipe (omega arith) k in
    let i0 = pipe.items in
    let i1 = i0 ++ text name ∷ [] in
    let i2 = i1 ++ text colon_space ∷ [] in
    let i3 = i2 ++ text v ∷ [] in
    let l1 = length-append i0 (text name ∷ []) in
    let l2 = length-append i1 (text colon_space ∷ []) in
    let l3 = length-append i2 (text v ∷ []) in
    let n = pipe.message_size in
    let m = n + (length name + 4 + length v) in
    let e1 = push_lem (text name) (pipe_of i0 size n) (omega arith) in
    let e2 = push_lem (text colon_space) (pipe_of i1 size n) (omega (arith, l1)) in
    let e3 = push_lem (text v) (pipe_of i2 size n) (omega (arith, l1, l2)) in
    let e4 = push_lem crlf (pipe_of i3 size m) (omega (arith, l1, l2, l3)) in
    let items_eq : i3 ++ crlf ∷ [] ≡ i0 ++ header_items name (v ∷ []) = simp append_assoc in
    (
      pipe_of (i3 ++ crlf ∷ []) size m,
      rw (e, e1, e2, e3, e4),
      record {
        items_eq = items_eq;
        size_eq = omega arith;
        fits = record {
          within = omega (arith, room, l1, l2, l3, length-append i3 (crlf ∷ []));
          first = first;
        };
      },
    )
