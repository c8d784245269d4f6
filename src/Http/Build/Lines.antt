-- ===== src/Http/Build/Lines.antt =====
-- The entries that the headers of a message make.
use php_ion.Base.{
  ◌+◌, ◌*◌, ◌≤◌, ◌<◌, ◌≡◌, refl, sym, ap, ◌∙◌, some, List, [], ◌∷◌, ◌++◌, append_assoc, append-nil,
  Bytes, length, length-append, arith,
}
use php_ion.Http.Build.Pieces.{
  text, Pipe, end_line, colon_space, push_many, push_header, push_headers,
}
use php_ion.Http.Build.Items.{
  value_items, header_items, headers_items, total, total-append, Small, Fits, Pushed, push_lem,
  push_values_lem, loop_items, loop_size, end_line-append, end_line_loop, reserve_lem, push_one_lem,
  pipe_of,
}

total-value_items :
    (v : Bytes) (rest : List Bytes) → total (value_items (v ∷ rest)) ≡ loop_size (v ∷ rest) + 1
total-value_items v [] = omega arith
total-value_items v (w ∷ rest) = omega (arith, total-value_items w rest)

length-value_items :
    (v : Bytes) (rest : List Bytes) → length (value_items (v ∷ rest)) ≡ length (v ∷ rest) * 2
length-value_items v [] = omega arith
length-value_items v (w ∷ rest) = omega (arith, length-value_items w rest)

push_many_lem :
    (name v : Bytes) (rest : List Bytes) (pipe : Pipe)
    → length (v ∷ rest) ≤ 15
    → Fits pipe
    → (pipe' : Pipe) × (push_many name (v ∷ rest) pipe ≡ some pipe')
      × Pushed (header_items name (v ∷ rest)) pipe pipe'
unfolding push_many
push_many_lem name v rest pipe h k =
    let vs : List Bytes = v ∷ rest in
    let (size, e, room, first) = reserve_lem (2 + length vs * 2) pipe (omega arith) k in
    let i0 = pipe.items in
    let i1 = i0 ++ text name ∷ [] in
    let i2 = i1 ++ text colon_space ∷ [] in
    let l1 = length-append i0 (text name ∷ []) in
    let l2 = length-append i1 (text colon_space ∷ []) in
    let n = pipe.message_size in
    let m = n + (length name + 3) in
    let e1 = push_lem (text name) (pipe_of i0 size n) (omega (arith, room)) in
    let e2 = push_lem (text colon_space) (pipe_of i1 size n) (omega (arith, room, l1)) in
    let e3 = push_values_lem vs i2 size m (omega (arith, room, l1, l2)) in
    let items = end_line (i2 ++ loop_items vs) in
    let items_eq : items ≡ i0 ++ header_items name vs =
      end_line-append i2 (text v) (text (b',' ∷ []) ∷ loop_items rest)
      ∙ ap (λ l. i2 ++ l) (end_line_loop v rest)
      ∙ simp append_assoc in
    (
      pipe_of items size (m + loop_size vs),
      rw (e, e1, e2, e3),
      record {
        items_eq = items_eq;
        size_eq = omega (arith, total-value_items v rest);
        fits = record {
          within = omega (
            arith,
            room,
            ap length items_eq,
            length-append i0 (header_items name vs),
            length-value_items v rest,
          );
          first = first;
        };
      },
    )

push_header_lem :
    (name : Bytes) (values : List Bytes) (pipe : Pipe)
    → 0 < length values
    → length values ≤ 15
    → Fits pipe
    → (pipe' : Pipe) × (push_header name values pipe ≡ some pipe')
      × Pushed (header_items name values) pipe pipe'
unfolding push_header
push_header_lem name [] pipe h l k = absurd (omega arith)
push_header_lem name (v ∷ []) pipe h l k = push_one_lem name v pipe k
push_header_lem name (v ∷ w ∷ rest) pipe h l k = push_many_lem name v (w ∷ rest) pipe l k

-- All headers: no entry falls outside of the array, which is made larger once at most for each.
pub push_headers_lem :
    (headers : List (Bytes × List Bytes)) (pipe : Pipe)
    → Small headers
    → Fits pipe
    → (pipe' : Pipe) × (push_headers headers pipe ≡ some pipe')
      × Pushed (headers_items headers) pipe pipe'
unfolding push_headers
push_headers_lem [] pipe s k =
    (pipe, refl, record { items_eq = sym (append-nil pipe.items); size_eq = omega arith; fits = k })
push_headers_lem ((name, values) ∷ rest) pipe s k =
    let (p, e, pushed) = push_header_lem name values pipe s.0 s.1 k in
    let (p', e', pushed') = push_headers_lem rest p s.2 pushed.fits in
    let here = header_items name values in
    let there = headers_items rest in
    (
      p',
      rw (e, e'),
      record {
        items_eq =
            pushed'.items_eq
            ∙ ap (λ l. l ++ there) pushed.items_eq
            ∙ append_assoc pipe.items here there;
        size_eq = omega (arith, pushed'.size_eq, pushed.size_eq, total-append here there);
        fits = pushed'.fits;
      },
    )
