-- ===== src/Http/Response/Status.antt =====
-- The status code of src/classes/ION/HTTP/Response.c: what withStatus() and factory() keep of it.
use php_ion.Base.{
  ℕ, ◌%◌, ◌^◌, ◌<◌, ◌≤◌, ◌≡◌, ◌≢◌, refl, ap, Option, none, some, [], ◌∷◌, true, Bytes, arith,
}
use php_ion.Http.Parser.{Filling, start}
use php_ion.Http.Factory.{Made, made, refused, crashed, Setting, number}
use php_ion.Http.Response.{
  codes, mem, http_reason, with_status, get_status_code, set_reason, set_status, set_option,
  set_options, factory,
}

known : (c : ℕ) → mem c codes ≡ true → http_reason c ≡ some c
unfolding http_reason
known c h = rw h refl

word16 : (c : ℕ) → c < 2 ^ 16 → c % 2 ^ 16 ≡ c
word16 c h = omega arith

module _ (lower : Bytes → Bytes) (to_text : ℕ → Option Bytes) (convert : Setting → Bytes) where
  set_status-known :
      (c : ℕ) (m : Filling)
      → c < 2 ^ 16
      → mem c codes ≡ true
      → set_status lower to_text convert (number c) m
        ≡ made (record m { status = c; reason = none })
  unfolding set_status
  set_status-known c m small h = simp (word16 c small, known c h, set_status) refl

  -- For a status code of 16 bits that has a reason phrase, factory() makes a response with that code.
  -- withStatus() accepts it on any response, and afterwards getStatusCode() is the code when it is
  -- below 256, and another number when it is not.
  pub response_status :
      (c : ℕ) (reason : Option Bytes) (m : Filling)
      → c < 2 ^ 16
      → mem c codes ≡ true
      → (factory lower to_text convert (some ((2, number c) ∷ []))
          ≡ made (record start { status = c }))
        × ((m' : Filling) × ((with_status c reason m ≡ made m')
              × ((c < 256 → get_status_code m' ≡ c) × (256 ≤ c → get_status_code m' ≢ c))))
  unfolding factory set_options set_option with_status get_status_code
  response_status c reason m small h = (
    ap (λ a. elim a as (λ _. Made) [ made n ↦ made n | refused f ↦ refused f | crashed ↦ crashed ])
        (set_status-known c start small h),
    (
      record m { status = c % 2 ^ 8; reason = set_reason reason },
      (
        simp (word16 c small, known c h, with_status) refl,
        ((λ l. omega arith), (λ l e. omega (arith, e))),
      ),
    ),
  )
