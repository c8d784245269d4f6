-- ===== src/Stream/Coherent/Results.antt =====
-- What code that may branch or crash leaves of a stream's promises, for the callbacks of
-- src/classes/ION/Stream.c.
use php_ion.Base.{ℕ, Option, none, some, Bool, true, false, if◌then◌else◌}
use php_ion.Stream.{World, Env, Outcome}
use php_ion.Stream.Coherent.{Coherent}

-- The handlers of a promise keep what the promises say.
abbrev pub HandlersKeep : {S : Type 0} → Env S → Type 0
HandlersKeep {S} env =
    (p : ℕ) (o : Outcome) (w : World S) → Coherent w.stream → Coherent (env.react p o w).stream

pub if-Coherent :
    {S : Type 0} (b : Bool) (w v : World S)
    → Coherent w.stream
    → Coherent v.stream
    → Coherent (if b then w else v).stream
if-Coherent true w v k l = k
if-Coherent false w v k l = l

pub option-Coherent :
    {S : Type 0} {A : Type 0} (o : Option A) (n : World S) (f : A → World S)
    → Coherent n.stream
    → ((a : A) → Coherent (f a).stream)
    → Coherent (elim o as (λ _. World S) [ none ↦ n | some a ↦ f a ]).stream
option-Coherent none n f k l = k
option-Coherent (some a) n f k l = l a

-- If the code returns, the stream is coherent.
pub data Kept {S : Type 0} : Option (World S) → Type 0 where
  crashed : Kept none
  returned : (w : World S) → Coherent w.stream → Kept (some w)

pub if-Kept :
    {S : Type 0} (b : Bool) (o q : Option (World S)) → Kept o → Kept q → Kept (if b then o else q)
if-Kept true o q k l = k
if-Kept false o q k l = l

pub option-Kept :
    {S : Type 0} {A : Type 0} (o : Option A) (f : A → Option (World S))
    → ((a : A) → Kept (f a))
    → Kept (elim o as (λ _. Option (World S)) [ none ↦ none | some a ↦ f a ])
option-Kept none f l = crashed
option-Kept (some a) f l = l a

pub after_call :
    {S : Type 0} {o : Option (World S)} {f : World S → Option (World S)}
    → Kept o
    → ((v : World S) → Coherent v.stream → Kept (f v))
    → Kept (elim o as (λ _. Option (World S)) [ none ↦ none | some a ↦ f a ])
after_call crashed l = crashed
after_call (returned v k) l = l v k
