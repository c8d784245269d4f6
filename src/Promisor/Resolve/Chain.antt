-- ===== src/Promisor/Resolve/Chain.antt =====
-- A value or an error runs through promisors without callbacks: ion_promisor_resolve of
-- src/ion/ion_promisor.c on a chain.
pub mod Delivery
use php_ion.Base.{
  ℕ, zero, suc, ◌+◌, ◌≤◌, ◌≡◌, ◌≢◌, refl, ap, sym, ◌∙◌, ◌&&◌, subst, fun_ext, Option, none, some,
  List, [], ◌∷◌, Bool, true, false, ◌==◌, ◌||◌, if◌then◌else◌, length, arith, Bool-cases, inl, inr,
  ==_iff,
}
use php_ion.Promisor.State.{
  Promisor, World, Php, Slot, ref, null, Zval, Kind, Action, unset, finished, nothing,
}
use php_ion.Promisor.Exec.{M, Run, returned, continue, ◌>>=◌, ◌>>◌, update, pure, load, modify}
use php_ion.Promisor.Clone.{clone}
use php_ion.Promisor.Resolve.{
  Local, finish_kind, choose, accept, begin, watch, drive, release, dropped, dispatch, finish,
  resolve,
}

-- Pending, with no callback, nothing awaited, and these handlers.
pub record Idle (r : Promisor) (handlers : List Slot) : Type 0 where
  pub not_done : r.flags.done ≡ false
  pub not_failed : r.flags.failed ≡ false
  pub not_prototype : r.flags.prototype ≡ false
  pub no_done : r.done ≡ unset
  pub no_fail : r.fail ≡ unset
  pub no_canceler : r.canceler ≡ unset
  pub no_await : r.await ≡ none
  pub no_generator : r.generator ≡ none
  pub no_dtor : r.dtor ≡ none
  pub handlers_eq : r.handlers ≡ handlers

pub eq_self : (n : ℕ) → (n == n) ≡ true
eq_self n = ground arith

-- One change of one promisor.
abbrev pub touch : ℕ → (Promisor → Promisor) → World → World
touch p f w = record w { promisors = update w.promisors p (f (w.promisors p)) }

abbrev plain : Zval → Kind → Local
plain v k = record { result = v; kind = finish_kind k; resolved = true; skip_generator = false }

-- The fields after `promise->result = result` and the release.
abbrev settled : Zval → Kind → Promisor → Promisor
settled v k r = record r {
  result = v;
  flags = record r.flags {
    done = r.flags.done || k.done;
    failed = r.flags.failed || k.failed;
    processing = false;
  };
  done = dropped r.done;
  fail = dropped r.fail;
  canceler = dropped r.canceler;
}

update_twice :
    (m : ℕ → Promisor) (p q : ℕ) (a : Promisor) (f : Promisor → Promisor)
    → update (update m p a) p (f (update m p a p)) q ≡ update m p (f a) q
update_twice m p q a f = rw (eq_self p) (ground arith)

touch-touch :
    (p : ℕ) (f g : Promisor → Promisor) (w : World)
    → touch p f (touch p g w) ≡ touch p (λ r. f (g r)) w
touch-touch p f g w =
    ap (λ m. record w { promisors = m })
      (fun_ext λ q. update_twice w.promisors p q (g (w.promisors p)) f)

module _ (env : Php) where
  choose_nothing : (r : Promisor) (k : Kind) (hs : List Slot) → Idle r hs → choose r k ≡ unset
  unfolding choose
  choose_nothing r k hs i = ground arith

  begin-Idle :
      (p : ℕ) (v : Zval) (k : Kind) (w : World) (hs : List Slot)
      → Idle (w.promisors p) hs
      → begin env p v k w
        ≡ returned
            (plain v k)
            (touch p (λ r. record r { flags = record r.flags { processing = true } }) w)
  unfolding begin ◌>>=◌
  begin-Idle p v k w hs i = simp (i.no_await, choose_nothing (w.promisors p) k hs i)

  drive_idle :
      (n p : ℕ) (s : Local) (w : World)
      → (w.promisors p).generator ≡ none
      → drive env (suc n) p s w ≡ returned s w
  unfolding drive ◌>>=◌
  drive_idle n p s w e = simp e

  release_idle :
      (p : ℕ) (w : World)
      → (w.promisors p).dtor ≡ none
      → release env p w
        ≡ returned tt (
            touch p
              (λ r. record r {
                done = dropped r.done;
                fail = dropped r.fail;
                canceler = dropped r.canceler;
              })
              w)
  unfolding release ◌>>=◌
  release_idle p w e = simp e

  abbrev pass_on :
      (ℕ → Zval → Kind → M (Unit {0})) → (ℕ → M ℕ) → ℕ → ℕ → Zval → Kind → List Slot → M (Unit {0})
  pass_on settle copy n p v k [] = pure tt
  pass_on settle copy n p v k (h ∷ rest) = do
    dispatch env settle copy n p v k 0
    modify p (λ r. record r { handlers = [] })

  finish_start :
      (settle : ℕ → Zval → Kind → M (Unit {0})) (copy : ℕ → M ℕ) (n p : ℕ) (v : Zval) (k : Kind)
      (w : World) (hs : List Slot)
      → (w.promisors p).dtor ≡ none
      → (w.promisors p).handlers ≡ hs
      → finish env settle copy n p (plain v k) w
        ≡ pass_on settle copy n p v (finish_kind k) hs (touch p (settled v (finish_kind k)) w)
  unfolding finish ◌>>=◌
  finish_start settle copy n p v k w hs e h =
      ap (λ r. continue r tail)
        (release_idle p w₁ (rw (eq_self p) e) ∙ ap (returned tt) (touch-touch p callbacks result w))
      ∙ ap (λ l. pass_on settle copy n p v (finish_kind k) l w₂) (rw (eq_self p) h)
    where
      result : Promisor → Promisor
      result r = record r {
        result = v;
        flags = record r.flags {
          done = r.flags.done || k.done;
          failed = r.flags.failed || k.failed;
          processing = false;
        };
      }

      callbacks : Promisor → Promisor
      callbacks r = record r {
        done = dropped r.done;
        fail = dropped r.fail;
        canceler = dropped r.canceler;
      }

      w₁ : World
      w₁ = touch p result w

      w₂ : World
      w₂ = touch p (settled v (finish_kind k)) w

      tail : Unit {0} → M (Unit {0})
      tail _ w = pass_on settle copy n p v (finish_kind k) (w.promisors p).handlers w

  guards :
      (n p : ℕ) (v : Zval) (k : Kind) (w : World) (hs : List Slot)
      → Idle (w.promisors p) hs
      → resolve env (suc n) p v k w
        ≡ (do
          s ← begin env p v k
          s' ← if s.resolved then pure s else watch env n p s
          s'' ← drive env n p s'
          finish env (resolve env n) (clone env n) n p s'')
            w
  unfolding resolve ◌>>=◌
  guards n p v k w hs i = simp (i.not_done, i.not_failed, i.not_prototype)

  resolve_start :
      (n p : ℕ) (v : Zval) (k : Kind) (w : World) (hs : List Slot)
      → Idle (w.promisors p) hs
      → resolve env (suc (suc n)) p v k w
        ≡ pass_on
            (resolve env (suc n))
            (clone env (suc n))
            (suc n)
            p
            v
            (finish_kind k)
            hs
            (touch p (settled v (finish_kind k)) w)
  unfolding ◌>>=◌
  resolve_start n p v k w hs i =
      guards (suc n) p v k w hs i
      ∙ ap (λ r. continue r driven) (begin-Idle p v k w hs i)
      ∙ ap (λ r. continue r (finish env settle copy (suc n) p))
          (drive_idle n p (plain v k) (touch p processing w) (rw (eq_self p) i.no_generator))
      ∙ finish_start settle copy (suc n) p v k (touch p processing w) hs (rw (eq_self p) i.no_dtor)
          (rw (eq_self p) i.handlers_eq)
      ∙ ap (pass_on settle copy (suc n) p v (finish_kind k) hs)
          (touch-touch p (settled v (finish_kind k)) processing w)
    where
      settle : ℕ → Zval → Kind → M (Unit {0})
      settle = resolve env (suc n)

      copy : ℕ → M ℕ
      copy = clone env (suc n)

      processing : Promisor → Promisor
      processing r = record r { flags = record r.flags { processing = true } }

      driven : Local → M (Unit {0})
      driven s = do
        s' ← if s.resolved then pure s else watch env (suc n) p s
        s'' ← drive env (suc n) p s'
        finish env settle copy (suc n) p s''

-- What a handler was given: the kind and the value, and no handlers left.
pub record Got (v : Zval) (k : Kind) (r : Promisor) : Type 0 where
  pub is_done : r.flags.done ≡ k.done
  pub is_failed : r.flags.failed ≡ k.failed
  pub has_result : r.result ≡ v
  pub no_handlers : r.handlers ≡ []

abbrev heads : List ℕ → List Slot
heads [] = []
heads (q ∷ rest) = ref q ∷ []

abbrev pub Absent : ℕ → List ℕ → Type 0
Absent p [] = Unit {0}
Absent p (q ∷ rest) = (p ≢ q) × Absent p rest

-- Each promisor of the list is idle, and the next one is its only handler; none stands there twice.
abbrev pub Chained : World → List ℕ → Type 0
Chained w [] = Unit {0}
Chained w (p ∷ rest) = Idle (w.promisors p) (heads rest) × Absent p rest × Chained w rest

untouched :
    (p : ℕ) (f : Promisor → Promisor) (w : World) (q : ℕ)
    → p ≢ q
    → (touch p f w).promisors q ≡ w.promisors q
untouched p f w q ne = ground arith

pub Chained-touch :
    (p : ℕ) (f : Promisor → Promisor) (w : World) (ps : List ℕ)
    → Absent p ps
    → Chained w ps
    → Chained (touch p f w) ps
Chained-touch p f w [] a c = tt
Chained-touch p f w (q ∷ rest) a c = (
  subst (λ r. Idle r (heads rest)) (sym (untouched p f w q a.0)) c.0,
  c.1,
  Chained-touch p f w rest a.1 c.2,
)
