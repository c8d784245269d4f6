-- ===== src/Promisor/Resolve/Chain/Delivery.antt =====
-- The whole chain: ion_promisor_resolve of src/ion/ion_promisor.c hands the value or the error on.
use php_ion.Base.{
  ℕ, zero, suc, ◌≤◌, ◌≡◌, refl, sym, ap, subst, ◌∙◌, List, [], ◌∷◌, false, length, get_elem?, set,
  arith,
}
use php_ion.Promisor.State.{Promisor, World, Php, Slot, ref, null, Zval, Kind}
use php_ion.Promisor.Exec.{M, returned, continue, ◌>>=◌, modify}
use php_ion.Promisor.Clone.{clone}
use php_ion.Promisor.Resolve.{finish_kind, dispatch, resolve}
use php_ion.Promisor.Resolve.Chain.{
  Idle, eq_self, touch, settled, touch-touch, pass_on, resolve_start, Got, Absent, Chained,
  untouched, Chained-touch,
}

abbrev AllGot : Zval → Kind → World → List ℕ → Type 0
AllGot v k w [] = Unit {0}
AllGot v k w (p ∷ ps) = Got v k (w.promisors p) × AllGot v k w ps

-- All promisors of the list got the value, and no other promisor changed.
pub record Delivered (v : Zval) (k : Kind) (ps : List ℕ) (w w' : World) : Type 0 where
  pub got : AllGot v k w' ps
  pub others : (q : ℕ) → Absent q ps → w'.promisors q ≡ w.promisors q

AllGot-touch :
    (v : Zval) (k : Kind) (p : ℕ) (f : Promisor → Promisor) (w : World) (ps : List ℕ)
    → Absent p ps
    → AllGot v k w ps
    → AllGot v k (touch p f w) ps
AllGot-touch v k p f w [] a g = tt
AllGot-touch v k p f w (q ∷ rest) a g =
    (subst (Got v k) (sym (untouched p f w q a.0)) g.0, AllGot-touch v k p f w rest a.1 g.1)

settled-Got :
    (v : Zval) (k : Kind) (r : Promisor) (hs : List Slot)
    → Idle r hs
    → Got v (finish_kind k) (record (settled v (finish_kind k) r) { handlers = [] })
settled-Got v k r hs i = record {
  is_done = rw i.not_done;
  is_failed = rw i.not_failed;
  has_result = refl;
  no_handlers = refl;
}

at_touched :
    (p : ℕ) (f : Promisor → Promisor) (w : World) → (touch p f w).promisors p ≡ f (w.promisors p)
at_touched p f w = rw (eq_self p) refl

-- The last promisor of the chain.
Delivered-last :
    (p : ℕ) (v : Zval) (k : Kind) (w : World)
    → Idle (w.promisors p) []
    → Delivered v (finish_kind k) (p ∷ []) w (touch p (settled v (finish_kind k)) w)
Delivered-last p v k w i = record {
  got = (
    record {
      is_done = rw (eq_self p, i.not_done) refl;
      is_failed = rw (eq_self p, i.not_failed) refl;
      has_result = rw (eq_self p) refl;
      no_handlers = rw (eq_self p) i.handlers_eq;
    },
    tt,
  );
  others = λ q a. untouched p (settled v (finish_kind k)) w q (λ e. a.0 (sym e));
}

-- One promisor before a chain.
Delivered-cons :
    (p : ℕ) (ps : List ℕ) (v : Zval) (k : Kind) (w w₂ : World) (hs : List Slot)
    → Idle (w.promisors p) hs
    → Absent p ps
    → Delivered v (finish_kind k) ps (touch p (settled v (finish_kind k)) w) w₂
    → Delivered v (finish_kind k) (p ∷ ps) w (touch p (λ r. record r { handlers = [] }) w₂)
Delivered-cons p ps v k w w₂ hs i a d = record {
  got = (
    subst (Got v (finish_kind k))
        (sym (
          at_touched p emptied w₂
          ∙ ap emptied (d.others p a ∙ at_touched p (settled v (finish_kind k)) w)))
        (settled-Got v k (w.promisors p) hs i),
    AllGot-touch v (finish_kind k) p emptied w₂ ps a d.got,
  );
  others = λ q b.
      untouched p emptied w₂ q (λ e. b.0 (sym e))
      ∙ d.others q b.1
      ∙ untouched p (settled v (finish_kind k)) w q (λ e. b.0 (sym e));
}
  where
    emptied : Promisor → Promisor
    emptied r = record r { handlers = [] }

module _ (env : Php) where
  -- One round of the loop over a single handler, and the end of the loop.
  dispatch_one :
      (settle : ℕ → Zval → Kind → M (Unit {0})) (copy : ℕ → M ℕ) (n p q : ℕ) (v : Zval) (k : Kind)
      (w w' : World)
      → (w.promisors p).handlers ≡ ref q ∷ []
      → (w.promisors q).flags.prototype ≡ false
      → settle q v k w ≡ returned tt w'
      → (w'.promisors p).handlers ≡ ref q ∷ []
      → dispatch env settle copy (suc (suc n)) p v k 0 w
        ≡ returned tt (touch p (λ r. record r { handlers = null ∷ [] }) w')
  unfolding dispatch ◌>>=◌
  dispatch_one settle copy n p q v k w w' h plain e h' =
      rw (h, dispatch, get_elem?)
        (rw plain (rw e (simp (h', length, get_elem?, set, eq_self p) refl)))

  -- The loop and the emptying of the array after it.
  pass_on_one :
      (settle : ℕ → Zval → Kind → M (Unit {0})) (copy : ℕ → M ℕ) (n p q : ℕ) (v : Zval) (k : Kind)
      (w w' : World)
      → (w.promisors p).handlers ≡ ref q ∷ []
      → (w.promisors q).flags.prototype ≡ false
      → settle q v k w ≡ returned tt w'
      → (w'.promisors p).handlers ≡ ref q ∷ []
      → pass_on env settle copy (suc (suc n)) p v k (ref q ∷ []) w
        ≡ returned tt (touch p (λ r. record r { handlers = [] }) w')
  unfolding ◌>>=◌
  pass_on_one settle copy n p q v k w w' h plain e h' =
      ap (λ r. continue r (λ _. modify p (λ r. record r { handlers = [] })))
        (dispatch_one settle copy n p q v k w w' h plain e h')
      ∙ ap (returned tt) (
          touch-touch p (λ r. record r { handlers = [] }) (λ r. record r { handlers = null ∷ [] })
            w')

  -- Take promisors of which each is pending, has no callback, awaits nothing, and has the next one as
  -- its only handler (the last has none), and none of which stands twice in the row. With fuel of two
  -- more than the handlers in the row, settling the first one returns: then every promisor of the
  -- row has the value and the kind (done or failed) that was given and no handlers left, and no
  -- promisor outside the row changed.
  pub resolve-Delivered :
      (ps : List ℕ) (n p : ℕ) (v : Zval) (k : Kind) (w : World)
      → Chained w (p ∷ ps)
      → length ps ≤ n
      → (w' : World) × (resolve env (suc (suc n)) p v k w ≡ returned tt w')
        × Delivered v (finish_kind k) (p ∷ ps) w w'
  unfolding ◌>>=◌
  resolve-Delivered [] n p v k w c le = (
    touch p (settled v (finish_kind k)) w,
    resolve_start env n p v k w [] c.0,
    Delivered-last p v k w c.0,
  )
  resolve-Delivered (q ∷ rest) zero p v k w c le = absurd (omega arith)
  resolve-Delivered (q ∷ rest) (suc n) p v k w c le =
      let (w₂, e, d) = resolve-Delivered rest n q v (finish_kind k) w₁ chained (omega arith) in
      (
        touch p (λ r. record r { handlers = [] }) w₂,
        resolve_start env (suc n) p v k w (ref q ∷ []) c.0
            ∙ pass_on_one (resolve env (suc (suc n))) (clone env (suc (suc n))) n p q v
                (finish_kind k) w₁ w₂ (rw (eq_self p) c.0.handlers_eq) chained.0.not_prototype e
                (ap (λ r. r.handlers) (d.others p c.1) ∙ rw (eq_self p) c.0.handlers_eq),
        Delivered-cons p (q ∷ rest) v k w w₂ (ref q ∷ []) c.0 c.1 d,
      )
    where
      w₁ : World
      w₁ = touch p (settled v (finish_kind k)) w

      chained : Chained w₁ (q ∷ rest)
      chained = Chained-touch p (settled v (finish_kind k)) w (q ∷ rest) c.1 c.2
