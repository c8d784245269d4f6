-- ===== src/Process/Tracked/Grows.antt =====
-- New children, new execs and spawns keep the tables tracked.
use native.Mathlib.Decide.{ℕ_discrete}
use php_ion.Base.{
  ℕ, zero, suc, ◌≡◌, ◌≢◌, refl, sym, ap, subst, ◌∙◌, none, some, List, [], ◌∷◌, ◌++◌, true, false,
  Bytes, inl, inr, ◌⊎◌, arith, length, get_elem?, set, Option-cases,
}
use php_ion.Process.Table.{
  find, add, find-add, get_elem?-set_self, get_elem?-set_ne, get_elem?-append,
}
use php_ion.Process.Objects.{ChildProcess, Processes}
use php_ion.Process.Child.{is_alive, is_finished}
use php_ion.Process.Exec.{exec_parent, new_exec}
use php_ion.Process.Tracked.{IsTracked}
use php_ion.Process.Tracked.Times.{ChildEntry-moved, ExecEntry-moved}
use php_ion.Process.Tracked.Kept.{get_elem?-set}

module _ {ℓ} {A : Type ℓ} where
  get_elem?-append_one :
      (xs : List A) (v d : A) (j : ℕ)
      → get_elem? (xs ++ v ∷ []) j ≡ some d
      → (get_elem? xs j ≡ some d) ⊎ (d ≡ v)
  get_elem?-append_one [] v d zero h = inr cc
  get_elem?-append_one [] v d (suc j) h = cc
  get_elem?-append_one (x ∷ xs) v d zero h = inl h
  get_elem?-append_one (x ∷ xs) v d (suc j) h = get_elem?-append_one xs v d j h

  get_elem?-append_last : (xs : List A) (v : A) → get_elem? (xs ++ v ∷ []) (length xs) ≡ some v
  get_elem?-append_last [] v = refl
  get_elem?-append_last (x ∷ xs) v = get_elem?-append_last xs v

-- What was found after an addition was there, or is what was added.
find-add_self :
    (k v : ℕ) (t : List (ℕ × ℕ)) (w : ℕ)
    → find k (add k v t) ≡ some w
    → (find k t ≡ some w) ⊎ (w ≡ v)
find-add_self k v t w h =
    let e = find-add k k v t in
    elim (Option-cases (find k t)) [
      | inl absent ↦ inr (ground (arith, e, h, absent))
      | inr (old, there) ↦ inl (ground (arith, e, h, there))
    ]

pub find-add_inv :
    (i k v : ℕ) (t : List (ℕ × ℕ)) (w : ℕ)
    → find i (add k v t) ≡ some w
    → (find i t ≡ some w) ⊎ ((k ≡ i) × (w ≡ v))
find-add_inv i k v t w h = elim (ℕ_discrete k i) [
  | no other ↦ inl (let e = find-add i k v t in ground (arith, e, h, other))
  | yes same ↦
      elim (find-add_self k v t w (subst (λ n. find n (add k v t) ≡ some w) (sym same) h)) [
        | inl there ↦ inl (subst (λ n. find n t ≡ some w) same there)
        | inr new ↦ inr (same, new)
      ]
]

-- A child more, that has not ended.
pub append-IsTracked :
    (d : ChildProcess) (s t : Processes)
    → is_finished d ≡ false
    → t.objects ≡ s.objects ++ d ∷ []
    → t.proc_childs ≡ s.proc_childs
    → t.proc_execs ≡ s.proc_execs
    → t.exec_objects ≡ s.exec_objects
    → IsTracked s
    → IsTracked t
append-IsTracked d s t alive o pc pe eo k = record {
  childs = λ pid j h.
      let entry = k.childs pid j (subst (λ l. find pid l ≡ some j) pc h) in
      ChildEntry-moved s t pid j
        (ap (λ l. get_elem? l j) o ∙ get_elem?-append s.objects (d ∷ []) j entry.at ∙ sym entry.at)
        entry;
  execs = λ pid j h.
      ExecEntry-moved s t pid j (ap (λ l. get_elem? l j) eo)
        (k.execs pid j (subst (λ l. find pid l ≡ some j) pe h));
  fresh = λ j x two h n.
      elim (get_elem?-append_one s.objects d x j (ap (λ l. get_elem? l j) (sym o) ∙ h)) [
        | inl old ↦ k.fresh j x two old n
        | inr e ↦ ap is_finished e ∙ alive
      ];
}

-- A child gives its end away, and may get an entry.
pub handed-IsTracked :
    (id two : ℕ) (c d : ChildProcess) (s t : Processes)
    → get_elem? s.objects id ≡ some c
    → c.ipc_child ≡ some two
    → d.ipc_child ≡ none
    → t.objects ≡ set s.objects id d
    → ((i j : ℕ)
        → find i t.proc_childs ≡ some j
        → (find i s.proc_childs ≡ some j) ⊎ ((j ≡ id) × (d.pid ≡ i) × (is_alive d ≡ true)))
    → t.proc_execs ≡ s.proc_execs
    → t.exec_objects ≡ s.exec_objects
    → IsTracked s
    → IsTracked t
handed-IsTracked id two c d s t at ends given o pc pe eo k = record {
  childs = λ pid j h. elim (pc pid j h) [
    | inl old ↦
        let entry = k.childs pid j old in
        let other : id ≢ j = λ same.
          let at' = subst (λ n. get_elem? s.objects n ≡ some c) same at in
          cc (entry.at, at', entry.no_end, ends) in
        ChildEntry-moved s t pid j
          (ap (λ l. get_elem? l j) o ∙ get_elem?-set_ne s.objects id j d other) entry
    | inr (e, p, a) ↦ record {
      child = d;
      at =
          ap (λ l. get_elem? l j) o
          ∙ subst (λ n. get_elem? (set s.objects id d) n ≡ some d) (sym e)
              (get_elem?-set_self s.objects id d at);
      pid_eq = p;
      alive = a;
      no_end = given;
    }
  ];
  execs = λ pid j h.
      ExecEntry-moved s t pid j (ap (λ l. get_elem? l j) eo)
        (k.execs pid j (subst (λ l. find pid l ≡ some j) pe h));
  fresh = λ j x n h has.
      elim (get_elem?-set s.objects id j d x at (ap (λ l. get_elem? l j) (sym o) ∙ h)) [
        | inl (here, e) ↦ cc
        | inr (other, h') ↦ k.fresh j x n h' has
      ];
}

-- An exec more, with its promise.
pub exec_parent-IsTracked :
    (command : Bytes) (pid p : ℕ) (s : Processes)
    → IsTracked s
    → IsTracked (exec_parent command pid p s)
unfolding exec_parent
exec_parent-IsTracked command pid p s k =
    let e = new_exec command pid p in
    let t = exec_parent command pid p s in
    record {
      childs = λ i j h. ChildEntry-moved s t i j refl (k.childs i j h);
      execs = λ i j h. elim (find-add_inv i pid (length s.exec_objects) s.proc_execs j h) [
        | inl old ↦
            let entry = k.execs i j old in
            ExecEntry-moved s t i j
              (get_elem?-append s.exec_objects (e ∷ []) j entry.at ∙ sym entry.at) entry
        | inr (same, last) ↦ record {
          exec = e;
          at =
              ap (λ n. get_elem? (s.exec_objects ++ e ∷ []) n) last
              ∙ get_elem?-append_last s.exec_objects e;
          pid_eq = same;
          promise = p;
          promise_eq = refl;
        }
      ];
      fresh = λ j x n h has. k.fresh j x n h has;
    }
