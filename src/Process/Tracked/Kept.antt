-- ===== src/Process/Tracked/Kept.antt =====
-- Every step keeps the tables tracked.
use native.Mathlib.Decide.{ℕ_discrete}
use php_ion.Base.{ℕ, ◌≡◌, ◌≢◌, sym, ap, subst, ◌∙◌, some, List, inl, inr, ◌⊎◌, get_elem?, set}
use php_ion.Process.Table.{find, get_elem?-set_self, get_elem?-set_ne}
use php_ion.Process.Objects.{ChildProcess, Processes}
use php_ion.Process.Child.{is_alive, is_finished}
use php_ion.Process.Tracked.{IsTracked}
use php_ion.Process.Tracked.Times.{ChildEntry-moved, ExecEntry-moved}

-- A child is changed in what the tables do not look at.
pub record SameChild (c d : ChildProcess) : Type 0 where
  pub pid_eq : d.pid ≡ c.pid
  pub alive_eq : is_alive d ≡ is_alive c
  pub finished_eq : is_finished d ≡ is_finished c
  pub end_eq : d.ipc_child ≡ c.ipc_child

some_eq {ℓ} : {A : Type ℓ} {x y : A} → some x ≡ some y → x ≡ y
some_eq h = cc

-- The object at a place after it was changed at another.
pub get_elem?-set {ℓ} :
    {A : Type ℓ} (xs : List A) (i j : ℕ) {old : A} (v d : A)
    → get_elem? xs i ≡ some old
    → get_elem? (set xs i v) j ≡ some d
    → ((i ≡ j) × (d ≡ v)) ⊎ ((i ≢ j) × (get_elem? xs j ≡ some d))
get_elem?-set xs i j v d at h = elim (ℕ_discrete i j) [
  | yes same ↦ inl (
    same,
    some_eq (
        sym h ∙ subst (λ n. get_elem? (set xs i v) n ≡ some v) same (get_elem?-set_self xs i v at)),
  )
  | no other ↦ inr (other, sym (get_elem?-set_ne xs i j v other) ∙ h)
]

module _ (id : ℕ) (c d : ChildProcess) (s t : Processes) where
  pub SameChild-IsTracked :
      get_elem? s.objects id ≡ some c
      → SameChild c d
      → t.objects ≡ set s.objects id d
      → t.proc_childs ≡ s.proc_childs
      → t.proc_execs ≡ s.proc_execs
      → t.exec_objects ≡ s.exec_objects
      → IsTracked s
      → IsTracked t
  SameChild-IsTracked at same o pc pe eo k = record {
    childs = λ pid j h.
        let entry = k.childs pid j (subst (λ l. find pid l ≡ some j) pc h) in
        elim (ℕ_discrete id j) [
          | no other ↦
              ChildEntry-moved s t pid j
                (ap (λ l. get_elem? l j) o ∙ get_elem?-set_ne s.objects id j d other) entry
          | yes here ↦
              let e : entry.child ≡ c =
                some_eq (sym entry.at ∙ subst (λ n. get_elem? s.objects n ≡ some c) here at) in
              record {
                child = d;
                at =
                    ap (λ l. get_elem? l j) o
                    ∙ subst (λ n. get_elem? (set s.objects id d) n ≡ some d) here
                        (get_elem?-set_self s.objects id d at);
                pid_eq = same.pid_eq ∙ ap (λ x. x.pid) (sym e) ∙ entry.pid_eq;
                alive = same.alive_eq ∙ ap is_alive (sym e) ∙ entry.alive;
                no_end = same.end_eq ∙ ap (λ x. x.ipc_child) (sym e) ∙ entry.no_end;
              }
        ];
    execs = λ pid j h.
        ExecEntry-moved s t pid j (ap (λ l. get_elem? l j) eo)
          (k.execs pid j (subst (λ l. find pid l ≡ some j) pe h));
    fresh = λ j x two h n.
        elim (get_elem?-set s.objects id j d x at (ap (λ l. get_elem? l j) (sym o) ∙ h)) [
          | inl (here, e) ↦
              ap is_finished e
              ∙ same.finished_eq
              ∙ k.fresh id c two at (sym same.end_eq ∙ ap (λ y. y.ipc_child) (sym e) ∙ n)
          | inr (other, h') ↦ k.fresh j x two h' n
        ];
  }
