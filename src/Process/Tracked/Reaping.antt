-- ===== src/Process/Tracked/Reaping.antt =====
-- SIGCHLD keeps the tables tracked, finds every object it looks for, and takes the entries of the
-- processes that ended.
use php_ion.Base.{
  ℕ, ◌≡◌, ◌≢◌, refl, sym, ap, subst, ◌∙◌, Option, none, some, List, ◌==◌, if◌then◌else◌, Bytes, inl,
  inr, arith, Bool-cases, ==_iff, get_elem?, set, Option-cases,
}
use native.Mathlib.Decide.{ℕ_discrete}
use php_ion.Process.Table.{find, delete, find-delete, get_elem?-set_ne}
use php_ion.Process.Objects.{ChildProcess, Exec, Processes, Status, emit, fulfilled_exec}
use php_ion.Process.Reap.{child_exit, exec_exit, reap_exec, reap, finish_exec}
use php_ion.Process.Tracked.{
  IsTracked, child_unique, exec_unique, find-delete_inv, child_exit-childs, child_exit-execs,
  child_exit-exec_objects, child_exit-ne,
}
use php_ion.Process.Tracked.Times.{
  ChildEntry-moved, ExecEntry-moved, times, times-append, child_exit_self_eq, times-child_exit_ne,
  child_exit_ends,
}

-- What one round leaves as it was.
pub record Reaped (pid : ℕ) (s s' : Processes) : Type 0 where
  pub tracked : IsTracked s'
  pub self_eq : s'.self ≡ s.self
  pub left : (i : ℕ) → find i s'.proc_childs ≡ (if i == pid then none else find i s.proc_childs)
  pub object_eq :
      (id : ℕ)
      → ((j : ℕ) → find pid s.proc_childs ≡ some j → j ≢ id)
      → get_elem? s'.objects id ≡ get_elem? s.objects id
  pub times_eq :
      (q id : ℕ)
      → ((j : ℕ) → find pid s.proc_childs ≡ some j → j ≢ id)
      → times q id s'.effects ≡ times q id s.effects

absent_eq :
    (i pid : ℕ) (t : List (ℕ × ℕ))
    → find pid t ≡ none
    → find i t ≡ (if i == pid then none else find i t)
absent_eq i pid t h = elim (Bool-cases (i == pid)) [
  | inl same ↦ rw (same, (==_iff i pid).0 same, h)
  | inr other ↦ rw other
]

-- The round for a child.
module _ (pid id : ℕ) (c : ChildProcess) (status : Status) (s : Processes) where
  abbrev pub after_child : Processes
  after_child = child_exit id c status (record s { proc_childs = delete pid s.proc_childs })

  child_exit-Reaped :
      find pid s.proc_childs ≡ some id
      → get_elem? s.objects id ≡ some c
      → c.ipc_child ≡ none
      → IsTracked s
      → Reaped pid s after_child
  child_exit-Reaped f at no_end k =
      let t : Processes = record s { proc_childs = delete pid s.proc_childs } in
      let e : after_child.proc_childs ≡ delete pid s.proc_childs =
        child_exit-childs id c status t in
      record {
        tracked = record {
          childs = λ i j h.
              let old =
                find-delete_inv i pid s.proc_childs j (subst (λ l. find i l ≡ some j) e h) in
              let entry = k.childs i j old.1 in
              ChildEntry-moved s after_child i j
                (child_exit-ne id c status t j (λ same. old.0 (
                  child_unique s i pid j entry
                    (k.childs pid j (subst (λ n. find pid s.proc_childs ≡ some n) same f)))))
                entry;
          execs = λ i j h.
              ExecEntry-moved s after_child i j
                (ap (λ l. get_elem? l j) (child_exit-exec_objects id c status t))
                (k.execs i j (subst (λ l. find i l ≡ some j) (child_exit-execs id c status t) h));
          fresh = λ j d two h n. elim (ℕ_discrete id j) [
            | yes same ↦
                let h' : get_elem? after_child.objects id ≡ some d =
                  subst (λ n. get_elem? after_child.objects n ≡ some d) (sym same) h in
                cc (child_exit_ends id c d status t at h')
            | no other ↦ k.fresh j d two (sym (child_exit-ne id c status t j other) ∙ h) n
          ];
        };
        self_eq = child_exit_self_eq id c status t;
        left = λ i. ap (λ l. find i l) e ∙ find-delete i pid s.proc_childs;
        object_eq = λ j other. child_exit-ne id c status t j (other id f);
        times_eq = λ q j other. times-child_exit_ne id c status t q j (other id f);
      }

-- The round for an exec.
module _ (read_all : Bytes → Option Bytes × Bytes) (pid id p : ℕ) (e : Exec) (status : Status)
    (s : Processes) where
  abbrev after_exec : Processes
  after_exec = emit (fulfilled_exec p id) (record s {
    proc_execs = delete pid s.proc_execs;
    exec_objects = set s.exec_objects id (finish_exec read_all e status);
  })

  exec_exit-Reaped :
      find pid s.proc_childs ≡ none
      → find pid s.proc_execs ≡ some id
      → IsTracked s
      → Reaped pid s after_exec
  exec_exit-Reaped absent f k = record {
    tracked = record {
      childs = λ i j h. ChildEntry-moved s after_exec i j refl (k.childs i j h);
      execs = λ i j h.
          let old = find-delete_inv i pid s.proc_execs j h in
          let entry = k.execs i j old.1 in
          ExecEntry-moved s after_exec i j
            (get_elem?-set_ne s.exec_objects id j (finish_exec read_all e status) (λ same. old.0 (
              exec_unique s i pid j entry
                (k.execs pid j (subst (λ n. find pid s.proc_execs ≡ some n) same f)))))
            entry;
      fresh = λ j d two h n. k.fresh j d two h n;
    };
    self_eq = refl;
    left = λ i. absent_eq i pid s.proc_childs absent;
    object_eq = λ j other. refl;
    times_eq = λ q j other. omega (arith, times-append q j s.effects (fulfilled_exec p id));
  }

module _ (read_all : Bytes → Option Bytes × Bytes) where
  pub reap_child :
      (pid id : ℕ) (c : ChildProcess) (status : Status) (s : Processes)
      → find pid s.proc_childs ≡ some id
      → get_elem? s.objects id ≡ some c
      → reap read_all pid status s ≡ some (after_child pid id c status s)
  unfolding reap
  reap_child pid id c status s f at = ground (arith, f, at)

  pub reap-Reaped :
      (pid : ℕ) (status : Status) (s : Processes)
      → IsTracked s
      → (s' : Processes) × (reap read_all pid status s ≡ some s') × Reaped pid s s'
  unfolding reap reap_exec exec_exit
  reap-Reaped pid status s k = elim (Option-cases (find pid s.proc_childs)) [
    | inr (id, f) ↦
        let entry = k.childs pid id f in
        (
          after_child pid id entry.child status s,
          reap_child pid id entry.child status s f entry.at,
          child_exit-Reaped pid id entry.child status s f entry.at entry.no_end k,
        )
    | inl absent ↦ elim (Option-cases (find pid s.proc_execs)) [
      | inr (id, f) ↦
          let entry = k.execs pid id f in
          (
            after_exec read_all pid id entry.promise entry.exec status s,
            ground (arith, absent, f, entry.at, entry.promise_eq),
            exec_exit-Reaped read_all pid id entry.promise entry.exec status s absent f k,
          )
      | inl none_there ↦ (
        s,
        ground (arith, absent, none_there),
        record {
          tracked = k;
          self_eq = refl;
          left = λ i. absent_eq i pid s.proc_childs absent;
          object_eq = λ j other. refl;
          times_eq = λ q j other. refl;
        },
      )
    ]
  ]
