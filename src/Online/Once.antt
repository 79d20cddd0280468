-- ===== src/Online/Once.antt =====
-- A workflow is given to the engine at most once: sequences of `execute` and `execute_callback` of
-- sql/utils/execute_sql.py.
use mathlib.Core.Path.{subst}
use native.Mathlib.Omega.{arith}
use dbshield.Common.{
  ℕ, ◌+◌, ◌≤◌, String, Bool, true, false, ◌≡◌, ◌≢◌, ◌⊎◌, inl, inr, refl, sym, ap, ◌∙◌, Option, none,
  some, List, [], ◌∷◌, ◌++◌, ◌==◌, nat_eq, nat_beq_iff, contains, Result, if◌then◌else◌, Bool-cases,
}
use dbshield.Const.{SqlStatus, workflow_executing, sql_status_eq}
use dbshield.Models.{Users, SqlWorkflow}
use dbshield.Online.State.{Site, find_workflow, update_workflow, id_is}
use dbshield.Online.Execute.{
  execute, execute_callback, startable, with_status, ReviewSet, Task, finish,
}
use dbshield.Online.Effects.{
  Closed, times, times-append, Effect, unchanged, started, same_rows, finished, changed,
  find-update_same, find-update_other, execute-Effect, callback-Effect, finish-closed, finish_id,
}

-- what happens to workflows: a start, by a user or by the schedule, or the end of a task
pub data Event : Type 0 where
  start : ℕ → Option Users → Event
  complete : Task → Event

can_start : Option SqlWorkflow → Bool
can_start none = false
can_start (some w) = contains startable w.status

not_both :
    (w v : SqlWorkflow)
    → some w ≡ some v
    → contains startable w.status ≡ true
    → contains startable v.status ≢ false
unfolding can_start
not_both w v e h k = cc (ap can_start e, h, k)

marked_closed :
    (n : ℕ) (w : SqlWorkflow) → contains startable (with_status workflow_executing w).status ≡ false
marked_closed n w = refl

apart : (m n : ℕ) → (m == n) ≡ false → m ≢ n
apart m n h = ground arith

-- an update of the row of a workflow
updated_same :
    (n : ℕ) (f : SqlWorkflow → SqlWorkflow) (s t : Site) (w : SqlWorkflow)
    → ((v : SqlWorkflow) → (f v).id ≡ v.id)
    → ((v : SqlWorkflow) → contains startable (f v).status ≡ false)
    → t.workflows ≡ update_workflow n f s.workflows
    → find_workflow n s.workflows ≡ some w
    → Closed n t
updated_same n f s t w k c e h = (
  f w,
  ap (find_workflow n) e
      ∙ find-update_same n f s.workflows (λ v. ap (id_is n) (k v))
      ∙ ap (changed f) h,
  c w,
)

-- a workflow that cannot be started stays so when any row is closed
updated_Closed :
    (m n : ℕ) (f : SqlWorkflow → SqlWorkflow) (s t : Site)
    → ((v : SqlWorkflow) → (f v).id ≡ v.id)
    → ((v : SqlWorkflow) → contains startable (f v).status ≡ false)
    → t.workflows ≡ update_workflow m f s.workflows
    → Closed n s
    → Closed n t
updated_Closed m n f s t k c e (w, h, b) = elim (Bool-cases (m == n)) [
  | inl q ↦
      updated_same n f s t w k c
        (e ∙ ap (λ i. update_workflow i f s.workflows) ((nat_beq_iff m n).0 q)) h
  | inr q ↦ (
    w,
    ap (find_workflow n) e
        ∙ find-update_other m n f s.workflows (λ v. ap (id_is n) (k v)) (apart m n q)
        ∙ h,
    b,
  )
]

add_none : (b : Bool) (k : ℕ) → b ≡ false → k + (if b then 1 else 0) ≡ k
add_none b k h = rw h (omega arith)

at_most : (i k : ℕ) → i ≡ k → i ≤ k + 1
at_most i k h = omega arith

one_more : (b : Bool) (i k : ℕ) → i ≡ k + (if b then 1 else 0) → i ≤ k + 1
one_more true i k h = omega arith
one_more false i k h = omega arith

-- the calls of the engine for another workflow do not count, and one for this workflow counts once
calls_other :
    (m n : ℕ) (before after : List ℕ)
    → (m == n) ≡ false
    → (after ≡ before) ⊎ (after ≡ before ++ m ∷ [])
    → times n after ≡ times n before
calls_other m n before after q (inl e) = ap (times n) e
calls_other m n before after q (inr e) =
    ap (times n) e ∙ times-append n m before ∙ add_none (m == n) (times n before) q

calls_most :
    (m n : ℕ) (before after : List ℕ)
    → (after ≡ before) ⊎ (after ≡ before ++ m ∷ [])
    → times n after ≤ times n before + 1
calls_most m n before after (inl e) = at_most _ _ (ap (times n) e)
calls_most m n before after (inr e) =
    one_more (m == n) _ _ (ap (times n) e ∙ times-append n m before)

Effect-Closed :
    (m n : ℕ) (s t : Site)
    → Effect m s t
    → Closed n s
    → Closed n t × (times n t.executed ≡ times n s.executed)
Effect-Closed m n s t (unchanged p) (w, e, c) =
    ((w, ap (λ x. find_workflow n x.workflows) p ∙ e, c), ap (λ x. times n x.executed) p)
Effect-Closed m n s t (started v f b rows calls) (w, e, c) = elim (Bool-cases (m == n)) [
  | inl q ↦
      absurd (
        not_both v w (sym f ∙ ap (λ i. find_workflow i s.workflows) ((nat_beq_iff m n).0 q) ∙ e) b
          c)
  | inr q ↦ (
    updated_Closed m n (with_status workflow_executing) s t (λ _. refl) (marked_closed n) rows
        (w, e, c),
    calls_other m n s.executed t.executed q calls,
  )
]

-- a start leaves the number of calls, or makes one and closes the workflow
Effect-first :
    (m n : ℕ) (s t : Site)
    → Effect m s t
    → (times n t.executed ≡ times n s.executed)
      ⊎ (Closed n t × (times n t.executed ≤ times n s.executed + 1))
Effect-first m n s t (unchanged p) = inl (ap (λ x. times n x.executed) p)
Effect-first m n s t (started v f b rows calls) = elim (Bool-cases (m == n)) [
  | inl q ↦ inr (
    updated_same n (with_status workflow_executing) s t v (λ _. refl) (marked_closed n)
        (rows
          ∙ ap (λ i. update_workflow i (with_status workflow_executing) s.workflows)
              ((nat_beq_iff m n).0 q))
        (ap (λ i. find_workflow i s.workflows) (sym ((nat_beq_iff m n).0 q)) ∙ f),
    calls_most m n s.executed t.executed calls,
  )
  | inr q ↦ inl (calls_other m n s.executed t.executed q calls)
]

module _ (engine : SqlWorkflow → Result ReviewSet) (savable : Task → Bool)
    (status_display : SqlStatus → String) where
  unfoldable pub happen : Event → Site → Site
  happen (start m user) s = (execute engine m user s).1
  happen (complete task) s = (execute_callback savable status_display task s).1

  unfoldable pub runs : List Event → Site → Site
  runs [] s = s
  runs (e ∷ es) s = runs es (happen e s)

  callback-Closed :
      (n : ℕ) (task : Task) (s : Site)
      → Closed n s
      → Closed n (execute_callback savable status_display task s).1
  callback-Closed n task s c = elim (callback-Effect savable status_display task s) [
    | same_rows r x ↦ (c.0, ap (find_workflow n) r ∙ c.1, c.2)
    | finished r x ↦
        updated_Closed task.workflow_id n (finish savable status_display task) s
          (execute_callback savable status_display task s).1 (finish_id savable status_display task)
          (finish-closed savable status_display task) r c
  ]

  callback-calls :
      (task : Task) (s : Site)
      → (execute_callback savable status_display task s).1.executed ≡ s.executed
  callback-calls task s = elim (callback-Effect savable status_display task s) [
    | same_rows r x ↦ x
    | finished r x ↦ x
  ]

  runs-Closed :
      (n : ℕ) (es : List Event) (s : Site)
      → Closed n s
      → times n (runs es s).executed ≡ times n s.executed
  unfolding runs happen
  runs-Closed n [] s c = refl
  runs-Closed n (start m user ∷ es) s c =
      let (d, e) = Effect-Closed m n s _ (execute-Effect engine m user s) c in
      runs-Closed n es _ d ∙ e
  runs-Closed n (complete task ∷ es) s c =
      runs-Closed n es _ (callback-Closed n task s c) ∙ ap (times n) (callback-calls task s)

  -- Whatever workflows are started by whomever, and whatever tasks end, in any order: the engine is
  -- given each workflow at most once more than before.
  pub runs-once :
      (n : ℕ) (es : List Event) (s : Site) → times n (runs es s).executed ≤ times n s.executed + 1
  unfolding runs happen
  runs-once n [] s = at_most _ _ refl
  runs-once n (start m user ∷ es) s = elim (Effect-first m n s _ (execute-Effect engine m user s)) [
    | inl e ↦
        subst (λ k. times n (runs es (execute engine m user s).1).executed ≤ k + 1) e
          (runs-once n es (execute engine m user s).1)
    | inr (d, l) ↦
        subst (λ k. k ≤ times n s.executed + 1)
          (sym (runs-Closed n es (execute engine m user s).1 d)) l
  ]
  runs-once n (complete task ∷ es) s =
      subst
        (λ k. times n (runs es (execute_callback savable status_display task s).1).executed ≤ k + 1)
        (ap (times n) (callback-calls task s))
        (runs-once n es (execute_callback savable status_display task s).1)
