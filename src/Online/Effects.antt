-- ===== src/Online/Effects.antt =====
-- What `execute` and `execute_callback` of sql/utils/execute_sql.py leave.
use dbshield.Common.{
  ℕ, ◌+◌, String, Bool, true, false, ◌||◌, ◌≡◌, ◌≢◌, ◌⊎◌, inl, inr, refl, ap, ◌∙◌, Option, none,
  some, List, [], ◌∷◌, ◌++◌, ◌==◌, nat_eq, contains, Result, ok, err, arith, if◌then◌else◌,
  Bool-cases, Option-cases, does_not_exist, exception, continue, ◌>>=◌, ◌>>◌,
}
use dbshield.Const.{SqlStatus, workflow_executing, workflow_exception, sql_review, sql_status_eq}
use dbshield.Models.{Users, SqlWorkflow, WorkflowLog}
use dbshield.Online.State.{
  Site, find_workflow, update_workflow, get_workflow, detail_by_workflow_id, add_log, has_id, id_is,
}
use dbshield.Online.Execute.{
  execute, execute_callback, mark_executing, run_engine, startable, with_status, audit_id_of,
  start_log, ReviewSet, Task, final_status, finish, end_log,
}

abbrev pub changed : (SqlWorkflow → SqlWorkflow) → Option SqlWorkflow → Option SqlWorkflow
changed f none = none
changed f (some w) = some (f w)

pub find-update_same :
    (n : ℕ) (f : SqlWorkflow → SqlWorkflow) (ws : List SqlWorkflow)
    → ((w : SqlWorkflow) → has_id n (f w) ≡ has_id n w)
    → find_workflow n (update_workflow n f ws) ≡ changed f (find_workflow n ws)
unfolding find_workflow update_workflow
find-update_same n f [] k = refl
find-update_same n f (w ∷ ws) k = elim (Bool-cases (has_id n w)) [
  | inl e ↦ rw (e, k w, e) refl
  | inr e ↦ rw (e, e) (find-update_same n f ws k)
]

other_id : (m n : ℕ) (o : Option ℕ) → id_is m o ≡ true → m ≢ n → id_is n o ≡ false
other_id m n none h d = cc
other_id m n (some k) h d = ground arith

pub find-update_other :
    (m n : ℕ) (f : SqlWorkflow → SqlWorkflow) (ws : List SqlWorkflow)
    → ((w : SqlWorkflow) → has_id n (f w) ≡ has_id n w)
    → m ≢ n
    → find_workflow n (update_workflow m f ws) ≡ find_workflow n ws
unfolding find_workflow update_workflow
find-update_other m n f [] k d = refl
find-update_other m n f (w ∷ ws) k d = elim (Bool-cases (has_id m w)) [
  | inl e ↦ rw (e, k w, other_id m n w.id e d) refl
  | inr e ↦ rw (e, find-update_other m n f ws k d) refl
]

-- The workflow of this id cannot be started.
abbrev pub Closed : ℕ → Site → Type 0
Closed n s =
    (w : SqlWorkflow) × (find_workflow n s.workflows ≡ some w)
    × (contains startable w.status ≡ false)

-- how often the engine was given the workflow
unfoldable pub times : ℕ → List ℕ → ℕ
times n [] = 0
times n (m ∷ ms) = let rest = times n ms in if m == n then rest + 1 else rest

pub times-append :
    (n m : ℕ) (ms : List ℕ) → times n (ms ++ m ∷ []) ≡ times n ms + (if m == n then 1 else 0)
unfolding times
times-append n m [] = ground arith
times-append n m (k ∷ ms) = ground (arith, times-append n m ms)

-- `Effect n f t s`: nothing happened, or `f` changed the row and the engine was or was not called.
pub data Effect (n : ℕ) (s t : Site) : Type 0 where
  unchanged : t ≡ s → Effect n s t
  started :
      (w : SqlWorkflow)
      → find_workflow n s.workflows ≡ some w
      → contains startable w.status ≡ true
      → t.workflows ≡ update_workflow n (with_status workflow_executing) s.workflows
      → (t.executed ≡ s.executed) ⊎ (t.executed ≡ s.executed ++ n ∷ [])
      → Effect n s t

mark_missing :
    (n : ℕ) (s : Site)
    → find_workflow n s.workflows ≡ none
    → mark_executing n s ≡ (err does_not_exist, s)
unfolding mark_executing get_workflow
mark_missing n s e = rw e refl

mark_closed :
    (n : ℕ) (s : Site) (w : SqlWorkflow)
    → find_workflow n s.workflows ≡ some w
    → contains startable w.status ≡ false
    → mark_executing n s ≡ (err (exception "工单状态不正确，禁止执行！"), s)
unfolding mark_executing get_workflow
mark_closed n s w e b = rw (e, b) refl

abbrev marked : ℕ → Site → Site
marked n s = record s { workflows = update_workflow n (with_status workflow_executing) s.workflows }

mark_open :
    (n : ℕ) (s : Site) (w : SqlWorkflow)
    → find_workflow n s.workflows ≡ some w
    → contains startable w.status ≡ true
    → mark_executing n s ≡ (ok w, marked n s)
unfolding mark_executing get_workflow
mark_open n s w e b = rw (e, b) refl

module _ (engine : SqlWorkflow → Result ReviewSet) where
  after_mark :
      (n : ℕ) (user : Option Users) (w : SqlWorkflow) (t : Site)
      → (let u =
            ((audit_id_of n >>= λ id. add_log (start_log user id) >> run_engine engine w n) t).1 in
          (u.workflows ≡ t.workflows)
          × ((u.executed ≡ t.executed) ⊎ (u.executed ≡ t.executed ++ n ∷ [])))
  unfolding add_log run_engine
  after_mark n user w t = elim (Option-cases (detail_by_workflow_id n sql_review t)) [
    | inl e ↦ rw e (refl, inl refl)
    | inr (a, e) ↦ rw e (refl, inr refl)
  ]

  rest_of : ℕ → Option Users → Result SqlWorkflow × Site → Site
  rest_of n user p =
      (continue p.0
        (λ w. audit_id_of n >>= λ id. add_log (start_log user id) >> run_engine engine w n) p.1).1

  pub execute-Effect :
      (n : ℕ) (user : Option Users) (s : Site) → Effect n s (execute engine n user s).1
  unfolding execute rest_of
  execute-Effect n user s = elim (Option-cases (find_workflow n s.workflows)) [
    | inl e ↦ unchanged (ap (rest_of n user) (mark_missing n s e))
    | inr (w, e) ↦ elim (Bool-cases (contains startable w.status)) [
      | inl b ↦
          let step = ap (rest_of n user) (mark_open n s w e b) in
          let (rows, calls) = after_mark n user w (marked n s) in
          started w e b (ap (λ t. t.workflows) step ∙ rows) (elim calls [
            | inl c ↦ inl (ap (λ t. t.executed) step ∙ c)
            | inr c ↦ inr (ap (λ t. t.executed) step ∙ c)
          ])
      | inr b ↦ unchanged (ap (rest_of n user) (mark_closed n s w e b))
    ]
  ]

-- what the callback leaves
pub data CallbackEffect (f : SqlWorkflow → SqlWorkflow) (n : ℕ) (s t : Site) : Type 0 where
  same_rows : t.workflows ≡ s.workflows → t.executed ≡ s.executed → CallbackEffect f n s t
  finished :
      t.workflows ≡ update_workflow n f s.workflows
      → t.executed ≡ s.executed
      → CallbackEffect f n s t

after_finish :
    (n : ℕ) (f : Option ℕ → WorkflowLog) (t : Site)
    → (let u = ((audit_id_of n >>= λ id. add_log (f id)) t).1 in
        (u.workflows ≡ t.workflows) × (u.executed ≡ t.executed))
unfolding add_log
after_finish n f t = elim (Option-cases (detail_by_workflow_id n sql_review t)) [
  | inl e ↦ rw e (refl, refl)
  | inr (a, e) ↦ rw e (refl, refl)
]

module _ (savable : Task → Bool) (status_display : SqlStatus → String) where
  ended :
      (b : Bool) (o : Option ReviewSet)
      → contains startable (if b then final_status o else workflow_exception) ≡ false
  unfolding final_status
  ended false o = refl
  ended true none = refl
  ended true (some r) = elim (Bool-cases (r.warning || r.error)) [
    | inl e ↦ rw e refl
    | inr e ↦ rw e refl
  ]

  pub finish-closed :
      (task : Task) (w : SqlWorkflow)
      → contains startable (finish savable status_display task w).status ≡ false
  unfolding finish
  finish-closed task w = ended (savable task) task.result

  pub finish_id : (task : Task) (w : SqlWorkflow) → (finish savable status_display task w).id ≡ w.id
  unfolding finish
  finish_id task w = refl

  logged :
      (task : Task) (s : Site)
      → (let t = record s {
        workflows =
            update_workflow task.workflow_id (finish savable status_display task) s.workflows;
      } in
          let u =
            ((audit_id_of task.workflow_id >>= λ id.
            add_log (end_log savable status_display (final_status task.result) id))
              t).1 in
          (u.workflows ≡ t.workflows) × (u.executed ≡ s.executed))
  logged task s =
      after_finish task.workflow_id (end_log savable status_display (final_status task.result)) _

  pub callback-Effect :
      (task : Task) (s : Site)
      → CallbackEffect
          (finish savable status_display task)
          task.workflow_id
          s
          (execute_callback savable status_display task s).1
  unfolding execute_callback get_workflow
  callback-Effect task s = elim (Option-cases (find_workflow task.workflow_id s.workflows)) [
    | inl e ↦ rw e (same_rows refl refl)
    | inr (w, e) ↦ elim (Bool-cases (w.status == workflow_executing)) [
      | inl b ↦ rw (e, b) (finished (logged task s).0 (logged task s).1)
      | inr b ↦ rw (e, b) (same_rows refl refl)
    ]
  ]
