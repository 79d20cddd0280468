-- ===== src/Api/Late.antt =====
-- `AuditWorkflow.post` of sql_api/api_workflow.py with the type `cancel`, on SQL workflows, and what
-- `execute_callback` of sql/utils/execute_sql.py then does with the result of an execution.
use mathlib.Core.Path.{◌≡◌, refl, sym, ap, ◌∙◌, subst}
use mathlib.Core.Logic.{◌⊎◌, inl, inr}
use dbshield.Common.{
  Exc, does_not_exist, exception, err, ℕ, String, Bool, true, false, Option, none, some, ◌==◌,
  string_eq, if◌then◌else◌, Result, ok,
}
use dbshield.Common.Checks
use dbshield.Common.Checks.{chain_parts, or_raise}
use dbshield.Const.{
  sql_review, WorkflowStatus, waiting, passed, rejected, aborted, WorkflowAction, reject, abort,
  SqlStatus, workflow_abort,
}
use dbshield.Models.{Users, SqlWorkflow, Workflow, sql_workflow, WorkflowAudit}
use dbshield.Audit.Operate.{operate}
use dbshield.Audit.Steps.{Step, withdraw, withdraw_late, turn_down, turn_down_late, operate-Step}
use dbshield.Audit.Keeps.{operate-Keeps}
use dbshield.Online.State.{Site, find_workflow, update_workflow, get_workflow}
use dbshield.Online.Access.{can_review}
use dbshield.Online.Execute.{with_status, execute_callback, Task}
use dbshield.Online.Effects.{changed, find-update_same}
use dbshield.Api.State.{Portal, site_of, with_world, workflow_of}
use dbshield.Api.Auditor.{get_auditor_lem}
use dbshield.Api.Review.{
  AuditRequest, message, action_of, cancel_action, rejection, post, settle_sql, settle_workflow,
  engineer_of, the_row,
}
use dbshield.Api.Cancel.{find_audit-type}
use dbshield.Api.Actors.{Answered, post_parts, conclude_parts}

-- the two steps that a cancel may be
abbrev IsCancel : WorkflowAction → Type 0
IsCancel action = (action ≡ abort) ⊎ (action ≡ reject)

rejection-reject : (b : Bool) (action : WorkflowAction) → rejection b ≡ ok action → action ≡ reject
rejection-reject true action h = cc h
rejection-reject false action h = cc h

either-IsCancel :
    (b : Bool) (can : Result Bool) (action : WorkflowAction)
    → (if b then ok abort else Checks.◌>>=◌ can rejection) ≡ ok action
    → IsCancel action
either-IsCancel true can action h = inl (cc h)
either-IsCancel false can action h =
    let (c, e, f) = chain_parts can rejection h in inr (rejection-reject c action f)

action_of-IsCancel :
    (u : Users) (n : ℕ) (x : SqlWorkflow) (p : Portal) (action : WorkflowAction)
    → action_of "cancel" u n (sql_workflow x) p ≡ ok action
    → IsCancel action
unfolding action_of engineer_of cancel_action
action_of-IsCancel u n x p action h =
    either-IsCancel (x.engineer == u.username) (can_review u n (site_of p)) action h

-- the statuses that they lead to
abbrev IsClosed : WorkflowStatus → Type 0
IsClosed status = (status ≡ aborted) ⊎ (status ≡ rejected)

later-IsClosed :
    (before later : WorkflowStatus) (action : WorkflowAction)
    → IsCancel action
    → Step before action later
    → IsClosed later
later-IsClosed before later action c withdraw = inl refl
later-IsClosed before later action c withdraw_late = inl refl
later-IsClosed before later action c turn_down = inr refl
later-IsClosed before later action c turn_down_late = inr refl
later-IsClosed before later action (inl e) _ = cc e
later-IsClosed before later action (inr e) _ = cc e

settle_sql-workflows :
    (status : WorkflowStatus) (n : ℕ) (x : SqlWorkflow) (p : Portal)
    → IsClosed status
    → (settle_sql status n x p).workflows
      ≡ update_workflow n (with_status workflow_abort) p.workflows
unfolding settle_sql
settle_sql-workflows aborted n x p c = refl
settle_sql-workflows rejected n x p c = refl
settle_sql-workflows waiting n x p (inl e) = cc e
settle_sql-workflows waiting n x p (inr e) = cc e
settle_sql-workflows passed n x p (inl e) = cc e
settle_sql-workflows passed n x p (inr e) = cc e

sql_row :
    (n : ℕ) (p : Portal) (w : Workflow)
    → workflow_of sql_review n p ≡ ok w
    → (x : SqlWorkflow) × (w ≡ sql_workflow x)
unfolding workflow_of
sql_row n p w h =
    let (x, e, f) =
      chain_parts (or_raise (find_workflow n p.workflows) _) (λ y. ok (sql_workflow y)) h in
    (x, cc f)

settled :
    (b : WorkflowAudit) (x : SqlWorkflow) (n : ℕ) (p : Portal)
    → IsClosed b.current_status
    → (settle_workflow (sql_workflow x) b n p).1.workflows
      ≡ update_workflow n (with_status workflow_abort) p.workflows
unfolding settle_workflow
settled b x n p c = settle_sql-workflows b.current_status n x p c

-- the rows after a cancel that was answered
cancel-workflows :
    (r : AuditRequest) (user : Users) (p : Portal)
    → r.audit_type ≡ "cancel"
    → r.workflow_type ≡ sql_review
    → Answered r user p
    → (post r user p).1.workflows
      ≡ update_workflow r.workflow_id (with_status workflow_abort) p.workflows
cancel-workflows r user p c o z =
    let (held, row, same_db) = get_auditor_lem z.audit r.workflow_id p z.w z.auditor in
    let t = find_audit-type r.workflow_type r.workflow_id p z.audit z.found ∙ o in
    let (x, is_sql) =
      sql_row r.workflow_id p z.w.self.workflow
        (ap (λ v. workflow_of v r.workflow_id p) (sym t) ∙ row) in
    let action = action_of-IsCancel z.actor r.workflow_id x p z.action (
      ap (λ v. action_of "cancel" z.actor r.workflow_id v p) (sym is_sql)
      ∙ ap (λ v. action_of v z.actor r.workflow_id z.w.self.workflow p) (sym c)
      ∙ z.chosen) in
    let (allowed, stepped) =
      operate-Step z.action z.actor r.audit_remark z.w z.audit z.detail held z.done in
    let (b, e, step) = stepped in
    let closed = later-IsClosed z.audit.current_status b.current_status z.action action step in
    let kept = operate-Keeps z.action z.actor r.audit_remark z.w z.detail z.done in
    let after = (operate z.action z.actor r.audit_remark z.w).1 in
    let q = with_world p after in
    let (row2, f, g) = conclude_parts r after.self q (message z.text) z.ends in
    let same : row2 ≡ b = cc (f, ap the_row e) in
    ap (λ y. y.1.workflows) z.rest
    ∙ ap (λ y. y.workflows) g
    ∙ ap (λ v. (settle_workflow v row2 r.workflow_id q).1.workflows) (kept ∙ is_sql)
    ∙ settled row2 x r.workflow_id q (subst (λ v. IsClosed v.current_status) (sym same) closed)

-- a workflow that is aborted, or not there, takes no result of the engine: nothing is written
callback_refused :
    (savable : Task → Bool) (status_display : SqlStatus → String) (task : Task) (s : Site)
    (o : Option SqlWorkflow)
    → find_workflow task.workflow_id s.workflows ≡ changed (with_status workflow_abort) o
    → (c : Exc) × (execute_callback savable status_display task s ≡ (err c, s))
unfolding execute_callback get_workflow
callback_refused savable status_display task s none e = (does_not_exist, rw e refl)
callback_refused savable status_display task s (some w) e =
    (exception "工单状态不正确，禁止重复更新执行结果！", rw e refl)

-- A cancel of a SQL workflow that `AuditWorkflow.post` answers with a message leaves the row of the
-- workflow aborted, whatever status the row had, one that is executing included: the other rows and
-- columns stay, and `execute_callback` with a result of the engine for that workflow then raises and
-- leaves every row, also the log, as it is.
pub post-aborts :
    (savable : Task → Bool) (status_display : SqlStatus → String) (r : AuditRequest) (user : Users)
    (p : Portal) (text : String)
    → r.audit_type ≡ "cancel"
    → r.workflow_type ≡ sql_review
    → (post r user p).0 ≡ ok (message text)
    → ((post r user p).1.workflows
        ≡ update_workflow r.workflow_id (with_status workflow_abort) p.workflows)
      × ((task : Task)
          → task.workflow_id ≡ r.workflow_id
          → (c : Exc) × (execute_callback savable status_display task (site_of (post r user p).1)
              ≡ (err c, site_of (post r user p).1)))
post-aborts savable status_display r user p text c o h =
    let rows = cancel-workflows r user p c o (post_parts r user p text h) in
    (
      rows,
      λ task e.
          callback_refused savable status_display task (site_of (post r user p).1)
            (find_workflow task.workflow_id p.workflows)
            (ap (λ ws. find_workflow task.workflow_id ws)
                (rows
                  ∙ ap (λ n. update_workflow n (with_status workflow_abort) p.workflows) (sym e))
              ∙ find-update_same task.workflow_id (with_status workflow_abort) p.workflows
                  (λ w. refl)),
    )
