-- ===== src/Api/Execution.antt =====
-- `ExecuteWorkflow.post` of sql_api/api_workflow.py: who executes a SQL workflow, and how often.
use mathlib.Core.Path.{◌≡◌, refl, sym, ap, ◌∙◌}
use dbshield.Common.{
  ℕ, String, Bool, true, false, not, ◌||◌, Option, none, some, [], ◌∷◌, ◌++◌, string_eq, Result, ok,
  err, reads, continue, exec_parts, attribute_error, does_not_exist, Exc,
}
use dbshield.Common.Checks.{chain_parts, raise_if, raise_if_ok, or_raise}
use dbshield.Const.{sql_review, workflow_queuing}
use dbshield.Models.{Users, SqlWorkflow, WorkflowAudit}
use dbshield.Online.State.{
  Site, find_workflow, get_workflow, update_workflow, add_log, detail_by_workflow_id,
}
use dbshield.Online.Access.{can_execute, on_correct_time_period}
use dbshield.Online.Execute.{with_status, audit_id_of}
use dbshield.Online.Rights.{MayExecute, can_execute_iff}
use dbshield.Api.State.{Portal, execute_job, site_of, with_site, on_site, invalid}
use dbshield.Api.Review.{message, acting_user}
use dbshield.Api.Modes.{IsMode, execute_errors-IsMode}
use dbshield.Api.Execute.{
  ExecuteRequest, as_number, execute_errors, finished_by_hand, run_mode, engineer_text,
  check_executor, execute_sql, execute_as, execute_checked, execute_post,
}

-- what `check_executor` asks
pub record Checked (user : Users) (n : ℕ) (p : Portal) : Type 0 where
  pub w : SqlWorkflow
  pub there : get_workflow n (site_of p) ≡ ok w
  pub may : MayExecute w user (site_of p)
  pub in_time : on_correct_time_period n none (site_of p) ≡ ok true

is_true_of : (b : Bool) → not b ≡ false → b ≡ true
is_true_of true h = refl
is_true_of false h = cc

found :
    (u : Users) (n : ℕ) (s : Site) (b : Bool)
    → can_execute u n s ≡ ok b
    → (w : SqlWorkflow) × (get_workflow n s ≡ ok w)
unfolding can_execute
found u n s b h = let (w, e, k) = chain_parts (get_workflow n s) _ h in (w, e)

pub check_executor-Checked :
    (user : Users) (n : ℕ) (p : Portal) → check_executor user n p ≡ ok tt → Checked user n p
unfolding check_executor
check_executor-Checked user n p h =
    let (u, a, h1) =
      chain_parts
        (raise_if
          (not
            (user.has_perm "sql.sql_execute" || user.has_perm "sql.sql_execute_for_resource_group"))
          _)
        _ h in
    let (can, b, h2) = chain_parts (can_execute user n (site_of p)) _ h1 in
    let (v, c, h3) = chain_parts (raise_if (not can) (invalid "你无权执行当前工单！")) _ h2 in
    let (in_time, d, h4) = chain_parts (on_correct_time_period n none (site_of p)) _ h3 in
    let is_true = is_true_of can (raise_if_ok (not can) _ c) in
    let may = b ∙ ap ok is_true in
    let (w, e) = found user n (site_of p) can b in
    record {
      w = w;
      there = e;
      may = (can_execute_iff user n (site_of p) w e).0 may;
      in_time = d ∙ ap ok (is_true_of in_time (raise_if_ok (not in_time) _ h4));
    }

-- how an answered request on a SQL workflow went through
pub record Ran (r : ExecuteRequest) (user : Users) (p : Portal) : Type 0 where
  pub actor : Users
  pub audit : WorkflowAudit
  pub acts : acting_user user (engineer_text r.engineer) "无权以他人身份执行工单" p ≡ ok actor
  pub checked : Checked actor r.workflow_id p
  pub mode : IsMode r.mode
  pub detail : detail_by_workflow_id r.workflow_id sql_review (site_of p) ≡ some audit
  pub ran : (execute_post r user p).1 ≡ (run_mode r.mode r.workflow_id actor audit.audit_id p).1

-- the id of an audit leaves the rows
audit_found :
    (o : Option WorkflowAudit) (p : Portal) (id : Option ℕ)
    → (let x =
          continue
            (or_raise o attribute_error)
            (λ (a : WorkflowAudit) (s : Site). (ok a.audit_id, s))
            (site_of p) in
        x.0 ≡ ok id
        → (a : WorkflowAudit) × (o ≡ some a) × (a.audit_id ≡ id) × (with_site p x.1 ≡ p))
audit_found none p id = λ h. cc h
audit_found (some a) p id = λ h. (a, refl, cc h, refl)

execute_sql-Ran :
    (r : ExecuteRequest) (user : Users) (p : Portal)
    → (execute_sql r user p).0 ≡ ok tt
    → (actor : Users) × (audit : WorkflowAudit) × (acting_user user
          (engineer_text r.engineer)
          "无权以他人身份执行工单"
          p
        ≡ ok actor)
      × Checked actor r.workflow_id p
      × (detail_by_workflow_id r.workflow_id sql_review (site_of p) ≡ some audit)
      × (execute_sql r user p ≡ run_mode r.mode r.workflow_id actor audit.audit_id p)
unfolding execute_sql
execute_sql-Ran r user p h =
    let (actor, a, f) =
      exec_parts (reads (acting_user user (engineer_text r.engineer) "无权以他人身份执行工单")) _ p h in
    let h1 = sym (ap (λ x. x.0) f) ∙ h in
    let (u, b, g) = exec_parts (reads (check_executor actor r.workflow_id)) _ p h1 in
    let h2 = sym (ap (λ x. x.0) g) ∙ h1 in
    let (id, c, k) =
      exec_parts (on_site (audit_id_of r.workflow_id))
        (λ id. run_mode r.mode r.workflow_id actor id) p h2 in
    let (audit, d, e, same) =
      audit_found (detail_by_workflow_id r.workflow_id sql_review (site_of p)) p id c in
    (
      actor,
      audit,
      a,
      check_executor-Checked actor r.workflow_id p b,
      d,
      f
          ∙ g
          ∙ k
          ∙ ap (λ q. run_mode r.mode r.workflow_id actor id q) same
          ∙ ap (λ v. run_mode r.mode r.workflow_id actor v p) (sym e),
    )

checked_done :
    (r : ExecuteRequest) (user : Users) (errors : Option String) (p : Portal) (text : String)
    → (execute_checked r user errors p).0 ≡ ok (message text)
    → (errors ≡ none)
      × ((execute_as r.workflow_type r user p).0 ≡ ok tt)
      × ((execute_checked r user errors p).1 ≡ (execute_as r.workflow_type r user p).1)
checked_done r user (some errors) p text h = cc h
checked_done r user none p text h =
    let (u, e, f) = exec_parts (execute_as r.workflow_type r user) _ p h in
    (refl, e, ap (λ x. x.1) f)

pub execute_post-Ran :
    (r : ExecuteRequest) (user : Users) (p : Portal) (text : String)
    → r.workflow_type ≡ as_number 2
    → (execute_post r user p).0 ≡ ok (message text)
    → Ran r user p
unfolding execute_post execute_as
execute_post-Ran r user p text o h =
    let (no_errors, e, f) = checked_done r user (execute_errors r p) p text h in
    let as_sql = ap (λ t. execute_as t r user p) o in
    let (actor, audit, a, b, c, d) = execute_sql-Ran r user p (sym (ap (λ x. x.0) as_sql) ∙ e) in
    record {
      actor = actor;
      audit = audit;
      acts = a;
      checked = b;
      mode = execute_errors-IsMode r p o no_errors;
      detail = c;
      ran = f ∙ ap (λ x. x.1) (as_sql ∙ d);
    }

-- how the two ways to execute change the row
after_reads :
    {A : Type 0} (x : Result A) (p : Portal) → (continue x (λ _ (q : Portal). (ok tt, q)) p).1 ≡ p
after_reads (ok a) p = refl
after_reads (err c) p = refl

pub run_auto :
    (n : ℕ) (user : Users) (id : Option ℕ) (p : Portal)
    → (let q = (run_mode (some "auto") n user id p).1 in
        (q.workflows ≡ update_workflow n (with_status workflow_queuing) p.workflows)
        × (q.db.audits ≡ p.db.audits)
        × (q.executed ≡ p.executed)
        × (q.tasks ≡ p.tasks ++ execute_job n user ∷ []))
unfolding run_mode add_log
run_auto n user id p = (refl, refl, refl, refl)

pub run_manual-workflows :
    (n : ℕ) (user : Users) (id : Option ℕ) (p : Portal)
    → (run_mode (some "manual") n user id p).1.workflows
      ≡ update_workflow n (finished_by_hand p.db.now) p.workflows
unfolding run_mode add_log
run_manual-workflows n user id p = ap (λ q. q.workflows) (after_reads _ _)

of_raise : {A : Type 0} (c : Exc) (o : Option A) (a : A) → or_raise o c ≡ ok a → o ≡ some a
of_raise c none a h = cc h
of_raise c (some b) a h = cc h

pub find_workflow-get :
    (n : ℕ) (s : Site) (w : SqlWorkflow)
    → get_workflow n s ≡ ok w
    → find_workflow n s.workflows ≡ some w
unfolding get_workflow
find_workflow-get n s w h = of_raise does_not_exist (find_workflow n s.workflows) w h
