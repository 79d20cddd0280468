-- ===== src/Api/Review.antt =====
-- `AuditWorkflow.post` of sql_api/api_workflow.py: a user passes or cancels a workflow.
use dbshield.Common.{
  ℕ, String, ◌⧺◌, Bool, true, false, not, ◌&&◌, Option, none, some, [], ◌∷◌, ◌==◌, nat_eq,
  string_eq, find, any, contains, split, if◌then◌else◌, Exec, Result, ok, err, pure, lift, reads,
  gets, modify, ◌>>=◌, ◌>>◌, Exc, audit_exception, does_not_exist, attribute_error,
}
use dbshield.Common.Checks
use dbshield.Common.Checks.{or_raise}
use dbshield.Config
use dbshield.Config.{Value, null, bool, str, num, truthy, SysConfig}
use dbshield.Const.{
  WorkflowType, WorkflowStatus, waiting, passed, rejected, aborted, WorkflowAction, pass, reject,
  abort, workflow_abort, workflow_review_pass, workflow_timingtask, sql_status_eq, status_eq,
}
use dbshield.Models.{
  Users, SqlWorkflow, ArchiveConfig, Workflow, sql_workflow, archive_config, query_apply,
  WorkflowAudit, WorkflowAuditDetail,
}
use dbshield.Audit.State.{World, AuditV2, is_audit_of}
use dbshield.Audit.Operate.{operate}
use dbshield.Online.State.{update_workflow}
use dbshield.Online.Execute.{with_status}
use dbshield.Online.Access.{can_review}
use dbshield.Privileges.Grant.{query_apply_audit_call_back}
use dbshield.Api.State.{
  Portal, site_of, on_ledger, with_world, get_user, update_archive, get_auditor, del_schedule,
  invalid,
}

pub record AuditRequest : Type 0 where
  pub engineer : String
  pub workflow_id : ℕ
  pub workflow_type : WorkflowType
  pub audit_remark : String
  pub audit_type : String

-- the answer: a message, or status 400 with the errors of the serializer
pub data Answer : Type 0 where
  message : String → Answer
  bad_request : String → Answer

-- The row of the audit, which the serializer looks for too.
unfoldable pub find_audit : WorkflowType → ℕ → Portal → Option WorkflowAudit
find_audit t n p = find (is_audit_of t (some n)) p.db.audits

-- `AuditWorkflowSerializer`: the fields, then the user, then the audit. The texts are those without
-- the blanks around them, which the serializer takes off.
abbrev found_or_not : Option WorkflowAudit → Option String
found_or_not none = some "不存在该工单"
found_or_not (some audit) = none

abbrev pub valid : AuditRequest → Portal → Option WorkflowAudit → Option String
valid r p found =
    if r.engineer == ""
    then some "engineer"
    else if r.audit_remark == ""
    then some "audit_remark"
    else if not (contains ("pass" ∷ "cancel" ∷ []) r.audit_type)
    then some "audit_type"
    else if not (any (λ u. u.username == r.engineer) p.db.users)
    then some ("不存在该用户：" ⧺ r.engineer)
    else found_or_not found

-- who acts: only a superuser may name another user
unfoldable pub acting_user : Users → String → String → Portal → Result Users
unfolding get_user
acting_user user engineer refusal p =
    let names_other = not (engineer == "") && not (engineer == user.username) in
    if names_other && not user.is_superuser
    then err (invalid refusal)
    else if names_other
    then get_user engineer p
    else ok user

-- `auditor.workflow.engineer`: a field of SQL workflows alone
unfoldable pub engineer_of : Workflow → Result String
engineer_of (sql_workflow w) = ok w.engineer
engineer_of (archive_config w) = err attribute_error
engineer_of (query_apply w) = err attribute_error

abbrev pub rejection : Bool → Result WorkflowAction
rejection true = ok reject
rejection false = err (invalid "用户无权操作此工单")

unfoldable pub cancel_action : Users → ℕ → String → Portal → Result WorkflowAction
cancel_action user n engineer p =
    if engineer == user.username
    then ok abort
    else Checks.◌>>=◌ (can_review user n (site_of p)) rejection

unfoldable pub action_of : String → Users → ℕ → Workflow → Portal → Result WorkflowAction
unfolding engineer_of
action_of audit_type user n w p =
    if audit_type == "pass"
    then ok pass
    else if audit_type == "cancel"
    then Checks.◌>>=◌ (engineer_of w) (λ engineer. cancel_action user n engineer p)
    else err (invalid "audit_type 只能是 pass 或 cancel")

-- `except AuditException as e`
abbrev pub failed : Exc → Exc
failed (audit_exception m) = invalid ("操作失败, " ⧺ m)
failed c = c

-- the operation on the review; what it wrote stays, and the object comes back
abbrev pub brought_back :
    Result (Option WorkflowAuditDetail) × World → Portal → Result AuditV2 × Portal
brought_back (ok d, t) p = (ok t.self, with_world p t)
brought_back (err c, t) p = (err (failed c), with_world p t)

unfoldable pub operate_on : World → WorkflowAction → Users → String → Exec Portal AuditV2
operate_on w action user remark p = brought_back (operate action user remark w) p

-- the workflow of the review, by its type

unfoldable pub settle_sql : WorkflowStatus → ℕ → SqlWorkflow → Portal → Portal
settle_sql waiting n w p = p
settle_sql passed n w p = record p {
  workflows = update_workflow n (with_status workflow_review_pass) p.workflows;
}
settle_sql rejected n w p = record p {
  schedules = if w.status == workflow_timingtask then del_schedule n p.schedules else p.schedules;
  workflows = update_workflow n (with_status workflow_abort) p.workflows;
}
settle_sql aborted n w p = record p {
  schedules = if w.status == workflow_timingtask then del_schedule n p.schedules else p.schedules;
  workflows = update_workflow n (with_status workflow_abort) p.workflows;
}

abbrev pub settled_archive : WorkflowStatus → ArchiveConfig → ArchiveConfig
settled_archive status a = record a { status = status; state = status == passed }

abbrev pub the_row : Option WorkflowAudit → Result WorkflowAudit
the_row a = or_raise a attribute_error

abbrev the_id : Option ℕ → Result ℕ
the_id n = or_raise n does_not_exist

unfoldable pub settle_workflow : Workflow → WorkflowAudit → ℕ → Exec Portal (Unit {0})
settle_workflow (query_apply w) audit n =
    on_ledger (query_apply_audit_call_back n audit.current_status)
settle_workflow (sql_workflow w) audit n = modify (settle_sql audit.current_status n w)
settle_workflow (archive_config w) audit n = modify (λ p. record p {
  archives = update_archive n (settled_archive audit.current_status) p.archives;
})

-- whether a message is sent: the setting is split at its commas
abbrev phases : Value → String → Result Bool
phases null key = ok true
phases (bool b) key = if b then err attribute_error else ok true
phases (str s) key = if s == "" then ok true else ok (contains (split 44 s) key)
phases (num n) key = if n == 0 then ok true else err attribute_error

unfoldable pub is_notified : String → Portal → Result Bool
unfolding split
is_notified key p = phases (Config.get "notify_phase_control" null p.sys_config).0 key

abbrev pub phase_of : String → String
phase_of audit_type = if audit_type == "pass" then "Pass" else "Cancel"

abbrev pub done_text : String → String
done_text audit_type = if audit_type == "pass" then "passed" else "canceled"

-- what follows the operation
abbrev pub conclude : AuditRequest → AuditV2 → Exec Portal Answer
conclude r self = do
  row ← lift (the_row self.audit)
  settle_workflow self.workflow row r.workflow_id
  reads (is_notified (phase_of r.audit_type))
  pure (message (done_text r.audit_type))

unfoldable pub audit_workflow : AuditRequest → Users → WorkflowAudit → Exec Portal Answer
audit_workflow r request_user audit = do
  auditor ← reads (get_auditor audit r.workflow_id)
  user ← reads (acting_user request_user r.engineer "无权以他人身份审核工单")
  action ← reads (action_of r.audit_type user r.workflow_id auditor.self.workflow)
  self ← operate_on auditor action user r.audit_remark
  conclude r self

abbrev pub judge : AuditRequest → Users → Option WorkflowAudit → Option String → Exec Portal Answer
judge r user found (some errors) = pure (bad_request errors)
judge r user none none = pure (bad_request "不存在该工单")
judge r user (some audit) none = audit_workflow r user audit

-- `post`
unfoldable pub post : AuditRequest → Users → Exec Portal Answer
unfolding find_audit
post r user = do
  found ← gets (find_audit r.workflow_type r.workflow_id)
  errors ← gets (λ p. valid r p found)
  judge r user found errors
