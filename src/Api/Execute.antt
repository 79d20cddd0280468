-- ===== src/Api/Execute.antt =====
-- `ExecuteWorkflow.post` and `WorkflowLogList.post` of sql_api/api_workflow.py: a user executes a
-- workflow, and reads its log.
use dbshield.Common.{
  ℕ, String, ◌⧺◌, Bool, true, false, not, ◌&&◌, ◌||◌, Option, none, some, List, [], ◌∷◌, ◌++◌, ◌==◌,
  nat_eq, string_eq, any, contains, keep, if◌then◌else◌, Exec, Result, ok, err, pure, lift, reads,
  gets, modify, ◌>>=◌, ◌>>◌, Exc, permission_denied,
}
use mathlib.Core.List.{reverse}
use dbshield.Common.Checks
use dbshield.Common.Checks.{raise_if}
use dbshield.Const.{
  WorkflowType, query, sql_review, archive, passed, status_eq, type_eq, workflow_queuing,
  workflow_finish,
}
use dbshield.Models.{Users, SqlWorkflow, ArchiveConfig, WorkflowAudit, WorkflowLog}
use dbshield.Online.State.{update_workflow, add_log, group_ids}
use dbshield.Online.Access.{can_execute, on_correct_time_period, can_view}
use dbshield.Online.Execute.{with_status, audit_id_of}
use dbshield.Api.State.{
  Portal, execute_job, archive_job, site_of, on_site, get_archive, get_apply_row, del_schedule,
  invalid,
}
use dbshield.Api.Review.{Answer, message, bad_request, find_audit, acting_user, is_notified}

-- a value of `request.data`, before the serializer reads it: a number of a JSON body, or a text
pub data Sent : Type 0 where
  as_number : ℕ → Sent
  as_text : String → Sent

pub record ExecuteRequest : Type 0 where
  pub engineer : Option String
  pub workflow_id : ℕ
  pub workflow_type : Sent
  pub mode : Option String

-- `ChoiceField(choices=[2, 3])`, which compares the texts
abbrev pub type_numbered : ℕ → Option WorkflowType
type_numbered n = if n == 2 then some sql_review else if n == 3 then some archive else none

abbrev pub type_named : String → Option WorkflowType
type_named t = if t == "2" then some sql_review else if t == "3" then some archive else none

abbrev pub decoded : Sent → Option WorkflowType
decoded (as_number n) = type_numbered n
decoded (as_text t) = type_named t

-- `ExecuteWorkflowSerializer`: the fields, then the user, then the audit
abbrev pub is_given : Option String → Bool
is_given none = true
is_given (some s) = not (s == "")

abbrev pub is_mode : Option String → Bool
is_mode none = true
is_mode (some s) = contains ("auto" ∷ "manual" ∷ []) s

abbrev pub sql_errors : Option String → Option String → Portal → Option String
sql_errors none engineer p = some "缺少 mode"
sql_errors (some mode) none p = some "缺少 engineer"
sql_errors (some mode) (some engineer) p =
    if any (λ u. u.username == engineer) p.db.users then none else some ("不存在该用户：" ⧺ engineer)

abbrev pub audit_errors : Option String → Option WorkflowAudit → Option String
audit_errors (some errors) found = some errors
audit_errors none none = some "不存在该工单"
audit_errors none (some audit) = none

abbrev pub typed_errors : Option WorkflowType → ExecuteRequest → Portal → Option String
typed_errors none r p = some "workflow_type"
typed_errors (some t) r p =
    if not (is_mode r.mode)
    then some "mode"
    else audit_errors (if t == sql_review then sql_errors r.mode r.engineer p else none)
        (find_audit t r.workflow_id p)

unfoldable pub execute_errors : ExecuteRequest → Portal → Option String
execute_errors r p =
    if not (is_given r.engineer)
    then some "engineer"
    else typed_errors (decoded r.workflow_type) r p

-- the rows of the log
abbrev queued_log : Users → Option ℕ → WorkflowLog
queued_log user id = record {
  audit_id = id;
  operation_type = 5;
  operation_type_desc = "执行工单";
  operation_info = "工单执行排队中";
  operator = user.username;
  operator_display = user.display;
}

abbrev manual_log : Users → Option ℕ → WorkflowLog
manual_log user id = record {
  audit_id = id;
  operation_type = 6;
  operation_type_desc = "手工工单";
  operation_info = "确认手工执行结束";
  operator = user.username;
  operator_display = user.display;
}

-- handed to the queue
abbrev pub queued : ℕ → Users → Portal → Portal
queued n user p = record p {
  workflows = update_workflow n (with_status workflow_queuing) p.workflows;
  schedules = del_schedule n p.schedules;
  tasks = p.tasks ++ execute_job n user ∷ [];
}

abbrev pub finished_by_hand : ℕ → SqlWorkflow → SqlWorkflow
finished_by_hand now w = record w { status = workflow_finish; finish_time = some now }

unfoldable pub run_mode : Option String → ℕ → Users → Option ℕ → Exec Portal (Unit {0})
run_mode none n user audit_id = pure tt
run_mode (some mode) n user audit_id =
    if mode == "auto"
    then (modify (queued n user) >> on_site (add_log (queued_log user audit_id)))
    else if mode == "manual"
    then (do
      modify
          (λ p. record p { workflows = update_workflow n (finished_by_hand p.db.now) p.workflows })
      on_site (add_log (manual_log user audit_id))
      reads (is_notified "Execute")
      pure tt)
    else pure tt

abbrev pub engineer_text : Option String → String
engineer_text none = ""
engineer_text (some s) = s

-- what is asked of who executes
unfoldable pub check_executor : Users → ℕ → Portal → Result (Unit {0})
check_executor user n p =
    Checks.◌>>=◌
      (raise_if
        (not
          (user.has_perm "sql.sql_execute" || user.has_perm "sql.sql_execute_for_resource_group"))
        (invalid "你无权执行当前工单！"))
      (λ _. Checks.◌>>=◌ (can_execute user n (site_of p)) (λ can.
        Checks.◌>>=◌ (raise_if (not can) (invalid "你无权执行当前工单！")) (λ _.
          Checks.◌>>=◌ (on_correct_time_period n none (site_of p))
            (λ in_time. raise_if (not in_time) (invalid "不在可执行时间范围内，如果需要修改执行时间请重新提交工单!")))))

unfoldable pub execute_sql : ExecuteRequest → Users → Exec Portal (Unit {0})
execute_sql r request_user = do
  user ← reads (acting_user request_user (engineer_text r.engineer) "无权以他人身份执行工单")
  reads (check_executor user r.workflow_id)
  audit_id ← on_site (audit_id_of r.workflow_id)
  run_mode r.mode r.workflow_id user audit_id

-- `except ArchiveConfig.DoesNotExist`
abbrev checked_archive : Result ArchiveConfig → Result (Unit {0})
checked_archive (ok a) =
    raise_if (not (a.state && (a.status == passed))) (invalid "归档工单未审核通过，禁止执行！")
checked_archive (err Exc.does_not_exist) = err (invalid "归档工单不存在！")
checked_archive (err c) = err c

unfoldable pub execute_archive : ℕ → Users → Exec Portal (Unit {0})
unfolding get_archive
execute_archive n user = do
  lift (
      raise_if (not (user.is_superuser || user.has_perm "sql.archive_mgt"))
        (invalid "你无权执行当前归档工单！"))
  reads (λ p. checked_archive (get_archive n p))
  modify (λ p. record p { tasks = p.tasks ++ archive_job n ∷ [] })

-- the value is compared as it was sent: a text is neither of the numbers
unfoldable pub execute_as : Sent → ExecuteRequest → Users → Exec Portal (Unit {0})
execute_as (as_number n) r user =
    if n == 2
    then execute_sql r user
    else if n == 3
    then execute_archive r.workflow_id user
    else pure tt
execute_as (as_text t) r user = pure tt

abbrev pub started_text : String
started_text = "开始执行，执行结果请到工单详情页查看"

abbrev pub execute_checked : ExecuteRequest → Users → Option String → Exec Portal Answer
execute_checked r user (some errors) = pure (bad_request errors)
execute_checked r user none = do execute_as r.workflow_type r user; pure (message started_text)

-- `post`
unfoldable pub execute_post : ExecuteRequest → Users → Exec Portal Answer
execute_post r user = do errors ← gets (execute_errors r); execute_checked r user errors

-- `_can_view_workflow`
abbrev seen_or : Result Bool → Result Bool
seen_or (ok b) = ok b
seen_or (err Exc.does_not_exist) = ok false
seen_or (err c) = err c

unfoldable pub can_view_workflow : Users → ℕ → WorkflowType → Portal → Result Bool
unfolding get_archive get_apply_row
can_view_workflow user n t p = if user.is_superuser then ok true else elim t [
  | sql_review ↦ seen_or (can_view user n (site_of p))
  | archive ↦ seen_or (
      Checks.◌>>=◌ (get_archive n p)
        (λ a. ok (contains (group_ids user (site_of p)) a.resource_group_id)))
  | query ↦ seen_or (
      Checks.◌>>=◌ (get_apply_row n p) (λ a.
        ok (a.user_name == user.username || contains (group_ids user (site_of p)) a.group_id)))
]

-- the answer of `WorkflowLogList.post`: the rows, status 400 with an error, or status 404
pub data LogAnswer : Type 0 where
  rows : List WorkflowLog → LogAnswer
  log_errors : String → LogAnswer
  not_found : LogAnswer

abbrev same_audit : Option ℕ → Option ℕ → Bool
same_audit none none = true
same_audit none (some n) = false
same_audit (some m) none = false
same_audit (some m) (some n) = m == n

-- `filter(audit_id=audit_id).order_by("-id")`, all pages
unfoldable pub logs_of : Option ℕ → List WorkflowLog → List WorkflowLog
logs_of id logs = reverse (keep (λ l. same_audit l.audit_id id) logs)

abbrev log_rows : Option WorkflowAudit → Users → ℕ → WorkflowType → Portal → Result LogAnswer
log_rows none user n t p = ok not_found
log_rows (some audit) user n t p =
    Checks.◌>>=◌ (can_view_workflow user n t p)
      (λ can. if can then ok (rows (logs_of audit.audit_id p.db.logs)) else err permission_denied)

-- `WorkflowLogSerializer`, which looks for the audit too
abbrev log_error : Option WorkflowAudit → Option String
log_error none = some "不存在该工单"
log_error (some audit) = none

abbrev log_checked : Option String → Result LogAnswer → Result LogAnswer
log_checked (some errors) rest = ok (log_errors errors)
log_checked none rest = rest

unfoldable pub log_post : ℕ → WorkflowType → Users → Portal → Result LogAnswer
log_post n t user p =
    let found = find_audit t n p in log_checked (log_error found) (log_rows found user n t p)
