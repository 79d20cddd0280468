-- ===== src/Audit/Create.antt =====
-- `create_audit` of `AuditV2`: a submitted workflow gets its row of `WorkflowAudit`.
use dbshield.Common.{
  ℕ, String, Bool, true, false, Option, none, some, List, [], ◌∷◌, ◌⧺◌, if◌then◌else◌, Exec, pure,
  raise, lift, gets, reads, ◌>>=◌, ◌>>◌, audit_exception, index_error, attribute_error,
}
use dbshield.Common.Checks.{or_raise, raise_if}
use dbshield.Const.{waiting, passed, rejected, submit, action_label, action_value}
use dbshield.Models.{Workflow, sql_workflow, archive_config, query_apply, WorkflowAudit, pk_of}
use dbshield.Config.{Value}
use dbshield.Audit.State.{World, AuditV2, get_audit_info, save_audit, save_workflow, add_log}
use dbshield.Audit.Lookup.{
  no_one, review_info, AuditSetting, audit_auth_group_in_db, generate_audit_setting,
}

abbrev pub the_audit : Exec World WorkflowAudit
the_audit s = lift (or_raise s.self.audit attribute_error) s

-- the fields that `create_audit` copies from the workflow
pub record Submission : Type 0 where
  pub workflow_title : String
  pub group_id : ℕ
  pub group_name : String
  pub create_user : String
  pub create_user_display : String

unfoldable pub submission : AuditV2 → Workflow → Submission
submission self (query_apply w) = record {
  workflow_title = w.title;
  group_id = w.group_id;
  group_name = w.group_name;
  create_user = w.user_name;
  create_user_display = w.user_display;
}
submission self (sql_workflow w) = record {
  workflow_title = w.workflow_name;
  group_id = w.group_id;
  group_name = w.group_name;
  create_user = w.engineer;
  create_user_display = w.engineer_display;
}
submission self (archive_config w) = record {
  workflow_title = w.title;
  group_id = self.resource_group_id;
  group_name = self.resource_group;
  create_user = w.user_name;
  create_user_display = w.user_display;
}

unfoldable pub with_groups : String → Workflow → Workflow
with_groups gs (sql_workflow w) = sql_workflow (record w { audit_auth_groups = gs })
with_groups gs (query_apply w) = query_apply (record w { audit_auth_groups = gs })
with_groups gs (archive_config w) = archive_config (record w { audit_auth_groups = gs })

-- the row before its status is set
unfoldable pub new_audit : Submission → AuditV2 → String → WorkflowAudit
new_audit info self groups = record {
  audit_id = none;
  group_id = info.group_id;
  group_name = info.group_name;
  workflow_id = pk_of self.workflow;
  workflow_type = self.workflow_type;
  workflow_title = info.workflow_title;
  audit_auth_groups = groups;
  current_audit = no_one;
  next_audit = no_one;
  current_status = waiting;
  create_user = info.create_user;
  create_user_display = info.create_user_display;
}

abbrev pub submit_log : String → Exec World (Unit {0})
submit_log info = do
  a ← the_audit
  add_log (record {
    audit_id = a.audit_id;
    operation_type = action_value submit;
    operation_type_desc = action_label submit;
    operation_info = info;
    operator = a.create_user;
    operator_display = a.create_user_display;
  })

-- the second group of the list, or "-1"
abbrev pub second : List String → String
second [] = no_one
second (g ∷ gs) = g

unfoldable pub start_flow : WorkflowAudit → List String → Exec World String
start_flow audit [] = raise index_error
start_flow audit (g ∷ gs) = do
  save_audit (record audit { current_audit = g; next_audit = second gs; current_status = waiting })
  flow ← reads review_info
  submit_log ("等待审批，审批流程：" ⧺ flow.0)
  pure "工单已正常提交"

unfoldable pub start_audit : WorkflowAudit → AuditSetting → Exec World String
start_audit audit setting =
    if setting.auto_reject
    then (do
      save_audit (record audit { current_status = rejected })
      submit_log "系统直接审核不通过"
      pure "直接审核不通过")
    else if setting.auto_pass
    then (do
      save_audit (record audit { current_status = passed })
      submit_log "无需审批，系统直接审核通过"
      pure "无需审批, 直接审核通过")
    else start_flow audit setting.audit_auth_groups

-- what `create_audit` does once the setting is known
unfoldable pub submit_with : AuditSetting → Exec World String
submit_with setting = do
  before ← gets (λ s. s.self)
  let groups = audit_auth_group_in_db setting
  save_workflow (with_groups groups before.workflow)
  self ← gets (λ s. s.self)
  start_audit (new_audit (submission before before.workflow) self groups) setting

abbrev pub is_some : Option WorkflowAudit → Bool
is_some none = false
is_some (some a) = true

module _ (re_match : Value → String → Bool) where
  unfoldable pub create_audit : Exec World String
  create_audit = do
    workflow_info ← get_audit_info
    lift (raise_if (is_some workflow_info) (audit_exception "该工单当前状态为待审核，请勿重复提交"))
    setting ← reads (generate_audit_setting re_match)
    submit_with setting
