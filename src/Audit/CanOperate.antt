-- ===== src/Audit/CanOperate.antt =====
-- `can_operate` of `AuditV2`: whether a user may take a step of a review.
use dbshield.Common.{
  String, Bool, true, false, not, ◌&&◌, List, [], ◌∷◌, map, ◌==◌, nat_eq, string_eq, contains, any,
  ◌⧺◌, join_comma, if◌then◌else◌, Result, ok, err, audit_exception,
}
use dbshield.Common.Checks.{or_raise, raise_if, missing_as, ◌>>=◌, ◌>>◌}
use dbshield.Config.{null, truthy}
use dbshield.Const.{
  WorkflowType, query, sql_review, archive, WorkflowStatus, waiting, passed, rejected, aborted,
  WorkflowAction, submit, pass, reject, abort, execute_set_time, execute_start, execute_end,
  action_label, action_eq,
}
use dbshield.Models.{Group, Users, WorkflowAudit}
use dbshield.Audit.State.{World, config, get_group, auth_group_users}

-- `SUPPORTED_OPERATION_GRID`
unfoldable pub supported_operation_grid : WorkflowStatus → List WorkflowAction
supported_operation_grid waiting = pass ∷ reject ∷ abort ∷ []
supported_operation_grid passed =
    reject ∷ abort ∷ execute_set_time ∷ execute_start ∷ execute_end ∷ []
supported_operation_grid rejected = []
supported_operation_grid aborted = []

abbrev status_text : WorkflowStatus → String
status_text waiting = "0"
status_text passed = "1"
status_text rejected = "2"
status_text aborted = "3"

-- the first two tests: the status has operations, and this is one of them
unfoldable pub check_grid :
    WorkflowStatus → WorkflowAction → List WorkflowAction → Result (Unit {0})
check_grid status action [] =
    err (audit_exception ("不允许的操作, 工单当前状态为 " ⧺ status_text status ⧺ ", 不允许做任何操作"))
check_grid status action (a ∷ allowed) = raise_if (not (contains (a ∷ allowed) action)) (
    audit_exception (
      "不允许的操作, 工单当前状态为 "
      ⧺ status_text status
      ⧺ ", 允许的操作为"
      ⧺ join_comma (map action_label (a ∷ allowed))))

unfoldable pub need_user_permission : WorkflowType → String
need_user_permission query = "sql.query_review"
need_user_permission sql_review = "sql.sql_review"
need_user_permission archive = "sql.archive_review"

abbrev pub is_empty : List Users → Bool
is_empty [] = true
is_empty (u ∷ us) = false

-- the tests for `PASS` and `REJECT` of an actor who is no superuser
-- its last part, for the group of the current node
unfoldable pub check_node : Users → World → Result Group → Result (Unit {0})
check_node actor s found = do
  audit_auth_group ← missing_as found (audit_exception "当前审批权限组不存在, 请联系管理员检查并清洗错误数据")
  users ← auth_group_users (audit_auth_group.name ∷ []) s.self.resource_group_id s
  raise_if (is_empty users) (audit_exception "用户不在流程相关资源组内, 无权限审核")
  raise_if (not (any (λ g. g.id == audit_auth_group.id) actor.groups))
      (audit_exception "用户不在当前节点的审核组内, 无权限审核")

unfoldable pub check_reviewer : WorkflowAudit → Users → World → Result (Unit {0})
check_reviewer audit actor s = do
  raise_if (actor.username == audit.create_user && truthy (config s.self "ban_self_audit" null))
      (audit_exception "当前配置禁止本人审核自己的工单")
  raise_if (not (actor.has_perm (need_user_permission s.self.workflow_type)))
      (audit_exception "用户无相关审批权限, 请合理配置权限")
  check_node actor s (get_group audit.current_audit s)

unfoldable pub check_actor : WorkflowAction → WorkflowAudit → Users → World → Result (Unit {0})
check_actor abort audit actor s =
    raise_if (not (actor.username == audit.create_user)) (audit_exception "只有工单提交者可以撤回工单")
check_actor pass audit actor s = if actor.is_superuser then ok tt else check_reviewer audit actor s
check_actor reject audit actor s =
    if actor.is_superuser then ok tt else check_reviewer audit actor s
check_actor execute_start audit actor s = ok tt
check_actor execute_end audit actor s = ok tt
check_actor execute_set_time audit actor s = ok tt
check_actor submit audit actor s = err (audit_exception "不支持的操作, 无法判断权限")

unfoldable pub check_audit : WorkflowAction → Users → World → WorkflowAudit → Result (Unit {0})
check_audit action actor s audit = do
  check_grid audit.current_status action (supported_operation_grid audit.current_status)
  check_actor action audit actor s

unfoldable pub can_operate : WorkflowAction → Users → World → Result (Unit {0})
can_operate action actor s = do
  audit ← or_raise s.self.audit (audit_exception "给定工单未绑定审批信息, 无法进行操作")
  check_audit action actor s audit
