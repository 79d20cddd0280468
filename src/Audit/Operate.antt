-- ===== src/Audit/Operate.antt =====
-- `operate` of `AuditV2`: the steps of a review.
use dbshield.Common.{
  ℕ, ◌+◌, String, Option, none, some, List, ◌==◌, string_eq, leb, length, get_elem?, index, ◌⧺◌,
  split_comma, if◌then◌else◌, Exec, Result, ok, err, lift, reads, pure, gets, modify, ◌>>=◌, ◌>>◌,
  audit_exception, value_error,
}
use dbshield.Common.Checks.{or_raise, if_missing}
use dbshield.Const.{
  WorkflowStatus, waiting, passed, rejected, aborted, WorkflowAction, pass, reject, abort,
  action_label, action_value, action_eq,
}
use dbshield.Models.{Users, Group, WorkflowAudit, WorkflowAuditDetail, WorkflowLog}
use dbshield.Audit.State.{World, get_group, save_audit, add_detail, add_log}
use dbshield.Audit.Lookup.{no_one}
use dbshield.Audit.CanOperate.{can_operate}

abbrev pub the_audit : Exec World WorkflowAudit
the_audit s = lift (or_raise s.self.audit (audit_exception "给定工单未绑定审批信息, 无法进行操作")) s

-- the fields of the object change before the row is saved
abbrev pub set_audit : WorkflowAudit → Exec World (Unit {0})
set_audit a = modify (λ s. record s { self = record s.self { audit = some a } })

abbrev now : Exec World ℕ
now = gets (λ s. s.db.now)

-- the group after the one at a position
unfoldable pub next_of : List String → Option ℕ → Option String
next_of groups none = none
next_of groups (some position) =
    if leb (length groups) (position + 1) then some no_one else get_elem? groups (position + 1)

unfoldable pub advance : WorkflowAudit → Exec World (Unit {0})
advance audit =
    if audit.next_audit == no_one
    then save_audit (record audit { current_audit = no_one; current_status = passed })
    else (do
      let moved = record audit { current_status = waiting; current_audit = audit.next_audit }
      set_audit moved
      let groups = split_comma audit.audit_auth_groups
      next ← lift (or_raise (next_of groups (index groups audit.next_audit)) value_error)
      save_audit (record moved { next_audit = next }))

abbrev pub name_of : Result Group → Result String
name_of (ok g) = ok g.name
name_of (err c) = err c

abbrev pub info_for : String → Result String → Result String
info_for remark (ok name) = ok ("审批备注：" ⧺ remark ⧺ ", 下级审批：" ⧺ name)
info_for remark (err c) = err c

unfoldable pub pass_info : String → WorkflowAudit → World → Result String
pass_info remark audit s =
    if audit.current_audit == no_one
    then ok ("审批备注: " ⧺ remark ⧺ ", 无下级审批")
    else info_for remark
        (if_missing (name_of (get_group audit.current_audit s)) audit.current_audit)

-- the row of the decision, and the row of the log
abbrev pub detail_of : WorkflowAudit → Users → WorkflowStatus → ℕ → String → WorkflowAuditDetail
detail_of a actor status time remark = record {
  audit_id = a.audit_id;
  audit_user = actor.username;
  audit_status = status;
  audit_time = time;
  remark = remark;
}

abbrev log_of : WorkflowAudit → Users → ℕ → String → String → WorkflowLog
log_of a actor kind desc info = record {
  audit_id = a.audit_id;
  operation_type = kind;
  operation_type_desc = desc;
  operation_info = info;
  operator = actor.username;
  operator_display = actor.display;
}

-- the rows of an approval, once the audit has moved on
unfoldable pub record_pass : Users → String → WorkflowAudit → Exec World WorkflowAuditDetail
record_pass actor remark audit = do
  time ← now
  result ← add_detail (detail_of audit actor passed time remark)
  info ← reads (pass_info remark audit)
  add_log (log_of audit actor (action_value pass) (action_label pass) info)
  pure result

unfoldable pub pass_audit : Users → String → WorkflowAudit → Exec World WorkflowAuditDetail
pass_audit actor remark before = do
  advance before
  audit ← the_audit
  record_pass actor remark audit

unfoldable pub operate_pass : Users → String → Exec World WorkflowAuditDetail
operate_pass actor remark = do before ← the_audit; pass_audit actor remark before

-- the rows of a rejection, and of a withdrawal
unfoldable pub record_reject : Users → String → WorkflowAudit → Exec World WorkflowAuditDetail
record_reject actor remark audit = do
  time ← now
  result ← add_detail (detail_of audit actor rejected time remark)
  add_log (log_of audit actor 2 "审批不通过" ("审批备注：" ⧺ remark))
  pure result

unfoldable pub operate_reject : Users → String → Exec World WorkflowAuditDetail
operate_reject actor remark = do
  before ← the_audit
  save_audit
      (record before { current_audit = no_one; next_audit = no_one; current_status = rejected })
  audit ← the_audit
  record_reject actor remark audit

unfoldable pub record_abort : Users → String → WorkflowAudit → Exec World WorkflowAuditDetail
record_abort actor remark audit = do
  time ← now
  result ← add_detail (detail_of audit actor aborted time remark)
  add_log (log_of audit actor 3 "审批取消" ("取消原因：" ⧺ remark))
  pure result

unfoldable pub operate_abort : Users → String → Exec World WorkflowAuditDetail
operate_abort actor remark = do
  before ← the_audit
  save_audit (record before { next_audit = no_one; current_status = aborted })
  audit ← the_audit
  record_abort actor remark audit

-- what `operate` does once it is allowed; the `EXECUTE_*` actions return `None`
unfoldable pub decide : WorkflowAction → Users → String → Exec World (Option WorkflowAuditDetail)
decide pass actor remark = do d ← operate_pass actor remark; pure (some d)
decide reject actor remark = do d ← operate_reject actor remark; pure (some d)
decide abort actor remark = do d ← operate_abort actor remark; pure (some d)
decide _ actor remark = pure none

unfoldable pub operate : WorkflowAction → Users → String → Exec World (Option WorkflowAuditDetail)
operate action actor remark = do reads (can_operate action actor); decide action actor remark
