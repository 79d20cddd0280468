-- ===== src/Audit/Lookup.antt =====
-- What `AuditV2` reads before it writes: `review_info` and `generate_audit_setting`.
use dbshield.Common.{
  ℕ, String, Bool, ◌&&◌, ◌||◌, Option, none, some, List, [], ◌∷◌, ◌==◌, nat_eq, string_eq, find,
  ◌⧺◌, split_comma, join_comma, join, if◌then◌else◌, Result, ok, audit_exception, attribute_error,
}
use dbshield.Common.Checks.{or_raise, if_missing, ◌>>=◌}
use dbshield.Const.{WorkflowType, type_eq, type_label}
use dbshield.Models.{
  Workflow, sql_workflow, archive_config, query_apply, WorkflowAudit, WorkflowAuditSetting,
}
use dbshield.Config.{Value}
use dbshield.Audit.State.{World, AuditV2, get_group}
use dbshield.Audit.Review.{is_auto_reject, is_auto_review}

abbrev pub no_one : String
no_one = "-1"

unfoldable pub group_names : List String → World → Result (List String)
group_names [] s = ok []
group_names (g ∷ gs) s = do
  let later = group_names gs s
  group ← get_group g s
  rest ← later
  ok (group.name ∷ rest)

abbrev flow_text : WorkflowAudit → World → Result String
flow_text a s =
    if a.audit_auth_groups == ""
    then ok "无需审批"
    else if_missing
        (do names ← group_names (split_comma a.audit_auth_groups) s; ok (join "->" names))
        a.audit_auth_groups

abbrev current_text : WorkflowAudit → World → Result (Option String)
current_text a s =
    if a.current_audit == no_one
    then ok none
    else if_missing (do g ← get_group a.current_audit s; ok (some g.name)) (some a.current_audit)

unfoldable pub review_info : World → Result (String × Option String)
review_info s = do
  a ← or_raise s.self.audit attribute_error
  flow ← flow_text a s
  current ← current_text a s
  ok (flow, current)

pub record AuditSetting : Type 0 where
  pub audit_auth_groups : List String
  pub auto_pass : Bool
  pub auto_reject : Bool

unfoldable pub audit_auth_group_in_db : AuditSetting → String
audit_auth_group_in_db s =
    if s.auto_reject || s.auto_pass then "" else join_comma s.audit_auth_groups

-- the resource group that the setting is looked up for
abbrev pub setting_group : AuditV2 → Workflow → ℕ
setting_group self (sql_workflow w) = w.group_id
setting_group self (query_apply w) = w.group_id
setting_group self (archive_config w) = self.resource_group_id

unfoldable pub find_setting :
    List WorkflowAuditSetting → WorkflowType → ℕ → Option WorkflowAuditSetting
find_setting settings t group_id =
    find (λ s. s.workflow_type == t && s.group_id == group_id) settings

module _ (re_match : Value → String → Bool) where
  unfoldable pub generate_audit_setting : World → Result AuditSetting
  generate_audit_setting s = do
    setting ←
        or_raise
          (find_setting s.db.settings s.self.workflow_type (setting_group s.self s.self.workflow))
          (audit_exception ("审批类型 " ⧺ type_label s.self.workflow_type ⧺ " 未配置审流"))
    auto_pass ← is_auto_review re_match s.self
    ok (record {
      audit_auth_groups = split_comma setting.audit_auth_groups;
      auto_pass = auto_pass;
      auto_reject = is_auto_reject s.self;
    })
