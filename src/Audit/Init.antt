-- ===== src/Audit/Init.antt =====
-- `__post_init__` of `AuditV2` in sql/utils/workflow_audit.py, for an object made with its workflow.
use dbshield.Common.{
  String, Option, none, some, List, ◌==◌, string_eq, find, ◌⧺◌, Exec, Result, ok, err,
  audit_exception, modify, ◌>>=◌, ◌>>◌,
}
use dbshield.Models.{
  Workflow, sql_workflow, archive_config, query_apply, ResourceGroup, WorkflowAudit,
  workflow_type_of,
}
use dbshield.Audit.State.{World, AuditV2, get_audit_info}

abbrev pub of_group : String → Option ResourceGroup → AuditV2 → Result AuditV2
of_group name none self = err (audit_exception ("参数错误, 未发现资源组 " ⧺ name))
of_group name (some g) self = ok (record self { resource_group_id = g.group_id })

unfoldable pub with_resource_group : Workflow → List ResourceGroup → AuditV2 → Result AuditV2
with_resource_group (sql_workflow w) groups self =
    ok (record self { resource_group = w.group_name; resource_group_id = w.group_id })
with_resource_group (archive_config w) groups self =
    of_group self.resource_group (find (λ g. g.group_name == self.resource_group) groups) self
with_resource_group (query_apply w) groups self =
    ok (record self { resource_group = w.group_name; resource_group_id = w.group_id })

-- the type, then the resource group, then the review that is there, if any
abbrev pub resolved : World → Result AuditV2
resolved s =
    with_resource_group s.self.workflow s.db.resource_groups
      (record s.self { workflow_type = workflow_type_of s.self.workflow })

unfoldable pub post_init : Exec World (Option WorkflowAudit)
post_init = do self ← (λ s. (resolved s, s)); modify (λ s. record s { self = self }); get_audit_info
