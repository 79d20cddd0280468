-- ===== src/Api/State.antt =====
-- The rows that the requests of sql_api/api_workflow.py read and write, and the parts of them that the
-- components work on.
use dbshield.Common.{
  ℕ, String, Bool, Option, some, List, [], ◌∷◌, ◌==◌, nat_eq, string_eq, find, if◌then◌else◌, Exec,
  Result, ok, err, does_not_exist, Exc, validation_error,
}
use dbshield.Common.Checks.{◌>>=◌, or_raise}
use dbshield.Config.{SysConfig}
use dbshield.Const.{WorkflowType, query, sql_review, archive}
use dbshield.Models.{
  Users, SqlWorkflow, ArchiveConfig, QueryPrivilegesApply, Workflow, sql_workflow, archive_config,
  query_apply, WorkflowAudit,
}
use dbshield.Audit.State.{Db, AuditV2, World}
use dbshield.Audit.Init.{post_init}
use dbshield.Online.State.{Site, find_workflow, id_is}
use dbshield.Privileges.State.{QueryPrivileges, Instance, Ledger}
use dbshield.Privileges.Grant.{has_apply_id}

-- the tasks that are handed to django-q: the execution of a workflow by a user, and of an archive job
pub data Job : Type 0 where
  execute_job : ℕ → Users → Job
  archive_job : ℕ → Job

-- `schedules` are those named `sqlreview-timing-{id}`: the workflow's id and the time
pub record Portal : Type 0 where
  pub db : Db
  pub workflows : List SqlWorkflow
  pub archives : List ArchiveConfig
  pub applies : List QueryPrivilegesApply
  pub privileges : List QueryPrivileges
  pub instances : List Instance
  pub next_privilege_id : ℕ
  pub sys_config : SysConfig
  pub executed : List ℕ
  pub schedules : List (ℕ × ℕ)
  pub tasks : List Job

-- the part of a component, and a component's method on it
abbrev pub site_of : Portal → Site
site_of p = record {
  workflows = p.workflows;
  audits = p.db.audits;
  logs = p.db.logs;
  groups = p.db.groups;
  resource_groups = p.db.resource_groups;
  users = p.db.users;
  settings = p.sys_config;
  now = p.db.now;
  executed = p.executed;
}

abbrev pub with_site : Portal → Site → Portal
with_site p s = record p {
  db = record p.db { audits = s.audits; logs = s.logs };
  workflows = s.workflows;
  executed = s.executed;
}

abbrev pub ledger_of : Portal → Ledger
ledger_of p = record {
  privileges = p.privileges;
  applies = p.applies;
  instances = p.instances;
  resource_groups = p.db.resource_groups;
  settings = p.sys_config;
  now = p.db.now;
  next_id = p.next_privilege_id;
}

abbrev pub with_ledger : Portal → Ledger → Portal
with_ledger p l = record p {
  privileges = l.privileges;
  applies = l.applies;
  next_privilege_id = l.next_id;
}

abbrev pub with_world : Portal → World → Portal
with_world p w = record p { db = w.db }

module _ {A : Type 0} where
  abbrev pub on_site : Exec Site A → Exec Portal A
  on_site m p = let (r, s) = m (site_of p) in (r, with_site p s)

  abbrev pub on_ledger : Exec Ledger A → Exec Portal A
  on_ledger m p = let (r, l) = m (ledger_of p) in (r, with_ledger p l)

-- `Users.objects.get(username=...)`
unfoldable pub get_user : String → Portal → Result Users
get_user name p = or_raise (find (λ u. u.username == name) p.db.users) does_not_exist

abbrev archive_has_id : ℕ → ArchiveConfig → Bool
archive_has_id n a = id_is n a.id

-- `SqlWorkflow`, `ArchiveConfig` and `QueryPrivilegesApply` by their keys
unfoldable pub get_archive : ℕ → Portal → Result ArchiveConfig
get_archive n p = or_raise (find (archive_has_id n) p.archives) does_not_exist

unfoldable pub get_apply_row : ℕ → Portal → Result QueryPrivilegesApply
get_apply_row n p = or_raise (find (has_apply_id n) p.applies) does_not_exist

-- `WorkflowAudit.get_workflow`
unfoldable pub workflow_of : WorkflowType → ℕ → Portal → Result Workflow
unfolding get_archive get_apply_row
workflow_of query n p = do a ← get_apply_row n p; ok (query_apply a)
workflow_of sql_review n p = do
  w ← or_raise (find_workflow n p.workflows) does_not_exist
  ok (sql_workflow w)
workflow_of archive n p = do a ← get_archive n p; ok (archive_config a)

unfoldable pub update_archive :
    ℕ → (ArchiveConfig → ArchiveConfig) → List ArchiveConfig → List ArchiveConfig
update_archive n f [] = []
update_archive n f (a ∷ more) =
    let rest = update_archive n f more in if archive_has_id n a then f a ∷ more else a ∷ rest

-- `AuditV2.get_workflow`: an archive job has its resource group from the audit
abbrev group_of : WorkflowAudit → WorkflowType → String
group_of audit query = ""
group_of audit sql_review = ""
group_of audit archive = audit.group_name

abbrev group_id_of : WorkflowAudit → WorkflowType → ℕ
group_id_of audit query = 0
group_id_of audit sql_review = 0
group_id_of audit archive = audit.group_id

abbrev pub new_self : Portal → WorkflowAudit → Workflow → AuditV2
new_self p audit w = record {
  workflow = w;
  sys_config = p.sys_config;
  audit = some audit;
  workflow_type = sql_review;
  resource_group = group_of audit audit.workflow_type;
  resource_group_id = group_id_of audit audit.workflow_type;
}

abbrev pub made : Result (Option WorkflowAudit) × World → Result World
made (ok a, w) = ok w
made (err c, w) = err c

-- `get_auditor(audit=workflow_audit)`
unfoldable pub get_auditor : WorkflowAudit → ℕ → Portal → Result World
unfolding post_init
get_auditor audit n p = do
  w ← workflow_of audit.workflow_type n p
  made (post_init (record { db = p.db; self = new_self p audit w }))

-- `del_schedule(f"sqlreview-timing-{id}")`, which finds none without harm
unfoldable pub del_schedule : ℕ → List (ℕ × ℕ) → List (ℕ × ℕ)
del_schedule n [] = []
del_schedule n ((m, t) ∷ more) =
    let rest = del_schedule n more in if m == n then rest else (m, t) ∷ rest

-- `raise serializers.ValidationError({"errors": ...})`
abbrev pub invalid : String → Exc
invalid msg = validation_error msg
