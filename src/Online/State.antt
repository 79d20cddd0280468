-- ===== src/Online/State.antt =====
-- The rows that sql/utils/sql_review.py and sql/utils/execute_sql.py read and write.
use dbshield.Common.{
  ℕ, Bool, false, not, ◌&&◌, Option, none, some, List, [], ◌∷◌, ◌++◌, ◌==◌, nat_eq, find, keep,
  contains, map, if◌then◌else◌, Exec, Result, pure, does_not_exist,
}
use dbshield.Common.Checks.{or_raise}
use dbshield.Config.{SysConfig}
use dbshield.Const.{WorkflowType}
use dbshield.Models.{Group, Users, ResourceGroup, SqlWorkflow, WorkflowAudit, WorkflowLog}
use dbshield.Audit.State.{is_audit_of}

-- `executed` are the workflows that the engine was given, in their order.
pub record Site : Type 0 where
  pub workflows : List SqlWorkflow
  pub audits : List WorkflowAudit
  pub logs : List WorkflowLog
  pub groups : List Group
  pub resource_groups : List ResourceGroup
  pub users : List Users
  pub settings : SysConfig
  pub now : ℕ
  pub executed : List ℕ

-- `SqlWorkflow.objects.get(id=workflow_id)`
abbrev pub id_is : ℕ → Option ℕ → Bool
id_is n none = false
id_is n (some m) = m == n

abbrev pub has_id : ℕ → SqlWorkflow → Bool
has_id n w = id_is n w.id

unfoldable pub find_workflow : ℕ → List SqlWorkflow → Option SqlWorkflow
find_workflow n [] = none
find_workflow n (w ∷ ws) = let rest = find_workflow n ws in if has_id n w then some w else rest

unfoldable pub get_workflow : ℕ → Site → Result SqlWorkflow
get_workflow n s = or_raise (find_workflow n s.workflows) does_not_exist

-- a row is saved: the columns of the one with this id
unfoldable pub update_workflow :
    ℕ → (SqlWorkflow → SqlWorkflow) → List SqlWorkflow → List SqlWorkflow
update_workflow n f [] = []
update_workflow n f (w ∷ ws) =
    let rest = update_workflow n f ws in if has_id n w then f w ∷ ws else w ∷ rest

-- `Audit.detail_by_workflow_id`
unfoldable pub detail_by_workflow_id : ℕ → WorkflowType → Site → Option WorkflowAudit
detail_by_workflow_id n t s = find (is_audit_of t (some n)) s.audits

-- `Audit.add_log`
unfoldable pub add_log : WorkflowLog → Exec Site (Unit {0})
add_log l s = pure tt (record s { logs = s.logs ++ l ∷ [] })

-- sql/utils/resource_group.py, `user_groups`: the resource groups of a user
unfoldable pub user_groups : Users → Site → List ResourceGroup
user_groups user s =
    if user.is_superuser
    then keep (λ g. not g.is_deleted) s.resource_groups
    else keep (λ g. contains user.resource_group g.group_id && not g.is_deleted) s.resource_groups

unfoldable pub group_ids : Users → Site → List ℕ
group_ids user s = map (λ g. g.group_id) (user_groups user s)
