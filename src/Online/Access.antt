-- ===== src/Online/Access.antt =====
-- Who may execute, schedule, stop and see a SQL workflow: sql/utils/sql_review.py, and `can_review`
-- of the class `Audit` in sql/utils/workflow_audit.py.
use dbshield.Common.{
  ℕ, String, Bool, true, false, not, ◌&&◌, ◌||◌, Option, none, some, List, [], ◌∷◌, ◌==◌, nat_eq,
  string_eq, ltb, any, contains, int, ℤ, if◌then◌else◌, Result, ok, err, exception, does_not_exist,
}
use dbshield.Common.Checks.{or_raise, ◌>>=◌}
use dbshield.Config.{null, truthy}
use dbshield.Config
use dbshield.Const.{
  sql_review, waiting, status_eq, SqlStatus, workflow_finish, workflow_manreviewing,
  workflow_review_pass, workflow_timingtask, workflow_exception, sql_status_eq,
}
use dbshield.Models.{Users, SqlWorkflow, WorkflowAudit}
use dbshield.Audit.State.{is_member, group_at}
use dbshield.Online.State.{Site, get_workflow, detail_by_workflow_id, group_ids}

-- the two kinds of users who may execute
unfoldable pub is_executor : Users → SqlWorkflow → Site → Bool
is_executor user w s =
    (contains (group_ids user s) w.group_id && user.has_perm "sql.sql_execute_for_resource_group")
    || (w.engineer == user.username && user.has_perm "sql.sql_execute")

abbrev pub executable : List SqlStatus
executable = workflow_review_pass ∷ workflow_timingtask ∷ []

unfoldable pub can_execute : Users → ℕ → Site → Result Bool
can_execute user n s = do
  workflow_detail ← get_workflow n s
  ok (
      if not (contains executable workflow_detail.status)
      then false
      else is_executor user workflow_detail s)

unfoldable pub can_timingtask : Users → ℕ → Site → Result Bool
can_timingtask user n s = do
  workflow_detail ← get_workflow n s
  ok (
      if contains executable workflow_detail.status
      then is_executor user workflow_detail s
      else false)

-- a bound that is set is compared
abbrev later_than : Option ℕ → ℕ → Bool
later_than none t = false
later_than (some bound) t = ltb t bound

abbrev earlier_than : Option ℕ → ℕ → Bool
earlier_than none t = false
earlier_than (some bound) t = ltb bound t

abbrev or_now : Option ℕ → Site → ℕ
or_now none s = s.now
or_now (some t) s = t

unfoldable pub on_correct_time_period : ℕ → Option ℕ → Site → Result Bool
on_correct_time_period n run_date s = do
  workflow_detail ← get_workflow n s
  let ctime = or_now run_date s
  ok (
      if later_than workflow_detail.run_date_start ctime
        || earlier_than workflow_detail.run_date_end ctime
      then false
      else true)

-- `Audit.can_review` of the class `Audit`, for SQL workflows
abbrev group_name_of : Option ℤ → Site → Result String
group_name_of none s = err (exception "当前审批auth_group_id不存在，请检查并清洗历史数据")
group_name_of (some id) s = elim (group_at s.groups id) [
  | ok g ↦ ok g.name
  | err c ↦ err (exception "当前审批auth_group_id不存在，请检查并清洗历史数据")
]

-- `auth_group_users(names, group_id).filter(id=user.id).exists()`
unfoldable pub is_auth_user : Users → String → ℕ → Site → Result Bool
is_auth_user user name group_id s =
    if any (λ g. g.group_id == group_id) s.resource_groups
    then ok (any (λ u. is_member (name ∷ []) group_id u && u.id == user.id) s.users)
    else err does_not_exist

unfoldable pub is_reviewer : Users → WorkflowAudit → Site → Result Bool
is_reviewer user audit s = do
  name ← group_name_of (int audit.current_audit) s
  found ← if user.is_superuser then ok true else is_auth_user user name audit.group_id s
  ok (found && user.has_perm "sql.sql_review")

unfoldable pub can_review : Users → ℕ → Site → Result Bool
can_review user n s = do
  audit ← or_raise (detail_by_workflow_id n sql_review s) does_not_exist
  w ← get_workflow n s
  if user.username == w.engineer
        && (not user.is_superuser && truthy (Config.get "ban_self_audit" null s.settings).0)
      then ok false
      else if audit.current_status == waiting
      then is_reviewer user audit s
      else ok false

unfoldable pub can_cancel : Users → ℕ → Site → Result Bool
can_cancel user n s = do
  workflow_detail ← get_workflow n s
  if workflow_detail.status == workflow_manreviewing
      then (do
        reviews ← can_review user n s
        ok (reviews || user.username == workflow_detail.engineer))
      else if contains executable workflow_detail.status
      then (do
        executes ← can_execute user n s
        ok (executes || user.username == workflow_detail.engineer))
      else ok false

unfoldable pub sees : Users → SqlWorkflow → Site → Bool
sees user w s =
    if user.is_superuser
    then true
    else if user.has_perm "sql.sql_review" || user.has_perm "sql.sql_execute_for_resource_group"
    then contains (group_ids user s) w.group_id
    else w.engineer == user.username

unfoldable pub can_view : Users → ℕ → Site → Result Bool
can_view user n s = do workflow_detail ← get_workflow n s; ok (sees user workflow_detail s)

unfoldable pub can_rollback : Users → ℕ → Site → Result Bool
can_rollback user n s = do
  workflow_detail ← get_workflow n s
  if workflow_detail.is_backup
        && contains (workflow_finish ∷ workflow_exception ∷ []) workflow_detail.status
      then can_view user n s
      else ok false
