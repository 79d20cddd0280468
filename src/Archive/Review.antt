-- ===== src/Archive/Review.antt =====
-- The requests of sql_api/api_archiver.py that change an archive job, and `add_archive_task` of
-- sql/archiver.py.
use dbshield.Common.{
  ℕ, ℤ, pos, negsuc, String, ◌⧺◌, Bool, true, false, not, ◌&&◌, ◌||◌, Option, none, some, List, [],
  ◌∷◌, ◌++◌, ◌==◌, nat_eq, string_eq, find, any, contains, if◌then◌else◌, Exec, Result, ok, err,
  does_not_exist, attribute_error, audit_exception, permission_denied, pure, lift, reads, ◌>>=◌,
}
use dbshield.Common.Checks.{or_raise}
use dbshield.Const.{
  WorkflowStatus, passed, status_eq, WorkflowAction, submit, pass, reject, abort, execute_set_time,
  execute_start, execute_end, action_value, sql_review,
}
use dbshield.Models.{
  Users, ResourceGroup, ArchiveConfig, archive_config, WorkflowAudit, WorkflowAuditDetail,
}
use dbshield.Audit.State.{World}
use dbshield.Audit.Init.{post_init}
use dbshield.Audit.Operate.{operate}
use dbshield.Online.State.{id_is, group_ids}
use dbshield.Api.State.{
  Portal, Job, archive_job, get_archive, update_archive, with_world, made, site_of,
}

-- the numbers of the request; `none` is a field that is missing or that `int` does not read
pub record ArchiveRequest : Type 0 where
  pub archive_id : Option ℤ
  pub audit_status : Option ℤ
  pub audit_remark : String

pub record ArchiveReply : Type 0 where
  pub status : ℕ
  pub msg : String

abbrev pub done : ArchiveReply
done = record { status = 0; msg = "ok" }

abbrev pub refused_reply : String → ArchiveReply
refused_reply msg = record { status = 1; msg = msg }

abbrev all_actions : List WorkflowAction
all_actions = submit ∷ pass ∷ reject ∷ abort ∷ execute_set_time ∷ execute_start ∷ execute_end ∷ []

-- `WorkflowAction(number)`
abbrev pub action_numbered : ℤ → Option WorkflowAction
action_numbered (pos n) = find (λ a. action_value a == n) all_actions
action_numbered (negsuc n) = none

abbrev pub action_given : Option ℤ → Option WorkflowAction
action_given none = none
action_given (some n) = action_numbered n

-- `archive_workflow.resource_group`
abbrev pub resource_group_of : ArchiveConfig → Portal → Result ResourceGroup
resource_group_of a p =
    or_raise (find (λ g. g.group_id == a.resource_group_id) p.db.resource_groups) does_not_exist

-- `get_auditor(workflow=..., resource_group=...)`, where the group counts by its name
unfoldable pub auditor_for : ArchiveConfig → ResourceGroup → Portal → Result World
auditor_for a g p = made (
    post_init (record {
      db = p.db;
      self = record {
        workflow = archive_config a;
        sys_config = p.sys_config;
        audit = none;
        workflow_type = sql_review;
        resource_group = g.group_name;
        resource_group_id = 0;
      };
    }))

-- the two fields that are set on the job
abbrev pub decided_job : WorkflowStatus → ArchiveConfig → ArchiveConfig
decided_job status a = record a {
  status = status;
  state = if status == passed then true else a.state;
}

-- the transaction: what a raise leaves is rolled back
abbrev pub after_step : Option WorkflowAudit → World → ℕ → Exec Portal ArchiveReply
after_step none t n p = (err attribute_error, p)
after_step (some a) t n p = (
  ok done,
  record (with_world p t) { archives = update_archive n (decided_job a.current_status) p.archives },
)

abbrev pub in_transaction :
    Result (Option WorkflowAuditDetail) × World → ℕ → Exec Portal ArchiveReply
in_transaction (ok d, t) n p = after_step t.self.audit t n p
in_transaction (err (audit_exception m), t) n p = (ok (refused_reply ("审核失败: " ⧺ m)), p)
in_transaction (err c, t) n p = (err c, p)

-- `ArchiveAudit.post`
abbrev pub audit_found :
    ArchiveRequest → Users → WorkflowAction → ℕ → Result ArchiveConfig → Exec Portal ArchiveReply
audit_found r user action n (ok a) = do
  g ← reads (resource_group_of a)
  w ← reads (auditor_for a g)
  in_transaction (operate action user r.audit_remark w) n
audit_found r user action n (err does_not_exist) = pure (refused_reply "工单不存在")
audit_found r user action n (err c) = lift (err c)

abbrev pub audit_numbered : ArchiveRequest → Users → WorkflowAction → ℤ → Exec Portal ArchiveReply
audit_numbered r user action (pos n) p = audit_found r user action n (get_archive n p) p
audit_numbered r user action (negsuc n) p = (ok (refused_reply "工单不存在"), p)

-- `text_of` is the text of the exceptions that reading the numbers raises
abbrev pub audit_given :
    String → ArchiveRequest → Users → Option ℤ → Option WorkflowAction → Exec Portal ArchiveReply
audit_given text r user (some n) (some action) = audit_numbered r user action n
audit_given text r user (some n) none = pure (refused_reply ("参数错误: " ⧺ text))
audit_given text r user none action = pure (refused_reply ("参数错误: " ⧺ text))

unfoldable pub audit_archive : String → ArchiveRequest → Users → Exec Portal ArchiveReply
audit_archive text r user = audit_given text r user r.archive_id (action_given r.audit_status)

-- `ArchiveMgtPermission`
abbrev pub may_manage : Users → Bool
may_manage user = user.is_superuser || user.has_perm "sql.archive_mgt"

abbrev pub has_number : ℕ → ArchiveConfig → Bool
has_number n a = id_is n a.id

abbrev pub set_state : Bool → ArchiveConfig → ArchiveConfig
set_state state a = record a { state = state }

-- `ArchiveSwitchView.post`: a save of one field of a row that is not there raises
unfoldable pub switch_archive : ℕ → String → Users → Exec Portal ArchiveReply
switch_archive n state user p =
    if not (may_manage user)
    then (err permission_denied, p)
    else if any (has_number n) p.archives
    then (
      ok done,
      record p { archives = update_archive n (set_state (state == "true")) p.archives },
    )
    else (ok (refused_reply "Save with update_fields did not affect any rows."), p)

-- `ArchiveOnceView.get`
abbrev queue_once : ℕ → Portal → Portal
queue_once n p = record p { tasks = p.tasks ++ archive_job n ∷ [] }

abbrev once_by : ℕ → Users → Option ArchiveConfig → Exec Portal ArchiveReply
once_by n user none p = (ok (refused_reply "归档配置不存在"), p)
once_by n user (some a) p =
    if contains (group_ids user (site_of p)) a.resource_group_id
    then (ok done, queue_once n p)
    else (ok (refused_reply "无权操作该归档任务"), p)

unfoldable pub archive_once : ℕ → Users → Exec Portal ArchiveReply
archive_once n user p =
    if not (may_manage user)
    then (err permission_denied, p)
    else if user.is_superuser
    then (ok done, queue_once n p)
    else once_by n user (find (has_number n) p.archives) p

-- sql/archiver.py: the jobs that run, all of them or the ones named, and their tasks
abbrev pub is_named : List ℕ → Option ℕ → Bool
is_named [] id = true
is_named (n ∷ ns) none = false
is_named (n ∷ ns) (some id) = contains (n ∷ ns) id

unfoldable pub is_switched_on : List ℕ → ArchiveConfig → Bool
is_switched_on archive_ids a = is_named archive_ids a.id && (a.state && a.status == passed)

abbrev pub job_of : Option ℕ → List Job
job_of none = []
job_of (some n) = archive_job n ∷ []

unfoldable pub jobs_of : List ℕ → List ArchiveConfig → List Job
jobs_of archive_ids [] = []
jobs_of archive_ids (a ∷ more) =
    let rest = jobs_of archive_ids more in
    if is_switched_on archive_ids a then job_of a.id ++ rest else rest

unfoldable pub add_archive_task : List ℕ → Portal → Portal
add_archive_task archive_ids p = record p { tasks = p.tasks ++ jobs_of archive_ids p.archives }
