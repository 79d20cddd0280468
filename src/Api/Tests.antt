-- ===== src/Api/Tests.antt =====
-- Concrete requests on which the theorems on sql_api/api_workflow.py apply.
use dbshield.Common.{
  Exc, err, String, true, false, ◌≡◌, refl, inl, ◌≢◌, none, some, [], ◌∷◌, ◌++◌, split_comma,
  lookup, int, Result, ok,
}
use dbshield.Config
use dbshield.Const.{
  query, sql_review, waiting, passed, WorkflowAction, SqlStatus, workflow_abort, workflow_queuing,
  workflow_executing, workflow_review_pass,
}
use dbshield.Models.{Users, SqlWorkflow, WorkflowAudit}
use dbshield.Audit.Tests.{user, root, reviewer, audit_at, sql, world}
use dbshield.Audit.State.{
  World, is_audit_of, get_audit_info, get_group, auth_group_users, is_member, save_audit, save_as,
  replace, add_detail, add_log,
}
use dbshield.Audit.CanOperate.{
  can_operate, check_audit, check_grid, supported_operation_grid, check_actor, check_reviewer,
  check_node, need_user_permission,
}
use dbshield.Audit.Operate.{
  operate, decide, operate_pass, pass_audit, advance, next_of, record_pass, pass_info,
  operate_abort, record_abort,
}
use dbshield.Audit.Permissions.{IsAllowed}
use dbshield.Audit.Steps.{Stepped}
use dbshield.Audit.Init.{post_init, with_resource_group}
use dbshield.Online.State.{
  find_workflow, get_workflow, group_ids, user_groups, update_workflow, detail_by_workflow_id,
}
use dbshield.Online.State
use dbshield.Online.Access.{can_execute, is_executor, on_correct_time_period}
use dbshield.Online.Execute.{ReviewSet, Task, with_status, execute, execute_callback}
use dbshield.Online.Rights.{MayExecute}
use dbshield.Api.State.{Portal, execute_job, site_of, get_auditor, workflow_of, get_user}
use dbshield.Api.Review.{
  AuditRequest, message, find_audit, acting_user, action_of, engineer_of, cancel_action, operate_on,
  settle_sql, settle_workflow, is_notified, audit_workflow, post,
}
use dbshield.Api.Actors.{post-IsAllowed}
use dbshield.Api.Cancel.{post_cancel}
use dbshield.Api.Late.{post-aborts}
use dbshield.Api.Execute.{
  ExecuteRequest, as_number, as_text, execute_errors, check_executor, run_mode, execute_sql,
  execute_as, execute_post,
}
use dbshield.Api.Once.{execute_post-once, execute_post-runs}

abbrev ann : Users
ann = user "ann" false []

abbrev portal : Users → WorkflowAudit → SqlStatus → Portal
portal u a status = record {
  db = record (world waiting).db { audits = a ∷ []; users = u ∷ [] };
  workflows = record sql { status = status } ∷ [];
  archives = [];
  applies = [];
  privileges = [];
  instances = [];
  next_privilege_id = 1;
  sys_config = record { sys_config = []; rows = [] };
  executed = [];
  schedules = [];
  tasks = [];
}

abbrev passing : AuditRequest
passing = record {
  engineer = "reviewer";
  workflow_id = 3;
  workflow_type = sql_review;
  audit_remark = "fine";
  audit_type = "pass";
}

abbrev reviewed : Portal
reviewed = portal reviewer (audit_at waiting) workflow_review_pass

answered : (post passing reviewer reviewed).0 ≡ ok (message "passed")
unfolding post find_audit audit_workflow get_auditor workflow_of post_init find_workflow acting_user
    action_of operate_on operate operate_pass pass_audit record_pass decide advance next_of
    pass_info save_audit save_as replace add_detail add_log can_operate check_audit check_grid
    supported_operation_grid check_actor check_reviewer check_node need_user_permission get_group
    split_comma int settle_workflow settle_sql is_notified get_user is_audit_of with_resource_group
    get_audit_info auth_group_users is_member Config.get lookup
answered = refl

post-IsAllowed_example :
    (audit : WorkflowAudit) × (action : WorkflowAction) × (w : World) × (find_audit sql_review 3
        reviewed
      ≡ some audit)
    × (get_auditor audit 3 reviewed ≡ ok w)
    × IsAllowed audit reviewer w action
    × Stepped audit.current_status action (operate action reviewer "fine" w).1
    × ((post passing reviewer reviewed).1.db ≡ (operate action reviewer "fine" w).1.db)
post-IsAllowed_example = post-IsAllowed passing reviewer reviewed "passed" refl answered

-- a request to cancel one for privileges
abbrev withdrawing : AuditRequest
withdrawing = record passing { engineer = "ann"; workflow_type = query; audit_type = "cancel" }

abbrev asked : Portal
asked = portal ann (record (audit_at waiting) { workflow_type = query }) workflow_review_pass

post_cancel_example :
    ((text : String) → (post withdrawing ann asked).0 ≢ ok (message text))
    × ((post withdrawing ann asked).1 ≡ asked)
post_cancel_example = post_cancel withdrawing ann asked refl (inl refl)

-- a cancel of a workflow that is executing
abbrev aborting : AuditRequest
aborting = record withdrawing { workflow_type = sql_review }

abbrev under_way : Portal
under_way = portal ann (audit_at passed) workflow_executing

canceled : (post aborting ann under_way).0 ≡ ok (message "canceled")
unfolding post find_audit audit_workflow get_auditor workflow_of post_init find_workflow acting_user
    action_of operate_on operate operate_abort record_abort engineer_of cancel_action decide advance
    next_of pass_info save_audit save_as replace add_detail add_log can_operate check_audit
    check_grid supported_operation_grid check_actor check_reviewer check_node need_user_permission
    get_group split_comma int settle_workflow settle_sql is_notified get_user is_audit_of
    with_resource_group get_audit_info auth_group_users is_member Config.get lookup
canceled = refl

post-aborts_example :
    ((post aborting ann under_way).1.workflows
      ≡ update_workflow 3 (with_status workflow_abort) under_way.workflows)
    × ((task : Task)
        → task.workflow_id ≡ 3
        → (c : Exc) × (execute_callback
              (λ _. true)
              (λ _. "done")
              task
              (site_of (post aborting ann under_way).1)
            ≡ (err c, site_of (post aborting ann under_way).1)))
post-aborts_example =
    post-aborts (λ _. true) (λ _. "done") aborting ann under_way "canceled" refl refl canceled

-- an execution
abbrev starting : ExecuteRequest
starting = record {
  engineer = some "reviewer";
  workflow_id = 3;
  workflow_type = as_number 2;
  mode = some "auto";
}

abbrev ready : Portal
ready = portal reviewer (audit_at passed) workflow_review_pass

starts : (execute_post starting reviewer ready).0 ≡ ok (message "开始执行，执行结果请到工单详情页查看")
unfolding execute_post execute_errors find_audit execute_as execute_sql acting_user check_executor
    can_execute get_workflow find_workflow is_executor group_ids user_groups on_correct_time_period
    detail_by_workflow_id run_mode State.add_log is_audit_of
starts = refl

-- the type as a text: the same answer, and nothing is done
text_test :
    execute_post (record starting { workflow_type = as_text "2" }) reviewer ready
    ≡ (ok (message "开始执行，执行结果请到工单详情页查看"), ready)
unfolding execute_post execute_errors find_audit execute_as is_audit_of
text_test = refl

execute_post-once_example :
    (actor : Users) × (w : SqlWorkflow) × (acting_user reviewer "reviewer" "无权以他人身份执行工单" ready
      ≡ ok actor)
    × (get_workflow 3 (site_of ready) ≡ ok w)
    × MayExecute w actor (site_of ready)
    × (on_correct_time_period 3 none (site_of ready) ≡ ok true)
    × ((execute_post starting root (execute_post starting reviewer ready).1).0
        ≢ ok (message "done"))
execute_post-once_example =
    execute_post-once starting starting reviewer root ready "开始执行，执行结果请到工单详情页查看" "done" refl starts
      refl refl

abbrev engine : SqlWorkflow → Result ReviewSet
engine w = ok (record { warning = false; error = false })

execute_post-runs_example :
    (actor : Users) × (w : SqlWorkflow) × (let q = (execute_post starting reviewer ready).1 in
      let run = execute engine 3 (some actor) (site_of q) in
      (q.tasks ≡ [] ++ execute_job 3 actor ∷ [])
      × (get_workflow 3 (site_of ready) ≡ ok w)
      × (run.0 ≡ engine (with_status workflow_queuing w))
      × (run.1.executed ≡ [] ++ 3 ∷ []))
execute_post-runs_example =
    execute_post-runs engine starting reviewer ready "开始执行，执行结果请到工单详情页查看" refl refl starts
