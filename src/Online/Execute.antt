-- ===== src/Online/Execute.antt =====
-- `execute` and `execute_callback` of sql/utils/execute_sql.py.
use dbshield.Common.{
  ℕ, String, Bool, not, ◌||◌, Option, none, some, List, [], ◌∷◌, ◌++◌, ◌==◌, ◌⧺◌, contains,
  if◌then◌else◌, Exec, Result, pure, lift, reads, modify, atomic, exception, attribute_error, ◌>>=◌,
  ◌>>◌,
}
use dbshield.Common.Checks.{or_raise, raise_if}
use dbshield.Const.{
  sql_review, SqlStatus, workflow_finish, workflow_queuing, workflow_timingtask, workflow_executing,
  workflow_exception, sql_status_eq,
}
use dbshield.Models.{Users, SqlWorkflow, WorkflowLog}
use dbshield.Online.State.{Site, get_workflow, update_workflow, detail_by_workflow_id, add_log}

abbrev pub startable : List SqlStatus
startable = workflow_queuing ∷ workflow_timingtask ∷ []

abbrev pub with_status : SqlStatus → SqlWorkflow → SqlWorkflow
with_status status w = record w { status = status }

-- the transaction: the row is locked, tested and marked
unfoldable pub mark_executing : ℕ → Exec Site SqlWorkflow
mark_executing n = atomic (do
  workflow_detail ← reads (get_workflow n)
  lift (raise_if (not (contains startable workflow_detail.status)) (exception "工单状态不正确，禁止执行！"))
  modify
      (λ s. record s { workflows = update_workflow n (with_status workflow_executing) s.workflows })
  pure workflow_detail)

abbrev pub audit_id_of : ℕ → Exec Site (Option ℕ)
audit_id_of n = do
  audit ← reads (λ s. or_raise (detail_by_workflow_id n sql_review s) attribute_error)
  pure audit.audit_id

abbrev pub start_log : Option Users → Option ℕ → WorkflowLog
start_log (some user) id = record {
  audit_id = id;
  operation_type = 5;
  operation_type_desc = "执行工单";
  operation_info = "工单开始执行";
  operator = user.username;
  operator_display = user.display;
}
start_log none id = record {
  audit_id = id;
  operation_type = 5;
  operation_type_desc = "执行工单";
  operation_info = "系统定时执行工单";
  operator = "";
  operator_display = "系统";
}

-- the result of the engine, as far as the callback looks at it
pub record ReviewSet : Type 0 where
  pub warning : Bool
  pub error : Bool

-- django-q's task: `result` is none where it did not succeed
pub record Task : Type 0 where
  pub workflow_id : ℕ
  pub stopped : ℕ
  pub result : Option ReviewSet

-- `engine` is the engine of the instance, or the export of the rows: code that works on other servers
module _ (engine : SqlWorkflow → Result ReviewSet) where
  unfoldable pub run_engine : SqlWorkflow → ℕ → Exec Site ReviewSet
  run_engine w n s = (engine w, record s { executed = s.executed ++ n ∷ [] })

  unfoldable pub execute : ℕ → Option Users → Exec Site ReviewSet
  execute n user = do
    workflow_detail ← mark_executing n
    audit_id ← audit_id_of n
    add_log (start_log user audit_id)
    run_engine workflow_detail n

unfoldable pub final_status : Option ReviewSet → SqlStatus
final_status none = workflow_exception
final_status (some r) = if r.warning || r.error then workflow_exception else workflow_finish

-- `savable task`: the result has a JSON form and is saved. `status_display` is Django's label.
module _ (savable : Task → Bool) (status_display : SqlStatus → String) where
  unfoldable pub finish : Task → SqlWorkflow → SqlWorkflow
  finish task w = record w {
    finish_time = some task.stopped;
    status = if savable task then final_status task.result else workflow_exception;
  }

  abbrev pub end_log : SqlStatus → Option ℕ → WorkflowLog
  end_log status id = record {
    audit_id = id;
    operation_type = 6;
    operation_type_desc = "执行结束";
    operation_info = "执行结果：" ⧺ status_display status;
    operator = "";
    operator_display = "系统";
  }

  unfoldable pub execute_callback : Task → Exec Site (Unit {0})
  execute_callback task = do
    workflow ← reads (get_workflow task.workflow_id)
    lift (raise_if (not (workflow.status == workflow_executing)) (exception "工单状态不正确，禁止重复更新执行结果！"))
    modify
        (λ s. record s { workflows = update_workflow task.workflow_id (finish task) s.workflows })
    audit_id ← audit_id_of task.workflow_id
    add_log (end_log (final_status task.result) audit_id)
