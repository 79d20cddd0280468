-- ===== src/Online/Tests.antt =====
-- Concrete workflows for the theorems on sql/utils/sql_review.py and sql/utils/execute_sql.py.
use dbshield.Common.{◌+◌, ◌≤◌, true, false, ◌≡◌, ◌↔◌, refl, none, some, List, [], ◌∷◌, Result, ok}
use dbshield.Const.{SqlStatus, passed, workflow_review_pass, workflow_queuing, workflow_finish}
use dbshield.Models.{SqlWorkflow}
use dbshield.Audit.Tests.{reviewer, audit_at, sql, dev, dba}
use dbshield.Online.State.{Site, get_workflow, find_workflow, group_ids, user_groups}
use dbshield.Online.Access.{can_execute, can_view, can_rollback, is_executor, sees}
use dbshield.Online.Execute.{ReviewSet, Task}
use dbshield.Online.Effects.{times}
use dbshield.Online.Once.{Event, start, complete, runs, runs-once}
use dbshield.Online.Rights.{MayExecute, can_execute_iff}

abbrev of_status : SqlStatus → SqlWorkflow
of_status status = record sql { status = status; is_backup = true }

abbrev site : SqlStatus → Site
site status = record {
  workflows = of_status status ∷ [];
  audits = audit_at passed ∷ [];
  logs = [];
  groups = dev ∷ dba ∷ [];
  resource_groups = record { group_id = 1; group_name = "shop"; is_deleted = false } ∷ [];
  users = reviewer ∷ [];
  settings = record { sys_config = []; rows = [] };
  now = 100;
  executed = [];
}

abbrev engine : SqlWorkflow → Result ReviewSet
engine w = ok (record { warning = false; error = false })

abbrev task : Task
task = record {
  workflow_id = 3;
  stopped = 120;
  result = some (record { warning = false; error = false });
}

abbrev events : List Event
events = start 3 (some reviewer) ∷ start 3 none ∷ complete task ∷ start 3 none ∷ []

runs-once_example :
    times 3 (runs engine (λ _. true) (λ _. "done") events (site workflow_queuing)).executed
    ≤ times 3 [] + 1
runs-once_example = runs-once engine (λ _. true) (λ _. "done") 3 events (site workflow_queuing)

there : get_workflow 3 (site workflow_review_pass) ≡ ok (of_status workflow_review_pass)
unfolding get_workflow find_workflow
there = refl

may : can_execute reviewer 3 (site workflow_review_pass) ≡ ok true
unfolding can_execute get_workflow find_workflow is_executor group_ids user_groups
may = refl

can_execute_iff_example :
    (can_execute reviewer 3 (site workflow_review_pass) ≡ ok true)
    ↔ MayExecute (of_status workflow_review_pass) reviewer (site workflow_review_pass)
can_execute_iff_example =
    can_execute_iff reviewer 3 (site workflow_review_pass) (of_status workflow_review_pass) there

rolls_back : can_rollback reviewer 3 (site workflow_finish) ≡ ok true
unfolding can_rollback can_view sees get_workflow find_workflow group_ids user_groups
rolls_back = refl
