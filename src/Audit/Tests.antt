-- ===== src/Audit/Tests.antt =====
-- Concrete reviews for the theorems on `AuditV2` of sql/utils/workflow_audit.py.
use dbshield.Common.{
  inr, arith, eq_iff, String, Bool, true, false, ◌≡◌, refl, inl, Option, none, some, List, [], ◌∷◌,
  split_comma, int, pos, ok, err, Exc,
}
use dbshield.Config.{SysConfig}
use dbshield.Const.{
  sql_review, WorkflowStatus, waiting, rejected, pass, reject, workflow_manreviewing,
}
use dbshield.Models.{Users, Group, WorkflowAudit, WorkflowAuditDetail, SqlWorkflow, sql_workflow}
use dbshield.Audit.State.{World}
use dbshield.Config
use dbshield.Audit.State.{
  get_group, auth_group_users, is_member, save_audit, replace, add_detail, add_log,
}
use dbshield.Audit.CanOperate.{
  can_operate, check_audit, check_grid, supported_operation_grid, check_actor, check_reviewer,
  check_node, need_user_permission,
}
use dbshield.Audit.Operate.{
  operate, decide, operate_pass, pass_audit, advance, next_of, record_pass, pass_info,
  operate_reject, record_reject,
}
use mathlib.Core.Path.{sym, subst}
use dbshield.Audit.Permissions.{IsAllowed, pass_by, MayReview, InNode, can_operate-IsAllowed}
use dbshield.Audit.Complete.{Staffed, can_operate_complete}
use dbshield.Audit.Chain.{Distinct}
use dbshield.Audit.Passes.{Decision, passes}
use dbshield.Audit.Progress.{Waits, Reached, passes-Reached}
use dbshield.Audit.Ends.{Ended, passes-Ended}
use dbshield.Audit.Steps.{Step, operate-Step, operate_closed}

abbrev pub dev : Group
dev = record { id = 1; name = "dev" }

abbrev pub dba : Group
dba = record { id = 2; name = "dba" }

abbrev pub user : String → Bool → List Group → Users
user name super groups = record {
  id = 1;
  username = name;
  display = name;
  is_superuser = super;
  is_active = true;
  groups = groups;
  resource_group = 1 ∷ [];
  has_perm = λ _. true;
}

abbrev pub root : Users
root = user "root" true []

abbrev pub reviewer : Users
reviewer = user "reviewer" false (dev ∷ dba ∷ [])

abbrev pub audit_at : WorkflowStatus → WorkflowAudit
audit_at status = record {
  audit_id = some 7;
  group_id = 1;
  group_name = "shop";
  workflow_id = some 3;
  workflow_type = sql_review;
  workflow_title = "add a column";
  audit_auth_groups = "1,2";
  current_audit = "1";
  next_audit = "2";
  current_status = status;
  create_user = "ann";
  create_user_display = "Ann";
}

abbrev pub sql : SqlWorkflow
sql = record {
  id = some 3;
  workflow_name = "add a column";
  group_id = 1;
  group_name = "shop";
  db_type = "mysql";
  instance_tag = [];
  syntax_type = 1;
  is_backup = false;
  engineer = "ann";
  engineer_display = "Ann";
  status = workflow_manreviewing;
  audit_auth_groups = "1,2";
  run_date_start = none;
  run_date_end = none;
  finish_time = none;
  is_offline_export = false;
  review_content = none;
}

abbrev pub world : WorkflowStatus → World
world status = record {
  db = record {
    audits = audit_at status ∷ [];
    details = [];
    logs = [];
    settings = [];
    groups = dev ∷ dba ∷ [];
    resource_groups = record { group_id = 1; group_name = "shop"; is_deleted = false } ∷ [];
    users = reviewer ∷ [];
    next_audit_id = 8;
    next_workflow_id = 4;
    now = 100;
  };
  self = record {
    workflow = sql_workflow sql;
    sys_config = record { sys_config = []; rows = [] };
    audit = some (audit_at status);
    workflow_type = sql_review;
    resource_group = "shop";
    resource_group_id = 1;
  };
}

abbrev pub two : List Decision
two = (root, "fine") ∷ (root, "fine too") ∷ []

at_dev : Waits [] "1" ("2" ∷ []) (world waiting)
unfolding split_comma
at_dev = record {
  row = audit_at waiting;
  held = refl;
  key = 7;
  saved = refl;
  at = record { nodes = refl; is_waiting = refl; current = refl; next = refl };
}

distinct : Distinct ("1" ∷ "2" ∷ [])
distinct = (refl, (λ e. cc), (refl, (λ e. cc), tt))

numbers : (int "2" ≡ some (pos 2))
unfolding int
numbers = refl

passes-Ended_example :
    Ended 2 (passes two (world waiting)).0 (passes two (world waiting)).1 (world waiting)
passes-Ended_example =
    passes-Ended [] "1" ("2" ∷ []) two (world waiting) at_dev distinct ((2, numbers), tt)
      (refl, (refl, tt)) refl

abbrev one : List Decision
one = (reviewer, "fine") ∷ []

one_returns : (passes one (world waiting)).0 ≡ ok tt
unfolding passes operate decide can_operate check_audit check_grid supported_operation_grid
    check_actor check_reviewer check_node need_user_permission get_group auth_group_users is_member
    Config.get int operate_pass pass_audit advance next_of save_audit replace record_pass add_detail
    add_log pass_info split_comma
one_returns = refl

passes-Reached_example : Reached [] "1" ("2" ∷ []) one (passes one (world waiting)).1
passes-Reached_example =
    passes-Reached [] "1" ("2" ∷ []) one (world waiting) at_dev distinct one_returns

-- the steps of one review
allowed : can_operate reject reviewer (world waiting) ≡ ok tt
unfolding can_operate check_audit check_grid supported_operation_grid check_actor check_reviewer
    check_node need_user_permission get_group auth_group_users is_member Config.get int
allowed = refl

can_operate-IsAllowed_example : IsAllowed (audit_at waiting) reviewer (world waiting) reject
can_operate-IsAllowed_example =
    can_operate-IsAllowed reject reviewer (world waiting) (audit_at waiting) refl allowed

-- a reviewer of the group who is in no resource group, beside one who is in that of the workflow
abbrev outsider : Users
outsider = record (user "outsider" false (dev ∷ [])) { resource_group = [] }

abbrev staffed_world : World
staffed_world = record (world waiting) {
  db = record (world waiting).db { users = outsider ∷ reviewer ∷ [] };
}

group_there : get_group "1" staffed_world ≡ ok dev
unfolding get_group int
group_there = refl

staffed : Staffed (audit_at waiting) staffed_world
staffed = record {
  g = dev;
  node = group_there;
  resource_group = refl;
  member = reviewer;
  there = inr (inl refl);
  active = refl;
  related = refl;
  reviews = refl;
}

outsider-MayReview : MayReview (audit_at waiting) outsider staffed_world
outsider-MayReview = record {
  not_own = inl (ground (arith, eq_iff "outsider" "ann"));
  permitted = refl;
  in_node = subst (λ r. InNode r outsider.groups) (sym group_there) refl;
}

can_operate_complete_example : can_operate pass outsider staffed_world ≡ ok tt
can_operate_complete_example =
    can_operate_complete pass outsider staffed_world (audit_at waiting) refl staffed
      (pass_by refl (inr outsider-MayReview))

abbrev turned_down : Option WorkflowAuditDetail
turned_down = some (record {
  audit_id = some 7;
  audit_user = "reviewer";
  audit_status = rejected;
  audit_time = 100;
  remark = "no";
})

rejects_returns : (operate reject reviewer "no" (world waiting)).0 ≡ ok turned_down
unfolding operate decide can_operate check_audit check_grid supported_operation_grid check_actor
    check_reviewer check_node need_user_permission get_group auth_group_users is_member Config.get
    int operate_reject save_audit replace record_reject add_detail add_log
rejects_returns = refl

operate-Step_example :
    IsAllowed (audit_at waiting) reviewer (world waiting) reject
    × ((b : WorkflowAudit) × ((operate reject reviewer "no" (world waiting)).1.self.audit ≡ some b)
        × Step waiting reject b.current_status)
operate-Step_example =
    operate-Step reject reviewer "no" (world waiting) (audit_at waiting) turned_down refl
      rejects_returns

operate_closed_example :
    (c : Exc) × (operate pass root "fine" (world rejected) ≡ (err c, world rejected))
operate_closed_example =
    operate_closed pass root "fine" (world rejected) (audit_at rejected) refl (inl refl)
