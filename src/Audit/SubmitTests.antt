-- ===== src/Audit/SubmitTests.antt =====
-- Concrete submissions, and a flow with a group twice: `AuditV2` of sql/utils/workflow_audit.py.
use dbshield.Common.{String, Bool, false, ◌≡◌, refl, none, some, [], ◌∷◌, split_comma, int, ok, err}
use dbshield.Config.{SysConfig}
use dbshield.Const.{sql_review, waiting}
use dbshield.Models.{WorkflowAudit}
use dbshield.Audit.State.{World}
use dbshield.Config
use dbshield.Audit.State.{get_group, save_audit, replace, add_detail, add_log}
use dbshield.Audit.CanOperate.{
  can_operate, check_audit, check_grid, supported_operation_grid, check_actor,
}
use dbshield.Audit.Operate.{
  operate, decide, operate_pass, pass_audit, advance, next_of, record_pass, pass_info,
}
use dbshield.Audit.Passes.{passes}
use dbshield.Common.{split_comma, join_comma, int, audit_exception}
use dbshield.Config.{Value}
use dbshield.Audit.State.{get_audit_info, save_workflow}
use dbshield.Audit.Review.{is_auto_review, is_auto_reject, rejects, count_level}
use dbshield.Audit.Lookup.{
  AuditSetting, generate_audit_setting, find_setting, audit_auth_group_in_db, review_info,
  group_names,
}
use dbshield.Audit.Create.{
  create_audit, submit_with, submission, with_groups, new_audit, start_audit, start_flow,
}
use dbshield.Audit.Tests.{dev, dba}
use dbshield.Audit.Progress.{Waits}
use dbshield.Audit.Nodes.{Names}
use dbshield.Audit.Legacy.{settings, change_settings, settings-change_settings}
use dbshield.Audit.Flow.{Submitted}
use dbshield.Audit.Submit.{create_audit-Submitted, create_audit_twice}
use dbshield.Audit.Repeats.{AtFirst, passes_repeat}
use dbshield.Common.{eq_iff, lookup, ◌≢◌}
use dbshield.Audit.Tests.{root, audit_at, world, two}

-- a submission
abbrev submitted_groups : String
submitted_groups = "1,2"

abbrev fresh : World
fresh = record {
  db = record (world waiting).db {
    audits = [];
    settings =
        record {
          group_id = 1;
          group_name = "shop";
          workflow_type = sql_review;
          audit_auth_groups = submitted_groups;
        }
        ∷ [];
  };
  self = record (world waiting).self { audit = none };
}

abbrev no_match : Value → String → Bool
no_match regex text = false

abbrev by_hand : AuditSetting
by_hand = record { audit_auth_groups = "1" ∷ "2" ∷ []; auto_pass = false; auto_reject = false }

not_found : get_audit_info fresh ≡ (ok none, fresh)
unfolding get_audit_info
not_found = refl

set_up : generate_audit_setting no_match fresh ≡ ok by_hand
unfolding generate_audit_setting find_setting is_auto_review is_auto_reject rejects count_level
    Config.get split_comma lookup
set_up = refl

submits : (create_audit no_match fresh).0 ≡ ok "工单已正常提交"
unfolding create_audit get_audit_info generate_audit_setting find_setting is_auto_review
    is_auto_reject rejects count_level Config.get split_comma submit_with submission with_groups
    new_audit audit_auth_group_in_db save_workflow start_audit start_flow save_audit add_log
    review_info group_names get_group int join_comma lookup
submits = refl

create_audit-Submitted_example : Submitted by_hand (create_audit no_match fresh).1
create_audit-Submitted_example =
    create_audit-Submitted no_match fresh by_hand "工单已正常提交" not_found set_up submits

create_audit_twice_example :
    create_audit no_match (create_audit no_match fresh).1
    ≡ (err (audit_exception "该工单当前状态为待审核，请勿重复提交"), (create_audit no_match fresh).1)
create_audit_twice_example =
    create_audit_twice no_match fresh by_hand "工单已正常提交" not_found set_up submits

-- the nodes 1, 2, 1
abbrev again_at : WorkflowAudit
again_at = record (audit_at waiting) { audit_auth_groups = "1,2,1" }

abbrev again : World
again = record (world waiting) { self = record (world waiting).self { audit = some again_at } }

at_first : AtFirst "1" "2" again_at
unfolding split_comma
at_first = record { nodes = refl; is_waiting = refl; current = refl; next = refl }

both_return : (passes two again).0 ≡ ok tt
unfolding passes operate decide can_operate check_audit check_grid supported_operation_grid
    check_actor get_group int operate_pass pass_audit advance next_of save_audit replace record_pass
    add_detail add_log pass_info split_comma
both_return = refl

one_two : ◌≢◌ {A = String} "1" "2"
one_two e = cc ((eq_iff "1" "2").1 e)

passes_repeat_example : (passes two again).1.self.audit ≡ again.self.audit
passes_repeat_example =
    passes_repeat "1" "2" again_at 7 again root root "fine" "fine too" refl refl at_first one_two
      (λ e. cc) (λ e. cc) both_return

-- the second of the nodes 1, 2
abbrev second_at : WorkflowAudit
second_at = record (audit_at waiting) { current_audit = "2"; next_audit = "-1" }

abbrev half_way : World
half_way = record (world waiting) { self = record (world waiting).self { audit = some second_at } }

at_dba : Waits ("1" ∷ []) "2" [] half_way
unfolding split_comma
at_dba = record {
  row = second_at;
  held = refl;
  key = 7;
  saved = refl;
  at = record { nodes = refl; is_waiting = refl; current = refl; next = refl };
}

passed_dev : Names half_way ("1" ∷ []) (dev ∷ [])
unfolding int
passed_dev = ((refl, refl), tt)

current_dba : Names half_way ("2" ∷ []) (dba ∷ [])
unfolding int
current_dba = ((refl, refl), tt)

changes : (change_settings 1 sql_review "2,1" fresh).0 ≡ ok tt
unfolding change_settings find_setting
changes = refl

settings-change_settings_example :
    settings 1 sql_review (change_settings 1 sql_review "2,1" fresh).1 ≡ some "2,1"
settings-change_settings_example = settings-change_settings 1 sql_review "2,1" fresh changes
