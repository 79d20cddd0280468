-- ===== src/Archive/Tests.antt =====
-- A job on which the theorems on sql_api/api_archiver.py apply.
use dbshield.Common.{pos, false, ◌≡◌, refl, some, [], ◌∷◌, ok}
use dbshield.Common.Among.{Among}
use dbshield.Const.{WorkflowStatus, waiting, passed, archive, execute_start}
use dbshield.Models.{Users, ArchiveConfig, WorkflowAudit, archive_config}
use dbshield.Audit.Tests.{user, reviewer, audit_at, world}
use dbshield.Audit.State.{get_audit, is_audit_of}
use dbshield.Api.State.{Portal, archive_job, get_archive}
use dbshield.Archive.Review.{
  ArchiveRequest, done, audit_archive, add_archive_task, jobs_of, is_switched_on,
}
use dbshield.Archive.Outcome.{Settled, audit_archive-Settled}
use dbshield.Archive.Rearm.{audit_archive-queued}

-- a job that passed its review, and that a manager has switched off
abbrev job : ArchiveConfig
job = record {
  id = some 3;
  title = "old orders";
  resource_group_id = 1;
  audit_auth_groups = "1,2";
  status = passed;
  state = false;
  user_name = "ann";
  user_display = "Ann";
}

abbrev review : WorkflowStatus → WorkflowAudit
review status = record (audit_at status) { workflow_type = archive }

abbrev portal : ArchiveConfig → WorkflowStatus → Portal
portal a status = record {
  db = record (world status).db { audits = review status ∷ [] };
  workflows = [];
  archives = a ∷ [];
  applies = [];
  privileges = [];
  instances = [];
  next_privilege_id = 1;
  sys_config = record { sys_config = []; rows = [] };
  executed = [];
  schedules = [];
  tasks = [];
}

abbrev stranger : Users
stranger = record (user "eve" false []) { has_perm = λ _. false }

abbrev starting : ArchiveRequest
starting = record { archive_id = some (pos 3); audit_status = some (pos 5); audit_remark = "" }

found : get_archive 3 (portal job passed) ≡ ok job
unfolding get_archive
found = refl

reviewed : get_audit (portal job passed).db.audits (archive_config job) ≡ some (review passed)
unfolding get_audit is_audit_of
reviewed = refl

audit_archive-queued_example :
    ((audit_archive "" starting stranger (portal job passed)).0 ≡ ok done)
    × Among
        (archive_job 3)
        (add_archive_task (3 ∷ []) (audit_archive "" starting stranger (portal job passed)).1).tasks
audit_archive-queued_example =
    audit_archive-queued "" starting stranger (portal job passed) 3 execute_start job
      (record { group_id = 1; group_name = "shop"; is_deleted = false }) (review passed) refl refl
      tt found refl reviewed refl

-- an approval by a reviewer of the first group
abbrev approving : ArchiveRequest
approving = record { archive_id = some (pos 3); audit_status = some (pos 1); audit_remark = "fine" }

audit_archive-Settled_example :
    Settled approving reviewer
      (portal (record job { status = waiting }) waiting)
      (audit_archive "" approving reviewer (portal (record job { status = waiting }) waiting))
audit_archive-Settled_example =
    audit_archive-Settled "" approving reviewer (portal (record job { status = waiting }) waiting)

-- before that request the job was left out
switched_off_test : (add_archive_task (3 ∷ []) (portal job passed)).tasks ≡ []
unfolding add_archive_task jobs_of is_switched_on
switched_off_test = refl
