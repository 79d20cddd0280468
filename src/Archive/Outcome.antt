-- ===== src/Archive/Outcome.antt =====
-- `ArchiveAudit.post` of sql_api/api_archiver.py: what a decision on an archive job leaves.
use mathlib.Core.Path.{◌≡◌, refl, sym, ap, ◌∙◌, subst}
use mathlib.Core.Option.{some-injective}
use dbshield.Common.{nat_eq}
use dbshield.Common.Among.{find-Among, Among-find}
use dbshield.Common.Checks
use dbshield.Common.Checks.{or_raise}
use dbshield.Common.{
  ℕ, ℤ, pos, negsuc, String, true, Option, none, some, ◌==◌, string_eq, if◌then◌else◌, find, Result,
  ok, err, Exc, ◌>>=◌, ◌>>◌, modify, reads, exec_parts, continue, audit_exception, does_not_exist,
  attribute_error,
}
use dbshield.Const.{sql_review, archive, passed, status_eq, WorkflowAction}
use dbshield.Models.{
  Users, ResourceGroup, ArchiveConfig, archive_config, WorkflowAudit, WorkflowAuditDetail,
}
use dbshield.Audit.State.{World, get_audit, get_audit_info}
use dbshield.Audit.Init.{of_group, post_init, with_resource_group}
use dbshield.Audit.CanOperate.{can_operate, check_audit}
use dbshield.Audit.Operate.{operate, decide}
use dbshield.Audit.Permissions.{IsAllowed}
use dbshield.Audit.Steps.{Step, operate-Step}
use dbshield.Api.State.{Portal, get_archive, update_archive, with_world, made}
use dbshield.Archive.Review.{
  ArchiveRequest, ArchiveReply, done, refused_reply, resource_group_of, auditor_for, after_step,
  in_transaction, audit_found, audit_numbered, audit_given, audit_archive,
}

pub or_raise_ok :
    {A : Type 0} (x : Option A) (a : A) → or_raise x does_not_exist ≡ ok a → x ≡ some a
or_raise_ok none a h = cc h
or_raise_ok (some b) a h = cc h

-- the object that decides on a job: the settings are those in force, the group is found by its name
abbrev pub world_of : ArchiveConfig → ResourceGroup → ResourceGroup → Portal → World
world_of a g found p = record {
  db = p.db;
  self = record {
    workflow = archive_config a;
    sys_config = p.sys_config;
    audit = get_audit p.db.audits (archive_config a);
    workflow_type = archive;
    resource_group = g.group_name;
    resource_group_id = found.group_id;
  };
}

pub auditor_for_world :
    (a : ArchiveConfig) (g found : ResourceGroup) (p : Portal)
    → find (λ x. x.group_name == g.group_name) p.db.resource_groups ≡ some found
    → auditor_for a g p ≡ ok (world_of a g found p)
unfolding auditor_for post_init with_resource_group get_audit_info
auditor_for_world a g found p e =
    ap
      (λ x. made (
        (do
          b ← (λ (w : World). (
            of_group g.group_name x (record {
              workflow = archive_config a;
              sys_config = p.sys_config;
              audit = none;
              workflow_type = archive;
              resource_group = g.group_name;
              resource_group_id = 0;
            }),
            w,
          ))
          modify (λ w. record w { self = b })
          get_audit_info)
          (record {
            db = p.db;
            self = record {
              workflow = archive_config a;
              sys_config = p.sys_config;
              audit = none;
              workflow_type = sql_review;
              resource_group = g.group_name;
              resource_group_id = 0;
            };
          })))
      e

-- the group of the job is found by its name too
pub group_named :
    (a : ArchiveConfig) (g : ResourceGroup) (p : Portal)
    → resource_group_of a p ≡ ok g
    → (found : ResourceGroup) × (find (λ x. x.group_name == g.group_name) p.db.resource_groups
        ≡ some found)
group_named a g p h =
    let there =
      find-Among (λ x. x.group_id == a.resource_group_id) p.db.resource_groups g
        (or_raise_ok (find (λ x. x.group_id == a.resource_group_id) p.db.resource_groups) g h) in
    Among-find (λ x. x.group_name == g.group_name) g p.db.resource_groups there.0
      ((string_eq.same_iff g.group_name g.group_name).1 refl)

-- How a request on a job was settled: it was answered without `ok` and left the rows and tasks as they
-- were, or its step was allowed on the review of the job.
pub data Settled (r : ArchiveRequest) (user : Users) (p : Portal)
    : Result ArchiveReply × Portal → Type 0 where
  refused_with : (msg : String) → Settled r user p (ok (refused_reply msg), p)
  raised : (c : Exc) → Settled r user p (err c, p)
  stepped :
      (n : ℕ) (action : WorkflowAction) (a : ArchiveConfig) (g found : ResourceGroup)
      (audit after : WorkflowAudit)
      → r.archive_id ≡ some (pos n)
      → get_archive n p ≡ ok a
      → find (λ x. x.group_id == a.resource_group_id) p.db.resource_groups ≡ some g
      → find (λ x. x.group_name == g.group_name) p.db.resource_groups ≡ some found
      → get_audit p.db.audits (archive_config a) ≡ some audit
      → IsAllowed audit user (world_of a g found p) action
      → (operate action user r.audit_remark (world_of a g found p)).1.self.audit ≡ some after
      → Step audit.current_status action after.current_status
      → Settled r user p (
        ok done,
        record (with_world p (operate action user r.audit_remark (world_of a g found p)).1) {
          archives =
              update_archive n
                (λ x. record x {
                  status = after.current_status;
                  state = if after.current_status == passed then true else x.state;
                })
                p.archives;
        },
      )

-- without a review every step raises
operate_unreviewed :
    (action : WorkflowAction) (user : Users) (remark : String) (w : World)
    (d : Option WorkflowAuditDetail)
    → w.self.audit ≡ none
    → (operate action user remark w).0 ≡ ok d
    → ⊥
unfolding operate can_operate
operate_unreviewed action user remark w d e h =
    let (u, f, g) =
      exec_parts (reads (can_operate action user)) (λ _. decide action user remark) w h in
    cc (
      sym (
        ap
          (λ o.
            Checks.◌>>=◌ (or_raise o (audit_exception "给定工单未绑定审批信息, 无法进行操作"))
              (check_audit action user w))
          e)
      ∙ f)

module _ (r : ArchiveRequest) (user : Users) (p : Portal) (n : ℕ) (action : WorkflowAction)
    (a : ArchiveConfig) (g named : ResourceGroup) (numbered : r.archive_id ≡ some (pos n))
    (found : get_archive n p ≡ ok a)
    (group : find (λ x. x.group_id == a.resource_group_id) p.db.resource_groups ≡ some g)
    (name : find (λ x. x.group_name == g.group_name) p.db.resource_groups ≡ some named) where
  after_step-Settled :
      (d : Option WorkflowAuditDetail) (audit after : Option WorkflowAudit)
      → get_audit p.db.audits (archive_config a) ≡ audit
      → (operate action user r.audit_remark (world_of a g named p)).0 ≡ ok d
      → (operate action user r.audit_remark (world_of a g named p)).1.self.audit ≡ after
      → Settled r user p
          (after_step after (operate action user r.audit_remark (world_of a g named p)).1 n p)
  after_step-Settled d audit none h o e = raised attribute_error
  after_step-Settled d none (some after) h o e =
      absurd (operate_unreviewed action user r.audit_remark (world_of a g named p) d h o)
  after_step-Settled d (some audit) (some after) h o e =
      let (allowed, (b, k, step)) =
        operate-Step action user r.audit_remark (world_of a g named p) audit d h o in
      stepped n action a g named audit after numbered found group name h allowed e (
        subst (λ (v : WorkflowAudit). Step audit.current_status action v.current_status)
          (some-injective b after (sym k ∙ e)) step)

  transaction-Settled :
      (x : Result (Option WorkflowAuditDetail))
      → (operate action user r.audit_remark (world_of a g named p)).0 ≡ x
      → Settled r user p
          (in_transaction (x, (operate action user r.audit_remark (world_of a g named p)).1) n p)
  transaction-Settled (err (audit_exception m)) o = refused_with _
  transaction-Settled (err c) o = raised c
  transaction-Settled (ok d) o =
      after_step-Settled d (get_audit p.db.audits (archive_config a))
        (operate action user r.audit_remark (world_of a g named p)).1.self.audit refl o refl

group_Settled :
    (r : ArchiveRequest) (user : Users) (p : Portal) (n : ℕ) (action : WorkflowAction)
    (a : ArchiveConfig) (x : Result ResourceGroup)
    → r.archive_id ≡ some (pos n)
    → get_archive n p ≡ ok a
    → resource_group_of a p ≡ x
    → Settled r user p (
        continue x
          (λ g.
            reads (auditor_for a g)
            >>= (λ w. in_transaction (operate action user r.audit_remark w) n))
          p)
group_Settled r user p n action a (err c) i e h = raised c
group_Settled r user p n action a (ok g) i e h =
    let (named, name) = group_named a g p h in
    let group =
      or_raise_ok (find (λ x. x.group_id == a.resource_group_id) p.db.resource_groups) g h in
    subst
      (λ x.
        Settled r user p
          (continue x (λ w. in_transaction (operate action user r.audit_remark w) n) p))
      (sym (auditor_for_world a g named p name))
      (transaction-Settled r user p n action a g named i e group name
        (operate action user r.audit_remark (world_of a g named p)).0 refl)

-- the chain on a job that is found, up to its transaction
audit_found-Settled :
    (r : ArchiveRequest) (user : Users) (p : Portal) (n : ℕ) (action : WorkflowAction)
    (x : Result ArchiveConfig)
    → r.archive_id ≡ some (pos n)
    → get_archive n p ≡ x
    → Settled r user p (audit_found r user action n x p)
audit_found-Settled r user p n action (err does_not_exist) i e = refused_with _
audit_found-Settled r user p n action (err c) i e = raised c
audit_found-Settled r user p n action (ok a) i e =
    group_Settled r user p n action a (resource_group_of a p) i e refl

numbered_Settled :
    (r : ArchiveRequest) (user : Users) (p : Portal) (action : WorkflowAction) (id : ℤ)
    → r.archive_id ≡ some id
    → Settled r user p (audit_numbered r user action id p)
numbered_Settled r user p action (pos n) i =
    audit_found-Settled r user p n action (get_archive n p) i refl
numbered_Settled r user p action (negsuc n) i = refused_with _

given_Settled :
    (text : String) (r : ArchiveRequest) (user : Users) (p : Portal) (id : Option ℤ)
    (action : Option WorkflowAction)
    → r.archive_id ≡ id
    → Settled r user p (audit_given text r user id action p)
given_Settled text r user p (some id) (some action) i = numbered_Settled r user p action id i
given_Settled text r user p (some id) none i = refused_with _
given_Settled text r user p none action i = refused_with _

-- Whatever the request: `ArchiveAudit.post` raises or answers without `ok`, and then no row and no task
-- is changed; or the job has a review, whose rules, with the settings in force and the job's resource
-- group, allow the step to the user, the step took the review's status along Step, and the job has this
-- status, and is switched on where the review has passed.
pub audit_archive-Settled :
    (text : String) (r : ArchiveRequest) (user : Users) (p : Portal)
    → Settled r user p (audit_archive text r user p)
unfolding audit_archive
audit_archive-Settled text r user p = given_Settled text r user p r.archive_id _ refl
