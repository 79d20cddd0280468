-- ===== src/Api/Actors.antt =====
-- `AuditWorkflow.post` of sql_api/api_workflow.py: who acts on a workflow, and by what step.
use mathlib.Core.Path.{◌≡◌, refl, sym, ap, ◌∙◌, subst}
use dbshield.Common.{
  ℕ, String, Bool, true, false, not, ◌&&◌, Option, none, some, ◌==◌, string_eq, if◌then◌else◌,
  Result, ok, err, reads, lift, exec_parts, Exc,
}
use dbshield.Const.{WorkflowStatus, waiting, passed, rejected, aborted, WorkflowAction}
use dbshield.Models.{
  Users, SqlWorkflow, Workflow, sql_workflow, archive_config, query_apply, WorkflowAudit,
  WorkflowAuditDetail,
}
use dbshield.Audit.State.{World, AuditV2}
use dbshield.Audit.Operate.{operate}
use dbshield.Audit.Permissions.{IsAllowed}
use dbshield.Audit.Steps.{Stepped, operate-Step}
use dbshield.Api.State.{Portal, get_auditor, get_user, invalid, with_world}
use dbshield.Api.Auditor.{get_auditor_lem}
use dbshield.Api.Review.{
  AuditRequest, Answer, message, find_audit, valid, acting_user, action_of, operate_on,
  brought_back, audit_workflow, judge, post, settle_sql, settle_workflow, the_row, is_notified,
  phase_of, conclude,
}

choose_same :
    (names super : Bool) (c : Exc) (found : Result Users) (user u : Users)
    → super ≡ false
    → (if names && not super then err c else if names then found else ok user) ≡ ok u
    → user ≡ u
choose_same true true c found user u e h = cc
choose_same true false c found user u e h = cc
choose_same false super c found user u e h = cc h

-- an ordinary user acts in no other name
pub acting_user-same :
    (user u : Users) (engineer refusal : String) (p : Portal)
    → user.is_superuser ≡ false
    → acting_user user engineer refusal p ≡ ok u
    → user ≡ u
unfolding acting_user
acting_user-same user u engineer refusal p e h =
    choose_same (not (engineer == "") && not (engineer == user.username)) user.is_superuser
      (invalid refusal) (get_user engineer p) user u e h

-- an answer that is no error of the serializer comes from a review that is there
judged :
    (r : AuditRequest) (user : Users) (found : Option WorkflowAudit) (errors : Option String)
    (p : Portal) (text : String)
    → (judge r user found errors p).0 ≡ ok (message text)
    → (a : WorkflowAudit) × (found ≡ some a)
      × (errors ≡ none)
      × (judge r user found errors p ≡ audit_workflow r user a p)
judged r user found (some e) p text h = cc
judged r user none none p text h = cc
judged r user (some a) none p text h = (a, refl, refl, refl)

operated :
    (x : Result (Option WorkflowAuditDetail) × World) (p : Portal) (self : AuditV2)
    → (brought_back x p).0 ≡ ok self
    → (d : Option WorkflowAuditDetail) × (x.0 ≡ ok d)
      × (brought_back x p ≡ (ok x.1.self, with_world p x.1))
operated (ok d, t) p self h = (d, refl, refl)
operated (err c, t) p self h = cc

settle_sql-db :
    (status : WorkflowStatus) (n : ℕ) (w : SqlWorkflow) (p : Portal)
    → (settle_sql status n w p).db ≡ p.db
unfolding settle_sql
settle_sql-db waiting n w p = refl
settle_sql-db passed n w p = refl
settle_sql-db rejected n w p = refl
settle_sql-db aborted n w p = refl

settle_workflow-db :
    (w : Workflow) (a : WorkflowAudit) (n : ℕ) (p : Portal) → (settle_workflow w a n p).1.db ≡ p.db
unfolding settle_workflow
settle_workflow-db (query_apply w) a n p = refl
settle_workflow-db (sql_workflow w) a n p = settle_sql-db a.current_status n w p
settle_workflow-db (archive_config w) a n p = refl

-- what follows the operation writes the rows of the workflow, and those of the review it leaves
pub conclude_parts :
    (r : AuditRequest) (self : AuditV2) (p : Portal) (a : Answer)
    → (conclude r self p).0 ≡ ok a
    → (row : WorkflowAudit) × (the_row self.audit ≡ ok row)
      × ((conclude r self p).1 ≡ (settle_workflow self.workflow row r.workflow_id p).1)
conclude_parts r self p a h =
    let (row, e, f) = exec_parts (lift (the_row self.audit)) _ p h in
    let h1 = sym (ap (λ x. x.0) f) ∙ h in
    let (u, g, k) = exec_parts (settle_workflow self.workflow row r.workflow_id) _ p h1 in
    let h2 = sym (ap (λ x. x.0) k) ∙ h1 in
    let (b, i, j) = exec_parts (reads (is_notified (phase_of r.audit_type))) _ _ h2 in
    (row, e, ap (λ x. x.1) (f ∙ k ∙ j))

conclude-db :
    (r : AuditRequest) (self : AuditV2) (p : Portal) (a : Answer)
    → (conclude r self p).0 ≡ ok a
    → (conclude r self p).1.db ≡ p.db
conclude-db r self p a h =
    let (row, e, f) = conclude_parts r self p a h in
    ap (λ x. x.db) f ∙ settle_workflow-db self.workflow row r.workflow_id p

operate_on_lem :
    (w : World) (action : WorkflowAction) (user : Users) (remark : String) (p : Portal)
    (self : AuditV2)
    → (operate_on w action user remark p).0 ≡ ok self
    → (d : Option WorkflowAuditDetail) × ((operate action user remark w).0 ≡ ok d)
      × (operate_on w action user remark p ≡ (
        ok (operate action user remark w).1.self,
        with_world p (operate action user remark w).1,
      ))
unfolding operate_on
operate_on_lem w action user remark p self h = operated (operate action user remark w) p self h

ok_self : (a b : AuditV2) → ok a ≡ ok b → a ≡ b
ok_self a b h = cc h

-- how a request that was answered with a message went through
pub record Answered (r : AuditRequest) (user : Users) (p : Portal) : Type 0 where
  pub audit : WorkflowAudit
  pub w : World
  pub actor : Users
  pub action : WorkflowAction
  pub detail : Option WorkflowAuditDetail
  pub text : String
  pub found : find_audit r.workflow_type r.workflow_id p ≡ some audit
  pub auditor : get_auditor audit r.workflow_id p ≡ ok w
  pub acts : acting_user user r.engineer "无权以他人身份审核工单" p ≡ ok actor
  pub chosen : action_of r.audit_type actor r.workflow_id w.self.workflow p ≡ ok action
  pub done : (operate action actor r.audit_remark w).0 ≡ ok detail
  pub rest :
      post r user p
      ≡ conclude r
          (operate action actor r.audit_remark w).1.self
          (with_world p (operate action actor r.audit_remark w).1)
  pub ends :
      (conclude r
        (operate action actor r.audit_remark w).1.self
        (with_world p (operate action actor r.audit_remark w).1)).0
      ≡ ok (message text)

pub post_parts :
    (r : AuditRequest) (user : Users) (p : Portal) (text : String)
    → (post r user p).0 ≡ ok (message text)
    → Answered r user p
unfolding post audit_workflow
post_parts r user p text h =
    let found = find_audit r.workflow_type r.workflow_id p in
    let (audit, e, errors, f) = judged r user found (valid r p found) p text h in
    let h0 = sym (ap (λ x. x.0) f) ∙ h in
    let (w, g, f1) = exec_parts (reads (get_auditor audit r.workflow_id)) _ p h0 in
    let h1 = sym (ap (λ x. x.0) f1) ∙ h0 in
    let (u, a, f2) = exec_parts (reads (acting_user user r.engineer "无权以他人身份审核工单")) _ p h1 in
    let h2 = sym (ap (λ x. x.0) f2) ∙ h1 in
    let (action, c, f3) =
      exec_parts (reads (action_of r.audit_type u r.workflow_id w.self.workflow)) _ p h2 in
    let h3 = sym (ap (λ x. x.0) f3) ∙ h2 in
    let (self, o, f4) = exec_parts (operate_on w action u r.audit_remark) (conclude r) p h3 in
    let (d, k, l) = operate_on_lem w action u r.audit_remark p self o in
    let same = ok_self _ _ (sym o ∙ ap (λ x. x.0) l) in
    let last =
      f
      ∙ f1
      ∙ f2
      ∙ f3
      ∙ f4
      ∙ ap (λ q. conclude r self q.1) l
      ∙ ap (λ v. conclude r v (with_world p (operate action u r.audit_remark w).1)) same in
    record {
      audit = audit;
      w = w;
      actor = u;
      action = action;
      detail = d;
      text = text;
      found = e;
      auditor = g;
      acts = a;
      chosen = c;
      done = k;
      rest = last;
      ends = sym (ap (λ x. x.0) last) ∙ h;
    }

-- Where `AuditWorkflow.post` answers a user who is no superuser with a message: there was a review of
-- that type and workflow, the step taken is one that the review's rules allow to that very user,
-- whatever name the request gives, it took the status of the review along Step, and the rows of the
-- reviews are left as the operation left them.
pub post-IsAllowed :
    (r : AuditRequest) (user : Users) (p : Portal) (text : String)
    → user.is_superuser ≡ false
    → (post r user p).0 ≡ ok (message text)
    → (audit : WorkflowAudit) × (action : WorkflowAction) × (w : World) × (find_audit
          r.workflow_type r.workflow_id p
        ≡ some audit)
      × (get_auditor audit r.workflow_id p ≡ ok w)
      × IsAllowed audit user w action
      × Stepped audit.current_status action (operate action user r.audit_remark w).1
      × ((post r user p).1.db ≡ (operate action user r.audit_remark w).1.db)
post-IsAllowed r user p text plain h =
    let z = post_parts r user p text h in
    let same = acting_user-same user z.actor r.engineer "无权以他人身份审核工单" p plain z.acts in
    let (held, row, same_db) = get_auditor_lem z.audit r.workflow_id p z.w z.auditor in
    let (allowed, stepped) =
      operate-Step z.action z.actor r.audit_remark z.w z.audit z.detail held z.done in
    let t = (operate z.action z.actor r.audit_remark z.w).1 in
    let db =
      ap (λ x. x.1.db) z.rest ∙ conclude-db r t.self (with_world p t) (message z.text) z.ends in
    (
      z.audit,
      z.action,
      z.w,
      z.found,
      z.auditor,
      subst (λ v. IsAllowed z.audit v z.w z.action) (sym same) allowed,
      subst (λ v. Stepped z.audit.current_status z.action (operate z.action v r.audit_remark z.w).1)
          (sym same) stepped,
      subst (λ v. (post r user p).1.db ≡ (operate z.action v r.audit_remark z.w).1.db) (sym same)
          db,
    )
