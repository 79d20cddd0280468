-- ===== src/Api/Cancel.antt =====
-- `AuditWorkflow.post` of sql_api/api_workflow.py with the type `cancel`: the workflows that have no
-- field `engineer`.
use mathlib.Core.Path.{◌≡◌, refl, sym, ap, ◌∙◌, subst}
use mathlib.Core.Logic.{◌≢◌, ◌⊎◌, inl, inr}
use dbshield.Common.{
  ℕ, String, Bool, true, false, ◌&&◌, Option, none, some, ◌==◌, string_eq, Exec, Result, ok, err,
  continue, attribute_error,
}
use dbshield.Common.Checks
use dbshield.Common.Checks.{chain_parts}
use dbshield.Common.Among.{find-Among}
use dbshield.Const.{WorkflowType, query, archive, type_eq}
use dbshield.Models.{Users, Workflow, archive_config, query_apply, WorkflowAudit}
use dbshield.Audit.State.{is_audit_of}
use dbshield.Api.State.{Portal, get_auditor, get_apply_row, get_archive, workflow_of}
use dbshield.Api.Auditor.{get_auditor_lem}
use dbshield.Api.Review.{
  AuditRequest, Answer, message, find_audit, valid, acting_user, action_of, cancel_action,
  engineer_of, audit_workflow, judge, post,
}

-- no message is the answer, and nothing is changed
abbrev pub Fails : Result Answer × Portal → Portal → Type 0
Fails x p = ((text : String) → x.0 ≢ ok (message text)) × (x.1 ≡ p)

Fails-continue :
    {A : Type 0} (x : Result A) (f : A → Exec Portal Answer) (p : Portal)
    → ((a : A) → x ≡ ok a → Fails (f a p) p)
    → Fails (continue x f p) p
Fails-continue (ok a) f p h = h a refl
Fails-continue (err c) f p h = ((λ text e. cc e), refl)

abbrev pub IsOther : WorkflowType → Type 0
IsOther t = (t ≡ query) ⊎ (t ≡ archive)

-- their workflows have no engineer
engineer_of_query :
    (n : ℕ) (p : Portal) (w : Workflow)
    → workflow_of query n p ≡ ok w
    → engineer_of w ≡ err attribute_error
unfolding workflow_of engineer_of
engineer_of_query n p w h =
    let (a, e, f) = chain_parts (get_apply_row n p) (λ x. ok (query_apply x)) h in
    let g : query_apply a ≡ w = cc f in subst (λ x. engineer_of x ≡ err attribute_error) g refl

engineer_of_archive :
    (n : ℕ) (p : Portal) (w : Workflow)
    → workflow_of archive n p ≡ ok w
    → engineer_of w ≡ err attribute_error
unfolding workflow_of engineer_of
engineer_of_archive n p w h =
    let (a, e, f) = chain_parts (get_archive n p) (λ x. ok (archive_config x)) h in
    let g : archive_config a ≡ w = cc f in subst (λ x. engineer_of x ≡ err attribute_error) g refl

engineer_of_other :
    (t : WorkflowType) (n : ℕ) (p : Portal) (w : Workflow)
    → IsOther t
    → workflow_of t n p ≡ ok w
    → engineer_of w ≡ err attribute_error
engineer_of_other t n p w (inl e) h =
    engineer_of_query n p w (ap (λ x. workflow_of x n p) (sym e) ∙ h)
engineer_of_other t n p w (inr e) h =
    engineer_of_archive n p w (ap (λ x. workflow_of x n p) (sym e) ∙ h)

action_of_cancel :
    (user : Users) (n : ℕ) (w : Workflow) (p : Portal)
    → engineer_of w ≡ err attribute_error
    → action_of "cancel" user n w p ≡ err attribute_error
unfolding action_of
action_of_cancel user n w p e =
    ap (λ x. Checks.◌>>=◌ x (λ engineer. cancel_action user n engineer p)) e

cancel-Fails :
    (r : AuditRequest) (user : Users) (a : WorkflowAudit) (p : Portal)
    → r.audit_type ≡ "cancel"
    → IsOther a.workflow_type
    → Fails (audit_workflow r user a p) p
unfolding audit_workflow
cancel-Fails r user a p c o = Fails-continue (get_auditor a r.workflow_id p) _ p (λ w g.
    Fails-continue (acting_user user r.engineer "无权以他人身份审核工单" p) _ p (λ u h.
      Fails-continue (action_of r.audit_type u r.workflow_id w.self.workflow p) _ p (λ action k.
        let (held, row, same_db) = get_auditor_lem a r.workflow_id p w g in
        let f = engineer_of_other a.workflow_type r.workflow_id p w.self.workflow o row in
        cc (
          ap (λ t. action_of t u r.workflow_id w.self.workflow p) c,
          action_of_cancel u r.workflow_id w.self.workflow p f,
          k,
        ))))

first_of : (a b : Bool) → a && b ≡ true → a ≡ true
first_of true b e = refl
first_of false b e = cc

pub find_audit-type :
    (t : WorkflowType) (n : ℕ) (p : Portal) (a : WorkflowAudit)
    → find_audit t n p ≡ some a
    → a.workflow_type ≡ t
unfolding find_audit is_audit_of
find_audit-type t n p a h =
    let (m, e) = find-Among (is_audit_of t (some n)) p.db.audits a h in
    (type_eq.same_iff a.workflow_type t).0 (first_of (a.workflow_type == t) _ e)

judge-Fails :
    (r : AuditRequest) (user : Users) (p : Portal)
    → r.audit_type ≡ "cancel"
    → IsOther r.workflow_type
    → (found : Option WorkflowAudit) → find_audit r.workflow_type r.workflow_id p ≡ found
    → (errors : Option String) → Fails (judge r user found errors p) p
judge-Fails r user p c o found e (some errors) = ((λ text h. cc h), refl)
judge-Fails r user p c o none e none = ((λ text h. cc h), refl)
judge-Fails r user p c o (some a) e none =
    cancel-Fails r user a p c
      (subst IsOther (sym (find_audit-type r.workflow_type r.workflow_id p a e)) o)

-- A request to cancel a request for privileges or an archive job is answered with no message by
-- `AuditWorkflow.post`, whoever sends it, and changes nothing.
pub post_cancel :
    (r : AuditRequest) (user : Users) (p : Portal)
    → r.audit_type ≡ "cancel"
    → (r.workflow_type ≡ query) ⊎ (r.workflow_type ≡ archive)
    → ((text : String) → (post r user p).0 ≢ ok (message text)) × ((post r user p).1 ≡ p)
unfolding post
post_cancel r user p c o =
    judge-Fails r user p c o (find_audit r.workflow_type r.workflow_id p) refl
      (valid r p (find_audit r.workflow_type r.workflow_id p))
