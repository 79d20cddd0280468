-- ===== src/Audit/Keeps.antt =====
-- `operate` of sql/utils/workflow_audit.py leaves the workflow of the object as it is.
use mathlib.Core.Path.{◌≡◌, refl, ap, ◌∙◌}
use dbshield.Common.{
  ℕ, String, Bool, true, false, Option, none, some, ◌==◌, string_eq, any, Exec, Result, ok, pure,
  ◌>>=◌, ◌>>◌, if◌then◌else◌, split_comma, index, value_error,
}
use dbshield.Common.Checks.{or_raise}
use dbshield.Common.Returns.{Returns, Returns-if, Returns-bind, Returns-lift}
use dbshield.Const.{
  waiting, rejected, aborted, passed, WorkflowAction, submit, pass, reject, abort, execute_set_time,
  execute_start, execute_end,
}
use dbshield.Models.{Users, WorkflowAudit, WorkflowAuditDetail, Workflow}
use dbshield.Audit.State.{World, save_as, save_audit, is_audit_of}
use dbshield.Audit.Lookup.{no_one}
use dbshield.Audit.CanOperate.{can_operate}
use dbshield.Audit.Operate.{
  the_audit, next_of, advance, record_pass, pass_audit, operate_pass, record_reject, operate_reject,
  record_abort, operate_abort, decide, operate,
}
use dbshield.Audit.Passes.{record_pass-self}
use dbshield.Audit.Outcomes.{record_reject-self, record_abort-self}

-- a method that, where it returns, leaves the object with the workflow `w`
abbrev Keeps : {A : Type 0} → Exec World A → World → Workflow → Type 0
Keeps m s w = Returns m s (λ _ t. t.self.workflow ≡ w)

save_new_lem :
    (b : Bool) (x y : Result (Unit {0}) × World) (w : Workflow)
    → x.1.self.workflow ≡ w
    → y.1.self.workflow ≡ w
    → (if b then x else y).1.self.workflow ≡ w
save_new_lem true x y w p q = p
save_new_lem false x y w p q = q

save_as-Keeps :
    (o : Option ℕ) (a : WorkflowAudit) (s : World) → Keeps (save_as o a) s s.self.workflow
unfolding save_as
save_as-Keeps none a s x h =
    save_new_lem (any (is_audit_of a.workflow_type a.workflow_id) s.db.audits) _ _ s.self.workflow
      refl refl
save_as-Keeps (some n) a s x h = refl

save_audit-Keeps : (a : WorkflowAudit) (s : World) → Keeps (save_audit a) s s.self.workflow
unfolding save_audit
save_audit-Keeps a s = save_as-Keeps a.audit_id a s

rows-Keeps :
    (rows : WorkflowAudit → Exec World WorkflowAuditDetail)
    → ((a : WorkflowAudit) (s : World) → (rows a s).1.self ≡ s.self)
    → (s : World) (w : Workflow) → s.self.workflow ≡ w
    → Keeps (the_audit >>= rows) s w
rows-Keeps rows k s w e =
    Returns-lift (or_raise s.self.audit _) rows s (λ _ t. t.self.workflow ≡ w)
      (λ a _ _ _. ap (λ v. v.workflow) (k a s) ∙ e)

saved-Keeps :
    (change : WorkflowAudit → WorkflowAudit) (rows : WorkflowAudit → Exec World WorkflowAuditDetail)
    → ((a : WorkflowAudit) (s : World) → (rows a s).1.self ≡ s.self)
    → (s : World)
    → Keeps (the_audit >>= λ a. save_audit (change a) >> (the_audit >>= rows)) s s.self.workflow
saved-Keeps change rows k s =
    let w = s.self.workflow in
    Returns-lift (or_raise s.self.audit _) (λ a. save_audit (change a) >> (the_audit >>= rows)) s
      (λ _ t. t.self.workflow ≡ w)
      (λ a _.
        Returns-bind (save_audit (change a)) (λ _. the_audit >>= rows) s
          (λ _ t. t.self.workflow ≡ w) (λ _ t. t.self.workflow ≡ w) (save_audit-Keeps (change a) s)
          (λ _ t e. rows-Keeps rows k t w e))

advance-Keeps : (a : WorkflowAudit) (s : World) → Keeps (advance a) s s.self.workflow
unfolding advance
advance-Keeps a s =
    Returns-if (a.next_audit == no_one) _ _ s (λ _ t. t.self.workflow ≡ s.self.workflow)
      (save_audit-Keeps (record a { current_audit = no_one; current_status = passed }) s)
      (Returns-lift
        (or_raise
          (next_of (split_comma a.audit_auth_groups)
            (index (split_comma a.audit_auth_groups) a.next_audit))
          value_error)
        _ _ (λ _ t. t.self.workflow ≡ s.self.workflow)
        (λ next _.
          save_audit-Keeps
            (record a { current_status = waiting; current_audit = a.next_audit; next_audit = next })
            _))

operate_pass-Keeps :
    (u : Users) (remark : String) (s : World) → Keeps (operate_pass u remark) s s.self.workflow
unfolding operate_pass pass_audit
operate_pass-Keeps u remark s =
    let w = s.self.workflow in
    Returns-lift (or_raise s.self.audit _) (pass_audit u remark) s (λ _ t. t.self.workflow ≡ w)
      (λ a _.
        Returns-bind (advance a) _ s (λ _ t. t.self.workflow ≡ w) (λ _ t. t.self.workflow ≡ w)
          (advance-Keeps a s)
          (λ _ t e. rows-Keeps (record_pass u remark) (record_pass-self u remark) t w e))

operate_reject-Keeps :
    (u : Users) (remark : String) (s : World) → Keeps (operate_reject u remark) s s.self.workflow
unfolding operate_reject
operate_reject-Keeps u remark =
    saved-Keeps
      (λ a. record a { current_audit = no_one; next_audit = no_one; current_status = rejected })
      (record_reject u remark) (record_reject-self u remark)

operate_abort-Keeps :
    (u : Users) (remark : String) (s : World) → Keeps (operate_abort u remark) s s.self.workflow
unfolding operate_abort
operate_abort-Keeps u remark =
    saved-Keeps (λ a. record a { next_audit = no_one; current_status = aborted })
      (record_abort u remark) (record_abort-self u remark)

some-Keeps :
    (m : Exec World WorkflowAuditDetail) (s : World) (w : Workflow)
    → Keeps m s w
    → Keeps (m >>= λ d. pure (some d)) s w
some-Keeps m s w k =
    Returns-bind m (λ d. pure (some d)) s (λ _ t. t.self.workflow ≡ w) (λ _ t. t.self.workflow ≡ w)
      k (λ _ _ p _ _. p)

decide-Keeps :
    (action : WorkflowAction) (u : Users) (remark : String) (s : World)
    → Keeps (decide action u remark) s s.self.workflow
unfolding decide
decide-Keeps pass u remark s =
    some-Keeps (operate_pass u remark) s s.self.workflow (operate_pass-Keeps u remark s)
decide-Keeps reject u remark s =
    some-Keeps (operate_reject u remark) s s.self.workflow (operate_reject-Keeps u remark s)
decide-Keeps abort u remark s =
    some-Keeps (operate_abort u remark) s s.self.workflow (operate_abort-Keeps u remark s)
decide-Keeps submit u remark s = λ _ _. refl
decide-Keeps execute_set_time u remark s = λ _ _. refl
decide-Keeps execute_start u remark s = λ _ _. refl
decide-Keeps execute_end u remark s = λ _ _. refl

pub operate-Keeps :
    (action : WorkflowAction) (u : Users) (remark : String) (s : World)
    (d : Option WorkflowAuditDetail)
    → (operate action u remark s).0 ≡ ok d
    → (operate action u remark s).1.self.workflow ≡ s.self.workflow
unfolding operate
operate-Keeps action u remark s =
    Returns-lift (can_operate action u s) (λ _. decide action u remark) s
      (λ _ t. t.self.workflow ≡ s.self.workflow) (λ _ _. decide-Keeps action u remark s)
