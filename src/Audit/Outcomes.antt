-- ===== src/Audit/Outcomes.antt =====
-- The status of the audit after each decision of `operate` in sql/utils/workflow_audit.py.
use dbshield.Common.{
  ℕ, String, ◌≡◌, ◌≢◌, refl, ap, ◌∙◌, ◌⊎◌, inl, inr, Option, none, some, ◌==◌, string_eq, Exec, ok,
  err, ◌>>=◌, Exc, Bool-cases, value_error, index, split_comma, any,
}
use dbshield.Common.Checks.{or_raise}
use dbshield.Common.Returns.{Returns, Returns-if, Returns-bind, Returns-lift}
use dbshield.Const.{WorkflowStatus, waiting, passed, rejected, aborted}
use dbshield.Models.{Users, WorkflowAudit, WorkflowAuditDetail}
use dbshield.Audit.State.{World, save_audit, save_as, add_detail, add_log, is_audit_of}
use dbshield.Audit.Lookup.{no_one}
use dbshield.Audit.Operate.{
  the_audit, advance, record_pass, pass_audit, operate_pass, operate_reject, operate_abort,
  record_reject, record_abort, next_of,
}
use dbshield.Audit.Passes.{record_pass-self}

-- the object holds an audit of this status
abbrev pub Holds : WorkflowStatus → World → Type 0
Holds status s = (b : WorkflowAudit) × (s.self.audit ≡ some b) × (b.current_status ≡ status)

pub not_raised : (c : Exc) (x : Unit {0}) → err c ≢ ok x
not_raised c x e = cc

save_as-Holds :
    (o : Option ℕ) (a : WorkflowAudit) (s : World)
    → Returns (save_as o a) s (λ _ t. Holds a.current_status t)
unfolding save_as
save_as-Holds none a s = λ _ h.
    elim (Bool-cases (any (is_audit_of a.workflow_type a.workflow_id) s.db.audits)) [
      | inl e ↦ absurd (not_raised _ _ (rw e at h))
      | inr e ↦ rw e (_, refl, refl)
    ]
save_as-Holds (some n) a s = λ _ h. (a, refl, refl)

-- a save that returned
pub save_audit-Holds :
    (a : WorkflowAudit) (s : World) → Returns (save_audit a) s (λ _ t. Holds a.current_status t)
unfolding save_audit
save_audit-Holds a s = save_as-Holds a.audit_id a s

abbrev pub Moved : World → Type 0
Moved t = Holds passed t ⊎ Holds waiting t

advance-Moved : (a : WorkflowAudit) (s : World) → Returns (advance a) s (λ _ t. Moved t)
unfolding advance
advance-Moved a s =
    Returns-if (a.next_audit == no_one) _ _ s (λ _ t. Moved t)
      (λ x h.
        inl (save_audit-Holds (record a { current_audit = no_one; current_status = passed }) s x h))
      (Returns-lift
        (or_raise
          (next_of (split_comma a.audit_auth_groups)
            (index (split_comma a.audit_auth_groups) a.next_audit))
          value_error)
        _ _ (λ _ t. Moved t)
        (λ next _ x h. inr (
          save_audit-Holds
            (record a { current_status = waiting; current_audit = a.next_audit; next_audit = next })
            _ x h)))

-- the rows written after the audit was saved
keeps :
    (status : WorkflowStatus) (rows : WorkflowAudit → Exec World WorkflowAuditDetail)
    → ((a : WorkflowAudit) (s : World) → (rows a s).1.self ≡ s.self)
    → (s : World) → Holds status s
    → Returns (the_audit >>= rows) s (λ _ t. Holds status t)
keeps status rows k s (b, p, q) =
    Returns-lift (or_raise s.self.audit _) rows s (λ _ t. Holds status t)
      (λ a _ _ _. (b, ap (λ v. v.audit) (k a s) ∙ p, q))

pub record_reject-self :
    (actor : Users) (remark : String) (a : WorkflowAudit) (s : World)
    → (record_reject actor remark a s).1.self ≡ s.self
unfolding record_reject add_detail add_log
record_reject-self actor remark a s = refl

pub record_abort-self :
    (actor : Users) (remark : String) (a : WorkflowAudit) (s : World)
    → (record_abort actor remark a s).1.self ≡ s.self
unfolding record_abort add_detail add_log
record_abort-self actor remark a s = refl

-- what each decision leaves, when it returned
pub operate_pass-Moved :
    (actor : Users) (remark : String) (s : World)
    → Returns (operate_pass actor remark) s (λ _ t. Moved t)
unfolding operate_pass pass_audit
operate_pass-Moved actor remark s =
    Returns-lift (or_raise s.self.audit _) (pass_audit actor remark) s (λ _ t. Moved t)
      (λ a _.
        Returns-bind (advance a) _ s (λ _ t. Moved t) (λ _ t. Moved t) (advance-Moved a s)
          (λ _ t m x h. elim m [
            | inl p ↦
                inl
                  (keeps passed (record_pass actor remark) (record_pass-self actor remark) t p x h)
            | inr p ↦
                inr
                  (keeps waiting (record_pass actor remark) (record_pass-self actor remark) t p x h)
          ]))

pub operate_reject-Holds :
    (actor : Users) (remark : String) (s : World)
    → Returns (operate_reject actor remark) s (λ _ t. Holds rejected t)
unfolding operate_reject
operate_reject-Holds actor remark s =
    Returns-lift (or_raise s.self.audit _) _ s (λ _ t. Holds rejected t)
      (λ a _.
        Returns-bind
          (save_audit
            (record a { current_audit = no_one; next_audit = no_one; current_status = rejected }))
          _ s (λ _ t. Holds rejected t) (λ _ t. Holds rejected t)
          (save_audit-Holds
            (record a { current_audit = no_one; next_audit = no_one; current_status = rejected }) s)
          (λ _ t p.
            keeps rejected (record_reject actor remark) (record_reject-self actor remark) t p))

pub operate_abort-Holds :
    (actor : Users) (remark : String) (s : World)
    → Returns (operate_abort actor remark) s (λ _ t. Holds aborted t)
unfolding operate_abort
operate_abort-Holds actor remark s =
    Returns-lift (or_raise s.self.audit _) _ s (λ _ t. Holds aborted t)
      (λ a _.
        Returns-bind (save_audit (record a { next_audit = no_one; current_status = aborted })) _ s
          (λ _ t. Holds aborted t) (λ _ t. Holds aborted t)
          (save_audit-Holds (record a { next_audit = no_one; current_status = aborted }) s)
          (λ _ t p. keeps aborted (record_abort actor remark) (record_abort-self actor remark) t p))
