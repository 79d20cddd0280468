-- ===== src/Audit/Flow.antt =====
-- The review that a submission starts: `create_audit` in sql/utils/workflow_audit.py.
use dbshield.Common.{
  ℕ, String, ◌≡◌, refl, sym, inl, inr, if◌then◌else◌, Option, none, some, List, [], ◌∷◌, Exec,
  Result, ok, err, pure, continue, ◌>>◌, Bool-cases, split_comma, ◌⧺◌, any,
}
use dbshield.Common.Returns.{Returns, Returns-bind, Returns-lift}
use dbshield.Const.{waiting, passed, rejected}
use dbshield.Models.{WorkflowAudit}
use dbshield.Audit.State.{World, AuditV2, save_audit, save_as, add_log, is_audit_of}
use dbshield.Audit.Lookup.{AuditSetting, review_info}
use dbshield.Audit.Create.{second, submit_log, the_audit, start_flow}
use dbshield.Audit.Progress.{Waits}
use mathlib.Core.Path.{subst}
use dbshield.Audit.Outcomes.{Holds, not_raised}

-- the row that a save makes
abbrev Saved : WorkflowAudit → AuditV2 → Type 0
Saved a self = (n : ℕ) × (self.audit ≡ some (record a { audit_id = some n }))

save_as-Saved :
    (o : Option ℕ) (a : WorkflowAudit) (s : World)
    → o ≡ none
    → Returns (save_as o a) s (λ _ t. Saved a t.self)
unfolding save_as
save_as-Saved (some n) a s e = cc
save_as-Saved none a s e = λ _ h.
    elim (Bool-cases (any (is_audit_of a.workflow_type a.workflow_id) s.db.audits)) [
      | inl e ↦ absurd (not_raised _ _ (rw e at h))
      | inr e ↦ rw e (_, refl)
    ]

-- The log of a submission leaves the object as it is.
log-self :
    (r : Result WorkflowAudit) (f : WorkflowAudit → Exec World (Unit {0})) (s : World)
    → ((a : WorkflowAudit) → (f a s).1.self ≡ s.self)
    → (continue r f s).1.self ≡ s.self
log-self (ok a) f s h = h a
log-self (err c) f s h = refl

pub submit_log-self : (info : String) (s : World) → (submit_log info s).1.self ≡ s.self
unfolding add_log
submit_log-self info s = log-self (the_audit s).0 _ s (λ a. refl)

-- What holds of the object after the row was saved still holds after the log.
pub logged :
    (info message : String) (s : World) (P : AuditV2 → Type 0)
    → P s.self
    → Returns (submit_log info >> pure message) s (λ _ t. P t.self)
logged info message s P p =
    Returns-bind (submit_log info) (λ _. pure message) s (λ _ t. P t.self) (λ _ t. P t.self)
      (λ _ _. subst P (sym (submit_log-self info s)) p) (λ _ _ q _ _. q)

-- `Submitted setting t`: what the setting asks for, and the audit that the object holds.
abbrev pub Flow : List String → World → Type 0
Flow groups t = (g : String) × (rest : List String) × (groups ≡ g ∷ rest) × Waits [] g rest t

abbrev pub Submitted : AuditSetting → World → Type 0
Submitted setting t =
    if setting.auto_reject
    then Holds rejected t
    else if setting.auto_pass
    then Holds passed t
    else Flow setting.audit_auth_groups t

abbrev first_node : WorkflowAudit → String → List String → WorkflowAudit
first_node a g rest = record a {
  current_audit = g;
  next_audit = second rest;
  current_status = waiting;
}

waits :
    (a : WorkflowAudit) (g : String) (rest : List String) (t : World)
    → split_comma a.audit_auth_groups ≡ g ∷ rest
    → Saved (first_node a g rest) t.self
    → Waits [] g rest t
waits a g rest t e (n, p) = record {
  row = record (first_node a g rest) { audit_id = some n };
  held = p;
  key = n;
  saved = refl;
  at = record { nodes = e; is_waiting = refl; current = refl; next = refl };
}

pub start_flow-Waits :
    (a : WorkflowAudit) (g : String) (rest : List String) (s : World)
    → a.audit_id ≡ none
    → split_comma a.audit_auth_groups ≡ g ∷ rest
    → Returns (start_flow a (g ∷ rest)) s (λ _ t. Waits [] g rest t)
unfolding start_flow save_audit
start_flow-Waits a g rest s e f =
    Returns-bind (save_as a.audit_id (first_node a g rest)) _ s
      (λ _ t. Saved (first_node a g rest) t.self) (λ _ t. Waits [] g rest t)
      (save_as-Saved a.audit_id (first_node a g rest) s e)
      (λ _ t saved.
        Returns-lift (review_info t) _ t (λ _ t. Waits [] g rest t)
          (λ flow _ x h.
            waits a g rest _ f
              (logged ("等待审批，审批流程：" ⧺ flow.0) "工单已正常提交" t (Saved (first_node a g rest)) saved x h)))
