-- ===== src/Api/Auditor.antt =====
-- `get_auditor(audit=...)`, as the requests of sql_api/api_workflow.py call it: the object keeps the
-- audit that it is made for, and has the workflow of that audit.
use mathlib.Core.Path.{◌≡◌, refl, sym, ap, ◌∙◌}
use dbshield.Common.{
  ℕ, String, Option, none, some, List, ok, err, Result, ◌==◌, string_eq, find, ◌>>=◌, ◌>>◌, modify,
}
use dbshield.Common.Checks.{chain_parts}
use dbshield.Models.{
  Workflow, sql_workflow, archive_config, query_apply, WorkflowAudit, ResourceGroup,
  workflow_type_of,
}
use dbshield.Audit.State.{World, AuditV2, get_audit_info, held_or_found}
use dbshield.Audit.Init.{of_group, with_resource_group, post_init, resolved}
use dbshield.Api.State.{Portal, get_auditor, workflow_of, new_self, made}

-- the audit and the workflow of an object
abbrev Same : AuditV2 → AuditV2 → Type 0
Same a b = (a.audit ≡ b.audit) × (a.workflow ≡ b.workflow)

of_group-Same :
    (name : String) (g : Option ResourceGroup) (a b : AuditV2) → of_group name g a ≡ ok b → Same b a
of_group-Same name none a b h = cc
of_group-Same name (some g) a b h =
    let e : record a { resource_group_id = g.group_id } ≡ b = cc h in
    (sym (ap (λ (x : AuditV2). x.audit) e), sym (ap (λ (x : AuditV2). x.workflow) e))

with_resource_group-Same :
    (w : Workflow) (groups : List ResourceGroup) (a b : AuditV2)
    → with_resource_group w groups a ≡ ok b
    → Same b a
unfolding with_resource_group
with_resource_group-Same (sql_workflow w) groups a b h =
    let e : record a { resource_group = w.group_name; resource_group_id = w.group_id } ≡ b = cc h in
    (sym (ap (λ (x : AuditV2). x.audit) e), sym (ap (λ (x : AuditV2). x.workflow) e))
with_resource_group-Same (archive_config w) groups a b h =
    of_group-Same a.resource_group (find (λ g. g.group_name == a.resource_group) groups) a b h
with_resource_group-Same (query_apply w) groups a b h =
    let e : record a { resource_group = w.group_name; resource_group_id = w.group_id } ≡ b = cc h in
    (sym (ap (λ (x : AuditV2). x.audit) e), sym (ap (λ (x : AuditV2). x.workflow) e))

-- an object that has its audit does not look for one
get_audit_info_held :
    (s : World) (a : WorkflowAudit) → s.self.audit ≡ some a → get_audit_info s ≡ (ok (some a), s)
unfolding get_audit_info
get_audit_info_held s a e = ap (λ o. held_or_found o s) e

-- what the construction leaves
made_held :
    (s : World) (r : Result AuditV2) (a : WorkflowAudit) (t : World)
    → s.self.audit ≡ some a
    → ((b : AuditV2) → r ≡ ok b → Same b s.self)
    → made (
        (do self ← (λ (x : World). (r, x)); modify (λ x. record x { self = self }); get_audit_info)
          s)
      ≡ ok t
    → (t.self.audit ≡ some a) × (t.self.workflow ≡ s.self.workflow) × (t.db ≡ s.db)
made_held s (err c) a t e same h = cc
made_held s (ok b) a t e same h =
    let (x, y) = same b refl in
    let s' : World = record s { self = b } in
    let f : s' ≡ t = cc (ap made (get_audit_info_held s' a (x ∙ e)), h) in
    (
      sym (ap (λ (w : World). w.self.audit) f) ∙ x ∙ e,
      sym (ap (λ (w : World). w.self.workflow) f) ∙ y,
      sym (ap (λ (w : World). w.db) f),
    )

-- The object of `get_auditor(audit=...)` holds the audit and its workflow, and no row is changed.
pub get_auditor_lem :
    (audit : WorkflowAudit) (n : ℕ) (p : Portal) (t : World)
    → get_auditor audit n p ≡ ok t
    → (t.self.audit ≡ some audit)
      × (workflow_of audit.workflow_type n p ≡ ok t.self.workflow)
      × (t.db ≡ p.db)
unfolding get_auditor post_init
get_auditor_lem audit n p t h =
    let (w, e, k) = chain_parts (workflow_of audit.workflow_type n p) _ h in
    let s : World = record { db = p.db; self = new_self p audit w } in
    let (x, y, z) =
      made_held s (resolved s) audit t refl
        (λ b f.
          let (u, v) =
            with_resource_group-Same w p.db.resource_groups
              (record s.self { workflow_type = workflow_type_of w }) b f in
          (u, v))
        k in
    (x, e ∙ ap ok (sym y), z)
