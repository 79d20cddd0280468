-- ===== src/Audit/Repeats.antt =====
-- A group that stands twice among the nodes: `operate_pass` in sql/utils/workflow_audit.py looks up
-- the position of a node by its group.
use dbshield.Common.{
  ℕ, String, false, ◌≡◌, ◌≢◌, refl, sym, ap, ◌∙◌, some, [], ◌∷◌, ok, arith, ◌==◌, string_eq, eq_iff,
  index, split_comma, same_refl,
}
use dbshield.Const.{waiting, pass}
use dbshield.Models.{Users, WorkflowAudit}
use dbshield.Audit.State.{World}
use dbshield.Audit.Lookup.{no_one}
use dbshield.Audit.Operate.{advance, next_of, operate}
use dbshield.Audit.Chain.{stored, save_audit-stored, put}
use dbshield.Audit.Passes.{passes}
use dbshield.Audit.Progress.{operate_held, passes_parts}

abbrev moved : String → WorkflowAudit → WorkflowAudit
moved next a = record a {
  current_status = waiting;
  current_audit = a.next_audit;
  next_audit = next;
}

advance_to :
    (a : WorkflowAudit) (next : String) (n : ℕ) (s : World)
    → (a.next_audit == no_one) ≡ false
    → next_of
        (split_comma a.audit_auth_groups)
        (index (split_comma a.audit_auth_groups) a.next_audit)
      ≡ some next
    → a.audit_id ≡ some n
    → advance a s ≡ (ok tt, stored (moved next a) s)
unfolding advance
advance_to a next n s more key e =
    rw (more, key)
      (save_audit-stored (moved next a) n
        (put (record a { current_status = waiting; current_audit = a.next_audit }) s) e)

-- The audit waits at the first of the nodes g, h, g.
pub record AtFirst (g h : String) (a : WorkflowAudit) : Type 0 where
  pub nodes : split_comma a.audit_auth_groups ≡ g ∷ h ∷ g ∷ []
  pub is_waiting : a.current_status ≡ waiting
  pub current : a.current_audit ≡ g
  pub next : a.next_audit ≡ h

different : (x y : String) → x ≢ y → (x == y) ≡ false
different x y h = ground (arith, eq_iff x y)

from_first : (g h : String) → g ≢ h → next_of (g ∷ h ∷ g ∷ []) (index (g ∷ h ∷ g ∷ []) h) ≡ some g
unfolding next_of
from_first g h d = rw (different g h d, same_refl h) refl

back : (g h : String) → next_of (g ∷ h ∷ g ∷ []) (index (g ∷ h ∷ g ∷ []) g) ≡ some h
unfolding next_of
back g h = rw (same_refl g) refl

restored : (g h : String) (a : WorkflowAudit) → AtFirst g h a → moved h (moved g a) ≡ a
restored g h a at = λ i. record a {
  current_status = sym at.is_waiting i;
  current_audit = sym at.current i;
  next_audit = sym at.next i;
}

-- The groups of the nodes are g, h, g, different from each other and from "-1", and a saved audit waits
-- at the first: two approvals by any users that returned leave the audit as it was, at the first node.
pub passes_repeat :
    (g h : String) (a : WorkflowAudit) (n : ℕ) (s : World) (u v : Users) (x y : String)
    → s.self.audit ≡ some a
    → a.audit_id ≡ some n
    → AtFirst g h a
    → g ≢ h
    → g ≢ no_one
    → h ≢ no_one
    → (passes ((u, x) ∷ (v, y) ∷ []) s).0 ≡ ok tt
    → (passes ((u, x) ∷ (v, y) ∷ []) s).1.self.audit ≡ s.self.audit
unfolding passes
passes_repeat g h a n s u v x y held key at d p q run =
    let (may, later, e) = passes_parts u x ((v, y) ∷ []) s run in
    let (may_too, _, f) = passes_parts v y [] (operate pass u x s).1 later in
    let b = moved g a in
    let once =
      operate_held a b u x s held
        (advance_to a g n s (ap (λ t. t == no_one) at.next ∙ different h no_one q)
          (ap (λ gs. next_of gs (index gs a.next_audit)) at.nodes
            ∙ ap (λ t. next_of (g ∷ h ∷ g ∷ []) (index (g ∷ h ∷ g ∷ []) t)) at.next
            ∙ from_first g h d)
          key)
        may in
    let twice =
      operate_held b (moved h b) v y (operate pass u x s).1 once
        (advance_to b h n _ (different g no_one p)
          (ap (λ gs. next_of gs (index gs g)) at.nodes ∙ back g h) key)
        may_too in
    ap (λ t. t.self.audit) (e ∙ f) ∙ twice ∙ ap some (restored g h a at) ∙ sym held
