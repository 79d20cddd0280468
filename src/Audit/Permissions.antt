-- ===== src/Audit/Permissions.antt =====
-- Who may take a step of a review: `can_operate` and `operate` of sql/utils/workflow_audit.py.
use dbshield.Common.{
  String, Bool, true, false, ◌&&◌, ◌≡◌, ◌≢◌, refl, sym, ap, ◌∙◌, if◌then◌else◌, audit_exception,
  ◌⊎◌, inl, inr, some, List, [], ◌∷◌, arith, ◌==◌, ok, err, Exc, Result, any, string_eq, nat_eq,
  eq_iff, Bool-cases, contains,
}
use mathlib.Core.Path.{subst}
use dbshield.Common.Checks.{or_raise, ◌>>=◌, raise_if_ok, chain_parts}
use dbshield.Config.{null, truthy}
use dbshield.Const.{
  WorkflowStatus, waiting, passed, rejected, aborted, WorkflowAction, submit, pass, reject, abort,
  action_eq, execute_set_time, execute_start, execute_end,
}
use dbshield.Models.{Users, Group, WorkflowAudit}
use dbshield.Audit.State.{World, config, get_group}
use dbshield.Audit.CanOperate.{
  supported_operation_grid, check_grid, check_audit, check_node, check_reviewer, check_actor,
  can_operate, need_user_permission,
}

-- the group was found, and the actor is one of its members
abbrev pub InNode : Result Group → List Group → Type 0
InNode (ok g) gs = any (λ h. h.id == g.id) gs ≡ true
InNode (err c) gs = ⊥

-- What the code asks of a reviewer who is no superuser.
pub record MayReview (a : WorkflowAudit) (u : Users) (s : World) : Type 0 where
  pub not_own :
      (u.username ≢ a.create_user) ⊎ (truthy (config s.self "ban_self_audit" null) ≡ false)
  pub permitted : u.has_perm (need_user_permission s.self.workflow_type) ≡ true
  pub in_node : InNode (get_group a.current_audit s) u.groups

not_own_cases : (x y : String) (b : Bool) → ((x == y) && b) ≡ false → (x ≢ y) ⊎ (b ≡ false)
not_own_cases x y b h = ground (arith, eq_iff x y)

check_node-InNode :
    (u : Users) (s : World) (r : Result Group) → check_node u s r ≡ ok tt → InNode r u.groups
unfolding check_node
check_node-InNode u s (ok g) h = ground arith
check_node-InNode u s (err Exc.does_not_exist) h = cc
check_node-InNode u s (err _) h = cc

check_reviewer_own :
    (a : WorkflowAudit) (u : Users) (s : World)
    → check_reviewer a u s ≡ ok tt
    → ((u.username == a.create_user) && truthy (config s.self "ban_self_audit" null)) ≡ false
unfolding check_reviewer
check_reviewer_own a u s h = raise_if_ok _ _ (chain_parts _ _ h).1

check_reviewer-permitted :
    (a : WorkflowAudit) (u : Users) (s : World)
    → check_reviewer a u s ≡ ok tt
    → (u.has_perm (need_user_permission s.self.workflow_type) ≡ true)
      × (check_node u s (get_group a.current_audit s) ≡ ok tt)
unfolding check_reviewer
check_reviewer-permitted a u s h = ground arith

check_reviewer-MayReview :
    (a : WorkflowAudit) (u : Users) (s : World) → check_reviewer a u s ≡ ok tt → MayReview a u s
check_reviewer-MayReview a u s h =
    let (perm, node) = check_reviewer-permitted a u s h in
    record {
      not_own = not_own_cases _ _ _ (check_reviewer_own a u s h);
      permitted = perm;
      in_node = check_node-InNode u s (get_group a.current_audit s) node;
    }

-- which actions a status allows
abbrev Grid : WorkflowStatus → WorkflowAction → Type 0
Grid status submit = ⊥
Grid status pass = status ≡ waiting
Grid status reject = (status ≡ waiting) ⊎ (status ≡ passed)
Grid status abort = (status ≡ waiting) ⊎ (status ≡ passed)
Grid status _ = status ≡ passed

-- `IsAllowed action a u s`: the rule for each action, by the status of the audit.
pub data IsAllowed (a : WorkflowAudit) (u : Users) (s : World) : WorkflowAction → Type 0 where
  by_submitter :
      (a.current_status ≡ waiting) ⊎ (a.current_status ≡ passed)
      → u.username ≡ a.create_user
      → IsAllowed a u s abort
  pass_by :
      a.current_status ≡ waiting → (u.is_superuser ≡ true) ⊎ MayReview a u s → IsAllowed a u s pass
  reject_by :
      (a.current_status ≡ waiting) ⊎ (a.current_status ≡ passed)
      → (u.is_superuser ≡ true) ⊎ MayReview a u s
      → IsAllowed a u s reject
  set_time : a.current_status ≡ passed → IsAllowed a u s execute_set_time
  start : a.current_status ≡ passed → IsAllowed a u s execute_start
  finish : a.current_status ≡ passed → IsAllowed a u s execute_end

check_grid-contains :
    (status : WorkflowStatus) (action : WorkflowAction) (allowed : List WorkflowAction)
    → check_grid status action allowed ≡ ok tt
    → contains allowed action ≡ true
unfolding check_grid
check_grid-contains status action [] h = cc
check_grid-contains status action (b ∷ allowed) h = ground arith

pub can_operate-check_audit :
    (action : WorkflowAction) (u : Users) (s : World) (a : WorkflowAudit)
    → s.self.audit ≡ some a
    → can_operate action u s ≡ check_audit action u s a
unfolding can_operate
can_operate-check_audit action u s a e =
    ap (λ o. or_raise o (audit_exception "给定工单未绑定审批信息, 无法进行操作") >>= check_audit action u s) e

check_audit_parts :
    (action : WorkflowAction) (u : Users) (s : World) (a : WorkflowAudit)
    → check_audit action u s a ≡ ok tt
    → (contains (supported_operation_grid a.current_status) action ≡ true)
      × (check_actor action a u s ≡ ok tt)
unfolding check_audit
check_audit_parts action u s a h =
    let (_, grid, actor) =
      chain_parts (check_grid a.current_status action (supported_operation_grid a.current_status))
        (λ _. check_actor action a u s) h in
    (check_grid-contains a.current_status action _ grid, actor)

reviewer_cases :
    (a : WorkflowAudit) (u : Users) (s : World)
    → check_actor pass a u s ≡ ok tt
    → (u.is_superuser ≡ true) ⊎ MayReview a u s
unfolding check_actor
reviewer_cases a u s h = elim (Bool-cases u.is_superuser) [
  | inl e ↦ inl e
  | inr e ↦ inr (
      check_reviewer-MayReview a u s
        (subst (λ b. (if b then ok tt else check_reviewer a u s) ≡ ok tt) e h))
]

supported_operation_grid-Grid :
    (status : WorkflowStatus) (action : WorkflowAction)
    → contains (supported_operation_grid status) action ≡ true
    → Grid status action
unfolding supported_operation_grid
supported_operation_grid-Grid status submit h = ground arith
supported_operation_grid-Grid status pass h = ground arith
supported_operation_grid-Grid status reject h = ground arith
supported_operation_grid-Grid status abort h = ground arith
supported_operation_grid-Grid status _ h = ground arith

check_audit-IsAllowed :
    (action : WorkflowAction) (u : Users) (s : World) (a : WorkflowAudit)
    → Grid a.current_status action
    → check_actor action a u s ≡ ok tt
    → IsAllowed a u s action
unfolding check_actor
check_audit-IsAllowed submit u s a g h = elim g [ ]
check_audit-IsAllowed pass u s a g h = pass_by g (reviewer_cases a u s h)
check_audit-IsAllowed reject u s a g h = reject_by g (reviewer_cases a u s h)
check_audit-IsAllowed abort u s a g h =
    by_submitter g (ground (arith, eq_iff u.username a.create_user))
check_audit-IsAllowed execute_set_time u s a g h = set_time g
check_audit-IsAllowed execute_start u s a g h = start g
check_audit-IsAllowed execute_end u s a g h = finish g

-- Of an audit that the object holds, an action that `can_operate` lets through is one that its rule
-- allows: `IsAllowed`.
pub can_operate-IsAllowed :
    (action : WorkflowAction) (u : Users) (s : World) (a : WorkflowAudit)
    → s.self.audit ≡ some a
    → can_operate action u s ≡ ok tt
    → IsAllowed a u s action
can_operate-IsAllowed action u s a e h =
    let (grid, actor) =
      check_audit_parts action u s a (sym (can_operate-check_audit action u s a e) ∙ h) in
    check_audit-IsAllowed action u s a (supported_operation_grid-Grid a.current_status action grid)
      actor

-- a superuser may approve whatever waits
pub can_operate_superuser :
    (u : Users) (s : World) (a : WorkflowAudit)
    → s.self.audit ≡ some a
    → a.current_status ≡ waiting
    → u.is_superuser ≡ true
    → can_operate pass u s ≡ ok tt
unfolding check_audit check_actor check_grid supported_operation_grid
can_operate_superuser u s a e w h =
    can_operate-check_audit pass u s a e
    ∙ ap (λ st. check_grid st pass (supported_operation_grid st) >>= λ _. check_actor pass a u s) w
    ∙ ap (λ b. if b then ok tt else check_reviewer a u s) h

IsAllowed-waiting :
    {u : Users} {s : World} {a : WorkflowAudit} → IsAllowed a u s pass → a.current_status ≡ waiting
IsAllowed-waiting (pass_by w _) = w

-- only what waits can be approved
pub pass_waiting :
    (u : Users) (s : World) (a : WorkflowAudit)
    → s.self.audit ≡ some a
    → can_operate pass u s ≡ ok tt
    → a.current_status ≡ waiting
pass_waiting u s a e h = IsAllowed-waiting (can_operate-IsAllowed pass u s a e h)

refused :
    (status : WorkflowStatus) (action : WorkflowAction)
    → (status ≡ rejected) ⊎ (status ≡ aborted)
    → supported_operation_grid status ≡ []
unfolding supported_operation_grid
refused status action (inl e) = rw e refl
refused status action (inr e) = rw e refl

-- nothing may be done to a review that was turned down or withdrawn
pub can_operate_closed :
    (action : WorkflowAction) (u : Users) (s : World) (a : WorkflowAudit)
    → s.self.audit ≡ some a
    → (a.current_status ≡ rejected) ⊎ (a.current_status ≡ aborted)
    → (c : Exc) × (can_operate action u s ≡ err c)
unfolding check_audit check_grid
can_operate_closed action u s a e closed = (
  _,
  can_operate-check_audit action u s a e
      ∙ ap (λ gs. check_grid a.current_status action gs >>= λ _. check_actor action a u s)
          (refused a.current_status action closed),
)
