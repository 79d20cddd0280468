-- ===== src/Audit/Complete.antt =====
-- `can_operate` of sql/utils/workflow_audit.py: what the rules allow is let through.
use mathlib.Core.Path.{◌≡◌, refl, ap, ◌∙◌, subst}
use mathlib.Core.Logic.{◌⊎◌, inl, inr, ◌≢◌}
use dbshield.Common.{
  String, Bool, true, false, ◌&&◌, ◌||◌, if◌then◌else◌, some, List, [], ◌∷◌, arith, ◌==◌, ok,
  Result, any, string_eq, nat_eq, eq_iff, contains,
}
use dbshield.Common.Among.{Among, keep-Among}
use dbshield.Common.Checks.{◌>>=◌}
use dbshield.Config.{null, truthy}
use dbshield.Const.{
  WorkflowStatus, waiting, passed, WorkflowAction, submit, pass, reject, abort, execute_set_time,
  execute_start, execute_end,
}
use dbshield.Models.{Users, Group, WorkflowAudit}
use dbshield.Audit.State.{World, config, get_group, auth_group_users, is_member, in_groups}
use dbshield.Audit.CanOperate.{
  supported_operation_grid, check_grid, check_audit, check_node, check_reviewer, check_actor,
  can_operate, is_empty,
}
use dbshield.Audit.Permissions.{
  IsAllowed, by_submitter, pass_by, reject_by, set_time, start, finish, MayReview, InNode,
  can_operate-check_audit,
}

-- The node of the audit has someone: its group `g` is there, the resource group too, and an active
-- user of that resource group, whoever it is, belongs to a group of this name.
pub record Staffed (a : WorkflowAudit) (s : World) : Type 0 where
  pub g : Group
  pub node : get_group a.current_audit s ≡ ok g
  pub resource_group : any (λ x. x.group_id == s.self.resource_group_id) s.db.resource_groups ≡ true
  pub member : Users
  pub there : Among member s.db.users
  pub active : member.is_active ≡ true
  pub related : contains member.resource_group s.self.resource_group_id ≡ true
  pub reviews : any (λ h. g.name == h.name) member.groups ≡ true

or_false : (b : Bool) → (b || false) ≡ b
or_false true = refl
or_false false = refl

in_groups_one :
    (name : String) (gs : List Group) → in_groups (name ∷ []) gs ≡ any (λ h. name == h.name) gs
in_groups_one name [] = refl
in_groups_one name (h ∷ gs) =
    ap (λ rest. (name == h.name || false) || rest) (in_groups_one name gs)
    ∙ ap (λ b. b || any (λ x. name == x.name) gs) (or_false (name == h.name))

member-is_member :
    (a : WorkflowAudit) (s : World) (t : Staffed a s)
    → is_member (t.g.name ∷ []) s.self.resource_group_id t.member ≡ true
unfolding is_member
member-is_member a s t =
    rw (t.active, t.related, in_groups_one t.g.name t.member.groups, t.reviews) refl

not_empty : (u : Users) (us : List Users) → Among u us → is_empty us ≡ false
not_empty u [] m = absurd m
not_empty u (v ∷ us) m = refl

check_node_ok :
    (a : WorkflowAudit) (u : Users) (s : World) (t : Staffed a s)
    → any (λ h. h.id == t.g.id) u.groups ≡ true
    → check_node u s (ok t.g) ≡ ok tt
unfolding check_node auth_group_users
check_node_ok a u s t h =
    let e = not_empty t.member _ (
      keep-Among (is_member (t.g.name ∷ []) s.self.resource_group_id) t.member s.db.users t.there
        (member-is_member a s t)) in
    rw (t.resource_group, e, h) refl

not_banned : (x y : String) (b : Bool) → (x ≢ y) ⊎ (b ≡ false) → ((x == y) && b) ≡ false
not_banned x y b h = ground (arith, eq_iff x y)

check_reviewer_ok :
    (a : WorkflowAudit) (u : Users) (s : World)
    → MayReview a u s
    → Staffed a s
    → check_reviewer a u s ≡ ok tt
unfolding check_reviewer
check_reviewer_ok a u s m t =
    let own =
      not_banned u.username a.create_user (truthy (config s.self "ban_self_audit" null))
        m.not_own in
    let mine : any (λ h. h.id == t.g.id) u.groups ≡ true =
      subst (λ r. InNode r u.groups) t.node m.in_node in
    rw (own, m.permitted, t.node) (check_node_ok a u s t mine)

either_ok :
    (b : Bool) (r : Result (Unit {0})) → (b ≡ true) ⊎ (r ≡ ok tt) → (if b then ok tt else r) ≡ ok tt
either_ok true r h = refl
either_ok false r (inl e) = cc e
either_ok false r (inr e) = e

reviewer_ok :
    (a : WorkflowAudit) (u : Users) (s : World)
    → (u.is_superuser ≡ true) ⊎ MayReview a u s
    → Staffed a s
    → (if u.is_superuser then ok tt else check_reviewer a u s) ≡ ok tt
reviewer_ok a u s (inl e) t = either_ok u.is_superuser (check_reviewer a u s) (inl e)
reviewer_ok a u s (inr m) t =
    either_ok u.is_superuser (check_reviewer a u s) (inr (check_reviewer_ok a u s m t))

-- the status allows the action
checked_at :
    (action : WorkflowAction) (a : WorkflowAudit) (u : Users) (s : World) (status : WorkflowStatus)
    → a.current_status ≡ status
    → check_grid status action (supported_operation_grid status) ≡ ok tt
    → check_actor action a u s ≡ ok tt
    → check_audit action u s a ≡ ok tt
unfolding check_audit
checked_at action a u s status e g h =
    ap (λ st. check_grid st action (supported_operation_grid st) >>= λ _. check_actor action a u s)
      e
    ∙ ap (λ r. r >>= λ _. check_actor action a u s) g
    ∙ h

checked_either :
    (action : WorkflowAction) (a : WorkflowAudit) (u : Users) (s : World)
    → (a.current_status ≡ waiting) ⊎ (a.current_status ≡ passed)
    → check_grid waiting action (supported_operation_grid waiting) ≡ ok tt
    → check_grid passed action (supported_operation_grid passed) ≡ ok tt
    → check_actor action a u s ≡ ok tt
    → check_audit action u s a ≡ ok tt
checked_either action a u s (inl e) g k h = checked_at action a u s waiting e g h
checked_either action a u s (inr e) g k h = checked_at action a u s passed e k h

allowed_checked :
    (action : WorkflowAction) (a : WorkflowAudit) (u : Users) (s : World)
    → IsAllowed a u s action
    → Staffed a s
    → check_audit action u s a ≡ ok tt
unfolding check_grid check_actor supported_operation_grid
allowed_checked submit a u s x t = elim x [ ]
allowed_checked abort a u s (by_submitter e own) t =
    checked_either abort a u s e refl refl (rw ((eq_iff u.username a.create_user).1 own) refl)
allowed_checked pass a u s (pass_by e m) t =
    checked_at pass a u s waiting e refl (reviewer_ok a u s m t)
allowed_checked reject a u s (reject_by e m) t =
    checked_either reject a u s e refl refl (reviewer_ok a u s m t)
allowed_checked execute_set_time a u s (set_time e) t =
    checked_at execute_set_time a u s passed e refl refl
allowed_checked execute_start a u s (start e) t = checked_at execute_start a u s passed e refl refl
allowed_checked execute_end a u s (finish e) t = checked_at execute_end a u s passed e refl refl

-- Of an audit that the object holds, whose node has someone (`Staffed`): every action that its rule allows
-- (`IsAllowed`) is let through by `can_operate`. Of a reviewer the rule asks the permission, the
-- group of the node, and that the review is not the reviewer's own where this is banned; it does not
-- ask for the resource group, which anyone else of that approval group may fill.
pub can_operate_complete :
    (action : WorkflowAction) (u : Users) (s : World) (a : WorkflowAudit)
    → s.self.audit ≡ some a
    → Staffed a s
    → IsAllowed a u s action
    → can_operate action u s ≡ ok tt
can_operate_complete action u s a e t x =
    can_operate-check_audit action u s a e ∙ allowed_checked action a u s x t
