-- ===== src/Audit/Steps.antt =====
-- The statuses that a review goes through: `operate` in sql/utils/workflow_audit.py.
use mathlib.Core.Path.{subst}
use dbshield.Common.{
  String, ◌≡◌, sym, ap, ◌⊎◌, inl, inr, Option, some, string_eq, Exec, ok, err, pure, continue,
  ◌>>=◌, Exc, exec_parts, reads,
}
use dbshield.Common.Returns.{Returns, Returns-bind, Returns-lift}
use dbshield.Const.{
  WorkflowStatus, waiting, passed, rejected, aborted, WorkflowAction, pass, reject, abort, submit,
  execute_set_time, execute_start, execute_end,
}
use dbshield.Models.{Users, WorkflowAudit, WorkflowAuditDetail}
use dbshield.Audit.State.{World}
use dbshield.Audit.CanOperate.{can_operate}
use dbshield.Audit.Operate.{operate_pass, operate_reject, operate_abort, operate, decide}
use dbshield.Audit.Permissions.{
  IsAllowed, can_operate-IsAllowed, can_operate_closed, pass_by, reject_by, by_submitter, set_time,
  start, finish,
}
use dbshield.Audit.Outcomes.{
  Holds, Moved, operate_abort-Holds, operate_pass-Moved, operate_reject-Holds,
}

-- `Step status action later`: what a step of a review does to its status.
pub data Step : WorkflowStatus → WorkflowAction → WorkflowStatus → Type 0 where
  approve : Step waiting pass waiting
  approve_last : Step waiting pass passed
  turn_down : Step waiting reject rejected
  turn_down_late : Step passed reject rejected
  withdraw : Step waiting abort aborted
  withdraw_late : Step passed abort aborted
  schedule : Step passed execute_set_time passed
  begin : Step passed execute_start passed
  complete : Step passed execute_end passed

-- the audit that a step leaves has a status that the step leads to
abbrev pub Stepped : WorkflowStatus → WorkflowAction → World → Type 0
Stepped before action t =
    (b : WorkflowAudit) × (t.self.audit ≡ some b) × Step before action b.current_status

stepped :
    (before later : WorkflowStatus) (action : WorkflowAction) (t : World)
    → Step before action later
    → Holds later t
    → Stepped before action t
stepped before later action t x (b, e, f) = (b, e, subst (λ st. Step before action st) (sym f) x)

approved : (t : World) → Moved t → Stepped waiting pass t
approved t (inl p) = stepped waiting passed pass t approve_last p
approved t (inr p) = stepped waiting waiting pass t approve p

turned_down :
    (before : WorkflowStatus) (t : World)
    → (before ≡ waiting) ⊎ (before ≡ passed)
    → Holds rejected t
    → Stepped before reject t
turned_down before t (inl e) p =
    subst (λ st. Stepped st reject t) (sym e) (stepped waiting rejected reject t turn_down p)
turned_down before t (inr e) p =
    subst (λ st. Stepped st reject t) (sym e) (stepped passed rejected reject t turn_down_late p)

withdrawn :
    (before : WorkflowStatus) (t : World)
    → (before ≡ waiting) ⊎ (before ≡ passed)
    → Holds aborted t
    → Stepped before abort t
withdrawn before t (inl e) p =
    subst (λ st. Stepped st abort t) (sym e) (stepped waiting aborted abort t withdraw p)
withdrawn before t (inr e) p =
    subst (λ st. Stepped st abort t) (sym e) (stepped passed aborted abort t withdraw_late p)

wrapped :
    (m : Exec World WorkflowAuditDetail) (s : World) (P : World → Type 0)
    → Returns m s (λ _ t. P t)
    → Returns (m >>= λ d. pure (some d)) s (λ _ t. P t)
wrapped m s P h = Returns-bind m (λ d. pure (some d)) s (λ _ t. P t) (λ _ t. P t) h (λ _ _ p _ _. p)

-- the actions on an audit that has passed leave it as it is
kept :
    (action : WorkflowAction) (s : World) (a : WorkflowAudit)
    → s.self.audit ≡ some a
    → a.current_status ≡ passed
    → Step passed action passed
    → Stepped a.current_status action s
kept action s a e p x = (a, e, subst (λ st. Step st action st) (sym p) x)

decide-Stepped :
    (action : WorkflowAction) (actor : Users) (remark : String) (s : World) (a : WorkflowAudit)
    → s.self.audit ≡ some a
    → IsAllowed a actor s action
    → Returns (decide action actor remark) s (λ _ t. Stepped a.current_status action t)
unfolding decide
decide-Stepped pass actor remark s a e (pass_by w _) =
    wrapped (operate_pass actor remark) s (λ t. Stepped a.current_status pass t)
      (λ x h.
        subst (λ st. Stepped st pass (operate_pass actor remark s).1) (sym w)
          (approved (operate_pass actor remark s).1 (operate_pass-Moved actor remark s x h)))
decide-Stepped reject actor remark s a e (reject_by w _) =
    wrapped (operate_reject actor remark) s (λ t. Stepped a.current_status reject t)
      (λ x h.
        turned_down a.current_status (operate_reject actor remark s).1 w
          (operate_reject-Holds actor remark s x h))
decide-Stepped abort actor remark s a e (by_submitter w _) =
    wrapped (operate_abort actor remark) s (λ t. Stepped a.current_status abort t)
      (λ x h.
        withdrawn a.current_status (operate_abort actor remark s).1 w
          (operate_abort-Holds actor remark s x h))
decide-Stepped submit actor remark s a e x = elim x [ ]
decide-Stepped execute_set_time actor remark s a e (set_time w) =
    λ _ _. kept execute_set_time s a e w schedule
decide-Stepped execute_start actor remark s a e (start w) = λ _ _. kept execute_start s a e w begin
decide-Stepped execute_end actor remark s a e (finish w) = λ _ _. kept execute_end s a e w complete

-- On an audit that the object holds: an operation that returned was allowed, and took the status of
-- the audit along a step of `Step`.
pub operate-Step :
    (action : WorkflowAction) (actor : Users) (remark : String) (s : World) (a : WorkflowAudit)
    (d : Option WorkflowAuditDetail)
    → s.self.audit ≡ some a
    → (operate action actor remark s).0 ≡ ok d
    → IsAllowed a actor s action × Stepped a.current_status action (operate action actor remark s).1
unfolding operate
operate-Step action actor remark s a d e h =
    let allowed =
      can_operate-IsAllowed action actor s a e
        (exec_parts (reads (can_operate action actor)) (λ _. decide action actor remark) s h).1 in
    (
      allowed,
      Returns-lift (can_operate action actor s) (λ _. decide action actor remark) s
          (λ _ t. Stepped a.current_status action t)
          (λ _ _. decide-Stepped action actor remark s a e allowed) d h,
    )

-- On a rejected or aborted audit that the object holds, every operation raises and changes nothing.
pub operate_closed :
    (action : WorkflowAction) (actor : Users) (remark : String) (s : World) (a : WorkflowAudit)
    → s.self.audit ≡ some a
    → (a.current_status ≡ rejected) ⊎ (a.current_status ≡ aborted)
    → (c : Exc) × (operate action actor remark s ≡ (err c, s))
unfolding operate
operate_closed action actor remark s a e closed =
    let (c, refused) = can_operate_closed action actor s a e closed in
    (c, ap (λ r. continue r (λ _. decide action actor remark) s) refused)
