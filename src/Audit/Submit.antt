-- ===== src/Audit/Submit.antt =====
-- What a submission leaves: `create_audit` in sql/utils/workflow_audit.py.
use dbshield.Common.{
  String, Bool, true, false, ◌≡◌, refl, sym, ap, ◌∙◌, ◌||◌, if◌then◌else◌, none, some, List, [],
  ◌∷◌, Exec, Result, ok, err, pure, continue, ◌>>=◌, ◌>>◌, reads, lift, split_comma, join_comma,
  join-split_comma, audit_exception,
}
use dbshield.Common.Checks.{or_raise, raise_if, chain_parts}
use dbshield.Audit.Review.{is_auto_review}
use dbshield.Common.Returns.{Returns, Returns-bind}
use dbshield.Const.{WorkflowStatus, passed, rejected}
use dbshield.Config.{Value}
use dbshield.Models.{WorkflowAudit}
use dbshield.Audit.State.{World, save_audit, get_audit_info, save_workflow}
use dbshield.Audit.Lookup.{
  AuditSetting, audit_auth_group_in_db, generate_audit_setting, find_setting, setting_group,
}
use dbshield.Audit.Create.{
  submit_log, start_flow, start_audit, create_audit, submit_with, is_some, new_audit, submission,
  with_groups,
}
use mathlib.Core.Path.{subst}
use dbshield.Audit.Outcomes.{Holds, save_audit-Holds}
use dbshield.Audit.Flow.{logged, start_flow-Waits, Flow, Submitted}

-- the outcome for a new row with the groups of the setting
start_flow-Flow :
    (a : WorkflowAudit) (groups : List String) (s : World)
    → a.audit_id ≡ none
    → split_comma a.audit_auth_groups ≡ groups
    → Returns (start_flow a groups) s (λ _ t. Flow groups t)
unfolding start_flow
start_flow-Flow a [] s e f = λ x h. cc
start_flow-Flow a (g ∷ rest) s e f = λ x h. (g, rest, refl, start_flow-Waits a g rest s e f x h)

-- the outcome when the system decides
decided :
    (a : WorkflowAudit) (status : WorkflowStatus) (info message : String) (s : World)
    → Returns
        (save_audit (record a { current_status = status }) >> (submit_log info >> pure message))
        s
        (λ _ t. Holds status t)
decided a status info message s =
    Returns-bind (save_audit (record a { current_status = status }))
      (λ _. submit_log info >> pure message) s (λ _ t. Holds status t) (λ _ t. Holds status t)
      (save_audit-Holds (record a { current_status = status }) s)
      (λ _ t h.
        logged info message t
          (λ self. (b : WorkflowAudit) × (self.audit ≡ some b) × (b.current_status ≡ status)) h)

by_flags :
    (r p : Bool) (x y z : Exec World String) (s : World) (P Q R : World → Type 0)
    → Returns x s (λ _ t. P t)
    → Returns y s (λ _ t. Q t)
    → ((r || p) ≡ false → Returns z s (λ _ t. R t))
    → Returns
        (if r then x else if p then y else z)
        s
        (λ _ t. if r then P t else if p then Q t else R t)
by_flags true p x y z s P Q R hx hy hz = hx
by_flags false true x y z s P Q R hx hy hz = hy
by_flags false false x y z s P Q R hx hy hz = hz refl

start_audit-Submitted :
    (a : WorkflowAudit) (setting : AuditSetting) (s : World)
    → a.audit_id ≡ none
    → ((setting.auto_reject || setting.auto_pass) ≡ false
        → split_comma a.audit_auth_groups ≡ setting.audit_auth_groups)
    → Returns (start_audit a setting) s (λ _ t. Submitted setting t)
unfolding start_audit
start_audit-Submitted a setting s e f =
    by_flags setting.auto_reject setting.auto_pass _ _ (start_flow a setting.audit_auth_groups) s
      (Holds rejected) (Holds passed) (Flow setting.audit_auth_groups)
      (decided a rejected "系统直接审核不通过" "直接审核不通过" s)
      (decided a passed "无需审批，系统直接审核通过" "无需审批, 直接审核通过" s)
      (λ manual. start_flow-Flow a setting.audit_auth_groups s e (f manual))

-- the groups that the row keeps are those of the setting
kept_groups :
    (setting : AuditSetting) (text : String)
    → setting.audit_auth_groups ≡ split_comma text
    → (setting.auto_reject || setting.auto_pass) ≡ false
    → split_comma (audit_auth_group_in_db setting) ≡ setting.audit_auth_groups
unfolding audit_auth_group_in_db
kept_groups setting text e manual =
    rw manual
      (ap (λ gs. split_comma (join_comma gs)) e ∙ ap split_comma (join-split_comma text) ∙ sym e)

groups_of : Result AuditSetting → List String
groups_of (ok setting) = setting.audit_auth_groups
groups_of (err c) = []

submit_with-Submitted :
    (setting : AuditSetting) (text : String) (s : World)
    → setting.audit_auth_groups ≡ split_comma text
    → Returns (submit_with setting) s (λ _ t. Submitted setting t)
unfolding submit_with new_audit
submit_with-Submitted setting text s e =
    Returns-bind (save_workflow (with_groups (audit_auth_group_in_db setting) s.self.workflow)) _ s
      (λ _ _. Unit) (λ _ t. Submitted setting t) (λ _ _. tt)
      (λ _ t _.
        start_audit-Submitted
          (new_audit (submission s.self s.self.workflow) t.self (audit_auth_group_in_db setting))
          setting t refl (kept_groups setting text e))

held_if :
    (r p : Bool) (P Q R : Type 0) (C : Type 0)
    → (P → C)
    → (Q → C)
    → (R → C)
    → (if r then P else if p then Q else R)
    → C
held_if true p P Q R C f g h = f
held_if false true P Q R C f g h = g
held_if false false P Q R C f g h = h

has_audit :
    (setting : AuditSetting) (t : World)
    → Submitted setting t
    → (b : WorkflowAudit) × (t.self.audit ≡ some b)
has_audit setting t =
    held_if setting.auto_reject setting.auto_pass (Holds rejected t) (Holds passed t)
      (Flow setting.audit_auth_groups t) ((b : WorkflowAudit) × (t.self.audit ≡ some b))
      (λ h. (h.0, h.1)) (λ h. (h.0, h.1)) (λ (_, _, _, w). (w.row, w.held))

module _ (re_match : Value → String → Bool) where
  from_text :
      (s : World) (setting : AuditSetting)
      → generate_audit_setting re_match s ≡ ok setting
      → (text : String) × (setting.audit_auth_groups ≡ split_comma text)
  unfolding generate_audit_setting groups_of
  from_text s setting h =
      let (st, _, later) =
        chain_parts
          (or_raise
            (find_setting s.db.settings s.self.workflow_type (setting_group s.self s.self.workflow))
            _)
          _ h in
      let (auto, _, last) = chain_parts (is_auto_review re_match s.self) _ later in
      (st.audit_auth_groups, sym (ap groups_of last))

  -- A submission for which no review is found, and that returned: the review is turned down or has
  -- passed where the setting says so, and otherwise a saved review waits at the first of the groups.
  pub create_audit-Submitted :
      (s : World) (setting : AuditSetting) (message : String)
      → get_audit_info s ≡ (ok none, s)
      → generate_audit_setting re_match s ≡ ok setting
      → (create_audit re_match s).0 ≡ ok message
      → Submitted setting (create_audit re_match s).1
  unfolding create_audit
  create_audit-Submitted s setting message e h =
      let (text, f) = from_text s setting h in
      subst (λ p. p.0 ≡ ok message → Submitted setting p.1)
        (sym (
          ap
            (λ p.
              continue p.0
                (λ info.
                  lift (raise_if (is_some info) (audit_exception "该工单当前状态为待审核，请勿重复提交"))
                  >> (reads (generate_audit_setting re_match) >>= submit_with))
                p.1)
            e
          ∙ ap (λ r. continue r submit_with s) h))
        (submit_with-Submitted setting text s f message)

  again :
      (t : World) (b : WorkflowAudit)
      → t.self.audit ≡ some b
      → create_audit re_match t ≡ (err (audit_exception "该工单当前状态为待审核，请勿重复提交"), t)
  unfolding create_audit get_audit_info
  again t b e = rw e refl

  -- After a submission that returned, the same object cannot be submitted once more: that raises and
  -- changes nothing.
  pub create_audit_twice :
      (s : World) (setting : AuditSetting) (message : String)
      → get_audit_info s ≡ (ok none, s)
      → generate_audit_setting re_match s ≡ ok setting
      → (create_audit re_match s).0 ≡ ok message
      → create_audit re_match (create_audit re_match s).1
        ≡ (err (audit_exception "该工单当前状态为待审核，请勿重复提交"), (create_audit re_match s).1)
  create_audit_twice s setting message e h done =
      let (b, held) = has_audit setting _ (create_audit-Submitted s setting message e h done) in
      again _ b held
