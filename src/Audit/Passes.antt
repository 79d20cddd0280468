-- ===== src/Audit/Passes.antt =====
-- A sequence of approvals goes through the nodes one by one: `operate` with `PASS` in
-- sql/utils/workflow_audit.py.
use dbshield.Common.{
  ℕ, String, ◌≡◌, refl, ap, ◌∙◌, ◌⊎◌, inl, inr, Option, none, some, List, [], ◌∷◌, ◌++◌, arith,
  ◌==◌, string_eq, eq_iff, int, pos, Exec, ok, pure, continue, Bool-cases, nat_eq, find,
  does_not_exist, audit_exception, Exc, ◌>>=◌, ◌>>◌,
}
use dbshield.Common.Checks.{or_raise, if_missing}
use dbshield.Const.{passed, pass}
use dbshield.Models.{Users, Group, WorkflowAudit, WorkflowAuditDetail}
use dbshield.Audit.State.{World, add_detail, add_log, get_group}
use dbshield.Audit.Lookup.{no_one}
use dbshield.Audit.Operate.{
  advance, pass_audit, record_pass, the_audit, detail_of, operate_pass, operate, pass_info, name_of,
  info_for,
}
use dbshield.Audit.Chain.{stored}

abbrev no_audit : Exc
no_audit = audit_exception "给定工单未绑定审批信息, 无法进行操作"

-- the ids of the groups are numbers
abbrev pub IsNumeric : List String → Type 0
IsNumeric [] = Unit
IsNumeric (g ∷ gs) = ((n : ℕ) × (int g ≡ some (pos n))) × IsNumeric gs

-- `reason` a decision: who takes it, and the remark
abbrev pub Decision : Type 0
Decision = Users × String

unfoldable pub passes : List Decision → Exec World (Unit {0})
passes [] = pure tt
passes ((actor, remark) ∷ ds) = operate pass actor remark >> passes ds

-- After `advance`, the rows are written for the audit as it stands then.
pub operate_pass-advance :
    (a b : WorkflowAudit) (actor : Users) (remark : String) (s : World)
    → s.self.audit ≡ some a
    → advance a s ≡ (ok tt, stored b s)
    → operate_pass actor remark s ≡ record_pass actor remark b (stored b s)
unfolding operate_pass pass_audit
operate_pass-advance a b actor remark s e h =
    ap (λ o. continue (or_raise o no_audit) (pass_audit actor remark) s) e
    ∙ ap (λ p. continue p.0 (λ _. the_audit >>= record_pass actor remark) p.1) h

-- what the rows leave
pub record_pass-self :
    (actor : Users) (remark : String) (a : WorkflowAudit) (s : World)
    → (record_pass actor remark a s).1.self ≡ s.self
unfolding record_pass add_detail add_log
record_pass-self actor remark a s = ground arith

pub record_pass-groups :
    (actor : Users) (remark : String) (a : WorkflowAudit) (s : World)
    → (record_pass actor remark a s).1.db.groups ≡ s.db.groups
unfolding record_pass add_detail add_log
record_pass-groups actor remark a s = ground arith

pub record_pass-details :
    (actor : Users) (remark : String) (a : WorkflowAudit) (s : World)
    → (record_pass actor remark a s).1.db.details
      ≡ s.db.details ++ detail_of a actor passed s.db.now remark ∷ []
unfolding record_pass add_detail add_log
record_pass-details actor remark a s = ground arith

-- the note of the log names the next group, or its id where there is none
abbrev pub Readable : String → Type 0
Readable text = (text ≡ no_one) ⊎ ((n : ℕ) × (int text ≡ some (pos n)))

named :
    (remark text : String) (found : Option Group)
    → (t : String) × (info_for remark (if_missing (name_of (or_raise found does_not_exist)) text)
        ≡ ok t)
named remark text none = (_, refl)
named remark text (some g) = (_, refl)

pass_info_ok :
    (remark : String) (a : WorkflowAudit) (s : World)
    → Readable a.current_audit
    → (t : String) × (pass_info remark a s ≡ ok t)
unfolding pass_info get_group
pass_info_ok remark a s (inl e) = rw ((eq_iff a.current_audit no_one).1 e) (_, refl)
pass_info_ok remark a s (inr (n, e)) = elim (Bool-cases (a.current_audit == no_one)) [
  | inl q ↦ rw q (_, refl)
  | inr q ↦ rw (q, e) (named remark a.current_audit (find (λ g. g.id == n) s.db.groups))
]

pub record_pass_ok :
    (actor : Users) (remark : String) (a : WorkflowAudit) (s : World)
    → Readable a.current_audit
    → (d : WorkflowAuditDetail) × ((record_pass actor remark a s).0 ≡ ok d)
unfolding record_pass add_detail add_log
record_pass_ok actor remark a s h =
    let (t, p) =
      pass_info_ok remark a
        (record s {
          db = record s.db {
            details = s.db.details ++ detail_of a actor passed s.db.now remark ∷ [];
          };
        })
        h in
    rw p (_, refl)
