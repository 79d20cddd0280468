-- ===== src/Api/Modes.antt =====
-- `ExecuteWorkflowSerializer` of sql_api/serializers.py: the mode of a request on a SQL workflow.
use mathlib.Core.Path.{◌≡◌, refl, sym, ap, ◌∙◌}
use mathlib.Core.Logic.{◌⊎◌, inl, inr}
use dbshield.Common.{
  String, Bool, true, false, not, Option, none, some, [], ◌∷◌, ◌==◌, string_eq, contains,
  if◌then◌else◌, Bool-cases, eq_iff,
}
use dbshield.Const.{sql_review, type_eq}
use dbshield.Models.{WorkflowAudit}
use dbshield.Api.State.{Portal}
use dbshield.Api.Review.{find_audit}
use dbshield.Api.Execute.{
  ExecuteRequest, as_number, decoded, typed_errors, is_given, is_mode, sql_errors, audit_errors,
  execute_errors,
}

-- the two ways to execute
abbrev pub IsMode : Option String → Type 0
IsMode mode = (mode ≡ some "auto") ⊎ (mode ≡ some "manual")

neither :
    (m : String)
    → ("auto" == m) ≡ false
    → ("manual" == m) ≡ false
    → contains ("auto" ∷ "manual" ∷ []) m ≡ false
neither m e k = rw (e, k) refl

contains-IsMode : (m : String) → contains ("auto" ∷ "manual" ∷ []) m ≡ true → IsMode (some m)
contains-IsMode m h = elim (Bool-cases ("auto" == m)) [
  | inl e ↦ inl (ap some (sym ((eq_iff "auto" m).0 e)))
  | inr e ↦ elim (Bool-cases ("manual" == m)) [
    | inl k ↦ inr (ap some (sym ((eq_iff "manual" m).0 k)))
    | inr k ↦ cc (neither m e k, h)
  ]
]

errors-IsMode :
    (r : ExecuteRequest) (p : Portal) (given : Bool) (found : Option WorkflowAudit)
    (mode : Option String)
    → (if not given
        then some "engineer"
        else if not (is_mode mode)
        then some "mode"
        else audit_errors (sql_errors mode r.engineer p) found)
      ≡ none
    → IsMode mode
errors-IsMode r p false found mode h = cc h
errors-IsMode r p true found none h = cc h
errors-IsMode r p true found (some m) h = elim (Bool-cases (contains ("auto" ∷ "manual" ∷ []) m)) [
  | inl e ↦ contains-IsMode m e
  | inr e ↦ cc (rw e at h)
]

pub execute_errors-IsMode :
    (r : ExecuteRequest) (p : Portal)
    → r.workflow_type ≡ as_number 2
    → execute_errors r p ≡ none
    → IsMode r.mode
unfolding execute_errors
execute_errors-IsMode r p t h =
    errors-IsMode r p (is_given r.engineer) (find_audit sql_review r.workflow_id p) r.mode (
      sym (
        ap
          (λ v. if not (is_given r.engineer) then some "engineer" else typed_errors (decoded v) r p)
          t)
      ∙ h)
