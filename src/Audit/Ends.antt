-- ===== src/Audit/Ends.antt =====
-- A review that everyone approves ends: sequences of `operate` with `PASS` in
-- sql/utils/workflow_audit.py.
use mathlib.Core.Path.{subst}
use dbshield.Common.{
  ℕ, suc, ◌+◌, String, true, ◌≡◌, ◌≢◌, refl, sym, ap, ◌∙◌, inl, inr, Option, some, List, [], ◌∷◌,
  ◌++◌, arith, length, length-append, Result, ok, continue,
}
use dbshield.Const.{pass}
use dbshield.Models.{Users, WorkflowAuditDetail}
use dbshield.Audit.State.{World}
use dbshield.Audit.CanOperate.{can_operate}
use dbshield.Audit.Operate.{operate}
use dbshield.Audit.Permissions.{can_operate_superuser}
use dbshield.Audit.Chain.{Distinct, advance_last, advance_next, ended, moved_to, regroup}
use dbshield.Audit.Passes.{IsNumeric, Decision, passes, Readable}
use dbshield.Audit.Progress.{Waits, Passed, operate_ok, operate_details, first_next, first_last}

-- everyone who decides is a superuser
abbrev pub AllSuper : List Decision → Type 0
AllSuper [] = Unit
AllSuper ((actor, remark) ∷ ds) = (actor.is_superuser ≡ true) × AllSuper ds

-- what a run of decisions that end the review leaves
pub record Ended (count : ℕ) (r : Result (Unit {0})) (t : World) (s : World) : Type 0 where
  pub returned : r ≡ ok tt
  pub review : Passed t
  pub rows : length t.db.details ≡ length s.db.details + count

passes_first :
    (actor : Users) (remark : String) (ds : List Decision) (s : World)
    (d : Option WorkflowAuditDetail)
    → (operate pass actor remark s).0 ≡ ok d
    → passes ((actor, remark) ∷ ds) s ≡ passes ds (operate pass actor remark s).1
unfolding passes
passes_first actor remark ds s d h =
    ap (λ r. continue r (λ _. passes ds) (operate pass actor remark s).1) h

one_more :
    (xs : List WorkflowAuditDetail) (d : WorkflowAuditDetail) {ys : List WorkflowAuditDetail}
    → ys ≡ xs ++ d ∷ []
    → length ys ≡ length xs + 1
one_more xs d e = ap length e ∙ length-append xs (d ∷ [])

module _ (prior : List String) (g : String) (actor : Users) (remark : String) (s : World)
    (super : actor.is_superuser ≡ true) where
  allowed : {rest : List String} → Waits prior g rest s → can_operate pass actor s ≡ ok tt
  allowed w = can_operate_superuser actor s w.row w.held w.at.is_waiting super

  last_ok :
      (w : Waits prior g [] s)
      → (d : WorkflowAuditDetail) × ((operate pass actor remark s).0 ≡ ok (some d))
  last_ok w =
      operate_ok w.row (ended w.row) actor remark s w.held
        (advance_last prior g w.row w.key s w.at w.saved) (allowed w) (inl refl)

  last_rows :
      (w : Waits prior g [] s)
      → length (operate pass actor remark s).1.db.details ≡ length s.db.details + 1
  last_rows w = one_more _ _ (
      operate_details w.row (ended w.row) actor remark s w.held
        (advance_last prior g w.row w.key s w.at w.saved) (allowed w))

  module _ (h : String) (rest : List String) (d : Distinct (prior ++ g ∷ h ∷ rest))
      (w : Waits prior g (h ∷ rest) s) where
    next_ok :
        Readable h → (d : WorkflowAuditDetail) × ((operate pass actor remark s).0 ≡ ok (some d))
    next_ok r =
        operate_ok w.row (moved_to h rest w.row) actor remark s w.held
          (advance_next prior g h rest w.row w.key s w.at d w.saved) (allowed w) r

    next_rows : length (operate pass actor remark s).1.db.details ≡ length s.db.details + 1
    next_rows = one_more _ _ (
        operate_details w.row (moved_to h rest w.row) actor remark s w.held
          (advance_next prior g h rest w.row w.key s w.at d w.saved) (allowed w))

add_up : (t m k n : ℕ) → t ≡ m + n → m ≡ k + 1 → t ≡ k + suc n
add_up t m k n e f = omega arith

not_empty : (n : ℕ) → 0 ≢ n + 1
not_empty n e = omega arith

too_long : (n : ℕ) → suc (suc n) ≢ 1
too_long n e = omega arith

-- From the node of `g`, where the groups are distinct and the later ones are numbers: an approval
-- by a superuser for this node and for each later one returns, ends the review, and adds one row each.
pub passes-Ended :
    (prior : List String) (g : String) (rest : List String) (ds : List Decision) (s : World)
    → Waits prior g rest s
    → Distinct (prior ++ g ∷ rest)
    → IsNumeric rest
    → AllSuper ds
    → length ds ≡ length rest + 1
    → Ended (length ds) (passes ds s).0 (passes ds s).1 s
unfolding passes
passes-Ended prior g rest [] s w d nums sup len = absurd (not_empty (length rest) len)
passes-Ended prior g [] ((actor, remark) ∷ []) s w d nums sup len =
    let (x, e) = last_ok prior g actor remark s sup.0 w in
    subst (λ p. Ended 1 p.0 p.1 s) (sym (passes_first actor remark [] s (some x) e))
      (record {
        returned = refl;
        review = first_last prior g actor remark s w (allowed prior g actor remark s sup.0 w);
        rows = last_rows prior g actor remark s sup.0 w;
      })
passes-Ended prior g [] ((actor, remark) ∷ (_, _) ∷ ds) s w d nums sup len =
    absurd (too_long (length ds) len)
passes-Ended prior g (h ∷ rest) ((actor, remark) ∷ ds) s w d nums sup len =
    let (x, e) = next_ok prior g actor remark s sup.0 h rest d w (inr nums.0) in
    let later =
      passes-Ended (prior ++ g ∷ []) h rest ds (operate pass actor remark s).1
        (first_next prior g h rest actor remark s w d (allowed prior g actor remark s sup.0 w))
        (regroup prior g h rest d) nums.1 sup.1 (omega arith) in
    subst (λ p. Ended (suc (length ds)) p.0 p.1 s) (sym (passes_first actor remark ds s (some x) e))
      (record {
        returned = later.returned;
        review = later.review;
        rows = add_up _ _ _ _ later.rows (next_rows prior g actor remark s sup.0 h rest d w);
      })
