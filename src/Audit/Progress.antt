-- ===== src/Audit/Progress.antt =====
-- A review goes through its nodes in their order: sequences of `operate` with `PASS` in
-- sql/utils/workflow_audit.py.
use mathlib.Core.List.{append_assoc}
use mathlib.Core.Path.{subst}
use dbshield.Common.{
  ℕ, String, ◌≡◌, ◌≢◌, refl, sym, ap, ◌∙◌, Option, some, List, [], ◌∷◌, ◌++◌, Result, ok, err, pure,
  continue, exec_parts, reads, ◌>>=◌,
}
use dbshield.Const.{waiting, passed, pass}
use dbshield.Models.{Users, WorkflowAudit, WorkflowAuditDetail}
use dbshield.Audit.State.{World}
use dbshield.Audit.CanOperate.{can_operate}
use dbshield.Audit.Operate.{advance, record_pass, operate_pass, operate, decide, detail_of}
use dbshield.Audit.Permissions.{pass_waiting}
use dbshield.Audit.Chain.{
  AtNode, Distinct, stored, advance_last, advance_next, ended, moved_to, regroup,
}
use dbshield.Audit.Passes.{
  Decision, passes, Readable, operate_pass-advance, record_pass-self, record_pass-details,
  record_pass_ok,
}

-- The object holds a saved audit at the node of `g`.
pub record Waits (prior : List String) (g : String) (rest : List String) (s : World) : Type 0 where
  pub row : WorkflowAudit
  pub held : s.self.audit ≡ some row
  pub key : ℕ
  pub saved : row.audit_id ≡ some key
  pub at : AtNode prior g rest row

-- The object holds an audit whose review has ended with success.
pub record Passed (s : World) : Type 0 where
  pub row : WorkflowAudit
  pub held : s.self.audit ≡ some row
  pub status : row.current_status ≡ passed

-- `Reached prior g rest ds s`: from the node of `g`, one node for each decision.
abbrev pub Reached : List String → String → List String → List Decision → World → Type 0
Reached prior g rest [] s = Waits prior g rest s
Reached prior g [] (d ∷ ds) s = Passed s × (ds ≡ [])
Reached prior g (h ∷ rest) (d ∷ ds) s = Reached (prior ++ g ∷ []) h rest ds s

finish_state :
    (r : Result WorkflowAuditDetail) (t : World) → (continue r (λ d. pure (some d)) t).1 ≡ t
finish_state (ok d) t = refl
finish_state (err c) t = refl

-- an approval that is allowed is what `operate_pass` does
operate-operate_pass :
    (actor : Users) (remark : String) (s : World)
    → can_operate pass actor s ≡ ok tt
    → operate pass actor remark s ≡ (operate_pass actor remark >>= λ d. pure (some d)) s
unfolding operate decide
operate-operate_pass actor remark s h = ap (λ r. continue r (λ _. decide pass actor remark) s) h

module _ (a b : WorkflowAudit) (actor : Users) (remark : String) (s : World)
    (held : s.self.audit ≡ some a) (moves : advance a s ≡ (ok tt, stored b s))
    (allowed : can_operate pass actor s ≡ ok tt) where
  operate-record_pass :
      operate pass actor remark s
      ≡ (let p = record_pass actor remark b (stored b s) in continue p.0 (λ d. pure (some d)) p.1)
  operate-record_pass =
      operate-operate_pass actor remark s allowed
      ∙ ap (λ p. continue p.0 (λ d. pure (some d)) p.1)
          (operate_pass-advance a b actor remark s held moves)

  operate_state : (operate pass actor remark s).1 ≡ (record_pass actor remark b (stored b s)).1
  operate_state = ap (λ p. p.1) operate-record_pass ∙ finish_state _ _

  pub operate_held : (operate pass actor remark s).1.self.audit ≡ some b
  operate_held =
      ap (λ t. t.self.audit) operate_state
      ∙ ap (λ o. o.audit) (record_pass-self actor remark b (stored b s))

  pub operate_details :
      (operate pass actor remark s).1.db.details
      ≡ s.db.details ++ detail_of b actor passed s.db.now remark ∷ []
  operate_details =
      ap (λ t. t.db.details) operate_state ∙ record_pass-details actor remark b (stored b s)

  pub operate_ok :
      Readable b.current_audit
      → (d : WorkflowAuditDetail) × ((operate pass actor remark s).0 ≡ ok (some d))
  operate_ok r =
      let (d, e) = record_pass_ok actor remark b (stored b s) r in
      (
        d,
        ap (λ p. p.0) operate-record_pass
            ∙ ap
                (λ x.
                  (continue x (λ d. pure (some d)) (record_pass actor remark b (stored b s)).1).0)
                e,
      )

-- one approval, by where the review stands
pub first_next :
    (prior : List String) (g h : String) (rest : List String) (actor : Users) (remark : String)
    (s : World)
    → (w : Waits prior g (h ∷ rest) s) → Distinct (prior ++ g ∷ h ∷ rest)
    → can_operate pass actor s ≡ ok tt
    → Waits (prior ++ g ∷ []) h rest (operate pass actor remark s).1
first_next prior g h rest actor remark s w d allowed = record {
  row = moved_to h rest w.row;
  held =
      operate_held w.row (moved_to h rest w.row) actor remark s w.held
        (advance_next prior g h rest w.row w.key s w.at d w.saved) allowed;
  key = w.key;
  saved = w.saved;
  at = record {
    nodes = w.at.nodes ∙ sym (append_assoc prior (g ∷ []) (h ∷ rest));
    is_waiting = refl;
    current = refl;
    next = refl;
  };
}

pub first_last :
    (prior : List String) (g : String) (actor : Users) (remark : String) (s : World)
    → Waits prior g [] s
    → can_operate pass actor s ≡ ok tt
    → Passed (operate pass actor remark s).1
first_last prior g actor remark s w allowed = record {
  row = ended w.row;
  held =
      operate_held w.row (ended w.row) actor remark s w.held
        (advance_last prior g w.row w.key s w.at w.saved) allowed;
  status = refl;
}

passed≢waiting : passed ≢ waiting
passed≢waiting e = cc

stuck : (actor : Users) (s : World) → Passed s → can_operate pass actor s ≢ ok tt
stuck actor s p h = cc (pass_waiting actor s p.row p.held h, p.status)

operate_allowed :
    (actor : Users) (remark : String) (s : World) {d : Option WorkflowAuditDetail}
    → (operate pass actor remark s).0 ≡ ok d
    → can_operate pass actor s ≡ ok tt
unfolding operate
operate_allowed actor remark s h =
    (exec_parts (reads (can_operate pass actor)) (λ _. decide pass actor remark) s h).1

-- a run that returned returned at each decision
pub passes_parts :
    (actor : Users) (remark : String) (ds : List Decision) (s : World)
    → (passes ((actor, remark) ∷ ds) s).0 ≡ ok tt
    → (can_operate pass actor s ≡ ok tt)
      × ((passes ds (operate pass actor remark s).1).0 ≡ ok tt)
      × ((passes ((actor, remark) ∷ ds) s).1 ≡ (passes ds (operate pass actor remark s).1).1)
unfolding passes
passes_parts actor remark ds s h =
    let (d, p, q) = exec_parts (operate pass actor remark) (λ _. passes ds) s h in
    (operate_allowed actor remark s p, sym (ap (λ x. x.0) q) ∙ h, ap (λ x. x.1) q)

-- From a saved audit at the node of g, where the groups of the nodes are distinct and none is "-1":
-- approvals by any users that all returned left the review at the node as many places later, or passed
-- when there was one for each node; more than that never all return.
pub passes-Reached :
    (prior : List String) (g : String) (rest : List String) (ds : List Decision) (s : World)
    → Waits prior g rest s
    → Distinct (prior ++ g ∷ rest)
    → (passes ds s).0 ≡ ok tt
    → Reached prior g rest ds (passes ds s).1
unfolding passes
passes-Reached prior g rest [] s w d h = w
passes-Reached prior g [] ((actor, remark) ∷ []) s w d h =
    let (allowed, _, e) = passes_parts actor remark [] s h in
    (subst Passed (sym e) (first_last prior g actor remark s w allowed), refl)
passes-Reached prior g [] ((actor, remark) ∷ (next, note) ∷ ds) s w d h =
    let (allowed, later, _) = passes_parts actor remark ((next, note) ∷ ds) s h in
    absurd (
      stuck next _ (first_last prior g actor remark s w allowed)
        (passes_parts next note ds _ later).0)
passes-Reached prior g (r ∷ rest) ((actor, remark) ∷ ds) s w d h =
    let (allowed, later, e) = passes_parts actor remark ds s h in
    subst (Reached (prior ++ g ∷ []) r rest ds) (sym e) (
      passes-Reached (prior ++ g ∷ []) r rest ds _
        (first_next prior g r rest actor remark s w d allowed) (regroup prior g r rest d) later)
