-- ===== src/Online/Rights.antt =====
-- What the tests of sql/utils/sql_review.py mean, and how they go together.
use dbshield.Common.{
  ℕ, Bool, true, false, not, ◌&&◌, ◌≡◌, ◌↔◌, ◌⊎◌, inl, inr, ◌||◌, refl, sym, ap, ◌∙◌, [], ◌∷◌, ◌==◌,
  nat_eq, string_eq, contains, Result, ok, err, arith, eq_iff, if◌then◌else◌,
}
use dbshield.Common.Checks.{◌>>=◌, chain_parts}
use dbshield.Const.{
  SqlStatus, workflow_review_pass, workflow_timingtask, workflow_finish, workflow_exception,
  workflow_manreviewing, sql_status_eq,
}
use dbshield.Models.{Users, SqlWorkflow}
use dbshield.Online.State.{Site, get_workflow}
use dbshield.Online.Groups.{BelongsTo, group_ids-BelongsTo}
use dbshield.Online.Access.{
  is_executor, executable, can_execute, can_timingtask, can_cancel, can_view, can_rollback,
}

-- `MayExecute w u s`: the workflow passed its review or is scheduled; and the user has the permission
-- for the resource group and the workflow's group counts for the user, or has the permission for his own
-- workflows and is the submitter.
pub record MayExecute (w : SqlWorkflow) (u : Users) (s : Site) : Type 0 where
  pub ready : (w.status ≡ workflow_review_pass) ⊎ (w.status ≡ workflow_timingtask)
  pub executor :
      (BelongsTo w.group_id u s × (u.has_perm "sql.sql_execute_for_resource_group" ≡ true))
      ⊎ ((w.engineer ≡ u.username) × (u.has_perm "sql.sql_execute" ≡ true))

abbrev Ready : SqlStatus → Type 0
Ready st = (st ≡ workflow_review_pass) ⊎ (st ≡ workflow_timingtask)

executable-Ready : (st : SqlStatus) → (contains executable st ≡ true) ↔ Ready st
executable-Ready st = ground arith

abbrev Executor : SqlWorkflow → Users → Site → Type 0
Executor w u s =
    (BelongsTo w.group_id u s × (u.has_perm "sql.sql_execute_for_resource_group" ≡ true))
    ⊎ ((w.engineer ≡ u.username) × (u.has_perm "sql.sql_execute" ≡ true))

either_right :
    (b c : Bool) {P Q : Type 0} → (b ≡ true) ↔ P → (c ≡ true) ↔ Q → ((b || c) ≡ true) ↔ (P ⊎ Q)
either_right true c p q = ((λ h. inl (p.0 refl)), (λ h. refl))
either_right false c p q =
    ((λ h. inr (q.0 h)), (λ h. elim h [ inl x ↦ cc (p.1 x) | inr y ↦ q.1 y ]))

and_right :
    (b c : Bool) {P Q : Type 0} → (b ≡ true) ↔ P → (c ≡ true) ↔ Q → ((b && c) ≡ true) ↔ (P × Q)
and_right true c p q = ((λ h. (p.0 refl, q.0 h)), (λ h. q.1 h.1))
and_right false c p q = ((λ h. cc h), (λ h. cc (p.1 h.0)))

itself : {A : Type 0} → A ↔ A
itself = ((λ a. a), (λ a. a))

is_executor-Executor :
    (u : Users) (w : SqlWorkflow) (s : Site) → (is_executor u w s ≡ true) ↔ Executor w u s
unfolding is_executor
is_executor-Executor u w s =
    either_right _ _ (and_right _ _ (group_ids-BelongsTo w.group_id u s) itself)
      (and_right _ _ (eq_iff w.engineer u.username) itself)

true_parts : (b c : Bool) → (if not b then false else c) ≡ true → (b ≡ true) × (c ≡ true)
true_parts b c h = ground arith

true_of : (b : Bool) → ok b ≡ ok true → b ≡ true
true_of b h = cc

can_execute_value :
    (u : Users) (n : ℕ) (s : Site) (w : SqlWorkflow)
    → get_workflow n s ≡ ok w
    → can_execute u n s
      ≡ ok (if not (contains executable w.status) then false else is_executor u w s)
unfolding can_execute
can_execute_value u n s w e =
    ap
      (λ r. r >>= λ v. ok (if not (contains executable v.status) then false else is_executor u v s))
      e

-- A workflow that is there may be executed by a user exactly when `MayExecute` holds.
pub can_execute_iff :
    (u : Users) (n : ℕ) (s : Site) (w : SqlWorkflow)
    → get_workflow n s ≡ ok w
    → (can_execute u n s ≡ ok true) ↔ MayExecute w u s
can_execute_iff u n s w e = (
  (λ h.
      let (b, c) =
        true_parts (contains executable w.status) (is_executor u w s)
          (true_of _ (sym (can_execute_value u n s w e) ∙ h)) in
      record {
        ready = (executable-Ready w.status).0 b;
        executor = (is_executor-Executor u w s).0 c;
      }),
  (λ m.
      can_execute_value u n s w e
      ∙ rw ((executable-Ready w.status).1 m.ready, (is_executor-Executor u w s).1 m.executor) refl),
)

swapped : (b c : Bool) → (if b then c else false) ≡ (if not b then false else c)
swapped true c = refl
swapped false c = refl

either_way :
    (r : Result SqlWorkflow) (f g : SqlWorkflow → Bool)
    → ((w : SqlWorkflow) → f w ≡ g w)
    → (r >>= λ w. ok (f w)) ≡ (r >>= λ w. ok (g w))
either_way (ok w) f g h = ap ok (h w)
either_way (err c) f g h = refl

-- Who may execute a workflow may schedule it, and no one else.
pub can_timingtask-can_execute :
    (u : Users) (n : ℕ) (s : Site) → can_timingtask u n s ≡ can_execute u n s
unfolding can_timingtask can_execute
can_timingtask-can_execute u n s =
    either_way (get_workflow n s) _ _
      (λ w. swapped (contains executable w.status) (is_executor u w s))

not_review :
    (st : SqlStatus) → contains executable st ≡ true → (st == workflow_manreviewing) ≡ false
not_review st h = ground arith

found :
    (u : Users) (n : ℕ) (s : Site)
    → can_execute u n s ≡ ok true
    → (w : SqlWorkflow) × (get_workflow n s ≡ ok w)
unfolding can_execute
found u n s h = let (w, e, _) = chain_parts (get_workflow n s) _ h in (w, e)

-- Who may execute a workflow may stop it.
pub can_execute-can_cancel :
    (u : Users) (n : ℕ) (s : Site) → can_execute u n s ≡ ok true → can_cancel u n s ≡ ok true
unfolding can_cancel
can_execute-can_cancel u n s h =
    let (w, e) = found u n s h in
    let b = (executable-Ready w.status).1 ((can_execute_iff u n s w e).0 h).ready in
    rw (e, not_review w.status b, b, h) refl

answered : (b : Bool) (r : Result Bool) → (if b then r else ok false) ≡ ok true → r ≡ ok true
answered true r h = h
answered false r h = cc

-- Who may see the rollback of a workflow may see the workflow.
pub can_rollback-can_view :
    (u : Users) (n : ℕ) (s : Site) → can_rollback u n s ≡ ok true → can_view u n s ≡ ok true
unfolding can_rollback
can_rollback-can_view u n s h =
    let (w, _, k) = chain_parts (get_workflow n s) _ h in
    answered (w.is_backup && contains (workflow_finish ∷ workflow_exception ∷ []) w.status)
      (can_view u n s) k
