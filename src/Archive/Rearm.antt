-- ===== src/Archive/Rearm.antt =====
-- `ArchiveAudit.post` of sql_api/api_archiver.py, for the actions `EXECUTE_*`, and `add_archive_task` of
-- sql/archiver.py after it.
use mathlib.Core.Path.{◌≡◌, refl, sym, ap, ◌∙◌, subst}
use mathlib.Core.Logic.{inl, inr}
use dbshield.Common.{
  ℕ, pos, String, true, false, ◌&&◌, ◌||◌, Bool-cases, Option, none, some, List, [], ◌∷◌, ◌++◌,
  nat_eq, string_eq, find, if◌then◌else◌, ok, ◌>>=◌, reads, continue,
}
use dbshield.Common.Among.{Among}
use dbshield.Common.Checks
use dbshield.Common.Checks.{or_raise}
use dbshield.Const.{
  passed, status_eq, WorkflowAction, submit, pass, reject, abort, execute_set_time, execute_start,
  execute_end,
}
use dbshield.Models.{Users, ResourceGroup, ArchiveConfig, archive_config, WorkflowAudit}
use dbshield.Audit.State.{World, get_audit}
use dbshield.Audit.CanOperate.{check_audit, check_grid, check_actor, supported_operation_grid}
use dbshield.Audit.Operate.{operate, decide}
use dbshield.Audit.Permissions.{can_operate-check_audit}
use dbshield.Online.State.{id_is}
use dbshield.Api.State.{Portal, archive_job, get_archive, update_archive}
use dbshield.Archive.Outcome.{or_raise_ok, world_of, auditor_for_world, group_named}
use dbshield.Archive.Review.{
  ArchiveRequest, done, resource_group_of, auditor_for, decided_job, after_step, in_transaction,
  action_given, audit_found, audit_given, audit_archive, has_number, is_named, job_of,
  is_switched_on, jobs_of, add_archive_task,
}

-- the three actions of the execution
abbrev pub IsExecution : WorkflowAction → Type 0
IsExecution submit = ⊥
IsExecution pass = ⊥
IsExecution reject = ⊥
IsExecution abort = ⊥
IsExecution execute_set_time = Unit {0}
IsExecution execute_start = Unit {0}
IsExecution execute_end = Unit {0}

check_audit_open :
    (action : WorkflowAction) (user : Users) (w : World) (audit : WorkflowAudit)
    → IsExecution action
    → audit.current_status ≡ passed
    → check_audit action user w audit ≡ ok tt
unfolding check_audit check_grid check_actor supported_operation_grid
check_audit_open submit user w audit x e = absurd x
check_audit_open pass user w audit x e = absurd x
check_audit_open reject user w audit x e = absurd x
check_audit_open abort user w audit x e = absurd x
check_audit_open execute_set_time user w audit x e =
    ap
      (λ st.
        Checks.◌>>=◌ (check_grid st execute_set_time (supported_operation_grid st)) (λ _. ok tt))
      e
check_audit_open execute_start user w audit x e =
    ap (λ st. Checks.◌>>=◌ (check_grid st execute_start (supported_operation_grid st)) (λ _. ok tt))
      e
check_audit_open execute_end user w audit x e =
    ap (λ st. Checks.◌>>=◌ (check_grid st execute_end (supported_operation_grid st)) (λ _. ok tt)) e

decide_nothing :
    (action : WorkflowAction) (user : Users) (remark : String) (w : World)
    → IsExecution action
    → decide action user remark w ≡ (ok none, w)
unfolding decide
decide_nothing submit user remark w x = absurd x
decide_nothing pass user remark w x = absurd x
decide_nothing reject user remark w x = absurd x
decide_nothing abort user remark w x = absurd x
decide_nothing execute_set_time user remark w x = refl
decide_nothing execute_start user remark w x = refl
decide_nothing execute_end user remark w x = refl

-- such an action on a review that has passed is let through for everyone, and changes nothing
operate_open :
    (action : WorkflowAction) (user : Users) (remark : String) (w : World) (audit : WorkflowAudit)
    → IsExecution action
    → w.self.audit ≡ some audit
    → audit.current_status ≡ passed
    → operate action user remark w ≡ (ok none, w)
unfolding operate
operate_open action user remark w audit x held e =
    ap (λ c. continue c (λ _. decide action user remark) w)
      (can_operate-check_audit action user w audit held ∙ check_audit_open action user w audit x e)
    ∙ decide_nothing action user remark w x

abbrev pub switched_on : ℕ → Portal → Portal
switched_on n p = record p { archives = update_archive n (decided_job passed) p.archives }

-- the transaction of such an action
transaction_open :
    (action : WorkflowAction) (user : Users) (remark : String) (n : ℕ) (a : ArchiveConfig)
    (g found : ResourceGroup) (audit : WorkflowAudit) (p : Portal)
    → IsExecution action
    → get_audit p.db.audits (archive_config a) ≡ some audit
    → audit.current_status ≡ passed
    → in_transaction (operate action user remark (world_of a g found p)) n p
      ≡ (ok done, switched_on n p)
transaction_open action user remark n a g found audit p x held e =
    ap (λ o. in_transaction o n p)
      (operate_open action user remark (world_of a g found p) audit x held e)
    ∙ ap (λ o. after_step o (world_of a g found p) n p) held
    ∙ ap (λ st. (ok done, record p { archives = update_archive n (decided_job st) p.archives })) e

-- the request as a whole
audit_archive-switched_on :
    (text : String) (r : ArchiveRequest) (user : Users) (p : Portal) (n : ℕ)
    (action : WorkflowAction) (a : ArchiveConfig) (g : ResourceGroup) (audit : WorkflowAudit)
    → r.archive_id ≡ some (pos n)
    → action_given r.audit_status ≡ some action
    → IsExecution action
    → get_archive n p ≡ ok a
    → resource_group_of a p ≡ ok g
    → get_audit p.db.audits (archive_config a) ≡ some audit
    → audit.current_status ≡ passed
    → audit_archive text r user p ≡ (ok done, switched_on n p)
unfolding audit_archive
audit_archive-switched_on text r user p n action a g audit i k x e h held s =
    let (found, named) = group_named a g p h in
    ap (λ id. audit_given text r user id (action_given r.audit_status) p) i
    ∙ ap (λ o. audit_given text r user (some (pos n)) o p) k
    ∙ ap (λ o. audit_found r user action n o p) e
    ∙ ap
        (λ o.
          continue o
            (λ y.
              reads (auditor_for a y)
              >>= (λ w. in_transaction (operate action user r.audit_remark w) n))
            p)
        h
    ∙ ap (λ o. continue o (λ w. in_transaction (operate action user r.audit_remark w) n) p)
        (auditor_for_world a g found p named)
    ∙ transaction_open action user r.audit_remark n a g found audit p x held s

id_is-some : (n : ℕ) (id : Option ℕ) → id_is n id ≡ true → id ≡ some n
id_is-some n none h = cc h
id_is-some n (some m) h = ap some ((nat_eq.same_iff m n).0 h)

Among-append_right : {A : Type 0} (x : A) (xs ys : List A) → Among x ys → Among x (xs ++ ys)
Among-append_right x [] ys m = m
Among-append_right x (y ∷ xs) ys m = inr (Among-append_right x xs ys m)

active_first :
    (n : ℕ) (b : ArchiveConfig) (more : List ArchiveConfig)
    → b.id ≡ some n
    → Among (archive_job n) (jobs_of (n ∷ []) (decided_job passed b ∷ more))
unfolding jobs_of is_switched_on
active_first n b more e =
    let rest = jobs_of (n ∷ []) more in
    let active : is_switched_on (n ∷ []) (decided_job passed b) ≡ true =
      ap (λ id. is_named (n ∷ []) id && true) e
      ∙ ap (λ c. (c || false) && true) ((nat_eq.same_iff n n).1 refl) in
    subst (Among (archive_job n))
      (sym
        (ap (λ c. if c then job_of b.id ++ rest else rest) active ∙ ap (λ id. job_of id ++ rest) e))
      (inl refl)

later_job :
    (n : ℕ) (b : ArchiveConfig) (more : List ArchiveConfig)
    → Among (archive_job n) (jobs_of (n ∷ []) more)
    → Among (archive_job n) (jobs_of (n ∷ []) (b ∷ more))
unfolding jobs_of
later_job n b more m = elim (Bool-cases (is_switched_on (n ∷ []) b)) [
  | inl e ↦ rw e (Among-append_right (archive_job n) (job_of b.id) (jobs_of (n ∷ []) more) m)
  | inr e ↦ rw e m
]

jobs_of-switched_on :
    (n : ℕ) (archives : List ArchiveConfig) (a : ArchiveConfig)
    → find (has_number n) archives ≡ some a
    → Among (archive_job n) (jobs_of (n ∷ []) (update_archive n (decided_job passed) archives))
unfolding update_archive
jobs_of-switched_on n [] a h = cc h
jobs_of-switched_on n (b ∷ more) a h = elim (Bool-cases (has_number n b)) [
  | inl e ↦ rw e (active_first n b more (id_is-some n b.id e))
  | inr e ↦ rw e (
      later_job n b (update_archive n (decided_job passed) more)
        (jobs_of-switched_on n more a (rw e at h)))
]

-- A logged-in user, of whom nothing else is asked, who sends one of the actions of the execution for a job with a passed
-- review, is answered with `ok`; the job is switched on, also where a manager had switched it off, and
-- its archiving is handed to the queue at the next run of `add_archive_task` for it.
pub audit_archive-queued :
    (text : String) (r : ArchiveRequest) (user : Users) (p : Portal) (n : ℕ)
    (action : WorkflowAction) (a : ArchiveConfig) (g : ResourceGroup) (audit : WorkflowAudit)
    → r.archive_id ≡ some (pos n)
    → action_given r.audit_status ≡ some action
    → IsExecution action
    → get_archive n p ≡ ok a
    → resource_group_of a p ≡ ok g
    → get_audit p.db.audits (archive_config a) ≡ some audit
    → audit.current_status ≡ passed
    → ((audit_archive text r user p).0 ≡ ok done)
      × Among (archive_job n) (add_archive_task (n ∷ []) (audit_archive text r user p).1).tasks
unfolding add_archive_task get_archive
audit_archive-queued text r user p n action a g audit i k x e h held s =
    let run = audit_archive-switched_on text r user p n action a g audit i k x e h held s in
    (
      ap (λ o. o.0) run,
      subst (λ o. Among (archive_job n) (add_archive_task (n ∷ []) o.1).tasks) (sym run)
          (Among-append_right (archive_job n) p.tasks _ (
            jobs_of-switched_on n p.archives a (or_raise_ok (find (has_number n) p.archives) a e))),
    )
