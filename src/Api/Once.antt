-- ===== src/Api/Once.antt =====
-- `ExecuteWorkflow.post` of sql_api/api_workflow.py: a workflow is given to the queue once, and the
-- queue runs it.
use mathlib.Core.Path.{◌≡◌, refl, sym, ap, ◌∙◌, subst}
use mathlib.Core.Logic.{◌≢◌, inl, inr}
use dbshield.Common.{
  ℕ, String, true, Option, none, some, [], ◌∷◌, ◌++◌, string_eq, find, Result, ok,
}
use dbshield.Const.{
  sql_review, type_eq, SqlStatus, workflow_queuing, workflow_review_pass, workflow_timingtask,
}
use dbshield.Models.{Users, SqlWorkflow, WorkflowAudit}
use dbshield.Audit.State.{is_audit_of}
use dbshield.Online.State.{
  Site, find_workflow, get_workflow, update_workflow, add_log, has_id, detail_by_workflow_id,
}
use dbshield.Online.Access.{on_correct_time_period}
use dbshield.Online.Execute.{with_status, ReviewSet, execute, mark_executing, run_engine}
use dbshield.Online.Effects.{changed, find-update_same}
use dbshield.Online.Rights.{MayExecute}
use dbshield.Api.State.{Portal, execute_job, site_of}
use dbshield.Api.Review.{message, acting_user}
use dbshield.Api.Execute.{
  ExecuteRequest, as_number, engineer_text, finished_by_hand, run_mode, execute_post,
}
use dbshield.Api.Modes.{IsMode}
use dbshield.Api.Execution.{
  Checked, execute_post-Ran, run_auto, run_manual-workflows, find_workflow-get,
}

-- a status from which nothing is executed
abbrev NotReady : SqlStatus → Type 0
NotReady status = (status ≢ workflow_review_pass) × (status ≢ workflow_timingtask)

abbrev IsDone : ℕ → Portal → Type 0
IsDone n q = (w : SqlWorkflow) × (find_workflow n q.workflows ≡ some w) × NotReady w.status

update_workflow-IsDone :
    (n : ℕ) (f : SqlWorkflow → SqlWorkflow) (p q : Portal) (w : SqlWorkflow)
    → ((v : SqlWorkflow) → has_id n (f v) ≡ has_id n v)
    → q.workflows ≡ update_workflow n f p.workflows
    → find_workflow n p.workflows ≡ some w
    → NotReady (f w).status
    → IsDone n q
update_workflow-IsDone n f p q w k e there not_ready = (
  f w,
  ap (λ ws. find_workflow n ws) e
      ∙ find-update_same n f p.workflows k
      ∙ ap (λ o. changed f o) there,
  not_ready,
)

run_mode-IsDone :
    (mode : Option String) (n : ℕ) (user : Users) (id : Option ℕ) (p : Portal) (w : SqlWorkflow)
    → IsMode mode
    → find_workflow n p.workflows ≡ some w
    → IsDone n (run_mode mode n user id p).1
run_mode-IsDone mode n user id p w (inl e) there =
    subst (λ m. IsDone n (run_mode m n user id p).1) (sym e)
      (update_workflow-IsDone n (with_status workflow_queuing) p
        (run_mode (some "auto") n user id p).1 w (λ v. refl) (run_auto n user id p).0 there
        ((λ h. cc h), (λ h. cc h)))
run_mode-IsDone mode n user id p w (inr e) there =
    subst (λ m. IsDone n (run_mode m n user id p).1) (sym e)
      (update_workflow-IsDone n (finished_by_hand p.db.now) p
        (run_mode (some "manual") n user id p).1 w (λ v. refl) (run_manual-workflows n user id p)
        there ((λ h. cc h), (λ h. cc h)))

done_refuses : (n : ℕ) (user : Users) (q : Portal) → IsDone n q → Checked user n q → ⊥
done_refuses n user q (w, e, (no_pass, no_timing)) c =
    let same : c.w ≡ w = cc (find_workflow-get n (site_of q) c.w c.there, e) in
    elim c.may.ready [
      | inl h ↦ no_pass (ap (λ (v : SqlWorkflow). v.status) (sym same) ∙ h)
      | inr h ↦ no_timing (ap (λ (v : SqlWorkflow). v.status) (sym same) ∙ h)
    ]

-- Where `ExecuteWorkflow.post` answers a request to execute a SQL workflow, with the type sent as the
-- number 2, by the queue or by hand, with a message: the user it acts as may execute the workflow and
-- the time is within its period, and no further request with this number to execute the workflow, of
-- any user and in either mode, is then answered with a message.
pub execute_post-once :
    (r again : ExecuteRequest) (user other : Users) (p : Portal) (text more : String)
    → r.workflow_type ≡ as_number 2
    → (execute_post r user p).0 ≡ ok (message text)
    → again.workflow_type ≡ as_number 2
    → again.workflow_id ≡ r.workflow_id
    → (actor : Users) × (w : SqlWorkflow) × (acting_user user
          (engineer_text r.engineer)
          "无权以他人身份执行工单"
          p
        ≡ ok actor)
      × (get_workflow r.workflow_id (site_of p) ≡ ok w)
      × MayExecute w actor (site_of p)
      × (on_correct_time_period r.workflow_id none (site_of p) ≡ ok true)
      × ((execute_post again other (execute_post r user p).1).0 ≢ ok (message more))
execute_post-once r again user other p text more is_sql h is_sql2 same_id =
    let z = execute_post-Ran r user p text is_sql h in
    let c = z.checked in
    let there = find_workflow-get r.workflow_id (site_of p) c.w c.there in
    let closed =
      subst (λ q. IsDone r.workflow_id q) (sym z.ran)
        (run_mode-IsDone r.mode r.workflow_id z.actor z.audit.audit_id p c.w z.mode there) in
    (
      z.actor,
      c.w,
      z.acts,
      c.there,
      c.may,
      c.in_time,
      λ h2.
          let y = execute_post-Ran again other (execute_post r user p).1 more is_sql2 h2 in
          done_refuses r.workflow_id y.actor (execute_post r user p).1 closed
            (subst (λ n. Checked y.actor n (execute_post r user p).1) same_id y.checked),
    )

-- the run of a workflow that is queued and has an audit
execute_queued :
    (engine : SqlWorkflow → Result ReviewSet) (n : ℕ) (user : Users) (s : Site) (w : SqlWorkflow)
    (a : WorkflowAudit)
    → find_workflow n s.workflows ≡ some (with_status workflow_queuing w)
    → detail_by_workflow_id n sql_review s ≡ some a
    → ((execute engine n (some user) s).0 ≡ engine (with_status workflow_queuing w))
      × ((execute engine n (some user) s).1.executed ≡ s.executed ++ n ∷ [])
unfolding execute mark_executing get_workflow run_engine add_log detail_by_workflow_id
execute_queued engine n user s w a e d = rw (e, d) (refl, refl)

-- Where `ExecuteWorkflow.post` answers a request to execute a SQL workflow by the queue, with the type
-- sent as the number 2, with a message, a task of that workflow and of the user acted as is added to
-- the queue, and the task, run on the rows that the request left, gives the workflow to the engine of
-- its instance, once.
pub execute_post-runs :
    (engine : SqlWorkflow → Result ReviewSet) (r : ExecuteRequest) (user : Users) (p : Portal)
    (text : String)
    → r.workflow_type ≡ as_number 2
    → r.mode ≡ some "auto"
    → (execute_post r user p).0 ≡ ok (message text)
    → (actor : Users) × (w : SqlWorkflow) × (let q = (execute_post r user p).1 in
        let run = execute engine r.workflow_id (some actor) (site_of q) in
        (q.tasks ≡ p.tasks ++ execute_job r.workflow_id actor ∷ [])
        × (get_workflow r.workflow_id (site_of p) ≡ ok w)
        × (run.0 ≡ engine (with_status workflow_queuing w))
        × (run.1.executed ≡ p.executed ++ r.workflow_id ∷ []))
unfolding detail_by_workflow_id
execute_post-runs engine r user p text is_sql mode h =
    let z = execute_post-Ran r user p text is_sql h in
    let c = z.checked in
    let n = r.workflow_id in
    let q = (execute_post r user p).1 in
    let f : q ≡ (run_mode (some "auto") n z.actor z.audit.audit_id p).1 =
      z.ran ∙ ap (λ m. (run_mode m n z.actor z.audit.audit_id p).1) mode in
    let (rows, audits, runs, tasks) = run_auto n z.actor z.audit.audit_id p in
    let there =
      ap (λ ws. find_workflow n ws) (ap (λ x. x.workflows) f ∙ rows)
      ∙ find-update_same n (with_status workflow_queuing) p.workflows (λ v. refl)
      ∙ ap (λ o. changed (with_status workflow_queuing) o)
          (find_workflow-get n (site_of p) c.w c.there) in
    let audit =
      ap (λ as_now. find (is_audit_of sql_review (some n)) as_now)
        (ap (λ x. x.db.audits) f ∙ audits)
      ∙ z.detail in
    let (value, calls) = execute_queued engine n z.actor (site_of q) c.w z.audit there audit in
    (
      z.actor,
      c.w,
      (
        ap (λ x. x.tasks) f ∙ tasks,
        c.there,
        value,
        calls ∙ ap (λ ns. ns ++ n ∷ []) (ap (λ x. x.executed) f ∙ runs),
      ),
    )
