-- ===== src/Audit/Legacy.antt =====
-- The class `Audit` of sql/utils/workflow_audit.py: the todo count and the settings of the flows.
use dbshield.Common.{
  ℕ, String, Bool, true, false, not, ◌&&◌, ◌≡◌, ◌≢◌, refl, ap, inl, inr, Option, none, some, List,
  [], ◌∷◌, ◌++◌, map, ◌==◌, nat_eq, find, any, contains, keep, length, int, ℤ, pos, ◌||◌,
  if◌then◌else◌, Exec, ok, err, does_not_exist, Bool-cases, same_refl,
}
use dbshield.Const.{WorkflowType, type_eq, waiting, status_eq}
use dbshield.Models.{Group, Users, ResourceGroup, WorkflowAudit, WorkflowAuditSetting, WorkflowLog}
use dbshield.Audit.State.{World}
use dbshield.Audit.Lookup.{find_setting}

-- `current_audit__in=ids`: the texts of the ids
abbrev is_id : List Group → Option ℤ → Bool
is_id groups (some (pos n)) = any (λ g. g.id == n) groups
is_id groups _ = false

abbrev auth_groups_of : Users → World → List Group
auth_groups_of user s = if user.is_superuser then s.db.groups else user.groups

abbrev todo_groups : Users → World → List ℕ
todo_groups user s =
    map (λ g. g.group_id)
      (keep
        (λ g. (user.is_superuser || contains user.resource_group g.group_id) && not g.is_deleted)
        s.db.resource_groups)

unfoldable pub todo : Users → World → ℕ
todo user s = length (
    keep
      (λ a.
        a.current_status == waiting
        && (contains (todo_groups user s) a.group_id
            && is_id (auth_groups_of user s) (int a.current_audit)))
      s.db.audits)

-- the review of an id, and the log of one
abbrev has_key : ℕ → Option ℕ → Bool
has_key n none = false
has_key n (some m) = m == n

unfoldable pub detail : ℕ → World → Option WorkflowAudit
detail n s = find (λ a. has_key n a.audit_id) s.db.audits

unfoldable pub logs_of : ℕ → World → List WorkflowLog
logs_of n s = keep (λ l. has_key n l.audit_id) s.db.logs

abbrev groups_of : Option WorkflowAuditSetting → Option String
groups_of none = none
groups_of (some setting) = some setting.audit_auth_groups

unfoldable pub settings : ℕ → WorkflowType → World → Option String
settings group_id t s = groups_of (find_setting s.db.settings t group_id)

abbrev with_flow : String → WorkflowAuditSetting → WorkflowAuditSetting
with_flow groups setting = record setting { audit_auth_groups = groups }

-- `filter(...).update(...)`: the rows of the type and the group
unfoldable pub update_settings :
    ℕ → WorkflowType → String → List WorkflowAuditSetting → List WorkflowAuditSetting
update_settings group_id t groups [] = []
update_settings group_id t groups (x ∷ xs) =
    let rest = update_settings group_id t groups xs in
    if x.workflow_type == t && x.group_id == group_id then with_flow groups x ∷ rest else x ∷ rest

abbrev with_settings : List WorkflowAuditSetting → World → World
with_settings xs s = record s { db = record s.db { settings = xs } }

abbrev insert_setting : ℕ → WorkflowType → String → Option ResourceGroup → Exec World (Unit {0})
insert_setting group_id t groups none s = (err does_not_exist, s)
insert_setting group_id t groups (some g) s = (
  ok tt,
  with_settings
      (s.db.settings
        ++ record {
          group_id = group_id;
          group_name = g.group_name;
          workflow_type = t;
          audit_auth_groups = groups;
        }
          ∷ [])
      s,
)

abbrev change : Option WorkflowAuditSetting → ℕ → WorkflowType → String → Exec World (Unit {0})
change (some x) group_id t groups s =
    (ok tt, with_settings (update_settings group_id t groups s.db.settings) s)
change none group_id t groups s =
    insert_setting group_id t groups (find (λ g. g.group_id == group_id) s.db.resource_groups) s

unfoldable pub change_settings : ℕ → WorkflowType → String → Exec World (Unit {0})
change_settings group_id t groups s =
    change (find_setting s.db.settings t group_id) group_id t groups s

find-update_settings :
    (g : ℕ) (t : WorkflowType) (v : String) (xs : List WorkflowAuditSetting)
    (x : WorkflowAuditSetting)
    → find_setting xs t g ≡ some x
    → groups_of (find_setting (update_settings g t v xs) t g) ≡ some v
unfolding find_setting update_settings
find-update_settings g t v [] x e = cc
find-update_settings g t v (y ∷ ys) x e =
    elim (Bool-cases (y.workflow_type == t && y.group_id == g)) [
      | inl q ↦ rw (q, q) refl
      | inr q ↦ rw (q, q) (find-update_settings g t v ys x (rw q at e))
    ]

not_none : (y : WorkflowAuditSetting) → some y ≢ none
not_none y e = cc

not_found : (x : Unit {0}) → err does_not_exist ≢ ok x
not_found x e = cc

type_refl : (t : WorkflowType) (g : ℕ) → ((t == t) && (g == g)) ≡ true
type_refl t g = rw (same_refl t, same_refl g) refl

find-append :
    (g : ℕ) (t : WorkflowType) (xs : List WorkflowAuditSetting) (new : WorkflowAuditSetting)
    → (new.workflow_type == t && new.group_id == g) ≡ true
    → find_setting xs t g ≡ none
    → find_setting (xs ++ new ∷ []) t g ≡ some new
unfolding find_setting
find-append g t [] new q e = rw q refl
find-append g t (y ∷ ys) new q e = elim (Bool-cases (y.workflow_type == t && y.group_id == g)) [
  | inl p ↦ absurd (not_none y (rw p at e))
  | inr p ↦ rw p (find-append g t ys new q (rw p at e))
]

change_lem :
    (o : Option WorkflowAuditSetting) (r : Option ResourceGroup) (g : ℕ) (t : WorkflowType)
    (v : String) (s : World)
    → find_setting s.db.settings t g ≡ o
    → find (λ x. x.group_id == g) s.db.resource_groups ≡ r
    → (change o g t v s).0 ≡ ok tt
    → settings g t (change o g t v s).1 ≡ some v
unfolding settings
change_lem (some x) r g t v s e f h = find-update_settings g t v s.db.settings x e
change_lem none none g t v s e f h = absurd (not_found tt (rw f at h))
change_lem none (some x) g t v s e f h =
    rw f (ap groups_of (find-append g t s.db.settings _ (type_refl t g) e))

-- Settings of a flow that were changed without an exception are what is read afterwards.
pub settings-change_settings :
    (g : ℕ) (t : WorkflowType) (v : String) (s : World)
    → (change_settings g t v s).0 ≡ ok tt
    → settings g t (change_settings g t v s).1 ≡ some v
unfolding change_settings
settings-change_settings g t v s h =
    change_lem (find_setting s.db.settings t g) (find (λ x. x.group_id == g) s.db.resource_groups) g
      t v s refl refl h
