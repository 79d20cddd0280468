-- ===== src/Audit/State.antt =====
-- What the methods of `AuditV2` in sql/utils/workflow_audit.py read and change: the object's fields
-- and the rows. A method is an `Exec World`.
use dbshield.Common.{
  ℕ, ◌+◌, String, Bool, false, ◌&&◌, Option, none, some, List, [], ◌∷◌, ◌++◌, ◌==◌, nat_eq,
  string_eq, find, keep, any, contains, int, ℤ, pos, negsuc, if◌then◌else◌, Exec, Result, ok, err,
  pure, raise, value_error, does_not_exist, integrity_error,
}
use dbshield.Common.Checks.{or_raise, ◌>>=◌}
use dbshield.Config.{SysConfig, Value}
use dbshield.Config
use dbshield.Const.{WorkflowType, type_eq}
use dbshield.Models.{
  Group, Users, ResourceGroup, Workflow, sql_workflow, archive_config, query_apply, WorkflowAudit,
  WorkflowAuditDetail, WorkflowAuditSetting, WorkflowLog, pk_of, workflow_type_of,
}

-- the rows
pub record Db : Type 0 where
  pub audits : List WorkflowAudit
  pub details : List WorkflowAuditDetail
  pub logs : List WorkflowLog
  pub settings : List WorkflowAuditSetting
  pub groups : List Group
  pub resource_groups : List ResourceGroup
  pub users : List Users
  -- the next values of the automatic keys, and `timezone.now()`
  pub next_audit_id : ℕ
  pub next_workflow_id : ℕ
  pub now : ℕ

pub record AuditV2 : Type 0 where
  pub workflow : Workflow
  pub sys_config : SysConfig
  pub audit : Option WorkflowAudit
  pub workflow_type : WorkflowType
  pub resource_group : String
  pub resource_group_id : ℕ

pub record World : Type 0 where
  pub db : Db
  pub self : AuditV2

-- `self.sys_config.get(key, default)`; what it keeps changes no later answer
abbrev pub config : AuditV2 → String → Value → Value
config self key default = (Config.get key default self.sys_config).0

-- `Group.objects.get(id=text)`: the text is cast by `int`
abbrev pub group_at : List Group → ℤ → Result Group
group_at groups (negsuc n) = err does_not_exist
group_at groups (pos n) = or_raise (find (λ g. g.id == n) groups) does_not_exist

unfoldable pub get_group : String → World → Result Group
get_group text s = do id ← or_raise (int text) value_error; group_at s.db.groups id

-- `WorkflowAuditMixin.get_audit`: the row of the workflow's type and key
abbrev same_id : Option ℕ → Option ℕ → Bool
same_id (some a) (some b) = a == b
same_id _ _ = false

unfoldable pub is_audit_of : WorkflowType → Option ℕ → WorkflowAudit → Bool
is_audit_of t pk a = a.workflow_type == t && same_id a.workflow_id pk

unfoldable pub get_audit : List WorkflowAudit → Workflow → Option WorkflowAudit
unfolding is_audit_of
get_audit audits w = find (is_audit_of (workflow_type_of w) (pk_of w)) audits

-- `get_audit_info`
abbrev pub held_or_found : Option WorkflowAudit → Exec World (Option WorkflowAudit)
held_or_found (some a) s = pure (some a) s
held_or_found none s =
    let found = get_audit s.db.audits s.self.workflow in
    pure found (record s { self = record s.self { audit = found } })

unfoldable pub get_audit_info : Exec World (Option WorkflowAudit)
unfolding get_audit
get_audit_info s = held_or_found s.self.audit s

-- `self.audit.save()`: a new row gets the next key, unless the type and key of its workflow are
-- taken (`unique_together`); a row that was saved before is replaced
unfoldable pub replace : WorkflowAudit → List WorkflowAudit → List WorkflowAudit
replace a [] = []
replace a (b ∷ bs) =
    let rest = replace a bs in if same_id b.audit_id a.audit_id then a ∷ bs else b ∷ rest

abbrev save_new : WorkflowAudit → Exec World (Unit {0})
save_new a s =
    if any (is_audit_of a.workflow_type a.workflow_id) s.db.audits
    then raise integrity_error s
    else (let saved = record a { audit_id = some s.db.next_audit_id } in
        pure tt (record {
          db = record s.db {
            audits = s.db.audits ++ saved ∷ [];
            next_audit_id = s.db.next_audit_id + 1;
          };
          self = record s.self { audit = some saved };
        }))

abbrev save_old : WorkflowAudit → Exec World (Unit {0})
save_old a s = pure tt (record {
  db = record s.db { audits = replace a s.db.audits };
  self = record s.self { audit = some a };
})

unfoldable pub save_as : Option ℕ → WorkflowAudit → Exec World (Unit {0})
save_as none a = save_new a
save_as (some id) a = save_old a

unfoldable pub save_audit : WorkflowAudit → Exec World (Unit {0})
unfolding save_as
save_audit a = save_as a.audit_id a

-- `self.workflow.save()`: a new workflow gets the next key
abbrev with_pk : ℕ → Workflow → Workflow
with_pk n (sql_workflow w) = sql_workflow (record w { id = some n })
with_pk n (archive_config w) = archive_config (record w { id = some n })
with_pk n (query_apply w) = query_apply (record w { apply_id = some n })

unfoldable pub save_workflow : Workflow → Exec World (Unit {0})
save_workflow w s = elim (pk_of w) [
  | some n ↦ pure tt (record s { self = record s.self { workflow = w } })
  | none ↦ pure tt (record {
    db = record s.db { next_workflow_id = s.db.next_workflow_id + 1 };
    self = record s.self { workflow = with_pk s.db.next_workflow_id w };
  })
]

-- `WorkflowAuditDetail.objects.create(...)` and `WorkflowLog.objects.create(...)`
unfoldable pub add_detail : WorkflowAuditDetail → Exec World WorkflowAuditDetail
add_detail d s = pure d (record s { db = record s.db { details = s.db.details ++ d ∷ [] } })

unfoldable pub add_log : WorkflowLog → Exec World (Unit {0})
add_log l s = pure tt (record s { db = record s.db { logs = s.db.logs ++ l ∷ [] } })

-- sql/utils/resource_group.py, `auth_group_users`: the active users of the resource group who are
-- in one of the named approval groups. They are read from the table; the acting user of a method is
-- passed apart, as the record that the request holds.
abbrev pub in_groups : List String → List Group → Bool
in_groups names gs = any (λ g. contains names g.name) gs

unfoldable pub is_member : List String → ℕ → Users → Bool
is_member names group_id u =
    u.is_active && (contains u.resource_group group_id && in_groups names u.groups)

unfoldable pub auth_group_users : List String → ℕ → World → Result (List Users)
auth_group_users names group_id s =
    if any (λ g. g.group_id == group_id) s.db.resource_groups
    then ok (keep (is_member names group_id) s.db.users)
    else err does_not_exist
