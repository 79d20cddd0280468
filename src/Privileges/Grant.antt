-- ===== src/Privileges/Grant.antt =====
-- `query_apply_audit_call_back` of sql/services/privilege_service.py: what a reviewed request for
-- privileges writes.
use dbshield.Common.{
  ℕ, ◌+◌, String, Bool, true, false, ◌&&◌, Option, none, some, List, [], ◌∷◌, ◌++◌, ◌==◌, nat_eq,
  string_eq, pos, split_comma, find, keep, if◌then◌else◌, Exec, Result, ok, err, pure, reads,
  modify, ◌>>=◌, ◌>>◌, does_not_exist, exception,
}
use dbshield.Common.Checks.{or_raise}
use dbshield.Const.{WorkflowStatus, waiting, passed, rejected, aborted}
use dbshield.Models.{QueryPrivilegesApply}
use dbshield.Privileges.State.{QueryPrivileges, Ledger}

-- `QueryPrivilegesApply.objects.get(apply_id=...)` and `save()`
abbrev pub has_apply_id : ℕ → QueryPrivilegesApply → Bool
has_apply_id n a = elim a.apply_id [ none ↦ false | some m ↦ m == n ]

unfoldable pub get_apply : ℕ → Ledger → Result QueryPrivilegesApply
get_apply n l = or_raise (find (has_apply_id n) l.applies) does_not_exist

unfoldable pub set_status :
    ℕ → WorkflowStatus → List QueryPrivilegesApply → List QueryPrivilegesApply
set_status n status [] = []
set_status n status (a ∷ more) =
    let rest = set_status n status more in
    if has_apply_id n a then record a { status = status } ∷ more else a ∷ rest

-- what `update_or_create` looks a row up by: with the table's name for a table
pub record Lookup : Type 0 where
  pub user_name : String
  pub user_display : String
  pub instance_id : ℕ
  pub db_name : String
  pub priv_type : ℕ
  pub table_name : Option String

abbrev pub same_table : Option String → String → Bool
same_table none name = true
same_table (some t) name = name == t

-- the columns of every lookup, and the table's name
abbrev pub same_place : Lookup → QueryPrivileges → Bool
same_place k p =
    p.user_name == k.user_name
    && (p.user_display == k.user_display
        && (p.instance_id == k.instance_id
            && (p.db_name == k.db_name && p.priv_type == k.priv_type)))

abbrev pub is_match : Lookup → QueryPrivileges → Bool
is_match k p = same_place k p && same_table k.table_name p.table_name

abbrev pub table_of : Option String → String
table_of none = ""
table_of (some t) = t

-- the columns of `defaults`; a lookup without a table sets the table's name to ""
abbrev pub renewed : Lookup → QueryPrivilegesApply → QueryPrivileges → QueryPrivileges
renewed k a p = record p {
  table_name = table_of k.table_name;
  limit_num = pos a.limit_num;
  valid_date = a.valid_date;
  is_deleted = false;
}

abbrev pub created : Lookup → QueryPrivilegesApply → ℕ → QueryPrivileges
created k a id = record {
  privilege_id = id;
  user_name = k.user_name;
  user_display = k.user_display;
  instance_id = k.instance_id;
  db_name = k.db_name;
  table_name = table_of k.table_name;
  valid_date = a.valid_date;
  limit_num = pos a.limit_num;
  priv_type = k.priv_type;
  is_deleted = false;
}

unfoldable pub renew_first :
    Lookup → QueryPrivilegesApply → List QueryPrivileges → List QueryPrivileges
renew_first k a [] = []
renew_first k a (p ∷ ps) =
    let rest = renew_first k a ps in if is_match k p then renewed k a p ∷ ps else p ∷ rest

-- one row is changed, none makes one, more are `MultipleObjectsReturned`
abbrev pub upsert : List QueryPrivileges → Lookup → QueryPrivilegesApply → Exec Ledger (Unit {0})
upsert [] k a l = (
  ok tt,
  record l { privileges = l.privileges ++ created k a l.next_id ∷ []; next_id = l.next_id + 1 },
)
upsert (p ∷ []) k a l = (ok tt, record l { privileges = renew_first k a l.privileges })
upsert (p ∷ q ∷ ps) k a l = (err (exception "MultipleObjectsReturned"), l)

unfoldable pub update_or_create : Lookup → QueryPrivilegesApply → Exec Ledger (Unit {0})
update_or_create k a l = upsert (keep (is_match k) l.privileges) k a l

abbrev pub db_lookup : QueryPrivilegesApply → String → Lookup
db_lookup a db = record {
  user_name = a.user_name;
  user_display = a.user_display;
  instance_id = a.instance_id;
  db_name = db;
  priv_type = 1;
  table_name = none;
}

abbrev pub tb_lookup : QueryPrivilegesApply → String → Lookup
tb_lookup a tb = record {
  user_name = a.user_name;
  user_display = a.user_display;
  instance_id = a.instance_id;
  db_name = a.db_list;
  priv_type = 2;
  table_name = some tb;
}

-- the loop over the names
unfoldable pub grant_each :
    (String → Lookup) → QueryPrivilegesApply → List String → Exec Ledger (Unit {0})
grant_each lookup_of a [] = pure tt
grant_each lookup_of a (name ∷ names) = do
  update_or_create (lookup_of name) a
  grant_each lookup_of a names

unfoldable pub grant : QueryPrivilegesApply → Exec Ledger (Unit {0})
grant a =
    if a.priv_type == 1
    then grant_each (db_lookup a) a (split_comma a.db_list)
    else if a.priv_type == 2
    then grant_each (tb_lookup a) a (split_comma a.table_list)
    else pure tt

abbrev pub save_status : ℕ → WorkflowStatus → Exec Ledger (Unit {0})
save_status n status = modify (λ l. record l { applies = set_status n status l.applies })

unfoldable pub settle_apply : ℕ → WorkflowStatus → QueryPrivilegesApply → Exec Ledger (Unit {0})
settle_apply n passed a = do save_status n passed; grant a
settle_apply n rejected a = save_status n rejected
settle_apply n waiting a = pure tt
settle_apply n aborted a = pure tt

unfoldable pub query_apply_audit_call_back : ℕ → WorkflowStatus → Exec Ledger (Unit {0})
query_apply_audit_call_back n status = do
  apply_info ← reads (get_apply n)
  settle_apply n status apply_info
