-- ===== src/Privileges/Tests.antt =====
-- A user, an instance and a request on which the theorems on sql/query_privileges.py and
-- sql/services/privilege_service.py apply.
use dbshield.Common.{
  ℕ, not, String, Bool, true, false, ◌≡◌, refl, Option, none, some, List, [], ◌∷◌, ◌++◌, ◌==◌,
  string_eq, keep, map, any, find, contains, split_comma, ℤ, pos, is_zero, le_int, Result, ok, err,
  Exc, exception, if◌then◌else◌, leb,
}
use dbshield.Common.Among.{All}
use dbshield.Const.{waiting, passed}
use dbshield.Models.{Users, QueryPrivilegesApply}
use dbshield.Audit.Tests.{user, root}
use dbshield.Privileges.State.{QueryPrivileges, Instance, Ledger, is_valid, valid_rows, columns}
use dbshield.Privileges.Check.{
  covers_db, allowed, admin_query_limit, granted, check_tables, match_db_priv, match_tb_priv,
  query_priv_check, check_databases, first_denied, least_limit,
}
use dbshield.Privileges.Grant.{
  get_apply, settle_apply, grant, grant_each, update_or_create, renew_first, set_status,
  query_apply_audit_call_back,
}
use dbshield.Privileges.Callback.{other, query_apply_audit_call_back-others}
use dbshield.Privileges.Limits.{
  IsCovered, covers, check_tables-IsCovered, check_databases-IsCovered,
}
use dbshield.Privileges.Verdicts.{query_priv_check-le}
use dbshield.Config
use dbshield.Audit.Review.{to_int}
use dbshield.Privileges.Modify.{
  ModifyRequest, int_of, has_privilege_id, query_priv_modify, query_priv_modify-valid_rows,
}
use dbshield.Privileges.Complete.{HasCover, check_tables_iff}
use mathlib.Core.Logic.{◌↔◌}
use dbshield.Privileges.Composed.{query_apply_audit_call_back-check_tables}

abbrev ann : Users
ann = record (user "ann" false []) { has_perm = λ _. false }

abbrev shop : Instance
shop = record {
  id = 4;
  instance_name = "shop";
  type = "master";
  db_type = "mysql";
  resource_group = 1 ∷ [];
  instance_tag = [];
}

abbrev cache : Instance
cache = record shop { db_type = "redis" }

abbrev row : QueryPrivileges
row = record {
  privilege_id = 1;
  user_name = "ann";
  user_display = "ann";
  instance_id = 4;
  db_name = "0";
  table_name = "";
  valid_date = 50;
  limit_num = pos 80;
  priv_type = 1;
  is_deleted = false;
}

abbrev request : QueryPrivilegesApply
request = record {
  apply_id = some 9;
  group_id = 1;
  group_name = "shop";
  title = "orders";
  user_name = "ann";
  user_display = "ann";
  instance_id = 4;
  db_list = "app";
  table_list = "orders,items";
  valid_date = 60;
  limit_num = 100;
  priv_type = 2;
  status = waiting;
  audit_auth_groups = "1";
}

abbrev ledger : Ledger
ledger = record {
  privileges = row ∷ [];
  applies = request ∷ [];
  instances = shop ∷ [];
  resource_groups = [];
  settings = record { sys_config = []; rows = [] };
  now = 40;
  next_id = 2;
}

-- the parser, and the databases of a text
abbrev table_ref : String → Result (List (String × String))
table_ref sql = ok (("app", "orders") ∷ [])

abbrev extract_schemas : String → List (Option String)
extract_schemas sql = []

abbrev text_of : Exc → String
text_of c = "error"

abbrev after : Ledger
after = (query_apply_audit_call_back 9 passed ledger).1

asked : get_apply 9 ledger ≡ ok request
unfolding get_apply
asked = refl

done : (query_apply_audit_call_back 9 passed ledger).0 ≡ ok tt
unfolding query_apply_audit_call_back get_apply settle_apply grant grant_each update_or_create
    split_comma
done = refl

query_apply_audit_call_back-others_example :
    keep (other "ann") (query_apply_audit_call_back 9 passed ledger).1.privileges
    ≡ keep (other "ann") ledger.privileges
query_apply_audit_call_back-others_example =
    query_apply_audit_call_back-others 9 passed ledger request asked

query_apply_audit_call_back-check_tables_example :
    (out : ℤ) × (check_tables
        (valid_rows ann shop after)
        ann
        after
        (pos 10)
        (("app", "orders") ∷ [])
      ≡ ok (allowed out))
unfolding query_apply_audit_call_back get_apply settle_apply grant grant_each update_or_create
    split_comma
query_apply_audit_call_back-check_tables_example =
    query_apply_audit_call_back-check_tables 9 ledger after request ann shop (pos 10)
      (("app", "orders") ∷ []) asked (refl, tt) refl done refl refl refl refl refl (refl, tt)

-- the loops on the rows after the grant

tables_verdict :
    check_tables after.privileges ann after (pos 10) (("app", "orders") ∷ [])
    ≡ ok (allowed (pos 10))
unfolding check_tables match_db_priv match_tb_priv query_apply_audit_call_back get_apply
    settle_apply grant grant_each update_or_create renew_first set_status split_comma
tables_verdict = refl

check_tables-IsCovered_example :
    All (λ t. IsCovered after.privileges (pos 10) (covers t)) (("app", "orders") ∷ [])
check_tables-IsCovered_example =
    check_tables-IsCovered after.privileges ann after (pos 10) (pos 10) (("app", "orders") ∷ [])
      refl tables_verdict

databases_verdict :
    check_databases (row ∷ []) ann ledger (pos 10) ("0" ∷ []) ≡ ok (allowed (pos 10))
unfolding check_databases first_denied least_limit match_db_priv
databases_verdict = refl

check_databases-IsCovered_example :
    All (λ db. IsCovered (row ∷ []) (pos 10) (covers_db db)) ("0" ∷ [])
check_databases-IsCovered_example =
    check_databases-IsCovered (row ∷ []) ann ledger (pos 10) (pos 10) ("0" ∷ []) refl
      databases_verdict

-- the whole check, of an administrator and of an ordinary user

abbrev order_by : String → List QueryPrivileges → Result (List QueryPrivileges)
order_by name rows = if contains columns name then ok rows else err (exception "FieldError")

admin_reply :
    query_priv_check order_by table_ref extract_schemas text_of root cache "0" "get k"
      (pos 10)
      ledger
    ≡ ok (granted (pos 10))
unfolding query_priv_check admin_query_limit Config.get dbshield.Audit.Review.to_int
    dbshield.Common.lookup
admin_reply = refl

query_priv_check-le_example : le_int (pos 10) (pos 10) ≡ true
query_priv_check-le_example =
    query_priv_check-le order_by table_ref extract_schemas text_of root cache "0" "get k" 9 ledger
      (granted (pos 10)) admin_reply

abbrev take_back : ModifyRequest
take_back = record { privilege_id = some "1"; type = some "1"; valid_date = 0; limit_num = pos 0 }

key : (int_of take_back.privilege_id ≡ ok (pos 1)) × (int_of take_back.type ≡ ok (pos 1))
unfolding dbshield.Common.int
key = (refl, refl)

taken_back : (query_priv_modify take_back ledger).0 ≡ ok (some (0, "ok"))
unfolding query_priv_modify dbshield.Common.int
taken_back = refl

query_priv_modify-valid_rows_example :
    keep (is_valid ann shop.id ledger.now) (query_priv_modify take_back ledger).1.privileges
    ≡ keep (λ p. not (has_privilege_id (pos 1) p)) (valid_rows ann shop ledger)
query_priv_modify-valid_rows_example =
    query_priv_modify-valid_rows take_back (pos 1) ledger ann shop key.0 key.1 taken_back

check_tables_iff_example :
    ((out : ℤ) × (check_tables (row ∷ []) ann ledger (pos 10) (("0", "t") ∷ []) ≡ ok (allowed out)))
    ↔ All (HasCover (row ∷ [])) (("0", "t") ∷ [])
check_tables_iff_example =
    check_tables_iff (row ∷ []) ann ledger (pos 10) (("0", "t") ∷ []) refl (refl, tt)
