-- ===== src/Query/Tests.antt =====
-- A request on which the theorems on sql/services/sqlquery_service.py apply.
use dbshield.Common.{
  String, true, false, ◌≡◌, refl, Option, none, some, List, [], ◌∷◌, ◌==◌, nat_eq, string_eq, pos,
  Result, ok, Exc, int, lookup,
}
use dbshield.Common.Strings.{lower, starts_with}
use dbshield.Config
use dbshield.Config.{bool, truthy}
use dbshield.Models.{Users}
use dbshield.Audit.Tests.{user}
use dbshield.Audit.Review.{to_int}
use dbshield.Masking.Regex.{str}
use dbshield.Privileges.State.{QueryPrivileges, Instance, user_instances, is_related, has_tags}
use dbshield.Privileges.Check.{query_priv_check, admin_query_limit}
use dbshield.Query.State.{QueryResult, Engine, Desk}
use dbshield.Query.Service.{
  QueryRequest, setting_value, run_query, perform, with_privilege, examined, outcome,
  execute_sql_query,
}
use dbshield.Query.Asked.{Asked, execute_sql_query-Asked}
use dbshield.Query.Released.{MaskedReply, execute_sql_query-MaskedReply}

abbrev ann : Users
ann = record (user "ann" false []) { has_perm = λ p. p == "sql.query_all_instances" }

abbrev shop : Instance
shop = record {
  id = 4;
  instance_name = "shop";
  type = "master";
  db_type = "redis";
  resource_group = 1 ∷ [];
  instance_tag = [];
}

abbrev desk : Desk
desk = record {
  ledger = record {
    privileges = [];
    applies = [];
    instances = shop ∷ [];
    resource_groups = [];
    settings = record {
      sys_config = ("data_masking", bool true) ∷ ("query_check", bool true) ∷ [];
      rows = [];
    };
    now = 40;
    next_id = 2;
  };
  query_logs = [];
  next_log_id = 1;
  schedules = [];
  queried = [];
}

abbrev phones : String → QueryResult
phones shown = record {
  rows = (str shown ∷ []) ∷ [];
  affected_rows = pos 1;
  error = none;
  mask_rule_hit = false;
  is_masked = false;
}

-- an engine that lets all through, answers one row, and masks it
abbrev engine : Engine
engine = record {
  query_check = λ db_name sql.
      ok (record { bad_query = false; has_star = false; msg = ""; filtered_sql = sql });
  filter_sql = λ sql limit_num. sql;
  get_connection = λ db_name. ok tt;
  thread_id = some 12;
  seconds_behind_master = ok none;
  query = λ db_name sql limit_num max. ok (phones "13800000000");
  query_masking = λ db_name sql r. (ok tt, record (phones "138****0000") { is_masked = true });
}

abbrev get_phone : QueryRequest
get_phone = record {
  instance_name = "shop";
  db_name = some "0";
  sql_content = some "get phone";
  limit_num = "100";
}

-- the parts of the outside packages
abbrev order_by : String → List QueryPrivileges → Result (List QueryPrivileges)
order_by field rows = ok rows

abbrev table_ref : String → Result (List (String × String))
table_ref sql = ok []

abbrev extract_schemas : String → List (Option String)
extract_schemas sql = []

abbrev text_of : Exc → String
text_of c = "error"

execute_sql_query-Asked_example :
    Asked order_by table_ref extract_schemas text_of
      (λ i. engine)
      ann
      get_phone
      desk
      (execute_sql_query order_by table_ref extract_schemas text_of
        (λ i. engine)
        ann
        get_phone
        desk).1
execute_sql_query-Asked_example =
    execute_sql_query-Asked order_by table_ref extract_schemas text_of (λ i. engine) ann get_phone
      desk

data_masking_test : truthy (setting_value "data_masking" desk) ≡ true
unfolding Config.get lookup
data_masking_test = refl

query_check_test : truthy (setting_value "query_check" desk) ≡ true
unfolding Config.get lookup
query_check_test = refl

execute_sql_query-MaskedReply_example :
    MaskedReply order_by table_ref extract_schemas text_of
      (λ i. engine)
      (execute_sql_query order_by table_ref extract_schemas text_of
        (λ i. engine)
        ann
        get_phone
        desk).0
execute_sql_query-MaskedReply_example =
    execute_sql_query-MaskedReply order_by table_ref extract_schemas text_of (λ i. engine) ann
      get_phone desk data_masking_test query_check_test

execute_sql_query_test :
    ((execute_sql_query order_by table_ref extract_schemas text_of
        (λ i. engine)
        ann
        get_phone
        desk).0.result_data
      ≡ some (record (phones "138****0000") { is_masked = true }))
    × ((execute_sql_query order_by table_ref extract_schemas text_of
          (λ i. engine)
          ann
          get_phone
          desk).1.queried
        ≡ (4, "get phone", pos 100) ∷ [])
unfolding execute_sql_query examined with_privilege perform run_query outcome query_priv_check
    user_instances is_related has_tags Config.get int starts_with lower to_int admin_query_limit
    lookup
execute_sql_query_test = (refl, refl)
