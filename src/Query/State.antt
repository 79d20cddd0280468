-- ===== src/Query/State.antt =====
-- What a query reads and writes, and the engine of an instance as sql/services/sqlquery_service.py
-- uses it.
use dbshield.Common.{
  ℕ, String, Bool, true, false, not, Option, List, ◌==◌, nat_eq, string_eq, any, map, if◌then◌else◌,
  ℤ, Exec, Result,
}
use dbshield.Models.{Users}
use dbshield.Privileges.State.{Ledger}
use dbshield.Masking.Regex.{Cell}

-- the part of a `ResultSet` that the service reads
pub record QueryResult : Type 0 where
  pub rows : List (List Cell)
  pub affected_rows : ℤ
  pub error : Option String
  pub mask_rule_hit : Bool
  pub is_masked : Bool

-- what `query_check` of an engine answers
pub record CheckInfo : Type 0 where
  pub bad_query : Bool
  pub has_star : Bool
  pub msg : String
  pub filtered_sql : String

-- The engine of an instance. `query_masking` changes the result that it is given, and gives it back.
pub record Engine : Type 0 where
  pub query_check : String → String → Result CheckInfo
  pub filter_sql : String → ℤ → String
  pub get_connection : String → Result (Unit {0})
  pub thread_id : Option ℕ
  pub seconds_behind_master : Result (Option ℕ)
  pub query : String → String → ℤ → ℤ → Result QueryResult
  pub query_masking : String → String → Exec QueryResult (Unit {0})

-- sql/models.py, `QueryLog`
pub record QueryLog : Type 0 where
  pub id : ℕ
  pub username : String
  pub user_display : String
  pub db_name : String
  pub instance_name : String
  pub sqllog : String
  pub effect_row : ℤ
  pub priv_check : Bool
  pub hit_rule : Bool
  pub masking : Bool
  pub favorite : Bool
  pub alias : String

-- `queried` are the queries that an engine was given, with the instance's id and the limit;
-- `schedules` are the tasks that end a connection: the instance's id and the thread
pub record Desk : Type 0 where
  pub ledger : Ledger
  pub query_logs : List QueryLog
  pub next_log_id : ℕ
  pub schedules : List (ℕ × ℕ)
  pub queried : List (ℕ × String × ℤ)

abbrev may_see_all : Users → Bool
may_see_all user = if user.is_superuser then true else user.has_perm "sql.audit_user"

-- the filter of both functions of the query log
abbrev pub of_user : Users → QueryLog → Bool
of_user user l = if may_see_all user then true else l.username == user.username

-- sql/services/querylog_service.py, `update_favorite`: status and message
abbrev pub is_his : Users → ℕ → QueryLog → Bool
is_his user query_log_id l = if l.id == query_log_id then of_user user l else false

unfoldable pub update_favorite : Users → ℕ → Bool → String → Desk → (ℕ × String) × Desk
update_favorite user query_log_id star alias s =
    if not (any (is_his user query_log_id) s.query_logs) then ((1, "查询记录不存在或无权限"), s) else (
      (0, "ok"),
      record s {
        query_logs =
            map
              (λ l.
                if is_his user query_log_id l
                then record l { favorite = star; alias = alias }
                else l)
              s.query_logs;
      },
    )
