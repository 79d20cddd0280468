-- ===== src/Query/Service.antt =====
-- `execute_sql_query` of sql/services/sqlquery_service.py.
use dbshield.Common.{
  ℕ, ◌+◌, ◌*◌, String, ◌⧺◌, Bool, false, not, ◌&&◌, Option, none, some, List, [], ◌∷◌, ◌++◌, ◌==◌,
  nat_eq, string_eq, find, if◌then◌else◌, ℤ, pos, negsuc, is_zero, min_int, int, Exec, Result, ok,
  err, Exc, pure, lift, reads, modify, ◌>>=◌, ◌>>◌,
}
use dbshield.Common.Strings.{lower, starts_with}
use dbshield.Config
use dbshield.Config.{Value, null, bool, num, truthy}
use dbshield.Models.{Users}
use dbshield.Audit.Review.{to_int}
use dbshield.Privileges.State.{QueryPrivileges, Instance, user_instances}
use dbshield.Privileges.Check.{Reply, query_priv_check}
use dbshield.Query.State.{QueryResult, CheckInfo, Engine, QueryLog, Desk}

pub record QueryRequest : Type 0 where
  pub instance_name : String
  pub db_name : Option String
  pub sql_content : Option String
  pub limit_num : String

-- the answer; its `data` is empty or a result
pub record QueryReply : Type 0 where
  pub status : ℕ
  pub msg : String
  pub result_data : Option QueryResult

abbrev pub refusal : ℕ → String → QueryReply
refusal status msg = record { status = status; msg = msg; result_data = none }

abbrev pub released : QueryResult → QueryReply
released r = record { status = 0; msg = "ok"; result_data = some r }

-- `if text:`
abbrev pub has_error : Option String → Bool
has_error none = false
has_error (some text) = not (text == "")

abbrev pub error_text : Option String → String
error_text none = ""
error_text (some text) = text

abbrev pub setting_value : String → Desk → Value
setting_value key s = (Config.get key null s.ledger.settings).0

abbrev pub is_bool_true : Value → Bool
is_bool_true (bool b) = b
is_bool_true _ = false

abbrev pub times_1000 : ℤ → ℤ
times_1000 (pos n) = pos (n * 1000)
times_1000 (negsuc n) = negsuc (n * 1000 + 999)

-- the rows that are counted
abbrev pub counted_rows : ℤ → QueryResult → ℤ
counted_rows limit_num r =
    if has_error r.error
    then pos 0
    else if is_zero limit_num
    then r.affected_rows
    else min_int limit_num r.affected_rows

abbrev pub explain_limit : String → ℤ → ℤ
explain_limit sql limit_num = if starts_with "explain" (lower sql) then pos 0 else limit_num

-- an outcome of the masking, by the setting `query_check`: the reply, and the result as it is left
abbrev pub passed_on : QueryResult → QueryReply × QueryResult
passed_on r = let r' = record r { error = none } in (released r', r')

abbrev pub masked_outcome :
    Bool → (Exc → String) → Result (Unit {0}) × QueryResult → QueryReply × QueryResult
masked_outcome query_check text_of (ok u, r) =
    if has_error r.error
    then if query_check then (refusal 1 ("数据脱敏异常：" ⧺ error_text r.error), r) else passed_on r
    else (released r, r)
masked_outcome query_check text_of (err c, r) =
    if query_check then (refusal 1 ("数据脱敏异常，请联系管理员，错误信息：" ⧺ text_of c), r) else passed_on r

abbrev kill_task : Option ℕ → ℕ → List (ℕ × ℕ) → List (ℕ × ℕ)
kill_task none instance schedules = schedules
kill_task (some thread) instance schedules =
    if thread == 0 then schedules else schedules ++ (instance, thread) ∷ []

module _ (order_by : String → List QueryPrivileges → Result (List QueryPrivileges))
    (table_ref : String → Result (List (String × String)))
    (extract_schemas : String → List (Option String)) (text_of : Exc → String)
    (get_engine : Instance → Engine) where
  -- the masking, and what is answered
  unfoldable pub outcome : Engine → String → String → QueryResult → Desk → QueryReply × QueryResult
  outcome engine db_name sql r s =
      if has_error r.error
      then (refusal 1 (error_text r.error), r)
      else if truthy (setting_value "data_masking" s)
      then masked_outcome (truthy (setting_value "query_check" s)) text_of
          (engine.query_masking db_name sql r)
      else (released r, r)

  abbrev log_row : Users → Instance → String → String → Bool → ℤ → QueryResult → ℕ → QueryLog
  log_row user instance db_name sql priv_check limit_num r id = record {
    id = id;
    username = user.username;
    user_display = user.display;
    db_name = db_name;
    instance_name = instance.instance_name;
    sqllog = sql;
    effect_row = counted_rows limit_num r;
    priv_check = priv_check;
    hit_rule = r.mask_rule_hit;
    masking = r.is_masked;
    favorite = false;
    alias = "";
  }

  abbrev pub log_query :
      Users
      → Instance
      → String
      → String
      → Bool
      → ℤ
      → QueryReply × QueryResult
      → Exec Desk QueryReply
  log_query user instance db_name sql priv_check limit_num (reply, r) = do
    modify (λ s. record s {
      query_logs =
          s.query_logs
          ++ log_row user instance db_name sql priv_check limit_num r s.next_log_id ∷ [];
      next_log_id = s.next_log_id + 1;
    })
    pure reply

  abbrev pub ask : Instance → String → String → ℤ → ℤ → Exec Desk QueryResult
  ask instance db_name sql limit_num max_execution_time s = (
    (get_engine instance).query db_name sql limit_num (times_1000 max_execution_time),
    record s { queried = s.queried ++ (instance.id, sql, limit_num) ∷ [] },
  )

  -- the query between the adding and the deletion of the task; a raise leaves the task
  abbrev pub answered : Instance → String → String → ℤ → ℤ → List (ℕ × ℕ) → Exec Desk QueryResult
  answered instance db_name sql limit_num max_execution_time before = do
    r ← ask instance db_name sql limit_num max_execution_time
    modify (λ s. record s { schedules = before })
    pure r

  abbrev pub timed : Instance → String → String → ℤ → ℤ → Exec Desk QueryResult
  timed instance db_name sql limit_num max_execution_time s =
      (lift (get_engine instance).seconds_behind_master
          >> answered instance db_name sql limit_num max_execution_time s.schedules)
        (record s { schedules = kill_task (get_engine instance).thread_id instance.id s.schedules })

  abbrev pub max_execution_time : Desk → Result ℤ
  max_execution_time s = to_int (Config.get "max_execution_time" (num 60) s.ledger.settings).0

  unfoldable pub run_query : Instance → String → String → ℤ → Exec Desk QueryResult
  run_query instance db_name sql limit_num = do
    lift ((get_engine instance).get_connection db_name)
    max ← reads max_execution_time
    timed instance db_name sql limit_num max

  unfoldable pub perform : Users → Instance → String → String → Reply → Exec Desk QueryReply
  perform user instance db_name sql priv = do
    let limit_num = explain_limit sql priv.limit_num
    let rewritten = (get_engine instance).filter_sql sql limit_num
    r ← run_query instance db_name rewritten limit_num
    judged ← reads (λ s. ok (outcome (get_engine instance) db_name rewritten r s))
    log_query user instance db_name rewritten priv.priv_check limit_num judged

  abbrev pub granted_by : Users → Instance → String → String → Reply → Exec Desk QueryReply
  granted_by user instance db_name sql priv s =
      if not (priv.status == 0)
      then (ok (refusal priv.status priv.msg), s)
      else perform user instance db_name sql priv s

  unfoldable pub with_privilege : Users → Instance → String → String → ℤ → Exec Desk QueryReply
  with_privilege user instance db_name sql limit_num = do
    priv ← reads (λ s.
        query_priv_check order_by table_ref extract_schemas text_of user instance db_name sql
          limit_num s.ledger)
    granted_by user instance db_name sql priv

  abbrev pub with_check : Users → Instance → String → ℤ → CheckInfo → Exec Desk QueryReply
  with_check user instance db_name limit_num info s =
      if info.bad_query
      then (ok (refusal 1 info.msg), s)
      else if info.has_star && is_bool_true (setting_value "disable_star" s)
      then (ok (refusal 1 info.msg), s)
      else with_privilege user instance db_name info.filtered_sql limit_num s

  -- the body of the `try`
  unfoldable pub examined : Users → Instance → String → String → ℤ → Exec Desk QueryReply
  examined user instance db_name sql limit_num = do
    info ← lift ((get_engine instance).query_check db_name sql)
    with_check user instance db_name limit_num info

  -- The errors of the database when the row of the log is made are left: they keep the data in the reply.
  abbrev pub excepted : Result QueryReply × Desk → QueryReply × Desk
  excepted (ok reply, s) = (reply, s)
  excepted (err c, s) = (refusal 1 ("查询异常报错，错误信息：" ⧺ text_of c), s)

  abbrev pub with_texts :
      Users → Instance → Option String → Option String → ℤ → Desk → QueryReply × Desk
  with_texts user instance (some db_name) (some sql) limit_num s =
      excepted (examined user instance db_name sql limit_num s)
  with_texts user instance none sql limit_num s = (refusal 1 "页面提交参数可能为空", s)
  with_texts user instance (some db_name) none limit_num s = (refusal 1 "页面提交参数可能为空", s)

  abbrev pub with_instance : Users → QueryRequest → ℤ → Option Instance → Desk → QueryReply × Desk
  with_instance user r limit_num none s = (refusal 1 "你所在组未关联该实例", s)
  with_instance user r limit_num (some instance) s =
      with_texts user instance r.db_name r.sql_content limit_num s

  abbrev pub instance_named : Users → String → Desk → Option Instance
  instance_named user name s =
      find (λ i. i.instance_name == name) (user_instances user none [] [] s.ledger)

  abbrev pub with_limit : Users → QueryRequest → Option ℤ → Desk → QueryReply × Desk
  with_limit user r none s = (refusal 1 "limit_num 非法", s)
  with_limit user r (some limit_num) s =
      with_instance user r limit_num (instance_named user r.instance_name s) s

  unfoldable pub execute_sql_query : Users → QueryRequest → Desk → QueryReply × Desk
  execute_sql_query user r s = with_limit user r (int r.limit_num) s
