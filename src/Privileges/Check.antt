-- ===== src/Privileges/Check.antt =====
-- `query_priv_check` of sql/query_privileges.py.
use dbshield.Common.{
  ℕ, String, Char, code, Bool, true, false, ◌&&◌, ◌||◌, Option, none, some, List, [], ◌∷◌, ◌==◌,
  nat_eq, string_eq, any, contains, find, ℤ, pos, is_zero, min_int, ◌⧺◌, is_space, lstrip,
  same_letter, if◌then◌else◌, Result, ok, err, Exc,
}
use dbshield.Common.Checks.{◌>>=◌}
use dbshield.Common.Strings.{sorted_set}
use dbshield.Config
use dbshield.Config.{num}
use dbshield.Models.{Users}
use dbshield.Audit.Review.{to_int}
use dbshield.Privileges.State.{QueryPrivileges, Instance, Ledger, user_instances, valid_rows}

-- `int(SysConfig().get("admin_query_limit", 5000))`
unfoldable pub admin_query_limit : Ledger → Result ℤ
admin_query_limit l = to_int (Config.get "admin_query_limit" (num 5000) l.settings).0

-- a row for the whole database, and a row for the table
abbrev pub covers_db : String → QueryPrivileges → Bool
covers_db schema p = p.priv_type == 1 && (p.db_name == schema || p.db_name == "*")

abbrev pub covers_tb : String → String → QueryPrivileges → Bool
covers_tb schema name p = p.priv_type == 2 && (p.db_name == schema && p.table_name == name)

-- the limit of the first row; the `False` of the source is the number 0
abbrev pub limit_of : Option QueryPrivileges → ℤ
limit_of none = pos 0
limit_of (some p) = p.limit_num

unfoldable pub match_db_priv : List QueryPrivileges → Users → Ledger → String → Result ℤ
match_db_priv rows user l schema =
    if user.is_superuser then admin_query_limit l else ok (limit_of (find (covers_db schema) rows))

unfoldable pub match_tb_priv : List QueryPrivileges → Users → Ledger → String → String → Result ℤ
match_tb_priv rows user l schema name =
    if user.is_superuser
    then admin_query_limit l
    else ok (limit_of (find (covers_tb schema name) rows))

-- `min(priv_limit, limit_num) if limit_num else priv_limit`
abbrev pub capped : ℤ → ℤ → ℤ
capped priv_limit limit_num = if is_zero limit_num then priv_limit else min_int priv_limit limit_num

-- the smaller of the two that are there
abbrev pub either_limit : ℤ → ℤ → ℤ
either_limit db tb = if is_zero db then tb else if is_zero tb then db else min_int db tb

-- what a loop over the tables or the databases comes to
pub data Verdict : Type 0 where
  denied : String → Verdict
  allowed : ℤ → Verdict

abbrev no_table : String → String → String
no_table schema name = "你无" ⧺ schema ⧺ "." ⧺ name ⧺ "表的查询权限！请先到查询权限管理进行申请"

unfoldable pub check_tables :
    List QueryPrivileges → Users → Ledger → ℤ → List (String × String) → Result Verdict
check_tables rows user l limit_num [] = ok (allowed limit_num)
check_tables rows user l limit_num ((schema, name) ∷ tables) = do
  db_limit ← match_db_priv rows user l schema
  tb_limit ← match_tb_priv rows user l schema name
  let later = check_tables rows user l (capped (either_limit db_limit tb_limit) limit_num) tables
  if is_zero db_limit && is_zero tb_limit then ok (denied (no_table schema name)) else later

-- the first loop over the databases: one without a privilege
unfoldable pub first_denied :
    List QueryPrivileges → Users → Ledger → List String → Result (Option String)
first_denied rows user l [] = ok none
first_denied rows user l (db ∷ dbs) = do
  limit ← match_db_priv rows user l db
  let later = first_denied rows user l dbs
  if is_zero limit then ok (some db) else later

-- the second loop
unfoldable pub least_limit : List QueryPrivileges → Users → Ledger → ℤ → List String → Result ℤ
least_limit rows user l limit_num [] = ok limit_num
least_limit rows user l limit_num (db ∷ dbs) = do
  limit ← match_db_priv rows user l db
  least_limit rows user l (capped limit limit_num) dbs

abbrev no_database : String → String
no_database db = "你无" ⧺ db ⧺ "数据库的查询权限！请先到查询权限管理进行申请"

abbrev pub judged : Option String → Result ℤ → Result Verdict
judged none (ok limit) = ok (allowed limit)
judged none (err c) = err c
judged (some db) r = ok (denied (no_database db))

unfoldable pub check_databases :
    List QueryPrivileges → Users → Ledger → ℤ → List String → Result Verdict
check_databases rows user l limit_num dbs = do
  denied_db ← first_denied rows user l dbs
  judged denied_db (least_limit rows user l limit_num dbs)

-- `re.match(r"^explain|^show\s+create", sql, re.I)`, on ASCII letters
unfoldable pub after_word : String → String → Option String
after_word String.[] s = some s
after_word (String.◌∷◌ d w) String.[] = none
after_word (String.◌∷◌ d w) (String.◌∷◌ c s) =
    let rest = after_word w s in if same_letter c d then rest else none

abbrev pub is_some : Option String → Bool
is_some none = false
is_some (some s) = true

pub after_blank : String → Option String
unfolding is_space
after_blank String.[] = none
after_blank (String.◌∷◌ c s) = if is_space c then some (lstrip s) else none

abbrev pub then_word : String → Option String → Bool
then_word w none = false
then_word w (some s) = is_some (after_word w s)

abbrev pub blank_then : Option String → Option String
blank_then none = none
blank_then (some s) = after_blank s

unfoldable pub skips_check : String → Bool
unfolding after_word after_blank lstrip
skips_check sql =
    is_some (after_word "explain" sql) || then_word "create" (blank_then (after_word "show" sql))

-- `text.strip("`")`
unfoldable pub drop_ticks : String → String
drop_ticks String.[] = String.[]
drop_ticks (String.◌∷◌ c s) =
    let rest = drop_ticks s in if code c == 96 then rest else String.◌∷◌ c s

tick_last : Char → String → String
tick_last c String.[] = if code c == 96 then String.[] else String.◌∷◌ c String.[]
tick_last c (String.◌∷◌ d s) = String.◌∷◌ c (String.◌∷◌ d s)

unfoldable pub drop_last_ticks : String → String
unfolding tick_last
drop_last_ticks String.[] = String.[]
drop_last_ticks (String.◌∷◌ c s) = tick_last c (drop_last_ticks s)

-- the databases of the tables that have one, then the chosen one
unfoldable pub schemas : String → List (Option String) → List String
unfolding drop_ticks drop_last_ticks
schemas db_name [] = db_name ∷ []
schemas db_name (none ∷ xs) = schemas db_name xs
schemas db_name (some s ∷ xs) = drop_last_ticks (drop_ticks s) ∷ schemas db_name xs

pub record Reply : Type 0 where
  pub status : ℕ
  pub msg : String
  pub priv_check : Bool
  pub limit_num : ℤ

abbrev pub granted : ℤ → Reply
granted n = record { status = 0; msg = "ok"; priv_check = true; limit_num = n }

abbrev pub refused : ℕ → String → Reply
refused status msg = record { status = status; msg = msg; priv_check = true; limit_num = pos 0 }

abbrev pub reply_to : Verdict → Reply
reply_to (denied msg) = refused 2 msg
reply_to (allowed n) = granted n

-- `except Exception`
abbrev pub caught : String → Result Verdict → Reply
caught text (ok v) = reply_to v
caught text (err c) = refused 1 text

abbrev pub replied : Result Verdict → Result Reply
replied (ok v) = ok (reply_to v)
replied (err c) = err c

-- `order_by` is that of Django's query sets: the rows in the order of a column, or the exception
-- for a name that is no column. `table_ref` is `_table_ref` of the outside parser goInception, with its cache: the tables that
-- a text names. `extract_schemas` is `extract_tables`, which reads the tokens of the sqlparse
-- package: the database of each table. `text_of` is `str(exception)`.
module _ (order_by : String → List QueryPrivileges → Result (List QueryPrivileges))
    (table_ref : String → Result (List (String × String)))
    (extract_schemas : String → List (Option String)) (text_of : Exc → String) where
  abbrev pub failure : Result Verdict → String
  failure (ok v) = ""
  failure (err c) = "无法校验查询语句权限，请联系管理员，错误信息：" ⧺ text_of c

  unfoldable pub load_user_priv_rows : Users → Instance → Ledger → Result (List QueryPrivileges)
  load_user_priv_rows user instance l = order_by "id" (valid_rows user instance l)

  unfoldable pub mysql_verdict : Users → Instance → String → ℤ → Ledger → Result Verdict
  mysql_verdict user instance sql limit_num l = do
    tables ← table_ref sql
    priv_rows ← load_user_priv_rows user instance l
    check_tables priv_rows user l limit_num tables

  unfoldable pub mysql_reply : Users → Instance → String → ℤ → Ledger → Reply
  mysql_reply user instance sql limit_num l =
      if skips_check sql
      then granted (pos 0)
      else caught (failure (mysql_verdict user instance sql limit_num l))
          (mysql_verdict user instance sql limit_num l)

  unfoldable pub databases_of : Instance → String → String → List String
  databases_of instance db_name sql =
      if contains ("redis" ∷ "mssql" ∷ "pgsql" ∷ []) instance.db_type
      then db_name ∷ []
      else sorted_set (schemas db_name (extract_schemas sql))

  abbrev pub admin_reply : ℤ → Ledger → Result Reply
  admin_reply limit_num l = do
    priv_limit ← admin_query_limit l
    ok (granted (capped priv_limit limit_num))

  abbrev pub may_read : Users → Instance → Ledger → Bool
  may_read user instance l =
      user.has_perm "sql.query_resource_group_instance"
      && any (λ i. i.id == instance.id) (user_instances user none [] ("can_read" ∷ []) l)

  unfoldable pub databases_verdict :
      Users → Instance → String → String → ℤ → Ledger → Result Verdict
  databases_verdict user instance db_name sql limit_num l = do
    priv_rows ← load_user_priv_rows user instance l
    check_databases priv_rows user l limit_num (databases_of instance db_name sql)

  unfoldable pub query_priv_check : Users → Instance → String → String → ℤ → Ledger → Result Reply
  query_priv_check user instance db_name sql limit_num l =
      if user.has_perm "sql.query_all_instances"
      then admin_reply limit_num l
      else if may_read user instance l
      then admin_reply limit_num l
      else if instance.db_type == "mysql"
      then ok (mysql_reply user instance sql limit_num l)
      else replied (databases_verdict user instance db_name sql limit_num l)
