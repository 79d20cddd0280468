-- ===== src/Query/Asked.antt =====
-- `execute_sql_query` of sql/services/sqlquery_service.py: which queries reach an engine.
use mathlib.Core.Path.{◌≡◌, refl}
use mathlib.Core.Logic.{◌⊎◌, inl, inr}
use dbshield.Common.{
  ℕ, arith, String, Bool, true, false, not, ◌&&◌, Option, none, some, List, [], ◌∷◌, ◌++◌, ◌==◌,
  nat_eq, if◌then◌else◌, ℤ, int, Exec, Result, ok, err, Exc, continue, ◌>>=◌, ◌>>◌, modify, pure,
  reads,
}
use dbshield.Models.{Users}
use dbshield.Privileges.State.{QueryPrivileges, Instance}
use dbshield.Privileges.Check.{Reply, query_priv_check}
use dbshield.Query.State.{CheckInfo, Engine, Desk}
use dbshield.Query.Service.{
  QueryRequest, QueryReply, explain_limit, is_bool_true, setting_value, answered, timed,
  max_execution_time, ask, run_query, perform, granted_by, with_privilege, with_check, examined,
  excepted, with_texts, with_instance, instance_named, with_limit, execute_sql_query,
}

module _ {A B : Type 0} where
  -- what holds of the rows that a chain leaves
  pub leaves-continue :
      (x : Result A) (f : A → Exec Desk B) (s : Desk) (P : Desk → Type 0)
      → P s
      → ((a : A) → x ≡ ok a → P (f a s).1)
      → P (continue x f s).1
  leaves-continue (ok a) f s P p h = h a refl
  leaves-continue (err c) f s P p h = p

  pub leaves-bind :
      (m : Exec Desk A) (f : A → Exec Desk B) (s : Desk) (P : Desk → Type 0)
      → P (m s).1
      → ((a : A) (t : Desk) → P t → P (f a t).1)
      → P ((m >>= f) s).1
  leaves-bind m f s P p h = leaves-continue (m s).0 f (m s).1 P p (λ a _. h a (m s).1 p)

if-leaves :
    (b : Bool) (x y : Result QueryReply × Desk) (P : Desk → Type 0)
    → (b ≡ true → P x.1)
    → (b ≡ false → P y.1)
    → P (if b then x else y).1
if-leaves true x y P h k = h refl
if-leaves false x y P h k = k refl

zero_of : (n : ℕ) → not (n == 0) ≡ false → n ≡ 0
zero_of n h = grind arith

module _ (order_by : String → List QueryPrivileges → Result (List QueryPrivileges))
    (table_ref : String → Result (List (String × String)))
    (extract_schemas : String → List (Option String)) (text_of : Exc → String)
    (get_engine : Instance → Engine) where
  -- `Asked user r s t`: no query was asked, or one that the engine's check let through, and that
  -- `query_priv_check` granted, with the limit that it answered
  pub data Asked (user : Users) (r : QueryRequest) (s t : Desk) : Type 0 where
    silent : t.queried ≡ s.queried → Asked user r s t
    asked :
        (instance : Instance) (db_name sql : String) (limit_num : ℤ) (info : CheckInfo)
        (priv : Reply)
        → instance_named order_by table_ref extract_schemas text_of get_engine user r.instance_name
            s
          ≡ some instance
        → r.db_name ≡ some db_name
        → r.sql_content ≡ some sql
        → int r.limit_num ≡ some limit_num
        → (get_engine instance).query_check db_name sql ≡ ok info
        → info.bad_query ≡ false
        → (info.has_star && is_bool_true (setting_value "disable_star" s)) ≡ false
        → query_priv_check order_by table_ref extract_schemas text_of user instance db_name
            info.filtered_sql limit_num s.ledger
          ≡ ok priv
        → priv.status ≡ 0
        → t.queried
          ≡ s.queried
            ++ (
              instance.id,
              (get_engine instance).filter_sql info.filtered_sql
                  (explain_limit info.filtered_sql priv.limit_num),
              explain_limit info.filtered_sql priv.limit_num,
            )
              ∷ []
        → Asked user r s t

  -- the query itself, or none
  abbrev OneMore : List (ℕ × String × ℤ) → ℕ × String × ℤ → Desk → Type 0
  OneMore before q t = (t.queried ≡ before) ⊎ (t.queried ≡ before ++ q ∷ [])

  timed-OneMore :
      (instance : Instance) (db_name sql : String) (limit_num max : ℤ) (s : Desk)
      → OneMore s.queried
          (instance.id, sql, limit_num)
          (timed order_by table_ref extract_schemas text_of get_engine instance db_name sql
            limit_num max s).1
  timed-OneMore instance db_name sql limit_num max s =
      let P = OneMore s.queried (instance.id, sql, limit_num) in
      leaves-continue (get_engine instance).seconds_behind_master
        (λ _.
          answered order_by table_ref extract_schemas text_of get_engine instance db_name sql
            limit_num max s.schedules)
        _ P (inl refl)
        (λ _ _.
          leaves-bind
            (ask order_by table_ref extract_schemas text_of get_engine instance db_name sql
              limit_num max)
            (λ r. modify (λ t. record t { schedules = s.schedules }) >> pure r) _ P (inr refl)
            (λ r t p. p))

  run_query-OneMore :
      (instance : Instance) (db_name sql : String) (limit_num : ℤ) (s : Desk)
      → OneMore s.queried
          (instance.id, sql, limit_num)
          (run_query order_by table_ref extract_schemas text_of get_engine instance db_name sql
            limit_num s).1
  unfolding run_query
  run_query-OneMore instance db_name sql limit_num s =
      let P = OneMore s.queried (instance.id, sql, limit_num) in
      leaves-continue ((get_engine instance).get_connection db_name)
        (λ _.
          reads (max_execution_time order_by table_ref extract_schemas text_of get_engine)
          >>= timed order_by table_ref extract_schemas text_of get_engine instance db_name sql
              limit_num)
        s P (inl refl)
        (λ _ _.
          leaves-continue
            (max_execution_time order_by table_ref extract_schemas text_of get_engine s)
            (timed order_by table_ref extract_schemas text_of get_engine instance db_name sql
              limit_num)
            s P (inl refl) (λ max _. timed-OneMore instance db_name sql limit_num max s))

  perform-OneMore :
      (user : Users) (instance : Instance) (db_name sql : String) (priv : Reply) (s : Desk)
      → OneMore s.queried
          (
            instance.id,
            (get_engine instance).filter_sql sql (explain_limit sql priv.limit_num),
            explain_limit sql priv.limit_num,
          )
          (perform order_by table_ref extract_schemas text_of get_engine user instance db_name sql
            priv s).1
  unfolding perform
  perform-OneMore user instance db_name sql priv s =
      let limit_num = explain_limit sql priv.limit_num in
      let rewritten = (get_engine instance).filter_sql sql limit_num in
      leaves-bind
        (run_query order_by table_ref extract_schemas text_of get_engine instance db_name rewritten
          limit_num)
        _ s (OneMore s.queried (instance.id, rewritten, limit_num))
        (run_query-OneMore instance db_name rewritten limit_num s) (λ r t p. p)

  with_privilege_leaves :
      (user : Users) (instance : Instance) (db_name sql : String) (limit_num : ℤ) (s : Desk)
      (P : Desk → Type 0)
      → P s
      → ((priv : Reply)
          → query_priv_check order_by table_ref extract_schemas text_of user instance db_name sql
              limit_num s.ledger
            ≡ ok priv
          → priv.status ≡ 0
          → P
              (perform order_by table_ref extract_schemas text_of get_engine user instance db_name
                sql priv s).1)
      → P
          (with_privilege order_by table_ref extract_schemas text_of get_engine user instance
            db_name sql limit_num s).1
  unfolding with_privilege
  with_privilege_leaves user instance db_name sql limit_num s P p h =
      leaves-continue
        (query_priv_check order_by table_ref extract_schemas text_of user instance db_name sql
          limit_num s.ledger)
        (granted_by order_by table_ref extract_schemas text_of get_engine user instance db_name sql)
        s P p
        (λ priv e.
          if-leaves (not (priv.status == 0)) _
            (perform order_by table_ref extract_schemas text_of get_engine user instance db_name sql
              priv s)
            P (λ _. p) (λ denied. h priv e (zero_of priv.status denied)))

  examined_leaves :
      (user : Users) (instance : Instance) (db_name sql : String) (limit_num : ℤ) (s : Desk)
      (P : Desk → Type 0)
      → P s
      → ((info : CheckInfo)
          → (get_engine instance).query_check db_name sql ≡ ok info
          → info.bad_query ≡ false
          → (info.has_star && is_bool_true (setting_value "disable_star" s)) ≡ false
          → P
              (with_privilege order_by table_ref extract_schemas text_of get_engine user instance
                db_name info.filtered_sql limit_num s).1)
      → P
          (examined order_by table_ref extract_schemas text_of get_engine user instance db_name sql
            limit_num s).1
  unfolding examined
  examined_leaves user instance db_name sql limit_num s P p h =
      leaves-continue ((get_engine instance).query_check db_name sql)
        (with_check order_by table_ref extract_schemas text_of get_engine user instance db_name
          limit_num)
        s P p
        (λ info e.
          if-leaves info.bad_query _ _ P (λ _. p)
            (λ good.
              if-leaves (info.has_star && is_bool_true (setting_value "disable_star" s)) _ _ P
                (λ _. p) (λ plain. h info e good plain)))

  excepted_leaves :
      (x : Result QueryReply × Desk) (P : Desk → Type 0)
      → P x.1
      → P (excepted order_by table_ref extract_schemas text_of get_engine x).1
  excepted_leaves (ok reply, s) P p = p
  excepted_leaves (err c, s) P p = p

  instance_Asked :
      (user : Users) (r : QueryRequest) (s : Desk) (limit_num : ℤ) (instance : Instance)
      (db_name sql : Option String)
      → int r.limit_num ≡ some limit_num
      → instance_named order_by table_ref extract_schemas text_of get_engine user r.instance_name s
        ≡ some instance
      → r.db_name ≡ db_name
      → r.sql_content ≡ sql
      → Asked user r s
          (with_texts order_by table_ref extract_schemas text_of get_engine user instance db_name
            sql limit_num s).1
  instance_Asked user r s limit_num instance (some db_name) (some sql) l i d q =
      excepted_leaves
        (examined order_by table_ref extract_schemas text_of get_engine user instance db_name sql
          limit_num s)
        (Asked user r s)
        (examined_leaves user instance db_name sql limit_num s (Asked user r s) (silent refl)
          (λ info e good plain.
            with_privilege_leaves user instance db_name info.filtered_sql limit_num s
              (Asked user r s) (silent refl)
              (λ priv granted zero.
                elim (perform-OneMore user instance db_name info.filtered_sql priv s)
                  as (λ _.
                    Asked user r s
                      (perform order_by table_ref extract_schemas text_of get_engine user instance
                        db_name info.filtered_sql priv s).1) [
                          | inl same ↦ silent same
                          | inr more ↦
                              asked instance db_name sql limit_num info priv i d q l e good plain
                                granted zero more
                        ])))
  instance_Asked user r s limit_num instance none sql l i d q = silent refl
  instance_Asked user r s limit_num instance (some db_name) none l i d q = silent refl

  limit_Asked :
      (user : Users) (r : QueryRequest) (s : Desk) (limit_num : ℤ) (instance : Option Instance)
      → int r.limit_num ≡ some limit_num
      → instance_named order_by table_ref extract_schemas text_of get_engine user r.instance_name s
        ≡ instance
      → Asked user r s
          (with_instance order_by table_ref extract_schemas text_of get_engine user r limit_num
            instance s).1
  limit_Asked user r s limit_num none l i = silent refl
  limit_Asked user r s limit_num (some instance) l i =
      instance_Asked user r s limit_num instance r.db_name r.sql_content l i refl refl

  request_Asked :
      (user : Users) (r : QueryRequest) (s : Desk) (limit_num : Option ℤ)
      → int r.limit_num ≡ limit_num
      → Asked user r s
          (with_limit order_by table_ref extract_schemas text_of get_engine user r limit_num s).1
  request_Asked user r s none l = silent refl
  request_Asked user r s (some limit_num) l =
      limit_Asked user r s limit_num
        (instance_named order_by table_ref extract_schemas text_of get_engine user r.instance_name
          s)
        l refl

  -- A request runs at most one query on an engine. It runs one only where the limit is a number, the
  -- instance is one that the user's resource groups hold, the engine's check let the statement
  -- through, `query_priv_check` granted the filtered statement with status 0, and, where the statement
  -- has a star, `disable_star` does not forbid it; and the query is the filtered statement, rewritten with the limit that
  -- `query_priv_check` answered (0 for an `explain`). Otherwise, also where something raises, no query is run.
  pub execute_sql_query-Asked :
      (user : Users) (r : QueryRequest) (s : Desk)
      → Asked user r s
          (execute_sql_query order_by table_ref extract_schemas text_of get_engine user r s).1
  unfolding execute_sql_query
  execute_sql_query-Asked user r s = request_Asked user r s (int r.limit_num) refl
