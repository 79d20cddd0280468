-- ===== src/Query/Released.antt =====
-- `execute_sql_query` of sql/services/sqlquery_service.py: what it hands to the user.
use mathlib.Core.Path.{◌≡◌, refl, sym, ap, ◌∙◌}
use mathlib.Core.Option.{none-ne-some, some-injective}
use mathlib.Core.Logic.{inl, inr}
use dbshield.Common.{
  ℕ, String, Bool, true, false, not, ◌&&◌, Option, none, some, List, ◌==◌, nat_eq, Bool-cases,
  if◌then◌else◌, ℤ, int, Exec, Result, ok, err, Exc, continue, ◌>>=◌, ◌>>◌, modify, pure, reads,
}
use dbshield.Config
use dbshield.Config.{truthy, null}
use dbshield.Models.{Users}
use dbshield.Privileges.State.{QueryPrivileges, Instance}
use dbshield.Privileges.Check.{Reply, query_priv_check}
use dbshield.Query.State.{QueryResult, Engine, Desk}
use dbshield.Query.Service.{
  QueryRequest, QueryReply, explain_limit, is_bool_true, setting_value, has_error, times_1000,
  answered, timed, max_execution_time, outcome, masked_outcome, refusal, released, log_query,
  run_query, perform, granted_by, with_privilege, with_check, examined, excepted, with_texts,
  with_instance, instance_named, with_limit, execute_sql_query,
}

module _ {A B : Type 0} where
  -- what holds of the outcome of a chain
  holds-continue :
      (x : Result A) (f : A → Exec Desk B) (s : Desk) (K : Result B × Desk → Type 0)
      → ((c : Exc) → K (err c, s))
      → ((a : A) → x ≡ ok a → K (f a s))
      → K (continue x f s)
  holds-continue (ok a) f s K p h = h a refl
  holds-continue (err c) f s K p h = p c

pub unless_parts :
    (b : Bool) (text : String) (raw r : QueryResult)
    → (if◌then◌else◌ {A = QueryReply × QueryResult} b
        (refusal 1 text, raw)
        (released raw, raw)).0.result_data
      ≡ some r
    → (b ≡ false) × (raw ≡ r)
unless_parts true text raw r h = absurd (none-ne-some r h)
unless_parts false text raw r h = (refl, some-injective raw r h)

holds-if :
    {A : Type 0} (b : Bool) (x y : A) (K : A → Type 0)
    → K x
    → (b ≡ false → K y)
    → K (if b then x else y)
holds-if true x y K p q = p
holds-if false x y K p q = q refl

-- with `query_check`, an outcome that is handed out came without a raise and without an error
masked_parts :
    (text_of : Exc → String) (x : Result (Unit {0}) × QueryResult) (r : QueryResult)
    → (masked_outcome true text_of x).0.result_data ≡ some r
    → (x ≡ (ok tt, r)) × (has_error r.error ≡ false)
masked_parts text_of (err c, left) r h = absurd (none-ne-some r h)
masked_parts text_of (ok u, left) r h =
    let (clean, same) = unless_parts (has_error left.error) _ left r h in
    (ap (λ x. (ok tt, x)) same, ap (λ x. has_error x.error) (sym same) ∙ clean)

module _ (order_by : String → List QueryPrivileges → Result (List QueryPrivileges))
    (table_ref : String → Result (List (String × String)))
    (extract_schemas : String → List (Option String)) (text_of : Exc → String)
    (get_engine : Instance → Engine) where
  -- a result that the engine's masking left, without an error, of what its query answered
  pub data Masked (r : QueryResult) : Type 0 where
    masking_ran :
        (instance : Instance) (db_name sql : String) (limit_num max : ℤ) (raw : QueryResult)
        → (get_engine instance).query db_name sql limit_num max ≡ ok raw
        → has_error raw.error ≡ false
        → (get_engine instance).query_masking db_name sql raw ≡ (ok tt, r)
        → has_error r.error ≡ false
        → Masked r

  abbrev pub MaskedReply : QueryReply → Type 0
  MaskedReply reply = (r : QueryResult) → reply.result_data ≡ some r → Masked r

  -- the settings of the start are in force when the query has run
  data Ran (instance : Instance) (db_name sql : String) (limit_num : ℤ) (s : Desk)
      : Result QueryResult × Desk → Type 0 where
    failed : (c : Exc) (t : Desk) → Ran instance db_name sql limit_num s (err c, t)
    ran :
        (r : QueryResult) (max : ℤ) (t : Desk)
        → (get_engine instance).query db_name sql limit_num max ≡ ok r
        → t.ledger ≡ s.ledger
        → Ran instance db_name sql limit_num s (ok r, t)

  run_query-Ran :
      (instance : Instance) (db_name sql : String) (limit_num : ℤ) (s : Desk)
      → Ran instance db_name sql limit_num s (
          run_query order_by table_ref extract_schemas text_of get_engine instance db_name sql
            limit_num s)
  unfolding run_query
  run_query-Ran instance db_name sql limit_num s =
      let K = Ran instance db_name sql limit_num s in
      holds-continue ((get_engine instance).get_connection db_name)
        (λ _.
          reads (max_execution_time order_by table_ref extract_schemas text_of get_engine)
          >>= timed order_by table_ref extract_schemas text_of get_engine instance db_name sql
              limit_num)
        s K (λ c. failed c s)
        (λ _ _.
          holds-continue
            (max_execution_time order_by table_ref extract_schemas text_of get_engine s)
            (timed order_by table_ref extract_schemas text_of get_engine instance db_name sql
              limit_num)
            s K (λ c. failed c s)
            (λ max _.
              holds-continue (get_engine instance).seconds_behind_master
                (λ _.
                  answered order_by table_ref extract_schemas text_of get_engine instance db_name
                    sql limit_num max s.schedules)
                _ K (λ c. failed c _)
                (λ _ _.
                  holds-continue
                    ((get_engine instance).query db_name sql limit_num (times_1000 max))
                    (λ r. modify (λ t. record t { schedules = s.schedules }) >> pure r) _ K
                    (λ c. failed c _) (λ r e. ran r (times_1000 max) _ e refl))))

  outcome-MaskedReply :
      (instance : Instance) (db_name sql : String) (limit_num max : ℤ) (raw : QueryResult)
      (s : Desk)
      → truthy (setting_value "data_masking" s) ≡ true
      → truthy (setting_value "query_check" s) ≡ true
      → (get_engine instance).query db_name sql limit_num max ≡ ok raw
      → MaskedReply
          (outcome order_by table_ref extract_schemas text_of get_engine
            (get_engine instance)
            db_name
            sql
            raw
            s).0
  unfolding outcome
  outcome-MaskedReply instance db_name sql limit_num max raw s masking check e r h =
      elim (Bool-cases (has_error raw.error)) as (λ _. Masked r) [
        | inl bad ↦ absurd (none-ne-some r (rw bad at h))
        | inr good ↦
            let (left, clean) = masked_parts text_of _ r (rw check at rw masking at rw good at h) in
            masking_ran instance db_name sql limit_num max raw e good left clean
      ]

  abbrev Shown : Result QueryReply × Desk → Type 0
  Shown (ok reply, t) = MaskedReply reply
  Shown (err c, t) = Unit {0}

  abbrev Guarded : Desk → Type 0
  Guarded s =
      (truthy (setting_value "data_masking" s) ≡ true)
      × (truthy (setting_value "query_check" s) ≡ true)

  setting_value-ledger :
      (key : String) (s t : Desk) → t.ledger ≡ s.ledger → setting_value key t ≡ setting_value key s
  setting_value-ledger key s t e = ap (λ l. (Config.get key null l.settings).0) e

  log_query-Shown :
      (user : Users) (instance : Instance) (db_name sql : String) (priv_check : Bool)
      (limit_num : ℤ) (s : Desk)
      → Guarded s
      → (x : Result QueryResult × Desk) → Ran instance db_name sql limit_num s x
      → Shown (
          continue x.0
            (λ r.
              reads (λ t. ok (
                outcome order_by table_ref extract_schemas text_of get_engine
                  (get_engine instance)
                  db_name
                  sql
                  r
                  t))
              >>= log_query order_by table_ref extract_schemas text_of get_engine user instance
                  db_name sql priv_check limit_num)
            x.1)
  log_query-Shown user instance db_name sql priv_check limit_num s g x (failed c t) = tt
  log_query-Shown user instance db_name sql priv_check limit_num s (masking, check) x
        (ran r max t e same) =
      outcome-MaskedReply instance db_name sql limit_num max r t
        (ap truthy (setting_value-ledger "data_masking" s t same) ∙ masking)
        (ap truthy (setting_value-ledger "query_check" s t same) ∙ check) e

  perform-Shown :
      (user : Users) (instance : Instance) (db_name sql : String) (priv : Reply) (s : Desk)
      → Guarded s
      → Shown (
          perform order_by table_ref extract_schemas text_of get_engine user instance db_name sql
            priv s)
  unfolding perform
  perform-Shown user instance db_name sql priv s g =
      let limit_num = explain_limit sql priv.limit_num in
      let rewritten = (get_engine instance).filter_sql sql limit_num in
      log_query-Shown user instance db_name rewritten priv.priv_check limit_num s g
        (run_query order_by table_ref extract_schemas text_of get_engine instance db_name rewritten
          limit_num s)
        (run_query-Ran instance db_name rewritten limit_num s)

  refused_Shown : (status : ℕ) (msg : String) → MaskedReply (refusal status msg)
  refused_Shown status msg r h = absurd (none-ne-some r h)

  with_privilege-Shown :
      (user : Users) (instance : Instance) (db_name sql : String) (limit_num : ℤ) (s : Desk)
      → Guarded s
      → Shown (
          with_privilege order_by table_ref extract_schemas text_of get_engine user instance db_name
            sql limit_num s)
  unfolding with_privilege
  with_privilege-Shown user instance db_name sql limit_num s g =
      holds-continue
        (query_priv_check order_by table_ref extract_schemas text_of user instance db_name sql
          limit_num s.ledger)
        (granted_by order_by table_ref extract_schemas text_of get_engine user instance db_name sql)
        s Shown (λ c. tt)
        (λ priv e.
          holds-if (not (priv.status == 0)) (ok (refusal priv.status priv.msg), s)
            (perform order_by table_ref extract_schemas text_of get_engine user instance db_name sql
              priv s)
            Shown (refused_Shown priv.status priv.msg)
            (λ _. perform-Shown user instance db_name sql priv s g))

  examined-Shown :
      (user : Users) (instance : Instance) (db_name sql : String) (limit_num : ℤ) (s : Desk)
      → Guarded s
      → Shown (
          examined order_by table_ref extract_schemas text_of get_engine user instance db_name sql
            limit_num s)
  unfolding examined
  examined-Shown user instance db_name sql limit_num s g =
      holds-continue ((get_engine instance).query_check db_name sql)
        (with_check order_by table_ref extract_schemas text_of get_engine user instance db_name
          limit_num)
        s Shown (λ c. tt)
        (λ info e.
          let x =
            with_privilege order_by table_ref extract_schemas text_of get_engine user instance
              db_name info.filtered_sql limit_num s in
          holds-if info.bad_query (ok (refusal 1 info.msg), s)
            (if info.has_star && is_bool_true (setting_value "disable_star" s)
              then (ok (refusal 1 info.msg), s)
              else x)
            Shown (refused_Shown 1 info.msg)
            (λ _.
              holds-if (info.has_star && is_bool_true (setting_value "disable_star" s))
                (ok (refusal 1 info.msg), s) x Shown (refused_Shown 1 info.msg)
                (λ _. with_privilege-Shown user instance db_name info.filtered_sql limit_num s g)))

  excepted-Shown :
      (x : Result QueryReply × Desk)
      → Shown x
      → MaskedReply (excepted order_by table_ref extract_schemas text_of get_engine x).0
  excepted-Shown (ok reply, t) p = p
  excepted-Shown (err c, t) p = λ v h. absurd (none-ne-some v h)

  texts_Shown :
      (user : Users) (instance : Instance) (db_name sql : Option String) (limit_num : ℤ) (s : Desk)
      → Guarded s
      → MaskedReply
          (with_texts order_by table_ref extract_schemas text_of get_engine user instance db_name
            sql limit_num s).0
  texts_Shown user instance (some db_name) (some sql) limit_num s g =
      excepted-Shown
        (examined order_by table_ref extract_schemas text_of get_engine user instance db_name sql
          limit_num s)
        (examined-Shown user instance db_name sql limit_num s g)
  texts_Shown user instance none sql limit_num s g = λ v h. absurd (none-ne-some v h)
  texts_Shown user instance (some db_name) none limit_num s g = λ v h. absurd (none-ne-some v h)

  instance_Shown :
      (user : Users) (r : QueryRequest) (limit_num : ℤ) (instance : Option Instance) (s : Desk)
      → Guarded s
      → MaskedReply
          (with_instance order_by table_ref extract_schemas text_of get_engine user r limit_num
            instance s).0
  instance_Shown user r limit_num none s g = λ v h. absurd (none-ne-some v h)
  instance_Shown user r limit_num (some instance) s g =
      texts_Shown user instance r.db_name r.sql_content limit_num s g

  request_Shown :
      (user : Users) (r : QueryRequest) (limit_num : Option ℤ) (s : Desk)
      → Guarded s
      → MaskedReply
          (with_limit order_by table_ref extract_schemas text_of get_engine user r limit_num s).0
  request_Shown user r none s g = λ v h. absurd (none-ne-some v h)
  request_Shown user r (some limit_num) s g =
      instance_Shown user r limit_num
        (instance_named order_by table_ref extract_schemas text_of get_engine user r.instance_name
          s)
        s g

  -- Where the settings `data_masking` and `query_check` are on, a result is handed to the user only
  -- as the engine's masking left it: the masking ran on what the engine's query answered, that had no error, the
  -- masking raised nothing, and what it left has no error. Any other outcome, a raise included, answers without a result.
  pub execute_sql_query-MaskedReply :
      (user : Users) (r : QueryRequest) (s : Desk)
      → truthy (setting_value "data_masking" s) ≡ true
      → truthy (setting_value "query_check" s) ≡ true
      → MaskedReply
          (execute_sql_query order_by table_ref extract_schemas text_of get_engine user r s).0
  unfolding execute_sql_query
  execute_sql_query-MaskedReply user r s masking check =
      request_Shown user r (int r.limit_num) s (masking, check)
