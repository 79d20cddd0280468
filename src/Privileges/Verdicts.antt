-- ===== src/Privileges/Verdicts.antt =====
-- `query_priv_check` of sql/query_privileges.py as a whole: the limit it answers, and what the order
-- of the rows does to it.
use mathlib.Core.Path.{◌≡◌, refl, subst}
use mathlib.Core.Logic.{inl, inr}
use native.Mathlib.Omega.{arith}
use dbshield.Common.{
  ◌+◌, nat_eq, ◌||◌, leb, ◌&&◌, code, Bool, ℕ, suc, String, true, false, Option, List, ◌==◌,
  string_eq, ℤ, pos, is_zero, le_int, Result, ok, err, Exc, Bool-cases,
}
use dbshield.Common.Checks.{◌>>=◌, chain_parts}
use dbshield.Models.{Users}
use dbshield.Privileges.State.{QueryPrivileges, Instance, Ledger}
use dbshield.Privileges.Check.{
  Verdict, denied, allowed, capped, admin_query_limit, skips_check, Reply, granted, reply_to,
  caught, failure, replied, load_user_priv_rows, mysql_verdict, databases_verdict, mysql_reply,
  databases_of, may_read, query_priv_check,
}
use dbshield.Privileges.Limits.{
  check_tables-le, least_limit-le, check_databases_parts, capped-le_limit,
}

-- no limit of 0 stands for `unlimited` once one is asked for
caught-le :
    (text : String) (r : Result Verdict) (n : ℕ)
    → ((out : ℤ) → r ≡ ok (allowed out) → le_int out (pos n) ≡ true)
    → le_int (caught text r).limit_num (pos n) ≡ true
caught-le text (ok (allowed out)) n h = h out refl
caught-le text (ok (denied msg)) n h = ground arith
caught-le text (err c) n h = ground arith

replied-le :
    (r : Result Verdict) (reply : Reply) (n : ℕ)
    → ((out : ℤ) → r ≡ ok (allowed out) → le_int out (pos n) ≡ true)
    → replied r ≡ ok reply
    → le_int reply.limit_num (pos n) ≡ true
replied-le (ok v) reply n h e =
    let f : reply_to v ≡ reply = cc e in
    subst (λ r. le_int r.limit_num (pos n) ≡ true) f (caught-le "" (ok v) n h)
replied-le (err c) reply n h e = cc

asked : (n : ℕ) → is_zero (pos (suc n)) ≡ false
asked n = ground arith

admin_reply-le :
    (n : ℕ) (l : Ledger) (reply : Reply)
    → (admin_query_limit l >>= λ k. ok (granted (capped k (pos (suc n))))) ≡ ok reply
    → le_int reply.limit_num (pos (suc n)) ≡ true
admin_reply-le n l reply h =
    let (k, e, j) = chain_parts (admin_query_limit l) _ h in
    let f : granted (capped k (pos (suc n))) ≡ reply = cc j in
    subst (λ r. le_int r.limit_num (pos (suc n)) ≡ true) f
      (capped-le_limit k (pos (suc n)) (asked n))

-- a name of small letters alone: no sign of a descending or random order, and no path to another table
abbrev pub IsWord : String → Type 0
IsWord String.[] = Unit
IsWord (String.◌∷◌ c s) = ((leb 97 (code c) && leb (code c) 122) ≡ true) × IsWord s

-- the text begins with a word of small letters, each of them small or capital
unfoldable pub begins : String → String → Bool
begins String.[] s = true
begins (String.◌∷◌ d w) String.[] = false
begins (String.◌∷◌ d w) (String.◌∷◌ c s) = (code c == code d || code c + 32 == code d) && begins w s

module _ (order_by : String → List QueryPrivileges → Result (List QueryPrivileges))
    (table_ref : String → Result (List (String × String)))
    (extract_schemas : String → List (Option String)) (text_of : Exc → String) where
  abbrev tables_verdict : Users → Instance → String → ℤ → Ledger → Result Verdict
  tables_verdict = mysql_verdict order_by table_ref extract_schemas text_of

  abbrev rows_verdict : Users → Instance → String → String → ℤ → Ledger → Result Verdict
  rows_verdict = databases_verdict order_by table_ref extract_schemas text_of

  abbrev rows_of : Users → Instance → Ledger → Result (List QueryPrivileges)
  rows_of = load_user_priv_rows order_by table_ref extract_schemas text_of

  tables_verdict-le :
      (user : Users) (instance : Instance) (sql : String) (n : ℕ) (l : Ledger) (out : ℤ)
      → tables_verdict user instance sql (pos (suc n)) l ≡ ok (allowed out)
      → le_int out (pos (suc n)) ≡ true
  unfolding mysql_verdict
  tables_verdict-le user instance sql n l out h =
      let (tables, t, k) = chain_parts (table_ref sql) _ h in
      let (rows, r, j) = chain_parts (rows_of user instance l) _ k in
      check_tables-le rows user l (pos (suc n)) out tables (asked n) j

  rows_verdict-le :
      (user : Users) (instance : Instance) (db_name sql : String) (n : ℕ) (l : Ledger) (out : ℤ)
      → rows_verdict user instance db_name sql (pos (suc n)) l ≡ ok (allowed out)
      → le_int out (pos (suc n)) ≡ true
  unfolding databases_verdict
  rows_verdict-le user instance db_name sql n l out h =
      let (rows, r, j) = chain_parts (rows_of user instance l) _ h in
      let dbs = databases_of order_by table_ref extract_schemas text_of instance db_name sql in
      let (a, b) = check_databases_parts rows user l (pos (suc n)) out dbs j in
      least_limit-le rows user l (pos (suc n)) out dbs a (asked n) b

  mysql_reply-le :
      (user : Users) (instance : Instance) (sql : String) (n : ℕ) (l : Ledger)
      → le_int
          (mysql_reply order_by table_ref extract_schemas text_of user instance sql
            (pos (suc n))
            l).limit_num
          (pos (suc n))
        ≡ true
  unfolding mysql_reply
  mysql_reply-le user instance sql n l = elim (Bool-cases (skips_check sql)) [
    | inl e ↦ rw e ground arith
    | inr e ↦ rw e (
        caught-le
          (failure order_by table_ref extract_schemas text_of
            (tables_verdict user instance sql (pos (suc n)) l))
          (tables_verdict user instance sql (pos (suc n)) l) (suc n)
          (tables_verdict-le user instance sql n l))
  ]

  -- Whoever asks, for whatever kind of instance, where a limit of at least 1 is asked for and
  -- `query_priv_check` returns, with a grant or with a refusal, the answered limit is not above
  -- the one that was asked for.
  pub query_priv_check-le :
      (user : Users) (instance : Instance) (db_name sql : String) (n : ℕ) (l : Ledger)
      (reply : Reply)
      → query_priv_check order_by table_ref extract_schemas text_of user instance db_name sql
          (pos (suc n))
          l
        ≡ ok reply
      → le_int reply.limit_num (pos (suc n)) ≡ true
  unfolding query_priv_check
  query_priv_check-le user instance db_name sql n l reply h =
      elim (Bool-cases (user.has_perm "sql.query_all_instances")) [
        | inl p ↦ admin_reply-le n l reply (rw p at h)
        | inr p ↦
            elim (Bool-cases
              (may_read order_by table_ref extract_schemas text_of user instance l)) [
                | inl q ↦ admin_reply-le n l reply (rw (p, q) at h)
                | inr q ↦ elim (Bool-cases (instance.db_type == "mysql")) [
                  | inl e ↦
                      let f : mysql_reply order_by table_ref extract_schemas text_of user instance
                            sql (pos (suc n)) l
                          ≡ reply =
                        cc (rw (p, q, e) at h) in
                      subst (λ (r : Reply). le_int r.limit_num (pos (suc n)) ≡ true) f
                        (mysql_reply-le user instance sql n l)
                  | inr e ↦
                      replied-le (rows_verdict user instance db_name sql (pos (suc n)) l) reply
                        (suc n) (rows_verdict-le user instance db_name sql n l) (rw (p, q, e) at h)
                ]
              ]
      ]
