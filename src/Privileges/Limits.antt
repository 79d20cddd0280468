-- ===== src/Privileges/Limits.antt =====
-- What the verdicts of `query_priv_check` in sql/query_privileges.py rest on: the loops over the
-- tables and over the databases.
use mathlib.Core.Path.{◌≡◌, refl, ap, ◌∙◌, subst}
use mathlib.Core.Logic.{◌⊎◌, inl, inr}
use dbshield.Common.{
  String, Bool, true, false, ◌&&◌, ◌||◌, Option, none, some, List, [], ◌∷◌, nat_eq, string_eq, find,
  ℤ, is_zero, le_int, if◌then◌else◌, Result, ok, err, Bool-cases, le_int_refl, le_int_trans,
  min_int-le_left, min_int-le_right, is_zero-min_int,
}
use dbshield.Common.Among.{Among, All, find-Among}
use dbshield.Common.Checks.{chain_parts}
use dbshield.Models.{Users}
use dbshield.Privileges.State.{QueryPrivileges, Ledger}
use dbshield.Privileges.Check.{
  covers_db, covers_tb, judged, limit_of, match_db_priv, match_tb_priv, capped, either_limit,
  Verdict, denied, allowed, check_tables, first_denied, least_limit, check_databases,
}

-- a row among `rows` that passes the test, with a limit that is not 0 and not below `out`
abbrev pub IsCovered : List QueryPrivileges → ℤ → (QueryPrivileges → Bool) → Type 0
IsCovered rows out test =
    (p : QueryPrivileges) × Among p rows
    × (test p ≡ true)
    × (is_zero p.limit_num ≡ false)
    × (le_int out p.limit_num ≡ true)

abbrev pub covers : String × String → QueryPrivileges → Bool
covers (schema, name) p = covers_db schema p || covers_tb schema name p

pub or_left : (a b : Bool) → a ≡ true → a || b ≡ true
or_left true b e = refl
or_left false b e = cc

pub or_right : (a b : Bool) → b ≡ true → a || b ≡ true
or_right true b e = refl
or_right false b e = e

-- the limits

abbrev HasRow : List QueryPrivileges → (QueryPrivileges → Bool) → ℤ → Type 0
HasRow rows test n = (p : QueryPrivileges) × Among p rows × (test p ≡ true) × (p.limit_num ≡ n)

limit_of_lem :
    (test : QueryPrivileges → Bool) (rows : List QueryPrivileges) (found : Option QueryPrivileges)
    → find test rows ≡ found
    → is_zero (limit_of found) ≡ false
    → HasRow rows test (limit_of found)
limit_of_lem test rows none e h = cc
limit_of_lem test rows (some p) e h = let (m, q) = find-Among test rows p e in (p, m, q, refl)

HasRow-covers :
    (rows : List QueryPrivileges) (test : QueryPrivileges → Bool) (n out : ℤ)
    → HasRow rows test n
    → is_zero n ≡ false
    → le_int out n ≡ true
    → IsCovered rows out test
HasRow-covers rows test n out (p, m, q, e) z h =
    (p, m, q, ap is_zero e ∙ z, ap (λ k. le_int out k) e ∙ h)

capped-le : (n limit : ℤ) → le_int (capped n limit) n ≡ true
capped-le n limit = elim (Bool-cases (is_zero limit)) [
  | inl e ↦ rw e (le_int_refl n)
  | inr e ↦ rw e (min_int-le_left n limit)
]

pub capped-le_limit : (n limit : ℤ) → is_zero limit ≡ false → le_int (capped n limit) limit ≡ true
capped-le_limit n limit e = rw e (min_int-le_right n limit)

is_zero-capped : (n limit : ℤ) → is_zero n ≡ false → is_zero (capped n limit) ≡ false
is_zero-capped n limit z = elim (Bool-cases (is_zero limit)) [
  | inl e ↦ rw e z
  | inr e ↦ rw e (is_zero-min_int n limit z e)
]

-- the limit of the two rows together stands under one that is there
either_limit_lem :
    (d t : ℤ)
    → is_zero d && is_zero t ≡ false
    → (is_zero (either_limit d t) ≡ false)
      × (((is_zero d ≡ false) × (le_int (either_limit d t) d ≡ true))
          ⊎ ((is_zero t ≡ false) × (le_int (either_limit d t) t ≡ true)))
either_limit_lem d t h = elim (Bool-cases (is_zero d)) [
  | inl e ↦ let f = rw e at h in rw e (f, inr (f, le_int_refl t))
  | inr e ↦ elim (Bool-cases (is_zero t)) [
    | inl f ↦ rw (e, f) (e, inl (refl, le_int_refl d))
    | inr f ↦ rw (e, f) (is_zero-min_int d t e f, inl (refl, min_int-le_left d t))
  ]
]

not_denied :
    (b : Bool) (db : String) (r : Result (Option String))
    → (if b then ok (some db) else r) ≡ ok none
    → (b ≡ false) × (r ≡ ok none)
not_denied true db r h = cc
not_denied false db r h = (refl, h)

judged_parts :
    (found : Option String) (r : Result ℤ) (out : ℤ)
    → judged found r ≡ ok (allowed out)
    → (found ≡ none) × (r ≡ ok out)
judged_parts none (ok n) out h = (refl, cc h)
judged_parts none (err c) out h = cc
judged_parts (some db) r out h = cc

-- one step of each loop, for a user who is no superuser

pub match_db_priv_lem :
    (rows : List QueryPrivileges) (user : Users) (l : Ledger) (schema : String)
    → user.is_superuser ≡ false
    → match_db_priv rows user l schema ≡ ok (limit_of (find (covers_db schema) rows))
unfolding match_db_priv
match_db_priv_lem rows user l schema e = rw e refl

pub match_tb_priv_lem :
    (rows : List QueryPrivileges) (user : Users) (l : Ledger) (schema name : String)
    → user.is_superuser ≡ false
    → match_tb_priv rows user l schema name ≡ ok (limit_of (find (covers_tb schema name) rows))
unfolding match_tb_priv
match_tb_priv_lem rows user l schema name e = rw e refl

passed_test :
    (b : Bool) (why : String) (r : Result Verdict) (out : ℤ)
    → (if b then ok (denied why) else r) ≡ ok (allowed out)
    → (b ≡ false) × (r ≡ ok (allowed out))
passed_test true why r out h = cc
passed_test false why r out h = (refl, h)

-- the loop over the tables

abbrev pub db_limit : List QueryPrivileges → String → ℤ
db_limit rows schema = limit_of (find (covers_db schema) rows)

abbrev pub tb_limit : List QueryPrivileges → String → String → ℤ
tb_limit rows schema name = limit_of (find (covers_tb schema name) rows)

abbrev pub table_limit : List QueryPrivileges → String → String → ℤ
table_limit rows schema name = either_limit (db_limit rows schema) (tb_limit rows schema name)

abbrev pub lacks_limit : List QueryPrivileges → String → String → Bool
lacks_limit rows schema name = is_zero (db_limit rows schema) && is_zero (tb_limit rows schema name)

check_tables_step :
    (rows : List QueryPrivileges) (user : Users) (l : Ledger) (limit out : ℤ) (schema name : String)
    (tables : List (String × String))
    → user.is_superuser ≡ false
    → check_tables rows user l limit ((schema, name) ∷ tables) ≡ ok (allowed out)
    → (lacks_limit rows schema name ≡ false)
      × (check_tables rows user l (capped (table_limit rows schema name) limit) tables
          ≡ ok (allowed out))
unfolding check_tables
check_tables_step rows user l limit out schema name tables e h =
    passed_test (lacks_limit rows schema name) _ _ out (
      rw (match_db_priv_lem rows user l schema e, match_tb_priv_lem rows user l schema name e) at h)

-- the same step for any user
check_tables_parts :
    (rows : List QueryPrivileges) (user : Users) (l : Ledger) (limit out : ℤ) (schema name : String)
    (tables : List (String × String))
    → check_tables rows user l limit ((schema, name) ∷ tables) ≡ ok (allowed out)
    → (d : ℤ) × (t : ℤ) × (is_zero d && is_zero t ≡ false)
      × (check_tables rows user l (capped (either_limit d t) limit) tables ≡ ok (allowed out))
unfolding check_tables
check_tables_parts rows user l limit out schema name tables h =
    let (d, e, k) = chain_parts (match_db_priv rows user l schema) _ h in
    let (t, f, j) = chain_parts (match_tb_priv rows user l schema name) _ k in
    let (b, r) = passed_test (is_zero d && is_zero t) _ _ out j in (d, t, b, r)

-- the answer stays under a limit that is there when the loop starts
pub check_tables-le :
    (rows : List QueryPrivileges) (user : Users) (l : Ledger) (limit out : ℤ)
    (tables : List (String × String))
    → is_zero limit ≡ false
    → check_tables rows user l limit tables ≡ ok (allowed out)
    → le_int out limit ≡ true
unfolding check_tables
check_tables-le rows user l limit out [] z h =
    subst (λ n. le_int n limit ≡ true) (cc h) (le_int_refl limit)
check_tables-le rows user l limit out ((schema, name) ∷ tables) z h =
    let (d, t, b, k) = check_tables_parts rows user l limit out schema name tables h in
    let n = either_limit d t in
    let (y, _) = either_limit_lem d t b in
    le_int_trans out (capped n limit) limit
      (check_tables-le rows user l (capped n limit) out tables (is_zero-capped n limit y) k)
      (capped-le_limit n limit z)

either_covers :
    (rows : List QueryPrivileges) (schema name : String) (out : ℤ)
    → lacks_limit rows schema name ≡ false
    → le_int out (table_limit rows schema name) ≡ true
    → IsCovered rows out (covers (schema, name))
either_covers rows schema name out b h =
    elim (either_limit_lem (db_limit rows schema) (tb_limit rows schema name) b).1 [
      | inl (z, k) ↦
          let (p, m, q, e) =
            limit_of_lem (covers_db schema) rows (find (covers_db schema) rows) refl z in
          HasRow-covers rows (covers (schema, name)) (db_limit rows schema) out
            (p, m, or_left (covers_db schema p) (covers_tb schema name p) q, e) z
            (le_int_trans out (table_limit rows schema name) (db_limit rows schema) h k)
      | inr (z, k) ↦
          let (p, m, q, e) =
            limit_of_lem (covers_tb schema name) rows (find (covers_tb schema name) rows) refl z in
          HasRow-covers rows (covers (schema, name)) (tb_limit rows schema name) out
            (p, m, or_right (covers_db schema p) (covers_tb schema name p) q, e) z
            (le_int_trans out (table_limit rows schema name) (tb_limit rows schema name) h k)
    ]

-- Where the loop of `query_priv_check` over the tables lets them through with the limit `out`, for a
-- user who is no superuser: every table has a row, among the rows it is given, for the table or for
-- its whole database, whose limit is not 0 and not below `out`.
pub check_tables-IsCovered :
    (rows : List QueryPrivileges) (user : Users) (l : Ledger) (limit out : ℤ)
    (tables : List (String × String))
    → user.is_superuser ≡ false
    → check_tables rows user l limit tables ≡ ok (allowed out)
    → All (λ t. IsCovered rows out (covers t)) tables
check_tables-IsCovered rows user l limit out [] e h = tt
check_tables-IsCovered rows user l limit out ((schema, name) ∷ tables) e h =
    let (b, k) = check_tables_step rows user l limit out schema name tables e h in
    let n = table_limit rows schema name in
    let (y, _) = either_limit_lem (db_limit rows schema) (tb_limit rows schema name) b in
    (
      either_covers rows schema name out b (
          le_int_trans out (capped n limit) n
            (check_tables-le rows user l (capped n limit) out tables (is_zero-capped n limit y) k)
            (capped-le n limit)),
      check_tables-IsCovered rows user l (capped n limit) out tables e k,
    )

-- the loops over the databases

first_denied_step :
    (rows : List QueryPrivileges) (user : Users) (l : Ledger) (db : String) (dbs : List String)
    → user.is_superuser ≡ false
    → first_denied rows user l (db ∷ dbs) ≡ ok none
    → (is_zero (db_limit rows db) ≡ false) × (first_denied rows user l dbs ≡ ok none)
unfolding first_denied
first_denied_step rows user l db dbs e h =
    not_denied (is_zero (db_limit rows db)) db (first_denied rows user l dbs)
      (rw (match_db_priv_lem rows user l db e) at h)

least_limit_step :
    (rows : List QueryPrivileges) (user : Users) (l : Ledger) (limit out : ℤ) (db : String)
    (dbs : List String)
    → user.is_superuser ≡ false
    → least_limit rows user l limit (db ∷ dbs) ≡ ok out
    → least_limit rows user l (capped (db_limit rows db) limit) dbs ≡ ok out
unfolding least_limit
least_limit_step rows user l limit out db dbs e h = rw (match_db_priv_lem rows user l db e) at h

-- the same steps for any user
database_parts :
    (rows : List QueryPrivileges) (user : Users) (l : Ledger) (limit out : ℤ) (db : String)
    (dbs : List String)
    → first_denied rows user l (db ∷ dbs) ≡ ok none
    → least_limit rows user l limit (db ∷ dbs) ≡ ok out
    → (n : ℤ) × (is_zero n ≡ false)
      × (first_denied rows user l dbs ≡ ok none)
      × (least_limit rows user l (capped n limit) dbs ≡ ok out)
unfolding first_denied least_limit
database_parts rows user l limit out db dbs f h =
    let (n, e, k) = chain_parts (match_db_priv rows user l db) _ h in
    let (z, g) = not_denied (is_zero n) db (first_denied rows user l dbs) (rw e at f) in
    (n, z, g, k)

pub least_limit-le :
    (rows : List QueryPrivileges) (user : Users) (l : Ledger) (limit out : ℤ) (dbs : List String)
    → first_denied rows user l dbs ≡ ok none
    → is_zero limit ≡ false
    → least_limit rows user l limit dbs ≡ ok out
    → le_int out limit ≡ true
unfolding least_limit
least_limit-le rows user l limit out [] f z h =
    subst (λ n. le_int n limit ≡ true) (cc h) (le_int_refl limit)
least_limit-le rows user l limit out (db ∷ dbs) f z h =
    let (n, y, g, k) = database_parts rows user l limit out db dbs f h in
    le_int_trans out (capped n limit) limit
      (least_limit-le rows user l (capped n limit) out dbs g (is_zero-capped n limit y) k)
      (capped-le_limit n limit z)

least_limit-IsCovered :
    (rows : List QueryPrivileges) (user : Users) (l : Ledger) (limit out : ℤ) (dbs : List String)
    → user.is_superuser ≡ false
    → first_denied rows user l dbs ≡ ok none
    → least_limit rows user l limit dbs ≡ ok out
    → All (λ db. IsCovered rows out (covers_db db)) dbs
least_limit-IsCovered rows user l limit out [] e f h = tt
least_limit-IsCovered rows user l limit out (db ∷ dbs) e f h =
    let (y, g) = first_denied_step rows user l db dbs e f in
    let n = db_limit rows db in
    let k = least_limit_step rows user l limit out db dbs e h in
    let (p, m, q, r) = limit_of_lem (covers_db db) rows (find (covers_db db) rows) refl y in
    (
      HasRow-covers rows (covers_db db) n out (p, m, q, r) y
          (le_int_trans out (capped n limit) n
            (least_limit-le rows user l (capped n limit) out dbs g (is_zero-capped n limit y) k)
            (capped-le n limit)),
      least_limit-IsCovered rows user l (capped n limit) out dbs e g k,
    )

-- a verdict on databases comes from both loops
pub check_databases_parts :
    (rows : List QueryPrivileges) (user : Users) (l : Ledger) (limit out : ℤ) (dbs : List String)
    → check_databases rows user l limit dbs ≡ ok (allowed out)
    → (first_denied rows user l dbs ≡ ok none) × (least_limit rows user l limit dbs ≡ ok out)
unfolding check_databases
check_databases_parts rows user l limit out dbs h =
    let (found, f, j) = chain_parts (first_denied rows user l dbs) _ h in
    let (e, k) = judged_parts found (least_limit rows user l limit dbs) out j in (f ∙ ap ok e, k)

-- Where the loops of `query_priv_check` over the databases let them through with the limit `out`, for
-- a user who is no superuser: every database has a row, among the rows they are given, for the whole
-- database, whose limit is not 0 and not below `out`.
pub check_databases-IsCovered :
    (rows : List QueryPrivileges) (user : Users) (l : Ledger) (limit out : ℤ) (dbs : List String)
    → user.is_superuser ≡ false
    → check_databases rows user l limit dbs ≡ ok (allowed out)
    → All (λ db. IsCovered rows out (covers_db db)) dbs
check_databases-IsCovered rows user l limit out dbs e h =
    let (f, k) = check_databases_parts rows user l limit out dbs h in
    least_limit-IsCovered rows user l limit out dbs e f k
