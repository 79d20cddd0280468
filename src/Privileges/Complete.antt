-- ===== src/Privileges/Complete.antt =====
-- When `query_priv_check` of sql/query_privileges.py lets a query through: the loop over the tables.
use mathlib.Core.Path.{◌≡◌, refl, ap, ◌∙◌}
use mathlib.Core.Logic.{◌⊎◌, ◌↔◌, inl, inr}
use dbshield.Common.{
  String, Bool, true, false, ◌&&◌, ◌||◌, List, [], ◌∷◌, find, ℤ, is_zero, Result, ok,
}
use dbshield.Common.Among.{Among, All, All-Among, All-map, Among-find, find-Among}
use dbshield.Models.{Users}
use dbshield.Privileges.State.{QueryPrivileges, Ledger}
use dbshield.Privileges.Check.{
  covers_db, covers_tb, limit_of, Verdict, allowed, capped, check_tables,
}
use dbshield.Privileges.Limits.{
  check_tables-IsCovered, covers, db_limit, tb_limit, table_limit, lacks_limit, match_db_priv_lem,
  match_tb_priv_lem,
}

abbrev pub HasLimits : List QueryPrivileges → Type 0
HasLimits rows = All (λ p. is_zero p.limit_num ≡ false) rows

found_limit :
    (test : QueryPrivileges → Bool) (rows : List QueryPrivileges) (p : QueryPrivileges)
    → HasLimits rows
    → Among p rows
    → test p ≡ true
    → is_zero (limit_of (find test rows)) ≡ false
found_limit test rows p h m e =
    let (q, f) = Among-find test p rows m e in
    let (n, _) = find-Among test rows q f in
    ap (λ x. is_zero (limit_of x)) f ∙ All-Among (λ p. is_zero p.limit_num ≡ false) q rows h n

and_false_left : (a b : Bool) → a ≡ false → a && b ≡ false
and_false_left a b e = rw e refl

and_false_right : (a b : Bool) → b ≡ false → a && b ≡ false
and_false_right true b e = e
and_false_right false b e = refl

or_cases : (a b : Bool) → a || b ≡ true → (a ≡ true) ⊎ (b ≡ true)
or_cases true b e = inl refl
or_cases false b e = inr e

covered :
    (rows : List QueryPrivileges) (p : QueryPrivileges) (schema name : String)
    → HasLimits rows
    → Among p rows
    → covers (schema, name) p ≡ true
    → lacks_limit rows schema name ≡ false
covered rows p schema name h m c =
    elim (or_cases (covers_db schema p) (covers_tb schema name p) c) [
      | inl e ↦
          and_false_left (is_zero (db_limit rows schema)) (is_zero (tb_limit rows schema name))
            (found_limit (covers_db schema) rows p h m e)
      | inr e ↦
          and_false_right (is_zero (db_limit rows schema)) (is_zero (tb_limit rows schema name))
            (found_limit (covers_tb schema name) rows p h m e)
    ]

-- a row for a table among them
abbrev pub HasCover : List QueryPrivileges → String × String → Type 0
HasCover rows t = (p : QueryPrivileges) × Among p rows × (covers t p ≡ true)

IsAllowed : Result Verdict → Type 0
IsAllowed r = (out : ℤ) × (r ≡ ok (allowed out))

check_tables_passes :
    (rows : List QueryPrivileges) (user : Users) (l : Ledger) (limit : ℤ) (schema name : String)
    (tables : List (String × String))
    → user.is_superuser ≡ false
    → lacks_limit rows schema name ≡ false
    → check_tables rows user l limit ((schema, name) ∷ tables)
      ≡ check_tables rows user l (capped (table_limit rows schema name) limit) tables
unfolding check_tables
check_tables_passes rows user l limit schema name tables e b =
    rw (match_db_priv_lem rows user l schema e, match_tb_priv_lem rows user l schema name e, b) refl

pub check_tables_complete :
    (rows : List QueryPrivileges) (user : Users) (l : Ledger) (limit : ℤ)
    (tables : List (String × String))
    → user.is_superuser ≡ false
    → HasLimits rows
    → All (HasCover rows) tables
    → (out : ℤ) × (check_tables rows user l limit tables ≡ ok (allowed out))
unfolding check_tables
check_tables_complete rows user l limit [] e h c = (limit, refl)
check_tables_complete rows user l limit ((schema, name) ∷ tables) e h ((p, m, q), c) =
    let next = capped (table_limit rows schema name) limit in
    let (out, k) = check_tables_complete rows user l next tables e h c in
    (
      out,
      check_tables_passes rows user l limit schema name tables e (covered rows p schema name h m q)
          ∙ k,
    )

-- For a user who is no superuser, on rows none of which has the limit 0, and whatever limit is asked
-- for: the loop of `query_priv_check` over the tables lets them through exactly when every table has
-- a row among those given, for the table or for its whole database.
pub check_tables_iff :
    (rows : List QueryPrivileges) (user : Users) (l : Ledger) (limit : ℤ)
    (tables : List (String × String))
    → user.is_superuser ≡ false
    → HasLimits rows
    → ((out : ℤ) × (check_tables rows user l limit tables ≡ ok (allowed out)))
      ↔ All (HasCover rows) tables
check_tables_iff rows user l limit tables e h = (
  λ (out, k).
      All-map (λ t (p, m, q, z, s). (p, m, q)) tables
        (check_tables-IsCovered rows user l limit out tables e k),
  check_tables_complete rows user l limit tables e h,
)
