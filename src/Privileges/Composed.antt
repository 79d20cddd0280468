-- ===== src/Privileges/Composed.antt =====
-- A request that passed and the queries after it: `query_apply_audit_call_back` of
-- sql/services/privilege_service.py, then the loop of `query_priv_check` of sql/query_privileges.py.
use mathlib.Core.Path.{◌≡◌, refl, sym, ap, ◌∙◌, subst}
use mathlib.Core.Logic.{inl, inr}
use text.Mathlib.TextEquality.{eq_iff}
use dbshield.Common.{
  ℕ, String, Bool, true, false, ◌&&◌, not, List, [], ◌∷◌, ◌++◌, ◌==◌, nat_eq, string_eq, map,
  contains, leb, keep, ℤ, pos, is_zero, split_comma, if◌then◌else◌, ok, Bool-cases,
}
use dbshield.Common.Among.{All, All-map, keep-Among}
use dbshield.Const.{passed}
use dbshield.Models.{Users, QueryPrivilegesApply}
use dbshield.Privileges.State.{QueryPrivileges, Instance, Ledger, is_valid, valid_rows}
use dbshield.Privileges.Check.{covers_db, covers_tb, check_tables, allowed}
use dbshield.Privileges.Grant.{
  Lookup, get_apply, same_table, same_place, is_match, created, renew_first, upsert, db_lookup,
  tb_lookup, query_apply_audit_call_back,
}
use dbshield.Privileges.Granted.{IsRow, HasRow, and_parts, both}
use dbshield.Privileges.Callback.{call_back-keeps, lookups, query_apply_audit_call_back-HasRow}
use dbshield.Privileges.Limits.{covers, or_left, or_right}
use dbshield.Privileges.Complete.{HasLimits, HasCover, check_tables_complete}

-- the limits that are there

HasLimits-append :
    (rows : List QueryPrivileges) (p : QueryPrivileges)
    → HasLimits rows
    → is_zero p.limit_num ≡ false
    → HasLimits (rows ++ p ∷ [])
HasLimits-append [] p h e = (e, tt)
HasLimits-append (q ∷ rows) p (f, h) e = (f, HasLimits-append rows p h e)

HasLimits-renew :
    (k : Lookup) (a : QueryPrivilegesApply) (rows : List QueryPrivileges)
    → is_zero (pos a.limit_num) ≡ false
    → HasLimits rows
    → HasLimits (renew_first k a rows)
unfolding renew_first
HasLimits-renew k a [] e h = tt
HasLimits-renew k a (p ∷ rows) e (f, h) = elim (Bool-cases (is_match k p)) [
  | inl m ↦ rw m (e, h)
  | inr m ↦ rw m (f, HasLimits-renew k a rows e h)
]

HasLimits-upsert :
    (k : Lookup) (found : List QueryPrivileges) (a : QueryPrivilegesApply) (l : Ledger)
    → is_zero (pos a.limit_num) ≡ false
    → HasLimits l.privileges
    → HasLimits (upsert found k a l).1.privileges
HasLimits-upsert k [] a l e h = HasLimits-append l.privileges (created k a l.next_id) h e
HasLimits-upsert k (p ∷ []) a l e h = HasLimits-renew k a l.privileges e h
HasLimits-upsert k (p ∷ q ∷ ps) a l e h = h

HasLimits-keep :
    (test : QueryPrivileges → Bool) (rows : List QueryPrivileges)
    → HasLimits rows
    → HasLimits (keep test rows)
HasLimits-keep test [] h = tt
HasLimits-keep test (p ∷ rows) (e, h) = elim (Bool-cases (test p)) [
  | inl f ↦ rw f (e, HasLimits-keep test rows h)
  | inr f ↦ rw f (HasLimits-keep test rows h)
]

no_falsehood : false ≡ true → ⊥
no_falsehood e = cc

-- the table is one that the request names
abbrev pub asks_for : QueryPrivilegesApply → String × String → Bool
asks_for a (schema, name) =
    if a.priv_type == 1
    then contains (split_comma a.db_list) schema
    else if a.priv_type == 2
    then schema == a.db_list && contains (split_comma a.table_list) name
    else false

All-contains :
    (P : Lookup → Type 0) (f : String → Lookup) (x : String) (names : List String)
    → contains names x ≡ true
    → All P (map f names)
    → P (f x)
All-contains P f x [] h ps = cc
All-contains P f x (y ∷ names) h (p, ps) = elim (Bool-cases (y == x)) [
  | inl e ↦ subst (λ n. P (f n)) ((eq_iff y x).0 e) p
  | inr e ↦ All-contains P f x names (rw e at h) ps
]

-- a row of the request is a valid row of the user, and covers the table

is_match_parts :
    (k : Lookup) (p : QueryPrivileges)
    → is_match k p ≡ true
    → (p.user_name == k.user_name ≡ true)
      × (p.instance_id == k.instance_id ≡ true)
      × (p.db_name == k.db_name ≡ true)
      × (p.priv_type == k.priv_type ≡ true)
      × (same_table k.table_name p.table_name ≡ true)
is_match_parts k p h =
    let (x, t) = and_parts (same_place k p) (same_table k.table_name p.table_name) h in
    let (u, y) = and_parts (p.user_name == k.user_name) _ x in
    let (d, z) = and_parts (p.user_display == k.user_display) _ y in
    let (i, w) = and_parts (p.instance_id == k.instance_id) _ z in
    let (b, c) = and_parts (p.db_name == k.db_name) (p.priv_type == k.priv_type) w in
    (u, i, b, c, t)

module _ (a : QueryPrivilegesApply) (user : Users) (instance : Instance) (now : ℕ)
    (same_user : a.user_name ≡ user.username) (same_instance : a.instance_id ≡ instance.id)
    (in_time : leb now a.valid_date ≡ true) where
  IsRow-is_valid :
      (k : Lookup) (p : QueryPrivileges)
      → k.user_name ≡ a.user_name
      → k.instance_id ≡ a.instance_id
      → IsRow k a p
      → is_valid user instance.id now p ≡ true
  unfolding is_valid
  IsRow-is_valid k p e f (m, limit, date, deleted) =
      let (u, i, b, c, t) = is_match_parts k p m in
      both (p.user_name == user.username) _ (subst (λ n. p.user_name == n ≡ true) (e ∙ same_user) u)
        (both (p.instance_id == instance.id) _
          (subst (λ n. p.instance_id == n ≡ true) (f ∙ same_instance) i)
          (both (leb now p.valid_date) (not p.is_deleted) (ap (leb now) date ∙ in_time)
            (ap not deleted)))

  HasRow-HasCover :
      (k : Lookup) (t : String × String) (rows : List QueryPrivileges)
      → k.user_name ≡ a.user_name
      → k.instance_id ≡ a.instance_id
      → ((p : QueryPrivileges) → is_match k p ≡ true → covers t p ≡ true)
      → HasRow k a rows
      → HasCover (keep (is_valid user instance.id now) rows) t
  HasRow-HasCover k t rows e f c (p, m, r) =
      (p, keep-Among (is_valid user instance.id now) p rows m (IsRow-is_valid k p e f r), c p r.0)

  db-covers :
      (db name : String) (p : QueryPrivileges)
      → is_match (db_lookup a db) p ≡ true
      → covers (db, name) p ≡ true
  db-covers db name p m =
      let (u, i, b, c, t) = is_match_parts (db_lookup a db) p m in
      or_left (covers_db db p) (covers_tb db name p)
        (both (p.priv_type == 1) _ c (or_left (p.db_name == db) (p.db_name == "*") b))

  tb-covers :
      (tb : String) (p : QueryPrivileges)
      → is_match (tb_lookup a tb) p ≡ true
      → covers (a.db_list, tb) p ≡ true
  tb-covers tb p m =
      let (u, i, b, c, t) = is_match_parts (tb_lookup a tb) p m in
      or_right (covers_db a.db_list p) (covers_tb a.db_list tb p)
        (both (p.priv_type == 2) _ c (both (p.db_name == a.db_list) (p.table_name == tb) b t))

  asked-HasCover :
      (rows : List QueryPrivileges) (t : String × String)
      → All (λ k. HasRow k a rows) (lookups a)
      → asks_for a t ≡ true
      → HasCover (keep (is_valid user instance.id now) rows) t
  asked-HasCover rows (schema, name) h e = elim (Bool-cases (a.priv_type == 1)) [
    | inl f ↦
        HasRow-HasCover (db_lookup a schema) (schema, name) rows refl refl (db-covers schema name)
          (All-contains (λ k. HasRow k a rows) (db_lookup a) schema (split_comma a.db_list)
            (rw f at e) (rw f at h))
    | inr f ↦ elim (Bool-cases (a.priv_type == 2)) [
      | inl g ↦
          let (d, c) =
            and_parts (schema == a.db_list) (contains (split_comma a.table_list) name)
              (rw (f, g) at e) in
          subst (λ s. HasCover (keep (is_valid user instance.id now) rows) (s, name))
            (sym ((eq_iff schema a.db_list).0 d))
            (HasRow-HasCover (tb_lookup a name) (a.db_list, name) rows refl refl (tb-covers name)
              (All-contains (λ k. HasRow k a rows) (tb_lookup a) name (split_comma a.table_list) c
                (rw (f, g) at h)))
      | inr g ↦ elim (no_falsehood (rw (f, g) at e)) [ ]
    ]
  ]

-- Where no row has the limit 0 and the request does not ask for it, and where
-- `query_apply_audit_call_back` returned for the request that passed: for as long as the table of
-- privileges stays as it was left and the last day asked for has not gone by, the loop of
-- `query_priv_check` over the tables, on the valid rows of the user who asked (no superuser) for the
-- instance asked for, lets through any tables that are all named by the request.
pub query_apply_audit_call_back-check_tables :
    (n : ℕ) (l later : Ledger) (a : QueryPrivilegesApply) (user : Users) (instance : Instance)
    (limit : ℤ) (tables : List (String × String))
    → get_apply n l ≡ ok a
    → HasLimits l.privileges
    → is_zero (pos a.limit_num) ≡ false
    → (query_apply_audit_call_back n passed l).0 ≡ ok tt
    → later.privileges ≡ (query_apply_audit_call_back n passed l).1.privileges
    → leb later.now a.valid_date ≡ true
    → a.user_name ≡ user.username
    → a.instance_id ≡ instance.id
    → user.is_superuser ≡ false
    → All (λ t. asks_for a t ≡ true) tables
    → (out : ℤ) × (check_tables (valid_rows user instance later) user later limit tables
        ≡ ok (allowed out))
unfolding valid_rows
query_apply_audit_call_back-check_tables n l later a user instance limit tables e limits z done left
      in_time u i plain asked =
    let valid = is_valid user instance.id later.now in
    let after = (query_apply_audit_call_back n passed l).1.privileges in
    let h : HasLimits after =
      call_back-keeps a HasLimits (λ k found t f x. HasLimits-upsert k found a t z x) n passed l e
        limits in
    let rows = query_apply_audit_call_back-HasRow n l a e done in
    check_tables_complete (keep valid later.privileges) user later limit tables plain
      (subst (λ r. HasLimits (keep valid r)) (sym left) (HasLimits-keep valid after h))
      (All-map
        (λ t k.
          subst (λ r. HasCover (keep valid r) t) (sym left)
            (asked-HasCover a user instance later.now u i in_time after t rows k))
        tables asked)
