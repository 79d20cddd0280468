-- ===== src/Privileges/Granted.antt =====
-- What `query_apply_audit_call_back` of sql/services/privilege_service.py leaves in the table of
-- privileges: the rows that were asked for.
use mathlib.Core.Path.{◌≡◌, refl, sym, ap, ◌∙◌, subst}
use mathlib.Core.Logic.{◌⊎◌, inl, inr}
use text.Mathlib.TextEquality.{eq_iff}
use dbshield.Common.{
  ℕ, String, Bool, true, false, ◌&&◌, Option, none, some, List, [], ◌∷◌, ◌==◌, nat_eq, string_eq,
  nat_beq_iff, keep, pos, ok, exec_parts, Bool-cases,
}
use dbshield.Common.Among.{Among, All, Among-keep, Among-append_left, Among-append_last}
use dbshield.Models.{QueryPrivilegesApply}
use dbshield.Privileges.State.{QueryPrivileges, Ledger}
use dbshield.Privileges.Grant.{
  Lookup, same_table, same_place, is_match, table_of, renewed, created, renew_first, upsert,
  update_or_create, grant_each,
}

tt_eq : (u : Unit {0}) → u ≡ tt
tt_eq u = refl

-- the row of a lookup with what the request asks for
abbrev pub IsRow : Lookup → QueryPrivilegesApply → QueryPrivileges → Type 0
IsRow k a p =
    (is_match k p ≡ true)
    × (p.limit_num ≡ pos a.limit_num)
    × (p.valid_date ≡ a.valid_date)
    × (p.is_deleted ≡ false)

abbrev pub HasRow : Lookup → QueryPrivilegesApply → List QueryPrivileges → Type 0
HasRow k a rows = (p : QueryPrivileges) × Among p rows × IsRow k a p

pub and_parts : (a b : Bool) → a && b ≡ true → (a ≡ true) × (b ≡ true)
and_parts true b h = (refl, h)
and_parts false b h = cc

pub both : (a b : Bool) → a ≡ true → b ≡ true → a && b ≡ true
both a b p q = rw (p, q) refl

-- two lookups of one request: both for databases, or both for tables
abbrev pub Alike : Option String → Option String → Type 0
Alike none none = Unit
Alike (some t) (some u) = Unit
Alike none (some u) = ⊥
Alike (some t) none = ⊥

same_table-table_of :
    (t u : Option String) (name : String)
    → Alike t u
    → same_table t name ≡ true
    → same_table u name ≡ true
    → same_table t (table_of u) ≡ true
same_table-table_of none none name h p q = refl
same_table-table_of (some t) (some u) name h p q =
    (eq_iff u t).1 (sym ((eq_iff name u).0 q) ∙ (eq_iff name t).0 p)
same_table-table_of none (some u) name h p q = elim h [ ]
same_table-table_of (some t) none name h p q = elim h [ ]

renewed-IsRow :
    (k j : Lookup) (a : QueryPrivilegesApply) (p : QueryPrivileges)
    → Alike k.table_name j.table_name
    → is_match k p ≡ true
    → is_match j p ≡ true
    → IsRow k a (renewed j a p)
renewed-IsRow k j a p h m n =
    let (x, y) = and_parts (same_place k p) (same_table k.table_name p.table_name) m in
    let (z, w) = and_parts (same_place j p) (same_table j.table_name p.table_name) n in
    (
      both (same_place k p) (same_table k.table_name (table_of j.table_name)) x
          (same_table-table_of k.table_name j.table_name p.table_name h y w),
      refl,
      refl,
      refl,
    )

Alike-refl : (t : Option String) → Alike t t
Alike-refl none = tt
Alike-refl (some t) = tt

str_refl : (s : String) → s == s ≡ true
str_refl s = (eq_iff s s).1 refl

nat_refl : (n : ℕ) → n == n ≡ true
nat_refl n = (nat_beq_iff n n).1 refl

same_table_refl : (t : Option String) → same_table t (table_of t) ≡ true
same_table_refl none = refl
same_table_refl (some t) = str_refl t

created-IsRow : (k : Lookup) (a : QueryPrivilegesApply) (id : ℕ) → IsRow k a (created k a id)
created-IsRow k a id = (
  rw
      (
        str_refl k.user_name,
        str_refl k.user_display,
        nat_refl k.instance_id,
        str_refl k.db_name,
        nat_refl k.priv_type,
        same_table_refl k.table_name,
      )
      refl,
  refl,
  refl,
  refl,
)

-- a row stays, or it is the one that is renewed
abbrev Stays : Lookup → QueryPrivilegesApply → QueryPrivileges → List QueryPrivileges → Type 0
Stays k a p rows = Among p rows ⊎ ((is_match k p ≡ true) × Among (renewed k a p) rows)

renewed_here :
    (k : Lookup) (a : QueryPrivilegesApply) (p q : QueryPrivileges) (ps : List QueryPrivileges)
    → is_match k q ≡ true
    → Among p (q ∷ ps)
    → Stays k a p (renewed k a q ∷ ps)
renewed_here k a p q ps e (inl f) = inr (ap (is_match k) f ∙ e, inl (ap (renewed k a) f))
renewed_here k a p q ps e (inr m) = inl (inr m)

Stays-later :
    (k : Lookup) (a : QueryPrivilegesApply) (p q : QueryPrivileges) (rows : List QueryPrivileges)
    → Stays k a p rows
    → Stays k a p (q ∷ rows)
Stays-later k a p q rows (inl m) = inl (inr m)
Stays-later k a p q rows (inr (e, m)) = inr (e, inr m)

passed_by :
    (k : Lookup) (a : QueryPrivilegesApply) (p q : QueryPrivileges) (ps rows : List QueryPrivileges)
    → (Among p ps → Stays k a p rows)
    → Among p (q ∷ ps)
    → Stays k a p (q ∷ rows)
passed_by k a p q ps rows ih (inl f) = inl (inl f)
passed_by k a p q ps rows ih (inr m) = Stays-later k a p q rows (ih m)

renew_first_lem :
    (k : Lookup) (a : QueryPrivilegesApply) (p : QueryPrivileges) (ps : List QueryPrivileges)
    → Among p ps
    → Stays k a p (renew_first k a ps)
unfolding renew_first
renew_first_lem k a p [] m = elim m [ ]
renew_first_lem k a p (q ∷ ps) m = elim (Bool-cases (is_match k q)) [
  | inl e ↦ rw e (renewed_here k a p q ps e m)
  | inr e ↦ rw e (passed_by k a p q ps (renew_first k a ps) (renew_first_lem k a p ps) m)
]

-- the first row of the lookup is the one
HasRow-later :
    (k : Lookup) (a : QueryPrivilegesApply) (q : QueryPrivileges) (rows : List QueryPrivileges)
    → HasRow k a rows
    → HasRow k a (q ∷ rows)
HasRow-later k a q rows (p, m, r) = (p, inr m, r)

not_first :
    (k : Lookup) (p q : QueryPrivileges) (ps : List QueryPrivileges)
    → is_match k q ≡ false
    → is_match k p ≡ true
    → Among p (q ∷ ps)
    → Among p ps
not_first k p q ps e h (inl f) = cc (ap (is_match k) f, e, h)
not_first k p q ps e h (inr m) = m

renew_first-HasRow :
    (k : Lookup) (a : QueryPrivilegesApply) (p : QueryPrivileges) (ps : List QueryPrivileges)
    → Among p ps
    → is_match k p ≡ true
    → HasRow k a (renew_first k a ps)
unfolding renew_first
renew_first-HasRow k a p [] m h = elim m [ ]
renew_first-HasRow k a p (q ∷ ps) m h = elim (Bool-cases (is_match k q)) [
  | inl e ↦ rw e (renewed k a q, inl refl, renewed-IsRow k k a q (Alike-refl k.table_name) e e)
  | inr e ↦ rw e (
      HasRow-later k a q (renew_first k a ps)
        (renew_first-HasRow k a p ps (not_first k p q ps e h m) h))
]

HasRow-renew_first :
    (k j : Lookup) (a : QueryPrivilegesApply) (rows : List QueryPrivileges)
    → Alike k.table_name j.table_name
    → HasRow k a rows
    → HasRow k a (renew_first j a rows)
HasRow-renew_first k j a rows h (p, m, r) = elim (renew_first_lem j a p rows m) [
  | inl n ↦ (p, n, r)
  | inr (e, n) ↦ (renewed j a p, n, renewed-IsRow k j a p h r.0 e)
]

-- one name

upsert-HasRow :
    (k : Lookup) (a : QueryPrivilegesApply) (l : Ledger) (found : List QueryPrivileges)
    → keep (is_match k) l.privileges ≡ found
    → (upsert found k a l).0 ≡ ok tt
    → HasRow k a (upsert found k a l).1.privileges
upsert-HasRow k a l [] e h = (
  created k a l.next_id,
  Among-append_last (created k a l.next_id) l.privileges,
  created-IsRow k a l.next_id,
)
upsert-HasRow k a l (p ∷ []) e h =
    let (m, q) = Among-keep (is_match k) p l.privileges (subst (Among p) (sym e) (inl refl)) in
    renew_first-HasRow k a p l.privileges m q
upsert-HasRow k a l (p ∷ q ∷ ps) e h = cc

HasRow-upsert :
    (k j : Lookup) (a : QueryPrivilegesApply) (l : Ledger) (found : List QueryPrivileges)
    → Alike k.table_name j.table_name
    → HasRow k a l.privileges
    → HasRow k a (upsert found j a l).1.privileges
HasRow-upsert k j a l [] h (p, m, r) =
    (p, Among-append_left p l.privileges (created j a l.next_id ∷ []) m, r)
HasRow-upsert k j a l (p ∷ []) h r = HasRow-renew_first k j a l.privileges h r
HasRow-upsert k j a l (p ∷ q ∷ ps) h r = r

-- the loop over the names
module _ (lookup_of : String → Lookup) (a : QueryPrivilegesApply)
    (alike : (s t : String) → Alike (lookup_of s).table_name (lookup_of t).table_name) where
  abbrev after : List String → Ledger → List QueryPrivileges
  after names l = (grant_each lookup_of a names l).1.privileges

  HasRow-grant_each :
      (name : String) (names : List String) (l : Ledger)
      → (grant_each lookup_of a names l).0 ≡ ok tt
      → HasRow (lookup_of name) a l.privileges
      → HasRow (lookup_of name) a (after names l)
  unfolding grant_each update_or_create
  HasRow-grant_each name [] l h r = r
  HasRow-grant_each name (other ∷ names) l h r =
      let (u, e, f) =
        exec_parts (update_or_create (lookup_of other) a) (λ _. grant_each lookup_of a names) l h in
      let l' = (update_or_create (lookup_of other) a l).1 in
      subst (λ x. HasRow (lookup_of name) a x.1.privileges) (sym f)
        (HasRow-grant_each name names l' (sym (ap (λ x. x.0) f) ∙ h) (
          HasRow-upsert (lookup_of name) (lookup_of other) a l
            (keep (is_match (lookup_of other)) l.privileges) (alike name other) r))

  pub grant_each-HasRow :
      (names : List String) (l : Ledger)
      → (grant_each lookup_of a names l).0 ≡ ok tt
      → All (λ name. HasRow (lookup_of name) a (after names l)) names
  unfolding grant_each update_or_create
  grant_each-HasRow [] l h = tt
  grant_each-HasRow (name ∷ names) l h =
      let (u, e, f) =
        exec_parts (update_or_create (lookup_of name) a) (λ _. grant_each lookup_of a names) l h in
      let l' = (update_or_create (lookup_of name) a l).1 in
      let g = sym (ap (λ x. x.0) f) ∙ h in
      subst (λ x. All (λ n. HasRow (lookup_of n) a x.1.privileges) (name ∷ names)) (sym f)
        (
          HasRow-grant_each name names l' g (
              upsert-HasRow (lookup_of name) a l (keep (is_match (lookup_of name)) l.privileges)
                refl (e ∙ ap ok (tt_eq u))),
          grant_each-HasRow names l' g,
        )
