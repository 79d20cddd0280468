-- ===== src/Privileges/Callback.antt =====
-- `query_apply_audit_call_back` of sql/services/privilege_service.py as a whole: what a request that
-- is granted, rejected or broken off does to the table of privileges.
use mathlib.Core.Path.{◌≡◌, refl, ◌∙◌, subst}
use mathlib.Core.Logic.{inl, inr}
use text.Mathlib.TextEquality.{eq_iff}
use dbshield.Common.{
  ℕ, String, Bool, true, false, not, List, [], ◌∷◌, ◌++◌, ◌==◌, nat_eq, string_eq, map, keep,
  split_comma, if◌then◌else◌, Result, ok, err, Exec, continue, Bool-cases,
}
use dbshield.Common.Among.{All}
use dbshield.Const.{WorkflowStatus, waiting, passed, rejected, aborted}
use dbshield.Models.{QueryPrivilegesApply}
use dbshield.Privileges.State.{QueryPrivileges, Ledger}
use dbshield.Privileges.Grant.{
  Lookup, get_apply, is_match, created, renew_first, upsert, update_or_create, db_lookup, tb_lookup,
  grant_each, grant, save_status, settle_apply, query_apply_audit_call_back,
}
use dbshield.Privileges.Granted.{HasRow, grant_each-HasRow}

-- what holds of the table and is kept by each name, is kept by the whole call
module _ (a : QueryPrivilegesApply) (P : List QueryPrivileges → Type 0)
    (step : (k : Lookup) (found : List QueryPrivileges) (l : Ledger)
      → k.user_name ≡ a.user_name
      → P l.privileges
      → P (upsert found k a l).1.privileges) where
  continue-keeps :
      {A B : Type 0} (r : Result A) (f : A → Exec Ledger B) (l : Ledger)
      → P l.privileges
      → ((x : A) → P (f x l).1.privileges)
      → P (continue r f l).1.privileges
  continue-keeps (ok x) f l p h = h x
  continue-keeps (err c) f l p h = p

  grant_each-keeps :
      (lookup_of : String → Lookup) (names : List String) (l : Ledger)
      → ((name : String) → (lookup_of name).user_name ≡ a.user_name)
      → P l.privileges
      → P (grant_each lookup_of a names l).1.privileges
  unfolding grant_each update_or_create
  grant_each-keeps lookup_of [] l e p = p
  grant_each-keeps lookup_of (name ∷ names) l e p =
      let now = update_or_create (lookup_of name) a l in
      let q = step (lookup_of name) (keep (is_match (lookup_of name)) l.privileges) l (e name) p in
      continue-keeps now.0 (λ _. grant_each lookup_of a names) now.1 q
        (λ _. grant_each-keeps lookup_of names now.1 e q)

  grant-keeps : (l : Ledger) → P l.privileges → P (grant a l).1.privileges
  unfolding grant
  grant-keeps l p = elim (Bool-cases (a.priv_type == 1)) [
    | inl e ↦ rw e (grant_each-keeps (db_lookup a) (split_comma a.db_list) l (λ _. refl) p)
    | inr e ↦ elim (Bool-cases (a.priv_type == 2)) [
      | inl f ↦
          rw (e, f) (grant_each-keeps (tb_lookup a) (split_comma a.table_list) l (λ _. refl) p)
      | inr f ↦ rw (e, f) p
    ]
  ]

  settle_apply-keeps :
      (n : ℕ) (status : WorkflowStatus) (l : Ledger)
      → P l.privileges
      → P (settle_apply n status a l).1.privileges
  unfolding settle_apply
  settle_apply-keeps n passed l p = grant-keeps (save_status n passed l).1 p
  settle_apply-keeps n rejected l p = p
  settle_apply-keeps n waiting l p = p
  settle_apply-keeps n aborted l p = p

  pub call_back-keeps :
      (n : ℕ) (status : WorkflowStatus) (l : Ledger)
      → get_apply n l ≡ ok a
      → P l.privileges
      → P (query_apply_audit_call_back n status l).1.privileges
  unfolding query_apply_audit_call_back
  call_back-keeps n status l e p = rw e (settle_apply-keeps n status l p)

-- the rows of everybody else
abbrev pub other : String → QueryPrivileges → Bool
other user_name p = not (p.user_name == user_name)

not_other :
    (user : String) (k : Lookup) (p : QueryPrivileges)
    → k.user_name ≡ user
    → is_match k p ≡ true
    → other user p ≡ false
not_other user k p e m = elim (Bool-cases (p.user_name == k.user_name)) [
  | inl f ↦ rw (subst (λ u. p.user_name == u ≡ true) e f) refl
  | inr f ↦ cc (f, m)
]

others_append :
    (user : String) (k : Lookup) (a : QueryPrivilegesApply) (id : ℕ) (ps : List QueryPrivileges)
    → k.user_name ≡ user
    → keep (other user) (ps ++ created k a id ∷ []) ≡ keep (other user) ps
others_append user k a id [] e = rw ((eq_iff k.user_name user).1 e) refl
others_append user k a id (p ∷ ps) e = elim (Bool-cases (other user p)) [
  | inl f ↦ rw (f, others_append user k a id ps e) refl
  | inr f ↦ rw (f, others_append user k a id ps e) refl
]

others_renew :
    (user : String) (k : Lookup) (a : QueryPrivilegesApply) (ps : List QueryPrivileges)
    → k.user_name ≡ user
    → keep (other user) (renew_first k a ps) ≡ keep (other user) ps
unfolding renew_first
others_renew user k a [] e = refl
others_renew user k a (p ∷ ps) e = elim (Bool-cases (is_match k p)) [
  | inl f ↦ rw (f, not_other user k p e f) refl
  | inr f ↦ rw f (elim (Bool-cases (other user p)) [
    | inl g ↦ rw (g, others_renew user k a ps e) refl
    | inr g ↦ rw (g, others_renew user k a ps e) refl
  ])
]

others_upsert :
    (user : String) (k : Lookup) (found : List QueryPrivileges) (a : QueryPrivilegesApply)
    (l : Ledger)
    → k.user_name ≡ user
    → keep (other user) (upsert found k a l).1.privileges ≡ keep (other user) l.privileges
others_upsert user k [] a l e = others_append user k a l.next_id l.privileges e
others_upsert user k (p ∷ []) a l e = others_renew user k a l.privileges e
others_upsert user k (p ∷ q ∷ ps) a l e = refl

-- Whatever the decision, and whether or not the call returns, `query_apply_audit_call_back` for a
-- request that is there leaves the rows of every user but the one who asked as they were, in the
-- same order, and makes no row for another user.
pub query_apply_audit_call_back-others :
    (n : ℕ) (status : WorkflowStatus) (l : Ledger) (a : QueryPrivilegesApply)
    → get_apply n l ≡ ok a
    → keep (other a.user_name) (query_apply_audit_call_back n status l).1.privileges
      ≡ keep (other a.user_name) l.privileges
query_apply_audit_call_back-others n status l a e =
    call_back-keeps a
      (λ rows. keep (other a.user_name) rows ≡ keep (other a.user_name) l.privileges)
      (λ k found t f h. others_upsert a.user_name k found a t f ∙ h) n status l e refl

-- the rows that a request asks for
abbrev pub lookups : QueryPrivilegesApply → List Lookup
lookups a =
    if a.priv_type == 1
    then map (db_lookup a) (split_comma a.db_list)
    else if a.priv_type == 2
    then map (tb_lookup a) (split_comma a.table_list)
    else []

All-mapped :
    (P : Lookup → Type 0) (f : String → Lookup) (names : List String)
    → All (λ name. P (f name)) names
    → All P (map f names)
All-mapped P f [] h = tt
All-mapped P f (name ∷ names) (p, h) = (p, All-mapped P f names h)

grant-HasRow :
    (a : QueryPrivilegesApply) (l : Ledger)
    → (grant a l).0 ≡ ok tt
    → All (λ k. HasRow k a (grant a l).1.privileges) (lookups a)
unfolding grant
grant-HasRow a l h = elim (Bool-cases (a.priv_type == 1)) [
  | inl e ↦ rw e (
      All-mapped _ (db_lookup a) (split_comma a.db_list)
        (grant_each-HasRow (db_lookup a) a (λ s t. tt) (split_comma a.db_list) l (rw e at h)))
  | inr e ↦ elim (Bool-cases (a.priv_type == 2)) [
    | inl f ↦
        rw (e, f)
          (All-mapped _ (tb_lookup a) (split_comma a.table_list) (
            grant_each-HasRow (tb_lookup a) a (λ s t. tt) (split_comma a.table_list) l
              (rw (e, f) at h)))
    | inr f ↦ rw (e, f) tt
  ]
]

pub query_apply_audit_call_back-HasRow :
    (n : ℕ) (l : Ledger) (a : QueryPrivilegesApply)
    → get_apply n l ≡ ok a
    → (query_apply_audit_call_back n passed l).0 ≡ ok tt
    → All (λ k. HasRow k a (query_apply_audit_call_back n passed l).1.privileges) (lookups a)
unfolding query_apply_audit_call_back settle_apply
query_apply_audit_call_back-HasRow n l a e h =
    rw e (grant-HasRow a (save_status n passed l).1 (rw e at h))
