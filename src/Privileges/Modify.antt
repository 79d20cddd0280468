-- ===== src/Privileges/Modify.antt =====
-- `query_priv_modify` of sql/query_privileges.py: an administrator takes a privilege back or changes it.
use mathlib.Core.Path.{◌≡◌, refl, ap, ◌∙◌}
use mathlib.Core.Logic.{inl, inr}
use dbshield.Common.{
  ℕ, String, Bool, true, false, not, ◌&&◌, Option, none, some, List, [], ◌∷◌, ◌==◌, nat_eq,
  string_eq, ℤ, pos, negsuc, int, find, keep, if◌then◌else◌, Exec, Result, ok, err, pure, lift,
  gets, modify, ◌>>=◌, ◌>>◌, type_error, value_error, Bool-cases, leb,
}
use dbshield.Models.{Users}
use dbshield.Common.Checks.{or_raise}
use dbshield.Privileges.State.{QueryPrivileges, Instance, Ledger, is_valid, valid_rows}

-- `request.POST`; the date and the limit as the columns take them
pub record ModifyRequest : Type 0 where
  pub privilege_id : Option String
  pub type : Option String
  pub valid_date : ℕ
  pub limit_num : ℤ

-- `int(request.POST.get(...))`
abbrev pub int_of : Option String → Result ℤ
int_of none = err type_error
int_of (some s) = or_raise (int s) value_error

abbrev pub has_privilege_id : ℤ → QueryPrivileges → Bool
has_privilege_id (pos n) p = p.privilege_id == n
has_privilege_id (negsuc n) p = false

-- `save(update_fields=...)` of the row with this key
unfoldable pub save_row :
    (QueryPrivileges → QueryPrivileges) → ℤ → List QueryPrivileges → List QueryPrivileges
save_row f id [] = []
save_row f id (p ∷ ps) =
    let rest = save_row f id ps in if has_privilege_id id p then f p ∷ rest else p ∷ rest

abbrev pub deleted : QueryPrivileges → QueryPrivileges
deleted p = record p { is_deleted = true }

abbrev pub changed : ModifyRequest → QueryPrivileges → QueryPrivileges
changed r p = record p { valid_date = r.valid_date; limit_num = r.limit_num }

abbrev save_rows : (QueryPrivileges → QueryPrivileges) → ℤ → Exec Ledger (Unit {0})
save_rows f id = modify (λ l. record l { privileges = save_row f id l.privileges })

abbrev pub is_int : ℕ → ℤ → Bool
is_int n (pos m) = m == n
is_int n (negsuc m) = false

-- the answer: status and message; `none` where the view returns nothing
abbrev pub done : Option (ℕ × String)
done = some (0, "ok")

abbrev pub change : ModifyRequest → ℤ → ℤ → Exec Ledger (Option (ℕ × String))
change r id type =
    if is_int 1 type
    then (save_rows deleted id >> pure done)
    else if is_int 2 type
    then (save_rows (changed r) id >> pure done)
    else pure none

abbrev pub modify_found :
    ModifyRequest → ℤ → Option QueryPrivileges → Exec Ledger (Option (ℕ × String))
modify_found r id none = pure (some (1, "待操作权限不存在"))
modify_found r id (some privilege) = do type ← lift (int_of r.type); change r id type

unfoldable pub query_priv_modify : ModifyRequest → Exec Ledger (Option (ℕ × String))
query_priv_modify r = do
  id ← lift (int_of r.privilege_id)
  privilege ← gets (λ l. find (has_privilege_id id) l.privileges)
  modify_found r id privilege

-- the rows that are valid once one is deleted

last_false : (a b c : Bool) → a && (b && (c && false)) ≡ false
last_false false b c = refl
last_false true false c = refl
last_false true true false = refl
last_false true true true = refl

is_valid-deleted :
    (user : Users) (i now : ℕ) (p : QueryPrivileges) → is_valid user i now (deleted p) ≡ false
unfolding is_valid
is_valid-deleted user i now p =
    last_false (p.user_name == user.username) (p.instance_id == i) (leb now p.valid_date)

keep-save_row :
    (user : Users) (i now : ℕ) (id : ℤ) (ps : List QueryPrivileges)
    → keep (is_valid user i now) (save_row deleted id ps)
      ≡ keep (λ p. not (has_privilege_id id p)) (keep (is_valid user i now) ps)
unfolding save_row
keep-save_row user i now id [] = refl
keep-save_row user i now id (p ∷ ps) = elim (Bool-cases (has_privilege_id id p)) [
  | inl e ↦ elim (Bool-cases (is_valid user i now p)) [
    | inl f ↦ rw (e, is_valid-deleted user i now p, f, e) (keep-save_row user i now id ps)
    | inr f ↦ rw (e, is_valid-deleted user i now p, f) (keep-save_row user i now id ps)
  ]
  | inr e ↦ elim (Bool-cases (is_valid user i now p)) [
    | inl f ↦ rw (e, f, e, keep-save_row user i now id ps) refl
    | inr f ↦ rw (e, f) (keep-save_row user i now id ps)
  ]
]

deleted_row :
    (r : ModifyRequest) (id : ℤ) (found : Option QueryPrivileges) (l : Ledger)
    → int_of r.type ≡ ok (pos 1)
    → (modify_found r id found l).0 ≡ ok done
    → (modify_found r id found l).1.privileges ≡ save_row deleted id l.privileges
deleted_row r id none l t h = cc
deleted_row r id (some p) l t h = rw t refl

-- Where `query_priv_modify` answers with status 0 to a request to take a privilege back (type 1), the
-- valid rows of every user for every instance are those of before without the row of that key, in
-- the same order.
pub query_priv_modify-valid_rows :
    (r : ModifyRequest) (id : ℤ) (l : Ledger) (user : Users) (instance : Instance)
    → int_of r.privilege_id ≡ ok id
    → int_of r.type ≡ ok (pos 1)
    → (query_priv_modify r l).0 ≡ ok done
    → keep (is_valid user instance.id l.now) (query_priv_modify r l).1.privileges
      ≡ keep (λ p. not (has_privilege_id id p)) (valid_rows user instance l)
unfolding query_priv_modify valid_rows
query_priv_modify-valid_rows r id l user instance e t h =
    let found = find (has_privilege_id id) l.privileges in
    rw e (
      ap (keep (is_valid user instance.id l.now)) (deleted_row r id found l t (rw e at h))
      ∙ keep-save_row user instance.id l.now id l.privileges)
