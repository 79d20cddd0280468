-- ===== src/Login/State.antt =====
-- The rows that common/auth.py reads and writes, and `init_user`.
use dbshield.Common.{
  ℕ, String, Bool, Option, none, some, List, [], ◌∷◌, ◌++◌, ◌==◌, nat_eq, string_eq, find, contains,
  min, split_comma, if◌then◌else◌, Exec, Result, ok, err, pure, reads, modify, ◌>>=◌, ◌>>◌,
  attribute_error,
}
use dbshield.Config
use dbshield.Config.{Value, null, bool, str, num, truthy, SysConfig}
use dbshield.Models.{Group, ResourceGroup}

-- the columns of `Users` that a login looks at; times are microseconds
pub record Account : Type 0 where
  pub username : String
  pub failed_login_count : ℕ
  pub last_login_failed_at : Option ℕ
  pub last_login : Option ℕ
  pub groups : List ℕ
  pub resource_group : List ℕ

pub record Logins : Type 0 where
  pub accounts : List Account
  pub auth_groups : List Group
  pub resource_groups : List ResourceGroup
  pub settings : SysConfig
  pub now : ℕ

abbrev pub named : String → Account → Bool
named name a = a.username == name

-- the row with the name of this one is replaced, or the row is new
unfoldable pub put_account : Account → List Account → List Account
put_account a [] = a ∷ []
put_account a (b ∷ bs) =
    let rest = put_account a bs in if named a.username b then a ∷ bs else b ∷ rest

-- `Users.save`: the count is at most 127
abbrev pub clamped : Account → Account
clamped a = record a { failed_login_count = min 127 a.failed_login_count }

unfoldable pub save : Account → Exec Logins (Unit {0})
save a s = pure tt (record s { accounts = put_account (clamped a) s.accounts })

-- `user.groups.add(group)` for the groups with one of the names
unfoldable pub add_missing : ℕ → List ℕ → List ℕ
add_missing n ns = if contains ns n then ns else ns ++ n ∷ []

unfoldable pub add_groups : List String → List Group → List ℕ → List ℕ
unfolding add_missing
add_groups names [] ns = ns
add_groups names (g ∷ gs) ns =
    add_groups names gs (if contains names g.name then add_missing g.id ns else ns)

unfoldable pub add_resource_groups : List String → List ResourceGroup → List ℕ → List ℕ
unfolding add_missing
add_resource_groups names [] ns = ns
add_resource_groups names (g ∷ gs) ns =
    add_resource_groups names gs
      (if contains names g.group_name then add_missing g.group_id ns else ns)

-- `value.split(",")` where the value is true
abbrev names_of : Value → Result (List String)
names_of null = ok []
names_of (bool b) = if b then err attribute_error else ok []
names_of (str s) = if s == "" then ok [] else ok (split_comma s)
names_of (num n) = if n == 0 then ok [] else err attribute_error

abbrev names_set : String → Logins → Result (List String)
names_set key s = names_of (Config.get key (str "") s.settings).0

-- the relations are rows of their own, so they are put into the row as it is
abbrev with_relations : (Account → Account) → String → List Account → List Account
with_relations f name accounts = elim (find (named name) accounts) [
  | some a ↦ put_account (f a) accounts
  | none ↦ accounts
]

unfoldable pub init_user : String → Exec Logins (Unit {0})
init_user name = do
  default_auth_group ← reads (names_set "default_auth_group")
  modify (λ s. record s {
    accounts =
        with_relations
          (λ a. record a { groups = add_groups default_auth_group s.auth_groups a.groups }) name
          s.accounts;
  })
  default_resource_group ← reads (names_set "default_resource_group")
  modify (λ s. record s {
    accounts =
        with_relations
          (λ a. record a {
            resource_group =
                add_resource_groups default_resource_group s.resource_groups a.resource_group;
          })
          name s.accounts;
  })
