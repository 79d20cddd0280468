-- ===== src/Privileges/State.antt =====
-- The rows that sql/query_privileges.py and sql/utils/resource_group.py read.
use dbshield.Common.{
  ℕ, String, Bool, true, not, ◌&&◌, ◌||◌, Option, none, some, List, [], ◌∷◌, ◌==◌, nat_eq,
  string_eq, leb, any, contains, keep, ℤ,
}
use dbshield.Config.{SysConfig}
use dbshield.Models.{Users, ResourceGroup, QueryPrivilegesApply}

-- sql/models.py, `QueryPrivileges` (dates are numbers)
pub record QueryPrivileges : Type 0 where
  pub privilege_id : ℕ
  pub user_name : String
  pub user_display : String
  pub instance_id : ℕ
  pub db_name : String
  pub table_name : String
  pub valid_date : ℕ
  pub limit_num : ℤ
  pub priv_type : ℕ
  pub is_deleted : Bool

-- sql/models.py, `Instance`; a tag is its code and whether it is active
pub record Instance : Type 0 where
  pub id : ℕ
  pub instance_name : String
  pub type : String
  pub db_type : String
  pub resource_group : List ℕ
  pub instance_tag : List (String × Bool)

-- `privileges` stands in the order of its keys
pub record Ledger : Type 0 where
  pub privileges : List QueryPrivileges
  pub applies : List QueryPrivilegesApply
  pub instances : List Instance
  pub resource_groups : List ResourceGroup
  pub settings : SysConfig
  pub now : ℕ
  pub next_id : ℕ

-- the resource groups of the user, not deleted, that the instance is in
abbrev in_own_group : Users → Instance → ResourceGroup → Bool
in_own_group user i g =
    not g.is_deleted
    && (contains user.resource_group g.group_id && contains i.resource_group g.group_id)

unfoldable pub is_related : Users → Ledger → Instance → Bool
is_related user l i =
    user.has_perm "sql.query_all_instances" || any (in_own_group user i) l.resource_groups

-- the filters; an argument that is empty or missing filters nothing
abbrev of_type : Option String → Instance → Bool
of_type none i = true
of_type (some t) i = t == "" || i.type == t

abbrev of_db_type : List String → Instance → Bool
of_db_type [] i = true
of_db_type (t ∷ ts) i = contains (t ∷ ts) i.db_type

abbrev has_tag : String → List (String × Bool) → Bool
has_tag code tags = any (λ (t : String × Bool). t.0 == code && t.1) tags

unfoldable pub has_tags : List String → Instance → Bool
has_tags [] i = true
has_tags (code ∷ codes) i = has_tag code i.instance_tag && has_tags codes i

unfoldable pub user_instances :
    Users → Option String → List String → List String → Ledger → List Instance
user_instances user type db_type tag_codes l =
    keep
      (λ i.
        is_related user l i && (of_type type i && (of_db_type db_type i && has_tags tag_codes i)))
      l.instances

-- the filter of `_load_user_priv_rows`
unfoldable pub is_valid : Users → ℕ → ℕ → QueryPrivileges → Bool
is_valid user instance_id now p =
    p.user_name == user.username
    && (p.instance_id == instance_id && (leb now p.valid_date && not p.is_deleted))

unfoldable pub valid_rows : Users → Instance → Ledger → List QueryPrivileges
valid_rows user instance l = keep (is_valid user instance.id l.now) l.privileges

-- the columns of `QueryPrivileges`, and the name `pk` for its key
abbrev pub columns : List String
columns =
    "pk" ∷ "privilege_id" ∷ "user_name" ∷ "user_display" ∷ "instance" ∷ "instance_id" ∷ "db_name"
    ∷ "table_name" ∷ "valid_date" ∷ "limit_num" ∷ "priv_type" ∷ "is_deleted" ∷ "create_time"
    ∷ "sys_time" ∷ []
