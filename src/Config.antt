-- ===== src/Config.antt =====
-- common/config.py: `SysConfig`, the settings that an administrator edits. A value read from the
-- table is kept in the object's dictionary.
pub mod Reads
pub mod Writes
pub mod Tests
use dbshield.Common.{
  ℕ, String, Bool, true, false, not, ◌&&◌, ◌||◌, Option, none, some, List, [], ◌∷◌, ◌==◌, nat_eq,
  string_eq, if◌then◌else◌, strip, lower_eq, lookup, insert, contains,
}

-- a value of a setting: `None`, a `bool`, a `str` or an `int`
pub data Value : Type 0 where
  null : Value
  bool : Bool → Value
  str : String → Value
  num : ℕ → Value

pub record SysConfig : Type 0 where
  pub sys_config : List (String × Value)
  -- the rows of `Config`: item and value; `item` is unique
  pub rows : List (String × String)

-- `if value:`
abbrev pub truthy : Value → Bool
truthy null = false
truthy (bool b) = b
truthy (str s) = not (s == "")
truthy (num n) = not (n == 0)

unfoldable pub filter_bool : String → Value
unfolding lower_eq
filter_bool value =
    if lower_eq value "true"
    then bool true
    else if lower_eq value "false"
    then bool false
    else str value

abbrev or_null : Option Value → Value
or_null none = null
or_null (some v) = v

abbrev from_row : Option String → Value → Value
from_row none v = v
from_row (some text) v = filter_bool text

-- the last lines of `get`: the cleaned value, the default, and what is kept
abbrev settle : Value → Value → String → SysConfig → Value × SysConfig
settle null default key s = (default, s)
settle (str text) default key s =
    if strip text == ""
    then (default, s)
    else (str text, record s { sys_config = insert key (str text) s.sys_config })
settle (bool b) default key s = (bool b, record s { sys_config = insert key (bool b) s.sys_config })
settle (num n) default key s = (num n, record s { sys_config = insert key (num n) s.sys_config })

unfoldable pub get : String → Value → SysConfig → Value × SysConfig
unfolding filter_bool strip
get key default s =
    let value = or_null (lookup key s.sys_config) in
    if truthy value then (value, s) else settle (from_row (lookup key s.rows) value) default key s

abbrev db_value : Value → String → String
db_value (bool true) text = "true"
db_value (bool false) text = "false"
db_value (str s) text = s
db_value v text = text

-- `set`; the text under which the table keeps an `int` or a `None` is given by the caller
unfoldable pub set : String → Value → String → SysConfig → SysConfig
set key value text s = record {
  sys_config = insert key value s.sys_config;
  rows = insert key (db_value value text) s.rows;
}

-- The errors of a malformed text and of a value longer than its column, which answer with status 1, are
-- left.
-- `replace`: the rows of the submitted keys are deleted and made anew, the others stay, and
-- `get_all_config` then reloads the dictionary from the table
abbrev pub loaded : String → Value
loaded text =
    if text == "true" || text == "True"
    then bool true
    else if text == "false" || text == "False"
    then bool false
    else str text

unfoldable pub get_all_config : List (String × String) → List (String × Value)
get_all_config [] = []
get_all_config ((item, value) ∷ rows) = (item, loaded value) ∷ get_all_config rows

unfoldable pub has_key : String → List (String × String) → Bool
has_key k [] = false
has_key k ((j, v) ∷ m) = j == k || has_key k m

abbrev pub stripped : List (String × String) → List (String × String)
stripped [] = []
stripped ((k, v) ∷ m) = (strip k, strip v) ∷ stripped m

unfoldable pub without : List (String × String) → List (String × String) → List (String × String)
unfolding has_key
without keys [] = []
without keys ((k, v) ∷ m) =
    let rest = without keys m in if has_key k keys then rest else (k, v) ∷ rest

abbrev pub append : List (String × String) → List (String × String) → List (String × String)
append [] ys = ys
append (x ∷ xs) ys = x ∷ append xs ys

-- `item` is unique: `bulk_create` refuses two rows of one item
unfoldable pub no_repeats : List (String × String) → Bool
unfolding has_key
no_repeats [] = true
no_repeats ((k, v) ∷ m) = not (has_key k m) && no_repeats m

abbrev pub reloaded : List (String × String) → SysConfig
reloaded rows = record { sys_config = get_all_config rows; rows = rows }

-- the status of the answer, and what is left
unfoldable pub replace : List (String × String) → SysConfig → ℕ × SysConfig
unfolding without get_all_config strip no_repeats
replace items s =
    let objs = stripped items in
    if no_repeats objs
    then (0, reloaded (append (without objs s.rows) objs))
    else (1, reloaded s.rows)

-- all settings go
unfoldable pub purge : SysConfig → SysConfig
purge s = record { sys_config = []; rows = [] }

-- the provider where it is an external one
abbrev external : Value → Option String
external (str s) = if contains ("ldap" ∷ "oidc" ∷ "dingding" ∷ "cas" ∷ []) s then some s else none
external v = none

unfoldable pub get_auth_provider : SysConfig → Option String × SysConfig
get_auth_provider s = let (provider, t) = get "auth_provider" null s in (external provider, t)
