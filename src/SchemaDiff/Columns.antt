-- ===== src/SchemaDiff/Columns.antt =====
-- The columns in sql/services/schema_diff_service.py: their definitions, what they are compared by and
-- their places.
use dbshield.Common.{
  ℕ, String, code, ◌⧺◌, Bool, true, false, not, ◌&&◌, ◌||◌, Option, none, some, List, [], ◌∷◌, ◌++◌,
  ◌==◌, string_eq, nat_eq, any, contains, strip, join, if◌then◌else◌,
}
use dbshield.Common.Strings.{lower, upper, starts_with, has_text, after_lower, replace_text}
use dbshield.SchemaDiff.Floats.{is_float}

-- a column of `information_schema`; what is `None` there is `none`
pub record Column : Type 0 where
  pub column_name : String
  pub column_type : String
  pub is_nullable : Option String
  pub column_default : Option String
  pub extra : Option String
  pub character_set_name : Option String
  pub collation_name : Option String
  pub column_comment : Option String

-- `value or ""`
abbrev pub or_empty : Option String → String
or_empty none = ""
or_empty (some s) = s

unfoldable pub normalize_collation : Option String → Option String
normalize_collation none = none
normalize_collation (some name) = some (replace_text "utf8mb3_" "utf8_" name)

-- `text.replace(q, q + q)` for one character
unfoldable pub doubled : ℕ → String → String
doubled q String.[] = String.[]
doubled q (String.◌∷◌ c s) =
    let rest = String.◌∷◌ c (doubled q s) in if code c == q then String.◌∷◌ c rest else rest

abbrev pub tick : ℕ
tick = 96

abbrev pub quote : ℕ
quote = 39

unfoldable pub escape_ident : String → String
unfolding doubled
escape_ident name = "`" ⧺ (doubled tick name ⧺ "`")

unfoldable pub escape_string : String → String
unfolding doubled
escape_string value = "'" ⧺ (doubled quote value ⧺ "'")

unfoldable pub on_update_text : Column → String
unfolding strip lower has_text after_lower upper
on_update_text col =
    let extra = strip (or_empty col.extra) in
    if has_text "on update" (lower extra) then upper (strip (after_lower "on update" extra)) else ""

abbrev pub is_time : String → Bool
is_time col_type = starts_with "timestamp" col_type || starts_with "datetime" col_type

abbrev pub now_names : List String
now_names = "CURRENT_TIMESTAMP" ∷ "CURRENT_TIMESTAMP()" ∷ "NOW()" ∷ []

unfoldable pub normalized_default : Column → Option String
unfolding upper lower starts_with
normalized_default col = elim col.column_default [
  | none ↦ none
  | some text ↦
      if upper text == "NULL"
      then none
      else if is_time (lower col.column_type) && contains now_names (upper text)
      then some "CURRENT_TIMESTAMP"
      else some text
]

abbrev pub numeric_types : List String
numeric_types =
    "tinyint" ∷ "smallint" ∷ "mediumint" ∷ "int" ∷ "integer" ∷ "bigint" ∷ "decimal" ∷ "numeric"
    ∷ "float" ∷ "double" ∷ "real" ∷ "year" ∷ "bit" ∷ []

abbrev pub is_numeric : String → Bool
is_numeric col_type = any (λ t. starts_with t col_type) numeric_types

abbrev pub clause_of : Option String → Bool → String
clause_of none numeric = ""
clause_of (some default) numeric =
    if starts_with "b'" default || (numeric && is_float default)
    then "DEFAULT " ⧺ default
    else "DEFAULT " ⧺ escape_string default

unfoldable pub default_clause : Column → String
unfolding normalized_default escape_string lower starts_with is_float
default_clause col = clause_of (normalized_default col) (is_numeric (lower col.column_type))

-- a text that is there and not empty
abbrev pub is_set : Option String → Bool
is_set s = not (or_empty s == "")

unfoldable pub charset_clause : Column → Option String → String
unfolding normalize_collation
charset_clause col table_collation =
    let col_coll = normalize_collation col.collation_name in
    let tbl_coll = normalize_collation table_collation in
    if not (is_set col.character_set_name)
    then ""
    else if not (is_set col_coll)
        || (not (is_set tbl_coll) || or_empty col_coll == or_empty tbl_coll)
    then ""
    else "CHARACTER SET "
      ⧺ or_empty col.character_set_name
      ⧺ " COLLATE "
      ⧺ or_empty col.collation_name

-- `if text: parts.append(...)`
abbrev pub unless_empty : Bool → String → List String
unless_empty b part = if b then part ∷ [] else []

abbrev pub auto_increment : Column → Bool
auto_increment col = has_text "auto_increment" (lower (or_empty col.extra))

unfoldable pub column_definition : Column → Option String → String
unfolding escape_ident default_clause lower strip has_text on_update_text charset_clause
    escape_string join
column_definition col table_collation =
    let default = default_clause col in
    let on_update = on_update_text col in
    let charset = charset_clause col table_collation in
    join " " (
      escape_ident col.column_name
        ∷ col.column_type
        ∷ (if or_empty col.is_nullable == "NO" then "NOT NULL" else "NULL")
        ∷ unless_empty (not (default == "")) default
      ++ unless_empty (has_text "auto_increment" (lower (strip (or_empty col.extra))))
          "AUTO_INCREMENT"
      ++ unless_empty (not (on_update == "")) ("ON UPDATE " ⧺ on_update)
      ++ unless_empty (not (charset == "")) charset
      ++ unless_empty (is_set col.column_comment)
          ("COMMENT " ⧺ escape_string (or_empty col.column_comment)))

-- the tuple of `_column_signature`
pub record Signature : Type 0 where
  pub type : String
  pub nullable : Option String
  pub default : Option String
  pub is_auto : Bool
  pub on_update : String
  pub collation : Option String
  pub comment : String

unfoldable pub column_signature : Column → Bool → Signature
unfolding lower strip normalized_default has_text on_update_text normalize_collation
column_signature col sync_comments = record {
  type = lower (strip col.column_type);
  nullable = col.is_nullable;
  default = normalized_default col;
  is_auto = auto_increment col;
  on_update = on_update_text col;
  collation = normalize_collation col.collation_name;
  comment = if sync_comments then or_empty col.column_comment else "";
}

abbrev pub same_option : Option String → Option String → Bool
same_option none none = true
same_option none (some t) = false
same_option (some s) none = false
same_option (some s) (some t) = s == t

abbrev pub same_bool : Bool → Bool → Bool
same_bool true b = b
same_bool false b = not b

-- `sig[:6] == other[:6]`, without the comment, and the whole
abbrev pub same_but_comment : Signature → Signature → Bool
same_but_comment s t =
    s.type == t.type
    && (same_option s.nullable t.nullable
        && (same_option s.default t.default
            && (same_bool s.is_auto t.is_auto
                && (s.on_update == t.on_update && same_option s.collation t.collation))))

abbrev pub same_signature : Signature → Signature → Bool
same_signature s t = same_but_comment s t && s.comment == t.comment

-- the name before one that is in the order; `none` for the first
abbrev found_before : Option String → List String → String → Option String
found_before prev [] x = none
found_before prev (y ∷ ys) x = if y == x then prev else found_before (some y) ys x

unfoldable pub position_clause : List String → String → List String → List String → String
unfolding escape_ident
position_clause order name other_names pending = elim (found_before none order name) [
  | none ↦ " FIRST"
  | some prev ↦
      if contains other_names prev || contains pending prev
      then " AFTER " ⧺ escape_ident prev
      else ""
]
