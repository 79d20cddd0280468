-- ===== src/SchemaDiff/Indexes.antt =====
-- The indexes and the options of a table in sql/services/schema_diff_service.py.
use dbshield.Common.{
  ℕ, zero, suc, ◌+◌, leb, String, ◌⧺◌, Bool, true, false, not, ◌&&◌, ◌||◌, Option, none, some, List,
  [], ◌∷◌, ◌++◌, map, ◌==◌, string_eq, nat_eq, contains, strip, join, split, if◌then◌else◌,
}
use Prim.Native.Nat.{◌/◌, ◌%◌}
use Prim.Native.String.{char_at}
use dbshield.Common.Strings.{upper}
use dbshield.SchemaDiff.Columns.{
  or_empty, normalize_collation, escape_ident, escape_string, same_option, same_bool,
}

pub record Index : Type 0 where
  pub name : String
  pub unique : Bool
  pub type : Option String
  pub columns : List String

abbrev pub or_text : String → String → String
or_text s default = if s == "" then default else s

abbrev kind_of : Bool → String → String
kind_of unique idx_type =
    if unique
    then "UNIQUE KEY"
    else if idx_type == "FULLTEXT"
    then "FULLTEXT INDEX"
    else if idx_type == "SPATIAL"
    then "SPATIAL INDEX"
    else "INDEX"

abbrev usual : List String
usual = "BTREE" ∷ "FULLTEXT" ∷ "SPATIAL" ∷ []

unfoldable pub index_definition : Index → String
unfolding upper join escape_ident
index_definition idx =
    let cols = join ", " (map escape_ident idx.columns) in
    let idx_type = upper (or_text (or_empty idx.type) "BTREE") in
    let clause = "ADD " ⧺ kind_of idx.unique idx_type ⧺ " " ⧺ escape_ident idx.name in
    let using = if contains usual idx_type then "" else " USING " ⧺ idx_type in
    if idx.name == "PRIMARY"
    then "ADD PRIMARY KEY (" ⧺ cols ⧺ ")"
    else clause ⧺ using ⧺ " (" ⧺ cols ⧺ ")"

unfoldable pub index_drop_clause : Index → String
unfolding escape_ident
index_drop_clause idx =
    if idx.name == "PRIMARY" then "DROP PRIMARY KEY" else "DROP INDEX " ⧺ escape_ident idx.name

abbrev pub same_names : List String → List String → Bool
same_names [] [] = true
same_names [] (y ∷ ys) = false
same_names (x ∷ xs) [] = false
same_names (x ∷ xs) (y ∷ ys) = x == y && same_names xs ys

-- the comparison of two `_index_signature`
unfoldable pub same_index : Index → Index → Bool
unfolding upper
same_index s t =
    same_bool s.unique t.unique
    && (upper (or_empty s.type) == upper (or_empty t.type) && same_names s.columns t.columns)

pub record Options : Type 0 where
  pub engine : Option String
  pub table_collation : Option String
  pub table_comment : Option String
  pub auto_increment : Option ℕ

-- the tuple of one difference: object, what the sides show, and the clauses
pub record OptionDiff : Type 0 where
  pub object : String
  pub source : String
  pub target : String
  pub patch : String
  pub revert : String

abbrev first_or_empty : List String → String
first_or_empty [] = ""
first_or_empty (w ∷ ws) = w

-- `DEFAULT CHARSET=... COLLATE=...`, the text before the first `_` and the whole
unfoldable pub charset_option : String → String
unfolding split
charset_option coll =
    if coll == ""
    then ""
    else "DEFAULT CHARSET=" ⧺ first_or_empty (split 95 coll) ⧺ " COLLATE=" ⧺ coll

unfoldable pub engine_diff : Options → Options → List OptionDiff
unfolding strip upper
engine_diff src_opt dst_opt =
    let src_engine = strip (or_empty src_opt.engine) in
    let dst_engine = strip (or_empty dst_opt.engine) in
    if upper src_engine == upper dst_engine
    then []
    else record {
      object = "ENGINE";
      source = or_text src_engine "-";
      target = or_text dst_engine "-";
      patch = "ENGINE=" ⧺ src_engine;
      revert = "ENGINE=" ⧺ dst_engine;
    }
      ∷ []

unfoldable pub collation_diff : Options → Options → List OptionDiff
unfolding normalize_collation charset_option
collation_diff src_opt dst_opt =
    let src_coll = normalize_collation src_opt.table_collation in
    let dst_coll = normalize_collation dst_opt.table_collation in
    if same_option src_coll dst_coll
    then []
    else record {
      object = "字符集";
      source = or_text (or_empty src_coll) "-";
      target = or_text (or_empty dst_coll) "-";
      patch = charset_option (or_empty src_coll);
      revert = charset_option (or_empty dst_coll);
    }
      ∷ []

unfoldable pub comment_diff : Options → Options → List OptionDiff
unfolding escape_string
comment_diff src_opt dst_opt =
    let src_comment = or_empty src_opt.table_comment in
    let dst_comment = or_empty dst_opt.table_comment in
    if src_comment == dst_comment
    then []
    else record {
      object = "表注释";
      source = or_text src_comment "-";
      target = or_text dst_comment "-";
      patch = "COMMENT=" ⧺ escape_string src_comment;
      revert = "COMMENT=" ⧺ escape_string dst_comment;
    }
      ∷ []

-- `str(number)`; the fuel of `n + 1` digits is enough, each round divides by ten
decimal_from : ℕ → ℕ → String → String
decimal_from zero n text = text
decimal_from (suc fuel) n text =
    let longer = String.◌∷◌ (char_at "0123456789" (n % 10)) text in
    let rest = decimal_from fuel (n / 10) longer in if leb n 9 then longer else rest

unfoldable pub decimal : ℕ → String
unfolding decimal_from
decimal n = decimal_from (n + 1) n ""

abbrev pub shown : Option ℕ → String
shown none = "None"
shown (some n) = decimal n

abbrev pub same_number : Option ℕ → Option ℕ → Bool
same_number none none = true
same_number none (some n) = false
same_number (some m) none = false
same_number (some m) (some n) = m == n

abbrev is_some_number : Option ℕ → Bool
is_some_number none = false
is_some_number (some n) = not (n == 0)

unfoldable pub auto_increment_diff : Options → Options → List OptionDiff
unfolding decimal
auto_increment_diff src_opt dst_opt =
    let src_auto = src_opt.auto_increment in
    let dst_auto = dst_opt.auto_increment in
    if same_number src_auto dst_auto || not (is_some_number src_auto)
    then []
    else record {
      object = "AUTO_INCREMENT";
      source = shown src_auto;
      target = shown dst_auto;
      patch = "AUTO_INCREMENT=" ⧺ shown src_auto;
      revert = "AUTO_INCREMENT=" ⧺ shown dst_auto;
    }
      ∷ []

unfoldable pub table_option_diffs : Options → Options → Bool → Bool → List OptionDiff
unfolding engine_diff collation_diff comment_diff auto_increment_diff
table_option_diffs src_opt dst_opt sync_auto_inc sync_comments =
    engine_diff src_opt dst_opt
    ++ collation_diff src_opt dst_opt
    ++ (if sync_comments then comment_diff src_opt dst_opt else [])
    ++ (if sync_auto_inc then auto_increment_diff src_opt dst_opt else [])
