-- ===== src/Masking/Columns.antt =====
-- `del_repeat` and `analyze_query_tree` of sql/utils/data_masking.py: the columns that a rule hits.
use dbshield.Common.{
  ℕ, ◌+◌, ◌-◌, ◌/◌, String, ◌⧺◌, Bool, ◌&&◌, Option, none, some, List, [], ◌∷◌, ◌==◌, nat_eq,
  string_eq, length, keep, if◌then◌else◌, Result, ok,
}
use dbshield.Common.Checks.{◌>>=◌}
use dbshield.Common.Strings.{lower}
use dbshield.Privileges.State.{Instance}

-- an item of the list of what a query selects
pub record SelectItem : Type 0 where
  pub index : ℕ
  pub field : String
  pub type : String
  pub table : String
  pub schema : String
  pub alias : String

pub record MaskingColumn : Type 0 where
  pub rule_type : ℕ
  pub active : Bool
  pub instance_id : ℕ
  pub table_schema : String
  pub table_name : String
  pub column_name : String

pub record HitColumn : Type 0 where
  pub instance_name : String
  pub table_schema : String
  pub table_name : String
  pub column_name : String
  pub rule_type : ℕ
  pub index : ℕ

-- the first `n` of a list
unfoldable pub first_items : ℕ → List SelectItem → List SelectItem
first_items n [] = []
first_items n (x ∷ xs) = let rest = first_items (n - 1) xs in if n == 0 then [] else x ∷ rest

-- `repeated items` is pandas' `df.groupby(["field"]).filter(lambda g: len(g) > 1).to_dict("records")`
unfoldable pub del_repeat :
    (List SelectItem → Result (List SelectItem)) → List SelectItem → ℕ → Result (List SelectItem)
del_repeat repeated select_list unions = do
  result_index ← repeated select_list
  ok (first_items (length result_index / (unions + 1)) result_index)

-- the keys of the dictionary
abbrev column_key : String → String → String → String → String
column_key instance schema name field = instance ⧺ "-" ⧺ schema ⧺ "-" ⧺ name ⧺ "-" ⧺ field

-- a later row with the key replaces an earlier one
unfoldable pub last_of : String → String → List MaskingColumn → Option MaskingColumn
last_of instance key [] = none
last_of instance key (c ∷ cs) = elim (last_of instance key cs) [
  | some d ↦ some d
  | none ↦
      if column_key instance c.table_schema c.table_name (lower c.column_name) == key
      then some c
      else none
]

abbrev or_else : Option MaskingColumn → Option MaskingColumn → Option MaskingColumn
or_else none other = other
or_else (some c) other = some c

unfoldable pub masking_column : String → List MaskingColumn → SelectItem → Option MaskingColumn
masking_column instance columns item =
    let field = lower item.field in
    or_else (last_of instance (column_key instance item.schema item.table field) columns)
      (last_of instance (column_key instance "*" "*" field) columns)

abbrev hit : String → SelectItem → MaskingColumn → HitColumn
hit instance item c = record {
  instance_name = instance;
  table_schema = item.schema;
  table_name = item.table;
  column_name = lower item.field;
  rule_type = c.rule_type;
  index = item.index;
}

abbrev with_hit : String → SelectItem → Option MaskingColumn → List HitColumn → List HitColumn
with_hit instance item none rest = rest
with_hit instance item (some c) rest = hit instance item c ∷ rest

unfoldable pub hits : String → List MaskingColumn → List SelectItem → List HitColumn
hits instance columns [] = []
hits instance columns (item ∷ items) =
    with_hit instance item (masking_column instance columns item) (hits instance columns items)

-- the columns of the instance that are active
unfoldable pub analyze_query_tree : List SelectItem → Instance → List MaskingColumn → List HitColumn
analyze_query_tree select_list instance columns =
    hits instance.instance_name (keep (λ c. c.instance_id == instance.id && c.active) columns)
      select_list
