-- ===== src/Masking/Rows.antt =====
-- `data_masking` of sql/utils/data_masking.py.
use dbshield.Common.{
  ℕ, zero, suc, ◌+◌, String, Bool, true, false, not, ◌&&◌, ◌||◌, Option, none, some, List, [], ◌∷◌,
  ◌++◌, ◌==◌, nat_eq, string_eq, find, pos, if◌then◌else◌, Result, ok, err, Exc, index_error,
}
use dbshield.Common.Checks.{◌>>=◌}
use dbshield.Common.Strings.{upper}
use dbshield.Privileges.State.{Instance}
use dbshield.Masking.Regex.{Cell, Groups, MaskingRule, regex}
use dbshield.Masking.Columns.{SelectItem, MaskingColumn, HitColumn, del_repeat, analyze_query_tree}

-- the part of a `ResultSet` that is read or written
pub record SqlResult : Type 0 where
  pub rows : List (List Cell)
  pub column_list : List String
  pub mask_rule_hit : Bool
  pub is_masked : Bool
  pub error : Option String
  pub status : Option ℕ

pub record MaskingRows : Type 0 where
  pub columns : List MaskingColumn
  pub rules : List MaskingRule

-- the rule of the type 100 that is made where there is none
abbrev default_rule : MaskingRule
default_rule = record {
  rule_type = 100;
  rule_regex = "^([\\s\\S]{0,}?)([\\s\\S]{0,}?)([\\s\\S]{0,}?)$";
  hide_group = pos 2;
}

abbrev rule_or_default :
    ℕ → Option MaskingRule → List MaskingRule → Option MaskingRule × List MaskingRule
rule_or_default t (some rule) rules = (some rule, rules)
rule_or_default t none rules =
    if t == 100 then (some default_rule, rules ++ default_rule ∷ []) else (none, rules)

unfoldable pub rule_for : ℕ → List MaskingRule → Option MaskingRule × List MaskingRule
rule_for t rules = rule_or_default t (find (λ r. r.rule_type == t) rules) rules

-- the tokens of sqlparse, as far as they are looked at
pub record Token : Type 0 where
  pub is_keyword : Bool
  pub value : String

unfoldable pub count_unions : List Token → ℕ
count_unions [] = 0
count_unions (t ∷ ts) =
    let rest = count_unions ts in
    let word = upper t.value in
    if t.is_keyword && (word == "UNION" || word == "UNION ALL") then rest + 1 else rest

-- the fields of a Mongo result
unfoldable pub mongo_items : ℕ → String → List String → List SelectItem
mongo_items i db_name [] = []
mongo_items i db_name (field ∷ fields) =
    record {
      index = i;
      field = field;
      type = "varchar";
      table = "*";
      schema = db_name;
      alias = field;
    }
    ∷ mongo_items (suc i) db_name fields

-- what the loops leave: the error that ended them, the rows as far as they came, whether they were
-- assigned to the result, and the rules
pub record Outcome : Type 0 where
  pub failure : Option Exc
  pub rows : List (List Cell)
  pub assigned : Bool
  pub rules : List MaskingRule

module _ (re_search : String → String → Result (Option Groups)) where
  -- `rows[idx][index] = regex(masking_rule, rows[idx][index])`
  unfoldable pub mask_cell : MaskingRule → ℕ → List Cell → Result (List Cell)
  mask_cell rule i [] = err index_error
  mask_cell rule zero (c ∷ cs) = do masked ← regex re_search rule c; ok (masked ∷ cs)
  mask_cell rule (suc i) (c ∷ cs) = do masked ← mask_cell rule i cs; ok (c ∷ masked)

  abbrev pub keep_going :
      Result (List Cell)
      → List Cell
      → List (List Cell)
      → Option Exc × List (List Cell)
      → Option Exc × List (List Cell)
  keep_going (ok masked) row rest (e, masked_rest) = (e, masked ∷ masked_rest)
  keep_going (err c) row rest later = (some c, row ∷ rest)

  -- the loop over the rows ends at the first error
  unfoldable pub mask_rows : MaskingRule → ℕ → List (List Cell) → Option Exc × List (List Cell)
  mask_rows rule i [] = (none, [])
  mask_rows rule i (row ∷ rest) =
      let later = mask_rows rule i rest in keep_going (mask_cell rule i row) row rest later

  -- one column: a list of rows that was assigned to the result is the one that is changed on
  abbrev pub assigned_by : Option Exc × List (List Cell) → Outcome → Outcome
  assigned_by (none, rows) o = record o { rows = rows; assigned = true }
  assigned_by (some c, rows) o = record o { failure = some c; rows = rows }

  abbrev pub masked_by : Option MaskingRule × List MaskingRule → ℕ → Outcome → Outcome
  masked_by (none, rules) i o = record o { rules = rules }
  masked_by (some rule, rules) i o =
      assigned_by (mask_rows rule i o.rows) (record o { rules = rules })

  abbrev pub unless_failed : Option Exc → Outcome → Outcome → Outcome
  unless_failed none later o = later
  unless_failed (some c) later o = o

  unfoldable pub mask_column : HitColumn → Outcome → Outcome
  mask_column h o = unless_failed o.failure (masked_by (rule_for h.rule_type o.rules) h.index o) o

  -- the loop over the columns, which an error ends
  unfoldable pub mask_columns : List HitColumn → Outcome → Outcome
  mask_columns [] o = o
  mask_columns (h ∷ hs) o = mask_columns hs (mask_column h o)

  abbrev pub begun : List (List Cell) → List MaskingRule → Outcome
  begun rows rules = record { failure = none; rows = rows; assigned = false; rules = rules }

  -- `parse` is sqlparse's parser, `query_data_masking` the answer of the goInception server, and
  -- `message` the text of an exception
  module _ (parse : String → Result (List Token))
      (query_data_masking : Instance → String → String → Result (List SelectItem))
      (repeated : List SelectItem → Result (List SelectItem)) (message : Exc → String) where
    unfoldable pub select_list : Instance → String → String → SqlResult → Result (List SelectItem)
    select_list instance db_name sql r = do
      tokens ← parse sql
      items ←
          if instance.db_type == "mongo"
          then ok (mongo_items 0 db_name r.column_list)
          else query_data_masking instance db_name sql
      let unions = count_unions tokens
      if unions == 0 then ok items else del_repeat repeated items unions

    abbrev pub failed : SqlResult → Exc → SqlResult
    failed r c = record r { error = some (message c); status = some 1 }

    abbrev pub ended : SqlResult → Outcome → SqlResult
    ended r o =
        let written = if o.assigned then record r { rows = o.rows } else r in
        elim o.failure [ none ↦ record written { is_masked = true } | some c ↦ failed written c ]

    abbrev pub none_of : {A : Type 0} → List A → Bool
    none_of [] = true
    none_of (x ∷ xs) = false

    abbrev pub mask_hits : List HitColumn → SqlResult → MaskingRows → SqlResult × MaskingRows
    mask_hits hit_columns r db =
        let seen = record r { mask_rule_hit = not (none_of hit_columns) } in
        if none_of hit_columns || none_of r.rows
        then (seen, db)
        else (let o = mask_columns hit_columns (begun r.rows db.rules) in
            (ended seen o, record db { rules = o.rules }))

    abbrev pub with_items :
        Result (List SelectItem) → Instance → SqlResult → MaskingRows → SqlResult × MaskingRows
    with_items (err c) instance r db = (failed r c, db)
    with_items (ok items) instance r db =
        mask_hits (analyze_query_tree items instance db.columns) r db

    unfoldable pub data_masking :
        Instance → String → String → SqlResult → MaskingRows → SqlResult × MaskingRows
    data_masking instance db_name sql r db =
        with_items (select_list instance db_name sql r) instance r db
