-- ===== src/Masking/Tests.antt =====
-- Concrete rules and results for the theorems on sql/utils/data_masking.py.
use dbshield.Common.{
  ◌/◌, ◌*◌, ◌≤◌, String, ◌⧺◌, true, false, ◌≡◌, refl, Option, none, List, [], ◌∷◌, ◌==◌, nat_eq,
  any, pos, Result, ok, Exc,
}
use dbshield.Common.Strings.{lower, upper}
use dbshield.Privileges.State.{Instance}
use dbshield.Masking.Regex.{
  null, str, other, Groups, MaskingRule, length, take, drop, stars, lazy_parts, thirds, masked,
  masked_from, regex, ends_with_break,
}
use dbshield.Masking.Columns.{
  SelectItem, MaskingColumn, hits, last_of, masking_column, analyze_query_tree,
}
use dbshield.Masking.Rows.{
  SqlResult, MaskingRows, Token, count_unions, rule_for, mask_cell, mask_rows, mask_column,
  mask_columns, select_list, data_masking,
}
use dbshield.Masking.Thirds.{regex-thirds}
use dbshield.Masking.Untouched.{column, hits_of, data_masking-column}

abbrev rule : MaskingRule
rule = record {
  rule_type = 100;
  rule_regex = "^([\\s\\S]{0,}?)([\\s\\S]{0,}?)([\\s\\S]{0,}?)$";
  hide_group = pos 2;
}

-- the search of the expression that the rule is made with
abbrev re_search : String → String → Result (Option Groups)
re_search expression s = ok (lazy_parts 0 0 0 s)

regex-thirds_example :
    (x : String) × (y : String) × (z : String) × ("13800138000" ≡ x ⧺ (y ⧺ z))
    × (regex re_search rule (str "13800138000") ≡ ok (str (x ⧺ (stars y ⧺ z))))
    × (length (x ⧺ (stars y ⧺ z)) ≡ length "13800138000")
    × (length x ≡ length "13800138000" / 3)
    × (length "13800138000" ≤ 3 * length y)
regex-thirds_example = regex-thirds re_search rule "13800138000" refl refl

text_hidden : regex re_search rule (str "13800138000") ≡ ok (str "138****8000")
unfolding regex thirds lazy_parts masked masked_from length take drop stars ends_with_break
text_hidden = refl

-- a number has all of itself in the third group
number_shown : regex re_search rule (other true "13800138000") ≡ ok (str "13800138000")
unfolding regex lazy_parts masked masked_from length take drop stars ends_with_break
number_shown = refl

abbrev shop : Instance
shop = record {
  id = 4;
  instance_name = "shop";
  type = "master";
  db_type = "mysql";
  resource_group = 1 ∷ [];
  instance_tag = [];
}

abbrev parse : String → Result (List Token)
parse sql = ok (record { is_keyword = false; value = "select" } ∷ [])

abbrev query_data_masking : Instance → String → String → Result (List SelectItem)
query_data_masking instance db_name sql = ok (
    record { index = 0; field = "id"; type = "int"; table = "users"; schema = "app"; alias = "id" }
    ∷ record {
      index = 1;
      field = "Phone";
      type = "varchar";
      table = "users";
      schema = "app";
      alias = "p";
    }
    ∷ [])

abbrev message : Exc → String
message c = "error"

abbrev found : SqlResult
found = record {
  rows = (other true "7" ∷ str "13800138000" ∷ []) ∷ (other true "8" ∷ null ∷ []) ∷ [];
  column_list = "id" ∷ "p" ∷ [];
  mask_rule_hit = false;
  is_masked = false;
  error = none;
  status = none;
}

abbrev phones : MaskingColumn
phones = record {
  rule_type = 100;
  active = true;
  instance_id = 4;
  table_schema = "*";
  table_name = "*";
  column_name = "phone";
}

abbrev no_rules : MaskingRows
no_rules = record { columns = phones ∷ []; rules = [] }

abbrev masked_result : SqlResult
masked_result =
    (data_masking re_search parse query_data_masking ok message shop "app" "select * from users"
      found no_rules).0

phone_hidden :
    masked_result.rows
    ≡ (other true "7" ∷ str "138****8000" ∷ []) ∷ (other true "8" ∷ null ∷ []) ∷ []
unfolding data_masking select_list count_unions analyze_query_tree hits masking_column last_of lower
    upper mask_columns mask_column rule_for mask_rows mask_cell regex masked thirds lazy_parts
    length drop ends_with_break masked_from stars take
phone_hidden = refl

id_missed :
    any
      (λ h. h.index == 0)
      (hits_of re_search parse query_data_masking ok message
        (select_list re_search parse query_data_masking ok message shop "app" "select * from users"
          found)
        shop
        no_rules)
    ≡ false
unfolding select_list count_unions upper analyze_query_tree hits masking_column last_of lower
id_missed = refl

data_masking-column_example : column 0 masked_result.rows ≡ column 0 found.rows
data_masking-column_example =
    data_masking-column re_search parse query_data_masking ok message shop "app"
      "select * from users" found no_rules 0 id_missed
