-- ===== src/Audit/Review.antt =====
-- `is_auto_reject` and `is_auto_review` of `AuditV2`: what the system decides by itself.
use dbshield.Common.{
  ℕ, ◌+◌, String, Bool, true, false, not, ◌&&◌, ◌||◌, Option, none, some, List, [], ◌∷◌, ◌==◌,
  nat_eq, string_eq, ltb, contains, any, split_comma, code, if◌then◌else◌, Result, ok, err,
  json_decode_error, value_error, type_error, attribute_error, int, ℤ, pos, negsuc,
}
use dbshield.Config.{Value, null, bool, str, num, truthy}
use dbshield.Const.{sql_review, type_eq}
use dbshield.Models.{Workflow, sql_workflow, SqlWorkflow, ReviewResult}
use dbshield.SqlText.Comments.{mysql, remove_comments}
use dbshield.Audit.State.{AuditV2, config}

abbrev rows_or_empty : Option (List ReviewResult) → List ReviewResult
rows_or_empty none = []
rows_or_empty (some rows) = rows

-- how many statements have an error level
unfoldable pub count_level : ℕ → List ReviewResult → ℕ
count_level level [] = 0
count_level level (r ∷ rs) =
    let rest = count_level level rs in if r.errlevel == level then rest + 1 else rest

abbrev is_one_of : Value → List String → Bool
is_one_of (str s) texts = contains texts s
is_one_of _ texts = false

unfoldable pub rejects : Value → List ReviewResult → Bool
rejects auto_review_wrong rows =
    (ltb 0 (count_level 1 rows) && is_one_of auto_review_wrong ("1" ∷ []))
    || (ltb 0 (count_level 2 rows) && is_one_of auto_review_wrong ("" ∷ "1" ∷ "2" ∷ []))

abbrev rejects_workflow : Value → Workflow → Bool
rejects_workflow v (sql_workflow w) = rejects v (rows_or_empty w.review_content)
rejects_workflow v _ = false

unfoldable pub is_auto_reject : AuditV2 → Bool
is_auto_reject self =
    if self.workflow_type == sql_review
    then rejects_workflow (config self "auto_review_wrong" (str "")) self.workflow
    else false

-- `value.split(",")`; a `bool` has no `split`
abbrev tags : Value → Result (List String)
tags (str s) = ok (split_comma s)
tags _ = err attribute_error

-- `int(value)`
abbrev from_int : Option ℤ → Result ℤ
from_int none = err value_error
from_int (some z) = ok z

unfoldable pub to_int : Value → Result ℤ
to_int null = err type_error
to_int (bool true) = ok (pos 1)
to_int (bool false) = ok (pos 0)
to_int (str s) = from_int (int s)
to_int (num n) = ok (pos n)

-- `n > limit`
abbrev exceeds : ℕ → ℤ → Bool
exceeds n (pos m) = ltb m n
exceeds n (negsuc m) = true

-- `sql.replace("\n", "").replace("\r", "")`
unfoldable pub drop_breaks : String → String
drop_breaks String.[] = String.[]
drop_breaks (String.◌∷◌ c s) =
    let rest = drop_breaks s in if code c == 10 || code c == 13 then rest else String.◌∷◌ c rest

abbrev pub default_regex : String
default_regex = "^alter|^create|^drop|^truncate|^rename|^delete|^del|^flushdb|^flushall|^lpop|^rpop"

-- `re_match regex sql` is Python's `re.compile(regex, re.I).match(sql)` on the administrator's
-- expression
module _ (re_match : Value → String → Bool) where
  -- the loop over the statements: `none` when one needs a person, else the sum of the rows
  unfoldable pub affected : Value → ℕ → List ReviewResult → Option ℕ
  affected regex total [] = some total
  affected regex total (r ∷ rs) =
      let rest = affected regex (total + r.affected_rows) rs in
      if re_match regex (drop_breaks (remove_comments mysql r.sql)) then none else rest

  abbrev within : Option ℕ → Result ℤ → Result Bool
  within none limit = ok false
  within (some total) (ok limit) = ok (not (exceeds total limit))
  within (some total) (err e) = err e

  abbrev review_rows : AuditV2 → Option (List ReviewResult) → Result Bool
  review_rows self none = err json_decode_error
  review_rows self (some rows) =
      within (affected (config self "auto_review_regex" (str default_regex)) 0 rows)
        (to_int (config self "auto_review_max_update_rows" (num 50)))

  abbrev review_tagged :
      AuditV2 → SqlWorkflow → Result (List String) → Result (List String) → Result Bool
  review_tagged self w (err e) _ = err e
  review_tagged self w (ok auto_review_tags) (err e) = err e
  review_tagged self w (ok auto_review_tags) (ok auto_review_db_type) =
      if not (contains auto_review_db_type w.db_type)
      then ok false
      else if not (any (λ t. contains auto_review_tags t) w.instance_tag)
      then ok false
      else review_rows self w.review_content

  abbrev review_workflow : AuditV2 → Workflow → Result Bool
  review_workflow self (sql_workflow w) =
      if w.is_offline_export
      then ok false
      else if not (truthy (config self "auto_review" (bool false)))
      then ok false
      else review_tagged self w (tags (config self "auto_review_tag" (str "")))
          (tags (config self "auto_review_db_type" (str "")))
  review_workflow self _ = ok false

  unfoldable pub is_auto_review : AuditV2 → Result Bool
  is_auto_review self =
      if is_auto_reject self
      then ok false
      else if not (self.workflow_type == sql_review)
      then ok false
      else review_workflow self self.workflow
