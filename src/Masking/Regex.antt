-- ===== src/Masking/Regex.antt =====
-- `regex` of sql/utils/data_masking.py: a rule hides a part of a cell.
use dbshield.Common.{
  ℕ, zero, suc, ◌+◌, ◌-◌, ◌/◌, ◌%◌, String, code, ◌⧺◌, Bool, false, not, ◌&&◌, Option, none, some,
  List, [], ◌∷◌, ◌==◌, nat_eq, string_eq, ltb, ℤ, pos, negsuc, if◌then◌else◌, Result, ok, err, Exc,
  type_error,
}
use dbshield.Common.Checks.{◌>>=◌}

-- a cell: none, a text, or a value of another type with its truth and its text (`str`)
pub data Cell : Type 0 where
  null : Cell
  str : String → Cell
  other : Bool → String → Cell

pub record MaskingRule : Type 0 where
  pub rule_type : ℕ
  pub rule_regex : String
  pub hide_group : ℤ

abbrev pub is_true : Cell → Bool
is_true null = false
is_true (str s) = not (s == "")
is_true (other b s) = b

abbrev pub shown : Cell → String
shown null = "None"
shown (str s) = s
shown (other b s) = s

-- `len(s)`, `s[:n]`, `s[n:]` and `"*" * len(s)`
unfoldable pub length : String → ℕ
length String.[] = 0
length (String.◌∷◌ c s) = suc (length s)

unfoldable pub take : ℕ → String → String
take zero s = String.[]
take (suc n) String.[] = String.[]
take (suc n) (String.◌∷◌ c s) = String.◌∷◌ c (take n s)

unfoldable pub drop : ℕ → String → String
drop zero s = s
drop (suc n) String.[] = String.[]
drop (suc n) (String.◌∷◌ c s) = drop n s

unfoldable pub stars : String → String
stars String.[] = String.[]
stars (String.◌∷◌ c s) = String.◌∷◌ "*" (stars s)

-- the groups of a match up to the last one that matched; `lastindex` is `None` where the list is empty
abbrev pub Groups : Type 0
Groups = List (Option String)

-- `$` stands at the end, and before a line break at the end
unfoldable pub ends_with_break : String → Bool
ends_with_break String.[] = false
ends_with_break (String.◌∷◌ c String.[]) = code c == 10
ends_with_break (String.◌∷◌ c (String.◌∷◌ d s)) = ends_with_break (String.◌∷◌ d s)

abbrev last_part : ℕ → String → String
last_part n s = if ltb n (length s) && ends_with_break s then take (length s - 1) s else s

-- the search of `^([\s\S]{a,}?)([\s\S]{b,}?)([\s\S]{c,}?)$`: each group takes as little as it may
unfoldable pub lazy_parts : ℕ → ℕ → ℕ → String → Option Groups
lazy_parts a b c s =
    if ltb (length s) (a + b + c)
    then none
    else some
        (some (take a s) ∷ some (take b (drop a s)) ∷ some (last_part c (drop (a + b) s)) ∷ [])

-- the three lengths of the rule 100
abbrev pub one_if : Bool → ℕ
one_if b = if b then 1 else 0

unfoldable pub thirds : String → Option Groups
thirds s =
    let value_average = length s / 3 in
    let value_remainder = length s % 3 in
    lazy_parts value_average (value_average + one_if (ltb 0 value_remainder))
      (value_average + one_if (ltb 1 value_remainder)) s

abbrev pub is_group : ℤ → ℕ → Bool
is_group (pos m) n = m == n
is_group (negsuc m) n = false

-- the loop over the groups: the hidden one becomes stars
unfoldable pub masked_from : ℤ → ℕ → Groups → Result String
masked_from hide_group i [] = ok ""
masked_from hide_group i (none ∷ groups) = err type_error
masked_from hide_group i (some g ∷ groups) = do
  rest ← masked_from hide_group (suc i) groups
  ok ((if is_group hide_group i then stars g else g) ⧺ rest)

abbrev as_text : Result String → Result Cell
as_text r = r >>= λ s. ok (str s)

unfoldable pub masked : ℤ → Cell → Option Groups → Result Cell
masked hide_group value none = ok value
masked hide_group value (some []) = err type_error
masked hide_group value (some (g ∷ groups)) = as_text (masked_from hide_group 1 (g ∷ groups))

-- `except AttributeError: return value`
abbrev pub or_value : Result Cell → Cell → Result Cell
or_value (err Exc.attribute_error) value = ok value
or_value r value = r

-- `re_search expression text` is Python's `re.compile(expression, re.I).search(text)`
module _ (re_search : String → String → Result (Option Groups)) where
  abbrev searched : MaskingRule → Cell → Result (Option Groups)
  searched rule (str s) =
      if rule.rule_type == 100 then ok (thirds s) else re_search rule.rule_regex s
  searched rule value = re_search rule.rule_regex (shown value)

  unfoldable pub regex : MaskingRule → Cell → Result Cell
  regex rule value =
      if not (is_true value)
      then ok value
      else or_value (searched rule value >>= masked rule.hide_group value) value
