-- ===== src/Masking/Brute.antt =====
-- `brute_mask` of sql/utils/data_masking.py: all rules of the instance on all cells.
use mathlib.Core.Path.{◌≡◌, refl, sym, ap, ap₂, ◌∙◌}
use dbshield.Common.{
  ℕ, zero, suc, String, ◌⧺◌, ◌&&◌, List, [], ◌∷◌, ◌==◌, nat_eq, any, keep, map, length,
  if◌then◌else◌, Exec, Result, ok, err, pure, reads, modify, continue, ◌>>=◌, ◌>>◌, ℤ,
}
use dbshield.Common.Checks
use dbshield.Common.Checks.{chain_parts}
use dbshield.Privileges.State.{Instance}
use dbshield.SchemaDiff.Indexes.{decimal}
use dbshield.Masking.Regex.{Cell, str, shown, is_group, MaskingRule}
use dbshield.Masking.Rows.{SqlResult, MaskingRows}
use dbshield.Masking.Untouched.{same_row}

-- how many cells each row has
abbrev pub widths : List (List Cell) → List ℕ
widths rows = map length rows

all_same : (x y : List (List Cell)) → ok x ≡ ok y → x ≡ y
all_same x y h = cc h

assigned-widths :
    (x : Result (List (List Cell))) (r : SqlResult)
    → ((m : List (List Cell)) → x ≡ ok m → widths m ≡ widths r.rows)
    → widths (continue x (λ rows. modify (λ (s : SqlResult). record s { rows = rows })) r).1.rows
      ≡ widths r.rows
assigned-widths (ok m) r h = h m refl
assigned-widths (err c) r h = refl

continue-widths :
    {A : Type 0} (x : Result A) (f : A → Exec SqlResult (Unit {0})) (r : SqlResult) (ns : List ℕ)
    → ((a : A) → widths (f a r).1.rows ≡ ns)
    → widths r.rows ≡ ns
    → widths (continue x f r).1.rows ≡ ns
continue-widths (ok a) f r ns h k = h a
continue-widths (err c) f r ns h k = k

-- the groups from `i` on, as many as are left
unfoldable pub replace_pattern : ℤ → ℕ → ℕ → String
replace_pattern hide_group i zero = ""
replace_pattern hide_group i (suc left) =
    (if is_group hide_group i then "****" else "\\" ⧺ decimal i)
    ⧺ replace_pattern hide_group (suc i) left

-- the rules of the types that the instance's columns have, active or not
unfoldable pub rules_of : Instance → MaskingRows → List MaskingRule
rules_of instance db =
    keep
      (λ rule. any (λ c. c.instance_id == instance.id && c.rule_type == rule.rule_type) db.columns)
      db.rules

-- `groups expression` is `re.compile(expression, re.I).groups`, and `sub expression pattern text` the
-- text of `sub` of the compiled expression
module _ (groups : String → Result ℕ) (sub : String → String → String → Result String) where
  unfoldable pub brute_row : String → String → List Cell → Result (List Cell)
  brute_row expression pattern [] = ok []
  brute_row expression pattern (c ∷ cs) =
      Checks.◌>>=◌ (sub expression pattern (shown c))
        (λ s. Checks.◌>>=◌ (brute_row expression pattern cs) (λ rest. ok (str s ∷ rest)))

  unfoldable pub brute_rows : String → String → List (List Cell) → Result (List (List Cell))
  brute_rows expression pattern [] = ok []
  brute_rows expression pattern (row ∷ rows) =
      Checks.◌>>=◌ (brute_row expression pattern row)
        (λ masked. Checks.◌>>=◌ (brute_rows expression pattern rows) (λ rest. ok (masked ∷ rest)))

  -- the rows of one rule are assigned together
  unfoldable pub brute_rule : MaskingRule → Exec SqlResult (Unit {0})
  brute_rule rule = do
    count ← reads (λ r. groups rule.rule_regex)
    rows ← reads (λ r. brute_rows rule.rule_regex (replace_pattern rule.hide_group 1 count) r.rows)
    modify (λ r. record r { rows = rows })

  unfoldable pub brute_rules : List MaskingRule → Exec SqlResult (Unit {0})
  brute_rules [] = pure tt
  brute_rules (rule ∷ rules) = do brute_rule rule; brute_rules rules

  unfoldable pub brute_mask : Instance → MaskingRows → Exec SqlResult (Unit {0})
  brute_mask instance db = brute_rules (rules_of instance db)

  -- a row that is masked has as many cells
  brute_row-length :
      (expression pattern : String) (row masked : List Cell)
      → brute_row expression pattern row ≡ ok masked
      → length masked ≡ length row
  unfolding brute_row
  brute_row-length expression pattern [] masked h = ap length (sym (same_row [] masked h))
  brute_row-length expression pattern (c ∷ cs) masked h =
      let (s, e, f) = chain_parts (sub expression pattern (shown c)) _ h in
      let (rest, g, k) =
        chain_parts (brute_row expression pattern cs) (λ rest. ok (str s ∷ rest)) f in
      ap length (sym (same_row (str s ∷ rest) masked k))
      ∙ ap suc (brute_row-length expression pattern cs rest g)

  brute_rows-widths :
      (expression pattern : String) (rows masked : List (List Cell))
      → brute_rows expression pattern rows ≡ ok masked
      → widths masked ≡ widths rows
  unfolding brute_rows
  brute_rows-widths expression pattern [] masked h = ap widths (sym (all_same [] masked h))
  brute_rows-widths expression pattern (row ∷ rows) masked h =
      let (m, e, f) = chain_parts (brute_row expression pattern row) _ h in
      let (rest, g, k) =
        chain_parts (brute_rows expression pattern rows) (λ rest. ok (m ∷ rest)) f in
      ap widths (sym (all_same (m ∷ rest) masked k))
      ∙ ap₂ (λ n ns. n ∷ ns) (brute_row-length expression pattern row m e)
          (brute_rows-widths expression pattern rows rest g)

  brute_rule-widths :
      (rule : MaskingRule) (r : SqlResult) → widths (brute_rule rule r).1.rows ≡ widths r.rows
  unfolding brute_rule
  brute_rule-widths rule r =
      continue-widths (groups rule.rule_regex) _ r (widths r.rows)
        (λ count.
          let pattern = replace_pattern rule.hide_group 1 count in
          assigned-widths (brute_rows rule.rule_regex pattern r.rows) r
            (λ m e. brute_rows-widths rule.rule_regex pattern r.rows m e))
        refl

  brute_rules-widths :
      (rules : List MaskingRule) (r : SqlResult)
      → widths (brute_rules rules r).1.rows ≡ widths r.rows
  unfolding brute_rules
  brute_rules-widths [] r = refl
  brute_rules-widths (rule ∷ rules) r =
      let q = (brute_rule rule r).1 in
      continue-widths (brute_rule rule r).0 (λ _. brute_rules rules) q (widths r.rows)
        (λ _. brute_rules-widths rules q ∙ brute_rule-widths rule r) (brute_rule-widths rule r)

  -- Whether or not it raises, `brute_mask` leaves as many rows, with as many cells each.
  brute_mask-widths :
      (instance : Instance) (db : MaskingRows) (r : SqlResult)
      → widths (brute_mask instance db r).1.rows ≡ widths r.rows
  unfolding brute_mask
  brute_mask-widths instance db r = brute_rules-widths (rules_of instance db) r
