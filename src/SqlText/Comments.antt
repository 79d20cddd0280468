-- ===== src/SqlText/Comments.antt =====
-- `remove_comments` of sql/utils/sql_utils.py, for the mysql rules, which are also the fallback, and
-- the pgsql rules. The substitution of the regular expression
--   (".*?"|'.*?')|(/\*.*?\*/|LINE)   with DOTALL
-- is a scan from the left: at each position the first alternative that matches is taken, and a
-- position where none does is copied. LINE is `(?:#|--\s)[^\n]*\n` (mysql) or `--[^\n]*\n` (pgsql).
use dbshield.Common.{
  ℕ, zero, suc, String, Char, code, ◌⧺◌, Option, none, some, ◌≡◌, refl, ◌==◌, nat_eq, if◌then◌else◌,
  is_space, strip,
}
use Prim.Native.String.{[], ◌∷◌, count}

pub data Style : Type 0 where
  mysql pgsql : Style

-- what a lazy `.*?` and its closing character match: the text before the first one, and the rest
abbrev pub until_put : Char → Option (String × String) → Option (String × String)
until_put c none = none
until_put c (some (body, rest)) = some (c ∷ body, rest)

unfoldable pub until : ℕ → String → Option (String × String)
until stop [] = none
until stop (c ∷ s) =
    let rest = until_put c (until stop s) in if code c == stop then some ([], s) else rest

-- what follows the first `*/`
unfoldable pub after_close : String → Option String
after_close [] = none
after_close (c ∷ []) = none
after_close (c ∷ d ∷ s) =
    let rest = after_close (d ∷ s) in
    if code c == b'*' then (if code d == b'/' then some s else rest) else rest

-- what follows `[^\n]*\n`
unfoldable pub after_line : String → Option String
after_line [] = none
after_line (c ∷ s) = let rest = after_line s in if code c == 10 then some s else rest

-- what matches at a position: a quoted text (kept), a comment (dropped), or nothing
pub data Token : Type 0 where
  quoted : String → String → Token
  comment : String → Token
  plain : Token

abbrev pub as_quoted : Char → Option (String × String) → Token
as_quoted c none = plain
as_quoted c (some (body, rest)) = quoted (c ∷ (body ⧺ c ∷ [])) rest

abbrev pub as_comment : Option String → Token
as_comment none = plain
as_comment (some rest) = comment rest

abbrev pub block : String → Token
block [] = plain
block (c ∷ s) = if code c == b'*' then as_comment (after_close s) else plain

abbrev pub blank_then_line : String → Token
blank_then_line [] = plain
blank_then_line (c ∷ s) = if is_space c then as_comment (after_line s) else plain

abbrev pub dashes : Style → String → Token
dashes style [] = plain
dashes mysql (c ∷ s) = if code c == b'-' then blank_then_line s else plain
dashes pgsql (c ∷ s) = if code c == b'-' then as_comment (after_line s) else plain

abbrev pub hash : Style → String → Token
hash mysql s = as_comment (after_line s)
hash pgsql s = plain

unfoldable pub token : Style → Char → String → Token
unfolding until after_close after_line is_space
token style c s =
    if code c == b'"'
    then as_quoted c (until b'"' s)
    else if code c == 39
    then as_quoted c (until 39 s)
    else if code c == b'/'
    then block s
    else if code c == b'#'
    then hash style s
    else if code c == b'-'
    then dashes style s
    else plain

-- one round of the substitution for each position; fuel: the text's length
unfoldable pub scan : Style → ℕ → String → String
unfolding token
scan style zero s = s
scan style (suc fuel) [] = []
scan style (suc fuel) (c ∷ s) = elim (token style c s) [
  | quoted text rest ↦ text ⧺ scan style fuel rest
  | comment rest ↦ scan style fuel rest
  | plain ↦ c ∷ scan style fuel s
]

unfoldable pub remove_comments : Style → String → String
unfolding scan strip
remove_comments style sql = strip (scan style (count sql) sql)

remove_comments_tests :
    (remove_comments mysql "/* a */ drop -- x\n table '-- y' # z\n" ≡ "drop  table '-- y'")
    × (remove_comments mysql "--x\nselect" ≡ "--x\nselect")
    × (remove_comments pgsql "--x\nselect" ≡ "select")
    × (remove_comments mysql "select 1 -- x" ≡ "select 1 -- x")
unfolding remove_comments
remove_comments_tests = (refl, refl, refl, refl)
