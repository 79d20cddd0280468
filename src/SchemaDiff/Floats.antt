-- ===== src/SchemaDiff/Floats.antt =====
-- The texts that Python's `float` reads, for `_default_clause` of sql/services/schema_diff_service.py.
use dbshield.Common.{
  String, Char, code, Bool, true, false, ◌≡◌, refl, ◌&&◌, ◌||◌, ◌==◌, string_eq, nat_eq, leb, strip,
  List, [], ◌∷◌, if◌then◌else◌, contains,
}
use dbshield.Common.Strings.{lower}

pub data Kind : Type 0 where
  digit dot under expo sign strange : Kind

kind_of : Char → Kind
kind_of c =
    let n = code c in
    if leb 48 n && leb n 57
    then digit
    else if n == 46
    then dot
    else if n == 95
    then under
    else if n == 69 || n == 101
    then expo
    else if n == 43 || n == 45
    then sign
    else strange

-- where the number stands; an underscore wants a digit on both sides
pub data Stage : Type 0 where
  start unsigned whole whole_under point_first point fraction fraction_under : Stage
  exponent exponent_signed power power_under wrong : Stage

advance : Stage → Kind → Stage
advance start digit = whole
advance start dot = point_first
advance start sign = unsigned
advance unsigned digit = whole
advance unsigned dot = point_first
advance whole digit = whole
advance whole under = whole_under
advance whole dot = point
advance whole expo = exponent
advance whole_under digit = whole
advance point_first digit = fraction
advance point digit = fraction
advance point expo = exponent
advance fraction digit = fraction
advance fraction under = fraction_under
advance fraction expo = exponent
advance fraction_under digit = fraction
advance exponent digit = power
advance exponent sign = exponent_signed
advance exponent_signed digit = power
advance power digit = power
advance power under = power_under
advance power_under digit = power
advance stage kind = wrong

accepts : Stage → Bool
accepts whole = true
accepts point = true
accepts fraction = true
accepts power = true
accepts stage = false

reads : Stage → String → Bool
unfolding kind_of advance accepts
reads stage String.[] = accepts stage
reads stage (String.◌∷◌ c s) = reads (advance stage (kind_of c)) s

drop_sign : String → String
unfolding kind_of
drop_sign String.[] = String.[]
drop_sign (String.◌∷◌ c s) = if code c == 43 || code c == 45 then s else String.◌∷◌ c s

abbrev words : List String
words = "inf" ∷ "infinity" ∷ "nan" ∷ []

-- `float(text)` does not raise, for a text of ASCII characters
unfoldable pub is_float : String → Bool
unfolding reads drop_sign
is_float text = reads start (strip text) || contains words (lower (drop_sign (strip text)))

is_float_tests :
    (is_float " -1.5e+3 " ≡ true)
    × (is_float "1_000" ≡ true)
    × (is_float "1__0" ≡ false)
    × (is_float "." ≡ false)
    × (is_float "5." ≡ true)
    × (is_float "-Inf" ≡ true)
    × (is_float "now()" ≡ false)
    × (is_float "" ≡ false)
unfolding is_float reads drop_sign strip lower kind_of advance accepts
is_float_tests = (refl, refl, refl, refl, refl, refl, refl, refl)
