-- ===== src/SchemaDiff/Times.antt =====
-- `_default_clause` of sql/services/schema_diff_service.py for columns of a date and time.
use mathlib.Core.Path.{◌≡◌, refl, ap, ◌∙◌, subst}
use mathlib.Core.Logic.{inl, inr}
use text.Mathlib.TextEquality.{eq_iff}
use dbshield.Common.{
  String, Bool, true, false, ◌&&◌, ◌||◌, Option, none, some, ◌==◌, string_eq, contains,
  if◌then◌else◌, Bool-cases, ◌⧺◌,
}
use dbshield.Common.Strings.{lower, upper, starts_with}
use dbshield.SchemaDiff.Columns.{
  Column, is_time, now_names, is_numeric, normalized_default, clause_of, default_clause,
  escape_string,
}
use dbshield.SchemaDiff.Floats.{is_float}

not_null : (name : String) → contains now_names name ≡ true → name == "NULL" ≡ false
not_null name h = elim (Bool-cases (name == "NULL")) [
  | inl e ↦ cc (subst (λ n. contains now_names n ≡ true) ((eq_iff name "NULL").0 e) h)
  | inr e ↦ e
]

normalized_default_now :
    (col : Column) (text : String)
    → col.column_default ≡ some text
    → is_time (lower col.column_type) ≡ true
    → contains now_names (upper text) ≡ true
    → normalized_default col ≡ some "CURRENT_TIMESTAMP"
unfolding normalized_default
normalized_default_now col text e t h = rw (e, not_null (upper text) h, t, h) refl

clause_of_now :
    (numeric : Bool) → clause_of (some "CURRENT_TIMESTAMP") numeric ≡ "DEFAULT 'CURRENT_TIMESTAMP'"
unfolding starts_with is_float escape_string dbshield.Common.strip lower
clause_of_now true = refl
clause_of_now false = refl

-- A column whose type begins with `timestamp` or `datetime` and whose default is CURRENT_TIMESTAMP,
-- CURRENT_TIMESTAMP() or NOW(), in letters of any case, gets a default clause with the name
-- CURRENT_TIMESTAMP between single quotes.
pub default_clause_now :
    (col : Column) (text : String)
    → col.column_default ≡ some text
    → is_time (lower col.column_type) ≡ true
    → contains now_names (upper text) ≡ true
    → default_clause col ≡ "DEFAULT 'CURRENT_TIMESTAMP'"
unfolding default_clause
default_clause_now col text e t h =
    let numeric = is_numeric (lower col.column_type) in
    ap (λ d. clause_of d numeric) (normalized_default_now col text e t h) ∙ clause_of_now numeric
