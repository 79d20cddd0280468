-- ===== src/SchemaDiff/Tests.antt =====
-- Concrete tables for sql/services/schema_diff_service.py.
use dbshield.Common.{String, ◌⧺◌, true, ◌≡◌, refl, none, some, List, [], ◌∷◌, strip, join}
use dbshield.Common.Strings.{lower, upper, starts_with, has_text, after_lower}
use dbshield.SchemaDiff.Columns.{
  Column, tick, escape_ident, escape_string, column_definition, default_clause, on_update_text,
  charset_clause, normalized_default, doubled, normalize_collation, position_clause,
}
use dbshield.SchemaDiff.Floats.{is_float}
use dbshield.SchemaDiff.Indexes.{Index, Options, index_definition, decimal}
use dbshield.SchemaDiff.Tables.{Table}
use dbshield.SchemaDiff.Schemas.{Schema, diff_schemas}
use dbshield.SchemaDiff.Quoting.{read_name, read_name-escape_ident}
use dbshield.SchemaDiff.Equal.{equal_table, diff_schemas-same}
use dbshield.Common.{map, length}
use dbshield.Common.Among.{Among}
use dbshield.SchemaDiff.Schemas.{keys}

abbrev id : Column
id = record {
  column_name = "id";
  column_type = "int(11)";
  is_nullable = some "NO";
  column_default = none;
  extra = some "auto_increment";
  character_set_name = none;
  collation_name = none;
  column_comment = some "the ' key";
}

abbrev created : Column
created = record {
  column_name = "at`";
  column_type = "datetime";
  is_nullable = some "YES";
  column_default = some "now()";
  extra = some "DEFAULT_GENERATED on update CURRENT_TIMESTAMP";
  character_set_name = none;
  collation_name = none;
  column_comment = some "";
}

abbrev primary : Index
primary = record { name = "PRIMARY"; unique = true; type = some "BTREE"; columns = "id" ∷ [] }

abbrev options : Options
options = record {
  engine = some "InnoDB";
  table_collation = some "utf8mb3_general_ci";
  table_comment = some "orders";
  auto_increment = some 12;
}

abbrev orders : Table
orders = record {
  columns = id ∷ created ∷ [];
  indexes = ("PRIMARY", primary) ∷ [];
  options = options;
}

abbrev shop : Schema
shop = record {
  table_options = ("orders", options) ∷ ("items", options) ∷ [];
  columns = ("orders", id ∷ created ∷ []) ∷ [];
  indexes = ("orders", ("PRIMARY", primary) ∷ []) ∷ [];
}

abbrev other : Schema
other = record shop { table_options = ("orders", options) ∷ []; columns = ("orders", id ∷ []) ∷ [] }

abbrev objects : List (String × List String)
objects = ("views", "v1" ∷ "v0" ∷ []) ∷ []

definition_tests :
    (column_definition id none ≡ "`id` int(11) NOT NULL AUTO_INCREMENT COMMENT 'the '' key'")
    × (column_definition created none
        ≡ "`at``` datetime NULL DEFAULT 'CURRENT_TIMESTAMP' ON UPDATE CURRENT_TIMESTAMP")
    × (index_definition primary ≡ "ADD PRIMARY KEY (`id`)")
    × (decimal 2050 ≡ "2050")
    × (position_clause ("id" ∷ "at" ∷ []) "at" ("id" ∷ []) [] ≡ " AFTER `id`")
unfolding column_definition escape_ident escape_string default_clause on_update_text charset_clause
    normalized_default doubled normalize_collation lower upper starts_with has_text after_lower
    is_float strip join index_definition decimal position_clause
definition_tests = (refl, refl, refl, refl, refl)

read_name-escape_ident_example : read_name tick (escape_ident "a`b" ⧺ ", x") ≡ some ("a`b", ", x")
read_name-escape_ident_example = read_name-escape_ident "a`b" ", x" refl

-- a backslash of a comment is left alone
escape_string_test : escape_string "a\\" ≡ "'a\\'"
unfolding escape_string doubled
escape_string_test = refl

diff_schemas-same_example :
    (names : List String) × (let report = diff_schemas shop shop objects objects true true in
      (report.tables ≡ map equal_table names)
      × ((n : String) → Among n (keys shop.table_options) → Among n names)
      × (report.summary ≡ record {
        total = length names;
        diff = 0;
        same = length names;
        missing = 0;
        objects = 0;
      })
      × (report.objects ≡ [])
      × (report.patch_sql ≡ "")
      × (report.revert_sql ≡ ""))
diff_schemas-same_example = diff_schemas-same shop objects true true
