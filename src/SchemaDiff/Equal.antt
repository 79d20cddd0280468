-- ===== src/SchemaDiff/Equal.antt =====
-- `diff_schemas` of sql/services/schema_diff_service.py on two equal schemas.
use mathlib.Core.Path.{◌≡◌, refl, ap, sym, ◌∙◌}
use mathlib.Core.Logic.{inl, inr}
use dbshield.Common.Among.{Among}
use dbshield.Common.{
  ℕ, ◌++◌, ◌+◌, arith, length, map, String, Bool, Option, some, List, [], ◌∷◌, string_eq, lookup,
  join,
}
use dbshield.Common.Strings.{sorted_set}
use dbshield.SchemaDiff.Indexes.{Options}
use dbshield.SchemaDiff.Same.{diff_table-same, only_in-empty}
use dbshield.SchemaDiff.Names.{all_tables-lookup, all_tables-Among}
use dbshield.SchemaDiff.Schemas.{
  TableDiff, Summary, same, keys, size, build_alter, fragments, two_sided, Schema, Gathered,
  WhichSide, source_only, target_only, table_of, visit, visit_all, alone, all_or_empty,
  object_diffs, object_kind_labels, nothing, all_tables, diff_schemas,
}

-- the entry of a table without differences
abbrev pub equal_table : String → TableDiff
equal_table name = record {
  name = name;
  status = same;
  items = [];
  patch_sql = "";
  revert_sql = "";
}

-- what the loop over tables without differences gathers
record Grown (names : List String) (g later : Gathered) : Type 0 where
  tables : later.tables ≡ g.tables ++ map equal_table names
  total : later.summary.total ≡ g.summary.total + length names
  counted : later.summary.same ≡ g.summary.same + length names
  differ : later.summary.diff ≡ g.summary.diff
  lack : later.summary.missing ≡ g.summary.missing
  patches : later.patch_parts ≡ g.patch_parts
  reverts : later.revert_parts ≡ g.revert_parts

append_nil : {A : Type 0} (xs : List A) → xs ++ [] ≡ xs
append_nil [] = refl
append_nil (x ∷ xs) = ap (λ ys. x ∷ ys) (append_nil xs)

-- a summary of equal tables alone
equal_summary :
    (s : Summary) (n : ℕ)
    → s.total ≡ n
    → s.diff ≡ 0
    → s.same ≡ n
    → s.missing ≡ 0
    → s.objects ≡ 0
    → s ≡ record { total = n; diff = 0; same = n; missing = 0; objects = 0 }
equal_summary s n t d e m o =
    ap (λ x. record s { total = x }) t
    ∙ ap (λ x. record s { total = n; diff = x }) d
    ∙ ap (λ x. record s { total = n; diff = 0; same = x }) e
    ∙ ap (λ x. record s { total = n; diff = 0; same = n; missing = x }) m
    ∙ ap (λ x. record { total = n; diff = 0; same = n; missing = 0; objects = x }) o

append_one : {A : Type 0} (xs : List A) (x : A) (ys : List A) → (xs ++ x ∷ []) ++ ys ≡ xs ++ x ∷ ys
append_one [] x ys = refl
append_one (y ∷ xs) x ys = ap (λ zs. y ∷ zs) (append_one xs x ys)

module _ (s : Schema) (auto comments : Bool) where
  visit-equal :
      (name : String) (o : Option Options) (v : Options) (g : Gathered)
      → o ≡ some v
      → visit s s auto comments name o o g ≡ record g {
        summary = record g.summary { total = g.summary.total + 1; same = g.summary.same + 1 };
        tables = g.tables ++ equal_table name ∷ [];
      }
  unfolding build_alter fragments
  visit-equal name o v g e =
      ap (λ x. visit s s auto comments name x x g) e
      ∙ ap (λ items. two_sided name items g) (diff_table-same (table_of s name v) auto comments)

  visit_all-Grown :
      (names : List String) (g : Gathered)
      → ((n : String) → Among n names → (o : Options) × (lookup n s.table_options ≡ some o))
      → Grown names g (visit_all s s auto comments names g)
  unfolding visit_all
  visit_all-Grown [] g h = record {
    tables = sym (append_nil g.tables);
    total = omega arith;
    counted = omega arith;
    differ = refl;
    lack = refl;
    patches = refl;
    reverts = refl;
  }
  visit_all-Grown (name ∷ names) g h =
      let (v, e) = h name (inl refl) in
      let step = visit-equal name (lookup name s.table_options) v g e in
      let next =
        visit s s auto comments name (lookup name s.table_options) (lookup name s.table_options)
          g in
      let q = visit_all-Grown names next (λ n m. h n (inr m)) in
      record {
        tables =
            q.tables
            ∙ ap (λ (x : Gathered). x.tables ++ map equal_table names) step
            ∙ append_one g.tables (equal_table name) (map equal_table names);
        total = omega (arith, q.total, ap (λ (x : Gathered). x.summary.total) step);
        counted = omega (arith, q.counted, ap (λ (x : Gathered). x.summary.same) step);
        differ = q.differ ∙ ap (λ (x : Gathered). x.summary.diff) step;
        lack = q.lack ∙ ap (λ (x : Gathered). x.summary.missing) step;
        patches = q.patches ∙ ap (λ (x : Gathered). x.patch_parts) step;
        reverts = q.reverts ∙ ap (λ (x : Gathered). x.revert_parts) step;
      }

alone-same : (label : String) (side : WhichSide) (xs : List String) → alone label side xs xs ≡ []
unfolding alone sorted_set
alone-same label side xs = rw (only_in-empty xs xs (λ n e. e)) refl

object_diffs-same :
    (labels : List (String × String)) (objects : List (String × List String))
    → object_diffs labels objects objects ≡ []
unfolding object_diffs
object_diffs-same [] objects = refl
object_diffs-same ((key, label) ∷ labels) objects =
    let xs = all_or_empty (lookup key objects) in
    rw
      (
        alone-same label source_only xs,
        alone-same label target_only xs,
        object_diffs-same labels objects,
      )
      refl

-- For a schema and itself, with the same other objects, whatever is to be compared: the report of
-- `diff_schemas` has exactly an entry with the status same, without items and with empty statements, for
-- each of its names; every table of the schema is among these names; the counts are those of that many equal
-- tables and nothing else; there are no objects, and both statements are empty.
pub diff_schemas-same :
    (s : Schema) (objects : List (String × List String)) (auto comments : Bool)
    → (names : List String) × (let report = diff_schemas s s objects objects auto comments in
        (report.tables ≡ map equal_table names)
        × ((n : String) → Among n (keys s.table_options) → Among n names)
        × (report.summary ≡ record {
          total = length names;
          diff = 0;
          same = length names;
          missing = 0;
          objects = 0;
        })
        × (report.objects ≡ [])
        × (report.patch_sql ≡ "")
        × (report.revert_sql ≡ ""))
unfolding diff_schemas join size
diff_schemas-same s objects auto comments =
    let names = all_tables s s in
    let q = visit_all-Grown s auto comments names nothing (all_tables-lookup s) in
    let none_left = object_diffs-same object_kind_labels objects in
    (
      names,
      (
        q.tables,
        all_tables-Among s,
        equal_summary (diff_schemas s s objects objects auto comments).summary (length names)
            (omega (arith, q.total)) q.differ (omega (arith, q.counted)) q.lack (ap size none_left),
        none_left,
        ap (join "\n") q.patches,
        ap (join "\n") q.reverts,
      ),
    )
