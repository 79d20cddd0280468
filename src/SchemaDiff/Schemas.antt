-- ===== src/SchemaDiff/Schemas.antt =====
-- `build_alter` and `diff_schemas` of sql/services/schema_diff_service.py: the report on two schemas.
use dbshield.Common.{
  ℕ, ◌+◌, String, ◌⧺◌, Bool, true, false, not, Option, none, some, List, [], ◌∷◌, ◌++◌, map, ◌==◌,
  string_eq, contains, keep, join, lookup, if◌then◌else◌,
}
use dbshield.Common.Strings.{sorted_set}
use dbshield.SchemaDiff.Columns.{Column, escape_ident}
use dbshield.SchemaDiff.Indexes.{Index, Options}
use dbshield.SchemaDiff.Tables.{Table, Item, table, missing, diff_table}

pub data Side : Type 0 where
  patch revert : Side

abbrev pub clause : Side → Item → String
clause patch i = i.patch
clause revert i = i.revert

unfoldable pub fragments : Side → List Item → List String
fragments side items = keep (λ f. not (f == "")) (map (clause side) items)

abbrev altered : String → List String → String
altered name [] = ""
altered name (f ∷ fs) = "ALTER TABLE " ⧺ escape_ident name ⧺ " " ⧺ join ",\n  " (f ∷ fs) ⧺ ";"

unfoldable pub build_alter : String → List Item → Side → String
unfolding fragments
build_alter name items side = altered name (fragments side items)

pub record Schema : Type 0 where
  pub table_options : List (String × Options)
  pub columns : List (String × List Column)
  pub indexes : List (String × List (String × Index))

pub data Status : Type 0 where
  only_in_source only_in_target diff same : Status

pub record TableDiff : Type 0 where
  pub name : String
  pub status : Status
  pub items : List Item
  pub patch_sql : String
  pub revert_sql : String

pub record Summary : Type 0 where
  pub total : ℕ
  pub diff : ℕ
  pub same : ℕ
  pub missing : ℕ
  pub objects : ℕ

-- what the loop over the tables has gathered
pub record Gathered : Type 0 where
  pub summary : Summary
  pub tables : List TableDiff
  pub patch_parts : List String
  pub revert_parts : List String

abbrev pub all_or_empty {ℓ} : {A : Type ℓ} → Option (List A) → List A
all_or_empty none = []
all_or_empty (some xs) = xs

abbrev pub table_of : Schema → String → Options → Table
table_of s name options = record {
  columns = all_or_empty (lookup name s.columns);
  indexes = all_or_empty (lookup name s.indexes);
  options = options;
}

abbrev there : Bool → String
there b = if b then "存在" else "不存在"

abbrev missing_item : String → Bool → Bool → Item
missing_item name in_src in_dst = record {
  kind = table;
  action = missing;
  object = name;
  source = some (there in_src);
  target = some (there in_dst);
  danger = false;
  patch = "";
  revert = "";
}

abbrev pub one_sided : String → Bool → Bool → Gathered → Gathered
one_sided name in_src in_dst g = record g {
  summary = record g.summary { total = g.summary.total + 1; missing = g.summary.missing + 1 };
  tables =
      g.tables
      ++ record {
        name = name;
        status = if in_src then only_in_source else only_in_target;
        items = missing_item name in_src in_dst ∷ [];
        patch_sql = "";
        revert_sql = "";
      }
        ∷ [];
}

abbrev pub two_sided : String → List Item → Gathered → Gathered
two_sided name [] g = record g {
  summary = record g.summary { total = g.summary.total + 1; same = g.summary.same + 1 };
  tables =
      g.tables
      ++ record {
        name = name;
        status = same;
        items = [];
        patch_sql = build_alter name [] patch;
        revert_sql = build_alter name [] revert;
      }
        ∷ [];
}
two_sided name (i ∷ is) g = record {
  summary = record g.summary { total = g.summary.total + 1; diff = g.summary.diff + 1 };
  tables =
      g.tables
      ++ record {
        name = name;
        status = diff;
        items = i ∷ is;
        patch_sql = build_alter name (i ∷ is) patch;
        revert_sql = build_alter name (i ∷ is) revert;
      }
        ∷ [];
  patch_parts = g.patch_parts ++ build_alter name (i ∷ is) patch ∷ [];
  revert_parts = g.revert_parts ++ build_alter name (i ∷ is) revert ∷ [];
}

module _ (src dst : Schema) (sync_auto_inc sync_comments : Bool) where
  abbrev pub visit : String → Option Options → Option Options → Gathered → Gathered
  visit name none none g = one_sided name false false g
  visit name none (some d) g = one_sided name false true g
  visit name (some s) none g = one_sided name true false g
  visit name (some s) (some d) g =
      two_sided name
        (diff_table (table_of src name s) (table_of dst name d) sync_auto_inc sync_comments) g

  unfoldable pub visit_all : List String → Gathered → Gathered
  visit_all [] g = g
  visit_all (name ∷ more) g =
      visit_all more (visit name (lookup name src.table_options) (lookup name dst.table_options) g)

abbrev pub keys {ℓ} : {A : Type ℓ} → List (String × A) → List String
keys m = map (λ e. e.0) m

-- the names of views, triggers and routines that one side has alone
pub data WhichSide : Type 0 where
  source_only target_only : WhichSide

pub record ObjectDiff : Type 0 where
  pub kind : String
  pub name : String
  pub side : WhichSide

unfoldable pub alone : String → WhichSide → List String → List String → List ObjectDiff
alone label side ours theirs =
    map (λ n. record { kind = label; name = n; side = side })
      (sorted_set (keep (λ n. not (contains theirs n)) ours))

abbrev pub object_kind_labels : List (String × String)
object_kind_labels = ("views", "视图") ∷ ("triggers", "触发器") ∷ ("routines", "存储过程/函数") ∷ []

unfoldable pub object_diffs :
    List (String × String)
    → List (String × List String)
    → List (String × List String)
    → List ObjectDiff
unfolding alone
object_diffs [] src_objects dst_objects = []
object_diffs ((key, label) ∷ more) src_objects dst_objects =
    let src_names = all_or_empty (lookup key src_objects) in
    let dst_names = all_or_empty (lookup key dst_objects) in
    alone label source_only src_names dst_names
    ++ alone label target_only dst_names src_names
    ++ object_diffs more src_objects dst_objects

pub record Report : Type 0 where
  pub summary : Summary
  pub tables : List TableDiff
  pub objects : List ObjectDiff
  pub patch_sql : String
  pub revert_sql : String

abbrev pub nothing : Gathered
nothing = record {
  summary = record { total = 0; diff = 0; same = 0; missing = 0; objects = 0 };
  tables = [];
  patch_parts = [];
  revert_parts = [];
}

-- `len(objects)`, which the loop counts one by one
unfoldable pub size : List ObjectDiff → ℕ
size [] = 0
size (o ∷ os) = size os + 1

abbrev pub all_tables : Schema → Schema → List String
all_tables src dst = sorted_set (keys src.table_options ++ keys dst.table_options)

unfoldable pub diff_schemas :
    Schema
    → Schema
    → List (String × List String)
    → List (String × List String)
    → Bool
    → Bool
    → Report
unfolding visit_all object_diffs size join
diff_schemas src dst src_objects dst_objects sync_auto_inc sync_comments =
    let g = visit_all src dst sync_auto_inc sync_comments (all_tables src dst) nothing in
    let objects = object_diffs object_kind_labels src_objects dst_objects in
    record {
      summary = record g.summary { objects = size objects };
      tables = g.tables;
      objects = objects;
      patch_sql = join "\n" g.patch_parts;
      revert_sql = join "\n" g.revert_parts;
    }
