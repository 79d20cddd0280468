-- ===== src/SchemaDiff/Tables.antt =====
-- `diff_table` of sql/services/schema_diff_service.py: the differences of one table.
use dbshield.Common.{
  String, ◌⧺◌, Bool, true, false, not, Option, none, some, List, [], ◌∷◌, ◌++◌, map, ◌==◌,
  string_eq, contains, keep, find, join, lookup, if◌then◌else◌,
}
use dbshield.Common.Strings.{sorted_set}
use dbshield.SchemaDiff.Columns.{
  Column, column_definition, column_signature, same_signature, same_but_comment, position_clause,
  escape_ident,
}
use dbshield.SchemaDiff.Indexes.{
  Index, Options, OptionDiff, index_definition, index_drop_clause, same_index, table_option_diffs,
}

pub record Table : Type 0 where
  pub columns : List Column
  pub indexes : List (String × Index)
  pub options : Options

pub data ObjectKind : Type 0 where
  column index table_option table : ObjectKind

pub data Change : Type 0 where
  rename add drop modify missing : Change

pub record Item : Type 0 where
  pub kind : ObjectKind
  pub action : Change
  pub object : String
  pub source : Option String
  pub target : Option String
  pub danger : Bool
  pub patch : String
  pub revert : String

-- `{c["COLUMN_NAME"]: c for c in columns}`: the last column of a name
abbrev pub or_else : Option Column → Bool → Column → Option Column
or_else (some d) b c = some d
or_else none b c = if b then some c else none

unfoldable pub column_named : List Column → String → Option Column
column_named [] name = none
column_named (c ∷ cs) name = or_else (column_named cs name) (c.column_name == name) c

abbrev pub names : List Column → List String
names cols = map (λ (c : Column). c.column_name) cols

abbrev pub collation_of : Table → Option String
collation_of t = t.options.table_collation

-- the names of one side that the other has not
unfoldable pub only_in : List String → List String → List String
only_in order other = keep (λ n. not (contains other n)) order

-- `list.remove`: the first one
unfoldable pub remove : String → List String → List String
remove x [] = []
remove x (y ∷ ys) = let rest = remove x ys in if y == x then ys else y ∷ rest

-- the loop that finds columns with a new name

pub record Left : Type 0 where
  pub removed : List String
  pub added : List String
  pub items : List Item

abbrev pub is_renamed : Option Column → Column → Bool
is_renamed none d = false
is_renamed (some c) d = same_but_comment (column_signature c false) (column_signature d false)

abbrev pub rename_item : Table → Table → String → String → Column → Column → Item
rename_item src dst rm match c d = record {
  kind = column;
  action = rename;
  object = rm;
  source = some match;
  target = some rm;
  danger = false;
  patch = "CHANGE " ⧺ escape_ident rm ⧺ " " ⧺ column_definition c (collation_of src);
  revert = "CHANGE " ⧺ escape_ident match ⧺ " " ⧺ column_definition d (collation_of dst);
}

abbrev pub renamed_to :
    Table → Table → String → Column → Option String → Option Column → Left → Left
renamed_to src dst rm d none c left = left
renamed_to src dst rm d (some match) none left = left
renamed_to src dst rm d (some match) (some c) left = record {
  removed = remove rm left.removed;
  added = remove match left.added;
  items = left.items ++ rename_item src dst rm match c d ∷ [];
}

abbrev pub match_of : Table → Column → List String → Option String
match_of src d added = find (λ ad. is_renamed (column_named src.columns ad) d) added

abbrev pub match_column : Table → Option String → Option Column
match_column src none = none
match_column src (some ad) = column_named src.columns ad

abbrev pub rename_one : Table → Table → String → Option Column → Left → Left
rename_one src dst rm none left = left
rename_one src dst rm (some d) left =
    let match = match_of src d left.added in
    renamed_to src dst rm d match (match_column src match) left

unfoldable pub rename_all : Table → Table → List String → Left → Left
rename_all src dst [] left = left
rename_all src dst (rm ∷ todo) left =
    rename_all src dst todo (rename_one src dst rm (column_named dst.columns rm) left)

-- the other loops; a name stands among the columns it is looked up in

unfoldable pub each : (String → List Item) → List String → List Item
each f [] = []
each f (name ∷ more) = f name ++ each f more

abbrev type_of : Column → Option String
type_of c = some c.column_type

abbrev pub add_item : Table → Table → List String → String → Option Column → List Item
add_item src dst added name none = []
add_item src dst added name (some c) =
    record {
      kind = column;
      action = add;
      object = name;
      source = type_of c;
      target = none;
      danger = false;
      patch =
          "ADD COLUMN "
          ⧺ column_definition c (collation_of src)
          ⧺ position_clause (names src.columns) name (names dst.columns) added;
      revert = "DROP COLUMN " ⧺ escape_ident name;
    }
    ∷ []

abbrev pub drop_item : Table → Table → List String → String → Option Column → List Item
drop_item src dst removed name none = []
drop_item src dst removed name (some c) =
    record {
      kind = column;
      action = drop;
      object = name;
      source = none;
      target = type_of c;
      danger = true;
      patch = "DROP COLUMN " ⧺ escape_ident name;
      revert =
          "ADD COLUMN "
          ⧺ column_definition c (collation_of dst)
          ⧺ position_clause (names dst.columns) name (names src.columns) removed;
    }
    ∷ []

abbrev pub modify_item : Table → Table → Bool → String → Option Column → Option Column → List Item
modify_item src dst sync_comments name none d = []
modify_item src dst sync_comments name (some c) none = []
modify_item src dst sync_comments name (some c) (some d) =
    if same_signature (column_signature c sync_comments) (column_signature d sync_comments)
    then []
    else record {
      kind = column;
      action = modify;
      object = name;
      source = type_of c;
      target = type_of d;
      danger = false;
      patch =
          "MODIFY COLUMN "
          ⧺ column_definition c (collation_of src)
          ⧺ position_clause (names src.columns) name (names dst.columns) [];
      revert =
          "MODIFY COLUMN "
          ⧺ column_definition d (collation_of dst)
          ⧺ position_clause (names dst.columns) name (names src.columns) [];
    }
      ∷ []

unfoldable pub column_items : Table → Table → Bool → List Item
unfolding only_in rename_all each
column_items src dst sync_comments =
    let src_order = names src.columns in
    let dst_order = names dst.columns in
    let removed = only_in dst_order src_order in
    let left =
      rename_all src dst removed
        (record { removed = removed; added = only_in src_order dst_order; items = [] }) in
    left.items
    ++ each (λ n. add_item src dst left.added n (column_named src.columns n)) left.added
    ++ each (λ n. drop_item src dst left.removed n (column_named dst.columns n)) left.removed
    ++ each
        (λ n.
          modify_item src dst sync_comments n (column_named src.columns n)
            (column_named dst.columns n))
        src_order

-- the indexes of one side, of the other, and of both, in the order of their names

abbrev pub add_index : String → Option Index → Option Index → List Item
add_index name none other = []
add_index name (some i) (some j) = []
add_index name (some i) none =
    record {
      kind = index;
      action = add;
      object = name;
      source = some (join ", " i.columns);
      target = none;
      danger = false;
      patch = index_definition i;
      revert = index_drop_clause i;
    }
    ∷ []

abbrev pub drop_index : String → Option Index → Option Index → List Item
drop_index name none other = []
drop_index name (some i) (some j) = []
drop_index name (some i) none =
    record {
      kind = index;
      action = drop;
      object = name;
      source = none;
      target = some (join ", " i.columns);
      danger = name == "PRIMARY";
      patch = index_drop_clause i;
      revert = index_definition i;
    }
    ∷ []

abbrev pub modify_index : String → Option Index → Option Index → List Item
modify_index name none j = []
modify_index name (some i) none = []
modify_index name (some i) (some j) =
    if same_index i j
    then []
    else record {
      kind = index;
      action = modify;
      object = name;
      source = some (join ", " i.columns);
      target = some (join ", " j.columns);
      danger = name == "PRIMARY";
      patch = index_drop_clause j ⧺ "，" ⧺ index_definition i;
      revert = index_drop_clause i ⧺ "，" ⧺ index_definition j;
    }
      ∷ []

abbrev pub index_names : Table → List String
index_names t = sorted_set (map (λ (e : String × Index). e.0) t.indexes)

unfoldable pub index_items : Table → Table → List Item
unfolding each
index_items src dst =
    let of_src = λ (n : String). lookup n src.indexes in
    let of_dst = λ (n : String). lookup n dst.indexes in
    each (λ n. add_index n (of_src n) (of_dst n)) (index_names src)
    ++ each (λ n. drop_index n (of_dst n) (of_src n)) (index_names dst)
    ++ each (λ n. modify_index n (of_src n) (of_dst n)) (index_names src)

abbrev pub option_item : OptionDiff → Item
option_item d = record {
  kind = table_option;
  action = modify;
  object = d.object;
  source = some d.source;
  target = some d.target;
  danger = false;
  patch = d.patch;
  revert = d.revert;
}

unfoldable pub diff_table : Table → Table → Bool → Bool → List Item
unfolding column_items index_items
diff_table src dst sync_auto_inc sync_comments =
    column_items src dst sync_comments
    ++ index_items src dst
    ++ map option_item (table_option_diffs src.options dst.options sync_auto_inc sync_comments)
