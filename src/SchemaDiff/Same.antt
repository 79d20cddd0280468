-- ===== src/SchemaDiff/Same.antt =====
-- `diff_table` and `diff_schemas` of sql/services/schema_diff_service.py on equal sides.
use mathlib.Core.Path.{◌≡◌, refl}
use text.Mathlib.TextEquality.{eq_iff}
use dbshield.Common.{
  ℕ, String, Bool, true, false, not, ◌||◌, Option, none, some, List, [], ◌∷◌, ◌==◌, string_eq,
  nat_eq, nat_beq_iff, contains, keep, lookup, strip,
}
use dbshield.Common.Strings.{upper}
use dbshield.SchemaDiff.Columns.{
  Column, normalize_collation, or_empty, Signature, same_option, same_bool, same_signature,
  column_signature,
}
use dbshield.SchemaDiff.Indexes.{
  Index, Options, same_names, same_index, engine_diff, collation_diff, comment_diff,
  auto_increment_diff, same_number, table_option_diffs,
}
use dbshield.SchemaDiff.Tables.{
  Table, Item, index_names, only_in, rename_all, each, column_named, names, modify_item, add_index,
  drop_index, modify_index, column_items, index_items, diff_table,
}

str_refl : (s : String) → s == s ≡ true
str_refl s = (eq_iff s s).1 refl

same_option_refl : (s : Option String) → same_option s s ≡ true
same_option_refl none = refl
same_option_refl (some s) = str_refl s

same_bool_refl : (b : Bool) → same_bool b b ≡ true
same_bool_refl true = refl
same_bool_refl false = refl

same_number_refl : (n : Option ℕ) → same_number n n ≡ true
same_number_refl none = refl
same_number_refl (some n) = (nat_beq_iff n n).1 refl

same_names_refl : (xs : List String) → same_names xs xs ≡ true
same_names_refl [] = refl
same_names_refl (x ∷ xs) = rw (str_refl x, same_names_refl xs) refl

same_signature_refl : (s : Signature) → same_signature s s ≡ true
same_signature_refl s =
    rw
      (
        str_refl s.type,
        same_option_refl s.nullable,
        same_option_refl s.default,
        same_bool_refl s.is_auto,
        str_refl s.on_update,
        same_option_refl s.collation,
        str_refl s.comment,
      )
      refl

same_index_refl : (i : Index) → same_index i i ≡ true
unfolding same_index
same_index_refl i =
    rw (same_bool_refl i.unique, str_refl (upper (or_empty i.type)), same_names_refl i.columns) refl

-- the columns

contains-later : (y : String) (ys zs : List String) → (contains (y ∷ ys) y ≡ true)
contains-later y ys zs = rw (str_refl y) refl

or_right : (a b : Bool) → b ≡ true → a || b ≡ true
or_right true b e = refl
or_right false b e = e

pub only_in-empty :
    (xs ys : List String)
    → ((x : String) → contains xs x ≡ true → contains ys x ≡ true)
    → keep (λ n. not (contains ys n)) xs ≡ []
only_in-empty [] ys h = refl
only_in-empty (x ∷ xs) ys h =
    rw (h x (contains-later x xs []))
      (only_in-empty xs ys (λ n e. h n (or_right (x == n) (contains xs n) e)))

each-empty :
    (f : String → List Item) (xs : List String) → ((n : String) → f n ≡ []) → each f xs ≡ []
unfolding each
each-empty f [] h = refl
each-empty f (x ∷ xs) h = rw (h x) (each-empty f xs h)

modify_item-same :
    (t : Table) (sync : Bool) (n : String) (c : Option Column) → modify_item t t sync n c c ≡ []
modify_item-same t sync n none = refl
modify_item-same t sync n (some c) = rw (same_signature_refl (column_signature c sync)) refl

column_items-same : (t : Table) (sync : Bool) → column_items t t sync ≡ []
unfolding column_items only_in rename_all each
column_items-same t sync = rw (only_in-empty (names t.columns) (names t.columns) (λ n e. e)) (
    each-empty (λ n. modify_item t t sync n (column_named t.columns n) (column_named t.columns n))
      (names t.columns) (λ n. modify_item-same t sync n (column_named t.columns n)))

-- the indexes

add_index-same : (n : String) (i : Option Index) → add_index n i i ≡ []
add_index-same n none = refl
add_index-same n (some i) = refl

drop_index-same : (n : String) (i : Option Index) → drop_index n i i ≡ []
drop_index-same n none = refl
drop_index-same n (some i) = refl

modify_index-same : (n : String) (i : Option Index) → modify_index n i i ≡ []
modify_index-same n none = refl
modify_index-same n (some i) = rw (same_index_refl i) refl

index_items-same : (t : Table) → index_items t t ≡ []
unfolding index_items
index_items-same t =
    rw
      (
        each-empty (λ n. add_index n (lookup n t.indexes) (lookup n t.indexes)) (index_names t)
            (λ n. add_index-same n (lookup n t.indexes)),
        each-empty (λ n. drop_index n (lookup n t.indexes) (lookup n t.indexes)) (index_names t)
            (λ n. drop_index-same n (lookup n t.indexes)),
        each-empty (λ n. modify_index n (lookup n t.indexes) (lookup n t.indexes)) (index_names t)
            (λ n. modify_index-same n (lookup n t.indexes)),
      )
      refl

-- the options

table_option_diffs-same :
    (o : Options) (auto comments : Bool) → table_option_diffs o o auto comments ≡ []
unfolding table_option_diffs engine_diff collation_diff comment_diff auto_increment_diff
table_option_diffs-same o true true =
    rw
      (
        str_refl (upper (strip (or_empty o.engine))),
        same_option_refl (normalize_collation o.table_collation),
        str_refl (or_empty o.table_comment),
        same_number_refl o.auto_increment,
      )
      refl
table_option_diffs-same o true false =
    rw
      (
        str_refl (upper (strip (or_empty o.engine))),
        same_option_refl (normalize_collation o.table_collation),
        same_number_refl o.auto_increment,
      )
      refl
table_option_diffs-same o false true =
    rw
      (
        str_refl (upper (strip (or_empty o.engine))),
        same_option_refl (normalize_collation o.table_collation),
        str_refl (or_empty o.table_comment),
      )
      refl
table_option_diffs-same o false false =
    rw
      (
        str_refl (upper (strip (or_empty o.engine))),
        same_option_refl (normalize_collation o.table_collation),
      )
      refl

-- A table has no difference from itself, whatever is to be compared.
pub diff_table-same : (t : Table) (auto comments : Bool) → diff_table t t auto comments ≡ []
unfolding diff_table
diff_table-same t auto comments =
    rw
      (
        column_items-same t comments,
        index_items-same t,
        table_option_diffs-same t.options auto comments,
      )
      refl
