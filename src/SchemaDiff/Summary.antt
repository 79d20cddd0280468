-- ===== src/SchemaDiff/Summary.antt =====
-- The report of `diff_schemas` of sql/services/schema_diff_service.py: its counts, and two equal
-- schemas.
use mathlib.Core.Path.{◌≡◌, refl, sym, ap, ◌∙◌}
use native.Mathlib.Omega.{arith}
use dbshield.Common.{
  ℕ, ◌+◌, String, Bool, true, false, Option, none, some, List, [], ◌∷◌, ◌++◌, string_eq, length,
  length-append, if◌then◌else◌, lookup,
}
use dbshield.SchemaDiff.Indexes.{Options}
use dbshield.SchemaDiff.Tables.{Item, diff_table}
use dbshield.SchemaDiff.Schemas.{
  Schema, Status, TableDiff, Summary, Gathered, table_of, one_sided, two_sided, visit, visit_all,
  nothing, all_tables, diff_schemas, diff, same, only_in_source, only_in_target,
}

-- how many tables of the list have a status
abbrev pub is_status : Status → Status → Bool
is_status only_in_source only_in_source = true
is_status only_in_target only_in_target = true
is_status diff diff = true
is_status same same = true
is_status s t = false

abbrev pub tally : Status → List TableDiff → ℕ
tally s [] = 0
tally s (t ∷ ts) = (if is_status s t.status then 1 else 0) + tally s ts

abbrev pub Counted : Summary → List TableDiff → Type 0
Counted s ts =
    (s.diff ≡ tally diff ts)
    × (s.same ≡ tally same ts)
    × (s.missing ≡ tally only_in_source ts + tally only_in_target ts)
    × (s.total ≡ length ts)
    × (s.total ≡ s.diff + s.same + s.missing)

tally-append :
    (s : Status) (ts : List TableDiff) (t : TableDiff)
    → tally s (ts ++ t ∷ []) ≡ tally s ts + tally s (t ∷ [])
tally-append s [] t = ground arith
tally-append s (u ∷ ts) t = let e = tally-append s ts t in rw e (omega arith)

-- one more table, counted once
Counted-append :
    (s s' : Summary) (ts : List TableDiff) (t : TableDiff)
    → Counted s ts
    → s'.diff ≡ s.diff + tally diff (t ∷ [])
    → s'.same ≡ s.same + tally same (t ∷ [])
    → s'.missing ≡ s.missing + (tally only_in_source (t ∷ []) + tally only_in_target (t ∷ []))
    → s'.total ≡ s.total + 1
    → tally diff (t ∷ [])
        + tally same (t ∷ [])
        + (tally only_in_source (t ∷ []) + tally only_in_target (t ∷ []))
      ≡ 1
    → Counted s' (ts ++ t ∷ [])
Counted-append s s' ts t (a, b, c, d, e) f g h i j =
    let da = tally-append diff ts t in
    let sa = tally-append same ts t in
    let so = tally-append only_in_source ts t in
    let ta = tally-append only_in_target ts t in
    let la = length-append ts (t ∷ []) in
    (omega arith, omega arith, omega arith, i ∙ ap (λ n. n + 1) d ∙ sym la, omega arith)

Counted-one_sided :
    (name : String) (in_src in_dst : Bool) (g : Gathered)
    → Counted g.summary g.tables
    → Counted (one_sided name in_src in_dst g).summary (one_sided name in_src in_dst g).tables
Counted-one_sided name true in_dst g c =
    Counted-append g.summary (one_sided name true in_dst g).summary g.tables _ c (omega arith)
      (omega arith) (omega arith) refl refl
Counted-one_sided name false in_dst g c =
    Counted-append g.summary (one_sided name false in_dst g).summary g.tables _ c (omega arith)
      (omega arith) (omega arith) refl refl

Counted-two_sided :
    (name : String) (items : List Item) (g : Gathered)
    → Counted g.summary g.tables
    → Counted (two_sided name items g).summary (two_sided name items g).tables
Counted-two_sided name [] g c =
    Counted-append g.summary (two_sided name [] g).summary g.tables _ c (omega arith) (omega arith)
      (omega arith) refl refl
Counted-two_sided name (i ∷ is) g c =
    Counted-append g.summary (two_sided name (i ∷ is) g).summary g.tables _ c (omega arith)
      (omega arith) (omega arith) refl refl

module _ (src dst : Schema) (sync_auto_inc sync_comments : Bool) where
  abbrev visits : List String → Gathered → Gathered
  visits = visit_all src dst sync_auto_inc sync_comments

  Counted-visit :
      (name : String) (s d : Option Options) (g : Gathered)
      → Counted g.summary g.tables
      → Counted
          (visit src dst sync_auto_inc sync_comments name s d g).summary
          (visit src dst sync_auto_inc sync_comments name s d g).tables
  Counted-visit name none none g c = Counted-one_sided name false false g c
  Counted-visit name none (some d) g c = Counted-one_sided name false true g c
  Counted-visit name (some s) none g c = Counted-one_sided name true false g c
  Counted-visit name (some s) (some d) g c =
      Counted-two_sided name
        (diff_table (table_of src name s) (table_of dst name d) sync_auto_inc sync_comments) g c

  Counted-visits :
      (more : List String) (g : Gathered)
      → Counted g.summary g.tables
      → Counted (visits more g).summary (visits more g).tables
  unfolding visit_all
  Counted-visits [] g c = c
  Counted-visits (name ∷ more) g c =
      let s = lookup name src.table_options in
      let d = lookup name dst.table_options in
      Counted-visits more (visit src dst sync_auto_inc sync_comments name s d g)
        (Counted-visit name s d g c)

-- The counts of a report of `diff_schemas` are those of its list of tables: `diff` and `same` count
-- the tables with these statuses, `missing` those that one side has alone, `total` all of them, which
-- is the sum of the three.
pub diff_schemas-Counted :
    (src dst : Schema) (src_objects dst_objects : List (String × List String))
    (auto comments : Bool)
    → Counted
        (diff_schemas src dst src_objects dst_objects auto comments).summary
        (diff_schemas src dst src_objects dst_objects auto comments).tables
unfolding diff_schemas
diff_schemas-Counted src dst src_objects dst_objects auto comments =
    Counted-visits src dst auto comments (all_tables src dst) nothing
      (refl, refl, omega arith, refl, omega arith)
