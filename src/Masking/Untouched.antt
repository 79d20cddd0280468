-- ===== src/Masking/Untouched.antt =====
-- `data_masking` of sql/utils/data_masking.py: the cells of columns that no rule hits.
use mathlib.Core.Path.{◌≡◌, refl, sym, ap, ap₂, ◌∙◌}
use mathlib.Core.Logic.{◌≢◌}
use dbshield.Common.{
  ℕ, zero, suc, String, Bool, true, false, ◌||◌, Option, none, some, List, [], ◌∷◌, ◌==◌, nat_eq,
  map, any, if◌then◌else◌, Result, ok, err, Exc, arith,
}
use dbshield.Common.Checks.{chain_parts}
use dbshield.Privileges.State.{Instance}
use dbshield.Masking.Regex.{Cell, Groups, MaskingRule, regex}
use dbshield.Masking.Columns.{SelectItem, HitColumn, analyze_query_tree}
use dbshield.Masking.Rows.{
  SqlResult, MaskingRows, Token, Outcome, rule_for, mask_cell, keep_going, mask_rows, mask_columns,
  select_list, with_items, data_masking, mask_hits, ended, assigned_by, masked_by, unless_failed,
  mask_column, begun,
}

-- the cell of a row at a column, and the column of all rows
unfoldable pub cell_at : ℕ → List Cell → Option Cell
cell_at j [] = none
cell_at zero (c ∷ cs) = some c
cell_at (suc j) (c ∷ cs) = cell_at j cs

abbrev pub column : ℕ → List (List Cell) → List (Option Cell)
column j rows = map (cell_at j) rows

or_false : (a b : Bool) → (a || b) ≡ false → (a ≡ false) × (b ≡ false)
or_false true b h = cc h
or_false false b h = (refl, h)

differs : (m n : ℕ) → (m == n) ≡ false → m ≢ n
differs m n h = ground arith

pub same_row : (x y : List Cell) → ok x ≡ ok y → x ≡ y
same_row x y h = cc h

if-column :
    (b : Bool) (x y : SqlResult × MaskingRows) (j : ℕ) (rows : List (List Cell))
    → column j x.0.rows ≡ column j rows
    → column j y.0.rows ≡ column j rows
    → column j (if b then x else y).0.rows ≡ column j rows
if-column true x y j rows h k = h
if-column false x y j rows h k = k

module _ (re_search : String → String → Result (Option Groups)) where
  mask_cell-others :
      (rule : MaskingRule) (i j : ℕ) (row masked : List Cell)
      → i ≢ j
      → mask_cell re_search rule i row ≡ ok masked
      → cell_at j masked ≡ cell_at j row
  unfolding mask_cell cell_at
  mask_cell-others rule i j [] masked d h = cc h
  mask_cell-others rule zero zero (c ∷ cs) masked d h = absurd (d refl)
  mask_cell-others rule zero (suc j) (c ∷ cs) masked d h =
      let (m, e, f) = chain_parts (regex re_search rule c) (λ x. ok (x ∷ cs)) h in
      ap (cell_at (suc j)) (same_row masked (m ∷ cs) (sym f))
  mask_cell-others rule (suc i) zero (c ∷ cs) masked d h =
      let (m, e, f) = chain_parts (mask_cell re_search rule i cs) (λ x. ok (c ∷ x)) h in
      ap (cell_at zero) (same_row masked (c ∷ m) (sym f))
  mask_cell-others rule (suc i) (suc j) (c ∷ cs) masked d h =
      let (m, e, f) = chain_parts (mask_cell re_search rule i cs) (λ x. ok (c ∷ x)) h in
      ap (cell_at (suc j)) (same_row masked (c ∷ m) (sym f))
      ∙ mask_cell-others rule i j cs m (λ g. d (ap suc g)) e

  keep_going-column :
      (r : Result (List Cell)) (j : ℕ) (row : List Cell) (rest : List (List Cell))
      (later : Option Exc × List (List Cell))
      → ((masked : List Cell) → r ≡ ok masked → cell_at j masked ≡ cell_at j row)
      → column j later.1 ≡ column j rest
      → column j (keep_going re_search r row rest later).1 ≡ cell_at j row ∷ column j rest
  keep_going-column (ok m) j row rest (e, l) h k = ap₂ (λ x y. x ∷ y) (h m refl) k
  keep_going-column (err c) j row rest (e, l) h k = refl

  mask_rows-column :
      (rule : MaskingRule) (i j : ℕ) (rows : List (List Cell))
      → i ≢ j
      → column j (mask_rows re_search rule i rows).1 ≡ column j rows
  unfolding mask_rows
  mask_rows-column rule i j [] d = refl
  mask_rows-column rule i j (row ∷ rest) d =
      keep_going-column (mask_cell re_search rule i row) j row rest
        (mask_rows re_search rule i rest) (λ m e. mask_cell-others rule i j row m d e)
        (mask_rows-column rule i j rest d)

  assigned_by-column :
      (x : Option Exc × List (List Cell)) (j : ℕ) (o : Outcome)
      → column j x.1 ≡ column j o.rows
      → column j (assigned_by re_search x o).rows ≡ column j o.rows
  assigned_by-column (none, rows) j o h = h
  assigned_by-column (some c, rows) j o h = h

  masked_by-column :
      (x : Option MaskingRule × List MaskingRule) (i j : ℕ) (o : Outcome)
      → i ≢ j
      → column j (masked_by re_search x i o).rows ≡ column j o.rows
  masked_by-column (none, rules) i j o d = refl
  masked_by-column (some rule, rules) i j o d =
      assigned_by-column (mask_rows re_search rule i o.rows) j (record o { rules = rules })
        (mask_rows-column rule i j o.rows d)

  unless_failed-column :
      (e : Option Exc) (later o : Outcome) (j : ℕ)
      → column j later.rows ≡ column j o.rows
      → column j (unless_failed re_search e later o).rows ≡ column j o.rows
  unless_failed-column none later o j h = h
  unless_failed-column (some c) later o j h = refl

  mask_columns-column :
      (hs : List HitColumn) (o : Outcome) (j : ℕ)
      → any (λ h. h.index == j) hs ≡ false
      → column j (mask_columns re_search hs o).rows ≡ column j o.rows
  unfolding mask_columns mask_column
  mask_columns-column [] o j a = refl
  mask_columns-column (h ∷ hs) o j a =
      mask_columns-column hs (mask_column re_search h o) j (or_false (h.index == j) _ a).1
      ∙ unless_failed-column o.failure
          (masked_by re_search (rule_for h.rule_type o.rules) h.index o) o j
          (masked_by-column (rule_for h.rule_type o.rules) h.index j o
            (differs h.index j (or_false (h.index == j) _ a).0))

  module _ (parse : String → Result (List Token))
      (query_data_masking : Instance → String → String → Result (List SelectItem))
      (repeated : List SelectItem → Result (List SelectItem)) (message : Exc → String) where
    ended-column :
        (failure : Option Exc) (assigned : Bool) (j : ℕ) (rows : List (List Cell))
        (rules : List MaskingRule) (r : SqlResult)
        → column j rows ≡ column j r.rows
        → column j
            (ended re_search parse query_data_masking repeated message r
              (record { failure = failure; rows = rows; assigned = assigned; rules = rules })).rows
          ≡ column j r.rows
    ended-column none true j rows rules r h = h
    ended-column none false j rows rules r h = refl
    ended-column (some c) true j rows rules r h = h
    ended-column (some c) false j rows rules r h = refl

    -- the columns that a rule hits, none where the query cannot be read
    abbrev pub hits_of : Result (List SelectItem) → Instance → MaskingRows → List HitColumn
    hits_of (err c) instance db = []
    hits_of (ok items) instance db = analyze_query_tree items instance db.columns

    mask_hits-column :
        (hs : List HitColumn) (j : ℕ) (r : SqlResult) (db : MaskingRows)
        → any (λ h. h.index == j) hs ≡ false
        → column j (mask_hits re_search parse query_data_masking repeated message hs r db).0.rows
          ≡ column j r.rows
    mask_hits-column hs j r db a =
        let o = mask_columns re_search hs (begun re_search r.rows db.rules) in
        if-column _ _ _ j r.rows refl (
          ended-column o.failure o.assigned j o.rows o.rules _
            (mask_columns-column hs (begun re_search r.rows db.rules) j a))

    with_items-column :
        (items : Result (List SelectItem)) (instance : Instance) (j : ℕ) (r : SqlResult)
        (db : MaskingRows)
        → any (λ h. h.index == j) (hits_of items instance db) ≡ false
        → column j
            (with_items re_search parse query_data_masking repeated message items instance r
              db).0.rows
          ≡ column j r.rows
    with_items-column (err c) instance j r db a = refl
    with_items-column (ok items) instance j r db a =
        mask_hits-column (analyze_query_tree items instance db.columns) j r db a

    -- Whatever the parsers answer and whether or not an error ends it, `data_masking` leaves in every
    -- column of the result that no rule hits the cell of each row as it was, so that there are as many
    -- rows, in their order.
    pub data_masking-column :
        (instance : Instance) (db_name sql : String) (r : SqlResult) (db : MaskingRows) (j : ℕ)
        → any
            (λ h. h.index == j)
            (hits_of
              (select_list re_search parse query_data_masking repeated message instance db_name sql
                r)
              instance
              db)
          ≡ false
        → column j
            (data_masking re_search parse query_data_masking repeated message instance db_name sql r
              db).0.rows
          ≡ column j r.rows
    unfolding data_masking
    data_masking-column instance db_name sql r db j a =
        with_items-column
          (select_list re_search parse query_data_masking repeated message instance db_name sql r)
          instance j r db a
