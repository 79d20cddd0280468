-- ===== src/SchemaDiff/Names.antt =====
-- `sorted(set(names))` and the tables of a schema, as sql/services/schema_diff_service.py visits them.
use Prim.Native.Nat.{Ordering, lt, eq, gt}
use Prim.Native.String.{compare}
use mathlib.Core.Path.{◌≡◌, refl, sym, ◌∙◌}
use mathlib.Core.Logic.{◌⊎◌, inl, inr}
use text.Mathlib.TextEquality.{path_by_compare}
use dbshield.Common.{String, some, List, [], ◌∷◌, ◌++◌, ◌==◌, string_eq, eq_iff, lookup, Bool-cases}
use dbshield.Common.Among.{Among, Among-append_left}
use dbshield.Common.Strings.{place, placed, sorted_set}
use dbshield.SchemaDiff.Indexes.{Options}
use dbshield.SchemaDiff.Schemas.{Schema, keys, all_tables}

placed-Among :
    (o : Ordering) (n x y : String) (ys rest : List String)
    → (Among n rest → (n ≡ x) ⊎ Among n ys)
    → Among n (placed o x y ys rest)
    → (n ≡ x) ⊎ Among n (y ∷ ys)
placed-Among lt n x y ys rest h m = m
placed-Among eq n x y ys rest h m = inr m
placed-Among gt n x y ys rest h (inl e) = inr (inl e)
placed-Among gt n x y ys rest h (inr m) = elim (h m) [ inl e ↦ inl e | inr k ↦ inr (inr k) ]

place-Among : (n x : String) (ys : List String) → Among n (place x ys) → (n ≡ x) ⊎ Among n ys
unfolding place
place-Among n x [] m = m
place-Among n x (y ∷ ys) m = placed-Among (compare x y) n x y ys (place x ys) (place-Among n x ys) m

-- a set has no other texts than its list
sorted_set-Among : (n : String) (xs : List String) → Among n (sorted_set xs) → Among n xs
unfolding sorted_set
sorted_set-Among n [] m = m
sorted_set-Among n (x ∷ xs) m = elim (place-Among n x (sorted_set xs) m) [
  | inl e ↦ inl e
  | inr k ↦ inr (sorted_set-Among n xs k)
]

among_placed :
    (o : Ordering) (n x y : String) (ys rest : List String)
    → compare x y ≡ o
    → ((n ≡ x) ⊎ Among n ys → Among n rest)
    → (n ≡ x) ⊎ Among n (y ∷ ys)
    → Among n (placed o x y ys rest)
among_placed lt n x y ys rest e h m = m
among_placed eq n x y ys rest e h (inl k) = inl (k ∙ path_by_compare x y e)
among_placed eq n x y ys rest e h (inr k) = k
among_placed gt n x y ys rest e h (inl k) = inr (h (inl k))
among_placed gt n x y ys rest e h (inr (inl k)) = inl k
among_placed gt n x y ys rest e h (inr (inr k)) = inr (h (inr k))

among_place : (n x : String) (ys : List String) → (n ≡ x) ⊎ Among n ys → Among n (place x ys)
unfolding place
among_place n x [] m = m
among_place n x (y ∷ ys) m =
    among_placed (compare x y) n x y ys (place x ys) refl (among_place n x ys) m

-- and all of them
among_sorted_set : (n : String) (xs : List String) → Among n xs → Among n (sorted_set xs)
unfolding sorted_set
among_sorted_set n [] m = m
among_sorted_set n (x ∷ xs) (inl e) = among_place n x (sorted_set xs) (inl e)
among_sorted_set n (x ∷ xs) (inr m) =
    among_place n x (sorted_set xs) (inr (among_sorted_set n xs m))

among_append : (n : String) (xs ys : List String) → Among n (xs ++ ys) → Among n xs ⊎ Among n ys
among_append n [] ys m = inr m
among_append n (x ∷ xs) ys (inl e) = inl (inl e)
among_append n (x ∷ xs) ys (inr m) = elim (among_append n xs ys m) [
  | inl k ↦ inl (inr k)
  | inr k ↦ inr k
]

module _ {A : Type 0} where
  Among-lookup :
      (n : String) (m : List (String × A)) → Among n (keys m) → (v : A) × (lookup n m ≡ some v)
  unfolding lookup
  Among-lookup n [] h = absurd h
  Among-lookup n ((k, v) ∷ m) (inl e) = (v, let b = (eq_iff k n).1 (sym e) in rw b refl)
  Among-lookup n ((k, v) ∷ m) (inr h) =
      let (u, e) = Among-lookup n m h in
      elim (Bool-cases (k == n)) [ inl b ↦ (v, rw b refl) | inr b ↦ (u, rw b e) ]

-- the tables of one schema that is compared with itself: they are there, and none is left out
pub all_tables-lookup :
    (s : Schema) (n : String)
    → Among n (all_tables s s)
    → (o : Options) × (lookup n s.table_options ≡ some o)
all_tables-lookup s n m =
    let names = keys s.table_options in
    Among-lookup n s.table_options
      (elim (among_append n names names (sorted_set-Among n (names ++ names) m)) [
        | inl k ↦ k
        | inr k ↦ k
      ])

pub all_tables-Among :
    (s : Schema) (n : String) → Among n (keys s.table_options) → Among n (all_tables s s)
all_tables-Among s n m =
    let names = keys s.table_options in
    among_sorted_set n (names ++ names) (Among-append_left n names names m)
