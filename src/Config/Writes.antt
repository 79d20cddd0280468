-- ===== src/Config/Writes.antt =====
-- What a batch of settings leaves: `replace` of `SysConfig` in common/config.py.
use dbshield.Common.{
  String, true, false, ◌≡◌, refl, ap, ◌∙◌, inl, inr, Option, none, some, List, [], ◌∷◌, ◌==◌,
  string_eq, lookup, if◌then◌else◌, Bool-cases, eq_iff, or_false,
}
use dbshield.Config.{SysConfig, replace, stripped, append, without, has_key, no_repeats}

abbrev or_else : Option String → Option String → Option String
or_else none y = y
or_else (some x) y = some x

or_none : (x : Option String) → or_else x none ≡ x
or_none none = refl
or_none (some x) = refl

lookup-append :
    (k : String) (xs ys : List (String × String))
    → lookup k (append xs ys) ≡ or_else (lookup k xs) (lookup k ys)
unfolding lookup
lookup-append k [] ys = refl
lookup-append k ((j, v) ∷ xs) ys = elim (Bool-cases (j == k)) [
  | inl e ↦ rw e refl
  | inr e ↦ rw e (lookup-append k xs ys)
]

lookup-has_key :
    (k : String) (xs : List (String × String)) → has_key k xs ≡ false → lookup k xs ≡ none
unfolding lookup has_key
lookup-has_key k [] h = refl
lookup-has_key k ((j, v) ∷ xs) h =
    let (here, later) = or_false (j == k) (has_key k xs) h in rw here (lookup-has_key k xs later)

-- what the deletion of the submitted items leaves
lookup-without :
    (k : String) (objs rows : List (String × String))
    → lookup k (without objs rows) ≡ (if has_key k objs then none else lookup k rows)
unfolding lookup without
lookup-without k objs [] = elim (Bool-cases (has_key k objs)) [
  | inl e ↦ rw e refl
  | inr e ↦ rw e refl
]
lookup-without k objs ((j, v) ∷ rows) = elim (Bool-cases (j == k)) [
  | inl e ↦
      let q : has_key j objs ≡ has_key k objs = ap (λ t. has_key t objs) ((eq_iff j k).0 e) in
      elim (Bool-cases (has_key k objs)) [
        | inl t ↦ rw (q, t) (lookup-without k objs rows ∙ rw t refl)
        | inr t ↦ rw (q, t, e) refl
      ]
  | inr e ↦ elim (Bool-cases (has_key j objs)) [
    | inl t ↦ rw (t, e) (lookup-without k objs rows)
    | inr t ↦ rw (t, e) (lookup-without k objs rows)
  ]
]

together :
    (k : String) (objs rows : List (String × String))
    → or_else (if has_key k objs then none else lookup k rows) (lookup k objs)
      ≡ (if has_key k objs then lookup k objs else lookup k rows)
together k objs rows = elim (Bool-cases (has_key k objs)) [
  | inl t ↦ rw t refl
  | inr t ↦ rw (t, lookup-has_key k objs t) (or_none (lookup k rows))
]

-- A submission without a repeated item succeeds; then an item that was submitted has the value submitted
-- for it, and any other item has the row that it had, or none.
pub lookup-replace :
    (k : String) (items : List (String × String)) (s : SysConfig)
    → no_repeats (stripped items) ≡ true
    → ((replace items s).0 ≡ 0)
      × (lookup k (replace items s).1.rows
          ≡ (if has_key k (stripped items) then lookup k (stripped items) else lookup k s.rows))
unfolding replace
lookup-replace k items s h = rw h (
  refl,
  lookup-append k (without (stripped items) s.rows) (stripped items)
      ∙ ap (λ o. or_else o (lookup k (stripped items))) (lookup-without k (stripped items) s.rows)
      ∙ together k (stripped items) s.rows,
)
