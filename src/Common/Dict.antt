-- ===== src/Common/Dict.antt =====
-- A Python `dict` as an association list: a write replaces the first entry of its key or goes last.
use mathlib.Core.Path.{◌≡◌, refl}
use mathlib.Core.Option.{Option, none, some}
use mathlib.Core.List.{List, [], ◌∷◌}
use native.Mathlib.Omega.{arith}
use dbshield.Common.Tests.{Eq, ◌==◌, if◌then◌else◌}

module _ {ℓ} {K : Type ℓ} {V : Type ℓ} ⦃e : Eq K⦄ where
  unfoldable pub lookup : K → List (K × V) → Option V
  lookup k [] = none
  lookup k ((j, v) ∷ m) = let rest = lookup k m in if j == k then some v else rest

  unfoldable pub insert : K → V → List (K × V) → List (K × V)
  insert k v [] = (k, v) ∷ []
  insert k v ((j, w) ∷ m) = let rest = insert k v m in if j == k then (k, v) ∷ m else (j, w) ∷ rest

  -- a later read of any key
  pub lookup-insert :
      (key other : K) (value : V) (dict : List (K × V))
      → lookup other (insert key value dict)
        ≡ (if key == other then some value else lookup other dict)
  unfolding insert lookup
  lookup-insert key other value [] = refl
  lookup-insert key other value ((first, kept) ∷ dict) =
      let later = lookup-insert key other value dict in
      ground (arith, e.same_iff first other, e.same_iff first key, e.same_iff key other, later)
