-- ===== src/Common/Returns.antt =====
-- What holds of a method that returned: `Returns m s Q`.
use mathlib.Core.Path.{◌≡◌, refl, sym, ap, ◌∙◌, subst}
use mathlib.Core.Bool.{Bool, true, false}
use dbshield.Common.Tests.{if◌then◌else◌}
use dbshield.Common.Monad.{Exec, Result, ok, err, ◌>>=◌, exec_parts, continue}

module _ {S A : Type 0} where
  abbrev pub Returns : Exec S A → S → (A → S → Type 0) → Type 0
  Returns m s Q = (a : A) → (m s).0 ≡ ok a → Q a (m s).1

  pub Returns-if :
      (b : Bool) (x y : Exec S A) (s : S) (Q : A → S → Type 0)
      → Returns x s Q
      → Returns y s Q
      → Returns (if b then x else y) s Q
  Returns-if true x y s Q p q = p
  Returns-if false x y s Q p q = q

module _ {S A B : Type 0} where
  pub Returns-bind :
      (m : Exec S A) (f : A → Exec S B) (s : S) (P : A → S → Type 0) (Q : B → S → Type 0)
      → Returns m s P
      → ((a : A) (t : S) → P a t → Returns (f a) t Q)
      → Returns (m >>= f) s Q
  Returns-bind m f s P Q p q b h =
      let (a, e, step) = exec_parts m f s h in
      subst (λ r. Q b r.1) (sym step) (q a (m s).1 (p a e) b (sym (ap (λ r. r.0) step) ∙ h))

  -- a step that may raise and changes nothing
  pub Returns-lift :
      (r : Result A) (f : A → Exec S B) (s : S) (Q : B → S → Type 0)
      → ((a : A) → r ≡ ok a → Returns (f a) s Q)
      → Returns (continue r f) s Q
  Returns-lift (ok a) f s Q q = q a refl
  Returns-lift (err c) f s Q q = λ b h. cc
