-- ===== src/Common/Among.antt =====
-- Where an element of a list stands, and what the searches of a list find.
use mathlib.Core.Path.{◌≡◌, refl, sym, ap, ◌∙◌, subst}
use mathlib.Core.Logic.{◌⊎◌, inl, inr}
use mathlib.Core.Bool.{Bool, true, false}
use mathlib.Core.Option.{some}
use mathlib.Core.List.{List, [], ◌∷◌, ◌++◌}
use dbshield.Common.Tests.{Bool-cases}
use dbshield.Common.Lists.{keep, find}

module _ {A : Type 0} where
  abbrev pub Among : A → List A → Type 0
  Among x [] = ⊥
  Among x (y ∷ ys) = (x ≡ y) ⊎ Among x ys

  -- every element has the property
  abbrev pub All {κ} : (A → Type κ) → List A → Type κ
  All P [] = Unit
  All P (x ∷ xs) = P x × All P xs

  pub All-Among {κ} : (P : A → Type κ) (x : A) (xs : List A) → All P xs → Among x xs → P x
  All-Among P x [] h m = elim m [ ]
  All-Among P x (y ∷ ys) (p, h) (inl e) = subst P (sym e) p
  All-Among P x (y ∷ ys) (p, h) (inr m) = All-Among P x ys h m

  pub All-map {κ η} :
      {P : A → Type κ} {Q : A → Type η} (f : (x : A) → P x → Q x) (xs : List A)
      → All P xs
      → All Q xs
  All-map f [] h = tt
  All-map f (x ∷ xs) (p, h) = (f x p, All-map f xs h)

  pub Among-append_left : (x : A) (xs ys : List A) → Among x xs → Among x (xs ++ ys)
  Among-append_left x [] ys m = elim m [ ]
  Among-append_left x (z ∷ xs) ys (inl e) = inl e
  Among-append_left x (z ∷ xs) ys (inr m) = inr (Among-append_left x xs ys m)

  pub Among-append_last : (x : A) (xs : List A) → Among x (xs ++ x ∷ [])
  Among-append_last x [] = inl refl
  Among-append_last x (y ∷ xs) = inr (Among-append_last x xs)

  first_kept :
      (p : A → Bool) (x y : A) (ys ks : List A)
      → p y ≡ true
      → (Among x ks → Among x ys × (p x ≡ true))
      → Among x (y ∷ ks)
      → Among x (y ∷ ys) × (p x ≡ true)
  first_kept p x y ys ks e ih (inl f) = (inl f, ap p f ∙ e)
  first_kept p x y ys ks e ih (inr n) = let (l, q) = ih n in (inr l, q)

  pub Among-keep :
      (p : A → Bool) (x : A) (xs : List A) → Among x (keep p xs) → Among x xs × (p x ≡ true)
  Among-keep p x [] m = elim m [ ]
  Among-keep p x (y ∷ ys) m = elim (Bool-cases (p y)) [
    | inl e ↦ first_kept p x y ys (keep p ys) e (Among-keep p x ys) (rw e at m)
    | inr e ↦ let (n, q) = Among-keep p x ys (rw e at m) in (inr n, q)
  ]

  kept_first :
      (p : A → Bool) (x y : A) (ys : List A)
      → (Among x ys → Among x (keep p ys))
      → p x ≡ true
      → Among x (y ∷ ys)
      → Among x (keep p (y ∷ ys))
  kept_first p x y ys ih h (inl e) = rw (ap p (sym e) ∙ h) (inl e)
  kept_first p x y ys ih h (inr m) = elim (Bool-cases (p y)) [
    | inl f ↦ rw f (inr (ih m))
    | inr f ↦ rw f (ih m)
  ]

  pub keep-Among :
      (p : A → Bool) (x : A) (xs : List A) → Among x xs → p x ≡ true → Among x (keep p xs)
  keep-Among p x [] m h = elim m [ ]
  keep-Among p x (y ∷ ys) m h = kept_first p x y ys (λ n. keep-Among p x ys n h) h m

  here :
      (p : A → Bool) (x y : A) (ys : List A)
      → some y ≡ some x
      → p y ≡ true
      → Among x (y ∷ ys) × (p x ≡ true)
  here p x y ys e f = (inl (cc e), cc (e, f))

  not_here :
      (p : A → Bool) (x y : A) (ys : List A)
      → p y ≡ false
      → p x ≡ true
      → Among x (y ∷ ys)
      → Among x ys
  not_here p x y ys f h (inl e) = cc (ap p e, f, h)
  not_here p x y ys f h (inr m) = m

  pub Among-find :
      (p : A → Bool) (x : A) (xs : List A)
      → Among x xs
      → p x ≡ true
      → (y : A) × (find p xs ≡ some y)
  Among-find p x [] m h = elim m [ ]
  Among-find p x (y ∷ ys) m h = elim (Bool-cases (p y)) [
    | inl f ↦ (y, rw f refl)
    | inr f ↦ let (z, q) = Among-find p x ys (not_here p x y ys f h m) h in (z, rw f q)
  ]

  -- what `find` answers, and when it answers
  pub find-Among :
      (p : A → Bool) (xs : List A) (x : A) → find p xs ≡ some x → Among x xs × (p x ≡ true)
  find-Among p [] x e = cc
  find-Among p (y ∷ ys) x e = elim (Bool-cases (p y)) [
    | inl f ↦ here p x y ys (rw f at e) f
    | inr f ↦ let (m, q) = find-Among p ys x (rw f at e) in (inr m, q)
  ]
