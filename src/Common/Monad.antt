-- ===== src/Common/Monad.antt =====
-- Methods that change objects or rows and may raise. What was written before a raise stays
-- written, so the state comes back beside the error too; a transaction puts it back.
use Prim.Native.String.{String}
use mathlib.Core.Path.{◌≡◌, refl}

pub data Exc : Type 0 where
  audit_exception : String → Exc
  exception : String → Exc
  runtime_error : String → Exc
  validation_error : String → Exc
  value_error does_not_exist index_error integrity_error : Exc
  json_decode_error type_error attribute_error permission_denied : Exc

pub data Result {ℓ} (A : Type ℓ) : Type ℓ where
  ok : A → Result A
  err : Exc → Result A

abbrev pub Exec : Type 0 → Type 0 → Type 0
Exec S A = S → Result A × S

module _ {S A : Type 0} where
  abbrev pub pure : A → Exec S A
  pure a s = (ok a, s)

  abbrev pub raise : Exc → Exec S A
  raise c s = (err c, s)

  abbrev pub lift : Result A → Exec S A
  lift r s = (r, s)

  abbrev pub gets : (S → A) → Exec S A
  gets f s = (ok (f s), s)

  -- a method that only reads the state
  abbrev pub reads : (S → Result A) → Exec S A
  reads f s = (f s, s)

  -- `with transaction.atomic():` an exception rolls the rows back
  abbrev pub committed : Result A → S → S → Result A × S
  committed (ok a) after before = (ok a, after)
  committed (err c) after before = (err c, before)

  abbrev pub atomic : Exec S A → Exec S A
  atomic m s = committed (m s).0 (m s).1 s

module _ {S A B : Type 0} where
  abbrev pub continue : Result A → (A → Exec S B) → Exec S B
  continue (ok a) f s = f a s
  continue (err c) f s = (err c, s)

  infixl 5 ◌>>=◌ ◌>>◌
  abbrev pub ◌>>=◌ : Exec S A → (A → Exec S B) → Exec S B
  ◌>>=◌ m f s = let (r, t) = m s in continue r f t

  abbrev pub ◌>>◌ : Exec S A → Exec S B → Exec S B
  m >> k = m >>= λ _. k

module _ {S : Type 0} where
  abbrev pub modify : (S → S) → Exec S (Unit {0})
  modify f s = (ok tt, f s)

  abbrev pub skip : Exec S (Unit {0})
  skip s = (ok tt, s)

-- A chain that returned went through its first step.
continue_parts :
    {S A B : Type 0} (r : Result A) (f : A → Exec S B) (t : S) {b : B}
    → (continue r f t).0 ≡ ok b
    → (a : A) × (r ≡ ok a) × (continue r f t ≡ f a t)
continue_parts (ok a) f t h = (a, refl, refl)
continue_parts (err c) f t h = cc

pub exec_parts :
    {S A B : Type 0} (m : Exec S A) (f : A → Exec S B) (s : S) {b : B}
    → ((m >>= f) s).0 ≡ ok b
    → (a : A) × ((m s).0 ≡ ok a) × ((m >>= f) s ≡ f a (m s).1)
exec_parts m f s h = continue_parts (m s).0 f (m s).1 h
