-- ===== src/Common/Checks.antt =====
-- Code that reads and may raise, without a state to change.
use mathlib.Core.Path.{◌≡◌, refl}
use mathlib.Core.Bool.{Bool, true, false}
use mathlib.Core.Option.{Option, none, some}
use dbshield.Common.Monad.{Exc, does_not_exist, Result, ok, err}

module _ {A B : Type 0} where
  infixl 5 ◌>>=◌ ◌>>◌
  abbrev pub ◌>>=◌ : Result A → (A → Result B) → Result B
  ok a >>= f = f a
  err c >>= f = err c

  abbrev pub ◌>>◌ : Result A → Result B → Result B
  m >> k = m >>= λ _. k

module _ {A : Type 0} where
  abbrev pub or_raise : Option A → Exc → Result A
  or_raise none c = err c
  or_raise (some a) c = ok a

  -- `except X.DoesNotExist: return default`
  abbrev pub if_missing : Result A → A → Result A
  if_missing (ok a) default = ok a
  if_missing (err does_not_exist) default = ok default
  if_missing (err c) default = err c

  -- `except X.DoesNotExist: raise e`
  abbrev pub missing_as : Result A → Exc → Result A
  missing_as (ok a) e = ok a
  missing_as (err does_not_exist) e = err e
  missing_as (err c) e = err c

-- `if test: raise c`
abbrev pub raise_if : Bool → Exc → Result (Unit {0})
raise_if true c = err c
raise_if false c = ok tt

pub raise_if_ok : (b : Bool) (c : Exc) → raise_if b c ≡ ok tt → b ≡ false
raise_if_ok true c h = cc
raise_if_ok false c h = refl

-- a chain that returned went through its first step
pub chain_parts :
    {A B : Type 0} (first : Result A) (later : A → Result B) {result : B}
    → (first >>= later) ≡ ok result
    → (a : A) × (first ≡ ok a) × (later a ≡ ok result)
chain_parts (err e) later h = cc
chain_parts (ok a) later h = (a, refl, h)
