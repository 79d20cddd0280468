-- ===== src/Common/Integers.antt =====
-- Python's `int` as far as the program compares it.
use mathlib.Core.Path.{◌≡◌, refl}
use mathlib.Core.Logic.{inl, inr}
use mathlib.Core.Bool.{Bool, true, false}
use native.Mathlib.Omega.{arith}
use dbshield.Common.Tests.{leb, nat_beq, if◌then◌else◌, Bool-cases}
use dbshield.Common.Text.{ℤ, pos, negsuc}

abbrev pub le_int : ℤ → ℤ → Bool
le_int (pos a) (pos b) = leb a b
le_int (pos a) (negsuc b) = false
le_int (negsuc a) (pos b) = true
le_int (negsuc a) (negsuc b) = leb b a

-- `not n`
abbrev pub is_zero : ℤ → Bool
is_zero (pos n) = nat_beq n 0
is_zero (negsuc n) = false

-- `min(a, b)`
abbrev pub min_int : ℤ → ℤ → ℤ
min_int a b = if le_int a b then a else b

pub le_int_refl : (a : ℤ) → le_int a a ≡ true
le_int_refl (pos a) = ground arith
le_int_refl (negsuc a) = ground arith

pub le_int_trans : (a b c : ℤ) → le_int a b ≡ true → le_int b c ≡ true → le_int a c ≡ true
le_int_trans (pos a) (pos b) (pos c) p q = ground arith
le_int_trans (pos a) (pos b) (negsuc c) p q = cc
le_int_trans (pos a) (negsuc b) c p q = cc
le_int_trans (negsuc a) (pos b) (pos c) p q = refl
le_int_trans (negsuc a) (pos b) (negsuc c) p q = cc
le_int_trans (negsuc a) (negsuc b) (pos c) p q = refl
le_int_trans (negsuc a) (negsuc b) (negsuc c) p q = ground arith

le_int_total : (a b : ℤ) → le_int a b ≡ false → le_int b a ≡ true
le_int_total (pos a) (pos b) p = ground arith
le_int_total (pos a) (negsuc b) p = refl
le_int_total (negsuc a) (pos b) p = cc
le_int_total (negsuc a) (negsuc b) p = ground arith

pub min_int-le_left : (a b : ℤ) → le_int (min_int a b) a ≡ true
min_int-le_left a b = elim (Bool-cases (le_int a b)) [
  | inl e ↦ rw e (le_int_refl a)
  | inr e ↦ rw e (le_int_total a b e)
]

pub min_int-le_right : (a b : ℤ) → le_int (min_int a b) b ≡ true
min_int-le_right a b = elim (Bool-cases (le_int a b)) [
  | inl e ↦ rw (e, e) refl
  | inr e ↦ rw e (le_int_refl b)
]

-- the smaller one is one of the two
pub is_zero-min_int :
    (a b : ℤ) → is_zero a ≡ false → is_zero b ≡ false → is_zero (min_int a b) ≡ false
is_zero-min_int a b p q = elim (Bool-cases (le_int a b)) [
  | inl e ↦ rw (e, p) refl
  | inr e ↦ rw (e, q) refl
]
