-- ===== src/SchemaDiff/Quoting.antt =====
-- `_escape_ident` of sql/services/schema_diff_service.py, read back the way MySQL reads a quoted name:
-- a doubled backtick is one backtick of the name, a single one ends it.
use mathlib.Core.Path.{◌≡◌, refl, ap, ◌∙◌}
use mathlib.Core.Logic.{inl, inr}
use text.Mathlib.TextLemmas.{nil-append, cons-append, append_assoc}
use Prim.Native.Char.{char}
use dbshield.Common.{
  ℕ, String, Char, code, ◌⧺◌, true, false, Option, none, some, ◌==◌, nat_eq, if◌then◌else◌,
  Bool-cases,
}
use dbshield.SchemaDiff.Columns.{doubled, escape_ident, tick}

abbrev pub with_char : Char → Option (String × String) → Option (String × String)
with_char c none = none
with_char c (some (text, rest)) = some (String.◌∷◌ c text, rest)

-- the text up to the closing quote, and what follows it
unfoldable pub read_quoted : ℕ → String → Option (String × String)
read_quoted q String.[] = none
read_quoted q (String.◌∷◌ c String.[]) = if code c == q then some ("", "") else none
read_quoted q (String.◌∷◌ c (String.◌∷◌ d s)) =
    let here = read_quoted q s in
    let next = read_quoted q (String.◌∷◌ d s) in
    if code c == q
    then if code d == q then with_char c here else some ("", String.◌∷◌ d s)
    else with_char c next

-- the text does not begin with the quote
abbrev pub IsOther : ℕ → String → Type 0
IsOther q String.[] = Unit
IsOther q (String.◌∷◌ c s) = code c == q ≡ false

read_quoted-other :
    (q : ℕ) (c : Char) (s : String)
    → code c == q ≡ false
    → read_quoted q (String.◌∷◌ c s) ≡ with_char c (read_quoted q s)
unfolding read_quoted
read_quoted-other q c String.[] e = rw e refl
read_quoted-other q c (String.◌∷◌ d s) e = rw e refl

read_quoted-doubled :
    (q : ℕ) (c : Char) (s : String)
    → code c == q ≡ true
    → read_quoted q (String.◌∷◌ c (String.◌∷◌ c s)) ≡ with_char c (read_quoted q s)
unfolding read_quoted
read_quoted-doubled q c s e = rw e refl

read_quoted-end :
    (q : ℕ) (c : Char) (rest : String)
    → code c == q ≡ true
    → IsOther q rest
    → read_quoted q (String.◌∷◌ c rest) ≡ some ("", rest)
unfolding read_quoted
read_quoted-end q c String.[] e h = rw e refl
read_quoted-end q c (String.◌∷◌ d s) e h = rw (e, h) refl

-- the closing quote `c` and the rest
round_trip :
    (q : ℕ) (c : Char) (name rest : String)
    → code c == q ≡ true
    → IsOther q rest
    → read_quoted q (doubled q name ⧺ String.◌∷◌ c rest) ≡ some (name, rest)
unfolding doubled
round_trip q c String.[] rest e h =
    rw (nil-append (String.◌∷◌ c rest)) (read_quoted-end q c rest e h)
round_trip q c (String.◌∷◌ d name) rest e h =
    let ih = round_trip q c name rest e h in
    let tail = String.◌∷◌ c rest in
    elim (Bool-cases (code d == q)) [
      | inl f ↦
          rw
            (
              f,
              cons-append d (String.◌∷◌ d (doubled q name)) tail,
              cons-append d (doubled q name) tail,
              read_quoted-doubled q d (doubled q name ⧺ tail) f,
              ih,
            )
            refl
      | inr f ↦
          rw
            (
              f,
              cons-append d (doubled q name) tail,
              read_quoted-other q d (doubled q name ⧺ tail) f,
              ih,
            )
            refl
    ]

-- a quoted text at the beginning
abbrev pub read_name : ℕ → String → Option (String × String)
read_name q String.[] = none
read_name q (String.◌∷◌ c s) = if code c == q then read_quoted q s else none

around :
    (q : ℕ) (c : Char) (text rest : String)
    → code c == q ≡ true
    → IsOther q rest
    → read_name q ((String.◌∷◌ c String.[] ⧺ (doubled q text ⧺ String.◌∷◌ c String.[])) ⧺ rest)
      ≡ some (text, rest)
around q c text rest e h =
    let last = String.◌∷◌ c String.[] in
    let body = doubled q text in
    ap (read_name q) (
      ap (λ s. s ⧺ rest)
        (cons-append c String.[] (body ⧺ last) ∙ ap (String.◌∷◌ c) (nil-append (body ⧺ last)))
      ∙ cons-append c (body ⧺ last) rest
      ∙ ap (String.◌∷◌ c) (
          append_assoc body last rest
          ∙ ap (λ s. body ⧺ s)
              (cons-append c String.[] rest ∙ ap (String.◌∷◌ c) (nil-append rest))))
    ∙ rw e (round_trip q c text rest e h)

-- Whatever characters a name has, `_escape_ident` writes it so that a reader of MySQL's quoted names, for
-- whom a doubled backtick is one, a single one ends the name, and a backslash is a character like any
-- other, reads the whole name back and stops right after it, in front of any text that does not
-- begin with a backtick.
pub read_name-escape_ident :
    (text rest : String)
    → IsOther tick rest
    → read_name tick (escape_ident text ⧺ rest) ≡ some (text, rest)
unfolding escape_ident
read_name-escape_ident text rest h = around tick (char 96 tt) text rest refl h
