-- ===== src/Common/Text.antt =====
-- Python's `str` as far as the program uses it: `split` and `join`, `strip`, `int`.
use Prim.Native.Nat.{ℕ, zero, suc, ◌+◌, ◌-◌, ◌*◌}
use Prim.Native.Char.{Char, code}
use Prim.Native.String.{String, ◌++◌}
use mathlib.Core.Path.{◌≡◌, refl, sym, ap, ap₂, ◌∙◌}
use mathlib.Core.Bool.{Bool, true, false, ◌&&◌, ◌||◌}
use mathlib.Core.Option.{Option, none, some}
use mathlib.Core.Option
use mathlib.Core.List.{List, [], ◌∷◌}
use text.Mathlib.TextLemmas.{nil-append, cons-append}
use text.Mathlib.TextEquality.{Char-path}
use dbshield.Common.Tests.{leb, nat_beq, nat_beq_iff, if◌then◌else◌, Bool-cases}
use mathlib.Core.Logic.{inl, inr}

-- `text.split(sep)` for a one-character separator: never empty
abbrev push : Char → List String → List String
push c [] = String.◌∷◌ c String.[] ∷ []
push c (w ∷ ws) = String.◌∷◌ c w ∷ ws

unfoldable pub split : ℕ → String → List String
split sep String.[] = String.[] ∷ []
split sep (String.◌∷◌ c s) =
    let rest = split sep s in if nat_beq (code c) sep then String.[] ∷ rest else push c rest

-- `sep.join(words)`
unfoldable pub join : String → List String → String
join sep [] = String.[]
join sep (w ∷ []) = w
join sep (w ∷ v ∷ ws) = w ++ (sep ++ join sep (v ∷ ws))

abbrev pub comma : ℕ
comma = b','

unfoldable pub split_comma : String → List String
unfolding split
split_comma = split comma

abbrev comma_char : Char
comma_char = ","

-- `",".join(words)`
unfoldable pub join_comma : List String → String
join_comma [] = String.[]
join_comma (w ∷ []) = w
join_comma (w ∷ v ∷ ws) = w ++ String.◌∷◌ comma_char (join_comma (v ∷ ws))

split_tests : split_comma "3,14,,5" ≡ "3" ∷ "14" ∷ "" ∷ "5" ∷ []
unfolding split_comma
split_tests = refl

join_tests : join_comma ("3" ∷ "14" ∷ "5" ∷ []) ≡ "3,14,5"
unfolding join_comma
join_tests = refl

-- No character of the text is the separator.
abbrev pub Lacks : ℕ → String → Type 0
Lacks sep String.[] = Unit
Lacks sep (String.◌∷◌ c s) = (nat_beq (code c) sep ≡ false) × Lacks sep s

abbrev pub AllLack : ℕ → List String → Type 0
AllLack sep [] = Unit
AllLack sep (w ∷ ws) = Lacks sep w × AllLack sep ws

split_word : (sep : ℕ) (w : String) → Lacks sep w → split sep w ≡ w ∷ []
unfolding split
split_word sep String.[] h = refl
split_word sep (String.◌∷◌ c s) h = rw (h.0, split_word sep s h.1) refl

split-append :
    (sep : ℕ) (w : String) (c : Char) (rest : String)
    → Lacks sep w
    → nat_beq (code c) sep ≡ true
    → split sep (w ++ String.◌∷◌ c rest) ≡ w ∷ split sep rest
unfolding split
split-append sep String.[] c rest h e = rw (nil-append, e) refl
split-append sep (String.◌∷◌ d s) c rest h e =
    rw (cons-append, h.0, split-append sep s c rest h.1 e) refl

-- The groups that a setting's text names are those that were joined into it.
pub split-join_comma :
    (w : String) (ws : List String)
    → AllLack comma (w ∷ ws)
    → split_comma (join_comma (w ∷ ws)) ≡ w ∷ ws
unfolding split_comma join_comma
split-join_comma w [] h = split_word comma w h.0
split-join_comma w (v ∷ ws) h =
    split-append comma w comma_char (join_comma (v ∷ ws)) h.0 refl
    ∙ ap (λ r. w ∷ r) (split-join_comma v ws h.1)

join-push :
    (c : Char) (w : String) (ws : List String)
    → join_comma (push c (w ∷ ws)) ≡ String.◌∷◌ c (join_comma (w ∷ ws))
unfolding join_comma
join-push c w [] = refl
join-push c w (v ∷ ws) = cons-append c w _

-- `split` returns at least one part.
abbrev HasHead : String → Type 0
HasHead s = (w : String) × (ws : List String) × (split comma s ≡ w ∷ ws)

split_head : (s : String) → HasHead s
unfolding split
split_head String.[] = (String.[], [], refl)
split_head (String.◌∷◌ c s) = elim (Bool-cases (nat_beq (code c) comma)) [
  | inl e ↦ (String.[], split comma s, rw e refl)
  | inr e ↦ let (w, ws, p) = split_head s in (String.◌∷◌ c w, ws, rw (e, p) refl)
]

-- A text is what its parts join to.
pub join-split_comma : (s : String) → join_comma (split_comma s) ≡ s
unfolding split_comma join_comma
join-split_comma String.[] = refl
join-split_comma (String.◌∷◌ c s) = elim (Bool-cases (nat_beq (code c) comma)) [
  | inl e ↦
      let (w, ws, p) = split_head s in
      rw (e, p)
        (nil-append _
          ∙ ap₂ String.◌∷◌ (Char-path comma_char c (sym ((nat_beq_iff _ _).0 e)))
              (ap join_comma (sym p) ∙ join-split_comma s))
  | inr e ↦
      let (w, ws, p) = split_head s in
      rw (e, p) (join-push c w ws ∙ ap (String.◌∷◌ c) (ap join_comma (sym p) ∙ join-split_comma s))
]

-- `str.isspace` of one character
unfoldable pub is_space : Char → Bool
is_space c =
    let n = code c in
    (leb 9 n && leb n 13)
    || (leb 28 n && leb n 32)
    || nat_beq n 0x85
    || nat_beq n 0xa0
    || nat_beq n 0x1680
    || (leb 0x2000 n && leb n 0x200a)
    || nat_beq n 0x2028
    || nat_beq n 0x2029
    || nat_beq n 0x202f
    || nat_beq n 0x205f
    || nat_beq n 0x3000

unfoldable pub lstrip : String → String
unfolding is_space
lstrip String.[] = String.[]
lstrip (String.◌∷◌ c s) = let rest = lstrip s in if is_space c then rest else String.◌∷◌ c s

abbrev strip_last : Char → String → String
strip_last c String.[] = if is_space c then String.[] else String.◌∷◌ c String.[]
strip_last c (String.◌∷◌ d s) = String.◌∷◌ c (String.◌∷◌ d s)

unfoldable pub rstrip : String → String
unfolding is_space
rstrip String.[] = String.[]
rstrip (String.◌∷◌ c s) = strip_last c (rstrip s)

unfoldable pub strip : String → String
unfolding lstrip rstrip
strip s = rstrip (lstrip s)

-- An `int`; `negsuc n` is -(n + 1).
pub data ℤ : Type 0 where
  pos : ℕ → ℤ
  negsuc : ℕ → ℤ

digits : ℕ → String → Option ℕ
digits n String.[] = some n
digits n (String.◌∷◌ c s) =
    let d = code c in if leb 48 d && leb d 57 then digits (n * 10 + (d - 48)) s else none

digits1 : String → Option ℕ
unfolding digits
digits1 String.[] = none
digits1 (String.◌∷◌ c s) = digits 0 (String.◌∷◌ c s)

abbrev negate : ℕ → ℤ
negate zero = pos 0
negate (suc n) = negsuc n

signed : String → Option ℤ
unfolding digits1
signed String.[] = none
signed (String.◌∷◌ c s) =
    if nat_beq (code c) b'-'
    then Option.map negate (digits1 s)
    else if nat_beq (code c) b'+'
    then Option.map pos (digits1 s)
    else Option.map pos (digits1 (String.◌∷◌ c s))

-- `int(text)` on ASCII digits with an optional sign, blanks stripped; `none` is the `ValueError`
unfoldable pub int : String → Option ℤ
unfolding signed strip
int s = signed (strip s)

int_tests :
    (int " 42\n" ≡ some (pos 42))
    × (int "-1" ≡ some (negsuc 0))
    × (int "" ≡ none)
    × (int "4x" ≡ none)
unfolding int
int_tests = (refl, refl, refl, refl)

-- the letter, once it is made small, is the small letter
abbrev pub same_letter : Char → Char → Bool
same_letter c d =
    let n = code c in
    let m = code d in nat_beq n m || (leb b'A' n && leb n b'Z' && nat_beq (n + 32) m)

-- `text.lower() == word`, for a word of small ASCII letters
unfoldable pub lower_eq : String → String → Bool
lower_eq String.[] String.[] = true
lower_eq String.[] (String.◌∷◌ d t) = false
lower_eq (String.◌∷◌ c s) String.[] = false
lower_eq (String.◌∷◌ c s) (String.◌∷◌ d t) = same_letter c d && lower_eq s t
