-- ===== src/Common/Strings.antt =====
-- Methods of Python's `str`, on ASCII letters where they change the case, and sorted sets of texts.
use Prim.Native.Nat.{ℕ, suc, zero, ◌-◌, Ordering, lt, eq, gt}
use Prim.Native.Char.{Char, code}
use Prim.Native.String.{String, char_at, count, compare}
use mathlib.Core.Path.{◌≡◌, refl}
use mathlib.Core.Bool.{Bool, true, false, ◌&&◌, ◌||◌}
use mathlib.Core.List.{List, [], ◌∷◌}
use dbshield.Common.Tests.{leb, nat_beq, if◌then◌else◌}
use Prim.Native.String.{◌++◌ as ◌⧺◌}

small : Char → Char
small c =
    let n = code c in
    if leb 65 n && leb n 90 then char_at "abcdefghijklmnopqrstuvwxyz" (n - 65) else c

big : Char → Char
big c =
    let n = code c in
    if leb 97 n && leb n 122 then char_at "ABCDEFGHIJKLMNOPQRSTUVWXYZ" (n - 97) else c

unfoldable pub lower : String → String
unfolding small
lower String.[] = String.[]
lower (String.◌∷◌ c s) = String.◌∷◌ (small c) (lower s)

unfoldable pub upper : String → String
unfolding big
upper String.[] = String.[]
upper (String.◌∷◌ c s) = String.◌∷◌ (big c) (upper s)

-- `text.startswith(word)`
unfoldable pub starts_with : String → String → Bool
starts_with String.[] s = true
starts_with (String.◌∷◌ d w) String.[] = false
starts_with (String.◌∷◌ d w) (String.◌∷◌ c s) = nat_beq (code c) (code d) && starts_with w s

-- `word in text`
unfoldable pub has_text : String → String → Bool
unfolding starts_with
has_text w String.[] = starts_with w String.[]
has_text w (String.◌∷◌ c s) = starts_with w (String.◌∷◌ c s) || has_text w s

-- the text without its first characters
unfoldable pub skip_text : ℕ → String → String
skip_text zero s = s
skip_text (suc n) String.[] = String.[]
skip_text (suc n) (String.◌∷◌ c s) = skip_text n s

-- `text[text.lower().index(word) + len(word):]`, where the word is there
unfoldable pub after_lower : String → String → String
unfolding starts_with skip_text lower
after_lower w String.[] = String.[]
after_lower w (String.◌∷◌ c s) =
    let rest = after_lower w s in
    if starts_with w (lower (String.◌∷◌ c s)) then skip_text (count w) (String.◌∷◌ c s) else rest

-- `text.replace(old, new)`: `n` more characters belong to the last occurrence
replace_from : ℕ → String → String → String → String
unfolding starts_with
replace_from n old new String.[] = String.[]
replace_from (suc n) old new (String.◌∷◌ c s) = replace_from n old new s
replace_from zero old new (String.◌∷◌ c s) =
    let found = starts_with old (String.◌∷◌ c s) in
    let rest = replace_from (if found then count old - 1 else 0) old new s in
    if found then new ⧺ rest else String.◌∷◌ c rest

unfoldable pub replace_text : String → String → String → String
unfolding replace_from
replace_text old new s = replace_from 0 old new s

-- `sorted(set(texts))`
abbrev pub placed : Ordering → String → String → List String → List String → List String
placed lt x y ys rest = x ∷ y ∷ ys
placed eq x y ys rest = y ∷ ys
placed gt x y ys rest = y ∷ rest

unfoldable pub place : String → List String → List String
place x [] = x ∷ []
place x (y ∷ ys) = placed (compare x y) x y ys (place x ys)

unfoldable pub sorted_set : List String → List String
unfolding place
sorted_set [] = []
sorted_set (x ∷ xs) = place x (sorted_set xs)

string_tests :
    (lower "Auto_Inc" ≡ "auto_inc")
    × (upper "btree" ≡ "BTREE")
    × (starts_with "int" "integer" ≡ true)
    × (has_text "on update" "x on update now()" ≡ true)
    × (has_text "on update" "x on updat" ≡ false)
    × (after_lower "on update" "x ON update NOW()" ≡ " NOW()")
    × (replace_text "utf8mb3_" "utf8_" "utf8mb3_general_ci" ≡ "utf8_general_ci")
    × (sorted_set ("b" ∷ "a" ∷ "b" ∷ []) ≡ "a" ∷ "b" ∷ [])
unfolding lower upper has_text after_lower replace_text sorted_set
string_tests = (refl, refl, refl, refl, refl, refl, refl, refl)
