-- ===== src/Masking/Thirds.antt =====
-- `regex` of sql/utils/data_masking.py with the rule 100: the three parts of a text.
use mathlib.Core.Path.{◌≡◌, refl, sym, ap, ◌∙◌}
use dbshield.Common.{
  ℕ, zero, suc, ◌+◌, ◌*◌, ◌/◌, ◌%◌, ◌≤◌, String, ◌⧺◌, false, Option, some, [], ◌∷◌, ◌==◌, nat_eq,
  string_eq, ltb, pos, Result, ok, arith, eq_iff, Bool-cases, inl, inr,
}
use text.Mathlib.TextLemmas.{nil-append, cons-append}
use dbshield.Masking.Regex.{
  Cell, str, Groups, MaskingRule, length, take, drop, stars, lazy_parts, thirds, one_if,
  masked_from, masked, or_value, regex,
}

take-drop : (n : ℕ) (s : String) → take n s ⧺ drop n s ≡ s
unfolding take drop
take-drop zero s = nil-append _
take-drop (suc n) String.[] = nil-append _
take-drop (suc n) (String.◌∷◌ c s) = cons-append _ _ _ ∙ ap (λ t. String.◌∷◌ c t) (take-drop n s)

length-take : (n : ℕ) (s : String) → n ≤ length s → length (take n s) ≡ n
unfolding take length
length-take zero s h = refl
length-take (suc n) String.[] h = omega arith
length-take (suc n) (String.◌∷◌ c s) h = ap suc (length-take n s (omega arith))

length-drop : (n : ℕ) (s : String) → n ≤ length s → length (drop n s) + n ≡ length s
unfolding drop length
length-drop zero s h = omega arith
length-drop (suc n) String.[] h = omega arith
length-drop (suc n) (String.◌∷◌ c s) h = omega (arith, length-drop n s (omega arith))

length-stars : (s : String) → length (stars s) ≡ length s
unfolding stars length
length-stars String.[] = refl
length-stars (String.◌∷◌ c s) = ap suc (length-stars s)

drop_empty : (n : ℕ) → drop n "" ≡ ""
unfolding drop
drop_empty zero = refl
drop_empty (suc n) = refl

suc_sum : (a b : ℕ) → suc (a + b) ≡ suc a + b
suc_sum a b = omega arith

drop-drop : (a b : ℕ) (s : String) → drop b (drop a s) ≡ drop (a + b) s
unfolding drop
drop-drop zero b s = ap (λ k. drop k s) (omega arith)
drop-drop (suc a) b String.[] = drop_empty b ∙ sym (drop_empty (suc a + b))
drop-drop (suc a) b (String.◌∷◌ c s) =
    drop-drop a b s ∙ ap (λ k. drop k (String.◌∷◌ c s)) (suc_sum a b)

length-append : (s t : String) → length (s ⧺ t) ≡ length s + length t
unfolding length
length-append String.[] t = ap length (nil-append t) ∙ omega arith
length-append (String.◌∷◌ c s) t = ap length (cons-append _ _ _) ∙ omega (arith, length-append s t)

ltb_le : (m n : ℕ) → n ≤ m → ltb m n ≡ false
ltb_le m n h = ground arith

sum_thirds :
    (n : ℕ) → n / 3 + (n / 3 + one_if (ltb 0 (n % 3))) + (n / 3 + one_if (ltb 1 (n % 3))) ≡ n
sum_thirds n = ground arith

-- the parts where their lengths are those of the text
lazy_parts_lem :
    (a b c : ℕ) (s : String)
    → a + b + c ≡ length s
    → lazy_parts a b c s
      ≡ some (some (take a s) ∷ some (take b (drop a s)) ∷ some (drop (a + b) s) ∷ [])
unfolding lazy_parts
lazy_parts_lem a b c s e =
    let fits : ltb (length s) (a + b + c) ≡ false =
      ltb_le (length s) (a + b + c) (omega (arith, e)) in
    let last : ltb c (length (drop (a + b) s)) ≡ false =
      ltb_le c (length (drop (a + b) s))
        (omega (arith, e, length-drop (a + b) s (omega (arith, e)))) in
    rw (fits, last) refl

abbrev pub first_third : String → ℕ
first_third s = length s / 3

abbrev pub middle_third : String → ℕ
middle_third s = length s / 3 + one_if (ltb 0 (length s % 3))

thirds_lem :
    (s : String)
    → thirds s
      ≡ some (
          some (take (first_third s) s)
          ∷ some (take (middle_third s) (drop (first_third s) s))
          ∷ some (drop (first_third s + middle_third s) s)
          ∷ [])
unfolding thirds
thirds_lem s =
    lazy_parts_lem (first_third s) (middle_third s) (length s / 3 + one_if (ltb 1 (length s % 3))) s
      (sum_thirds (length s))

three_parts : (a b : ℕ) (s : String) → take a s ⧺ (take b (drop a s) ⧺ drop (a + b) s) ≡ s
three_parts a b s =
    ap (λ t. take a s ⧺ (take b (drop a s) ⧺ t)) (sym (drop-drop a b s))
    ∙ ap (λ t. take a s ⧺ t) (take-drop b (drop a s))
    ∙ take-drop a s

append-nil : (s : String) → s ⧺ "" ≡ s
append-nil String.[] = nil-append _
append-nil (String.◌∷◌ c s) = cons-append _ _ _ ∙ ap (λ t. String.◌∷◌ c t) (append-nil s)

masked_middle :
    (value : Cell) (x y z : String)
    → masked (pos 2) value (some (some x ∷ some y ∷ some z ∷ [])) ≡ ok (str (x ⧺ (stars y ⧺ z)))
unfolding masked masked_from
masked_middle value x y z = ap (λ t. ok (str (x ⧺ (stars y ⧺ t)))) (append-nil z)

first_le : (n : ℕ) → n / 3 ≤ n
first_le n = omega arith

middle_le : (n m : ℕ) → m + n / 3 ≡ n → n / 3 + one_if (ltb 0 (n % 3)) ≤ m
middle_le n m h = ground arith

middle_ge : (n m : ℕ) → m ≡ n / 3 + one_if (ltb 0 (n % 3)) → n ≤ 3 * m
middle_ge n m h = ground arith

-- the text that the rule leaves
abbrev pub hidden : String → String
hidden s =
    let a = first_third s in
    let b = middle_third s in take a s ⧺ (stars (take b (drop a s)) ⧺ drop (a + b) s)

hidden_empty : hidden "" ≡ ""
unfolding take drop stars length
hidden_empty = refl

empty_hidden : (s : String) → s ≡ "" → s ≡ hidden s
empty_hidden s e = e ∙ sym (ap hidden e ∙ hidden_empty)

module _ (re_search : String → String → Result (Option Groups)) where
  regex-hidden :
      (rule : MaskingRule) (s : String)
      → rule.rule_type ≡ 100
      → rule.hide_group ≡ pos 2
      → regex re_search rule (str s) ≡ ok (str (hidden s))
  unfolding regex
  regex-hidden rule s t h = elim (Bool-cases (s == "")) [
    | inl e ↦ rw e (ap (λ v. ok (str v)) (empty_hidden s ((eq_iff s "").0 e)))
    | inr e ↦
        rw (e, t, h, thirds_lem s) (ap (λ r. or_value r (str s)) (masked_middle (str s) _ _ _))
  ]

  -- A text, under a rule of the type 100 that hides the second group, whatever expression the rule
  -- has, comes back in the same length: a first part of a third of the length, rounded down, and the
  -- part after the middle are as they were, and the middle, at least a third of the text, is stars.
  pub regex-thirds :
      (rule : MaskingRule) (s : String)
      → rule.rule_type ≡ 100
      → rule.hide_group ≡ pos 2
      → (x : String) × (y : String) × (z : String) × (s ≡ x ⧺ (y ⧺ z))
        × (regex re_search rule (str s) ≡ ok (str (x ⧺ (stars y ⧺ z))))
        × (length (x ⧺ (stars y ⧺ z)) ≡ length s)
        × (length x ≡ length s / 3)
        × (length s ≤ 3 * length y)
  regex-thirds rule s t h =
      let a = first_third s in
      let b = middle_third s in
      let x = take a s in
      let y = take b (drop a s) in
      let z = drop (a + b) s in
      let parts = three_parts a b s in
      let len_x : length x ≡ a = length-take a s (first_le (length s)) in
      let len_y : length y ≡ b =
        length-take b (drop a s)
          (middle_le (length s) (length (drop a s)) (length-drop a s (first_le (length s)))) in
      let total = length-append x (y ⧺ z) in
      (
        x,
        y,
        z,
        sym parts,
        regex-hidden rule s t h,
        length-append x (stars y ⧺ z)
            ∙ ap (λ n. length x + n)
                (length-append (stars y) z
                  ∙ ap (λ n. n + length z) (length-stars y)
                  ∙ sym (length-append y z))
            ∙ sym total
            ∙ ap length parts,
        len_x,
        middle_ge (length s) (length y) len_y,
      )
