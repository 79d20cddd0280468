-- ===== src/Config/Reads.antt =====
-- What `get` returns, and that reading leaves the settings as they are.
use dbshield.Common.{
  String, nat_eq, ◌⊎◌, true, false, ◌≡◌, refl, ◌∙◌, sym, Option, none, some, ◌==◌, inl, inr,
  string_eq, eq_iff, lookup, lookup-insert, strip, if◌then◌else◌, Bool-cases,
}
use dbshield.Config.{
  Value, SysConfig, null, bool, str, num, get, filter_bool, truthy, or_null, from_row, settle,
}

-- what `get` returns for a kept value and a row
abbrev settled : Value → Value → Value
settled null d = d
settled (bool b) d = bool b
settled (str t) d = if strip t == "" then d else str t
settled (num n) d = num n

abbrev answer : Option Value → Option String → Value → Value
answer c r d = if truthy (or_null c) then or_null c else settled (from_row r (or_null c)) d

-- what the dictionary holds for the key afterwards
abbrev settled_kept : Value → Option Value → Option Value
settled_kept null c = c
settled_kept (bool b) c = some (bool b)
settled_kept (str t) c = if strip t == "" then c else some (str t)
settled_kept (num n) c = some (num n)

abbrev kept : Option Value → Option String → Option Value
kept c r = if truthy (or_null c) then c else settled_kept (from_row r (or_null c)) c

abbrev raw : String → SysConfig → Value
raw k s = from_row (lookup k s.rows) (or_null (lookup k s.sys_config))

settle-value : (v d : Value) (k : String) (s : SysConfig) → (settle v d k s).0 ≡ settled v d
settle-value null d k s = refl
settle-value (bool b) d k s = refl
settle-value (num n) d k s = refl
settle-value (str t) d k s = elim (Bool-cases (strip t == "")) [ inl e ↦ rw e | inr e ↦ rw e ]

get-value :
    (j : String) (d : Value) (s : SysConfig)
    → (get j d s).0 ≡ answer (lookup j s.sys_config) (lookup j s.rows) d
unfolding get
get-value j d s = elim (Bool-cases (truthy (or_null (lookup j s.sys_config)))) [
  | inl e ↦ rw e
  | inr e ↦ rw e (settle-value (raw j s) d j s)
]

settle-rows : (v d : Value) (k : String) (s : SysConfig) → (settle v d k s).1.rows ≡ s.rows
settle-rows null d k s = refl
settle-rows (bool b) d k s = refl
settle-rows (num n) d k s = refl
settle-rows (str t) d k s = elim (Bool-cases (strip t == "")) [ inl e ↦ rw e | inr e ↦ rw e ]

get-rows : (k : String) (d : Value) (s : SysConfig) → (get k d s).1.rows ≡ s.rows
unfolding get
get-rows k d s = elim (Bool-cases (truthy (or_null (lookup k s.sys_config)))) [
  | inl e ↦ rw e
  | inr e ↦ rw e (settle-rows (raw k s) d k s)
]

settle-cache :
    (v d : Value) (k j : String) (s : SysConfig)
    → lookup j (settle v d k s).1.sys_config
      ≡ (if k == j then settled_kept v (lookup j s.sys_config) else lookup j s.sys_config)
settle-cache null d k j s = elim (Bool-cases (k == j)) [ inl e ↦ rw e | inr e ↦ rw e ]
settle-cache (bool b) d k j s = lookup-insert k j (bool b) s.sys_config
settle-cache (num n) d k j s = lookup-insert k j (num n) s.sys_config
settle-cache (str t) d k j s = elim (Bool-cases (strip t == "")) [
  | inl e ↦ elim (Bool-cases (k == j)) [ inl q ↦ rw (e, q) | inr q ↦ rw (e, q) ]
  | inr e ↦ rw e (lookup-insert k j (str t) s.sys_config)
]

get-cache :
    (k j : String) (d : Value) (s : SysConfig)
    → lookup j (get k d s).1.sys_config
      ≡ (if k == j then kept (lookup j s.sys_config) (lookup j s.rows) else lookup j s.sys_config)
unfolding get
get-cache k j d s = elim (Bool-cases (truthy (or_null (lookup k s.sys_config)))) [
  | inl e ↦ elim (Bool-cases (k == j)) [
    | inl q ↦ let p = (eq_iff k j).0 q in rw q (rw (← p) (rw (e, ◌==◌) refl))
    | inr q ↦ rw (e, q)
  ]
  | inr e ↦ rw e (
      settle-cache (raw k s) d k j s ∙ elim (Bool-cases (k == j)) [
        | inl q ↦ let p = (eq_iff k j).0 q in rw q (rw (← p) (rw e refl))
        | inr q ↦ rw q
      ])
]

-- a value that was just kept answers as the row did
answer-settled :
    (v : Value) (c : Option Value) (d : Value)
    → truthy (or_null c) ≡ false
    → (if truthy (or_null (settled_kept v c)) then or_null (settled_kept v c) else settled v d)
      ≡ settled v d
answer-settled null c d h = rw h
answer-settled (bool true) c d h = refl
answer-settled (bool false) c d h = refl
answer-settled (num n) c d h = elim (Bool-cases (n == 0)) [ inl e ↦ rw e | inr e ↦ rw e ]
answer-settled (str t) c d h = elim (Bool-cases (strip t == "")) [
  | inl e ↦ rw (e, h) refl
  | inr e ↦ elim (Bool-cases (t == "")) [ inl q ↦ rw (e, q) | inr q ↦ rw (e, q) ]
]

-- A value that was kept answers as the table did.
answer-kept :
    (c : Option Value) (r : Option String) (d : Value) → answer (kept c r) r d ≡ answer c r d
unfolding strip
answer-kept c (some text) d = elim (Bool-cases (truthy (or_null c))) [
  | inl e ↦ rw e (rw e refl)
  | inr e ↦ rw e (answer-settled (filter_bool text) c d e)
]
answer-kept none none d = refl
answer-kept (some null) none d = refl
answer-kept (some (bool true)) none d = refl
answer-kept (some (bool false)) none d = refl
answer-kept (some (num n)) none d = elim (Bool-cases (n == 0)) [
  | inl e ↦ rw e (rw e)
  | inr e ↦ rw e (rw e)
]
answer-kept (some (str t)) none d = elim (Bool-cases (t == "")) [
  | inl e ↦ rw ((eq_iff t "").0 e) refl
  | inr e ↦ rw e (rw e refl)
]

by_key :
    (j k : String) (d : Value) (s : SysConfig)
    → ((k == j) ≡ true) ⊎ ((k == j) ≡ false)
    → answer
        (if k == j then kept (lookup j s.sys_config) (lookup j s.rows) else lookup j s.sys_config)
        (lookup j s.rows)
        d
      ≡ answer (lookup j s.sys_config) (lookup j s.rows) d
by_key j k d s (inl q) = rw q (answer-kept (lookup j s.sys_config) (lookup j s.rows) d)
by_key j k d s (inr q) = rw q

-- Whatever was read before, a later `get` of any setting returns what it would have returned.
pub get-get :
    (j k : String) (d e : Value) (s : SysConfig) → (get j d (get k e s).1).0 ≡ (get j d s).0
get-get j k d e s =
    get-value j d (get k e s).1
    ∙ rw (get-rows, get-cache) (by_key j k d s (Bool-cases (k == j)) ∙ sym (get-value j d s))
