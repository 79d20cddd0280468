-- ===== src/Login/Guesses.antt =====
-- `DBShieldAuth.authenticate` of common/auth.py: how many passwords can be tried before the lock.
use mathlib.Core.Path.{◌≡◌, refl, ap, ◌∙◌}
use dbshield.Common.{
  ℕ, ◌+◌, ◌-◌, ◌*◌, ◌≤◌, ◌<◌, String, Option, none, some, List, [], ◌∷◌, nat_eq, find, min, leb,
  pos, if◌then◌else◌, Result, ok, err, arith,
}
use dbshield.Config
use dbshield.Config.{num}
use dbshield.Audit.Review.{to_int}
use dbshield.Login.State.{Account, Logins, named}
use dbshield.Login.Authenticate.{
  LoginAnswer, signed_in, refused, locked, Lock, shut, over, free, lock_at, lock_of, authenticate,
}
use dbshield.Login.Lock.{Locks, after, answer, authenticate_wrong}

-- the passwords that may still be tried from a time on: a count from before it says nothing
abbrev budget_from : ℕ → ℕ → ℕ → Option ℕ → ℕ
budget_from start lock_count count none = lock_count
budget_from start lock_count count (some last) =
    if leb start last then lock_count - count else lock_count

unfoldable budget : ℕ → ℕ → Account → ℕ
budget start lock_count user =
    budget_from start lock_count user.failed_login_count user.last_login_failed_at

abbrev pub cost : Lock → ℕ
cost shut = 0
cost over = 1
cost free = 1

after_from : Lock → ℕ → ℕ → Option ℕ → ℕ × Option ℕ
after_from shut now count last = (count, last)
after_from over now count last = (1, some now)
after_from free now count last = (min 127 (count + 1), some now)

budget_falls :
    (start lock_count lock_time now count : ℕ) (last : Option ℕ)
    → 1 ≤ lock_count
    → lock_count ≤ 127
    → start ≤ now
    → now < start + lock_time * 1000000
    → (let l = lock_at (pos lock_count) (pos lock_time) now count last in
        let (c, f) = after_from l now count last in
        cost l + budget_from start lock_count c f ≤ budget_from start lock_count count last)
unfolding after_from
budget_falls start lock_count lock_time now count none one most h k = ground arith
budget_falls start lock_count lock_time now count (some last) one most h k = ground arith

moved :
    (l : Lock) (start lock_count now : ℕ) (user : Account) (n : ℕ)
    → (let (c, f) = after_from l now user.failed_login_count user.last_login_failed_at in
        cost l + budget_from start lock_count c f ≤ n)
    → cost l + budget start lock_count (after l user now) ≤ n
unfolding budget after_from
moved shut start lock_count now user n h = h
moved over start lock_count now user n h = h
moved free start lock_count now user n h = h

budget_from-le :
    (start lock_count count : ℕ) (last : Option ℕ)
    → budget_from start lock_count count last ≤ lock_count
budget_from-le start lock_count count none = omega arith
budget_from-le start lock_count count (some last) = ground arith

budget-le : (start lock_count : ℕ) (user : Account) → budget start lock_count user ≤ lock_count
unfolding budget
budget-le start lock_count user =
    budget_from-le start lock_count user.failed_login_count user.last_login_failed_at

pub same-Locks :
    {lock_count lock_time : ℕ} (s t : Logins)
    → t.settings ≡ s.settings
    → Locks lock_count lock_time s
    → Locks lock_count lock_time t
same-Locks s t e k = record {
  count = ap (λ v. to_int (Config.get "lock_cnt_threshold" (num 5) v).0) e ∙ k.count;
  time = ap (λ v. to_int (Config.get "lock_time_threshold" (num 300) v).0) e ∙ k.time;
}

budget_step :
    (start lock_count lock_time now : ℕ) (user : Account)
    → 1 ≤ lock_count
    → lock_count ≤ 127
    → start ≤ now
    → now < start + lock_time * 1000000
    → (let l = lock_of (pos lock_count) (pos lock_time) now user in
        cost l + budget start lock_count (after l user now) ≤ budget start lock_count user)
unfolding budget lock_of after_from
budget_step start lock_count lock_time now user one most h k =
    moved
      (lock_at (pos lock_count) (pos lock_time) now user.failed_login_count
        user.last_login_failed_at)
      start lock_count now user _
      (budget_falls start lock_count lock_time now user.failed_login_count user.last_login_failed_at
        one most h k)

-- a login at a time
abbrev pub at_time : ℕ → Logins → Logins
at_time t s = record s { now = t }

-- whether the password was looked at
abbrev pub tried : Result LoginAnswer → ℕ
tried (ok (locked wait)) = 0
tried (ok refused) = 1
tried (ok (signed_in user)) = 1
tried (err c) = 1

pub tried-answer : (l : Lock) (lock_time : ℕ) → tried (ok (answer l lock_time)) ≡ cost l
tried-answer shut lock_time = refl
tried-answer over lock_time = refl
tried-answer free lock_time = refl

module _ (backend : String → String → Logins → Option Account × Logins) (name : String) where
  -- how many of the passwords are looked at, each at its time
  unfoldable pub checks : List (String × ℕ) → Logins → ℕ
  checks [] s = 0
  checks ((password, t) ∷ guesses) s =
      let (a, later) = authenticate backend name password (at_time t s) in
      tried a + checks guesses later

  abbrev pub AllWrong : List (String × ℕ) → Type 0
  AllWrong [] = Unit {0}
  AllWrong ((password, t) ∷ guesses) =
      ((s : Logins) → backend name password s ≡ (none, s)) × AllWrong guesses

  abbrev pub AllWithin : ℕ → ℕ → List (String × ℕ) → Type 0
  AllWithin start end [] = Unit {0}
  AllWithin start end ((password, t) ∷ guesses) =
      (start ≤ t) × (t < end) × AllWithin start end guesses

  checks-budget :
      (start lock_count lock_time : ℕ) (guesses : List (String × ℕ)) (user : Account) (s : Logins)
      → 1 ≤ lock_count
      → lock_count ≤ 127
      → Locks lock_count lock_time s
      → find (named name) s.accounts ≡ some user
      → AllWrong guesses
      → AllWithin start (start + lock_time * 1000000) guesses
      → checks guesses s ≤ budget start lock_count user
  unfolding checks
  checks-budget start lock_count lock_time [] user s one most k f wrong within = omega arith
  checks-budget start lock_count lock_time ((password, t) ∷ guesses) user s one most k f (w, wrong)
        (h, h', within) =
      let q = at_time t s in
      let l = lock_of (pos lock_count) (pos lock_time) t user in
      let (x, y, z) =
        authenticate_wrong backend name password w lock_count lock_time user q
          (record { count = k.count; time = k.time }) f in
      let later = (authenticate backend name password q).1 in
      let rest =
        checks-budget start lock_count lock_time guesses (after l user t) later one most
          (same-Locks s later z k) y wrong within in
      let step = budget_step start lock_count lock_time t user one most h h' in
      let c = ap tried x ∙ tried-answer l lock_time in omega (arith, rest, step, c)

  -- However many wrong passwords are sent for a user who is there, at whatever times within the lock's
  -- time from a start on, and whatever failures the row counts before: no more of them are looked at
  -- than the threshold says, where it is at least 1 and at most 127. The others are answered by the lock.
  pub authenticate_guesses :
      (start lock_count lock_time : ℕ) (guesses : List (String × ℕ)) (user : Account) (s : Logins)
      → 1 ≤ lock_count
      → lock_count ≤ 127
      → Locks lock_count lock_time s
      → find (named name) s.accounts ≡ some user
      → AllWrong guesses
      → AllWithin start (start + lock_time * 1000000) guesses
      → checks guesses s ≤ lock_count
  authenticate_guesses start lock_count lock_time guesses user s one most k f wrong within = omega (
    arith,
    checks-budget start lock_count lock_time guesses user s one most k f wrong within,
    budget-le start lock_count user,
  )
