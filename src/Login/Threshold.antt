-- ===== src/Login/Threshold.antt =====
-- `Users.save` of sql/models.py keeps the count of failed logins at most 127: a threshold above it.
use mathlib.Core.Path.{◌≡◌, refl, ap, ◌∙◌}
use dbshield.Common.{
  ℕ, ◌≤◌, String, Option, none, some, List, [], ◌∷◌, nat_eq, find, ℤ, pos, arith, length,
}
use dbshield.Login.State.{Account, Logins, named}
use dbshield.Login.Authenticate.{free, lock_at, lock_of, authenticate}
use dbshield.Login.Lock.{Locks, after, authenticate_wrong}
use dbshield.Login.Guesses.{at_time, cost, tried, tried-answer, checks, AllWrong, same-Locks}

lock_at_free :
    (lock_count now count : ℕ) (lock_time : ℤ) (last : Option ℕ)
    → 128 ≤ lock_count
    → count ≤ 127
    → lock_at (pos lock_count) lock_time now count last ≡ free
lock_at_free lock_count now count lock_time none h k = refl
lock_at_free lock_count now count lock_time (some last) h k = ground arith

-- the count that is saved after a failure
after_free : (user : Account) (now : ℕ) → (after free user now).failed_login_count ≤ 127
after_free user now = ground arith

module _ (backend : String → String → Logins → Option Account × Logins) (name : String) where
  -- Where the threshold is above 127, the lock never answers: however many wrong passwords are sent for a user
  -- who is there, at whatever times, all of them are looked at. The row counts at most 127
  -- failures at the start; a new one counts none.
  pub authenticate-unlocked :
      (lock_count lock_time : ℕ) (guesses : List (String × ℕ)) (user : Account) (s : Logins)
      → 128 ≤ lock_count
      → Locks lock_count lock_time s
      → find (named name) s.accounts ≡ some user
      → user.failed_login_count ≤ 127
      → AllWrong backend name guesses
      → checks backend name guesses s ≡ length guesses
  unfolding checks lock_of
  authenticate-unlocked lock_count lock_time [] user s h k f most wrong = refl
  authenticate-unlocked lock_count lock_time ((password, t) ∷ guesses) user s h k f most
        (w, wrong) =
      let q = at_time t s in
      let l = lock_of (pos lock_count) (pos lock_time) t user in
      let (x, y, z) =
        authenticate_wrong backend name password w lock_count lock_time user q
          (record { count = k.count; time = k.time }) f in
      let later = (authenticate backend name password q).1 in
      let open_lock : l ≡ free =
        lock_at_free lock_count t user.failed_login_count (pos lock_time) user.last_login_failed_at
          h most in
      let user_later : find (named name) later.accounts ≡ some (after free user t) =
        y ∙ ap (λ m. some (after m user t)) open_lock in
      let rest =
        authenticate-unlocked lock_count lock_time guesses (after free user t) later h
          (same-Locks s later z k) user_later (after_free user t) wrong in
      let one = ap tried x ∙ tried-answer l lock_time ∙ ap cost open_lock in
      omega (arith, one, rest)
