-- ===== src/Login/Authenticate.antt =====
-- `DBShieldAuth` of common/auth.py.
use dbshield.Common.{
  ℕ, ◌+◌, ◌*◌, String, Bool, true, not, ◌&&◌, Option, none, some, ◌==◌, nat_eq, find, ltb, leb, ℤ,
  pos, negsuc, if◌then◌else◌, Exec, Result, ok, pure, reads, gets, ◌>>=◌, ◌>>◌,
}
use dbshield.Config
use dbshield.Config.{num}
use dbshield.Audit.Review.{to_int}
use dbshield.Login.State.{Account, Logins, named, save, init_user}

-- status 0 with the user, status 1, and status 3 with the time to wait
pub data LoginAnswer : Type 0 where
  signed_in : Account → LoginAnswer
  refused : LoginAnswer
  locked : ℤ → LoginAnswer

-- `count >= lock_count`
abbrev pub reaches_limit : ℕ → ℤ → Bool
reaches_limit count (pos n) = leb n count
reaches_limit count (negsuc n) = true

-- `last + timedelta(seconds=lock_time) > now`
abbrev pub is_after : ℕ → ℤ → ℕ → Bool
is_after last (pos n) now = ltb now (last + n * 1000000)
is_after last (negsuc n) now = ltb (now + (n + 1) * 1000000) last

-- what the lock says of an account: it is locked, its time is over, or there is none
pub data Lock : Type 0 where
  shut over free : Lock

abbrev pub lock_at : ℤ → ℤ → ℕ → ℕ → Option ℕ → Lock
lock_at lock_count lock_time now count none = free
lock_at lock_count lock_time now count (some last) =
    if not (count == 0) && reaches_limit count lock_count
    then if is_after last lock_time now then shut else over
    else free

unfoldable pub lock_of : ℤ → ℤ → ℕ → Account → Lock
lock_of lock_count lock_time now user =
    lock_at lock_count lock_time now user.failed_login_count user.last_login_failed_at

abbrev pub reset : Account → Account
reset user = record user { failed_login_count = 0 }

abbrev pub failed_login : Account → ℕ → Account
failed_login user now = record user {
  failed_login_count = user.failed_login_count + 1;
  last_login_failed_at = some now;
}

-- `backend` is Django's `authenticate`: the user with this name and password, and the rows, since a
-- first login by LDAP makes the user's row
module _ (backend : String → String → Logins → Option Account × Logins) where
  -- `challenge`
  abbrev challenged : Option Account × Logins → Result (Option Account) × Logins
  challenged (none, s) = (ok none, s)
  challenged (some user, s) = (save (reset user) >> pure (some (reset user))) s

  unfoldable pub challenge : String → String → Exec Logins (Option Account)
  challenge username password s = challenged (backend username password s)

  abbrev pub first_login : Option Account → Exec Logins LoginAnswer
  first_login none = pure refused
  first_login (some user) = init_user user.username >> pure (signed_in user)

  -- the default groups, at a first login
  abbrev pub welcome : Option ℕ → Account → Exec Logins LoginAnswer
  welcome none found = init_user found.username >> pure (signed_in found)
  welcome (some t) found = pure (signed_in found)

  abbrev pub later_login : Account → Option Account → Exec Logins LoginAnswer
  later_login user none = do now ← gets (λ s. s.now); save (failed_login user now); pure refused
  later_login user (some found) = welcome found.last_login found

  unfoldable pub attempt : Account → String → Exec Logins LoginAnswer
  attempt user password = do
    authenticated_user ← challenge user.username password
    later_login user authenticated_user

  abbrev pub behind_lock : Lock → ℤ → Account → String → Exec Logins LoginAnswer
  behind_lock shut lock_time user password = pure (locked lock_time)
  behind_lock over lock_time user password = save (reset user) >> attempt (reset user) password
  behind_lock free lock_time user password = attempt user password

  unfoldable pub known_user : Account → String → Exec Logins LoginAnswer
  known_user user password = do
    lock_count ← reads (λ s. to_int (Config.get "lock_cnt_threshold" (num 5) s.settings).0)
    lock_time ← reads (λ s. to_int (Config.get "lock_time_threshold" (num 300) s.settings).0)
    now ← gets (λ s. s.now)
    behind_lock (lock_of lock_count lock_time now user) lock_time user password

  abbrev pub dispatch : Option Account → String → String → Exec Logins LoginAnswer
  dispatch (some user) username password = known_user user password
  dispatch none username password = challenge username password >>= first_login

  unfoldable pub authenticate : String → String → Exec Logins LoginAnswer
  authenticate username password = do
    found ← gets (λ s. find (named username) s.accounts)
    dispatch found username password
