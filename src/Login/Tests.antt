-- ===== src/Login/Tests.antt =====
-- Concrete accounts for the theorems on common/auth.py.
use dbshield.Common.{
  ℕ, ◌≤◌, String, ◌≡◌, refl, Option, none, some, List, [], ◌∷◌, int, arith, lookup, strip,
}
use dbshield.Config
use dbshield.Config.{SysConfig, filter_bool}
use dbshield.Audit.Review.{to_int}
use dbshield.Login.State.{Account, Logins, put_account, save}
use dbshield.Login.Authenticate.{challenge, attempt, known_user, lock_of, authenticate}
use dbshield.Login.Lock.{Locks}
use dbshield.Login.Guesses.{checks, authenticate_guesses}
use dbshield.Login.Threshold.{authenticate-unlocked}

abbrev ann : Account
ann = record {
  username = "ann";
  failed_login_count = 2;
  last_login_failed_at = some 1000000;
  last_login = none;
  groups = [];
  resource_group = [];
}

abbrev logins : String → Logins
logins threshold = record {
  accounts = ann ∷ [];
  auth_groups = [];
  resource_groups = [];
  settings = record {
    sys_config = [];
    rows = ("lock_cnt_threshold", threshold) ∷ ("lock_time_threshold", "60") ∷ [];
  };
  now = 2000000;
}

abbrev nobody : String → String → Logins → Option Account × Logins
nobody username password s = (none, s)

locks : Locks 3 60 (logins "3")
unfolding Config.get to_int int lookup strip filter_bool
locks = record { count = refl; time = refl }

abbrev guesses : List (String × ℕ)
guesses = ("a", 2000000) ∷ ("b", 3000000) ∷ ("c", 61000000) ∷ []

-- the first wrong password is the third failure; then the lock is shut
one_try : checks nobody "ann" guesses (logins "3") ≡ 1
unfolding checks authenticate known_user lock_of attempt challenge save put_account Config.get
    to_int int lookup strip filter_bool
one_try = refl

authenticate_guesses_example : checks nobody "ann" guesses (logins "3") ≤ 3
authenticate_guesses_example =
    authenticate_guesses nobody "ann" 2000000 3 60 guesses ann (logins "3") (omega arith)
      (omega arith) locks refl ((λ s. refl), ((λ s. refl), ((λ s. refl), tt))) (omega arith)

far-Locks : Locks 200 60 (logins "200")
unfolding Config.get to_int int lookup strip filter_bool
far-Locks = record { count = refl; time = refl }

authenticate-unlocked_example : checks nobody "ann" guesses (logins "200") ≡ 3
authenticate-unlocked_example =
    authenticate-unlocked nobody "ann" 200 60 guesses ann (logins "200") (omega arith) far-Locks
      refl (omega arith) ((λ s. refl), ((λ s. refl), ((λ s. refl), tt)))
