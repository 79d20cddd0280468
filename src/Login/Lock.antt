-- ===== src/Login/Lock.antt =====
-- `DBShieldAuth.authenticate` of common/auth.py with a wrong password for a user that is there.
use mathlib.Core.Path.{◌≡◌, refl, sym, ap, ◌∙◌}
use dbshield.Common.{
  ℕ, String, Option, none, some, List, [], ◌∷◌, ◌==◌, nat_eq, string_eq, eq_iff, find, pos, ok,
  Bool-cases, inl, inr, pure, ◌>>◌,
}
use dbshield.Common.Among.{find-Among}
use dbshield.Config
use dbshield.Config.{num}
use dbshield.Audit.Review.{to_int}
use dbshield.Login.State.{Account, Logins, named, put_account, save, clamped}
use dbshield.Login.Authenticate.{
  LoginAnswer, refused, locked, Lock, shut, over, free, lock_of, reset, failed_login, challenge,
  attempt, behind_lock, known_user, authenticate,
}

pub find-put_account :
    (name : String) (a : Account) (bs : List Account)
    → a.username ≡ name
    → find (named name) (put_account a bs) ≡ some a
unfolding put_account
find-put_account name a [] e = let k = (eq_iff a.username name).1 e in rw k refl
find-put_account name a (b ∷ bs) e =
    let k = (eq_iff a.username name).1 e in
    elim (Bool-cases (named a.username b)) [
      | inl f ↦ rw (f, k) refl
      | inr f ↦ rw (f, ap (λ n. b.username == n) (sym e) ∙ f) (find-put_account name a bs e)
    ]

-- the settings of the lock
pub record Locks (lock_count lock_time : ℕ) (s : Logins) : Type 0 where
  pub count : to_int (Config.get "lock_cnt_threshold" (num 5) s.settings).0 ≡ ok (pos lock_count)
  pub time : to_int (Config.get "lock_time_threshold" (num 300) s.settings).0 ≡ ok (pos lock_time)

-- the user's row after a wrong password, and the answer
abbrev pub after : Lock → Account → ℕ → Account
after shut user now = user
after over user now = clamped (failed_login (reset user) now)
after free user now = clamped (failed_login user now)

abbrev pub answer : Lock → ℕ → LoginAnswer
answer shut lock_time = locked (pos lock_time)
answer over lock_time = refused
answer free lock_time = refused

module _ (backend : String → String → Logins → Option Account × Logins) where
  -- what the lock says decides
  pub dispatched :
      (name password : String) (lock_count lock_time : ℕ) (user : Account) (s : Logins)
      → Locks lock_count lock_time s
      → find (named name) s.accounts ≡ some user
      → authenticate backend name password s
        ≡ behind_lock backend
            (lock_of (pos lock_count) (pos lock_time) s.now user)
            (pos lock_time)
            user
            password
            s
  unfolding authenticate known_user
  dispatched name password lock_count lock_time user s k f =
      let c = k.count in let t = k.time in rw (f, c, t) refl

  module _ (name password : String)
      (wrong : (s : Logins) → backend name password s ≡ (none, s)) where
    attempt_lem :
        (user : Account) (s : Logins)
        → user.username ≡ name
        → attempt backend user password s ≡ (save (failed_login user s.now) >> pure refused) s
    unfolding attempt challenge
    attempt_lem user s e = let w = ap (λ n. backend n password s) e ∙ wrong s in rw w refl

    behind_lock_lem :
        (l : Lock) (lock_time : ℕ) (user : Account) (s : Logins)
        → user.username ≡ name
        → find (named name) s.accounts ≡ some user
        → (let x = behind_lock backend l (pos lock_time) user password s in
            (x.0 ≡ ok (answer l lock_time))
            × (find (named name) x.1.accounts ≡ some (after l user s.now))
            × (x.1.settings ≡ s.settings))
    unfolding save
    behind_lock_lem shut lock_time user s e f = (refl, f, refl)
    behind_lock_lem over lock_time user s e f =
        rw (attempt_lem (reset user) _ e) (refl, find-put_account name _ _ e, refl)
    behind_lock_lem free lock_time user s e f =
        rw (attempt_lem user s e) (refl, find-put_account name _ _ e, refl)

    -- A wrong password: the answer is that of the lock, and the row counts it unless it is locked.
    pub authenticate_wrong :
        (lock_count lock_time : ℕ) (user : Account) (s : Logins)
        → Locks lock_count lock_time s
        → find (named name) s.accounts ≡ some user
        → (let x = authenticate backend name password s in
            let l = lock_of (pos lock_count) (pos lock_time) s.now user in
            (x.0 ≡ ok (answer l lock_time))
            × (find (named name) x.1.accounts ≡ some (after l user s.now))
            × (x.1.settings ≡ s.settings))
    authenticate_wrong lock_count lock_time user s k f =
        let l = lock_of (pos lock_count) (pos lock_time) s.now user in
        let (m, e) = find-Among (named name) s.accounts user f in
        let d = dispatched name password lock_count lock_time user s k f in
        let (x, y, z) = behind_lock_lem l lock_time user s ((eq_iff user.username name).0 e) f in
        (
          ap (λ p. p.0) d ∙ x,
          ap (λ p. find (named name) p.1.accounts) d ∙ y,
          ap (λ p. p.1.settings) d ∙ z,
        )
