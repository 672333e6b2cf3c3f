-- ===== src/Auth/Lockout.antt =====
-- Logins: when one succeeds, what it changes, and how wrong passwords lock an account.
use project_risk_system.Base.{
  ℕ, suc, ◌+◌, ◌<◌, String, ◌≡◌, refl, ap, ◌∙◌, Bool, true, false, ◌&&◌, not, some, List, [], ◌∷◌,
  arith, inl, inr, Bool-cases, length,
}
use native.Mathlib.Nat.{add-zero}
use project_risk_system.Auth.Store.{
  active, locked, User, AuthMethod, password, AuthStore, Outcome, ok, err, RuntimeSecurity,
  runtime_security, write_user, record_audit,
}
use project_risk_system.Auth.Login.{
  Attempt, minutes, is_disabled, is_locked, locked_past, issue_session, unlocked, failed_attempt,
  login_user,
}

-- Who may log in with a password now: an account that is not disabled, whose lock if any has run out,
-- and whose hash the password fits.
abbrev pub may_login : Attempt → String → User → Bool
may_login a secret u =
    not (is_disabled u.status)
    && not (is_locked u.status && locked_past u.locked_until a.now)
    && a.externals.verify u.password_hash secret

abbrev pub succeeded {ℓ} : {A : Type ℓ} → Outcome A → Bool
succeeded (ok r) = true
succeeded (err e) = false

unlocked-hash : (u : User) → (unlocked u).password_hash ≡ u.password_hash
unfolding unlocked
unlocked-hash u = ground arith

same_check :
    (a : Attempt) (secret : String) (u : User) (b : Bool)
    → a.externals.verify u.password_hash secret ≡ b
    → a.externals.verify (unlocked u).password_hash secret ≡ b
same_check a secret u b h = ap (λ k. a.externals.verify k secret) (unlocked-hash u) ∙ h

issue_session-succeeded :
    (a : Attempt) (u : User) (m : AuthMethod) (s : AuthStore)
    → succeeded (issue_session a u m s).0 ≡ true
unfolding issue_session
issue_session-succeeded a u m s = refl

-- A login with a password succeeds exactly for who may log in, whatever the state of the store.
pub login-iff-may_login :
    (a : Attempt) (secret : String) (u : User) (s : AuthStore)
    → succeeded (login_user a secret u s).0 ≡ may_login a secret u
unfolding login_user
login-iff-may_login a secret u s = elim (Bool-cases (is_disabled u.status)) [
  | inl off ↦ rw off
  | inr on ↦ elim (Bool-cases (is_locked u.status && locked_past u.locked_until a.now)) [
    | inl shut ↦ rw (on, shut)
    | inr open_now ↦ elim (Bool-cases (a.externals.verify u.password_hash secret)) [
      | inl good ↦
          rw (on, open_now, good, same_check a secret u true good)
            (issue_session-succeeded a (unlocked u) password s)
      | inr bad ↦ rw (on, open_now, bad, same_check a secret u false bad)
    ]
  ]
]

-- A login that is refused opens no session, whatever the reason.
pub refused_login_opens_nothing :
    (a : Attempt) (secret : String) (u : User) (s : AuthStore)
    → may_login a secret u ≡ false
    → (login_user a secret u s).1.sessions ≡ s.sessions
unfolding login_user write_user record_audit
refused_login_opens_nothing a secret u s h = elim (Bool-cases (is_disabled u.status)) [
  | inl off ↦ rw off
  | inr on ↦ elim (Bool-cases (is_locked u.status && locked_past u.locked_until a.now)) [
    | inl shut ↦ rw (on, shut)
    | inr open_now ↦
        let bad : a.externals.verify u.password_hash secret ≡ false = ground arith in
        rw (on, open_now, same_check a secret u false bad)
  ]
]

-- The row of an account over wrong passwords at the given instants, none of them inside a lock.
abbrev pub wrong_passwords : RuntimeSecurity → List ℕ → User → User
wrong_passwords security [] u = u
wrong_passwords security (now ∷ rest) u =
    wrong_passwords security rest (failed_attempt security now (unlocked u))

-- The row of an account after `n` wrong passwords that did not reach the limit.
record HasFailed (n : ℕ) (u : User) : Type 0 where
  open_now : u.status ≡ active
  counted : u.failed_login_count ≡ n

failed_attempt-HasFailed :
    (security : RuntimeSecurity) (now n : ℕ) (u : User)
    → HasFailed n u
    → n + 1 < security.login_max_attempts
    → HasFailed (n + 1) (failed_attempt security now (unlocked u))
unfolding failed_attempt unlocked
failed_attempt-HasFailed security now n u h less = ground arith

wrong_passwords-HasFailed :
    (security : RuntimeSecurity) (nows : List ℕ) (n : ℕ) (u : User)
    → HasFailed n u
    → n + length nows < security.login_max_attempts
    → HasFailed (n + length nows) (wrong_passwords security nows u)
wrong_passwords-HasFailed security [] n u h less = rw add-zero h
wrong_passwords-HasFailed security (now ∷ rest) n u h less =
    let step : n + suc (length rest) ≡ (n + 1) + length rest = omega arith in
    rw step (
      wrong_passwords-HasFailed security rest (n + 1) (failed_attempt security now (unlocked u))
        (failed_attempt-HasFailed security now n u h (omega arith)) (omega arith))

locks_at_limit :
    (security : RuntimeSecurity) (last n : ℕ) (u : User)
    → HasFailed n u
    → n + 1 ≡ security.login_max_attempts
    → let w = failed_attempt security last (unlocked u) in
      (w.status ≡ locked) × (w.locked_until ≡ some (last + minutes security.login_lock_minutes))
unfolding failed_attempt unlocked
locks_at_limit security last n u h e = ground arith

-- From a clean row, wrong passwords short of the limit leave the account active, and the one that
-- reaches the limit locks it for the configured minutes from its own instant.
pub wrong_passwords_lock :
    (security : RuntimeSecurity) (nows : List ℕ) (last : ℕ) (u : User)
    → u.status ≡ active
    → u.failed_login_count ≡ 0
    → length nows + 1 ≡ security.login_max_attempts
    → let v = wrong_passwords security nows u in
      let w = failed_attempt security last (unlocked v) in
      (v.status ≡ active)
      × (w.status ≡ locked)
      × (w.locked_until ≡ some (last + minutes security.login_lock_minutes))
wrong_passwords_lock security nows last u e z limit =
    let start : HasFailed 0 u = record { open_now = e; counted = z } in
    let h = wrong_passwords-HasFailed security nows 0 u start (omega arith) in
    let l =
      locks_at_limit security last (0 + length nows) (wrong_passwords security nows u) h
        (omega arith) in
    (h.open_now, l.0, l.1)

-- A wrong password, tried outside a lock on an account that is not disabled, writes exactly the row
-- of one more failed attempt and touches no session.
pub wrong_password_writes :
    (a : Attempt) (secret : String) (u : User) (s : AuthStore)
    → (not (is_disabled u.status) && not (is_locked u.status && locked_past u.locked_until a.now))
      ≡ true
    → a.externals.verify u.password_hash secret ≡ false
    → let s' = (login_user a secret u s).1 in
      (s'.users
        ≡ (write_user
            (failed_attempt (runtime_security a.configuration s) a.now (unlocked u))
            s).users)
      × (s'.sessions ≡ s.sessions)
unfolding login_user write_user record_audit
wrong_password_writes a secret u s may bad =
    let on : is_disabled u.status ≡ false = ground arith in
    let open_now : (is_locked u.status && locked_past u.locked_until a.now) ≡ false =
      ground arith in
    (
      rw (on, open_now, same_check a secret u false bad),
      rw (on, open_now, same_check a secret u false bad),
    )
