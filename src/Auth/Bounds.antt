-- ===== src/Auth/Bounds.antt =====
-- The security settings in force, and the passwords that they let in.
use project_risk_system.Base.{
  ℕ, ◌≤◌, String, ◌≡◌, refl, Bool, true, false, not, Option, none, some, List, ◌++◌, arith, ltb,
}
use mathlib.Core.Bool.{false≢true}
use text.Mathlib.TextEquality.{eq_iff}
use project_risk_system.Base.Json.{JsonValue, number}
use project_risk_system.Base.Text.{any_char, char_count}
use text.Mathlib.Text.{◌==◌ as str_eq}
use project_risk_system.Auth.Store.{
  User, AuthStore, Externals, RuntimeSecurity, configuration_valid, setting, bounded_int,
  runtime_security,
}
use project_risk_system.Auth.Password.{
  PolicyViolation, too_short, no_lower, no_upper, no_digit, no_special, contains_username, when,
  names_user, is_lower, is_upper, is_special, password_policy_violations, no_violations,
  PasswordChange, change_checked,
}

abbrev IsWithin : ℕ → ℕ → ℕ → Type 0
IsWithin n minimum maximum = (minimum ≤ n) × (n ≤ maximum)

bounded_int-IsWithin :
    (v : Option JsonValue) (fallback minimum maximum : ℕ)
    → IsWithin fallback minimum maximum
    → IsWithin (bounded_int v fallback minimum maximum) minimum maximum
unfolding bounded_int
bounded_int-IsWithin none fallback minimum maximum h = h
bounded_int-IsWithin (some (number n)) fallback minimum maximum h = ground arith
bounded_int-IsWithin (some v) fallback minimum maximum h = ground arith

-- The limits of the four settings.
pub record IsBounded (c : RuntimeSecurity) : Type 0 where
  pub hours : IsWithin c.session_hours 1 168
  pub attempts : IsWithin c.login_max_attempts 3 20
  pub lock : IsWithin c.login_lock_minutes 1 1440
  pub length : IsWithin c.password_min_length 12 128

configuration_valid-IsBounded : (c : RuntimeSecurity) → configuration_valid c ≡ true → IsBounded c
unfolding configuration_valid
configuration_valid-IsBounded c h = ground arith

-- Under a configuration that the process accepts at its start, the settings in force stay within
-- their limits whatever values the published security object holds, of whatever type.
pub runtime_security-IsBounded :
    (c : RuntimeSecurity) (s : AuthStore)
    → configuration_valid c ≡ true
    → IsBounded (runtime_security c s)
unfolding runtime_security
runtime_security-IsBounded c s v =
    let h = configuration_valid-IsBounded c v in
    record {
      hours =
          bounded_int-IsWithin (setting s.security "sessionHours") c.session_hours 1 168 h.hours;
      attempts =
          bounded_int-IsWithin (setting s.security "loginMaxAttempts") c.login_max_attempts 3 20
            h.attempts;
      lock =
          bounded_int-IsWithin (setting s.security "loginLockMinutes") c.login_lock_minutes 1 1440
            h.lock;
      length =
          bounded_int-IsWithin (setting s.security "passwordMinLength") c.password_min_length 12 128
            h.length;
    }

-- What a password without violations has: the length, a character of each class, and no user name.
pub record IsStrong (x : Externals) (secret : String) (minimum_length : ℕ)
    (username : Option String) : Type 0 where
  pub long : minimum_length ≤ char_count secret
  pub lower : any_char is_lower secret ≡ true
  pub upper : any_char is_upper secret ≡ true
  pub digit : any_char x.is_decimal secret ≡ true
  pub special : any_char is_special secret ≡ true
  pub nameless : names_user x username secret ≡ false

no_when :
    (b : Bool) (v : PolicyViolation) (vs : List PolicyViolation)
    → no_violations (when b v ++ vs) ≡ true
    → (b ≡ false) × (no_violations vs ≡ true)
no_when true v vs h = absurd (false≢true h)
no_when false v vs h = (refl, h)

no_when_last : (b : Bool) (v : PolicyViolation) → no_violations (when b v) ≡ true → b ≡ false
no_when_last true v h = absurd (false≢true h)
no_when_last false v h = refl

true_if_not : (b : Bool) → not b ≡ false → b ≡ true
true_if_not b h = ground arith

policy-IsStrong :
    (x : Externals) (secret : String) (minimum_length : ℕ) (username : Option String)
    → no_violations (password_policy_violations x secret minimum_length username) ≡ true
    → IsStrong x secret minimum_length username
unfolding password_policy_violations
policy-IsStrong x secret minimum_length username h =
    let long = no_when (ltb (char_count secret) minimum_length) (too_short minimum_length) _ h in
    let lower = no_when (not (any_char is_lower secret)) no_lower _ long.1 in
    let upper = no_when (not (any_char is_upper secret)) no_upper _ lower.1 in
    let digit = no_when (not (any_char x.is_decimal secret)) no_digit _ upper.1 in
    let special = no_when (not (any_char is_special secret)) no_special _ digit.1 in
    record {
      long = let e = long.0 in ground arith;
      lower = true_if_not _ lower.0;
      upper = true_if_not _ upper.0;
      digit = true_if_not _ digit.0;
      special = true_if_not _ special.0;
      nameless = no_when_last _ contains_username special.1;
    }

pub change_checked-guards :
    (x : Externals) (c : RuntimeSecurity) (now : ℕ) (p : PasswordChange) (u : User) (s : AuthStore)
    → (change_checked x c now p u s).0 ≡ none
    → (str_eq p.new_password p.confirm_password ≡ true)
      × (x.verify u.password_hash p.current_password ≡ true)
      × (x.verify u.password_hash p.new_password ≡ false)
      × (no_violations (
            password_policy_violations x p.new_password
              (runtime_security c s).password_min_length
              (some u.username))
          ≡ true)
unfolding change_checked
change_checked-guards x c now p u s done = ground arith

-- A password change that succeeds was made with the current password and confirmed, and the new
-- password differs from it and is strong: under an accepted configuration, twelve characters at least.
pub changed_password-IsStrong :
    (x : Externals) (c : RuntimeSecurity) (now : ℕ) (p : PasswordChange) (u : User) (s : AuthStore)
    → configuration_valid c ≡ true
    → (change_checked x c now p u s).0 ≡ none
    → (p.new_password ≡ p.confirm_password)
      × (x.verify u.password_hash p.current_password ≡ true)
      × (x.verify u.password_hash p.new_password ≡ false)
      × IsStrong x p.new_password 12 (some u.username)
changed_password-IsStrong x c now p u s valid done =
    let g = change_checked-guards x c now p u s done in
    let strong =
      policy-IsStrong x p.new_password (runtime_security c s).password_min_length (some u.username)
        g.3 in
    let bound = (runtime_security-IsBounded c s valid).length in
    (
      (eq_iff p.new_password p.confirm_password).0 g.0,
      g.1,
      g.2,
      record {
        long = omega (arith, strong.long, bound);
        lower = strong.lower;
        upper = strong.upper;
        digit = strong.digit;
        special = strong.special;
        nameless = strong.nameless;
      },
    )
