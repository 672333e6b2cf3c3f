-- ===== src/Auth/Password.antt =====
-- auth/policy.py and `change_password` of auth/service.py.
use project_risk_system.Base.{
  ℕ, String, Bool, true, false, ◌&&◌, ◌||◌, not, Option, none, some, List, [], ◌∷◌, ◌++◌, ◌==◌, ltb,
  leb, if◌then◌else◌,
}
use project_risk_system.Base.Text.{any_char, char_count, contains, is_empty, append}
use project_risk_system.Base.Decimal.{decimal}
use Prim.Native.Char.{Char, code}
use text.Mathlib.Text.{◌==◌ as str_eq}
use project_risk_system.Auth.Store.{
  is_active, User, Session, AuthStore, ApiError, Externals, unauthorized, RuntimeSecurity,
  runtime_security, user_by_id, session_by_id, write_user, revoke_user_sessions, record_audit,
  failure, success,
}
use project_risk_system.Auth.Session.{SessionIdentity, session_live}

abbrev pub is_lower : Char → Bool
is_lower c = leb 97 (code c) && leb (code c) 122

abbrev pub is_upper : Char → Bool
is_upper c = leb 65 (code c) && leb (code c) 90

abbrev is_ascii_digit : Char → Bool
is_ascii_digit c = leb 48 (code c) && leb (code c) 57

-- [^A-Za-z0-9]
abbrev pub is_special : Char → Bool
is_special c = not (is_lower c || is_upper c || is_ascii_digit c)

pub data PolicyViolation : Type 0 where
  too_short : ℕ → PolicyViolation
  no_lower no_upper no_digit no_special contains_username : PolicyViolation

abbrev pub when : Bool → PolicyViolation → List PolicyViolation
when true v = v ∷ []
when false v = []

abbrev pub names_user : Externals → Option String → String → Bool
names_user x none secret = false
names_user x (some name) secret =
    not (is_empty name) && contains (x.casefold name) (x.casefold secret)

unfoldable pub password_policy_violations :
    Externals → String → ℕ → Option String → List PolicyViolation
unfolding any_char char_count contains
password_policy_violations x secret minimum_length username =
    when (ltb (char_count secret) minimum_length) (too_short minimum_length)
    ++ (when (not (any_char is_lower secret)) no_lower
        ++ (when (not (any_char is_upper secret)) no_upper
            ++ (when (not (any_char x.is_decimal secret)) no_digit
                ++ (when (not (any_char is_special secret)) no_special
                    ++ when (names_user x username secret) contains_username))))

abbrev describe : PolicyViolation → String
describe (too_short n) = append "密码长度至少为 " (append (decimal n) " 位")
describe no_lower = "密码需包含小写字母"
describe no_upper = "密码需包含大写字母"
describe no_digit = "密码需包含数字"
describe no_special = "密码需包含特殊字符"
describe contains_username = "密码不能包含登录账号"

-- "；".join(violations)
abbrev join_violations : List PolicyViolation → String
join_violations [] = ""
join_violations (v ∷ vs) = join_rest (describe v) vs
  where
    join_rest : String → List PolicyViolation → String
    join_rest done [] = done
    join_rest done (w ∷ ws) = join_rest (append done (append "；" (describe w))) ws

abbrev pub no_violations : List PolicyViolation → Bool
no_violations [] = true
no_violations (v ∷ vs) = false

-- The three passwords of the request.
pub record PasswordChange : Type 0 where
  pub current_password : String
  pub new_password : String
  pub confirm_password : String

-- `None` is success.
abbrev pub PasswordResult : Type 0
PasswordResult = Option ApiError × AuthStore

password_failure : User → String → String → AuthStore → PasswordResult
unfolding record_audit
password_failure u reason text s = (
  some (record { status = 400; code = "BAD_REQUEST"; message = text }),
  record_audit (failure (some u.id) (some u.id) "USER" "AUTH_PASSWORD_CHANGE_FAILED" reason) s,
)

unfoldable pub changed : String → ℕ → User → User
changed new_hash now u = record u {
  password_hash = new_hash;
  must_change_password = false;
  password_changed_at = some now;
  failed_login_count = 0;
  locked_until = none;
}

store_password : Externals → ℕ → String → User → AuthStore → PasswordResult
unfolding changed write_user revoke_user_sessions record_audit
store_password x now secret u s = (
  none,
  record_audit (success u.id "AUTH_PASSWORD_CHANGED" "USER" u.id)
      (revoke_user_sessions u.id now (write_user (changed (x.hash secret) now u) s)),
)

-- The checks on the passwords, once the session is accepted.
unfoldable pub change_checked :
    Externals → RuntimeSecurity → ℕ → PasswordChange → User → AuthStore → PasswordResult
unfolding password_failure store_password
change_checked x configuration now p u s =
    let violations =
      password_policy_violations x p.new_password
        (runtime_security configuration s).password_min_length (some u.username) in
    if not (str_eq p.new_password p.confirm_password)
    then password_failure u "PASSWORD_CONFIRMATION_MISMATCH" "两次输入的新密码不一致" s
    else if not (x.verify u.password_hash p.current_password)
    then password_failure u "CURRENT_PASSWORD_INVALID" "当前密码不正确" s
    else if x.verify u.password_hash p.new_password
    then password_failure u "PASSWORD_REUSE" "新密码不能与当前密码相同" s
    else if not (no_violations violations)
    then password_failure u "PASSWORD_POLICY_VIOLATION" (join_violations violations) s
    else store_password x now p.new_password u s

-- The session and the user of the identity, both still good and belonging together.
abbrev pub session_accepted : ℕ → Option User → Option Session → Bool
session_accepted now (some u) (some r) =
    is_active u.status && r.user_id == u.id && session_live r now
session_accepted now _ _ = false

refused_change : SessionIdentity → AuthStore → PasswordResult
unfolding record_audit
refused_change who s = (
  some (unauthorized "登录状态已失效，请重新登录"),
  record_audit
      (failure none (some who.session_id) "SESSION" "AUTH_PASSWORD_CHANGE_FAILED" "SESSION_INVALID")
      s,
)

change_found :
    Externals
    → RuntimeSecurity
    → SessionIdentity
    → ℕ
    → PasswordChange
    → Option User
    → Option Session
    → AuthStore
    → PasswordResult
unfolding change_checked refused_change
change_found x configuration who now p (some u) row s =
    if session_accepted now (some u) row
    then change_checked x configuration now p u s
    else refused_change who s
change_found x configuration who now p none row s = refused_change who s

unfoldable pub change_password :
    Externals → RuntimeSecurity → SessionIdentity → ℕ → PasswordChange → AuthStore → PasswordResult
unfolding change_found user_by_id session_by_id
change_password x configuration who now p s =
    change_found x configuration who now p (user_by_id who.user.id s)
      (session_by_id who.session_id s) s
