-- ===== src/Auth/Login.antt =====
-- `login`, `wechat_login` and `issue_wechat_session` of auth/service.py, each one transaction: the
-- outcome is returned before it commits, so what a refusal writes stays written.
use project_risk_system.Base.{
  ℕ, ◌+◌, ◌*◌, String, Bool, true, false, ◌&&◌, Option, none, some, [], ◌∷◌, ◌++◌, ltb, leb,
  if◌then◌else◌,
}
use project_risk_system.Base.Text.{strip, take_chars, is_empty, append}
use project_risk_system.Auth.Store.{
  UserStatus, active, disabled, locked, User, AuthMethod, password, wechat, Session, AuditRow,
  AuthStore, ApiError, Outcome, ok, err, Externals, unauthorized, RuntimeSecurity, runtime_security,
  user_by_id, user_by_username, user_by_mobile, write_user, record_audit, failure, success,
}
use project_risk_system.Auth.Access.{UserAccess, AuthenticatedUser, authenticated_user}

pub record RequestContext : Type 0 where
  pub client_ip : Option String
  pub user_agent : Option String

pub record LoginResult : Type 0 where
  pub token : String
  pub expires_at : ℕ
  pub user : AuthenticatedUser

abbrev pub minutes : ℕ → ℕ
minutes n = n * 60000

abbrev pub hours : ℕ → ℕ
hours n = n * 3600000

-- `user.lockedUntil and user.lockedUntil > now`
abbrev pub locked_past : Option ℕ → ℕ → Bool
locked_past none now = false
locked_past (some t) now = ltb now t

abbrev pub is_locked : UserStatus → Bool
is_locked locked = true
is_locked _ = false

abbrev pub is_disabled : UserStatus → Bool
is_disabled disabled = true
is_disabled _ = false

abbrev map_option : (String → String) → Option String → Option String
map_option f none = none
map_option f (some s) = some (f s)

-- `text[:500] if text else None`
abbrev clip_agent : Option String → Option String
clip_agent none = none
clip_agent (some s) = if is_empty s then none else some (take_chars 500 s)

abbrev pub login_action : AuthMethod → String
login_action password = "AUTH_PASSWORD_LOGIN_SUCCESS"
login_action wechat = "AUTH_WECHAT_LOGIN_SUCCESS"

-- What one attempt reads from outside the store: the clock, the new session's token and id, the
-- externals, the configuration, the roles of each user.
pub record Attempt : Type 0 where
  pub now : ℕ
  pub token : String
  pub session_id : ℕ
  pub context : RequestContext
  pub externals : Externals
  pub configuration : RuntimeSecurity
  pub access : ℕ → UserAccess

unfoldable pub logged_in : ℕ → User → User
logged_in now u = record u {
  status = active;
  failed_login_count = 0;
  locked_until = none;
  last_login_at = some now;
}

unfoldable pub new_session : Attempt → User → AuthMethod → ℕ → Session
new_session a u method expires = record {
  id = a.session_id;
  token_hash = a.externals.digest "session-token" a.token;
  user_id = u.id;
  expires_at = expires;
  revoked_at = none;
  client_ip_hash = map_option (a.externals.digest "client-ip") a.context.client_ip;
  user_agent = clip_agent a.context.user_agent;
  auth_method = method;
}

unfoldable pub issue_session :
    Attempt → User → AuthMethod → AuthStore → Outcome LoginResult × AuthStore
unfolding logged_in new_session runtime_security write_user record_audit authenticated_user
issue_session a u method s =
    let expires = a.now + hours (runtime_security a.configuration s).session_hours in
    let u' = logged_in a.now u in
    let s' = write_user u' s in
    (
      ok (record {
        token = a.token;
        expires_at = expires;
        user = authenticated_user u' (a.access u.id) method;
      }),
      record_audit (success u.id (login_action method) "SESSION" a.session_id)
          (record s' { sessions = s'.sessions ++ new_session a u method expires ∷ [] }),
    )

abbrev wrong_credentials : ApiError
wrong_credentials = unauthorized "账号或密码错误"

-- A lock that has run out is lifted before the password is tried.
unfoldable pub unlocked : User → User
unlocked u =
    if is_locked u.status
    then record u { status = active; failed_login_count = 0; locked_until = none }
    else u

-- The row after a wrong password.
unfoldable pub failed_attempt : RuntimeSecurity → ℕ → User → User
failed_attempt security now u =
    let count = u.failed_login_count + 1 in
    let should_lock = leb security.login_max_attempts count in
    record u {
      failed_login_count = count;
      status = if should_lock then locked else active;
      locked_until = if should_lock then some (now + minutes security.login_lock_minutes) else none;
    }

abbrev attempt_audit : User → AuditRow
attempt_audit u =
    if is_locked u.status
    then failure none (some u.id) "USER" "AUTH_ACCOUNT_LOCKED" "ACCOUNT_LOCKED"
    else failure none (some u.id) "USER" "AUTH_LOGIN_FAILED" "INVALID_CREDENTIALS"

abbrev lock_instant : Option ℕ → ℕ
lock_instant none = 0
lock_instant (some t) = t

-- `_login_transaction` once the row of the user is at hand.
unfoldable pub login_user : Attempt → String → User → AuthStore → Outcome LoginResult × AuthStore
login_user a secret u s =
    if is_disabled u.status
    then (
      err wrong_credentials,
      record_audit (failure none (some u.id) "USER" "AUTH_LOGIN_FAILED" "ACCOUNT_DISABLED") s,
    )
    else if is_locked u.status && locked_past u.locked_until a.now
    then (
      err (record {
        status = 423;
        code = "ACCOUNT_LOCKED";
        message =
            append "账号已锁定，请于 "
              (append (a.externals.format_expiration (lock_instant u.locked_until)) " 后重试");
      }),
      record_audit (failure none (some u.id) "USER" "AUTH_LOGIN_FAILED" "ACCOUNT_LOCKED") s,
    )
    else let v = unlocked u in
      if a.externals.verify v.password_hash secret
      then issue_session a v password s
      else let w = failed_attempt (runtime_security a.configuration s) a.now v in
        (err wrong_credentials, record_audit (attempt_audit w) (write_user w s))

-- The password is checked against a dummy hash where there is no such user; only time depends on it.
login_found : Attempt → String → Option User → AuthStore → Outcome LoginResult × AuthStore
unfolding login_user record_audit
login_found a secret none s = (
  err wrong_credentials,
  record_audit (failure none none "USER" "AUTH_LOGIN_FAILED" "INVALID_CREDENTIALS") s,
)
login_found a secret (some u) s = login_user a secret u s

unfoldable pub login : Attempt → String → String → AuthStore → Outcome LoginResult × AuthStore
unfolding login_found user_by_username
login a username secret s =
    login_found a secret (user_by_username a.externals (a.externals.casefold (strip username)) s) s

unfoldable pub account_status_error : User → ℕ → Option ApiError
account_status_error u now =
    if is_disabled u.status
    then some (record { status = 403; code = "ACCOUNT_DISABLED"; message = "账号已停用" })
    else if is_locked u.status && locked_past u.locked_until now
    then some (record { status = 423; code = "ACCOUNT_LOCKED"; message = "账号已锁定" })
    else none

unless_refused : Attempt → User → Option ApiError → AuthStore → Outcome LoginResult × AuthStore
unfolding issue_session
unless_refused a u (some e) s = (err e, s)
unless_refused a u none s = issue_session a u wechat s

unfoldable pub wechat_session :
    Attempt → ApiError → Option User → AuthStore → Outcome LoginResult × AuthStore
unfolding unless_refused account_status_error
wechat_session a missing none s = (err missing, s)
wechat_session a missing (some u) s = unless_refused a u (account_status_error u a.now) s

unfoldable pub wechat_login : Attempt → String → AuthStore → Outcome LoginResult × AuthStore
unfolding wechat_session user_by_mobile
wechat_login a mobile s =
    wechat_session a
      (record { status = 404; code = "WECHAT_USER_NOT_BOUND"; message = "微信用户未绑定系统账号" })
      (user_by_mobile mobile s) s

unfoldable pub issue_wechat_session : Attempt → ℕ → AuthStore → Outcome LoginResult × AuthStore
unfolding wechat_session user_by_id
issue_wechat_session a user_id s = wechat_session a (unauthorized "登录失败") (user_by_id user_id s) s
