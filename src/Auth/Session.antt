-- ===== src/Auth/Session.antt =====
-- `authenticate`, `record_missing_session` and `logout` of auth/service.py.
use project_risk_system.Base.{
  ℕ, String, Bool, ◌&&◌, not, Option, none, some, ◌==◌, leb, if◌then◌else◌, is_some,
}
use project_risk_system.Base.Table.{update_where}
use project_risk_system.Auth.Store.{
  is_active, User, AuthMethod, Session, AuthStore, Outcome, ok, err, Externals, unauthorized,
  user_by_id, session_by_hash, session_by_id, record_audit, failure, success,
}
use project_risk_system.Auth.Access.{UserAccess, AuthenticatedUser, authenticated_user}

pub record SessionIdentity : Type 0 where
  pub session_id : ℕ
  pub expires_at : ℕ
  pub user : AuthenticatedUser
  pub auth_method : AuthMethod

abbrev session_resource : Option Session → Option ℕ
session_resource none = none
session_resource (some r) = some r.id

abbrev pub session_user : Option Session → AuthStore → Option User
session_user none s = none
session_user (some r) s = user_by_id r.user_id s

-- The rejected cases share one answer.
unfoldable pub invalid_session : Option Session → AuthStore → Outcome SessionIdentity × AuthStore
unfolding record_audit
invalid_session row s = (
  err (unauthorized "登录状态已失效，请重新登录"),
  record_audit
      (failure none (session_resource row) "SESSION" "AUTH_SESSION_INVALID" "SESSION_INVALID") s,
)

abbrev pub identity_of : Session → User → (ℕ → UserAccess) → SessionIdentity
identity_of r u access = record {
  session_id = r.id;
  expires_at = r.expires_at;
  user = authenticated_user u (access u.id) r.auth_method;
  auth_method = r.auth_method;
}

abbrev pub session_live : Session → ℕ → Bool
session_live r now = not (is_some r.revoked_at) && not (leb r.expires_at now)

unfoldable pub check_session :
    (ℕ → UserAccess)
    → ℕ
    → Option Session
    → Option User
    → AuthStore
    → Outcome SessionIdentity × AuthStore
unfolding invalid_session authenticated_user
check_session access now (some r) (some u) s =
    if session_live r now && is_active u.status
    then (ok (identity_of r u access), s)
    else invalid_session (some r) s
check_session access now row user s = invalid_session row s

unfoldable pub authenticate :
    Externals → (ℕ → UserAccess) → ℕ → String → AuthStore → Outcome SessionIdentity × AuthStore
unfolding check_session session_by_hash user_by_id
authenticate x access now token s =
    let row = session_by_hash (x.digest "session-token" token) s in
    check_session access now row (session_user row s) s

unfoldable pub record_missing_session : AuthStore → AuthStore
unfolding record_audit
record_missing_session =
    record_audit (failure none none "SESSION" "AUTH_SESSION_INVALID" "SESSION_MISSING")

abbrev or_now : Option ℕ → ℕ → Option ℕ
or_now none now = some now
or_now (some t) now = some t

unfoldable pub closed : ℕ → Session → Session
closed now r = record r { revoked_at = or_now r.revoked_at now }

refused_logout : SessionIdentity → AuthStore → Outcome (Unit {0}) × AuthStore
unfolding record_audit
refused_logout who s = (
  err (unauthorized "登录状态已失效，请重新登录"),
  record_audit (failure none (some who.session_id) "SESSION" "AUTH_LOGOUT_FAILED" "SESSION_INVALID")
      s,
)

unfoldable pub logout_row :
    SessionIdentity → ℕ → Option Session → AuthStore → Outcome (Unit {0}) × AuthStore
unfolding refused_logout closed record_audit
logout_row who now none s = refused_logout who s
logout_row who now (some r) s =
    if r.user_id == who.user.id
    then (
      ok tt,
      record_audit (success who.user.id "AUTH_LOGOUT" "SESSION" who.session_id)
          (record s { sessions = update_where (λ q. q.id == r.id) (closed now) s.sessions }),
    )
    else refused_logout who s

unfoldable pub logout : SessionIdentity → ℕ → AuthStore → Outcome (Unit {0}) × AuthStore
unfolding logout_row session_by_id
logout who now s = logout_row who now (session_by_id who.session_id s) s
