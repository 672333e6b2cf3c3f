-- ===== src/Auth/Store.antt =====
-- The rows of auth/models.py and of the users, the audit facts, and what auth/service.py takes from
-- elsewhere: argon2, HMAC, Unicode tables and the clock's format are fields of `Externals`.
use project_risk_system.Base.{
  ℕ, String, Bool, true, false, ◌&&◌, not, Option, none, some, List, [], ◌∷◌, ◌++◌, leb, ◌==◌,
  if◌then◌else◌, is_some,
}
use project_risk_system.Base.Json
use project_risk_system.Base.Json.{JsonValue, JsonObject, number}
use project_risk_system.Base.Table.{select_first, update_where}
use Prim.Native.Char.{Char}
use text.Mathlib.Text.{◌==◌ as str_eq}

pub data UserStatus : Type 0 where
  active disabled locked : UserStatus

abbrev pub is_active : UserStatus → Bool
is_active active = true
is_active _ = false

-- A row of `users`, without createdAt and updatedAt.
pub record User : Type 0 where
  pub id : ℕ
  pub username : String
  pub password_hash : String
  pub display_name : String
  pub email : Option String
  pub mobile : Option String
  pub department_id : Option ℕ
  pub status : UserStatus
  pub must_change_password : Bool
  pub failed_login_count : ℕ
  pub locked_until : Option ℕ
  pub last_login_at : Option ℕ
  pub password_changed_at : Option ℕ

pub data AuthMethod : Type 0 where
  password wechat : AuthMethod

pub record Session : Type 0 where
  pub id : ℕ
  pub token_hash : String
  pub user_id : ℕ
  pub expires_at : ℕ
  pub revoked_at : Option ℕ
  pub client_ip_hash : Option String
  pub user_agent : Option String
  pub auth_method : AuthMethod

-- An audit row of the modules AUTH and ADMIN_USER: a success has no failure code. The actor type is USER where there is
-- an actor, and SYSTEM otherwise.
pub record AuditRow : Type 0 where
  pub actor_id : Option ℕ
  pub action : String
  pub resource_type : String
  pub resource_id : Option ℕ
  pub failure_code : Option String

-- `security` is the security object of the latest published configuration, if there is one.
pub record AuthStore : Type 0 where
  pub users : List User
  pub sessions : List Session
  pub audit : List AuditRow
  pub security : Option JsonObject

-- ApiError(status, code, message)
pub record ApiError : Type 0 where
  pub status : ℕ
  pub code : String
  pub message : String

pub data Outcome {ℓ} (A : Type ℓ) : Type ℓ where
  ok : A → Outcome A
  err : ApiError → Outcome A

pub record Externals : Type 0 where
  pub casefold : String → String
  pub sql_lower : String → String
  pub verify : String → String → Bool  -- argon2: hash, password
  pub hash : String → String  -- argon2, with a fresh salt
  pub digest : String → String → String  -- HMAC-SHA256 under the session key: purpose, value
  pub format_expiration : ℕ → String
  pub is_decimal : Char → Bool  -- the class \d of `re`

abbrev pub unauthorized : String → ApiError
unauthorized text = record { status = 401; code = "UNAUTHORIZED"; message = text }

-- AuthConfiguration and RuntimeSecurity
pub record RuntimeSecurity : Type 0 where
  pub session_hours : ℕ
  pub login_max_attempts : ℕ
  pub login_lock_minutes : ℕ
  pub password_min_length : ℕ

abbrev in_range : ℕ → ℕ → ℕ → Bool
in_range value minimum maximum = leb minimum value && leb value maximum

-- `AuthConfiguration.__post_init__`: the limits of the process's configuration.
unfoldable pub configuration_valid : RuntimeSecurity → Bool
configuration_valid c =
    in_range c.session_hours 1 168
    && in_range c.login_max_attempts 3 20
    && in_range c.login_lock_minutes 1 1440
    && in_range c.password_min_length 12 128

-- `_bounded_int`: a Boolean, a negative number, a float or anything else is not in range.
unfoldable pub bounded_int : Option JsonValue → ℕ → ℕ → ℕ → ℕ
bounded_int (some (number n)) fallback minimum maximum =
    if in_range n minimum maximum then n else fallback
bounded_int _ fallback minimum maximum = fallback

abbrev pub setting : Option JsonObject → String → Option JsonValue
setting none key = none
setting (some o) key = Json.lookup key o

unfoldable pub runtime_security : RuntimeSecurity → AuthStore → RuntimeSecurity
unfolding bounded_int
runtime_security c s = record {
  session_hours = bounded_int (setting s.security "sessionHours") c.session_hours 1 168;
  login_max_attempts =
      bounded_int (setting s.security "loginMaxAttempts") c.login_max_attempts 3 20;
  login_lock_minutes =
      bounded_int (setting s.security "loginLockMinutes") c.login_lock_minutes 1 1440;
  password_min_length =
      bounded_int (setting s.security "passwordMinLength") c.password_min_length 12 128;
}

unfoldable pub user_by_id : ℕ → AuthStore → Option User
user_by_id i s = select_first (λ u. u.id == i) s.users

unfoldable pub user_by_username : Externals → String → AuthStore → Option User
user_by_username x name s =
    select_first (λ u. str_eq (x.sql_lower u.username) (x.casefold name)) s.users

abbrev text_holds : Option String → String → Bool
text_holds none s = false
text_holds (some t) s = str_eq t s

unfoldable pub user_by_mobile : String → AuthStore → Option User
user_by_mobile mobile s = select_first (λ u. text_holds u.mobile mobile) s.users

unfoldable pub session_by_hash : String → AuthStore → Option Session
session_by_hash h s = select_first (λ r. str_eq r.token_hash h) s.sessions

unfoldable pub session_by_id : ℕ → AuthStore → Option Session
session_by_id i s = select_first (λ r. r.id == i) s.sessions

-- The flush of a changed user row.
unfoldable pub write_user : User → AuthStore → AuthStore
write_user u s = record s { users = update_where (λ v. v.id == u.id) (λ _. u) s.users }

unfoldable pub revoke : ℕ → Session → Session
revoke now r = record r { revoked_at = some now }

unfoldable pub revoke_user_sessions : ℕ → ℕ → AuthStore → AuthStore
unfolding revoke
revoke_user_sessions user_id now s = record s {
  sessions =
      update_where (λ r. r.user_id == user_id && not (is_some r.revoked_at)) (revoke now)
        s.sessions;
}

unfoldable pub record_audit : AuditRow → AuthStore → AuthStore
record_audit row s = record s { audit = s.audit ++ row ∷ [] }

abbrev pub failure : Option ℕ → Option ℕ → String → String → String → AuditRow
failure actor resource kind act reason = record {
  actor_id = actor;
  action = act;
  resource_type = kind;
  resource_id = resource;
  failure_code = some reason;
}

abbrev pub success : ℕ → String → String → ℕ → AuditRow
success actor act kind resource = record {
  actor_id = some actor;
  action = act;
  resource_type = kind;
  resource_id = some resource;
  failure_code = none;
}
