-- ===== src/Auth/Samples.antt =====
-- Rows of users and sessions on which the theorems are tried.
use project_risk_system.Base.{ℕ, String, true, false, none, [], ◌∷◌}
use text.Mathlib.Text.{◌==◌ as str_eq}
use project_risk_system.Auth.Store.{User, active, Session, AuthStore, Externals, password}
use project_risk_system.Auth.Access.{UserAccess}

-- Externals in which the hash of a password is the password.
abbrev pub plain : Externals
plain = record {
  casefold = λ s. s;
  sql_lower = λ s. s;
  verify = λ stored secret. str_eq stored secret;
  hash = λ s. s;
  digest = λ purpose s. s;
  format_expiration = λ n. "";
  is_decimal = λ c. true;
}

abbrev pub alice : User
alice = record {
  id = 1;
  username = "alice";
  password_hash = "old";
  display_name = "Alice";
  email = none;
  mobile = none;
  department_id = none;
  status = active;
  must_change_password = false;
  failed_login_count = 0;
  locked_until = none;
  last_login_at = none;
  password_changed_at = none;
}

abbrev pub bob : User
bob = record alice { id = 2; username = "bob" }

abbrev pub session_of : ℕ → String → ℕ → Session
session_of i token user = record {
  id = i;
  token_hash = token;
  user_id = user;
  expires_at = 90000;
  revoked_at = none;
  client_ip_hash = none;
  user_agent = none;
  auth_method = password;
}

abbrev pub store : AuthStore
store = record {
  users = alice ∷ bob ∷ [];
  sessions = session_of 10 "a" 1 ∷ session_of 20 "b" 2 ∷ [];
  audit = [];
  security = none;
}

abbrev pub no_roles : ℕ → UserAccess
no_roles i = record { department_name = none; roles = []; permissions = [] }
