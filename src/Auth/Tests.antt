-- ===== src/Auth/Tests.antt =====
-- The theorems of authentication at one user with one session.
use project_risk_system.Base.{
  ◌+◌, ◌<◌, ◌≤◌, ◌≡◌, ◌≢◌, refl, true, false, none, some, [], ◌∷◌, arith,
}
use project_risk_system.Base.Text.{any_char, char_count, contains}
use project_risk_system.Rbac.Scopes.{owned, assigned, Project, delivery, project_scope_predicate}
use project_risk_system.Auth.Store.{
  active, locked, password, AuthStore, ok, RuntimeSecurity, configuration_valid, runtime_security,
  user_by_id, session_by_hash, session_by_id,
}
use project_risk_system.Auth.Access.{aggregate_data_scope, authenticated_user}
use project_risk_system.Auth.Login.{
  Attempt, minutes, logged_in, new_session, login_user, failed_attempt, unlocked,
}
use project_risk_system.Auth.Session.{
  SessionIdentity, identity_of, authenticate, check_session, logout,
}
use project_risk_system.Auth.Password.{PasswordChange, change_checked, password_policy_violations}
use project_risk_system.Auth.Bounds.{
  IsBounded, runtime_security-IsBounded, IsStrong, changed_password-IsStrong,
}
use project_risk_system.Auth.Lockout.{
  may_login, succeeded, login-iff-may_login, wrong_passwords, wrong_passwords_lock,
}
use project_risk_system.Auth.Revocation.{password_change_revokes, logout_ends_session}
use project_risk_system.Auth.Opened.{opened, expires, opened_session_authenticates}
use project_risk_system.Auth.Samples.{plain, alice, bob, session_of, store, no_roles}
use project_risk_system.Auth.Coverage.{shown_by_some, aggregate_shows_union}

abbrev defaults : RuntimeSecurity
defaults = record {
  session_hours = 12;
  login_max_attempts = 5;
  login_lock_minutes = 30;
  password_min_length = 12;
}

abbrev attempt : Attempt
attempt = record {
  now = 5000;
  token = "c";
  session_id = 30;
  context = record { client_ip = none; user_agent = none };
  externals = plain;
  configuration = defaults;
  access = no_roles;
}

login-iff-may_login_example :
    succeeded (login_user attempt "old" alice store).0 ≡ may_login attempt "old" alice
login-iff-may_login_example = login-iff-may_login attempt "old" alice store

wrong_passwords_lock_example :
    let v = wrong_passwords defaults (1 ∷ 2 ∷ 3 ∷ 4 ∷ []) alice in
    let w = failed_attempt defaults 5 (unlocked v) in
    (v.status ≡ active) × (w.status ≡ locked) × (w.locked_until ≡ some (5 + minutes 30))
wrong_passwords_lock_example =
    wrong_passwords_lock defaults (1 ∷ 2 ∷ 3 ∷ 4 ∷ []) 5 alice refl refl (omega arith)

abbrev change : PasswordChange
change = record {
  current_password = "old";
  new_password = "Long-enough-1";
  confirm_password = "Long-enough-1";
}

abbrev after_change : AuthStore
after_change = (change_checked plain defaults 6000 change alice store).1

abbrev bobs_identity : SessionIdentity
bobs_identity = identity_of (session_of 20 "b" 2) bob no_roles

changes : (change_checked plain defaults 6000 change alice store).0 ≡ none
unfolding change_checked password_policy_violations runtime_security any_char char_count contains
changes = refl

bob_stays : (authenticate plain no_roles 7000 "b" after_change).0 ≡ ok bobs_identity
unfolding change_checked password_policy_violations runtime_security any_char char_count contains
    authenticate check_session session_by_hash user_by_id
bob_stays = refl

password_change_revokes_example : bobs_identity.user.id ≢ alice.id
password_change_revokes_example =
    password_change_revokes plain defaults 6000 change alice store no_roles 7000 "b" bobs_identity
      changes bob_stays

changed_password-IsStrong_example :
    (change.new_password ≡ change.confirm_password)
    × (plain.verify alice.password_hash change.current_password ≡ true)
    × (plain.verify alice.password_hash change.new_password ≡ false)
    × IsStrong plain change.new_password 12 (some alice.username)
unfolding configuration_valid
changed_password-IsStrong_example =
    changed_password-IsStrong plain defaults 6000 change alice store refl changes

runtime_security-IsBounded_example : IsBounded (runtime_security defaults store)
unfolding configuration_valid
runtime_security-IsBounded_example = runtime_security-IsBounded defaults store refl

abbrev alices_identity : SessionIdentity
alices_identity = identity_of (session_of 10 "a" 1) alice no_roles

leaves : (logout alices_identity 6000 store).0 ≡ ok tt
unfolding logout session_by_id authenticated_user
leaves = refl

bob_stays_in :
    (authenticate plain no_roles 7000 "b" (logout alices_identity 6000 store).1).0
    ≡ ok bobs_identity
unfolding logout session_by_id authenticate check_session session_by_hash user_by_id
bob_stays_in = refl

logout_ends_session_example : bobs_identity.session_id ≢ alices_identity.session_id
logout_ends_session_example =
    logout_ends_session plain alices_identity 6000 store no_roles 7000 "b" bobs_identity leaves
      bob_stays_in

abbrev project : Project
project = record {
  id = 4;
  name = "P";
  delivery_owner_name = none;
  manager_id = some 1;
  status = delivery;
}

aggregate_shows_union_example :
    project_scope_predicate [] 1 (aggregate_data_scope (owned ∷ assigned ∷ [])) project
    ≡ shown_by_some [] 1 (owned ∷ assigned ∷ []) project
aggregate_shows_union_example = aggregate_shows_union [] 1 (owned ∷ assigned ∷ []) project

opened_session_authenticates_example :
    let s = opened attempt alice alice password store in
    let end_of = expires attempt alice alice password store in
    let r = authenticate plain no_roles 6000 "c" s in
    (6000 < end_of
      → r.0
        ≡ ok (
            identity_of
              (new_session attempt alice password end_of)
              (logged_in 5000 alice)
              no_roles))
    × (end_of ≤ 6000 → succeeded r.0 ≡ false)
unfolding user_by_id session_by_hash
opened_session_authenticates_example =
    opened_session_authenticates attempt alice alice password store refl refl no_roles 6000
