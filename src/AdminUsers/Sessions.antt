-- ===== src/AdminUsers/Sessions.antt =====
-- Administrative changes that end the sessions of an account.
use project_risk_system.Base.{ℕ, String, ◌≡◌, ◌≢◌, Bool, true, false, not, ◌&&◌, ◌==◌, some}
use mathlib.Core.Path.{subst}
use project_risk_system.Auth.Store.{
  UserStatus, active, disabled, User, AuthStore, Externals, write_user, revoke_user_sessions,
  record_audit, user_by_id,
}
use project_risk_system.Auth.Store
use project_risk_system.Auth.Access.{UserAccess}
use project_risk_system.Auth.Session.{SessionIdentity, authenticate}
use project_risk_system.Auth.Revocation.{
  AllRevoked, authenticate-AllRevoked, revoke_user_sessions-AllRevoked,
}
use project_risk_system.AdminUsers.Store.{
  AdminStore, UserMutationRequest, own_account, Check, ok, require, user_or_error,
}
use project_risk_system.AdminUsers.Service.{
  update, update_checked, finish_update, write_status, status_checked, reset_checked, set_status,
  is_disabled_status, cleared, password_reset, reset_password,
}
use project_risk_system.AdminUsers.Checks.{bind-ok, mutation-ok}
use project_risk_system.AdminUsers.Ownership.{update_checked-replaced}

-- The changes: an account is disabled, its password is reset, or an update does not enable it.
pub data Closing : Type 0 where
  disabling : Closing
  resetting : String → Closing
  updating : (p : UserMutationRequest) → p.enabled ≡ false → Closing

abbrev pub run_closing : Externals → ℕ → ℕ → ℕ → Closing → AdminStore → Check × AdminStore
run_closing x now actor user_id disabling s = set_status now actor user_id disabled s
run_closing x now actor user_id (resetting secret) s = reset_password x now secret actor user_id s
run_closing x now actor user_id (updating p off) s = update x now actor user_id p s

finish_update-AllRevoked :
    (now actor user_id : ℕ) (enabled : Bool) (t : AdminStore)
    → enabled ≡ false
    → AllRevoked user_id (finish_update now actor user_id enabled t).auth
unfolding finish_update record_audit
finish_update-AllRevoked now actor user_id true t off = absurd (cc off)
finish_update-AllRevoked now actor user_id false t off =
    revoke_user_sessions-AllRevoked user_id now t.auth

ok_inj : {a b : AdminStore} → ok a ≡ ok b → a ≡ b
ok_inj e = cc

status_checked-AllRevoked :
    (now actor user_id : ℕ) (s t : AdminStore)
    → status_checked now actor user_id disabled s ≡ ok t
    → AllRevoked user_id t.auth
unfolding status_checked write_status record_audit
status_checked-AllRevoked now actor user_id s t h =
    let (_, _, h2) =
      bind-ok (require (not (user_id == actor && is_disabled_status disabled)) own_account) _ t h in
    let (u, _, h3) = bind-ok (user_or_error user_id s) _ t h2 in
    subst (λ (a : AdminStore). AllRevoked user_id a.auth) (ok_inj h3)
      (revoke_user_sessions-AllRevoked user_id now (write_user (cleared disabled u) s.auth))

reset_checked-AllRevoked :
    (x : Externals) (now : ℕ) (secret : String) (actor user_id : ℕ) (s t : AdminStore)
    → reset_checked x now secret actor user_id s ≡ ok t
    → AllRevoked user_id t.auth
unfolding reset_checked record_audit
reset_checked-AllRevoked x now secret actor user_id s t h =
    let (u, _, h1) = bind-ok (user_or_error user_id s) _ t h in
    subst (λ (a : AdminStore). AllRevoked user_id a.auth) (ok_inj h1)
      (revoke_user_sessions-AllRevoked user_id now (write_user (password_reset x secret u) s.auth))

closing-AllRevoked :
    (x : Externals) (now actor user_id : ℕ) (c : Closing) (s : AdminStore)
    → (run_closing x now actor user_id c s).0 ≡ ok tt
    → AllRevoked user_id (run_closing x now actor user_id c s).1.auth
unfolding set_status reset_password update
closing-AllRevoked x now actor user_id disabling s h =
    status_checked-AllRevoked now actor user_id s (set_status now actor user_id disabled s).1 (
      mutation-ok actor "ADMIN_USER_STATUS_UPDATED" (some user_id) s
        (status_checked now actor user_id disabled s) h)
closing-AllRevoked x now actor user_id (resetting secret) s h =
    reset_checked-AllRevoked x now secret actor user_id s
      (reset_password x now secret actor user_id s).1
      (mutation-ok actor "ADMIN_USER_PASSWORD_RESET" (some user_id) s
        (reset_checked x now secret actor user_id s) h)
closing-AllRevoked x now actor user_id (updating p off) s h =
    let t = (update x now actor user_id p s).1 in
    let done =
      mutation-ok actor "ADMIN_USER_UPDATED" (some user_id) s
        (update_checked x now actor user_id p s) h in
    let (u, r, _, finished) = update_checked-replaced x now actor user_id p s t done in
    subst (λ (a : AdminStore). AllRevoked user_id a.auth) finished
      (finish_update-AllRevoked now actor user_id p.enabled r off)

-- After an administrator has disabled an account, reset its password or updated it without enabling it,
-- no token, at whatever time and under whatever roles, authenticates as its user.
pub closing_ends_sessions :
    (x : Externals) (now actor user_id : ℕ) (c : Closing) (s : AdminStore) (access : ℕ → UserAccess)
    (later : ℕ) (token : String) (who : SessionIdentity)
    → (run_closing x now actor user_id c s).0 ≡ ok tt
    → (authenticate x access later token (run_closing x now actor user_id c s).1.auth).0
      ≡ Store.ok who
    → who.user.id ≢ user_id
closing_ends_sessions x now actor user_id c s access later token who done =
    authenticate-AllRevoked x access later user_id token
      (run_closing x now actor user_id c s).1.auth who
      (closing-AllRevoked x now actor user_id c s done)
