-- ===== src/Auth/Revocation.antt =====
-- What ends a session ends it for good.
use project_risk_system.Base.{
  ℕ, String, ◌≡◌, ◌≢◌, refl, sym, ◌∙◌, true, ◌&&◌, not, Option, none, some, List, [], ◌∷◌, arith,
  ◌==◌, inl, inr, Bool-cases, Option-cases, ==_iff, All, is_some,
}
use project_risk_system.Base.Table.{update_where, All-update_where, select_first-fits}
use project_risk_system.Auth.Store.{
  is_active, User, Session, AuthStore, ApiError, ok, err, Externals, RuntimeSecurity, user_by_id,
  session_by_hash, session_by_id, write_user, revoke, revoke_user_sessions,
}
use project_risk_system.Auth.Bounds.{change_checked-guards}
use project_risk_system.Auth.Access.{UserAccess}
use project_risk_system.Auth.Session.{
  SessionIdentity, session_live, session_user, identity_of, check_session, authenticate, closed,
  logout_row, logout,
}
use project_risk_system.Auth.Password.{PasswordChange, changed, change_checked}

-- Every session of the user is revoked.
abbrev pub AllRevoked : ℕ → AuthStore → Type 0
AllRevoked user_id s = All (λ r. r.user_id ≡ user_id → is_some r.revoked_at ≡ true) s.sessions

All-Unit {ℓ} : {A : Type ℓ} (xs : List A) → All (λ _. Unit {0}) xs
All-Unit [] = tt
All-Unit (x ∷ xs) = (tt, All-Unit xs)

-- Who is let in: the live session of the token, and its active user.
record LetIn (x : Externals) (now : ℕ) (token : String) (s : AuthStore) (who : SessionIdentity)
    : Type 0 where
  session : Session
  found : session_by_hash (x.digest "session-token" token) s ≡ some session
  live : session_live session now ≡ true
  same_session : who.session_id ≡ session.id
  same_user : who.user.id ≡ session.user_id

checked-LetIn :
    (x : Externals) (access : ℕ → UserAccess) (now : ℕ) (token : String) (s : AuthStore)
    (who : SessionIdentity) (row : Option Session) (user : Option User)
    → session_by_hash (x.digest "session-token" token) s ≡ row
    → session_user row s ≡ user
    → (check_session access now row user s).0 ≡ ok who
    → LetIn x now token s who
unfolding check_session user_by_id
checked-LetIn x access now token s who none user e f h = absurd (ground arith)
checked-LetIn x access now token s who (some r) none e f h = absurd (ground arith)
checked-LetIn x access now token s who (some r) (some u) e f h =
    elim (Bool-cases (session_live r now && is_active u.status)) [
      | inl good ↦
          let h' : ok (identity_of r u access) ≡ ok who = rw good at h in
          let same : identity_of r u access ≡ who = cc in
          let fits =
            (select_first-fits (λ _. Unit {0}) (λ v. v.id == r.user_id) s.users u f
              (All-Unit s.users)).0 in
          record {
            session = r;
            found = e;
            live = ground arith;
            same_session = rw (← same);
            same_user = rw (← same) ((==_iff u.id r.user_id).0 fits);
          }
      | inr bad ↦ absurd (refused who (rw bad at h))
    ]
  where
    refused : {e' : ApiError} (w : SessionIdentity) → err e' ≡ ok w → ⊥
    refused w p = cc p

authenticate-LetIn :
    (x : Externals) (access : ℕ → UserAccess) (now : ℕ) (token : String) (s : AuthStore)
    (who : SessionIdentity)
    → (authenticate x access now token s).0 ≡ ok who
    → LetIn x now token s who
unfolding authenticate
authenticate-LetIn x access now token s who h =
    let row = session_by_hash (x.digest "session-token" token) s in
    checked-LetIn x access now token s who row (session_user row s) refl refl h

pub authenticate-AllRevoked :
    (x : Externals) (access : ℕ → UserAccess) (now user_id : ℕ) (token : String) (s : AuthStore)
    (who : SessionIdentity)
    → AllRevoked user_id s
    → (authenticate x access now token s).0 ≡ ok who
    → who.user.id ≢ user_id
unfolding session_by_hash
authenticate-AllRevoked x access now user_id token s who gone e same =
    let l = authenticate-LetIn x access now token s who e in
    let revoked =
      (select_first-fits (λ r. r.user_id ≡ user_id → is_some r.revoked_at ≡ true) _ s.sessions
          l.session l.found gone).1
        (sym l.same_user ∙ same) in
    let live = l.live in absurd (ground arith)

pub revoke_user_sessions-AllRevoked :
    (user_id now : ℕ) (s : AuthStore) → AllRevoked user_id (revoke_user_sessions user_id now s)
unfolding revoke_user_sessions
revoke_user_sessions-AllRevoked user_id now s =
    All-update_where (λ r. Unit {0}) (λ r. r.user_id ≡ user_id → is_some r.revoked_at ≡ true)
      (λ r. r.user_id == user_id && not (is_some r.revoked_at)) (revoke now) s.sessions
      (λ r hit _ e. unfold revoke in refl) (λ r miss _ e. ground arith) (All-Unit s.sessions)

changed-AllRevoked :
    (x : Externals) (c : RuntimeSecurity) (now : ℕ) (p : PasswordChange) (u : User) (s : AuthStore)
    → (change_checked x c now p u s).0 ≡ none
    → AllRevoked u.id (change_checked x c now p u s).1
unfolding change_checked
changed-AllRevoked x c now p u s done =
    let g = change_checked-guards x c now p u s done in
    rw (g.0, g.1, g.2, g.3)
      (revoke_user_sessions-AllRevoked u.id now
        (write_user (changed (x.hash p.new_password) now u) s))

-- A password change that succeeds ends every session of the user: afterwards no token, at whatever
-- time and under whatever roles, authenticates as that user.
pub password_change_revokes :
    (x : Externals) (c : RuntimeSecurity) (now : ℕ) (p : PasswordChange) (u : User) (s : AuthStore)
    (access : ℕ → UserAccess) (later : ℕ) (token : String) (who : SessionIdentity)
    → (change_checked x c now p u s).0 ≡ none
    → (authenticate x access later token (change_checked x c now p u s).1).0 ≡ ok who
    → who.user.id ≢ u.id
password_change_revokes x c now p u s access later token who done =
    authenticate-AllRevoked x access later u.id token (change_checked x c now p u s).1 who
      (changed-AllRevoked x c now p u s done)

closed-revoked : (now : ℕ) (r : Session) → is_some (closed now r).revoked_at ≡ true
unfolding closed
closed-revoked now r = ground arith

closed-AllClosed :
    (i now : ℕ) (rows : List Session)
    → All
        (λ r. r.id ≡ i → is_some r.revoked_at ≡ true)
        (update_where (λ q. q.id == i) (closed now) rows)
closed-AllClosed i now rows =
    All-update_where (λ r. Unit {0}) (λ r. r.id ≡ i → is_some r.revoked_at ≡ true) (λ q. q.id == i)
      (closed now) rows (λ r hit _ e. closed-revoked now r) (λ r miss _ e. absurd (ground arith))
      (All-Unit rows)

logout-AllClosed :
    (mine : SessionIdentity) (now : ℕ) (s : AuthStore)
    → (logout mine now s).0 ≡ ok tt
    → All (λ r. r.id ≡ mine.session_id → is_some r.revoked_at ≡ true) (logout mine now s).1.sessions
unfolding logout
logout-AllClosed mine now s done = elim (Option-cases (session_by_id mine.session_id s)) [
  | inl absent ↦ absurd (ground arith)
  | inr (r, found) ↦ elim (Bool-cases (r.user_id == mine.user.id)) [
    | inl owner ↦
        let here : r.id ≡ mine.session_id =
          (==_iff r.id mine.session_id).0
            (select_first-fits (λ _. Unit {0}) (λ q. q.id == mine.session_id) s.sessions r found
              (All-Unit s.sessions)).0 in
        rw (found, logout_row)
          (rw owner (rw here (closed-AllClosed mine.session_id now s.sessions)))
    | inr other ↦ absurd (ground arith)
  ]
]

-- A logout that succeeds ends the session: afterwards no token, at whatever time, authenticates as
-- that session.
pub logout_ends_session :
    (x : Externals) (mine : SessionIdentity) (now : ℕ) (s : AuthStore) (access : ℕ → UserAccess)
    (later : ℕ) (token : String) (who : SessionIdentity)
    → (logout mine now s).0 ≡ ok tt
    → (authenticate x access later token (logout mine now s).1).0 ≡ ok who
    → who.session_id ≢ mine.session_id
unfolding session_by_hash
logout_ends_session x mine now s access later token who done e same =
    let l = authenticate-LetIn x access later token (logout mine now s).1 who e in
    let gone = logout-AllClosed mine now s done in
    let revoked =
      (select_first-fits (λ r. r.id ≡ mine.session_id → is_some r.revoked_at ≡ true) _
          (logout mine now s).1.sessions l.session l.found gone).1
        (sym l.same_session ∙ same) in
    let live = l.live in absurd (ground arith)
