-- ===== src/Auth/Opened.antt =====
-- A login and the requests after it: the session that `_issue_session` opens is the one that
-- `authenticate` finds.
use project_risk_system.Base.{
  ℕ, ◌+◌, ◌<◌, ◌≤◌, ◌≡◌, Bool, true, false, none, some, List, [], ◌∷◌, leb, inl, inr, arith, ◌==◌,
  Bool-cases,
}
use project_risk_system.Base.Table.{select_first, update_where, select_first-append_one}
use text.Mathlib.TextPositions.{eq_refl}
use text.Mathlib.Text.{◌==◌ as str_eq}
use project_risk_system.Auth.Store.{
  User, AuthMethod, AuthStore, ok, runtime_security, user_by_id, session_by_hash, write_user,
  record_audit,
}
use project_risk_system.Auth.Access.{UserAccess}
use project_risk_system.Auth.Login.{Attempt, hours, logged_in, new_session, issue_session}
use project_risk_system.Auth.Session.{
  identity_of, session_user, check_session, invalid_session, authenticate,
}
use project_risk_system.Auth.Lockout.{succeeded}

-- A row written over the rows that a select finds is what the select finds then.
select_first-overwrite :
    (q : User → Bool) (u v : User) (rows : List User)
    → q u ≡ true
    → select_first q rows ≡ some v
    → select_first q (update_where q (λ _. u) rows) ≡ some u
select_first-overwrite q u v [] e f = absurd (cc f)
select_first-overwrite q u v (w ∷ rows) e f = elim (Bool-cases (q w)) [
  | inl h ↦ rw (h, e)
  | inr h ↦ rw (h, h) (select_first-overwrite q u v rows e (rw h at f))
]

module _ (a : Attempt) (u v : User) (method : AuthMethod) (s : AuthStore) where
  abbrev pub opened : AuthStore
  opened = (issue_session a u method s).1

  abbrev pub expires : ℕ
  expires = a.now + hours (runtime_security a.configuration s).session_hours

  opened-user : user_by_id u.id s ≡ some v → user_by_id u.id opened ≡ some (logged_in a.now u)
  unfolding user_by_id issue_session write_user record_audit logged_in
  opened-user h =
      select_first-overwrite (λ w. w.id == u.id) (logged_in a.now u) v s.users (ground arith) h

  opened-session :
      let hash = a.externals.digest "session-token" a.token in
      session_by_hash hash s ≡ none
      → session_by_hash hash opened ≡ some (new_session a u method expires)
  unfolding session_by_hash issue_session write_user record_audit new_session
  opened-session h =
      let hash = a.externals.digest "session-token" a.token in
      select_first-append_one (λ r. str_eq r.token_hash hash) s.sessions
        (new_session a u method expires) h (eq_refl hash)

  opened-checked :
      (access : ℕ → UserAccess) (later : ℕ)
      → let r =
          check_session access later
            (some (new_session a u method expires))
            (some (logged_in a.now u))
            opened in
        (later < expires
          → r.0 ≡ ok (identity_of (new_session a u method expires) (logged_in a.now u) access))
        × (expires ≤ later → succeeded r.0 ≡ false)
  unfolding check_session new_session logged_in invalid_session
  opened-checked access later = (
    λ early. let live : leb expires later ≡ false = ground arith in rw live,
    λ late. let over : leb expires later ≡ true = ground arith in rw over,
  )

  -- The token of a session that a login opens for a user of the store, under a hash that no session has
  -- yet, authenticates as that user, under that session, before the session expires, and not from then on.
  pub opened_session_authenticates :
      user_by_id u.id s ≡ some v
      → session_by_hash (a.externals.digest "session-token" a.token) s ≡ none
      → (access : ℕ → UserAccess) (later : ℕ)
      → let r = authenticate a.externals access later a.token opened in
        (later < expires
          → r.0 ≡ ok (identity_of (new_session a u method expires) (logged_in a.now u) access))
        × (expires ≤ later → succeeded r.0 ≡ false)
  unfolding authenticate new_session
  opened_session_authenticates there fresh access later =
      let user : session_user (some (new_session a u method expires)) opened
          ≡ some (logged_in a.now u) =
        opened-user there in
      rw (opened-session fresh) (rw user (opened-checked access later))
