-- ===== src/Agent/Authorised.antt =====
-- What a confirmation that does its operation has made sure of.
use project_risk_system.Base.{
  ℕ, ◌<◌, ◌≡◌, refl, sym, ap, true, false, not, ◌==◌, Option, none, some, leb, is_some, ◌⊎◌, inl,
  inr, Bool-cases, arith,
}
use project_risk_system.Base.Table.{select_first}
use project_risk_system.Base.Strings.{member}
use text.Mathlib.Text.{◌==◌ as str_eq}
use project_risk_system.Auth.Store.{User, is_active, user_by_id, password}
use project_risk_system.Auth.Access.{AuthenticatedUser, authenticated_user}
use project_risk_system.Rbac.Scopes.{get_scoped_project}
use project_risk_system.Agent.Token.{
  AuditContext, AgentStore, AgentExternals, ok, err, ensure, Opened, open_token, full_context,
  content_mismatch, expired,
}
use project_risk_system.Agent.Confirm.{
  Call, ConfirmResult, active_user, current_user, scope_fact, permission_for, owns_conversation,
  authorise, perform, replay, confirm_checked, confirm,
}
use project_risk_system.Agent.Once.{
  bind-ok, ensure-ok, ok-inj, open_token-IsOpened, replay-ok, settled-ok,
}

-- The user of the call may do the operation of the token now.
pub record IsAuthorised (x : AgentExternals) (call : Call) (s : AgentStore) (o : Opened)
    : Type 0 where
  pub in_time : call.now < o.token.expires_at
  pub owner : (o.token.owner_user_id == call.user_id) ≡ true
  pub conversation :
      owns_conversation
        (select_first (λ c. c.id == o.token.conversation_id) s.conversations)
        call.user_id
      ≡ true
  pub row : User
  pub stored : user_by_id call.user_id s.auth ≡ some row
  pub active_now : is_active row.status ≡ true
  pub user : AuthenticatedUser
  pub current : authenticated_user row (x.access row.id) password ≡ user
  pub permitted : member (permission_for o.token.operation) user.permissions ≡ true
  pub scope_kept : str_eq (x.scope_digest (scope_fact user s.rows)) o.token.scope_digest ≡ true
  pub visible :
      is_some (
        get_scoped_project s.rows.assignments o.content.project_id user.id user.data_scope
          s.rows.projects)
      ≡ true

active_user-ok :
    (x : AgentExternals) (context : AuditContext) (row : Option User) (u : AuthenticatedUser)
    → active_user x context row ≡ ok u
    → (v : User) × (row ≡ some v)
      × (is_active v.status ≡ true)
      × (authenticated_user v (x.access v.id) password ≡ u)
active_user-ok x context none u h = absurd (cc h)
active_user-ok x context (some v) u h = elim (Bool-cases (is_active v.status)) [
  | inl on ↦
      let h' : ok (authenticated_user v (x.access v.id) password) ≡ ok u = rw on at h in
      (v, refl, on, ok-inj h')
  | inr off ↦ absurd (refused (rw off at h))
]
  where
    refused : err context content_mismatch ≡ ok u → ⊥
    refused e = cc e

authorise-IsAuthorised :
    (x : AgentExternals) (call : Call) (o : Opened) (s : AgentStore) (u : AuthenticatedUser)
    → (o.token.owner_user_id == call.user_id) ≡ true
    → authorise x call o s ≡ ok u
    → IsAuthorised x call s o
unfolding authorise current_user
authorise-IsAuthorised x call o s u mine h =
    let context = full_context o.token o.content in
    let in_time = not (leb o.token.expires_at call.now) in
    let talk =
      owns_conversation (select_first (λ c. c.id == o.token.conversation_id) s.conversations)
        call.user_id in
    let (_, timely, h1) = bind-ok (ensure in_time context expired) _ u h in
    let (_, owned, h2) = bind-ok (ensure talk context content_mismatch) _ u h1 in
    let (v, active, h3) = bind-ok (active_user x context (user_by_id call.user_id s.auth)) _ u h2 in
    let scope = str_eq (x.scope_digest (scope_fact v s.rows)) o.token.scope_digest in
    let (_, same, h4) = bind-ok (ensure scope context content_mismatch) _ u h3 in
    let allowed = member (permission_for o.token.operation) v.permissions in
    let (_, may, h5) = bind-ok (ensure allowed context content_mismatch) _ u h4 in
    let seen = is_some (
      get_scoped_project s.rows.assignments o.content.project_id v.id v.data_scope
        s.rows.projects) in
    let (_, shown, _) = bind-ok (ensure seen context content_mismatch) _ u h5 in
    let (row, stored, on, is_v) =
      active_user-ok x context (user_by_id call.user_id s.auth) v active in
    let timely_now = ensure-ok in_time context expired timely in
    record {
      in_time = ground arith;
      owner = mine;
      conversation = ensure-ok talk context content_mismatch owned;
      row = row;
      stored = stored;
      active_now = on;
      user = v;
      current = is_v;
      permitted = ensure-ok allowed context content_mismatch may;
      scope_kept = ensure-ok scope context content_mismatch same;
      visible = ensure-ok seen context content_mismatch shown;
    }

-- The token was used before by its owner, and the result is the one that it kept.
pub record IsReplayed (x : AgentExternals) (call : Call) (s : AgentStore) (r : ConfirmResult)
    : Type 0 where
  pub opened : Opened
  pub found : open_token x s.tokens call.user_id call.raw_token call.locked ≡ ok opened
  pub owner : (opened.token.owner_user_id == call.user_id) ≡ true
  pub used_at : ℕ
  pub was_used : opened.token.used_at ≡ some used_at
  pub risk_id : ℕ
  pub kept_id : opened.token.result_resource_id ≡ some risk_id
  pub same_operation : r.operation ≡ opened.token.operation
  pub same_resource : r.resource_id ≡ risk_id
  pub same_time : r.completed_at ≡ used_at

confirm_checked_lem :
    (x : AgentExternals) (call : Call) (s t : AgentStore) (r : ConfirmResult)
    → confirm_checked x call s ≡ ok (t, r)
    → (IsReplayed x call s r × (t.rows ≡ s.rows) × (t.tokens ≡ s.tokens))
      ⊎ ((o : Opened) × (open_token x s.tokens call.user_id call.raw_token call.locked ≡ ok o)
          × (is_some o.token.used_at ≡ false)
          × IsAuthorised x call s o)
unfolding confirm_checked perform
confirm_checked_lem x call s t r h =
    let (o, opened, h1) =
      bind-ok (open_token x s.tokens call.user_id call.raw_token call.locked) _ (t, r) h in
    let here = open_token-IsOpened x s.tokens call.user_id call.raw_token call.locked o opened in
    elim (Bool-cases (is_some o.token.used_at)) [
      | inl spent ↦
          let h2 : replay call o s o.token.used_at o.token.result_resource_id ≡ ok (t, r) =
            rw spent at h1 in
          let (at, risk_id, was_used, kept_id, kept, same) =
            replay-ok call o s t r o.token.used_at o.token.result_resource_id h2 in
          inl (
            record {
              opened = o;
              found = opened;
              owner = here.mine;
              used_at = at;
              was_used = was_used;
              risk_id = risk_id;
              kept_id = kept_id;
              same_operation = sym (ap (λ (v : ConfirmResult). v.operation) same);
              same_resource = sym (ap (λ (v : ConfirmResult). v.resource_id) same);
              same_time = sym (ap (λ (v : ConfirmResult). v.completed_at) same);
            },
            sym (ap (λ (v : AgentStore). v.rows) kept),
            sym (ap (λ (v : AgentStore). v.tokens) kept),
          )
      | inr fresh ↦
          let h2 : perform x call o s ≡ ok (t, r) = rw fresh at h1 in
          let (u, may, _) = bind-ok (authorise x call o s) _ (t, r) h2 in
          inr (o, opened, fresh, authorise-IsAuthorised x call o s u here.mine may)
    ]

-- A confirmation that succeeds finds the user's own token. Either the token was used before, and the result
-- is its operation, the resource that it kept and the time at which it was used, with rows and tokens
-- unchanged; or it is unused and not expired, and the user, active now, has the token's conversation,
-- permission and scope, with the project of the content in it.
pub confirm-IsAuthorised :
    (x : AgentExternals) (call : Call) (s : AgentStore) (r : ConfirmResult)
    → (confirm x call s).0 ≡ ok r
    → (IsReplayed x call s r
        × ((confirm x call s).1.rows ≡ s.rows)
        × ((confirm x call s).1.tokens ≡ s.tokens))
      ⊎ ((o : Opened) × (open_token x s.tokens call.user_id call.raw_token call.locked ≡ ok o)
          × (is_some o.token.used_at ≡ false)
          × IsAuthorised x call s o)
confirm-IsAuthorised x call s r h =
    let t = (confirm x call s).1 in
    let checked : confirm_checked x call s ≡ ok (t, r) =
      unfold confirm in settled-ok call.user_id s (confirm_checked x call s) r h in
    confirm_checked_lem x call s t r checked
