-- ===== src/Agent/Once.antt =====
-- A confirmation token is used once.
use project_risk_system.Base.{
  ℕ, String, ◌≡◌, refl, sym, ap, Bool, true, false, ◌==◌, Option, none, some, List, is_some, inl,
  inr, Bool-cases, arith,
}
use mathlib.Core.Path.{subst}
use project_risk_system.Base.Table.{select_first, select_first-overwrite, select_first-passes}
use project_risk_system.Agent.Token.{
  Token, ConfirmError, AuditContext, AgentStore, AgentExternals, Confirmed, ok, err, ◌>>=◌, ensure,
  token_context, token_or_error, content_of, Opened, has_digest, open_token, used, write_token,
  owner_mismatch,
}
use project_risk_system.Agent.Confirm.{
  Call, ConfirmResult, authorise, execute, perform, replay, result_of, success_audit, with_audit,
  confirm_checked, settled, confirm,
}

pub bind-ok {ℓ κ} :
    {A : Type ℓ} {B : Type κ} (r : Confirmed A) (f : A → Confirmed B) (b : B)
    → (r >>= f) ≡ ok b
    → (a : A) × (r ≡ ok a) × (f a ≡ ok b)
bind-ok (ok a) f b h = (a, refl, h)
bind-ok (err context e) f b h = absurd (cc h)

pub ensure-ok :
    (good : Bool) (context : AuditContext) (e : ConfirmError)
    → ensure good context e ≡ ok tt
    → good ≡ true
ensure-ok true context e h = refl
ensure-ok false context e h = absurd (cc h)

pub ok-inj {ℓ} : {A : Type ℓ} {a b : A} → ok a ≡ ok b → a ≡ b
ok-inj e = cc

-- The token that a call opens stands in the table under its digest, its owner calls, and nobody holds it.
pub record IsOpened (x : AgentExternals) (tokens : List Token) (user_id : ℕ) (raw : String)
    (o : Opened) : Type 0 where
  pub stored : select_first (has_digest (x.sha256 raw)) tokens ≡ some o.token
  pub mine : (o.token.owner_user_id == user_id) ≡ true
  pub read : content_of x o.token ≡ ok o.content

token_or_error-ok :
    (locked : Bool) (t : Option Token) (k : Token) → token_or_error locked t ≡ ok k → t ≡ some k
token_or_error-ok locked none k h = absurd (cc h)
token_or_error-ok true (some j) k h = absurd (cc h)
token_or_error-ok false (some j) k h = ap some (ok-inj h)

pub open_token-IsOpened :
    (x : AgentExternals) (tokens : List Token) (user_id : ℕ) (raw : String) (locked : Bool)
    (o : Opened)
    → open_token x tokens user_id raw locked ≡ ok o
    → IsOpened x tokens user_id raw o
unfolding open_token
open_token-IsOpened x tokens user_id raw locked o h =
    let row = select_first (has_digest (x.sha256 raw)) tokens in
    let (k, there, h1) = bind-ok (token_or_error locked row) _ o h in
    let (_, mine, h2) =
      bind-ok (ensure (k.owner_user_id == user_id) (token_context k) owner_mismatch) _ o h1 in
    let (c, read, h3) = bind-ok (content_of x k) _ o h2 in
    subst (IsOpened x tokens user_id raw) (ok-inj h3) (record {
      stored = token_or_error-ok locked row k there;
      mine = ensure-ok (k.owner_user_id == user_id) (token_context k) owner_mismatch mine;
      read = read;
    })

IsOpened-again :
    (x : AgentExternals) (tokens : List Token) (user_id : ℕ) (raw : String) (o : Opened)
    → IsOpened x tokens user_id raw o
    → open_token x tokens user_id raw false ≡ ok o
unfolding open_token
IsOpened-again x tokens user_id raw o h = rw (h.stored, h.mine, h.read) refl

-- The token of the call holds the result.
record IsSpent (x : AgentExternals) (tokens : List Token) (user_id : ℕ) (raw : String)
    (r : ConfirmResult) : Type 0 where
  opened : Opened
  there : IsOpened x tokens user_id raw opened
  at : ℕ
  risk_id : ℕ
  used_then : opened.token.used_at ≡ some at
  done : opened.token.result_resource_id ≡ some risk_id
  same : result_of opened.token.operation risk_id at ≡ r

-- Writing the result on the opened token leaves it opened, with the result.
used-IsOpened :
    (x : AgentExternals) (tokens : List Token) (user_id : ℕ) (raw : String) (o : Opened)
    (at risk_id : ℕ)
    → IsOpened x tokens user_id raw o
    → IsOpened x
        (write_token (used at risk_id o.token) tokens)
        user_id
        raw
        (record { token = used at risk_id o.token; content = o.content })
unfolding used content_of
used-IsOpened x tokens user_id raw o at risk_id h = record {
  stored =
      select_first-overwrite (has_digest (x.sha256 raw)) (λ j. j.id == o.token.id)
        (used at risk_id o.token) o.token tokens
        (select_first-passes (has_digest (x.sha256 raw)) tokens o.token h.stored) (ground arith)
        h.stored;
  mine = h.mine;
  read = h.read;
}

perform-IsSpent :
    (x : AgentExternals) (call : Call) (o : Opened) (s t : AgentStore) (r : ConfirmResult)
    → IsOpened x s.tokens call.user_id call.raw_token o
    → perform x call o s ≡ ok (t, r)
    → IsSpent x t.tokens call.user_id call.raw_token r
unfolding perform
perform-IsSpent x call o s t r opened h =
    let (u, _, h1) = bind-ok (authorise x call o s) _ (t, r) h in
    let (out, _, h2) = bind-ok (execute x call o.token.operation o u s) _ (t, r) h1 in
    let result = ok-inj h2 in
    let spent : IsSpent x (write_token (used call.completed_at out.1.id o.token) s.tokens)
        call.user_id call.raw_token (result_of o.token.operation out.1.id call.completed_at) =
      record {
        opened = record { token = used call.completed_at out.1.id o.token; content = o.content };
        there =
            used-IsOpened x s.tokens call.user_id call.raw_token o call.completed_at out.1.id
              opened;
        at = call.completed_at;
        risk_id = out.1.id;
        used_then = unfold used in refl;
        done = unfold used in refl;
        same = unfold used in refl;
      } in
    subst (λ (p : AgentStore × ConfirmResult). IsSpent x p.0.tokens call.user_id call.raw_token p.1)
      result spent

pub replay-ok :
    (call : Call) (o : Opened) (s t : AgentStore) (r : ConfirmResult) (a b : Option ℕ)
    → replay call o s a b ≡ ok (t, r)
    → (at : ℕ) × (risk_id : ℕ) × (a ≡ some at)
      × (b ≡ some risk_id)
      × (with_audit (success_audit call.user_id o risk_id) s ≡ t)
      × (result_of o.token.operation risk_id at ≡ r)
replay-ok call o s t r (some at) (some risk_id) h =
    let same = ok-inj h in
    (
      at,
      risk_id,
      refl,
      refl,
      ap (λ (p : AgentStore × ConfirmResult). p.0) same,
      ap (λ (p : AgentStore × ConfirmResult). p.1) same,
    )
replay-ok call o s t r none b h = absurd (cc h)
replay-ok call o s t r (some at) none h = absurd (cc h)

confirm_checked-IsSpent :
    (x : AgentExternals) (call : Call) (s t : AgentStore) (r : ConfirmResult)
    → confirm_checked x call s ≡ ok (t, r)
    → IsSpent x t.tokens call.user_id call.raw_token r
unfolding confirm_checked
confirm_checked-IsSpent x call s t r h =
    let (o, opened, h1) =
      bind-ok (open_token x s.tokens call.user_id call.raw_token call.locked) _ (t, r) h in
    let here = open_token-IsOpened x s.tokens call.user_id call.raw_token call.locked o opened in
    elim (Bool-cases (is_some o.token.used_at)) [
      | inl spent ↦
          let h2 : replay call o s o.token.used_at o.token.result_resource_id ≡ ok (t, r) =
            rw spent at h1 in
          let (at, risk_id, used_then, done, kept, same) =
            replay-ok call o s t r o.token.used_at o.token.result_resource_id h2 in
          subst (λ (v : AgentStore). IsSpent x v.tokens call.user_id call.raw_token r) kept
            (record {
              opened = o;
              there = here;
              at = at;
              risk_id = risk_id;
              used_then = used_then;
              done = done;
              same = same;
            })
      | inr fresh ↦
          let h2 : perform x call o s ≡ ok (t, r) = rw fresh at h1 in
          perform-IsSpent x call o s t r here h2
    ]

IsSpent-again :
    (x : AgentExternals) (again : Call) (s : AgentStore) (r : ConfirmResult)
    → IsSpent x s.tokens again.user_id again.raw_token r
    → again.locked ≡ false
    → (confirm x again s).0 ≡ ok r
      × ((confirm x again s).1.rows ≡ s.rows)
      × ((confirm x again s).1.tokens ≡ s.tokens)
unfolding confirm confirm_checked settled
IsSpent-again x again s r h free =
    let open_again = IsOpened-again x s.tokens again.user_id again.raw_token h.opened h.there in
    rw (free, open_again, h.used_then, h.done) (ap ok h.same, refl, refl)

pub settled-ok :
    (user_id : ℕ) (s : AgentStore) (c : Confirmed (AgentStore × ConfirmResult)) (r : ConfirmResult)
    → (settled user_id s c).0 ≡ ok r
    → c ≡ ok ((settled user_id s c).1, r)
unfolding settled
settled-ok user_id s (ok (t, q)) r h = ap (λ v. ok (t, v)) (ok-inj h)
settled-ok user_id s (err context e) r h = absurd (cc h)

-- Once a confirmation has succeeded, a further call of its user with the same token, unless another
-- transaction holds it, gives the same result at whatever time, and changes neither rows nor tokens.
pub confirm_again :
    (x : AgentExternals) (call again : Call) (s : AgentStore) (r : ConfirmResult)
    → (confirm x call s).0 ≡ ok r
    → again.user_id ≡ call.user_id
    → again.raw_token ≡ call.raw_token
    → again.locked ≡ false
    → let t = (confirm x call s).1 in
      ((confirm x again t).0 ≡ ok r)
      × ((confirm x again t).1.rows ≡ t.rows)
      × ((confirm x again t).1.tokens ≡ t.tokens)
confirm_again x call again s r h same_user same_token free =
    let t = (confirm x call s).1 in
    let spent =
      confirm_checked-IsSpent x call s t r
        (unfold confirm in settled-ok call.user_id s (confirm_checked x call s) r h) in
    IsSpent-again x again t r
      (subst (λ (i : ℕ). IsSpent x t.tokens i again.raw_token r) (sym same_user)
        (subst (λ (raw : String). IsSpent x t.tokens call.user_id raw r) (sym same_token) spent))
      free
