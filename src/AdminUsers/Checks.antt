-- ===== src/AdminUsers/Checks.antt =====
-- What a chain of checks that succeeds has passed.
use project_risk_system.Base.{ℕ, String, ◌≡◌, refl, Bool, true, false, Option}
use project_risk_system.AdminUsers.Store.{
  AdminStore, AdminError, Checked, ok, err, ◌>>=◌, require, mutation,
}

pub bind-ok {ℓ κ} :
    {A : Type ℓ} {B : Type κ} (r : Checked A) (f : A → Checked B) (b : B)
    → (r >>= f) ≡ ok b
    → (a : A) × (r ≡ ok a) × (f a ≡ ok b)
bind-ok (ok a) f b h = (a, refl, h)
bind-ok (err e) f b h = absurd (cc h)

pub require-ok : (good : Bool) (e : AdminError) → require good e ≡ ok tt → good ≡ true
require-ok true e h = refl
require-ok false e h = absurd (cc h)

-- A mutation that succeeds leaves what its checks returned.
pub mutation-ok :
    (actor : ℕ) (act : String) (user_id : Option ℕ) (s : AdminStore) (r : Checked AdminStore)
    → (mutation actor act user_id s r).0 ≡ ok tt
    → r ≡ ok (mutation actor act user_id s r).1
unfolding mutation
mutation-ok actor act user_id s (ok t) h = refl
mutation-ok actor act user_id s (err e) h = absurd (cc h)
