-- ===== src/AdminUsers/Ownership.antt =====
-- Who manages which project after an update of a user.
use project_risk_system.Base.{
  ℕ, ◌≡◌, refl, sym, ap, ◌∙◌, Bool, true, false, not, ◌&&◌, ◌||◌, ◌==◌, some, List, [], ◌∷◌, All,
  inl, inr, Bool-cases, holds, is_some, arith, length,
}
use mathlib.Core.Path.{subst}
use project_risk_system.Base.Table.{count_where}
use project_risk_system.Base.Sort.{select_where}
use project_risk_system.Rbac.Scopes.{Project, is_archived}
use project_risk_system.Auth.Store.{User, Externals}
use project_risk_system.AdminUsers.Store.{
  user_or_error, first_user_role, own_account, AdminStore, UserMutationRequest,
  replace_project_scopes, project_archived, manager_conflict, project_missing, ok, require, id_in,
}
use project_risk_system.AdminUsers.Projects.{
  check_targets, validate_owned_projects, rebind, replace_owned_projects,
}
use project_risk_system.AdminUsers.Service.{
  keeps_own, check_request, updated_rows, finish_update, update_checked, update,
}
use project_risk_system.AdminUsers.Checks.{bind-ok, require-ok, mutation-ok}

-- A project of another user.
abbrev pub is_theirs : ℕ → Project → Bool
is_theirs user_id p = is_some p.manager_id && not (holds p.manager_id user_id)

-- A row before and after: the user manages it if it was selected, which no archived project was, and a
-- project of another user is as it was.
pub record IsRebound (user_id : ℕ) (ids : List ℕ) (p q : Project) : Type 0 where
  pub same_project : q.id ≡ p.id
  pub selected : holds q.manager_id user_id ≡ id_in p.id ids
  pub not_taken : is_theirs user_id p ≡ true → q ≡ p
  pub not_archived : id_in p.id ids ≡ true → is_archived p.status ≡ false

abbrev pub AllRebound : ℕ → List ℕ → List Project → List Project → Type 0
AllRebound user_id ids [] [] = Unit
AllRebound user_id ids (p ∷ ps) (q ∷ qs) = IsRebound user_id ids p q × AllRebound user_id ids ps qs
AllRebound user_id ids _ _ = ⊥

-- What `_validate_owned_projects` makes sure of.
abbrev IsFree : ℕ → Project → Type 0
IsFree user_id p = (is_archived p.status ≡ false) × (is_theirs user_id p ≡ false)

check_targets-IsFree :
    (user_id : ℕ) (ps : List Project) → check_targets user_id ps ≡ ok tt → All (IsFree user_id) ps
unfolding check_targets
check_targets-IsFree user_id [] h = tt
check_targets-IsFree user_id (p ∷ ps) h =
    let (_, live, rest) = bind-ok (require (not (is_archived p.status)) project_archived) _ tt h in
    let (_, free, others) =
      bind-ok (require (not (is_some p.manager_id) || holds p.manager_id user_id) manager_conflict)
        _ tt rest in
    let a = require-ok (not (is_archived p.status)) project_archived live in
    let m =
      require-ok (not (is_some p.manager_id) || holds p.manager_id user_id) manager_conflict free in
    ((ground arith, ground arith), check_targets-IsFree user_id ps others)

clash : {b : Bool} → b ≡ true → b ≡ false → ⊥
clash h k = let no : true ≡ false = rw h at k in cc

-- The same for the rows that were selected, among all.
abbrev IsFreeTarget : ℕ → List ℕ → Project → Type 0
IsFreeTarget user_id ids p = id_in p.id ids ≡ true → IsFree user_id p

selected-IsFreeTarget :
    (user_id : ℕ) (ids : List ℕ) (ps : List Project)
    → All (IsFree user_id) (select_where (λ p. id_in p.id ids) ps)
    → All (IsFreeTarget user_id ids) ps
selected-IsFreeTarget user_id ids [] h = tt
selected-IsFreeTarget user_id ids (p ∷ ps) h = elim (Bool-cases (id_in p.id ids)) [
  | inl e ↦
      let h' : IsFree user_id p × All (IsFree user_id) (select_where (λ q. id_in q.id ids) ps) =
        rw e at h in
      ((λ _. h'.0), selected-IsFreeTarget user_id ids ps h'.1)
  | inr e ↦
      let h' : All (IsFree user_id) (select_where (λ q. id_in q.id ids) ps) = rw e at h in
      ((λ hit. absurd (clash hit e)), selected-IsFreeTarget user_id ids ps h')
]

no_target-IsFreeTarget : (user_id : ℕ) (ps : List Project) → All (IsFreeTarget user_id []) ps
no_target-IsFreeTarget user_id [] = tt
no_target-IsFreeTarget user_id (p ∷ ps) =
    ((λ hit. absurd (ground arith)), no_target-IsFreeTarget user_id ps)

validate-IsFreeTarget :
    (user_id : ℕ) (ids : List ℕ) (s : AdminStore)
    → validate_owned_projects user_id ids s ≡ ok tt
    → All (IsFreeTarget user_id ids) s.projects
unfolding validate_owned_projects
validate-IsFreeTarget user_id [] s h = no_target-IsFreeTarget user_id s.projects
validate-IsFreeTarget user_id (i ∷ ids) s h =
    let targets = select_where (λ p. id_in p.id (i ∷ ids)) s.projects in
    let there = count_where (λ p. id_in p.id (i ∷ ids)) s.projects == length (i ∷ ids) in
    let (_, _, free) =
      bind-ok (require there project_missing) (λ _. check_targets user_id targets) tt h in
    selected-IsFreeTarget user_id (i ∷ ids) s.projects (check_targets-IsFree user_id targets free)

rebind-AllRebound :
    (user_id : ℕ) (ids : List ℕ) (ps : List Project)
    → All (IsFreeTarget user_id ids) ps
    → AllRebound user_id ids ps (rebind user_id ids ps)
unfolding rebind
rebind-AllRebound user_id ids [] h = tt
rebind-AllRebound user_id ids (p ∷ ps) (free, rest) =
    let ih = rebind-AllRebound user_id ids ps rest in
    elim (Bool-cases (id_in p.id ids)) [
      | inl target ↦
          let f = free target in
          let spared : (holds p.manager_id user_id && not (id_in p.id ids)) ≡ false =
            rw target (ground arith) in
          let own : (user_id == user_id) ≡ true = ground arith in
          rw (spared, target)
            (
              record {
                same_project = refl;
                selected = rw (own, target) refl;
                not_taken = λ theirs. absurd (clash theirs f.1);
                not_archived = λ _. f.0;
              },
              ih,
            )
      | inr other ↦ elim (Bool-cases (holds p.manager_id user_id)) [
        | inl mine ↦
            let unbound : (holds p.manager_id user_id && not (id_in p.id ids)) ≡ true =
              rw (mine, other) refl in
            rw (unbound, other)
              (
                record {
                  same_project = refl;
                  selected = rw other refl;
                  not_taken = λ theirs. absurd (ground arith);
                  not_archived = λ hit. absurd (clash hit other);
                },
                ih,
              )
        | inr not_mine ↦
            let spared : (holds p.manager_id user_id && not (id_in p.id ids)) ≡ false =
              rw not_mine refl in
            rw (spared, other)
              (
                record {
                  same_project = refl;
                  selected = rw (not_mine, other) refl;
                  not_taken = λ _. refl;
                  not_archived = λ hit. absurd (clash hit other);
                },
                ih,
              )
      ]
    ]

replace_owned_projects-AllRebound :
    (user_id : ℕ) (ids : List ℕ) (s t : AdminStore)
    → replace_owned_projects user_id ids s ≡ ok t
    → AllRebound user_id ids s.projects t.projects
unfolding replace_owned_projects
replace_owned_projects-AllRebound user_id ids s t h =
    let (_, valid, done) =
      bind-ok (validate_owned_projects user_id ids s)
        (λ _. ok (record s { projects = rebind user_id ids s.projects })) t h in
    let same : record s { projects = rebind user_id ids s.projects } ≡ t = cc in
    subst (λ (u : AdminStore). AllRebound user_id ids s.projects u.projects) same
      (rebind-AllRebound user_id ids s.projects (validate-IsFreeTarget user_id ids s valid))

finish_update-projects :
    (now actor user_id : ℕ) (enabled : Bool) (t : AdminStore)
    → (finish_update now actor user_id enabled t).projects ≡ t.projects
unfolding finish_update
finish_update-projects now actor user_id true t = refl
finish_update-projects now actor user_id false t = refl

updated_rows-projects :
    (x : Externals) (now user_id : ℕ) (p : UserMutationRequest) (u : User) (s : AdminStore)
    → (updated_rows x now user_id p u s).projects ≡ s.projects
unfolding updated_rows replace_project_scopes
updated_rows-projects x now user_id p u s = refl

-- A successful update replaced the projects and finished.
pub update_checked-replaced :
    (x : Externals) (now actor user_id : ℕ) (p : UserMutationRequest) (s t : AdminStore)
    → update_checked x now actor user_id p s ≡ ok t
    → (u : User) × (r : AdminStore) × (replace_owned_projects user_id p.owned_project_ids
          (updated_rows x now user_id p u s)
        ≡ ok r)
      × (finish_update now actor user_id p.enabled r ≡ t)
unfolding update_checked
update_checked-replaced x now actor user_id p s t h =
    let (u, _, h1) = bind-ok (user_or_error user_id s) _ t h in
    let (_, _, h2) = bind-ok (check_request x (some user_id) p s) _ t h1 in
    let (_, _, h3) =
      bind-ok
        (require (not (user_id == actor) || keeps_own (first_user_role user_id s) p) own_account) _
        t h2 in
    let (r, replaced, h4) =
      bind-ok
        (replace_owned_projects user_id p.owned_project_ids (updated_rows x now user_id p u s)) _ t
        h3 in
    (u, r, replaced, ok_inj h4)
  where
    ok_inj : {a b : AdminStore} → ok a ≡ ok b → a ≡ b
    ok_inj e = cc

-- An update of a user that succeeds leaves every project in its place, managed by that user exactly if it
-- was selected; a project that another user manages is as it was, and none that was selected is archived.
pub update-AllRebound :
    (x : Externals) (now actor user_id : ℕ) (p : UserMutationRequest) (s : AdminStore)
    → (update x now actor user_id p s).0 ≡ ok tt
    → AllRebound user_id p.owned_project_ids s.projects (update x now actor user_id p s).1.projects
unfolding update
update-AllRebound x now actor user_id p s h =
    let done =
      mutation-ok actor "ADMIN_USER_UPDATED" (some user_id) s
        (update_checked x now actor user_id p s) h in
    let t = (update x now actor user_id p s).1 in
    let (u, r, replaced, finished) = update_checked-replaced x now actor user_id p s t done in
    let kept =
      replace_owned_projects-AllRebound user_id p.owned_project_ids
        (updated_rows x now user_id p u s) r replaced in
    subst (λ (ps : List Project). AllRebound user_id p.owned_project_ids ps t.projects)
      (updated_rows-projects x now user_id p u s)
      (subst
        (λ (qs : List Project).
          AllRebound user_id p.owned_project_ids (updated_rows x now user_id p u s).projects qs)
        (sym (finish_update-projects now actor user_id p.enabled r)
          ∙ ap (λ (a : AdminStore). a.projects) finished)
        kept)
