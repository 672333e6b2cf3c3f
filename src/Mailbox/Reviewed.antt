-- ===== src/Mailbox/Reviewed.antt =====
-- A candidate is reviewed once: confirming it is final.
use project_risk_system.Base.{
  ℕ, ◌≡◌, refl, sym, ap, true, false, ◌==◌, Option, none, some, inl, inr, Bool-cases, Option-cases,
  arith,
}
use mathlib.Core.Path.{subst}
use project_risk_system.Base.Table.{select_first-overwrite, select_first-passes}
use project_risk_system.Reliability.Core.Store as Tasks
use project_risk_system.Todos.Model.{Risk, SessionIdentity}
use project_risk_system.Todos.Model as Rows
use project_risk_system.Risks.Report as Report
use project_risk_system.Risks.Report.{RiskResult, create_in_session}
use project_risk_system.Risks.Kept.{SameProjects, created-SameProjects}
use project_risk_system.WeeklyReports.Model.{
  MailRiskCandidate, CandidateStatus, candidate_pending, confirmed, ignored, is_confirmed, Reports,
}
use project_risk_system.WeeklyReports.Invalidate.{invalidate_candidate}
use project_risk_system.Mailbox.Candidates.{
  MailStore, not_found, bad_request, Reviewed, ok, err, ◌>>=◌, ensure, Review, owns_mailbox,
  may_review, candidate_row, owned_or_error, owned, is_pending_candidate, ensure_pending,
  command_of, risk_outcome, confirmed_by, write_candidate, message_of, with_reports, invalidated,
  audited, active_category, make_risk, confirm_response, ignore, UpdateRequest, update,
  mail_risk_confirmed,
}

bind-ok {ℓ κ} :
    {A : Type ℓ} {B : Type κ} (r : Reviewed A) (f : A → Reviewed B) (b : B)
    → (r >>= f) ≡ ok b
    → (a : A) × (r ≡ ok a) × (f a ≡ ok b)
bind-ok (ok a) f b h = (a, refl, h)
bind-ok (err e) f b h = absurd (cc h)

ok-inj {ℓ} : {A : Type ℓ} {a b : A} → ok a ≡ ok b → a ≡ b
ok-inj e = cc

-- The candidate of the call, which its user may review.
record IsOwned (s : MailStore) (v : Review) (c : MailRiskCandidate) : Type 0 where
  stored : candidate_row s v.candidate_id ≡ some c
  mine : may_review s v.identity c ≡ true

owned-IsOwned :
    (s : MailStore) (v : Review) (c : MailRiskCandidate) → owned s v ≡ ok c → IsOwned s v c
unfolding owned
owned-IsOwned s v c h = elim (Option-cases (candidate_row s v.candidate_id)) [
  | inl absent ↦ absurd (let h' : err not_found ≡ ok c = rw absent at h in cc)
  | inr (k, found) ↦ elim (Bool-cases (may_review s v.identity k)) [
    | inl mine ↦
        let h' : ok k ≡ ok c = rw (found, owned_or_error, mine) at h in
        subst (IsOwned s v) (ok-inj h') (record { stored = found; mine = mine })
    | inr other ↦
        absurd (let h' : err not_found ≡ ok c = rw (found, owned_or_error, other) at h in cc)
  ]
]

IsOwned-again :
    (s : MailStore) (v : Review) (c : MailRiskCandidate) → IsOwned s v c → owned s v ≡ ok c
unfolding owned
IsOwned-again s v c h = rw h.stored (rw h.mine refl)

invalidated-kept :
    (v : Review) (c : MailRiskCandidate) (old : Option ℕ) (s t : MailStore)
    → invalidated v c old s ≡ ok t
    → (reports : Reports) × (tasks : Tasks.Store) × (record s { reports = reports; tasks = tasks }
        ≡ t)
unfolding invalidated
invalidated-kept v c old s t h =
    reported
      (invalidate_candidate v.texts v.task_id v.outbox_id v.now (message_of s c) c.project_id old
        s.reports s.tasks)
      h
  where
    reported :
        (r : Option (Reports × Tasks.Store))
        → with_reports s r ≡ ok t
        → (reports : Reports) × (tasks : Tasks.Store) × (record s {
          reports = reports;
          tasks = tasks;
        }
            ≡ t)
    reported none e = absurd (cc e)
    reported (some (reports, tasks)) e = (reports, tasks, ok-inj e)

risk_outcome-ok :
    (x : RiskResult) (t : Rows.Store) (r : Risk) → risk_outcome x ≡ ok (t, r) → x ≡ Report.ok t r
risk_outcome-ok (Report.ok s q) t r h =
    let same = ok-inj h in ap (λ (p : Rows.Store × Risk). Report.ok p.0 p.1) same
risk_outcome-ok (Report.err e) t r h = absurd (cc h)

-- The confirmed candidate, written into a store with the same projects, is still its user's.
confirmed-IsOwned :
    (v : Review) (c : MailRiskCandidate) (risk_id : ℕ) (s : MailStore) (rows : Rows.Store)
    → SameProjects s.rows rows
    → IsOwned s v c
    → IsOwned
        (write_candidate (confirmed_by v risk_id c) (record s { rows = rows }))
        v
        (confirmed_by v risk_id c)
unfolding confirmed_by may_review owns_mailbox
confirmed-IsOwned v c risk_id s rows same h = record {
  stored =
      let q = λ (k : MailRiskCandidate). k.id == v.candidate_id in
      let fits = select_first-passes q s.candidates c h.stored in
      select_first-overwrite q (λ k. k.id == c.id) (confirmed_by v risk_id c) c s.candidates fits
        (ground arith) h.stored;
  mine = rw (same.projects, same.assignments) h.mine;
}

-- The store after the confirmation holds the candidate, confirmed and still its user's.
record IsReviewed (t : MailStore) (v : Review) : Type 0 where
  candidate : MailRiskCandidate
  there : IsOwned t v candidate
  done : is_confirmed candidate.status ≡ true

with_reports-IsReviewed :
    (v : Review) (c : MailRiskCandidate) (s u : MailStore)
    → IsOwned s v c
    → is_confirmed c.status ≡ true
    → invalidated v c none s ≡ ok u
    → IsReviewed (audited v mail_risk_confirmed c u) v
unfolding may_review owns_mailbox
with_reports-IsReviewed v c s u h done e =
    let (reports, tasks, same) = invalidated-kept v c none s u e in
    subst (λ (w : MailStore). IsReviewed (audited v mail_risk_confirmed c w) v) same
      (record { candidate = c; there = record { stored = h.stored; mine = h.mine }; done = done })

make_risk-IsReviewed :
    (v : Review) (c : MailRiskCandidate) (s t : MailStore)
    → IsOwned s v c
    → make_risk v c s ≡ ok t
    → IsReviewed t v
unfolding make_risk
make_risk-IsReviewed v c s t h e =
    let (_, _, e1) = bind-ok (ensure_pending c) _ t e in
    let (_, _, e2) =
      bind-ok (ensure (active_category c.category_id s.categories) bad_request) _ t e1 in
    let create =
      create_in_session v.new_id v.item_id (command_of v c) (some v.identity.user_id) v.rivals
        v.item_rivals s.rows in
    let (out, made, e3) = bind-ok (risk_outcome create) _ t e2 in
    let k = confirmed_by v out.1.id c in
    let s' = write_candidate k (record s { rows = out.0 }) in
    let (u, wrote, e4) = bind-ok (invalidated v k none s') _ t e3 in
    let same =
      created-SameProjects v.new_id v.item_id (command_of v c) (some v.identity.user_id) v.rivals
        v.item_rivals s.rows out.0 out.1 (risk_outcome-ok create out.0 out.1 made) in
    subst (λ (w : MailStore). IsReviewed w v) (ok-inj e4)
      (with_reports-IsReviewed v k s' u (confirmed-IsOwned v c out.1.id s out.0 same h)
        (unfold confirmed_by in refl) wrote)

confirm_response-IsReviewed :
    (v : Review) (s t : MailStore) → confirm_response v s ≡ ok t → IsReviewed t v
unfolding confirm_response
confirm_response-IsReviewed v s t h =
    let (c, mine, h1) = bind-ok (owned s v) _ t h in
    let here = owned-IsOwned s v c mine in
    elim (Bool-cases (is_confirmed c.status)) [
      | inl done ↦
          let h2 : ok s ≡ ok t = rw done at h1 in
          subst (λ (w : MailStore). IsReviewed w v) (ok-inj h2)
            (record { candidate = c; there = here; done = done })
      | inr fresh ↦
          let h2 : make_risk v c s ≡ ok t = rw fresh at h1 in make_risk-IsReviewed v c s t here h2
    ]

confirmed-not_pending :
    (c : CandidateStatus) → is_confirmed c ≡ true → is_pending_candidate c ≡ false
confirmed-not_pending confirmed h = refl
confirmed-not_pending candidate_pending h = absurd (cc h)
confirmed-not_pending ignored h = absurd (cc h)

-- A later call of the same user on the same candidate.
later-IsOwned :
    (s : MailStore) (v w : Review) (c : MailRiskCandidate)
    → w.identity ≡ v.identity
    → w.candidate_id ≡ v.candidate_id
    → IsOwned s v c
    → IsOwned s w c
later-IsOwned s v w c same_user same_candidate h = record {
  stored = subst (λ (i : ℕ). candidate_row s i ≡ some c) (sym same_candidate) h.stored;
  mine = subst (λ (u : SessionIdentity). may_review s u c ≡ true) (sym same_user) h.mine;
}

-- Once a user has confirmed a candidate, a later call of that user to confirm it changes nothing, and to
-- ignore or to update it is refused.
pub confirm_response-final :
    (v w : Review) (s t : MailStore)
    → confirm_response v s ≡ ok t
    → w.identity ≡ v.identity
    → w.candidate_id ≡ v.candidate_id
    → (confirm_response w t ≡ ok t)
      × (ignore w t ≡ err bad_request)
      × ((p : UpdateRequest) → update w p t ≡ err bad_request)
unfolding confirm_response ignore update
confirm_response-final v w s t h same_user same_candidate =
    let r = confirm_response-IsReviewed v s t h in
    let again =
      IsOwned-again t w r.candidate
        (later-IsOwned t v w r.candidate same_user same_candidate r.there) in
    let over = confirmed-not_pending r.candidate.status r.done in
    (rw again (rw r.done refl), rw again (rw over refl), λ p. rw again (rw over refl))
