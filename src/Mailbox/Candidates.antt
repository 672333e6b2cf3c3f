-- ===== src/Mailbox/Candidates.antt =====
-- `confirm_response`, `update` and `ignore` of the class MailRiskCandidateService in mailbox/extraction.py.
-- An error leaves the transaction, so nothing is kept.
use project_risk_system.Base.{
  ℕ, String, Bool, true, false, Option, none, some, List, [], ◌∷◌, ◌++◌, ◌==◌, ◌&&◌, is_some,
  if◌then◌else◌,
}
use project_risk_system.Base.Table.{select_first, update_where}
use project_risk_system.Base.Text.{strip, take_chars, append}
use project_risk_system.Rbac.Scopes.{get_scoped_project}
use project_risk_system.Reliability.Core.Store as Tasks
use project_risk_system.Todos.Model.{ActionItem, Risk, ProjectRiskLevel, mail_ai, SessionIdentity}
use project_risk_system.Todos.Model as Rows
use project_risk_system.Risks.Report as Report
use project_risk_system.Risks.Report.{RiskCreate, RiskError, RiskResult, create_in_session}
use project_risk_system.Risks.Change.{RiskCategory}
use project_risk_system.WeeklyReports.Model.{
  MailMessage, MailRiskCandidate, CandidateStatus, candidate_pending, confirmed, ignored,
  is_confirmed, ProjectMatch, matched, Reports,
}
use project_risk_system.WeeklyReports.Invalidate.{Texts, invalidate_candidate}

pub record Mailbox : Type 0 where
  pub id : ℕ
  pub user_id : ℕ

pub data ReviewAction : Type 0 where
  mail_risk_confirmed mail_risk_adjusted mail_risk_ignored : ReviewAction

-- An audit record of the module MAILBOX.
pub record ReviewAudit : Type 0 where
  pub actor_id : ℕ
  pub action : ReviewAction
  pub candidate_id : ℕ
  pub project_id : ℕ

pub record MailStore : Type 0 where
  pub mailboxes : List Mailbox
  pub messages : List MailMessage
  pub candidates : List MailRiskCandidate
  pub matches : List ProjectMatch
  pub rows : Rows.Store
  pub categories : List RiskCategory
  pub reports : Reports
  pub tasks : Tasks.Store
  pub audits : List ReviewAudit

pub data ReviewError : Type 0 where
  not_found bad_request enqueue_failed : ReviewError
  risk_refused : RiskError → ReviewError

pub data Reviewed {ℓ} (A : Type ℓ) : Type ℓ where
  ok : A → Reviewed A
  err : ReviewError → Reviewed A

infixl 20 ◌>>=◌
abbrev pub ◌>>=◌ {ℓ κ} : {A : Type ℓ} {B : Type κ} → Reviewed A → (A → Reviewed B) → Reviewed B
ok a >>= f = f a
err e >>= f = err e

abbrev pub ensure : Bool → ReviewError → Reviewed (Unit {0})
ensure true e = ok tt
ensure false e = err e

-- One call: the clock, new ids, what rivals commit, and the texts and the digest that keys are made of.
pub record Review : Type 0 where
  pub identity : SessionIdentity
  pub candidate_id : ℕ
  pub now : ℕ
  pub new_id : ℕ
  pub item_id : ℕ
  pub rivals : List Risk
  pub item_rivals : List ActionItem
  pub task_id : ℕ
  pub outbox_id : ℕ
  pub texts : Texts
  pub sha256 : String → String

abbrev pub message_of : MailStore → MailRiskCandidate → Option MailMessage
message_of s c = select_first (λ m. m.id == c.message_id) s.messages

abbrev mailbox_of : MailStore → Option MailMessage → Option Mailbox
mailbox_of s none = none
mailbox_of s (some m) = select_first (λ b. b.id == m.mailbox_config_id) s.mailboxes

abbrev is_user_of : Option Mailbox → ℕ → Bool
is_user_of none user_id = false
is_user_of (some b) user_id = b.user_id == user_id

-- _owns_mailbox
unfoldable pub owns_mailbox : MailStore → MailRiskCandidate → ℕ → Bool
owns_mailbox s c user_id = is_user_of (mailbox_of s (message_of s c)) user_id

unfoldable pub may_review : MailStore → SessionIdentity → MailRiskCandidate → Bool
unfolding owns_mailbox
may_review s identity c =
    owns_mailbox s c identity.user_id
    && is_some (
        get_scoped_project s.rows.assignments c.project_id identity.user_id identity.data_scope
          s.rows.projects)

abbrev pub candidate_row : MailStore → ℕ → Option MailRiskCandidate
candidate_row s i = select_first (λ c. c.id == i) s.candidates

abbrev pub owned_or_error :
    MailStore → SessionIdentity → Option MailRiskCandidate → Reviewed MailRiskCandidate
owned_or_error s identity none = err not_found
owned_or_error s identity (some c) = if may_review s identity c then ok c else err not_found

-- _owned
unfoldable pub owned : MailStore → Review → Reviewed MailRiskCandidate
unfolding may_review
owned s v = owned_or_error s v.identity (candidate_row s v.candidate_id)

abbrev pub is_pending_candidate : CandidateStatus → Bool
is_pending_candidate candidate_pending = true
is_pending_candidate _ = false

-- _pending
abbrev pub ensure_pending : MailRiskCandidate → Reviewed (Unit {0})
ensure_pending c = ensure (is_pending_candidate c.status) bad_request

abbrev pub active_category : ℕ → List RiskCategory → Bool
active_category i categories = is_some (select_first (λ k. k.id == i && k.is_active) categories)

-- The command of a confirmed candidate.
unfoldable pub command_of : Review → MailRiskCandidate → RiskCreate
command_of v c = record {
  project_id = c.project_id;
  category_id = c.category_id;
  title = take_chars 250 c.description;
  description = c.description;
  level = c.level;
  source_type = mail_ai;
  dedupe_fingerprint = v.sha256 (append "MAIL_AI:" (v.texts.uuid c.id));
  evidence = some c.evidence;
  suggestion = some c.suggestion;
  source_batch_id = none;
  source_ref_id = some c.id;
  reporter_user_id = none;
  reporter_name = none;
  week_code = none;
  actor_name = none;
}

abbrev pub risk_outcome : RiskResult → Reviewed (Rows.Store × Risk)
risk_outcome (Report.ok s r) = ok (s, r)
risk_outcome (Report.err e) = err (risk_refused e)

unfoldable pub confirmed_by : Review → ℕ → MailRiskCandidate → MailRiskCandidate
confirmed_by v risk_id c = record c {
  status = confirmed;
  confirmed_risk_id = some risk_id;
  reviewed_by_id = some v.identity.user_id;
  reviewed_at = some v.now;
}

abbrev pub write_candidate : MailRiskCandidate → MailStore → MailStore
write_candidate c s = record s {
  candidates = update_where (λ k. k.id == c.id) (λ _. c) s.candidates;
}

abbrev pub with_reports : MailStore → Option (Reports × Tasks.Store) → Reviewed MailStore
with_reports s none = err enqueue_failed
with_reports s (some (reports, tasks)) = ok (record s { reports = reports; tasks = tasks })

-- `invalidate_candidate` for the candidate as it is now.
unfoldable pub invalidated : Review → MailRiskCandidate → Option ℕ → MailStore → Reviewed MailStore
invalidated v c old s = with_reports s (
    invalidate_candidate v.texts v.task_id v.outbox_id v.now (message_of s c) c.project_id old
      s.reports s.tasks)

-- _audit_candidate
abbrev pub audited : Review → ReviewAction → MailRiskCandidate → MailStore → MailStore
audited v act c s = record s {
  audits =
      s.audits
      ++ record {
        actor_id = v.identity.user_id;
        action = act;
        candidate_id = c.id;
        project_id = c.project_id;
      }
        ∷ [];
}

-- The rest of `confirm_response` for a candidate that was not confirmed.
unfoldable pub make_risk : Review → MailRiskCandidate → MailStore → Reviewed MailStore
unfolding command_of confirmed_by invalidated
make_risk v c s = do
  _ ← ensure_pending c
  _ ← ensure (active_category c.category_id s.categories) bad_request
  (rows, r) ← risk_outcome (
      create_in_session v.new_id v.item_id (command_of v c) (some v.identity.user_id) v.rivals
        v.item_rivals s.rows)
  let k = confirmed_by v r.id c
  t ← invalidated v k none (write_candidate k (record s { rows = rows }))
  ok (audited v mail_risk_confirmed k t)

-- confirm_response
unfoldable pub confirm_response : Review → MailStore → Reviewed MailStore
unfolding owned make_risk
confirm_response v s = do c ← owned s v; if is_confirmed c.status then ok s else make_risk v c s

-- ignore
unfoldable pub ignore : Review → MailStore → Reviewed MailStore
unfolding owned
ignore v s = do
  c ← owned s v
  _ ← ensure_pending c
  let k = record c {
    status = ignored;
    reviewed_by_id = some v.identity.user_id;
    reviewed_at = some v.now;
  }
  ok (audited v mail_risk_ignored k (write_candidate k s))

pub record UpdateRequest : Type 0 where
  pub project_id : ℕ
  pub category_id : ℕ
  pub level : ProjectRiskLevel
  pub description : String
  pub evidence : String
  pub suggestion : String

unfoldable pub adjusted : Review → UpdateRequest → MailRiskCandidate → MailRiskCandidate
adjusted v p c = record c {
  project_id = p.project_id;
  category_id = p.category_id;
  level = p.level;
  description = strip p.description;
  evidence = strip p.evidence;
  suggestion = strip p.suggestion;
  reviewed_by_id = some v.identity.user_id;
  reviewed_at = some v.now;
}

-- A match by hand, unless the mail has one for the project.
abbrev with_match : ℕ → ℕ → MailStore → MailStore
with_match message_id project_id s =
    if matched s.matches message_id project_id then s else record s {
      matches = s.matches ++ record { message_id = message_id; project_id = project_id } ∷ [];
    }

-- update
unfoldable pub update : Review → UpdateRequest → MailStore → Reviewed MailStore
unfolding owned adjusted invalidated
update v p s = do
  c ← owned s v
  _ ← ensure_pending c
  _ ←
      ensure
        (is_some (
            get_scoped_project s.rows.assignments p.project_id v.identity.user_id
              v.identity.data_scope s.rows.projects)
          && active_category p.category_id s.categories)
        bad_request
  let k = adjusted v p c
  t ←
      invalidated v k (some c.project_id)
        (with_match c.message_id p.project_id (write_candidate k s))
  ok (audited v mail_risk_adjusted k t)
