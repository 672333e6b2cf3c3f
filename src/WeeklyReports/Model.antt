-- ===== src/WeeklyReports/Model.antt =====
-- weekly_reports/models.py and the columns of mailbox/models.py that the report reads. Instants are
-- milliseconds on the wall clock of Shanghai, and a week is the day number of its Monday.
use project_risk_system.Base.{
  ℕ, ◌+◌, ◌-◌, String, Bool, true, false, Option, none, some, List, [], ◌∷◌, ◌++◌, ◌==◌, ◌&&◌, ◌||◌,
  leb, ltb, holds, if◌then◌else◌,
}
use project_risk_system.Base.Sort.{sort_by}
use project_risk_system.TimeRanges.Resolve.{days, local_day, weekday}
use project_risk_system.Todos.Model.{
  ActionItem, ActionItemStatus, Risk, RiskStatus, ProjectRiskLevel,
}

pub data MailMessageStatus : Type 0 where
  analyzing message_completed skipped message_failed : MailMessageStatus

pub data CandidateStatus : Type 0 where
  candidate_pending confirmed ignored : CandidateStatus

pub record MailMessage : Type 0 where
  pub id : ℕ
  pub mailbox_config_id : ℕ
  pub status : MailMessageStatus
  pub sent_at : Option ℕ
  pub received_at : ℕ
  pub sanitized_summary : Option String

pub record MailRiskCandidate : Type 0 where
  pub id : ℕ
  pub message_id : ℕ
  pub project_id : ℕ
  pub category_id : ℕ
  pub level : ProjectRiskLevel
  pub description : String
  pub evidence : String
  pub suggestion : String
  pub status : CandidateStatus
  pub confirmed_risk_id : Option ℕ
  pub reviewed_by_id : Option ℕ
  pub reviewed_at : Option ℕ

pub record ProjectMatch : Type 0 where
  pub message_id : ℕ
  pub project_id : ℕ

-- The counts that a rebuild writes into the two JSON columns.
pub record Counts : Type 0 where
  pub high : ℕ
  pub medium : ℕ
  pub low : ℕ
  pub unknown : ℕ

pub record Summary : Type 0 where
  pub report_count : ℕ
  pub active_risk_count : ℕ
  pub resolved_risk_count : ℕ
  pub pending_count : ℕ
  pub in_progress_count : ℕ
  pub completed_count : ℕ

pub record Aggregate : Type 0 where
  pub id : ℕ
  pub week_start : ℕ
  pub project_id : ℕ
  pub summary : Summary
  pub risk_count : ℕ
  pub risk_level_counts : Counts
  pub source_revision : ℕ
  pub stale : Bool
  pub generated_at : ℕ
  pub freshness_deadline : ℕ

-- A row of weekly_report_items, without its id.
pub record ReportItem : Type 0 where
  pub aggregate_id : ℕ
  pub source_mail_id : ℕ
  pub source_candidate_id : ℕ
  pub risk_id : ℕ
  pub todo_id : ℕ
  pub source_revision : ℕ
  pub summary : String
  pub risk_level : ProjectRiskLevel
  pub risk_status : RiskStatus
  pub todo_status : ActionItemStatus
  pub occurred_at : ℕ

pub record Sources : Type 0 where
  pub messages : List MailMessage
  pub candidates : List MailRiskCandidate
  pub matches : List ProjectMatch
  pub risks : List Risk
  pub todos : List ActionItem

pub record Reports : Type 0 where
  pub aggregates : List Aggregate
  pub items : List ReportItem

-- A row of the join of `_authority_rows`.
pub record AuthorityRow : Type 0 where
  pub message : MailMessage
  pub candidate : MailRiskCandidate
  pub risk : Risk
  pub todo : ActionItem

-- shanghai_week_start
unfoldable pub shanghai_week_start : ℕ → ℕ
shanghai_week_start instant = local_day instant - weekday (local_day instant)

abbrev pub or_number : Option ℕ → ℕ → ℕ
or_number none other = other
or_number (some n) other = n

-- coalesce(sentAt, receivedAt)
abbrev pub occurred_at : MailMessage → ℕ
occurred_at m = or_number m.sent_at m.received_at

abbrev pub is_message_completed : MailMessageStatus → Bool
is_message_completed message_completed = true
is_message_completed _ = false

abbrev pub is_confirmed : CandidateStatus → Bool
is_confirmed confirmed = true
is_confirmed _ = false

abbrev pub matched : List ProjectMatch → ℕ → ℕ → Bool
matched [] message_id project_id = false
matched (m ∷ ms) message_id project_id =
    (m.message_id == message_id && m.project_id == project_id) || matched ms message_id project_id

-- The conditions of `_authority_rows` on a message and a candidate.
unfoldable pub is_source : Sources → ℕ → ℕ → MailMessage → MailRiskCandidate → Bool
is_source s week_start project_id m c =
    c.message_id == m.id
    && is_message_completed m.status
    && is_confirmed c.status
    && c.project_id == project_id
    && leb (days week_start) (occurred_at m)
    && ltb (occurred_at m) (days week_start + days 7)
    && matched s.matches m.id project_id

-- The joins, from the inside out.
join_todos : MailMessage → MailRiskCandidate → Risk → List ActionItem → List AuthorityRow
join_todos m c r [] = []
join_todos m c r (t ∷ ts) =
    (if holds t.risk_id r.id
      then record { message = m; candidate = c; risk = r; todo = t } ∷ []
      else [])
    ++ join_todos m c r ts

join_risks : Sources → MailMessage → MailRiskCandidate → List Risk → List AuthorityRow
unfolding join_todos
join_risks s m c [] = []
join_risks s m c (r ∷ rs) =
    (if holds c.confirmed_risk_id r.id then join_todos m c r s.todos else []) ++ join_risks s m c rs

join_candidates :
    (MailMessage → MailRiskCandidate → Bool)
    → Sources
    → MailMessage
    → List MailRiskCandidate
    → List AuthorityRow
unfolding join_risks
join_candidates q s m [] = []
join_candidates q s m (c ∷ cs) =
    (if q m c then join_risks s m c s.risks else []) ++ join_candidates q s m cs

-- The rows of the four tables whose message and candidate fit a condition.
unfoldable pub joined :
    (MailMessage → MailRiskCandidate → Bool) → Sources → List MailMessage → List AuthorityRow
unfolding join_candidates
joined q s [] = []
joined q s (m ∷ ms) = join_candidates q s m s.candidates ++ joined q s ms

-- `_authority_rows`, by the instant of the mail and then by the candidate's id.
unfoldable pub authority_rows : Sources → ℕ → ℕ → List AuthorityRow
unfolding joined is_source
authority_rows s week_start project_id =
    sort_by (λ r. occurred_at r.message)
      (sort_by (λ r. r.candidate.id) (joined (is_source s week_start project_id) s s.messages))

abbrev pub is_of : ℕ → ℕ → Aggregate → Bool
is_of week_start project_id a = a.week_start == week_start && a.project_id == project_id
