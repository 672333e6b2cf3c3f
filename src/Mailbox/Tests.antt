-- ===== src/Mailbox/Tests.antt =====
-- The theorem of the review at a mail with one candidate.
use project_risk_system.Base.{ℕ, ◌≡◌, refl, true, none, some, [], ◌∷◌}
use project_risk_system.Base.Text.{strip, take_chars, append}
use project_risk_system.Rbac.Scopes.{
  all_projects, delivery, get_scoped_project, project_scope_predicate,
}
use project_risk_system.Reliability.Core.Enqueue.{
  enqueue_task, create_task, dispatch_new, flush_task, after_flush, has_key,
}
use project_risk_system.Todos.Model.{low, Store, SessionIdentity}
use project_risk_system.Risks.Report.{create_in_session, flush_risk, add_risk, has_fingerprint}
use project_risk_system.WeeklyReports.Model.{
  MailMessage, message_completed, MailRiskCandidate, candidate_pending,
}
use project_risk_system.WeeklyReports.Invalidate.{
  invalidate_projects, invalidate_message_project, invalidate_week, rebuild_key,
}
use project_risk_system.Mailbox.Candidates.{
  MailStore, Review, Reviewed, UpdateRequest, ok, err, bad_request, owned, may_review, owns_mailbox,
  invalidated, make_risk, confirm_response, ignore, update,
}
use project_risk_system.Mailbox.Reviewed.{confirm_response-final}

abbrev letter : MailMessage
letter = record {
  id = 1;
  mailbox_config_id = 9;
  status = message_completed;
  sent_at = none;
  received_at = 60480000000;
  sanitized_summary = some "Late";
}

abbrev lead : MailRiskCandidate
lead = record {
  id = 20;
  message_id = 1;
  project_id = 4;
  category_id = 2;
  level = low;
  description = "The report is late";
  evidence = "";
  suggestion = "";
  status = candidate_pending;
  confirmed_risk_id = none;
  reviewed_by_id = none;
  reviewed_at = none;
}

abbrev reviewer : SessionIdentity
reviewer = record { user_id = 1; display_name = "Alice"; data_scope = all_projects }

abbrev empty_rows : Store
empty_rows = record {
  items = [];
  projects =
      record {
        id = 4;
        name = "P";
        delivery_owner_name = none;
        manager_id = none;
        status = delivery;
      }
      ∷ [];
  assignments = [];
  risks = [];
  users = [];
  events = [];
  audits = [];
  invalidated = [];
}

abbrev mail_store : MailStore
mail_store = record {
  mailboxes = record { id = 9; user_id = 1 } ∷ [];
  messages = letter ∷ [];
  candidates = lead ∷ [];
  matches = [];
  rows = empty_rows;
  categories = record { id = 2; is_active = true } ∷ [];
  reports = record { aggregates = []; items = [] };
  tasks = record { tasks = []; outbox = [] };
  audits = [];
}

abbrev review_at : ℕ → Review
review_at now = record {
  identity = reviewer;
  candidate_id = 20;
  now = now;
  new_id = 30;
  item_id = 31;
  rivals = [];
  item_rivals = [];
  task_id = 40;
  outbox_id = 41;
  texts = record { isoformat = λ n. "1971-12-06"; uuid = λ n. "u" };
  sha256 = λ s. s;
}

abbrev reviewed_store : MailStore
reviewed_store = after (confirm_response (review_at 60500000000) mail_store)
  where
    after : Reviewed MailStore → MailStore
    after (ok t) = t
    after (err e) = mail_store

reviews : confirm_response (review_at 60500000000) mail_store ≡ ok reviewed_store
unfolding confirm_response make_risk owned may_review owns_mailbox get_scoped_project
    project_scope_predicate create_in_session flush_risk add_risk has_fingerprint strip take_chars
    invalidated invalidate_projects invalidate_message_project invalidate_week enqueue_task
    create_task dispatch_new flush_task after_flush has_key rebuild_key append
reviews = refl

confirm_response-final_example :
    (confirm_response (review_at 60600000000) reviewed_store ≡ ok reviewed_store)
    × (ignore (review_at 60600000000) reviewed_store ≡ err bad_request)
    × ((p : UpdateRequest) → update (review_at 60600000000) p reviewed_store ≡ err bad_request)
confirm_response-final_example =
    confirm_response-final (review_at 60500000000) (review_at 60600000000) mail_store reviewed_store
      reviews refl refl
