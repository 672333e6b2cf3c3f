-- ===== src/Reliability/Task.antt =====
-- reliability/models.py and reliability/registry.py: the rows, their CHECK constraints and the
-- registry of task kinds. Instants are milliseconds, UUIDs are numbers.
use project_risk_system.Base.{
  ℕ, String, Bool, true, false, ◌&&◌, ◌||◌, not, Option, some, ltb, leb, ◌==◌, is_some,
}
use project_risk_system.Base.Json.{JsonObject}

pub data DurableTaskKind : Type 0 where
  agent_execution import_preview mailbox_sync mail_message_retry : DurableTaskKind
  attachment_parse mail_ai_review_publish retention_cleanup : DurableTaskKind
  weekly_report_rebuild : DurableTaskKind

-- Equality of kinds, by their position in the enumeration.
abbrev kind_index : DurableTaskKind → ℕ
kind_index agent_execution = 0
kind_index import_preview = 1
kind_index mailbox_sync = 2
kind_index mail_message_retry = 3
kind_index attachment_parse = 4
kind_index mail_ai_review_publish = 5
kind_index retention_cleanup = 6
kind_index weekly_report_rebuild = 7

unfoldable pub kind_eq : DurableTaskKind → DurableTaskKind → Bool
kind_eq a b = kind_index a == kind_index b

pub data DurableTaskStatus : Type 0 where
  queued running retry_wait succeeded failed cancelled : DurableTaskStatus

abbrev pub is_queued : DurableTaskStatus → Bool
is_queued queued = true
is_queued _ = false

abbrev pub is_running : DurableTaskStatus → Bool
is_running running = true
is_running _ = false

abbrev pub is_retry_wait : DurableTaskStatus → Bool
is_retry_wait retry_wait = true
is_retry_wait _ = false

-- FINAL_STATUSES
abbrev pub is_final : DurableTaskStatus → Bool
is_final succeeded = true
is_final failed = true
is_final cancelled = true
is_final _ = false

pub record DurableTask : Type 0 where
  pub id : ℕ
  pub kind : DurableTaskKind
  pub status : DurableTaskStatus
  pub idempotency_key : String
  pub payload : JsonObject
  pub attempt_count : ℕ
  pub max_attempts : ℕ
  pub next_retry_at : Option ℕ
  pub lease_token : Option ℕ
  pub lease_owner : Option String
  pub heartbeat_at : Option ℕ
  pub lease_expires_at : Option ℕ
  pub dispatch_generation : ℕ
  pub failure_code : Option String
  pub failure_summary : Option String
  pub started_at : Option ℕ
  pub completed_at : Option ℕ
  pub created_at : ℕ
  pub updated_at : ℕ

pub record TaskOutbox : Type 0 where
  pub id : ℕ
  pub task_id : ℕ
  pub dispatch_generation : ℕ
  pub published_at : Option ℕ
  pub created_at : ℕ

-- CHECK attempt_count_bounds
abbrev pub attempt_count_bounds : DurableTask → Bool
attempt_count_bounds t = ltb 0 t.max_attempts && leb t.attempt_count t.max_attempts

-- CHECK lease_state
abbrev pub lease_state : DurableTask → Bool
lease_state t =
    (is_running t.status
      && is_some t.lease_token
      && is_some t.lease_owner
      && is_some t.heartbeat_at
      && is_some t.lease_expires_at)
    || (not (is_running t.status)
        && not (is_some t.lease_token)
        && not (is_some t.lease_owner)
        && not (is_some t.heartbeat_at)
        && not (is_some t.lease_expires_at))

-- A comparison with NULL is NULL, which a CHECK lets pass.
abbrev pub later_or_null : Option ℕ → Option ℕ → Bool
later_or_null (some expires) (some beat) = ltb beat expires
later_or_null _ _ = true

-- CHECK lease_expiry_after_heartbeat
abbrev pub lease_expiry_after_heartbeat : DurableTask → Bool
lease_expiry_after_heartbeat t = later_or_null t.lease_expires_at t.heartbeat_at

-- CHECK retry_schedule_state
abbrev pub retry_schedule_state : DurableTask → Bool
retry_schedule_state t =
    (is_retry_wait t.status && is_some t.next_retry_at)
    || (not (is_retry_wait t.status) && not (is_some t.next_retry_at))

-- CHECK completion_state
abbrev pub completion_state : DurableTask → Bool
completion_state t =
    (is_final t.status && is_some t.completed_at)
    || (not (is_final t.status) && not (is_some t.completed_at))

pub record TaskDefinition : Type 0 where
  pub kind : DurableTaskKind
  pub max_attempts : ℕ
  pub timeout_seconds : ℕ
  pub retry_backoff_seconds : ℕ

-- `TaskDefinition(kind)` with the dataclass defaults.
abbrev default_definition : DurableTaskKind → TaskDefinition
default_definition k = record {
  kind = k;
  max_attempts = 3;
  timeout_seconds = 900;
  retry_backoff_seconds = 30;
}

-- TASK_REGISTRY[kind]
unfoldable pub task_definition : DurableTaskKind → TaskDefinition
task_definition agent_execution = record {
  kind = agent_execution;
  max_attempts = 3;
  timeout_seconds = 90;
  retry_backoff_seconds = 30;
}
task_definition k = default_definition k
