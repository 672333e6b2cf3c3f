-- ===== src/WeeklyReports/Handle.antt =====
-- `handle` of weekly_reports/service.py: a rebuild task's payload, read back. The readers of a date and of
-- a UUID are the standard library's.
use project_risk_system.Base.{ℕ, String, Option, none, some}
use project_risk_system.Base.Json.{JsonValue, JsonObject, string, lookup}
use project_risk_system.WeeklyReports.Model.{Sources, Reports}
use project_risk_system.WeeklyReports.Rebuild.{Rebuilt, rebuild}

pub record Readers : Type 0 where
  pub fromisoformat : String → Option ℕ
  pub read_uuid : String → Option ℕ
  pub int : JsonValue → Option ℕ

-- A missing key, a value that is no text, and a text that does not parse are one error.
abbrev read_text : (String → Option ℕ) → Option JsonValue → Option ℕ
read_text reader (some (string text)) = reader text
read_text reader _ = none

abbrev read_number : (JsonValue → Option ℕ) → Option JsonValue → Option ℕ
read_number reader (some value) = reader value
read_number reader none = none

pub data Handled : Type 0 where
  handled : Rebuilt → Handled
  invalid_payload : Handled

abbrev pub rebuild_read : Sources → ℕ → ℕ → Reports → Option ℕ → Option ℕ → Option ℕ → Handled
rebuild_read s new_id generated_at reports (some week_start) (some project_id) (some revision) =
    handled (rebuild s new_id week_start project_id revision generated_at reports)
rebuild_read s new_id generated_at reports _ _ _ = invalid_payload

-- handle
unfoldable pub handle : Readers → Sources → ℕ → ℕ → JsonObject → Reports → Handled
handle x s new_id generated_at payload reports =
    rebuild_read s new_id generated_at reports
      (read_text x.fromisoformat (lookup "week_start" payload))
      (read_text x.read_uuid (lookup "project_id" payload))
      (read_number x.int (lookup "source_revision" payload))
