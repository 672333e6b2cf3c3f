-- ===== src/Risks/Change.antt =====
-- `update_agent_in_session` of risks/service.py: the fields that the agent may change. Python's `str` and
-- `UUID` are arguments.
use project_risk_system.Base.{
  ℕ, String, Bool, true, false, Option, none, some, List, [], ◌∷◌, ◌++◌, ◌==◌, ◌&&◌, ◌||◌, not,
  if◌then◌else◌,
}
use project_risk_system.Base.Json.{JsonValue, string, null}
use project_risk_system.Base.Table.{select_first}
use project_risk_system.Base.Text.{strip, is_empty}
use text.Mathlib.Text.{◌==◌ as str_eq}
use project_risk_system.Base.Strings.{member}
use project_risk_system.Todos.Model.{
  Risk, ProjectRiskLevel, high, medium, low, unknown, risk_updated_audit, Store, SessionIdentity,
}
use project_risk_system.Risks.Report.{
  RiskError, not_found, validation_error, category_stale, RiskResult, ok, err,
}
use project_risk_system.Risks.Lifecycle.{risk_row, write_risk, lifecycle_audit}

pub record RiskCategory : Type 0 where
  pub id : ℕ
  pub is_active : Bool

-- What the code takes from Python, and the table of categories.
pub record Context : Type 0 where
  pub str : JsonValue → String
  pub parse_uuid : String → Option ℕ
  pub categories : List RiskCategory

abbrev pub Fields : Type 0
Fields = List (String × JsonValue)

abbrev pub allowed_fields : List String
allowed_fields = "title" ∷ "description" ∷ "level" ∷ "category" ∷ "evidence" ∷ "suggestion" ∷ []

abbrev pub all_allowed : Fields → Bool
all_allowed [] = true
all_allowed ((k, v) ∷ rest) = member k allowed_fields && all_allowed rest

abbrev pub no_fields : Fields → Bool
no_fields [] = true
no_fields (f ∷ rest) = false

-- ProjectRiskLevel(text)
abbrev pub level_of : String → Option ProjectRiskLevel
level_of s =
    if str_eq s "HIGH"
    then some high
    else if str_eq s "MEDIUM"
    then some medium
    else if str_eq s "LOW"
    then some low
    else if str_eq s "UNKNOWN"
    then some unknown
    else none

pub data Changed : Type 0 where
  changed : Risk → Changed
  refused : RiskError → Changed

-- A title or a description: a text that is not blank.
abbrev pub set_text : (String → Risk) → JsonValue → Changed
set_text put (string s) =
    if is_empty (strip s) then refused validation_error else changed (put (strip s))
set_text put _ = refused validation_error

-- Evidence or a suggestion: a text or null.
abbrev pub set_optional : (Option String → Risk) → JsonValue → Changed
set_optional put (string s) = changed (put (some (strip s)))
set_optional put null = changed (put none)
set_optional put _ = refused validation_error

abbrev pub set_level : Option ProjectRiskLevel → Risk → Changed
set_level none r = refused validation_error
set_level (some l) r = changed (record r { level = l })

abbrev pub set_category : List RiskCategory → Option ℕ → Risk → Changed
set_category categories none r = refused validation_error
set_category categories (some i) r =
    chosen (select_first (λ c. c.id == i && c.is_active) categories)
  where
    chosen : Option RiskCategory → Changed
    chosen none = refused category_stale
    chosen (some c) = changed (record r { category_id = c.id })

-- One turn of the loop over the fields; a key outside the list is refused before the loop.
unfoldable pub set_field : Context → String → JsonValue → Risk → Changed
set_field x key value r =
    if str_eq key "title"
    then set_text (λ s. record r { title = s }) value
    else if str_eq key "description"
    then set_text (λ s. record r { description = s }) value
    else if str_eq key "level"
    then set_level (level_of (x.str value)) r
    else if str_eq key "category"
    then set_category x.categories (x.parse_uuid (x.str value)) r
    else if str_eq key "evidence"
    then set_optional (λ s. record r { evidence = s }) value
    else if str_eq key "suggestion"
    then set_optional (λ s. record r { suggestion = s }) value
    else changed r

infixl 5 ◌>>=◌
abbrev ◌>>=◌ : Changed → (Risk → Changed) → Changed
changed r >>= f = f r
refused e >>= f = refused e

unfoldable pub set_fields : Context → Fields → Risk → Changed
set_fields x [] r = changed r
set_fields x ((key, value) ∷ rest) r = set_field x key value r >>= λ r'. set_fields x rest r'

unfoldable pub update_agent_in_session : Context → Store → SessionIdentity → ℕ → Fields → RiskResult
update_agent_in_session x s identity risk_id fields = found (risk_row s identity risk_id)
  where
    finish : Risk → Changed → RiskResult
    finish r (refused e) = err e
    finish r (changed r') =
        ok
          (record s {
            risks = write_risk r' s.risks;
            audits = s.audits ++ lifecycle_audit risk_updated_audit identity r ∷ [];
          })
          r'

    found : Option Risk → RiskResult
    found none = err not_found
    found (some r) =
        if no_fields fields || not (all_allowed fields)
        then err validation_error
        else finish r (set_fields x fields r)
