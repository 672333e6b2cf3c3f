-- ===== src/Risks/Report.antt =====
-- `create_in_session` of risks/service.py.
use project_risk_system.Base.{
  ℕ, String, Bool, Option, none, some, List, [], ◌∷◌, ◌++◌, ◌==◌, ◌||◌, if◌then◌else◌,
}
use project_risk_system.Base.Table.{select_first}
use project_risk_system.Base.Text.{strip, is_empty}
use text.Mathlib.Text.{◌==◌ as str_eq}
use project_risk_system.Rbac.Scopes.{Project}
use project_risk_system.Todos.Model.{
  ActionItem, Risk, open_risk, RiskSourceType, ProjectRiskLevel, RiskTimelineEvent,
  RiskTimelineEventType, risk_created, action_created, risk_created_audit, Store,
}
use project_risk_system.Todos.Risks.{ensure_for_risk}

pub data RiskError : Type 0 where
  bad_request not_found validation_error category_stale : RiskError
  already_resolved already_active : RiskError

pub data RiskResult : Type 0 where
  ok : Store → Risk → RiskResult
  err : RiskError → RiskResult

pub record RiskCreate : Type 0 where
  pub project_id : ℕ
  pub category_id : ℕ
  pub title : String
  pub description : String
  pub level : ProjectRiskLevel
  pub source_type : RiskSourceType
  pub dedupe_fingerprint : String
  pub evidence : Option String
  pub suggestion : Option String
  pub source_batch_id : Option ℕ
  pub source_ref_id : Option ℕ
  pub reporter_user_id : Option ℕ
  pub reporter_name : Option String
  pub week_code : Option String
  pub actor_name : Option String

abbrev pub first_some {ℓ} : {A : Type ℓ} → Option A → Option A → Option A
first_some (some a) other = some a
first_some none other = other

-- `a or b` for texts that may be missing: the empty text counts as missing.
abbrev pub or_text : Option String → Option String → Option String
or_text none other = other
or_text (some s) other = if is_empty s then other else some s

-- The row that `Risk(...)` inserts.
unfoldable pub new_risk : ℕ → RiskCreate → Option ℕ → Risk
new_risk new_id c actor_id = record {
  id = new_id;
  project_id = c.project_id;
  category_id = c.category_id;
  title = strip c.title;
  description = strip c.description;
  evidence = c.evidence;
  level = c.level;
  status = open_risk;
  source_type = c.source_type;
  source_batch_id = c.source_batch_id;
  source_ref_id = c.source_ref_id;
  reporter_user_id = first_some c.reporter_user_id actor_id;
  reporter_name_source = c.reporter_name;
  week_code = c.week_code;
  suggestion = c.suggestion;
  resolved_at = none;
  resolved_by_id = none;
  resolution_reason = none;
  dedupe_fingerprint = c.dedupe_fingerprint;
}

unfoldable pub has_fingerprint : String → Risk → Bool
has_fingerprint fingerprint r = str_eq r.dedupe_fingerprint fingerprint

-- The two events of a new risk: its own and that of its to-do item.
abbrev created_event :
    RiskCreate
    → Option ℕ
    → Risk
    → Option ℕ
    → RiskTimelineEventType
    → String
    → String
    → RiskTimelineEvent
created_event c actor_id r item kind heading body = record {
  project_id = r.project_id;
  risk_id = r.id;
  action_item_id = item;
  event_type = kind;
  title = heading;
  description = body;
  from_value = none;
  to_value = none;
  actor_user_id = actor_id;
  actor_name_source = or_text c.actor_name c.reporter_name;
}

-- What follows once the risk is inserted in a project that exists.
unfoldable pub add_risk :
    ℕ → RiskCreate → Option ℕ → Risk → Project → List ActionItem → Store → RiskResult
add_risk item_id c actor_id r project item_rivals s =
    let (items, todo) =
      ensure_for_risk s.items r project.delivery_owner_name actor_id item_id item_rivals in
    ok
      (record s {
        items = items;
        events =
            s.events
            ++ (created_event c actor_id r none risk_created "新增风险" r.description
                ∷ created_event c actor_id r (some todo.id) action_created "生成待办" todo.description
                ∷ []);
        audits =
            s.audits
            ++ record {
              actor_id = actor_id;
              action = risk_created_audit;
              resource_id = r.id;
              project_id = r.project_id;
            }
              ∷ [];
      })
      r

-- The flush of the new row: the unique index on the fingerprint refuses a second one.
unfoldable pub flush_risk : ℕ → RiskCreate → Option ℕ → Risk → List ActionItem → Store → RiskResult
flush_risk item_id c actor_id r item_rivals s =
    inserted (select_first (has_fingerprint c.dedupe_fingerprint) s.risks)
  where
    in_project : Option Project → RiskResult
    in_project none = err not_found
    in_project (some p) =
        add_risk item_id c actor_id r p item_rivals (record s { risks = s.risks ++ r ∷ [] })

    inserted : Option Risk → RiskResult
    inserted (some other) = ok s other
    inserted none = in_project (select_first (λ p. p.id == c.project_id) s.projects)

-- `rivals` are the risks that other transactions commit between the select and the flush, and
-- `item_rivals` the items during `ensure_for_risk`.
unfoldable pub create_in_session :
    ℕ → ℕ → RiskCreate → Option ℕ → List Risk → List ActionItem → Store → RiskResult
create_in_session new_id item_id c actor_id rivals item_rivals s =
    if is_empty (strip c.title) || is_empty (strip c.description)
    then err bad_request
    else found (select_first (has_fingerprint c.dedupe_fingerprint) s.risks)
  where
    found : Option Risk → RiskResult
    found (some existing) = ok s existing
    found none =
        flush_risk item_id c actor_id (new_risk new_id c actor_id) item_rivals
          (record s { risks = s.risks ++ rivals })
