-- ===== src/WeeklyReports/Counted.antt =====
-- The counts of an aggregate, by the rows that they count.
use project_risk_system.Base.{
  ℕ, ◌≡◌, refl, ap, Bool, true, false, not, List, [], ◌∷◌, ◌==◌, ◌||◌, if◌then◌else◌, length, inl,
  inr, Bool-cases, arith,
}
use project_risk_system.Base.Table.{count_where}
use project_risk_system.Base.Sort.{select_where}
use project_risk_system.Todos.Model.{
  ActionItemStatus, pending, in_progress, completed, ProjectRiskLevel, high, medium, low, unknown,
  is_open,
}
use project_risk_system.WeeklyReports.Model.{Aggregate, AuthorityRow}
use project_risk_system.WeeklyReports.Rebuild.{
  built, level_counts, summary_of, distinct_mails, mail_occurs, is_high, is_medium, is_low,
  is_unknown, is_in_progress,
}
use project_risk_system.Todos.Schedule.{is_completed}
use project_risk_system.Risks.Lifecycle.{is_pending}

abbrev is_level : ProjectRiskLevel → ProjectRiskLevel → Bool
is_level high high = true
is_level medium medium = true
is_level low low = true
is_level unknown unknown = true
is_level _ _ = false

abbrev is_status : ActionItemStatus → ActionItemStatus → Bool
is_status pending pending = true
is_status in_progress in_progress = true
is_status completed completed = true
is_status _ _ = false

-- The rows whose risk is of a level, those whose risk has a status, and those whose to-do item has one.
abbrev pub risks_at : ProjectRiskLevel → List AuthorityRow → ℕ
risks_at level rows = length (select_where (λ r. is_level level r.risk.level) rows)

abbrev pub risks_open : Bool → List AuthorityRow → ℕ
risks_open b rows =
    length
      (select_where (λ r. if b then is_open r.risk.status else not (is_open r.risk.status)) rows)

abbrev pub todos_at : ActionItemStatus → List AuthorityRow → ℕ
todos_at status rows = length (select_where (λ r. is_status status r.todo.status) rows)

abbrev pub mail_in : ℕ → List ℕ → Bool
mail_in i [] = false
mail_in i (j ∷ js) = j == i || mail_in i js

abbrev AreDistinct : List ℕ → Type 0
AreDistinct [] = Unit
AreDistinct (i ∷ is) = (mail_in i is ≡ false) × AreDistinct is

abbrev ids_of : List AuthorityRow → List ℕ
ids_of [] = []
ids_of (r ∷ rows) = r.message.id ∷ ids_of rows

-- The number is that of the mails of the rows, each counted once.
abbrev pub AreMails : List AuthorityRow → ℕ → Type 0
AreMails rows n =
    (mails : List ℕ) × AreDistinct mails
    × ((i : ℕ) → mail_in i mails ≡ mail_in i (ids_of rows))
    × (n ≡ length mails)

-- What the counts of an aggregate say of its rows.
pub record IsCounted (rows : List AuthorityRow) (a : Aggregate) : Type 0 where
  pub risks : a.risk_count ≡ length rows
  pub of_high : a.risk_level_counts.high ≡ risks_at high rows
  pub of_medium : a.risk_level_counts.medium ≡ risks_at medium rows
  pub of_low : a.risk_level_counts.low ≡ risks_at low rows
  pub of_unknown : a.risk_level_counts.unknown ≡ risks_at unknown rows
  pub active : a.summary.active_risk_count ≡ risks_open true rows
  pub resolved_risks : a.summary.resolved_risk_count ≡ risks_open false rows
  pub to_do : a.summary.pending_count ≡ todos_at pending rows
  pub doing : a.summary.in_progress_count ≡ todos_at in_progress rows
  pub finished : a.summary.completed_count ≡ todos_at completed rows
  pub mails : AreMails rows a.summary.report_count

count_where-select_where :
    (q p : AuthorityRow → Bool)
    → ((r : AuthorityRow) → q r ≡ p r)
    → (rows : List AuthorityRow) → count_where q rows ≡ length (select_where p rows)
count_where-select_where q p same [] = refl
count_where-select_where q p same (r ∷ rows) =
    let ih = count_where-select_where q p same rows in
    elim (Bool-cases (p r)) [
      | inl e ↦ rw (same r, e, ih) (omega arith)
      | inr e ↦ rw (same r, e, ih) (omega arith)
    ]

of_level_high : (l : ProjectRiskLevel) → is_high l ≡ is_level high l
of_level_high high = refl
of_level_high medium = refl
of_level_high low = refl
of_level_high unknown = refl

of_level_medium : (l : ProjectRiskLevel) → is_medium l ≡ is_level medium l
of_level_medium high = refl
of_level_medium medium = refl
of_level_medium low = refl
of_level_medium unknown = refl

of_level_low : (l : ProjectRiskLevel) → is_low l ≡ is_level low l
of_level_low high = refl
of_level_low medium = refl
of_level_low low = refl
of_level_low unknown = refl

of_level_unknown : (l : ProjectRiskLevel) → is_unknown l ≡ is_level unknown l
of_level_unknown high = refl
of_level_unknown medium = refl
of_level_unknown low = refl
of_level_unknown unknown = refl

of_pending : (l : ActionItemStatus) → is_pending l ≡ is_status pending l
of_pending pending = refl
of_pending in_progress = refl
of_pending completed = refl

of_in_progress : (l : ActionItemStatus) → is_in_progress l ≡ is_status in_progress l
of_in_progress pending = refl
of_in_progress in_progress = refl
of_in_progress completed = refl

of_completed : (l : ActionItemStatus) → is_completed l ≡ is_status completed l
of_completed pending = refl
of_completed in_progress = refl
of_completed completed = refl

mail_occurs_lem : (i : ℕ) (rows : List AuthorityRow) → mail_occurs i rows ≡ mail_in i (ids_of rows)
mail_occurs_lem i [] = refl
mail_occurs_lem i (r ∷ rows) = ap (λ b. r.message.id == i || b) (mail_occurs_lem i rows)

distinct_mails-AreMails : (rows : List AuthorityRow) → AreMails rows (distinct_mails rows)
distinct_mails-AreMails [] = ([], tt, (λ i. refl), refl)
distinct_mails-AreMails (r ∷ rows) =
    let (mails, distinct, same, counted) = distinct_mails-AreMails rows in
    let seen = mail_occurs_lem r.message.id rows in
    elim (Bool-cases (mail_in r.message.id (ids_of rows))) [
      | inl e ↦ (mails, distinct, (λ i. known i e (same i)), rw (seen, e) (omega (arith, counted)))
      | inr e ↦ (
        r.message.id ∷ mails,
        (rw (same r.message.id) e, distinct),
        (λ i. ap (λ b. r.message.id == i || b) (same i)),
        rw (seen, e, counted) (omega arith),
      )
    ]
  where
    known :
        {b : Bool}
        → (i : ℕ) → mail_in r.message.id (ids_of rows) ≡ true
        → b ≡ mail_in i (ids_of rows)
        → b ≡ (r.message.id == i || mail_in i (ids_of rows))
    known i e h = elim (Bool-cases (r.message.id == i)) [
      | inl hit ↦
          let same : r.message.id ≡ i = ground arith in
          let here : mail_in i (ids_of rows) ≡ true = rw (← same) e in rw (hit, h, here) refl
      | inr miss ↦ rw (miss, h) refl
    ]

module _ (aggregate_id week_start project_id revision generated_at : ℕ)
    (rows : List AuthorityRow) where
  pub built-IsCounted :
      IsCounted rows (built aggregate_id week_start project_id revision generated_at rows)
  unfolding built level_counts summary_of
  built-IsCounted = record {
    risks = refl;
    of_high = count_where-select_where _ _ (λ r. of_level_high r.risk.level) rows;
    of_medium = count_where-select_where _ _ (λ r. of_level_medium r.risk.level) rows;
    of_low = count_where-select_where _ _ (λ r. of_level_low r.risk.level) rows;
    of_unknown = count_where-select_where _ _ (λ r. of_level_unknown r.risk.level) rows;
    active = count_where-select_where _ _ (λ r. refl) rows;
    resolved_risks = count_where-select_where _ _ (λ r. refl) rows;
    to_do = count_where-select_where _ _ (λ r. of_pending r.todo.status) rows;
    doing = count_where-select_where _ _ (λ r. of_in_progress r.todo.status) rows;
    finished = count_where-select_where _ _ (λ r. of_completed r.todo.status) rows;
    mails = distinct_mails-AreMails rows;
  }
