-- ===== src/WeeklyReports/Served.antt =====
-- What the queries of the weekly report serve.
use project_risk_system.Base.{
  ℕ, ◌+◌, ◌%◌, ◌≤◌, ◌≡◌, refl, ap, ◌∙◌, inl, inr, String, Bool, true, false, some, List, [], ◌∷◌,
  ◌==◌, ltb, length, All, Bool-cases, arith, suc,
}
use mathlib.Core.Path.{subst}
use project_risk_system.Base.Sort.{sort_by, select_where, length-sort_by}
use project_risk_system.Rbac.Scopes.{Project, UserProjectScope, get_scoped_project}
use project_risk_system.Todos.Model.{SessionIdentity}
use project_risk_system.WeeklyReports.Model.{
  Aggregate, ReportItem, Reports, Sources, AuthorityRow, authority_rows,
}
use project_risk_system.WeeklyReports.Rebuild.{freshness, items_of}
use project_risk_system.WeeklyReports.Selected.{is_item_of}
use project_risk_system.WeeklyReports.Current.{IsCurrent}
use project_risk_system.WeeklyReports.Entries.{
  All-Mem, IsShown, report_rows-IsShown, ordered_rows-IsShown, IsEntry, entries-shown, entries_due,
  length-report_rows, length-ordered_rows, length-project_summaries, sum_of, entries-total,
}
use project_risk_system.WeeklyReports.Report.{
  WeeklyReport, WeeklyProjectDetail, ReportRow, Reported, served, refused, weekly_report_stale,
  week_start_not_monday, report_rows, report_rows_served, ordered_rows, report_of, report,
  detail_of, detail, any_expired, least, in_user_scope, newest_first, backwards,
}

any_expired-none :
    (now : ℕ) (first : ReportRow) (rest : List ReportRow)
    → any_expired now (first ∷ rest) ≡ false
    → now ≤ least (λ a. a.freshness_deadline) first rest
any_expired-none now first [] h = ground arith
any_expired-none now first (r ∷ rows) h =
    let ih = any_expired-none now r rows (ground arith) in ground arith

-- What a served report keeps to.
pub record IsServed (shown : Project → Bool) (projects : List Project) (aggregates : List Aggregate)
    (now week_start : ℕ) (r : WeeklyReport) : Type 0 where
  pub of_week : r.week_start ≡ week_start
  pub in_time : now ≤ r.freshness_deadline
  pub in_scope : All (IsEntry shown week_start projects aggregates) r.projects
  pub complete : length r.projects ≡ entries_due shown week_start projects aggregates
  pub not_empty : 1 ≤ length r.projects
  pub project_total : r.summary.project_count ≡ length r.projects
  pub risk_total : r.summary.risk_count ≡ sum_of (λ x. x.risk_count) r.projects
  pub high_total :
      r.summary.risk_level_counts.high ≡ sum_of (λ x. x.risk_level_counts.high) r.projects
  pub medium_total :
      r.summary.risk_level_counts.medium ≡ sum_of (λ x. x.risk_level_counts.medium) r.projects
  pub low_total : r.summary.risk_level_counts.low ≡ sum_of (λ x. x.risk_level_counts.low) r.projects
  pub unknown_total :
      r.summary.risk_level_counts.unknown ≡ sum_of (λ x. x.risk_level_counts.unknown) r.projects

Serves : (WeeklyReport → Type 0) → Reported WeeklyReport → Type 0
Serves P (served r) = P r
Serves P (refused e) = Unit

rows-IsServed :
    (shown : Project → Bool) (projects : List Project) (aggregates : List Aggregate)
    (now week_start : ℕ) (items : List ReportItem) (rows : List ReportRow)
    → All (IsShown shown week_start projects aggregates) rows
    → length rows ≡ entries_due shown week_start projects aggregates
    → Serves
        (IsServed shown projects aggregates now week_start)
        (report_rows_served now week_start items rows)
unfolding report_rows_served Serves report_of
rows-IsServed shown projects aggregates now week_start items [] h n = tt
rows-IsServed shown projects aggregates now week_start items (first ∷ rest) h n =
    elim (Bool-cases (any_expired now (first ∷ rest))) [
      | inl late ↦ rw late tt
      | inr timely ↦ rw timely (record {
        of_week = refl;
        in_time = any_expired-none now first rest timely;
        in_scope = entries-shown shown week_start projects aggregates (first ∷ rest) h;
        complete = length-project_summaries (first ∷ rest) ∙ n;
        not_empty = ground arith;
        project_total = refl;
        risk_total =
            entries-total (λ a. a.risk_count) (λ x. x.risk_count) (λ r. refl) (first ∷ rest);
        high_total =
            entries-total (λ a. a.risk_level_counts.high) (λ x. x.risk_level_counts.high)
              (λ r. refl) (first ∷ rest);
        medium_total =
            entries-total (λ a. a.risk_level_counts.medium) (λ x. x.risk_level_counts.medium)
              (λ r. refl) (first ∷ rest);
        low_total =
            entries-total (λ a. a.risk_level_counts.low) (λ x. x.risk_level_counts.low) (λ r. refl)
              (first ∷ rest);
        unknown_total =
            entries-total (λ a. a.risk_level_counts.unknown) (λ x. x.risk_level_counts.unknown)
              (λ r. refl) (first ∷ rest);
      })
    ]

-- A report is served for a Monday only, by its deadline, with at least one entry; every entry shows an
-- aggregate of the week with its project, both stored, the project in the user's scope, and there are as
-- many entries as such pairs; the totals of projects, of risks and of each level of risk are those of the
-- entries.
pub report-IsServed :
    (collate : String → ℕ) (assignments : List UserProjectScope) (projects : List Project)
    (identity : SessionIdentity) (now week_start : ℕ) (reports : Reports) (r : WeeklyReport)
    → report collate assignments projects identity now week_start reports ≡ served r
    → (week_start % 7 ≡ 0)
      × IsServed (in_user_scope assignments identity) projects reports.aggregates now week_start r
unfolding report Serves
report-IsServed collate assignments projects identity now week_start reports r h =
    let shown = in_user_scope assignments identity in
    let stored = reports.aggregates in
    let rows = ordered_rows collate (report_rows shown week_start projects stored) in
    elim (Bool-cases (week_start % 7 == 0)) [
      | inl monday ↦
          let h' : report_rows_served now week_start reports.items rows ≡ served r =
            rw monday at h in
          (
            ground arith,
            subst (Serves (IsServed shown projects stored now week_start)) h' (
                rows-IsServed shown projects stored now week_start reports.items rows
                  (ordered_rows-IsShown shown week_start projects stored collate _
                    (report_rows-IsShown shown week_start projects stored stored (All-Mem stored)))
                  (length-ordered_rows collate _
                    ∙ length-report_rows shown week_start projects stored)),
          )
      | inr other ↦ absurd (let h' : refused week_start_not_monday ≡ served r = rw other at h in cc)
    ]

length-backwards : (xs ys : List ReportItem) → length (backwards xs ys) ≡ length xs + length ys
length-backwards [] ys = omega arith
length-backwards (x ∷ xs) ys = omega (arith, length-backwards xs (x ∷ ys))

length-newest_first : (xs : List ReportItem) → length (newest_first xs) ≡ length xs
length-newest_first xs = omega (
  arith,
  length-backwards (sort_by (λ i. i.occurred_at) xs) [],
  length-sort_by (λ i. i.occurred_at) xs,
)

length-items_of :
    (i revision : ℕ) (rows : List AuthorityRow) → length (items_of i revision rows) ≡ length rows
length-items_of i revision [] = refl
length-items_of i revision (r ∷ rows) = ap suc (length-items_of i revision rows)

-- What a user sees of a week that was built at generated_at.
abbrev pub IsDetailed : ℕ → ℕ → Reported WeeklyProjectDetail → Type 0
IsDetailed generated_at count x =
    (d : WeeklyProjectDetail) × (x ≡ served d) × (d.stale ≡ false) × (length d.items ≡ count)

-- Until fifteen minutes after a current week was built, its detail is served to every user in whose scope
-- the project is, not stale and with one item for each row of the sources; after that it is refused.
pub current_week-detail :
    (s : Sources) (week_start project_id target generated_at : ℕ) (reports : Reports)
    → IsCurrent s week_start project_id target generated_at reports
    → (assignments : List UserProjectScope) (projects : List Project) (identity : SessionIdentity)
      (p : Project) (now : ℕ)
    → week_start % 7 ≡ 0
    → get_scoped_project assignments project_id identity.user_id identity.data_scope projects
      ≡ some p
    → let x = detail assignments projects identity now week_start project_id reports in
      (now ≤ generated_at + freshness
        → IsDetailed generated_at (length (authority_rows s week_start project_id)) x)
      × (suc (generated_at + freshness) ≤ now → x ≡ refused weekly_report_stale)
unfolding detail detail_of
current_week-detail s week_start project_id target generated_at reports h assignments projects
      identity p now monday shown =
    let is_monday : (week_start % 7 == 0) ≡ true = ground arith in
    let d = h.deadline in
    (
      (λ timely.
          let late : ltb h.aggregate.freshness_deadline now ≡ false = ground arith in
          (
            detail_of week_start p h.aggregate reports.items,
            rw (is_monday, shown, h.stored, late) refl,
            h.fresh,
            length-newest_first (select_where (is_item_of h.aggregate.id) reports.items)
                ∙ ap length h.itemised
                ∙ length-items_of h.aggregate.id h.aggregate.source_revision _,
          )),
      (λ late.
          let e : ltb h.aggregate.freshness_deadline now ≡ true = ground arith in
          rw (is_monday, shown, h.stored, e) refl),
    )
