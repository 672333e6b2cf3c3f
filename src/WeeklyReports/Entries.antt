-- ===== src/WeeklyReports/Entries.antt =====
-- Which aggregates and projects the entries of a weekly report show, and how many.
use project_risk_system.Base.{
  ℕ, ◌+◌, ◌≡◌, refl, sym, ap, ◌∙◌, inl, inr, String, Bool, true, if◌then◌else◌, List, [], ◌∷◌, ◌==◌,
  ◌&&◌, length, All, length-append, All-append, All-imp, Bool-cases, arith, suc,
}
use mathlib.Core.List.{Mem}
use mathlib.Core.List.{mem-cons_self, mem-cons_of_mem}
use project_risk_system.Base.Table.{count_where}
use project_risk_system.Base.Sort.{sort_by, All-sort_by, length-sort_by}
use project_risk_system.Rbac.Scopes.{Project}
use project_risk_system.WeeklyReports.Model.{Aggregate}
use project_risk_system.WeeklyReports.Report.{
  WeeklyProjectSummary, ReportRow, join_projects, report_rows, ordered_rows, total, project_summary,
  project_summaries,
}

pub All-Mem : {A : Type 0} → (xs : List A) → All (λ x. Mem x xs) xs
All-Mem [] = tt
All-Mem (x ∷ xs) = (mem-cons_self, All-imp _ _ xs (λ y m. mem-cons_of_mem x m) (All-Mem xs))

module _ (shown : Project → Bool) (week_start : ℕ) (projects : List Project)
    (aggregates : List Aggregate) where
  -- A row joins an aggregate of the week with its project, both from their tables, which the user may see.
  pub record IsShown (r : ReportRow) : Type 0 where
    pub project_there : Mem r.project projects
    pub aggregate_there : Mem r.aggregate aggregates
    pub of_week : r.aggregate.week_start ≡ week_start
    pub of_project : r.project.id ≡ r.aggregate.project_id
    pub in_scope : shown r.project ≡ true

  join_projects-IsShown :
      (a : Aggregate)
      → Mem a aggregates
      → a.week_start ≡ week_start
      → (ps : List Project) → All (λ p. Mem p projects) ps
      → All IsShown (join_projects shown a ps)
  unfolding join_projects
  join_projects-IsShown a there week [] h = tt
  join_projects-IsShown a there week (p ∷ ps) h =
      let rest = join_projects-IsShown a there week ps h.1 in
      elim (Bool-cases (p.id == a.project_id && shown p)) [
        | inl e ↦ rw e (
          record {
            project_there = h.0;
            aggregate_there = there;
            of_week = week;
            of_project = ground arith;
            in_scope = ground arith;
          },
          rest,
        )
        | inr e ↦ rw e rest
      ]

  pub report_rows-IsShown :
      (rows : List Aggregate)
      → All (λ a. Mem a aggregates) rows
      → All IsShown (report_rows shown week_start projects rows)
  unfolding report_rows
  report_rows-IsShown [] h = tt
  report_rows-IsShown (a ∷ rest) h = elim (Bool-cases (a.week_start == week_start)) [
    | inl e ↦ rw e (
        All-append IsShown (join_projects shown a projects) _
          (join_projects-IsShown a h.0 (ground arith) projects (All-Mem projects))
          (report_rows-IsShown rest h.1))
    | inr e ↦ rw e (report_rows-IsShown rest h.1)
  ]

  pub ordered_rows-IsShown :
      (collate : String → ℕ) (rows : List ReportRow)
      → All IsShown rows
      → All IsShown (ordered_rows collate rows)
  unfolding ordered_rows
  ordered_rows-IsShown collate rows h =
      All-sort_by IsShown (λ r. collate r.project.name) _
        (All-sort_by IsShown (λ r. r.project.id) rows h)

  -- An entry of the report shows an aggregate of the week under its project, both from their tables, where
  -- the project is in the user's scope.
  pub record IsEntry (x : WeeklyProjectSummary) : Type 0 where
    pub project : Project
    pub project_there : Mem project projects
    pub in_scope : shown project ≡ true
    pub named : (x.project_id ≡ project.id) × (x.name ≡ project.name)
    pub aggregate : Aggregate
    pub aggregate_there : Mem aggregate aggregates
    pub of_week : aggregate.week_start ≡ week_start
    pub of_project : aggregate.project_id ≡ project.id
    pub summary : x.summary ≡ aggregate.summary
    pub risks : x.risk_count ≡ aggregate.risk_count
    pub levels : x.risk_level_counts ≡ aggregate.risk_level_counts
    pub revision : x.source_revision ≡ aggregate.source_revision

  pub entries-shown :
      (rows : List ReportRow) → All IsShown rows → All IsEntry (project_summaries rows)
  entries-shown [] h = tt
  entries-shown (r ∷ rows) h = (
    record {
      project = r.project;
      project_there = h.0.project_there;
      in_scope = h.0.in_scope;
      named = (refl, refl);
      aggregate = r.aggregate;
      aggregate_there = h.0.aggregate_there;
      of_week = h.0.of_week;
      of_project = sym h.0.of_project;
      summary = refl;
      risks = refl;
      levels = refl;
      revision = refl;
    },
    entries-shown rows h.1,
  )

-- How many pairs of an aggregate of the week and its project in scope the tables have.
abbrev pub entries_due : (Project → Bool) → ℕ → List Project → List Aggregate → ℕ
entries_due shown week_start projects [] = 0
entries_due shown week_start projects (a ∷ rest) =
    (if a.week_start == week_start
      then count_where (λ p. p.id == a.project_id && shown p) projects
      else 0)
    + entries_due shown week_start projects rest

length-join_projects :
    (shown : Project → Bool) (a : Aggregate) (ps : List Project)
    → length (join_projects shown a ps) ≡ count_where (λ p. p.id == a.project_id && shown p) ps
unfolding join_projects
length-join_projects shown a [] = refl
length-join_projects shown a (p ∷ ps) =
    let ih = length-join_projects shown a ps in
    elim (Bool-cases (p.id == a.project_id && shown p)) [
      | inl e ↦ rw e (omega (arith, ih))
      | inr e ↦ rw e (omega (arith, ih))
    ]

pub length-report_rows :
    (shown : Project → Bool) (week_start : ℕ) (projects : List Project)
    (aggregates : List Aggregate)
    → length (report_rows shown week_start projects aggregates)
      ≡ entries_due shown week_start projects aggregates
unfolding report_rows
length-report_rows shown week_start projects [] = refl
length-report_rows shown week_start projects (a ∷ rest) =
    let ih = length-report_rows shown week_start projects rest in
    let own = length-join_projects shown a projects in
    elim (Bool-cases (a.week_start == week_start)) [
      | inl e ↦ rw e (
          omega (
            arith,
            length-append (join_projects shown a projects)
                (report_rows shown week_start projects rest),
            own,
            ih,
          ))
      | inr e ↦ rw e (omega (arith, ih))
    ]

pub length-ordered_rows :
    (collate : String → ℕ) (rows : List ReportRow)
    → length (ordered_rows collate rows) ≡ length rows
unfolding ordered_rows
length-ordered_rows collate rows =
    length-sort_by (λ r. collate r.project.name) (sort_by (λ r. r.project.id) rows)
    ∙ length-sort_by (λ r. r.project.id) rows

pub length-project_summaries :
    (rows : List ReportRow) → length (project_summaries rows) ≡ length rows
length-project_summaries [] = refl
length-project_summaries (r ∷ rows) = ap suc (length-project_summaries rows)

-- The sum over the entries of the report.
abbrev pub sum_of : (WeeklyProjectSummary → ℕ) → List WeeklyProjectSummary → ℕ
sum_of f [] = 0
sum_of f (x ∷ xs) = f x + sum_of f xs

pub entries-total :
    (f : Aggregate → ℕ) (g : WeeklyProjectSummary → ℕ)
    → ((r : ReportRow) → g (project_summary r) ≡ f r.aggregate)
    → (rows : List ReportRow) → total f rows ≡ sum_of g (project_summaries rows)
entries-total f g same [] = refl
entries-total f g same (r ∷ rows) = rw (same r, entries-total f g same rows)
