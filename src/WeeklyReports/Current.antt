-- ===== src/WeeklyReports/Current.antt =====
-- What a rebuild leaves: a current aggregate with the items of the rows it was built from.
use project_risk_system.Base.{
  ℕ, ◌+◌, ◌≤◌, ◌<◌, ◌≡◌, refl, ◌⊎◌, true, false, none, some, List, [], ◌∷◌, length, All, arith,
}
use project_risk_system.Base.Table.{select_first, select_first-append_one}
use project_risk_system.Base.Sort.{select_where}
use project_risk_system.WeeklyReports.Model.{
  Aggregate, Reports, Sources, AuthorityRow, authority_rows, is_of,
}
use project_risk_system.WeeklyReports.Rebuild.{
  freshness, built, rebuild_week, items_of, level_counts,
}
use project_risk_system.WeeklyReports.Counted.{IsCounted, built-IsCounted}
use project_risk_system.WeeklyReports.Selected.{is_item_of, IsNoItemOf, select_where-new}

-- Every risk of the rows is of one level.
level_counts-total :
    (rows : List AuthorityRow)
    → let c = level_counts rows in c.high + c.medium + c.low + c.unknown ≡ length rows
unfolding level_counts
level_counts-total [] = refl
level_counts-total (r ∷ rows) = let ih = level_counts-total rows in ground arith

-- The aggregate of a project's week is current: it has reached the revision, says what the rows say, and
-- its items are theirs.
pub record IsCurrent (s : Sources) (week_start project_id target generated_at : ℕ)
    (reports : Reports) : Type 0 where
  pub aggregate : Aggregate
  pub stored : select_first (is_of week_start project_id) reports.aggregates ≡ some aggregate
  pub fresh : aggregate.stale ≡ false
  pub reached : target ≤ aggregate.source_revision
  pub deadline : aggregate.freshness_deadline ≡ generated_at + freshness
  pub counted : IsCounted (authority_rows s week_start project_id) aggregate
  pub levels :
      let c = aggregate.risk_level_counts in
      c.high + c.medium + c.low + c.unknown ≡ aggregate.risk_count
  pub itemised :
      select_where (is_item_of aggregate.id) reports.items
      ≡ items_of aggregate.id aggregate.source_revision (authority_rows s week_start project_id)

module _ (s : Sources) (new_id week_start project_id target generated_at : ℕ)
    (reports : Reports) where
  abbrev after : Reports
  after = rebuild_week s new_id week_start project_id target generated_at reports

  abbrev rows : List AuthorityRow
  rows = authority_rows s week_start project_id

  pub first_rebuild :
      select_first (is_of week_start project_id) reports.aggregates ≡ none
      → All (IsNoItemOf new_id) reports.items
      → IsCurrent s week_start project_id target generated_at after
  unfolding rebuild_week built
  first_rebuild absent new = rw absent (record {
    aggregate = built new_id week_start project_id target generated_at rows;
    stored =
        select_first-append_one (is_of week_start project_id) reports.aggregates _ absent
          (ground arith);
    fresh = refl;
    reached = omega arith;
    deadline = refl;
    counted = built-IsCounted new_id week_start project_id target generated_at rows;
    levels = level_counts-total rows;
    itemised = select_where-new new_id target reports.items rows new;
  })

-- The week has no aggregate yet, or a stale one, or one short of the revision.
abbrev pub IsDue : ℕ → ℕ → ℕ → Reports → Type 0
IsDue week_start project_id target reports =
    (select_first (is_of week_start project_id) reports.aggregates ≡ none)
    ⊎ ((a : Aggregate) × (select_first (is_of week_start project_id) reports.aggregates ≡ some a)
        × ((a.stale ≡ true) ⊎ (a.source_revision < target)))
