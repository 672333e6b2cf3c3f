-- ===== src/Scheduler/Tests.antt =====
-- The theorems of the scheduler at a run of two actions.
use project_risk_system.Base.{◌≡◌, refl, true, false, none, some, [], ◌∷◌, ◌++◌, All}
use text.Mathlib.TextEquality.{eq_iff}
use mathlib.Core.Bool.{false≢true}
use project_risk_system.Scheduler.Cadence.{default_cadence, from_env}
use project_risk_system.Scheduler.Loop.{ActionSpec, Pass, raised, Scheduler, tick, run, exited}
use project_risk_system.Scheduler.Passes.{DistinctNames, due_names, run_time, tick-isolates}
use project_risk_system.Scheduler.Runs.{some_ends, IsLeft, IsOn, run-ends}

abbrev drain : ActionSpec
drain = record { name = "drain"; interval = 5000 }

abbrev sync : ActionSpec
sync = record { name = "sync"; interval = 300000 }

abbrev idle : Scheduler
idle = record {
  actions = drain ∷ sync ∷ [];
  liveness = record { window = 10000; lock_held = false; last_tick = none };
  last_run = λ name. none;
  calls = [];
  releases = 0;
}

abbrev pass : Pass
pass = record {
  stop_before = false;
  ping = true;
  now = 100;
  outcome = λ name. raised;
  finished = 200;
  stop_after = false;
}

abbrev lost : Pass
lost = record pass { ping = false }

distinct : DistinctNames idle.actions
distinct = (((λ e. false≢true ((eq_iff "drain" "sync").1 e)), tt), (tt, tt))

tick-isolates_example :
    ((tick pass idle).1.calls ≡ [] ++ due_names idle.last_run 100 idle.actions)
    × All (λ a. (tick pass idle).1.last_run a.name ≡ run_time pass idle.last_run a) idle.actions
tick-isolates_example = tick-isolates pass idle distinct refl

run-ends_example :
    (some_ends (pass ∷ lost ∷ []) ≡ true → IsLeft idle 1 (run true (pass ∷ lost ∷ []) idle))
    × (some_ends (pass ∷ lost ∷ []) ≡ false
        → IsOn idle (pass ∷ lost ∷ []) (run true (pass ∷ lost ∷ []) idle))
    × (run false (pass ∷ lost ∷ []) idle ≡ exited 1 idle)
run-ends_example = run-ends (pass ∷ lost ∷ []) idle

defaults_read : from_env (λ raw. none) (λ name. none) ≡ some default_cadence
unfolding from_env
defaults_read = refl
