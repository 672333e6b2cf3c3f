-- ===== src/Scheduler/Loop.antt =====
-- `LivenessState` and `Scheduler` of scheduler.py. What the world does during a pass (the ping, the
-- clock, the actions, the stop event) is a `Pass`; a run is given the list of them.
use project_risk_system.Base.{
  ℕ, suc, ◌+◌, Bool, true, false, Option, none, some, List, [], ◌∷◌, ◌++◌, String, ◌&&◌, leb,
  if◌then◌else◌,
}
use text.Mathlib.Text.{◌==◌}

pub record LivenessState : Type 0 where
  pub window : ℕ
  pub lock_held : Bool
  pub last_tick : Option ℕ

abbrev pub set_lock_held : Bool → LivenessState → LivenessState
set_lock_held value l = record { window = l.window; lock_held = value; last_tick = l.last_tick }

abbrev pub record_tick : ℕ → LivenessState → LivenessState
record_tick now l = record { window = l.window; lock_held = l.lock_held; last_tick = some now }

abbrev pub ticked_within : ℕ → Option ℕ → ℕ → Bool
ticked_within window none now = false
ticked_within window (some t) now = leb now (t + window)

-- healthy
abbrev pub healthy : LivenessState → ℕ → Bool
healthy l now = l.lock_held && ticked_within l.window l.last_tick now

pub record ActionSpec : Type 0 where
  pub name : String
  pub interval : ℕ

-- An action raises, or it returns and the clock then reads `n`.
pub data Outcome : Type 0 where
  raised : Outcome
  returned : ℕ → Outcome

pub record Pass : Type 0 where
  pub stop_before : Bool
  pub ping : Bool
  pub now : ℕ
  pub outcome : String → Outcome
  pub finished : ℕ
  pub stop_after : Bool

-- `last_run` holds `none` for -inf; `calls` are the actions called and `releases` the calls of
-- `_release`, which the source does not keep.
pub record Scheduler : Type 0 where
  pub actions : List ActionSpec
  pub liveness : LivenessState
  pub last_run : String → Option ℕ
  pub calls : List String
  pub releases : ℕ

abbrev pub due_since : Option ℕ → ℕ → ℕ → Bool
due_since none interval now = true
due_since (some t) interval now = leb (t + interval) now

-- now - self._last_run[spec.name] >= spec.interval
abbrev pub due : (String → Option ℕ) → ℕ → ActionSpec → Bool
due last_run now spec = due_since (last_run spec.name) spec.interval now

-- self._last_run[name] = self._clock(), unless the action raised
abbrev pub note_run : Outcome → String → (String → Option ℕ) → String → Option ℕ
note_run raised name last_run other = last_run other
note_run (returned t) name last_run other = if name == other then some t else last_run other

-- One turn of the loop over the actions.
abbrev pub fire : Pass → ActionSpec → Scheduler → Scheduler
fire p spec s =
    if due s.last_run p.now spec
    then record {
      actions = s.actions;
      liveness = s.liveness;
      last_run = note_run (p.outcome spec.name) spec.name s.last_run;
      calls = s.calls ++ spec.name ∷ [];
      releases = s.releases;
    }
    else s

unfoldable pub fire_all : Pass → List ActionSpec → Scheduler → Scheduler
fire_all p [] s = s
fire_all p (spec ∷ specs) s = fire_all p specs (fire p spec s)

abbrev pub with_liveness : LivenessState → Scheduler → Scheduler
with_liveness l s = record {
  actions = s.actions;
  liveness = l;
  last_run = s.last_run;
  calls = s.calls;
  releases = s.releases;
}

-- The part of `tick` after the ping.
unfoldable pub finish_tick : Pass → Scheduler → Scheduler
finish_tick p s =
    let fired = fire_all p s.actions s in
    with_liveness (record_tick p.finished fired.liveness) fired

unfoldable pub tick : Pass → Scheduler → Bool × Scheduler
tick p s = if p.ping then (true, finish_tick p s) else (false, s)

-- Where a run is after the given passes.
pub data Run : Type 0 where
  running : Scheduler → Run
  exited : ℕ → Scheduler → Run

-- The `finally` block: the release's own failure is logged only.
unfoldable pub leave : ℕ → Scheduler → Run
leave code s = exited code (record {
  actions = s.actions;
  liveness = set_lock_held false s.liveness;
  last_run = s.last_run;
  calls = s.calls;
  releases = suc s.releases;
})

-- The `while` loop, sleeping between passes.
unfoldable pub loop : List Pass → Scheduler → Run
loop [] s = running s
loop (p ∷ ps) s =
    let rest = loop ps (tick p s).1 in
    if p.stop_before
    then leave 0 s
    else if (tick p s).0
    then (if p.stop_after then leave 0 (tick p s).1 else rest)
    else leave 1 (tick p s).1

unfoldable pub run : Bool → List Pass → Scheduler → Run
run false ps s = exited 1 s
run true ps s = loop ps (with_liveness (set_lock_held true s.liveness) s)
