-- ===== src/Scheduler/Runs.antt =====
-- Whole runs of the scheduler: how they end, and what the liveness probe tells meanwhile.
use project_risk_system.Base.{
  ℕ, suc, ◌≡◌, refl, sym, ap, ◌∙◌, Bool, true, false, not, ◌||◌, Option, some, List, [], ◌∷◌, inl,
  inr, Bool-cases, if◌then◌else◌,
}
use project_risk_system.Scheduler.Loop.{
  record_tick, due, with_liveness, set_lock_held, healthy, ticked_within, ActionSpec, Pass,
  Scheduler, fire, fire_all, finish_tick, tick, Run, running, exited, leave, loop, run,
}
use project_risk_system.Scheduler.Passes.{tick-held, tick-lost}

-- A pass that ends the run: the stop event is set, or the lock's connection is lost.
abbrev pub ends_run : Pass → Bool
ends_run p = p.stop_before || not p.ping || p.stop_after

abbrev pub some_ends : List Pass → Bool
some_ends [] = false
some_ends (p ∷ ps) = ends_run p || some_ends ps

-- 1 if the pass that ends the run lost the lock's connection, 0 if it was stopped.
abbrev pub exit_code : List Pass → ℕ
exit_code [] = 0
exit_code (p ∷ ps) =
    if p.stop_before then 0 else if p.ping then (if p.stop_after then 0 else exit_code ps) else 1

-- When the last pass finished.
abbrev pub last_finished : Option ℕ → List Pass → Option ℕ
last_finished before [] = before
last_finished before (p ∷ ps) = last_finished (some p.finished) ps

-- What an exit leaves behind.
abbrev pub IsLeft : Scheduler → ℕ → Run → Type 0
IsLeft s code (running t) = ⊥
IsLeft s code (exited c t) =
    (c ≡ code)
    × (t.liveness.lock_held ≡ false)
    × (t.releases ≡ suc s.releases)
    × ((now : ℕ) → healthy t.liveness now ≡ false)

-- A run that goes on holds the lock, and its probe goes by the last pass.
abbrev pub IsOn : Scheduler → List Pass → Run → Type 0
IsOn s ps (exited c t) = ⊥
IsOn s ps (running t) =
    (t.releases ≡ s.releases)
    × ((now : ℕ)
        → healthy t.liveness now
          ≡ ticked_within s.liveness.window (last_finished s.liveness.last_tick ps) now)

fire-keeps :
    (p : Pass) (a : ActionSpec) (s : Scheduler)
    → ((fire p a s).releases ≡ s.releases) × ((fire p a s).liveness ≡ s.liveness)
fire-keeps p a s = elim (Bool-cases (due s.last_run p.now a)) [
  | inl e ↦ rw e (refl, refl)
  | inr e ↦ rw e (refl, refl)
]

fire_all-keeps :
    (p : Pass) (specs : List ActionSpec) (s : Scheduler)
    → ((fire_all p specs s).releases ≡ s.releases) × ((fire_all p specs s).liveness ≡ s.liveness)
unfolding fire_all
fire_all-keeps p [] s = (refl, refl)
fire_all-keeps p (a ∷ specs) s =
    let rest = fire_all-keeps p specs (fire p a s) in
    let first = fire-keeps p a s in (rest.0 ∙ first.0, rest.1 ∙ first.1)

finish_tick-keeps :
    (p : Pass) (s : Scheduler)
    → ((finish_tick p s).releases ≡ s.releases)
      × ((finish_tick p s).liveness ≡ record_tick p.finished s.liveness)
unfolding finish_tick
finish_tick-keeps p s =
    let keeps = fire_all-keeps p s.actions s in (keeps.0, ap (record_tick p.finished) keeps.1)

leave-IsLeft : (s t : Scheduler) (code : ℕ) → t.releases ≡ s.releases → IsLeft s code (leave code t)
unfolding leave
leave-IsLeft s t code h = (refl, refl, ap suc h, λ now. refl)

tick-releases : (p : Pass) (s : Scheduler) → (tick p s).1.releases ≡ s.releases
tick-releases p s = elim (Bool-cases p.ping) [
  | inl e ↦ ap (λ r. r.1.releases) (tick-held p s e) ∙ (finish_tick-keeps p s).0
  | inr e ↦ ap (λ r. r.1.releases) (tick-lost p s e)
]

IsLeft-from :
    (s t : Scheduler) (code : ℕ) (r : Run)
    → t.releases ≡ s.releases
    → IsLeft t code r
    → IsLeft s code r
IsLeft-from s t code (running u) e h = h
IsLeft-from s t code (exited c u) e h = (h.0, h.1, h.2 ∙ ap suc e, h.3)

IsOn-from :
    (s t : Scheduler) (p : Pass) (ps : List Pass) (r : Run)
    → t.releases ≡ s.releases
    → t.liveness ≡ record_tick p.finished s.liveness
    → IsOn t ps r
    → IsOn s (p ∷ ps) r
IsOn-from s t p ps (exited c u) e k h = h
IsOn-from s t p ps (running u) e k h = (
  h.0 ∙ e,
  λ now. h.1 now ∙ ap (λ l. ticked_within l.window (last_finished l.last_tick ps) now) k,
)

-- One pass of the loop, by its three tests.
loop_step :
    (stopped ping got stop ends : Bool) (s t : Scheduler) (code : ℕ) (rest : Run)
    (On : Run → Type 0)
    → got ≡ ping
    → t.releases ≡ s.releases
    → (ends ≡ true → IsLeft s code rest)
    → (ping ≡ true → ends ≡ false → On rest)
    → let r =
        if stopped
        then leave 0 s
        else if got
        then (if stop then leave 0 t else rest)
        else leave 1 t in
      ((stopped || not ping || stop || ends) ≡ true
        → IsLeft s (if stopped then 0 else if ping then (if stop then 0 else code) else 1) r)
      × ((stopped || not ping || stop || ends) ≡ false → On r)
loop_step true ping got stop ends s t code rest On g e left on =
    (λ _. leave-IsLeft s s 0 refl, λ h. absurd (cc h))
loop_step false false false stop ends s t code rest On g e left on =
    (λ _. leave-IsLeft s t 1 e, λ h. absurd (cc h))
loop_step false true true true ends s t code rest On g e left on =
    (λ _. leave-IsLeft s t 0 e, λ h. absurd (cc h))
loop_step false true true false ends s t code rest On g e left on = (left, on refl)
loop_step false true false stop ends s t code rest On g e left on = absurd (cc g)
loop_step false false true stop ends s t code rest On g e left on = absurd (cc g)

tick-ping : (p : Pass) (s : Scheduler) → (tick p s).0 ≡ p.ping
tick-ping p s = elim (Bool-cases p.ping) [
  | inl e ↦ ap (λ r. r.0) (tick-held p s e) ∙ sym e
  | inr e ↦ ap (λ r. r.0) (tick-lost p s e) ∙ sym e
]

tick-lock : (p : Pass) (s : Scheduler) → (tick p s).1.liveness.lock_held ≡ s.liveness.lock_held
tick-lock p s = elim (Bool-cases p.ping) [
  | inl e ↦
      ap (λ r. r.1.liveness.lock_held) (tick-held p s e)
      ∙ ap (λ l. l.lock_held) (finish_tick-keeps p s).1
  | inr e ↦ ap (λ r. r.1.liveness.lock_held) (tick-lost p s e)
]

IsOn-locked :
    (s : Scheduler) (ps : List Pass) (r : Run)
    → IsOn (with_liveness (set_lock_held true s.liveness) s) ps r
    → IsOn s ps r
IsOn-locked s ps (running t) h = h
IsOn-locked s ps (exited c t) h = h

loop_lem :
    (ps : List Pass) (s : Scheduler)
    → s.liveness.lock_held ≡ true
    → (some_ends ps ≡ true → IsLeft s (exit_code ps) (loop ps s))
      × (some_ends ps ≡ false → IsOn s ps (loop ps s))
unfolding loop
loop_lem [] s held = (λ h. absurd (cc h), λ _. (refl, λ now. rw held))
loop_lem (p ∷ ps) s held =
    let t = (tick p s).1 in
    let same = tick-releases p s in
    let ih = loop_lem ps t (tick-lock p s ∙ held) in
    loop_step p.stop_before p.ping (tick p s).0 p.stop_after (some_ends ps) s t (exit_code ps)
      (loop ps t) (IsOn s (p ∷ ps)) (tick-ping p s) same
      (λ h. IsLeft-from s t (exit_code ps) (loop ps t) same (ih.0 h))
      (λ held_on h.
        IsOn-from s t p ps (loop ps t) same
          (ap (λ r. r.1.liveness) (tick-held p s held_on) ∙ (finish_tick-keeps p s).1) (ih.1 h))

-- A run that got the lock ends with the first pass that is stopped or loses the lock's connection, with
-- 0 or 1 as its exit code; it then gives the lock up, once, and is unhealthy from there on. Before
-- that it runs, keeps the lock, and is healthy while the last pass finished within the window.
pub run-ends :
    (ps : List Pass) (s : Scheduler)
    → (some_ends ps ≡ true → IsLeft s (exit_code ps) (run true ps s))
      × (some_ends ps ≡ false → IsOn s ps (run true ps s))
      × (run false ps s ≡ exited 1 s)
unfolding run
run-ends ps s =
    let locked = with_liveness (set_lock_held true s.liveness) s in
    let held = loop_lem ps locked refl in
    (
      λ h. IsLeft-from s locked (exit_code ps) (loop ps locked) refl (held.0 h),
      λ h. IsOn-locked s ps (loop ps locked) (held.1 h),
      refl,
    )
