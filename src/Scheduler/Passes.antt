-- ===== src/Scheduler/Passes.antt =====
-- What one pass of the scheduler does to its actions.
use project_risk_system.Base.{
  ℕ, ◌≡◌, ◌≢◌, refl, sym, ap, ◌∙◌, Bool, true, false, Option, some, List, [], ◌∷◌, ◌++◌, String,
  if◌then◌else◌, All, All-imp, All-and, inl, inr, Bool-cases,
}
use mathlib.Core.Path.{subst}
use text.Mathlib.Text.{◌==◌}
use text.Mathlib.TextEquality.{eq_iff}
use mathlib.Core.List.{append_assoc, append-nil}
use project_risk_system.Scheduler.Loop.{
  ActionSpec, Outcome, raised, returned, Pass, Scheduler, due, note_run, fire, fire_all,
  finish_tick, tick,
}

abbrev pub IsOther : ActionSpec → ActionSpec → Type 0
IsOther a b = a.name ≢ b.name

-- No two actions share a name, the key of `_last_run`.
abbrev pub DistinctNames : List ActionSpec → Type 0
DistinctNames [] = Unit
DistinctNames (a ∷ specs) = All (IsOther a) specs × DistinctNames specs

-- The names of the actions that are due.
abbrev pub due_names : (String → Option ℕ) → ℕ → List ActionSpec → List String
due_names last_run now [] = []
due_names last_run now (a ∷ specs) =
    (if due last_run now a then a.name ∷ [] else []) ++ due_names last_run now specs

-- The run time of an action after it was called.
abbrev pub noted : Outcome → Option ℕ → Option ℕ
noted raised before = before
noted (returned t) before = some t

other_name : (s t : String) → s ≢ t → (s == t) ≡ false
other_name s t n = elim (Bool-cases (s == t)) [ inl e ↦ absurd (n ((eq_iff s t).0 e)) | inr e ↦ e ]

note_run_self :
    (o : Outcome) (name : String) (last_run : String → Option ℕ)
    → note_run o name last_run name ≡ noted o (last_run name)
note_run_self raised name last_run = refl
note_run_self (returned t) name last_run = rw ((eq_iff name name).1 refl)

note_run-other :
    (o : Outcome) (name other : String) (last_run : String → Option ℕ)
    → name ≢ other
    → note_run o name last_run other ≡ last_run other
note_run-other raised name other last_run n = refl
note_run-other (returned t) name other last_run n = rw (other_name name other n)

fire-other :
    (p : Pass) (a : ActionSpec) (s : Scheduler) (other : String)
    → a.name ≢ other
    → (fire p a s).last_run other ≡ s.last_run other
fire-other p a s other n = elim (Bool-cases (due s.last_run p.now a)) [
  | inl e ↦ rw (e, note_run-other (p.outcome a.name) a.name other s.last_run n)
  | inr e ↦ rw e
]

fire_all-other :
    (p : Pass) (specs : List ActionSpec) (s : Scheduler) (b : ActionSpec)
    → All (λ a. IsOther a b) specs
    → (fire_all p specs s).last_run b.name ≡ s.last_run b.name
unfolding fire_all
fire_all-other p [] s b h = refl
fire_all-other p (a ∷ specs) s b h =
    fire_all-other p specs (fire p a s) b h.1 ∙ fire-other p a s b.name h.0

due_names-fire :
    (p : Pass) (a : ActionSpec) (specs : List ActionSpec) (s : Scheduler)
    → All (IsOther a) specs
    → due_names (fire p a s).last_run p.now specs ≡ due_names s.last_run p.now specs
due_names-fire p a [] s h = refl
due_names-fire p a (b ∷ bs) s h = rw (fire-other p a s b.name h.0, due_names-fire p a bs s h.1)

fire_all-calls :
    (p : Pass) (specs : List ActionSpec) (s : Scheduler)
    → DistinctNames specs
    → (fire_all p specs s).calls ≡ s.calls ++ due_names s.last_run p.now specs
unfolding fire_all
fire_all-calls p [] s h = sym (append-nil s.calls)
fire_all-calls p (a ∷ specs) s h =
    fire_all-calls p specs (fire p a s) h.1
    ∙ ap (λ names. (fire p a s).calls ++ names) (due_names-fire p a specs s h.0)
    ∙ elim (Bool-cases (due s.last_run p.now a)) [
      | inl e ↦ rw e (append_assoc s.calls (a.name ∷ []) (due_names s.last_run p.now specs))
      | inr e ↦ rw e
    ]

-- The run time that a pass leaves to an action that was in `before`.
abbrev pub run_time : Pass → (String → Option ℕ) → ActionSpec → Option ℕ
run_time p before a =
    if due before p.now a then noted (p.outcome a.name) (before a.name) else before a.name

fire-run_time :
    (p : Pass) (a : ActionSpec) (s : Scheduler)
    → (fire p a s).last_run a.name ≡ run_time p s.last_run a
fire-run_time p a s = elim (Bool-cases (due s.last_run p.now a)) [
  | inl e ↦ rw (e, note_run_self (p.outcome a.name) a.name s.last_run)
  | inr e ↦ rw e
]

run_time-fire :
    (p : Pass) (a b : ActionSpec) (s : Scheduler)
    → IsOther a b
    → run_time p (fire p a s).last_run b ≡ run_time p s.last_run b
run_time-fire p a b s n = rw (fire-other p a s b.name n)

fire_all-run_time :
    (p : Pass) (specs : List ActionSpec) (s : Scheduler)
    → DistinctNames specs
    → All (λ a. (fire_all p specs s).last_run a.name ≡ run_time p s.last_run a) specs
unfolding fire_all
fire_all-run_time p [] s h = tt
fire_all-run_time p (a ∷ specs) s h = (
  fire_all-other p specs (fire p a s) a (All-imp _ _ specs (λ b n e. n (sym e)) h.0)
      ∙ fire-run_time p a s,
  All-imp _ _ specs (λ b k. k.1 ∙ run_time-fire p a b s k.0)
      (All-and _ _ specs h.0 (fire_all-run_time p specs (fire p a s) h.1)),
)

if_true {ℓ} : {A : Type ℓ} (b : Bool) → b ≡ true → (x y : A) → (if b then x else y) ≡ x
if_true true e x y = refl
if_true false e x y = absurd (cc e)

if_false {ℓ} : {A : Type ℓ} (b : Bool) → b ≡ false → (x y : A) → (if b then x else y) ≡ y
if_false true e x y = absurd (cc e)
if_false false e x y = refl

pub tick-lost :
    (p : Pass) (s : Scheduler) → p.ping ≡ false → ◌≡◌ {A = Bool × Scheduler} (tick p s) (false, s)
unfolding tick
tick-lost p s e = if_false p.ping e _ _

pub tick-held :
    (p : Pass) (s : Scheduler)
    → p.ping ≡ true
    → ◌≡◌ {A = Bool × Scheduler} (tick p s) (true, finish_tick p s)
unfolding tick
tick-held p s e = if_true p.ping e _ _

-- A pass that holds the lock calls each due action once and no other, in their order, whatever the
-- actions before it did; an action that raised keeps its run time, and so stays due.
pub tick-isolates :
    (p : Pass) (s : Scheduler)
    → DistinctNames s.actions
    → p.ping ≡ true
    → ((tick p s).1.calls ≡ s.calls ++ due_names s.last_run p.now s.actions)
      × All (λ a. (tick p s).1.last_run a.name ≡ run_time p s.last_run a) s.actions
unfolding finish_tick
tick-isolates p s h e =
    subst
      (λ r.
        (r.1.calls ≡ s.calls ++ due_names s.last_run p.now s.actions)
        × All (λ a. r.1.last_run a.name ≡ run_time p s.last_run a) s.actions)
      (sym (tick-held p s e)) (fire_all-calls p s.actions s h, fire_all-run_time p s.actions s h)
