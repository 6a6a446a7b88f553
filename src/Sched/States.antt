-- ===== src/Sched/States.antt =====
-- The states of a thread: where valid transitions lead.
use mathlib.Core.Path.{subst}
use reaper_operating_system.Base.{◌≡◌, refl, sym, ap, ◌∙◌, ◌⊎◌, inl, inr, true}
use reaper_operating_system.Sched.{ThreadState, ready, running, zombie, scheduler_transition_valid}

-- a thread's states, one valid transition after another
pub data Reaches : ThreadState → ThreadState → Type 0 where
  here : {s : ThreadState} → Reaches s s
  step : {s t u : ThreadState} → scheduler_transition_valid s t ≡ true → Reaches t u → Reaches s u

after_zombie : (t : ThreadState) → scheduler_transition_valid zombie t ≡ true → t ≡ zombie
unfolding scheduler_transition_valid
after_zombie ThreadState.ready h = cc
after_zombie ThreadState.running h = cc
after_zombie ThreadState.blocked h = cc
after_zombie ThreadState.blocked_auth h = cc
after_zombie ThreadState.suspended_mode h = cc
after_zombie ThreadState.zombie h = refl

-- A thread that has exited never leaves the state of a zombie by valid transitions.
pub Reaches-zombie : (s t : ThreadState) → s ≡ zombie → Reaches s t → t ≡ zombie
Reaches-zombie s _ e here = e
Reaches-zombie s u e (step {t = t} v r) =
    Reaches-zombie t u (after_zombie t (ap (λ x. scheduler_transition_valid x t) (sym e) ∙ v)) r

-- Only a ready thread is put on a processor.
transition_to_running :
    (s : ThreadState) → scheduler_transition_valid s running ≡ true → (s ≡ ready) ⊎ (s ≡ running)
unfolding scheduler_transition_valid
transition_to_running ThreadState.ready h = inl refl
transition_to_running ThreadState.running h = inr refl
transition_to_running ThreadState.blocked h = cc
transition_to_running ThreadState.blocked_auth h = cc
transition_to_running ThreadState.suspended_mode h = cc
transition_to_running ThreadState.zombie h = cc

-- A thread that valid transitions bring onto a processor is on one already or becomes ready first,
-- however it was blocked.
pub Reaches-running :
    (s t : ThreadState) → t ≡ running → Reaches s t → (s ≡ running) ⊎ Reaches s ready
Reaches-running s _ e here = inl e
Reaches-running s u e (step {t = t} v r) = elim (Reaches-running t u e r) [
  | inl on ↦
      elim (transition_to_running s (ap (λ x. scheduler_transition_valid s x) (sym on) ∙ v)) [
        | inl was ↦ inr (subst (λ x. Reaches x ready) (sym was) here)
        | inr was ↦ inl was
      ]
  | inr later ↦ inr (step v later)
]
