-- ===== src/Port/Valid.antt =====
-- The whole invariant of a port of src/core/port_runtime.c, and that every operation keeps it.
use moxa_4vrs_gateway.Prelude.{ℕ, ◌≡◌, refl, ap, ◌∙◌, if_cases}
use moxa_4vrs_gateway.Port.State.{
  PortState, disabled, starting, ready, active, waiting, recovering, degraded, reconfiguring,
  stopping, error, PortConfig, Backend, Port,
}
use moxa_4vrs_gateway.Port.Machine.{init}
use moxa_4vrs_gateway.Port.Step.{step, step_in, step_ready}
use moxa_4vrs_gateway.Port.Invariant.{
  IsSound, init-IsSound, ready_loop-IsSound, step_active-IsSound, step_reconfiguring-IsSound,
  step_recovering-IsSound, step_starting-IsSound, step_stopping-IsSound, step_waiting-IsSound,
}
use moxa_4vrs_gateway.Port.Transitions.{is_busy, step-Moved}

pub record IsValid {B : Type 0} (p : Port B) : Type 0 where
  pub sound : IsSound p
  pub busy : p.has_active ≡ is_busy p.state

module _ {B : Type 0} where
  step_in-IsSound :
      (s : PortState) (ops : Backend B) (p : Port B) (now : ℕ)
      → p.state ≡ s
      → IsValid p
      → IsSound (step_in s ops p now)
  unfolding step_in step_ready
  step_in-IsSound disabled ops p now s v = v.sound
  step_in-IsSound degraded ops p now s v = v.sound
  step_in-IsSound error ops p now s v = v.sound
  step_in-IsSound starting ops p now s v = step_starting-IsSound ops p now v.sound
  step_in-IsSound active ops p now s v = step_active-IsSound ops p now v.sound
  step_in-IsSound waiting ops p now s v = step_waiting-IsSound ops p now v.sound
  step_in-IsSound recovering ops p now s v = step_recovering-IsSound ops p now v.sound
  step_in-IsSound reconfiguring ops p now s v = step_reconfiguring-IsSound ops p now v.sound
  step_in-IsSound stopping ops p now s v = step_stopping-IsSound ops p now v.sound
  step_in-IsSound ready ops p now s v =
      ready_loop-IsSound p.queue.count p now (v.busy ∙ ap is_busy s) v.sound

  step-IsSound : (ops : Backend B) (p : Port B) (now : ℕ) → IsValid p → IsSound (step ops p now)
  unfolding step
  step-IsSound ops p now v =
      if_cases IsSound ops.complete (step_in p.state ops p now) p
        (λ _. step_in-IsSound p.state ops p now refl v) (λ _. v.sound)

  -- One turn of the event loop keeps the invariant, whatever the backend does.
  pub step-IsValid : (ops : Backend B) (p : Port B) (now : ℕ) → IsValid p → IsValid (step ops p now)
  step-IsValid ops p now v = record {
    sound = step-IsSound ops p now v;
    busy = (step-Moved ops p now v.sound v.busy).busy;
  }

  -- A port starts out valid.
  pub init-IsValid :
      (index : ℕ) (config : PortConfig) (context : B) → IsValid (init index config context)
  unfolding init
  init-IsValid index config context = record {
    sound = init-IsSound index config context;
    busy = refl;
  }
