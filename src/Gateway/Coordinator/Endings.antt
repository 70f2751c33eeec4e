-- ===== src/Gateway/Coordinator/Endings.antt =====
-- That startup and shutdown in src/gateway/gateway_coordinator.c come to an end.
use moxa_4vrs_gateway.Prelude.{
  ℕ, ◌<◌, ◌≡◌, refl, sym, ap, subst, ◌∙◌, ◌⊎◌, inl, inr, Bool, true, false, not, List, [], ◌∷◌,
  ◌++◌, arith, ltb, if◌then◌else◌, lt→ltb, if_cases, if_then, add32, sub32,
}
use moxa_4vrs_gateway.Gateway.Coordinator.{
  ApplicationState, shutting_down, app_stopped, ApplicationError, EventResult, Surroundings,
  Coordinator, emit, enter, begin_shutdown, is_halting, event_begin, event_complete, event_failed,
  shut_controller, shutdown_incomplete, no_port, bootstrap, loading_configuration,
  selecting_configuration, validating_configuration, initializing_controller, starting_ports,
  checking_health, app_ready, app_degraded, safe_mode, fatal_error,
}
use moxa_4vrs_gateway.Gateway.Coordinator.Step.{
  run_controller, finish_shutdown, any_unfinished, shutdown_expired, step_state,
  gateway_coordinator_step,
}
use moxa_4vrs_gateway.Gateway.Coordinator.Startup.{run}

module _ {B T S : Type 0} where
  -- What an event leaves alone.
  pub emit_frame :
      (c : Coordinator B T S) (stage : ApplicationState) (r : EventResult) (port : ℕ)
      (e : ApplicationError)
      → let d = emit c stage r port e in
        (d.state ≡ c.state)
        × (d.shutdown_deadline ≡ c.shutdown_deadline)
        × (d.controller ≡ c.controller)
        × (d.startup_ports_complete ≡ c.startup_ports_complete)
  unfolding emit
  emit_frame c stage r port e =
      if_cases
        (λ (d : Coordinator B T S).
          (d.state ≡ c.state)
          × (d.shutdown_deadline ≡ c.shutdown_deadline)
          × (d.controller ≡ c.controller)
          × (d.startup_ports_complete ≡ c.startup_ports_complete))
        (ltb c.event_count 16) _ _ (λ _. (refl, refl, refl, refl)) (λ _. (refl, refl, refl, refl))

  -- A shutdown that began at this time is under way, or the gateway has stopped.
  abbrev pub HaltingSince : ℕ → Coordinator B T S → Type 0
  HaltingSince begin c =
      (c.state ≡ app_stopped)
      ⊎ ((c.state ≡ shutting_down) × (c.shutdown_deadline ≡ add32 begin 2000))

  enter-stopped :
      (begin : ℕ) (c : Coordinator B T S) (r : EventResult)
      → (enter c app_stopped r).state ≡ app_stopped
  enter-stopped begin c r = (emit_frame (record c { state = app_stopped }) app_stopped r _ _).0

  not_halting :
      (c : Coordinator B T S) (begin : ℕ) {s : ApplicationState}
      → c.state ≡ s
      → is_halting s ≡ false
      → HaltingSince begin c
      → ⊥
  not_halting c begin e f (inl h) = cc (sym f ∙ ap is_halting (sym e ∙ h))
  not_halting c begin e f (inr (h, _)) = cc (sym f ∙ ap is_halting (sym e ∙ h))

module _ {B T S : Type 0} (env : Surroundings B T S) where
  begin_shutdown-HaltingSince :
      (c : Coordinator B T S) (now : ℕ)
      → is_halting c.state ≡ false
      → HaltingSince now (begin_shutdown env c now)
  unfolding begin_shutdown
  begin_shutdown-HaltingSince c now h =
      let base = record c { shutdown_deadline = add32 now 2000; state = shutting_down } in
      let entered = emit base shutting_down event_begin no_port c.error in
      let f = emit_frame base shutting_down event_begin no_port c.error in
      let told = shut_controller env entered now in
      let same : (told.state ≡ shutting_down) × (told.shutdown_deadline ≡ add32 now 2000) =
        ground (arith, f) in
      rw h (
        if_cases (HaltingSince now) (not told.controller_initialized)
          (enter (record told { cleanup_complete = true }) app_stopped event_complete) told
          (λ _. inl (enter-stopped now (record told { cleanup_complete = true }) event_complete))
          (λ _. inr same))

  finish_shutdown-HaltingSince :
      (c : Coordinator B T S) (begin now : ℕ)
      → c.state ≡ shutting_down
      → c.shutdown_deadline ≡ add32 begin 2000
      → HaltingSince begin (finish_shutdown env c now)
        × ((shutdown_expired c now ≡ true) → (finish_shutdown env c now).state ≡ app_stopped)
  unfolding finish_shutdown run_controller
  finish_shutdown-HaltingSince c begin now s e =
      let stepped = if c.controller_initialized then run_controller env c now else c in
      let kept : (stepped.state ≡ shutting_down)
          × (stepped.shutdown_deadline ≡ add32 begin 2000)
          × (stepped.shutdown_deadline ≡ c.shutdown_deadline) =
        ground (arith, s, e) in
      let done = record stepped { cleanup_complete = true } in
      let late = record stepped { error = shutdown_incomplete } in
      if_cases
        (λ (d : Coordinator B T S).
          HaltingSince begin d × ((shutdown_expired c now ≡ true) → d.state ≡ app_stopped))
        (not (any_unfinished stepped.controller.ports)) (enter done app_stopped event_complete)
        (if shutdown_expired stepped now then enter late app_stopped event_failed else stepped)
        (λ _. (
          inl (enter-stopped begin done event_complete),
          λ _. enter-stopped begin done event_complete,
        ))
        (λ _.
          if_cases
            (λ (d : Coordinator B T S).
              HaltingSince begin d × ((shutdown_expired c now ≡ true) → d.state ≡ app_stopped))
            (shutdown_expired stepped now) (enter late app_stopped event_failed) stepped
            (λ _. (
              inl (enter-stopped begin late event_failed),
              λ _. enter-stopped begin late event_failed,
            ))
            (λ x. (
              inr (kept.0, kept.1),
              λ y. cc (sym y ∙ ap (λ k. ltb (sub32 now k) 0x8000_0000) (sym kept.2) ∙ x),
            )))

  -- A step of a gateway that halts; at one that is late enough it stops.
  abbrev Halts : ℕ → ℕ → Coordinator B T S → Type 0
  Halts begin now d =
      HaltingSince begin d × ((sub32 now (add32 begin 2000) < 0x8000_0000) → d.state ≡ app_stopped)

  step_state-Halts :
      (s : ApplicationState) (c : Coordinator B T S) (begin now : ℕ)
      → c.state ≡ s
      → HaltingSince begin c
      → Halts begin now (step_state env s c now)
  unfolding step_state
  step_state-Halts shutting_down c begin now s (inl e) = cc (sym s ∙ e)
  step_state-Halts shutting_down c begin now s (inr (_, d)) =
      let (h, late) = finish_shutdown-HaltingSince c begin now s d in
      (h, λ lt. late (ap (λ k. ltb (sub32 now k) 0x8000_0000) d ∙ lt→ltb _ _ lt))
  step_state-Halts app_stopped c begin now s h = (inl s, λ _. s)
  step_state-Halts bootstrap c begin now s h = absurd (not_halting c begin s refl h)
  step_state-Halts loading_configuration c begin now s h = absurd (not_halting c begin s refl h)
  step_state-Halts selecting_configuration c begin now s h = absurd (not_halting c begin s refl h)
  step_state-Halts validating_configuration c begin now s h = absurd (not_halting c begin s refl h)
  step_state-Halts initializing_controller c begin now s h = absurd (not_halting c begin s refl h)
  step_state-Halts starting_ports c begin now s h = absurd (not_halting c begin s refl h)
  step_state-Halts checking_health c begin now s h = absurd (not_halting c begin s refl h)
  step_state-Halts app_ready c begin now s h = absurd (not_halting c begin s refl h)
  step_state-Halts app_degraded c begin now s h = absurd (not_halting c begin s refl h)
  step_state-Halts safe_mode c begin now s h = absurd (not_halting c begin s refl h)
  step_state-Halts fatal_error c begin now s h = absurd (not_halting c begin s refl h)

  begun-same :
      (c : Coordinator B T S) (begin now : ℕ) → HaltingSince begin c → begin_shutdown env c now ≡ c
  unfolding begin_shutdown
  begun-same c begin now (inl e) = if_then _ _ _ (ap is_halting e)
  begun-same c begin now (inr (e, _)) = if_then _ _ _ (ap is_halting e)

  step-Halts :
      (c : Coordinator B T S) (stop : Bool) (begin now : ℕ)
      → HaltingSince begin c
      → Halts begin now (gateway_coordinator_step env c stop now)
  unfolding gateway_coordinator_step
  step-Halts c stop begin now h =
      subst (λ (d : Coordinator B T S). Halts begin now (step_state env d.state d now))
        (if_cases (λ d. c ≡ d) stop (begin_shutdown env c now) c
          (λ _. sym (begun-same c begin now h)) (λ _. refl))
        (step_state-Halts c.state c begin now refl h)

  run-stops :
      (c : Coordinator B T S) (begin now : ℕ) (stop : Bool) (ts : List (Bool × ℕ))
      → HaltingSince begin c
      → sub32 now (add32 begin 2000) < 0x8000_0000
      → (run env c (ts ++ (stop, now) ∷ [])).state ≡ app_stopped
  unfolding run
  run-stops c begin now stop [] h lt = (step-Halts c stop begin now h).1 lt
  run-stops c begin now stop ((s, t) ∷ ts) h lt =
      run-stops (gateway_coordinator_step env c s t) begin now stop ts (step-Halts c s begin t h).0
        lt

  -- Once a stop is asked for, the gateway has stopped after any step that is two seconds later or more,
  -- whatever the controller's ports do and whatever steps lie between; the time may wrap around.
  pub run-ends :
      (c : Coordinator B T S) (begin now : ℕ) (stop : Bool) (ts : List (Bool × ℕ))
      → is_halting c.state ≡ false
      → sub32 now (add32 begin 2000) < 0x8000_0000
      → (run env c ((true, begin) ∷ (ts ++ (stop, now) ∷ []))).state ≡ app_stopped
  unfolding run gateway_coordinator_step
  run-ends c begin now stop ts h lt =
      let asked = begin_shutdown env c begin in
      run-stops (step_state env asked.state asked begin) begin now stop ts
        (step_state-Halts asked.state asked begin begin refl
          (begin_shutdown-HaltingSince c begin h)).0
        lt
