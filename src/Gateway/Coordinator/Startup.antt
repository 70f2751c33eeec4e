-- ===== src/Gateway/Coordinator/Startup.antt =====
-- That every step of src/gateway/gateway_coordinator.c keeps the ring of events and the progress in bounds.
use moxa_4vrs_gateway.Prelude.{
  ℕ, ◌≤◌, ◌≡◌, refl, inl, inr, Bool, true, false, not, ◌&&◌, List, [], ◌∷◌, arith, ◌==◌,
  if◌then◌else◌, if_cases, Option-cases, add32, get_or, is_zero,
}
use moxa_4vrs_gateway.Gateway.Coordinator.{
  ApplicationState, shutting_down, EventResult, Surroundings, Coordinator, advance, enter,
  begin_shutdown, is_halting, shut_controller, event_begin, binding_init, starting_ports,
  app_stopped, fatal_error, emit, event_complete, event_failed, terminal_port, bootstrap,
  loading_configuration, selecting_configuration, validating_configuration, initializing_controller,
  checking_health, app_ready, app_degraded, safe_mode, gateway_coordinator_init, controller_init,
  port_start, shutdown_incomplete, no_app_error, no_port, percent,
}
use moxa_4vrs_gateway.Gateway.Coordinator.Step.{
  note_port, note_ports, fail_startup, start_controller, attach_bindings, initialize_controller,
  noted_port, lifecycle_at, port_failure, port_result, load_configuration, validate_configuration,
  startup_ports, check_health, run_controller, finish_shutdown, step_state,
  gateway_coordinator_step, all_true, any_unfinished, checked, is_safe_mode, loaded,
  shutdown_expired,
}
use moxa_4vrs_gateway.Gateway.Config.{upto}
use moxa_4vrs_gateway.Gateway.Coordinator.Events.{IsValid, emit-IsValid}
use moxa_4vrs_gateway.Config.{port_count}

module _ {B T S : Type 0} where
  -- The fields of the invariant are all that it depends on.
  abbrev SameRing : Coordinator B T S → Coordinator B T S → Type 0
  SameRing c d =
      (d.events ≡ c.events)
      × (d.event_head ≡ c.event_head)
      × (d.event_count ≡ c.event_count)
      × (d.progress_numerator ≤ 14)

  same-IsValid : (c d : Coordinator B T S) → IsValid c → SameRing c d → IsValid d
  same-IsValid c d v (e, h, n, p) = ground (arith, v.size, v.head, v.count, e, h, n, p)

  enter-IsValid :
      (c d : Coordinator B T S) (s : ApplicationState) (r : EventResult)
      → IsValid c
      → SameRing c d
      → IsValid (enter d s r)
  enter-IsValid c d s r v same =
      emit-IsValid _ s r _ _ (same-IsValid c (record d { state = s }) v same)

  advance-IsValid :
      (c d : Coordinator B T S) (s : ApplicationState) (r : EventResult)
      → IsValid c
      → SameRing c d
      → IsValid (advance d s r)
  unfolding advance
  advance-IsValid c d s r v (e, h, n, p) =
      emit-IsValid _ s r _ _ (same-IsValid c _ v (e, h, n, ground (arith, p)))

  note_port-IsValid : (c : Coordinator B T S) (i : ℕ) → IsValid c → IsValid (note_port c i)
  unfolding note_port
  note_port-IsValid c i v =
      let s = lifecycle_at c.controller i in
      if_cases IsValid (not (get_or c.startup_ports_complete i false) && terminal_port s)
        (emit (noted_port c i) starting_ports (port_result s) i (port_failure s)) c
        (λ _.
          emit-IsValid (noted_port c i) starting_ports (port_result s) i (port_failure s)
            (same-IsValid c (noted_port c i) v (refl, refl, refl, ground (arith, v.progress))))
        (λ _. v)

  note_ports-IsValid : (c : Coordinator B T S) (is : List ℕ) → IsValid c → IsValid (note_ports c is)
  unfolding note_ports
  note_ports-IsValid c [] v = v
  note_ports-IsValid c (i ∷ is) v = note_ports-IsValid (note_port c i) is (note_port-IsValid c i v)

module _ {B T S : Type 0} (env : Surroundings B T S) where
  begin_shutdown-IsValid :
      (c : Coordinator B T S) (now : ℕ) → IsValid c → IsValid (begin_shutdown env c now)
  unfolding begin_shutdown
  begin_shutdown-IsValid c now v =
      let entered =
        enter (record c { shutdown_deadline = add32 now 2000 }) shutting_down event_begin in
      let w : IsValid entered =
        enter-IsValid c (record c { shutdown_deadline = add32 now 2000 }) shutting_down event_begin
          v (refl, refl, refl, v.progress) in
      let told = shut_controller env entered now in
      let u : IsValid told =
        if_cases IsValid (entered.controller_initialized && not entered.controller_shutdown_called)
          _ entered
          (λ _.
            same-IsValid entered
              (record entered {
                controller = env.driver.shutdown entered.controller now;
                controller_shutdown_called = true;
              })
              w (refl, refl, refl, w.progress))
          (λ _. w) in
      if_cases IsValid (is_halting c.state) c _ (λ _. v)
        (λ _.
          if_cases IsValid (not told.controller_initialized) _ told
            (λ _.
              enter-IsValid told (record told { cleanup_complete = true }) app_stopped
                event_complete u (refl, refl, refl, u.progress))
            (λ _. u))

  attach-IsValid :
      (c d : Coordinator B T S) (now : ℕ)
      → IsValid c
      → SameRing c d
      → IsValid (attach_bindings env d now)
  unfolding attach_bindings start_controller fail_startup
  attach-IsValid c d now v same = elim (Option-cases env.attach) [
    | inl e ↦ rw (e, attach_bindings) (advance-IsValid c _ _ _ v same)
    | inr (f, e) ↦
        let (result, controller, s) = f d.surroundings d.controller in
        let attached = record d { controller = controller; surroundings = s } in
        rw (e, attach_bindings)
          (if_cases IsValid (is_zero result) (start_controller env attached now)
            (fail_startup attached binding_init)
            (λ _.
              advance-IsValid c
                (record attached {
                  controller = env.driver.start controller now;
                  controller_start_called = true;
                })
                _ _ v same)
            (λ _.
              enter-IsValid c (record attached { error = binding_init; progress_numerator = 14 }) _
                _ v (same.0, same.1, same.2, omega arith)))
  ]

  initialize_controller-IsValid :
      (c : Coordinator B T S) (now : ℕ) → IsValid c → IsValid (initialize_controller env c now)
  unfolding initialize_controller fail_startup
  initialize_controller-IsValid c now v =
      let (provided, bindings, s) = env.provide c.surroundings c.selected.ports in
      let (failures, controller) = env.driver.init c.selected.ports bindings in
      if_cases IsValid (not (is_zero provided)) _ _
        (λ _.
          enter-IsValid c
            (record c { surroundings = s; error = binding_init; progress_numerator = 14 })
            fatal_error event_failed v (refl, refl, refl, omega arith))
        (λ _.
          if_cases IsValid (not (failures == 0)) _ _
            (λ _.
              enter-IsValid c
                (record c {
                  surroundings = s;
                  controller = controller;
                  error = controller_init;
                  progress_numerator = 14;
                })
                fatal_error event_failed v (refl, refl, refl, omega arith))
            (λ _.
              attach-IsValid c
                (record c {
                  surroundings = s;
                  controller = controller;
                  controller_initialized = true;
                })
                now v (refl, refl, refl, v.progress)))

  startup_ports-IsValid :
      (c : Coordinator B T S) (now : ℕ) → IsValid c → IsValid (startup_ports env c now)
  unfolding startup_ports
  startup_ports-IsValid c now v =
      let stepped = record c { controller = env.driver.step c.controller now } in
      let noted = note_ports stepped (upto 0 port_count) in
      let w =
        note_ports-IsValid stepped (upto 0 port_count)
          (same-IsValid c stepped v (refl, refl, refl, v.progress)) in
      if_cases IsValid (all_true noted.startup_ports_complete)
        (enter noted checking_health event_begin) noted
        (λ _.
          enter-IsValid noted noted checking_health event_begin w (refl, refl, refl, w.progress))
        (λ _. w)

  check_health-IsValid : (c : Coordinator B T S) → IsValid c → IsValid (check_health env c)
  unfolding check_health
  check_health-IsValid c v =
      let h = env.driver.health c.controller in
      let done = record c { progress_numerator = 14 } in
      let bound : 14 ≤ 14 = omega arith in
      if_cases IsValid (is_safe_mode c.config_source) (enter done safe_mode event_complete)
        (if h.enabled_ports == h.ready_ports
          then enter done app_ready event_complete
          else enter (record done { error = port_start }) app_degraded event_complete)
        (λ _. enter-IsValid c done safe_mode event_complete v (refl, refl, refl, bound))
        (λ _.
          if_cases IsValid (h.enabled_ports == h.ready_ports) (enter done app_ready event_complete)
            (enter (record done { error = port_start }) app_degraded event_complete)
            (λ _. enter-IsValid c done app_ready event_complete v (refl, refl, refl, bound))
            (λ _.
              enter-IsValid c (record done { error = port_start }) app_degraded event_complete v
                (refl, refl, refl, bound)))

  finish_shutdown-IsValid :
      (c : Coordinator B T S) (now : ℕ) → IsValid c → IsValid (finish_shutdown env c now)
  unfolding finish_shutdown run_controller
  finish_shutdown-IsValid c now v =
      let stepped = if c.controller_initialized then run_controller env c now else c in
      let w : IsValid stepped =
        if_cases IsValid c.controller_initialized (run_controller env c now) c
          (λ _. same-IsValid c (run_controller env c now) v (refl, refl, refl, v.progress))
          (λ _. v) in
      if_cases IsValid (not (any_unfinished stepped.controller.ports))
        (enter (record stepped { cleanup_complete = true }) app_stopped event_complete)
        (if shutdown_expired stepped now
          then enter (record stepped { error = shutdown_incomplete }) app_stopped event_failed
          else stepped)
        (λ _.
          enter-IsValid stepped (record stepped { cleanup_complete = true }) app_stopped
            event_complete w (refl, refl, refl, w.progress))
        (λ _.
          if_cases IsValid (shutdown_expired stepped now)
            (enter (record stepped { error = shutdown_incomplete }) app_stopped event_failed)
            stepped
            (λ _.
              enter-IsValid stepped (record stepped { error = shutdown_incomplete }) app_stopped
                event_failed w (refl, refl, refl, w.progress))
            (λ _. w))

  step_state-IsValid :
      (s : ApplicationState) (c : Coordinator B T S) (now : ℕ)
      → IsValid c
      → IsValid (step_state env s c now)
  unfolding step_state load_configuration validate_configuration run_controller
  step_state-IsValid bootstrap c now v = advance-IsValid c c _ _ v (refl, refl, refl, v.progress)
  step_state-IsValid loading_configuration c now v =
      advance-IsValid c (loaded env c) _ _ v (refl, refl, refl, v.progress)
  step_state-IsValid selecting_configuration c now v =
      advance-IsValid c c _ _ v (refl, refl, refl, v.progress)
  step_state-IsValid validating_configuration c now v =
      advance-IsValid c (checked c) _ _ v (refl, refl, refl, v.progress)
  step_state-IsValid initializing_controller c now v = initialize_controller-IsValid c now v
  step_state-IsValid starting_ports c now v = startup_ports-IsValid c now v
  step_state-IsValid checking_health c now v = check_health-IsValid c v
  step_state-IsValid app_ready c now v =
      same-IsValid c (run_controller env c now) v (refl, refl, refl, v.progress)
  step_state-IsValid app_degraded c now v =
      same-IsValid c (run_controller env c now) v (refl, refl, refl, v.progress)
  step_state-IsValid safe_mode c now v =
      same-IsValid c (run_controller env c now) v (refl, refl, refl, v.progress)
  step_state-IsValid shutting_down c now v = finish_shutdown-IsValid c now v
  step_state-IsValid app_stopped c now v = v
  step_state-IsValid fatal_error c now v = v

  -- The gateway after a sequence of steps, each with whether a stop is asked for, and its time.
  unfoldable pub run : Coordinator B T S → List (Bool × ℕ) → Coordinator B T S
  run c [] = c
  run c ((stop, now) ∷ ts) = run (gateway_coordinator_step env c stop now) ts

  step-IsValid :
      (c : Coordinator B T S) (stop : Bool) (now : ℕ)
      → IsValid c
      → IsValid (gateway_coordinator_step env c stop now)
  unfolding gateway_coordinator_step
  step-IsValid c stop now v =
      let asked = if stop then begin_shutdown env c now else c in
      step_state-IsValid asked.state asked now (
        if_cases IsValid stop (begin_shutdown env c now) c (λ _. begin_shutdown-IsValid c now v)
          (λ _. v))

  run_keeps : (c : Coordinator B T S) (ts : List (Bool × ℕ)) → IsValid c → IsValid (run c ts)
  unfolding run
  run_keeps c [] v = v
  run_keeps c ((stop, now) ∷ ts) v =
      run_keeps (gateway_coordinator_step env c stop now) ts (step-IsValid c stop now v)

  init-IsValid : (s : S) (now : ℕ) → IsValid (gateway_coordinator_init {B = B} {T = T} s now)
  unfolding gateway_coordinator_init
  init-IsValid s now =
      emit-IsValid _ bootstrap event_begin no_port no_app_error
        (record { size = refl; head = omega arith; count = omega arith; progress = omega arith })

  -- Whatever the surroundings answer, and whenever a stop is asked for: after any number of steps from
  -- its initialisation the progress is at most fourteen, so its percentage at most a hundred, and the
  -- ring of events is in bounds.
  pub run-bounded :
      (s : S) (begin : ℕ) (ts : List (Bool × ℕ))
      → let c = run (gateway_coordinator_init s begin) ts in
        IsValid c × (percent c.progress_numerator ≤ 100)
  unfolding percent
  run-bounded s begin ts =
      let v = run_keeps (gateway_coordinator_init s begin) ts (init-IsValid s begin) in
      (v, ground (arith, v.progress))
