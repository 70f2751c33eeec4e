-- ===== src/Gateway/Coordinator/Step.antt =====
-- `gateway_coordinator_step` of src/gateway/gateway_coordinator.c, one state at a time, and the health of the gateway.
use moxa_4vrs_gateway.Prelude.{
  ℕ, ◌+◌, ◌%◌, Bool, true, false, not, ◌&&◌, ◌||◌, Option, none, some, List, [], ◌∷◌, ltb, leb,
  ◌==◌, if◌then◌else◌, sub32, get_or, set, is_zero,
}
use moxa_4vrs_gateway.Config.{port_count}
use moxa_4vrs_gateway.Gateway.Config.{gateway_configuration_validate, upto}
use moxa_4vrs_gateway.Gateway.Persistent.{
  ConfigResult, config_ok, config_absent, ConfigSource, from_backup, from_safe_mode,
  gateway_persistent_safe_mode,
}
use moxa_4vrs_gateway.Gateway.Controller.{
  Lifecycle, port_disabled, port_ready, port_degraded, port_error, port_stopping, Controller,
  get_elem?, PortController,
}
use moxa_4vrs_gateway.Gateway.Coordinator.{
  ApplicationState, bootstrap, loading_configuration, selecting_configuration,
  validating_configuration, initializing_controller, starting_ports, checking_health, app_ready,
  app_degraded, safe_mode, shutting_down, app_stopped, fatal_error, ApplicationError, no_app_error,
  app_config_invalid, binding_init, controller_init, port_start, shutdown_incomplete, EventResult,
  event_begin, event_ok, event_recovered, event_skipped, event_failed, event_complete, StartupEvent,
  Surroundings, Coordinator, zero_event, advance, begin_shutdown, config_error, emit, enter,
  event_capacity, progress_total, terminal_port,
}

abbrev pub is_usable : ConfigResult → Bool
is_usable config_ok = true
is_usable config_absent = true
is_usable _ = false

abbrev pub is_backup : ConfigSource → Bool
is_backup from_backup = true
is_backup _ = false

abbrev pub is_safe_mode : ConfigSource → Bool
is_safe_mode from_safe_mode = true
is_safe_mode _ = false

abbrev pub is_stopping_port : Lifecycle → Bool
is_stopping_port port_stopping = true
is_stopping_port _ = false

-- `bits == 0xffU`
abbrev pub all_true : List Bool → Bool
all_true [] = true
all_true (b ∷ bs) = b && all_true bs

-- What the event of a port that came to rest says.
abbrev pub port_result : Lifecycle → EventResult
port_result port_ready = event_ok
port_result port_disabled = event_skipped
port_result _ = event_failed

abbrev pub port_failure : Lifecycle → ApplicationError
port_failure port_error = port_start
port_failure port_degraded = port_start
port_failure _ = no_app_error

module _ {B T : Type 0} where
  -- The lifecycle of a port; a cleared controller has ports that are off.
  abbrev pub lifecycle_at : Controller B T → ℕ → Lifecycle
  lifecycle_at c i = elim (get_elem? c.ports i) [ none ↦ port_disabled | some p ↦ p.lifecycle ]

  abbrev pub unfinished_port : PortController B T → Bool
  unfinished_port p = is_stopping_port p.lifecycle || p.listener_owned

  abbrev pub any_unfinished : List (PortController B T) → Bool
  any_unfinished [] = false
  any_unfinished (p ∷ ps) = unfinished_port p || any_unfinished ps

module _ {B T S : Type 0} where
  -- The coordinator with what was selected, or with the safe mode where that is not valid.
  abbrev pub checked : Coordinator B T S → Coordinator B T S
  checked c =
      let valid = gateway_configuration_validate c.selected.ports == 0 in
      record c {
        error = if valid then c.error else app_config_invalid;
        config_source = if valid then c.config_source else from_safe_mode;
        selected = if valid then c.selected else gateway_persistent_safe_mode;
      }

  unfoldable pub validate_configuration : Coordinator B T S → Coordinator B T S
  validate_configuration c =
      advance (checked c) initializing_controller
        (if is_safe_mode (checked c).config_source then event_recovered else event_ok)

  unfoldable pub fail_startup : Coordinator B T S → ApplicationError → Coordinator B T S
  fail_startup c e =
      enter (record c { error = e; progress_numerator = progress_total }) fatal_error event_failed

  -- The body of the loop of `startup_ports`, for the port of an index.
  abbrev pub noted_port : Coordinator B T S → ℕ → Coordinator B T S
  noted_port c i =
      let n = c.progress_numerator in
      record c {
        startup_ports_complete = set c.startup_ports_complete i true;
        progress_numerator = if ltb n 13 then n + 1 else n;
      }

  unfoldable pub note_port : Coordinator B T S → ℕ → Coordinator B T S
  note_port c i =
      let s = lifecycle_at c.controller i in
      if not (get_or c.startup_ports_complete i false) && terminal_port s
      then emit (noted_port c i) starting_ports (port_result s) i (port_failure s)
      else c

  unfoldable pub note_ports : Coordinator B T S → List ℕ → Coordinator B T S
  note_ports c [] = c
  note_ports c (i ∷ is) = note_ports (note_port c i) is

  -- `(long)(now - deadline) >= 0` where `long` has 32 bits, as on the target.
  abbrev pub shutdown_expired : Coordinator B T S → ℕ → Bool
  shutdown_expired c now = ltb (sub32 now c.shutdown_deadline) 0x8000_0000

module _ {B T S : Type 0} (env : Surroundings B T S) where
  -- The coordinator with what is selected, or with the safe mode where that fails.
  abbrev pub loaded : Coordinator B T S → Coordinator B T S
  loaded c =
      let (result, selected, source, s) = env.select c.surroundings in
      let usable = is_usable result in
      record c {
        surroundings = s;
        persistence_result = result;
        selected = if usable then selected else gateway_persistent_safe_mode;
        config_source = if usable then source else from_safe_mode;
        error = if usable then c.error else config_error result;
      }

  unfoldable pub load_configuration : Coordinator B T S → Coordinator B T S
  load_configuration c =
      advance (loaded c) selecting_configuration
        (if is_backup (loaded c).config_source then event_recovered else event_ok)

  -- The end of the initialization, once the bindings are attached.
  unfoldable pub start_controller : Coordinator B T S → ℕ → Coordinator B T S
  start_controller c now =
      advance
        (record c {
          controller = env.driver.start c.controller now;
          controller_start_called = true;
        })
        starting_ports event_ok

  unfoldable pub attach_bindings : Coordinator B T S → ℕ → Coordinator B T S
  attach_bindings c now = elim env.attach [
    | none ↦ start_controller c now
    | some f ↦
        let (result, controller, s) = f c.surroundings c.controller in
        let attached = record c { controller = controller; surroundings = s } in
        if is_zero result then start_controller attached now else fail_startup attached binding_init
  ]

  unfoldable pub initialize_controller : Coordinator B T S → ℕ → Coordinator B T S
  initialize_controller c now =
      let (provided, bindings, s) = env.provide c.surroundings c.selected.ports in
      let bound = record c { surroundings = s } in
      let (failures, controller) = env.driver.init c.selected.ports bindings in
      let made = record bound { controller = controller } in
      if not (is_zero provided)
      then fail_startup bound binding_init
      else if not (failures == 0)
      then fail_startup made controller_init
      else attach_bindings (record made { controller_initialized = true }) now

  unfoldable pub startup_ports : Coordinator B T S → ℕ → Coordinator B T S
  startup_ports c now =
      let noted =
        note_ports (record c { controller = env.driver.step c.controller now })
          (upto 0 port_count) in
      if all_true noted.startup_ports_complete
      then enter noted checking_health event_begin
      else noted

  unfoldable pub check_health : Coordinator B T S → Coordinator B T S
  check_health c =
      let h = env.driver.health c.controller in
      let done = record c { progress_numerator = progress_total } in
      if is_safe_mode c.config_source
      then enter done safe_mode event_complete
      else if h.enabled_ports == h.ready_ports
      then enter done app_ready event_complete
      else enter (record done { error = port_start }) app_degraded event_complete

  unfoldable pub run_controller : Coordinator B T S → ℕ → Coordinator B T S
  run_controller c now = record c { controller = env.driver.step c.controller now }

  unfoldable pub finish_shutdown : Coordinator B T S → ℕ → Coordinator B T S
  finish_shutdown c now =
      let stepped = if c.controller_initialized then run_controller c now else c in
      if not (any_unfinished stepped.controller.ports)
      then enter (record stepped { cleanup_complete = true }) app_stopped event_complete
      else if shutdown_expired stepped now
      then enter (record stepped { error = shutdown_incomplete }) app_stopped event_failed
      else stepped

  unfoldable pub step_state : ApplicationState → Coordinator B T S → ℕ → Coordinator B T S
  step_state bootstrap c now = advance c loading_configuration event_ok
  step_state loading_configuration c now = load_configuration c
  step_state selecting_configuration c now = advance c validating_configuration event_ok
  step_state validating_configuration c now = validate_configuration c
  step_state initializing_controller c now = initialize_controller c now
  step_state starting_ports c now = startup_ports c now
  step_state checking_health c now = check_health c
  step_state app_ready c now = run_controller c now
  step_state app_degraded c now = run_controller c now
  step_state safe_mode c now = run_controller c now
  step_state shutting_down c now = finish_shutdown c now
  step_state app_stopped c now = c
  step_state fatal_error c now = c

  -- `stop` is whether there is a run control and a stop is requested.
  unfoldable pub gateway_coordinator_step : Coordinator B T S → Bool → ℕ → Coordinator B T S
  gateway_coordinator_step c stop now =
      let asked = if stop then begin_shutdown env c now else c in step_state asked.state asked now

-- An event by its index from the oldest.
unfoldable pub gateway_coordinator_event :
    {B T S : Type 0} → Coordinator B T S → ℕ → Option StartupEvent
gateway_coordinator_event c index =
    if leb c.event_count index
    then none
    else some (get_or c.events ((c.event_head + index) % event_capacity) zero_event)
