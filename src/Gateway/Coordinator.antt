-- ===== src/Gateway/Coordinator.antt =====
-- The coordinator of src/gateway/gateway_coordinator.c: startup, running and shutdown of the whole gateway.
pub mod Step
pub mod Events
pub mod Startup
pub mod Endings
use moxa_4vrs_gateway.Prelude.{
  ℕ, ◌+◌, ◌*◌, ◌/◌, ◌%◌, Bool, true, false, not, ◌&&◌, Option, List, [], ltb, leb, ◌==◌,
  if◌then◌else◌, add32, set, replicate, ℤ, pos,
}
use moxa_4vrs_gateway.Config.{port_count}
use moxa_4vrs_gateway.Gateway.Config.{GatewayPortConfig}
use moxa_4vrs_gateway.Gateway.Persistent.{
  ConfigResult, config_invalid, config_unsupported_version, config_io_error, ConfigSource,
  from_safe_mode, PersistentConfig,
}
use moxa_4vrs_gateway.Gateway.Controller.{
  Lifecycle, port_disabled, port_ready, port_degraded, port_error, port_network_wait, Controller,
  Binding, gateway_controller_init, gateway_controller_start,
}
use moxa_4vrs_gateway.Gateway.Controller.Step.{gateway_controller_step}
use moxa_4vrs_gateway.Gateway.Controller.Requests.{gateway_controller_shutdown}
use moxa_4vrs_gateway.Gateway.Controller.Health.{GatewayHealth, gateway_controller_health}

pub data ApplicationState : Type 0 where
  bootstrap loading_configuration selecting_configuration validating_configuration :
      ApplicationState
  initializing_controller starting_ports checking_health app_ready app_degraded : ApplicationState
  safe_mode shutting_down app_stopped fatal_error : ApplicationState

pub data ApplicationError : Type 0 where
  no_app_error app_config_invalid app_config_unsupported storage_io binding_init : ApplicationError
  controller_init port_start shutdown_incomplete : ApplicationError

pub data EventResult : Type 0 where
  event_begin event_ok event_recovered event_skipped event_failed event_complete : EventResult

pub record StartupEvent : Type 0 where
  pub sequence : ℕ
  pub stage : ApplicationState
  pub result : EventResult
  pub progress_numerator : ℕ
  pub progress_denominator : ℕ
  pub progress_percent : ℕ
  pub port_index : ℕ
  pub error : ApplicationError

-- `GATEWAY_STARTUP_PROGRESS_TOTAL`, `GATEWAY_STARTUP_EVENT_CAPACITY` and `GATEWAY_NO_PORT`
abbrev pub progress_total : ℕ
progress_total = 14

abbrev pub event_capacity : ℕ
event_capacity = 16

abbrev pub no_port : ℕ
no_port = 0xffff_ffff

-- `gateway_controller_driver_t`
pub record Driver (B T : Type 0) : Type 0 where
  pub init : List GatewayPortConfig → (ℕ → Binding B T) → ℕ × Controller B T
  pub start : Controller B T → ℕ → Controller B T
  pub step : Controller B T → ℕ → Controller B T
  pub shutdown : Controller B T → ℕ → Controller B T
  pub health : Controller B T → GatewayHealth

-- The functions that the coordinator is given, with a state `S` for `select_context` and
-- `binding_context`. `attach` can be null.
pub record Surroundings (B T S : Type 0) : Type 0 where
  pub select : S → ConfigResult × PersistentConfig × ConfigSource × S
  pub provide : S → List GatewayPortConfig → ℤ × (ℕ → Binding B T) × S
  pub attach : Option (S → Controller B T → ℤ × Controller B T × S)
  pub driver : Driver B T

-- `startup_ports_complete` is the set of its bits, by index. `surroundings` is the state of the two
-- contexts; the bindings go to the controller as soon as they are provided.
pub record Coordinator (B T S : Type 0) : Type 0 where
  pub controller : Controller B T
  pub selected : PersistentConfig
  pub surroundings : S
  pub state : ApplicationState
  pub error : ApplicationError
  pub config_source : ConfigSource
  pub persistence_result : ConfigResult
  pub events : List StartupEvent
  pub event_head : ℕ
  pub event_count : ℕ
  pub event_sequence : ℕ
  pub progress_numerator : ℕ
  pub startup_ports_complete : List Bool
  pub controller_initialized : Bool
  pub controller_start_called : Bool
  pub controller_shutdown_called : Bool
  pub cleanup_complete : Bool
  pub started_at : ℕ
  pub shutdown_deadline : ℕ

unfoldable pub default_driver : {B T : Type 0} → Driver B T
default_driver = record {
  init = gateway_controller_init;
  start = gateway_controller_start;
  step = gateway_controller_step;
  shutdown = gateway_controller_shutdown;
  health = gateway_controller_health;
}

unfoldable pub percent : ℕ → ℕ
percent n = if leb progress_total n then 100 else n * 100 / progress_total

unfoldable pub terminal_port : Lifecycle → Bool
terminal_port port_ready = true
terminal_port port_network_wait = true
terminal_port port_disabled = true
terminal_port port_degraded = true
terminal_port port_error = true
terminal_port _ = false

unfoldable pub config_error : ConfigResult → ApplicationError
config_error config_io_error = storage_io
config_error config_unsupported_version = app_config_unsupported
config_error _ = app_config_invalid

-- A cleared event, and a cleared configuration.
abbrev pub zero_event : StartupEvent
zero_event = record {
  sequence = 0;
  stage = bootstrap;
  result = event_begin;
  progress_numerator = 0;
  progress_denominator = 0;
  progress_percent = 0;
  port_index = 0;
  error = no_app_error;
}

abbrev zero_persistent : PersistentConfig
zero_persistent = record {
  schema_version = 0;
  settings = record {
    web_protocol = 0;
    web_enabled = 0;
    web_interface = 0;
    backlight_on = 0;
    ntp_enabled = pos 0;
    ntp_interval_hours = 0;
    ntp_server = [];
  };
  ports = [];
}

abbrev pub is_halting : ApplicationState → Bool
is_halting app_stopped = true
is_halting shutting_down = true
is_halting _ = false

module _ {B T S : Type 0} where
  -- The sequence number of the event that `emit` writes.
  abbrev pub next_sequence : Coordinator B T S → ℕ
  next_sequence c =
      if c.event_sequence == 0xffff_ffff then c.event_sequence else c.event_sequence + 1

  abbrev pub event :
      Coordinator B T S → ApplicationState → EventResult → ℕ → ApplicationError → StartupEvent
  event c stage result port error = record {
    sequence = next_sequence c;
    stage = stage;
    result = result;
    progress_numerator = c.progress_numerator;
    progress_denominator = progress_total;
    progress_percent = percent c.progress_numerator;
    port_index = port;
    error = error;
  }

  -- An event goes behind the others, or, where there is no room, in place of the oldest.
  unfoldable pub emit :
      Coordinator B T S → ApplicationState → EventResult → ℕ → ApplicationError → Coordinator B T S
  emit c stage result port error =
      let e = event c stage result port error in
      let told = record c { event_sequence = next_sequence c } in
      if ltb c.event_count event_capacity
      then record told {
        events = set c.events ((c.event_head + c.event_count) % event_capacity) e;
        event_count = c.event_count + 1;
      }
      else record told {
        events = set c.events c.event_head e;
        event_head = (c.event_head + 1) % event_capacity;
      }

  unfoldable pub advance : Coordinator B T S → ApplicationState → EventResult → Coordinator B T S
  advance c next result =
      let n = c.progress_numerator in
      let moved = record c {
        progress_numerator = if ltb n progress_total then n + 1 else n;
        state = next;
      } in
      emit moved next result no_port moved.error

  unfoldable pub gateway_coordinator_init : S → ℕ → Coordinator B T S
  gateway_coordinator_init surroundings now =
      let c : Coordinator B T S = record {
        controller = record { ports = []; scheduler_steps = 0; next_port = 0 };
        selected = zero_persistent;
        surroundings = surroundings;
        state = bootstrap;
        error = no_app_error;
        config_source = from_safe_mode;
        persistence_result = config_invalid;
        events = replicate event_capacity zero_event;
        event_head = 0;
        event_count = 0;
        event_sequence = 0;
        progress_numerator = 0;
        startup_ports_complete = replicate port_count false;
        controller_initialized = false;
        controller_start_called = false;
        controller_shutdown_called = false;
        cleanup_complete = false;
        started_at = now;
        shutdown_deadline = 0;
      } in
      emit c bootstrap event_begin no_port no_app_error

  -- `c->state = next` and an event of it.
  abbrev pub enter : Coordinator B T S → ApplicationState → EventResult → Coordinator B T S
  enter c next result = emit (record c { state = next }) next result no_port c.error

  abbrev pub shut_controller : Surroundings B T S → Coordinator B T S → ℕ → Coordinator B T S
  shut_controller env c now =
      if c.controller_initialized && not c.controller_shutdown_called
      then record c {
        controller = env.driver.shutdown c.controller now;
        controller_shutdown_called = true;
      }
      else c

  -- `GATEWAY_COORDINATOR_SHUTDOWN_TIMEOUT` is 2000.
  unfoldable pub begin_shutdown : Surroundings B T S → Coordinator B T S → ℕ → Coordinator B T S
  begin_shutdown env c now =
      let entered =
        enter (record c { shutdown_deadline = add32 now 2000 }) shutting_down event_begin in
      let told = shut_controller env entered now in
      if is_halting c.state
      then c
      else if not told.controller_initialized
      then enter (record told { cleanup_complete = true }) app_stopped event_complete
      else told
