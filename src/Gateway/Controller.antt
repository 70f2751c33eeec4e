-- ===== src/Gateway/Controller.antt =====
-- The controller of the ports of src/gateway/gateway_controller.c: its state, its transports, and how it starts.
pub mod Step
pub mod Requests
pub mod Health
pub mod Agreement
pub mod Turns
pub mod Rebinding
pub mod Requesting
pub mod Replacing
pub mod Life
pub mod Outcomes
pub mod Shutdown
pub mod Scheduling
pub mod Transport
pub mod Listening
use moxa_4vrs_gateway.Prelude.{
  ℕ, zero, suc, Bool, true, false, not, ◌||◌, Option, none, some, List, [], ◌∷◌, map, if◌then◌else◌,
  increment, get_or, ℤ, pos, negsuc, is_zero,
}
use moxa_4vrs_gateway.Port.State.{Backend, Port}
use moxa_4vrs_gateway.Port.Machine.{init, start}
use moxa_4vrs_gateway.Config.{port_count}
use moxa_4vrs_gateway.Gateway.Config.{
  GatewayError, error_none, GatewayPortConfig, config_at, core_config, gateway_configuration_errors,
  gateway_configuration_validate, is_error, truth, upto,
}

pub data Lifecycle : Type 0 where
  port_disabled port_starting port_ready port_reconfiguring port_rolling_back : Lifecycle
  port_stopping port_degraded port_error port_network_wait : Lifecycle

-- `GATEWAY_START_TIMEOUT`, `GATEWAY_RECONFIGURE_TIMEOUT` and `GATEWAY_STOP_TIMEOUT`
abbrev pub start_timeout : ℕ
start_timeout = 1000

abbrev pub reconfigure_timeout : ℕ
reconfigure_timeout = 1000

abbrev pub stop_timeout : ℕ
stop_timeout = 1000

pub record TransportDiagnostics : Type 0 where
  pub clients : ℕ
  pub malformed_mbap : ℕ
  pub tx_overflow : ℕ
  pub write_deadline_expired : ℕ
  pub gateway_target_no_response : ℕ
  pub gateway_path_unavailable : ℕ
  pub crc_failures : ℕ
  pub framing_failures : ℕ
  pub unit_mismatches : ℕ
  pub function_mismatches : ℕ
  pub leading_garbage : ℕ
  pub raw_network_received : ℕ
  pub raw_network_sent : ℕ
  pub raw_serial_read : ℕ
  pub raw_serial_written : ℕ
  pub raw_rejected_peers : ℕ
  pub raw_discarded_serial : ℕ

-- `gateway_transport_ops_t` over the states of `transport_context`. A listener holds a pointer to the
-- runtime of its port, so what moves it takes the runtime and returns it. An entry can be null.
pub record TransportOps (B T : Type 0) : Type 0 where
  pub start : Option (T → Port B → GatewayPortConfig → ℤ × T × Port B)
  pub step : Option (T → Port B → ℕ → T × Port B)
  pub stop : Option (T → Port B → ℤ × T × Port B)
  pub client_count : Option (T → ℕ)
  pub crc_errors : Option (T → ℕ)
  pub framing_errors : Option (T → ℕ)
  pub diagnostics : Option (T → TransportDiagnostics → TransportDiagnostics)

-- `gateway_port_binding_t`; the table of a transport can be null.
pub record Binding (B T : Type 0) : Type 0 where
  pub backend_ops : Backend B
  pub backend_context : B
  pub transport_ops : Option (TransportOps B T)
  pub transport_context : T

-- `gateway_port_controller_t`. The state behind `binding.backend_context` is that in the runtime.
pub record PortController (B T : Type 0) : Type 0 where
  pub current : GatewayPortConfig
  pub staged : GatewayPortConfig
  pub known_good : GatewayPortConfig
  pub runtime : Port B
  pub backend_ops : Backend B
  pub transport_ops : Option (TransportOps B T)
  pub transport_context : T
  pub lifecycle : Lifecycle
  pub last_error : GatewayError
  pub config_generation : ℕ
  pub listener_owned : Bool
  pub pending_disable : Bool
  pub listener_rebind : Bool
  pub network_wait : Bool
  pub startup_failures : ℕ
  pub listener_failures : ℕ
  pub reconfigure_failures : ℕ
  pub rollback_failures : ℕ
  pub stop_failures : ℕ
  pub scheduler_steps : ℕ

pub record Controller (B T : Type 0) : Type 0 where
  pub ports : List (PortController B T)
  pub scheduler_steps : ℕ
  pub next_port : ℕ

-- An entry of a table that can be null.
abbrev pub entry : {A C : Type 0} → Option A → (A → Option C) → Option C
entry none f = none
entry (some a) f = f a

abbrev pub get_elem? : {A : Type 0} → List A → ℕ → Option A
get_elem? [] i = none
get_elem? (x ∷ xs) zero = some x
get_elem? (x ∷ xs) (suc i) = get_elem? xs i

-- A change of the entry of an index.
unfoldable pub update_at : {A : Type 0} → List A → ℕ → (A → A) → List A
update_at [] i f = []
update_at (x ∷ xs) zero f = f x ∷ xs
update_at (x ∷ xs) (suc i) f = x ∷ update_at xs i f

-- A cleared `gateway_port_config_t`.
abbrev zero_port_config : GatewayPortConfig
zero_port_config = record {
  enabled = pos 0;
  uart_index = 0;
  mode = 0;
  baud = 0;
  data_bits = 0;
  parity = 0;
  stop_bits = 0;
  transport = 0;
  bind_address = [];
  bind_policy = 0;
  endpoint_port = 0;
  special_baud_enabled = pos 0;
  special_baud = 0;
  revision = 0;
}

abbrev pub is_disabled : Lifecycle → Bool
is_disabled port_disabled = true
is_disabled _ = false

module _ {B T : Type 0} where
  -- The body of the loop of `gateway_controller_init`.
  unfoldable pub init_port : ℕ → GatewayPortConfig → GatewayError → Binding B T → PortController B T
  init_port i config e binding = record {
    current = config;
    staged = zero_port_config;
    known_good = config;
    runtime = init i (core_config config) binding.backend_context;
    backend_ops = binding.backend_ops;
    transport_ops = binding.transport_ops;
    transport_context = binding.transport_context;
    lifecycle = if is_error e then port_error else port_disabled;
    last_error = e;
    config_generation = config.revision;
    listener_owned = false;
    pending_disable = false;
    listener_rebind = false;
    network_wait = false;
    startup_failures = 0;
    listener_failures = 0;
    reconfigure_failures = 0;
    rollback_failures = 0;
    stop_failures = 0;
    scheduler_steps = 0;
  }

  -- The controller, and the number of failures that is returned.
  unfoldable pub gateway_controller_init :
      List GatewayPortConfig → (ℕ → Binding B T) → ℕ × Controller B T
  gateway_controller_init ports bindings =
      let errors = gateway_configuration_errors ports in
      (
        gateway_configuration_validate ports,
        record {
          ports =
              map (λ i. init_port i (config_at ports i) (get_or errors i error_none) (bindings i))
                (upto 0 port_count);
          scheduler_steps = 0;
          next_port = 0;
        },
      )

  abbrev pub with_transport : PortController B T → T → Port B → PortController B T
  with_transport p t q = record p { transport_context = t; runtime = q }

  unfoldable pub transport_start_at :
      PortController B T → GatewayPortConfig → ℤ × PortController B T
  transport_start_at p config = elim (entry p.transport_ops (λ ops. ops.start)) [
    | none ↦ (negsuc 0, p)
    | some f ↦
        let (result, t, q) = f p.transport_context p.runtime config in
        if is_zero result
        then (pos 0, record (with_transport p t q) { listener_owned = true })
        else (negsuc 0, with_transport p t q)
  ]

  unfoldable pub transport_start : PortController B T → ℤ × PortController B T
  transport_start p = transport_start_at p p.current

  abbrev release : ℤ → PortController B T → ℤ × PortController B T
  release result p =
      if is_zero result then (result, record p { listener_owned = false }) else (result, p)

  -- The call of the transport's entry in `transport_stop`.
  unfoldable pub call_stop : PortController B T → ℤ × PortController B T
  call_stop p = elim (entry p.transport_ops (λ ops. ops.stop)) [
    | none ↦ release (pos 0) p
    | some f ↦
        let (result, t, q) = f p.transport_context p.runtime in
        release result (with_transport p t q)
  ]

  unfoldable pub transport_stop : PortController B T → ℤ × PortController B T
  transport_stop p = if p.listener_owned then call_stop p else release (pos 0) p

  -- The body of the loop of `gateway_controller_start`.
  unfoldable pub start_port : PortController B T → ℕ → PortController B T
  start_port p now =
      let (result, q) = start p.backend_ops p.runtime now start_timeout in
      if not (is_disabled p.lifecycle) || not (truth p.current.enabled)
      then p
      else if is_zero result
      then record p { runtime = q; lifecycle = port_starting }
      else record p {
        runtime = q;
        lifecycle = port_error;
        last_error = GatewayError.backend_start;
        startup_failures = increment p.startup_failures;
      }

  unfoldable pub gateway_controller_start : Controller B T → ℕ → Controller B T
  gateway_controller_start c now = record c { ports = map (λ p. start_port p now) c.ports }
