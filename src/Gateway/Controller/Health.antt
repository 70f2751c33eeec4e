-- ===== src/Gateway/Controller/Health.antt =====
-- `gateway_controller_health` of src/gateway/gateway_controller.c.
use moxa_4vrs_gateway.Prelude.{
  ℕ, ◌+◌, ◌-◌, Bool, true, false, Option, none, some, List, [], ◌∷◌, ◌++◌, ltb, if◌then◌else◌, ℤ,
}
use moxa_4vrs_gateway.Port.State.{Statistics, PortState}
use moxa_4vrs_gateway.Gateway.Config.{GatewayError, GatewayPortConfig, truth}
use moxa_4vrs_gateway.Gateway.Controller.Requests.{is_serving}
use moxa_4vrs_gateway.Gateway.Controller.{
  Lifecycle, port_degraded, port_error, PortController, Controller, TransportDiagnostics, entry,
}

pub record PortHealth : Type 0 where
  pub port_number : ℕ
  pub enabled : ℤ
  pub lifecycle : Lifecycle
  pub last_error : GatewayError
  pub config : GatewayPortConfig
  pub runtime_state : PortState
  pub transactions : Statistics
  pub connected_clients : ℕ
  pub crc_errors : ℕ
  pub framing_errors : ℕ
  pub transport : TransportDiagnostics
  pub runtime_last_error : List ℕ
  pub config_generation : ℕ

pub record GatewayHealth : Type 0 where
  pub configured_ports : ℕ
  pub enabled_ports : ℕ
  pub ready_ports : ℕ
  pub degraded_or_error_ports : ℕ
  pub active_clients : ℕ
  pub accepted_transactions : ℕ
  pub completed_transactions : ℕ
  pub port : List PortHealth

unfoldable pub add_saturating : ℕ → ℕ → ℕ
add_saturating value amount =
    if ltb (0xffff_ffff - value) amount then 0xffff_ffff else value + amount

abbrev zero_diagnostics : TransportDiagnostics
zero_diagnostics = record {
  clients = 0;
  malformed_mbap = 0;
  tx_overflow = 0;
  write_deadline_expired = 0;
  gateway_target_no_response = 0;
  gateway_path_unavailable = 0;
  crc_failures = 0;
  framing_failures = 0;
  unit_mismatches = 0;
  function_mismatches = 0;
  leading_garbage = 0;
  raw_network_received = 0;
  raw_network_sent = 0;
  raw_serial_read = 0;
  raw_serial_written = 0;
  raw_rejected_peers = 0;
  raw_discarded_serial = 0;
}

abbrev pub zero_health : GatewayHealth
zero_health = record {
  configured_ports = 0;
  enabled_ports = 0;
  ready_ports = 0;
  degraded_or_error_ports = 0;
  active_clients = 0;
  accepted_transactions = 0;
  completed_transactions = 0;
  port = [];
}

abbrev pub is_degraded_or_error : Lifecycle → Bool
is_degraded_or_error port_degraded = true
is_degraded_or_error port_error = true
is_degraded_or_error _ = false

abbrev pub count_if : Bool → ℕ → ℕ
count_if b n = if b then n + 1 else n

-- An entry asked of the transport, with this where there is none.
abbrev asked : {T C : Type 0} → Option (T → C) → T → C → C
asked none t default = default
asked (some f) t default = f t

-- The body of the loop of `gateway_controller_health`.
unfoldable pub add_port_health : GatewayHealth → PortHealth → GatewayHealth
add_port_health h q = record {
  configured_ports = h.configured_ports + 1;
  enabled_ports = count_if (truth q.enabled) h.enabled_ports;
  ready_ports = count_if (is_serving q.lifecycle) h.ready_ports;
  degraded_or_error_ports = count_if (is_degraded_or_error q.lifecycle) h.degraded_or_error_ports;
  active_clients = add_saturating h.active_clients q.connected_clients;
  accepted_transactions = add_saturating h.accepted_transactions q.transactions.accepted;
  completed_transactions = add_saturating h.completed_transactions q.transactions.completed;
  port = h.port ++ q ∷ [];
}

module _ {B T : Type 0} where
  unfoldable pub port_clients : PortController B T → ℕ
  port_clients p =
      if p.listener_owned
      then asked (entry p.transport_ops (λ ops. ops.client_count)) p.transport_context 0
      else 0

  unfoldable pub port_health : ℕ → PortController B T → PortHealth
  port_health i p = record {
    port_number = i + 1;
    enabled = p.current.enabled;
    lifecycle = p.lifecycle;
    last_error = p.last_error;
    config = p.current;
    runtime_state = p.runtime.state;
    transactions = p.runtime.stats;
    connected_clients = port_clients p;
    crc_errors = asked (entry p.transport_ops (λ ops. ops.crc_errors)) p.transport_context 0;
    framing_errors =
        asked (entry p.transport_ops (λ ops. ops.framing_errors)) p.transport_context 0;
    transport =
        asked (entry p.transport_ops (λ ops. ops.diagnostics)) p.transport_context (λ d. d)
          zero_diagnostics;
    runtime_last_error = p.runtime.last_error;
    config_generation = p.config_generation;
  }

  unfoldable pub health_from : ℕ → List (PortController B T) → GatewayHealth → GatewayHealth
  health_from i [] h = h
  health_from i (p ∷ ps) h = health_from (i + 1) ps (add_port_health h (port_health i p))

  unfoldable pub gateway_controller_health : Controller B T → GatewayHealth
  gateway_controller_health c = health_from 0 c.ports zero_health
