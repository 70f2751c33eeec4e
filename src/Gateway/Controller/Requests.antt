-- ===== src/Gateway/Controller/Requests.antt =====
-- The requests of src/gateway/gateway_controller.c: a new configuration, waiting for the network, and shutdown.
use moxa_4vrs_gateway.Prelude.{
  ℕ, Bool, true, false, not, ◌&&◌, ◌||◌, none, some, List, map, ltb, leb, ◌==◌, if◌then◌else◌,
  increment, get_or, set, ℤ, pos, negsuc, is_zero,
}
use moxa_4vrs_gateway.Config.{port_count}
use moxa_4vrs_gateway.Port.Machine.{init, start}
use moxa_4vrs_gateway.Port.Control.{request_stop, request_reconfigure, detach_listener, stopped}
use moxa_4vrs_gateway.Gateway.Config.{
  GatewayError, error_none, GatewayPortConfig, core_config, gateway_configuration_errors, is_error,
  truth,
}
use moxa_4vrs_gateway.Gateway.Controller.{
  Lifecycle, port_disabled, port_starting, port_ready, port_reconfiguring, port_stopping,
  port_error, port_network_wait, PortController, Controller, is_disabled, reconfigure_timeout,
  start_timeout, stop_timeout, transport_start, transport_stop, update_at, get_elem?,
}

-- The states in which a new configuration is taken.
abbrev pub at_rest : Lifecycle → Bool
at_rest port_ready = true
at_rest port_disabled = true
at_rest port_network_wait = true
at_rest _ = false

abbrev pub is_serving : Lifecycle → Bool
is_serving port_ready = true
is_serving _ = false

abbrev pub same_int : ℤ → ℤ → Bool
same_int (pos m) (pos n) = m == n
same_int (negsuc m) (negsuc n) = m == n
same_int _ _ = false

-- The comparison of `same` with the current configuration, after its address, its revision and its
-- address policy were made those of the current one.
unfoldable pub same_but_address : GatewayPortConfig → GatewayPortConfig → Bool
same_but_address a b =
    same_int a.enabled b.enabled
    && a.uart_index == b.uart_index
    && a.mode == b.mode
    && a.baud == b.baud
    && a.data_bits == b.data_bits
    && a.parity == b.parity
    && a.stop_bits == b.stop_bits
    && a.transport == b.transport
    && a.endpoint_port == b.endpoint_port
    && same_int a.special_baud_enabled b.special_baud_enabled
    && a.special_baud == b.special_baud

module _ {B T : Type 0} where
  unfoldable pub validate_replacement : List (PortController B T) → ℕ → GatewayPortConfig → Bool
  validate_replacement ports index config =
      let all = set (map (λ p. p.current) ports) index config in
      not (is_error (get_or (gateway_configuration_errors all) index error_none))

  abbrev pub note_stop_failure : PortController B T → PortController B T
  note_stop_failure p = record p {
    last_error = GatewayError.stop;
    stop_failures = increment p.stop_failures;
  }

  -- The branch of a configuration that turns the port off, but for a port that is off.
  unfoldable pub turn_off : PortController B T → GatewayPortConfig → ℕ → ℤ × PortController B T
  turn_off p config now =
      let (result, q) = transport_stop p in
      let staged = record q { staged = config; pending_disable = true; last_error = error_none } in
      let (asked, r) = request_stop q.backend_ops q.runtime now stop_timeout in
      if not (is_zero result)
      then (negsuc 0, note_stop_failure q)
      else if is_zero asked
      then (pos 0, record staged { runtime = r; lifecycle = port_stopping })
      else (negsuc 0, record staged { runtime = r })

  -- The branch of a port that is off.
  unfoldable pub turn_on : PortController B T → ℕ → GatewayPortConfig → ℕ → ℤ × PortController B T
  turn_on p index config now =
      let fresh = init index (core_config config) p.runtime.backend_context in
      let (result, q) = start p.backend_ops fresh now start_timeout in
      let taken = record p {
        current = config;
        known_good = config;
        config_generation = increment p.config_generation;
        runtime = q;
      } in
      if is_zero result
      then (pos 0, record taken { lifecycle = port_starting })
      else (negsuc 0, taken)

  -- The branch of a configuration that differs in the address alone.
  unfoldable pub rebind : PortController B T → GatewayPortConfig → ℕ → ℤ × PortController B T
  rebind p config now =
      let (result, q) = transport_stop p in
      let (detached, r) = detach_listener q.backend_ops q.runtime now in
      if not (is_zero result)
      then (negsuc 0, note_stop_failure q)
      else if not (is_zero detached)
      then (negsuc 0, record q { runtime = r; lifecycle = port_error })
      else (
        pos 0,
        record q {
          runtime = r;
          staged = config;
          listener_rebind = true;
          lifecycle = port_reconfiguring;
        },
      )

  unfoldable pub replace : PortController B T → GatewayPortConfig → ℕ → ℤ × PortController B T
  replace p config now =
      let (result, q) = transport_stop p in
      let staged = record q { staged = config; last_error = error_none } in
      let (asked, r) =
        request_reconfigure q.backend_ops q.runtime (core_config config) now reconfigure_timeout in
      if not (is_zero result)
      then (negsuc 0, note_stop_failure q)
      else if is_zero asked
      then (pos 0, record staged { runtime = r; lifecycle = port_reconfiguring })
      else (negsuc 0, (transport_start (record staged { runtime = r })).1)

  -- What `gateway_controller_reconfigure` does to the port once the configuration is found valid.
  unfoldable pub reconfigure_port :
      PortController B T → ℕ → GatewayPortConfig → ℕ → ℤ × PortController B T
  reconfigure_port p index config now =
      let off = is_disabled p.lifecycle in
      if not (at_rest p.lifecycle)
      then (negsuc 0, p)
      else if not (truth config.enabled)
      then (if off
          then (
            pos 0,
            record p { current = config; config_generation = increment p.config_generation },
          )
          else turn_off p config now)
      else if off
      then turn_on p index config now
      else if same_but_address config p.current
      then rebind p config now
      else replace p config now

  -- A function on the port of an index, which is in range.
  unfoldable pub on_port :
      Controller B T → ℕ → (PortController B T → ℤ × PortController B T) → ℤ × Controller B T
  on_port c index f = elim (get_elem? c.ports index) [
    | none ↦ (negsuc 0, c)
    | some p ↦
        let (result, q) = f p in (result, record c { ports = update_at c.ports index (λ _. q) })
  ]

  unfoldable pub gateway_controller_reconfigure :
      Controller B T → ℕ → GatewayPortConfig → ℕ → ℤ × Controller B T
  gateway_controller_reconfigure c index config now =
      if leb port_count index || not (validate_replacement c.ports index config)
      then (negsuc 0, c)
      else on_port c index (λ p. reconfigure_port p index config now)

  unfoldable pub wait_port : PortController B T → Bool → ℕ → ℤ × PortController B T
  wait_port p wait now =
      let told = record p { network_wait = wait } in
      let (result, q) = transport_stop told in
      let (detached, r) = detach_listener q.backend_ops q.runtime now in
      if wait && is_serving p.lifecycle
      then (if not (is_zero result)
          then (negsuc 0, q)
          else if not (is_zero detached)
          then (negsuc 0, record q { runtime = r })
          else (pos 0, record q { runtime = r; lifecycle = port_network_wait }))
      else (pos 0, told)

  unfoldable pub gateway_controller_network_wait : Controller B T → ℕ → ℕ → ℕ → ℤ × Controller B T
  gateway_controller_network_wait c index wait now =
      if leb port_count index || ltb 1 wait
      then (negsuc 0, c)
      else on_port c index (λ p. wait_port p (not (wait == 0)) now)

  -- The second half of the body of the loop of `gateway_controller_shutdown`, and the whole.
  unfoldable pub ask_stop : PortController B T → ℕ → PortController B T
  ask_stop p now =
      let (asked, r) = request_stop p.backend_ops p.runtime now stop_timeout in
      if stopped p.runtime.state
      then p
      else if is_zero asked
      then record p { runtime = r; lifecycle = port_stopping }
      else record p { runtime = r; lifecycle = port_error; last_error = GatewayError.stop }

  unfoldable pub shut_down_port : PortController B T → ℕ → PortController B T
  shut_down_port p now =
      let (result, q) = transport_stop p in
      ask_stop
        (if is_zero result then record q { last_error = error_none } else note_stop_failure q) now

  unfoldable pub gateway_controller_shutdown : Controller B T → ℕ → Controller B T
  gateway_controller_shutdown c now = record c { ports = map (λ p. shut_down_port p now) c.ports }
