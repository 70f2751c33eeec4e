-- ===== src/Gateway/Controller/Step.antt =====
-- `gateway_controller_step` of src/gateway/gateway_controller.c: one turn of a port, and of the controller.
use moxa_4vrs_gateway.Prelude.{
  ℕ, zero, suc, ◌+◌, ◌%◌, Bool, true, false, none, some, List, ◌==◌, if◌then◌else◌, increment,
  is_zero,
}
use moxa_4vrs_gateway.Config.{port_count}
use moxa_4vrs_gateway.Port.State.{PortState, disabled, degraded, error}
use moxa_4vrs_gateway.Port.Step.{step}
use moxa_4vrs_gateway.Port.Control.{request_stop, request_reconfigure, is_ready}
use moxa_4vrs_gateway.Gateway.Config.{GatewayError, error_none, core_config, is_error}
use moxa_4vrs_gateway.Gateway.Controller.{
  Lifecycle, port_disabled, port_starting, port_ready, port_reconfiguring, port_rolling_back,
  port_stopping, port_degraded, port_error, port_network_wait, PortController, Controller, entry,
  reconfigure_timeout, stop_timeout, transport_start, transport_start_at, update_at, with_transport,
}

abbrev pub is_off : PortState → Bool
is_off disabled = true
is_off _ = false

abbrev pub is_failed : PortState → Bool
is_failed error = true
is_failed _ = false

-- `PORT_DEGRADED` or `PORT_ERROR`
abbrev pub is_down : PortState → Bool
is_down degraded = true
is_down error = true
is_down _ = false

module _ {B T : Type 0} where
  -- The port takes over the staged configuration.
  abbrev pub adopt : PortController B T → PortController B T
  adopt p = record p {
    current = p.staged;
    known_good = p.staged;
    config_generation = increment p.config_generation;
  }

  -- The same without a change of `config_generation`, and with the revision told to the runtime.
  abbrev pub adopt_bind : PortController B T → PortController B T
  adopt_bind p =
      let q = p.runtime in
      let current = q.current_config in
      let known_good = q.known_good_config in
      record (adopt p) {
        runtime = record q {
          current_config = record current { revision = p.staged.revision };
          known_good_config = record known_good { revision = p.staged.revision };
        };
      }

  abbrev count_listener_failure : PortController B T → PortController B T
  count_listener_failure p = record p {
    listener_failures = increment p.listener_failures;
    last_error = GatewayError.listener_start;
  }

  abbrev count_reconfigure_failure : PortController B T → PortController B T
  count_reconfigure_failure p = record p { reconfigure_failures = increment p.reconfigure_failures }

  abbrev fail_rollback : PortController B T → PortController B T
  fail_rollback p = record p {
    lifecycle = port_error;
    rollback_failures = increment p.rollback_failures;
  }

  unfoldable pub start_listener_or_fail : PortController B T → ℕ → PortController B T
  start_listener_or_fail p now =
      let (result, q) = transport_start p in
      let failed = count_listener_failure q in
      let (asked, r) = request_stop failed.backend_ops failed.runtime now stop_timeout in
      if p.network_wait
      then record p { lifecycle = port_network_wait }
      else if is_zero result
      then record q { lifecycle = port_ready; last_error = error_none }
      else if is_zero asked
      then record failed { runtime = r; lifecycle = port_stopping }
      else record failed { runtime = r; lifecycle = port_error }

  -- The branch of `GATEWAY_PORT_STARTING`; those of the other states follow.
  unfoldable pub turn_starting : PortController B T → ℕ → PortController B T
  turn_starting p now =
      if is_ready p.runtime.state
      then start_listener_or_fail p now
      else if is_down p.runtime.state
      then record p {
        lifecycle = port_error;
        last_error = GatewayError.backend_start;
        startup_failures = increment p.startup_failures;
      }
      else p

  unfoldable pub turn_ready : PortController B T → PortController B T
  turn_ready p = if is_down p.runtime.state then record p { lifecycle = port_degraded } else p

  -- The listener of a new address could not be started: back to the one before.
  unfoldable pub rebind_failed : PortController B T → PortController B T
  rebind_failed p =
      let (result, q) = transport_start (count_reconfigure_failure (count_listener_failure p)) in
      if is_zero result then record q { lifecycle = port_ready } else fail_rollback q

  -- The branch of a port that only moves its listener to another address.
  unfoldable pub turn_rebinding : PortController B T → PortController B T
  turn_rebinding p =
      let clear = record p { listener_rebind = false } in
      let (result, q) = transport_start_at clear p.staged in
      if is_ready p.runtime.state
      then (if p.network_wait
          then record clear { lifecycle = port_network_wait }
          else if is_zero result
          then record (adopt_bind q) { lifecycle = port_ready; last_error = error_none }
          else rebind_failed q)
      else if is_down p.runtime.state
      then count_reconfigure_failure
          (record clear { lifecycle = port_error; last_error = GatewayError.reconfigure })
      else p

  -- The runtime took the staged configuration, and the listener does not start with it: roll back.
  unfoldable pub ask_rollback : PortController B T → ℕ → PortController B T
  ask_rollback p now =
      let failed = count_listener_failure p in
      let (asked, r) =
        request_reconfigure p.backend_ops p.runtime (core_config p.known_good) now
          reconfigure_timeout in
      if is_zero asked
      then record failed { runtime = r; lifecycle = port_rolling_back }
      else record failed { runtime = r; lifecycle = port_error }

  unfoldable pub finish_reconfigure : PortController B T → ℕ → PortController B T
  finish_reconfigure p now =
      let (result, q) = transport_start_at p p.staged in
      if p.network_wait
      then record (adopt p) { lifecycle = port_network_wait; last_error = error_none }
      else if is_zero result
      then record (adopt q) { lifecycle = port_ready; last_error = error_none }
      else ask_rollback q now

  unfoldable pub turn_reconfiguring : PortController B T → ℕ → PortController B T
  turn_reconfiguring p now =
      if p.listener_rebind
      then turn_rebinding p
      else if is_ready p.runtime.state
      then (if p.runtime.current_config.revision == p.staged.revision
          then finish_reconfigure p now
          else start_listener_or_fail
              (count_reconfigure_failure (record p { last_error = GatewayError.reconfigure })) now)
      else if is_failed p.runtime.state
      then fail_rollback (record p { last_error = GatewayError.rollback })
      else p

  unfoldable pub turn_rolling_back : PortController B T → PortController B T
  turn_rolling_back p =
      let (result, q) = transport_start p in
      if is_ready p.runtime.state
      then (if p.network_wait
          then count_reconfigure_failure (record p { lifecycle = port_network_wait })
          else if is_zero result
          then count_reconfigure_failure (record q { lifecycle = port_ready })
          else fail_rollback q)
      else if is_failed p.runtime.state
      then fail_rollback p
      else p

  unfoldable pub turn_stopping : PortController B T → PortController B T
  turn_stopping p =
      if is_off p.runtime.state
      then (if p.pending_disable
          then record (adopt p) { lifecycle = port_disabled; pending_disable = false }
          else record p {
            lifecycle = if is_error p.last_error then port_error else port_disabled;
            pending_disable = false;
          })
      else if is_failed p.runtime.state
      then record p {
        lifecycle = port_error;
        last_error = GatewayError.stop;
        stop_failures = increment p.stop_failures;
      }
      else p

  unfoldable pub turn : Lifecycle → PortController B T → ℕ → PortController B T
  turn port_starting p now = turn_starting p now
  turn port_ready p now = turn_ready p
  turn port_reconfiguring p now = turn_reconfiguring p now
  turn port_rolling_back p now = turn_rolling_back p
  turn port_stopping p now = turn_stopping p
  turn _ p now = p

  -- The call of the transport's entry in `step_port`.
  unfoldable pub call_step : PortController B T → ℕ → PortController B T
  call_step p now = elim (entry p.transport_ops (λ ops. ops.step)) [
    | none ↦ p
    | some f ↦ let (t, q) = f p.transport_context p.runtime now in with_transport p t q
  ]

  unfoldable pub transport_step : PortController B T → ℕ → PortController B T
  transport_step p now = if p.listener_owned then call_step p now else p

  unfoldable pub runtime_step : PortController B T → ℕ → PortController B T
  runtime_step p now = record p { runtime = step p.backend_ops p.runtime now }

  unfoldable pub step_port : PortController B T → ℕ → PortController B T
  step_port p now =
      let q =
        runtime_step
          (transport_step (record p { scheduler_steps = increment p.scheduler_steps }) now) now in
      turn q.lifecycle q now

  -- The ports of the indices `(next + n) % GATEWAY_PORT_COUNT` in turn, for so many values of `n` from this on.
  unfoldable pub step_from : ℕ → ℕ → ℕ → List (PortController B T) → ℕ → List (PortController B T)
  step_from zero n next ports now = ports
  step_from (suc left) n next ports now =
      step_from left (n + 1) next (update_at ports ((next + n) % port_count) (λ p. step_port p now))
        now

  unfoldable pub gateway_controller_step : Controller B T → ℕ → Controller B T
  gateway_controller_step c now = record c {
    ports = step_from port_count 0 c.next_port c.ports now;
    scheduler_steps = increment c.scheduler_steps;
    next_port = (c.next_port + 1) % port_count;
  }
