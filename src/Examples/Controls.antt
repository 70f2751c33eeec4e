-- ===== src/Examples/Controls.antt =====
-- The theorems on the controller and the coordinator at concrete values.
use moxa_4vrs_gateway.Prelude.{
  ℕ, ◌+◌, ◌%◌, ◌≤◌, ◌<◌, ◌≡◌, refl, subst, ◌↔◌, true, false, none, some, List, [], ◌∷◌, map, arith,
  length, set, replicate, All, pos,
}
use mathlib.Core.Option.{some-injective}
use moxa_4vrs_gateway.Examples.{device}
use moxa_4vrs_gateway.Port.State.{disabled, ready}
use moxa_4vrs_gateway.Port.Machine.{init, config_valid, set_completion}
use moxa_4vrs_gateway.Port.Valid.{init-IsValid}
use moxa_4vrs_gateway.Gateway.Config.{
  GatewayPortConfig, gateway_default_port, gateway_configuration_defaults, error_none, core_config,
  gateway_configuration_validate,
}
use moxa_4vrs_gateway.Gateway.Controller.{
  port_ready, Controller, PortController, TransportOps, Binding, init_port, gateway_controller_init,
}
use moxa_4vrs_gateway.Gateway.Controller.Step.{step_port, gateway_controller_step}
use moxa_4vrs_gateway.Gateway.Controller.Requests.{reconfigure_port, shut_down_port}
use moxa_4vrs_gateway.Gateway.Controller.Agreement.{IsValid, IsListener, Reaches, EntryListener}
use moxa_4vrs_gateway.Gateway.Controller.Listening.{
  untouched, set_completion-Reaches, modbus_dispatcher_step-Reaches,
}
use moxa_4vrs_gateway.Modbus.Dispatcher.{Dispatcher, modbus_dispatcher_init, modbus_dispatcher_step}
use moxa_4vrs_gateway.Gateway.Controller.Life.{
  ControllerCall, starts, steps, reconfigures, waits, shuts_down, run, run-IsValid,
}
use moxa_4vrs_gateway.Gateway.Controller.Outcomes.{
  Reconfigured, reconfigure_port-outcome, gateway_controller_step-map,
}
use moxa_4vrs_gateway.Gateway.Config.Address.{
  bind_address_valid, dotted_quad, scan_dotted, scan_unsigned, scan_digits, skip_spaces,
}
use moxa_4vrs_gateway.Gateway.Config.Conflicts.{
  ConfigurationValid, gateway_configuration_validate-valid,
}
use moxa_4vrs_gateway.Gateway.Persistent.{config_absent, from_defaults, gateway_persistent_defaults}
use moxa_4vrs_gateway.Gateway.Coordinator.{
  Surroundings, Coordinator, default_driver, gateway_coordinator_init, emit, event, percent,
  app_ready, app_stopped, event_complete, no_app_error,
}
use moxa_4vrs_gateway.Gateway.Coordinator.Startup
use moxa_4vrs_gateway.Gateway.Coordinator.Startup.{run-bounded}
use moxa_4vrs_gateway.Gateway.Coordinator.Events
use moxa_4vrs_gateway.Gateway.Coordinator.Events.{events_of, newest, emit-newest}
use moxa_4vrs_gateway.Gateway.Coordinator.Endings.{run-ends}
use moxa_4vrs_gateway.Gateway.Controller.Shutdown.{is_ended, shut_down_port-ends}

-- The calls that the Modbus TCP listener makes: it installs its callback and an empty dispatcher, and at
-- each turn its dispatcher submits what waits.
abbrev modbus : TransportOps ℕ Dispatcher
modbus = record {
  start = some (λ t q c. (pos 0, modbus_dispatcher_init, set_completion q true));
  step = some (λ t q now. let (result, d, r) = modbus_dispatcher_step t q now 1000 1000 in (d, r));
  stop = some (λ t q. (pos 0, t, q));
  client_count = none;
  crc_errors = none;
  framing_errors = none;
  diagnostics = none;
}

modbus-IsListener : IsListener device modbus
modbus-IsListener = record {
  starts = λ f e t q c.
      subst (λ g. Reaches device q (g t q c).2) (some-injective _ _ e)
        (set_completion-Reaches device q true);
  steps = λ f e t q now.
      subst (λ g. Reaches device q (g t q now).1) (some-injective _ _ e)
        (modbus_dispatcher_step-Reaches device q t now 1000 1000);
  stops = λ f e t q.
      subst (λ g. Reaches device q (g t q).2) (some-injective _ _ e) (untouched device q);
}

abbrev bound : Binding ℕ Dispatcher
bound = record {
  backend_ops = device;
  backend_context = 1;
  transport_ops = some modbus;
  transport_context = modbus_dispatcher_init;
}

abbrev calls : List ControllerCall
calls =
    starts 1
    ∷ steps 2
    ∷ waits 3 1 3
    ∷ reconfigures 2 (gateway_default_port 2) 4
    ∷ steps 5
    ∷ shuts_down 6
    ∷ steps 7
    ∷ []

run-IsValid_example :
    let c = run (gateway_controller_init gateway_configuration_defaults (λ i. bound)).1 calls in
    (length c.ports ≡ 8) × All IsValid c.ports
run-IsValid_example =
    run-IsValid gateway_configuration_defaults (λ i. bound) calls (λ i. modbus-IsListener)

-- A port in service.
abbrev serving_port : PortController ℕ Dispatcher
serving_port =
    let p = init_port 0 (gateway_default_port 0) error_none bound in
    let q = p.runtime in
    record p { runtime = record q { state = ready }; lifecycle = port_ready; listener_owned = true }

serving_port-IsValid : IsValid serving_port
unfolding init_port init
serving_port-IsValid =
    let v = init-IsValid {B = ℕ} 0 (core_config (gateway_default_port 0)) 1 in
    record { runtime = ground (arith, v.sound, v.busy); home = refl; listener = refl }

serving_port-listens : EntryListener serving_port.backend_ops serving_port.transport_ops
unfolding init_port
serving_port-listens = modbus-IsListener

abbrev faster : GatewayPortConfig
faster = record (gateway_default_port 0) { baud = 19200; revision = 2 }

reconfigure_port-outcome_example :
    Reconfigured serving_port faster (reconfigure_port serving_port 0 faster 5)
unfolding init_port gateway_default_port core_config config_valid
reconfigure_port-outcome_example =
    reconfigure_port-outcome serving_port serving_port-listens serving_port-IsValid 5 0 faster refl
      refl refl

shut_down_port-ends_example :
    let q = step_port (shut_down_port serving_port 5) 6 in
    (is_ended q.lifecycle ≡ true) × (q.runtime.state ≡ disabled)
unfolding init_port
shut_down_port-ends_example =
    shut_down_port-ends serving_port 5 6 serving_port-listens serving_port-IsValid (refl, λ b. refl)

abbrev eight : Controller ℕ Dispatcher
eight = record { ports = replicate 8 serving_port; scheduler_steps = 0; next_port = 5 }

gateway_controller_step-map_example :
    ((gateway_controller_step eight 9).ports ≡ map (λ p. step_port p 9) eight.ports)
    × ((gateway_controller_step eight 9).next_port ≡ (eight.next_port + 1) % 8)
    × ((gateway_controller_step eight 9).next_port < 8)
gateway_controller_step-map_example = gateway_controller_step-map eight 9 refl (omega arith)

abbrev clash : List GatewayPortConfig
clash =
    set gateway_configuration_defaults 3 (record (gateway_default_port 3) { endpoint_port = 502 })

gateway_configuration_validate-valid_example :
    (gateway_configuration_validate clash ≡ 0) ↔ ConfigurationValid clash
gateway_configuration_validate-valid_example = gateway_configuration_validate-valid clash

abbrev around : Surroundings ℕ Dispatcher ℕ
around = record {
  select = λ s. (config_absent, gateway_persistent_defaults, from_defaults, s + 1);
  provide = λ s ports. (pos 0, λ i. bound, s);
  attach = none;
  driver = default_driver;
}

abbrev begun : Coordinator ℕ Dispatcher ℕ
begun = gateway_coordinator_init 0 4000000000

run-ends_example :
    (Startup.run around begun ((true, 4294967000) ∷ ((false, 5) ∷ (false, 1704) ∷ []))).state
    ≡ app_stopped
unfolding gateway_coordinator_init emit
run-ends_example = run-ends around begun 4294967000 1704 false ((false, 5) ∷ []) refl (omega arith)

run-bounded_example :
    let c = Startup.run around begun ((false, 1) ∷ (true, 2) ∷ []) in
    Events.IsValid c × (percent c.progress_numerator ≤ 100)
run-bounded_example = run-bounded around 0 4000000000 ((false, 1) ∷ (true, 2) ∷ [])

emit-newest_example :
    events_of (emit begun app_ready event_complete 3 no_app_error)
    ≡ newest (events_of begun) (event begun app_ready event_complete 3 no_app_error)
unfolding gateway_coordinator_init emit
emit-newest_example =
    emit-newest begun app_ready event_complete 3 no_app_error
      (record { size = refl; head = omega arith; count = omega arith; progress = omega arith })

abbrev text : List ℕ
text = b'+' ∷ b'1' ∷ b'.' ∷ b' ' ∷ b'2' ∷ b'.' ∷ b'3' ∷ b'.' ∷ b'-' ∷ b'0' ∷ []

-- `%u` of `sscanf` skips spaces and takes signs.
bind_address_valid_test : bind_address_valid (text) ≡ true
unfolding bind_address_valid dotted_quad scan_dotted scan_unsigned scan_digits skip_spaces
bind_address_valid_test = refl
