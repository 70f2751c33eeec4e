-- ===== src/Gateway/Controller/Replacing.antt =====
-- That `gateway_controller_reconfigure` and `gateway_controller_network_wait` of src/gateway/gateway_controller.c keep the invariant of a port.
use moxa_4vrs_gateway.Prelude.{ℕ, ◌≡◌, refl, inl, inr, Bool, true, false, ◌&&◌, arith, Bool-cases}
use moxa_4vrs_gateway.Port.Machine.{init, config_valid}
use moxa_4vrs_gateway.Port.Control.{stopped, reconfigurable}
use moxa_4vrs_gateway.Port.Valid.{init-IsValid}
use moxa_4vrs_gateway.Port.Life.{start-IsValid, detach_listener-IsValid}
use moxa_4vrs_gateway.Gateway.Config.{GatewayPortConfig, core_config, truth}
use moxa_4vrs_gateway.Gateway.Controller.{
  Lifecycle, port_disabled, port_ready, port_network_wait, PortController, transport_stop,
}
use moxa_4vrs_gateway.Gateway.Controller.Requests.{
  turn_off, turn_on, rebind, replace, reconfigure_port, wait_port, is_serving,
}
use moxa_4vrs_gateway.Gateway.Controller.Agreement.{IsValid, EntryListener, serving_or_degraded}
use moxa_4vrs_gateway.Gateway.Controller.Transport.{Called, transport_stop-Stopped}
use moxa_4vrs_gateway.Gateway.Controller.Turns.{Kept, request_stop_kept}
use moxa_4vrs_gateway.Gateway.Controller.Requesting.{
  request_stop_taken, start_off, request_reconfigure_taken,
}
use moxa_4vrs_gateway.Port.Listener.{detach_listener_lem, detach_listener-Follows, serving}

abbrev pub is_up : Lifecycle → Bool
is_up port_ready = true
is_up port_network_wait = true
is_up _ = false

module _ {B T : Type 0} (p : PortController B T) (l : EntryListener p.backend_ops p.transport_ops)
    (v : IsValid p) (now : ℕ) where
  pub up-serving :
      (q : PortController B T)
      → Called p q
      → is_up p.lifecycle ≡ true
      → serving_or_degraded q.runtime.state ≡ true
  up-serving q c up = ground (arith, up, v.home, c.follows)

  up-running :
      (q : PortController B T)
      → Called p q
      → is_up p.lifecycle ≡ true
      → (stopped q.runtime.state ≡ false)
  up-running q c up = ground (arith, up-serving q c up)

  turn_off-Kept :
      (config : GatewayPortConfig) → is_up p.lifecycle ≡ true → Kept p (turn_off p config now).1
  unfolding turn_off
  turn_off-Kept config up =
      let (c, owned, free) = transport_stop-Stopped p l v.runtime in
      let q = (transport_stop p).1 in
      let running = up-running q c up in
      let (valid, state) = request_stop_kept q.backend_ops q.runtime now c.valid in
      let home = up-serving q c up in
      ground (
        arith,
        up,
        v.listener,
        c.valid,
        home,
        c.lifecycle,
        c.pending_disable,
        c.listener_rebind,
        c.backend_ops,
        c.transport_ops,
        owned,
        valid,
        state,
        request_stop_taken q.backend_ops q.runtime now c.valid running,
      )

  turn_on-Kept :
      (index : ℕ) (config : GatewayPortConfig)
      → p.lifecycle ≡ port_disabled
      → Kept p (turn_on p index config now).1
  unfolding turn_on init
  turn_on-Kept index config s =
      let fresh = init index (core_config config) p.runtime.backend_context in
      ground (
        arith,
        v.listener,
        s,
        start-IsValid p.backend_ops fresh now 1000
            (init-IsValid index (core_config config) p.runtime.backend_context),
        start_off p.backend_ops fresh now refl,
      )

  rebind-Kept :
      (config : GatewayPortConfig) → is_up p.lifecycle ≡ true → Kept p (rebind p config now).1
  unfolding rebind
  rebind-Kept config up =
      let (c, owned, free) = transport_stop-Stopped p l v.runtime in
      let q = (transport_stop p).1 in
      let home = up-serving q c up in
      ground (
        arith,
        up,
        v.listener,
        c.valid,
        home,
        c.lifecycle,
        c.pending_disable,
        c.backend_ops,
        c.transport_ops,
        owned,
        detach_listener_lem q.backend_ops q.runtime now c.valid,
        detach_listener-IsValid q.backend_ops q.runtime now c.valid,
        detach_listener-Follows q.backend_ops q.runtime now c.valid,
      )

  replace-Kept :
      (config : GatewayPortConfig)
      → is_up p.lifecycle ≡ true
      → config_valid (core_config config) ≡ true
      → Kept p (replace p config now).1
  unfolding replace
  replace-Kept config up good =
      let (c, owned, free) = transport_stop-Stopped p l v.runtime in
      let q = (transport_stop p).1 in
      let home = up-serving q c up in
      let able : reconfigurable q.runtime.state ≡ true = ground (arith, home) in
      let (valid, taken, state) =
        request_reconfigure_taken q.backend_ops q.runtime (core_config config) now c.valid able
          good in
      ground (
        arith, up, v.listener, c.valid, home, c.lifecycle, c.pending_disable, c.backend_ops,
        c.transport_ops, owned, valid, taken, state,
      )

  pub wait_port-Kept : (wait : Bool) → Kept p (wait_port p wait now).1
  unfolding wait_port
  wait_port-Kept wait =
      let told = record p { network_wait = wait } in
      let same : IsValid told = record {
        runtime = v.runtime;
        home = v.home;
        listener = v.listener;
      } in
      let (c, owned, free) = transport_stop-Stopped told l v.runtime in
      let q = (transport_stop told).1 in
      elim (Bool-cases (wait && is_serving p.lifecycle)) [
        | inr e ↦ rw e (record { valid = same; backend_ops = refl; transport_ops = refl })
        | inl e ↦
            let up : is_up p.lifecycle ≡ true = ground (arith, e) in
            let ser : serving q.runtime.state ≡ true = ground (arith, e, v.home, c.follows) in
            ground (
              arith,
              e,
              v.listener,
              c.valid,
              ser,
              c.lifecycle,
              c.pending_disable,
              c.listener_rebind,
              c.last_error,
              c.backend_ops,
              c.transport_ops,
              owned,
              detach_listener_lem q.backend_ops q.runtime now c.valid,
              detach_listener-IsValid q.backend_ops q.runtime now c.valid,
              detach_listener-Follows q.backend_ops q.runtime now c.valid,
            )
      ]

  pub reconfigure_port-Kept :
      (index : ℕ) (config : GatewayPortConfig)
      → ((truth config.enabled ≡ true) → config_valid (core_config config) ≡ true)
      → Kept p (reconfigure_port p index config now).1
  unfolding reconfigure_port
  reconfigure_port-Kept index config good = ground (
    arith,
    v.runtime,
    v.home,
    v.listener,
    good,
    turn_off-Kept config,
    turn_on-Kept index config,
    rebind-Kept config,
    replace-Kept config,
  )
