-- ===== src/Gateway/Controller/Rebinding.antt =====
-- That `step_port` of src/gateway/gateway_controller.c keeps the invariant of a port that is being reconfigured.
use moxa_4vrs_gateway.Prelude.{
  ℕ, ◌≡◌, sym, ap, subst, ◌∙◌, inl, inr, true, false, arith, increment, ℤ, pos,
}
use moxa_4vrs_gateway.Port.State.{Backend, Port, PortConfig, reconfiguring}
use moxa_4vrs_gateway.Port.Control.{request_reconfigure, is_ready}
use moxa_4vrs_gateway.Port.Valid
use moxa_4vrs_gateway.Port.Requests.{request_reconfigure-Arrived}
use moxa_4vrs_gateway.Port.Life.{request_reconfigure-IsValid}
use moxa_4vrs_gateway.Port.Listener.{serving}
use moxa_4vrs_gateway.Gateway.Config.{GatewayError, core_config}
use moxa_4vrs_gateway.Gateway.Controller.{
  port_rolling_back, PortController, transport_start, port_reconfiguring, transport_start_at,
  Lifecycle, port_disabled, port_starting, port_ready, port_stopping, port_degraded, port_error,
  port_network_wait,
}
use moxa_4vrs_gateway.Gateway.Controller.Step.{
  adopt_bind, rebind_failed, ask_rollback, turn_rolling_back, turn_rebinding, finish_reconfigure,
  turn, turn_reconfiguring,
}
use moxa_4vrs_gateway.Gateway.Controller.Agreement.{EntryListener}
use moxa_4vrs_gateway.Gateway.Controller.Transport.{transport_start_at-Started, Called}
use moxa_4vrs_gateway.Gateway.Controller.Turns.{
  Kept, AtTurn, start_listener_or_fail-Kept, turn_ready-Kept, turn_starting-Kept,
  turn_stopping-Kept,
}

request_reconfigure_kept :
    {B : Type 0} (ops : Backend B) (q : Port B) (c : PortConfig) (now : ℕ)
    → Valid.IsValid q
    → Valid.IsValid (request_reconfigure ops q c now 1000).1
      × (((request_reconfigure ops q c now 1000).0 ≡ pos 0)
          → (request_reconfigure ops q c now 1000).1.state ≡ reconfiguring)
request_reconfigure_kept {B = B} ops q c now v =
    elim (request_reconfigure-Arrived ops q c now 1000 v) [
      | inl (_, e) ↦ (
        request_reconfigure-IsValid ops q c now 1000 v,
        λ z. cc (sym (ap (λ (x : ℤ × Port B). x.0) e) ∙ z),
      )
      | inr (_, _, _, _, a) ↦ (a.valid, λ _. a.state)
    ]

revised-IsValid :
    {B : Type 0} (q : Port B) (c k : PortConfig)
    → Valid.IsValid q
    → Valid.IsValid (record q { current_config = c; known_good_config = k })
revised-IsValid q c k v = ground (arith, v.sound, v.busy)

module _ {B T : Type 0} where
  ask_rollback-Kept :
      (p : PortController B T) (now : ℕ)
      → Valid.IsValid p.runtime
      → p.listener_owned ≡ false
      → p.pending_disable ≡ false
      → Kept p (ask_rollback p now)
  unfolding ask_rollback
  ask_rollback-Kept p now v free calm =
      ground
        (arith, request_reconfigure_kept p.backend_ops p.runtime (core_config p.known_good) now v)

  pub Called-listener :
      (p q : PortController B T)
      → Called p q
      → EntryListener p.backend_ops p.transport_ops
      → EntryListener q.backend_ops q.transport_ops
  Called-listener p q c l =
      subst (λ ops. EntryListener ops q.transport_ops) (sym c.backend_ops)
        (subst (λ t. EntryListener p.backend_ops t) (sym c.transport_ops) l)

module _ {B T : Type 0} (p : PortController B T)
    (l : EntryListener p.backend_ops p.transport_ops) where
  rebind_failed-Kept :
      Valid.IsValid p.runtime
      → serving p.runtime.state ≡ true
      → p.listener_owned ≡ false
      → p.pending_disable ≡ false
      → Kept p (rebind_failed p)
  unfolding rebind_failed transport_start
  rebind_failed-Kept v s free calm =
      let failed = record p {
        listener_failures = increment p.listener_failures;
        last_error = GatewayError.listener_start;
        reconfigure_failures = increment p.reconfigure_failures;
      } in
      let (c, owned) = transport_start_at-Started failed l v p.current in
      ground (
        arith, c.valid, c.follows, c.lifecycle, c.pending_disable, c.backend_ops, c.transport_ops,
        owned,
      )

module _ {B T : Type 0} (p : PortController B T)
    (l : EntryListener p.backend_ops p.transport_ops) where
  turn_rolling_back-Kept : p.lifecycle ≡ port_rolling_back → AtTurn p → Kept p (turn_rolling_back p)
  unfolding turn_rolling_back transport_start
  turn_rolling_back-Kept s v =
      let (c, owned) = transport_start_at-Started p l v.runtime p.current in
      ground (
        arith, v.runtime, v.home, v.listener, c.valid, c.follows, c.lifecycle, c.pending_disable,
        c.backend_ops, c.transport_ops, owned,
      )

  turn_rebinding-Kept :
      p.lifecycle ≡ port_reconfiguring
      → p.listener_rebind ≡ true
      → AtTurn p
      → Kept p (turn_rebinding p)
  unfolding turn_rebinding
  turn_rebinding-Kept s r v =
      let clear = record p { listener_rebind = false } in
      let (c, owned) = transport_start_at-Started clear l v.runtime p.staged in
      let q = (transport_start_at clear p.staged).1 in
      ground (
        arith,
        v.runtime,
        v.home,
        v.listener,
        c.valid,
        c.follows,
        c.lifecycle,
        c.pending_disable,
        c.listener_rebind,
        c.backend_ops,
        c.transport_ops,
        owned,
        rebind_failed-Kept q (Called-listener clear q c l) c.valid,
        revised-IsValid q.runtime (adopt_bind q).runtime.current_config
            (adopt_bind q).runtime.known_good_config c.valid,
      )

  finish_reconfigure-Kept :
      (now : ℕ)
      → p.lifecycle ≡ port_reconfiguring
      → is_ready p.runtime.state ≡ true
      → AtTurn p
      → Kept p (finish_reconfigure p now)
  unfolding finish_reconfigure
  finish_reconfigure-Kept now s r v =
      let (c, owned) = transport_start_at-Started p l v.runtime p.staged in
      ground (
        arith,
        v.runtime,
        v.home,
        v.listener,
        c.valid,
        c.follows,
        c.lifecycle,
        c.pending_disable,
        c.backend_ops,
        c.transport_ops,
        owned,
        ask_rollback-Kept (transport_start_at p p.staged).1 now c.valid,
      )

  turn_reconfiguring-Kept :
      (now : ℕ) → p.lifecycle ≡ port_reconfiguring → AtTurn p → Kept p (turn_reconfiguring p now)
  unfolding turn_reconfiguring
  turn_reconfiguring-Kept now s v =
      let failed = record p {
        last_error = GatewayError.reconfigure;
        reconfigure_failures = increment p.reconfigure_failures;
      } in
      ground (
        arith,
        v.runtime,
        v.home,
        v.listener,
        turn_rebinding-Kept s,
        finish_reconfigure-Kept now s,
        start_listener_or_fail-Kept failed l now v.runtime,
      )

  pub turn-Kept : (now : ℕ) (s : Lifecycle) → p.lifecycle ≡ s → AtTurn p → Kept p (turn s p now)
  unfolding turn
  turn-Kept now port_starting s v = turn_starting-Kept p l now s v
  turn-Kept now port_ready s v = turn_ready-Kept p l now s v
  turn-Kept now port_reconfiguring s v = turn_reconfiguring-Kept now s v
  turn-Kept now port_rolling_back s v = turn_rolling_back-Kept s v
  turn-Kept now port_stopping s v = turn_stopping-Kept p l now s v
  turn-Kept now port_disabled s v = ground (arith, v.runtime, v.home, v.listener)
  turn-Kept now port_degraded s v = ground (arith, v.runtime, v.home, v.listener)
  turn-Kept now port_error s v = ground (arith, v.runtime, v.home, v.listener)
  turn-Kept now port_network_wait s v = ground (arith, v.runtime, v.home, v.listener)
