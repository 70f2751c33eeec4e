-- ===== src/Gateway/Controller/Turns.antt =====
-- That a turn of a port in src/gateway/gateway_controller.c keeps its invariant: the branches of `step_port`.
use moxa_4vrs_gateway.Prelude.{
  ℕ, ◌≡◌, sym, ap, ◌∙◌, inl, inr, Bool, true, false, ◌&&◌, ◌||◌, arith, ℤ, pos,
}
use moxa_4vrs_gateway.Port.State.{Backend, Port, PortState, stopping}
use moxa_4vrs_gateway.Port.Control.{request_stop, is_ready}
use moxa_4vrs_gateway.Port.Valid
use moxa_4vrs_gateway.Port.Requests.{request_stop-Arrived}
use moxa_4vrs_gateway.Port.Life.{Arrived-IsValid}
use moxa_4vrs_gateway.Port.Turns.{turns_to}
use moxa_4vrs_gateway.Gateway.Config.{is_error}
use moxa_4vrs_gateway.Gateway.Controller.{
  Lifecycle, port_disabled, port_starting, port_ready, port_reconfiguring, port_rolling_back,
  port_stopping, port_degraded, port_error, port_network_wait, PortController, transport_start_at,
  transport_start,
}
use moxa_4vrs_gateway.Gateway.Controller.Step.{
  is_off, is_down, is_failed, turn_ready, turn_stopping, start_listener_or_fail, turn_starting,
}
use moxa_4vrs_gateway.Gateway.Controller.Agreement.{
  IsValid, at_home, owns, is_starting, is_reconfiguring, is_stopping, serving_or_degraded,
  EntryListener,
}
use moxa_4vrs_gateway.Port.Listener.{serving}
use moxa_4vrs_gateway.Gateway.Controller.Transport.{transport_start_at-Started}

-- The states of the runtime that go with a lifecycle just after the runtime's turn.
abbrev pub at_turn : Lifecycle → Bool → PortState → Bool
at_turn port_disabled rebind s = is_off s
at_turn port_starting rebind s = is_starting s || is_ready s || is_down s
at_turn port_ready rebind s = serving_or_degraded s
at_turn port_reconfiguring rebind s =
    is_reconfiguring s || is_ready s || is_failed s || (rebind && serving_or_degraded s)
at_turn port_rolling_back rebind s = is_reconfiguring s || is_ready s || is_failed s
at_turn port_stopping rebind s = is_stopping s || is_off s || is_failed s
at_turn port_degraded rebind s = is_down s
at_turn port_error rebind s = true
at_turn port_network_wait rebind s = serving_or_degraded s

pub at_turn-same :
    (l : Lifecycle) (r : Bool) (s : PortState) → at_home l r s ≡ true → at_turn l r s ≡ true
at_turn-same l r s h = ground arith

pub at_turn-turns :
    (l : Lifecycle) (r : Bool) (s t : PortState)
    → at_home l r s ≡ true
    → turns_to s t ≡ true
    → at_turn l r t ≡ true
at_turn-turns l r s t h e = ground arith

pub request_stop_kept :
    {B : Type 0} (ops : Backend B) (q : Port B) (now : ℕ)
    → Valid.IsValid q
    → Valid.IsValid (request_stop ops q now 1000).1
      × (((request_stop ops q now 1000).0 ≡ pos 0)
          → (request_stop ops q now 1000).1.state ≡ stopping)
request_stop_kept {B = B} ops q now v = elim (request_stop-Arrived ops q now 1000 v) [
  | inl (_, e) ↦ (
    Arrived-IsValid q _ _ _ v (request_stop-Arrived ops q now 1000 v),
    λ z. cc (sym (ap (λ (x : ℤ × Port B). x.0) e) ∙ z),
  )
  | inr a ↦ (a.valid, λ _. a.state)
]

module _ {B T : Type 0} where
  pub record AtTurn (p : PortController B T) : Type 0 where
    pub runtime : Valid.IsValid p.runtime
    pub home : at_turn p.lifecycle p.listener_rebind p.runtime.state ≡ true
    pub listener :
        owns p.lifecycle p.listener_owned p.pending_disable (is_error p.last_error) ≡ true

  -- A valid port with the tables that it had.
  pub record Kept (p q : PortController B T) : Type 0 where
    pub valid : IsValid q
    pub backend_ops : q.backend_ops ≡ p.backend_ops
    pub transport_ops : q.transport_ops ≡ p.transport_ops

  module _ (p : PortController B T) (l : EntryListener p.backend_ops p.transport_ops)
      (now : ℕ) where
    -- A listener is started for a port that serves and owns none.
    pub start_listener_or_fail-Kept :
        Valid.IsValid p.runtime
        → serving p.runtime.state ≡ true
        → p.listener_owned ≡ false
        → p.pending_disable ≡ false
        → Kept p (start_listener_or_fail p now)
    unfolding start_listener_or_fail transport_start
    start_listener_or_fail-Kept v s free calm =
        let (c, owned) = transport_start_at-Started p l v p.current in
        let q = (transport_start_at p p.current).1 in
        ground (
          arith,
          c.valid,
          c.follows,
          c.lifecycle,
          c.pending_disable,
          c.backend_ops,
          c.transport_ops,
          owned,
          request_stop_kept q.backend_ops q.runtime now c.valid,
        )

    pub turn_starting-Kept : p.lifecycle ≡ port_starting → AtTurn p → Kept p (turn_starting p now)
    unfolding turn_starting
    turn_starting-Kept s v =
        ground (arith, v.runtime, v.home, v.listener, start_listener_or_fail-Kept)

    pub turn_ready-Kept : p.lifecycle ≡ port_ready → AtTurn p → Kept p (turn_ready p)
    unfolding turn_ready
    turn_ready-Kept s v = record {
      valid = record {
        runtime = ground (arith, v.runtime);
        home = ground (arith, v.home);
        listener = ground (arith, v.listener);
      };
      backend_ops = ground arith;
      transport_ops = ground arith;
    }

    pub turn_stopping-Kept : p.lifecycle ≡ port_stopping → AtTurn p → Kept p (turn_stopping p)
    unfolding turn_stopping
    turn_stopping-Kept s v = ground (arith, v.runtime, v.home, v.listener)
