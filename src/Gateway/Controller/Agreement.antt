-- ===== src/Gateway/Controller/Agreement.antt =====
-- What the two state machines of a port, that of src/gateway/gateway_controller.c and that of its runtime, have to do with each other.
use moxa_4vrs_gateway.Prelude.{
  ℕ, ◌≡◌, ◌⊎◌, Bool, true, false, not, ◌&&◌, ◌||◌, Option, none, some, List, arith, ℤ,
}
use moxa_4vrs_gateway.Port.State.{
  Backend, Port, PortState, starting, recovering, reconfiguring, stopping, degraded,
}
use moxa_4vrs_gateway.Port.Valid
use moxa_4vrs_gateway.Port.Listener.{Access, access_all, serving}
use moxa_4vrs_gateway.Gateway.Config.{GatewayPortConfig, is_error}
use moxa_4vrs_gateway.Gateway.Controller.{
  Lifecycle, port_disabled, port_starting, port_ready, port_reconfiguring, port_rolling_back,
  port_stopping, port_degraded, port_error, port_network_wait, PortController, TransportOps,
}
use moxa_4vrs_gateway.Gateway.Controller.Step.{is_off, is_down}

abbrev pub is_starting : PortState → Bool
is_starting starting = true
is_starting recovering = true
is_starting _ = false

abbrev pub is_reconfiguring : PortState → Bool
is_reconfiguring reconfiguring = true
is_reconfiguring _ = false

abbrev pub is_stopping : PortState → Bool
is_stopping stopping = true
is_stopping _ = false

abbrev pub serving_or_degraded : PortState → Bool
serving_or_degraded degraded = true
serving_or_degraded s = serving s

-- The states of the runtime that go with a lifecycle between two turns of a port.
abbrev pub at_home : Lifecycle → Bool → PortState → Bool
at_home port_disabled rebind s = is_off s
at_home port_starting rebind s = is_starting s
at_home port_ready rebind s = serving s
at_home port_reconfiguring rebind s = is_reconfiguring s || (rebind && serving_or_degraded s)
at_home port_rolling_back rebind s = is_reconfiguring s
at_home port_stopping rebind s = is_stopping s
at_home port_degraded rebind s = is_down s
at_home port_error rebind s = true
at_home port_network_wait rebind s = serving_or_degraded s

-- Whether a port can own its listener, with a pending removal and an error, in a lifecycle.
abbrev pub owns : Lifecycle → Bool → Bool → Bool → Bool
owns port_ready owned pending failed = owned && not pending
owns port_degraded owned pending failed = owned && not pending
owns port_error owned pending failed = not pending || not owned
owns port_stopping owned pending failed = not owned || (failed && not pending)
owns _ owned pending failed = not owned && not pending

-- The transport reaches its port's runtime only as a listener does.
pub record Reaches {B : Type 0} (ops : Backend B) (p q : Port B) : Type 0 where
  pub accesses : List (Access B)
  pub result : q ≡ access_all ops p accesses

pub record IsListener {B T : Type 0} (ops : Backend B) (transport : TransportOps B T) : Type 0 where
  pub starts :
      (f : T → Port B → GatewayPortConfig → ℤ × T × Port B)
      → transport.start ≡ some f
      → (t : T) (p : Port B) (c : GatewayPortConfig) → Reaches ops p (f t p c).2
  pub steps :
      (f : T → Port B → ℕ → T × Port B)
      → transport.step ≡ some f
      → (t : T) (p : Port B) (now : ℕ) → Reaches ops p (f t p now).1
  pub stops :
      (f : T → Port B → ℤ × T × Port B)
      → transport.stop ≡ some f
      → (t : T) (p : Port B) → Reaches ops p (f t p).2

abbrev pub EntryListener : {B T : Type 0} → Backend B → Option (TransportOps B T) → Type 0
EntryListener ops none = Unit
EntryListener ops (some transport) = IsListener ops transport

-- The invariant of a port of the controller: its runtime is valid and in a state that goes with the
-- lifecycle, and it owns its listener just when it should.
pub record IsValid {B T : Type 0} (p : PortController B T) : Type 0 where
  pub runtime : Valid.IsValid p.runtime
  pub home : at_home p.lifecycle p.listener_rebind p.runtime.state ≡ true
  pub listener : owns p.lifecycle p.listener_owned p.pending_disable (is_error p.last_error) ≡ true

-- A state that follows is at home with every lifecycle but that of a start.
pub at_home-serving :
    (l : Lifecycle) (r : Bool) (s t : PortState)
    → at_home l r s ≡ true
    → serving s ≡ true
    → serving t ≡ true
    → (l ≡ port_starting) ⊎ (at_home l r t ≡ true)
at_home-serving l r s t h a b = ground arith
