-- ===== src/Gateway/Controller/Shutdown.antt =====
-- How a port of src/gateway/gateway_controller.c ends after a shutdown.
use moxa_4vrs_gateway.Prelude.{
  ℕ, ◌≡◌, refl, sym, ap, ap₂, subst, ◌∙◌, Bool, true, false, arith, increment, is_zero,
}
use moxa_4vrs_gateway.Port.State.{Backend, Port, disabled, PortState}
use moxa_4vrs_gateway.Port.Machine.{transition, transition_allowed}
use moxa_4vrs_gateway.Port.Control.{stopped}
use moxa_4vrs_gateway.Port.Step.{step, step_in, step_stopping}
use moxa_4vrs_gateway.Gateway.Controller.{Lifecycle, port_disabled, port_error, PortController}
use moxa_4vrs_gateway.Gateway.Controller.Step.{
  turn, turn_stopping, step_port, transport_step, runtime_step,
}
use moxa_4vrs_gateway.Gateway.Controller.Requests.{ask_stop, shut_down_port}
use moxa_4vrs_gateway.Gateway.Controller.Agreement.{at_home, IsValid, EntryListener}
use moxa_4vrs_gateway.Gateway.Controller.Requesting.{
  request_stop_taken, Halted, halted, halted-Halted, shut_down_port-Kept,
}
use moxa_4vrs_gateway.Gateway.Controller.Turns.{request_stop_kept}
use moxa_4vrs_gateway.Port.Listener.{Follows}
use moxa_4vrs_gateway.Gateway.Controller.Transport.{transport_step-Turned}

abbrev pub is_ended : Lifecycle → Bool
is_ended port_disabled = true
is_ended port_error = true
is_ended _ = false

-- The backend stops at once when it is asked to.
abbrev pub StopsAt : {B : Type 0} → Backend B → ℕ → Type 0
StopsAt {B} ops now = (ops.complete ≡ true) × ((b : B) → is_zero (ops.stop b now).0 ≡ true)

step-stopped :
    {B : Type 0} (ops : Backend B) (q : Port B) (now : ℕ)
    → StopsAt ops now
    → stopped q.state ≡ true
    → (step ops q now).state ≡ disabled
unfolding step step_in step_stopping transition transition_allowed
step-stopped ops q now (c, z) s = ground (arith, c, z q.backend_context)

Follows-stopped :
    {B : Type 0} (p q : Port B) → Follows p q → stopped p.state ≡ true → q.state ≡ p.state
Follows-stopped p q f s = ground (arith, f, s)

module _ {B T : Type 0} where
  ask_stop-stopped :
      (p : PortController B T) (now : ℕ) → Halted p → stopped (ask_stop p now).runtime.state ≡ true
  unfolding ask_stop
  ask_stop-stopped p now h = ground (
    arith,
    request_stop_kept p.backend_ops p.runtime now h.runtime,
    request_stop_taken p.backend_ops p.runtime now h.runtime,
  )

  turn-ended :
      (s : Lifecycle) (p : PortController B T) (now : ℕ) (t : PortState)
      → p.lifecycle ≡ s
      → stopped t ≡ true
      → at_home s p.listener_rebind t ≡ true
      → p.runtime.state ≡ disabled
      → (is_ended (turn s p now).lifecycle ≡ true) × ((turn s p now).runtime.state ≡ disabled)
  unfolding turn turn_stopping
  turn-ended s p now t e st h d = ground (arith, e, st, h, d)

  step_port-ended :
      (p : PortController B T) (now : ℕ)
      → EntryListener p.backend_ops p.transport_ops
      → IsValid p
      → stopped p.runtime.state ≡ true
      → StopsAt p.backend_ops now
      → (is_ended (step_port p now).lifecycle ≡ true) × ((step_port p now).runtime.state ≡ disabled)
  unfolding step_port runtime_step
  step_port-ended p now l v s z =
      let first = record p { scheduler_steps = increment p.scheduler_steps } in
      let (c, _, _) = transport_step-Turned first l v.runtime now in
      let q = transport_step first now in
      let same = Follows-stopped p.runtime q.runtime c.follows s in
      let off =
        step-stopped q.backend_ops q.runtime now
          (subst (λ ops. StopsAt ops now) (sym c.backend_ops) z) (ap stopped same ∙ s) in
      turn-ended q.lifecycle (runtime_step q now) now p.runtime.state refl s
        (ap₂ (λ a b. at_home a b p.runtime.state) c.lifecycle c.listener_rebind ∙ v.home) off

  shut_down_port-stopped :
      (p : PortController B T) (now : ℕ)
      → EntryListener p.backend_ops p.transport_ops
      → IsValid p
      → stopped (shut_down_port p now).runtime.state ≡ true
  unfolding shut_down_port
  shut_down_port-stopped p now l v =
      ask_stop-stopped (halted p l v now) now (halted-Halted p l v now)

  -- A valid port whose transport reaches the runtime only as a listener does, shut down in whatever
  -- state it is, has ended after one turn at which its
  -- backend stops: its runtime is off, and the port is off or has an error.
  pub shut_down_port-ends :
      (p : PortController B T) (asked now : ℕ)
      → EntryListener p.backend_ops p.transport_ops
      → IsValid p
      → StopsAt p.backend_ops now
      → let q = step_port (shut_down_port p asked) now in
        (is_ended q.lifecycle ≡ true) × (q.runtime.state ≡ disabled)
  shut_down_port-ends p asked now l v z =
      let k = shut_down_port-Kept p l v asked in
      let q = shut_down_port p asked in
      step_port-ended q now
        (subst (λ ops. EntryListener ops q.transport_ops) (sym k.backend_ops)
          (subst (λ t. EntryListener p.backend_ops t) (sym k.transport_ops) l))
        k.valid (shut_down_port-stopped p asked l v)
        (subst (λ ops. StopsAt ops now) (sym k.backend_ops) z)
