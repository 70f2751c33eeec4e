-- ===== src/Gateway/Controller/Scheduling.antt =====
-- That a turn of a port and one of the controller of src/gateway/gateway_controller.c keep every port's invariant.
use moxa_4vrs_gateway.Prelude.{
  ℕ, ◌≡◌, refl, sym, subst, ◌∙◌, inl, inr, true, arith, Bool-cases, increment,
}
use moxa_4vrs_gateway.Port.State.{Port}
use moxa_4vrs_gateway.Port.Valid.{step-IsValid}
use moxa_4vrs_gateway.Port.Turns.{step-turns, step-incomplete}
use moxa_4vrs_gateway.Gateway.Controller.{PortController}
use moxa_4vrs_gateway.Gateway.Controller.Step.{runtime_step, transport_step, step_port}
use moxa_4vrs_gateway.Gateway.Controller.Agreement.{at_home-serving, IsValid, EntryListener}
use moxa_4vrs_gateway.Gateway.Controller.Transport.{Turned, transport_step-Turned}
use moxa_4vrs_gateway.Gateway.Controller.Turns.{AtTurn, at_turn, at_turn-same, at_turn-turns, Kept}
use moxa_4vrs_gateway.Gateway.Controller.Rebinding.{turn-Kept, Called-listener}

module _ {B T : Type 0} where
  -- The transport's turn keeps the invariant.
  Turned-IsValid : (p q : PortController B T) → IsValid p → Turned p q → IsValid q
  Turned-IsValid p q v (c, owned, still) = elim (Bool-cases p.listener_owned) [
    | inr off ↦ subst IsValid (sym (still off)) v
    | inl on ↦ record {
      runtime = c.valid;
      home = ground (
        arith,
        v.home,
        v.listener,
        c.follows,
        c.lifecycle,
        c.listener_rebind,
        at_home-serving p.lifecycle p.listener_rebind p.runtime.state q.runtime.state,
      );
      listener = ground (arith, v.listener, c.lifecycle, c.last_error, c.pending_disable, owned);
    }
  ]

  -- The runtime's turn leads to a state that the controller's turn expects.
  runtime_step-AtTurn : (p : PortController B T) (now : ℕ) → IsValid p → AtTurn (runtime_step p now)
  unfolding runtime_step
  runtime_step-AtTurn p now v = record {
    runtime = step-IsValid p.backend_ops p.runtime now v.runtime;
    home = elim (Bool-cases p.backend_ops.complete) [
      | inl c ↦
          at_turn-turns p.lifecycle p.listener_rebind p.runtime.state _ v.home
            (step-turns p.backend_ops p.runtime now c)
      | inr c ↦
          subst (λ (q : Port B). at_turn p.lifecycle p.listener_rebind q.state ≡ true)
            (sym (step-incomplete p.backend_ops p.runtime now c))
            (at_turn-same p.lifecycle p.listener_rebind p.runtime.state v.home)
    ];
    listener = v.listener;
  }

  Kept-trans :
      (p q r : PortController B T)
      → q.backend_ops ≡ p.backend_ops
      → q.transport_ops ≡ p.transport_ops
      → Kept q r
      → Kept p r
  Kept-trans p q r b t k = record {
    valid = k.valid;
    backend_ops = k.backend_ops ∙ b;
    transport_ops = k.transport_ops ∙ t;
  }

  pub step_port-Kept :
      (p : PortController B T) (now : ℕ)
      → EntryListener p.backend_ops p.transport_ops
      → IsValid p
      → Kept p (step_port p now)
  unfolding step_port
  step_port-Kept p now l v =
      let first = record p { scheduler_steps = increment p.scheduler_steps } in
      let told = transport_step-Turned first l v.runtime now in
      let q = transport_step first now in
      let listening = Called-listener first q told.0 l in
      let turned =
        turn-Kept (runtime_step q now) (unfold runtime_step in listening) now q.lifecycle
          (unfold runtime_step in refl)
          (runtime_step-AtTurn q now (
            Turned-IsValid first q
              (record { runtime = v.runtime; home = v.home; listener = v.listener }) told)) in
      unfold runtime_step in
      Kept-trans p (runtime_step q now) _ told.0.backend_ops told.0.transport_ops turned
