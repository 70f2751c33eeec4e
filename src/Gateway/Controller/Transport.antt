-- ===== src/Gateway/Controller/Transport.antt =====
-- How the start and the stop of a transport in src/gateway/gateway_controller.c leave a port.
use moxa_4vrs_gateway.Prelude.{
  ℕ, ◌≡◌, refl, sym, ap, subst, ◌∙◌, inl, inr, Bool, true, false, not, ◌||◌, Option, none, some,
  if_cases, Option-cases, ℤ, pos, is_zero,
}
use moxa_4vrs_gateway.Port.State.{Backend, Port}
use moxa_4vrs_gateway.Port.Valid
use moxa_4vrs_gateway.Port.Listener.{Follows, access_all-Follows}
use moxa_4vrs_gateway.Gateway.Config.{GatewayPortConfig}
use moxa_4vrs_gateway.Gateway.Controller.{
  PortController, TransportOps, transport_start_at, entry, transport_stop, with_transport,
  call_stop,
}
use moxa_4vrs_gateway.Gateway.Controller.Agreement.{Reaches, EntryListener}
use moxa_4vrs_gateway.Gateway.Controller.Step.{transport_step, call_step}

Reaches-Follows :
    {B : Type 0} (ops : Backend B) (p q : Port B)
    → Reaches ops p q
    → Valid.IsValid p
    → Valid.IsValid q × Follows p q
Reaches-Follows ops p q r v =
    let (w, f) = access_all-Follows ops p r.accesses v in
    (subst Valid.IsValid (sym r.result) w, subst (λ x. Follows p x) (sym r.result) f)

module _ {B T : Type 0} where
  -- What a transport leaves alone, and where it may lead the runtime.
  pub record Called (p q : PortController B T) : Type 0 where
    pub valid : Valid.IsValid q.runtime
    pub follows : Follows p.runtime q.runtime
    pub lifecycle : q.lifecycle ≡ p.lifecycle
    pub last_error : q.last_error ≡ p.last_error
    pub pending_disable : q.pending_disable ≡ p.pending_disable
    pub listener_rebind : q.listener_rebind ≡ p.listener_rebind
    pub network_wait : q.network_wait ≡ p.network_wait
    pub current : q.current ≡ p.current
    pub staged : q.staged ≡ p.staged
    pub backend_ops : q.backend_ops ≡ p.backend_ops
    pub transport_ops : q.transport_ops ≡ p.transport_ops

  same-Called : (p : PortController B T) → Valid.IsValid p.runtime → Called p p
  same-Called p v = record {
    valid = v;
    follows = inl refl;
    lifecycle = refl;
    last_error = refl;
    pending_disable = refl;
    listener_rebind = refl;
    network_wait = refl;
    current = refl;
    staged = refl;
    backend_ops = refl;
    transport_ops = refl;
  }

  with_transport-Called :
      (p : PortController B T) (t : T) (q : Port B) (owned : Bool)
      → Valid.IsValid q × Follows p.runtime q
      → Called p (record p { transport_context = t; runtime = q; listener_owned = owned })
  with_transport-Called p t q owned (v, f) = record {
    valid = v;
    follows = f;
    lifecycle = refl;
    last_error = refl;
    pending_disable = refl;
    listener_rebind = refl;
    network_wait = refl;
    current = refl;
    staged = refl;
    backend_ops = refl;
    transport_ops = refl;
  }

  -- A start that succeeds leaves the listener owned, and any other leaves that as it was.
  abbrev pub Started : PortController B T → ℤ × PortController B T → Type 0
  Started p r = Called p r.1 × (r.1.listener_owned ≡ (is_zero r.0 || p.listener_owned))

  -- A stop that succeeds leaves the listener free; where none was owned, it succeeds.
  abbrev pub Stopped : PortController B T → ℤ × PortController B T → Type 0
  Stopped p r =
      Called p r.1
      × (r.1.listener_owned ≡ not (is_zero r.0))
      × ((p.listener_owned ≡ false) → (r.0 ≡ pos 0) × (r.1.runtime ≡ p.runtime))

  -- A turn of a transport; nothing happens where no listener is owned.
  abbrev pub Turned : PortController B T → PortController B T → Type 0
  Turned p q =
      Called p q × (q.listener_owned ≡ p.listener_owned) × ((p.listener_owned ≡ false) → q ≡ p)

  starts_at :
      (ops : Backend B) (table : Option (TransportOps B T)) (p : Port B) (t : T)
      (c : GatewayPortConfig) (f : T → Port B → GatewayPortConfig → ℤ × T × Port B)
      → EntryListener ops table
      → entry table (λ o. o.start) ≡ some f
      → Reaches ops p (f t p c).2
  starts_at ops none p t c f l e = cc e
  starts_at ops (some transport) p t c f l e = l.starts f e t p c

  stops_at :
      (ops : Backend B) (table : Option (TransportOps B T)) (p : Port B) (t : T)
      (f : T → Port B → ℤ × T × Port B)
      → EntryListener ops table
      → entry table (λ o. o.stop) ≡ some f
      → Reaches ops p (f t p).2
  stops_at ops none p t f l e = cc e
  stops_at ops (some transport) p t f l e = l.stops f e t p

  steps_at :
      (ops : Backend B) (table : Option (TransportOps B T)) (p : Port B) (t : T) (now : ℕ)
      (f : T → Port B → ℕ → T × Port B)
      → EntryListener ops table
      → entry table (λ o. o.step) ≡ some f
      → Reaches ops p (f t p now).1
  steps_at ops none p t now f l e = cc e
  steps_at ops (some transport) p t now f l e = l.steps f e t p now

  module _ (p : PortController B T) (l : EntryListener p.backend_ops p.transport_ops)
      (v : Valid.IsValid p.runtime) where
    pub transport_start_at-Started : (c : GatewayPortConfig) → Started p (transport_start_at p c)
    unfolding transport_start_at
    transport_start_at-Started c = elim (Option-cases (entry p.transport_ops (λ o. o.start))) [
      | inl e ↦ rw (e, transport_start_at) (same-Called p v, refl)
      | inr (f, e) ↦
          let (result, t, q) = f p.transport_context p.runtime c in
          let kept =
            Reaches-Follows p.backend_ops p.runtime q
              (starts_at p.backend_ops p.transport_ops p.runtime p.transport_context c f l e) v in
          rw (e, transport_start_at)
            (if_cases (λ (r : ℤ × PortController B T). Started p r) (is_zero result) _ _
              (λ z. (with_transport-Called p t q true kept, refl))
              (λ z. (with_transport-Called p t q p.listener_owned kept, refl)))
    ]

    freed : Stopped p (pos 0, record p { listener_owned = false })
    freed = (
      with_transport-Called p p.transport_context p.runtime false (v, inl refl),
      refl,
      λ _. (refl, refl),
    )

    call_stop-Stopped : p.listener_owned ≡ true → Stopped p (call_stop p)
    unfolding call_stop
    call_stop-Stopped on = elim (Option-cases (entry p.transport_ops (λ o. o.stop))) [
      | inl e ↦ rw (e, call_stop) freed
      | inr (f, e) ↦
          let (result, t, q) = f p.transport_context p.runtime in
          let kept =
            Reaches-Follows p.backend_ops p.runtime q
              (stops_at p.backend_ops p.transport_ops p.runtime p.transport_context f l e) v in
          rw (e, call_stop)
            (if_cases (λ (r : ℤ × PortController B T). Stopped p r) (is_zero result)
              (result, record (with_transport p t q) { listener_owned = false })
              (result, with_transport p t q)
              (λ z.
                (with_transport-Called p t q false kept, ap not (sym z), λ off. cc (sym off ∙ on)))
              (λ z. (
                with_transport-Called p t q p.listener_owned kept,
                on ∙ ap not (sym z),
                λ off. cc (sym off ∙ on),
              )))
    ]

    pub transport_stop-Stopped : Stopped p (transport_stop p)
    unfolding transport_stop
    transport_stop-Stopped =
        if_cases (λ (r : ℤ × PortController B T). Stopped p r) p.listener_owned (call_stop p)
          (pos 0, record p { listener_owned = false }) call_stop-Stopped (λ _. freed)

    call_step-Turned : (now : ℕ) → p.listener_owned ≡ true → Turned p (call_step p now)
    unfolding call_step
    call_step-Turned now on = elim (Option-cases (entry p.transport_ops (λ o. o.step))) [
      | inl e ↦ rw (e, call_step) (same-Called p v, refl, λ _. refl)
      | inr (f, e) ↦
          let (t, q) = f p.transport_context p.runtime now in
          let kept =
            Reaches-Follows p.backend_ops p.runtime q
              (steps_at p.backend_ops p.transport_ops p.runtime p.transport_context now f l e) v in
          rw (e, call_step)
            (with_transport-Called p t q p.listener_owned kept, refl, λ off. cc (sym off ∙ on))
    ]

    pub transport_step-Turned : (now : ℕ) → Turned p (transport_step p now)
    unfolding transport_step
    transport_step-Turned now =
        if_cases (λ q. Turned p q) p.listener_owned (call_step p now) p (call_step-Turned now)
          (λ _. (same-Called p v, refl, λ _. refl))
