-- ===== src/Gateway/Controller/Requesting.antt =====
-- That the requests of src/gateway/gateway_controller.c keep the invariant of a port.
use moxa_4vrs_gateway.Prelude.{
  ℕ, ◌≡◌, ap, ◌∙◌, ◌⊎◌, inl, inr, true, false, not, ◌&&◌, ◌||◌, arith, if◌then◌else◌, Bool-cases, ℤ,
  pos, is_zero,
}
use moxa_4vrs_gateway.Port.State.{Backend, Port, PortConfig, disabled, starting, reconfiguring}
use moxa_4vrs_gateway.Port.Machine.{transition, transition_allowed, config_valid, start}
use moxa_4vrs_gateway.Port.Control.{request_stop, request_reconfigure, stopped, reconfigurable}
use moxa_4vrs_gateway.Port.Valid
use moxa_4vrs_gateway.Port.Requests.{request_stop-Arrived, request_reconfigure-Arrived}
use moxa_4vrs_gateway.Port.Life.{start-IsValid}
use moxa_4vrs_gateway.Deadline.{half_range, ticks_valid_interval}
use moxa_4vrs_gateway.Gateway.Controller.{PortController, start_port, transport_stop, is_disabled}
use moxa_4vrs_gateway.Gateway.Controller.Requests.{ask_stop, note_stop_failure, shut_down_port}
use moxa_4vrs_gateway.Gateway.Controller.Agreement.{
  at_home-serving, IsValid, EntryListener, at_home,
}
use moxa_4vrs_gateway.Gateway.Controller.Transport.{Stopped, transport_stop-Stopped}
use moxa_4vrs_gateway.Gateway.Controller.Turns.{Kept, request_stop_kept}
use moxa_4vrs_gateway.Gateway.Config.{error_none, is_error}

pub request_stop_taken :
    {B : Type 0} (ops : Backend B) (q : Port B) (now : ℕ)
    → Valid.IsValid q
    → stopped q.state ≡ false
    → (request_stop ops q now 1000).0 ≡ pos 0
request_stop_taken ops q now v s = elim (request_stop-Arrived ops q now 1000 v) [
  | inl (c, _) ↦ absurd (unfold half_range in ground (arith, c))
  | inr a ↦ a.result
]

pub request_reconfigure_taken :
    {B : Type 0} (ops : Backend B) (q : Port B) (c : PortConfig) (now : ℕ)
    → Valid.IsValid q
    → reconfigurable q.state ≡ true
    → config_valid c ≡ true
    → Valid.IsValid (request_reconfigure ops q c now 1000).1
      × ((request_reconfigure ops q c now 1000).0 ≡ pos 0)
      × ((request_reconfigure ops q c now 1000).1.state ≡ reconfiguring)
request_reconfigure_taken ops q c now v s k =
    elim (request_reconfigure-Arrived ops q c now 1000 v) [
      | inl (e, _) ↦ absurd (unfold half_range in ground (arith, e))
      | inr (_, _, _, _, a) ↦ (a.valid, a.result, a.state)
    ]

pub start_off :
    {B : Type 0} (ops : Backend B) (q : Port B) (now : ℕ)
    → q.state ≡ disabled
    → (((start ops q now 1000).0 ≡ pos 0) × ((start ops q now 1000).1.state ≡ starting))
      ⊎ ((is_zero (start ops q now 1000).0 ≡ false) × ((start ops q now 1000).1.state ≡ disabled))
unfolding start transition transition_allowed ticks_valid_interval
start_off ops q now s = ground arith

module _ {B T : Type 0} (p : PortController B T) (l : EntryListener p.backend_ops p.transport_ops)
    (v : IsValid p) (now : ℕ) where
  pub start_port-Kept : Kept p (start_port p now)
  unfolding start_port
  start_port-Kept = ground (
    arith,
    v.runtime,
    v.home,
    v.listener,
    start-IsValid p.backend_ops p.runtime now 1000 v.runtime,
    start_off p.backend_ops p.runtime now,
  )

module _ {B T : Type 0} where
  -- A port whose listener has been stopped or has failed to.
  pub record Halted (p : PortController B T) : Type 0 where
    pub runtime : Valid.IsValid p.runtime
    pub home : at_home p.lifecycle p.listener_rebind p.runtime.state ≡ true
    pub noted : p.listener_owned ≡ is_error p.last_error
    pub calm : (not p.pending_disable || not p.listener_owned) ≡ true
    pub off :
        (not (is_disabled p.lifecycle) || (not p.listener_owned && not p.pending_disable)) ≡ true

  ask_stop-Kept : (p : PortController B T) (now : ℕ) → Halted p → Kept p (ask_stop p now)
  unfolding ask_stop
  ask_stop-Kept p now h = ground (
    arith,
    h.runtime,
    h.home,
    h.noted,
    h.calm,
    h.off,
    request_stop_kept p.backend_ops p.runtime now h.runtime,
  )

module _ {B T : Type 0} (p : PortController B T) (l : EntryListener p.backend_ops p.transport_ops)
    (v : IsValid p) (now : ℕ) where
  abbrev pub halted : PortController B T
  halted =
      let (result, q) = transport_stop p in
      if is_zero result then record q { last_error = error_none } else note_stop_failure q

  Stopped-home :
      (r : ℤ × PortController B T)
      → Stopped p r
      → at_home r.1.lifecycle r.1.listener_rebind r.1.runtime.state ≡ true
  Stopped-home r (c, owned, free) = elim (Bool-cases p.listener_owned) [
    | inr off ↦
        ground
          (arith, v.home, c.lifecycle, c.listener_rebind, ap (λ (x : Port B). x.state) (free off).1)
    | inl on ↦ ground (
      arith,
      v.home,
      v.listener,
      c.follows,
      c.lifecycle,
      c.listener_rebind,
      at_home-serving p.lifecycle p.listener_rebind p.runtime.state r.1.runtime.state,
    )
  ]

  pub halted-Halted : Halted halted
  halted-Halted =
      let (c, owned, free) = transport_stop-Stopped p l v.runtime in
      let home = Stopped-home (transport_stop p) (c, owned, free) in
      ground (arith, v.listener, c.valid, home, c.lifecycle, c.pending_disable, owned, free)

  pub shut_down_port-Kept : Kept p (shut_down_port p now)
  unfolding shut_down_port
  shut_down_port-Kept =
      let k = ask_stop-Kept halted now halted-Halted in
      let (c, _, _) = transport_stop-Stopped p l v.runtime in
      record {
        valid = k.valid;
        backend_ops = k.backend_ops ∙ ground (arith, c.backend_ops);
        transport_ops = k.transport_ops ∙ ground (arith, c.transport_ops);
      }
