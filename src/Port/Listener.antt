-- ===== src/Port/Listener.antt =====
-- What the listener of a port does to src/core/port_runtime.c: the calls that it makes, and the states they lead to.
use moxa_4vrs_gateway.Prelude.{
  ℕ, ◌≡◌, refl, sym, ap, ◌∙◌, ◌⊎◌, inl, inr, Bool, true, false, Option, List, [], ◌∷◌, arith,
  Bool-cases, if_cases, ℤ, pos,
}
use moxa_4vrs_gateway.Port.State.{
  Backend, Port, PortState, ready, active, waiting, recovering, SubmitResult,
}
use moxa_4vrs_gateway.Port.Control.{
  cancel_active, detach_listener, report_io_failure, flush_queue, is_ready,
}
use moxa_4vrs_gateway.Port.Machine.{set_completion}
use moxa_4vrs_gateway.Port.Submit.{submit_operation}
use moxa_4vrs_gateway.Port.Transitions.{is_busy}
use moxa_4vrs_gateway.Port.Valid.{IsValid}
use moxa_4vrs_gateway.Port.Flush.{flush_queue-Flushed}
use moxa_4vrs_gateway.Port.Requests.{
  cancel_active-Arrived, report_io_failure-Arrived, flush_queue-IsSound,
}
use moxa_4vrs_gateway.Port.Admission.{Outcome, submit_operation-Outcome}
use moxa_4vrs_gateway.Transaction.{Transaction}
use moxa_4vrs_gateway.Port.Life.{
  Call, starts, submits, steps, cancels, detaches, reports, reconfigures, stops, perform,
  cancel_active-IsValid, detach_listener-IsValid, Arrived-IsValid,
}

-- The calls of the operations of a port that a listener makes.
abbrev pub is_listening : Call → Bool
is_listening (submits r now) = true
is_listening (cancels now) = true
is_listening (detaches now) = true
is_listening (reports m now) = true
is_listening _ = false

-- What a listener does to the runtime of its port: such a call, setting or clearing the completion
-- callback as it is initialised, and input or output of its own on the device of the backend, which
-- leaves the backend in another state.
pub data Access (B : Type 0) : Type 0 where
  makes : (c : Call) → is_listening c ≡ true → Access B
  sets_completion : Bool → Access B
  uses_device : B → Access B

-- The states of a port that takes requests.
abbrev pub serving : PortState → Bool
serving ready = true
serving active = true
serving waiting = true
serving recovering = true
serving _ = false

-- The state is as before, or the port takes requests before and after.
abbrev pub Follows : {B : Type 0} → Port B → Port B → Type 0
Follows p q = (q.state ≡ p.state) ⊎ ((serving p.state ≡ true) × (serving q.state ≡ true))

module _ {B : Type 0} where
  Follows-trans : (p q r : Port B) → Follows p q → Follows q r → Follows p r
  Follows-trans p q r (inl e) (inl f) = inl (f ∙ e)
  Follows-trans p q r (inl e) (inr (a, b)) = inr (ap serving (sym e) ∙ a, b)
  Follows-trans p q r (inr (a, b)) (inl f) = inr (a, ap serving f ∙ b)
  Follows-trans p q r (inr (a, b)) (inr (c, d)) = inr (a, d)

  busy-serving : (p : Port B) → is_busy p.state ≡ true → serving p.state ≡ true
  busy-serving p e = ground arith

  cancel_active-Follows :
      (ops : Backend B) (p : Port B) (now : ℕ) → IsValid p → Follows p (cancel_active ops p now).1
  cancel_active-Follows ops p now v = elim (Bool-cases p.has_active) [
    | inl on ↦ elim (cancel_active-Arrived ops p now v) [
      | inl (off, _) ↦ cc (sym off ∙ on)
      | inr (a, _) ↦ inr (busy-serving p (sym v.busy ∙ on), ap serving a.state)
    ]
    | inr off ↦ elim (cancel_active-Arrived ops p now v) [
      | inl (_, e) ↦ inl (ap (λ (x : ℤ × Port B). x.1.state) e)
      | inr (a, _) ↦ inl (unfold cancel_active in rw off refl)
    ]
  ]

  flush_queue-IsValid : (p : Port B) → IsValid p → IsValid (flush_queue p)
  flush_queue-IsValid p v =
      let f = flush_queue-Flushed p v.sound.queued in
      record {
        sound = flush_queue-IsSound p v.sound;
        busy = f.has_active ∙ v.busy ∙ ap is_busy (sym f.state);
      }

  pub detach_listener-Follows :
      (ops : Backend B) (p : Port B) (now : ℕ) → IsValid p → Follows p (detach_listener ops p now).1
  unfolding detach_listener
  detach_listener-Follows ops p now v =
      let q = flush_queue p in
      let f = flush_queue-Flushed p v.sound.queued in
      let w = flush_queue-IsValid p v in
      if_cases (λ (r : ℤ × Port B). Follows p r.1) q.has_active (cancel_active ops q now) (pos 0, q)
        (λ _.
          Follows-trans p q (cancel_active ops q now).1 (inl f.state)
            (cancel_active-Follows ops q now w))
        (λ _. inl f.state)

  -- A valid port is always detached.
  pub detach_listener_lem :
      (ops : Backend B) (p : Port B) (now : ℕ) → IsValid p → (detach_listener ops p now).0 ≡ pos 0
  unfolding detach_listener
  detach_listener_lem ops p now v =
      let q = flush_queue p in
      let w = flush_queue-IsValid p v in
      if_cases (λ (r : ℤ × Port B). r.0 ≡ pos 0) q.has_active (cancel_active ops q now) (pos 0, q)
        (λ on. elim (cancel_active-Arrived ops q now w) [
          | inl (off, _) ↦ cc (sym off ∙ on)
          | inr (a, _) ↦ a.result
        ])
        (λ _. refl)

  report_io_failure-Follows :
      (ops : Backend B) (p : Port B) (now : ℕ) (m : List ℕ)
      → IsValid p
      → Follows p (report_io_failure ops p now m).1
  report_io_failure-Follows ops p now m v = elim (Bool-cases (is_ready p.state)) [
    | inl on ↦ elim (report_io_failure-Arrived ops p now m v) [
      | inl (_, e) ↦ inl (ap (λ (x : ℤ × Port B). x.1.state) e)
      | inr a ↦ inr (ground arith, ap serving a.state)
    ]
    | inr off ↦ inl (unfold report_io_failure in rw off refl)
  ]

  Outcome-kept :
      (p : Port B) (t : Transaction) (r : SubmitResult × Port B × Option ℕ)
      → Outcome p t r
      → IsValid r.1 × Follows p r.1
  Outcome-kept p t r (inl (_, _, k)) = (k.valid, inl k.state)
  Outcome-kept p t r (inr (_, _, k)) = (k.valid, inl k.state)

  perform-Follows :
      (ops : Backend B) (p : Port B) (c : Call)
      → is_listening c ≡ true
      → IsValid p
      → IsValid (perform ops p c) × Follows p (perform ops p c)
  unfolding perform
  perform-Follows ops p (submits r now) l v =
      Outcome-kept p _ (submit_operation p r now) (submit_operation-Outcome p r now v)
  perform-Follows ops p (cancels now) l v =
      (cancel_active-IsValid ops p now v, cancel_active-Follows ops p now v)
  perform-Follows ops p (detaches now) l v =
      (detach_listener-IsValid ops p now v, detach_listener-Follows ops p now v)
  perform-Follows ops p (reports m now) l v = (
    Arrived-IsValid p _ _ _ v (report_io_failure-Arrived ops p now m v),
    report_io_failure-Follows ops p now m v,
  )
  perform-Follows ops p (starts now timeout) l v = cc l
  perform-Follows ops p (steps now) l v = cc l
  perform-Follows ops p (reconfigures c now timeout) l v = cc l
  perform-Follows ops p (stops now timeout) l v = cc l

  unfoldable pub access : Backend B → Port B → Access B → Port B
  access ops p (makes c h) = perform ops p c
  access ops p (sets_completion on) = set_completion p on
  access ops p (uses_device b) = record p { backend_context = b }

  unfoldable pub access_all : Backend B → Port B → List (Access B) → Port B
  access_all ops p [] = p
  access_all ops p (a ∷ as_) = access_all ops (access ops p a) as_

  access-Follows :
      (ops : Backend B) (p : Port B) (a : Access B)
      → IsValid p
      → IsValid (access ops p a) × Follows p (access ops p a)
  unfolding access set_completion
  access-Follows ops p (makes c h) v = perform-Follows ops p c h v
  access-Follows ops p (sets_completion on) v =
      (record { sound = ground (arith, v.sound); busy = v.busy }, inl refl)
  access-Follows ops p (uses_device b) v =
      (record { sound = ground (arith, v.sound); busy = v.busy }, inl refl)

  -- Whatever a listener does to a valid port, it stays valid, and its state follows.
  pub access_all-Follows :
      (ops : Backend B) (p : Port B) (as_ : List (Access B))
      → IsValid p
      → IsValid (access_all ops p as_) × Follows p (access_all ops p as_)
  unfolding access_all
  access_all-Follows ops p [] v = (v, inl refl)
  access_all-Follows ops p (a ∷ as_) v =
      let (w, f) = access-Follows ops p a v in
      let (u, g) = access_all-Follows ops (access ops p a) as_ w in
      (u, Follows-trans p (access ops p a) (access_all ops (access ops p a) as_) f g)
