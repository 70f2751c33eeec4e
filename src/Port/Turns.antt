-- ===== src/Port/Turns.antt =====
-- Where one turn of `port_runtime_step` of src/core/port_runtime.c leads from each state.
use moxa_4vrs_gateway.Prelude.{
  ℕ, zero, suc, ◌≡◌, refl, ap, ◌∙◌, inl, inr, Bool, true, false, ◌&&◌, arith, Bool-cases, if_then,
  if_else, Option-cases, is_zero, bytes,
}
use moxa_4vrs_gateway.Port.State.{
  Backend, Port, PortState, disabled, starting, ready, active, waiting, recovering, degraded,
  reconfiguring, stopping, error, EventType, no_event, response, malformed, failure, transmitted,
  BackendEvent,
}
use moxa_4vrs_gateway.Port.Machine.{
  transition, transition_allowed, notify_completion, clear_active, set_error, update_depth,
}
use moxa_4vrs_gateway.Port.Step.{
  step, step_in, step_starting, step_ready, ready_loop, step_active, step_waiting, step_recovering,
  step_reconfiguring, step_stopping, handle_event, check_response_deadline, attempt_recovery,
  discard_event, adopt_staged, force_rollback, roll_back, apply_staged, activate,
}
use moxa_4vrs_gateway.Port.Transitions.{begin_recovery_frame, expire_taken_frame}
use moxa_4vrs_gateway.Queue.{pop}
use moxa_4vrs_gateway.Deadline.{deadline_expired}

-- The states that a turn leads to, of one that it starts in.
abbrev pub turns_to : PortState → PortState → Bool
turns_to disabled to = elim to [ disabled ↦ true | _ ↦ false ]
turns_to starting to = elim to [ starting ↦ true | ready ↦ true | recovering ↦ true | _ ↦ false ]
turns_to ready to = elim to [ ready ↦ true | active ↦ true | _ ↦ false ]
turns_to active to = elim to [ waiting ↦ true | recovering ↦ true | _ ↦ false ]
turns_to waiting to = elim to [ waiting ↦ true | ready ↦ true | recovering ↦ true | _ ↦ false ]
turns_to recovering to = elim to [ recovering ↦ true | ready ↦ true | degraded ↦ true | _ ↦ false ]
turns_to degraded to = elim to [ degraded ↦ true | _ ↦ false ]
turns_to reconfiguring to = elim to [
  | reconfiguring ↦ true
  | ready ↦ true
  | error ↦ true
  | _ ↦ false
]
turns_to stopping to = elim to [ stopping ↦ true | disabled ↦ true | error ↦ true | _ ↦ false ]
turns_to error to = elim to [ error ↦ true | _ ↦ false ]

module _ {B : Type 0} where
  step_starting-turns :
      (ops : Backend B) (p : Port B) (now : ℕ)
      → p.state ≡ starting
      → turns_to starting (step_starting ops p now).state ≡ true
  unfolding step_starting transition transition_allowed
  step_starting-turns ops p now s =
      let q : Port B = record p { backend_context = (ops.open_device p.backend_context now).1 } in
      ground (arith, begin_recovery_frame ops q now (bytes "backend open failed"))

  handle_event-turns :
      (ops : Backend B) (p : Port B) (now : ℕ) (e : BackendEvent) (t : EventType)
      → p.state ≡ waiting
      → turns_to waiting (handle_event ops p now e t).state ≡ true
  unfolding handle_event transition transition_allowed notify_completion clear_active
  handle_event-turns ops p now e no_event s = ground arith
  handle_event-turns ops p now e transmitted s = ground arith
  handle_event-turns ops p now e response s = ground arith
  handle_event-turns ops p now e malformed s =
      ap (turns_to waiting) (begin_recovery_frame ops _ now _ (ground arith)).0
  handle_event-turns ops p now e failure s =
      ap (turns_to waiting) (begin_recovery_frame ops _ now _ (ground arith)).0

  check_response_deadline-turns :
      (ops : Backend B) (p : Port B) (now : ℕ)
      → p.state ≡ waiting
      → turns_to waiting (check_response_deadline ops p now).state ≡ true
  unfolding check_response_deadline notify_completion transition_allowed
  check_response_deadline-turns ops p now s =
      elim (Bool-cases (p.has_active && deadline_expired p.active.response_deadline now)) [
        | inl late ↦
            rw late (ap (turns_to waiting) (begin_recovery_frame ops _ now _ (ground arith)).0)
        | inr early ↦ rw early (ground arith)
      ]

  step_waiting-turns :
      (ops : Backend B) (p : Port B) (now : ℕ)
      → p.state ≡ waiting
      → turns_to waiting (step_waiting ops p now).state ≡ true
  unfolding step_waiting
  step_waiting-turns ops p now s =
      let (result, event, context) = ops.poll p.backend_context now in
      let q : Port B = record p { backend_context = context } in
      ground (
        arith,
        handle_event-turns ops q now event event.type s,
        check_response_deadline-turns ops q now s,
      )

  step_active-turns :
      (ops : Backend B) (p : Port B) (now : ℕ)
      → p.state ≡ active
      → turns_to active (step_active ops p now).state ≡ true
  unfolding step_active transition transition_allowed notify_completion
  step_active-turns ops p now s =
      elim (Bool-cases (is_zero (ops.start p.backend_context p.active now).0)) [
        | inl ok ↦ rw ok (ground arith)
        | inr bad ↦
            rw bad (ap (turns_to active) (begin_recovery_frame ops _ now _ (ground arith)).0)
      ]

  step_recovering-turns :
      (ops : Backend B) (p : Port B) (now : ℕ)
      → p.state ≡ recovering
      → turns_to recovering (step_recovering ops p now).state ≡ true
  unfolding step_recovering attempt_recovery discard_event transition transition_allowed
  step_recovering-turns ops p now s = ground arith

  step_reconfiguring-turns :
      (ops : Backend B) (p : Port B) (now : ℕ)
      → p.state ≡ reconfiguring
      → turns_to reconfiguring (step_reconfiguring ops p now).state ≡ true
  unfolding step_reconfiguring force_rollback apply_staged adopt_staged roll_back set_error
      transition transition_allowed
  step_reconfiguring-turns ops p now s = ground arith

  step_stopping-turns :
      (ops : Backend B) (p : Port B) (now : ℕ)
      → p.state ≡ stopping
      → turns_to stopping (step_stopping ops p now).state ≡ true
  unfolding step_stopping set_error transition transition_allowed
  step_stopping-turns ops p now s = ground arith

  activate-turns :
      (p : Port B) (now : ℕ) → p.state ≡ ready → turns_to ready (activate p now).state ≡ true
  unfolding activate transition transition_allowed
  activate-turns p now s = ground arith

  ready_loop-turns :
      (fuel : ℕ) (p : Port B) (now : ℕ)
      → p.state ≡ ready
      → turns_to ready (ready_loop fuel p now).state ≡ true
  unfolding ready_loop
  ready_loop-turns zero p now s = ap (turns_to ready) s
  ready_loop-turns (suc fuel) p now s = elim (Option-cases (pop p.queue)) [
    | inl e ↦ rw (e, ready_loop) (ap (turns_to ready) s)
    | inr ((t, q), e) ↦ elim (Bool-cases (deadline_expired t.queue_deadline now)) [
      | inl late ↦
          rw (e, ready_loop)
            (rw late (ready_loop-turns fuel _ now ((expire_taken_frame p t q).0 ∙ s)))
      | inr early ↦ rw (e, ready_loop) (rw early (activate-turns _ now (unfold update_depth in s)))
    ]
  ]

  step_in-turns :
      (s : PortState) (ops : Backend B) (p : Port B) (now : ℕ)
      → p.state ≡ s
      → turns_to s (step_in s ops p now).state ≡ true
  unfolding step_in step_ready
  step_in-turns disabled ops p now s = ap (turns_to disabled) s
  step_in-turns degraded ops p now s = ap (turns_to degraded) s
  step_in-turns error ops p now s = ap (turns_to error) s
  step_in-turns starting ops p now s = step_starting-turns ops p now s
  step_in-turns active ops p now s = step_active-turns ops p now s
  step_in-turns waiting ops p now s = step_waiting-turns ops p now s
  step_in-turns recovering ops p now s = step_recovering-turns ops p now s
  step_in-turns reconfiguring ops p now s = step_reconfiguring-turns ops p now s
  step_in-turns stopping ops p now s = step_stopping-turns ops p now s
  step_in-turns ready ops p now s = ready_loop-turns p.queue.count p now s

  -- A turn at a complete backend leads from a state only to those of `turns_to`.
  pub step-turns :
      (ops : Backend B) (p : Port B) (now : ℕ)
      → ops.complete ≡ true
      → turns_to p.state (step ops p now).state ≡ true
  unfolding step
  step-turns ops p now c =
      ap (λ (q : Port B). turns_to p.state q.state) (if_then _ _ _ c)
      ∙ step_in-turns p.state ops p now refl

  pub step-incomplete :
      (ops : Backend B) (p : Port B) (now : ℕ) → ops.complete ≡ false → step ops p now ≡ p
  unfolding step
  step-incomplete ops p now c = if_else _ _ _ c
