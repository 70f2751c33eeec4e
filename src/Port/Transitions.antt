-- ===== src/Port/Transitions.antt =====
-- The states of a port of src/core/port_runtime.c: which operation goes from which state to which,
-- and that no operation attempts a transition that the table forbids.
use moxa_4vrs_gateway.Prelude.{
  ℕ, zero, suc, ◌≡◌, refl, ap, subst, ◌∙◌, ◌⊎◌, inl, inr, Bool, true, false, ◌&&◌, List, arith,
  Bool-cases, is_zero, bytes,
}
use moxa_4vrs_gateway.Deadline.{deadline_expired}
use moxa_4vrs_gateway.Port.Invariant.{IsSound}
use moxa_4vrs_gateway.Queue.Fifo
use moxa_4vrs_gateway.Port.State.{
  PortState, disabled, starting, ready, active, waiting, recovering, degraded, reconfiguring,
  stopping, error, EventType, no_event, response, malformed, failure, transmitted, BackendEvent,
  Backend, Port,
}
use moxa_4vrs_gateway.Port.Machine.{
  transition, transition_allowed, abandon_active, begin_recovery, clear_active, notify_completion,
  set_error, update_depth,
}
use moxa_4vrs_gateway.Port.Step.{
  adopt_staged, attempt_recovery, check_response_deadline, discard_event, force_rollback,
  handle_event, roll_back, step_active, step_starting, step_stopping, activate, apply_staged,
  expire_queued, ready_loop, step, step_reconfiguring, step_recovering, step_waiting, step_in,
  step_ready,
}
use moxa_4vrs_gateway.Queue.Fifo.{pop_refines}
use moxa_4vrs_gateway.Transaction.{Transaction}
use moxa_4vrs_gateway.Queue.{TransactionQueue}

-- The states in which a transaction is at the backend.
abbrev pub is_busy : PortState → Bool
is_busy active = true
is_busy waiting = true
is_busy _ = false

-- How the state of a port goes on: along the table, if it changes, with nothing counted as illegal,
-- and with an active transaction in exactly the busy states.
pub record Moved {B : Type 0} (p q : Port B) : Type 0 where
  pub busy : q.has_active ≡ is_busy q.state
  pub edge : (q.state ≡ p.state) ⊎ (transition_allowed p.state q.state ≡ true)
  pub legal : q.stats.illegal_transitions ≡ p.stats.illegal_transitions

module _ {B : Type 0} where
  pub begin_recovery-Moved :
      (ops : Backend B) (p : Port B) (now : ℕ) (m : List ℕ)
      → transition_allowed p.state recovering ≡ true
      → Moved p (begin_recovery ops p now m)
  unfolding begin_recovery abandon_active clear_active set_error transition
  begin_recovery-Moved ops p now m a = ground arith

  pub begin_recovery_frame :
      (ops : Backend B) (p : Port B) (now : ℕ) (m : List ℕ)
      → transition_allowed p.state recovering ≡ true
      → ((begin_recovery ops p now m).state ≡ recovering)
        × ((begin_recovery ops p now m).has_active ≡ false)
        × ((begin_recovery ops p now m).queue ≡ p.queue)
  unfolding begin_recovery abandon_active clear_active set_error transition
  begin_recovery_frame ops p now m a = ground arith

  -- A notification and a new status of the active transaction move nothing.
  transition-Moved :
      (p p' q : Port B)
      → p'.state ≡ p.state
      → p'.stats.illegal_transitions ≡ p.stats.illegal_transitions
      → Moved p' q
      → Moved p q
  transition-Moved p p' q s l m = ground (arith)

  module _ (ops : Backend B) (p : Port B) (now : ℕ) (busy : p.has_active ≡ is_busy p.state) where
    step_starting-Moved : p.state ≡ starting → Moved p (step_starting ops p now)
    unfolding step_starting transition transition_allowed
    step_starting-Moved s = ground (
      arith,
      begin_recovery-Moved ops
          (record p { backend_context = (ops.open_device p.backend_context now).1 }) now
          (bytes "backend open failed"),
    )

    handle_event-Moved :
        (e : BackendEvent) (t : EventType)
        → p.state ≡ waiting
        → Moved p (handle_event ops p now e t)
    unfolding handle_event transition transition_allowed clear_active notify_completion
    handle_event-Moved e no_event s = ground arith
    handle_event-Moved e transmitted s = ground arith
    handle_event-Moved e response s = ground arith
    handle_event-Moved e malformed s =
        transition-Moved p _ _ refl refl (begin_recovery-Moved ops _ now _ (ground arith))
    handle_event-Moved e failure s =
        transition-Moved p _ _ refl refl (begin_recovery-Moved ops _ now _ (ground arith))

    check_response_deadline-Moved : p.state ≡ waiting → Moved p (check_response_deadline ops p now)
    unfolding check_response_deadline notify_completion transition_allowed
    check_response_deadline-Moved s =
        elim (Bool-cases (p.has_active && deadline_expired p.active.response_deadline now)) [
          | inl late ↦
              rw late
                (transition-Moved p _ _ refl refl (begin_recovery-Moved ops _ now _ (ground arith)))
          | inr early ↦ rw early (ground arith)
        ]

    attempt_recovery-Moved : p.state ≡ recovering → Moved p (attempt_recovery ops p now)
    unfolding attempt_recovery transition transition_allowed
    attempt_recovery-Moved s = ground arith

    pub discard_event-Moved :
        Moved p (discard_event ops p now) × ((discard_event ops p now).state ≡ p.state)
    unfolding discard_event
    discard_event-Moved = ground arith

    step_stopping-Moved : p.state ≡ stopping → Moved p (step_stopping ops p now)
    unfolding step_stopping transition transition_allowed set_error
    step_stopping-Moved s = ground arith

    adopt_staged-Moved : p.state ≡ reconfiguring → Moved p (adopt_staged p)
    unfolding adopt_staged transition transition_allowed
    adopt_staged-Moved s = ground arith

    force_rollback-Moved : p.state ≡ reconfiguring → Moved p (force_rollback ops p now)
    unfolding force_rollback transition transition_allowed set_error
    force_rollback-Moved s = ground arith

    roll_back-Moved : p.state ≡ reconfiguring → Moved p (roll_back ops p now)
    unfolding roll_back transition transition_allowed set_error
    roll_back-Moved s = ground arith

    step_active-Moved : p.state ≡ active → Moved p (step_active ops p now)
    unfolding step_active transition transition_allowed notify_completion
    step_active-Moved s = elim (Bool-cases (is_zero (ops.start p.backend_context p.active now).0)) [
      | inl ok ↦ rw ok (ground arith)
      | inr bad ↦
          rw bad
            (transition-Moved p _ _ refl refl (begin_recovery-Moved ops _ now _ (ground arith)))
    ]

  Moved-context :
      (p q : Port B) (context : B) → Moved (record p { backend_context = context }) q → Moved p q
  Moved-context p q context m = record { busy = m.busy; edge = m.edge; legal = m.legal }

  module _ (ops : Backend B) (p : Port B) (now : ℕ) (busy : p.has_active ≡ is_busy p.state) where
    step_waiting-Moved : p.state ≡ waiting → Moved p (step_waiting ops p now)
    unfolding step_waiting
    step_waiting-Moved s =
        let (result, event, context) = ops.poll p.backend_context now in
        let q : Port B = record p { backend_context = context } in
        ground (
          arith,
          Moved-context p _ context (handle_event-Moved ops q now busy event event.type s),
          Moved-context p _ context (check_response_deadline-Moved ops q now busy s),
        )

    step_recovering-Moved : p.state ≡ recovering → Moved p (step_recovering ops p now)
    unfolding step_recovering
    step_recovering-Moved s =
        let (moved, same) = discard_event-Moved ops p now busy in
        ground (
          arith,
          moved,
          transition-Moved p (discard_event ops p now) _ same moved.legal
              (attempt_recovery-Moved ops (discard_event ops p now) now moved.busy (same ∙ s)),
        )

    apply_staged-Moved : p.state ≡ reconfiguring → Moved p (apply_staged ops p now)
    unfolding apply_staged
    apply_staged-Moved s =
        let context = (ops.reconfigure p.backend_context p.staged_config now).1 in
        let q : Port B = record p { backend_context = context } in
        ground (
          arith,
          Moved-context p _ context (adopt_staged-Moved ops q now busy s),
          Moved-context p _ context (roll_back-Moved ops q now busy s),
        )

    step_reconfiguring-Moved : p.state ≡ reconfiguring → Moved p (step_reconfiguring ops p now)
    unfolding step_reconfiguring
    step_reconfiguring-Moved s =
        ground (arith, force_rollback-Moved ops p now busy s, apply_staged-Moved s)

  activate-Moved :
      (p q : Port B) (now : ℕ)
      → p.state ≡ ready
      → q.state ≡ ready
      → q.stats.illegal_transitions ≡ p.stats.illegal_transitions
      → Moved p (activate q now)
  unfolding activate transition transition_allowed
  activate-Moved p q now s t l = ground arith

  taken_frame :
      (p : Port B) (t : Transaction) (q : TransactionQueue)
      → let r = update_depth (record p { queue = q; active = t }) in
        (r.state ≡ p.state) × (r.stats.illegal_transitions ≡ p.stats.illegal_transitions)
  unfolding update_depth
  taken_frame p t q = (refl, refl)

  -- What remains of the port when the transaction just taken has expired.
  pub expire_taken_frame :
      (p : Port B) (t : Transaction) (q : TransactionQueue)
      → let r = expire_queued (update_depth (record p { queue = q; active = t })) in
        (r.state ≡ p.state)
        × (r.has_active ≡ false)
        × (r.stats.illegal_transitions ≡ p.stats.illegal_transitions)
        × (q ≡ r.queue)
  unfolding expire_queued clear_active notify_completion update_depth
  expire_taken_frame p t q = (refl, refl, refl, refl)

  ready_loop-Moved :
      (fuel : ℕ) (p : Port B) (now : ℕ)
      → p.has_active ≡ false
      → p.state ≡ ready
      → Fifo.IsValid p.queue
      → Moved p (ready_loop fuel p now)
  unfolding ready_loop
  ready_loop-Moved zero p now idle s v = ground arith
  ready_loop-Moved (suc fuel) p now idle s v = elim (pop_refines p.queue v) [
    | inl (e, _) ↦ rw (e, ready_loop) (ground arith)
    | inr (t, q, e, _, w) ↦ elim (Bool-cases (deadline_expired t.queue_deadline now)) [
      | inl late ↦
          let (same, cleared, legal, left) = expire_taken_frame p t q in
          rw (e, ready_loop)
            (rw late (
              transition-Moved p _ _ same legal
                (ready_loop-Moved fuel _ now cleared (same ∙ s) (subst Fifo.IsValid left w))))
      | inr early ↦
          rw (e, ready_loop)
            (rw early (activate-Moved p _ now s ((taken_frame p t q).0 ∙ s) (taken_frame p t q).1))
    ]
  ]

  step_in-Moved :
      (s : PortState) (ops : Backend B) (p : Port B) (now : ℕ)
      → p.state ≡ s
      → IsSound p
      → p.has_active ≡ is_busy p.state
      → Moved p (step_in s ops p now)
  unfolding step_in step_ready
  step_in-Moved disabled ops p now s v busy = record { busy = busy; edge = inl refl; legal = refl }
  step_in-Moved degraded ops p now s v busy = record { busy = busy; edge = inl refl; legal = refl }
  step_in-Moved error ops p now s v busy = record { busy = busy; edge = inl refl; legal = refl }
  step_in-Moved starting ops p now s v busy = step_starting-Moved ops p now busy s
  step_in-Moved active ops p now s v busy = step_active-Moved ops p now busy s
  step_in-Moved waiting ops p now s v busy = step_waiting-Moved ops p now busy s
  step_in-Moved recovering ops p now s v busy = step_recovering-Moved ops p now busy s
  step_in-Moved reconfiguring ops p now s v busy = step_reconfiguring-Moved ops p now busy s
  step_in-Moved stopping ops p now s v busy = step_stopping-Moved ops p now busy s
  step_in-Moved ready ops p now s v busy =
      ready_loop-Moved p.queue.count p now (busy ∙ ap is_busy s) s v.queued

  -- A turn of a sound port, with an active transaction exactly in the busy states, keeps that, and
  -- leaves the state or changes it along the table; it attempts no transition that the table forbids.
  pub step-Moved :
      (ops : Backend B) (p : Port B) (now : ℕ)
      → IsSound p
      → p.has_active ≡ is_busy p.state
      → Moved p (step ops p now)
  unfolding step
  step-Moved ops p now v busy = ground (arith, step_in-Moved p.state ops p now refl v busy)
