-- ===== src/Port/Invariant.antt =====
-- The invariant of a port of src/core/port_runtime.c on its queue, its numbers and its statistics.
use moxa_4vrs_gateway.Port.Step.{
  activate, adopt_staged, attempt_recovery, check_response_deadline, following_generation,
  handle_event, step_active, step_starting, step_stopping, step_reconfiguring, step_recovering,
  step_waiting, discard_event, apply_staged, force_rollback, ready_loop, roll_back, expire_queued,
}
use moxa_4vrs_gateway.Deadline.{deadline_expired}
use moxa_4vrs_gateway.Port.State.{
  no_event, response, malformed, failure, transmitted, ready, Backend, BackendEvent, EventType,
  Port, PortConfig, PortState,
}
use moxa_4vrs_gateway.Queue.Fifo.{pop_refines}
use moxa_4vrs_gateway.Prelude.{
  ℕ, zero, suc, ◌≤◌, ◌<◌, ◌≡◌, refl, ◌⊎◌, inl, inr, false, ◌&&◌, List, arith, Bool-cases, u32_mod,
  is_zero, bytes,
}
use moxa_4vrs_gateway.Transaction.{Transaction, TransactionStatus}
use moxa_4vrs_gateway.Queue.{empty, TransactionQueue}
use moxa_4vrs_gateway.Queue.Fifo
use moxa_4vrs_gateway.Port.Machine.{
  transition, abandon_active, begin_recovery, bump_illegal, clear_active, init, notify_completion,
  set_error, update_depth,
}

-- The queue is valid and its depth is what the statistics say; the active transaction carries the
-- generation of the port; identifiers and generations are 32-bit numbers, and no identifier is 0.
pub record IsSound {B : Type 0} (p : Port B) : Type 0 where
  pub queued : Fifo.IsValid p.queue
  pub current : (p.has_active ≡ false) ⊎ (p.active.generation ≡ p.generation)
  pub depth : p.stats.queue_depth ≡ p.queue.count
  pub high_water : p.stats.queue_depth ≤ p.stats.queue_high_water
  pub id_known : (0 < p.next_transaction_id) × (p.next_transaction_id < u32_mod)
  pub generation_in : p.generation < u32_mod

module _ {B : Type 0} where
  pub init-IsSound :
      (index : ℕ) (config : PortConfig) (context : B) → IsSound (init index config context)
  unfolding init empty
  init-IsSound index config context = ground (arith)

  pub notify_completion-IsSound :
      (p : Port B) (t : Transaction) (status : TransactionStatus) (r : List ℕ) (n : ℕ)
      → IsSound p
      → IsSound (notify_completion p t status r n)
  unfolding notify_completion
  notify_completion-IsSound p t status r n v = record {
    queued = v.queued;
    current = v.current;
    depth = v.depth;
    high_water = v.high_water;
    id_known = v.id_known;
    generation_in = v.generation_in;
  }

  pub clear_active-IsSound : (p : Port B) → IsSound p → IsSound (clear_active p)
  unfolding clear_active
  clear_active-IsSound p v = record {
    queued = v.queued;
    current = inl refl;
    depth = v.depth;
    high_water = v.high_water;
    id_known = v.id_known;
    generation_in = v.generation_in;
  }

  set_error-IsSound : (p : Port B) (m : List ℕ) → IsSound p → IsSound (set_error p m)
  unfolding set_error
  set_error-IsSound p m v = record {
    queued = v.queued;
    current = v.current;
    depth = v.depth;
    high_water = v.high_water;
    id_known = v.id_known;
    generation_in = v.generation_in;
  }

  pub transition-IsSound :
      (p : Port B) (next : PortState) → IsSound p → IsSound (transition p next).1
  unfolding transition bump_illegal set_error
  transition-IsSound p next v = ground arith

  pub begin_recovery-IsSound :
      (ops : Backend B) (p : Port B) (now : ℕ) (m : List ℕ)
      → IsSound p
      → IsSound (begin_recovery ops p now m)
  unfolding begin_recovery abandon_active clear_active set_error
  begin_recovery-IsSound ops p now m v = transition-IsSound _ _ (ground arith)

  -- The helpers that follow one another in an operation.
  ruleset helpers = (
    notify_completion-IsSound, clear_active-IsSound, set_error-IsSound, transition-IsSound,
    begin_recovery-IsSound,
  )

  module _ (ops : Backend B) (p : Port B) (now : ℕ) (v : IsSound p) where
    pub step_starting-IsSound : IsSound (step_starting ops p now)
    unfolding step_starting
    step_starting-IsSound = ground (
      arith,
      transition-IsSound
          (record p {
            backend_context = (ops.open_device p.backend_context now).1;
            recovery_attempts = 0;
          })
          ready,
      begin_recovery-IsSound ops
          (record p { backend_context = (ops.open_device p.backend_context now).1 }) now
          (bytes "backend open failed"),
    )

    handle_event-IsSound : (e : BackendEvent) (t : EventType) → IsSound (handle_event ops p now e t)
    unfolding handle_event
    handle_event-IsSound e no_event = v
    handle_event-IsSound e transmitted = ground arith
    handle_event-IsSound e response =
        transition-IsSound _ _
          (clear_active-IsSound _ (notify_completion-IsSound _ _ _ _ _ (ground arith)))
    handle_event-IsSound e malformed =
        begin_recovery-IsSound ops _ now _ (notify_completion-IsSound _ _ _ _ _ (ground arith))
    handle_event-IsSound e failure =
        begin_recovery-IsSound ops _ now _ (notify_completion-IsSound _ _ _ _ _ (ground arith))

    check_response_deadline-IsSound : IsSound (check_response_deadline ops p now)
    unfolding check_response_deadline
    check_response_deadline-IsSound =
        elim (Bool-cases (p.has_active && deadline_expired p.active.response_deadline now)) [
          | inl late ↦ rw late (
              begin_recovery-IsSound ops _ now _
                (notify_completion-IsSound _ _ _ _ _ (ground arith)))
          | inr early ↦ rw early v
        ]

    attempt_recovery-IsSound : IsSound (attempt_recovery ops p now)
    unfolding attempt_recovery transition bump_illegal set_error
    attempt_recovery-IsSound = ground arith

    pub step_stopping-IsSound : IsSound (step_stopping ops p now)
    unfolding step_stopping transition bump_illegal set_error
    step_stopping-IsSound = ground arith

    adopt_staged-IsSound : IsSound (adopt_staged p)
    unfolding adopt_staged transition bump_illegal set_error
    adopt_staged-IsSound = ground arith

    pub step_active-IsSound : IsSound (step_active ops p now)
    unfolding step_active
    step_active-IsSound = elim (Bool-cases (is_zero (ops.start p.backend_context p.active now).0)) [
      | inl ok ↦ rw ok (transition-IsSound _ _ (ground arith))
      | inr bad ↦
          rw bad (
            begin_recovery-IsSound ops _ now _ (notify_completion-IsSound _ _ _ _ _ (ground arith)))
    ]

    discard_event-IsSound : IsSound (discard_event ops p now)
    unfolding discard_event
    discard_event-IsSound = ground arith

    force_rollback-IsSound : IsSound (force_rollback ops p now)
    unfolding force_rollback transition bump_illegal set_error
    force_rollback-IsSound = ground arith

    roll_back-IsSound : IsSound (roll_back ops p now)
    unfolding roll_back transition bump_illegal set_error
    roll_back-IsSound = ground arith

  activate-IsSound : (p : Port B) (now : ℕ) → IsSound p → IsSound (activate p now)
  unfolding activate following_generation
  activate-IsSound p now v = transition-IsSound _ _ (ground arith)

  pub context-IsSound :
      (p : Port B) (context : B) → IsSound p → IsSound (record p { backend_context = context })
  context-IsSound p context v = record {
    queued = v.queued;
    current = v.current;
    depth = v.depth;
    high_water = v.high_water;
    id_known = v.id_known;
    generation_in = v.generation_in;
  }

  module _ (ops : Backend B) (p : Port B) (now : ℕ) (v : IsSound p) where
    pub step_waiting-IsSound : IsSound (step_waiting ops p now)
    unfolding step_waiting
    step_waiting-IsSound =
        let (result, event, context) = ops.poll p.backend_context now in
        let polled = context-IsSound p context v in
        ground (
          arith,
          handle_event-IsSound ops _ now polled event event.type,
          check_response_deadline-IsSound ops _ now polled,
        )

    pub step_recovering-IsSound : IsSound (step_recovering ops p now)
    unfolding step_recovering
    step_recovering-IsSound =
        let polled = discard_event-IsSound ops p now v in
        ground (arith, polled, attempt_recovery-IsSound ops _ now polled)

    apply_staged-IsSound : IsSound (apply_staged ops p now)
    unfolding apply_staged
    apply_staged-IsSound =
        let tried = context-IsSound p (ops.reconfigure p.backend_context p.staged_config now).1 v in
        ground (arith, adopt_staged-IsSound ops _ now tried, roll_back-IsSound ops _ now tried)

    pub step_reconfiguring-IsSound : IsSound (step_reconfiguring ops p now)
    unfolding step_reconfiguring
    step_reconfiguring-IsSound =
        ground (arith, force_rollback-IsSound ops p now v, apply_staged-IsSound)

  taken-IsSound :
      (p : Port B) (t : Transaction) (q : TransactionQueue)
      → IsSound p
      → p.has_active ≡ false
      → Fifo.IsValid q
      → IsSound (update_depth (record p { queue = q; active = t }))
  unfolding update_depth
  taken-IsSound p t q v idle w = record {
    queued = w;
    current = inl idle;
    depth = refl;
    high_water = ground arith;
    id_known = v.id_known;
    generation_in = v.generation_in;
  }

  expire_queued-IsSound : (p : Port B) → IsSound p → IsSound (expire_queued p)
  unfolding expire_queued
  expire_queued-IsSound p v =
      clear_active-IsSound _ (notify_completion-IsSound _ _ _ _ _ (ground arith))

  pub ready_loop-IsSound :
      (fuel : ℕ) (p : Port B) (now : ℕ)
      → p.has_active ≡ false
      → IsSound p
      → IsSound (ready_loop fuel p now)
  unfolding ready_loop
  ready_loop-IsSound zero p now idle v = v
  ready_loop-IsSound (suc fuel) p now idle v = elim (pop_refines p.queue v.queued) [
    | inl (e, _) ↦ rw (e, ready_loop) v
    | inr (t, q, e, _, w) ↦
        let taken = taken-IsSound p t q v idle w in
        elim (Bool-cases (deadline_expired t.queue_deadline now)) [
          | inl late ↦
              rw (e, ready_loop)
                (rw late (
                  ready_loop-IsSound fuel _ now (unfold expire_queued clear_active in refl)
                    (expire_queued-IsSound _ taken)))
          | inr early ↦ rw (e, ready_loop) (rw early (activate-IsSound _ now taken))
        ]
  ]
