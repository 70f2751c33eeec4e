-- ===== src/Port/History.antt =====
-- What becomes of the transactions that a port of src/core/port_runtime.c accepts: each is told its
-- outcome once, is at the backend, or waits in the queue.
use moxa_4vrs_gateway.Prelude.{
  ℕ, zero, suc, ◌≡◌, refl, ap, subst, ◌∙◌, inl, inr, true, false, ◌&&◌, List, [], ◌∷◌, ◌++◌, map,
  append_assoc, map-append, arith, if◌then◌else◌, Bool-cases, if_cases, if_then, if_else, is_zero,
  bytes,
}
use moxa_4vrs_gateway.Transaction.{Transaction, TransactionStatus}
use moxa_4vrs_gateway.Queue.Fifo
use moxa_4vrs_gateway.Queue.Fifo.{contents, pop_refines}
use moxa_4vrs_gateway.Port.State.{
  Backend, Port, Completion, PortState, active, EventType, no_event, response, malformed, failure,
  transmitted, BackendEvent, starting, disabled, ready, waiting, recovering, degraded,
  reconfiguring, stopping, error,
}
use moxa_4vrs_gateway.Port.Machine.{
  transition, abandon_active, begin_recovery, bump_illegal, clear_active, notify_completion,
  set_error, update_depth,
}
use moxa_4vrs_gateway.Deadline.{deadline_expired}
use moxa_4vrs_gateway.Port.Step.{
  check_response_deadline, handle_event, step_active, adopt_staged, attempt_recovery, discard_event,
  force_rollback, roll_back, step_starting, step_stopping, step, activate, apply_staged,
  expire_queued, ready_loop, step_in, step_ready, step_reconfiguring, step_recovering, step_waiting,
}
use moxa_4vrs_gateway.Port.Transitions.{is_busy, discard_event-Moved, expire_taken_frame}
use moxa_4vrs_gateway.Queue.{TransactionQueue}
use moxa_4vrs_gateway.Port.Valid.{IsValid}

abbrev pub told_ids : List Completion → List ℕ
told_ids = map (λ c. c.transaction.id)

abbrev pub queued_ids : List Transaction → List ℕ
queued_ids = map (λ t. t.id)

module _ {B : Type 0} where
  abbrev pub active_ids : Port B → List ℕ
  active_ids p = if p.has_active then p.active.id ∷ [] else []

  -- The identifiers of the transactions whose outcome was told, then of the active one, then of
  -- those in the queue.
  abbrev pub history : Port B → List ℕ
  history p = told_ids p.completions ++ (active_ids p ++ queued_ids (contents p.queue))

  -- A callback is installed and stays so, and the history is the same.
  pub record Same (p q : Port B) : Type 0 where
    pub completion : q.completion ≡ p.completion
    pub history : history q ≡ history p

  -- Recovery forgets an active transaction: it has been told before.
  pub begin_recovery-history :
      (ops : Backend B) (p : Port B) (now : ℕ) (m : List ℕ)
      → (history (begin_recovery ops p now m)
          ≡ told_ids p.completions ++ queued_ids (contents p.queue))
        × ((begin_recovery ops p now m).completion ≡ p.completion)
  unfolding begin_recovery abandon_active clear_active set_error transition bump_illegal
  begin_recovery-history ops p now m = ground arith

  -- The active transaction is told its outcome, and then leaves.
  told_active :
      (p q : Port B) (t : Transaction) (status : TransactionStatus) (r : List ℕ) (n : ℕ)
      → p.completion ≡ true
      → p.has_active ≡ true
      → t.id ≡ p.active.id
      → q.completions ≡ p.completions
      → q.queue ≡ p.queue
      → q.completion ≡ p.completion
      → let s = notify_completion q t status r n in
        (told_ids s.completions ++ queued_ids (contents s.queue) ≡ history p)
        × (s.completion ≡ p.completion)
  unfolding notify_completion
  told_active p q t status r n on busy same_id a b c =
      (simp (c, on, a, b, busy, same_id, map-append, append_assoc), c)

  -- An active transaction that fails is told so, and recovery begins.
  fail_active :
      (ops : Backend B) (p q : Port B) (t : Transaction) (status : TransactionStatus) (r : List ℕ)
      (n now : ℕ) (m : List ℕ)
      → p.completion ≡ true
      → p.has_active ≡ true
      → t.id ≡ p.active.id
      → q.completions ≡ p.completions
      → q.queue ≡ p.queue
      → q.completion ≡ p.completion
      → Same p (begin_recovery ops (notify_completion q t status r n) now m)
  fail_active ops p q t status r n now m on busy same_id a b c =
      let (left, kept) = begin_recovery-history ops (notify_completion q t status r n) now m in
      let (told, kept') = told_active p q t status r n on busy same_id a b c in
      record { completion = kept ∙ kept'; history = left ∙ told }

  pub finish_active :
      (p q : Port B) (t : Transaction) (status : TransactionStatus) (r : List ℕ) (n : ℕ)
      → p.completion ≡ true
      → p.has_active ≡ true
      → t.id ≡ p.active.id
      → q.completions ≡ p.completions
      → q.queue ≡ p.queue
      → q.completion ≡ p.completion
      → Same p (clear_active (notify_completion q t status r n))
  unfolding clear_active
  finish_active p q t status r n on busy same_id a b c =
      let (told, kept) = told_active p q t status r n on busy same_id a b c in
      record { completion = kept; history = told }

  module _ (ops : Backend B) (p : Port B) (now : ℕ) (on : p.completion ≡ true)
      (busy : p.has_active ≡ is_busy p.state) where
    transition-Same : (q : Port B) (next : PortState) → Same p q → Same p (transition q next).1
    unfolding transition set_error bump_illegal
    transition-Same q next s = ground (arith, s.completion, s.history)

    handle_event-Same :
        (e : BackendEvent) (t : EventType)
        → p.has_active ≡ true
        → Same p (handle_event ops p now e t)
    unfolding handle_event
    handle_event-Same e no_event h = record { completion = refl; history = refl }
    handle_event-Same e transmitted h = record { completion = refl; history = refl }
    handle_event-Same e response h =
        transition-Same _ _ (finish_active p _ _ _ _ _ on h refl refl refl refl)
    handle_event-Same e malformed h = fail_active ops p _ _ _ _ _ now _ on h refl refl refl refl
    handle_event-Same e failure h = fail_active ops p _ _ _ _ _ now _ on h refl refl refl refl

    check_response_deadline-Same : Same p (check_response_deadline ops p now)
    unfolding check_response_deadline
    check_response_deadline-Same =
        elim (Bool-cases (p.has_active && deadline_expired p.active.response_deadline now)) [
          | inl late ↦
              rw (if_then _ _ _ late)
                (fail_active ops p _ _ _ _ _ now _ on (ground arith) refl refl refl refl)
          | inr early ↦ rw (if_else _ _ _ early) (record { completion = refl; history = refl })
        ]

    step_active-Same : p.state ≡ active → Same p (step_active ops p now)
    unfolding step_active
    step_active-Same s = elim (Bool-cases (is_zero (ops.start p.backend_context p.active now).0)) [
      | inl ok ↦
          rw (if_then _ _ _ ok) (transition-Same _ _ (record { completion = refl; history = refl }))
      | inr bad ↦
          rw (if_else _ _ _ bad)
            (fail_active ops p _ _ _ _ _ now _ on (busy ∙ ap is_busy s) refl refl refl refl)
    ]

    step_starting-Same : p.state ≡ starting → Same p (step_starting ops p now)
    unfolding step_starting
    step_starting-Same s =
        let (result, context) = ops.open_device p.backend_context now in
        let q : Port B = record p { backend_context = context } in
        let (left, kept) = begin_recovery-history ops q now (bytes "backend open failed") in
        let idle : p.has_active ≡ false = busy ∙ ap is_busy s in
        ground (
          arith,
          left,
          kept,
          idle,
          transition-Same (record q { recovery_attempts = 0 }) ready
              (record { completion = refl; history = refl }),
        )

    discard_event-Same : Same p (discard_event ops p now)
    unfolding discard_event
    discard_event-Same = ground arith

    attempt_recovery-Same : Same p (attempt_recovery ops p now)
    unfolding attempt_recovery transition set_error bump_illegal
    attempt_recovery-Same = ground arith

    step_stopping-Same : Same p (step_stopping ops p now)
    unfolding step_stopping transition set_error bump_illegal
    step_stopping-Same = ground arith

    adopt_staged-Same : Same p (adopt_staged p)
    unfolding adopt_staged transition set_error bump_illegal
    adopt_staged-Same = ground arith

    force_rollback-Same : Same p (force_rollback ops p now)
    unfolding force_rollback transition set_error bump_illegal
    force_rollback-Same = ground arith

    roll_back-Same : Same p (roll_back ops p now)
    unfolding roll_back transition set_error bump_illegal
    roll_back-Same = ground arith

  pub Same-trans : (p q r : Port B) → Same p q → Same q r → Same p r
  Same-trans p q r s t = record {
    completion = t.completion ∙ s.completion;
    history = t.history ∙ s.history;
  }

  Same-context :
      (p q : Port B) (context : B) → Same (record p { backend_context = context }) q → Same p q
  Same-context p q context s = record { completion = s.completion; history = s.history }

  module _ (ops : Backend B) (p : Port B) (now : ℕ) (on : p.completion ≡ true)
      (busy : p.has_active ≡ is_busy p.state) where
    step_waiting-Same : p.state ≡ waiting → Same p (step_waiting ops p now)
    unfolding step_waiting
    step_waiting-Same s =
        let (result, event, context) = ops.poll p.backend_context now in
        let q : Port B = record p { backend_context = context } in
        ground (
          arith,
          Same-context p _ context
              (handle_event-Same ops q now on busy event event.type (busy ∙ ap is_busy s)),
          Same-context p _ context (check_response_deadline-Same ops q now on busy),
        )

    step_recovering-Same : p.state ≡ recovering → Same p (step_recovering ops p now)
    unfolding step_recovering
    step_recovering-Same s =
        let (moved, same) = discard_event-Moved ops p now busy in
        let polled = discard_event-Same ops p now on busy in
        ground (
          arith,
          polled,
          Same-trans p (discard_event ops p now) _ polled (
              attempt_recovery-Same ops (discard_event ops p now) now (polled.completion ∙ on)
                moved.busy),
        )

    apply_staged-Same : Same p (apply_staged ops p now)
    unfolding apply_staged
    apply_staged-Same =
        let context = (ops.reconfigure p.backend_context p.staged_config now).1 in
        let q : Port B = record p { backend_context = context } in
        ground (
          arith,
          Same-context p _ context (adopt_staged-Same ops q now on busy),
          Same-context p _ context (roll_back-Same ops q now on busy),
        )

    step_reconfiguring-Same : Same p (step_reconfiguring ops p now)
    unfolding step_reconfiguring
    step_reconfiguring-Same =
        ground (arith, force_rollback-Same ops p now on busy, apply_staged-Same)

  module _ (p : Port B) (t : Transaction) (q : TransactionQueue)
      (c : contents p.queue ≡ t ∷ contents q) (idle : p.has_active ≡ false) where
    -- The transaction just taken goes to the backend.
    activate-Same :
        (now : ℕ) → Same p (activate (update_depth (record p { queue = q; active = t })) now)
    unfolding activate update_depth transition set_error bump_illegal
    activate-Same now = ground (arith, c, idle)

    -- Or its time is over.
    expire_taken-Same :
        p.completion ≡ true
        → Same p (expire_queued (update_depth (record p { queue = q; active = t })))
    unfolding expire_queued update_depth clear_active notify_completion
    expire_taken-Same on = record {
      completion = refl;
      history = simp (on, idle, c, map-append, append_assoc);
    }

  ready_loop-Same :
      (fuel : ℕ) (p : Port B) (now : ℕ)
      → p.completion ≡ true
      → p.has_active ≡ false
      → Fifo.IsValid p.queue
      → Same p (ready_loop fuel p now)
  unfolding ready_loop
  ready_loop-Same zero p now on idle v = record { completion = refl; history = refl }
  ready_loop-Same (suc fuel) p now on idle v = elim (pop_refines p.queue v) [
    | inl (e, _) ↦ rw (e, ready_loop) (record { completion = refl; history = refl })
    | inr (t, q, e, c, w) ↦ elim (Bool-cases (deadline_expired t.queue_deadline now)) [
      | inl late ↦
          let (same, cleared, legal, left) = expire_taken_frame p t q in
          let expired = expire_taken-Same p t q c idle on in
          rw (e, ready_loop)
            (rw late (
              Same-trans p _ _ expired (
                ready_loop-Same fuel _ now (expired.completion ∙ on) cleared
                  (subst Fifo.IsValid left w))))
      | inr early ↦ rw (e, ready_loop) (rw early (activate-Same p t q c idle now))
    ]
  ]

  step_in-Same :
      (s : PortState) (ops : Backend B) (p : Port B) (now : ℕ)
      → p.state ≡ s
      → p.completion ≡ true
      → IsValid p
      → Same p (step_in s ops p now)
  unfolding step_in step_ready
  step_in-Same disabled ops p now s on v = record { completion = refl; history = refl }
  step_in-Same degraded ops p now s on v = record { completion = refl; history = refl }
  step_in-Same error ops p now s on v = record { completion = refl; history = refl }
  step_in-Same starting ops p now s on v = step_starting-Same ops p now on v.busy s
  step_in-Same active ops p now s on v = step_active-Same ops p now on v.busy s
  step_in-Same waiting ops p now s on v = step_waiting-Same ops p now on v.busy s
  step_in-Same recovering ops p now s on v = step_recovering-Same ops p now on v.busy s
  step_in-Same reconfiguring ops p now s on v = step_reconfiguring-Same ops p now on v.busy
  step_in-Same stopping ops p now s on v = step_stopping-Same ops p now on v.busy
  step_in-Same ready ops p now s on v =
      ready_loop-Same p.queue.count p now on (v.busy ∙ ap is_busy s) v.sound.queued

  pub step-Same :
      (ops : Backend B) (p : Port B) (now : ℕ)
      → IsValid p
      → p.completion ≡ true
      → Same p (step ops p now)
  unfolding step
  step-Same ops p now v on =
      if_cases (Same p) ops.complete (step_in p.state ops p now) p
        (λ _. step_in-Same p.state ops p now refl on v)
        (λ _. record { completion = refl; history = refl })

  -- While a callback is installed, a turn of the event loop loses, repeats and reorders no
  -- transaction: what was told, what is active and what is queued make up the same list.
  pub history-step :
      (ops : Backend B) (p : Port B) (now : ℕ)
      → IsValid p
      → p.completion ≡ true
      → history (step ops p now) ≡ history p
  history-step ops p now v on = (step-Same ops p now v on).history
