-- ===== src/Port/Outcomes.antt =====
-- What one turn of the event loop of src/core/port_runtime.c decides, state by state.
use moxa_4vrs_gateway.Prelude.{
  ℕ, zero, suc, ◌≤◌, ◌≡◌, refl, sym, ap, subst, ◌∙◌, ◌⊎◌, inl, inr, true, false, not, ◌&&◌, ◌||◌,
  List, [], ◌∷◌, ◌++◌, arith, ◌==◌, if◌then◌else◌, Bool-cases, if_then, if_else, length, take,
  length-eq-zero, ℤ, is_zero, is_pos,
}
use moxa_4vrs_gateway.Deadline.{deadline_after, deadline_expired}
use moxa_4vrs_gateway.Transaction.{Transaction, TransactionStatus}
use moxa_4vrs_gateway.Queue.{TransactionQueue}
use moxa_4vrs_gateway.Queue.Fifo
use moxa_4vrs_gateway.Queue.Fifo.{contents, pop_refines, length-contents}
use moxa_4vrs_gateway.Port.State.{
  ready, active, Port, waiting, response, Backend, PortState, BackendEvent, reconfiguring, error,
  EventType, malformed, failure, recovering, Completion,
}
use moxa_4vrs_gateway.Port.Machine.{
  transition, transition_allowed, clear_active, notify_completion, update_depth, set_error,
}
use moxa_4vrs_gateway.Port.Step.{
  activate, expire_queued, following_generation, ready_loop, step, is_event, step_in, step_ready,
  step_waiting, handle_event, adopt_staged, apply_staged, force_rollback, roll_back,
  step_reconfiguring,
}
use moxa_4vrs_gateway.Port.Valid.{IsValid}
use moxa_4vrs_gateway.Port.Transitions.{is_busy, expire_taken_frame}

-- The queue without the transactions at its head whose time is over.
unfoldable pub drop_expired : ℕ → List Transaction → List Transaction
drop_expired now [] = []
drop_expired now (t ∷ ts) =
    if deadline_expired t.queue_deadline now then drop_expired now ts else t ∷ ts

module _ {B : Type 0} where
  -- The port has taken the first of these transactions to the backend, or there is none.
  abbrev pub Dispatched : Port B → Port B → ℕ → List Transaction → Type 0
  Dispatched p q now [] = (q.state ≡ ready) × (q.has_active ≡ false) × (contents q.queue ≡ [])
  Dispatched p q now (t ∷ ts) =
      (q.state ≡ active)
      × (q.has_active ≡ true)
      × (contents q.queue ≡ ts)
      × (q.active ≡ record t {
        generation = following_generation p.generation;
        started_at = now;
        response_deadline = deadline_after now t.response_timeout;
        status = TransactionStatus.active;
      })

  activate-Dispatched :
      (p : Port B) (t : Transaction) (q : TransactionQueue) (now : ℕ)
      → p.state ≡ ready
      → Dispatched p
          (activate (update_depth (record p { queue = q; active = t })) now)
          now
          (t ∷ contents q)
  unfolding activate update_depth transition transition_allowed
  activate-Dispatched p t q now s = ground arith

  expire_generation :
      (p : Port B) (t : Transaction) (q : TransactionQueue)
      → (expire_queued (update_depth (record p { queue = q; active = t }))).generation
        ≡ p.generation
  unfolding expire_queued update_depth clear_active notify_completion
  expire_generation p t q = refl

  Dispatched-generation :
      (p q r : Port B) (now : ℕ) (ts : List Transaction)
      → q.generation ≡ p.generation
      → Dispatched q r now ts
      → Dispatched p r now ts
  Dispatched-generation p q r now [] e d = d
  Dispatched-generation p q r now (t ∷ ts) e d = rw (← e) d

  ready_loop-Dispatched :
      (fuel : ℕ) (p : Port B) (now : ℕ)
      → p.has_active ≡ false
      → p.state ≡ ready
      → Fifo.IsValid p.queue
      → length (contents p.queue) ≤ fuel
      → Dispatched p (ready_loop fuel p now) now (drop_expired now (contents p.queue))
  unfolding ready_loop drop_expired
  ready_loop-Dispatched zero p now idle s v h =
      let e = length-eq-zero (contents p.queue) (omega arith) in rw e (s, idle, e)
  ready_loop-Dispatched (suc fuel) p now idle s v h = elim (pop_refines p.queue v) [
    | inl (e, c) ↦ rw (e, ready_loop) (rw c (s, idle, c))
    | inr (t, q, e, c, w) ↦ elim (Bool-cases (deadline_expired t.queue_deadline now)) [
      | inl late ↦
          let r = expire_queued (update_depth (record p { queue = q; active = t })) in
          let (same, cleared, legal, left) = expire_taken_frame p t q in
          let later =
            ready_loop-Dispatched fuel r now cleared (same ∙ s) (subst Fifo.IsValid left w)
              (subst (λ z. length (contents z) ≤ fuel) left (omega (arith, ap length c))) in
          let moved =
            Dispatched-generation p r (ready_loop fuel r now) now
              (drop_expired now (contents r.queue)) (expire_generation p t q) later in
          rw (e, ready_loop)
            (rw c (
              rw late (
                subst
                  (λ z. Dispatched p (ready_loop fuel r now) now (drop_expired now (contents z)))
                  (sym left) moved)))
      | inr early ↦ rw (e, ready_loop) (rw c (rw early (activate-Dispatched p t q now s)))
    ]
  ]

  -- With a complete backend a turn is the one of the state that the port is in.
  step_at :
      (s : PortState) (ops : Backend B) (p : Port B) (now : ℕ)
      → ops.complete ≡ true
      → p.state ≡ s
      → step ops p now ≡ step_in s ops p now
  unfolding step
  step_at s ops p now on e = rw (if_then _ _ _ on) (ap (λ x. step_in x ops p now) e)

  -- A ready port passes over the transactions at the head of its queue whose time is over, and takes
  -- the first other one to the backend, under the next generation and with a deadline for its
  -- response; if there is none, it stays ready with an empty queue.
  pub step_ready-Dispatched :
      (ops : Backend B) (p : Port B) (now : ℕ)
      → IsValid p
      → ops.complete ≡ true
      → p.state ≡ ready
      → Dispatched p (step ops p now) now (drop_expired now (contents p.queue))
  unfolding step_in step_ready
  step_ready-Dispatched ops p now v on s = rw (step_at ready ops p now on s) (
      ready_loop-Dispatched p.queue.count p now (v.busy ∙ ap is_busy s) s v.sound.queued
        (omega (arith, length-contents p.queue)))

  -- The port has told the owner of its active transaction a response, and is ready.
  abbrev pub Answered : Port B → Port B → ℕ → BackendEvent → Type 0
  Answered p q now event =
      let t = p.active in
      (q.state ≡ ready)
      × (q.has_active ≡ false)
      × (q.stats.last_success_at ≡ now)
      × (q.completions
          ≡ p.completions
            ++ record {
              transaction = record t {
                status = TransactionStatus.completed;
                request_transmitted = true;
              };
              status = TransactionStatus.completed;
              response = take event.length event.content;
              response_length = event.length;
            }
              ∷ [])

  handle_event_response :
      (ops : Backend B) (p : Port B) (now : ℕ) (event : BackendEvent) (t : EventType)
      → t ≡ response
      → p.state ≡ waiting
      → p.completion ≡ true
      → Answered p (handle_event ops p now event t) now event
  unfolding handle_event transition transition_allowed clear_active notify_completion
  handle_event_response ops p now event t e s told =
      subst (λ x. Answered p (handle_event ops p now event x) now event) (sym e) (ground arith)

  module _ (ops : Backend B) (p : Port B) (now : ℕ) (result : ℤ) (event : BackendEvent)
      (context : B) where
    -- The status that the owner is told, what it is told for, and where the port goes.
    abbrev pub Ending : Port B → TransactionStatus → Type 0
    Ending q status =
        ((status ≡ TransactionStatus.completed)
          × (q.state ≡ ready)
          × (event.type ≡ response)
          × (event.generation ≡ p.active.generation))
        ⊎ ((status ≡ TransactionStatus.malformed)
            × (q.state ≡ recovering)
            × (event.type ≡ EventType.malformed)
            × (event.generation ≡ p.active.generation))
        ⊎ ((status ≡ TransactionStatus.failed)
            × (q.state ≡ recovering)
            × (event.type ≡ failure)
            × (event.generation ≡ p.active.generation))
        ⊎ ((status ≡ TransactionStatus.timed_out)
            × (q.state ≡ recovering)
            × ((is_pos result && is_event event.type) ≡ false)
            × (deadline_expired p.active.response_deadline now ≡ true))

    -- The owner of the active transaction is told how it ended, once, or is told nothing, and then its
    -- transaction stays active.
    abbrev pub Waited : Port B → Type 0
    Waited q =
        ((q.completions ≡ p.completions)
          × (q.state ≡ waiting)
          × (q.has_active ≡ true)
          × (q.active.id ≡ p.active.id)
          × (q.active.generation ≡ p.active.generation))
        ⊎ ((c : Completion) × (q.completions ≡ p.completions ++ c ∷ [])
            × (c.transaction.id ≡ p.active.id)
            × (q.has_active ≡ false)
            × Ending q c.status)

    -- A response to the active transaction completes it: its owner is told once, with the bytes of
    -- the response, and the port is ready for the next.
    pub step_waiting_response :
        IsValid p
        → ops.complete ≡ true
        → p.state ≡ waiting
        → p.completion ≡ true
        → ops.poll p.backend_context now ≡ (result, event, context)
        → is_pos result ≡ true
        → event.type ≡ response
        → event.generation ≡ p.generation
        → Answered p (step ops p now) now event
    unfolding step_in step_waiting
    step_waiting_response v on s told polled some_result is_response same =
        rw (step_at waiting ops p now on s) (
          rw polled (
            rw (if_then _ _ _ some_event) (
              rw (if_else _ _ _ test) (
                handle_event_response ops (record p { backend_context = context }) now event
                  event.type is_response s told))))
      where
        test : (not p.has_active || not (event.generation == p.active.generation)) ≡ false
        test = ground (arith, v.busy, ap is_busy s, v.sound.current)

        some_event : (is_pos result && is_event event.type) ≡ true
        some_event = ground arith

  -- How a reconfiguration ends: with the staged configuration in force, which the backend took
  -- before the deadline; or with the one before it, ready or in error.
  abbrev pub Settled : Backend B → Port B → Port B → ℕ → Type 0
  Settled ops p q now =
      ((q.state ≡ ready)
        × (q.current_config ≡ p.staged_config)
        × (q.known_good_config ≡ p.staged_config)
        × (deadline_expired p.state_deadline now ≡ false)
        × (is_zero (ops.reconfigure p.backend_context p.staged_config now).0 ≡ true))
      ⊎ (((q.state ≡ ready) ⊎ (q.state ≡ error))
          × (q.current_config ≡ p.current_config)
          × (q.known_good_config ≡ p.known_good_config))

  step_reconfiguring_lem :
      (ops : Backend B) (p : Port B) (now : ℕ)
      → p.state ≡ reconfiguring
      → Settled ops p (step_reconfiguring ops p now) now
  unfolding step_reconfiguring apply_staged force_rollback roll_back adopt_staged transition
      transition_allowed set_error
  step_reconfiguring_lem ops p now s = ground arith

  -- A reconfiguring port settles at its next turn, whatever the backend answers: it adopts the staged
  -- configuration only if the backend takes it before the deadline, and otherwise keeps both the
  -- current and the known good one and is ready or in error.
  pub step_reconfiguring-Settled :
      (ops : Backend B) (p : Port B) (now : ℕ)
      → ops.complete ≡ true
      → p.state ≡ reconfiguring
      → Settled ops p (step ops p now) now
  unfolding step_in
  step_reconfiguring-Settled ops p now on s =
      rw (step_at reconfiguring ops p now on s) (step_reconfiguring_lem ops p now s)
