-- ===== src/Port/Requests.antt =====
-- The requests that interrupt a port, of src/core/port_runtime.c: where each leaves the state
-- machine, and that each keeps the invariant.
use moxa_4vrs_gateway.Prelude.{
  ℕ, ◌≤◌, ◌<◌, ◌≡◌, refl, sym, ap, ◌∙◌, ◌≢◌, ◌⊎◌, inl, inr, true, false, not, ◌||◌, List, [], arith,
  ◌==◌, Bool-cases, if_then, if_else, increment, length-eq-zero, ℤ, pos, negsuc,
}
use moxa_4vrs_gateway.Port.State.{
  PortState, reconfiguring, stopping, PortConfig, Backend, Port, recovering,
}
use moxa_4vrs_gateway.Port.Machine.{
  transition, transition_allowed, clear_active, notify_completion, update_depth, config_valid,
  bump_illegal, set_error,
}
use moxa_4vrs_gateway.Port.Control.{
  flush_queue, drop_active, reconfigurable, request_reconfigure, request_stop, stopped,
  cancel_active, report_io_failure, abort_active, is_ready,
}
use moxa_4vrs_gateway.Port.Flush.{Flushed, flush_queue-Flushed, flush_queue-contents}
use moxa_4vrs_gateway.Port.Invariant.{IsSound, transition-IsSound, begin_recovery-IsSound}
use moxa_4vrs_gateway.Port.Transitions.{is_busy, begin_recovery-Moved, begin_recovery_frame}
use moxa_4vrs_gateway.Queue.Fifo.{contents, length-contents}
use moxa_4vrs_gateway.Deadline.{half_range, Deadline, ticks_valid_interval, deadline_after}
use moxa_4vrs_gateway.Port.Valid.{IsValid}
use moxa_4vrs_gateway.Transaction.{Transaction}

module _ {B : Type 0} where
  pub flush_queue-IsSound : (p : Port B) → IsSound p → IsSound (flush_queue p)
  flush_queue-IsSound p v = record {
    queued = f.queued;
    current = ground (arith, f.active, f.has_active, f.generation);
    depth = unfold flush_queue update_depth in refl;
    high_water = unfold flush_queue update_depth in ground arith;
    id_known = ground (arith, f.next_id);
    generation_in = ground (arith, f.generation);
  }
    where
      f : Flushed p (flush_queue p)
      f = flush_queue-Flushed p v.queued

  -- What the cancelling helpers leave: no active transaction, and the rest of the machine alone.
  pub record Idle (p q : Port B) : Type 0 where
    pub sound : IsSound q
    pub idle : q.has_active ≡ false
    pub same : q.state ≡ p.state
    pub legal : q.stats.illegal_transitions ≡ p.stats.illegal_transitions
    pub current_config : q.current_config ≡ p.current_config

  pub drop_active-Idle : (ops : Backend B) (p : Port B) → IsSound p → Idle p (drop_active ops p)
  unfolding drop_active notify_completion clear_active
  drop_active-Idle ops p v = ground arith

  flush_queue-Idle : (p q : Port B) → Idle p q → Idle p (flush_queue q)
  flush_queue-Idle p q i =
      let f = flush_queue-Flushed q i.sound.queued in
      record {
        sound = flush_queue-IsSound q i.sound;
        idle = f.has_active ∙ i.idle;
        same = f.state ∙ i.same;
        legal = f.legal ∙ i.legal;
        current_config = f.current_config ∙ i.current_config;
      }

  emptied-Idle :
      (ops : Backend B) (p : Port B) → IsSound p → Idle p (flush_queue (drop_active ops p))
  emptied-Idle ops p v = flush_queue-Idle p _ (drop_active-Idle ops p v)

  Idle-record :
      (p q : Port B) (known_good staged : PortConfig) (d : Deadline)
      → Idle p q
      → Idle p
          (record q { known_good_config = known_good; staged_config = staged; state_deadline = d })
  Idle-record p q known_good staged d i = ground arith

  transition_taken :
      (p q : Port B) (next : PortState)
      → Idle p q
      → transition_allowed q.state next ≡ true
      → ((transition q next).0 ≡ pos 0)
        × ((transition q next).1.state ≡ next)
        × ((transition q next).1.has_active ≡ false)
        × (contents (transition q next).1.queue ≡ contents q.queue)
        × ((transition q next).1.stats.illegal_transitions ≡ p.stats.illegal_transitions)
  unfolding transition
  transition_taken p q next i a = ground (arith, i.idle, i.legal)

  -- What a request that goes through leaves: a valid port in the state asked for, with nothing
  -- active, and with these transactions in its queue.
  pub record Arrived (p : Port B) (next : PortState) (ts : List Transaction) (r : ℤ × Port B)
      : Type 0 where
    pub valid : IsValid r.1
    pub result : r.0 ≡ pos 0
    pub state : r.1.state ≡ next
    pub idle : r.1.has_active ≡ false
    pub left : contents r.1.queue ≡ ts
    pub legal : r.1.stats.illegal_transitions ≡ p.stats.illegal_transitions

  transition-Arrived :
      (p q : Port B) (next : PortState) (ts : List Transaction)
      → Idle p q
      → contents q.queue ≡ ts
      → transition_allowed p.state next ≡ true
      → is_busy next ≡ false
      → Arrived p next ts (transition q next)
  transition-Arrived p q next ts i e allowed calm = record {
    valid = record {
      sound = transition-IsSound q next i.sound;
      busy = (taken.2 ∙ sym calm) ∙ ap is_busy (sym taken.1);
    };
    result = taken.0;
    state = taken.1;
    idle = taken.2;
    left = taken.3 ∙ e;
    legal = taken.4;
  }
    where
      taken :
          ((transition q next).0 ≡ pos 0)
          × ((transition q next).1.state ≡ next)
          × ((transition q next).1.has_active ≡ false)
          × (contents (transition q next).1.queue ≡ contents q.queue)
          × ((transition q next).1.stats.illegal_transitions ≡ p.stats.illegal_transitions)
      taken = transition_taken p q next i (ap (λ s. transition_allowed s next) i.same ∙ allowed)

  -- The transactions are gone, and the transition is taken.
  emptied-Arrived :
      (ops : Backend B) (p : Port B) (next : PortState) (known_good staged : PortConfig)
      (d : Deadline)
      → IsValid p
      → transition_allowed p.state next ≡ true
      → is_busy next ≡ false
      → Arrived p next [] (
          transition
            (record (flush_queue (drop_active ops p)) {
              known_good_config = known_good;
              staged_config = staged;
              state_deadline = d;
            })
            next)
  emptied-Arrived ops p next known_good staged d v allowed calm =
      transition-Arrived p _ next []
        (Idle-record p _ known_good staged d (emptied-Idle ops p v.sound))
        (flush_queue-contents _ (drop_active-Idle ops p v.sound).sound.queued) allowed calm

  -- A stop request is refused, with no effect, for a timeout that is 0 or half the range of the
  -- counter and more, and on a port that is disabled or already stopping. Otherwise it cancels
  -- whatever was active or queued and leaves a valid port that is stopping.
  pub request_stop-Arrived :
      (ops : Backend B) (p : Port B) (now timeout : ℕ)
      → IsValid p
      → (((timeout ≡ 0) ⊎ (half_range ≤ timeout) ⊎ (stopped p.state ≡ true))
          × (request_stop ops p now timeout ≡ (negsuc 0, p)))
        ⊎ Arrived p stopping [] (request_stop ops p now timeout)
  unfolding request_stop
  request_stop-Arrived ops p now timeout v =
      elim (Bool-cases (timeout == 0 || not (ticks_valid_interval timeout) || stopped p.state)) [
        | inl refused ↦ inl (unfold ticks_valid_interval in ground arith, rw refused)
        | inr taken ↦
            let q = flush_queue (drop_active ops p) in
            inr (
              rw taken (
                emptied-Arrived ops p stopping q.known_good_config q.staged_config _ v
                  (unfold transition_allowed in ground arith) refl))
      ]

  -- A reconfiguration is refused, with no effect, for a configuration that is not valid, a timeout
  -- that is 0 or half the range of the counter and more, and in a state that cannot take it.
  -- Otherwise it cancels whatever was active or queued and leaves a valid port that is
  -- reconfiguring.
  pub request_reconfigure-Arrived :
      (ops : Backend B) (p : Port B) (config : PortConfig) (now timeout : ℕ)
      → IsValid p
      → (((config_valid config ≡ false)
            ⊎ (timeout ≡ 0)
            ⊎ (half_range ≤ timeout)
            ⊎ (reconfigurable p.state ≡ false))
          × (request_reconfigure ops p config now timeout ≡ (negsuc 0, p)))
        ⊎ ((config_valid config ≡ true)
            × (0 < timeout)
            × (timeout < half_range)
            × (reconfigurable p.state ≡ true)
            × Arrived p reconfiguring [] (request_reconfigure ops p config now timeout))
  unfolding request_reconfigure
  request_reconfigure-Arrived ops p config now timeout v =
      elim (Bool-cases (
        not (config_valid config)
        || timeout == 0
        || not (ticks_valid_interval timeout)
        || not (reconfigurable p.state))) [
          | inl refused ↦ inl (unfold ticks_valid_interval in ground arith, rw refused)
          | inr taken ↦
              let q = flush_queue (drop_active ops p) in
              inr (
                ground arith,
                ground arith,
                unfold ticks_valid_interval in ground arith,
                ground arith,
                rw taken (
                    emptied-Arrived ops p reconfiguring q.current_config config _ v
                      (unfold transition_allowed in ground arith) refl),
              )
        ]

  transition-barrier :
      (p : Port B) (next : PortState)
      → (transition p next).1.response_barrier_generation ≡ p.response_barrier_generation
  unfolding transition set_error bump_illegal
  transition-barrier p next = ground arith

  abort_active-Idle :
      (ops : Backend B) (p : Port B) (attempts : ℕ) (d : Deadline)
      → IsSound p
      → Idle p (record (abort_active ops p) { recovery_attempts = attempts; state_deadline = d })
  unfolding abort_active notify_completion clear_active
  abort_active-Idle ops p attempts d v = ground arith

  abort_active_frame :
      (ops : Backend B) (p : Port B)
      → ((abort_active ops p).queue ≡ p.queue)
        × ((abort_active ops p).response_barrier_generation ≡ p.active.generation)
  unfolding abort_active notify_completion clear_active
  abort_active_frame ops p = (refl, refl)

  -- Cancelling needs an active transaction. It leaves a valid port that is recovering, with the
  -- queue as it was and the cancelled generation as the barrier.
  pub cancel_active-Arrived :
      (ops : Backend B) (p : Port B) (now : ℕ)
      → IsValid p
      → ((p.has_active ≡ false) × (cancel_active ops p now ≡ (negsuc 0, p)))
        ⊎ (Arrived p recovering (contents p.queue) (cancel_active ops p now)
            × ((cancel_active ops p now).1.response_barrier_generation ≡ p.active.generation))
  unfolding cancel_active
  cancel_active-Arrived ops p now v = elim (Bool-cases p.has_active) [
    | inl some_active ↦
        let q = abort_active ops p in
        let d = deadline_after now q.recovery_delay in
        let a : transition_allowed p.state recovering ≡ true =
          unfold transition_allowed in ground (arith, v.busy) in
        inr (
          rw (if_then _ _ _ some_active) (
              transition-Arrived p _ recovering (contents p.queue)
                (abort_active-Idle ops p 0 d v.sound) (ap contents (abort_active_frame ops p).0) a
                refl),
          rw (if_then _ _ _ some_active) (
              transition-barrier (record q { recovery_attempts = 0; state_deadline = d }) recovering
              ∙ (abort_active_frame ops p).1),
        )
    | inr idle ↦ inl (idle, rw (if_else _ _ _ idle))
  ]

  -- A report of a failure counts only on a port that is ready with nothing to do. It leaves a valid
  -- port that is recovering.
  pub report_io_failure-Arrived :
      (ops : Backend B) (p : Port B) (now : ℕ) (message : List ℕ)
      → IsValid p
      → (((is_ready p.state ≡ false) ⊎ (p.queue.count ≢ 0))
          × (report_io_failure ops p now message ≡ (negsuc 0, p)))
        ⊎ Arrived p recovering [] (report_io_failure ops p now message)
  unfolding report_io_failure
  report_io_failure-Arrived ops p now message v =
      elim (Bool-cases (not (is_ready p.state) || p.has_active || not (p.queue.count == 0))) [
        | inl refused ↦ inl (ground (arith, v.busy), rw (if_then _ _ _ refused))
        | inr taken ↦
            let s = p.stats in
            let q : Port B = record p {
              stats = record s { backend_failures = increment s.backend_failures };
            } in
            let a : transition_allowed p.state recovering ≡ true =
              unfold transition_allowed in ground arith in
            let frame = begin_recovery_frame ops q now message a in
            let moved = begin_recovery-Moved ops q now message a in
            inr (
              rw (if_else _ _ _ taken) (record {
                valid = record {
                  sound = begin_recovery-IsSound ops q now message (ground arith);
                  busy = moved.busy;
                };
                result = refl;
                state = frame.0;
                idle = frame.1;
                left =
                    ap contents frame.2
                    ∙ length-eq-zero _ (ground (arith, length-contents p.queue));
                legal = moved.legal;
              }))
      ]
