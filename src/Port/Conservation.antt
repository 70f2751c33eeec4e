-- ===== src/Port/Conservation.antt =====
-- The requests of src/core/port_runtime.c and the transactions that they interrupt, and a port's
-- whole life: any calls in any order.
use moxa_4vrs_gateway.Port.Control.{
  stopped, reconfigurable, flush_queue, drop_active, abort_active, cancel_active, detach_listener,
  report_io_failure, request_reconfigure, request_stop, is_ready,
}
use moxa_4vrs_gateway.Deadline.{ticks_valid_interval, deadline_after}
use moxa_4vrs_gateway.Port.State.{
  stopping, recovering, reconfiguring, PortState, PortConfig, Backend, Port,
}
use moxa_4vrs_gateway.Prelude.{
  ℕ, ◌≡◌, refl, sym, ap, subst, ◌∙◌, inl, inr, Bool, true, false, not, ◌||◌, List, [], ◌∷◌, ◌++◌,
  map, append-nil, append_assoc, map-append, arith, ◌==◌, if◌then◌else◌, Bool-cases, if_cases,
  if_then, if_else, increment, ℤ, negsuc,
}
use mathlib.Core.List.Perm
use mathlib.Core.List.{perm_append_comm, Perm}
use moxa_4vrs_gateway.Transaction.{Transaction}
use moxa_4vrs_gateway.Queue.Fifo.{contents}
use moxa_4vrs_gateway.Port.Flush.{cancellation, flush_queue-Flushed, flush_queue-contents, Flushed}
use moxa_4vrs_gateway.Port.Invariant.{IsSound}
use moxa_4vrs_gateway.Port.History.{
  history, Same, finish_active, queued_ids, told_ids, Same-trans, active_ids,
  begin_recovery-history,
}
use moxa_4vrs_gateway.Port.Machine.{transition, bump_illegal, config_valid, set_error, start}
use moxa_4vrs_gateway.Port.Requests.{drop_active-Idle}

told-cancellation : (ts : List Transaction) → told_ids (map cancellation ts) ≡ queued_ids ts
told-cancellation [] = refl
told-cancellation (t ∷ ts) = ap (◌∷◌ t.id) (told-cancellation ts)

module _ {B : Type 0} where
  -- Flushing tells every queued transaction its outcome, in order, and the queue is empty.
  flush_queue-told :
      (p : Port B)
      → p.completion ≡ true
      → IsSound p
      → told_ids (flush_queue p).completions
        ≡ told_ids p.completions ++ queued_ids (contents p.queue)
  flush_queue-told p on v =
      let f = flush_queue-Flushed p v.queued in
      let e : (flush_queue p).completions ≡ p.completions ++ map cancellation (contents p.queue) =
        sym (append-nil _)
        ∙ ap (λ ts. (flush_queue p).completions ++ map cancellation ts)
            (sym (flush_queue-contents p v.queued))
        ∙ f.told on in
      rw (e, map-append, told-cancellation)

  drop_active-Same :
      (ops : Backend B) (p : Port B) → p.completion ≡ true → Same p (drop_active ops p)
  unfolding drop_active
  drop_active-Same ops p on = elim (Bool-cases p.has_active) [
    | inl some_active ↦
        rw (if_then _ _ _ some_active)
          (finish_active p _ _ _ _ _ on some_active refl refl refl refl)
    | inr idle ↦ rw (if_else _ _ _ idle) (record { completion = refl; history = refl })
  ]

  flush_queue-Same :
      (p : Port B) → p.completion ≡ true → p.has_active ≡ false → IsSound p → Same p (flush_queue p)
  flush_queue-Same p on idle v =
      let f = flush_queue-Flushed p v.queued in
      record {
        completion = f.completion;
        history = simp (
          flush_queue-told p on v,
          f.has_active,
          idle,
          flush_queue-contents p v.queued,
          append-nil,
        );
      }

  -- What a transition and the fields that a request sets do not touch.
  transition-Same : (p q : Port B) (next : PortState) → Same p q → Same p (transition q next).1
  unfolding transition set_error bump_illegal
  transition-Same p q next s = ground (arith, s.completion, s.history)

  emptied-Same :
      (ops : Backend B) (p : Port B)
      → p.completion ≡ true
      → IsSound p
      → Same p (flush_queue (drop_active ops p))
  emptied-Same ops p on v =
      let d = drop_active-Same ops p on in
      let i = drop_active-Idle ops p v in
      Same-trans p _ _ d (flush_queue-Same _ (d.completion ∙ on) i.idle i.sound)

  pub request_stop-Same :
      (ops : Backend B) (p : Port B) (now timeout : ℕ)
      → p.completion ≡ true
      → IsSound p
      → Same p (request_stop ops p now timeout).1
  unfolding request_stop
  request_stop-Same ops p now timeout on v =
      let e = emptied-Same ops p on v in
      if_cases (λ (r : ℤ × Port B). Same p r.1)
        (timeout == 0 || not (ticks_valid_interval timeout) || stopped p.state) (negsuc 0, p) _
        (λ _. record { completion = refl; history = refl })
        (λ _.
          transition-Same p
            (record (flush_queue (drop_active ops p)) {
              state_deadline = deadline_after now timeout;
            })
            stopping (record { completion = e.completion; history = e.history }))

  pub request_reconfigure-Same :
      (ops : Backend B) (p : Port B) (config : PortConfig) (now timeout : ℕ)
      → p.completion ≡ true
      → IsSound p
      → Same p (request_reconfigure ops p config now timeout).1
  unfolding request_reconfigure
  request_reconfigure-Same ops p config now timeout on v =
      let e = emptied-Same ops p on v in
      let q = flush_queue (drop_active ops p) in
      if_cases (λ (r : ℤ × Port B). Same p r.1)
        (not (config_valid config)
          || timeout == 0
          || not (ticks_valid_interval timeout)
          || not (reconfigurable p.state))
        (negsuc 0, p) _ (λ _. record { completion = refl; history = refl })
        (λ _.
          transition-Same p
            (record q {
              known_good_config = q.current_config;
              staged_config = config;
              state_deadline = deadline_after now timeout;
            })
            reconfiguring (record { completion = e.completion; history = e.history }))

  abort_active-Same :
      (ops : Backend B) (p : Port B)
      → p.completion ≡ true
      → p.has_active ≡ true
      → Same p (abort_active ops p)
  unfolding abort_active
  abort_active-Same ops p on some_active =
      finish_active p _ _ _ _ _ on some_active refl refl refl refl

  pub cancel_active-Same :
      (ops : Backend B) (p : Port B) (now : ℕ)
      → p.completion ≡ true
      → Same p (cancel_active ops p now).1
  unfolding cancel_active
  cancel_active-Same ops p now on =
      let q = abort_active ops p in
      if_cases (λ (r : ℤ × Port B). Same p r.1) p.has_active
        (transition
          (record q { recovery_attempts = 0; state_deadline = deadline_after now q.recovery_delay })
          recovering)
        (negsuc 0, p)
        (λ h.
          let s = abort_active-Same ops p on h in
          transition-Same p
            (record q {
              recovery_attempts = 0;
              state_deadline = deadline_after now q.recovery_delay;
            })
            recovering (record { completion = s.completion; history = s.history }))
        (λ _. record { completion = refl; history = refl })

  pub report_io_failure-Same :
      (ops : Backend B) (p : Port B) (now : ℕ) (m : List ℕ)
      → Same p (report_io_failure ops p now m).1
  unfolding report_io_failure
  report_io_failure-Same ops p now m =
      elim (Bool-cases (not (is_ready p.state) || p.has_active || not (p.queue.count == 0))) [
        | inl refused ↦ rw (if_then _ _ _ refused) (record { completion = refl; history = refl })
        | inr taken ↦
            let s = p.stats in
            let q : Port B = record p {
              stats = record s { backend_failures = increment s.backend_failures };
            } in
            let (left, kept) = begin_recovery-history ops q now m in
            let idle : p.has_active ≡ false = ground arith in
            rw (if_else _ _ _ taken) (record {
              completion = kept;
              history =
                  left
                  ∙ ap
                      (λ (b : Bool).
                        told_ids p.completions
                        ++ ((if b then p.active.id ∷ [] else []) ++ queued_ids (contents p.queue)))
                      (sym idle);
            })
      ]

  pub start-Same :
      (ops : Backend B) (p : Port B) (now timeout : ℕ) → Same p (start ops p now timeout).1
  unfolding start transition set_error bump_illegal
  start-Same ops p now timeout = ground arith

  -- Detaching tells the queued transactions before the active one.
  pub detach_listener-perm :
      (ops : Backend B) (p : Port B) (now : ℕ)
      → p.completion ≡ true
      → IsSound p
      → Perm (history (detach_listener ops p now).1) (history p)
        × ((detach_listener ops p now).1.completion ≡ p.completion)
  unfolding detach_listener
  detach_listener-perm ops p now on v = elim (Bool-cases (flush_queue p).has_active) [
    | inl some_active ↦
        let e : history (flush_queue p)
            ≡ told_ids p.completions ++ (queued_ids (contents p.queue) ++ active_ids p) =
          simp (
            flush_queue-told p on v,
            f.has_active,
            f.active,
            flush_queue-contents p v.queued,
            append-nil,
            append_assoc,
          ) in
        let c = cancel_active-Same ops (flush_queue p) now (f.completion ∙ on) in
        rw (if_then _ _ _ some_active) (
          subst (λ h. Perm h (history p)) (sym (c.history ∙ e))
              (Perm.append_left (told_ids p.completions)
                (perm_append_comm (queued_ids (contents p.queue)) (active_ids p))),
          c.completion ∙ f.completion,
        )
    | inr idle ↦ rw (if_else _ _ _ idle) (
      subst (λ h. Perm h (history p))
          (sym (flush_queue-Same p on (sym f.has_active ∙ idle) v).history) (Perm.refl _),
      f.completion,
    )
  ]
    where
      f : Flushed p (flush_queue p)
      f = flush_queue-Flushed p v.queued
