-- ===== src/Port/Life.antt =====
-- A port of src/core/port_runtime.c over any sequence of calls of its operations.
use moxa_4vrs_gateway.Prelude.{
  ℕ, ◌≡◌, sym, ap, subst, ◌∙◌, ◌⊎◌, inl, inr, true, Option, none, some, List, [], ◌∷◌, ◌++◌,
  append-nil, append_assoc, map-append, arith, if_cases, ℤ, pos, negsuc,
}
use mathlib.Core.List.Perm
use mathlib.Core.List.{Perm}
use moxa_4vrs_gateway.Port.State.{PortConfig, Backend, Port, PortState, SubmitResult}
use moxa_4vrs_gateway.Port.Machine.{start, bump_illegal, set_error, transition, transition_allowed}
use moxa_4vrs_gateway.Port.Control.{
  request_stop, cancel_active, detach_listener, report_io_failure, request_reconfigure, flush_queue,
}
use moxa_4vrs_gateway.Port.Step.{step}
use moxa_4vrs_gateway.Port.Submit.{Request, submit_operation}
use moxa_4vrs_gateway.Port.History.{history, Same, active_ids, queued_ids, step-Same, told_ids}
use moxa_4vrs_gateway.Port.Flush.{flush_queue-Flushed}
use moxa_4vrs_gateway.Port.Valid.{IsValid, step-IsValid}
use moxa_4vrs_gateway.Transaction.{Transaction}
use moxa_4vrs_gateway.Port.Admission.{Kept, Outcome, submit_operation-Outcome}
use moxa_4vrs_gateway.Port.Requests.{
  Arrived, cancel_active-Arrived, flush_queue-IsSound, report_io_failure-Arrived,
  request_reconfigure-Arrived, request_stop-Arrived,
}
use moxa_4vrs_gateway.Port.Transitions.{is_busy}
use moxa_4vrs_gateway.Port.Conservation.{
  start-Same, cancel_active-Same, detach_listener-perm, report_io_failure-Same,
  request_reconfigure-Same, request_stop-Same,
}

-- A call of one of the operations of a port, with the time of the call.
pub data Call : Type 0 where
  starts : ℕ → ℕ → Call
  submits : Request → ℕ → Call
  steps : ℕ → Call
  cancels : ℕ → Call
  detaches : ℕ → Call
  reports : List ℕ → ℕ → Call
  reconfigures : PortConfig → ℕ → ℕ → Call
  stops : ℕ → ℕ → Call

abbrev some_id : Option ℕ → List ℕ
some_id none = []
some_id (some id) = id ∷ []

module _ {B : Type 0} where
  -- The port after a call.
  unfoldable pub perform : Backend B → Port B → Call → Port B
  perform ops p (starts now timeout) = (start ops p now timeout).1
  perform ops p (submits r now) = (submit_operation p r now).1
  perform ops p (steps now) = step ops p now
  perform ops p (cancels now) = (cancel_active ops p now).1
  perform ops p (detaches now) = (detach_listener ops p now).1
  perform ops p (reports m now) = (report_io_failure ops p now m).1
  perform ops p (reconfigures config now timeout) = (request_reconfigure ops p config now timeout).1
  perform ops p (stops now timeout) = (request_stop ops p now timeout).1

  -- The identifiers that a call hands out.
  unfoldable pub handed_out : Port B → Call → List ℕ
  handed_out p (submits r now) = some_id (submit_operation p r now).2
  handed_out p _ = []

  unfoldable pub run : Backend B → Port B → List Call → Port B
  run ops p [] = p
  run ops p (c ∷ cs) = run ops (perform ops p c) cs

  -- The identifiers that a sequence of calls hands out, the first call's first.
  unfoldable pub all_handed_out : Backend B → Port B → List Call → List ℕ
  all_handed_out ops p [] = []
  all_handed_out ops p (c ∷ cs) = handed_out p c ++ all_handed_out ops (perform ops p c) cs

  -- What one call does to a port with a callback installed.
  record Lived (p q : Port B) (ids : List ℕ) : Type 0 where
    valid : IsValid q
    completion : q.completion ≡ p.completion
    history : Perm (history q) (history p ++ ids)

  pub start-IsValid :
      (ops : Backend B) (p : Port B) (now timeout : ℕ)
      → IsValid p
      → IsValid (start ops p now timeout).1
  unfolding start transition set_error bump_illegal transition_allowed
  start-IsValid ops p now timeout v = record {
    sound = ground (arith, v.sound);
    busy = ground (arith, v.busy);
  }

  -- A request that is refused leaves the port as it was.
  pub Arrived-IsValid :
      {C : Type 0} (p : Port B) (next : PortState) (ts : List Transaction) (r : ℤ × Port B)
      → IsValid p
      → (C × (r ≡ (negsuc 0, p))) ⊎ Arrived p next ts r
      → IsValid r.1
  Arrived-IsValid p next ts r v (inl (_, e)) = subst (λ (x : ℤ × Port B). IsValid x.1) (sym e) v
  Arrived-IsValid p next ts r v (inr a) = a.valid

  pub request_reconfigure-IsValid :
      (ops : Backend B) (p : Port B) (config : PortConfig) (now timeout : ℕ)
      → IsValid p
      → IsValid (request_reconfigure ops p config now timeout).1
  request_reconfigure-IsValid ops p config now timeout v =
      elim (request_reconfigure-Arrived ops p config now timeout v) [
        | inl (_, e) ↦ subst (λ (r : ℤ × Port B). IsValid r.1) (sym e) v
        | inr (_, _, _, _, a) ↦ a.valid
      ]

  pub cancel_active-IsValid :
      (ops : Backend B) (p : Port B) (now : ℕ) → IsValid p → IsValid (cancel_active ops p now).1
  cancel_active-IsValid ops p now v = elim (cancel_active-Arrived ops p now v) [
    | inl (_, e) ↦ subst (λ (x : ℤ × Port B). IsValid x.1) (sym e) v
    | inr (a, _) ↦ a.valid
  ]

  pub detach_listener-IsValid :
      (ops : Backend B) (p : Port B) (now : ℕ) → IsValid p → IsValid (detach_listener ops p now).1
  unfolding detach_listener
  detach_listener-IsValid ops p now v =
      let q = flush_queue p in
      let f = flush_queue-Flushed p v.sound.queued in
      let w : IsValid q = record {
        sound = flush_queue-IsSound p v.sound;
        busy = f.has_active ∙ v.busy ∙ ap is_busy (sym f.state);
      } in
      if_cases (λ (r : ℤ × Port B). IsValid r.1) q.has_active (cancel_active ops q now) (pos 0, q)
        (λ _. cancel_active-IsValid ops q now w) (λ _. w)

  Same-Lived : (p q : Port B) → IsValid q → Same p q → Lived p q []
  Same-Lived p q v s = record {
    valid = v;
    completion = s.completion;
    history = rw append-nil (subst (Perm (history q)) s.history (Perm.refl _));
  }

  -- An accepted transaction goes to the end.
  Kept-history :
      (p q : Port B) (ts : List Transaction)
      → Kept p q ts
      → history q ≡ told_ids p.completions ++ (active_ids p ++ queued_ids ts)
  Kept-history p q ts k = simp (k.completions, k.has_active, k.active, k.queued)

  submit-Lived :
      (p : Port B) (t : Transaction) (r : SubmitResult × Port B × Option ℕ)
      → Outcome p t r
      → Lived p r.1 (some_id r.2)
  submit-Lived p t r (inl (_, e, k)) = record {
    valid = k.valid;
    completion = k.completion;
    history =
        subst (Perm (history r.1)) (Kept-history p r.1 _ k ∙ simp (e, map-append, append_assoc))
          (Perm.refl _);
  }
  submit-Lived p t r (inr (_, e, k)) = record {
    valid = k.valid;
    completion = k.completion;
    history =
        subst (Perm (history r.1)) (Kept-history p r.1 _ k ∙ simp (e, append-nil)) (Perm.refl _);
  }

  perform-Lived :
      (ops : Backend B) (p : Port B) (c : Call)
      → IsValid p
      → p.completion ≡ true
      → Lived p (perform ops p c) (handed_out p c)
  unfolding perform handed_out
  perform-Lived ops p (starts now timeout) v on =
      Same-Lived p _ (start-IsValid ops p now timeout v) (start-Same ops p now timeout)
  perform-Lived ops p (submits r now) v on =
      submit-Lived p _ (submit_operation p r now) (submit_operation-Outcome p r now v)
  perform-Lived ops p (steps now) v on =
      Same-Lived p _ (step-IsValid ops p now v) (step-Same ops p now v on)
  perform-Lived ops p (cancels now) v on =
      Same-Lived p _ (cancel_active-IsValid ops p now v) (cancel_active-Same ops p now on)
  perform-Lived ops p (detaches now) v on = record {
    valid = detach_listener-IsValid ops p now v;
    completion = (detach_listener-perm ops p now on v.sound).1;
    history = rw append-nil (detach_listener-perm ops p now on v.sound).0;
  }
  perform-Lived ops p (reports m now) v on =
      Same-Lived p _ (Arrived-IsValid p _ _ _ v (report_io_failure-Arrived ops p now m v))
        (report_io_failure-Same ops p now m)
  perform-Lived ops p (reconfigures config now timeout) v on =
      Same-Lived p _ (request_reconfigure-IsValid ops p config now timeout v)
        (request_reconfigure-Same ops p config now timeout on v.sound)
  perform-Lived ops p (stops now timeout) v on =
      Same-Lived p _ (Arrived-IsValid p _ _ _ v (request_stop-Arrived ops p now timeout v))
        (request_stop-Same ops p now timeout on v.sound)

  -- Whatever is called on a valid port with a callback installed, the transactions told, active and
  -- queued at the end are those of the beginning and those accepted since, each as often as it was.
  pub run_conserves :
      (ops : Backend B) (p : Port B) (cs : List Call)
      → IsValid p
      → p.completion ≡ true
      → IsValid (run ops p cs)
        × Perm (history (run ops p cs)) (history p ++ all_handed_out ops p cs)
  unfolding run all_handed_out
  run_conserves ops p [] v on = (v, rw append-nil (Perm.refl _))
  run_conserves ops p (c ∷ cs) v on =
      let l = perform-Lived ops p c v on in
      let (w, rest) = run_conserves ops (perform ops p c) cs l.valid (l.completion ∙ on) in
      let later = all_handed_out ops (perform ops p c) cs in
      (
        w,
        Perm.trans rest (
            subst (Perm (history (perform ops p c) ++ later))
              (append_assoc (history p) (handed_out p c) later)
              (Perm.append_right later l.history)),
      )
