-- ===== src/Port/Admission.antt =====
-- What `port_runtime_submit_operation` of src/core/port_runtime.c lets into the queue.
use moxa_4vrs_gateway.Prelude.{
  ℕ, ◌≤◌, ◌<◌, ◌≡◌, refl, ◌≢◌, ◌⊎◌, inl, inr, Option, none, some, List, [], ◌∷◌, ◌++◌, arith,
  Bool-cases, if_then, if_else, Option-cases, u32_mod,
}
use moxa_4vrs_gateway.Transaction.{Transaction, payload_max, Operation, zero_transaction}
use moxa_4vrs_gateway.Queue.{TransactionQueue}
use moxa_4vrs_gateway.Queue.Fifo
use moxa_4vrs_gateway.Queue.Fifo.{contents, push_cases}
use moxa_4vrs_gateway.Port.State.{
  SubmitResult, accepted, queue_full, Port, PortState, invalid_request,
}
use moxa_4vrs_gateway.Port.Machine.{update_depth}
use moxa_4vrs_gateway.Port.Submit.{
  accept, following_id, Request, new_transaction, refusal, request_valid, submit_admitted,
  submit_operation,
}
use mathlib.Core.Option
use moxa_4vrs_gateway.Port.Valid.{IsValid}

-- A valid port that differs from the one before only in its numbering, its statistics and its queue,
-- which holds these transactions.
pub record Kept {B : Type 0} (p q : Port B) (ts : List Transaction) : Type 0 where
  pub valid : IsValid q
  pub queued : contents q.queue ≡ ts
  pub state : q.state ≡ p.state
  pub active : q.active ≡ p.active
  pub has_active : q.has_active ≡ p.has_active
  pub completion : q.completion ≡ p.completion
  pub completions : q.completions ≡ p.completions
  pub legal : q.stats.illegal_transitions ≡ p.stats.illegal_transitions

following_id_lem : (n : ℕ) → (0 < following_id n) × (following_id n < u32_mod)
unfolding following_id
following_id_lem n = ground arith

refusal-ne-accepted : (s : PortState) (a : SubmitResult) → refusal s ≡ some a → a ≢ accepted
unfolding refusal
refusal-ne-accepted s a e f = ground arith

abbrev pub payload_of : Request → List ℕ
payload_of r = Option.get_or r.payload []

abbrev pub operation_of : Request → Operation
operation_of r = Option.get_or r.operation zero_transaction.operation

module _ {B : Type 0} where
  full-Kept :
      (p : Port B) (n full : ℕ)
      → IsValid p
      → 0 < n
      → n < u32_mod
      → let s = p.stats in
        Kept p
          (record p { next_transaction_id = n; stats = record s { queue_full = full } })
          (contents p.queue)
  full-Kept p n full v pos_n small_n = ground arith

  invalid-Kept :
      (p : Port B) (invalid : ℕ)
      → IsValid p
      → let s = p.stats in
        Kept p (record p { stats = record s { invalid = invalid } }) (contents p.queue)
  invalid-Kept p invalid v = ground arith

  accepted-Kept :
      (p : Port B) (n count : ℕ) (q : TransactionQueue) (ts : List Transaction)
      → IsValid p
      → 0 < n
      → n < u32_mod
      → Fifo.IsValid q
      → contents q ≡ ts
      → let s = p.stats in
        Kept p
          (update_depth (record p {
            next_transaction_id = n;
            queue = q;
            stats = record s { accepted = count };
          }))
          ts
  unfolding update_depth
  accepted-Kept p n count q ts v pos_n small_n w e = ground arith

  -- What a submission of `t` comes to.
  abbrev pub Outcome : Port B → Transaction → SubmitResult × Port B × Option ℕ → Type 0
  Outcome p t r =
      ((r.0 ≡ accepted) × (r.2 ≡ some t.id) × Kept p r.1 (contents p.queue ++ t ∷ []))
      ⊎ ((r.0 ≢ accepted) × (r.2 ≡ none) × Kept p r.1 (contents p.queue))

  accept-Outcome :
      (p : Port B) (t : Transaction)
      → IsValid p
      → t.payload_length ≤ payload_max
      → Outcome p t (accept p t)
  unfolding accept
  accept-Outcome p t v small =
      let (pos_n, small_n) = following_id_lem p.next_transaction_id in
      elim (push_cases p.queue t v.sound.queued (omega arith)) [
        | inl e ↦ rw (e, accept) (inr (no_accept, refl, full-Kept p _ _ v pos_n small_n))
        | inr (q, e, c, w) ↦
            rw (e, accept) (inl (refl, refl, accepted-Kept p _ _ q _ v pos_n small_n w c))
      ]
    where
      no_accept : queue_full ≢ accepted
      no_accept e = cc

  -- An answer other than acceptance, with the port as it was.
  unchanged-Outcome :
      (p : Port B) (t : Transaction) (a : SubmitResult)
      → IsValid p
      → a ≢ accepted
      → Outcome p t (a, p, none)
  unchanged-Outcome p t a v ne = inr (
    ne,
    refl,
    record {
      valid = v;
      queued = refl;
      state = refl;
      active = refl;
      has_active = refl;
      completion = refl;
      completions = refl;
      legal = refl;
    },
  )

  -- The transaction that a request stands for.
  abbrev pub requested : Port B → Request → ℕ → Transaction
  requested p r now = new_transaction r p.next_transaction_id now (payload_of r) (operation_of r)

  submit_admitted-Outcome :
      (p : Port B) (r : Request) (now : ℕ) (x : Option (List ℕ)) (y : Option Operation)
      → r.length ≤ payload_max
      → IsValid p
      → Outcome p
          (new_transaction r p.next_transaction_id now
            (Option.get_or x [])
            (Option.get_or y zero_transaction.operation))
          (submit_admitted p r now x y)
  unfolding submit_admitted
  submit_admitted-Outcome p r now none y small v = unchanged-Outcome p _ invalid_request v (λ e. cc)
  submit_admitted-Outcome p r now (some payload) none small v =
      unchanged-Outcome p _ invalid_request v (λ e. cc)
  submit_admitted-Outcome p r now (some payload) (some operation) small v =
      elim (Option-cases (refusal p.state)) [
        | inl e ↦ rw (e, submit_admitted) (accept-Outcome p _ v (unfold new_transaction in small))
        | inr (a, e) ↦
            rw (e, submit_admitted) (unchanged-Outcome p _ a v (refusal-ne-accepted p.state a e))
      ]

  -- A submission is accepted, and then stands at the end of the queue under the identifier that is
  -- handed out, with nothing else of the port changed but its numbers; or it is not, and the queue
  -- is as it was and no identifier is handed out. Either way a valid port stays valid.
  pub submit_operation-Outcome :
      (p : Port B) (r : Request) (now : ℕ)
      → IsValid p
      → Outcome p (requested p r now) (submit_operation p r now)
  unfolding submit_operation
  submit_operation-Outcome p r now v = elim (Bool-cases (request_valid r)) [
    | inl good ↦ rw (if_then _ _ _ good) (
        submit_admitted-Outcome p r now r.payload r.operation (unfold request_valid in ground arith)
          v)
    | inr bad ↦ rw (if_else _ _ _ bad) (inr ((λ e. cc), refl, invalid-Kept p _ v))
  ]
