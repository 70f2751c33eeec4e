-- ===== src/Port/Flush.antt =====
-- `flush_queue` of src/core/port_runtime.c: every queued transaction is cancelled, in order.
use moxa_4vrs_gateway.Prelude.{
  ℕ, zero, suc, ◌≤◌, ◌≡◌, refl, ap, ◌∙◌, inl, inr, true, [], ◌∷◌, ◌++◌, map, append_assoc, arith,
  length, length-eq-zero,
}
use moxa_4vrs_gateway.Transaction.{Transaction, TransactionStatus}
use moxa_4vrs_gateway.Queue.{TransactionQueue}
use moxa_4vrs_gateway.Queue.Fifo
use moxa_4vrs_gateway.Queue.Fifo.{pop_refines, contents, length-contents}
use moxa_4vrs_gateway.Port.State.{Completion, Port}
use moxa_4vrs_gateway.Port.Machine.{notify_completion, update_depth}
use moxa_4vrs_gateway.Port.Control.{flush_loop, cancelled_transaction, flush_queue, flush_one}

-- What a queued transaction's owner is told.
abbrev pub cancellation : Transaction → Completion
cancellation t = record {
  transaction = cancelled_transaction t;
  status = TransactionStatus.cancelled;
  response = [];
  response_length = 0;
}

-- What flushing leaves as it was, and what it does to the queue and to the callbacks made.
pub record Flushed {B : Type 0} (p q : Port B) : Type 0 where
  pub state : q.state ≡ p.state
  pub active : q.active ≡ p.active
  pub has_active : q.has_active ≡ p.has_active
  pub generation : q.generation ≡ p.generation
  pub next_id : q.next_transaction_id ≡ p.next_transaction_id
  pub completion : q.completion ≡ p.completion
  pub legal : q.stats.illegal_transitions ≡ p.stats.illegal_transitions
  pub high_water : q.stats.queue_high_water ≡ p.stats.queue_high_water
  pub current_config : q.current_config ≡ p.current_config
  pub queued : Fifo.IsValid q.queue
  pub told :
      p.completion ≡ true
      → q.completions ++ map cancellation (contents q.queue)
        ≡ p.completions ++ map cancellation (contents p.queue)

module _ {B : Type 0} where
  flush_one-Flushed :
      (p : Port B) (t : Transaction) (q : TransactionQueue)
      → contents p.queue ≡ t ∷ contents q
      → Fifo.IsValid q
      → Flushed p (flush_one p t q)
  unfolding flush_one notify_completion
  flush_one-Flushed p t q e w = record {
    state = refl;
    active = refl;
    has_active = refl;
    generation = refl;
    next_id = refl;
    completion = refl;
    legal = refl;
    high_water = refl;
    current_config = refl;
    queued = w;
    told = λ on. simp (on, e, append_assoc);
  }

  Flushed-refl : (p : Port B) → Fifo.IsValid p.queue → Flushed p p
  Flushed-refl p v = record {
    state = refl;
    active = refl;
    has_active = refl;
    generation = refl;
    next_id = refl;
    completion = refl;
    legal = refl;
    high_water = refl;
    current_config = refl;
    queued = v;
    told = λ _. refl;
  }

  Flushed-trans : (p q r : Port B) → Flushed p q → Flushed q r → Flushed p r
  Flushed-trans p q r f g = record {
    state = g.state ∙ f.state;
    active = g.active ∙ f.active;
    has_active = g.has_active ∙ f.has_active;
    generation = g.generation ∙ f.generation;
    next_id = g.next_id ∙ f.next_id;
    completion = g.completion ∙ f.completion;
    legal = g.legal ∙ f.legal;
    high_water = g.high_water ∙ f.high_water;
    current_config = g.current_config ∙ f.current_config;
    queued = g.queued;
    told = λ on. g.told (f.completion ∙ on) ∙ f.told on;
  }

  flush_loop-Flushed :
      (fuel : ℕ) (p : Port B) → Fifo.IsValid p.queue → Flushed p (flush_loop fuel p)
  unfolding flush_loop
  flush_loop-Flushed zero p v = Flushed-refl p v
  flush_loop-Flushed (suc fuel) p v = elim (pop_refines p.queue v) [
    | inl (e, _) ↦ rw (e, flush_loop) (Flushed-refl p v)
    | inr (t, q, e, c, w) ↦
        rw (e, flush_loop)
          (Flushed-trans p _ _ (flush_one-Flushed p t q c w)
            (flush_loop-Flushed fuel _ (flush_one-Flushed p t q c w).queued))
  ]

  -- As many rounds as there are entries empty the queue.
  flush_loop-contents :
      (fuel : ℕ) (p : Port B)
      → Fifo.IsValid p.queue
      → length (contents p.queue) ≤ fuel
      → contents (flush_loop fuel p).queue ≡ []
  unfolding flush_loop flush_one notify_completion
  flush_loop-contents zero p v h = length-eq-zero _ (omega arith)
  flush_loop-contents (suc fuel) p v h = elim (pop_refines p.queue v) [
    | inl (e, c) ↦ rw (e, flush_loop) c
    | inr (t, q, e, c, w) ↦
        rw (e, flush_loop) (flush_loop-contents fuel _ w (omega (arith, ap length c)))
  ]

  flush_loop-count :
      (p : Port B) → Fifo.IsValid p.queue → (flush_loop p.queue.count p).queue.count ≡ 0
  flush_loop-count p v =
      let q = (flush_loop p.queue.count p).queue in
      omega (
        arith,
        length-contents p.queue,
        length-contents q,
        ap length (flush_loop-contents p.queue.count p v (omega (arith, length-contents p.queue))),
      )

  pub flush_queue-Flushed : (p : Port B) → Fifo.IsValid p.queue → Flushed p (flush_queue p)
  unfolding flush_queue update_depth
  flush_queue-Flushed p v = record {
    state = looped.state;
    active = looped.active;
    has_active = looped.has_active;
    generation = looped.generation;
    next_id = looped.next_id;
    completion = looped.completion;
    legal = looped.legal;
    high_water = ground (arith, looped.high_water, none_left);
    current_config = looped.current_config;
    queued = looped.queued;
    told = looped.told;
  }
    where
      looped : Flushed p (flush_loop p.queue.count p)
      looped = flush_loop-Flushed p.queue.count p v

      none_left : (flush_loop p.queue.count p).queue.count ≡ 0
      none_left = flush_loop-count p v

  pub flush_queue-contents :
      (p : Port B) → Fifo.IsValid p.queue → contents (flush_queue p).queue ≡ []
  unfolding flush_queue update_depth
  flush_queue-contents p v =
      flush_loop-contents p.queue.count p v (omega (arith, length-contents p.queue))
