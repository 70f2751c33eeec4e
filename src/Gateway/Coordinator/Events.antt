-- ===== src/Gateway/Coordinator/Events.antt =====
-- The startup events of src/gateway/gateway_coordinator.c: what the ring of the last sixteen holds.
use moxa_4vrs_gateway.Prelude.{
  ℕ, suc, ◌+◌, ◌-◌, ◌%◌, ◌≤◌, ◌<◌, ◌≡◌, refl, sym, ap, ◌∙◌, inl, inr, false, some, List, [], ◌∷◌,
  ◌++◌, arith, ltb, leb, Bool-cases, if_else, length, get_or, set, drop, length-set, ring_items,
  length-ring_items, ring_items-set, ring_items-get,
}
use moxa_4vrs_gateway.Gateway.Coordinator.{
  ApplicationState, ApplicationError, EventResult, StartupEvent, Coordinator, zero_event, emit,
  event, event_capacity,
}
use moxa_4vrs_gateway.Gateway.Coordinator.Step.{gateway_coordinator_event}

-- What is left of the events when one more comes.
abbrev pub newest : List StartupEvent → StartupEvent → List StartupEvent
newest es e = drop (length es + 1 - 16) (es ++ e ∷ [])

-- A write over the oldest item of a full ring.
full_ring :
    (buf : List StartupEvent) (h : ℕ) (e : StartupEvent)
    → length buf ≡ 16
    → h < 16
    → ring_items zero_event 16 (set buf h e) ((h + 1) % 16) 16
      ≡ newest (ring_items zero_event 16 buf h 16) e
full_ring buf h e size small =
    ring_items-set zero_event 16 buf ((h + 1) % 16) 15 h e (omega (arith, size)) (omega arith)
      (omega arith) (omega arith)

part_ring :
    (buf : List StartupEvent) (h n : ℕ) (e : StartupEvent)
    → length buf ≡ 16
    → h < 16
    → n < 16
    → ring_items zero_event 16 (set buf ((h + n) % 16) e) h (n + 1)
      ≡ newest (ring_items zero_event 16 buf h n) e
part_ring buf h n e size small less =
    let xs = ring_items zero_event 16 buf h n in
    ap (ring_items zero_event 16 (set buf ((h + n) % 16) e) h) {x = n + 1} {y = suc n} (omega arith)
    ∙ ring_items-set zero_event 16 buf h n ((h + n) % 16) e (omega (arith, size)) small less refl
    ∙ ap (λ k. drop k (xs ++ e ∷ [])) {x = 0}
        (omega (arith, length-ring_items zero_event 16 buf h n))

module _ {B T S : Type 0} where
  -- The events, the oldest first.
  abbrev pub events_of : Coordinator B T S → List StartupEvent
  events_of c = ring_items zero_event event_capacity c.events c.event_head c.event_count

  -- The ring of events is in bounds, and the progress is at most its total.
  pub record IsValid (c : Coordinator B T S) : Type 0 where
    pub size : length c.events ≡ 16
    pub head : c.event_head < 16
    pub count : c.event_count ≤ 16
    pub progress : c.progress_numerator ≤ 14

  pub emit-IsValid :
      (c : Coordinator B T S) (stage : ApplicationState) (r : EventResult) (port : ℕ)
      (e : ApplicationError)
      → IsValid c
      → IsValid (emit c stage r port e)
  unfolding emit
  emit-IsValid c stage r port e v = ground (
    arith,
    v.size,
    v.head,
    v.count,
    v.progress,
    length-set c.events ((c.event_head + c.event_count) % 16) (event c stage r port e),
    length-set c.events c.event_head (event c stage r port e),
  )

  -- The ring always holds the sixteen newest events, the oldest first: an event goes behind them, and
  -- where there are sixteen the oldest is lost.
  pub emit-newest :
      (c : Coordinator B T S) (stage : ApplicationState) (r : EventResult) (port : ℕ)
      (e : ApplicationError)
      → IsValid c
      → events_of (emit c stage r port e) ≡ newest (events_of c) (event c stage r port e)
  unfolding emit
  emit-newest c stage r port e v = elim (Bool-cases (ltb c.event_count 16)) [
    | inl less ↦
        rw less
          (part_ring c.events c.event_head c.event_count _ v.size v.head (ground (arith, less)))
    | inr full ↦
        let sixteen : c.event_count ≡ 16 = ground (arith, full, v.count) in
        rw full (rw sixteen (full_ring c.events c.event_head _ v.size v.head))
  ]

  -- The event of an index is the one so far behind the oldest.
  pub gateway_coordinator_event-events_of :
      (c : Coordinator B T S) (i : ℕ)
      → c.event_head < 16
      → i < c.event_count
      → gateway_coordinator_event c i ≡ some (get_or (events_of c) i zero_event)
  unfolding gateway_coordinator_event
  gateway_coordinator_event-events_of c i small less =
      let e : leb c.event_count i ≡ false = ground (arith, less) in
      if_else _ _ _ e
      ∙ ap some
          (sym (ring_items-get zero_event 16 c.events c.event_head c.event_count i small less))
