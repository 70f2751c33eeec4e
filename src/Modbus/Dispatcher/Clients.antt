-- ===== src/Modbus/Dispatcher/Clients.antt =====
-- The clients of src/modbus/modbus_dispatcher.c and the requests that each has waiting.
use moxa_4vrs_gateway.Prelude.{
  ℕ, suc, ◌+◌, ◌%◌, ◌≤◌, ◌<◌, ◌≡◌, refl, sym, ap, subst, ◌∙◌, ◌≢◌, ◌⊎◌, inl, inr, Bool, true, not,
  Option, none, some, List, [], ◌∷◌, ◌++◌, arith, ◌==◌, Bool-cases, if_then, if_else, Option-cases,
  length, get_or, set, length-set, get_or-set_self, get_or-set_ne, ℤ, pos, negsuc, ring_items,
  ring_items-set,
}
use moxa_4vrs_gateway.Modbus.Adapter.{TcpRequest}
use moxa_4vrs_gateway.Modbus.Dispatcher.{
  Dispatcher, ClientSlot, slot_at, zero_slot, zero_request, client_queue_max, find_index, find_slot,
  modbus_dispatcher_enqueue, has_id, shifted,
}

-- The requests that wait in a slot, the first to be served first.
abbrev pub waiting : ClientSlot → List TcpRequest
waiting slot = ring_items zero_request client_queue_max slot.requests slot.head slot.count

pub record IsSlot (slot : ClientSlot) : Type 0 where
  pub storage : length slot.requests ≡ client_queue_max
  pub head_in : slot.head < client_queue_max
  pub count_in : slot.count ≤ client_queue_max

abbrev or_zero : Option ℕ → ℕ
or_zero none = 0
or_zero (some i) = i

from_some : (i j : ℕ) → some i ≡ some j → i ≡ j
from_some i j e = ap or_zero e

none_is_some : {A : Type 0} (i : ℕ) → none ≡ some i → A
none_is_some i e = absurd (cc)

find_index_lem :
    (test : ClientSlot → Bool) (slots : List ClientSlot) (i : ℕ)
    → find_index test slots ≡ some i
    → (i < length slots) × (test (get_or slots i zero_slot) ≡ true)
unfolding find_index
find_index_lem test [] i e = absurd (cc)
find_index_lem test (slot ∷ slots) i e = elim (Bool-cases (test slot)) [
  | inl found ↦
      let first = from_some 0 i (sym (if_then _ _ _ found) ∙ e) in
      subst (λ k. (k < length (slot ∷ slots)) × (test (get_or (slot ∷ slots) k zero_slot) ≡ true))
        first (omega arith, found)
  | inr other ↦ elim (Option-cases (find_index test slots)) [
    | inl gone ↦ none_is_some i (sym (ap shifted gone) ∙ sym (if_else _ _ _ other) ∙ e)
    | inr (k, at) ↦
        let (h, t) = find_index_lem test slots k at in
        let next = from_some (suc k) i (sym (ap shifted at) ∙ sym (if_else _ _ _ other) ∙ e) in
        subst (λ m. (m < length (slot ∷ slots)) × (test (get_or (slot ∷ slots) m zero_slot) ≡ true))
          next (omega arith, t)
  ]
]

-- What comes of a request for the client in slot i.
abbrev pub Enqueued : Dispatcher → ℕ → TcpRequest → ℤ × Dispatcher → Type 0
Enqueued d i r result =
    (((slot_at d i).epoch ≢ r.client_epoch) × (result ≡ (negsuc 0, d)))
    ⊎ (((slot_at d i).epoch ≡ r.client_epoch)
        × ((slot_at d i).count ≡ client_queue_max)
        × (result.0 ≡ negsuc 1)
        × (result.1.clients ≡ d.clients))
    ⊎ (((slot_at d i).epoch ≡ r.client_epoch)
        × ((slot_at d i).count < client_queue_max)
        × (result.0 ≡ pos 0)
        × (waiting (slot_at result.1 i) ≡ waiting (slot_at d i) ++ r ∷ [])
        × IsSlot (slot_at result.1 i)
        × ((j : ℕ) → i ≢ j → slot_at result.1 j ≡ slot_at d j))

-- A request of a connected client is refused for another epoch, refused and counted if the client's
-- queue is full, and otherwise waits behind the client's others, with all other slots as they were.
pub modbus_dispatcher_enqueue-Enqueued :
    (d : Dispatcher) (r : TcpRequest) (i : ℕ)
    → find_slot d r.client_id ≡ some i
    → IsSlot (slot_at d i)
    → Enqueued d i r (modbus_dispatcher_enqueue d r)
unfolding modbus_dispatcher_enqueue
modbus_dispatcher_enqueue-Enqueued d r i found v =
    let slot = slot_at d i in
    let (hi, _) = find_index_lem (has_id r.client_id) d.clients i (unfold find_slot in found) in
    let here : (x : ClientSlot) → get_or (set d.clients i x) i zero_slot ≡ x =
      λ x. get_or-set_self d.clients i x zero_slot hi in
    rw (found, modbus_dispatcher_enqueue)
      (elim (Bool-cases (not (slot.epoch == r.client_epoch))) [
        | inl other ↦ inl (ground arith, if_then _ _ _ other)
        | inr same ↦ rw (if_else _ _ _ same) (elim (Bool-cases (slot.count == client_queue_max)) [
          | inl full ↦ rw (if_then _ _ _ full) (inr (inl (ground arith, ground arith, refl, refl)))
          | inr room ↦ rw (if_else _ _ _ room) (
              inr (
                inr (
                  ground arith,
                  ground (arith, v.count_in),
                  refl,
                  ap waiting (here _)
                      ∙ ap
                          (ring_items zero_request client_queue_max
                            (set slot.requests ((slot.head + slot.count) % client_queue_max) r)
                            slot.head)
                          {y = suc slot.count} (omega arith)
                      ∙ ring_items-set zero_request client_queue_max slot.requests slot.head
                          slot.count _ r (omega (arith, v.storage)) v.head_in
                          (ground (arith, v.count_in)) refl,
                  subst IsSlot (sym (here _)) (record {
                    storage = length-set slot.requests _ r ∙ v.storage;
                    head_in = v.head_in;
                    count_in = ground (arith, v.count_in);
                  }),
                  λ j ne. get_or-set_ne d.clients i j _ zero_slot ne,
                )))
        ])
      ])
