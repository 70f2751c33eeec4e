-- ===== src/Queue/Fifo.antt =====
-- The transaction queue of src/core/port_runtime.c as a first-in first-out list.
use moxa_4vrs_gateway.Prelude.{
  ℕ, ◌+◌, ◌-◌, ◌%◌, ◌≤◌, ◌<◌, ◌≡◌, refl, sym, ap, ◌⊎◌, inl, inr, ◌&&◌, Option, none, some, List, [],
  ◌∷◌, ◌++◌, arith, ltb, leb, ◌==◌, if◌then◌else◌, Bool-cases, u32_mod, add32, sub32, length,
  get_or, length-set, ring_items, length-ring_items, ring_items-set, ring_items_of_pos,
}
use moxa_4vrs_gateway.Transaction.{Transaction, zero_transaction}
use moxa_4vrs_gateway.Queue.{TransactionQueue, capacity, bytes_max, empty, push, pop}

-- The transactions of a queue, oldest first.
abbrev pub contents : TransactionQueue → List Transaction
contents q = ring_items zero_transaction capacity q.entries q.head q.count

pub length-contents : (q : TransactionQueue) → length (contents q) ≡ q.count
length-contents q = length-ring_items zero_transaction capacity q.entries q.head q.count

abbrev pub total_bytes : List Transaction → ℕ
total_bytes [] = 0
total_bytes (t ∷ ts) = t.payload_length + total_bytes ts

pub record IsValid (q : TransactionQueue) : Type 0 where
  pub storage : length q.entries ≡ capacity
  pub head_in : q.head < capacity
  pub count_in : q.count ≤ capacity
  pub counted : q.bytes ≡ total_bytes (contents q)
  pub bounded : q.bytes ≤ bytes_max

total_bytes-append :
    (ts us : List Transaction) → total_bytes (ts ++ us) ≡ total_bytes ts + total_bytes us
total_bytes-append [] us = omega arith
total_bytes-append (t ∷ ts) us = omega (arith, total_bytes-append ts us)

pub empty-IsValid : IsValid empty
unfolding empty
empty-IsValid = omega arith

pub contents-empty : contents empty ≡ []
unfolding empty
contents-empty = refl

-- The abstract queue: a list of at most `capacity` transactions and `bytes_max` bytes.
unfoldable pub enqueue : List Transaction → Transaction → Option (List Transaction)
enqueue ts t =
    if ltb (length ts) capacity && leb (total_bytes ts + t.payload_length) bytes_max
    then some (ts ++ t ∷ [])
    else none

abbrev pub Holds : Option TransactionQueue → Option (List Transaction) → Type 0
Holds none none = Unit
Holds none (some ts) = ⊥
Holds (some q) none = ⊥
Holds (some q) (some ts) = IsValid q × (contents q ≡ ts)

-- `queue_push` accepts exactly when there is room for the entry and for its bytes, and then adds it
-- behind the others and keeps the queue valid.
pub push_refines :
    (q : TransactionQueue) (t : Transaction)
    → IsValid q
    → t.payload_length < u32_mod - bytes_max
    → Holds (push q t) (enqueue (contents q) t)
unfolding push enqueue
push_refines q t v small = ground (
  arith,
  length-ring_items zero_transaction capacity q.entries q.head q.count,
  length-set q.entries (add32 q.head q.count % capacity) t,
  ring_items-set zero_transaction capacity q.entries q.head q.count
      (add32 q.head q.count % capacity) t,
  total_bytes-append (contents q) (t ∷ []),
)

-- `queue_pop` fails on the empty queue only, and otherwise takes the oldest entry out and keeps the
-- queue valid.
pub pop_refines :
    (q : TransactionQueue)
    → IsValid q
    → ((pop q ≡ none) × (contents q ≡ []))
      ⊎ ((t : Transaction) × (r : TransactionQueue) × (pop q ≡ some (t, r))
          × (contents q ≡ t ∷ contents r)
          × IsValid r)
unfolding pop
pop_refines q v = elim (Bool-cases (q.count == 0)) [
  | inl none_left ↦ inl (ground arith, ground arith)
  | inr some_left ↦ inr (
    get_or q.entries q.head zero_transaction,
    record q {
      bytes = sub32 q.bytes (get_or q.entries q.head zero_transaction).payload_length;
      head = add32 q.head 1 % capacity;
      count = sub32 q.count 1;
    },
    rw some_left,
    ground (arith, ring_items_of_pos zero_transaction capacity q.entries q.head q.count),
    ground (arith, ring_items_of_pos zero_transaction capacity q.entries q.head q.count),
  )
]

Holds-cases :
    (x : Option TransactionQueue) (y : Option (List Transaction))
    → Holds x y
    → ((x ≡ none) × (y ≡ none))
      ⊎ ((r : TransactionQueue) × (x ≡ some r) × (y ≡ some (contents r)) × IsValid r)
Holds-cases none none h = inl (refl, refl)
Holds-cases none (some ts) h = absurd h
Holds-cases (some q) none h = absurd h
Holds-cases (some q) (some ts) h = inr (q, refl, ap some (sym h.1), h.0)

-- `push_refines` by cases.
pub push_cases :
    (q : TransactionQueue) (t : Transaction)
    → IsValid q
    → t.payload_length < u32_mod - bytes_max
    → (push q t ≡ none)
      ⊎ ((r : TransactionQueue) × (push q t ≡ some r)
          × (contents r ≡ contents q ++ t ∷ [])
          × IsValid r)
unfolding enqueue
push_cases q t v small =
    elim (Holds-cases (push q t) (enqueue (contents q) t) (push_refines q t v small)) [
      | inl (e, _) ↦ inl e
      | inr (r, e, f, w) ↦ inr (r, e, ground arith, w)
    ]
