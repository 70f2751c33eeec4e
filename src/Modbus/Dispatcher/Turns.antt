-- ===== src/Modbus/Dispatcher/Turns.antt =====
-- The round robin of src/modbus/modbus_dispatcher.c.
use moxa_4vrs_gateway.Prelude.{
  ℕ, zero, suc, ◌+◌, ◌-◌, ◌%◌, ◌≤◌, ◌<◌, ◌≡◌, refl, sym, ap, subst, ◌∙◌, ◌≢◌, ◌⊎◌, inl, inr, true,
  false, some, List, [], ◌∷◌, ◌++◌, arith, ltb, ◌==◌, ltb→lt, ==_iff, Bool-cases, if_then, if_else,
  length, get_or, length-set, get_or-set_self, get_or-set_ne, ring_items_of_pos,
}
use moxa_4vrs_gateway.Port.State.{Port, SubmitResult, accepted, invalid_request}
use moxa_4vrs_gateway.Modbus.Adapter.{TcpRequest, modbus_tcp_submit}
use moxa_4vrs_gateway.Modbus.Dispatcher.Clients.{waiting, IsSlot}
use moxa_4vrs_gateway.Modbus.Dispatcher.{
  zero_slot, zero_request, is_accepted, ClientSlot, client_queue_max, Dispatcher, slot_at,
  is_waiting, client_max, serve, serve_loop, modbus_dispatcher_step,
}

-- How many slots stand before a slot in the round.
abbrev pub distance : Dispatcher → ℕ → ℕ
distance d i = (i + client_max - d.next_client) % client_max

true_is_not_false : {A : Type 0} → true ≡ false → A
true_is_not_false e = absurd (cc)

module _ {B : Type 0} (p : Port B) (now queue_timeout response_timeout : ℕ) where
  -- The slot that is served: the first from the next client on in which a request waits.
  pub record Served (d : Dispatcher) (n left : ℕ) (result : SubmitResult × Dispatcher × Port B)
      (k : ℕ) : Type 0 where
    pub from : n ≤ k
    pub below : k < n + left
    pub waiting : is_waiting (slot_at d ((d.next_client + k) % client_max)) ≡ true
    pub passed :
        (j : ℕ) → n ≤ j → j < k → is_waiting (slot_at d ((d.next_client + j) % client_max)) ≡ false
    pub served :
        result ≡ serve d p ((d.next_client + k) % client_max) now queue_timeout response_timeout

  before :
      (d : Dispatcher) (n j : ℕ)
      → is_waiting (slot_at d ((d.next_client + n) % client_max)) ≡ false
      → n ≤ j
      → (n + 1 ≤ j → is_waiting (slot_at d ((d.next_client + j) % client_max)) ≡ false)
      → is_waiting (slot_at d ((d.next_client + j) % client_max)) ≡ false
  before d n j e lo later = elim (Bool-cases (n == j)) [
    | inl same ↦
        subst (λ m. is_waiting (slot_at d ((d.next_client + m) % client_max)) ≡ false)
          ((==_iff n j).0 same) e
    | inr other ↦ later (ground arith)
  ]

  serve_loop_lem :
      (left n : ℕ) (d : Dispatcher)
      → ((k : ℕ) × Served d n left (serve_loop left n d p now queue_timeout response_timeout) k)
        ⊎ (((j : ℕ)
              → n ≤ j
              → j < n + left
              → is_waiting (slot_at d ((d.next_client + j) % client_max)) ≡ false)
            × (serve_loop left n d p now queue_timeout response_timeout ≡ (invalid_request, d, p)))
  unfolding serve_loop
  serve_loop_lem zero n d = inr ((λ j lo hi. absurd (omega arith)), refl)
  serve_loop_lem (suc left) n d =
      let index = (d.next_client + n) % client_max in
      elim (Bool-cases (is_waiting (slot_at d index))) [
        | inl e ↦ inl (
          n,
          record {
            from = omega arith;
            below = omega arith;
            waiting = e;
            passed = λ j lo hi. absurd (omega arith);
            served = if_then _ _ _ e;
          },
        )
        | inr e ↦ elim (serve_loop_lem left (n + 1) d) [
          | inl (k, s) ↦ inl (
            k,
            record {
              from = omega (arith, s.from);
              below = omega (arith, s.below);
              waiting = s.waiting;
              passed = λ j lo hi. before d n j e lo (λ h. s.passed j h hi);
              served = if_else _ _ _ e ∙ s.served;
            },
          )
          | inr (idle, r) ↦
              inr
                ((λ j lo hi. before d n j e lo (λ h. idle j h (omega arith))), if_else _ _ _ e ∙ r)
        ]
      ]

  serve-next :
      (d : Dispatcher) (i : ℕ)
      → (serve d p i now queue_timeout response_timeout).1.next_client ≡ (i + 1) % client_max
  unfolding serve
  serve-next d i = ground arith

  serve-others :
      (d : Dispatcher) (i j : ℕ)
      → i ≢ j
      → slot_at (serve d p i now queue_timeout response_timeout).1 j ≡ slot_at d j
  unfolding serve
  serve-others d i j ne =
      let slot = slot_at d i in
      let request = get_or slot.requests slot.head zero_request in
      elim (Bool-cases
        (is_accepted (modbus_tcp_submit p (some request) now queue_timeout response_timeout).0)) [
          | inl e ↦ rw e (get_or-set_ne d.clients i j _ zero_slot ne)
          | inr e ↦ rw e
        ]

  -- What serving the client of slot `i` does: the first of its requests is submitted to the port, and
  -- goes from its slot if it is accepted and stays if not; the other slots are as they were, and the
  -- client after it is next.
  pub record Offered (d : Dispatcher) (i : ℕ) (result : SubmitResult × Dispatcher × Port B)
      : Type 0 where
    pub request : TcpRequest
    pub rest : List TcpRequest
    pub first : waiting (slot_at d i) ≡ request ∷ rest
    pub submitted :
        let s = modbus_tcp_submit p (some request) now queue_timeout response_timeout in
        (result.0 ≡ s.0) × (result.2 ≡ s.1)
    pub taken :
        ((result.0 ≡ accepted)
          × (waiting (slot_at result.1 i) ≡ rest)
          × IsSlot (slot_at result.1 i))
        ⊎ ((is_accepted result.0 ≡ false) × (slot_at result.1 i ≡ slot_at d i))
    pub others : (j : ℕ) → i ≢ j → slot_at result.1 j ≡ slot_at d j
    pub next : result.1.next_client ≡ (i + 1) % client_max

  serve-Offered :
      (d : Dispatcher) (i : ℕ)
      → i < length d.clients
      → IsSlot (slot_at d i)
      → is_waiting (slot_at d i) ≡ true
      → Offered d i (serve d p i now queue_timeout response_timeout)
  serve-Offered d i hi v w =
      let slot = slot_at d i in
      let request = get_or slot.requests slot.head zero_request in
      let s = modbus_tcp_submit p (some request) now queue_timeout response_timeout in
      let advanced : ClientSlot = record slot {
        head = (slot.head + 1) % client_queue_max;
        count = slot.count - 1;
      } in
      record {
        request = request;
        rest = waiting advanced;
        first =
            ring_items_of_pos zero_request client_queue_max slot.requests slot.head slot.count
              (ground (arith, w));
        submitted = unfold serve in (refl, refl);
        taken = elim (Bool-cases (is_accepted s.0)) [
          | inl e ↦
              let here : slot_at (serve d p i now queue_timeout response_timeout).1 i ≡ advanced =
                unfold serve in rw e (get_or-set_self d.clients i advanced zero_slot hi) in
              inl (
                unfold serve in ground (arith, e),
                ap waiting here,
                subst IsSlot (sym here) (record {
                  storage = v.storage;
                  head_in = omega arith;
                  count_in = omega (arith, v.count_in);
                }),
              )
          | inr e ↦ inr (unfold serve in e, unfold serve in rw e refl)
        ];
        others = serve-others d i;
        next = serve-next d i;
      }

  -- A turn serves the client of slot `i`, or leaves it waiting with fewer slots before it.
  abbrev Nearer : Dispatcher → ℕ → SubmitResult × Dispatcher × Port B → Type 0
  Nearer d i result =
      (result ≡ serve d p i now queue_timeout response_timeout)
      ⊎ ((distance result.1 i < distance d i)
          × (slot_at result.1 i ≡ slot_at d i)
          × (result.1.next_client < client_max)
          × (length result.1.clients ≡ length d.clients))

  serve-length :
      (d : Dispatcher) (i : ℕ)
      → length (serve d p i now queue_timeout response_timeout).1.clients ≡ length d.clients
  unfolding serve
  serve-length d i =
      let slot = slot_at d i in
      let request = get_or slot.requests slot.head zero_request in
      elim (Bool-cases
        (is_accepted (modbus_tcp_submit p (some request) now queue_timeout response_timeout).0)) [
          | inl e ↦ rw e (length-set d.clients i _)
          | inr e ↦ rw e
        ]

  -- A client with a request waiting is served in this turn, or it goes on waiting, its slot as it was,
  -- and fewer slots stand before it.
  modbus_dispatcher_step-Nearer :
      (d : Dispatcher) (i : ℕ)
      → d.next_client < client_max
      → i < client_max
      → is_waiting (slot_at d i) ≡ true
      → Nearer d i (modbus_dispatcher_step d p now queue_timeout response_timeout)
  unfolding modbus_dispatcher_step
  modbus_dispatcher_step-Nearer d i hn hi w =
      let own : (d.next_client + distance d i) % client_max ≡ i = omega arith in
      let waits : is_waiting (slot_at d ((d.next_client + distance d i) % client_max)) ≡ true =
        ap (λ m. is_waiting (slot_at d m)) own ∙ w in
      elim (serve_loop_lem client_max 0 d) [
        | inr (idle, r) ↦
            true_is_not_false (sym waits ∙ idle (distance d i) (omega arith) (omega arith))
        | inl (k, s) ↦
            let index = (d.next_client + k) % client_max in
            elim (Bool-cases (ltb k (distance d i))) [
              | inl nearer ↦
                  let h = ltb→lt k (distance d i) nearer in
                  let other : index ≢ i = λ e. absurd (omega (arith, e)) in
                  let next = serve-next d index in
                  inr (
                    rw s.served (
                      omega (arith, next, h),
                      serve-others d index i other,
                      omega (arith, next),
                      serve-length d index,
                    ))
              | inr at_it ↦ elim (Bool-cases (ltb (distance d i) k)) [
                | inl past ↦
                    true_is_not_false
                      (sym waits ∙ s.passed (distance d i) (omega arith) (ltb→lt _ _ past))
                | inr here ↦
                    let same : k ≡ distance d i = ground arith in
                    inl (
                      s.served
                      ∙ ap (λ m. serve d p m now queue_timeout response_timeout)
                          (ap (λ m. (d.next_client + m) % client_max) same ∙ own))
              ]
            ]
      ]

-- A turn of the dispatcher: the port that it finds, and the times that it is given.
pub record Turn (B : Type 0) : Type 0 where
  pub port : Port B
  pub now : ℕ
  pub queue_timeout : ℕ
  pub response_timeout : ℕ

module _ {B : Type 0} where
  abbrev pub turned : Dispatcher → Turn B → SubmitResult × Dispatcher × Port B
  turned d t = modbus_dispatcher_step d t.port t.now t.queue_timeout t.response_timeout

  abbrev pub after : Dispatcher → List (Turn B) → Dispatcher
  after d [] = d
  after d (t ∷ ts) = after (turned d t).1 ts

  -- One of the turns serves the client of slot `i`, which has gone on waiting until then.
  pub record ServedIn (d : Dispatcher) (i : ℕ) (ts : List (Turn B)) : Type 0 where
    pub before : List (Turn B)
    pub serving : Turn B
    pub behind : List (Turn B)
    pub split : ts ≡ before ++ serving ∷ behind
    pub waited : slot_at (after d before) i ≡ slot_at d i
    pub offered :
        Offered serving.port serving.now serving.queue_timeout serving.response_timeout
          (after d before)
          i
          (turned (after d before) serving)

  served_within :
      (ts : List (Turn B)) (d : Dispatcher) (i : ℕ)
      → length d.clients ≡ client_max
      → d.next_client < client_max
      → i < client_max
      → IsSlot (slot_at d i)
      → is_waiting (slot_at d i) ≡ true
      → distance d i < length ts
      → ServedIn d i ts
  served_within [] d i n hn hi v w h = absurd (omega arith)
  served_within (t ∷ ts) d i n hn hi v w h =
      let r = turned d t in
      elim (modbus_dispatcher_step-Nearer t.port t.now t.queue_timeout t.response_timeout d i hn hi
        w) [
          | inl served ↦ record {
            before = [];
            serving = t;
            behind = ts;
            split = refl;
            waited = refl;
            offered =
                subst (Offered t.port t.now t.queue_timeout t.response_timeout d i) (sym served) (
                  serve-Offered t.port t.now t.queue_timeout t.response_timeout d i
                    (omega (arith, n)) v w);
          }
          | inr (near, same, next, size) ↦
              let later =
                served_within ts r.1 i (size ∙ n) next hi (subst IsSlot (sym same) v)
                  (ap is_waiting same ∙ w) (omega arith) in
              record {
                before = t ∷ later.before;
                serving = later.serving;
                behind = later.behind;
                split = ap (◌∷◌ t) later.split;
                waited = later.waited ∙ same;
                offered = later.offered;
              }
        ]

  -- A client with a request waiting is served within as many turns as there are slots, whatever ports
  -- and times the turns are given: its slot stays as it is until a turn submits the first of its
  -- requests to the port, which leaves the slot if it is accepted and stays if not.
  pub modbus_dispatcher_step-ServedIn :
      (d : Dispatcher) (i : ℕ) (ts : List (Turn B))
      → length d.clients ≡ client_max
      → d.next_client < client_max
      → i < client_max
      → IsSlot (slot_at d i)
      → is_waiting (slot_at d i) ≡ true
      → client_max ≤ length ts
      → ServedIn d i ts
  modbus_dispatcher_step-ServedIn d i ts n hn hi v w enough =
      served_within ts d i n hn hi v w (omega (arith, enough))
