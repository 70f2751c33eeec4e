-- ===== src/Modbus/Mbap/Feed.antt =====
-- `mbap_stream_feed` of src/modbus/mbap_stream.c: received bytes go into the ring and are parsed.
use moxa_4vrs_gateway.Prelude.{
  ℕ, zero, suc, ◌+◌, ◌-◌, ◌%◌, ◌≤◌, ◌<◌, min, ◌≡◌, refl, sym, ap, ◌∙◌, ◌⊎◌, inl, inr, true, false,
  Option, none, some, List, [], ◌∷◌, ◌++◌, append-nil, append_assoc, arith, ltb, ◌==◌,
  if◌then◌else◌, Bool-cases, if_then, if_else, sub32, length, set, take, drop, length-set,
  length-replicate, length-take, length-drop, take-append-drop, take_all, length-eq-zero, ℤ, is_neg,
  ring_items, ring_items-set,
}
use moxa_4vrs_gateway.Modbus.Mbap.{
  MbapStream, rx_capacity, append_chunk, copy_at, feed_loop, AduFn, mbap_stream_feed, feed_result,
  overflowed, mbap_stream_init, MbapResult, overflow, malformed,
}
use moxa_4vrs_gateway.Modbus.Mbap.Stream.{IsValid, buffered}
use moxa_4vrs_gateway.Modbus.Mbap.Parser.{parse, parse_available_refines}

length-copy_at : (buf : List ℕ) (at : ℕ) (xs : List ℕ) → length (copy_at buf at xs) ≡ length buf
unfolding copy_at
length-copy_at buf at [] = refl
length-copy_at buf at (x ∷ xs) = length-copy_at (set buf at x) (at + 1) xs ∙ length-set buf at x

-- Bytes copied just behind those of the ring are added to them.
ring_items-copy_at :
    (buf : List ℕ) (h n at : ℕ) (xs : List ℕ)
    → rx_capacity ≤ length buf
    → h < rx_capacity
    → n + length xs ≤ rx_capacity
    → at + length xs ≤ rx_capacity
    → (0 < length xs → at ≡ (h + n) % rx_capacity)
    → ring_items 0 rx_capacity (copy_at buf at xs) h (n + length xs)
      ≡ ring_items 0 rx_capacity buf h n ++ xs
unfolding copy_at
ring_items-copy_at buf h n at [] fits hh hn ha e =
    ap (ring_items 0 rx_capacity buf h) (omega arith) ∙ sym (append-nil _)
ring_items-copy_at buf h n at (x ∷ xs) fits hh hn ha e =
    let first = e (omega arith) in
    ap (ring_items 0 rx_capacity (copy_at (set buf at x) (at + 1) xs) h) {y = suc n + length xs}
      (omega arith)
    ∙ ring_items-copy_at (set buf at x) h (suc n) (at + 1) xs (omega (arith, length-set buf at x))
        hh (omega arith) (omega arith) (λ p. omega (arith, first))
    ∙ ap (λ ys. ys ++ xs) (ring_items-set 0 rx_capacity buf h n at x fits hh (omega arith) first)
    ∙ append_assoc (ring_items 0 rx_capacity buf h n) (x ∷ []) xs

append_chunk-buffered :
    (s : MbapStream) (content : List ℕ)
    → IsValid s
    → s.count + length content ≤ rx_capacity
    → (buffered (append_chunk s content (length content)) ≡ buffered s ++ content)
      × IsValid (append_chunk s content (length content))
unfolding append_chunk
append_chunk-buffered s content v fits =
    let tail = (s.head + s.count) % rx_capacity in
    let first = min (rx_capacity - tail) (length content) in
    let xs = take first content in
    let ys = take (length content - first) (drop first content) in
    let first_copied = copy_at s.bytes tail xs in
    let all : ys ≡ drop first content = take_all _ _ (omega (arith, length-drop first content)) in
    let lx : length xs ≡ first = omega (arith, length-take first content) in
    let ly : length ys ≡ length content - first = ap length all ∙ length-drop first content in
    let stored = length-copy_at s.bytes tail xs in
    (
      ap (ring_items 0 rx_capacity (copy_at first_copied 0 ys) s.head)
            {y = (s.count + length xs) + length ys} (omega (arith, lx, ly))
          ∙ ring_items-copy_at first_copied s.head (s.count + length xs) 0 ys
              (omega (arith, stored, v.storage)) v.head_in (omega (arith, lx, ly))
              (omega (arith, lx, ly)) (λ p. omega (arith, lx, ly, p, v.head_in))
          ∙ ap (λ zs. zs ++ ys)
              (ring_items-copy_at s.bytes s.head s.count tail xs (omega (arith, v.storage))
                v.head_in (omega (arith, lx)) (omega (arith, lx)) (λ p. refl))
          ∙ append_assoc (buffered s) xs ys
          ∙ ap (λ zs. buffered s ++ zs) (ap (λ zs. xs ++ zs) all ∙ take-append-drop first content),
      record {
        storage = length-copy_at first_copied 0 ys ∙ stored ∙ v.storage;
        head_in = v.head_in;
        count_in = fits;
      },
    )

feed_loop_done : (fuel : ℕ) (s : MbapStream) → feed_loop fuel s [] ≡ (true, s)
unfolding feed_loop
feed_loop_done zero s = refl
feed_loop_done (suc fuel) s = refl

-- Bytes that fit go in at once.
feed_loop_whole :
    (s : MbapStream) (x : ℕ) (xs : List ℕ)
    → s.count + length (x ∷ xs) ≤ rx_capacity
    → feed_loop (length (x ∷ xs)) s (x ∷ xs) ≡ (true, append_chunk s (x ∷ xs) (length (x ∷ xs)))
unfolding feed_loop
feed_loop_whole s x xs fits =
    let content = x ∷ xs in
    let room = sub32 rx_capacity s.count in
    let chunk = if ltb (length content) room then length content else room in
    let some_bytes : (length content == 0) ≡ false = ground arith in
    let some_room : (room == 0) ≡ false = ground arith in
    let whole : chunk ≡ length content = ground arith in
    rw (if_else _ _ _ some_bytes) (
      rw (if_else _ _ _ some_room) (
        rw whole (
          ap (feed_loop (length xs) (append_chunk s content (length content))) (
            length-eq-zero (drop (length content) content)
              (omega (arith, length-drop (length content) content)))
          ∙ feed_loop_done (length xs) _)))

feed_loop_lem :
    (s : MbapStream) (content : List ℕ)
    → IsValid s
    → s.count + length content ≤ rx_capacity
    → ((feed_loop (length content) s content).0 ≡ true)
      × (buffered (feed_loop (length content) s content).1 ≡ buffered s ++ content)
      × IsValid (feed_loop (length content) s content).1
      × ((feed_loop (length content) s content).1.poisoned ≡ s.poisoned)
unfolding append_chunk
feed_loop_lem s [] v fits = rw (feed_loop_done 0 s) (refl, sym (append-nil (buffered s)), v, refl)
feed_loop_lem s (x ∷ xs) v fits =
    let (e, w) = append_chunk-buffered s (x ∷ xs) v fits in
    rw (feed_loop_whole s x xs fits) (refl, e, w, refl)

module _ {C : Type 0} where
  -- What comes of bytes that are fed to a stream.
  pub record Fed (s : MbapStream) (result : MbapResult × MbapStream × C) (spec : ℤ × List ℕ × C)
      : Type 0 where
    pub answer : result.0 ≡ feed_result spec.0
    pub left : buffered result.1 ≡ spec.1
    pub callback_state : result.2 ≡ spec.2
    pub valid : IsValid result.1
    pub poisoned : result.1.poisoned ≡ is_neg spec.0

  -- On a valid stream that is not poisoned, bytes that fit in behind the others are parsed together
  -- with them: the answer, the bytes that are left and the state of the callback are those of the
  -- parser of lists, the stream stays valid, and it is poisoned exactly if a header was rejected.
  pub mbap_stream_feed-Fed :
      (s : MbapStream) (content : List ℕ) (callback : Option (AduFn C)) (c : C)
      → IsValid s
      → s.poisoned ≡ false
      → s.count + length content ≤ rx_capacity
      → Fed s
          (mbap_stream_feed s (some content) callback c)
          (parse callback c (buffered s ++ content))
  unfolding mbap_stream_feed
  mbap_stream_feed-Fed s content callback c v clean fits =
      let (whole, e, w, same) = feed_loop_lem s content v fits in
      let t = (feed_loop (length content) s content).1 in
      let p = parse_available_refines callback c t w in
      let room : ltb (sub32 rx_capacity s.count) (length content) ≡ false =
        ground (arith, v.count_in) in
      rw (if_else _ _ _ clean) (
        rw (if_else _ _ _ room) (
          rw (if_then _ _ _ whole) (
            rw (← e) (record {
              answer = ap (λ (r : ℤ × List ℕ × C). feed_result r.0) p.seen;
              left = ap (λ (r : ℤ × List ℕ × C). r.1) p.seen;
              callback_state = ap (λ (r : ℤ × List ℕ × C). r.2) p.seen;
              valid = p.valid;
              poisoned =
                  p.poisoned ∙ rw (same ∙ clean) (ap (λ (r : ℤ × List ℕ × C). is_neg r.0) p.seen);
            }))))

  -- The result of feeding a stream that is poisoned or has no room for all the bytes, and of a later
  -- feed of any bytes.
  pub record Refused (s : MbapStream) (callback : Option (AduFn C)) (c : C)
      (result : MbapResult × MbapStream × C) : Type 0 where
    pub reason :
        ((s.poisoned ≡ true) × (result.0 ≡ malformed) × (result.1 ≡ s))
        ⊎ ((s.poisoned ≡ false) × (result.0 ≡ overflow) × (result.1 ≡ overflowed s))
    pub silent : result.2 ≡ c
    pub poisoned : result.1.poisoned ≡ true
    pub later :
        (more : Option (List ℕ))
        → mbap_stream_feed result.1 more callback c ≡ (malformed, result.1, c)

  poisoned-later :
      (s : MbapStream) (more : Option (List ℕ)) (callback : Option (AduFn C)) (c : C)
      → s.poisoned ≡ true
      → mbap_stream_feed s more callback c ≡ (malformed, s, c)
  unfolding mbap_stream_feed
  poisoned-later s none callback c dirty = refl
  poisoned-later s (some content) callback c dirty = if_then _ _ _ dirty

  -- A stream that is poisoned takes nothing, and counts no overflow; one that has no room for all the
  -- bytes takes none of them, counts an overflow and is poisoned. The callback is not called, and
  -- whatever is fed later is refused as malformed.
  pub mbap_stream_feed-Refused :
      (s : MbapStream) (content : List ℕ) (callback : Option (AduFn C)) (c : C)
      → IsValid s
      → (s.poisoned ≡ true) ⊎ (rx_capacity < s.count + length content)
      → Refused s callback c (mbap_stream_feed s (some content) callback c)
  unfolding mbap_stream_feed
  mbap_stream_feed-Refused s content callback c v h = elim (Bool-cases s.poisoned) [
    | inl dirty ↦ rw (if_then _ _ _ dirty) (record {
      reason = inl (dirty, refl, refl);
      silent = refl;
      poisoned = dirty;
      later = λ more. poisoned-later s more callback c dirty;
    })
    | inr clean ↦
        let room : ltb (sub32 rx_capacity s.count) (length content) ≡ true =
          ground (arith, v.count_in) in
        rw (if_else _ _ _ clean, if_then _ _ _ room)
          (record {
            reason = inr (clean, refl, refl);
            silent = refl;
            poisoned = refl;
            later = λ more. poisoned-later (overflowed s) more callback c refl;
          })
  ]

pub mbap_stream_init-IsValid : IsValid mbap_stream_init
unfolding mbap_stream_init
mbap_stream_init-IsValid = record {
  storage = length-replicate {A = ℕ} rx_capacity 0;
  head_in = omega arith;
  count_in = omega arith;
}
