-- ===== src/Modbus/Mbap/Stream.antt =====
-- The ring of src/modbus/mbap_stream.c holds a list of bytes, and its parser reads that list.
use moxa_4vrs_gateway.Prelude.{
  ℕ, zero, suc, ◌+◌, ◌-◌, ◌%◌, ◌≤◌, ◌<◌, ◌≡◌, refl, sym, ap, ap₂, ◌∙◌, inl, inr, List, ◌∷◌, arith,
  ltb, ltb→lt, Bool-cases, length, get_or, take, drop, ring_items, length-ring_items,
  ring_items-drop, ring_items-take, ring_items-get,
}
use moxa_4vrs_gateway.Modbus.Mbap.{
  MbapStream, header_size, rx_capacity, word, peek, peek_from, adu_at, consume,
}
use moxa_4vrs_gateway.Modbus.Mbap.Frames.{
  Verdict, delivers, verdict, verdict_of, first_adu, rest_of, verdict_lem, verdict_short,
}

abbrev pub buffered : MbapStream → List ℕ
buffered s = ring_items 0 rx_capacity s.bytes s.head s.count

pub record IsValid (s : MbapStream) : Type 0 where
  pub storage : length s.bytes ≡ rx_capacity
  pub head_in : s.head < rx_capacity
  pub count_in : s.count ≤ rx_capacity

pub length-buffered : (s : MbapStream) → length (buffered s) ≡ s.count
length-buffered s = length-ring_items 0 rx_capacity s.bytes s.head s.count

pub peek_lem :
    (s : MbapStream) (i : ℕ) → IsValid s → i < s.count → peek s i ≡ get_or (buffered s) i 0
unfolding peek
peek_lem s i v h = sym (ring_items-get 0 rx_capacity s.bytes s.head s.count i v.head_in h)

peek_from_lem :
    (s : MbapStream) (i n : ℕ)
    → peek_from s i n ≡ ring_items 0 rx_capacity s.bytes ((s.head + i) % rx_capacity) n
unfolding peek
peek_from_lem s i zero = refl
peek_from_lem s i (suc n) =
    ap₂ ◌∷◌ refl
      (peek_from_lem s (i + 1) n ∙ ap (λ h. ring_items 0 rx_capacity s.bytes h n) (omega arith))

peek_from-take :
    (s : MbapStream) (i n : ℕ)
    → IsValid s
    → i + n ≤ s.count
    → peek_from s i n ≡ take n (drop i (buffered s))
peek_from-take s i n v h =
    peek_from_lem s i n
    ∙ sym (
        ap (take n) (ring_items-drop 0 rx_capacity s.bytes s.head i s.count v.head_in (omega arith))
        ∙ ring_items-take 0 rx_capacity s.bytes ((s.head + i) % rx_capacity) n (s.count - i)
            (omega arith) (omega arith))

pub consume-buffered :
    (s : MbapStream) (n : ℕ)
    → IsValid s
    → n ≤ s.count
    → buffered (consume s n) ≡ drop n (buffered s)
unfolding consume
consume-buffered s n v h = sym (ring_items-drop 0 rx_capacity s.bytes s.head n s.count v.head_in h)

pub consume-IsValid : (s : MbapStream) (n : ℕ) → IsValid s → IsValid (consume s n)
unfolding consume
consume-IsValid s n v = record {
  storage = v.storage;
  head_in = omega arith;
  count_in = omega (arith, v.count_in);
}

abbrev pub mbap_length : MbapStream → ℕ
mbap_length s = word (peek s 4) (peek s 5)

abbrev pub stream_verdict : MbapStream → Verdict
stream_verdict s = verdict s.count (word (peek s 2) (peek s 3)) (mbap_length s)

pub stream_verdict_lem : (s : MbapStream) → IsValid s → stream_verdict s ≡ verdict_of (buffered s)
stream_verdict_lem s v = elim (Bool-cases (ltb s.count header_size)) [
  | inl small ↦
      verdict_short s.count _ _ (ltb→lt _ _ small)
      ∙ sym (
          verdict_short (length (buffered s)) _ _
            (omega (arith, length-buffered s, ltb→lt _ _ small)))
  | inr large ↦
      let h : header_size ≤ s.count = ground arith in
      rw
        (
          peek_lem s 2 v (omega arith),
          peek_lem s 3 v (omega arith),
          peek_lem s 4 v (omega arith),
          peek_lem s 5 v (omega arith),
        )
        (ap
          (λ n.
            verdict n (word (get_or (buffered s) 2 0) (get_or (buffered s) 3 0))
              (word (get_or (buffered s) 4 0) (get_or (buffered s) 5 0)))
          (sym (length-buffered s)))
]

pub delivered_lem :
    (s : MbapStream)
    → IsValid s
    → stream_verdict s ≡ delivers
    → (adu_at s (mbap_length s) ≡ first_adu (buffered s))
      × (buffered (consume s (6 + mbap_length s)) ≡ rest_of (buffered s))
delivered_lem s v e =
    let (whole, h, lo, hi) = (verdict_lem s.count _ (mbap_length s)).1 e in
    let len : mbap_length s ≡ word (get_or (buffered s) 4 0) (get_or (buffered s) 5 0) =
      rw (peek_lem s 4 v (omega arith), peek_lem s 5 v (omega arith)) refl in
    (
      rw (peek_from-take s 7 (mbap_length s - 1) v (omega arith)) (
          rw len (
            rw
              (
                peek_lem s 0 v (omega arith),
                peek_lem s 1 v (omega arith),
                peek_lem s 6 v (omega arith),
              )
              refl)),
      consume-buffered s (6 + mbap_length s) v whole ∙ ap (λ n. drop (6 + n) (buffered s)) len,
    )
