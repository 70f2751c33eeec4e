-- ===== src/Modbus/Mbap/Parser.antt =====
-- `parse_available` of src/modbus/mbap_stream.c as a parser of a list of bytes.
use moxa_4vrs_gateway.Prelude.{
  ℕ, zero, suc, ◌+◌, ◌≤◌, ◌≡◌, refl, sym, ◌∙◌, inl, inr, true, false, ◌||◌, Option, List, arith,
  if◌then◌else◌, Bool-cases, if_then, if_else, length, ℤ, pos, negsuc, is_zero, is_neg,
}
use moxa_4vrs_gateway.Modbus.Mbap.{
  MbapStream, AduFn, adu_at, consume, reject, call_back, parse_loop, parse_available,
}
use moxa_4vrs_gateway.Modbus.Mbap.Frames.{
  waits, rejects, delivers, verdict, verdict_of, first_adu, rest_of, Verdict-cases, length-rest_of,
  verdict_short,
}
use moxa_4vrs_gateway.Modbus.Mbap.Stream.{
  IsValid, buffered, stream_verdict, mbap_length, consume-IsValid, stream_verdict_lem,
  delivered_lem, length-buffered,
}

module _ {C : Type 0} where
  -- The requests of a sequence of bytes go to the callback, one by one, until the bytes do not hold
  -- another, or hold a malformed one, or the callback stops.
  unfoldable pub parse_for : ℕ → Option (AduFn C) → C → List ℕ → ℤ × List ℕ × C
  parse_for zero callback c xs = (pos 0, xs, c)
  parse_for (suc fuel) callback c xs =
      let (answer, d) = call_back callback c (first_adu xs) in
      let later = parse_for fuel callback d (rest_of xs) in
      elim (verdict_of xs) [
        | waits ↦ (pos 0, xs, c)
        | rejects ↦ (negsuc 0, xs, c)
        | delivers ↦ if is_zero answer then later else (pos 1, xs, d)
      ]

  unfoldable pub parse : Option (AduFn C) → C → List ℕ → ℤ × List ℕ × C
  parse callback c xs = parse_for (length xs) callback c xs

  abbrev pub view : ℤ × MbapStream × C → ℤ × List ℕ × C
  view r = (r.0, buffered r.1, r.2)

  parse_loop_step :
      (fuel : ℕ) (callback : Option (AduFn C)) (c : C) (s : MbapStream)
      → let (answer, d) = call_back callback c (adu_at s (mbap_length s)) in
        let later = parse_loop fuel callback d (consume s (6 + mbap_length s)) in
        parse_loop (suc fuel) callback c s ≡ elim (stream_verdict s) [
          | waits ↦ (pos 0, s, c)
          | rejects ↦ (negsuc 0, reject s, c)
          | delivers ↦ if is_zero answer then later else (pos 1, s, d)
        ]
  unfolding parse_loop verdict
  parse_loop_step fuel callback c s = ground arith

  -- The stream after a parse: valid, holding what the parse of the list leaves, and poisoned if it was
  -- or if the parse fails.
  pub record Parsed (s : MbapStream) (r : ℤ × MbapStream × C) (spec : ℤ × List ℕ × C) : Type 0 where
    pub seen : view r ≡ spec
    pub valid : IsValid r.1
    pub poisoned : r.1.poisoned ≡ (s.poisoned || is_neg r.0)

  Parsed-consume :
      (s : MbapStream) (n : ℕ) (r : ℤ × MbapStream × C) (spec : ℤ × List ℕ × C)
      → Parsed (consume s n) r spec
      → Parsed s r spec
  unfolding consume
  Parsed-consume s n r spec p = record { seen = p.seen; valid = p.valid; poisoned = p.poisoned }

  parse_for_none :
      (m : ℕ) (callback : Option (AduFn C)) (c : C) (xs : List ℕ)
      → length xs ≡ 0
      → parse_for m callback c xs ≡ (pos 0, xs, c)
  unfolding parse_for
  parse_for_none zero callback c xs h = refl
  parse_for_none (suc m) callback c xs h =
      rw (verdict_short (length xs) _ _ (omega (arith, h)), parse_for)

  parse_loop_refines :
      (fuel : ℕ) (callback : Option (AduFn C)) (c : C) (s : MbapStream)
      → IsValid s
      → Parsed s (parse_loop fuel callback c s) (parse_for fuel callback c (buffered s))
  unfolding parse_loop parse_for
  parse_loop_refines zero callback c s v = record {
    seen = refl;
    valid = v;
    poisoned = ground arith;
  }
  parse_loop_refines (suc fuel) callback c s v =
      let same = stream_verdict_lem s v in
      rw (parse_loop_step fuel callback c s) (elim (Verdict-cases (stream_verdict s)) [
        | inl e ↦
            rw (e, sym same ∙ e, parse_for)
              (record { seen = refl; valid = v; poisoned = ground arith })
        | inr (inl e) ↦
            rw (e, sym same ∙ e, parse_for)
              (record {
                seen = refl;
                valid = record { storage = v.storage; head_in = v.head_in; count_in = v.count_in };
                poisoned = ground arith;
              })
        | inr (inr e) ↦
            let (adu, rest) = delivered_lem s v e in
            let d = (call_back callback c (first_adu (buffered s))).1 in
            rw (e, sym same ∙ e, parse_for)
              (rw adu (
                rw (← rest)
                  (elim (Bool-cases (is_zero (call_back callback c (first_adu (buffered s))).0)) [
                    | inl on ↦ rw on (
                        Parsed-consume s _ _ _ (
                          parse_loop_refines fuel callback d (consume s (6 + mbap_length s))
                            (consume-IsValid s _ v)))
                    | inr off ↦ rw off (record { seen = refl; valid = v; poisoned = ground arith })
                  ])))
      ])

  -- The parser of the stream does to its bytes what the parser of lists does, whatever the callback;
  -- the stream stays valid, and is poisoned if it was or if the parser rejects a header.
  pub parse_available_refines :
      (callback : Option (AduFn C)) (c : C) (s : MbapStream)
      → IsValid s
      → Parsed s (parse_available callback c s) (parse callback c (buffered s))
  unfolding parse_available parse
  parse_available_refines callback c s v =
      rw (length-buffered s) (parse_loop_refines s.count callback c s v)

  -- As many rounds as there are bytes are enough.
  parse_for_enough :
      (n m : ℕ) (callback : Option (AduFn C)) (c : C) (xs : List ℕ)
      → length xs ≤ n
      → length xs ≤ m
      → parse_for n callback c xs ≡ parse_for m callback c xs
  unfolding parse_for
  parse_for_enough zero zero callback c xs p q = refl
  parse_for_enough zero (suc m) callback c xs p q =
      sym (parse_for_none (suc m) callback c xs (omega arith))
  parse_for_enough (suc n) zero callback c xs p q =
      (parse_for_none (suc n) callback c xs (omega arith))
  parse_for_enough (suc n) (suc m) callback c xs p q = elim (Verdict-cases (verdict_of xs)) [
    | inl e ↦ rw (e, parse_for)
    | inr (inl e) ↦ rw (e, parse_for)
    | inr (inr e) ↦ rw (
      e,
      parse_for,
      parse_for_enough n m callback (call_back callback c (first_adu xs)).1 (rest_of xs)
          (omega (arith, length-rest_of xs e)) (omega (arith, length-rest_of xs e)),
    )
  ]

  parse_unfold :
      (callback : Option (AduFn C)) (c : C) (xs : List ℕ)
      → let (answer, d) = call_back callback c (first_adu xs) in
        parse callback c xs ≡ elim (verdict_of xs) [
          | waits ↦ (pos 0, xs, c)
          | rejects ↦ (negsuc 0, xs, c)
          | delivers ↦ if is_zero answer then parse callback d (rest_of xs) else (pos 1, xs, d)
        ]
  unfolding parse parse_for
  parse_unfold callback c xs =
      parse_for_enough (length xs) (suc (length xs)) callback c xs (omega arith) (omega arith)
      ∙ elim (Verdict-cases (verdict_of xs)) [
        | inl e ↦ rw (e, parse_for)
        | inr (inl e) ↦ rw (e, parse_for)
        | inr (inr e) ↦ rw (
          e,
          parse_for,
          parse_for_enough (length xs) (length (rest_of xs)) callback
              (call_back callback c (first_adu xs)).1 (rest_of xs)
              (omega (arith, length-rest_of xs e)) (omega arith),
        )
      ]

  pub parse_waits :
      (callback : Option (AduFn C)) (c : C) (xs : List ℕ)
      → verdict_of xs ≡ waits
      → parse callback c xs ≡ (pos 0, xs, c)
  parse_waits callback c xs e = rw (parse_unfold callback c xs) (rw e refl)

  pub parse_rejects :
      (callback : Option (AduFn C)) (c : C) (xs : List ℕ)
      → verdict_of xs ≡ rejects
      → parse callback c xs ≡ (negsuc 0, xs, c)
  parse_rejects callback c xs e = rw (parse_unfold callback c xs) (rw e refl)

  pub parse_delivers :
      (callback : Option (AduFn C)) (c : C) (xs : List ℕ)
      → verdict_of xs ≡ delivers
      → is_zero (call_back callback c (first_adu xs)).0 ≡ true
      → parse callback c xs ≡ parse callback (call_back callback c (first_adu xs)).1 (rest_of xs)
  parse_delivers callback c xs e z = parse_unfold callback c xs ∙ rw e (if_then _ _ _ z)

  pub parse_stops :
      (callback : Option (AduFn C)) (c : C) (xs : List ℕ)
      → verdict_of xs ≡ delivers
      → is_zero (call_back callback c (first_adu xs)).0 ≡ false
      → parse callback c xs ≡ (pos 1, xs, (call_back callback c (first_adu xs)).1)
  parse_stops callback c xs e z = parse_unfold callback c xs ∙ rw e (if_else _ _ _ z)
