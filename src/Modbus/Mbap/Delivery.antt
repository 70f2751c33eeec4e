-- ===== src/Modbus/Mbap/Delivery.antt =====
-- What `mbap_stream_feed` of src/modbus/mbap_stream.c delivers, however the bytes come.
use moxa_4vrs_gateway.Prelude.{
  ℕ, zero, suc, ◌+◌, ◌≤◌, ◌≡◌, refl, sym, ap, ap₂, ◌∙◌, Bool, false, Option, some, List, [], ◌++◌,
  append-nil, append_assoc, arith, length, length-append, All, ℤ, pos, negsuc, is_neg,
}
use moxa_4vrs_gateway.Modbus.Mbap.{
  MbapStream, Adu, AduFn, rx_capacity, mbap_stream_feed, feed_result, MbapResult, ok,
}
use moxa_4vrs_gateway.Modbus.Mbap.Stream.{IsValid, buffered}
use moxa_4vrs_gateway.Modbus.Mbap.Frames.{verdict_short}
use moxa_4vrs_gateway.Modbus.Mbap.Parser.{parse, parse_waits}
use moxa_4vrs_gateway.Modbus.Mbap.Feed.{Fed, mbap_stream_feed-Fed}
use moxa_4vrs_gateway.Modbus.Mbap.Fragments.{
  encode_all, IsAdu, Accepts, give_all, parse-append, parse-encode_all,
}

feed_result-ok : (z : ℤ) → feed_result z ≡ ok → z ≡ pos 0
feed_result-ok (pos zero) e = refl
feed_result-ok (pos (suc n)) e = absurd (cc)
feed_result-ok (negsuc n) e = absurd (cc)

module _ {C : Type 0} where
  -- All of a result that later calls depend on.
  abbrev pub observed : MbapResult × MbapStream × C → MbapResult × List ℕ × C × Bool
  observed r = (r.0, buffered r.1, r.2, r.1.poisoned)

  abbrev expected : ℤ × List ℕ × C → MbapResult × List ℕ × C × Bool
  expected r = (feed_result r.0, r.1, r.2, is_neg r.0)

  Fed-observed :
      (s : MbapStream) (r : MbapResult × MbapStream × C) (spec : ℤ × List ℕ × C)
      → Fed s r spec
      → observed r ≡ expected spec
  Fed-observed s r spec f = rw (f.answer, f.left, f.callback_state, f.poisoned)

  -- Two pieces that are fed one after the other, the first with success, come to the same as both at
  -- once, if they fit: the same answer, the same calls of the callback and the same bytes left.
  pub mbap_stream_feed-append :
      (s : MbapStream) (xs ys : List ℕ) (callback : Option (AduFn C)) (c : C)
      → IsValid s
      → s.poisoned ≡ false
      → s.count + length (xs ++ ys) ≤ rx_capacity
      → let first = mbap_stream_feed s (some xs) callback c in
        first.0 ≡ ok
        → first.1.count + length ys ≤ rx_capacity
        → observed (mbap_stream_feed first.1 (some ys) callback first.2)
          ≡ observed (mbap_stream_feed s (some (xs ++ ys)) callback c)
  mbap_stream_feed-append s xs ys callback c v clean fits good later =
      let first = mbap_stream_feed s (some xs) callback c in
      let spec = parse callback c (buffered s ++ xs) in
      let f = mbap_stream_feed-Fed s xs callback c v clean (omega (arith, length-append xs ys)) in
      let zero_ : spec.0 ≡ pos 0 = feed_result-ok spec.0 (sym f.answer ∙ good) in
      let g =
        mbap_stream_feed-Fed first.1 ys callback first.2 f.valid (f.poisoned ∙ ap is_neg zero_)
          later in
      let both = mbap_stream_feed-Fed s (xs ++ ys) callback c v clean fits in
      Fed-observed first.1 _ _ g
      ∙ ap₂ (λ d rest. expected (parse callback d (rest ++ ys))) f.callback_state f.left
      ∙ sym (ap expected (parse-append callback c (buffered s ++ xs) ys zero_))
      ∙ ap (λ zs. expected (parse callback c zs)) (append_assoc (buffered s) xs ys)
      ∙ sym (Fed-observed s _ _ both)

  parse-nothing : (callback : Option (AduFn C)) (c : C) → parse callback c [] ≡ (pos 0, [], c)
  parse-nothing callback c = parse_waits callback c [] (verdict_short 0 _ _ (omega arith))

  -- Whole requests that are fed to a stream with nothing left over go to the callback, exactly those
  -- and in order, if it Accepts them; and again nothing is left over.
  pub mbap_stream_feed-encode_all :
      (s : MbapStream) (as_ : List Adu) (callback : AduFn C) (c : C)
      → IsValid s
      → s.poisoned ≡ false
      → buffered s ≡ []
      → s.count + length (encode_all as_) ≤ rx_capacity
      → All IsAdu as_
      → Accepts callback c as_
      → observed (mbap_stream_feed s (some (encode_all as_)) (some callback) c)
        ≡ (ok, [], give_all callback c as_, false)
  mbap_stream_feed-encode_all s as_ callback c v clean empty_ fits h accepted_ =
      Fed-observed s _ _ (mbap_stream_feed-Fed s (encode_all as_) (some callback) c v clean fits)
      ∙ ap (λ zs. expected (parse (some callback) c zs))
          (ap (λ zs. zs ++ encode_all as_) empty_ ∙ sym (append-nil (encode_all as_)))
      ∙ ap expected (parse-encode_all callback c as_ [] h accepted_)
      ∙ ap expected (parse-nothing (some callback) (give_all callback c as_))
