-- ===== src/Modbus/Mbap/Fragments.antt =====
-- How src/modbus/mbap_stream.c reads what comes in pieces, and what it reads of encoded requests.
use moxa_4vrs_gateway.Prelude.{
  ℕ, zero, suc, ◌+◌, ◌*◌, ◌/◌, ◌%◌, ◌≤◌, ◌<◌, ◌≡◌, refl, sym, ap, ap₂, ◌∙◌, ◌≢◌, inl, inr, true,
  Option, some, List, [], ◌∷◌, ◌++◌, append_assoc, arith, Bool-cases, length, take, drop,
  length-append, take-append, drop-append, All, ℤ, pos, negsuc, is_zero, or_fields,
}
use moxa_4vrs_gateway.Modbus.Mbap.{AduFn, call_back, Adu, word, pdu_max}
use moxa_4vrs_gateway.Modbus.Mbap.Frames.{
  verdict_of, Verdict-cases, Verdict, waits, delivers, first_adu, rest_of, verdict-append,
  first_adu-append, length-rest_of, verdict,
}
use moxa_4vrs_gateway.Modbus.Mbap.Parser.{
  parse, parse_waits, parse_rejects, parse_delivers, parse_stops,
}

not_waits : (v : Verdict) → v ≡ delivers → v ≢ waits
not_waits v d w = cc

pos_of_negsuc : {A : Type 0} → negsuc 0 ≡ pos 0 → A
pos_of_negsuc e = cc

one_is_not_zero : {A : Type 0} → pos 1 ≡ pos 0 → A
one_is_not_zero e = absurd (cc)

module _ {C : Type 0} where
  abbrev resumed : Option (AduFn C) → List ℕ → ℤ × List ℕ × C → ℤ × List ℕ × C
  resumed callback ys r = parse callback r.2 (r.1 ++ ys)

  parse-append_within :
      (n : ℕ) (callback : Option (AduFn C)) (c : C) (xs ys : List ℕ)
      → length xs < n
      → (parse callback c xs).0 ≡ pos 0
      → parse callback c (xs ++ ys) ≡ resumed callback ys (parse callback c xs)
  parse-append_within zero callback c xs ys h e = absurd (omega arith)
  parse-append_within (suc n) callback c xs ys h e = elim (Verdict-cases (verdict_of xs)) [
    | inl w ↦ sym (ap (resumed callback ys) (parse_waits callback c xs w))
    | inr (inl r) ↦
        pos_of_negsuc (sym (ap (λ (x : ℤ × List ℕ × C). x.0) (parse_rejects callback c xs r)) ∙ e)
    | inr (inr d) ↦
        let (same, left) = first_adu-append xs ys d in
        let more = verdict-append xs ys (not_waits _ d) ∙ d in
        let answer = call_back callback c (first_adu xs) in
        elim (Bool-cases (is_zero answer.0)) [
          | inl z ↦
              let first = parse_delivers callback c xs d z in
              parse_delivers callback c (xs ++ ys) more
                (ap (λ a. is_zero (call_back callback c a).0) same ∙ z)
              ∙ ap₂ (λ a r. parse callback (call_back callback c a).1 r) same left
              ∙ parse-append_within n callback answer.1 (rest_of xs) ys
                  (omega (arith, length-rest_of xs d))
                  (ap (λ (x : ℤ × List ℕ × C). x.0) (sym first) ∙ e)
              ∙ ap (resumed callback ys) (sym first)
          | inr z ↦
              one_is_not_zero
                (sym (ap (λ (x : ℤ × List ℕ × C). x.0) (parse_stops callback c xs d z)) ∙ e)
        ]
  ]

  -- To parse what has come and, if that goes well, what it leaves with what comes next, is to parse
  -- both together: nothing depends on where the bytes of a connection are cut.
  pub parse-append :
      (callback : Option (AduFn C)) (c : C) (xs ys : List ℕ)
      → (parse callback c xs).0 ≡ pos 0
      → parse callback c (xs ++ ys)
        ≡ parse callback (parse callback c xs).2 ((parse callback c xs).1 ++ ys)
  parse-append callback c xs ys e =
      parse-append_within (suc (length xs)) callback c xs ys (omega arith) e

-- A request as it goes over the connection.
abbrev pub encode : Adu → List ℕ
encode a =
    let len = length a.pdu + 1 in
    a.transaction_id / 256
    ∷ a.transaction_id % 256
    ∷ 0
    ∷ 0
    ∷ len / 256
    ∷ len % 256
    ∷ a.unit_id
    ∷ a.pdu

abbrev pub encode_all : List Adu → List ℕ
encode_all [] = []
encode_all (a ∷ as_) = encode a ++ encode_all as_

abbrev pub IsAdu : Adu → Type 0
IsAdu a = (1 ≤ length a.pdu) × (length a.pdu ≤ pdu_max)

word_lem : (hi lo : ℕ) → lo < 256 → word hi lo ≡ hi * 256 + lo
unfolding word
word_lem hi lo h = or_fields 8 hi lo h

abbrev adu_with : Adu → List ℕ → Adu
adu_with a p = record a { pdu = p }

first_encoded :
    (a : Adu) (ys : List ℕ)
    → IsAdu a
    → (verdict_of (encode a ++ ys) ≡ delivers)
      × (first_adu (encode a ++ ys) ≡ a)
      × (rest_of (encode a ++ ys) ≡ ys)
unfolding verdict
first_encoded a ys (lo, hi) =
    let len = length a.pdu + 1 in
    let protocol : word 0 0 ≡ 0 = word_lem 0 0 (omega arith) in
    let id : word (a.transaction_id / 256) (a.transaction_id % 256) ≡ a.transaction_id =
      word_lem (a.transaction_id / 256) (a.transaction_id % 256) (omega arith) ∙ omega arith in
    let whole : word (len / 256) (len % 256) ≡ len =
      word_lem (len / 256) (len % 256) (omega arith) ∙ omega arith in
    (
      rw (protocol, whole, length-append a.pdu ys) (ground arith),
      rw (id, whole)
          (ap (adu_with a) (
            ap (λ n. take n (a.pdu ++ ys)) {y = length a.pdu} (omega arith)
            ∙ take-append a.pdu ys)),
      rw whole (
          ap (λ n. drop n (encode a ++ ys)) {x = 6 + len} {y = length (encode a)} (omega arith)
          ∙ drop-append (encode a) ys),
    )

module _ {C : Type 0} where
  -- The callback is given these requests, one by one, and accepts them all.
  abbrev pub Accepts : AduFn C → C → List Adu → Type 0
  Accepts callback c [] = Unit
  Accepts callback c (a ∷ as_) =
      (is_zero (callback c a).0 ≡ true) × Accepts callback (callback c a).1 as_

  abbrev pub give_all : AduFn C → C → List Adu → C
  give_all callback c [] = c
  give_all callback c (a ∷ as_) = give_all callback (callback c a).1 as_

  -- Of requests that are sent one after the other, the callback is given exactly those, in order, and
  -- what follows them is parsed as if it came alone.
  pub parse-encode_all :
      (callback : AduFn C) (c : C) (as_ : List Adu) (ys : List ℕ)
      → All IsAdu as_
      → Accepts callback c as_
      → parse (some callback) c (encode_all as_ ++ ys)
        ≡ parse (some callback) (give_all callback c as_) ys
  unfolding call_back
  parse-encode_all callback c [] ys h ok = refl
  parse-encode_all callback c (a ∷ as_) ys (h, hs) (ok, oks) =
      let (d, same, left) = first_encoded a (encode_all as_ ++ ys) h in
      ap (parse (some callback) c) (append_assoc (encode a) (encode_all as_) ys)
      ∙ parse_delivers (some callback) c (encode a ++ (encode_all as_ ++ ys)) d
          (ap (λ b. is_zero (callback c b).0) same ∙ ok)
      ∙ ap₂ (λ b r. parse (some callback) (callback c b).1 r) same left
      ∙ parse-encode_all callback (callback c a).1 as_ ys hs oks
