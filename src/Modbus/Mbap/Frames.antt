-- ===== src/Modbus/Mbap/Frames.antt =====
-- What the bytes of src/modbus/mbap_stream.c mean, as a list: the first request of a sequence of bytes.
use moxa_4vrs_gateway.Prelude.{
  ℕ, ◌+◌, ◌-◌, ◌≤◌, ◌<◌, ◌≡◌, refl, ap, ◌≢◌, ◌⊎◌, inl, inr, not, ◌||◌, List, ◌++◌, arith, ltb, ◌==◌,
  if◌then◌else◌, ltb→lt, Bool-cases, length, get_or, take, drop, length-append, length-drop,
  get_or-append, drop-append_le, take-append_le,
}
use moxa_4vrs_gateway.Modbus.Mbap.{header_size, length_min, length_max, Adu, word}

pub data Verdict : Type 0 where
  waits rejects delivers : Verdict

-- What is done with so many bytes, of which the header holds these two words.
unfoldable pub verdict : ℕ → ℕ → ℕ → Verdict
verdict count protocol mbap_length =
    if ltb count header_size
    then waits
    else if not (protocol == 0) || ltb mbap_length length_min || ltb length_max mbap_length
    then rejects
    else if ltb count (6 + mbap_length)
    then waits
    else delivers

-- The verdict on the first bytes, the request that they hold and the bytes behind it.
abbrev pub verdict_of : List ℕ → Verdict
verdict_of xs =
    verdict (length xs) (word (get_or xs 2 0) (get_or xs 3 0))
      (word (get_or xs 4 0) (get_or xs 5 0))

abbrev pub first_adu : List ℕ → Adu
first_adu xs = record {
  transaction_id = word (get_or xs 0 0) (get_or xs 1 0);
  unit_id = get_or xs 6 0;
  pdu = take (word (get_or xs 4 0) (get_or xs 5 0) - 1) (drop 7 xs);
}

abbrev pub rest_of : List ℕ → List ℕ
rest_of xs = drop (6 + word (get_or xs 4 0) (get_or xs 5 0)) xs

-- A verdict other than to wait is on a whole header, and a delivered frame is whole.
pub verdict_lem :
    (count protocol len : ℕ)
    → (verdict count protocol len ≡ rejects → header_size ≤ count)
      × (verdict count protocol len ≡ delivers
          → (6 + len ≤ count) × (header_size ≤ count) × (length_min ≤ len) × (len ≤ length_max))
unfolding verdict
verdict_lem count protocol len = (λ e. ground arith, λ e. ground arith)

pub verdict_short :
    (count protocol len : ℕ) → count < header_size → verdict count protocol len ≡ waits
unfolding verdict
verdict_short count protocol len h = ground arith

-- More bytes do not change a verdict other than to wait.
verdict_more : (n m p l : ℕ) → verdict n p l ≢ waits → verdict (n + m) p l ≡ verdict n p l
unfolding verdict
verdict_more n m p l h = ground arith

words_lem :
    (xs ys : List ℕ)
    → header_size ≤ length xs
    → (get_or (xs ++ ys) 0 0 ≡ get_or xs 0 0)
      × (get_or (xs ++ ys) 1 0 ≡ get_or xs 1 0)
      × (get_or (xs ++ ys) 2 0 ≡ get_or xs 2 0)
      × (get_or (xs ++ ys) 3 0 ≡ get_or xs 3 0)
      × (get_or (xs ++ ys) 4 0 ≡ get_or xs 4 0)
      × (get_or (xs ++ ys) 5 0 ≡ get_or xs 5 0)
      × (get_or (xs ++ ys) 6 0 ≡ get_or xs 6 0)
words_lem xs ys h = (
  get_or-append xs ys 0 0 (omega arith),
  get_or-append xs ys 1 0 (omega arith),
  get_or-append xs ys 2 0 (omega arith),
  get_or-append xs ys 3 0 (omega arith),
  get_or-append xs ys 4 0 (omega arith),
  get_or-append xs ys 5 0 (omega arith),
  get_or-append xs ys 6 0 (omega arith),
)

abbrev adu_of : List ℕ → List ℕ → Adu
adu_of xs p = record {
  transaction_id = word (get_or xs 0 0) (get_or xs 1 0);
  unit_id = get_or xs 6 0;
  pdu = p;
}

-- The first request of a sequence of bytes does not depend on what follows it.
pub verdict-append :
    (xs ys : List ℕ) → verdict_of xs ≢ waits → verdict_of (xs ++ ys) ≡ verdict_of xs
verdict-append xs ys ne = elim (Bool-cases (ltb (length xs) header_size)) [
  | inl small ↦ absurd (ne (verdict_short (length xs) _ _ (ltb→lt _ _ small)))
  | inr large ↦
      let (_, _, e2, e3, e4, e5, _) = words_lem xs ys (ground arith) in
      rw (e2, e3, e4, e5, length-append) (verdict_more (length xs) (length ys) _ _ ne)
]

pub first_adu-append :
    (xs ys : List ℕ)
    → verdict_of xs ≡ delivers
    → (first_adu (xs ++ ys) ≡ first_adu xs) × (rest_of (xs ++ ys) ≡ rest_of xs ++ ys)
first_adu-append xs ys e =
    let (whole, h, lo, hi) = (verdict_lem (length xs) _ _).1 e in
    let (e0, e1, e2, e3, e4, e5, e6) = words_lem xs ys h in
    (
      rw (e0, e1, e4, e5, e6, drop-append_le 7 xs ys h)
          (ap (λ (p : List ℕ). adu_of xs p)
            (take-append_le _ (drop 7 xs) ys (omega (arith, length-drop 7 xs)))),
      rw (e4, e5) (drop-append_le _ xs ys whole),
    )

-- What a delivered frame leaves is shorter.
pub length-rest_of : (xs : List ℕ) → verdict_of xs ≡ delivers → length (rest_of xs) < length xs
length-rest_of xs e =
    let (whole, h, lo, hi) = (verdict_lem (length xs) _ _).1 e in
    omega (arith, length-drop (6 + word (get_or xs 4 0) (get_or xs 5 0)) xs)

pub Verdict-cases : (v : Verdict) → (v ≡ waits) ⊎ (v ≡ rejects) ⊎ (v ≡ delivers)
Verdict-cases waits = inl refl
Verdict-cases rejects = inr (inl refl)
Verdict-cases delivers = inr (inr refl)
