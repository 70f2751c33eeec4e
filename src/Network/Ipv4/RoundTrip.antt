-- ===== src/Network/Ipv4/RoundTrip.antt =====
-- That the parser of src/network/gateway_network_settings.c reads what its formatter writes.
use moxa_4vrs_gateway.Prelude.{
  ℕ, suc, ◌+◌, ◌-◌, ◌*◌, ◌/◌, ◌%◌, ◌≤◌, ◌<◌, ◌≡◌, refl, sym, ap, ◌∙◌, inl, inr, true, false, ◌||◌,
  some, List, [], ◌∷◌, ◌++◌, append-nil, arith, ltb, ltb→lt, Bool-cases, if_then, if_else, u32_mod,
}
use moxa_4vrs_gateway.Network.Ipv4.{
  scan_part, is_digit, parse_part, parse_parts, gateway_ipv4_parse, decimal, gateway_ipv4_format,
  check_part, starts_zero,
}

abbrev Undigit : List ℕ → Type 0
Undigit [] = Unit
Undigit (c ∷ cs) = is_digit c ≡ false

scan_part-Undigit :
    (rest : List ℕ) (n digits : ℕ) → Undigit rest → scan_part rest n digits ≡ some (n, digits, rest)
unfolding scan_part
scan_part-Undigit [] n digits u = refl
scan_part-Undigit (c ∷ cs) n digits u = if_else _ _ _ u

-- One digit more is read where the value stays in a byte.
scan_part-digit :
    (k n digits : ℕ) (rest : List ℕ)
    → k < 10
    → digits < 3
    → n * 10 + k < 256
    → scan_part ((48 + k) ∷ rest) n digits ≡ scan_part rest (n * 10 + k) (digits + 1)
unfolding scan_part
scan_part-digit k n digits rest small few fits =
    let d : is_digit (48 + k) ≡ true = ground (arith, small) in
    let value : n * 10 + (48 + k - 48) ≡ n * 10 + k = omega arith in
    let ok : (ltb 3 (digits + 1) || ltb 255 (n * 10 + (48 + k - 48))) ≡ false =
      ground (arith, few, fits) in
    if_then _ _ _ d ∙ if_else _ _ _ ok ∙ ap (λ m. scan_part rest m (digits + 1)) value

one_digit :
    (n : ℕ) (rest : List ℕ)
    → n < 10
    → Undigit rest
    → scan_part ((48 + n) ∷ rest) 0 0 ≡ some (n, 1, rest)
one_digit n rest small u =
    scan_part-digit n 0 0 rest small (omega arith) (omega arith)
    ∙ scan_part-Undigit rest (0 * 10 + n) 1 u
    ∙ ap (λ k. some (k, 1, rest)) (omega arith)

two_digits :
    (n : ℕ) (rest : List ℕ)
    → 10 ≤ n
    → n < 100
    → Undigit rest
    → scan_part ((48 + n / 10) ∷ (48 + n % 10) ∷ rest) 0 0 ≡ some (n, 2, rest)
two_digits n rest big small u =
    scan_part-digit (n / 10) 0 0 _ (omega arith) (omega arith) (omega arith)
    ∙ scan_part-digit (n % 10) (0 * 10 + n / 10) 1 rest (omega arith) (omega arith) (omega arith)
    ∙ scan_part-Undigit rest ((0 * 10 + n / 10) * 10 + n % 10) 2 u
    ∙ ap (λ k. some (k, 2, rest)) (omega arith)

three_digits :
    (n : ℕ) (rest : List ℕ)
    → 100 ≤ n
    → n < 256
    → Undigit rest
    → scan_part ((48 + n / 100) ∷ (48 + n / 10 % 10) ∷ (48 + n % 10) ∷ rest) 0 0 ≡ some (n, 3, rest)
three_digits n rest big small u =
    scan_part-digit (n / 100) 0 0 _ (omega arith) (omega arith) (omega arith)
    ∙ scan_part-digit (n / 10 % 10) (0 * 10 + n / 100) 1 _ (omega arith) (omega arith) (omega arith)
    ∙ scan_part-digit (n % 10) ((0 * 10 + n / 100) * 10 + n / 10 % 10) 2 rest (omega arith)
        (omega arith) (omega arith)
    ∙ scan_part-Undigit rest (((0 * 10 + n / 100) * 10 + n / 10 % 10) * 10 + n % 10) 3 u
    ∙ ap (λ k. some (k, 3, rest)) (omega arith)

parse_part-decimal :
    (n : ℕ) (rest : List ℕ)
    → n < 256
    → Undigit rest
    → parse_part (decimal n ++ rest) ≡ some (n, rest)
unfolding parse_part decimal
parse_part-decimal n rest small u = elim (Bool-cases (ltb n 10)) [
  | inl a ↦
      rw (if_then _ _ _ a) (ap (check_part ((48 + n) ∷ rest)) (one_digit n rest (ltb→lt _ _ a) u))
  | inr a ↦ elim (Bool-cases (ltb n 100)) [
    | inl b ↦
        let text = (48 + n / 10) ∷ (48 + n % 10) ∷ rest in
        let lead : starts_zero text ≡ false = ground (arith, a) in
        rw (if_else _ _ _ a, if_then _ _ _ b)
          (ap (check_part text) (two_digits n rest (ground (arith, a)) (ltb→lt _ _ b) u)
            ∙ if_else _ _ _ lead)
    | inr b ↦
        let text = (48 + n / 100) ∷ (48 + n / 10 % 10) ∷ (48 + n % 10) ∷ rest in
        let lead : starts_zero text ≡ false = ground (arith, b) in
        rw (if_else _ _ _ a, if_else _ _ _ b)
          (ap (check_part text) (three_digits n rest (ground (arith, b)) small u)
            ∙ if_else _ _ _ lead)
  ]
]

-- A part behind which a dot and more follow, and the last.
parse_parts-decimal :
    (left result n : ℕ) (cs : List ℕ)
    → n < 256
    → parse_parts (suc left) result (decimal n ++ 46 ∷ cs) ≡ parse_parts left (result * 256 + n) cs
unfolding parse_parts
parse_parts-decimal left result n cs small =
    rw (parse_part-decimal n (46 ∷ cs) small refl, parse_parts) refl

parse_parts-last :
    (result n : ℕ) → n < 256 → parse_parts 0 result (decimal n) ≡ some (result * 256 + n)
unfolding parse_parts
parse_parts-last result n small =
    rw
      (ap parse_part (sym (append-nil (decimal n))) ∙ parse_part-decimal n [] small tt, parse_parts)
      refl

-- The parser reads back every address of 32 bits that the formatter writes.
pub gateway_ipv4_parse-format :
    (a : ℕ) → a < u32_mod → gateway_ipv4_parse (gateway_ipv4_format a) ≡ some a
unfolding gateway_ipv4_parse gateway_ipv4_format
gateway_ipv4_parse-format a small =
    let p = a / 16777216 % 256 in
    let q = a / 65536 % 256 in
    let r = a / 256 % 256 in
    let s = a % 256 in
    parse_parts-decimal 2 0 p (decimal q ++ (46 ∷ (decimal r ++ (46 ∷ decimal s)))) (omega arith)
    ∙ parse_parts-decimal 1 (0 * 256 + p) q (decimal r ++ (46 ∷ decimal s)) (omega arith)
    ∙ parse_parts-decimal 0 ((0 * 256 + p) * 256 + q) r (decimal s) (omega arith)
    ∙ parse_parts-last (((0 * 256 + p) * 256 + q) * 256 + r) s (omega arith)
    ∙ ap some (omega arith)
