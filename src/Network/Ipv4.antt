-- ===== src/Network/Ipv4.antt =====
-- `gateway_ipv4_parse` and `gateway_ipv4_format` of src/network/gateway_network_settings.c.
pub mod RoundTrip
use moxa_4vrs_gateway.Prelude.{
  ℕ, zero, suc, ◌+◌, ◌-◌, ◌*◌, ◌/◌, ◌%◌, Bool, false, ◌&&◌, ◌||◌, Option, none, some, List, [], ◌∷◌,
  ◌++◌, ltb, leb, ◌==◌, if◌then◌else◌,
}

-- A text is the list of its bytes up to the terminating zero.
abbrev is_digit : ℕ → Bool
is_digit c = leb 48 c && leb c 57

-- The loop over the digits of a part: its value and its number of digits so far. A failure inside it
-- comes from a fourth digit or a value above 255, so that the position stays below
-- `GATEWAY_IPV4_TEXT_MAX` and the tests of it are left out.
unfoldable pub scan_part : List ℕ → ℕ → ℕ → Option (ℕ × ℕ × List ℕ)
scan_part [] n digits = some (n, digits, [])
scan_part (c ∷ cs) n digits =
    let m = n * 10 + (c - 48) in
    let rest = scan_part cs m (digits + 1) in
    if is_digit c
    then (if ltb 3 (digits + 1) || ltb 255 m then none else rest)
    else some (n, digits, c ∷ cs)

abbrev starts_zero : List ℕ → Bool
starts_zero [] = false
starts_zero (c ∷ cs) = c == 48

-- The test behind the loop: some digits, and no leading zero.
abbrev check_part : List ℕ → Option (ℕ × ℕ × List ℕ) → Option (ℕ × List ℕ)
check_part text none = none
check_part text (some (n, digits, rest)) =
    if digits == 0 || (ltb 1 digits && starts_zero text) then none else some (n, rest)

unfoldable pub parse_part : List ℕ → Option (ℕ × List ℕ)
parse_part text = check_part text (scan_part text 0 0)

abbrev after_dot : List ℕ → Option (List ℕ)
after_dot [] = none
after_dot (c ∷ cs) = if c == 46 then some cs else none

abbrev at_end : ℕ → List ℕ → Option ℕ
at_end value [] = some value
at_end value (c ∷ cs) = none

-- A part, and so many more behind dots, onto the value so far.
unfoldable pub parse_parts : ℕ → ℕ → List ℕ → Option ℕ
parse_parts zero result text = elim (parse_part text) [
  | none ↦ none
  | some (n, rest) ↦ at_end (result * 256 + n) rest
]
parse_parts (suc left) result text = elim (parse_part text) [
  | none ↦ none
  | some (n, rest) ↦ elim (after_dot rest) [
    | none ↦ none
    | some cs ↦ parse_parts left (result * 256 + n) cs
  ]
]

unfoldable pub gateway_ipv4_parse : List ℕ → Option ℕ
gateway_ipv4_parse text = parse_parts 3 0 text

-- `%lu` of a number below 1000.
unfoldable pub decimal : ℕ → List ℕ
decimal n =
    if ltb n 10
    then (48 + n) ∷ []
    else if ltb n 100
    then (48 + n / 10) ∷ (48 + n % 10) ∷ []
    else (48 + n / 100) ∷ (48 + n / 10 % 10) ∷ (48 + n % 10) ∷ []

unfoldable pub gateway_ipv4_format : ℕ → List ℕ
gateway_ipv4_format a =
    decimal (a / 16777216 % 256)
    ++ (46
        ∷ (decimal (a / 65536 % 256)
            ++ (46 ∷ (decimal (a / 256 % 256) ++ (46 ∷ decimal (a % 256))))))
