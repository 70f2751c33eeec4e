-- ===== src/Gateway/Config/Address.antt =====
-- `bind_address_valid` of src/gateway/gateway_controller.c, with what it uses of `sscanf`.
use moxa_4vrs_gateway.Prelude.{
  ℕ, zero, suc, ◌+◌, ◌-◌, ◌*◌, Bool, true, false, not, ◌&&◌, ◌||◌, Option, none, some, List, [],
  ◌∷◌, ltb, leb, ◌==◌, if◌then◌else◌, u32_mod, length,
}

-- `GATEWAY_BIND_ADDRESS_LENGTH`
abbrev pub bind_address_length : ℕ
bind_address_length = 40

-- What `isspace` tells in the C locale.
abbrev is_space : ℕ → Bool
is_space c = c == 32 || (leb 9 c && leb c 13)

unfoldable pub skip_spaces : List ℕ → List ℕ
skip_spaces [] = []
skip_spaces (c ∷ s) = let rest = skip_spaces s in if is_space c then rest else c ∷ s

abbrev pub is_digit : ℕ → Bool
is_digit c = leb b'0' c && leb c b'9'

-- The digits that come first, with the value of those before them, and what follows them.
unfoldable pub scan_digits : List ℕ → ℕ → ℕ × List ℕ
scan_digits [] n = (n, [])
scan_digits (c ∷ s) n =
    let later = scan_digits s (n * 10 + (c - b'0')) in if is_digit c then later else (n, c ∷ s)

abbrev starts_number : List ℕ → Bool
starts_number [] = false
starts_number (c ∷ s) = is_digit c

abbrev scan_plain : List ℕ → Option (ℕ × List ℕ)
scan_plain s = if starts_number s then some (scan_digits s 0) else none

-- A minus sign negates an `unsigned int`.
abbrev negated : Option (ℕ × List ℕ) → Option (ℕ × List ℕ)
negated none = none
negated (some (n, s)) = some (if n == 0 then 0 else u32_mod - n, s)

-- The conversion `%u`: spaces, a sign and digits. A value that an `unsigned int` does not hold, for
-- which C says nothing, is kept as it is.
unfoldable pub scan_unsigned : List ℕ → Option (ℕ × List ℕ)
scan_unsigned text = elim (skip_spaces text) [
  | [] ↦ none
  | c ∷ s ↦
      if c == b'-'
      then negated (scan_plain s)
      else if c == b'+'
      then scan_plain s
      else scan_plain (c ∷ s)
]

abbrev after_dot : List ℕ → Option (List ℕ)
after_dot [] = none
after_dot (c ∷ s) = if c == b'.' then some s else none

abbrev with_value : ℕ → Option (List ℕ × List ℕ) → Option (List ℕ × List ℕ)
with_value value none = none
with_value value (some (values, rest)) = some (value ∷ values, rest)

-- A number, and so many more behind dots; and the rest of the text.
unfoldable pub scan_dotted : ℕ → List ℕ → Option (List ℕ × List ℕ)
scan_dotted zero text = elim (scan_unsigned text) [
  | none ↦ none
  | some (value, rest) ↦ some (value ∷ [], rest)
]
scan_dotted (suc more) text = elim (scan_unsigned text) [
  | none ↦ none
  | some (value, rest) ↦ elim (after_dot rest) [
    | none ↦ none
    | some s ↦ with_value value (scan_dotted more s)
  ]
]

abbrev all_bytes : List ℕ → Bool
all_bytes [] = true
all_bytes (n ∷ ns) = leb n 255 && all_bytes ns

-- `sscanf(s, "%u.%u.%u.%u%c", ...) == 4`: four numbers, and nothing behind them for `%c` to take.
unfoldable pub dotted_quad : Option (List ℕ × List ℕ) → Bool
dotted_quad none = false
dotted_quad (some (values, [])) = all_bytes values
dotted_quad (some (values, c ∷ s)) = false

unfoldable pub bind_address_valid : List ℕ → Bool
bind_address_valid s =
    not (length s == 0) && ltb (length s) bind_address_length && dotted_quad (scan_dotted 3 s)
