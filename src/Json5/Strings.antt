-- ===== src/Json5/Strings.antt =====
-- compiler/json5.c: strings with their escapes, and property names.
use wire_format.Base.{
  ℕ, zero, suc, ◌+◌, ◌-◌, ◌*◌, ◌^◌, Bool, not, ◌&&◌, ◌||◌, List, [], ◌∷◌, ◌++◌, leb, ◌==◌, take,
  if◌then◌else◌, bit_or, Option, none, some,
}
use wire_format.Json5.Utf8.{utf8_bytes}
use wire_format.Json5.Scan.{
  expected_hex, newline_in_string, unterminated_escape, zero_before_digit, bad_surrogate_pair,
  unpaired_surrogate, bad_codepoint, unterminated_string, expected_name, Parser, fail, failed,
  at_end, first, advance, take_while,
}

abbrev pub is_decimal : ℕ → Bool
is_decimal c = leb b'0' c && leb c b'9'

-- `none` is the answer -1.
unfoldable pub hex_value : ℕ → Option ℕ
hex_value c =
    if is_decimal c
    then some (c - b'0')
    else if leb b'a' c && leb c b'f'
    then some (c - b'a' + 10)
    else if leb b'A' c && leb c b'F'
    then some (c - b'A' + 10)
    else none

-- The loop of `take_hex`, with `n` of `digits` left.
unfoldable pub hex_loop : ℕ → ℕ → ℕ → Parser → Option ℕ × Parser
hex_loop zero digits value p = (some value, p)
hex_loop (suc n) digits value p = elim (hex_value (first p.rest)) [
  | none ↦ (none, fail p (expected_hex digits))
  | some digit ↦ hex_loop n digits (bit_or (value * 2 ^ 4) digit) (advance p)
]

unfoldable pub take_hex : ℕ → Parser → Option ℕ × Parser
take_hex digits p = hex_loop digits digits 0 p

-- `append_utf8`, with what the caller makes of its answer 0.
unfoldable pub append_utf8 : List ℕ → ℕ → Parser → List ℕ × Parser
append_utf8 buffer codepoint p = elim (utf8_bytes codepoint) [
  | none ↦ (buffer, fail p bad_codepoint)
  | some bytes ↦ (buffer ++ bytes, p)
]

-- `\x`. Two digits make no number that `append_utf8` refuses.
unfoldable pub escape_byte : List ℕ → Option ℕ × Parser → List ℕ × Parser
escape_byte buffer (none, p) = (buffer, p)
escape_byte buffer (some codepoint, p) = append_utf8 buffer codepoint p

abbrev pub is_high : ℕ → Bool
is_high x = leb 0xd800 x && leb x 0xdbff

abbrev pub is_low : ℕ → Bool
is_low x = leb 0xdc00 x && leb x 0xdfff

abbrev pub joined : ℕ → ℕ → ℕ
joined high low = 0x1_0000 + (high - 0xd800) * 2 ^ 10 + (low - 0xdc00)

-- The low half of a pair, which `take_hex` has read.
unfoldable pub low_half : List ℕ → ℕ → Option ℕ × Parser → List ℕ × Parser
low_half buffer high (none, p) = (buffer, fail p bad_surrogate_pair)
low_half buffer high (some low, p) =
    if is_low low
    then append_utf8 buffer (joined high low) p
    else (buffer, fail p bad_surrogate_pair)

-- `take(parser) != '\\' || take(parser) != 'u' || …`
unfoldable pub surrogate_pair : List ℕ → ℕ → Parser → List ℕ × Parser
surrogate_pair buffer high p =
    let p₁ = advance p in
    let p₂ = advance p₁ in
    if not (first p.rest == b'\\')
    then (buffer, fail p₁ bad_surrogate_pair)
    else if not (first p₁.rest == b'u')
    then (buffer, fail p₂ bad_surrogate_pair)
    else low_half buffer high (take_hex 4 p₂)

unfoldable pub escape_unit : List ℕ → Option ℕ × Parser → List ℕ × Parser
escape_unit buffer (none, p) = (buffer, p)
escape_unit buffer (some codepoint, p) =
    if is_high codepoint
    then surrogate_pair buffer codepoint p
    else if is_low codepoint
    then (buffer, fail p unpaired_surrogate)
    else append_utf8 buffer codepoint p

-- The letters that stand for one byte.
unfoldable pub escape_letter : ℕ → Option ℕ
escape_letter c =
    if c == b'b'
    then some 0x08
    else if c == b'f'
    then some 0x0c
    else if c == b'n'
    then some 0x0a
    else if c == b'r'
    then some 0x0d
    else if c == b't'
    then some 0x09
    else if c == b'v'
    then some 0x0b
    else none

-- Any other character behind a backslash: the digits' escapes, a line's end, or the character.
unfoldable pub escape_other : ℕ → List ℕ → Parser → List ℕ × Parser
escape_other c buffer p =
    if c == b'\n'
    then (buffer, p)
    else if c == b'\r'
    then (buffer, if first p.rest == b'\n' then advance p else p)
    else if c == b'0'
    then (if is_decimal (first p.rest)
        then (buffer, fail p zero_before_digit)
        else (buffer ++ (0 ∷ []), p))
    else if c == b'x'
    then escape_byte buffer (take_hex 2 p)
    else if c == b'u'
    then escape_unit buffer (take_hex 4 p)
    else (buffer ++ (c ∷ []), p)

-- The switch on the character behind a backslash, which has been taken.
unfoldable pub escape : ℕ → List ℕ → Parser → List ℕ × Parser
escape c buffer p = elim (escape_letter c) [
  | some byte ↦ (buffer ++ (byte ∷ []), p)
  | none ↦ escape_other c buffer p
]

-- A round of the loop of `parse_string_bytes`: the loop goes on, or the function returns.
pub data Round : Type 0 where
  again : List ℕ → Parser → Round
  stop : Option (List ℕ) → Parser → Round

unfoldable pub escaped : List ℕ → Parser → Round
escaped buffer p =
    let (buffer', q) = escape (first p.rest) buffer (advance p) in
    if at_end p.rest then stop none (fail p unterminated_escape) else again buffer' q

unfoldable pub string_round : ℕ → List ℕ → Parser → Round
string_round quote buffer p =
    let c = first p.rest in
    let q = advance p in
    if at_end p.rest || failed p
    then stop none (fail p unterminated_string)
    else if c == quote
    then stop (some buffer) q
    else if c == b'\n' || c == b'\r'
    then stop none (fail q newline_in_string)
    else if not (c == b'\\')
    then again (buffer ++ (c ∷ [])) q
    else escaped buffer q

-- A round takes a character at least or is the last, so that a fuel above the length is enough;
-- `none` for the fuel that runs out.
unfoldable pub string_loop : ℕ → ℕ → List ℕ → Parser → Option (Option (List ℕ) × Parser)
string_loop zero quote buffer p = none
string_loop (suc fuel) quote buffer p = elim (string_round quote buffer p) [
  | again buffer' q ↦ string_loop fuel quote buffer' q
  | stop r q ↦ some (r, q)
]

-- `parse_string_bytes`: the bytes, or NULL.
unfoldable pub string_bytes : ℕ → Parser → Option (Option (List ℕ) × Parser)
string_bytes fuel p = string_loop fuel (first p.rest) [] (advance p)

abbrev pub is_alpha : ℕ → Bool
is_alpha c = (leb b'a' c && leb c b'z') || (leb b'A' c && leb c b'Z')

abbrev pub identifier_start : ℕ → Bool
identifier_start c = is_alpha c || c == b'_' || c == b'$'

abbrev pub identifier_continue : ℕ → Bool
identifier_continue c = is_alpha c || is_decimal c || c == b'_' || c == b'$'

abbrev pub in_identifier : List ℕ → Bool
in_identifier s = identifier_continue (first s)

-- The text between two offsets: `memcpy` from the first.
abbrev pub text_to : Parser → Parser → List ℕ
text_to p q = take (q.offset - p.offset) p.rest

unfoldable pub identifier : Parser → Option (List ℕ) × Parser
identifier p =
    let p₁ = advance p in
    let q = take_while in_identifier p₁.rest p₁ in
    if not (identifier_start (first p.rest))
    then (none, fail p expected_name)
    else (some (text_to p q), q)
