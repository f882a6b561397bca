-- ===== src/Json5/Utf8.antt =====
-- compiler/json5.c: UTF-8, checked and written.
use wire_format.Base.{
  ℕ, zero, suc, ◌+◌, ◌-◌, ◌*◌, ◌/◌, ◌^◌, Bool, not, ◌&&◌, ◌||◌, List, [], ◌∷◌, leb, ltb, ◌==◌,
  length, if◌then◌else◌, u8, bit_and, bit_or, Option, none, some,
}

-- `append_utf8`: the bytes appended, or `none` for a number above the last code point.
unfoldable pub utf8_bytes : ℕ → Option (List ℕ)
utf8_bytes codepoint =
    let low = λ (x : ℕ). bit_or 0x80 (bit_and x 0x3f) in
    if leb codepoint 0x7f
    then some (u8 codepoint ∷ [])
    else if leb codepoint 0x7ff
    then some (bit_or 0xc0 (codepoint / 2 ^ 6) ∷ low codepoint ∷ [])
    else if leb codepoint 0xffff
    then some (bit_or 0xe0 (codepoint / 2 ^ 12) ∷ low (codepoint / 2 ^ 6) ∷ low codepoint ∷ [])
    else if leb codepoint 0x10_ffff
    then some (
        bit_or 0xf0 (codepoint / 2 ^ 18)
        ∷ low (codepoint / 2 ^ 12)
        ∷ low (codepoint / 2 ^ 6)
        ∷ low codepoint
        ∷ [])
    else none

-- What a first byte above 0x7f says: `count`, the bits of the code point, and `minimum`.
pub record Head : Type 0 where
  pub count : ℕ
  pub codepoint : ℕ
  pub minimum : ℕ

unfoldable pub utf8_head : ℕ → Option Head
utf8_head b =
    if leb 0xc2 b && leb b 0xdf
    then some (record { count = 2; codepoint = bit_and b 0x1f; minimum = 0x80 })
    else if leb 0xe0 b && leb b 0xef
    then some (record { count = 3; codepoint = bit_and b 0x0f; minimum = 0x800 })
    else if leb 0xf0 b && leb b 0xf4
    then some (record { count = 4; codepoint = bit_and b 0x07; minimum = 0x1_0000 })
    else none

-- The loop over the continuation bytes, `n` of which are left: the index of a bad one, or the code
-- point and the bytes behind it.
pub data Continued : Type 0 where
  bad_byte : ℕ → Continued
  codepoint_then : ℕ → List ℕ → Continued

unfoldable pub utf8_continue : ℕ → ℕ → ℕ → List ℕ → Continued
utf8_continue zero index codepoint s = codepoint_then codepoint s
utf8_continue (suc n) index codepoint [] = bad_byte index
utf8_continue (suc n) index codepoint (b ∷ s) =
    let rest = utf8_continue n (index + 1) (bit_or (codepoint * 2 ^ 6) (bit_and b 0x3f)) s in
    if not (bit_and b 0xc0 == 0x80) then bad_byte index else rest

abbrev pub bad_codepoint : ℕ → ℕ → Bool
bad_codepoint minimum codepoint =
    ltb codepoint minimum
    || ltb 0x10_ffff codepoint
    || (leb 0xd800 codepoint && leb codepoint 0xdfff)

-- One sequence that starts with `b` at `offset`: its length and the text behind it, or the offset
-- that is bad.
pub data Sequence : Type 0 where
  bad_at : ℕ → Sequence
  sequence_then : ℕ → List ℕ → Sequence

unfoldable pub utf8_checked : ℕ → Head → Continued → Sequence
utf8_checked offset head (bad_byte index) = bad_at (offset + index)
utf8_checked offset head (codepoint_then codepoint s) =
    if bad_codepoint head.minimum codepoint then bad_at offset else sequence_then head.count s

unfoldable pub utf8_sequence : ℕ → ℕ → List ℕ → Sequence
utf8_sequence offset b s = if ltb b 0x80 then sequence_then 1 s else elim (utf8_head b) [
  | none ↦ bad_at offset
  | some head ↦
      if ltb (length s + 1) head.count
      then bad_at offset
      else utf8_checked offset head (utf8_continue (head.count - 1) 1 head.codepoint s)
]

-- `valid_utf8`: that the text is valid, or the bad offset; `none` says that the fuel ran out.
pub data Validity : Type 0 where
  valid : Validity
  bad_offset : ℕ → Validity

unfoldable pub utf8_loop : ℕ → ℕ → List ℕ → Option Validity
utf8_loop fuel offset [] = some valid
utf8_loop zero offset (b ∷ s) = none
utf8_loop (suc fuel) offset (b ∷ s) = elim (utf8_sequence offset b s) [
  | bad_at bad ↦ some (bad_offset bad)
  | sequence_then count rest ↦ utf8_loop fuel (offset + count) rest
]

unfoldable pub valid_utf8 : List ℕ → Option Validity
valid_utf8 text = utf8_loop (length text) 0 text
