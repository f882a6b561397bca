-- ===== src/Compiler/Text.antt =====
-- compiler/check.c: whether a text shows anything but space.
use wire_format.Base.{
  ℕ, zero, suc, ◌*◌, ◌^◌, Bool, true, false, ◌&&◌, ◌||◌, [], ◌∷◌, leb, ltb, ◌==◌, length,
  if◌then◌else◌, bit_and, bit_or, Option, none, some,
}
use wire_format.Compiler.Types.{Text}

unfoldable pub unicode_space : ℕ → Bool
unicode_space codepoint =
    (leb 0x09 codepoint && leb codepoint 0x0d)
    || codepoint == 0x20
    || codepoint == 0x85
    || codepoint == 0xa0
    || codepoint == 0x1680
    || (leb 0x2000 codepoint && leb codepoint 0x200a)
    || codepoint == 0x2028
    || codepoint == 0x2029
    || codepoint == 0x202f
    || codepoint == 0x205f
    || codepoint == 0x3000

-- `n` bytes more of a code point, six bits each. With fewer bytes left the scan takes the
-- terminating 0 for one of them and goes on behind it, out of bounds: `none`.
unfoldable pub more_bytes : ℕ → ℕ → Text → Option (ℕ × Text)
more_bytes zero codepoint s = some (codepoint, s)
more_bytes (suc n) codepoint [] = none
more_bytes (suc n) codepoint (b ∷ s) = more_bytes n (bit_or (codepoint * 2 ^ 6) (bit_and b 0x3f)) s

-- The code point whose first byte is `b`.
unfoldable pub codepoint_at : ℕ → Text → Option (ℕ × Text)
codepoint_at b s =
    if ltb b 0x80
    then some (b, s)
    else if bit_and b 0xe0 == 0xc0
    then more_bytes 1 (bit_and b 0x1f) s
    else if bit_and b 0xf0 == 0xe0
    then more_bytes 2 (bit_and b 0x0f) s
    else more_bytes 3 (bit_and b 0x07) s

-- The loop takes a byte at least in each round, so that the text's length is fuel enough.
unfoldable pub text_loop : ℕ → Text → Option Bool
text_loop fuel [] = some false
text_loop zero (b ∷ s) = some false
text_loop (suc fuel) (b ∷ s) = elim (codepoint_at b s) [
  | none ↦ none
  | some (codepoint, rest) ↦ elim (unicode_space codepoint) [
    | true ↦ text_loop fuel rest
    | false ↦ some true
  ]
]

unfoldable pub text_present : Text → Option Bool
text_present s = text_loop (length s) s
