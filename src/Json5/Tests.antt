-- ===== src/Json5/Tests.antt =====
-- compiler/json5.c: parses of concrete texts, evaluated, and the theorems at concrete inputs.
use wire_format.Base.{
  ℕ, ◌+◌, ◌++◌, ◌≡◌, refl, arith, Bool, false, List, [], ◌∷◌, length, Option, none, some,
}
use Prim.Native.String.{String}
use Prim.Native.Char.{code}
use wire_format.Json5.Utf8.{
  utf8_bytes, utf8_head, utf8_continue, utf8_checked, utf8_sequence, utf8_loop, valid_utf8,
}
use wire_format.Json5.Scan.{
  fail, take_from, advance, take_while, line_comment, block_end, block_comment, comment, skip_loop,
  skip_space,
}
use wire_format.Json5.Strings.{
  hex_value, hex_loop, take_hex, append_utf8, escape_byte, low_half, surrogate_pair, escape_unit,
  escape_letter, escape_other, escape, escaped, string_round, string_loop, string_bytes, identifier,
}
use wire_format.Json5.Value.{
  starting, and_then, is_delimiter, parse_number, starts_with, matches_word, advance_by, parse_word,
  parse_string, parse_name, separated, parse_colon, count_lines, behind_mark, only_value,
  json5_parse, parse_value, open_array, parse_items, open_object, parse_members,
}
use wire_format.Json5.Scan.{Failure, Parser, unterminated_comment, expected_in_array}
use wire_format.Json5.Utf8.{sequence_then, valid}
use wire_format.Json5.Value.{
  Value, scalar, array, object, item, no_items, member, no_members, null_kind, number_kind,
  string_kind,
}
use wire_format.Compiler.Text.{more_bytes, codepoint_at, text_present, text_loop, unicode_space}
use wire_format.Json5.Parse.{Reports, json5_parse-Reports}
use wire_format.Json5.CodePoints.{utf8_bytes-read}
use wire_format.Json5.TextBounds.{text_present-total}

abbrev codes : String → List ℕ
codes String.[] = []
codes (String.◌∷◌ c s) = code c ∷ codes s

-- The parse with fuel for a text of thirty characters.
parse_text : String → Option (Option Value × Option Failure)
unfolding utf8_bytes utf8_head utf8_continue utf8_checked utf8_sequence utf8_loop valid_utf8 fail
    take_from advance take_while line_comment block_end block_comment comment skip_loop skip_space
    hex_value hex_loop take_hex append_utf8 escape_byte low_half surrogate_pair escape_unit
    escape_letter escape_other escape escaped string_round string_loop string_bytes identifier
    and_then is_delimiter parse_number starts_with matches_word advance_by parse_word parse_string
    parse_name separated parse_colon count_lines behind_mark only_value json5_parse parse_value
    open_array parse_items open_object parse_members
parse_text s = json5_parse 93 (codes s)

members :
    parse_text "{a: [1, 'x\\u0041'], // c\n b:null}"
    ≡ some (
      some (
          object 1 1 (
            member
              (codes "a")
              1
              2
              (array 1 5 (
                item
                  (scalar 1 6 (number_kind (codes "1")))
                  (item (scalar 1 9 (string_kind (codes "xA"))) no_items)))
              (member (codes "b") 2 2 (scalar 2 4 null_kind) no_members))),
      none,
    )
unfolding parse_text
members = refl

-- The text ends inside of a comment, and the value is returned with the error.
endless_comment :
    parse_text "1 /* x"
    ≡ some (
      some (scalar 1 1 (number_kind (codes "1"))),
      some (record { line = 1; column = 7; problem = unterminated_comment }),
    )
unfolding parse_text
endless_comment = refl

unclosed :
    parse_text "[1}"
    ≡ some (none, some (record { line = 1; column = 4; problem = expected_in_array }))
unfolding parse_text
unclosed = refl

surrogates :
    parse_text "'\\uD83D\\uDE00'"
    ≡ some (some (scalar 1 1 (string_kind (0xf0 ∷ 0x9f ∷ 0x98 ∷ 0x80 ∷ []))), none)
unfolding parse_text
surrogates = refl

json5_parse-Reports_example :
    ((r : Option Value) × (e : Option Failure) × (json5_parse 12 (b'[' ∷ b'1' ∷ b'}' ∷ [])
        ≡ some (r, e))
      × Reports r e)
    × ((q : Parser) × (skip_loop 6 (starting (codes " //\n1")) ≡ some q))
json5_parse-Reports_example =
    json5_parse-Reports 12 (b'[' ∷ b'1' ∷ b'}' ∷ []) (starting (codes " //\n1")) (omega arith)

utf8_bytes-read_example :
    (b : ℕ) × (s : List ℕ) × (utf8_bytes 0x20ac ≡ some (b ∷ s))
    × ((offset : ℕ)
        → utf8_sequence offset b (s ++ b'!' ∷ []) ≡ sequence_then (length s + 1) (b'!' ∷ []))
    × (codepoint_at b (s ++ b'!' ∷ []) ≡ some (0x20ac, b'!' ∷ []))
utf8_bytes-read_example = utf8_bytes-read 0x20ac (b'!' ∷ []) (omega arith) refl

abbrev euro : List ℕ
euro = 0x20 ∷ 0xe2 ∷ 0x82 ∷ 0xac ∷ []

euro_valid : valid_utf8 euro ≡ some valid
unfolding valid_utf8 utf8_loop utf8_sequence utf8_checked utf8_continue utf8_head
euro_valid = refl

text_present-total_example : (b : Bool) × (text_present euro ≡ some b)
text_present-total_example = text_present-total euro euro_valid

blank_text : text_present (0x20 ∷ 0xc2 ∷ 0xa0 ∷ []) ≡ some false
unfolding text_present text_loop codepoint_at more_bytes unicode_space
blank_text = refl
