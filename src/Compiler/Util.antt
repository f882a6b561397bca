-- ===== src/Compiler/Util.antt =====
-- compiler/util.c: identifiers, field widths and value ranges.
use wire_format.Base.{
  ℕ, ◌^◌, Bool, true, false, not, ◌&&◌, ◌||◌, [], ◌∷◌, leb, ltb, ◌==◌, if◌then◌else◌,
}
use wire_format.Compiler.Types.{
  Text, Field, FieldType, wfc_bits, wfc_u8, wfc_u16, wfc_u32, wfc_u64, wfc_sdnv, wfc_bytes,
  wfc_records, wfc_choice,
}

abbrev pub is_lower : ℕ → Bool
is_lower c = leb b'a' c && leb c b'z'

abbrev pub is_decimal : ℕ → Bool
is_decimal c = leb b'0' c && leb c b'9'

-- The loop of `wfc_identifier_valid`.
unfoldable pub identifier_loop : Text → Bool → Bool
identifier_loop [] previous_hyphen = not previous_hyphen
identifier_loop (c ∷ s) previous_hyphen =
    let hyphen = c == b'-' in
    let rest = identifier_loop s hyphen in
    if not (is_lower c || is_decimal c || hyphen)
    then false
    else if hyphen && previous_hyphen
    then false
    else rest

unfoldable pub identifier_valid : Text → Bool
identifier_valid [] = false
identifier_valid (c ∷ s) = if not (is_lower c) then false else identifier_loop (c ∷ s) false

-- `wfc_field_width`
abbrev pub type_width : FieldType → ℕ → ℕ
type_width wfc_bits width = width
type_width wfc_u8 width = 8
type_width wfc_u16 width = 16
type_width wfc_u32 width = 32
type_width wfc_u64 width = 64
type_width wfc_sdnv width = 8
type_width wfc_bytes width = 0
type_width wfc_records width = 0
type_width wfc_choice width = 0

abbrev pub field_width : Field → ℕ
field_width f = type_width f.type f.width

-- `wfc_value_fits`, for a width of at most 64.
unfoldable pub value_fits : ℕ → ℕ → Bool
value_fits value width = width == 64 || ltb value (2 ^ width)

-- `strcmp(a, b) == 0`
unfoldable pub same_text : Text → Text → Bool
same_text [] [] = true
same_text [] (d ∷ t) = false
same_text (c ∷ s) [] = false
same_text (c ∷ s) (d ∷ t) = c == d && same_text s t
