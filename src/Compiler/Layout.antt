-- ===== src/Compiler/Layout.antt =====
-- compiler/check.c: the bit offsets of a message's fields, and the lookups by name. `calloc` is the
-- host's: `allocates count size` says whether it gives the memory.
use wire_format.Base.{
  ℕ, ◌+◌, ◌-◌, ◌/◌, ◌%◌, Bool, true, false, not, ◌&&◌, List, [], ◌∷◌, ltb, ◌==◌, length,
  if◌then◌else◌, u64_max, suc, Option, none, some,
}
use wire_format.Compiler.Types.{
  Text, FieldType, wfc_bits, wfc_bytes, wfc_records, wfc_choice, wfc_sdnv, Field, Assignment,
  Vector, Message, Result, ok, refuse, ◌>>=◌, ◌>>◌, out_of_memory, not_octet_boundary,
  message_too_large, ends_off_boundary,
}
use wire_format.Compiler.Util.{field_width, same_text}

abbrev pub is_bits : FieldType → Bool
is_bits wfc_bits = true
is_bits _ = false

abbrev pub is_octets : FieldType → Bool
is_octets wfc_bytes = true
is_octets _ = false

abbrev pub is_sdnv : FieldType → Bool
is_sdnv wfc_sdnv = true
is_sdnv _ = false

abbrev pub is_runtime : FieldType → Bool
is_runtime wfc_records = true
is_runtime wfc_choice = true
is_runtime _ = false

-- The loop of `message_layout`: the offsets of the fields, and the offset behind them.
unfoldable pub layout_loop : List Field → ℕ → Result (List ℕ × ℕ)
layout_loop [] bit_offset = ok ([], bit_offset)
layout_loop (f ∷ fs) bit_offset = do
  refuse (not (is_bits f.type) && not (bit_offset % 8 == 0)) f.location
      (not_octet_boundary (is_octets f.type) f.name bit_offset)
  refuse (ltb (u64_max - field_width f) bit_offset) f.location message_too_large
  (offsets, end) ← layout_loop fs (bit_offset + field_width f)
  ok (bit_offset ∷ offsets, end)

-- `message_layout`: the offsets and the octets.
unfoldable pub message_layout : (ℕ → ℕ → Bool) → Message → Result (List ℕ × ℕ)
message_layout allocates m = do
  refuse (not (allocates (length m.fields) 8)) m.location out_of_memory
  (offsets, end) ← layout_loop m.fields 0
  refuse (not (end % 8 == 0)) m.location (ends_off_boundary m.name end)
  ok (offsets, end / 8)

-- `find_field`, with the index.
unfoldable pub find_from : ℕ → List Field → Text → Option (ℕ × Field)
find_from position [] name = none
find_from position (f ∷ fs) name =
    let rest = find_from (suc position) fs name in
    if same_text f.name name then some (position, f) else rest

abbrev pub find_field : Message → Text → Option (ℕ × Field)
find_field m name = find_from 0 m.fields name

unfoldable pub find_among : List Assignment → Text → Option Assignment
find_among [] name = none
find_among (a ∷ later) name =
    let rest = find_among later name in if same_text a.name name then some a else rest

abbrev pub find_assignment : Vector → Text → Option Assignment
find_assignment v name = find_among v.assignments name

-- `find_assignment(vector, name)->value`, `->bytes` and `->byte_count`, where it is not NULL.
abbrev pub assigned_value : Vector → Text → ℕ
assigned_value v name = elim (find_assignment v name) [ none ↦ 0 | some a ↦ a.value ]

abbrev pub assigned_bytes : Vector → Text → List ℕ
assigned_bytes v name = elim (find_assignment v name) [ none ↦ [] | some a ↦ a.bytes ]
