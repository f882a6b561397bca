-- ===== src/Compiler/VectorV3.antt =====
-- compiler/check.c: the check of a test vector for version 3, where fields of variable length may
-- stand anywhere and the positions are found on the way.
use wire_format.Base.{
  ℕ, suc, ◌+◌, ◌-◌, ◌*◌, ◌/◌, ◌%◌, Bool, true, false, not, ◌&&◌, ◌||◌, List, [], ◌∷◌, ltb, ◌==◌,
  length, drop, replicate, set, get_or, if◌then◌else◌, Option, none, some,
}
use wire_format.Compiler.Types.{
  Text, Field, Assignment, Vector, Message, Protocol, Result, ok, err, refuse, ◌>>=◌, ◌>>◌,
  out_of_memory, needs_runtime, unknown_field, assigns_derived, requires_octets,
  through_record_list, requires_integer, does_not_fit, no_value, not_aligned, invalid_sdnv,
  decodes_bytes, decodes_field, wire_length,
}
use wire_format.Compiler.Util.{field_width, value_fits}
use wire_format.Compiler.Layout.{
  is_bits, is_octets, is_sdnv, is_runtime, find_field, find_assignment, assigned_value,
  assigned_bytes,
}
use wire_format.Compiler.Bits.{write_bits, read_bits, write_scalar, read_scalar}
use wire_format.Compiler.Sdnv.{copy_at, write_sdnv_vector, read_sdnv_vector}
use wire_format.Compiler.Vector.{is_missing, first_mismatch, same_octets, refuse_mismatch}

abbrev pub is_given : Option Text → Bool
is_given none = false
is_given (some t) = true

unfoldable pub vector_field_value : Vector → Field → ℕ
vector_field_value v f = if f.is_constant then f.constant else elim f.length_of [
  | none ↦ assigned_value v f.name
  | some target ↦ length (assigned_bytes v target)
]

unfoldable pub refuse_runtime : Message → Vector → List Field → Result (Unit {0})
refuse_runtime m v [] = ok tt
refuse_runtime m v (f ∷ fs) = do
  refuse (is_runtime f.type) v.location (needs_runtime m.name)
  refuse_runtime m v fs

-- The field's value is given or follows from others.
abbrev pub is_derived : Field → Bool
is_derived f = f.is_constant || is_given f.length_of || is_given f.count_of

unfoldable pub check_assigned_v3 : Vector → Assignment → Field → Result (Unit {0})
check_assigned_v3 v a f = do
  refuse (is_derived f) a.location (assigns_derived v.name f.name)
  refuse (is_octets f.type && not a.is_bytes) a.location (requires_octets f.name)
  refuse (is_runtime f.type) a.location (through_record_list f.name)
  refuse (not (is_octets f.type) && a.is_bytes) a.location (requires_integer f.name)
  refuse
      (not (is_octets f.type) && not (is_sdnv f.type) && not (value_fits a.value (field_width f)))
      a.location (does_not_fit a.value (field_width f))

unfoldable pub check_assignments_v3 : Message → Vector → List Assignment → Result (Unit {0})
check_assignments_v3 m v [] = ok tt
check_assignments_v3 m v (a ∷ later) = elim (find_field m a.name) [
  | none ↦ err a.location (unknown_field v.name a.name)
  | some (position, f) ↦ do check_assigned_v3 v a f; check_assignments_v3 m v later
]

unfoldable pub check_present_v3 : Vector → List Field → Result (Unit {0})
check_present_v3 v [] = ok tt
check_present_v3 v (f ∷ fs) = do
  refuse (not (is_derived f) && is_missing (find_assignment v f.name)) v.location
      (no_value v.name f.name)
  check_present_v3 v fs

-- `size_error`
abbrev pub size_error {ℓ} : {A : Type ℓ} → Message → Vector → Result A
size_error m v = err v.location (wire_length v.name m.name)

abbrev pub or_size_error {ℓ} : {A : Type ℓ} → Message → Vector → Option A → Result A
or_size_error m v none = size_error m v
or_size_error m v (some a) = ok a

-- A field that begins at octet `position`: the buffer, and the position behind it.
unfoldable pub encode_octets : Protocol → Vector → List ℕ → ℕ → Field → Option (List ℕ × ℕ)
encode_octets p v encoded position f =
    let value = vector_field_value v f in
    let bytes = assigned_bytes v f.name in
    let octets = field_width f / 8 in
    let room = length v.wire - position in
    if is_sdnv f.type
    then write_sdnv_vector encoded (length v.wire) position value
    else if is_octets f.type
    then (if ltb room (length bytes)
        then none
        else some (copy_at encoded position bytes, position + length bytes))
    else if ltb room octets
    then none
    else some (write_scalar encoded position octets value p.byte_order, position + octets)

-- One field at bit `bit_position`.
unfoldable pub encode_field_v3 :
    Protocol → Message → Vector → List ℕ → ℕ → Field → Result (List ℕ × ℕ)
encode_field_v3 p m v encoded bit_position f =
    let value = vector_field_value v f in
    if is_bits f.type
    then (if ltb (length v.wire * 8) (bit_position + f.width)
        then size_error m v
        else ok (write_bits encoded bit_position f.width value p.bit_order, bit_position + f.width))
    else if not (bit_position % 8 == 0)
    then err f.location (not_aligned f.name)
    else do
      (encoded', position) ← or_size_error m v (encode_octets p v encoded (bit_position / 8) f)
      ok (encoded', position * 8)

unfoldable pub encode_fields_v3 :
    Protocol → Message → Vector → List ℕ → ℕ → List Field → Result (List ℕ × ℕ)
encode_fields_v3 p m v encoded bit_position [] = ok (encoded, bit_position)
encode_fields_v3 p m v encoded bit_position (f ∷ fs) = do
  (encoded', bit_position') ← encode_field_v3 p m v encoded bit_position f
  encode_fields_v3 p m v encoded' bit_position' fs

-- The length of a byte field: the value decoded for its length field, or all that is left. Where
-- no field has the name, `length_index` stays 0.
unfoldable pub decoded_length : Message → Vector → List ℕ → ℕ → Field → ℕ
decoded_length m v decoded_values position f = elim f.length_from [
  | none ↦ length v.wire - position
  | some name ↦ elim (find_field m name) [
    | none ↦ get_or decoded_values 0 0
    | some (index, target) ↦ get_or decoded_values index 0
  ]
]

-- The byte field at octet `position`; gives the position behind it.
unfoldable pub decode_bytes : Message → Vector → List ℕ → ℕ → Field → Result ℕ
decode_bytes m v decoded_values position f = do
  let count = decoded_length m v decoded_values position f
  let wanted = assigned_bytes v f.name
  refuse
      (ltb (length v.wire - position) count
        || not (count == length wanted)
        || not (same_octets count (drop position v.wire) wanted))
      v.location (decodes_bytes v.name f.name)
  ok (position + count)

-- The scalar at octet `position`, with the position behind it.
unfoldable pub decode_scalar : Protocol → Message → Vector → ℕ → Field → Result (ℕ × ℕ)
decode_scalar p m v position f =
    let octets = field_width f / 8 in
    if is_sdnv f.type
    then elim (read_sdnv_vector v.wire (length v.wire) position) [
      | none ↦ err v.location (invalid_sdnv v.name)
      | some r ↦ ok r
    ]
    else if ltb (length v.wire - position) octets
    then size_error m v
    else ok (read_scalar v.wire position octets p.byte_order, position + octets)

-- The value of a field of bits or a scalar, with the bit behind it.
unfoldable pub decode_number : Protocol → Message → Vector → ℕ → Field → Result (ℕ × ℕ)
decode_number p m v bit_position f =
    if is_bits f.type
    then ok (read_bits v.wire bit_position f.width p.bit_order, bit_position + f.width)
    else do
      (decoded, position) ← decode_scalar p m v (bit_position / 8) f
      ok (decoded, position * 8)

-- The field of index `index`: `decoded_values`, and the bit behind the field.
unfoldable pub decode_field_v3 :
    Protocol → Message → Vector → List ℕ → ℕ → ℕ → Field → Result (List ℕ × ℕ)
decode_field_v3 p m v decoded_values index bit_position f =
    if is_octets f.type
    then (do
      position ← decode_bytes m v decoded_values (bit_position / 8) f
      ok (decoded_values, position * 8))
    else do
      (decoded, bit_position') ← decode_number p m v bit_position f
      let wanted = vector_field_value v f
      refuse (not (decoded == wanted)) v.location (decodes_field v.name f.name decoded wanted)
      ok (set decoded_values index decoded, bit_position')

unfoldable pub decode_fields_v3 :
    Protocol → Message → Vector → List ℕ → ℕ → ℕ → List Field → Result ℕ
decode_fields_v3 p m v decoded_values index bit_position [] = ok bit_position
decode_fields_v3 p m v decoded_values index bit_position (f ∷ fs) = do
  (decoded_values', bit_position') ← decode_field_v3 p m v decoded_values index bit_position f
  decode_fields_v3 p m v decoded_values' (suc index) bit_position' fs

unfoldable pub check_vector_v3 : (ℕ → ℕ → Bool) → Protocol → Message → Vector → Result (Unit {0})
check_vector_v3 allocates p m v = do
  refuse_runtime m v m.fields
  check_assignments_v3 m v v.assignments
  check_present_v3 v m.fields
  let room = if length v.wire == 0 then 1 else length v.wire
  refuse (not (allocates room 1 && allocates (length m.fields) 8)) v.location out_of_memory
  (encoded, written) ← encode_fields_v3 p m v (replicate room 0) 0 m.fields
  refuse (not (written == length v.wire * 8)) v.location (wire_length v.name m.name)
  refuse_mismatch v encoded (first_mismatch (length v.wire) 0 encoded v.wire)
  read ← decode_fields_v3 p m v (replicate (length m.fields) 0) 0 0 m.fields
  refuse (not (read == length v.wire * 8)) v.location (wire_length v.name m.name)
