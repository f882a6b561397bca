-- ===== src/Compiler/Vector.antt =====
-- compiler/check.c: the check of a test vector for versions 1 and 2. `message_layout` has given the
-- offsets of the fields and the octets of the fixed part.
use wire_format.Base.{
  ℕ, zero, suc, ◌+◌, ◌-◌, Bool, true, false, not, ◌&&◌, List, [], ◌∷◌, ltb, ◌==◌, length, drop,
  replicate, get_or, if◌then◌else◌, u64_max, Option, none, some,
}
use wire_format.Compiler.Types.{
  Field, Assignment, Vector, Message, Protocol, Result, ok, err, refuse, ◌>>=◌, ◌>>◌, out_of_memory,
  unknown_field, assigns_constant, requires_octets, requires_integer, does_not_fit, no_value,
  wire_too_large, wire_octets, encodes_octet, decodes_bytes, decodes_field, decodes_constant,
}
use wire_format.Compiler.Util.{field_width, value_fits}
use wire_format.Compiler.Layout.{
  is_octets, find_field, find_assignment, assigned_value, assigned_bytes,
}
use wire_format.Compiler.Bits.{write_field, read_field}
use wire_format.Compiler.Sdnv.{copy_at}

-- One assignment to the field found; gives `variable_octets`.
unfoldable pub check_assigned : Vector → Assignment → Field → ℕ → Result ℕ
check_assigned v a f variable = do
  refuse f.is_constant a.location (assigns_constant v.name a.name)
  refuse (is_octets f.type && not a.is_bytes) a.location (requires_octets f.name)
  refuse (not (is_octets f.type) && a.is_bytes) a.location (requires_integer f.name)
  refuse (not (is_octets f.type) && not (value_fits a.value (field_width f))) a.location
      (does_not_fit a.value (field_width f))
  ok (if is_octets f.type then length a.bytes else variable)

-- The loop over the assignments.
unfoldable pub check_assignments : Message → Vector → List Assignment → ℕ → Result ℕ
check_assignments m v [] variable = ok variable
check_assignments m v (a ∷ later) variable = elim (find_field m a.name) [
  | none ↦ err a.location (unknown_field v.name a.name)
  | some (position, f) ↦ do
    variable' ← check_assigned v a f variable
    check_assignments m v later variable'
]

abbrev pub is_missing : Option Assignment → Bool
is_missing none = true
is_missing (some a) = false

unfoldable pub check_present : Vector → List Field → Result (Unit {0})
check_present v [] = ok tt
check_present v (f ∷ fs) = do
  refuse (not f.is_constant && is_missing (find_assignment v f.name)) v.location
      (no_value v.name f.name)
  check_present v fs

abbrev pub wanted_value : Vector → Field → ℕ
wanted_value v f = if f.is_constant then f.constant else assigned_value v f.name

-- The field's part of `encoded`.
unfoldable pub encode_field : Protocol → Vector → ℕ → List ℕ → ℕ → Field → List ℕ
encode_field p v octets encoded offset f =
    if is_octets f.type
    then copy_at encoded octets (assigned_bytes v f.name)
    else write_field encoded offset f (wanted_value v f) p

unfoldable pub encode_fields : Protocol → Vector → ℕ → List ℕ → List ℕ → List Field → List ℕ
encode_fields p v octets encoded offsets [] = encoded
encode_fields p v octets encoded [] (f ∷ fs) = encoded
encode_fields p v octets encoded (offset ∷ offsets) (f ∷ fs) =
    encode_fields p v octets (encode_field p v octets encoded offset f) offsets fs

-- The first of `n` places from `index` on where the octets differ.
unfoldable pub first_mismatch : ℕ → ℕ → List ℕ → List ℕ → Option ℕ
first_mismatch zero index encoded wire = none
first_mismatch (suc n) index encoded wire =
    let rest = first_mismatch n (suc index) encoded wire in
    if get_or encoded index 0 == get_or wire index 0 then rest else some index

-- `memcmp(a, b, n) == 0`
unfoldable pub same_octets : ℕ → List ℕ → List ℕ → Bool
same_octets zero a b = true
same_octets (suc n) a b = get_or a 0 0 == get_or b 0 0 && same_octets n (drop 1 a) (drop 1 b)

unfoldable pub decode_field : Protocol → Vector → ℕ → ℕ → Field → Result (Unit {0})
decode_field p v octets offset f =
    let wanted = assigned_bytes v f.name in
    let decoded = read_field v.wire offset f p in
    if is_octets f.type
    then refuse
        (not (
          length wanted == length v.wire - octets
          && same_octets (length wanted) wanted (drop octets v.wire)))
        v.location (decodes_bytes v.name f.name)
    else if f.is_constant
    then refuse (not (decoded == f.constant)) v.location
        (decodes_constant v.name f.name decoded f.constant)
    else refuse (not (decoded == assigned_value v f.name)) v.location
        (decodes_field v.name f.name decoded (assigned_value v f.name))

unfoldable pub decode_fields : Protocol → Vector → ℕ → List ℕ → List Field → Result (Unit {0})
decode_fields p v octets offsets [] = ok tt
decode_fields p v octets [] (f ∷ fs) = ok tt
decode_fields p v octets (offset ∷ offsets) (f ∷ fs) = do
  decode_field p v octets offset f
  decode_fields p v octets offsets fs

abbrev pub refuse_mismatch : Vector → List ℕ → Option ℕ → Result (Unit {0})
refuse_mismatch v encoded none = ok tt
refuse_mismatch v encoded (some i) =
    err v.location (encodes_octet v.name i (get_or encoded i 0) (get_or v.wire i 0))

abbrev pub encode_vector : Protocol → Message → List ℕ → ℕ → ℕ → Vector → List ℕ
encode_vector p m offsets octets variable v =
    encode_fields p v octets (replicate (octets + variable) 0) offsets m.fields

-- `check_vector` behind its test of the version.
unfoldable pub check_vector_v1 :
    (ℕ → ℕ → Bool) → Protocol → Message → List ℕ → ℕ → Vector → Result (Unit {0})
check_vector_v1 allocates p m offsets octets v = do
  variable ← check_assignments m v v.assignments 0
  check_present v m.fields
  refuse (ltb (u64_max - variable) octets) v.location wire_too_large
  let wanted = octets + variable
  refuse (not (length v.wire == wanted)) v.location
      (wire_octets v.name (length v.wire) m.name wanted)
  refuse (not (allocates (if wanted == 0 then 1 else wanted) 1)) v.location out_of_memory
  let encoded = encode_vector p m offsets octets variable v
  decode_fields p v octets offsets m.fields
  refuse_mismatch v encoded (first_mismatch wanted 0 encoded v.wire)
