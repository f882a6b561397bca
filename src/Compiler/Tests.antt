-- ===== src/Compiler/Tests.antt =====
-- compiler/check.c: checks of concrete protocols, evaluated, and the theorems at concrete inputs.
use wire_format.Base.{
  ℕ, ◌+◌, ◌*◌, ◌≡◌, ◌↔◌, refl, arith, Bool, true, false, List, [], ◌∷◌, none, some, ltb,
  if◌then◌else◌, length, get_or, ◌<◌,
}
use Prim.Native.String.{String}
use Prim.Native.Char.{code}
use wire_format.Compiler.Types.{
  Location, big_endian, msb_first, FieldType, wfc_bits, wfc_u16, wfc_sdnv, Field, Assignment,
  Vector, Message, Protocol, Summary, Result, ok, err, not_octet_boundary, decodes_field,
}
use wire_format.Compiler.Util.{identifier_loop, identifier_valid, value_fits, same_text}
use wire_format.Compiler.Text.{unicode_space, more_bytes, codepoint_at, text_loop, text_present}
use wire_format.Compiler.Layout.{layout_loop, message_layout, find_from, find_among}
use wire_format.Compiler.Bits.{
  write_bits_loop, write_bits, read_bits_loop, read_bits, write_scalar_loop, write_scalar,
  read_scalar_loop, read_scalar, write_field, read_field,
}
use wire_format.Compiler.Sdnv.{
  vector_length, encoded_octets, copy_at, write_sdnv_vector, read_sdnv_loop, read_sdnv_vector,
}
use wire_format.Compiler.Vector.{
  encode_vector, check_assigned, check_assignments, check_present, encode_field, encode_fields,
  first_mismatch, same_octets, decode_field, decode_fields, check_vector_v1,
}
use wire_format.Compiler.VectorV3.{
  vector_field_value, refuse_runtime, check_assigned_v3, check_assignments_v3, check_present_v3,
  encode_octets, encode_field_v3, encode_fields_v3, decoded_length, decode_bytes, decode_scalar,
  decode_number, decode_field_v3, decode_fields_v3, check_vector_v3,
}
use wire_format.Compiler.Check.{check_vector, check_vectors, check_message, check_messages, check}
use wire_format.Compiler.Accepted.{AllChecked, vector_count, octet_sum, check-AllChecked}
use wire_format.Compiler.Encoded.{check_vector_v1-encoded}
use wire_format.Compiler.Offsets.{IsLaidOut, prefix_sums, total_width, message_layout-exact}
use wire_format.Machine.State.{Vars}
use wire_format.Machine.Emit.{sdnv_length, sdnv_bytes}
use wire_format.Machine.Read.{sdnv_loop}
use wire_format.Machine.Lists.{cleared}
use wire_format.Machine.RoundTrip.Ends.{reader}
use wire_format.Compiler.SdnvCoding.{
  Agree, write_sdnv_vector-sdnv_bytes, read_sdnv_vector-sdnv_loop,
}

abbrev codes : String → List ℕ
codes String.[] = []
codes (String.◌∷◌ c s) = code c ∷ codes s

abbrev here : Location
here = record { line = 1; column = 1 }

abbrev field : String → FieldType → ℕ → Field
field name type width = record {
  name = codes name;
  location = here;
  type = type;
  width = width;
  is_constant = false;
  constant = 0;
  length_from = none;
  length_of = none;
  message = none;
  count_from = none;
  count_of = none;
  select_from = none;
  cases = [];
}

abbrev assign : String → ℕ → Assignment
assign name value = record {
  name = codes name;
  location = here;
  value = value;
  bytes = [];
  is_bytes = false;
}

abbrev header_fields : List Field
header_fields = field "kind" wfc_bits 3 ∷ field "flags" wfc_bits 5 ∷ field "size" wfc_u16 0 ∷ []

abbrev vector : List Assignment → List ℕ → Vector
vector assignments wire = record {
  name = codes "v";
  location = here;
  assignments = assignments;
  wire = wire;
}

abbrev message : List Field → List Vector → Message
message fields vectors = record {
  name = codes "m";
  description = codes "a message";
  location = here;
  fields = fields;
  vectors = vectors;
}

abbrev protocol : ℕ → List Message → Protocol
protocol version messages = record {
  record_source = none;
  version = version;
  name = codes "p";
  description = codes "a protocol";
  standard = none;
  reference = none;
  location = here;
  byte_order = big_endian;
  bit_order = msb_first;
  messages = messages;
}

abbrev always : ℕ → ℕ → Bool
always count size = true

run_check : Protocol → Result Summary
unfolding identifier_loop identifier_valid value_fits same_text unicode_space more_bytes
    codepoint_at text_loop text_present layout_loop message_layout find_from find_among
    write_bits_loop write_bits read_bits_loop read_bits write_scalar_loop write_scalar
    read_scalar_loop read_scalar write_field read_field vector_length encoded_octets copy_at
    write_sdnv_vector read_sdnv_loop read_sdnv_vector check_assigned check_assignments check_present
    encode_field encode_fields first_mismatch same_octets decode_field decode_fields check_vector_v1
    vector_field_value refuse_runtime check_assigned_v3 check_assignments_v3 check_present_v3
    encode_octets encode_field_v3 encode_fields_v3 decoded_length decode_bytes decode_scalar
    decode_number decode_field_v3 decode_fields_v3 check_vector_v3 check_vector check_vectors
    check_message check_messages check
run_check p = check always p

abbrev three : List Assignment
three = assign "kind" 5 ∷ assign "flags" 3 ∷ assign "size" 0x1234 ∷ []

accepted :
    run_check
      (protocol 1 (message header_fields (vector three (0xa3 ∷ 0x12 ∷ 0x34 ∷ []) ∷ []) ∷ []))
    ≡ ok (record { messages = 1; vectors = 1; layout_octets = 3 })
unfolding run_check
accepted = refl

accepted_v3 :
    run_check (
      protocol 3 (
        message
          (field "id" wfc_sdnv 0 ∷ header_fields)
          (vector (assign "id" 300 ∷ three) (0x82 ∷ 0x2c ∷ 0xa3 ∷ 0x12 ∷ 0x34 ∷ []) ∷ [])
        ∷ []))
    ≡ ok (record { messages = 1; vectors = 1; layout_octets = 4 })
unfolding run_check
accepted_v3 = refl

wrong_wire :
    run_check
      (protocol 1 (message header_fields (vector three (0xa3 ∷ 0x12 ∷ 0x35 ∷ []) ∷ []) ∷ []))
    ≡ err here (decodes_field (codes "v") (codes "size") 0x1235 0x1234)
unfolding run_check
wrong_wire = refl

off_boundary :
    run_check (protocol 1 (message (field "kind" wfc_bits 3 ∷ field "size" wfc_u16 0 ∷ []) [] ∷ []))
    ≡ err here (not_octet_boundary false (codes "size") 3)
unfolding run_check
off_boundary = refl

message_layout-exact_example :
    (message_layout always (message header_fields []) ≡ ok (0 ∷ 3 ∷ 8 ∷ [], 3)) ↔ (
      (always 3 8 ≡ true)
      × IsLaidOut 0 header_fields
      × (0 ∷ 3 ∷ 8 ∷ [] ≡ prefix_sums 0 header_fields)
      × (3 * 8 ≡ total_width header_fields))
message_layout-exact_example =
    message_layout-exact always (message header_fields []) (0 ∷ 3 ∷ 8 ∷ []) 3

abbrev four_octets : List ℕ
four_octets = 0 ∷ 0 ∷ 0 ∷ 0 ∷ []

write_sdnv_vector-sdnv_bytes_example : write_sdnv_vector four_octets 4 1 300 ≡ (
    if ltb 3 (sdnv_length 9 300)
    then none
    else some (copy_at four_octets 1 (sdnv_bytes (sdnv_length 9 300) 300), 1 + sdnv_length 9 300))
write_sdnv_vector-sdnv_bytes_example =
    write_sdnv_vector-sdnv_bytes four_octets 4 1 300 (omega arith)

abbrev fresh : Vars
fresh = cleared (λ address. 0) []

abbrev wire : List ℕ
wire = 9 ∷ 0x82 ∷ 0x2c ∷ 7 ∷ []

read_sdnv_vector-sdnv_loop_example :
    Agree fresh [] wire
      (read_sdnv_vector wire 4 1)
      (sdnv_loop 10 0 (reader fresh [] (0x82 ∷ 0x2c ∷ 7 ∷ []) 1))
read_sdnv_vector-sdnv_loop_example =
    read_sdnv_vector-sdnv_loop 1 wire fresh [] (omega arith) (omega arith)

abbrev one_message : Protocol
one_message = protocol 1 (message header_fields (vector three (0xa3 ∷ 0x12 ∷ 0x34 ∷ []) ∷ []) ∷ [])

abbrev counted : Summary
counted = record { messages = 1; vectors = 1; layout_octets = 3 }

one_message_accepted : check always one_message ≡ ok counted
unfolding run_check
one_message_accepted = accepted

check-AllChecked_example :
    (text_present (codes "a protocol") ≡ some true)
    × AllChecked always one_message one_message.messages
    × (1 ≡ length one_message.messages)
    × (1 ≡ vector_count one_message.messages)
    × (3 ≡ octet_sum one_message.messages)
check-AllChecked_example = check-AllChecked always one_message counted refl one_message_accepted

abbrev one_vector : Vector
one_vector = vector three (0xa3 ∷ 0x12 ∷ 0x34 ∷ [])

abbrev header_message : Message
header_message = message header_fields (one_vector ∷ [])

abbrev header_offsets : List ℕ
header_offsets = 0 ∷ 3 ∷ 8 ∷ []

one_vector_passes :
    check_vector_v1 always one_message header_message header_offsets 3 one_vector ≡ ok tt
unfolding identifier_loop identifier_valid value_fits same_text unicode_space more_bytes
    codepoint_at text_loop text_present layout_loop message_layout find_from find_among
    write_bits_loop write_bits read_bits_loop read_bits write_scalar_loop write_scalar
    read_scalar_loop read_scalar write_field read_field vector_length encoded_octets copy_at
    write_sdnv_vector read_sdnv_loop read_sdnv_vector check_assigned check_assignments check_present
    encode_field encode_fields first_mismatch same_octets decode_field decode_fields check_vector_v1
    vector_field_value refuse_runtime check_assigned_v3 check_assignments_v3 check_present_v3
    encode_octets encode_field_v3 encode_fields_v3 decoded_length decode_bytes decode_scalar
    decode_number decode_field_v3 decode_fields_v3 check_vector_v3 check_vector check_vectors
    check_message check_messages check
one_vector_passes = refl

check_vector_v1-encoded_example :
    (variable : ℕ) × (check_assignments header_message one_vector three 0 ≡ ok variable)
    × (3 ≡ 3 + variable)
    × ((i : ℕ)
        → i < 3
        → get_or (encode_vector one_message header_message header_offsets 3 variable one_vector) i 0
          ≡ get_or one_vector.wire i 0)
    × (decode_fields one_message one_vector 3 header_offsets header_fields ≡ ok tt)
check_vector_v1-encoded_example =
    check_vector_v1-encoded always one_message header_message header_offsets 3 one_vector
      one_vector_passes
