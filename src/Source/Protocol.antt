-- ===== src/Source/Protocol.antt =====
-- compiler/source.c: `parse_protocol` and `wfc_source_parse`.
use wire_format.Base.{
  ℕ, ◌+◌, ◌*◌, Bool, false, not, ◌&&◌, ◌||◌, List, [], ◌∷◌, ◌++◌, ◌==◌, length, if◌then◌else◌,
  Option, none, some, codes,
}
use wire_format.Json5.Scan.{Failure}
use wire_format.Json5.Value.{Value, scalar, array, string_kind, json5_parse}
use wire_format.Compiler.Types.{
  Text, ByteOrder, big_endian, little_endian, BitOrder, msb_first, lsb_first, ChoiceCase, Field,
  Message, Protocol, Result, ok, ◌>>=◌, ◌>>◌, duplicate_name, bad_byte_order, bad_bit_order,
  no_messages, not_earlier_message, unsupported_version, from_json, no_message,
}
use wire_format.Compiler.Util.{same_text}
use wire_format.Records.Json.{items}
use wire_format.Source.Values.{
  location_of, fail, reject, object_shape, find_member, required_member, both, string_value,
  parse_u64, name_value,
}
use wire_format.Source.Message.{parse_message}

unfoldable pub message_before : Text → List Message → Bool
message_before name [] = false
message_before name (m ∷ earlier) = same_text m.name name || message_before name earlier

unfoldable pub parse_messages : ℕ → List Message → List Value → Result (List Message)
parse_messages version earlier [] = ok earlier
parse_messages version earlier (x ∷ later) = do
  m ← parse_message version x
  reject (message_before m.name earlier) m.location (duplicate_name m.name)
  parse_messages version (earlier ++ (m ∷ [])) later

unfoldable pub check_case_targets : List Message → Field → List ChoiceCase → Result (Unit {0})
check_case_targets earlier f [] = ok tt
check_case_targets earlier f (k ∷ later) = do
  reject (not (message_before k.message earlier)) k.location (not_earlier_message f.name k.message)
  check_case_targets earlier f later

-- The messages that a field names stand before its own.
unfoldable pub check_target : List Message → Field → Result (Unit {0})
check_target earlier f = elim f.message [
  | none ↦ ok tt
  | some target ↦
      reject (not (message_before target earlier)) f.location (not_earlier_message f.name target)
]

unfoldable pub check_field_targets : List Message → List Field → Result (Unit {0})
check_field_targets earlier [] = ok tt
check_field_targets earlier (f ∷ later) = do
  check_target earlier f
  check_case_targets earlier f f.cases
  check_field_targets earlier later

unfoldable pub check_targets : List Message → List Message → Result (Unit {0})
check_targets earlier [] = ok tt
check_targets earlier (m ∷ later) = do
  check_field_targets earlier m.fields
  check_targets (earlier ++ (m ∷ [])) later

unfoldable pub optional_string : Option Value → Text → Result (Option Text)
optional_string none what = ok none
optional_string (some v) what = string_value v what >>= λ s. ok (some s)

unfoldable pub parse_byte_order : Value → Result ByteOrder
parse_byte_order v = do
  s ← string_value v (codes "byte_order")
  (if same_text s (codes "big-endian")
      then ok big_endian
      else if same_text s (codes "little-endian")
      then ok little_endian
      else fail (location_of v) bad_byte_order)

unfoldable pub parse_bit_order : Value → Result BitOrder
parse_bit_order v = do
  s ← string_value v (codes "bit_order")
  (if same_text s (codes "msb-first")
      then ok msb_first
      else if same_text s (codes "lsb-first")
      then ok lsb_first
      else fail (location_of v) bad_bit_order)

unfoldable pub protocol_messages : ℕ → Value → Result (List Message)
protocol_messages version (array l c xs) = do
  reject (length (items xs) == 0) (record { line = l; column = c }) no_messages
  parse_messages version [] (items xs)
protocol_messages version v = fail (location_of v) no_messages

abbrev pub protocol_keys : List Text
protocol_keys =
    codes "name"
    ∷ codes "description"
    ∷ codes "standard"
    ∷ codes "reference"
    ∷ codes "byte_order"
    ∷ codes "bit_order"
    ∷ codes "messages"
    ∷ []

unfoldable pub parse_protocol : ℕ → Value → Result Protocol
parse_protocol version source = do
  let what = codes "protocol"
  object_shape source what protocol_keys
  (name, location) ← name_value source what
  (((description, byte_order), bit_order), messages) ←
      both
        (both
          (both (required_member source (codes "description") what)
            (required_member source (codes "byte_order") what))
          (required_member source (codes "bit_order") what))
        (required_member source (codes "messages") what)
  text ← string_value description (codes "protocol description")
  standard ← optional_string (find_member source (codes "standard")) (codes "standard")
  citation ← optional_string (find_member source (codes "reference")) (codes "reference")
  bytes ← parse_byte_order byte_order
  bits ← parse_bit_order bit_order
  parsed ← protocol_messages version messages
  check_targets [] parsed
  ok (record {
    record_source = none;
    version = version;
    name = name;
    description = text;
    standard = standard;
    reference = citation;
    location = location;
    byte_order = bytes;
    bit_order = bits;
    messages = parsed;
  })

-- The name of a version 4 protocol, which is NULL where there is no string.
abbrev pub name_text : Option Value → Text
name_text (some (scalar l c (string_kind s))) = s
name_text _ = []

-- A version 4 protocol is kept as its source; all else is 0 or NULL.
abbrev pub record_protocol : Value → Value → Protocol
record_protocol root source = record {
  record_source = some root;
  version = 4;
  name = name_text (find_member source (codes "name"));
  description = [];
  standard = none;
  reference = none;
  location = record { line = 0; column = 0 };
  byte_order = big_endian;
  bit_order = msb_first;
  messages = [];
}

-- The root of the text.
unfoldable pub parse_root : Value → Result Protocol
parse_root root = do
  object_shape root (codes "source file") (codes "wire_format" ∷ codes "protocol" ∷ [])
  (version, source) ←
      both (required_member root (codes "wire_format") (codes "source file"))
        (required_member root (codes "protocol") (codes "source file"))
  number ← parse_u64 version (codes "wire_format")
  (if number == 4 then ok (record_protocol root source) else (do
    reject (not (number == 1) && not (number == 2) && not (number == 3)) (location_of version)
        (unsupported_version number)
    parse_protocol number source))

unfoldable pub json_result : Option Value × Option Failure → Result Protocol
json_result (some root, e) = parse_root root
json_result (none, some f) =
    fail (record { line = f.line; column = f.column }) (from_json f.problem)
json_result (none, none) = fail (record { line = 0; column = 0 }) no_message

-- `wfc_source_parse`, with the fuel of the text parser.
unfoldable pub source_parse : Text → Option (Result Protocol)
source_parse text = elim (json5_parse (3 * length text + 3) text) [
  | none ↦ none
  | some outcome ↦ some (json_result outcome)
]
