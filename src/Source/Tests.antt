-- ===== src/Source/Tests.antt =====
-- compiler/source.c: small sources, evaluated, and the theorems at concrete inputs.
use wire_format.Base.{arith, ◌≡◌, refl, true, [], ◌∷◌, Option, none, some, codes}
use Prim.Native.String.{String}
use wire_format.Json5.Utf8.{
  utf8_bytes, utf8_head, utf8_continue, utf8_checked, utf8_sequence, utf8_loop, valid_utf8,
}
use wire_format.Json5.Scan.{
  fail, take_from, advance, take_while, line_comment, block_end, block_comment, comment, skip_loop,
  skip_space,
}
use wire_format.Json5.Strings.{
  hex_value, hex_loop, take_hex, append_utf8, escape_byte, low_half, surrogate_pair, escape_unit,
  escape_letter, escape_other, escape, escaped, string_round, string_loop, string_bytes, identifier,
}
use wire_format.Json5.Value.{
  and_then, is_delimiter, parse_number, starts_with, matches_word, advance_by, parse_word,
  parse_string, parse_name, separated, parse_colon, count_lines, behind_mark, only_value,
  json5_parse, parse_value, open_array, parse_items, open_object, parse_members,
}
use wire_format.Json5.Value.{
  Value, scalar, array, object, item, no_items, Members, member, no_members, string_kind,
}
use wire_format.Compiler.Types.{
  Text, big_endian, msb_first, wfc_bits, Field, Message, Protocol, Result, ok, err, of_source,
  no_message,
}
use wire_format.Compiler.Util.{identifier_loop, identifier_valid, value_fits, same_text}
use wire_format.Compiler.Layout.{find_from}
use wire_format.Source.Values.{
  has_nul, allowed_name, shape_loop, object_shape, member_named, digits_loop, unsigned_text,
  parse_u64, name_value,
}
use wire_format.Source.Field.{
  bit_width, named_type, scalar_type, parse_type, reference, repeats, parse_case, parse_cases,
  parse_choice, choice_parts, parse_constant, field_relations, parse_field,
}
use wire_format.Source.Message.{
  field_before, parse_fields, cases_fit, relation, check_relation, check_relations, message_vectors,
  message_fields, parse_message,
}
use wire_format.Source.Protocol.{
  message_before, parse_messages, check_case_targets, check_target, check_field_targets,
  check_targets, optional_string, parse_byte_order, parse_bit_order, protocol_messages,
  parse_protocol, parse_root, json_result, source_parse,
}
use wire_format.Source.Relations.{AllRelated, parse_message-AllRelated}
use wire_format.Source.Whole.{IsAccepted, source_parse-IsAccepted}

abbrev demo_text : Text
demo_text =
    codes
      "{wire_format:1,protocol:{name:'demo',description:'d',byte_order:'big-endian',bit_order:'msb-first',messages:[{name:'ping',description:'d',fields:[{name:'kind',type:'bits',width:8,constant:7}]}]}}"

abbrev demo_field : Field
demo_field = record {
  name = codes "kind";
  location = record { line = 1; column = 153 };
  type = wfc_bits;
  width = 8;
  is_constant = true;
  constant = 7;
  length_from = none;
  length_of = none;
  message = none;
  count_from = none;
  count_of = none;
  select_from = none;
  cases = [];
}

abbrev demo : Protocol
demo = record {
  record_source = none;
  version = 1;
  name = codes "demo";
  description = codes "d";
  standard = none;
  reference = none;
  location = record { line = 1; column = 31 };
  byte_order = big_endian;
  bit_order = msb_first;
  messages =
      record {
        name = codes "ping";
        description = codes "d";
        location = record { line = 1; column = 116 };
        fields = demo_field ∷ [];
        vectors = [];
      }
      ∷ [];
}

parse_source : Text → Option (Result Protocol)
unfolding utf8_bytes utf8_head utf8_continue utf8_checked utf8_sequence utf8_loop valid_utf8 fail
    take_from advance take_while line_comment block_end block_comment comment skip_loop skip_space
    hex_value hex_loop take_hex append_utf8 escape_byte low_half surrogate_pair escape_unit
    escape_letter escape_other escape escaped string_round string_loop string_bytes identifier
    and_then is_delimiter parse_number starts_with matches_word advance_by parse_word parse_string
    parse_name separated parse_colon count_lines behind_mark only_value json5_parse parse_value
    open_array parse_items open_object parse_members identifier_loop identifier_valid value_fits
    same_text find_from has_nul allowed_name shape_loop object_shape member_named digits_loop
    unsigned_text parse_u64 name_value bit_width named_type scalar_type parse_type reference repeats
    parse_case parse_cases parse_choice choice_parts parse_constant field_relations parse_field
    field_before parse_fields cases_fit relation check_relation check_relations message_vectors
    message_fields parse_message message_before parse_messages check_case_targets check_target
    check_field_targets check_targets optional_string parse_byte_order parse_bit_order
    protocol_messages parse_protocol parse_root json_result source_parse
parse_source text = source_parse text

demo-parsed : source_parse demo_text ≡ some (ok demo)
unfolding parse_source
demo-parsed = refl

-- A reference that is no identifier is refused with no place and no message.
bad_reference :
    parse_source (
      codes
        "{wire_format:3,protocol:{name:'demo',description:'d',byte_order:'big-endian',bit_order:'msb-first',messages:[{name:'ping',description:'d',fields:[{name:'kind',type:'u8',length_of:'9'}]}]}}")
    ≡ some (err (record { line = 0; column = 0 }) (of_source no_message))
unfolding parse_source
bad_reference = refl

source_parse-IsAccepted_example : IsAccepted demo
source_parse-IsAccepted_example = source_parse-IsAccepted demo_text demo demo-parsed

abbrev with_text : String → String → Members → Members
with_text name text ms = member (codes name) 2 2 (scalar 2 2 (string_kind (codes text))) ms

-- A length in front of its bytes.
abbrev sized : Value
sized = object 1 1 (
    with_text "name" "sized" (
      with_text "description" "d" (
        member (codes "fields") 2 2
          (array 2 2 (
            item
              (object 2 2 (
                with_text "name" "size"
                  (with_text "type" "u8" (with_text "length_of" "data" no_members))))
              (item
                (object 2 2 (
                  with_text "name" "data"
                    (with_text "type" "bytes" (with_text "length_from" "size" no_members))))
                no_items)))
          no_members)))

sized-parsed : (m : Message) × (parse_message 3 sized ≡ ok m)
unfolding parse_source
sized-parsed = (_, refl)

parse_message-AllRelated_example : AllRelated sized-parsed.0.fields 0 sized-parsed.0.fields
parse_message-AllRelated_example =
    parse_message-AllRelated 3 sized sized-parsed.0 (omega arith) sized-parsed.1
