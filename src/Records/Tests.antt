-- ===== src/Records/Tests.antt =====
-- compiler/records.c: a protocol of two messages, evaluated, and the theorems at concrete inputs.
use wire_format.Base.{Bool, arith, ◌≡◌, refl, true, List, [], ◌∷◌, Option, some, codes}
use Prim.Native.String.{String}
use wire_format.Json5.Strings.{hex_value}
use wire_format.Json5.Value.{
  Value, scalar, array, object, Items, item, no_items, Members, member, no_members, number_kind,
  string_kind, starts_with,
}
use wire_format.Compiler.Types.{Result, Text, ok, err, ◌>>=◌, of_records, child_not_earlier}
use wire_format.Compiler.Util.{same_text}
use wire_format.Crc.{crc_bit, crc_bits, counted, crc_loop, wi_crc32c, wi_set_crc32c}
use wire_format.Records.Json.{
  c_text, get_member, identifier_chars, check_identifier, string, contains, digits_loop, strtoull,
  number, index_of, kind, flag,
}
use wire_format.Records.Scopes.{
  Compiler, message_from, field_among, local_field, has_child, parents_from, any, union, without,
  found_in, search_scopes, strip_parents, scope_search, clear, only, reference,
}
use wire_format.Records.Emit.{append, emit, decimal_loop, literal}
use wire_format.Records.Expression.{letter_of, operation, expression}
use wire_format.Records.Fields.{is_little, field_program, field_programs, message_program}
use wire_format.Records.Validate.{
  c_token_char, c_token_equal, named_before, shape_loop, shape, check_clash, check_properties,
  check_byte_order, check_until, check_termination, check_child, validate_field, validate_fields,
  validate_message, validate_messages, validate,
}
use wire_format.Records.Image.{
  put32, word, add_string, add_optional, add_properties, child_word, add_fields, add_message,
  add_messages, header, row, add_rows, image_of,
}
use wire_format.Records.Generate.{
  Generated, c_token, field_lines, fields_lines, message_lines, messages_lines, header_text,
  records_generate,
}
use wire_format.Records.Opened.{records_generate-header_valid}
use wire_format.WireInfo.Image.{header_valid, sections_valid}
use wire_format.Records.Search.{reference-ends}
use wire_format.Records.Loaded.{program_valid-message_program}
use wire_format.WireInfo.Program.{program_valid}

abbrev str : String → Value
str s = scalar 2 2 (string_kind (codes s))

abbrev num : String → Value
num s = scalar 2 2 (number_kind (codes s))

abbrev with_member : String → Value → Members → Members
with_member name v ms = member (codes name) 2 2 v ms

abbrev with_field : String → String → Members → Value
with_field name type ms =
    object 2 2 (with_member "name" (str name) (with_member "type" (str type) ms))

abbrev message : String → Items → Value
message name fields =
    object 2 2 (with_member "name" (str name) (with_member "fields" (array 2 2 fields) no_members))

-- A counted run of the earlier message.
abbrev body_fields : Items
body_fields = item (with_field "count" "uint" (with_member "width" (num "8") no_members)) (
    item
      (with_field "rows" "records"
        (with_member "message" (str "entry") (with_member "count" (str "count") no_members)))
      no_items)

abbrev entry : Value
entry = message "entry" (
    item (with_field "size" "sdnv" no_members)
      (item (with_field "data" "bytes" (with_member "length" (str "size") no_members)) no_items))

abbrev demo : List Value → Option Value
demo messages = some (
    object 1 1 (
      with_member "name" (str "demo")
        (with_member "messages" (array 2 2 (to_items messages)) no_members)))
  where
    to_items : List Value → Items
    to_items [] = no_items
    to_items (x ∷ xs) = item x (to_items xs)

demo-valid :
    validate (demo (entry ∷ message "body" body_fields ∷ []))
    ≡ ok (entry ∷ message "body" body_fields ∷ [])
unfolding c_text get_member identifier_chars check_identifier string contains digits_loop strtoull
    number index_of kind flag message_from c_token_char c_token_equal named_before shape_loop shape
    check_clash check_properties check_byte_order check_until check_termination check_child
    validate_field validate_fields validate_message validate_messages validate starts_with same_text
demo-valid = refl

-- In the other order the child comes later.
demo_later :
    validate (demo (message "body" body_fields ∷ entry ∷ []))
    ≡ err (record { line = 2; column = 2 }) (of_records child_not_earlier)
unfolding c_text get_member identifier_chars check_identifier string contains digits_loop strtoull
    number index_of kind flag message_from c_token_char c_token_equal named_before shape_loop shape
    check_clash check_properties check_byte_order check_until check_termination check_child
    validate_field validate_fields validate_message validate_messages validate starts_with same_text
demo_later = refl

abbrev body_decode : Text
body_decode = codes "%{0}%P{count}%{8}%j%P{count}%uf%g{count}%{256}%J[0]{rows}%uF"

body-program :
    message_program
      (record { messages = entry ∷ message "body" body_fields ∷ []; current = 1 })
      true
      (with_field "count" "uint" (with_member "width" (num "8") no_members)
        ∷ with_field "rows" "records"
            (with_member "message" (str "entry") (with_member "count" (str "count") no_members))
        ∷ [])
    ≡ ok body_decode
unfolding c_text get_member identifier_chars check_identifier string contains digits_loop strtoull
    number index_of kind flag message_from field_among local_field has_child parents_from any union
    without found_in search_scopes strip_parents clear only scope_search reference append emit
    decimal_loop literal letter_of operation expression is_little field_program field_programs
    message_program starts_with same_text hex_value
body-program = refl

program_valid-message_program_example : program_valid (some body_decode) 1 ≡ some true
unfolding get_member same_text c_text
program_valid-message_program_example =
    program_valid-message_program (demo (entry ∷ message "body" body_fields ∷ []))
      (entry ∷ message "body" body_fields ∷ []) 1 (message "body" body_fields)
      (with_field "count" "uint" (with_member "width" (num "8") no_members)
        ∷ with_field "rows" "records"
            (with_member "message" (str "entry") (with_member "count" (str "count") no_members))
        ∷ [])
      true body_decode demo-valid refl refl body-program

abbrev scope : Compiler
scope = record { messages = entry ∷ message "body" body_fields ∷ []; current = 0 }

reference-ends_example :
    ((r : Result Bool) × (scope_search 40 9 scope (codes "parent.count")
        ≡ (r >>= λ found. ok (some found))))
    × (scope_search 40 9 scope (codes "parent.count")
        ≡ scope_search 13 3 scope (codes "parent.count"))
reference-ends_example =
    reference-ends scope (codes "parent.count") 40 9 (omega arith) (omega arith)

abbrev root : Value
root = object 1 1 (
    with_member "protocol"
      (object 1 1 (
        with_member "name" (str "demo")
          (with_member "messages" (array 2 2 (item entry no_items)) no_members)))
      no_members)

generated : (g : Generated) × (records_generate (some root) ≡ ok g)
unfolding c_text get_member identifier_chars check_identifier string contains digits_loop strtoull
    number index_of kind flag message_from field_among local_field has_child parents_from any union
    without found_in search_scopes strip_parents clear only scope_search reference append emit
    decimal_loop literal letter_of operation expression is_little field_program field_programs
    message_program starts_with same_text hex_value c_token_char c_token_equal named_before
    shape_loop shape check_clash check_properties check_byte_order check_until check_termination
    check_child validate_field validate_fields validate_message validate_messages validate put32
    word add_string add_optional add_properties child_word add_fields add_message add_messages
    header row add_rows image_of c_token field_lines fields_lines message_lines messages_lines
    header_text records_generate crc_bit crc_bits counted crc_loop wi_crc32c wi_set_crc32c
generated = (_, refl)

records_generate-header_valid_example :
    (header_valid generated.0.binary ≡ true) × (sections_valid generated.0.binary ≡ true)
records_generate-header_valid_example =
    records_generate-header_valid (some root) generated.0 generated.1
