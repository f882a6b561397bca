-- ===== src/Source/Field.antt =====
-- compiler/source.c: `parse_field`.
use wire_format.Base.{
  ℕ, Bool, true, false, not, ◌&&◌, ◌||◌, List, [], ◌∷◌, ◌++◌, ltb, ◌==◌, length, if◌then◌else◌,
  Option, none, some, codes,
}
use wire_format.Json5.Value.{Value, array}
use wire_format.Compiler.Types.{
  Text, Location, FieldType, wfc_bits, wfc_u8, wfc_u16, wfc_u32, wfc_u64, wfc_sdnv, wfc_bytes,
  wfc_records, wfc_choice, ChoiceCase, Field, Result, ok, ◌>>=◌, ◌>>◌, SourceProblem, needs_width,
  bad_width, has_width, needs_version_2, needs_version_3, unsupported_type,
  relations_need_version_3, only_bytes_length_from, never_length_of, only_scalar_count_of,
  constant_and_length_of, constant_and_count_of, never_constant, records_need, choice_needs,
  repeated_selector, only_choice, constant_too_large, no_message,
}
use wire_format.Compiler.Util.{same_text, identifier_valid, field_width, value_fits}
use wire_format.Compiler.Layout.{is_bits, is_octets, is_sdnv}
use wire_format.Records.Json.{items}
use wire_format.Source.Values.{
  location_of, fail, reject, object_shape, find_member, required_member, both, string_value,
  parse_u64, name_value,
}

abbrev pub is_given : Option Value → Bool
is_given none = false
is_given (some v) = true

abbrev pub is_records : FieldType → Bool
is_records wfc_records = true
is_records _ = false

abbrev pub is_choice : FieldType → Bool
is_choice wfc_choice = true
is_choice _ = false

-- A field of bytes, records or a choice, which holds no number.
abbrev pub is_compound : FieldType → Bool
is_compound t = is_octets t || is_records t || is_choice t

abbrev pub field_keys : List Text
field_keys =
    codes "name"
    ∷ codes "type"
    ∷ codes "width"
    ∷ codes "constant"
    ∷ codes "length_from"
    ∷ codes "length_of"
    ∷ codes "message"
    ∷ codes "count_from"
    ∷ codes "count_of"
    ∷ codes "select_from"
    ∷ codes "cases"
    ∷ []

-- The width of a field of bits.
unfoldable pub bit_width : Text → Location → Option Value → Result ℕ
bit_width name location none = fail location (needs_width name)
bit_width name location (some width) = do
  w ← parse_u64 width (codes "field width")
  reject (ltb w 1 || ltb 64 w) (location_of width) (bad_width name)
  ok w

-- A type that needs a later version of the format.
abbrev pub since : ℕ → ℕ → Location → SourceProblem → FieldType → Result FieldType
since first version place problem t = do reject (ltb version first) place problem; ok t

unfoldable pub named_type : ℕ → Text → Value → Text → Result FieldType
named_type version name source type =
    if same_text type (codes "u8")
    then ok wfc_u8
    else if same_text type (codes "u16")
    then ok wfc_u16
    else if same_text type (codes "u32")
    then ok wfc_u32
    else if same_text type (codes "u64")
    then ok wfc_u64
    else if same_text type (codes "sdnv")
    then since 3 version (location_of source) (needs_version_3 name) wfc_sdnv
    else if same_text type (codes "bytes")
    then since 2 version (location_of source) (needs_version_2 name) wfc_bytes
    else if same_text type (codes "records")
    then since 3 version (location_of source) (needs_version_3 name) wfc_records
    else if same_text type (codes "choice")
    then since 3 version (location_of source) (needs_version_3 name) wfc_choice
    else fail (location_of source) (unsupported_type name)

unfoldable pub scalar_type : ℕ → Text → Value → Text → Option Value → Result FieldType
scalar_type version name source type (some width) = fail (location_of width) (has_width name)
scalar_type version name source type none = named_type version name source type

-- The type with the width of a field of bits, which is 0 for the others.
unfoldable pub parse_type :
    ℕ → Text → Location → Value → Text → Option Value → Result (FieldType × ℕ)
parse_type version name location source type width =
    if same_text type (codes "bits")
    then (do w ← bit_width name location width; ok (wfc_bits, w))
    else (do t ← scalar_type version name source type width; ok (t, 0))

-- A reference to another field or message. An invalid identifier is refused with no message.
unfoldable pub reference : Text → Option Value → Result (Option Text)
reference what none = ok none
reference what (some v) = do
  name ← string_value v what
  reject (not (identifier_valid name)) (record { line = 0; column = 0 }) no_message
  ok (some name)

-- A refusal at the place of a member that is given.
abbrev pub reject_given : Bool → Option Value → SourceProblem → Result (Unit {0})
reject_given test none problem = ok tt
reject_given test (some v) problem = reject test (location_of v) problem

unfoldable pub repeats : ℕ → List ChoiceCase → Bool
repeats value [] = false
repeats value (k ∷ earlier) = k.value == value || repeats value earlier

-- One case of a choice, behind the ones before.
unfoldable pub parse_case : Text → List ChoiceCase → Value → Result ChoiceCase
parse_case name earlier source = do
  object_shape source (codes "choice case") (codes "value" ∷ codes "message" ∷ [])
  (value, message) ←
      both (required_member source (codes "value") (codes "choice case"))
        (required_member source (codes "message") (codes "choice case"))
  selector ← parse_u64 value (codes "choice selector")
  target ← string_value message (codes "choice message")
  reject (not (identifier_valid target)) (record { line = 0; column = 0 }) no_message
  reject (repeats selector earlier) (location_of value) (repeated_selector name selector)
  ok (record { value = selector; message = target; location = location_of source })

unfoldable pub parse_cases : Text → List ChoiceCase → List Value → Result (List ChoiceCase)
parse_cases name earlier [] = ok earlier
parse_cases name earlier (x ∷ later) = do
  k ← parse_case name earlier x
  parse_cases name (earlier ++ (k ∷ [])) later

-- What a choice field adds: its selector and its cases.
unfoldable pub parse_choice :
    Text → Location → Option Value → Option Value → Result (Option Text × List ChoiceCase)
parse_choice name location (some selector) (some (array l c xs)) = do
  reject (length (items xs) == 0) location (choice_needs name)
  select_from ← reference (codes "select_from") (some selector)
  cases ← parse_cases name [] (items xs)
  ok (select_from, cases)
parse_choice name location selector cases = fail location (choice_needs name)

unfoldable pub choice_parts :
    FieldType
    → Text
    → Location
    → Option Value
    → Option Value
    → Result (Option Text × List ChoiceCase)
choice_parts t name location selector cases =
    if is_choice t
    then parse_choice name location selector cases
    else (do reject (is_given selector || is_given cases) location only_choice; ok (none, []))

-- The constant, where the field has one.
unfoldable pub parse_constant : Field → Option Value → Result Field
parse_constant f none = ok f
parse_constant f (some v) = do
  n ← parse_u64 v (codes "field constant")
  reject (not (is_sdnv f.type) && not (value_fits n (field_width f))) (location_of v)
      (constant_too_large n (field_width f))
  ok (record f { is_constant = true; constant = n })

-- Whether the member is given exactly where the test holds.
abbrev pub differs : Bool → Option Value → Bool
differs true none = true
differs true (some v) = false
differs false v = is_given v

-- What a field says of other fields and messages: the references, and the cases of a choice.
pub record Relations : Type 0 where
  length_from : Option Text
  length_of : Option Text
  message : Option Text
  count_from : Option Text
  count_of : Option Text
  select_from : Option Text
  cases : List ChoiceCase

-- The references of a field, with what each type of field forbids or needs.
unfoldable pub field_relations : ℕ → Text → Location → FieldType → Value → Result Relations
field_relations version name location t source = do
  let constant = find_member source (codes "constant")
  let from = find_member source (codes "length_from")
  let length_of = find_member source (codes "length_of")
  let message = find_member source (codes "message")
  let count_from = find_member source (codes "count_from")
  let count_of = find_member source (codes "count_of")
  let select_from = find_member source (codes "select_from")
  let cases = find_member source (codes "cases")
  reject
      ((is_given from
          || is_given length_of
          || is_given count_from
          || is_given count_of
          || is_given select_from)
        && ltb version 3)
      location relations_need_version_3
  reject_given (not (is_octets t)) from only_bytes_length_from
  from_name ← reference (codes "length_from") from
  reject_given (is_octets t || is_bits t || is_records t || is_choice t) length_of never_length_of
  of_name ← reference (codes "length_of") length_of
  reject (is_given constant && is_given length_of) location (constant_and_length_of name)
  reject_given (is_compound t) constant (never_constant name)
  reject (differs (is_records t) count_from || differs (is_records t) message) location
      (records_need name)
  reject_given (is_compound t) count_of only_scalar_count_of
  reject (is_given count_of && is_given constant) location (constant_and_count_of name)
  message_name ← reference (codes "message") message
  count_from_name ← reference (codes "count_from") count_from
  count_of_name ← reference (codes "count_of") count_of
  (selector, case_list) ← choice_parts t name location select_from cases
  ok (record {
    length_from = from_name;
    length_of = of_name;
    message = message_name;
    count_from = count_from_name;
    count_of = count_of_name;
    select_from = selector;
    cases = case_list;
  })

unfoldable pub parse_field : ℕ → Value → Result Field
parse_field version source = do
  object_shape source (codes "field") field_keys
  (name, location) ← name_value source (codes "field")
  type_value ← required_member source (codes "type") (codes "field")
  type ← string_value type_value (codes "field type")
  (t, width) ← parse_type version name location type_value type (find_member source (codes "width"))
  r ← field_relations version name location t source
  parse_constant
      (record {
        name = name;
        location = location;
        type = t;
        width = width;
        is_constant = false;
        constant = 0;
        length_from = r.length_from;
        length_of = r.length_of;
        message = r.message;
        count_from = r.count_from;
        count_of = r.count_of;
        select_from = r.select_from;
        cases = r.cases;
      })
      (find_member source (codes "constant"))
