-- ===== src/Compiler/Types.antt =====
-- compiler/wfc.h: a protocol with its messages, fields and test vectors, and what a check answers.
-- A C string is the list of its bytes before the terminating 0, NULL is `none`, and an array comes
-- with its count as a list.
use wire_format.Base.{ℕ, Bool, true, false, List, Option}
use wire_format.Json5
use wire_format.Json5.Value.{Value}

abbrev pub Text : Type 0
Text = List ℕ

-- `wfc_location_t`
pub record Location : Type 0 where
  pub line : ℕ
  pub column : ℕ

pub data ByteOrder : Type 0 where
  big_endian little_endian : ByteOrder

pub data BitOrder : Type 0 where
  msb_first lsb_first : BitOrder

-- `wfc_field_type_t`
pub data FieldType : Type 0 where
  wfc_bits wfc_u8 wfc_u16 wfc_u32 wfc_u64 wfc_sdnv wfc_bytes wfc_records wfc_choice : FieldType

-- `wfc_choice_case_t`
pub record ChoiceCase : Type 0 where
  pub value : ℕ
  pub message : Text
  pub location : Location

-- `wfc_field_t`
pub record Field : Type 0 where
  pub name : Text
  pub location : Location
  pub type : FieldType
  pub width : ℕ
  pub is_constant : Bool
  pub constant : ℕ
  pub length_from : Option Text
  pub length_of : Option Text
  pub message : Option Text
  pub count_from : Option Text
  pub count_of : Option Text
  pub select_from : Option Text
  pub cases : List ChoiceCase

-- `wfc_assignment_t`
pub record Assignment : Type 0 where
  pub name : Text
  pub location : Location
  pub value : ℕ
  pub bytes : List ℕ
  pub is_bytes : Bool

-- `wfc_vector_t`
pub record Vector : Type 0 where
  pub name : Text
  pub location : Location
  pub assignments : List Assignment
  pub wire : List ℕ

-- `wfc_message_t`
pub record Message : Type 0 where
  pub name : Text
  pub description : Text
  pub location : Location
  pub fields : List Field
  pub vectors : List Vector

-- `wfc_protocol_t`
pub record Protocol : Type 0 where
  pub record_source : Option Value
  pub version : ℕ
  pub name : Text
  pub description : Text
  pub standard : Option Text
  pub reference : Option Text
  pub location : Location
  pub byte_order : ByteOrder
  pub bit_order : BitOrder
  pub messages : List Message

-- `wfc_summary_t`
pub record Summary : Type 0 where
  pub messages : ℕ
  pub vectors : ℕ
  pub layout_octets : ℕ

-- The messages of records.c.
pub data RecordsProblem : Type 0 where
  not_text identifier_too_long not_identifier : RecordsProblem
  not_object unknown_property duplicate_property : RecordsProblem
  not_number not_u64 unknown_type not_boolean : RecordsProblem
  unknown_reference endless_search nesting_exceeded invalid_expression unknown_operator :
      RecordsProblem
  output_too_large operand_too_long : RecordsProblem
  bad_protocol_name message_count field_count : RecordsProblem
  duplicate_message colliding_messages duplicate_field colliding_fields : RecordsProblem
  exclusive_properties requires_width requires_value property_misplaced : RecordsProblem
  unknown_byte_order until_too_large bad_termination : RecordsProblem
  child_not_earlier nested_too_deep : RecordsProblem

-- The messages of source.c, each with what it prints.
pub data SourceProblem : Type 0 where
  must_be_object nul_in_property : Text → SourceProblem
  unknown_property_of duplicate_property_of requires : Text → Text → SourceProblem
  must_be_string contains_nul must_be_unsigned exceeds_64_bits : Text → SourceProblem
  invalid_identifier : Text → SourceProblem
  needs_width bad_width has_width : Text → SourceProblem
  needs_version_2 needs_version_3 unsupported_type : Text → SourceProblem
  relations_need_version_3 only_bytes_length_from never_length_of only_scalar_count_of :
      SourceProblem
  constant_and_length_of constant_and_count_of never_constant : Text → SourceProblem
  records_need choice_needs : Text → SourceProblem
  repeated_selector : Text → ℕ → SourceProblem
  only_choice : SourceProblem
  constant_too_large selector_too_large : ℕ → ℕ → SourceProblem
  values_not_object nul_in_value_name byte_too_large octet_too_large wire_not_array : SourceProblem
  duplicate_value empty_wire no_fields bytes_not_last duplicate_name : Text → SourceProblem
  unknown_field_reference not_mutual : Text → Text → SourceProblem
  needs_earlier_selector : Text → SourceProblem
  vectors_not_array bad_byte_order bad_bit_order no_messages : SourceProblem
  not_earlier_message : Text → Text → SourceProblem
  unsupported_version : ℕ → SourceProblem
  from_json : Json5.Scan.Problem → SourceProblem
  -- A refusal that sets no error: the message stays empty.
  no_message : SourceProblem

-- The messages of check.c, each with the values that it prints.
pub data Problem : Type 0 where
  out_of_memory : Problem
  not_octet_boundary : Bool → Text → ℕ → Problem
  message_too_large : Problem
  ends_off_boundary : Text → ℕ → Problem
  needs_runtime : Text → Problem
  unknown_field : Text → Text → Problem
  assigns_constant : Text → Text → Problem
  assigns_derived : Text → Text → Problem
  requires_octets : Text → Problem
  through_record_list : Text → Problem
  requires_integer : Text → Problem
  does_not_fit : ℕ → ℕ → Problem
  no_value : Text → Text → Problem
  not_aligned : Text → Problem
  encodes_octet : Text → ℕ → ℕ → ℕ → Problem
  invalid_sdnv : Text → Problem
  decodes_bytes : Text → Text → Problem
  decodes_field : Text → Text → ℕ → ℕ → Problem
  decodes_constant : Text → Text → ℕ → ℕ → Problem
  wire_length : Text → Text → Problem
  wire_octets : Text → ℕ → Text → ℕ → Problem
  wire_too_large : Problem
  empty_description empty_standard empty_reference : Problem
  empty_message_description : Problem
  sizes_too_large : Problem
  of_records : RecordsProblem → Problem
  of_source : SourceProblem → Problem
  -- A read beyond the end of a C string, which C leaves undefined.
  out_of_bounds : Problem

-- A return of 1 with what it gives, or of 0 with what `wfc_set_error` recorded.
pub data Result {ℓ} (A : Type ℓ) : Type ℓ where
  ok : A → Result A
  err : Location → Problem → Result A

infixl 5 ◌>>=◌ ◌>>◌
abbrev pub ◌>>=◌ {ℓ κ} : {A : Type ℓ} {B : Type κ} → Result A → (A → Result B) → Result B
ok a >>= f = f a
err l p >>= f = err l p

abbrev pub ◌>>◌ {ℓ} : {B : Type ℓ} → Result (Unit {0}) → Result B → Result B
m >> k = m >>= λ _. k

-- Returns the error where the test holds.
abbrev pub refuse : Bool → Location → Problem → Result (Unit {0})
refuse true l p = err l p
refuse false l p = ok tt
