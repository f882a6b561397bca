-- ===== src/Source/Message.antt =====
-- compiler/source.c: `parse_message`.
use wire_format.Base.{
  ℕ, ◌+◌, Bool, true, false, not, ◌&&◌, ◌||◌, List, [], ◌∷◌, ◌++◌, ltb, leb, ◌==◌, length,
  if◌then◌else◌, Option, none, some, codes,
}
use wire_format.Json5.Value.{Value, array}
use wire_format.Compiler.Types.{
  Text, ChoiceCase, Field, Vector, Message, Result, ok, ◌>>=◌, ◌>>◌, no_fields, bytes_not_last,
  duplicate_name, unknown_field_reference, not_mutual, needs_earlier_selector, selector_too_large,
  vectors_not_array,
}
use wire_format.Compiler.Util.{same_text, field_width, value_fits}
use wire_format.Compiler.Layout.{is_octets, is_sdnv, find_from}
use wire_format.Records.Json.{items}
use wire_format.Source.Values.{
  location_of, fail, reject, object_shape, find_member, required_member, both, string_value,
  name_value,
}
use wire_format.Source.Field.{is_records, is_choice, is_compound, parse_field}
use wire_format.Source.Vector.{parse_vector}

abbrev pub is_none : Option Text → Bool
is_none none = true
is_none (some s) = false

unfoldable pub field_before : Text → List Field → Bool
field_before name [] = false
field_before name (f ∷ earlier) = same_text name f.name || field_before name earlier

-- The fields, behind the ones before.
unfoldable pub parse_fields : ℕ → List Field → List Value → Result (List Field)
parse_fields version earlier [] = ok earlier
parse_fields version earlier (x ∷ later) = do
  f ← parse_field version x
  reject (is_octets f.type && is_none f.length_from && not (length later == 0)) f.location
      (bytes_not_last f.name)
  reject (field_before f.name earlier) f.location (duplicate_name f.name)
  parse_fields version (earlier ++ (f ∷ [])) later

-- The field's name in a reference back to it.
abbrev pub refers_to : Option Text → Text → Bool
refers_to none name = false
refers_to (some s) name = same_text s name

unfoldable pub cases_fit : Field → List ChoiceCase → Result (Unit {0})
cases_fit target [] = ok tt
cases_fit target (k ∷ later) = do
  reject (not (is_sdnv target.type) && not (value_fits k.value (field_width target))) k.location
      (selector_too_large k.value (field_width target))
  cases_fit target later

-- The tests on the field that a relation names, at its place.
abbrev pub length_of_fits : ℕ → Field → ℕ → Field → Bool
length_of_fits index f place target =
    is_octets target.type && ltb index place && refers_to target.length_from f.name

abbrev pub length_from_fits : ℕ → Field → ℕ → Field → Bool
length_from_fits index f place target =
    not (is_octets target.type) && ltb place index && refers_to target.length_of f.name

abbrev pub count_of_fits : ℕ → Field → ℕ → Field → Bool
count_of_fits index f place target =
    is_records target.type && ltb index place && refers_to target.count_from f.name

abbrev pub count_from_fits : ℕ → Field → ℕ → Field → Bool
count_from_fits index f place target =
    not (is_compound target.type) && ltb place index && refers_to target.count_of f.name

abbrev pub selector_fits : ℕ → Field → ℕ → Field → Bool
selector_fits index f place target =
    ltb place index
    && not (is_compound target.type)
    && not target.is_constant
    && is_none target.length_of
    && is_none target.count_of

-- A relation to the field that is named, which has to pass the test.
unfoldable pub relation :
    List Field → Field → Text → (ℕ → Field → Bool) → (Field → Result (Unit {0})) → Result (Unit {0})
relation fields f wanted test more = elim (find_from 0 fields wanted) [
  | none ↦ fail f.location (unknown_field_reference f.name wanted)
  | some (place, target) ↦ do
    reject (not (test place target)) f.location
        (if is_choice f.type then needs_earlier_selector f.name else not_mutual f.name target.name)
    more target
]

abbrev pub nothing_more : Field → Result (Unit {0})
nothing_more target = ok tt

-- The first of the field's relations; the order is that of the code.
unfoldable pub check_relation : List Field → ℕ → Field → Result (Unit {0})
check_relation fields index f = elim f.length_of [
  | some wanted ↦ relation fields f wanted (length_of_fits index f) nothing_more
  | none ↦ elim f.length_from [
    | some wanted ↦ relation fields f wanted (length_from_fits index f) nothing_more
    | none ↦ elim f.count_of [
      | some wanted ↦ relation fields f wanted (count_of_fits index f) nothing_more
      | none ↦ elim f.count_from [
        | some wanted ↦ relation fields f wanted (count_from_fits index f) nothing_more
        | none ↦ elim f.select_from [
          | some wanted ↦
              relation fields f wanted (selector_fits index f) (λ target. cases_fit target f.cases)
          | none ↦ ok tt
        ]
      ]
    ]
  ]
]

unfoldable pub check_relations : List Field → ℕ → List Field → Result (Unit {0})
check_relations fields index [] = ok tt
check_relations fields index (f ∷ later) = do
  check_relation fields index f
  check_relations fields (index + 1) later

unfoldable pub vector_before : Text → List Vector → Bool
vector_before name [] = false
vector_before name (v ∷ earlier) = same_text name v.name || vector_before name earlier

unfoldable pub parse_vectors : List Vector → List Value → Result (List Vector)
parse_vectors earlier [] = ok earlier
parse_vectors earlier (x ∷ later) = do
  v ← parse_vector x
  reject (vector_before v.name earlier) v.location (duplicate_name v.name)
  parse_vectors (earlier ++ (v ∷ [])) later

unfoldable pub message_vectors : Option Value → Result (List Vector)
message_vectors none = ok []
message_vectors (some (array l c xs)) = parse_vectors [] (items xs)
message_vectors (some v) = fail (location_of v) vectors_not_array

-- The fields of a message, of which there has to be one.
unfoldable pub message_fields : ℕ → Text → Value → Result (List Field)
message_fields version name (array l c xs) = do
  reject (length (items xs) == 0) (record { line = l; column = c }) (no_fields name)
  parse_fields version [] (items xs)
message_fields version name v = fail (location_of v) (no_fields name)

unfoldable pub parse_message : ℕ → Value → Result Message
parse_message version source = do
  object_shape source (codes "message")
      (codes "name" ∷ codes "description" ∷ codes "fields" ∷ codes "vectors" ∷ [])
  (name, location) ← name_value source (codes "message")
  (description, fields) ←
      both (required_member source (codes "description") (codes "message"))
        (required_member source (codes "fields") (codes "message"))
  text ← string_value description (codes "message description")
  parsed ← message_fields version name fields
  if leb 3 version then check_relations parsed 0 parsed else ok tt
  vectors ← message_vectors (find_member source (codes "vectors"))
  ok (record {
    name = name;
    description = text;
    location = location;
    fields = parsed;
    vectors = vectors;
  })
