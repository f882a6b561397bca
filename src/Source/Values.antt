-- ===== src/Source/Values.antt =====
-- compiler/source.c: the members, strings and numbers of a parsed text.
use wire_format.Base.{
  ℕ, ◌+◌, ◌-◌, ◌*◌, ◌/◌, Bool, false, not, ◌||◌, List, [], ◌∷◌, ltb, ◌==◌, length, drop,
  if◌then◌else◌, u64_max, Option, none, some, codes,
}
use wire_format.Json5.Strings.{hex_value}
use wire_format.Json5.Value.{
  Value, scalar, array, object, Members, no_members, member, number_kind, string_kind, starts_with,
}
use wire_format.Compiler.Types.{
  Text, Location, Result, ok, err, ◌>>=◌, ◌>>◌, refuse, SourceProblem, of_source, must_be_object,
  nul_in_property, unknown_property_of, duplicate_property_of, requires, must_be_string,
  contains_nul, must_be_unsigned, exceeds_64_bits, invalid_identifier,
}
use wire_format.Compiler.Util.{same_text, identifier_valid}

abbrev pub location_of : Value → Location
location_of (scalar l c k) = record { line = l; column = c }
location_of (array l c xs) = record { line = l; column = c }
location_of (object l c ms) = record { line = l; column = c }

abbrev pub fail {ℓ} : {A : Type ℓ} → Location → SourceProblem → Result A
fail place problem = err place (of_source problem)

abbrev pub reject : Bool → Location → SourceProblem → Result (Unit {0})
reject test place problem = refuse test place (of_source problem)

-- `memchr(s, 0, n) != NULL`
unfoldable pub has_nul : Text → Bool
has_nul [] = false
has_nul (c ∷ s) = c == 0 || has_nul s

unfoldable pub allowed_name : Text → List Text → Bool
allowed_name name [] = false
allowed_name name (t ∷ allowed) = same_text name t || allowed_name name allowed

-- The loop of `object_shape`, with the names before.
unfoldable pub shape_loop : Text → List Text → List Text → Members → Result (Unit {0})
shape_loop what allowed earlier no_members = ok tt
shape_loop what allowed earlier (member n l c x later) = do
  reject (has_nul n) (record { line = l; column = c }) (nul_in_property what)
  reject (not (allowed_name n allowed)) (record { line = l; column = c })
      (unknown_property_of n what)
  reject (allowed_name n earlier) (record { line = l; column = c }) (duplicate_property_of n what)
  shape_loop what allowed (n ∷ earlier) later

unfoldable pub object_shape : Value → Text → List Text → Result (Unit {0})
object_shape (object l c ms) what allowed = shape_loop what allowed [] ms
object_shape v what allowed = fail (location_of v) (must_be_object what)

unfoldable pub member_named : Members → Text → Option Value
member_named no_members name = none
member_named (member n l c x later) name =
    let rest = member_named later name in if same_text n name then some x else rest

abbrev pub find_member : Value → Text → Option Value
find_member (object l c ms) name = member_named ms name
find_member v name = none

abbrev pub required_member : Value → Text → Text → Result Value
required_member v name what = elim (find_member v name) [
  | none ↦ fail (location_of v) (requires what name)
  | some x ↦ ok x
]

-- Two calls in a row before either result is looked at.
abbrev pub both {ℓ κ} : {A : Type ℓ} {B : Type κ} → Result A → Result B → Result (A × B)
both (ok a) (ok b) = ok (a, b)
both (err l p) (ok b) = err l p
both m (err l p) = err l p

abbrev pub string_value : Value → Text → Result Text
string_value (scalar l c (string_kind s)) what = do
  reject (has_nul s) (record { line = l; column = c }) (contains_nul what)
  ok s
string_value v what = fail (location_of v) (must_be_string what)

-- The value of a digit, where it is one.
abbrev pub digit_value : Bool → ℕ → Option ℕ
digit_value hexadecimal c = elim (hex_value c) [
  | none ↦ none
  | some d ↦ if hexadecimal || ltb d 10 then some d else none
]

unfoldable pub digits_loop : Value → Text → Bool → ℕ → Text → Result ℕ
digits_loop v what hexadecimal number [] = ok number
digits_loop v what hexadecimal number (c ∷ s) = elim (digit_value hexadecimal c) [
  | none ↦ fail (location_of v) (must_be_unsigned what)
  | some d ↦ do
    let base = if hexadecimal then 16 else 10
    reject (ltb ((u64_max - d) / base) number) (location_of v) (exceeds_64_bits what)
    digits_loop v what hexadecimal (number * base + d) s
]

abbrev pub without_plus : Text → Text
without_plus s = if starts_with (codes "+") s then drop 1 s else s

abbrev pub is_hexadecimal : Text → Bool
is_hexadecimal s = starts_with (codes "0x") s || starts_with (codes "0X") s

-- `parse_u64` behind the sign.
unfoldable pub unsigned_text : Value → Text → Text → Result ℕ
unsigned_text v what s = do
  let hexadecimal = is_hexadecimal s
  let digits = if hexadecimal then drop 2 s else s
  reject (length digits == 0) (location_of v) (must_be_unsigned what)
  digits_loop v what hexadecimal 0 digits

unfoldable pub parse_u64 : Value → Text → Result ℕ
parse_u64 (scalar l c (number_kind s)) what =
    unsigned_text (scalar l c (number_kind s)) what (without_plus s)
parse_u64 v what = fail (location_of v) (must_be_unsigned what)

-- The name and its place.
unfoldable pub name_value : Value → Text → Result (Text × Location)
name_value v what = do
  x ← required_member v (codes "name") what
  name ← string_value x (codes "name")
  reject (not (identifier_valid name)) (location_of x) (invalid_identifier name)
  ok (name, location_of x)
