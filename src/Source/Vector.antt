-- ===== src/Source/Vector.antt =====
-- compiler/source.c: `parse_vector`.
use wire_format.Base.{
  ℕ, Bool, true, false, not, ◌||◌, List, [], ◌∷◌, ◌++◌, ltb, ◌==◌, length, codes,
}
use wire_format.Json5.Value.{Value, array, object, Members, no_members, member}
use wire_format.Compiler.Types.{
  Text, Location, Assignment, Vector, Result, ok, ◌>>=◌, ◌>>◌, SourceProblem, values_not_object,
  nul_in_value_name, byte_too_large, octet_too_large, wire_not_array, duplicate_value, empty_wire,
  invalid_identifier,
}
use wire_format.Compiler.Util.{same_text, identifier_valid}
use wire_format.Records.Json.{items}
use wire_format.Source.Values.{
  location_of, fail, reject, has_nul, object_shape, required_member, both, parse_u64, name_value,
}

-- An array of octets; `problem` is the refusal of a number over 255.
unfoldable pub parse_octets : Text → SourceProblem → List Value → Result (List ℕ)
parse_octets what problem [] = ok []
parse_octets what problem (x ∷ later) = do
  n ← parse_u64 x what
  reject (ltb 255 n) (location_of x) problem
  rest ← parse_octets what problem later
  ok (n ∷ rest)

-- What is assigned: a number, or octets.
unfoldable pub parse_assigned : Text → Location → Value → Result Assignment
parse_assigned name location (array l c xs) = do
  bytes ← parse_octets (codes "vector byte value") byte_too_large (items xs)
  ok (record { name = name; location = location; value = 0; bytes = bytes; is_bytes = true })
parse_assigned name location v = do
  n ← parse_u64 v (codes "vector value")
  ok (record { name = name; location = location; value = n; bytes = []; is_bytes = false })

unfoldable pub assigned_before : Text → List Assignment → Bool
assigned_before name [] = false
assigned_before name (a ∷ earlier) = same_text name a.name || assigned_before name earlier

unfoldable pub parse_assignment : List Assignment → Text → Location → Value → Result Assignment
parse_assignment earlier name location v = do
  reject (has_nul name) location nul_in_value_name
  reject (not (identifier_valid name)) location (invalid_identifier name)
  reject (assigned_before name earlier) location (duplicate_value name)
  parse_assigned name location v

unfoldable pub parse_assignments : List Assignment → Members → Result (List Assignment)
parse_assignments earlier no_members = ok earlier
parse_assignments earlier (member n l c x later) = do
  a ← parse_assignment earlier n (record { line = l; column = c }) x
  parse_assignments (earlier ++ (a ∷ [])) later

unfoldable pub parse_values : Value → Result (List Assignment)
parse_values (object l c ms) = parse_assignments [] ms
parse_values v = fail (location_of v) values_not_object

unfoldable pub parse_wire : Text → Value → Result (List ℕ)
parse_wire name (array l c xs) = do
  reject (length (items xs) == 0) (record { line = l; column = c }) (empty_wire name)
  parse_octets (codes "wire octet") octet_too_large (items xs)
parse_wire name v = fail (location_of v) wire_not_array

unfoldable pub parse_vector : Value → Result Vector
parse_vector source = do
  object_shape source (codes "vector") (codes "name" ∷ codes "values" ∷ codes "wire" ∷ [])
  (name, location) ← name_value source (codes "vector")
  (values, wire) ←
      both (required_member source (codes "values") (codes "vector"))
        (required_member source (codes "wire") (codes "vector"))
  assignments ← parse_values values
  octets ← parse_wire name wire
  ok (record { name = name; location = location; assignments = assignments; wire = octets })
