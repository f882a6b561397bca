-- ===== src/Source/Sound.antt =====
-- compiler/source.c: what holds of a whole field that `parse_field` accepts.
use wire_format.Base.{ℕ, ◌≡◌, refl, codes}
use wire_format.Json5.Value.{Value}
use wire_format.Compiler.Types.{ok}
use wire_format.Compiler.Offsets.{bind-ok}
use wire_format.Source.Values.{object_shape, find_member, required_member, string_value, name_value}
use wire_format.Source.Field.{field_keys, parse_type, field_relations, parse_field}
use wire_format.Source.Fields.{
  FieldRecord, IsSound, name_value-valid, parse_type-width, parse_constant-IsSound,
}

pub parse_field-IsSound :
    (version : ℕ) (source : Value) (f : FieldRecord) → parse_field version source ≡ ok f → IsSound f
unfolding parse_field
parse_field-IsSound version source f h =
    let (u₁, e₁, h₁) = bind-ok (object_shape source (codes "field") field_keys) _ _ h in
    let ((name, l), e₂, h₂) = bind-ok (name_value source (codes "field")) _ _ h₁ in
    let (x, e₃, h₃) = bind-ok (required_member source (codes "type") (codes "field")) _ _ h₂ in
    let (type, e₄, h₄) = bind-ok (string_value x (codes "field type")) _ _ h₃ in
    let ((t, w), e₅, h₅) =
      bind-ok (parse_type version name l x type (find_member source (codes "width"))) _ _ h₄ in
    let (r, e₆, h₆) = bind-ok (field_relations version name l t source) _ _ h₅ in
    parse_constant-IsSound _ f (find_member source (codes "constant")) refl
      (name_value-valid source (codes "field") name l e₂)
      (parse_type-width version name l x type (find_member source (codes "width")) t w e₅) h₆
