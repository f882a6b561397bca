-- ===== src/Source/Fields.antt =====
-- compiler/source.c: what holds of each field that `parse_field` accepts.
use wire_format.Base.{
  ℕ, ◌≤◌, ◌≡◌, refl, sym, ap, ◌∙◌, arith, Bool, true, false, not, ◌&&◌, ◌||◌, ltb, leb,
  if◌then◌else◌, Option, none, some, codes,
}
use wire_format.Json5.Value.{Value}
use wire_format.Compiler.Types.{
  Text, Location, FieldType, wfc_bits, wfc_u8, wfc_u16, wfc_u32, wfc_u64, wfc_sdnv, wfc_bytes,
  wfc_records, wfc_choice, Field, ok, ◌>>=◌, SourceProblem, needs_version_2, needs_version_3,
  unsupported_type,
}
use wire_format.Compiler.Util.{same_text, identifier_valid, field_width, value_fits}
use wire_format.Compiler.Offsets.{bind-ok, refuse-ok}
use wire_format.Compiler.Layout.{is_bits, is_sdnv}
use wire_format.Source.Values.{
  location_of, fail, required_member, string_value, parse_u64, name_value,
}
use wire_format.Source.Field

abbrev pub FieldRecord : Type 0
FieldRecord = Field

-- A valid name; no width but 1 to 64 for a field of bits; and no constant that does not fit the
-- field, other than a self-delimiting one.
abbrev pub IsSound : FieldRecord → Type 0
IsSound f =
    (identifier_valid f.name ≡ true)
    × ((is_bits f.type && not (leb 1 f.width && leb f.width 64)) ≡ false)
    × ((f.is_constant && not (is_sdnv f.type) && not (value_fits f.constant (field_width f)))
        ≡ false)

pub name_value-valid :
    (v : Value) (what name : Text) (l : Location)
    → name_value v what ≡ ok (name, l)
    → identifier_valid name ≡ true
unfolding name_value
name_value-valid v what name l h =
    let (x, e, h₁) = bind-ok (required_member v (codes "name") what) _ _ h in
    let (s, e₁, h₂) = bind-ok (string_value x (codes "name")) _ _ h₁ in
    let (valid, h₃) = refuse-ok (not (identifier_valid s)) _ _ _ _ h₂ in
    let same : s ≡ name = cc in
    ap (λ (t : Text). identifier_valid t) (sym same) ∙ of_not (identifier_valid s) valid
  where
    of_not : (b : Bool) → not b ≡ false → b ≡ true
    of_not true e = refl
    of_not false e = cc

bit_width-bounds :
    (name : Text) (l : Location) (v : Option Value) (w : ℕ)
    → Field.bit_width name l v ≡ ok w
    → (1 ≤ w) × (w ≤ 64)
unfolding Field.bit_width
bit_width-bounds name l none w h = cc
bit_width-bounds name l (some v) w h =
    let (x, e, h₁) = bind-ok (parse_u64 v (codes "field width")) _ _ h in
    let (inside, h₂) = refuse-ok (ltb x 1 || ltb 64 x) _ _ _ _ h₁ in
    let same : x ≡ w = cc in ground arith

-- The types that have no width of their own are not that of bits.
named_type-not_bits :
    (version : ℕ) (name : Text) (source : Value) (type : Text) (t : FieldType)
    → Field.named_type version name source type ≡ ok t
    → is_bits t ≡ false
unfolding Field.named_type
named_type-not_bits version name source type t h =
    go (same_text type (codes "u8")) (same_text type (codes "u16")) (same_text type (codes "u32"))
      (same_text type (codes "u64")) (same_text type (codes "sdnv"))
      (same_text type (codes "bytes")) (same_text type (codes "records"))
      (same_text type (codes "choice")) h
  where
    later : (u : FieldType) → is_bits u ≡ false → ok u ≡ ok t → is_bits t ≡ false
    later u p q = let same : u ≡ t = cc in ap (λ (x : FieldType). is_bits x) (sym same) ∙ p

    since :
        (n : ℕ) (u : FieldType) (p : SourceProblem)
        → is_bits u ≡ false
        → Field.since n version (location_of source) p u ≡ ok t
        → is_bits t ≡ false
    since n u p e q = let (x, y) = refuse-ok (ltb version n) _ _ _ _ q in later u e y

    go :
        (a b c d e f g i : Bool)
        → (if a
            then ok wfc_u8
            else if b
            then ok wfc_u16
            else if c
            then ok wfc_u32
            else if d
            then ok wfc_u64
            else if e
            then Field.since 3 version (location_of source) (needs_version_3 name) wfc_sdnv
            else if f
            then Field.since 2 version (location_of source) (needs_version_2 name) wfc_bytes
            else if g
            then Field.since 3 version (location_of source) (needs_version_3 name) wfc_records
            else if i
            then Field.since 3 version (location_of source) (needs_version_3 name) wfc_choice
            else fail (location_of source) (unsupported_type name))
          ≡ ok t
        → is_bits t ≡ false
    go true b c d e f g i q = later wfc_u8 refl q
    go false true c d e f g i q = later wfc_u16 refl q
    go false false true d e f g i q = later wfc_u32 refl q
    go false false false true e f g i q = later wfc_u64 refl q
    go false false false false true f g i q = since 3 wfc_sdnv _ refl q
    go false false false false false true g i q = since 2 wfc_bytes _ refl q
    go false false false false false false true i q = since 3 wfc_records _ refl q
    go false false false false false false false true q = since 3 wfc_choice _ refl q
    go false false false false false false false false q = cc

pub parse_type-width :
    (version : ℕ) (name : Text) (l : Location) (source : Value) (type : Text) (v : Option Value)
    (t : FieldType) (w : ℕ)
    → Field.parse_type version name l source type v ≡ ok (t, w)
    → is_bits t ≡ true
    → (1 ≤ w) × (w ≤ 64)
unfolding Field.parse_type Field.scalar_type
parse_type-width version name l source type v t w h bits = go (same_text type (codes "bits")) h
  where
    scalar :
        (v : Option Value) → Field.scalar_type version name source type v ≡ ok t → is_bits t ≡ false
    scalar none e = named_type-not_bits version name source type t e
    scalar (some x) e = cc

    go :
        (b : Bool)
        → (if b
            then ◌>>=◌ {B = FieldType × ℕ} (Field.bit_width name l v) (λ x. ok (wfc_bits, x))
            else ◌>>=◌ {B = FieldType × ℕ}
                (Field.scalar_type version name source type v)
                (λ x. ok (x, 0)))
          ≡ ok (t, w)
        → (1 ≤ w) × (w ≤ 64)
    go true k =
        let (x, e, k₁) = bind-ok (Field.bit_width name l v) _ _ k in
        let same : x ≡ w = cc in
        let (p, q) = bit_width-bounds name l v x e in (omega arith, omega arith)
    go false k =
        let (x, e, k₁) = bind-ok (Field.scalar_type version name source type v) _ _ k in
        let same : x ≡ t = cc in let no = scalar v (e ∙ ap (λ (y : FieldType). ok y) same) in cc

inside :
    (b : Bool) (w : ℕ) → (b ≡ true → (1 ≤ w) × (w ≤ 64)) → (b && not (leb 1 w && leb w 64)) ≡ false
inside false w h = refl
inside true w h = let (l, k) = h refl in ground arith

pub parse_constant-IsSound :
    (f g : FieldRecord) (v : Option Value)
    → f.is_constant ≡ false
    → identifier_valid f.name ≡ true
    → (is_bits f.type ≡ true → (1 ≤ f.width) × (f.width ≤ 64))
    → Field.parse_constant f v ≡ ok g
    → IsSound g
unfolding Field.parse_constant
parse_constant-IsSound f g none n valid width h =
    let same : f ≡ g = cc in rw (← same) (valid, inside (is_bits f.type) f.width width, rw n refl)
parse_constant-IsSound f g (some v) n valid width h =
    let (c, e, h₁) = bind-ok (parse_u64 v (codes "field constant")) _ _ h in
    let (fits, h₂) =
      refuse-ok (not (is_sdnv f.type) && not (value_fits c (field_width f))) _ _ _ _ h₁ in
    let same : record f { is_constant = true; constant = c } ≡ g = cc in
    rw (← same) (valid, inside (is_bits f.type) f.width width, fits)
