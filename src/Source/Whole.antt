-- ===== src/Source/Whole.antt =====
-- compiler/source.c: what holds of a whole protocol that `wfc_source_parse` accepts.
use wire_format.Base.{
  ℕ, ◌+◌, ◌*◌, ◌≤◌, ◌≡◌, refl, arith, Bool, true, false, not, ◌&&◌, ◌⊎◌, inl, inr, List, [], ◌∷◌,
  ◌++◌, ◌==◌, length, if◌then◌else◌, Option, none, some, codes,
}
use wire_format.Json5.Scan.{Failure}
use wire_format.Json5.Value.{Value, json5_parse}
use wire_format.Compiler.Types.{
  Text, ChoiceCase, Field, Message, Protocol, Result, ok, ◌>>◌, unsupported_version,
  not_earlier_message,
}
use wire_format.Compiler.Offsets.{bind-ok, refuse-ok, ok_injective}
use wire_format.Compiler.Util.{identifier_valid}
use wire_format.Source.Values.{
  location_of, reject, object_shape, find_member, required_member, both, string_value, parse_u64,
  name_value,
}
use wire_format.Source.Fields.{name_value-valid}
use wire_format.Source.Accepted.{AllSoundMessages, protocol_messages-AllSoundMessages}
use wire_format.Source.Protocol.{
  message_before, check_targets, check_target, check_case_targets, check_field_targets,
  optional_string, parse_byte_order, parse_bit_order, protocol_keys, protocol_messages,
  parse_protocol, record_protocol, parse_root, json_result, source_parse,
}

-- Each case names a message before.
abbrev pub CasesEarlier : List Message → List ChoiceCase → Type 0
CasesEarlier earlier [] = Unit
CasesEarlier earlier (k ∷ later) =
    (message_before k.message earlier ≡ true) × CasesEarlier earlier later

abbrev pub TargetEarlier : List Message → Option Text → Type 0
TargetEarlier earlier none = Unit
TargetEarlier earlier (some name) = message_before name earlier ≡ true

abbrev pub FieldsEarlier : List Message → List Field → Type 0
FieldsEarlier earlier [] = Unit
FieldsEarlier earlier (f ∷ later) =
    TargetEarlier earlier f.message × CasesEarlier earlier f.cases × FieldsEarlier earlier later

-- Each message that a field names stands before that field's own.
abbrev pub AllEarlier : List Message → List Message → Type 0
AllEarlier earlier [] = Unit
AllEarlier earlier (m ∷ later) =
    FieldsEarlier earlier m.fields × AllEarlier (earlier ++ (m ∷ [])) later

of_not : (b : Bool) → not b ≡ false → b ≡ true
of_not true e = refl
of_not false e = cc

check_case_targets-CasesEarlier :
    (earlier : List Message) (f : Field) (ks : List ChoiceCase)
    → check_case_targets earlier f ks ≡ ok tt
    → CasesEarlier earlier ks
unfolding check_case_targets
check_case_targets-CasesEarlier earlier f [] h = tt
check_case_targets-CasesEarlier earlier f (k ∷ later) h =
    let (e, h₁) = refuse-ok (not (message_before k.message earlier)) _ _ _ _ h in
    (of_not _ e, check_case_targets-CasesEarlier earlier f later h₁)

target-TargetEarlier :
    (earlier : List Message) (f : Field) (t : Option Text)
    → (elim t as (λ t. Result (Unit {0})) [
      | none ↦ ok tt
      | some target ↦
          reject
            (not (message_before target earlier))
            f.location
            (not_earlier_message f.name target)
    ])
      ≡ ok tt
    → TargetEarlier earlier t
target-TargetEarlier earlier f none h = tt
target-TargetEarlier earlier f (some name) h = go (message_before name earlier) h
  where
    go : (b : Bool) → reject (not b) f.location (not_earlier_message f.name name) ≡ ok tt → b ≡ true
    go true e = refl
    go false e = cc

check_field_targets-FieldsEarlier :
    (earlier : List Message) (fs : List Field)
    → check_field_targets earlier fs ≡ ok tt
    → FieldsEarlier earlier fs
unfolding check_field_targets check_target
check_field_targets-FieldsEarlier earlier [] h = tt
check_field_targets-FieldsEarlier earlier (f ∷ later) h =
    let (u, e, h₁) = bind-ok (check_target earlier f) _ _ h in
    let (u₁, e₁, h₂) = bind-ok (check_case_targets earlier f f.cases) _ _ h₁ in
    (
      target-TargetEarlier earlier f f.message e,
      check_case_targets-CasesEarlier earlier f f.cases e₁,
      check_field_targets-FieldsEarlier earlier later h₂,
    )

check_targets-AllEarlier :
    (earlier ms : List Message) → check_targets earlier ms ≡ ok tt → AllEarlier earlier ms
unfolding check_targets
check_targets-AllEarlier earlier [] h = tt
check_targets-AllEarlier earlier (m ∷ later) h =
    let (u, e, h₁) = bind-ok (check_field_targets earlier m.fields) _ _ h in
    (
      check_field_targets-FieldsEarlier earlier m.fields e,
      check_targets-AllEarlier (earlier ++ (m ∷ [])) later h₁,
    )

-- A protocol of versions 1 to 3, as the rest of the compiler relies on it.
abbrev pub IsSoundProtocol : Protocol → Type 0
IsSoundProtocol p =
    (1 ≤ p.version)
    × (p.version ≤ 3)
    × (identifier_valid p.name ≡ true)
    × ((length p.messages == 0) ≡ false)
    × AllSoundMessages [] p.messages
    × AllEarlier [] p.messages

parse_protocol-IsSoundProtocol :
    (version : ℕ) (v : Value) (p : Protocol)
    → 1 ≤ version
    → version ≤ 3
    → parse_protocol version v ≡ ok p
    → IsSoundProtocol p
unfolding parse_protocol
parse_protocol-IsSoundProtocol version v p low high h =
    let what = codes "protocol" in
    let (u, e, h₁) = bind-ok (object_shape v what protocol_keys) _ _ h in
    let ((name, l), e₁, h₂) = bind-ok (name_value v what) _ _ h₁ in
    let ((((d, byte), bit), ms), e₂, h₃) =
      bind-ok
        (both
          (both
            (both (required_member v (codes "description") what)
              (required_member v (codes "byte_order") what))
            (required_member v (codes "bit_order") what))
          (required_member v (codes "messages") what))
        _ _ h₂ in
    let (text, e₃, h₄) = bind-ok (string_value d (codes "protocol description")) _ _ h₃ in
    let (standard, e₄, h₅) =
      bind-ok (optional_string (find_member v (codes "standard")) (codes "standard")) _ _ h₄ in
    let (citation, e₅, h₆) =
      bind-ok (optional_string (find_member v (codes "reference")) (codes "reference")) _ _ h₅ in
    let (bytes, e₆, h₇) = bind-ok (parse_byte_order byte) _ _ h₆ in
    let (bits, e₇, h₈) = bind-ok (parse_bit_order bit) _ _ h₇ in
    let (parsed, e₈, h₉) = bind-ok (protocol_messages version ms) _ _ h₈ in
    let (u₁, e₉, h₁₀) = bind-ok (check_targets [] parsed) _ _ h₉ in
    let same : record {
      record_source = none;
      version = version;
      name = name;
      description = text;
      standard = standard;
      reference = citation;
      location = l;
      byte_order = bytes;
      bit_order = bits;
      messages = parsed;
    }
        ≡ p =
      ok_injective _ _ h₁₀ in
    let (nonempty, sound) = protocol_messages-AllSoundMessages version ms parsed e₈ in
    rw (← same) (
      low,
      high,
      name_value-valid v what name l e₁,
      nonempty,
      sound,
      check_targets-AllEarlier [] parsed e₉,
    )

-- A version 4 protocol is left to records.c, as its source; another one is sound.
abbrev pub IsAccepted : Protocol → Type 0
IsAccepted p =
    ((p.version ≡ 4) × ((root : Value) × (p.record_source ≡ some root)) × (p.messages ≡ []))
    ⊎ IsSoundProtocol p

version-bounds :
    (n : ℕ)
    → (n == 4) ≡ false
    → (not (n == 1) && not (n == 2) && not (n == 3)) ≡ false
    → (1 ≤ n) × (n ≤ 3)
version-bounds n e h = ground arith

parse_root-IsAccepted : (root : Value) (p : Protocol) → parse_root root ≡ ok p → IsAccepted p
unfolding parse_root
parse_root-IsAccepted root p h =
    let (u, e, h₁) =
      bind-ok
        (object_shape root (codes "source file") (codes "wire_format" ∷ codes "protocol" ∷ [])) _ _
        h in
    let ((version, source), e₁, h₂) =
      bind-ok
        (both (required_member root (codes "wire_format") (codes "source file"))
          (required_member root (codes "protocol") (codes "source file")))
        _ _ h₁ in
    let (n, e₂, h₃) = bind-ok (parse_u64 version (codes "wire_format")) _ _ h₂ in
    by_number n version source (n == 4) refl h₃
  where
    by_number :
        (n : ℕ) (version source : Value) (b : Bool)
        → (n == 4) ≡ b
        → (if b then ok (record_protocol root source) else (do
          reject
              (not (n == 1) && not (n == 2) && not (n == 3))
              (location_of version)
              (unsupported_version n)
          parse_protocol n source))
          ≡ ok p
        → IsAccepted p
    by_number n version source true e h = rw (← ok_injective _ _ h) (inl (refl, (root, refl), refl))
    by_number n version source false e h =
        let (known, h₁) = refuse-ok (not (n == 1) && not (n == 2) && not (n == 3)) _ _ _ _ h in
        let (low, high) = version-bounds n e known in
        inr (parse_protocol-IsSoundProtocol n source p low high h₁)

-- A protocol that the source parser accepts is either of version 4, kept as its source with no
-- messages, or of versions 1 to 3; then its name is valid, it has messages, each with a valid
-- name that no earlier message has and with at least one field; each field has a valid name that no
-- earlier field of its message has, a field of bits is 1 to 64 bits wide, a constant fits its
-- field unless the field is self-delimiting, and a field of bytes with no length is the last one;
-- and a message that a field or a case names stands before the message of that field.
pub source_parse-IsAccepted :
    (text : Text) (p : Protocol) → source_parse text ≡ some (ok p) → IsAccepted p
unfolding source_parse json_result
source_parse-IsAccepted text p h = by_outcome (json5_parse (3 * length text + 3) text) h
  where
    by_result : (r : Option Value × Option Failure) → json_result r ≡ ok p → IsAccepted p
    by_result (some root, e) h = parse_root-IsAccepted root p h
    by_result (none, some f) h = cc
    by_result (none, none) h = cc

    same_some : {x y : Result Protocol} → some x ≡ some y → x ≡ y
    same_some h = cc

    by_outcome :
        (r : Option (Option Value × Option Failure))
        → (elim r as (λ r. Option (Result Protocol)) [
          | none ↦ none
          | some outcome ↦ some (json_result outcome)
        ])
          ≡ some (ok p)
        → IsAccepted p
    by_outcome none h = cc
    by_outcome (some r) h = by_result r (same_some h)
