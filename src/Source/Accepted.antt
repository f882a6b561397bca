-- ===== src/Source/Accepted.antt =====
-- compiler/source.c: what holds of a protocol that `wfc_source_parse` accepts.
use wire_format.Base.{
  ℕ, suc, ◌≡◌, refl, sym, ap, ◌∙◌, true, false, not, ◌&&◌, List, [], ◌∷◌, ◌++◌, append_assoc,
  append-nil, leb, ◌==◌, length, if◌then◌else◌, codes,
}
use wire_format.Json5.Value.{Value, scalar, array, object}
use wire_format.Compiler.Types.{Text, Message, ok}
use wire_format.Compiler.Offsets.{bind-ok, refuse-ok}
use wire_format.Compiler.Layout.{is_octets}
use wire_format.Compiler.Util.{identifier_valid}
use wire_format.Records.Json.{items}
use wire_format.Source.Values.{
  object_shape, find_member, required_member, both, string_value, name_value,
}
use wire_format.Source.Field.{parse_field}
use wire_format.Source.Fields.{FieldRecord, IsSound, name_value-valid}
use wire_format.Source.Sound.{parse_field-IsSound}
use wire_format.Source.Message.{
  is_none, field_before, parse_fields, check_relations, message_vectors, message_fields,
  parse_message,
}
use wire_format.Source.Protocol.{message_before, parse_messages, protocol_messages}

-- The fields after those in `earlier`: each is sound, has another name than those before it, and
-- comes last if it is of bytes with no length.
abbrev pub AllSound : List FieldRecord → List FieldRecord → Type 0
AllSound earlier [] = Unit
AllSound earlier (f ∷ later) =
    IsSound f
    × (field_before f.name earlier ≡ false)
    × ((is_octets f.type && is_none f.length_from && not (length later == 0)) ≡ false)
    × AllSound (earlier ++ (f ∷ [])) later

-- A message with a valid name, at least one field, and sound fields.
abbrev pub IsSoundMessage : Message → Type 0
IsSoundMessage m =
    (identifier_valid m.name ≡ true) × ((length m.fields == 0) ≡ false) × AllSound [] m.fields

-- The messages after those in `earlier`: each is sound, and has a name of its own.
abbrev pub AllSoundMessages : List Message → List Message → Type 0
AllSoundMessages earlier [] = Unit
AllSoundMessages earlier (m ∷ later) =
    IsSoundMessage m
    × (message_before m.name earlier ≡ false)
    × AllSoundMessages (earlier ++ (m ∷ [])) later

abbrev Parsed : List FieldRecord → ℕ → List FieldRecord → Type 0
Parsed earlier n fs =
    (later : List FieldRecord) × (fs ≡ earlier ++ later)
    × (length later ≡ n)
    × AllSound earlier later

Parsed-cons :
    (earlier : List FieldRecord) (f : FieldRecord) (n : ℕ) (fs : List FieldRecord)
    → IsSound f
    → field_before f.name earlier ≡ false
    → (is_octets f.type && is_none f.length_from && not (n == 0)) ≡ false
    → Parsed (earlier ++ (f ∷ [])) n fs
    → Parsed earlier (suc n) fs
Parsed-cons earlier f n fs sound new last (later, p, l, s) =
    (f ∷ later, p ∙ append_assoc earlier (f ∷ []) later, ap suc l, (sound, new, rw l last, s))

parse_fields-Parsed :
    (version : ℕ) (earlier : List FieldRecord) (xs : List Value) (fs : List FieldRecord)
    → parse_fields version earlier xs ≡ ok fs
    → Parsed earlier (length xs) fs
unfolding parse_fields
parse_fields-Parsed version earlier [] fs h =
    let same : earlier ≡ fs = cc in ([], sym same ∙ sym (append-nil earlier), refl, tt)
parse_fields-Parsed version earlier (x ∷ xs) fs h =
    let (f, e, h₁) = bind-ok (parse_field version x) _ _ h in
    let (last, h₂) =
      refuse-ok (is_octets f.type && is_none f.length_from && not (length xs == 0)) _ _ _ _ h₁ in
    let (new, h₃) = refuse-ok (field_before f.name earlier) _ _ _ _ h₂ in
    Parsed-cons earlier f (length xs) fs (parse_field-IsSound version x f e) new last
      (parse_fields-Parsed version (earlier ++ (f ∷ [])) xs fs h₃)

message_fields-AllSound :
    (version : ℕ) (name : Text) (v : Value) (fs : List FieldRecord)
    → message_fields version name v ≡ ok fs
    → ((length fs == 0) ≡ false) × AllSound [] fs
unfolding message_fields
message_fields-AllSound version name (array l c xs) fs h =
    let (some_field, h₁) = refuse-ok (length (items xs) == 0) _ _ _ _ h in
    let (later, p, n, sound) = parse_fields-Parsed version [] (items xs) fs h₁ in
    rw p (rw n some_field, sound)
message_fields-AllSound version name (scalar l c k) fs h = cc
message_fields-AllSound version name (object l c ms) fs h = cc

parse_message-IsSoundMessage :
    (version : ℕ) (v : Value) (m : Message) → parse_message version v ≡ ok m → IsSoundMessage m
unfolding parse_message
parse_message-IsSoundMessage version v m h =
    let (u, e, h₁) =
      bind-ok
        (object_shape v (codes "message")
          (codes "name" ∷ codes "description" ∷ codes "fields" ∷ codes "vectors" ∷ []))
        _ _ h in
    let ((name, l), e₁, h₂) = bind-ok (name_value v (codes "message")) _ _ h₁ in
    let ((d, fs), e₂, h₃) =
      bind-ok
        (both (required_member v (codes "description") (codes "message"))
          (required_member v (codes "fields") (codes "message")))
        _ _ h₂ in
    let (text, e₃, h₄) = bind-ok (string_value d (codes "message description")) _ _ h₃ in
    let (parsed, e₄, h₅) = bind-ok (message_fields version name fs) _ _ h₄ in
    let (u₁, e₅, h₆) =
      bind-ok (if leb 3 version then check_relations parsed 0 parsed else ok tt) _ _ h₅ in
    let (vectors, e₆, h₇) = bind-ok (message_vectors (find_member v (codes "vectors"))) _ _ h₆ in
    let same : record {
      name = name;
      description = text;
      location = l;
      fields = parsed;
      vectors = vectors;
    }
        ≡ m =
      cc in
    let (some_field, sound) = message_fields-AllSound version name fs parsed e₄ in
    rw (← same) (name_value-valid v (codes "message") name l e₁, some_field, sound)

abbrev ParsedMessages : List Message → ℕ → List Message → Type 0
ParsedMessages earlier n ms =
    (later : List Message) × (ms ≡ earlier ++ later)
    × (length later ≡ n)
    × AllSoundMessages earlier later

ParsedMessages-cons :
    (earlier : List Message) (m : Message) (n : ℕ) (ms : List Message)
    → IsSoundMessage m
    → message_before m.name earlier ≡ false
    → ParsedMessages (earlier ++ (m ∷ [])) n ms
    → ParsedMessages earlier (suc n) ms
ParsedMessages-cons earlier m n ms sound new (later, p, l, s) =
    (m ∷ later, p ∙ append_assoc earlier (m ∷ []) later, ap suc l, (sound, new, s))

parse_messages-ParsedMessages :
    (version : ℕ) (earlier : List Message) (xs : List Value) (ms : List Message)
    → parse_messages version earlier xs ≡ ok ms
    → ParsedMessages earlier (length xs) ms
unfolding parse_messages
parse_messages-ParsedMessages version earlier [] ms h =
    let same : earlier ≡ ms = cc in ([], sym same ∙ sym (append-nil earlier), refl, tt)
parse_messages-ParsedMessages version earlier (x ∷ xs) ms h =
    let (m, e, h₁) = bind-ok (parse_message version x) _ _ h in
    let (new, h₂) = refuse-ok (message_before m.name earlier) _ _ _ _ h₁ in
    ParsedMessages-cons earlier m (length xs) ms (parse_message-IsSoundMessage version x m e) new
      (parse_messages-ParsedMessages version (earlier ++ (m ∷ [])) xs ms h₂)

pub protocol_messages-AllSoundMessages :
    (version : ℕ) (v : Value) (ms : List Message)
    → protocol_messages version v ≡ ok ms
    → ((length ms == 0) ≡ false) × AllSoundMessages [] ms
unfolding protocol_messages
protocol_messages-AllSoundMessages version (array l c xs) ms h =
    let (some_message, h₁) = refuse-ok (length (items xs) == 0) _ _ _ _ h in
    let (later, p, n, sound) = parse_messages-ParsedMessages version [] (items xs) ms h₁ in
    rw p (rw n some_message, sound)
protocol_messages-AllSoundMessages version (scalar l c k) ms h = cc
protocol_messages-AllSoundMessages version (object l c xs) ms h = cc
