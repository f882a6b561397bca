-- ===== src/Source/Relations.antt =====
-- compiler/source.c: what `parse_message` makes sure of between the fields of a version 3 message.
use wire_format.Base.{
  ℕ, ◌+◌, ◌≤◌, ◌<◌, ◌≡◌, refl, arith, Bool, true, false, not, List, [], ◌∷◌, leb, Option, none,
  some, codes, if◌then◌else◌,
}
use wire_format.Json5.Value.{Value}
use wire_format.Compiler.Types.{
  Text, Field, Message, Result, ok, ◌>>◌, unknown_field_reference, not_mutual,
  needs_earlier_selector,
}
use wire_format.Compiler.Layout.{is_octets, find_from}
use wire_format.Compiler.Offsets.{bind-ok, refuse-ok}
use wire_format.Source.Values.{
  fail, reject, object_shape, find_member, required_member, both, string_value, name_value,
}
use wire_format.Source.Field.{is_records, is_choice, is_compound}
use wire_format.Source.Message.{
  refers_to, cases_fit, length_of_fits, length_from_fits, count_of_fits, count_from_fits,
  selector_fits, relation, nothing_more, check_relation, check_relations, message_vectors,
  message_fields, parse_message,
}

-- The field that is named, at its place, with the property.
abbrev pub Named : List Field → Text → (ℕ → Field → Type 0) → Type 0
Named fields wanted P =
    (place : ℕ) × (target : Field) × (find_from 0 fields wanted ≡ some (place, target))
    × P place target

-- A length before its bytes, a count before its records, each naming the other, and a selector before
-- its choice.
abbrev pub LengthOf : List Field → ℕ → Field → Text → Type 0
LengthOf fields index f wanted = Named fields wanted (λ place target.
    (is_octets target.type ≡ true) × (index < place) × (refers_to target.length_from f.name ≡ true))

abbrev pub LengthFrom : List Field → ℕ → Field → Text → Type 0
LengthFrom fields index f wanted = Named fields wanted (λ place target.
    (is_octets target.type ≡ false) × (place < index) × (refers_to target.length_of f.name ≡ true))

abbrev pub CountOf : List Field → ℕ → Field → Text → Type 0
CountOf fields index f wanted = Named fields wanted (λ place target.
    (is_records target.type ≡ true) × (index < place) × (refers_to target.count_from f.name ≡ true))

abbrev pub CountFrom : List Field → ℕ → Field → Text → Type 0
CountFrom fields index f wanted = Named fields wanted (λ place target.
    (is_compound target.type ≡ false) × (place < index) × (refers_to target.count_of f.name ≡ true))

abbrev pub SelectFrom : List Field → ℕ → Field → Text → Type 0
SelectFrom fields index f wanted = Named fields wanted (λ place target.
    (place < index) × (is_compound target.type ≡ false) × (target.is_constant ≡ false))

-- The first relation of a field holds, in the order of the code.
abbrev pub Related :
    List Field
    → ℕ
    → Field
    → Option Text
    → Option Text
    → Option Text
    → Option Text
    → Option Text
    → Type 0
Related fields index f (some w) b c d e = LengthOf fields index f w
Related fields index f none (some w) c d e = LengthFrom fields index f w
Related fields index f none none (some w) d e = CountOf fields index f w
Related fields index f none none none (some w) e = CountFrom fields index f w
Related fields index f none none none none (some w) = SelectFrom fields index f w
Related fields index f none none none none none = Unit

abbrev pub AllRelated : List Field → ℕ → List Field → Type 0
AllRelated fields index [] = Unit
AllRelated fields index (f ∷ later) =
    Related fields index f f.length_of f.length_from f.count_of f.count_from f.select_from
    × AllRelated fields (index + 1) later

relation-Named :
    (fields : List Field) (f : Field) (wanted : Text) (test : ℕ → Field → Bool)
    (more : Field → Result (Unit {0}))
    → relation fields f wanted test more ≡ ok tt
    → Named fields wanted (λ place target. test place target ≡ true)
unfolding relation
relation-Named fields f wanted test more h = go (find_from 0 fields wanted) h
  where
    of_not : (b : Bool) → not b ≡ false → b ≡ true
    of_not true e = refl
    of_not false e = cc

    go :
        (o : Option (ℕ × Field))
        → (elim o as (λ o. Result (Unit {0})) [
          | none ↦ fail f.location (unknown_field_reference f.name wanted)
          | some (place, target) ↦
              reject (not (test place target)) f.location (
                if is_choice f.type
                then needs_earlier_selector f.name
                else not_mutual f.name target.name)
              >> more target
        ])
          ≡ ok tt
        → (place : ℕ) × (target : Field) × (o ≡ some (place, target)) × (test place target ≡ true)
    go none h = cc
    go (some (place, target)) h =
        let (e, h₁) = refuse-ok (not (test place target)) _ _ _ _ h in
        (place, target, refl, of_not (test place target) e)

check_relation-Related :
    (fields : List Field) (index : ℕ) (f : Field)
    → check_relation fields index f ≡ ok tt
    → Related fields index f f.length_of f.length_from f.count_of f.count_from f.select_from
unfolding check_relation
check_relation-Related fields index f h =
    go f.length_of f.length_from f.count_of f.count_from f.select_from h
  where
    go :
        (a b c d e : Option Text)
        → (elim a as (λ o. Result (Unit {0})) [
          | some wanted ↦ relation fields f wanted (length_of_fits index f) nothing_more
          | none ↦ elim b as (λ o. Result (Unit {0})) [
            | some wanted ↦ relation fields f wanted (length_from_fits index f) nothing_more
            | none ↦ elim c as (λ o. Result (Unit {0})) [
              | some wanted ↦ relation fields f wanted (count_of_fits index f) nothing_more
              | none ↦ elim d as (λ o. Result (Unit {0})) [
                | some wanted ↦ relation fields f wanted (count_from_fits index f) nothing_more
                | none ↦ elim e as (λ o. Result (Unit {0})) [
                  | some wanted ↦
                      relation fields f wanted
                        (selector_fits index f)
                        (λ target. cases_fit target f.cases)
                  | none ↦ ok tt
                ]
              ]
            ]
          ]
        ])
          ≡ ok tt
        → Related fields index f a b c d e
    go (some w) b c d e h =
        let (p, t, q, k) = relation-Named fields f w _ _ h in
        (p, t, q, (ground arith, ground arith, ground arith))
    go none (some w) c d e h =
        let (p, t, q, k) = relation-Named fields f w _ _ h in
        (p, t, q, (ground arith, ground arith, ground arith))
    go none none (some w) d e h =
        let (p, t, q, k) = relation-Named fields f w _ _ h in
        (p, t, q, (ground arith, ground arith, ground arith))
    go none none none (some w) e h =
        let (p, t, q, k) = relation-Named fields f w _ _ h in
        (p, t, q, (ground arith, ground arith, ground arith))
    go none none none none (some w) h =
        let (p, t, q, k) = relation-Named fields f w _ _ h in
        (p, t, q, (ground arith, ground arith, ground arith))
    go none none none none none h = tt

check_relations-AllRelated :
    (fields : List Field) (index : ℕ) (fs : List Field)
    → check_relations fields index fs ≡ ok tt
    → AllRelated fields index fs
unfolding check_relations
check_relations-AllRelated fields index [] h = tt
check_relations-AllRelated fields index (f ∷ later) h =
    let (u, e, h₁) = bind-ok (check_relation fields index f) _ _ h in
    (
      check_relation-Related fields index f e,
      check_relations-AllRelated fields (index + 1) later h₁,
    )

-- In a message that the source parser accepts for version 3 or later, the first relation of each
-- field, in the order length_of, length_from, count_of, count_from and select_from, names a field of
-- the message. A length stands before its byte field and a count before its records, and the two
-- name each other; a choice stands behind its selector, a scalar that is no constant.
pub parse_message-AllRelated :
    (version : ℕ) (v : Value) (m : Message)
    → 3 ≤ version
    → parse_message version v ≡ ok m
    → AllRelated m.fields 0 m.fields
unfolding parse_message
parse_message-AllRelated version v m three h =
    let (u, e, h₁) =
      bind-ok
        (object_shape v (codes "message")
          (codes "name" ∷ codes "description" ∷ codes "fields" ∷ codes "vectors" ∷ []))
        _ _ h in
    let ((name, l), e₁, h₂) = bind-ok (name_value v (codes "message")) _ _ h₁ in
    let ((d, fs), e₂, h₃) =
      bind-ok
        (both (required_member v (codes "description") (codes "message"))
          (required_member v (codes "fields") (codes "message")))
        _ _ h₂ in
    let (text, e₃, h₄) = bind-ok (string_value d (codes "message description")) _ _ h₃ in
    let (parsed, e₄, h₅) = bind-ok (message_fields version name fs) _ _ h₄ in
    let (u₁, e₅, h₆) =
      bind-ok (if leb 3 version then check_relations parsed 0 parsed else ok tt) _ _ h₅ in
    let (vectors, e₆, h₇) = bind-ok (message_vectors (find_member v (codes "vectors"))) _ _ h₆ in
    let same : record {
      name = name;
      description = text;
      location = l;
      fields = parsed;
      vectors = vectors;
    }
        ≡ m =
      cc in
    rw (← same) (
      check_relations-AllRelated parsed 0 parsed
        (of_version parsed u₁ (leb 3 version) (ground arith) e₅))
  where
    of_version :
        (parsed : List Field) (u : Unit {0}) (b : Bool)
        → b ≡ true
        → (if b then check_relations parsed 0 parsed else ok tt) ≡ ok u
        → check_relations parsed 0 parsed ≡ ok tt
    of_version parsed u true e h = h
    of_version parsed u false e h = cc
