-- ===== src/Records/Accepted.antt =====
-- compiler/records.c and wire_info.c: the programs of a protocol that `validate` accepts, at the
-- loader.
use wire_format.Base.{
  ℕ, zero, suc, ◌+◌, ◌≤◌, ◌<◌, ◌≡◌, sym, ap, ◌∙◌, arith, Bool, true, false, not, ◌||◌, List, [],
  ◌∷◌, ◌++◌, length, length-append, get_elem?, ltb, leb, ◌==◌, if◌then◌else◌, get_or, Option, none,
  some, codes,
}
use mathlib.Core.Path.{subst}
use wire_format.Json5.Value.{Value}
use wire_format.Compiler.Types.{
  Text, Result, ok, ◌>>◌, child_not_earlier, nested_too_deep, field_count, message_count,
  duplicate_field, colliding_fields, duplicate_message, colliding_messages,
}
use wire_format.Compiler.Offsets.{bind-ok, refuse-ok, ok_injective}
use wire_format.Records.Json.{fail, reject, get, array_of, string, kind}
use wire_format.Records.Scopes.{message_id}
use wire_format.Records.Validate.{
  shape, field_keys, check_clash, check_properties, check_byte_order, check_until,
  check_termination, check_child, max_depth, validate_field, validate_fields, validate_message,
  validate_messages, validate, is_letter,
}
use wire_format.Records.Programs.{EarlierChild, ChildFits}

check_child-EarlierChild :
    (messages : List Value) (i : ℕ) (depths : List ℕ) (depth : ℕ) (f : Value) (d : ℕ)
    → check_child messages i depths depth f ≡ ok d
    → EarlierChild i messages f
unfolding check_child
check_child-EarlierChild messages i depths depth f d h name child e g =
    let (name', e', h₁) = bind-ok (string (get (some f) (codes "message")) true) _ _ h in
    let same : name' ≡ name = ok_injective name' name (sym e' ∙ e) in
    let (child', g', h₂) = bind-ok (message_id messages name') _ _ h₁ in
    let same_child : child' ≡ child =
      ok_injective child' child (sym g' ∙ ap (λ (t : Text). message_id messages t) same ∙ g) in
    go child' same_child h₂
  where
    go :
        (o : Option ℕ)
        → o ≡ child
        → elim o as (λ o. Result ℕ) [
          | none ↦ fail (some f) child_not_earlier
          | some j ↦
              reject (leb i j) (some f) child_not_earlier
              >> (reject (ltb 7 (max_depth depth (get_or depths j 0))) (some f) nested_too_deep
                  >> ok (max_depth depth (get_or depths j 0)))
        ]
          ≡ ok d
        → (j : ℕ) × (child ≡ some j) × (j < i)
    go none p k = cc
    go (some j) p k = let (q, k₁) = refuse-ok (leb i j) _ _ _ _ k in (j, sym p, ground arith)

validate_field-ChildFits :
    (messages : List Value) (i : ℕ) (depths : List ℕ) (earlier : List Value) (depth : ℕ) (f : Value)
    (d : ℕ)
    → validate_field messages i depths earlier depth f ≡ ok d
    → ChildFits i messages f
unfolding validate_field
validate_field-ChildFits messages i depths earlier depth f d h four =
    let (u₁, e₁, h₁) = bind-ok (shape (some f) field_keys) _ _ h in
    let (name, e₂, h₂) = bind-ok (string (get (some f) (codes "name")) true) _ _ h₁ in
    let (t, e₃, h₃) = bind-ok (kind f) _ _ h₂ in
    let (u₄, e₄, h₄) =
      bind-ok (check_clash f duplicate_field colliding_fields name earlier) _ _ h₃ in
    let (u₅, e₅, h₅) = bind-ok (check_properties f t) _ _ h₄ in
    let (u₆, e₆, h₆) = bind-ok (check_byte_order f) _ _ h₅ in
    let (u₇, e₇, h₇) = bind-ok (check_until f) _ _ h₆ in
    let (u₈, e₈, h₈) = bind-ok (if t == 16 then check_termination f else ok tt) _ _ h₇ in
    let same : t ≡ 4 = ok_injective t 4 (sym e₃ ∙ four) in
    let is_four : (t == 4) ≡ true = ground arith in
    check_child-EarlierChild messages i depths depth f d (
      subst (λ (b : Bool). (if b then check_child messages i depths depth f else ok depth) ≡ ok d)
        is_four h₈)

-- Every field's child stands earlier.
abbrev pub AllFit : ℕ → List Value → List Value → Type 0
AllFit i messages [] = Unit
AllFit i messages (f ∷ later) = ChildFits i messages f × AllFit i messages later

validate_fields-AllFit :
    (messages : List Value) (i : ℕ) (depths : List ℕ) (earlier : List Value) (depth : ℕ)
    (fs : List Value) (d : ℕ)
    → validate_fields messages i depths earlier depth fs ≡ ok d
    → AllFit i messages fs
unfolding validate_fields
validate_fields-AllFit messages i depths earlier depth [] d h = tt
validate_fields-AllFit messages i depths earlier depth (f ∷ later) d h =
    let (depth', e, h₁) = bind-ok (validate_field messages i depths earlier depth f) _ _ h in
    (
      validate_field-ChildFits messages i depths earlier depth f depth' e,
      validate_fields-AllFit messages i depths (earlier ++ (f ∷ [])) depth' later d h₁,
    )

validate_message-AllFit :
    (messages earlier : List Value) (depths : List ℕ) (m : Value) (d : ℕ) (fs : List Value)
    → validate_message messages earlier depths m ≡ ok d
    → array_of (get (some m) (codes "fields")) ≡ some fs
    → AllFit (length earlier) messages fs
unfolding validate_message
validate_message-AllFit messages earlier depths m d fs h k =
    let (u₁, e₁, h₁) =
      bind-ok (shape (some m) (codes "|name||description||fields||vectors|")) _ _ h in
    let (name, e₂, h₂) = bind-ok (string (get (some m) (codes "name")) true) _ _ h₁ in
    let (u₃, e₃, h₃) =
      bind-ok (check_clash m duplicate_message colliding_messages name earlier) _ _ h₂ in
    go (array_of (get (some m) (codes "fields"))) k h₃
  where
    bounds : (n : ℕ) → (n == 0 || ltb 64 n) ≡ false → (1 ≤ n) × (n ≤ 64)
    bounds n e = ground arith

    go :
        (o : Option (List Value))
        → o ≡ some fs
        → elim o as (λ o. Result ℕ) [
          | none ↦ fail (some m) field_count
          | some fields ↦
              reject (ltb 128 (length fields)) (some m) field_count
              >> validate_fields messages (length earlier) depths [] 1 fields
        ]
          ≡ ok d
        → AllFit (length earlier) messages fs
    go none p q = cc
    go (some fields) p q =
        let (e, r) = refuse-ok (ltb 128 (length fields)) _ _ _ _ q in
        let same : fields ≡ fs = cc in
        rw (← same) (validate_fields-AllFit messages (length earlier) depths [] 1 fields d r)

validate_messages-AllFit :
    (messages earlier : List Value) (depths : List ℕ) (later : List Value) (n i : ℕ) (m : Value)
    (fs : List Value)
    → validate_messages messages earlier depths later ≡ ok tt
    → get_elem? later n ≡ some m
    → i ≡ length earlier + n
    → array_of (get (some m) (codes "fields")) ≡ some fs
    → AllFit i messages fs
unfolding validate_messages
validate_messages-AllFit messages earlier depths [] n i m fs h k p q = cc
validate_messages-AllFit messages earlier depths (x ∷ later) zero i m fs h k p q =
    let (d, e, h₁) = bind-ok (validate_message messages earlier depths x) _ _ h in
    let same : x ≡ m = cc in
    let here : length earlier ≡ i = omega arith in
    subst (λ (t : ℕ). AllFit t messages fs) here
      (validate_message-AllFit messages earlier depths x d fs e
        (ap (λ (t : Value). array_of (get (some t) (codes "fields"))) same ∙ q))
validate_messages-AllFit messages earlier depths (x ∷ later) (suc n) i m fs h k p q =
    let (d, e, h₁) = bind-ok (validate_message messages earlier depths x) _ _ h in
    let l : length (earlier ++ (x ∷ [])) ≡ length earlier + 1 = length-append earlier (x ∷ []) in
    validate_messages-AllFit messages (earlier ++ (x ∷ [])) (depths ++ (d ∷ [])) later n i m fs h₁ k
      (omega arith) q

-- The tests on the number of messages, and on each of them.
pub validate-messages :
    (p : Option Value) (messages : List Value)
    → validate p ≡ ok messages
    → (1 ≤ length messages)
      × (length messages ≤ 64)
      × (validate_messages messages [] [] messages ≡ ok tt)
unfolding validate
validate-messages p messages h =
    let (u₁, e₁, h₁) =
      bind-ok (shape p (codes "|name||description||standard||reference||messages|")) _ _ h in
    let (name, e₂, h₂) = bind-ok (string (get p (codes "name")) true) _ _ h₁ in
    let (e₃, h₃) = refuse-ok (not (is_letter (get_or name 0 0))) _ _ _ _ h₂ in
    go (array_of (get p (codes "messages"))) h₃
  where
    bounds : (n : ℕ) → (n == 0 || ltb 64 n) ≡ false → (1 ≤ n) × (n ≤ 64)
    bounds n e = ground arith

    go :
        (o : Option (List Value))
        → elim o as (λ o. Result (List Value)) [
          | none ↦ fail p message_count
          | some ms ↦
              reject (length ms == 0 || ltb 64 (length ms)) p message_count
              >> (validate_messages ms [] [] ms >> ok ms)
        ]
          ≡ ok messages
        → (1 ≤ length messages)
          × (length messages ≤ 64)
          × (validate_messages messages [] [] messages ≡ ok tt)
    go none r = cc
    go (some ms) r =
        let (e, r₁) = refuse-ok (length ms == 0 || ltb 64 (length ms)) _ _ _ _ r in
        let (u, e', r₂) = bind-ok (validate_messages ms [] [] ms) _ _ r₁ in
        let same : ms ≡ messages = ok_injective ms messages r₂ in
        let (some_message, few) = bounds (length ms) e in rw (← same) (some_message, few, e')

pub validate-AllFit :
    (p : Option Value) (messages : List Value) (i : ℕ) (m : Value) (fs : List Value)
    → validate p ≡ ok messages
    → get_elem? messages i ≡ some m
    → array_of (get (some m) (codes "fields")) ≡ some fs
    → AllFit i messages fs × (length messages ≤ 64)
validate-AllFit p messages i m fs h k q =
    let (some_message, few, e) = validate-messages p messages h in
    (validate_messages-AllFit messages [] [] messages i i m fs e k (omega arith) q, few)
