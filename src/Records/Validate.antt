-- ===== src/Records/Validate.antt =====
-- compiler/records.c: `validate`, the rules for a protocol before its programs are written.
use wire_format.Base.{
  ℕ, ◌+◌, ◌-◌, Bool, true, false, not, ◌&&◌, ◌||◌, List, [], ◌∷◌, ◌++◌, ltb, leb, ◌==◌, length,
  get_or, if◌then◌else◌, bit_and, Option, none, some, codes,
}
use wire_format.Json5.Value.{Value, object, Members, no_members, member}
use wire_format.Compiler.Types.{
  Text, Result, ok, ◌>>=◌, ◌>>◌, RecordsProblem, not_object, unknown_property, duplicate_property,
  bad_protocol_name, message_count, field_count, duplicate_message, colliding_messages,
  duplicate_field, colliding_fields, exclusive_properties, requires_width, requires_value,
  property_misplaced, unknown_byte_order, until_too_large, bad_termination, child_not_earlier,
  nested_too_deep,
}
use wire_format.Compiler.Util.{same_text}
use wire_format.Records.Json.{
  fail, reject, c_text, get, array_of, is_given, string, number, kind, contains,
}
use wire_format.Records.Scopes.{message_id}

unfoldable pub c_token_char : ℕ → ℕ
c_token_char c =
    if leb b'a' c && leb c b'z'
    then c - b'a' + b'A'
    else if (leb b'A' c && leb c b'Z') || (leb b'0' c && leb c b'9')
    then c
    else b'_'

unfoldable pub c_token_equal : Text → Text → Bool
c_token_equal [] [] = true
c_token_equal [] (d ∷ t) = false
c_token_equal (c ∷ s) [] = false
c_token_equal (c ∷ s) (d ∷ t) = c_token_char c == c_token_char d && c_token_equal s t

abbrev pub member_list : Members → List (Text × Value)
member_list no_members = []
member_list (member n l c x ms) = (n, x) ∷ member_list ms

-- Whether `strcmp` finds the name among the ones before.
unfoldable pub named_before : Text → List (Text × Value) → Bool
named_before name [] = false
named_before name ((n, x) ∷ earlier) =
    same_text (c_text name) (c_text n) || named_before name earlier

abbrev pub key : Text → Text
key name = b'|' ∷ (c_text name ++ (b'|' ∷ []))

unfoldable pub shape_loop : Text → List (Text × Value) → List (Text × Value) → Result (Unit {0})
shape_loop allowed earlier [] = ok tt
shape_loop allowed earlier ((n, x) ∷ later) = do
  reject
      (not (length n == length (c_text n))
        || leb 128 (length (key n))
        || not (contains (key n) allowed))
      (some x) unknown_property
  reject (named_before n earlier) (some x) duplicate_property
  shape_loop allowed ((n, x) ∷ earlier) later

unfoldable pub shape : Option Value → Text → Result (Unit {0})
shape (some (object l c ms)) allowed = shape_loop allowed [] (member_list ms)
shape v allowed = fail v not_object

-- A name against those of the messages or fields before.
unfoldable pub check_clash :
    Value → RecordsProblem → RecordsProblem → Text → List Value → Result (Unit {0})
check_clash v duplicate colliding name [] = ok tt
check_clash v duplicate colliding name (x ∷ later) = do
  prior ← string (get (some x) (codes "name")) true
  reject (same_text name prior) (some v) duplicate
  reject (c_token_equal name prior) (some v) colliding
  check_clash v duplicate colliding name later

abbrev pub has : Value → Text → Bool
has f name = is_given (get (some f) name)

-- The properties that go together, or with the type `t`.
unfoldable pub check_properties : Value → ℕ → Result (Unit {0})
check_properties f t = do
  reject
      ((has f (codes "constant") && has f (codes "value"))
        || (has f (codes "length") && has f (codes "decode_length")))
      (some f) exclusive_properties
  reject ((t == 1 || t == 14 || t == 15) && not (has f (codes "width"))) (some f) requires_width
  reject ((t == 6 || t == 7) && not (has f (codes "value"))) (some f) requires_value
  reject
      ((has f (codes "width") && not (t == 1) && not (t == 14) && not (t == 15))
        || (has f (codes "length") && not (t == 2) && not (t == 16))
        || (has f (codes "decode_length") && not (t == 2))
        || (has f (codes "decode_value") && not (t == 6))
        || ((has f (codes "algorithm")
              || has f (codes "from")
              || has f (codes "cbor")
              || has f (codes "to_end"))
            && not (t == 9))
        || ((has f (codes "until") || has f (codes "count") || has f (codes "message"))
            && not (t == 4))
        || (has f (codes "byte_order") && not (t == 1))
        || ((has f (codes "termination_mask") || has f (codes "termination_value"))
            && not (t == 16)))
      (some f) property_misplaced

unfoldable pub check_byte_order : Value → Result (Unit {0})
check_byte_order f = elim (get (some f) (codes "byte_order")) [
  | none ↦ ok tt
  | some order ↦ do
    s ← string (some order) false
    reject (not (same_text s (codes "big-endian")) && not (same_text s (codes "little-endian")))
        (some f) unknown_byte_order
]

unfoldable pub check_until : Value → Result (Unit {0})
check_until f = elim (get (some f) (codes "until")) [
  | none ↦ ok tt
  | some until ↦ do n ← number (some until); reject (ltb 256 n) (some f) until_too_large
]

abbrev pub number_or : Option Value → ℕ → Result ℕ
number_or none n = ok n
number_or (some v) n = number (some v)

-- The mask and the value that end a `terminated-uint`.
unfoldable pub check_termination : Value → Result (Unit {0})
check_termination f = do
  mask ← number_or (get (some f) (codes "termination_mask")) 1
  stop ← number_or (get (some f) (codes "termination_value")) 1
  reject (mask == 0 || ltb 255 mask || not (bit_and stop mask == stop)) (some f) bad_termination

abbrev pub max_depth : ℕ → ℕ → ℕ
max_depth depth child = if ltb depth (child + 1) then child + 1 else depth

-- The child of a record field is one of the `i` messages before; gives the depth with it.
unfoldable pub check_child : List Value → ℕ → List ℕ → ℕ → Value → Result ℕ
check_child messages i depths depth f = do
  name ← string (get (some f) (codes "message")) true
  child ← message_id messages name
  elim child [
    | none ↦ fail (some f) child_not_earlier
    | some j ↦ do
      reject (leb i j) (some f) child_not_earlier
      reject (ltb 7 (max_depth depth (get_or depths j 0))) (some f) nested_too_deep
      ok (max_depth depth (get_or depths j 0))
  ]

abbrev pub field_keys : Text
field_keys =
    codes
      "|name||description||type||width||length||decode_length||value||constant||when||min||max||message||count||algorithm||from||until||cbor||to_end||decode_value||byte_order||termination_mask||termination_value|"

-- A field behind those of its message in `earlier`; gives the depth of the message.
unfoldable pub validate_field : List Value → ℕ → List ℕ → List Value → ℕ → Value → Result ℕ
validate_field messages i depths earlier depth f = do
  shape (some f) field_keys
  name ← string (get (some f) (codes "name")) true
  t ← kind f
  check_clash f duplicate_field colliding_fields name earlier
  check_properties f t
  check_byte_order f
  check_until f
  if t == 16 then check_termination f else ok tt
  if t == 4 then check_child messages i depths depth f else ok depth

unfoldable pub validate_fields : List Value → ℕ → List ℕ → List Value → ℕ → List Value → Result ℕ
validate_fields messages i depths earlier depth [] = ok depth
validate_fields messages i depths earlier depth (f ∷ later) = do
  depth' ← validate_field messages i depths earlier depth f
  validate_fields messages i depths (earlier ++ (f ∷ [])) depth' later

unfoldable pub validate_message : List Value → List Value → List ℕ → Value → Result ℕ
validate_message messages earlier depths m = do
  shape (some m) (codes "|name||description||fields||vectors|")
  name ← string (get (some m) (codes "name")) true
  check_clash m duplicate_message colliding_messages name earlier
  elim (array_of (get (some m) (codes "fields"))) [
    | none ↦ fail (some m) field_count
    | some fields ↦ do
      reject (ltb 128 (length fields)) (some m) field_count
      validate_fields messages (length earlier) depths [] 1 fields
  ]

-- The loop over the messages, with the ones before and their depths.
unfoldable pub validate_messages : List Value → List Value → List ℕ → List Value → Result (Unit {0})
validate_messages messages earlier depths [] = ok tt
validate_messages messages earlier depths (m ∷ later) = do
  depth ← validate_message messages earlier depths m
  validate_messages messages (earlier ++ (m ∷ [])) (depths ++ (depth ∷ [])) later

abbrev pub is_letter : ℕ → Bool
is_letter c = (leb b'a' c && leb c b'z') || (leb b'A' c && leb c b'Z')

-- `validate`: the messages of the protocol.
unfoldable pub validate : Option Value → Result (List Value)
validate p = do
  shape p (codes "|name||description||standard||reference||messages|")
  name ← string (get p (codes "name")) true
  reject (not (is_letter (get_or name 0 0))) (get p (codes "name")) bad_protocol_name
  elim (array_of (get p (codes "messages"))) [
    | none ↦ fail p message_count
    | some messages ↦ do
      reject (length messages == 0 || ltb 64 (length messages)) p message_count
      validate_messages messages [] [] messages
      ok messages
  ]
