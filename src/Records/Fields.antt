-- ===== src/Records/Fields.antt =====
-- compiler/records.c: `field_program`, the operators that a field is written or read by.
use wire_format.Base.{
  ℕ, ◌+◌, ◌*◌, Bool, true, false, not, ◌&&◌, ◌||◌, List, [], ◌∷◌, ◌++◌, ◌==◌, if◌then◌else◌,
  u64_max, of_bool, Option, none, some, codes,
}
use wire_format.Json5.Value.{Value}
use wire_format.Compiler.Types.{Text, Result, ok, ◌>>=◌}
use wire_format.Compiler.Util.{same_text}
use wire_format.Records.Json.{get, is_given, string, kind, flag}
use wire_format.Records.Scopes.{Compiler, message_id}
use wire_format.Records.Emit.{
  Build, emit, nothing, using, when, ◌>=>◌, literal, plain_text, query_text, named_text,
  query_named_text, rows_text,
}
use wire_format.Records.Expression.{top_expression, expr_or}

abbrev pub or_else : Option Value → Option Value → Option Value
or_else none v = v
or_else (some x) v = some x

-- Whether `byte_order` turns an integer around.
unfoldable pub is_little : Value → Result Bool
is_little f = elim (get (some f) (codes "byte_order")) [
  | none ↦ ok false
  | some order ↦ string (some order) false >>= λ s. ok (same_text s (codes "little-endian"))
]

module _ (c : Compiler) (f : Value) (decode : Bool) (name : Text) where
  abbrev pub own : Text → Option Value
  own key = get (some f) key

  -- `constant`, or the value for this direction.
  abbrev pub value : Option Value
  value =
      or_else (own (codes "constant"))
        (own (if decode then codes "decode_value" else codes "value"))

  -- Bytes with a length, or all that is left.
  abbrev pub bytes_part : Build
  bytes_part =
      elim (or_else (own (codes "length")) (if decode then own (codes "decode_length") else none)) [
        | none ↦ emit (named_text (if decode then b'R' else b'v') name)
        | some length ↦
            top_expression c (some length)
            >=> emit (named_text (if decode then b'N' else b'V') name)
      ]

  abbrev pub cbor_part : ℕ → Build
  cbor_part t =
      (if decode then literal 0 else emit (named_text b'z' name))
      >=> literal (if t == 11 then 2 else 3)
      >=> emit (query_text b'b' ++ named_text (if decode then b'N' else b'V') name)

  abbrev pub rows_part : Build
  rows_part = using (string (own (codes "message")) true) (λ child.
      using (message_id c.messages child) (λ i.
        expr_or c f (codes "count") (if is_given (own (codes "until")) then u64_max else 1)
        >=> expr_or c f (codes "until") 256
        >=> emit (rows_text i name)))

  abbrev pub crc_part : Build
  crc_part =
      expr_or c f (codes "algorithm") 1
      >=> elim (own (codes "from")) [
        | none ↦ emit (query_text b'o')
        | some from ↦ top_expression c (some from)
      ]
      >=> using (flag f (codes "cbor")) (λ cbor.
        using (flag f (codes "to_end")) (λ to_end. literal (of_bool cbor + 2 * of_bool to_end)))
      >=> emit (query_named_text b'K' name)

  -- The value that the field starts from.
  abbrev pub start_part : ℕ → Build
  start_part t =
      if t == 8
      then emit (query_text b'p')
      else if t == 7 || t == 6
      then top_expression c (or_else value (own (codes "value")))
      else if decode && not (t == 5)
      then literal 0
      else elim value [ none ↦ emit (named_text b'g' name) | some v ↦ top_expression c (some v) ]

  abbrev pub swap_part : Bool → Build
  swap_part little = when little (top_expression c (own (codes "width")) >=> emit (query_text b's'))

  abbrev pub integer_part : Bool → Build
  integer_part little =
      when (not decode) (emit (named_text b'g' name) >=> swap_part little)
      >=> top_expression c (own (codes "width"))
      >=> emit (plain_text (if decode then b'j' else b'i'))
      >=> when decode (swap_part little >=> emit (named_text b'P' name))

  -- What each type does with the value.
  abbrev pub type_part : ℕ → Bool → Build
  type_part t little =
      if t == 1
      then integer_part little
      else if t == 3
      then emit (
          if decode
          then plain_text b'D' ++ named_text b'P' name
          else named_text b'g' name ++ plain_text b'd')
      else if t == 10 || t == 13
      then emit (named_text b'g' name)
        >=> literal (if t == 10 then 0 else 4)
        >=> emit (query_text b'b' ++ named_text b'P' name)
      else if t == 14 || t == 15
      then emit (named_text b'g' name)
        >=> top_expression c (own (codes "width"))
        >=> literal (of_bool (t == 15))
        >=> emit (query_text b'd' ++ named_text b'P' name)
      else if t == 16
      then emit (named_text b'g' name)
        >=> expr_or c f (codes "length") 0
        >=> expr_or c f (codes "termination_mask") 1
        >=> expr_or c f (codes "termination_value") 1
        >=> emit (query_text b'T' ++ named_text b'P' name)
      else if t == 7
      then emit (named_text b'g' name) >=> literal 8 >=> emit (query_text b'a')
      else nothing

  abbrev pub main_part : ℕ → Bool → Build
  main_part t little =
      if t == 2
      then bytes_part
      else if t == 11 || t == 12
      then cbor_part t
      else if t == 4
      then rows_part
      else if t == 9
      then crc_part
      else start_part t >=> emit (named_text b'P' name) >=> type_part t little

  -- The field's value against an expression, and the fault where the test fails.
  abbrev pub test_part : Bool → Text → ℕ → ℕ → Build
  test_part allowed key operator fault = elim (if allowed then own key else none) [
    | none ↦ nothing
    | some v ↦
        emit (named_text b'g' name)
        >=> top_expression c (some v)
        >=> emit (query_text operator)
        >=> literal fault
        >=> emit (query_text b'a')
  ]

  abbrev pub whole_part : ℕ → Build
  whole_part t =
      when (not (t == 1 || t == 5 || t == 6 || t == 7)) (emit (query_text b'f'))
      >=> using (is_little f) (λ little. main_part t little)
      >=> test_part decode (codes "constant") b'=' 6
      >=> test_part true (codes "min") b'g' 3
      >=> test_part true (codes "max") b'l' 3

  -- The conditional around a field with `when`.
  abbrev pub guarded_part : ℕ → Build
  guarded_part t = elim (own (codes "when")) [
    | none ↦ whole_part t
    | some test ↦
        emit (plain_text b'?')
        >=> top_expression c (some test)
        >=> emit (plain_text b't')
        >=> whole_part t
        >=> when decode (emit (plain_text b'e' ++ query_named_text b'Z' name))
        >=> emit (plain_text b';')
  ]

unfoldable pub field_program : Compiler → Value → Bool → Build
field_program c f decode b =
    using (string (get (some f) (codes "name")) true)
      (λ name. using (kind f) (λ t. guarded_part c f decode name t)) b

-- A message's program: that of each field, and %uF.
unfoldable pub field_programs : Compiler → Bool → List Value → Build
field_programs c decode [] b = ok b
field_programs c decode (f ∷ later) b = field_program c f decode b >>= field_programs c decode later

unfoldable pub message_program : Compiler → Bool → List Value → Result Text
message_program c decode fields = field_programs c decode fields [] >>= emit (query_text b'F')
