-- ===== src/Records/Expression.antt =====
-- compiler/records.c: `expression`, which writes an expression in postfix order.
use wire_format.Base.{
  ℕ, zero, suc, true, false, ◌||◌, List, [], ◌∷◌, if◌then◌else◌, Option, none, some, codes,
}
use wire_format.Json5.Value.{Value, scalar, array, number_kind, string_kind}
use wire_format.Compiler.Types.{Text, nesting_exceeded, invalid_expression, unknown_operator}
use wire_format.Compiler.Util.{same_text}
use wire_format.Records.Json.{fail, items, string, number, get}
use wire_format.Records.Scopes.{Compiler, reference}
use wire_format.Records.Emit.{
  Build, emit, using, ◌>=>◌, literal, named_text, query_text, query_named_text, query_two_text,
}

-- The letter at a name's place.
unfoldable pub letter_of : Text → List Text → List ℕ → Option ℕ
letter_of s [] letters = none
letter_of s (t ∷ names) [] = none
letter_of s (t ∷ names) (l ∷ letters) =
    let rest = letter_of s names letters in if same_text s t then some l else rest

abbrev pub queries : List Text
queries = codes "remaining" ∷ codes "position" ∷ codes "start" ∷ codes "peek" ∷ codes "index" ∷ []

abbrev pub binary : List Text
binary =
    codes "+"
    ∷ codes "-"
    ∷ codes "*"
    ∷ codes "/"
    ∷ codes "%"
    ∷ codes "&"
    ∷ codes "|"
    ∷ codes "^"
    ∷ codes "<<"
    ∷ codes ">>"
    ∷ codes "=="
    ∷ codes "!="
    ∷ codes "<"
    ∷ codes "<="
    ∷ codes ">"
    ∷ codes ">="
    ∷ codes "and"
    ∷ codes "or"
    ∷ []

abbrev pub unknown : Value → Build
unknown v b = fail (some v) unknown_operator

module _ (expr : Option Value → Build) (c : Compiler) (v : Value) where
  abbrev pub letter_then : Option ℕ → Build → Build
  letter_then none f = unknown v
  letter_then (some l) f = f >=> emit (query_text l)

  abbrev pub two_names : ℕ → Value → Value → Build
  two_names l x y =
      using (reference c (some x))
        (λ name. using (string (some y) true) (λ other. emit (query_two_text l name other)))

  -- An operator by its arguments; each test of the code is on the number of them as well.
  unfoldable pub operation : Text → List Value → Build
  operation op [] = elim (letter_of op queries (codes "rpokn")) [
    | none ↦ unknown v
    | some l ↦ emit (query_text l)
  ]
  operation op (x ∷ []) =
      if same_text op (codes "len") || same_text op (codes "count")
      then using (reference c (some x))
          (λ name. emit (named_text (if same_text op (codes "len") then b'z' else b'k') name))
      else if same_text op (codes "not")
      then expr (some x) >=> emit (query_text b'!')
      else unknown v
  operation op (x ∷ y ∷ []) =
      if same_text op (codes "byte")
      then expr (some y)
        >=> using (reference c (some x)) (λ name. emit (query_named_text b'h' name))
      else if same_text op (codes "unique")
      then two_names b'U' x y
      else letter_then (letter_of op binary (codes "+-*/m&|^[]=~<l>gAO"))
          (expr (some x) >=> expr (some y))
  operation op (x ∷ y ∷ z ∷ []) =
      if same_text op (codes "item") || same_text op (codes "count-equal")
      then expr (some z) >=> two_names (if same_text op (codes "item") then b'I' else b'C') x y
      else if same_text op (codes "select")
      then expr (some x) >=> expr (some y) >=> expr (some z) >=> emit (query_text b'?')
      else unknown v
  operation op _ = unknown v

abbrev pub array_expression : (Option Value → Build) → Compiler → Value → List Value → Build
array_expression expr c v [] b = fail (some v) invalid_expression
array_expression expr c v (x ∷ args) b =
    using (string (some x) false) (λ op. operation expr c v op args) b

-- `expression` at depth 33 - `left`.
unfoldable pub expression : ℕ → Compiler → Option Value → Build
expression zero c v b = fail v nesting_exceeded
expression (suc left) c (some (scalar l k (number_kind s))) b =
    using (number (some (scalar l k (number_kind s)))) literal b
expression (suc left) c (some (scalar l k (string_kind s))) b =
    using (reference c (some (scalar l k (string_kind s)))) (λ name. emit (named_text b'g' name)) b
expression (suc left) c (some (array l k xs)) b =
    array_expression (expression left c) c (array l k xs) (items xs) b
expression (suc left) c v b = fail v invalid_expression

abbrev pub top_expression : Compiler → Option Value → Build
top_expression c v = expression 33 c v

abbrev pub expr_or : Compiler → Value → Text → ℕ → Build
expr_or c f key fallback = elim (get (some f) key) [
  | none ↦ literal fallback
  | some v ↦ top_expression c (some v)
]
