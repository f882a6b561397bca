-- ===== src/Records/Expressions.antt =====
-- compiler/records.c and wire_info.c: an expression's program is one that the loader lets through.
use wire_format.Base.{
  ℕ, zero, suc, ◌≤◌, ◌≡◌, refl, arith, Bool, true, false, ◌||◌, List, [], ◌∷◌, if◌then◌else◌,
  u64_max, Option, none, some, codes,
}
use wire_format.Json5.Value.{
  Value, scalar, array, object, number_kind, string_kind, null_kind, boolean_kind,
}
use wire_format.Compiler.Types.{Text, of_records, invalid_expression, unknown_operator}
use wire_format.Compiler.Util.{same_text}
use wire_format.WireInfo.Program.{among, named, no_name, two_names}
use wire_format.Records.Json.{place, string, number, items, get}
use wire_format.Records.Scopes.{Compiler, reference}
use wire_format.Records.Emit.{
  Build, emit, ◌>=>◌, literal, named_text, query_text, query_named_text, query_two_text,
}
use wire_format.Records.Expression
use wire_format.Records.Expression.{
  letter_of, queries, binary, operation, expression, array_expression, unknown, top_expression,
  expr_or, letter_then,
}
use wire_format.Records.Steps.{IsName, named-Step, query-Step, query_named-Step, query_two-Step}
use wire_format.Records.Builds.{
  Builds, emit-Builds, >=>-Builds, using-Builds, if-Builds, err-Builds, literal-Builds,
}
use wire_format.Records.Operands.{string-IsName, reference-IsName, number-le, letter_of-among}

module _ {rank : ℕ} {b : List ℕ} where
  pub named-Builds :
      (op : ℕ) (name : Text)
      → among op named ≡ true
      → IsName name
      → Builds rank b b (emit (named_text op name))
  named-Builds op name h k = emit-Builds (named_text op name) (named-Step rank op b name h k)

  pub query-Builds : (op : ℕ) → among op no_name ≡ true → Builds rank b b (emit (query_text op))
  query-Builds op h = emit-Builds (query_text op) (query-Step rank op b h)

  unknown-Builds : (v : Value) → Builds rank b b (unknown v)
  unknown-Builds v = err-Builds (place (some v)) (of_records unknown_operator)

module _ {rank : ℕ} {b : List ℕ} (expr : Option Value → Build) (c : Compiler) (v : Value)
    (h : (x : Option Value) → Builds rank b b (expr x)) where
  two_names-Builds :
      (l : ℕ) (x y : Value)
      → among l two_names ≡ true
      → Builds rank b b (Expression.two_names expr c v l x y)
  two_names-Builds l x y k = using-Builds λ name e. using-Builds λ other f.
      emit-Builds (query_two_text l name other) (
        query_two-Step rank l b name other k (reference-IsName c (some x) name e)
          (string-IsName (some y) other f))

  letter_then-Builds :
      (o : Option ℕ) (f : Build)
      → ((l : ℕ) → o ≡ some l → among l no_name ≡ true)
      → Builds rank b b f
      → Builds rank b b (letter_then expr c v o f)
  letter_then-Builds none f k i = unknown-Builds v
  letter_then-Builds (some l) f k i = >=>-Builds i (query-Builds l (k l refl))

  query-cases :
      (o : Option ℕ)
      → ((l : ℕ) → o ≡ some l → among l no_name ≡ true)
      → Builds rank b b (elim o as (λ o. Build) [ none ↦ unknown v | some l ↦ emit (query_text l) ])
  query-cases none k = unknown-Builds v
  query-cases (some l) k = query-Builds l (k l refl)

  operation-Builds : (op : Text) (args : List Value) → Builds rank b b (operation expr c v op args)
  unfolding operation
  operation-Builds op [] =
      query-cases (letter_of op queries (codes "rpokn"))
        λ l e. (let p = letter_of-among op queries (codes "rpokn") l e in ground arith)
  operation-Builds op (x ∷ []) =
      if-Builds (same_text op (codes "len") || same_text op (codes "count"))
        (λ e. using-Builds λ name f.
          (let k = reference-IsName c (some x) name f in
            length_of (same_text op (codes "len")) name k))
        (λ e.
          if-Builds (same_text op (codes "not"))
            (λ f. >=>-Builds (h (some x)) (query-Builds b'!' refl)) (λ f. unknown-Builds v))
    where
      length_of :
          (t : Bool) (name : Text)
          → IsName name
          → Builds rank b b (emit (named_text (if t then b'z' else b'k') name))
      length_of true name k = named-Builds b'z' name refl k
      length_of false name k = named-Builds b'k' name refl k
  operation-Builds op (x ∷ y ∷ []) =
      if-Builds (same_text op (codes "byte"))
        (λ e. >=>-Builds (h (some y)) (
          using-Builds λ name f.
            emit-Builds (query_named_text b'h' name)
              (query_named-Step rank b'h' b name refl (reference-IsName c (some x) name f))))
        (λ e.
          if-Builds (same_text op (codes "unique")) (λ f. two_names-Builds b'U' x y refl)
            (λ f.
              letter_then-Builds (letter_of op binary (codes "+-*/m&|^[]=~<l>gAO"))
                (expr (some x) >=> expr (some y))
                (λ l g.
                  (let p = letter_of-among op binary (codes "+-*/m&|^[]=~<l>gAO") l g in
                    ground arith))
                (>=>-Builds (h (some x)) (h (some y)))))
  operation-Builds op (x ∷ y ∷ z ∷ []) =
      if-Builds (same_text op (codes "item") || same_text op (codes "count-equal"))
        (λ e. >=>-Builds (h (some z)) (either (same_text op (codes "item"))))
        (λ e.
          if-Builds (same_text op (codes "select"))
            (λ f.
              >=>-Builds (>=>-Builds (>=>-Builds (h (some x)) (h (some y))) (h (some z)))
                (query-Builds b'?' refl))
            (λ f. unknown-Builds v))
    where
      either :
          (t : Bool)
          → Builds rank b b (Expression.two_names expr c v (if t then b'I' else b'C') x y)
      either true = two_names-Builds b'I' x y refl
      either false = two_names-Builds b'C' x y refl
  operation-Builds op (x ∷ y ∷ z ∷ w ∷ more) = unknown-Builds v

  array_expression-Builds : (xs : List Value) → Builds rank b b (array_expression expr c v xs)
  array_expression-Builds [] = err-Builds (place (some v)) (of_records invalid_expression)
  array_expression-Builds (x ∷ args) = record {
    builds = λ t r e.
        (using-Builds {m = string (some x) false} λ op f. operation-Builds op args).builds t r e;
  }

pub expression-Builds :
    {rank : ℕ} {b : List ℕ} (left : ℕ) (c : Compiler) (v : Option Value)
    → Builds rank b b (expression left c v)
unfolding expression
expression-Builds zero c v = record { builds = λ t r e. cc }
expression-Builds (suc left) c none = record { builds = λ t r e. cc }
expression-Builds {rank = rank} {b = b} (suc left) c (some (scalar l k (number_kind s))) = record {
  builds = λ t r e.
      (using-Builds {m = number (some (scalar l k (number_kind s)))}
          λ n f. literal-Builds n (number-le (some (scalar l k (number_kind s))) n f)).builds
        t r e;
}
expression-Builds (suc left) c (some (scalar l k (string_kind s))) = record {
  builds = λ t r e.
      (using-Builds {m = reference c (some (scalar l k (string_kind s)))} λ name f.
          named-Builds b'g' name refl
            (reference-IsName c (some (scalar l k (string_kind s))) name f)).builds
        t r e;
}
expression-Builds (suc left) c (some (array l k xs)) = record {
  builds = λ t r e.
      (array_expression-Builds (expression left c) c (array l k xs)
          (λ x. expression-Builds left c x) (items xs)).builds
        t r e;
}
expression-Builds (suc left) c (some (scalar l k null_kind)) = record { builds = λ t r e. cc }
expression-Builds (suc left) c (some (scalar l k (boolean_kind x))) = record {
  builds = λ t r e. cc;
}
expression-Builds (suc left) c (some (object l k ms)) = record { builds = λ t r e. cc }

pub expr_or-Builds :
    {rank : ℕ} {b : List ℕ} (c : Compiler) (f : Value) (key : Text) (n : ℕ)
    → n ≤ u64_max
    → Builds rank b b (expr_or c f key n)
expr_or-Builds {rank = rank} {b = b} c f key n h = go (get (some f) key)
  where
    go :
        (o : Option Value)
        → Builds rank b b
            (elim o as (λ o. Build) [ none ↦ literal n | some v ↦ top_expression c (some v) ])
    go none = literal-Builds n h
    go (some v) = expression-Builds 33 c (some v)
