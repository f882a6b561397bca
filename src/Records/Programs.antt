-- ===== src/Records/Programs.antt =====
-- compiler/records.c and wire_info.c: a field's program is one that the loader lets through.
use wire_format.Base.{
  ℕ, ◌+◌, ◌*◌, ◌≤◌, ◌<◌, ◌≡◌, refl, arith, Bool, true, false, not, ◌&&◌, ◌||◌, List, [], ◌∷◌, ◌++◌,
  ◌==◌, if◌then◌else◌, u64_max, of_bool, Option, none, some, codes,
}
use wire_format.Json5.Value.{Value}
use wire_format.Compiler.Types.{Text, ok}
use wire_format.WireInfo.Program.{among, named, no_name}
use wire_format.Records.Json.{get, is_given, string, kind, flag}
use wire_format.Records.Scopes.{Compiler, message_id}
use wire_format.Records.Emit.{
  Build, emit, nothing, ◌>=>◌, using, when, literal, plain_text, named_text, query_text,
  query_named_text, rows_text,
}
use wire_format.Records.Expression.{top_expression}
use wire_format.Records.Fields
use wire_format.Records.Fields.{or_else, is_little, field_program}
use wire_format.Records.Steps.{IsName, named-Step, plain-Step, query-Step, query_named-Step}
use wire_format.Records.Numbers.{rows-Step, open-Step, then-Step, else-Step, close-Step}
use wire_format.Records.Builds.{
  Builds, Step-++, emit-Builds, >=>-Builds, using-Builds, if-Builds, nothing-Builds, literal-Builds,
}
use wire_format.Records.Operands.{string-IsName}
use wire_format.Records.Expressions.{named-Builds, query-Builds, expression-Builds, expr_or-Builds}

-- A message that the field's records have stands before the field's own.
abbrev pub EarlierChild : ℕ → List Value → Value → Type 0
EarlierChild rank messages f =
    (name : Text) (i : Option ℕ)
    → string (get (some f) (codes "message")) true ≡ ok name
    → message_id messages name ≡ ok i
    → (j : ℕ) × (i ≡ some j) × (j < rank)

module _ {rank : ℕ} {b : List ℕ} (c : Compiler) (f : Value) (decode : Bool) (name : Text)
    (k : IsName name) where
  when-Builds : (t : Bool) {g : Build} → Builds rank b b g → Builds rank b b (when t g)
  when-Builds t h = if-Builds t (λ e. h) (λ e. nothing-Builds)

  -- One of two operators with the field's name.
  either_named :
      (t : Bool) (x y : ℕ)
      → among x named ≡ true
      → among y named ≡ true
      → Builds rank b b (emit (named_text (if t then x else y) name))
  either_named true x y h i = named-Builds x name h k
  either_named false x y h i = named-Builds y name i k

  query_then_named :
      (x y : ℕ)
      → among x no_name ≡ true
      → among y named ≡ true
      → Builds rank b b (emit (query_text x ++ named_text y name))
  query_then_named x y h i = emit-Builds (query_text x ++ named_text y name) (
      Step-++ rank b b b (query_text x) (named_text y name) (query-Step rank x b h)
        (named-Step rank y b name i k))

  bytes_part-Builds : Builds rank b b (Fields.bytes_part c f decode name)
  bytes_part-Builds = go (
      or_else (get (some f) (codes "length"))
        (if decode then get (some f) (codes "decode_length") else none))
    where
      go :
          (o : Option Value)
          → Builds rank b b (elim o as (λ o. Build) [
            | none ↦ emit (named_text (if decode then b'R' else b'v') name)
            | some length ↦
                top_expression c (some length)
                >=> emit (named_text (if decode then b'N' else b'V') name)
          ])
      go none = either_named decode b'R' b'v' refl refl
      go (some length) =
          >=>-Builds (expression-Builds 33 c (some length))
            (either_named decode b'N' b'V' refl refl)

  cbor_part-Builds : (t : ℕ) → Builds rank b b (Fields.cbor_part c f decode name t)
  cbor_part-Builds t =
      >=>-Builds
        (>=>-Builds
          (if-Builds decode (λ e. literal-Builds 0 (omega arith))
            (λ e. named-Builds b'z' name refl k))
          (literal-Builds (if t == 11 then 2 else 3) (two_or_three (t == 11))))
        (last decode)
    where
      two_or_three : (x : Bool) → (if x then 2 else 3) ≤ u64_max
      two_or_three true = omega arith
      two_or_three false = omega arith

      last :
          (x : Bool)
          → Builds rank b b (emit (query_text b'b' ++ named_text (if x then b'N' else b'V') name))
      last true = query_then_named b'b' b'N' refl refl
      last false = query_then_named b'b' b'V' refl refl

  rows_part-Builds :
      EarlierChild rank c.messages f
      → rank ≤ 64
      → Builds rank b b (Fields.rows_part c f decode name)
  rows_part-Builds h l = using-Builds λ child e. using-Builds λ i g.
      (let (j, p, m) = h child i e g in
        >=>-Builds
          (>=>-Builds
            (expr_or-Builds c f (codes "count") _ (most (is_given (get (some f) (codes "until")))))
            (expr_or-Builds c f (codes "until") 256 (omega arith)))
          (emit-Builds (rows_text i name) (rw (p) (rows-Step rank j b name m (omega arith) k))))
    where
      most : (x : Bool) → (if x then u64_max else 1) ≤ u64_max
      most true = omega arith
      most false = omega arith

  crc_part-Builds : Builds rank b b (Fields.crc_part c f decode name)
  crc_part-Builds =
      >=>-Builds
        (>=>-Builds
          (>=>-Builds (expr_or-Builds c f (codes "algorithm") 1 (omega arith))
            (from (get (some f) (codes "from"))))
          flags)
        (emit-Builds (query_named_text b'K' name) (query_named-Step rank b'K' b name refl k))
    where
      from :
          (o : Option Value)
          → Builds rank b b (elim o as (λ o. Build) [
            | none ↦ emit (query_text b'o')
            | some v ↦ top_expression c (some v)
          ])
      from none = query-Builds b'o' refl
      from (some v) = expression-Builds 33 c (some v)

      two_bits : (x y : Bool) → of_bool x + 2 * of_bool y ≤ u64_max
      two_bits true true = omega arith
      two_bits true false = omega arith
      two_bits false true = omega arith
      two_bits false false = omega arith

      to_end :
          (x : Bool)
          → Builds rank b b
              (using (flag f (codes "to_end")) (λ y. literal (of_bool x + 2 * of_bool y)))
      to_end x = using-Builds {m = flag f (codes "to_end")} λ y g. literal-Builds _ (two_bits x y)

      flags : Builds rank b b (
          using
            (flag f (codes "cbor"))
            (λ x. using (flag f (codes "to_end")) (λ y. literal (of_bool x + 2 * of_bool y))))
      flags = using-Builds {m = flag f (codes "cbor")} λ x g. to_end x

  start_part-Builds : (t : ℕ) → Builds rank b b (Fields.start_part c f decode name t)
  start_part-Builds t =
      if-Builds (t == 8) (λ e. query-Builds b'p' refl)
        (λ e.
          if-Builds (t == 7 || t == 6) (λ g. expression-Builds 33 c _)
            (λ g.
              if-Builds (decode && not (t == 5)) (λ i. literal-Builds 0 (omega arith))
                (λ i. go (Fields.value c f decode name))))
    where
      go :
          (o : Option Value)
          → Builds rank b b (elim o as (λ o. Build) [
            | none ↦ emit (named_text b'g' name)
            | some v ↦ top_expression c (some v)
          ])
      go none = named-Builds b'g' name refl k
      go (some v) = expression-Builds 33 c (some v)

  swap_part-Builds : (x : Bool) → Builds rank b b (Fields.swap_part c f decode name x)
  swap_part-Builds x =
      when-Builds x (>=>-Builds (expression-Builds 33 c _) (query-Builds b's' refl))

  integer_part-Builds : (x : Bool) → Builds rank b b (Fields.integer_part c f decode name x)
  integer_part-Builds x =
      >=>-Builds
        (>=>-Builds
          (>=>-Builds
            (when-Builds (not decode)
              (>=>-Builds (named-Builds b'g' name refl k) (swap_part-Builds x)))
            (expression-Builds 33 c _))
          (direction decode))
        (when-Builds decode (>=>-Builds (swap_part-Builds x) (named-Builds b'P' name refl k)))
    where
      direction : (x : Bool) → Builds rank b b (emit (plain_text (if x then b'j' else b'i')))
      direction true = emit-Builds (plain_text b'j') (plain-Step rank b'j' b refl)
      direction false = emit-Builds (plain_text b'i') (plain-Step rank b'i' b refl)

  type_part-Builds : (t : ℕ) (x : Bool) → Builds rank b b (Fields.type_part c f decode name t x)
  type_part-Builds t x =
      if-Builds (t == 1) (λ e. integer_part-Builds x)
        (λ e.
          if-Builds (t == 3) (λ e. sdnv decode)
            (λ e.
              if-Builds (t == 10 || t == 13)
                (λ e.
                  >=>-Builds (>=>-Builds own (literal-Builds _ (zero_or_four (t == 10))))
                    (query_then_named b'b' b'P' refl refl))
                (λ e.
                  if-Builds (t == 14 || t == 15)
                    (λ e.
                      >=>-Builds
                        (>=>-Builds (>=>-Builds own (expression-Builds 33 c _))
                          (literal-Builds _ (one_bit (t == 15))))
                        (query_then_named b'd' b'P' refl refl))
                    (λ e.
                      if-Builds (t == 16)
                        (λ e.
                          >=>-Builds
                            (>=>-Builds
                              (>=>-Builds
                                (>=>-Builds own
                                  (expr_or-Builds c f (codes "length") 0 (omega arith)))
                                (expr_or-Builds c f (codes "termination_mask") 1 (omega arith)))
                              (expr_or-Builds c f (codes "termination_value") 1 (omega arith)))
                            (query_then_named b'T' b'P' refl refl))
                        (λ e.
                          if-Builds (t == 7)
                            (λ e.
                              >=>-Builds (>=>-Builds own (literal-Builds 8 (omega arith)))
                                (query-Builds b'a' refl))
                            (λ e. nothing-Builds))))))
    where
      own : Builds rank b b (emit (named_text b'g' name))
      own = named-Builds b'g' name refl k

      zero_or_four : (x : Bool) → (if x then 0 else 4) ≤ u64_max
      zero_or_four true = omega arith
      zero_or_four false = omega arith

      one_bit : (x : Bool) → of_bool x ≤ u64_max
      one_bit true = omega arith
      one_bit false = omega arith

      sdnv :
          (x : Bool)
          → Builds rank b b (
              emit (
                if x
                then plain_text b'D' ++ named_text b'P' name
                else named_text b'g' name ++ plain_text b'd'))
      sdnv true = emit-Builds _ (
          Step-++ rank b b b (plain_text b'D') (named_text b'P' name) (plain-Step rank b'D' b refl)
            (named-Step rank b'P' b name refl k))
      sdnv false = emit-Builds _ (
          Step-++ rank b b b (named_text b'g' name) (plain_text b'd')
            (named-Step rank b'g' b name refl k) (plain-Step rank b'd' b refl))

  main_part-Builds :
      (t : ℕ) (x : Bool)
      → ((t == 4) ≡ true → EarlierChild rank c.messages f)
      → rank ≤ 64
      → Builds rank b b (Fields.main_part c f decode name t x)
  main_part-Builds t x h l =
      if-Builds (t == 2) (λ e. bytes_part-Builds)
        (λ e.
          if-Builds (t == 11 || t == 12) (λ e. cbor_part-Builds t)
            (λ e.
              if-Builds (t == 4) (λ e. rows_part-Builds (h e) l)
                (λ e.
                  if-Builds (t == 9) (λ e. crc_part-Builds)
                    (λ e.
                      >=>-Builds (>=>-Builds (start_part-Builds t) (named-Builds b'P' name refl k))
                        (type_part-Builds t x)))))

  test_part-Builds :
      (allowed : Bool) (key : Text) (op fault : ℕ)
      → among op no_name ≡ true
      → fault ≤ u64_max
      → Builds rank b b (Fields.test_part c f decode name allowed key op fault)
  test_part-Builds allowed key op fault h l = go (if allowed then get (some f) key else none)
    where
      go :
          (o : Option Value)
          → Builds rank b b (elim o as (λ o. Build) [
            | none ↦ nothing
            | some v ↦
                emit (named_text b'g' name)
                >=> top_expression c (some v)
                >=> emit (query_text op)
                >=> literal fault
                >=> emit (query_text b'a')
          ])
      go none = nothing-Builds
      go (some v) =
          >=>-Builds
            (>=>-Builds
              (>=>-Builds
                (>=>-Builds (named-Builds b'g' name refl k) (expression-Builds 33 c (some v)))
                (query-Builds op h))
              (literal-Builds fault l))
            (query-Builds b'a' refl)

  pub whole_part-Builds :
      (t : ℕ)
      → ((t == 4) ≡ true → EarlierChild rank c.messages f)
      → rank ≤ 64
      → Builds rank b b (Fields.whole_part c f decode name t)
  whole_part-Builds t h l =
      >=>-Builds
        (>=>-Builds
          (>=>-Builds (>=>-Builds (when-Builds _ (query-Builds b'f' refl)) body)
            (test_part-Builds decode (codes "constant") b'=' 6 refl (omega arith)))
          (test_part-Builds true (codes "min") b'g' 3 refl (omega arith)))
        (test_part-Builds true (codes "max") b'l' 3 refl (omega arith))
    where
      body : Builds rank b b (using (is_little f) (λ x. Fields.main_part c f decode name t x))
      body = using-Builds {m = is_little f} λ x e. main_part-Builds t x h l

module _ {rank : ℕ} (c : Compiler) (f : Value) (name : Text) (k : IsName name) where
  -- The end of a conditional, with the branch that clears the field where it is read.
  ending-Builds :
      (decode : Bool)
      → {g : Build} → Builds rank [] (1 ∷ []) g
      → Builds rank [] [] (
          g
          >=> when decode (emit (plain_text b'e' ++ query_named_text b'Z' name))
          >=> emit (plain_text b';'))
  ending-Builds true h =
      >=>-Builds
        (>=>-Builds h (
          emit-Builds (plain_text b'e' ++ query_named_text b'Z' name) (
            Step-++ rank (1 ∷ []) (2 ∷ []) (2 ∷ []) (plain_text b'e') (query_named_text b'Z' name)
              (else-Step rank) (query_named-Step rank b'Z' (2 ∷ []) name refl k))))
        (emit-Builds (plain_text b';') (close-Step rank 2 refl))
  ending-Builds false h =
      >=>-Builds (>=>-Builds h nothing-Builds)
        (emit-Builds (plain_text b';') (close-Step rank 1 refl))

  guarded_part-Builds :
      (decode : Bool) (t : ℕ)
      → ((t == 4) ≡ true → EarlierChild rank c.messages f)
      → rank ≤ 64
      → Builds rank [] [] (Fields.guarded_part c f decode name t)
  guarded_part-Builds decode t h l = go (get (some f) (codes "when"))
    where
      go :
          (o : Option Value)
          → Builds rank [] [] (elim o as (λ o. Build) [
            | none ↦ Fields.whole_part c f decode name t
            | some test ↦
                emit (plain_text b'?')
                >=> top_expression c (some test)
                >=> emit (plain_text b't')
                >=> Fields.whole_part c f decode name t
                >=> when decode (emit (plain_text b'e' ++ query_named_text b'Z' name))
                >=> emit (plain_text b';')
          ])
      go none = whole_part-Builds c f decode name k t h l
      go (some test) = ending-Builds decode (
          >=>-Builds
            (>=>-Builds
              (>=>-Builds (emit-Builds (plain_text b'?') (open-Step rank))
                (expression-Builds 33 c (some test)))
              (emit-Builds (plain_text b't') (then-Step rank)))
            (whole_part-Builds c f decode name k t h l))

-- A field whose child message, if it has one, stands earlier.
abbrev pub ChildFits : ℕ → List Value → Value → Type 0
ChildFits rank messages f = kind f ≡ ok 4 → EarlierChild rank messages f

pub field_program-Builds :
    {rank : ℕ} (c : Compiler) (f : Value) (decode : Bool)
    → ChildFits rank c.messages f
    → rank ≤ 64
    → Builds rank [] [] (field_program c f decode)
unfolding field_program
field_program-Builds {rank = rank} c f decode h l = record {
  builds = λ t r e.
      (using-Builds {m = string (get (some f) (codes "name")) true}
          λ name p. with_kind name (string-IsName (get (some f) (codes "name")) name p)).builds
        t r e;
}
  where
    with_kind :
        (name : Text)
        → IsName name
        → Builds rank [] [] (using (kind f) (λ t. Fields.guarded_part c f decode name t))
    with_kind name k =
        using-Builds {m = kind f}
          λ t p. guarded_part-Builds c f name k decode t (λ q. h (four t p q)) l
      where
        four : (t : ℕ) → kind f ≡ ok t → (t == 4) ≡ true → kind f ≡ ok 4
        four t p q = let same : t ≡ 4 = ground arith in rw (← same) p
