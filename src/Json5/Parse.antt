-- ===== src/Json5/Parse.antt =====
-- compiler/json5.c: the whole parse ends, and how its answer and its error go together.
use wire_format.Base.{
  ℕ, zero, suc, ◌+◌, ◌*◌, ◌≤◌, ◌≡◌, refl, sym, ◌∙◌, arith, Bool, true, false, ◌&&◌, List, [], ◌∷◌,
  length, ◌==◌, drop, length-drop, if◌then◌else◌, Option, none, some,
}
use wire_format.Json5.Utf8.{
  Validity, valid, bad_offset, valid_utf8, utf8_loop, utf8_sequence, Sequence, bad_at,
  sequence_then,
}
use wire_format.Json5.Scan.{
  Failure, Parser, fail, at_end, first, second, advance, take_while, unterminated_comment,
  text_behind_value, blank, in_block, Round, stop, again, line_comment, block_end, block_comment,
  comment, skip_loop, or_endless, skip_space,
}
use wire_format.Json5.Value.{
  Value, Parsed, parsed, null, and_then, parse_value, count_lines, utf8_failure, starting,
  starts_with, behind_mark, only_value, json5_parse,
}
use wire_format.Json5.Forward.{fail-IsFailed, take_while-failure, advance-failure}
use wire_format.Json5.Spaces.{line_comment-Tidy, skip_loop-ends}
use wire_format.Json5.TextBounds.{sequence-Found}
use mathlib.Core.Path.{subst}
use wire_format.Json5.Literals.{Ends}
use wire_format.Json5.Total.{parse_value-Ends}

-- No error, or the one that space can have.
abbrev pub Cause : Option Failure → Type 0
Cause none = Unit
Cause (some f) = f.problem ≡ unterminated_comment

abbrev Blames : Round → Type 0
Blames (stop q) = Cause q.failure
Blames (again q) = q.failure ≡ none

Cause-none : (x : Option Failure) → x ≡ none → Cause x
Cause-none none e = tt
Cause-none (some f) e = cc

fail-Cause : (p : Parser) → p.failure ≡ none → Cause (fail p unterminated_comment).failure
unfolding fail
fail-Cause p h = go p.failure h
  where
    go :
        (x : Option Failure)
        → x ≡ none
        → Cause
            (elim x as (λ x. Parser) [
              | none ↦ record p {
                failure =
                    some
                      (record { line = p.line; column = p.column; problem = unterminated_comment });
              }
              | some f ↦ p
            ]).failure
    go none e = refl
    go (some f) e = cc

block_end-Blames : (p : Parser) → p.failure ≡ none → Blames (block_end p)
unfolding block_end
block_end-Blames p h = go (at_end p.rest)
  where
    go :
        (b : Bool)
        → Blames (if b then stop (fail p unterminated_comment) else again (advance (advance p)))
    go true = fail-Cause p h
    go false = advance-failure (advance p) ∙ advance-failure p ∙ h

comment-Blames : (p : Parser) → p.failure ≡ none → Blames (comment p)
unfolding comment line_comment block_comment
comment-Blames p h =
    go (first p.rest == b'/' && second p.rest == b'/')
      (first p.rest == b'/' && second p.rest == b'*')
  where
    q : Parser
    q = advance (advance p)

    behind : q.failure ≡ none
    behind = advance-failure (advance p) ∙ advance-failure p ∙ h

    go : (a b : Bool) → Blames (if a then line_comment p else if b then block_comment p else stop p)
    go true b = (line_comment-Tidy p).1 ∙ h
    go false true = block_end-Blames _ (take_while-failure in_block q.rest q ∙ behind)
    go false false = Cause-none p.failure h

skip_loop-Cause :
    (fuel : ℕ) (p q : Parser) → p.failure ≡ none → skip_loop fuel p ≡ some q → Cause q.failure
unfolding skip_loop
skip_loop-Cause zero p q h e = cc
skip_loop-Cause (suc fuel) p q h e =
    go (comment r) (comment-Blames r (take_while-failure blank p.rest p ∙ h))
      (λ t k l. skip_loop-Cause fuel t q k l) e
  where
    r : Parser
    r = take_while blank p.rest p

    go :
        (x : Round)
        → Blames x
        → ((t : Parser) → t.failure ≡ none → skip_loop fuel t ≡ some q → Cause q.failure)
        → (elim x as (λ x. Option Parser) [ stop t ↦ some t | again t ↦ skip_loop fuel t ]) ≡ some q
        → Cause q.failure
    go (stop t) b ih e = let same : t ≡ q = cc in subst (λ (t : Parser). Cause t.failure) same b
    go (again t) b ih e = ih t b e

skip_space-Cause : (p : Parser) → p.failure ≡ none → Cause (skip_space p).failure
unfolding skip_space
skip_space-Cause p h =
    let (q, e, f, k) = skip_loop-ends (suc (length p.rest)) p (omega arith) in
    subst (λ (o : Option Parser). Cause (or_endless p o).failure) (sym e)
      (skip_loop-Cause (suc (length p.rest)) p q h e)

-- How the answer of `json5_parse` and `error` go together.
abbrev pub Reports : Option Value → Option Failure → Type 0
Reports none e = (f : Failure) × (e ≡ some f)
Reports (some x) e = Cause e

only_value-Reports :
    (x : Value) (p : Parser)
    → p.failure ≡ none
    → (r : Option Value) × (q : Parser) × (only_value x p ≡ some (r, q)) × Reports r q.failure
unfolding only_value
only_value-Reports x p h = go (at_end q.rest)
  where
    q : Parser
    q = skip_space p

    go :
        (b : Bool)
        → (r : Option Value) × (t : Parser) × ((if b
              then parsed x q
              else null (fail q text_behind_value))
            ≡ some (r, t))
          × Reports r t.failure
    go true = (some x, q, refl, skip_space-Cause p h)
    go false = (none, fail q text_behind_value, refl, fail-IsFailed q text_behind_value)

whole-Reports :
    (p : Parser) (y : Parsed Value)
    → Ends p y
    → (r : Option Value) × (q : Parser) × (and_then y only_value ≡ some (r, q))
      × Reports r q.failure
unfolding and_then
whole-Reports p none h = elim h.outcome [ ]
whole-Reports p (some (none, q)) h = (none, q, refl, h.outcome.1)
whole-Reports p (some (some x, q)) h = only_value-Reports x q h.outcome.1

length-behind_mark : (text : List ℕ) → length (behind_mark text).rest ≤ length text
unfolding behind_mark
length-behind_mark text = go (starts_with (0xef ∷ 0xbb ∷ 0xbf ∷ []) text)
  where
    go :
        (b : Bool)
        → length
            (if b
              then record (starting text) { rest = drop 3 text; offset = 3 }
              else starting text).rest
          ≤ length text
    go true = omega (arith, length-drop 3 text)
    go false = omega arith

utf8_loop-ends :
    (fuel offset : ℕ) (s : List ℕ)
    → length s ≤ fuel
    → (x : Validity) × (utf8_loop fuel offset s ≡ some x)
unfolding utf8_loop
utf8_loop-ends fuel offset [] h = (valid, refl)
utf8_loop-ends zero offset (b ∷ s) h = absurd (omega arith)
utf8_loop-ends (suc fuel) offset (b ∷ s) h =
    go (utf8_sequence offset b s) refl (λ o rest l. utf8_loop-ends fuel o rest (omega arith))
  where
    go :
        (x : Sequence)
        → utf8_sequence offset b s ≡ x
        → ((o : ℕ) (rest : List ℕ)
            → length rest ≤ length s
            → (x : Validity) × (utf8_loop fuel o rest ≡ some x))
        → (y : Validity) × ((elim x as (λ x. Option Validity) [
          | bad_at bad ↦ some (bad_offset bad)
          | sequence_then count rest ↦ utf8_loop fuel (offset + count) rest
        ])
            ≡ some y)
    go (bad_at bad) e ih = (bad_offset bad, refl)
    go (sequence_then count rest) e ih =
        ih (offset + count) rest (sequence-Found offset b count s rest e).1

valid_utf8-ends : (text : List ℕ) → (x : Validity) × (valid_utf8 text ≡ some x)
unfolding valid_utf8
valid_utf8-ends text = utf8_loop-ends (length text) 0 text (omega arith)

outcome :
    (fuel : ℕ) (text : List ℕ)
    → 3 * length text + 3 ≤ fuel
    → (r : Option Value) × (e : Option Failure) × (json5_parse fuel text ≡ some (r, e))
      × Reports r e
unfolding json5_parse
outcome fuel text h = let (x, e) = valid_utf8-ends text in go (valid_utf8 text) x e
  where
    p : Parser
    p = behind_mark text

    go :
        (v : Option Validity) (x : Validity)
        → v ≡ some x
        → (r : Option Value) × (e : Option Failure) × (elim v
              as (λ v. Option (Option Value × Option Failure)) [
                | none ↦ none
                | some (bad_offset bad) ↦
                    some (none, some (utf8_failure (count_lines bad text 1 1)))
                | some valid ↦ elim (and_then (parse_value fuel p) only_value) [
                  | none ↦ none
                  | some (x, q) ↦ some (x, q.failure)
                ]
              ]
            ≡ some (r, e))
          × Reports r e
    go none x k = cc
    go (some (bad_offset bad)) x k =
        (none, some (utf8_failure (count_lines bad text 1 1)), refl, (_, refl))
    go (some valid) x k =
        let (r, q, e, w) =
          whole-Reports p (parse_value fuel p)
            (parse_value-Ends fuel p (omega (arith, length-behind_mark text))) in
        (r, q.failure, rw e refl, w)

-- With three units of fuel for each character and three more, the parse ends, the loop of
-- `valid_utf8` included: it gives NULL with an error, or a value with none, unless a block comment
-- behind the value has no end. And the loop of `skip_space` ends wherever it starts, with one round
-- more than there are characters left.
pub json5_parse-Reports :
    (fuel : ℕ) (text : List ℕ) (p : Parser)
    → 3 * length text + 3 ≤ fuel
    → ((r : Option Value) × (e : Option Failure) × (json5_parse fuel text ≡ some (r, e))
        × Reports r e)
      × ((q : Parser) × (skip_loop (suc (length p.rest)) p ≡ some q))
json5_parse-Reports fuel text p h =
    let (q, e, f, k) = skip_loop-ends (suc (length p.rest)) p (omega arith) in
    (outcome fuel text h, (q, e))
