-- ===== src/Json5/Literals.antt =====
-- compiler/json5.c: strings and property names end, go forwards, and set an error with each NULL.
use wire_format.Base.{
  ℕ, zero, suc, ◌*◌, ◌^◌, ◌<◌, ◌≡◌, refl, ◌∙◌, arith, bit_or, Bool, true, false, not, ◌||◌, List,
  [], ◌∷◌, ◌++◌, length, ◌==◌, if◌then◌else◌, Option, none, some,
}
use wire_format.Json5.Utf8.{utf8_bytes}
use wire_format.Json5.Scan.{
  Failure, Parser, fail, failed, at_end, first, advance, expected_hex, bad_codepoint,
  bad_surrogate_pair, zero_before_digit, unterminated_escape, unterminated_string,
  newline_in_string,
}
use wire_format.Json5.Strings.{
  hex_value, hex_loop, take_hex, append_utf8, escape_byte, low_half, surrogate_pair, escape_unit,
  escape_letter, escape_other, escape, Round, again, stop, escaped, string_round, string_loop,
  string_bytes, is_decimal,
}
use wire_format.Json5.Forward.{
  Forward, Forward-refl, Forward-trans, shorter, fail-Forward, fail-IsFailed, advance-Forward,
  advance-failure, IsFailed,
}
use wire_format.Json5.Spaces.{length-advance}

hex_loop-Forward : (n digits value : ℕ) (p : Parser) → Forward p (hex_loop n digits value p).1
unfolding hex_loop
hex_loop-Forward zero digits value p = Forward-refl p
hex_loop-Forward (suc n) digits value p =
    go (hex_value (first p.rest))
      λ v. Forward-trans (advance-Forward p) (hex_loop-Forward n digits v (advance p))
  where
    go :
        (x : Option ℕ)
        → ((v : ℕ) → Forward p (hex_loop n digits v (advance p)).1)
        → let r : Option ℕ × Parser = elim x [
          | none ↦ (none, fail p (expected_hex digits))
          | some digit ↦ hex_loop n digits (bit_or (value * 2 ^ 4) digit) (advance p)
        ] in
          Forward p r.1
    go none ih = fail-Forward p (expected_hex digits)
    go (some d) ih = ih _

-- A step that gives a buffer with the state.
record Goes (p : Parser) (r : List ℕ × Parser) : Type 0 where
  goes : Forward p r.1

if-Goes :
    (b : Bool) {p : Parser} {x y : List ℕ × Parser}
    → Goes p x
    → Goes p y
    → Goes p (if b then x else y)
if-Goes true a c = a
if-Goes false a c = c

from_Forward : {p q : Parser} {buffer : List ℕ} → Forward p q → Goes p (buffer, q)
from_Forward a = record { goes = a }

later-Goes : {p q : Parser} {r : List ℕ × Parser} → Forward p q → Goes q r → Goes p r
later-Goes a b = record { goes = Forward-trans a b.goes }

append_utf8-Goes :
    (buffer : List ℕ) (codepoint : ℕ) (p : Parser) → Goes p (append_utf8 buffer codepoint p)
unfolding append_utf8
append_utf8-Goes buffer codepoint p = go (utf8_bytes codepoint)
  where
    go :
        (x : Option (List ℕ))
        → let r : List ℕ × Parser = elim x [
          | none ↦ (buffer, fail p bad_codepoint)
          | some bytes ↦ (buffer ++ bytes, p)
        ] in
          Goes p r
    go none = from_Forward (fail-Forward p bad_codepoint)
    go (some bytes) = from_Forward (Forward-refl p)

take_hex-Forward : (digits : ℕ) (p : Parser) → Forward p (take_hex digits p).1
unfolding take_hex
take_hex-Forward digits p = hex_loop-Forward digits digits 0 p

escape_byte-Goes :
    (buffer : List ℕ) (p : Parser) (r : Option ℕ × Parser)
    → Forward p r.1
    → Goes p (escape_byte buffer r)
unfolding escape_byte
escape_byte-Goes buffer p (none, q) a = from_Forward a
escape_byte-Goes buffer p (some c, q) a = later-Goes a (append_utf8-Goes buffer c q)

low_half-Goes :
    (buffer : List ℕ) (high : ℕ) (p : Parser) (r : Option ℕ × Parser)
    → Forward p r.1
    → Goes p (low_half buffer high r)
unfolding low_half
low_half-Goes buffer high p (none, q) a =
    from_Forward (Forward-trans a (fail-Forward q bad_surrogate_pair))
low_half-Goes buffer high p (some low, q) a =
    later-Goes a (search (if-Goes, append_utf8-Goes, from_Forward, fail-Forward))

surrogate_pair-Goes :
    (buffer : List ℕ) (high : ℕ) (p : Parser) → Goes p (surrogate_pair buffer high p)
unfolding surrogate_pair
surrogate_pair-Goes buffer high p =
    if-Goes (not (first p.rest == b'\\'))
      (from_Forward (Forward-trans one (fail-Forward p₁ bad_surrogate_pair)))
      (if-Goes (not (first p₁.rest == b'u'))
        (from_Forward (Forward-trans two (fail-Forward p₂ bad_surrogate_pair)))
        (later-Goes two (low_half-Goes buffer high p₂ (take_hex 4 p₂) (take_hex-Forward 4 p₂))))
  where
    p₁ : Parser
    p₁ = advance p

    p₂ : Parser
    p₂ = advance p₁

    one : Forward p p₁
    one = advance-Forward p

    two : Forward p p₂
    two = Forward-trans one (advance-Forward p₁)

escape_unit-Goes :
    (buffer : List ℕ) (p : Parser) (r : Option ℕ × Parser)
    → Forward p r.1
    → Goes p (escape_unit buffer r)
unfolding escape_unit
escape_unit-Goes buffer p (none, q) a = from_Forward a
escape_unit-Goes buffer p (some c, q) a =
    later-Goes a
      (search (if-Goes, surrogate_pair-Goes, from_Forward, fail-Forward, append_utf8-Goes))

escape_other-Goes : (c : ℕ) (buffer : List ℕ) (p : Parser) → Goes p (escape_other c buffer p)
unfolding escape_other
escape_other-Goes c buffer p = if-Goes (c == b'\n') (from_Forward (Forward-refl p)) (
    if-Goes (c == b'\r') (from_Forward (line_end (first p.rest == b'\n'))) (
      if-Goes (c == b'0') (zero_escape (is_decimal (first p.rest))) (
        if-Goes (c == b'x') (escape_byte-Goes buffer p (take_hex 2 p) (take_hex-Forward 2 p)) (
          if-Goes (c == b'u') (escape_unit-Goes buffer p (take_hex 4 p) (take_hex-Forward 4 p))
            (from_Forward (Forward-refl p))))))
  where
    zero_escape :
        (b : Bool)
        → Goes p (if b then (buffer, fail p zero_before_digit) else (buffer ++ (0 ∷ []), p))
    zero_escape true = from_Forward (fail-Forward p zero_before_digit)
    zero_escape false = from_Forward (Forward-refl p)

    line_end : (b : Bool) → Forward p (if b then advance p else p)
    line_end true = advance-Forward p
    line_end false = Forward-refl p

escape-Goes : (c : ℕ) (buffer : List ℕ) (p : Parser) → Goes p (escape c buffer p)
unfolding escape
escape-Goes c buffer p = go (escape_letter c)
  where
    go :
        (x : Option ℕ)
        → let r : List ℕ × Parser = elim x [
          | some byte ↦ (buffer ++ (byte ∷ []), p)
          | none ↦ escape_other c buffer p
        ] in
          Goes p r
    go none = escape_other-Goes c buffer p
    go (some byte) = from_Forward (Forward-refl p)

-- A string's round: it goes on with less text, or gives the bytes with no error set, or NULL with one.
abbrev Tidy : Parser → Round → Type 0
Tidy p (again b q) = Forward p q × (length q.rest < length p.rest)
Tidy p (stop none q) = Forward p q × IsFailed q
Tidy p (stop (some b) q) = Forward p q × (q.failure ≡ none)

if-Tidy :
    (b : Bool) (p : Parser) (x y : Round)
    → (b ≡ true → Tidy p x)
    → (b ≡ false → Tidy p y)
    → Tidy p (if b then x else y)
if-Tidy true p x y f g = f refl
if-Tidy false p x y f g = g refl

escaped-Tidy :
    (buffer : List ℕ) (p q : Parser)
    → Forward p q
    → length q.rest < length p.rest
    → Tidy p (escaped buffer q)
unfolding escaped
escaped-Tidy buffer p q a less = go (at_end q.rest)
  where
    r : List ℕ × Parser
    r = escape (first q.rest) buffer (advance q)

    to_r : Forward q r.1
    to_r = Forward-trans (advance-Forward q) (escape-Goes (first q.rest) buffer (advance q)).goes

    go : (b : Bool) → Tidy p (if b then stop none (fail q unterminated_escape) else again r.0 r.1)
    go true =
        (Forward-trans a (fail-Forward q unterminated_escape), fail-IsFailed q unterminated_escape)
    go false = (Forward-trans a to_r, omega (arith, shorter to_r))

pub not_failed : (p : Parser) → failed p ≡ false → p.failure ≡ none
not_failed p h = go p.failure refl h
  where
    go :
        (x : Option Failure)
        → p.failure ≡ x
        → elim x as (λ x. Bool) [ none ↦ false | some f ↦ true ] ≡ false
        → p.failure ≡ none
    go none e k = e
    go (some f) e k = cc

string_round-Tidy :
    (quote : ℕ) (buffer : List ℕ) (p : Parser) → Tidy p (string_round quote buffer p)
unfolding string_round
string_round-Tidy quote buffer p =
    if-Tidy (at_end p.rest || failed p) p _ _
      (λ h. (fail-Forward p unterminated_string, fail-IsFailed p unterminated_string))
      (λ h. running (ground arith) (ground arith))
  where
    q : Parser
    q = advance p

    to_q : Forward p q
    to_q = advance-Forward p

    c : ℕ
    c = first p.rest

    running :
        at_end p.rest ≡ false
        → failed p ≡ false
        → Tidy p (
            if c == quote
            then stop (some buffer) q
            else if c == b'\n' || c == b'\r'
            then stop none (fail q newline_in_string)
            else if not (c == b'\\')
            then again (buffer ++ (c ∷ [])) q
            else escaped buffer q)
    running more ok =
        let less : length q.rest < length p.rest = omega (arith, length-advance p more) in
        if-Tidy (c == quote) p _ _ (λ h. (to_q, advance-failure p ∙ not_failed p ok))
          (λ h.
            if-Tidy (c == b'\n' || c == b'\r') p _ _
              (λ k. (
                Forward-trans to_q (fail-Forward q newline_in_string),
                fail-IsFailed q newline_in_string,
              ))
              (λ k.
                if-Tidy (not (c == b'\\')) p _ _ (λ l. (to_q, less))
                  (λ l. escaped-Tidy buffer p q to_q less)))

abbrev pub Outcome {ℓ} : {A : Type ℓ} → Parser → Option (Option A × Parser) → Type 0
Outcome p none = ⊥
Outcome p (some (none, q)) = Forward p q × IsFailed q
Outcome p (some (some a, q)) = Forward p q × (q.failure ≡ none)

-- What a parse function gives: it ends, goes forwards, and sets an error with a NULL and none with
-- a value.
pub record Ends {ℓ} {A : Type ℓ} (p : Parser) (x : Option (Option A × Parser)) : Type 0 where
  pub outcome : Outcome p x

Outcome-trans {ℓ} :
    {A : Type ℓ} (p q : Parser) (x : Option (Option A × Parser))
    → Forward p q
    → Outcome q x
    → Outcome p x
Outcome-trans p q none a h = h
Outcome-trans p q (some (none, r)) a (b, f) = (Forward-trans a b, f)
Outcome-trans p q (some (some y, r)) a (b, f) = (Forward-trans a b, f)

pub Ends-trans {ℓ} :
    {A : Type ℓ} (p q : Parser) (x : Option (Option A × Parser)) → Forward p q → Ends q x → Ends p x
Ends-trans p q x a h = record { outcome = Outcome-trans p q x a h.outcome }

pub value-Ends {ℓ} :
    {A : Type ℓ} {p q : Parser} (a : A) → Forward p q → q.failure ≡ none → Ends p (some (some a, q))
value-Ends a b h = record { outcome = (b, h) }

pub null-Ends {ℓ} :
    (A : Type ℓ) {p q : Parser} → Forward p q → IsFailed q → Ends {A = A} p (some (none, q))
null-Ends A b h = record { outcome = (b, h) }

string_loop-Ends :
    (fuel quote : ℕ) (buffer : List ℕ) (p : Parser)
    → length p.rest < fuel
    → Ends p (string_loop fuel quote buffer p)
unfolding string_loop
string_loop-Ends zero quote buffer p h = absurd (omega arith)
string_loop-Ends (suc fuel) quote buffer p h =
    go (string_round quote buffer p) (string_round-Tidy quote buffer p)
      (λ b q k. string_loop-Ends fuel quote b q k)
  where
    go :
        (x : Round)
        → Tidy p x
        → ((b : List ℕ) (q : Parser) → length q.rest < fuel → Ends q (string_loop fuel quote b q))
        → Ends p
            (elim x [ again buffer' q ↦ string_loop fuel quote buffer' q | stop r q ↦ some (r, q) ])
    go (again b q) (a, less) ih = Ends-trans p q _ a (ih b q (omega arith))
    go (stop none q) (a, f) ih = null-Ends _ a f
    go (stop (some b) q) (a, f) ih = value-Ends b a f

pub string_bytes-Ends :
    (fuel : ℕ) (p : Parser) → length p.rest < fuel → Ends p (string_bytes fuel p)
unfolding string_bytes
string_bytes-Ends fuel p h = Ends-trans p (advance p) _ (advance-Forward p) (
    string_loop-Ends fuel (first p.rest) [] (advance p)
      (omega (arith, shorter (advance-Forward p))))
