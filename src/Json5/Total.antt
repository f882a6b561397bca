-- ===== src/Json5/Total.antt =====
-- compiler/json5.c: the parse of a value ends, goes forwards, and sets an error exactly with a NULL.
use wire_format.Base.{
  ℕ, zero, suc, ◌+◌, ◌*◌, ◌≤◌, ◌<◌, ◌≡◌, refl, ◌∙◌, arith, Bool, true, false, not, List, length,
  ◌==◌, if◌then◌else◌, Option, none, some,
}
use wire_format.Json5.Scan.{
  Problem, Failure, Parser, fail, failed, at_end, first, advance, take_while, skip_space,
  expected_value, expected_name, expected_colon, expected_in_array, expected_in_object,
}
use wire_format.Json5.Strings.{string_bytes, identifier, identifier_start, in_identifier, text_to}
use wire_format.Json5.Value.{
  Kind, null_kind, boolean_kind, string_kind, Value, scalar, array, object, no_items, item,
  no_members, member, Parsed, parsed, null, and_then, in_number, parse_number, matches_word,
  advance_by, null_word, true_word, false_word, parse_word, is_quote, parse_string, parse_name,
  closed, separated, parse_colon, parse_value, open_array, parse_items, open_object, parse_members,
}
use wire_format.Json5.Forward.{
  Forward, Forward-refl, Forward-trans, shorter, fail-Forward, fail-IsFailed, advance-Forward,
  advance-failure, take_while-Forward, take_while-failure, IsFailed,
}
use wire_format.Json5.Spaces.{not_end, length-advance, skip_space-Forward, skip_space-Quiet}
use wire_format.Json5.Literals.{
  Ends, Ends-trans, value-Ends, null-Ends, not_failed, string_bytes-Ends,
}

-- What the parse of a part gives: as `Ends`, but a value may come after an error.
abbrev Steps {ℓ} : {A : Type ℓ} → Parser → Parsed A → Type 0
Steps p none = ⊥
Steps p (some (none, q)) = Forward p q × IsFailed q
Steps p (some (some a, q)) = Forward p q

Ends-Steps {ℓ} : {A : Type ℓ} (p : Parser) (x : Parsed A) → Ends p x → Steps p x
Ends-Steps p none h = h.outcome
Ends-Steps p (some (none, q)) h = h.outcome
Ends-Steps p (some (some a, q)) h = h.outcome.0

and_then-Ends :
    {A B : Type 0} (p : Parser) (x : Parsed A) (f : A → Parser → Parsed B)
    → Steps p x
    → ((a : A) (q : Parser) → Forward p q → Ends q (f a q))
    → Ends p (and_then x f)
unfolding and_then
and_then-Ends p none f h g = elim h [ ]
and_then-Ends {A} {B} p (some (none, q)) f h g = null-Ends B h.0 h.1
and_then-Ends p (some (some a, q)) f h g = Ends-trans p q (f a q) h (g a q h)

-- The same, where the value comes without an error.
and_then-Ends_value :
    {A B : Type 0} (p : Parser) (x : Parsed A) (f : A → Parser → Parsed B)
    → Ends p x
    → ((a : A) (q : Parser) → Forward p q → q.failure ≡ none → Ends q (f a q))
    → Ends p (and_then x f)
unfolding and_then
and_then-Ends_value p none f h g = elim h.outcome [ ]
and_then-Ends_value {A} {B} p (some (none, q)) f h g = null-Ends B h.outcome.0 h.outcome.1
and_then-Ends_value p (some (some a, q)) f h g =
    Ends-trans p q (f a q) h.outcome.0 (g a q h.outcome.0 h.outcome.1)

parsed-Ends : {A : Type 0} (p : Parser) (a : A) → p.failure ≡ none → Ends p (parsed a p)
parsed-Ends p a h = value-Ends a (Forward-refl p) h

failing-Ends :
    (A : Type 0) (p q : Parser) (problem : Problem)
    → Forward p q
    → Ends {A = A} p (null (fail q problem))
failing-Ends A p q problem a =
    null-Ends A (Forward-trans a (fail-Forward q problem)) (fail-IsFailed q problem)

if-Ends :
    {A : Type 0} (b : Bool) (p : Parser) (x y : Parsed A)
    → (b ≡ true → Ends p x)
    → (b ≡ false → Ends p y)
    → Ends p (if b then x else y)
if-Ends true p x y f g = f refl
if-Ends false p x y f g = g refl

elim-Ends :
    {A : Type 0} (b : Bool) (p : Parser) (x y : Parsed A)
    → (b ≡ true → Ends p x)
    → (b ≡ false → Ends p y)
    → Ends p (elim b [ true ↦ x | false ↦ y ])
elim-Ends true p x y f g = f refl
elim-Ends false p x y f g = g refl

failed-IsFailed : (p : Parser) → failed p ≡ true → IsFailed p
failed-IsFailed p h = go p.failure refl h
  where
    go :
        (x : Option Failure)
        → p.failure ≡ x
        → elim x as (λ x. Bool) [ none ↦ false | some f ↦ true ] ≡ true
        → IsFailed p
    go none e k = cc
    go (some f) e k = (f, e)

advance_by-Forward : (n : ℕ) (p : Parser) → Forward p (advance_by n p)
unfolding advance_by
advance_by-Forward zero p = Forward-refl p
advance_by-Forward (suc n) p = Forward-trans (advance-Forward p) (advance_by-Forward n (advance p))

advance_by-failure : (n : ℕ) (p : Parser) → (advance_by n p).failure ≡ p.failure
unfolding advance_by
advance_by-failure zero p = refl
advance_by-failure (suc n) p = advance_by-failure n (advance p) ∙ advance-failure p

parse_number-Ends :
    (line column : ℕ) (p : Parser) → p.failure ≡ none → Ends p (parse_number line column p)
unfolding parse_number
parse_number-Ends line column p h =
    if-Ends (q.offset == p.offset) p _ _ (λ e. failing-Ends Value p q expected_value to_q)
      (λ e. value-Ends _ to_q (take_while-failure in_number p.rest p ∙ h))
  where
    q : Parser
    q = take_while in_number p.rest p

    to_q : Forward p q
    to_q = take_while-Forward in_number p.rest p refl

parse_word-Ends :
    (line column : ℕ) (p : Parser) → p.failure ≡ none → Ends p (parse_word line column p)
unfolding parse_word
parse_word-Ends line column p h =
    if-Ends (matches_word null_word p.rest) p _ _ (λ e. word 4 null_kind)
      λ a.
        if-Ends (matches_word true_word p.rest) p _ _ (λ e. word 4 (boolean_kind true))
          λ b.
            if-Ends (matches_word false_word p.rest) p _ _ (λ e. word 5 (boolean_kind false))
              λ c.
                if-Ends (at_end p.rest) p _ _
                  (λ e. failing-Ends Value p p expected_value (Forward-refl p))
                  λ d. parse_number-Ends line column p h
  where
    word : (n : ℕ) (kind : Kind) → Ends p (parsed (scalar line column kind) (advance_by n p))
    word n kind = value-Ends _ (advance_by-Forward n p) (advance_by-failure n p ∙ h)

parse_string-Ends :
    (fuel line column : ℕ) (p : Parser)
    → length p.rest < fuel
    → Ends p (parse_string fuel line column p)
unfolding parse_string
parse_string-Ends fuel line column p h =
    and_then-Ends_value p (string_bytes fuel p) _ (string_bytes-Ends fuel p h)
      (λ text q a e. parsed-Ends q (scalar line column (string_kind text)) e)

identifier-Steps : (p : Parser) → Steps p (some (identifier p))
unfolding identifier
identifier-Steps p = go (not (identifier_start (first p.rest)))
  where
    p₁ : Parser
    p₁ = advance p

    q : Parser
    q = take_while in_identifier p₁.rest p₁

    go :
        (b : Bool)
        → Steps {A = List ℕ} p
            (some (if b then (none, fail p expected_name) else (some (text_to p q), q)))
    go true = (fail-Forward p expected_name, fail-IsFailed p expected_name)
    go false = Forward-trans (advance-Forward p) (take_while-Forward in_identifier p₁.rest p₁ refl)

parse_name-Steps : (fuel : ℕ) (p : Parser) → length p.rest < fuel → Steps p (parse_name fuel p)
unfolding parse_name
parse_name-Steps fuel p h = go (is_quote (first p.rest))
  where
    go : (b : Bool) → Steps p (if b then string_bytes fuel p else some (identifier p))
    go true = Ends-Steps p (string_bytes fuel p) (string_bytes-Ends fuel p h)
    go false = identifier-Steps p

parse_colon-Steps : (p : Parser) → Steps p (parse_colon p)
unfolding parse_colon
parse_colon-Steps p = go (first p.rest == b':')
  where
    go :
        (b : Bool)
        → Steps {A = Unit {0}} p
            (if b then parsed tt (advance p) else null (fail (advance p) expected_colon))
    go true = advance-Forward p
    go false = (
      Forward-trans (advance-Forward p) (fail-Forward (advance p) expected_colon),
      fail-IsFailed (advance p) expected_colon,
    )

unnot : (b : Bool) → not b ≡ false → b ≡ true
unnot true e = refl
unnot false e = cc

-- A closing character ends the parse without an error.
closed-Ends :
    {A : Type 0} (close : ℕ) (nothing : A) (p : Parser)
    → (first p.rest == suc close) ≡ true
    → (at_end p.rest ≡ false → p.failure ≡ none)
    → Ends p (closed nothing p)
closed-Ends close nothing p e h =
    value-Ends nothing (advance-Forward p) (advance-failure p ∙ h (not_end p.rest close e))

separated-Ends :
    {A : Type 0} (close : ℕ) (problem : Problem) (nothing : A) (p : Parser)
    (more : Parser → Parsed A)
    → p.failure ≡ none
    → ((r : Parser) → length r.rest < length p.rest → Ends r (more r))
    → Ends p (separated (suc close) problem nothing p more)
unfolding separated
separated-Ends {A} close problem nothing p more h g =
    if-Ends _ p _ _
      (λ e. Ends-trans p q _ to_q (closed-Ends close nothing q e (λ k. skip_space-Quiet p k ∙ h)))
      λ n.
        if-Ends (not (first q.rest == b',')) p _ _
          (λ e. failing-Ends A p (advance q) problem (Forward-trans to_q (advance-Forward q)))
          λ c. comma (unnot (first q.rest == b',') c)
  where
    q : Parser
    q = skip_space p

    to_q : Forward p q
    to_q = skip_space-Forward p

    r : Parser
    r = skip_space (advance q)

    to_r : Forward (advance q) r
    to_r = skip_space-Forward (advance q)

    comma :
        (first q.rest == b',') ≡ true
        → Ends p (if first r.rest == suc close then closed nothing r else more r)
    comma e =
        let there : at_end q.rest ≡ false = not_end q.rest 43 e in
        let less : length r.rest < length p.rest =
          omega (arith, shorter to_q, shorter to_r, length-advance q there) in
        Ends-trans p r _ (Forward-trans to_q (Forward-trans (advance-Forward q) to_r)) (
          if-Ends _ r _ _
            (λ k. closed-Ends close nothing r k (λ l.
              skip_space-Quiet (advance q) l ∙ advance-failure q ∙ skip_space-Quiet p there ∙ h))
            (λ k. g r less))

-- The character at which a value is parsed, and what follows it.
bracket-Ends :
    {A : Type 0} (c : ℕ) (p : Parser) (x : Parsed A)
    → (first p.rest == suc c) ≡ true
    → p.failure ≡ none
    → (length (skip_space (advance p)).rest < length p.rest
        → (at_end (skip_space (advance p)).rest ≡ false → (skip_space (advance p)).failure ≡ none)
        → Ends (skip_space (advance p)) x)
    → Ends p x
bracket-Ends c p x e h g =
    let there : at_end p.rest ≡ false = not_end p.rest c e in
    let inside : Forward (advance p) (skip_space (advance p)) = skip_space-Forward (advance p) in
    Ends-trans p (skip_space (advance p)) x (Forward-trans (advance-Forward p) inside) (
      g (omega (arith, shorter inside, length-advance p there))
        (λ k. skip_space-Quiet (advance p) k ∙ advance-failure p ∙ h))

-- One induction on the fuel; a value needs three units for each character that is left, and three.
mutual
  unfolding parse_value open_array parse_items open_object parse_members

  pub parse_value-Ends :
      (fuel : ℕ) (p : Parser) → 3 * length p.rest + 3 ≤ fuel → Ends p (parse_value fuel p)
  parse_value-Ends zero p h = absurd (omega arith)
  parse_value-Ends (suc fuel) p h =
      let q = skip_space p in
      let less = shorter (skip_space-Forward p) in
      let inner = skip_space (advance q) in
      Ends-trans p q _ (skip_space-Forward p) (
        elim-Ends (failed q) q _ _ (λ e. null-Ends Value (Forward-refl q) (failed-IsFailed q e))
          λ f.
            let ok = not_failed q f in
            elim-Ends (first q.rest == b'{') q _ _
              (λ e. bracket-Ends 122 q _ e ok λ k s.
                and_then-Ends_value inner (open_object fuel inner) _
                  (open_object-Ends fuel inner (omega arith) s)
                  λ ms r a n. parsed-Ends r (object q.line q.column ms) n)
              λ g.
                elim-Ends (first q.rest == b'[') q _ _
                  (λ e. bracket-Ends 90 q _ e ok λ k s.
                    and_then-Ends_value inner (open_array fuel inner) _
                      (open_array-Ends fuel inner (omega arith) s)
                      λ xs r a n. parsed-Ends r (array q.line q.column xs) n)
                  λ i.
                    if-Ends (is_quote (first q.rest)) q _ _
                      (λ e. parse_string-Ends fuel q.line q.column q (omega arith))
                      (λ e. parse_word-Ends q.line q.column q ok))

  open_array-Ends :
      (fuel : ℕ) (p : Parser)
      → 3 * length p.rest + 5 ≤ fuel
      → (at_end p.rest ≡ false → p.failure ≡ none)
      → Ends p (open_array fuel p)
  open_array-Ends zero p h s = absurd (omega arith)
  open_array-Ends (suc fuel) p h s =
      elim-Ends (first p.rest == b']') p (closed no_items p) (parse_items fuel p)
        (λ e. closed-Ends 92 no_items p e s) (λ e. parse_items-Ends fuel p (omega arith))

  parse_items-Ends :
      (fuel : ℕ) (p : Parser) → 3 * length p.rest + 4 ≤ fuel → Ends p (parse_items fuel p)
  parse_items-Ends zero p h = absurd (omega arith)
  parse_items-Ends (suc fuel) p h =
      and_then-Ends_value p (parse_value fuel p) _ (parse_value-Ends fuel p (omega arith))
        λ x q a e.
          and_then-Ends_value q _ _
            (separated-Ends 92 expected_in_array no_items q (parse_items fuel) e
              (λ r less. parse_items-Ends fuel r (omega (arith, shorter a))))
            λ xs r b k. parsed-Ends r (item x xs) k

  open_object-Ends :
      (fuel : ℕ) (p : Parser)
      → 3 * length p.rest + 5 ≤ fuel
      → (at_end p.rest ≡ false → p.failure ≡ none)
      → Ends p (open_object fuel p)
  open_object-Ends zero p h s = absurd (omega arith)
  open_object-Ends (suc fuel) p h s =
      elim-Ends (first p.rest == b'}') p (closed no_members p) (parse_members fuel p)
        (λ e. closed-Ends 124 no_members p e s) (λ e. parse_members-Ends fuel p (omega arith))

  parse_members-Ends :
      (fuel : ℕ) (p : Parser) → 3 * length p.rest + 4 ≤ fuel → Ends p (parse_members fuel p)
  parse_members-Ends zero p h = absurd (omega arith)
  parse_members-Ends (suc fuel) p h =
      and_then-Ends p (parse_name fuel p) _ (parse_name-Steps fuel p (omega arith)) λ name q a.
        Ends-trans q (skip_space q) _ (skip_space-Forward q) (
          and_then-Ends (skip_space q) (parse_colon (skip_space q)) _
            (parse_colon-Steps (skip_space q))
            λ u r b.
              and_then-Ends_value r (parse_value fuel r) _
                (parse_value-Ends fuel r
                  (omega (arith, shorter a, shorter (skip_space-Forward q), shorter b)))
                λ x s c e.
                  and_then-Ends_value s _ _
                    (separated-Ends 124 expected_in_object no_members s (parse_members fuel) e
                      (λ t less. parse_members-Ends fuel t (
                        omega (
                          arith,
                          shorter a,
                          shorter (skip_space-Forward q),
                          shorter b,
                          shorter c,
                        ))))
                    λ ms t d k. parsed-Ends t (member name p.line p.column x ms) k)
