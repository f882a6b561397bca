-- ===== src/Json5/Forward.antt =====
-- compiler/json5.c: every step of the parser eats a part of the text and keeps the first error.
use wire_format.Base.{
  ℕ, ◌+◌, ◌≤◌, ◌≡◌, refl, sym, ap, ◌∙◌, arith, Bool, true, false, List, [], ◌∷◌, ◌++◌, length,
  length-append, append_assoc, if◌then◌else◌, Option, none, some,
}
use wire_format.Json5.Scan.{Problem, Failure, Parser, fail, step, take_from, advance, take_while}

-- From `p` on: what was eaten stands before what is left, the offset counts it, and an error that
-- was set stays.
pub record Forward (p q : Parser) : Type 0 where
  pub eaten : List ℕ
  pub text : p.rest ≡ eaten ++ q.rest
  pub offset : q.offset ≡ p.offset + length eaten
  pub kept : (f : Failure) → p.failure ≡ some f → q.failure ≡ some f

pub Forward-refl : (p : Parser) → Forward p p
Forward-refl p = record { eaten = []; text = refl; offset = omega arith; kept = λ f e. e }

pub Forward-trans : {p q r : Parser} → Forward p q → Forward q r → Forward p r
Forward-trans {p} {q} {r} a b = record {
  eaten = a.eaten ++ b.eaten;
  text =
      a.text ∙ ap (λ (t : List ℕ). a.eaten ++ t) b.text ∙ sym (append_assoc a.eaten b.eaten r.rest);
  offset = omega (arith, a.offset, b.offset, length-append a.eaten b.eaten);
  kept = λ f e. b.kept f (a.kept f e);
}

pub length-Forward :
    {p q : Parser} (a : Forward p q) → length p.rest ≡ length a.eaten + length q.rest
length-Forward {p} {q} a = ap length a.text ∙ length-append a.eaten q.rest

pub shorter : {p q : Parser} → Forward p q → length q.rest ≤ length p.rest
shorter a = omega (arith, length-Forward a)

pub fail-Forward : (p : Parser) (problem : Problem) → Forward p (fail p problem)
unfolding fail
fail-Forward p problem = go p.failure refl
  where
    go :
        (x : Option Failure)
        → p.failure ≡ x
        → Forward p (elim x [
          | none ↦ record p {
            failure = some (record { line = p.line; column = p.column; problem = problem });
          }
          | some f ↦ p
        ])
    go none e = record { eaten = []; text = refl; offset = omega arith; kept = λ f h. cc }
    go (some g) e = Forward-refl p

-- After `fail` an error is set.
abbrev pub IsFailed : Parser → Type 0
IsFailed p = (f : Failure) × (p.failure ≡ some f)

pub fail-IsFailed : (p : Parser) (problem : Problem) → IsFailed (fail p problem)
unfolding fail
fail-IsFailed p problem = go p.failure refl
  where
    go :
        (x : Option Failure)
        → p.failure ≡ x
        → IsFailed (elim x [
          | none ↦ record p {
            failure = some (record { line = p.line; column = p.column; problem = problem });
          }
          | some f ↦ p
        ])
    go none e = (record { line = p.line; column = p.column; problem = problem }, refl)
    go (some g) e = (g, e)

pub IsFailed-kept : {p q : Parser} → Forward p q → IsFailed p → IsFailed q
IsFailed-kept a (f, e) = (f, a.kept f e)

step-Forward : (c : ℕ) (s : List ℕ) (p : Parser) → p.rest ≡ c ∷ s → Forward p (step c s p)
step-Forward c s p e = record { eaten = c ∷ []; text = e; offset = refl; kept = λ f h. h }

-- A step changes the failure in no way.
pub take_from-failure : (s : List ℕ) (p : Parser) → (take_from s p).failure ≡ p.failure
unfolding take_from
take_from-failure [] p = refl
take_from-failure (c ∷ s) p = refl

pub advance-failure : (p : Parser) → (advance p).failure ≡ p.failure
unfolding advance take_from
advance-failure p = take_from-failure p.rest p

pub advance-Forward : (p : Parser) → Forward p (advance p)
unfolding advance take_from
advance-Forward p = go p.rest refl
  where
    go : (s : List ℕ) → p.rest ≡ s → Forward p (take_from s p)
    go [] e = Forward-refl p
    go (c ∷ s) e = step-Forward c s p e

pub take_while-Forward :
    (more : List ℕ → Bool) (s : List ℕ) (p : Parser) → p.rest ≡ s → Forward p (take_while more s p)
unfolding take_while
take_while-Forward more [] p e = Forward-refl p
take_while-Forward more (c ∷ s) p e =
    go (more (c ∷ s))
      (Forward-trans (step-Forward c s p e) (take_while-Forward more s (step c s p) refl))
  where
    go :
        (b : Bool)
        → Forward p (take_while more s (step c s p))
        → Forward p (if b then take_while more s (step c s p) else p)
    go true a = a
    go false a = Forward-refl p

pub take_while-failure :
    (more : List ℕ → Bool) (s : List ℕ) (p : Parser) → (take_while more s p).failure ≡ p.failure
unfolding take_while
take_while-failure more [] p = refl
take_while-failure more (c ∷ s) p = go (more (c ∷ s)) (take_while-failure more s (step c s p))
  where
    go :
        (b : Bool)
        → (take_while more s (step c s p)).failure ≡ p.failure
        → (if b then take_while more s (step c s p) else p).failure ≡ p.failure
    go true a = a
    go false a = refl
