-- ===== src/Json5/Spaces.antt =====
-- compiler/json5.c: what `skip_space` leaves alone, and how far a taken character brings the parser.
use wire_format.Base.{
  ℕ, zero, suc, ◌≡◌, refl, sym, ap, ◌∙◌, ◌<◌, arith, Bool, true, false, ◌&&◌, List, [], ◌∷◌, length,
  ◌==◌, if◌then◌else◌, Option, none, some,
}
use mathlib.Core.Path.{subst}
use wire_format.Json5.Scan.{
  Problem, Failure, Parser, fail, at_end, first, second, take_from, advance, take_while,
  unterminated_comment, blank, in_line, in_block, Round, stop, again, line_comment, block_end,
  block_comment, comment, skip_loop, or_endless, skip_space,
}
use wire_format.Json5.Forward.{
  Forward, Forward-refl, Forward-trans, fail-Forward, advance-Forward, advance-failure,
  take_while-Forward, take_while-failure, shorter,
}

-- A character other than 0 is there to be taken.
pub not_end : (s : List ℕ) (c : ℕ) → (first s == suc c) ≡ true → at_end s ≡ false
not_end [] c e = ground arith
not_end (d ∷ s) c e = refl

pub length-advance :
    (p : Parser) → at_end p.rest ≡ false → length p.rest ≡ suc (length (advance p).rest)
unfolding advance take_from
length-advance p h = go p.rest h refl
  where
    go : (s : List ℕ) → at_end s ≡ false → p.rest ≡ s → length s ≡ suc (length (take_from s p).rest)
    go [] e q = cc
    go (c ∷ s) e q = refl

-- A round goes forwards, and keeps the failure where any text is left.
abbrev pub Quiet : Parser → Parser → Type 0
Quiet p q = at_end q.rest ≡ false → q.failure ≡ p.failure

abbrev pub Tidy : Parser → Round → Type 0
Tidy p (stop q) = Forward p q × Quiet p q
Tidy p (again q) = Forward p q × (q.failure ≡ p.failure)

twice-Forward : (p : Parser) → Forward p (advance (advance p))
twice-Forward p = Forward-trans (advance-Forward p) (advance-Forward (advance p))

twice-failure : (p : Parser) → (advance (advance p)).failure ≡ p.failure
twice-failure p = advance-failure (advance p) ∙ advance-failure p

pub line_comment-Tidy : (p : Parser) → Tidy p (line_comment p)
unfolding line_comment
line_comment-Tidy p =
    let q = advance (advance p) in
    (
      Forward-trans (twice-Forward p) (take_while-Forward in_line q.rest q refl),
      take_while-failure in_line q.rest q ∙ twice-failure p,
    )

fail-rest : (p : Parser) (problem : Problem) → (fail p problem).rest ≡ p.rest
unfolding fail
fail-rest p problem = go p.failure refl
  where
    go :
        (x : Option Failure)
        → p.failure ≡ x
        → (elim x as (λ x. Parser) [
          | none ↦ record p {
            failure = some (record { line = p.line; column = p.column; problem = problem });
          }
          | some f ↦ p
        ]).rest
          ≡ p.rest
    go none e = refl
    go (some f) e = refl

block_end-Tidy : (p : Parser) → Tidy p (block_end p)
unfolding block_end
block_end-Tidy p = go (at_end p.rest) refl
  where
    go :
        (b : Bool)
        → at_end p.rest ≡ b
        → Tidy p (if b then stop (fail p unterminated_comment) else again (advance (advance p)))
    go true e = (
      fail-Forward p unterminated_comment,
      λ h.
          let k : at_end (fail p unterminated_comment).rest ≡ true =
            ap at_end (fail-rest p unterminated_comment) ∙ e in
          cc,
    )
    go false e = (twice-Forward p, twice-failure p)

block_comment-Tidy : (p : Parser) → Tidy p (block_comment p)
unfolding block_comment
block_comment-Tidy p = go (block_end r) (block_end-Tidy r)
  where
    q : Parser
    q = advance (advance p)

    r : Parser
    r = take_while in_block q.rest q

    to_r : Forward p r
    to_r = Forward-trans (twice-Forward p) (take_while-Forward in_block q.rest q refl)

    same : r.failure ≡ p.failure
    same = take_while-failure in_block q.rest q ∙ twice-failure p

    go : (x : Round) → Tidy r x → Tidy p x
    go (stop t) (a, b) = (Forward-trans to_r a, λ h. b h ∙ same)
    go (again t) (a, b) = (Forward-trans to_r a, b ∙ same)

comment-Tidy : (p : Parser) → Tidy p (comment p)
unfolding comment
comment-Tidy p =
    go (first p.rest == b'/' && second p.rest == b'/')
      (first p.rest == b'/' && second p.rest == b'*')
  where
    go : (a b : Bool) → Tidy p (if a then line_comment p else if b then block_comment p else stop p)
    go true b = line_comment-Tidy p
    go false true = block_comment-Tidy p
    go false false = (Forward-refl p, λ h. refl)

-- A round that goes on has eaten something.
abbrev Progress : Parser → Round → Type 0
Progress p (stop q) = Unit
Progress p (again q) = length q.rest < length p.rest

slash : (s : List ℕ) (b : Bool) → (first s == b'/' && b) ≡ true → at_end s ≡ false
slash s b e = not_end s 46 (go (first s == b'/') b e)
  where
    go : (a b : Bool) → (a && b) ≡ true → a ≡ true
    go true b e = refl
    go false b e = cc

line_comment-Progress : (p : Parser) → at_end p.rest ≡ false → Progress p (line_comment p)
unfolding line_comment
line_comment-Progress p h =
    let q = advance (advance p) in
    omega (
      arith,
      length-advance p h,
      shorter (advance-Forward (advance p)),
      shorter (take_while-Forward in_line q.rest q refl),
    )

block_comment-Progress : (p : Parser) → at_end p.rest ≡ false → Progress p (block_comment p)
unfolding block_comment block_end
block_comment-Progress p h = go (at_end r.rest)
  where
    q : Parser
    q = advance (advance p)

    r : Parser
    r = take_while in_block q.rest q

    go :
        (b : Bool)
        → Progress p (if b then stop (fail r unterminated_comment) else again (advance (advance r)))
    go true = tt
    go false = omega (
      arith,
      length-advance p h,
      shorter (advance-Forward (advance p)),
      shorter (take_while-Forward in_block q.rest q refl),
      shorter (twice-Forward r),
    )

comment-Progress : (p : Parser) → Progress p (comment p)
unfolding comment
comment-Progress p =
    go (first p.rest == b'/' && second p.rest == b'/')
      (first p.rest == b'/' && second p.rest == b'*') (slash p.rest (second p.rest == b'/'))
      (slash p.rest (second p.rest == b'*'))
  where
    go :
        (a b : Bool)
        → (a ≡ true → at_end p.rest ≡ false)
        → (b ≡ true → at_end p.rest ≡ false)
        → Progress p (if a then line_comment p else if b then block_comment p else stop p)
    go true b h k = line_comment-Progress p (h refl)
    go false true h k = block_comment-Progress p (k refl)
    go false false h k = tt

abbrev Skipped : ℕ → Parser → Type 0
Skipped fuel p = (q : Parser) × (skip_loop fuel p ≡ some q) × Forward p q × Quiet p q

-- With a fuel above the length of the text, the loop ends.
pub skip_loop-ends : (fuel : ℕ) (p : Parser) → length p.rest < fuel → Skipped fuel p
unfolding skip_loop
skip_loop-ends zero p l = absurd (omega arith)
skip_loop-ends (suc fuel) p l =
    go (comment q) (comment-Tidy q) (comment-Progress q)
      (λ r less. skip_loop-ends fuel r (omega (arith, shorter to_q)))
  where
    q : Parser
    q = take_while blank p.rest p

    to_q : Forward p q
    to_q = take_while-Forward blank p.rest p refl

    same : q.failure ≡ p.failure
    same = take_while-failure blank p.rest p

    go :
        (x : Round)
        → Tidy q x
        → Progress q x
        → ((r : Parser) → length r.rest < length q.rest → Skipped fuel r)
        → (s : Parser) × ((elim x as (λ x. Option Parser) [
          | stop r ↦ some r
          | again r ↦ skip_loop fuel r
        ])
            ≡ some s)
          × Forward p s
          × Quiet p s
    go (stop t) (a, b) less ih = (t, refl, Forward-trans to_q a, λ h. b h ∙ same)
    go (again t) (a, b) less ih =
        let (s, e, f, k) = ih t less in
        (s, e, Forward-trans to_q (Forward-trans a f), λ h. k h ∙ b ∙ same)

pub skip_space-Forward : (p : Parser) → Forward p (skip_space p)
unfolding skip_space
skip_space-Forward p =
    let (q, e, f, k) = skip_loop-ends (suc (length p.rest)) p (omega arith) in
    subst (λ (o : Option Parser). Forward p (or_endless p o)) (sym e) f

-- Space fails at the end of the text only.
pub skip_space-Quiet : (p : Parser) → Quiet p (skip_space p)
unfolding skip_space
skip_space-Quiet p =
    let (q, e, f, k) = skip_loop-ends (suc (length p.rest)) p (omega arith) in
    subst (λ (o : Option Parser). Quiet p (or_endless p o)) (sym e) k
