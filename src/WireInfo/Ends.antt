-- ===== src/WireInfo/Ends.antt =====
-- wire_info.c: the scan of a program ends, since each operator takes two characters at least.
use wire_format.Base.{
  ℕ, zero, suc, ◌+◌, ◌-◌, ◌*◌, ◌≤◌, ◌<◌, ◌≡◌, refl, ap, ◌∙◌, sym, arith, Bool, true, false, List,
  [], ◌∷◌, ◌==◌, length, if◌then◌else◌, Option, none, some, inl, inr,
}
use wire_format.WireInfo.Program.{
  is_digit, name_loop, identifier, literal_loop, literal, rows_loop, rows, among, one_name,
  two_names, no_name, extension, named, bare, operands, instruction, program_loop, program_valid,
}
use wire_format.WireInfo.Skips.{
  name_loop-cases, literal_loop-cases, rows_loop-cases, name_loop_end, literal_loop_end,
  rows_loop_end,
}
use wire_format.WireInfo.Branches.{instruction-cases}

name_loop-length : (n : ℕ) (s r : List ℕ) → name_loop n s ≡ some r → length r ≤ length s
name_loop-length n [] r h = absurd (name_loop_end n r h)
name_loop-length n (c ∷ s) r h = elim (name_loop-cases n c s r h) [
  | inl (e, p) ↦ let l : length s ≡ length r = ap (λ (t : List ℕ). length t) p in omega arith
  | inr (e, f, k) ↦ omega (arith, name_loop-length (n + 1) s r k)
]

literal_loop-length : (n : ℕ) (s r : List ℕ) → literal_loop n s ≡ some r → length r ≤ length s
literal_loop-length n [] r h = absurd (literal_loop_end n r h)
literal_loop-length n (c ∷ s) r h = elim (literal_loop-cases n c s r h) [
  | inl (e, p) ↦ let l : length s ≡ length r = ap (λ (t : List ℕ). length t) p in omega arith
  | inr (e, k) ↦ omega (arith, literal_loop-length (n * 10 + (c - b'0')) s r k)
]

-- A parser that gives its text's tail, behind a test.
tested :
    {r : List ℕ} (s : List ℕ) (b : Bool) (x : Option (List ℕ))
    → (x ≡ some r → length r ≤ length s)
    → (if b then x else none) ≡ some r
    → length r ≤ length s
tested s true x k h = k h
tested s false x k h = cc

identifier-length : (s r : List ℕ) → identifier s ≡ some r → length r ≤ length s
unfolding identifier
identifier-length [] r h = cc
identifier-length (c ∷ s) r h =
    tested (c ∷ s) (c == b'{') (name_loop 0 s) (λ k. omega (arith, name_loop-length 0 s r k)) h

literal-length : (s r : List ℕ) → literal s ≡ some r → length r ≤ length s
unfolding literal
literal-length [] r h = cc
literal-length (c ∷ s) r h =
    tested (c ∷ s) (is_digit c) (literal_loop 0 (c ∷ s)) (literal_loop-length 0 (c ∷ s) r) h

rows_loop-length :
    (rank n d : ℕ) (s r : List ℕ) → rows_loop rank n d s ≡ some r → length r ≤ length s
rows_loop-length rank n d [] r h = absurd (rows_loop_end rank n d r h)
rows_loop-length rank n d (c ∷ s) r h =
    let (e, k) = rows_loop-cases rank n d c s r h in
    elim k [
      | inl g ↦ omega (arith, rows_loop-length rank (n * 10 + (c - b'0')) (d + 1) s r g)
      | inr g ↦ omega (arith, identifier-length s r g)
    ]

rows-length : (rank : ℕ) (s r : List ℕ) → rows rank s ≡ some r → length r ≤ length s
unfolding rows
rows-length rank [] r h = cc
rows-length rank (c ∷ s) r h =
    tested (c ∷ s) (c == b'[') (rows_loop rank 0 0 s)
      (λ k. omega (arith, rows_loop-length rank 0 0 s r k)) h

same_length : (r s : List ℕ) → some s ≡ some r → length r ≤ length s
same_length r s h =
    let p : r ≡ s = cc in
    let l : length r ≡ length s = ap (λ (t : List ℕ). length t) p in omega arith

extension-length : (s r : List ℕ) → extension s ≡ some r → length r ≤ length s
unfolding extension
extension-length [] r h = cc
extension-length (op ∷ s) r h =
    go (among op one_name) (among op two_names) (among op no_name) (identifier s) refl h
  where
    go :
        (x y z : Bool) (o : Option (List ℕ))
        → identifier s ≡ o
        → (if x
            then o
            else if y
            then elim o [ none ↦ none | some t ↦ identifier t ]
            else if z
            then some s
            else none)
          ≡ some r
        → length r ≤ suc (length s)
    go true y z o p g = omega (arith, identifier-length s r (p ∙ g))
    go false true z none p g = cc
    go false true z (some t) p g = omega (arith, identifier-length s t p, identifier-length t r g)
    go false false true o p g = omega (arith, same_length r s g)
    go false false false o p g = cc

operands-length : (rank op : ℕ) (s r : List ℕ) → operands rank op s ≡ some r → length r ≤ length s
unfolding operands
operands-length rank op s r h =
    go (op == b'{') (among op named) (op == b'J') (op == b'u') (among op bare) h
  where
    go :
        (v w x y z : Bool)
        → (if v
            then literal s
            else if w
            then identifier s
            else if x
            then rows rank s
            else if y
            then extension s
            else if z
            then some s
            else none)
          ≡ some r
        → length r ≤ length s
    go true w x y z g = literal-length s r g
    go false true x y z g = identifier-length s r g
    go false false true y z g = rows-length rank s r g
    go false false false true z g = extension-length s r g
    go false false false false true g = same_length r s g
    go false false false false false g = cc

instruction-length :
    (rank op : ℕ) (b s b' r : List ℕ) → instruction rank b op s ≡ some (b', r) → length r ≤ length s
instruction-length rank op b s b' r h = elim (instruction-cases rank op b s b' r h) [
  | inl (e, p, k) ↦ same_length r s (ap (λ (t : List ℕ). some t) (sym p))
  | inr (e, p, k) ↦ operands-length rank op s r k
]

program_round :
    (fuel rank : ℕ) (b s : List ℕ)
    → length s < suc fuel
    → ((b' r : List ℕ) → length r < fuel → (v : Bool) × (program_loop fuel rank b' r ≡ some v))
    → (v : Bool) × (program_loop (suc fuel) rank b s ≡ some v)
unfolding program_loop
program_round fuel rank [] [] h ih = (true, refl)
program_round fuel rank (x ∷ b) [] h ih = (false, refl)
program_round fuel rank [] (c ∷ []) h ih = (false, refl)
program_round fuel rank (x ∷ b) (c ∷ []) h ih = (false, refl)
program_round fuel rank b (c ∷ op ∷ s) h ih = go (c == b'%') (instruction rank b op s) refl
  where
    go :
        (t : Bool) (o : Option (List ℕ × List ℕ))
        → instruction rank b op s ≡ o
        → (v : Bool) × (elim t as (λ t. Option Bool) [
          | false ↦ some false
          | true ↦ elim o [ none ↦ some false | some (b', r) ↦ program_loop fuel rank b' r ]
        ]
            ≡ some v)
    go false o e = (false, refl)
    go true none e = (false, refl)
    go true (some (b', r)) e = ih b' r (omega (arith, instruction-length rank op b s b' r e))

program_loop-ends :
    (fuel rank : ℕ) (b s : List ℕ)
    → length s < fuel
    → (v : Bool) × (program_loop fuel rank b s ≡ some v)
program_loop-ends zero rank b s h = absurd (omega arith)
program_loop-ends (suc fuel) rank b s h =
    program_round fuel rank b s h (program_loop-ends fuel rank)

-- `program_valid` ends on every text.
pub program_valid-ends :
    (s : Option (List ℕ)) (rank : ℕ) → (v : Bool) × (program_valid s rank ≡ some v)
unfolding program_valid
program_valid-ends none rank = (false, refl)
program_valid-ends (some s) rank = program_loop-ends (suc (length s)) rank [] s (omega arith)
