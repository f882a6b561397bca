-- ===== src/WireInfo/Branches.antt =====
-- wire_info.c and wire_format.c: a branch that the interpreter skips, in a program that the loader
-- let through.
use wire_format.Base.{
  ℕ, zero, suc, ◌≡◌, ◌≢◌, refl, ap, ◌∙◌, sym, arith, Bool, true, false, List, [], ◌∷◌, ◌++◌, ◌==◌,
  length, if◌then◌else◌, Option, none, some, inl, inr, ◌⊎◌,
}
use wire_format.Machine.Buffer.{peek}
use wire_format.Machine.State.{Vars}
use wire_format.Machine.Text.{skip_branch, Skip, plain, skip_op, skip_loop}
use wire_format.WireInfo.Program.{among, operands, branching, branch_to, instruction, program_loop}
use wire_format.WireInfo.Passes.{operands-Passes}
use wire_format.WireInfo.Turns.{branch_to-Stepped}

-- The rest of a program that the loader let through, with these conditionals open.
abbrev pub Accepts : ℕ → List ℕ → List ℕ → Type 0
Accepts rank b s = (fuel : ℕ) × (program_loop fuel rank b s ≡ some true)

program_loop-cases :
    (fuel rank c op : ℕ) (b s : List ℕ)
    → program_loop (suc fuel) rank b (c ∷ op ∷ s) ≡ some true
    → ((c == b'%') ≡ true)
      × (b' : List ℕ) × (r : List ℕ) × (instruction rank b op s ≡ some (b', r))
      × (program_loop fuel rank b' r ≡ some true)
unfolding program_loop
program_loop-cases fuel rank c op b s h = go (c == b'%') (instruction rank b op s) refl refl h
  where
    go :
        (v : Bool) (o : Option (List ℕ × List ℕ))
        → (c == b'%') ≡ v
        → instruction rank b op s ≡ o
        → elim v as (λ v. Option Bool) [
          | false ↦ some false
          | true ↦ elim o [ none ↦ some false | some (b', r) ↦ program_loop fuel rank b' r ]
        ]
          ≡ some true
        → ((c == b'%') ≡ true)
          × (b' : List ℕ) × (r : List ℕ) × (instruction rank b op s ≡ some (b', r))
          × (program_loop fuel rank b' r ≡ some true)
    go false o e f g = cc
    go true none e f g = cc
    go true (some (b', r)) e f g = (e, b', r, f, g)

program_loop-peek :
    (fuel rank : ℕ) (b s : List ℕ)
    → program_loop fuel rank b s ≡ some true
    → (peek s == b'{') ≡ false
program_loop-peek zero rank b s h = unfold program_loop in cc
program_loop-peek (suc fuel) rank b [] h = refl
program_loop-peek (suc fuel) rank b (c ∷ []) h = unfold program_loop in cc
program_loop-peek (suc fuel) rank b (c ∷ op ∷ s) h =
    let (e, b', r, f, g) = program_loop-cases fuel rank c op b s h in ground arith

pub instruction-cases :
    (rank op : ℕ) (b s b' r : List ℕ)
    → instruction rank b op s ≡ some (b', r)
    → ((among op branching ≡ true) × (r ≡ s) × (branch_to op b ≡ some b'))
      ⊎ ((among op branching ≡ false) × (b' ≡ b) × (operands rank op s ≡ some r))
unfolding instruction
instruction-cases rank op b s b' r h =
    go (among op branching) (branch_to op b) (operands rank op s) refl refl refl h
  where
    go :
        (v : Bool) (t u : Option (List ℕ))
        → among op branching ≡ v
        → branch_to op b ≡ t
        → operands rank op s ≡ u
        → (if v
            then elim t as (λ t. Option (List ℕ × List ℕ)) [ none ↦ none | some y ↦ some (y, s) ]
            else elim u [ none ↦ none | some y ↦ some (b, y) ])
          ≡ some (b', r)
        → ((among op branching ≡ true) × (r ≡ s) × (branch_to op b ≡ some b'))
          ⊎ ((among op branching ≡ false) × (b' ≡ b) × (operands rank op s ≡ some r))
    go true none u e f g k = cc
    go true (some y) u e f g k = inl (e, cc, cc)
    go false t none e f g k = cc
    go false t (some y) e f g k = inr (e, cc, cc)

program_loop_start : (rank : ℕ) (b s : List ℕ) → program_loop 0 rank b s ≢ some true
unfolding program_loop
program_loop_start rank b s h = cc

program_loop-open :
    (fuel rank x : ℕ) (inner b : List ℕ) → program_loop fuel rank (inner ++ (x ∷ b)) [] ≢ some true
unfolding program_loop
program_loop-open zero rank x inner b h = cc
program_loop-open (suc fuel) rank x [] b h = cc
program_loop-open (suc fuel) rank x (y ∷ i) b h = cc

program_loop-one : (fuel rank c : ℕ) (b : List ℕ) → program_loop fuel rank b (c ∷ []) ≢ some true
unfolding program_loop
program_loop-one zero rank c b h = cc
program_loop-one (suc fuel) rank c [] h = cc
program_loop-one (suc fuel) rank c (y ∷ b) h = cc

-- The interpreter's loop at an operator that steps over `m`, and at one that ends the branch.
skip_loop-over :
    (c op d e : ℕ) (s : List ℕ) (a : Bool) (m : Skip)
    → (c == b'%') ≡ true
    → skip_op op s d a ≡ some (m, e)
    → skip_loop (c ∷ op ∷ s) plain d a ≡ skip_loop s m e a
unfolding skip_loop
skip_loop-over c op d e s a m h k = rw (skip_loop, h, k) refl

skip_loop-ends :
    (c op d : ℕ) (s : List ℕ) (a : Bool)
    → (c == b'%') ≡ true
    → skip_op op s d a ≡ none
    → skip_loop (c ∷ op ∷ s) plain d a ≡ some s
unfolding skip_loop
skip_loop-ends c op d s a h k = rw (skip_loop, h, k) refl

-- Where the interpreter goes on: in the other branch, or behind the conditional.
abbrev pub Lands : ℕ → ℕ → List ℕ → List ℕ → Type 0
Lands rank x b s = (((x == 1) ≡ true) × Accepts rank (2 ∷ b) s) ⊎ Accepts rank b s

skip_loop-Lands :
    (fuel rank x : ℕ) (inner b s : List ℕ) (a : Bool)
    → (x == 0) ≡ false
    → a ≡ (x == 1)
    → program_loop fuel rank (inner ++ (x ∷ b)) s ≡ some true
    → (s' : List ℕ) × (skip_loop s plain (length inner) a ≡ some s') × Lands rank x b s'
skip_loop-Lands zero rank x inner b s a n m h =
    absurd (program_loop_start rank (inner ++ (x ∷ b)) s h)
skip_loop-Lands (suc fuel) rank x inner b [] a n m h =
    absurd (program_loop-open (suc fuel) rank x inner b h)
skip_loop-Lands (suc fuel) rank x inner b (c ∷ []) a n m h =
    absurd (program_loop-one (suc fuel) rank c (inner ++ (x ∷ b)) h)
skip_loop-Lands (suc fuel) rank x inner b (c ∷ op ∷ s) a n m h =
    let (e, b', r, f, g) = program_loop-cases fuel rank c op (inner ++ (x ∷ b)) s h in
    let p = program_loop-peek fuel rank b' r g in
    elim (instruction-cases rank op (inner ++ (x ∷ b)) s b' r f) [
      | inr (o, same, k) ↦
          let (mode, j, l) = operands-Passes rank op s r (length inner) a p o k in
          let (s', u, v) =
            skip_loop-Lands fuel rank x inner b r a n m
              (ap (λ (t : List ℕ). program_loop fuel rank t r) (sym same) ∙ g) in
          (s', skip_loop-over c op (length inner) (length inner) s a mode e j ∙ l ∙ u, v)
      | inl (o, same, k) ↦
          let q : (peek s == b'{') ≡ false = ap (λ (t : List ℕ). peek t == b'{') (sym same) ∙ p in
          let here : program_loop fuel rank b' s ≡ some true =
            ap (λ (t : List ℕ). program_loop fuel rank b' t) (sym same) ∙ g in
          elim (branch_to-Stepped op x inner b s b' a n m q o k) [
            | inl (j, inl (w, l)) ↦ (
              s,
              skip_loop-ends c op (length inner) s a e j,
              inl (w, (fuel, ap (λ (t : List ℕ). program_loop fuel rank t s) (sym l) ∙ here)),
            )
            | inl (j, inr l) ↦ (
              s,
              skip_loop-ends c op (length inner) s a e j,
              inr (fuel, ap (λ (t : List ℕ). program_loop fuel rank t s) (sym l) ∙ here),
            )
            | inr (i, l, j) ↦
                let (s', u, v) =
                  skip_loop-Lands fuel rank x i b s a n m
                    (ap (λ (t : List ℕ). program_loop fuel rank t s) (sym l) ∙ here) in
                (s', skip_loop-over c op (length inner) (length i) s a plain e j ∙ u, v)
          ]
    ]

skip_branch-goes :
    (v : Vars) (a : Bool) (s : List ℕ)
    → skip_loop v.f_str plain 0 a ≡ some s
    → skip_branch v a ≡ record v { f_str = s }
unfolding skip_branch
skip_branch-goes v a s h = rw (skip_branch, h) refl

-- In a program that `program_valid` lets through, %t and %e skip a branch without a failure: only
-- the place in the format changes, and what follows there is the rest of such a program, with the
-- other branch open behind %t, or with the conditional closed.
pub skip_branch-Lands :
    (v : Vars) (rank x : ℕ) (b : List ℕ) (a : Bool)
    → (x == 0) ≡ false
    → a ≡ (x == 1)
    → Accepts rank (x ∷ b) v.f_str
    → (s : List ℕ) × (skip_branch v a ≡ record v { f_str = s }) × Lands rank x b s
skip_branch-Lands v rank x b a n m (fuel, h) =
    let (s, e, l) = skip_loop-Lands fuel rank x [] b v.f_str a n m h in
    (s, skip_branch-goes v a s e, l)
