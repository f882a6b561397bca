-- ===== src/WireInfo/Passes.antt =====
-- wire_info.c and wire_format.c: a whole operator outside of the conditionals, passed over by
-- `skip_branch`.
use wire_format.Base.{
  ℕ, ◌≡◌, refl, ap, ◌∙◌, arith, Bool, true, false, ◌||◌, List, ◌==◌, if◌then◌else◌, Option, none,
  some,
}
use wire_format.Machine.Buffer.{peek}
use wire_format.Machine.Text.{Skip, plain, chars, braced, skip_op, skip_loop}
use wire_format.WireInfo.Program.{
  identifier, literal, rows, among, extension, named, bare, operands, branching,
}
use wire_format.WireInfo.Skips.{identifier-rest, rows-rest, literal-rest, extension-rest}

-- The interpreter's step over an operator outside of the conditionals.
abbrev pub Passes : ℕ → List ℕ → List ℕ → ℕ → Bool → Type 0
Passes op s r d a =
    (m : Skip) × (skip_op op s d a ≡ some (m, d)) × (skip_loop s m d a ≡ skip_loop r plain d a)

abbrev pub step_over : ℕ → List ℕ → ℕ → Option (Skip × ℕ)
step_over op s d =
    if op == b'{' || peek s == b'{'
    then some (braced, d)
    else if op == b'u'
    then some (chars 1, d)
    else some (plain, d)

pub skip_op-step_over :
    (op : ℕ) (s : List ℕ) (d : ℕ) (a : Bool)
    → (op == b'?') ≡ false
    → (op == b';') ≡ false
    → (op == b'e') ≡ false
    → (op == 0x27) ≡ false
    → skip_op op s d a ≡ step_over op s d
unfolding skip_op
skip_op-step_over op s d a h i j k = rw (h, i, j, k) refl

pub operands-Passes :
    (rank op : ℕ) (s r : List ℕ) (d : ℕ) (a : Bool)
    → (peek r == b'{') ≡ false
    → among op branching ≡ false
    → operands rank op s ≡ some r
    → Passes op s r d a
unfolding operands
operands-Passes rank op s r d a h b k =
    go (op == b'{') (among op named) (op == b'J') (op == b'u') (among op bare) refl refl refl refl
      refl k
  where
    go :
        (v w x y z : Bool)
        → (op == b'{') ≡ v
        → among op named ≡ w
        → (op == b'J') ≡ x
        → (op == b'u') ≡ y
        → among op bare ≡ z
        → (if v
            then literal s
            else if w
            then identifier s
            else if x
            then rows rank s
            else if y
            then extension s
            else if z
            then some s
            else none)
          ≡ some r
        → Passes op s r d a
    go true w x y z e f i j l g = (
      braced,
      skip_op-step_over op s d a (ground arith) (ground arith) (ground arith) (ground arith)
          ∙ rw (e) refl,
      literal-rest s r d a g,
    )
    go false true x y z e f i j l g =
        let (p, q, t) = identifier-rest s r d a g in
        (
          braced,
          skip_op-step_over op s d a (ground arith) (ground arith) (ground arith) (ground arith)
              ∙ rw (e, p) refl,
          t,
        )
    go false false true y z e f i j l g =
        let (p, q) = rows-rest rank s r d a g in
        let n : (op == b'u') ≡ false = ground arith in
        (
          plain,
          skip_op-step_over op s d a (ground arith) (ground arith) (ground arith) (ground arith)
              ∙ rw (e, p, n) refl,
          q,
        )
    go false false false true z e f i j l g =
        let (p, q) = extension-rest s r d a g in
        (
          chars 1,
          skip_op-step_over op s d a (ground arith) (ground arith) (ground arith) (ground arith)
              ∙ rw (e, p, j) refl,
          q,
        )
    go false false false false true e f i j l g =
        let same : s ≡ r = cc in
        let p : (peek s == b'{') ≡ false = ap (λ (t : List ℕ). peek t == b'{') same ∙ h in
        (
          plain,
          skip_op-step_over op s d a (ground arith) (ground arith) (ground arith) (ground arith)
              ∙ rw (e, p, j) refl,
          ap (λ (t : List ℕ). skip_loop t plain d a) same,
        )
    go false false false false false e f i j l g = cc
