-- ===== src/WireInfo/Turns.antt =====
-- wire_info.c and wire_format.c: the operators of a conditional to the loader and to `skip_branch`.
use wire_format.Base.{
  ℕ, suc, ◌+◌, ◌-◌, ◌≡◌, refl, ◌∙◌, sym, arith, Bool, true, false, ◌||◌, List, [], ◌∷◌, ◌++◌, ◌==◌,
  length, if◌then◌else◌, Option, none, some, inl, inr, ◌⊎◌,
}
use wire_format.Machine.Buffer.{peek}
use wire_format.Machine.Text.{plain, skip_op}
use wire_format.WireInfo.Program.{among, branching, branch_to}

abbrev pub Stepped : ℕ → List ℕ → ℕ → List ℕ → List ℕ → Bool → List ℕ → Type 0
Stepped x b op s inner a b' =
    ((skip_op op s (length inner) a ≡ none) × ((((x == 1) ≡ true) × (b' ≡ 2 ∷ b)) ⊎ (b' ≡ b)))
    ⊎ ((inner' : List ℕ) × (b' ≡ inner' ++ (x ∷ b))
        × (skip_op op s (length inner) a ≡ some (plain, length inner')))

-- `branch_to` in an open conditional.
abbrev turned : Bool → Bool → Bool → ℕ → List ℕ → Option (List ℕ)
turned q t e x b =
    if q
    then if length (x ∷ b) == 64 then none else some (0 ∷ x ∷ b)
    else if t
    then if x == 0 then some (1 ∷ b) else none
    else if e
    then if x == 1 then some (2 ∷ b) else none
    else if x == 0
    then none
    else some b

branch_to-turned :
    (op x : ℕ) (b : List ℕ)
    → branch_to op (x ∷ b) ≡ turned (op == b'?') (op == b't') (op == b'e') x b
unfolding branch_to
branch_to-turned op x b = refl

some_if :
    {r : List ℕ} (b : Bool) (x : List ℕ)
    → (if b then none else some x) ≡ some r
    → (b ≡ false) × (r ≡ x)
some_if true x h = cc
some_if false x h = (refl, cc)

if_some :
    {r : List ℕ} (b : Bool) (x : List ℕ)
    → (if b then some x else none) ≡ some r
    → (b ≡ true) × (r ≡ x)
if_some true x h = (refl, cc)
if_some false x h = cc

-- The conditional that the skipped branch is in.
turned-here :
    (op x : ℕ) (b s b' : List ℕ) (a q t e c : Bool)
    → (x == 0) ≡ false
    → a ≡ (x == 1)
    → (op == b'?') ≡ q
    → (op == b't') ≡ t
    → (op == b'e') ≡ e
    → (op == b';') ≡ c
    → (q || t || e || c) ≡ true
    → turned q t e x b ≡ some b'
    → Stepped x b op s [] a b'
unfolding skip_op
turned-here op x b s b' a true t e c n m i j k l o h =
    let (f, g) = some_if (length (x ∷ b) == 64) (0 ∷ x ∷ b) h in inr (0 ∷ [], g, rw (i) refl)
turned-here op x b s b' a false true e c n m i j k l o h =
    let (f, g) = if_some (x == 0) (1 ∷ b) h in cc
turned-here op x b s b' a false false true c n m i j k l o h =
    let (f, g) = if_some (x == 1) (2 ∷ b) h in
    let p : (op == b';') ≡ false = ground arith in inl (rw (i, p, k, m, f) refl, inl (f, g))
turned-here op x b s b' a false false false true n m i j k l o h =
    let (f, g) = some_if (x == 0) b h in inl (rw (i, l) refl, inr g)
turned-here op x b s b' a false false false false n m i j k l o h = cc

-- A conditional inside of the skipped branch.
turned-inside :
    (op x y : ℕ) (inner b s b' : List ℕ) (a q t e c : Bool)
    → (peek s == b'{') ≡ false
    → (op == b'?') ≡ q
    → (op == b't') ≡ t
    → (op == b'e') ≡ e
    → (op == b';') ≡ c
    → (q || t || e || c) ≡ true
    → turned q t e y (inner ++ (x ∷ b)) ≡ some b'
    → Stepped x b op s (y ∷ inner) a b'
unfolding skip_op
turned-inside op x y inner b s b' a true t e c n i j k l o h =
    let (f, g) = some_if (length (y ∷ inner ++ (x ∷ b)) == 64) (0 ∷ y ∷ inner ++ (x ∷ b)) h in
    let more : suc (length inner) + 1 ≡ suc (suc (length inner)) = omega arith in
    inr (0 ∷ y ∷ inner, g, rw (i, more) refl)
turned-inside op x y inner b s b' a false true e c n i j k l o h =
    let (f, g) = if_some (y == 0) (1 ∷ inner ++ (x ∷ b)) h in
    let p : (op == b';') ≡ false = ground arith in
    let r : (op == b'e') ≡ false = ground arith in
    let u : (op == 0x27) ≡ false = ground arith in
    let v : (op == b'{') ≡ false = ground arith in
    let w : (op == b'u') ≡ false = ground arith in inr (1 ∷ inner, g, rw (i, p, r, u, v, n, w) refl)
turned-inside op x y inner b s b' a false false true c n i j k l o h =
    let (f, g) = if_some (y == 1) (2 ∷ inner ++ (x ∷ b)) h in
    let p : (op == b';') ≡ false = ground arith in
    let u : (op == 0x27) ≡ false = ground arith in
    let v : (op == b'{') ≡ false = ground arith in
    let w : (op == b'u') ≡ false = ground arith in
    let z : (suc (length inner) == 0) ≡ false = ground arith in
    inr (2 ∷ inner, g, rw (i, p, k, z, u, v, n, w) refl)
turned-inside op x y inner b s b' a false false false true n i j k l o h =
    let (f, g) = some_if (y == 0) (inner ++ (x ∷ b)) h in
    let z : (suc (length inner) == 0) ≡ false = ground arith in
    let w : suc (length inner) - 1 ≡ length inner = omega arith in
    inr (inner, g, rw (i, l, z, w) refl)
turned-inside op x y inner b s b' a false false false false n i j k l o h = cc

pub branch_to-Stepped :
    (op x : ℕ) (inner b s b' : List ℕ) (a : Bool)
    → (x == 0) ≡ false
    → a ≡ (x == 1)
    → (peek s == b'{') ≡ false
    → among op branching ≡ true
    → branch_to op (inner ++ (x ∷ b)) ≡ some b'
    → Stepped x b op s inner a b'
branch_to-Stepped op x [] b s b' a n m h o k =
    turned-here op x b s b' a (op == b'?') (op == b't') (op == b'e') (op == b';') n m refl refl refl
      refl (ground arith) (sym (branch_to-turned op x b) ∙ k)
branch_to-Stepped op x (y ∷ i) b s b' a n m h o k =
    turned-inside op x y i b s b' a (op == b'?') (op == b't') (op == b'e') (op == b';') h refl refl
      refl refl (ground arith) (sym (branch_to-turned op y (i ++ (x ∷ b))) ∙ k)
