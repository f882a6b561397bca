-- ===== src/Records/Numbers.antt =====
-- compiler/records.c and wire_info.c: the numbers that the compiler prints, read by the loader.
use wire_format.Base.{
  ℕ, zero, suc, ◌+◌, ◌-◌, ◌*◌, ◌/◌, ◌%◌, ◌≤◌, ◌<◌, ◌≡◌, refl, sym, ap, ◌∙◌, arith, true, false,
  List, [], ◌∷◌, ◌++◌, append_assoc, ltb, leb, ◌==◌, u64_max, some, Bool-cases, inl, inr,
}
use wire_format.WireInfo.Program.{
  is_digit, identifier, literal_loop, literal, rows_loop, rows, among, operands, branching,
  branch_to, instruction,
}
use wire_format.Records.Emit.{decimal_loop, decimal, literal_text, braces, rows_text, plain_text}
use wire_format.Records.Steps.{IsName, Step, accept_next, identifier-braces, operands-Step}

-- A digit is added to the number so far.
literal_digit :
    (m d : ℕ) (t : List ℕ)
    → d < 10
    → m * 10 + d ≤ u64_max
    → literal_loop m ((b'0' + d) ∷ t) ≡ literal_loop (m * 10 + d) t
unfolding literal_loop
literal_digit m d t h k =
    let p : is_digit (b'0' + d) ≡ true = ground arith in
    let q : (b'0' + d) - b'0' ≡ d = omega arith in
    let r : ltb ((u64_max - d) / 10) m ≡ false = ground arith in rw (p, q, r) refl

decimal_small : (fuel n : ℕ) (s : List ℕ) → n < 10 → decimal_loop (suc fuel) n s ≡ (b'0' + n) ∷ s
unfolding decimal_loop
decimal_small fuel n s h = let p : ltb n 10 ≡ true = ground arith in rw (decimal_loop, p) refl

decimal_more :
    (fuel n : ℕ) (s : List ℕ)
    → 10 ≤ n
    → decimal_loop (suc fuel) n s ≡ decimal_loop fuel (n / 10) ((b'0' + n % 10) ∷ s)
unfolding decimal_loop
decimal_more fuel n s h = let p : ltb n 10 ≡ false = ground arith in rw (decimal_loop, p) refl

literal_loop-decimal :
    (fuel n : ℕ) (t s : List ℕ)
    → n < fuel
    → n ≤ u64_max
    → literal_loop 0 (decimal_loop fuel n t ++ s) ≡ literal_loop n (t ++ s)
literal_loop-decimal zero n t s h k = absurd (omega arith)
literal_loop-decimal (suc fuel) n t s h k = elim (Bool-cases (ltb n 10)) [
  | inl e ↦
      ap (λ (x : List ℕ). literal_loop 0 (x ++ s)) (decimal_small fuel n t (ground arith))
      ∙ literal_digit 0 n (t ++ s) (ground arith) (omega arith)
      ∙ ap (λ (x : ℕ). literal_loop x (t ++ s)) (let p : 0 * 10 + n ≡ n = omega arith in p)
  | inr e ↦
      let big : 10 ≤ n = ground arith in
      ap (λ (x : List ℕ). literal_loop 0 (x ++ s)) (decimal_more fuel n t big)
      ∙ literal_loop-decimal fuel (n / 10) ((b'0' + n % 10) ∷ t) s (omega arith) (omega arith)
      ∙ literal_digit (n / 10) (n % 10) (t ++ s) (omega arith) (omega arith)
      ∙ ap (λ (x : ℕ). literal_loop x (t ++ s))
          (let p : n / 10 * 10 + n % 10 ≡ n = omega arith in p)
]

-- The first character of a number.
decimal_first :
    (fuel n : ℕ) (t : List ℕ)
    → n < fuel
    → (c : ℕ) × (r : List ℕ) × (decimal_loop fuel n t ≡ c ∷ r) × (is_digit c ≡ true)
decimal_first zero n t h = absurd (omega arith)
decimal_first (suc fuel) n t h = elim (Bool-cases (ltb n 10)) [
  | inl e ↦ (b'0' + n, t, decimal_small fuel n t (ground arith), ground arith)
  | inr e ↦
      let big : 10 ≤ n = ground arith in
      let (c, r, p, d) = decimal_first fuel (n / 10) ((b'0' + n % 10) ∷ t) (omega arith) in
      (c, r, decimal_more fuel n t big ∙ p, d)
]

literal_first : (c : ℕ) (s : List ℕ) → is_digit c ≡ true → literal (c ∷ s) ≡ literal_loop 0 (c ∷ s)
unfolding literal
literal_first c s h = rw (h) refl

literal_close : (n : ℕ) (s : List ℕ) → literal_loop n (b'}' ∷ s) ≡ some s
unfolding literal_loop
literal_close n s = refl

literal-decimal :
    (n : ℕ) (s : List ℕ) → n ≤ u64_max → literal ((decimal n ++ (b'}' ∷ [])) ++ s) ≡ some s
literal-decimal n s h =
    let (c, r, p, d) = decimal_first (suc n) n [] (omega arith) in
    append_assoc'
    ∙ ap (λ (x : List ℕ). literal (x ++ (b'}' ∷ s))) p
    ∙ literal_first c (r ++ (b'}' ∷ s)) d
    ∙ ap (λ (x : List ℕ). literal_loop 0 (x ++ (b'}' ∷ s))) (sym p)
    ∙ literal_loop-decimal (suc n) n [] (b'}' ∷ s) (omega arith) h
    ∙ literal_close n s
  where
    append_assoc' : literal ((decimal n ++ (b'}' ∷ [])) ++ s) ≡ literal (decimal n ++ (b'}' ∷ s))
    append_assoc' = ap (λ (x : List ℕ). literal x) (append_assoc (decimal n) (b'}' ∷ []) s)

operands-literal : (rank : ℕ) (r : List ℕ) → operands rank b'{' r ≡ literal r
unfolding operands
operands-literal rank r = refl

pub literal-Step : (rank n : ℕ) (b : List ℕ) → n ≤ u64_max → Step rank b b (literal_text n)
literal-Step rank n b h =
    operands-Step rank b'{' b (decimal n ++ (b'}' ∷ [])) refl
      λ s. operands-literal rank ((decimal n ++ (b'}' ∷ [])) ++ s) ∙ literal-decimal n s h

rows_digit :
    (rank m d x : ℕ) (t : List ℕ)
    → x < 10
    → d < 2
    → rows_loop rank m d ((b'0' + x) ∷ t) ≡ rows_loop rank (m * 10 + x) (d + 1) t
unfolding rows_loop
rows_digit rank m d x t h k =
    let p : is_digit (b'0' + x) ≡ true = ground arith in
    let q : (b'0' + x) - b'0' ≡ x = omega arith in
    let r : ltb 2 (d + 1) ≡ false = ground arith in rw (p, q, r) refl

rows_close :
    (rank m d : ℕ) (t : List ℕ) → 0 < d → m < rank → rows_loop rank m d (b']' ∷ t) ≡ identifier t
unfolding rows_loop
rows_close rank m d t h k =
    let p : (d == 0) ≡ false = ground arith in
    let q : leb rank m ≡ false = ground arith in rw (p, q) refl

rows_number :
    (rank i : ℕ) (t : List ℕ)
    → i < rank
    → i < 100
    → rows_loop rank 0 0 (decimal i ++ (b']' ∷ t)) ≡ identifier t
rows_number rank zero t h k =
    ap (λ (x : List ℕ). rows_loop rank 0 0 (x ++ (b']' ∷ t))) (decimal_small 0 0 [] (omega arith))
    ∙ rows_digit rank 0 0 0 (b']' ∷ t) (omega arith) (omega arith)
    ∙ rows_close rank 0 1 t (omega arith) h
rows_number rank (suc j) t h k = elim (Bool-cases (ltb (suc j) 10)) [
  | inl e ↦
      let small : suc j < 10 = ground arith in
      ap (λ (x : List ℕ). rows_loop rank 0 0 (x ++ (b']' ∷ t)))
        (decimal_small (suc j) (suc j) [] small)
      ∙ rows_digit rank 0 0 (suc j) (b']' ∷ t) small (omega arith)
      ∙ rows_close rank (0 * 10 + suc j) 1 t (omega arith) (omega arith)
  | inr e ↦
      let big : 10 ≤ suc j = ground arith in
      let tens : suc j / 10 < 10 = omega arith in
      ap (λ (x : List ℕ). rows_loop rank 0 0 (x ++ (b']' ∷ t)))
        (decimal_more (suc j) (suc j) [] big
          ∙ decimal_small j (suc j / 10) ((b'0' + suc j % 10) ∷ []) tens)
      ∙ rows_digit rank 0 0 (suc j / 10) ((b'0' + suc j % 10) ∷ b']' ∷ t) tens (omega arith)
      ∙ rows_digit rank (0 * 10 + suc j / 10) 1 (suc j % 10) (b']' ∷ t) (omega arith) (omega arith)
      ∙ rows_close rank ((0 * 10 + suc j / 10) * 10 + suc j % 10) 2 t (omega arith) (omega arith)
]

operands-rows : (rank : ℕ) (r : List ℕ) → operands rank b'J' (b'[' ∷ r) ≡ rows_loop rank 0 0 r
unfolding operands rows
operands-rows rank r = refl

pub rows-Step :
    (rank i : ℕ) (b name : List ℕ)
    → i < rank
    → i < 100
    → IsName name
    → Step rank b b (rows_text (some i) name)
rows-Step rank i b name h k l =
    operands-Step rank b'J' b (b'[' ∷ (decimal i ++ (b']' ∷ braces name))) refl λ s.
      operands-rows rank ((decimal i ++ (b']' ∷ braces name)) ++ s)
      ∙ ap (λ (x : List ℕ). rows_loop rank 0 0 x) (append_assoc (decimal i) (b']' ∷ braces name) s)
      ∙ rows_number rank i (braces name ++ s) h k
      ∙ identifier-braces name s l

-- The operators of a conditional at the outermost level.
turn :
    (rank op : ℕ) (b b' : List ℕ)
    → among op branching ≡ true
    → branch_to op b ≡ some b'
    → Step rank b b' (plain_text op)
unfolding instruction
turn rank op b b' h k s a = accept_next rank op b b' s s (rw (instruction, h, k) refl) a

pub open-Step : (rank : ℕ) → Step rank [] (0 ∷ []) (plain_text b'?')
unfolding branch_to
open-Step rank = turn rank b'?' [] (0 ∷ []) refl refl

pub then-Step : (rank : ℕ) → Step rank (0 ∷ []) (1 ∷ []) (plain_text b't')
unfolding branch_to
then-Step rank = turn rank b't' (0 ∷ []) (1 ∷ []) refl refl

pub else-Step : (rank : ℕ) → Step rank (1 ∷ []) (2 ∷ []) (plain_text b'e')
unfolding branch_to
else-Step rank = turn rank b'e' (1 ∷ []) (2 ∷ []) refl refl

pub close-Step : (rank x : ℕ) → (x == 0) ≡ false → Step rank (x ∷ []) [] (plain_text b';')
unfolding branch_to
close-Step rank x h = turn rank b';' (x ∷ []) [] refl (rw (h) refl)
