-- ===== src/Json5/TextBounds.antt =====
-- compiler/json5.c and compiler/check.c: on a text that `valid_utf8` accepts, `text_present` stays
-- within the text.
use wire_format.Base.{
  ℕ, zero, suc, ◌+◌, ◌-◌, ◌*◌, ◌%◌, ◌^◌, ◌≤◌, ◌<◌, ◌≡◌, refl, ap, ◌∙◌, arith, Bool, true, false,
  not, ◌&&◌, List, [], ◌∷◌, leb, ltb, length, ◌==◌, if◌then◌else◌, Option, none, some, Bool-cases,
  inl, inr, ◌⊎◌, bit_and, bit_or,
}
use mathlib.Core.Path.{subst}
use wire_format.Json5.Utf8.{
  Validity, valid, bad_offset, Head, utf8_head, Continued, bad_byte, codepoint_then, utf8_continue,
  bad_codepoint, Sequence, bad_at, sequence_then, utf8_checked, utf8_sequence, utf8_loop,
  valid_utf8,
}
use wire_format.Json5.CodePoints.{codepoint_two, codepoint_three, codepoint_four}
use wire_format.Compiler.Text.{unicode_space, more_bytes, codepoint_at, text_loop, text_present}

-- The bytes that the check has found are there for the other reader, which ends at the same place.
abbrev Found : Option (ℕ × List ℕ) → List ℕ → Type 0
Found x rest = (c : ℕ) × (x ≡ some (c, rest))

continue-more :
    (n i c d e : ℕ) (s rest : List ℕ)
    → utf8_continue n i c s ≡ codepoint_then e rest
    → Found (more_bytes n d s) rest × (length rest ≤ length s)
unfolding utf8_continue more_bytes
continue-more zero i c d e s rest h =
    ((d, cc), omega (arith, ap length (let q : s ≡ rest = cc in q)))
continue-more (suc n) i c d e [] rest h = cc
continue-more (suc n) i c d e (b ∷ s) rest h = go (not (bit_and b 0xc0 == 0x80)) h (
    continue-more n (i + 1) (bit_or (c * 2 ^ 6) (bit_and b 0x3f))
      (bit_or (d * 2 ^ 6) (bit_and b 0x3f)) e s rest)
  where
    next : Continued
    next = utf8_continue n (i + 1) (bit_or (c * 2 ^ 6) (bit_and b 0x3f)) s

    more : Option (ℕ × List ℕ)
    more = more_bytes n (bit_or (d * 2 ^ 6) (bit_and b 0x3f)) s

    go :
        (t : Bool)
        → (if t then bad_byte i else next) ≡ codepoint_then e rest
        → (next ≡ codepoint_then e rest → Found more rest × (length rest ≤ length s))
        → Found more rest × (length rest ≤ suc (length s))
    go true k ih = cc
    go false k ih = let (f, l) = ih k in (f, omega arith)

-- What the first byte says of the count.
abbrev Counts : ℕ → Head → Type 0
Counts b h =
    ((192 ≤ b) × (b < 224) × (h.count ≡ 2))
    ⊎ (((224 ≤ b) × (b < 240) × (h.count ≡ 3)) ⊎ ((240 ≤ b) × (b < 248) × (h.count ≡ 4)))

utf8_head-Counts : (b : ℕ) (h : Head) → utf8_head b ≡ some h → Counts b h
unfolding utf8_head
utf8_head-Counts b h e = elim (Bool-cases (leb 0xc2 b && leb b 0xdf)) [
  | inl x ↦ inl (ground arith, ground arith, ground arith)
  | inr x ↦ elim (Bool-cases (leb 0xe0 b && leb b 0xef)) [
    | inl y ↦ inr (inl (ground arith, ground arith, ground arith))
    | inr y ↦ inr (inr (ground arith, ground arith, ground arith))
  ]
]

head-Found :
    (b : ℕ) (h : Head) (s rest : List ℕ)
    → Counts b h
    → ((d : ℕ) → Found (more_bytes (h.count - 1) d s) rest)
    → Found (codepoint_at b s) rest
head-Found b h s rest (inl (x, y, e)) f =
    let (c, q) = f (b % 32) in
    (c, codepoint_two b s x y ∙ ap (λ (n : ℕ). more_bytes n (b % 32) s) (omega arith) ∙ q)
head-Found b h s rest (inr (inl (x, y, e))) f =
    let (c, q) = f (b % 16) in
    (c, codepoint_three b s x y ∙ ap (λ (n : ℕ). more_bytes n (b % 16) s) (omega arith) ∙ q)
head-Found b h s rest (inr (inr (x, y, e))) f =
    let (c, q) = f (b % 8) in
    (c, codepoint_four b s x y ∙ ap (λ (n : ℕ). more_bytes n (b % 8) s) (omega arith) ∙ q)

checked-rest :
    (offset n : ℕ) (h : Head) (x : Continued) (rest : List ℕ)
    → utf8_checked offset h x ≡ sequence_then n rest
    → (e : ℕ) × (x ≡ codepoint_then e rest)
unfolding utf8_checked
checked-rest offset n h (bad_byte i) rest q = cc
checked-rest offset n h (codepoint_then c s) rest q = go (bad_codepoint h.minimum c) q
  where
    go :
        (t : Bool)
        → (if t then bad_at offset else sequence_then h.count s) ≡ sequence_then n rest
        → (e : ℕ) × (codepoint_then c s ≡ codepoint_then e rest)
    go true k = cc
    go false k = (c, ap (λ (t : List ℕ). codepoint_then c t) (let p : s ≡ rest = cc in p))

then_branch : {A : Type 0} (t : Bool) (x y z : A) → t ≡ true → (if t then x else y) ≡ z → x ≡ z
then_branch true x y z e q = q
then_branch false x y z e q = cc

else_branch : {A : Type 0} (t : Bool) (x y z : A) → t ≡ false → (if t then x else y) ≡ z → y ≡ z
else_branch true x y z e q = cc
else_branch false x y z e q = q

sequence_rest : (m n : ℕ) (s rest : List ℕ) → sequence_then m s ≡ sequence_then n rest → s ≡ rest
sequence_rest m n s rest q = cc

codepoint_one : (b : ℕ) (s : List ℕ) → ltb b 0x80 ≡ true → codepoint_at b s ≡ some (b, s)
unfolding codepoint_at
codepoint_one b s e = rw e refl

pub sequence-Found :
    (offset b n : ℕ) (s rest : List ℕ)
    → utf8_sequence offset b s ≡ sequence_then n rest
    → Found (codepoint_at b s) rest × (length rest ≤ length s)
unfolding utf8_sequence
sequence-Found offset b n s rest q = elim (Bool-cases (ltb b 0x80)) [
  | inl e ↦ (single e, omega (arith, ap length (same e)))
  | inr e ↦ several (utf8_head b) refl (tail e)
]
  where
    multi : Option Head → Sequence
    multi x = elim x [
      | none ↦ bad_at offset
      | some head ↦
          if ltb (length s + 1) head.count
          then bad_at offset
          else utf8_checked offset head (utf8_continue (head.count - 1) 1 head.codepoint s)
    ]

    same : ltb b 0x80 ≡ true → s ≡ rest
    same e =
        sequence_rest 1 n s rest
          (then_branch (ltb b 0x80) (sequence_then 1 s) (multi (utf8_head b)) _ e q)

    single : ltb b 0x80 ≡ true → Found (codepoint_at b s) rest
    single e = (b, codepoint_one b s e ∙ ap (λ (t : List ℕ). some (b, t)) (same e))

    tail : ltb b 0x80 ≡ false → multi (utf8_head b) ≡ sequence_then n rest
    tail e = else_branch (ltb b 0x80) (sequence_then 1 s) (multi (utf8_head b)) _ e q

    several :
        (x : Option Head)
        → utf8_head b ≡ x
        → multi x ≡ sequence_then n rest
        → Found (codepoint_at b s) rest × (length rest ≤ length s)
    several none e k = cc
    several (some h) e k = long (ltb (length s + 1) h.count) k
      where
        long :
            (t : Bool)
            → (if t
                then bad_at offset
                else utf8_checked offset h (utf8_continue (h.count - 1) 1 h.codepoint s))
              ≡ sequence_then n rest
            → Found (codepoint_at b s) rest × (length rest ≤ length s)
        long true m = cc
        long false m =
            let (c, z) =
              checked-rest offset n h (utf8_continue (h.count - 1) 1 h.codepoint s) rest m in
            (
              head-Found b h s rest (utf8_head-Counts b h e)
                  (λ d. (continue-more (h.count - 1) 1 h.codepoint d c s rest z).0),
              (continue-more (h.count - 1) 1 h.codepoint 0 c s rest z).1,
            )

text_loop-total :
    (fuel offset : ℕ) (s : List ℕ)
    → utf8_loop fuel offset s ≡ some valid
    → (b : Bool) × (text_loop fuel s ≡ some b)
unfolding utf8_loop text_loop
text_loop-total fuel offset [] h = (false, refl)
text_loop-total zero offset (b ∷ s) h = cc
text_loop-total (suc fuel) offset (b ∷ s) h =
    go (utf8_sequence offset b s) refl h (λ o rest k. text_loop-total fuel o rest k)
  where
    shown :
        (t : Bool) (rest : List ℕ)
        → (x : Bool) × (text_loop fuel rest ≡ some x)
        → (x : Bool) × (elim t [ true ↦ text_loop fuel rest | false ↦ some true ] ≡ some x)
    shown true rest r = r
    shown false rest r = (true, refl)

    present :
        (y : Option (ℕ × List ℕ)) (rest : List ℕ)
        → Found y rest
        → (x : Bool) × (text_loop fuel rest ≡ some x)
        → (x : Bool) × (elim y as (λ y. Option Bool) [
          | none ↦ none
          | some (codepoint, rest) ↦ elim (unicode_space codepoint) [
            | true ↦ text_loop fuel rest
            | false ↦ some true
          ]
        ]
            ≡ some x)
    present none rest (c, e) r = cc
    present (some (c', rest')) rest (c, e) r =
        shown (unicode_space c') rest'
          (let z : rest ≡ rest' = cc in subst (λ t. (x : Bool) × (text_loop fuel t ≡ some x)) z r)

    go :
        (x : Sequence)
        → utf8_sequence offset b s ≡ x
        → elim x as (λ x. Option Validity) [
          | bad_at bad ↦ some (bad_offset bad)
          | sequence_then count rest ↦ utf8_loop fuel (offset + count) rest
        ]
          ≡ some valid
        → ((o : ℕ) (rest : List ℕ)
            → utf8_loop fuel o rest ≡ some valid
            → (x : Bool) × (text_loop fuel rest ≡ some x))
        → (x : Bool) × (elim (codepoint_at b s) as (λ y. Option Bool) [
          | none ↦ none
          | some (codepoint, rest) ↦ elim (unicode_space codepoint) [
            | true ↦ text_loop fuel rest
            | false ↦ some true
          ]
        ]
            ≡ some x)
    go (bad_at bad) e k ih = cc
    go (sequence_then n rest) e k ih =
        present (codepoint_at b s) rest (sequence-Found offset b n s rest e).0
          (ih (offset + n) rest k)

-- On a text that `valid_utf8` accepts, `text_present` reads nothing beyond the end of the text.
pub text_present-total :
    (s : List ℕ) → valid_utf8 s ≡ some valid → (b : Bool) × (text_present s ≡ some b)
unfolding valid_utf8 text_present
text_present-total s h = text_loop-total (length s) 0 s h
