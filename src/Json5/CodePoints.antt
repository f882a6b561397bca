-- ===== src/Json5/CodePoints.antt =====
-- compiler/json5.c and compiler/check.c: the bytes that `append_utf8` writes for a code point are
-- one sequence to `valid_utf8`, and `text_present` reads the code point back from them.
use wire_format.Base.{
  ℕ, suc, ◌+◌, ◌-◌, ◌*◌, ◌/◌, ◌%◌, ◌^◌, ◌≤◌, ◌<◌, ◌≡◌, refl, ap, ◌∙◌, arith, Bool, true, false, not,
  ◌&&◌, List, [], ◌∷◌, ◌++◌, leb, ltb, length, ◌==◌, if◌then◌else◌, Option, none, some, Bool-cases,
  inl, inr, bit_and, bit_or, bit_and_low, bit_or_fields, top_two, top_three, top_four,
}
use mathlib.Core.Path.{subst}
use wire_format.Json5.Utf8.{
  utf8_bytes, Head, utf8_head, Continued, bad_byte, codepoint_then, utf8_continue, bad_codepoint,
  bad_at, sequence_then, utf8_checked, utf8_sequence,
}
use wire_format.Compiler.Text.{more_bytes, codepoint_at}

-- One continuation byte, to either reader.
continue_step :
    (n i c b : ℕ) (s : List ℕ)
    → 128 ≤ b
    → b < 192
    → utf8_continue (suc n) i c (b ∷ s) ≡ utf8_continue n (i + 1) (c * 64 + b % 64) s
unfolding utf8_continue
continue_step n i c b s h k =
    pick (not (bit_and b 0xc0 == 0x80)) _ _ (ground (arith, top_two b))
    ∙ ap (λ (t : ℕ). utf8_continue n (i + 1) t s) (group c b)
  where
    pick : (t : Bool) (x y : Continued) → t ≡ false → (if t then x else y) ≡ y
    pick true x y e = cc
    pick false x y e = refl

    group : (x y : ℕ) → bit_or (x * 2 ^ 6) (bit_and y 0x3f) ≡ x * 64 + y % 64
    group x y = rw (bit_and_low 6 y) (bit_or_fields 6 x (y % 64) (omega arith))

more_step :
    (n c b : ℕ) (s : List ℕ) → more_bytes (suc n) c (b ∷ s) ≡ more_bytes n (c * 64 + b % 64) s
unfolding more_bytes
more_step n c b s =
    ap (λ (t : ℕ). more_bytes n t s)
      (rw (bit_and_low 6 b) (bit_or_fields 6 c (b % 64) (omega arith)))

-- The bytes as numbers.
low_byte : (x : ℕ) → bit_or 0x80 (bit_and x 0x3f) ≡ 128 + x % 64
low_byte x = rw (bit_and_low 6 x) (omega (arith, bit_or_fields 6 2 (x % 64) (omega arith)))

lead_two : (x : ℕ) → x < 32 → bit_or 0xc0 x ≡ 192 + x
lead_two x h = omega (arith, bit_or_fields 5 6 x h)

lead_three : (x : ℕ) → x < 16 → bit_or 0xe0 x ≡ 224 + x
lead_three x h = omega (arith, bit_or_fields 4 14 x h)

lead_four : (x : ℕ) → x < 8 → bit_or 0xf0 x ≡ 240 + x
lead_four x h = omega (arith, bit_or_fields 3 30 x h)

-- A sequence of several bytes, from its parts.
sequence_step :
    (offset b c : ℕ) (s rest : List ℕ) (head : Head)
    → 128 ≤ b
    → utf8_head b ≡ some head
    → head.count ≤ length s + 1
    → utf8_continue (head.count - 1) 1 head.codepoint s ≡ codepoint_then c rest
    → bad_codepoint head.minimum c ≡ false
    → utf8_sequence offset b s ≡ sequence_then head.count rest
unfolding utf8_sequence utf8_checked
sequence_step offset b c s rest head h e k t g = multi (ltb b 0x80) (utf8_head b) (ground arith) e
  where
    checked :
        (x : Continued)
        → x ≡ codepoint_then c rest
        → utf8_checked offset head x ≡ sequence_then head.count rest
    checked (bad_byte i) q = cc
    checked (codepoint_then c' rest') q = good (bad_codepoint head.minimum c') cc
      where
        good :
            (d : Bool)
            → d ≡ false
            → (if d then bad_at offset else sequence_then head.count rest')
              ≡ sequence_then head.count rest
        good true z = cc
        good false z = cc

    found :
        (d : Bool)
        → d ≡ false
        → (if d
            then bad_at offset
            else utf8_checked offset head (utf8_continue (head.count - 1) 1 head.codepoint s))
          ≡ sequence_then head.count rest
    found true z = cc
    found false z = checked (utf8_continue (head.count - 1) 1 head.codepoint s) t

    multi :
        (a : Bool) (x : Option Head)
        → a ≡ false
        → x ≡ some head
        → (if a then sequence_then 1 s else elim x [
          | none ↦ bad_at offset
          | some y ↦
              if ltb (length s + 1) y.count
              then bad_at offset
              else utf8_checked offset y (utf8_continue (y.count - 1) 1 y.codepoint s)
        ])
          ≡ sequence_then head.count rest
    multi true x z w = cc
    multi false none z w = cc
    multi false (some y) z w =
        let q : head ≡ y = cc in
        subst
          (λ (x : Head).
            (if ltb (length s + 1) x.count
              then bad_at offset
              else utf8_checked offset x (utf8_continue (x.count - 1) 1 x.codepoint s))
            ≡ sequence_then head.count rest)
          q (found (ltb (length s + 1) head.count) (ground arith))

-- What a reader of the bytes `b ∷ s`, with `rest` behind, finds.
record Reads (b : ℕ) (s rest : List ℕ) (c : ℕ) : Type 0 where
  checked : (offset : ℕ) → utf8_sequence offset b (s ++ rest) ≡ sequence_then (length s + 1) rest
  read : codepoint_at b (s ++ rest) ≡ some (c, rest)

one_byte : (c : ℕ) (rest : List ℕ) → c < 128 → Reads c [] rest c
unfolding utf8_sequence codepoint_at
one_byte c rest h = record { checked = λ offset. ground arith; read = ground arith }

-- The first byte, to either reader.
pick_code :
    {A : Type 0} (a b c : Bool) (w x y z : A)
    → a ≡ false
    → b ≡ true
    → (if a then w else if b then x else if c then y else z) ≡ x
pick_code true b c w x y z p q = cc
pick_code false true c w x y z p q = refl
pick_code false false c w x y z p q = cc

pub codepoint_two :
    (b : ℕ) (s : List ℕ) → 192 ≤ b → b < 224 → codepoint_at b s ≡ more_bytes 1 (b % 32) s
unfolding codepoint_at
codepoint_two b s h k =
    pick_code (ltb b 0x80) (bit_and b 0xe0 == 0xc0) (bit_and b 0xf0 == 0xe0) _ _ _ _ (ground arith)
      (ground (arith, top_three b))
    ∙ ap (λ (t : ℕ). more_bytes 1 t s) (bit_and_low 5 b)

pub codepoint_three :
    (b : ℕ) (s : List ℕ) → 224 ≤ b → b < 240 → codepoint_at b s ≡ more_bytes 2 (b % 16) s
unfolding codepoint_at
codepoint_three b s h k =
    three (ltb b 0x80) (bit_and b 0xe0 == 0xc0) (bit_and b 0xf0 == 0xe0) (ground arith)
      (ground (arith, top_three b)) (ground (arith, top_four b))
    ∙ ap (λ (t : ℕ). more_bytes 2 t s) (bit_and_low 4 b)
  where
    three :
        (x y z : Bool)
        → x ≡ false
        → y ≡ false
        → z ≡ true
        → (if x
            then some (b, s)
            else if y
            then more_bytes 1 (bit_and b 0x1f) s
            else if z
            then more_bytes 2 (bit_and b 0x0f) s
            else more_bytes 3 (bit_and b 0x07) s)
          ≡ more_bytes 2 (bit_and b 0x0f) s
    three x y z p q r = rw (p, q, r) refl

pub codepoint_four :
    (b : ℕ) (s : List ℕ) → 240 ≤ b → b < 248 → codepoint_at b s ≡ more_bytes 3 (b % 8) s
unfolding codepoint_at
codepoint_four b s h k =
    four (ltb b 0x80) (bit_and b 0xe0 == 0xc0) (bit_and b 0xf0 == 0xe0) (ground arith)
      (ground (arith, top_three b)) (ground (arith, top_four b))
    ∙ ap (λ (t : ℕ). more_bytes 3 t s) (bit_and_low 3 b)
  where
    four :
        (x y z : Bool)
        → x ≡ false
        → y ≡ false
        → z ≡ false
        → (if x
            then some (b, s)
            else if y
            then more_bytes 1 (bit_and b 0x1f) s
            else if z
            then more_bytes 2 (bit_and b 0x0f) s
            else more_bytes 3 (bit_and b 0x07) s)
          ≡ more_bytes 3 (bit_and b 0x07) s
    four x y z p q r = rw (p, q, r) refl

two_bytes :
    (c : ℕ) (rest : List ℕ)
    → 0x80 ≤ c
    → c ≤ 0x7ff
    → Reads (192 + c / 64) ((128 + c % 64) ∷ []) rest c
unfolding utf8_head utf8_continue more_bytes
two_bytes c rest h k = record {
  checked = λ offset.
      sequence_step offset b c (t ∷ rest) rest
        (record { count = 2; codepoint = bit_and b 0x1f; minimum = 0x80 }) (omega arith)
        (ground arith) (omega arith)
        (continue_step 0 1 (bit_and b 0x1f) t rest (omega arith) (omega arith)
          ∙ ap (λ (x : ℕ). codepoint_then x rest) (omega (arith, bit_and_low 5 b)))
        (ground arith);
  read =
      codepoint_two b (t ∷ rest) (omega arith) (omega arith)
      ∙ more_step 0 (b % 32) t rest
      ∙ ap (λ (x : ℕ). some (x, rest)) (omega arith);
}
  where
    b : ℕ
    b = 192 + c / 64

    t : ℕ
    t = 128 + c % 64

three_bytes :
    (c : ℕ) (rest : List ℕ)
    → 0x800 ≤ c
    → c ≤ 0xffff
    → (leb 0xd800 c && leb c 0xdfff) ≡ false
    → Reads (224 + c / 4096) ((128 + c / 64 % 64) ∷ (128 + c % 64) ∷ []) rest c
unfolding utf8_head utf8_continue more_bytes
three_bytes c rest h k n = record {
  checked = λ offset.
      sequence_step offset b c (u ∷ t ∷ rest) rest
        (record { count = 3; codepoint = bit_and b 0x0f; minimum = 0x800 }) (omega arith)
        (ground arith) (omega arith)
        (continue_step 1 1 (bit_and b 0x0f) u (t ∷ rest) (omega arith) (omega arith)
          ∙ continue_step 0 2 (bit_and b 0x0f * 64 + u % 64) t rest (omega arith) (omega arith)
          ∙ ap (λ (x : ℕ). codepoint_then x rest) (omega (arith, bit_and_low 4 b)))
        (ground arith);
  read =
      codepoint_three b (u ∷ t ∷ rest) (omega arith) (omega arith)
      ∙ more_step 1 (b % 16) u (t ∷ rest)
      ∙ more_step 0 (b % 16 * 64 + u % 64) t rest
      ∙ ap (λ (x : ℕ). some (x, rest)) (omega arith);
}
  where
    b : ℕ
    b = 224 + c / 4096

    u : ℕ
    u = 128 + c / 64 % 64

    t : ℕ
    t = 128 + c % 64

four_bytes :
    (c : ℕ) (rest : List ℕ)
    → 0x1_0000 ≤ c
    → c ≤ 0x10_ffff
    → Reads
        (240 + c / 0x4_0000)
        ((128 + c / 4096 % 64) ∷ (128 + c / 64 % 64) ∷ (128 + c % 64) ∷ [])
        rest
        c
unfolding utf8_head utf8_continue more_bytes
four_bytes c rest h k = record {
  checked = λ offset.
      sequence_step offset b c (w ∷ u ∷ t ∷ rest) rest
        (record { count = 4; codepoint = bit_and b 0x07; minimum = 0x1_0000 }) (omega arith)
        (ground arith) (omega arith)
        (continue_step 2 1 (bit_and b 0x07) w (u ∷ t ∷ rest) (omega arith) (omega arith)
          ∙ continue_step 1 2 (bit_and b 0x07 * 64 + w % 64) u (t ∷ rest) (omega arith)
              (omega arith)
          ∙ continue_step 0 3 ((bit_and b 0x07 * 64 + w % 64) * 64 + u % 64) t rest (omega arith)
              (omega arith)
          ∙ ap (λ (x : ℕ). codepoint_then x rest) (omega (arith, bit_and_low 3 b)))
        (ground arith);
  read =
      codepoint_four b (w ∷ u ∷ t ∷ rest) (omega arith) (omega arith)
      ∙ more_step 2 (b % 8) w (u ∷ t ∷ rest)
      ∙ more_step 1 (b % 8 * 64 + w % 64) u (t ∷ rest)
      ∙ more_step 0 ((b % 8 * 64 + w % 64) * 64 + u % 64) t rest
      ∙ ap (λ (x : ℕ). some (x, rest)) (omega arith);
}
  where
    b : ℕ
    b = 240 + c / 0x4_0000

    w : ℕ
    w = 128 + c / 4096 % 64

    u : ℕ
    u = 128 + c / 64 % 64

    t : ℕ
    t = 128 + c % 64

-- What `append_utf8` writes, in numbers.
module _ (c : ℕ) where
  bytes_one : leb c 0x7f ≡ true → utf8_bytes c ≡ some (c ∷ [])
  unfolding utf8_bytes
  bytes_one e = rw e (ap (λ (x : ℕ). some (x ∷ [])) (ground arith))

  bytes_two :
      leb c 0x7f ≡ false
      → leb c 0x7ff ≡ true
      → utf8_bytes c ≡ some ((192 + c / 64) ∷ (128 + c % 64) ∷ [])
  unfolding utf8_bytes
  bytes_two e f = rw (e, f, lead_two (c / 64) (ground arith), low_byte c) refl

  bytes_three :
      leb c 0x7f ≡ false
      → leb c 0x7ff ≡ false
      → leb c 0xffff ≡ true
      → utf8_bytes c ≡ some ((224 + c / 4096) ∷ (128 + c / 64 % 64) ∷ (128 + c % 64) ∷ [])
  unfolding utf8_bytes
  bytes_three e f g =
      rw (e, f, g, lead_three (c / 4096) (ground arith), low_byte c, low_byte (c / 64)) refl

  bytes_four :
      leb c 0x7f ≡ false
      → leb c 0x7ff ≡ false
      → leb c 0xffff ≡ false
      → leb c 0x10_ffff ≡ true
      → utf8_bytes c
        ≡ some (
            (240 + c / 0x4_0000)
            ∷ (128 + c / 4096 % 64)
            ∷ (128 + c / 64 % 64)
            ∷ (128 + c % 64)
            ∷ [])
  unfolding utf8_bytes
  bytes_four e f g i =
      rw
        (
          e,
          f,
          g,
          i,
          lead_four (c / 0x4_0000) (ground arith),
          low_byte c,
          low_byte (c / 64),
          low_byte (c / 4096),
        )
        refl

-- The bytes that `append_utf8` writes for a code point other than a surrogate are one sequence to
-- `valid_utf8`, at any offset and before any text, and `text_present` reads the code point back.
pub utf8_bytes-read :
    (c : ℕ) (rest : List ℕ)
    → c ≤ 0x10_ffff
    → (leb 0xd800 c && leb c 0xdfff) ≡ false
    → (b : ℕ) × (s : List ℕ) × (utf8_bytes c ≡ some (b ∷ s))
      × ((offset : ℕ) → utf8_sequence offset b (s ++ rest) ≡ sequence_then (length s + 1) rest)
      × (codepoint_at b (s ++ rest) ≡ some (c, rest))
utf8_bytes-read c rest h n = elim (Bool-cases (leb c 0x7f)) [
  | inl e ↦ let r = one_byte c rest (ground arith) in (c, [], bytes_one c e, r.checked, r.read)
  | inr e ↦ elim (Bool-cases (leb c 0x7ff)) [
    | inl f ↦
        let r = two_bytes c rest (ground arith) (ground arith) in
        (_, _, bytes_two c e f, r.checked, r.read)
    | inr f ↦ elim (Bool-cases (leb c 0xffff)) [
      | inl g ↦
          let r = three_bytes c rest (ground arith) (ground arith) n in
          (_, _, bytes_three c e f g, r.checked, r.read)
      | inr g ↦
          let r = four_bytes c rest (ground arith) h in
          (_, _, bytes_four c e f g (ground arith), r.checked, r.read)
    ]
  ]
]
