-- ===== src/Machine/RoundTrip/Words.antt =====
-- wire_format.c: %w with %S and %W with %L, which carry the low 16 or 32 bits of a value.
use wire_format.Base.{
  ℕ, ◌+◌, ◌*◌, ◌/◌, ◌^◌, ◌≤◌, ◌<◌, ◌≡◌, ap, ◌∙◌, arith, List, [], ◌∷◌, ◌++◌, length, u8, u16, u32,
  bit_or, bit_and, bit_or_fields, bit_and_low,
}
use wire_format.Machine.State.{Vars, stack_depth}
use wire_format.Machine.Buffer.{fs_push, fs_pop, b_read, b_emit, emit_all}
use wire_format.Machine.Emit.{op_word, op_long}
use wire_format.Machine.Read.{read_word, read_long}
use wire_format.Machine.RoundTrip.Ends.{writer, reader, push-reader, emit_all-writer}

-- The octets in the order that they are written.
abbrev pub word_octets : ℕ → List ℕ
word_octets x = u8 (u16 x / 2 ^ 8) ∷ u8 x ∷ []

abbrev pub long_octets : ℕ → List ℕ
long_octets x = u8 (u32 x / 2 ^ 24) ∷ u8 (u32 x / 2 ^ 16) ∷ u8 (u32 x / 2 ^ 8) ∷ u8 x ∷ []

low_octet : (x : ℕ) → u8 (bit_and x 0xff) ≡ u8 x
low_octet x = omega (arith, bit_and_low 8 x)

word_of_octets : (x : ℕ) → bit_or (u16 (u8 (u16 x / 2 ^ 8) * 2 ^ 8)) (u8 x) ≡ u16 x
word_of_octets x =
    ap (λ (t : ℕ). bit_or t (u8 x)) fits
    ∙ bit_or_fields 8 (u8 (u16 x / 2 ^ 8)) (u8 x) (omega arith)
    ∙ omega arith
  where
    fits : u16 (u8 (u16 x / 2 ^ 8) * 2 ^ 8) ≡ u8 (u16 x / 2 ^ 8) * 2 ^ 8
    fits = omega arith

four_fields :
    (a b c d : ℕ)
    → a < 256
    → b < 256
    → c < 256
    → d < 256
    → bit_or (bit_or (bit_or (u32 (a * 2 ^ 24)) (b * 2 ^ 16)) (c * 2 ^ 8)) d
      ≡ a * 2 ^ 24 + b * 2 ^ 16 + c * 2 ^ 8 + d
four_fields a b c d ha hb hc hd =
    ap (λ (t : ℕ). bit_or (bit_or t (c * 2 ^ 8)) d) two
    ∙ ap (λ (t : ℕ). bit_or t d)
        (bit_or_fields 16 (a * 256 + b) (c * 2 ^ 8) (omega arith) ∙ regroup)
    ∙ bit_or_fields 8 (a * 65536 + b * 256 + c) d hd
    ∙ omega arith
  where
    two : bit_or (u32 (a * 2 ^ 24)) (b * 2 ^ 16) ≡ (a * 256 + b) * 2 ^ 16
    two =
        ap (λ (t : ℕ). bit_or t (b * 2 ^ 16))
          (let p : u32 (a * 2 ^ 24) ≡ a * 2 ^ 24 = omega arith in p)
        ∙ bit_or_fields 24 a (b * 2 ^ 16) (omega arith)
        ∙ omega arith

    regroup : (a * 256 + b) * 2 ^ 16 + c * 2 ^ 8 ≡ (a * 65536 + b * 256 + c) * 2 ^ 8
    regroup = omega arith

long_of_octets :
    (x : ℕ)
    → bit_or
        (bit_or
          (bit_or (u32 (u8 (u32 x / 2 ^ 24) * 2 ^ 24)) (u8 (u32 x / 2 ^ 16) * 2 ^ 16))
          (u8 (u32 x / 2 ^ 8) * 2 ^ 8))
        (u8 x)
      ≡ u32 x
long_of_octets x =
    four_fields (u8 (u32 x / 2 ^ 24)) (u8 (u32 x / 2 ^ 16)) (u8 (u32 x / 2 ^ 8)) (u8 x)
      (omega arith) (omega arith) (omega arith) (omega arith)
    ∙ omega arith

-- Where the output has room for two octets, %w writes two for any value on the top of the stack;
-- where the stack has room, %S reads the low 16 bits of the value back from them, and leaves what
-- follows.
pub read_word-op_word :
    (v w : Vars) (x k : ℕ) (s t out rest : List ℕ)
    → length out + 2 ≤ v.out_size
    → length t < stack_depth
    → (op_word (writer v (x ∷ s) out) ≡ writer v s (out ++ word_octets x))
      × (read_word (reader w t (word_octets x ++ rest) k) ≡ reader w (u16 x ∷ t) rest (k + 1 + 1))
unfolding op_word read_word emit_all b_read fs_pop
read_word-op_word v w x k s t out rest hv ht = (
  ap (λ (z : ℕ). b_emit (b_emit (writer v s out) (u8 (u16 x / 2 ^ 8))) z)
        (low_octet (u16 x) ∙ (let p : u8 (u16 x) ≡ u8 x = omega arith in p))
      ∙ emit_all-writer v s (word_octets x) out (omega arith),
  ap (λ (z : ℕ). fs_push (reader w t rest (k + 1 + 1)) z) (word_of_octets x)
      ∙ push-reader w t rest (k + 1 + 1) (u16 x) ht,
)

-- Where the output has room for four octets, %W writes four for any value on the top of the stack;
-- where the stack has room, %L reads the low 32 bits of the value back from them, and leaves what
-- follows.
pub read_long-op_long :
    (v w : Vars) (x k : ℕ) (s t out rest : List ℕ)
    → length out + 4 ≤ v.out_size
    → length t < stack_depth
    → (op_long (writer v (x ∷ s) out) ≡ writer v s (out ++ long_octets x))
      × (read_long (reader w t (long_octets x ++ rest) k)
          ≡ reader w (u32 x ∷ t) rest (k + 1 + 1 + 1 + 1))
unfolding op_long read_long emit_all b_read fs_pop
read_long-op_long v w x k s t out rest hv ht = (
  ap
        (λ (z : ℕ).
          b_emit
            (b_emit (b_emit (b_emit (writer v s out) (u8 (u32 x / 2 ^ 24))) (u8 (u32 x / 2 ^ 16)))
              (u8 (u32 x / 2 ^ 8)))
            z)
        (low_octet (u32 x) ∙ (let p : u8 (u32 x) ≡ u8 x = omega arith in p))
      ∙ emit_all-writer v s (long_octets x) out (omega arith),
  ap (λ (z : ℕ). fs_push (reader w t rest (k + 1 + 1 + 1 + 1)) z) (long_of_octets x)
      ∙ push-reader w t rest (k + 1 + 1 + 1 + 1) (u32 x) ht,
)
