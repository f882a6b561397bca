-- ===== src/Machine/RoundTrip/Integers.antt =====
-- wire_format.c: %q with %Q, the 64-bit values.
use wire_format.Base.{
  ℕ, zero, suc, ◌+◌, ◌*◌, ◌/◌, ◌%◌, ◌^◌, ◌≤◌, ◌<◌, ◌≡◌, ap, ◌∙◌, arith, List, ◌∷◌, ◌++◌, length, u8,
  u64, IsU64, bit_or, or_octet, next_digits,
}
use native.Mathlib.Nat.{one-le-pow, div-le_self}
use native.Mathlib.Numerals.{towards_suc}
use wire_format.Machine.State.{Vars, stack_depth}
use wire_format.Machine.Buffer.{fs_push}
use wire_format.Machine.Emit.{quad_bytes, op_quad}
use wire_format.Machine.Read.{read_bytes, read_quad}
use wire_format.Machine.RoundTrip.Ends.{
  writer, reader, pop-writer, read-reader, push-reader, emit_all-writer,
}

eight_more : (n : ℕ) → 2 ^ (8 * suc n) ≡ 2 ^ (8 * n) * 2 ^ 8
eight_more n = ap (λ t. 2 ^ t) shift ∙ times (8 * n)
  where
    shift : 8 * suc n ≡ 8 * n + 8
    shift = omega arith

    times : (m : ℕ) → 2 ^ (m + 8) ≡ 2 ^ m * 2 ^ 8
    times m = simp towards_suc (omega arith)

next_octet :
    (y n : ℕ)
    → IsU64 y
    → bit_or (u64 (y / 2 ^ (8 * suc n) * 2 ^ 8)) (u8 (y / 2 ^ (8 * n))) ≡ y / 2 ^ (8 * n)
next_octet y n h = rw (eight_more n) (
    ap (λ t. bit_or t (u8 (y / a))) fits
    ∙ or_octet (y / (a * 2 ^ 8)) (u8 (y / a)) (omega arith)
    ∙ digits)
  where
    a : ℕ
    a = 2 ^ (8 * n)

    digits : y / (a * 2 ^ 8) * 2 ^ 8 + y / a % 2 ^ 8 ≡ y / a
    digits = next_digits y a 8 (one-le-pow (8 * n) 2 (omega arith))

    fits : u64 (y / (a * 2 ^ 8) * 2 ^ 8) ≡ y / (a * 2 ^ 8) * 2 ^ 8
    fits = omega (arith, digits, div-le_self y a)

-- The rounds of %Q that are left read the rest of the bytes of %q.
read_bytes-quad :
    (n y k : ℕ) (v : Vars) (s rest : List ℕ)
    → IsU64 y
    → read_bytes n (y / 2 ^ (8 * n)) (reader v s (quad_bytes n y ++ rest) k)
      ≡ (y, reader v s rest (k + n))
unfolding read_bytes quad_bytes
read_bytes-quad zero y k v s rest h = both (omega arith) (omega arith)
  where
    both :
        {a b c d : ℕ}
        → a ≡ b
        → c ≡ d
        → ◌≡◌ {A = ℕ × Vars} (a, reader v s rest c) (b, reader v s rest d)
    both p q = λ i. (p i, reader v s rest (q i))
read_bytes-quad (suc n) y k v s rest h =
    rw (read-reader, next_octet y n h)
      (read_bytes-quad n y (k + 1) v s rest h
        ∙ ap (λ (t : ℕ). (y, reader v s rest t)) (omega arith))

-- Where the output has room for eight octets, %q writes eight octets for a 64-bit pattern on the
-- top of the stack; where the stack has room, %Q reads that pattern back from them, and leaves
-- what follows.
pub read_quad-op_quad :
    (v w : Vars) (x k : ℕ) (s t out rest : List ℕ)
    → IsU64 x
    → length out + 8 ≤ v.out_size
    → length t < stack_depth
    → (op_quad (writer v (x ∷ s) out) ≡ writer v s (out ++ quad_bytes 8 x))
      × (read_quad (reader w t (quad_bytes 8 x ++ rest) k) ≡ reader w (x ∷ t) rest (k + 8))
unfolding op_quad read_quad
read_quad-op_quad v w x k s t out rest hx hv ht = (
  rw pop-writer (emit_all-writer v s (quad_bytes 8 x) out (unfold quad_bytes in hv)),
  ap (λ (p : ℕ × Vars). fs_push p.1 p.0) (start ∙ read_bytes-quad 8 x k w t rest hx)
      ∙ push-reader w t rest (k + 8) x ht,
)
  where
    start :
        read_bytes 8 0 (reader w t (quad_bytes 8 x ++ rest) k)
        ≡ read_bytes 8 (x / 2 ^ (8 * 8)) (reader w t (quad_bytes 8 x ++ rest) k)
    start = ap (λ (z : ℕ). read_bytes 8 z (reader w t (quad_bytes 8 x ++ rest) k)) (omega arith)
