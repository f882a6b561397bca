-- ===== src/Machine/RoundTrip/Sdnv.antt =====
-- wire_format.c: %d with %D, the self-delimiting numeric values.
use wire_format.Base.{
  ℕ, zero, suc, ◌+◌, ◌*◌, ◌/◌, ◌%◌, ◌^◌, ◌≤◌, ◌<◌, ◌≡◌, refl, sym, ap, ◌∙◌, arith, Bool, true,
  false, List, ◌∷◌, ◌++◌, length, u64, IsU64, u64_max, bit_or, bit_and, or_group, low_seven,
  mark_top, top_bit, next_digits, ltb, ◌==◌, if◌then◌else◌,
}
use native.Mathlib.Nat.{one-le-pow, div-le_self, div-div-eq-div-mul, div-eq_of_lt}
use native.Mathlib.Numerals.{towards_suc}
use wire_format.Machine.State.{Vars, stack_depth}
use wire_format.Machine.Buffer.{fs_push}
use wire_format.Machine.Emit.{sdnv_length, sdnv_bytes, op_sdnv}
use wire_format.Machine.Read.{sdnv_loop, read_sdnv}
use wire_format.Machine.RoundTrip.Ends.{
  writer, reader, pop-writer, read-reader, push-reader, emit_all-writer,
}

seven_more : (n : ℕ) → 2 ^ (suc n * 7) ≡ 2 ^ (n * 7) * 2 ^ 7
seven_more n = ap (λ t. 2 ^ t) shift ∙ times (n * 7)
  where
    shift : suc n * 7 ≡ n * 7 + 7
    shift = omega arith

    times : (m : ℕ) → 2 ^ (m + 7) ≡ 2 ^ m * 2 ^ 7
    times m = simp towards_suc (omega arith)

-- The octet of `sdnv_bytes` with `n` groups behind it.
abbrev octet : ℕ → ℕ → ℕ
octet n y = y / 2 ^ (n * 7) % 128 + (if n == 0 then 0 else 128)

byte-octet :
    (n y : ℕ)
    → IsU64 y
    → (if n == 0
        then bit_and (u64 (y / 2 ^ (n * 7))) 0x7f
        else bit_or (bit_and (u64 (y / 2 ^ (n * 7))) 0x7f) 0x80)
      ≡ octet n y
byte-octet n y h = go (n == 0) (y / 2 ^ (n * 7)) (omega (arith, div-le_self y (2 ^ (n * 7))))
  where
    go :
        (t : Bool) (z : ℕ)
        → IsU64 z
        → (if t then bit_and (u64 z) 0x7f else bit_or (bit_and (u64 z) 0x7f) 0x80)
          ≡ z % 128 + (if t then 0 else 128)
    go true z k = rw (low_seven (u64 z)) (omega arith)
    go false z k = rw (low_seven (u64 z), mark_top (u64 z % 128) (omega arith)) (omega arith)

-- The value read so far, with the group of that octet.
next_group :
    (n y : ℕ)
    → IsU64 y
    → bit_or (u64 (y / 2 ^ (suc n * 7) * 2 ^ 7)) (bit_and (octet n y) 0x7f) ≡ y / 2 ^ (n * 7)
next_group n y h =
    rw (seven_more n, low_octet)
      (ap (λ t. bit_or t (y / a % 128)) fits
        ∙ or_group (y / (a * 2 ^ 7)) (y / a % 128) (omega arith)
        ∙ digits)
  where
    a : ℕ
    a = 2 ^ (n * 7)

    low_octet : bit_and (octet n y) 0x7f ≡ y / a % 128
    low_octet = low_seven (octet n y) ∙ ground arith

    digits : y / (a * 2 ^ 7) * 2 ^ 7 + y / a % 2 ^ 7 ≡ y / a
    digits = next_digits y a 7 (one-le-pow (n * 7) 2 (omega arith))

    fits : u64 (y / (a * 2 ^ 7) * 2 ^ 7) ≡ y / (a * 2 ^ 7) * 2 ^ 7
    fits = omega (arith, digits, div-le_self y a)

-- The top bit tells whether groups follow.
marked : (n y : ℕ) → (bit_and (octet n y) 0x80 == 0) ≡ (n == 0)
marked n y = ap (λ t. t == 0) (top_bit (octet n y) (ground arith)) ∙ ground arith

-- The value read so far leaves room for one more group.
has_room : (n y : ℕ) → IsU64 y → ltb (u64_max / 2 ^ 7) (y / 2 ^ (suc n * 7)) ≡ false
has_room n y h = ground (arith, fits)
  where
    fits : y / 2 ^ (suc n * 7) ≤ u64_max / 2 ^ 7
    fits = rw (seven_more n, ← div-div-eq-div-mul) (omega (arith, div-le_self y (2 ^ (n * 7))))

both_tests :
    (a b c : Bool) (x y z : Vars)
    → a ≡ false
    → b ≡ c
    → (if a then x else if b then y else z) ≡ (if c then y else z)
both_tests true b c x y z p q = cc
both_tests false b c x y z p q = ap (λ (t : Bool). if t then y else z) q

-- One round of %D on an octet: the next round, or the end.
more_octets :
    (rounds n y k : ℕ) (v : Vars) (s rest : List ℕ)
    → IsU64 y
    → sdnv_loop (suc rounds) (y / 2 ^ (suc n * 7)) (reader v s (octet n y ∷ rest) k) ≡ (
        if n == 0
        then fs_push (reader v s rest (k + 1)) (y / 2 ^ (n * 7))
        else sdnv_loop rounds (y / 2 ^ (n * 7)) (reader v s rest (k + 1)))
unfolding sdnv_loop
more_octets rounds n y k v s rest h =
    rw (read-reader, next_group n y h) (both_tests _ _ _ _ _ _ (has_room n y h) (marked n y))

pub sdnv_loop-bytes :
    (n rounds y k : ℕ) (v : Vars) (s rest : List ℕ)
    → IsU64 y
    → n ≤ rounds
    → sdnv_loop (suc rounds) (y / 2 ^ (suc n * 7)) (reader v s (sdnv_bytes (suc n) y ++ rest) k)
      ≡ fs_push (reader v s rest (k + suc n)) y
unfolding sdnv_bytes
sdnv_loop-bytes zero rounds y k v s rest h hr =
    ap (λ (b : ℕ). sdnv_loop (suc rounds) (y / 2 ^ (1 * 7)) (reader v s (b ∷ rest) k))
      (byte-octet 0 y h)
    ∙ more_octets rounds 0 y k v s rest h
    ∙ ap (λ (t : ℕ). fs_push (reader v s rest (k + 1)) t) (omega arith)
sdnv_loop-bytes (suc n) zero y k v s rest h hr = absurd (omega arith)
sdnv_loop-bytes (suc n) (suc rounds) y k v s rest h hr =
    ap
      (λ (b : ℕ).
        sdnv_loop (suc (suc rounds)) (y / 2 ^ (suc (suc n) * 7))
          (reader v s (b ∷ (sdnv_bytes (suc n) y ++ rest)) k))
      (byte-octet (suc n) y h)
    ∙ more_octets (suc rounds) (suc n) y k v s (sdnv_bytes (suc n) y ++ rest) h
    ∙ ap
        (λ (t : Bool).
          if t
          then fs_push (reader v s (sdnv_bytes (suc n) y ++ rest) (k + 1)) (y / 2 ^ (suc n * 7))
          else sdnv_loop (suc rounds) (y / 2 ^ (suc n * 7))
              (reader v s (sdnv_bytes (suc n) y ++ rest) (k + 1)))
        (let p : (suc n == 0) ≡ false = ground arith in p)
    ∙ sdnv_loop-bytes n rounds y (k + 1) v s rest h (omega arith)
    ∙ ap (λ (t : ℕ). fs_push (reader v s rest t) y) (omega arith)

-- `sdnv_length` finds as many groups as the value has, and one at least.
pub sdnv_length-bounds :
    (f y : ℕ)
    → y < 2 ^ (suc f * 7)
    → (n : ℕ) × (sdnv_length f y ≡ suc n) × (n ≤ f) × (y < 2 ^ (suc n * 7))
unfolding sdnv_length
sdnv_length-bounds zero y h = (0, refl, omega arith, h)
sdnv_length-bounds (suc f) y h = go (ltb 0x7f y) refl (sdnv_length-bounds f (y / 2 ^ 7))
  where
    go :
        (t : Bool)
        → ltb 0x7f y ≡ t
        → (y / 2 ^ 7 < 2 ^ (suc f * 7)
            → (n : ℕ) × (sdnv_length f (y / 2 ^ 7) ≡ suc n)
              × (n ≤ f)
              × (y / 2 ^ 7 < 2 ^ (suc n * 7)))
        → (n : ℕ) × (elim t [ true ↦ suc (sdnv_length f (y / 2 ^ 7)) | false ↦ 1 ] ≡ suc n)
          × (n ≤ suc f)
          × (y < 2 ^ (suc n * 7))
    go true e shorter =
        let (n, p, q, b) = shorter (omega (arith, seven_more (suc f))) in
        (suc n, ap suc p, omega arith, omega (arith, seven_more (suc n)))
    go false e shorter = (0, refl, omega arith, ground arith)

length-sdnv_bytes : (n y : ℕ) → length (sdnv_bytes n y) ≡ n
unfolding sdnv_bytes
length-sdnv_bytes zero y = refl
length-sdnv_bytes (suc n) y = ap suc (length-sdnv_bytes n y)

-- Where the output has room, %d writes at most ten octets for a 64-bit pattern on the top of the
-- stack; where the stack has room, %D reads that pattern back from them, and leaves what follows.
pub read_sdnv-op_sdnv :
    (v w : Vars) (x k : ℕ) (s t out rest : List ℕ)
    → IsU64 x
    → length out + sdnv_length 9 x ≤ v.out_size
    → length t < stack_depth
    → (op_sdnv (writer v (x ∷ s) out) ≡ writer v s (out ++ sdnv_bytes (sdnv_length 9 x) x))
      × (read_sdnv (reader w t (sdnv_bytes (sdnv_length 9 x) x ++ rest) k)
          ≡ reader w (x ∷ t) rest (k + sdnv_length 9 x))
      × (sdnv_length 9 x ≤ 10)
unfolding op_sdnv read_sdnv
read_sdnv-op_sdnv v w x k s t out rest hx hv ht =
    let (n, p, q, b) = sdnv_length-bounds 9 x (omega arith) in
    (
      rw pop-writer (
          emit_all-writer v s (sdnv_bytes (sdnv_length 9 x) x) out
            (omega (arith, length-sdnv_bytes (sdnv_length 9 x) x))),
      rw p (
          ap (λ (z : ℕ). sdnv_loop 10 z (reader w t (sdnv_bytes (suc n) x ++ rest) k))
            (sym (div-eq_of_lt b))
          ∙ sdnv_loop-bytes n 9 x k w t rest hx q
          ∙ push-reader w t rest (k + suc n) x ht),
      omega (arith, p),
    )
