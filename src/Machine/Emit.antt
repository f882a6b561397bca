-- ===== src/Machine/Emit.antt =====
-- wire_format.c: the specifiers that emit the top of the stack (%% %c %b %w %W %q %d %r).
use wire_format.Base.{
  ℕ, zero, suc, ◌+◌, ◌-◌, ◌*◌, ◌/◌, ◌^◌, true, false, ◌&&◌, ◌||◌, not, List, [], ◌∷◌, ltb, ◌==◌,
  if◌then◌else◌, u8, u16, u32, u64, bit_and, bit_or,
}
use wire_format.Machine.State.{Vars, fail}
use wire_format.Machine.Buffer.{b_emit, emit_all, fs_pop, peek, advance}
use wire_format.Machine.Text.{is_digit}

unfoldable pub op_percent : Vars → Vars
op_percent v = b_emit v b'%'

unfoldable pub op_char : Vars → Vars
op_char v = let (n, v₁) = fs_pop v in b_emit v₁ (u8 n)

unfoldable pub op_byte : Vars → Vars
op_byte v = let (n, v₁) = fs_pop v in b_emit v₁ (u8 n)

unfoldable pub op_word : Vars → Vars
op_word v =
    let (n, v₁) = fs_pop v in
    let x = u16 n in b_emit (b_emit v₁ (u8 (x / 2 ^ 8))) (u8 (bit_and x 0xff))

unfoldable pub op_long : Vars → Vars
op_long v =
    let (n, v₁) = fs_pop v in
    let x = u32 n in
    let v₂ = b_emit v₁ (u8 (x / 2 ^ 24)) in
    let v₃ = b_emit v₂ (u8 (x / 2 ^ 16)) in
    let v₄ = b_emit v₃ (u8 (x / 2 ^ 8)) in b_emit v₄ (u8 (bit_and x 0xff))

-- The bytes of the loop of %q: `n` bytes are left, the next one at bit `8 * (n - 1)`.
unfoldable pub quad_bytes : ℕ → ℕ → List ℕ
quad_bytes zero x = []
quad_bytes (suc n) x = u8 (x / 2 ^ (8 * n)) ∷ quad_bytes n x

unfoldable pub op_quad : Vars → Vars
op_quad v = let (n, v₁) = fs_pop v in emit_all (quad_bytes 8 n) v₁

-- The number of groups of seven bits: the loop on `remaining`, which ends after nine shifts on
-- every uint64_t.
unfoldable pub sdnv_length : ℕ → ℕ → ℕ
sdnv_length zero remaining = 1
sdnv_length (suc rounds) remaining = elim (ltb 0x7f remaining) [
  | true ↦ suc (sdnv_length rounds (remaining / 2 ^ 7))
  | false ↦ 1
]

-- `encoded`, from the group with `n - 1` groups behind it: the top bit marks all but the last.
unfoldable pub sdnv_bytes : ℕ → ℕ → List ℕ
sdnv_bytes zero value = []
sdnv_bytes (suc n) value =
    let byte = bit_and (u64 (value / 2 ^ (n * 7))) 0x7f in
    (if n == 0 then byte else bit_or byte 0x80) ∷ sdnv_bytes n value

unfoldable pub op_sdnv : Vars → Vars
op_sdnv v = let (value, v₁) = fs_pop v in emit_all (sdnv_bytes (sdnv_length 9 value) value) v₁

-- The emits of one element of %r at address `p`; a uint16_t or uint32_t in memory has its low byte
-- first, and goes out high byte first.
unfoldable pub element_bytes : (ℕ → ℕ) → ℕ → ℕ → List ℕ
element_bytes memory size p =
    let at = λ (i : ℕ). memory (u64 (p + i)) in
    if size == 1
    then at 0 ∷ []
    else if size == 2
    then at 1 ∷ at 0 ∷ []
    else at 3 ∷ at 2 ∷ at 1 ∷ at 0 ∷ []

unfoldable pub emit_elements : ℕ → ℕ → ℕ → Vars → Vars
emit_elements zero size p v = v
emit_elements (suc n) size p v =
    emit_elements n size (p + size) (emit_all (element_bytes v.memory size p) v)

unfoldable pub emit_buffer : ℕ → Vars → Vars
emit_buffer size v =
    let (len, v₁) = fs_pop v in
    let (ptr, v₂) = fs_pop v₁ in
    if ptr == 0 && not (len == 0) then fail v₂ else emit_elements len size ptr v₂

-- %r, %r1, %r2 and %r4
unfoldable pub op_raw : Vars → Vars
op_raw v =
    let c = peek v.f_str in
    let size = c - b'0' in
    let v₁ = record v { f_str = advance v.f_str } in
    if is_digit c
    then if size == 1 || size == 2 || size == 4 then emit_buffer size v₁ else fail v₁
    else emit_buffer 1 v
