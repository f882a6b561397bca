-- ===== src/Machine/Read.antt =====
-- wire_format.c: the specifiers that read big-endian integers and SDNVs (%B %S %L %Q %D).
use wire_format.Base.{
  ℕ, zero, suc, ◌*◌, ◌/◌, ◌^◌, ltb, ◌==◌, if◌then◌else◌, u16, u32, u64, u64_max, bit_and, bit_or,
}
use wire_format.Machine.State.{Vars, fail}
use wire_format.Machine.Buffer.{b_read, fs_push}

unfoldable pub read_byte : Vars → Vars
read_byte v = let (b, v₁) = b_read v in fs_push v₁ b

unfoldable pub read_word : Vars → Vars
read_word v =
    let (b₁, v₁) = b_read v in let (b₀, v₂) = b_read v₁ in fs_push v₂ (bit_or (u16 (b₁ * 2 ^ 8)) b₀)

unfoldable pub read_long : Vars → Vars
read_long v =
    let (b₃, v₁) = b_read v in
    let (b₂, v₂) = b_read v₁ in
    let (b₁, v₃) = b_read v₂ in
    let (b₀, v₄) = b_read v₃ in
    fs_push v₄ (bit_or (bit_or (bit_or (u32 (b₃ * 2 ^ 24)) (b₂ * 2 ^ 16)) (b₁ * 2 ^ 8)) b₀)

-- The loop of %Q: `rounds` bytes are left to read.
unfoldable pub read_bytes : ℕ → ℕ → Vars → ℕ × Vars
read_bytes zero x v = (x, v)
read_bytes (suc rounds) x v =
    let (b, v₁) = b_read v in read_bytes rounds (bit_or (u64 (x * 2 ^ 8)) b) v₁

unfoldable pub read_quad : Vars → Vars
read_quad v = let (x, v₁) = read_bytes 8 0 v in fs_push v₁ x

-- The loop of %D, with `rounds` bytes at most to come.
unfoldable pub sdnv_loop : ℕ → ℕ → Vars → Vars
sdnv_loop zero value v = fail v
sdnv_loop (suc rounds) value v =
    let (byte, v₁) = b_read v in
    let next = bit_or (u64 (value * 2 ^ 7)) (bit_and byte 0x7f) in
    let rest = sdnv_loop rounds next v₁ in
    if v₁.overrun
    then v₁
    else if ltb (u64_max / 2 ^ 7) value
    then fail v₁
    else if bit_and byte 0x80 == 0
    then fs_push v₁ next
    else rest

unfoldable pub read_sdnv : Vars → Vars
read_sdnv v = sdnv_loop 10 0 v
