-- ===== src/Machine/Arith.antt =====
-- wire_format.c: the logic, arithmetic and comparison specifiers. An int64_t is its bit pattern.
-- A sum, difference or product that leaves int64_t, and INT64_MIN / -1, are undefined in C; the
-- model wraps them, as two's-complement machines do.
use wire_format.Base.{
  ℕ, ◌+◌, ◌-◌, ◌*◌, ◌/◌, ◌%◌, ◌^◌, Bool, ◌&&◌, ◌||◌, not, ◌==◌, if◌then◌else◌, bit_and, bit_or,
  bit_xor, u32, u64, u64_max, is_negative, signed_ltb, of_bool,
}
use wire_format.Machine.State.{Vars}
use wire_format.Machine.Buffer.{fs_push, fs_pop}

-- `int64_t a = fs_pop(wi), b = fs_pop(wi); fs_push(wi, f b a)`
unfoldable pub binary : (ℕ → ℕ → ℕ) → Vars → Vars
binary f v = let (a, v₁) = fs_pop v in let (b, v₂) = fs_pop v₁ in fs_push v₂ (f b a)

abbrev pub nonzero : ℕ → Bool
nonzero a = not (a == 0)

-- `-x` and `|x|` on bit patterns.
abbrev pub negate : ℕ → ℕ
negate x = u64 (2 ^ 64 - x)

abbrev pub magnitude : ℕ → ℕ
magnitude x = if is_negative x then 2 ^ 64 - x else x

-- Division rounds towards 0; the remainder takes the sign of the dividend.
unfoldable pub signed_div : ℕ → ℕ → ℕ
signed_div b a =
    let q = magnitude b / magnitude a in
    let same = if is_negative b then is_negative a else not (is_negative a) in
    if same then u64 q else negate q

unfoldable pub signed_mod : ℕ → ℕ → ℕ
signed_mod b a = let r = magnitude b % magnitude a in if is_negative b then negate r else r

unfoldable pub op_and : Vars → Vars
op_and = binary bit_and

unfoldable pub op_andl : Vars → Vars
op_andl = binary (λ b a. of_bool (nonzero b && nonzero a))

unfoldable pub op_or : Vars → Vars
op_or = binary bit_or

unfoldable pub op_orl : Vars → Vars
op_orl = binary (λ b a. of_bool (nonzero b || nonzero a))

unfoldable pub op_xor : Vars → Vars
op_xor = binary bit_xor

-- `~x`
unfoldable pub op_not : Vars → Vars
op_not v = let (a, v₁) = fs_pop v in fs_push v₁ (u64_max - a)

-- `!x`
unfoldable pub op_notl : Vars → Vars
op_notl v = let (a, v₁) = fs_pop v in fs_push v₁ (of_bool (a == 0))

unfoldable pub op_plus : Vars → Vars
op_plus = binary (λ b a. u64 (b + a))

unfoldable pub op_minus : Vars → Vars
op_minus = binary (λ b a. u64 (b + 2 ^ 64 - a))

unfoldable pub op_star : Vars → Vars
op_star = binary (λ b a. u64 (b * a))

unfoldable pub op_div : Vars → Vars
op_div = binary (λ b a. if nonzero a then signed_div b a else 0)

unfoldable pub op_mod : Vars → Vars
op_mod = binary (λ b a. if nonzero a then signed_mod b a else 0)

unfoldable pub op_equals : Vars → Vars
op_equals = binary (λ b a. of_bool (b == a))

unfoldable pub op_greater : Vars → Vars
op_greater = binary (λ b a. of_bool (signed_ltb a b))

unfoldable pub op_less : Vars → Vars
op_less = binary (λ b a. of_bool (signed_ltb b a))

-- %E: raises fault bits.
unfoldable pub op_fault : Vars → Vars
op_fault v = let (n, v₁) = fs_pop v in record v₁ { faults = bit_or v₁.faults (u32 n) }
