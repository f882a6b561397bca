-- ===== src/Machine/Extension.antt =====
-- wire_format_record.inc: the extensions behind %u, for a parse whose `record_scope` is NULL. What
-- names a record field fails there; what asks for the scope's base or index gets 0.
use wire_format.Base.{
  ℕ, zero, suc, ◌+◌, ◌-◌, ◌*◌, ◌/◌, ◌%◌, ◌^◌, Bool, true, false, ◌&&◌, ◌||◌, not, List, [], ◌∷◌,
  leb, ltb, ◌==◌, length, if◌then◌else◌, u64, u64_max, bit_and, bit_or, bit_xor, of_bool, Option,
  none, some,
}
use wire_format.Machine.State.{Vars, fail}
use wire_format.Machine.Buffer.{fs_push, fs_pop, peek, advance}
use wire_format.Machine.Arith.{nonzero}
use wire_format.Machine.Record.{
  record_operand, record_name, record_position, record_aligned, record_cbor, record_decimal,
  record_terminated,
}

-- %ua: pops a status and a condition, and fails where the condition is 0.
unfoldable pub ext_assert : Vars → Vars
ext_assert v =
    let (a, v₁) = fs_pop v in
    let (b, v₂) = fs_pop v₁ in if ltb 8 a || a == 0 || b == 0 then fail v₂ else v₂

-- %uf, and %uF: with no scope there is no checksum to finish.
unfoldable pub ext_aligned : Vars → Vars
ext_aligned v = if record_aligned v then v else fail v

-- %uI and %uC pop an argument, and %uU none, before the two names.
unfoldable pub ext_list_query : Bool → Vars → Vars
ext_list_query pops v =
    let (a, v₁) = fs_pop v in
    let v₂ = record_name (if pops then v₁ else v) in
    if v₂.overrun then v₂ else fail (record_name v₂)

-- %uK: the operand, three pops, and a return, since the operand is never found.
unfoldable pub ext_crc : Vars → Vars
ext_crc v = record_operand v

-- %ub: a CBOR head.
unfoldable pub ext_cbor : Vars → Vars
ext_cbor v =
    let (a, v₁) = fs_pop v in
    let (b, v₂) = fs_pop v₁ in
    let (n, v₃) = record_cbor v₂ a b in if ltb 4 a then fail v₂ else fs_push v₃ n

-- The loop of %us, over `octets` bytes.
unfoldable pub swap_octets : ℕ → ℕ → ℕ → ℕ
swap_octets zero b result = result
swap_octets (suc octets) b result =
    swap_octets octets (b / 2 ^ 8) (bit_or (u64 (result * 2 ^ 8)) (bit_and b 255))

unfoldable pub ext_swap : Vars → Vars
ext_swap v =
    let (a, v₁) = fs_pop v in
    let (b, v₂) = fs_pop v₁ in
    let n = swap_octets (a / 8) b 0 in
    if a == 0 || ltb 64 a || not (a % 8 == 0) || (ltb a 64 && not (b / 2 ^ a == 0))
    then fail v₂
    else fs_push v₂ n

-- %uh: pops the index, and fails on the operand.
unfoldable pub ext_octet : Vars → Vars
ext_octet v = let (a, v₁) = fs_pop v in record_operand v₁

unfoldable pub ext_remaining : Vars → Vars
ext_remaining v = fs_push v (if v.encoding then v.out_size - length v.out else length v.input)

unfoldable pub ext_position : Vars → Vars
ext_position v = fs_push v (record_position v)

unfoldable pub ext_zero : Vars → Vars
ext_zero v = fs_push v 0

-- %uk: the next input byte, which stays unread.
unfoldable pub ext_peek : Vars → Vars
ext_peek v = elim v.input [ [] ↦ fail v | b ∷ bs ↦ if v.decoding then fs_push v b else fail v ]

unfoldable pub ext_select : Vars → Vars
ext_select v =
    let (a, v₁) = fs_pop v in
    let (b, v₂) = fs_pop v₁ in let (c, v₃) = fs_pop v₂ in fs_push v₃ (if nonzero c then b else a)

unfoldable pub ext_not : Vars → Vars
ext_not v = let (a, v₁) = fs_pop v in fs_push v₁ (of_bool (a == 0))

-- The unsigned binary operators: `none` where the operator refuses its operands. A wrapped sum,
-- difference or product is refused, since the push behind `record_fail` does nothing.
abbrev pub guarded : Bool → ℕ → Option ℕ
guarded true n = some n
guarded false n = none

abbrev pub ext_operators : List (ℕ × (ℕ → ℕ → Option ℕ))
ext_operators =
    (b'+', λ a b. guarded (leb a (u64_max - b)) (a + b))
    ∷ (b'-', λ a b. guarded (leb b a) (a - b))
    ∷ (b'*', λ a b. guarded (b == 0 || leb a (u64_max / b)) (a * b))
    ∷ (b'/', λ a b. guarded (nonzero b) (a / b))
    ∷ (b'm', λ a b. guarded (nonzero b) (a % b))
    ∷ (b'&', λ a b. some (bit_and a b))
    ∷ (b'|', λ a b. some (bit_or a b))
    ∷ (b'^', λ a b. some (bit_xor a b))
    ∷ (b'[', λ a b. guarded (leb b 63) (u64 (a * 2 ^ b)))
    ∷ (b']', λ a b. guarded (leb b 63) (a / 2 ^ b))
    ∷ (b'=', λ a b. some (of_bool (a == b)))
    ∷ (b'~', λ a b. some (of_bool (not (a == b))))
    ∷ (b'<', λ a b. some (of_bool (ltb a b)))
    ∷ (b'l', λ a b. some (of_bool (leb a b)))
    ∷ (b'>', λ a b. some (of_bool (ltb b a)))
    ∷ (b'g', λ a b. some (of_bool (leb b a)))
    ∷ (b'A', λ a b. some (of_bool (nonzero a && nonzero b)))
    ∷ (b'O', λ a b. some (of_bool (nonzero a || nonzero b)))
    ∷ []

-- A handler by its character: the arms of a `switch`, or the rows of a dispatch table.
unfoldable pub find_handler {ℓ} : {A : Type ℓ} → ℕ → List (ℕ × A) → Option A
find_handler op [] = none
find_handler op ((c, h) ∷ rest) =
    let found = find_handler op rest in if c == op then some h else found

unfoldable pub push_result : Option ℕ → Vars → Vars
push_result none v = fail v
push_result (some n) v = fs_push v n

unfoldable pub ext_binary : Option (ℕ → ℕ → Option ℕ) → Vars → Vars
ext_binary operator v =
    let (b, v₁) = fs_pop v in
    let (a, v₂) = fs_pop v₁ in
    if v₂.overrun then v₂ else elim operator [ none ↦ fail v₂ | some f ↦ push_result (f a b) v₂ ]

abbrev pub ext_handlers : List (ℕ × (Vars → Vars))
ext_handlers =
    (b'Z', record_operand)
    ∷ (b'a', ext_assert)
    ∷ (b'f', ext_aligned)
    ∷ (b'F', ext_aligned)
    ∷ (b'K', ext_crc)
    ∷ (b'I', ext_list_query true)
    ∷ (b'U', ext_list_query false)
    ∷ (b'C', ext_list_query true)
    ∷ (b'd', record_decimal)
    ∷ (b'T', record_terminated)
    ∷ (b'b', ext_cbor)
    ∷ (b's', ext_swap)
    ∷ (b'h', ext_octet)
    ∷ (b'r', ext_remaining)
    ∷ (b'p', ext_position)
    ∷ (b'o', ext_zero)
    ∷ (b'n', ext_zero)
    ∷ (b'k', ext_peek)
    ∷ (b'?', ext_select)
    ∷ (b'!', ext_not)
    ∷ []

-- The handler found runs; any other character is looked up among the binary operators.
unfoldable pub run_ext : Option (Vars → Vars) → ℕ → Vars → Vars
run_ext (some handler) op v = handler v
run_ext none op v = ext_binary (find_handler op ext_operators) v

unfoldable pub record_extension : Vars → Vars
record_extension v =
    let op = peek v.f_str in
    if op == 0
    then fail v
    else run_ext (find_handler op ext_handlers) op (record v { f_str = advance v.f_str })
