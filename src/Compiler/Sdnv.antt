-- ===== src/Compiler/Sdnv.antt =====
-- compiler/check.c: self-delimiting numeric values in a vector's wire octets.
use wire_format.Base.{
  ℕ, zero, suc, ◌+◌, ◌-◌, ◌*◌, ◌/◌, ◌^◌, List, [], ◌∷◌, ltb, ◌==◌, length, set, get_or,
  if◌then◌else◌, u8, u64, u64_max, bit_and, bit_or, Option, none, some,
}

-- The loop on `remaining`, for the length: it ends after nine shifts on every uint64_t.
unfoldable pub vector_length : ℕ → ℕ → ℕ → ℕ
vector_length zero remaining length = length
vector_length (suc rounds) remaining length =
    let rest = vector_length rounds (remaining / 2 ^ 7) (length + 1) in
    if ltb 0x7f remaining then rest else length

-- `encoded`, from `index` on, with `n` octets left.
unfoldable pub encoded_octets : ℕ → ℕ → ℕ → ℕ → List ℕ
encoded_octets zero index length value = []
encoded_octets (suc n) index length value =
    let octet = u8 (bit_and (value / 2 ^ ((length - index - 1) * 7)) 0x7f) in
    (if index + 1 == length then octet else bit_or octet 0x80)
    ∷ encoded_octets n (index + 1) length value

-- `memcpy(output + position, bytes, …)`
unfoldable pub copy_at : List ℕ → ℕ → List ℕ → List ℕ
copy_at output position [] = output
copy_at output position (b ∷ bs) = copy_at (set output position b) (suc position) bs

-- The buffer and the position behind the value, or `none` where it does not fit.
unfoldable pub write_sdnv_vector : List ℕ → ℕ → ℕ → ℕ → Option (List ℕ × ℕ)
write_sdnv_vector output capacity position value =
    let count = vector_length 9 value 1 in
    if ltb (capacity - position) count
    then none
    else some (copy_at output position (encoded_octets count 0 count value), position + count)

unfoldable pub read_sdnv_loop : ℕ → ℕ → List ℕ → ℕ → ℕ → Option (ℕ × ℕ)
read_sdnv_loop zero value input count position = none
read_sdnv_loop (suc rounds) value input count position =
    let byte = get_or input position 0 in
    let next = bit_or (u64 (value * 2 ^ 7)) (bit_and byte 0x7f) in
    let rest = read_sdnv_loop rounds next input count (position + 1) in
    if position == count
    then none
    else if ltb (u64_max / 2 ^ 7) value
    then none
    else if bit_and byte 0x80 == 0
    then some (next, position + 1)
    else rest

-- The value and the position behind it.
unfoldable pub read_sdnv_vector : List ℕ → ℕ → ℕ → Option (ℕ × ℕ)
read_sdnv_vector input count position = read_sdnv_loop 10 0 input count position
