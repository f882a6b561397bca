-- ===== src/Crc/Tests.antt =====
-- wire_format.c and compiler/util.c: the checksum on concrete images, evaluated.
use wire_format.Base.{
  ℕ, zero, suc, ◌<◌, ◌≡◌, refl, arith, true, false, List, [], ◌∷◌, length, get_or, take, drop,
  replicate, some,
}
use wire_format.Crc.{
  crc_bit, crc_bits, counted, crc_loop, file_crc32c, stored_crc, file_crc32c_valid, wi_crc32c,
  wi_set_crc32c,
}
use wire_format.Crc.Stamp.{valid-set_crc32c}

-- The check value of CRC-32C.
nine_digits :
    file_crc32c (some (b'1' ∷ b'2' ∷ b'3' ∷ b'4' ∷ b'5' ∷ b'6' ∷ b'7' ∷ b'8' ∷ b'9' ∷ []))
    ≡ 0xe306_9283
unfolding file_crc32c crc_loop counted crc_bits crc_bit
nine_digits = refl

abbrev image : List ℕ
image = replicate 66 3

unstamped : file_crc32c_valid (some image) ≡ false
unfolding file_crc32c_valid stored_crc file_crc32c crc_loop counted crc_bits crc_bit
unstamped = refl

get_or-replicate : (n i : ℕ) → get_or (replicate n 3) i 0 < 256
get_or-replicate zero i = omega arith
get_or-replicate (suc n) zero = omega arith
get_or-replicate (suc n) (suc i) = get_or-replicate n i

valid-set_crc32c_example :
    (file_crc32c_valid (some (wi_set_crc32c image)) ≡ true)
    × (length (wi_set_crc32c image) ≡ 66)
    × (wi_crc32c (wi_set_crc32c image) ≡ wi_crc32c image)
    × (take 60 (wi_set_crc32c image) ≡ replicate 60 3)
    × (drop 64 (wi_set_crc32c image) ≡ 3 ∷ 3 ∷ [])
valid-set_crc32c_example = valid-set_crc32c image (get_or-replicate 66) (omega arith)
