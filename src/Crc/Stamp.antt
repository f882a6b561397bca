-- ===== src/Crc/Stamp.antt =====
-- wire_format.c and compiler/util.c: an image that the compiler has stamped is accepted by the
-- runtime, and its other bytes are untouched.
use wire_format.Base.{
  ℕ, zero, suc, ◌+◌, ◌-◌, ◌*◌, ◌/◌, ◌%◌, ◌^◌, ◌≤◌, ◌<◌, ◌≡◌, refl, ap, ◌∙◌, sym, arith, true, false,
  ◌&&◌, List, [], ◌∷◌, length, leb, ltb, ◌==◌, if◌then◌else◌, get_or, set, take, drop, length-set,
  some, u8, u32, bit_and, bit_or, bit_xor, bit_xor-lt, bit_or_above, bit_and-le,
}
use wire_format.Crc.{
  crc_bit, crc_bits, counted, crc_loop, file_crc32c, stored_crc, file_crc32c_valid, wi_crc32c,
  wi_set_crc32c,
}

get_or-set_self : (xs : List ℕ) (i v : ℕ) → i < length xs → get_or (set xs i v) i 0 ≡ v
get_or-set_self [] i v h = absurd (omega arith)
get_or-set_self (x ∷ xs) zero v h = refl
get_or-set_self (x ∷ xs) (suc i) v h = get_or-set_self xs i v (omega arith)

pub get_or-set_other :
    (xs : List ℕ) (i j v : ℕ) → (i == j) ≡ false → get_or (set xs i v) j 0 ≡ get_or xs j 0
get_or-set_other [] i j v h = refl
get_or-set_other (x ∷ xs) zero zero v h = cc
get_or-set_other (x ∷ xs) zero (suc j) v h = refl
get_or-set_other (x ∷ xs) (suc i) zero v h = refl
get_or-set_other (x ∷ xs) (suc i) (suc j) v h = get_or-set_other xs i j v (ground arith)

take-set : (n : ℕ) (xs : List ℕ) (i v : ℕ) → n ≤ i → take n (set xs i v) ≡ take n xs
take-set zero xs i v h = refl
take-set (suc n) [] i v h = refl
take-set (suc n) (x ∷ xs) zero v h = absurd (omega arith)
take-set (suc n) (x ∷ xs) (suc i) v h = ap (λ (t : List ℕ). x ∷ t) (take-set n xs i v (omega arith))

drop-set : (n : ℕ) (xs : List ℕ) (i v : ℕ) → i < n → drop n (set xs i v) ≡ drop n xs
drop-set zero xs i v h = absurd (omega arith)
drop-set (suc n) [] i v h = refl
drop-set (suc n) (x ∷ xs) zero v h = refl
drop-set (suc n) (x ∷ xs) (suc i) v h = drop-set n xs i v (omega arith)

-- A byte of the field does not count.
crc_loop-set :
    (xs : List ℕ) (k i v crc : ℕ)
    → 60 ≤ k + i
    → k + i < 64
    → crc_loop k (set xs i v) crc ≡ crc_loop k xs crc
unfolding crc_loop counted
crc_loop-set [] k i v crc h g = refl
crc_loop-set (x ∷ xs) k zero v crc h g =
    ap (λ (b : ℕ). crc_loop (k + 1) xs (crc_bits 8 (bit_xor crc b))) skipped
  where
    skipped : (if leb 60 k && ltb k 64 then 0 else v) ≡ (if leb 60 k && ltb k 64 then 0 else x)
    skipped = ground arith
crc_loop-set (x ∷ xs) k (suc i) v crc h g =
    crc_loop-set xs (k + 1) i v _ (omega arith) (omega arith)

crc_bit-lt : (crc : ℕ) → crc < 2 ^ 32 → crc_bit crc < 2 ^ 32
unfolding crc_bit
crc_bit-lt crc h =
    bit_xor-lt 32 (crc / 2) (bit_and 0x82f6_3b78 (u32 (2 ^ 32 - bit_and crc 1))) (omega arith)
      (omega (arith, bit_and-le 0x82f6_3b78 (u32 (2 ^ 32 - bit_and crc 1))))

crc_bits-lt : (n crc : ℕ) → crc < 2 ^ 32 → crc_bits n crc < 2 ^ 32
unfolding crc_bits
crc_bits-lt zero crc h = h
crc_bits-lt (suc n) crc h = crc_bits-lt n (crc_bit crc) (crc_bit-lt crc h)

-- The field's four bytes make up the word.
pub four_octets :
    (c : ℕ)
    → c < 2 ^ 32
    → bit_or
        (bit_or (bit_or (u8 c) (u8 (c / 2 ^ 8) * 2 ^ 8)) (u8 (c / 2 ^ 16) * 2 ^ 16))
        (u8 (c / 2 ^ 24) * 2 ^ 24)
      ≡ c
four_octets c h = rw (low, mid, high) (omega arith)
  where
    low : bit_or (u8 c) (u8 (c / 2 ^ 8) * 2 ^ 8) ≡ c % 2 ^ 16
    low = omega (arith, bit_or_above 8 (u8 (c / 2 ^ 8)) (u8 c) (omega arith))

    mid : bit_or (c % 2 ^ 16) (u8 (c / 2 ^ 16) * 2 ^ 16) ≡ c % 2 ^ 24
    mid = omega (arith, bit_or_above 16 (u8 (c / 2 ^ 16)) (c % 2 ^ 16) (omega arith))

    high : bit_or (c % 2 ^ 24) (u8 (c / 2 ^ 24) * 2 ^ 24) ≡ c
    high = omega (arith, bit_or_above 24 (u8 (c / 2 ^ 24)) (c % 2 ^ 24) (omega arith))

counted-lt : (j x : ℕ) → x < 256 → counted j x < 2 ^ 32
unfolding counted
counted-lt j x l = ground arith

crc_loop-lt :
    (bytes : List ℕ) (k crc : ℕ)
    → ((i : ℕ) → get_or bytes i 0 < 256)
    → crc < 2 ^ 32
    → crc_loop k bytes crc < 2 ^ 32
unfolding crc_loop
crc_loop-lt [] k crc h g = g
crc_loop-lt (b ∷ bs) k crc h g =
    crc_loop-lt bs (k + 1) _ (λ i. h (suc i))
      (crc_bits-lt 8 (bit_xor crc (counted k b))
        (bit_xor-lt 32 crc (counted k b) g (counted-lt k b (h 0))))

wi_crc32c-lt : (image : List ℕ) → ((i : ℕ) → get_or image i 0 < 256) → wi_crc32c image < 2 ^ 32
unfolding wi_crc32c
wi_crc32c-lt image h =
    bit_xor-lt 32 (crc_loop 0 image 0xffff_ffff) 0xffff_ffff
      (crc_loop-lt image 0 0xffff_ffff h (omega arith)) (omega arith)

-- The four writes of the compiler, one after the other.
abbrev one_stamped : List ℕ → ℕ → List ℕ
one_stamped image c = set image 60 (u8 c)

abbrev two_stamped : List ℕ → ℕ → List ℕ
two_stamped image c = set (one_stamped image c) 61 (u8 (c / 2 ^ 8))

abbrev three_stamped : List ℕ → ℕ → List ℕ
three_stamped image c = set (two_stamped image c) 62 (u8 (c / 2 ^ 16))

abbrev stamped : List ℕ → ℕ → List ℕ
stamped image c = set (three_stamped image c) 63 (u8 (c / 2 ^ 24))

length-three_stamped : (image : List ℕ) (c : ℕ) → length (three_stamped image c) ≡ length image
length-three_stamped image c =
    length-set (two_stamped image c) 62 _
    ∙ length-set (one_stamped image c) 61 _
    ∙ length-set image 60 _

crc_loop-stamped :
    (image : List ℕ) (c crc : ℕ) → crc_loop 0 (stamped image c) crc ≡ crc_loop 0 image crc
crc_loop-stamped image c crc =
    crc_loop-set (three_stamped image c) 0 63 _ crc (omega arith) (omega arith)
    ∙ crc_loop-set (two_stamped image c) 0 62 _ crc (omega arith) (omega arith)
    ∙ crc_loop-set (one_stamped image c) 0 61 _ crc (omega arith) (omega arith)
    ∙ crc_loop-set image 0 60 _ crc (omega arith) (omega arith)

take-stamped : (image : List ℕ) (c : ℕ) → take 60 (stamped image c) ≡ take 60 image
take-stamped image c =
    take-set 60 (three_stamped image c) 63 _ (omega arith)
    ∙ take-set 60 (two_stamped image c) 62 _ (omega arith)
    ∙ take-set 60 (one_stamped image c) 61 _ (omega arith)
    ∙ take-set 60 image 60 _ (omega arith)

drop-stamped : (image : List ℕ) (c : ℕ) → drop 64 (stamped image c) ≡ drop 64 image
drop-stamped image c =
    drop-set 64 (three_stamped image c) 63 _ (omega arith)
    ∙ drop-set 64 (two_stamped image c) 62 _ (omega arith)
    ∙ drop-set 64 (one_stamped image c) 61 _ (omega arith)
    ∙ drop-set 64 image 60 _ (omega arith)

-- What is read at a place of the field.
module _ (image : List ℕ) (c : ℕ) where
  first_byte : 64 ≤ length image → get_or (stamped image c) 60 0 ≡ u8 c
  first_byte h =
      get_or-set_other (three_stamped image c) 63 60 _ refl
      ∙ get_or-set_other (two_stamped image c) 62 60 _ refl
      ∙ get_or-set_other (one_stamped image c) 61 60 _ refl
      ∙ get_or-set_self image 60 _ (omega arith)

  second_byte : 64 ≤ length image → get_or (stamped image c) 61 0 ≡ u8 (c / 2 ^ 8)
  second_byte h =
      get_or-set_other (three_stamped image c) 63 61 _ refl
      ∙ get_or-set_other (two_stamped image c) 62 61 _ refl
      ∙ get_or-set_self (one_stamped image c) 61 _ (omega (arith, length-set image 60 (u8 c)))

  third_byte : 64 ≤ length image → get_or (stamped image c) 62 0 ≡ u8 (c / 2 ^ 16)
  third_byte h =
      get_or-set_other (three_stamped image c) 63 62 _ refl
      ∙ get_or-set_self (two_stamped image c) 62 _ (
          omega (
            arith,
            length-set (one_stamped image c) 61 (u8 (c / 2 ^ 8)),
            length-set image 60 (u8 c),
          ))

  fourth_byte : 64 ≤ length image → get_or (stamped image c) 63 0 ≡ u8 (c / 2 ^ 24)
  fourth_byte h =
      get_or-set_self (three_stamped image c) 63 _ (omega (arith, length-three_stamped image c))

  stored_crc-stamped : c < 2 ^ 32 → 64 ≤ length image → stored_crc (stamped image c) ≡ c
  unfolding stored_crc
  stored_crc-stamped h long =
      rw (first_byte long, second_byte long, third_byte long, fourth_byte long) (four_octets c h)

same_crc : (image : List ℕ) (c : ℕ) → wi_crc32c (stamped image c) ≡ wi_crc32c image
unfolding wi_crc32c
same_crc image c = ap (λ t. bit_xor t 0xffff_ffff) (crc_loop-stamped image c 0xffff_ffff)

same_file_crc : (image : List ℕ) (c : ℕ) → file_crc32c (some (stamped image c)) ≡ wi_crc32c image
unfolding wi_crc32c file_crc32c
same_file_crc image c = ap (λ t. bit_xor t 0xffff_ffff) (crc_loop-stamped image c 0xffff_ffff)

-- An image of at least 64 bytes that the compiler has stamped passes the check of the runtime, has
-- the same length, the same checksum, and the same bytes before and behind the field.
pub valid-set_crc32c :
    (image : List ℕ)
    → ((i : ℕ) → get_or image i 0 < 256)
    → 64 ≤ length image
    → (file_crc32c_valid (some (wi_set_crc32c image)) ≡ true)
      × (length (wi_set_crc32c image) ≡ length image)
      × (wi_crc32c (wi_set_crc32c image) ≡ wi_crc32c image)
      × (take 60 (wi_set_crc32c image) ≡ take 60 image)
      × (drop 64 (wi_set_crc32c image) ≡ drop 64 image)
unfolding file_crc32c_valid wi_set_crc32c
valid-set_crc32c image bytes long = (
  ground (arith, same_length, matches),
  same_length,
  same_crc image (wi_crc32c image),
  take-stamped image (wi_crc32c image),
  drop-stamped image (wi_crc32c image),
)
  where
    same_length : length (stamped image (wi_crc32c image)) ≡ length image
    same_length =
        length-set (three_stamped image (wi_crc32c image)) 63 _
        ∙ length-three_stamped image (wi_crc32c image)

    matches :
        stored_crc (stamped image (wi_crc32c image))
        ≡ file_crc32c (some (stamped image (wi_crc32c image)))
    matches =
        stored_crc-stamped image (wi_crc32c image) (wi_crc32c-lt image bytes) long
        ∙ sym (same_file_crc image (wi_crc32c image))
