-- ===== src/Compiler/SdnvCoding.antt =====
-- compiler/check.c and wire_format.c: the self-delimiting values of a test vector are those of %d
-- and %D.
use wire_format.Base.{
  ℕ, zero, suc, ◌+◌, ◌-◌, ◌*◌, ◌/◌, ◌^◌, ◌≤◌, ◌<◌, ◌≡◌, refl, ap, ◌∙◌, arith, Bool, true, false,
  List, [], ◌∷◌, ltb, ◌==◌, length, get_or, drop, if◌then◌else◌, u8, u64, u64_max, IsU64, bit_and,
  bit_or, low_seven, Option, none, some, Bool-cases, inl, inr,
}
use mathlib.Core.Path.{subst}
use native.Mathlib.Nat.{div-le_self}
use wire_format.Machine.State.{Vars, stack_depth, fail}
use wire_format.Machine.Buffer.{fs_push, b_read, take_input}
use wire_format.Machine.Emit.{sdnv_length, sdnv_bytes}
use wire_format.Machine.Read.{sdnv_loop}
use wire_format.Machine.RoundTrip.Ends.{reader, push-reader}
use wire_format.Compiler.Sdnv.{
  vector_length, encoded_octets, copy_at, write_sdnv_vector, read_sdnv_loop, read_sdnv_vector,
}

vector_length-sdnv : (n r k : ℕ) → vector_length n r (suc k) ≡ k + sdnv_length n r
unfolding vector_length sdnv_length
vector_length-sdnv zero r k = omega arith
vector_length-sdnv (suc n) r k = go (ltb 0x7f r) (vector_length-sdnv n (r / 2 ^ 7) (suc k))
  where
    go :
        (b : Bool)
        → vector_length n (r / 2 ^ 7) (suc (suc k)) ≡ suc k + sdnv_length n (r / 2 ^ 7)
        → (if b then vector_length n (r / 2 ^ 7) (suc k + 1) else suc k)
          ≡ k + elim b as (λ b. ℕ) [ true ↦ suc (sdnv_length n (r / 2 ^ 7)) | false ↦ 1 ]
    go true h = ap (λ (t : ℕ). vector_length n (r / 2 ^ 7) t) (omega arith) ∙ h ∙ omega arith
    go false h = omega arith

encoded_octets-sdnv :
    (n index count v : ℕ)
    → IsU64 v
    → index + n ≡ count
    → encoded_octets n index count v ≡ sdnv_bytes n v
unfolding encoded_octets sdnv_bytes
encoded_octets-sdnv zero index count v h e = refl
encoded_octets-sdnv (suc n) index count v h e =
    both
      (marked (index + 1 == count) (n == 0) _ _ (ground arith)
        (group (count - index - 1) n (omega arith)))
      (encoded_octets-sdnv n (index + 1) count v h (omega arith))
  where
    both : {x y : ℕ} {s t : List ℕ} → x ≡ y → s ≡ t → x ∷ s ≡ y ∷ t
    both p q = λ i. p i ∷ q i

    marked :
        (b c : Bool) (x y : ℕ)
        → b ≡ c
        → x ≡ y
        → (if b then x else bit_or x 0x80) ≡ (if c then y else bit_or y 0x80)
    marked b c x y p q = λ i. if p i then q i else bit_or (q i) 0x80

    low : (z : ℕ) → IsU64 z → u8 (bit_and z 0x7f) ≡ bit_and (u64 z) 0x7f
    low z l = omega (arith, low_seven z, low_seven (u64 z))

    group :
        (k m : ℕ)
        → k ≡ m
        → u8 (bit_and (v / 2 ^ (k * 7)) 0x7f) ≡ bit_and (u64 (v / 2 ^ (m * 7))) 0x7f
    group k m p =
        ap (λ (t : ℕ). u8 (bit_and (v / 2 ^ (t * 7)) 0x7f)) p
        ∙ low (v / 2 ^ (m * 7)) (omega (arith, div-le_self v (2 ^ (m * 7))))

-- A vector's self-delimiting value is written as %d writes it: the same octets, as many as
-- `sdnv_length` counts, wherever they fit, and nothing where they do not.
pub write_sdnv_vector-sdnv_bytes :
    (output : List ℕ) (capacity position value : ℕ)
    → IsU64 value
    → write_sdnv_vector output capacity position value ≡ (
        if ltb (capacity - position) (sdnv_length 9 value)
        then none
        else some (
          copy_at output position (sdnv_bytes (sdnv_length 9 value) value),
          position + sdnv_length 9 value,
        ))
unfolding write_sdnv_vector
write_sdnv_vector-sdnv_bytes output capacity position value h =
    rw
      (
        same_count,
        encoded_octets-sdnv (sdnv_length 9 value) 0 (sdnv_length 9 value) value h (omega arith),
      )
      refl
  where
    same_count : vector_length 9 value 1 ≡ sdnv_length 9 value
    same_count = vector_length-sdnv 9 value 0 ∙ omega arith

drop_at : (xs : List ℕ) (i : ℕ) → i < length xs → drop i xs ≡ get_or xs i 0 ∷ drop (suc i) xs
drop_at [] i h = absurd (omega arith)
drop_at (x ∷ xs) zero h = refl
drop_at (x ∷ xs) (suc i) h = drop_at xs i (omega arith)

drop_end : (xs : List ℕ) (i : ℕ) → i ≡ length xs → drop i xs ≡ []
drop_end [] zero h = refl
drop_end [] (suc i) h = refl
drop_end (x ∷ xs) zero h = absurd (omega arith)
drop_end (x ∷ xs) (suc i) h = drop_end xs i (omega arith)

-- What the two readers give on the same octets.
abbrev pub Agree : Vars → List ℕ → List ℕ → Option (ℕ × ℕ) → Vars → Type 0
Agree w t input none v = v.overrun ≡ true
Agree w t input (some (x, q)) v = (v ≡ reader w (x ∷ t) (drop q input) q) × (q ≤ length input)

at_end :
    (rounds value n : ℕ) (w : Vars) (t : List ℕ)
    → (sdnv_loop (suc rounds) value (reader w t [] n)).overrun ≡ true
unfolding sdnv_loop b_read take_input
at_end rounds value n w t = refl

abbrev next_value : ℕ → ℕ → ℕ
next_value value b = bit_or (u64 (value * 2 ^ 7)) (bit_and b 0x7f)

one_octet :
    (rounds value n b : ℕ) (w : Vars) (t s : List ℕ)
    → sdnv_loop (suc rounds) value (reader w t (b ∷ s) n) ≡ (
        if ltb (u64_max / 2 ^ 7) value
        then fail (reader w t s (n + 1))
        else if bit_and b 0x80 == 0
        then fs_push (reader w t s (n + 1)) (next_value value b)
        else sdnv_loop rounds (next_value value b) (reader w t s (n + 1)))
unfolding sdnv_loop b_read take_input
one_octet rounds value n b w t s = refl

abbrev AgreeFrom : ℕ → ℕ → ℕ → List ℕ → Vars → List ℕ → Type 0
AgreeFrom rounds value position input w t =
    Agree w t input (read_sdnv_loop rounds value input (length input) position)
      (sdnv_loop rounds value (reader w t (drop position input) position))

Agree-cases :
    (a b : Bool) (rounds value position : ℕ) (input : List ℕ) (w : Vars) (t : List ℕ)
    → position < length input
    → length t < stack_depth
    → AgreeFrom rounds value (position + 1) input w t
    → Agree w t input
        (if a
          then none
          else if b
          then some (value, position + 1)
          else read_sdnv_loop rounds value input (length input) (position + 1))
        (if a
          then fail (reader w t (drop (suc position) input) (position + 1))
          else if b
          then fs_push (reader w t (drop (suc position) input) (position + 1)) value
          else sdnv_loop rounds value (reader w t (drop (suc position) input) (position + 1)))
Agree-cases true b rounds value position input w t l k ih = refl
Agree-cases false true rounds value position input w t l k ih = (
  push-reader w t (drop (suc position) input) (position + 1) value k
      ∙ ap (λ (j : ℕ). reader w (value ∷ t) (drop j input) (position + 1))
          (let p : suc position ≡ position + 1 = omega arith in p),
  omega arith,
)
Agree-cases false false rounds value position input w t l k ih =
    subst
      (λ (j : ℕ).
        Agree w t input (read_sdnv_loop rounds value input (length input) (position + 1))
          (sdnv_loop rounds value (reader w t (drop j input) (position + 1))))
      (let p : position + 1 ≡ suc position = omega arith in p) ih

agree_round :
    (rounds value position : ℕ) (input : List ℕ) (w : Vars) (t : List ℕ)
    → position < length input
    → length t < stack_depth
    → AgreeFrom rounds (next_value value (get_or input position 0)) (position + 1) input w t
    → (position == length input) ≡ false
    → AgreeFrom (suc rounds) value position input w t
unfolding read_sdnv_loop
agree_round rounds value position input w t l k ih e =
    rw (e, drop_at input position l, one_octet)
      (Agree-cases (ltb (u64_max / 2 ^ 7) value) (bit_and (get_or input position 0) 0x80 == 0)
        rounds (next_value value (get_or input position 0)) position input w t l k ih)

agree_at_end :
    (rounds value position : ℕ) (input : List ℕ) (w : Vars) (t : List ℕ)
    → (position == length input) ≡ true
    → position ≡ length input
    → AgreeFrom (suc rounds) value position input w t
unfolding read_sdnv_loop
agree_at_end rounds value position input w t e p =
    rw (e, drop_end input position p) (at_end rounds value position w t)

agree_start :
    (value position : ℕ) (input : List ℕ) (w : Vars) (t : List ℕ)
    → AgreeFrom 0 value position input w t
unfolding read_sdnv_loop sdnv_loop
agree_start value position input w t = refl

read_sdnv_loop-agrees :
    (rounds value position : ℕ) (input : List ℕ) (w : Vars) (t : List ℕ)
    → position ≤ length input
    → length t < stack_depth
    → AgreeFrom rounds value position input w t
read_sdnv_loop-agrees zero value position input w t h k = agree_start value position input w t
read_sdnv_loop-agrees (suc rounds) value position input w t h k =
    elim (Bool-cases (position == length input)) [
      | inl e ↦ agree_at_end rounds value position input w t e (ground arith)
      | inr e ↦
          let l : position < length input = ground arith in
          agree_round rounds value position input w t l k
            (read_sdnv_loop-agrees rounds (next_value value (get_or input position 0))
              (position + 1) input w t (omega arith) k)
            e
    ]

-- A vector's self-delimiting value is read as %D reads it: from the same octets both give the same
-- value and end at the same place, or both refuse.
pub read_sdnv_vector-sdnv_loop :
    (position : ℕ) (input : List ℕ) (w : Vars) (t : List ℕ)
    → position ≤ length input
    → length t < stack_depth
    → Agree w t input
        (read_sdnv_vector input (length input) position)
        (sdnv_loop 10 0 (reader w t (drop position input) position))
unfolding read_sdnv_vector
read_sdnv_vector-sdnv_loop position input w t h k =
    read_sdnv_loop-agrees 10 0 position input w t h k
