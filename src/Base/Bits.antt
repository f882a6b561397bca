-- ===== src/Base/Bits.antt =====
-- `&`, `|` and `^` at variables: the equation for the lowest digit, bounds at every width, the sum
-- that `|` makes of disjoint fields, and the masks of the low bits.
use Prim.Native.Nat.{
  ℕ, zero, suc, ◌+◌, ◌-◌, ◌*◌, ◌/◌, ◌%◌, ◌^◌, ◌≤◌, ◌<◌, min, max, bit_and, bit_or, bit_xor, digits,
  bitwise, differ,
}
use Prim.Native.Nat.{bit_and-bitwise, bit_or-bitwise, bit_xor-bitwise}
use mathlib.Core.Path.{◌≡◌, refl, ap, ◌∙◌}
use mathlib.Core.Bool.{Bool, true, ◌&&◌}
use native.Mathlib.Nat.{pow-suc, one-le-pow, div-div-eq-div-mul, div-add-mod'}
use wire_format.Base.Tests.{◌==◌}
use native.Mathlib.Omega.{arith}

-- The digit recursion behind the three operations does not depend on its fuel.
module _ (z : ℕ → ℕ) (f : ℕ → ℕ → ℕ) where
  digits-fuel : (x y n m : ℕ) → x ≤ n → x ≤ m → digits z f n x y ≡ digits z f m x y
  digits-fuel zero y zero zero p q = refl
  digits-fuel zero y zero (suc m) p q = refl
  digits-fuel zero y (suc n) zero p q = refl
  digits-fuel zero y (suc n) (suc m) p q = refl
  digits-fuel (suc x) y n zero p q = absurd (omega arith)
  digits-fuel (suc x) y zero (suc m) p q = absurd (omega arith)
  digits-fuel (suc x) y (suc n) (suc m) p q =
      let half = digits-fuel (suc x / 2) (y / 2) n m (omega arith) (omega arith) in rw half

  lowest_digit :
      (a b : ℕ)
      → bitwise z f (suc a) b ≡ bitwise z f (suc a / 2) (b / 2) * 2 + f (suc a % 2) (b % 2)
  lowest_digit a b =
      omega (arith, digits-fuel (suc a / 2) (b / 2) a (suc a / 2) (omega arith) (omega arith))

pub bit_or-digit : (a b : ℕ) → bit_or a b ≡ bit_or (a / 2) (b / 2) * 2 + max (a % 2) (b % 2)
bit_or-digit zero b = simp bit_or-bitwise (omega arith)
bit_or-digit (suc a) b = simp bit_or-bitwise (lowest_digit (λ y. y) max a b)

pub bit_and-digit : (a b : ℕ) → bit_and a b ≡ bit_and (a / 2) (b / 2) * 2 + min (a % 2) (b % 2)
bit_and-digit zero b = simp bit_and-bitwise (omega arith)
bit_and-digit (suc a) b = simp bit_and-bitwise (lowest_digit (λ y. 0) min a b)

pub bit_xor-digit : (a b : ℕ) → bit_xor a b ≡ bit_xor (a / 2) (b / 2) * 2 + differ (a % 2) (b % 2)
bit_xor-digit zero b = simp bit_xor-bitwise (omega arith)
bit_xor-digit (suc a) b = simp bit_xor-bitwise (lowest_digit (λ y. y) differ a b)

differ-lt : (a b : ℕ) → a < 2 → b < 2 → differ a b < 2
differ-lt zero b h k = k
differ-lt (suc zero) zero h k = h
differ-lt (suc zero) (suc zero) h k = omega arith
differ-lt (suc zero) (suc (suc b)) h k = absurd (omega arith)
differ-lt (suc (suc a)) b h k = absurd (omega arith)

bit_or-zero_digits : (a b : ℕ) → a < 1 → b < 1 → bit_or a b ≡ 0
bit_or-zero_digits zero zero p q = refl
bit_or-zero_digits zero (suc b) p q = absurd (omega arith)
bit_or-zero_digits (suc a) b p q = absurd (omega arith)

bit_xor-zero_digits : (a b : ℕ) → a < 1 → b < 1 → bit_xor a b ≡ 0
bit_xor-zero_digits zero zero p q = refl
bit_xor-zero_digits zero (suc b) p q = absurd (omega arith)
bit_xor-zero_digits (suc a) b p q = absurd (omega arith)

-- The results stay within the width of the operands.
pub bit_or-lt : (k a b : ℕ) → a < 2 ^ k → b < 2 ^ k → bit_or a b < 2 ^ k
bit_or-lt zero a b p q = omega (arith, bit_or-zero_digits a b p q)
bit_or-lt (suc k) a b p q = omega (
  arith,
  bit_or-digit a b,
  pow-suc 2 k,
  bit_or-lt k (a / 2) (b / 2) (omega (arith, pow-suc 2 k)) (omega (arith, pow-suc 2 k)),
)

pub bit_xor-lt : (k a b : ℕ) → a < 2 ^ k → b < 2 ^ k → bit_xor a b < 2 ^ k
bit_xor-lt zero a b p q = omega (arith, bit_xor-zero_digits a b p q)
bit_xor-lt (suc k) a b p q = omega (
  arith,
  bit_xor-digit a b,
  pow-suc 2 k,
  differ-lt (a % 2) (b % 2) (omega arith) (omega arith),
  bit_xor-lt k (a / 2) (b / 2) (omega (arith, pow-suc 2 k)) (omega (arith, pow-suc 2 k)),
)

bit_and-le_fuel : (n a b : ℕ) → a ≤ n → bit_and a b ≤ a
bit_and-le_fuel n zero b h = omega (arith, bit_and-zero_left b)
  where
    bit_and-zero_left : (c : ℕ) → bit_and 0 c ≡ 0
    bit_and-zero_left c = simp bit_and-bitwise
bit_and-le_fuel zero (suc a) b h = absurd (omega arith)
bit_and-le_fuel (suc n) (suc a) b h =
    omega (arith, bit_and-digit (suc a) b, bit_and-le_fuel n (suc a / 2) (b / 2) (omega arith))

pub bit_and-le : (a b : ℕ) → bit_and a b ≤ a
bit_and-le a b = bit_and-le_fuel a a b (omega arith)

nothing_in_common : (room x : ℕ) → x ≤ room → bit_and x 0 ≡ 0
nothing_in_common room zero le = refl
nothing_in_common zero (suc x) le = absurd (omega arith)
nothing_in_common (suc room) (suc x) le =
    let half = nothing_in_common room (suc x / 2) (omega arith) in
    omega (arith, half, bit_and-digit (suc x) 0)

nothing_added : (room x : ℕ) → x ≤ room → bit_or x 0 ≡ x
nothing_added room zero le = refl
nothing_added zero (suc x) le = absurd (omega arith)
nothing_added (suc room) (suc x) le =
    let half = nothing_added room (suc x / 2) (omega arith) in
    omega (arith, half, bit_or-digit (suc x) 0)

double_scaled : (q k : ℕ) → q * 2 ^ suc k ≡ 2 * (q * 2 ^ k)
double_scaled q k = omega (arith, ap (λ (t : ℕ). q * t) (pow-suc 2 k))

-- `(q << k) | r` is a sum where `r` fits in `k` bits.
pub bit_or_fields : (k q r : ℕ) → r < 2 ^ k → bit_or (q * 2 ^ k) r ≡ q * 2 ^ k + r
bit_or_fields zero q zero h = omega (arith, nothing_added q q (omega arith), shift_none q)
  where
    shift_none : (p : ℕ) → bit_or (p * 2 ^ 0) 0 ≡ bit_or p 0
    shift_none p = ap (λ (t : ℕ). bit_or t 0) (omega arith)
bit_or_fields zero q (suc r) h = absurd (omega arith)
bit_or_fields (suc k) q r h = ground (
  arith,
  bit_or-digit (q * 2 ^ suc k) r,
  double_scaled q k,
  pow-suc 2 k,
  bit_or_fields k q (r / 2) (omega (arith, pow-suc 2 k)),
)

bit_and_fields : (k q r : ℕ) → r < 2 ^ k → bit_and (q * 2 ^ k + r) (2 ^ k - 1) ≡ r
bit_and_fields zero q r h =
    omega (arith, nothing_in_common (q * 2 ^ 0 + r) (q * 2 ^ 0 + r) (omega arith))
bit_and_fields (suc k) q r h = ground (
  arith,
  bit_and-digit (q * 2 ^ suc k + r) (2 ^ suc k - 1),
  double_scaled q k,
  pow-suc 2 k,
  one-le-pow k 2,
  bit_and_fields k q (r / 2) (omega (arith, pow-suc 2 k)),
)

-- A mask of the `k` low bits is the remainder by `2 ^ k`.
pub bit_and_low : (k a : ℕ) → bit_and a (2 ^ k - 1) ≡ a % 2 ^ k
bit_and_low k a = ground (arith, one-le-pow k 2, bit_and_fields k (a / 2 ^ k) (a % 2 ^ k))

bit_or-swap : (room a b : ℕ) → a + b ≤ room → bit_or a b ≡ bit_or b a
bit_or-swap room zero zero le = refl
bit_or-swap zero zero (suc b) le = absurd (omega arith)
bit_or-swap zero (suc a) b le = absurd (omega arith)
bit_or-swap (suc room) zero (suc b) le =
    let half = bit_or-swap room (0 / 2) (suc b / 2) (omega arith) in
    omega (arith, half, bit_or-digit 0 (suc b), bit_or-digit (suc b) 0)
bit_or-swap (suc room) (suc a) b le =
    let half = bit_or-swap room (suc a / 2) (b / 2) (omega arith) in
    omega (arith, half, bit_or-digit (suc a) b, bit_or-digit b (suc a))

-- `r | (q << k)`, with the higher field second.
pub bit_or_above : (k q r : ℕ) → r < 2 ^ k → bit_or r (q * 2 ^ k) ≡ q * 2 ^ k + r
bit_or_above k q r h =
    bit_or-swap (r + q * 2 ^ k) r (q * 2 ^ k) (omega arith) ∙ bit_or_fields k q r h

-- Two functions that agree below a bound, by evaluation.
module _ (f g : ℕ → ℕ) where
  agree : ℕ → Bool
  agree zero = true
  agree (suc n) = f n == g n && agree n

  agree-eq : (n x : ℕ) → agree n ≡ true → x < n → f x ≡ g x
  unfolding agree
  agree-eq zero x e h = absurd (omega arith)
  agree-eq (suc n) x e h = ground (arith, agree-eq n x)

-- The marks of an octet: its low seven bits, and its top bit.
pub low_seven : (b : ℕ) → bit_and b 0x7f ≡ b % 128
low_seven b = bit_and_low 7 b

pub mark_top : (b : ℕ) → b < 128 → bit_or b 0x80 ≡ b + 128
unfolding agree
mark_top b h = agree-eq (λ x. bit_or x 0x80) (λ x. x + 128) 128 b refl h

pub top_bit : (b : ℕ) → b < 256 → bit_and b 0x80 ≡ b / 128 * 128
unfolding agree
top_bit b h = agree-eq (λ x. bit_and x 0x80) (λ x. x / 128 * 128) 256 b refl h

-- The two, three and four top bits of an octet.
pub top_two : (b : ℕ) → b < 256 → bit_and b 0xc0 ≡ b / 64 * 64
unfolding agree
top_two b h = agree-eq (λ x. bit_and x 0xc0) (λ x. x / 64 * 64) 256 b refl h

pub top_three : (b : ℕ) → b < 256 → bit_and b 0xe0 ≡ b / 32 * 32
unfolding agree
top_three b h = agree-eq (λ x. bit_and x 0xe0) (λ x. x / 32 * 32) 256 b refl h

pub top_four : (b : ℕ) → b < 256 → bit_and b 0xf0 ≡ b / 16 * 16
unfolding agree
top_four b h = agree-eq (λ x. bit_and x 0xf0) (λ x. x / 16 * 16) 256 b refl h

-- `(x << 8) | b` for an octet `b`, and `(x << 7) | b` for a group of seven bits.
pub or_octet : (x b : ℕ) → b < 256 → bit_or (x * 256) b ≡ x * 256 + b
or_octet x b h = bit_or_fields 8 x b h

pub or_group : (x b : ℕ) → b < 128 → bit_or (x * 128) b ≡ x * 128 + b
or_group x b h = bit_or_fields 7 x b h

-- One more digit of base 2 ^ k of a number.
pub next_digits : (y a k : ℕ) → 0 < a → y / (a * 2 ^ k) * 2 ^ k + y / a % 2 ^ k ≡ y / a
next_digits y a k h = rw (← div-div-eq-div-mul) (mod_add y a k)
  where
    mod_add : (u c j : ℕ) → u / c / 2 ^ j * 2 ^ j + u / c % 2 ^ j ≡ u / c
    mod_add u c j = div-add-mod' (u / c) (2 ^ j)
