-- ===== src/Records/Masks.antt =====
-- compiler/records.c: the masks of messages, and how the ones that are seen grow.
use wire_format.Base.{
  ℕ, zero, suc, ◌+◌, ◌≤◌, ◌≡◌, refl, ap, arith, Bool, true, false, not, ◌&&◌, ◌||◌, List, [], ◌∷◌,
  length, of_bool, none, some, codes,
}
use wire_format.Json5.Value.{Value}
use wire_format.Compiler.Types.{ok}
use wire_format.Compiler.Offsets.{bind-ok, ok_injective}
use wire_format.Records.Json.{get, array_of}
use wire_format.Records.Scopes.{Mask, has_child, parents_from, any, union, without}

unfoldable pub bits : Mask → ℕ
bits [] = 0
bits (b ∷ mask) = of_bool b + bits mask

-- No message is in both.
unfoldable pub Apart : Mask → Mask → Type 0
Apart [] seen = Unit
Apart (a ∷ mask) [] = Unit
Apart (a ∷ mask) (s ∷ seen) = ((a && s) ≡ false) × Apart mask seen

pub without-Apart : (mask seen : Mask) → Apart (without mask seen) seen
unfolding without Apart
without-Apart [] seen = tt
without-Apart (a ∷ mask) [] = tt
without-Apart (a ∷ mask) (s ∷ seen) = (go a s, without-Apart mask seen)
  where
    go : (a s : Bool) → ((a && not s) && s) ≡ false
    go true true = refl
    go true false = refl
    go false s = refl

pub bits_le : (mask : Mask) → bits mask ≤ length mask
unfolding bits
bits_le [] = omega arith
bits_le (true ∷ mask) = let h = bits_le mask in omega arith
bits_le (false ∷ mask) = let h = bits_le mask in omega arith

pub length-without : (mask seen : Mask) → length (without mask seen) ≡ length mask
unfolding without
length-without [] seen = refl
length-without (a ∷ mask) [] = refl
length-without (a ∷ mask) (s ∷ seen) = ap suc (length-without mask seen)

pub length-union : (n : ℕ) (a b : Mask) → length a ≤ n → length b ≤ n → length (union a b) ≤ n
unfolding union
length-union n [] b h l = l
length-union n (x ∷ a) [] h l = h
length-union zero (x ∷ a) (y ∷ b) h l = omega arith
length-union (suc n) (x ∷ a) (y ∷ b) h l =
    let k = length-union n a b (omega arith) (omega arith) in omega arith

pub bits-union :
    (mask seen : Mask) → Apart mask seen → bits mask + bits seen ≤ bits (union seen mask)
unfolding union bits Apart
bits-union [] [] h = omega arith
bits-union [] (s ∷ seen) h = omega arith
bits-union (a ∷ mask) [] h = omega arith
bits-union (a ∷ mask) (s ∷ seen) (h, l) = let k = bits-union mask seen l in one a s h k
  where
    one :
        (a s : Bool)
        → (a && s) ≡ false
        → bits mask + bits seen ≤ bits (union seen mask)
        → (of_bool a + bits mask) + (of_bool s + bits seen)
          ≤ of_bool (s || a) + bits (union seen mask)
    one true true h k = cc
    one true false h k = omega arith
    one false true h k = omega arith
    one false false h k = omega arith

pub any-bits : (mask : Mask) → any mask ≡ true → 1 ≤ bits mask
unfolding any bits
any-bits [] h = cc
any-bits (true ∷ mask) h = omega arith
any-bits (false ∷ mask) h = let k = any-bits mask h in omega arith

pub length-parents_from :
    (messages : List Value) (mask : Mask) (ms : List Value) (above : Mask)
    → parents_from messages mask ms ≡ ok above
    → length above ≡ length ms
unfolding parents_from
length-parents_from messages mask [] above h =
    let same = ok_injective [] above h in rw (← same) refl
length-parents_from messages mask (m ∷ later) above h =
    let (found, e, h₁) =
      bind-ok
        (elim (array_of (get (some m) (codes "fields"))) [
          | none ↦ ok false
          | some fields ↦ has_child messages mask fields false
        ])
        _ _ h in
    let (rest, e₁, h₂) = bind-ok (parents_from messages mask later) _ _ h₁ in
    let same = ok_injective (found ∷ rest) above h₂ in
    rw (← same) (ap suc (length-parents_from messages mask later rest e₁))
