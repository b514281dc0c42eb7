-- ===== src/Prelude/Bytes.antt =====
-- Bytes, and the bit operations that the code applies to them, as arithmetic.
use Prim.Native.Nat.{ℕ, zero, suc, ◌+◌, ◌*◌, ◌/◌, ◌%◌, ◌<◌, ◌≤◌, bit_and, bit_or}
use mathlib.Core.Path.{◌≡◌, refl, ap₂, subst}
use mathlib.Core.Logic.{◌↔◌, inl, inr}
use mathlib.Core.List.{List, [], ◌∷◌}
use mathlib.Core.Bool.{Bool, true, false, ◌&&◌}
use native.Mathlib.Omega.{arith}
use iot_hub_device_c_sdk.Prelude.Tests.{◌==◌, ==_iff, Bool-cases, if◌then◌else◌}

abbrev pub IsByte : ℕ → Type 0
IsByte b = b < 256

-- Whether a test holds from `k` on, for `n` numbers.
holds_from : (ℕ → Bool) → (k n : ℕ) → Bool
holds_from test k zero = true
holds_from test k (suc n) = if test k then holds_from test (k + 1) n else false

holds_at :
    (test : ℕ → Bool) (k n i : ℕ) → k ≤ i → i < k + n → holds_from test k n ≡ true → test i ≡ true
unfolding holds_from
holds_at test k zero i above below h = absurd (omega arith)
holds_at test k (suc n) i above below h = elim (Bool-cases (k == i)) [
  | inl here ↦ subst (λ x. test x ≡ true) ((==_iff k i).0 here) (ground arith)
  | inr later ↦ ground (arith, holds_at test (k + 1) n i (ground arith) (omega arith))
]

low_seven_table : holds_from (λ c. bit_and c 127 == c % 128) 0 256 ≡ true
unfolding holds_from
low_seven_table = refl

top_bit_table : holds_from (λ c. bit_and c 128 == 128 * (c / 128)) 0 256 ≡ true
unfolding holds_from
top_bit_table = refl

set_top_table : holds_from (λ c. bit_or c 128 == c + 128) 0 128 ≡ true
unfolding holds_from
set_top_table = refl

high_nibble_table : holds_from (λ c. bit_and c 240 == c / 16 * 16) 0 256 ≡ true
unfolding holds_from
high_nibble_table = refl

pub low_seven : (c : ℕ) → IsByte c → bit_and c 127 ≡ c % 128
low_seven c h = (==_iff _ _).0 (holds_at _ 0 256 c (omega arith) h low_seven_table)

pub top_bit : (c : ℕ) → IsByte c → bit_and c 128 ≡ 128 * (c / 128)
top_bit c h = (==_iff _ _).0 (holds_at _ 0 256 c (omega arith) h top_bit_table)

pub set_top : (c : ℕ) → c < 128 → bit_or c 128 ≡ c + 128
set_top c h = (==_iff _ _).0 (holds_at _ 0 128 c (omega arith) h set_top_table)

pub high_nibble : (c : ℕ) → IsByte c → bit_and c 240 ≡ c / 16 * 16
high_nibble c h = (==_iff _ _).0 (holds_at _ 0 256 c (omega arith) h high_nibble_table)

-- `strcmp(a, b) == 0`
unfoldable pub eq_bytes : List ℕ → List ℕ → Bool
eq_bytes [] [] = true
eq_bytes [] (b ∷ ys) = false
eq_bytes (a ∷ xs) [] = false
eq_bytes (a ∷ xs) (b ∷ ys) = a == b && eq_bytes xs ys

pub eq_bytes_sound : (xs ys : List ℕ) → eq_bytes xs ys ≡ true → xs ≡ ys
unfolding eq_bytes
eq_bytes_sound [] [] h = refl
eq_bytes_sound [] (b ∷ ys) h = cc
eq_bytes_sound (a ∷ xs) [] h = cc
eq_bytes_sound (a ∷ xs) (b ∷ ys) h =
    let parts : ((a ≡ b) × (eq_bytes xs ys ≡ true)) = ground arith in
    ap₂ (λ x l. x ∷ l) parts.0 (eq_bytes_sound xs ys parts.1)

pub eq_bytes_refl : (xs : List ℕ) → eq_bytes xs xs ≡ true
unfolding eq_bytes
eq_bytes_refl [] = refl
eq_bytes_refl (a ∷ xs) = ground (arith, eq_bytes_refl xs)

pub eq_bytes_iff : (xs ys : List ℕ) → (eq_bytes xs ys ≡ true) ↔ (xs ≡ ys)
eq_bytes_iff xs ys =
    (eq_bytes_sound xs ys, λ e. subst (λ l. eq_bytes xs l ≡ true) e (eq_bytes_refl xs))

pub eq_bytes_comm : (xs ys : List ℕ) → eq_bytes xs ys ≡ eq_bytes ys xs
unfolding eq_bytes
eq_bytes_comm [] [] = refl
eq_bytes_comm [] (y ∷ ys) = refl
eq_bytes_comm (x ∷ xs) [] = refl
eq_bytes_comm (x ∷ xs) (y ∷ ys) = ground (arith, eq_bytes_comm xs ys)
