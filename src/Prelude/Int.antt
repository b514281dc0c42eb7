-- ===== src/Prelude/Int.antt =====
-- The integers, over the native numbers.
use Prim.Native.Nat.{ℕ, ◌+◌, ◌-◌}
use mathlib.Core.Path.{◌≡◌, refl, ap}
use mathlib.Core.Logic.{◌≢◌}
use native.Mathlib.Omega.{arith}
use mathlib.Core.Bool.{Bool, false}
use iot_hub_device_c_sdk.Prelude.Tests.{ne→==, leb, ◌==◌, if◌then◌else◌}

-- `negsuc n` is -(n + 1).
pub data ℤ : Type 0 where
  pos : ℕ → ℤ
  negsuc : ℕ → ℤ

-- a - b, as an integer.
abbrev pub sub_ℕ : ℕ → ℕ → ℤ
sub_ℕ a b = if leb b a then pos (a - b) else negsuc (b - a - 1)

-- `n--`
abbrev pub pred_ℤ : ℤ → ℤ
pred_ℤ (pos n) = if n == 0 then negsuc 0 else pos (n - 1)
pred_ℤ (negsuc n) = negsuc (n + 1)

-- A C condition on an int.
abbrev pub is_zero : ℤ → Bool
is_zero (pos n) = n == 0
is_zero (negsuc n) = false

infix 50 ◌==ℤ◌
abbrev pub ◌==ℤ◌ : ℤ → ℤ → Bool
pos a ==ℤ pos b = a == b
negsuc a ==ℤ negsuc b = a == b
_ ==ℤ _ = false

pub sub_ℕ_exact : (a b c : ℕ) → a ≡ b + c → sub_ℕ a b ≡ pos c
sub_ℕ_exact a b c h = ground arith

pub ==ℤ_ne : (a b : ℤ) → a ≢ b → (a ==ℤ b) ≡ false
==ℤ_ne (pos a) (pos b) h = ne→== a b (λ e. h (ap pos e))
==ℤ_ne (negsuc a) (negsuc b) h = ne→== a b (λ e. h (ap negsuc e))
==ℤ_ne (pos a) (negsuc b) h = refl
==ℤ_ne (negsuc a) (pos b) h = refl
