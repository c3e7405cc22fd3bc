-- ===== src/Prelude/Int.antt =====
-- Signed integers over the native numbers, under the library's names (its ℤ stands on the unary ℕ),
-- and the `int32` of Go on them: each sum and difference is computed and then wrapped to 32 bits.
use Prim.Native.Nat.{ℕ, suc, ◌+◌, ◌-◌, ◌*◌, ◌%◌, ◌≤◌, ◌<◌}
use mathlib.Core.Path.{◌≡◌}
use mathlib.Core.Bool.{Bool, true}
use mathlib.Core.Logic.{◌↔◌}
use native.Mathlib.Omega.{arith}
use machine_controller_k0s.Prelude.Tests.{ltb, leb, ◌==◌, if◌then◌else◌}

-- `negsuc n` is -(n + 1).
pub data ℤ : Type 0 where
  pos : ℕ → ℤ
  negsuc : ℕ → ℤ

abbrev pub pos_part : ℤ → ℕ
pos_part (pos n) = n
pos_part (negsuc n) = 0

abbrev pub neg_part : ℤ → ℕ
neg_part (pos n) = 0
neg_part (negsuc n) = suc n

-- a - b, as an integer.
abbrev pub sub_ℕ : ℕ → ℕ → ℤ
sub_ℕ a b = if leb b a then pos (a - b) else negsuc (b - a - 1)

infix 50 ◌≤ℤ◌
abbrev pub ◌≤ℤ◌ : ℤ → ℤ → Type 0
a ≤ℤ b = pos_part a + neg_part b ≤ pos_part b + neg_part a

abbrev pub ltb_ℤ : ℤ → ℤ → Bool
ltb_ℤ a b = ltb (pos_part a + neg_part b) (pos_part b + neg_part a)

abbrev pub leb_ℤ : ℤ → ℤ → Bool
leb_ℤ a b = leb (pos_part a + neg_part b) (pos_part b + neg_part a)

abbrev pub eq_ℤ : ℤ → ℤ → Bool
eq_ℤ a b = pos_part a + neg_part b == pos_part b + neg_part a

abbrev wrap_up : ℕ → ℤ
wrap_up m = if ltb m 2147483648 then pos m else negsuc (4294967295 - m)

abbrev wrap_down : ℕ → ℤ
wrap_down m = if ltb m 2147483648 then negsuc m else pos (4294967295 - m)

-- `int32(a)`: the value with the same low 32 bits.
unfoldable pub int32 : ℤ → ℤ
int32 (pos n) = wrap_up (n % 4294967296)
int32 (negsuc n) = wrap_down (n % 4294967296)

unfoldable pub add32 : ℤ → ℤ → ℤ
unfolding int32
add32 a b = int32 (sub_ℕ (pos_part a + pos_part b) (neg_part a + neg_part b))

unfoldable pub sub32 : ℤ → ℤ → ℤ
unfolding int32
sub32 a b = int32 (sub_ℕ (pos_part a + neg_part b) (neg_part a + pos_part b))

unfoldable pub mul32 : ℤ → ℤ → ℤ
unfolding int32
mul32 a b = int32 (
    sub_ℕ (pos_part a * pos_part b + neg_part a * neg_part b)
      (pos_part a * neg_part b + neg_part a * pos_part b))

-- The values that an `int32` takes.
abbrev pub Fits : ℤ → Type 0
Fits a = (pos_part a < 2147483648) × (neg_part a ≤ 2147483648)

pub int32-Fits : (a : ℤ) → Fits (int32 a)
unfolding int32
int32-Fits (pos n) = ground arith
int32-Fits (negsuc n) = ground arith

pub int32_of_Fits : (a : ℤ) → Fits a → int32 a ≡ a
unfolding int32
int32_of_Fits (pos n) h = ground arith
int32_of_Fits (negsuc n) h = ground arith

-- Where nothing wraps: on counts, which are not negative.
pub add32_pos : (a b : ℕ) → a + b < 2147483648 → add32 (pos a) (pos b) ≡ pos (a + b)
unfolding add32
add32_pos a b h = ground arith

pub sub32_pos : (a b : ℕ) → a < 2147483648 → b ≤ 2147483648 → sub32 (pos a) (pos b) ≡ sub_ℕ a b
unfolding sub32
sub32_pos a b h k = ground arith

pub eq_ℤ_iff : (a b : ℤ) → (eq_ℤ a b ≡ true) ↔ (a ≡ b)
eq_ℤ_iff a b = ground arith

-- The sum and the difference, through the two parts, where the result fits.
pub add32_parts :
    (a b : ℤ)
    → pos_part a + pos_part b < 2147483648 + (neg_part a + neg_part b)
    → neg_part a + neg_part b ≤ 2147483648 + (pos_part a + pos_part b)
    → pos_part (add32 a b) + neg_part a + neg_part b
      ≡ neg_part (add32 a b) + pos_part a + pos_part b
unfolding add32
add32_parts a b h k = ground arith

pub sub32_parts :
    (a b : ℤ)
    → pos_part a + neg_part b < 2147483648 + (neg_part a + pos_part b)
    → neg_part a + pos_part b ≤ 2147483648 + (pos_part a + neg_part b)
    → pos_part (sub32 a b) + neg_part a + pos_part b
      ≡ neg_part (sub32 a b) + pos_part a + neg_part b
unfolding sub32
sub32_parts a b h k = ground arith
