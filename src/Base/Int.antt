-- ===== src/Base/Int.antt =====
-- Signed integers over the native numbers, and Go's int32 and int64 as ranges of them.
use Prim.Native.Nat.{ℕ, ◌+◌, ◌-◌, ◌^◌, ◌%◌, ◌<◌, ◌≤◌}
use mathlib.Core.Path.{◌≡◌}
use mathlib.Core.Bool.{Bool, true, false}
use native.Mathlib.Omega.{arith}
use electrum_go.Base.Tests.{ltb, ◌==◌, if◌then◌else◌}

-- `negsuc n` is -(n + 1).
pub data ℤ : Type 0 where
  pos : ℕ → ℤ
  negsuc : ℕ → ℤ

-- The values of a signed integer of w bits.
abbrev pub InSigned : ℕ → ℤ → Type 0
InSigned w (pos n) = n < 2 ^ (w - 1)
InSigned w (negsuc n) = n < 2 ^ (w - 1)

-- `uintW(x)` of a signed x: two's complement.
abbrev pub to_unsigned : ℕ → ℤ → ℕ
to_unsigned w (pos n) = n % 2 ^ w
to_unsigned w (negsuc n) = 2 ^ w - 1 - n % 2 ^ w

-- `intW(u)` of an unsigned u below 2 ^ w.
abbrev pub to_signed : ℕ → ℕ → ℤ
to_signed w u = if ltb u (2 ^ (w - 1)) then pos u else negsuc (2 ^ w - 1 - u)

abbrev pub is_negative : ℤ → Bool
is_negative (pos n) = false
is_negative (negsuc n) = true

abbrev pub IsI32 : ℤ → Type 0
IsI32 = InSigned 32

abbrev pub IsI64 : ℤ → Type 0
IsI64 = InSigned 64

pub to_signed-to_unsigned32 : (x : ℤ) → IsI32 x → to_signed 32 (to_unsigned 32 x) ≡ x
to_signed-to_unsigned32 (pos n) h = ground arith
to_signed-to_unsigned32 (negsuc n) h = ground arith

pub to_signed-to_unsigned64 : (x : ℤ) → IsI64 x → to_signed 64 (to_unsigned 64 x) ≡ x
to_signed-to_unsigned64 (pos n) h = ground arith
to_signed-to_unsigned64 (negsuc n) h = ground arith

pub to_unsigned-to_signed32 : (u : ℕ) → u < 2 ^ 32 → to_unsigned 32 (to_signed 32 u) ≡ u
to_unsigned-to_signed32 u h = ground arith

pub to_unsigned-to_signed64 : (u : ℕ) → u < 2 ^ 64 → to_unsigned 64 (to_signed 64 u) ≡ u
to_unsigned-to_signed64 u h = ground arith

pub to_signed32-IsI32 : (u : ℕ) → u < 2 ^ 32 → IsI32 (to_signed 32 u)
to_signed32-IsI32 u h = ground arith

pub to_signed64-IsI64 : (u : ℕ) → u < 2 ^ 64 → IsI64 (to_signed 64 u)
to_signed64-IsI64 u h = ground arith

pub to_unsigned32-lt : (x : ℤ) → to_unsigned 32 x < 2 ^ 32
to_unsigned32-lt (pos n) = omega arith
to_unsigned32-lt (negsuc n) = omega arith

pub to_unsigned64-lt : (x : ℤ) → to_unsigned 64 x < 2 ^ 64
to_unsigned64-lt (pos n) = omega arith
to_unsigned64-lt (negsuc n) = omega arith

abbrev pub lt_int : ℤ → ℤ → Bool
lt_int (pos a) (pos b) = ltb a b
lt_int (pos a) (negsuc b) = false
lt_int (negsuc a) (pos b) = true
lt_int (negsuc a) (negsuc b) = ltb b a

-- int32 subtraction.
abbrev pub sub32 : ℤ → ℤ → ℤ
sub32 a b = to_signed 32 ((to_unsigned 32 a + 2 ^ 32 - to_unsigned 32 b) % 2 ^ 32)

abbrev pub eq_int : ℤ → ℤ → Bool
eq_int (pos a) (pos b) = a == b
eq_int (negsuc a) (negsuc b) = a == b
eq_int (pos a) (negsuc b) = false
eq_int (negsuc a) (pos b) = false

-- The number, or 0 below it.
abbrev pub magnitude : ℤ → ℕ
magnitude (pos n) = n
magnitude (negsuc n) = 0

pub sub32-pos : (a b : ℕ) → b ≤ a → a < 2 ^ 31 → sub32 (pos a) (pos b) ≡ pos (a - b)
sub32-pos a b h k = ground arith

-- `int32(x)` of a wider integer.
abbrev pub as_i32 : ℤ → ℤ
as_i32 x = to_signed 32 (to_unsigned 32 x)

-- int32 addition.
abbrev pub add32 : ℤ → ℤ → ℤ
add32 a b = to_signed 32 ((to_unsigned 32 a + to_unsigned 32 b) % 2 ^ 32)

-- int64 addition and subtraction.
abbrev pub add64 : ℤ → ℤ → ℤ
add64 a b = to_signed 64 ((to_unsigned 64 a + to_unsigned 64 b) % 2 ^ 64)

abbrev pub sub64 : ℤ → ℤ → ℤ
sub64 a b = to_signed 64 ((to_unsigned 64 a + 2 ^ 64 - to_unsigned 64 b) % 2 ^ 64)
