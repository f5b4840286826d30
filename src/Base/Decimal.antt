-- ===== src/Base/Decimal.antt =====
-- fmt's `%d`: a number in decimal digits, and how it reads back.
use Prim.Native.Nat.{ℕ, zero, suc, ◌+◌, ◌-◌, ◌*◌, ◌/◌, ◌%◌, ◌<◌}
use mathlib.Core.Path.{◌≡◌, refl, ap, sym, ◌∙◌}
use mathlib.Core.List.{[], ◌∷◌, ◌++◌}
use native.Mathlib.Omega.{arith}
use electrum_go.Base.Tests.{ltb, if◌then◌else◌}
use electrum_go.Base.Int.{ℤ, pos, negsuc}
use electrum_go.Base.Bytes.{Bytes}

-- A round drops the last digit, so a number above the number is enough fuel.
unfoldable pub digits : ℕ → ℕ → Bytes
digits zero n = []
digits (suc fuel) n =
    let rest = digits fuel (n / 10) in
    if ltb n 10 then (48 + n) ∷ [] else rest ++ ((48 + n % 10) ∷ [])

unfoldable pub decimal : ℕ → Bytes
unfolding digits
decimal n = digits (suc n) n

abbrev pub decimal_int : ℤ → Bytes
decimal_int (pos n) = decimal n
decimal_int (negsuc n) = b'-' ∷ decimal (suc n)

read_digits : ℕ → Bytes → ℕ
read_digits acc [] = acc
read_digits acc (c ∷ cs) = read_digits (acc * 10 + (c - 48)) cs

read-append : (acc : ℕ) (a b : Bytes) → read_digits acc (a ++ b) ≡ read_digits (read_digits acc a) b
unfolding read_digits
read-append acc [] b = refl
read-append acc (c ∷ a) b = read-append (acc * 10 + (c - 48)) a b

read-digits : (fuel n : ℕ) → n < fuel → read_digits 0 (digits fuel n) ≡ n
unfolding digits read_digits
read-digits zero n h = absurd (omega arith)
read-digits (suc fuel) n h =
    ground
      (arith, read-append 0 (digits fuel (n / 10)) ((48 + n % 10) ∷ []), read-digits fuel (n / 10))

pub decimal_injective : (m n : ℕ) → decimal m ≡ decimal n → m ≡ n
unfolding decimal
decimal_injective m n e =
    sym (read-digits (suc m) m (omega arith))
    ∙ ap (read_digits 0) e
    ∙ read-digits (suc n) n (omega arith)
