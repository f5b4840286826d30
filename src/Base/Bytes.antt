-- ===== src/Base/Bytes.antt =====
-- Byte strings, and the fixed-width encodings of encoding/binary: BigEndian and LittleEndian.
use Prim.Native.Nat.{ℕ, ◌+◌, ◌*◌, ◌/◌, ◌%◌, ◌^◌, ◌<◌}
use mathlib.Core.Path.{◌≡◌, refl, ◌∙◌}
use mathlib.Core.Bool.{Bool, true, false, ◌&&◌}
use mathlib.Core.List.{List, [], ◌∷◌, ◌++◌}
use native.Mathlib.Omega.{arith}
use electrum_go.Base.Tests.{◌==◌, ltb, if◌then◌else◌}
use electrum_go.Base.Lists.{length, All}

abbrev pub Bytes : Type 0
Bytes = List ℕ

abbrev pub IsByte : ℕ → Type 0
IsByte b = b < 256

abbrev pub IsBytes : Bytes → Type 0
IsBytes = All IsByte

-- bytes.Equal
unfoldable pub bytes_eq : Bytes → Bytes → Bool
bytes_eq [] [] = true
bytes_eq [] (b ∷ bs) = false
bytes_eq (a ∷ as') [] = false
bytes_eq (a ∷ as') (b ∷ bs) = a == b && bytes_eq as' bs

pub bytes_eq→eq : (a b : Bytes) → bytes_eq a b ≡ true → a ≡ b
unfolding bytes_eq
bytes_eq→eq [] [] h = refl
bytes_eq→eq [] (b ∷ bs) h = cc
bytes_eq→eq (a ∷ as') [] h = cc
bytes_eq→eq (a ∷ as') (b ∷ bs) h = ground (arith, bytes_eq→eq as' bs)

pub bytes_eq_self : (a : Bytes) → bytes_eq a a ≡ true
unfolding bytes_eq
bytes_eq_self [] = refl
bytes_eq_self (a ∷ as') = ground (arith, bytes_eq_self as')

-- bytes.Compare(a, b) < 0: the order of the keys in the database.
unfoldable pub bytes_lt : Bytes → Bytes → Bool
bytes_lt [] [] = false
bytes_lt [] (b ∷ bs) = true
bytes_lt (a ∷ as') [] = false
bytes_lt (a ∷ as') (b ∷ bs) = if a == b then bytes_lt as' bs else ltb a b

abbrev pub put_be32 : ℕ → Bytes
put_be32 v = (v / 2 ^ 24 % 256) ∷ (v / 2 ^ 16 % 256) ∷ (v / 2 ^ 8 % 256) ∷ (v % 256) ∷ []

-- Reads the first four bytes. A shorter slice is a panic in Go; every caller has tested the length.
abbrev pub be32 : Bytes → ℕ
be32 (a ∷ b ∷ c ∷ d ∷ r) = a * 2 ^ 24 + b * 2 ^ 16 + c * 2 ^ 8 + d
be32 _ = 0

abbrev pub put_le32 : ℕ → Bytes
put_le32 v = (v % 256) ∷ (v / 2 ^ 8 % 256) ∷ (v / 2 ^ 16 % 256) ∷ (v / 2 ^ 24 % 256) ∷ []

abbrev pub le32 : Bytes → ℕ
le32 (a ∷ b ∷ c ∷ d ∷ r) = a + b * 2 ^ 8 + c * 2 ^ 16 + d * 2 ^ 24
le32 _ = 0

abbrev pub put_le64 : ℕ → Bytes
put_le64 v = put_le32 (v % 2 ^ 32) ++ put_le32 (v / 2 ^ 32 % 2 ^ 32)

abbrev pub le64 : Bytes → ℕ
le64 (a ∷ b ∷ c ∷ d ∷ r) = le32 (a ∷ b ∷ c ∷ d ∷ r) + le32 r * 2 ^ 32
le64 _ = 0

pub be32-put_be32 : (v : ℕ) → v < 2 ^ 32 → be32 (put_be32 v) ≡ v
be32-put_be32 v h = omega arith

pub le32-put_le32 : (v : ℕ) → v < 2 ^ 32 → le32 (put_le32 v) ≡ v
le32-put_le32 v h = omega arith

pub le64-put_le64 : (v : ℕ) → v < 2 ^ 64 → le64 (put_le64 v) ≡ v
le64-put_le64 v h = omega arith

pub put_be32-be32 : (bs : Bytes) → length bs ≡ 4 → IsBytes bs → put_be32 (be32 bs) ≡ bs
put_be32-be32 (a ∷ b ∷ c ∷ d ∷ []) h k = ground arith
put_be32-be32 bs h k = absurd (omega arith)

pub be32-lt : (bs : Bytes) → IsBytes bs → be32 bs < 2 ^ 32
be32-lt (a ∷ b ∷ c ∷ d ∷ r) h = omega arith
be32-lt [] h = omega arith
be32-lt _ h = omega arith

pub put_le32-le32 : (bs : Bytes) → length bs ≡ 4 → IsBytes bs → put_le32 (le32 bs) ≡ bs
put_le32-le32 (a ∷ b ∷ c ∷ d ∷ []) h k = ground arith
put_le32-le32 bs h k = absurd (omega arith)

pub le32-lt : (bs : Bytes) → IsBytes bs → le32 bs < 2 ^ 32
le32-lt (a ∷ b ∷ c ∷ d ∷ r) h = omega arith
le32-lt [] h = omega arith
le32-lt _ h = omega arith

pub le64-lt : (bs : Bytes) → IsBytes bs → le64 bs < 2 ^ 64
le64-lt (a ∷ b ∷ c ∷ d ∷ r) (ha, (hb, (hc, (hd, hr)))) = omega (arith, le32-lt r hr)
le64-lt [] h = omega arith
le64-lt _ h = omega arith

halves64 :
    (x y : ℕ) → x < 2 ^ 32 → y < 2 ^ 32 → put_le64 (x + y * 2 ^ 32) ≡ put_le32 x ++ put_le32 y
halves64 x y h k = cc (low, high)
  where
    low : (x + y * 2 ^ 32) % 2 ^ 32 ≡ x
    low = omega arith

    high : (x + y * 2 ^ 32) / 2 ^ 32 % 2 ^ 32 ≡ y
    high = omega arith

pub put_le64-le64 : (bs : Bytes) → length bs ≡ 8 → IsBytes bs → put_le64 (le64 bs) ≡ bs
put_le64-le64 (a ∷ b ∷ c ∷ d ∷ r) h (ha, (hb, (hc, (hd, hr)))) =
    halves64 (le32 (a ∷ b ∷ c ∷ d ∷ [])) (le32 r) (omega arith) (le32-lt r hr)
    ∙ cc (
      put_le32-le32 (a ∷ b ∷ c ∷ d ∷ []) refl (ha, (hb, (hc, (hd, tt)))),
      put_le32-le32 r (omega arith) hr,
    )
put_le64-le64 bs h k = absurd (omega arith)

unfoldable pub all_bytes : Bytes → Bool
all_bytes [] = true
all_bytes (b ∷ bs) = ltb b 256 && all_bytes bs

pub all_bytes-IsBytes : (bs : Bytes) → all_bytes bs ≡ true → IsBytes bs
unfolding all_bytes
all_bytes-IsBytes [] h = tt
all_bytes-IsBytes (b ∷ bs) h = (ground arith, all_bytes-IsBytes bs (ground arith))
