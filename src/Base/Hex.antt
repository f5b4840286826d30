-- ===== src/Base/Hex.antt =====
-- encoding/hex over texts as lists of bytes: lower-case digits out, both cases in.
use Prim.Native.Nat.{ℕ, ◌+◌, ◌-◌, ◌*◌, ◌/◌, ◌%◌, ◌<◌}
use mathlib.Core.Path.{◌≡◌, refl, ap}
use mathlib.Core.Bool.{◌&&◌}
use mathlib.Core.Option.{Option, none, some}
use mathlib.Core.List.{[], ◌∷◌}
use native.Mathlib.Omega.{arith}
use electrum_go.Base.Tests.{ltb, leb, if◌then◌else◌}
use electrum_go.Base.Lists.{length}
use electrum_go.Base.Bytes.{Bytes, IsBytes}
use electrum_go.Base.Result.{Result, ok, err, bad_hex, ◌>>=◌}

unfoldable pub hex_digit : ℕ → ℕ
hex_digit n = if ltb n 10 then 48 + n else 87 + n

unfoldable pub hex_value : ℕ → Option ℕ
hex_value c =
    if leb b'0' c && leb c b'9'
    then some (c - b'0')
    else if leb b'a' c && leb c b'f'
    then some (c - b'a' + 10)
    else if leb b'A' c && leb c b'F'
    then some (c - b'A' + 10)
    else none

-- hex.EncodeToString
unfoldable pub hex_encode : Bytes → Bytes
hex_encode [] = []
hex_encode (b ∷ bs) = hex_digit (b / 16) ∷ hex_digit (b % 16) ∷ hex_encode bs

-- Two digits in front of what is decoded behind them.
unfoldable pub hex_join : Option ℕ → Option ℕ → Result Bytes → Result Bytes
hex_join none lo rest = err bad_hex
hex_join (some hi) none rest = err bad_hex
hex_join (some hi) (some lo) rest = do bs ← rest; ok ((hi * 16 + lo) ∷ bs)

-- hex.DecodeString: an error at a wrong digit and at an odd length.
unfoldable pub hex_decode : Bytes → Result Bytes
hex_decode [] = ok []
hex_decode (c ∷ []) = err bad_hex
hex_decode (c ∷ d ∷ s) = hex_join (hex_value c) (hex_value d) (hex_decode s)

hex_value-hex_digit : (n : ℕ) → n < 16 → hex_value (hex_digit n) ≡ some n
unfolding hex_value hex_digit
hex_value-hex_digit n h = ground arith

pub hex_decode-hex_encode : (bs : Bytes) → IsBytes bs → hex_decode (hex_encode bs) ≡ ok bs
unfolding hex_decode hex_encode
hex_decode-hex_encode [] h = refl
hex_decode-hex_encode (b ∷ bs) (hb, hs) =
    rw
      (
        hex_value-hex_digit (b / 16) (omega arith),
        hex_value-hex_digit (b % 16) (omega arith),
        hex_decode-hex_encode bs hs,
      )
      (unfold hex_join in ap (λ n. ok (n ∷ bs)) (omega arith))

pub length-hex_encode : (bs : Bytes) → length (hex_encode bs) ≡ 2 * length bs
unfolding hex_encode
length-hex_encode [] = omega arith
length-hex_encode (b ∷ bs) = omega (arith, length-hex_encode bs)
