-- ===== src/Storage/Values/RoundTrip.antt =====
-- The encodings of values are read back.
use electrum_go.Base.{
  ℕ, ◌+◌, ◌≤◌, ◌≡◌, refl, sym, ap, ◌∙◌, ◌↔◌, subst, ◌++◌, length, take, drop, arith, ◌==◌, ==_iff,
  drop-drop, length-take_of_le, take_all, length-drop, take-append-drop, All-drop, All-take,
}
use electrum_go.Base.Int.{
  ℤ, IsI32, IsI64, to_signed32-IsI32, to_signed64-IsI64, to_unsigned, to_signed,
  to_signed-to_unsigned32, to_signed-to_unsigned64, to_unsigned-to_signed32,
  to_unsigned-to_signed64, to_unsigned32-lt, to_unsigned64-lt,
}
use electrum_go.Base.Bytes.{
  Bytes, IsByte, IsBytes, put_le32, le32, put_le64, le64, le32-put_le32, le64-put_le64,
  put_le32-le32, put_le64-le64, le32-lt, le64-lt,
}
use electrum_go.Base.Result.{ok, guard_inv, ok_injective}
use electrum_go.Storage.Values.{
  UtxoValue, encode_utxo_value, decode_utxo_value, MempoolValue, encode_mempool_value,
  decode_mempool_value,
}

abbrev pub FitsUtxo : UtxoValue → Type 0
FitsUtxo u = IsI64 u.value × IsI32 u.height × (length u.block_hash ≡ 32)

read_i64 : (x : ℤ) → IsI64 x → to_signed 64 (le64 (put_le64 (to_unsigned 64 x))) ≡ x
read_i64 x h =
    ap (to_signed 64) (le64-put_le64 (to_unsigned 64 x) (to_unsigned64-lt x))
    ∙ to_signed-to_unsigned64 x h

read_i32 : (x : ℤ) → IsI32 x → to_signed 32 (le32 (put_le32 (to_unsigned 32 x))) ≡ x
read_i32 x h =
    ap (to_signed 32) (le32-put_le32 (to_unsigned 32 x) (to_unsigned32-lt x))
    ∙ to_signed-to_unsigned32 x h

take_hash : (h : Bytes) → length h ≡ 32 → take 32 h ≡ h
take_hash h n = ap (λ k. take k h) (sym n) ∙ take_all h

fields_decode :
    (v h : ℕ) (hash : Bytes)
    → length hash ≡ 32
    → decode_utxo_value (put_le64 v ++ (put_le32 h ++ hash))
      ≡ ok (record {
        value = to_signed 64 (le64 (put_le64 v));
        height = to_signed 32 (le32 (put_le32 h));
        block_hash = take 32 hash;
      })
unfolding decode_utxo_value
fields_decode v h hash n = rw n refl

encode_fields :
    (u : UtxoValue)
    → length u.block_hash ≡ 32
    → encode_utxo_value u
      ≡ put_le64 (to_unsigned 64 u.value) ++ (put_le32 (to_unsigned 32 u.height) ++ u.block_hash)
unfolding encode_utxo_value
encode_fields u n = rw n refl

decode-encode_utxo_value :
    (u : UtxoValue) → FitsUtxo u → decode_utxo_value (encode_utxo_value u) ≡ ok u
decode-encode_utxo_value u (fv, fh, n) =
    ap decode_utxo_value (encode_fields u n)
    ∙ fields_decode (to_unsigned 64 u.value) (to_unsigned 32 u.height) u.block_hash n
    ∙ cc (read_i64 u.value fv, read_i32 u.height fh, take_hash u.block_hash n)

-- Fixed-width fields at an offset, encoded again.
le64_field :
    (n : ℕ) (xs : Bytes)
    → n + 8 ≤ length xs
    → IsBytes xs
    → put_le64 (to_unsigned 64 (to_signed 64 (le64 (take 8 (drop n xs))))) ≡ take 8 (drop n xs)
le64_field n xs h b =
    let field = take 8 (drop n xs) in
    let fb : IsBytes (take 8 (drop n xs)) =
      All-take IsByte 8 (drop n xs) (All-drop IsByte n xs b) in
    ap put_le64 (to_unsigned-to_signed64 (le64 field) (le64-lt field fb))
    ∙ put_le64-le64 field (length-take_of_le 8 (drop n xs) (omega (arith, length-drop n xs))) fb

le32_field :
    (n : ℕ) (xs : Bytes)
    → n + 4 ≤ length xs
    → IsBytes xs
    → put_le32 (to_unsigned 32 (to_signed 32 (le32 (take 4 (drop n xs))))) ≡ take 4 (drop n xs)
le32_field n xs h b =
    let field = take 4 (drop n xs) in
    let fb : IsBytes (take 4 (drop n xs)) =
      All-take IsByte 4 (drop n xs) (All-drop IsByte n xs b) in
    ap put_le32 (to_unsigned-to_signed32 (le32 field) (le32-lt field fb))
    ∙ put_le32-le32 field (length-take_of_le 4 (drop n xs) (omega (arith, length-drop n xs))) fb

utxo_fields :
    (xs : Bytes) (u : UtxoValue)
    → decode_utxo_value xs ≡ ok u
    → (length xs ≡ 44)
      × (to_signed 64 (le64 (take 8 xs)) ≡ u.value)
      × (to_signed 32 (le32 (take 4 (drop 8 xs))) ≡ u.height)
      × (take 32 (drop 12 xs) ≡ u.block_hash)
unfolding decode_utxo_value
utxo_fields xs u h =
    let (n, e) = guard_inv (length xs == 44) _ _ h in
    let e' = ok_injective e in
    (
      (==_iff (length xs) 44).0 n,
      ap (λ (v : UtxoValue). v.value) e',
      ap (λ (v : UtxoValue). v.height) e',
      ap (λ (v : UtxoValue). v.block_hash) e',
    )

pieces : (xs : Bytes) → xs ≡ take 8 xs ++ (take 4 (drop 8 xs) ++ drop 12 xs)
pieces xs = cc (take-append-drop 8 xs, take-append-drop 4 (drop 8 xs), drop-drop 8 4 12 xs refl)

encode-decode_utxo_value :
    (xs : Bytes) (u : UtxoValue)
    → IsBytes xs
    → FitsUtxo u
    → decode_utxo_value xs ≡ ok u
    → encode_utxo_value u ≡ xs
encode-decode_utxo_value xs u b (fv, fh, n) h =
    let (l, ev, eh, eb) = utxo_fields xs u h in
    encode_fields u n
    ∙ cc (
      ev,
      eh,
      eb,
      le64_field 0 xs (omega arith) b,
      le32_field 8 xs (omega arith) b,
      take_hash (drop 12 xs) (omega (arith, length-drop 12 xs)),
      pieces xs,
    )

-- What is read from bytes fits its types, and is written back as these bytes.
pub decode_utxo_value_inv :
    (xs : Bytes) (u : UtxoValue)
    → IsBytes xs
    → decode_utxo_value xs ≡ ok u
    → FitsUtxo u × (encode_utxo_value u ≡ xs)
decode_utxo_value_inv xs u b h =
    let (l, ev, eh, eb) = utxo_fields xs u h in
    let fits : FitsUtxo u = (
      subst IsI64 ev (to_signed64-IsI64 _ (le64-lt _ (All-take IsByte 8 xs b))),
      subst IsI32 eh (
          to_signed32-IsI32 _ (le32-lt _ (All-take IsByte 4 (drop 8 xs) (All-drop IsByte 8 xs b)))),
      rw (← eb) (length-take_of_le 32 (drop 12 xs) (omega (arith, length-drop 12 xs))),
    ) in
    (fits, encode-decode_utxo_value xs u b fits h)

-- For a value with an int64 amount, an int32 height and a hash of 32 bytes: EncodeUTXOValue writes
-- just those bytes which DecodeUTXOValue reads as that value.
pub encode_utxo_value-iff-decode_utxo_value :
    (xs : Bytes) (u : UtxoValue)
    → IsBytes xs
    → FitsUtxo u
    → (encode_utxo_value u ≡ xs) ↔ (decode_utxo_value xs ≡ ok u)
encode_utxo_value-iff-decode_utxo_value xs u b f = (
  λ e. ap decode_utxo_value (sym e) ∙ decode-encode_utxo_value u f,
  encode-decode_utxo_value xs u b f,
)

abbrev pub FitsMempool : MempoolValue → Type 0
FitsMempool m = IsI64 m.value × IsI64 m.first_seen × IsI64 m.fee

decode-encode_mempool_value :
    (m : MempoolValue) → FitsMempool m → decode_mempool_value (encode_mempool_value m) ≡ ok m
unfolding decode_mempool_value encode_mempool_value
decode-encode_mempool_value m (fv, fs, ff) =
    cc (read_i64 m.value fv, read_i64 m.first_seen fs, read_i64 m.fee ff)

mempool_fields :
    (xs : Bytes) (m : MempoolValue)
    → decode_mempool_value xs ≡ ok m
    → (length xs ≡ 24)
      × (to_signed 64 (le64 (take 8 xs)) ≡ m.value)
      × (to_signed 64 (le64 (take 8 (drop 8 xs))) ≡ m.first_seen)
      × (to_signed 64 (le64 (take 8 (drop 16 xs))) ≡ m.fee)
unfolding decode_mempool_value
mempool_fields xs m h =
    let (n, e) = guard_inv (length xs == 24) _ _ h in
    let e' = ok_injective e in
    (
      (==_iff (length xs) 24).0 n,
      ap (λ (v : MempoolValue). v.value) e',
      ap (λ (v : MempoolValue). v.first_seen) e',
      ap (λ (v : MempoolValue). v.fee) e',
    )

take_eight : (h : Bytes) → length h ≡ 8 → take 8 h ≡ h
take_eight h n = ap (λ k. take k h) (sym n) ∙ take_all h

mempool_pieces : (xs : Bytes) → xs ≡ take 8 xs ++ (take 8 (drop 8 xs) ++ drop 16 xs)
mempool_pieces xs =
    cc (take-append-drop 8 xs, take-append-drop 8 (drop 8 xs), drop-drop 8 8 16 xs refl)

encode-decode_mempool_value :
    (xs : Bytes) (m : MempoolValue)
    → IsBytes xs
    → decode_mempool_value xs ≡ ok m
    → encode_mempool_value m ≡ xs
unfolding encode_mempool_value
encode-decode_mempool_value xs m b h =
    let (l, ev, es, ef) = mempool_fields xs m h in
    cc (
      ev,
      es,
      ef,
      le64_field 0 xs (omega arith) b,
      le64_field 8 xs (omega arith) b,
      le64_field 16 xs (omega arith) b,
      take_eight (drop 16 xs) (omega (arith, length-drop 16 xs)),
      mempool_pieces xs,
    )

-- For a value of three int64 fields EncodeMempoolValue writes just those bytes which
-- DecodeMempoolValue reads as that value.
pub encode_mempool_value-iff-decode_mempool_value :
    (xs : Bytes) (m : MempoolValue)
    → IsBytes xs
    → FitsMempool m
    → (encode_mempool_value m ≡ xs) ↔ (decode_mempool_value xs ≡ ok m)
encode_mempool_value-iff-decode_mempool_value xs m b f = (
  λ e. ap decode_mempool_value (sym e) ∙ decode-encode_mempool_value m f,
  encode-decode_mempool_value xs m b,
)
