-- ===== src/Storage/Keys/History.antt =====
-- Keys of the history table, and of the index from outpoints to scripthashes.
use electrum_go.Base.{
  ℕ, ◌<◌, ◌^◌, ◌≡◌, refl, sym, ap, ◌∙◌, ◌↔◌, [], ◌∷◌, ◌++◌, length, take, drop, arith,
}
use electrum_go.Base.Lists.{
  take-append_exact, drop-append_exact, drop-append_more, drop-drop, length-append,
  length-take_of_le,
}
use electrum_go.Base.Int.{ℤ, IsI32}
use electrum_go.Base.Result.{Result, ok}
use electrum_go.Base.Bytes.{Bytes, IsBytes, put_be32, be32, be32-put_be32}
use electrum_go.Storage.Keys.{
  prefix_history, prefix_tx_index, height_bytes, read_height, make_history_key, parse_history_key,
  make_tx_index_key, parse_tx_index_key,
}
use electrum_go.Storage.Keys.Layout.{
  checked, checked_inv, split_at, put_be32-tail, put_be32-field, height_bytes-field,
  read_height-height_bytes, ok_pair_inv,
}

abbrev history_bytes : Bytes → ℤ → ℕ → ℕ → Bytes
history_bytes sh h i j = prefix_history ∷ sh ++ (height_bytes h ++ (put_be32 i ++ put_be32 j))

make_history_inv :
    (sh key : Bytes) (h : ℤ) (i j : ℕ)
    → make_history_key sh h i j ≡ ok key
    → (length sh ≡ 32) × (history_bytes sh h i j ≡ key)
unfolding make_history_key
make_history_inv sh key h i j e = ground arith

make_history_step :
    (sh : Bytes) (h : ℤ) (i j : ℕ)
    → length sh ≡ 32
    → make_history_key sh h i j ≡ ok (history_bytes sh h i j)
unfolding make_history_key
make_history_step sh h i j e = ground arith

parse_history_step :
    (r : Bytes)
    → length r ≡ 44
    → parse_history_key (prefix_history ∷ r)
      ≡ ok (
        take 32 r,
        read_height (take 4 (drop 32 r)),
        be32 (take 4 (drop 36 r)),
        be32 (take 4 (drop 40 r)),
      )
unfolding parse_history_key
parse_history_step r h = checked 45 prefix_history (prefix_history ∷ r) _ (omega arith) refl

parse-history_bytes :
    (sh : Bytes) (h : ℤ) (i j : ℕ)
    → length sh ≡ 32
    → IsI32 h
    → i < 2 ^ 32
    → j < 2 ^ 32
    → parse_history_key (history_bytes sh h i j) ≡ ok (sh, h, i, j)
parse-history_bytes sh h i j hs hh hi hj =
    let tail = height_bytes h ++ (put_be32 i ++ put_be32 j) in
    parse_history_step (sh ++ tail) (omega (arith, length-append sh tail))
    ∙ cc (
      take-append_exact 32 sh tail hs,
      drop-append_exact 32 sh tail hs,
      drop-append_more 32 36 sh tail hs (omega arith),
      drop-append_more 32 40 sh tail hs (omega arith),
      read_height-height_bytes h hh,
      be32-put_be32 i hi,
      be32-put_be32 j hj,
    )

ok_four_inv :
    (x a : Bytes) (y b : ℤ) (z c w d : ℕ)
    → ◌≡◌ {A = Result (Bytes × ℤ × ℕ × ℕ)} (ok (x, y, z, w)) (ok (a, b, c, d))
    → (x ≡ a) × (y ≡ b) × (z ≡ c) × (w ≡ d)
ok_four_inv x a y b z c w d h = (cc, cc, cc, cc)

rebuild_history :
    (r : Bytes)
    → IsBytes r
    → length r ≡ 44
    → history_bytes
        (take 32 r)
        (read_height (take 4 (drop 32 r)))
        (be32 (take 4 (drop 36 r)))
        (be32 (take 4 (drop 40 r)))
      ≡ prefix_history ∷ r
rebuild_history r b n = cc (
  height_bytes-field 32 r (omega arith) b,
  put_be32-field 36 r (omega arith) b,
  put_be32-tail 40 r n b,
  drop-drop 32 4 36 r refl,
  drop-drop 36 4 40 r refl,
  split_at 32 r,
  split_at 4 (drop 32 r),
  split_at 4 (drop 36 r),
)

parse_history_inv :
    (key sh : Bytes) (h : ℤ) (i j : ℕ)
    → IsBytes key
    → parse_history_key key ≡ ok (sh, h, i, j)
    → make_history_key sh h i j ≡ ok key
unfolding parse_history_key
parse_history_inv [] sh h i j b e = cc
parse_history_inv (q ∷ r) sh h i j b e =
    let (n, p, f) = checked_inv 45 prefix_history (q ∷ r) _ e in
    let (es, eh, ei, ej) = ok_four_inv _ sh _ h _ i _ j f in
    let n' : length r ≡ 44 = omega arith in
    rw (← es, ← eh, ← ei, ← ej, p)
      (make_history_step (take 32 r) _ _ _ (length-take_of_le 32 r (omega arith))
        ∙ ap ok (rebuild_history r b.1 n'))

pub parse_history_key_of_make :
    (sh key : Bytes) (h : ℤ) (i j : ℕ)
    → IsI32 h
    → i < 2 ^ 32
    → j < 2 ^ 32
    → make_history_key sh h i j ≡ ok key
    → parse_history_key key ≡ ok (sh, h, i, j)
parse_history_key_of_make sh key h i j hh hi hj e =
    let (hs, k) = make_history_inv sh key h i j e in
    ap parse_history_key (sym k) ∙ parse-history_bytes sh h i j hs hh hi hj

-- For an int32 height and uint32 indices, MakeHistoryKey returns a key exactly when ParseHistoryKey
-- reads it back as the same four fields.
pub make_history_key-iff-parse_history_key :
    (sh key : Bytes) (h : ℤ) (i j : ℕ)
    → IsBytes key
    → IsI32 h
    → i < 2 ^ 32
    → j < 2 ^ 32
    → (make_history_key sh h i j ≡ ok key) ↔ (parse_history_key key ≡ ok (sh, h, i, j))
make_history_key-iff-parse_history_key sh key h i j b hh hi hj =
    (parse_history_key_of_make sh key h i j hh hi hj, parse_history_inv key sh h i j b)

abbrev tx_index_bytes : Bytes → ℕ → Bytes
tx_index_bytes txid vout = prefix_tx_index ∷ txid ++ put_be32 vout

make_tx_index_inv :
    (txid key : Bytes) (vout : ℕ)
    → make_tx_index_key txid vout ≡ ok key
    → (length txid ≡ 32) × (tx_index_bytes txid vout ≡ key)
unfolding make_tx_index_key
make_tx_index_inv txid key vout e = ground arith

make_tx_index_step :
    (txid : Bytes) (vout : ℕ)
    → length txid ≡ 32
    → make_tx_index_key txid vout ≡ ok (tx_index_bytes txid vout)
unfolding make_tx_index_key
make_tx_index_step txid vout e = ground arith

parse-tx_index_bytes :
    (txid : Bytes) (vout : ℕ)
    → length txid ≡ 32
    → vout < 2 ^ 32
    → parse_tx_index_key (tx_index_bytes txid vout) ≡ ok (txid, vout)
unfolding parse_tx_index_key
parse-tx_index_bytes txid vout ht hv =
    checked 37 prefix_tx_index (tx_index_bytes txid vout) _
      (omega (arith, length-append txid (put_be32 vout))) refl
    ∙ cc (
      take-append_exact 32 txid (put_be32 vout) ht,
      drop-append_exact 32 txid (put_be32 vout) ht,
      be32-put_be32 vout hv,
    )

parse_tx_index_inv :
    (key txid : Bytes) (vout : ℕ)
    → IsBytes key
    → parse_tx_index_key key ≡ ok (txid, vout)
    → make_tx_index_key txid vout ≡ ok key
unfolding parse_tx_index_key
parse_tx_index_inv [] txid vout b e = cc
parse_tx_index_inv (q ∷ r) txid vout b e =
    let (n, p, f) = checked_inv 37 prefix_tx_index (q ∷ r) _ e in
    let (et, ev) = ok_pair_inv _ txid _ vout f in
    rw (← et, ← ev, p)
      (make_tx_index_step (take 32 r) _ (length-take_of_le 32 r (omega arith))
        ∙ cc (put_be32-tail 32 r (omega arith) b.1, split_at 32 r))

pub parse_tx_index_key_of_make :
    (txid key : Bytes) (vout : ℕ)
    → vout < 2 ^ 32
    → make_tx_index_key txid vout ≡ ok key
    → parse_tx_index_key key ≡ ok (txid, vout)
parse_tx_index_key_of_make txid key vout hv e =
    let (ht, k) = make_tx_index_inv txid key vout e in
    ap parse_tx_index_key (sym k) ∙ parse-tx_index_bytes txid vout ht hv

-- For a uint32 output index, MakeTxIndexKey returns a key exactly when ParseTxIndexKey reads it back.
pub make_tx_index_key-iff-parse_tx_index_key :
    (txid key : Bytes) (vout : ℕ)
    → IsBytes key
    → vout < 2 ^ 32
    → (make_tx_index_key txid vout ≡ ok key) ↔ (parse_tx_index_key key ≡ ok (txid, vout))
make_tx_index_key-iff-parse_tx_index_key txid key vout b hv =
    (parse_tx_index_key_of_make txid key vout hv, parse_tx_index_inv key txid vout b)
