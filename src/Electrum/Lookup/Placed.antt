-- ===== src/Electrum/Lookup/Placed.antt =====
-- internal/electrum/handlers.go: getTxFromDB of a block whose transactions lie behind one another.
use mathlib.Core.List.{append_assoc}
use electrum_go.Base.{
  ℕ, suc, ◌+◌, ◌-◌, ◌%◌, ◌^◌, ◌<◌, ◌≡◌, refl, sym, ap, ◌∙◌, some, List, [], ◌∷◌, ◌++◌, length,
  slice, length-append, take-append_exact, drop-append_exact, arith,
}
use electrum_go.Base.Int.{ℤ}
use electrum_go.Base.Bytes.{Bytes}
use electrum_go.Base.Hex.{hex_encode}
use electrum_go.Base.Result.{ok}
use electrum_go.Storage.Pebble.{Pebble, Codecs}
use electrum_go.Storage.Database.{get_tx_pos, get_tx_blob, get_tx_offsets}
use electrum_go.Indexer.Types.{txid_from_hex}
use electrum_go.Indexer.Block.Layout.{joined, starts}
use electrum_go.Electrum.Lookup.{found, offset_at, end_of, cut_tx, read_tx, get_tx_from_db}

length-starts : (n : ℕ) (raws : List Bytes) → length (starts n raws) ≡ length raws
length-starts n [] = refl
length-starts n (r ∷ raws) = ap suc (length-starts (n + length r) raws)

joined-append :
    (before after : List Bytes) → joined (before ++ after) ≡ joined before ++ joined after
joined-append [] after = refl
joined-append (r ∷ before) after =
    ap (λ (x : Bytes). r ++ x) (joined-append before after)
    ∙ sym (append_assoc r (joined before) (joined after))

offset_at-starts :
    (n : ℕ) (before : List Bytes) (raw : Bytes) (after : List Bytes)
    → offset_at (starts n (before ++ (raw ∷ after))) (length before) ≡ n + length (joined before)
unfolding offset_at
offset_at-starts n [] raw after = omega arith
offset_at-starts n (r ∷ before) raw after =
    omega (arith, offset_at-starts (n + length r) before raw after, length-append r (joined before))

offset_at-starts_next :
    (n : ℕ) (before : List Bytes) (raw next : Bytes) (after : List Bytes)
    → offset_at (starts n (before ++ (raw ∷ next ∷ after))) (suc (length before))
      ≡ n + length (joined before) + length raw
unfolding offset_at
offset_at-starts_next n [] raw next after = omega arith
offset_at-starts_next n (r ∷ before) raw next after = omega (
  arith,
  offset_at-starts_next (n + length r) before raw next after,
  length-append r (joined before),
)

length-joined :
    (before : List Bytes) (raw : Bytes) (after : List Bytes)
    → length (joined (before ++ (raw ∷ after)))
      ≡ length (joined before) + (length raw + length (joined after))
length-joined before raw after =
    ap length (joined-append before (raw ∷ after))
    ∙ length-append (joined before) (raw ++ joined after)
    ∙ ap (λ n. length (joined before) + n) (length-append raw (joined after))

end_of-starts :
    (before : List Bytes) (raw : Bytes) (after : List Bytes)
    → length (joined (before ++ (raw ∷ after))) < 2 ^ 32
    → length before + 1 < 2 ^ 32
    → end_of (joined (before ++ (raw ∷ after))) (starts 0 (before ++ (raw ∷ after))) (length before)
      ≡ length (joined before) + length raw
unfolding end_of
end_of-starts before raw [] h k =
    let count = length-starts 0 (before ++ (raw ∷ [])) ∙ length-append before (raw ∷ []) in
    let size = length-joined before raw [] in ground (arith, count, size)
end_of-starts before raw (next ∷ after) h k =
    let count =
      length-starts 0 (before ++ (raw ∷ next ∷ after))
      ∙ length-append before (raw ∷ next ∷ after) in
    let i : (length before + 1) % 2 ^ 32 ≡ suc (length before) = omega arith in
    rw i (ground (arith, count, offset_at-starts_next 0 before raw next after))

slice-joined :
    (before : List Bytes) (raw : Bytes) (after : List Bytes)
    → slice
        (length (joined before))
        (length (joined before) + length raw)
        (joined (before ++ (raw ∷ after)))
      ≡ raw
slice-joined before raw after =
    rw
      (
        joined-append before (raw ∷ after),
        drop-append_exact (length (joined before)) (joined before) (raw ++ joined after) refl,
      )
      (take-append_exact (length (joined before) + length raw - length (joined before)) raw
        (joined after) (omega arith))

-- What getTxFromDB cuts out for a transaction of the block.
cut_tx-starts :
    (before : List Bytes) (raw : Bytes) (after : List Bytes) (height : ℤ)
    → length (joined (before ++ (raw ∷ after))) < 2 ^ 32
    → length before + 1 < 2 ^ 32
    → cut_tx
        (joined (before ++ (raw ∷ after)))
        (starts 0 (before ++ (raw ∷ after)))
        (length before)
        height
      ≡ found (hex_encode raw) height
unfolding cut_tx
cut_tx-starts before raw after height h k =
    let count = length-starts 0 (before ++ (raw ∷ after)) ∙ length-append before (raw ∷ after) in
    let from : offset_at (starts 0 (before ++ (raw ∷ after))) (length before)
        ≡ length (joined before) =
      omega (arith, offset_at-starts 0 before raw after) in
    let to = end_of-starts before raw after h k in
    let size = length-joined before raw after in
    rw (to, from, slice-joined before raw after) (ground (arith, count, size))

-- Where the database has the transactions of a block behind one another as the block's blob, of less
-- than 2^32 bytes and with as many transactions at most, and their starts as its offsets, getTxFromDB
-- returns for a txid with a place in that block the bytes of the transaction at that place, in hex,
-- and the block's height.
pub get_tx_from_db-starts :
    (p : Pebble) (c : Codecs) (d : p.Db) (txid_str txid : Bytes) (height : ℤ) (before : List Bytes)
    (raw : Bytes) (after : List Bytes)
    → txid_from_hex txid_str ≡ ok txid
    → get_tx_pos p d txid ≡ ok (some (height, length before))
    → get_tx_blob p c d height ≡ ok (joined (before ++ (raw ∷ after)))
    → get_tx_offsets p d height ≡ ok (starts 0 (before ++ (raw ∷ after)))
    → length (joined (before ++ (raw ∷ after))) < 2 ^ 32
    → length before + 1 < 2 ^ 32
    → get_tx_from_db p c d txid_str ≡ found (hex_encode raw) height
unfolding get_tx_from_db read_tx
get_tx_from_db-starts p c d txid_str txid height before raw after et ep eb eo h k =
    rw (get_tx_from_db, et, ep, read_tx, eb, eo) (cut_tx-starts before raw after height h k)
