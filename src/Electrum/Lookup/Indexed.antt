-- ===== src/Electrum/Lookup/Indexed.antt =====
-- internal/electrum/handlers.go: getTxFromDB of a block that internal/indexer/block.go has indexed.
use electrum_go.Base.{
  suc, ◌+◌, ◌^◌, ◌<◌, ◌≡◌, refl, sym, ap, ◌∙◌, some, List, [], ◌∷◌, ◌++◌, length, map, arith,
}
use electrum_go.Base.Int.{ℤ}
use electrum_go.Base.Bytes.{Bytes}
use electrum_go.Base.Hex.{hex_encode}
use electrum_go.Base.Result.{Result, ok, ok_injective}
use electrum_go.Storage.Pebble.{Pebble, Codecs}
use electrum_go.Storage.Database.{get_tx_pos, get_tx_blob, get_tx_offsets}
use electrum_go.Indexer.Types.{txid_from_hex}
use electrum_go.Indexer.Wire.{Tx, Wire}
use electrum_go.Indexer.Mempool.{MempoolOverlay}
use electrum_go.Indexer.Block.{returned, index_txs, start}
use electrum_go.Indexer.Block.Entries.{Indexing}
use electrum_go.Indexer.Block.Layout.{joined, starts, index_txs-joined}
use electrum_go.Electrum.Lookup.{found, get_tx_from_db}
use electrum_go.Electrum.Lookup.Placed.{get_tx_from_db-starts}

-- The serializations before one of them and those behind it.
split_raws :
    (f : Tx → Result Bytes) (before : List Tx) (tx : Tx) (after : List Tx) (raws : List Bytes)
    → map f (before ++ (tx ∷ after)) ≡ map ok raws
    → (front : List Bytes) × (raw : Bytes) × (back : List Bytes) × (raws ≡ front ++ (raw ∷ back))
      × (length front ≡ length before)
      × (f tx ≡ ok raw)
split_raws f [] tx after [] e = absurd (cc)
split_raws f [] tx after (r ∷ raws) e = ([], r, raws, refl, refl, cc)
split_raws f (b ∷ before) tx after [] e = absurd (cc)
split_raws f (b ∷ before) tx after (r ∷ raws) e =
    let (front, raw, back, er, el, ef) = split_raws f before tx after raws (cc) in
    (r ∷ front, raw, back, ap (◌∷◌ r) er, ap suc el, ef)

module _ (p : Pebble) (c : Codecs) where
  -- Where the loop of IndexBlock returns for the transactions of a block, fewer than 2^32 with less
  -- than 2^32 bytes in the blob, and a database has this blob and these offsets for the height and the
  -- place of one of the transactions for its txid, getTxFromDB returns for this txid that
  -- transaction's serialization, in hex, and the height.
  pub get_tx_from_db-index_txs :
      (w : Wire) (height : ℤ) (block_hash : Bytes) (m : MempoolOverlay) (d d' : p.Db)
      (before : List Tx) (tx : Tx) (after : List Tx) (s : Indexing p.Db) (txid_str raw : Bytes)
      → index_txs p w height block_hash (start p m d) 0 (before ++ (tx ∷ after)) ≡ returned s
      → length s.blob < 2 ^ 32
      → length before + 1 < 2 ^ 32
      → txid_from_hex txid_str ≡ ok (w.tx_hash tx)
      → get_tx_pos p d' (w.tx_hash tx) ≡ ok (some (height, length before))
      → get_tx_blob p c d' height ≡ ok s.blob
      → get_tx_offsets p d' height ≡ ok s.offsets
      → w.serialize_tx tx ≡ ok raw
      → get_tx_from_db p c d' txid_str ≡ found (hex_encode raw) height
  get_tx_from_db-index_txs w height block_hash m d d' before tx after s txid_str raw e h k et ep eb
        eo es =
      let (raws, er, blob, offsets) =
        index_txs-joined p w height block_hash m d (before ++ (tx ∷ after)) s e h in
      let (front, raw', back, eraws, el, ef) = split_raws w.serialize_tx before tx after raws er in
      let blob' : s.blob ≡ joined (front ++ (raw' ∷ back)) = blob ∙ ap joined eraws in
      let found' =
        get_tx_from_db-starts p c d' txid_str (w.tx_hash tx) height front raw' back et (rw el ep)
          (eb ∙ ap ok blob') (eo ∙ ap ok (offsets ∙ ap (starts 0) eraws))
          (omega (arith, h, ap length blob')) (omega (arith, k, el)) in
      rw (ok_injective (sym es ∙ ef)) found'
