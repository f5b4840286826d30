-- ===== src/Indexer/Block/Spent.antt =====
-- internal/indexer/block.go: what IndexBlock makes of outputs that are created and spent in one block.
use electrum_go.Base.{◌≡◌, ◌≢◌, refl, sym, ◌∙◌, subst, none, some, All, All-map}
use electrum_go.Base.Int.{ℤ, IsI32}
use electrum_go.Base.Bytes.{Bytes, IsBytes}
use electrum_go.Base.Result.{ok}
use electrum_go.Storage.Keys.{make_utxo_key}
use electrum_go.Storage.Pebble.{Pebble, Codecs, overlay}
use electrum_go.Indexer.Wire.{Block, Wire}
use electrum_go.Indexer.Mempool.{MempoolOverlay}
use electrum_go.Indexer.Block.{returned, start, index_block}
use electrum_go.Indexer.Block.Tracked.{Present}
use electrum_go.Indexer.Block.Loop.{index_txs-Tracked}
use electrum_go.Indexer.Block.Created.{all_outputs_of, created-index_txs}
use electrum_go.Indexer.Block.Undoable.{IsNew, FitsBlock, start-Tracked, index_block_inv}

module _ (p : Pebble) (codecs : Codecs) (w : Wire) (m m' : MempoolOverlay) (d d' : p.Db)
    (block : Block) (height : ℤ) where
  -- Take a block of which the database has nothing yet, whose numbers are in their Go ranges, with
  -- fewer than 2 ^ 32 inputs and outputs, and a database that holds bytes. If IndexBlock returns,
  -- every output of the block's transactions, besides OP_RETURN and zero values, has an entry in the
  -- utxo table, also if a transaction of the block spends it.
  pub index_block_keeps_outputs :
      ((k v : Bytes) → p.contents d k ≡ some v → IsBytes v)
      → IsI32 height
      → FitsBlock block
      → IsNew (p.contents d) w block height
      → index_block p codecs w m d block height ≡ returned (m', d')
      → All
          (λ o.
            (k : Bytes) → make_utxo_key o.scripthash o.txid o.vout ≡ ok k → p.contents d' k ≢ none)
          (all_outputs_of w height (w.block_hash block.header) block.transactions)
  index_block_keeps_outputs bytes fh (fits, few) fresh e =
      let hash = w.block_hash block.header in
      let c = p.contents d in
      let (s, batch, es, f, ec) = index_block_inv p codecs w m m' d d' block height e in
      let t =
        index_txs-Tracked p c bytes w height hash 0 (start p m d) s 0 block.transactions fh fits
          fresh.txids fresh.history es (start-Tracked p c m d (λ k. refl)) in
      let created : s.created ≡ all_outputs_of w height hash block.transactions =
        created-index_txs p w height hash (start p m d) s 0 block.transactions es in
      subst (All (Present (p.contents d'))) created (
        All-map (Present (overlay batch (p.contents s.db))) (Present (p.contents d'))
          (λ o there k ek gone. there k ek (sym (p.contents_commit s.db d' batch ec k) ∙ gone))
          s.created (f.keeps s.created t.stays (p.contents s.db)))
