-- ===== src/Indexer/Rollback.antt =====
-- internal/indexer/reorg.go, rollbackBlock: the batch that undoes a block, from its undo record.
pub mod Undone
pub mod Restore
use electrum_go.Base.{ℕ, List, [], ◌∷◌}
use electrum_go.Base.Int.{ℤ}
use electrum_go.Base.Bytes.{Bytes}
use electrum_go.Base.Result.{Result, ok, ◌>>=◌}
use electrum_go.Storage.Keys.{make_utxo_key, make_tx_index_key, make_history_key}
use electrum_go.Storage.Values.{encode_utxo_value}
use electrum_go.Storage.Undo.{UndoOutput, UndoHistory, UndoBlock}
use electrum_go.Storage.Pebble.{Pebble}
use electrum_go.Storage.Database.{
  Batch, then_put, then_del, get_undo, delete_header_in_batch, delete_block_txids_in_batch,
  delete_undo_in_batch,
}

-- The outputs that the block created go, with their entries in the outpoint index.
unfoldable pub delete_created : Batch → List UndoOutput → Result Batch
delete_created batch [] = ok batch
delete_created batch (o ∷ os) = do
  utxo_key ← make_utxo_key o.scripthash o.txid o.vout
  tx_index_key ← make_tx_index_key o.txid o.vout
  delete_created (then_del (then_del batch utxo_key) tx_index_key) os

-- The outputs that the block spent come back, with their entries in the outpoint index.
unfoldable pub restore_spent : Batch → List UndoOutput → Result Batch
restore_spent batch [] = ok batch
restore_spent batch (o ∷ os) = do
  utxo_key ← make_utxo_key o.scripthash o.txid o.vout
  tx_index_key ← make_tx_index_key o.txid o.vout
  let value =
      encode_utxo_value (record { value = o.value; height = o.height; block_hash = o.block_hash })
  restore_spent (then_put (then_put batch utxo_key value) tx_index_key o.scripthash) os

unfoldable pub delete_history : Batch → List UndoHistory → Result Batch
delete_history batch [] = ok batch
delete_history batch (h ∷ hs) = do
  key ← make_history_key h.scripthash h.height h.tx_index h.index
  delete_history (then_del batch key) hs

-- The whole batch of an undo record.
unfoldable pub rollback_batch : UndoBlock → ℤ → Bytes → Result Batch
rollback_batch undo height hash = do
  created ← delete_created [] undo.created_outputs
  spent ← restore_spent created undo.spent_outputs
  history ← delete_history spent undo.history_entries
  header ← delete_header_in_batch history height
  txids ← delete_block_txids_in_batch header height
  delete_undo_in_batch txids height hash

module _ (p : Pebble) where
  unfoldable pub rollback_block : p.Db → ℤ → Bytes → Result p.Db
  rollback_block d height hash = do
    undo ← get_undo p d height hash
    batch ← rollback_batch undo height hash
    p.commit d batch
