-- ===== src/Indexer/Block/Entries.antt =====
-- internal/indexer/block.go: what IndexBlock puts into its batch and its undo record for an output that
-- is spent, an output that is created, and an entry of the history.
use electrum_go.Base.{
  ℕ, suc, ◌+◌, ◌%◌, ◌^◌, Bool, true, ◌||◌, List, [], ◌∷◌, ◌++◌, length, if◌then◌else◌,
}
use electrum_go.Base.Int.{ℤ, pos, eq_int}
use electrum_go.Base.Bytes.{Bytes}
use electrum_go.Base.Hex.{hex_encode, hex_decode}
use electrum_go.Base.Map.{bytes_key, Map, set, has}
use electrum_go.Base.Result.{Result, ok, err, ◌>>=◌}
use electrum_go.Storage.Keys.{make_utxo_key, make_tx_index_key, make_history_key}
use electrum_go.Storage.Values.{UtxoValue, encode_utxo_value}
use electrum_go.Storage.Undo.{UndoOutput, UndoHistory, UndoBlock}
use electrum_go.Storage.Pebble.{Codecs, Checkpoint}
use electrum_go.Storage.Database.{
  Batch, then_put, then_del, save_header_in_batch, save_tx_pos_in_batch, save_block_txids_in_batch,
  save_tx_offsets_in_batch, save_undo_in_batch, save_checkpoint_in_batch, save_tx_blob_in_batch,
}
use electrum_go.Indexer.Types.{compute_scripthash, is_op_return}
use electrum_go.Indexer.Wire.{TxIn, TxOut, Tx, Wire}
use electrum_go.Indexer.Mempool.{MempoolOverlay}

-- The variables of the loop; `touched` is txScripthashes, of the transaction at hand.
pub record Indexing (Db : Type 0) : Type 0 where
  pub batch : Batch
  pub spent : List UndoOutput
  pub created : List UndoOutput
  pub history : List UndoHistory
  pub added : Map Bytes Bool
  pub txids : List Bytes
  pub blob : Bytes
  pub offsets : List ℕ
  pub history_index : ℕ
  pub touched : Map Bytes Bool
  pub overlay : MempoolOverlay
  pub db : Db

-- What the undo record keeps of an output that is spent, of one that is created, and of an entry.
abbrev pub spent_undo : TxIn → Bytes → UtxoValue → UndoOutput
spent_undo i scripthash utxo = record {
  scripthash = scripthash;
  txid = i.prev_hash;
  vout = i.prev_index;
  value = utxo.value;
  height = utxo.height;
  block_hash = utxo.block_hash;
}

abbrev pub created_undo : Wire → ℤ → Bytes → Bytes → ℕ → TxOut → UndoOutput
created_undo w height block_hash txid vout o = record {
  scripthash = compute_scripthash w.sha256 o.pk_script;
  txid = txid;
  vout = vout % 2 ^ 32;
  value = o.value;
  height = height;
  block_hash = block_hash;
}

module _ {Db : Type 0} where
  -- The place of a transaction, its txid, and its bytes at the end of the blob.
  unfoldable pub place_tx : Wire → ℤ → Indexing Db → ℕ → Tx → Result (Indexing Db)
  place_tx w height s tx_index tx = do
    raw ← w.serialize_tx tx
    batch ← save_tx_pos_in_batch s.batch (w.tx_hash tx) height (tx_index % 2 ^ 32)
    ok (record s {
      txids = s.txids ++ (w.tx_hash tx ∷ []);
      offsets = s.offsets ++ ((length s.blob % 2 ^ 32) ∷ []);
      blob = s.blob ++ raw;
      batch = batch;
      touched = [];
    })

  -- An output of the index that an input spends.
  unfoldable pub spend_output : Indexing Db → TxIn → Bytes → UtxoValue → Result (Indexing Db)
  spend_output s i scripthash utxo = do
    utxo_key ← make_utxo_key scripthash i.prev_hash i.prev_index
    tx_index_key ← make_tx_index_key i.prev_hash i.prev_index
    ok (record s {
      spent = s.spent ++ (spent_undo i scripthash utxo ∷ []);
      batch = then_del (then_del s.batch utxo_key) tx_index_key;
      touched = set s.touched (hex_encode scripthash) true;
    })

  -- An output that the index takes.
  unfoldable pub create_output : Indexing Db → UndoOutput → Result (Indexing Db)
  create_output s o = do
    utxo_key ← make_utxo_key o.scripthash o.txid o.vout
    let value =
        encode_utxo_value (record { value = o.value; height = o.height; block_hash = o.block_hash })
    tx_index_key ← make_tx_index_key o.txid o.vout
    ok (record s {
      batch = then_put (then_put s.batch utxo_key value) tx_index_key o.scripthash;
      created = s.created ++ (o ∷ []);
      touched = set s.touched (hex_encode o.scripthash) true;
    })

  -- An OP_RETURN and an output without value are passed over.
  unfoldable pub index_outputs :
      Wire → ℤ → Bytes → Bytes → Indexing Db → ℕ → List TxOut → Result (Indexing Db)
  index_outputs w height block_hash txid s vout [] = ok s
  index_outputs w height block_hash txid s vout (o ∷ os) = do
    s' ←
        (if is_op_return o.pk_script || eq_int o.value (pos 0)
          then ok s
          else create_output s (created_undo w height block_hash txid vout o))
    index_outputs w height block_hash txid s' (suc vout) os

  unfoldable pub write_history_entry : Indexing Db → UndoHistory → Result (Indexing Db)
  write_history_entry s h = do
    key ← make_history_key h.scripthash h.height h.tx_index h.index
    ok (record s {
      batch = then_put s.batch key [];
      history = s.history ++ (h ∷ []);
      history_index = (s.history_index + 1) % 2 ^ 32;
    })

  -- One entry of the history, unless the block has it already.
  unfoldable pub index_history : ℤ → ℕ → Bytes → Indexing Db → Bytes → Result (Indexing Db)
  index_history height tx_index txid_hex s sh_hex =
      let history_key = sh_hex ++ (b':' ∷ txid_hex) in
      let s' : Indexing Db = record s { added = set s.added history_key true } in
      if has s.added history_key then ok s else elim (hex_decode sh_hex) [
        | err e ↦ ok s'
        | ok scripthash ↦ write_history_entry s' (record {
          scripthash = scripthash;
          height = height;
          tx_index = tx_index;
          index = s.history_index;
        })
      ]

  unfoldable pub index_histories : ℤ → ℕ → Bytes → Indexing Db → List Bytes → Result (Indexing Db)
  index_histories height tx_index txid_hex s [] = ok s
  index_histories height tx_index txid_hex s (k ∷ ks) = do
    s' ← index_history height tx_index txid_hex s k
    index_histories height tx_index txid_hex s' ks

-- The tables of the block behind the entries of its transactions.
unfoldable pub finish_batch :
    Codecs → Batch → UndoBlock → Bytes → List Bytes → Bytes → List ℕ → Checkpoint → Result Batch
finish_batch c batch undo header txids blob offsets checkpoint = do
  with_header ← save_header_in_batch batch undo.height header
  with_txids ← save_block_txids_in_batch with_header undo.height txids
  with_blob ← save_tx_blob_in_batch c with_txids undo.height blob
  with_offsets ← save_tx_offsets_in_batch with_blob undo.height offsets
  with_undo ← save_undo_in_batch with_offsets undo undo.block_hash
  save_checkpoint_in_batch c with_undo checkpoint
