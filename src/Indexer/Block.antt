-- ===== src/Indexer/Block.antt =====
-- internal/indexer/block.go: IndexBlock. It fills one batch over the transactions of a block, takes
-- what the block has from the mempool overlay as it goes, and commits the batch at the end. An error
-- leaves the overlay, and the mempool table, as they are by then. The scripthashes of a transaction
-- are taken in the order in which they were first or last set; Go's order is not specified.
pub mod Entries
pub mod Keys
pub mod Untouched
pub mod Tracked
pub mod Inputs
pub mod Outputs
pub mod Loop
pub mod Finish
pub mod Created
pub mod Undoable
pub mod Layout
pub mod Spent
pub mod Runs
use electrum_go.Base.{
  ℕ, suc, ◌≡◌, refl, ◌+◌, ◌%◌, ◌^◌, Bool, true, false, not, ◌||◌, Option, none, some, List, [], ◌∷◌,
  ◌++◌, length, ◌==◌, if◌then◌else◌,
}
use electrum_go.Base.Int.{ℤ, pos, eq_int}
use electrum_go.Base.Bytes.{Bytes, bytes_eq}
use electrum_go.Base.Hex.{hex_encode, hex_decode}
use electrum_go.Base.Map.{bytes_key, Map, get, set, has}
use electrum_go.Base.Sets.{keys}
use electrum_go.Base.Result.{Error, Result, ok, err}
use electrum_go.Storage.Keys.{make_utxo_key, make_tx_index_key, make_history_key}
use electrum_go.Storage.Values.{UtxoValue, encode_utxo_value}
use electrum_go.Storage.Undo.{UndoOutput, UndoHistory, UndoBlock}
use electrum_go.Storage.Pebble.{Pebble, Codecs, Checkpoint}
use electrum_go.Storage.Database.{
  Batch, then_put, then_del, zero_checkpoint, get_utxo, get_scripthash_for_outpoint,
  save_header_in_batch, save_block_txids_in_batch, save_tx_pos_in_batch, save_tx_offsets_in_batch,
  save_undo_in_batch, save_checkpoint_in_batch, save_tx_blob_in_batch, load_checkpoint,
}
use electrum_go.Indexer.Types.{compute_scripthash, is_op_return, is_coinbase_input}
use electrum_go.Indexer.Wire.{TxIn, TxOut, Tx, Block, Wire}
use electrum_go.Indexer.Block.Entries.{
  Indexing, place_tx, spend_output, index_outputs, index_histories, finish_batch,
}
use electrum_go.Indexer.Mempool.{MempoolOverlay}
use electrum_go.Indexer.Mempool.Methods.{remove_transaction}
use electrum_go.Indexer.Mempool.Queries.{remove_output}

-- A value, or an error with the overlay and the database at that point.
pub data Outcome (Db A : Type 0) : Type 0 where
  returned : A → Outcome Db A
  failed : Error → MempoolOverlay → Db → Outcome Db A

infixl 5 ◌>>=◌
abbrev pub ◌>>=◌ : {Db A B : Type 0} → Outcome Db A → (A → Outcome Db B) → Outcome Db B
returned a >>= next = next a
failed e m d >>= next = failed e m d

-- A call that can fail, where the overlay and the database are these.
abbrev pub attempt : {Db A : Type 0} → MempoolOverlay → Db → Result A → Outcome Db A
attempt m d (ok a) = returned a
attempt m d (err e) = failed e m d

pub returned_injective :
    {Db A : Type 0} {a b : A} → ◌≡◌ {A = Outcome Db A} (returned a) (returned b) → a ≡ b
returned_injective h = cc

-- What a chain that returned a value tells of its first step.
pub then_inv :
    {Db A B : Type 0} (step : Outcome Db A) (next : A → Outcome Db B) {b : B}
    → (step >>= next) ≡ returned b
    → (a : A) × (step ≡ returned a) × (next a ≡ returned b)
then_inv (returned a) next h = (a, refl, h)
then_inv (failed e m d) next h = absurd (cc)

pub attempt_inv :
    {Db A : Type 0} (m : MempoolOverlay) (d : Db) (r : Result A) {a : A}
    → attempt m d r ≡ returned a
    → r ≡ ok a
attempt_inv m d (ok x) h = cc
attempt_inv m d (err e) h = absurd (cc)

module _ (p : Pebble) where
  open p use {Db}

  -- One input: the output that the index has goes, and the mempool's.
  unfoldable pub index_input : Indexing Db → TxIn → Outcome Db (Indexing Db)
  index_input s i = if is_coinbase_input i.prev_hash then returned s else (do
    found ← attempt s.overlay s.db (get_scripthash_for_outpoint p s.db i.prev_hash i.prev_index)
    elim found [
      | none ↦ returned s
      | some scripthash ↦ do
        utxo ← attempt s.overlay s.db (get_utxo p s.db scripthash i.prev_hash i.prev_index)
        spent ←
            attempt s.overlay s.db
              (elim utxo [ none ↦ ok s | some u ↦ spend_output s i scripthash u ])
        returned (record spent { overlay = remove_output spent.overlay i.prev_hash i.prev_index })
    ])

  unfoldable pub index_inputs : Indexing Db → List TxIn → Outcome Db (Indexing Db)
  index_inputs s [] = returned s
  index_inputs s (i ∷ is') = do s' ← index_input s i; index_inputs s' is'

  unfoldable pub leave_mempool : Bytes → Indexing Db → Indexing Db
  leave_mempool txid s =
      let (m, d, affected) = remove_transaction p s.overlay s.db txid in
      record s { overlay = m; db = d }

  -- One transaction: its place, its inputs unless it is the first, its outputs, its history.
  unfoldable pub index_tx : Wire → ℤ → Bytes → Indexing Db → ℕ → Tx → Outcome Db (Indexing Db)
  index_tx w height block_hash s tx_index tx = do
    let txid = w.tx_hash tx
    placed ← attempt s.overlay s.db (place_tx w height s tx_index tx)
    drawn ← (if tx_index == 0 then returned placed else index_inputs placed tx.tx_in)
    paid ← attempt drawn.overlay drawn.db (index_outputs w height block_hash txid drawn 0 tx.tx_out)
    listed ←
        attempt paid.overlay paid.db
          (index_histories height (tx_index % 2 ^ 32) (w.hash_string txid) paid (keys paid.touched))
    returned (leave_mempool txid listed)

  unfoldable pub index_txs : Wire → ℤ → Bytes → Indexing Db → ℕ → List Tx → Outcome Db (Indexing Db)
  index_txs w height block_hash s tx_index [] = returned s
  index_txs w height block_hash s tx_index (tx ∷ txs) = do
    s' ← index_tx w height block_hash s tx_index tx
    index_txs w height block_hash s' (suc tx_index) txs

  abbrev pub start : MempoolOverlay → Db → Indexing Db
  start m d = record {
    batch = [];
    spent = [];
    created = [];
    history = [];
    added = [];
    txids = [];
    blob = [];
    offsets = [];
    history_index = 0;
    touched = [];
    overlay = m;
    db = d;
  }

  abbrev pub undo_of : Wire → Block → ℤ → Indexing Db → UndoBlock
  undo_of w block height s = record {
    height = height;
    block_hash = w.block_hash block.header;
    prev_block_hash = block.header.prev_block;
    spent_outputs = s.spent;
    created_outputs = s.created;
    history_entries = s.history;
  }

  -- StartHeight is kept; an error of LoadCheckpoint is dropped, and leaves 0 there.
  unfoldable pub next_checkpoint : Codecs → Db → ℤ → Bytes → Checkpoint
  next_checkpoint c d height block_hash_hex = record {
    height = height;
    block_hash = block_hash_hex;
    start_height = elim (load_checkpoint p c d) [ err e ↦ pos 0 | ok k ↦ k.start_height ];
  }

  -- IndexBlock: the overlay and the database after it.
  unfoldable pub index_block :
      Codecs → Wire → MempoolOverlay → Db → Block → ℤ → Outcome Db (MempoolOverlay × Db)
  index_block c w m d block height = do
    let block_hash = w.block_hash block.header
    header ← attempt m d (w.serialize_header block.header)
    s ← index_txs w height block_hash (start m d) 0 block.transactions
    batch ← attempt s.overlay s.db (
        finish_batch c s.batch (undo_of w block height s) header s.txids s.blob s.offsets
          (next_checkpoint c s.db height (w.hash_string block_hash)))
    d' ← attempt s.overlay s.db (p.commit s.db batch)
    returned (s.overlay, d')
