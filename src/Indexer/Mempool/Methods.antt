-- ===== src/Indexer/Mempool/Methods.antt =====
-- internal/indexer/mempool.go: the methods of MempoolOverlay. Each holds the lock for its whole body.
use electrum_go.Base.{true, false, none, some, List, [], ◌∷◌, map, if◌then◌else◌}
use electrum_go.Base.Int.{ℤ, pos}
use electrum_go.Base.Bytes.{Bytes}
use electrum_go.Base.Hex.{hex_encode}
use electrum_go.Base.Map.{nat_eq, bytes_key, get, has}
use electrum_go.Base.Sets.{keys}
use electrum_go.Base.Result.{Result, ok, err, ◌>>=◌, double_spend}
use electrum_go.Storage.Keys.{prefix_mempool}
use electrum_go.Storage.Pebble.{Pebble}
use electrum_go.Storage.Database.{
  Batch, then_del, get_utxo, get_scripthash_for_outpoint, new_prefix_iterator,
}
use electrum_go.Indexer.Types.{txid_to_hex, is_coinbase_input}
use electrum_go.Indexer.Wire.{TxIn, Tx, Wire}
use electrum_go.Indexer.Mempool.{
  MempoolInput, MempoolOutput, MempoolTransaction, MempoolOverlay, new, make_outpoint_key,
  read_cells, output_at, make_outputs, input_total, output_total, fee_of, affected_by_inputs,
  affected_by_outputs, install, uninstall, persist_batch, unpersist_batch, remove_from_each,
}

-- What the database says of an input that no output of the mempool answers.
module _ (p : Pebble) where
  open p use {Db}

  unfoldable pub indexed_input : Db → TxIn → Result MempoolInput
  indexed_input d txin = do
    found ← get_scripthash_for_outpoint p d txin.prev_hash txin.prev_index
    elim found [
      | none ↦ ok (record {
        prev_txid = txin.prev_hash;
        prev_vout = txin.prev_index;
        scripthash = none;
        value = pos 0;
        from_mempool = false;
      })
      | some sh ↦ do
        utxo ← get_utxo p d sh txin.prev_hash txin.prev_index
        ok (record {
          prev_txid = txin.prev_hash;
          prev_vout = txin.prev_index;
          scripthash = some sh;
          value = elim utxo [ none ↦ pos 0 | some u ↦ u.value ];
          from_mempool = false;
        })
    ]

  -- One input: an error if it is spent already, else from the mempool, else from the database.
  unfoldable pub resolve_input : MempoolOverlay → Db → TxIn → Result MempoolInput
  resolve_input m d txin =
      let key = make_outpoint_key txin.prev_hash txin.prev_index in
      if has m.spent_by key then err double_spend else elim (output_at m key) [
        | none ↦ indexed_input d txin
        | some o ↦ ok (record {
          prev_txid = txin.prev_hash;
          prev_vout = txin.prev_index;
          scripthash = some o.scripthash;
          value = o.value;
          from_mempool = true;
        })
      ]

  unfoldable pub resolve_inputs : MempoolOverlay → Db → List TxIn → Result (List MempoolInput)
  resolve_inputs m d [] = ok []
  resolve_inputs m d (i ∷ is') =
      if is_coinbase_input i.prev_hash
      then resolve_inputs m d is'
      else (do input ← resolve_input m d i; inputs ← resolve_inputs m d is'; ok (input ∷ inputs))

  -- A commit whose error is only logged.
  abbrev pub commit_or_keep : Db → Batch → Db
  commit_or_keep d batch = elim (p.commit d batch) [ err e ↦ d | ok d' ↦ d' ]

  unfoldable pub persist_transaction : Db → MempoolTransaction → List MempoolOutput → Db
  persist_transaction d t outs = elim (persist_batch [] t outs) [
    | err e ↦ d
    | ok batch ↦ commit_or_keep d batch
  ]

  -- The transaction with its outputs, from what its inputs are.
  unfoldable pub make_transaction :
      Wire
      → MempoolOverlay
      → Tx
      → ℤ
      → List MempoolInput
      → MempoolTransaction × List MempoolOutput × List Bytes
  make_transaction w m tx now inputs =
      let txid = w.tx_hash tx in
      let outs = make_outputs w.sha256 txid 0 tx.tx_out in
      let affected = affected_by_outputs outs (affected_by_inputs inputs []) in
      (
        record {
          txid = txid;
          txid_hex = w.hash_string txid;
          raw_tx = tx;
          first_seen = now;
          fee = fee_of (input_total (pos 0) inputs) (output_total (pos 0) outs);
          inputs = inputs;
          outputs = electrum_go.Indexer.Mempool.addresses m.next_cell outs;
          scripthashes = map (λ e. e.1) affected;
        },
        outs,
        keys affected,
      )

  -- The overlay and the database after it, with the scripthashes that are affected.
  unfoldable pub add_transaction :
      Wire → MempoolOverlay → Db → Tx → ℤ → Result (MempoolOverlay × Db × List Bytes)
  add_transaction w m d tx now =
      if has m.transactions (w.hash_string (w.tx_hash tx)) then ok (m, d, []) else (do
        inputs ← resolve_inputs m d tx.tx_in
        let (t, outs, affected) = make_transaction w m tx now inputs
        ok (install m t outs affected, persist_transaction d t outs, affected))

  -- removeTransactionLocked
  unfoldable pub remove_by_hex : MempoolOverlay → Db → Bytes → MempoolOverlay × Db × List Bytes
  remove_by_hex m d txid_hex = elim (get m.transactions txid_hex) [
    | none ↦ (m, d, [])
    | some t ↦ (
      uninstall m t txid_hex,
      commit_or_keep d (unpersist_batch [] (read_cells m.cells t.outputs)),
      map hex_encode t.scripthashes,
    )
  ]

  unfoldable pub remove_transaction : MempoolOverlay → Db → Bytes → MempoolOverlay × Db × List Bytes
  remove_transaction m d txid = remove_by_hex m d (txid_to_hex txid)

  unfoldable pub delete_all : Batch → List (Bytes × Bytes) → Batch
  delete_all batch [] = batch
  delete_all batch ((k, v) ∷ r) = delete_all (then_del batch k) r

  -- iter.Error() is not read: what was visited is deleted.
  unfoldable pub clear_persisted_data : Db → Db
  clear_persisted_data d = elim (new_prefix_iterator p d (prefix_mempool ∷ [])) [
    | err e ↦ d
    | ok it ↦ elim it.entries [ [] ↦ d | x ∷ r ↦ commit_or_keep d (delete_all [] (x ∷ r)) ]
  ]

  -- The cells stay where other transactions may hold them; none does.
  unfoldable pub clear : MempoolOverlay → Db → MempoolOverlay × Db
  clear m d = (
    record m { transactions = []; by_scripthash = []; spent_by = []; outputs = [] },
    clear_persisted_data d,
  )
