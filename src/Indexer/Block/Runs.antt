-- ===== src/Indexer/Block/Runs.antt =====
-- A block that spends an output of the database, and its rollback.
use electrum_go.Base.{
  ℕ, take, drop, ◌≡◌, ◌≢◌, refl, sym, ap, ◌∙◌, subst, false, ◌==◌, inl, inr, none, some, [], ◌∷◌,
  ◌++◌, length, replicate, Bool-cases, ==_iff, drop-append_exact, arith,
}
use electrum_go.Base.Int.{pos}
use electrum_go.Base.Bytes.{Bytes, IsBytes, all_bytes, all_bytes-IsBytes, bytes_eq}
use electrum_go.Base.Hex.{hex_digit, hex_value, hex_encode, hex_join, hex_decode}
use electrum_go.Base.Decimal.{digits, decimal}
use electrum_go.Base.Map.{nat_eq, bytes_key, get, set, delete, bytes_eq_iff}
use electrum_go.Base.Result.{ok, guard_inv, ok_injective}
use electrum_go.Storage.Keys.{
  first, prefix_mempool, make_utxo_key, make_tx_index_key, make_history_key, make_header_key,
  make_block_txids_key, make_undo_key, make_tx_pos_key, make_tx_blob_key, make_tx_offsets_key,
}
use electrum_go.Storage.Values.{encode_utxo_value, decode_utxo_value}
use electrum_go.Storage.Undo.{
  encode_undo_block, write_all, write_output, write_history, write_i32, write_i64, write_count,
}
use electrum_go.Storage.Pebble.Table.{Table, table_store}
use electrum_go.Storage.Pebble.Plain.{plain_codecs}
use electrum_go.Storage.Database.{
  check_header, save_header_in_batch, join_txids, save_block_txids_in_batch, save_tx_pos_in_batch,
  join_offsets, save_tx_offsets_in_batch, save_undo_in_batch, save_checkpoint_in_batch,
  save_tx_blob_in_batch, load_checkpoint, get_utxo, get_scripthash_for_outpoint,
}
use electrum_go.Indexer.Types.{compute_scripthash, is_op_return, is_coinbase_input, txid_to_hex}
use electrum_go.Indexer.Wire.{Tx, Block, Wire}
use electrum_go.Indexer.Mempool.{MempoolOverlay, new, make_outpoint_key}
use electrum_go.Indexer.Mempool.Methods.{remove_by_hex, remove_transaction}
use electrum_go.Indexer.Mempool.Queries.{remove_output}
use electrum_go.Indexer.Rollback.{rollback_block}
use electrum_go.Indexer.Block.{
  Outcome, returned, failed, index_input, index_inputs, leave_mempool, index_tx, index_txs,
  next_checkpoint, index_block,
}
use electrum_go.Indexer.Block.Entries.{
  place_tx, spend_output, create_output, index_outputs, write_history_entry, index_history,
  index_histories, finish_batch,
}
use electrum_go.Indexer.Block.Tracked.{aside, NewTxid, NewHeight}
use electrum_go.Indexer.Block.Loop.{all_parts}
use electrum_go.Base.{All}
use electrum_go.Indexer.Block.Created.{all_outputs_of}
use electrum_go.Indexer.Block.Spent.{index_block_keeps_outputs}
use electrum_go.Indexer.Block.Undoable.{IsNew, FitsBlock, rollback_block-index_block}

-- Transactions that carry their own hash.
abbrev plain_wire : Wire
plain_wire = record {
  tx_hash = λ tx. tx.other;
  serialize_tx = λ tx. ok tx.other;
  block_hash = λ h. h.other;
  serialize_header = λ h. ok (replicate 80 6);
  hash_string = hex_encode;
  sha256 = λ b. take 32 (b ++ replicate 32 0);
}

-- The database has one output, which the second transaction spends, with the output of the first.
abbrev utxo_entry : Bytes × Bytes
utxo_entry = (
  b'u' ∷ replicate 32 7 ++ (replicate 32 9 ++ (0 ∷ 0 ∷ 1 ∷ 2 ∷ [])),
  136 ∷ 19 ∷ 0 ∷ 0 ∷ 0 ∷ 0 ∷ 0 ∷ 0 ∷ 7 ∷ 0 ∷ 0 ∷ 0 ∷ replicate 32 3,
)

abbrev index_entry : Bytes × Bytes
index_entry = (b't' ∷ replicate 32 9 ++ (0 ∷ 0 ∷ 1 ∷ 2 ∷ []), replicate 32 7)

abbrev before : Table
before = index_entry ∷ utxo_entry ∷ []

abbrev coinbase : Tx
coinbase = record {
  tx_in = record { prev_hash = replicate 32 0; prev_index = 4294967295 } ∷ [];
  tx_out = record { value = pos 5000; pk_script = 118 ∷ [] } ∷ [];
  other = replicate 32 11;
}

abbrev payment : Tx
payment = record {
  tx_in =
      record { prev_hash = replicate 32 9; prev_index = 258 }
      ∷ record { prev_hash = replicate 32 11; prev_index = 0 }
      ∷ [];
  tx_out =
      record { value = pos 4900; pk_script = 118 ∷ [] }
      ∷ record { value = pos 0; pk_script = 0x6a ∷ [] }
      ∷ [];
  other = replicate 32 12;
}

abbrev block : Block
block = record {
  header = record { prev_block = replicate 32 3; other = replicate 32 4 };
  transactions = coinbase ∷ payment ∷ [];
}

abbrev indexed : Outcome Table (MempoolOverlay × Table)
indexed = index_block table_store plain_codecs plain_wire new before block (pos 8)

abbrev db_of : Outcome Table (MempoolOverlay × Table) → Table
db_of (returned (m, d)) = d
db_of (failed e m d) = d

abbrev overlay_of : Outcome Table (MempoolOverlay × Table) → MempoolOverlay
overlay_of (returned (m, d)) = m
overlay_of (failed e m d) = m

block_is_indexed :
    index_block table_store plain_codecs plain_wire new before block (pos 8)
    ≡ returned (overlay_of indexed, db_of indexed)
unfolding index_block index_txs index_tx leave_mempool index_inputs index_input next_checkpoint
    place_tx spend_output create_output index_outputs write_history_entry index_history
    index_histories finish_batch remove_by_hex remove_transaction remove_output new
    make_outpoint_key compute_scripthash is_op_return is_coinbase_input txid_to_hex check_header
    save_header_in_batch join_txids save_block_txids_in_batch save_tx_pos_in_batch join_offsets
    save_tx_offsets_in_batch save_undo_in_batch save_checkpoint_in_batch save_tx_blob_in_batch
    load_checkpoint get_utxo get_scripthash_for_outpoint encode_utxo_value decode_utxo_value
    encode_undo_block write_all write_output write_history write_i32 write_i64 write_count
    make_utxo_key make_tx_index_key make_history_key make_header_key make_block_txids_key
    make_undo_key make_tx_pos_key make_tx_blob_key make_tx_offsets_key get set delete bytes_eq
    hex_encode hex_decode hex_digit hex_value hex_join digits decimal
block_is_indexed = refl

-- A key that is neither of the two has nothing there.
none-before : (k : Bytes) → index_entry.0 ≢ k → utxo_entry.0 ≢ k → get before k ≡ none
unfolding get
none-before k h g = ground (arith, h, g, bytes_eq_iff index_entry.0 k, bytes_eq_iff utxo_entry.0 k)

before_bytes : (k v : Bytes) → get before k ≡ some v → IsBytes v
unfolding get
before_bytes k v h = elim (Bool-cases (bytes_eq index_entry.0 k)) [
  | inl e ↦
      (let q : index_entry.1 ≡ v = ground (arith, h, e) in subst IsBytes q)
        (all_bytes-IsBytes index_entry.1 (unfold all_bytes in refl))
  | inr e ↦ elim (Bool-cases (bytes_eq utxo_entry.0 k)) [
    | inl f ↦
        (let q : utxo_entry.1 ≡ v = ground (arith, h, e, f) in subst IsBytes q)
          (all_bytes-IsBytes utxo_entry.1 (unfold all_bytes in refl))
    | inr f ↦ absurd (ground (arith, h, e, f))
  ]
]

-- The txid stands at its place in both keys.
utxo_key_txid :
    (sh txid : Bytes) (vout : ℕ) (k : Bytes)
    → make_utxo_key sh txid vout ≡ ok k
    → (r : Bytes) × (drop 33 k ≡ txid ++ r) × (first k ≡ b'u')
unfolding make_utxo_key
utxo_key_txid sh txid vout k e =
    let (a, e₁) = guard_inv (length sh == 32) _ _ e in
    let (b, e₂) = guard_inv (length txid == 32) _ _ e₁ in
    (
      _,
      ap (drop 33) (sym (ok_injective e₂))
          ∙ drop-append_exact 32 sh _ ((==_iff (length sh) 32).0 a),
      ap first (sym (ok_injective e₂)),
    )

index_key_txid :
    (txid : Bytes) (vout : ℕ) (k : Bytes)
    → make_tx_index_key txid vout ≡ ok k
    → (r : Bytes) × (drop 1 k ≡ txid ++ r) × (first k ≡ b't')
unfolding make_tx_index_key
index_key_txid txid vout k e =
    let (a, e₁) = guard_inv (length txid == 32) _ _ e in
    (_, ap (drop 1) (sym (ok_injective e₁)), ap first (sym (ok_injective e₁)))

new_txid : (b : ℕ) (rest : Bytes) → b ≢ 9 → NewTxid (get before) (b ∷ rest)
new_txid b rest h sh vout = (
  λ k e.
      let (r, d, f) = utxo_key_txid sh (b ∷ rest) vout k e in
      none-before k (λ q. ground (arith, f, ap first q))
        (λ q. ground (arith, h, ap first d, ap (λ (x : Bytes). first (drop 33 x)) q)),
  λ k e.
      let (r, d, f) = index_key_txid (b ∷ rest) vout k e in
      none-before k (λ q. ground (arith, h, ap first d, ap (λ (x : Bytes). first (drop 1 x)) q))
        (λ q. ground (arith, f, ap first q)),
)

new_height : NewHeight (get before) (pos 8)
unfolding make_history_key
new_height sh i j k e =
    let (a, e₁) = guard_inv (length sh == 32) _ _ e in
    let f = ap first (ok_injective e₁) in
    none-before k (λ q. ground (arith, f, ap first q)) (λ q. ground (arith, f, ap first q))

block-IsNew : IsNew (get before) plain_wire block (pos 8)
unfolding make_header_key make_block_txids_key make_undo_key get bytes_eq
block-IsNew = record {
  txids = (new_txid 11 _ (omega arith), (new_txid 12 _ (omega arith), tt));
  history = new_height;
  header = λ k e. ap (get before) (sym (ok_injective e));
  txid_list = λ k e. ap (get before) (sym (ok_injective e));
  undo = λ k e. ap (get before) (sym (ok_injective e));
}

block-FitsBlock : FitsBlock block
unfolding all_parts
block-FitsBlock = (
  (
    ((omega arith, tt), (omega arith, tt)),
    (((omega arith, (omega arith, tt)), (omega arith, (omega arith, tt))), tt),
  ),
  omega arith,
)

rollback_block-index_block_example :
    (back : Table) × (rollback_block table_store (db_of indexed) (pos 8) (replicate 32 4) ≡ ok back)
    × ((k : Bytes)
        → (first k == prefix_mempool) ≡ false
        → aside k ≡ false
        → get back k ≡ get before k)
rollback_block-index_block_example =
    rollback_block-index_block table_store plain_codecs plain_wire new (overlay_of indexed) before
      (db_of indexed) block (pos 8) before_bytes (λ d k. (_, refl)) (λ d b. (_, refl)) (omega arith)
      block-FitsBlock block-IsNew block_is_indexed

index_block_keeps_outputs_example :
    All
      (λ o.
        (k : Bytes)
        → make_utxo_key o.scripthash o.txid o.vout ≡ ok k
        → get (db_of indexed) k ≢ none)
      (all_outputs_of plain_wire (pos 8) (replicate 32 4) block.transactions)
index_block_keeps_outputs_example =
    index_block_keeps_outputs table_store plain_codecs plain_wire new (overlay_of indexed) before
      (db_of indexed) block (pos 8) before_bytes (omega arith) block-FitsBlock block-IsNew
      block_is_indexed
