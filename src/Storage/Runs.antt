-- ===== src/Storage/Runs.antt =====
-- Concrete records and batches of internal/storage, and the theorems on them.
use electrum_go.Base.{
  ◌≡◌, ◌↔◌, refl, none, some, [], ◌∷◌, ◌++◌, length, arith, replicate, if◌then◌else◌,
}
use electrum_go.Base.Int.{pos, negsuc}
use electrum_go.Base.Bytes.{Bytes, all_bytes, all_bytes-IsBytes, bytes_lt}
use electrum_go.Base.Map.{bytes_key, get}
use electrum_go.Base.Result.{Result, ok, err, bad_value_length}
use electrum_go.Storage.Keys.{
  make_header_key, make_block_txids_key, make_tx_pos_key, make_tx_offsets_key, make_undo_key,
  parse_undo_key, prefix_upper_bound, increment,
}
use electrum_go.Storage.Values.{
  UtxoValue, encode_utxo_value, decode_utxo_value, MempoolValue, encode_mempool_value,
  decode_mempool_value,
}
use electrum_go.Storage.Values.RoundTrip.{
  encode_utxo_value-iff-decode_utxo_value, encode_mempool_value-iff-decode_mempool_value,
}
use electrum_go.Storage.Undo.{
  UndoOutput, UndoHistory, UndoBlock, encode_undo_block, decode_undo_block, write_all, write_output,
  write_history, write_i32, write_i64, write_count,
}
use electrum_go.Storage.Undo.RoundTrip.{FitsUndo, decode-encode_undo_block}
use electrum_go.Storage.Pebble.{del}
use electrum_go.Storage.Pebble.Table.{Table, table_store, perform_all, scan_table, keep}
use electrum_go.Storage.Database.{
  Batch, then_put, save_header_in_batch, get_header, check_header, save_block_txids_in_batch,
  get_block_txids, save_tx_pos_in_batch, get_tx_pos, save_tx_offsets_in_batch, get_tx_offsets,
  save_undo_in_batch, get_undo, new_prefix_iterator, prune_ops, prune_undo_data, join_txids,
  join_offsets,
}
use electrum_go.Storage.Database.Read.{
  get_header-save_header, get_tx_pos-save_tx_pos, get_block_txids-save_block_txids,
  get_tx_offsets-save_tx_offsets, get_undo-save_undo,
}
use electrum_go.Storage.Database.Prune.{is_old, prune_undo_data_exact}

abbrev sh : Bytes
sh = replicate 32 7

abbrev txid : Bytes
txid = replicate 32 9

abbrev hash : Bytes
hash = replicate 32 3

abbrev spent : UndoOutput
spent = record {
  scripthash = sh;
  txid = txid;
  vout = 258;
  value = pos 5000;
  height = pos 7;
  block_hash = hash;
}

abbrev entry : UndoHistory
entry = record { scripthash = sh; height = pos 8; tx_index = 1; index = 2 }

abbrev undo : UndoBlock
undo = record {
  height = pos 8;
  block_hash = hash;
  prev_block_hash = hash;
  spent_outputs = spent ∷ [];
  created_outputs = spent ∷ spent ∷ [];
  history_entries = entry ∷ [];
}

undo_fits : FitsUndo undo
undo_fits = record {
  height = omega arith;
  spent = ((omega arith, omega arith, omega arith), tt);
  created =
      ((omega arith, omega arith, omega arith), ((omega arith, omega arith, omega arith), tt));
  history = ((omega arith, omega arith, omega arith), tt);
  spent_count = omega arith;
  created_count = omega arith;
  history_count = omega arith;
}

abbrev bytes_of : Result Bytes → Bytes
bytes_of (ok b) = b
bytes_of (err e) = []

abbrev undo_bytes : Bytes
undo_bytes = bytes_of (encode_undo_block undo)

encode_undo_runs : encode_undo_block undo ≡ ok undo_bytes
unfolding encode_undo_block write_all write_output write_history write_i32 write_i64 write_count
encode_undo_runs = refl

decode-encode_undo_block_example : decode_undo_block (undo_bytes ++ (1 ∷ 2 ∷ [])) ≡ ok undo
decode-encode_undo_block_example =
    decode-encode_undo_block undo undo_bytes (1 ∷ 2 ∷ []) undo_fits encode_undo_runs

abbrev utxo : UtxoValue
utxo = record { value = pos 5000; height = negsuc 0; block_hash = hash }

abbrev utxo_bytes : Bytes
utxo_bytes = 136 ∷ 19 ∷ 0 ∷ 0 ∷ 0 ∷ 0 ∷ 0 ∷ 0 ∷ 255 ∷ 255 ∷ 255 ∷ 255 ∷ hash

encode_utxo_value_5000 : encode_utxo_value utxo ≡ utxo_bytes
unfolding encode_utxo_value
encode_utxo_value_5000 = refl

decode_utxo_value_short : decode_utxo_value hash ≡ err (bad_value_length 32)
unfolding decode_utxo_value
decode_utxo_value_short = refl

encode_utxo_value-iff-decode_utxo_value_example :
    (encode_utxo_value utxo ≡ utxo_bytes) ↔ (decode_utxo_value utxo_bytes ≡ ok utxo)
encode_utxo_value-iff-decode_utxo_value_example =
    encode_utxo_value-iff-decode_utxo_value utxo_bytes utxo
      (all_bytes-IsBytes utxo_bytes (unfold all_bytes in refl)) (omega arith, omega arith, refl)

abbrev pool : MempoolValue
pool = record { value = negsuc 0; first_seen = pos 258; fee = pos 1 }

abbrev pool_bytes : Bytes
pool_bytes = replicate 8 255 ++ (2 ∷ 1 ∷ 0 ∷ 0 ∷ 0 ∷ 0 ∷ 0 ∷ 0 ∷ 1 ∷ 0 ∷ 0 ∷ 0 ∷ 0 ∷ 0 ∷ 0 ∷ 0 ∷ [])

encode_mempool_value-iff-decode_mempool_value_example :
    (encode_mempool_value pool ≡ pool_bytes) ↔ (decode_mempool_value pool_bytes ≡ ok pool)
encode_mempool_value-iff-decode_mempool_value_example =
    encode_mempool_value-iff-decode_mempool_value pool_bytes pool
      (all_bytes-IsBytes pool_bytes (unfold all_bytes in refl))
      (omega arith, omega arith, omega arith)

-- A batch that already deletes a key, and what it leaves behind with an entry after it.
abbrev before : Batch
before = del (1 ∷ []) ∷ []

abbrev after : Bytes → Bytes → Batch
after key value = then_put before key value

abbrev tx_pos_batch : Batch
tx_pos_batch = after (b'p' ∷ txid) (0 ∷ 0 ∷ 0 ∷ 8 ∷ 0 ∷ 0 ∷ 0 ∷ 5 ∷ [])

get_tx_pos-save_tx_pos_example :
    get_tx_pos table_store (perform_all tx_pos_batch []) txid ≡ ok (some (pos 8, 5))
get_tx_pos-save_tx_pos_example =
    get_tx_pos-save_tx_pos table_store [] (perform_all tx_pos_batch []) before txid (pos 8) 5
      tx_pos_batch (omega arith) (omega arith) (λ k. (_, refl))
      (unfold save_tx_pos_in_batch make_tx_pos_key in refl) refl

abbrev header_batch : Batch
header_batch = after (b'b' ∷ 0 ∷ 0 ∷ 0 ∷ 8 ∷ []) (replicate 80 6)

get_header-save_header_example :
    get_header table_store (perform_all header_batch []) (pos 8) ≡ ok (replicate 80 6)
get_header-save_header_example =
    get_header-save_header table_store [] (perform_all header_batch []) before (pos 8)
      (replicate 80 6) header_batch (λ k. (_, refl))
      (unfold save_header_in_batch check_header make_header_key in refl) refl

abbrev txids_batch : Batch
txids_batch = after (b'x' ∷ 0 ∷ 0 ∷ 0 ∷ 8 ∷ []) (txid ++ sh)

get_block_txids-save_block_txids_example :
    get_block_txids table_store (perform_all txids_batch []) (pos 8) ≡ ok (txid ∷ sh ∷ [])
get_block_txids-save_block_txids_example =
    get_block_txids-save_block_txids table_store [] (perform_all txids_batch []) before (pos 8)
      (txid ∷ sh ∷ []) txids_batch (λ k. (_, refl))
      (unfold save_block_txids_in_batch make_block_txids_key join_txids in refl) refl

abbrev offsets_batch : Batch
offsets_batch = after (b'o' ∷ 0 ∷ 0 ∷ 0 ∷ 8 ∷ []) (0 ∷ 0 ∷ 0 ∷ 81 ∷ 0 ∷ 0 ∷ 1 ∷ 0 ∷ [])

get_tx_offsets-save_tx_offsets_example :
    get_tx_offsets table_store (perform_all offsets_batch []) (pos 8) ≡ ok (81 ∷ 256 ∷ [])
get_tx_offsets-save_tx_offsets_example =
    get_tx_offsets-save_tx_offsets table_store [] (perform_all offsets_batch []) before (pos 8)
      (81 ∷ 256 ∷ []) offsets_batch (omega arith, (omega arith, tt)) (λ k. (_, refl))
      (unfold save_tx_offsets_in_batch make_tx_offsets_key join_offsets in refl) refl

abbrev undo_batch : Batch
undo_batch = after (b'd' ∷ 0 ∷ 0 ∷ 0 ∷ 8 ∷ hash) undo_bytes

get_undo-save_undo_example : get_undo table_store (perform_all undo_batch []) (pos 8) hash ≡ ok undo
get_undo-save_undo_example =
    get_undo-save_undo table_store [] (perform_all undo_batch []) before undo hash undo_batch
      undo_fits (λ k. (_, refl))
      (unfold save_undo_in_batch make_undo_key encode_undo_block write_all write_output
          write_history write_i32 write_i64 write_count in
        refl)
      refl

-- A table with the undo records of two heights and a header.
abbrev two_undo : Table
two_undo =
    (b'b' ∷ 0 ∷ 0 ∷ 0 ∷ 8 ∷ [], replicate 80 6)
    ∷ (b'd' ∷ 0 ∷ 0 ∷ 0 ∷ 8 ∷ hash, 1 ∷ [])
    ∷ (b'd' ∷ 0 ∷ 0 ∷ 0 ∷ 9 ∷ hash, 2 ∷ [])
    ∷ []

abbrev their_undo : Table
their_undo = (b'd' ∷ 0 ∷ 0 ∷ 0 ∷ 8 ∷ hash, 1 ∷ []) ∷ (b'd' ∷ 0 ∷ 0 ∷ 0 ∷ 9 ∷ hash, 2 ∷ []) ∷ []

prune_undo_data_exact_example :
    (d' : Table) × (prune_undo_data table_store two_undo (pos 9)
      ≡ ok (length (prune_ops (pos 9) their_undo), d'))
    × ((k : Bytes) → get d' k ≡ (if is_old (pos 9) k then none else get two_undo k))
prune_undo_data_exact_example =
    prune_undo_data_exact table_store two_undo (pos 9) their_undo
      (unfold new_prefix_iterator scan_table keep prefix_upper_bound increment bytes_lt in refl)
      (λ b. (_, refl))

prune_ops_two : prune_ops (pos 9) their_undo ≡ del (b'd' ∷ 0 ∷ 0 ∷ 0 ∷ 8 ∷ hash) ∷ []
unfolding prune_ops parse_undo_key
prune_ops_two = refl
