-- ===== src/Electrum/Lookup/Runs.antt =====
-- Transactions cut out of the blob of an indexed block, and a place that the block does not have.
use electrum_go.Base.{◌≡◌, refl, [], ◌∷◌, replicate, arith}
use electrum_go.Base.Int.{pos}
use electrum_go.Base.Bytes.{Bytes, bytes_eq}
use electrum_go.Base.Hex.{hex_encode, hex_decode, hex_value, hex_join, hex_digit}
use electrum_go.Base.Map.{get}
use electrum_go.Base.Result.{ok}
use electrum_go.Storage.Keys.{make_tx_pos_key, make_tx_blob_key, make_tx_offsets_key}
use electrum_go.Storage.Pebble.Table.{Table, table_store}
use electrum_go.Storage.Pebble.Plain.{plain_codecs}
use electrum_go.Storage.Database.{
  chunks, get_tx_pos, get_tx_blob, get_tx_offsets, save_tx_pos_in_batch,
}
use electrum_go.Indexer.Types.{txid_from_hex, txid_to_hex}
use electrum_go.Indexer.Wire.{Tx, Wire}
use electrum_go.Indexer.Mempool.{new}
use electrum_go.Indexer.Mempool.Methods.{remove_by_hex, remove_transaction}
use electrum_go.Indexer.Block.{
  Outcome, returned, failed, index_inputs, leave_mempool, index_tx, index_txs, start,
}
use electrum_go.Indexer.Block.Entries.{Indexing, place_tx, index_outputs, index_histories}
use electrum_go.Electrum.Lookup.{refused, index_out_of_range, found, cut_tx, get_tx_from_db}
use electrum_go.Electrum.Lookup.Indexed.{get_tx_from_db-index_txs}

-- Every transaction has the same hash; one of them is looked up.
abbrev plain_wire : Wire
plain_wire = record {
  tx_hash = λ tx. replicate 32 0x77;
  serialize_tx = λ tx. ok tx.other;
  block_hash = λ h. h.other;
  serialize_header = λ h. ok (replicate 80 6);
  hash_string = hex_encode;
  sha256 = λ b. replicate 32 0;
}

abbrev txid : Bytes
txid = replicate 32 0x77

abbrev carrying : Bytes → Tx
carrying raw = record { tx_in = []; tx_out = []; other = raw }

-- Transactions of two, three and one bytes.
abbrev first_tx : Tx
first_tx = carrying (1 ∷ 2 ∷ [])

abbrev second_tx : Tx
second_tx = carrying (3 ∷ 4 ∷ 5 ∷ [])

abbrev third_tx : Tx
third_tx = carrying (6 ∷ [])

abbrev loop : Outcome Table (Indexing Table)
loop =
    index_txs table_store plain_wire (pos 8) (replicate 32 4) (start table_store new []) 0
      (first_tx ∷ second_tx ∷ third_tx ∷ [])

abbrev state_of : Outcome Table (Indexing Table) → Indexing Table
state_of (returned s) = s
state_of (failed e m d) = start table_store m d

-- The place of the second transaction, and the blob and the offsets of the block.
abbrev stored : Table
stored =
    (b'p' ∷ txid, 0 ∷ 0 ∷ 0 ∷ 8 ∷ 0 ∷ 0 ∷ 0 ∷ 1 ∷ [])
    ∷ (b'r' ∷ 0 ∷ 0 ∷ 0 ∷ 8 ∷ [], 1 ∷ 2 ∷ 3 ∷ 4 ∷ 5 ∷ 6 ∷ [])
    ∷ (b'o' ∷ 0 ∷ 0 ∷ 0 ∷ 8 ∷ [], 0 ∷ 0 ∷ 0 ∷ 0 ∷ 0 ∷ 0 ∷ 0 ∷ 2 ∷ 0 ∷ 0 ∷ 0 ∷ 5 ∷ [])
    ∷ []

get_tx_from_db-index_txs_example :
    get_tx_from_db table_store plain_codecs stored (replicate 64 b'7')
    ≡ found (hex_encode (3 ∷ 4 ∷ 5 ∷ [])) (pos 8)
unfolding get bytes_eq chunks index_txs index_tx place_tx save_tx_pos_in_batch make_tx_pos_key
    index_inputs index_outputs index_histories leave_mempool remove_transaction remove_by_hex
    txid_to_hex hex_encode hex_join hex_digit new txid_from_hex hex_decode hex_value get_tx_pos
    get_tx_blob make_tx_blob_key get_tx_offsets make_tx_offsets_key
get_tx_from_db-index_txs_example =
    get_tx_from_db-index_txs table_store plain_codecs plain_wire (pos 8) (replicate 32 4) new []
      stored (first_tx ∷ []) second_tx (third_tx ∷ []) (state_of loop) (replicate 64 b'7')
      (3 ∷ 4 ∷ 5 ∷ []) refl (omega arith) (omega arith) refl refl refl refl refl

cut_tx_past_the_block : cut_tx (1 ∷ 2 ∷ []) (0 ∷ []) 1 (pos 8) ≡ refused index_out_of_range
unfolding cut_tx
cut_tx_past_the_block = refl
