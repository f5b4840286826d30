-- ===== src/Indexer/Mempool/Runs.antt =====
-- Concrete calls on the overlay, and the theorems on them.
use electrum_go.Base.{
  reverse, take, ◌≡◌, refl, true, false, ◌||◌, ◌&&◌, none, some, List, [], ◌∷◌, ◌++◌, replicate,
}
use electrum_go.Base.Int.{pos}
use electrum_go.Base.Bytes.{Bytes, bytes_eq}
use electrum_go.Base.Hex.{hex_digit, hex_encode}
use electrum_go.Base.Decimal.{digits, decimal}
use electrum_go.Base.Map.{nat_eq, bytes_key, get, set, delete}
use electrum_go.Base.Sets.{among}
use electrum_go.Base.Result.{ok}
use electrum_go.Storage.Pebble.Table.{Table, table_store}
use electrum_go.Storage.Keys.{make_tx_index_key}
use electrum_go.Storage.Database.{get_scripthash_for_outpoint}
use electrum_go.Indexer.Types.{is_op_return, is_coinbase_input}
use electrum_go.Indexer.Wire.{Tx, Wire}
use electrum_go.Indexer.Mempool.{
  MempoolInput, MempoolTransaction, MempoolOverlay, new, make_outpoint_key, make_outputs,
  mark_spent, spend_inputs, install,
}
use electrum_go.Indexer.Mempool.Methods.{
  indexed_input, resolve_input, resolve_inputs, persist_transaction, make_transaction,
  add_transaction,
}
use electrum_go.Indexer.Mempool.Queries.{get_scripthash_transactions, is_output_spent}
use electrum_go.Indexer.Mempool.Spending.{spends}
use electrum_go.Indexer.Mempool.Invariant.{touches}
use electrum_go.Indexer.Mempool.Steps.{
  Call, added, taken, perform, perform_all, get_scripthash_transactions_iff, is_output_spent_sound,
}
use electrum_go.Indexer.Mempool.Added.{any_output, any_input, add_transaction-lists}

-- Transactions that carry their own hash, and a hash that keeps 32 bytes.
abbrev plain_wire : Wire
plain_wire = record {
  tx_hash = λ tx. tx.other;
  serialize_tx = λ tx. ok tx.other;
  block_hash = λ h. h.other;
  serialize_header = λ h. ok h.other;
  hash_string = hex_encode;
  sha256 = λ b. take 32 (b ++ replicate 32 0);
}

abbrev parent_id : Bytes
parent_id = replicate 32 5

-- It spends an output that is not in the database, and pays to one script.
abbrev spender : Tx
spender = record {
  tx_in = record { prev_hash = parent_id; prev_index = 1 } ∷ [];
  tx_out = record { value = pos 700; pk_script = 118 ∷ 169 ∷ [] } ∷ [];
  other = replicate 32 6;
}

-- The spender pays this scripthash, the reversed padded script.
abbrev paid : Bytes
paid = reverse (take 32 ((118 ∷ 169 ∷ []) ++ replicate 32 0))

abbrev calls : List (Call table_store)
calls = added [] spender (pos 9) ∷ taken parent_id 0 ∷ []

get_scripthash_transactions_iff_example :
    among
      (hex_encode spender.other)
      (get_scripthash_transactions (perform_all table_store plain_wire new calls) paid)
    ≡ touches
        (get (perform_all table_store plain_wire new calls).transactions (hex_encode spender.other))
        (hex_encode paid)
get_scripthash_transactions_iff_example =
    get_scripthash_transactions_iff table_store plain_wire calls paid (hex_encode spender.other)

parent_is_spent :
    is_output_spent
      (perform_all table_store plain_wire new (added [] spender (pos 9) ∷ []))
      parent_id
      1
    ≡ true
unfolding perform_all perform is_output_spent add_transaction resolve_inputs resolve_input
    indexed_input get_scripthash_for_outpoint make_tx_index_key is_coinbase_input make_outpoint_key
    hex_encode hex_digit decimal digits get set delete make_transaction make_outputs is_op_return
    install spend_inputs mark_spent new bytes_eq
parent_is_spent = refl

is_output_spent_sound_example :
    (txid_hex : Bytes) × (t : MempoolTransaction) × (get
        (perform_all table_store plain_wire new (added [] spender (pos 9) ∷ [])).spent_by
        (make_outpoint_key parent_id 1)
      ≡ some txid_hex)
    × (get
          (perform_all table_store plain_wire new (added [] spender (pos 9) ∷ [])).transactions
          txid_hex
        ≡ some t)
    × (spends t.inputs (make_outpoint_key parent_id 1) ≡ true)
is_output_spent_sound_example =
    is_output_spent_sound table_store plain_wire (added [] spender (pos 9) ∷ []) parent_id 1
      parent_is_spent

abbrev only_input : MempoolInput
only_input = record {
  prev_txid = parent_id;
  prev_vout = 1;
  scripthash = none;
  value = pos 0;
  from_mempool = false;
}

abbrev after : MempoolOverlay × Table × List Bytes
after =
    let (t, outs, affected) =
      make_transaction table_store plain_wire new spender (pos 9) (only_input ∷ []) in
    (install new t outs affected, persist_transaction table_store [] t outs, affected)

spender_is_added :
    add_transaction table_store plain_wire new [] spender (pos 9) ≡ ok (after.0, after.1, after.2)
unfolding add_transaction resolve_inputs resolve_input indexed_input get_scripthash_for_outpoint
    make_tx_index_key is_coinbase_input make_outpoint_key hex_encode hex_digit decimal digits get
    set delete new bytes_eq
spender_is_added = refl

add_transaction-lists_example :
    among (hex_encode spender.other) (get_scripthash_transactions after.0 paid) ≡ (
      bytes_eq (hex_encode spender.other) (hex_encode spender.other)
        && (any_output plain_wire.sha256 spender.tx_out (hex_encode paid)
            || any_input table_store new [] spender.tx_in (hex_encode paid))
      || among (hex_encode spender.other) (get_scripthash_transactions new paid))
add_transaction-lists_example =
    add_transaction-lists table_store plain_wire new [] spender (pos 9) after.0 after.1 after.2
      (unfold new get in refl) spender_is_added paid (hex_encode spender.other)
