-- ===== src/Indexer/Runs.antt =====
-- Concrete hashes and a concrete rollback, and the theorems on them.
use electrum_go.Base.{
  ℕ, ◌-◌, take, ◌≡◌, refl, sym, ap, ◌∙◌, Option, none, some, [], ◌∷◌, ◌++◌, length, replicate,
  if◌then◌else◌,
}
use electrum_go.Base.Int.{pos}
use electrum_go.Base.Bytes.{Bytes, all_bytes, all_bytes-IsBytes, bytes_eq, bytes_lt}
use electrum_go.Base.Hex.{hex_digit, hex_value, hex_encode, hex_join, hex_decode}
use electrum_go.Base.Map.{bytes_key, get, delete}
use electrum_go.Base.Result.{Result, ok, err, ok_injective}
use electrum_go.Storage.Values.{encode_utxo_value}
use electrum_go.Storage.Keys.{
  make_utxo_key, make_tx_index_key, make_history_key, make_header_key, make_block_txids_key,
  make_undo_key,
}
use electrum_go.Storage.Undo.{
  UndoOutput, UndoHistory, UndoBlock, encode_undo_block, decode_undo_block, write_all, write_output,
  write_history, write_i32, write_i64, write_count, read_u32, read_i32, read_i64, read_bytes,
  read_output, read_history, read_many,
}
use electrum_go.Storage.Pebble.Table.{Table, table_store}
use electrum_go.Storage.Pebble.{Checkpoint}
use electrum_go.Storage.Keys.{parse_undo_key, prefix_upper_bound, increment}
use electrum_go.Storage.Pebble.Table.{insert_ordered, perform, perform_all, scan_table, keep}
use electrum_go.Base.{arith}
use electrum_go.Storage.Pebble.Plain.{plain_codecs}
use electrum_go.Storage.Keys.{key_checkpoint}
use electrum_go.Indexer.Reorg.{
  Node, rollback_to_height, rollback_loop, finish_rollback, get_our_block_hash, stored_hash,
  fork_hash_at,
}
use electrum_go.Indexer.Reorg.Rewind.{Undone, rollback_to_height-checkpoint}
use electrum_go.Storage.Database.{
  get_undo, load_checkpoint, save_checkpoint, new_prefix_iterator, get_header,
  delete_header_in_batch, delete_block_txids_in_batch, delete_undo_in_batch,
}
use electrum_go.Indexer.Types.{txid_to_hex, txid_from_hex, block_hash_to_hex, block_hash_from_hex}
use electrum_go.Indexer.Types.RoundTrip.{hash_hex_round_trip}
use electrum_go.Indexer.Rollback.{
  rollback_block, rollback_batch, delete_created, restore_spent, delete_history,
}
use electrum_go.Indexer.Rollback.Undone.{undone_keys, mentions, Lacks, Holds, IsUndoOf, IsSized}
use electrum_go.Indexer.Rollback.Restore.{rollback_block_restores}

abbrev hash : Bytes
hash = replicate 31 3 ++ (171 ∷ [])

hash_hex_round_trip_example :
    (txid_from_hex (txid_to_hex hash) ≡ ok hash)
    × (block_hash_from_hex (block_hash_to_hex hash) ≡ ok hash)
    × (length (txid_to_hex hash) ≡ 64)
hash_hex_round_trip_example =
    hash_hex_round_trip hash (all_bytes-IsBytes hash (unfold all_bytes in refl)) refl

-- A block that spent one output, created another, and left two history entries.
abbrev spent : UndoOutput
spent = record {
  scripthash = replicate 32 7;
  txid = replicate 32 9;
  vout = 258;
  value = pos 5000;
  height = pos 7;
  block_hash = hash;
}

abbrev created : UndoOutput
created = record {
  scripthash = replicate 32 8;
  txid = replicate 32 10;
  vout = 0;
  value = pos 4900;
  height = pos 8;
  block_hash = hash;
}

abbrev entry : ℕ → UndoHistory
entry b = record { scripthash = replicate 32 b; height = pos 8; tx_index = 1; index = 0 }

abbrev undo : UndoBlock
undo = record {
  height = pos 8;
  block_hash = hash;
  prev_block_hash = hash;
  spent_outputs = spent ∷ [];
  created_outputs = created ∷ [];
  history_entries = entry 7 ∷ entry 8 ∷ [];
}

abbrev bytes_of : Result Bytes → Bytes
bytes_of (ok b) = b
bytes_of (err e) = []

abbrev spent_keys : Bytes × Bytes
spent_keys = (
  b'u' ∷ replicate 32 7 ++ (replicate 32 9 ++ (0 ∷ 0 ∷ 1 ∷ 2 ∷ [])),
  b't' ∷ replicate 32 9 ++ (0 ∷ 0 ∷ 1 ∷ 2 ∷ []),
)

abbrev spent_bytes : Bytes
spent_bytes = 136 ∷ 19 ∷ 0 ∷ 0 ∷ 0 ∷ 0 ∷ 0 ∷ 0 ∷ 7 ∷ 0 ∷ 0 ∷ 0 ∷ hash

-- The database before the block, and after it.
abbrev earlier : Table
earlier = (spent_keys.1, replicate 32 7) ∷ (spent_keys.0, spent_bytes) ∷ []

abbrev later : Table
later =
    (b'b' ∷ 0 ∷ 0 ∷ 0 ∷ 8 ∷ [], replicate 80 6)
    ∷ (b'd' ∷ 0 ∷ 0 ∷ 0 ∷ 8 ∷ hash, bytes_of (encode_undo_block undo))
    ∷ (b'h' ∷ replicate 32 7 ++ (0 ∷ 0 ∷ 0 ∷ 8 ∷ 0 ∷ 0 ∷ 0 ∷ 1 ∷ 0 ∷ 0 ∷ 0 ∷ 0 ∷ []), [])
    ∷ (b'h' ∷ replicate 32 8 ++ (0 ∷ 0 ∷ 0 ∷ 8 ∷ 0 ∷ 0 ∷ 0 ∷ 1 ∷ 0 ∷ 0 ∷ 0 ∷ 0 ∷ []), [])
    ∷ (b't' ∷ replicate 32 10 ++ (0 ∷ 0 ∷ 0 ∷ 0 ∷ []), replicate 32 8)
    ∷ (
      b'u' ∷ replicate 32 8 ++ (replicate 32 10 ++ (0 ∷ 0 ∷ 0 ∷ 0 ∷ [])),
      36 ∷ 19 ∷ 0 ∷ 0 ∷ 0 ∷ 0 ∷ 0 ∷ 0 ∷ 8 ∷ 0 ∷ 0 ∷ 0 ∷ hash,
    )
    ∷ []

undo_is_stored : get_undo table_store later (pos 8) hash ≡ ok undo
unfolding get_undo make_undo_key encode_undo_block decode_undo_block write_all write_output
    write_history write_i32 write_i64 write_count read_u32 read_i32 read_i64 read_bytes read_output
    read_history read_many get bytes_eq
undo_is_stored = refl

undo-IsSized : IsSized undo
undo-IsSized = record {
  created = ((refl, refl), tt);
  spent = ((refl, refl), tt);
  history = (refl, (refl, tt));
}

lacks_at : (c : Bytes → Option Bytes) (j : Bytes) → c j ≡ none → Lacks c (ok j)
lacks_at c j h = λ k e. ap c (sym (ok_injective e)) ∙ h

holds_at : (c : Bytes → Option Bytes) (j v : Bytes) → c j ≡ some v → Holds c (ok j) v
holds_at c j v h = λ k e. ap c (sym (ok_injective e)) ∙ h

undo-IsUndoOf : IsUndoOf (get earlier) undo (pos 8) hash
unfolding make_utxo_key make_tx_index_key make_history_key make_header_key make_block_txids_key
    make_undo_key get bytes_eq encode_utxo_value
undo-IsUndoOf = record {
  created = ((lacks_at (get earlier) _ refl, lacks_at (get earlier) _ refl), tt);
  spent = ((holds_at (get earlier) _ _ refl, holds_at (get earlier) _ _ refl), tt);
  history = (lacks_at (get earlier) _ refl, (lacks_at (get earlier) _ refl, tt));
  header = lacks_at (get earlier) _ refl;
  txids = lacks_at (get earlier) _ refl;
  undo = lacks_at (get earlier) _ refl;
}

rollback_block_restores_example :
    (d' : Table) × (rollback_block table_store later (pos 8) hash ≡ ok d')
    × ((k : Bytes)
        → get d' k
          ≡ (if mentions (undone_keys undo (pos 8) hash) k then get earlier k else get later k))
rollback_block_restores_example =
    rollback_block_restores table_store later (pos 8) hash undo (get earlier) undo_is_stored
      undo-IsSized refl refl undo-IsUndoOf (λ b. (_, refl))

-- The same with the checkpoint of the block, which is taken back to the height below.
abbrev tip : Checkpoint
tip = record { height = pos 8; block_hash = block_hash_to_hex hash; start_height = pos 2 }

abbrev with_tip : Table
with_tip = insert_ordered key_checkpoint (plain_codecs.marshal tip) later

abbrev node : Node
node = record {
  get_block_hash = λ height. ok (replicate 32 6);
  hash_string = block_hash_to_hex;
  header_hash = λ header. ok (take 32 header);
}

abbrev rewound : Table × Result ℕ
rewound = rollback_to_height table_store plain_codecs node with_tip (pos 7)

rewound_one : rewound ≡ (rewound.0, ok 1)
unfolding rollback_to_height rollback_loop finish_rollback get_our_block_hash stored_hash
    fork_hash_at load_checkpoint save_checkpoint new_prefix_iterator get_header
    delete_header_in_batch delete_block_txids_in_batch delete_undo_in_batch rollback_block
    rollback_batch delete_created restore_spent delete_history get_undo make_utxo_key
    make_tx_index_key make_history_key make_header_key make_block_txids_key make_undo_key
    parse_undo_key prefix_upper_bound increment encode_utxo_value encode_undo_block
    decode_undo_block write_all write_output write_history write_i32 write_i64 write_count read_u32
    read_i32 read_i64 read_bytes read_output read_history read_many get delete bytes_eq bytes_lt
    insert_ordered perform perform_all scan_table keep hex_digit hex_value hex_encode hex_join
    hex_decode block_hash_to_hex block_hash_from_hex txid_from_hex
rewound_one = refl

rollback_to_height-checkpoint_example :
    (1 ≡ 8 - 7)
    × ((left : Table) × (fork_hash : Bytes) × Undone table_store plain_codecs node
          (8 - 7)
          8
          with_tip
          left
        × (fork_hash_at table_store plain_codecs node left (pos 7) ≡ ok fork_hash)
        × ((k : Bytes)
            → get rewound.0 k ≡ (
                if bytes_eq key_checkpoint k
                then some (
                    plain_codecs.marshal (record {
                      height = pos 7;
                      block_hash = block_hash_to_hex fork_hash;
                      start_height = pos 0;
                    }))
                else get left k)))
rollback_to_height-checkpoint_example =
    rollback_to_height-checkpoint table_store plain_codecs node with_tip rewound.0 8 7 1
      (block_hash_to_hex hash) (pos 2)
      (unfold load_checkpoint insert_ordered get bytes_eq bytes_lt in refl) (omega arith)
      (omega arith) rewound_one
