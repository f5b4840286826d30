-- ===== src/Storage/Database.antt =====
-- internal/storage/storage.go: the tables, read through the database and written in batches. A
-- `..._in_batch` returns the batch with its entry behind the others.
pub mod Read
pub mod Prune
use electrum_go.Base.{
  ℕ, zero, suc, ◌*◌, ◌/◌, ◌%◌, Bool, true, false, not, Option, none, some, List, [], ◌∷◌, ◌++◌,
  length, take, drop, slice, map, ◌==◌, if◌then◌else◌,
}
use electrum_go.Base.Int.{ℤ, pos, to_unsigned, to_signed, lt_int}
use electrum_go.Base.Bytes.{Bytes, put_be32, be32}
use electrum_go.Base.Hex.{hex_encode}
use electrum_go.Base.Result.{
  Result, ok, err, guard, ◌>>=◌, ◌>>◌, bad_header_length, bad_value_length, bad_txid_length,
  not_found, bad_data,
}
use electrum_go.Storage.Keys.{
  prefix_undo, key_checkpoint, height_bytes, read_height, make_header_key, make_block_txids_key,
  make_tx_pos_key, make_tx_blob_key, make_tx_offsets_key, make_utxo_key, make_tx_index_key,
  make_undo_key, parse_undo_key, prefix_upper_bound,
}
use electrum_go.Storage.Values.{UtxoValue, decode_utxo_value}
use electrum_go.Storage.Undo.{UndoBlock, encode_undo_block, decode_undo_block}
use electrum_go.Storage.Pebble.{Op, put, del, Scanned, Pebble, Codecs, Checkpoint}

abbrev pub Batch : Type 0
Batch = List Op

abbrev pub then_put : Batch → Bytes → Bytes → Batch
then_put batch key value = batch ++ (put key value ∷ [])

abbrev pub then_del : Batch → Bytes → Batch
then_del batch key = batch ++ (del key ∷ [])

-- A missing key where the caller wants a value.
abbrev pub required : Option Bytes → Result Bytes
required none = err not_found
required (some v) = ok v

abbrev pub zero_checkpoint : Checkpoint
zero_checkpoint = record { height = pos 0; block_hash = []; start_height = pos 0 }

unfoldable pub check_header : Bytes → Result (Unit {0})
check_header header = guard (length header == 80) (bad_header_length (length header))

unfoldable pub save_header_in_batch : Batch → ℤ → Bytes → Result Batch
unfolding check_header
save_header_in_batch batch height header = do
  check_header header
  key ← make_header_key height
  ok (then_put batch key header)

unfoldable pub delete_header_in_batch : Batch → ℤ → Result Batch
delete_header_in_batch batch height = do key ← make_header_key height; ok (then_del batch key)

-- The txids behind one another, each of 32 bytes.
unfoldable pub join_txids : List Bytes → Result Bytes
join_txids [] = ok []
join_txids (t ∷ ts) = do
  guard (length t == 32) (bad_txid_length (length t))
  rest ← join_txids ts
  ok (t ++ rest)

unfoldable pub save_block_txids_in_batch : Batch → ℤ → List Bytes → Result Batch
save_block_txids_in_batch batch height txids = do
  key ← make_block_txids_key height
  value ← join_txids txids
  ok (then_put batch key value)

-- `value[i*size : (i+1)*size]` for i below count.
unfoldable pub chunks : ℕ → ℕ → Bytes → List Bytes
chunks zero size value = []
chunks (suc count) size value = take size value ∷ chunks count size (drop size value)

unfoldable pub delete_block_txids_in_batch : Batch → ℤ → Result Batch
delete_block_txids_in_batch batch height = do
  key ← make_block_txids_key height
  ok (then_del batch key)

unfoldable pub save_tx_pos_in_batch : Batch → Bytes → ℤ → ℕ → Result Batch
save_tx_pos_in_batch batch txid height tx_index = do
  key ← make_tx_pos_key txid
  ok (then_put batch key (height_bytes height ++ put_be32 tx_index))

unfoldable pub join_offsets : List ℕ → Bytes
join_offsets [] = []
join_offsets (o ∷ os) = put_be32 o ++ join_offsets os

unfoldable pub save_tx_offsets_in_batch : Batch → ℤ → List ℕ → Result Batch
save_tx_offsets_in_batch batch height offsets = do
  key ← make_tx_offsets_key height
  ok (then_put batch key (join_offsets offsets))

unfoldable pub save_undo_in_batch : Batch → UndoBlock → Bytes → Result Batch
save_undo_in_batch batch undo hash = do
  key ← make_undo_key undo.height hash
  value ← encode_undo_block undo
  ok (then_put batch key value)

unfoldable pub delete_undo_in_batch : Batch → ℤ → Bytes → Result Batch
delete_undo_in_batch batch height hash = do key ← make_undo_key height hash; ok (then_del batch key)

-- The deletions of PruneUndoData's loop: a key that does not parse is passed over.
unfoldable pub prune_ops : ℤ → List (Bytes × Bytes) → Batch
prune_ops max_height_to_keep [] = []
prune_ops max_height_to_keep ((key, value) ∷ rest) =
    let later = prune_ops max_height_to_keep rest in
    elim (parse_undo_key key) [
      | err e ↦ later
      | ok (height, hash) ↦ if lt_int height max_height_to_keep then del key ∷ later else later
    ]

module _ (c : Codecs) where
  unfoldable pub save_checkpoint_in_batch : Batch → Checkpoint → Result Batch
  save_checkpoint_in_batch batch checkpoint =
      ok (then_put batch key_checkpoint (c.marshal checkpoint))

  unfoldable pub save_tx_blob_in_batch : Batch → ℤ → Bytes → Result Batch
  save_tx_blob_in_batch batch height blob = do
    key ← make_tx_blob_key height
    compressed ← c.compress blob
    ok (then_put batch key compressed)

module _ (p : Pebble) where
  open p use {Db, read, commit, scan}

  unfoldable pub save_header : Db → ℤ → Bytes → Result Db
  save_header d height header = do
    check_header header
    key ← make_header_key height
    commit d (put key header ∷ [])

  unfoldable pub get_header : Db → ℤ → Result Bytes
  get_header d height = do key ← make_header_key height; value ← read d key; required value

  unfoldable pub get_header_hex : Db → ℤ → Result Bytes
  get_header_hex d height = do header ← get_header d height; ok (hex_encode header)

  unfoldable pub get_block_txids : Db → ℤ → Result (List Bytes)
  get_block_txids d height = do
    key ← make_block_txids_key height
    found ← read d key
    value ← required found
    guard (length value % 32 == 0) (bad_value_length (length value))
    ok (chunks (length value / 32) 32 value)

  -- Height and index, or none where the transaction is not indexed.
  unfoldable pub get_tx_pos : Db → Bytes → Result (Option (ℤ × ℕ))
  get_tx_pos d txid = do
    key ← make_tx_pos_key txid
    found ← read d key
    elim found [
      | none ↦ ok none
      | some value ↦ do
        guard (length value == 8) (bad_value_length (length value))
        ok (some (read_height (slice 0 4 value), be32 (slice 4 8 value)))
    ]

  unfoldable pub get_tx_offsets : Db → ℤ → Result (List ℕ)
  get_tx_offsets d height = do
    key ← make_tx_offsets_key height
    found ← read d key
    value ← required found
    guard (length value % 4 == 0) (bad_value_length (length value))
    ok (map be32 (chunks (length value / 4) 4 value))

  unfoldable pub get_utxo : Db → Bytes → Bytes → ℕ → Result (Option UtxoValue)
  get_utxo d scripthash txid vout = do
    key ← make_utxo_key scripthash txid vout
    found ← read d key
    elim found [ none ↦ ok none | some value ↦ do u ← decode_utxo_value value; ok (some u) ]

  unfoldable pub get_scripthash_for_outpoint : Db → Bytes → ℕ → Result (Option Bytes)
  get_scripthash_for_outpoint d txid vout = do key ← make_tx_index_key txid vout; read d key

  unfoldable pub new_prefix_iterator : Db → Bytes → Result Scanned
  new_prefix_iterator d prefix = scan d prefix (prefix_upper_bound prefix)

  unfoldable pub new_range_iterator : Db → Bytes → Option Bytes → Result Scanned
  new_range_iterator d lower upper = scan d lower upper

  unfoldable pub get_undo : Db → ℤ → Bytes → Result UndoBlock
  get_undo d height hash = do
    key ← make_undo_key height hash
    found ← read d key
    value ← required found
    decode_undo_block value

  -- The batch is committed if it is not empty; with the number of its deletions.
  unfoldable pub commit_pruned : Db → Batch → Result (ℕ × Db)
  commit_pruned d [] = ok (0, d)
  commit_pruned d (o ∷ ops) = do d' ← commit d (o ∷ ops); ok (length (o ∷ ops), d')

  -- The entries, if iter.Error() is nil.
  abbrev pub whole : Scanned → Result (List (Bytes × Bytes))
  whole it = elim it.failure [ none ↦ ok it.entries | some e ↦ err e ]

  -- The number of records that were deleted, and the database after it.
  unfoldable pub prune_undo_data : Db → ℤ → Result (ℕ × Db)
  prune_undo_data d max_height_to_keep = do
    it ← new_prefix_iterator d (prefix_undo ∷ [])
    entries ← whole it
    commit_pruned d (prune_ops max_height_to_keep entries)

module _ (p : Pebble) (c : Codecs) where
  open p use {Db, read, commit}

  unfoldable pub load_checkpoint : Db → Result Checkpoint
  load_checkpoint d = do
    found ← read d key_checkpoint
    elim found [ none ↦ ok zero_checkpoint | some value ↦ c.unmarshal value ]

  unfoldable pub save_checkpoint : Db → Checkpoint → Result Db
  save_checkpoint d checkpoint = commit d (put key_checkpoint (c.marshal checkpoint) ∷ [])

  unfoldable pub get_tx_blob : Db → ℤ → Result Bytes
  get_tx_blob d height = do
    key ← make_tx_blob_key height
    found ← read d key
    value ← required found
    c.decompress value
