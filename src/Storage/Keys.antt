-- ===== src/Storage/Keys.antt =====
-- internal/storage/keys.go: the keys of the tables of the database, one byte of prefix each.
-- A `make` writes its fields behind the prefix after the tests on their lengths; a `parse` tests the
-- length and the prefix, and reads the fields at their offsets. Slices of bytes are lists of bytes,
-- an int32 is an integer in range, a uint32 is a number below 2 ^ 32.
pub mod Layout
pub mod Outpoint
pub mod History
pub mod Heights
pub mod Undo
pub mod Order
pub mod Bound
pub mod Tables
mod Runs
use electrum_go.Base.{ℕ, ◌+◌, ◌%◌, not, [], ◌∷◌, ◌++◌, length, slice, ◌==◌, if◌then◌else◌}
use electrum_go.Base.{Option, none, some, reverse}
use electrum_go.Base.Int.{ℤ, to_unsigned, to_signed, is_negative}
use electrum_go.Base.Bytes.{Bytes, put_be32, be32}
use electrum_go.Base.Result.{
  Result, ok, guard, ◌>>◌, bad_scripthash_length, bad_txid_length, bad_block_hash_length,
  bad_key_length, bad_key_prefix, negative_height,
}

abbrev pub prefix_utxo : ℕ
prefix_utxo = b'u'

abbrev pub prefix_history : ℕ
prefix_history = b'h'

abbrev pub prefix_tx_index : ℕ
prefix_tx_index = b't'

abbrev pub prefix_undo : ℕ
prefix_undo = b'd'

abbrev pub prefix_header : ℕ
prefix_header = b'b'

abbrev pub prefix_mempool : ℕ
prefix_mempool = b'm'

abbrev pub prefix_block_tx : ℕ
prefix_block_tx = b'x'

abbrev pub prefix_tx_pos : ℕ
prefix_tx_pos = b'p'

abbrev pub prefix_tx_blob : ℕ
prefix_tx_blob = b'r'

abbrev pub prefix_tx_offs : ℕ
prefix_tx_offs = b'o'

abbrev pub key_checkpoint : Bytes
key_checkpoint = b'c' ∷ []

-- uint32(height)
abbrev pub height_bytes : ℤ → Bytes
height_bytes h = put_be32 (to_unsigned 32 h)

-- int32(binary.BigEndian.Uint32(b))
abbrev pub read_height : Bytes → ℤ
read_height b = to_signed 32 (be32 b)

abbrev pub first : Bytes → ℕ
first [] = 0
first (b ∷ bs) = b

abbrev pub check_scripthash : Bytes → Result (Unit {0})
check_scripthash sh = guard (length sh == 32) (bad_scripthash_length (length sh))

abbrev pub check_txid : Bytes → Result (Unit {0})
check_txid txid = guard (length txid == 32) (bad_txid_length (length txid))

abbrev pub check_block_hash : Bytes → Result (Unit {0})
check_block_hash hash = guard (length hash == 32) (bad_block_hash_length (length hash))

-- The two tests with which every `parse` begins.
abbrev pub check_key : ℕ → ℕ → Bytes → Result (Unit {0})
check_key expected prefix key = do
  guard (length key == expected) (bad_key_length (length key))
  guard (first key == prefix) (bad_key_prefix (first key))

-- The two tables that are indexed by a scripthash and an outpoint.
abbrev pub outpoint_key : ℕ → Bytes → Bytes → ℕ → Result Bytes
outpoint_key prefix scripthash txid vout = do
  check_scripthash scripthash
  check_txid txid
  ok (prefix ∷ scripthash ++ (txid ++ put_be32 vout))

abbrev pub parse_outpoint_key : ℕ → Bytes → Result (Bytes × Bytes × ℕ)
parse_outpoint_key prefix key = do
  check_key 69 prefix key
  ok (slice 1 33 key, slice 33 65 key, be32 (slice 65 69 key))

unfoldable pub make_utxo_key : Bytes → Bytes → ℕ → Result Bytes
make_utxo_key = outpoint_key prefix_utxo

unfoldable pub parse_utxo_key : Bytes → Result (Bytes × Bytes × ℕ)
parse_utxo_key = parse_outpoint_key prefix_utxo

unfoldable pub make_utxo_prefix : Bytes → Result Bytes
make_utxo_prefix scripthash = do check_scripthash scripthash; ok (prefix_utxo ∷ scripthash)

-- h + scripthash(32) + height(4) + txIndex(4) + index(4)
unfoldable pub make_history_key : Bytes → ℤ → ℕ → ℕ → Result Bytes
make_history_key scripthash height tx_index index = do
  check_scripthash scripthash
  ok (prefix_history ∷ scripthash ++ (height_bytes height ++ (put_be32 tx_index ++ put_be32 index)))

unfoldable pub parse_history_key : Bytes → Result (Bytes × ℤ × ℕ × ℕ)
parse_history_key key = do
  check_key 45 prefix_history key
  ok (slice 1 33 key, read_height (slice 33 37 key), be32 (slice 37 41 key), be32 (slice 41 45 key))

unfoldable pub make_history_prefix : Bytes → Result Bytes
make_history_prefix scripthash = do check_scripthash scripthash; ok (prefix_history ∷ scripthash)

unfoldable pub make_tx_index_key : Bytes → ℕ → Result Bytes
make_tx_index_key txid vout = do check_txid txid; ok (prefix_tx_index ∷ txid ++ put_be32 vout)

unfoldable pub parse_tx_index_key : Bytes → Result (Bytes × ℕ)
parse_tx_index_key key = do
  check_key 37 prefix_tx_index key
  ok (slice 1 33 key, be32 (slice 33 37 key))

unfoldable pub make_tx_pos_key : Bytes → Result Bytes
make_tx_pos_key txid = do check_txid txid; ok (prefix_tx_pos ∷ txid)

-- The four tables that are indexed by a height alone.
abbrev pub height_key : ℕ → ℤ → Result Bytes
height_key prefix height = do
  guard (not (is_negative height)) negative_height
  ok (prefix ∷ height_bytes height)

unfoldable pub make_tx_blob_key : ℤ → Result Bytes
make_tx_blob_key = height_key prefix_tx_blob

unfoldable pub make_tx_offsets_key : ℤ → Result Bytes
make_tx_offsets_key = height_key prefix_tx_offs

unfoldable pub make_header_key : ℤ → Result Bytes
make_header_key = height_key prefix_header

unfoldable pub make_block_txids_key : ℤ → Result Bytes
make_block_txids_key = height_key prefix_block_tx

abbrev pub parse_height_key : ℕ → Bytes → Result ℤ
parse_height_key prefix key = do check_key 5 prefix key; ok (read_height (slice 1 5 key))

unfoldable pub parse_header_key : Bytes → Result ℤ
parse_header_key = parse_height_key prefix_header

unfoldable pub parse_block_txids_key : Bytes → Result ℤ
parse_block_txids_key = parse_height_key prefix_block_tx

unfoldable pub make_undo_key : ℤ → Bytes → Result Bytes
make_undo_key height hash = do
  check_block_hash hash
  guard (not (is_negative height)) negative_height
  ok (prefix_undo ∷ height_bytes height ++ hash)

unfoldable pub parse_undo_key : Bytes → Result (ℤ × Bytes)
parse_undo_key key = do
  check_key 37 prefix_undo key
  ok (read_height (slice 1 5 key), slice 5 37 key)

unfoldable pub make_mempool_key : Bytes → Bytes → ℕ → Result Bytes
make_mempool_key = outpoint_key prefix_mempool

unfoldable pub parse_mempool_key : Bytes → Result (Bytes × Bytes × ℕ)
parse_mempool_key = parse_outpoint_key prefix_mempool

unfoldable pub make_mempool_prefix : Bytes → Result Bytes
make_mempool_prefix scripthash = do check_scripthash scripthash; ok (prefix_mempool ∷ scripthash)

-- The loop runs over the bytes from the last to the first, so its list is reversed: a byte that
-- wraps to zero stays zero and carries, and the first that does not ends the loop.
unfoldable pub increment : Bytes → Option Bytes
increment [] = none
increment (b ∷ bs) =
    let rest = increment bs in
    if (b + 1) % 256 == 0
    then elim rest [ none ↦ none | some r ↦ some (0 ∷ r) ]
    else some (((b + 1) % 256) ∷ bs)

-- `none` is nil, which the iterators read as no upper bound.
unfoldable pub prefix_upper_bound : Bytes → Option Bytes
unfolding increment
prefix_upper_bound prefix = elim (increment (reverse prefix)) [
  | none ↦ none
  | some r ↦ some (reverse r)
]
