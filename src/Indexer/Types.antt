-- ===== src/Indexer/Types.antt =====
-- internal/indexer/types.go, and the hex forms of a hash in internal/storage/storage.go: hashes are
-- shown with their bytes reversed. `sha256` is a parameter.
pub mod RoundTrip
use electrum_go.Base.{
  ℕ, Bool, true, false, ◌&&◌, ◌||◌, List, [], ◌∷◌, length, replicate, reverse, ltb, ◌==◌,
  if◌then◌else◌,
}
use electrum_go.Base.Int.{ℤ, is_negative}
use electrum_go.Base.Bytes.{Bytes, bytes_eq}
use electrum_go.Base.Hex.{hex_encode, hex_decode}
use electrum_go.Base.Result.{Result, ok, guard, ◌>>=◌, ◌>>◌, bad_hash_length}
use electrum_go.Storage.Keys.{first}
use electrum_go.Storage.Values.{UtxoValue}

pub record ChainState : Type 0 where
  pub height : ℤ
  pub block_hash : Bytes

abbrev pub zero_hash : Bytes
zero_hash = replicate 32 0

unfoldable pub is_empty : ChainState → Bool
is_empty cs = is_negative cs.height || bytes_eq cs.block_hash zero_hash

module _ (sha256 : Bytes → Bytes) where
  unfoldable pub compute_scripthash : Bytes → Bytes
  compute_scripthash script = reverse (sha256 script)

  unfoldable pub compute_scripthash_hex : Bytes → Bytes
  compute_scripthash_hex script = hex_encode (compute_scripthash script)

unfoldable pub scripthash_from_hex : Bytes → Result Bytes
scripthash_from_hex s = do
  bytes ← hex_decode s
  guard (length bytes == 32) bad_hash_length
  ok bytes

-- The text is empty where the hash has another length.
unfoldable pub txid_to_hex : Bytes → Bytes
txid_to_hex txid = if length txid == 32 then hex_encode (reverse txid) else []

unfoldable pub txid_from_hex : Bytes → Result Bytes
txid_from_hex s = do
  bytes ← hex_decode s
  guard (length bytes == 32) bad_hash_length
  ok (reverse bytes)

unfoldable pub block_hash_to_hex : Bytes → Bytes
block_hash_to_hex hash = if length hash == 32 then hex_encode (reverse hash) else []

unfoldable pub block_hash_from_hex : Bytes → Result Bytes
block_hash_from_hex s = txid_from_hex s

-- UTXOValue.BlockHashHex
unfoldable pub utxo_block_hash_hex : UtxoValue → Bytes
utxo_block_hash_hex u = if length u.block_hash == 32 then hex_encode (reverse u.block_hash) else []

-- UTXOValue.SetBlockHashFromHex: a text of 64 digits decodes to 32 bytes.
unfoldable pub set_block_hash_from_hex : UtxoValue → Bytes → Result UtxoValue
set_block_hash_from_hex u hex = do
  guard (length hex == 64) bad_hash_length
  bytes ← hex_decode hex
  ok (record u { block_hash = reverse bytes })

unfoldable pub is_op_return : Bytes → Bool
is_op_return script = ltb 0 (length script) && first script == 0x6a

-- A coinbase input has the zero hash as its previous transaction.
unfoldable pub is_coinbase_input : Bytes → Bool
is_coinbase_input prev_txid = bytes_eq prev_txid zero_hash
