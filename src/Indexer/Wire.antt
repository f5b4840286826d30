-- ===== src/Indexer/Wire.antt =====
-- What internal/indexer uses of github.com/btcsuite/btcd: the fields of blocks and transactions that it
-- reads, and the hashes and serializations that it asks for, which are parameters.
use electrum_go.Base.{ℕ, List}
use electrum_go.Base.Int.{ℤ}
use electrum_go.Base.Bytes.{Bytes}
use electrum_go.Base.Result.{Result}

-- PreviousOutPoint's hash and index.
pub record TxIn : Type 0 where
  pub prev_hash : Bytes
  pub prev_index : ℕ

pub record TxOut : Type 0 where
  pub value : ℤ
  pub pk_script : Bytes

-- `other` stands for the fields that are not read.
pub record Tx : Type 0 where
  pub tx_in : List TxIn
  pub tx_out : List TxOut
  pub other : Bytes

pub record BlockHeader : Type 0 where
  pub prev_block : Bytes
  pub other : Bytes

pub record Block : Type 0 where
  pub header : BlockHeader
  pub transactions : List Tx

-- TxHash, Serialize, BlockHash and String, and sha256.Sum256.
pub record Wire : Type 0 where
  pub tx_hash : Tx → Bytes
  pub serialize_tx : Tx → Result Bytes
  pub block_hash : BlockHeader → Bytes
  pub serialize_header : BlockHeader → Result Bytes
  pub hash_string : Bytes → Bytes
  pub sha256 : Bytes → Bytes
