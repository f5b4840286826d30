-- ===== src/Storage/Values.antt =====
-- internal/storage/storage.go: the values of the tables of unspent outputs and of the mempool, in
-- fixed-width little-endian fields.
pub mod RoundTrip
use electrum_go.Base.{ℕ, ◌++◌, length, slice, replicate, ◌==◌, if◌then◌else◌}
use electrum_go.Base.Int.{ℤ, to_unsigned, to_signed}
use electrum_go.Base.Bytes.{Bytes, put_le32, le32, put_le64, le64}
use electrum_go.Base.Result.{Result, ok, guard, ◌>>=◌, ◌>>◌, bad_value_length}

pub record UtxoValue : Type 0 where
  pub value : ℤ
  pub height : ℤ
  pub block_hash : Bytes

-- The buffer is zeroed, and a block hash of another length is not copied into it.
unfoldable pub encode_utxo_value : UtxoValue → Bytes
encode_utxo_value u =
    put_le64 (to_unsigned 64 u.value)
    ++ (put_le32 (to_unsigned 32 u.height)
        ++ (if length u.block_hash == 32 then u.block_hash else replicate 32 0))

unfoldable pub decode_utxo_value : Bytes → Result UtxoValue
decode_utxo_value data' = do
  guard (length data' == 44) (bad_value_length (length data'))
  ok (record {
    value = to_signed 64 (le64 (slice 0 8 data'));
    height = to_signed 32 (le32 (slice 8 12 data'));
    block_hash = slice 12 44 data';
  })

pub record MempoolValue : Type 0 where
  pub value : ℤ
  pub first_seen : ℤ
  pub fee : ℤ

unfoldable pub encode_mempool_value : MempoolValue → Bytes
encode_mempool_value m =
    put_le64 (to_unsigned 64 m.value)
    ++ (put_le64 (to_unsigned 64 m.first_seen) ++ put_le64 (to_unsigned 64 m.fee))

unfoldable pub decode_mempool_value : Bytes → Result MempoolValue
decode_mempool_value data' = do
  guard (length data' == 24) (bad_value_length (length data'))
  ok (record {
    value = to_signed 64 (le64 (slice 0 8 data'));
    first_seen = to_signed 64 (le64 (slice 8 16 data'));
    fee = to_signed 64 (le64 (slice 16 24 data'));
  })
