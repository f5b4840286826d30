-- ===== src/Storage/Undo.antt =====
-- internal/storage/storage.go: the undo record of a block and its encoding.
pub mod RoundTrip
use electrum_go.Base.{
  ℕ, zero, suc, ◌+◌, ◌-◌, ◌%◌, ◌^◌, List, [], ◌∷◌, ◌++◌, length, take, drop, replicate, ltb, ◌==◌,
  if◌then◌else◌,
}
use electrum_go.Base.Int.{ℤ, to_unsigned, to_signed}
use electrum_go.Base.Bytes.{Bytes, put_le32, le32, put_le64, le64}
use electrum_go.Base.Result.{
  Result, ok, err, guard, ◌>>=◌, ◌>>◌, bad_scripthash_length, bad_txid_length,
  bad_block_hash_length, end_of_data,
}

pub record UndoOutput : Type 0 where
  pub scripthash : Bytes
  pub txid : Bytes
  pub vout : ℕ
  pub value : ℤ
  pub height : ℤ
  pub block_hash : Bytes

pub record UndoHistory : Type 0 where
  pub scripthash : Bytes
  pub height : ℤ
  pub tx_index : ℕ
  pub index : ℕ

pub record UndoBlock : Type 0 where
  pub height : ℤ
  pub block_hash : Bytes
  pub prev_block_hash : Bytes
  pub spent_outputs : List UndoOutput
  pub created_outputs : List UndoOutput
  pub history_entries : List UndoHistory

unfoldable pub write_i32 : ℤ → Bytes
write_i32 v = put_le32 (to_unsigned 32 v)

unfoldable pub write_i64 : ℤ → Bytes
write_i64 v = put_le64 (to_unsigned 64 v)

unfoldable pub write_count : ℕ → Bytes
write_count n = put_le32 (n % 2 ^ 32)

unfoldable pub write_output : UndoOutput → Result Bytes
write_output o = do
  guard (length o.scripthash == 32) (bad_scripthash_length (length o.scripthash))
  guard (length o.txid == 32) (bad_txid_length (length o.txid))
  guard (length o.block_hash == 32) (bad_block_hash_length (length o.block_hash))
  ok (
      o.scripthash
      ++ (o.txid
          ++ (put_le32 o.vout ++ (write_i64 o.value ++ (write_i32 o.height ++ o.block_hash)))))

unfoldable pub write_history : UndoHistory → Result Bytes
write_history h = do
  guard (length h.scripthash == 32) (bad_scripthash_length (length h.scripthash))
  ok (h.scripthash ++ (write_i32 h.height ++ (put_le32 h.tx_index ++ put_le32 h.index)))

-- `for _, x := range xs { ... buf.Write(...) }`, which returns at the first error.
unfoldable pub write_all {ℓ} : {A : Type ℓ} → (A → Result Bytes) → List A → Result Bytes
write_all write [] = ok []
write_all write (x ∷ xs) = do b ← write x; bs ← write_all write xs; ok (b ++ bs)

unfoldable pub encode_undo_block : UndoBlock → Result Bytes
encode_undo_block u = do
  guard (length u.block_hash == 32) (bad_block_hash_length (length u.block_hash))
  guard (length u.prev_block_hash == 32) (bad_block_hash_length (length u.prev_block_hash))
  spent ← write_all write_output u.spent_outputs
  created ← write_all write_output u.created_outputs
  history ← write_all write_history u.history_entries
  ok (
      write_i32 u.height
      ++ (u.block_hash
          ++ (u.prev_block_hash
              ++ (write_count (length u.spent_outputs)
                  ++ (write_count (length u.created_outputs)
                      ++ (write_count (length u.history_entries)
                          ++ (spent ++ (created ++ history))))))))

-- A read consumes bytes of the reader and returns those that are left.
abbrev pub Read {ℓ} : Type ℓ → Type ℓ
Read A = Bytes → Result (A × Bytes)

-- binary.Read, which wants all its bytes.
unfoldable pub read_u32 : Read ℕ
read_u32 r = if ltb (length r) 4 then err end_of_data else ok (le32 r, drop 4 r)

unfoldable pub read_i32 : Read ℤ
read_i32 r = if ltb (length r) 4 then err end_of_data else ok (to_signed 32 (le32 r), drop 4 r)

unfoldable pub read_i64 : Read ℤ
read_i64 r = if ltb (length r) 8 then err end_of_data else ok (to_signed 64 (le64 r), drop 8 r)

-- `r.Read(buf)` into a zeroed buffer of n bytes: an error only if nothing at all is left. A short
-- read fills the front of the buffer and is no error.
unfoldable pub read_bytes : ℕ → Read Bytes
read_bytes n [] = err end_of_data
read_bytes n (b ∷ bs) =
    let front = take n (b ∷ bs) in ok (front ++ replicate (n - length front) 0, drop n (b ∷ bs))

unfoldable pub read_output : Read UndoOutput
read_output r = do
  (sh, r) ← read_bytes 32 r
  (txid, r) ← read_bytes 32 r
  (vout, r) ← read_u32 r
  (value, r) ← read_i64 r
  (h, r) ← read_i32 r
  (bh, r) ← read_bytes 32 r
  ok (
    record {
      scripthash = sh;
      txid = txid;
      vout = vout;
      value = value;
      height = h;
      block_hash = bh;
    },
    r,
  )

unfoldable pub read_history : Read UndoHistory
read_history r = do
  (sh, r) ← read_bytes 32 r
  (h, r) ← read_i32 r
  (tx_index, r) ← read_u32 r
  (index, r) ← read_u32 r
  ok (record { scripthash = sh; height = h; tx_index = tx_index; index = index }, r)

-- `for i := 0; i < count; i++ { ... append(...) }`.
unfoldable pub read_many {ℓ} : {A : Type ℓ} → Read A → ℕ → Read (List A)
read_many read zero r = ok ([], r)
read_many read (suc n) r = do (x, r') ← read r; (xs, r'') ← read_many read n r'; ok (x ∷ xs, r'')

unfoldable pub decode_undo_block : Bytes → Result UndoBlock
decode_undo_block r = do
  (height, r) ← read_i32 r
  (block_hash, r) ← read_bytes 32 r
  (prev, r) ← read_bytes 32 r
  (spent_count, r) ← read_u32 r
  (created_count, r) ← read_u32 r
  (history_count, r) ← read_u32 r
  (spent, r) ← read_many read_output spent_count r
  (created, r) ← read_many read_output created_count r
  (history, r) ← read_many read_history history_count r
  ok (record {
    height = height;
    block_hash = block_hash;
    prev_block_hash = prev;
    spent_outputs = spent;
    created_outputs = created;
    history_entries = history;
  })
