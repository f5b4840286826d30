-- ===== src/Electrum/Lookup.antt =====
-- internal/electrum/handlers.go: getTxFromDB, which cuts a transaction out of the blob of its block.
pub mod Placed
pub mod Indexed
mod Runs
use electrum_go.Base.{
  ℕ, zero, suc, ◌+◌, ◌-◌, ◌%◌, ◌^◌, Bool, true, false, not, ◌||◌, Option, none, some, List, [], ◌∷◌,
  length, slice, ltb, if◌then◌else◌,
}
use electrum_go.Base.Int.{ℤ}
use electrum_go.Base.Bytes.{Bytes}
use electrum_go.Base.Hex.{hex_encode}
use electrum_go.Base.Result.{Error, Result, ok, err}
use electrum_go.Storage.Pebble.{Pebble, Codecs}
use electrum_go.Storage.Database.{get_tx_pos, get_tx_blob, get_tx_offsets}
use electrum_go.Indexer.Types.{txid_from_hex}

-- The messages of its errors: the first has the code for invalid parameters, the others the internal
-- one.
pub data Refusal : Type 0 where
  invalid_txid : Refusal
  read_failed : Error → Refusal
  index_out_of_range invalid_offsets : Refusal

-- What it returns: an error, ok = false, or the hex form and the height.
pub data Lookup : Type 0 where
  refused : Refusal → Lookup
  not_indexed : Lookup
  found : Bytes → ℤ → Lookup

-- `if err != nil { return ... }` behind a read of the database.
abbrev pub reading : {V : Type 0} → Result V → (V → Lookup) → Lookup
reading (err e) next = refused (read_failed e)
reading (ok v) next = next v

-- `offsets[i]`; no caller reads out of range.
unfoldable pub offset_at : List ℕ → ℕ → ℕ
offset_at [] i = 0
offset_at (o ∷ os) zero = o
offset_at (o ∷ os) (suc i) = offset_at os i

-- Where a transaction ends: at the next offset, or with the blob.
unfoldable pub end_of : Bytes → List ℕ → ℕ → ℕ
end_of blob offsets tx_index =
    if ltb (tx_index + 1) (length offsets)
    then offset_at offsets ((tx_index + 1) % 2 ^ 32)
    else length blob % 2 ^ 32

unfoldable pub cut_tx : Bytes → List ℕ → ℕ → ℤ → Lookup
cut_tx blob offsets tx_index height =
    if not (ltb tx_index (length offsets))
    then refused index_out_of_range
    else let start = offset_at offsets tx_index in
      let end = end_of blob offsets tx_index in
      if ltb (length blob) end || ltb end start
      then refused invalid_offsets
      else found (hex_encode (slice start end blob)) height

module _ (p : Pebble) (c : Codecs) where
  open p use {Db}

  unfoldable pub read_tx : Db → Option (ℤ × ℕ) → Lookup
  read_tx d none = not_indexed
  read_tx d (some (height, tx_index)) =
      reading (get_tx_blob p c d height)
        λ blob. reading (get_tx_offsets p d height) λ offsets. cut_tx blob offsets tx_index height

  unfoldable pub get_tx_from_db : Db → Bytes → Lookup
  get_tx_from_db d txid_str = elim (txid_from_hex txid_str) [
    | err e ↦ refused invalid_txid
    | ok txid ↦ reading (get_tx_pos p d txid) (read_tx d)
  ]
