-- ===== src/Indexer/Reorg/Queries.antt =====
-- internal/indexer/reorg.go: the pruning of old undo records, and the queries on the checkpoint.
use electrum_go.Base.{ℕ, length, reverse, ◌==◌, if◌then◌else◌}
use electrum_go.Base.Int.{ℤ, pos, lt_int, add32, sub32, as_i32}
use electrum_go.Base.Bytes.{Bytes, bytes_eq}
use electrum_go.Base.Hex.{hex_decode}
use electrum_go.Base.Result.{Result, ok, err, guard, ◌>>=◌, not_connected}
use electrum_go.Storage.Pebble.{Pebble, Codecs}
use electrum_go.Storage.Database.{load_checkpoint, prune_undo_data}
use electrum_go.Indexer.Types.{ChainState, zero_hash}
use electrum_go.Indexer.Reorg.{is_fresh}

module _ (p : Pebble) (max_reorg_depth : ℤ) where
  open p use {Db}

  unfoldable pub prune_old_undo_data : Db → ℤ → Result (ℕ × Db)
  prune_old_undo_data d current_height =
      if lt_int (as_i32 max_reorg_depth) current_height
      then prune_undo_data p d (sub32 current_height (as_i32 max_reorg_depth))
      else ok (0, d)

module _ (p : Pebble) (c : Codecs) where
  open p use {Db}

  -- The text of the previous hash must be that of our tip, if we have one.
  unfoldable pub validate_block_connects : Db → Bytes → Result (Unit {0})
  validate_block_connects d prev_string = do
    cp ← load_checkpoint p c d
    if is_fresh cp then ok tt else guard (bytes_eq prev_string cp.block_hash) not_connected

  unfoldable pub get_expected_height : Db → Result ℤ
  get_expected_height d = do
    cp ← load_checkpoint p c d
    if is_fresh cp then ok (pos 0) else ok (add32 cp.height (pos 1))

  -- A hash that is no text of 32 bytes leaves the zero hash.
  abbrev pub chain_hash : Bytes → Bytes
  chain_hash text = elim (hex_decode text) [
    | err e ↦ zero_hash
    | ok hash ↦ if length hash == 32 then reverse hash else zero_hash
  ]

  unfoldable pub get_chain_state : Db → Result ChainState
  get_chain_state d = do
    cp ← load_checkpoint p c d
    ok (record {
      height = cp.height;
      block_hash = if length cp.block_hash == 0 then zero_hash else chain_hash cp.block_hash;
    })
