-- ===== src/Indexer/Reorg.antt =====
-- internal/indexer/reorg.go, the rest of ReorgHandler: the search for the fork point, the rollback to
-- it. Messages of the log are left out.
pub mod Queries
pub mod Fork
pub mod Pruned
pub mod Point
pub mod Rewind
mod Runs
use electrum_go.Base.{
  ℕ, zero, suc, ◌+◌, ◌-◌, ◌%◌, ◌^◌, Bool, true, false, not, ◌&&◌, ◌||◌, Option, none, some, List,
  [], ◌∷◌, length, reverse, ◌==◌, if◌then◌else◌,
}
use electrum_go.Base.Int.{
  ℤ, pos, negsuc, to_unsigned, to_signed, lt_int, eq_int, add32, sub32, magnitude, as_i32,
}
use electrum_go.Base.Bytes.{Bytes, bytes_eq}
use electrum_go.Base.Hex.{hex_decode}
use electrum_go.Base.Result.{
  Result, ok, err, guard, ◌>>=◌, ◌>>◌, not_found, bad_data, too_deep, not_connected,
}
use electrum_go.Storage.Keys.{prefix_undo, height_bytes, parse_undo_key}
use electrum_go.Storage.Pebble.{Pebble, Codecs, Checkpoint}
use electrum_go.Storage.Database.{
  zero_checkpoint, load_checkpoint, save_checkpoint, new_prefix_iterator, get_header,
  prune_undo_data,
}
use electrum_go.Indexer.Mempool.{MempoolOverlay}
use electrum_go.Indexer.Mempool.Methods.{clear}
use electrum_go.Indexer.Types.{ChainState, zero_hash, block_hash_to_hex, block_hash_from_hex}
use electrum_go.Indexer.Rollback.{rollback_block}

-- What the code uses of the node and of btcd: GetBlockHash, the text of a hash, and the hash of a
-- header that Deserialize reads.
pub record Node : Type 0 where
  pub get_block_hash : ℤ → Result Bytes
  pub hash_string : Bytes → Bytes
  pub header_hash : Bytes → Result Bytes

pub record ReorgResult : Type 0 where
  pub reorg_detected : Bool
  pub fork_height : ℤ
  pub fork_hash : Bytes
  pub rolled_back_blocks : ℕ
  pub current_height : ℤ
  pub current_hash : Bytes

abbrev pub no_result : ReorgResult
no_result = record {
  reorg_detected = false;
  fork_height = pos 0;
  fork_hash = [];
  rolled_back_blocks = 0;
  current_height = pos 0;
  current_hash = [];
}

-- `checkpoint.Height == 0 && checkpoint.BlockHash == ""`
abbrev pub is_fresh : Checkpoint → Bool
is_fresh c = eq_int c.height (pos 0) && length c.block_hash == 0

-- The loop of findForkPoint, on fuel: a height that we have no hash of is passed over.
module _ (our_hash : ℤ → Result Bytes) (node : Node) (max_depth : ℤ) where
  unfoldable pub fork_loop : ℕ → ℤ → ℤ → ℤ → Result (Option (ℤ × Bytes))
  fork_loop zero start boundary height = ok none
  fork_loop (suc fuel) start boundary height =
      let rest = fork_loop fuel start boundary (sub32 height (pos 1)) in
      if lt_int height boundary || lt_int max_depth (sub32 start height)
      then ok none
      else elim (our_hash height) [
        | err e ↦ rest
        | ok ours ↦ elim (node.get_block_hash height) [
          | err e ↦ err e
          | ok core ↦
              if bytes_eq (block_hash_to_hex ours) (node.hash_string core)
              then ok (some (height, ours))
              else rest
        ]
      ]

module _ (p : Pebble) (c : Codecs) (node : Node) where
  open p use {Db}

  -- From an undo record of the height, else from its header. An iterator that breaks off at once counts
  -- as one without a record.
  unfoldable pub stored_hash : Db → ℤ → Result Bytes
  stored_hash d height = do
    it ← new_prefix_iterator p d (prefix_undo ∷ height_bytes height)
    elim it.entries [
      | [] ↦ elim (get_header p d height) [
        | err e ↦ err not_found
        | ok header ↦
            if length header == 80
            then elim (node.header_hash header) [ err e ↦ err not_found | ok h ↦ ok h ]
            else err not_found
      ]
      | (key, value) ∷ rest ↦ do (h, hash) ← parse_undo_key key; ok hash
    ]

  unfoldable pub get_our_block_hash : Db → ℤ → Result Bytes
  get_our_block_hash d height = elim (load_checkpoint p c d) [
    | err e ↦ stored_hash d height
    | ok cp ↦
        if eq_int cp.height height && not (length cp.block_hash == 0)
        then block_hash_from_hex cp.block_hash
        else stored_hash d height
  ]

  -- An error of LoadCheckpoint is dropped, which leaves the zero checkpoint.
  unfoldable pub checkpoint_or_zero : Db → Checkpoint
  checkpoint_or_zero d = elim (load_checkpoint p c d) [ err e ↦ zero_checkpoint | ok cp ↦ cp ]

  unfoldable pub start_boundary : Db → ℤ
  start_boundary d =
      let start = (checkpoint_or_zero d).start_height in
      if lt_int (pos 0) start then start else pos 1

  -- The loop of rollbackToHeight, with the database as it is when the loop ends or fails.
  unfoldable pub rollback_loop : ℕ → Db → ℤ → ℤ → ℕ → Db × Result ℕ
  rollback_loop zero d height target count = (d, ok count)
  rollback_loop (suc fuel) d height target count =
      if lt_int target height
      then elim (get_our_block_hash d height) [
        | err e ↦ (d, err e)
        | ok hash ↦ elim (rollback_block p d height hash) [
          | err e ↦ (d, err e)
          | ok d' ↦ rollback_loop fuel d' (sub32 height (pos 1)) target (count + 1)
        ]
      ]
      else (d, ok count)

  -- The hash of the fork point: ours, else the node's.
  unfoldable pub fork_hash_at : Db → ℤ → Result Bytes
  fork_hash_at d target = elim (get_our_block_hash d target) [
    | ok hash ↦ ok hash
    | err e ↦ node.get_block_hash target
  ]

  unfoldable pub finish_rollback : Db → ℤ → ℕ → Db × Result ℕ
  finish_rollback d target count = elim (fork_hash_at d target) [
    | err e ↦ (d, err e)
    | ok hash ↦
        elim (save_checkpoint p c d
          (record { height = target; block_hash = block_hash_to_hex hash; start_height = pos 0 })) [
            | err e ↦ (d, err e)
            | ok d' ↦ (d', ok count)
          ]
  ]

  -- Two rounds more than the height: at a negative height rollbackBlock fails.
  unfoldable pub rollback_to_height : Db → ℤ → Db × Result ℕ
  rollback_to_height d target = elim (load_checkpoint p c d) [
    | err e ↦ (d, err e)
    | ok cp ↦
        let (d', result) = rollback_loop (magnitude cp.height + 2) d cp.height target 0 in
        elim result [ err e ↦ (d', err e) | ok count ↦ finish_rollback d' target count ]
  ]

module _ (p : Pebble) (c : Codecs) (node : Node) (max_reorg_depth : ℤ) where
  open p use {Db}

  -- Every round lowers the height and a boundary is above 0, so the start height is enough fuel.
  unfoldable pub find_fork_point : Db → ℤ → Result (ℤ × Bytes)
  find_fork_point d start = do
    let boundary = start_boundary p c node d
    found ←
        fork_loop (get_our_block_hash p c node d) node (as_i32 max_reorg_depth) (magnitude start)
          start boundary (sub32 start (pos 1))
    elim found [
      | some fork ↦ ok fork
      | none ↦ do
        let previous = sub32 boundary (pos 1)
        core ← node.get_block_hash previous
        ok (previous, core)
    ]

  -- The reorg proper: the rollback to the fork point, if it is not too deep, after which the mempool is
  -- cleared.
  unfoldable pub handle_reorg :
      MempoolOverlay → Db → Checkpoint → MempoolOverlay × Db × Result ReorgResult
  handle_reorg m d cp = elim (find_fork_point d cp.height) [
    | err e ↦ (m, d, err e)
    | ok (fork_height, fork_hash) ↦
        if lt_int max_reorg_depth (sub32 cp.height fork_height) && lt_int (pos 0) fork_height
        then (m, d, err too_deep)
        else let (d', result) = rollback_to_height p c node d fork_height in
          elim result [
            | err e ↦ (m, d', err e)
            | ok count ↦
                let (m', cleared) = clear p m d' in
                (
                  m',
                  cleared,
                  ok (record {
                    reorg_detected = true;
                    fork_height = fork_height;
                    fork_hash = fork_hash;
                    rolled_back_blocks = count;
                    current_height = fork_height;
                    current_hash = fork_hash;
                  }),
                )
          ]
  ]

  -- The mempool and the database afterwards.
  unfoldable pub check_and_handle : MempoolOverlay → Db → MempoolOverlay × Db × Result ReorgResult
  check_and_handle m d = elim (load_checkpoint p c d) [
    | err e ↦ (m, d, err e)
    | ok cp ↦
        if is_fresh cp then (m, d, ok no_result) else elim (block_hash_from_hex cp.block_hash) [
          | err e ↦ (m, d, err e)
          | ok current ↦ elim (node.get_block_hash cp.height) [
            | err e ↦ (m, d, err e)
            | ok core ↦
                if bytes_eq (node.hash_string core) cp.block_hash
                then (
                  m,
                  d,
                  ok (record no_result { current_height = cp.height; current_hash = current }),
                )
                else handle_reorg m d cp
          ]
        ]
  ]
