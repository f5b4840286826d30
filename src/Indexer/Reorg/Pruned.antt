-- ===== src/Indexer/Reorg/Pruned.antt =====
-- What PruneOldUndoData leaves of the undo records.
use electrum_go.Base.{
  ℕ, ◌-◌, ◌^◌, ◌<◌, ◌≡◌, none, List, [], ◌∷◌, length, arith, if◌then◌else◌, lt→ltb,
}
use electrum_go.Base.Int.{pos, as_i32, sub32-pos}
use electrum_go.Base.Bytes.{Bytes}
use electrum_go.Base.Result.{ok}
use electrum_go.Storage.Keys.{prefix_undo}
use electrum_go.Storage.Pebble.{complete, Pebble}
use electrum_go.Storage.Database.{Batch, new_prefix_iterator, prune_ops}
use electrum_go.Storage.Database.Prune.{is_old, prune_undo_data_exact}
use electrum_go.Indexer.Reorg.Queries.{prune_old_undo_data}

as_i32-pos : (n : ℕ) → n < 2 ^ 31 → as_i32 (pos n) ≡ pos n
as_i32-pos n h = ground arith

module _ (p : Pebble) (d : p.Db) (depth height : ℕ) where
  -- Above the maximal depth of a reorg, with a height below 2 ^ 31, an iterator over the undo records
  -- and commits that do not fail, PruneOldUndoData deletes the undo records of the heights that are
  -- deeper below the height than the maximal depth, returns their number, and leaves every other key
  -- as it was.
  pub prune_old_undo_data_exact :
      (entries : List (Bytes × Bytes))
      → depth < height
      → height < 2 ^ 31
      → new_prefix_iterator p d (prefix_undo ∷ []) ≡ ok (complete entries)
      → ((b : Batch) → (d' : p.Db) × (p.commit d b ≡ ok d'))
      → (d' : p.Db) × (prune_old_undo_data p (pos depth) d (pos height)
          ≡ ok (length (prune_ops (pos (height - depth)) entries), d'))
        × ((k : Bytes)
            → p.contents d' k ≡ (if is_old (pos (height - depth)) k then none else p.contents d k))
  unfolding prune_old_undo_data
  prune_old_undo_data_exact entries h s it writes =
      let (d', e, same) = prune_undo_data_exact p d (pos (height - depth)) entries it writes in
      (
        d',
        rw
            (
              as_i32-pos depth (omega (arith, h, s)),
              lt→ltb depth height h,
              sub32-pos height depth (omega (arith, h)) s,
            )
            e,
        same,
      )
