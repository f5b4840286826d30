-- ===== src/Indexer/Reorg/Runs.antt =====
-- A concrete search for a fork point, and the theorems on it.
use electrum_go.Base.{◌≡◌, refl, [], ◌∷◌, take, arith, replicate}
use electrum_go.Base.Int.{ℤ, pos}
use electrum_go.Base.Bytes.{Bytes, bytes_eq, bytes_lt}
use electrum_go.Base.Hex.{hex_encode, hex_digit}
use electrum_go.Base.Result.{ok}
use electrum_go.Base.Map.{bytes_key, get}
use electrum_go.Storage.Keys.{prefix_upper_bound, increment, make_header_key}
use electrum_go.Storage.Pebble.Table.{Table, table_store, scan_table, keep}
use electrum_go.Storage.Pebble.Plain.{plain_codecs}
use electrum_go.Storage.Database.{load_checkpoint, new_prefix_iterator, get_header}
use electrum_go.Indexer.Types.{block_hash_to_hex}
use electrum_go.Indexer.Reorg.{
  Node, fork_loop, stored_hash, get_our_block_hash, checkpoint_or_zero, start_boundary,
  find_fork_point,
}
use electrum_go.Base.{none, ◌-◌, length, if◌then◌else◌}
use electrum_go.Storage.Database.{prune_ops}
use electrum_go.Storage.Database.Prune.{is_old}
use electrum_go.Indexer.Reorg.Queries.{prune_old_undo_data}
use electrum_go.Indexer.Reorg.Pruned.{prune_old_undo_data_exact}
use electrum_go.Indexer.Reorg.Point.{IsForkPoint, find_fork_point-IsForkPoint}

abbrev fork_node : Node
fork_node = record {
  get_block_hash = λ height. ok (replicate 32 6);
  hash_string = block_hash_to_hex;
  header_hash = λ header. ok (take 32 header);
}

-- Two headers, of which the node has the lower.
abbrev headers : Table
headers =
    (b'b' ∷ 0 ∷ 0 ∷ 0 ∷ 2 ∷ [], replicate 80 6) ∷ (b'b' ∷ 0 ∷ 0 ∷ 0 ∷ 3 ∷ [], replicate 80 7) ∷ []

find_fork_point_two :
    find_fork_point table_store plain_codecs fork_node (pos 10) headers (pos 5)
    ≡ ok (pos 2, replicate 32 6)
unfolding find_fork_point start_boundary checkpoint_or_zero fork_loop get_our_block_hash stored_hash
    load_checkpoint new_prefix_iterator scan_table keep prefix_upper_bound increment bytes_lt
    bytes_eq get get_header make_header_key block_hash_to_hex hex_encode hex_digit
find_fork_point_two = refl

find_fork_point-IsForkPoint_example :
    (fork : ℤ × Bytes) × (find_fork_point table_store plain_codecs fork_node
        (pos 10)
        headers
        (pos 5)
      ≡ ok fork)
    × IsForkPoint table_store plain_codecs fork_node headers 5 1 10 fork
find_fork_point-IsForkPoint_example =
    find_fork_point-IsForkPoint table_store plain_codecs fork_node headers 5 1 10 (omega arith)
      (omega arith) (omega arith) (omega arith)
      (unfold start_boundary checkpoint_or_zero load_checkpoint get bytes_eq in refl)
      (λ x. (replicate 32 6, refl))

-- The undo records of two heights behind a header.
abbrev two_undo : Table
two_undo =
    (b'b' ∷ 0 ∷ 0 ∷ 0 ∷ 8 ∷ [], replicate 80 6)
    ∷ (b'd' ∷ 0 ∷ 0 ∷ 0 ∷ 8 ∷ replicate 32 3, 1 ∷ [])
    ∷ (b'd' ∷ 0 ∷ 0 ∷ 0 ∷ 9 ∷ replicate 32 3, 2 ∷ [])
    ∷ []

abbrev their_undo : Table
their_undo =
    (b'd' ∷ 0 ∷ 0 ∷ 0 ∷ 8 ∷ replicate 32 3, 1 ∷ [])
    ∷ (b'd' ∷ 0 ∷ 0 ∷ 0 ∷ 9 ∷ replicate 32 3, 2 ∷ [])
    ∷ []

prune_old_undo_data_exact_example :
    (d' : Table) × (prune_old_undo_data table_store (pos 1) two_undo (pos 10)
      ≡ ok (length (prune_ops (pos (10 - 1)) their_undo), d'))
    × ((k : Bytes) → get d' k ≡ (if is_old (pos (10 - 1)) k then none else get two_undo k))
prune_old_undo_data_exact_example =
    prune_old_undo_data_exact table_store two_undo 1 10 their_undo (omega arith) (omega arith)
      (unfold new_prefix_iterator scan_table keep prefix_upper_bound increment bytes_lt in refl)
      (λ b. (_, refl))
