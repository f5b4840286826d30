-- ===== src/Indexer/Reorg/Point.antt =====
-- The fork point that findForkPoint returns.
use electrum_go.Base.{
  ℕ, ◌-◌, ◌^◌, ◌<◌, ◌≡◌, refl, Option, none, some, arith, if◌then◌else◌, inl, inr, ◌⊎◌,
}
use electrum_go.Base.Int.{ℤ, pos, negsuc, lt_int, as_i32, sub32, sub32-pos}
use electrum_go.Base.Bytes.{Bytes}
use electrum_go.Base.Result.{ok}
use electrum_go.Storage.Pebble.{Pebble, Codecs}
use electrum_go.Indexer.Reorg.{
  Node, get_our_block_hash, checkpoint_or_zero, start_boundary, find_fork_point, fork_loop,
}
use electrum_go.Indexer.Reorg.Fork.{IsFork, fork_loop-IsFork}

as_i32-pos : (n : ℕ) → n < 2 ^ 31 → as_i32 (pos n) ≡ pos n
as_i32-pos n h = ground arith

positive_start : (s : ℤ) (b : ℕ) → (if lt_int (pos 0) s then s else pos 1) ≡ pos b → 0 < b
positive_start (pos n) b h = ground arith
positive_start (negsuc n) b h = ground arith

module _ (p : Pebble) (c : Codecs) (node : Node) where
  -- The highest height that agrees, else the height below the boundary with the node's hash.
  abbrev pub IsForkPoint : p.Db → (start boundary depth : ℕ) → ℤ × Bytes → Type 0
  IsForkPoint d start boundary depth (x, hash) =
      IsFork (get_our_block_hash p c node d) node start boundary depth (start - 1) (some (x, hash))
      ⊎ (IsFork (get_our_block_hash p c node d) node start boundary depth (start - 1) none
          × (x ≡ pos (boundary - 1))
          × (node.get_block_hash x ≡ ok hash))

  boundary_positive : (d : p.Db) (b : ℕ) → start_boundary p c node d ≡ pos b → 0 < b
  unfolding start_boundary
  boundary_positive d b e = positive_start (checkpoint_or_zero p c node d).start_height b e

  point_of_loop :
      (d : p.Db) (start boundary depth : ℕ) (r : Option (ℤ × Bytes))
      → as_i32 (pos depth) ≡ pos depth
      → start_boundary p c node d ≡ pos boundary
      → sub32 (pos start) (pos 1) ≡ pos (start - 1)
      → sub32 (pos boundary) (pos 1) ≡ pos (boundary - 1)
      → fork_loop
          (get_our_block_hash p c node d)
          node
          (pos depth)
          start
          (pos start)
          (pos boundary)
          (pos (start - 1))
        ≡ ok r
      → IsFork (get_our_block_hash p c node d) node start boundary depth (start - 1) r
      → ((x : ℤ) → (hash : Bytes) × (node.get_block_hash x ≡ ok hash))
      → (fork : ℤ × Bytes) × (find_fork_point p c node (pos depth) d (pos start) ≡ ok fork)
        × IsForkPoint d start boundary depth fork
  unfolding find_fork_point
  point_of_loop d start boundary depth (some (x, hash)) ed eb es ep el f known =
      ((x, hash), rw (eb, ed, es, el) refl, inl f)
  point_of_loop d start boundary depth none ed eb es ep el f known =
      let (core, ec) = known (pos (boundary - 1)) in
      ((pos (boundary - 1), core), rw (eb, ed, es, el) (rw (eb, ep, ec) refl), inr (f, refl, ec))

  -- For a positive start height, a start boundary and a maximal depth that fit an int32, and a node
  -- that knows every height, findForkPoint returns: the highest height below the start, within the
  -- boundary and the depth, at which our hash is the node's, with that hash; and if there is none,
  -- the height below the boundary, with the node's hash.
  pub find_fork_point-IsForkPoint :
      (d : p.Db) (start boundary depth : ℕ)
      → 0 < start
      → start < 2 ^ 31
      → boundary < 2 ^ 31
      → depth < 2 ^ 31
      → start_boundary p c node d ≡ pos boundary
      → ((x : ℤ) → (hash : Bytes) × (node.get_block_hash x ≡ ok hash))
      → (fork : ℤ × Bytes) × (find_fork_point p c node (pos depth) d (pos start) ≡ ok fork)
        × IsForkPoint d start boundary depth fork
  find_fork_point-IsForkPoint d start boundary depth s n m l e known =
      let b = boundary_positive d boundary e in
      let (r, er, fr) =
        fork_loop-IsFork (get_our_block_hash p c node d) node start start boundary depth (start - 1)
          b (omega (arith, s)) (omega (arith, s)) n known in
      point_of_loop d start boundary depth r (as_i32-pos depth l) e
        (sub32-pos start 1 (omega (arith, s)) n) (sub32-pos boundary 1 (omega (arith, b)) m) er fr
        known
