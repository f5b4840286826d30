-- ===== src/Electrum/Merkle/Edge.antt =====
-- The odd end of a level: where a node has no neighbour, buildMerkleBranch appends nothing.
use electrum_go.Base.{
  ℕ, zero, suc, ◌+◌, ◌-◌, ◌*◌, ◌/◌, ◌≤◌, ◌<◌, ◌≡◌, refl, ap, false, List, [], ◌∷◌, length, map,
  arith, ltb, if◌then◌else◌,
}
use electrum_go.Base.Bytes.{Bytes}
use electrum_go.Electrum.Merkle.{sibling, next_level, branch_loop, to_array32, build_merkle_branch}
use electrum_go.Electrum.Merkle.Branch.{has_siblings, length-next_level}

-- The number of levels below the root.
unfoldable pub depth : ℕ → ℕ → ℕ
depth zero n = 0
depth (suc fuel) n = let rest = depth fuel ((n + 1) / 2) in if ltb 1 n then suc rest else 0

length-map : (f : Bytes → Bytes) (xs : List Bytes) → length (map f xs) ≡ length xs
length-map f [] = refl
length-map f (x ∷ xs) = omega (arith, length-map f xs)

module _ (double_hash : Bytes → Bytes) where
  length-branch_loop-le :
      (fuel : ℕ) (level : List Bytes) (pos : ℕ)
      → length (branch_loop double_hash fuel level pos) ≤ depth fuel (length level)
  unfolding branch_loop depth
  length-branch_loop-le zero level pos = omega arith
  length-branch_loop-le (suc fuel) level pos = ground (
    arith,
    length-next_level double_hash level,
    length-branch_loop-le fuel (next_level double_hash level) (pos / 2),
  )

  length-branch_loop-lt :
      (fuel : ℕ) (level : List Bytes) (pos : ℕ)
      → has_siblings fuel (length level) pos ≡ false
      → length (branch_loop double_hash fuel level pos) < depth fuel (length level)
  unfolding branch_loop depth has_siblings
  length-branch_loop-lt zero level pos h = cc
  length-branch_loop-lt (suc fuel) level pos h = ground (
    arith,
    length-next_level double_hash level,
    length-branch_loop-le fuel (next_level double_hash level) (pos / 2),
    length-branch_loop-lt fuel (next_level double_hash level) (pos / 2),
  )

  branch_is_loop :
      (txids : List Bytes) (pos : ℕ)
      → length (build_merkle_branch double_hash txids pos)
        ≡ length (branch_loop double_hash (length txids) (map to_array32 txids) pos)
  unfolding build_merkle_branch branch_loop
  branch_is_loop [] pos = refl
  branch_is_loop (x ∷ []) pos = refl
  branch_is_loop (x ∷ y ∷ r) pos = ground arith

  pub shorter :
      (txids : List Bytes) (pos : ℕ)
      → has_siblings (length txids) (length txids) pos ≡ false
      → length (build_merkle_branch double_hash txids pos) < depth (length txids) (length txids)
  shorter txids pos h =
      let m = length-map to_array32 txids in
      rw (branch_is_loop txids pos, ← ap (depth (length txids)) m)
        (length-branch_loop-lt (length txids) (map to_array32 txids) pos (rw m h))

last_has_none : (n m fuel : ℕ) → n ≡ 2 * m + 3 → has_siblings (suc fuel) n (n - 1) ≡ false
unfolding has_siblings sibling
last_has_none n m fuel h = ground arith

-- The proof of the last transaction of a block with an odd number of transactions above one has fewer
-- entries than the tree has levels below its root.
pub last_of_odd_block_is_short :
    (double_hash : Bytes → Bytes) (txids : List Bytes) (m : ℕ)
    → length txids ≡ 2 * m + 3
    → length (build_merkle_branch double_hash txids (length txids - 1))
      < depth (length txids) (length txids)
last_of_odd_block_is_short d [] m h = absurd (omega arith)
last_of_odd_block_is_short d (x ∷ xs) m h =
    shorter d (x ∷ xs) (length (x ∷ xs) - 1) (last_has_none (length (x ∷ xs)) m (length xs) h)
