-- ===== src/Electrum/Merkle/Tree.antt =====
-- internal/electrum/merkle.go: the branch of a transaction against Bitcoin's Merkle tree.
use electrum_go.Base.{
  ℕ, zero, suc, ◌+◌, ◌-◌, ◌*◌, ◌/◌, ◌%◌, ◌≤◌, ◌<◌, ◌≡◌, refl, sym, ap, ◌∙◌, true, false, some, List,
  [], ◌∷◌, ◌++◌, length, take-append_exact, replicate, All, arith, ltb, ltb→lt, ◌==◌, if◌then◌else◌,
  Bool-cases, inl, inr,
}
use electrum_go.Base.Int.{ℤ}
use electrum_go.Base.Bytes.{Bytes}
use electrum_go.Base.Hex.{hex_encode}
use electrum_go.Base.Result.{ok}
use electrum_go.Electrum.Merkle.{
  position, sibling, node, parent, next_level, branch_loop, build_merkle_branch,
  get_transaction_merkle_proof,
}
use electrum_go.Electrum.Merkle.Branch.{length-next_level, arrays_self}
use electrum_go.Electrum.Merkle.Edge.{depth}
use electrum_go.Electrum.Merkle.Proof.{position-node, proof_at}

-- The transaction at a place.
unfoldable pub leaf : List Bytes → ℕ → Bytes
leaf [] i = []
leaf (t ∷ ts) zero = t
leaf (t ∷ ts) (suc i) = leaf ts i

-- The number of nodes of a level above so many transactions.
unfoldable pub width : ℕ → ℕ → ℕ
width n zero = n
width n (suc k) = (width n k + 1) / 2

-- The node with which a node is hashed.
abbrev pub neighbour : ℕ → ℕ
neighbour i = 2 * (i / 2) + (1 - i % 2)

leaf_lem : (ts : List Bytes) (i : ℕ) → node ts i ≡ leaf ts i
unfolding node leaf
leaf_lem [] i = refl
leaf_lem (t ∷ ts) zero = refl
leaf_lem (t ∷ ts) (suc i) = leaf_lem ts i

sibling-neighbour : (i : ℕ) → sibling i ≡ neighbour i
unfolding sibling
sibling-neighbour i = ground arith

module _ (double_hash : Bytes → Bytes) where
  -- A node is the hash of its left and its right child; a last node without a right one takes the left
  -- one twice.
  unfoldable pub tree : List Bytes → ℕ → ℕ → Bytes
  tree txids zero i = leaf txids i
  tree txids (suc k) i =
      let left = tree txids k (2 * i) in
      let right = tree txids k (2 * i + 1) in
      double_hash (left ++ (if ltb (2 * i + 1) (width (length txids) k) then right else left))

  -- The hex forms of the neighbours on the way from a node upwards, for so many levels; a node at the
  -- odd end of its level has none.
  unfoldable pub neighbours : List Bytes → ℕ → ℕ → ℕ → List Bytes
  neighbours txids zero k i = []
  neighbours txids (suc rounds) k i =
      let rest = neighbours txids rounds (suc k) (i / 2) in
      if ltb (neighbour i) (width (length txids) k)
      then hex_encode (tree txids k (neighbour i)) ∷ rest
      else rest

  module _ (sized : (b : Bytes) → length (double_hash b) ≡ 32) where
    parent_lem : (a b : Bytes) → parent double_hash a b ≡ double_hash (a ++ b)
    unfolding parent
    parent_lem a b = take-append_exact 32 (double_hash (a ++ b)) (replicate 32 0) (sized (a ++ b))

    node-next_level :
        (level : List Bytes) (i : ℕ)
        → i < (length level + 1) / 2
        → node (next_level double_hash level) i
          ≡ double_hash (
              node level (2 * i)
              ++ (if ltb (2 * i + 1) (length level)
                  then node level (2 * i + 1)
                  else node level (2 * i)))
    unfolding next_level node
    node-next_level [] i h = absurd (omega arith)
    node-next_level (x ∷ []) zero h = parent_lem x x
    node-next_level (x ∷ []) (suc i) h = absurd (omega arith)
    node-next_level (x ∷ y ∷ r) zero h =
        let two : ltb 1 (length (x ∷ y ∷ r)) ≡ true = ground arith in parent_lem x y ∙ rw two refl
    node-next_level (x ∷ y ∷ r) (suc i) h =
        let left : 2 * suc i ≡ suc (suc (2 * i)) = omega arith in
        let right : 2 * suc i + 1 ≡ suc (suc (2 * i + 1)) = omega arith in
        let more : ltb (suc (suc (2 * i + 1))) (length (x ∷ y ∷ r)) ≡ ltb (2 * i + 1) (length r) =
          ground arith in
        rw (right, left, more) (node-next_level r i (omega (arith, h)))

    -- A level of the loop is that level of the tree.
    abbrev IsLevel : List Bytes → ℕ → List Bytes → Type 0
    IsLevel txids k level =
        (length level ≡ width (length txids) k)
        × ((i : ℕ) → i < length level → node level i ≡ tree txids k i)

    next_level-IsLevel :
        (txids : List Bytes) (k : ℕ) (level : List Bytes)
        → IsLevel txids k level
        → IsLevel txids (suc k) (next_level double_hash level)
    unfolding tree width
    next_level-IsLevel txids k level (n, same) =
        let size = length-next_level double_hash level in
        (
          omega (arith, size, n),
          λ i h.
              let half : i < (length level + 1) / 2 = omega (arith, size, h) in
              node-next_level level i half ∙ elim (Bool-cases (ltb (2 * i + 1) (length level))) [
                | inl two ↦
                    rw
                      (
                        ← n,
                        two,
                        same (2 * i) (omega (arith, half)),
                        same (2 * i + 1) (ltb→lt _ _ two),
                      )
                      refl
                | inr one ↦ rw (← n, one, same (2 * i) (omega (arith, half))) refl
              ],
        )

    branch_loop-neighbours :
        (txids : List Bytes) (fuel k : ℕ) (level : List Bytes) (pos : ℕ)
        → IsLevel txids k level
        → pos < length level
        → branch_loop double_hash fuel level pos
          ≡ neighbours txids (depth fuel (length level)) k pos
    unfolding branch_loop neighbours depth
    branch_loop-neighbours txids zero k level pos h p = refl
    branch_loop-neighbours txids (suc fuel) k level pos h p =
        let size = length-next_level double_hash level in
        elim (Bool-cases (ltb 1 (length level))) [
          | inr done ↦ rw done refl
          | inl more ↦
              let later =
                branch_loop-neighbours txids fuel (suc k) (next_level double_hash level) (pos / 2)
                  (next_level-IsLevel txids k level h) (omega (arith, size, p)) in
              elim (Bool-cases (ltb (neighbour pos) (length level))) [
                | inl there ↦
                    rw
                      (
                        more,
                        sibling-neighbour pos,
                        ← h.0,
                        there,
                        h.1 (neighbour pos) (ltb→lt _ _ there),
                      )
                      (ap (◌∷◌ (hex_encode (tree txids k (neighbour pos)))) (rw size at later))
                | inr none_there ↦
                    rw (more, sibling-neighbour pos, ← h.0, none_there) (rw size at later)
              ]
        ]

    build_merkle_branch-neighbours :
        (txids : List Bytes) (pos : ℕ)
        → All (λ t. length t ≡ 32) txids
        → pos < length txids
        → build_merkle_branch double_hash txids pos
          ≡ neighbours txids (depth (length txids) (length txids)) 0 pos
    unfolding build_merkle_branch depth neighbours width tree
    build_merkle_branch-neighbours [] pos h p = absurd (omega arith)
    build_merkle_branch-neighbours (x ∷ []) pos h p = refl
    build_merkle_branch-neighbours (x ∷ y ∷ r) pos h p =
        let txids = x ∷ y ∷ r in
        let several : (length txids == 1) ≡ false = ground arith in
        rw (several, arrays_self txids h)
          (branch_loop-neighbours txids (length txids) 0 txids pos (refl, λ i q. leaf_lem txids i)
            p)

    -- For every transaction of a block of txids of 32 bytes, with a hash function that returns 32 bytes,
    -- GetTransactionMerkleProof returns the given height, the first place of the txid, and for each level
    -- of Bitcoin's Merkle tree below the root, from the leaves upwards, the neighbour of the node on the
    -- way, in hex with its bytes in the order of the hash function; a level whose node on the way has no
    -- neighbour is passed over.
    pub get_transaction_merkle_proof-neighbours :
        (txids : List Bytes) (i : ℕ) (height : ℤ)
        → All (λ t. length t ≡ 32) txids
        → i < length txids
        → (m : ℕ) × (m ≤ i)
          × (leaf txids m ≡ leaf txids i)
          × (get_transaction_merkle_proof double_hash (ok txids) (leaf txids i) height
              ≡ ok (record {
                block_height = height;
                pos = m;
                merkle = neighbours txids (depth (length txids) (length txids)) 0 m;
              }))
    get_transaction_merkle_proof-neighbours txids i height h32 h =
        let (m, e, le, n) = position-node txids i 0 h in
        let found : position (node txids i) txids 0 ≡ some m = e ∙ ap some (omega arith) in
        let at = proof_at double_hash txids (node txids i) height m (omega (arith, h)) found in
        (
          m,
          le,
          sym (leaf_lem txids m) ∙ n ∙ leaf_lem txids i,
          rw
              (
                ← leaf_lem txids i,
                ← build_merkle_branch-neighbours txids m h32 (omega (arith, le, h)),
              )
              at,
        )
