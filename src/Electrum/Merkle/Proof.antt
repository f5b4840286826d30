-- ===== src/Electrum/Merkle/Proof.antt =====
-- GetTransactionMerkleProof as a whole, and the rounds that its loop takes.
use electrum_go.Base.{
  ℕ, zero, suc, ◌+◌, ◌/◌, ◌≤◌, ◌<◌, ◌≡◌, refl, ap, ◌∙◌, false, some, none, List, [], ◌∷◌, length,
  All, arith, ◌==◌, Bool-cases, inl, inr,
}
use electrum_go.Base.Int.{ℤ}
use electrum_go.Base.Bytes.{Bytes, bytes_eq, bytes_eq→eq, bytes_eq_self}
use electrum_go.Base.Result.{ok, err, not_found}
use electrum_go.Electrum.Merkle.{
  node, position, next_level, branch_loop, build_merkle_branch, get_transaction_merkle_proof,
}
use electrum_go.Electrum.Merkle.Branch.{length-next_level, merkle_root}

-- The first place where the txid stands.
pub position-node :
    (txids : List Bytes) (i j : ℕ)
    → i < length txids
    → (m : ℕ) × (position (node txids i) txids j ≡ some (j + m))
      × (m ≤ i)
      × (node txids m ≡ node txids i)
unfolding node position
position-node [] i j h = absurd (omega arith)
position-node (x ∷ xs) zero j h =
    (0, rw (bytes_eq_self x) (ap some (omega arith)), omega arith, refl)
position-node (x ∷ xs) (suc i) j h = elim (Bool-cases (bytes_eq x (node xs i))) [
  | inl e ↦ (0, rw e (ap some (omega arith)), omega arith, bytes_eq→eq x (node xs i) e)
  | inr e ↦
      let (m, p, le, n) = position-node xs i (j + 1) (omega arith) in
      (suc m, rw e (p ∙ ap some (omega arith)), omega arith, n)
]

position-absent :
    (txids : List Bytes) (txid : Bytes) (j : ℕ)
    → All (λ t. bytes_eq t txid ≡ false) txids
    → position txid txids j ≡ none
unfolding position
position-absent [] txid j h = refl
position-absent (x ∷ xs) txid j (h, hs) = rw h (position-absent xs txid (j + 1) hs)

not_empty : (n : ℕ) → (suc n == 0) ≡ false
not_empty n = ground arith

module _ (double_hash : Bytes → Bytes) where
  -- GetTransactionMerkleProof reports not found for a txid that the block does not have.
  pub proof_of_absent :
      (txids : List Bytes) (txid : Bytes) (height : ℤ)
      → All (λ t. bytes_eq t txid ≡ false) txids
      → get_transaction_merkle_proof double_hash (ok txids) txid height ≡ err not_found
  unfolding get_transaction_merkle_proof
  proof_of_absent [] txid height h = refl
  proof_of_absent (x ∷ xs) txid height h =
      rw (not_empty (length xs), position-absent (x ∷ xs) txid 0 h) refl

  pub proof_at :
      (txids : List Bytes) (txid : Bytes) (height : ℤ) (m : ℕ)
      → 0 < length txids
      → position txid txids 0 ≡ some m
      → get_transaction_merkle_proof double_hash (ok txids) txid height
        ≡ ok (record {
          block_height = height;
          pos = m;
          merkle = build_merkle_branch double_hash txids m;
        })
  unfolding get_transaction_merkle_proof
  proof_at [] txid height m n e = absurd (omega arith)
  proof_at (x ∷ xs) txid height m n e = rw (not_empty (length xs), e) refl

  loops_agree :
      (f g : ℕ) (level : List Bytes) (pos : ℕ)
      → length level ≤ suc f
      → length level ≤ suc g
      → branch_loop double_hash f level pos ≡ branch_loop double_hash g level pos
  unfolding branch_loop
  loops_agree zero zero level pos h k = refl
  loops_agree zero (suc g) level pos h k = ground arith
  loops_agree (suc f) zero level pos h k = ground arith
  loops_agree (suc f) (suc g) level pos h k = ground (
    arith,
    length-next_level double_hash level,
    loops_agree f g (next_level double_hash level) (pos / 2),
  )

  roots_agree :
      (f g : ℕ) (level : List Bytes)
      → length level ≤ suc f
      → length level ≤ suc g
      → merkle_root double_hash f level ≡ merkle_root double_hash g level
  unfolding merkle_root
  roots_agree zero zero level h k = refl
  roots_agree zero (suc g) level h k = ground arith
  roots_agree (suc f) zero level h k = ground arith
  roots_agree (suc f) (suc g) level h k =
      ground
        (arith, length-next_level double_hash level, roots_agree f g (next_level double_hash level))

  -- As many rounds as a level has nodes are enough for the loop of buildMerkleBranch, and for the
  -- computation of the root: with more rounds allowed both end with the same result.
  pub rounds_are_enough :
      (level : List Bytes) (pos more : ℕ)
      → (branch_loop double_hash (length level + more) level pos
          ≡ branch_loop double_hash (length level) level pos)
        × (merkle_root double_hash (length level + more) level
            ≡ merkle_root double_hash (length level) level)
  rounds_are_enough level pos more = (
    loops_agree (length level + more) (length level) level pos (omega arith) (omega arith),
    roots_agree (length level + more) (length level) level (omega arith) (omega arith),
  )
