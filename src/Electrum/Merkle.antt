-- ===== src/Electrum/Merkle.antt =====
-- internal/electrum/merkle.go: the Merkle branch of a transaction. `double_hash` stands for
-- chainhash.DoubleHashB, which is not of this repository.
pub mod Branch
pub mod Edge
pub mod Proof
pub mod Tree
pub mod Client
use electrum_go.Base.{
  not, ℕ, zero, suc, ◌+◌, ◌-◌, ◌*◌, ◌/◌, ◌%◌, Bool, true, false, Option, none, some, List, [], ◌∷◌,
  ◌++◌, length, take, replicate, map, ltb, ◌==◌, if◌then◌else◌,
}
use electrum_go.Base.Int.{ℤ}
use electrum_go.Base.Bytes.{Bytes, bytes_eq}
use electrum_go.Base.Hex.{hex_encode}
use electrum_go.Base.Result.{Result, ok, err, not_found, ◌>>=◌, ◌>>◌, guard}

pub record MerkleProof : Type 0 where
  pub block_height : ℤ
  pub pos : ℕ
  pub merkle : List Bytes

-- `copy(dst[:], src)` into a zeroed [32]byte.
abbrev pub to_array32 : Bytes → Bytes
to_array32 b = take 32 (b ++ replicate 32 0)

-- `pos ^ 1`
unfoldable pub sibling : ℕ → ℕ
sibling pos = if pos % 2 == 0 then pos + 1 else pos - 1

-- `level[i]`; no caller reads out of range.
unfoldable pub node : List Bytes → ℕ → Bytes
node [] i = []
node (x ∷ xs) zero = x
node (x ∷ xs) (suc i) = node xs i

-- The index of the first txid that is equal, if there is one.
unfoldable pub position : Bytes → List Bytes → ℕ → Option ℕ
position txid [] i = none
position txid (x ∷ xs) i =
    let later = position txid xs (i + 1) in if bytes_eq x txid then some i else later

module _ (double_hash : Bytes → Bytes) where
  unfoldable pub parent : Bytes → Bytes → Bytes
  parent left right = to_array32 (double_hash (left ++ right))

  -- One round of the inner loop takes two nodes, or the last node twice.
  unfoldable pub next_level : List Bytes → List Bytes
  next_level [] = []
  next_level (left ∷ []) = parent left left ∷ []
  next_level (left ∷ right ∷ rest) = parent left right ∷ next_level rest

  -- The outer loop, with the branch that it appends. A round halves the level, so as many rounds as
  -- the first level has nodes are enough.
  unfoldable pub branch_loop : ℕ → List Bytes → ℕ → List Bytes
  branch_loop zero level pos = []
  branch_loop (suc fuel) level pos =
      let rest = branch_loop fuel (next_level level) (pos / 2) in
      if ltb 1 (length level)
      then if ltb (sibling pos) (length level)
        then hex_encode (node level (sibling pos)) ∷ rest
        else rest
      else []

  unfoldable pub build_merkle_branch : List Bytes → ℕ → List Bytes
  build_merkle_branch txids pos =
      if length txids == 1 then [] else branch_loop (length txids) (map to_array32 txids) pos

  -- GetTransactionMerkleProof, over what GetBlockTxids returned for the height.
  unfoldable pub get_transaction_merkle_proof : Result (List Bytes) → Bytes → ℤ → Result MerkleProof
  get_transaction_merkle_proof block_txids txid height = do
    txids ← block_txids
    guard (not (length txids == 0)) not_found
    elim (position txid txids 0) [
      | none ↦ err not_found
      | some pos ↦
          ok (record { block_height = height; pos = pos; merkle = build_merkle_branch txids pos })
    ]
