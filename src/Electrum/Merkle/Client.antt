-- ===== src/Electrum/Merkle/Client.antt =====
-- internal/electrum/merkle.go: what a client of protocol v1.4, which the README names, makes of a proof.
-- Such a client takes the bytes of each entry in reverse, as those of a txid.
use electrum_go.Base.{
  ℕ, zero, suc, ◌+◌, ◌*◌, ◌/◌, ◌%◌, ◌^◌, ◌≤◌, ◌<◌, ◌≡◌, refl, sym, ap, ◌∙◌, true, List, [], ◌∷◌,
  ◌++◌, length, reverse, All, arith, ltb, lt→ltb, ◌==◌, if◌then◌else◌, Bool-cases, inl, inr,
}
use native.Mathlib.Nat.{pow-suc}
use electrum_go.Base.Int.{ℤ}
use electrum_go.Base.Bytes.{Bytes, IsBytes}
use electrum_go.Base.Hex.{hex_decode, hex_decode-hex_encode}
use electrum_go.Base.Result.{Result, ok, ◌>>=◌}
use electrum_go.Electrum.Merkle.{MerkleProof, get_transaction_merkle_proof}
use electrum_go.Electrum.Merkle.Edge.{depth}
use electrum_go.Electrum.Merkle.Tree.{
  leaf, width, neighbour, tree, neighbours, get_transaction_merkle_proof-neighbours,
}

module _ (double_hash : Bytes → Bytes) where
  -- A node with its neighbour, the one at the even place to the left.
  abbrev pub paired : ℕ → Bytes → Bytes → Bytes
  paired i own other = if i % 2 == 0 then double_hash (own ++ other) else double_hash (other ++ own)

  pow_pos : (r : ℕ) → 0 < 2 ^ r
  pow_pos zero = omega arith
  pow_pos (suc r) = omega (arith, pow-suc 2 r, pow_pos r)

  -- What the client computes from the entries, the place and the txid.
  unfoldable pub client_root : List Bytes → ℕ → Bytes → Result Bytes
  client_root [] i own = ok own
  client_root (entry ∷ entries) i own = do
    other ← hex_decode entry
    client_root entries (i / 2) (paired i own (reverse other))

  -- The way up the tree for so many levels, with each neighbour read through a function.
  unfoldable pub climb : List Bytes → (Bytes → Bytes) → ℕ → ℕ → ℕ → Bytes → Bytes
  climb txids f zero k i own = own
  climb txids f (suc r) k i own =
      climb txids f r (suc k) (i / 2) (paired i own (f (tree double_hash txids k (neighbour i))))

  half_width : (w r : ℕ) → w ≡ 2 ^ suc r → (w + 1) / 2 ≡ 2 ^ r
  half_width w r e = omega (arith, e, pow-suc 2 r)

  in_width : (i r : ℕ) → i < 2 ^ suc r → neighbour i < 2 ^ suc r
  in_width i r h = omega (arith, h, pow-suc 2 r)

  parent_place : (i r : ℕ) → i < 2 ^ suc r → i / 2 < 2 ^ r
  parent_place i r h = omega (arith, h, pow-suc 2 r)

  paired-tree :
      (txids : List Bytes) (k i : ℕ)
      → 2 * (i / 2) + 1 < width (length txids) k
      → paired i (tree double_hash txids k i) (tree double_hash txids k (neighbour i))
        ≡ tree double_hash txids (suc k) (i / 2)
  unfolding tree
  paired-tree txids k i h =
      let inside = lt→ltb _ _ h in
      elim (Bool-cases (i % 2 == 0)) [
        | inl even ↦
            let own : i ≡ 2 * (i / 2) = ground (arith, even) in
            let other : neighbour i ≡ 2 * (i / 2) + 1 = ground (arith, even) in rw (even, inside) cc
        | inr odd ↦
            let own : i ≡ 2 * (i / 2) + 1 = ground (arith, odd) in
            let other : neighbour i ≡ 2 * (i / 2) = ground (arith, odd) in rw (odd, inside) cc
      ]

  climb-tree :
      (txids : List Bytes) (r k i : ℕ)
      → width (length txids) k ≡ 2 ^ r
      → i < 2 ^ r
      → climb txids (λ b. b) r k i (tree double_hash txids k i) ≡ tree double_hash txids (r + k) 0
  unfolding climb width
  climb-tree txids zero k i w h =
      ap (tree double_hash txids k) (omega arith)
      ∙ ap (λ j. tree double_hash txids j 0) (omega arith)
  climb-tree txids (suc r) k i w h =
      ap (climb txids (λ b. b) r (suc k) (i / 2))
        (paired-tree txids k i (omega (arith, w, h, pow-suc 2 r)))
      ∙ climb-tree txids r (suc k) (i / 2) (half_width (width (length txids) k) r w)
          (parent_place i r h)
      ∙ ap (λ j. tree double_hash txids j 0) (omega arith)

  leaf-IsBytes : (txids : List Bytes) (i : ℕ) → All IsBytes txids → IsBytes (leaf txids i)
  unfolding leaf
  leaf-IsBytes [] i h = tt
  leaf-IsBytes (t ∷ ts) zero (h, hs) = h
  leaf-IsBytes (t ∷ ts) (suc i) (h, hs) = leaf-IsBytes ts i hs

  module _ (is_bytes : (b : Bytes) → IsBytes (double_hash b)) where
    tree-IsBytes :
        (txids : List Bytes) (k i : ℕ) → All IsBytes txids → IsBytes (tree double_hash txids k i)
    unfolding tree
    tree-IsBytes txids zero i h = leaf-IsBytes txids i h
    tree-IsBytes txids (suc k) i h = is_bytes _

    client_root-neighbours :
        (txids : List Bytes) (r k i : ℕ) (own : Bytes)
        → All IsBytes txids
        → width (length txids) k ≡ 2 ^ r
        → i < 2 ^ r
        → client_root (neighbours double_hash txids r k i) i own
          ≡ ok (climb txids reverse r k i own)
    unfolding client_root neighbours climb width
    client_root-neighbours txids zero k i own b w h = refl
    client_root-neighbours txids (suc r) k i own b w h =
        let inside : ltb (neighbour i) (width (length txids) k) ≡ true =
          lt→ltb _ _ (omega (arith, w, in_width i r h)) in
        let entry = tree double_hash txids k (neighbour i) in
        rw (inside, hex_decode-hex_encode entry (tree-IsBytes txids k (neighbour i) b))
          (client_root-neighbours txids r (suc k) (i / 2) (paired i own (reverse entry)) b
            (half_width (width (length txids) k) r w) (parent_place i r h))

    depth-pow : (fuel r : ℕ) → 2 ^ r ≤ fuel → depth fuel (2 ^ r) ≡ r
    unfolding depth
    depth-pow zero r h = absurd (omega (arith, h, pow_pos r))
    depth-pow (suc fuel) zero h = refl
    depth-pow (suc fuel) (suc r) h =
        let several : ltb 1 (2 ^ suc r) ≡ true =
          lt→ltb _ _ (omega (arith, pow-suc 2 r, pow_pos r)) in
        rw (several, half_width (2 ^ suc r) r refl)
          (ap suc (depth-pow fuel r (omega (arith, h, pow-suc 2 r, pow_pos r))))

    -- In a block of 2 ^ r txids of 32 bytes, with a hash function that returns 32 bytes, the proof that
    -- GetTransactionMerkleProof returns for a txid leads a client that takes the bytes of each entry in
    -- reverse, as protocol v1.4 has them, up the tree by the reverses of the neighbours on the way; but it
    -- is the neighbours themselves that lead to the Merkle root.
    pub client_root-climb :
        (sized : (b : Bytes) → length (double_hash b) ≡ 32) (txids : List Bytes) (r i : ℕ)
        (height : ℤ)
        → All IsBytes txids
        → All (λ t. length t ≡ 32) txids
        → length txids ≡ 2 ^ r
        → i < length txids
        → (proof : MerkleProof) × (get_transaction_merkle_proof double_hash
              (ok txids)
              (leaf txids i)
              height
            ≡ ok proof)
          × (client_root proof.merkle proof.pos (leaf txids i)
              ≡ ok (climb txids reverse r 0 proof.pos (leaf txids i)))
          × (climb txids (λ b. b) r 0 proof.pos (leaf txids i) ≡ tree double_hash txids r 0)
    unfolding width tree
    client_root-climb sized txids r i height b h32 full h =
        let (m, le, same, e) =
          get_transaction_merkle_proof-neighbours double_hash sized txids i height h32 h in
        let rounds : depth (length txids) (length txids) ≡ r =
          rw full (depth-pow (2 ^ r) r (omega arith)) in
        let at : m < 2 ^ r = omega (arith, le, h, full) in
        (
          record {
            block_height = height;
            pos = m;
            merkle = neighbours double_hash txids (depth (length txids) (length txids)) 0 m;
          },
          e,
          rw rounds (client_root-neighbours txids r 0 m (leaf txids i) b full at),
          ap (climb txids (λ x. x) r 0 m) (sym same)
              ∙ climb-tree txids r 0 m full at
              ∙ ap (λ j. tree double_hash txids j 0) (omega arith),
        )
