-- ===== src/Indexer/Reorg/Fork.antt =====
-- The height at which findForkPoint's loop stops.
use electrum_go.Base.{
  ℕ, zero, suc, ◌+◌, ◌-◌, ◌^◌, ◌≤◌, ◌<◌, ◌≡◌, refl, ap, ◌∙◌, Bool, true, false, ◌||◌, Option, none,
  some, arith, ltb, Bool-cases, inl, inr, ◌⊎◌,
}
use electrum_go.Base.Int.{ℤ, pos, sub32, sub32-pos}
use electrum_go.Base.Bytes.{Bytes, bytes_eq}
use electrum_go.Base.Result.{Result, ok, err, Result-cases}
use electrum_go.Indexer.Types.{block_hash_to_hex}
use electrum_go.Indexer.Reorg.{Node, fork_loop}

le_split : (j t : ℕ) → j ≤ suc t → (j ≤ t) ⊎ (j ≡ suc t)
le_split j t h = elim (Bool-cases (ltb j (suc t))) [
  | inl e ↦ inl (ground arith)
  | inr e ↦ inr (ground arith)
]

sub32-suc : (t : ℕ) → suc t < 2 ^ 31 → sub32 (pos (suc t)) (pos 1) ≡ pos t
sub32-suc t h = sub32-pos (suc t) 1 (omega arith) h ∙ ap pos (omega arith)

module _ (our_hash : ℤ → Result Bytes) (node : Node) where
  -- We have a hash of the height, and the node has the same.
  abbrev pub same : Result Bytes → Result Bytes → Bool
  same (ok ours) (ok core) = bytes_eq (block_hash_to_hex ours) (node.hash_string core)
  same (err e) r = false
  same (ok ours) (err e) = false

  abbrev pub agrees_at : ℕ → Bool
  agrees_at h = same (our_hash (pos h)) (node.get_block_hash (pos h))

  -- What the search from `top` down to `boundary` may return: the highest height that agrees among
  -- those that are not deeper than `depth` below `start`, or none.
  abbrev pub IsFork : (start boundary depth top : ℕ) → Option (ℤ × Bytes) → Type 0
  IsFork start boundary depth top none =
      (j : ℕ) → boundary ≤ j → j ≤ top → start ≤ j + depth → agrees_at j ≡ false
  IsFork start boundary depth top (some (x, hash)) =
      (h : ℕ) × (x ≡ pos h)
      × (our_hash (pos h) ≡ ok hash)
      × (agrees_at h ≡ true)
      × (boundary ≤ h)
      × (h ≤ top)
      × (start ≤ h + depth)
      × ((j : ℕ) → h < j → j ≤ top → agrees_at j ≡ false)

  -- A height that does not agree adds nothing.
  IsFork-suc :
      (start boundary depth t : ℕ) (r : Option (ℤ × Bytes))
      → agrees_at (suc t) ≡ false
      → IsFork start boundary depth t r
      → IsFork start boundary depth (suc t) r
  IsFork-suc start boundary depth t none differs f =
      λ j b jt d. elim (le_split j t jt) [ inl le ↦ f j b le d | inr e ↦ rw e differs ]
  IsFork-suc start boundary depth t (some (x, hash)) differs (h, ex, eo, ea, b, le, d, above) = (
    h,
    ex,
    eo,
    ea,
    b,
    omega (arith, le),
    d,
    λ j hj jt. elim (le_split j t jt) [ inl jle ↦ above j hj jle | inr e ↦ rw e differs ],
  )

  -- With a positive boundary, a start above the first height that is tried and below 2 ^ 31, more
  -- fuel than that height, and a node that knows every height, the loop of findForkPoint returns the
  -- highest height, within the boundary and the depth, at which our hash is the node's, with that
  -- hash, or none if there is no such height.
  pub fork_loop-IsFork :
      (fuel start boundary depth top : ℕ)
      → 0 < boundary
      → top < fuel
      → top < start
      → start < 2 ^ 31
      → ((x : ℤ) → (hash : Bytes) × (node.get_block_hash x ≡ ok hash))
      → (r : Option (ℤ × Bytes)) × (fork_loop our_hash node
            (pos depth)
            fuel
            (pos start)
            (pos boundary)
            (pos top)
          ≡ ok r)
        × IsFork start boundary depth top r
  unfolding fork_loop
  fork_loop-IsFork zero start boundary depth top b f s n known = absurd (omega arith)
  fork_loop-IsFork (suc fuel) start boundary depth zero b f s n known =
      (none, ground (arith, b), λ j bj jt d. absurd (omega arith))
  fork_loop-IsFork (suc fuel) start boundary depth (suc t) b f s n known =
      let below = sub32-suc t (omega arith) in
      let deep = sub32-pos start (suc t) (omega arith) n in
      elim (Bool-cases (ltb (suc t) boundary || ltb depth (start - suc t))) [
        | inl stop ↦ (none, rw (deep, stop) refl, λ j bj jt d. absurd (ground arith))
        | inr go ↦
            let (r, er, fr) =
              fork_loop-IsFork fuel start boundary depth t b (omega arith) (omega arith) n known in
            let (core, ec) = known (pos (suc t)) in
            elim (Result-cases (our_hash (pos (suc t)))) [
              | inr (e, eo) ↦ (
                r,
                rw (deep, go, eo, below) er,
                IsFork-suc start boundary depth t r (rw eo refl) fr,
              )
              | inl (ours, eo) ↦
                  elim (Bool-cases (bytes_eq (block_hash_to_hex ours) (node.hash_string core))) [
                    | inl same_hash ↦ (
                      some (pos (suc t), ours),
                      rw (deep, go, eo, ec, same_hash) refl,
                      (
                        suc t,
                        refl,
                        eo,
                        rw (eo, ec) same_hash,
                        ground arith,
                        omega arith,
                        ground arith,
                        λ j hj jt. absurd (omega arith),
                      ),
                    )
                    | inr other ↦ (
                      r,
                      rw (deep, go, eo, ec, other, below) er,
                      IsFork-suc start boundary depth t r (rw (eo, ec) other) fr,
                    )
                  ]
            ]
      ]
