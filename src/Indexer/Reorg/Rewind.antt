-- ===== src/Indexer/Reorg/Rewind.antt =====
-- What rollbackToHeight has done when it returns without an error.
use electrum_go.Base.{
  subst, some, if◌then◌else◌, ℕ, zero, suc, ◌+◌, ◌-◌, ◌^◌, ◌≤◌, ◌<◌, ◌≡◌, ap, ◌∙◌, [], ◌∷◌, arith,
  ltb, ltb→lt, Bool-cases, inl, inr,
}
use electrum_go.Base.Int.{ℤ, pos, sub32-pos}
use electrum_go.Base.Bytes.{Bytes, bytes_eq}
use electrum_go.Base.Result.{Error, Result, ok, err, Result-cases, ok_injective}
use electrum_go.Storage.Keys.{key_checkpoint}
use electrum_go.Storage.Pebble.{put, overlay, Pebble, Codecs, Checkpoint}
use electrum_go.Storage.Database.{load_checkpoint, save_checkpoint}
use electrum_go.Indexer.Types.{block_hash_to_hex}
use electrum_go.Indexer.Rollback.{rollback_block}
use electrum_go.Indexer.Reorg.{
  Node, get_our_block_hash, rollback_loop, fork_hash_at, finish_rollback, rollback_to_height,
}

counted :
    {D : Type 0} {d d' : D} {k n : ℕ}
    → ◌≡◌ {A = D × Result ℕ} (d, ok k) (d', ok n)
    → (d ≡ d') × (k ≡ n)
counted h = (ap (λ x. x.0) h, ok_injective (ap (λ x. x.1) h))

err-ne-ok : {n : ℕ} {e : Error} → ◌≡◌ {A = Result ℕ} (err e) (ok n) → ⊥
err-ne-ok h = cc

failed :
    {D : Type 0} {d d' : D} {n : ℕ} {e : Error} → ◌≡◌ {A = D × Result ℕ} (d, err e) (d', ok n) → ⊥
failed h = err-ne-ok (ap (λ x. x.1) h)

module _ (p : Pebble) (c : Codecs) (node : Node) where
  -- So many blocks have been taken back from the height on downwards, each by rollbackBlock with the
  -- hash that is stored for its height at that point.
  unfoldable pub Undone : ℕ → ℕ → p.Db → p.Db → Type 0
  Undone zero h d d' = d ≡ d'
  Undone (suc k) h d d' =
      (hash : Bytes) × (next : p.Db) × (get_our_block_hash p c node d (pos h) ≡ ok hash)
      × (rollback_block p d (pos h) hash ≡ ok next)
      × Undone k (h - 1) next d'

  rollback_loop-Undone :
      (fuel h t k : ℕ) (d d' : p.Db) (n : ℕ)
      → h < t + fuel
      → t ≤ h
      → h < 2 ^ 31
      → rollback_loop p c node fuel d (pos h) (pos t) k ≡ (d', ok n)
      → (m : ℕ) × (n ≡ k + m) × (h ≡ t + m) × Undone m h d d'
  unfolding rollback_loop Undone
  rollback_loop-Undone zero h t k d d' n f le s e = absurd (omega arith)
  rollback_loop-Undone (suc fuel) h t k d d' n f le s e = elim (Bool-cases (ltb t h)) [
    | inr stop ↦
        let (same, done) = counted (rw stop at e) in
        (0, omega (arith, done), ground (arith, stop), same)
    | inl go ↦ elim (Result-cases (get_our_block_hash p c node d (pos h))) [
      | inr (x, eh) ↦ absurd (failed (rw (go, eh) at e))
      | inl (hash, eh) ↦ elim (Result-cases (rollback_block p d (pos h) hash)) [
        | inr (x, eb) ↦ absurd (failed (rw (go, eh, eb) at e))
        | inl (next, eb) ↦
            let above = ltb→lt t h go in
            let below = sub32-pos h 1 (omega (arith, above)) s in
            let (m, en, eq, rest) =
              rollback_loop-Undone fuel (h - 1) t (k + 1) next d' n (omega (arith, above))
                (omega (arith, above)) (omega arith) (rw (go, eh, eb, below) at e) in
            (suc m, omega (arith, en), omega (arith, eq, above), (hash, next, eh, eb, rest))
      ]
    ]
  ]

  -- What is left of a successful end: the checkpoint that was written.
  finish_rollback-ok :
      (d d' : p.Db) (target : ℤ) (k n : ℕ)
      → finish_rollback p c node d target k ≡ (d', ok n)
      → (hash : Bytes) × (fork_hash_at p c node d target ≡ ok hash)
        × (save_checkpoint p c d (record {
          height = target;
          block_hash = block_hash_to_hex hash;
          start_height = pos 0;
        })
            ≡ ok d')
        × (k ≡ n)
  unfolding finish_rollback
  finish_rollback-ok d d' target k n e = elim (Result-cases (fork_hash_at p c node d target)) [
    | inr (x, eh) ↦ absurd (failed (rw (eh, finish_rollback) at e))
    | inl (hash, eh) ↦
        elim (Result-cases (
          save_checkpoint p c d (record {
            height = target;
            block_hash = block_hash_to_hex hash;
            start_height = pos 0;
          }))) [
            | inr (x, es) ↦ absurd (failed (rw (eh, es, finish_rollback) at e))
            | inl (next, es) ↦
                let (ed, en) = counted (rw (eh, es, finish_rollback) at e) in
                (hash, eh, es ∙ ap ok ed, en)
          ]
  ]

  contents-save_checkpoint :
      (d d' : p.Db) (cp : Checkpoint) (k : Bytes)
      → save_checkpoint p c d cp ≡ ok d'
      → p.contents d' k
        ≡ (if bytes_eq key_checkpoint k then some (c.marshal cp) else p.contents d k)
  unfolding save_checkpoint overlay
  contents-save_checkpoint d d' cp k e =
      p.contents_commit d d' (put key_checkpoint (c.marshal cp) ∷ []) e k

  -- If the checkpoint is at a height h below 2 ^ 31, the target is not above it, and rollbackToHeight
  -- returns without an error, then it returns h less the target; this many blocks have been taken back
  -- from h on downwards, each by rollbackBlock; and the database is as they left it, but for the
  -- checkpoint, which is the JSON form of the target's height, of the hash of the fork point, and of the
  -- start height 0, whatever start height was there before.
  pub rollback_to_height-checkpoint :
      (d d' : p.Db) (h t n : ℕ) (tip : Bytes) (start : ℤ)
      → load_checkpoint p c d
        ≡ ok (record { height = pos h; block_hash = tip; start_height = start })
      → h < 2 ^ 31
      → t ≤ h
      → rollback_to_height p c node d (pos t) ≡ (d', ok n)
      → (n ≡ h - t)
        × ((left : p.Db) × (hash : Bytes) × Undone (h - t) h d left
            × (fork_hash_at p c node left (pos t) ≡ ok hash)
            × ((k : Bytes)
                → p.contents d' k ≡ (
                    if bytes_eq key_checkpoint k
                    then some (
                        c.marshal (record {
                          height = pos t;
                          block_hash = block_hash_to_hex hash;
                          start_height = pos 0;
                        }))
                    else p.contents left k)))
  unfolding rollback_to_height
  rollback_to_height-checkpoint d d' h t n tip start el s le e =
      let loop = rollback_loop p c node (h + 2) d (pos h) (pos t) 0 in
      elim (Result-cases loop.1) [
        | inr (x, er) ↦ absurd (failed (rw (el, er, rollback_to_height) at e))
        | inl (k, er) ↦
            let (hash, eh, es, ek) =
              finish_rollback-ok loop.0 d' (pos t) k n (rw (el, er, rollback_to_height) at e) in
            let (m, em, eq, undone) =
              rollback_loop-Undone (h + 2) h t 0 d loop.0 k (omega arith) le s
                (ap (λ r. (loop.0, r)) er) in
            let count : m ≡ h - t = omega (arith, eq) in
            (
              omega (arith, ek, em, count),
              (
                loop.0,
                hash,
                subst (λ (j : ℕ). Undone j h d loop.0) count undone,
                eh,
                λ k. contents-save_checkpoint loop.0 d' _ k es,
              ),
            )
      ]
