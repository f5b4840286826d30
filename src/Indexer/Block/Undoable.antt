-- ===== src/Indexer/Block/Undoable.antt =====
-- internal/indexer/block.go and reorg.go: rollbackBlock undoes IndexBlock.
use electrum_go.Base.{
  ℕ, ◌^◌, ◌<◌, ◌≡◌, refl, sym, ap, ◌∙◌, subst, inl, inr, true, false, ◌||◌, Option, some, [], ◌∷◌,
  ◌++◌, ◌==◌, All, All-map, Bool-cases, arith, if◌then◌else◌,
}
use mathlib.Core.List.{append-nil}
use electrum_go.Base.Int.{ℤ, IsI32}
use electrum_go.Base.Bytes.{Bytes, IsBytes}
use electrum_go.Base.Result.{ok}
use electrum_go.Storage.Keys.{
  first, make_header_key, make_block_txids_key, make_undo_key, prefix_mempool,
}
use electrum_go.Storage.Undo.{UndoBlock, decode_undo_block, encode_undo_block}
use electrum_go.Storage.Undo.RoundTrip.{FitsUndo, FitsOutput, FitsHistory, decode-encode_undo_block}
use electrum_go.Storage.Pebble.{Pebble, Codecs}
use electrum_go.Storage.Database.{Batch, get_undo}
use electrum_go.Indexer.Wire.{Block, Wire}
use electrum_go.Indexer.Mempool.{MempoolOverlay}
use electrum_go.Indexer.Rollback.{rollback_block}
use electrum_go.Indexer.Rollback.Restore.{rollback_block_restores}
use electrum_go.Indexer.Rollback.Undone.{
  Lacks, mentions, mentions-append, output_keys, history_keys, undone_keys, IsUndoOf, touched,
  overlay-untouched,
}
use electrum_go.Indexer.Block.{
  returned, attempt, then_inv, attempt_inv, returned_injective, start, undo_of, index_txs,
  next_checkpoint, index_block,
}
use electrum_go.Indexer.Block.Entries.{Indexing, finish_batch}
use electrum_go.Indexer.Block.Keys.{make_undo_key_inv, encode_undo_block-IsSized}
use electrum_go.Indexer.Block.Tracked.{
  aside, named, SpentWas, CreatedNew, HistoryNew, NewTxid, NewHeight, Tracked,
}
use electrum_go.Indexer.Block.Loop.{FitsTx, all_parts, index_txs-Tracked}
use electrum_go.Indexer.Block.Finish.{Finished, finish_batch-Finished}

-- The database has nothing of the block yet.
pub record IsNew (c : Bytes → Option Bytes) (w : Wire) (block : Block) (height : ℤ) : Type 0 where
  pub txids : All (λ tx. NewTxid c (w.tx_hash tx)) block.transactions
  pub history : NewHeight c height
  pub header : Lacks c (make_header_key height)
  pub txid_list : Lacks c (make_block_txids_key height)
  pub undo : Lacks c (make_undo_key height (w.block_hash block.header))

-- The numbers of the block are in the ranges of their Go types, and of its parts there are fewer than
-- 2 ^ 32.
abbrev pub FitsBlock : Block → Type 0
FitsBlock block = All FitsTx block.transactions × (all_parts block.transactions < 2 ^ 32)

module _ (p : Pebble) (c : Bytes → Option Bytes) where
  Tracked-FitsUndo :
      (w : Wire) (block : Block) (height : ℤ) (n : ℕ) (s : Indexing p.Db)
      → IsI32 height
      → n < 2 ^ 32
      → Tracked p c n 0 s
      → FitsUndo (undo_of p w block height s)
  Tracked-FitsUndo w block height n s fh h t = record {
    height = fh;
    spent = All-map (SpentWas c) FitsOutput (λ o q. q.2) s.spent t.spent;
    created = All-map (CreatedNew c) FitsOutput (λ o q. q.2) s.created t.created;
    history = All-map (HistoryNew c) FitsHistory (λ o q. q.1) s.history t.history;
    spent_count = omega (arith, h, t.outputs_room);
    created_count = omega (arith, h, t.outputs_room);
    history_count = omega (arith, h, t.history_room);
  }

  Tracked-IsUndoOf :
      (w : Wire) (block : Block) (height : ℤ) (n : ℕ) (s : Indexing p.Db)
      → IsNew c w block height
      → Tracked p c n 0 s
      → IsUndoOf c (undo_of p w block height s) height (w.block_hash block.header)
  Tracked-IsUndoOf w block height n s fresh t = record {
    created = All-map (CreatedNew c) _ (λ o q. (q.0, q.1)) s.created t.created;
    spent = All-map (SpentWas c) _ (λ o q. (q.0, q.1)) s.spent t.spent;
    history = All-map (HistoryNew c) _ (λ o q. q.0) s.history t.history;
    header = fresh.header;
    txids = fresh.txid_list;
    undo = fresh.undo;
  }

  -- What no key of the record names, and is not aside, the batch does not touch.
  unnamed_untouched :
      (u : UndoBlock) (batch after : Batch) (k : Bytes)
      → Finished batch after u
      → (touched batch k ≡ true
          → (named u.created_outputs u.spent_outputs u.history_entries k || aside k) ≡ true)
      → mentions (undone_keys u u.height u.block_hash) k ≡ false
      → aside k ≡ false
      → touched after k ≡ false
  unfolding named
  unnamed_untouched u batch after k f h m a =
      let last =
        make_header_key u.height
        ∷ make_block_txids_key u.height
        ∷ make_undo_key u.height u.block_hash
        ∷ [] in
      elim (Bool-cases (touched after k)) [
        | inl t ↦ ground (
          arith,
          h,
          m,
          a,
          f.covers k t,
          mentions-append (output_keys u.created_outputs)
              (output_keys u.spent_outputs ++ (history_keys u.history_entries ++ last)) k,
          mentions-append (output_keys u.spent_outputs) (history_keys u.history_entries ++ last) k,
          mentions-append (history_keys u.history_entries) last k,
        )
        | inr t ↦ t
      ]

  -- The record is read back.
  get_undo-committed :
      (d : p.Db) (u : UndoBlock) (k v : Bytes)
      → ((d : p.Db) (k : Bytes) → (r : Option Bytes) × (p.read d k ≡ ok r))
      → make_undo_key u.height u.block_hash ≡ ok k
      → encode_undo_block u ≡ ok v
      → p.contents d k ≡ some v
      → FitsUndo u
      → get_undo p d u.height u.block_hash ≡ ok u
  unfolding get_undo
  get_undo-committed d u k v reads ek ev there fits =
      let (r, er) = reads d k in
      let found : r ≡ some v = p.read_contents d k r er ∙ there in
      let read_back : p.read d k ≡ ok (some v) = er ∙ ap ok found in
      rw (ek, read_back)
        (ap decode_undo_block (sym (append-nil v)) ∙ decode-encode_undo_block u v [] fits ev)

  -- A key that no entry of the batch writes reads as before the block.
  kept :
      (s : Indexing p.Db) (d' : p.Db) (batch : Batch) (n : ℕ) (u : UndoBlock) (k : Bytes)
      → Tracked p c n 0 s
      → p.commit s.db batch ≡ ok d'
      → (mentions (undone_keys u u.height u.block_hash) k ≡ false → touched batch k ≡ false)
      → (first k == prefix_mempool) ≡ false
      → (if mentions (undone_keys u u.height u.block_hash) k then c k else p.contents d' k) ≡ c k
  kept s d' batch n u k t e h hm =
      elim (Bool-cases (mentions (undone_keys u u.height u.block_hash) k)) [
        | inl b ↦ rw b refl
        | inr b ↦ rw b (
            p.contents_commit s.db d' batch e k
            ∙ overlay-untouched batch (p.contents s.db) k (h b)
            ∙ t.same k hm)
      ]

  pub start-Tracked :
      (m : MempoolOverlay) (d : p.Db)
      → ((k : Bytes) → p.contents d k ≡ c k)
      → Tracked p c 0 0 (start p m d)
  unfolding touched
  start-Tracked m d h = record {
    spent = tt;
    created = tt;
    history = tt;
    covers = λ k t. absurd (cc t);
    same = λ k hm. h k;
    outputs_room = omega arith;
    history_room = omega arith;
    index_fits = omega arith;
    stays = λ now. tt;
  }

module _ (p : Pebble) (codecs : Codecs) (w : Wire) (m m' : MempoolOverlay) (d d' : p.Db)
    (block : Block) (height : ℤ) where
  -- What IndexBlock did, if it returned.
  pub index_block_inv :
      index_block p codecs w m d block height ≡ returned (m', d')
      → (s : Indexing p.Db) × (batch : Batch) × (index_txs p w height
            (w.block_hash block.header)
            (start p m d)
            0
            block.transactions
          ≡ returned s)
        × Finished s.batch batch (undo_of p w block height s)
        × (p.commit s.db batch ≡ ok d')
  unfolding index_block
  index_block_inv e =
      let hash = w.block_hash block.header in
      let (header, e₁, r₁) = then_inv (attempt m d (w.serialize_header block.header)) _ e in
      let (s, e₂, r₂) =
        then_inv (index_txs p w height hash (start p m d) 0 block.transactions) _ r₁ in
      let (batch, e₃, r₃) =
        then_inv
          (attempt s.overlay s.db (
            finish_batch codecs s.batch (undo_of p w block height s) header s.txids s.blob s.offsets
              (next_checkpoint p codecs s.db height (w.hash_string hash))))
          _ r₂ in
      let (x, e₄, r₄) = then_inv (attempt s.overlay s.db (p.commit s.db batch)) _ r₃ in
      (
        s,
        batch,
        e₂,
        finish_batch-Finished codecs s.batch batch (undo_of p w block height s) header s.txids
            s.blob s.offsets _ (attempt_inv s.overlay s.db _ e₃),
        attempt_inv s.overlay s.db _ e₄
            ∙ ap (λ (q : MempoolOverlay × p.Db). ok q.1) (returned_injective r₄),
      )

  -- Take a block of which the database has nothing yet: no output and no outpoint entry of its txids,
  -- no entry of the history, header, list of txids or undo record of its height. Its numbers are in
  -- their Go ranges, it has fewer than 2 ^ 32 inputs and outputs, and what the database holds are
  -- bytes. If IndexBlock returns, and the reads and writes that follow succeed, then rollbackBlock of
  -- its height and hash returns, and every key reads as it did before IndexBlock, besides the keys of
  -- the mempool table, those of the places, blobs and offsets of transactions, and the checkpoint.
  pub rollback_block-index_block :
      ((k v : Bytes) → p.contents d k ≡ some v → IsBytes v)
      → ((d : p.Db) (k : Bytes) → (r : Option Bytes) × (p.read d k ≡ ok r))
      → ((d : p.Db) (b : Batch) → (d' : p.Db) × (p.commit d b ≡ ok d'))
      → IsI32 height
      → FitsBlock block
      → IsNew (p.contents d) w block height
      → index_block p codecs w m d block height ≡ returned (m', d')
      → (back : p.Db) × (rollback_block p d' height (w.block_hash block.header) ≡ ok back)
        × ((k : Bytes)
            → (first k == prefix_mempool) ≡ false
            → aside k ≡ false
            → p.contents back k ≡ p.contents d k)
  rollback_block-index_block bytes reads writes fh (fits, few) fresh e =
      let hash = w.block_hash block.header in
      let c = p.contents d in
      let (s, batch, es, f, ec) = index_block_inv e in
      let u = undo_of p w block height s in
      let t : Tracked p c (all_parts block.transactions) 0 s =
        subst (λ (n : ℕ). Tracked p c n 0 s) (omega arith)
          (index_txs-Tracked p c bytes w height hash 0 (start p m d) s 0 block.transactions fh fits
            fresh.txids fresh.history es (start-Tracked p c m d (λ k. refl))) in
      let there = p.contents_commit s.db d' batch ec f.undo_key ∙ f.is_there (p.contents s.db) in
      let (hash_fits, height_fits, _first) = make_undo_key_inv height hash f.undo_key f.is_key in
      let (back, er, reads_as) =
        rollback_block_restores p d' height hash u c
          (get_undo-committed p c d' u f.undo_key f.undo_bytes reads f.is_key f.is_encoded there
            (Tracked-FitsUndo p c w block height (all_parts block.transactions) s fh few t))
          (encode_undo_block-IsSized u f.undo_bytes f.is_encoded) height_fits hash_fits
          (Tracked-IsUndoOf p c w block height (all_parts block.transactions) s fresh t)
          (writes d') in
      (
        back,
        er,
        λ k hm ha.
            reads_as k
            ∙ kept p c s d' batch (all_parts block.transactions) u k t ec
                (λ b. unnamed_untouched p c u s.batch batch k f (t.covers k) b ha) hm,
      )
