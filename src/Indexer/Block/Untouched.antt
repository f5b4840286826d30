-- ===== src/Indexer/Block/Untouched.antt =====
-- What the overlay writes while a block is indexed: keys of the mempool table alone.
use electrum_go.Base.{
  ◌≡◌, refl, ◌∙◌, inl, inr, false, Option, none, some, List, [], ◌∷◌, ◌==◌, arith,
}
use electrum_go.Base.Bytes.{Bytes}
use electrum_go.Base.Map.{bytes_key, get, bytes_eq_iff}
use electrum_go.Base.Result.{Result-cases}
use electrum_go.Storage.Keys.{first, prefix_mempool, make_mempool_key}
use electrum_go.Storage.Pebble.{del, Pebble}
use electrum_go.Storage.Database.{Batch, then_del}
use electrum_go.Indexer.Types.{txid_to_hex}
use electrum_go.Indexer.Mempool.{
  MempoolOutput, MempoolTransaction, MempoolOverlay, unpersist_batch, read_cells,
}
use electrum_go.Indexer.Mempool.Methods.{commit_or_keep, remove_by_hex, remove_transaction}
use electrum_go.Indexer.Rollback.Undone.{touched, touched-append, overlay-untouched}
use electrum_go.Indexer.Block.Keys.{first-make_mempool_key}

touched-unpersist_batch :
    (batch : Batch) (os : List MempoolOutput) (k : Bytes)
    → (first k == prefix_mempool) ≡ false
    → touched (unpersist_batch batch os) k ≡ touched batch k
unfolding unpersist_batch touched
touched-unpersist_batch batch [] k h = refl
touched-unpersist_batch batch (o ∷ os) k h =
    elim (Result-cases (make_mempool_key o.scripthash o.txid o.vout)) [
      | inl (key, e) ↦
          rw (e, unpersist_batch)
            (touched-unpersist_batch (then_del batch key) os k h
              ∙ ground (
                arith,
                touched-append batch (del key ∷ []) k,
                bytes_eq_iff key k,
                h,
                first-make_mempool_key o.scripthash o.txid o.vout key e,
              ))
      | inr (x, e) ↦ rw (e, unpersist_batch) (touched-unpersist_batch batch os k h)
    ]

module _ (p : Pebble) where
  open p use {Db, contents}

  contents-commit_or_keep :
      (d : Db) (batch : Batch) (k : Bytes)
      → touched batch k ≡ false
      → contents (commit_or_keep p d batch) k ≡ contents d k
  contents-commit_or_keep d batch k h = elim (Result-cases (p.commit d batch)) [
    | inl (d', e) ↦
        rw (e, commit_or_keep)
          (p.contents_commit d d' batch e k ∙ overlay-untouched batch (contents d) k h)
    | inr (x, e) ↦ rw (e, commit_or_keep) refl
  ]

  contents-remove_by_hex :
      (m : MempoolOverlay) (d : Db) (id k : Bytes)
      → (first k == prefix_mempool) ≡ false
      → contents (remove_by_hex p m d id).1 k ≡ contents d k
  unfolding remove_by_hex touched
  contents-remove_by_hex m d id k h = at_entry (get m.transactions id) refl
    where
      at_entry :
          (t : Option MempoolTransaction)
          → get m.transactions id ≡ t
          → contents (remove_by_hex p m d id).1 k ≡ contents d k
      at_entry none e = rw (e, remove_by_hex) refl
      at_entry (some t) e =
          rw (e, remove_by_hex)
            (contents-commit_or_keep d (unpersist_batch [] (read_cells m.cells t.outputs)) k
              (touched-unpersist_batch [] (read_cells m.cells t.outputs) k h))

  pub contents-remove_transaction :
      (m : MempoolOverlay) (d : Db) (txid k : Bytes)
      → (first k == prefix_mempool) ≡ false
      → contents (remove_transaction p m d txid).1 k ≡ contents d k
  unfolding remove_transaction
  contents-remove_transaction m d txid k h = contents-remove_by_hex m d (txid_to_hex txid) k h
