-- ===== src/Indexer/Rollback/Restore.antt =====
-- The undoing of a block brings back what stood in the database before it.
use electrum_go.Base.{
  ℕ, ◌≡◌, refl, sym, ap, ◌∙◌, Bool, true, false, ◌||◌, Option, List, [], ◌∷◌, ◌++◌, length, All,
  if◌then◌else◌,
}
use electrum_go.Base.Int.{ℤ, pos, negsuc, is_negative}
use electrum_go.Base.Bytes.{Bytes, put_be32}
use electrum_go.Base.Result.{ok}
use electrum_go.Storage.Keys.{
  make_utxo_key, make_tx_index_key, make_history_key, make_header_key, make_block_txids_key,
  make_undo_key, prefix_utxo, prefix_tx_index, prefix_history, prefix_header, prefix_block_tx,
  prefix_undo, height_bytes,
}
use electrum_go.Storage.Undo.{UndoOutput, UndoHistory, UndoBlock}
use electrum_go.Storage.Pebble.{put, del, Pebble}
use electrum_go.Storage.Database.{
  Batch, then_put, then_del, get_undo, delete_header_in_batch, delete_block_txids_in_batch,
  delete_undo_in_batch,
}
use electrum_go.Indexer.Rollback.{
  delete_created, restore_spent, delete_history, rollback_batch, rollback_block,
}
use electrum_go.Indexer.Rollback.Undone.{
  output_keys, history_keys, undone_keys, mentions, Lacks, Holds, utxo_bytes, IsUndoOf, SizedOutput,
  IsSized, touched, overlay-agreeing, Extends, Extends-trans, Extends-op,
}

utxo_key_total :
    (sh txid : Bytes) (vout : ℕ)
    → length sh ≡ 32
    → length txid ≡ 32
    → (k : Bytes) × (make_utxo_key sh txid vout ≡ ok k)
unfolding make_utxo_key
utxo_key_total sh txid vout h t = (prefix_utxo ∷ sh ++ (txid ++ put_be32 vout), rw (h, t) refl)

tx_index_key_total :
    (txid : Bytes) (vout : ℕ)
    → length txid ≡ 32
    → (k : Bytes) × (make_tx_index_key txid vout ≡ ok k)
unfolding make_tx_index_key
tx_index_key_total txid vout t = (prefix_tx_index ∷ txid ++ put_be32 vout, rw t refl)

history_key_total :
    (sh : Bytes) (h : ℤ) (i j : ℕ)
    → length sh ≡ 32
    → (k : Bytes) × (make_history_key sh h i j ≡ ok k)
unfolding make_history_key
history_key_total sh h i j e =
    (prefix_history ∷ sh ++ (height_bytes h ++ (put_be32 i ++ put_be32 j)), rw e refl)

height_keys_total :
    (height : ℤ) (hash : Bytes)
    → is_negative height ≡ false
    → length hash ≡ 32
    → (a b u : Bytes) × (make_header_key height ≡ ok a)
      × (make_block_txids_key height ≡ ok b)
      × (make_undo_key height hash ≡ ok u)
unfolding make_header_key make_block_txids_key make_undo_key
height_keys_total (pos n) hash s e = (
  prefix_header ∷ height_bytes (pos n),
  prefix_block_tx ∷ height_bytes (pos n),
  prefix_undo ∷ height_bytes (pos n) ++ hash,
  refl,
  refl,
  rw e refl,
)
height_keys_total (negsuc n) hash s e = absurd (cc)

no_more : (b : Bool) → b ≡ (b || false)
no_more true = refl
no_more false = refl

module _ (c : Bytes → Option Bytes) where
  Extends-refl : (a : Batch) → Extends c a a []
  Extends-refl a = (λ h. h, λ k. no_more (touched a k))

  delete_created_effect :
      (os : List UndoOutput) (batch : Batch)
      → All SizedOutput os
      → All
          (λ o.
            Lacks c (make_utxo_key o.scripthash o.txid o.vout)
            × Lacks c (make_tx_index_key o.txid o.vout))
          os
      → (b : Batch) × (delete_created batch os ≡ ok b) × (Extends c batch b (output_keys os))
  unfolding delete_created
  delete_created_effect [] batch s h = (batch, refl, Extends-refl batch)
  delete_created_effect (o ∷ os) batch ((hs, ht), s) ((lu, li), h) =
      let (u, eu) = utxo_key_total o.scripthash o.txid o.vout hs ht in
      let (i, ei) = tx_index_key_total o.txid o.vout ht in
      let one = then_del batch u in
      let (b, eb, x) = delete_created_effect os (then_del one i) s h in
      (
        b,
        rw (eu, ei) eb,
        Extends-trans c batch one b (make_utxo_key o.scripthash o.txid o.vout ∷ [])
            (make_tx_index_key o.txid o.vout ∷ output_keys os)
            (Extends-op c batch (del u) _ eu (sym (lu u eu)))
            (Extends-trans c one (then_del one i) b (make_tx_index_key o.txid o.vout ∷ [])
              (output_keys os) (Extends-op c one (del i) _ ei (sym (li i ei))) x),
      )

  restore_spent_effect :
      (os : List UndoOutput) (batch : Batch)
      → All SizedOutput os
      → All
          (λ o.
            Holds c (make_utxo_key o.scripthash o.txid o.vout) (utxo_bytes o)
            × Holds c (make_tx_index_key o.txid o.vout) o.scripthash)
          os
      → (b : Batch) × (restore_spent batch os ≡ ok b) × (Extends c batch b (output_keys os))
  unfolding restore_spent
  restore_spent_effect [] batch s h = (batch, refl, Extends-refl batch)
  restore_spent_effect (o ∷ os) batch ((hs, ht), s) ((lu, li), h) =
      let (u, eu) = utxo_key_total o.scripthash o.txid o.vout hs ht in
      let (i, ei) = tx_index_key_total o.txid o.vout ht in
      let one = then_put batch u (utxo_bytes o) in
      let two = then_put one i o.scripthash in
      let (b, eb, x) = restore_spent_effect os two s h in
      (
        b,
        rw (eu, ei) eb,
        Extends-trans c batch one b (make_utxo_key o.scripthash o.txid o.vout ∷ [])
            (make_tx_index_key o.txid o.vout ∷ output_keys os)
            (Extends-op c batch (put u (utxo_bytes o)) _ eu (sym (lu u eu)))
            (Extends-trans c one two b (make_tx_index_key o.txid o.vout ∷ []) (output_keys os)
              (Extends-op c one (put i o.scripthash) _ ei (sym (li i ei))) x),
      )

  delete_history_effect :
      (hs : List UndoHistory) (batch : Batch)
      → All (λ h. length h.scripthash ≡ 32) hs
      → All (λ h. Lacks c (make_history_key h.scripthash h.height h.tx_index h.index)) hs
      → (b : Batch) × (delete_history batch hs ≡ ok b) × (Extends c batch b (history_keys hs))
  unfolding delete_history
  delete_history_effect [] batch s l = (batch, refl, Extends-refl batch)
  delete_history_effect (h ∷ hs) batch (n, s) (l, ls) =
      let (k, e) = history_key_total h.scripthash h.height h.tx_index h.index n in
      let (b, eb, x) = delete_history_effect hs (then_del batch k) s ls in
      (
        b,
        rw e eb,
        Extends-trans c batch (then_del batch k) b
            (make_history_key h.scripthash h.height h.tx_index h.index ∷ []) (history_keys hs)
            (Extends-op c batch (del k) _ e (sym (l k e))) x,
      )

  rollback_batch_effect :
      (u : UndoBlock) (height : ℤ) (hash : Bytes)
      → IsSized u
      → is_negative height ≡ false
      → length hash ≡ 32
      → IsUndoOf c u height hash
      → (b : Batch) × (rollback_batch u height hash ≡ ok b)
        × (Extends c [] b (undone_keys u height hash))
  unfolding rollback_batch delete_header_in_batch delete_block_txids_in_batch delete_undo_in_batch
  rollback_batch_effect u height hash s pos_h n r =
      let (x, ex, tx) = delete_created_effect u.created_outputs [] s.created r.created in
      let (y, ey, ty) = restore_spent_effect u.spent_outputs x s.spent r.spent in
      let (z, ez, tz) = delete_history_effect u.history_entries y s.history r.history in
      let (a, b, d, ea, eb, ed) = height_keys_total height hash pos_h n in
      let one = then_del z a in
      let two = then_del one b in
      let ka = make_header_key height ∷ [] in
      let kb = make_block_txids_key height ∷ [] in
      let kd = make_undo_key height hash ∷ [] in
      let os = output_keys u.created_outputs in
      let ps = output_keys u.spent_outputs in
      let hs = history_keys u.history_entries in
      (
        then_del two d,
        rw (ex, ey, ez, ea, eb, ed) refl,
        Extends-trans c [] x (then_del two d) os (ps ++ (hs ++ (ka ++ (kb ++ kd)))) tx (
            Extends-trans c x y (then_del two d) ps (hs ++ (ka ++ (kb ++ kd))) ty (
              Extends-trans c y z (then_del two d) hs (ka ++ (kb ++ kd)) tz (
                Extends-trans c z one (then_del two d) ka (kb ++ kd)
                  (Extends-op c z (del a) (make_header_key height) ea (sym (r.header a ea)))
                  (Extends-trans c one two (then_del two d) kb kd
                    (Extends-op c one (del b) (make_block_txids_key height) eb (sym (r.txids b eb)))
                    (Extends-op c two (del d) (make_undo_key height hash) ed
                      (sym (r.undo d ed))))))),
      )

-- Take any database `c`, and an undo record that says of a block what it changed in `c`. If the record
-- is read for the height and hash, its hashes have 32 bytes, the height is not negative and the
-- commit does not fail, then rollbackBlock returns, every key that the record names reads as it did in
-- `c`, and every other key reads as it did before the call.
pub rollback_block_restores :
    (p : Pebble) (d : p.Db) (height : ℤ) (hash : Bytes) (u : UndoBlock) (c : Bytes → Option Bytes)
    → get_undo p d height hash ≡ ok u
    → IsSized u
    → is_negative height ≡ false
    → length hash ≡ 32
    → IsUndoOf c u height hash
    → ((b : Batch) → (d' : p.Db) × (p.commit d b ≡ ok d'))
    → (d' : p.Db) × (rollback_block p d height hash ≡ ok d')
      × ((k : Bytes)
          → p.contents d' k
            ≡ (if mentions (undone_keys u height hash) k then c k else p.contents d k))
unfolding rollback_block touched
rollback_block_restores p d height hash u c eu s pos_h n r writes =
    let (b, eb, (agrees, t)) = rollback_batch_effect c u height hash s pos_h n r in
    let (d', ed) = writes b in
    (
      d',
      rw (eu, eb) ed,
      λ k.
          p.contents_commit d d' b ed k
          ∙ overlay-agreeing c b (p.contents d) k (agrees tt)
          ∙ ap (λ (m : Bool). if m then c k else p.contents d k) (t k),
    )
