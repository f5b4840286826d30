-- ===== src/Storage/Database/Read.antt =====
-- What was saved in a batch is what is read after the commit, and other keys are as they were.
use electrum_go.Base.{
  ℕ, ◌*◌, ◌/◌, ◌%◌, ◌<◌, ◌^◌, ◌≡◌, refl, sym, ap, ◌∙◌, true, Option, some, List, [], ◌∷◌, ◌++◌,
  length, map, All, arith, ◌==◌, ==_iff, if◌then◌else◌, length-append, take-append_exact,
  drop-append_exact,
}
use mathlib.Core.List.{append-nil}
use electrum_go.Base.Int.{ℤ, IsI32}
use electrum_go.Base.Bytes.{Bytes, bytes_eq, bytes_eq_self, put_be32, be32, be32-put_be32}
use electrum_go.Base.Result.{ok, >>=-eq-ok, ok_injective, guard_inv}
use electrum_go.Storage.Keys.{
  make_header_key, make_block_txids_key, make_tx_pos_key, make_tx_offsets_key, make_undo_key,
  key_checkpoint, height_bytes, make_tx_blob_key,
}
use electrum_go.Storage.Keys.Layout.{read_height-height_bytes}
use electrum_go.Storage.Undo.{UndoBlock, encode_undo_block, decode_undo_block}
use electrum_go.Storage.Undo.RoundTrip.{FitsUndo, decode-encode_undo_block}
use electrum_go.Storage.Pebble.{
  Op, put, op_key, written, overlay, FitsJson, Pebble, Codecs, Checkpoint,
}
use electrum_go.Storage.Database.{
  check_header, Batch, then_put, save_header_in_batch, get_header, join_txids,
  save_block_txids_in_batch, chunks, get_block_txids, save_tx_pos_in_batch, get_tx_pos,
  join_offsets, save_tx_offsets_in_batch, get_tx_offsets, save_undo_in_batch, get_undo,
  load_checkpoint, save_checkpoint_in_batch, save_tx_blob_in_batch, get_tx_blob,
}

-- The last entry of a batch: its key reads as it says, any other key as without it.
overlay-snoc :
    (ops : List Op) (o : Op) (before : Bytes → Option Bytes) (k : Bytes)
    → overlay (ops ++ (o ∷ [])) before k
      ≡ (if bytes_eq (op_key o) k then written o else overlay ops before k)
unfolding overlay
overlay-snoc [] o before k = refl
overlay-snoc (x ∷ ops) o before k =
    overlay-snoc ops o (λ j. if bytes_eq (op_key x) j then written x else before j) k

-- Reads of the database do not fail.
abbrev pub NoFault : (p : Pebble) → p.Db → Type 0
NoFault p d = (k : Bytes) → (r : Option Bytes) × (p.read d k ≡ ok r)

whole_32 : (n : ℕ) → (n * 32 % 32 == 0) ≡ true
whole_32 n = ground arith

count_32 : (n : ℕ) → n * 32 / 32 ≡ n
count_32 n = omega arith

whole_4 : (n : ℕ) → (n * 4 % 4 == 0) ≡ true
whole_4 n = ground arith

count_4 : (n : ℕ) → n * 4 / 4 ≡ n
count_4 n = omega arith

-- The txids of a value, cut where they were joined.
chunks-join_txids :
    (txids : List Bytes) (value : Bytes)
    → join_txids txids ≡ ok value
    → (length value ≡ length txids * 32) × (chunks (length txids) 32 value ≡ txids)
unfolding join_txids chunks
chunks-join_txids [] value e = (cc, refl)
chunks-join_txids (t ∷ ts) value e =
    let (n, e₁) = guard_inv (length t == 32) _ _ e in
    let (rest, er, e₂) = >>=-eq-ok (join_txids ts) _ e₁ in
    let (l, m) = chunks-join_txids ts rest er in
    let n' = (==_iff (length t) 32).0 n in
    rw (← ok_injective e₂) (
      omega (arith, length-append t rest),
      cc (take-append_exact 32 t rest n', drop-append_exact 32 t rest n', m),
    )

chunks-join_offsets :
    (offsets : List ℕ)
    → All (λ o. o < 2 ^ 32) offsets
    → (length (join_offsets offsets) ≡ length offsets * 4)
      × (map be32 (chunks (length offsets) 4 (join_offsets offsets)) ≡ offsets)
unfolding join_offsets chunks
chunks-join_offsets [] f = (omega arith, refl)
chunks-join_offsets (o ∷ os) (f, fs) =
    let (l, m) = chunks-join_offsets os fs in
    (omega (arith, length-append (put_be32 o) (join_offsets os)), cc (be32-put_be32 o f, m))

module _ (p : Pebble) (d d' : p.Db) (batch : Batch) where
  pub read_after_put :
      (key value : Bytes)
      → NoFault p d'
      → p.commit d (then_put batch key value) ≡ ok d'
      → p.read d' key ≡ ok (some value)
  read_after_put key value calm e =
      let (r, h) = calm key in
      h
      ∙ ap ok (
          p.read_contents d' key r h
          ∙ p.contents_commit d d' (then_put batch key value) e key
          ∙ overlay-snoc batch (put key value) (p.contents d) key
          ∙ rw (bytes_eq_self key) refl)

  -- If SaveTxPosInBatch accepts an int32 height and a uint32 index, the commit succeeds and reads
  -- after it do not fail, then GetTxPos returns that height and that index for the txid.
  pub get_tx_pos-save_tx_pos :
      (txid : Bytes) (h : ℤ) (i : ℕ) (batch' : Batch)
      → IsI32 h
      → i < 2 ^ 32
      → NoFault p d'
      → save_tx_pos_in_batch batch txid h i ≡ ok batch'
      → p.commit d batch' ≡ ok d'
      → get_tx_pos p d' txid ≡ ok (some (h, i))
  unfolding save_tx_pos_in_batch get_tx_pos
  get_tx_pos-save_tx_pos txid h i batch' hh hi calm e c =
      let (key, ek, e') = >>=-eq-ok (make_tx_pos_key txid) _ e in
      rw (ek, read_after_put key (height_bytes h ++ put_be32 i) calm (rw (← ok_injective e') at c))
        (cc (read_height-height_bytes h hh, be32-put_be32 i hi))

  -- If SaveHeaderInBatch accepts a header, the commit succeeds and reads after it do not fail, then
  -- GetHeader returns that header for the height.
  pub get_header-save_header :
      (h : ℤ) (header : Bytes) (batch' : Batch)
      → NoFault p d'
      → save_header_in_batch batch h header ≡ ok batch'
      → p.commit d batch' ≡ ok d'
      → get_header p d' h ≡ ok header
  unfolding save_header_in_batch get_header check_header
  get_header-save_header h header batch' calm e c =
      let (u, e₁) = guard_inv (length header == 80) _ _ e in
      let (key, ek, e₂) = >>=-eq-ok (make_header_key h) _ e₁ in
      rw (ek, read_after_put key header calm (rw (← ok_injective e₂) at c)) refl

  -- If SaveBlockTxidsInBatch accepts a list of txids, the commit succeeds and reads after it do not
  -- fail, then GetBlockTxids returns those txids in their order.
  pub get_block_txids-save_block_txids :
      (h : ℤ) (txids : List Bytes) (batch' : Batch)
      → NoFault p d'
      → save_block_txids_in_batch batch h txids ≡ ok batch'
      → p.commit d batch' ≡ ok d'
      → get_block_txids p d' h ≡ ok txids
  unfolding save_block_txids_in_batch get_block_txids
  get_block_txids-save_block_txids h txids batch' calm e c =
      let (key, ek, e₁) = >>=-eq-ok (make_block_txids_key h) _ e in
      let (value, ev, e₂) = >>=-eq-ok (join_txids txids) _ e₁ in
      let (l, m) = chunks-join_txids txids value ev in
      rw (ek, read_after_put key value calm (rw (← ok_injective e₂) at c))
        (rw (l, whole_32 (length txids), count_32 (length txids)) (ap ok m))

  -- If SaveTxOffsetsInBatch accepts a list of uint32 offsets, the commit succeeds and reads after it
  -- do not fail, then GetTxOffsets returns those offsets in their order.
  pub get_tx_offsets-save_tx_offsets :
      (h : ℤ) (offsets : List ℕ) (batch' : Batch)
      → All (λ o. o < 2 ^ 32) offsets
      → NoFault p d'
      → save_tx_offsets_in_batch batch h offsets ≡ ok batch'
      → p.commit d batch' ≡ ok d'
      → get_tx_offsets p d' h ≡ ok offsets
  unfolding save_tx_offsets_in_batch get_tx_offsets
  get_tx_offsets-save_tx_offsets h offsets batch' f calm e c =
      let (key, ek, e₁) = >>=-eq-ok (make_tx_offsets_key h) _ e in
      let (l, m) = chunks-join_offsets offsets f in
      rw (ek, read_after_put key (join_offsets offsets) calm (rw (← ok_injective e₁) at c))
        (rw (l, whole_4 (length offsets), count_4 (length offsets)) (ap ok m))

  -- If SaveUndoInBatch accepts an undo record whose numbers fit their Go types, the commit succeeds
  -- and reads after it do not fail, then GetUndo returns that record for its height and the hash.
  pub get_undo-save_undo :
      (undo : UndoBlock) (hash : Bytes) (batch' : Batch)
      → FitsUndo undo
      → NoFault p d'
      → save_undo_in_batch batch undo hash ≡ ok batch'
      → p.commit d batch' ≡ ok d'
      → get_undo p d' undo.height hash ≡ ok undo
  unfolding save_undo_in_batch get_undo
  get_undo-save_undo undo hash batch' f calm e c =
      let (key, ek, e₁) = >>=-eq-ok (make_undo_key undo.height hash) _ e in
      let (value, ev, e₂) = >>=-eq-ok (encode_undo_block undo) _ e₁ in
      rw (ek, read_after_put key value calm (rw (← ok_injective e₂) at c))
        (ap decode_undo_block (sym (append-nil value))
          ∙ decode-encode_undo_block undo value [] f ev)

  -- If a checkpoint has int32 heights and an ASCII hash, the commit of a batch with it at the end succeeds and reads after it do not fail,
  -- then LoadCheckpoint returns that checkpoint.
  pub load_checkpoint-save_checkpoint :
      (codecs : Codecs) (checkpoint : Checkpoint) (batch' : Batch)
      → FitsJson checkpoint
      → NoFault p d'
      → save_checkpoint_in_batch codecs batch checkpoint ≡ ok batch'
      → p.commit d batch' ≡ ok d'
      → load_checkpoint p codecs d' ≡ ok checkpoint
  unfolding save_checkpoint_in_batch load_checkpoint
  load_checkpoint-save_checkpoint codecs checkpoint batch' fits calm e c =
      rw
        (read_after_put key_checkpoint (codecs.marshal checkpoint) calm
          (rw (← ok_injective e) at c))
        (codecs.unmarshal-marshal checkpoint fits)

  -- If SaveTxBlobInBatch accepts a blob, the commit succeeds and reads after it do not fail, then
  -- GetTxBlob returns that blob for the height.
  pub get_tx_blob-save_tx_blob :
      (codecs : Codecs) (h : ℤ) (blob : Bytes) (batch' : Batch)
      → NoFault p d'
      → save_tx_blob_in_batch codecs batch h blob ≡ ok batch'
      → p.commit d batch' ≡ ok d'
      → get_tx_blob p codecs d' h ≡ ok blob
  unfolding save_tx_blob_in_batch get_tx_blob
  get_tx_blob-save_tx_blob codecs h blob batch' calm e c =
      let (key, ek, e₁) = >>=-eq-ok (make_tx_blob_key h) _ e in
      let (value, ev, e₂) = >>=-eq-ok (codecs.compress blob) _ e₁ in
      rw (ek, read_after_put key value calm (rw (← ok_injective e₂) at c))
        (codecs.decompress-compress blob value ev)
