-- ===== src/Indexer/Block/Finish.antt =====
-- The last entries of IndexBlock's batch.
use electrum_go.Base.{subst}
use electrum_go.Base.{
  ℕ, ◌≡◌, refl, sym, ap, ◌∙◌, true, ◌||◌, Option, some, List, [], ◌∷◌, arith, if◌then◌else◌,
}
use electrum_go.Base.Int.{ℤ}
use electrum_go.Base.Bytes.{Bytes, bytes_eq}
use electrum_go.Base.Map.{bytes_eq_iff}
use electrum_go.Base.Result.{Result, ok, err, ok_injective, >>=-eq-ok}
use electrum_go.Storage.Keys.{
  first, key_checkpoint, make_header_key, make_block_txids_key, make_tx_blob_key,
  make_tx_offsets_key, make_undo_key, prefix_tx_blob, prefix_tx_offs, prefix_undo,
}
use electrum_go.Storage.Undo.{UndoOutput, UndoBlock, encode_undo_block}
use electrum_go.Storage.Pebble.{put, overlay, Codecs, Checkpoint}
use electrum_go.Storage.Database.{
  Batch, then_put, check_header, join_txids, join_offsets, save_header_in_batch,
  save_block_txids_in_batch, save_tx_offsets_in_batch, save_undo_in_batch, save_checkpoint_in_batch,
  save_tx_blob_in_batch,
}
use electrum_go.Indexer.Rollback.Undone.{names, touched, touched-append, overlay-then}
use electrum_go.Indexer.Block.Entries.{finish_batch}
use electrum_go.Indexer.Block.Keys.{first-height_key, make_undo_key_inv}
use electrum_go.Indexer.Block.Tracked.{aside, Stays, Stays-put}

-- Each of the tables gets one entry, under its key.
abbrev pub Puts : Batch → Batch → Result Bytes → Type 0
Puts before after key = (k v : Bytes) × (key ≡ ok k) × (after ≡ then_put before k v)

save_header-Puts :
    (a b : Batch) (height : ℤ) (header : Bytes)
    → save_header_in_batch a height header ≡ ok b
    → Puts a b (make_header_key height)
unfolding save_header_in_batch
save_header-Puts a b height header e =
    let (x, ex, r) = >>=-eq-ok (check_header header) _ e in
    let (k, ek, r') = >>=-eq-ok (make_header_key height) _ r in
    (k, header, ek, sym (ok_injective r'))

save_txids-Puts :
    (a b : Batch) (height : ℤ) (txids : List Bytes)
    → save_block_txids_in_batch a height txids ≡ ok b
    → Puts a b (make_block_txids_key height)
unfolding save_block_txids_in_batch
save_txids-Puts a b height txids e =
    let (k, ek, r) = >>=-eq-ok (make_block_txids_key height) _ e in
    let (v, ev, r') = >>=-eq-ok (join_txids txids) _ r in (k, v, ek, sym (ok_injective r'))

save_blob-Puts :
    (c : Codecs) (a b : Batch) (height : ℤ) (blob : Bytes)
    → save_tx_blob_in_batch c a height blob ≡ ok b
    → Puts a b (make_tx_blob_key height)
unfolding save_tx_blob_in_batch
save_blob-Puts c a b height blob e =
    let (k, ek, r) = >>=-eq-ok (make_tx_blob_key height) _ e in
    let (v, ev, r') = >>=-eq-ok (c.compress blob) _ r in (k, v, ek, sym (ok_injective r'))

save_offsets-Puts :
    (a b : Batch) (height : ℤ) (offsets : List ℕ)
    → save_tx_offsets_in_batch a height offsets ≡ ok b
    → Puts a b (make_tx_offsets_key height)
unfolding save_tx_offsets_in_batch
save_offsets-Puts a b height offsets e =
    let (k, ek, r) = >>=-eq-ok (make_tx_offsets_key height) _ e in
    (k, join_offsets offsets, ek, sym (ok_injective r))

save_undo_inv :
    (a b : Batch) (u : UndoBlock) (hash : Bytes)
    → save_undo_in_batch a u hash ≡ ok b
    → (k v : Bytes) × (make_undo_key u.height hash ≡ ok k)
      × (encode_undo_block u ≡ ok v)
      × (b ≡ then_put a k v)
unfolding save_undo_in_batch
save_undo_inv a b u hash e =
    let (k, ek, r) = >>=-eq-ok (make_undo_key u.height hash) _ e in
    let (v, ev, r') = >>=-eq-ok (encode_undo_block u) _ r in (k, v, ek, ev, sym (ok_injective r'))

first-make_tx_blob_key :
    (height : ℤ) (k : Bytes) → make_tx_blob_key height ≡ ok k → first k ≡ prefix_tx_blob
unfolding make_tx_blob_key
first-make_tx_blob_key = first-height_key prefix_tx_blob

first-make_tx_offsets_key :
    (height : ℤ) (k : Bytes) → make_tx_offsets_key height ≡ ok k → first k ≡ prefix_tx_offs
unfolding make_tx_offsets_key
first-make_tx_offsets_key = first-height_key prefix_tx_offs

names-first :
    (r : Result Bytes) (prefix : ℕ) (k : Bytes)
    → ((j : Bytes) → r ≡ ok j → first j ≡ prefix)
    → names r k ≡ true
    → first k ≡ prefix
names-first (ok j) prefix k h e = ap first (sym ((bytes_eq_iff j k).0 e)) ∙ h j refl
names-first (err x) prefix k h e = absurd (cc)

-- One more key.
touched-Puts :
    (a b : Batch) (key : Result Bytes) (k : Bytes)
    → Puts a b key
    → touched b k ≡ (touched a k || names key k)
unfolding touched
touched-Puts a b key k (j, v, ej, eb) =
    ap (λ (x : Batch). touched x k) eb ∙ touched-append a (put j v ∷ []) k ∙ ground (arith, ej)

Stays-Puts :
    (a b : Batch) (key : Result Bytes) (created : List UndoOutput)
    → Puts a b key
    → Stays a created
    → Stays b created
Stays-Puts a b key created (k, v, ek, eb) h =
    subst (λ (x : Batch). Stays x created) (sym eb) (Stays-put a k v created h)

-- What the whole batch touches besides, and the undo record in it.
pub record Finished (batch after : Batch) (u : UndoBlock) : Type 0 where
  pub keeps : (created : List UndoOutput) → Stays batch created → Stays after created
  pub undo_key : Bytes
  pub undo_bytes : Bytes
  pub is_key : make_undo_key u.height u.block_hash ≡ ok undo_key
  pub is_encoded : encode_undo_block u ≡ ok undo_bytes
  pub is_there : (now : Bytes → Option Bytes) → overlay after now undo_key ≡ some undo_bytes
  pub covers :
      (k : Bytes)
      → touched after k ≡ true
      → (touched batch k
          || (names (make_header_key u.height) k
              || (names (make_block_txids_key u.height) k
                  || (names (make_undo_key u.height u.block_hash) k || aside k))))
        ≡ true

-- The checkpoint behind the record does not hide it.
there :
    (a b after : Batch) (k v w : Bytes) (now : Bytes → Option Bytes)
    → b ≡ then_put a k v
    → after ≡ then_put b key_checkpoint w
    → first k ≡ prefix_undo
    → overlay after now k ≡ some v
there a b after k v w now e e' f =
    ap (λ (x : Batch). overlay x now k) e'
    ∙ overlay-then b (put key_checkpoint w) now k
    ∙ ap (λ (x : Batch). if bytes_eq key_checkpoint k then some w else overlay x now k) e
    ∙ ground
        (arith, f, overlay-then a (put k v) now k, bytes_eq_iff key_checkpoint k, bytes_eq_iff k k)

all_covered :
    (u : UndoBlock) (k : Bytes) (batch b₁ b₂ b₃ b₄ b₅ after : Batch)
    → touched b₁ k ≡ (touched batch k || names (make_header_key u.height) k)
    → touched b₂ k ≡ (touched b₁ k || names (make_block_txids_key u.height) k)
    → touched b₃ k ≡ (touched b₂ k || names (make_tx_blob_key u.height) k)
    → touched b₄ k ≡ (touched b₃ k || names (make_tx_offsets_key u.height) k)
    → touched b₅ k ≡ (touched b₄ k || names (make_undo_key u.height u.block_hash) k)
    → touched after k ≡ (touched b₅ k || names (ok key_checkpoint) k)
    → touched after k ≡ true
    → (touched batch k
        || (names (make_header_key u.height) k
            || (names (make_block_txids_key u.height) k
                || (names (make_undo_key u.height u.block_hash) k || aside k))))
      ≡ true
all_covered u k batch b₁ b₂ b₃ b₄ b₅ after t₁ t₂ t₃ t₄ t₅ t₆ t = ground (
  arith,
  t₁,
  t₂,
  t₃,
  t₄,
  t₅,
  t₆,
  t,
  names-first (make_tx_blob_key u.height) prefix_tx_blob k (first-make_tx_blob_key u.height),
  names-first (make_tx_offsets_key u.height) prefix_tx_offs k (first-make_tx_offsets_key u.height),
  names-first (ok key_checkpoint) b'c' k
      (λ (j : Bytes) (e : ok key_checkpoint ≡ ok j). ap first (sym (ok_injective e))),
)

pub finish_batch-Finished :
    (c : Codecs) (batch after : Batch) (u : UndoBlock) (header : Bytes) (txids : List Bytes)
    (blob : Bytes) (offsets : List ℕ) (k : Checkpoint)
    → finish_batch c batch u header txids blob offsets k ≡ ok after
    → Finished batch after u
unfolding finish_batch save_checkpoint_in_batch
finish_batch-Finished c batch after u header txids blob offsets checkpoint e =
    let (b₁, e₁, r₁) = >>=-eq-ok (save_header_in_batch batch u.height header) _ e in
    let (b₂, e₂, r₂) = >>=-eq-ok (save_block_txids_in_batch b₁ u.height txids) _ r₁ in
    let (b₃, e₃, r₃) = >>=-eq-ok (save_tx_blob_in_batch c b₂ u.height blob) _ r₂ in
    let (b₄, e₄, r₄) = >>=-eq-ok (save_tx_offsets_in_batch b₃ u.height offsets) _ r₃ in
    let (b₅, e₅, r₅) = >>=-eq-ok (save_undo_in_batch b₄ u u.block_hash) _ r₄ in
    let (ku, vu, eku, evu, eb₅) = save_undo_inv b₄ b₅ u u.block_hash e₅ in
    record {
      keeps = λ created h.
          Stays-Puts b₅ after (ok key_checkpoint) created
            (key_checkpoint, c.marshal checkpoint, refl, sym (ok_injective r₅))
            (Stays-Puts b₄ b₅ (make_undo_key u.height u.block_hash) created (ku, vu, eku, eb₅)
              (Stays-Puts b₃ b₄ _ created (save_offsets-Puts b₃ b₄ u.height offsets e₄) (
                Stays-Puts b₂ b₃ _ created (save_blob-Puts c b₂ b₃ u.height blob e₃) (
                  Stays-Puts b₁ b₂ _ created (save_txids-Puts b₁ b₂ u.height txids e₂) (
                    Stays-Puts batch b₁ _ created (save_header-Puts batch b₁ u.height header e₁)
                      h)))));
      undo_key = ku;
      undo_bytes = vu;
      is_key = eku;
      is_encoded = evu;
      is_there = λ now.
          there b₄ b₅ after ku vu (c.marshal checkpoint) now eb₅ (sym (ok_injective r₅))
            (make_undo_key_inv u.height u.block_hash ku eku).2;
      covers = λ k t.
          all_covered u k batch b₁ b₂ b₃ b₄ b₅ after
            (touched-Puts batch b₁ _ k (save_header-Puts batch b₁ u.height header e₁))
            (touched-Puts b₁ b₂ _ k (save_txids-Puts b₁ b₂ u.height txids e₂))
            (touched-Puts b₂ b₃ _ k (save_blob-Puts c b₂ b₃ u.height blob e₃))
            (touched-Puts b₃ b₄ _ k (save_offsets-Puts b₃ b₄ u.height offsets e₄))
            (touched-Puts b₄ b₅ _ k (ku, vu, eku, eb₅))
            (touched-Puts b₅ after (ok key_checkpoint) k
              (key_checkpoint, c.marshal checkpoint, refl, sym (ok_injective r₅)))
            t;
    }
