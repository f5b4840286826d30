-- ===== src/Indexer/Block/Keys.antt =====
-- The first bytes of the keys that IndexBlock writes, and the lengths that an undo record has when it
-- can be written.
use electrum_go.Base.{ℕ, false, not, ◌≡◌, ap, sym, List, [], ◌∷◌, length, ◌==◌, ==_iff, All, arith}
use electrum_go.Base.Int.{ℤ, is_negative}
use electrum_go.Base.Bytes.{Bytes}
use electrum_go.Base.Result.{ok, guard_inv, >>=-eq-ok, ok_injective}
use electrum_go.Storage.Keys.{
  first, outpoint_key, make_utxo_key, make_tx_index_key, make_undo_key, make_tx_pos_key,
  make_mempool_key, height_key, prefix_utxo, prefix_tx_index, prefix_undo, prefix_tx_pos,
  prefix_mempool,
}
use electrum_go.Storage.Undo.{
  UndoOutput, UndoHistory, UndoBlock, write_all, write_output, write_history, encode_undo_block,
}
use electrum_go.Storage.Undo.RoundTrip.{encode_inv}
use electrum_go.Indexer.Rollback.Undone.{SizedOutput, IsSized}

first-outpoint_key :
    (prefix : ℕ) (sh txid : Bytes) (vout : ℕ) (k : Bytes)
    → outpoint_key prefix sh txid vout ≡ ok k
    → first k ≡ prefix
first-outpoint_key prefix sh txid vout k e =
    let (a, e₁) = guard_inv (length sh == 32) _ _ e in
    let (b, e₂) = guard_inv (length txid == 32) _ _ e₁ in ap first (sym (ok_injective e₂))

pub first-make_utxo_key :
    (sh txid : Bytes) (vout : ℕ) (k : Bytes)
    → make_utxo_key sh txid vout ≡ ok k
    → first k ≡ prefix_utxo
unfolding make_utxo_key
first-make_utxo_key = first-outpoint_key prefix_utxo

pub first-make_mempool_key :
    (sh txid : Bytes) (vout : ℕ) (k : Bytes)
    → make_mempool_key sh txid vout ≡ ok k
    → first k ≡ prefix_mempool
unfolding make_mempool_key
first-make_mempool_key = first-outpoint_key prefix_mempool

pub first-make_tx_index_key :
    (txid : Bytes) (vout : ℕ) (k : Bytes)
    → make_tx_index_key txid vout ≡ ok k
    → first k ≡ prefix_tx_index
unfolding make_tx_index_key
first-make_tx_index_key txid vout k e =
    let (a, e₁) = guard_inv (length txid == 32) _ _ e in ap first (sym (ok_injective e₁))

pub first-make_tx_pos_key :
    (txid : Bytes) (k : Bytes) → make_tx_pos_key txid ≡ ok k → first k ≡ prefix_tx_pos
unfolding make_tx_pos_key
first-make_tx_pos_key txid k e =
    let (a, e₁) = guard_inv (length txid == 32) _ _ e in ap first (sym (ok_injective e₁))

pub first-height_key :
    (prefix : ℕ) (height : ℤ) (k : Bytes) → height_key prefix height ≡ ok k → first k ≡ prefix
first-height_key prefix height k e =
    let (a, e₁) = guard_inv (not (is_negative height)) _ _ e in ap first (sym (ok_injective e₁))

-- A key of an undo record has a hash of 32 bytes, and a height that is not negative.
pub make_undo_key_inv :
    (height : ℤ) (hash k : Bytes)
    → make_undo_key height hash ≡ ok k
    → (length hash ≡ 32) × (is_negative height ≡ false) × (first k ≡ prefix_undo)
unfolding make_undo_key
make_undo_key_inv height hash k e =
    let (a, e₁) = guard_inv (length hash == 32) _ _ e in
    let (b, e₂) = guard_inv (not (is_negative height)) _ _ e₁ in
    ((==_iff (length hash) 32).0 a, ground (arith, b), ap first (sym (ok_injective e₂)))

sized_outputs :
    (os : List UndoOutput) (b : Bytes) → write_all write_output os ≡ ok b → All SizedOutput os
unfolding write_all write_output
sized_outputs [] b e = tt
sized_outputs (o ∷ os) b e =
    let (x, ex, rest) = >>=-eq-ok (write_output o) _ e in
    let (y, ey, done) = >>=-eq-ok (write_all write_output os) _ rest in
    let (a, e₁) = guard_inv (length o.scripthash == 32) _ _ ex in
    let (b', e₂) = guard_inv (length o.txid == 32) _ _ e₁ in
    (((==_iff _ 32).0 a, (==_iff _ 32).0 b'), sized_outputs os y ey)

sized_history :
    (hs : List UndoHistory) (b : Bytes)
    → write_all write_history hs ≡ ok b
    → All (λ h. length h.scripthash ≡ 32) hs
unfolding write_all write_history
sized_history [] b e = tt
sized_history (h ∷ hs) b e =
    let (x, ex, rest) = >>=-eq-ok (write_history h) _ e in
    let (y, ey, done) = >>=-eq-ok (write_all write_history hs) _ rest in
    let (a, e₁) = guard_inv (length h.scripthash == 32) _ _ ex in
    ((==_iff _ 32).0 a, sized_history hs y ey)

pub encode_undo_block-IsSized : (u : UndoBlock) (b : Bytes) → encode_undo_block u ≡ ok b → IsSized u
encode_undo_block-IsSized u b e =
    let (hb, hp, s, c, h, es, ec, eh, eb) = encode_inv u b e in
    record {
      created = sized_outputs u.created_outputs c ec;
      spent = sized_outputs u.spent_outputs s es;
      history = sized_history u.history_entries h eh;
    }
