-- ===== src/Indexer/Block/Loop.antt =====
-- The loop of IndexBlock over the transactions keeps what is tracked of its variables.
use electrum_go.Base.{
  ℕ, suc, ◌+◌, ◌%◌, ◌^◌, ◌≤◌, ◌<◌, ◌≡◌, refl, ap, ◌∙◌, subst, Bool, true, false, Option, some, List,
  [], ◌∷◌, length, ◌==◌, All, arith, if◌then◌else◌,
}
use electrum_go.Base.Int.{ℤ, IsI32, IsI64}
use electrum_go.Base.Bytes.{Bytes, IsBytes}
use electrum_go.Base.Map.{bytes_key, Map}
use electrum_go.Base.Sets.{keys}
use electrum_go.Base.Result.{ok, ok_injective, >>=-eq-ok}
use electrum_go.Storage.Keys.{make_tx_pos_key}
use electrum_go.Storage.Pebble.{put, Pebble}
use electrum_go.Storage.Database.{Batch, save_tx_pos_in_batch}
use electrum_go.Indexer.Wire.{TxIn, Tx, Wire}
use electrum_go.Indexer.Block.{
  returned, attempt, then_inv, attempt_inv, returned_injective, leave_mempool, index_inputs,
  index_tx, index_txs,
}
use electrum_go.Indexer.Block.Entries.{Indexing, place_tx, index_outputs, index_histories}
use electrum_go.Indexer.Block.Keys.{first-make_tx_pos_key}
use electrum_go.Indexer.Block.Untouched.{contents-remove_transaction}
use electrum_go.Indexer.Block.Tracked.{
  Covers, Covers-aside, Stays, Stays-put, NewTxid, NewHeight, Tracked, widen,
}
use electrum_go.Indexer.Block.Inputs.{index_inputs-Tracked}
use electrum_go.Indexer.Block.Outputs.{index_outputs-Tracked, index_histories-Tracked}

-- The numbers of a transaction are in the ranges of their Go types.
abbrev pub FitsTx : Tx → Type 0
FitsTx tx = All (λ i. i.prev_index < 2 ^ 32) tx.tx_in × All (λ o. IsI64 o.value) tx.tx_out

-- The number of inputs and outputs.
abbrev pub parts : Tx → ℕ
parts tx = length tx.tx_in + length tx.tx_out

unfoldable pub all_parts : List Tx → ℕ
all_parts [] = 0
all_parts (tx ∷ txs) = parts tx + all_parts txs

length-keys : (m : Map Bytes Bool) → length (keys m) ≡ length m
length-keys [] = refl
length-keys ((k, v) ∷ m) = ap suc (length-keys m)

module _ (p : Pebble) (c : Bytes → Option Bytes)
    (bytes : (k v : Bytes) → c k ≡ some v → IsBytes v) where
  removed_Tracked :
      (n k : ℕ) (s : Indexing p.Db) (txid : Bytes)
      → Tracked p c n k s
      → Tracked p c n k (leave_mempool p txid s)
  unfolding leave_mempool
  removed_Tracked n k s txid t = record {
    spent = t.spent;
    created = t.created;
    history = t.history;
    covers = t.covers;
    same = λ k h. contents-remove_transaction p s.overlay s.db txid k h ∙ t.same k h;
    outputs_room = t.outputs_room;
    history_room = t.history_room;
    index_fits = t.index_fits;
    stays = t.stays;
  }

  save_tx_pos-Covers :
      (s : Indexing p.Db) (txid : Bytes) (height : ℤ) (tx_index : ℕ) (batch : Batch)
      → save_tx_pos_in_batch s.batch txid height tx_index ≡ ok batch
      → Covers s.batch s.created s.spent s.history
      → Covers batch s.created s.spent s.history
  unfolding save_tx_pos_in_batch
  save_tx_pos-Covers s txid height tx_index batch e h =
      let (k, ek, r) = >>=-eq-ok (make_tx_pos_key txid) _ e in
      subst (λ (b : Batch). Covers b s.created s.spent s.history) (ok_injective r)
        (Covers-aside s.batch s.created s.spent s.history (put k _)
          (ground (arith, first-make_tx_pos_key txid k ek)) h)

  save_tx_pos-Stays :
      (s : Indexing p.Db) (txid : Bytes) (height : ℤ) (tx_index : ℕ) (batch : Batch)
      → save_tx_pos_in_batch s.batch txid height tx_index ≡ ok batch
      → Stays s.batch s.created
      → Stays batch s.created
  unfolding save_tx_pos_in_batch
  save_tx_pos-Stays s txid height tx_index batch e h =
      let (k, ek, r) = >>=-eq-ok (make_tx_pos_key txid) _ e in
      subst (λ (b : Batch). Stays b s.created) (ok_injective r) (Stays-put s.batch k _ s.created h)

  place_tx-Tracked :
      (w : Wire) (height : ℤ) (n : ℕ) (s s' : Indexing p.Db) (tx_index : ℕ) (tx : Tx)
      → place_tx w height s tx_index tx ≡ ok s'
      → Tracked p c n 0 s
      → Tracked p c n (length s'.touched) s'
  unfolding place_tx
  place_tx-Tracked w height n s s' tx_index tx e t =
      let (raw, eraw, r) = >>=-eq-ok (w.serialize_tx tx) _ e in
      let (batch, eb, r') =
        >>=-eq-ok (save_tx_pos_in_batch s.batch (w.tx_hash tx) height (tx_index % 2 ^ 32)) _ r in
      subst (λ (x : Indexing p.Db). Tracked p c n (length x.touched) x) (ok_injective r')
        (record {
          spent = t.spent;
          created = t.created;
          history = t.history;
          covers = save_tx_pos-Covers s (w.tx_hash tx) height (tx_index % 2 ^ 32) batch eb t.covers;
          same = t.same;
          outputs_room = t.outputs_room;
          history_room = t.history_room;
          index_fits = t.index_fits;
          stays = save_tx_pos-Stays s (w.tx_hash tx) height (tx_index % 2 ^ 32) batch eb t.stays;
        })

  drawn_Tracked :
      (n m : ℕ) (s s' : Indexing p.Db) (first_tx : Bool) (is' : List TxIn)
      → n + length is' ≤ m
      → All (λ i. i.prev_index < 2 ^ 32) is'
      → (if first_tx then returned s else index_inputs p s is') ≡ returned s'
      → Tracked p c n (length s.touched) s
      → Tracked p c m (length s'.touched) s'
  drawn_Tracked n m s s' true is' h fi e t =
      subst (λ (x : Indexing p.Db). Tracked p c m (length x.touched) x) (returned_injective e)
        (widen p c n (length s.touched) m (length s.touched) s (omega (arith, h)) (omega arith) t)
  drawn_Tracked n m s s' false is' h fi e t = index_inputs-Tracked p c bytes n m s s' is' h fi e t

  index_tx-Tracked :
      (w : Wire) (height : ℤ) (block_hash : Bytes) (n m : ℕ) (s s' : Indexing p.Db) (tx_index : ℕ)
      (tx : Tx)
      → n + parts tx ≤ m
      → IsI32 height
      → FitsTx tx
      → NewTxid c (w.tx_hash tx)
      → NewHeight c height
      → index_tx p w height block_hash s tx_index tx ≡ returned s'
      → Tracked p c n 0 s
      → Tracked p c m 0 s'
  unfolding index_tx
  index_tx-Tracked w height block_hash n m s s' tx_index tx h fh (fi, fo) fresh unused e t =
      let txid = w.tx_hash tx in
      let (placed, e₁, r₁) =
        then_inv (attempt s.overlay s.db (place_tx w height s tx_index tx)) _ e in
      let (drawn, e₂, r₂) =
        then_inv (if tx_index == 0 then returned placed else index_inputs p placed tx.tx_in) _ r₁ in
      let (paid, e₃, r₃) =
        then_inv
          (attempt drawn.overlay drawn.db
            (index_outputs w height block_hash txid drawn 0 tx.tx_out))
          _ r₂ in
      let (listed, e₄, r₄) =
        then_inv
          (attempt paid.overlay paid.db (
            index_histories height (tx_index % 2 ^ 32) (w.hash_string txid) paid
              (keys paid.touched)))
          _ r₃ in
      let t₁ =
        place_tx-Tracked w height n s placed tx_index tx (attempt_inv s.overlay s.db _ e₁) t in
      let t₂ =
        drawn_Tracked n (n + length tx.tx_in) placed drawn (tx_index == 0) tx.tx_in (omega arith) fi
          e₂ t₁ in
      let t₃ =
        index_outputs-Tracked p c w height block_hash txid (n + length tx.tx_in) m drawn paid 0
          tx.tx_out (omega (arith, h)) fh fresh fo (attempt_inv drawn.overlay drawn.db _ e₃) t₂ in
      let t₄ =
        index_histories-Tracked p c height (tx_index % 2 ^ 32) (w.hash_string txid) m paid listed
          (keys paid.touched) fh (omega arith) unused (attempt_inv paid.overlay paid.db _ e₄)
          (rw (length-keys paid.touched) t₃) in
      subst (Tracked p c m 0) (returned_injective r₄) (removed_Tracked m 0 listed txid t₄)

  pub index_txs-Tracked :
      (w : Wire) (height : ℤ) (block_hash : Bytes) (n : ℕ) (s s' : Indexing p.Db) (tx_index : ℕ)
      (txs : List Tx)
      → IsI32 height
      → All FitsTx txs
      → All (λ tx. NewTxid c (w.tx_hash tx)) txs
      → NewHeight c height
      → index_txs p w height block_hash s tx_index txs ≡ returned s'
      → Tracked p c n 0 s
      → Tracked p c (n + all_parts txs) 0 s'
  unfolding index_txs all_parts
  index_txs-Tracked w height block_hash n s s' tx_index [] fh fits fresh unused e t =
      subst (Tracked p c (n + 0) 0) (returned_injective e)
        (widen p c n 0 (n + 0) 0 s (omega arith) (omega arith) t)
  index_txs-Tracked w height block_hash n s s' tx_index (tx ∷ txs) fh (f, fits) (g, fresh) unused e
        t =
      let (x, ex, r) = then_inv (index_tx p w height block_hash s tx_index tx) _ e in
      let t' =
        index_txs-Tracked w height block_hash (n + parts tx) x s' (suc tx_index) txs fh fits fresh
          unused r
          (index_tx-Tracked w height block_hash n (n + parts tx) s x tx_index tx (omega arith) fh f
            g unused ex t) in
      subst (λ (k : ℕ). Tracked p c k 0 s') (omega arith) t'
