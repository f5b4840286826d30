-- ===== src/Indexer/Block/Created.antt =====
-- The outputs that IndexBlock enters as created are those of the block's transactions, in order.
use electrum_go.Base.{
  ℕ, suc, ◌%◌, ◌^◌, ◌≡◌, sym, ap, ◌∙◌, inl, inr, Bool, true, false, ◌||◌, Bool-cases, Option, none,
  some, List, [], ◌∷◌, ◌++◌, ◌==◌, if◌then◌else◌,
}
use mathlib.Core.List.{append_assoc, append-nil}
use electrum_go.Base.Int.{ℤ, pos, eq_int}
use electrum_go.Base.Bytes.{Bytes}
use electrum_go.Base.Hex.{hex_decode}
use electrum_go.Base.Map.{bytes_key, has}
use electrum_go.Base.Sets.{keys}
use electrum_go.Base.Result.{ok, ok_injective, >>=-eq-ok, Result-cases}
use electrum_go.Storage.Keys.{make_utxo_key, make_tx_index_key, make_history_key}
use electrum_go.Storage.Values.{UtxoValue}
use electrum_go.Storage.Undo.{UndoOutput, UndoHistory}
use electrum_go.Storage.Pebble.{Pebble}
use electrum_go.Storage.Database.{save_tx_pos_in_batch, get_utxo, get_scripthash_for_outpoint}
use electrum_go.Indexer.Types.{is_op_return, is_coinbase_input}
use electrum_go.Indexer.Wire.{TxIn, TxOut, Tx, Wire}
use electrum_go.Indexer.Mempool.Queries.{remove_output}
use electrum_go.Indexer.Block.{
  returned, ◌>>=◌ as ◌>>>◌, attempt, then_inv, attempt_inv, returned_injective, index_input,
  index_inputs, leave_mempool, index_tx, index_txs,
}
use electrum_go.Indexer.Block.Entries.{
  Indexing, created_undo, place_tx, spend_output, create_output, index_outputs, write_history_entry,
  index_history, index_histories,
}

-- The outputs of a transaction that the index takes, from the number `vout` on.
unfoldable pub outputs_of : Wire → ℤ → Bytes → Bytes → ℕ → List TxOut → List UndoOutput
outputs_of w height block_hash txid vout [] = []
outputs_of w height block_hash txid vout (o ∷ os) =
    let rest = outputs_of w height block_hash txid (suc vout) os in
    if is_op_return o.pk_script || eq_int o.value (pos 0)
    then rest
    else created_undo w height block_hash txid vout o ∷ rest

unfoldable pub all_outputs_of : Wire → ℤ → Bytes → List Tx → List UndoOutput
all_outputs_of w height block_hash [] = []
all_outputs_of w height block_hash (tx ∷ txs) =
    outputs_of w height block_hash (w.tx_hash tx) 0 tx.tx_out
    ++ all_outputs_of w height block_hash txs

module _ {Db : Type 0} where
  created-create_output :
      (s s' : Indexing Db) (o : UndoOutput)
      → create_output s o ≡ ok s'
      → s'.created ≡ s.created ++ (o ∷ [])
  unfolding create_output
  created-create_output s s' o e =
      let (k, ek, r) = >>=-eq-ok (make_utxo_key o.scripthash o.txid o.vout) _ e in
      let (j, ej, r') = >>=-eq-ok (make_tx_index_key o.txid o.vout) _ r in
      ap (λ (x : Indexing Db). x.created) (sym (ok_injective r'))

  created-index_outputs :
      (w : Wire) (height : ℤ) (block_hash txid : Bytes) (s s' : Indexing Db) (vout : ℕ)
      (os : List TxOut)
      → index_outputs w height block_hash txid s vout os ≡ ok s'
      → s'.created ≡ s.created ++ outputs_of w height block_hash txid vout os
  unfolding index_outputs outputs_of
  created-index_outputs w height block_hash txid s s' vout [] e =
      ap (λ (x : Indexing Db). x.created) (sym (ok_injective e)) ∙ sym (append-nil s.created)
  created-index_outputs w height block_hash txid s s' vout (o ∷ os) e =
      elim (Bool-cases (is_op_return o.pk_script || eq_int o.value (pos 0))) [
        | inl b ↦ rw b (
            created-index_outputs w height block_hash txid s s' (suc vout) os
              (rw (b, index_outputs) at e))
        | inr b ↦
            let u = created_undo w height block_hash txid vout o in
            let (x, ex, r) = >>=-eq-ok (create_output s u) _ (rw (b, index_outputs) at e) in
            rw b (
              created-index_outputs w height block_hash txid x s' (suc vout) os r
              ∙ ap (λ (l : List UndoOutput). l ++ outputs_of w height block_hash txid (suc vout) os)
                  (created-create_output s x u ex)
              ∙ append_assoc s.created (u ∷ []) (outputs_of w height block_hash txid (suc vout) os))
      ]

  created-spend_output :
      (s s' : Indexing Db) (i : TxIn) (sh : Bytes) (u : UtxoValue)
      → spend_output s i sh u ≡ ok s'
      → s'.created ≡ s.created
  unfolding spend_output
  created-spend_output s s' i sh u e =
      let (k, ek, r) = >>=-eq-ok (make_utxo_key sh i.prev_hash i.prev_index) _ e in
      let (j, ej, r') = >>=-eq-ok (make_tx_index_key i.prev_hash i.prev_index) _ r in
      ap (λ (x : Indexing Db). x.created) (sym (ok_injective r'))

  created-place_tx :
      (w : Wire) (height : ℤ) (s s' : Indexing Db) (tx_index : ℕ) (tx : Tx)
      → place_tx w height s tx_index tx ≡ ok s'
      → s'.created ≡ s.created
  unfolding place_tx
  created-place_tx w height s s' tx_index tx e =
      let (raw, eraw, r) = >>=-eq-ok (w.serialize_tx tx) _ e in
      let (batch, eb, r') =
        >>=-eq-ok (save_tx_pos_in_batch s.batch (w.tx_hash tx) height (tx_index % 2 ^ 32)) _ r in
      ap (λ (x : Indexing Db). x.created) (sym (ok_injective r'))

  created-write_history_entry :
      (s s' : Indexing Db) (h : UndoHistory)
      → write_history_entry s h ≡ ok s'
      → s'.created ≡ s.created
  unfolding write_history_entry
  created-write_history_entry s s' h e =
      let (key, ek, r) =
        >>=-eq-ok (make_history_key h.scripthash h.height h.tx_index h.index) _ e in
      ap (λ (x : Indexing Db). x.created) (sym (ok_injective r))

  created-index_history :
      (height : ℤ) (tx_index : ℕ) (txid_hex : Bytes) (s s' : Indexing Db) (sh_hex : Bytes)
      → index_history height tx_index txid_hex s sh_hex ≡ ok s'
      → s'.created ≡ s.created
  unfolding index_history
  created-index_history height tx_index txid_hex s s' sh_hex e =
      elim (Bool-cases (has s.added (sh_hex ++ (b':' ∷ txid_hex)))) [
        | inl b ↦
            ap (λ (x : Indexing Db). x.created) (sym (ok_injective (rw (b, index_history) at e)))
        | inr b ↦ elim (Result-cases (hex_decode sh_hex)) [
          | inl (scripthash, d) ↦
              created-write_history_entry _ s' _
                (rw (d, index_history) at (rw (b, index_history) at e))
          | inr (x, d) ↦
              ap (λ (y : Indexing Db). y.created)
                (sym (ok_injective (rw (d, index_history) at (rw (b, index_history) at e))))
        ]
      ]

  created-index_histories :
      (height : ℤ) (tx_index : ℕ) (txid_hex : Bytes) (s s' : Indexing Db) (ks : List Bytes)
      → index_histories height tx_index txid_hex s ks ≡ ok s'
      → s'.created ≡ s.created
  unfolding index_histories
  created-index_histories height tx_index txid_hex s s' [] e =
      ap (λ (x : Indexing Db). x.created) (sym (ok_injective e))
  created-index_histories height tx_index txid_hex s s' (k ∷ ks) e =
      let (x, ex, r) = >>=-eq-ok (index_history height tx_index txid_hex s k) _ e in
      created-index_histories height tx_index txid_hex x s' ks r
      ∙ created-index_history height tx_index txid_hex s x k ex

module _ (p : Pebble) where
  found_created :
      (s s' : Indexing p.Db) (i : TxIn) (sh : Bytes) (utxo : Option UtxoValue)
      → (elim utxo [ none ↦ ok s | some u ↦ spend_output s i sh u ]) ≡ ok s'
      → s'.created ≡ s.created
  found_created s s' i sh none e = ap (λ (x : Indexing p.Db). x.created) (sym (ok_injective e))
  found_created s s' i sh (some u) e = created-spend_output s s' i sh u e

  indexed_created :
      (s s' : Indexing p.Db) (i : TxIn) (found : Option Bytes)
      → (elim found [
        | none ↦ returned s
        | some sh ↦ attempt s.overlay s.db (get_utxo p s.db sh i.prev_hash i.prev_index) >>> λ utxo.
            attempt s.overlay s.db (elim utxo [ none ↦ ok s | some u ↦ spend_output s i sh u ])
            >>> λ spent.
                returned
                  (record spent { overlay = remove_output spent.overlay i.prev_hash i.prev_index })
      ])
        ≡ returned s'
      → s'.created ≡ s.created
  indexed_created s s' i none e = ap (λ (x : Indexing p.Db). x.created) (sym (returned_injective e))
  indexed_created s s' i (some sh) e =
      let (utxo, eu, r) =
        then_inv (attempt s.overlay s.db (get_utxo p s.db sh i.prev_hash i.prev_index)) _ e in
      let (x, ex, r') =
        then_inv
          (attempt s.overlay s.db (elim utxo [ none ↦ ok s | some u ↦ spend_output s i sh u ])) _
          r in
      ap (λ (y : Indexing p.Db). y.created) (sym (returned_injective r'))
      ∙ found_created s x i sh utxo (attempt_inv s.overlay s.db _ ex)

  created-index_input :
      (s s' : Indexing p.Db) (i : TxIn) → index_input p s i ≡ returned s' → s'.created ≡ s.created
  unfolding index_input
  created-index_input s s' i e = elim (Bool-cases (is_coinbase_input i.prev_hash)) [
    | inl b ↦
        ap (λ (x : Indexing p.Db). x.created) (sym (returned_injective (rw (b, index_input) at e)))
    | inr b ↦
        let (found, ef, r) =
          then_inv
            (attempt s.overlay s.db (get_scripthash_for_outpoint p s.db i.prev_hash i.prev_index)) _
            (rw (b, index_input) at e) in
        indexed_created s s' i found r
  ]

  created-index_inputs :
      (s s' : Indexing p.Db) (is' : List TxIn)
      → index_inputs p s is' ≡ returned s'
      → s'.created ≡ s.created
  unfolding index_inputs
  created-index_inputs s s' [] e =
      ap (λ (x : Indexing p.Db). x.created) (sym (returned_injective e))
  created-index_inputs s s' (i ∷ is') e =
      let (x, ex, r) = then_inv (index_input p s i) _ e in
      created-index_inputs x s' is' r ∙ created-index_input s x i ex

  drawn_created :
      (s s' : Indexing p.Db) (first_tx : Bool) (is' : List TxIn)
      → (if first_tx then returned s else index_inputs p s is') ≡ returned s'
      → s'.created ≡ s.created
  drawn_created s s' true is' e = ap (λ (x : Indexing p.Db). x.created) (sym (returned_injective e))
  drawn_created s s' false is' e = created-index_inputs s s' is' e

  created-index_tx :
      (w : Wire) (height : ℤ) (block_hash : Bytes) (s s' : Indexing p.Db) (tx_index : ℕ) (tx : Tx)
      → index_tx p w height block_hash s tx_index tx ≡ returned s'
      → s'.created ≡ s.created ++ outputs_of w height block_hash (w.tx_hash tx) 0 tx.tx_out
  unfolding index_tx leave_mempool
  created-index_tx w height block_hash s s' tx_index tx e =
      let txid = w.tx_hash tx in
      let (placed, e₁, r₁) =
        then_inv (attempt s.overlay s.db (place_tx w height s tx_index tx)) _ e in
      let (drawn, e₂, r₂) =
        then_inv (if tx_index == 0 then returned placed else index_inputs p placed tx.tx_in) _ r₁ in
      let (paid, e₃, r₃) =
        then_inv
          (attempt drawn.overlay drawn.db
            (index_outputs w height block_hash txid drawn 0 tx.tx_out))
          _ r₂ in
      let (listed, e₄, r₄) =
        then_inv
          (attempt paid.overlay paid.db (
            index_histories height (tx_index % 2 ^ 32) (w.hash_string txid) paid
              (keys paid.touched)))
          _ r₃ in
      ap (λ (x : Indexing p.Db). x.created) (sym (returned_injective r₄))
      ∙ created-index_histories height (tx_index % 2 ^ 32) (w.hash_string txid) paid listed
          (keys paid.touched) (attempt_inv paid.overlay paid.db _ e₄)
      ∙ created-index_outputs w height block_hash txid drawn paid 0 tx.tx_out
          (attempt_inv drawn.overlay drawn.db _ e₃)
      ∙ ap (λ (l : List UndoOutput). l ++ outputs_of w height block_hash txid 0 tx.tx_out)
          (drawn_created placed drawn (tx_index == 0) tx.tx_in e₂
            ∙ created-place_tx w height s placed tx_index tx (attempt_inv s.overlay s.db _ e₁))

  pub created-index_txs :
      (w : Wire) (height : ℤ) (block_hash : Bytes) (s s' : Indexing p.Db) (tx_index : ℕ)
      (txs : List Tx)
      → index_txs p w height block_hash s tx_index txs ≡ returned s'
      → s'.created ≡ s.created ++ all_outputs_of w height block_hash txs
  unfolding index_txs all_outputs_of
  created-index_txs w height block_hash s s' tx_index [] e =
      ap (λ (x : Indexing p.Db). x.created) (sym (returned_injective e))
      ∙ sym (append-nil s.created)
  created-index_txs w height block_hash s s' tx_index (tx ∷ txs) e =
      let (x, ex, r) = then_inv (index_tx p w height block_hash s tx_index tx) _ e in
      let os = outputs_of w height block_hash (w.tx_hash tx) 0 tx.tx_out in
      created-index_txs w height block_hash x s' (suc tx_index) txs r
      ∙ ap (λ (l : List UndoOutput). l ++ all_outputs_of w height block_hash txs)
          (created-index_tx w height block_hash s x tx_index tx ex)
      ∙ append_assoc s.created os (all_outputs_of w height block_hash txs)
