-- ===== src/Indexer/Block/Layout.antt =====
-- Where IndexBlock puts the bytes of its transactions: only place_tx writes into the blob and the offsets.
use mathlib.Core.List.{append_assoc, append-nil}
use electrum_go.Base.{
  ℕ, suc, ◌+◌, ◌%◌, ◌^◌, ◌<◌, ◌≡◌, refl, sym, ap, ◌∙◌, subst, inl, inr, true, false, Bool, ◌||◌,
  Option, none, some, List, [], ◌∷◌, ◌++◌, length, length-append, map, Bool-cases, ◌==◌,
  if◌then◌else◌, arith,
}
use electrum_go.Base.Int.{ℤ, pos, eq_int}
use electrum_go.Base.Bytes.{Bytes}
use electrum_go.Base.Hex.{hex_decode}
use electrum_go.Base.Map.{bytes_key, has}
use electrum_go.Base.Sets.{keys}
use electrum_go.Base.Result.{ok, ok_injective, >>=-eq-ok, Result-cases}
use electrum_go.Storage.Keys.{make_utxo_key, make_tx_index_key, make_history_key}
use electrum_go.Storage.Values.{UtxoValue}
use electrum_go.Storage.Undo.{UndoOutput}
use electrum_go.Storage.Pebble.{Pebble}
use electrum_go.Storage.Database.{get_utxo, get_scripthash_for_outpoint, save_tx_pos_in_batch}
use electrum_go.Indexer.Types.{is_coinbase_input, is_op_return}
use electrum_go.Indexer.Wire.{TxIn, TxOut, Tx, Wire}
use electrum_go.Indexer.Mempool.{MempoolOverlay}
use electrum_go.Indexer.Mempool.Queries.{remove_output}
use electrum_go.Indexer.Block.{
  returned, ◌>>=◌ as ◌>>>◌, attempt, then_inv, attempt_inv, returned_injective, index_input,
  index_inputs, leave_mempool, index_tx, index_txs, start,
}
use electrum_go.Indexer.Block.Entries.{
  Indexing, place_tx, spend_output, created_undo, create_output, index_outputs, write_history_entry,
  index_history, index_histories,
}

-- Texts behind one another, and where each of them begins.
abbrev pub joined : List Bytes → Bytes
joined [] = []
joined (raw ∷ raws) = raw ++ joined raws

abbrev pub starts : ℕ → List Bytes → List ℕ
starts n [] = []
starts n (raw ∷ raws) = n ∷ starts (n + length raw) raws

module _ {Db : Type 0} where
  -- The blob and the offsets are the same.
  abbrev pub SameBlob : Indexing Db → Indexing Db → Type 0
  SameBlob s s' = (s'.blob ≡ s.blob) × (s'.offsets ≡ s.offsets)

  then_same : (s x s' : Indexing Db) → SameBlob s x → SameBlob x s' → SameBlob s s'
  then_same s x s' (b, o) (b', o') = (b' ∙ b, o' ∙ o)

  spend_output-SameBlob :
      (s s' : Indexing Db) (i : TxIn) (sh : Bytes) (u : UtxoValue)
      → spend_output s i sh u ≡ ok s'
      → SameBlob s s'
  unfolding spend_output
  spend_output-SameBlob s s' i sh u e =
      let (k, ek, r) = >>=-eq-ok (make_utxo_key sh i.prev_hash i.prev_index) _ e in
      let (j, ej, r') = >>=-eq-ok (make_tx_index_key i.prev_hash i.prev_index) _ r in
      subst (SameBlob s) (ok_injective r') (refl, refl)

  create_output-SameBlob :
      (s s' : Indexing Db) (o : UndoOutput) → create_output s o ≡ ok s' → SameBlob s s'
  unfolding create_output
  create_output-SameBlob s s' o e =
      let (k, ek, r) = >>=-eq-ok (make_utxo_key o.scripthash o.txid o.vout) _ e in
      let (j, ej, r') = >>=-eq-ok (make_tx_index_key o.txid o.vout) _ r in
      subst (SameBlob s) (ok_injective r') (refl, refl)

  index_outputs-SameBlob :
      (w : Wire) (height : ℤ) (block_hash txid : Bytes) (s s' : Indexing Db) (vout : ℕ)
      (os : List TxOut)
      → index_outputs w height block_hash txid s vout os ≡ ok s'
      → SameBlob s s'
  unfolding index_outputs
  index_outputs-SameBlob w height block_hash txid s s' vout [] e =
      subst (SameBlob s) (ok_injective e) (refl, refl)
  index_outputs-SameBlob w height block_hash txid s s' vout (o ∷ os) e =
      elim (Bool-cases (is_op_return o.pk_script || eq_int o.value (pos 0))) [
        | inl b ↦
            index_outputs-SameBlob w height block_hash txid s s' (suc vout) os
              (rw (b, index_outputs) at e)
        | inr b ↦
            let new_output = created_undo w height block_hash txid vout o in
            let (x, ex, r) =
              >>=-eq-ok (create_output s new_output) _ (rw (b, index_outputs) at e) in
            then_same s x s' (create_output-SameBlob s x new_output ex)
              (index_outputs-SameBlob w height block_hash txid x s' (suc vout) os r)
      ]

  index_history-SameBlob :
      (height : ℤ) (tx_index : ℕ) (txid_hex : Bytes) (s s' : Indexing Db) (sh_hex : Bytes)
      → index_history height tx_index txid_hex s sh_hex ≡ ok s'
      → SameBlob s s'
  unfolding index_history write_history_entry
  index_history-SameBlob height tx_index txid_hex s s' sh_hex e =
      elim (Bool-cases (has s.added (sh_hex ++ (b':' ∷ txid_hex)))) [
        | inl b ↦ subst (SameBlob s) (ok_injective (rw (b, index_history) at e)) (refl, refl)
        | inr b ↦ elim (Result-cases (hex_decode sh_hex)) [
          | inl (sh, d) ↦
              let (k, ek, r) =
                >>=-eq-ok (make_history_key sh height tx_index s.history_index) _
                  (rw (d, index_history) at (rw (b, index_history) at e)) in
              subst (SameBlob s) (ok_injective r) (refl, refl)
          | inr (x, d) ↦
              subst (SameBlob s)
                (ok_injective (rw (d, index_history) at (rw (b, index_history) at e))) (refl, refl)
        ]
      ]

  index_histories-SameBlob :
      (height : ℤ) (tx_index : ℕ) (txid_hex : Bytes) (s s' : Indexing Db) (ks : List Bytes)
      → index_histories height tx_index txid_hex s ks ≡ ok s'
      → SameBlob s s'
  unfolding index_histories
  index_histories-SameBlob height tx_index txid_hex s s' [] e =
      subst (SameBlob s) (ok_injective e) (refl, refl)
  index_histories-SameBlob height tx_index txid_hex s s' (k ∷ ks) e =
      let (x, ex, r) = >>=-eq-ok (index_history height tx_index txid_hex s k) _ e in
      then_same s x s' (index_history-SameBlob height tx_index txid_hex s x k ex)
        (index_histories-SameBlob height tx_index txid_hex x s' ks r)

module _ (p : Pebble) where
  input_SameBlob :
      (s s' : Indexing p.Db) (i : TxIn) (sh : Bytes) (utxo : Option UtxoValue)
      → (elim utxo [ none ↦ ok s | some u ↦ spend_output s i sh u ]) ≡ ok s'
      → SameBlob s s'
  input_SameBlob s s' i sh none e = subst (SameBlob s) (ok_injective e) (refl, refl)
  input_SameBlob s s' i sh (some u) e = spend_output-SameBlob s s' i sh u e

  found_SameBlob :
      (s s' : Indexing p.Db) (i : TxIn) (found : Option Bytes)
      → (elim found [
        | none ↦ returned s
        | some sh ↦ attempt s.overlay s.db (get_utxo p s.db sh i.prev_hash i.prev_index) >>> λ utxo.
            attempt s.overlay s.db (elim utxo [ none ↦ ok s | some u ↦ spend_output s i sh u ])
            >>> λ spent.
                returned
                  (record spent { overlay = remove_output spent.overlay i.prev_hash i.prev_index })
      ])
        ≡ returned s'
      → SameBlob s s'
  found_SameBlob s s' i none e = subst (SameBlob s) (returned_injective e) (refl, refl)
  found_SameBlob s s' i (some sh) e =
      let (utxo, eu, r) =
        then_inv (attempt s.overlay s.db (get_utxo p s.db sh i.prev_hash i.prev_index)) _ e in
      let (x, ex, r') =
        then_inv
          (attempt s.overlay s.db (elim utxo [ none ↦ ok s | some u ↦ spend_output s i sh u ])) _
          r in
      let (b, o) = input_SameBlob s x i sh utxo (attempt_inv s.overlay s.db _ ex) in
      subst (SameBlob s) (returned_injective r') (b, o)

  index_input-SameBlob :
      (s s' : Indexing p.Db) (i : TxIn) → index_input p s i ≡ returned s' → SameBlob s s'
  unfolding index_input
  index_input-SameBlob s s' i e = elim (Bool-cases (is_coinbase_input i.prev_hash)) [
    | inl b ↦ subst (SameBlob s) (returned_injective (rw (b, index_input) at e)) (refl, refl)
    | inr b ↦
        let (found, ef, r) =
          then_inv
            (attempt s.overlay s.db (get_scripthash_for_outpoint p s.db i.prev_hash i.prev_index)) _
            (rw (b, index_input) at e) in
        found_SameBlob s s' i found r
  ]

  index_inputs-SameBlob :
      (s s' : Indexing p.Db) (is' : List TxIn) → index_inputs p s is' ≡ returned s' → SameBlob s s'
  unfolding index_inputs
  index_inputs-SameBlob s s' [] e = subst (SameBlob s) (returned_injective e) (refl, refl)
  index_inputs-SameBlob s s' (i ∷ is') e =
      let (x, ex, r) = then_inv (index_input p s i) _ e in
      then_same s x s' (index_input-SameBlob s x i ex) (index_inputs-SameBlob x s' is' r)

  inputs_SameBlob :
      (s s' : Indexing p.Db) (first_tx : Bool) (is' : List TxIn)
      → (if first_tx then returned s else index_inputs p s is') ≡ returned s'
      → SameBlob s s'
  inputs_SameBlob s s' true is' e = subst (SameBlob s) (returned_injective e) (refl, refl)
  inputs_SameBlob s s' false is' e = index_inputs-SameBlob s s' is' e

  -- The bytes of one transaction go behind the others, with their start.
  abbrev pub Placed : Wire → Tx → Indexing p.Db → Indexing p.Db → Type 0
  Placed w tx s s' =
      (raw : Bytes) × (w.serialize_tx tx ≡ ok raw)
      × (s'.blob ≡ s.blob ++ raw)
      × (s'.offsets ≡ s.offsets ++ ((length s.blob % 2 ^ 32) ∷ []))

  place_tx-Placed :
      (w : Wire) (height : ℤ) (s s' : Indexing p.Db) (tx_index : ℕ) (tx : Tx)
      → place_tx w height s tx_index tx ≡ ok s'
      → Placed w tx s s'
  unfolding place_tx
  place_tx-Placed w height s s' tx_index tx e =
      let (raw, eraw, r) = >>=-eq-ok (w.serialize_tx tx) _ e in
      let (batch, eb, r') =
        >>=-eq-ok (save_tx_pos_in_batch s.batch (w.tx_hash tx) height (tx_index % 2 ^ 32)) _ r in
      subst (Placed w tx s) (ok_injective r') (raw, eraw, refl, refl)

  index_tx-Placed :
      (w : Wire) (height : ℤ) (block_hash : Bytes) (s s' : Indexing p.Db) (tx_index : ℕ) (tx : Tx)
      → index_tx p w height block_hash s tx_index tx ≡ returned s'
      → Placed w tx s s'
  unfolding index_tx leave_mempool
  index_tx-Placed w height block_hash s s' tx_index tx e =
      let txid = w.tx_hash tx in
      let (x₁, e₁, r₁) = then_inv (attempt s.overlay s.db (place_tx w height s tx_index tx)) _ e in
      let (x₂, e₂, r₂) =
        then_inv (if tx_index == 0 then returned x₁ else index_inputs p x₁ tx.tx_in) _ r₁ in
      let (x₃, e₃, r₃) =
        then_inv (attempt x₂.overlay x₂.db (index_outputs w height block_hash txid x₂ 0 tx.tx_out))
          _ r₂ in
      let (x₄, e₄, r₄) =
        then_inv
          (attempt x₃.overlay x₃.db
            (index_histories height (tx_index % 2 ^ 32) (w.hash_string txid) x₃ (keys x₃.touched)))
          _ r₃ in
      let (raw, eraw, b₁, o₁) =
        place_tx-Placed w height s x₁ tx_index tx (attempt_inv s.overlay s.db _ e₁) in
      let (b₂, o₂) = inputs_SameBlob x₁ x₂ (tx_index == 0) tx.tx_in e₂ in
      let (b₃, o₃) =
        index_outputs-SameBlob w height block_hash txid x₂ x₃ 0 tx.tx_out
          (attempt_inv x₂.overlay x₂.db _ e₃) in
      let (b₄, o₄) =
        index_histories-SameBlob height (tx_index % 2 ^ 32) (w.hash_string txid) x₃ x₄
          (keys x₃.touched) (attempt_inv x₃.overlay x₃.db _ e₄) in
      subst (Placed w tx s) (returned_injective r₄)
        (raw, eraw, (b₄ ∙ b₃ ∙ b₂ ∙ b₁), (o₄ ∙ o₃ ∙ o₂ ∙ o₁))

  index_txs-behind :
      (w : Wire) (height : ℤ) (block_hash : Bytes) (s s' : Indexing p.Db) (tx_index : ℕ)
      (txs : List Tx)
      → index_txs p w height block_hash s tx_index txs ≡ returned s'
      → length s'.blob < 2 ^ 32
      → (raws : List Bytes) × (map w.serialize_tx txs ≡ map ok raws)
        × (s'.blob ≡ s.blob ++ joined raws)
        × (s'.offsets ≡ s.offsets ++ starts (length s.blob) raws)
  unfolding index_txs
  index_txs-behind w height block_hash s s' tx_index [] e h =
      let same = sym (returned_injective e) in
      (
        [],
        refl,
        ap (λ (x : Indexing p.Db). x.blob) same ∙ sym (append-nil s.blob),
        ap (λ (x : Indexing p.Db). x.offsets) same ∙ sym (append-nil s.offsets),
      )
  index_txs-behind w height block_hash s s' tx_index (tx ∷ txs) e h =
      let (x, ex, r) = then_inv (index_tx p w height block_hash s tx_index tx) _ e in
      let (raw, eraw, b, o) = index_tx-Placed w height block_hash s x tx_index tx ex in
      let (raws, er, bs, os) = index_txs-behind w height block_hash x s' (suc tx_index) txs r h in
      let size : length x.blob ≡ length s.blob + length raw =
        ap length b ∙ length-append s.blob raw in
      let whole : length s'.blob ≡ length x.blob + length (joined raws) =
        ap length bs ∙ length-append x.blob (joined raws) in
      let small : length s.blob % 2 ^ 32 ≡ length s.blob = omega (arith, size, whole, h) in
      (
        raw ∷ raws,
        cc (eraw, er),
        bs ∙ ap (λ (y : Bytes). y ++ joined raws) b ∙ append_assoc s.blob raw (joined raws),
        os
            ∙ ap (λ (y : List ℕ). y ++ starts (length x.blob) raws) o
            ∙ append_assoc s.offsets ((length s.blob % 2 ^ 32) ∷ []) (starts (length x.blob) raws)
            ∙ ap (λ (n : ℕ). s.offsets ++ (n ∷ starts (length x.blob) raws)) small
            ∙ ap (λ (n : ℕ). s.offsets ++ (length s.blob ∷ starts n raws)) size,
      )

  -- Where the loop of IndexBlock returns, with less than 2^32 bytes in the blob, each transaction has
  -- been serialized, the blob is the serializations behind one another, and the offsets are their
  -- starts.
  pub index_txs-joined :
      (w : Wire) (height : ℤ) (block_hash : Bytes) (m : MempoolOverlay) (d : p.Db) (txs : List Tx)
      (s : Indexing p.Db)
      → index_txs p w height block_hash (start p m d) 0 txs ≡ returned s
      → length s.blob < 2 ^ 32
      → (raws : List Bytes) × (map w.serialize_tx txs ≡ map ok raws)
        × (s.blob ≡ joined raws)
        × (s.offsets ≡ starts 0 raws)
  index_txs-joined w height block_hash m d txs s e h =
      index_txs-behind w height block_hash (start p m d) s 0 txs e h
