-- ===== src/Indexer/Block/Inputs.antt =====
-- The inputs of a transaction keep what is tracked of the loop's variables.
use electrum_go.Base.{◌++◌}
use electrum_go.Base.{
  ℕ, suc, ◌+◌, ◌^◌, ◌≤◌, ◌<◌, ◌≡◌, sym, ap, ◌∙◌, subst, inl, inr, true, false, Option, none, some,
  List, [], ◌∷◌, length, ◌==◌, length-append, All, All-append, Bool-cases, arith,
}
use electrum_go.Base.Bytes.{Bytes, IsBytes}
use electrum_go.Base.Hex.{hex_encode}
use electrum_go.Base.Map.{bytes_key, length-set_le}
use electrum_go.Base.Result.{ok, ◌>>=◌, ok_injective, >>=-eq-ok}
use electrum_go.Storage.Keys.{first, make_utxo_key, make_tx_index_key, prefix_mempool}
use electrum_go.Storage.Values.{UtxoValue, decode_utxo_value}
use electrum_go.Storage.Values.RoundTrip.{decode_utxo_value_inv}
use electrum_go.Storage.Pebble.{del, Pebble}
use electrum_go.Storage.Database.{get_utxo, get_scripthash_for_outpoint}
use electrum_go.Indexer.Types.{is_coinbase_input}
use electrum_go.Indexer.Wire.{TxIn}
use electrum_go.Indexer.Mempool.{MempoolOverlay}
use electrum_go.Indexer.Mempool.Queries.{remove_output}
use electrum_go.Indexer.Block.{
  returned, ◌>>=◌ as ◌>>>◌, attempt, then_inv, attempt_inv, returned_injective, index_input,
  index_inputs,
}
use electrum_go.Indexer.Block.Entries.{Indexing, spent_undo, spend_output}
use electrum_go.Indexer.Block.Keys.{first-make_utxo_key, first-make_tx_index_key}
use electrum_go.Indexer.Block.Tracked.{SpentWas, Covers-two-spent, Stays-del, Tracked, widen}

get_utxo_inv :
    (p : Pebble) (d : p.Db) (sh txid : Bytes) (vout : ℕ) (u : UtxoValue)
    → get_utxo p d sh txid vout ≡ ok (some u)
    → (k v : Bytes) × (make_utxo_key sh txid vout ≡ ok k)
      × (p.contents d k ≡ some v)
      × (decode_utxo_value v ≡ ok u)
unfolding get_utxo
get_utxo_inv p d sh txid vout u e =
    let (k, ek, r) = >>=-eq-ok (make_utxo_key sh txid vout) _ e in
    let (found, ef, r') = >>=-eq-ok (p.read d k) _ r in
    at_found k ek found (sym (p.read_contents d k found ef)) r'
  where
    at_found :
        (k : Bytes)
        → make_utxo_key sh txid vout ≡ ok k
        → (found : Option Bytes) → p.contents d k ≡ found
        → (elim found [
          | none ↦ ok none
          | some value ↦ decode_utxo_value value >>= λ x. ok (some x)
        ])
          ≡ ok (some u)
        → (k v : Bytes) × (make_utxo_key sh txid vout ≡ ok k)
          × (p.contents d k ≡ some v)
          × (decode_utxo_value v ≡ ok u)
    at_found k ek none ef r = absurd (cc)
    at_found k ek (some v) ef r =
        let (x, ex, done) = >>=-eq-ok (decode_utxo_value v) _ r in (k, v, ek, ef, ex ∙ cc)

module _ (p : Pebble) (c : Bytes → Option Bytes) where
  -- An output that the index has before the block is as the undo record will say.
  spent_undo-SpentWas :
      (d : p.Db) (i : TxIn) (sh : Bytes) (u : UtxoValue)
      → ((k v : Bytes) → c k ≡ some v → IsBytes v)
      → ((k : Bytes) → (first k == prefix_mempool) ≡ false → p.contents d k ≡ c k)
      → i.prev_index < 2 ^ 32
      → get_scripthash_for_outpoint p d i.prev_hash i.prev_index ≡ ok (some sh)
      → get_utxo p d sh i.prev_hash i.prev_index ≡ ok (some u)
      → SpentWas c (spent_undo i sh u)
  unfolding get_scripthash_for_outpoint
  spent_undo-SpentWas d i sh u bytes same small es eu =
      let (j, ej, rj) = >>=-eq-ok (make_tx_index_key i.prev_hash i.prev_index) _ es in
      let (k, v, ek, ev, ed) = get_utxo_inv p d sh i.prev_hash i.prev_index u eu in
      let held : c k ≡ some v =
        sym (same k (ground (arith, first-make_utxo_key sh i.prev_hash i.prev_index k ek))) ∙ ev in
      let indexed : c j ≡ some sh =
        sym (same j (ground (arith, first-make_tx_index_key i.prev_hash i.prev_index j ej)))
        ∙ sym (p.read_contents d j (some sh) rj) in
      let ((fv, fh, n), again) = decode_utxo_value_inv v u (bytes k v held) ed in
      (
        λ k' e. ap c (ok_injective (sym e ∙ ek)) ∙ held ∙ ap some (sym again),
        λ j' e. ap c (ok_injective (sym e ∙ ej)) ∙ indexed,
        (small, fv, fh),
      )

  -- A single input that is spent.
  spend_output-Tracked :
      (n : ℕ) (s s' : Indexing p.Db) (i : TxIn) (sh : Bytes) (u : UtxoValue)
      → SpentWas c (spent_undo i sh u)
      → spend_output s i sh u ≡ ok s'
      → Tracked p c n (length s.touched) s
      → Tracked p c (suc n) (length s'.touched) s'
  unfolding spend_output
  spend_output-Tracked n s s' i sh u was e t =
      let (k, ek, r) = >>=-eq-ok (make_utxo_key sh i.prev_hash i.prev_index) _ e in
      let (j, ej, r') = >>=-eq-ok (make_tx_index_key i.prev_hash i.prev_index) _ r in
      subst (λ (x : Indexing p.Db). Tracked p c (suc n) (length x.touched) x) (ok_injective r')
        (record {
          spent = All-append (SpentWas c) s.spent (spent_undo i sh u ∷ []) t.spent (was, tt);
          created = t.created;
          history = t.history;
          covers =
              Covers-two-spent s.batch s.created s.spent s.history (spent_undo i sh u) (del k)
                (del j) ek ej t.covers;
          same = t.same;
          outputs_room =
              omega (arith, t.outputs_room, length-append s.spent (spent_undo i sh u ∷ []));
          history_room =
              omega (arith, t.history_room, length-set_le s.touched (hex_encode sh) true);
          index_fits = t.index_fits;
          stays =
              Stays-del c (s.batch ++ (del k ∷ [])) j s.created (λ q. ground (arith, q, was.1 j ej))
                t.created
                (Stays-del c s.batch k s.created (λ q. ground (arith, q, was.0 k ek)) t.created
                  t.stays);
        })

  input_more :
      (n : ℕ) (s : Indexing p.Db)
      → Tracked p c n (length s.touched) s
      → Tracked p c (suc n) (length s.touched) s
  input_more n s t =
      widen p c n (length s.touched) (suc n) (length s.touched) s (omega arith) (omega arith) t

  -- The overlay does not matter.
  with_overlay :
      (n k : ℕ) (s : Indexing p.Db) (m : MempoolOverlay)
      → Tracked p c n k s
      → Tracked p c n k (record s { overlay = m })
  with_overlay n k s m t = record {
    spent = t.spent;
    created = t.created;
    history = t.history;
    covers = t.covers;
    same = t.same;
    outputs_room = t.outputs_room;
    history_room = t.history_room;
    index_fits = t.index_fits;
    stays = t.stays;
  }

  module _ (bytes : (k v : Bytes) → c k ≡ some v → IsBytes v) where
    known_input :
        (n : ℕ) (s s' : Indexing p.Db) (i : TxIn) (sh : Bytes) (utxo : Option UtxoValue)
        → i.prev_index < 2 ^ 32
        → get_scripthash_for_outpoint p s.db i.prev_hash i.prev_index ≡ ok (some sh)
        → get_utxo p s.db sh i.prev_hash i.prev_index ≡ ok utxo
        → (elim utxo [ none ↦ ok s | some u ↦ spend_output s i sh u ]) ≡ ok s'
        → Tracked p c n (length s.touched) s
        → Tracked p c (suc n) (length s'.touched) s'
    known_input n s s' i sh none small es eu e t =
        subst (λ (x : Indexing p.Db). Tracked p c (suc n) (length x.touched) x) (ok_injective e)
          (input_more n s t)
    known_input n s s' i sh (some u) small es eu e t =
        spend_output-Tracked n s s' i sh u
          (spent_undo-SpentWas s.db i sh u bytes t.same small es eu) e t

    found_input :
        (n : ℕ) (s s' : Indexing p.Db) (i : TxIn) (found : Option Bytes)
        → i.prev_index < 2 ^ 32
        → get_scripthash_for_outpoint p s.db i.prev_hash i.prev_index ≡ ok found
        → (elim found [
          | none ↦ returned s
          | some sh ↦
              attempt s.overlay s.db (get_utxo p s.db sh i.prev_hash i.prev_index) >>> λ utxo.
              attempt s.overlay s.db (elim utxo [ none ↦ ok s | some u ↦ spend_output s i sh u ])
              >>> λ spent.
                  returned (record spent {
                    overlay = remove_output spent.overlay i.prev_hash i.prev_index;
                  })
        ])
          ≡ returned s'
        → Tracked p c n (length s.touched) s
        → Tracked p c (suc n) (length s'.touched) s'
    found_input n s s' i none small es e t =
        subst (λ (x : Indexing p.Db). Tracked p c (suc n) (length x.touched) x)
          (returned_injective e) (input_more n s t)
    found_input n s s' i (some sh) small es e t =
        let (utxo, eu, r) =
          then_inv (attempt s.overlay s.db (get_utxo p s.db sh i.prev_hash i.prev_index)) _ e in
        let (x, ex, r') =
          then_inv
            (attempt s.overlay s.db (elim utxo [ none ↦ ok s | some u ↦ spend_output s i sh u ])) _
            r in
        subst (λ (y : Indexing p.Db). Tracked p c (suc n) (length y.touched) y)
          (returned_injective r')
          (with_overlay (suc n) (length x.touched) x
            (remove_output x.overlay i.prev_hash i.prev_index)
            (known_input n s x i sh utxo small es (attempt_inv s.overlay s.db _ eu)
              (attempt_inv s.overlay s.db _ ex) t))

    index_input-Tracked :
        (n : ℕ) (s s' : Indexing p.Db) (i : TxIn)
        → i.prev_index < 2 ^ 32
        → index_input p s i ≡ returned s'
        → Tracked p c n (length s.touched) s
        → Tracked p c (suc n) (length s'.touched) s'
    unfolding index_input
    index_input-Tracked n s s' i small e t = elim (Bool-cases (is_coinbase_input i.prev_hash)) [
      | inl b ↦
          subst (λ (x : Indexing p.Db). Tracked p c (suc n) (length x.touched) x)
            (returned_injective (rw (b, index_input) at e)) (input_more n s t)
      | inr b ↦
          let (found, ef, r) =
            then_inv
              (attempt s.overlay s.db (get_scripthash_for_outpoint p s.db i.prev_hash i.prev_index))
              _ (rw (b, index_input) at e) in
          found_input n s s' i found small (attempt_inv s.overlay s.db _ ef) r t
    ]

    pub index_inputs-Tracked :
        (n m : ℕ) (s s' : Indexing p.Db) (is' : List TxIn)
        → n + length is' ≤ m
        → All (λ i. i.prev_index < 2 ^ 32) is'
        → index_inputs p s is' ≡ returned s'
        → Tracked p c n (length s.touched) s
        → Tracked p c m (length s'.touched) s'
    unfolding index_inputs
    index_inputs-Tracked n m s s' [] h small e t =
        subst (λ (x : Indexing p.Db). Tracked p c m (length x.touched) x) (returned_injective e)
          (widen p c n (length s.touched) m (length s.touched) s (omega (arith, h)) (omega arith) t)
    index_inputs-Tracked n m s s' (i ∷ is') h (small, rest) e t =
        let (x, ex, r) = then_inv (index_input p s i) _ e in
        index_inputs-Tracked (suc n) m x s' is' (omega (arith, h)) rest r
          (index_input-Tracked n s x i small ex t)
