-- ===== src/Indexer/Block/Outputs.antt =====
-- The outputs and the history of a transaction keep what is tracked of the loop's variables.
use electrum_go.Base.{
  ℕ, suc, ◌+◌, ◌%◌, ◌^◌, ◌≤◌, ◌<◌, ◌≡◌, subst, inl, inr, Bool, true, ◌||◌, Option, List, [], ◌∷◌,
  ◌++◌, length, length-append, All, All-append, Bool-cases, arith,
}
use electrum_go.Base.Int.{ℤ, pos, eq_int, IsI32, IsI64}
use electrum_go.Base.Bytes.{Bytes}
use electrum_go.Base.Hex.{hex_encode, hex_decode}
use electrum_go.Base.Map.{bytes_key, Map, set, has, length-set_le}
use electrum_go.Base.Result.{ok, ok_injective, >>=-eq-ok, Result-cases}
use electrum_go.Storage.Keys.{make_utxo_key, make_tx_index_key, make_history_key}
use electrum_go.Storage.Undo.{UndoOutput, UndoHistory}
use electrum_go.Storage.Pebble.{put, Pebble}
use electrum_go.Indexer.Types.{is_op_return}
use electrum_go.Indexer.Wire.{TxOut, Wire}
use electrum_go.Indexer.Rollback.Undone.{utxo_bytes}
use electrum_go.Indexer.Block.Entries.{
  Indexing, created_undo, create_output, index_outputs, write_history_entry, index_history,
  index_histories,
}
use electrum_go.Indexer.Block.Tracked.{
  Stays-put, Stays-created, CreatedNew, HistoryNew, Covers-two-created, Covers-history, NewTxid,
  NewHeight, Tracked, widen,
}

module _ (p : Pebble) (c : Bytes → Option Bytes) where
  create_output-Tracked :
      (n : ℕ) (s s' : Indexing p.Db) (o : UndoOutput)
      → CreatedNew c o
      → create_output s o ≡ ok s'
      → Tracked p c n (length s.touched) s
      → Tracked p c (suc n) (length s'.touched) s'
  unfolding create_output
  create_output-Tracked n s s' o fresh e t =
      let (k, ek, r) = >>=-eq-ok (make_utxo_key o.scripthash o.txid o.vout) _ e in
      let (j, ej, r') = >>=-eq-ok (make_tx_index_key o.txid o.vout) _ r in
      subst (λ (x : Indexing p.Db). Tracked p c (suc n) (length x.touched) x) (ok_injective r')
        (record {
          spent = t.spent;
          created = All-append (CreatedNew c) s.created (o ∷ []) t.created (fresh, tt);
          history = t.history;
          covers =
              Covers-two-created s.batch s.created s.spent s.history o (put k (utxo_bytes o))
                (put j o.scripthash) ek ej t.covers;
          same = t.same;
          outputs_room = omega (arith, t.outputs_room, length-append s.created (o ∷ []));
          history_room =
              omega (arith, t.history_room, length-set_le s.touched (hex_encode o.scripthash) true);
          index_fits = t.index_fits;
          stays = Stays-created s.batch k (utxo_bytes o) j o.scripthash s.created o ek t.stays;
        })

  pub index_outputs-Tracked :
      (w : Wire) (height : ℤ) (block_hash txid : Bytes) (n m : ℕ) (s s' : Indexing p.Db) (vout : ℕ)
      (os : List TxOut)
      → n + length os ≤ m
      → IsI32 height
      → NewTxid c txid
      → All (λ o. IsI64 o.value) os
      → index_outputs w height block_hash txid s vout os ≡ ok s'
      → Tracked p c n (length s.touched) s
      → Tracked p c m (length s'.touched) s'
  unfolding index_outputs
  index_outputs-Tracked w height block_hash txid n m s s' vout [] h fh fresh fits e t =
      subst (λ (x : Indexing p.Db). Tracked p c m (length x.touched) x) (ok_injective e)
        (widen p c n (length s.touched) m (length s.touched) s (omega (arith, h)) (omega arith) t)
  index_outputs-Tracked w height block_hash txid n m s s' vout (o ∷ os) h fh fresh (fv, fits) e t =
      elim (Bool-cases (is_op_return o.pk_script || eq_int o.value (pos 0))) [
        | inl b ↦
            index_outputs-Tracked w height block_hash txid (suc n) m s s' (suc vout) os
              (omega (arith, h)) fh fresh fits (rw (b, index_outputs) at e)
              (widen p c n (length s.touched) (suc n) (length s.touched) s (omega arith)
                (omega arith) t)
        | inr b ↦
            let new_output = created_undo w height block_hash txid vout o in
            let (x, ex, r) =
              >>=-eq-ok (create_output s new_output) _ (rw (b, index_outputs) at e) in
            let (lu, li) = fresh new_output.scripthash (vout % 2 ^ 32) in
            index_outputs-Tracked w height block_hash txid (suc n) m x s' (suc vout) os
              (omega (arith, h)) fh fresh fits r
              (create_output-Tracked n s x new_output (lu, li, (omega arith, fv, fh)) ex t)
      ]

  with_added :
      (n k : ℕ) (s : Indexing p.Db) (added : Map Bytes Bool)
      → Tracked p c n k s
      → Tracked p c n k (record s { added = added })
  with_added n k s added t = record {
    spent = t.spent;
    created = t.created;
    history = t.history;
    covers = t.covers;
    same = t.same;
    outputs_room = t.outputs_room;
    history_room = t.history_room;
    index_fits = t.index_fits;
    stays = t.stays;
  }

  write_history_entry-Tracked :
      (n k : ℕ) (s s' : Indexing p.Db) (h : UndoHistory)
      → HistoryNew c h
      → write_history_entry s h ≡ ok s'
      → Tracked p c n (suc k) s
      → Tracked p c n k s'
  unfolding write_history_entry
  write_history_entry-Tracked n k s s' h fresh e t =
      let (key, ek, r) =
        >>=-eq-ok (make_history_key h.scripthash h.height h.tx_index h.index) _ e in
      subst (λ (x : Indexing p.Db). Tracked p c n k x) (ok_injective r)
        (record {
          spent = t.spent;
          created = t.created;
          history = All-append (HistoryNew c) s.history (h ∷ []) t.history (fresh, tt);
          covers = Covers-history s.batch s.created s.spent s.history h (put key []) ek t.covers;
          same = t.same;
          outputs_room = t.outputs_room;
          history_room = omega (arith, t.history_room, length-append s.history (h ∷ []));
          index_fits = omega arith;
          stays = Stays-put s.batch key [] s.created t.stays;
        })

  index_history-Tracked :
      (height : ℤ) (tx_index : ℕ) (txid_hex : Bytes) (n k : ℕ) (s s' : Indexing p.Db)
      (sh_hex : Bytes)
      → IsI32 height
      → tx_index < 2 ^ 32
      → NewHeight c height
      → index_history height tx_index txid_hex s sh_hex ≡ ok s'
      → Tracked p c n (suc k) s
      → Tracked p c n k s'
  unfolding index_history
  index_history-Tracked height tx_index txid_hex n k s s' sh_hex fh fi fresh e t =
      let history_key = sh_hex ++ (b':' ∷ txid_hex) in
      let marked : Indexing p.Db = record s { added = set s.added history_key true } in
      let less = widen p c n (suc k) n k s (omega arith) (omega arith) t in
      elim (Bool-cases (has s.added history_key)) [
        | inl b ↦
            subst (λ (x : Indexing p.Db). Tracked p c n k x)
              (ok_injective (rw (b, index_history) at e)) less
        | inr b ↦ elim (Result-cases (hex_decode sh_hex)) [
          | inl (scripthash, d) ↦
              let h : UndoHistory = record {
                scripthash = scripthash;
                height = height;
                tx_index = tx_index;
                index = s.history_index;
              } in
              write_history_entry-Tracked n k marked s' h
                (fresh scripthash tx_index s.history_index, (fh, fi, t.index_fits))
                (rw (d, index_history) at (rw (b, index_history) at e))
                (with_added n (suc k) s (set s.added history_key true) t)
          | inr (x, d) ↦
              subst (λ (y : Indexing p.Db). Tracked p c n k y)
                (ok_injective (rw (d, index_history) at (rw (b, index_history) at e)))
                (with_added n k s (set s.added history_key true) less)
        ]
      ]

  pub index_histories-Tracked :
      (height : ℤ) (tx_index : ℕ) (txid_hex : Bytes) (n : ℕ) (s s' : Indexing p.Db)
      (ks : List Bytes)
      → IsI32 height
      → tx_index < 2 ^ 32
      → NewHeight c height
      → index_histories height tx_index txid_hex s ks ≡ ok s'
      → Tracked p c n (length ks) s
      → Tracked p c n 0 s'
  unfolding index_histories
  index_histories-Tracked height tx_index txid_hex n s s' [] fh fi fresh e t =
      subst (λ (x : Indexing p.Db). Tracked p c n 0 x) (ok_injective e) t
  index_histories-Tracked height tx_index txid_hex n s s' (k ∷ ks) fh fi fresh e t =
      let (x, ex, r) = >>=-eq-ok (index_history height tx_index txid_hex s k) _ e in
      index_histories-Tracked height tx_index txid_hex n x s' ks fh fi fresh r
        (index_history-Tracked height tx_index txid_hex n (length ks) s x k fh fi fresh ex t)
