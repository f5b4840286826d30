-- ===== src/Storage/Keys/Outpoint.antt =====
-- Keys of a scripthash and an outpoint: the tables of unspent outputs and of the mempool.
use electrum_go.Base.{
  ℕ, ◌<◌, ◌^◌, ◌≡◌, refl, sym, ap, ◌∙◌, ◌↔◌, [], ◌∷◌, ◌++◌, length, take, drop, arith,
}
use electrum_go.Base.Lists.{
  take-append_exact, drop-append_exact, drop-append_more, drop-drop, length-append, length-drop,
  length-take_of_le,
}
use electrum_go.Base.Result.{ok}
use electrum_go.Base.Bytes.{Bytes, IsBytes, put_be32, be32, be32-put_be32}
use electrum_go.Storage.Keys.{
  outpoint_key, parse_outpoint_key, make_utxo_key, parse_utxo_key, make_mempool_key,
  parse_mempool_key,
}
use electrum_go.Storage.Keys.Layout.{checked, checked_inv, ok_triple_inv, split_at, put_be32-tail}

module _ (p : ℕ) where
  abbrev laid_out : Bytes → Bytes → ℕ → Bytes
  laid_out sh txid vout = p ∷ sh ++ (txid ++ put_be32 vout)

  make_inv :
      (sh txid : Bytes) (vout : ℕ) (key : Bytes)
      → outpoint_key p sh txid vout ≡ ok key
      → (length sh ≡ 32) × (length txid ≡ 32) × (laid_out sh txid vout ≡ key)
  make_inv sh txid vout key h = ground arith

  parse_step :
      (r : Bytes)
      → length r ≡ 68
      → parse_outpoint_key p (p ∷ r)
        ≡ ok (take 32 r, take 32 (drop 32 r), be32 (take 4 (drop 64 r)))
  parse_step r h = checked 69 p (p ∷ r) _ (omega arith) refl

  parse-laid_out :
      (sh txid : Bytes) (vout : ℕ)
      → length sh ≡ 32
      → length txid ≡ 32
      → vout < 2 ^ 32
      → parse_outpoint_key p (laid_out sh txid vout) ≡ ok (sh, txid, vout)
  parse-laid_out sh txid vout hs ht hv =
      let tail = txid ++ put_be32 vout in
      let n : length (sh ++ tail) ≡ 68 =
        omega (arith, length-append sh tail, length-append txid (put_be32 vout)) in
      parse_step (sh ++ tail) n
      ∙ cc (
        take-append_exact 32 sh tail hs,
        drop-append_exact 32 sh tail hs,
        take-append_exact 32 txid (put_be32 vout) ht,
        drop-append_more 32 64 sh tail hs (omega arith),
        drop-append_exact 32 txid (put_be32 vout) ht,
        be32-put_be32 vout hv,
      )

  parse_fields :
      (q : ℕ) (r sh txid : Bytes) (vout : ℕ)
      → parse_outpoint_key p (q ∷ r) ≡ ok (sh, txid, vout)
      → (q ≡ p)
        × (length r ≡ 68)
        × (take 32 r ≡ sh)
        × (take 32 (drop 32 r) ≡ txid)
        × (be32 (take 4 (drop 64 r)) ≡ vout)
  parse_fields q r sh txid vout h =
      let (n, e, f) = checked_inv 69 p (q ∷ r) _ h in
      let (es, et, ev) = ok_triple_inv _ sh _ txid _ vout f in (e, omega arith, es, et, ev)

  make_step :
      (sh txid : Bytes) (vout : ℕ)
      → length sh ≡ 32
      → length txid ≡ 32
      → outpoint_key p sh txid vout ≡ ok (laid_out sh txid vout)
  make_step sh txid vout hs ht = ground arith

  rebuild :
      (r : Bytes)
      → IsBytes r
      → length r ≡ 68
      → laid_out (take 32 r) (take 32 (drop 32 r)) (be32 (take 4 (drop 64 r))) ≡ p ∷ r
  rebuild r b h =
      rw (put_be32-tail 64 r h b, ← drop-drop 32 32 64 r refl)
        (cc (split_at 32 (drop 32 r), split_at 32 r))

  parse_inv :
      (key sh txid : Bytes) (vout : ℕ)
      → IsBytes key
      → parse_outpoint_key p key ≡ ok (sh, txid, vout)
      → outpoint_key p sh txid vout ≡ ok key
  parse_inv [] sh txid vout b h = cc
  parse_inv (q ∷ r) sh txid vout b h =
      let (e, n, es, et, ev) = parse_fields q r sh txid vout h in
      cc (
        e,
        es,
        et,
        ev,
        rebuild r b.1 n,
        make_step (take 32 r) (take 32 (drop 32 r)) (be32 (take 4 (drop 64 r)))
            (length-take_of_le 32 r (omega arith))
            (length-take_of_le 32 (drop 32 r) (omega (arith, length-drop 32 r))),
      )

  parse_of_make :
      (sh txid key : Bytes) (vout : ℕ)
      → vout < 2 ^ 32
      → outpoint_key p sh txid vout ≡ ok key
      → parse_outpoint_key p key ≡ ok (sh, txid, vout)
  parse_of_make sh txid key vout hv h =
      let (hs, ht, e) = make_inv sh txid vout key h in
      ap (parse_outpoint_key p) (sym e) ∙ parse-laid_out sh txid vout hs ht hv

  outpoint_key_iff :
      (sh txid key : Bytes) (vout : ℕ)
      → IsBytes key
      → vout < 2 ^ 32
      → (outpoint_key p sh txid vout ≡ ok key) ↔ (parse_outpoint_key p key ≡ ok (sh, txid, vout))
  outpoint_key_iff sh txid key vout b hv =
      (parse_of_make sh txid key vout hv, parse_inv key sh txid vout b)

-- MakeUTXOKey returns a key exactly when ParseUTXOKey reads it back as the same three fields.
pub make_utxo_key-iff-parse_utxo_key :
    (sh txid key : Bytes) (vout : ℕ)
    → IsBytes key
    → vout < 2 ^ 32
    → (make_utxo_key sh txid vout ≡ ok key) ↔ (parse_utxo_key key ≡ ok (sh, txid, vout))
unfolding make_utxo_key parse_utxo_key
make_utxo_key-iff-parse_utxo_key = outpoint_key_iff _

-- MakeMempoolKey returns a key exactly when ParseMempoolKey reads it back as the same three fields.
pub make_mempool_key-iff-parse_mempool_key :
    (sh txid key : Bytes) (vout : ℕ)
    → IsBytes key
    → vout < 2 ^ 32
    → (make_mempool_key sh txid vout ≡ ok key) ↔ (parse_mempool_key key ≡ ok (sh, txid, vout))
unfolding make_mempool_key parse_mempool_key
make_mempool_key-iff-parse_mempool_key = outpoint_key_iff _

pub parse_utxo_key_of_make :
    (sh txid key : Bytes) (vout : ℕ)
    → vout < 2 ^ 32
    → make_utxo_key sh txid vout ≡ ok key
    → parse_utxo_key key ≡ ok (sh, txid, vout)
unfolding make_utxo_key parse_utxo_key
parse_utxo_key_of_make = parse_of_make _

pub parse_mempool_key_of_make :
    (sh txid key : Bytes) (vout : ℕ)
    → vout < 2 ^ 32
    → make_mempool_key sh txid vout ≡ ok key
    → parse_mempool_key key ≡ ok (sh, txid, vout)
unfolding make_mempool_key parse_mempool_key
parse_mempool_key_of_make = parse_of_make _
