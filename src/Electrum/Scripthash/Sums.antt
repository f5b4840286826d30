-- ===== src/Electrum/Scripthash/Sums.antt =====
-- internal/electrum/scripthash.go: the balance of a scripthash against its unspent outputs.
use electrum_go.Base.{◌≡◌, refl, Bool-cases, inl, inr, List, [], ◌∷◌, ◌++◌, map}
use electrum_go.Base.Int.{ℤ, pos, add64, sub64}
use electrum_go.Base.Bytes.{Bytes}
use electrum_go.Base.Result.{ok, Result-cases}
use electrum_go.Storage.Keys.{make_utxo_prefix, parse_utxo_key}
use electrum_go.Storage.Values.{decode_utxo_value}
use electrum_go.Storage.Pebble.{complete, Pebble}
use electrum_go.Indexer.Types.{txid_to_hex}
use electrum_go.Storage.Database.{new_prefix_iterator}
use electrum_go.Indexer.Mempool.{MempoolOverlay}
use electrum_go.Indexer.Mempool.Queries.{get_balance, get_unspent_outputs, is_output_spent}
use electrum_go.Electrum.Scripthash.{
  Unspent, Balance, sum_entries, list_entries, get_scripthash_balance, get_scripthash_unspent,
}

-- The sum of the values, as int64.
unfoldable pub value_sum : ℤ → List Unspent → ℤ
value_sum total [] = total
value_sum total (u ∷ us) = value_sum (add64 total u.value) us

confirmed-sum_entries :
    (m : MempoolOverlay) (b : Balance) (es : List (Bytes × Bytes))
    → (sum_entries m b es).confirmed ≡ value_sum b.confirmed (list_entries m es)
unfolding sum_entries list_entries value_sum
confirmed-sum_entries m b [] = refl
confirmed-sum_entries m b ((k, v) ∷ r) = elim (Result-cases (parse_utxo_key k)) [
  | inr (x, e) ↦ rw (e, sum_entries) (rw (e, list_entries) (confirmed-sum_entries m b r))
  | inl ((sh, txid, vout), e) ↦ elim (Result-cases (decode_utxo_value v)) [
    | inr (x, f) ↦ rw (e, sum_entries) (rw (e, list_entries) (rw f (confirmed-sum_entries m b r)))
    | inl (utxo, f) ↦ elim (Bool-cases (is_output_spent m txid vout)) [
      | inl g ↦
          rw (e, sum_entries)
            (rw (e, list_entries)
              (rw f (
                rw g (
                  confirmed-sum_entries m
                    (record b { unconfirmed = sub64 b.unconfirmed utxo.value }) r))))
      | inr g ↦
          rw (e, sum_entries)
            (rw (e, list_entries)
              (rw f (
                rw g (
                  confirmed-sum_entries m (record b { confirmed = add64 b.confirmed utxo.value })
                    r))))
    ]
  ]
]

module _ (p : Pebble) where
  open p use {Db}

  -- Where the iterator over the outputs of a scripthash visits all of them, GetScripthashUnspent returns
  -- a list and GetScripthashBalance a balance. The list ends with the unspent outputs that the overlay
  -- gives for the scripthash, each at height 0 with its txid in reverse hex, its place and its value, and
  -- the confirmed part of the balance is the int64 sum of the values of the outputs before those.
  pub get_scripthash_balance-get_scripthash_unspent :
      (d : Db) (m : MempoolOverlay) (scripthash prefix : Bytes) (entries : List (Bytes × Bytes))
      → make_utxo_prefix scripthash ≡ ok prefix
      → new_prefix_iterator p d prefix ≡ ok (complete entries)
      → (confirmed : List Unspent) × (b : Balance) × (get_scripthash_unspent p d m scripthash
          ≡ ok (
              confirmed
              ++ map
                  (λ o. record {
                    tx_hash = txid_to_hex o.txid;
                    tx_pos = o.vout;
                    height = pos 0;
                    value = o.value;
                  })
                  (get_unspent_outputs m scripthash)))
        × (get_scripthash_balance p d m scripthash ≡ ok b)
        × (b.confirmed ≡ value_sum (pos 0) confirmed)
  unfolding get_scripthash_unspent get_scripthash_balance
  get_scripthash_balance-get_scripthash_unspent d m scripthash prefix entries ep ee =
      let b = sum_entries m (record { confirmed = pos 0; unconfirmed = pos 0 }) entries in
      (
        list_entries m entries,
        record b { unconfirmed = add64 b.unconfirmed (get_balance m scripthash) },
        rw (ep, ee) refl,
        rw (ep, ee) refl,
        confirmed-sum_entries m (record { confirmed = pos 0; unconfirmed = pos 0 }) entries,
      )
