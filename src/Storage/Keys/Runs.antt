-- ===== src/Storage/Keys/Runs.antt =====
-- Concrete keys of internal/storage/keys.go, and the theorems on them.
use electrum_go.Base.{ℕ, ◌≡◌, ◌↔◌, refl, false, none, some, [], ◌∷◌, ◌++◌, arith, replicate}
use electrum_go.Base.Int.{pos, negsuc, is_negative}
use electrum_go.Base.Bytes.{Bytes, all_bytes, all_bytes-IsBytes, bytes_lt}
use electrum_go.Base.Result.{ok, err, negative_height, bad_key_length, bad_scripthash_length}
use electrum_go.Storage.Keys.{
  make_utxo_key, parse_utxo_key, make_history_key, parse_history_key, make_header_key,
  parse_header_key, make_undo_key, parse_undo_key, prefix_upper_bound, increment,
}
use electrum_go.Storage.Keys.Outpoint.{make_utxo_key-iff-parse_utxo_key}
use electrum_go.Storage.Keys.History.{make_history_key-iff-parse_history_key}
use electrum_go.Storage.Keys.Undo.{make_undo_key-iff-parse_undo_key}
use electrum_go.Storage.Keys.Order.{position_lt, history_keys_in_chain_order}
use electrum_go.Storage.Keys.Bound.{in_range, starts_with, prefix_range_exact}
use electrum_go.Storage.Keys.Tables.{header, encode, encode_injective}

abbrev sh : Bytes
sh = replicate 32 7

abbrev txid : Bytes
txid = replicate 32 9

abbrev utxo_bytes : Bytes
utxo_bytes = b'u' ∷ sh ++ (txid ++ (0 ∷ 0 ∷ 1 ∷ 2 ∷ []))

abbrev history_bytes : ℕ → Bytes
history_bytes i = b'h' ∷ sh ++ (0 ∷ 12 ∷ 53 ∷ 0 ∷ 0 ∷ 0 ∷ 0 ∷ i ∷ 0 ∷ 0 ∷ 0 ∷ 3 ∷ [])

abbrev undo_bytes : Bytes
undo_bytes = b'd' ∷ 0 ∷ 12 ∷ 53 ∷ 0 ∷ txid

make_utxo_key_258 : make_utxo_key sh txid 258 ≡ ok utxo_bytes
unfolding make_utxo_key
make_utxo_key_258 = refl

make_utxo_key_short : make_utxo_key (7 ∷ []) txid 258 ≡ err (bad_scripthash_length 1)
unfolding make_utxo_key
make_utxo_key_short = refl

parse_header_key_short : parse_header_key (b'b' ∷ []) ≡ err (bad_key_length 1)
unfolding parse_header_key
parse_header_key_short = refl

make_header_key_negative : make_header_key (negsuc 0) ≡ err negative_height
unfolding make_header_key
make_header_key_negative = refl

prefix_upper_bound_carries : prefix_upper_bound (b'u' ∷ 4 ∷ 255 ∷ []) ≡ some (b'u' ∷ 5 ∷ 0 ∷ [])
unfolding prefix_upper_bound increment
prefix_upper_bound_carries = refl

prefix_upper_bound_full : prefix_upper_bound (255 ∷ 255 ∷ []) ≡ none
unfolding prefix_upper_bound increment
prefix_upper_bound_full = refl

make_utxo_key-iff-parse_utxo_key_example :
    (make_utxo_key sh txid 258 ≡ ok utxo_bytes) ↔ (parse_utxo_key utxo_bytes ≡ ok (sh, txid, 258))
make_utxo_key-iff-parse_utxo_key_example =
    make_utxo_key-iff-parse_utxo_key sh txid utxo_bytes 258
      (all_bytes-IsBytes utxo_bytes (unfold all_bytes in refl)) (omega arith)

make_history_key-iff-parse_history_key_example :
    (make_history_key sh (pos 800000) 4 3 ≡ ok (history_bytes 4))
    ↔ (parse_history_key (history_bytes 4) ≡ ok (sh, pos 800000, 4, 3))
make_history_key-iff-parse_history_key_example =
    make_history_key-iff-parse_history_key sh (history_bytes 4) (pos 800000) 4 3
      (all_bytes-IsBytes (history_bytes 4) (unfold all_bytes in refl)) (omega arith) (omega arith)
      (omega arith)

abbrev header_bytes : Bytes
header_bytes = b'b' ∷ 0 ∷ 12 ∷ 53 ∷ 0 ∷ []

make_undo_key-iff-parse_undo_key_example :
    (make_undo_key (pos 800000) txid ≡ ok undo_bytes)
    ↔ ((parse_undo_key undo_bytes ≡ ok (pos 800000, txid)) × (is_negative (pos 800000) ≡ false))
make_undo_key-iff-parse_undo_key_example =
    make_undo_key-iff-parse_undo_key (pos 800000) txid undo_bytes
      (all_bytes-IsBytes undo_bytes (unfold all_bytes in refl)) (omega arith)

history_keys_in_chain_order_example :
    bytes_lt (history_bytes 4) (history_bytes 6) ≡ position_lt (800000, 4, 3) (800000, 6, 3)
history_keys_in_chain_order_example =
    history_keys_in_chain_order sh (history_bytes 4) (history_bytes 6) 800000 4 3 800000 6 3
      (omega arith, omega arith, omega arith) (omega arith, omega arith, omega arith)
      (unfold make_history_key in refl) (unfold make_history_key in refl)

prefix_range_exact_example :
    in_range
      (b'u' ∷ 4 ∷ 255 ∷ [])
      (prefix_upper_bound (b'u' ∷ 4 ∷ 255 ∷ []))
      (b'u' ∷ 4 ∷ 255 ∷ 9 ∷ [])
    ≡ starts_with (b'u' ∷ 4 ∷ 255 ∷ []) (b'u' ∷ 4 ∷ 255 ∷ 9 ∷ [])
prefix_range_exact_example =
    prefix_range_exact (b'u' ∷ 4 ∷ 255 ∷ []) (b'u' ∷ 4 ∷ 255 ∷ 9 ∷ [])
      (all_bytes-IsBytes (b'u' ∷ 4 ∷ 255 ∷ []) (unfold all_bytes in refl))
      (all_bytes-IsBytes (b'u' ∷ 4 ∷ 255 ∷ 9 ∷ []) (unfold all_bytes in refl)) (omega arith)

encode_injective_example : header (pos 800000) ≡ header (pos 800000)
encode_injective_example =
    encode_injective (header (pos 800000)) (header (pos 800000)) header_bytes (omega arith)
      (omega arith) (unfold encode make_header_key in refl) (unfold encode make_header_key in refl)
