-- ===== src/Indexer/Mempool/Queries.antt =====
-- internal/indexer/mempool.go: the methods that only read, and RemoveOutput.
use electrum_go.Base.{ℕ, Bool, false, ◌&&◌, none, some, List, [], ◌∷◌, length, ◌==◌, if◌then◌else◌}
use electrum_go.Base.Int.{ℤ, pos, add64, sub64}
use electrum_go.Base.Bytes.{Bytes, bytes_eq}
use electrum_go.Base.Hex.{hex_encode}
use electrum_go.Base.Map.{nat_eq, bytes_key, Map, get, delete, has}
use electrum_go.Base.Sets.{or_empty, keys}
use electrum_go.Indexer.Mempool.{
  MempoolInput, MempoolOutput, MempoolTransaction, MempoolOverlay, make_outpoint_key, read_cells,
}

unfoldable pub has_tx : MempoolOverlay → Bytes → Bool
has_tx m txid_hex = has m.transactions txid_hex

unfoldable pub remove_output : MempoolOverlay → Bytes → ℕ → MempoolOverlay
remove_output m txid vout = record m {
  outputs = delete m.outputs (make_outpoint_key txid vout);
  spent_by = delete m.spent_by (make_outpoint_key txid vout);
}

unfoldable pub get_scripthash_transactions : MempoolOverlay → Bytes → List Bytes
get_scripthash_transactions m scripthash =
    keys (or_empty (get m.by_scripthash (hex_encode scripthash)))

unfoldable pub is_output_spent : MempoolOverlay → Bytes → ℕ → Bool
is_output_spent m txid vout = has m.spent_by (make_outpoint_key txid vout)

unfoldable pub count : MempoolOverlay → ℕ
count m = length m.transactions

unfoldable pub size : MempoolOverlay → ℕ
size m = length m.outputs

abbrev pub is_unspent : MempoolOutput → Bool
is_unspent o = length o.spent_by_txid == 0

-- `hex.EncodeToString(output.Scripthash) == shHex`
abbrev pub pays : MempoolOutput → Bytes → Bool
pays o sh_hex = bytes_eq (hex_encode o.scripthash) sh_hex

unfoldable pub unspent_among : List MempoolOutput → Bytes → List MempoolOutput
unspent_among [] sh_hex = []
unspent_among (o ∷ os) sh_hex =
    let rest = unspent_among os sh_hex in if pays o sh_hex && is_unspent o then o ∷ rest else rest

abbrev pub values {ℓ κ} : {K : Type ℓ} {V : Type κ} → Map K V → List V
values [] = []
values ((k, v) ∷ m) = v ∷ values m

unfoldable pub get_unspent_outputs : MempoolOverlay → Bytes → List MempoolOutput
get_unspent_outputs m scripthash =
    unspent_among (read_cells m.cells (values m.outputs)) (hex_encode scripthash)

unfoldable pub add_outputs : ℤ → List MempoolOutput → Bytes → ℤ
add_outputs balance [] sh_hex = balance
add_outputs balance (o ∷ os) sh_hex =
    add_outputs (if pays o sh_hex && is_unspent o then add64 balance o.value else balance) os sh_hex

abbrev pub draws : MempoolInput → Bytes → Bool
draws i sh_hex = elim i.scripthash [ none ↦ false | some sh ↦ bytes_eq (hex_encode sh) sh_hex ]

unfoldable pub subtract_inputs : ℤ → List MempoolInput → Bytes → ℤ
subtract_inputs balance [] sh_hex = balance
subtract_inputs balance (i ∷ is') sh_hex =
    subtract_inputs (if draws i sh_hex then sub64 balance i.value else balance) is' sh_hex

abbrev pub transaction_balance : MempoolOverlay → ℤ → Bytes → MempoolTransaction → ℤ
transaction_balance m balance sh_hex t =
    subtract_inputs (add_outputs balance (read_cells m.cells t.outputs) sh_hex) t.inputs sh_hex

unfoldable pub balance_over : MempoolOverlay → ℤ → List Bytes → Bytes → ℤ
balance_over m balance [] sh_hex = balance
balance_over m balance (txid_hex ∷ r) sh_hex =
    balance_over m
      (elim (get m.transactions txid_hex) [
        | none ↦ balance
        | some t ↦ transaction_balance m balance sh_hex t
      ])
      r sh_hex

unfoldable pub get_balance : MempoolOverlay → Bytes → ℤ
get_balance m scripthash =
    balance_over m (pos 0) (keys (or_empty (get m.by_scripthash (hex_encode scripthash))))
      (hex_encode scripthash)
