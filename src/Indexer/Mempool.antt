-- ===== src/Indexer/Mempool.antt =====
-- internal/indexer/mempool.go: the transactions that are not in a block, by txid, by scripthash and by
-- the outputs that they spend. The outputs of a transaction and the map of outputs share their
-- elements, so these are cells with an address. Below, the methods take the database and the time, and
-- return the database after the writes to its mempool table, whose errors are only logged.
pub mod Methods
pub mod Queries
pub mod Reconcile
pub mod Spending
pub mod Listing
pub mod Invariant
pub mod Steps
pub mod Added
pub mod Runs
use electrum_go.Base.{
  ℕ, zero, suc, ◌+◌, ◌%◌, ◌^◌, Bool, true, false, not, ◌&&◌, ◌||◌, Option, none, some, List, [],
  ◌∷◌, ◌++◌, length, map, ◌==◌, if◌then◌else◌,
}
use electrum_go.Base.Int.{ℤ, pos, lt_int, eq_int, add64, sub64}
use electrum_go.Base.Bytes.{Bytes, bytes_eq}
use electrum_go.Base.Hex.{hex_encode}
use electrum_go.Base.Decimal.{decimal}
use electrum_go.Base.Map.{nat_eq, bytes_key, Map, get, set, delete, has}
use electrum_go.Base.Sets.{or_empty, keys, add_member, drop_member}
use electrum_go.Base.Result.{Result, ok, err, ◌>>=◌, double_spend}
use electrum_go.Storage.Keys.{prefix_mempool, make_mempool_key, parse_mempool_key}
use electrum_go.Storage.Values.{UtxoValue, MempoolValue, encode_mempool_value, decode_mempool_value}
use electrum_go.Storage.Pebble.{Op, put, del, Pebble}
use electrum_go.Storage.Database.{
  Batch, then_put, then_del, get_utxo, get_scripthash_for_outpoint, new_prefix_iterator,
}
use electrum_go.Indexer.Types.{compute_scripthash, txid_to_hex, is_op_return, is_coinbase_input}
use electrum_go.Indexer.Wire.{TxIn, TxOut, Tx, Wire}

-- A scripthash that is nil is none.
pub record MempoolInput : Type 0 where
  pub prev_txid : Bytes
  pub prev_vout : ℕ
  pub scripthash : Option Bytes
  pub value : ℤ
  pub from_mempool : Bool

-- `spent_by_txid` is empty where it is nil.
pub record MempoolOutput : Type 0 where
  pub txid : Bytes
  pub vout : ℕ
  pub scripthash : Bytes
  pub value : ℤ
  pub spent_by_txid : Bytes

-- The outputs are the addresses of their cells.
pub record MempoolTransaction : Type 0 where
  pub txid : Bytes
  pub txid_hex : Bytes
  pub raw_tx : Tx
  pub first_seen : ℤ
  pub fee : ℤ
  pub inputs : List MempoolInput
  pub outputs : List ℕ
  pub scripthashes : List Bytes

-- The four maps, the cells, and the first address that is free.
pub record MempoolOverlay : Type 0 where
  pub transactions : Map Bytes MempoolTransaction
  pub by_scripthash : Map Bytes (Map Bytes Bool)
  pub spent_by : Map Bytes Bytes
  pub outputs : Map Bytes ℕ
  pub cells : Map ℕ MempoolOutput
  pub next_cell : ℕ

unfoldable pub new : MempoolOverlay
new = record {
  transactions = [];
  by_scripthash = [];
  spent_by = [];
  outputs = [];
  cells = [];
  next_cell = 0;
}

-- `fmt.Sprintf("%s:%d", hex.EncodeToString(txid), vout)`
unfoldable pub make_outpoint_key : Bytes → ℕ → Bytes
make_outpoint_key txid vout = hex_encode txid ++ (b':' ∷ decimal vout)

-- The outputs of a list of addresses; every address that is held has a cell.
unfoldable pub read_cells : Map ℕ MempoolOutput → List ℕ → List MempoolOutput
read_cells cells [] = []
read_cells cells (a ∷ as') =
    let rest = read_cells cells as' in elim (get cells a) [ none ↦ rest | some o ↦ o ∷ rest ]

-- The output of the map, if the outpoint is there.
abbrev pub output_at : MempoolOverlay → Bytes → Option MempoolOutput
output_at m key = elim (get m.outputs key) [ none ↦ none | some a ↦ get m.cells a ]

-- The outputs that a transaction adds: no OP_RETURN, and no zero value.
unfoldable pub make_outputs : (Bytes → Bytes) → Bytes → ℕ → List TxOut → List MempoolOutput
make_outputs sha256 txid vout [] = []
make_outputs sha256 txid vout (o ∷ os) =
    let rest = make_outputs sha256 txid (vout + 1) os in
    if is_op_return o.pk_script || eq_int o.value (pos 0)
    then rest
    else record {
      txid = txid;
      vout = vout % 2 ^ 32;
      scripthash = compute_scripthash sha256 o.pk_script;
      value = o.value;
      spent_by_txid = [];
    }
      ∷ rest

unfoldable pub input_total : ℤ → List MempoolInput → ℤ
input_total total [] = total
input_total total (i ∷ is') = input_total (add64 total i.value) is'

unfoldable pub output_total : ℤ → List MempoolOutput → ℤ
output_total total [] = total
output_total total (o ∷ os) = output_total (add64 total o.value) os

-- The fee, if the inputs are known to pay for the outputs.
abbrev pub fee_of : ℤ → ℤ → ℤ
fee_of ins outs = if lt_int (pos 0) ins && not (lt_int ins outs) then sub64 ins outs else pos 0

-- `affected[hex(sh)] = sh`, for the inputs and then the outputs.
abbrev pub add_own : Option Bytes → Map Bytes Bytes → Map Bytes Bytes
add_own none affected = affected
add_own (some sh) affected = set affected (hex_encode sh) sh

unfoldable pub affected_by_inputs : List MempoolInput → Map Bytes Bytes → Map Bytes Bytes
affected_by_inputs [] affected = affected
affected_by_inputs (i ∷ is') affected = affected_by_inputs is' (add_own i.scripthash affected)

unfoldable pub affected_by_outputs : List MempoolOutput → Map Bytes Bytes → Map Bytes Bytes
affected_by_outputs [] affected = affected
affected_by_outputs (o ∷ os) affected =
    affected_by_outputs os (set affected (hex_encode o.scripthash) o.scripthash)

-- `for k := range ks { m[k][txid] = true }`, with the sets made where they are missing.
unfoldable pub add_to_each :
    Map Bytes (Map Bytes Bool) → List Bytes → Bytes → Map Bytes (Map Bytes Bool)
add_to_each m [] txid = m
add_to_each m (k ∷ ks) txid = add_to_each (add_member m k txid) ks txid

-- An output that is there is marked as spent, in its cell.
unfoldable pub mark_spent : MempoolOverlay → Bytes → Bytes → MempoolOverlay
mark_spent m key txid = elim (get m.outputs key) [
  | none ↦ m
  | some a ↦ elim (get m.cells a) [
    | none ↦ m
    | some o ↦ record m { cells = set m.cells a (record o { spent_by_txid = txid }) }
  ]
]

unfoldable pub spend_inputs : MempoolOverlay → List MempoolInput → Bytes → Bytes → MempoolOverlay
spend_inputs m [] txid txid_hex = m
spend_inputs m (i ∷ is') txid txid_hex =
    let key = make_outpoint_key i.prev_txid i.prev_vout in
    spend_inputs (mark_spent (record m { spent_by = set m.spent_by key txid_hex }) key txid) is'
      txid txid_hex

-- The elements of the slice are the cells from `a` on.
unfoldable pub store_cells : Map ℕ MempoolOutput → ℕ → List MempoolOutput → Map ℕ MempoolOutput
store_cells cells a [] = cells
store_cells cells a (o ∷ os) = store_cells (set cells a o) (a + 1) os

unfoldable pub addresses : ℕ → List MempoolOutput → List ℕ
addresses a [] = []
addresses a (o ∷ os) = a ∷ addresses (a + 1) os

unfoldable pub link_outputs : Map Bytes ℕ → ℕ → List MempoolOutput → Map Bytes ℕ
link_outputs outputs a [] = outputs
link_outputs outputs a (o ∷ os) =
    link_outputs (set outputs (make_outpoint_key o.txid o.vout) a) (a + 1) os

-- The maps with a transaction whose inputs and outputs are known.
unfoldable pub install :
    MempoolOverlay → MempoolTransaction → List MempoolOutput → List Bytes → MempoolOverlay
install m t outs affected =
    let listed = record m {
      transactions = set m.transactions t.txid_hex t;
      by_scripthash = add_to_each m.by_scripthash affected t.txid_hex;
      cells = store_cells m.cells m.next_cell outs;
      next_cell = m.next_cell + length outs;
    } in
    let spent = spend_inputs listed t.inputs t.txid t.txid_hex in
    record spent { outputs = link_outputs spent.outputs m.next_cell outs }

-- The batches of persistTransaction and unpersistTransaction: the one stops at a key that cannot be
-- made, the other passes it over.
unfoldable pub persist_batch : Batch → MempoolTransaction → List MempoolOutput → Result Batch
persist_batch batch t [] = ok batch
persist_batch batch t (o ∷ os) = do
  key ← make_mempool_key o.scripthash o.txid o.vout
  let value =
      encode_mempool_value (record { value = o.value; first_seen = t.first_seen; fee = t.fee })
  persist_batch (then_put batch key value) t os

unfoldable pub unpersist_batch : Batch → List MempoolOutput → Batch
unpersist_batch batch [] = batch
unpersist_batch batch (o ∷ os) = elim (make_mempool_key o.scripthash o.txid o.vout) [
  | err e ↦ unpersist_batch batch os
  | ok key ↦ unpersist_batch (then_del batch key) os
]

unfoldable pub delete_spent : Map Bytes Bytes → List MempoolInput → Map Bytes Bytes
delete_spent spent_by [] = spent_by
delete_spent spent_by (i ∷ is') =
    delete_spent (delete spent_by (make_outpoint_key i.prev_txid i.prev_vout)) is'

unfoldable pub delete_outputs : Map Bytes ℕ → List MempoolOutput → Map Bytes ℕ
delete_outputs outputs [] = outputs
delete_outputs outputs (o ∷ os) =
    delete_outputs (delete outputs (make_outpoint_key o.txid o.vout)) os

unfoldable pub remove_from_each :
    Map Bytes (Map Bytes Bool) → List Bytes → Bytes → Map Bytes (Map Bytes Bool)
remove_from_each m [] txid_hex = m
remove_from_each m (sh ∷ shs) txid_hex =
    remove_from_each (drop_member m (hex_encode sh) txid_hex) shs txid_hex

-- The maps without a transaction that they have.
unfoldable pub uninstall : MempoolOverlay → MempoolTransaction → Bytes → MempoolOverlay
uninstall m t txid_hex = record m {
  by_scripthash = remove_from_each m.by_scripthash t.scripthashes txid_hex;
  spent_by = delete_spent m.spent_by t.inputs;
  outputs = delete_outputs m.outputs (read_cells m.cells t.outputs);
  transactions = delete m.transactions txid_hex;
}
