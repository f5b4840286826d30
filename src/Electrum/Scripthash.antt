-- ===== src/Electrum/Scripthash.antt =====
-- internal/electrum/scripthash.go: the history, the balance, the unspent outputs and the status of a
-- scripthash. `sort_slice` stands for sort.Slice, which takes the test that orders the elements, and
-- `sha256` for sha256.Sum256.
pub mod Gather
pub mod Sums
pub mod Sorted
pub mod Insertion
pub mod Text
mod Runs
use electrum_go.Base.{
  ℕ, ◌-◌, Bool, true, false, not, ◌&&◌, Option, none, some, List, [], ◌∷◌, ◌++◌, length, map, ltb,
  ◌==◌, if◌then◌else◌,
}
use electrum_go.Base.Int.{ℤ, pos, lt_int, eq_int, add64, sub64}
use electrum_go.Base.Bytes.{Bytes}
use electrum_go.Base.Hex.{hex_encode}
use electrum_go.Base.Decimal.{decimal_int}
use electrum_go.Base.Map.{bytes_key, int_key, Map, get, set, has}
use electrum_go.Base.Result.{Result, ok, err, ◌>>=◌}
use electrum_go.Storage.Keys.{
  make_history_prefix, parse_history_key, make_utxo_prefix, parse_utxo_key,
}
use electrum_go.Storage.Values.{UtxoValue, decode_utxo_value}
use electrum_go.Storage.Pebble.{Pebble}
use electrum_go.Storage.Database.{get_block_txids, new_prefix_iterator}
use electrum_go.Indexer.Types.{txid_to_hex}
use electrum_go.Indexer.Mempool.{MempoolOutput, MempoolOverlay}
use electrum_go.Indexer.Mempool.Queries.{
  get_scripthash_transactions, get_unspent_outputs, get_balance, is_output_spent,
}

-- The map of a history entry.
pub record HistoryItem : Type 0 where
  pub tx_hash : Bytes
  pub height : ℤ

-- What the loop over the entries keeps.
pub record Gathered : Type 0 where
  pub cache : Map ℤ (List Bytes)
  pub seen : Map Bytes Bool
  pub history : List HistoryItem

-- `txids[i]`, if there is one.
abbrev pub nth : List Bytes → ℕ → Option Bytes
nth [] i = none
nth (x ∷ xs) i = if i == 0 then some x else nth xs (i - 1)

unfoldable pub gather_item : Gathered → HistoryItem → Gathered
gather_item s item =
    if has s.seen item.tx_hash
    then s
    else record s { seen = set s.seen item.tx_hash true; history = s.history ++ (item ∷ []) }

-- The item of a transaction of a block, if the index is in range.
unfoldable pub gather_txid : Gathered → ℤ → List Bytes → ℕ → Gathered
gather_txid s height txids tx_index = elim (nth txids tx_index) [
  | none ↦ s
  | some txid ↦ gather_item s (record { tx_hash = txid_to_hex txid; height = height })
]

unfoldable pub gather_mempool : Gathered → List Bytes → Gathered
gather_mempool s [] = s
gather_mempool s (txid_hex ∷ r) =
    gather_mempool (gather_item s (record { tx_hash = txid_hex; height = pos 0 })) r

-- Below the block heights stand those of the mempool, which are 0.
unfoldable pub comes_first : HistoryItem → HistoryItem → Bool
comes_first a b =
    if eq_int a.height (pos 0) && not (eq_int b.height (pos 0))
    then false
    else if not (eq_int a.height (pos 0)) && eq_int b.height (pos 0)
    then true
    else lt_int a.height b.height

-- An unspent output in an answer.
pub record Unspent : Type 0 where
  pub tx_hash : Bytes
  pub tx_pos : ℕ
  pub height : ℤ
  pub value : ℤ

pub record Balance : Type 0 where
  pub confirmed : ℤ
  pub unconfirmed : ℤ

abbrev pub mempool_unspent : MempoolOutput → Unspent
mempool_unspent o = record {
  tx_hash = txid_to_hex o.txid;
  tx_pos = o.vout;
  height = pos 0;
  value = o.value;
}

-- The entries of the utxo table: one that does not parse is passed over.
unfoldable pub sum_entries : MempoolOverlay → Balance → List (Bytes × Bytes) → Balance
sum_entries m b [] = b
sum_entries m b ((k, v) ∷ r) =
    sum_entries m
      (elim (parse_utxo_key k) [
        | err e ↦ b
        | ok (sh, txid, vout) ↦ elim (decode_utxo_value v) [
          | err e ↦ b
          | ok utxo ↦
              if is_output_spent m txid vout
              then record b { unconfirmed = sub64 b.unconfirmed utxo.value }
              else record b { confirmed = add64 b.confirmed utxo.value }
        ]
      ])
      r

unfoldable pub list_entries : MempoolOverlay → List (Bytes × Bytes) → List Unspent
list_entries m [] = []
list_entries m ((k, v) ∷ r) =
    let rest = list_entries m r in
    elim (parse_utxo_key k) [
      | err e ↦ rest
      | ok (sh, txid, vout) ↦ elim (decode_utxo_value v) [
        | err e ↦ rest
        | ok utxo ↦
            if is_output_spent m txid vout
            then rest
            else record {
              tx_hash = txid_to_hex txid;
              tx_pos = vout;
              height = utxo.height;
              value = utxo.value;
            }
              ∷ rest
      ]
    ]

-- `%s:%d:` for each entry.
unfoldable pub status_text : List HistoryItem → Bytes
status_text [] = []
status_text (x ∷ xs) = x.tx_hash ++ (b':' ∷ decimal_int x.height ++ (b':' ∷ status_text xs))

module _ (p : Pebble) where
  open p use {Db}

  -- The txids of a height are read once.
  unfoldable pub gather_at : Db → Gathered → ℤ → ℕ → Gathered
  gather_at d s height tx_index = elim (get s.cache height) [
    | some txids ↦ gather_txid s height txids tx_index
    | none ↦ elim (get_block_txids p d height) [
      | err e ↦ s
      | ok txids ↦ gather_txid (record s { cache = set s.cache height txids }) height txids tx_index
    ]
  ]

  -- One entry of the history; a key that does not parse is passed over.
  unfoldable pub gather_entry : Db → Gathered → Bytes → Gathered
  gather_entry d s key = elim (parse_history_key key) [
    | err e ↦ s
    | ok (sh, height, tx_index, index) ↦ gather_at d s height tx_index
  ]

  unfoldable pub gather_entries : Db → Gathered → List (Bytes × Bytes) → Gathered
  gather_entries d s [] = s
  gather_entries d s ((k, v) ∷ r) = gather_entries d (gather_entry d s k) r

  -- None of the three reads iter.Error(): an iterator that breaks off gives a shorter answer.
  unfoldable pub get_scripthash_history :
      ((HistoryItem → HistoryItem → Bool) → List HistoryItem → List HistoryItem)
      → Db
      → MempoolOverlay
      → Bytes
      → Result (List HistoryItem)
  get_scripthash_history sort_slice d m scripthash = do
    prefix ← make_history_prefix scripthash
    it ← new_prefix_iterator p d prefix
    let confirmed = gather_entries d (record { cache = []; seen = []; history = [] }) it.entries
    ok (
        sort_slice comes_first
          (gather_mempool confirmed (get_scripthash_transactions m scripthash)).history)

  unfoldable pub get_scripthash_balance : Db → MempoolOverlay → Bytes → Result Balance
  get_scripthash_balance d m scripthash = do
    prefix ← make_utxo_prefix scripthash
    it ← new_prefix_iterator p d prefix
    let b = sum_entries m (record { confirmed = pos 0; unconfirmed = pos 0 }) it.entries
    ok (record b { unconfirmed = add64 b.unconfirmed (get_balance m scripthash) })

  unfoldable pub get_scripthash_unspent : Db → MempoolOverlay → Bytes → Result (List Unspent)
  get_scripthash_unspent d m scripthash = do
    prefix ← make_utxo_prefix scripthash
    it ← new_prefix_iterator p d prefix
    ok (list_entries m it.entries ++ map mempool_unspent (get_unspent_outputs m scripthash))

  -- The status is empty where the history is.
  unfoldable pub compute_scripthash_status :
      (Bytes → Bytes)
      → ((HistoryItem → HistoryItem → Bool) → List HistoryItem → List HistoryItem)
      → Db
      → MempoolOverlay
      → Bytes
      → Result Bytes
  compute_scripthash_status sha256 sort_slice d m scripthash = do
    history ← get_scripthash_history sort_slice d m scripthash
    ok (if length history == 0 then [] else hex_encode (sha256 (status_text history)))
