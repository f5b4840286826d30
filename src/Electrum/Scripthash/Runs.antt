-- ===== src/Electrum/Scripthash/Runs.antt =====
-- The history, the balance and the status text at concrete inputs.
use electrum_go.Base.{ap, some, ◌≤◌, ℕ, ◌≡◌, refl, Bool, List, [], ◌∷◌, ◌++◌, map, replicate, arith}
use electrum_go.Base.Int.{pos}
use electrum_go.Base.Bytes.{Bytes, bytes_eq, bytes_lt}
use electrum_go.Base.Map.{bytes_key, int_key, get}
use electrum_go.Base.Result.{Result, ok, io_failed, ok_injective}
use electrum_go.Storage.Keys.{
  make_history_prefix, make_utxo_prefix, parse_utxo_key, prefix_upper_bound, increment,
}
use electrum_go.Storage.Values.{decode_utxo_value}
use electrum_go.Storage.Pebble.Table.{Table, within, table_store, scan_table, keep}
use electrum_go.Storage.Database.{new_prefix_iterator}
use electrum_go.Indexer.Types.{txid_to_hex}
use electrum_go.Indexer.Mempool.{new, read_cells}
use electrum_go.Indexer.Mempool.Queries.{
  get_scripthash_transactions, get_unspent_outputs, unspent_among, is_output_spent,
}
use electrum_go.Electrum.Scripthash.{
  HistoryItem, Unspent, Balance, list_entries, get_scripthash_history, get_scripthash_balance,
  get_scripthash_unspent,
}
use electrum_go.Electrum.Scripthash.Gather.{first_of_each, confirmed_items, mempool_items}
use electrum_go.Electrum.Scripthash.Sorted.{count, IsChronological, get_scripthash_history_lem}
use electrum_go.Electrum.Scripthash.Insertion.{insertion_sort, insertion_sort-IsSort}
use electrum_go.Storage.Pebble.{Scanned, complete, Pebble}
use electrum_go.Electrum.Scripthash.Sums.{value_sum, get_scripthash_balance-get_scripthash_unspent}
use electrum_go.Electrum.Scripthash.Text.{status_text_injective}

abbrev scripthash : Bytes
scripthash = replicate 32 7

-- Two entries of the history at one height, whose block has two txids, and one unspent output.
abbrev history_entry : ℕ → Bytes × Bytes
history_entry i =
    (b'h' ∷ replicate 32 7 ++ (0 ∷ 0 ∷ 0 ∷ 8 ∷ 0 ∷ 0 ∷ 0 ∷ i ∷ 0 ∷ 0 ∷ 0 ∷ i ∷ []), [])

abbrev utxo_entry : Bytes × Bytes
utxo_entry = (
  b'u' ∷ replicate 32 7 ++ (replicate 32 9 ++ (0 ∷ 0 ∷ 1 ∷ 2 ∷ [])),
  136 ∷ 19 ∷ 0 ∷ 0 ∷ 0 ∷ 0 ∷ 0 ∷ 0 ∷ 8 ∷ 0 ∷ 0 ∷ 0 ∷ replicate 32 3,
)

abbrev stored : Table
stored =
    history_entry 0
    ∷ history_entry 1
    ∷ utxo_entry
    ∷ (b'x' ∷ 0 ∷ 0 ∷ 0 ∷ 8 ∷ [], replicate 32 9 ++ replicate 32 10)
    ∷ []

abbrev entries : List (Bytes × Bytes)
entries = history_entry 0 ∷ history_entry 1 ∷ []

-- The iterator breaks off behind the entries.
abbrev broken_off : Scanned
broken_off = record { entries = entries; failure = some io_failed }

broken-ne-complete :
    {l l' : List (Bytes × Bytes)}
    → ◌≡◌ {A = Result Scanned}
        (ok (record { entries = l; failure = some io_failed }))
        (ok (complete l'))
    → ⊥
broken-ne-complete h = absurd (cc (ap (λ (s : Scanned). s.failure) (ok_injective h)))

abbrev failing_store : Pebble
failing_store = record table_store {
  scan = λ t lower upper. ok (record { entries = within lower upper t; failure = some io_failed });
  scan_contents = λ t lower upper l h. absurd (broken-ne-complete h);
  scan_ascending = λ t lower upper l h. absurd (broken-ne-complete h);
}

entries_are_visited : new_prefix_iterator failing_store stored (b'h' ∷ scripthash) ≡ ok broken_off
unfolding new_prefix_iterator prefix_upper_bound increment bytes_lt keep
entries_are_visited = refl

get_scripthash_history_lem_example :
    (listed : List HistoryItem) × (get_scripthash_history failing_store insertion_sort stored new
        scripthash
      ≡ ok listed)
    × ((q : HistoryItem → Bool)
        → count q listed
          ≡ count q (
              first_of_each (
                confirmed_items failing_store stored entries
                ++ mempool_items (get_scripthash_transactions new scripthash))))
    × ((hash : Bytes) → count (λ x. bytes_eq x.tx_hash hash) listed ≤ 1)
    × IsChronological listed
get_scripthash_history_lem_example =
    get_scripthash_history_lem failing_store insertion_sort stored new scripthash
      (b'h' ∷ scripthash) broken_off insertion_sort-IsSort (unfold make_history_prefix in refl)
      entries_are_visited

abbrev one_unspent : List Unspent
one_unspent =
    record {
      tx_hash = txid_to_hex (replicate 32 9);
      tx_pos = 258;
      height = pos 8;
      value = pos 5000;
    }
    ∷ []

unspent_is_listed : get_scripthash_unspent table_store stored new scripthash ≡ ok one_unspent
unfolding get_scripthash_unspent make_utxo_prefix new_prefix_iterator prefix_upper_bound increment
    bytes_lt scan_table keep list_entries parse_utxo_key decode_utxo_value is_output_spent
    get_unspent_outputs unspent_among read_cells get new
unspent_is_listed = refl

utxos_are_read :
    new_prefix_iterator table_store stored (b'u' ∷ scripthash) ≡ ok (complete (utxo_entry ∷ []))
unfolding new_prefix_iterator prefix_upper_bound increment bytes_lt scan_table keep
utxos_are_read = refl

get_scripthash_balance-get_scripthash_unspent_example :
    (confirmed : List Unspent) × (b : Balance) × (get_scripthash_unspent table_store stored new
        scripthash
      ≡ ok (
          confirmed
          ++ map
              (λ o. record {
                tx_hash = txid_to_hex o.txid;
                tx_pos = o.vout;
                height = pos 0;
                value = o.value;
              })
              (get_unspent_outputs new scripthash)))
    × (get_scripthash_balance table_store stored new scripthash ≡ ok b)
    × (b.confirmed ≡ value_sum (pos 0) confirmed)
get_scripthash_balance-get_scripthash_unspent_example =
    get_scripthash_balance-get_scripthash_unspent table_store stored new scripthash
      (b'u' ∷ scripthash) (utxo_entry ∷ []) (unfold make_utxo_prefix in refl) utxos_are_read

abbrev two_items : List HistoryItem
two_items =
    record { tx_hash = 97 ∷ []; height = pos 8 } ∷ record { tx_hash = 98 ∷ []; height = pos 0 } ∷ []

status_text_injective_example : two_items ≡ two_items
status_text_injective_example =
    status_text_injective two_items two_items ((omega arith, tt), ((omega arith, tt), tt))
      ((omega arith, tt), ((omega arith, tt), tt)) refl
