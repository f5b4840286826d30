-- ===== src/Indexer/Mempool/Reconcile.antt =====
-- internal/indexer/mempool.go: ReconcileWith and LoadFromDatabase.
use electrum_go.Base.{ℕ, ◌+◌, Bool, true, false, none, some, List, [], ◌∷◌, if◌then◌else◌}
use electrum_go.Base.Bytes.{Bytes}
use electrum_go.Base.Hex.{hex_encode}
use electrum_go.Base.Map.{nat_eq, bytes_key, Map, get, set, delete}
use electrum_go.Base.Sets.{keys, add_member, drop_member}
use electrum_go.Base.Result.{Result, ok, err, ◌>>=◌}
use electrum_go.Storage.Keys.{prefix_mempool, parse_mempool_key}
use electrum_go.Storage.Values.{decode_mempool_value}
use electrum_go.Storage.Pebble.{Pebble}
use electrum_go.Storage.Database.{new_prefix_iterator}
use electrum_go.Indexer.Types.{txid_to_hex}
use electrum_go.Indexer.Mempool.{MempoolOutput, MempoolOverlay, make_outpoint_key}
use electrum_go.Indexer.Mempool.Methods.{remove_by_hex}

-- `m[k]` of a map to bool, false where the key is missing.
abbrev pub is_valid : Map Bytes Bool → Bytes → Bool
is_valid valid txid_hex = elim (get valid txid_hex) [ none ↦ false | some b ↦ b ]

unfoldable pub add_affected : Map Bytes Bool → List Bytes → Map Bytes Bool
add_affected affected [] = affected
add_affected affected (sh ∷ shs) = add_affected (set affected sh true) shs

-- What the three loops keep: the overlay, the number of removals, and the scripthashes affected.
pub record Progress : Type 0 where
  pub overlay : MempoolOverlay
  pub removed : ℕ
  pub affected : Map Bytes Bool

-- An output whose transaction is gone, with its entry in the set of its scripthash.
unfoldable pub drop_output : Progress → Bytes → MempoolOutput → Progress
drop_output s key o = record {
  overlay = record s.overlay {
    outputs = delete s.overlay.outputs key;
    by_scripthash =
        drop_member s.overlay.by_scripthash (hex_encode o.scripthash) (txid_to_hex o.txid);
  };
  removed = s.removed + 1;
  affected = set s.affected (hex_encode o.scripthash) true;
}

unfoldable pub drop_outputs : Map Bytes Bool → Progress → Map Bytes ℕ → Progress
drop_outputs valid s [] = s
drop_outputs valid s ((key, a) ∷ r) =
    drop_outputs valid
      (elim (get s.overlay.cells a) [
        | none ↦ s
        | some o ↦ if is_valid valid (txid_to_hex o.txid) then s else drop_output s key o
      ])
      r

-- The map, over the entries that it had.
unfoldable pub drop_spenders : Map Bytes Bool → Map Bytes Bytes → Map Bytes Bytes → Map Bytes Bytes
drop_spenders valid spent_by [] = spent_by
drop_spenders valid spent_by ((key, spender) ∷ r) =
    drop_spenders valid (if is_valid valid spender then spent_by else delete spent_by key) r

module _ (p : Pebble) where
  open p use {Db}

  -- A loop ranges over the entries that the map has when it begins.
  unfoldable pub drop_transactions : Map Bytes Bool → Progress → Db → List Bytes → Progress × Db
  drop_transactions valid s d [] = (s, d)
  drop_transactions valid s d (txid_hex ∷ r) = elim (is_valid valid txid_hex) [
    | true ↦ drop_transactions valid s d r
    | false ↦
        let (m, d', shs) = remove_by_hex p s.overlay d txid_hex in
        drop_transactions valid
          (record { overlay = m; removed = s.removed + 1; affected = add_affected s.affected shs })
          d' r
  ]

  unfoldable pub reconcile_with :
      MempoolOverlay → Db → Map Bytes Bool → MempoolOverlay × Db × ℕ × List Bytes
  reconcile_with m d valid =
      let (s, d') =
        drop_transactions valid (record { overlay = m; removed = 0; affected = [] }) d
          (keys m.transactions) in
      let t = drop_outputs valid s s.overlay.outputs in
      (
        record t.overlay { spent_by = drop_spenders valid t.overlay.spent_by t.overlay.spent_by },
        d',
        t.removed,
        keys t.affected,
      )

  -- One entry of the mempool table; an entry that does not parse is passed over.
  unfoldable pub load_entry : MempoolOverlay → Bytes → Bytes → MempoolOverlay
  load_entry m key value = elim (parse_mempool_key key) [
    | err e ↦ m
    | ok (scripthash, txid, vout) ↦ elim (decode_mempool_value value) [
      | err e ↦ m
      | ok v ↦ record m {
        cells = set m.cells m.next_cell (record {
          txid = txid;
          vout = vout;
          scripthash = scripthash;
          value = v.value;
          spent_by_txid = [];
        });
        outputs = set m.outputs (make_outpoint_key txid vout) m.next_cell;
        by_scripthash = add_member m.by_scripthash (hex_encode scripthash) (txid_to_hex txid);
        next_cell = m.next_cell + 1;
      }
    ]
  ]

  unfoldable pub load_entries : MempoolOverlay → List (Bytes × Bytes) → MempoolOverlay
  load_entries m [] = m
  load_entries m ((k, v) ∷ r) = load_entries (load_entry m k v) r

  -- iter.Error() is not read: what was visited stays.
  unfoldable pub load_from_database : MempoolOverlay → Db → Result MempoolOverlay
  load_from_database m d = do
    it ← new_prefix_iterator p d (prefix_mempool ∷ [])
    ok (load_entries m it.entries)
