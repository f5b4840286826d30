-- ===== src/Indexer/Mempool/Spending.antt =====
-- The map of spent outputs under each method of the overlay.
use electrum_go.Base.{
  ℕ, ◌≡◌, refl, ap, ◌∙◌, Bool, true, false, ◌||◌, Option, none, some, List, [], ◌∷◌, arith,
  if◌then◌else◌,
}
use electrum_go.Base.Bytes.{Bytes, bytes_eq}
use electrum_go.Base.Map.{
  nat_eq, bytes_key, Map, get, set, delete, get-set, get-delete, bytes_eq_iff,
}
use electrum_go.Indexer.Mempool.{
  MempoolInput, MempoolOutput, MempoolTransaction, MempoolOverlay, make_outpoint_key, mark_spent,
  spend_inputs, delete_spent,
}

-- Whether the outpoint is among the inputs.
unfoldable pub spends : List MempoolInput → Bytes → Bool
spends [] key = false
spends (i ∷ is') key = bytes_eq (make_outpoint_key i.prev_txid i.prev_vout) key || spends is' key

pub get-delete_spent :
    (m : Map Bytes Bytes) (is' : List MempoolInput) (key : Bytes)
    → get (delete_spent m is') key ≡ (if spends is' key then none else get m key)
unfolding delete_spent spends
get-delete_spent m [] key = refl
get-delete_spent m (i ∷ is') key =
    let own = make_outpoint_key i.prev_txid i.prev_vout in
    ground
      (arith, get-delete_spent (delete m own) is' key, get-delete m own key, bytes_eq_iff own key)

-- Marking a cell changes the cells alone.
pub mark_spent-maps :
    (m : MempoolOverlay) (key txid : Bytes)
    → ((mark_spent m key txid).transactions ≡ m.transactions)
      × ((mark_spent m key txid).by_scripthash ≡ m.by_scripthash)
      × ((mark_spent m key txid).spent_by ≡ m.spent_by)
      × ((mark_spent m key txid).outputs ≡ m.outputs)
unfolding mark_spent
mark_spent-maps m key txid = at_address (get m.outputs key) refl
  where
    at_cell :
        (a : ℕ) (o : Option MempoolOutput)
        → get m.outputs key ≡ some a
        → get m.cells a ≡ o
        → ((mark_spent m key txid).transactions ≡ m.transactions)
          × ((mark_spent m key txid).by_scripthash ≡ m.by_scripthash)
          × ((mark_spent m key txid).spent_by ≡ m.spent_by)
          × ((mark_spent m key txid).outputs ≡ m.outputs)
    at_cell a none e f = rw (e, f, mark_spent) (refl, refl, refl, refl)
    at_cell a (some o) e f = rw (e, f, mark_spent) (refl, refl, refl, refl)

    at_address :
        (a : Option ℕ)
        → get m.outputs key ≡ a
        → ((mark_spent m key txid).transactions ≡ m.transactions)
          × ((mark_spent m key txid).by_scripthash ≡ m.by_scripthash)
          × ((mark_spent m key txid).spent_by ≡ m.spent_by)
          × ((mark_spent m key txid).outputs ≡ m.outputs)
    at_address none e = rw (e, mark_spent) (refl, refl, refl, refl)
    at_address (some a) e = at_cell a (get m.cells a) e refl

pub spend_inputs-maps :
    (m : MempoolOverlay) (is' : List MempoolInput) (txid txid_hex : Bytes)
    → ((spend_inputs m is' txid txid_hex).transactions ≡ m.transactions)
      × ((spend_inputs m is' txid txid_hex).by_scripthash ≡ m.by_scripthash)
      × ((spend_inputs m is' txid txid_hex).outputs ≡ m.outputs)
unfolding spend_inputs
spend_inputs-maps m [] txid txid_hex = (refl, refl, refl)
spend_inputs-maps m (i ∷ is') txid txid_hex =
    let key = make_outpoint_key i.prev_txid i.prev_vout in
    let first : MempoolOverlay = record m { spent_by = set m.spent_by key txid_hex } in
    let (t, b, s, o) = mark_spent-maps first key txid in
    let (tt', bb, oo) = spend_inputs-maps (mark_spent first key txid) is' txid txid_hex in
    (tt' ∙ t, bb ∙ b, oo ∙ o)

pub get-spend_inputs :
    (m : MempoolOverlay) (is' : List MempoolInput) (txid txid_hex key : Bytes)
    → get (spend_inputs m is' txid txid_hex).spent_by key
      ≡ (if spends is' key then some txid_hex else get m.spent_by key)
unfolding spend_inputs spends
get-spend_inputs m [] txid txid_hex key = refl
get-spend_inputs m (i ∷ is') txid txid_hex key =
    let own = make_outpoint_key i.prev_txid i.prev_vout in
    let first : MempoolOverlay = record m { spent_by = set m.spent_by own txid_hex } in
    let (t, b, s, o) = mark_spent-maps first own txid in
    ground (
      arith,
      get-spend_inputs (mark_spent first own txid) is' txid txid_hex key,
      ap (λ (x : Map Bytes Bytes). get x key) s,
      get-set m.spent_by own key txid_hex,
    )

-- Every outpoint that is marked as spent is an input of a transaction of the overlay, which is the one
-- that is named.
abbrev pub IsSound : MempoolOverlay → Type 0
IsSound m =
    (key txid_hex : Bytes)
    → get m.spent_by key ≡ some txid_hex
    → (t : MempoolTransaction) × (get m.transactions txid_hex ≡ some t)
      × (spends t.inputs key ≡ true)
