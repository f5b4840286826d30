-- ===== src/Electrum/Scripthash/Sorted.antt =====
-- internal/electrum/scripthash.go: the order of GetScripthashHistory, with what sort.Slice promises.
use electrum_go.Base.{
  ℕ, suc, ◌≤◌, ◌≡◌, ◌≢◌, ◌⊎◌, refl, ap, Bool, true, false, not, ◌&&◌, Bool-cases, inl, inr, List,
  [], ◌∷◌, ◌++◌, All, All-map, arith, if◌then◌else◌,
}
use electrum_go.Base.Int.{ℤ, pos, negsuc, eq_int, lt_int}
use electrum_go.Base.Bytes.{Bytes, bytes_eq}
use electrum_go.Base.Map.{bytes_eq_iff, eq_int_iff}
use electrum_go.Base.Result.{ok}
use electrum_go.Storage.Keys.{make_history_prefix}
use electrum_go.Storage.Pebble.{Scanned, Pebble}
use electrum_go.Storage.Database.{new_prefix_iterator}
use electrum_go.Indexer.Mempool.{MempoolOverlay}
use electrum_go.Indexer.Mempool.Queries.{get_scripthash_transactions}
use electrum_go.Electrum.Scripthash.{HistoryItem, comes_first, get_scripthash_history}
use electrum_go.Electrum.Scripthash.Gather.{
  without, first_of_each, mempool_items, confirmed_items, history-gather_entries,
}

abbrev pub Less : Type 0
Less = HistoryItem → HistoryItem → Bool

-- The number of items that pass a test.
unfoldable pub count : (HistoryItem → Bool) → List HistoryItem → ℕ
count q [] = 0
count q (x ∷ xs) = let rest = count q xs in if q x then suc rest else rest

-- What sort.Slice asks of a test: a strict weak ordering.
pub record IsStrictWeak (less : Less) : Type 0 where
  pub asymmetric : (x y : HistoryItem) → less x y ≡ true → less y x ≡ false
  pub transitive : (x y z : HistoryItem) → less x y ≡ true → less y z ≡ true → less x z ≡ true
  pub incomparable : (x y z : HistoryItem) → less x y ≡ false → less y z ≡ false → less x z ≡ false

-- No item belongs before one that stands before it.
abbrev pub InOrder : Less → List HistoryItem → Type 0
InOrder less [] = Unit {0}
InOrder less (x ∷ xs) = All (λ y. less y x ≡ false) xs × InOrder less xs

-- What sort.Slice promises: the same items, in the order of such a test.
pub record IsSort (sort_slice : Less → List HistoryItem → List HistoryItem) : Type 0 where
  pub permutes :
      (less : Less) (l : List HistoryItem) (q : HistoryItem → Bool)
      → count q (sort_slice less l) ≡ count q l
  pub orders :
      (less : Less) (l : List HistoryItem) → IsStrictWeak less → InOrder less (sort_slice less l)

-- The order of the heights alone.
abbrev earlier : ℤ → ℤ → Bool
earlier h k =
    if eq_int h (pos 0) && not (eq_int k (pos 0))
    then false
    else if not (eq_int h (pos 0)) && eq_int k (pos 0)
    then true
    else lt_int h k

earlier_asymmetric : (h k : ℤ) → earlier h k ≡ true → earlier k h ≡ false
earlier_asymmetric (pos h) (pos k) e = ground arith
earlier_asymmetric (pos h) (negsuc k) e = ground arith
earlier_asymmetric (negsuc h) (pos k) e = ground arith
earlier_asymmetric (negsuc h) (negsuc k) e = ground arith

earlier_transitive : (h k l : ℤ) → earlier h k ≡ true → earlier k l ≡ true → earlier h l ≡ true
earlier_transitive (pos h) (pos k) (pos l) e f = ground arith
earlier_transitive (pos h) (pos k) (negsuc l) e f = ground arith
earlier_transitive (pos h) (negsuc k) (pos l) e f = ground arith
earlier_transitive (pos h) (negsuc k) (negsuc l) e f = ground arith
earlier_transitive (negsuc h) (pos k) (pos l) e f = ground arith
earlier_transitive (negsuc h) (pos k) (negsuc l) e f = ground arith
earlier_transitive (negsuc h) (negsuc k) (pos l) e f = ground arith
earlier_transitive (negsuc h) (negsuc k) (negsuc l) e f = ground arith

earlier_incomparable : (h k l : ℤ) → earlier h k ≡ false → earlier k l ≡ false → earlier h l ≡ false
earlier_incomparable (pos h) (pos k) (pos l) e f = ground arith
earlier_incomparable (pos h) (pos k) (negsuc l) e f = ground arith
earlier_incomparable (pos h) (negsuc k) (pos l) e f = ground arith
earlier_incomparable (pos h) (negsuc k) (negsuc l) e f = ground arith
earlier_incomparable (negsuc h) (pos k) (pos l) e f = ground arith
earlier_incomparable (negsuc h) (pos k) (negsuc l) e f = ground arith
earlier_incomparable (negsuc h) (negsuc k) (pos l) e f = ground arith
earlier_incomparable (negsuc h) (negsuc k) (negsuc l) e f = ground arith

comes_first-IsStrictWeak : IsStrictWeak comes_first
unfolding comes_first
comes_first-IsStrictWeak = record {
  asymmetric = λ x y. earlier_asymmetric x.height y.height;
  transitive = λ x y z. earlier_transitive x.height y.height z.height;
  incomparable = λ x y z. earlier_incomparable x.height y.height z.height;
}

-- Where one item may stand before another: blocks from the lowest height on, then the mempool, at 0.
abbrev pub MayPrecede : HistoryItem → HistoryItem → Type 0
MayPrecede x y = (y.height ≡ pos 0) ⊎ ((x.height ≢ pos 0) × (lt_int y.height x.height ≡ false))

unfoldable pub IsChronological : List HistoryItem → Type 0
IsChronological [] = Unit {0}
IsChronological (x ∷ xs) = All (MayPrecede x) xs × IsChronological xs

comes_first-MayPrecede : (x y : HistoryItem) → comes_first y x ≡ false → MayPrecede x y
unfolding comes_first
comes_first-MayPrecede x y e =
    ground (arith, eq_int_iff x.height (pos 0), eq_int_iff y.height (pos 0))

InOrder-IsChronological : (l : List HistoryItem) → InOrder comes_first l → IsChronological l
unfolding IsChronological
InOrder-IsChronological [] h = tt
InOrder-IsChronological (x ∷ xs) (h, hs) =
    (All-map _ (MayPrecede x) (comes_first-MayPrecede x) xs h, InOrder-IsChronological xs hs)

count-without_self :
    (hash : Bytes) (l : List HistoryItem)
    → count (λ x. bytes_eq x.tx_hash hash) (without hash l) ≡ 0
unfolding count without
count-without_self hash [] = refl
count-without_self hash (x ∷ xs) = ground (arith, count-without_self hash xs)

count-without_le :
    (q : HistoryItem → Bool) (hash : Bytes) (l : List HistoryItem)
    → count q (without hash l) ≤ count q l
unfolding count without
count-without_le q hash [] = omega arith
count-without_le q hash (x ∷ xs) = ground (arith, count-without_le q hash xs)

count-first_of_each :
    (hash : Bytes) (l : List HistoryItem)
    → count (λ x. bytes_eq x.tx_hash hash) (first_of_each l) ≤ 1
unfolding count first_of_each
count-first_of_each hash [] = omega arith
count-first_of_each hash (x ∷ xs) = elim (Bool-cases (bytes_eq x.tx_hash hash)) [
  | inl same ↦
      rw (same, (bytes_eq_iff x.tx_hash hash).0 same)
        (omega (arith, count-without_self hash (first_of_each xs)))
  | inr other ↦ rw other (
      omega (
        arith,
        count-without_le (λ y. bytes_eq y.tx_hash hash) x.tx_hash (first_of_each xs),
        count-first_of_each hash xs,
      ))
]

module _ (p : Pebble) where
  open p use {Db}

  -- If the prefix is made and the iterator is opened, and sort.Slice keeps the items and puts them into
  -- the order of a strict weak ordering, GetScripthashHistory returns a list. In it are the items of the
  -- entries that the iterator visits, whether it breaks off or not, each read from the database by
  -- itself, and those of the mempool at height 0, of each hash the first; no hash is in it twice; and
  -- the items of blocks stand in the order of their heights, before those at height 0.
  pub get_scripthash_history_lem :
      (sort_slice : Less → List HistoryItem → List HistoryItem) (d : Db) (m : MempoolOverlay)
      (scripthash prefix : Bytes) (it : Scanned)
      → IsSort sort_slice
      → make_history_prefix scripthash ≡ ok prefix
      → new_prefix_iterator p d prefix ≡ ok it
      → (listed : List HistoryItem) × (get_scripthash_history p sort_slice d m scripthash
          ≡ ok listed)
        × ((q : HistoryItem → Bool)
            → count q listed
              ≡ count q (
                  first_of_each (
                    confirmed_items p d it.entries
                    ++ mempool_items (get_scripthash_transactions m scripthash))))
        × ((hash : Bytes) → count (λ x. bytes_eq x.tx_hash hash) listed ≤ 1)
        × IsChronological listed
  unfolding get_scripthash_history
  get_scripthash_history_lem sort_slice d m scripthash prefix it sorts ep ee =
      let ids = get_scripthash_transactions m scripthash in
      let items = first_of_each (confirmed_items p d it.entries ++ mempool_items ids) in
      let same = sorts.permutes comes_first items in
      (
        sort_slice comes_first items,
        rw (ep, ee)
            (ap (λ (l : List HistoryItem). ok (sort_slice comes_first l))
              (history-gather_entries p d it.entries ids)),
        same,
        λ hash. omega (
          arith,
          same (λ x. bytes_eq x.tx_hash hash),
          count-first_of_each hash (confirmed_items p d it.entries ++ mempool_items ids),
        ),
        InOrder-IsChronological (sort_slice comes_first items)
            (sorts.orders comes_first items comes_first-IsStrictWeak),
      )
