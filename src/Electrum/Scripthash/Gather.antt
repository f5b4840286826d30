-- ===== src/Electrum/Scripthash/Gather.antt =====
-- internal/electrum/scripthash.go, GetScripthashHistory: its cache of txids and its set of what it has
-- seen, against a reading of each entry by itself and the first of the items with each hash.
use electrum_go.Base.{
  ℕ, ◌≡◌, refl, sym, ap, ◌∙◌, subst, Bool, true, false, Bool-cases, Option-cases, inl, inr, none,
  some, List, [], ◌∷◌, ◌++◌, map, arith, if◌then◌else◌,
}
use mathlib.Core.List.{append_assoc, append-nil}
use electrum_go.Base.Int.{ℤ, pos}
use electrum_go.Base.Bytes.{Bytes, bytes_eq}
use electrum_go.Base.Map.{
  bytes_key, int_key, Map, get, set, has, get-set, get-empty, bytes_eq_iff, eq_int_iff,
}
use electrum_go.Base.Result.{ok, err, Result-cases}
use electrum_go.Storage.Keys.{parse_history_key}
use electrum_go.Storage.Pebble.{Pebble}
use electrum_go.Storage.Database.{get_block_txids}
use electrum_go.Indexer.Types.{txid_to_hex}
use electrum_go.Electrum.Scripthash.{
  HistoryItem, Gathered, nth, gather_item, gather_txid, gather_mempool, gather_at, gather_entry,
  gather_entries,
}

-- The items of other hashes, and of each hash the first item.
unfoldable pub without : Bytes → List HistoryItem → List HistoryItem
without h [] = []
without h (x ∷ xs) = let rest = without h xs in if bytes_eq x.tx_hash h then rest else x ∷ rest

unfoldable pub first_of_each : List HistoryItem → List HistoryItem
first_of_each [] = []
first_of_each (x ∷ xs) = x ∷ without x.tx_hash (first_of_each xs)

unfoldable unseen : Map Bytes Bool → List HistoryItem → List HistoryItem
unseen seen [] = []
unseen seen (x ∷ xs) = let rest = unseen seen xs in if has seen x.tx_hash then rest else x ∷ rest

unfoldable gather_all : Gathered → List HistoryItem → Gathered
gather_all s [] = s
gather_all s (x ∷ xs) = gather_all (gather_item s x) xs

unseen-without :
    (seen : Map Bytes Bool) (h : Bytes) (l : List HistoryItem)
    → has seen h ≡ true
    → unseen seen (without h l) ≡ unseen seen l
unfolding unseen without
unseen-without seen h [] e = refl
unseen-without seen h (x ∷ xs) e =
    ground (arith, e, unseen-without seen h xs, bytes_eq_iff x.tx_hash h)

unseen-set :
    (seen : Map Bytes Bool) (h : Bytes) (l : List HistoryItem)
    → unseen (set seen h true) l ≡ unseen seen (without h l)
unfolding unseen without
unseen-set seen h [] = refl
unseen-set seen h (x ∷ xs) = ground (
  arith,
  unseen-set seen h xs,
  bytes_eq_iff x.tx_hash h,
  bytes_eq_iff h x.tx_hash,
  get-set seen h x.tx_hash true,
)

unseen-empty : (l : List HistoryItem) → unseen [] l ≡ l
unfolding unseen get
unseen-empty [] = refl
unseen-empty (x ∷ xs) = ap (◌∷◌ x) (unseen-empty xs)

gather_item_seen :
    (s : Gathered) (x : HistoryItem) → has s.seen x.tx_hash ≡ true → gather_item s x ≡ s
unfolding gather_item
gather_item_seen s x e = rw e refl

gather_item_new :
    (s : Gathered) (x : HistoryItem)
    → has s.seen x.tx_hash ≡ false
    → gather_item s x
      ≡ record s { seen = set s.seen x.tx_hash true; history = s.history ++ (x ∷ []) }
unfolding gather_item
gather_item_new s x e = rw e refl

history-gather_all :
    (s : Gathered) (l : List HistoryItem)
    → (gather_all s l).history ≡ s.history ++ unseen s.seen (first_of_each l)
unfolding gather_all first_of_each unseen
history-gather_all s [] = sym (append-nil s.history)
history-gather_all s (x ∷ xs) = elim (Bool-cases (has s.seen x.tx_hash)) [
  | inl e ↦
      ap (λ (t : Gathered). (gather_all t xs).history) (gather_item_seen s x e)
      ∙ history-gather_all s xs
      ∙ rw e (ap (◌++◌ s.history) (sym (unseen-without s.seen x.tx_hash (first_of_each xs) e)))
  | inr e ↦
      let s' : Gathered = record s {
        seen = set s.seen x.tx_hash true;
        history = s.history ++ (x ∷ []);
      } in
      ap (λ (t : Gathered). (gather_all t xs).history) (gather_item_new s x e)
      ∙ history-gather_all s' xs
      ∙ rw e (
          ap (◌++◌ (s.history ++ (x ∷ []))) (unseen-set s.seen x.tx_hash (first_of_each xs))
          ∙ append_assoc s.history (x ∷ []) (unseen s.seen (without x.tx_hash (first_of_each xs))))
]

gather_all-append :
    (s : Gathered) (xs ys : List HistoryItem)
    → gather_all s (xs ++ ys) ≡ gather_all (gather_all s xs) ys
unfolding gather_all
gather_all-append s [] ys = refl
gather_all-append s (x ∷ xs) ys = gather_all-append (gather_item s x) xs ys

abbrev pub mempool_items : List Bytes → List HistoryItem
mempool_items ids = map (λ id. record { tx_hash = id; height = pos 0 }) ids

gather_mempool_lem :
    (s : Gathered) (ids : List Bytes) → gather_mempool s ids ≡ gather_all s (mempool_items ids)
unfolding gather_mempool gather_all
gather_mempool_lem s [] = refl
gather_mempool_lem s (id ∷ ids) =
    gather_mempool_lem (gather_item s (record { tx_hash = id; height = pos 0 })) ids

-- The cache is no part of what is gathered.
abbrev with_cache : Gathered → Map ℤ (List Bytes) → Gathered
with_cache s c = record s { cache = c }

gather_item-with_cache :
    (s : Gathered) (c : Map ℤ (List Bytes)) (x : HistoryItem)
    → gather_item (with_cache s c) x ≡ with_cache (gather_item s x) c
unfolding gather_item
gather_item-with_cache s c x = elim (Bool-cases (has s.seen x.tx_hash)) [
  | inl e ↦ rw e refl
  | inr e ↦ rw e refl
]

gather_all-with_cache :
    (s : Gathered) (c : Map ℤ (List Bytes)) (l : List HistoryItem)
    → gather_all (with_cache s c) l ≡ with_cache (gather_all s l) c
unfolding gather_all
gather_all-with_cache s c [] = refl
gather_all-with_cache s c (x ∷ xs) =
    ap (λ (t : Gathered). gather_all t xs) (gather_item-with_cache s c x)
    ∙ gather_all-with_cache (gather_item s x) c xs

module _ (p : Pebble) where
  open p use {Db}

  -- The items of an entry, read without a cache.
  unfoldable pub items_at : Db → ℤ → ℕ → List HistoryItem
  items_at d height tx_index = elim (get_block_txids p d height) [
    | err e ↦ []
    | ok txids ↦ elim (nth txids tx_index) [
      | none ↦ []
      | some txid ↦ record { tx_hash = txid_to_hex txid; height = height } ∷ []
    ]
  ]

  unfoldable pub entry_items : Db → Bytes → List HistoryItem
  entry_items d key = elim (parse_history_key key) [
    | err e ↦ []
    | ok (sh, height, tx_index, index) ↦ items_at d height tx_index
  ]

  unfoldable pub confirmed_items : Db → List (Bytes × Bytes) → List HistoryItem
  confirmed_items d [] = []
  confirmed_items d ((k, v) ∷ r) = entry_items d k ++ confirmed_items d r

  -- The cache holds what the database would answer.
  abbrev IsCache : Db → Map ℤ (List Bytes) → Type 0
  IsCache d c =
      (h : ℤ) (txids : List Bytes) → get c h ≡ some txids → get_block_txids p d h ≡ ok txids

  abbrev Follows : Db → Gathered → Gathered → List HistoryItem → Type 0
  Follows d s s' items =
      (c : Map ℤ (List Bytes)) × IsCache d c × (s' ≡ with_cache (gather_all s items) c)

  gather_txid-Follows :
      (d : Db) (s : Gathered) (c : Map ℤ (List Bytes)) (h : ℤ) (txids : List Bytes) (i : ℕ)
      → get_block_txids p d h ≡ ok txids
      → IsCache d c
      → Follows d s (gather_txid (with_cache s c) h txids i) (items_at d h i)
  unfolding gather_all gather_txid items_at
  gather_txid-Follows d s c h txids i e k = elim (Option-cases (nth txids i)) [
    | inl f ↦ (c, k, rw (f, gather_txid) (rw (e, items_at) (rw f refl)))
    | inr (txid, f) ↦ (
      c,
      k,
      rw (f, gather_txid)
          (rw (e, items_at)
            (rw f
              (gather_item-with_cache s c (record { tx_hash = txid_to_hex txid; height = h })))),
    )
  ]

  IsCache-set :
      (d : Db) (c : Map ℤ (List Bytes)) (h : ℤ) (txids : List Bytes)
      → get_block_txids p d h ≡ ok txids
      → IsCache d c
      → IsCache d (set c h txids)
  IsCache-set d c h txids e k h' t f =
      ground (arith, e, f, k h' t, get-set c h h' txids, eq_int_iff h h')

  gather_at-Follows :
      (d : Db) (s : Gathered) (h : ℤ) (i : ℕ)
      → IsCache d s.cache
      → Follows d s (gather_at p d s h i) (items_at d h i)
  unfolding gather_all gather_at items_at
  gather_at-Follows d s h i k = elim (Option-cases (get s.cache h)) [
    | inr (txids, e) ↦ rw (e, gather_at) (gather_txid-Follows d s s.cache h txids i (k h txids e) k)
    | inl e ↦ elim (Result-cases (get_block_txids p d h)) [
      | inl (txids, f) ↦
          rw (e, gather_at)
            (rw f (
              gather_txid-Follows d s (set s.cache h txids) h txids i f
                (IsCache-set d s.cache h txids f k)))
      | inr (x, f) ↦ (s.cache, k, rw (e, gather_at) (rw f (rw (f, items_at) refl)))
    ]
  ]

  gather_entry-Follows :
      (d : Db) (s : Gathered) (key : Bytes)
      → IsCache d s.cache
      → Follows d s (gather_entry p d s key) (entry_items d key)
  unfolding gather_all gather_entry entry_items
  gather_entry-Follows d s key k = elim (Result-cases (parse_history_key key)) [
    | inr (x, e) ↦ rw (e, gather_entry) (rw (e, entry_items) (s.cache, k, refl))
    | inl ((sh, height, tx_index, index), e) ↦
        rw (e, gather_entry) (rw (e, entry_items) (gather_at-Follows d s height tx_index k))
  ]

  gather_entries-Follows :
      (d : Db) (s : Gathered) (es : List (Bytes × Bytes))
      → IsCache d s.cache
      → Follows d s (gather_entries p d s es) (confirmed_items d es)
  unfolding gather_entries confirmed_items gather_all
  gather_entries-Follows d s [] k = (s.cache, k, refl)
  gather_entries-Follows d s ((key, v) ∷ r) k =
      let (c, kc, e) = gather_entry-Follows d s key k in
      let s' = gather_entry p d s key in
      let (c', kc', e') =
        gather_entries-Follows d s' r (subst (λ (t : Gathered). IsCache d t.cache) (sym e) kc) in
      (
        c',
        kc',
        e'
            ∙ ap (λ (t : Gathered). with_cache (gather_all t (confirmed_items d r)) c') e
            ∙ ap (λ (t : Gathered). with_cache t c')
                (gather_all-with_cache (gather_all s (entry_items d key)) c (confirmed_items d r))
            ∙ ap (λ (t : Gathered). with_cache t c')
                (sym (gather_all-append s (entry_items d key) (confirmed_items d r))),
      )

  -- The list before it is sorted: its cache of txids changes nothing.
  pub history-gather_entries :
      (d : Db) (entries : List (Bytes × Bytes)) (ids : List Bytes)
      → (let s = gather_entries p d (record { cache = []; seen = []; history = [] }) entries in
          (gather_mempool s ids).history)
        ≡ first_of_each (confirmed_items d entries ++ mempool_items ids)
  history-gather_entries d entries ids =
      let s : Gathered = record { cache = []; seen = []; history = [] } in
      let items = confirmed_items d entries in
      let (c, k, e) =
        gather_entries-Follows d s entries
          (λ h t f. absurd (cc (get-empty {V = List Bytes} h, f))) in
      ap (λ (t : Gathered). t.history) (gather_mempool_lem (gather_entries p d s entries) ids)
      ∙ ap (λ (t : Gathered). (gather_all t (mempool_items ids)).history) e
      ∙ ap (λ (t : Gathered). t.history)
          (gather_all-with_cache (gather_all s items) c (mempool_items ids))
      ∙ ap (λ (t : Gathered). t.history) (sym (gather_all-append s items (mempool_items ids)))
      ∙ history-gather_all s (items ++ mempool_items ids)
      ∙ unseen-empty (first_of_each (items ++ mempool_items ids))
