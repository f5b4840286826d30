-- ===== src/Indexer/Block/Tracked.antt =====
-- What holds of the variables of IndexBlock's loop: the batch touches only the keys that the undo record
-- names, besides four tables that a rollback leaves, and the record tells the truth of the database.
use electrum_go.Base.{
  ℕ, ◌+◌, ◌^◌, ◌≤◌, ◌<◌, ◌≡◌, refl, Bool, true, false, ◌||◌, Option, List, [], ◌∷◌, ◌++◌, length,
  ◌==◌, All, arith,
}
use electrum_go.Base.Int.{ℤ}
use electrum_go.Base.Bytes.{Bytes}
use electrum_go.Base.Map.{bytes_key, bytes_eq_iff}
use electrum_go.Base.Result.{ok}
use electrum_go.Storage.Keys.{
  first, make_utxo_key, make_tx_index_key, make_history_key, prefix_mempool, prefix_tx_pos,
  prefix_tx_blob, prefix_tx_offs,
}
use electrum_go.Storage.Undo.{UndoOutput, UndoHistory}
use electrum_go.Storage.Undo.RoundTrip.{FitsOutput, FitsHistory}
use electrum_go.Storage.Pebble.{Op, op_key, Pebble}
use electrum_go.Storage.Database.{Batch}
use electrum_go.Storage.Pebble.{put, del, overlay}
use electrum_go.Indexer.Rollback.Undone.{overlay-then}
use electrum_go.Base.{◌≢◌, none, All-map, All-append}
use electrum_go.Indexer.Rollback.Undone.{
  output_keys, history_keys, mentions, Lacks, Holds, utxo_bytes, touched, touched-append,
}
use electrum_go.Indexer.Block.Entries.{Indexing}

-- The places, the blobs and the offsets of transactions, and the checkpoint.
abbrev pub aside : Bytes → Bool
aside k =
    (first k == prefix_tx_pos)
    || (first k == prefix_tx_blob)
    || (first k == prefix_tx_offs)
    || (first k == b'c')

abbrev pub SpentWas : (Bytes → Option Bytes) → UndoOutput → Type 0
SpentWas c o =
    Holds c (make_utxo_key o.scripthash o.txid o.vout) (utxo_bytes o)
    × Holds c (make_tx_index_key o.txid o.vout) o.scripthash
    × FitsOutput o

abbrev pub CreatedNew : (Bytes → Option Bytes) → UndoOutput → Type 0
CreatedNew c o =
    Lacks c (make_utxo_key o.scripthash o.txid o.vout)
    × Lacks c (make_tx_index_key o.txid o.vout)
    × FitsOutput o

abbrev pub HistoryNew : (Bytes → Option Bytes) → UndoHistory → Type 0
HistoryNew c h = Lacks c (make_history_key h.scripthash h.height h.tx_index h.index) × FitsHistory h

-- The database has no output and no entry of the outpoint index for the txid.
abbrev pub NewTxid : (Bytes → Option Bytes) → Bytes → Type 0
NewTxid c txid =
    (sh : Bytes) (vout : ℕ)
    → Lacks c (make_utxo_key sh txid vout) × Lacks c (make_tx_index_key txid vout)

-- The database has no entry of the history at the height.
abbrev pub NewHeight : (Bytes → Option Bytes) → ℤ → Type 0
NewHeight c height = (sh : Bytes) (i j : ℕ) → Lacks c (make_history_key sh height i j)

-- The keys that the lists name.
unfoldable pub named : List UndoOutput → List UndoOutput → List UndoHistory → Bytes → Bool
named created spent history k =
    mentions (output_keys created) k
    || (mentions (output_keys spent) k || mentions (history_keys history) k)

abbrev pub Covers : Batch → List UndoOutput → List UndoOutput → List UndoHistory → Type 0
Covers batch created spent history =
    (k : Bytes) → touched batch k ≡ true → (named created spent history k || aside k) ≡ true

mentions-output_keys-append :
    (xs ys : List UndoOutput) (k : Bytes)
    → mentions (output_keys (xs ++ ys)) k
      ≡ (mentions (output_keys xs) k || mentions (output_keys ys) k)
mentions-output_keys-append [] ys k = refl
mentions-output_keys-append (x ∷ xs) ys k = ground (arith, mentions-output_keys-append xs ys k)

mentions-history_keys-append :
    (xs ys : List UndoHistory) (k : Bytes)
    → mentions (history_keys (xs ++ ys)) k
      ≡ (mentions (history_keys xs) k || mentions (history_keys ys) k)
mentions-history_keys-append [] ys k = refl
mentions-history_keys-append (x ∷ xs) ys k = ground (arith, mentions-history_keys-append xs ys k)

-- One more entry of each kind, with the operations that stand for it.
module _ (batch : Batch) (created spent : List UndoOutput) (history : List UndoHistory) where
  pub Covers-two-created :
      (o : UndoOutput) (a b : Op)
      → make_utxo_key o.scripthash o.txid o.vout ≡ ok (op_key a)
      → make_tx_index_key o.txid o.vout ≡ ok (op_key b)
      → Covers batch created spent history
      → Covers ((batch ++ (a ∷ [])) ++ (b ∷ [])) (created ++ (o ∷ [])) spent history
  unfolding named touched
  Covers-two-created o a b ea eb h k t = ground (
    arith,
    ea,
    eb,
    t,
    h k,
    touched-append (batch ++ (a ∷ [])) (b ∷ []) k,
    touched-append batch (a ∷ []) k,
    mentions-output_keys-append created (o ∷ []) k,
  )

  pub Covers-two-spent :
      (o : UndoOutput) (a b : Op)
      → make_utxo_key o.scripthash o.txid o.vout ≡ ok (op_key a)
      → make_tx_index_key o.txid o.vout ≡ ok (op_key b)
      → Covers batch created spent history
      → Covers ((batch ++ (a ∷ [])) ++ (b ∷ [])) created (spent ++ (o ∷ [])) history
  unfolding named touched
  Covers-two-spent o a b ea eb h k t = ground (
    arith,
    ea,
    eb,
    t,
    h k,
    touched-append (batch ++ (a ∷ [])) (b ∷ []) k,
    touched-append batch (a ∷ []) k,
    mentions-output_keys-append spent (o ∷ []) k,
  )

  pub Covers-history :
      (e : UndoHistory) (a : Op)
      → make_history_key e.scripthash e.height e.tx_index e.index ≡ ok (op_key a)
      → Covers batch created spent history
      → Covers (batch ++ (a ∷ [])) created spent (history ++ (e ∷ []))
  unfolding named touched
  Covers-history e a ea h k t = ground (
    arith,
    ea,
    t,
    h k,
    touched-append batch (a ∷ []) k,
    mentions-history_keys-append history (e ∷ []) k,
  )

  pub Covers-aside :
      (a : Op)
      → aside (op_key a) ≡ true
      → Covers batch created spent history
      → Covers (batch ++ (a ∷ [])) created spent history
  unfolding touched
  Covers-aside a ha h k t =
      ground (arith, t, ha, h k, touched-append batch (a ∷ []) k, bytes_eq_iff (op_key a) k)

-- The batch leaves something under the utxo keys of the outputs, whatever stands there before.
abbrev pub Present : (Bytes → Option Bytes) → UndoOutput → Type 0
Present f o = (k : Bytes) → make_utxo_key o.scripthash o.txid o.vout ≡ ok k → f k ≢ none

abbrev pub Stays : Batch → List UndoOutput → Type 0
Stays batch created = (now : Bytes → Option Bytes) → All (Present (overlay batch now)) created

pub Stays-put :
    (a : Batch) (k v : Bytes) (created : List UndoOutput)
    → Stays a created
    → Stays (a ++ (put k v ∷ [])) created
Stays-put a k v created h now =
    All-map (Present (overlay a now)) (Present (overlay (a ++ (put k v ∷ [])) now))
      (λ o there j e gone. ground (arith, overlay-then a (put k v) now j, there j e, gone)) created
      (h now)

-- A key that the database has is none of a created output.
pub Stays-del :
    (c : Bytes → Option Bytes) (a : Batch) (k : Bytes) (created : List UndoOutput)
    → c k ≢ none
    → All (CreatedNew c) created
    → Stays a created
    → Stays (a ++ (del k ∷ [])) created
Stays-del c a k [] held fresh h now = tt
Stays-del c a k (o ∷ os) held (f, fresh) h now = (
  λ j e gone.
      ground
        (arith, overlay-then a (del k) now j, (h now).0 j e, gone, f.0 j e, held, bytes_eq_iff k j),
  Stays-del c a k os held fresh (λ n. (h n).1) now,
)

pub Stays-created :
    (a : Batch) (k v j w : Bytes) (created : List UndoOutput) (o : UndoOutput)
    → make_utxo_key o.scripthash o.txid o.vout ≡ ok k
    → Stays a created
    → Stays ((a ++ (put k v ∷ [])) ++ (put j w ∷ [])) (created ++ (o ∷ []))
Stays-created a k v j w created o ek h now =
    let batch = (a ++ (put k v ∷ [])) ++ (put j w ∷ []) in
    All-append (Present (overlay batch now)) created (o ∷ [])
      (Stays-put (a ++ (put k v ∷ [])) j w created (Stays-put a k v created h) now)
      (
        (λ i e gone. ground (
          arith,
          ek,
          e,
          gone,
          overlay-then (a ++ (put k v ∷ [])) (put j w) now i,
          overlay-then a (put k v) now i,
          bytes_eq_iff k i,
        )),
        tt,
      )

module _ (p : Pebble) (c : Bytes → Option Bytes) where
  -- At most `n` inputs and outputs so far, of which `pending` may still give entries of the history.
  pub record Tracked (n pending : ℕ) (s : Indexing p.Db) : Type 0 where
    pub spent : All (SpentWas c) s.spent
    pub created : All (CreatedNew c) s.created
    pub history : All (HistoryNew c) s.history
    pub covers : Covers s.batch s.created s.spent s.history
    pub same : (k : Bytes) → (first k == prefix_mempool) ≡ false → p.contents s.db k ≡ c k
    pub outputs_room : length s.spent + length s.created ≤ n
    pub history_room : length s.history + pending ≤ n
    pub index_fits : s.history_index < 2 ^ 32
    pub stays : Stays s.batch s.created

  -- There may be room for more, and fewer entries may be pending.
  pub widen :
      (n k n' k' : ℕ) (s : Indexing p.Db) → n ≤ n' → k' ≤ k → Tracked n k s → Tracked n' k' s
  widen n k n' k' s h l t = record {
    spent = t.spent;
    created = t.created;
    history = t.history;
    covers = t.covers;
    same = t.same;
    outputs_room = omega (arith, t.outputs_room);
    history_room = omega (arith, t.history_room);
    index_fits = t.index_fits;
    stays = t.stays;
  }
