-- ===== src/Indexer/Rollback/Undone.antt =====
-- What an undo record says of the database before its block, and batches that agree with it.
use electrum_go.Base.{
  ◌≡◌, refl, Bool, false, ◌||◌, Option, none, some, List, [], ◌∷◌, ◌++◌, length, All, All-append,
  arith, if◌then◌else◌,
}
use electrum_go.Base.Int.{ℤ}
use electrum_go.Base.Bytes.{Bytes, bytes_eq}
use electrum_go.Base.Map.{bytes_eq_iff}
use electrum_go.Base.Result.{Result, ok, err}
use electrum_go.Storage.Keys.{
  make_utxo_key, make_tx_index_key, make_history_key, make_header_key, make_block_txids_key,
  make_undo_key,
}
use electrum_go.Storage.Values.{encode_utxo_value}
use electrum_go.Storage.Undo.{UndoOutput, UndoHistory, UndoBlock}
use electrum_go.Storage.Pebble.{Op, op_key, written, overlay}
use electrum_go.Storage.Database.{Batch}

-- The keys that the record of a block names: its outputs, created and spent, its history entries,
-- and the header, the txids and the undo record of its height.
abbrev pub output_keys : List UndoOutput → List (Result Bytes)
output_keys [] = []
output_keys (o ∷ os) =
    make_utxo_key o.scripthash o.txid o.vout ∷ make_tx_index_key o.txid o.vout ∷ output_keys os

abbrev pub history_keys : List UndoHistory → List (Result Bytes)
history_keys [] = []
history_keys (h ∷ hs) = make_history_key h.scripthash h.height h.tx_index h.index ∷ history_keys hs

abbrev pub undone_keys : UndoBlock → ℤ → Bytes → List (Result Bytes)
undone_keys u height hash =
    output_keys u.created_outputs
    ++ (output_keys u.spent_outputs
        ++ (history_keys u.history_entries
            ++ (make_header_key height
                ∷ make_block_txids_key height
                ∷ make_undo_key height hash
                ∷ [])))

abbrev pub names : Result Bytes → Bytes → Bool
names (ok j) k = bytes_eq j k
names (err e) k = false

abbrev pub mentions : List (Result Bytes) → Bytes → Bool
mentions [] k = false
mentions (r ∷ rs) k = names r k || mentions rs k

-- A database, as a function of keys, has nothing at a key, or has a value there.
abbrev pub Lacks : (Bytes → Option Bytes) → Result Bytes → Type 0
Lacks c r = (k : Bytes) → r ≡ ok k → c k ≡ none

abbrev pub Holds : (Bytes → Option Bytes) → Result Bytes → Bytes → Type 0
Holds c r v = (k : Bytes) → r ≡ ok k → c k ≡ some v

abbrev pub utxo_bytes : UndoOutput → Bytes
utxo_bytes o =
    encode_utxo_value (record { value = o.value; height = o.height; block_hash = o.block_hash })

-- `u` tells a block of this height and hash apart from the database before it: what the block created
-- was not there, and what it spent was there as the record says.
pub record IsUndoOf (c : Bytes → Option Bytes) (u : UndoBlock) (height : ℤ) (hash : Bytes)
    : Type 0 where
  pub created :
      All
        (λ o.
          Lacks c (make_utxo_key o.scripthash o.txid o.vout)
          × Lacks c (make_tx_index_key o.txid o.vout))
        u.created_outputs
  pub spent :
      All
        (λ o.
          Holds c (make_utxo_key o.scripthash o.txid o.vout) (utxo_bytes o)
          × Holds c (make_tx_index_key o.txid o.vout) o.scripthash)
        u.spent_outputs
  pub history :
      All
        (λ h. Lacks c (make_history_key h.scripthash h.height h.tx_index h.index))
        u.history_entries
  pub header : Lacks c (make_header_key height)
  pub txids : Lacks c (make_block_txids_key height)
  pub undo : Lacks c (make_undo_key height hash)

abbrev pub SizedOutput : UndoOutput → Type 0
SizedOutput o = (length o.scripthash ≡ 32) × (length o.txid ≡ 32)

-- The hashes of the record have 32 bytes.
pub record IsSized (u : UndoBlock) : Type 0 where
  pub created : All SizedOutput u.created_outputs
  pub spent : All SizedOutput u.spent_outputs
  pub history : All (λ h. length h.scripthash ≡ 32) u.history_entries

unfoldable pub touched : Batch → Bytes → Bool
touched [] k = false
touched (o ∷ ops) k = bytes_eq (op_key o) k || touched ops k

pub touched-append : (a b : Batch) (k : Bytes) → touched (a ++ b) k ≡ (touched a k || touched b k)
unfolding touched
touched-append [] b k = refl
touched-append (o ∷ a) b k = ground (arith, touched-append a b k)

pub mentions-append :
    (a b : List (Result Bytes)) (k : Bytes) → mentions (a ++ b) k ≡ (mentions a k || mentions b k)
mentions-append [] b k = refl
mentions-append (r ∷ a) b k = ground (arith, mentions-append a b k)

-- A batch leaves alone the keys that it does not touch.
pub overlay-untouched :
    (ops : Batch) (now : Bytes → Option Bytes) (k : Bytes)
    → touched ops k ≡ false
    → overlay ops now k ≡ now k
unfolding overlay touched
overlay-untouched [] now k h = refl
overlay-untouched (o ∷ ops) now k h =
    ground
      (arith, overlay-untouched ops (λ j. if bytes_eq (op_key o) j then written o else now j) k, h)

-- The last operation of a batch counts at its key.
pub overlay-then :
    (ops : Batch) (o : Op) (now : Bytes → Option Bytes) (k : Bytes)
    → overlay (ops ++ (o ∷ [])) now k
      ≡ (if bytes_eq (op_key o) k then written o else overlay ops now k)
unfolding overlay
overlay-then [] o now k = refl
overlay-then (x ∷ ops) o now k =
    overlay-then ops o (λ j. if bytes_eq (op_key x) j then written x else now j) k

module _ (c : Bytes → Option Bytes) where
  -- The entry writes what stood there before.
  abbrev pub Agrees : Op → Type 0
  Agrees o = written o ≡ c (op_key o)

  pub overlay-agreeing :
      (ops : Batch) (now : Bytes → Option Bytes) (k : Bytes)
      → All Agrees ops
      → overlay ops now k ≡ (if touched ops k then c k else now k)
  unfolding overlay touched
  overlay-agreeing [] now k h = refl
  overlay-agreeing (o ∷ ops) now k (a, h) = ground (
    arith,
    overlay-agreeing ops (λ j. if bytes_eq (op_key o) j then written o else now j) k h,
    bytes_eq_iff (op_key o) k,
    a,
  )

  -- A later batch agrees if the earlier does, and touches these keys besides.
  abbrev pub Extends : Batch → Batch → List (Result Bytes) → Type 0
  Extends a b keys =
      (All Agrees a → All Agrees b) × ((k : Bytes) → touched b k ≡ (touched a k || mentions keys k))

  pub Extends-trans :
      (x y z : Batch) (ks ls : List (Result Bytes))
      → Extends x y ks
      → Extends y z ls
      → Extends x z (ks ++ ls)
  Extends-trans x y z ks ls (f, t) (g, u) =
      (λ h. g (f h), λ k. ground (arith, t k, u k, mentions-append ks ls k))

  pub Extends-op :
      (a : Batch) (o : Op) (r : Result Bytes)
      → r ≡ ok (op_key o)
      → Agrees o
      → Extends a (a ++ (o ∷ [])) (r ∷ [])
  unfolding touched
  Extends-op a o r e h =
      (λ g. All-append Agrees a (o ∷ []) g (h, tt), λ k. rw e (touched-append a (o ∷ []) k))
